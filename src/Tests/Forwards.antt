-- ===== src/Tests/Forwards.antt =====
-- A root that points into a moved object, at concrete addresses.
use garbagecollector.Base.{◌+◌, ◌-◌, ◌≡◌, refl, some, false, arith}
use garbagecollector.Memory.{Memory, store64, load64, store_bytes, load_bytes}
use garbagecollector.Word.{shr, shl, complement, sub64}
use garbagecollector.BitManip.{mask_from_msb}
use garbagecollector.BitVector.{get_size_bits_field}
use garbagecollector.Footer.{create_footer, confirm_tag}
use garbagecollector.Header.{header_new, set_header, set_header_forward_address}
use garbagecollector.Heap.{plus, new_heap, space_size_bytes}
use garbagecollector.Alloc.{State}
use garbagecollector.Stack.{find_footer, find_header_address_through_footer}
use garbagecollector.Collect.{garbage_collection}
use garbagecollector.Collect.Forward.{garbage_collection-forwarded}

-- The object of 8 bytes at 4104 has moved to the one with the header at 8192; the root is at 160.
abbrev memory : Memory
memory = store64 160 4104 (store64 4096 8193 (store64 4112 (create_footer 8) (λ a. 0)))

abbrev state : State
state = record { heap = new_heap 4096 8192 false (plus 1); memory = memory }

root_word : load64 160 memory ≡ 4104
unfolding load64 store64 load_bytes store_bytes
root_word = refl

found :
    find_header_address_through_footer
      (load64 160 memory)
      (load64 160 memory + space_size_bytes)
      memory
    ≡ some 4096
unfolding find_header_address_through_footer find_footer load64 store64 load_bytes store_bytes
    create_footer confirm_tag get_size_bits_field shr shl complement sub64 mask_from_msb
found = refl

forwards : load64 4096 memory ≡ (set_header_forward_address (header_new 3) 8192).data_word
unfolding load64 store64 load_bytes store_bytes set_header_forward_address set_header header_new
    create_footer complement
forwards = refl

garbage_collection-forwarded_example :
    garbage_collection state 160
    ≡ some (record state { memory = store64 160 (8192 + (load64 160 memory - 4096)) memory })
garbage_collection-forwarded_example =
    garbage_collection-forwarded state 160 4096 8192 3 (λ e. omega arith) (omega (arith, root_word))
      found forwards refl (omega (arith, root_word)) (omega (arith, root_word))
