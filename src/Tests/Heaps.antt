-- ===== src/Tests/Heaps.antt =====
-- The heap, its map, both allocators, the scan and the reset at concrete inputs.
use garbagecollector.Base.{
  ℕ, ◌+◌, ◌-◌, ◌*◌, ◌/◌, ◌≤◌, ◌<◌, ◌≡◌, ◌≢◌, refl, ◌⊎◌, inl, true, false, List, [], ◌∷◌, none, some,
  All, get_elem?, ltb, leb, ◌&&◌, arith, ap, ◌∙◌,
}
use garbagecollector.Memory.{Memory, store64, load64, load_bytes, store_bytes}
use garbagecollector.Word.{IsWord}
use garbagecollector.Heap.{
  Heap, plus, new_heap, activate, space_addresses, h_init, h_avail, h_used, space_size_bytes,
}
use garbagecollector.Heap.Shape.{IsHeap}
use garbagecollector.Heap.Init.{IsFresh, fraction, new_heap-IsFresh, h_init-IsFresh}
use garbagecollector.AllocMap.{validate_ptr, mark_range}
use garbagecollector.AllocMap.Laws.{marked, Marks, mark_range-Marks}
use garbagecollector.AllocMap.Validate.{validate_ptr-eq, validate_ptr_end}
use garbagecollector.Alloc.{State, Allocation, place_struct, h_alloc_struct}
use garbagecollector.Alloc.Struct.{IsRefused, IsAllocated, h_alloc_struct_lem}
use garbagecollector.Alloc.ReadBack.{h_alloc_struct-read_back}
use garbagecollector.BitVector.RoundTrip.{normalise}
use garbagecollector.Alloc.Raw.{IsRaw, h_alloc_raw-IsRaw}
use garbagecollector.Heap.Delete.{h_delete-h_init}
use garbagecollector.Alloc.{h_alloc_raw}
use garbagecollector.Heap.{above_one, at_most_zero, space_address, int_spaces, int_rounds}
use garbagecollector.Heap.Blocks.{HeapBlocks, Blocks, h_init_blocks, h_delete}
use garbagecollector.Alloc.Room.{space_of, pointer_for, h_alloc_struct-pointer}
use garbagecollector.Stack.Scan.{holds_pointer, filter, stack_slots, root_ptrs_lem}
use garbagecollector.Word.{shr, shl, complement, sub64}
use garbagecollector.BitManip.{mask_from_msb}
use garbagecollector.Footer.{confirm_tag, create_footer}
use garbagecollector.Alloc.Place.{IsPlaced, place_struct-IsPlaced}
use garbagecollector.Stack.Footers.{load64-IsPlaced, find_header_address_through_footer-IsPlaced}
use garbagecollector.Base.{◌^◌}
use garbagecollector.BitManip.{get_bit_at_index_from_msb, set_bit_at_index_from_msb}
use garbagecollector.Word.{is_nonzero}
use garbagecollector.Stack.{
  push_root, pointer_check_vaild, find_header_address_through_footer, Roots, root_ptrs, scan,
  scan_word,
}
use garbagecollector.Collect.{reset_front, h_gc_dbg}
use garbagecollector.Collect.Reset.{IsReset, reset_front-IsReset, h_gc_dbg-last_root}
use garbagecollector.FormatStr.{
  fault, ok, create_format_str, format_str_bytes, isdigit, is_layout_char, interpreted_format_str,
  interpret, expanded_length, expanded_str, write_buffer, next_count, size_of_int, count_rounds,
}
use garbagecollector.Utils.{isspace, trim_whitespace, trim_end, skip_spaces, last_kept}
use garbagecollector.BitVector.{required_bits, get_size_bits_field, bit_vector_to_format_string}

abbrev heap : Heap
heap = new_heap 4096 8192 false (plus 1)

heap-IsFresh : IsFresh 4096 8192 heap
heap-IsFresh = new_heap-IsFresh 4096 8192 false (plus 1) refl (omega arith) (omega arith)

heap-IsHeap : IsHeap 4096 heap
heap-IsHeap = heap-IsFresh.shape

-- A stack with a word that points into the heap.
abbrev memory : Memory
memory = store64 160 4104 (λ a. 0)

abbrev state : State
state = record { heap = heap; memory = memory }

-- "i*"
abbrev layout : List ℕ
layout = b'i' ∷ b'*' ∷ []

expanded : create_format_str (some layout) ≡ ok layout
unfolding isspace trim_whitespace trim_end skip_spaces last_kept isdigit is_layout_char
    interpreted_format_str interpret expanded_length expanded_str write_buffer create_format_str
    next_count size_of_int count_rounds
expanded = refl

layout_safe : create_format_str (some layout) ≢ fault
layout_safe e = ground (arith, expanded, e)

h_alloc_struct_lem_example :
    (a : Allocation) × (h_alloc_struct (some layout) state ≡ some a)
    × (IsRefused 4096 state a ⊎ IsAllocated 4096 (some layout) state a)
h_alloc_struct_lem_example = h_alloc_struct_lem 4096 state heap-IsHeap (some layout) layout_safe

active_front : get_elem? heap.space_is_active ((heap.alloc_front - 4096) / 2048) ≡ some true
unfolding new_heap activate space_address int_spaces int_rounds
active_front = refl

layout_bits : required_bits layout ≤ 54
unfolding required_bits
layout_bits = omega arith

room : format_str_bytes layout + 8 ≤ h_avail heap
unfolding new_heap h_avail h_used format_str_bytes space_address int_spaces int_rounds
room = omega arith

h_alloc_struct-pointer_example :
    (a : Allocation) × (h_alloc_struct (some layout) state ≡ some a)
    × (a.pointer ≡ pointer_for 4096 heap.alloc_front (format_str_bytes layout))
h_alloc_struct-pointer_example =
    h_alloc_struct-pointer 4096 state b'i' (b'*' ∷ []) layout heap-IsHeap active_front expanded
      layout_bits room

inside : All (λ a. load64 a memory ≢ 4096 + heap.size) (stack_slots 160 128)
unfolding stack_slots load64 load_bytes store64 store_bytes new_heap space_address int_spaces
    int_rounds
inside = (λ e. omega arith, (λ e. omega arith, (λ e. omega arith, (λ e. omega arith, tt))))

root_ptrs_lem_example :
    (r : Roots) × (root_ptrs heap memory 160 128 ≡ some r)
    × (r.pointers ≡ filter (holds_pointer 4096 heap memory) (stack_slots 160 128))
root_ptrs_lem_example = root_ptrs_lem 4096 heap heap-IsHeap memory 160 128 inside

placed :
    (s' : State) × (place_struct memory (record heap { alloc_front = 4096 }) heap.alloc_front 0 8 3
      ≡ some (record { pointer = some (4096 + 8); state = s' }))
    × IsPlaced 4096 state 8 3 (4096 + 8) s'
unfolding new_heap space_address int_spaces int_rounds
placed =
    place_struct-IsPlaced 4096 state heap-IsHeap 0 4096 8 3 (omega arith) (omega arith)
      (omega arith) active_front (omega arith) (omega arith) (inl refl)

no_footer :
    (k : ℕ) → k < 1 - 0 → confirm_tag (load64 (4104 + 8 * 0 + 8 * k) placed.0.memory) ≡ false
unfolding load64 load_bytes store64 store_bytes confirm_tag create_footer get_size_bits_field shr
    shl mask_from_msb complement sub64
no_footer k lt =
    let e : load64 (4104 + 8 * 0 + 8 * k) placed.0.memory ≡ 0 =
      ap (λ (t : ℕ). load64 t placed.0.memory) (omega arith)
      ∙ load64-IsPlaced 4096 state placed.0 8 3 4104 4104 placed.2 (omega arith) (omega arith) in
    ap confirm_tag e

find_header_address_through_footer-IsPlaced_example :
    find_header_address_through_footer
      (4104 + 8 * 0)
      (4104 + 8 * 0 + space_size_bytes)
      placed.0.memory
    ≡ some (4104 - 8)
find_header_address_through_footer-IsPlaced_example =
    find_header_address_through_footer-IsPlaced 4096 state placed.0 1 3 4104 0 placed.2
      (omega arith) (omega arith) (omega arith) no_footer

reset_front-IsReset_example : IsReset 4096 heap (reset_front heap)
reset_front-IsReset_example = reset_front-IsReset 4096 heap heap-IsHeap

-- The same state with the first segment of the heap marked, so that the word at 160 is a root.
abbrev one_root : State
one_root = record state {
  heap = record heap { alloc_map = 2 ^ 63 ∷ 0 ∷ 0 ∷ 0 ∷ 0 ∷ 0 ∷ 0 ∷ 0 ∷ [] };
}

found_root :
    root_ptrs one_root.heap memory 168 128 ≡ some (record { capacity = 128; pointers = 160 ∷ [] })
unfolding root_ptrs scan scan_word validate_ptr new_heap activate space_addresses load64 load_bytes
    store64 store_bytes space_address int_spaces int_rounds push_root pointer_check_vaild
    get_bit_at_index_from_msb is_nonzero set_bit_at_index_from_msb shl sub64
found_root = refl

h_gc_dbg-last_root_example :
    h_gc_dbg one_root true 168 128
    ≡ some (one_root.heap.used_bytes, record one_root { heap = reset_front one_root.heap })
unfolding new_heap space_address int_spaces int_rounds
h_gc_dbg-last_root_example =
    h_gc_dbg-last_root one_root true 168 128 (record { capacity = 128; pointers = 160 ∷ [] })
      found_root (omega arith) (omega arith)

h_init-IsFresh_example :
    (h : Heap) × (h_init 4096 8192 false (plus 1) ≡ some h) × IsFresh 4096 8192 h
h_init-IsFresh_example =
    h_init-IsFresh 4096 8192 false (plus 1) refl (omega arith) (omega arith)
      (fraction 1 (omega arith) (omega arith))

validate_ptr-eq_example :
    validate_ptr heap 4104
    ≡ some
        (leb 4096 4104 && ltb 4104 (4096 + heap.size) && marked heap.alloc_map ((4104 - 4096) / 16))
unfolding new_heap space_address int_spaces int_rounds
validate_ptr-eq_example = validate_ptr-eq 4096 heap heap-IsHeap 4104 (λ e. omega arith)

validate_ptr_end_example : validate_ptr heap 12288 ≡ none
unfolding new_heap space_address int_spaces int_rounds
validate_ptr_end_example = validate_ptr_end 4096 heap heap-IsHeap 12288 refl

map_words : All IsWord (0 ∷ 0 ∷ [])
map_words = (omega arith, (omega arith, tt))

mark_range-Marks_example :
    (map' : List ℕ) × (mark_range 60 10 (0 ∷ 0 ∷ []) ≡ some map')
    × Marks (0 ∷ 0 ∷ []) 60 (60 + 10) map'
mark_range-Marks_example = mark_range-Marks (0 ∷ 0 ∷ []) 60 10 map_words (omega arith)

allocated :
    (a : Allocation) × (h_alloc_struct (some layout) state ≡ some a) × (a.pointer ≡ some 4104)
unfolding pointer_for space_of new_heap format_str_bytes space_address int_spaces int_rounds
allocated =
    h_alloc_struct-pointer 4096 state b'i' (b'*' ∷ []) layout heap-IsHeap active_front expanded
      layout_bits room

h_alloc_struct-read_back_example :
    (get_size_bits_field (load64 (4104 - 8) allocated.0.state.memory) ≡ format_str_bytes layout)
    × (bit_vector_to_format_string (load64 (4104 - 8) allocated.0.state.memory)
        ≡ ok (normalise layout))
h_alloc_struct-read_back_example =
    h_alloc_struct-read_back 4096 state layout b'i' (b'*' ∷ []) allocated.0 4104 heap-IsHeap
      expanded layout_bits allocated.1 allocated.2

raw_avail : 100 ≤ h_avail heap
unfolding new_heap h_avail h_used space_address int_spaces int_rounds
raw_avail = omega arith

raw_room : heap.alloc_front + 8 + 100 + 8 < 4096 + heap.size
unfolding new_heap space_address int_spaces int_rounds
raw_room = omega arith

h_alloc_raw-IsRaw_example :
    (s' : State) × (h_alloc_raw 100 state
      ≡ some (record { pointer = some (heap.alloc_front + 8); state = s' }))
    × IsRaw 4096 state 100 s'
h_alloc_raw-IsRaw_example =
    h_alloc_raw-IsRaw 4096 state 100 heap-IsHeap (omega arith) (omega arith) raw_avail raw_room

initialised : h_init 4096 8192 false (plus 1) ≡ some heap
unfolding h_init above_one at_most_zero
initialised = refl

-- One block that is live before.
abbrev other_block : Blocks
other_block = record { next = 1; live = 0 ∷ [] }

h_delete-h_init_example :
    (pointers : HeapBlocks) × (b' : Blocks) × (h_init_blocks 4096 8192 false (plus 1) other_block
      ≡ (some pointers, b'))
    × (h_delete pointers b' ≡ some (record { next = 7; live = 6 ∷ 4 ∷ 0 ∷ [] }))
h_delete-h_init_example = h_delete-h_init 4096 8192 false (plus 1) heap other_block initialised
