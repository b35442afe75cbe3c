-- ===== src/Tests/Moves.antt =====
-- A root that points to an object that has not been moved, at concrete addresses.
use garbagecollector.Base.{◌+◌, ◌≤◌, ◌≡◌, refl, inl, some, ℕ, [], ◌∷◌, arith}
use garbagecollector.Memory.{Memory, store64, load64, store_bytes, load_bytes}
use garbagecollector.Word.{shr, shl, complement, sub64, is_nonzero}
use garbagecollector.BitManip.{
  mask_from_msb, mask_from_lsb, get_bit_at_index_from_msb, set_bit_at_index_from_msb,
}
use garbagecollector.BitVector.{
  required_bits, get_size_bits_field, get_layout_bits_field, decode_loop,
  bit_vector_to_format_string,
}
use garbagecollector.FormatStr.{
  ok, create_format_str, format_str_bytes, isdigit, is_layout_char, interpreted_format_str,
  interpret, expanded_length, expanded_str, write_buffer, next_count, size_of_int, count_rounds,
}
use garbagecollector.Utils.{isspace, trim_whitespace, trim_end, skip_spaces, last_kept}
use garbagecollector.Footer.{create_footer, confirm_tag}
use garbagecollector.Header.{bit_vector, header_new, get_header_type}
use garbagecollector.Heap.{space_size_bytes}
use garbagecollector.Alloc.{State}
use garbagecollector.Alloc.Fresh.{HasRoom-IsSpare}
use garbagecollector.Stack.{find_footer, find_header_address_through_footer}
use garbagecollector.Collect.{garbage_collection}
use garbagecollector.Collect.Move.{IsMoved, garbage_collection-IsMoved}
use garbagecollector.Tests.Lists.{heap, heap-IsSpare}

-- The object of one pointer at 4104, with the root at 160.
abbrev word : ℕ
word = 0x0880000000000003

abbrev memory : Memory
memory = store64 160 4104 (store64 4096 word (store64 4112 (create_footer 8) (λ a. 0)))

abbrev state : State
state = record { heap = heap; memory = memory }

root_word : load64 160 memory ≡ 4104
unfolding load64 store64 load_bytes store_bytes
root_word = refl

found :
    find_header_address_through_footer
      (load64 160 memory)
      (load64 160 memory + space_size_bytes)
      memory
    ≡ some 4096
unfolding find_header_address_through_footer find_footer load64 store64 load_bytes store_bytes
    create_footer confirm_tag get_size_bits_field shr shl complement sub64 mask_from_msb
found = refl

header_word : load64 4096 memory ≡ word
unfolding load64 store64 load_bytes store_bytes
header_word = refl

type : get_header_type (header_new word) ≡ bit_vector
unfolding get_header_type header_new mask_from_msb shr shl complement sub64
type = refl

string : bit_vector_to_format_string word ≡ ok (b'*' ∷ [])
unfolding bit_vector_to_format_string decode_loop get_size_bits_field get_layout_bits_field
    get_bit_at_index_from_msb set_bit_at_index_from_msb mask_from_lsb shr shl complement sub64
    is_nonzero is_layout_char isspace trim_whitespace trim_end skip_spaces last_kept isdigit
    interpreted_format_str interpret expanded_length expanded_str write_buffer create_format_str
    next_count size_of_int count_rounds
string = refl

bytes : get_size_bits_field word ≡ format_str_bytes (b'*' ∷ [])
unfolding get_size_bits_field shr format_str_bytes
bytes = refl

expands : create_format_str (some (b'*' ∷ [])) ≡ ok (b'*' ∷ [])
unfolding isspace trim_whitespace trim_end skip_spaces last_kept isdigit is_layout_char
    interpreted_format_str interpret expanded_length expanded_str write_buffer create_format_str
    next_count size_of_int count_rounds
expands = refl

eight : format_str_bytes (b'*' ∷ []) ≡ 8
unfolding format_str_bytes
eight = refl

bits : required_bits (b'*' ∷ []) ≤ 54
unfolding required_bits
bits = omega arith

garbage_collection-IsMoved_example :
    (s' : State) × (garbage_collection state 160 ≡ some s')
    × IsMoved 4096 state 160 4096 (4400 + 8) word (b'*' ∷ []) s'
garbage_collection-IsMoved_example =
    garbage_collection-IsMoved 4096 state 160 4096 word b'*' [] (λ e. omega (arith, e))
      (omega (arith, root_word)) root_word found header_word type string bytes expands bits
      (HasRoom-IsSpare 4096 state 100 100 (format_str_bytes (b'*' ∷ []))
        (heap-IsSpare 100 100 (omega arith) (omega arith)) (omega (arith, eight))
        (omega (arith, eight)))
      (omega (arith, eight)) (omega (arith, eight)) (inl (omega arith))
