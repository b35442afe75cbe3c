-- ===== src/Tests/Words.antt =====
-- Words, headers and footers at concrete inputs.
use garbagecollector.Base.{
  ◌-◌, ◌*◌, ◌/◌, ◌≡◌, ◌↔◌, refl, arith, true, false, none, some, ◌==◌, if◌then◌else◌,
}
use garbagecollector.Bits.{test_bit}
use garbagecollector.Word.{shl, shr}
use garbagecollector.BitManip.{
  bits_to_bitstring, bitstring_to_bits, reverse_bits, swap_groups, set_bit_at_index_from_lsb,
  set_bit_at_index_from_msb,
}
use garbagecollector.BitManip.Text.{bitstring_to_bits-bits_to_bitstring}
use garbagecollector.BitManip.Reverse.{test_bit-reverse_bits}
use garbagecollector.BitManip.Select.{
  test_bit-set_bit_at_index_from_lsb, test_bit-set_bit_at_index_from_msb,
}
use garbagecollector.BitVector.{get_size_bits_field}
use garbagecollector.Footer.{create_footer, confirm_tag}
use garbagecollector.Footer.Laws.{confirm_tag_iff}
use garbagecollector.RawLayout.{create_raw_header}
use garbagecollector.Header.{
  raw_layout, forwarding_address, header_new, get_header_type, header_get_size, header_get_address,
  set_header_forward_address,
}
use garbagecollector.Header.Laws.{
  header_get_size-create_raw_header, header_get_address-set_header_forward_address,
}

bitstring_to_bits-bits_to_bitstring_example :
    bitstring_to_bits (bits_to_bitstring 0xDEADBEEF) ≡ some 0xDEADBEEF
bitstring_to_bits-bits_to_bitstring_example =
    bitstring_to_bits-bits_to_bitstring 0xDEADBEEF (omega arith)

test_bit-reverse_bits_example : test_bit (reverse_bits 0xF0) 60 ≡ test_bit 0xF0 (63 - 60)
test_bit-reverse_bits_example = test_bit-reverse_bits 0xF0 60 (omega arith) (omega arith)

reverse_bits_run : reverse_bits 0xF00000000000000F ≡ 0xF00000000000000F
unfolding reverse_bits swap_groups shl shr
reverse_bits_run = refl

test_bit-set_bit_at_index_from_lsb_example :
    test_bit (set_bit_at_index_from_lsb 0xE7 0 false) 0
    ≡ (if ◌==◌ 0 0 then false else test_bit 0xE7 0)
test_bit-set_bit_at_index_from_lsb_example =
    test_bit-set_bit_at_index_from_lsb 0xE7 0 false 0 (omega arith) (omega arith)

test_bit-set_bit_at_index_from_msb_example :
    test_bit (set_bit_at_index_from_msb 0xE7 1 true) 62
    ≡ (if ◌==◌ (63 - 62) 1 then true else test_bit 0xE7 62)
test_bit-set_bit_at_index_from_msb_example =
    test_bit-set_bit_at_index_from_msb 0xE7 1 true 62 (omega arith) (omega arith)

confirm_tag_iff_example :
    (confirm_tag 0x18DEADBEEFCAFEBA ≡ true)
    ↔ (0x18DEADBEEFCAFEBA ≡ create_footer (get_size_bits_field 0x18DEADBEEFCAFEBA))
confirm_tag_iff_example = confirm_tag_iff 0x18DEADBEEFCAFEBA (omega arith)

header_get_size-create_raw_header_example :
    (get_header_type (header_new (create_raw_header 100)) ≡ raw_layout)
    × (header_get_size (λ _. none) (header_new (create_raw_header 100)) ≡ some 100)
header_get_size-create_raw_header_example =
    header_get_size-create_raw_header (λ _. none) 100 (omega arith)

header_get_address-set_header_forward_address_example :
    (get_header_type (set_header_forward_address (header_new 3) 0x7F00) ≡ forwarding_address)
    × (header_get_address (set_header_forward_address (header_new 3) 0x7F00) ≡ 0x7F00 / 4 * 4)
header_get_address-set_header_forward_address_example =
    header_get_address-set_header_forward_address (header_new 3) 0x7F00 (omega arith)
