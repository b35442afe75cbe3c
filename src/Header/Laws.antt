-- ===== src/Header/Laws.antt =====
-- The type of a header is its two lowest bits; what each kind of header word reads back as.
use garbagecollector.Base.{
  ℕ, ◌+◌, ◌*◌, ◌/◌, ◌%◌, ◌^◌, ◌<◌, ◌≡◌, ◌∙◌, sym, ap, arith, bit_or, bit_and, List, Option, some,
  ◌==◌, if◌then◌else◌,
}
use garbagecollector.Word.{shl, shr, complement, sub64}
use garbagecollector.BitManip.{mask_from_lsb}
use garbagecollector.BitManip.Arithmetic.{or-shl, mask_from_msb-eq-mod, mask_from_lsb-eq-mul}
use garbagecollector.RawLayout.{create_raw_header}
use garbagecollector.RawLayout.Laws.{create_raw_header-eq-add}
use garbagecollector.Header.{
  HeaderType, ptr_to_format_string, forwarding_address, raw_layout, bit_vector, Header, header_new,
  get_header_type, header_get_size, header_get_address, set_header_forward_address, set_header,
  raw_layout_get_size,
}

abbrev pub type_of_code : ℕ → HeaderType
type_of_code code =
    if code == 1
    then forwarding_address
    else if code == 2
    then raw_layout
    else if code == 3
    then bit_vector
    else ptr_to_format_string

-- The type of a header is read from the two lowest bits.
pub get_header_type-mod :
    (header : Header)
    → header.data_word < 2 ^ 64
    → get_header_type header ≡ type_of_code (header.data_word % 4)
unfolding get_header_type
get_header_type-mod header small =
    ground (arith, mask_from_msb-eq-mod header.data_word 62 (omega arith) small)

-- A raw header has the raw type and the size that it was made with.
pub header_get_size-create_raw_header :
    (c_string : ℕ → Option (List ℕ)) (bytes : ℕ)
    → bytes < 2 ^ 62
    → (get_header_type (header_new (create_raw_header bytes)) ≡ raw_layout)
      × (header_get_size c_string (header_new (create_raw_header bytes)) ≡ some bytes)
unfolding header_get_size header_new raw_layout_get_size shr
header_get_size-create_raw_header c_string bytes h =
    let word = create_raw_header-eq-add bytes h in
    let type = get_header_type-mod (header_new (create_raw_header bytes)) (omega arith) in
    ground arith

shl_four : (address : ℕ) → address < 2 ^ 64 → shl (address / 4) 2 ≡ address / 4 * 4
unfolding shl
shl_four address small = omega arith

clear_type : (address : ℕ) → address < 2 ^ 64 → bit_and address (complement 3) ≡ address / 4 * 4
unfolding mask_from_lsb sub64 shl
clear_type address small = mask_from_lsb-eq-mul address 2 small

pub forward_word :
    (header : Header) (address : ℕ)
    → address < 2 ^ 64
    → (set_header_forward_address header address).data_word ≡ address / 4 * 4 + 1
unfolding set_header_forward_address set_header
forward_word header address small =
    ap (λ (t : ℕ). bit_or t 1) (clear_type address small ∙ sym (shl_four address small))
    ∙ or-shl 2 (address / 4) 1 (omega arith) (omega arith)

-- A forwarding header has the forwarding type, and gives back the address without its two lowest
-- bits; so an address that is a multiple of 4 comes back.
pub header_get_address-set_header_forward_address :
    (header : Header) (address : ℕ)
    → address < 2 ^ 64
    → (get_header_type (set_header_forward_address header address) ≡ forwarding_address)
      × (header_get_address (set_header_forward_address header address) ≡ address / 4 * 4)
unfolding header_get_address
header_get_address-set_header_forward_address header address small =
    let new = set_header_forward_address header address in
    let word = forward_word header address small in
    let code : new.data_word % 4 ≡ 1 = omega arith in
    let type : get_header_type new ≡ forwarding_address =
      get_header_type-mod new (omega arith) ∙ ap type_of_code code in
    (
      type,
      rw (type, header_get_address)
          (mask_from_lsb-eq-mul new.data_word 2 (omega arith) ∙ omega arith),
    )
