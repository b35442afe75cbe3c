-- ===== src/Header.antt =====
-- src/header/header.c and `HEADER_TYPE_T` of src/common.h: the header word and its four types. A
-- header is its `data`, so `header_new`, `get_header` and `set_header` are the value itself.
pub mod Laws
use garbagecollector.Base.{
  ℕ, ◌==◌, ◌-◌, List, bit_and, bit_or, if◌then◌else◌, Option, none, some, Bool, true, false,
}
use garbagecollector.Word.{shr, complement}
use garbagecollector.BitManip.{mask_from_lsb, mask_from_msb}
use garbagecollector.FormatStr.{Outcome, null, fault, ok, create_format_str, format_str_bytes}
use garbagecollector.BitVector.{OptionT, to_bit_vector, get_size_bits_field, get_layout_bits_field}

pub data HeaderType : Type 0 where
  ptr_to_format_string forwarding_address raw_layout bit_vector : HeaderType

pub record Header : Type 0 where
  pub data_word : ℕ

unfoldable pub header_new : ℕ → Header
header_new word = record { data_word = word }

unfoldable pub set_header : Header → ℕ → Header
set_header header word = record header { data_word = word }

unfoldable pub get_header : Header → ℕ
get_header header = header.data_word

unfoldable pub get_header_type : Header → HeaderType
get_header_type header =
    let masked_data = mask_from_msb header.data_word 62 in
    if masked_data == 0
    then ptr_to_format_string
    else if masked_data == 1
    then forwarding_address
    else if masked_data == 2
    then raw_layout
    else if masked_data == 3
    then bit_vector
    else ptr_to_format_string

unfoldable pub header_get_address : Header → ℕ
header_get_address header = elim (get_header_type header) [
  | ptr_to_format_string ↦ mask_from_lsb header.data_word 2
  | forwarding_address ↦ mask_from_lsb header.data_word 2
  | _ ↦ 0
]

unfoldable pub set_header_forward_address : Header → ℕ → Header
set_header_forward_address header address =
    let forward_address = bit_and address (complement 3) in
    let forward_address = bit_or forward_address 1 in set_header header forward_address

unfoldable pub raw_layout_get_size : Header → ℕ
raw_layout_get_size header = shr header.data_word 2

unfoldable pub bit_vector_get_size : Header → ℕ
bit_vector_get_size header = get_size_bits_field header.data_word

unfoldable pub forwarding_address_get_size : Header → ℕ
forwarding_address_get_size header = 0

-- `c_string` reads the C string at an address; `none` stands for an address with no string, which
-- the code must not be given.
module _ (c_string : ℕ → Option (List ℕ)) where
  -- `create_format_str` of the string that the header points to. `none`: undefined behaviour, or
  -- the failed assertion of `format_str_bytes` on NULL.
  unfoldable pub format_at : Header → Option (List ℕ)
  format_at header = elim (c_string header.data_word) [
    | none ↦ none
    | some string ↦ (elim (create_format_str (some string)) [ ok str ↦ some str | _ ↦ none ])
  ]

  unfoldable pub ptr_to_format_string_get_size : Header → Option ℕ
  ptr_to_format_string_get_size header = elim (format_at header) [
    | none ↦ none
    | some str ↦ some (format_str_bytes str)
  ]

  unfoldable pub header_get_size : Header → Option ℕ
  header_get_size header = elim (get_header_type header) [
    | ptr_to_format_string ↦ ptr_to_format_string_get_size header
    | forwarding_address ↦ some (forwarding_address_get_size header)
    | raw_layout ↦ some (raw_layout_get_size header)
    | bit_vector ↦ some (bit_vector_get_size header)
  ]

  unfoldable pub get_header_layout : Header → Option ℕ
  get_header_layout header = elim (get_header_type header) [
    | ptr_to_format_string ↦ (elim (format_at header) [
      | none ↦ none
      | some str ↦ some (get_layout_bits_field (to_bit_vector str).bit_vector)
    ])
    | bit_vector ↦ some (get_layout_bits_field header.data_word)
    | _ ↦ some 0
  ]
