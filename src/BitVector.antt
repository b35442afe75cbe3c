-- ===== src/BitVector.antt =====
-- src/header/bit_vector.c: the header word of a structure, from the most significant bit 8 bits of
-- size, 54 bits of layout and 2 bits of type.
pub mod Layout
pub mod Encode
pub mod RoundTrip
use garbagecollector.Base.{
  ℕ, zero, suc, ◌+◌, ◌-◌, ◌*◌, ◌/◌, ◌<◌, Bool, true, false, List, [], ◌∷◌, ◌==◌, leb, length,
  bit_or, if◌then◌else◌, Option, none, some,
}
use garbagecollector.Word.{shl, shr, is_nonzero}
use garbagecollector.BitManip.{
  set_bit_at_index_from_msb, set_bit_at_index_from_lsb, get_bit_at_index_from_msb, mask_from_lsb,
}
use garbagecollector.FormatStr.{Outcome, null, fault, ok, format_str_bytes, create_format_str}

-- `option_t`
pub record OptionT : Type 0 where
  pub success : Bool
  pub total_bits : ℕ
  pub bit_vector : ℕ

abbrev pub interpreted_size : ℕ → ℕ
interpreted_size c =
    if c == b'*'
    then 2
    else if c == b'c'
    then 1
    else if c == b'i'
    then 1
    else if c == b'l'
    then 2
    else if c == b'f'
    then 1
    else if c == b'd'
    then 2
    else 0

unfoldable pub required_bits : List ℕ → ℕ
required_bits [] = 0
required_bits (c ∷ str) = interpreted_size c + required_bits str

unfoldable pub enough_bits_for_layout : List ℕ → Bool
enough_bits_for_layout format = leb (required_bits format) 54

-- The loop of `get_layout_bits`; a character that is no field ends it with 0.
unfoldable pub layout_loop : List ℕ → ℕ → ℕ → ℕ
layout_loop [] iter layout_bits = layout_bits
layout_loop (c ∷ str) iter layout_bits =
    let pointer = layout_loop str (iter + 1) (set_bit_at_index_from_msb layout_bits iter true) in
    let single = layout_loop str (iter + 1) (set_bit_at_index_from_msb layout_bits iter false) in
    let double = layout_loop str (iter + 2) (set_bit_at_index_from_msb layout_bits iter false) in
    if c == b'*'
    then pointer
    else if c == b'c'
    then single
    else if c == b'i'
    then single
    else if c == b'l'
    then double
    else if c == b'f'
    then single
    else if c == b'd'
    then double
    else 0x0

unfoldable pub get_layout_bits : List ℕ → ℕ
get_layout_bits format = layout_loop format 0 0

unfoldable pub to_bit_vector : List ℕ → OptionT
to_bit_vector format =
    if enough_bits_for_layout format
    then (let size = shl (format_str_bytes format) 56 in
        let layout_bits = shr (get_layout_bits format) 8 in
        let merged_bits = bit_or layout_bits size in
        let merged_bits = set_bit_at_index_from_lsb merged_bits 0 true in
        let merged_bits = set_bit_at_index_from_lsb merged_bits 1 true in
        record { success = true; total_bits = 0; bit_vector = merged_bits })
    else record { success = false; total_bits = 0; bit_vector = 0 }

unfoldable pub get_size_bits_field : ℕ → ℕ
get_size_bits_field bits = shr bits 56

unfoldable pub get_layout_bits_field : ℕ → ℕ
get_layout_bits_field bits = shl (mask_from_lsb bits 2) 8

-- The loop of `bit_vector_to_format_string` from index `i`, with `left` rounds up to 54: the
-- characters that it writes at `buffer_str[i]`, ...
unfoldable pub decode_loop : ℕ → ℕ → ℕ → ℕ → ℕ → List ℕ
decode_loop layout_bits size i zero accumulated = []
decode_loop layout_bits size i (suc left) accumulated =
    let current_bit = is_nonzero (get_bit_at_index_from_msb layout_bits i) in
    let accumulated' : ℕ = if current_bit then accumulated + 2 * 4 else accumulated + 1 * 4 in
    let rest = decode_loop layout_bits size (i + 1) left accumulated' in
    let c : ℕ = if current_bit then b'*' else b'i' in
    c ∷ (if leb size accumulated' then [] else rest)

-- The buffer has `size / 4 + 1` bytes, all 0 at first. A string that leaves no 0 in it is written
-- or read behind its end.
unfoldable pub bit_vector_to_format_string : ℕ → Outcome
bit_vector_to_format_string bits =
    let size = get_size_bits_field bits in
    let layout_bits = get_layout_bits_field bits in
    let buffer_size = size / 4 in
    let buffer_str = decode_loop layout_bits size 0 54 0 in
    if leb (length buffer_str) buffer_size then create_format_str (some buffer_str) else fault
