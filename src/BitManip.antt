-- ===== src/BitManip.antt =====
-- src/header/bit_manip.c: operations on the bits of `uint64_t` words, and the text form of a word.
-- The words are natural numbers below 2 ^ 64, and allocation does not fail.
pub mod Select
pub mod Reverse
pub mod Arithmetic
pub mod Text
use garbagecollector.Base.{
  ℕ, zero, suc, ◌+◌, ◌-◌, ◌%◌, bit_and, bit_or, Bool, true, ◌&&◌, not, List, [], ◌∷◌, ◌==◌, leb,
  if◌then◌else◌, Option, none, some, get_elem?, length,
}
use garbagecollector.Word.{shl, shr, complement, sub64, is_nonzero}
use garbagecollector.Utils.{remove_all_spaces}

-- The loop of `bits_to_bitstring` with `i` rounds left, for the bits `i - 1` down to 0.
unfoldable pub bitstring_loop : ℕ → ℕ → List ℕ
bitstring_loop bits zero = []
bitstring_loop bits (suc i) =
    let digit : ℕ = if is_nonzero (bit_and bits (shl 1 i)) then b'1' else b'0' in
    let rest = bitstring_loop bits i in
    digit ∷ (if i % 8 == 0 && not (i == 0) then b' ' ∷ rest else rest)

unfoldable pub bits_to_bitstring : ℕ → List ℕ
bits_to_bitstring bits = bitstring_loop bits 64

-- A read of `s[i]` in a C string: the terminator at its length, undefined behaviour behind that.
abbrev pub char_at : List ℕ → ℕ → Option ℕ
char_at s i = if i == length s then some 0 else get_elem? s i

infixl 5 ◌>>=◌
abbrev pub ◌>>=◌ : Option ℕ → (ℕ → Option ℕ) → Option ℕ
none >>= f = none
some x >>= f = f x

-- The loop of `bitstring_to_bits` at index `i`, with `left` rounds left.
unfoldable pub parse_loop : List ℕ → ℕ → ℕ → ℕ → Option ℕ
parse_loop s zero i bits = some bits
parse_loop s (suc left) i bits = do
  c ← char_at s i
  parse_loop s left (i + 1) (bit_or (shl bits 1) (if c == b'1' then 1 else 0))

-- `none` is a read behind the end of the string.
unfoldable pub bitstring_to_bits : List ℕ → Option ℕ
bitstring_to_bits bitstring = parse_loop (remove_all_spaces bitstring) 64 0 0

-- One line of `reverse_bits`: neighbouring groups of `s` bits change places.
unfoldable pub swap_groups : ℕ → ℕ → ℕ → ℕ
swap_groups s mask source = bit_or (bit_and (shr source s) mask) (shl (bit_and source mask) s)

unfoldable pub reverse_bits : ℕ → ℕ
reverse_bits source =
    let a = swap_groups 1 0x5555555555555555 source in
    let b = swap_groups 2 0x3333333333333333 a in
    let c = swap_groups 4 0x0F0F0F0F0F0F0F0F b in
    let d = swap_groups 8 0x00FF00FF00FF00FF c in
    let e = swap_groups 16 0x0000FFFF0000FFFF d in bit_or (shr e 32) (shl e 32)

unfoldable pub set_upper_4bytes : ℕ → ℕ → ℕ
set_upper_4bytes dest bits =
    let masked_dest = bit_and dest 0x00000000FFFFFFFF in
    let masked_bits = shl bits 32 in bit_or masked_dest masked_bits

unfoldable pub set_lower_4bytes : ℕ → ℕ → ℕ
set_lower_4bytes dest bits =
    let masked_dest = bit_and dest 0xFFFFFFFF00000000 in bit_or masked_dest bits

unfoldable pub copy_bits_from_lsb : ℕ → ℕ → ℕ → ℕ
copy_bits_from_lsb dest source number_of_bits =
    let mask : ℕ =
      if number_of_bits == 64 then 0xFFFFFFFFFFFFFFFF else sub64 (shl 1 number_of_bits) 1 in
    let masked_source = bit_and source mask in
    let masked_dest = bit_and dest (complement mask) in bit_or masked_dest masked_source

unfoldable pub copy_bits_from_msb : ℕ → ℕ → ℕ → ℕ
copy_bits_from_msb dest source number_of_bits =
    let mask : ℕ =
      if number_of_bits == 64
      then 0xFFFFFFFFFFFFFFFF
      else shl (sub64 (shl 1 number_of_bits) 1) (64 - number_of_bits) in
    let masked_source = bit_and source mask in
    let masked_dest = bit_and dest (complement mask) in bit_or masked_dest masked_source

unfoldable pub mask_from_lsb : ℕ → ℕ → ℕ
mask_from_lsb source bits_to_reset =
    if bits_to_reset == 0
    then source
    else if leb 64 bits_to_reset
    then 0x0
    else bit_and source (complement (sub64 (shl 1 bits_to_reset) 1))

unfoldable pub mask_from_msb : ℕ → ℕ → ℕ
mask_from_msb source bits_to_reset =
    if bits_to_reset == 0
    then source
    else if leb 64 bits_to_reset
    then 0x0
    else bit_and source (complement (shl (sub64 (shl 1 bits_to_reset) 1) (64 - bits_to_reset)))

unfoldable pub set_bit_at_index_from_lsb : ℕ → ℕ → Bool → ℕ
set_bit_at_index_from_lsb source index value =
    let mask = shl 1 index in if value then bit_or source mask else bit_and source (complement mask)

unfoldable pub set_bit_at_index_from_msb : ℕ → ℕ → Bool → ℕ
set_bit_at_index_from_msb source index value =
    let lsb_index = sub64 63 index in
    let mask = shl 1 lsb_index in
    if value then bit_or source mask else bit_and source (complement mask)

unfoldable pub get_bit_at_index_from_msb : ℕ → ℕ → ℕ
get_bit_at_index_from_msb source index =
    let mask = set_bit_at_index_from_msb 0 index true in bit_and mask source
