-- ===== src/BitManip/Text.antt =====
-- The text form of a word: `bits_to_bitstring` and `bitstring_to_bits`.
use native.Mathlib.Nat.{div-le_self}
use mathlib.Core.Path.{subst}
use garbagecollector.Base.{
  ℕ, zero, suc, ◌+◌, ◌-◌, ◌/◌, ◌^◌, ◌≤◌, ◌<◌, bit_or, ◌≡◌, refl, ap, Bool, true, false, ◌==◌,
  if◌then◌else◌, arith, List, [], ◌∷◌, length, get_elem?, some,
}
use garbagecollector.Bits.{test_bit, test_bit_zero, test_bit-bit_or, test_bit-div}
use garbagecollector.Word.{shl, shl-lt, or-lt, test_bit-shl, word_ext, is_nonzero-and_one}
use garbagecollector.Utils.{isspace, remove_all_spaces}
use garbagecollector.BitManip.{bitstring_loop, bits_to_bitstring, parse_loop, bitstring_to_bits}

digit : Bool → ℕ
digit b = if b then b'1' else b'0'

-- The digits of the bits `n - 1` down to 0.
plain_digits : ℕ → ℕ → List ℕ
plain_digits bits zero = []
plain_digits bits (suc n) = digit (test_bit bits n) ∷ plain_digits bits n

remove_all_spaces-bitstring_loop :
    (bits n : ℕ)
    → bits < 2 ^ 64
    → n ≤ 64
    → remove_all_spaces (bitstring_loop bits n) ≡ plain_digits bits n
unfolding remove_all_spaces isspace bitstring_loop plain_digits digit
remove_all_spaces-bitstring_loop bits zero small le = refl
remove_all_spaces-bitstring_loop bits (suc n) small le =
    ground (arith, is_nonzero-and_one bits n small, remove_all_spaces-bitstring_loop bits n small)

length-plain_digits : (bits n : ℕ) → length (plain_digits bits n) ≡ n
unfolding plain_digits
length-plain_digits bits zero = refl
length-plain_digits bits (suc n) = ap suc (length-plain_digits bits n)

get_elem?-plain_digits :
    (bits n j : ℕ)
    → j < n
    → get_elem? (plain_digits bits n) j ≡ some (digit (test_bit bits (n - 1 - j)))
unfolding plain_digits
get_elem?-plain_digits bits zero j h = absurd (omega arith)
get_elem?-plain_digits bits (suc n) zero h = let e : suc n - 1 - 0 ≡ n = omega arith in rw e
get_elem?-plain_digits bits (suc n) (suc j) h =
    let e : suc n - 1 - suc j ≡ n - 1 - j = omega arith in
    rw e (get_elem?-plain_digits bits n j (omega arith))

bits-shrink : (bits l : ℕ) → bits / 2 ^ l ≤ bits
bits-shrink bits l = div-le_self bits (2 ^ l)

test_bit-digit :
    (b : Bool) (k : ℕ)
    → test_bit (if digit b == b'1' then 1 else 0) k ≡ (if k == 0 then b else false)
unfolding test_bit digit
test_bit-digit true zero = refl
test_bit-digit false zero = refl
test_bit-digit true (suc k) = rw (test_bit_zero k) (ground arith)
test_bit-digit false (suc k) = rw (test_bit_zero k) (ground arith)

-- Bit `k` of a prefix of `bits`, from the next shorter prefix and one more digit.
bits_split :
    (bits l k : ℕ)
    → test_bit (bits / 2 ^ l) k
      ≡ (if k == 0 then test_bit bits l else test_bit (bits / 2 ^ suc l) (k - 1))
bits_split bits l zero = let e : 0 + l ≡ l = omega arith in rw (test_bit-div l bits 0, e)
bits_split bits l (suc k) =
    let e : suc k - 1 ≡ k = omega arith in
    let f : suc k + l ≡ k + suc l = omega arith in
    let g : suc k == 0 ≡ false = ground arith in
    rw (g, e, test_bit-div l bits (suc k), test_bit-div (suc l) bits k, f)

next_prefix :
    (bits l : ℕ)
    → bits < 2 ^ 64
    → bit_or (shl (bits / 2 ^ suc l) 1) (if digit (test_bit bits l) == b'1' then 1 else 0)
      ≡ bits / 2 ^ l
next_prefix bits l small =
    let d : ℕ = if digit (test_bit bits l) == b'1' then 1 else 0 in
    let d-lt : d < 2 ^ 64 = ground arith in
    word_ext (bit_or (shl (bits / 2 ^ suc l) 1) d) (bits / 2 ^ l) (or-lt _ _ (shl-lt _ 1) d-lt)
      (ground (arith, bits-shrink bits l))
      (λ k h. ground (
        arith,
        test_bit-bit_or k (shl (bits / 2 ^ suc l) 1) d,
        test_bit-shl (bits / 2 ^ suc l) 1 k,
        test_bit-digit (test_bit bits l) k,
        bits_split bits l k,
      ))

parse_loop-plain_digits :
    (bits left i : ℕ)
    → bits < 2 ^ 64
    → i + left ≡ 64
    → parse_loop (plain_digits bits 64) left i (bits / 2 ^ left) ≡ some bits
unfolding parse_loop
parse_loop-plain_digits bits zero i small e = let one : bits / 2 ^ 0 ≡ bits = omega arith in rw one
parse_loop-plain_digits bits (suc l) i small e =
    let index : 64 - 1 - i ≡ l = omega arith in
    let not_end : i == length (plain_digits bits 64) ≡ false =
      rw (length-plain_digits bits 64) (ground arith) in
    rw (not_end, get_elem?-plain_digits bits 64 i (omega arith), index, next_prefix bits l small)
      (parse_loop-plain_digits bits l (i + 1) small (omega arith))

-- Every word comes back from its text form.
pub bitstring_to_bits-bits_to_bitstring :
    (bits : ℕ) → bits < 2 ^ 64 → bitstring_to_bits (bits_to_bitstring bits) ≡ some bits
unfolding bitstring_to_bits bits_to_bitstring
bitstring_to_bits-bits_to_bitstring bits small =
    let empty : bits / 2 ^ 64 ≡ 0 = omega arith in
    rw (remove_all_spaces-bitstring_loop bits 64 small (omega arith)) (
      subst (λ t. parse_loop (plain_digits bits 64) 64 0 t ≡ some bits) empty
        (parse_loop-plain_digits bits 64 0 small refl))
