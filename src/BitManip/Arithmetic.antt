-- ===== src/BitManip/Arithmetic.antt =====
-- Masks, shifts and merges of src/header/bit_manip.c as arithmetic: fields are quotients and
-- remainders.
use native.Mathlib.Nat.{
  div-add-mod, mul-add-div_right, div-eq_of_lt, one-le-pow, add-zero, div-mul-le_self, mod-le,
}
use garbagecollector.Base.{
  ℕ, ◌+◌, ◌-◌, ◌*◌, ◌/◌, ◌%◌, ◌^◌, ◌≤◌, ◌<◌, bit_or, ◌≡◌, ap, ◌∙◌, arith, ltb, if◌then◌else◌,
}
use garbagecollector.Bits.{
  test_bit, test_bit-bit_or, test_bit_above, test_bit-div, test_bit-mod, test_bit-mul,
}
use garbagecollector.Word.{shl, shl-lt, or-lt, test_bit-shl, word_ext}
use garbagecollector.BitManip.{mask_from_msb, mask_from_lsb}
use garbagecollector.BitManip.Select.{
  test_bit-mask_from_msb, test_bit-mask_from_lsb, mask_from_msb-lt, mask_from_lsb-lt,
}

-- The fields of `a * 2 ^ s + b`.
pub fields : (s a b : ℕ) → b < 2 ^ s → ((a * 2 ^ s + b) / 2 ^ s ≡ a) × ((a * 2 ^ s + b) % 2 ^ s ≡ b)
fields s a b h =
    let q : (a * 2 ^ s + b) / 2 ^ s ≡ a =
      mul-add-div_right (one-le-pow s 2 (omega arith)) a b
      ∙ ap (λ (t : ℕ). a + t) (div-eq_of_lt h)
      ∙ add-zero a in
    (q, omega (arith, div-add-mod (a * 2 ^ s + b) (2 ^ s), ap (λ (t : ℕ). 2 ^ s * t) q))

test_bit_fields :
    (s a b k : ℕ)
    → b < 2 ^ s
    → test_bit (a * 2 ^ s + b) k ≡ (if ltb k s then test_bit b k else test_bit a (k - s))
test_bit_fields s a b k h =
    let x = a * 2 ^ s + b in
    let (high, low) = fields s a b h in
    ground (
      arith,
      test_bit-mod s x k,
      test_bit-div s x (k - s),
      ap (λ (t : ℕ). test_bit t k) low,
      ap (λ (t : ℕ). test_bit t (k - s)) high,
      ap (test_bit x) {x = k - s + s} {y = k},
    )

-- `(a << s) | b` is a sum when `b` fits below.
pub or-shl : (s a b : ℕ) → b < 2 ^ s → a * 2 ^ s + b < 2 ^ 64 → bit_or (shl a s) b ≡ a * 2 ^ s + b
or-shl s a b h fits =
    word_ext (bit_or (shl a s) b) (a * 2 ^ s + b) (or-lt _ b (shl-lt a s) (omega arith)) fits
      λ k lt. ground (
        arith,
        test_bit-bit_or k (shl a s) b,
        test_bit-shl a s k,
        test_bit_fields s a b k h,
        test_bit_above s b k h,
      )

-- `mask_from_msb` keeps the remainder.
pub mask_from_msb-eq-mod :
    (source n : ℕ) → n ≤ 64 → source < 2 ^ 64 → mask_from_msb source n ≡ source % 2 ^ (64 - n)
mask_from_msb-eq-mod source n h small =
    word_ext (mask_from_msb source n) (source % 2 ^ (64 - n)) (mask_from_msb-lt source n small)
      (ground (arith, mod-le source (2 ^ (64 - n))))
      λ k lt. ground (arith, test_bit-mask_from_msb source n k, test_bit-mod (64 - n) source k)

-- `mask_from_lsb` keeps the multiple.
pub mask_from_lsb-eq-mul :
    (source n : ℕ) → source < 2 ^ 64 → mask_from_lsb source n ≡ source / 2 ^ n * 2 ^ n
mask_from_lsb-eq-mul source n small =
    word_ext (mask_from_lsb source n) (source / 2 ^ n * 2 ^ n) (mask_from_lsb-lt source n small)
      (ground (arith, div-mul-le_self source (2 ^ n)))
      λ k lt. ground (
        arith,
        test_bit-mask_from_lsb source n k,
        test_bit-mul n (source / 2 ^ n) k,
        test_bit-div n source (k - n),
        ap (test_bit source) {x = k - n + n} {y = k},
      )
