-- ===== src/Word.antt =====
-- The C operators on `uint64_t`. A shift by 64 or more is undefined in C: the model gives it some
-- value, and the theorems about the code have the bounds that keep every shift below 64.
use native.Mathlib.Nat.{pow-le-pow_right, one-le-pow, mod-eq_of_lt}
use garbagecollector.Base.{
  ap, ℕ, ◌+◌, ◌-◌, ◌*◌, ◌/◌, ◌%◌, ◌^◌, ◌≤◌, ◌<◌, bit_and, bit_or, ◌≡◌, refl, Bool, true, false,
  arith, ltb, lt→ltb, ◌==◌, if◌then◌else◌,
}
use garbagecollector.Bits.{
  test_bit, test_bit_zero, test_bit-bit_and, test_bit-mul, test_bit-div, test_bit-mod,
  test_bit_complement, test_bit-pow, test_bit_low_mask, bits_ext, bit_or-lt, bit_and-lt,
}

-- The range of `uint64_t`
abbrev pub IsWord : ℕ → Type 0
IsWord w = w < 2 ^ 64

-- `x << s`
unfoldable pub shl : ℕ → ℕ → ℕ
shl x s = x * 2 ^ s % 2 ^ 64

-- `x >> s`
unfoldable pub shr : ℕ → ℕ → ℕ
shr x s = x / 2 ^ s

-- `~x`
unfoldable pub complement : ℕ → ℕ
complement x = 2 ^ 64 - 1 - x

-- `a - b`, which wraps
unfoldable pub sub64 : ℕ → ℕ → ℕ
sub64 a b = (a + 2 ^ 64 - b) % 2 ^ 64

-- A number as a condition
unfoldable pub is_nonzero : ℕ → Bool
is_nonzero x = if x == 0 then false else true

pub shl-lt : (x s : ℕ) → shl x s < 2 ^ 64
unfolding shl
shl-lt x s = omega arith

pub shr-lt : (x s : ℕ) → x < 2 ^ 64 → shr x s < 2 ^ 64
unfolding shr
shr-lt x s h = ground arith

pub complement-lt : (x : ℕ) → complement x < 2 ^ 64
unfolding complement
complement-lt x = omega arith

pub or-lt : (a b : ℕ) → a < 2 ^ 64 → b < 2 ^ 64 → bit_or a b < 2 ^ 64
or-lt a b = bit_or-lt 64 a b

pub and-lt : (a b : ℕ) → a < 2 ^ 64 → bit_and a b < 2 ^ 64
and-lt a b = bit_and-lt 64 a b

pub test_bit-shl :
    (x s k : ℕ) → k < 64 → test_bit (shl x s) k ≡ (if ltb k s then false else test_bit x (k - s))
unfolding shl
test_bit-shl x s k h = rw (test_bit-mod 64 (x * 2 ^ s) k, lt→ltb k 64 h) (test_bit-mul s x k)

pub test_bit-shr : (x s k : ℕ) → test_bit (shr x s) k ≡ test_bit x (k + s)
unfolding shr
test_bit-shr x s k = test_bit-div s x k

pub test_bit-complement :
    (x k : ℕ)
    → x < 2 ^ 64
    → k < 64
    → test_bit (complement x) k ≡ (if test_bit x k then false else true)
unfolding complement
test_bit-complement x k = test_bit_complement 64 x k

pub pow-lt_word : (i : ℕ) → i < 64 → 2 ^ i < 2 ^ 64
pow-lt_word i h =
    let low : 2 ^ i ≤ 2 ^ 63 = pow-le-pow_right {n = 2} (omega arith) {j = 63} (omega arith) in
    omega arith

-- `1ULL << i`
pub shl-one : (i : ℕ) → i < 64 → shl 1 i ≡ 2 ^ i
unfolding shl
shl-one i h = let e : 1 * 2 ^ i ≡ 2 ^ i = omega arith in rw (e, mod-eq_of_lt (pow-lt_word i h)) refl

pub test_bit-shl_one : (i k : ℕ) → i < 64 → test_bit (shl 1 i) k ≡ (k == i)
test_bit-shl_one i k h = rw (shl-one i h) (test_bit-pow i k)

wrapped : (n : ℕ) → n < 64 → (2 ^ n + 2 ^ 64 - 1) % 2 ^ 64 ≡ 2 ^ n - 1
wrapped n h = omega (arith, pow-lt_word n h, one-le-pow n 2)

-- `(1ULL << n) - 1`
pub test_bit-low_mask : (n k : ℕ) → n < 64 → test_bit (sub64 (shl 1 n) 1) k ≡ ltb k n
unfolding sub64
test_bit-low_mask n k h = rw (shl-one n h) (rw (wrapped n h) (test_bit_low_mask n k))

-- Words with the same 64 bits are equal.
pub word_ext :
    (a b : ℕ) → a < 2 ^ 64 → b < 2 ^ 64 → ((k : ℕ) → k < 64 → test_bit a k ≡ test_bit b k) → a ≡ b
word_ext = bits_ext 64

pub sub64-lt : (a b : ℕ) → sub64 a b < 2 ^ 64
unfolding sub64
sub64-lt a b = omega arith

pub test_bit_ones : (k : ℕ) → test_bit 0xFFFFFFFFFFFFFFFF k ≡ ltb k 64
test_bit_ones k = test_bit_low_mask 64 k

-- A word with at most one bit, the bit `i`, is non-zero exactly if that bit is set.
pub is_nonzero_single :
    (v i : ℕ) (c : Bool)
    → v < 2 ^ 64
    → i < 64
    → ((k : ℕ) → k < 64 → test_bit v k ≡ (if k == i then c else false))
    → is_nonzero v ≡ c
unfolding is_nonzero
is_nonzero_single v i true small lt bits =
    ground (arith, bits i, ap (λ t. test_bit t i), test_bit_zero i)
is_nonzero_single v i false small lt bits =
    let e : v ≡ 0 =
      word_ext v 0 small (omega arith) (λ k h. ground (arith, bits k h, test_bit_zero k)) in
    rw e

pub is_nonzero-and_one :
    (x i : ℕ) → x < 2 ^ 64 → i < 64 → is_nonzero (bit_and x (shl 1 i)) ≡ test_bit x i
is_nonzero-and_one x i small lt =
    is_nonzero_single (bit_and x (shl 1 i)) i (test_bit x i) (and-lt x (shl 1 i) small) lt
      (λ k h. ground (arith, test_bit-bit_and k x (shl 1 i), test_bit-shl_one i k))
