-- ===== src/Bits.antt =====
-- The bits of a number, one by one: what each operation on 64-bit words does to bit `k`.
mod Digits
use Digits.{bit_or_lowest, bit_and_lowest}
use native.Mathlib.Nat.{pow-suc, div-div-eq-div-mul, div-one, add-zero, one-le-pow, div-add-mod}
use mathlib.Core.Path.{ap₂}
use Prim.Native.Nat.{bit_and-bitwise}
use garbagecollector.Base.{
  ℕ, zero, suc, ◌+◌, ◌-◌, ◌*◌, ◌/◌, ◌%◌, ◌^◌, ◌≤◌, ◌<◌, bit_and, bit_or, ◌≡◌, refl, sym, ap, Bool,
  true, false, ◌&&◌, ◌||◌, arith, ltb, lt→ltb, le→not_ltb, ◌==◌, if◌then◌else◌,
}

-- Bit `k` of `n`, counted from the least significant.
unfoldable pub test_bit : ℕ → ℕ → Bool
test_bit n zero = n % 2 == 1
test_bit n (suc k) = test_bit (n / 2) k

pub test_bit_zero : (k : ℕ) → test_bit 0 k ≡ false
unfolding test_bit
test_bit_zero zero = refl
test_bit_zero (suc k) = test_bit_zero k

pub test_bit-bit_or : (k a b : ℕ) → test_bit (bit_or a b) k ≡ (test_bit a k || test_bit b k)
unfolding test_bit
test_bit-bit_or zero a b = ground (arith, bit_or_lowest a b)
test_bit-bit_or (suc k) a b =
    let half : bit_or a b / 2 ≡ bit_or (a / 2) (b / 2) = omega (arith, bit_or_lowest a b) in
    rw half (test_bit-bit_or k (a / 2) (b / 2))

pub test_bit-bit_and : (k a b : ℕ) → test_bit (bit_and a b) k ≡ (test_bit a k && test_bit b k)
unfolding test_bit
test_bit-bit_and zero a b = ground (arith, bit_and_lowest a b)
test_bit-bit_and (suc k) a b =
    let half : bit_and a b / 2 ≡ bit_and (a / 2) (b / 2) = omega (arith, bit_and_lowest a b) in
    rw half (test_bit-bit_and k (a / 2) (b / 2))

pow_two_suc : (w : ℕ) → 2 ^ suc w ≡ 2 * 2 ^ w
pow_two_suc w = omega (arith, pow-suc 2 w)

half-shift : (x s : ℕ) → x / 2 ^ suc s ≡ x / 2 / 2 ^ s
half-shift x s = rw (div-div-eq-div-mul x 2 (2 ^ s), pow_two_suc s)

twice : (x s : ℕ) → x * 2 ^ suc s ≡ 2 * (x * 2 ^ s)
twice x s = omega (arith, ap (λ (t : ℕ). x * t) (pow_two_suc s))

-- `x >> s` moves bit `k + s` to `k`.
pub test_bit-div : (s x k : ℕ) → test_bit (x / 2 ^ s) k ≡ test_bit x (k + s)
unfolding test_bit
test_bit-div zero x k = ap₂ test_bit (div-one x) (sym (add-zero k))
test_bit-div (suc s) x k =
    let index : k + suc s ≡ suc (k + s) = omega arith in
    rw (half-shift x s, index) (test_bit-div s (x / 2) k)

-- `x << s` moves bit `k` to `k + s`, and the new bits are 0.
pub test_bit-mul :
    (s x k : ℕ) → test_bit (x * 2 ^ s) k ≡ (if ltb k s then false else test_bit x (k - s))
unfolding test_bit
test_bit-mul zero x k =
    let e : x * 2 ^ 0 ≡ x = omega arith in
    let i : k - 0 ≡ k = omega arith in rw (le→not_ltb k 0 (omega arith), e, i)
test_bit-mul (suc s) x zero = rw (lt→ltb 0 (suc s) (omega arith)) (ground (arith, twice x s))
test_bit-mul (suc s) x (suc k) =
    let e : x * 2 ^ suc s / 2 ≡ x * 2 ^ s = omega (arith, twice x s) in
    rw (e, test_bit-mul s x k) (ground arith)

mod-halve : (w x : ℕ) → (x % 2 ^ suc w / 2 ≡ x / 2 % 2 ^ w) × (x % 2 ^ suc w % 2 ≡ x % 2)
mod-halve w x =
    let p = 2 ^ w in
    omega (
      arith,
      pow_two_suc w,
      div-add-mod x (2 ^ suc w),
      div-add-mod (x / 2) p,
      ap (λ (t : ℕ). 2 ^ suc w * t) (half-shift x w),
      ap (λ (t : ℕ). t * (x / 2 / p)) (pow_two_suc w),
    )

-- A cast to `w` bits drops the bits from `w` on.
pub test_bit-mod : (w x k : ℕ) → test_bit (x % 2 ^ w) k ≡ (if ltb k w then test_bit x k else false)
unfolding test_bit
test_bit-mod zero x k =
    let e : x % 2 ^ 0 ≡ 0 = omega arith in rw (le→not_ltb k 0 (omega arith), e) (test_bit_zero k)
test_bit-mod (suc w) x zero = rw (lt→ltb 0 (suc w) (omega arith), (mod-halve w x).1) refl
test_bit-mod (suc w) x (suc k) = rw ((mod-halve w x).0, test_bit-mod w (x / 2) k) (ground arith)

-- The complement of a `w`-bit word flips its bits.
pub test_bit_complement :
    (w x k : ℕ)
    → x < 2 ^ w
    → k < w
    → test_bit (2 ^ w - 1 - x) k ≡ (if test_bit x k then false else true)
unfolding test_bit
test_bit_complement zero x k h lt = absurd (omega arith)
test_bit_complement (suc w) x zero h lt = ground (arith, pow_two_suc w)
test_bit_complement (suc w) x (suc k) h lt =
    let e : (2 ^ suc w - 1 - x) / 2 ≡ 2 ^ w - 1 - x / 2 = omega (arith, pow_two_suc w) in
    rw e (test_bit_complement w (x / 2) k (omega (arith, pow_two_suc w)) (omega arith))

-- Numbers below `2 ^ w` with the same bits are equal.
pub bits_ext :
    (w a b : ℕ) → a < 2 ^ w → b < 2 ^ w → ((k : ℕ) → k < w → test_bit a k ≡ test_bit b k) → a ≡ b
unfolding test_bit
bits_ext zero a b p q same = omega arith
bits_ext (suc w) a b p q same =
    let halves : a / 2 ≡ b / 2 =
      bits_ext w (a / 2) (b / 2) (omega (arith, pow_two_suc w)) (omega (arith, pow_two_suc w))
        (λ k h. same (suc k) (omega arith)) in
    ground (arith, same 0 (omega arith))

-- A single bit.
pub test_bit-pow : (i k : ℕ) → test_bit (2 ^ i) k ≡ (k == i)
unfolding test_bit
test_bit-pow zero zero = refl
test_bit-pow zero (suc k) = rw (test_bit_zero k) (ground arith)
test_bit-pow (suc i) zero = ground (arith, pow_two_suc i)
test_bit-pow (suc i) (suc k) =
    let e : 2 ^ suc i / 2 ≡ 2 ^ i = omega (arith, pow_two_suc i) in
    rw (e, test_bit-pow i k) (ground arith)

-- The bits above a word's width are 0.
pub test_bit_above : (w x k : ℕ) → x < 2 ^ w → w ≤ k → test_bit x k ≡ false
unfolding test_bit
test_bit_above zero x k h le = let e : x ≡ 0 = omega arith in rw e (test_bit_zero k)
test_bit_above (suc w) x zero h le = absurd (omega arith)
test_bit_above (suc w) x (suc k) h le =
    test_bit_above w (x / 2) k (omega (arith, pow_two_suc w)) (omega arith)

-- The low mask `2 ^ n - 1`.
pub test_bit_low_mask : (n k : ℕ) → test_bit (2 ^ n - 1) k ≡ ltb k n
unfolding test_bit
test_bit_low_mask zero k =
    let e : 2 ^ 0 - 1 ≡ 0 = omega arith in rw (e, test_bit_zero k) (ground arith)
test_bit_low_mask (suc n) zero = ground (arith, pow_two_suc n, one-le-pow n 2)
test_bit_low_mask (suc n) (suc k) =
    let e : (2 ^ suc n - 1) / 2 ≡ 2 ^ n - 1 = omega (arith, pow_two_suc n) in
    rw (e, test_bit_low_mask n k) (ground arith)

pub bit_or-lt : (w a b : ℕ) → a < 2 ^ w → b < 2 ^ w → bit_or a b < 2 ^ w
bit_or-lt zero a b p q =
    let e : a ≡ 0 = omega arith in let f : b ≡ 0 = omega arith in rw (e, f) (omega arith)
bit_or-lt (suc w) a b p q = omega (
  arith,
  bit_or_lowest a b,
  pow_two_suc w,
  bit_or-lt w (a / 2) (b / 2) (omega (arith, pow_two_suc w)) (omega (arith, pow_two_suc w)),
)

pub bit_and-lt : (w a b : ℕ) → a < 2 ^ w → bit_and a b < 2 ^ w
bit_and-lt zero a b p =
    let e : a ≡ 0 = omega arith in rw e (omega (arith, bit_and_lowest 0 b, bit_and-bitwise 0 b))
bit_and-lt (suc w) a b p = omega (
  arith,
  bit_and_lowest a b,
  pow_two_suc w,
  bit_and-lt w (a / 2) (b / 2) (omega (arith, pow_two_suc w)),
)
