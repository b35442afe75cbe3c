-- ===== src/Bits/Digits.antt =====
-- How the native `bit_or` and `bit_and` treat the last binary digit, from the digit-wise recursion
-- that they stand for. That recursion counts its rounds; a round too many changes nothing.
use Prim.Native.Nat.{digits, bitwise, bit_and-bitwise, bit_or-bitwise}
use garbagecollector.Base.{
  ℕ, zero, suc, ◌+◌, ◌-◌, ◌*◌, ◌/◌, ◌%◌, ◌≤◌, min, max, bit_and, bit_or, ◌≡◌, refl, ◌∙◌, ap, arith,
}

module _ (lone : ℕ → ℕ) (join : ℕ → ℕ → ℕ) where
  one_more :
      (rounds x y : ℕ)
      → x ≤ rounds
      → digits lone join (suc rounds) x y ≡ digits lone join rounds x y
  one_more zero zero y le = refl
  one_more (suc r) zero y le = refl
  one_more zero (suc x) y le = absurd (omega arith)
  one_more (suc r) (suc x) y le = rw (one_more r (suc x / 2) (y / 2) (omega arith)) refl

  more : (extra x y : ℕ) → digits lone join (extra + x) x y ≡ digits lone join x x y
  more zero x y =
      let none_more : 0 + x ≡ x = omega arith in ap (λ (t : ℕ). digits lone join t x y) none_more
  more (suc e) x y =
      let round : suc e + x ≡ suc (e + x) = omega arith in
      ap (λ (t : ℕ). digits lone join t x y) round ∙ one_more (e + x) x y (omega arith) ∙ more e x y

  halved : (x y : ℕ) → digits lone join x (suc x / 2) y ≡ bitwise lone join (suc x / 2) y
  halved x y =
      let h = suc x / 2 in
      let split : x ≡ x - h + h = omega arith in
      ap (λ (t : ℕ). digits lone join t h y) split ∙ more (x - h) h y

  lowest_digit :
      (x y : ℕ)
      → bitwise lone join (suc x) y
        ≡ bitwise lone join (suc x / 2) (y / 2) * 2 + join (suc x % 2) (y % 2)
  lowest_digit x y = omega (arith, halved x (y / 2))

pub bit_or_lowest : (a b : ℕ) → bit_or a b ≡ bit_or (a / 2) (b / 2) * 2 + max (a % 2) (b % 2)
bit_or_lowest zero b = simp bit_or-bitwise (omega arith)
bit_or_lowest (suc a) b = simp bit_or-bitwise (lowest_digit (λ y. y) max a b)

pub bit_and_lowest : (a b : ℕ) → bit_and a b ≡ bit_and (a / 2) (b / 2) * 2 + min (a % 2) (b % 2)
bit_and_lowest zero b = simp bit_and-bitwise (omega arith)
bit_and_lowest (suc a) b = simp bit_and-bitwise (lowest_digit (λ y. 0) min a b)
