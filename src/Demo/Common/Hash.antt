-- ===== src/Demo/Common/Hash.antt =====
-- The hash functions give the index of a bucket.
use native.Mathlib.Nat.{div-add-mod', mul-mod_left}
use garbagecollector.Base.{
  ◌/◌, ℕ, zero, suc, ◌+◌, ◌-◌, ◌*◌, ◌%◌, ◌^◌, ◌≤◌, ◌<◌, ◌≡◌, ◌≢◌, refl, ap, ◌∙◌, ◌⊎◌, inl, inr,
  true, false, Bool-cases, some, arith, ◌==◌,
}
use garbagecollector.Memory.{Memory}
use garbagecollector.Demo.{is_negative}
use garbagecollector.Demo.Common.{
  number, int_rem, char_int, abs, hash_int, sum_loop, hash_string_sum, string_fuel,
}

rem_sum : (x c : ℕ) → 0 < c → ((c - x % c) + x) % c ≡ 0
rem_sum x c h =
    let whole : (c - x % c) + x ≡ (x / c + 1) * c = omega (arith, div-add-mod' x c) in
    ap (λ y. y % c) whole ∙ mul-mod_left (x / c + 1) c

-- For a capacity from 1 to 2 ^ 31 - 1, `hash_int` is below the capacity; for a number that is not
-- negative it is the remainder, and for a negative one its distance from the number is a multiple
-- of the capacity.
pub hash_int-lt :
    (key capacity : ℕ)
    → 0 < capacity
    → capacity < 2 ^ 31
    → (hash_int key capacity < capacity)
      × (((number key < 2 ^ 31) × (hash_int key capacity ≡ number key % capacity))
          ⊎ ((2 ^ 31 ≤ number key)
              × ((hash_int key capacity + (2 ^ 32 - number key)) % capacity ≡ 0)))
unfolding hash_int
hash_int-lt key c some_bucket few =
    let n = number key in
    let x = 2 ^ 32 - n in
    let r : n % c < c = omega arith in
    let r' : x % c < c = omega arith in
    let sum = rem_sum x c some_bucket in
    elim (Bool-cases (is_negative n)) [
      | inl neg ↦ elim (Bool-cases (x % c == 0)) [
        | inl exact ↦
            let e : hash_int key c ≡ 0 = ground (arith, neg, exact) in
            (omega (arith, e), inr (ground (arith, neg), rw e (ground (arith, exact))))
        | inr rest ↦
            let e : hash_int key c ≡ c - x % c = ground (arith, neg, rest, r') in
            (ground (arith, e, rest, r'), inr (ground (arith, neg), rw e sum))
      ]
      | inr nonneg ↦
          let e : hash_int key c ≡ n % c = ground (arith, nonneg, r) in
          (omega (arith, e), inl (ground (arith, nonneg), e))
    ]

-- The sum of the characters of a string, from its first one on.
sum_loop_lem :
    (fuel n k : ℕ) (m : Memory) (str result : ℕ)
    → n < fuel
    → ((a : ℕ) → m a < 256)
    → ((j : ℕ) → 0 < j → j ≤ n → m (str + j) ≢ 0)
    → m (str + suc n) ≡ 0
    → (result < 2 ^ 32) × ((result + 128 * k) % 2 ^ 32 ≤ 255 * k)
    → n + 1 + k < 2 ^ 23
    → (sum : ℕ) × (sum_loop fuel m str result ≡ some sum)
      × (sum < 2 ^ 32)
      × ((sum + 128 * (n + 1 + k)) % 2 ^ 32 ≤ 255 * (n + 1 + k))
unfolding sum_loop
sum_loop_lem zero n k m str result h bytes inner end small few = absurd (omega (arith, h))
sum_loop_lem (suc fuel) zero k m str result h bytes inner end small few =
    let after = (result + char_int (m str)) % 2 ^ 32 in
    let stop : (m (str + 1) == 0) ≡ true = ground (arith, end) in
    (after, rw stop refl, omega arith, ground (arith, bytes str, small, few))
sum_loop_lem (suc fuel) (suc n) k m str result h bytes inner end small few =
    let after = (result + char_int (m str)) % 2 ^ 32 in
    let on : (m (str + 1) == 0) ≡ false = ground (arith, inner 1) in
    let grown : (after + 128 * (k + 1)) % 2 ^ 32 ≤ 255 * (k + 1) =
      ground (arith, bytes str, small, few) in
    let (sum, run, word, bound) =
      sum_loop_lem fuel n (k + 1) m (str + 1) after (omega (arith, h)) bytes
        (λ j low high e. inner (j + 1) (omega arith) (omega (arith, high)) (ap m (omega arith) ∙ e))
        (ap m (omega arith) ∙ end) (omega arith, grown) (omega (arith, few)) in
    (sum, rw on run, word, ground (arith, bound))

int_rem_lem : (a c : ℕ) → a < 2 ^ 31 → int_rem a c ≡ a % c
int_rem_lem a c small = ground (arith, small)

-- In a memory of bytes, for a string of 1 to 2 ^ 23 - 1 characters and a capacity from 1 to 2 ^ 31
-- - 1, the loop of `hash_string_sum` ends and its result is below the capacity.
pub hash_string_sum-lt :
    (m : Memory) (key capacity n : ℕ)
    → ((a : ℕ) → m a < 256)
    → ((j : ℕ) → 0 < j → j ≤ n → m (key + j) ≢ 0)
    → m (key + suc n) ≡ 0
    → n + 1 < 2 ^ 23
    → 0 < capacity
    → capacity < 2 ^ 31
    → (h : ℕ) × (hash_string_sum m key capacity ≡ some h) × (h < capacity)
unfolding hash_string_sum
hash_string_sum-lt m key capacity n bytes inner end few some_bucket small =
    let (sum, run, word, bound) =
      sum_loop_lem string_fuel n 0 m key 0 (omega (arith, few)) bytes inner end (omega arith)
        (omega (arith, few)) in
    let positive : abs sum < 2 ^ 31 = ground (arith, word, bound, few) in
    let r : abs sum % capacity < capacity = omega arith in
    (
      abs sum % capacity,
      rw (hash_string_sum, run) (ap some (int_rem_lem (abs sum) capacity positive)),
      r,
    )
