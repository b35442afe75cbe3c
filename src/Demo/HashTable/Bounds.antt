-- ===== src/Demo/HashTable/Bounds.antt =====
-- The capacity that a table grows to.
use garbagecollector.Base.{
  ℕ, ◌≤◌, ◌<◌, ◌≡◌, ◌⊎◌, inl, inr, List, [], ◌∷◌, All, Bool-cases, ltb, arith,
}
use garbagecollector.Demo.HashTable.{find_next_capacity, first_above, primes}

-- The numbers that a table grows to.
pub data IsCapacity : ℕ → Type 0 where
  c17 : IsCapacity 17
  c31 : IsCapacity 31
  c67 : IsCapacity 67
  c127 : IsCapacity 127
  c257 : IsCapacity 257
  c509 : IsCapacity 509
  c1021 : IsCapacity 1021
  c2053 : IsCapacity 2053
  c4099 : IsCapacity 4099
  c8191 : IsCapacity 8191
  c16381 : IsCapacity 16381

find_next_capacity-least : (n p : ℕ) → IsCapacity p → n < p → find_next_capacity n ≤ p
unfolding find_next_capacity first_above
find_next_capacity-least n _ c17 lt = ground arith
find_next_capacity-least n _ c31 lt = ground arith
find_next_capacity-least n _ c67 lt = ground arith
find_next_capacity-least n _ c127 lt = ground arith
find_next_capacity-least n _ c257 lt = ground arith
find_next_capacity-least n _ c509 lt = ground arith
find_next_capacity-least n _ c1021 lt = ground arith
find_next_capacity-least n _ c2053 lt = ground arith
find_next_capacity-least n _ c4099 lt = ground arith
find_next_capacity-least n _ c8191 lt = ground arith
find_next_capacity-least n _ c16381 lt = ground arith

first_above-IsCapacity : (n : ℕ) (ps : List ℕ) → All IsCapacity ps → IsCapacity (first_above n ps)
unfolding first_above
first_above-IsCapacity n [] h = c16381
first_above-IsCapacity n (p ∷ ps) h = elim (Bool-cases (ltb n p)) [
  | inl e ↦ rw e h.0
  | inr e ↦ rw e (first_above-IsCapacity n ps h.1)
]

primes-IsCapacity : All IsCapacity primes
primes-IsCapacity =
    (c17, (c31, (c67, (c127, (c257, (c509, (c1021, (c2053, (c4099, (c8191, (c16381, tt)))))))))))

find_next_capacity-above :
    (n : ℕ)
    → ((n < find_next_capacity n) × (find_next_capacity n ≤ 16381))
      ⊎ ((16381 ≤ n) × (find_next_capacity n ≡ 16381))
unfolding find_next_capacity first_above
find_next_capacity-above n = ground arith

-- For a capacity below 16381, `find_next_capacity` gives the least of the numbers 17, 31, 67, 127,
-- 257, 509, 1021, 2053, 4099, 8191 and 16381 that is above it; and 16381 for all other capacities.
pub find_next_capacity-lt :
    (n : ℕ)
    → ((n < find_next_capacity n)
        × (find_next_capacity n ≤ 16381)
        × IsCapacity (find_next_capacity n)
        × ((p : ℕ) → IsCapacity p → n < p → find_next_capacity n ≤ p))
      ⊎ ((16381 ≤ n) × (find_next_capacity n ≡ 16381))
unfolding find_next_capacity
find_next_capacity-lt n = elim (find_next_capacity-above n) [
  | inl (above, most) ↦
      inl
        (above, most, first_above-IsCapacity n primes primes-IsCapacity, find_next_capacity-least n)
  | inr beyond ↦ inr beyond
]
