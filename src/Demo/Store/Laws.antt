-- ===== src/Demo/Store/Laws.antt =====
-- What the functions of demo/inlupp2/stor_functions.c compute: the names of shelves, the cost of a cart
-- and the shelves that are emptied.
use garbagecollector.Base.{
  ℕ, zero, suc, ◌+◌, ◌-◌, ◌*◌, ◌%◌, ◌^◌, ◌≤◌, ◌<◌, ◌≡◌, ◌≢◌, refl, ap, ◌∙◌, ◌⊎◌, inl, inr, true,
  false, Bool-cases, ltb, some, arith, ◌==◌,
}
use garbagecollector.Memory.{Memory, load64}
use garbagecollector.Memory.Sized.{load32}
use garbagecollector.Alloc.{State}
use garbagecollector.Demo.{int_add, int_mul}
use garbagecollector.Demo.Fields.{field64_lem, field32_lem}
use garbagecollector.Demo.Common.{string_fuel, string_length}
use garbagecollector.Demo.LinkedList.{value, current}
use garbagecollector.Demo.Iterator.{ioopm_iterator_current}
use garbagecollector.Demo.Store.{
  is_digit, is_alpha, digit_rounds, digits_loop, is_shelf, price, merch, amount_in_cart,
}
use garbagecollector.Demo.Store.Carts.{cost_loop}

plus_zero : (p : ℕ) → p + 0 ≡ p
plus_zero p = omega arith

string_length_lem :
    (fuel n : ℕ) (m : Memory) (str : ℕ)
    → n < fuel
    → ((j : ℕ) → j < n → m (str + j) ≢ 0)
    → m (str + n) ≡ 0
    → string_length fuel m str ≡ some n
unfolding string_length
string_length_lem zero n m str enough inner end = absurd (omega (arith, enough))
string_length_lem (suc fuel) zero m str enough inner end =
    let stop : (m str == 0) ≡ true = ground (arith, ap m (plus_zero str), end) in rw stop refl
string_length_lem (suc fuel) (suc n) m str enough inner end =
    let on : (m str == 0) ≡ false = ground (arith, inner 0, ap m (plus_zero str)) in
    let rest : string_length fuel m (str + 1) ≡ some n =
      string_length_lem fuel n m (str + 1) (omega (arith, enough))
        (λ j low e. inner (suc j) (omega (arith, low)) (ap m (omega arith) ∙ e))
        (ap m (omega arith) ∙ end) in
    rw (on, rest) (ap some (omega arith))

-- The character at `j` behind `str` is a digit.
abbrev pub DigitAt : Memory → ℕ → ℕ → Type 0
DigitAt m str j = (48 ≤ m (str + j)) × (m (str + j) ≤ 57)

abbrev pub OtherAt : Memory → ℕ → ℕ → Type 0
OtherAt m str j = (m (str + j) < 48) ⊎ (57 < m (str + j))

digit_first :
    (left : ℕ) (m : Memory) (str : ℕ)
    → is_digit (m str) ≡ true
    → ((j : ℕ) → (left ≤ j) ⊎ DigitAt m (str + 1) j)
    → (j : ℕ) → (suc left ≤ j) ⊎ DigitAt m str j
digit_first left m str here rest zero = inr (ground (arith, ap m (plus_zero str), here))
digit_first left m str here rest (suc j) =
    let at : m (str + 1 + j) ≡ m (str + suc j) = ap m (omega arith) in ground (arith, at, rest j)

digits_loop_lem :
    (left : ℕ) (m : Memory) (str : ℕ)
    → ((digits_loop left m str ≡ true) × ((j : ℕ) → (left ≤ j) ⊎ DigitAt m str j))
      ⊎ ((digits_loop left m str ≡ false) × (j : ℕ) × (j < left) × OtherAt m str j)
unfolding digits_loop
digits_loop_lem zero m str = inl (refl, λ j. inl (omega arith))
digits_loop_lem (suc left) m str = elim (Bool-cases (is_digit (m str))) [
  | inl here ↦ elim (digits_loop_lem left m (str + 1)) [
    | inl (run, rest) ↦ inl (rw (digits_loop, here) run, digit_first left m str here rest)
    | inr (run, j, low, other) ↦
        let at : m (str + 1 + j) ≡ m (str + suc j) = ap m (omega arith) in
        inr (rw (digits_loop, here) run, suc j, omega (arith, low), ground (arith, at, other))
  ]
  | inr elsewhere ↦ inr (
    rw (digits_loop, elsewhere) refl,
    0,
    omega arith,
    ground (arith, ap m (plus_zero str), elsewhere),
  )
]

-- Of a string of less than 2 ^ 31 characters, `is_shelf` accepts it if it has three characters or
-- more, the first is a letter and all from the third on are digits, whatever the second one is; and
-- it refuses all others.
pub is_shelf_lem :
    (m : Memory) (shelf n : ℕ)
    → n < 2 ^ 31
    → ((j : ℕ) → j < n → m (shelf + j) ≢ 0)
    → m (shelf + n) ≡ 0
    → ((is_shelf m shelf ≡ some true)
        × (is_alpha (m shelf) ≡ true)
        × (3 ≤ n)
        × ((j : ℕ) → (n ≤ 2 + j) ⊎ DigitAt m (shelf + 2) j))
      ⊎ ((is_shelf m shelf ≡ some false)
          × ((is_alpha (m shelf) ≡ false)
              ⊎ (n < 3)
              ⊎ ((j : ℕ) × (2 + j < n) × OtherAt m (shelf + 2) j)))
unfolding is_shelf digit_rounds
is_shelf_lem m shelf n small inner end =
    let count = string_length_lem string_fuel n m shelf (omega (arith, small)) inner end in
    let rounds : digit_rounds n ≡ n - 2 = ground (arith, small) in
    elim (Bool-cases (is_alpha (m shelf))) [
      | inr other ↦ inr (rw (is_shelf, other) refl, inl other)
      | inl letter ↦ elim (Bool-cases (ltb n 3)) [
        | inl short ↦
            inr (rw (is_shelf, letter, count, short) refl, inr (inl (ground (arith, short))))
        | inr long ↦ elim (digits_loop_lem (n - 2) m (shelf + 2)) [
          | inl (run, rest) ↦ inl (
            rw (is_shelf, letter, count, long, rounds) (ap some run),
            letter,
            ground (arith, long),
            λ j. ground (arith, rest j),
          )
          | inr (run, j, low, other) ↦ inr (
            rw (is_shelf, letter, count, long, rounds) (ap some run),
            inr (inr (j, omega (arith, low), other)),
          )
        ]
      ]
    ]

sum_lem :
    (total x n : ℕ)
    → ((total + x % 2 ^ 32) % 2 ^ 32 + n * x) % 2 ^ 32 ≡ (total + suc n * x) % 2 ^ 32
sum_lem total x n = let more : suc n * x ≡ n * x + x = omega arith in omega (arith, more)

-- The loop of `calculate_cost` over the pairs of a cart never moves its iterator. If the iterator,
-- its link, the pair there and its merchandise are not NULL, `n` rounds change nothing and add to a
-- total below 2 ^ 32 `n` times the product of the amount and the price of the pair that the
-- iterator stands at, modulo 2 ^ 32.
pub cost_loop_lem :
    (n total it link pair its_merch amount its_price : ℕ) (s : State)
    → it ≢ 0
    → load64 (it + current) s.memory ≡ link
    → link ≢ 0
    → load64 (link + value) s.memory ≡ pair
    → pair ≢ 0
    → load32 (pair + amount_in_cart) s.memory ≡ amount
    → load64 (pair + merch) s.memory ≡ its_merch
    → its_merch ≢ 0
    → load32 (its_merch + price) s.memory ≡ its_price
    → total < 2 ^ 32
    → cost_loop n total it s ≡ some ((total + n * (amount * its_price)) % 2 ^ 32, s)
unfolding cost_loop ioopm_iterator_current
cost_loop_lem zero total it link pair its_merch amount its_price s r at r' at' r'' a e r₃ c small =
    ap (λ t. some (t, s)) (omega (arith, small))
cost_loop_lem (suc n) total it link pair its_merch amount its_price s r at r' at' r'' a e r₃ c
      small =
    let rest =
      cost_loop_lem n (int_add total (int_mul amount its_price)) it link pair its_merch amount
        its_price s r at r' at' r'' a e r₃ c (omega arith) in
    rw
      (
        cost_loop,
        ioopm_iterator_current,
        field64_lem it current s r,
        at,
        field64_lem link value s r',
        at',
        field32_lem pair amount_in_cart s r'',
        a,
        field64_lem pair merch s r'',
        e,
        field32_lem its_merch price s r₃,
        c,
      )
      rest
    ∙ ap (λ t. some (t, s)) (sum_lem total (amount * its_price) n)
