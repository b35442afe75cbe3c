-- ===== src/Demo/HashTable/Chain.antt =====
-- The entries of a bucket, and the search through them.
use garbagecollector.Base.{
  ℕ, zero, suc, ◌+◌, ◌<◌, ◌≡◌, ◌≢◌, refl, ap, sym, ◌∙◌, ◌⊎◌, inl, inr, Bool, true, false,
  Bool-cases, List, [], ◌∷◌, ◌++◌, length, some, All, arith, if◌then◌else◌,
}
use garbagecollector.Memory.{Memory, load64}
use garbagecollector.Alloc.{State}
use garbagecollector.Demo.{null}
use garbagecollector.Demo.Fields.{not_null, field64_lem}
use garbagecollector.Demo.HashTable.{cmp, key, value, next, Functions, search_chain}

plus_zero : (p : ℕ) → p + 0 ≡ p
plus_zero p = omega arith

-- An entry: its address, its key and its value.
pub record Entry : Type 0 where
  pub address : ℕ
  pub its_key : ℕ
  pub its_value : ℕ

-- From `p` the pointers lead through the entries to NULL.
abbrev pub Entries : Memory → ℕ → List Entry → Type 0
Entries m p [] = p ≡ 0
Entries m p (e ∷ rest) =
    (p ≡ e.address)
    × (e.address ≢ 0)
    × (load64 (e.address + key) m ≡ e.its_key)
    × (load64 (e.address + value) m ≡ e.its_value)
    × Entries m (load64 (e.address + next) m) rest

-- A map as an association list of the entries: the first entry with the key counts, and a key that has
-- none has the value 0.
abbrev pub value_of : (ℕ → Bool) → List Entry → ℕ
value_of wanted [] = 0
value_of wanted (e ∷ rest) = if wanted e.its_key then e.its_value else value_of wanted rest

-- The entries before the first one with the key.
pub split_at_key :
    (wanted : ℕ → Bool) (entries : List Entry)
    → All (λ e. wanted e.its_key ≡ false) entries
      ⊎ ((xs : List Entry) × (e : Entry) × (ys : List Entry) × (entries ≡ xs ++ e ∷ ys)
          × All (λ e. wanted e.its_key ≡ false) xs
          × (wanted e.its_key ≡ true))
split_at_key wanted [] = inl tt
split_at_key wanted (d ∷ rest) = elim (Bool-cases (wanted d.its_key)) [
  | inl here ↦ inr ([], d, rest, refl, tt, here)
  | inr elsewhere ↦ elim (split_at_key wanted rest) [
    | inl nowhere ↦ inl (elsewhere, nowhere)
    | inr (xs, e, ys, same, others, here) ↦
        inr (d ∷ xs, e, ys, ap (λ (t : List Entry). d ∷ t) same, (elsewhere, others), here)
  ]
]

pub value_of_missing :
    (wanted : ℕ → Bool) (entries : List Entry)
    → All (λ e. wanted e.its_key ≡ false) entries
    → value_of wanted entries ≡ 0
value_of_missing wanted [] others = refl
value_of_missing wanted (d ∷ rest) (other, others) = rw other (value_of_missing wanted rest others)

pub value_of_found :
    (wanted : ℕ → Bool) (xs : List Entry) (e : Entry) (ys : List Entry)
    → All (λ e. wanted e.its_key ≡ false) xs
    → wanted e.its_key ≡ true
    → value_of wanted (xs ++ e ∷ ys) ≡ e.its_value
value_of_found wanted [] e ys others here = rw here refl
value_of_found wanted (d ∷ xs) e ys (other, others) here =
    rw other (value_of_found wanted xs e ys others here)

-- The pointer before the one that leads to the entry behind `xs`.
abbrev pub previous_of : ℕ → ℕ → List Entry → ℕ
previous_of prev current [] = prev
previous_of prev current (d ∷ xs) = previous_of current (d.address + next) xs

-- It leads to the last entry of `xs`, whose next entry is the one behind.
pub previous_of_lem :
    (m : Memory) (xs : List Entry) (d e : Entry) (ys : List Entry) (prev current : ℕ)
    → Entries m (load64 (current + 0) m) ((d ∷ xs) ++ e ∷ ys)
    → current ≢ 0
    → (load64 (previous_of prev current (d ∷ xs) + 0) m ≢ 0)
      × (load64 (load64 (previous_of prev current (d ∷ xs) + 0) m + next) m ≡ e.address)
      × (previous_of prev current (d ∷ xs) ≢ 0)
previous_of_lem m [] d e ys prev current (at, real, _, _, (at_e, _, _, _, _)) c_real =
    (λ none_left. real (sym at ∙ none_left), ap (λ p. load64 (p + next) m) at ∙ at_e, c_real)
previous_of_lem m (d' ∷ xs) d e ys prev current (at, real, _, _, rest) c_real =
    previous_of_lem m xs d' e ys current (d.address + next) (rw (plus_zero (d.address + next)) rest)
      (λ z. omega (arith, z))

module _ (f : Functions) (s : State) (ht k : ℕ) (real : ht ≢ 0) (same_key : ℕ → ℕ → Bool)
    (pure_compare : (a b : ℕ)
      → f.compare (load64 (ht + cmp) s.memory) a b s ≡ some (same_key a b, s)) where
  abbrev wanted : ℕ → Bool
  wanted k' = same_key k' k

  pub search_chain-missing :
      (fuel : ℕ) (entries : List Entry) (prev current : ℕ)
      → length entries < fuel
      → current ≢ 0
      → Entries s.memory (load64 (current + 0) s.memory) entries
      → All (λ e. wanted e.its_key ≡ false) entries
      → search_chain f fuel prev current k ht s ≡ some (null, s)
  unfolding search_chain
  search_chain-missing zero entries prev current enough c_real chain others =
      absurd (omega (arith, enough))
  search_chain-missing (suc fuel) [] prev current enough c_real chain others =
      rw (search_chain, field64_lem current 0 s c_real, chain) refl
  search_chain-missing (suc fuel) (e ∷ rest) prev current enough c_real chain others =
      let (at, e_real, held, _, behind) = chain in
      rw
        (
          search_chain,
          field64_lem current 0 s c_real,
          at,
          not_null e.address next s e_real,
          field64_lem ht cmp s real,
          field64_lem e.address key s e_real,
          held,
          pure_compare e.its_key k,
          others.0,
        )
        (search_chain-missing fuel rest current (e.address + next) (omega (arith, enough))
          (λ z. omega (arith, z)) (rw (plus_zero (e.address + next)) behind) others.1)

  pub search_chain-found :
      (fuel : ℕ) (xs : List Entry) (e : Entry) (ys : List Entry) (prev current : ℕ)
      → length xs < fuel
      → current ≢ 0
      → Entries s.memory (load64 (current + 0) s.memory) (xs ++ e ∷ ys)
      → All (λ e. wanted e.its_key ≡ false) xs
      → wanted e.its_key ≡ true
      → search_chain f fuel prev current k ht s ≡ some (previous_of prev current xs, s)
  unfolding search_chain
  search_chain-found zero xs e ys prev current enough c_real chain others here =
      absurd (omega (arith, enough))
  search_chain-found (suc fuel) [] e ys prev current enough c_real chain others here =
      let (at, e_real, held, _, behind) = chain in
      rw
        (
          search_chain,
          field64_lem current 0 s c_real,
          at,
          not_null e.address next s e_real,
          field64_lem ht cmp s real,
          field64_lem e.address key s e_real,
          held,
          pure_compare e.its_key k,
          here,
        )
        refl
  search_chain-found (suc fuel) (d ∷ xs) e ys prev current enough c_real chain others here =
      let (at, d_real, held, _, behind) = chain in
      rw
        (
          search_chain,
          field64_lem current 0 s c_real,
          at,
          not_null d.address next s d_real,
          field64_lem ht cmp s real,
          field64_lem d.address key s d_real,
          held,
          pure_compare d.its_key k,
          others.0,
        )
        (search_chain-found fuel xs e ys current (d.address + next) (omega (arith, enough))
          (λ z. omega (arith, z)) (rw (plus_zero (d.address + next)) behind) others.1 here)

-- The entry behind `xs` in the memory.
pub entry_lem :
    (m : Memory) (p : ℕ) (xs : List Entry) (e : Entry) (ys : List Entry)
    → Entries m p (xs ++ e ∷ ys)
    → (e.address ≢ 0)
      × (load64 (e.address + key) m ≡ e.its_key)
      × (load64 (e.address + value) m ≡ e.its_value)
entry_lem m p [] e ys (at, real, held, held_value, _) = (real, held, held_value)
entry_lem m p (d ∷ xs) e ys (_, _, _, _, rest) =
    entry_lem m (load64 (d.address + next) m) xs e ys rest
