-- ===== src/Demo/LinkedList/Read.antt =====
-- The functions that read a list by position, and its size.
use mathlib.Core.Path.{subst}
use garbagecollector.Base.{
  ℕ, zero, suc, ◌+◌, ◌-◌, ◌^◌, ◌<◌, ◌≡◌, ◌≢◌, refl, ap, sym, ◌∙◌, inl, inr, List, [], ◌∷◌, length,
  get_elem?, get_elem?-above, some, some_inj, min, arith, Bool-cases, ◌==◌, if◌then◌else◌,
}
use garbagecollector.Memory.{load64}
use garbagecollector.Alloc.{State}
use garbagecollector.Demo.{is_negative, int_ltb, int_pred}
use garbagecollector.Demo.Fields.{field64_lem, field32_lem}
use garbagecollector.Demo.LinkedList.{
  value, next, first, last, size, follow, find_link, value_at, at_index, get_valid,
  ioopm_linked_list_get, ioopm_linked_list_size, ioopm_linked_list_is_empty,
}
use garbagecollector.Demo.LinkedList.Shape.{Cell, IsList, Chain, final}

-- After `i` steps from the first link the loop is at the link `i`.
pub follow_lem :
    (s : State) (cells : List Cell) (p end i : ℕ) (c : Cell)
    → Chain s.memory p cells end
    → get_elem? cells i ≡ some c
    → (follow i p s ≡ some (c.0, s)) × (c.0 ≢ 0) × (load64 (c.0 + value) s.memory ≡ c.1)
unfolding follow
follow_lem s [] p end i c chain e = ground (arith, e)
follow_lem s (d ∷ cells) p end zero c (at, real, v, rest) e =
    let same : d ≡ c = some_inj d c e in
    (
      ap (λ q. some (q, s)) (at ∙ ap (λ (x : Cell). x.0) same),
      λ q. real (ap (λ (x : Cell). x.0) same ∙ q),
      rw (sym same) v,
    )
follow_lem s (d ∷ cells) p end (suc i) c (at, real, v, rest) e =
    let (run, found, held) = follow_lem s cells (load64 (d.0 + next) s.memory) end i c rest e in
    (rw (at, field64_lem d.0 next s real) run, found, held)

-- An index that is out of range stands for the nearest one that is not.
abbrev pub clamped : ℕ → ℕ → ℕ
clamped index n = if is_negative index then 0 else min index (n - 1)

pub final_lem :
    (cells : List Cell) (p i : ℕ) (c : Cell)
    → get_elem? cells i ≡ some c
    → i + 1 ≡ length cells
    → final p cells ≡ c.0
final_lem [] p i c e at_end = ground (arith, e)
final_lem (d ∷ []) p zero c e at_end = ap (λ (x : Cell). x.0) (some_inj d c e)
final_lem (d ∷ []) p (suc i) c e at_end = omega (arith, at_end)
final_lem (d ∷ d' ∷ cells) p zero c e at_end = omega (arith, at_end)
final_lem (d ∷ d' ∷ cells) p (suc i) c e at_end =
    final_lem (d' ∷ cells) d.0 i c e (omega (arith, at_end))

first_lem :
    (s : State) (cells : List Cell) (p end : ℕ) (c : Cell)
    → Chain s.memory p cells end
    → get_elem? cells 0 ≡ some c
    → p ≡ c.0
first_lem s [] p end c chain e = ground (arith, e)
first_lem s (d ∷ cells) p end c chain e = chain.0 ∙ ap (λ (x : Cell). x.0) (some_inj d c e)

module _ (s : State) (list : ℕ) (cells : List Cell) (is : IsList s.memory list cells) where
  end_value :
      (end : ℕ) (c : Cell)
      → load64 (list + end) s.memory ≡ c.0
      → c.0 ≢ 0
      → load64 (c.0 + value) s.memory ≡ c.1
      → value_at list end s ≡ some (c.1, s)
  unfolding value_at
  end_value end c at real held =
      rw (field64_lem list end s is.real, at, field64_lem c.0 value s real, held) refl

  -- A list that has links gives the value of the one at the index, and the state stays. An index that
  -- is out of range stands for the nearest one that is not.
  pub ioopm_linked_list_get_lem :
      (index : ℕ) (c : Cell)
      → index < 2 ^ 32
      → length cells < 2 ^ 31
      → get_elem? cells (clamped index (length cells)) ≡ some c
      → ioopm_linked_list_get list index s ≡ some (c.1, s)
  unfolding ioopm_linked_list_get at_index get_valid find_link follow
  ioopm_linked_list_get_lem index c word few e =
      let n = length cells in
      let i = clamped index n in
      let (run, real, held) =
        follow_lem s cells (load64 (list + first) s.memory) 0 i c is.chain e in
      let inside : i < n = ground (arith, get_elem?-above cells i, e) in
      elim (Bool-cases (is_negative index)) [
        | inl neg ↦
            let at : load64 (list + first) s.memory ≡ c.0 =
              first_lem s cells (load64 (list + first) s.memory) 0 c is.chain
                (subst (λ j. get_elem? cells j ≡ some c) (ground (arith, neg)) e) in
            rw (ioopm_linked_list_get, at_index, neg, end_value first c at real held) refl
        | inr nonneg ↦ elim (Bool-cases (int_ltb (int_pred n) index)) [
          | inl above ↦
              let at_end : i + 1 ≡ n = ground (arith, inside, nonneg, above) in
              let at : load64 (list + last) s.memory ≡ c.0 = elim is.end [
                | inl none_left ↦ absurd (ground (arith, ap length none_left, inside))
                | inr at_last ↦ at_last ∙ final_lem cells 0 i c e at_end
              ] in
              rw
                (
                  ioopm_linked_list_get,
                  at_index,
                  nonneg,
                  field32_lem list size s is.real,
                  is.count,
                  above,
                  end_value last c at real held,
                )
                refl
          | inr below ↦
              let same : index ≡ i = ground (arith, inside, nonneg, below) in
              rw
                (
                  ioopm_linked_list_get,
                  at_index,
                  nonneg,
                  field32_lem list size s is.real,
                  is.count,
                  below,
                  get_valid,
                  find_link,
                  field64_lem list first s is.real,
                  same,
                  run,
                  field64_lem c.0 value s real,
                  held,
                )
                refl
        ]
      ]

module _ (s : State) (list : ℕ) (cells : List Cell) (is : IsList s.memory list cells) where
  pub ioopm_linked_list_size_lem : ioopm_linked_list_size list s ≡ some (length cells, s)
  unfolding ioopm_linked_list_size
  ioopm_linked_list_size_lem =
      rw (ioopm_linked_list_size, field32_lem list size s is.real, is.count) refl

  pub ioopm_linked_list_is_empty_lem :
      ioopm_linked_list_is_empty list s ≡ some (length cells == 0, s)
  unfolding ioopm_linked_list_is_empty
  ioopm_linked_list_is_empty_lem =
      rw (ioopm_linked_list_is_empty, field32_lem list size s is.real, is.count) refl
