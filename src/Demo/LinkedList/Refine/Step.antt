-- ===== src/Demo/LinkedList/Refine/Step.antt =====
-- One operation of a list, and what it does to the sequence of its values.
use mathlib.Core.Path.{subst}
use garbagecollector.Base.{
  ℕ, zero, suc, ◌+◌, ◌^◌, ◌<◌, ◌≡◌, ◌≢◌, refl, ap, sym, ◌∙◌, ◌⊎◌, inl, inr, Bool, true, false, ◌||◌,
  List, [], ◌∷◌, ◌++◌, length, length-append, get_elem?, Option, none, some, some_inj, arith, ltb,
  ◌==◌, if◌then◌else◌,
}
use garbagecollector.Alloc.{State}
use garbagecollector.Demo.LinkedList.{ioopm_linked_list_remove}
use garbagecollector.Demo.LinkedList.Shape.{Cell, values, values-append, length-values}
use garbagecollector.Demo.LinkedList.Stored.{IsStored}
use garbagecollector.Demo.LinkedList.Append.{append-IsStored}
use garbagecollector.Demo.LinkedList.Prepend.{prepend-IsStored}
use garbagecollector.Demo.LinkedList.Read.{
  clamped, ioopm_linked_list_get_lem, ioopm_linked_list_size_lem,
}
use garbagecollector.Demo.LinkedList.Remove.{remove-IsStored}
use garbagecollector.Demo.LinkedList.Create.{ioopm_linked_list_clear-IsStored}
use garbagecollector.Demo.LinkedList.Refine.{
  Operation, append, prepend, remove, get, count, clear, execute, erase, answer, perform, new_links,
  IsArgument,
}

-- The link of a value.
get_elem?-values :
    (cells : List Cell) (i v : ℕ)
    → get_elem? (values cells) i ≡ some v
    → (c : Cell) × (get_elem? cells i ≡ some c) × (c.1 ≡ v)
get_elem?-values [] i v e = ground (arith, e)
get_elem?-values (c ∷ cells) zero v e = (c, refl, some_inj c.1 v e)
get_elem?-values (c ∷ cells) (suc i) v e = get_elem?-values cells i v e

split_at :
    (cells : List Cell) (i v : ℕ)
    → get_elem? (values cells) i ≡ some v
    → (xs : List Cell) × (c : Cell) × (ys : List Cell) × (cells ≡ xs ++ c ∷ ys)
      × (length xs ≡ i)
      × (c.1 ≡ v)
      × (values (xs ++ ys) ≡ erase (values cells) i)
split_at [] i v e = ground (arith, e)
split_at (c ∷ cells) zero v e = ([], c, cells, refl, refl, some_inj c.1 v e, refl)
split_at (d ∷ cells) (suc i) v e =
    let (xs, c, ys, same, at, held, rest) = split_at cells i v e in
    (
      d ∷ xs,
      c,
      ys,
      ap (λ (t : List Cell). d ∷ t) same,
      ap suc at,
      held,
      ap (λ (t : List ℕ). d.1 ∷ t) rest,
    )

pub pair_inj :
    {A : Type 0} (a b : A) (xs ys : List ℕ)
    → ◌≡◌ {A = Option (A × List ℕ)} (some (a, xs)) (some (b, ys))
    → (a ≡ b) × (xs ≡ ys)
pair_inj {A} a b xs ys e =
    let same : ◌≡◌ {A = A × List ℕ} (a, xs) (b, ys) = some_inj (a, xs) (b, ys) e in
    (ap (λ (x : A × List ℕ). x.0) same, ap (λ (x : A × List ℕ). x.1) same)

answer_lem :
    (vs : List ℕ) (o : Option ℕ) (a : ℕ) (vs' : List ℕ)
    → answer vs o ≡ some (a, vs')
    → (o ≡ some a) × (vs ≡ vs')
answer_lem vs none a vs' e = ground (arith, e)
answer_lem vs (some v) a vs' e =
    let (same, same_vs) = pair_inj v a vs vs' e in (ap some same, same_vs)

guard_lem {ℓ} :
    {A : Type ℓ} (b : Bool) (o : Option A) (r : A)
    → (if b then o else none) ≡ some r
    → (b ≡ true) × (o ≡ some r)
guard_lem true o r e = (refl, e)
guard_lem false o r e = absurd (ground (arith, e))

first_or_middle :
    (xs ys : List Cell) (i : ℕ)
    → length xs ≡ i
    → (i ≡ 0) ⊎ (suc i < length xs + suc (length ys))
    → (xs ≡ []) ⊎ (ys ≢ [])
first_or_middle [] ys i at legal = inl refl
first_or_middle (x ∷ xs) [] i at legal = absurd (ground (arith, at, legal))
first_or_middle (x ∷ xs) (y ∷ ys) i at legal = inr (λ e. cc e)

-- What an execution has to do.
abbrev pub Executes : ℕ → State → ℕ → Operation → ℕ → ℕ → List ℕ → Type 0
Executes start s list op n a vs =
    (s' : State) × (cells' : List Cell) × (execute list op s ≡ some (a, s'))
    × IsStored start s' list cells' n
    × (values cells' ≡ vs)

module _ (start : ℕ) (s : State) (list : ℕ) (cells : List Cell) (n : ℕ) where
  remove-Executes :
      (i a : ℕ) (vs : List ℕ)
      → IsStored start s list cells n
      → perform (remove i) (values cells) ≡ some (a, vs)
      → Executes start s list (remove i) n a vs
  unfolding perform execute
  remove-Executes i a vs stored e =
      let (legal, e') =
        guard_lem ((i == 0) || ltb (suc i) (length (values cells)))
          (answer (erase (values cells) i) (get_elem? (values cells) i)) (a, vs) e in
      let (found, erased) =
        answer_lem (erase (values cells) i) (get_elem? (values cells) i) a vs e' in
      let (xs, c, ys, same, at, held, rest) = split_at cells i a found in
      let place : (xs ≡ []) ⊎ (ys ≢ []) = first_or_middle xs ys i at (
        ground
          (arith, legal, at, ap length same, length-values cells, length-append xs (c ∷ ys))) in
      let (s', run, stored') =
        remove-IsStored start s list n xs c ys
          (subst (λ (t : List Cell). IsStored start s list t n) same stored) place in
      (
        s',
        xs ++ ys,
        ap (λ j. ioopm_linked_list_remove list j s) (sym at) ∙ run ∙ ap (λ v. some (v, s')) held,
        stored',
        rest ∙ erased,
      )

  get-Executes :
      (i a : ℕ) (vs : List ℕ)
      → i < 2 ^ 32
      → IsStored start s list cells n
      → perform (get i) (values cells) ≡ some (a, vs)
      → Executes start s list (get i) n a vs
  unfolding perform execute
  get-Executes i a vs word stored e =
      let (found, kept) =
        answer_lem (values cells) (get_elem? (values cells) (clamped i (length (values cells)))) a
          vs e in
      let (c, at, held) = get_elem?-values cells (clamped i (length cells)) a (
        subst (λ k. get_elem? (values cells) (clamped i k) ≡ some a) (length-values cells) found) in
      (
        s,
        cells,
        ioopm_linked_list_get_lem s list cells stored.is_list i c word (omega (arith, stored.few))
              at
            ∙ ap (λ v. some (v, s)) held,
        stored,
        kept,
      )

-- The program's list behaves as the sequence of its values, for each operation that has room and is
-- defined on the sequence.
pub execute-perform :
    (start : ℕ) (s : State) (list : ℕ) (cells : List Cell) (n : ℕ) (op : Operation) (a : ℕ)
    (vs : List ℕ)
    → IsStored start s list cells (n + new_links op)
    → IsArgument op
    → perform op (values cells) ≡ some (a, vs)
    → Executes start s list op n a vs
unfolding perform execute
execute-perform start s list cells n (append v) a vs stored word e =
    let (s', run, stored') = append-IsStored start s list v n word cells stored in
    let (same, same_vs) = pair_inj 0 a (values cells ++ v ∷ []) vs e in
    (
      s',
      cells ++ (s.heap.alloc_front + 8, v) ∷ [],
      rw run (ap (λ k. some (k, s')) same),
      stored',
      values-append cells ((s.heap.alloc_front + 8, v) ∷ []) ∙ same_vs,
    )
execute-perform start s list cells n (prepend v) a vs stored word e =
    let (s', run, stored') = prepend-IsStored start s list v n word cells stored in
    let (same, same_vs) = pair_inj 0 a (v ∷ values cells) vs e in
    (
      s',
      (s.heap.alloc_front + 8, v) ∷ cells,
      rw run (ap (λ k. some (k, s')) same),
      stored',
      same_vs,
    )
execute-perform start s list cells n (remove i) a vs stored word e =
    remove-Executes start s list cells n i a vs
      (subst (IsStored start s list cells) (omega arith) stored) e
execute-perform start s list cells n (get i) a vs stored word e =
    get-Executes start s list cells n i a vs word
      (subst (IsStored start s list cells) (omega arith) stored) e
execute-perform start s list cells n count a vs stored word e =
    let (same, same_vs) = pair_inj (length (values cells)) a (values cells) vs e in
    (
      s,
      cells,
      ioopm_linked_list_size_lem s list cells stored.is_list
          ∙ ap (λ k. some (k, s)) (sym (length-values cells) ∙ same),
      subst (IsStored start s list cells) (omega arith) stored,
      same_vs,
    )
execute-perform start s list cells n clear a vs stored word e =
    let (same, same_vs) = pair_inj 0 a ([]) vs e in
    let (s', run, stored') =
      ioopm_linked_list_clear-IsStored start s list cells n
        (subst (IsStored start s list cells) (omega arith) stored) in
    (s', [], rw run (ap (λ k. some (k, s')) same), stored', same_vs)
