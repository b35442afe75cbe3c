-- ===== src/Demo/LinkedList/Refine/Run.antt =====
-- Operations of a list one behind the other.
use mathlib.Core.Path.{subst}
use garbagecollector.Base.{
  ℕ, ◌+◌, ◌≡◌, refl, ap, ◌∙◌, List, [], ◌∷◌, Option, none, some, All, arith,
}
use garbagecollector.Alloc.{State}
use garbagecollector.Demo.LinkedList.Shape.{Cell, values}
use garbagecollector.Demo.LinkedList.Stored.{IsStored}
use garbagecollector.Demo.LinkedList.Refine.{
  Operation, perform, IsArgument, execute_all, first_answer, perform_rest, perform_all, links_of,
}
use garbagecollector.Demo.LinkedList.Refine.Step.{pair_inj, execute-perform}

rest_lem :
    (f : List ℕ → Option (List ℕ × List ℕ)) (o : Option (ℕ × List ℕ)) (answers vs : List ℕ)
    → perform_rest f o ≡ some (answers, vs)
    → (a : ℕ) × (middle : List ℕ) × (rest : List ℕ) × (◌≡◌ {A = Option (ℕ × List ℕ)} o
        (some (a, middle)))
      × (f middle ≡ some (rest, vs))
      × (a ∷ rest ≡ answers)
rest_lem f none answers vs e = ground (arith, e)
rest_lem f (some (a, middle)) answers vs e = first_lem a middle (f middle) refl e
  where
    first_lem :
        (a : ℕ) (middle : List ℕ) (r : Option (List ℕ × List ℕ))
        → f middle ≡ r
        → first_answer a r ≡ some (answers, vs)
        → (b : ℕ) × (m : List ℕ) × (rest : List ℕ) × (◌≡◌ {A = Option (ℕ × List ℕ)}
            (some (a, middle))
            (some (b, m)))
          × (f m ≡ some (rest, vs))
          × (b ∷ rest ≡ answers)
    first_lem a middle none at e = absurd (ground (arith, e))
    first_lem a middle (some (rest, end)) at e =
        let (same, same_vs) = pair_inj (a ∷ rest) answers end vs e in
        (a, middle, rest, refl, at ∙ ap (λ t. some (rest, t)) same_vs, same)

-- The linked list in the collected heap refines a sequence of values. For a list that lies below
-- the front of a heap of the right shape, with room for the new links in the active space and
-- nothing but zeros from the front on, each sequence of `append`, `prepend`, `remove`, `get`,
-- `size` and `clear` whose arguments are words or `int`s, and which is defined on the sequence of
-- the values (no removal behind the end, nor of the last of several), runs without a fault, gives
-- the same answers, and leaves a list of the resulting values.
pub execute_all-perform_all :
    (start : ℕ) (list n : ℕ) (ops : List Operation) (s : State) (cells : List Cell)
    (answers vs : List ℕ)
    → IsStored start s list cells (n + links_of ops)
    → All IsArgument ops
    → perform_all ops (values cells) ≡ some (answers, vs)
    → (s' : State) × (cells' : List Cell) × (execute_all list ops s ≡ some (answers, s'))
      × IsStored start s' list cells' n
      × (values cells' ≡ vs)
unfolding perform_all execute_all
execute_all-perform_all start list n [] s cells answers vs stored legal e =
    let (same, same_vs) = pair_inj [] answers (values cells) vs e in
    (
      s,
      cells,
      ap (λ l. some (l, s)) same,
      subst (IsStored start s list cells) (omega arith) stored,
      same_vs,
    )
execute_all-perform_all start list n (op ∷ ops) s cells answers vs stored legal e =
    let (a, middle, rest, performed, performed_rest, same) =
      rest_lem (perform_all ops) (perform op (values cells)) answers vs e in
    let (s₁, cells₁, run, stored₁, held) =
      execute-perform start s list cells (n + links_of ops) op a middle
        (subst (IsStored start s list cells) (omega arith) stored) legal.0 performed in
    let (s₂, cells₂, run_rest, stored₂, held₂) =
      execute_all-perform_all start list n ops s₁ cells₁ rest vs stored₁ legal.1
        (ap (perform_all ops) held ∙ performed_rest) in
    (s₂, cells₂, rw (run, run_rest) (ap (λ l. some (l, s₂)) same), stored₂, held₂)
