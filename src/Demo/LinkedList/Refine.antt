-- ===== src/Demo/LinkedList/Refine.antt =====
-- A linked list in the collected heap as a sequence of values: the operations of the program, and what
-- they do to the sequence.
pub mod Step
pub mod Run
use mathlib.Core.Path.{subst}
use garbagecollector.Base.{
  ℕ, zero, suc, ◌+◌, ◌-◌, ◌*◌, ◌^◌, ◌≤◌, ◌<◌, ◌≡◌, ◌≢◌, refl, ap, sym, ◌∙◌, ◌⊎◌, inl, inr, Bool,
  true, false, ◌||◌, List, [], ◌∷◌, ◌++◌, length, length-append, get_elem?, get_elem?-above, Option,
  none, some, some_inj, min, All, arith, Bool-cases, ltb, leb, ◌==◌, ==_iff, if◌then◌else◌,
}
use garbagecollector.Alloc.{State}
use garbagecollector.Demo.{Cmd, pure, ◌>>=◌, ◌>>◌, and_then}
use garbagecollector.Demo.LinkedList.{
  ioopm_linked_list_append, ioopm_linked_list_prepend, ioopm_linked_list_remove,
  ioopm_linked_list_get, ioopm_linked_list_size, ioopm_linked_list_clear,
}
use garbagecollector.Demo.LinkedList.Shape.{Cell, values, values-append, length-values}
use garbagecollector.Demo.LinkedList.Stored.{IsStored}
use garbagecollector.Demo.LinkedList.Append.{append-IsStored}
use garbagecollector.Demo.LinkedList.Prepend.{prepend-IsStored}
use garbagecollector.Demo.LinkedList.Read.{
  clamped, ioopm_linked_list_get_lem, ioopm_linked_list_size_lem,
}
use garbagecollector.Demo.LinkedList.Remove.{remove-IsStored}
use garbagecollector.Demo.LinkedList.Create.{ioopm_linked_list_clear-IsStored}

pub data Operation : Type 0 where
  append : ℕ → Operation
  prepend : ℕ → Operation
  remove : ℕ → Operation
  get : ℕ → Operation
  count : Operation
  clear : Operation

-- What the program runs for an operation, with 0 for no answer.
unfoldable pub execute : ℕ → Operation → Cmd ℕ
execute list (append v) = ioopm_linked_list_append list v >> pure 0
execute list (prepend v) = ioopm_linked_list_prepend list v >> pure 0
execute list (remove i) = ioopm_linked_list_remove list i
execute list (get i) = ioopm_linked_list_get list i
execute list count = ioopm_linked_list_size list
execute list clear = ioopm_linked_list_clear list >> pure 0

abbrev pub erase : List ℕ → ℕ → List ℕ
erase [] i = []
erase (v ∷ vs) zero = vs
erase (v ∷ vs) (suc i) = v ∷ erase vs i

abbrev pub answer : List ℕ → Option ℕ → Option (ℕ × List ℕ)
answer vs none = none
answer vs (some v) = some (v, vs)

-- What an operation does to a sequence of values. It is undefined on an empty sequence for `remove`
-- and `get`, behind the end for `remove`, and for the removal of the last of several.
unfoldable pub perform : Operation → List ℕ → Option (ℕ × List ℕ)
perform (append v) vs = some (0, vs ++ v ∷ [])
perform (prepend v) vs = some (0, v ∷ vs)
perform (remove i) vs =
    if (i == 0) || ltb (suc i) (length vs) then answer (erase vs i) (get_elem? vs i) else none
perform (get i) vs = answer vs (get_elem? vs (clamped i (length vs)))
perform count vs = some (length vs, vs)
perform clear vs = some (0, [])

-- How many links an operation needs, and what its argument must be: a word, or an `int`.
abbrev pub new_links : Operation → ℕ
new_links (append v) = 1
new_links (prepend v) = 1
new_links (remove i) = 0
new_links (get i) = 0
new_links count = 0
new_links clear = 0

abbrev pub IsArgument : Operation → Type 0
IsArgument (append v) = v < 2 ^ 64
IsArgument (prepend v) = v < 2 ^ 64
IsArgument (remove i) = i < 2 ^ 31
IsArgument (get i) = i < 2 ^ 32
IsArgument count = Unit
IsArgument clear = Unit

-- Operations one behind the other: in the program, and on the sequence.
unfoldable pub execute_all : ℕ → List Operation → Cmd (List ℕ)
execute_all list [] = pure []
execute_all list (op ∷ ops) = do
  a ← execute list op
  answers ← execute_all list ops
  pure (a ∷ answers)

abbrev pub first_answer : ℕ → Option (List ℕ × List ℕ) → Option (List ℕ × List ℕ)
first_answer a none = none
first_answer a (some (answers, vs)) = some (a ∷ answers, vs)

abbrev pub perform_rest :
    (List ℕ → Option (List ℕ × List ℕ)) → Option (ℕ × List ℕ) → Option (List ℕ × List ℕ)
perform_rest rest none = none
perform_rest rest (some (a, vs)) = first_answer a (rest vs)

unfoldable pub perform_all : List Operation → List ℕ → Option (List ℕ × List ℕ)
perform_all [] vs = some ([], vs)
perform_all (op ∷ ops) vs = perform_rest (perform_all ops) (perform op vs)

abbrev pub links_of : List Operation → ℕ
links_of [] = 0
links_of (op ∷ ops) = new_links op + links_of ops
