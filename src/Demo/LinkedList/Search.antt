-- ===== src/Demo/LinkedList/Search.antt =====
-- `contains`, `any` and `all`.
use garbagecollector.Base.{
  ℕ, ◌+◌, ◌^◌, ◌<◌, ◌≡◌, refl, inl, inr, Bool, true, false, ◌||◌, ◌&&◌, List, [], ◌∷◌, length, some,
  arith, Bool-cases,
}
use garbagecollector.Memory.{Memory, load64}
use garbagecollector.Alloc.{State}
use garbagecollector.Demo.Fields.{field64_lem, field32_lem}
use garbagecollector.Demo.LinkedList.{
  value, next, first, size, cmp, any_loop, all_loop, rounds, Compare, ioopm_linked_list_contains,
  ioopm_linked_list_any, ioopm_linked_list_all,
}
use garbagecollector.Demo.LinkedList.Shape.{Cell, IsList, Chain, values}

module _ (test : ℕ → Bool) where
  -- Some value passes the test; every one does.
  abbrev pub any_value : List ℕ → Bool
  any_value [] = false
  any_value (v ∷ vs) = test v || any_value vs

  abbrev pub all_values : List ℕ → Bool
  all_values [] = true
  all_values (v ∷ vs) = test v && all_values vs

any_loop_lem :
    (test : Memory → ℕ → Bool) (s : State) (cells : List Cell) (p end : ℕ)
    → Chain s.memory p cells end
    → any_loop test (length cells) p s ≡ some (any_value (test s.memory) (values cells), s)
unfolding any_loop
any_loop_lem test s [] p end chain = refl
any_loop_lem test s (d ∷ cells) p end (at, real, v, rest) =
    let more = any_loop_lem test s cells (load64 (d.0 + next) s.memory) end rest in
    elim (Bool-cases (test s.memory d.1)) [
      | inl passes ↦ rw (at, field64_lem d.0 value s real, v, passes) refl
      | inr fails ↦
          rw (at, field64_lem d.0 value s real, v, fails, field64_lem d.0 next s real) more
    ]

all_loop_lem :
    (test : Memory → ℕ → Bool) (s : State) (cells : List Cell) (p end : ℕ)
    → Chain s.memory p cells end
    → all_loop test (length cells) p s ≡ some (all_values (test s.memory) (values cells), s)
unfolding all_loop
all_loop_lem test s [] p end chain = refl
all_loop_lem test s (d ∷ cells) p end (at, real, v, rest) =
    let more = all_loop_lem test s cells (load64 (d.0 + next) s.memory) end rest in
    elim (Bool-cases (test s.memory d.1)) [
      | inl passes ↦
          rw (at, field64_lem d.0 value s real, v, passes, field64_lem d.0 next s real) more
      | inr fails ↦ rw (at, field64_lem d.0 value s real, v, fails) refl
    ]

module _ (s : State) (list : ℕ) (cells : List Cell) (is : IsList s.memory list cells)
    (few : length cells < 2 ^ 31) where
  rounds_eq : rounds (length cells) ≡ length cells
  rounds_eq = ground (arith, few)

  -- For a list of less than 2 ^ 31 elements and any function that compares,
  -- `ioopm_linked_list_contains` ends, changes nothing, and says whether some value of the list
  -- compares with the element.
  pub ioopm_linked_list_contains_lem :
      (compare : Compare) (element : ℕ)
      → ioopm_linked_list_contains compare list element s
        ≡ some (
          any_value (λ v. compare (load64 (list + cmp) s.memory) s.memory v element) (values cells),
          s,
        )
  unfolding ioopm_linked_list_contains
  ioopm_linked_list_contains_lem compare element =
      rw
        (
          ioopm_linked_list_contains,
          field64_lem list first s is.real,
          field32_lem list size s is.real,
          field64_lem list cmp s is.real,
          is.count,
          rounds_eq,
        )
        (any_loop_lem (λ m v. compare (load64 (list + cmp) s.memory) m v element) s cells
          (load64 (list + first) s.memory) 0 is.chain)

  -- `any` and `all` decide whether some value of the list, or each, satisfies the predicate, which is
  -- given the list's function; they stop at the first one that settles it.
  pub ioopm_linked_list_any-all :
      (prop : ℕ → Memory → ℕ → Bool)
      → let test = prop (load64 (list + cmp) s.memory) s.memory in
        (ioopm_linked_list_any prop list s ≡ some (any_value test (values cells), s))
        × (ioopm_linked_list_all prop list s ≡ some (all_values test (values cells), s))
  unfolding ioopm_linked_list_any ioopm_linked_list_all
  ioopm_linked_list_any-all prop =
      let f = load64 (list + cmp) s.memory in
      let p = load64 (list + first) s.memory in
      (
        rw
            (
              ioopm_linked_list_any,
              field64_lem list first s is.real,
              field32_lem list size s is.real,
              field64_lem list cmp s is.real,
              is.count,
              rounds_eq,
            )
            (any_loop_lem (prop f) s cells p 0 is.chain),
        rw
            (
              ioopm_linked_list_all,
              field64_lem list first s is.real,
              field32_lem list size s is.real,
              field64_lem list cmp s is.real,
              is.count,
              rounds_eq,
            )
            (all_loop_lem (prop f) s cells p 0 is.chain),
      )
