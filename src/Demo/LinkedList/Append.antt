-- ===== src/Demo/LinkedList/Append.antt =====
-- `append` on a list in the collected heap.
use mathlib.Core.Path.{subst}
use garbagecollector.Base.{
  ℕ, ◌+◌, ◌*◌, ◌^◌, ◌≤◌, ◌<◌, ◌≡◌, ◌≢◌, refl, sym, false, List, [], ◌∷◌, ◌++◌, length, some,
  All-append, All-split, length-append, ◌==◌, arith,
}
use garbagecollector.Memory.{store64, store64_outside}
use garbagecollector.Memory.Sized.{load32, store32_outside}
use garbagecollector.Alloc.{State, header_size}
use garbagecollector.Alloc.Fresh.{HasRoom-IsSpare}
use garbagecollector.Demo.{int_suc}
use garbagecollector.Demo.Fields.{field32_lem}
use garbagecollector.Demo.LinkedList.{next, first, last, size, ioopm_linked_list_append}
use garbagecollector.Demo.LinkedList.Shape.{Cell, last_link}
use garbagecollector.Demo.LinkedList.NewLink.{new_link-IsNewLink}
use garbagecollector.Demo.LinkedList.Grow.{counted, alone, behind, alone-IsList, behind-IsList}
use garbagecollector.Demo.LinkedList.Stored.{
  IsStored, IsList-kept, away, bare, below_after, outside, stored_after, only_link_lem,
  link_behind_last_lem, grow_size_lem, ends,
}

module _ (start : ℕ) (s : State) (list v n : ℕ) (small : v < 2 ^ 64) where
  abbrev place : ℕ
  place = s.heap.alloc_front + header_size

  append_behind :
      (init : List Cell) (z : Cell)
      → IsStored start s list (init ++ z ∷ []) (n + 1)
      → (s' : State) × (ioopm_linked_list_append list v s ≡ some (tt, s'))
        × IsStored start s' list ((init ++ z ∷ []) ++ (place, v) ∷ []) n
  unfolding ioopm_linked_list_append behind counted
  append_behind init z stored =
      let cells = init ++ z ∷ [] in
      let bound : place < 2 ^ 64 = omega (arith, stored.spare.high, stored.spare.addressable) in
      let room =
        HasRoom-IsSpare start s (32 * (n + 1)) (56 * (n + 1)) 16 stored.spare (omega arith)
          (omega arith) in
      let (s₁, run, link) = new_link-IsNewLink start s v room small in
      let kept = IsList-kept start s list v cells n stored place s₁ link in
      let real = stored.is_list.real in
      let p_real : place ≢ 0 = λ e. omega (arith, e) in
      let out = outside start s list v cells n stored place s₁ link in
      let (stop, z_real) = ends s₁.memory list init z kept in
      let z_below =
        (All-split (λ c. c.0 + 16 ≤ s.heap.alloc_front) init (z ∷ []) stored.below).1.0 in
      let some_left : (length cells == 0) ≡ false = ground (arith, length-append init (z ∷ [])) in
      let m₁ = store64 (z.0 + next) place s₁.memory in
      let m₂ = store64 (list + last) place m₁ in
      let count = int_suc (load32 (list + size) m₂) in
      let m₃ = behind s₁.memory list place v small bound p_real out link.holds z.0 in
      (
        record s₁ { memory = m₃ },
        rw
            (
              ioopm_linked_list_append,
              run,
              field32_lem list size s₁ real,
              kept.count,
              some_left,
              link_behind_last_lem list place z.0 s₁ real stop z_real,
              grow_size_lem list (record s₁ { memory = m₂ }) real,
            )
            refl,
        stored_after start s list v cells n stored place s₁ link m₃ (cells ++ (place, v) ∷ [])
            (behind-IsList s₁.memory list place v small bound p_real out link.holds init z kept
              (away start s list v cells n stored place s₁ link)
              (bare start s list v cells n stored place s₁ link) (omega (arith, stored.few)))
            (All-append (λ c. c.0 + 16 ≤ s₁.heap.alloc_front) cells ((place, v) ∷ [])
              (below_after start s list v cells n stored place s₁ link)
              (omega (arith, link.front_eq), tt))
            (λ a. ground (
              arith,
              store32_outside a (list + size) count m₂,
              store64_outside (list + last) place m₁ a,
              store64_outside (z.0 + next) place s₁.memory a,
              stored.list_below,
              z_below,
              link.front_eq,
            ))
            (length-append cells ((place, v) ∷ [])),
      )

  -- The new value is the last one of the list, and all others stay.
  pub append-IsStored :
      (cells : List Cell)
      → IsStored start s list cells (n + 1)
      → (s' : State) × (ioopm_linked_list_append list v s ≡ some (tt, s'))
        × IsStored start s' list (cells ++ (place, v) ∷ []) n
  unfolding ioopm_linked_list_append alone behind counted
  append-IsStored [] stored =
      let bound : place < 2 ^ 64 = omega (arith, stored.spare.high, stored.spare.addressable) in
      let room =
        HasRoom-IsSpare start s (32 * (n + 1)) (56 * (n + 1)) 16 stored.spare (omega arith)
          (omega arith) in
      let (s₁, run, link) = new_link-IsNewLink start s v room small in
      let kept = IsList-kept start s list v [] n stored place s₁ link in
      let real = stored.is_list.real in
      let p_real : place ≢ 0 = λ e. omega (arith, e) in
      let out = outside start s list v [] n stored place s₁ link in
      let m₁ = store64 (list + first) place s₁.memory in
      let m₂ = store64 (list + last) place m₁ in
      let count = int_suc (load32 (list + size) m₂) in
      let m₃ = alone s₁.memory list place v small bound p_real out link.holds in
      (
        record s₁ { memory = m₃ },
        rw
            (
              ioopm_linked_list_append,
              run,
              field32_lem list size s₁ real,
              kept.count,
              only_link_lem list place s₁ real,
              grow_size_lem list (record s₁ { memory = m₂ }) real,
            )
            refl,
        stored_after start s list v [] n stored place s₁ link m₃ ((place, v) ∷ [])
            (alone-IsList s₁.memory list place v small bound p_real out link.holds kept
              (bare start s list v [] n stored place s₁ link))
            (omega (arith, link.front_eq), tt)
            (λ a. ground (
              arith,
              store32_outside a (list + size) count m₂,
              store64_outside (list + last) place m₁ a,
              store64_outside (list + first) place s₁.memory a,
              stored.list_below,
              link.front_eq,
            ))
            (omega arith),
      )
  append-IsStored (c ∷ rest) stored =
      let (init, z, e, f) = last_link 0 c rest in
      subst
        (λ (cells : List Cell).
          (s' : State) × (ioopm_linked_list_append list v s ≡ some (tt, s'))
          × IsStored start s' list (cells ++ (place, v) ∷ []) n)
        (sym e)
        (append_behind init z
          (subst (λ (cells : List Cell). IsStored start s list cells (n + 1)) e stored))
