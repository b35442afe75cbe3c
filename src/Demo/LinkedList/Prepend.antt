-- ===== src/Demo/LinkedList/Prepend.antt =====
-- `prepend` on a list in the collected heap.
use garbagecollector.Base.{
  ◌==◌, false, ℕ, ◌+◌, ◌*◌, ◌^◌, ◌<◌, ◌≡◌, ◌≢◌, refl, List, [], ◌∷◌, some, arith,
}
use garbagecollector.Memory.{load64, store64, store64_outside}
use garbagecollector.Memory.Sized.{load32, store32_outside}
use garbagecollector.Alloc.{State, header_size}
use garbagecollector.Alloc.Fresh.{HasRoom-IsSpare}
use garbagecollector.Demo.{int_suc}
use garbagecollector.Demo.Fields.{field32_lem}
use garbagecollector.Demo.LinkedList.{next, first, last, size, ioopm_linked_list_prepend}
use garbagecollector.Demo.LinkedList.Shape.{Cell}
use garbagecollector.Demo.LinkedList.NewLink.{new_link-IsNewLink}
use garbagecollector.Demo.LinkedList.Grow.{counted, alone, before, alone-IsList, before-IsList}
use garbagecollector.Demo.LinkedList.Stored.{
  IsStored, IsList-kept, away, bare, below_after, outside, stored_after, only_link_lem,
  link_before_first_lem, grow_size_lem,
}

module _ (start : ℕ) (s : State) (list v n : ℕ) (small : v < 2 ^ 64) where
  abbrev place : ℕ
  place = s.heap.alloc_front + header_size

  -- The new value is the first one of the list, and all others stay.
  pub prepend-IsStored :
      (cells : List Cell)
      → IsStored start s list cells (n + 1)
      → (s' : State) × (ioopm_linked_list_prepend list v s ≡ some (tt, s'))
        × IsStored start s' list ((place, v) ∷ cells) n
  unfolding ioopm_linked_list_prepend alone before counted
  prepend-IsStored [] stored =
      let bound : place < 2 ^ 64 = omega (arith, stored.spare.high, stored.spare.addressable) in
      let room =
        HasRoom-IsSpare start s (32 * (n + 1)) (56 * (n + 1)) 16 stored.spare (omega arith)
          (omega arith) in
      let (s₁, run, link) = new_link-IsNewLink start s v room small in
      let kept = IsList-kept start s list v [] n stored place s₁ link in
      let real = stored.is_list.real in
      let p_real : place ≢ 0 = λ e. omega (arith, e) in
      let out = outside start s list v [] n stored place s₁ link in
      let m₁ = store64 (list + first) place s₁.memory in
      let m₂ = store64 (list + last) place m₁ in
      let count = int_suc (load32 (list + size) m₂) in
      let m₃ = alone s₁.memory list place v small bound p_real out link.holds in
      (
        record s₁ { memory = m₃ },
        rw
            (
              ioopm_linked_list_prepend,
              run,
              field32_lem list size s₁ real,
              kept.count,
              only_link_lem list place s₁ real,
              grow_size_lem list (record s₁ { memory = m₂ }) real,
            )
            refl,
        stored_after start s list v [] n stored place s₁ link m₃ ((place, v) ∷ [])
            (alone-IsList s₁.memory list place v small bound p_real out link.holds kept
              (bare start s list v [] n stored place s₁ link))
            (omega (arith, link.front_eq), tt)
            (λ a. ground (
              arith,
              store32_outside a (list + size) count m₂,
              store64_outside (list + last) place m₁ a,
              store64_outside (list + first) place s₁.memory a,
              stored.list_below,
              link.front_eq,
            ))
            (omega arith),
      )
  prepend-IsStored (c ∷ rest) stored =
      let cells = c ∷ rest in
      let bound : place < 2 ^ 64 = omega (arith, stored.spare.high, stored.spare.addressable) in
      let room =
        HasRoom-IsSpare start s (32 * (n + 1)) (56 * (n + 1)) 16 stored.spare (omega arith)
          (omega arith) in
      let (s₁, run, link) = new_link-IsNewLink start s v room small in
      let kept = IsList-kept start s list v cells n stored place s₁ link in
      let real = stored.is_list.real in
      let p_real : place ≢ 0 = λ e. omega (arith, e) in
      let out = outside start s list v cells n stored place s₁ link in
      let c_small : c.0 < 2 ^ 64 = omega (arith, stored.below.0, bound) in
      let some_left : (load32 (list + size) s₁.memory == 0) ≡ false = ground (arith, kept.count) in
      let old = load64 (list + first) s₁.memory in
      let m₁ = store64 (place + next) old s₁.memory in
      let m₂ = store64 (list + first) place m₁ in
      let count = int_suc (load32 (list + size) m₂) in
      let m₃ = before s₁.memory list place v small bound p_real out link.holds in
      (
        record s₁ { memory = m₃ },
        rw
            (
              ioopm_linked_list_prepend,
              run,
              field32_lem list size s₁ real,
              some_left,
              link_before_first_lem list place s₁ real p_real,
              grow_size_lem list (record s₁ { memory = m₂ }) real,
            )
            refl,
        stored_after start s list v cells n stored place s₁ link m₃ ((place, v) ∷ cells)
            (before-IsList s₁.memory list place v small bound p_real out link.holds c rest c_small
              kept (away start s list v cells n stored place s₁ link) (omega (arith, stored.few)))
            (omega (arith, link.front_eq), below_after start s list v cells n stored place s₁ link)
            (λ a. ground (
              arith,
              store32_outside a (list + size) count m₂,
              store64_outside (list + first) place m₁ a,
              store64_outside (place + next) old s₁.memory a,
              stored.list_below,
              link.front_eq,
            ))
            (omega arith),
      )
