-- ===== src/Demo/LinkedList/Splice.antt =====
-- What `remove` does to a list when the link stands between two others.
use garbagecollector.Base.{
  ℕ, suc, ◌+◌, ◌^◌, ◌≤◌, ◌<◌, ◌≡◌, refl, ap, ◌∙◌, inl, inr, List, ◌∷◌, ◌++◌, length, length-append,
  get_elem?, some, All, All-map_two, All-split, arith,
}
use garbagecollector.Memory.{
  load64, store64, load64-store64, load64-store64_outside, store64_outside,
}
use garbagecollector.Memory.Sized.{
  load32, store32_outside, load64-store32_outside, load32-store64_outside,
}
use garbagecollector.Alloc.{State}
use garbagecollector.Demo.{int_pred}
use garbagecollector.Demo.Fields.{not_null, field64_lem, set_field64_lem}
use garbagecollector.Demo.LinkedList.{
  value, next, first, last, size, find_link, unlink, remove_valid, ioopm_linked_list_remove,
}
use garbagecollector.Demo.LinkedList.Shape.{
  Cell, Agree, Apart, Chain, Chain-Agree, Chain-append, Chain-split,
}
use garbagecollector.Demo.LinkedList.Stored.{IsStored}
use garbagecollector.Demo.LinkedList.Read.{follow_lem}
use garbagecollector.Demo.LinkedList.Erase.{
  All-erase, Separate-erase, Separate-before, get_elem?-middle, get_elem?-behind, final-erase,
}
use garbagecollector.Demo.LinkedList.Unlink.{at_index_lem, shrink_size_lem, smaller, finish}

module _ (start : ℕ) (s : State) (list n : ℕ) where
  -- A link between two others leaves the list.
  pub remove_middle :
      (init : List Cell) (z c d : Cell) (ys : List Cell)
      → IsStored start s list (init ++ z ∷ c ∷ d ∷ ys) n
      → (s' : State) × (ioopm_linked_list_remove list (suc (length init)) s ≡ some (c.1, s'))
        × IsStored start s' list (init ++ z ∷ d ∷ ys) n
  unfolding remove_valid find_link unlink
  remove_middle init z c d ys stored =
      let is = stored.is_list in
      let cells = init ++ z ∷ c ∷ d ∷ ys in
      let cells' = init ++ z ∷ d ∷ ys in
      let m = s.memory in
      let p = load64 (list + first) m in
      let low = λ (x : Cell). x.0 + 16 ≤ s.heap.alloc_front in
      let one_less : length cells ≡ suc (length cells') =
        ground (arith, length-append init (z ∷ c ∷ d ∷ ys), length-append init (z ∷ d ∷ ys)) in
      let inside : suc (length init) < length cells =
        ground (arith, length-append init (z ∷ c ∷ d ∷ ys)) in
      let (run_z, z_real, z_held) =
        follow_lem s cells p 0 (length init) z is.chain (get_elem?-middle init z (c ∷ d ∷ ys)) in
      let at_c : get_elem? cells (suc (length init)) ≡ some c =
        get_elem?-behind init z c (d ∷ ys) in
      let (run_c, c_real, c_held) = follow_lem s cells p 0 (suc (length init)) c is.chain at_c in
      let (q, front, (at, _, v, (at', _, _, (at_d, d_real, d_held, rest)))) =
        Chain-split m init (z ∷ c ∷ d ∷ ys) p 0 is.chain in
      let m₁ = store64 (z.0 + next) d.0 m in
      let k = int_pred (load32 (list + size) m₁) in
      let low_z = All-split low init (z ∷ c ∷ d ∷ ys) stored.below in
      let apart_z = All-split (Apart list 28) init (z ∷ c ∷ d ∷ ys) is.apart in
      let out_z = apart_z.1.0 in
      let (sep_init, sep_rest) = Separate-before init z (c ∷ d ∷ ys) is.separate in
      let d_small : d.0 < 2 ^ 64 =
        omega (arith, low_z.1.1.1.0, stored.spare.high, stored.spare.addressable) in
      let kept : (x : Cell) → Apart z.0 16 x → Apart list 28 x → Agree m (smaller list m₁) x.0 16 =
        λ x h h' a low high. ground (
          arith,
          h,
          h',
          store32_outside a (list + size) k m₁,
          store64_outside (z.0 + next) d.0 m a,
        ) in
      let same_front : All (λ x. Agree m (smaller list m₁) x.0 16) init =
        All-map_two (Apart z.0 16) (Apart list 28) (λ x. Agree m (smaller list m₁) x.0 16) init kept
          sep_init apart_z.0 in
      let same_rest : All (λ x. Agree m (smaller list m₁) x.0 16) (d ∷ ys) =
        All-map_two (Apart z.0 16) (Apart list 28) (λ x. Agree m (smaller list m₁) x.0 16) (d ∷ ys)
          kept sep_rest.1 apart_z.1.1.1 in
      let begin : load64 (list + first) (smaller list m₁) ≡ p =
        load64-store32_outside (list + first) (list + size) k m₁ (inl (omega arith))
        ∙ load64-store64_outside (z.0 + next) d.0 m (list + first) (ground (arith, out_z)) in
      let step : load64 (z.0 + next) (smaller list m₁) ≡ d.0 =
        load64-store32_outside (z.0 + next) (list + size) k m₁ (ground (arith, out_z))
        ∙ load64-store64 (z.0 + next) d.0 m d_small in
      let held : load64 (z.0 + value) (smaller list m₁) ≡ z.1 =
        load64-store32_outside (z.0 + value) (list + size) k m₁ (ground (arith, out_z))
        ∙ load64-store64_outside (z.0 + next) d.0 m (z.0 + value) (inl (omega arith))
        ∙ v in
      let stop : load64 (list + last) m₁ ≡ load64 (list + last) m =
        load64-store64_outside (z.0 + next) d.0 m (list + last) (ground (arith, out_z)) in
      let behind : Chain (smaller list m₁) d.0 (d ∷ ys) 0 =
        Chain-Agree m (smaller list m₁) (d ∷ ys) d.0 0 (refl, d_real, d_held, rest) same_rest in
      (
        record s { memory = smaller list m₁ },
        rw
            (
              at_index_lem list (suc (length init)) s cells is (omega (arith, stored.few)) inside,
              remove_valid,
              find_link,
              field64_lem list first s is.real,
              run_c,
              field64_lem c.0 value s c_real,
              c_held,
              unlink,
              field64_lem c.0 next s c_real,
              at_d,
              not_null d.0 next s d_real,
              find_link,
              field64_lem list first s is.real,
              run_z,
              set_field64_lem z.0 next s z_real d.0,
              shrink_size_lem list (record s { memory = m₁ }) is.real,
            )
            refl,
        finish start s list n m₁ cells cells' stored one_less
            (rw begin (
              Chain-append (smaller list m₁) init (z ∷ d ∷ ys) p q 0
                (Chain-Agree m (smaller list m₁) init p q front same_front)
                (at, z_real, held, rw step behind)))
            (elim is.end [
              | inl e ↦ ground (arith, ap length e, inside)
              | inr e ↦ inr (stop ∙ e ∙ final-erase 0 init z c d ys)
            ])
            (load32-store64_outside (list + size) (z.0 + next) d.0 m (ground (arith, out_z))
              ∙ is.count)
            (Separate-erase init z c (d ∷ ys) is.separate)
            (All-erase (Apart list 28) init z c (d ∷ ys) is.apart)
            (All-erase low init z c (d ∷ ys) stored.below)
            (λ a. ground (arith, store64_outside (z.0 + next) d.0 m a, low_z.1.0)),
      )
