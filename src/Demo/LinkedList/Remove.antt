-- ===== src/Demo/LinkedList/Remove.antt =====
-- `remove` on a list in the collected heap.
use mathlib.Core.Path.{subst}
use mathlib.Core.List.{append_assoc}
use garbagecollector.Base.{
  ℕ, suc, ◌+◌, ◌^◌, ◌<◌, ◌≡◌, ◌≢◌, refl, ap, sym, ◌∙◌, ◌⊎◌, inl, inr, true, false, List, [], ◌∷◌,
  ◌++◌, length, length-append, some, All-split, arith,
}
use garbagecollector.Memory.{load64}
use garbagecollector.Memory.Sized.{load32, load64-store32_outside}
use garbagecollector.Alloc.{State}
use garbagecollector.Demo.{is_negative, int_ltb, int_pred}
use garbagecollector.Demo.Fields.{field64_lem, field32_lem}
use garbagecollector.Demo.LinkedList.{
  value, next, first, last, size, find_link, value_at, at_index, unlink, remove_valid,
  ioopm_linked_list_remove, ioopm_linked_list_get,
}
use garbagecollector.Demo.LinkedList.Shape.{Cell, Apart, Chain-split, last_link}
use garbagecollector.Demo.LinkedList.Stored.{IsStored}
use garbagecollector.Demo.LinkedList.Read.{follow_lem, final_lem}
use garbagecollector.Demo.LinkedList.Erase.{get_elem?-behind}
use garbagecollector.Demo.LinkedList.Unlink.{
  shrink_size_lem, at_index_lem, remove_first, smaller, smaller_lem,
}
use garbagecollector.Demo.LinkedList.Splice.{remove_middle}

module _ (start : ℕ) (s : State) (list n : ℕ) where
  -- The link at an index of the list leaves it, and its value is returned, if the link is the first one
  -- or not the last.
  pub remove-IsStored :
      (xs : List Cell) (c : Cell) (ys : List Cell)
      → IsStored start s list (xs ++ c ∷ ys) n
      → (xs ≡ []) ⊎ (ys ≢ [])
      → (s' : State) × (ioopm_linked_list_remove list (length xs) s ≡ some (c.1, s'))
        × IsStored start s' list (xs ++ ys) n
  remove-IsStored [] c ys stored place = remove_first start s list n c ys stored
  remove-IsStored (x ∷ xs) c [] stored place =
      absurd (elim place [ inl e ↦ cc e | inr some_left ↦ some_left refl ])
  remove-IsStored (x ∷ xs) c (d ∷ ys) stored place =
      let (init, z, e, _) = last_link 0 x xs in
      let count : length (x ∷ xs) ≡ suc (length init) =
        ap length e ∙ length-append init (z ∷ []) ∙ omega arith in
      let (s', run, stored') = remove_middle start s list n init z c d ys (
        subst (λ (cells : List Cell). IsStored start s list cells n)
          (ap (λ (cells : List Cell). cells ++ c ∷ d ∷ ys) e
            ∙ append_assoc init (z ∷ []) (c ∷ d ∷ ys))
          stored) in
      (
        s',
        rw count run,
        subst (λ (cells : List Cell). IsStored start s' list cells n)
            (sym
              (ap (λ (cells : List Cell). cells ++ d ∷ ys) e ∙ append_assoc init (z ∷ []) (d ∷ ys)))
            stored',
      )

  -- When `ioopm_linked_list_remove` removes the last of two or more elements of a list that lies
  -- below the front of a heap, it returns its value and the size is one less, but the list still
  -- has the removed link as its last one: `ioopm_linked_list_get` at an index behind the end, below
  -- 2 ^ 31, gives the removed value.
  pub remove-last :
      (init : List Cell) (z c : Cell)
      → IsStored start s list (init ++ z ∷ c ∷ []) n
      → (index : ℕ) → length init < index
      → index < 2 ^ 31
      → (s' : State) × (ioopm_linked_list_remove list (suc (length init)) s ≡ some (c.1, s'))
        × (load32 (list + size) s'.memory ≡ suc (length init))
        × (ioopm_linked_list_get list index s' ≡ some (c.1, s'))
  unfolding remove_valid find_link unlink ioopm_linked_list_get at_index value_at
  remove-last init z c stored index above word =
      let is = stored.is_list in
      let cells = init ++ z ∷ c ∷ [] in
      let m = s.memory in
      let p = load64 (list + first) m in
      let k = int_pred (load32 (list + size) m) in
      let s' : State = record s { memory = smaller list m } in
      let count : length cells ≡ suc (suc (length init)) =
        length-append init (z ∷ c ∷ []) ∙ omega arith in
      let at_c = get_elem?-behind init z c [] in
      let (run_c, c_real, c_held) = follow_lem s cells p 0 (suc (length init)) c is.chain at_c in
      let (q, front, (_, _, _, (_, _, _, end))) = Chain-split m init (z ∷ c ∷ []) p 0 is.chain in
      let inside : suc (length init) < length cells = omega (arith, count) in
      let fewer : load32 (list + size) s'.memory ≡ suc (length init) =
        smaller_lem list m (suc (length init)) (is.count ∙ count)
          (omega (arith, stored.few, count)) in
      let stop : load64 (list + last) s'.memory ≡ c.0 =
        load64-store32_outside (list + last) (list + size) k m (inl (omega arith)) ∙ elim is.end [
          | inl e ↦ absurd (ground (arith, ap length e, count))
          | inr e ↦ e ∙ final_lem cells 0 (suc (length init)) c at_c (omega (arith, count))
        ] in
      let out = (All-split (Apart list 28) init (z ∷ c ∷ []) is.apart).1.1.0 in
      let held : load64 (c.0 + value) s'.memory ≡ c.1 =
        load64-store32_outside (c.0 + value) (list + size) k m (ground (arith, out)) ∙ c_held in
      let nonneg : is_negative index ≡ false = ground (arith, word) in
      let beyond : int_ltb (int_pred (suc (length init))) index ≡ true =
        ground (arith, word, above, stored.few, count) in
      (
        s',
        rw
            (
              at_index_lem list (suc (length init)) s cells is (omega (arith, stored.few)) inside,
              remove_valid,
              find_link,
              field64_lem list first s is.real,
              run_c,
              field64_lem c.0 value s c_real,
              c_held,
              unlink,
              field64_lem c.0 next s c_real,
              end,
              shrink_size_lem list s is.real,
            )
            refl,
        fewer,
        rw
            (
              ioopm_linked_list_get,
              at_index,
              nonneg,
              field32_lem list size s' is.real,
              fewer,
              beyond,
              value_at,
              field64_lem list last s' is.real,
              stop,
              field64_lem c.0 value s' c_real,
              held,
            )
            refl,
      )
