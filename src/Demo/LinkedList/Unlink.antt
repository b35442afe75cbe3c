-- ===== src/Demo/LinkedList/Unlink.antt =====
-- What `remove` does to a list when the link is the first one.
use garbagecollector.Base.{
  ℕ, suc, ◌+◌, ◌*◌, ◌^◌, ◌≤◌, ◌<◌, ◌≡◌, ◌≢◌, refl, ◌∙◌, ◌⊎◌, inl, inr, false, List, [], ◌∷◌, length,
  some, All, All-map, arith,
}
use garbagecollector.Memory.{
  Memory, load64, store64, load64-store64, load64-store64_outside, store64_outside,
}
use garbagecollector.Memory.Sized.{
  load32, store32, load32-store32, store32_outside, load64-store32_outside, load32-store64_outside,
}
use garbagecollector.Alloc.{State}
use garbagecollector.Demo.{is_negative, int_ltb, int_pred}
use garbagecollector.Demo.Fields.{field64_lem, field32_lem, set_field64_lem, set_field32_lem}
use garbagecollector.Demo.LinkedList.{
  value, next, first, last, size, follow, find_link, at_index, unlink, shrink_size, remove_valid,
  ioopm_linked_list_remove,
}
use garbagecollector.Demo.LinkedList.Shape.{
  Cell, Agree, Apart, Separate, IsList, Chain, Chain-Agree, final,
}
use garbagecollector.Alloc.Fresh.{IsSpare}
use garbagecollector.Demo.LinkedList.Stored.{IsStored}
use garbagecollector.Demo.LinkedList.Erase.{last_of}

pub shrink_size_lem :
    (list : ℕ) (s : State)
    → list ≢ 0
    → shrink_size list s
      ≡ some (
        tt,
        record s {
          memory = store32 (list + size) (int_pred (load32 (list + size) s.memory)) s.memory;
        },
      )
unfolding shrink_size
shrink_size_lem list s real =
    rw
      (
        shrink_size,
        field32_lem list size s real,
        set_field32_lem list size s real (int_pred (load32 (list + size) s.memory)),
      )
      refl

-- The two tests let an index of the list through.
pub at_index_lem :
    (list index : ℕ) (s : State) (cells : List Cell)
    → IsList s.memory list cells
    → length cells < 2 ^ 31
    → index < length cells
    → ioopm_linked_list_remove list index s ≡ remove_valid list index s
unfolding ioopm_linked_list_remove at_index
at_index_lem list index s cells is few inside =
    let nonneg : is_negative index ≡ false = ground (arith, few, inside) in
    let below : int_ltb (int_pred (length cells)) index ≡ false = ground (arith, few, inside) in
    rw (at_index, nonneg, field32_lem list size s is.real, is.count, below) refl

-- The list's size, one less.
module _ (list : ℕ) where
  abbrev pub smaller : Memory → Memory
  smaller m = store32 (list + size) (int_pred (load32 (list + size) m)) m

  pub smaller_lem :
      (m : Memory) (k : ℕ)
      → load32 (list + size) m ≡ suc k
      → k < 2 ^ 31
      → load32 (list + size) (smaller m) ≡ k
  smaller_lem m k e few =
      let e' : int_pred (load32 (list + size) m) ≡ k = omega (arith, e, few) in
      load32-store32 (list + size) (int_pred (load32 (list + size) m)) m (omega (arith, e', few))
      ∙ e'

module _ (start : ℕ) (s : State) (list n : ℕ) where
  -- The list without a link, once the others are chained.
  pub finish :
      (m : Memory) (cells cells' : List Cell)
      → IsStored start s list cells n
      → length cells ≡ suc (length cells')
      → Chain (smaller list m) (load64 (list + first) (smaller list m)) cells' 0
      → (cells' ≡ []) ⊎ (load64 (list + last) m ≡ final 0 cells')
      → load32 (list + size) m ≡ length cells
      → Separate cells'
      → All (Apart list 28) cells'
      → All (λ c. c.0 + 16 ≤ s.heap.alloc_front) cells'
      → ((a : ℕ) → (a < s.heap.alloc_front) ⊎ (m a ≡ s.memory a))
      → IsStored start (record s { memory = smaller list m }) list cells' n
  finish m cells cells' stored one_less chain end count separate apart below frame =
      let k = int_pred (load32 (list + size) m) in
      record {
        is_list = record {
          real = stored.is_list.real;
          chain = chain;
          end = elim end [
            | inl e ↦ inl e
            | inr e ↦
                inr (load64-store32_outside (list + last) (list + size) k m (inl (omega arith)) ∙ e)
          ];
          count =
              smaller_lem list m (length cells') (count ∙ one_less)
                (omega (arith, stored.few, one_less));
          separate = separate;
          apart = apart;
        };
        list_below = stored.list_below;
        below = below;
        clean = λ a. ground (
          arith,
          frame a,
          store32_outside a (list + size) k m,
          stored.list_below,
          stored.clean a,
        );
        spare = stored.spare;
        few = omega (arith, stored.few, one_less);
      }

  pub first_small :
      (m : Memory) (cells : List Cell) (q : ℕ)
      → Chain m q cells 0
      → All (λ c. c.0 + 16 ≤ s.heap.alloc_front) cells
      → IsSpare start s.heap (32 * n) (56 * n)
      → q < 2 ^ 64
  first_small m [] q chain below spare = omega (arith, chain)
  first_small m (c ∷ cells) q chain below spare =
      omega (arith, chain.0, below.0, spare.high, spare.addressable)

  -- The first link of a list leaves it.
  pub remove_first :
      (c : Cell) (ys : List Cell)
      → IsStored start s list (c ∷ ys) n
      → (s' : State) × (ioopm_linked_list_remove list 0 s ≡ some (c.1, s'))
        × IsStored start s' list ys n
  unfolding remove_valid find_link follow unlink
  remove_first c ys stored =
      let is = stored.is_list in
      let m = s.memory in
      let (at, real, held, rest) = is.chain in
      let q = load64 (c.0 + next) m in
      let m₁ = store64 (list + first) q m in
      let out = is.apart.0 in
      let q_small : q < 2 ^ 64 = first_small m ys q rest stored.below.1 stored.spare in
      let same : All (λ d. Agree m (smaller list m₁) d.0 16) ys =
        All-map (Apart list 28) (λ d. Agree m (smaller list m₁) d.0 16) ys
          (λ d h a low high. ground (
            arith,
            h,
            store32_outside a (list + size) (int_pred (load32 (list + size) m₁)) m₁,
            store64_outside (list + first) q m a,
          ))
          is.apart.1 in
      let begin : load64 (list + first) (smaller list m₁) ≡ q =
        load64-store32_outside (list + first) (list + size) (int_pred (load32 (list + size) m₁)) m₁
          (inl (omega arith))
        ∙ load64-store64 (list + first) q m q_small in
      let stop : load64 (list + last) m₁ ≡ load64 (list + last) m =
        load64-store64_outside (list + first) q m (list + last) (inr (omega arith)) in
      (
        record s { memory = smaller list m₁ },
        rw
            (
              at_index_lem list 0 s (c ∷ ys) is (omega (arith, stored.few)) (omega arith),
              remove_valid,
              find_link,
              field64_lem list first s is.real,
              at,
              field64_lem c.0 value s real,
              held,
              unlink,
              field64_lem list first s is.real,
              at,
              field64_lem c.0 next s real,
              set_field64_lem list first s is.real q,
              shrink_size_lem list (record s { memory = m₁ }) is.real,
            )
            refl,
        finish m₁ (c ∷ ys) ys stored refl
            (rw begin (Chain-Agree m (smaller list m₁) ys q 0 rest same))
            (elim is.end [
              | inl none_left ↦ absurd (cc none_left)
              | inr e ↦ last_of ys c (load64 (list + last) m₁) (stop ∙ e)
            ])
            (load32-store64_outside (list + size) (list + first) q m (inr (omega arith)) ∙ is.count)
            is.separate.1 is.apart.1 stored.below.1
            (λ a. ground (arith, store64_outside (list + first) q m a, stored.list_below)),
      )
