-- ===== src/Demo/LinkedList/Stored.antt =====
-- A list in the collected heap, and what a new link and the parts of `append` and `prepend` do to it.
use garbagecollector.Base.{
  ℕ, ◌+◌, ◌*◌, ◌^◌, ◌≤◌, ◌<◌, ◌≡◌, ◌≢◌, refl, ap, ◌∙◌, ◌⊎◌, inl, inr, List, [], ◌∷◌, ◌++◌, length,
  some, All, All-map, length-append, arith,
}
use garbagecollector.Memory.{Memory, load64, store64, load_bytes}
use garbagecollector.Memory.Sized.{load32, store32, load64_congr, load32_congr}
use garbagecollector.Alloc.{State}
use garbagecollector.Alloc.Fresh.{IsSpare, IsSpare-after}
use garbagecollector.Demo.{int_suc}
use garbagecollector.Demo.Fields.{field64_lem, field32_lem, set_field64_lem, set_field32_lem}
use garbagecollector.Demo.LinkedList.{
  next, first, last, size, only_link, grow_size, link_behind_last, link_before_first,
}
use garbagecollector.Demo.LinkedList.Shape.{Cell, Agree, Apart, IsList, Chain-Agree, Chain-split}
use garbagecollector.Demo.LinkedList.NewLink.{IsNewLink}
use garbagecollector.Demo.LinkedList.Grow.{final-append}

-- A list in the heap, with room for `n` links more: its parts are below the front, nothing has been
-- written from there on, and the size stays an `int`.
pub record IsStored (start : ℕ) (s : State) (list : ℕ) (cells : List Cell) (n : ℕ) : Type 0 where
  pub is_list : IsList s.memory list cells
  pub list_below : list + 28 ≤ s.heap.alloc_front
  pub below : All (λ c. c.0 + 16 ≤ s.heap.alloc_front) cells
  pub clean : (a : ℕ) → (a < s.heap.alloc_front) ⊎ (s.memory a ≡ 0)
  pub spare : IsSpare start s.heap (32 * n) (56 * n)
  pub few : length cells + n < 2 ^ 31

pub IsList-Agree :
    (m m' : Memory) (list : ℕ) (cells : List Cell)
    → IsList m list cells
    → Agree m m' list 28
    → All (λ c. Agree m m' c.0 16) cells
    → IsList m' list cells
IsList-Agree m m' list cells is same same_cells =
    let begin =
      load64_congr (list + first) m' m (λ a low high. same a (omega arith) (omega arith)) in
    let stop = load64_congr (list + last) m' m (λ a low high. same a (omega arith) (omega arith)) in
    let count =
      load32_congr (list + size) m' m (λ a low high. same a (omega arith) (omega arith)) in
    record {
      real = is.real;
      chain = rw begin (Chain-Agree m m' cells (load64 (list + first) m) 0 is.chain same_cells);
      end = elim is.end [ inl e ↦ inl e | inr e ↦ inr (stop ∙ e) ];
      count = count ∙ is.count;
      separate = is.separate;
      apart = is.apart;
    }

load64_zero : (a : ℕ) (m : Memory) → ((b : ℕ) → a ≤ b → b < a + 8 → m b ≡ 0) → load64 a m ≡ 0
unfolding load64 load_bytes
load64_zero a m zeros = load64_congr a m (λ b. 0) zeros ∙ omega arith

pub grow_size_lem :
    (list : ℕ) (s : State)
    → list ≢ 0
    → grow_size list s
      ≡ some (
        tt,
        record s {
          memory = store32 (list + size) (int_suc (load32 (list + size) s.memory)) s.memory;
        },
      )
unfolding grow_size
grow_size_lem list s real =
    rw
      (
        grow_size,
        field32_lem list size s real,
        set_field32_lem list size s real (int_suc (load32 (list + size) s.memory)),
      )
      refl

-- The state after the new link, and the list in it.
module _ (start : ℕ) (s : State) (list v : ℕ) (cells : List Cell) (n : ℕ)
    (stored : IsStored start s list cells (n + 1)) (p : ℕ) (s₁ : State)
    (link : IsNewLink start s v p s₁) where
  pub IsList-kept : IsList s₁.memory list cells
  IsList-kept =
      IsList-Agree s.memory s₁.memory list cells stored.is_list
        (λ a low high. ground (arith, link.frame a, stored.list_below))
        (All-map (λ c. c.0 + 16 ≤ s.heap.alloc_front) (λ c. Agree s.memory s₁.memory c.0 16) cells
          (λ c h a low high. ground (arith, link.frame a, h)) stored.below)

  pub away : All (Apart p 16) cells
  away =
      All-map (λ c. c.0 + 16 ≤ s.heap.alloc_front) (Apart p 16) cells
        (λ c h. inl (omega (arith, h, link.place))) stored.below

  pub bare : load64 (p + next) s₁.memory ≡ 0
  bare =
      link.behind
      ∙ load64_zero (p + next) s.memory (λ b low high. ground (arith, stored.clean b, link.place))

  pub clean_after : (a : ℕ) → (a < s₁.heap.alloc_front) ⊎ (s₁.memory a ≡ 0)
  clean_after a = ground (arith, link.frame a, stored.clean a, link.front_eq, link.place)

  pub below_after : All (λ c. c.0 + 16 ≤ s₁.heap.alloc_front) cells
  below_after =
      All-map (λ c. c.0 + 16 ≤ s.heap.alloc_front) (λ c. c.0 + 16 ≤ s₁.heap.alloc_front) cells
        (λ c h. omega (arith, h, link.front_eq, link.place)) stored.below

  pub outside : (list + 28 ≤ p) ⊎ (p + 16 ≤ list)
  outside = inl (omega (arith, stored.list_below, link.place))

  -- A memory that differs from the one after the new link only within the list.
  pub stored_after :
      (m : Memory) (cells' : List Cell)
      → IsList m list cells'
      → All (λ c. c.0 + 16 ≤ s₁.heap.alloc_front) cells'
      → ((a : ℕ) → (a < s₁.heap.alloc_front) ⊎ (m a ≡ s₁.memory a))
      → length cells' ≡ length cells + 1
      → IsStored start (record s₁ { memory = m }) list cells' n
  stored_after m cells' is below frame longer = record {
    is_list = is;
    list_below = omega (arith, stored.list_below, link.front_eq, link.place);
    below = below;
    clean = λ a. ground (arith, frame a, clean_after a);
    spare =
        IsSpare-after start s.heap s₁.heap (32 * (n + 1)) (56 * (n + 1)) (32 * n) (56 * n) 16
          stored.spare (omega arith) (omega arith) link.shape link.same_flags
          (omega (arith, link.front_eq, link.place)) (omega (arith, link.used_eq));
    few = omega (arith, stored.few, longer);
  }

pub only_link_lem :
    (list p : ℕ) (s : State)
    → list ≢ 0
    → only_link list p s
      ≡ some (tt, record s { memory = store64 (list + last) p (store64 (list + first) p s.memory) })
unfolding only_link
only_link_lem list p s real =
    rw
      (
        only_link,
        set_field64_lem list first s real p,
        set_field64_lem list last (record s { memory = store64 (list + first) p s.memory }) real p,
      )
      refl

pub link_behind_last_lem :
    (list p z : ℕ) (s : State)
    → list ≢ 0
    → load64 (list + last) s.memory ≡ z
    → z ≢ 0
    → link_behind_last list p s
      ≡ some (tt, record s { memory = store64 (list + last) p (store64 (z + next) p s.memory) })
unfolding link_behind_last
link_behind_last_lem list p z s real e z_real =
    rw
      (
        link_behind_last,
        field64_lem list last s real,
        e,
        set_field64_lem z next s z_real p,
        set_field64_lem list last (record s { memory = store64 (z + next) p s.memory }) real p,
      )
      refl

pub link_before_first_lem :
    (list p : ℕ) (s : State)
    → list ≢ 0
    → p ≢ 0
    → link_before_first list p s
      ≡ some (
        tt,
        record s {
          memory =
              store64
                (list + first)
                p
                (store64 (p + next) (load64 (list + first) s.memory) s.memory);
        },
      )
unfolding link_before_first
link_before_first_lem list p s real p_real =
    rw
      (
        link_before_first,
        field64_lem list first s real,
        set_field64_lem p next s p_real (load64 (list + first) s.memory),
        set_field64_lem list first
            (record s { memory = store64 (p + next) (load64 (list + first) s.memory) s.memory })
            real p,
      )
      refl

pub ends :
    (m : Memory) (list : ℕ) (init : List Cell) (z : Cell)
    → IsList m list (init ++ z ∷ [])
    → (load64 (list + last) m ≡ z.0) × (z.0 ≢ 0)
ends m list init z is =
    let (q, chain, (at, z_real, z_holds, z_end)) =
      Chain-split m init (z ∷ []) (load64 (list + first) m) 0 is.chain in
    (
      elim is.end [
        | inl e ↦ ground (arith, ap length e, length-append init (z ∷ []))
        | inr e ↦ e ∙ final-append 0 init z
      ],
      z_real,
    )
