-- ===== src/Collect/Reset.antt =====
-- What a collection does to the spaces before it follows the roots.
use garbagecollector.Base.{
  ℕ, zero, suc, ◌+◌, ◌-◌, ◌*◌, ◌^◌, ◌≤◌, ◌<◌, ◌≡◌, refl, sym, ap, ◌∙◌, ◌⊎◌, inl, inr, Bool, true,
  false, List, [], ◌∷◌, length, get_elem?, take, some, arith,
}
use mathlib.Core.Path.{ap₂, subst}
use garbagecollector.Heap.{Heap, space_size_bytes, h_used}
use garbagecollector.Heap.Shape.{IsHeap, spaces_from}
use garbagecollector.Alloc.{State}
use garbagecollector.Stack.{Roots, root_ptrs}
use garbagecollector.Collect.{flip_spaces, first_active, reset_front, collect_roots, h_gc_dbg}

flip_spaces_twice : (flags : List Bool) → flip_spaces (flip_spaces flags) ≡ flags
unfolding flip_spaces
flip_spaces_twice [] = refl
flip_spaces_twice (true ∷ flags) = ap (λ (t : List Bool). true ∷ t) (flip_spaces_twice flags)
flip_spaces_twice (false ∷ flags) = ap (λ (t : List Bool). false ∷ t) (flip_spaces_twice flags)

-- The flags before the one at `k` are all false.
abbrev pub AllPassive : List Bool → ℕ → Type 0
AllPassive flags k = (j : ℕ) → (k ≤ j) ⊎ (get_elem? flags j ≡ some false)

passive_first :
    (flags : List Bool) (k : ℕ) → AllPassive flags k → AllPassive (false ∷ flags) (suc k)
passive_first flags k rest zero = inr refl
passive_first flags k rest (suc j) = elim (rest j) [
  | inl beyond ↦ inl (omega (arith, beyond))
  | inr e ↦ inr e
]

-- The first active space, if there is one.
first_active_lem :
    (start i front : ℕ) (flags : List Bool)
    → ((first_active flags (spaces_from start i (length flags)) front ≡ front)
        × AllPassive flags (length flags))
      ⊎ ((k : ℕ) × (k < length flags)
          × (first_active flags (spaces_from start i (length flags)) front
              ≡ start + (i + k) * space_size_bytes)
          × (get_elem? flags k ≡ some true)
          × AllPassive flags k)
unfolding first_active spaces_from
first_active_lem start i front [] = inl (refl, λ j. inl (omega arith))
first_active_lem start i front (true ∷ flags) =
    inr (0, omega arith, omega arith, refl, λ j. inl (omega arith))
first_active_lem start i front (false ∷ flags) = elim (first_active_lem start (i + 1) front flags) [
  | inl (e, rest) ↦ inl (e, passive_first flags (length flags) rest)
  | inr (k, lt, e, active, rest) ↦
      inr (suc k, omega (arith, lt), e ∙ omega arith, active, passive_first flags k rest)
]

-- Both flips together leave every space as it was. The front goes to the start of the first active
-- space, and stays only where no space is active. Nothing counts as used, and the heap keeps its shape.
pub record IsReset (start : ℕ) (h h' : Heap) : Type 0 where
  pub same_flags : h'.space_is_active ≡ h.space_is_active
  pub same_map : h'.alloc_map ≡ h.alloc_map
  pub used_eq : h'.used_bytes ≡ 0
  pub front :
      ((h'.alloc_front ≡ h.alloc_front) × AllPassive h.space_is_active h.number_of_spaces)
      ⊎ ((k : ℕ) × (h'.alloc_front ≡ start + k * space_size_bytes)
          × (get_elem? h.space_is_active k ≡ some true)
          × AllPassive h.space_is_active k)
  pub shape : IsHeap start h'

module _ (start : ℕ) (h : Heap) (ok : IsHeap start h) where
  front_lem :
      (((reset_front h).alloc_front ≡ h.alloc_front)
        × AllPassive h.space_is_active h.number_of_spaces)
      ⊎ ((k : ℕ) × (k < h.number_of_spaces)
          × ((reset_front h).alloc_front ≡ start + k * space_size_bytes)
          × (get_elem? h.space_is_active k ≡ some true)
          × AllPassive h.space_is_active k)
  unfolding reset_front
  front_lem =
      let e =
        ap₂ (λ (fs : List Bool) (ss : List ℕ). first_active fs ss h.alloc_front)
          (flip_spaces_twice h.space_is_active)
          (ok.space_list ∙ ap (spaces_from start 0) (sym ok.flags_length)) in
      elim (first_active_lem start 0 h.alloc_front h.space_is_active) [
        | inl (q, passive) ↦
            inl (e ∙ q, subst (AllPassive h.space_is_active) ok.flags_length passive)
        | inr (k, lt, q, active, passive) ↦
            inr (k, omega (arith, lt, ok.flags_length), e ∙ q ∙ omega arith, active, passive)
      ]

  -- Before it follows the roots, a collection of a heap of the right shape leaves the same spaces
  -- active and the map as it was, has no bytes used, keeps the shape, and has the front at the
  -- start of the first active space; only if no space is active does the front stay.
  pub reset_front-IsReset : IsReset start h (reset_front h)
  unfolding reset_front
  reset_front-IsReset = record {
    same_flags = flip_spaces_twice h.space_is_active;
    same_map = refl;
    used_eq = refl;
    front = elim front_lem [
      | inl stay ↦ inl stay
      | inr (k, _, e, active, passive) ↦ inr (k, e, active, passive)
    ];
    shape = record {
      some_space = ok.some_space;
      space_list = ok.space_list;
      size_eq = ok.size_eq;
      flags_length = ap length (flip_spaces_twice h.space_is_active) ∙ ok.flags_length;
      last_passive =
          ap (λ (t : List Bool). get_elem? t (h.number_of_spaces - 1))
            (flip_spaces_twice h.space_is_active)
          ∙ ok.last_passive;
      map_length = ok.map_length;
      map_words = ok.map_words;
      front_low = elim front_lem [
        | inl (e, _) ↦ omega (arith, e, ok.front_low)
        | inr (k, lt, e, _, _) ↦ omega (arith, e)
      ];
      front_high = elim front_lem [
        | inl (e, _) ↦ omega (arith, e, ok.front_high)
        | inr (k, lt, e, _, _) ↦ omega (arith, e, lt, ok.size_eq)
      ];
    };
  }

take_few : (pointers : List ℕ) → length pointers ≤ 1 → take (length pointers - 1) pointers ≡ []
take_few [] few = refl
take_few (p ∷ []) few = refl
take_few (p ∷ (q ∷ pointers)) few = absurd (omega arith)

-- If `root_ptrs` finds at most one root and the used bytes are below 2 ^ 64, a collection moves
-- nothing: the memory stays, the heap is reset, and every used byte counts as collected.
pub h_gc_dbg-last_root :
    (s : State) (unsafe_stack : Bool) (stack_top stack_bottom : ℕ) (r : Roots)
    → root_ptrs s.heap s.memory stack_top stack_bottom ≡ some r
    → length r.pointers ≤ 1
    → s.heap.used_bytes < 2 ^ 64
    → h_gc_dbg s unsafe_stack stack_top stack_bottom
      ≡ some (s.heap.used_bytes, record s { heap = reset_front s.heap })
unfolding h_gc_dbg collect_roots h_used reset_front
h_gc_dbg-last_root s unsafe_stack stack_top stack_bottom r found few small =
    rw (h_gc_dbg, found, take_few r.pointers few, collect_roots)
      (ap (λ (t : ℕ). some (t, record s { heap = reset_front s.heap })) (omega arith))
