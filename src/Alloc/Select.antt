-- ===== src/Alloc/Select.antt =====
-- The choice of a space in `h_alloc_struct`.
use garbagecollector.Base.{
  ℕ, zero, suc, ◌+◌, ◌-◌, ◌*◌, ◌/◌, ◌%◌, ◌^◌, ◌≤◌, ◌<◌, ◌≡◌, refl, ap, ◌∙◌, ◌⊎◌, inl, inr, Bool,
  true, false, ◌&&◌, leb, List, Option, none, some, get_elem?, get_elem?_total, length, arith,
  Bool-cases,
}
use garbagecollector.Heap.{Heap, space_size_bytes}
use garbagecollector.Heap.Shape.{IsHeap, get_elem?-spaces, get_elem?-spaces_zero}
use garbagecollector.Alloc.{Run, ◌>>=◌, next_active, move_to, select_space, header_size}

-- The walk ends: at an active space, or behind the last one.
pub next_active_lem :
    (flags : List Bool) (n fuel i : ℕ) (b : Bool)
    → length flags ≡ n
    → i < n
    → n ≤ i + fuel
    → get_elem? flags i ≡ some b
    → (next_active flags n fuel i b ≡ some none)
      ⊎ ((j : ℕ) × (next_active flags n fuel i b ≡ some (some j))
          × (j < n)
          × (get_elem? flags j ≡ some true))
unfolding next_active
next_active_lem flags n fuel i true len lt enough here = inr (i, refl, lt, here)
next_active_lem flags n zero i false len lt enough here = absurd (omega arith)
next_active_lem flags n (suc fuel) i false len lt enough here = elim (Bool-cases (leb n (i + 1))) [
  | inl e ↦ inl (rw (next_active, e) refl)
  | inr e ↦
      let (b, found) = get_elem?_total flags (i + 1) (ground (arith, len)) in
      rw (next_active, e, found)
        (next_active_lem flags n fuel (i + 1) b len (ground arith) (omega arith) found)
]

-- The space `j` is active, and the front of `h'` is in it: where it was in `h`, or at its start.
pub record IsSelected (start : ℕ) (h : Heap) (j : ℕ) (h' : Heap) : Type 0 where
  pub below : j < h.number_of_spaces
  pub active : get_elem? h.space_is_active j ≡ some true
  pub only_front : h' ≡ record h { alloc_front = h'.alloc_front }
  pub low : start + j * space_size_bytes ≤ h'.alloc_front
  pub high : h'.alloc_front + header_size ≤ start + j * space_size_bytes + space_size_bytes
  pub position : (h'.alloc_front ≡ h.alloc_front) ⊎ (h'.alloc_front ≡ start + j * space_size_bytes)

module _ (start : ℕ) (h : Heap) (ok : IsHeap start h) (size : ℕ) where
  unfoldable pub current : ℕ
  current = (h.alloc_front - start) / space_size_bytes

  pub current-lt : current < h.number_of_spaces
  unfolding current
  current-lt = omega (arith, ok.front_low, ok.front_high, ok.size_eq)

  moved :
      (r : Option ℕ)
      → (r ≡ none)
        ⊎ ((j : ℕ) × (r ≡ some j)
            × (j < h.number_of_spaces)
            × (get_elem? h.space_is_active j ≡ some true))
      → (move_to h r ≡ some none)
        ⊎ ((j : ℕ) × (h' : Heap) × (move_to h r ≡ some (some (j, h'))) × IsSelected start h j h')
  unfolding move_to
  moved r (inl e) = inl (rw (e, move_to) refl)
  moved r (inr (j, e, lt, active)) =
      let base = start + j * space_size_bytes in
      inr (
        j,
        record h { alloc_front = base },
        rw (e, move_to, get_elem?-spaces start h ok j lt) refl,
        record {
          below = lt;
          active = active;
          only_front = refl;
          low = omega arith;
          high = omega arith;
          position = inr refl;
        },
      )

  unfoldable pub space_left : ℕ
  space_left = (space_size_bytes - (h.alloc_front - (start + current * space_size_bytes))) % 2 ^ 16

  unfoldable pub stay_or_walk : Bool → Bool → Run (Option (ℕ × Heap))
  stay_or_walk b true = some (some (current, h))
  stay_or_walk b false =
      next_active h.space_is_active h.number_of_spaces h.number_of_spaces current b >>= move_to h

  pub select_space-eq :
      (b : Bool)
      → get_elem? h.space_is_active current ≡ some b
      → (fits : Bool) → (b && leb (size + header_size) space_left) ≡ fits
      → select_space h size ≡ stay_or_walk b fits
  unfolding select_space current space_left stay_or_walk
  select_space-eq b flag true e =
      rw
        (
          select_space,
          get_elem?-spaces_zero start h ok,
          flag,
          get_elem?-spaces start h ok current current-lt,
        )
        (ap
          (λ (t : Bool). (elim t [
            | true ↦ some (some (current, h))
            | false ↦ stay_or_walk b false
          ]))
          e)
  select_space-eq b flag false e =
      rw
        (
          select_space,
          get_elem?-spaces_zero start h ok,
          flag,
          get_elem?-spaces start h ok current current-lt,
        )
        (ap
          (λ (t : Bool). (elim t [
            | true ↦ some (some (current, h))
            | false ↦ stay_or_walk b false
          ]))
          e)

  walk :
      (b : Bool)
      → get_elem? h.space_is_active current ≡ some b
      → (stay_or_walk b false ≡ some none)
        ⊎ ((j : ℕ) × (h' : Heap) × (stay_or_walk b false ≡ some (some (j, h')))
            × IsSelected start h j h')
  unfolding stay_or_walk move_to
  walk b flag =
      elim (next_active_lem h.space_is_active h.number_of_spaces h.number_of_spaces current b
        ok.flags_length current-lt (omega arith) flag) [
          | inl e ↦ inl (rw (stay_or_walk, e) refl)
          | inr (j, e, lt, active) ↦ elim (moved (some j) (inr (j, refl, lt, active))) [
            | inl e' ↦ inl (rw (stay_or_walk, e) e')
            | inr (j', h', e', p) ↦ inr (j', h', rw (stay_or_walk, e) e', p)
          ]
        ]

  chosen :
      (b : Bool)
      → get_elem? h.space_is_active current ≡ some b
      → (select_space h size ≡ some none)
        ⊎ ((j : ℕ) × (h' : Heap) × (select_space h size ≡ some (some (j, h')))
            × IsSelected start h j h')
  unfolding current space_left stay_or_walk
  chosen b flag = elim (Bool-cases (b && leb (size + header_size) space_left)) [
    | inl e ↦ inr (
      current,
      h,
      select_space-eq b flag true e,
      record {
        below = current-lt;
        active = flag ∙ ground (arith, e);
        only_front = refl;
        low = omega (arith, ok.front_low);
        high = ground (arith, ok.front_low, e, space_left);
        position = inl refl;
      },
    )
    | inr e ↦ rw (select_space-eq b flag false e) (walk b flag)
  ]

  -- The search for a space ends without a fault: with NULL, or with a space that is selected.
  pub select_space-IsSelected :
      (select_space h size ≡ some none)
      ⊎ ((j : ℕ) × (h' : Heap) × (select_space h size ≡ some (some (j, h')))
          × IsSelected start h j h')
  select_space-IsSelected =
      let (b, flag) =
        get_elem?_total h.space_is_active current (omega (arith, current-lt, ok.flags_length)) in
      chosen b flag
