-- ===== src/Alloc/Struct.antt =====
-- `h_alloc_struct` as a whole: on a heap of the right shape it has no fault, and it gives NULL and
-- changes nothing but the front, or places an object with the header of its format string.
use garbagecollector.Base.{
  ℕ, ◌+◌, ◌*◌, ◌^◌, ◌≤◌, ◌<◌, ◌≡◌, ◌≢◌, refl, ap, sym, ◌⊎◌, inl, inr, ltb, leb, List, [], ◌∷◌,
  Option, none, some, All, if◌then◌else◌, arith, Bool-cases,
}
use mathlib.Core.Path.{subst}
use garbagecollector.FormatStr.{Outcome, null, fault, ok, create_format_str, format_str_bytes}
use garbagecollector.FormatStr.Items.{IsField}
use garbagecollector.FormatStr.Fields.{interpreted_format_str-fields}
use garbagecollector.BitVector.{to_bit_vector, required_bits}
use garbagecollector.BitVector.Encode.{vector-lt, bytes-lt, to_bit_vector-success}
use garbagecollector.Heap.{Heap, space_size_bytes, h_avail}
use garbagecollector.Heap.Shape.{IsHeap, get_elem?-spaces}
use garbagecollector.Alloc.{
  Run, ◌>>=◌, State, Allocation, header_size, select_space, still_fits, alloc_selected,
  alloc_expanded, alloc_nonempty, h_alloc_struct,
}
use garbagecollector.Alloc.Select.{IsSelected, select_space-IsSelected}
use garbagecollector.Alloc.Place.{IsPlaced, place_struct-IsPlaced}

-- NULL: the memory, the map and the counter are as before, and the heap keeps its shape.
pub record IsRefused (start : ℕ) (s : State) (a : Allocation) : Type 0 where
  pub pointer_eq : a.pointer ≡ none
  pub memory_eq : a.state.memory ≡ s.memory
  pub map_eq : a.state.heap.alloc_map ≡ s.heap.alloc_map
  pub used_eq : a.state.heap.used_bytes ≡ s.heap.used_bytes
  pub shape : IsHeap start a.state.heap

-- An object for the format string that `layout` expands to.
pub record IsAllocated (start : ℕ) (layout : Option (List ℕ)) (s : State) (a : Allocation)
    : Type 0 where
  pub format : List ℕ
  pub format_eq : create_format_str layout ≡ ok format
  pub address : ℕ
  pub pointer_eq : a.pointer ≡ some address
  pub object :
      IsPlaced start s (format_str_bytes format) (to_bit_vector format).bit_vector address a.state

module _ (start : ℕ) (s : State) (shape : IsHeap start s.heap) where
  refused : IsRefused start s (record { pointer = none; state = s })
  refused = record {
    pointer_eq = refl;
    memory_eq = refl;
    map_eq = refl;
    used_eq = refl;
    shape = shape;
  }

  moved-IsHeap : (j : ℕ) (h' : Heap) → IsSelected start s.heap j h' → IsHeap start h'
  moved-IsHeap j h' sel = subst (IsHeap start) (sym sel.only_front) (record {
    some_space = shape.some_space;
    space_list = shape.space_list;
    size_eq = shape.size_eq;
    flags_length = shape.flags_length;
    last_passive = shape.last_passive;
    map_length = shape.map_length;
    map_words = shape.map_words;
    front_low = omega (arith, sel.low);
    front_high = omega (arith, sel.high, sel.below, shape.size_eq);
  })

  still_fits-eq :
      (size j front : ℕ)
      → j < s.heap.number_of_spaces
      → start + j * space_size_bytes ≤ front
      → front + header_size ≤ start + j * space_size_bytes + space_size_bytes
      → still_fits (record s.heap { alloc_front = front }) size j
        ≡ some
            (leb (front + 2 * header_size + size) (start + j * space_size_bytes + space_size_bytes))
  unfolding still_fits
  still_fits-eq size j front below low high =
      rw (still_fits, get_elem?-spaces start s.heap shape j below) (ap some (ground arith))

  -- What the rest of the call comes to, for an object of `size` bytes and a header word.
  Ends : ℕ → ℕ → Run Allocation → Type 0
  Ends size bit_vec run =
      (a : Allocation) × (run ≡ some a)
      × (IsRefused start s a
          ⊎ ((p : ℕ) × (a.pointer ≡ some p) × IsPlaced start s size bit_vec p a.state))

  module _ (size bit_vec : ℕ) (small : bit_vec < 2 ^ 64) (size-lt : size < 256) where
    -- At a space that is selected: NULL exactly if the object and both words do not fit behind the front.
    pub alloc_at :
        (j front : ℕ)
        → IsSelected start s.heap j (record s.heap { alloc_front = front })
        → (a : Allocation) × (alloc_selected s size bit_vec
              (some (j, record s.heap { alloc_front = front }))
            ≡ some a)
          × (a.pointer ≡ (
              if leb
                (front + 2 * header_size + size)
                (start + j * space_size_bytes + space_size_bytes)
              then some (front + header_size)
              else none))
          × (IsRefused start s a
              ⊎ ((p : ℕ) × (a.pointer ≡ some p) × IsPlaced start s size bit_vec p a.state))
    unfolding alloc_selected
    alloc_at j front sel =
        let h' = record s.heap { alloc_front = front } in
        let test = still_fits-eq size j front sel.below sel.low sel.high in
        elim (Bool-cases (
          leb (front + 2 * header_size + size) (start + j * space_size_bytes + space_size_bytes))) [
            | inl e ↦
                let high : front + 2 * header_size + size
                    ≤ start + j * space_size_bytes + space_size_bytes =
                  ground (arith, e) in
                let position : (s.heap.alloc_front ≡ front)
                    ⊎ (front ≡ start + j * space_size_bytes) =
                  ground (arith, sel.position) in
                let (s', done, p) =
                  place_struct-IsPlaced start s shape j front size bit_vec small size-lt sel.below
                    sel.active sel.low high position in
                (
                  record { pointer = some (front + header_size); state = s' },
                  rw (alloc_selected, test, e) done,
                  rw e refl,
                  inr (front + header_size, refl, p),
                )
            | inr e ↦ (
              record { pointer = none; state = record s { heap = h' } },
              rw (alloc_selected, test, e) refl,
              rw e refl,
              inl (record {
                pointer_eq = refl;
                memory_eq = refl;
                map_eq = refl;
                used_eq = refl;
                shape = moved-IsHeap j h' sel;
              }),
            )
          ]

    Ends-at :
        (j front : ℕ)
        → IsSelected start s.heap j (record s.heap { alloc_front = front })
        → Ends size bit_vec
            (alloc_selected s size bit_vec (some (j, record s.heap { alloc_front = front })))
    unfolding Ends
    Ends-at j front sel = let (a, done, _, end) = alloc_at j front sel in (a, done, end)

    alloc_in_space : Ends size bit_vec (select_space s.heap size >>= alloc_selected s size bit_vec)
    unfolding alloc_selected Ends
    alloc_in_space = elim (select_space-IsSelected start s.heap shape size) [
      | inl e ↦ (record { pointer = none; state = s }, rw e refl, inl refused)
      | inr (j, h', e, sel) ↦ rw e (
          subst (λ (g : Heap). Ends size bit_vec (alloc_selected s size bit_vec (some (j, g))))
            (sym sel.only_front)
            (Ends-at j h'.alloc_front (subst (IsSelected start s.heap j) sel.only_front sel)))
    ]

  by_layout :
      (layout : List ℕ) (size bit_vec : ℕ)
      → Ends size bit_vec (select_space s.heap size >>= alloc_selected s size bit_vec)
      → Ends size bit_vec (alloc_nonempty layout s size bit_vec)
  unfolding alloc_nonempty Ends
  by_layout [] size bit_vec rest = (record { pointer = none; state = s }, refl, inl refused)
  by_layout (_ ∷ _) size bit_vec rest = rest

  alloc_format :
      (layout format : List ℕ)
      → All IsField format
      → Ends
          (format_str_bytes format)
          (to_bit_vector format).bit_vector
          (alloc_expanded layout format s)
  unfolding alloc_expanded Ends
  alloc_format layout format fields = elim (Bool-cases (leb (required_bits format) 54)) [
    | inr e ↦ (
      record { pointer = none; state = s },
      rw (alloc_expanded, to_bit_vector-success format, e) refl,
      inl refused,
    )
    | inl e ↦
        let fits : required_bits format ≤ 54 = ground (arith, e) in
        let size = format_str_bytes format in
        let rest =
          alloc_in_space size (to_bit_vector format).bit_vector (vector-lt format fields fits)
            (omega (arith, bytes-lt format fields fits)) in
        elim (Bool-cases (ltb (h_avail s.heap) (size + header_size))) [
          | inl e₁ ↦ (
            record { pointer = none; state = s },
            rw (alloc_expanded, to_bit_vector-success format, e, e₁) refl,
            inl refused,
          )
          | inr e₁ ↦ elim (Bool-cases (ltb space_size_bytes (header_size + size))) [
            | inl e₂ ↦ (
              record { pointer = none; state = s },
              rw (alloc_expanded, to_bit_vector-success format, e, e₁, e₂) refl,
              inl refused,
            )
            | inr e₂ ↦
                rw (alloc_expanded, to_bit_vector-success format, e, e₁, e₂)
                  (by_layout layout (format_str_bytes format) (to_bit_vector format).bit_vector
                    rest)
          ]
        ]
  ]

  for_format :
      (layout : List ℕ) (o : Outcome)
      → create_format_str (some layout) ≡ o
      → o ≢ fault
      → (a : Allocation) × (h_alloc_struct (some layout) s ≡ some a)
        × (IsRefused start s a ⊎ IsAllocated start (some layout) s a)
  unfolding h_alloc_struct create_format_str Ends
  for_format layout null e safe =
      (record { pointer = none; state = s }, rw (h_alloc_struct, e) refl, inl refused)
  for_format layout fault e safe = absurd (safe refl)
  for_format layout (ok format) e safe =
      let (a, done, end) =
        alloc_format layout format (interpreted_format_str-fields layout format e) in
      (
        a,
        rw (h_alloc_struct, e) done,
        elim end [
          | inl r ↦ inl r
          | inr (p, q, placed) ↦ inr (record {
            format = format;
            format_eq = e;
            address = p;
            pointer_eq = q;
            object = placed;
          })
        ],
      )

  -- On a heap of the right shape, with a format string that `create_format_str` expands or
  -- refuses, `h_alloc_struct` has no fault: it gives NULL and keeps the memory, the map, the
  -- counter and the shape, or it places the object that the string describes.
  pub h_alloc_struct_lem :
      (layout : Option (List ℕ))
      → create_format_str layout ≢ fault
      → (a : Allocation) × (h_alloc_struct layout s ≡ some a)
        × (IsRefused start s a ⊎ IsAllocated start layout s a)
  unfolding h_alloc_struct
  h_alloc_struct_lem none safe = (record { pointer = none; state = s }, refl, inl refused)
  h_alloc_struct_lem (some layout) safe =
      for_format layout (create_format_str (some layout)) refl safe
