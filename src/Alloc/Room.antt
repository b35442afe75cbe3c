-- ===== src/Alloc/Room.antt =====
-- The pointer that `h_alloc_struct` gives when the front is in an active space.
use garbagecollector.Base.{
  ℕ, zero, suc, ◌+◌, ◌-◌, ◌*◌, ◌/◌, ◌^◌, ◌≤◌, ◌<◌, ◌≡◌, refl, ap, ◌∙◌, ◌⊎◌, inl, inr, Bool, true,
  false, ltb, leb, List, ◌∷◌, Option, none, some, if◌then◌else◌, arith, Bool-cases, get_elem?,
}
use garbagecollector.FormatStr.{ok, create_format_str, format_str_bytes}
use garbagecollector.FormatStr.Fields.{interpreted_format_str-fields}
use garbagecollector.BitVector.{to_bit_vector, required_bits}
use garbagecollector.BitVector.Encode.{vector-lt, bytes-lt, to_bit_vector-success}
use garbagecollector.Heap.{Heap, space_size_bytes, h_avail}
use garbagecollector.Heap.Shape.{IsHeap, get_elem?-spaces}
use garbagecollector.Alloc.{
  Run, ◌>>=◌, State, Allocation, header_size, next_active, move_to, select_space, alloc_selected,
  alloc_nonempty, alloc_expanded, h_alloc_struct,
}
use garbagecollector.Alloc.Select.{current, current-lt, space_left, stay_or_walk, select_space-eq}
use garbagecollector.Alloc.Struct.{alloc_at}

-- The address of the space that the front is in.
unfoldable pub space_of : ℕ → ℕ → ℕ
space_of start front = start + (front - start) / space_size_bytes * space_size_bytes

-- Behind the front if the object and both words fit there; NULL if only the second word does not; and
-- otherwise the start of the same space.
unfoldable pub pointer_for : ℕ → ℕ → ℕ → Option ℕ
pointer_for start front size =
    let space = space_of start front in
    if leb (front + 2 * header_size + size) (space + space_size_bytes)
    then some (front + header_size)
    else if leb (front + header_size + size) (space + space_size_bytes)
    then none
    else some (space + header_size)

next_active-true :
    (flags : List Bool) (n fuel i : ℕ) → next_active flags n fuel i true ≡ some (some i)
unfolding next_active
next_active-true flags n zero i = refl
next_active-true flags n (suc fuel) i = refl

module _ (start : ℕ) (s : State) (shape : IsHeap start s.heap) (size bit_vec : ℕ)
    (small : bit_vec < 2 ^ 64) (size-lt : size < 256)
    (active : get_elem? s.heap.space_is_active (current start s.heap shape size) ≡ some true) where
  here : ℕ
  here = current start s.heap shape size

  walk_back :
      stay_or_walk start s.heap shape size true false
      ≡ some (some (here, record s.heap { alloc_front = start + here * space_size_bytes }))
  unfolding stay_or_walk move_to here
  walk_back =
      rw
        (
          stay_or_walk,
          next_active-true s.heap.space_is_active s.heap.number_of_spaces s.heap.number_of_spaces
              here,
          move_to,
          get_elem?-spaces start s.heap shape here (current-lt start s.heap shape size),
        )
        refl

  Gives : Run Allocation → Option ℕ → Type 0
  Gives run pointer = (a : Allocation) × (run ≡ some a) × (a.pointer ≡ pointer)

  Gives-at :
      (front : ℕ)
      → start + here * space_size_bytes ≤ front
      → front + header_size ≤ start + here * space_size_bytes + space_size_bytes
      → (s.heap.alloc_front ≡ front) ⊎ (front ≡ start + here * space_size_bytes)
      → Gives (alloc_selected s size bit_vec (some (here, record s.heap { alloc_front = front }))) (
          if leb
            (front + 2 * header_size + size)
            (start + here * space_size_bytes + space_size_bytes)
          then some (front + header_size)
          else none)
  unfolding here Gives
  Gives-at front low high position =
      let (a, done, e, _) = alloc_at start s shape size bit_vec small size-lt here front (record {
        below = current-lt start s.heap shape size;
        active = active;
        only_front = refl;
        low = low;
        high = high;
        position = ground (arith, position);
      }) in
      (a, done, e)

  Gives-selected :
      Gives
        (select_space s.heap size >>= alloc_selected s size bit_vec)
        (pointer_for start s.heap.alloc_front size)
  unfolding Gives pointer_for space_of here current space_left stay_or_walk
  Gives-selected =
      let base = start + here * space_size_bytes in
      elim (Bool-cases (leb (size + header_size) (space_left start s.heap shape size))) [
        | inl e ↦
            let (a, done, p) =
              Gives-at s.heap.alloc_front (omega (arith, shape.front_low))
                (ground (arith, e, shape.front_low)) (inl refl) in
            (
              a,
              rw (select_space-eq start s.heap shape size true active true e, stay_or_walk) done,
              p ∙ ground (arith, e, shape.front_low),
            )
        | inr e ↦
            let (a, done, p) = Gives-at base (omega arith) (omega arith) (inr refl) in
            (
              a,
              rw (select_space-eq start s.heap shape size true active false e) (
                  ap (λ (o : Run (Option (ℕ × Heap))). o >>= alloc_selected s size bit_vec)
                    walk_back
                  ∙ done),
              p ∙ ground (arith, e, shape.front_low, size-lt),
            )
      ]

-- On a heap of the right shape whose front is in an active space, with a non-empty format string
-- that expands to fields that need at most 54 layout bits, and with the bytes of the object and
-- one word unused, `h_alloc_struct` gives the pointer behind the front if object, header and
-- footer fit into the rest of the space. It gives NULL if all but the footer fits, and otherwise
-- it goes back to the start of the same space, whatever stands there.
pub h_alloc_struct-pointer :
    (start : ℕ) (s : State) (c : ℕ) (layout format : List ℕ)
    → IsHeap start s.heap
    → get_elem? s.heap.space_is_active ((s.heap.alloc_front - start) / space_size_bytes) ≡ some true
    → create_format_str (some (c ∷ layout)) ≡ ok format
    → required_bits format ≤ 54
    → format_str_bytes format + header_size ≤ h_avail s.heap
    → (a : Allocation) × (h_alloc_struct (some (c ∷ layout)) s ≡ some a)
      × (a.pointer ≡ pointer_for start s.heap.alloc_front (format_str_bytes format))
unfolding h_alloc_struct alloc_expanded alloc_nonempty create_format_str Gives current
h_alloc_struct-pointer start s c layout format shape active e fits avail =
    let fields = interpreted_format_str-fields (c ∷ layout) format e in
    let short : format_str_bytes format ≤ 216 = bytes-lt format fields fits in
    let e₁ : leb (required_bits format) 54 ≡ true = ground (arith, fits) in
    let e₂ : ltb (h_avail s.heap) (format_str_bytes format + header_size) ≡ false =
      ground (arith, avail) in
    let e₃ : ltb space_size_bytes (header_size + format_str_bytes format) ≡ false =
      ground (arith, short) in
    let (a, done, p) =
      Gives-selected start s shape (format_str_bytes format) (to_bit_vector format).bit_vector
        (vector-lt format fields fits) (omega (arith, short)) active in
    (
      a,
      rw
          (
            h_alloc_struct,
            e,
            alloc_expanded,
            to_bit_vector-success format,
            e₁,
            e₂,
            e₃,
            alloc_nonempty,
          )
          done,
      p,
    )
