-- ===== src/Alloc/Place.antt =====
-- What `h_alloc_struct` writes once it has a space: the object, the map and the counters.
use garbagecollector.Base.{
  ℕ, ◌+◌, ◌-◌, ◌*◌, ◌/◌, ◌^◌, ◌≤◌, ◌<◌, ◌≡◌, refl, ap, sym, ◌∙◌, ◌⊎◌, inl, inr, true, false, leb,
  List, Option, some, get_elem?, length, All, arith, Bool-cases, ◌==◌, ==_iff,
}
use garbagecollector.Memory.{load64}
use garbagecollector.Word.{IsWord}
use garbagecollector.Footer.{create_footer}
use garbagecollector.Heap.{space_size_bytes}
use garbagecollector.Heap.Shape.{IsHeap, get_elem?-spaces, get_elem?-spaces_zero}
use garbagecollector.AllocMap.{set_alloc_map, mark_object, validate_ptr}
use garbagecollector.AllocMap.Laws.{marked}
use garbagecollector.AllocMap.Validate.{validate_ptr-eq}
use garbagecollector.Alloc.Write.{
  around, object_bit, object_count, word_of, bit_of, header_around, footer_around, frame_around,
  maps,
}
use garbagecollector.Alloc.{Run, ◌>>=◌, State, Allocation, header_size, place_struct}

-- `s'` is `s` with an object of `size` bytes at `p`: it lies in one active space, between its header
-- and its footer, and the memory is changed in these two words only. It stands at the old front or at
-- the start of a space. An object of 8 bytes or more is a valid pointer afterwards.
pub record IsPlaced (start : ℕ) (s : State) (size bit_vec p : ℕ) (s' : State) : Type 0 where
  pub space : ℕ
  pub active : get_elem? s.heap.space_is_active space ≡ some true
  pub inside_low : start + space * space_size_bytes + header_size ≤ p
  pub inside_high : p + size + header_size ≤ start + space * space_size_bytes + space_size_bytes
  pub position :
      (p ≡ s.heap.alloc_front + header_size) ⊎ (p ≡ start + space * space_size_bytes + header_size)
  pub header : load64 (p - header_size) s'.memory ≡ bit_vec
  pub footer : load64 (p + size) s'.memory ≡ create_footer size
  pub frame :
      (a : ℕ)
      → (s'.memory a ≡ s.memory a)
        ⊎ (((p ≤ a + header_size) × (a < p)) ⊎ ((p + size ≤ a) × (a < p + size + header_size)))
  pub front_eq : s'.heap.alloc_front ≡ p + size + header_size
  pub used_eq :
      s'.heap.used_bytes ≡ s.heap.used_bytes + (size + header_size * 2) + (size + header_size)
  pub shape : IsHeap start s'.heap
  pub same_flags : s'.heap.space_is_active ≡ s.heap.space_is_active
  pub recorded : (size < header_size) ⊎ (validate_ptr s'.heap p ≡ some true)

module _ (start : ℕ) (s : State) (ok : IsHeap start s.heap) (j front size bit_vec : ℕ)
    (small : bit_vec < 2 ^ 64) (size-lt : size < 256) (below : j < s.heap.number_of_spaces)
    (active : get_elem? s.heap.space_is_active j ≡ some true)
    (low : start + j * space_size_bytes ≤ front)
    (high : front + 2 * header_size + size ≤ start + j * space_size_bytes + space_size_bytes)
    (position : (s.heap.alloc_front ≡ front) ⊎ (front ≡ start + j * space_size_bytes)) where
  placed : List ℕ → State
  placed map = record {
    heap = record s.heap {
      alloc_front = front + header_size + size + header_size;
      alloc_map = map;
      used_bytes = s.heap.used_bytes + (size + header_size * 2) + (size + header_size);
    };
    memory = around s.memory front size bit_vec small size-lt;
  }

  finish : List ℕ → Run Allocation
  finish map = some (record { pointer = some (front + header_size); state = placed map })

  mark_rest : List ℕ → Run Allocation
  mark_rest map =
      mark_object (word_of start s.heap ok j front size below low high)
        (bit_of start s.heap ok j front size below low high)
        (object_count start s.heap ok j front size below low high) map
      >>= finish

  place_struct-eq :
      place_struct s.memory
        (record s.heap { alloc_front = front })
        s.heap.alloc_front
        j
        size
        bit_vec
      ≡ (set_alloc_map start s.heap.alloc_front
            (front + header_size + size + header_size)
            s.heap.alloc_map
          >>= mark_rest)
  unfolding place_struct mark_rest finish placed word_of bit_of object_count object_bit around
  place_struct-eq =
      rw
        (
          place_struct,
          get_elem?-spaces start s.heap ok j below,
          get_elem?-spaces_zero start s.heap ok,
        )
        refl

  last : j < s.heap.number_of_spaces - 1
  last = elim (Bool-cases (j == s.heap.number_of_spaces - 1)) [
    | inl e ↦
        let same : j ≡ s.heap.number_of_spaces - 1 = (==_iff _ _).0 e in
        let clash : some true ≡ some false =
          sym active ∙ ap (get_elem? s.heap.space_is_active) same ∙ ok.last_passive in
        ground (arith, clash)
    | inr e ↦ ground (arith, below)
  ]

  placed-IsHeap :
      (map : List ℕ)
      → length map ≡ length s.heap.alloc_map
      → All IsWord map
      → IsHeap start (placed map).heap
  unfolding placed
  placed-IsHeap map len words = record {
    some_space = ok.some_space;
    space_list = ok.space_list;
    size_eq = ok.size_eq;
    flags_length = ok.flags_length;
    last_passive = ok.last_passive;
    map_length = len ∙ ok.map_length;
    map_words = words;
    front_low = omega (arith, low);
    front_high = omega (arith, high, last, ok.size_eq);
  }

  placed-valid :
      (map : List ℕ)
      → IsHeap start (placed map).heap
      → marked map ((front + header_size - start) / 16) ≡ true
      → validate_ptr (placed map).heap (front + header_size) ≡ some true
  unfolding placed
  placed-valid map shape bit =
      let p = front + header_size in
      let inside : p < start + s.heap.size = omega (arith, high, below, ok.size_eq) in
      validate_ptr-eq start (placed map).heap shape p (λ e. omega (arith, inside))
      ∙ ap some (ground (arith, bit, inside, low))

  -- The object is placed without a fault.
  pub place_struct-IsPlaced :
      (s' : State) × (place_struct s.memory
          (record s.heap { alloc_front = front })
          s.heap.alloc_front
          j
          size
          bit_vec
        ≡ some (record { pointer = some (front + header_size); state = s' }))
      × IsPlaced start s size bit_vec (front + header_size) s'
  unfolding placed mark_rest finish
  place_struct-IsPlaced =
      let (map, map', e, e', len, words, bit) = maps start s.heap ok j front size below low high in
      let shape = placed-IsHeap map' len words in
      (
        placed map',
        place_struct-eq
            ∙ ap (λ (o : Option (List ℕ)). o >>= mark_rest) e
            ∙ ap (λ (o : Option (List ℕ)). o >>= finish) e',
        record {
          space = j;
          active = active;
          inside_low = omega (arith, low);
          inside_high = omega (arith, high);
          position = ground (arith, position);
          header =
              ap (λ (t : ℕ). load64 t (placed map').memory) (omega arith)
              ∙ header_around s.memory front size bit_vec small size-lt;
          footer = footer_around s.memory front size bit_vec small size-lt;
          frame = λ a. ground (arith, frame_around s.memory front size bit_vec small size-lt a);
          front_eq = refl;
          used_eq = refl;
          shape = shape;
          same_flags = refl;
          recorded = elim (Bool-cases (leb header_size size)) [
            | inl large ↦ inr (placed-valid map' shape (bit position (ground (arith, large))))
            | inr few ↦ inl (ground (arith, few))
          ];
        },
      )
