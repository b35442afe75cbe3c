-- ===== src/Alloc/Raw.antt =====
-- `h_alloc_raw`.
use garbagecollector.Base.{
  ℕ, ◌+◌, ◌-◌, ◌*◌, ◌/◌, ◌%◌, ◌^◌, ◌≤◌, ◌<◌, ◌≡◌, refl, ap, ◌∙◌, ◌⊎◌, inl, inr, true, false, ltb,
  leb, List, Option, some, Bool-cases, arith,
}
use mathlib.Core.Path.{subst}
use garbagecollector.Memory.{Memory, load64}
use garbagecollector.Word.{IsWord}
use garbagecollector.RawLayout.{create_raw_header}
use garbagecollector.RawLayout.Laws.{create_raw_header-eq-add}
use garbagecollector.Footer.{create_footer}
use garbagecollector.Heap.{h_avail}
use garbagecollector.Heap.Shape.{IsHeap, get_elem?-spaces_zero}
use garbagecollector.AllocMap.{set_alloc_map, validate_ptr}
use garbagecollector.AllocMap.Laws.{Marks, mark_range-Marks}
use garbagecollector.AllocMap.Validate.{validate_ptr-eq}
use garbagecollector.Memory.{store64, load64-store64, load64-store64_outside, store64_outside}
use garbagecollector.Footer.Laws.{create_footer-lt}
use garbagecollector.Alloc.{Run, ◌>>=◌, State, Allocation, header_size, h_alloc_raw}

-- `s'` is `s` with raw data of `bytes` bytes behind the front, its header before and its footer behind
-- it, and the memory changed in these two words only.
pub record IsRaw (start : ℕ) (s : State) (bytes : ℕ) (s' : State) : Type 0 where
  pub header : load64 s.heap.alloc_front s'.memory ≡ create_raw_header bytes
  pub footer :
      load64 (s.heap.alloc_front + header_size + bytes) s'.memory ≡ create_footer (bytes % 256)
  pub frame :
      (a : ℕ)
      → (s'.memory a ≡ s.memory a)
        ⊎ (((s.heap.alloc_front ≤ a) × (a < s.heap.alloc_front + header_size))
            ⊎ ((s.heap.alloc_front + header_size + bytes ≤ a)
                × (a < s.heap.alloc_front + header_size + bytes + header_size)))
  pub front_eq : s'.heap.alloc_front ≡ s.heap.alloc_front + header_size + bytes + header_size
  pub used_eq :
      s'.heap.used_bytes ≡ s.heap.used_bytes + (header_size * 2 + bytes) + (header_size + bytes)
  pub same_flags : s'.heap.space_is_active ≡ s.heap.space_is_active
  pub shape : IsHeap start s'.heap
  pub marks :
      Marks s.heap.alloc_map
        ((s.heap.alloc_front - start) / 16)
        ((s.heap.alloc_front + header_size + bytes + header_size - start) / 16)
        s'.heap.alloc_map
  pub recorded :
      (bytes < header_size) ⊎ (validate_ptr s'.heap (s.heap.alloc_front + header_size) ≡ some true)

module _ (start : ℕ) (s : State) (bytes : ℕ) (ok : IsHeap start s.heap)
    (room : s.heap.alloc_front + header_size + bytes + header_size < start + s.heap.size) where
  pointer : ℕ
  pointer = s.heap.alloc_front + header_size

  first : ℕ
  first = (s.heap.alloc_front - start) / 16

  stop : ℕ
  stop = (pointer + bytes + header_size - start) / 16

  memory_after : Memory
  memory_after =
      store64 (pointer + bytes) (create_footer (bytes % 256))
        (store64 s.heap.alloc_front (create_raw_header bytes) s.memory)

  after : List ℕ → State
  after map = record {
    heap = record s.heap {
      alloc_front = pointer + bytes + header_size;
      alloc_map = map;
      used_bytes = s.heap.used_bytes + (header_size * 2 + bytes) + (header_size + bytes);
    };
    memory = memory_after;
  }

  finish : List ℕ → Run Allocation
  finish map = some (record { pointer = some pointer; state = after map })

  set_alloc_map-Marks :
      (map : List ℕ) × (set_alloc_map start s.heap.alloc_front
          (pointer + bytes + header_size)
          s.heap.alloc_map
        ≡ some map)
      × Marks s.heap.alloc_map first stop map
  unfolding set_alloc_map pointer first stop
  set_alloc_map-Marks =
      let (map, e, p) =
        mark_range-Marks s.heap.alloc_map first (stop - first) ok.map_words
          (omega (arith, ok.map_length, ok.size_eq, ok.front_low, room)) in
      (map, e, subst (λ (t : ℕ). Marks s.heap.alloc_map first t map) (omega arith) p)

  after-IsHeap :
      (map : List ℕ) → Marks s.heap.alloc_map first stop map → IsHeap start (after map).heap
  unfolding after pointer
  after-IsHeap map marks = record {
    some_space = ok.some_space;
    space_list = ok.space_list;
    size_eq = ok.size_eq;
    flags_length = ok.flags_length;
    last_passive = ok.last_passive;
    map_length = marks.same_length ∙ ok.map_length;
    map_words = marks.words;
    front_low = omega (arith, ok.front_low);
    front_high = room;
  }

  after_valid :
      (map : List ℕ)
      → Marks s.heap.alloc_map first stop map
      → (bytes < header_size) ⊎ (validate_ptr (after map).heap pointer ≡ some true)
  unfolding after pointer first stop
  after_valid map marks = elim (Bool-cases (leb header_size bytes)) [
    | inr e ↦ inl (ground (arith, e))
    | inl e ↦ inr (
        validate_ptr-eq start (after map).heap (after-IsHeap map marks) pointer
          (λ q. omega (arith, room))
        ∙ ap some (ground (arith, e, room, ok.front_low, marks.bits ((pointer - start) / 16))))
  ]

  after-IsRaw :
      bytes < 2 ^ 62
      → (map : List ℕ) → Marks s.heap.alloc_map first stop map
      → IsRaw start s bytes (after map)
  unfolding after pointer first stop memory_after
  after-IsRaw few map marks =
      let word = create_raw_header bytes in
      let foot = create_footer (bytes % 256) in
      let before = store64 s.heap.alloc_front word s.memory in
      let word-IsWord : IsWord word = omega (arith, create_raw_header-eq-add bytes few) in
      record {
        header =
            load64-store64_outside (pointer + bytes) foot before s.heap.alloc_front
              (inl (omega arith))
            ∙ load64-store64 s.heap.alloc_front word s.memory word-IsWord;
        footer =
            load64-store64 (pointer + bytes) foot before
              (create_footer-lt (bytes % 256) (omega arith));
        frame = λ a. ground (
          arith,
          store64_outside (pointer + bytes) foot before a,
          store64_outside s.heap.alloc_front word s.memory a,
        );
        front_eq = refl;
        used_eq = refl;
        same_flags = refl;
        shape = after-IsHeap map marks;
        marks = marks;
        recorded = after_valid map marks;
      }

-- On a heap of the right shape, with at least one byte, less than 2 ^ 62 bytes, enough unused
-- bytes, and room before the end of the heap for the data and both words, `h_alloc_raw` places the
-- data behind the front with its header and its footer, changes the memory in these two words only,
-- moves the front behind the footer, adds to `used_bytes` the data with both words and once more
-- the data with one word (88 for 32 bytes), marks the bits from the old front to the new one, keeps
-- the active spaces and the shape, and leaves data of 8 bytes or more that `validate_ptr` accepts.
pub h_alloc_raw-IsRaw :
    (start : ℕ) (s : State) (bytes : ℕ)
    → IsHeap start s.heap
    → 0 < bytes
    → bytes < 2 ^ 62
    → bytes ≤ h_avail s.heap
    → s.heap.alloc_front + header_size + bytes + header_size < start + s.heap.size
    → (s' : State) × (h_alloc_raw bytes s
        ≡ some (record { pointer = some (s.heap.alloc_front + header_size); state = s' }))
      × IsRaw start s bytes s'
unfolding h_alloc_raw after pointer finish memory_after
h_alloc_raw-IsRaw start s bytes ok some_bytes few avail room =
    let (map, e, marks) = set_alloc_map-Marks start s bytes ok room in
    let e₁ : ltb (h_avail s.heap) bytes ≡ false = ground (arith, avail) in
    let e₂ : leb bytes 0 ≡ false = ground (arith, some_bytes) in
    (
      after start s bytes ok room map,
      rw (h_alloc_raw, e₁, e₂, get_elem?-spaces_zero start s.heap ok)
          (ap (λ (o : Option (List ℕ)). o >>= finish start s bytes ok room) e),
      after-IsRaw start s bytes ok room few map marks,
    )
