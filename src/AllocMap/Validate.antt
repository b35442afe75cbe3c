-- ===== src/AllocMap/Validate.antt =====
-- `validate_ptr` on a heap of the right shape.
use garbagecollector.Base.{
  ℕ, ◌+◌, ◌-◌, ◌*◌, ◌/◌, ◌%◌, ◌<◌, ◌≡◌, ◌≢◌, refl, true, false, ◌&&◌, ◌||◌, ltb, leb, none, some,
  get_elem?, get_elem?_total, get_elem?-above, length, All-get_elem?, arith, inl, inr, Bool-cases,
}
use garbagecollector.Word.{IsWord}
use garbagecollector.BitManip.Select.{is_nonzero-get_bit_at_index_from_msb}
use garbagecollector.Heap.{Heap, space_size_bytes}
use garbagecollector.Heap.Shape.{IsHeap, get_elem?-spaces, get_elem?-spaces_zero}
use garbagecollector.AllocMap.{validate_ptr}
use garbagecollector.AllocMap.Laws.{marked}

module _ (start : ℕ) (h : Heap) (ok : IsHeap start h) (ptr : ℕ) where
  last_space :
      get_elem? h.spaces (h.number_of_spaces - 1)
      ≡ some (start + (h.number_of_spaces - 1) * space_size_bytes)
  last_space = get_elem?-spaces start h ok (h.number_of_spaces - 1) (omega (arith, ok.some_space))

  -- On a heap of the right shape, `validate_ptr` accepts an address other than the end of the heap
  -- exactly if it lies in the heap and its bit of the map is set.
  pub validate_ptr-eq :
      ptr ≢ start + h.size
      → validate_ptr h ptr
        ≡ some
            (leb start ptr && ltb ptr (start + h.size) && marked h.alloc_map ((ptr - start) / 16))
  unfolding validate_ptr marked
  validate_ptr-eq inside = elim (Bool-cases (leb start ptr && ltb ptr (start + h.size))) [
    | inl e ↦
        let lt : (ptr - start) / 16 / 64 < length h.alloc_map =
          ground (arith, ok.map_length, ok.size_eq) in
        let (w, found) = get_elem?_total h.alloc_map ((ptr - start) / 16 / 64) lt in
        let bit =
          is_nonzero-get_bit_at_index_from_msb w ((ptr - start) / 16 % 64)
            (All-get_elem? IsWord h.alloc_map ((ptr - start) / 16 / 64) w ok.map_words found)
            (omega arith) in
        let low : ltb ptr start ≡ false = ground arith in
        let high : ltb (start + (h.number_of_spaces - 1) * space_size_bytes + space_size_bytes) ptr
            ≡ false =
          ground (arith, ok.size_eq, ok.some_space) in
        rw
          (
            validate_ptr,
            get_elem?-spaces_zero start h ok,
            last_space,
            low,
            high,
            found,
            marked,
            bit,
            e,
          )
          refl
    | inr e ↦
        let outside : (ltb ptr start
              || ltb (start + (h.number_of_spaces - 1) * space_size_bytes + space_size_bytes) ptr)
            ≡ true =
          ground (arith, ok.size_eq, ok.some_space, inside) in
        rw (validate_ptr, get_elem?-spaces_zero start h ok, last_space, outside, e) refl
  ]

  -- On a heap of the right shape, `validate_ptr` of the end of the heap reads behind the map.
  pub validate_ptr_end : ptr ≡ start + h.size → validate_ptr h ptr ≡ none
  unfolding validate_ptr
  validate_ptr_end end =
      let low : ltb ptr start ≡ false = ground (arith, end) in
      let high : ltb (start + (h.number_of_spaces - 1) * space_size_bytes + space_size_bytes) ptr
          ≡ false =
        ground (arith, ok.size_eq, ok.some_space, end) in
      let behind =
        get_elem?-above h.alloc_map ((ptr - start) / 16 / 64)
          (omega (arith, ok.map_length, ok.size_eq, end)) in
      rw (validate_ptr, get_elem?-spaces_zero start h ok, last_space, low, high, behind) refl
