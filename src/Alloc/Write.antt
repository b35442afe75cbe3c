-- ===== src/Alloc/Write.antt =====
-- The words that `h_alloc_struct` writes around an object, and the map after both of its loops.
use garbagecollector.Base.{
  ℕ, ◌+◌, ◌-◌, ◌*◌, ◌/◌, ◌%◌, ◌^◌, ◌≤◌, ◌<◌, max, ◌≡◌, ap, ◌∙◌, ◌⊎◌, inl, true, ltb, List, some,
  length, All, if◌then◌else◌, arith,
}
use mathlib.Core.Path.{subst}
use garbagecollector.Memory.{
  Memory, store64, load64, load64-store64, load64-store64_outside, store64_outside,
}
use garbagecollector.Word.{IsWord}
use garbagecollector.Footer.{create_footer}
use garbagecollector.Footer.Laws.{create_footer-lt}
use garbagecollector.Heap.{Heap, space_size_bytes}
use garbagecollector.Heap.Shape.{IsHeap}
use garbagecollector.AllocMap.{set_alloc_map, mark_object}
use garbagecollector.AllocMap.Laws.{marked, Marks, mark_range-Marks, mark_object-Marks}
use garbagecollector.Alloc.{header_size, min_obj_size}

-- The words around an object, and what they leave alone.
module _ (memory : Memory) (front size bit_vec : ℕ) (small : bit_vec < 2 ^ 64)
    (size-lt : size < 256) where
  unfoldable pub around : Memory
  around =
      store64 (front + header_size + size) (create_footer (size % 256))
        (store64 front bit_vec memory)

  footer_mod : create_footer (size % 256) ≡ create_footer size
  footer_mod = let e : size % 256 ≡ size = omega arith in ap create_footer e

  pub header_around : load64 front around ≡ bit_vec
  unfolding around
  header_around =
      load64-store64_outside (front + header_size + size) (create_footer (size % 256))
        (store64 front bit_vec memory) front (inl (omega arith))
      ∙ load64-store64 front bit_vec memory small

  pub footer_around : load64 (front + header_size + size) around ≡ create_footer size
  unfolding around
  footer_around =
      load64-store64 (front + header_size + size) (create_footer (size % 256))
        (store64 front bit_vec memory) (create_footer-lt (size % 256) (omega arith))
      ∙ footer_mod

  pub frame_around :
      (a : ℕ)
      → (around a ≡ memory a)
        ⊎ (((front ≤ a) × (a < front + header_size))
            ⊎ ((front + header_size + size ≤ a) × (a < front + header_size + size + header_size)))
  unfolding around
  frame_around a = ground (
    arith,
    store64_outside (front + header_size + size) (create_footer (size % 256))
        (store64 front bit_vec memory) a,
    store64_outside front bit_vec memory a,
  )

-- The map of the new heap.
module _ (start : ℕ) (h : Heap) (ok : IsHeap start h) (j front size : ℕ)
    (below : j < h.number_of_spaces) (low : start + j * space_size_bytes ≤ front)
    (high : front + 2 * header_size + size ≤ start + j * space_size_bytes + space_size_bytes) where
  unfoldable pub first_bit : ℕ
  first_bit = (h.alloc_front - start) / 16

  set_alloc_map-Marks :
      (map : List ℕ) × (set_alloc_map start h.alloc_front
          (front + header_size + size + header_size)
          h.alloc_map
        ≡ some map)
      × Marks h.alloc_map first_bit
          (max first_bit ((front + header_size + size + header_size - start) / 16))
          map
  unfolding set_alloc_map first_bit
  set_alloc_map-Marks =
      let stop = (front + header_size + size + header_size - start) / 16 in
      let (map, e, p) =
        mark_range-Marks h.alloc_map first_bit (stop - first_bit) ok.map_words
          (omega (arith, ok.map_length, ok.size_eq, ok.front_high, ok.front_low)) in
      (map, e, subst (λ (t : ℕ). Marks h.alloc_map first_bit t map) (omega arith) p)

  unfoldable pub object_bit : ℕ
  object_bit = (front + header_size - 1 - (start + j * space_size_bytes)) / min_obj_size

  unfoldable pub object_count : ℕ
  object_count = (size + header_size + 15) / min_obj_size

  unfoldable pub word_of : ℕ
  word_of = j * 2 + (if ltb 63 object_bit then 1 else 0)

  unfoldable pub bit_of : ℕ
  bit_of = if ltb 63 object_bit then object_bit - 64 else object_bit

  mark_object_here :
      (map : List ℕ)
      → All IsWord map
      → length map ≡ length h.alloc_map
      → (map' : List ℕ) × (mark_object word_of bit_of object_count map ≡ some map')
        × Marks map (128 * j + object_bit) (128 * j + object_bit + object_count) map'
  unfolding object_bit object_count word_of bit_of
  mark_object_here map words len =
      let same : 64 * word_of + bit_of ≡ 128 * j + object_bit = ground arith in
      let room : object_bit + object_count ≤ 128 = omega (arith, low, high) in
      let fits : 64 * word_of + bit_of + object_count ≤ 64 * length map =
        omega (arith, same, room, len, ok.map_length, below) in
      let (map', e, p) =
        mark_object-Marks map word_of bit_of object_count words (ground (arith, room)) fits in
      (map', e, subst (λ (t : ℕ). Marks map t (t + object_count) map') same p)

  -- Both loops together: the map is of the same length, and it has the bit of the object.
  pub maps :
      (map map' : List ℕ) × (set_alloc_map start h.alloc_front
          (front + header_size + size + header_size)
          h.alloc_map
        ≡ some map)
      × (mark_object word_of bit_of object_count map ≡ some map')
      × (length map' ≡ length h.alloc_map)
      × All IsWord map'
      × ((h.alloc_front ≡ front) ⊎ (front ≡ start + j * space_size_bytes)
          → header_size ≤ size
          → marked map' ((front + header_size - start) / 16) ≡ true)
  unfolding first_bit object_bit object_count
  maps =
      let (map, e, p) = set_alloc_map-Marks in
      let (map', e', p') = mark_object_here map p.words p.same_length in
      (
        map,
        map',
        e,
        e',
        p'.same_length ∙ p.same_length,
        p'.words,
        λ position large. ground (
          arith,
          p.bits ((front + header_size - start) / 16),
          p'.bits ((front + header_size - start) / 16),
          position,
          large,
          low,
        ),
      )
