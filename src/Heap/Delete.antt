-- ===== src/Heap/Delete.antt =====
-- The blocks that are left when a heap that `h_init` made is deleted.
use garbagecollector.Base.{
  ℕ, ◌+◌, ◌≡◌, refl, Bool, List, [], ◌∷◌, ◌++◌, All, some, ◌==◌, arith, true, false, ◌<◌, ==_iff,
}
use garbagecollector.Heap.{Heap, Float, h_init}
use garbagecollector.Heap.Blocks.{
  Blocks, HeapBlocks, calloc, take_out, free, new_heap_blocks, h_init_blocks, h_delete,
}

-- `free` takes out a block that stands behind newer ones.
take_out_lem :
    (p : ℕ) (newer older : List ℕ)
    → All (λ (q : ℕ). p < q) newer
    → take_out p (newer ++ (p ∷ older)) ≡ some (newer ++ older)
unfolding take_out
take_out_lem p [] older h = let e : (p == p) ≡ true = (==_iff p p).1 refl in rw e refl
take_out_lem p (q ∷ newer) older h =
    let e : (p == q) ≡ false = ground (arith, h.0) in rw (e, take_out_lem p newer older h.1) refl

free_lem :
    (p n : ℕ) (newer older : List ℕ)
    → All (λ (q : ℕ). p < q) newer
    → free (some p) (record { next = n; live = newer ++ (p ∷ older) })
      ≡ some (record { next = n; live = newer ++ older })
unfolding free
free_lem p n newer older h = rw (take_out_lem p newer older h) refl

-- When `h_init` accepts its arguments, deleting the heap with the pointers that it has set frees
-- live blocks only, each once: of the six blocks that `h_init` took, the first map and the memory
-- of the heap, the fourth and the sixth, are left, besides the blocks that were live before.
pub h_delete-h_init :
    (heap_start bytes : ℕ) (unsafe_stack : Bool) (t : Float) (h : Heap) (b : Blocks)
    → h_init heap_start bytes unsafe_stack t ≡ some h
    → (pointers : HeapBlocks) × (b' : Blocks) × (h_init_blocks heap_start bytes unsafe_stack t b
        ≡ (some pointers, b'))
      × (h_delete pointers b'
          ≡ some (record { next = b.next + 6; live = (b.next + 5) ∷ (b.next + 3) ∷ b.live }))
unfolding h_init_blocks new_heap_blocks h_delete free calloc
h_delete-h_init heap_start bytes unsafe_stack t h b made =
    let (pointers, b') = new_heap_blocks b in
    let n = b.next in
    let flags = n + 1 + 1 in
    let first_map = flags + 1 in
    let map = first_map + 1 in
    let area = map + 1 in
    let freed_flags =
      free_lem flags (area + 1) (area ∷ map ∷ first_map ∷ []) ((n + 1) ∷ n ∷ b.live)
        (omega arith, (omega arith, (omega arith, tt))) in
    let freed_spaces =
      free_lem (n + 1) (area + 1) (area ∷ map ∷ first_map ∷ []) (n ∷ b.live)
        (omega arith, (omega arith, (omega arith, tt))) in
    let freed_map =
      free_lem map (area + 1) (area ∷ []) (first_map ∷ n ∷ b.live) (omega arith, tt) in
    let freed_heap =
      free_lem n (area + 1) (area ∷ first_map ∷ []) b.live (omega arith, (omega arith, tt)) in
    let sixth : area ≡ n + 5 = omega arith in
    let fourth : first_map ≡ n + 3 = omega arith in
    let next : n + 5 + 1 ≡ n + 6 = omega arith in
    (
      pointers,
      b',
      rw (made, h_init_blocks) refl,
      rw (freed_flags, freed_spaces, freed_map, freed_heap, sixth, fourth) (rw next refl),
    )
