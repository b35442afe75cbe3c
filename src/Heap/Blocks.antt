-- ===== src/Heap/Blocks.antt =====
-- The blocks of memory that `h_init` of src/gc.c takes from `calloc`, and those that `h_delete` frees.
use garbagecollector.Base.{ℕ, ◌+◌, Bool, List, [], ◌∷◌, ◌==◌, if◌then◌else◌, Option, none, some}
use garbagecollector.Alloc.{◌>>=◌}
use garbagecollector.Heap.{Float, h_init}

-- The blocks of memory: those that `calloc` has given and `free` has not taken back, numbered in the
-- order of the calls.
pub record Blocks : Type 0 where
  pub next : ℕ
  pub live : List ℕ

-- The blocks that the pointers of a `heap_t` point to, and the block of the struct itself; `none` is
-- NULL.
pub record HeapBlocks : Type 0 where
  pub heap : ℕ
  pub space_is_active : Option ℕ
  pub start : Option ℕ
  pub spaces : Option ℕ
  pub alloc_map : Option ℕ

unfoldable pub calloc : Blocks → ℕ × Blocks
calloc b = (b.next, record { next = b.next + 1; live = b.next ∷ b.live })

abbrev pub keep : ℕ → Option (List ℕ) → Option (List ℕ)
keep q none = none
keep q (some live) = some (q ∷ live)

-- The live blocks without the block `p`, or `none` if it is not live.
unfoldable pub take_out : ℕ → List ℕ → Option (List ℕ)
take_out p [] = none
take_out p (q ∷ live) = let rest = keep q (take_out p live) in if p == q then some live else rest

-- `free`, which does nothing for NULL; freeing what is not live is an error, `none`.
unfoldable pub free : Option ℕ → Blocks → Option Blocks
free none b = some b
free (some p) b = take_out p b.live >>= λ live. some (record b { live = live })

-- The calls of `calloc` in `h_init`, in order, with the pointers that keep their results. The second
-- map overwrites the first, and the block of the heap's memory is only in a local variable.
unfoldable pub new_heap_blocks : Blocks → HeapBlocks × Blocks
new_heap_blocks b =
    let (heap, b₁) = calloc b in
    let h₁ : HeapBlocks = record {
      heap = heap;
      space_is_active = none;
      start = none;
      spaces = none;
      alloc_map = none;
    } in
    let (spaces, b₂) = calloc b₁ in
    let h₂ = record h₁ { spaces = some spaces } in
    let (space_is_active, b₃) = calloc b₂ in
    let h₃ = record h₂ { space_is_active = some space_is_active } in
    let (first_map, b₄) = calloc b₃ in
    let h₄ = record h₃ { alloc_map = some first_map } in
    let (second_map, b₅) = calloc b₄ in
    let h₅ = record h₄ { alloc_map = some second_map } in
    let (heap_start, b₆) = calloc b₅ in (h₅, b₆)

-- What `h_init` does to the blocks: nothing if it returns NULL.
unfoldable pub h_init_blocks : ℕ → ℕ → Bool → Float → Blocks → Option HeapBlocks × Blocks
h_init_blocks heap_start bytes unsafe_stack gc_threshold b =
    let (h, b') = new_heap_blocks b in
    elim (h_init heap_start bytes unsafe_stack gc_threshold) [
      | none ↦ (none, b)
      | some _ ↦ (some h, b')
    ]

-- The calls of `free`, in order.
unfoldable pub h_delete : HeapBlocks → Blocks → Option Blocks
h_delete h b = do
  b₁ ← free h.space_is_active b
  b₂ ← free h.start b₁
  b₃ ← free h.spaces b₂
  b₄ ← free h.alloc_map b₃
  free (some h.heap) b₄
