-- ===== src/Stack.antt =====
-- src/traverse_stack.c: the footer search and the scan of the stack for pointers into the heap. The
-- bounds of the stack (the frame's address and `environ`) are arguments, and a word of the stack is
-- read from the memory. The file holds the markers of an unresolved merge; both of its sides are
-- the same code.
pub mod Footers
pub mod Scan
use garbagecollector.Base.{
  ℕ, zero, suc, ◌+◌, ◌-◌, ◌*◌, ◌/◌, ◌%◌, ◌^◌, Bool, true, false, List, [], ◌∷◌, ◌++◌, ltb, leb,
  length, if◌then◌else◌, Option, none, some,
}
use garbagecollector.Memory.{Memory, load64, store64}
use garbagecollector.BitVector.{get_size_bits_field}
use garbagecollector.Footer.{confirm_tag}
use garbagecollector.Heap.{Heap}
use garbagecollector.Heap.Blocks.{HeapBlocks, Blocks, h_delete}
use garbagecollector.AllocMap.{validate_ptr}
use garbagecollector.Alloc.{Run, ◌>>=◌, header_size}

-- The loop of the footer search, with the rounds that are left; `none` is NULL.
unfoldable pub find_footer : ℕ → ℕ → Memory → Option ℕ
find_footer zero ptr memory = none
find_footer (suc left) ptr memory =
    let current_value = load64 ptr memory in
    let object_bytes = get_size_bits_field current_value in
    let bytes_to_jump_back = object_bytes + header_size in
    let next = find_footer left (ptr + 8) memory in
    if confirm_tag current_value then some ((ptr + 2 ^ 64 - bytes_to_jump_back) % 2 ^ 64) else next

-- The search reads a word at `ptr`, `ptr + 8`, ... while that is below the end.
unfoldable pub find_header_address_through_footer : ℕ → ℕ → Memory → Option ℕ
find_header_address_through_footer ptr end_of_search_area memory =
    find_footer ((end_of_search_area - ptr + 7) / 8) ptr memory

-- The growing array of `root_ptrs`.
pub record Roots : Type 0 where
  pub capacity : ℕ
  pub pointers : List ℕ

-- `none` is a write behind the array.
unfoldable pub push_root : Roots → ℕ → Run Roots
push_root r current =
    let found = length r.pointers in
    let capacity : ℕ = if leb r.capacity found then r.capacity * 2 else r.capacity in
    if ltb found capacity
    then some (record { capacity = capacity; pointers = r.pointers ++ current ∷ [] })
    else none

-- `pointer_check_vaild`, which accepts every pointer
unfoldable pub pointer_check_vaild : ℕ → Bool
pointer_check_vaild pointer = true

-- One round of the scan, at the stack word `current`.
unfoldable pub scan_word : Heap → Memory → ℕ → Roots → Run Roots
scan_word h memory current r = do
  let word = load64 current memory
  valid ← validate_ptr h word
  elim valid [
    | false ↦ some r
    | true ↦ (elim h.unsafe_stack [
      | false ↦ push_root r current
      | true ↦ (elim (pointer_check_vaild word) [ true ↦ push_root r current | false ↦ some r ])
    ])
  ]

-- The loop from `current` down, with the rounds that are left.
unfoldable pub scan : Heap → Memory → ℕ → ℕ → Roots → Run Roots
scan h memory zero current r = some r
scan h memory (suc left) current r =
    scan_word h memory current r >>= scan h memory left (current - 8)

-- `stack_top` and `stack_bottom` as the code reads them; it exchanges them if they are the wrong
-- way round.
unfoldable pub root_ptrs : Heap → Memory → ℕ → ℕ → Run Roots
root_ptrs h memory stack_top stack_bottom =
    let swapped = ltb stack_top stack_bottom in
    let top : ℕ = if swapped then stack_bottom else stack_top in
    let bottom : ℕ = if swapped then stack_top else stack_bottom in
    scan h memory ((top - bottom + 7) / 8) top (record { capacity = 128; pointers = [] })

unfoldable pub overwrite : List ℕ → ℕ → Memory → Memory
overwrite [] dbg_value memory = memory
overwrite (p ∷ pointers) dbg_value memory =
    overwrite pointers dbg_value (store64 p dbg_value memory)

unfoldable pub invalidate_ptrs_at_heap : Heap → ℕ → Memory → ℕ → ℕ → Run Memory
invalidate_ptrs_at_heap h dbg_value memory stack_top stack_bottom = do
  r ← root_ptrs h memory stack_top stack_bottom
  some (overwrite r.pointers dbg_value memory)

-- `h_delete_dbg` of src/gc.c: the memory and the blocks that it leaves.
unfoldable pub h_delete_dbg :
    Heap → HeapBlocks → Blocks → ℕ → Memory → ℕ → ℕ → Run (Memory × Blocks)
h_delete_dbg h pointers blocks dbg_value memory stack_top stack_bottom = do
  memory ← invalidate_ptrs_at_heap h dbg_value memory stack_top stack_bottom
  blocks' ← h_delete pointers blocks
  some (memory, blocks')
