-- ===== src/AllocMap.antt =====
-- `set_alloc_map` of src/gc.c and `validate_ptr` of src/traverse_stack.c: one bit for each 16 bytes
-- of the heap, the most significant bit of a word first. `none` is an access behind the map.
pub mod Laws
pub mod Validate
use garbagecollector.Base.{
  ℕ, zero, suc, ◌+◌, ◌-◌, ◌/◌, ◌%◌, Bool, true, false, ◌||◌, List, ltb, if◌then◌else◌, Option, none,
  some, set, get_elem?,
}
use garbagecollector.Word.{is_nonzero}
use garbagecollector.BitManip.{set_bit_at_index_from_msb, get_bit_at_index_from_msb}
use garbagecollector.Heap.{Heap, space_size_bytes}

-- `map[map_index] = set_bit_at_index_from_msb(map[map_index], bit_index, true)`
unfoldable pub mark : List ℕ → ℕ → ℕ → Option (List ℕ)
mark map map_index bit_index = elim (get_elem? map map_index) [
  | none ↦ none
  | some word ↦ some (set map map_index (set_bit_at_index_from_msb word bit_index true))
]

-- The loop of `set_alloc_map` from `i` on.
unfoldable pub mark_range : ℕ → ℕ → List ℕ → Option (List ℕ)
mark_range i zero map = some map
mark_range i (suc left) map = elim (mark map (i / 64) (i % 64)) [
  | none ↦ none
  | some map' ↦ mark_range (i + 1) left map'
]

-- The addresses are not below the heap's first space.
unfoldable pub set_alloc_map : ℕ → ℕ → ℕ → List ℕ → Option (List ℕ)
set_alloc_map heap_start start_address end_address map =
    let start_index = (start_address - heap_start) / 16 in
    let end_index = (end_address - heap_start) / 16 in
    mark_range start_index (end_index - start_index) map

-- The second marking loop of `h_alloc_struct`.
unfoldable pub mark_object : ℕ → ℕ → ℕ → List ℕ → Option (List ℕ)
mark_object map_index bit_index zero map = some map
mark_object map_index bit_index (suc left) map =
    let next = ltb 63 bit_index in
    let map_index' : ℕ = if next then map_index + 1 else map_index in
    let bit_index' : ℕ = if next then 0 else bit_index in
    elim (mark map map_index' bit_index') [
      | none ↦ none
      | some map' ↦ mark_object map_index' (bit_index' + 1) left map'
    ]

unfoldable pub validate_ptr : Heap → ℕ → Option Bool
validate_ptr h ptr = elim (get_elem? h.spaces 0) [
  | none ↦ none
  | some start ↦ (elim (get_elem? h.spaces (h.number_of_spaces - 1)) [
    | none ↦ none
    | some last ↦
        (let heap_end = last + space_size_bytes in
          let bit = (ptr - start) / 16 in
          let bit_index = bit % 64 in
          let map_index = bit / 64 in
          if ltb ptr start || ltb heap_end ptr
          then some false
          else elim (get_elem? h.alloc_map map_index) [
            | none ↦ none
            | some word ↦ some (is_nonzero (get_bit_at_index_from_msb word bit_index))
          ])
  ])
]
