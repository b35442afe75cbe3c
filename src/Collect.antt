-- ===== src/Collect.antt =====
-- `garbage_collection`, `h_gc` and `h_gc_dbg` of src/gc.c.
--
-- `garbage_collection` holds two versions of itself, run into one another by a merge, and does not
-- parse behind its second branch. Modelled is the version that is whole: the two branches, for a
-- structure and for a forwarded one, and no change for any other header, as its two last lines say.
pub mod Reset
pub mod Forward
pub mod Move
use garbagecollector.Base.{
  ℕ, ◌+◌, ◌-◌, ◌%◌, ◌^◌, Bool, true, false, not, List, [], ◌∷◌, ltb, length, take, ◌==◌,
  if◌then◌else◌, Option, none, some,
}
use garbagecollector.Memory.{load64, store64, copy_bytes}
use garbagecollector.BitManip.{set_bit_at_index_from_lsb}
use garbagecollector.FormatStr.{null, fault, ok}
use garbagecollector.BitVector.{get_size_bits_field, bit_vector_to_format_string}
use garbagecollector.Header.{
  forwarding_address, bit_vector, header_new, get_header_type, set_header_forward_address,
  get_header,
}
use garbagecollector.Heap.{Heap, space_size_bytes, h_used}
use garbagecollector.Alloc.{State, Run, ◌>>=◌, header_size, h_alloc_struct}
use garbagecollector.Stack.{find_header_address_through_footer, root_ptrs}

-- The branch for a structure that has not been moved: a new object, the data, the forwarding header
-- over the old one, and the root. `none` is also a failed assertion.
unfoldable pub move_into : State → ℕ → ℕ → ℕ → Option ℕ → Run State
move_into s root header old none = none
move_into s root header old (some new_obj) =
    if new_obj == load64 root s.memory
    then none
    else (let new_header = new_obj - header_size in
        let size = get_size_bits_field (load64 header s.memory) in
        let memory = copy_bytes new_obj (load64 root s.memory) size s.memory in
        let forward =
          get_header (set_header_forward_address (header_new (load64 header memory)) new_header) in
        let memory = store64 header forward memory in
        let bytes_offset = (old + 2 ^ 64 - header) % 2 ^ 64 in
        let memory = store64 root ((new_header + bytes_offset) % 2 ^ 64) memory in
        some (record s { memory = memory }))

unfoldable pub move_object : State → ℕ → ℕ → ℕ → Run State
move_object s root header old = elim (bit_vector_to_format_string (load64 header s.memory)) [
  | null ↦ none
  | fault ↦ none
  | ok frmt_str ↦
      (h_alloc_struct (some frmt_str) s >>= λ a. move_into a.state root header old a.pointer)
]

-- The branch for a structure that has been moved.
unfoldable pub follow_forward : State → ℕ → ℕ → ℕ → State
follow_forward s root header old =
    let new_header_address = set_bit_at_index_from_lsb (load64 header s.memory) 0 false in
    let new_header_address = set_bit_at_index_from_lsb new_header_address 0 false in
    let bytes_offset = (old + 2 ^ 64 - header) % 2 ^ 64 in
    record s { memory = store64 root ((new_header_address + bytes_offset) % 2 ^ 64) s.memory }

unfoldable pub garbage_collection : State → ℕ → Run State
garbage_collection s root =
    let old = load64 root s.memory in
    if root == 0
    then some s
    else if ltb old 0xFFF
    then some s
    else elim (find_header_address_through_footer old (old + space_size_bytes) s.memory) [
      | none ↦ some s
      | some header ↦ (elim (get_header_type (header_new (load64 header s.memory))) [
        | bit_vector ↦ move_object s root header old
        | forwarding_address ↦ some (follow_forward s root header old)
        | _ ↦ some s
      ])
    ]

-- `space_is_active[i] = !space_is_active[i]` for each space
unfoldable pub flip_spaces : List Bool → List Bool
flip_spaces [] = []
flip_spaces (b ∷ flags) = not b ∷ flip_spaces flags

-- `alloc_front` goes to the first active space; with none it stays.
unfoldable pub first_active : List Bool → List ℕ → ℕ → ℕ
first_active (true ∷ flags) (space ∷ spaces) front = space
first_active (false ∷ flags) (space ∷ spaces) front = first_active flags spaces front
first_active _ _ front = front

-- The loop over the roots.
unfoldable pub collect_roots : List ℕ → State → Run State
collect_roots [] s = some s
collect_roots (root ∷ roots) s = garbage_collection s root >>= collect_roots roots

-- The heap after the flips and the reset of the counters.
unfoldable pub reset_front : Heap → Heap
reset_front h =
    let flags = flip_spaces (flip_spaces h.space_is_active) in
    record h {
      space_is_active = flags;
      alloc_front = first_active flags h.spaces h.alloc_front;
      used_bytes = 0;
    }

-- The number of bytes collected, a `size_t`, and the state. Both settings of `unsafe_stack` fetch
-- the roots alike, and the last root is left out: the loop runs to `num_roots - 1`.
unfoldable pub h_gc_dbg : State → Bool → ℕ → ℕ → Run (ℕ × State)
h_gc_dbg s unsafe_stack stack_top stack_bottom = do
  r ← root_ptrs s.heap s.memory stack_top stack_bottom
  let old_used_memory = h_used s.heap
  s' ←
      collect_roots (take (length r.pointers - 1) r.pointers)
        (record s { heap = reset_front s.heap })
  some ((old_used_memory + 2 ^ 64 - h_used s'.heap) % 2 ^ 64, s')

unfoldable pub h_gc : State → ℕ → ℕ → Run (ℕ × State)
h_gc s stack_top stack_bottom = h_gc_dbg s false stack_top stack_bottom
