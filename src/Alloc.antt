-- ===== src/Alloc.antt =====
-- `h_alloc_struct` and `h_alloc_raw` of src/gc.c, over the heap and the memory.
pub mod Select
pub mod Write
pub mod Place
pub mod Struct
pub mod Room
pub mod Raw
pub mod ReadBack
pub mod Fresh
use garbagecollector.Base.{
  ℕ, zero, suc, ◌+◌, ◌-◌, ◌*◌, ◌/◌, ◌%◌, ◌^◌, Bool, true, false, ◌&&◌, not, List, [], ◌∷◌, ltb, leb,
  if◌then◌else◌, Option, none, some, get_elem?,
}
use garbagecollector.Memory.{Memory, store64}
use garbagecollector.FormatStr.{null, fault, ok, create_format_str, format_str_bytes}
use garbagecollector.BitVector.{to_bit_vector}
use garbagecollector.Footer.{create_footer}
use garbagecollector.RawLayout.{create_raw_header}
use garbagecollector.Heap.{Heap, space_size_bytes, h_avail}
use garbagecollector.AllocMap.{set_alloc_map, mark_object}

pub record State : Type 0 where
  pub heap : Heap
  pub memory : Memory

-- What a call returns: a pointer, `none` for NULL, and the state that it leaves.
pub record Allocation : Type 0 where
  pub pointer : Option ℕ
  pub state : State

-- `none` is an access out of bounds, which C leaves undefined.
abbrev pub Run : Type 0 → Type 0
Run A = Option A

infixl 5 ◌>>=◌
abbrev pub ◌>>=◌ : {A B : Type 0} → Run A → (A → Run B) → Run B
none >>= f = none
some a >>= f = f a

abbrev pub header_size : ℕ
header_size = 8

abbrev pub min_obj_size : ℕ
min_obj_size = 16

abbrev pub refuse : State → Run Allocation
refuse s = some (record { pointer = none; state = s })

-- The walk to the next active space, from a space and its flag; `some none` is the end of the
-- spaces. The fuel is the number of spaces.
unfoldable pub next_active : List Bool → ℕ → ℕ → ℕ → Bool → Run (Option ℕ)
next_active flags number_of_spaces fuel space_index true = some (some space_index)
next_active flags number_of_spaces zero space_index false = none
next_active flags number_of_spaces (suc fuel) space_index false =
    let rest =
      λ (is_active : Bool). next_active flags number_of_spaces fuel (space_index + 1) is_active in
    if leb number_of_spaces (space_index + 1)
    then some none
    else get_elem? flags (space_index + 1) >>= rest

-- `h->alloc_front = h->spaces[space_index]`
unfoldable pub move_to : Heap → Option ℕ → Run (Option (ℕ × Heap))
move_to h none = some none
move_to h (some space_index) = do
  front ← get_elem? h.spaces space_index
  some (some (space_index, record h { alloc_front = front }))

-- The space that the object goes to, with the heap after the move; `some none` is `return NULL`.
-- `space_left` is a `uint16_t`. The wrap of the `int` `space_index`, from 2 ^ 31 spaces on, is left out:
-- `h_init` makes no heap with so many.
unfoldable pub select_space : Heap → ℕ → Run (Option (ℕ × Heap))
select_space h size = do
  start ← get_elem? h.spaces 0
  let space_index = (h.alloc_front - start) / space_size_bytes
  is_active ← get_elem? h.space_is_active space_index
  base ← get_elem? h.spaces space_index
  let space_left = (space_size_bytes - (h.alloc_front - base)) % 2 ^ 16
  let struct_fits = leb (size + header_size) space_left
  elim (is_active && struct_fits) [
    | true ↦ some (some (space_index, h))
    | false ↦
        (next_active h.space_is_active h.number_of_spaces h.number_of_spaces space_index is_active
          >>= move_to h)
  ]

-- The check after the move.
unfoldable pub still_fits : Heap → ℕ → ℕ → Run Bool
still_fits h size space_index = do
  base ← get_elem? h.spaces space_index
  let space_left = (space_size_bytes + 2 ^ 16 - (h.alloc_front + header_size - base)) % 2 ^ 16
  some (leb (size + header_size) space_left)

-- From the header on: the words around the object, the map and the counters. `start_addrs` is the
-- front before any move, and the footer's size is a `uint8_t`.
unfoldable pub place_struct : Memory → Heap → ℕ → ℕ → ℕ → ℕ → Run Allocation
place_struct memory h start_addrs space_index size bit_vec = do
  base ← get_elem? h.spaces space_index
  start ← get_elem? h.spaces 0
  let front = h.alloc_front
  let memory = store64 front bit_vec memory
  let data_ptr = front + header_size
  let footer = create_footer (size % 256)
  let memory = store64 (data_ptr + size) footer memory
  let end_addrs = data_ptr + size + header_size
  map ← set_alloc_map start start_addrs end_addrs h.alloc_map
  let header_ptr = data_ptr - 1
  let bit_index = (header_ptr - base) / min_obj_size
  let above = ltb 63 bit_index
  let map_index = space_index * 2 + (if above then 1 else 0)
  let bit_index = if above then bit_index - 64 else bit_index
  map ← mark_object map_index bit_index ((size + header_size + 15) / min_obj_size) map
  some (record {
    pointer = some data_ptr;
    state = record {
      heap = record h {
        alloc_front = end_addrs;
        alloc_map = map;
        used_bytes = h.used_bytes + (size + header_size * 2) + (size + header_size);
      };
      memory = memory;
    };
  })

-- The last check, and the object if it passes. A refusal here leaves the front where it was moved.
unfoldable pub alloc_selected : State → ℕ → ℕ → Option (ℕ × Heap) → Run Allocation
alloc_selected s size bit_vec none = refuse s
alloc_selected s size bit_vec (some (space_index, h)) = do
  struct_fits ← still_fits h size space_index
  elim struct_fits [
    | true ↦ place_struct s.memory h s.heap.alloc_front space_index size bit_vec
    | false ↦ refuse (record s { heap = h })
  ]

-- The check for the empty layout, and what follows it.
unfoldable pub alloc_nonempty : List ℕ → State → ℕ → ℕ → Run Allocation
alloc_nonempty [] s size bit_vec = refuse s
alloc_nonempty (_ ∷ _) s size bit_vec = select_space s.heap size >>= alloc_selected s size bit_vec

-- After the format string is known. Its second expansion, which the code does before it writes the
-- header, gives the same string again.
unfoldable pub alloc_expanded : List ℕ → List ℕ → State → Run Allocation
alloc_expanded layout format s =
    let h = s.heap in
    let size = format_str_bytes format in
    let result = to_bit_vector format in
    if not result.success
    then refuse s
    else if ltb (h_avail h) (size + header_size)
    then refuse s
    else if ltb space_size_bytes (header_size + size)
    then refuse s
    else alloc_nonempty layout s size result.bit_vector

unfoldable pub h_alloc_struct : Option (List ℕ) → State → Run Allocation
h_alloc_struct none s = refuse s
h_alloc_struct (some layout) s = elim (create_format_str (some layout)) [
  | null ↦ refuse s
  | fault ↦ none
  | ok format ↦ alloc_expanded layout format s
]

-- The object is written where the front is, whatever space that is in.
unfoldable pub h_alloc_raw : ℕ → State → Run Allocation
h_alloc_raw bytes s =
    let h = s.heap in
    if ltb (h_avail h) bytes then refuse s else if leb bytes 0 then refuse s else (do
      start ← get_elem? h.spaces 0
      let start_addrs = h.alloc_front
      let memory = store64 h.alloc_front (create_raw_header bytes) s.memory
      let new_object = h.alloc_front + header_size
      let footer = create_footer (bytes % 256)
      let memory = store64 (new_object + bytes) footer memory
      let end_addrs = new_object + bytes + header_size
      map ← set_alloc_map start start_addrs end_addrs h.alloc_map
      some (record {
        pointer = some new_object;
        state = record {
          heap = record h {
            alloc_front = end_addrs;
            alloc_map = map;
            used_bytes = h.used_bytes + (header_size * 2 + bytes) + (header_size + bytes);
          };
          memory = memory;
        };
      }))
