-- ===== src/Heap.antt =====
-- The struct `heap` of src/gc.h, and `h_init`, `h_avail`, `h_used` of src/gc.c.
--
-- Addresses and sizes are natural numbers, and an `int` is the 32 bits that hold it, which wrap.
-- `calloc` does not fail; the address of the memory that the heap manages is an argument.
pub mod Shape
pub mod Init
pub mod Blocks
pub mod Delete
use garbagecollector.Base.{
  ℕ, zero, suc, ◌+◌, ◌-◌, ◌*◌, ◌/◌, ◌%◌, ◌^◌, Bool, true, false, ◌||◌, not, List, [], ◌∷◌, ◌++◌,
  ◌==◌, ltb, leb, replicate, if◌then◌else◌, Option, none, some, set,
}

-- A `float`: a finite one is a whole number of units of 2 ^ -149.
pub data Float : Type 0 where
  nan plus_infinity minus_infinity : Float
  plus minus : ℕ → Float

pub record Heap : Type 0 where
  -- `start` is NULL, `none`, unless it is set.
  pub start : Option ℕ
  pub size : ℕ
  pub alloc_front : ℕ
  pub spaces : List ℕ
  pub number_of_spaces : ℕ
  pub space_is_active : List Bool
  pub space_size : ℕ
  pub alloc_map : List ℕ
  pub gc_threshold : Float
  pub unsafe_stack : Bool
  pub gc_runs : ℕ
  pub used_bytes : ℕ

abbrev pub space_size_bytes : ℕ
space_size_bytes = 2048

-- `gc_threshold > 1` and `gc_threshold <= 0`; every comparison with NaN is false.
unfoldable pub above_one : Float → Bool
above_one (plus n) = ltb (2 ^ 149) n
above_one plus_infinity = true
above_one _ = false

unfoldable pub at_most_zero : Float → Bool
at_most_zero (plus n) = n == 0
at_most_zero (minus n) = true
at_most_zero minus_infinity = true
at_most_zero _ = false

-- `heap_start + i * SPACE_SIZE`: the product is an `int`, whose sign the addition extends.
unfoldable pub space_address : ℕ → ℕ → ℕ
space_address heap_start i =
    let offset = i * space_size_bytes % 2 ^ 32 in
    if ltb offset (2 ^ 31)
    then heap_start + offset
    else (heap_start + offset + (2 ^ 64 - 2 ^ 32)) % 2 ^ 64

-- The loop that fills `spaces`, from `i` on.
unfoldable pub space_addresses : ℕ → ℕ → ℕ → List ℕ
space_addresses heap_start i zero = []
space_addresses heap_start i (suc n) =
    space_address heap_start i ∷ space_addresses heap_start (i + 1) n

-- `int number_of_spaces = bytes / SPACE_SIZE`.
unfoldable pub int_spaces : ℕ → ℕ
int_spaces bytes = bytes / space_size_bytes % 2 ^ 32

-- The rounds of a loop from 0 to an `int`: none for a negative one.
unfoldable pub int_rounds : ℕ → ℕ
int_rounds n = if ltb n (2 ^ 31) then n else 0

-- The loop that activates the first half, over the flags that `calloc` cleared: `i` rounds.
unfoldable pub activate : ℕ → List Bool → List Bool
activate zero space_is_active = space_is_active
activate (suc i) space_is_active = set (activate i space_is_active) i true

-- The struct that `h_init` fills, from zeroed memory.
unfoldable pub new_heap : ℕ → ℕ → Bool → Float → Heap
new_heap heap_start bytes unsafe_stack gc_threshold =
    let number_of_spaces = int_spaces bytes in
    let rounds = int_rounds number_of_spaces in
    record {
      start = none;
      size = bytes;
      alloc_front = space_address heap_start 0;
      spaces = space_addresses heap_start 0 rounds;
      number_of_spaces = number_of_spaces;
      space_is_active = activate (rounds / 2) (replicate rounds false);
      space_size = space_size_bytes;
      alloc_map = replicate (bytes / (16 * 8) / 8) 0;
      gc_threshold = gc_threshold;
      unsafe_stack = unsafe_stack;
      gc_runs = 0;
      used_bytes = 0;
    }

-- `none` is NULL.
unfoldable pub h_init : ℕ → ℕ → Bool → Float → Option Heap
h_init heap_start bytes unsafe_stack gc_threshold =
    if not (bytes % (space_size_bytes * 2) == 0)
    then none
    else if leb bytes 0
    then none
    else if above_one gc_threshold || at_most_zero gc_threshold
    then none
    else if ltb bytes (2048 * 4)
    then none
    else some (new_heap heap_start bytes unsafe_stack gc_threshold)

unfoldable pub h_used : Heap → ℕ
h_used h = h.used_bytes

unfoldable pub h_avail : Heap → ℕ
h_avail h = if ltb h.size h.used_bytes then 0 else h.size - h_used h
