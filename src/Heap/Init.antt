-- ===== src/Heap/Init.antt =====
-- `h_init`: what it accepts, and the heap that it makes.
use garbagecollector.Base.{
  ℕ, zero, suc, ◌+◌, ◌-◌, ◌*◌, ◌/◌, ◌%◌, ◌^◌, ◌≤◌, ◌<◌, ◌≡◌, ◌≢◌, refl, sym, ◌∙◌, Bool, true, false,
  List, none, some, get_elem?, length, replicate, length-set, length-replicate, get_elem?-set_self,
  get_elem?-set_ne, get_elem?-replicate, ltb, leb, ◌==◌, ==_iff, Bool-cases, if◌then◌else◌, ◌||◌,
  All-replicate, inl, inr, arith,
}
use mathlib.Core.Path.{subst}
use garbagecollector.Bits.{test_bit_zero}
use garbagecollector.AllocMap.Laws.{marked}
use garbagecollector.Word.{IsWord}
use garbagecollector.Heap.{
  Heap, Float, nan, plus, space_size_bytes, space_address, space_addresses, int_spaces, int_rounds,
  activate, above_one, at_most_zero, h_init, new_heap,
}
use garbagecollector.Heap.Shape.{IsHeap, spaces_from}

-- Up to 2 ^ 31 bytes, no offset of a space wraps.
space_address_lem :
    (start i : ℕ)
    → i * space_size_bytes < 2 ^ 31
    → space_address start i ≡ start + i * space_size_bytes
unfolding space_address
space_address_lem start i small = ground arith

space_addresses_lem :
    (start i n : ℕ)
    → (i + n) * space_size_bytes ≤ 2 ^ 31
    → space_addresses start i n ≡ spaces_from start i n
unfolding space_addresses spaces_from
space_addresses_lem start i zero small = refl
space_addresses_lem start i (suc n) small =
    rw (space_address_lem start i (omega arith), space_addresses_lem start (i + 1) n (omega arith))

int_spaces_lem : (bytes : ℕ) → bytes ≤ 2 ^ 31 → int_spaces bytes ≡ bytes / space_size_bytes
unfolding int_spaces
int_spaces_lem bytes small = omega arith

int_rounds_lem :
    (bytes : ℕ) → bytes ≤ 2 ^ 31 → int_rounds (bytes / space_size_bytes) ≡ bytes / space_size_bytes
unfolding int_rounds
int_rounds_lem bytes small = ground arith

length-activate : (k : ℕ) (flags : List Bool) → length (activate k flags) ≡ length flags
unfolding activate
length-activate zero flags = refl
length-activate (suc k) flags = length-set (activate k flags) k true ∙ length-activate k flags

get_elem?-activate :
    (k : ℕ) (flags : List Bool) (i : ℕ)
    → k ≤ length flags
    → get_elem? (activate k flags) i ≡ (if ltb i k then some true else get_elem? flags i)
unfolding activate
get_elem?-activate zero flags i h = ground arith
get_elem?-activate (suc k) flags i h = elim (Bool-cases (k == i)) [
  | inl e ↦
      let same : k ≡ i = (==_iff _ _).0 e in
      let lt : k < length (activate k flags) = omega (arith, length-activate k flags) in
      rw (← same) (get_elem?-set_self (activate k flags) k true lt ∙ ground arith)
  | inr e ↦
      let other : k ≢ i = λ q. ground arith in
      get_elem?-set_ne (activate k flags) k i true other
      ∙ get_elem?-activate k flags i (omega arith)
      ∙ ground (arith, other)
]

clear : (n i : ℕ) → marked (replicate n 0) i ≡ false
unfolding marked
clear n i = ground (arith, get_elem?-replicate {A = ℕ} n 0 (i / 64), test_bit_zero (63 - i % 64))

-- A threshold that is accepted: above 0 and at most 1, or not a number.
pub data IsThreshold : Float → Type 0 where
  not_a_number : IsThreshold nan
  fraction : (n : ℕ) → 0 < n → n ≤ 2 ^ 149 → IsThreshold (plus n)

threshold_tests : (t : Float) → IsThreshold t → (above_one t || at_most_zero t) ≡ false
unfolding above_one at_most_zero
threshold_tests _ not_a_number = refl
threshold_tests _ (fraction n low high) = ground arith

-- A new heap of `bytes` bytes at `start`: its first half is active, and nothing is allocated.
pub record IsFresh (start bytes : ℕ) (h : Heap) : Type 0 where
  pub shape : IsHeap start h
  pub size_eq : h.size ≡ bytes
  pub front_eq : h.alloc_front ≡ start
  pub used_eq : h.used_bytes ≡ 0
  pub half_active :
      (i : ℕ)
      → get_elem? h.space_is_active i ≡ (
          if ltb i (bytes / space_size_bytes / 2)
          then some true
          else if ltb i (bytes / space_size_bytes)
          then some false
          else none)
  pub nothing_marked : (i : ℕ) → marked h.alloc_map i ≡ false

module _ (start bytes : ℕ) (unsafe_stack : Bool) (t : Float) where
  -- The new heap with its numbers as they are where no `int` wraps.
  plain_heap : Heap
  plain_heap =
      let n = bytes / space_size_bytes in
      record {
        start = none;
        size = bytes;
        alloc_front = start;
        spaces = spaces_from start 0 n;
        number_of_spaces = n;
        space_is_active = activate (n / 2) (replicate n false);
        space_size = space_size_bytes;
        alloc_map = replicate (bytes / (16 * 8) / 8) 0;
        gc_threshold = t;
        unsafe_stack = unsafe_stack;
        gc_runs = 0;
        used_bytes = 0;
      }

  new_heap-eq-plain_heap : bytes ≤ 2 ^ 31 → new_heap start bytes unsafe_stack t ≡ plain_heap
  unfolding new_heap plain_heap
  new_heap-eq-plain_heap small =
      let front : space_address start 0 ≡ start =
        space_address_lem start 0 (omega arith) ∙ omega arith in
      let addresses =
        space_addresses_lem start 0 (bytes / space_size_bytes) (omega (arith, small)) in
      rw (int_spaces_lem bytes small, int_rounds_lem bytes small, front, addresses) refl

  plain_heap-IsFresh :
      bytes % (space_size_bytes * 2) ≡ 0
      → 4 * space_size_bytes ≤ bytes
      → IsFresh start bytes plain_heap
  unfolding plain_heap
  plain_heap-IsFresh pairs four =
      let n = bytes / space_size_bytes in
      let flags = activate (n / 2) (replicate n false) in
      let half : n / 2 ≤ length (replicate n false) = omega (arith, length-replicate n false) in
      let flag = λ (i : ℕ). get_elem?-activate (n / 2) (replicate n false) i half in
      record {
        shape = record {
          some_space = omega arith;
          space_list = refl;
          size_eq = omega arith;
          flags_length = length-activate (n / 2) (replicate n false) ∙ length-replicate n false;
          last_passive = flag (n - 1) ∙ ground (arith, get_elem?-replicate n false (n - 1));
          map_length = length-replicate (bytes / (16 * 8) / 8) 0 ∙ omega arith;
          map_words = All-replicate IsWord (bytes / (16 * 8) / 8) 0 (omega arith);
          front_low = omega arith;
          front_high = omega arith;
        };
        size_eq = refl;
        front_eq = refl;
        used_eq = refl;
        half_active = λ i. flag i ∙ ground (arith, get_elem?-replicate n false i);
        nothing_marked = clear (bytes / (16 * 8) / 8);
      }

  pub new_heap-IsFresh :
      bytes % (space_size_bytes * 2) ≡ 0
      → 4 * space_size_bytes ≤ bytes
      → bytes ≤ 2 ^ 31
      → IsFresh start bytes (new_heap start bytes unsafe_stack t)
  new_heap-IsFresh pairs four small =
      subst (IsFresh start bytes) (sym (new_heap-eq-plain_heap small))
        (plain_heap-IsFresh pairs four)

  -- For a number of bytes that is a multiple of two spaces, at least four spaces and at most 2 ^ 31
  -- bytes, and a threshold that is above 0 and at most 1 or not a number, `h_init` gives a heap of
  -- the right shape and of that size whose front is at its start, whose first half of the spaces is
  -- active, and that has no bytes used and no bit of its map set.
  pub h_init-IsFresh :
      bytes % (space_size_bytes * 2) ≡ 0
      → 4 * space_size_bytes ≤ bytes
      → bytes ≤ 2 ^ 31
      → IsThreshold t
      → (h : Heap) × (h_init start bytes unsafe_stack t ≡ some h) × IsFresh start bytes h
  unfolding h_init
  h_init-IsFresh pairs four small accepted =
      let tests = threshold_tests t accepted in
      let e₁ : (bytes % (space_size_bytes * 2) == 0) ≡ true = ground arith in
      let e₂ : leb bytes 0 ≡ false = ground arith in
      let e₃ : ltb bytes (2048 * 4) ≡ false = ground arith in
      (
        new_heap start bytes unsafe_stack t,
        rw (h_init, e₁, e₂, tests, e₃) refl,
        new_heap-IsFresh pairs four small,
      )
