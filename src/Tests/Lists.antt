-- ===== src/Tests/Lists.antt =====
-- The linked list of the demo programs at concrete inputs.
use garbagecollector.Base.{
  ℕ, ◌+◌, ◌*◌, ◌≤◌, ◌<◌, ◌≡◌, refl, ◌⊎◌, inl, inr, false, List, [], ◌∷◌, some, arith,
}
use garbagecollector.Memory.{Memory, store64, load64, load_bytes, store_bytes, store64_outside}
use garbagecollector.Memory.Sized.{store32, load32, store32_outside}
use garbagecollector.Heap.{Heap, plus, new_heap, activate, space_address, int_spaces, int_rounds}
use garbagecollector.Heap.Shape.{IsHeap}
use garbagecollector.Heap.Init.{new_heap-IsFresh}
use garbagecollector.Alloc.{State}
use garbagecollector.Alloc.Fresh.{IsSpare}
use garbagecollector.Demo.LinkedList.{value, next, first, last, cmp, size, current}
use garbagecollector.Demo.LinkedList.Shape.{Cell, IsList}
use garbagecollector.Demo.LinkedList.Stored.{IsStored}
use garbagecollector.Demo.LinkedList.{
  Compare, ioopm_linked_list_create, ioopm_linked_list_contains, ioopm_linked_list_remove,
  ioopm_linked_list_get,
}
use garbagecollector.Demo.LinkedList.Create.{ioopm_linked_list_create-IsStored}
use garbagecollector.Demo.LinkedList.Search.{any_value, ioopm_linked_list_contains_lem}
use garbagecollector.Demo.LinkedList.Remove.{remove-last}
use garbagecollector.Demo.LinkedList.Traverse.{advance, Ahead, current-advance}
use garbagecollector.Demo.LinkedList.Shape.{values}
use garbagecollector.Demo.LinkedList.Refine.{
  Operation, append, prepend, get, remove, count, execute_all, perform, perform_all,
}
use garbagecollector.Demo.LinkedList.Refine.Run.{execute_all-perform_all}
use garbagecollector.Demo.Iterator.{ioopm_iterator_current}
use garbagecollector.Demo.Common.{compare_int}

-- A heap whose front is 304 bytes into its first space.
abbrev pub empty_heap : Heap
empty_heap = new_heap 4096 8192 false (plus 1)

empty_heap-IsHeap : IsHeap 4096 empty_heap
empty_heap-IsHeap =
    (new_heap-IsFresh 4096 8192 false (plus 1) refl (omega arith) (omega arith)).shape

abbrev pub heap : Heap
heap = record empty_heap { alloc_front = 4400 }

heap-IsHeap : IsHeap 4096 heap
unfolding new_heap activate space_address int_spaces int_rounds
heap-IsHeap = record {
  some_space = empty_heap-IsHeap.some_space;
  space_list = empty_heap-IsHeap.space_list;
  size_eq = empty_heap-IsHeap.size_eq;
  flags_length = empty_heap-IsHeap.flags_length;
  last_passive = empty_heap-IsHeap.last_passive;
  map_length = empty_heap-IsHeap.map_length;
  map_words = empty_heap-IsHeap.map_words;
  front_low = omega arith;
  front_high = omega arith;
}

pub heap-IsSpare : (bytes used : ℕ) → bytes ≤ 1000 → used ≤ 1000 → IsSpare 4096 heap bytes used
unfolding new_heap activate space_address int_spaces int_rounds
heap-IsSpare bytes used fits few = record {
  shape = heap-IsHeap;
  space = 0;
  active = refl;
  low = omega arith;
  high = omega (arith, fits);
  counted = omega (arith, few);
  addressable = omega arith;
}

-- A list of 11 and 12.
abbrev memory : Memory
memory = store32 (4104 + size) 2 (
    store64 (4104 + cmp) 7 (
      store64 (4104 + last) 4240 (
        store64 (4104 + first) 4200 (
          store64 (4240 + value) 12
            (store64 (4200 + next) 4240 (store64 (4200 + value) 11 (λ a. 0)))))))

abbrev cells : List Cell
cells = (4200, 11) ∷ (4240, 12) ∷ []

abbrev state : State
state = record { heap = heap; memory = memory }

cells-IsList : IsList memory 4104 cells
unfolding store64 load64 store32 load32 load_bytes store_bytes
cells-IsList = record {
  real = λ e. omega (arith, e);
  chain = (refl, λ e. omega (arith, e), refl, (refl, λ e. omega (arith, e), refl, refl));
  end = inr refl;
  count = refl;
  separate = ((inr (omega arith), tt), (tt, tt));
  apart = (inr (omega arith), (inr (omega arith), tt));
}

-- The test of one byte behind the stores.
memory_above : (a : ℕ) → (a < 4400) ⊎ (memory a ≡ 0)
memory_above a =
    let m₁ = store64 (4200 + value) 11 (λ b. 0) in
    let m₂ = store64 (4200 + next) 4240 m₁ in
    let m₃ = store64 (4240 + value) 12 m₂ in
    let m₄ = store64 (4104 + first) 4200 m₃ in
    let m₅ = store64 (4104 + last) 4240 m₄ in
    let m₆ = store64 (4104 + cmp) 7 m₅ in
    ground (
      arith,
      store64_outside (4200 + value) 11 (λ b. 0) a,
      store64_outside (4200 + next) 4240 m₁ a,
      store64_outside (4240 + value) 12 m₂ a,
      store64_outside (4104 + first) 4200 m₃ a,
      store64_outside (4104 + last) 4240 m₄ a,
      store64_outside (4104 + cmp) 7 m₅ a,
      store32_outside a (4104 + size) 2 m₆,
    )

cells-IsStored : IsStored 4096 state 4104 cells 2
cells-IsStored = record {
  is_list = cells-IsList;
  list_below = omega arith;
  below = (omega arith, (omega arith, tt));
  clean = memory_above;
  spare = heap-IsSpare (32 * 2) (56 * 2) (omega arith) (omega arith);
  few = omega arith;
}

abbrev operations : List Operation
operations = append 13 ∷ prepend 10 ∷ get 0 ∷ remove 1 ∷ count ∷ []

performed :
    perform_all operations (values cells) ≡ some (0 ∷ 0 ∷ 10 ∷ 11 ∷ 3 ∷ [], 10 ∷ 12 ∷ 13 ∷ [])
unfolding perform_all perform
performed = refl

execute_all-perform_all_example :
    (s' : State) × (cells' : List Cell) × (execute_all 4104 operations state
      ≡ some (0 ∷ 0 ∷ 10 ∷ 11 ∷ 3 ∷ [], s'))
    × IsStored 4096 s' 4104 cells' 0
    × (values cells' ≡ 10 ∷ 12 ∷ 13 ∷ [])
execute_all-perform_all_example =
    execute_all-perform_all 4096 4104 0 operations state cells (0 ∷ 0 ∷ 10 ∷ 11 ∷ 3 ∷ [])
      (10 ∷ 12 ∷ 13 ∷ []) cells-IsStored
      (omega arith, (omega arith, (omega arith, (omega arith, (tt, tt))))) performed

abbrev compare : Compare
compare f m a b = compare_int a b

ioopm_linked_list_contains_lem_example :
    ioopm_linked_list_contains compare 4104 12 state
    ≡ some (any_value (λ v. compare (load64 (4104 + cmp) memory) memory v 12) (values cells), state)
ioopm_linked_list_contains_lem_example =
    ioopm_linked_list_contains_lem state 4104 cells cells-IsList (omega arith) compare 12

remove-last_example :
    (s' : State) × (ioopm_linked_list_remove 4104 1 state ≡ some (12, s'))
    × (load32 (4104 + size) s'.memory ≡ 1)
    × (ioopm_linked_list_get 4104 5 s' ≡ some (12, s'))
remove-last_example =
    remove-last 4096 state 4104 2 [] (4200, 11) (4240, 12) cells-IsStored 5 (omega arith)
      (omega arith)

empty_clean : (a : ℕ) → (a < 4400) ⊎ (◌≡◌ {A = ℕ} 0 0)
empty_clean a = inr refl

ioopm_linked_list_create-IsStored_example :
    (s' : State) × (ioopm_linked_list_create 7 (record { heap = heap; memory = λ a. 0 })
      ≡ some (4400 + 8, s'))
    × IsStored 4096 s' (4400 + 8) [] 3
    × (load64 (4400 + 8 + cmp) s'.memory ≡ 7)
ioopm_linked_list_create-IsStored_example =
    ioopm_linked_list_create-IsStored 4096 (record { heap = heap; memory = λ a. 0 }) 7 3
      (heap-IsSpare (32 * 3 + 44) (56 * 3 + 80) (omega arith) (omega arith)) empty_clean
      (omega arith) (omega arith)

-- An iterator at the first link.
abbrev with_iterator : State
with_iterator = record { heap = heap; memory = store64 (4300 + current) 4200 memory }

at_first : Ahead 4300 (λ e. omega (arith, e)) with_iterator cells
unfolding store64 load64 store32 load32 load_bytes store_bytes
at_first = (
  (refl, λ e. omega (arith, e), refl, (refl, λ e. omega (arith, e), refl, refl)),
  (inl (omega arith), (inl (omega arith), tt)),
  (omega arith, (omega arith, tt)),
)

current-advance_example :
    (s' : State) × (advance 4300 1 with_iterator ≡ some (tt, s'))
    × (ioopm_iterator_current 4300 s' ≡ some (12, s'))
    × ((a : ℕ) → (s'.memory a ≡ with_iterator.memory a) ⊎ ((4300 ≤ a) × (a < 4300 + 8)))
current-advance_example =
    current-advance 4300 (λ e. omega (arith, e)) 1 with_iterator cells (4240, 12) at_first refl
