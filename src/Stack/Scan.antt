-- ===== src/Stack/Scan.antt =====
-- The roots that the scan of the stack finds.
use garbagecollector.Base.{
  ℕ, zero, suc, ◌+◌, ◌-◌, ◌*◌, ◌/◌, ◌≤◌, max, min, ◌≡◌, ◌≢◌, refl, ap, ◌∙◌, sym, Bool, true, false,
  ◌&&◌, List, [], ◌∷◌, ◌++◌, length, length-append, ltb, leb, some, if◌then◌else◌, All, arith, inl,
  inr, Bool-cases,
}
use mathlib.Core.List.{append_assoc, append-nil}
use garbagecollector.Memory.{Memory, load64}
use garbagecollector.Heap.{Heap}
use garbagecollector.Heap.Shape.{IsHeap}
use garbagecollector.AllocMap.Laws.{marked}
use garbagecollector.AllocMap.Validate.{validate_ptr-eq}
use garbagecollector.Alloc.{Run}
use garbagecollector.Stack.{Roots, push_root, scan_word, scan, root_ptrs, pointer_check_vaild}

-- There is room in the array, or it can be doubled.
abbrev HasRoom : Roots → Type 0
HasRoom r = (1 ≤ r.capacity) × (length r.pointers ≤ r.capacity)

push_root_lem :
    (r : Roots) (current : ℕ)
    → HasRoom r
    → (r' : Roots) × (push_root r current ≡ some r')
      × (r'.pointers ≡ r.pointers ++ current ∷ [])
      × HasRoom r'
unfolding push_root
push_root_lem r current room =
    let found = length r.pointers in
    let capacity : ℕ = if leb r.capacity found then r.capacity * 2 else r.capacity in
    let e : ltb found capacity ≡ true = ground (arith, room.0, room.1) in
    (
      record { capacity = capacity; pointers = r.pointers ++ current ∷ [] },
      rw (push_root, e) refl,
      refl,
      (
        ground (arith, room.0),
        ground (arith, room.0, room.1, length-append r.pointers (current ∷ [])),
      ),
    )

-- The addresses that the scan visits.
abbrev pub slots : ℕ → ℕ → List ℕ
slots current zero = []
slots current (suc left) = current ∷ slots (current - 8) left

-- Every eighth address from the higher bound of the stack down, above the lower one.
unfoldable pub stack_slots : ℕ → ℕ → List ℕ
stack_slots a b = slots (max a b) ((max a b - min a b + 7) / 8)

abbrev pub filter : (ℕ → Bool) → List ℕ → List ℕ
filter p [] = []
filter p (x ∷ xs) = if p x then x ∷ filter p xs else filter p xs

-- The word at an address is a pointer into the heap whose bit of the map is set.
unfoldable pub holds_pointer : ℕ → Heap → Memory → ℕ → Bool
holds_pointer start h memory a =
    let word = load64 a memory in
    leb start word && ltb word (start + h.size) && marked h.alloc_map ((word - start) / 16)

-- Both settings of `unsafe_stack` keep the root.
either_way :
    (b : Bool) (run : Run Roots) (r : Roots)
    → run ≡ some r
    → elim b [ false ↦ run | true ↦ run ] ≡ some r
either_way true run r e = e
either_way false run r e = e

module _ (start : ℕ) (h : Heap) (ok : IsHeap start h) (memory : Memory) where
  scan_word_lem :
      (current : ℕ) (r : Roots)
      → load64 current memory ≢ start + h.size
      → HasRoom r
      → (r' : Roots) × (scan_word h memory current r ≡ some r')
        × (r'.pointers ≡ (
            if holds_pointer start h memory current
            then r.pointers ++ current ∷ []
            else r.pointers))
        × HasRoom r'
  unfolding scan_word holds_pointer pointer_check_vaild
  scan_word_lem current r inside room =
      let valid = validate_ptr-eq start h ok (load64 current memory) inside in
      elim (Bool-cases (holds_pointer start h memory current)) [
        | inr e ↦ (r, rw (scan_word, valid) (rw e refl), rw e refl, room)
        | inl e ↦
            let (r', pushed, eq, room') = push_root_lem r current room in
            (
              r',
              rw (scan_word, valid)
                  (rw (e) (either_way h.unsafe_stack (push_root r current) r' pushed)),
              rw e eq,
              room',
            )
      ]

  scan_lem :
      (left current : ℕ) (r : Roots)
      → All (λ a. load64 a memory ≢ start + h.size) (slots current left)
      → HasRoom r
      → (r' : Roots) × (scan h memory left current r ≡ some r')
        × (r'.pointers ≡ r.pointers ++ filter (holds_pointer start h memory) (slots current left))
  unfolding scan
  scan_lem zero current r inside room = (r, refl, sym (append-nil r.pointers))
  scan_lem (suc left) current r inside room =
      let (r', done, eq, room') = scan_word_lem current r inside.0 room in
      let (r'', done', eq') = scan_lem left (current - 8) r' inside.1 room' in
      let rest = filter (holds_pointer start h memory) (slots (current - 8) left) in
      (
        r'',
        rw (scan, done) done',
        elim (Bool-cases (holds_pointer start h memory current)) [
          | inl e ↦ rw e (
              eq'
              ∙ ap (λ (t : List ℕ). t ++ rest)
                  (eq ∙ ap (λ (b : Bool). if b then r.pointers ++ current ∷ [] else r.pointers) e)
              ∙ append_assoc r.pointers (current ∷ []) rest)
          | inr e ↦ rw e (
              eq'
              ∙ ap (λ (t : List ℕ). t ++ rest)
                  (eq ∙ ap (λ (b : Bool). if b then r.pointers ++ current ∷ [] else r.pointers) e))
        ],
      )

  -- On a heap of the right shape, if no word of the stack is the address of the end of the heap,
  -- the scan runs without a fault, never writes behind its array, and finds exactly the slots that
  -- hold a pointer to a marked address of the heap, from the higher bound down.
  pub root_ptrs_lem :
      (stack_top stack_bottom : ℕ)
      → All (λ a. load64 a memory ≢ start + h.size) (stack_slots stack_top stack_bottom)
      → (r : Roots) × (root_ptrs h memory stack_top stack_bottom ≡ some r)
        × (r.pointers ≡ filter (holds_pointer start h memory) (stack_slots stack_top stack_bottom))
  unfolding root_ptrs stack_slots
  root_ptrs_lem stack_top stack_bottom inside =
      let a = stack_top in
      let b = stack_bottom in
      let higher : (if ltb a b then b else a) ≡ max a b = ground arith in
      let lower : (if ltb a b then a else b) ≡ min a b = ground arith in
      rw (root_ptrs, higher, lower)
        (scan_lem ((max a b - min a b + 7) / 8) (max a b) (record { capacity = 128; pointers = [] })
          inside (omega arith, omega arith))
