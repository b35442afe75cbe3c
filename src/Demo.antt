-- ===== src/Demo.antt =====
-- The demo programs of demo/inlupp2, which keep their data on the collected heap: the commands that
-- they are made of. A command runs on the collector's state; `none` is a fault, such as an access
-- through NULL, which is the address 0.
pub mod LinkedList
pub mod Iterator
pub mod Common
pub mod HashTable
pub mod Store
pub mod Fields
use garbagecollector.Base.{
  ℕ, ◌+◌, ◌-◌, ◌*◌, ◌%◌, ◌^◌, Bool, List, if◌then◌else◌, ◌==◌, leb, ltb, Option, none, some,
}
use garbagecollector.Memory.{Memory, load64, store64}
use garbagecollector.Memory.Sized.{load32, store32}
use garbagecollector.Alloc.{State, Run, h_alloc_struct, h_alloc_raw}

abbrev pub Cmd : Type 0 → Type 0
Cmd A = State → Run (A × State)

abbrev pub pure : {A : Type 0} → A → Cmd A
pure a s = some (a, s)

abbrev pub and_then : {A B : Type 0} → Run (A × State) → (A → Cmd B) → Run (B × State)
and_then none k = none
and_then (some (a, s)) k = k a s

infixl 5 ◌>>=◌ ◌>>◌
abbrev pub ◌>>=◌ : {A B : Type 0} → Cmd A → (A → Cmd B) → Cmd B
m >>= k = λ s. and_then (m s) k

abbrev pub ◌>>◌ : {B : Type 0} → Cmd (Unit {0}) → Cmd B → Cmd B
m >> k = m >>= λ _. k

abbrev pub ask : {A : Type 0} → (Memory → A) → Cmd A
ask f s = some (f s.memory, s)

abbrev pub null : ℕ
null = 0

-- `p->field` of 8 and of 4 bytes, by the field's offset
unfoldable pub field64 : ℕ → ℕ → Cmd ℕ
field64 p offset s = if p == null then none else some (load64 (p + offset) s.memory, s)

unfoldable pub field32 : ℕ → ℕ → Cmd ℕ
field32 p offset s = if p == null then none else some (load32 (p + offset) s.memory, s)

-- `p->field = v`
unfoldable pub set_field64 : ℕ → ℕ → ℕ → Cmd (Unit {0})
set_field64 p offset v s =
    if p == null then none else some (tt, record s { memory = store64 (p + offset) v s.memory })

unfoldable pub set_field32 : ℕ → ℕ → ℕ → Cmd (Unit {0})
set_field32 p offset v s =
    if p == null then none else some (tt, record s { memory = store32 (p + offset) v s.memory })

-- `h_alloc_struct`, with NULL for a refusal
unfoldable pub alloc : List ℕ → Cmd ℕ
alloc layout s = elim (h_alloc_struct (some layout) s) [
  | none ↦ none
  | some a ↦ some (elim a.pointer [ none ↦ null | some p ↦ p ], a.state)
]

-- `h_alloc_raw`, in the same way
unfoldable pub alloc_raw : ℕ → Cmd ℕ
alloc_raw bytes s = elim (h_alloc_raw bytes s) [
  | none ↦ none
  | some a ↦ some (elim a.pointer [ none ↦ null | some p ↦ p ], a.state)
]

-- `int`, as the 32 bits that hold it: the sign, `a < b`, `a + 1` and `a - 1`. An overflow, which C
-- leaves undefined, wraps.
abbrev pub is_negative : ℕ → Bool
is_negative a = leb (2 ^ 31) a

abbrev pub int_ltb : ℕ → ℕ → Bool
int_ltb a b = ltb ((a + 2 ^ 31) % 2 ^ 32) ((b + 2 ^ 31) % 2 ^ 32)

abbrev pub int_suc : ℕ → ℕ
int_suc a = (a + 1) % 2 ^ 32

abbrev pub int_pred : ℕ → ℕ
int_pred a = (a + (2 ^ 32 - 1)) % 2 ^ 32

-- `a + b`, `a - b` and `a * b` of `int`s
abbrev pub int_add : ℕ → ℕ → ℕ
int_add a b = (a + b) % 2 ^ 32

abbrev pub int_sub : ℕ → ℕ → ℕ
int_sub a b = (a + (2 ^ 32 - b)) % 2 ^ 32

abbrev pub int_mul : ℕ → ℕ → ℕ
int_mul a b = a * b % 2 ^ 32
