-- ===== src/Demo/Common.antt =====
-- demo/inlupp2/common.c: the functions that compare and hash elements, and `h_strdup`.
--
-- An element is the 8 bytes of the union: a number is its low 4, a boolean its lowest, which is 0 or 1.
-- A function that runs to the end of a string takes fuel, one for each character; without a
-- terminator within the fuel it is a fault.
pub mod Hash
use garbagecollector.Base.{
  ℕ, zero, suc, ◌+◌, ◌-◌, ◌*◌, ◌%◌, ◌^◌, Bool, true, false, Option, none, some, if◌then◌else◌, ◌==◌,
  leb,
}
use garbagecollector.Memory.{Memory, load64}
use garbagecollector.Memory.Sized.{load32}
use garbagecollector.Alloc.{State, Run, h_alloc_raw}
use garbagecollector.Demo.{Cmd, pure, ◌>>=◌, ◌>>◌, null, is_negative}

abbrev pub number : ℕ → ℕ
number element = element % 2 ^ 32

unfoldable pub compare_int : ℕ → ℕ → Bool
compare_int value1 value2 = number value1 == number value2

unfoldable pub compare_bool : ℕ → ℕ → Bool
compare_bool value1 value2 = value1 % 2 ^ 8 == value2 % 2 ^ 8

-- `strcmp(a, b) == 0`
unfoldable pub equal_strings : ℕ → Memory → ℕ → ℕ → Run Bool
equal_strings zero m a b = none
equal_strings (suc fuel) m a b =
    let rest = equal_strings fuel m (a + 1) (b + 1) in
    if m a == m b then (if m a == 0 then some true else rest) else some false

-- More characters than any string of the address space has.
abbrev pub string_fuel : ℕ
string_fuel = 2 ^ 64

unfoldable pub compare_string : ℕ → ℕ → Cmd Bool
compare_string value1 value2 s = elim (equal_strings string_fuel s.memory value1 value2) [
  | none ↦ none
  | some b ↦ some (b, s)
]

-- `%` of two `int`s, the second one positive: the result has the sign of the first.
abbrev pub int_rem : ℕ → ℕ → ℕ
int_rem a b = if is_negative a then (2 ^ 32 - (2 ^ 32 - a) % b) % 2 ^ 32 else a % b

unfoldable pub hash_int : ℕ → ℕ → ℕ
hash_int key capacity =
    let index = int_rem (number key) capacity in
    if is_negative index then (index + capacity) % 2 ^ 32 else index

-- A `char` as an `int`.
abbrev pub char_int : ℕ → ℕ
char_int c = if leb 128 c then 2 ^ 32 + c - 256 else c

abbrev pub abs : ℕ → ℕ
abs a = if is_negative a then (2 ^ 32 - a) % 2 ^ 32 else a

-- The first character is added without a look at it.
unfoldable pub sum_loop : ℕ → Memory → ℕ → ℕ → Run ℕ
sum_loop zero m str result = none
sum_loop (suc fuel) m str result =
    let result = (result + char_int (m str)) % 2 ^ 32 in
    let rest = sum_loop fuel m (str + 1) result in if m (str + 1) == 0 then some result else rest

unfoldable pub hash_string_sum : Memory → ℕ → ℕ → Run ℕ
hash_string_sum m key capacity = elim (sum_loop string_fuel m key 0) [
  | none ↦ none
  | some result ↦ some (int_rem (abs result) capacity)
]

-- The characters of 4 bytes.
unfoldable pub sum_long_loop : ℕ → Memory → ℕ → ℕ → Run ℕ
sum_long_loop zero m str result = none
sum_long_loop (suc fuel) m str result =
    let result = (result + load32 str m) % 2 ^ 32 in
    let rest = sum_long_loop fuel m (str + 4) result in
    if load32 (str + 4) m == 0 then some result else rest

unfoldable pub hash_string_sum_long : Memory → ℕ → ℕ → Run ℕ
hash_string_sum_long m key capacity = elim (sum_long_loop string_fuel m key 0) [
  | none ↦ none
  | some result ↦ some (int_rem result capacity)
]

unfoldable pub equal_strings_long : ℕ → Memory → ℕ → ℕ → Run Bool
equal_strings_long zero m a b = none
equal_strings_long (suc fuel) m a b =
    let rest = equal_strings_long fuel m (a + 4) (b + 4) in
    if load32 a m == load32 b m then (if load32 a m == 0 then some true else rest) else some false

unfoldable pub compare_string_long : ℕ → ℕ → Cmd Bool
compare_string_long value1 value2 s = elim (equal_strings_long string_fuel s.memory value1 value2) [
  | none ↦ none
  | some b ↦ some (b, s)
]

unfoldable pub value_equiv : (ℕ → ℕ → Cmd Bool) → ℕ → ℕ → Cmd Bool
value_equiv cmp value x s = cmp value (load64 x s.memory) s

unfoldable pub string_length : ℕ → Memory → ℕ → Run ℕ
string_length zero m str = none
string_length (suc fuel) m str =
    let rest = string_length fuel m (str + 1) in
    if m str == 0 then some 0 else elim rest [ none ↦ none | some n ↦ some (n + 1) ]

-- `strcpy` of a string of `n` bytes, the terminator included.
unfoldable pub copy_bytes : ℕ → ℕ → ℕ → Memory → Memory
copy_bytes zero to from m = m
copy_bytes (suc n) to from m =
    copy_bytes n (to + 1) (from + 1) (λ a. if a == to then m from else m a)

unfoldable pub h_strdup : ℕ → Cmd ℕ
h_strdup str s = elim (string_length string_fuel s.memory str) [
  | none ↦ none
  | some n ↦ elim (h_alloc_raw (n + 1) s) [
    | none ↦ none
    | some a ↦ elim a.pointer [
      | none ↦ some (null, a.state)
      | some p ↦ some (p, record a.state { memory = copy_bytes (n + 1) p str a.state.memory })
    ]
  ]
]
