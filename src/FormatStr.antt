-- ===== src/FormatStr.antt =====
-- src/header/format_str.c: format strings such as "3i*", expanded to one character for each field.
-- A C string is the list of its bytes before the terminator. `malloc` gives NULL for more than
-- 2 ^ 63 - 1 bytes (PTRDIFF_MAX) and does not fail otherwise. A repeat count is the 32 bits of its
-- `int`, which wrap (`int` overflow is undefined in C), and `expanded_length` is a `size_t`.
pub mod Items
pub mod Grammar
pub mod Fields
use garbagecollector.Base.{
  ℕ, zero, suc, ◌+◌, ◌-◌, ◌*◌, ◌%◌, ◌^◌, Bool, ◌&&◌, ◌||◌, not, List, [], ◌∷◌, ◌++◌, ◌==◌, leb, ltb,
  length, replicate, if◌then◌else◌, Option, none, some,
}
use garbagecollector.Utils.{trim_whitespace}

-- The outcome of a function that returns a new string: NULL, a string, or a write behind the end
-- of the buffer, which C leaves undefined.
pub data Outcome : Type 0 where
  null fault : Outcome
  ok : List ℕ → Outcome

-- The C library's `isdigit`.
unfoldable pub isdigit : ℕ → Bool
isdigit c = leb b'0' c && leb c b'9'

unfoldable pub is_layout_char : ℕ → Bool
is_layout_char c = c == b'i' || c == b'c' || c == b'd' || c == b'l' || c == b'*' || c == b'f'

-- `repeat_count * 10 + (*ptr - '0')`, an `int`.
unfoldable pub next_count : ℕ → ℕ → ℕ
next_count repeat_count c = (repeat_count * 10 + (c - b'0')) % 2 ^ 32

-- An `int` as a `size_t`: a negative one has the upper bits set.
unfoldable pub size_of_int : ℕ → ℕ
size_of_int repeat_count =
    if ltb repeat_count (2 ^ 31) then repeat_count else repeat_count + (2 ^ 64 - 2 ^ 32)

-- The rounds of `for (int i = 0; i < repeat_count; i++)`: none for a negative count.
unfoldable pub count_rounds : ℕ → ℕ
count_rounds repeat_count = if ltb repeat_count (2 ^ 31) then repeat_count else 0

-- `expanded_length` grows by `n`, where the rest of the pass is not `return NULL`.
abbrev pub add_length : ℕ → Option ℕ → Option ℕ
add_length n none = none
add_length n (some m) = some ((n + m) % 2 ^ 64)

-- Step one of `interpreted_format_str`: the length of the buffer, or `none` for `return NULL`. The
-- second argument is `repeat_count` while a number is read.
unfoldable pub expanded_length : List ℕ → Option ℕ → Option ℕ
expanded_length [] repeat_count = some 0
expanded_length (c ∷ ptr) none =
    let number = expanded_length ptr (some (next_count 0 c)) in
    let field = add_length 1 (expanded_length ptr none) in
    if c == b'0'
    then none
    else if not (isdigit c) && not (is_layout_char c)
    then none
    else if isdigit c
    then number
    else field
expanded_length (c ∷ ptr) (some repeat_count) =
    let number = expanded_length ptr (some (next_count repeat_count c)) in
    let fields = add_length (size_of_int repeat_count) (expanded_length ptr none) in
    if isdigit c then number else fields

-- The second pass: what is written through `write_ptr`.
unfoldable pub expanded_str : List ℕ → Option ℕ → List ℕ
expanded_str [] none = []
expanded_str [] (some repeat_count) = replicate (count_rounds repeat_count) b'c'
expanded_str (c ∷ ptr) none =
    let number = expanded_str ptr (some (next_count 0 c)) in
    let field = c ∷ expanded_str ptr none in if isdigit c then number else field
expanded_str (c ∷ ptr) (some repeat_count) =
    let number = expanded_str ptr (some (next_count repeat_count c)) in
    let rest = expanded_str ptr none in
    if isdigit c
    then number
    else if is_layout_char c
    then replicate (count_rounds repeat_count) c ++ rest
    else rest

-- The writes into the buffer of `expanded_length + 1` bytes, the terminator last; NULL where
-- `malloc` refuses so many.
unfoldable pub write_buffer : ℕ → List ℕ → Outcome
write_buffer expanded_length written =
    let bytes = (expanded_length + 1) % 2 ^ 64 in
    if leb (2 ^ 63) bytes then null else if ltb (length written) bytes then ok written else fault

-- The two passes over the trimmed string.
unfoldable pub interpret : List ℕ → Outcome
interpret trimmed_str = elim (expanded_length trimmed_str none) [
  | none ↦ null
  | some size ↦ write_buffer size (expanded_str trimmed_str none)
]

unfoldable pub interpreted_format_str : List ℕ → Outcome
interpreted_format_str str = elim (trim_whitespace (some str)) [
  | none ↦ null
  | some trimmed_str ↦ interpret trimmed_str
]

-- The struct `format_str` has the expanded string as its one field.
unfoldable pub create_format_str : Option (List ℕ) → Outcome
create_format_str none = null
create_format_str (some str) = interpreted_format_str str

-- The bytes of one field: its INTERPRETED_SIZE times 4.
abbrev pub field_bytes : ℕ → ℕ
field_bytes c =
    if c == b'*'
    then 2 * 4
    else if c == b'c'
    then 1 * 4
    else if c == b'i'
    then 1 * 4
    else if c == b'l'
    then 2 * 4
    else if c == b'f'
    then 1 * 4
    else if c == b'd'
    then 2 * 4
    else 0

unfoldable pub format_str_bytes : List ℕ → ℕ
format_str_bytes [] = 0
format_str_bytes (c ∷ string) = field_bytes c + format_str_bytes string
