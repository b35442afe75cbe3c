-- ===== src/Utils.antt =====
-- src/utils.c: the trimming of strings for the format strings. A C string is the list of its
-- bytes before the terminator, `none` is NULL, and `malloc` does not fail.
pub mod Trim
use garbagecollector.Base.{
  ℕ, zero, suc, ◌+◌, ◌-◌, take, length, Bool, ◌||◌, ◌&&◌, List, [], ◌∷◌, ◌==◌, leb, if◌then◌else◌,
  Option, none, some,
}

-- The C library's `isspace` in the C locale.
unfoldable pub isspace : ℕ → Bool
isspace c = c == 32 || leb 9 c && leb c 13

-- `while (isspace(*start)) start++;`
unfoldable pub skip_spaces : List ℕ → List ℕ
skip_spaces [] = []
skip_spaces (c ∷ s) = let rest = skip_spaces s in if isspace c then rest else c ∷ s

-- A read inside a string; 0 stands for the terminator.
abbrev pub char_or_nul : List ℕ → ℕ → ℕ
char_or_nul [] i = 0
char_or_nul (c ∷ s) zero = c
char_or_nul (c ∷ s) (suc i) = char_or_nul s i

-- `while (end > start && isspace(*end)) end--;`, with `end` as an index from `start`.
unfoldable pub last_kept : List ℕ → ℕ → ℕ
last_kept start zero = zero
last_kept start (suc e) =
    let earlier = last_kept start e in
    if isspace (char_or_nul start (suc e)) then earlier else suc e

-- The rest of `trim_whitespace`, once the leading space is skipped.
unfoldable pub trim_end : List ℕ → List ℕ
trim_end [] = []
trim_end start =
    let end = last_kept start (length start - 1) in
    let trimmed_length = end + 1 in take trimmed_length start

unfoldable pub trim_whitespace : Option (List ℕ) → Option (List ℕ)
trim_whitespace none = none
trim_whitespace (some str) = some (trim_end (skip_spaces str))

-- The copying loop of `remove_all_spaces`.
unfoldable pub remove_all_spaces : List ℕ → List ℕ
remove_all_spaces [] = []
remove_all_spaces (c ∷ s) = let rest = remove_all_spaces s in if isspace c then rest else c ∷ rest
