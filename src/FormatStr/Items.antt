-- ===== src/FormatStr/Items.antt =====
-- The grammar of format strings, a list of fields each with an optional repeat count, and what the
-- two passes of `interpreted_format_str` make of it.
use mathlib.Core.List.{append_assoc}
use garbagecollector.Base.{
  ℕ, ◌+◌, ◌-◌, ◌*◌, ◌%◌, ◌^◌, ◌≤◌, ◌<◌, ◌≡◌, refl, sym, ap, ◌⊎◌, true, false, List, [], ◌∷◌, ◌++◌,
  length, arith, some, none, All, replicate, length-append, length-replicate, ◌==◌,
}
use garbagecollector.Utils.{isspace}
use garbagecollector.FormatStr.{
  isdigit, is_layout_char, next_count, size_of_int, count_rounds, add_length, expanded_length,
  expanded_str,
}

-- A field with the digits before it.
pub record Item : Type 0 where
  pub digits : List ℕ
  pub field : ℕ

abbrev pub IsDigit : ℕ → Type 0
IsDigit c = isdigit c ≡ true

abbrev pub IsField : ℕ → Type 0
IsField c = is_layout_char c ≡ true

-- The number that digits stand for, behind a number `n`.
abbrev pub number : ℕ → List ℕ → ℕ
number n [] = n
number n (d ∷ ds) = number (n * 10 + (d - b'0')) ds

-- A repeat count starts with a digit other than 0.
abbrev pub IsCount : List ℕ → Type 0
IsCount [] = Unit
IsCount (d ∷ ds) = IsDigit d × (d == b'0' ≡ false) × All IsDigit ds

abbrev pub repeat_count : List ℕ → ℕ
repeat_count [] = 1
repeat_count (d ∷ ds) = number 0 (d ∷ ds)

-- A field with a count that an `int` can hold.
pub record IsItem (item : Item) : Type 0 where
  pub count : IsCount item.digits
  pub small : repeat_count item.digits < 2 ^ 31
  pub field : IsField item.field

-- The text of a list of items, and the fields that it stands for.
abbrev pub render : List Item → List ℕ
render [] = []
render (item ∷ items) = item.digits ++ (item.field ∷ render items)

abbrev pub fields_of : List Item → List ℕ
fields_of [] = []
fields_of (item ∷ items) = replicate (repeat_count item.digits) item.field ++ fields_of items

pub field_is_no_digit : (c : ℕ) → IsField c → isdigit c ≡ false
unfolding is_layout_char isdigit
field_is_no_digit c h = ground arith

pub field_is_no_zero : (c : ℕ) → IsField c → c == b'0' ≡ false
unfolding is_layout_char
field_is_no_zero c h = ground arith

pub solid_char : (c : ℕ) → (IsDigit c) ⊎ (IsField c) → isspace c ≡ false
unfolding is_layout_char isdigit isspace
solid_char c h = ground arith

pub le-number : (n : ℕ) (ds : List ℕ) → n ≤ number n ds
le-number n [] = omega arith
le-number n (d ∷ ds) = omega (arith, le-number (n * 10 + (d - b'0')) ds)

-- A count that is followed by the digits `ds` does not wrap if all of it is below 2 ^ 31.
pub next_count_lem :
    (n d : ℕ) (ds : List ℕ)
    → number (n * 10 + (d - b'0')) ds < 2 ^ 31
    → next_count n d ≡ n * 10 + (d - b'0')
unfolding next_count
next_count_lem n d ds small = omega (arith, le-number (n * 10 + (d - b'0')) ds)

size_of_int_lem : (n : ℕ) → n < 2 ^ 31 → size_of_int n ≡ n
unfolding size_of_int
size_of_int_lem n small = ground arith

pub count_rounds_lem : (n : ℕ) → n < 2 ^ 31 → count_rounds n ≡ n
unfolding count_rounds
count_rounds_lem n small = ground arith

expanded_length-digits :
    (n : ℕ) (ds : List ℕ) (c : ℕ) (ptr : List ℕ)
    → All IsDigit ds
    → number n ds < 2 ^ 31
    → isdigit c ≡ false
    → expanded_length (ds ++ (c ∷ ptr)) (some n)
      ≡ add_length (number n ds) (expanded_length ptr none)
unfolding expanded_length
expanded_length-digits n [] c ptr h small f = rw (f, size_of_int_lem n small)
expanded_length-digits n (d ∷ ds) c ptr h small f =
    rw (h.0, next_count_lem n d ds small)
      (expanded_length-digits (n * 10 + (d - b'0')) ds c ptr h.1 small f)

expanded_str-digits :
    (n : ℕ) (ds : List ℕ) (c : ℕ) (ptr : List ℕ)
    → All IsDigit ds
    → number n ds < 2 ^ 31
    → IsField c
    → expanded_str (ds ++ (c ∷ ptr)) (some n) ≡ replicate (number n ds) c ++ expanded_str ptr none
unfolding expanded_str
expanded_str-digits n [] c ptr h small f = rw (field_is_no_digit c f, f, count_rounds_lem n small)
expanded_str-digits n (d ∷ ds) c ptr h small f =
    rw (h.0, next_count_lem n d ds small)
      (expanded_str-digits (n * 10 + (d - b'0')) ds c ptr h.1 small f)

-- One item in the first pass, whatever follows.
expanded_length-item :
    (digits : List ℕ) (c : ℕ) (ptr : List ℕ)
    → IsCount digits
    → repeat_count digits < 2 ^ 31
    → IsField c
    → expanded_length (digits ++ (c ∷ ptr)) none
      ≡ add_length (repeat_count digits) (expanded_length ptr none)
unfolding expanded_length
expanded_length-item [] c ptr h small f = rw (field_is_no_zero c f, field_is_no_digit c f, f)
expanded_length-item (d ∷ ds) c ptr (digit, first, rest) small f =
    rw (first, digit, next_count_lem 0 d ds small)
      (expanded_length-digits (0 * 10 + (d - b'0')) ds c ptr rest small (field_is_no_digit c f))

-- The same in the second pass.
expanded_str-item :
    (digits : List ℕ) (c : ℕ) (ptr : List ℕ)
    → IsCount digits
    → repeat_count digits < 2 ^ 31
    → IsField c
    → expanded_str (digits ++ (c ∷ ptr)) none
      ≡ replicate (repeat_count digits) c ++ expanded_str ptr none
unfolding expanded_str
expanded_str-item [] c ptr h small f = rw (field_is_no_digit c f)
expanded_str-item (d ∷ ds) c ptr (digit, first, rest) small f =
    rw (digit, next_count_lem 0 d ds small)
      (expanded_str-digits (0 * 10 + (d - b'0')) ds c ptr rest small f)

-- The first pass over a list of items in front of what adds nothing.
pub expanded_length-render :
    (items : List Item) (ptr : List ℕ)
    → All IsItem items
    → expanded_length ptr none ≡ some 0
    → expanded_length (render items ++ ptr) none ≡ some (length (fields_of items) % 2 ^ 64)
expanded_length-render [] ptr h measured = measured
expanded_length-render (item ∷ items) ptr h measured =
    rw
      (
        append_assoc item.digits (item.field ∷ render items) ptr,
        expanded_length-item item.digits item.field (render items ++ ptr) h.0.count h.0.small
            h.0.field,
        expanded_length-render items ptr h.1 measured,
        length-append (replicate (repeat_count item.digits) item.field) (fields_of items),
        length-replicate (repeat_count item.digits) item.field,
      )
      (ap some (omega arith))

-- The second pass over a list of items and what follows it.
pub expanded_str-render :
    (items : List Item) (ptr : List ℕ)
    → All IsItem items
    → expanded_str (render items ++ ptr) none ≡ fields_of items ++ expanded_str ptr none
expanded_str-render [] ptr h = refl
expanded_str-render (item ∷ items) ptr h =
    rw
      (
        append_assoc item.digits (item.field ∷ render items) ptr,
        expanded_str-item item.digits item.field (render items ++ ptr) h.0.count h.0.small
            h.0.field,
        expanded_str-render items ptr h.1,
      )
      (sym (append_assoc (replicate (repeat_count item.digits) item.field) (fields_of items) _))
