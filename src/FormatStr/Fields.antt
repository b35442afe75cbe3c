-- ===== src/FormatStr/Fields.antt =====
-- What an expanded string is made of, and strings that are expanded already.
use mathlib.Core.Path.{subst}
use garbagecollector.Utils.Trim.{trim_whitespace-IsTrimmed}
use garbagecollector.Base.{
  ◌⊎◌, ℕ, ◌+◌, ◌^◌, ◌<◌, length, ◌≡◌, refl, sym, ap, ◌∙◌, true, false, List, [], ◌∷◌, arith, Option,
  some, none, Bool-cases, Option-cases, All, All-append, All-replicate, replicate, inl, inr,
}
use garbagecollector.FormatStr.{
  Outcome, null, ok, isdigit, is_layout_char, next_count, size_of_int, count_rounds, add_length,
  expanded_length, expanded_str, write_buffer, interpret, interpreted_format_str,
}
use garbagecollector.FormatStr.Items.{Item, IsItem, IsField, render, fields_of}
use garbagecollector.FormatStr.Grammar.{interpreted_format_str-render}

c-IsField : IsField b'c'
unfolding is_layout_char
c-IsField = refl

add_length-eq-some : (n m : ℕ) (o : Option ℕ) → add_length n o ≡ some m → (k : ℕ) × (o ≡ some k)
add_length-eq-some n m none h = cc
add_length-eq-some n m (some k) h = (k, refl)

-- What the first pass has accepted at the first character.
first_accepted :
    (c : ℕ) (ptr : List ℕ) (size : ℕ)
    → expanded_length (c ∷ ptr) none ≡ some size
    → ((isdigit c ≡ true) × (expanded_length ptr (some (next_count 0 c)) ≡ some size))
      ⊎ ((isdigit c ≡ false) × IsField c × (add_length 1 (expanded_length ptr none) ≡ some size))
unfolding expanded_length
first_accepted c ptr size h = ground arith

-- If the first pass accepts a string, the second writes only fields.
expanded_str-fields :
    (str : List ℕ) (repeat_count : Option ℕ) (size : ℕ)
    → expanded_length str repeat_count ≡ some size
    → All IsField (expanded_str str repeat_count)
unfolding expanded_length expanded_str
expanded_str-fields [] none size h = tt
expanded_str-fields [] (some n) size h = All-replicate IsField (count_rounds n) b'c' c-IsField
expanded_str-fields (c ∷ ptr) none size h = elim (first_accepted c ptr size h) [
  | inl (digit, rest) ↦ rw digit (expanded_str-fields ptr (some (next_count 0 c)) size rest)
  | inr (no_digit, field, rest) ↦
      let (k, e) = add_length-eq-some 1 size (expanded_length ptr none) rest in
      rw no_digit (field, expanded_str-fields ptr none k e)
]
expanded_str-fields (c ∷ ptr) (some n) size h = elim (Bool-cases (isdigit c)) [
  | inl digit ↦ rw digit (expanded_str-fields ptr (some (next_count n c)) size (rw digit at h))
  | inr no_digit ↦
      let (k, e) =
        add_length-eq-some (size_of_int n) size (expanded_length ptr none) (rw no_digit at h) in
      let rest = expanded_str-fields ptr none k e in
      elim (Bool-cases (is_layout_char c)) [
        | inl field ↦
            rw (no_digit, field)
              (All-append IsField (replicate (count_rounds n) c) _
                (All-replicate IsField (count_rounds n) c field) rest)
        | inr other ↦ rw (no_digit, other) rest
      ]
]

null≢ok : (s : List ℕ) → null ≡ ok s → ⊥
null≢ok s h = cc

write_buffer-eq-ok :
    (size : ℕ) (written expanded : List ℕ)
    → write_buffer size written ≡ ok expanded
    → written ≡ expanded
unfolding write_buffer
write_buffer-eq-ok size written expanded h = ground arith

interpret-fields :
    (trimmed expanded : List ℕ) → interpret trimmed ≡ ok expanded → All IsField expanded
unfolding interpret
interpret-fields trimmed expanded h = elim (Option-cases (expanded_length trimmed none)) [
  | inl e ↦ absurd (null≢ok expanded (rw (e, interpret) at h))
  | inr (size, e) ↦
      let written = write_buffer-eq-ok size _ expanded (rw (e, interpret) at h) in
      subst (All IsField) written (expanded_str-fields trimmed none size e)
]

-- Whatever string it is given, `interpreted_format_str` returns only characters that are fields.
pub interpreted_format_str-fields :
    (str expanded : List ℕ) → interpreted_format_str str ≡ ok expanded → All IsField expanded
unfolding interpreted_format_str interpret write_buffer
interpreted_format_str-fields str expanded h =
    let (trimmed, e, _) = trim_whitespace-IsTrimmed str in
    interpret-fields trimmed expanded (rw (e, interpreted_format_str) at h)

-- Each character as an item of its own.
plain : List ℕ → List Item
plain [] = []
plain (c ∷ s) = record { digits = []; field = c } ∷ plain s

plain_lem :
    (s : List ℕ)
    → All IsField s
    → All IsItem (plain s) × (render (plain s) ≡ s) × (fields_of (plain s) ≡ s)
unfolding plain
plain_lem [] h = (tt, refl, refl)
plain_lem (c ∷ s) h =
    let (items, text, fields) = plain_lem s h.1 in
    (
      (record { count = tt; small = omega arith; field = h.0 }, items),
      ap (λ t. c ∷ t) text,
      ap (λ t. c ∷ t) fields,
    )

-- A string of fields is expanded to itself.
pub interpreted_format_str_expanded :
    (s : List ℕ) → All IsField s → length s + 1 < 2 ^ 63 → interpreted_format_str s ≡ ok s
interpreted_format_str_expanded s h room =
    let (items, text, fields) = plain_lem s h in
    ap interpreted_format_str (sym text)
    ∙ interpreted_format_str-render (plain s) items (omega (arith, room, ap length fields))
    ∙ ap ok fields

pub ok_inj : (a b : List ℕ) → ok a ≡ ok b → a ≡ b
ok_inj a b e = ap (λ (o : Outcome). elim o [ ok x ↦ x | _ ↦ a ]) e
