-- ===== src/FormatStr/Grammar.antt =====
-- `interpreted_format_str` on strings that follow the grammar, and on those that end in a count.
use mathlib.Core.List.{append-nil}
use garbagecollector.Base.{
  ℕ, ◌+◌, ◌-◌, ◌*◌, ◌%◌, ◌^◌, ◌≤◌, ◌<◌, ◌≡◌, refl, sym, ap, ◌∙◌, false, List, [], ◌∷◌, ◌++◌, length,
  arith, some, none, All, All-append, replicate, length-append, length-replicate, ◌==◌, inl, inr,
  ◌⊎◌,
}
use garbagecollector.Utils.{isspace}
use garbagecollector.Utils.Trim.{trim_whitespace_solid}
use garbagecollector.FormatStr.{
  fault, ok, isdigit, next_count, expanded_length, expanded_str, write_buffer, interpret,
  interpreted_format_str,
}
use garbagecollector.FormatStr.Items.{
  Item, IsItem, IsDigit, IsCount, number, repeat_count, le-number, next_count_lem, count_rounds_lem,
  render, fields_of, expanded_length-render, expanded_str-render, solid_char,
}

abbrev IsSolid : ℕ → Type 0
IsSolid c = isspace c ≡ false

digits-IsSolid : (ds : List ℕ) → All IsDigit ds → All IsSolid ds
digits-IsSolid [] h = tt
digits-IsSolid (d ∷ ds) h = (solid_char d (inl h.0), digits-IsSolid ds h.1)

count-IsSolid : (ds : List ℕ) → IsCount ds → All IsSolid ds
count-IsSolid [] h = tt
count-IsSolid (d ∷ ds) h = (solid_char d (inl h.0), digits-IsSolid ds h.2)

render-IsSolid : (items : List Item) → All IsItem items → All IsSolid (render items)
render-IsSolid [] h = tt
render-IsSolid (item ∷ items) h =
    All-append IsSolid item.digits (item.field ∷ render items) (count-IsSolid item.digits h.0.count)
      (solid_char item.field (inr h.0.field), render-IsSolid items h.1)

-- The whole function on a string without spaces, given what the two passes do.
interpreted_format_str_passes :
    (str written : List ℕ) (size : ℕ)
    → All IsSolid str
    → expanded_length str none ≡ some size
    → expanded_str str none ≡ written
    → interpreted_format_str str ≡ write_buffer size written
unfolding interpreted_format_str interpret
interpreted_format_str_passes str written size solid measured expanded =
    rw (trim_whitespace_solid str solid, interpreted_format_str)
      (rw (measured, interpret) (ap (write_buffer size) expanded))

-- The same for items and what follows them.
interpreted_format_str-append :
    (items : List Item) (ptr written : List ℕ)
    → All IsItem items
    → All IsSolid ptr
    → expanded_length ptr none ≡ some 0
    → expanded_str ptr none ≡ written
    → interpreted_format_str (render items ++ ptr)
      ≡ write_buffer (length (fields_of items) % 2 ^ 64) (fields_of items ++ written)
interpreted_format_str-append items ptr written h solid measured expanded =
    interpreted_format_str_passes (render items ++ ptr) (fields_of items ++ written)
      (length (fields_of items) % 2 ^ 64)
      (All-append IsSolid (render items) ptr (render-IsSolid items h) solid)
      (expanded_length-render items ptr h measured)
      (expanded_str-render items ptr h ∙ ap (λ t. fields_of items ++ t) expanded)

-- Where `malloc` grants the buffer, all depends on whether what is written is longer.
write_buffer-small :
    (size : ℕ) (written : List ℕ)
    → size + 1 < 2 ^ 63
    → ((length written ≤ size) × (write_buffer (size % 2 ^ 64) written ≡ ok written))
      ⊎ ((size < length written) × (write_buffer (size % 2 ^ 64) written ≡ fault))
unfolding write_buffer
write_buffer-small size written small =
    let e : (size % 2 ^ 64 + 1) % 2 ^ 64 ≡ size + 1 = omega (arith, small) in
    rw e (ground (arith, small))

-- A format string that follows the grammar (fields with optional repeat counts that do not start
-- with 0 and are below 2 ^ 31), with less than 2 ^ 63 - 1 fields in all, expands to its fields,
-- each as often as its count says, and the buffer allocated for them is large enough.
pub interpreted_format_str-render :
    (items : List Item)
    → All IsItem items
    → length (fields_of items) + 1 < 2 ^ 63
    → interpreted_format_str (render items) ≡ ok (fields_of items)
unfolding expanded_length expanded_str
interpreted_format_str-render items h room =
    ap interpreted_format_str (sym (append-nil (render items)))
    ∙ interpreted_format_str-append items [] [] h tt refl refl
    ∙ rw (append-nil (fields_of items))
        (elim (write_buffer-small (length (fields_of items)) (fields_of items) room) [
          | inl (_, e) ↦ e
          | inr (more, _) ↦ absurd (omega (arith, more))
        ])

expanded_length_open_count :
    (n : ℕ) (ds : List ℕ) → All IsDigit ds → expanded_length ds (some n) ≡ some 0
unfolding expanded_length
expanded_length_open_count n [] h = refl
expanded_length_open_count n (d ∷ ds) h =
    rw h.0 (expanded_length_open_count (next_count n d) ds h.1)

expanded_str_open_count :
    (n : ℕ) (ds : List ℕ)
    → All IsDigit ds
    → number n ds < 2 ^ 31
    → expanded_str ds (some n) ≡ replicate (number n ds) b'c'
unfolding expanded_str
expanded_str_open_count n [] h small = rw (count_rounds_lem n small)
expanded_str_open_count n (d ∷ ds) h small =
    rw (h.0, next_count_lem n d ds small)
      (expanded_str_open_count (n * 10 + (d - b'0')) ds h.1 small)

first_digit_pos : (d : ℕ) → IsDigit d → d == b'0' ≡ false → 0 < 0 * 10 + (d - b'0')
unfolding isdigit
first_digit_pos d h e = ground arith

-- A format string that ends in a repeat count with no field behind it makes
-- `interpreted_format_str` write behind its buffer: the first pass allows no byte for it, and the
-- second writes that many. All counts are below 2 ^ 31 and do not start with 0, and less than 2 ^
-- 63 - 1 fields stand before the last count.
pub interpreted_format_str-trailing_count :
    (items : List Item) (d : ℕ) (ds : List ℕ)
    → All IsItem items
    → length (fields_of items) + 1 < 2 ^ 63
    → IsCount (d ∷ ds)
    → repeat_count (d ∷ ds) < 2 ^ 31
    → interpreted_format_str (render items ++ (d ∷ ds)) ≡ fault
unfolding expanded_length expanded_str
interpreted_format_str-trailing_count items d ds h room (digit, first, rest) small =
    let n = number (0 * 10 + (d - b'0')) ds in
    interpreted_format_str-append items (d ∷ ds) (replicate n b'c') h
      (digits-IsSolid (d ∷ ds) (digit, rest))
      (rw (first, digit) (expanded_length_open_count _ ds rest))
      (rw (digit, next_count_lem 0 d ds small) (expanded_str_open_count _ ds rest small))
    ∙ elim (write_buffer-small (length (fields_of items)) (fields_of items ++ replicate n b'c')
        room) [
          | inl (few, _) ↦ absurd (
              omega (
                arith,
                few,
                length-append (fields_of items) (replicate n b'c'),
                length-replicate {A = ℕ} n b'c',
                le-number (0 * 10 + (d - b'0')) ds,
                first_digit_pos d digit first,
              ))
          | inr (_, e) ↦ e
        ]
