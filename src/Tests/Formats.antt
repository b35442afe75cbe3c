-- ===== src/Tests/Formats.antt =====
-- Format strings and bit vectors at concrete inputs.
use garbagecollector.Base.{ℕ, ◌≤◌, ◌≡◌, refl, arith, List, [], ◌∷◌, some, All}
use garbagecollector.Utils.{isspace, trim_whitespace, trim_end, skip_spaces, last_kept}
use garbagecollector.Utils.Trim.{IsTrimmed, trim_whitespace-IsTrimmed}
use garbagecollector.FormatStr.{
  fault, ok, isdigit, is_layout_char, interpreted_format_str, create_format_str, format_str_bytes,
  null, expanded_length, expanded_str, write_buffer, interpret, next_count, size_of_int,
  count_rounds,
}
use garbagecollector.FormatStr.Items.{Item, IsItem, IsField, IsCount}
use garbagecollector.FormatStr.Grammar.{
  interpreted_format_str-render, interpreted_format_str-trailing_count,
}
use garbagecollector.FormatStr.Fields.{interpreted_format_str-fields}
use garbagecollector.BitVector.{to_bit_vector, required_bits, bit_vector_to_format_string}
use garbagecollector.BitVector.RoundTrip.{bit_vector_to_format_string-to_bit_vector}

-- "2i*", as two items
abbrev items : List Item
items = record { digits = b'2' ∷ []; field = b'i' } ∷ record { digits = []; field = b'*' } ∷ []

items-IsItem : All IsItem items
unfolding isdigit is_layout_char
items-IsItem = (
  record { count = (refl, refl, tt); small = omega arith; field = refl },
  (record { count = tt; small = omega arith; field = refl }, tt),
)

interpreted_format_str-render_example :
    interpreted_format_str (b'2' ∷ b'i' ∷ b'*' ∷ []) ≡ ok (b'i' ∷ b'i' ∷ b'*' ∷ [])
interpreted_format_str-render_example =
    interpreted_format_str-render items items-IsItem (omega arith)

ten-IsCount : IsCount (b'1' ∷ b'0' ∷ [])
unfolding isdigit
ten-IsCount = (refl, refl, (refl, tt))

interpreted_format_str-trailing_count_example :
    interpreted_format_str (b'2' ∷ b'i' ∷ b'*' ∷ b'1' ∷ b'0' ∷ []) ≡ fault
interpreted_format_str-trailing_count_example =
    interpreted_format_str-trailing_count items b'1' (b'0' ∷ []) items-IsItem (omega arith)
      ten-IsCount (omega arith)

program : Unit {0}
unfolding isspace trim_whitespace trim_end skip_spaces last_kept isdigit is_layout_char
    interpreted_format_str interpret expanded_length expanded_str write_buffer create_format_str
    format_str_bytes required_bits next_count size_of_int count_rounds
program = tt

interpreted_format_str-fields_example : All IsField (b'c' ∷ b'c' ∷ b'd' ∷ [])
interpreted_format_str-fields_example =
    interpreted_format_str-fields (b' ' ∷ b'2' ∷ b'c' ∷ b'd' ∷ []) (b'c' ∷ b'c' ∷ b'd' ∷ [])
      (unfold program in refl)

trim_whitespace-IsTrimmed_example :
    (trimmed : List ℕ) × (trim_whitespace (some (b' ' ∷ b'i' ∷ b' ' ∷ [])) ≡ some trimmed)
    × IsTrimmed (b' ' ∷ b'i' ∷ b' ' ∷ []) trimmed
trim_whitespace-IsTrimmed_example = trim_whitespace-IsTrimmed (b' ' ∷ b'i' ∷ b' ' ∷ [])

-- "*dc", expanded
abbrev fields : List ℕ
fields = b'*' ∷ b'd' ∷ b'c' ∷ []

fields-IsField : All IsField fields
unfolding is_layout_char
fields-IsField = (refl, (refl, (refl, tt)))

fields-fit : required_bits fields ≤ 54
unfolding required_bits
fields-fit = omega arith

bit_vector_to_format_string-to_bit_vector_example :
    bit_vector_to_format_string (to_bit_vector fields).bit_vector
    ≡ ok (b'*' ∷ b'i' ∷ b'i' ∷ b'i' ∷ [])
bit_vector_to_format_string-to_bit_vector_example =
    bit_vector_to_format_string-to_bit_vector b'*' (b'd' ∷ b'c' ∷ []) fields-IsField fields-fit

-- "1000000000000*": the count wraps to a negative `int`, and `malloc` refuses the buffer.
huge_count :
    interpreted_format_str (
      b'1' ∷ b'0' ∷ b'0' ∷ b'0' ∷ b'0' ∷ b'0' ∷ b'0' ∷ b'0' ∷ b'0' ∷ b'0' ∷ b'0' ∷ b'0' ∷ b'0'
      ∷ b'*' ∷ [])
    ≡ null
unfolding isspace trim_whitespace trim_end skip_spaces last_kept isdigit is_layout_char
    interpreted_format_str interpret expanded_length expanded_str write_buffer next_count
    size_of_int count_rounds
huge_count = refl
