-- ===== src/BitVector/RoundTrip.antt =====
-- `bit_vector_to_format_string` after `to_bit_vector`: what the collector allocates when it moves a
-- structure.
use garbagecollector.Base.{
  ℕ, zero, suc, ◌+◌, ◌/◌, ◌≤◌, ◌<◌, ◌≡◌, refl, ap, ◌∙◌, Bool, true, false, List, [], ◌∷◌, length,
  arith, some, length-append, All, if◌then◌else◌, leb,
}
use garbagecollector.Word.{is_nonzero}
use garbagecollector.BitManip.{get_bit_at_index_from_msb}
use garbagecollector.FormatStr.{ok, fault, format_str_bytes, create_format_str, is_layout_char}
use garbagecollector.FormatStr.Items.{IsField}
use garbagecollector.FormatStr.Fields.{interpreted_format_str_expanded}
use garbagecollector.BitVector.{
  required_bits, to_bit_vector, get_layout_bits_field, decode_loop, bit_vector_to_format_string,
}
use garbagecollector.BitVector.Layout.{
  layout_of, bytes_of, nth, length-le-bytes_of, field_bits, length-field_bits_pos,
  format_str_bytes-layout_of,
}
use garbagecollector.BitVector.Encode.{
  vector, layout-short, get_size_bits_field-to_bit_vector, layout_field-to_bit_vector,
}

-- A format string with the same pointers, and with one 'i' for each 4 bytes of other data.
abbrev pub char_of : Bool → ℕ
char_of b = if b then b'*' else b'i'

abbrev pub chars_of : List Bool → List ℕ
chars_of [] = []
chars_of (b ∷ bs) = char_of b ∷ chars_of bs

abbrev pub normalise : List ℕ → List ℕ
normalise s = chars_of (layout_of s)

length-chars_of : (bs : List Bool) → length (chars_of bs) ≡ length bs
length-chars_of [] = refl
length-chars_of (b ∷ bs) = ap suc (length-chars_of bs)

chars_of-fields : (bs : List Bool) → All IsField (chars_of bs)
unfolding is_layout_char
chars_of-fields [] = tt
chars_of-fields (true ∷ bs) = (refl, chars_of-fields bs)
chars_of-fields (false ∷ bs) = (refl, chars_of-fields bs)

decode_loop_round :
    (layout_bits size : ℕ) (b : Bool) (i left accumulated : ℕ)
    → is_nonzero (get_bit_at_index_from_msb layout_bits i) ≡ b
    → let accumulated' : ℕ = accumulated + (if b then 8 else 4) in
      decode_loop layout_bits size i (suc left) accumulated
      ≡ char_of b
        ∷ (if leb size accumulated'
            then []
            else decode_loop layout_bits size (i + 1) left accumulated')
unfolding decode_loop
decode_loop_round layout_bits size true i left accumulated now = rw now
decode_loop_round layout_bits size false i left accumulated now = rw now

shifted : (i k : ℕ) → i + 1 + k ≡ i + suc k
shifted i k = omega arith

-- From index `i` on, the layout word holds the bits `b ∷ bs`.
decode_loop_lem :
    (layout_bits size : ℕ) (b : Bool) (bs : List Bool) (i left accumulated : ℕ)
    → ((k : ℕ)
        → k < suc (length bs)
        → is_nonzero (get_bit_at_index_from_msb layout_bits (i + k)) ≡ nth (b ∷ bs) k)
    → suc (length bs) ≤ left
    → accumulated + bytes_of (b ∷ bs) ≡ size
    → decode_loop layout_bits size i left accumulated ≡ chars_of (b ∷ bs)
decode_loop_lem layout_bits size b bs i zero accumulated reads room total = absurd (omega arith)
decode_loop_lem layout_bits size b [] i (suc left) accumulated reads room total =
    let e : i + 0 ≡ i = omega arith in
    let now : is_nonzero (get_bit_at_index_from_msb layout_bits i) ≡ b =
      rw e at (reads 0 (omega arith)) in
    let last : leb size (accumulated + (if b then 8 else 4)) ≡ true = ground arith in
    decode_loop_round layout_bits size b i left accumulated now ∙ rw last
decode_loop_lem layout_bits size b (b' ∷ bs) i (suc left) accumulated reads room total =
    let e : i + 0 ≡ i = omega arith in
    let now : is_nonzero (get_bit_at_index_from_msb layout_bits i) ≡ b =
      rw e at (reads 0 (omega arith)) in
    let accumulated' : ℕ = accumulated + (if b then 8 else 4) in
    let more : leb size accumulated' ≡ false = ground arith in
    let rest =
      decode_loop_lem layout_bits size b' bs (i + 1) left accumulated'
        (λ k lt. rw (shifted i k) (reads (suc k) (omega arith))) (omega arith) (omega arith) in
    decode_loop_round layout_bits size b i left accumulated now
    ∙ rw more (ap (λ t. char_of b ∷ t) rest)

-- The whole loop, on a word that holds the bits `bs`.
decode_all :
    (layout_bits size : ℕ) (bs : List Bool)
    → 0 < length bs
    → length bs ≤ 54
    → bytes_of bs ≡ size
    → ((i : ℕ) → i < 54 → is_nonzero (get_bit_at_index_from_msb layout_bits i) ≡ nth bs i)
    → decode_loop layout_bits size 0 54 0 ≡ chars_of bs
decode_all layout_bits size [] pos short total reads = absurd (omega arith)
decode_all layout_bits size (b ∷ bs) pos short total reads =
    decode_loop_lem layout_bits size b bs 0 54 0
      (λ k lt. let e : 0 + k ≡ k = omega arith in rw e (reads k (omega arith))) short (omega arith)

layout_of_pos : (c : ℕ) (s : List ℕ) → 0 < length (layout_of (c ∷ s))
layout_of_pos c s =
    omega (arith, length-append (field_bits c) (layout_of s), length-field_bits_pos c)

buffer_read :
    (chars : List ℕ) (size : ℕ)
    → length chars ≤ size / 4
    → length chars ≤ 54
    → All IsField chars
    → (if leb (length chars) (size / 4) then create_format_str (some chars) else fault) ≡ ok chars
unfolding create_format_str
buffer_read chars size le short fields =
    let e : leb (length chars) (size / 4) ≡ true = ground arith in
    rw e (interpreted_format_str_expanded chars fields (omega (arith, short)))

-- The format string that is read back from a structure's header has the same pointers at the same
-- offsets: every other field of 8 bytes is now two of 4 bytes. So it asks for the same number of
-- bytes. The buffer that it is built in is large enough.
pub bit_vector_to_format_string-to_bit_vector :
    (c : ℕ) (s : List ℕ)
    → All IsField (c ∷ s)
    → required_bits (c ∷ s) ≤ 54
    → bit_vector_to_format_string (to_bit_vector (c ∷ s)).bit_vector ≡ ok (normalise (c ∷ s))
unfolding bit_vector_to_format_string
bit_vector_to_format_string-to_bit_vector c s h fits =
    let str = c ∷ s in
    let size = get_size_bits_field-to_bit_vector str h fits in
    let total = (format_str_bytes-layout_of str h).0 in
    let loop =
      decode_all (get_layout_bits_field (vector str)) (format_str_bytes str) (layout_of str)
        (layout_of_pos c s) (layout-short str h fits) total
        (layout_field-to_bit_vector str h fits) in
    rw (size, bit_vector_to_format_string)
      (rw loop (
        buffer_read (normalise str) (format_str_bytes str)
          (omega
            (arith, total, length-chars_of (layout_of str), length-le-bytes_of (layout_of str)))
          (omega (arith, length-chars_of (layout_of str), layout-short str h fits))
          (chars_of-fields (layout_of str))))

format_str_bytes-chars_of : (bs : List Bool) → format_str_bytes (chars_of bs) ≡ bytes_of bs
unfolding format_str_bytes
format_str_bytes-chars_of [] = refl
format_str_bytes-chars_of (true ∷ bs) = ap (λ (t : ℕ). 8 + t) (format_str_bytes-chars_of bs)
format_str_bytes-chars_of (false ∷ bs) = ap (λ (t : ℕ). 4 + t) (format_str_bytes-chars_of bs)

-- Both strings ask for the same number of bytes.
pub format_str_bytes-normalise :
    (s : List ℕ) → All IsField s → format_str_bytes (normalise s) ≡ format_str_bytes s
unfolding format_str_bytes
format_str_bytes-normalise s h =
    format_str_bytes-chars_of (layout_of s) ∙ (format_str_bytes-layout_of s h).0
