-- ===== src/BitVector/Encode.antt =====
-- What `to_bit_vector` puts into its word: the type in bits 0 and 1, the layout above them, and the
-- size in the most significant byte.
use garbagecollector.Base.{
  ℕ, ◌+◌, ◌-◌, ◌^◌, ◌≤◌, ◌<◌, ◌≡◌, ap, ◌∙◌, true, List, length, arith, All, if◌then◌else◌, leb, ltb,
  bit_or,
}
use garbagecollector.Bits.{test_bit, test_bit-bit_or, test_bit_above}
use garbagecollector.Word.{
  shl, shr, or-lt, shl-lt, shr-lt, test_bit-shl, test_bit-shr, word_ext, is_nonzero,
}
use garbagecollector.BitManip.{set_bit_at_index_from_lsb, mask_from_lsb, get_bit_at_index_from_msb}
use garbagecollector.BitManip.Select.{
  test_bit-set_bit_at_index_from_lsb, set_bit_at_index_from_lsb-lt, test_bit-mask_from_lsb,
  is_nonzero-get_bit_at_index_from_msb,
}
use garbagecollector.FormatStr.{format_str_bytes}
use garbagecollector.FormatStr.Items.{IsField}
use garbagecollector.BitVector.{
  required_bits, enough_bits_for_layout, get_layout_bits, to_bit_vector, get_size_bits_field,
  get_layout_bits_field,
}
use garbagecollector.BitVector.Layout.{
  layout_of, nth, length-le-bytes_of, format_str_bytes-layout_of, get_layout_bits-lt,
  test_bit-get_layout_bits,
}

-- `to_bit_vector` succeeds exactly if the fields need at most 54 bits.
pub to_bit_vector-success : (s : List ℕ) → (to_bit_vector s).success ≡ leb (required_bits s) 54
unfolding to_bit_vector enough_bits_for_layout
to_bit_vector-success s = ground arith

-- The word of a format string that fits.
abbrev pub vector : List ℕ → ℕ
vector s = (to_bit_vector s).bit_vector

module _ (s : List ℕ) (h : All IsField s) (fits : required_bits s ≤ 54) where
  pub bytes-lt : format_str_bytes s ≤ 216
  bytes-lt = omega (arith, format_str_bytes-layout_of s h)

  pub layout-short : length (layout_of s) ≤ 54
  layout-short = omega (arith, format_str_bytes-layout_of s h, length-le-bytes_of (layout_of s))

  merged : ℕ
  merged = bit_or (shr (get_layout_bits s) 8) (shl (format_str_bytes s) 56)

  merged-lt : merged < 2 ^ 64
  unfolding merged
  merged-lt = or-lt _ _ (shr-lt (get_layout_bits s) 8 (get_layout_bits-lt s h)) (shl-lt _ 56)

  vector-eq : vector s ≡ set_bit_at_index_from_lsb (set_bit_at_index_from_lsb merged 0 true) 1 true
  unfolding to_bit_vector enough_bits_for_layout merged
  vector-eq =
      let e : leb (required_bits s) 54 ≡ true = ground arith in
      rw (e, vector, to_bit_vector, enough_bits_for_layout)

  pub vector-lt : vector s < 2 ^ 64
  vector-lt =
      rw vector-eq (
        set_bit_at_index_from_lsb-lt _ 1 true
          (set_bit_at_index_from_lsb-lt merged 0 true merged-lt))

  test_bit-vector :
      (k : ℕ)
      → k < 64
      → test_bit (vector s) k ≡ (
          if ltb k 2
          then true
          else if ltb k 56
          then test_bit (get_layout_bits s) (k + 8)
          else test_bit (format_str_bytes s) (k - 56))
  unfolding merged
  test_bit-vector k lt =
      ap (λ (t : ℕ). test_bit t k) vector-eq
      ∙ ground (
        arith,
        test_bit-set_bit_at_index_from_lsb (set_bit_at_index_from_lsb merged 0 true) 1 true k,
        test_bit-set_bit_at_index_from_lsb merged 0 true k,
        test_bit-bit_or k (shr (get_layout_bits s) 8) (shl (format_str_bytes s) 56),
        test_bit-shr (get_layout_bits s) 8 k,
        test_bit-shl (format_str_bytes s) 56 k,
        test_bit_above 64 (get_layout_bits s) (k + 8) (get_layout_bits-lt s h),
      )

  -- The size field is the number of bytes of the format string.
  pub get_size_bits_field-to_bit_vector : get_size_bits_field (vector s) ≡ format_str_bytes s
  unfolding get_size_bits_field
  get_size_bits_field-to_bit_vector =
      word_ext (shr (vector s) 56) (format_str_bytes s) (shr-lt (vector s) 56 vector-lt)
        (omega (arith, bytes-lt))
        λ k lt. ground (
          arith,
          test_bit-shr (vector s) 56 k,
          test_bit-vector (k + 56),
          test_bit_above 64 (vector s) (k + 56) vector-lt,
          test_bit_above 8 (format_str_bytes s) k (omega (arith, bytes-lt)),
          ap (test_bit (format_str_bytes s)) {x = k + 56 - 56} {y = k},
        )

  -- The layout field, read bit by bit from the front, is the layout.
  pub layout_field-to_bit_vector :
      (i : ℕ)
      → i < 54
      → is_nonzero (get_bit_at_index_from_msb (get_layout_bits_field (vector s)) i)
        ≡ nth (layout_of s) i
  unfolding get_layout_bits_field
  layout_field-to_bit_vector i lt =
      let kept = mask_from_lsb (vector s) 2 in
      is_nonzero-get_bit_at_index_from_msb (shl kept 8) i (shl-lt kept 8) (omega arith)
      ∙ ground (
        arith,
        test_bit-shl kept 8 (63 - i),
        test_bit-mask_from_lsb (vector s) 2 (63 - i - 8),
        test_bit-vector (63 - i - 8),
        ap (test_bit (get_layout_bits s)) {x = 63 - i - 8 + 8} {y = 63 - i},
        test_bit-get_layout_bits s i h (omega (arith, layout-short)),
      )
