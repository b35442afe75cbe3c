-- ===== src/BitManip/Select.antt =====
-- What each function of src/header/bit_manip.c that copies, masks, sets or reads bits does to
-- every bit of the word.
use garbagecollector.Base.{
  ℕ, ◌+◌, ◌-◌, ◌%◌, ◌^◌, ◌≤◌, ◌<◌, bit_and, bit_or, ◌≡◌, Bool, true, false, ◌==◌, ltb,
  if◌then◌else◌, arith, Bool-cases, inl, inr,
}
use garbagecollector.Bits.{
  test_bit, test_bit_low_mask, test_bit_above, test_bit_zero, test_bit-bit_or, test_bit-bit_and,
}
use garbagecollector.Word.{
  shl, complement, sub64, is_nonzero, is_nonzero_single, and-lt, or-lt, test_bit-shl,
  test_bit-complement, test_bit-shl_one, test_bit-low_mask, shl-lt, sub64-lt, test_bit_ones,
}
use garbagecollector.BitManip.{
  copy_bits_from_lsb, copy_bits_from_msb, mask_from_lsb, mask_from_msb, set_bit_at_index_from_lsb,
  set_bit_at_index_from_msb, get_bit_at_index_from_msb, set_upper_4bytes, set_lower_4bytes,
}

-- Merging `source` into `dest` under a mask: the last lines of both copying functions.
test_bit_merge :
    (dest source mask k : ℕ)
    → mask < 2 ^ 64
    → k < 64
    → test_bit (bit_or (bit_and dest (complement mask)) (bit_and source mask)) k
      ≡ (if test_bit mask k then test_bit source k else test_bit dest k)
test_bit_merge dest source mask k small lt = ground (
  arith,
  test_bit-bit_or k (bit_and dest (complement mask)) (bit_and source mask),
  test_bit-bit_and k dest (complement mask),
  test_bit-bit_and k source mask,
  test_bit-complement mask k,
)

-- `copy_bits_from_lsb` takes the `n` lowest bits from `source`, the others from `dest`.
pub test_bit-copy_bits_from_lsb :
    (dest source n k : ℕ)
    → n ≤ 64
    → k < 64
    → test_bit (copy_bits_from_lsb dest source n) k
      ≡ (if ltb k n then test_bit source k else test_bit dest k)
unfolding copy_bits_from_lsb
test_bit-copy_bits_from_lsb dest source n k h lt = elim (Bool-cases (n == 64)) [
  | inl e ↦ rw e (ground (arith, test_bit_merge dest source 0xFFFFFFFFFFFFFFFF k, test_bit_ones k))
  | inr e ↦ rw e (
      ground (
        arith,
        test_bit_merge dest source (sub64 (shl 1 n) 1) k (sub64-lt _ _),
        test_bit-low_mask n k,
      ))
]

-- `copy_bits_from_msb` takes the `n` highest bits from `source`, the others from `dest`.
pub test_bit-copy_bits_from_msb :
    (dest source n k : ℕ)
    → n ≤ 64
    → k < 64
    → test_bit (copy_bits_from_msb dest source n) k
      ≡ (if ltb (63 - k) n then test_bit source k else test_bit dest k)
unfolding copy_bits_from_msb
test_bit-copy_bits_from_msb dest source n k h lt = elim (Bool-cases (n == 64)) [
  | inl e ↦ rw e (ground (arith, test_bit_merge dest source 0xFFFFFFFFFFFFFFFF k, test_bit_ones k))
  | inr e ↦
      let mask = shl (sub64 (shl 1 n) 1) (64 - n) in
      rw e (
        ground (
          arith,
          test_bit_merge dest source mask k (shl-lt _ _),
          test_bit-shl (sub64 (shl 1 n) 1) (64 - n) k,
          test_bit-low_mask n (k - (64 - n)),
        ))
]

-- `mask_from_lsb` clears the `n` lowest bits.
pub test_bit-mask_from_lsb :
    (source n k : ℕ)
    → k < 64
    → test_bit (mask_from_lsb source n) k ≡ (if ltb k n then false else test_bit source k)
unfolding mask_from_lsb
test_bit-mask_from_lsb source n k lt = ground (
  arith,
  test_bit_zero k,
  test_bit-bit_and k source (complement (sub64 (shl 1 n) 1)),
  test_bit-complement (sub64 (shl 1 n) 1) k (sub64-lt _ _),
  test_bit-low_mask n k,
)

-- `mask_from_msb` clears the `n` highest bits.
pub test_bit-mask_from_msb :
    (source n k : ℕ)
    → k < 64
    → test_bit (mask_from_msb source n) k ≡ (if ltb (63 - k) n then false else test_bit source k)
unfolding mask_from_msb
test_bit-mask_from_msb source n k lt = ground (
  arith,
  test_bit_zero k,
  test_bit-bit_and k source (complement (shl (sub64 (shl 1 n) 1) (64 - n))),
  test_bit-complement (shl (sub64 (shl 1 n) 1) (64 - n)) k (shl-lt _ _),
  test_bit-shl (sub64 (shl 1 n) 1) (64 - n) k,
  test_bit-low_mask n (k - (64 - n)),
)

-- `set_bit_at_index_from_lsb` writes one bit and leaves the others.
pub test_bit-set_bit_at_index_from_lsb :
    (source index : ℕ) (value : Bool) (k : ℕ)
    → index < 64
    → k < 64
    → test_bit (set_bit_at_index_from_lsb source index value) k
      ≡ (if k == index then value else test_bit source k)
unfolding set_bit_at_index_from_lsb
test_bit-set_bit_at_index_from_lsb source index value k h lt = ground (
  arith,
  test_bit-bit_or k source (shl 1 index),
  test_bit-bit_and k source (complement (shl 1 index)),
  test_bit-complement (shl 1 index) k (shl-lt _ _),
  test_bit-shl_one index k,
)

-- `set_bit_at_index_from_msb` is the same, counted from the other end.
pub set_bit_at_index_from_msb-eq :
    (source index : ℕ) (value : Bool)
    → index < 64
    → set_bit_at_index_from_msb source index value
      ≡ set_bit_at_index_from_lsb source (63 - index) value
unfolding set_bit_at_index_from_msb set_bit_at_index_from_lsb sub64
set_bit_at_index_from_msb-eq source index value h =
    let e : (63 + 2 ^ 64 - index) % 2 ^ 64 ≡ 63 - index = omega arith in rw e

pub test_bit-set_bit_at_index_from_msb :
    (source index : ℕ) (value : Bool) (k : ℕ)
    → index < 64
    → k < 64
    → test_bit (set_bit_at_index_from_msb source index value) k
      ≡ (if 63 - k == index then value else test_bit source k)
test_bit-set_bit_at_index_from_msb source index value k h lt =
    rw (set_bit_at_index_from_msb-eq source index value h)
      (ground (arith, test_bit-set_bit_at_index_from_lsb source (63 - index) value k))

test_bit-get_bit_at_index_from_msb :
    (source index k : ℕ)
    → index < 64
    → k < 64
    → test_bit (get_bit_at_index_from_msb source index) k
      ≡ (if 63 - k == index then test_bit source k else false)
unfolding get_bit_at_index_from_msb
test_bit-get_bit_at_index_from_msb source index k h lt = ground (
  arith,
  test_bit_zero k,
  test_bit-bit_and k (set_bit_at_index_from_msb 0 index true) source,
  test_bit-set_bit_at_index_from_msb 0 index true k,
)

get_bit_at_index_from_msb-lt :
    (source index : ℕ) → source < 2 ^ 64 → get_bit_at_index_from_msb source index < 2 ^ 64
unfolding get_bit_at_index_from_msb set_bit_at_index_from_msb
get_bit_at_index_from_msb-lt source index h =
    and-lt (bit_or 0 (shl 1 (sub64 63 index))) source (or-lt 0 _ (omega arith) (shl-lt _ _))

-- As a condition, `get_bit_at_index_from_msb` is the bit that it names.
pub is_nonzero-get_bit_at_index_from_msb :
    (source index : ℕ)
    → source < 2 ^ 64
    → index < 64
    → is_nonzero (get_bit_at_index_from_msb source index) ≡ test_bit source (63 - index)
is_nonzero-get_bit_at_index_from_msb source index small h =
    is_nonzero_single (get_bit_at_index_from_msb source index) (63 - index)
      (test_bit source (63 - index)) (get_bit_at_index_from_msb-lt source index small) (omega arith)
      (λ k lt. ground (arith, test_bit-get_bit_at_index_from_msb source index k h lt))

-- `set_upper_4bytes` puts its 32 bits into the upper half and keeps the lower.
pub test_bit-set_upper_4bytes :
    (dest bits k : ℕ)
    → k < 64
    → test_bit (set_upper_4bytes dest bits) k
      ≡ (if ltb k 32 then test_bit dest k else test_bit bits (k - 32))
unfolding set_upper_4bytes
test_bit-set_upper_4bytes dest bits k lt = ground (
  arith,
  test_bit-bit_or k (bit_and dest 0x00000000FFFFFFFF) (shl bits 32),
  test_bit-bit_and k dest 0x00000000FFFFFFFF,
  test_bit_low_mask 32 k,
  test_bit-shl bits 32 k,
)

-- `set_lower_4bytes` puts its 32 bits into the lower half and keeps the upper.
pub test_bit-set_lower_4bytes :
    (dest bits k : ℕ)
    → bits < 2 ^ 32
    → k < 64
    → test_bit (set_lower_4bytes dest bits) k
      ≡ (if ltb k 32 then test_bit bits k else test_bit dest k)
unfolding set_lower_4bytes
test_bit-set_lower_4bytes dest bits k small lt =
    let upper : test_bit 0xFFFFFFFF00000000 k ≡ (if ltb k 32 then false else true) =
      rw (← test_bit_low_mask 32 k)
        (unfold complement in test_bit-complement 0xFFFFFFFF k (omega arith) lt) in
    ground (
      arith,
      test_bit-bit_or k (bit_and dest 0xFFFFFFFF00000000) bits,
      test_bit-bit_and k dest 0xFFFFFFFF00000000,
      test_bit_above 32 bits k small,
    )

pub mask_from_lsb-lt : (source n : ℕ) → source < 2 ^ 64 → mask_from_lsb source n < 2 ^ 64
unfolding mask_from_lsb
mask_from_lsb-lt source n h = ground (arith, and-lt source (complement (sub64 (shl 1 n) 1)) h)

pub mask_from_msb-lt : (source n : ℕ) → source < 2 ^ 64 → mask_from_msb source n < 2 ^ 64
unfolding mask_from_msb
mask_from_msb-lt source n h =
    ground (arith, and-lt source (complement (shl (sub64 (shl 1 n) 1) (64 - n))) h)

pub set_bit_at_index_from_lsb-lt :
    (source index : ℕ) (value : Bool)
    → source < 2 ^ 64
    → set_bit_at_index_from_lsb source index value < 2 ^ 64
unfolding set_bit_at_index_from_lsb
set_bit_at_index_from_lsb-lt source index true h = or-lt source _ h (shl-lt 1 index)
set_bit_at_index_from_lsb-lt source index false h = and-lt source _ h

pub set_bit_at_index_from_msb-lt :
    (source index : ℕ) (value : Bool)
    → source < 2 ^ 64
    → set_bit_at_index_from_msb source index value < 2 ^ 64
unfolding set_bit_at_index_from_msb
set_bit_at_index_from_msb-lt source index true h = or-lt source _ h (shl-lt 1 _)
set_bit_at_index_from_msb-lt source index false h = and-lt source _ h
