-- ===== src/BitManip/Reverse.antt =====
-- `reverse_bits`: each line of it exchanges neighbouring groups of bits.
use garbagecollector.Base.{
  ℕ, zero, suc, ◌+◌, ◌-◌, ◌^◌, ◌<◌, bit_and, bit_or, ◌≡◌, refl, ap, ◌∙◌, Bool, true, ◌&&◌, ◌||◌,
  ◌==◌, ltb, leb, if◌then◌else◌, arith, ==_iff, not,
}
use garbagecollector.Bits.{test_bit, test_bit-bit_or, test_bit-bit_and, test_bit_above}
use garbagecollector.Word.{shl, shr, test_bit-shl, test_bit-shr, shl-lt, shr-lt, or-lt, and-lt}
use garbagecollector.BitManip.{swap_groups, reverse_bits}

-- A test passes at every index below the bound; one that does is true at each of them.
module _ (test : ℕ → Bool) where
  passes : ℕ → Bool
  passes zero = true
  passes (suc bound) = passes bound && test bound

  test-passes : (bound i : ℕ) → i < bound → passes bound ≡ true → test i ≡ true
  unfolding passes
  test-passes zero i below all = absurd (omega arith)
  test-passes (suc bound) i below all = ground (arith, test-passes bound i)

-- Where bit `k` comes from when groups of `s` bits change places.
partner : ℕ → ℕ → ℕ → ℕ
unfolding test_bit
partner s mask k = if test_bit mask k then k + s else k - s

-- The mask selects the lower group of each pair.
is_lower_group : ℕ → ℕ → ℕ → Bool
unfolding test_bit
is_lower_group s mask k =
    if test_bit mask k
    then ltb (k + s) 64 && (ltb k s || not (test_bit mask (k - s)))
    else leb s k && test_bit mask (k - s)

module _ (s mask : ℕ) (table : passes (is_lower_group s mask) 64 ≡ true) where
  test_bit-swap_groups :
      (x k : ℕ)
      → k < 64
      → (test_bit (swap_groups s mask x) k ≡ test_bit x (partner s mask k))
        × (partner s mask k < 64)
  unfolding swap_groups is_lower_group partner
  test_bit-swap_groups x k lt =
      let row = test-passes (is_lower_group s mask) 64 k lt table in
      ground (
        arith,
        row,
        test_bit-bit_or k (bit_and (shr x s) mask) (shl (bit_and x mask) s),
        test_bit-bit_and k (shr x s) mask,
        test_bit-shr x s k,
        test_bit-shl (bit_and x mask) s k,
        test_bit-bit_and (k - s) x mask,
      )

halves_swapped :
    (x k : ℕ)
    → x < 2 ^ 64
    → k < 64
    → test_bit (bit_or (shr x 32) (shl x 32)) k ≡ test_bit x (if ltb k 32 then k + 32 else k - 32)
halves_swapped x k small lt = ground (
  arith,
  test_bit-bit_or k (shr x 32) (shl x 32),
  test_bit-shr x 32 k,
  test_bit-shl x 32 k,
  test_bit_above 64 x (k + 32) small,
)

source_of : ℕ → ℕ
source_of k =
    let k₅ : ℕ = if ltb k 32 then k + 32 else k - 32 in
    let k₄ = partner 16 0x0000FFFF0000FFFF k₅ in
    let k₃ = partner 8 0x00FF00FF00FF00FF k₄ in
    let k₂ = partner 4 0x0F0F0F0F0F0F0F0F k₃ in
    let k₁ = partner 2 0x3333333333333333 k₂ in partner 1 0x5555555555555555 k₁

source_of-eq : (k : ℕ) → k < 64 → source_of k ≡ 63 - k
unfolding source_of partner passes
source_of-eq k lt = (==_iff _ _).0 (test-passes (λ j. source_of j == 63 - j) 64 k lt refl)

swap_groups-lt : (s mask x : ℕ) → x < 2 ^ 64 → swap_groups s mask x < 2 ^ 64
unfolding swap_groups
swap_groups-lt s mask x h = or-lt _ _ (and-lt _ _ (shr-lt x s h)) (shl-lt _ _)

-- `reverse_bits` moves bit `63 - k` to `k`.
pub test_bit-reverse_bits :
    (source k : ℕ)
    → source < 2 ^ 64
    → k < 64
    → test_bit (reverse_bits source) k ≡ test_bit source (63 - k)
unfolding reverse_bits source_of passes is_lower_group
test_bit-reverse_bits source k small lt =
    let a = swap_groups 1 0x5555555555555555 source in
    let b = swap_groups 2 0x3333333333333333 a in
    let c = swap_groups 4 0x0F0F0F0F0F0F0F0F b in
    let d = swap_groups 8 0x00FF00FF00FF00FF c in
    let e = swap_groups 16 0x0000FFFF0000FFFF d in
    let e-lt : e < 2 ^ 64 = swap_groups-lt 16 0x0000FFFF0000FFFF d (
      swap_groups-lt 8 0x00FF00FF00FF00FF c (
        swap_groups-lt 4 0x0F0F0F0F0F0F0F0F b (
          swap_groups-lt 2 0x3333333333333333 a
            (swap_groups-lt 1 0x5555555555555555 source small)))) in
    let k₅ : ℕ = if ltb k 32 then k + 32 else k - 32 in
    let k₅-lt : k₅ < 64 = ground arith in
    let (p₅, k₄-lt) = test_bit-swap_groups 16 0x0000FFFF0000FFFF refl d k₅ k₅-lt in
    let (p₄, k₃-lt) = test_bit-swap_groups 8 0x00FF00FF00FF00FF refl c _ k₄-lt in
    let (p₃, k₂-lt) = test_bit-swap_groups 4 0x0F0F0F0F0F0F0F0F refl b _ k₃-lt in
    let (p₂, k₁-lt) = test_bit-swap_groups 2 0x3333333333333333 refl a _ k₂-lt in
    let (p₁, _) = test_bit-swap_groups 1 0x5555555555555555 refl source _ k₁-lt in
    halves_swapped e k e-lt lt ∙ p₅ ∙ p₄ ∙ p₃ ∙ p₂ ∙ p₁ ∙ ap (test_bit source) (source_of-eq k lt)
