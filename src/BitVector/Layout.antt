-- ===== src/BitVector/Layout.antt =====
-- The layout of a structure as a list of bits, one for each pointer and for each 4 bytes of other
-- data, and `get_layout_bits` against it.
use garbagecollector.Base.{
  ℕ, zero, suc, ◌+◌, ◌-◌, ◌*◌, ◌^◌, ◌≤◌, ◌<◌, ◌≡◌, refl, ap, ◌∙◌, ◌⊎◌, Bool, true, false, List, [],
  ◌∷◌, ◌++◌, length, arith, All, if◌then◌else◌, ltb, ◌==◌, inl, inr, length-append,
}
use garbagecollector.Bits.{test_bit, test_bit_zero}
use garbagecollector.BitManip.{set_bit_at_index_from_msb}
use garbagecollector.BitManip.Select.{
  test_bit-set_bit_at_index_from_msb, set_bit_at_index_from_msb-lt,
}
use garbagecollector.FormatStr.{is_layout_char, format_str_bytes, field_bytes}
use garbagecollector.FormatStr.Items.{IsField}
use garbagecollector.BitVector.{layout_loop, get_layout_bits, required_bits, interpreted_size}

-- The bits of one field.
abbrev pub field_bits : ℕ → List Bool
field_bits c =
    if c == b'*'
    then true ∷ []
    else if c == b'l'
    then false ∷ false ∷ []
    else if c == b'd'
    then false ∷ false ∷ []
    else false ∷ []

abbrev pub layout_of : List ℕ → List Bool
layout_of [] = []
layout_of (c ∷ s) = field_bits c ++ layout_of s

-- The bytes that a layout stands for.
abbrev pub bytes_of : List Bool → ℕ
bytes_of [] = 0
bytes_of (b ∷ bs) = (if b then 8 else 4) + bytes_of bs

abbrev pub nth : List Bool → ℕ → Bool
nth [] k = false
nth (b ∷ bs) zero = b
nth (b ∷ bs) (suc k) = nth bs k

nth-append :
    (bs cs : List Bool) (k : ℕ)
    → nth (bs ++ cs) k ≡ (if ltb k (length bs) then nth bs k else nth cs (k - length bs))
nth-append [] cs k = let e : k - 0 ≡ k = omega arith in rw e (ground arith)
nth-append (b ∷ bs) cs zero = ground arith
nth-append (b ∷ bs) cs (suc k) =
    let e : suc k - suc (length bs) ≡ k - length bs = omega arith in
    rw (e, nth-append bs cs k) (ground arith)

bytes_of-append : (bs cs : List Bool) → bytes_of (bs ++ cs) ≡ bytes_of bs + bytes_of cs
bytes_of-append [] cs = omega arith
bytes_of-append (b ∷ bs) cs = omega (arith, bytes_of-append bs cs)

pub length-le-bytes_of : (bs : List Bool) → length bs * 4 ≤ bytes_of bs
length-le-bytes_of [] = omega arith
length-le-bytes_of (true ∷ bs) = omega (arith, length-le-bytes_of bs)
length-le-bytes_of (false ∷ bs) = omega (arith, length-le-bytes_of bs)

pub field_bits_cases :
    (c : ℕ)
    → ((field_bits c ≡ true ∷ []) ⊎ (field_bits c ≡ false ∷ []))
      ⊎ (field_bits c ≡ false ∷ false ∷ [])
field_bits_cases c = ground arith

field_sizes :
    (c : ℕ)
    → IsField c
    → (bytes_of (field_bits c) ≡ field_bytes c) × (field_bytes c ≡ interpreted_size c * 4)
unfolding is_layout_char
field_sizes c h = ground arith

-- A format string has the bytes of its layout, and 4 bytes for each bit that it is counted with.
pub format_str_bytes-layout_of :
    (s : List ℕ)
    → All IsField s
    → (bytes_of (layout_of s) ≡ format_str_bytes s) × (format_str_bytes s ≡ required_bits s * 4)
unfolding format_str_bytes required_bits
format_str_bytes-layout_of [] h = (refl, refl)
format_str_bytes-layout_of (c ∷ s) h =
    let (rest, quarter) = format_str_bytes-layout_of s h.1 in
    let (here, quarter') = field_sizes c h.0 in
    (bytes_of-append (field_bits c) (layout_of s) ∙ omega arith, omega arith)

layout_loop-cons :
    (c iter layout_bits : ℕ) (s : List ℕ)
    → IsField c
    → layout_loop (c ∷ s) iter layout_bits
      ≡ layout_loop s
          (iter + length (field_bits c))
          (set_bit_at_index_from_msb layout_bits iter (nth (field_bits c) 0))
unfolding layout_loop is_layout_char
layout_loop-cons c iter layout_bits s h = ground arith

-- The bits from `iter` on are still clear.
abbrev IsClearFrom : ℕ → ℕ → Type 0
IsClearFrom iter word = (j : ℕ) → iter ≤ j → j < 64 → test_bit word (63 - j) ≡ false

-- Behind the first bit of a field all bits are clear.
field_bits_tail : (c k : ℕ) → 0 < k → nth (field_bits c) k ≡ false
field_bits_tail c k h = elim (field_bits_cases c) [
  | inl (inl e) ↦ rw e (single true k h)
  | inl (inr e) ↦ rw e (single false k h)
  | inr e ↦ rw e (double k h)
]
  where
    single : (b : Bool) (k : ℕ) → 0 < k → nth (b ∷ []) k ≡ false
    single b zero h = absurd (omega arith)
    single b (suc k) h = refl

    double : (k : ℕ) → 0 < k → nth (false ∷ false ∷ []) k ≡ false
    double zero h = refl
    double (suc zero) h = refl
    double (suc (suc k)) h = refl

module _ (bs : List Bool) (iter word : ℕ) (tail : (k : ℕ) → 0 < k → nth bs k ≡ false)
    (fits : iter < 64) (clear : IsClearFrom iter word) where
  -- The bits that one round of the loop is responsible for.
  round_bits :
      (j : ℕ)
      → j < 64
      → test_bit (set_bit_at_index_from_msb word iter (nth bs 0)) (63 - j)
        ≡ (if ltb j iter then test_bit word (63 - j) else nth bs (j - iter))
  round_bits j lt = ground (
    arith,
    test_bit-set_bit_at_index_from_msb word iter (nth bs 0) (63 - j),
    clear j,
    tail (j - iter),
    ap (nth bs) {x = j - iter} {y = 0},
  )

  still_clear :
      (n : ℕ) → 0 < n → IsClearFrom (iter + n) (set_bit_at_index_from_msb word iter (nth bs 0))
  still_clear n pos j le lt = ground (arith, round_bits j lt, tail (j - iter))

pub length-field_bits_pos : (c : ℕ) → 0 < length (field_bits c)
length-field_bits_pos c = ground arith

later_bits :
    (bs cs : List Bool) (iter j : ℕ) (new old : Bool)
    → new ≡ (if ltb j iter then old else nth bs (j - iter))
    → (if ltb j (iter + length bs) then new else nth cs (j - (iter + length bs)))
      ≡ (if ltb j iter then old else nth (bs ++ cs) (j - iter))
later_bits bs cs iter j new old here = ground (
  arith,
  nth-append bs cs (j - iter),
  ap (nth cs) {x = j - (iter + length bs)} {y = j - iter - length bs},
)

layout_loop_lem :
    (s : List ℕ) (iter word : ℕ)
    → All IsField s
    → iter + length (layout_of s) ≤ 64
    → IsClearFrom iter word
    → (j : ℕ) → j < 64
    → test_bit (layout_loop s iter word) (63 - j)
      ≡ (if ltb j iter then test_bit word (63 - j) else nth (layout_of s) (j - iter))
layout_loop_lem [] iter word h fits clear j lt = unfold layout_loop in ground (arith, clear j)
layout_loop_lem (c ∷ s) iter word h fits clear j lt =
    let n = length (field_bits c) in
    let pos = length-field_bits_pos c in
    let room : iter + n + length (layout_of s) ≤ 64 =
      omega (arith, length-append (field_bits c) (layout_of s)) in
    let word' = set_bit_at_index_from_msb word iter (nth (field_bits c) 0) in
    let here = round_bits (field_bits c) iter word (field_bits_tail c) (omega arith) clear j lt in
    let clear' =
      still_clear (field_bits c) iter word (field_bits_tail c) (omega arith) clear n pos in
    let rest = layout_loop_lem s (iter + n) word' h.1 room clear' j lt in
    ap (λ (t : ℕ). test_bit t (63 - j)) (layout_loop-cons c iter word s h.0)
    ∙ rest
    ∙ later_bits (field_bits c) (layout_of s) iter j (test_bit word' (63 - j))
        (test_bit word (63 - j)) here

layout_loop-lt :
    (s : List ℕ) (iter word : ℕ) → All IsField s → word < 2 ^ 64 → layout_loop s iter word < 2 ^ 64
layout_loop-lt [] iter word h small = unfold layout_loop in small
layout_loop-lt (c ∷ s) iter word h small =
    rw (layout_loop-cons c iter word s h.0)
      (layout_loop-lt s _ _ h.1 (set_bit_at_index_from_msb-lt word iter _ small))

pub get_layout_bits-lt : (s : List ℕ) → All IsField s → get_layout_bits s < 2 ^ 64
unfolding get_layout_bits
get_layout_bits-lt s h = layout_loop-lt s 0 0 h (omega arith)

-- Read from the most significant bit, `get_layout_bits` is the layout: a set bit for each pointer,
-- a clear one for each 4 bytes of other data, and clear bits behind.
pub test_bit-get_layout_bits :
    (s : List ℕ) (j : ℕ)
    → All IsField s
    → length (layout_of s) ≤ 64
    → j < 64
    → test_bit (get_layout_bits s) (63 - j) ≡ nth (layout_of s) j
unfolding get_layout_bits
test_bit-get_layout_bits s j h fits lt =
    layout_loop_lem s 0 0 h (omega arith) (λ k _ _. test_bit_zero (63 - k)) j lt
    ∙ ground (arith, ap (nth (layout_of s)) {x = j - 0} {y = j})
