-- ===== src/AllocMap/Laws.antt =====
-- What the loops that mark the allocation map do to its bits, and what `validate_ptr` reads.
use garbagecollector.Base.{
  ℕ, zero, suc, ◌+◌, ◌-◌, ◌*◌, ◌/◌, ◌%◌, ◌≤◌, ◌<◌, ◌≡◌, ◌≢◌, refl, ◌∙◌, Bool, true, false, ◌||◌,
  ◌&&◌, List, ltb, leb, ◌==◌, ==_iff, Bool-cases, if◌then◌else◌, none, some, set, get_elem?, length,
  length-set, All, All-set, All-get_elem?, get_elem?-set_self, get_elem?-set_ne, get_elem?_total,
  arith, inl, inr,
}
use mathlib.Core.Path.{subst}
use garbagecollector.Bits.{test_bit}
use garbagecollector.Word.{IsWord}
use garbagecollector.BitManip.{set_bit_at_index_from_msb}
use garbagecollector.BitManip.Select.{
  test_bit-set_bit_at_index_from_msb, set_bit_at_index_from_msb-lt,
}
use garbagecollector.AllocMap.{mark, mark_range, mark_object}

-- Bit `i` of the map: each word holds 64 of them, the most significant first.
unfoldable pub marked : List ℕ → ℕ → Bool
marked map i = elim (get_elem? map (i / 64)) [ none ↦ false | some w ↦ test_bit w (63 - i % 64) ]

-- `map'` is `map` with the bits from `from` on, below `to`, set.
pub record Marks (map : List ℕ) (from to : ℕ) (map' : List ℕ) : Type 0 where
  pub same_length : length map' ≡ length map
  pub words : All IsWord map'
  pub bits : (i : ℕ) → marked map' i ≡ (marked map i || (leb from i && ltb i to))

pub Marks-none : (map : List ℕ) (from to : ℕ) → All IsWord map → to ≤ from → Marks map from to map
Marks-none map from to words h = record {
  same_length = refl;
  words = words;
  bits = λ i. ground arith;
}

pub Marks-append :
    (map map' map'' : List ℕ) (from to to' : ℕ)
    → from ≤ to
    → to ≤ to'
    → Marks map from to map'
    → Marks map' to to' map''
    → Marks map from to' map''
Marks-append map map' map'' from to to' h h' p q = record {
  same_length = q.same_length ∙ p.same_length;
  words = q.words;
  bits = λ i. ground (arith, p.bits i, q.bits i);
}

module _ (map : List ℕ) (words : All IsWord map) where
  mark-bit :
      (m b w i : ℕ)
      → b < 64
      → get_elem? map m ≡ some w
      → m < length map
      → marked (set map m (set_bit_at_index_from_msb w b true)) i
        ≡ (marked map i || (leb (64 * m + b) i && ltb i (64 * m + b + 1)))
  unfolding marked
  mark-bit m b w i bound found lt = elim (Bool-cases (i / 64 == m)) [
    | inl e ↦
        let same : i / 64 ≡ m = (==_iff _ _).0 e in
        let v = set_bit_at_index_from_msb w b true in
        rw (marked, same, get_elem?-set_self map m v lt, found)
          (ground (
            arith,
            test_bit-set_bit_at_index_from_msb w b true (63 - i % 64) bound (omega arith),
            same,
          ))
    | inr e ↦
        let other : m ≢ i / 64 = λ q. ground arith in
        rw (marked, get_elem?-set_ne map m (i / 64) (set_bit_at_index_from_msb w b true) other)
          (ground (arith, other))
  ]

  mark-Marks :
      (m b : ℕ)
      → b < 64
      → m < length map
      → (map' : List ℕ) × (mark map m b ≡ some map') × Marks map (64 * m + b) (64 * m + b + 1) map'
  unfolding mark
  mark-Marks m b bound lt =
      let (w, found) = get_elem?_total map m lt in
      let v = set_bit_at_index_from_msb w b true in
      let v-IsWord : IsWord v =
        set_bit_at_index_from_msb-lt w b true (All-get_elem? IsWord map m w words found) in
      (
        set map m v,
        rw (found, mark) refl,
        record {
          same_length = length-set map m v;
          words = All-set IsWord map m v words v-IsWord;
          bits = λ i. mark-bit m b w i bound found lt;
        },
      )

-- On a map of words, with all the bits inside the map, `mark_range` has no fault and sets the bits
-- from `i` on, as many as it has rounds, and no other.
pub mark_range-Marks :
    (map : List ℕ) (i left : ℕ)
    → All IsWord map
    → i + left ≤ 64 * length map
    → (map' : List ℕ) × (mark_range i left map ≡ some map') × Marks map i (i + left) map'
unfolding mark_range
mark_range-Marks map i zero words fits = (map, refl, Marks-none map i (i + 0) words (omega arith))
mark_range-Marks map i (suc left) words fits =
    let (map', e, p) = mark-Marks map words (i / 64) (i % 64) (omega arith) (omega arith) in
    let first : Marks map i (i + 1) map' =
      subst (λ (t : ℕ). Marks map t (t + 1) map') (omega arith) p in
    let (map'', e', q) =
      mark_range-Marks map' (i + 1) left p.words (omega (arith, p.same_length)) in
    let others : Marks map' (i + 1) (i + suc left) map'' =
      subst (λ (t : ℕ). Marks map' (i + 1) t map'') (omega arith) q in
    (
      map'',
      rw (mark_range, e) e',
      Marks-append map map' map'' i (i + 1) (i + suc left) (omega arith) (omega arith) first others,
    )

-- On a map of words, with all the bits inside the map, `mark_object` has no fault and sets the
-- bits from bit `b` of word `m` on, which it carries into the next word, as many as it has rounds,
-- and no other.
pub mark_object-Marks :
    (map : List ℕ) (m b left : ℕ)
    → All IsWord map
    → b ≤ 64
    → 64 * m + b + left ≤ 64 * length map
    → (map' : List ℕ) × (mark_object m b left map ≡ some map')
      × Marks map (64 * m + b) (64 * m + b + left) map'
unfolding mark_object
mark_object-Marks map m b zero words low fits =
    (map, refl, Marks-none map (64 * m + b) (64 * m + b + 0) words (omega arith))
mark_object-Marks map m b (suc left) words low fits =
    let next = ltb 63 b in
    let m' : ℕ = if next then m + 1 else m in
    let b' : ℕ = if next then 0 else b in
    let same : 64 * m' + b' ≡ 64 * m + b = ground arith in
    let (map', e, p) = mark-Marks map words m' b' (ground arith) (ground arith) in
    let first : Marks map (64 * m + b) (64 * m + b + 1) map' =
      subst (λ (t : ℕ). Marks map t (t + 1) map') same p in
    let (map'', e', q) =
      mark_object-Marks map' m' (b' + 1) left p.words (ground arith)
        (ground (arith, p.same_length)) in
    let start : 64 * m' + (b' + 1) ≡ 64 * m + b + 1 = omega (arith, same) in
    let stop : 64 * m' + (b' + 1) + left ≡ 64 * m + b + suc left = omega (arith, same) in
    let others : Marks map' (64 * m + b + 1) (64 * m + b + suc left) map'' =
      subst (λ (t : ℕ). Marks map' (64 * m + b + 1) t map'') stop
        (subst (λ (t : ℕ). Marks map' t (64 * m' + (b' + 1) + left) map'') start q) in
    (
      map'',
      rw (mark_object, e) e',
      Marks-append map map' map'' (64 * m + b) (64 * m + b + 1) (64 * m + b + suc left)
          (omega arith) (omega arith) first others,
    )
