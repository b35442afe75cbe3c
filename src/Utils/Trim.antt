-- ===== src/Utils/Trim.antt =====
-- What `trim_whitespace` returns: the string without the spaces at its two ends.
use garbagecollector.Base.{
  ℕ, zero, suc, ◌+◌, ◌-◌, ◌≤◌, ◌<◌, ◌≡◌, refl, sym, ap, ◌∙◌, ◌⊎◌, inl, inr, true, false, List, [],
  ◌∷◌, ◌++◌, length, take, drop, arith, some, Bool-cases, All, take-append-drop, take_all,
}
use garbagecollector.Utils.{isspace, char_or_nul, skip_spaces, last_kept, trim_end, trim_whitespace}

abbrev pub IsBlank : ℕ → Type 0
IsBlank c = isspace c ≡ true

-- Neither end of the string is a space.
abbrev pub IsTight : List ℕ → Type 0
IsTight [] = Unit
IsTight (c ∷ s) = (isspace c ≡ false) × (isspace (char_or_nul (c ∷ s) (length s)) ≡ false)

pub record IsTrimmed (str trimmed : List ℕ) : Type 0 where
  pub before : List ℕ
  pub after : List ℕ
  pub split : str ≡ before ++ (trimmed ++ after)
  pub blank_before : All IsBlank before
  pub blank_after : All IsBlank after
  pub tight : IsTight trimmed

last_kept_lem :
    (start : List ℕ) (e : ℕ)
    → (last_kept start e ≤ e)
      × ((last_kept start e ≡ 0) ⊎ (isspace (char_or_nul start (last_kept start e)) ≡ false))
unfolding last_kept
last_kept_lem start zero = (omega arith, inl refl)
last_kept_lem start (suc e) = elim (Bool-cases (isspace (char_or_nul start (suc e)))) [
  | inl blank ↦ rw blank ((omega (arith, (last_kept_lem start e).0)), (last_kept_lem start e).1)
  | inr solid ↦ rw solid (omega arith, inr solid)
]

blank_behind :
    (start : List ℕ) (e j : ℕ)
    → last_kept start e < j
    → j ≤ e
    → isspace (char_or_nul start j) ≡ true
unfolding last_kept
blank_behind start zero j lo hi = absurd (omega arith)
blank_behind start (suc e) j lo hi = ground (
  arith,
  blank_behind start e j,
  ap (λ (t : ℕ). isspace (char_or_nul start t)) {x = j} {y = suc e},
)

char_or_nul-drop : (n j : ℕ) (s : List ℕ) → char_or_nul (drop n s) j ≡ char_or_nul s (n + j)
char_or_nul-drop zero j s = let e : 0 + j ≡ j = omega arith in rw e
char_or_nul-drop (suc n) j [] = refl
char_or_nul-drop (suc n) j (c ∷ s) =
    let e : suc n + j ≡ suc (n + j) = omega arith in rw e (char_or_nul-drop n j s)

char_or_nul-take : (n j : ℕ) (s : List ℕ) → j < n → char_or_nul (take n s) j ≡ char_or_nul s j
char_or_nul-take zero j s h = absurd (omega arith)
char_or_nul-take (suc n) j [] h = refl
char_or_nul-take (suc n) zero (c ∷ s) h = refl
char_or_nul-take (suc n) (suc j) (c ∷ s) h = char_or_nul-take n j s (omega arith)

length-drop : (n : ℕ) (s : List ℕ) → length (drop n s) ≡ length s - n
length-drop zero s = omega arith
length-drop (suc n) [] = omega arith
length-drop (suc n) (x ∷ s) = omega (arith, length-drop n s)

length-take_le : (n : ℕ) (s : List ℕ) → n ≤ length s → length (take n s) ≡ n
length-take_le zero s h = refl
length-take_le (suc n) [] h = absurd (omega arith)
length-take_le (suc n) (x ∷ s) h = ap suc (length-take_le n s (omega arith))

All-of_index :
    (s : List ℕ) → ((j : ℕ) → j < length s → isspace (char_or_nul s j) ≡ true) → All IsBlank s
All-of_index [] h = tt
All-of_index (c ∷ s) h = (h 0 (omega arith), All-of_index s (λ j lt. h (suc j) (omega arith)))

IsTight-take :
    (c : ℕ) (s : List ℕ) (end : ℕ)
    → isspace c ≡ false
    → end ≤ length s
    → (end ≡ 0) ⊎ (isspace (char_or_nul (c ∷ s) end) ≡ false)
    → IsTight (take (end + 1) (c ∷ s))
IsTight-take c s end solid le last =
    let e : end + 1 ≡ suc end = omega arith in
    let here : isspace (char_or_nul (c ∷ s) end) ≡ false = elim last [
      | inl zero_end ↦ rw zero_end solid
      | inr h ↦ h
    ] in
    rw e (
      solid,
      rw (length-take_le end s le, char_or_nul-take (suc end) end (c ∷ s) (omega arith)) here,
    )

-- The end of the trimming, for a string that starts with `c`, which is no space.
trim_end-IsTrimmed :
    (c : ℕ) (s : List ℕ)
    → isspace c ≡ false
    → (after : List ℕ) × (c ∷ s ≡ trim_end (c ∷ s) ++ after)
      × All IsBlank after
      × IsTight (trim_end (c ∷ s))
unfolding trim_end
trim_end-IsTrimmed c s solid =
    let start = c ∷ s in
    let end = last_kept start (suc (length s) - 1) in
    let (le, last) = last_kept_lem start (suc (length s) - 1) in
    (
      drop (end + 1) start,
      sym (take-append-drop (end + 1) start),
      All-of_index (drop (end + 1) start) (λ j lt. rw (char_or_nul-drop (end + 1) j start) (
          blank_behind start (suc (length s) - 1) (end + 1 + j) (omega arith)
            (omega (arith, length-drop (end + 1) start)))),
      IsTight-take c s end solid (omega arith) last,
    )

skip_spaces_lem :
    (str : List ℕ) → (before : List ℕ) × (str ≡ before ++ skip_spaces str) × All IsBlank before
unfolding skip_spaces
skip_spaces_lem [] = ([], refl, tt)
skip_spaces_lem (c ∷ s) =
    let (before, split, blank) = skip_spaces_lem s in
    elim (Bool-cases (isspace c)) [
      | inl space ↦ (c ∷ before, rw space (ap (λ t. c ∷ t) split), (space, blank))
      | inr solid ↦ ([], rw solid, tt)
    ]

skip_spaces_solid :
    (str : List ℕ) (c : ℕ) (s : List ℕ) → skip_spaces str ≡ c ∷ s → isspace c ≡ false
unfolding skip_spaces
skip_spaces_solid [] c s h = cc
skip_spaces_solid (d ∷ str) c s h = ground (arith, skip_spaces_solid str c s)

trim_rest :
    (str before t : List ℕ)
    → skip_spaces str ≡ t
    → str ≡ before ++ t
    → All IsBlank before
    → IsTrimmed str (trim_end t)
trim_rest str before [] skipped split blank =
    unfold trim_end in
    record {
      before = before;
      after = [];
      split = split;
      blank_before = blank;
      blank_after = tt;
      tight = tt;
    }
trim_rest str before (c ∷ s) skipped split blank =
    let (after, end, blank_after, tight) =
      trim_end-IsTrimmed c s (skip_spaces_solid str c s skipped) in
    record {
      before = before;
      after = after;
      split = split ∙ ap (λ t. before ++ t) end;
      blank_before = blank;
      blank_after = blank_after;
      tight = tight;
    }

-- `trim_whitespace` returns a string that starts and ends with no space, and that stands in the
-- argument between spaces only.
pub trim_whitespace-IsTrimmed :
    (str : List ℕ)
    → (trimmed : List ℕ) × (trim_whitespace (some str) ≡ some trimmed) × IsTrimmed str trimmed
unfolding trim_whitespace
trim_whitespace-IsTrimmed str =
    let (before, split, blank) = skip_spaces_lem str in
    (trim_end (skip_spaces str), refl, trim_rest str before (skip_spaces str) refl split blank)

last_kept_self :
    (start : List ℕ) (e : ℕ) → isspace (char_or_nul start e) ≡ false → last_kept start e ≡ e
unfolding last_kept
last_kept_self start zero h = refl
last_kept_self start (suc e) h = rw h

All-char_or_nul :
    (s : List ℕ) (j : ℕ)
    → All (λ c. isspace c ≡ false) s
    → j < length s
    → isspace (char_or_nul s j) ≡ false
All-char_or_nul [] j h lt = absurd (omega arith)
All-char_or_nul (c ∷ s) zero h lt = h.0
All-char_or_nul (c ∷ s) (suc j) h lt = All-char_or_nul s j h.1 (omega arith)

-- A string with no spaces is returned as it is.
pub trim_whitespace_solid :
    (str : List ℕ) → All (λ c. isspace c ≡ false) str → trim_whitespace (some str) ≡ some str
unfolding trim_whitespace trim_end skip_spaces
trim_whitespace_solid [] solid = refl
trim_whitespace_solid (c ∷ s) solid =
    let e : suc (length s) - 1 ≡ length s = omega arith in
    let kept : last_kept (c ∷ s) (length s) ≡ length s =
      last_kept_self (c ∷ s) (length s) (All-char_or_nul (c ∷ s) (length s) solid (omega arith)) in
    rw (solid.0, trim_end) (rw (e, kept) (ap some (take_all (length s + 1) (c ∷ s) (omega arith))))
