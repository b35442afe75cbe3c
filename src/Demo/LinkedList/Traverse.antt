-- ===== src/Demo/LinkedList/Traverse.antt =====
-- An iterator on its way through a list.
use mathlib.Core.Path.{subst}
use garbagecollector.Base.{
  ℕ, zero, suc, ◌+◌, ◌-◌, ◌^◌, ◌≤◌, ◌<◌, ◌≡◌, ◌≢◌, refl, ap, ◌∙◌, ◌⊎◌, inl, List, [], ◌∷◌, length,
  get_elem?, some, some_inj, min, All, All-map, arith,
}
use garbagecollector.Memory.{load64, store64, load64-store64, store64_outside}
use garbagecollector.Alloc.{State}
use garbagecollector.Demo.{Cmd, pure, ◌>>=◌}
use garbagecollector.Demo.Fields.{not_null, field64_lem, set_field64_lem}
use garbagecollector.Demo.LinkedList.{value, next, current}
use garbagecollector.Demo.LinkedList.Shape.{Cell, Agree, Apart, Chain, Chain-Agree}
use garbagecollector.Demo.Iterator.{
  step, ioopm_iterator_has_next, ioopm_iterator_next, ioopm_iterator_current,
}

-- `ioopm_iterator_next`, as often as a loop over a list calls it.
unfoldable pub advance : ℕ → ℕ → Cmd (Unit {0})
advance iter zero = pure tt
advance iter (suc k) = do _ ← ioopm_iterator_next iter; advance iter k

module _ (iter : ℕ) (real : iter ≢ 0) where
  -- The rest of the list, from the iterator's link on, with the iterator's bytes apart from it.
  abbrev pub Ahead : State → List Cell → Type 0
  Ahead s cells =
      Chain s.memory (load64 (iter + current) s.memory) cells 0
      × All (Apart iter 16) cells
      × All (λ c. c.0 < 2 ^ 64) cells

  current_lem :
      (s : State) (c : Cell) (cells : List Cell)
      → Ahead s (c ∷ cells)
      → ioopm_iterator_current iter s ≡ some (c.1, s)
  unfolding ioopm_iterator_current
  current_lem s c cells ahead =
      let (at, c_real, held, _) = ahead.0 in
      rw
        (
          ioopm_iterator_current,
          field64_lem iter current s real,
          at,
          field64_lem c.0 value s c_real,
          held,
        )
        refl

  -- At the last link `next` stays.
  next-last : (s : State) (c : Cell) → Ahead s (c ∷ []) → ioopm_iterator_next iter s ≡ some (c.1, s)
  unfolding ioopm_iterator_next ioopm_iterator_has_next
  next-last s c ahead =
      let (at, c_real, held, end) = ahead.0 in
      rw
        (
          ioopm_iterator_next,
          ioopm_iterator_has_next,
          field64_lem iter current s real,
          at,
          field64_lem c.0 next s c_real,
          end,
        )
        (current_lem s c [] ahead)

  -- Before the last link `next` goes to the link behind and gives its value.
  next-step :
      (s : State) (c d : Cell) (cells : List Cell)
      → Ahead s (c ∷ d ∷ cells)
      → (s' : State) × (ioopm_iterator_next iter s ≡ some (d.1, s'))
        × Ahead s' (d ∷ cells)
        × ((a : ℕ) → (s'.memory a ≡ s.memory a) ⊎ ((iter ≤ a) × (a < iter + 8)))
  unfolding ioopm_iterator_next ioopm_iterator_has_next step
  next-step s c d cells ahead =
      let m = s.memory in
      let (at, c_real, _, (at_d, d_real, d_held, rest)) = ahead.0 in
      let m' = store64 (iter + current) d.0 m in
      let s' : State = record s { memory = m' } in
      let moved : load64 (iter + current) m' ≡ d.0 =
        load64-store64 (iter + current) d.0 m ahead.2.1.0 in
      let same : All (λ x. Agree m m' x.0 16) (d ∷ cells) =
        All-map (Apart iter 16) (λ x. Agree m m' x.0 16) (d ∷ cells)
          (λ x h a low high. ground (arith, h, store64_outside (iter + current) d.0 m a))
          ahead.1.1 in
      let ahead' : Ahead s' (d ∷ cells) = (
        rw moved (Chain-Agree m m' (d ∷ cells) d.0 0 (refl, d_real, d_held, rest) same),
        ahead.1.1,
        ahead.2.1,
      ) in
      (
        s',
        rw
            (
              ioopm_iterator_next,
              ioopm_iterator_has_next,
              field64_lem iter current s real,
              at,
              field64_lem c.0 next s c_real,
              at_d,
              not_null d.0 next s d_real,
              step,
              field64_lem iter current s real,
              at,
              field64_lem c.0 next s c_real,
              at_d,
              set_field64_lem iter current s real d.0,
            )
            (current_lem s' d cells ahead'),
        ahead',
        λ a. ground (arith, store64_outside (iter + current) d.0 m a),
      )

  -- For an iterator that is not NULL and stands at the first link of a list, with its bytes apart
  -- from the links, which are below 2 ^ 64, after `k` calls of `ioopm_iterator_next` the call of
  -- `ioopm_iterator_current` gives the value at `k`, or the last one if there are fewer; the calls
  -- write no byte but those of the current link in the iterator.
  pub current-advance :
      (k : ℕ) (s : State) (cells : List Cell) (x : Cell)
      → Ahead s cells
      → get_elem? cells (min k (length cells - 1)) ≡ some x
      → (s' : State) × (advance iter k s ≡ some (tt, s'))
        × (ioopm_iterator_current iter s' ≡ some (x.1, s'))
        × ((a : ℕ) → (s'.memory a ≡ s.memory a) ⊎ ((iter ≤ a) × (a < iter + 8)))
  unfolding advance
  current-advance k s [] x ahead e = ground (arith, e)
  current-advance zero s (c ∷ cells) x ahead e =
      let start : min 0 (length (c ∷ cells) - 1) ≡ 0 = omega arith in
      let at : c ≡ x = some_inj c x (subst (λ i. get_elem? (c ∷ cells) i ≡ some x) start e) in
      (s, refl, current_lem s c cells ahead ∙ ap (λ (y : Cell). some (y.1, s)) at, λ a. inl refl)
  current-advance (suc k) s (c ∷ []) x ahead e =
      let stay : min (suc k) (length (c ∷ []) - 1) ≡ min k (length (c ∷ []) - 1) = omega arith in
      let (s', run, found, frame) =
        current-advance k s (c ∷ []) x ahead (subst (λ i. get_elem? (c ∷ []) i ≡ some x) stay e) in
      (s', rw (next-last s c ahead) run, found, frame)
  current-advance (suc k) s (c ∷ d ∷ cells) x ahead e =
      let (s₁, run, ahead₁, frame₁) = next-step s c d cells ahead in
      let on : min (suc k) (length (c ∷ d ∷ cells) - 1) ≡ suc (min k (length (d ∷ cells) - 1)) =
        omega arith in
      let (s', run', found, frame) =
        current-advance k s₁ (d ∷ cells) x ahead₁
          (subst (λ i. get_elem? (c ∷ d ∷ cells) i ≡ some x) on e) in
      (s', rw run run', found, λ a. ground (arith, frame₁ a, frame a))
