-- ===== src/Demo/LinkedList/Grow.antt =====
-- The memory after a link has been put at an end of a list.
use mathlib.Core.List.{append_assoc}
use garbagecollector.Base.{
  ℕ, ◌+◌, ◌^◌, ◌≤◌, ◌<◌, ◌≡◌, ◌≢◌, refl, sym, ◌∙◌, ◌⊎◌, inl, inr, List, [], ◌∷◌, ◌++◌, length,
  length-append, All, All-map_two, All-append, All-split, arith,
}
use garbagecollector.Memory.{
  Memory, load64, store64, load64-store64, store64_outside, load64-store64_outside,
}
use garbagecollector.Memory.Sized.{
  load32, store32, load32-store32, store32_outside, load64-store32_outside, load32-store64_outside,
}
use garbagecollector.Demo.{int_suc}
use garbagecollector.Demo.LinkedList.{value, next, first, last, size}
use garbagecollector.Demo.LinkedList.Shape.{
  Cell, Chain, Apart, Agree, Separate, IsList, final, Chain-Agree, Chain-append, Chain-split,
}

pub Separate-split :
    (xs : List Cell) (z : Cell) → Separate (xs ++ z ∷ []) → Separate xs × All (Apart z.0 16) xs
Separate-split [] z s = (tt, tt)
Separate-split (c ∷ xs) z (out, s) =
    let (a, b) = All-split (Apart c.0 16) xs (z ∷ []) out in
    let (s', all) = Separate-split xs z s in ((a, s'), (ground (arith, b.0), all))

pub Separate-append :
    (xs : List Cell) (z : Cell) → Separate xs → All (Apart z.0 16) xs → Separate (xs ++ z ∷ [])
Separate-append [] z s out = (tt, tt)
Separate-append (c ∷ xs) z (a, s) (here, out) =
    (All-append (Apart c.0 16) xs (z ∷ []) a (ground (arith, here), tt), Separate-append xs z s out)

pub final-append : (p : ℕ) (xs : List Cell) (z : Cell) → final p (xs ++ z ∷ []) ≡ z.0
final-append p [] z = refl
final-append p (c ∷ xs) z = final-append c.0 xs z

module _ (m : Memory) (list p v : ℕ) (small : v < 2 ^ 64) (p-small : p < 2 ^ 64) (real : p ≢ 0)
    (outside : (list + 28 ≤ p) ⊎ (p + 16 ≤ list)) (holds : load64 (p + value) m ≡ v) where
  -- The list's size, one more.
  unfoldable pub counted : Memory → Memory
  counted m' = store32 (list + size) (int_suc (load32 (list + size) m')) m'

  count_lem :
      (m' : Memory) (n : ℕ)
      → load32 (list + size) m' ≡ n
      → n + 1 < 2 ^ 32
      → load32 (list + size) (counted m') ≡ n + 1
  unfolding counted
  count_lem m' n e few =
      let e' : int_suc (load32 (list + size) m') ≡ n + 1 = omega (arith, e) in
      load32-store32 (list + size) (int_suc (load32 (list + size) m')) m' (omega (arith, e')) ∙ e'

  -- The only link.
  unfoldable pub alone : Memory
  alone = counted (store64 (list + last) p (store64 (list + first) p m))

  pub alone-IsList : IsList m list [] → load64 (p + next) m ≡ 0 → IsList alone list ((p, v) ∷ [])
  unfolding alone counted
  alone-IsList is bare =
      let m₁ = store64 (list + first) p m in
      let m₂ = store64 (list + last) p m₁ in
      let n = int_suc (load32 (list + size) m₂) in
      let count : load32 (list + size) m₂ ≡ 0 =
        load32-store64_outside (list + size) (list + last) p m₁ (inr (omega arith))
        ∙ load32-store64_outside (list + size) (list + first) p m (inr (omega arith))
        ∙ is.count in
      let begin : load64 (list + first) alone ≡ p =
        load64-store32_outside (list + first) (list + size) n m₂ (inl (omega arith))
        ∙ load64-store64_outside (list + last) p m₁ (list + first) (inl (omega arith))
        ∙ load64-store64 (list + first) p m p-small in
      let stop : load64 (list + last) alone ≡ p =
        load64-store32_outside (list + last) (list + size) n m₂ (inl (omega arith))
        ∙ load64-store64 (list + last) p m₁ p-small in
      let kept = λ (a : ℕ) (apart : (a + 8 ≤ list) ⊎ (list + 28 ≤ a)).
        load64-store32_outside a (list + size) n m₂ (ground (arith, apart))
        ∙ load64-store64_outside (list + last) p m₁ a (ground (arith, apart))
        ∙ load64-store64_outside (list + first) p m a (ground (arith, apart)) in
      record {
        real = is.real;
        chain = (
          begin,
          real,
          kept (p + value) (ground (arith, outside)) ∙ holds,
          kept (p + next) (ground (arith, outside)) ∙ bare,
        );
        end = inr stop;
        count = count_lem m₂ 0 count (omega arith);
        separate = (tt, tt);
        apart = (ground (arith, outside), tt);
      }

  -- The link behind the last one, which is `z`.
  unfoldable pub behind : ℕ → Memory
  behind z = counted (store64 (list + last) p (store64 (z + next) p m))

  pub behind-IsList :
      (init : List Cell) (z : Cell)
      → IsList m list (init ++ z ∷ [])
      → All (Apart p 16) (init ++ z ∷ [])
      → load64 (p + next) m ≡ 0
      → length (init ++ z ∷ []) + 1 < 2 ^ 32
      → IsList (behind z.0) list ((init ++ z ∷ []) ++ (p, v) ∷ [])
  unfolding behind counted
  behind-IsList init z is away bare few =
      let cells = init ++ z ∷ [] in
      let m₁ = store64 (z.0 + next) p m in
      let m₂ = store64 (list + last) p m₁ in
      let n = int_suc (load32 (list + size) m₂) in
      let (sep, from_z) = Separate-split init z is.separate in
      let (from_list, z_list) = All-split (Apart list 28) init (z ∷ []) is.apart in
      let (away_init, away_z) = All-split (Apart p 16) init (z ∷ []) away in
      let (q, chain, (at, z_real, z_holds, z_end)) =
        Chain-split m init (z ∷ []) (load64 (list + first) m) 0 is.chain in
      let same : All (λ c. Agree m (behind z.0) c.0 16) init =
        All-map_two (Apart z.0 16) (Apart list 28) (λ c. Agree m (behind z.0) c.0 16) init
          (λ c h k a low high. ground (
            arith,
            h,
            k,
            store32_outside a (list + size) n m₂,
            store64_outside (list + last) p m₁ a,
            store64_outside (z.0 + next) p m a,
          ))
          from_z from_list in
      let kept =
        λ (a : ℕ) (x : (a + 8 ≤ list + 8) ⊎ (list + 28 ≤ a))
            (y : (a + 8 ≤ z.0 + 8) ⊎ (z.0 + 16 ≤ a)).
          load64-store32_outside a (list + size) n m₂ (ground (arith, x))
          ∙ load64-store64_outside (list + last) p m₁ a (ground (arith, x))
          ∙ load64-store64_outside (z.0 + next) p m a (ground (arith, y)) in
      let begin : load64 (list + first) (behind z.0) ≡ load64 (list + first) m =
        kept (list + first) (inl (omega arith)) (ground (arith, z_list.0)) in
      let step : load64 (z.0 + next) (behind z.0) ≡ p =
        load64-store32_outside (z.0 + next) (list + size) n m₂ (ground (arith, z_list.0))
        ∙ load64-store64_outside (list + last) p m₁ (z.0 + next) (ground (arith, z_list.0))
        ∙ load64-store64 (z.0 + next) p m p-small in
      let count : load32 (list + size) m₂ ≡ length cells =
        load32-store64_outside (list + size) (list + last) p m₁ (inr (omega arith))
        ∙ load32-store64_outside (list + size) (z.0 + next) p m (ground (arith, z_list.0))
        ∙ is.count in
      let stop : load64 (list + last) (behind z.0) ≡ p =
        load64-store32_outside (list + last) (list + size) n m₂ (inl (omega arith))
        ∙ load64-store64 (list + last) p m₁ p-small in
      let fresh : Chain (behind z.0) p ((p, v) ∷ []) 0 = (
        refl,
        real,
        kept (p + value) (ground (arith, outside)) (ground (arith, away_z.0)) ∙ holds,
        kept (p + next) (ground (arith, outside)) (ground (arith, away_z.0)) ∙ bare,
      ) in
      let last_two : Chain (behind z.0) q (z ∷ (p, v) ∷ []) 0 = (
        at,
        z_real,
        kept (z.0 + value) (ground (arith, z_list.0)) (inl (omega arith)) ∙ z_holds,
        rw step fresh,
      ) in
      record {
        real = is.real;
        chain =
            rw (begin, append_assoc init (z ∷ []) ((p, v) ∷ []))
              (Chain-append (behind z.0) init (z ∷ (p, v) ∷ []) (load64 (list + first) m) q 0
                (Chain-Agree m (behind z.0) init (load64 (list + first) m) q chain same) last_two);
        end = inr (stop ∙ sym (final-append 0 cells (p, v)));
        count = count_lem m₂ (length cells) count few ∙ sym (length-append cells ((p, v) ∷ []));
        separate = Separate-append cells (p, v) is.separate away;
        apart =
            All-append (Apart list 28) cells ((p, v) ∷ []) is.apart (ground (arith, outside), tt);
      }

  -- The link before the first one.
  unfoldable pub before : Memory
  before = counted (store64 (list + first) p (store64 (p + next) (load64 (list + first) m) m))

  pub before-IsList :
      (c : Cell) (cells : List Cell)
      → c.0 < 2 ^ 64
      → IsList m list (c ∷ cells)
      → All (Apart p 16) (c ∷ cells)
      → length (c ∷ cells) + 1 < 2 ^ 32
      → IsList before list ((p, v) ∷ c ∷ cells)
  unfolding before counted
  before-IsList c cells c_small is away few =
      let old = load64 (list + first) m in
      let m₁ = store64 (p + next) old m in
      let m₂ = store64 (list + first) p m₁ in
      let n = int_suc (load32 (list + size) m₂) in
      let same : All (λ d. Agree m before d.0 16) (c ∷ cells) =
        All-map_two (Apart p 16) (Apart list 28) (λ d. Agree m before d.0 16) (c ∷ cells)
          (λ d h k a low high. ground (
            arith,
            h,
            k,
            store32_outside a (list + size) n m₂,
            store64_outside (list + first) p m₁ a,
            store64_outside (p + next) old m a,
          ))
          away is.apart in
      let begin : load64 (list + first) before ≡ p =
        load64-store32_outside (list + first) (list + size) n m₂ (inl (omega arith))
        ∙ load64-store64 (list + first) p m₁ p-small in
      let step : load64 (p + next) before ≡ old =
        load64-store32_outside (p + next) (list + size) n m₂ (ground (arith, outside))
        ∙ load64-store64_outside (list + first) p m₁ (p + next) (ground (arith, outside))
        ∙ load64-store64 (p + next) old m (omega (arith, is.chain.0, c_small)) in
      let front : load64 (p + value) before ≡ v =
        load64-store32_outside (p + value) (list + size) n m₂ (ground (arith, outside))
        ∙ load64-store64_outside (list + first) p m₁ (p + value) (ground (arith, outside))
        ∙ load64-store64_outside (p + next) old m (p + value) (inl (omega arith))
        ∙ holds in
      let stop : load64 (list + last) before ≡ load64 (list + last) m =
        load64-store32_outside (list + last) (list + size) n m₂ (inl (omega arith))
        ∙ load64-store64_outside (list + first) p m₁ (list + last) (inr (omega arith))
        ∙ load64-store64_outside (p + next) old m (list + last) (ground (arith, outside)) in
      let count : load32 (list + size) m₂ ≡ length (c ∷ cells) =
        load32-store64_outside (list + size) (list + first) p m₁ (inr (omega arith))
        ∙ load32-store64_outside (list + size) (p + next) old m (ground (arith, outside))
        ∙ is.count in
      record {
        real = is.real;
        chain =
            (begin, real, front, rw step (Chain-Agree m before (c ∷ cells) old 0 is.chain same));
        end = elim is.end [ inl none_left ↦ absurd (cc none_left) | inr e ↦ inr (stop ∙ e) ];
        count = count_lem m₂ (length (c ∷ cells)) count few ∙ omega arith;
        separate = (away, is.separate);
        apart = (ground (arith, outside), is.apart);
      }
