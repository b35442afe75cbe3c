-- ===== src/Demo/LinkedList/Shape.antt =====
-- The sequence of links that a list in the memory stands for.
use garbagecollector.Base.{
  ℕ, suc, ◌+◌, ◌≤◌, ◌<◌, ◌≡◌, ◌≢◌, refl, ap, ◌∙◌, ◌⊎◌, List, [], ◌∷◌, ◌++◌, length, All, arith,
}
use garbagecollector.Memory.{Memory, load64}
use garbagecollector.Memory.Sized.{load32, load64_congr}
use garbagecollector.Demo.LinkedList.{value, next, first, last, size}

-- A link: its address and its value.
abbrev pub Cell : Type 0
Cell = ℕ × ℕ

-- From `p` the pointers lead through the links to `end`.
abbrev pub Chain : Memory → ℕ → List Cell → ℕ → Type 0
Chain m p [] end = p ≡ end
Chain m p (c ∷ cells) end =
    (p ≡ c.0)
    × (c.0 ≢ 0)
    × (load64 (c.0 + value) m ≡ c.1)
    × Chain m (load64 (c.0 + next) m) cells end

-- The 16 bytes of a link do not meet those at `b` of length `n`.
abbrev pub Apart : ℕ → ℕ → Cell → Type 0
Apart b n c = (c.0 + 16 ≤ b) ⊎ (b + n ≤ c.0)

abbrev pub Separate : List Cell → Type 0
Separate [] = Unit
Separate (c ∷ cells) = All (Apart c.0 16) cells × Separate cells

abbrev pub final : ℕ → List Cell → ℕ
final p [] = p
final p (c ∷ cells) = final c.0 cells

-- Two memories agree on the bytes from `b` on, `n` of them.
abbrev pub Agree : Memory → Memory → ℕ → ℕ → Type 0
Agree m m' b n = (a : ℕ) → b ≤ a → a < b + n → m' a ≡ m a

pub Chain-Agree :
    (m m' : Memory) (cells : List Cell) (p end : ℕ)
    → Chain m p cells end
    → All (λ c. Agree m m' c.0 16) cells
    → Chain m' p cells end
Chain-Agree m m' [] p end h same = h
Chain-Agree m m' (c ∷ cells) p end (at, real, v, rest) (here, same) =
    let e : load64 (c.0 + next) m' ≡ load64 (c.0 + next) m =
      load64_congr (c.0 + next) m' m (λ a low high. here a (omega arith) (omega arith)) in
    let e' : load64 (c.0 + value) m' ≡ load64 (c.0 + value) m =
      load64_congr (c.0 + value) m' m (λ a low high. here a (omega arith) (omega arith)) in
    (at, real, e' ∙ v, rw e (Chain-Agree m m' cells (load64 (c.0 + next) m) end rest same))

pub Chain-append :
    (m : Memory) (xs ys : List Cell) (p q end : ℕ)
    → Chain m p xs q
    → Chain m q ys end
    → Chain m p (xs ++ ys) end
Chain-append m [] ys p q end h k = rw h k
Chain-append m (c ∷ xs) ys p q end (at, real, v, rest) k =
    (at, real, v, Chain-append m xs ys (load64 (c.0 + next) m) q end rest k)

pub Chain-split :
    (m : Memory) (xs ys : List Cell) (p end : ℕ)
    → Chain m p (xs ++ ys) end
    → (q : ℕ) × Chain m p xs q × Chain m q ys end
Chain-split m [] ys p end h = (p, refl, h)
Chain-split m (c ∷ xs) ys p end (at, real, v, rest) =
    let (q, a, b) = Chain-split m xs ys (load64 (c.0 + next) m) end rest in (q, (at, real, v, a), b)

-- A list: its links end with NULL, it knows the last one and how many there are, and no two of its
-- parts share a byte.
pub record IsList (m : Memory) (list : ℕ) (cells : List Cell) : Type 0 where
  pub real : list ≢ 0
  pub chain : Chain m (load64 (list + first) m) cells 0
  pub end : (cells ≡ []) ⊎ (load64 (list + last) m ≡ final 0 cells)
  pub count : load32 (list + size) m ≡ length cells
  pub separate : Separate cells
  pub apart : All (Apart list 28) cells

-- The values, which is what a list is to its clients.
abbrev pub values : List Cell → List ℕ
values [] = []
values (c ∷ cells) = c.1 ∷ values cells

pub values-append : (xs ys : List Cell) → values (xs ++ ys) ≡ values xs ++ values ys
values-append [] ys = refl
values-append (c ∷ xs) ys = ap (λ (t : List ℕ). c.1 ∷ t) (values-append xs ys)

pub length-values : (cells : List Cell) → length (values cells) ≡ length cells
length-values [] = refl
length-values (c ∷ cells) = ap suc (length-values cells)

-- A list that is not empty has a last link.
pub last_link :
    (p : ℕ) (c : Cell) (cells : List Cell)
    → (init : List Cell) × (z : Cell) × (c ∷ cells ≡ init ++ z ∷ []) × (final p (c ∷ cells) ≡ z.0)
last_link p c [] = ([], c, refl, refl)
last_link p c (d ∷ cells) =
    let (init, z, e, f) = last_link c.0 d cells in (c ∷ init, z, ap (λ (t : List Cell). c ∷ t) e, f)
