-- ===== src/Demo/LinkedList/Erase.antt =====
-- A sequence of links without one of them.
use garbagecollector.Base.{
  ℕ, suc, ◌≡◌, refl, ◌⊎◌, inl, inr, List, [], ◌∷◌, ◌++◌, length, get_elem?, some, All, All-append,
  All-split, arith,
}
use garbagecollector.Demo.LinkedList.Shape.{Cell, Apart, Separate, final}

-- Without the element behind `z`.
pub All-erase {ℓ} :
    {A : Type ℓ} (P : A → Type 0) (xs : List A) (z c : A) (ys : List A)
    → All P (xs ++ z ∷ c ∷ ys)
    → All P (xs ++ z ∷ ys)
All-erase P xs z c ys all =
    let (a, b) = All-split P xs (z ∷ c ∷ ys) all in All-append P xs (z ∷ ys) a (b.0, b.1.1)

pub Separate-erase :
    (xs : List Cell) (z c : Cell) (ys : List Cell)
    → Separate (xs ++ z ∷ c ∷ ys)
    → Separate (xs ++ z ∷ ys)
Separate-erase [] z c ys (out, s) = (out.1, s.1)
Separate-erase (x ∷ xs) z c ys (out, s) =
    (All-erase (Apart x.0 16) xs z c ys out, Separate-erase xs z c ys s)

-- A link is apart from those before it.
pub Separate-before :
    (xs : List Cell) (z : Cell) (ys : List Cell)
    → Separate (xs ++ z ∷ ys)
    → All (Apart z.0 16) xs × All (Apart z.0 16) ys
Separate-before [] z ys (out, s) = (tt, out)
Separate-before (x ∷ xs) z ys (out, s) =
    let (b, c) = Separate-before xs z ys s in
    let here = (All-split (Apart x.0 16) xs (z ∷ ys) out).1.0 in ((ground (arith, here), b), c)

pub get_elem?-middle {ℓ} :
    {A : Type ℓ} (xs : List A) (c : A) (ys : List A) → get_elem? (xs ++ c ∷ ys) (length xs) ≡ some c
get_elem?-middle [] c ys = refl
get_elem?-middle (x ∷ xs) c ys = get_elem?-middle xs c ys

pub get_elem?-behind {ℓ} :
    {A : Type ℓ} (xs : List A) (z c : A) (ys : List A)
    → get_elem? (xs ++ z ∷ c ∷ ys) (suc (length xs)) ≡ some c
get_elem?-behind [] z c ys = refl
get_elem?-behind (x ∷ xs) z c ys = get_elem?-behind xs z c ys

pub final-erase :
    (p : ℕ) (xs : List Cell) (z c d : Cell) (ys : List Cell)
    → final p (xs ++ z ∷ c ∷ d ∷ ys) ≡ final p (xs ++ z ∷ d ∷ ys)
final-erase p [] z c d ys = refl
final-erase p (x ∷ xs) z c d ys = final-erase x.0 xs z c d ys

-- What the list's last link is, if there is one.
pub last_of :
    (ys : List Cell) (c : Cell) (p : ℕ) → p ≡ final 0 (c ∷ ys) → (ys ≡ []) ⊎ (p ≡ final 0 ys)
last_of [] c p e = inl refl
last_of (d ∷ ys) c p e = inr e
