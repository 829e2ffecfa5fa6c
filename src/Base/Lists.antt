-- ===== src/Base/Lists.antt =====
-- Lists with native numbers: the length, and functions that hold a list from a place on.
use Prim.Native.Nat.{ℕ, suc, ◌+◌, ◌≤◌, ◌<◌}
use mathlib.Core.Path.{◌≡◌, ap, ◌∙◌}
use mathlib.Core.List.{List, [], ◌∷◌, ◌++◌}
use native.Mathlib.Omega.{arith}

abbrev pub length {ℓ} : {A : Type ℓ} → List A → ℕ
length [] = 0
length (x ∷ xs) = suc (length xs)

pub length-append {ℓ} : {A : Type ℓ} (xs ys : List A) → length (xs ++ ys) ≡ length xs + length ys
length-append [] ys = omega arith
length-append (x ∷ xs) ys = ap suc (length-append xs ys) ∙ omega arith

-- `f` has the list at `p` and the places behind it.
abbrev pub Reads : (ℕ → ℕ) → ℕ → List ℕ → Type 0
Reads f p [] = Unit {0}
Reads f p (x ∷ xs) = (f p ≡ x) × Reads f (p + 1) xs

pub Reads-append :
    (f : ℕ → ℕ) (p : ℕ) (xs ys : List ℕ)
    → Reads f p xs
    → Reads f (p + length xs) ys
    → Reads f p (xs ++ ys)
Reads-append f p [] ys first then_ = let e : p + 0 ≡ p = omega arith in rw e at then_
Reads-append f p (x ∷ xs) ys first then_ =
    let e : p + suc (length xs) ≡ p + 1 + length xs = omega arith in
    (first.0, Reads-append f (p + 1) xs ys first.1 (rw e at then_))

-- It depends on the places of the list only.
pub Reads-same :
    (f g : ℕ → ℕ) (p : ℕ) (xs : List ℕ)
    → ((q : ℕ) → p ≤ q → q < p + length xs → g q ≡ f q)
    → Reads f p xs
    → Reads g p xs
Reads-same f g p [] same r = tt
Reads-same f g p (x ∷ xs) same r = (
  same p (omega arith) (omega arith) ∙ r.0,
  Reads-same f g (p + 1) xs (λ q le lt. same q (omega arith) (omega arith)) r.1,
)

-- The second part of a list that is read.
pub Reads-rest :
    (f : ℕ → ℕ) (p : ℕ) (xs ys : List ℕ) → Reads f p (xs ++ ys) → Reads f (p + length xs) ys
Reads-rest f p [] ys r = let e : p + 0 ≡ p = omega arith in rw e r
Reads-rest f p (x ∷ xs) ys r =
    let e : p + suc (length xs) ≡ p + 1 + length xs = omega arith in
    rw e (Reads-rest f (p + 1) xs ys r.1)
