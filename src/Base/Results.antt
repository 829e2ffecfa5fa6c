-- ===== src/Base/Results.antt =====
-- How a piece of the emulator ends: with a value, by `exit(code)`, or in behaviour that C++ leaves
-- undefined. The build defines NDEBUG, so an `assert` does nothing.
use Prim.Native.Nat.{ℕ}
use mathlib.Core.Path.{◌≡◌, refl}

pub data Outcome {ℓ} (A : Type ℓ) : Type ℓ where
  ok : A → Outcome A
  exit : ℕ → Outcome A
  undefined : Outcome A

-- The rest of the work, where the first part has a value for it.
infixl 5 ◌>>=◌
abbrev pub ◌>>=◌ {ℓ κ} : {A : Type ℓ} {B : Type κ} (first : Outcome A) → (A → Outcome B) → Outcome B
undefined >>= rest = undefined
exit status >>= rest = exit status
ok value >>= rest = rest value

-- Inversion of a bind that ends well.
pub >>=-eq-ok {ℓ κ} :
    {A : Type ℓ} {B : Type κ} (m : Outcome A) (f : A → Outcome B) {b : B}
    → (m >>= f) ≡ ok b
    → (a : A) × (m ≡ ok a) × (f a ≡ ok b)
>>=-eq-ok undefined f h = cc
>>=-eq-ok (exit status) f h = cc
>>=-eq-ok (ok a) f h = (a, refl, h)
