-- ===== src/Base/Bits.antt =====
-- Laws of `bit_and` and `bit_or` at variables.
use Prim.Native.Nat.{ℕ, zero, suc, ◌+◌, ◌-◌, ◌*◌, ◌/◌, ◌%◌, ◌^◌, ◌≤◌, ◌<◌, min, max}
use Prim.Native.Nat.{bit_and, bit_or, digits, bit_and-bitwise, bit_or-bitwise}
use mathlib.Core.Path.{◌≡◌, refl, ap}
use native.Mathlib.Nat.{pow-suc, one-le-pow}
use native.Mathlib.Omega.{arith}

-- The count of digits that `digits` is given is irrelevant once it reaches the first number.
module _ (z : ℕ → ℕ) (f : ℕ → ℕ → ℕ) where
  enough_digits : (n : ℕ) (a b m : ℕ) → a ≤ n → a ≤ m → digits z f n a b ≡ digits z f m a b
  enough_digits zero zero b zero _ _ = refl
  enough_digits zero zero b (suc m) _ _ = refl
  enough_digits (suc n) zero b zero _ _ = refl
  enough_digits (suc n) zero b (suc m) _ _ = refl
  enough_digits zero (suc a) b m h _ = absurd (omega arith)
  enough_digits (suc n) (suc a) b zero _ h = absurd (omega arith)
  enough_digits (suc n) (suc a) b (suc m) h h' =
      let rest = enough_digits n (suc a / 2) (b / 2) m (omega arith) (omega arith) in
      ap (λ (t : ℕ). t * 2 + f (suc a % 2) (b % 2)) rest

-- One binary digit at a time.
pub and_digit : (a b : ℕ) → bit_and a b ≡ 2 * bit_and (a / 2) (b / 2) + min (a % 2) (b % 2)
and_digit zero b = omega (arith, bit_and-bitwise 0 b, bit_and-bitwise 0 (b / 2))
and_digit (suc a) b = omega (
  arith,
  bit_and-bitwise (suc a) b,
  bit_and-bitwise (suc a / 2) (b / 2),
  enough_digits (λ _. zero) min a (suc a / 2) (b / 2) (suc a / 2) (omega arith) (omega arith),
)

pub or_digit : (a b : ℕ) → bit_or a b ≡ 2 * bit_or (a / 2) (b / 2) + max (a % 2) (b % 2)
or_digit zero b = omega (arith, bit_or-bitwise 0 b, bit_or-bitwise 0 (b / 2))
or_digit (suc a) b = omega (
  arith,
  bit_or-bitwise (suc a) b,
  bit_or-bitwise (suc a / 2) (b / 2),
  enough_digits (λ y. y) max a (suc a / 2) (b / 2) (suc a / 2) (omega arith) (omega arith),
)

-- `digits` at no digit of the first number.
pub zero-and : (b : ℕ) → bit_and 0 b ≡ 0
zero-and b = bit_and-bitwise 0 b

pub zero-or : (b : ℕ) → bit_or 0 b ≡ b
zero-or b = bit_or-bitwise 0 b

-- Numbers of `k` digits, by induction on `k`.
and-zero_below : (k a : ℕ) → a < 2 ^ k → bit_and a 0 ≡ 0
and-zero_below zero a h = ground (arith, zero-and 0)
and-zero_below (suc k) a h =
    omega (arith, and_digit a 0, and-zero_below k (a / 2) (omega (arith, pow-suc 2 k)))

or-zero_below : (k a : ℕ) → a < 2 ^ k → bit_or a 0 ≡ a
or-zero_below zero a h = ground (arith, zero-or 0)
or-zero_below (suc k) a h =
    omega (arith, or_digit a 0, or-zero_below k (a / 2) (omega (arith, pow-suc 2 k)))

lt-two_pow : (n : ℕ) → n < 2 ^ n
lt-two_pow zero = omega arith
lt-two_pow (suc n) = omega (arith, lt-two_pow n, pow-suc 2 n)

pub and-zero : (a : ℕ) → bit_and a 0 ≡ 0
and-zero a = and-zero_below a a (lt-two_pow a)

pub or-zero : (a : ℕ) → bit_or a 0 ≡ a
or-zero a = or-zero_below a a (lt-two_pow a)

half_shifted : (q k r : ℕ) → (q * 2 ^ suc k + r) / 2 ≡ q * 2 ^ k + r / 2
half_shifted q k r = omega (arith, ap (λ (t : ℕ). q * t) (pow-suc 2 k))

parity_shifted : (q k r : ℕ) → (q * 2 ^ suc k + r) % 2 ≡ r % 2
parity_shifted q k r = omega (arith, ap (λ (t : ℕ). q * t) (pow-suc 2 k))

double_shifted : (q k r : ℕ) → 2 * (q * 2 ^ k + r) ≡ q * 2 ^ suc k + 2 * r
double_shifted q k r = omega (arith, ap (λ (t : ℕ). q * t) (pow-suc 2 k))

-- Both operations work on the low `k` digits and on the others apart.
pub and_split :
    (k p q r s : ℕ)
    → r < 2 ^ k
    → s < 2 ^ k
    → bit_and (p * 2 ^ k + r) (q * 2 ^ k + s) ≡ bit_and p q * 2 ^ k + bit_and r s
and_split zero p q r s hr hs = ground (arith, zero-and 0)
and_split (suc k) p q r s hr hs = ground (
  arith,
  and_digit (p * 2 ^ suc k + r) (q * 2 ^ suc k + s),
  and_digit r s,
  half_shifted p k r,
  half_shifted q k s,
  parity_shifted p k r,
  parity_shifted q k s,
  pow-suc 2 k,
  double_shifted (bit_and p q) k (bit_and (r / 2) (s / 2)),
  and_split k p q (r / 2) (s / 2),
)

pub or_split :
    (k p q r s : ℕ)
    → r < 2 ^ k
    → s < 2 ^ k
    → bit_or (p * 2 ^ k + r) (q * 2 ^ k + s) ≡ bit_or p q * 2 ^ k + bit_or r s
or_split zero p q r s hr hs = ground (arith, zero-or 0)
or_split (suc k) p q r s hr hs = ground (
  arith,
  or_digit (p * 2 ^ suc k + r) (q * 2 ^ suc k + s),
  or_digit r s,
  half_shifted p k r,
  half_shifted q k s,
  parity_shifted p k r,
  parity_shifted q k s,
  pow-suc 2 k,
  double_shifted (bit_or p q) k (bit_or (r / 2) (s / 2)),
  or_split k p q (r / 2) (s / 2),
)

-- All ones among the low `k` digits keep a number of `k` digits.
pub and_ones : (k r : ℕ) → r < 2 ^ k → bit_and r (2 ^ k - 1) ≡ r
and_ones zero r h = ground (arith, zero-and 0)
and_ones (suc k) r h =
    ground (arith, and_digit r (2 ^ suc k - 1), pow-suc 2 k, one-le-pow k 2, and_ones k (r / 2))

pub or_ones : (k r : ℕ) → r < 2 ^ k → bit_or r (2 ^ k - 1) ≡ 2 ^ k - 1
or_ones zero r h = ground (arith, zero-or 0)
or_ones (suc k) r h =
    ground (arith, or_digit r (2 ^ suc k - 1), pow-suc 2 k, one-le-pow k 2, or_ones k (r / 2))
