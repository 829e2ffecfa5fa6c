-- ===== src/Base/Masks.antt =====
-- Masks and fields: the bit operations that the emulator makes, as arithmetic.
use Prim.Native.Nat.{ℕ, ◌+◌, ◌-◌, ◌*◌, ◌/◌, ◌%◌, ◌^◌, ◌<◌, bit_and, bit_or}
use mathlib.Core.Path.{◌≡◌}
use native.Mathlib.Nat.{div-lt_iff_lt-mul, one-le-pow}
use native.Mathlib.Omega.{arith}
use aarch64_emu.Base.Bits.{and_split, or_split, and_ones, and-zero, or-zero, zero-or}

-- A mask of the low `k` places is the remainder by `2 ^ k`.
pub and_mask : (k a : ℕ) → bit_and a (2 ^ k - 1) ≡ a % 2 ^ k
and_mask k a = ground (
  arith,
  one-le-pow k 2,
  and_split k (a / 2 ^ k) 0 (a % 2 ^ k) (2 ^ k - 1),
  and-zero (a / 2 ^ k),
  and_ones k (a % 2 ^ k),
)

-- One place.
pub and_one : (a : ℕ) → bit_and a 1 ≡ a % 2
and_one a = and_mask 1 a

-- Fields that do not overlap add up, in either order.
pub or_above : (k q r : ℕ) → r < 2 ^ k → bit_or (q * 2 ^ k) r ≡ q * 2 ^ k + r
or_above k q r h = ground (arith, one-le-pow k 2, or_split k q 0 0 r, or-zero q, zero-or r)

pub or_below : (k q r : ℕ) → r < 2 ^ k → bit_or r (q * 2 ^ k) ≡ q * 2 ^ k + r
or_below k q r h = ground (arith, one-le-pow k 2, or_split k 0 q r 0, zero-or q, or-zero r)

-- The places from `k` on, as a mask of `j` ones above `k` zeros keeps them.
pub and_high : (k j a : ℕ) → a < 2 ^ j * 2 ^ k → bit_and a ((2 ^ j - 1) * 2 ^ k) ≡ a / 2 ^ k * 2 ^ k
and_high k j a h =
    let fits : a / 2 ^ k < 2 ^ j = (div-lt_iff_lt-mul (one-le-pow k 2 (omega arith))).1 h in
    ground (
      arith,
      one-le-pow k 2,
      and_split k (a / 2 ^ k) (2 ^ j - 1) (a % 2 ^ k) 0,
      and-zero (a % 2 ^ k),
      and_ones j (a / 2 ^ k),
    )

-- One place, at `k`.
pub and_place : (k a : ℕ) → bit_and a (2 ^ k) ≡ a / 2 ^ k % 2 * 2 ^ k
and_place k a = ground (
  arith,
  one-le-pow k 2,
  and_split k (a / 2 ^ k) 1 (a % 2 ^ k) 0,
  and-zero (a % 2 ^ k),
  and_one (a / 2 ^ k),
)
