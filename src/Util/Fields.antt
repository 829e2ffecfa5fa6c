-- ===== src/Util/Fields.antt =====
-- What the bit fields and masks of src/include/utils.h compute.
use aarch64_emu.Base.{
  ℕ, zero, suc, ◌+◌, ◌-◌, ◌*◌, ◌^◌, ◌/◌, ◌%◌, ◌≤◌, ◌<◌, ◌≡◌, refl, ap, arith, bit_and,
}
use aarch64_emu.Base.{◌==◌, Bool-cases, inl, inr}
use aarch64_emu.Base.Masks.{and_mask, and_one, and_high, or_above}
use native.Mathlib.Nat.{add-suc, pow-suc, one-le-pow, div-lt_iff_lt-mul, mod-lt}
use aarch64_emu.Base.Bits.{or-zero}
use aarch64_emu.Access.{MemAccessSize, byte, hex, word, dword, width}
use aarch64_emu.Util.{mask, shift, bit, zero_extend, set_lower, set_lower32, clear_upper32}

pub pow-add : (m n : ℕ) → 2 ^ (m + n) ≡ 2 ^ m * 2 ^ n
pow-add m zero = ground arith
pow-add m (suc n) = rw add-suc (
    omega
      (arith, pow-suc 2 (m + n), pow-suc 2 n, pow-add m n, ap (λ (t : ℕ). 2 ^ m * t) (pow-suc 2 n)))

pub mask-eq : (n : ℕ) → n ≤ 64 → mask n ≡ 2 ^ n - 1
unfolding mask
mask-eq n h = elim (Bool-cases (n == 64)) [
  | inl e ↦ let e' : n ≡ 64 = ground arith in rw e' refl
  | inr e ↦ rw e refl
]

pub and-mask : (a n : ℕ) → n ≤ 64 → bit_and a (mask n) ≡ a % 2 ^ n
and-mask a n h = rw (mask-eq n h) (and_mask n a)

-- The field of an instruction from place `bottom` to place `last`, at most 63, is the number cut
-- above `last` and divided by 2 ^ `bottom`.
pub shift-eq :
    (inst bottom last : ℕ) → last ≤ 63 → shift inst bottom last ≡ inst % 2 ^ (last + 1) / 2 ^ bottom
unfolding shift
shift-eq inst bottom last h = rw (and-mask inst (last + 1) (omega arith)) refl

-- A field of `n` places is a number of `n` digits.
pub shift-lt :
    (inst bottom last n : ℕ) → last ≤ 63 → last + 1 ≡ n + bottom → shift inst bottom last < 2 ^ n
shift-lt inst bottom last n h e =
    rw (shift-eq inst bottom last h, e)
      ((div-lt_iff_lt-mul (one-le-pow bottom 2 (omega arith))).1
        (rw (← pow-add n bottom) (mod-lt inst (one-le-pow (n + bottom) 2 (omega arith)))))

pub bit-eq : (x n : ℕ) → bit x n ≡ x / 2 ^ n % 2
unfolding bit
bit-eq x n = and_one (x / 2 ^ n)

pub clear_upper32-eq : (x : ℕ) → clear_upper32 x ≡ x % 2 ^ 32
unfolding clear_upper32
clear_upper32-eq x = and_mask 32 x

pub zero_extend-eq : (x n : ℕ) → x < 2 ^ 64 → n ≤ 64 → zero_extend x n ≡ x % 2 ^ n
unfolding zero_extend
zero_extend-eq x n hx h = elim (Bool-cases (n == 64)) [
  | inl e ↦ let e' : n ≡ 64 = ground arith in rw e' (omega arith)
  | inr e ↦ rw (e, or-zero, and_mask) refl
]

pub set_lower32-eq :
    (dst src : ℕ) → dst < 2 ^ 64 → set_lower32 dst src ≡ dst / 2 ^ 32 * 2 ^ 32 + src % 2 ^ 32
unfolding set_lower32
set_lower32-eq dst src h =
    ground (arith, and_high 32 32 dst, and_mask 32 src, or_above 32 (dst / 2 ^ 32) (src % 2 ^ 32))

-- On 64-bit values, `set_lower` replaces as many low bytes as the access moves and keeps the others.
pub set_lower-eq :
    (dst src : ℕ) (size : MemAccessSize)
    → dst < 2 ^ 64
    → src < 2 ^ 64
    → set_lower dst src size
      ≡ dst / 2 ^ (8 * width size) * 2 ^ (8 * width size) + src % 2 ^ (8 * width size)
unfolding set_lower
set_lower-eq dst src byte h h' =
    ground (arith, and_high 8 56 dst, and_mask 8 src, or_above 8 (dst / 2 ^ 8) (src % 2 ^ 8))
set_lower-eq dst src hex h h' =
    ground (arith, and_high 16 48 dst, and_mask 16 src, or_above 16 (dst / 2 ^ 16) (src % 2 ^ 16))
set_lower-eq dst src word h h' =
    ground (arith, and_high 32 32 dst, and_mask 32 src, or_above 32 (dst / 2 ^ 32) (src % 2 ^ 32))
set_lower-eq dst src dword h h' = omega arith
