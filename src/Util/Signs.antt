-- ===== src/Util/Signs.antt =====
-- The two sign extensions, `SIGN_EXTEND` of src/include/utils.h and `signed_extend` of src/cpu.cc.
use aarch64_emu.Base.{
  ℕ, zero, suc, ◌+◌, ◌-◌, ◌*◌, ◌^◌, ◌/◌, ◌%◌, ◌≤◌, ◌<◌, ◌≡◌, refl, arith, bit_or,
}
use aarch64_emu.Base.{ltb, if◌then◌else◌, Bool-cases, inl, inr, sym, ◌∙◌, ap}
use native.Mathlib.Nat.{
  pow-suc, one-le-pow, mod-lt, div-eq_of_lt, div-eq_of_lt-le, div-add-mod', mul-add-mod_self_right,
  mod-eq_of_lt, mul-div_cancel, pow-le-pow_right,
}
use aarch64_emu.Base.Bits.{or_split, or_ones, or-zero}
use native.Mathlib.Numerals.{add-one}
use aarch64_emu.Util.{bit, sign_extend, lsl, asr}
use aarch64_emu.Cpu.Extend.{signed_extend}
use aarch64_emu.Util.Fields.{pow-add, mask-eq, bit-eq}

-- The two's complement reading of the low `n + 1` places of a value, on 64 places.
unfoldable pub sign_value : ℕ → ℕ → ℕ
sign_value val n =
    let low = val % 2 ^ (n + 1) in if ltb low (2 ^ n) then low else low + (2 ^ 64 - 2 ^ (n + 1))

mod_scaled : (v a b : ℕ) → 0 < a → 0 < b → v * b % (a * b) ≡ v % a * b
mod_scaled v a b ha hb =
    let split : v * b ≡ v / a * (a * b) + v % a * b =
      omega (arith, ap (λ (t : ℕ). t * b) (div-add-mod' v a)) in
    let small : v % a * b < a * b = grind (arith, mod-lt v ha) in
    rw (split, mul-add-mod_self_right) (mod-eq_of_lt small)

-- The powers of two that meet in an extension from place `n`, with `k` places above it.
module _ (n k : ℕ) (e : n + k ≡ 63) where
  whole : 2 ^ 64 ≡ 2 ^ (n + 1) * 2 ^ k
  whole = let e' : n + 1 + k ≡ 64 = omega arith in rw (← pow-add (n + 1) k, e') refl

  half : 2 ^ 63 ≡ 2 ^ n * 2 ^ k
  half = rw (← pow-add n k, e) refl

  raised : (val : ℕ) → val * 2 ^ k % 2 ^ 64 ≡ val % 2 ^ (n + 1) * 2 ^ k
  raised val =
      ap (λ (t : ℕ). val * 2 ^ k % t) whole
      ∙ mod_scaled val (2 ^ (n + 1)) (2 ^ k) (one-le-pow (n + 1) 2 (omega arith))
          (one-le-pow k 2 (omega arith))

  lowered : 2 ^ 64 / 2 ^ k ≡ 2 ^ (n + 1)
  lowered =
      ap (λ (t : ℕ). t / 2 ^ k) whole ∙ mul-div_cancel (2 ^ (n + 1)) (one-le-pow k 2 (omega arith))

  below_half : (r : ℕ) → ltb (r * 2 ^ k) (2 ^ 63) ≡ ltb r (2 ^ n)
  below_half r = elim (Bool-cases (ltb r (2 ^ n))) [
    | inl small ↦
        let lt : r < 2 ^ n = ground arith in
        let lt' : r * 2 ^ k < 2 ^ n * 2 ^ k = grind (arith, one-le-pow k 2) in ground (arith, half)
    | inr large ↦
        let ge : 2 ^ n ≤ r = ground arith in
        let ge' : 2 ^ n * 2 ^ k ≤ r * 2 ^ k = grind arith in ground (arith, half)
  ]

  asr-lsl : (val : ℕ) → asr (lsl val k) k ≡ sign_value val n
  unfolding asr lsl sign_value
  asr-lsl val =
      let low = val % 2 ^ (n + 1) in
      ground (
        arith,
        raised val,
        lowered,
        below_half low,
        mul-div_cancel low (one-le-pow k 2 (omega arith)),
      )

-- `SIGN_EXTEND` of a pattern whose sign stands at place `n` gives the number that its low places stand
-- for in two's complement, as a 64-bit pattern.
pub sign_extend-eq : (val n : ℕ) → n ≤ 63 → sign_extend val (n + 1) ≡ sign_value val n
unfolding sign_extend
sign_extend-eq val n h =
    let e : (64 + 256 - (n + 1)) % 2 ^ 8 ≡ 63 - n = omega arith in
    rw e (asr-lsl n (63 - n) (omega arith) val)

pred_mul : (a b : ℕ) → (a - 1) * b ≡ a * b - b
pred_mul zero b = ground arith
pred_mul (suc a) b = grind arith

-- The ones that `signed_extend` sets above a sign at place `n`.
ones_above :
    (n k r : ℕ) → n + k ≡ 63 → r < 2 ^ n → bit_or (2 ^ n + r) (2 ^ 64 - 2 ^ n) ≡ 2 ^ 64 - 2 ^ n + r
ones_above n k r e small =
    let e' : k + 1 + n ≡ 64 = omega arith in
    let top : 2 ^ (k + 1) * 2 ^ n ≡ 2 ^ 64 = rw (← pow-add (k + 1) n, e') refl in
    let above : (2 ^ (k + 1) - 1) * 2 ^ n ≡ 2 ^ 64 - 2 ^ n =
      pred_mul (2 ^ (k + 1)) (2 ^ n) ∙ ap (λ (t : ℕ). t - 2 ^ n) top in
    let two_ones : 1 < 2 ^ (k + 1) = rw add-one (omega (arith, pow-suc 2 k, one-le-pow k 2)) in
    ground (
      arith,
      above,
      or_split n 1 (2 ^ (k + 1) - 1) r 0,
      or-zero r,
      or_ones (k + 1) 1 two_ones,
      one-le-pow n 2,
    )

module _ (val n : ℕ) (small : val < 2 ^ (n + 1)) where
  doubled : 2 ^ (n + 1) ≡ 2 ^ n * 2
  doubled = rw add-one (pow-suc 2 n)

  sign_clear : val < 2 ^ n → bit val n ≡ 0
  sign_clear low = rw (bit-eq, div-eq_of_lt low) refl

  sign_set : 2 ^ n ≤ val → bit val n ≡ 1
  sign_set high =
      let quotient : val / 2 ^ n ≡ 1 =
        div-eq_of_lt-le (2 ^ n) (omega arith) (omega (arith, doubled)) in
      rw (bit-eq, quotient) refl

-- The other extension agrees with it on a field that ends at the sign.
pub signed_extend-eq :
    (val n : ℕ) → n ≤ 63 → val < 2 ^ (n + 1) → signed_extend val n ≡ sign_value val n
unfolding signed_extend sign_value
signed_extend-eq val n h small = elim (Bool-cases (ltb val (2 ^ n))) [
  | inl low ↦
      let clear : bit val n ≡ 0 = sign_clear val n small (ground arith) in
      ground (arith, clear, mod-eq_of_lt small)
  | inr high ↦
      let bounded : 2 ^ (n + 1) ≤ 2 ^ 64 =
        pow-le-pow_right (omega arith) {i = n + 1} {j = 64} (omega arith) in
      let set : bit val n ≡ 1 = sign_set val n small (ground arith) in
      ground (
        arith,
        set,
        bounded,
        doubled val n small,
        mask-eq n,
        ones_above n (63 - n) (val - 2 ^ n),
        mod-eq_of_lt small,
      )
]

-- On a field of at most 64 places whose top place is the sign, `signed_extend` and `SIGN_EXTEND` give
-- the same number.
pub signed_extend-sign_extend :
    (val n : ℕ) → n ≤ 63 → val < 2 ^ (n + 1) → signed_extend val n ≡ sign_extend val (n + 1)
signed_extend-sign_extend val n h small =
    signed_extend-eq val n h small ∙ sym (sign_extend-eq val n h)
