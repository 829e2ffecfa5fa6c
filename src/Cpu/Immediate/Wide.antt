-- ===== src/Cpu/Immediate/Wide.antt =====
-- The wide moves of src/cpu.cc: which sixteen places of the register they set.
use aarch64_emu.Base.{ℕ, ◌+◌, ◌-◌, ◌*◌, ◌/◌, ◌%◌, ◌^◌, ◌<◌, bit_and, bit_or, zero, suc}
use aarch64_emu.Base.{ok, ◌≡◌, ◌≢◌, ◌⊎◌, arith, not64, ◌<<<◌, ◌==◌, if◌then◌else◌}
use aarch64_emu.Base.Bits.{and-zero, zero-or}
use aarch64_emu.Base.Masks.{and_mask, and_high, or_above}
use aarch64_emu.Util.{shift, flag, mask}
use aarch64_emu.Util.Fields.{bit-eq, shift-eq, and-mask}
use aarch64_emu.Cpu.{Cpu, set_xreg}
use aarch64_emu.Cpu.Immediate.{decode_move_wide_imm, sized}

-- `old` with the sixteen places from `place` on replaced by `field`.
abbrev pub with_field : ℕ → ℕ → ℕ → ℕ
with_field old field place =
    old / 2 ^ (place + 16) * 2 ^ (place + 16) + field * 2 ^ place + old % 2 ^ place

-- The masks of MOVK at each of the four places.
keep_field :
    (old field hw : ℕ)
    → old < 2 ^ 64
    → field < 2 ^ 16
    → hw < 4
    → bit_or
        (bit_or (bit_and old (not64 (mask (hw * 16 + 16)))) (field <<< (hw * 16)))
        (bit_and old (mask (hw * 16)))
      ≡ with_field old field (hw * 16)
unfolding mask
keep_field old field zero h h' h'' = ground (
  arith,
  and_high 16 48 old,
  and_mask 0 old,
  or_above 16 (old / 2 ^ 16) (field * 2 ^ 0),
  or_above 0 (old / 2 ^ 16 * 2 ^ 16 + field) (old % 2 ^ 0),
)
keep_field old field (suc zero) h h' h'' = ground (
  arith,
  and_high 32 32 old,
  and_mask 16 old,
  or_above 32 (old / 2 ^ 32) (field * 2 ^ 16),
  or_above 16 (old / 2 ^ 32 * 2 ^ 16 + field) (old % 2 ^ 16),
)
keep_field old field (suc (suc zero)) h h' h'' = ground (
  arith,
  and_high 48 16 old,
  and_mask 32 old,
  or_above 48 (old / 2 ^ 48) (field * 2 ^ 32),
  or_above 32 (old / 2 ^ 48 * 2 ^ 16 + field) (old % 2 ^ 32),
)
keep_field old field (suc (suc (suc zero))) h h' h'' = ground (
  arith,
  and-zero old,
  and_mask 48 old,
  zero-or (field * 2 ^ 48),
  or_above 48 (old / 2 ^ 64 * 2 ^ 16 + field) (old % 2 ^ 48),
)
keep_field old field (suc (suc (suc (suc n)))) h h' h'' = absurd (omega arith)

-- A field at one of the four places fits the register.
placed :
    (field hw : ℕ)
    → field < 2 ^ 16
    → hw < 4
    → (field <<< (hw * 16) ≡ field * 2 ^ (hw * 16)) × (field * 2 ^ (hw * 16) < 2 ^ 64)
placed field zero h h' = (omega arith, omega arith)
placed field (suc zero) h h' = (omega arith, omega arith)
placed field (suc (suc zero)) h h' = (omega arith, omega arith)
placed field (suc (suc (suc zero))) h h' = (omega arith, omega arith)
placed field (suc (suc (suc (suc n)))) h h' = absurd (omega arith)

-- A 32-bit form keeps the low word of its result.
abbrev pub cut : ℕ → ℕ → ℕ
cut inst value = if inst / 2 ^ 31 % 2 == 1 then value else value % 2 ^ 32

sized-cut : (inst value : ℕ) → sized (flag inst 31) value ≡ cut inst value
sized-cut inst value = ground (arith, bit-eq inst 31, and-mask value 32)

-- MOVN, MOVZ and MOVK put the 16-bit field of the instruction at the place that is 16 times its `hw`
-- field, at most 16 in the 32-bit form: MOVZ over zeros, MOVN with all bits turned over, both cut to
-- 32 bits in the 32-bit form, and MOVK over the register's old value, of which it keeps all the other
-- places. Nothing but the register changes.
pub move_wide :
    (inst : ℕ) (c : Cpu)
    → c.xregs (inst % 32) < 2 ^ 64
    → (inst / 2 ^ 31 % 2 ≡ 1) ⊎ (inst / 2 ^ 21 % 4 < 2)
    → inst / 2 ^ 29 % 4 ≢ 1
    → let rd = inst % 32 in
      let place = inst / 2 ^ 21 % 4 * 16 in
      let field = inst / 2 ^ 5 % 2 ^ 16 in
      let opc = inst / 2 ^ 29 % 4 in
      decode_move_wide_imm inst c
      ≡ ok (
          set_xreg c rd (
            if opc == 0
            then cut inst (2 ^ 64 - 1 - field * 2 ^ place)
            else if opc == 2
            then cut inst (field * 2 ^ place)
            else with_field (c.xregs rd) field place))
unfolding decode_move_wide_imm
move_wide inst c word form opc =
    let rd : shift inst 0 4 ≡ inst % 32 = omega (arith, shift-eq inst 0 4 (omega arith)) in
    let hw : shift inst 21 22 ≡ inst / 2 ^ 21 % 4 =
      omega (arith, shift-eq inst 21 22 (omega arith)) in
    let op : shift inst 29 30 ≡ inst / 2 ^ 29 % 4 =
      omega (arith, shift-eq inst 29 30 (omega arith)) in
    let imm : shift inst 5 20 ≡ inst / 2 ^ 5 % 2 ^ 16 =
      omega (arith, shift-eq inst 5 20 (omega arith)) in
    let (shifted, fits) =
      placed (inst / 2 ^ 5 % 2 ^ 16) (inst / 2 ^ 21 % 4) (omega arith) (omega arith) in
    let kept =
      keep_field (c.xregs (inst % 32)) (inst / 2 ^ 5 % 2 ^ 16) (inst / 2 ^ 21 % 4) word
        (omega arith) (omega arith) in
    rw (rd, hw, op, imm, kept, sized-cut, sized-cut, shifted) (ground (arith, bit-eq inst 31))
