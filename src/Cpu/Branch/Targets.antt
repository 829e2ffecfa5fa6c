-- ===== src/Cpu/Branch/Targets.antt =====
-- The PC-relative branches of src/cpu.cc: when they are taken and where they go.
use aarch64_emu.Base.{ℕ, ◌+◌, ◌*◌, ◌^◌, ◌/◌, ◌%◌, bit_or}
use aarch64_emu.Base.{xor}
use aarch64_emu.Base.{◌+64◌}
use aarch64_emu.Base.{◌≡◌, ◌<◌, arith, ltb, ◌==◌, if◌then◌else◌, update}
use aarch64_emu.Base.{ok}
use aarch64_emu.Base.Masks.{or_above}
use aarch64_emu.Util.{shift, bit}
use aarch64_emu.Util.Fields.{bit-eq, shift-eq}
use aarch64_emu.Util.Signs.{sign_value, signed_extend-eq, sign_extend-eq}
use aarch64_emu.Cpu.{Cpu, set_pc, check_b_flag}
use aarch64_emu.Cpu.Branch.{decode_unconditional_branch_imm, decode_conditional_branch_imm}
use aarch64_emu.Cpu.Branch.{decode_compare_and_branch_imm, decode_test_and_branch_imm}

-- The target of a branch whose offset field, in words, ends with its sign at place `n` of the byte
-- offset.
abbrev pub target : Cpu → ℕ → ℕ → Cpu
target c field n = set_pc c (c.pc +64 sign_value (field * 4) n)

abbrev pub following : Cpu → Cpu
following c = set_pc c (c.pc +64 4)

-- For a 32-bit instruction word, B and BL go to the signed 26-bit word offset from the instruction, and BL leaves the address
-- behind it in x30.
pub branch_immediate :
    (inst : ℕ) (c : Cpu)
    → inst < 2 ^ 32
    → decode_unconditional_branch_imm inst c
      ≡ ok (
          if ltb inst (2 ^ 31)
          then target c (inst % 2 ^ 26) 27
          else record (target c (inst % 2 ^ 26) 27) { xregs = update c.xregs 30 (c.pc +64 4) })
unfolding decode_unconditional_branch_imm
branch_immediate inst c h =
    let field = shift inst 0 25 in
    let e = shift-eq inst 0 25 (omega arith) in
    ground (arith, e, bit-eq inst 31, signed_extend-eq (field * 4) 27)

-- With bits 24 and 4 clear, B.cond goes to the signed 19-bit word offset if the condition holds, and on to the next
-- instruction if not.
pub branch_conditional :
    (inst : ℕ) (c : Cpu)
    → inst / 2 ^ 24 % 2 ≡ 0
    → inst / 2 ^ 4 % 2 ≡ 0
    → decode_conditional_branch_imm inst c
      ≡ ok (
          if check_b_flag (inst % 16) c.nzcv
          then target c (inst / 2 ^ 5 % 2 ^ 19) 20
          else following c)
unfolding decode_conditional_branch_imm
branch_conditional inst c h k =
    let field = shift inst 5 23 in
    let e = shift-eq inst 5 23 (omega arith) in
    let cond : shift inst 0 3 ≡ inst % 16 = omega (arith, shift-eq inst 0 3 (omega arith)) in
    ground (arith, e, cond, bit-eq inst 24, bit-eq inst 4, signed_extend-eq (field * 4) 20)

-- CBZ and CBNZ, by bit 24, branch to the signed 19-bit word offset exactly when the register, or
-- its low word, by bit 31, is zero or is not.
pub branch_compare :
    (inst : ℕ) (c : Cpu)
    → decode_compare_and_branch_imm inst c ≡ (
        let register = c.xregs (inst % 32) in
        let value = if inst / 2 ^ 31 % 2 == 1 then register else register % 2 ^ 32 in
        let zero_test = inst / 2 ^ 24 % 2 == 0 in
        let is_zero = value == 0 in
        ok (if xor zero_test is_zero then following c else target c (inst / 2 ^ 5 % 2 ^ 19) 20))
unfolding decode_compare_and_branch_imm
branch_compare inst c =
    let field = shift inst 5 23 in
    let e = shift-eq inst 5 23 (omega arith) in
    let rt : shift inst 0 4 ≡ inst % 32 = omega (arith, shift-eq inst 0 4 (omega arith)) in
    let small : field * 4 % 2 ^ 64 ≡ inst / 2 ^ 5 % 2 ^ 19 * 4 = omega (arith, e) in
    rw rt (
      ground (
        arith,
        small,
        bit-eq inst 24,
        bit-eq inst 31,
        sign_extend-eq (inst / 2 ^ 5 % 2 ^ 19 * 4) 20,
      ))

-- TBZ and TBNZ test the bit whose number has bit 31 of the instruction on top of five bits, and
-- branch to the signed 14-bit word offset exactly when it has the value of bit 24.
pub branch_test :
    (inst : ℕ) (c : Cpu)
    → decode_test_and_branch_imm inst c ≡ (
        let place = inst / 2 ^ 31 % 2 * 32 + inst / 2 ^ 19 % 32 in
        let tested = c.xregs (inst % 32) / 2 ^ place % 2 in
        ok (
          if tested == inst / 2 ^ 24 % 2 then target c (inst / 2 ^ 5 % 2 ^ 14) 15 else following c))
unfolding decode_test_and_branch_imm
branch_test inst c =
    let field = shift inst 5 18 in
    let e = shift-eq inst 5 18 (omega arith) in
    let rt : shift inst 0 4 ≡ inst % 32 = omega (arith, shift-eq inst 0 4 (omega arith)) in
    let place : bit_or (bit inst 31 * 2 ^ 5) (shift inst 19 23)
        ≡ inst / 2 ^ 31 % 2 * 32 + inst / 2 ^ 19 % 32 =
      ground
        (arith, bit-eq inst 31, shift-eq inst 19 23, or_above 5 (bit inst 31) (shift inst 19 23)) in
    let small : field * 4 % 2 ^ 64 ≡ inst / 2 ^ 5 % 2 ^ 14 * 4 = omega (arith, e) in
    rw (rt, place)
      (ground (
        arith,
        small,
        bit-eq inst 24,
        bit-eq (c.xregs (inst % 32)) (inst / 2 ^ 31 % 2 * 32 + inst / 2 ^ 19 % 32),
        signed_extend-eq (inst / 2 ^ 5 % 2 ^ 14 * 4) 15,
      ))
