-- ===== src/Cpu/Branch.antt =====
-- The branches of src/cpu.cc.
pub mod Targets
use aarch64_emu.Base.{ℕ, ◌*◌, ◌^◌, bit_and, bit_or}
use aarch64_emu.Base.{◌&&◌, ◌||◌}
use aarch64_emu.Base.{u32, ◌<<<◌, ◌+64◌}
use aarch64_emu.Base.{◌==◌, ◌!=◌, if◌then◌else◌}
use aarch64_emu.Base.{Outcome, ok, exit}
use aarch64_emu.Util.{shift, bit, sign_extend}
use aarch64_emu.Cpu.{Cpu, unallocated, unsupported, set_xreg, set_pc, increment_pc, check_b_flag}
use aarch64_emu.Cpu.Extend.{signed_extend}

unfoldable pub decode_conditional_branch_imm : ℕ → Cpu → Outcome Cpu
decode_conditional_branch_imm inst c =
    let offset = signed_extend (u32 (shift inst 5 23 * 2 ^ 2)) 20 in
    if bit inst 24 == 1
    then unallocated
    else if bit inst 4 == 0
    then (if check_b_flag (shift inst 0 3) c.nzcv
        then ok (set_pc c (c.pc +64 offset))
        else ok (increment_pc c))
    else unsupported

unfoldable pub decode_unconditional_branch_imm : ℕ → Cpu → Outcome Cpu
decode_unconditional_branch_imm inst c =
    let offset = signed_extend (u32 (shift inst 0 25 * 2 ^ 2)) 27 in
    let target = c.pc +64 offset in
    if bit inst 31 == 0
    then ok (set_pc c target)
    else ok (set_pc (set_xreg c 30 (c.pc +64 4)) target)

unfoldable pub decode_compare_and_branch_imm : ℕ → Cpu → Outcome Cpu
decode_compare_and_branch_imm inst c =
    let xrt = c.xregs (shift inst 0 4) in
    let tested = if bit inst 31 != 0 then xrt else u32 xrt in
    let if_jump = if bit inst 24 == 0 then tested == 0 else tested != 0 in
    let offset = sign_extend (shift inst 5 23 <<< 2) 21 in
    if if_jump then ok (set_pc c (c.pc +64 offset)) else ok (increment_pc c)

unfoldable pub decode_test_and_branch_imm : ℕ → Cpu → Outcome Cpu
decode_test_and_branch_imm inst c =
    let bit_pos = bit_or (bit inst 31 * 2 ^ 5) (shift inst 19 23) in
    let if_jump = bit (c.xregs (shift inst 0 4)) bit_pos == bit inst 24 in
    let offset = if if_jump then signed_extend (shift inst 5 18 <<< 2) 15 else 4 in
    ok (set_pc c (c.pc +64 offset))

-- The exception return: the stack pointer is banked, and the level falls to 0 if the saved state
-- says so or if the target is a low address.
unfoldable pub eret : Cpu → Cpu
eret c =
    let c' = record c { sp_el1 = c.sp; pc = c.elr_el1 } in
    if bit_and c.spsr_el1 7 == 0 || bit c'.pc 63 == 0
    then record c' { el = 0; sp = c.sp_el0 }
    else c'

-- `ret`, from any register but the first, which stands for x30.
unfoldable pub ret : ℕ → Cpu → Outcome Cpu
ret rn c =
    let target = c.xregs (if rn == 0 then 30 else rn) in
    if target == 0 then exit 0 else ok (set_pc c target)

unfoldable pub decode_unconditional_branch_reg : ℕ → Cpu → Outcome Cpu
unfolding eret ret
decode_unconditional_branch_reg inst c =
    let opc = shift inst 21 24 in
    let op2 = shift inst 16 20 in
    let op3 = shift inst 10 15 in
    let rn = shift inst 5 9 in
    let op4 = shift inst 0 4 in
    let linked = set_xreg c 30 (c.pc +64 4) in
    if opc == 0
    then (if op2 != 31
        then unallocated
        else if op3 != 0
        then unsupported
        else if op4 != 0
        then unallocated
        else ok (set_pc c (c.xregs rn)))
    else if opc == 1
    then (if op2 == 31 && (op3 == 0 && op4 == 0)
        then ok (set_pc linked (linked.xregs rn))
        else unsupported)
    else if opc == 2
    then (if op3 != 0 then unsupported else if op4 != 0 then unallocated else ret rn c)
    else if opc == 4
    then (if op3 == 0 && (rn == 31 && op4 == 0) then ok (eret c) else ok c)
    else unsupported
