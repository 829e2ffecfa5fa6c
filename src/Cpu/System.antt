-- ===== src/Cpu/System.antt =====
-- The system instructions of src/cpu.cc: exceptions, PSTATE, barriers and system registers.
pub mod Exceptions
use aarch64_emu.Base.{ℕ, ◌+◌, ◌-◌, ◌*◌, ◌^◌, bit_and, bit_or}
use aarch64_emu.Base.{Bool, true, false, ◌&&◌, ◌||◌, Option, none, some}
use aarch64_emu.Base.{u8, ◌<<<◌, ◌>>>◌, ◌+64◌, ◌-64◌}
use aarch64_emu.Base.{ltb, leb, ◌==◌, ◌!=◌, if◌then◌else◌}
use aarch64_emu.Base.{Outcome, ok, undefined}
use aarch64_emu.Util.{shift, bit, flag, mask}
use aarch64_emu.Cpu.{Cpu, unallocated, unsupported, set_xreg, set_pc, increment_pc}

-- The supervisor call of `decode_exception_generation`.
unfoldable pub svc : Cpu → Cpu
svc c =
    let syndrome = bit_or c.esr_el1 (21 * 2 ^ 26) in
    if c.el == 0
    then record c {
      elr_el1 = c.pc +64 4;
      esr_el1 = syndrome;
      spsr_el1 = c.spsr_el1 >>> 3 <<< 3;
      sp_el0 = c.sp;
      sp = c.sp_el1;
      el = 1;
      pc = c.vbar_el1 +64 0x400;
    }
    else record c {
      elr_el1 = c.pc +64 4;
      esr_el1 = syndrome;
      spsr_el1 = bit_or (c.spsr_el1 >>> 3 <<< 3) 0b101;
      pc = c.vbar_el1 +64 0x200;
    }

unfoldable pub decode_exception_generation : ℕ → Cpu → Outcome Cpu
unfolding svc
decode_exception_generation inst c =
    let ll = shift inst 0 1 in
    let hvc = set_xreg c 0 (2 ^ 64 - 2) in
    if shift inst 21 23 != 0
    then unsupported
    else if shift inst 2 4 != 0
    then unallocated
    else if ll == 1
    then ok (svc c)
    else if ll == 2
    then ok (set_pc hvc (hvc.xregs 30))
    else if ll == 3
    then ok (increment_pc c)
    else unallocated

-- `mask` shifts by its `uint8_t` argument, which is undefined from 65 on.
unfoldable pub decode_pstate : ℕ → Cpu → Outcome Cpu
decode_pstate inst c =
    let crm = shift inst 8 11 in
    let op2 = shift inst 5 7 in
    let places = u8 (crm * 2 ^ 6 + 1) in
    if shift inst 0 4 != 31
    then unallocated
    else if leb op2 2
    then unsupported
    else if shift inst 16 18 != 3
    then unsupported
    else if op2 == 6
    then ok (record c { daif = bit_or c.daif (crm * 2 ^ 6) })
    else if op2 == 7
    then (if ltb 64 places
        then undefined
        else ok (record c { daif = bit_and c.daif (bit_and (2 ^ 64 - 1) (mask places -64 1)) }))
    else unsupported

unfoldable pub decode_barriers : ℕ → Cpu → Outcome Cpu
decode_barriers inst c =
    let op2 = shift inst 5 7 in
    if op2 == 0b001
    then (if shift inst 0 4 != 31 || shift inst 8 9 != 0b10 then unallocated else ok c)
    else if op2 == 0b101
    then ok c
    else if op2 == 0b100
    then ok c
    else if op2 == 0b110
    then ok c
    else unsupported

-- The registers that `decode_system_register_move` knows, by (o1, CRn, CRm, op2).
pub data SysReg : Type 0 where
  mpidr_el1 sctlr_el1 ttbr0_el1 ttbr1_el1 tcr_el1 spsr_el1 elr_el1 sp_el0 current_el : SysReg
  icc_pmr_el1 esr_el1 mair_el1 vbar_el1 icc_iar1_el1 icc_eoir1_el1 icc_sre_el1 : SysReg
  icc_igrpen1_el1 daif cntfrq_el0 cntv_tval_el0 cntv_ctl_el0 : SysReg

-- The `switch` on CRn under `o1 == 0`.
unfoldable pub find_el1_reg : ℕ → ℕ → ℕ → Option SysReg
find_el1_reg crn crm op2 =
    if crn == 0 && crm == 0
    then (if op2 == 5 then some mpidr_el1 else none)
    else if crn == 1 && crm == 0
    then (if op2 == 0 then some sctlr_el1 else none)
    else if crn == 2 && crm == 0
    then (if op2 == 0
        then some ttbr0_el1
        else if op2 == 1
        then some ttbr1_el1
        else if op2 == 2
        then some tcr_el1
        else none)
    else if crn == 4 && crm == 0
    then (if op2 == 0 then some spsr_el1 else if op2 == 1 then some elr_el1 else none)
    else if crn == 4 && crm == 1
    then (if op2 == 0 then some sp_el0 else none)
    else if crn == 4 && crm == 2
    then (if op2 == 2 then some current_el else none)
    else if crn == 4 && crm == 6
    then (if op2 == 0 then some icc_pmr_el1 else none)
    else if crn == 5 && crm == 2
    then (if op2 == 0 then some esr_el1 else none)
    else if crn == 10 && crm == 2
    then (if op2 == 0 then some mair_el1 else none)
    else if crn == 12 && crm == 0
    then (if op2 == 0 then some vbar_el1 else none)
    else if crn == 12 && crm == 12
    then (if op2 == 0
        then some icc_iar1_el1
        else if op2 == 1
        then some icc_eoir1_el1
        else if op2 == 5
        then some icc_sre_el1
        else if op2 == 7
        then some icc_igrpen1_el1
        else none)
    else none

-- The `switch` on CRn under `o1 == 3`.
unfoldable pub find_el0_reg : ℕ → ℕ → ℕ → Option SysReg
find_el0_reg crn crm op2 =
    if crn == 4 && crm == 2
    then (if op2 == 1 then some daif else none)
    else if crn == 14 && crm == 0
    then (if op2 == 0 then some cntfrq_el0 else none)
    else if crn == 14 && crm == 3
    then (if op2 == 0 then some cntv_tval_el0 else if op2 == 1 then some cntv_ctl_el0 else none)
    else none

-- Registers that have both directions: a read into `xregs[rt]` and a write from it.
unfoldable pub move_both : SysReg → Bool → ℕ → Cpu → Cpu
move_both sctlr_el1 true rt c = set_xreg c rt c.mmu.sctlr_el1
move_both sctlr_el1 false rt c = record c { mmu = record (c.mmu) { sctlr_el1 = c.xregs rt } }
move_both ttbr0_el1 true rt c = set_xreg c rt c.mmu.ttbr0_el1
move_both ttbr0_el1 false rt c = record c { mmu = record (c.mmu) { ttbr0_el1 = c.xregs rt } }
move_both ttbr1_el1 true rt c = set_xreg c rt c.mmu.ttbr1_el1
move_both ttbr1_el1 false rt c = record c { mmu = record (c.mmu) { ttbr1_el1 = c.xregs rt } }
move_both tcr_el1 true rt c = set_xreg c rt c.mmu.tcr_el1
move_both tcr_el1 false rt c = record c { mmu = record (c.mmu) { tcr_el1 = c.xregs rt } }
move_both elr_el1 true rt c = set_xreg c rt c.elr_el1
move_both elr_el1 false rt c = record c { elr_el1 = c.xregs rt }
move_both sp_el0 true rt c = set_xreg c rt c.sp_el0
move_both sp_el0 false rt c = record c { sp_el0 = c.xregs rt }
move_both esr_el1 true rt c = set_xreg c rt c.esr_el1
move_both esr_el1 false rt c = record c { esr_el1 = c.xregs rt }
move_both daif true rt c = set_xreg c rt c.daif
move_both daif false rt c = record c { daif = c.xregs rt }
move_both cntv_ctl_el0 true rt c = set_xreg c rt c.cntv_ctl_el0
move_both cntv_ctl_el0 false rt c = record c { cntv_ctl_el0 = c.xregs rt }
-- These go one way, whatever the direction that the instruction asks for.
move_both mpidr_el1 _ rt c = set_xreg c rt 0x80000000
move_both spsr_el1 _ rt c = set_xreg c rt c.spsr_el1
move_both current_el _ rt c = set_xreg c rt c.current_el
move_both icc_pmr_el1 _ rt c = record c { icc_pmr_el1 = c.xregs rt }
move_both mair_el1 _ rt c = c
move_both vbar_el1 _ rt c = record c { vbar_el1 = c.xregs rt }
move_both icc_iar1_el1 _ rt c = set_xreg c rt c.icc_iar1_el1
move_both icc_eoir1_el1 _ rt c = record c { icc_eoir1_el1 = c.xregs rt }
move_both icc_sre_el1 _ rt c = set_xreg c rt c.icc_sre_el1
move_both icc_igrpen1_el1 _ rt c = record c { icc_igrpen1_el1 = c.xregs rt }
move_both cntfrq_el0 _ rt c = set_xreg c rt c.cntfrq_el0
move_both cntv_tval_el0 _ rt c = record c { cntv_tval_el0 = c.xregs rt }

-- `o0` is 2 or 3, and 2 is unsupported, as is a register that is not found.
unfoldable pub decode_system_register_move : ℕ → Cpu → Outcome Cpu
unfolding find_el1_reg find_el0_reg move_both
decode_system_register_move inst c =
    let o0 = bit inst 19 + 2 in
    let o1 = shift inst 16 18 in
    let crn = shift inst 12 15 in
    let crm = shift inst 8 11 in
    let op2 = shift inst 5 7 in
    let found =
      if o1 == 0
      then find_el1_reg crn crm op2
      else if o1 == 3
      then find_el0_reg crn crm op2
      else none in
    if o0 == 3
    then (elim found [
      | none ↦ unsupported
      | some r ↦ ok (move_both r (flag inst 21) (shift inst 0 4) c)
    ])
    else unsupported

unfoldable pub decode_system_instructions : ℕ → Cpu → Outcome Cpu
decode_system_instructions inst c =
    if flag inst 21
    then unsupported
    else if shift inst 16 18 == 0
        && (shift inst 12 15 == 0b1000 && (shift inst 8 11 == 0b0011 && shift inst 5 7 == 0))
    then ok c
    else unsupported
