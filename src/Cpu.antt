-- ===== src/Cpu.antt =====
-- src/include/cpu.h and the shared operations of src/cpu.cc: the processor's state, its accesses
-- to memory and the conditions. `xregs` is an array of 32 entries, indexed by five-bit fields.
use aarch64_emu.Base.{ℕ, zero, suc, ◌+◌, ◌-◌, ◌*◌, ◌^◌, ◌/◌, ◌%◌, bit_and, bit_or, bit_xor}
use aarch64_emu.Base.{
  Bool, true, false, not, ◌&&◌, ◌||◌, xor, Option, none, some, List, [], ◌∷◌, ◌++◌,
}
use aarch64_emu.Base.{u8, u16, u32, u64, not64, not32, ◌<<<◌, ◌>>>◌, ◌+64◌, ◌-64◌, sar64}
use aarch64_emu.Base.{ltb, leb, ◌==◌, ◌!=◌, if◌then◌else◌, update, bit_of}
use aarch64_emu.Base.{Outcome, ok, exit, undefined, ◌>>=◌}
use aarch64_emu.Access.{MemAccessSize, word}
use aarch64_emu.Bus
use aarch64_emu.Bus.{Bus}
use aarch64_emu.Mmu.{Mmu, mmu_translate}
pub mod Extend
pub mod Adder
pub mod Interrupt
pub mod Immediate
pub mod LoadStore
pub mod System
pub mod Branch
pub mod Decode
pub mod Register

pub record Nzcv : Type 0 where
  pub n : Bool
  pub z : Bool
  pub c : Bool
  pub v : Bool

pub record Cpu : Type 0 where
  pub bus : Bus
  pub mmu : Mmu
  pub pc : ℕ
  pub xregs : ℕ → ℕ
  pub sp : ℕ
  pub current_el : ℕ
  pub vbar_el1 : ℕ
  pub sp_el0 : ℕ
  pub sp_el1 : ℕ
  pub esr_el1 : ℕ
  pub timer_count : ℕ
  pub daif : ℕ
  pub nzcv : Nzcv
  pub el : ℕ
  pub icc_igrpen1_el1 : ℕ
  pub icc_pmr_el1 : ℕ
  pub icc_sre_el1 : ℕ
  pub icc_iar1_el1 : ℕ
  pub icc_eoir1_el1 : ℕ
  pub spsr_el1 : ℕ
  pub elr_el1 : ℕ
  pub cntv_ctl_el0 : ℕ
  pub cntfrq_el0 : ℕ
  pub cntv_tval_el0 : ℕ
  pub inst : ℕ

-- `unsupported()` and `unallocated()` end the program.
abbrev pub unsupported {ℓ} : {A : Type ℓ} → Outcome A
unsupported = exit 0

abbrev pub unallocated {ℓ} : {A : Type ℓ} → Outcome A
unallocated = exit 1

-- `increment_pc()` and an assignment to a register.
abbrev pub increment_pc : Cpu → Cpu
increment_pc c = record c { pc = c.pc +64 4 }

abbrev pub set_pc : Cpu → ℕ → Cpu
set_pc c new_pc = record c { pc = new_pc }

abbrev pub set_xreg : Cpu → ℕ → ℕ → Cpu
set_xreg c rd value = record c { xregs = update c.xregs rd value }

-- `rn == 31 ? sp : xregs[rn]`.
abbrev pub reg_or_sp : Cpu → ℕ → ℕ
reg_or_sp c rn = if rn == 31 then c.sp else c.xregs rn

unfoldable pub fetch : Cpu → Outcome (ℕ × Cpu)
fetch c = do
  translated ← mmu_translate c.mmu c.bus c.pc
  read ← Bus.load translated.1 translated.0 word
  ok (u32 read.0, record c { bus = read.1 })

unfoldable pub load : Cpu → ℕ → MemAccessSize → Outcome (ℕ × Cpu)
load c address size = do
  translated ← mmu_translate c.mmu c.bus address
  read ← Bus.load translated.1 translated.0 size
  ok (read.0, record c { bus = read.1 })

unfoldable pub store : Cpu → ℕ → ℕ → MemAccessSize → Outcome Cpu
store c address value size = do
  translated ← mmu_translate c.mmu c.bus address
  bus ← Bus.store translated.1 translated.0 value size
  ok (record c { bus = bus })

-- Whether two flags agree.
abbrev pub same : Bool → Bool → Bool
same true b = b
same false b = not b

unfoldable pub check_b_flag : ℕ → Nzcv → Bool
check_b_flag cond f =
    if cond == 0
    then f.z
    else if cond == 1
    then not f.z
    else if cond == 2
    then f.c
    else if cond == 3
    then not f.c
    else if cond == 4
    then f.n
    else if cond == 5
    then not f.n
    else if cond == 6
    then f.v
    else if cond == 7
    then not f.v
    else if cond == 8
    then f.c && not f.z
    else if cond == 9
    then not f.c || f.z
    else if cond == 10
    then same f.n f.v
    else if cond == 11
    then not (same f.n f.v)
    else if cond == 12
    then not f.z && same f.n f.v
    else if cond == 13
    then f.z || not (same f.n f.v)
    else if cond == 14
    then true
    else if cond == 15
    then true
    else false
