-- ===== src/Cpu/System/Exceptions.antt =====
-- Exceptions and returns of src/cpu.cc: what entry saves, `eret` restores.
use aarch64_emu.Base.{ℕ, ◌^◌, ◌/◌, ◌%◌, bit_or}
use aarch64_emu.Base.{◌<<<◌, ◌>>>◌, ◌+64◌}
use aarch64_emu.Base.{◌≡◌, ◌≤◌, ◌<◌, arith}
use aarch64_emu.Base.Masks.{or_above, and_mask}
use aarch64_emu.Util.Fields.{bit-eq}
use aarch64_emu.Cpu.{Cpu}
use aarch64_emu.Cpu.System.{svc}
use aarch64_emu.Cpu.Interrupt.{cause_interrupt}
use aarch64_emu.Cpu.Branch.{eret}

-- A supervisor call from level 0 enters level 1 at the vector for a lower level with the kernel's
-- stack; the return puts back the level and the stack, goes on behind the call, and leaves the
-- general registers, the flags and the kernel's stack pointer as they were.
pub eret-svc :
    (c : Cpu)
    → c.el ≡ 0
    → let entered = svc c in
      let back = eret entered in
      (entered.el ≡ 1)
      × (entered.pc ≡ c.vbar_el1 +64 0x400)
      × (entered.sp ≡ c.sp_el1)
      × (back.el ≡ 0)
      × (back.sp ≡ c.sp)
      × (back.pc ≡ c.pc +64 4)
      × (back.xregs ≡ c.xregs)
      × (back.nzcv ≡ c.nzcv)
      × (back.sp_el1 ≡ c.sp_el1)
      × (back.bus ≡ c.bus)
unfolding svc eret
eret-svc c user = ground (arith, and_mask 3 (c.spsr_el1 >>> 3 <<< 3))

-- An interrupt taken at level 0 enters level 1 with the kernel's stack and the interrupt's number in
-- ICC_IAR1_EL1; the return goes back to the very instruction, level and stack that it broke off.
pub eret-cause_interrupt :
    (c : Cpu) (irq : ℕ)
    → c.el ≡ 0
    → let entered = cause_interrupt c irq in
      let back = eret entered in
      (entered.el ≡ 1)
      × (entered.pc ≡ c.vbar_el1 +64 0x480)
      × (entered.sp ≡ c.sp_el1)
      × (entered.icc_iar1_el1 ≡ irq)
      × (back.el ≡ 0)
      × (back.sp ≡ c.sp)
      × (back.pc ≡ c.pc)
      × (back.xregs ≡ c.xregs)
      × (back.nzcv ≡ c.nzcv)
      × (back.sp_el1 ≡ c.sp_el1)
      × (back.bus ≡ c.bus)
unfolding cause_interrupt eret
eret-cause_interrupt c irq user = ground (arith, and_mask 3 (c.spsr_el1 >>> 3 <<< 3))

-- An interrupt taken at level 1, in code of the upper half, returns to level 1 with the stack
-- pointer as it was.
pub eret-cause_interrupt_kernel :
    (c : Cpu) (irq : ℕ)
    → c.el ≡ 1
    → 2 ^ 63 ≤ c.pc
    → c.pc < 2 ^ 64
    → let entered = cause_interrupt c irq in
      let back = eret entered in
      (entered.el ≡ 1)
      × (entered.pc ≡ c.vbar_el1 +64 0x280)
      × (entered.sp ≡ c.sp)
      × (back.el ≡ 1)
      × (back.sp ≡ c.sp)
      × (back.pc ≡ c.pc)
      × (back.xregs ≡ c.xregs)
unfolding cause_interrupt eret
eret-cause_interrupt_kernel c irq kernel high word = ground (
  arith,
  and_mask 3 (bit_or (c.spsr_el1 >>> 3 <<< 3) 0b101),
  or_above 3 (c.spsr_el1 / 8 % 2 ^ 61) 5,
  bit-eq c.pc 63,
)
