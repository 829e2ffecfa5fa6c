-- ===== src/Cpu/Interrupt.antt =====
-- `check_interrupt` and `cause_interrupt` of src/cpu.cc.
use aarch64_emu.Base.{ℕ, ◌%◌, bit_and, bit_or}
use aarch64_emu.Base.{◌&&◌}
use aarch64_emu.Base.{◌<<<◌, ◌>>>◌, ◌+64◌}
use aarch64_emu.Base.{◌==◌, ◌!=◌, if◌then◌else◌}
use aarch64_emu.Base.{Outcome, ok, ◌>>=◌}
use aarch64_emu.Util.{bit}
use aarch64_emu.Uart
use aarch64_emu.Virtio
use aarch64_emu.Cpu.{Cpu}

unfoldable pub cause_interrupt : Cpu → ℕ → Cpu
cause_interrupt c irq =
    if c.el == 0
    then record c {
      elr_el1 = c.pc;
      icc_iar1_el1 = irq;
      spsr_el1 = c.spsr_el1 >>> 3 <<< 3;
      sp_el0 = c.sp;
      sp = c.sp_el1;
      el = 1;
      pc = c.vbar_el1 +64 0x480;
    }
    else record c {
      elr_el1 = c.pc;
      icc_iar1_el1 = irq;
      spsr_el1 = bit_or (c.spsr_el1 >>> 3 <<< 3) 0b101;
      pc = c.vbar_el1 +64 0x280;
    }

-- The disk's part, once its `is_interrupting` has said yes and `virtio` is the device after it.
unfoldable pub disk_interrupt : Cpu → Outcome Cpu
unfolding cause_interrupt
disk_interrupt c = do
  done ← Virtio.disk_access c.bus.mem c.bus.virtio
  ok (cause_interrupt (record c { bus = record (c.bus) { mem = done.0; virtio = done.1 } }) 0x30)

unfoldable pub uart_interrupt : Cpu → Outcome Cpu
unfolding cause_interrupt
uart_interrupt c = do
  polled ← Uart.is_interrupting c.bus.uart
  let c' = record c { bus = record (c.bus) { uart = polled.1 } }
  ok (if polled.0 then cause_interrupt c' 0x21 else c')

unfoldable pub check_interrupt : Cpu → Outcome Cpu
unfolding cause_interrupt disk_interrupt uart_interrupt
check_interrupt c =
    let polled = Virtio.is_interrupting c.bus.virtio in
    let c' = record c { bus = record (c.bus) { virtio = polled.1 } } in
    if bit_and (c.daif >>> 9) 0x1 != 0
    then ok c
    else if polled.0
    then disk_interrupt c'
    else if bit c.pc 63 == 0 && c.timer_count % 100 == 0
    then ok (cause_interrupt c' 0x1b)
    else uart_interrupt c'
