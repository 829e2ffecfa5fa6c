-- ===== src/Tests/Run.antt =====
-- A run of the execution loop: a supervisor call from level 0.
use aarch64_emu.Base.{◌≡◌, ◌≤◌, refl, ok, true, [], ◌∷◌, arith}
use aarch64_emu.Cpu.{Cpu}
use aarch64_emu.Cpu.System.{svc}
use aarch64_emu.Cpu.Decode.{decode_start}
use aarch64_emu.Emulator.{Machine, execute_loop}
use aarch64_emu.Emulator.Input.{Phase}
use aarch64_emu.Emulator.Levels.{execute_loop-level}
use aarch64_emu.Tests.Machine.{small_cpu, small_bus, small_uart}

abbrev calling : Cpu
calling = record small_cpu { pc = 0x40003800 }

abbrev called : Cpu
called = svc (record calling {
  timer_count = 1;
  inst = 0xd4000001;
  bus = record small_bus { uart = record small_uart { counter = 1 } };
})

abbrev machine : Cpu → Machine
machine c = record { cpu = c; phase = Phase.reading; stdin = [] }

run_call : execute_loop (0 ∷ []) (machine calling) ≡ ok (true, machine called)
unfolding execute_loop aarch64_emu.Emulator.type_ahead aarch64_emu.Emulator.round
    aarch64_emu.Cpu.Interrupt.check_interrupt aarch64_emu.Virtio.is_interrupting
    aarch64_emu.Util.bit aarch64_emu.Uart.is_interrupting aarch64_emu.Cpu.fetch
    aarch64_emu.Mmu.mmu_translate aarch64_emu.Mmu.if_mmu_enabled aarch64_emu.Bus.load
    aarch64_emu.Mem.load32 decode_start aarch64_emu.Util.shift
    aarch64_emu.Cpu.System.decode_exception_generation
run_call = refl

execute_loop-level_example : called.el ≤ 1
execute_loop-level_example =
    execute_loop-level (0 ∷ []) (machine calling) (machine called) true (omega arith) run_call
