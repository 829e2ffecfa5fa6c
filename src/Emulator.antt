-- ===== src/Emulator.antt =====
-- src/emulator.cc: the execution loop and the input thread.
pub mod Levels
pub mod Start
pub mod Fetch
pub mod Boot
pub mod Refusal
pub mod Input
pub mod Lines
pub mod Ordered
pub mod Reading
pub mod Delivery
use aarch64_emu.Base.{ℕ, zero, suc}
use aarch64_emu.Base.{Bool, true, false, List, [], ◌∷◌}
use aarch64_emu.Base.{◌+64◌}
use aarch64_emu.Base.{◌==◌, if◌then◌else◌}
use aarch64_emu.Base.{Outcome, ok, ◌>>=◌}
use aarch64_emu.Cpu.{Cpu, fetch}
use aarch64_emu.Cpu.Interrupt.{check_interrupt}
use aarch64_emu.Cpu.Decode.{decode_start}
use aarch64_emu.Emulator.Input.{Phase, Console, read_stdin}

-- One round of `execute_loop`: the new state, and whether the loop goes on. `timer_count` starts
-- at whatever number it holds, as it has no initial value; the counter `i`, which nothing reads but
-- debugging output, is left out.
unfoldable pub round : Cpu → Outcome (Bool × Cpu)
round c = do
  c' ← check_interrupt (record c { timer_count = c.timer_count +64 1 })
  fetched ← fetch c'
  let inst = fetched.0
  if inst == 0
      then ok (false, fetched.1)
      else (do c'' ← decode_start inst fetched.1; ok (true, c''))

-- The processor and the input thread, which the loop starts and never joins.
pub record Machine : Type 0 where
  pub cpu : Cpu
  pub phase : Phase
  pub stdin : List ℕ

abbrev pub console_of : Machine → Console
console_of m = record { uart = m.cpu.bus.uart; phase = m.phase; stdin = m.stdin }

abbrev pub with_console : Machine → Console → Machine
with_console m s = record {
  cpu = record (m.cpu) { bus = record (m.cpu.bus) { uart = s.uart } };
  phase = s.phase;
  stdin = s.stdin;
}

-- `n` steps of the input thread.
unfoldable pub type_ahead : ℕ → Machine → Outcome Machine
type_ahead zero m = ok m
type_ahead (suc n) m = do s ← read_stdin (console_of m); type_ahead n (with_console m s)

-- The loop, with one number for each round it may run: how many steps the input thread takes in front
-- of it. What the thread writes is read by the poll at a round's start alone. When the loop has
-- ended, the result is false.
unfoldable pub execute_loop : List ℕ → Machine → Outcome (Bool × Machine)
unfolding type_ahead
execute_loop [] m = ok (true, m)
execute_loop (n ∷ turns) m = do
  m' ← type_ahead n m
  done ← round m'.cpu
  let m'' = record m' { cpu = done.1 }
  elim done.0 [ true ↦ execute_loop turns m'' | false ↦ ok (false, m'') ]
