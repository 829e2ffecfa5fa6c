-- ===== src/Emulator/Levels.antt =====
-- The exception level over whole runs of `Emulator::execute_loop` of src/emulator.cc.
use aarch64_emu.Base.{
  ℕ, zero, suc, Bool, true, false, ◌≡◌, ◌≤◌, arith, Outcome, ok, ◌>>=◌, >>=-eq-ok,
}
use aarch64_emu.Base.{◌+64◌}
use aarch64_emu.Bus
use aarch64_emu.Mmu.{mmu_translate}
use aarch64_emu.Uart
use aarch64_emu.Virtio
use aarch64_emu.Access.{word}
use aarch64_emu.Cpu.{Cpu, fetch}
use aarch64_emu.Cpu.Interrupt.{cause_interrupt, disk_interrupt, uart_interrupt, check_interrupt}
use aarch64_emu.Cpu.Decode.{decode_start}
use aarch64_emu.Cpu.Decode.Levels.{decode_start-level}
use aarch64_emu.Emulator.{round, Machine, console_of, with_console, type_ahead, execute_loop}
use aarch64_emu.Emulator.Input.{read_stdin}
use aarch64_emu.Base.{List, [], ◌∷◌}

cause_interrupt-level : (c : Cpu) (irq : ℕ) → c.el ≤ 1 → (cause_interrupt c irq).el ≤ 1
unfolding cause_interrupt
cause_interrupt-level c irq low = ground arith

disk_interrupt-level : (c : Cpu) {c' : Cpu} → c.el ≤ 1 → disk_interrupt c ≡ ok c' → c'.el ≤ 1
unfolding disk_interrupt
disk_interrupt-level c low h =
    let (done, _, rest) = >>=-eq-ok (Virtio.disk_access c.bus.mem c.bus.virtio) _ h in
    ground (
      arith,
      rest,
      cause_interrupt-level (record c { bus = record (c.bus) { mem = done.0; virtio = done.1 } })
          0x30 low,
    )

uart_interrupt-level : (c : Cpu) {c' : Cpu} → c.el ≤ 1 → uart_interrupt c ≡ ok c' → c'.el ≤ 1
unfolding uart_interrupt
uart_interrupt-level c low h =
    let (polled, _, rest) = >>=-eq-ok (Uart.is_interrupting c.bus.uart) _ h in
    ground (
      arith,
      rest,
      cause_interrupt-level (record c { bus = record (c.bus) { uart = polled.1 } }) 0x21 low,
    )

check_interrupt-level : (c : Cpu) {c' : Cpu} → c.el ≤ 1 → check_interrupt c ≡ ok c' → c'.el ≤ 1
unfolding check_interrupt
check_interrupt-level c {c'} low h =
    let polled = Virtio.is_interrupting c.bus.virtio in
    let next = record c { bus = record (c.bus) { virtio = polled.1 } } in
    ground (
      arith,
      disk_interrupt-level next {c' = c'} low,
      uart_interrupt-level next {c' = c'} low,
      cause_interrupt-level next 0x1b low,
    )

fetch-level : (c : Cpu) {r : ℕ × Cpu} → fetch c ≡ ok r → r.1.el ≡ c.el
unfolding fetch
fetch-level c h =
    let (translated, _, h') = >>=-eq-ok (mmu_translate c.mmu c.bus c.pc) _ h in
    let (read, _, e) = >>=-eq-ok (Bus.load translated.1 translated.0 word) _ h' in ground (arith, e)

decoded-level :
    (inst : ℕ) (c : Cpu) {r : Bool × Cpu}
    → c.el ≤ 1
    → (decode_start inst c >>= λ c''. ok (true, c'')) ≡ ok r
    → r.1.el ≤ 1
decoded-level inst c low h =
    let (c'', done, rest) = >>=-eq-ok (decode_start inst c) _ h in
    ground (arith, rest, decode_start-level inst c c'' low done)

round-level : (c : Cpu) {r : Bool × Cpu} → c.el ≤ 1 → round c ≡ ok r → r.1.el ≤ 1
unfolding round
round-level c {r} low h =
    let counted = record c { timer_count = c.timer_count +64 1 } in
    let (c', checked, h') = >>=-eq-ok (check_interrupt counted) _ h in
    let (fetched, f, rest) = >>=-eq-ok (fetch c') _ h' in
    ground (
      arith,
      rest,
      check_interrupt-level counted low checked,
      fetch-level c' f,
      decoded-level fetched.0 fetched.1 {r = r},
    )

-- The rounds after the first.
abbrev rounds_after : List ℕ → Machine → Bool × Cpu → Outcome (Bool × Machine)
rounds_after turns m done = elim done.0 [
  | true ↦ execute_loop turns (record m { cpu = done.1 })
  | false ↦ ok (false, record m { cpu = done.1 })
]

-- The input thread does not touch the processor.
type_ahead-level : (n : ℕ) (m m' : Machine) → type_ahead n m ≡ ok m' → m'.cpu.el ≡ m.cpu.el
unfolding type_ahead
type_ahead-level zero m m' h = ground arith
type_ahead-level (suc n) m m' h =
    let (s, _, rest) = >>=-eq-ok (read_stdin (console_of m)) _ h in
    type_ahead-level n (with_console m s) m' rest

-- Whatever the guest's program, the devices' state, the typed characters and the turns of the input
-- thread, a run of any number of rounds of the execution loop that starts at exception level 0 or 1,
-- and that does not end the process, ends at level 0 or 1; so interrupts, exceptions, returns and
-- system register writes never leave these levels.
pub execute_loop-level :
    (turns : List ℕ) (m m' : Machine) (running : Bool)
    → m.cpu.el ≤ 1
    → execute_loop turns m ≡ ok (running, m')
    → m'.cpu.el ≤ 1
unfolding execute_loop
execute_loop-level [] m m' running low h = ground arith
execute_loop-level (n ∷ turns) m m' running low h =
    let (typed, before, h') = >>=-eq-ok (type_ahead n m) _ h in
    let (done, ran, rest) = >>=-eq-ok (round typed.cpu) _ h' in
    let low' : typed.cpu.el ≤ 1 = omega (arith, type_ahead-level n m typed before, low) in
    go typed done (round-level typed.cpu low' ran)
      (λ mid low'' e. execute_loop-level turns mid m' running low'' e) rest
  where
    go :
        (typed : Machine) (done : Bool × Cpu)
        → done.1.el ≤ 1
        → ((mid : Machine)
            → mid.cpu.el ≤ 1
            → execute_loop turns mid ≡ ok (running, m')
            → m'.cpu.el ≤ 1)
        → rounds_after turns typed done ≡ ok (running, m')
        → m'.cpu.el ≤ 1
    go typed (true, c) low' again e = again (record typed { cpu = c }) low' e
    go typed (false, c) low' again e = ground arith
