-- ===== src/Emulator/Delivery.antt =====
-- What the guest receives of the typed characters, over every interleaving of the input thread and
-- the processor's (src/emulator.cc, src/uart.cc).
use aarch64_emu.Base.{ℕ, ◌<◌, ◌≡◌, ◌≢◌, refl, sym, ◌∙◌, arith}
use aarch64_emu.Base.{true, List, [], ◌∷◌, ◌++◌}
use aarch64_emu.Base.{ok, undefined}
use aarch64_emu.Base.Lists.{length}
use aarch64_emu.Uart
use aarch64_emu.Uart.{Uart, poll_receive, receive}
use aarch64_emu.Emulator.Input.{Phase, Console, read_stdin, Run}
use aarch64_emu.Emulator.Lines.{short_lines}
use aarch64_emu.Emulator.Start.{new_uart}
use mathlib.Core.List.{append-nil}
use aarch64_emu.Emulator.Ordered.{
  Ordered, Ordered-quiet, store-IsQuiet, load-IsQuiet, poll-IsQuiet, delivered-Ordered,
}
use aarch64_emu.Emulator.Reading.{read_stdin-Ordered}

-- The UART and the thread at the start, with `input` to be typed.
abbrev pub console : Uart → List ℕ → Console
console u input = record { uart = new_uart u; phase = Phase.reading; stdin = input }

-- The same once the guest has written its interrupt mask, which the constructor leaves without a
-- value and the 1001st poll reads.
abbrev pub masked_console : Uart → ℕ → List ℕ → Console
masked_console u mask input = record (console u input) { uart = Uart.store (new_uart u) 0x038 mask }

SomeOrdered : List ℕ → List ℕ → Console → Type 0
SomeOrdered input got s = (waiting left : List ℕ) × Ordered input got waiting left s

typed-Ordered :
    (input got : List ℕ) (s s' : Console)
    → read_stdin s ≡ ok s'
    → SomeOrdered input got s
    → SomeOrdered input got s'
unfolding SomeOrdered
typed-Ordered input got s s' h (waiting, left, o) =
    let (later, left', s1, done, o') = read_stdin-Ordered s.uart s.phase s.stdin o in
    let same : s1 ≡ s' = ground (arith, done, h) in (later, left', rw same at o')

start-Ordered :
    (s : Console)
    → s.uart.uart_rx_idx ≡ 0
    → s.uart.uart_rx_last_idx ≡ 0
    → s.phase ≡ Phase.reading
    → short_lines 9 s.stdin ≡ true
    → length s.stdin < 64
    → SomeOrdered s.stdin [] s
unfolding SomeOrdered
start-Ordered s idx last at_start short few = (
  [],
  [],
  record {
    whole = refl;
    head = sym last;
    tail = omega (arith, idx, last);
    here = tt;
    others = short;
    room = omega (arith, idx, few);
    at_phase = rw at_start refl;
  },
)

Run-Ordered :
    (input : List ℕ) {s0 s : Console} {got : List ℕ}
    → SomeOrdered input [] s0
    → Run s0 s got
    → SomeOrdered input got s
unfolding SomeOrdered
Run-Ordered input o0 Run.start = o0
Run-Ordered input o0 (Run.typed {s} {s'} run h) =
    typed-Ordered input _ s s' h (Run-Ordered input o0 run)
Run-Ordered input o0 (Run.polled {s} {u = u'} run h) =
    let (waiting, left, o) = Run-Ordered input o0 run in
    (waiting, left, Ordered-quiet (poll-IsQuiet s.uart u' h) o)
Run-Ordered input o0 (Run.delivered {s} {u = u'} run h) =
    let (waiting, left, o) = Run-Ordered input o0 run in
    let (later, o') = delivered-Ordered waiting h o in (later, left, o')
Run-Ordered input o0 (Run.stored {s} addr value run) =
    let (waiting, left, o) = Run-Ordered input o0 run in
    (waiting, left, Ordered-quiet (store-IsQuiet s.uart addr value) o)
Run-Ordered input o0 (Run.loaded {s} addr run) =
    let (waiting, left, o) = Run-Ordered input o0 run in
    (waiting, left, Ordered-quiet (load-IsQuiet s.uart addr) o)

poll_defined : (u : Uart) → u.uart_rx_last_idx < 64 → Uart.is_interrupting u ≢ undefined
unfolding Uart.is_interrupting poll_receive receive
poll_defined u lt h = ground arith

-- What the guest gets is what was typed, in order. Let a text of less than 64 characters be typed,
-- in lines of at most 9 characters, newlines counted. Over every interleaving of the input thread
-- with polls and register accesses, from the reset UART on whose interrupt mask the guest has
-- written, with any value: what the interrupts have delivered is the beginning of the text, and
-- neither the thread's next step nor the next poll is undefined.
pub Run-delivers :
    (u : Uart) (mask : ℕ) (input : List ℕ) (s : Console) (got : List ℕ)
    → short_lines 9 input ≡ true
    → length input < 64
    → Run (masked_console u mask input) s got
    → ((rest : List ℕ) × (got ++ rest ≡ input))
      × (read_stdin s ≢ undefined)
      × (Uart.is_interrupting s.uart ≢ undefined)
unfolding SomeOrdered Uart.store
Run-delivers u mask input s got short few run =
    let o0 = start-Ordered (masked_console u mask input) refl refl refl short few in
    let (waiting, left, o) = Run-Ordered input o0 run in
    let (_, _, s', step, _) = read_stdin-Ordered s.uart s.phase s.stdin o in
    (
      (waiting ++ (left ++ s.stdin), o.whole),
      (λ h. ground (arith, step, h)),
      poll_defined s.uart (omega (arith, o.tail, o.room)),
    )

all_got :
    {input got : List ℕ} (waiting left : List ℕ) (u : Uart) (cs : List ℕ)
    → u.uart_rx_idx ≡ u.uart_rx_last_idx
    → Ordered input got waiting left (record { uart = u; phase = Phase.ended; stdin = cs })
    → got ≡ input
all_got (c ∷ waiting) left u cs none_waits o = absurd (omega (arith, o.tail))
all_got {input} {got} [] left u cs none_waits o =
    sym (append-nil got) ∙ rw o.at_phase.0 (rw o.at_phase.1 refl) ∙ o.whole

-- Nothing typed is lost. Let a text of less than 64 characters be typed, in lines of at most 9
-- characters, newlines counted. Over every interleaving from the reset UART on, whatever its
-- interrupt mask holds: once the input thread has ended and
-- no byte waits in the buffer, the interrupts have delivered the whole text.
pub Run-complete :
    (u : Uart) (input : List ℕ) (last : Uart) (unread got : List ℕ)
    → short_lines 9 input ≡ true
    → length input < 64
    → Run (console u input) (record { uart = last; phase = Phase.ended; stdin = unread }) got
    → last.uart_rx_idx ≡ last.uart_rx_last_idx
    → got ≡ input
unfolding SomeOrdered
Run-complete u input last unread got short few run none_waits =
    let o0 = start-Ordered (console u input) refl refl refl short few in
    let (waiting, left, o) = Run-Ordered input o0 run in
    all_got waiting left last unread none_waits o
