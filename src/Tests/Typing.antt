-- ===== src/Tests/Typing.antt =====
-- One typed line from the terminal to the guest.
use aarch64_emu.Base.{ℕ, zero, suc, ◌+◌, ◌≤◌, ◌<◌, ◌≡◌, ◌≢◌, refl, arith}
use mathlib.Core.Path.{subst}
use aarch64_emu.Uart.Receive.{IsEnabled, Unacknowledged, is_interrupting-once}
use aarch64_emu.Base.{true, false, List, [], ◌∷◌, ◌++◌, ok, exit, undefined}
use aarch64_emu.Uart
use aarch64_emu.Uart.{Uart, poll_receive, receive}
use aarch64_emu.Uart.Liveness.{poll_until, received, early_poll, last_poll, poll_until-raises}
use aarch64_emu.Emulator.Input.{Console, put_char, put_line, fgets, count_char, read_stdin, Run}
use aarch64_emu.Emulator.Delivery.{console, Run-delivers, Run-complete}
use aarch64_emu.Tests.Machine.{small_uart}

-- The input thread's step, where it is defined.
unfoldable step : Console → Console
unfolding read_stdin fgets put_line put_char count_char
step s = elim (read_stdin s) [ ok s' ↦ s' | exit status ↦ s | undefined ↦ s ]

abbrev typed_line : List ℕ
typed_line = 65 ∷ (10 ∷ [])

-- The line is read and counted, and the receive interrupt enabled.
abbrev line_read : Console
line_read = step (step (step (console small_uart typed_line)))

abbrev enable : Console → Console
enable s = record s { uart = Uart.store (s.uart) 0x038 0x10 }

abbrev enabled_line : Console
enabled_line = enable line_read

line_Run : Run (console small_uart typed_line) enabled_line []
unfolding step read_stdin fgets put_line put_char count_char
line_Run = Run.stored 0x038 0x10 (Run.typed (Run.typed (Run.typed Run.start refl) refl) refl)

-- Polls that only count.
polls_Run :
    (n : ℕ) (s0 : Console) {got : List ℕ} (s : Console)
    → s.uart.counter + n ≤ 1000
    → Run s0 s got
    → Run s0 (record s { uart = record (s.uart) { counter = s.uart.counter + n } }) got
polls_Run zero s0 {got} s le run =
    let e : s.uart.counter ≡ s.uart.counter + 0 = omega arith in
    subst (λ (t : ℕ). Run s0 (record s { uart = record (s.uart) { counter = t } }) got) e run
polls_Run (suc n) s0 {got} s le run =
    let u = record (s.uart) { counter = s.uart.counter + 1 } in
    let e : s.uart.counter + 1 + n ≡ s.uart.counter + suc n = omega arith in
    subst (λ (t : ℕ). Run s0 (record s { uart = record (s.uart) { counter = t } }) got) e
      (polls_Run n s0 (record s { uart = u }) (omega arith)
        (Run.polled run (early_poll s.uart (omega arith))))

-- A waiting character, after a thousand polls.
deliver_Run :
    (s0 : Console) {got : List ℕ} (s : Console)
    → s.uart.counter ≡ 0
    → IsEnabled s.uart.uart_imsc
    → IsEnabled s.uart.uart_icr
    → s.uart.uart_rx_idx ≢ s.uart.uart_rx_last_idx
    → s.uart.uart_rx_last_idx < 64
    → Run s0 s got
    → Run s0
        (record s { uart = received s.uart })
        (got ++ (s.uart.uart_rx_buff s.uart.uart_rx_last_idx ∷ []))
deliver_Run s0 {got} s fresh enabled ready waits room run =
    let e : s.uart.counter + 1000 ≡ 1000 = omega (arith, fresh) in
    let before =
      subst (λ (t : ℕ). Run s0 (record s { uart = record (s.uart) { counter = t } }) got) e
        (polls_Run 1000 s0 s (omega (arith, fresh)) run) in
    Run.delivered before (last_poll s.uart enabled ready waits room)

abbrev first_got : Console
first_got = record enabled_line { uart = received enabled_line.uart }

-- The guest acknowledges the interrupt.
abbrev acknowledge : Console → Console
acknowledge s = record s { uart = Uart.store s.uart 0x044 0x10 }

abbrev all_read : Console
all_read = record (acknowledge first_got) { uart = received (acknowledge first_got).uart }

first_Run : Run (console small_uart typed_line) first_got (65 ∷ [])
unfolding step read_stdin fgets put_line put_char count_char Uart.store
first_Run =
    deliver_Run (console small_uart typed_line) enabled_line refl refl refl (omega arith)
      (omega arith) line_Run

all_Run : Run (console small_uart typed_line) (step all_read) (65 ∷ (10 ∷ []))
unfolding step read_stdin fgets put_line put_char count_char Uart.store
all_Run =
    Run.typed
      (deliver_Run (console small_uart typed_line) (acknowledge first_got) refl refl refl
        (omega arith) (omega arith) (Run.stored 0x044 0x10 first_Run))
      refl

Run-delivers_example :
    ((rest : List ℕ) × ((65 ∷ []) ++ rest ≡ typed_line))
    × (read_stdin first_got ≢ undefined)
    × (Uart.is_interrupting first_got.uart ≢ undefined)
unfolding Uart.store
Run-delivers_example =
    Run-delivers small_uart 0 typed_line first_got (65 ∷ []) refl (omega arith) first_Run

Run-complete_example : ◌≡◌ {A = List ℕ} (65 ∷ (10 ∷ [])) typed_line
unfolding step read_stdin fgets put_line put_char count_char Uart.store
Run-complete_example =
    Run-complete small_uart typed_line (step all_read).uart [] (65 ∷ (10 ∷ [])) refl (omega arith)
      all_Run refl

abbrev polled_uart : Uart
polled_uart = record small_uart {
  uart_rx_idx = 1;
  uart_rx_buff = λ _. 65;
  uart_imsc = 0x10;
  uart_icr = 0x10;
  counter = 998;
}

poll_until-raises_example :
    (poll_until 2 polled_uart ≡ ok (false, record polled_uart { counter = 1000 }))
    × (poll_until 3 polled_uart ≡ ok (true, received polled_uart))
poll_until-raises_example =
    poll_until-raises polled_uart refl refl (omega arith) (omega arith) (omega arith)

-- After the interrupt, a character is typed and the guest reads the data register.
abbrev unacknowledged_uart : Uart
unacknowledged_uart =
    (Uart.load (record (received polled_uart) { uart_rx_idx = 2; uart_rx_buff = λ _. 66 }) 0x000).1

unacknowledged : Unacknowledged (received polled_uart) unacknowledged_uart
unacknowledged = Unacknowledged.loaded 0x000 (Unacknowledged.typed 2 (λ _. 66) Unacknowledged.start)

last_raises :
    Uart.is_interrupting (record polled_uart { counter = 1000 }) ≡ ok (true, received polled_uart)
unfolding Uart.is_interrupting poll_receive receive
last_raises = refl

is_interrupting-once_example :
    (v : Uart) × (Uart.is_interrupting unacknowledged_uart ≡ ok (false, v))
is_interrupting-once_example =
    is_interrupting-once (record polled_uart { counter = 1000 }) (received polled_uart)
      unacknowledged_uart last_raises unacknowledged
