-- ===== src/Uart/Liveness.antt =====
-- `Uart::is_interrupting` of src/uart.cc polled again and again, as `Cpu::check_interrupt` does.
use aarch64_emu.Base.{ℕ, zero, suc, ◌+◌, ◌-◌, ◌^◌, ◌≤◌, ◌<◌, bit_and}
use aarch64_emu.Base.{Bool, true, false, Outcome, ok, ◌>>=◌, ◌≡◌, ◌≢◌, refl, arith}
use aarch64_emu.Base.Masks.{and_place}
use aarch64_emu.Uart
use aarch64_emu.Uart.{Uart, receive, poll_receive}
use aarch64_emu.Uart.Receive.{IsEnabled}

-- At most `n` polls, up to the first that raises the interrupt.
abbrev pub poll_until : ℕ → Uart → Outcome (Bool × Uart)
poll_until zero u = ok (false, u)
poll_until (suc n) u = do
  polled ← Uart.is_interrupting u
  elim polled.0 [ true ↦ ok (true, polled.1) | false ↦ poll_until n polled.1 ]

-- A poll before the 1001st only counts.
pub early_poll :
    (u : Uart)
    → u.counter < 1000
    → Uart.is_interrupting u ≡ ok (false, record u { counter = u.counter + 1 })
unfolding Uart.is_interrupting
early_poll u few = ground arith

-- What a poll makes of the UART that takes the waiting byte.
abbrev pub received : Uart → Uart
received u = record u {
  uart_dr = u.uart_rx_buff u.uart_rx_last_idx;
  uart_rx_last_idx = u.uart_rx_last_idx + 1;
  uart_icr = bit_and u.uart_icr (2 ^ 16 - 1 - 2 ^ 4);
  uart_fr = bit_and u.uart_fr 0xef;
  counter = 0;
}

module _ (u : Uart) (enabled : IsEnabled u.uart_imsc) (ready : IsEnabled u.uart_icr)
    (waits : u.uart_rx_idx ≢ u.uart_rx_last_idx) (room : u.uart_rx_last_idx < 64) where
  pub last_poll : Uart.is_interrupting (record u { counter = 1000 }) ≡ ok (true, received u)
  unfolding Uart.is_interrupting poll_receive receive
  last_poll = ground (arith, and_place 4 u.uart_imsc, and_place 4 u.uart_icr)

  polls_left :
      (n counter : ℕ)
      → counter + n ≡ 1000
      → poll_until (suc n) (record u { counter = counter }) ≡ ok (true, received u)
  polls_left zero counter count = let e : counter ≡ 1000 = omega arith in rw (e, last_poll) refl
  polls_left (suc n) counter count =
      let first = early_poll (record u { counter = counter }) (omega arith) in
      rw first (polls_left n (counter + 1) (omega arith))

  early_polls :
      (n counter : ℕ)
      → counter + n ≡ 1000
      → poll_until n (record u { counter = counter }) ≡ ok (false, record u { counter = 1000 })
  early_polls zero counter count = let e : counter ≡ 1000 = omega arith in rw e refl
  early_polls (suc n) counter count =
      rw (early_poll (record u { counter = counter }) (omega arith))
        (early_polls n (counter + 1) (omega arith))

  -- A waiting byte reaches the guest. With the receive interrupt enabled in both registers, a byte
  -- waiting in the buffer's 64 places, and a counter of at most 1000, the poll number
  -- 1001 - counter raises the interrupt, and is the first to: it puts the byte into the data
  -- register, moves on to the next, clears the interrupt's bit and the empty flag, and starts the
  -- counter anew.
  pub poll_until-raises :
      u.counter ≤ 1000
      → (poll_until (1000 - u.counter) u ≡ ok (false, record u { counter = 1000 }))
        × (poll_until (1001 - u.counter) u ≡ ok (true, received u))
  poll_until-raises few =
      let e : 1001 - u.counter ≡ suc (1000 - u.counter) = omega arith in
      (
        early_polls (1000 - u.counter) u.counter (omega arith),
        rw e (polls_left (1000 - u.counter) u.counter (omega arith)),
      )

-- The polls of `u` from the counter `k` on.
module _ (u : Uart) where
  -- What is shown of `n` polls from the counter `k` on that raise the interrupt.
  abbrev Raised : ℕ → ℕ → Uart → Type 0
  Raised n k u' =
      (1001 ≤ n + k)
      × IsEnabled u.uart_imsc
      × IsEnabled u.uart_icr
      × (u.uart_rx_idx ≢ u.uart_rx_last_idx)
      × (u' ≡ received u)
