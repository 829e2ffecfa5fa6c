-- ===== src/Uart/Receive.antt =====
-- `Uart::is_interrupting` of src/uart.cc: what an interrupt delivers, and when it can come again.
use aarch64_emu.Base.{ℕ, ◌+◌, ◌-◌, ◌*◌, ◌/◌, ◌%◌, ◌^◌, ◌<◌, bit_and}
use aarch64_emu.Base.{Bool, Bool-cases, inl, inr, true, false, ok, ◌≡◌, ◌≢◌, arith, u8, u64}
use aarch64_emu.Base.{ltb}
use aarch64_emu.Base.Bits.{and_split}
use aarch64_emu.Base.Masks.{and_mask, and_place}
use aarch64_emu.Uart
use aarch64_emu.Uart.{Uart, receive, poll_receive}

-- The receive interrupt's bit of the two mask registers.
abbrev pub IsEnabled : ℕ → Type 0
IsEnabled register = register / 2 ^ 4 % 2 ≡ 1

-- Clearing the interrupt's bit clears it.
cleared : (icr : ℕ) → bit_and (bit_and icr (2 ^ 16 - 1 - 2 ^ 4)) (2 ^ 4) ≡ 0
cleared icr = ground (
  arith,
  and_split 5 (icr / 32) 0x7ff (icr % 32) 15,
  and_mask 4 (icr % 32),
  and_place 4 (bit_and (icr / 32) 0x7ff * 32 + icr % 32 % 16),
)

-- What a poll that raises the interrupt says of the state before and after.
pub is_interrupting-receives :
    (u u' : Uart)
    → Uart.is_interrupting u ≡ ok (true, u')
    → (1000 < u64 (u.counter + 1))
      × IsEnabled u.uart_imsc
      × IsEnabled u.uart_icr
      × (u.uart_rx_idx ≢ u.uart_rx_last_idx)
      × (u'.uart_dr ≡ u.uart_rx_buff u.uart_rx_last_idx)
      × (u'.uart_rx_last_idx ≡ u8 (u.uart_rx_last_idx + 1))
      × (u'.counter ≡ 0)
unfolding Uart.is_interrupting poll_receive receive
is_interrupting-receives u u' h = ground (arith, and_place 4 u.uart_imsc, and_place 4 u.uart_icr)

-- What becomes of a UART, from `u0` on, while the guest does not write the interrupt register: polls,
-- loads, stores at other offsets, and whatever the input thread makes of its index and the buffer.
pub data Unacknowledged (u0 : Uart) : Uart → Type 0 where
  start : Unacknowledged u0 u0
  polled :
      {u u' : Uart} {raised : Bool}
      → Unacknowledged u0 u
      → Uart.is_interrupting u ≡ ok (raised, u')
      → Unacknowledged u0 u'
  loaded : {u : Uart} (addr : ℕ) → Unacknowledged u0 u → Unacknowledged u0 (Uart.load u addr).1
  stored :
      {u : Uart} (addr value : ℕ)
      → bit_and addr 0xfff ≢ 0x044
      → Unacknowledged u0 u
      → Unacknowledged u0 (Uart.store u addr value)
  typed :
      {u : Uart} (idx : ℕ) (buff : ℕ → ℕ)
      → Unacknowledged u0 u
      → Unacknowledged u0 (record u { uart_rx_idx = idx; uart_rx_buff = buff })

-- The receive interrupt's bit of the interrupt register is clear.
abbrev IsCleared : Uart → Type 0
IsCleared u = bit_and u.uart_icr (2 ^ 4) ≡ 0

raised-IsCleared : (u u' : Uart) → Uart.is_interrupting u ≡ ok (true, u') → IsCleared u'
unfolding Uart.is_interrupting poll_receive receive
raised-IsCleared u u' h = ground (arith, cleared u.uart_icr)

polled-IsCleared :
    (u u' : Uart) (raised : Bool)
    → Uart.is_interrupting u ≡ ok (raised, u')
    → IsCleared u
    → IsCleared u'
unfolding Uart.is_interrupting poll_receive receive
polled-IsCleared u u' raised h clear = ground (arith, cleared u.uart_icr)

loaded-IsCleared : (u : Uart) (addr : ℕ) → IsCleared u → IsCleared (Uart.load u addr).1
unfolding Uart.load
loaded-IsCleared u addr clear = ground arith

stored-IsCleared :
    (u : Uart) (addr value : ℕ)
    → bit_and addr 0xfff ≢ 0x044
    → IsCleared u
    → IsCleared (Uart.store u addr value)
unfolding Uart.store
stored-IsCleared u addr value other clear = ground arith

Unacknowledged-IsCleared : {u0 u : Uart} → IsCleared u0 → Unacknowledged u0 u → IsCleared u
Unacknowledged-IsCleared clear Unacknowledged.start = clear
Unacknowledged-IsCleared clear (Unacknowledged.polled {u} {u'} {raised} run h) =
    polled-IsCleared u u' raised h (Unacknowledged-IsCleared clear run)
Unacknowledged-IsCleared clear (Unacknowledged.loaded {u} addr run) =
    loaded-IsCleared u addr (Unacknowledged-IsCleared clear run)
Unacknowledged-IsCleared clear (Unacknowledged.stored {u} addr value other run) =
    stored-IsCleared u addr value other (Unacknowledged-IsCleared clear run)
Unacknowledged-IsCleared clear (Unacknowledged.typed {u} idx buff run) =
    Unacknowledged-IsCleared clear run

cleared-quiet : (u : Uart) → IsCleared u → (u' : Uart) × (Uart.is_interrupting u ≡ ok (false, u'))
unfolding Uart.is_interrupting poll_receive
cleared-quiet u clear = elim (Bool-cases (ltb 1000 (u64 (u.counter + 1)))) [
  | inl late ↦ (record u { counter = 0 }, ground arith)
  | inr early ↦ (record u { counter = u64 (u.counter + 1) }, ground arith)
]

-- One interrupt until the guest acknowledges it. After a poll that raises the interrupt, and then any
-- sequence of polls, loads, stores at offsets other than the interrupt register's, and changes of the
-- receive index and the buffer, a poll is defined and does not raise the interrupt.
pub is_interrupting-once :
    (u raised u' : Uart)
    → Uart.is_interrupting u ≡ ok (true, raised)
    → Unacknowledged raised u'
    → (v : Uart) × (Uart.is_interrupting u' ≡ ok (false, v))
is_interrupting-once u raised u' h run =
    cleared-quiet u' (Unacknowledged-IsCleared (raised-IsCleared u raised h) run)
