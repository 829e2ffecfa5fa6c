-- ===== src/Uart.antt =====
-- src/uart.cc: the serial port. `stdout` is what was written to the host's standard output.
-- The receive buffer is filled by the input thread of src/emulator.cc.
pub mod Receive
pub mod Liveness
use aarch64_emu.Base.{ℕ, ◌+◌, ◌-◌, ◌^◌, bit_and, bit_or}
use aarch64_emu.Base.{Bool, true, false, List, [], ◌∷◌, ◌++◌}
use aarch64_emu.Base.{u8, u16, u64}
use aarch64_emu.Base.{ltb, ◌==◌, ◌!=◌, if◌then◌else◌}
use aarch64_emu.Base.{Outcome, ok, undefined}

pub record Uart : Type 0 where
  pub uart_dr : ℕ
  pub uart_rx_idx : ℕ
  pub uart_rx_last_idx : ℕ
  pub uart_rx_buff : ℕ → ℕ
  pub uart_fr : ℕ
  pub uart_lcr_h : ℕ
  pub uart_cr : ℕ
  pub uart_imsc : ℕ
  pub uart_icr : ℕ
  pub counter : ℕ
  pub stdout : List ℕ

abbrev pub uart_rx_buff_len : ℕ
uart_rx_buff_len = 64

abbrev pub rx_intr_mask : ℕ
rx_intr_mask = 0b10000

-- `uart_dr = uart_rx_buff[uart_rx_last_idx++]` and the register updates after it. The index is a
-- `uint8_t` that nothing reduces, and a read past the array is undefined.
unfoldable pub receive : Uart → Outcome (Bool × Uart)
receive u =
    if ltb u.uart_rx_last_idx uart_rx_buff_len
    then ok (
      true,
      record u {
        uart_dr = u.uart_rx_buff u.uart_rx_last_idx;
        uart_rx_last_idx = u8 (u.uart_rx_last_idx + 1);
        uart_icr = bit_and u.uart_icr (2 ^ 16 - 1 - rx_intr_mask);
        uart_fr = bit_and u.uart_fr 0xef;
      },
    )
    else undefined

-- The body of `if (counter > 1000)`, after `counter = 0`.
unfoldable pub poll_receive : Uart → Outcome (Bool × Uart)
unfolding receive
poll_receive u =
    if bit_and u.uart_imsc rx_intr_mask == 0
    then ok (false, u)
    else if bit_and u.uart_icr rx_intr_mask == 0
    then ok (false, u)
    else if u.uart_rx_idx != u.uart_rx_last_idx
    then receive u
    else ok (false, u)

unfoldable pub is_interrupting : Uart → Outcome (Bool × Uart)
unfolding poll_receive
is_interrupting u =
    let n = u64 (u.counter + 1) in
    if ltb 1000 n
    then poll_receive (record u { counter = 0 })
    else ok (false, record u { counter = n })

unfoldable pub store : Uart → ℕ → ℕ → Uart
store u addr value =
    let offset = bit_and addr 0xfff in
    if offset == 0x000
    then record u { uart_dr = u16 value; stdout = u.stdout ++ (u8 value ∷ []) }
    else if offset == 0x018
    then record u { uart_fr = u16 value }
    else if offset == 0x02c
    then record u { uart_lcr_h = u16 value }
    else if offset == 0x030
    then record u { uart_cr = u16 value }
    else if offset == 0x038
    then record u { uart_imsc = u16 value }
    else if offset == 0x044
    then record u { uart_icr = u16 value }
    else u

-- Reading the data register empties it and raises the empty flag, bit 4 of `uart_fr`.
unfoldable pub load : Uart → ℕ → ℕ × Uart
load u addr =
    let offset = bit_and addr 0xfff in
    if offset == 0x000
    then (u.uart_dr, record u { uart_dr = 0; uart_fr = bit_or u.uart_fr (2 ^ 4) })
    else if offset == 0x018
    then (u.uart_fr, u)
    else if offset == 0x02c
    then (u.uart_lcr_h, u)
    else if offset == 0x030
    then (u.uart_cr, u)
    else if offset == 0x038
    then (u.uart_imsc, u)
    else if offset == 0x044
    then (u.uart_icr, u)
    else (1, u)
