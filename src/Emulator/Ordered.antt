-- ===== src/Emulator/Ordered.antt =====
-- The order of the typed characters in the UART's buffer (src/uart.cc) and the input thread
-- (src/emulator.cc), and what the UART's own operations do to it.
use aarch64_emu.Base.{ℕ, ◌+◌, ◌≤◌, ◌<◌, ◌≡◌, ◌∙◌, arith}
use aarch64_emu.Base.{true, false, List, [], ◌∷◌, ◌++◌}
use aarch64_emu.Base.{ok}
use aarch64_emu.Base.Lists.{length, length-append, Reads}
use aarch64_emu.Uart
use aarch64_emu.Uart.{Uart, poll_receive, receive}
use aarch64_emu.Emulator.Input.{Phase, Console}
use aarch64_emu.Emulator.Lines.{short_lines, IsLine}
use aarch64_emu.Uart.Receive.{is_interrupting-receives}
use mathlib.Core.List.{append_assoc}

-- How far the thread has counted the line it has read, of which `left` is not counted yet.
abbrev pub InPhase : Phase → ℕ → List ℕ → List ℕ → Type 0
InPhase Phase.reading idx left stdin = left ≡ []
InPhase (Phase.counting line i) idx left stdin =
    (line + i ≡ idx) × (i + length left ≤ 9) × IsLine left
InPhase Phase.ended idx left stdin = (left ≡ []) × (stdin ≡ [])

-- The typed characters are those that the guest has got, those that wait in the buffer, the rest of
-- the line that is being counted, and what is still to be read.
pub record Ordered (input got waiting left : List ℕ) (s : Console) : Type 0 where
  pub whole : got ++ (waiting ++ (left ++ s.stdin)) ≡ input
  pub head : length got ≡ s.uart.uart_rx_last_idx
  pub tail : s.uart.uart_rx_last_idx + length waiting ≡ s.uart.uart_rx_idx
  pub here : Reads s.uart.uart_rx_buff s.uart.uart_rx_last_idx (waiting ++ left)
  pub others : short_lines 9 s.stdin ≡ true
  pub room : s.uart.uart_rx_idx + (length left + length s.stdin) < 64
  pub at_phase : InPhase s.phase s.uart.uart_rx_idx left s.stdin

-- Operations that leave the buffer and its indices alone.
pub record IsQuiet (u u' : Uart) : Type 0 where
  pub same_idx : u'.uart_rx_idx ≡ u.uart_rx_idx
  pub same_last : u'.uart_rx_last_idx ≡ u.uart_rx_last_idx
  pub same_buff : u'.uart_rx_buff ≡ u.uart_rx_buff

pub Ordered-quiet :
    {input got waiting left : List ℕ} {s : Console} {u : Uart}
    → IsQuiet s.uart u
    → Ordered input got waiting left s
    → Ordered input got waiting left (record s { uart = u })
Ordered-quiet q o = record {
  whole = o.whole;
  head = rw q.same_last o.head;
  tail = rw (q.same_last, q.same_idx) o.tail;
  here = rw (q.same_last, q.same_buff) o.here;
  others = o.others;
  room = rw q.same_idx o.room;
  at_phase = rw q.same_idx o.at_phase;
}

pub store-IsQuiet : (u : Uart) (addr value : ℕ) → IsQuiet u (Uart.store u addr value)
unfolding Uart.store
store-IsQuiet u addr value = record {
  same_idx = ground arith;
  same_last = ground arith;
  same_buff = ground arith;
}

pub load-IsQuiet : (u : Uart) (addr : ℕ) → IsQuiet u (Uart.load u addr).1
unfolding Uart.load
load-IsQuiet u addr = record {
  same_idx = ground arith;
  same_last = ground arith;
  same_buff = ground arith;
}

pub poll-IsQuiet : (u u' : Uart) → Uart.is_interrupting u ≡ ok (false, u') → IsQuiet u u'
unfolding Uart.is_interrupting poll_receive receive
poll-IsQuiet u u' h = record {
  same_idx = ground arith;
  same_last = ground arith;
  same_buff = ground arith;
}

poll-same :
    (u u' : Uart)
    → Uart.is_interrupting u ≡ ok (true, u')
    → (u'.uart_rx_idx ≡ u.uart_rx_idx) × (u'.uart_rx_buff ≡ u.uart_rx_buff)
unfolding Uart.is_interrupting poll_receive receive
poll-same u u' h = (ground arith, ground arith)

-- A poll that raises the interrupt delivers the first of the waiting characters.
pub delivered-Ordered :
    {input got left : List ℕ} (waiting : List ℕ) {s : Console} {u : Uart}
    → Uart.is_interrupting s.uart ≡ ok (true, u)
    → Ordered input got waiting left s
    → (later : List ℕ) × Ordered input (got ++ (u.uart_dr ∷ [])) later left (record s { uart = u })
delivered-Ordered [] {s} {u} h o =
    let (_, _, _, more, _, _, _) = is_interrupting-receives s.uart u h in
    absurd (ground (arith, more, o.tail))
delivered-Ordered {input} {got} {left} (c ∷ waiting) {s} {u} h o =
    let (_, _, _, _, dr, last, _) = is_interrupting-receives s.uart u h in
    let (idx, buff) = poll-same s.uart u h in
    let is_c : u.uart_dr ≡ c = dr ∙ o.here.0 in
    let e : u.uart_rx_last_idx ≡ s.uart.uart_rx_last_idx + 1 =
      omega (arith, last, o.tail, o.room) in
    (
      waiting,
      record {
        whole = append_assoc got (u.uart_dr ∷ []) (waiting ++ (left ++ s.stdin)) ∙ rw is_c o.whole;
        head = length-append got (u.uart_dr ∷ []) ∙ omega (arith, o.head, e);
        tail = omega (arith, e, idx, o.tail);
        here = rw (buff, e) o.here.1;
        others = o.others;
        room = omega (arith, idx, o.room);
        at_phase = rw idx o.at_phase;
      },
    )
