-- ===== src/Emulator/Input.antt =====
-- `read_stdin` of src/emulator.cc, the thread that fills the UART's receive buffer, and its
-- interleaving with the processor's thread. `stdin` is what is still to be typed until the end of
-- the input. The two threads take turns at the granularity of one `fgets`, one round of the counting
-- loop and one operation of the UART.
use aarch64_emu.Base.{ℕ, zero, suc, ◌+◌, ◌-◌, ◌%◌, ◌≡◌, true, false, Option, none, some}
use aarch64_emu.Base.{List, [], ◌∷◌, ◌++◌, u8, ltb, ◌==◌, if◌then◌else◌, update}
use aarch64_emu.Base.{Outcome, ok, undefined, ◌>>=◌}
use aarch64_emu.Uart
use aarch64_emu.Uart.{Uart, uart_rx_buff_len}

abbrev pub newline : ℕ
newline = 10

-- The characters that `fgets` takes, at most `n` and none after a newline, and those it leaves.
abbrev pub take_line : ℕ → List ℕ → List ℕ × List ℕ
take_line zero cs = ([], cs)
take_line (suc n) [] = ([], [])
take_line (suc n) (c ∷ cs) =
    let rest = take_line n cs in if c == newline then (c ∷ [], cs) else (c ∷ rest.0, rest.1)

-- A character into the receive buffer; to write past its end is undefined.
unfoldable pub put_char : ℕ → ℕ → Uart → Outcome Uart
put_char pos c u =
    if ltb pos uart_rx_buff_len
    then ok (record u { uart_rx_buff = update u.uart_rx_buff pos c })
    else undefined

-- The characters from `pos` on, with a null behind them.
unfoldable pub put_line : ℕ → List ℕ → Uart → Outcome Uart
unfolding put_char
put_line pos [] u = put_char pos 0 u
put_line pos (c ∷ cs) u = do u' ← put_char pos c u; put_line (pos + 1) cs u'

-- `fgets(buff, size, stdin)` into the receive buffer from `pos` on. A null pointer, at the end of
-- the input, is none.
unfoldable pub fgets : ℕ → ℕ → List ℕ → Uart → Outcome (Option (List ℕ × Uart))
unfolding put_line
fgets pos size [] u = ok none
fgets pos size (c ∷ cs) u =
    let line = take_line (size - 1) (c ∷ cs) in
    do u' ← put_line pos line.0 u; ok (some (line.1, u'))

-- Where the thread is: before its `fgets`, in the round `i` of the counting loop over the line at
-- `idx`, or behind the outer loop.
pub data Phase : Type 0 where
  reading : Phase
  counting : ℕ → ℕ → Phase
  ended : Phase

pub record Console : Type 0 where
  pub uart : Uart
  pub phase : Phase
  pub stdin : List ℕ

-- After a round of the counting loop without a newline.
abbrev next_round : ℕ → ℕ → Phase
next_round idx i = if ltb (i + 1) 10 then Phase.counting idx (i + 1) else Phase.reading

-- A round of the counting loop; to read past the buffer's end is undefined.
unfoldable pub count_char : ℕ → ℕ → Uart → Outcome (Phase × Uart)
count_char idx i u =
    let u' = record u { uart_rx_idx = u8 (u.uart_rx_idx + 1) } in
    if ltb (idx + i) uart_rx_buff_len
    then ok (if u'.uart_rx_buff (idx + i) == newline then Phase.reading else next_round idx i, u')
    else undefined

-- The thread's next step.
unfoldable pub read_stdin : Console → Outcome Console
unfolding fgets count_char
read_stdin s = elim s.phase [
  | Phase.reading ↦
      let idx = s.uart.uart_rx_idx % uart_rx_buff_len in
      do
        line ← fgets idx 10 s.stdin s.uart
        elim line [
          | none ↦ ok (record s { phase = Phase.ended })
          | some (rest, u) ↦ ok (record { uart = u; phase = Phase.counting idx 0; stdin = rest })
        ]
  | Phase.counting idx i ↦ do
    done ← count_char idx i s.uart
    ok (record s { uart = done.1; phase = done.0 })
  | Phase.ended ↦ ok s
]

-- The runs of both threads from `s0`, with the bytes that interrupts have delivered to the guest: the
-- processor's thread polls the UART and accesses its registers.
pub data Run (s0 : Console) : Console → List ℕ → Type 0 where
  start : Run s0 s0 []
  typed : {s s' : Console} {got : List ℕ} → Run s0 s got → read_stdin s ≡ ok s' → Run s0 s' got
  polled :
      {s : Console} {u : Uart} {got : List ℕ}
      → Run s0 s got
      → Uart.is_interrupting s.uart ≡ ok (false, u)
      → Run s0 (record s { uart = u }) got
  delivered :
      {s : Console} {u : Uart} {got : List ℕ}
      → Run s0 s got
      → Uart.is_interrupting s.uart ≡ ok (true, u)
      → Run s0 (record s { uart = u }) (got ++ (u.uart_dr ∷ []))
  stored :
      {s : Console} {got : List ℕ} (addr value : ℕ)
      → Run s0 s got
      → Run s0 (record s { uart = Uart.store s.uart addr value }) got
  loaded :
      {s : Console} {got : List ℕ} (addr : ℕ)
      → Run s0 s got
      → Run s0 (record s { uart = (Uart.load s.uart addr).1 }) got
