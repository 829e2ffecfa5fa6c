-- ===== src/Emulator/Reading.antt =====
-- The steps of the input thread of src/emulator.cc and the order of the typed characters.
use aarch64_emu.Base.{ℕ, suc, ◌+◌, ◌%◌, ◌≡◌, refl, sym, ap, ◌∙◌, arith, inl, inr}
use aarch64_emu.Base.{true, List, [], ◌∷◌, ◌++◌, ltb}
use aarch64_emu.Base.{ok, u8}
use aarch64_emu.Base.Lists.{length, length-append, Reads, Reads-append, Reads-same, Reads-rest}
use aarch64_emu.Uart.{Uart}
use aarch64_emu.Emulator.Input.{Phase, Console, take_line, put_line, fgets, count_char, read_stdin}
use aarch64_emu.Emulator.Lines.{take_line_lem, written, put_line_lem, written-before, written-Reads}
use mathlib.Core.List.{append_assoc, append-nil}
use aarch64_emu.Emulator.Ordered.{InPhase, Ordered}

run_reading :
    (u u' : Uart) (c : ℕ) (cs : List ℕ)
    → put_line (u.uart_rx_idx % 64) (take_line 9 (c ∷ cs)).0 u ≡ ok u'
    → read_stdin (record { uart = u; phase = Phase.reading; stdin = c ∷ cs })
      ≡ ok (record {
        uart = u';
        phase = Phase.counting (u.uart_rx_idx % 64) 0;
        stdin = (take_line 9 (c ∷ cs)).1;
      })
unfolding read_stdin fgets
run_reading u u' c cs put = rw put refl

-- The line behind the waiting characters.
written-behind :
    (f : ℕ → ℕ) (last : ℕ) (waiting line : List ℕ)
    → Reads f last waiting
    → Reads (written (last + length waiting) line f) last (waiting ++ line)
written-behind f last waiting line before =
    let pos = last + length waiting in
    Reads-append (written pos line f) last waiting line
      (Reads-same f (written pos line f) last waiting (λ q le lt. written-before pos line f q lt)
        before)
      (written-Reads pos line f)

-- The thread at its `fgets`, with a line there.
reading-Ordered :
    {input got waiting : List ℕ} (u : Uart) (c : ℕ) (cs : List ℕ)
    → Ordered input got waiting [] (record { uart = u; phase = Phase.reading; stdin = c ∷ cs })
    → (left : List ℕ) × (s' : Console) × (read_stdin
          (record { uart = u; phase = Phase.reading; stdin = c ∷ cs })
        ≡ ok s')
      × Ordered input got waiting left s'
reading-Ordered {input} {got} {waiting} u c cs o =
    let line = (take_line 9 (c ∷ cs)).0 in
    let rest = (take_line 9 (c ∷ cs)).1 in
    let f = take_line_lem c cs o.others in
    let n = u.uart_rx_idx in
    let idx : n % 64 ≡ n = omega (arith, o.room) in
    let size : length line + length rest ≡ suc (length cs) =
      sym (length-append line rest) ∙ ap length f.whole in
    let put = put_line_lem (n % 64) line u (omega (arith, o.room, size, idx)) in
    let before : Reads u.uart_rx_buff u.uart_rx_last_idx waiting =
      rw (append-nil waiting) at o.here in
    let u' = record u { uart_rx_buff = written (n % 64) line u.uart_rx_buff } in
    let at_n : n % 64 ≡ u.uart_rx_last_idx + length waiting = idx ∙ sym o.tail in
    (
      line,
      record { uart = u'; phase = Phase.counting (n % 64) 0; stdin = rest },
      run_reading u u' c cs put,
      record {
        whole = rw f.whole o.whole;
        head = o.head;
        tail = o.tail;
        here = rw at_n (written-behind u.uart_rx_buff u.uart_rx_last_idx waiting line before);
        others = f.others;
        room = omega (arith, o.room, size);
        at_phase = (omega (arith, idx), omega (arith, f.fits), f.one);
      },
    )

-- The thread at the end of the input.
ended-Ordered :
    {input got waiting : List ℕ} (u : Uart)
    → Ordered input got waiting [] (record { uart = u; phase = Phase.reading; stdin = [] })
    → (left : List ℕ) × (s' : Console) × (read_stdin
          (record { uart = u; phase = Phase.reading; stdin = [] })
        ≡ ok s')
      × Ordered input got waiting left s'
unfolding read_stdin fgets
ended-Ordered u o = (
  [],
  record { uart = u; phase = Phase.ended; stdin = [] },
  refl,
  record {
    whole = o.whole;
    head = o.head;
    tail = o.tail;
    here = o.here;
    others = o.others;
    room = o.room;
    at_phase = (refl, refl);
  },
)

-- A character that is counted waits.
counted-Ordered :
    {input got waiting left : List ℕ} {c : ℕ} {s : Console} (p : Phase)
    → InPhase p (s.uart.uart_rx_idx + 1) left s.stdin
    → Ordered input got waiting (c ∷ left) s
    → Ordered input got (waiting ++ (c ∷ [])) left (record s {
      uart = record (s.uart) { uart_rx_idx = u8 (s.uart.uart_rx_idx + 1) };
      phase = p;
    })
counted-Ordered {input} {got} {waiting} {left} {c} {s} p phase o =
    let next : u8 (s.uart.uart_rx_idx + 1) ≡ s.uart.uart_rx_idx + 1 = omega (arith, o.room) in
    record {
      whole = rw (append_assoc waiting (c ∷ []) (left ++ s.stdin)) o.whole;
      head = o.head;
      tail = omega (arith, next, o.tail, length-append waiting (c ∷ []));
      here = rw (append_assoc waiting (c ∷ []) left) o.here;
      others = o.others;
      room = omega (arith, next, o.room);
      at_phase = rw next phase;
    }

-- A round of the counting loop.
counting-Ordered :
    {input got waiting : List ℕ} (left : List ℕ) (u : Uart) (line i : ℕ) (cs : List ℕ)
    → Ordered input got waiting left
        (record { uart = u; phase = Phase.counting line i; stdin = cs })
    → (later left' : List ℕ) × (s' : Console) × (read_stdin
          (record { uart = u; phase = Phase.counting line i; stdin = cs })
        ≡ ok s')
      × Ordered input got later left' s'
unfolding read_stdin count_char
counting-Ordered [] u line i cs o = absurd (ground (arith, o.at_phase.2))
counting-Ordered {input} {got} {waiting} (c ∷ left) u line i cs o =
    let (at_line, few, is_line) = o.at_phase in
    let n = u.uart_rx_idx in
    let in_buff : ltb (line + i) 64 ≡ true = ground (arith, at_line, o.room) in
    let at_c : u.uart_rx_buff (line + i) ≡ c =
      ap u.uart_rx_buff (at_line ∙ sym o.tail)
      ∙ (Reads-rest u.uart_rx_buff u.uart_rx_last_idx waiting (c ∷ left) o.here).0 in
    let u' = record u { uart_rx_idx = u8 (n + 1) } in
    elim is_line [
      | inl (is_newline, last) ↦ (
        waiting ++ (c ∷ []),
        left,
        record { uart = u'; phase = Phase.reading; stdin = cs },
        ground (arith, in_buff, at_c, is_newline),
        counted-Ordered Phase.reading last o,
      )
      | inr (other, more) ↦ (
        waiting ++ (c ∷ []),
        left,
        record { uart = u'; phase = Phase.counting line (i + 1); stdin = cs },
        ground (arith, in_buff, at_c, other),
        counted-Ordered (Phase.counting line (i + 1))
            (omega (arith, at_line), omega (arith, few), more) o,
      )
    ]

fgets-Ordered :
    {input got waiting : List ℕ} (left : List ℕ) (u : Uart) (cs : List ℕ)
    → Ordered input got waiting left (record { uart = u; phase = Phase.reading; stdin = cs })
    → (later left' : List ℕ) × (s' : Console) × (read_stdin
          (record { uart = u; phase = Phase.reading; stdin = cs })
        ≡ ok s')
      × Ordered input got later left' s'
fgets-Ordered (c ∷ left) u cs o = absurd (ground (arith, o.at_phase))
fgets-Ordered {input} {got} {waiting} [] u [] o =
    let (left, s', done, o') = ended-Ordered u o in (waiting, left, s', done, o')
fgets-Ordered {input} {got} {waiting} [] u (c ∷ cs) o =
    let (left, s', done, o') = reading-Ordered u c cs o in (waiting, left, s', done, o')

run_ended :
    (u : Uart) (cs : List ℕ)
    → read_stdin (record { uart = u; phase = Phase.ended; stdin = cs })
      ≡ ok (record { uart = u; phase = Phase.ended; stdin = cs })
unfolding read_stdin
run_ended u cs = refl

-- The thread's step in any phase.
pub read_stdin-Ordered :
    {input got waiting left : List ℕ} (u : Uart) (p : Phase) (cs : List ℕ)
    → Ordered input got waiting left (record { uart = u; phase = p; stdin = cs })
    → (later left' : List ℕ) × (s' : Console) × (read_stdin
          (record { uart = u; phase = p; stdin = cs })
        ≡ ok s')
      × Ordered input got later left' s'
read_stdin-Ordered {input} {got} {waiting} {left} u Phase.reading cs o = fgets-Ordered left u cs o
read_stdin-Ordered {input} {got} {waiting} {left} u (Phase.counting line i) cs o =
    counting-Ordered left u line i cs o
read_stdin-Ordered {input} {got} {waiting} {left} u Phase.ended cs o =
    (waiting, left, record { uart = u; phase = Phase.ended; stdin = cs }, run_ended u cs, o)
