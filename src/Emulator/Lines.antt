-- ===== src/Emulator/Lines.antt =====
-- What one `fgets` of the input thread of src/emulator.cc takes and writes.
use aarch64_emu.Base.{ℕ, zero, suc, ◌+◌, ◌≤◌, ◌<◌, ◌≡◌, ◌≢◌, refl, ap, arith, ◌⊎◌, inl, inr}
use aarch64_emu.Base.{Bool, true, false, List, [], ◌∷◌, ◌++◌, ◌==◌, if◌then◌else◌, update}
use aarch64_emu.Base.{ok, Bool-cases}
use aarch64_emu.Base.Lists.{length, Reads}
use aarch64_emu.Uart.{Uart}
use aarch64_emu.Emulator.Input.{newline, take_line, put_char, put_line}

-- Lines of at most nine characters each with its newline, with room for `n` more in the current one.
abbrev pub short_lines : ℕ → List ℕ → Bool
short_lines n [] = n == 9
short_lines zero (c ∷ cs) = false
short_lines (suc n) (c ∷ cs) =
    let next = short_lines 9 cs in
    let same = short_lines n cs in if c == newline then next else same

-- One line, with the newline at its end.
abbrev pub IsLine : List ℕ → Type 0
IsLine [] = false ≡ true
IsLine (c ∷ cs) = ((c ≡ newline) × (cs ≡ [])) ⊎ ((c ≢ newline) × IsLine cs)

-- `take_line` of short lines is the first of them.
pub record IsFirst (n : ℕ) (cs line rest : List ℕ) : Type 0 where
  pub whole : line ++ rest ≡ cs
  pub one : IsLine line
  pub fits : length line ≤ n
  pub others : short_lines 9 rest ≡ true

IsFirst-last :
    (n c : ℕ) (cs : List ℕ)
    → c ≡ newline
    → short_lines (suc n) (c ∷ cs) ≡ true
    → IsFirst (suc n) (c ∷ cs) (c ∷ []) cs
IsFirst-last n c cs last short = record {
  whole = refl;
  one = inl (last, refl);
  fits = omega arith;
  others = ground (arith, last, short);
}

IsFirst-more :
    (n c : ℕ) {cs line rest : List ℕ}
    → c ≢ newline
    → IsFirst n cs line rest
    → IsFirst (suc n) (c ∷ cs) (c ∷ line) rest
IsFirst-more n c more f = record {
  whole = ap (λ (t : List ℕ). c ∷ t) f.whole;
  one = inr (more, f.one);
  fits = omega (arith, f.fits);
  others = f.others;
}

abbrev pub IsFirstLine : ℕ → List ℕ → Type 0
IsFirstLine n cs = IsFirst n cs (take_line n cs).0 (take_line n cs).1

IsFirst-step :
    (n c : ℕ) (cs : List ℕ)
    → short_lines (suc n) (c ∷ cs) ≡ true
    → (short_lines n cs ≡ true → IsFirstLine n cs)
    → IsFirstLine (suc n) (c ∷ cs)
IsFirst-step n c cs short rest = elim (Bool-cases (c == newline)) [
  | inl last ↦ rw last (IsFirst-last n c cs (ground arith) short)
  | inr more ↦ rw more (IsFirst-more n c (ground arith) (rest (rw more at short)))
]

-- In the middle of a line.
take_line_more : (n : ℕ) (cs : List ℕ) → n ≤ 8 → short_lines n cs ≡ true → IsFirstLine n cs
take_line_more n [] le short = absurd (ground arith)
take_line_more zero (c ∷ cs) le short = absurd (ground arith)
take_line_more (suc n) (c ∷ cs) le short =
    IsFirst-step n c cs short (take_line_more n cs (omega arith))

pub take_line_lem : (c : ℕ) (cs : List ℕ) → short_lines 9 (c ∷ cs) ≡ true → IsFirstLine 9 (c ∷ cs)
take_line_lem c cs short = IsFirst-step 8 c cs short (take_line_more 8 cs (omega arith))

-- The buffer after `put_line`.
abbrev pub written : ℕ → List ℕ → (ℕ → ℕ) → ℕ → ℕ
written pos [] f = update f pos 0
written pos (c ∷ cs) f = written (pos + 1) cs (update f pos c)

pub put_line_lem :
    (pos : ℕ) (cs : List ℕ) (u : Uart)
    → pos + length cs < 64
    → put_line pos cs u ≡ ok (record u { uart_rx_buff = written pos cs u.uart_rx_buff })
unfolding put_line put_char
put_line_lem pos [] u lt = ground arith
put_line_lem pos (c ∷ cs) u lt =
    let rest =
      put_line_lem (pos + 1) cs (record u { uart_rx_buff = update u.uart_rx_buff pos c })
        (omega arith) in
    ground (arith, rest)

pub written-before :
    (pos : ℕ) (cs : List ℕ) (f : ℕ → ℕ) (q : ℕ) → q < pos → written pos cs f q ≡ f q
written-before pos [] f q lt = ground arith
written-before pos (c ∷ cs) f q lt =
    let rest = written-before (pos + 1) cs (update f pos c) q (omega arith) in ground (arith, rest)

pub written-Reads : (pos : ℕ) (cs : List ℕ) (f : ℕ → ℕ) → Reads (written pos cs f) pos cs
written-Reads pos [] f = tt
written-Reads pos (c ∷ cs) f =
    let here = written-before (pos + 1) cs (update f pos c) pos (omega arith) in
    (ground (arith, here), written-Reads (pos + 1) cs (update f pos c))
