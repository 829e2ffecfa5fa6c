-- ===== src/Mem/Bytes.antt =====
-- The bytes of an access to guest RAM: what a store leaves in the host's cells and what a load
-- makes of them.
use aarch64_emu.Base.{ℕ, zero, suc, ◌+◌, ◌*◌, ◌^◌, ◌/◌, ◌%◌, ◌≤◌, ◌<◌, ◌≡◌, refl, arith, ap, ◌∙◌}
use aarch64_emu.Base.{◌⊎◌, inl, inr, some, ◌==◌, Bool-cases, update, u8, bit_or}
use aarch64_emu.Base.{ok, sym}
use aarch64_emu.Base.Masks.{or_below}
use aarch64_emu.Base.Bits.{or-zero}
use native.Mathlib.Nat.{
  pow-suc, one-le-pow, mod-lt, div-add-mod', mul-add-mod_self_right, mod-eq_of_lt,
}
use aarch64_emu.Mem.{Mem, peek, poke, peek_bytes, poke_bytes}

-- The host has a byte at the address, or at each of `n` addresses from `p` on.
abbrev pub HasCell : Mem → ℕ → Type 0
HasCell m q = (b : ℕ) × (m.cell q ≡ some b)

abbrev pub IsMapped : ℕ → Mem → ℕ → Type 0
IsMapped n m p = (i : ℕ) → i < n → HasCell m (p + i)

-- The cells from `p` on hold the `n` low bytes of a value, lowest first.
abbrev pub Holds : ℕ → Mem → ℕ → ℕ → Type 0
Holds zero m p value = Unit {0}
Holds (suc n) m p value = (m.cell p ≡ some (value % 256)) × Holds n m (p + 1) (value / 256)

-- Two memories differ at most in the `n` cells from `p` on.
pub record IsWrite (n : ℕ) (m : Mem) (p : ℕ) (m' : Mem) : Type 0 where
  pub same_start : m'.text_start ≡ m.text_start
  pub same_size : m'.text_size ≡ m.text_size
  pub same_base : m'.map_base ≡ m.map_base
  pub elsewhere : (q : ℕ) → (q < p) ⊎ (p + n ≤ q) → m'.cell q ≡ m.cell q
  pub mapped : (q : ℕ) → HasCell m q → HasCell m' q

-- What `poke` makes of the memory.
abbrev poked : Mem → ℕ → ℕ → Mem
poked m p b = record m { cell = update m.cell p (some b) }

poke_lem : (m : Mem) (p b : ℕ) → HasCell m p → poke m p b ≡ ok (poked m p b)
unfolding poke
poke_lem m p b h = rw (h.1, poke) refl

poked-HasCell : (m : Mem) (p b q : ℕ) → HasCell m q → HasCell (poked m p b) q
poked-HasCell m p b q h = elim (Bool-cases (p == q)) [
  | inl same ↦ (b, rw same refl)
  | inr other ↦ (h.0, rw other h.1)
]

poked-IsMapped :
    (n : ℕ) (m : Mem) (p b : ℕ) → IsMapped (suc n) m p → IsMapped n (poked m p b) (p + 1)
poked-IsMapped n m p b h i lt =
    let e : p + suc i ≡ p + 1 + i = omega arith in
    poked-HasCell m p b (p + 1 + i) (rw e at (h (suc i) (omega arith)))

-- A store of `n` bytes writes just those.
pub poke_bytes_lem :
    (n : ℕ) (m : Mem) (p value : ℕ)
    → IsMapped n m p
    → (m' : Mem) × (poke_bytes n m p value ≡ ok m') × Holds n m' p value × IsWrite n m p m'
unfolding poke_bytes
poke_bytes_lem zero m p value h = (
  m,
  refl,
  tt,
  record {
    same_start = refl;
    same_size = refl;
    same_base = refl;
    elsewhere = λ q _. refl;
    mapped = λ q c. c;
  },
)
poke_bytes_lem (suc n) m p value h =
    let e : p + 0 ≡ p = omega arith in
    let first = poke_lem m p (u8 value) (rw e at (h 0 (omega arith))) in
    let (m', returns, holds, write) =
      poke_bytes_lem n (poked m p (u8 value)) (p + 1) (value / 2 ^ 8)
        (poked-IsMapped n m p (u8 value) h) in
    (
      m',
      rw first returns,
      (ground (arith, write.elsewhere p), holds),
      record {
        same_start = write.same_start;
        same_size = write.same_size;
        same_base = write.same_base;
        elsewhere = λ q o. ground (arith, write.elsewhere q);
        mapped = λ q c. write.mapped q (poked-HasCell m p (u8 value) q c);
      },
    )

-- The remainder by a product, digit by digit.
mod_digit : (v k : ℕ) → v % (256 ^ k * 256) ≡ v / 256 % 256 ^ k * 256 + v % 256
mod_digit v k =
    let w = 256 ^ k in
    let q = v / 256 in
    let split : v ≡ q / w * (w * 256) + (q % w * 256 + v % 256) =
      omega (arith, ap (λ (t : ℕ). t * 256) (div-add-mod' q w)) in
    let small : q % w * 256 + v % 256 < w * 256 =
      omega (arith, mod-lt q (one-le-pow k 256 (omega arith))) in
    ap (λ (t : ℕ). t % (w * 256)) split
    ∙ mul-add-mod_self_right (q / w) (w * 256) (q % w * 256 + v % 256)
    ∙ mod-eq_of_lt small

-- The lowest byte of a value beside the rest of its `n + 1` bytes.
or_digits :
    (value n : ℕ) → bit_or (value % 256) (value / 256 % 256 ^ n * 2 ^ 8) ≡ value % 256 ^ suc n
or_digits value n =
    or_below 8 (value / 256 % 256 ^ n) (value % 256) (omega arith)
    ∙ sym (mod_digit value n)
    ∙ sym (ap (λ (t : ℕ). value % t) (pow-suc 256 n))

-- A load of the bytes that a store left gives the value, cut to their width.
pub peek_bytes_lem :
    (n : ℕ) (m : Mem) (p value : ℕ) → Holds n m p value → peek_bytes n m p ≡ ok (value % 256 ^ n)
unfolding peek_bytes
peek_bytes_lem zero m p value h = ap ok (omega arith)
peek_bytes_lem (suc n) m p value h =
    rw (h.0, peek) (rw (peek_bytes_lem n m (p + 1) (value / 256) h.1) (ap ok (or_digits value n)))

or_digits_more :
    (value b n : ℕ)
    → bit_or (value % 256) ((value / 256 % 256 ^ n + b * 256 ^ n) * 2 ^ 8)
      ≡ value % 256 ^ suc n + b * 256 ^ suc n
or_digits_more value b n =
    let low : value % 256 ^ suc n ≡ value / 256 % 256 ^ n * 256 + value % 256 =
      ap (λ (t : ℕ). value % t) (pow-suc 256 n) ∙ mod_digit value n in
    omega (
      arith,
      low,
      or_below 8 (value / 256 % 256 ^ n + b * 256 ^ n) (value % 256) (omega arith),
      ap (λ (t : ℕ). b * t) (pow-suc 256 n),
    )

-- A load of one byte more has it on top.
pub peek_bytes_more :
    (n : ℕ) (m : Mem) (p value b : ℕ)
    → Holds n m p value
    → m.cell (p + n) ≡ some b
    → peek_bytes (suc n) m p ≡ ok (value % 256 ^ n + b * 256 ^ n)
unfolding peek_bytes peek
peek_bytes_more zero m p value b h top =
    let e : p + 0 ≡ p = omega arith in rw (rw e at top, peek) (ap ok (omega (arith, or-zero b)))
peek_bytes_more (suc n) m p value b h top =
    let e : p + suc n ≡ p + 1 + n = omega arith in
    rw (h.0, peek)
      (rw (peek_bytes_more n m (p + 1) (value / 256) b h.1 (rw e at top))
        (ap ok (or_digits_more value b n)))
