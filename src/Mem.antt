-- ===== src/Mem.antt =====
-- src/mem.cc: guest RAM as a window on the emulator's own address space.
-- A cell is a host address; an address that is not mapped has none, and to touch it is undefined.
pub mod Bytes
use aarch64_emu.Base.{ℕ, zero, suc, ◌+◌, ◌*◌, ◌^◌, bit_or, Option, none, some}
use aarch64_emu.Base.{u8, u16, u32, ◌>>>◌, ◌+64◌, ◌-64◌, ◌==◌, if◌then◌else◌, update}
use aarch64_emu.Base.{Outcome, ok, undefined, ◌>>=◌}

pub record Mem : Type 0 where
  pub text_start : ℕ
  pub text_size : ℕ
  pub map_base : ℕ
  pub cell : ℕ → Option ℕ

-- `Mem::init`, over a given host memory.
abbrev pub init : Mem → ℕ → ℕ → ℕ → Mem
init m start size base = record m { text_start = start; text_size = size; map_base = base }

unfoldable pub get_ptr : Mem → ℕ → ℕ
get_ptr m paddr = paddr -64 m.text_start +64 m.map_base

-- One host byte, `*p` and `*p = b`.
unfoldable pub peek : Mem → ℕ → Outcome ℕ
peek m p = elim (m.cell p) [ none ↦ undefined | some b ↦ ok b ]

unfoldable pub poke : Mem → ℕ → ℕ → Outcome Mem
poke m p b = elim (m.cell p) [
  | none ↦ undefined
  | some _ ↦ ok (record m { cell = update m.cell p (some b) })
]

-- p[0] = value, p[1] = value >> 8, and so on for `n` bytes.
unfoldable pub poke_bytes : ℕ → Mem → ℕ → ℕ → Outcome Mem
unfolding poke
poke_bytes zero m p value = ok m
poke_bytes (suc n) m p value = do m' ← poke m p (u8 value); poke_bytes n m' (p + 1) (value >>> 8)

-- p[0] | p[1] << 8 | … over `n` bytes.
unfoldable pub peek_bytes : ℕ → Mem → ℕ → Outcome ℕ
unfolding peek
peek_bytes zero m p = ok 0
peek_bytes (suc n) m p = do
  b ← peek m p
  rest ← peek_bytes n m (p + 1)
  ok (bit_or b (rest * 2 ^ 8))

unfoldable pub store8 : Mem → ℕ → ℕ → Outcome Mem
unfolding poke_bytes get_ptr
store8 m addr value = poke_bytes 1 m (get_ptr m addr) value

-- `store16`, `store32` and `store64` leave the memory alone at a null pointer.
unfoldable pub store_wide : ℕ → Mem → ℕ → ℕ → Outcome Mem
unfolding poke_bytes get_ptr
store_wide n m addr value =
    let p = get_ptr m addr in if p == 0 then ok m else poke_bytes n m p value

unfoldable pub store16 : Mem → ℕ → ℕ → Outcome Mem
unfolding store_wide
store16 m addr value = store_wide 2 m addr (u16 value)

unfoldable pub store32 : Mem → ℕ → ℕ → Outcome Mem
unfolding store_wide
store32 m addr value = store_wide 4 m addr (u32 value)

unfoldable pub store64 : Mem → ℕ → ℕ → Outcome Mem
unfolding store_wide
store64 m addr value = store_wide 8 m addr value

-- A load at a null pointer gives 0.
unfoldable pub load_wide : ℕ → Mem → ℕ → Outcome ℕ
unfolding peek_bytes get_ptr
load_wide n m addr = let p = get_ptr m addr in if p == 0 then ok 0 else peek_bytes n m p

unfoldable pub load8 : Mem → ℕ → Outcome ℕ
unfolding load_wide
load8 m addr = load_wide 1 m addr

unfoldable pub load16 : Mem → ℕ → Outcome ℕ
unfolding load_wide
load16 m addr = load_wide 2 m addr

-- `load32` also reads the fifth byte, which the conversion to `uint32_t` drops.
unfoldable pub load32 : Mem → ℕ → Outcome ℕ
unfolding load_wide
load32 m addr = do value ← load_wide 5 m addr; ok (u32 value)

unfoldable pub load64 : Mem → ℕ → Outcome ℕ
unfolding load_wide
load64 m addr = load_wide 8 m addr
