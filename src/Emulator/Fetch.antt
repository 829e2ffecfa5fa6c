-- ===== src/Emulator/Fetch.antt =====
-- `fetch` of src/cpu.cc with translation off, down to the bytes of the emulator's memory.
use aarch64_emu.Base.{ℕ, ◌+◌, ◌*◌, ◌/◌, ◌%◌, ◌^◌, ◌≤◌, ◌<◌, ◌≡◌, ◌≢◌, sym, ◌∙◌, ap, arith}
use aarch64_emu.Base.{some, ok, ne→==, u32}
use aarch64_emu.Base.Masks.{and_one}
use aarch64_emu.Mem
use aarch64_emu.Mem.{Mem, get_ptr, load_wide}
use aarch64_emu.Mem.Bytes.{Holds, peek_bytes_more}
use aarch64_emu.Bus
use aarch64_emu.Bus.{load_ram}
use aarch64_emu.Mmu.{mmu_translate, if_mmu_enabled}
use aarch64_emu.Cpu.{Cpu, fetch}

-- Four bytes as a little-endian word.
abbrev pub le_word : (ℕ → ℕ) → ℕ
le_word b = b 0 + b 1 * 2 ^ 8 + b 2 * 2 ^ 16 + b 3 * 2 ^ 24

-- `n` bytes of the process's memory.
abbrev pub AreBytes : Mem → ℕ → ℕ → (ℕ → ℕ) → Type 0
AreBytes m p n b = (k : ℕ) → k < n → (m.cell (p + k) ≡ some (b k)) × (b k < 256)

cell_at : (m : Mem) {p q v w : ℕ} → p ≡ q → v ≡ w → m.cell p ≡ some v → m.cell q ≡ some w
cell_at m at_q is_w here = ap m.cell (sym at_q) ∙ here ∙ ap some is_w

load32_lem :
    (m : Mem) (addr : ℕ) (b : ℕ → ℕ)
    → get_ptr m addr ≢ 0
    → AreBytes m (get_ptr m addr) 5 b
    → Mem.load32 m addr ≡ ok (le_word b)
unfolding Mem.load32 load_wide
load32_lem m addr b there bytes =
    let p = get_ptr m addr in
    let v = le_word b in
    let nonzero = ne→== _ _ there in
    let b0 = bytes 0 (omega arith) in
    let b1 = bytes 1 (omega arith) in
    let b2 = bytes 2 (omega arith) in
    let b3 = bytes 3 (omega arith) in
    let b4 = bytes 4 (omega arith) in
    let v0 : v % 256 ≡ b 0 = omega (arith, b0.1, b1.1, b2.1, b3.1) in
    let v1 : v / 256 % 256 ≡ b 1 = omega (arith, b0.1, b1.1, b2.1, b3.1) in
    let v2 : v / 256 / 256 % 256 ≡ b 2 = omega (arith, b0.1, b1.1, b2.1, b3.1) in
    let v3 : v / 256 / 256 / 256 % 256 ≡ b 3 = omega (arith, b0.1, b1.1, b2.1, b3.1) in
    let holds : Holds 4 m p v = (
      cell_at m (omega arith) (sym v0) b0.0,
      (
        cell_at m (omega arith) (sym v1) b1.0,
        (cell_at m (omega arith) (sym v2) b2.0, (cell_at m (omega arith) (sym v3) b3.0, tt)),
      ),
    ) in
    let value = peek_bytes_more 4 m p v (b 4) holds b4.0 in
    let word_eq : u32 (v % 256 ^ 4 + b 4 * 256 ^ 4) ≡ v = omega (arith, b0.1, b1.1, b2.1, b3.1) in
    rw nonzero (rw value (ap ok word_eq))

-- With translation off, a fetch from RAM gives the word of the four bytes at the counter, where the
-- process has them and one more.
pub fetch_lem :
    (c : Cpu) (b : ℕ → ℕ)
    → c.mmu.sctlr_el1 % 2 ≡ 0
    → 0x40000000 ≤ c.pc
    → c.pc ≤ 0x80000000
    → get_ptr c.bus.mem c.pc ≢ 0
    → AreBytes c.bus.mem (get_ptr c.bus.mem c.pc) 5 b
    → fetch c ≡ ok (le_word b, c)
unfolding fetch mmu_translate if_mmu_enabled Bus.load load_ram
fetch_lem c b off above below there bytes = ground (
  arith,
  and_one c.mmu.sctlr_el1,
  load32_lem c.bus.mem c.pc b there bytes,
  bytes 0,
  bytes 1,
  bytes 2,
  bytes 3,
)
