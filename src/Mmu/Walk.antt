-- ===== src/Mmu/Walk.antt =====
-- Table walks of src/mmu.cc against the tables' meaning.
use aarch64_emu.Base.{ℕ, ◌+◌, ◌*◌, ◌^◌, ◌/◌, ◌%◌, ◌≡◌, arith}
use aarch64_emu.Base.{◌+64◌, Outcome, ok}
use aarch64_emu.Base.Masks.{and_one, and_place, or_above}
use aarch64_emu.Access.{dword}
use aarch64_emu.Util.{shift}
use aarch64_emu.Util.Fields.{shift-eq}
use aarch64_emu.Bus
use aarch64_emu.Bus.{Bus}
use aarch64_emu.Mmu.{read_entry, block_address, l1_translate, l2_translate, l3_translate}

-- The levels that the emulator's kernel walks, with the lowest place of their index.
pub data Level : Type 0 where
  l1 l2 l3 : Level

abbrev pub start : Level → ℕ
start l1 = 30
start l2 = 21
start l3 = 12

unfoldable pub translate : Level → Bus → ℕ → ℕ → Outcome (ℕ × Bus)
translate l1 = l1_translate
translate l2 = l2_translate
translate l3 = l3_translate

-- The address that a block or page entry stands for.
abbrev pub mapped_address : Level → ℕ → ℕ → ℕ
mapped_address l entry addr = entry % 2 ^ 48 / 2 ^ start l * 2 ^ start l + addr % 2 ^ start l

-- Where the table at `base` has the entry for `addr`.
abbrev pub entry_address : Level → ℕ → ℕ → ℕ
entry_address l addr base = base +64 addr % 2 ^ (start l + 9) / 2 ^ start l * 8

-- A table entry that the bus reads, without an effect.
abbrev pub HasEntry : Bus → Level → ℕ → ℕ → ℕ → Type 0
HasEntry b l addr base entry = Bus.load b (entry_address l addr base) dword ≡ ok (entry, b)

-- The meaning of tables: which address the level's table at `base` gives for `addr`. Bit 0 of an
-- entry is "valid" and bit 1 tells a table from a block.
pub data Translates (b : Bus) (addr : ℕ) : Level → ℕ → ℕ → Type 0 where
  block :
      {l : Level} {base : ℕ} (entry : ℕ)
      → HasEntry b l addr base entry
      → entry % 4 ≡ 1
      → Translates b addr l base (mapped_address l entry addr)
  page :
      {base : ℕ} (entry : ℕ)
      → HasEntry b l3 addr base entry
      → entry % 2 ≡ 1
      → Translates b addr l3 base (mapped_address l3 entry addr)
  table1 :
      {base result : ℕ} (entry : ℕ)
      → HasEntry b l1 addr base entry
      → entry % 4 ≡ 3
      → Translates b addr l2 (entry % 2 ^ 48 / 2 ^ 12 * 2 ^ 12) result
      → Translates b addr l1 base result
  table2 :
      {base result : ℕ} (entry : ℕ)
      → HasEntry b l2 addr base entry
      → entry % 4 ≡ 3
      → Translates b addr l3 (entry % 2 ^ 48 / 2 ^ 12 * 2 ^ 12) result
      → Translates b addr l2 base result

pub block_address-eq :
    (l : Level) (entry addr : ℕ) → block_address entry addr (start l) ≡ mapped_address l entry addr
unfolding block_address
block_address-eq l1 entry addr = ground (
  arith,
  shift-eq entry 30 47,
  shift-eq addr 0 29,
  or_above 30 (shift entry 30 47) (shift addr 0 29),
)
block_address-eq l2 entry addr = ground (
  arith,
  shift-eq entry 21 47,
  shift-eq addr 0 20,
  or_above 21 (shift entry 21 47) (shift addr 0 20),
)
block_address-eq l3 entry addr = ground (
  arith,
  shift-eq entry 12 47,
  shift-eq addr 0 11,
  or_above 12 (shift entry 12 47) (shift addr 0 11),
)

-- The tests on an entry, and the address of the next table, as arithmetic.
next_table : (entry : ℕ) → shift entry 12 47 * 2 ^ 12 % 2 ^ 64 ≡ entry % 2 ^ 48 / 2 ^ 12 * 2 ^ 12
next_table entry = omega (arith, shift-eq entry 12 47 (omega arith))

read_entry-HasEntry :
    (b : Bus) (l : Level) (addr base entry : ℕ)
    → HasEntry b l addr base entry
    → read_entry b addr base (start l) ≡ ok (entry, b)
unfolding read_entry
read_entry-HasEntry b l1 addr base entry h = rw (shift-eq addr 30 38 (omega arith)) h
read_entry-HasEntry b l2 addr base entry h = rw (shift-eq addr 21 29 (omega arith)) h
read_entry-HasEntry b l3 addr base entry h = rw (shift-eq addr 12 20 (omega arith)) h

-- The walk from any level finds the address that the tables give, and leaves the bus as it was.
pub translate-Translates :
    {b : Bus} {addr : ℕ} {l : Level} {base result : ℕ}
    → Translates b addr l base result
    → translate l b addr base ≡ ok (result, b)
unfolding translate l1_translate l2_translate l3_translate
translate-Translates {b} {addr} {base = base} (block {l = l1} entry h k) = ground (
  arith,
  read_entry-HasEntry b l1 addr base entry h,
  and_one entry,
  and_place 1 entry,
  block_address-eq l1 entry addr,
)
translate-Translates {b} {addr} {base = base} (block {l = l2} entry h k) = ground (
  arith,
  read_entry-HasEntry b l2 addr base entry h,
  and_one entry,
  and_place 1 entry,
  block_address-eq l2 entry addr,
)
translate-Translates {b} {addr} {base = base} (block {l = l3} entry h k) = ground (
  arith,
  read_entry-HasEntry b l3 addr base entry h,
  and_one entry,
  block_address-eq l3 entry addr,
)
translate-Translates {b} {addr} {base = base} (page entry h k) = ground (
  arith,
  read_entry-HasEntry b l3 addr base entry h,
  and_one entry,
  block_address-eq l3 entry addr,
)
translate-Translates {b} {addr} {base = base} (table1 entry h k rest) = ground (
  arith,
  read_entry-HasEntry b l1 addr base entry h,
  and_one entry,
  and_place 1 entry,
  next_table entry,
  translate-Translates rest,
)
translate-Translates {b} {addr} {base = base} (table2 entry h k rest) = ground (
  arith,
  read_entry-HasEntry b l2 addr base entry h,
  and_one entry,
  and_place 1 entry,
  next_table entry,
  translate-Translates rest,
)
