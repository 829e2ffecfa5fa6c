-- ===== src/Mmu.antt =====
-- src/mmu.cc and src/include/mmu.h: address translation with 4 KiB granules. The tables are read
-- over the bus, so a walk passes the bus on.
pub mod Walk
pub mod Translate
use aarch64_emu.Base.{ℕ, ◌+◌, ◌-◌, ◌*◌, min, bit_and, bit_or}
use aarch64_emu.Base.{Bool}
use aarch64_emu.Base.{◌<<<◌, ◌>>>◌, ◌+64◌}
use aarch64_emu.Base.{leb, ◌==◌, ◌!=◌, if◌then◌else◌}
use aarch64_emu.Base.{Outcome, ok, undefined, ◌>>=◌}
use aarch64_emu.Access.{dword}
use aarch64_emu.Util.{shift, bit}
use aarch64_emu.Bus
use aarch64_emu.Bus.{Bus}

pub record Mmu : Type 0 where
  pub ttbr0_el1 : ℕ
  pub ttbr1_el1 : ℕ
  pub sctlr_el1 : ℕ
  pub tcr_el1 : ℕ

unfoldable pub get_ipa : ℕ → ℕ
get_ipa tcr = bit_and (tcr >>> 32) 0x7

unfoldable pub get_t1sz : ℕ → ℕ
get_t1sz tcr = bit_and (tcr >>> 16) 0x3f

unfoldable pub get_t0sz : ℕ → ℕ
get_t0sz tcr = bit_and tcr 0x3f

unfoldable pub get_max_addrsz : ℕ → ℕ
get_max_addrsz tcr =
    let ipa = get_ipa tcr in
    if ipa == 0
    then 32
    else if ipa == 1
    then 36
    else if ipa == 2
    then 40
    else if ipa == 3
    then 42
    else if ipa == 4
    then 44
    else if ipa == 5
    then 48
    else if ipa == 6
    then 52
    else 0

unfoldable pub if_mmu_enabled : Mmu → Bool
if_mmu_enabled m = bit_and m.sctlr_el1 1 != 0

-- The table entry that a level reads for `addr`: its index starts at place `start`.
unfoldable pub read_entry : Bus → ℕ → ℕ → ℕ → Outcome (ℕ × Bus)
read_entry b addr base start = Bus.load b (base +64 shift addr start (start + 8) * 8) dword

-- What a block or page entry gives: the entry's upper part with the address's lower part.
unfoldable pub block_address : ℕ → ℕ → ℕ → ℕ
block_address entry addr start = bit_or (shift entry start 47 <<< start) (shift addr 0 (start - 1))

-- Every level gives 1 for an invalid entry.
unfoldable pub l3_translate : Bus → ℕ → ℕ → Outcome (ℕ × Bus)
l3_translate b addr base = do
  read ← read_entry b addr base 12
  if bit_and read.0 1 == 0 then ok (1, read.1) else ok (block_address read.0 addr 12, read.1)

unfoldable pub l2_translate : Bus → ℕ → ℕ → Outcome (ℕ × Bus)
l2_translate b addr base = do
  read ← read_entry b addr base 21
  if bit_and read.0 1 == 0
      then ok (1, read.1)
      else if bit_and read.0 2 != 0
      then l3_translate read.1 addr (shift read.0 12 47 <<< 12)
      else ok (block_address read.0 addr 21, read.1)

unfoldable pub l1_translate : Bus → ℕ → ℕ → Outcome (ℕ × Bus)
l1_translate b addr base = do
  read ← read_entry b addr base 30
  if bit_and read.0 1 == 0
      then ok (1, read.1)
      else if bit_and read.0 2 != 0
      then l2_translate read.1 addr (shift read.0 12 47 <<< 12)
      else ok (block_address read.0 addr 30, read.1)

-- The next table's address is cut to place 27 here, and only here.
unfoldable pub l0_translate : Bus → ℕ → ℕ → Outcome (ℕ × Bus)
l0_translate b addr base = do
  read ← read_entry b addr base 39
  if bit_and read.0 1 == 0
      then ok (1, read.1)
      else l1_translate read.1 addr (shift read.0 12 27 <<< 12)

-- The width of the addresses: the region's by its TnSZ, at most the physical maximum.
unfoldable pub addr_sz : Mmu → ℕ → ℕ
addr_sz m addr =
    min (if bit addr 63 != 0 then 64 - get_t1sz m.tcr_el1 else 64 - get_t0sz m.tcr_el1)
      (get_max_addrsz m.tcr_el1)

-- With a width below 12 no level is walked, and the result is read uninitialised.
unfoldable pub mmu_translate : Mmu → Bus → ℕ → Outcome (ℕ × Bus)
mmu_translate m b addr =
    let ttbrn = if bit addr 63 != 0 then m.ttbr1_el1 else m.ttbr0_el1 in
    let size = addr_sz m addr in
    if if_mmu_enabled m
    then if leb 39 size
      then l0_translate b addr ttbrn
      else if leb 30 size
      then l1_translate b addr ttbrn
      else if leb 21 size
      then l2_translate b addr ttbrn
      else if leb 12 size
      then l3_translate b addr ttbrn
      else undefined
    else ok (addr, b)
