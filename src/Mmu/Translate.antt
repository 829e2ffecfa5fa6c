-- ===== src/Mmu/Translate.antt =====
-- `mmu_translate` of src/mmu.cc: the choice of the table and the level, and what holds of every
-- result.
use aarch64_emu.Base.{ℕ, ◌-◌, ◌^◌, ◌/◌, ◌%◌, ◌≤◌, ◌<◌, ◌≡◌, arith, ◌∙◌, min}
use aarch64_emu.Base.{leb, ◌!=◌, if◌then◌else◌, ◌<<<◌, ◌⊎◌, ok, >>=-eq-ok}
use aarch64_emu.Base.Masks.{and_one, and_mask}
use aarch64_emu.Util.{shift, bit}
use aarch64_emu.Util.Fields.{bit-eq}
use aarch64_emu.Bus.{Bus}
use aarch64_emu.Mmu.{Mmu, read_entry, l0_translate, l1_translate, l2_translate, l3_translate}
use aarch64_emu.Mmu.{mmu_translate, addr_sz, if_mmu_enabled, get_t0sz, get_t1sz, get_max_addrsz}
use aarch64_emu.Mmu.Walk.{
  Level, l1, l2, l3, Translates, translate, translate-Translates, block_address-eq,
}

-- The level that a width of addresses starts at.
abbrev pub StartsAt : Level → ℕ → Type 0
StartsAt l1 size = (30 ≤ size) × (size < 39)
StartsAt l2 size = (21 ≤ size) × (size < 30)
StartsAt l3 size = (12 ≤ size) × (size < 21)

-- The table register of an address, by its top bit.
abbrev pub table_base : Mmu → ℕ → ℕ
table_base m addr = if leb (2 ^ 63) addr then m.ttbr1_el1 else m.ttbr0_el1

starts :
    (m : Mmu) (b : Bus) (addr : ℕ) (l : Level)
    → addr < 2 ^ 64
    → m.sctlr_el1 % 2 ≡ 1
    → StartsAt l (addr_sz m addr)
    → mmu_translate m b addr ≡ translate l b addr (table_base m addr)
unfolding mmu_translate if_mmu_enabled translate
starts m b addr l1 h on width = ground (arith, and_one m.sctlr_el1, bit-eq addr 63)
starts m b addr l2 h on width = ground (arith, and_one m.sctlr_el1, bit-eq addr 63)
starts m b addr l3 h on width = ground (arith, and_one m.sctlr_el1, bit-eq addr 63)

-- With translation on, a 64-bit address whose width starts at level 1, 2 or 3 is translated as the tables
-- from TTBR0_EL1 or TTBR1_EL1, chosen by its top bit, say; assertions do nothing, so that a valid
-- entry of the last level is a page whether its bit 1 is set or not.
pub mmu_translate-Translates :
    (m : Mmu) (b : Bus) (addr : ℕ) (l : Level) {result : ℕ}
    → addr < 2 ^ 64
    → m.sctlr_el1 % 2 ≡ 1
    → StartsAt l (addr_sz m addr)
    → Translates b addr l (table_base m addr) result
    → mmu_translate m b addr ≡ ok (result, b)
mmu_translate-Translates m b addr l h on width t =
    starts m b addr l h on width ∙ translate-Translates t

-- The width is that of TnSZ, at most the physical maximum that IPS names.
pub addr_sz-eq :
    (m : Mmu) (addr : ℕ)
    → addr < 2 ^ 64
    → addr_sz m addr
      ≡ min
          (64 - m.tcr_el1 / (if leb (2 ^ 63) addr then 2 ^ 16 else 1) % 64)
          (get_max_addrsz m.tcr_el1)
unfolding addr_sz get_t0sz get_t1sz
addr_sz-eq m addr h =
    ground (arith, bit-eq addr 63, and_mask 6 m.tcr_el1, and_mask 6 (m.tcr_el1 / 2 ^ 16))

-- A translated address is the marker 1 of a fault, or keeps the offset in its page.
abbrev KeepsOffset : ℕ → ℕ → Type 0
KeepsOffset addr p = (p ≡ 1) ⊎ (p % 2 ^ 12 ≡ addr % 2 ^ 12)

module _ (addr : ℕ) {p : ℕ} {b' : Bus} where
  l3-KeepsOffset : (base : ℕ) (b : Bus) → l3_translate b addr base ≡ ok (p, b') → KeepsOffset addr p
  unfolding l3_translate
  l3-KeepsOffset base b h =
      let (read, _, rest) = >>=-eq-ok (read_entry b addr base 12) _ h in
      ground (arith, rest, block_address-eq l3 read.0 addr)

  l2-KeepsOffset : (base : ℕ) (b : Bus) → l2_translate b addr base ≡ ok (p, b') → KeepsOffset addr p
  unfolding l2_translate
  l2-KeepsOffset base b h =
      let (read, _, rest) = >>=-eq-ok (read_entry b addr base 21) _ h in
      ground (
        arith,
        rest,
        block_address-eq l2 read.0 addr,
        l3-KeepsOffset (shift read.0 12 47 <<< 12) read.1,
      )

  l1-KeepsOffset : (base : ℕ) (b : Bus) → l1_translate b addr base ≡ ok (p, b') → KeepsOffset addr p
  unfolding l1_translate
  l1-KeepsOffset base b h =
      let (read, _, rest) = >>=-eq-ok (read_entry b addr base 30) _ h in
      ground (
        arith,
        rest,
        block_address-eq l1 read.0 addr,
        l2-KeepsOffset (shift read.0 12 47 <<< 12) read.1,
      )

  l0-KeepsOffset : (base : ℕ) (b : Bus) → l0_translate b addr base ≡ ok (p, b') → KeepsOffset addr p
  unfolding l0_translate
  l0-KeepsOffset base b h =
      let (read, _, rest) = >>=-eq-ok (read_entry b addr base 39) _ h in
      ground (arith, rest, l1-KeepsOffset (shift read.0 12 27 <<< 12) read.1)

-- Whatever the tables and the settings, a translation that returns gives the address itself, or the
-- marker 1 of an invalid entry, or an address with the same offset in its page of 4096 bytes.
pub mmu_translate-KeepsOffset :
    (m : Mmu) (b b' : Bus) (addr p : ℕ)
    → mmu_translate m b addr ≡ ok (p, b')
    → (p ≡ 1) ⊎ (p % 2 ^ 12 ≡ addr % 2 ^ 12)
unfolding mmu_translate
mmu_translate-KeepsOffset m b b' addr p h =
    let base : ℕ = if bit addr 63 != 0 then m.ttbr1_el1 else m.ttbr0_el1 in
    ground (
      arith,
      l0-KeepsOffset addr {p = p} {b' = b'} base b,
      l1-KeepsOffset addr {p = p} {b' = b'} base b,
      l2-KeepsOffset addr {p = p} {b' = b'} base b,
      l3-KeepsOffset addr {p = p} {b' = b'} base b,
    )
