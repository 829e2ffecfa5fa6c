-- ===== src/Tests/Translation.antt =====
-- Tests and witnesses for the table walks, memory and the bus.
use aarch64_emu.Base.{ℕ, ◌^◌, ◌%◌, arith, refl, ◌≡◌, ◌⊎◌, ok}
use aarch64_emu.Access.{word, width}
use aarch64_emu.Mem.{Mem, get_ptr, peek, peek_bytes, load_wide, load64}
use aarch64_emu.Util.{bit, shift}
use aarch64_emu.Mem.Bytes.{IsWrite}
use aarch64_emu.Bus
use aarch64_emu.Bus.{Bus, load_ram}
use aarch64_emu.Bus.RoundTrip.{ram_load-store, IsBacked}
use aarch64_emu.Mmu.{
  mmu_translate, l1_translate, l2_translate, l3_translate, block_address, if_mmu_enabled,
  read_entry, addr_sz, get_t0sz, get_max_addrsz, get_ipa,
}
use aarch64_emu.Mmu.Walk.{l1, Translates, table1, table2, page}
use aarch64_emu.Mmu.Translate.{mmu_translate-Translates, mmu_translate-KeepsOffset}
use aarch64_emu.Tests.Machine.{small_bus, small_mmu, small_mem}

small_walk : Translates small_bus 0x1234 l1 0x40000000 0x40005234
unfolding Bus.load load_ram load64 load_wide peek_bytes peek get_ptr
small_walk = table1 0x40001003 refl refl (table2 0x40002003 refl refl (page 0x40005003 refl refl))

starts_at_1 : addr_sz small_mmu 0x1234 ≡ 32
unfolding addr_sz bit get_t0sz get_max_addrsz get_ipa
starts_at_1 = refl

mmu_translate-Translates_example :
    mmu_translate small_mmu small_bus 0x1234 ≡ ok (0x40005234, small_bus)
unfolding addr_sz bit get_t0sz get_max_addrsz get_ipa
mmu_translate-Translates_example =
    mmu_translate-Translates small_mmu small_bus 0x1234 l1 (omega arith) refl
      (omega arith, omega arith) small_walk

small_translation : mmu_translate small_mmu small_bus 0x1234 ≡ ok (0x40005234, small_bus)
unfolding mmu_translate if_mmu_enabled addr_sz bit get_t0sz get_max_addrsz get_ipa l1_translate
    l2_translate l3_translate read_entry block_address shift Bus.load load_ram load64 load_wide
    peek_bytes peek get_ptr
small_translation = refl

abbrev mapped : ℕ
mapped = 0x40005234

mmu_translate-KeepsOffset_example : (mapped ≡ 1) ⊎ (mapped % 2 ^ 12 ≡ 0x1234 % 2 ^ 12)
mmu_translate-KeepsOffset_example =
    mmu_translate-KeepsOffset small_mmu small_bus small_bus 0x1234 0x40005234 small_translation

small-IsBacked : IsBacked small_mem 0x40000010 word
unfolding get_ptr
small-IsBacked = record { not_null = λ e. omega arith; cells = λ i h. (0, ground arith) }

ram_load-store_example :
    (m' : Mem) × (Bus.store small_bus 0x40000010 0x123456789 word
      ≡ ok (record small_bus { mem = m' }))
    × (Bus.load (record small_bus { mem = m' }) 0x40000010 word
        ≡ ok (0x123456789 % 256 ^ width word, record small_bus { mem = m' }))
    × IsWrite (width word) small_mem (get_ptr small_mem 0x40000010) m'
ram_load-store_example =
    ram_load-store small_bus 0x40000010 0x123456789 word (omega arith, omega arith) small-IsBacked
