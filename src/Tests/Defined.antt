-- ===== src/Tests/Defined.antt =====
-- A machine with host memory everywhere and a queue, no access to which is undefined.
use aarch64_emu.Base.{ℕ, zero, suc, ◌+◌, ◌*◌, ◌^◌, bit_or, ◌≡◌, ◌≢◌, refl, arith, some, update, u8}
use aarch64_emu.Base.{ok, undefined, ◌>>>◌, ◌==◌, inl, inr, Bool-cases, u16, u32}
use aarch64_emu.Access.{MemAccessSize, byte, hex, word, dword}
use aarch64_emu.Mem.{
  Mem, get_ptr, peek, poke, peek_bytes, poke_bytes, load_wide, store_wide, load8, load16, load32,
  load64, store8, store16, store32, store64,
}
use aarch64_emu.Virtio
use aarch64_emu.Virtio.{Virtqueue, refresh, set_status}
use aarch64_emu.Bus
use aarch64_emu.Bus.{Bus, load_ram, store_ram}
use aarch64_emu.Mmu.{mmu_translate, if_mmu_enabled}
use aarch64_emu.Cpu.{Cpu, load, store}
use aarch64_emu.Cpu.LoadStore.{decode_ldst_register}
use aarch64_emu.Cpu.LoadStore.Forms.{IsDefined, decode_ldst_register-defined}
use aarch64_emu.Tests.Machine.{small_mem, small_bus, small_virtio, small_cpu}

-- Every host address is mapped.
abbrev IsTotal : Mem → Type 0
IsTotal m = (p : ℕ) → (b : ℕ) × (m.cell p ≡ some b)

peek_bytes-total : (n : ℕ) (m : Mem) (p : ℕ) → IsTotal m → (v : ℕ) × (peek_bytes n m p ≡ ok v)
unfolding peek_bytes peek
peek_bytes-total zero m p total = (0, refl)
peek_bytes-total (suc n) m p total =
    let (b, here) = total p in
    let (v, rest) = peek_bytes-total n m (p + 1) total in
    (bit_or b (v * 2 ^ 8), ground (arith, here, rest))

update-IsTotal :
    (m : Mem) (p b : ℕ) → IsTotal m → IsTotal (record m { cell = update m.cell p (some b) })
update-IsTotal m p b total q = elim (Bool-cases (q == p)) [
  | inl same ↦ (b, ground arith)
  | inr other ↦ let (v, there) = total q in (v, ground (arith, there))
]

poke_bytes-total :
    (n : ℕ) (m : Mem) (p v : ℕ) → IsTotal m → (m' : Mem) × (poke_bytes n m p v ≡ ok m')
unfolding poke_bytes poke
poke_bytes-total zero m p v total = (m, refl)
poke_bytes-total (suc n) m p v total =
    let (b, here) = total p in
    let (m', rest) =
      poke_bytes-total n (record m { cell = update m.cell p (some (u8 v)) }) (p + 1) (v >>> 8)
        (update-IsTotal m p (u8 v) total) in
    (m', ground (arith, here, rest))

load_wide-defined : (n : ℕ) (m : Mem) (a : ℕ) → IsTotal m → load_wide n m a ≢ undefined
unfolding load_wide
load_wide-defined n m a total h =
    let (v, e) = peek_bytes-total n m (get_ptr m a) total in ground (arith, e)

store_wide-defined : (n : ℕ) (m : Mem) (a v : ℕ) → IsTotal m → store_wide n m a v ≢ undefined
unfolding store_wide
store_wide-defined n m a v total h =
    let (m', e) = poke_bytes-total n m (get_ptr m a) v total in ground (arith, e)

load_ram-defined : (m : Mem) (a : ℕ) (s : MemAccessSize) → IsTotal m → load_ram m a s ≢ undefined
unfolding load_ram load8 load16 load32 load64
load_ram-defined m a byte total h = load_wide-defined 1 m a total h
load_ram-defined m a hex total h = load_wide-defined 2 m a total h
load_ram-defined m a word total h = ground (arith, load_wide-defined 5 m a total)
load_ram-defined m a dword total h = load_wide-defined 8 m a total h

store_ram-defined :
    (m : Mem) (a v : ℕ) (s : MemAccessSize) → IsTotal m → store_ram m a v s ≢ undefined
unfolding store_ram store8 store16 store32 store64
store_ram-defined m a v byte total h =
    let (m', e) = poke_bytes-total 1 m (get_ptr m a) (u8 v) total in ground (arith, e)
store_ram-defined m a v hex total h = store_wide-defined 2 m a (u16 v) total h
store_ram-defined m a v word total h = store_wide-defined 4 m a (u32 v) total h
store_ram-defined m a v dword total h = store_wide-defined 8 m a v total h

abbrev empty_queue : Virtqueue
empty_queue = record { desc_table = 0; avail_ring = 0; avail_idx = 0; used_ring = 0 }

abbrev total_mem : Mem
total_mem = record small_mem { cell = λ _. some 0 }

abbrev total_bus : Bus
total_bus = record small_bus {
  mem = total_mem;
  virtio = record small_virtio { virtqueue = some empty_queue };
}

-- Translation is off.
abbrev total_cpu : Cpu
total_cpu = record small_cpu { bus = total_bus }

virtio_load-defined : (a : ℕ) → Virtio.load total_bus.virtio a ≢ undefined
unfolding Virtio.load
virtio_load-defined a h = ground arith

virtio_store-defined : (a v : ℕ) → Virtio.store total_bus.virtio a v ≢ undefined
unfolding Virtio.store refresh set_status
virtio_store-defined a v h = ground arith

bus_load-defined : (a : ℕ) (s : MemAccessSize) → Bus.load total_bus a s ≢ undefined
unfolding Bus.load
bus_load-defined a s h =
    ground (arith, virtio_load-defined a, load_ram-defined total_mem a s (λ p. (0, refl)))

bus_store-defined : (a v : ℕ) (s : MemAccessSize) → Bus.store total_bus a v s ≢ undefined
unfolding Bus.store
bus_store-defined a v s h =
    ground (arith, virtio_store-defined a v, store_ram-defined total_mem a v s (λ p. (0, refl)))

total_cpu-IsDefined : IsDefined total_cpu
unfolding load store mmu_translate if_mmu_enabled
total_cpu-IsDefined = record {
  loads = λ a s h. ground (arith, bus_load-defined a s);
  stores = λ a v s h. ground (arith, bus_store-defined a v s);
}

-- LDR x0, [x1], #8
decode_ldst_register-defined_example : decode_ldst_register 0xf8408420 total_cpu ≢ undefined
decode_ldst_register-defined_example =
    decode_ldst_register-defined 0xf8408420 total_cpu total_cpu-IsDefined
