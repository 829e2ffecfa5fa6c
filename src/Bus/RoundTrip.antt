-- ===== src/Bus/RoundTrip.antt =====
-- Stores to RAM and the loads after them, over `Bus::store` and `Bus::load` of src/bus.cc and the
-- accesses of src/mem.cc.
use aarch64_emu.Base.{ℕ, ◌+◌, ◌^◌, ◌%◌, ◌≤◌, ◌≡◌, ◌≢◌, refl, arith, ap, ◌∙◌}
use aarch64_emu.Base.{u8, u16, u32, ne→==}
use aarch64_emu.Base.{ok}
use aarch64_emu.Access.{MemAccessSize, byte, hex, word, dword, width}
use aarch64_emu.Mem.{Mem, get_ptr, store8, store16, store32, store64}
use aarch64_emu.Mem.{load8, load16, load32, load64}
use aarch64_emu.Mem.Bytes.{IsMapped, IsWrite, poke_bytes_lem, peek_bytes_lem, peek_bytes_more}
use aarch64_emu.Bus
use aarch64_emu.Bus.{Bus, load_ram, store_ram}

-- What the emulator's process must have mapped for an access: a word load reads a fifth byte.
abbrev pub reach : MemAccessSize → ℕ
reach word = 5
reach byte = 1
reach hex = 2
reach dword = 8

pub record IsBacked (m : Mem) (addr : ℕ) (size : MemAccessSize) : Type 0 where
  pub not_null : get_ptr m addr ≢ 0
  pub cells : IsMapped (reach size) m (get_ptr m addr)

module _ (m m' : Mem) (p : ℕ) (n : ℕ) where
  get_ptr-IsWrite : (addr : ℕ) → IsWrite n m p m' → get_ptr m' addr ≡ get_ptr m addr
  unfolding get_ptr
  get_ptr-IsWrite addr w = rw (w.same_start, w.same_base) refl

-- A store to RAM writes the bytes of its size and nothing else, and a load of the same size gives
-- the value back, cut to that size.
module _ (m : Mem) (addr value : ℕ) where
  abbrev Stored : MemAccessSize → Type 0
  Stored size =
      (m' : Mem) × (store_ram m addr value size ≡ ok m')
      × (load_ram m' addr size ≡ ok (value % 256 ^ width size))
      × IsWrite (width size) m (get_ptr m addr) m'

  store_ram-dword : IsBacked m addr dword → Stored dword
  unfolding store_ram load_ram store64 load64
  store_ram-dword h =
      let (m', returns, holds, write) = poke_bytes_lem 8 m (get_ptr m addr) value h.cells in
      let same = get_ptr-IsWrite m m' (get_ptr m addr) 8 addr write in
      let nonzero = ne→== _ _ h.not_null in
      (
        m',
        rw nonzero returns,
        rw (same, nonzero) (peek_bytes_lem 8 m' (get_ptr m addr) value holds),
        write,
      )

  store_ram-byte : IsBacked m addr byte → Stored byte
  unfolding store_ram load_ram store8 load8
  store_ram-byte h =
      let (m', returns, holds, write) = poke_bytes_lem 1 m (get_ptr m addr) (u8 value) h.cells in
      let same = get_ptr-IsWrite m m' (get_ptr m addr) 1 addr write in
      let nonzero = ne→== _ _ h.not_null in
      (
        m',
        returns,
        rw (same, nonzero)
            (peek_bytes_lem 1 m' (get_ptr m addr) (u8 value) holds ∙ ap ok (omega arith)),
        write,
      )

  store_ram-hex : IsBacked m addr hex → Stored hex
  unfolding store_ram load_ram store16 load16
  store_ram-hex h =
      let (m', returns, holds, write) = poke_bytes_lem 2 m (get_ptr m addr) (u16 value) h.cells in
      let same = get_ptr-IsWrite m m' (get_ptr m addr) 2 addr write in
      let nonzero = ne→== _ _ h.not_null in
      (
        m',
        rw nonzero returns,
        rw (same, nonzero)
            (peek_bytes_lem 2 m' (get_ptr m addr) (u16 value) holds ∙ ap ok (omega arith)),
        write,
      )

  store_ram-word : IsBacked m addr word → Stored word
  unfolding store_ram load_ram store32 load32
  store_ram-word h =
      let p = get_ptr m addr in
      let (m', returns, holds, write) =
        poke_bytes_lem 4 m p (u32 value) (λ i lt. h.cells i (omega arith)) in
      let same = get_ptr-IsWrite m m' p 4 addr write in
      let nonzero = ne→== _ _ h.not_null in
      let (b, fifth) = write.mapped (p + 4) (h.cells 4 (omega arith)) in
      let loaded = peek_bytes_more 4 m' p (u32 value) b holds fifth in
      (m', rw nonzero returns, rw (same, nonzero) (rw loaded (ap ok (omega arith))), write)

  store_ram_lem : (size : MemAccessSize) → IsBacked m addr size → Stored size
  store_ram_lem byte = store_ram-byte
  store_ram_lem hex = store_ram-hex
  store_ram_lem word = store_ram-word
  store_ram_lem dword = store_ram-dword

-- A guest address that the bus hands to RAM.
abbrev pub IsRam : ℕ → Type 0
IsRam addr = (0x40000000 ≤ addr) × (addr ≤ 0x80000000)

load_ram-route :
    (b : Bus) (addr : ℕ) (size : MemAccessSize) (v : ℕ)
    → IsRam addr
    → load_ram b.mem addr size ≡ ok v
    → Bus.load b addr size ≡ ok (v, b)
unfolding Bus.load
load_ram-route b addr size v r h = ground arith

store_ram-route :
    (b : Bus) (addr value : ℕ) (size : MemAccessSize) (m' : Mem)
    → IsRam addr
    → store_ram b.mem addr value size ≡ ok m'
    → Bus.store b addr value size ≡ ok (record b { mem = m' })
unfolding Bus.store
store_ram-route b addr value size m' r h = ground arith

-- For every access size, a store to a RAM address that the host has mapped succeeds; a load of the
-- same size then gives the value cut to the size and changes nothing, and the store has changed no
-- host cell outside the bytes of the access and nothing of the devices.
pub ram_load-store :
    (b : Bus) (addr value : ℕ) (size : MemAccessSize)
    → IsRam addr
    → IsBacked b.mem addr size
    → (m' : Mem) × (Bus.store b addr value size ≡ ok (record b { mem = m' }))
      × (Bus.load (record b { mem = m' }) addr size
          ≡ ok (value % 256 ^ width size, record b { mem = m' }))
      × IsWrite (width size) b.mem (get_ptr b.mem addr) m'
ram_load-store b addr value size r h =
    let (m', stored, loaded, write) = store_ram_lem b.mem addr value size h in
    (
      m',
      store_ram-route b addr value size m' r stored,
      load_ram-route (record b { mem = m' }) addr size _ r loaded,
      write,
    )
