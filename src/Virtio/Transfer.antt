-- ===== src/Virtio/Transfer.antt =====
-- The transfer of `Virtio::disk_access` of src/virtio.cc from the disk to the guest's memory.
use aarch64_emu.Base.{ℕ, zero, suc, ◌+◌, ◌*◌, ◌/◌, ◌%◌, ◌^◌, ◌≤◌, ◌<◌, ◌≡◌, refl, arith, inl, inr}
use aarch64_emu.Base.{some, ok, ◌+64◌, u64, ◌∙◌, sym, ap, ltb, Bool-cases}
use aarch64_emu.Base.Masks.{and_place}
use aarch64_emu.Mem
use aarch64_emu.Mem.{Mem, get_ptr, poke_bytes}
use aarch64_emu.Mem.Bytes.{HasCell, IsMapped, IsWrite, poke_bytes_lem}
use aarch64_emu.Virtio.{Virtio, Desc, disk_byte, read_sectors, transfer}

-- The disk has a byte at the offset.
abbrev pub HasByte : Virtio → ℕ → Type 0
HasByte v offset = (b : ℕ) × (v.disk offset ≡ some b) × (b < 256)

get_ptr-IsWrite : (m m' : Mem) (n p addr : ℕ) → IsWrite n m p m' → get_ptr m' addr ≡ get_ptr m addr
unfolding get_ptr
get_ptr-IsWrite m m' n p addr w = rw (w.same_start, w.same_base) refl

-- Two stores, one behind the other.
IsWrite-behind :
    (n : ℕ) {m m1 m2 : Mem} {p : ℕ}
    → IsWrite 1 m p m1
    → IsWrite n m1 (p + 1) m2
    → IsWrite (suc n) m p m2
IsWrite-behind n {p = p} w w' = record {
  same_start = w'.same_start ∙ w.same_start;
  same_size = w'.same_size ∙ w.same_size;
  same_base = w'.same_base ∙ w.same_base;
  elsewhere = λ q out. w'.elsewhere q (ground arith) ∙ w.elsewhere q (ground arith);
  mapped = λ q c. w'.mapped q (w.mapped q c);
}

-- One byte of the copy, to the host's address `q`.
store_byte :
    (m : Mem) (addr q b : ℕ)
    → get_ptr m addr ≡ q
    → b < 256
    → HasCell m q
    → (m' : Mem) × (Mem.store8 m addr b ≡ ok m') × (m'.cell q ≡ some b) × IsWrite 1 m q m'
unfolding Mem.store8
store_byte m addr q b at_q small c =
    let cells : IsMapped 1 m q = λ i lt. let e : q + i ≡ q = omega arith in rw e c in
    let (m', returns, holds, write) = poke_bytes_lem 1 m q b cells in
    let e : b % 256 ≡ b = omega arith in
    (m', ap (λ t. poke_bytes 1 m t b) at_q ∙ returns, rw e at holds.0, write)

-- The rounds from `i` on, where the guest's buffer starts at the host's address `p`.
module _ (v : Virtio) (start addr p : ℕ) where
  abbrev Copied : Mem → ℕ → ℕ → Mem → Type 0
  Copied m n i m' =
      ((j : ℕ) → i ≤ j → j < i + n → m'.cell (p + j) ≡ v.disk (start +64 j))
      × IsWrite n m (p + i) m'

  read_step :
      (n i b : ℕ) (m m1 : Mem)
      → v.disk (start +64 i) ≡ some b
      → Mem.store8 m (addr +64 i) b ≡ ok m1
      → read_sectors (suc n) i start addr v m ≡ read_sectors n (i + 1) start addr v m1
  unfolding read_sectors disk_byte
  read_step n i b m m1 on_disk stored = ground (arith, on_disk, stored)

  read_sectors_lem :
      (n i : ℕ) (m : Mem)
      → ((j : ℕ) → i ≤ j → j < i + n → HasByte v (start +64 j))
      → ((j : ℕ) → i ≤ j → j < i + n → get_ptr m (addr +64 j) ≡ p + j)
      → ((j : ℕ) → i ≤ j → j < i + n → HasCell m (p + j))
      → (m' : Mem) × (read_sectors n i start addr v m ≡ ok m') × Copied m n i m'
  unfolding read_sectors
  read_sectors_lem zero i m bytes ptrs cells = (
    m,
    refl,
    (
      (λ j le lt. absurd (omega arith)),
      record {
        same_start = refl;
        same_size = refl;
        same_base = refl;
        elsewhere = λ q _. refl;
        mapped = λ q c. c;
      },
    ),
  )
  read_sectors_lem (suc n) i m bytes ptrs cells =
      let (b, on_disk, small) = bytes i (omega arith) (omega arith) in
      let at_i = ptrs i (omega arith) (omega arith) in
      let (m1, stored, cell1, w1) =
        store_byte m (addr +64 i) (p + i) b at_i small (cells i (omega arith) (omega arith)) in
      let (m2, copied, (rest, w2)) =
        read_sectors_lem n (i + 1) m1 (λ j le lt. bytes j (omega arith) (omega arith))
          (λ j le lt.
            get_ptr-IsWrite m m1 1 (p + i) (addr +64 j) w1 ∙ ptrs j (omega arith) (omega arith))
          (λ j le lt. w1.mapped (p + j) (cells j (omega arith) (omega arith))) in
      let e : p + (i + 1) ≡ p + i + 1 = omega arith in
      let w2' : IsWrite n m1 (p + i + 1) m2 = rw e at w2 in
      let first : m2.cell (p + i) ≡ v.disk (start +64 i) =
        w2'.elsewhere (p + i) (inl (omega arith)) ∙ cell1 ∙ sym on_disk in
      (
        m2,
        read_step n i b m m1 on_disk stored ∙ copied,
        (
          (λ j le lt. elim (Bool-cases (ltb i j)) [
            | inl later ↦ rest j (ground arith) (omega arith)
            | inr now ↦ let same : j ≡ i = ground arith in rw same first
          ]),
          IsWrite-behind n w1 w2',
        ),
      )

-- A request whose data descriptor the device may write to, of less than 2 ^ 16 bytes that are on the
-- disk, into a buffer that the host has mapped without wrap-around: the transfer succeeds, it puts
-- byte j of the sector into byte j of the buffer for every j below the length, changes no other
-- byte of memory, and leaves the device as it was.
pub transfer_reads :
    (d : Desc) (sector : ℕ) (m : Mem) (v : Virtio)
    → d.len < 2 ^ 16
    → d.flags / 2 % 2 ≡ 1
    → m.text_start < 2 ^ 64
    → get_ptr m d.addr + d.len ≤ 2 ^ 64
    → ((j : ℕ) → j < d.len → HasByte v (u64 (sector * 512) +64 j))
    → IsMapped d.len m (get_ptr m d.addr)
    → (m' : Mem) × (transfer d sector m v ≡ ok (m', v))
      × ((j : ℕ) → j < d.len → m'.cell (get_ptr m d.addr + j) ≡ v.disk (u64 (sector * 512) +64 j))
      × IsWrite d.len m (get_ptr m d.addr) m'
unfolding transfer get_ptr
transfer_reads d sector m v short write low fits bytes cells =
    let p = get_ptr m d.addr in
    let (m', done, (copied, w)) =
      read_sectors_lem v (u64 (sector * 512)) d.addr p d.len 0 m (λ j le lt. bytes j (omega arith))
        (λ j le lt. omega arith) (λ j le lt. cells j (omega arith)) in
    let e : p + 0 ≡ p = omega arith in
    (
      m',
      ground (arith, and_place 1 d.flags, done),
      (λ j lt. copied j (omega arith) (omega arith)),
      rw e at w,
    )
