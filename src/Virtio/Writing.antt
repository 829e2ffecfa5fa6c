-- ===== src/Virtio/Writing.antt =====
-- The transfer of `Virtio::disk_access` of src/virtio.cc from the guest's memory to the disk.
use aarch64_emu.Base.{
  ℕ, zero, suc, ◌+◌, ◌*◌, ◌/◌, ◌%◌, ◌^◌, ◌≤◌, ◌<◌, ◌≡◌, refl, arith, ◌⊎◌, inl, inr,
}
use aarch64_emu.Base.{some, ok, ◌+64◌, u64, ◌∙◌, ltb, Bool-cases, update, ne→==, ==_refl}
use aarch64_emu.Base.Masks.{and_place}
use aarch64_emu.Mem
use aarch64_emu.Mem.{Mem, get_ptr}
use aarch64_emu.Virtio.{Virtio, Desc, set_disk_byte, write_sectors, transfer}

-- Two devices differ at most in the `n` bytes of the disk from `offset` on.
pub record IsDiskWrite (n : ℕ) (v : Virtio) (offset : ℕ) (v' : Virtio) : Type 0 where
  pub same_regs : v'.control_regs ≡ v.control_regs
  pub same_queue : v'.virtqueue ≡ v.virtqueue
  pub same_id : v'.id ≡ v.id
  pub elsewhere : (o : ℕ) → (o < offset) ⊎ (offset + n ≤ o) → v'.disk o ≡ v.disk o

IsDiskWrite-behind :
    (n : ℕ) {v v1 v2 : Virtio} {o : ℕ}
    → IsDiskWrite 1 v o v1
    → IsDiskWrite n v1 (o + 1) v2
    → IsDiskWrite (suc n) v o v2
IsDiskWrite-behind n w w' = record {
  same_regs = w'.same_regs ∙ w.same_regs;
  same_queue = w'.same_queue ∙ w.same_queue;
  same_id = w'.same_id ∙ w.same_id;
  elsewhere = λ q out. w'.elsewhere q (ground arith) ∙ w.elsewhere q (ground arith);
}

-- The device after one byte.
abbrev written : Virtio → ℕ → ℕ → Virtio
written v o b = record v { disk = update v.disk o (some b) }

written-IsDiskWrite : (v : Virtio) (o b : ℕ) → IsDiskWrite 1 v o (written v o b)
written-IsDiskWrite v o b = record {
  same_regs = refl;
  same_queue = refl;
  same_id = refl;
  elsewhere = λ q out. let other = ne→== o q (λ e. ground arith) in rw other refl;
}

module _ (m : Mem) (start addr : ℕ) where
  write_step :
      (n i b old : ℕ) (v : Virtio)
      → Mem.load8 m (addr +64 i) ≡ ok b
      → start +64 i ≡ start + i
      → v.disk (start + i) ≡ some old
      → write_sectors (suc n) i start addr m v
        ≡ write_sectors n (i + 1) start addr m (written v (start + i) b)
  unfolding write_sectors set_disk_byte
  write_step n i b old v loaded at_i on_disk = ground (arith, loaded, at_i, on_disk)

  -- The rounds from `i` on.
  abbrev Saved : Virtio → ℕ → ℕ → Virtio → Type 0
  Saved v n i v' =
      ((j b : ℕ)
        → i ≤ j
        → j < i + n
        → Mem.load8 m (addr +64 j) ≡ ok b
        → v'.disk (start + j) ≡ some b)
      × IsDiskWrite n v (start + i) v'

  write_sectors_lem :
      (n i : ℕ) (v : Virtio)
      → start + (i + n) ≤ 2 ^ 64
      → ((j : ℕ) → i ≤ j → j < i + n → (b : ℕ) × (Mem.load8 m (addr +64 j) ≡ ok b))
      → ((j : ℕ) → i ≤ j → j < i + n → (old : ℕ) × (v.disk (start + j) ≡ some old))
      → (v' : Virtio) × (write_sectors n i start addr m v ≡ ok v') × Saved v n i v'
  unfolding write_sectors
  write_sectors_lem zero i v fits bytes cells = (
    v,
    refl,
    (
      (λ j b le lt _. absurd (omega arith)),
      record { same_regs = refl; same_queue = refl; same_id = refl; elsewhere = λ q _. refl },
    ),
  )
  write_sectors_lem (suc n) i v fits bytes cells =
      let (b, loaded) = bytes i (omega arith) (omega arith) in
      let (old, on_disk) = cells i (omega arith) (omega arith) in
      let at_i : start +64 i ≡ start + i = omega arith in
      let v1 = written v (start + i) b in
      let w1 = written-IsDiskWrite v (start + i) b in
      let kept : (j : ℕ)
          → i + 1 ≤ j
          → j < i + 1 + n
          → (old : ℕ) × (v1.disk (start + j) ≡ some old) =
        λ j le lt.
          let (o, e) = cells j (omega arith) (omega arith) in
          (o, w1.elsewhere (start + j) (inr (omega arith)) ∙ e) in
      let (v2, saved, (rest, w2)) =
        write_sectors_lem n (i + 1) v1 (omega arith)
          (λ j le lt. bytes j (omega arith) (omega arith)) kept in
      let e : start + (i + 1) ≡ start + i + 1 = omega arith in
      let w2' : IsDiskWrite n v1 (start + i + 1) v2 = rw e at w2 in
      let first : v2.disk (start + i) ≡ some b =
        w2'.elsewhere (start + i) (inl (omega arith)) ∙ rw (==_refl (start + i)) refl in
      (
        v2,
        write_step n i b old v loaded at_i on_disk ∙ saved,
        (
          (λ j b' le lt read. elim (Bool-cases (ltb i j)) [
            | inl later ↦ rest j b' (ground arith) (omega arith) read
            | inr now ↦
                let same : j ≡ i = ground arith in
                let read' : Mem.load8 m (addr +64 i) ≡ ok b' = rw same at read in
                let same_byte : b ≡ b' = ground (arith, loaded, read') in
                rw (same, ← same_byte) first
          ]),
          IsDiskWrite-behind n w1 w2',
        ),
      )

-- A request whose data descriptor the device may only read from, of less than 2 ^ 16 bytes that the
-- guest's memory can be loaded from, to a place inside the disk: the transfer succeeds, it puts the
-- byte that a load finds at place j of the buffer into byte j of the sector for every j below the
-- length, changes no other byte of the disk, nothing else of the device, and no memory.
pub transfer_writes :
    (d : Desc) (sector : ℕ) (m : Mem) (v : Virtio)
    → d.len < 2 ^ 16
    → d.flags / 2 % 2 ≡ 0
    → u64 (sector * 512) + d.len ≤ 2 ^ 64
    → ((j : ℕ) → j < d.len → (b : ℕ) × (Mem.load8 m (d.addr +64 j) ≡ ok b))
    → ((j : ℕ) → j < d.len → (old : ℕ) × (v.disk (u64 (sector * 512) + j) ≡ some old))
    → (v' : Virtio) × (transfer d sector m v ≡ ok (m, v'))
      × ((j b : ℕ)
          → j < d.len
          → Mem.load8 m (d.addr +64 j) ≡ ok b
          → v'.disk (u64 (sector * 512) + j) ≡ some b)
      × IsDiskWrite d.len v (u64 (sector * 512)) v'
unfolding transfer
transfer_writes d sector m v short read fits bytes cells =
    let start = u64 (sector * 512) in
    let (v', done, (saved, w)) =
      write_sectors_lem m start d.addr d.len 0 v (omega arith) (λ j le lt. bytes j (omega arith))
        (λ j le lt. cells j (omega arith)) in
    let e : start + 0 ≡ start = omega arith in
    (
      v',
      ground (arith, and_place 1 d.flags, done),
      (λ j b lt loaded. saved j b (omega arith) (omega arith) loaded),
      rw e at w,
    )
