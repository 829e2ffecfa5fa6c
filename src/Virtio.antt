-- ===== src/Virtio.antt =====
-- src/virtio.cc and src/include/virtio.h: the block device on the virtio MMIO transport.
-- The disk is a function from offsets; an offset past its end has no byte, and to touch it is
-- undefined. So is a call through `virtqueue` while there is none.
pub mod Transfer
pub mod Writing
use aarch64_emu.Base.{ℕ, zero, suc, ◌+◌, ◌*◌, ◌^◌, ◌%◌, bit_and}
use aarch64_emu.Base.{Bool, true, false, Option, none, some}
use aarch64_emu.Base.{u32, u64, ◌+64◌}
use aarch64_emu.Base.{leb, ◌==◌, ◌!=◌, if◌then◌else◌, update}
use aarch64_emu.Base.{Outcome, ok, exit, undefined, ◌>>=◌}
use aarch64_emu.Mem
use aarch64_emu.Mem.{Mem}

pub record ControlRegs : Type 0 where
  pub magic_value : ℕ
  pub version : ℕ
  pub device_id : ℕ
  pub vender_id : ℕ
  pub host_features : ℕ
  pub guest_features : ℕ
  pub guest_page_size : ℕ
  pub queue_sel : ℕ
  pub queue_num_max : ℕ
  pub queue_num : ℕ
  pub queue_pfn : ℕ
  pub queue_notify : ℕ
  pub interrupt_status : ℕ
  pub interrupt_ack : ℕ
  pub status : ℕ

pub record Virtqueue : Type 0 where
  pub desc_table : ℕ
  pub avail_ring : ℕ
  pub avail_idx : ℕ
  pub used_ring : ℕ

pub record Desc : Type 0 where
  pub addr : ℕ
  pub len : ℕ
  pub flags : ℕ
  pub next : ℕ

pub record Virtio : Type 0 where
  pub control_regs : ControlRegs
  pub disk : ℕ → Option ℕ
  pub virtqueue : Option Virtqueue
  pub id : ℕ

-- `Virtqueue::update`; the products are of `uint32_t`.
unfoldable pub update_queue : Virtqueue → ℕ → ℕ → ℕ → Virtqueue
update_queue q pfn page_size queue_num =
    let base = u32 (pfn * page_size) in
    record q {
      desc_table = base;
      avail_ring = base +64 u32 (queue_num * 16);
      used_ring = base +64 page_size;
    }

-- The constructor `Virtqueue`.
unfoldable pub new_queue : ℕ → ℕ → ℕ → Virtqueue
unfolding update_queue
new_queue pfn page_size queue_num =
    update_queue (record { desc_table = 0; avail_ring = 0; avail_idx = 0; used_ring = 0 }) pfn
      page_size queue_num

-- `virtqueue->update(...)` with the registers as they are now.
unfoldable pub refresh : Virtio → Outcome Virtio
unfolding update_queue
refresh v = elim v.virtqueue [
  | none ↦ undefined
  | some q ↦ ok (record v {
    virtqueue = some (
        update_queue q v.control_regs.queue_pfn (u32 v.control_regs.guest_page_size)
          v.control_regs.queue_num);
  })
]

unfoldable pub is_interrupting : Virtio → Bool × Virtio
is_interrupting v =
    if v.control_regs.queue_notify == 0
    then (true, record v { control_regs = record (v.control_regs) { queue_notify = 0xffff_ffff } })
    else (false, v)

-- The constructor `Desc`.
unfoldable pub load_desc : Mem → ℕ → Outcome Desc
load_desc m base_addr = do
  addr ← Mem.load64 m base_addr
  len ← Mem.load32 m (base_addr +64 8)
  flags ← Mem.load16 m (base_addr +64 12)
  next ← Mem.load16 m (base_addr +64 14)
  ok (record { addr = addr; len = len; flags = flags; next = next })

-- The byte of the disk at an offset.
unfoldable pub disk_byte : Virtio → ℕ → Outcome ℕ
disk_byte v i = elim (v.disk i) [ none ↦ undefined | some b ↦ ok b ]

unfoldable pub set_disk_byte : Virtio → ℕ → ℕ → Outcome Virtio
set_disk_byte v i b = elim (v.disk i) [
  | none ↦ undefined
  | some _ ↦ ok (record v { disk = update v.disk i (some b) })
]

-- The two copy loops, with `n` rounds left at round `i`: disk to memory and memory to disk.
unfoldable pub read_sectors : ℕ → ℕ → ℕ → ℕ → Virtio → Mem → Outcome Mem
unfolding disk_byte
read_sectors zero i start addr v m = ok m
read_sectors (suc n) i start addr v m = do
  b ← disk_byte v (start +64 i)
  m' ← Mem.store8 m (addr +64 i) b
  read_sectors n (i + 1) start addr v m'

unfoldable pub write_sectors : ℕ → ℕ → ℕ → ℕ → Mem → Virtio → Outcome Virtio
unfolding set_disk_byte
write_sectors zero i start addr m v = ok v
write_sectors (suc n) i start addr m v = do
  b ← Mem.load8 m (addr +64 i)
  v' ← set_disk_byte v (start +64 i) b
  write_sectors n (i + 1) start addr m v'

-- The counter of the loops is a `uint16_t`: at a length of 2 ^ 16 or more they never end, which
-- C++ leaves undefined.
unfoldable pub transfer : Desc → ℕ → Mem → Virtio → Outcome (Mem × Virtio)
unfolding read_sectors write_sectors
transfer d sector m v =
    let start = u64 (sector * 512) in
    if leb (2 ^ 16) d.len
    then undefined
    else if bit_and d.flags 2 != 0
    then (do m' ← read_sectors d.len 0 start d.addr v m; ok (m', v))
    else (do v' ← write_sectors d.len 0 start d.addr m v; ok (m, v'))

-- The steps after the transfer: the status byte, the used ring's entry and its index.
unfoldable pub complete : Virtqueue → ℕ → ℕ → Mem → Virtio → Outcome (Mem × Virtio)
complete q first_index status_addr m v = do
  m' ← Mem.store8 m status_addr 0
  m'' ← Mem.store32 m' (q.used_ring +64 4 +64 v.id % v.control_regs.queue_num * 8) first_index
  let v' = record v { id = u64 (v.id + 1) }
  m''' ← Mem.store16 m'' (q.used_ring +64 2) v'.id
  ok (m''', v')

-- `disk_access`, once there is a queue; a queue of length 0 is a division by 0.
unfoldable pub serve : Virtqueue → Mem → Virtio → Outcome (Mem × Virtio)
unfolding load_desc transfer complete
serve q m v = do
  first_index ← Mem.load64 m (q.avail_ring +64 32 +64 q.avail_idx % v.control_regs.queue_num)
  desc0 ← load_desc m (q.desc_table +64 u64 (first_index * 16))
  desc1 ← load_desc m (q.desc_table +64 desc0.next * 16)
  desc2 ← load_desc m (q.desc_table +64 desc1.next * 16)
  sector ← Mem.load64 m (desc0.addr +64 8)
  moved ← transfer desc1 sector m v
  complete q first_index desc2.addr moved.0 moved.1

unfoldable pub disk_access : Mem → Virtio → Outcome (Mem × Virtio)
unfolding serve
disk_access m v = elim v.virtqueue [
  | none ↦ undefined
  | some q ↦ if v.control_regs.queue_num == 0 then undefined else serve q m v
]

-- A write to the status register; bit 2 is the driver's "ready".
unfoldable pub set_status : Virtio → ℕ → Outcome Virtio
unfolding new_queue
set_status v value =
    let r = v.control_regs in
    let ready = new_queue r.queue_pfn (u32 r.guest_page_size) r.queue_num in
    ok (record v {
      control_regs = record r { status = u32 value };
      virtqueue = if bit_and (u32 value) 4 != 0 then some ready else v.virtqueue;
    })

-- `Virtio::store`: the writes by their register's offset from VIRTIO_MMIO.
unfoldable pub store : Virtio → ℕ → ℕ → Outcome Virtio
unfolding refresh set_status
store v addr value =
    let r = v.control_regs in
    if addr == 0xa000000
    then exit 1
    else if addr == 0xa000004
    then exit 1
    else if addr == 0xa000008
    then exit 1
    else if addr == 0xa00000c
    then exit 1
    else if addr == 0xa000010
    then exit 1
    else if addr == 0xa000034
    then exit 1
    else if addr == 0xa000020
    then ok (record v { control_regs = record r { guest_features = u32 value } })
    else if addr == 0xa000028
    then refresh (record v { control_regs = record r { guest_page_size = value } })
    else if addr == 0xa000030
    then ok (record v { control_regs = record r { queue_sel = u32 value } })
    else if addr == 0xa000038
    then refresh (record v { control_regs = record r { queue_num = u32 value } })
    else if addr == 0xa000040
    then refresh (record v { control_regs = record r { queue_pfn = u32 value } })
    else if addr == 0xa000050
    then ok (record v { control_regs = record r { queue_notify = u32 value } })
    else if addr == 0xa000064
    then ok (record v { control_regs = record r { interrupt_ack = u32 value } })
    else if addr == 0xa000070
    then set_status v value
    else exit 1

unfoldable pub load : Virtio → ℕ → Outcome ℕ
load v addr =
    let r = v.control_regs in
    if addr == 0xa000020
    then exit 1
    else if addr == 0xa000028
    then exit 1
    else if addr == 0xa000030
    then exit 1
    else if addr == 0xa000038
    then exit 1
    else if addr == 0xa000050
    then exit 1
    else if addr == 0xa000000
    then ok r.magic_value
    else if addr == 0xa000004
    then ok r.version
    else if addr == 0xa000008
    then ok r.device_id
    else if addr == 0xa00000c
    then ok r.vender_id
    else if addr == 0xa000010
    then ok r.host_features
    else if addr == 0xa000034
    then ok r.queue_num_max
    else if addr == 0xa000040
    then ok r.queue_pfn
    else if addr == 0xa000064
    then ok r.interrupt_ack
    else if addr == 0xa000060
    then ok r.interrupt_status
    else if addr == 0xa000070
    then ok r.status
    else exit 1
