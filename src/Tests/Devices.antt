-- ===== src/Tests/Devices.antt =====
-- Tests and witnesses for the devices and the bit helpers.
use aarch64_emu.Base.{◌+◌, ◌-◌, ◌^◌, arith, refl, ◌≡◌}
use aarch64_emu.Util.{sign_extend}
use aarch64_emu.Cpu.Extend.{signed_extend}
use aarch64_emu.Util.Signs.{sign_value, sign_extend-eq, signed_extend-sign_extend}
use aarch64_emu.Gic
use aarch64_emu.Gic.{Gic}
use aarch64_emu.Gic.Bounds.{SameElements, KeepsBeyond, accesses-in_bounds}
use aarch64_emu.Gic.Registers.{register_load-store, register_load-store_alias, d_ipriorityr}
use aarch64_emu.Base.{ℕ, some, none, ltb, if◌then◌else◌, ◌+64◌, ok, ◌<◌}
use aarch64_emu.Mem.{Mem, get_ptr}
use aarch64_emu.Mem.Bytes.{IsWrite}
use aarch64_emu.Virtio.{Virtio, Desc, transfer}
use aarch64_emu.Virtio.Transfer.{transfer_reads}
use aarch64_emu.Virtio.Writing.{IsDiskWrite, transfer_writes}
use aarch64_emu.Mem
use aarch64_emu.Base.{zero, suc}
use aarch64_emu.Tests.Machine.{small_gic, small_virtio, small_mem}

register_load-store_example :
    Gic.load (Gic.store small_gic (Gic.gicd_ipriorityr + 5) 0x1_2345_6789) (Gic.gicd_ipriorityr + 5)
    ≡ 0x2345_6789
register_load-store_example =
    register_load-store small_gic (d_ipriorityr 5) 0x1_2345_6789 (omega arith)

register_load-store_alias_example :
    (Gic.load (Gic.store small_gic (Gic.gicd_igroupr + 4) 9) (Gic.gicd_igroupr + 8) ≡ 9)
    × (Gic.load (Gic.store small_gic (Gic.gicd_isenabler + 4) 9) (Gic.gicd_isenabler + 8) ≡ 9)
    × (Gic.load (Gic.store small_gic (Gic.gicd_icpendr + 4) 9) (Gic.gicd_icpendr + 8) ≡ 9)
register_load-store_alias_example =
    register_load-store_alias small_gic 4 8 9 (omega arith) (omega arith) refl

-- A controller that differs beyond the group array.
abbrev other_gic : Gic
other_gic = record small_gic { d_igroupr = λ i. if ltb i 32 then 0 else 5 }

other_gic-SameElements : SameElements small_gic other_gic
other_gic-SameElements = record {
  same_d_ctlr = refl;
  same_d_typer = refl;
  same_r_ctlr = refl;
  same_r_waker = refl;
  same_r_igroupr0 = refl;
  same_r_isenabler0 = refl;
  same_r_icpendr0 = refl;
  same_r_igrpmodr0 = refl;
  same_groups = λ i lt. ground arith;
  same_enabled = λ i lt. refl;
  same_pending = λ i lt. refl;
  same_priorities = λ i lt. refl;
  same_r_priorities = λ i lt. refl;
}

accesses-in_bounds_example :
    (Gic.load small_gic (Gic.gicd_igroupr + 0x7f) ≡ Gic.load other_gic (Gic.gicd_igroupr + 0x7f))
    × KeepsBeyond small_gic (Gic.store small_gic (Gic.gicd_igroupr + 0x7f) 1)
accesses-in_bounds_example =
    accesses-in_bounds small_gic other_gic (Gic.gicd_igroupr + 0x7f) 1 other_gic-SameElements

-- A 9-bit field of all ones is -1.
sign_extend-eq_example : sign_extend 0x1ff 9 ≡ 2 ^ 64 - 1
unfolding sign_value
sign_extend-eq_example = sign_extend-eq 0x1ff 8 (omega arith)

signed_extend-sign_extend_example : signed_extend 0x1ff 8 ≡ sign_extend 0x1ff 9
signed_extend-sign_extend_example = signed_extend-sign_extend 0x1ff 8 (omega arith) (omega arith)

-- A disk of one sector whose bytes are all 7, and a request for its first two.
abbrev full_disk : Virtio
full_disk = record small_virtio { disk = λ i. if ltb i 512 then some 7 else none }

abbrev request : Desc
request = record { addr = 0x40000010; len = 2; flags = 2; next = 0 }

transfer_reads_example :
    (m' : Mem) × (transfer request 0 small_mem full_disk ≡ ok (m', full_disk))
    × ((j : ℕ) → j < 2 → m'.cell (get_ptr small_mem 0x40000010 + j) ≡ full_disk.disk (0 +64 j))
    × IsWrite 2 small_mem (get_ptr small_mem 0x40000010) m'
unfolding get_ptr
transfer_reads_example =
    transfer_reads request 0 small_mem full_disk (omega arith) refl (omega arith) (omega arith)
      (λ j lt. (7, ground arith, omega arith)) (λ j lt. (0, ground arith))

-- The same sector from memory, whose bytes there are 0.
abbrev saving : Desc
saving = record request { flags = 0 }

small_mem_loads : (j : ℕ) → j < 2 → Mem.load8 small_mem (0x40000010 +64 j) ≡ ok 0
unfolding Mem.load8 Mem.load_wide Mem.peek_bytes Mem.peek get_ptr
small_mem_loads zero lt = refl
small_mem_loads (suc zero) lt = refl
small_mem_loads (suc (suc j)) lt = absurd (omega arith)

transfer_writes_example :
    (v' : Virtio) × (transfer saving 0 small_mem full_disk ≡ ok (small_mem, v'))
    × ((j b : ℕ) → j < 2 → Mem.load8 small_mem (0x40000010 +64 j) ≡ ok b → v'.disk (0 + j) ≡ some b)
    × IsDiskWrite 2 full_disk 0 v'
transfer_writes_example =
    transfer_writes saving 0 small_mem full_disk (omega arith) refl (omega arith)
      (λ j lt. (0, small_mem_loads j lt)) (λ j lt. (7, ground arith))
