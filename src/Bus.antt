-- ===== src/Bus.antt =====
-- src/bus.cc: the memory map. A load from the serial port changes its state.
pub mod RoundTrip
use aarch64_emu.Base.{ℕ, ◌+◌}
use aarch64_emu.Base.{◌&&◌}
use aarch64_emu.Base.{u8}
use aarch64_emu.Base.{ltb, leb, if◌then◌else◌}
use aarch64_emu.Base.{Outcome, ok, exit, ◌>>=◌}
use aarch64_emu.Access.{MemAccessSize, byte, hex, word, dword}
use aarch64_emu.Mem
use aarch64_emu.Mem.{Mem}
use aarch64_emu.Uart
use aarch64_emu.Uart.{Uart}
use aarch64_emu.Gic
use aarch64_emu.Gic.{Gic}
use aarch64_emu.Virtio
use aarch64_emu.Virtio.{Virtio}

pub record Bus : Type 0 where
  pub mem : Mem
  pub uart : Uart
  pub gic : Gic
  pub virtio : Virtio

abbrev pub gicv3_base : ℕ
gicv3_base = 0x08000000

abbrev pub gicv3_size : ℕ
gicv3_size = 0x1000000

abbrev pub uart_base : ℕ
uart_base = 0x09000000

abbrev pub uart_size : ℕ
uart_size = 0x1000

abbrev pub virtio_mmio_base : ℕ
virtio_mmio_base = 0x0a000000

abbrev pub virtio_mmio_size : ℕ
virtio_mmio_size = 0x200

abbrev pub ram_base : ℕ
ram_base = 0x40000000

abbrev pub ram_size : ℕ
ram_size = 0x40000000

-- The `switch` on the size, for RAM.
unfoldable pub load_ram : Mem → ℕ → MemAccessSize → Outcome ℕ
load_ram m address byte = Mem.load8 m address
load_ram m address hex = Mem.load16 m address
load_ram m address word = Mem.load32 m address
load_ram m address dword = Mem.load64 m address

unfoldable pub store_ram : Mem → ℕ → ℕ → MemAccessSize → Outcome Mem
store_ram m address value byte = Mem.store8 m address (u8 value)
store_ram m address value hex = Mem.store16 m address value
store_ram m address value word = Mem.store32 m address value
store_ram m address value dword = Mem.store64 m address value

unfoldable pub load : Bus → ℕ → MemAccessSize → Outcome (ℕ × Bus)
unfolding load_ram
load b address size =
    if leb gicv3_base address && ltb address (gicv3_base + gicv3_size)
    then ok (Gic.load b.gic address, b)
    else if leb uart_base address && leb address (uart_base + uart_size)
    then ok ((Uart.load b.uart address).0, record b { uart = (Uart.load b.uart address).1 })
    else if leb virtio_mmio_base address && leb address (virtio_mmio_base + virtio_mmio_size)
    then (do value ← Virtio.load b.virtio address; ok (value, b))
    else if leb ram_base address && leb address (ram_base + ram_size)
    then (do value ← load_ram b.mem address size; ok (value, b))
    else exit 0

unfoldable pub store : Bus → ℕ → ℕ → MemAccessSize → Outcome Bus
unfolding store_ram
store b address value size =
    if leb gicv3_base address && ltb address (gicv3_base + gicv3_size)
    then ok (record b { gic = Gic.store b.gic address value })
    else if leb uart_base address && leb address (uart_base + uart_size)
    then ok (record b { uart = Uart.store b.uart address value })
    else if leb virtio_mmio_base address && leb address (virtio_mmio_base + virtio_mmio_size)
    then (do virtio ← Virtio.store b.virtio address value; ok (record b { virtio = virtio }))
    else if leb ram_base address && leb address (ram_base + ram_size)
    then (do mem ← store_ram b.mem address value size; ok (record b { mem = mem }))
    else exit 0
