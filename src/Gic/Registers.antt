-- ===== src/Gic/Registers.antt =====
-- Registers of the interrupt controller, src/gic.cc: what a store leaves for a load.
use aarch64_emu.Base.{ℕ, ◌+◌, ◌-◌, ◌*◌, ◌^◌, ◌/◌, ◌%◌, bit_or}
use aarch64_emu.Base.{u8, u32}
use aarch64_emu.Base.{◌≡◌, ◌<◌, refl, arith}
use aarch64_emu.Base.Masks.{or_above}
use aarch64_emu.Base.Bits.{zero-or}
use aarch64_emu.Gic
use aarch64_emu.Gic.{Gic, put_priorities, get_priorities, within}

-- One byte more at the low end of a 32-bit value.
or_byte :
    (high low : ℕ) → high < 2 ^ 24 → low < 256 → bit_or (u32 (high * 2 ^ 8)) low ≡ high * 256 + low
or_byte high low h h' =
    let e : high * 2 ^ 8 % 2 ^ 32 ≡ high * 2 ^ 8 = omega arith in rw e (or_above 8 high low h')

-- The four priority bytes of a store read back as the low word of its value.
get-put_priorities :
    (d : ℕ → ℕ) (i value : ℕ) → get_priorities 4 (put_priorities 4 d i value) i 0 ≡ value % 2 ^ 32
unfolding get_priorities put_priorities
get-put_priorities d i value =
    let b0 = value % 256 in
    let b1 = value / 256 % 256 in
    let b2 = value / 256 / 256 % 256 in
    let b3 = value / 256 / 256 / 256 % 256 in
    ground (
      arith,
      zero-or b3,
      or_byte b3 b2,
      or_byte (b3 * 256 + b2) b1,
      or_byte ((b3 * 256 + b2) * 256 + b1) b0,
    )

-- The registers that can be written and read back, with the byte offset inside an array.
pub data Register : Type 0 where
  d_ctlr d_typer r_ctlr r_waker r_igroupr0 r_isenabler0 r_icpendr0 r_igrpmodr0 : Register
  d_igroupr d_isenabler d_icpendr d_ipriorityr r_ipriorityr : ℕ → Register

abbrev pub address : Register → ℕ
address d_ctlr = Gic.gicd_ctlr
address d_typer = Gic.gicd_typer
address (d_igroupr i) = Gic.gicd_igroupr + i
address (d_isenabler i) = Gic.gicd_isenabler + i
address (d_icpendr i) = Gic.gicd_icpendr + i
address (d_ipriorityr i) = Gic.gicd_ipriorityr + i
address r_ctlr = Gic.gicr_ctlr
address r_waker = Gic.gicr_waker
address r_igroupr0 = Gic.gicr_igroupr0
address r_isenabler0 = Gic.gicr_isenabler0
address r_icpendr0 = Gic.gicr_icpendr0
address (r_ipriorityr i) = Gic.gicr_ipriorityr + i
address r_igrpmodr0 = Gic.gicr_igrpmodr0

-- The offset stays inside the register's array.
abbrev pub IsInside : Register → Type 0
IsInside (d_igroupr i) = i < 0x80
IsInside (d_isenabler i) = i < 0x80
IsInside (d_icpendr i) = i < 0x80
IsInside (d_ipriorityr i) = i < 0x400
IsInside (r_ipriorityr i) = i < 0x20
IsInside _ = Unit {0}

-- At every register of the controller that keeps what is written, and at every byte offset inside its
-- array, a load after a store gives the low word of the value.
pub register_load-store :
    (g : Gic) (r : Register) (value : ℕ)
    → IsInside r
    → Gic.load (Gic.store g (address r) value) (address r) ≡ value % 2 ^ 32
unfolding Gic.load Gic.store
register_load-store g d_ctlr value h = refl
register_load-store g d_typer value h = refl
register_load-store g (d_igroupr i) value h = ground arith
register_load-store g (d_isenabler i) value h = ground arith
register_load-store g (d_icpendr i) value h = ground arith
register_load-store g (d_ipriorityr i) value h = ground (
  arith,
  get-put_priorities g.d_ipriorityr (u8 (Gic.gicd_ipriorityr + i - Gic.gicd_ipriorityr)) value,
)
register_load-store g (r_ipriorityr i) value h = ground arith
register_load-store g _ value h = refl

-- The bytes of the distributor's group, enable and pending arrays are divided by 32 and not by 4, so
-- that all the words of a block of 32 bytes are one register: a store to any of them is what a load
-- from any other gives.
pub register_load-store_alias :
    (g : Gic) (i j value : ℕ)
    → i < 0x80
    → j < 0x80
    → i / 32 ≡ j / 32
    → (Gic.load (Gic.store g (Gic.gicd_igroupr + i) value) (Gic.gicd_igroupr + j) ≡ value % 2 ^ 32)
      × (Gic.load (Gic.store g (Gic.gicd_isenabler + i) value) (Gic.gicd_isenabler + j)
          ≡ value % 2 ^ 32)
      × (Gic.load (Gic.store g (Gic.gicd_icpendr + i) value) (Gic.gicd_icpendr + j)
          ≡ value % 2 ^ 32)
unfolding Gic.load Gic.store
register_load-store_alias g i j value h k same = (ground arith, ground arith, ground arith)
