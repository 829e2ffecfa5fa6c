-- ===== src/Gic.antt =====
-- src/gic.cc: the interrupt controller's registers. An array is a function from its indices.
pub mod Registers
pub mod Bounds
use aarch64_emu.Base.{ℕ, zero, suc, ◌+◌, ◌-◌, ◌*◌, ◌^◌, ◌/◌, bit_or}
use aarch64_emu.Base.{Bool, ◌&&◌}
use aarch64_emu.Base.{u8, u32, ◌>>>◌}
use aarch64_emu.Base.{leb, ◌==◌, if◌then◌else◌, update}

pub record Gic : Type 0 where
  pub d_ctlr : ℕ
  pub d_typer : ℕ
  pub d_igroupr : ℕ → ℕ
  pub d_isenabler : ℕ → ℕ
  pub d_icpendr : ℕ → ℕ
  pub d_ipriorityr : ℕ → ℕ
  pub r_ctlr : ℕ
  pub r_waker : ℕ
  pub r_igroupr0 : ℕ
  pub r_isenabler0 : ℕ
  pub r_icpendr0 : ℕ
  pub r_ipriorityr : ℕ → ℕ
  pub r_igrpmodr0 : ℕ

abbrev pub gicd_ctlr : ℕ
gicd_ctlr = 0x08000000

abbrev pub gicd_typer : ℕ
gicd_typer = 0x08000004

abbrev pub gicd_igroupr : ℕ
gicd_igroupr = 0x08000080

abbrev pub gicd_isenabler : ℕ
gicd_isenabler = 0x08000100

abbrev pub gicd_icpendr : ℕ
gicd_icpendr = 0x08000280

abbrev pub gicd_ipriorityr : ℕ
gicd_ipriorityr = 0x08000400

abbrev pub gicd_itargetsr : ℕ
gicd_itargetsr = 0x08000800

abbrev pub gicr_ctlr : ℕ
gicr_ctlr = 0x080a0000

abbrev pub gicr_waker : ℕ
gicr_waker = 0x080a0014

abbrev pub gicr_igroupr0 : ℕ
gicr_igroupr0 = 0x080b0080

abbrev pub gicr_isenabler0 : ℕ
gicr_isenabler0 = 0x080b0100

abbrev pub gicr_icpendr0 : ℕ
gicr_icpendr0 = 0x080b0280

abbrev pub gicr_ipriorityr : ℕ
gicr_ipriorityr = 0x080b0400

abbrev pub gicr_igrpmodr0 : ℕ
gicr_igrpmodr0 = 0x080b0d00

-- Whether `addr` lies in the registers from `base` to `base + last`.
abbrev pub within : ℕ → ℕ → ℕ → Bool
within addr base last = leb base addr && leb addr (base + last)

-- The priority loop of `store`: `n` bytes from index `i`, lowest first.
pub put_priorities : ℕ → (ℕ → ℕ) → ℕ → ℕ → ℕ → ℕ
put_priorities zero d i value = d
put_priorities (suc n) d i value = put_priorities n (update d i (u8 value)) (i + 1) (value >>> 8)

-- The priority loop of `load`: from index `i + n - 1` down to `i`.
pub get_priorities : ℕ → (ℕ → ℕ) → ℕ → ℕ → ℕ
get_priorities zero d i value = value
get_priorities (suc n) d i value = get_priorities n d i (bit_or (u32 (value * 2 ^ 8)) (d (i + n)))

unfoldable pub store : Gic → ℕ → ℕ → Gic
unfolding put_priorities
store g addr value =
    if addr == gicd_ctlr
    then record g { d_ctlr = u32 value }
    else if addr == gicd_typer
    then record g { d_typer = u32 value }
    else if within addr gicd_igroupr 0x7f
    then record g { d_igroupr = update g.d_igroupr (u8 ((addr - gicd_igroupr) / 32)) (u32 value) }
    else if within addr gicd_isenabler 0x7f
    then record g {
      d_isenabler = update g.d_isenabler (u8 ((addr - gicd_isenabler) / 32)) (u32 value);
    }
    else if within addr gicd_icpendr 0x7f
    then record g { d_icpendr = update g.d_icpendr (u8 ((addr - gicd_icpendr) / 32)) (u32 value) }
    else if within addr gicd_ipriorityr 0x3ff
    then record g {
      d_ipriorityr = put_priorities 4 g.d_ipriorityr (u8 (addr - gicd_ipriorityr)) value;
    }
    else if within addr gicd_itargetsr 0x3ff
    then g
    else if addr == gicr_ctlr
    then record g { r_ctlr = u32 value }
    else if addr == gicr_waker
    then record g { r_waker = u32 value }
    else if addr == gicr_igroupr0
    then record g { r_igroupr0 = u32 value }
    else if addr == gicr_isenabler0
    then record g { r_isenabler0 = u32 value }
    else if addr == gicr_icpendr0
    then record g { r_icpendr0 = u32 value }
    else if within addr gicr_ipriorityr 0x1f
    then record g {
      r_ipriorityr = update g.r_ipriorityr ((addr - gicr_ipriorityr) / 4) (u32 value);
    }
    else if addr == gicr_igrpmodr0
    then record g { r_igrpmodr0 = u32 value }
    else g

unfoldable pub load : Gic → ℕ → ℕ
unfolding get_priorities
load g addr =
    if addr == gicd_ctlr
    then g.d_ctlr
    else if addr == gicd_typer
    then g.d_typer
    else if within addr gicd_igroupr 0x7f
    then g.d_igroupr (u8 ((addr - gicd_igroupr) / 32))
    else if within addr gicd_isenabler 0x7f
    then g.d_isenabler (u8 ((addr - gicd_isenabler) / 32))
    else if within addr gicd_icpendr 0x7f
    then g.d_icpendr (u8 ((addr - gicd_icpendr) / 32))
    else if within addr gicd_ipriorityr 0x3ff
    then get_priorities 4 g.d_ipriorityr (u8 (addr - gicd_ipriorityr)) 0
    else if within addr gicd_itargetsr 0x3ff
    then 0
    else if addr == gicr_ctlr
    then g.r_ctlr
    else if addr == gicr_waker
    then g.r_waker
    else if addr == gicr_igroupr0
    then g.r_igroupr0
    else if addr == gicr_isenabler0
    then g.r_isenabler0
    else if addr == gicr_icpendr0
    then g.r_icpendr0
    else if within addr gicr_ipriorityr 0x1f
    then g.r_ipriorityr ((addr - gicr_ipriorityr) / 4)
    else if addr == gicr_igrpmodr0
    then g.r_igrpmodr0
    else 0
