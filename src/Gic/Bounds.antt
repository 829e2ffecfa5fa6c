-- ===== src/Gic/Bounds.antt =====
-- The arrays of the interrupt controller, src/gic.cc: no access leaves them.
use aarch64_emu.Base.{
  ℕ, zero, suc, ◌+◌, ◌-◌, ◌≤◌, ◌<◌, ◌≡◌, refl, arith, Bool, true, false, ◌==◌, if◌then◌else◌, u8,
  update, ◌>>>◌, ◌/◌,
}
use aarch64_emu.Gic
use aarch64_emu.Gic.{Gic, put_priorities, get_priorities, gicd_ipriorityr, within}

-- Two controllers with the same registers, and with the same elements within the arrays' lengths: 32
-- for the groups and the enable and pending bits, 1024 for the distributor's priorities, 8 for the
-- redistributor's.
pub record SameElements (g g' : Gic) : Type 0 where
  pub same_d_ctlr : g.d_ctlr ≡ g'.d_ctlr
  pub same_d_typer : g.d_typer ≡ g'.d_typer
  pub same_r_ctlr : g.r_ctlr ≡ g'.r_ctlr
  pub same_r_waker : g.r_waker ≡ g'.r_waker
  pub same_r_igroupr0 : g.r_igroupr0 ≡ g'.r_igroupr0
  pub same_r_isenabler0 : g.r_isenabler0 ≡ g'.r_isenabler0
  pub same_r_icpendr0 : g.r_icpendr0 ≡ g'.r_icpendr0
  pub same_r_igrpmodr0 : g.r_igrpmodr0 ≡ g'.r_igrpmodr0
  pub same_groups : (i : ℕ) → i < 32 → g.d_igroupr i ≡ g'.d_igroupr i
  pub same_enabled : (i : ℕ) → i < 32 → g.d_isenabler i ≡ g'.d_isenabler i
  pub same_pending : (i : ℕ) → i < 32 → g.d_icpendr i ≡ g'.d_icpendr i
  pub same_priorities : (i : ℕ) → i < 1024 → g.d_ipriorityr i ≡ g'.d_ipriorityr i
  pub same_r_priorities : (i : ℕ) → i < 8 → g.r_ipriorityr i ≡ g'.r_ipriorityr i

-- No element beyond the arrays' lengths has changed.
pub record KeepsBeyond (g g' : Gic) : Type 0 where
  pub groups : (i : ℕ) → 32 ≤ i → g'.d_igroupr i ≡ g.d_igroupr i
  pub enabled : (i : ℕ) → 32 ≤ i → g'.d_isenabler i ≡ g.d_isenabler i
  pub pending : (i : ℕ) → 32 ≤ i → g'.d_icpendr i ≡ g.d_icpendr i
  pub priorities : (i : ℕ) → 1024 ≤ i → g'.d_ipriorityr i ≡ g.d_ipriorityr i
  pub r_priorities : (i : ℕ) → 8 ≤ i → g'.r_ipriorityr i ≡ g.r_ipriorityr i

put_priorities-beyond :
    (n : ℕ) (d : ℕ → ℕ) (i value j : ℕ) → i + n ≤ j → put_priorities n d i value j ≡ d j
unfolding put_priorities
put_priorities-beyond zero d i value j le = refl
put_priorities-beyond (suc n) d i value j le =
    ground (arith, put_priorities-beyond n (update d i (u8 value)) (i + 1) (value >>> 8) j)

get_priorities-same :
    (n : ℕ) (d d' : ℕ → ℕ) (i value : ℕ)
    → ((j : ℕ) → j < i + n → d j ≡ d' j)
    → get_priorities n d i value ≡ get_priorities n d' i value
unfolding get_priorities
get_priorities-same zero d d' i value same = refl
get_priorities-same (suc n) d d' i value same =
    rw (same (i + n) (omega arith)) (get_priorities-same n d d' i _ (λ j lt. same j (omega arith)))

if_same :
    (c : Bool) {x x' y y' : ℕ}
    → (c ≡ true → x ≡ x')
    → y ≡ y'
    → (if c then x else y) ≡ (if c then x' else y')
if_same true e e' = e refl
if_same false e e' = e'

-- Branch by branch.
load-same : (g g' : Gic) (addr : ℕ) → SameElements g g' → Gic.load g addr ≡ Gic.load g' addr
unfolding Gic.load
load-same g g' addr s =
    if_same (addr == Gic.gicd_ctlr) (λ h. s.same_d_ctlr)
      (if_same (addr == Gic.gicd_typer) (λ h. s.same_d_typer)
        (if_same (within addr Gic.gicd_igroupr 0x7f)
          (λ h. s.same_groups (u8 ((addr - Gic.gicd_igroupr) / 32)) (ground arith))
          (if_same (within addr Gic.gicd_isenabler 0x7f)
            (λ h. s.same_enabled (u8 ((addr - Gic.gicd_isenabler) / 32)) (ground arith))
            (if_same (within addr Gic.gicd_icpendr 0x7f)
              (λ h. s.same_pending (u8 ((addr - Gic.gicd_icpendr) / 32)) (ground arith))
              (if_same (within addr gicd_ipriorityr 0x3ff)
                (λ h.
                  get_priorities-same 4 g.d_ipriorityr g'.d_ipriorityr (u8 (addr - gicd_ipriorityr))
                    0 (λ j lt. s.same_priorities j (omega arith)))
                (if_same (within addr Gic.gicd_itargetsr 0x3ff) (λ h. refl)
                  (if_same (addr == Gic.gicr_ctlr) (λ h. s.same_r_ctlr)
                    (if_same (addr == Gic.gicr_waker) (λ h. s.same_r_waker)
                      (if_same (addr == Gic.gicr_igroupr0) (λ h. s.same_r_igroupr0)
                        (if_same (addr == Gic.gicr_isenabler0) (λ h. s.same_r_isenabler0)
                          (if_same (addr == Gic.gicr_icpendr0) (λ h. s.same_r_icpendr0)
                            (if_same (within addr Gic.gicr_ipriorityr 0x1f)
                              (λ h.
                                s.same_r_priorities ((addr - Gic.gicr_ipriorityr) / 4)
                                  (ground arith))
                              (if_same (addr == Gic.gicr_igrpmodr0) (λ h. s.same_r_igrpmodr0)
                                (refl))))))))))))))

store-KeepsBeyond : (g : Gic) (addr value : ℕ) → KeepsBeyond g (Gic.store g addr value)
unfolding Gic.store
store-KeepsBeyond g addr value = record {
  groups = λ i le. ground arith;
  enabled = λ i le. ground arith;
  pending = λ i le. ground arith;
  priorities = λ i le.
      ground (arith, put_priorities-beyond 4 g.d_ipriorityr (u8 (addr - gicd_ipriorityr)) value i);
  r_priorities = λ i le. ground arith;
}

-- The arrays' bounds are kept. For every address and value, a load depends on the registers and on
-- elements within the arrays' lengths only, so that two controllers that agree there give the same;
-- and a store leaves everything beyond the arrays' lengths alone. The assertions on the indices,
-- which the build removes, are not needed.
pub accesses-in_bounds :
    (g g' : Gic) (addr value : ℕ)
    → SameElements g g'
    → (Gic.load g addr ≡ Gic.load g' addr) × KeepsBeyond g (Gic.store g addr value)
accesses-in_bounds g g' addr value same = (load-same g g' addr same, store-KeepsBeyond g addr value)
