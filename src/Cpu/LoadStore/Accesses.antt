-- ===== src/Cpu/LoadStore/Accesses.antt =====
-- The accesses of src/cpu.cc that loads and stores are made of: what they leave alone.
use aarch64_emu.Cpu.LoadStore.Pair.{int64_add, load_pair, store_pair}
use aarch64_emu.Base.{ℕ}
use aarch64_emu.Base.{Bool}
use aarch64_emu.Base.{◌+64◌}
use aarch64_emu.Base.{◌≡◌, refl, arith, >>=-eq-ok, if◌then◌else◌}
use aarch64_emu.Base.{Outcome, ok, exit, undefined, ◌>>=◌}
use aarch64_emu.Access.{MemAccessSize, word, dword, memsz_tbl}
use aarch64_emu.Util.{sign_extend}
use aarch64_emu.Bus
use aarch64_emu.Bus.{Bus}
use aarch64_emu.Mmu.{mmu_translate}
use aarch64_emu.Cpu.{Cpu, load, store, set_xreg, reg_or_sp}
use aarch64_emu.Cpu.LoadStore.{transfer, Indexing, indexed}
use aarch64_emu.Cpu.LoadStore.{unset, unsigned_offset, post_index, pre_index}

-- All of the state but the bus, the general registers and the current stack pointer is the same.
pub record KeepsSystem (c c' : Cpu) : Type 0 where
  pub same_mmu : c'.mmu ≡ c.mmu
  pub same_pc : c'.pc ≡ c.pc
  pub same_el : c'.el ≡ c.el
  pub same_nzcv : c'.nzcv ≡ c.nzcv
  pub same_vbar : c'.vbar_el1 ≡ c.vbar_el1
  pub same_sp_el0 : c'.sp_el0 ≡ c.sp_el0
  pub same_sp_el1 : c'.sp_el1 ≡ c.sp_el1
  pub same_elr : c'.elr_el1 ≡ c.elr_el1
  pub same_spsr : c'.spsr_el1 ≡ c.spsr_el1
  pub same_daif : c'.daif ≡ c.daif
  pub same_esr : c'.esr_el1 ≡ c.esr_el1
  pub same_timer : c'.timer_count ≡ c.timer_count
  pub same_current_el : c'.current_el ≡ c.current_el
  pub same_igrpen1 : c'.icc_igrpen1_el1 ≡ c.icc_igrpen1_el1
  pub same_pmr : c'.icc_pmr_el1 ≡ c.icc_pmr_el1
  pub same_sre : c'.icc_sre_el1 ≡ c.icc_sre_el1
  pub same_iar1 : c'.icc_iar1_el1 ≡ c.icc_iar1_el1
  pub same_eoir1 : c'.icc_eoir1_el1 ≡ c.icc_eoir1_el1
  pub same_ctl : c'.cntv_ctl_el0 ≡ c.cntv_ctl_el0
  pub same_frq : c'.cntfrq_el0 ≡ c.cntfrq_el0
  pub same_tval : c'.cntv_tval_el0 ≡ c.cntv_tval_el0
  pub same_inst : c'.inst ≡ c.inst

-- An access changes the bus alone.
load-bus :
    (c : Cpu) (a : ℕ) (s : MemAccessSize) {r : ℕ × Cpu}
    → load c a s ≡ ok r
    → (b : Bus) × (r.1 ≡ record c { bus = b })
unfolding load
load-bus c a s h =
    let (translated, _, h') = >>=-eq-ok (mmu_translate c.mmu c.bus a) _ h in
    let (read, _, e) = >>=-eq-ok (Bus.load translated.1 translated.0 s) _ h' in
    (read.1, ground (arith, e))

store-bus :
    (c : Cpu) (a v : ℕ) (s : MemAccessSize) {c' : Cpu}
    → store c a v s ≡ ok c'
    → (b : Bus) × (c' ≡ record c { bus = b })
unfolding store
store-bus c a v s h =
    let (translated, _, h') = >>=-eq-ok (mmu_translate c.mmu c.bus a) _ h in
    let (b, _, e) = >>=-eq-ok (Bus.store translated.1 translated.0 v s) _ h' in
    (b, ground (arith, e))

-- The state that an access leaves, or the one before it where it does not end.
abbrev after_load : Cpu → Outcome (ℕ × Cpu) → Cpu
after_load c (ok r) = r.1
after_load c (exit n) = c
after_load c undefined = c

abbrev pub after : Cpu → Outcome Cpu → Cpu
after c (ok c') = c'
after c (exit n) = c
after c undefined = c

pub load-KeepsSystem :
    (c : Cpu) (a : ℕ) (s : MemAccessSize) → KeepsSystem c (after_load c (load c a s))
load-KeepsSystem c a s = go (load c a s) refl
  where
    go : (o : Outcome (ℕ × Cpu)) → load c a s ≡ o → KeepsSystem c (after_load c o)
    go (ok r) e = ground (arith, load-bus c a s e)
    go (exit n) e = ground arith
    go undefined e = ground arith

pub store-KeepsSystem :
    (c : Cpu) (a v : ℕ) (s : MemAccessSize) → KeepsSystem c (after c (store c a v s))
store-KeepsSystem c a v s = go (store c a v s) refl
  where
    go : (o : Outcome Cpu) → store c a v s ≡ o → KeepsSystem c (after c o)
    go (ok r) e = ground (arith, store-bus c a v s e)
    go (exit n) e = ground arith
    go undefined e = ground arith

pub transfer-KeepsSystem :
    (opc size rt address : ℕ) (c : Cpu) → KeepsSystem c (after c (transfer opc size rt address c))
unfolding transfer
transfer-KeepsSystem opc size rt address c = ground (
  arith,
  store-KeepsSystem c address (c.xregs rt) (memsz_tbl size),
  load-KeepsSystem c address (memsz_tbl size),
)

pub indexed-KeepsSystem :
    (form : Indexing) (imm12 imm9 opc size rn rt : ℕ) (c : Cpu)
    → KeepsSystem c (after c (indexed form imm12 imm9 opc size rn rt c))
unfolding indexed
indexed-KeepsSystem unsigned_offset imm12 imm9 opc size rn rt c =
    transfer-KeepsSystem opc size rt _ c
indexed-KeepsSystem post_index imm12 imm9 opc size rn rt c =
    ground (arith, transfer-KeepsSystem opc size rt (reg_or_sp c rn) c)
indexed-KeepsSystem pre_index imm12 imm9 opc size rn rt c =
    ground (arith, transfer-KeepsSystem opc size rt (reg_or_sp c rn +64 sign_extend imm9 9) c)
indexed-KeepsSystem unset imm12 imm9 opc size rn rt c = ground arith

-- What comes before an access and has no state of its own.
pub >>=-KeepsSystem :
    (c : Cpu) (o : Outcome ℕ) (f : ℕ → Outcome Cpu)
    → ((a : ℕ) → KeepsSystem c (after c (f a)))
    → KeepsSystem c (after c (o >>= f))
>>=-KeepsSystem c (ok a) f keeps = keeps a
>>=-KeepsSystem c (exit n) f keeps = ground arith
>>=-KeepsSystem c undefined f keeps = ground arith

-- Two accesses, the second from the state after the first.
after-KeepsSystem :
    (c c' : Cpu) (o : Outcome Cpu)
    → KeepsSystem c c'
    → KeepsSystem c' (after c' o)
    → KeepsSystem c (after c o)
after-KeepsSystem c c' (ok a) first second = ground (arith, first, second)
after-KeepsSystem c c' (exit n) first second = ground arith
after-KeepsSystem c c' undefined first second = ground arith

-- The pair's transfers.
pub store_pair-KeepsSystem :
    (c : Cpu) (a : ℕ) (w : Bool) (rt rt2 : ℕ) → KeepsSystem c (after c (store_pair c a w rt rt2))
unfolding store_pair
store_pair-KeepsSystem c a w rt rt2 = go (store c a (c.xregs rt) size) refl
  where
    size : MemAccessSize
    size = if w then word else dword

    go :
        (o : Outcome Cpu)
        → store c a (c.xregs rt) size ≡ o
        → KeepsSystem c (after c (store_pair c a w rt rt2))
    go (ok c') e =
        let first : KeepsSystem c c' = ground (arith, e, store-KeepsSystem c a (c.xregs rt) size) in
        rw e (
          >>=-KeepsSystem c (int64_add a (if w then 4 else 8)) (λ b. store c' b (c.xregs rt2) size)
            (λ b.
              after-KeepsSystem c c' (store c' b (c.xregs rt2) size) first
                (store-KeepsSystem c' b (c.xregs rt2) size)))
    go (exit n) e = ground (arith, e)
    go undefined e = ground (arith, e)

pub load_pair-KeepsSystem :
    (c : Cpu) (a : ℕ) (w : Bool) (rt rt2 : ℕ) → KeepsSystem c (after c (load_pair c a w rt rt2))
unfolding load_pair
load_pair-KeepsSystem c a w rt rt2 = go (load c a size) refl
  where
    size : MemAccessSize
    size = if w then word else dword

    second :
        (c' : Cpu) (b : ℕ)
        → KeepsSystem c c'
        → KeepsSystem c (after c (load c' b size >>= λ read. ok (set_xreg read.1 rt2 read.0)))
    second c' b first = ground (arith, first, load-KeepsSystem c' b size)

    go :
        (o : Outcome (ℕ × Cpu))
        → load c a size ≡ o
        → KeepsSystem c (after c (load_pair c a w rt rt2))
    go (ok r) e =
        let first : KeepsSystem c (set_xreg r.1 rt r.0) =
          ground (arith, e, load-KeepsSystem c a size) in
        rw e (
          >>=-KeepsSystem c (int64_add a (if w then 4 else 8))
            (λ b. load (set_xreg r.1 rt r.0) b size >>= λ read. ok (set_xreg read.1 rt2 read.0))
            (λ b. second (set_xreg r.1 rt r.0) b first))
    go (exit n) e = ground (arith, e)
    go undefined e = ground (arith, e)
