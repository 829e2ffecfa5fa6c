-- ===== src/Cpu/Decode/Levels.antt =====
-- The exception level of src/cpu.cc over every instruction: it stays 0 or 1.
use aarch64_emu.Base.{
  Bool, true, false, ℕ, ◌≡◌, ◌≤◌, arith, refl, ok, Option, none, some, ◌==◌, if◌then◌else◌, ◌>>=◌,
  >>=-eq-ok,
}
use aarch64_emu.Util.{shift, flag}
use aarch64_emu.Cpu.{Cpu, increment_pc, unsupported}
use aarch64_emu.Cpu.Branch.{
  eret, ret, decode_conditional_branch_imm, decode_unconditional_branch_imm,
  decode_compare_and_branch_imm, decode_test_and_branch_imm, decode_unconditional_branch_reg,
}
use aarch64_emu.Cpu.System.{
  svc, decode_exception_generation, decode_pstate, decode_barriers, SysReg, move_both, find_el0_reg,
  find_el1_reg, decode_system_register_move, decode_system_instructions,
}
use aarch64_emu.Cpu.System.{
  sctlr_el1, ttbr0_el1, ttbr1_el1, tcr_el1, elr_el1, sp_el0, esr_el1, daif, cntv_ctl_el0, mpidr_el1,
  spsr_el1, current_el, icc_pmr_el1, mair_el1, vbar_el1, icc_iar1_el1, icc_eoir1_el1, icc_sre_el1,
  icc_igrpen1_el1, cntfrq_el0, cntv_tval_el0,
}
use aarch64_emu.Cpu.Decode.{dispatch_system, decode_branches, dispatch_group, decode_start}
use aarch64_emu.Cpu.Decode.Frames.{
  decode_data_processing_imm-OnlyRegisters, decode_data_processing_reg-OnlyRegisters,
}
use aarch64_emu.Cpu.LoadStore.Frames.{decode_loads_and_stores-KeepsSystem}

-- A system register move does not reach the level.
move_both-level : (r : SysReg) (get : Bool) (rt : ℕ) (c : Cpu) → (move_both r get rt c).el ≡ c.el
unfolding move_both
move_both-level sctlr_el1 true rt c = refl
move_both-level sctlr_el1 false rt c = refl
move_both-level ttbr0_el1 true rt c = refl
move_both-level ttbr0_el1 false rt c = refl
move_both-level ttbr1_el1 true rt c = refl
move_both-level ttbr1_el1 false rt c = refl
move_both-level tcr_el1 true rt c = refl
move_both-level tcr_el1 false rt c = refl
move_both-level elr_el1 true rt c = refl
move_both-level elr_el1 false rt c = refl
move_both-level sp_el0 true rt c = refl
move_both-level sp_el0 false rt c = refl
move_both-level esr_el1 true rt c = refl
move_both-level esr_el1 false rt c = refl
move_both-level daif true rt c = refl
move_both-level daif false rt c = refl
move_both-level cntv_ctl_el0 true rt c = refl
move_both-level cntv_ctl_el0 false rt c = refl
move_both-level mpidr_el1 get rt c = refl
move_both-level spsr_el1 get rt c = refl
move_both-level current_el get rt c = refl
move_both-level icc_pmr_el1 get rt c = refl
move_both-level mair_el1 get rt c = refl
move_both-level vbar_el1 get rt c = refl
move_both-level icc_iar1_el1 get rt c = refl
move_both-level icc_eoir1_el1 get rt c = refl
move_both-level icc_sre_el1 get rt c = refl
move_both-level icc_igrpen1_el1 get rt c = refl
move_both-level cntfrq_el0 get rt c = refl
move_both-level cntv_tval_el0 get rt c = refl

moved-level :
    (found : Option SysReg) (get : Bool) (rt : ℕ) (c : Cpu) {c' : Cpu}
    → (elim found [ none ↦ unsupported | some r ↦ ok (move_both r get rt c) ]) ≡ ok c'
    → c'.el ≡ c.el
moved-level none get rt c h = cc
moved-level (some r) get rt c h = ground (arith, move_both-level r get rt c)

module _ (inst : ℕ) (c : Cpu) (low : c.el ≤ 1) {c' : Cpu} where
  branch_imm-level : decode_unconditional_branch_imm inst c ≡ ok c' → c'.el ≤ 1
  unfolding decode_unconditional_branch_imm
  branch_imm-level h = ground arith

  conditional-level : decode_conditional_branch_imm inst c ≡ ok c' → c'.el ≤ 1
  unfolding decode_conditional_branch_imm
  conditional-level h = ground arith

  compare-level : decode_compare_and_branch_imm inst c ≡ ok c' → c'.el ≤ 1
  unfolding decode_compare_and_branch_imm
  compare-level h = ground arith

  test-level : decode_test_and_branch_imm inst c ≡ ok c' → c'.el ≤ 1
  unfolding decode_test_and_branch_imm
  test-level h = ground arith

  branch_reg-level : decode_unconditional_branch_reg inst c ≡ ok c' → c'.el ≤ 1
  unfolding decode_unconditional_branch_reg eret ret
  branch_reg-level h = ground arith

  exception-level : decode_exception_generation inst c ≡ ok c' → c'.el ≤ 1
  unfolding decode_exception_generation svc
  exception-level h = ground arith

  register_move-level : decode_system_register_move inst c ≡ ok c' → c'.el ≤ 1
  unfolding decode_system_register_move
  register_move-level h =
      let o1 = shift inst 16 18 in
      let crn = shift inst 12 15 in
      let crm = shift inst 8 11 in
      let op2 = shift inst 5 7 in
      let found =
        if o1 == 0
        then find_el1_reg crn crm op2
        else if o1 == 3
        then find_el0_reg crn crm op2
        else none in
      ground (arith, moved-level found (flag inst 21) (shift inst 0 4) c {c' = c'})

  instructions-level : decode_system_instructions inst c ≡ ok c' → c'.el ≤ 1
  unfolding decode_system_instructions
  instructions-level h = ground arith

  barriers-level : decode_barriers inst c ≡ ok c' → c'.el ≤ 1
  unfolding decode_barriers
  barriers-level h = ground arith

  pstate-level : decode_pstate inst c ≡ ok c' → c'.el ≤ 1
  unfolding decode_pstate
  pstate-level h = ground arith

  system-level : dispatch_system inst c ≡ ok c' → c'.el ≤ 1
  unfolding dispatch_system
  system-level h =
      ground (arith, register_move-level, instructions-level, barriers-level, pstate-level)

-- The system instructions count on behind their work.
counted-level :
    (inst : ℕ) (c : Cpu)
    → c.el ≤ 1
    → {c' : Cpu} → (dispatch_system inst c >>= λ mid. ok (increment_pc mid)) ≡ ok c'
    → c'.el ≤ 1
counted-level inst c low h =
    let (mid, done, rest) = >>=-eq-ok (dispatch_system inst c) _ h in
    ground (arith, rest, system-level inst c low done)

module _ (inst : ℕ) (c : Cpu) (low : c.el ≤ 1) {c' : Cpu} where
  branches-level : decode_branches inst c ≡ ok c' → c'.el ≤ 1
  unfolding decode_branches
  branches-level h = ground (
    arith,
    counted-level inst c low {c' = c'},
    branch_imm-level inst c low {c' = c'},
    conditional-level inst c low {c' = c'},
    compare-level inst c low {c' = c'},
    test-level inst c low {c' = c'},
    exception-level inst c low {c' = c'},
    branch_reg-level inst c low {c' = c'},
  )

  group-level : (op1 : ℕ) → dispatch_group op1 inst c ≡ ok c' → c'.el ≤ 1
  unfolding dispatch_group
  group-level op1 h = ground (
    arith,
    branches-level,
    decode_data_processing_imm-OnlyRegisters inst c c',
    decode_data_processing_reg-OnlyRegisters inst c c',
    decode_loads_and_stores-KeepsSystem inst c c',
  )

-- Every instruction that completes from exception level 0 or 1 leaves the processor at level 0 or 1.
pub decode_start-level :
    (inst : ℕ) (c c' : Cpu) → c.el ≤ 1 → decode_start inst c ≡ ok c' → c'.el ≤ 1
unfolding decode_start
decode_start-level inst c c' low h =
    group-level inst (record c { inst = inst }) low (shift inst 25 28) h
