-- ===== src/Cpu/Decode/Frames.antt =====
-- Data processing instructions of src/cpu.cc touch registers and flags only.
use aarch64_emu.Base.{ℕ}
use aarch64_emu.Base.{◌+64◌}
use aarch64_emu.Base.{◌≡◌, arith, >>=-eq-ok}
use aarch64_emu.Base.{ok}
use aarch64_emu.Util.{shift, bit}
use aarch64_emu.Cpu.{Cpu}
use aarch64_emu.Cpu.Immediate.{decode_pc_rel, decode_add_sub_imm, decode_logical_imm}
use aarch64_emu.Cpu.Immediate.{decode_move_wide_imm, decode_bitfield, decode_bit_masks}
use aarch64_emu.Cpu.Register.{decode_addsub_shifted_reg, decode_addsub_extended_reg}
use aarch64_emu.Cpu.Register.{decode_logical_shifted_reg, decode_conditional_select}
use aarch64_emu.Cpu.Register.{decode_data_processing_2source, decode_data_processing_3source}
use aarch64_emu.Cpu.Register.{decode_conditional_compare_imm}
use aarch64_emu.Cpu.Decode.{
  dispatch_imm, dispatch_reg, decode_data_processing_imm, decode_data_processing_reg,
}

-- All of the state but the general registers, the current stack pointer and the flags is the same.
pub record OnlyRegisters (c c' : Cpu) : Type 0 where
  pub same_bus : c'.bus ≡ c.bus
  pub same_mmu : c'.mmu ≡ c.mmu
  pub same_pc : c'.pc ≡ c.pc
  pub same_el : c'.el ≡ c.el
  pub same_vbar : c'.vbar_el1 ≡ c.vbar_el1
  pub same_sp_el0 : c'.sp_el0 ≡ c.sp_el0
  pub same_sp_el1 : c'.sp_el1 ≡ c.sp_el1
  pub same_elr : c'.elr_el1 ≡ c.elr_el1
  pub same_spsr : c'.spsr_el1 ≡ c.spsr_el1
  pub same_esr : c'.esr_el1 ≡ c.esr_el1
  pub same_daif : c'.daif ≡ c.daif
  pub same_timer : c'.timer_count ≡ c.timer_count
  pub same_current_el : c'.current_el ≡ c.current_el
  pub same_igrpen1 : c'.icc_igrpen1_el1 ≡ c.icc_igrpen1_el1
  pub same_pmr : c'.icc_pmr_el1 ≡ c.icc_pmr_el1
  pub same_sre : c'.icc_sre_el1 ≡ c.icc_sre_el1
  pub same_iar1 : c'.icc_iar1_el1 ≡ c.icc_iar1_el1
  pub same_eoir1 : c'.icc_eoir1_el1 ≡ c.icc_eoir1_el1
  pub same_ctl : c'.cntv_ctl_el0 ≡ c.cntv_ctl_el0
  pub same_frq : c'.cntfrq_el0 ≡ c.cntfrq_el0
  pub same_tval : c'.cntv_tval_el0 ≡ c.cntv_tval_el0
  pub same_inst : c'.inst ≡ c.inst

module _ (inst : ℕ) (c : Cpu) {c' : Cpu} where
  decode_pc_rel-OnlyRegisters : decode_pc_rel inst c ≡ ok c' → OnlyRegisters c c'
  unfolding decode_pc_rel
  decode_pc_rel-OnlyRegisters h = ground arith

  decode_add_sub_imm-OnlyRegisters : decode_add_sub_imm inst c ≡ ok c' → OnlyRegisters c c'
  unfolding decode_add_sub_imm
  decode_add_sub_imm-OnlyRegisters h = ground arith

  decode_move_wide_imm-OnlyRegisters : decode_move_wide_imm inst c ≡ ok c' → OnlyRegisters c c'
  unfolding decode_move_wide_imm
  decode_move_wide_imm-OnlyRegisters h = ground arith

  decode_bitfield-OnlyRegisters : decode_bitfield inst c ≡ ok c' → OnlyRegisters c c'
  unfolding decode_bitfield
  decode_bitfield-OnlyRegisters h = ground arith

  decode_addsub_shifted_reg-OnlyRegisters :
      decode_addsub_shifted_reg inst c ≡ ok c' → OnlyRegisters c c'
  unfolding decode_addsub_shifted_reg
  decode_addsub_shifted_reg-OnlyRegisters h = ground arith

  decode_addsub_extended_reg-OnlyRegisters :
      decode_addsub_extended_reg inst c ≡ ok c' → OnlyRegisters c c'
  unfolding decode_addsub_extended_reg
  decode_addsub_extended_reg-OnlyRegisters h = ground arith

  decode_logical_shifted_reg-OnlyRegisters :
      decode_logical_shifted_reg inst c ≡ ok c' → OnlyRegisters c c'
  unfolding decode_logical_shifted_reg
  decode_logical_shifted_reg-OnlyRegisters h = ground arith

  decode_conditional_select-OnlyRegisters :
      decode_conditional_select inst c ≡ ok c' → OnlyRegisters c c'
  unfolding decode_conditional_select
  decode_conditional_select-OnlyRegisters h = ground arith

  decode_data_processing_2source-OnlyRegisters :
      decode_data_processing_2source inst c ≡ ok c' → OnlyRegisters c c'
  unfolding decode_data_processing_2source
  decode_data_processing_2source-OnlyRegisters h = ground arith

  decode_data_processing_3source-OnlyRegisters :
      decode_data_processing_3source inst c ≡ ok c' → OnlyRegisters c c'
  unfolding decode_data_processing_3source
  decode_data_processing_3source-OnlyRegisters h = ground arith

  decode_conditional_compare_imm-OnlyRegisters :
      decode_conditional_compare_imm inst c ≡ ok c' → OnlyRegisters c c'
  unfolding decode_conditional_compare_imm
  decode_conditional_compare_imm-OnlyRegisters h = ground arith

  decode_logical_imm-OnlyRegisters : decode_logical_imm inst c ≡ ok c' → OnlyRegisters c c'
  unfolding decode_logical_imm
  decode_logical_imm-OnlyRegisters h =
      let (imm, _, rest) =
        >>=-eq-ok (decode_bit_masks (bit inst 22) (shift inst 10 15) (shift inst 16 21)) _ h in
      ground (arith, rest)

  dispatch_imm-OnlyRegisters : dispatch_imm inst c ≡ ok c' → OnlyRegisters c c'
  unfolding dispatch_imm
  dispatch_imm-OnlyRegisters h = ground (
    arith, decode_pc_rel-OnlyRegisters, decode_add_sub_imm-OnlyRegisters,
    decode_logical_imm-OnlyRegisters, decode_move_wide_imm-OnlyRegisters,
    decode_bitfield-OnlyRegisters,
  )

  dispatch_reg-OnlyRegisters : dispatch_reg inst c ≡ ok c' → OnlyRegisters c c'
  unfolding dispatch_reg
  dispatch_reg-OnlyRegisters h = ground (
    arith, decode_addsub_shifted_reg-OnlyRegisters, decode_addsub_extended_reg-OnlyRegisters,
    decode_logical_shifted_reg-OnlyRegisters, decode_conditional_select-OnlyRegisters,
    decode_data_processing_2source-OnlyRegisters, decode_data_processing_3source-OnlyRegisters,
    decode_conditional_compare_imm-OnlyRegisters,
  )

-- Every instruction of the "data processing (immediate)" group that completes advances the program
-- counter by 4, and changes nothing else but general registers, the stack pointer and the flags.
pub decode_data_processing_imm-OnlyRegisters :
    (inst : ℕ) (c c' : Cpu)
    → decode_data_processing_imm inst c ≡ ok c'
    → (c'.pc ≡ c.pc +64 4) × OnlyRegisters c (record c' { pc = c.pc })
unfolding decode_data_processing_imm
decode_data_processing_imm-OnlyRegisters inst c c' h =
    let (mid, done, rest) = >>=-eq-ok (dispatch_imm inst c) _ h in
    ground (arith, rest, dispatch_imm-OnlyRegisters inst c done)

-- Every instruction of the "data processing (register)" group that completes advances the program
-- counter by 4, and changes nothing else but general registers, the stack pointer and the flags.
pub decode_data_processing_reg-OnlyRegisters :
    (inst : ℕ) (c c' : Cpu)
    → decode_data_processing_reg inst c ≡ ok c'
    → (c'.pc ≡ c.pc +64 4) × OnlyRegisters c (record c' { pc = c.pc })
unfolding decode_data_processing_reg
decode_data_processing_reg-OnlyRegisters inst c c' h =
    let (mid, done, rest) = >>=-eq-ok (dispatch_reg inst c) _ h in
    ground (arith, rest, dispatch_reg-OnlyRegisters inst c done)
