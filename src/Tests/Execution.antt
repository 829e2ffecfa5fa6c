-- ===== src/Tests/Execution.antt =====
-- Tests and witnesses for the processor: adders, branches, exceptions and whole instructions.
use aarch64_emu.Base.{◌+◌, ◌-◌, ◌^◌, arith, refl, ◌≡◌, inl, inr, ok, update, true, false}
use aarch64_emu.Base.{◌+64◌, ◌==◌}
use aarch64_emu.Util.{shift, bit, flag, mask}
use aarch64_emu.Util.Signs.{sign_value}
use aarch64_emu.Cpu.{Cpu, check_b_flag}
use aarch64_emu.Cpu.Adder.{add_imm, add_imm_s, sum32, sum64}
use aarch64_emu.Cpu.Adder.Flags.{add_imm_difference, sum32_lem, sum64_lem}
use aarch64_emu.Cpu.Adder.Compare.{IsComparison, compare32, compare64, compare64_signed}
use aarch64_emu.Cpu.Interrupt.{cause_interrupt}
use aarch64_emu.Cpu.System.{svc}
use aarch64_emu.Cpu.System.Exceptions.{eret-svc, eret-cause_interrupt, eret-cause_interrupt_kernel}
use aarch64_emu.Cpu.Branch.{
  eret, decode_unconditional_branch_imm, decode_conditional_branch_imm,
  decode_compare_and_branch_imm, decode_test_and_branch_imm,
}
use aarch64_emu.Cpu.Branch.Targets.{
  branch_immediate, branch_conditional, branch_compare, branch_test,
}
use aarch64_emu.Cpu.Decode.{
  decode_data_processing_imm, decode_data_processing_reg, decode_loads_and_stores,
}
use aarch64_emu.Cpu.Decode.Frames.{
  OnlyRegisters, decode_data_processing_imm-OnlyRegisters, decode_data_processing_reg-OnlyRegisters,
}
use aarch64_emu.Cpu.LoadStore.{indexing, unset}
use aarch64_emu.Cpu.LoadStore.Accesses.{KeepsSystem}
use aarch64_emu.Cpu.LoadStore.Frames.{decode_loads_and_stores-KeepsSystem}
use aarch64_emu.Cpu.LoadStore.Unsigned.{
  decode_ldst_reg_unsigned_imm, decode_ldst_reg_unsigned_imm-eq,
}
use aarch64_emu.Cpu.LoadStore.{decode_ldst_reg_immediate}
use aarch64_emu.Base.{◌≤◌}
use aarch64_emu.Cpu.Immediate.Replicate.{replicate_ends}
use aarch64_emu.Cpu.Immediate.{decode_move_wide_imm, bitfield_replicate}
use aarch64_emu.Cpu.Immediate.Wide.{move_wide}
use aarch64_emu.Tests.Machine.{small_cpu}

compare32_example :
    IsComparison
      (λ cond. check_b_flag cond (add_imm_s 5 (2 ^ 32 - 1) true false).1)
      5
      (2 ^ 32 - 1)
      (5 + 2 ^ 31)
      (2 ^ 31 - 1)
compare32_example = compare32 5 (2 ^ 32 - 1)

compare64_example :
    (check_b_flag 0 (add_imm_s 5 3 true true).1 ≡ false)
    × (check_b_flag 1 (add_imm_s 5 3 true true).1 ≡ true)
    × (check_b_flag 2 (add_imm_s 5 3 true true).1 ≡ true)
    × (check_b_flag 3 (add_imm_s 5 3 true true).1 ≡ false)
compare64_example = compare64 5 3 (omega arith) (omega arith)

compare64_signed_example :
    (check_b_flag 10 (add_imm_s 5 3 true true).1 ≡ false)
    × (check_b_flag 11 (add_imm_s 5 3 true true).1 ≡ true)
    × (check_b_flag 12 (add_imm_s 5 3 true true).1 ≡ false)
    × (check_b_flag 13 (add_imm_s 5 3 true true).1 ≡ true)
compare64_signed_example = compare64_signed 5 3 (omega arith) (omega arith)

-- 2 ^ 31 - 1 and 1 overflow as signed 32-bit numbers.
sum32_lem_example :
    ((sum32 (2 ^ 31 - 1) 1 0).0 ≡ 2 ^ 31)
    × ((sum32 (2 ^ 31 - 1) 1 0).1.n ≡ true)
    × ((sum32 (2 ^ 31 - 1) 1 0).1.z ≡ ((sum32 (2 ^ 31 - 1) 1 0).0 == 0))
    × ((sum32 (2 ^ 31 - 1) 1 0).1.c ≡ false)
    × ((sum32 (2 ^ 31 - 1) 1 0).1.v ≡ true)
unfolding sum32 mask
sum32_lem_example = sum32_lem (2 ^ 31 - 1) 1 0 (omega arith) (omega arith) (omega arith)

-- The carry of 2 ^ 64 - 1 and 2 ^ 64 - 1 is lost.
sum64_lem_example :
    ((sum64 (2 ^ 64 - 1) (2 ^ 64 - 1) 0).0 ≡ 2 ^ 64 - 2)
    × ((sum64 (2 ^ 64 - 1) (2 ^ 64 - 1) 0).1.n ≡ true)
    × ((sum64 (2 ^ 64 - 1) (2 ^ 64 - 1) 0).1.z ≡ ((sum64 (2 ^ 64 - 1) (2 ^ 64 - 1) 0).0 == 0))
    × ((sum64 (2 ^ 64 - 1) (2 ^ 64 - 1) 0).1.c ≡ false)
    × ((sum64 (2 ^ 64 - 1) (2 ^ 64 - 1) 0).1.v ≡ false)
unfolding sum64 bit
sum64_lem_example = sum64_lem (2 ^ 64 - 1) (2 ^ 64 - 1) 0 (omega arith) (omega arith) (omega arith)

add_imm_difference_example : add_imm 3 5 true ≡ 2 ^ 64 - 2
add_imm_difference_example = add_imm_difference 3 5 (omega arith)

abbrev after_svc : Cpu
after_svc = eret (svc small_cpu)

eret-svc_example :
    ((svc small_cpu).el ≡ 1)
    × ((svc small_cpu).pc ≡ 0x40000c00)
    × ((svc small_cpu).sp ≡ 0x40002000)
    × (after_svc.el ≡ 0)
    × (after_svc.sp ≡ 0x40003000)
    × (after_svc.pc ≡ 0x40000104)
    × (after_svc.xregs ≡ small_cpu.xregs)
    × (after_svc.nzcv ≡ small_cpu.nzcv)
    × (after_svc.sp_el1 ≡ 0x40002000)
    × (after_svc.bus ≡ small_cpu.bus)
eret-svc_example = eret-svc small_cpu refl

abbrev interrupted : Cpu
interrupted = cause_interrupt small_cpu 33

abbrev after_irq : Cpu
after_irq = eret interrupted

eret-cause_interrupt_example :
    (interrupted.el ≡ 1)
    × (interrupted.pc ≡ 0x40000c80)
    × (interrupted.sp ≡ 0x40002000)
    × (interrupted.icc_iar1_el1 ≡ 33)
    × (after_irq.el ≡ 0)
    × (after_irq.sp ≡ 0x40003000)
    × (after_irq.pc ≡ 0x40000100)
    × (after_irq.xregs ≡ small_cpu.xregs)
    × (after_irq.nzcv ≡ small_cpu.nzcv)
    × (after_irq.sp_el1 ≡ 0x40002000)
    × (after_irq.bus ≡ small_cpu.bus)
eret-cause_interrupt_example = eret-cause_interrupt small_cpu 33 refl

abbrev kernel_cpu : Cpu
kernel_cpu = record small_cpu { el = 1; pc = 2 ^ 63 + 256 }

abbrev in_kernel : Cpu
in_kernel = cause_interrupt kernel_cpu 33

abbrev after_kernel : Cpu
after_kernel = eret in_kernel

eret-cause_interrupt_kernel_example :
    (in_kernel.el ≡ 1)
    × (in_kernel.pc ≡ 0x40000a80)
    × (in_kernel.sp ≡ 0x40003000)
    × (after_kernel.el ≡ 1)
    × (after_kernel.sp ≡ 0x40003000)
    × (after_kernel.pc ≡ 2 ^ 63 + 256)
    × (after_kernel.xregs ≡ small_cpu.xregs)
eret-cause_interrupt_kernel_example =
    eret-cause_interrupt_kernel kernel_cpu 33 refl (omega arith) (omega arith)

-- B .+8, B.EQ .+8 that is not taken, CBZ x0, .+8 with x0 = 7, and TBZ x0, #0, .+8.
branch_immediate_example :
    decode_unconditional_branch_imm 0x14000002 small_cpu ≡ ok (record small_cpu { pc = 0x40000108 })
unfolding sign_value
branch_immediate_example = branch_immediate 0x14000002 small_cpu (omega arith)

branch_conditional_example :
    decode_conditional_branch_imm 0x54000040 small_cpu ≡ ok (record small_cpu { pc = 0x40000104 })
unfolding check_b_flag
branch_conditional_example = branch_conditional 0x54000040 small_cpu refl refl

branch_compare_example :
    decode_compare_and_branch_imm 0xb4000040 small_cpu ≡ ok (record small_cpu { pc = 0x40000104 })
branch_compare_example = branch_compare 0xb4000040 small_cpu

branch_test_example :
    decode_test_and_branch_imm 0x36000040 small_cpu ≡ ok (record small_cpu { pc = 0x40000104 })
branch_test_example = branch_test 0x36000040 small_cpu

-- ADD x0, x1, #1
abbrev after_add_imm : Cpu
after_add_imm = record small_cpu { pc = 0x40000104; xregs = update small_cpu.xregs 0 9 }

run_add_imm : decode_data_processing_imm 0x91000420 small_cpu ≡ ok after_add_imm
unfolding decode_data_processing_imm shift aarch64_emu.Cpu.Immediate.decode_add_sub_imm bit add_imm
run_add_imm = refl

decode_data_processing_imm-OnlyRegisters_example :
    (after_add_imm.pc ≡ small_cpu.pc +64 4)
    × OnlyRegisters small_cpu (record after_add_imm { pc = small_cpu.pc })
decode_data_processing_imm-OnlyRegisters_example =
    decode_data_processing_imm-OnlyRegisters 0x91000420 small_cpu after_add_imm run_add_imm

-- ADD x0, x1, x2
abbrev after_add_reg : Cpu
after_add_reg = record small_cpu { pc = 0x40000104; xregs = update small_cpu.xregs 0 17 }

run_add_reg : decode_data_processing_reg 0x8b020020 small_cpu ≡ ok after_add_reg
unfolding decode_data_processing_reg bit shift aarch64_emu.Cpu.Register.decode_addsub_shifted_reg
    add_imm aarch64_emu.Util.shift_with_type
run_add_reg = refl

decode_data_processing_reg-OnlyRegisters_example :
    (after_add_reg.pc ≡ small_cpu.pc +64 4)
    × OnlyRegisters small_cpu (record after_add_reg { pc = small_cpu.pc })
decode_data_processing_reg-OnlyRegisters_example =
    decode_data_processing_reg-OnlyRegisters 0x8b020020 small_cpu after_add_reg run_add_reg

-- LDR x0, [sp]
abbrev after_ldr : Cpu
after_ldr = record small_cpu { pc = 0x40000104; xregs = update small_cpu.xregs 0 0 }

run_ldr : decode_loads_and_stores 0xf94003e0 small_cpu ≡ ok after_ldr
unfolding decode_loads_and_stores shift aarch64_emu.Cpu.LoadStore.decode_ldst_register bit
    aarch64_emu.Cpu.load aarch64_emu.Mmu.mmu_translate aarch64_emu.Mmu.if_mmu_enabled
    aarch64_emu.Bus.load aarch64_emu.Mem.load64 aarch64_emu.Util.zero_extend
run_ldr = refl

decode_loads_and_stores-KeepsSystem_example :
    (after_ldr.pc ≡ small_cpu.pc +64 4)
    × KeepsSystem small_cpu (record after_ldr { pc = small_cpu.pc })
decode_loads_and_stores-KeepsSystem_example =
    decode_loads_and_stores-KeepsSystem 0xf94003e0 small_cpu after_ldr run_ldr

-- LDR x0, [sp].
decode_ldst_reg_unsigned_imm-eq_example :
    decode_ldst_reg_unsigned_imm 0xf94003e0 small_cpu
    ≡ decode_ldst_reg_immediate 0xf94003e0 small_cpu
unfolding bit shift
decode_ldst_reg_unsigned_imm-eq_example =
    decode_ldst_reg_unsigned_imm-eq 0xf94003e0 small_cpu (omega arith) (inr (refl, omega arith))

-- MOVZ x0, #0x1234, LSL #16
move_wide_example :
    decode_move_wide_imm 0xd2a24680 small_cpu
    ≡ ok (record small_cpu { xregs = update small_cpu.xregs 0 0x12340000 })
move_wide_example = move_wide 0xd2a24680 small_cpu (omega arith) (inl refl) (λ e. omega arith)

-- A period of 2 doubles to 64 in five rounds.
replicate_ends_example :
    (64 ≤ (bitfield_replicate 7 1 2).1)
    × (bitfield_replicate (7 + 5) 1 2 ≡ bitfield_replicate 7 1 2)
replicate_ends_example = replicate_ends 5 1 2 (omega arith) (omega arith)
