-- ===== src/Cpu/Decode.antt =====
-- The dispatch of src/cpu.cc: `decode_start` and the decoders of the instruction groups.
pub mod Frames
pub mod Levels
use aarch64_emu.Cpu.LoadStore.Pair.{decode_ldst_register_pair}
use aarch64_emu.Base.{ℕ, ◌%◌, bit_and}
use aarch64_emu.Base.{◌||◌}
use aarch64_emu.Base.{◌>>>◌}
use aarch64_emu.Base.{ltb, leb, ◌==◌, ◌!=◌, if◌then◌else◌}
use aarch64_emu.Base.{Outcome, ok, exit, ◌>>=◌}
use aarch64_emu.Util.{shift, bit, flag}
use aarch64_emu.Cpu.{Cpu, unallocated, unsupported, increment_pc}
use aarch64_emu.Cpu.Immediate.{decode_pc_rel, decode_add_sub_imm, decode_logical_imm}
use aarch64_emu.Cpu.Immediate.{decode_move_wide_imm, decode_bitfield}
use aarch64_emu.Cpu.Register.{decode_addsub_shifted_reg, decode_addsub_extended_reg}
use aarch64_emu.Cpu.Register.{decode_logical_shifted_reg, decode_conditional_select}
use aarch64_emu.Cpu.Register.{decode_data_processing_2source, decode_data_processing_3source}
use aarch64_emu.Cpu.Register.{decode_conditional_compare_imm}
use aarch64_emu.Cpu.LoadStore.{decode_ldst_register}
use aarch64_emu.Cpu.LoadStore.{decode_ldst_load_register_literal, decode_ldst_exclusive}
use aarch64_emu.Cpu.LoadStore.{decode_ldst_ordered}
use aarch64_emu.Cpu.System.{decode_exception_generation, decode_pstate, decode_barriers}
use aarch64_emu.Cpu.System.{decode_system_register_move, decode_system_instructions}
use aarch64_emu.Cpu.Branch.{decode_conditional_branch_imm, decode_unconditional_branch_imm}
use aarch64_emu.Cpu.Branch.{decode_compare_and_branch_imm, decode_test_and_branch_imm}
use aarch64_emu.Cpu.Branch.{decode_unconditional_branch_reg}

-- The call that a group's decoder makes before `increment_pc()`. `decode_add_sub_imm_with_tags`
-- and `decode_extract` only log.
unfoldable pub dispatch_imm : ℕ → Cpu → Outcome Cpu
dispatch_imm inst c =
    let op0 = shift inst 23 25 in
    if op0 == 0
    then decode_pc_rel inst c
    else if op0 == 1
    then decode_pc_rel inst c
    else if op0 == 2
    then decode_add_sub_imm inst c
    else if op0 == 3
    then ok c
    else if op0 == 4
    then decode_logical_imm inst c
    else if op0 == 5
    then decode_move_wide_imm inst c
    else if op0 == 6
    then decode_bitfield inst c
    else ok c

unfoldable pub decode_data_processing_imm : ℕ → Cpu → Outcome Cpu
unfolding dispatch_imm
decode_data_processing_imm inst c = do c' ← dispatch_imm inst c; ok (increment_pc c')

-- The `switch` of `decode_loads_and_stores`; `op0 >> 4` of a four-bit field is 0.
unfoldable pub dispatch_ldst : ℕ → Cpu → Outcome Cpu
dispatch_ldst inst c =
    let op0 = shift inst 28 31 in
    let op2 = shift inst 23 24 in
    let op3 = shift inst 16 21 in
    let kind = bit_and op0 3 in
    if kind == 0b00
    then (if flag inst 26
        then unsupported
        else if op2 == 1
        then (if op3 >>> 5 != 0 then unsupported else decode_ldst_ordered inst c)
        else if op2 == 0
        then (if op3 >>> 5 != 0
            then (if op0 >>> 4 != 0 then decode_ldst_exclusive inst c else unsupported)
            else decode_ldst_exclusive inst c)
        else unallocated)
    else if kind == 0b01
    then (if op0 >>> 2 == 3
        then unsupported
        else if leb (shift inst 22 24) 1
        then decode_ldst_load_register_literal inst c
        else ok c)
    else if kind == 0b10
    then decode_ldst_register_pair inst c
    else decode_ldst_register inst c

unfoldable pub decode_loads_and_stores : ℕ → Cpu → Outcome Cpu
unfolding dispatch_ldst
decode_loads_and_stores inst c = do c' ← dispatch_ldst inst c; ok (increment_pc c')

unfoldable pub dispatch_reg : ℕ → Cpu → Outcome Cpu
dispatch_reg inst c =
    let op2 = shift inst 21 24 in
    if bit inst 28 == 0
    then (if ltb op2 8
        then decode_logical_shifted_reg inst c
        else if op2 % 2 == 0
        then decode_addsub_shifted_reg inst c
        else decode_addsub_extended_reg inst c)
    else if op2 == 0
    then ok c
    else if op2 == 2
    then (if bit_and (shift inst 10 15) 0x2 != 0
        then decode_conditional_compare_imm inst c
        else unsupported)
    else if op2 == 4
    then decode_conditional_select inst c
    else if op2 == 6
    then (if bit inst 30 != 0 then unsupported else decode_data_processing_2source inst c)
    else if ltb op2 8
    then unallocated
    else decode_data_processing_3source inst c

unfoldable pub decode_data_processing_reg : ℕ → Cpu → Outcome Cpu
unfolding dispatch_reg
decode_data_processing_reg inst c = do c' ← dispatch_reg inst c; ok (increment_pc c')

-- The ladder under "systems" in `decode_branches`, before `increment_pc()`.
unfoldable pub dispatch_system : ℕ → Cpu → Outcome Cpu
dispatch_system inst c =
    let place = shift inst 12 17 in
    if inst == 0xd503201f
    then ok c
    else if flag inst 20
    then decode_system_register_move inst c
    else if flag inst 19
    then decode_system_instructions inst c
    else if place == 0b110001
    then unsupported
    else if place == 0b110010
    then unsupported
    else if place == 0b110011
    then decode_barriers inst c
    else if shift inst 12 15 == 0b0100
    then decode_pstate inst c
    else unallocated

unfoldable pub decode_branches : ℕ → Cpu → Outcome Cpu
unfolding dispatch_system
decode_branches inst c =
    let op0 = shift inst 29 31 in
    let group = shift inst 24 25 in
    if op0 == 0 || op0 == 4
    then decode_unconditional_branch_imm inst c
    else if op0 == 2
    then decode_conditional_branch_imm inst c
    else if op0 == 1 || op0 == 5
    then (if bit inst 25 == 0
        then decode_compare_and_branch_imm inst c
        else decode_test_and_branch_imm inst c)
    else if op0 == 6
    then (if group == 0
        then decode_exception_generation inst c
        else if group == 1
        then (do c' ← dispatch_system inst c; ok (increment_pc c'))
        else decode_unconditional_branch_reg inst c)
    else ok c

-- The table of `decode_start`. The float group only counts on.
unfoldable pub dispatch_group : ℕ → ℕ → Cpu → Outcome Cpu
dispatch_group op1 inst c =
    if op1 == 0
    then unsupported
    else if op1 == 1
    then exit 1
    else if op1 == 2
    then unsupported
    else if op1 == 3
    then exit 1
    else if op1 == 4
    then decode_loads_and_stores inst c
    else if op1 == 5
    then decode_data_processing_reg inst c
    else if op1 == 6
    then decode_loads_and_stores inst c
    else if op1 == 7
    then ok (increment_pc c)
    else if op1 == 8
    then decode_data_processing_imm inst c
    else if op1 == 9
    then decode_data_processing_imm inst c
    else if op1 == 10
    then decode_branches inst c
    else if op1 == 11
    then decode_branches inst c
    else if op1 == 12
    then decode_loads_and_stores inst c
    else if op1 == 13
    then decode_data_processing_reg inst c
    else if op1 == 14
    then decode_loads_and_stores inst c
    else ok (increment_pc c)

unfoldable pub decode_start : ℕ → Cpu → Outcome Cpu
unfolding dispatch_group decode_data_processing_imm decode_loads_and_stores
    decode_data_processing_reg decode_branches
decode_start inst c = dispatch_group (shift inst 25 28) inst (record c { inst = inst })
