-- ===== src/Cpu/Register.antt =====
-- "Data Processing Register" of src/cpu.cc, without its dispatch.
use aarch64_emu.Base.{ℕ, ◌*◌, ◌^◌, ◌/◌, ◌%◌, bit_and, bit_or}
use aarch64_emu.Base.{true, not, ◌&&◌, ◌||◌}
use aarch64_emu.Base.{u64, not64, ◌<<<◌, ◌>>>◌, ◌+64◌, ◌-64◌}
use aarch64_emu.Base.{ltb, leb, ◌==◌, ◌!=◌, if◌then◌else◌}
use aarch64_emu.Base.{Outcome, ok, undefined}
use aarch64_emu.Util.{shift, bit, flag, mask, shift_with_type, clear_upper32, set_lower32}
use aarch64_emu.Cpu.{Cpu, unallocated, unsupported, set_xreg, check_b_flag}
use aarch64_emu.Cpu.Extend.{signed_extend, extend_value}
use aarch64_emu.Cpu.Adder.{add_imm, add_imm_s}

unfoldable pub decode_addsub_shifted_reg : ℕ → Cpu → Outcome Cpu
decode_addsub_shifted_reg inst c =
    let if_64bit = flag inst 31 in
    let if_sub = flag inst 30 in
    let if_setflag = flag inst 29 in
    let shift_type = shift inst 22 23 in
    let shift_amount = shift inst 10 15 in
    let rd = shift inst 0 4 in
    let op1 = c.xregs (shift inst 5 9) in
    let op2 = shift_with_type (c.xregs (shift inst 16 20)) shift_type shift_amount in
    let flagged = add_imm_s op1 op2 if_sub if_64bit in
    let c' = if if_setflag then record c { nzcv = flagged.1 } else c in
    let result = if if_setflag then flagged.0 else add_imm op1 op2 if_sub in
    if shift_type == 3 || (not if_64bit && leb 0b100000 shift_amount)
    then unallocated
    else if rd == 31
    then ok c'
    else ok (set_xreg c' rd (if if_64bit then result else bit_and (mask 32) result))

unfoldable pub decode_addsub_extended_reg : ℕ → Cpu → Outcome Cpu
decode_addsub_extended_reg inst c =
    let if_64bit = flag inst 31 in
    let if_sub = flag inst 30 in
    let if_setflag = flag inst 29 in
    let opt = shift inst 22 23 in
    let shift_amount = shift inst 10 12 in
    let rd = shift inst 0 4 in
    let xrm = c.xregs (shift inst 16 20) in
    let op1 = c.xregs (shift inst 5 9) in
    let op2 =
      extend_value (if opt % 4 == 3 then xrm else clear_upper32 xrm) (shift inst 13 15)
        shift_amount in
    let flagged = add_imm_s op1 op2 if_sub if_64bit in
    let c' = if if_setflag then record c { nzcv = flagged.1 } else c in
    let result = if if_setflag then flagged.0 else add_imm op1 op2 if_sub in
    if opt != 0 || ltb 4 shift_amount
    then unallocated
    else if rd != 31
    then ok (set_xreg c' rd (if if_64bit then result else set_lower32 (c.xregs rd) result))
    else ok c'

-- `decode_logical_shifted_reg` once `op2` is shifted and perhaps inverted.
unfoldable pub logical_shifted : ℕ → Cpu → ℕ → Outcome Cpu
logical_shifted inst c op2 =
    let opc = shift inst 29 30 in
    let if_64bit = flag inst 31 in
    let rn = shift inst 5 9 in
    let rd = shift inst 0 4 in
    let op1 = if rn == 31 then 0 else c.xregs rn in
    let either = bit_or op1 op2 in
    let both = bit_and op1 op2 in
    let merged = bit_or (bit_and (not64 (mask 32)) (c.xregs rd)) (bit_and (mask 32) either) in
    let flags = record c { nzcv = record (c.nzcv) { n = bit both 63 != 0; z = both == 0 } } in
    if opc == 0
    then ok (set_xreg c rd both)
    else if opc == 1
    then (if shift inst 22 23 == 0 && (shift inst 10 15 == 0 && rn == 31)
        then ok (set_xreg c rd op2)
        else ok (set_xreg c rd (if if_64bit then either else merged)))
    else if opc == 3
    then (if flag inst 21
        then unsupported
        else ok (set_xreg flags rd (if if_64bit then both else bit_and both (mask 32))))
    else unsupported

unfoldable pub decode_logical_shifted_reg : ℕ → Cpu → Outcome Cpu
unfolding logical_shifted
decode_logical_shifted_reg inst c =
    let type = shift inst 22 23 in
    let imm6 = shift inst 10 15 in
    let xrm = c.xregs (shift inst 16 20) in
    let invert = λ (x : ℕ). if flag inst 21 then not64 x else x in
    if type == 0
    then logical_shifted inst c (invert (xrm <<< imm6))
    else if type == 1
    then logical_shifted inst c (invert (xrm >>> imm6))
    else unsupported

unfoldable pub decode_conditional_select : ℕ → Cpu → Outcome Cpu
decode_conditional_select inst c =
    let op1 = bit inst 30 in
    let op2 = shift inst 10 11 in
    let rd = shift inst 0 4 in
    let xrn = c.xregs (shift inst 5 9) in
    let xrm = c.xregs (shift inst 16 20) in
    let holds = check_b_flag (shift inst 12 15) c.nzcv in
    if flag inst 29 || leb 2 op2
    then unallocated
    else if op1 == 0
    then (if op2 == 0
        then ok (set_xreg c rd (if holds then xrn else xrm))
        else ok (set_xreg c rd (if holds then xrn else xrm +64 1)))
    else if op2 == 0
    then ok (set_xreg c rd (if holds then xrn else not64 xrm))
    else ok (set_xreg c rd (if holds then xrn else not64 xrm +64 1))

-- The divisions test the register's number and not its value; a division by 0 is undefined.
unfoldable pub decode_data_processing_2source : ℕ → Cpu → Outcome Cpu
decode_data_processing_2source inst c =
    let sf = flag inst 31 in
    let rm = shift inst 16 20 in
    let opcode = shift inst 10 15 in
    let rd = shift inst 0 4 in
    let xrn = c.xregs (shift inst 5 9) in
    let xrm = c.xregs rm in
    let result = xrn / xrm in
    let low = bit_and result (mask 32) in
    if opcode == 0b000010
    then (if rm == 0
        then ok (set_xreg c rd 0)
        else if xrm == 0
        then undefined
        else ok (set_xreg c rd (if sf then result else low)))
    else if opcode == 0b000011
    then (if rm == 0
        then ok (set_xreg c rd 0)
        else if xrm == 0
        then undefined
        else ok (set_xreg c rd (if sf then result else signed_extend low 31)))
    else if opcode == 0b001000
    then unsupported
    else if opcode == 0b001001
    then ok (set_xreg c rd (xrn >>> xrm % (if sf then 64 else 32)))
    else unsupported

unfoldable pub decode_data_processing_3source : ℕ → Cpu → Outcome Cpu
decode_data_processing_3source inst c =
    let op = bit_or (bit_or (shift inst 29 30 * 2 ^ 4) (shift inst 21 23 * 2)) (bit inst 15) in
    let operand1 = c.xregs (shift inst 5 9) in
    let operand2 = c.xregs (shift inst 16 20) in
    let operand3 = c.xregs (shift inst 10 14) in
    let rd = shift inst 0 4 in
    let finish =
      λ (result : ℕ). set_xreg c rd (if flag inst 31 then result else bit_and result (mask 32)) in
    if op == 0
    then ok (finish (operand3 +64 u64 (operand1 * operand2)))
    else if op == 1
    then ok (finish (operand3 -64 u64 (operand1 * operand2)))
    else if op == 0b000010
    then unsupported
    else if op == 0b000011
    then unsupported
    else if op == 0b000100
    then unsupported
    else if op == 0b001010
    then unsupported
    else if op == 0b001011
    then unsupported
    else if op == 0b001100
    then unsupported
    else unallocated

unfoldable pub decode_conditional_compare_imm : ℕ → Cpu → Outcome Cpu
decode_conditional_compare_imm inst c =
    let imm = shift inst 16 20 in
    let compared = add_imm_s (c.xregs (shift inst 5 9)) imm true true in
    let given = shift inst 0 3 in
    if bit inst 30 == 0
    then unsupported
    else if check_b_flag (shift inst 12 15) c.nzcv
    then ok (record c { nzcv = compared.1 })
    else ok (record c {
      nzcv = record {
        n = bit_and given 0b1000 >>> 3 != 0;
        z = bit_and given 0b0100 >>> 2 != 0;
        c = bit_and given 0b0010 >>> 1 != 0;
        v = bit_and given 0b0001 != 0;
      };
    })
