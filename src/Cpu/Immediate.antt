-- ===== src/Cpu/Immediate.antt =====
-- "Data Processing Immediate" of src/cpu.cc, without its dispatch.
pub mod Wide
pub mod Replicate
use aarch64_emu.Base.{ℕ, zero, suc, ◌+◌, ◌-◌, ◌*◌, ◌^◌, bit_and, bit_or, bit_xor}
use aarch64_emu.Base.{Bool, true, false, not, ◌&&◌, ◌||◌}
use aarch64_emu.Base.{u8, u32, not64, not32, ◌<<<◌, ◌>>>◌, ◌+64◌}
use aarch64_emu.Base.{ltb, leb, ◌==◌, ◌!=◌, if◌then◌else◌}
use aarch64_emu.Base.{Outcome, ok, undefined, ◌>>=◌}
use aarch64_emu.Util.{shift, bit, flag, mask, sign_extend}
use aarch64_emu.Cpu.{Cpu, unallocated, set_xreg, reg_or_sp}
use aarch64_emu.Cpu.Extend.{signed_extend}
use aarch64_emu.Cpu.Adder.{add_imm, add_imm_s}

unfoldable pub decode_pc_rel : ℕ → Cpu → Outcome Cpu
decode_pc_rel inst c =
    let immlo = shift inst 29 30 in
    let immhi = shift inst 5 23 in
    let rd = shift inst 0 4 in
    let page = sign_extend (bit_or (immhi <<< 14) (immlo <<< 12)) 33 in
    if bit inst 31 == 0
    then ok (set_xreg c rd (c.pc +64 bit_or (immhi <<< 2) immlo))
    else ok (set_xreg c rd (bit_and c.pc (not64 (mask 12)) +64 page))

-- What the 64-bit flag keeps of a result.
abbrev pub sized : Bool → ℕ → ℕ
sized if_64bit result = if if_64bit then result else bit_and result (mask 32)

unfoldable pub decode_add_sub_imm : ℕ → Cpu → Outcome Cpu
decode_add_sub_imm inst c =
    let rd = shift inst 0 4 in
    let rn = shift inst 5 9 in
    let if_setflag = flag inst 29 in
    let if_sub = flag inst 30 in
    let if_64bit = flag inst 31 in
    let imm = if flag inst 22 then shift inst 10 21 <<< 12 else shift inst 10 21 in
    let op1 = reg_or_sp c rn in
    let flagged = add_imm_s op1 imm if_sub if_64bit in
    let c' = if if_setflag then record c { nzcv = flagged.1 } else c in
    let result = if if_setflag then flagged.0 else add_imm op1 imm if_sub in
    if rd == 31
    then (if if_setflag then ok c' else ok (record c' { sp = sized if_64bit result }))
    else ok (set_xreg c' rd (sized if_64bit result))

-- `bitmask64(len)` for a length from 1 to 64.
unfoldable pub bitmask64 : ℕ → ℕ
bitmask64 len = (2 ^ 64 - 1) >>> (64 - len)

-- The loop of `bitfield_replicate`: the pattern and its period, with fuel.
unfoldable pub bitfield_replicate : ℕ → ℕ → ℕ → ℕ × ℕ
bitfield_replicate zero pattern e = (pattern, e)
bitfield_replicate (suc fuel) pattern e = elim (ltb e 64) [
  | true ↦ bitfield_replicate fuel (bit_or pattern (pattern <<< e)) (u8 (e * 2))
  | false ↦ (pattern, e)
]

-- How many of the `w` lowest places are 0 above the highest 1.
pub leading_zeros : ℕ → ℕ → ℕ
leading_zeros zero x = 0
leading_zeros (suc w) x = let rest = leading_zeros w x in if leb (2 ^ w) x then 0 else 1 + rest

-- `decode_bit_masks`; `__builtin_clz(0)` is undefined. Seven rounds end the loop from any period.
unfoldable pub decode_bit_masks : ℕ → ℕ → ℕ → Outcome ℕ
unfolding bitmask64 bitfield_replicate leading_zeros
decode_bit_masks n imms immr =
    let pattern = bit_or (n * 2 ^ 6) (bit_and (not32 imms) 0x3f) in
    let e = 2 ^ (31 - leading_zeros 32 pattern) in
    let s = bit_and imms (e - 1) in
    let r = bit_and immr (e - 1) in
    let ones = bitmask64 (s + 1) in
    let turned = bit_and (bit_or (ones >>> r) (ones <<< (e - r))) (bitmask64 e) in
    if pattern == 0
    then undefined
    else ok (bitfield_replicate 7 (if r != 0 then turned else ones) e).0

-- `decode_logical_imm` with its fields and the decoded immediate.
unfoldable pub logical_imm : ℕ → ℕ → ℕ → Bool → ℕ → Cpu → Outcome Cpu
logical_imm opc rd rn if_64bit imm c =
    let xrn = if rn == 31 then 0 else c.xregs rn in
    let result =
      if opc == 1 then bit_or xrn imm else if opc == 2 then bit_xor xrn imm else bit_and xrn imm in
    let flags = record c {
      nzcv = record {
        n = if if_64bit then leb (2 ^ 63) result else leb (2 ^ 31) (u32 result);
        z = result == 0;
        c = false;
        v = false;
      };
    } in
    let c' = if opc == 3 then flags else c in
    if rd == 31
    then (if opc == 3 then ok c' else ok (record c' { sp = sized if_64bit result }))
    else ok (set_xreg c' rd (sized if_64bit result))

unfoldable pub decode_logical_imm : ℕ → Cpu → Outcome Cpu
unfolding logical_imm
decode_logical_imm inst c = do
  imm ← decode_bit_masks (bit inst 22) (shift inst 10 15) (shift inst 16 21)
  if not (flag inst 31) && flag inst 22
      then unallocated
      else logical_imm (shift inst 29 30) (shift inst 0 4) (shift inst 5 9) (flag inst 31) imm c

unfoldable pub decode_move_wide_imm : ℕ → Cpu → Outcome Cpu
decode_move_wide_imm inst c =
    let rd = shift inst 0 4 in
    let hw = shift inst 21 22 in
    let opc = shift inst 29 30 in
    let if_64bit = flag inst 31 in
    let place = hw * 16 in
    let imm = shift inst 5 20 <<< place in
    let old = c.xregs rd in
    let kept =
      bit_or (bit_or (bit_and old (not64 (mask (place + 16)))) imm) (bit_and old (mask place)) in
    if opc == 1 || (not if_64bit && leb 2 hw)
    then unallocated
    else if opc == 0
    then ok (set_xreg c rd (sized if_64bit (not64 imm)))
    else if opc == 2
    then ok (set_xreg c rd (sized if_64bit imm))
    else ok (set_xreg c rd kept)

-- The `switch` of `decode_bitfield`, with the source field in `imm`. `1 << to` is an `int`.
unfoldable pub bitfield_move : ℕ → ℕ → ℕ → ℕ → ℕ → Cpu → Outcome Cpu
bitfield_move opc rd imm to len c =
    let old = c.xregs rd in
    if opc == 0
    then ok (set_xreg c rd (signed_extend imm (to + len - 1)))
    else if opc == 1
    then (if leb 31 to
        then undefined
        else ok (
            set_xreg c rd
              (bit_or (bit_or imm (bit_and old (2 ^ to - 1))) (bit_and old (mask len <<< to)))))
    else if opc == 2
    then ok (set_xreg c rd imm)
    else ok c

-- `imm` is a `uint32_t`, and `to` a `uint8_t` that wraps where a 32-bit form has `immr` above 32.
unfoldable pub decode_bitfield : ℕ → Cpu → Outcome Cpu
unfolding bitfield_move
decode_bitfield inst c =
    let imms = shift inst 10 15 in
    let immr = shift inst 16 21 in
    let opc = shift inst 29 30 in
    let if_64bit = flag inst 31 in
    let inside = leb immr imms in
    let len = if inside then imms - immr + 1 else imms + 1 in
    let from = if inside then immr else 0 in
    let to = if inside then 0 else if if_64bit then 64 - immr else u8 (32 + 256 - immr) in
    let imm = u32 (shift (c.xregs (shift inst 5 9)) from (from + len - 1) <<< to) in
    if opc == 3 && (not if_64bit && flag inst 22) && (if_64bit && not (flag inst 22))
    then unallocated
    else if leb 64 to
    then undefined
    else bitfield_move opc (shift inst 0 4) imm to len c
