-- ===== src/Cpu/LoadStore.antt =====
-- "Loads and stores" of src/cpu.cc, without its dispatch. Addresses wrap at 2 ^ 64; those of
-- the pairs are signed, and stand in the child Pair.
pub mod Pair
pub mod Accesses
pub mod Frames
pub mod Forms
pub mod Unsigned
use aarch64_emu.Base.{ℕ, ◌+◌, ◌*◌, ◌^◌, bit_and, bit_or, ltb}
use aarch64_emu.Base.{Bool, true, false, not, ◌&&◌}
use aarch64_emu.Base.{◌<<<◌, ◌+64◌}
use aarch64_emu.Base.{leb, ◌==◌, ◌!=◌, if◌then◌else◌}
use aarch64_emu.Base.{Outcome, ok, undefined, ◌>>=◌}
use aarch64_emu.Access.{memsz_tbl, word, dword}
use aarch64_emu.Util.{shift, bit, flag, mask, sign_extend, zero_extend, set_lower, set_lower32}
use aarch64_emu.Cpu.{Cpu, unallocated, unsupported, set_xreg, reg_or_sp, load, store}
use aarch64_emu.Cpu.Extend.{signed_extend, shift_and_extend, extendtype_tbl}

unfoldable pub decode_ldst_reg_unscaled_immediate : ℕ → Cpu → Outcome Cpu
decode_ldst_reg_unscaled_immediate inst c =
    let size = shift inst 30 31 in
    let opc = shift inst 22 23 in
    let rt = shift inst 0 4 in
    let address = reg_or_sp c (shift inst 5 9) +64 signed_extend (shift inst 12 20) 8 in
    if opc == 0
    then store c address (c.xregs rt) (memsz_tbl size)
    else if size == 0
    then unsupported
    else (do
      read ← load c address (memsz_tbl size)
      if opc == 1 then ok (set_xreg read.1 rt read.0) else unsupported)

-- The `switch` of `decode_ldst_reg_immediate` on `opc`.
unfoldable pub transfer : ℕ → ℕ → ℕ → ℕ → Cpu → Outcome Cpu
transfer opc size rt address c =
    if opc == 0
    then store c address (c.xregs rt) (memsz_tbl size)
    else if opc == 1
    then (do
      read ← load c address (memsz_tbl size)
      ok (set_xreg read.1 rt (zero_extend read.0 (8 * 2 ^ size))))
    else if opc == 2
    then (if size == 3 then unsupported else (do
      read ← load c address (memsz_tbl size)
      ok (set_xreg read.1 rt (sign_extend read.0 (8 * 2 ^ size)))))
    else if leb 2 size
    then unallocated
    else (do
      read ← load c address (memsz_tbl size)
      let value = sign_extend read.0 (8 * 2 ^ size)
      ok (set_xreg read.1 rt (set_lower (read.1.xregs rt) value word)))

-- How an address is formed: `post_indexed` and `writeback`. With neither of its values, the flags
-- are read uninitialised.
pub data Indexing : Type 0 where
  unsigned_offset post_index pre_index unset : Indexing

unfoldable pub indexing : ℕ → Indexing
indexing inst =
    let idx = shift inst 10 11 in
    if bit inst 24 != 0
    then unsigned_offset
    else if idx == 1
    then post_index
    else if idx == 3
    then pre_index
    else unset

-- The write back goes to `xregs[rn]`, for the stack pointer too.
unfoldable pub indexed : Indexing → ℕ → ℕ → ℕ → ℕ → ℕ → ℕ → Cpu → Outcome Cpu
unfolding transfer
indexed unsigned_offset imm12 imm9 opc size rn rt c =
    transfer opc size rt (reg_or_sp c rn +64 (imm12 <<< size)) c
indexed post_index imm12 imm9 opc size rn rt c = do
  c' ← transfer opc size rt (reg_or_sp c rn) c
  ok (set_xreg c' rn (c'.xregs rn +64 sign_extend imm9 9))
indexed pre_index imm12 imm9 opc size rn rt c = do
  c' ← transfer opc size rt (reg_or_sp c rn +64 sign_extend imm9 9) c
  ok (set_xreg c' rn (c'.xregs rn +64 sign_extend imm9 9))
indexed unset imm12 imm9 opc size rn rt c = undefined

unfoldable pub decode_ldst_reg_immediate : ℕ → Cpu → Outcome Cpu
unfolding indexing indexed
decode_ldst_reg_immediate inst c =
    if flag inst 26
    then unsupported
    else indexed (indexing inst) (shift inst 10 21) (shift inst 12 20) (shift inst 22 23)
        (shift inst 30 31) (shift inst 5 9) (shift inst 0 4) c

unfoldable pub decode_ldst_reg_reg_offset : ℕ → Cpu → Outcome Cpu
decode_ldst_reg_reg_offset inst c =
    let size = shift inst 30 31 in
    let opc = shift inst 22 23 in
    let rt = shift inst 0 4 in
    let offset =
      shift_and_extend (c.xregs (shift inst 16 20)) (flag inst 12) size
        (extendtype_tbl (shift inst 13 15)) in
    let address = reg_or_sp c (shift inst 5 9) +64 offset in
    if flag inst 26
    then unsupported
    else if opc == 0
    then store c address (c.xregs rt) (memsz_tbl size)
    else if opc == 3
    then (if leb 2 size then unallocated else ok c)
    else (do
      read ← load c address dword
      ok (set_xreg read.1 rt (bit_and read.0 (mask (8 * 2 ^ size)))))

unfoldable pub decode_ldst_load_register_literal : ℕ → Cpu → Outcome Cpu
decode_ldst_load_register_literal inst c =
    let opc = shift inst 30 31 in
    let rt = shift inst 0 4 in
    let offset = sign_extend (shift inst 5 23 <<< 2) 21 in
    if opc == 3 && flag inst 26 then unallocated else (do
      read ← load c (c.pc +64 offset) dword
      if opc == 0
          then ok (set_xreg read.1 rt (set_lower32 inst read.0))
          else if opc == 1
          then ok (set_xreg read.1 rt read.0)
          else if opc == 2
          then ok (set_xreg read.1 rt (sign_extend read.0 32))
          else unsupported)

-- What both acquiring loads keep of the data: the size is compared with the decimal 11.
unfoldable pub exclusive_value : ℕ → ℕ → ℕ
exclusive_value size read = if size == 11 then zero_extend read 64 else zero_extend read 32

unfoldable pub decode_ldst_exclusive : ℕ → Cpu → Outcome Cpu
unfolding exclusive_value
decode_ldst_exclusive inst c =
    let size = shift inst 30 31 in
    let rt = shift inst 0 4 in
    let address = reg_or_sp c (shift inst 5 9) in
    if flag inst 21
    then ok c
    else if flag inst 22
    then (if flag inst 15 then unsupported else (do
      read ← load c address (memsz_tbl size)
      ok (set_xreg read.1 rt (exclusive_value size read.0))))
    else if flag inst 15
    then unsupported
    else (do
      c' ← store c address (c.xregs rt) (memsz_tbl size)
      ok (set_xreg c' (shift inst 16 20) 0))

unfoldable pub decode_ldst_ordered : ℕ → Cpu → Outcome Cpu
unfolding exclusive_value
decode_ldst_ordered inst c =
    let size = shift inst 30 31 in
    let rt = shift inst 0 4 in
    let address = reg_or_sp c (shift inst 5 9) in
    if not (flag inst 15)
    then unsupported
    else if flag inst 22
    then (do
      read ← load c address (memsz_tbl size)
      ok (set_xreg read.1 rt (exclusive_value size read.0)))
    else store c address (c.xregs rt) (memsz_tbl size)

unfoldable pub decode_ldst_register : ℕ → Cpu → Outcome Cpu
unfolding decode_ldst_reg_unscaled_immediate decode_ldst_reg_immediate decode_ldst_reg_reg_offset
decode_ldst_register inst c =
    let op = bit_or (bit inst 21 * 2 ^ 2) (shift inst 10 11) in
    if leb 2 (shift inst 23 24)
    then decode_ldst_reg_immediate inst c
    else if op == 0
    then decode_ldst_reg_unscaled_immediate inst c
    else if op == 1
    then decode_ldst_reg_immediate inst c
    else if op == 2
    then unsupported
    else if op == 3
    then decode_ldst_reg_immediate inst c
    else if op == 4
    then unsupported
    else if op == 5
    then unsupported
    else if op == 6
    then decode_ldst_reg_reg_offset inst c
    else unsupported
