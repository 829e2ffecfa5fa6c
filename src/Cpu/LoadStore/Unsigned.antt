-- ===== src/Cpu/LoadStore/Unsigned.antt =====
-- `decode_ldst_reg_unsigned_imm` of src/cpu.cc, which no dispatcher calls, against
-- `decode_ldst_reg_immediate`, which took its place.
use aarch64_emu.Base.{ℕ, ◌≤◌, ◌≡◌, ◌≢◌, refl, arith, ◌⊎◌, inl, inr}
use aarch64_emu.Base.{◌<<<◌, ◌+64◌, ltb, ◌==◌, if◌then◌else◌}
use aarch64_emu.Base.{Outcome, ok, ◌>>=◌}
use aarch64_emu.Access.{word, dword}
use aarch64_emu.Util.{shift, bit, flag, set_lower, zero_extend}
use aarch64_emu.Cpu.{Cpu, unsupported, set_xreg, reg_or_sp, load, store}
use aarch64_emu.Cpu.LoadStore.{indexing, indexed, transfer, decode_ldst_reg_immediate}

-- The cases of 32 and of 64 bits. A signed load of 32 bits does nothing, and neither do the other
-- codes, whose `assert` is compiled out.
unfoldable pub unsigned_word : ℕ → ℕ → ℕ → Cpu → Outcome Cpu
unsigned_word opc rt addr c =
    if opc == 0
    then store c addr (c.xregs rt) word
    else if opc == 1
    then (do
      read ← load c addr word
      ok (set_xreg read.1 rt (set_lower (read.1.xregs rt) read.0 word)))
    else ok c

unfoldable pub unsigned_dword : ℕ → ℕ → ℕ → Cpu → Outcome Cpu
unsigned_dword opc rt addr c =
    if opc == 0
    then store c addr (c.xregs rt) dword
    else if opc == 1
    then (do read ← load c addr dword; ok (set_xreg read.1 rt read.0))
    else if opc == 2
    then unsupported
    else ok c

unfoldable pub decode_ldst_reg_unsigned_imm : ℕ → Cpu → Outcome Cpu
unfolding unsigned_word unsigned_dword
decode_ldst_reg_unsigned_imm inst c =
    let size = shift inst 30 31 in
    let opc = shift inst 22 23 in
    let rt = shift inst 0 4 in
    let addr = reg_or_sp c (shift inst 5 9) +64 (shift inst 10 21 <<< size) in
    if flag inst 26
    then unsupported
    else if ltb size 2
    then unsupported
    else if size == 2
    then unsigned_word opc rt addr c
    else unsigned_dword opc rt addr c

unsigned_word-transfer :
    (rt addr : ℕ) (c : Cpu) → unsigned_word 0 rt addr c ≡ transfer 0 2 rt addr c
unfolding unsigned_word transfer
unsigned_word-transfer rt addr c = refl

unsigned_dword-transfer :
    (opc rt addr : ℕ) (c : Cpu) → opc ≤ 2 → unsigned_dword opc rt addr c ≡ transfer opc 3 rt addr c
unfolding unsigned_dword transfer zero_extend
unsigned_dword-transfer opc rt addr c le = ground arith

-- The two decoders agree wherever the older one is right. On a word with bit 24 set, which asks for
-- an unsigned offset, that stores 32 or 64 bits or loads 64: both do the same to every processor.
pub decode_ldst_reg_unsigned_imm-eq :
    (inst : ℕ) (c : Cpu)
    → bit inst 24 ≢ 0
    → ((shift inst 30 31 ≡ 2) × (shift inst 22 23 ≡ 0))
      ⊎ ((shift inst 30 31 ≡ 3) × (shift inst 22 23 ≤ 2))
    → decode_ldst_reg_unsigned_imm inst c ≡ decode_ldst_reg_immediate inst c
unfolding decode_ldst_reg_unsigned_imm decode_ldst_reg_immediate indexing indexed
decode_ldst_reg_unsigned_imm-eq inst c unsigned (inl (size, opc)) =
    let addr = reg_or_sp c (shift inst 5 9) +64 (shift inst 10 21 <<< 2) in
    let same = unsigned_word-transfer (shift inst 0 4) addr c in
    rw (size, opc) (ground (arith, unsigned, same))
decode_ldst_reg_unsigned_imm-eq inst c unsigned (inr (size, opc)) =
    let addr = reg_or_sp c (shift inst 5 9) +64 (shift inst 10 21 <<< 3) in
    let same = unsigned_dword-transfer (shift inst 22 23) (shift inst 0 4) addr c opc in
    rw size (ground (arith, unsigned, same))
