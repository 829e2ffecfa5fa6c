-- ===== src/Cpu/LoadStore/Forms.antt =====
-- Single loads and stores of src/cpu.cc: no uninitialised flag decides their addressing form.
use aarch64_emu.Base.{ℕ, ◌*◌, ◌^◌, bit_or}
use aarch64_emu.Base.{◌≡◌, ◌≢◌, ◌≤◌, arith, ◌⊎◌}
use aarch64_emu.Base.Masks.{or_above}
use aarch64_emu.Base.{undefined, ◌+64◌, ◌<<<◌, Outcome, inl, inr, leb, ◌==◌, if◌then◌else◌}
use aarch64_emu.Access.{MemAccessSize, dword, memsz_tbl}
use aarch64_emu.Cpu.{Cpu, load, store, reg_or_sp, unsupported}
use aarch64_emu.Cpu.Extend.{signed_extend, shift_and_extend, extendtype_tbl}
use aarch64_emu.Util.{shift, bit, flag, sign_extend}
use aarch64_emu.Util.Fields.{bit-eq, shift-eq}
use aarch64_emu.Cpu.LoadStore.{indexing}
use aarch64_emu.Cpu.LoadStore.{
  Indexing, unset, unsigned_offset, post_index, pre_index, transfer, indexed,
}
use aarch64_emu.Cpu.LoadStore.{decode_ldst_reg_unscaled_immediate, decode_ldst_reg_immediate}
use aarch64_emu.Cpu.LoadStore.{decode_ldst_reg_reg_offset, decode_ldst_register}

-- Where bit 24 of the instruction is set, or the number with bit 21 on top of bits 11 and 10 is 1 or
-- 3, the addressing form is set.
indexing-ne-unset :
    (inst : ℕ)
    → (2 ≤ shift inst 23 24)
      ⊎ ((bit_or (bit inst 21 * 2 ^ 2) (shift inst 10 11) ≡ 1)
          ⊎ (bit_or (bit inst 21 * 2 ^ 2) (shift inst 10 11) ≡ 3))
    → indexing inst ≢ unset
unfolding indexing
indexing-ne-unset inst h e = ground (
  arith,
  bit-eq inst 24,
  bit-eq inst 21,
  shift-eq inst 23 24,
  shift-eq inst 10 11,
  or_above 2 (bit inst 21) (shift inst 10 11),
)

-- No access to memory at any address is undefined.
pub record IsDefined (c : Cpu) : Type 0 where
  pub loads : (a : ℕ) (s : MemAccessSize) → load c a s ≢ undefined
  pub stores : (a v : ℕ) (s : MemAccessSize) → store c a v s ≢ undefined

module _ (c : Cpu) (d : IsDefined c) where
  transfer-defined : (opc size rt address : ℕ) → transfer opc size rt address c ≢ undefined
  unfolding transfer
  transfer-defined opc size rt address h =
      ground
        (arith, d.stores address (c.xregs rt) (memsz_tbl size), d.loads address (memsz_tbl size))

  indexed-defined :
      (form : Indexing) (imm12 imm9 opc size rn rt : ℕ)
      → form ≢ unset
      → indexed form imm12 imm9 opc size rn rt c ≢ undefined
  unfolding indexed
  indexed-defined unsigned_offset imm12 imm9 opc size rn rt set h =
      transfer-defined opc size rt (reg_or_sp c rn +64 (imm12 <<< size)) h
  indexed-defined post_index imm12 imm9 opc size rn rt set h =
      ground (arith, transfer-defined opc size rt (reg_or_sp c rn))
  indexed-defined pre_index imm12 imm9 opc size rn rt set h =
      ground (arith, transfer-defined opc size rt (reg_or_sp c rn +64 sign_extend imm9 9))
  indexed-defined unset imm12 imm9 opc size rn rt set h = ground (arith, set)

  immediate-defined :
      (inst : ℕ) → indexing inst ≢ unset → decode_ldst_reg_immediate inst c ≢ undefined
  unfolding decode_ldst_reg_immediate
  immediate-defined inst set h = ground (
    arith,
    indexed-defined (indexing inst) (shift inst 10 21) (shift inst 12 20) (shift inst 22 23)
        (shift inst 30 31) (shift inst 5 9) (shift inst 0 4) set,
  )

  unscaled-defined : (inst : ℕ) → decode_ldst_reg_unscaled_immediate inst c ≢ undefined
  unfolding decode_ldst_reg_unscaled_immediate
  unscaled-defined inst h =
      let address = reg_or_sp c (shift inst 5 9) +64 signed_extend (shift inst 12 20) 8 in
      let size = memsz_tbl (shift inst 30 31) in
      ground (arith, d.stores address (c.xregs (shift inst 0 4)) size, d.loads address size)

  reg_offset-defined : (inst : ℕ) → decode_ldst_reg_reg_offset inst c ≢ undefined
  unfolding decode_ldst_reg_reg_offset
  reg_offset-defined inst h =
      let offset =
        shift_and_extend (c.xregs (shift inst 16 20)) (flag inst 12) (shift inst 30 31)
          (extendtype_tbl (shift inst 13 15)) in
      let address = reg_or_sp c (shift inst 5 9) +64 offset in
      ground (
        arith,
        d.stores address (c.xregs (shift inst 0 4)) (memsz_tbl (shift inst 30 31)),
        d.loads address dword,
      )

-- The choice that `decode_ldst_register` makes between its three decoders.
choice-defined :
    (wide op : ℕ) (imm unscaled reg : Outcome Cpu)
    → (2 ≤ wide → imm ≢ undefined)
    → (op ≡ 1 → imm ≢ undefined)
    → (op ≡ 3 → imm ≢ undefined)
    → unscaled ≢ undefined
    → reg ≢ undefined
    → (if leb 2 wide
        then imm
        else if op == 0
        then unscaled
        else if op == 1
        then imm
        else if op == 2
        then unsupported
        else if op == 3
        then imm
        else if op == 4
        then unsupported
        else if op == 5
        then unsupported
        else if op == 6
        then reg
        else unsupported)
      ≢ undefined
choice-defined wide op imm unscaled reg at_wide at_1 at_3 at_0 at_6 h = ground arith

-- The single loads and stores read no uninitialised flag. In a state in which no access to memory is
-- undefined, at any address, no instruction word makes `decode_ldst_register` undefined: whenever it
-- hands the word to `decode_ldst_reg_immediate`, the addressing form is set there.
pub decode_ldst_register-defined :
    (inst : ℕ) (c : Cpu) → IsDefined c → decode_ldst_register inst c ≢ undefined
unfolding decode_ldst_register
decode_ldst_register-defined inst c d =
    let op = bit_or (bit inst 21 * 2 ^ 2) (shift inst 10 11) in
    let immediate : (2 ≤ shift inst 23 24) ⊎ ((op ≡ 1) ⊎ (op ≡ 3))
        → decode_ldst_reg_immediate inst c ≢ undefined =
      λ which. immediate-defined c d inst (indexing-ne-unset inst which) in
    choice-defined (shift inst 23 24) op (decode_ldst_reg_immediate inst c)
      (decode_ldst_reg_unscaled_immediate inst c) (decode_ldst_reg_reg_offset inst c)
      (λ le. immediate (inl le)) (λ e. immediate (inr (inl e))) (λ e. immediate (inr (inr e)))
      (unscaled-defined c d inst) (reg_offset-defined c d inst)
