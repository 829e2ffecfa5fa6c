-- ===== src/Cpu/LoadStore/Frames.antt =====
-- Loads and stores of src/cpu.cc: what they leave alone.
use aarch64_emu.Cpu.LoadStore.Pair.{
  int64_add, move_pair, register_pair, decode_ldst_register_pair, write_base,
}
use aarch64_emu.Base.{ℕ}
use aarch64_emu.Base.{Bool, true, false}
use aarch64_emu.Base.{◌<<<◌, ◌+64◌}
use aarch64_emu.Base.{◌≡◌, arith, >>=-eq-ok}
use aarch64_emu.Base.{Outcome, ok, exit, undefined, ◌>>=◌, ◌==◌, if◌then◌else◌}
use aarch64_emu.Access.{dword, memsz_tbl}
use aarch64_emu.Util.{shift, flag, sign_extend}
use aarch64_emu.Cpu.{Cpu, reg_or_sp}
use aarch64_emu.Cpu.Extend.{signed_extend, shift_and_extend, extendtype_tbl}
use aarch64_emu.Cpu.LoadStore.{decode_ldst_register}
use aarch64_emu.Cpu.LoadStore.{decode_ldst_reg_unscaled_immediate, indexing}
use aarch64_emu.Cpu.LoadStore.{decode_ldst_reg_immediate, decode_ldst_reg_reg_offset}
use aarch64_emu.Cpu.LoadStore.{
  decode_ldst_load_register_literal, decode_ldst_exclusive, decode_ldst_ordered,
}
use aarch64_emu.Cpu.Decode.{dispatch_ldst, decode_loads_and_stores}
use aarch64_emu.Cpu.LoadStore.Accesses.{
  KeepsSystem, after, >>=-KeepsSystem, load-KeepsSystem, store-KeepsSystem, indexed-KeepsSystem,
  store_pair-KeepsSystem, load_pair-KeepsSystem,
}

module _ (inst : ℕ) (c : Cpu) where
  move_pair-KeepsSystem : (a : ℕ) (w : Bool) → KeepsSystem c (after c (move_pair inst a w c))
  unfolding move_pair
  move_pair-KeepsSystem a w = ground (
    arith,
    load_pair-KeepsSystem c a w (shift inst 0 4) (shift inst 10 14),
    store_pair-KeepsSystem c a w (shift inst 0 4) (shift inst 10 14),
  )

  written-KeepsSystem :
      (rn a : ℕ) (o : Outcome Cpu)
      → KeepsSystem c (after c o)
      → KeepsSystem c (after c (o >>= λ c'. ok (write_base c' rn a)))
  unfolding write_base
  written-KeepsSystem rn a (ok c') keeps = ground arith
  written-KeepsSystem rn a (exit n) keeps = ground arith
  written-KeepsSystem rn a undefined keeps = ground arith

  -- The transfers at `a`, and the write back where the addressing form has one.
  at_address-KeepsSystem :
      (opt a : ℕ) (w : Bool)
      → KeepsSystem c (
          after c (
            if opt == 2
            then move_pair inst a w c
            else (do c' ← move_pair inst a w c; ok (write_base c' (shift inst 5 9) a))))
  at_address-KeepsSystem opt a w = ground (
    arith,
    move_pair-KeepsSystem a w,
    written-KeepsSystem (shift inst 5 9) a (move_pair inst a w c) (move_pair-KeepsSystem a w),
  )

  register_pair-KeepsSystem :
      (offset : ℕ) (w : Bool) → KeepsSystem c (after c (register_pair inst offset w c))
  unfolding register_pair
  register_pair-KeepsSystem offset w =
      let base = reg_or_sp c (shift inst 5 9) in
      let opt = shift inst 23 25 in
      ground (
        arith,
        written-KeepsSystem (shift inst 5 9) (base +64 offset) (move_pair inst base w c)
            (move_pair-KeepsSystem base w),
        >>=-KeepsSystem c (int64_add base offset)
            (λ address. if opt == 2 then move_pair inst address w c else (do
              c' ← move_pair inst address w c
              ok (write_base c' (shift inst 5 9) address)))
            (λ a. at_address-KeepsSystem opt a w),
      )

  pair-KeepsSystem : KeepsSystem c (after c (decode_ldst_register_pair inst c))
  unfolding decode_ldst_register_pair
  pair-KeepsSystem =
      let offset = sign_extend (shift inst 15 21) 7 in
      ground (
        arith,
        register_pair-KeepsSystem (offset <<< 2) true,
        register_pair-KeepsSystem (offset <<< 3) false,
      )

  unscaled-KeepsSystem : KeepsSystem c (after c (decode_ldst_reg_unscaled_immediate inst c))
  unfolding decode_ldst_reg_unscaled_immediate
  unscaled-KeepsSystem =
      let address = reg_or_sp c (shift inst 5 9) +64 signed_extend (shift inst 12 20) 8 in
      let size = memsz_tbl (shift inst 30 31) in
      ground (
        arith,
        store-KeepsSystem c address (c.xregs (shift inst 0 4)) size,
        load-KeepsSystem c address size,
      )

  immediate-KeepsSystem : KeepsSystem c (after c (decode_ldst_reg_immediate inst c))
  unfolding decode_ldst_reg_immediate
  immediate-KeepsSystem = ground (
    arith,
    indexed-KeepsSystem (indexing inst) (shift inst 10 21) (shift inst 12 20) (shift inst 22 23)
        (shift inst 30 31) (shift inst 5 9) (shift inst 0 4) c,
  )

  reg_offset-KeepsSystem : KeepsSystem c (after c (decode_ldst_reg_reg_offset inst c))
  unfolding decode_ldst_reg_reg_offset
  reg_offset-KeepsSystem =
      let offset =
        shift_and_extend (c.xregs (shift inst 16 20)) (flag inst 12) (shift inst 30 31)
          (extendtype_tbl (shift inst 13 15)) in
      let address = reg_or_sp c (shift inst 5 9) +64 offset in
      ground (
        arith,
        store-KeepsSystem c address (c.xregs (shift inst 0 4)) (memsz_tbl (shift inst 30 31)),
        load-KeepsSystem c address dword,
      )

  literal-KeepsSystem : KeepsSystem c (after c (decode_ldst_load_register_literal inst c))
  unfolding decode_ldst_load_register_literal
  literal-KeepsSystem =
      ground (arith, load-KeepsSystem c (c.pc +64 sign_extend (shift inst 5 23 <<< 2) 21) dword)

  exclusive-KeepsSystem : KeepsSystem c (after c (decode_ldst_exclusive inst c))
  unfolding decode_ldst_exclusive
  exclusive-KeepsSystem =
      let address = reg_or_sp c (shift inst 5 9) in
      let size = memsz_tbl (shift inst 30 31) in
      ground (
        arith,
        store-KeepsSystem c address (c.xregs (shift inst 0 4)) size,
        load-KeepsSystem c address size,
      )

  ordered-KeepsSystem : KeepsSystem c (after c (decode_ldst_ordered inst c))
  unfolding decode_ldst_ordered
  ordered-KeepsSystem =
      let address = reg_or_sp c (shift inst 5 9) in
      let size = memsz_tbl (shift inst 30 31) in
      ground (
        arith,
        store-KeepsSystem c address (c.xregs (shift inst 0 4)) size,
        load-KeepsSystem c address size,
      )

  register-KeepsSystem : KeepsSystem c (after c (decode_ldst_register inst c))
  unfolding decode_ldst_register
  register-KeepsSystem =
      ground (arith, unscaled-KeepsSystem, immediate-KeepsSystem, reg_offset-KeepsSystem)

  dispatch-KeepsSystem : KeepsSystem c (after c (dispatch_ldst inst c))
  unfolding dispatch_ldst
  dispatch-KeepsSystem = ground (
    arith, pair-KeepsSystem, literal-KeepsSystem, exclusive-KeepsSystem, ordered-KeepsSystem,
    register-KeepsSystem,
  )

-- Every load or store that completes advances the program counter by 4, and changes nothing else
-- but the bus, the general registers and the stack pointer: not the flags, not the exception level,
-- not the translation's registers, not the saved state of an exception.
pub decode_loads_and_stores-KeepsSystem :
    (inst : ℕ) (c c' : Cpu)
    → decode_loads_and_stores inst c ≡ ok c'
    → (c'.pc ≡ c.pc +64 4) × KeepsSystem c (record c' { pc = c.pc })
unfolding decode_loads_and_stores
decode_loads_and_stores-KeepsSystem inst c c' h =
    let (mid, done, rest) = >>=-eq-ok (dispatch_ldst inst c) _ h in
    ground (arith, rest, done, dispatch-KeepsSystem inst c)
