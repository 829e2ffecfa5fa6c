-- ===== src/Cpu/Adder.antt =====
-- The adders of src/cpu.cc: `add_imm`, `add_imm_s32` and `add_imm_s`. A carry in also inverts the
-- second operand, so that the sum is a difference.
pub mod Flags
pub mod Compare
use aarch64_emu.Base.{ℕ, ◌+◌, ◌-◌, ◌^◌, bit_and}
use aarch64_emu.Base.{Bool, not, ◌&&◌, ◌||◌, xor}
use aarch64_emu.Base.{u32, u64, not64, not32, ◌+64◌}
use aarch64_emu.Base.{ltb, ◌==◌, ◌!=◌, if◌then◌else◌}
use aarch64_emu.Util.{mask, bit}
use aarch64_emu.Cpu.{Nzcv}

unfoldable pub add_imm : ℕ → ℕ → Bool → ℕ
add_imm x y carry_in = if carry_in then x +64 not64 y +64 1 else x +64 y +64 0

-- An `int32_t` converted to `int64_t`, both as bit patterns.
abbrev pub int64_of_int32 : ℕ → ℕ
int64_of_int32 x = if ltb x (2 ^ 31) then x else x + (2 ^ 64 - 2 ^ 32)

-- `add_imm_s32`, after `y = ~y`.
unfoldable pub sum32 : ℕ → ℕ → ℕ → ℕ × Nzcv
sum32 x y carry_in =
    let unsigned_sum = u64 (x + y + carry_in) in
    let signed_sum = u64 (int64_of_int32 x + int64_of_int32 y + carry_in) in
    let result = bit_and unsigned_sum (mask 32) in
    (
      result,
      record {
        n = bit result 31 != 0;
        z = result == 0;
        c = unsigned_sum != result;
        v = signed_sum != int64_of_int32 result;
      },
    )

unfoldable pub add_imm_s32 : ℕ → ℕ → Bool → ℕ × Nzcv
unfolding sum32
add_imm_s32 x y carry_in = if carry_in then sum32 x (not32 y) 1 else sum32 x y 0

-- The 64-bit case of `add_imm_s`, after `y = carry_in ? ~y : y`.
unfoldable pub sum64 : ℕ → ℕ → ℕ → ℕ × Nzcv
sum64 x y carry_in =
    let result = x +64 y +64 carry_in in
    let top_x = bit x 63 != 0 in
    let top_y = bit y 63 != 0 in
    let top_r = bit result 63 != 0 in
    (
      result,
      record {
        n = top_y;
        z = result == 0;
        c = (top_x || top_y) && not top_r;
        v = not (xor top_x top_y) && xor top_r top_x;
      },
    )

unfoldable pub add_imm_s : ℕ → ℕ → Bool → Bool → ℕ × Nzcv
unfolding add_imm_s32 sum64
add_imm_s x y carry_in if_64bit =
    if if_64bit
    then (if carry_in then sum64 x (not64 y) 1 else sum64 x y 0)
    else add_imm_s32 (u32 x) (u32 y) carry_in
