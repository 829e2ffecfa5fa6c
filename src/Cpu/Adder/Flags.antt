-- ===== src/Cpu/Adder/Flags.antt =====
-- What the adders of src/cpu.cc give: their sums and, as tests on numbers, their flags.
use aarch64_emu.Base.{ℕ, ◌+◌, ◌-◌, ◌^◌, ◌%◌, ◌≤◌, ◌<◌, ◌≡◌, refl, arith, bit_and}
use aarch64_emu.Base.{true, false, not, ◌&&◌, ◌||◌, ltb, leb, ◌==◌, u64}
use aarch64_emu.Util.{mask}
use aarch64_emu.Util.Fields.{and-mask, bit-eq}
use aarch64_emu.Cpu.Adder.{add_imm, sum32, sum64}

-- An adder without its flags adds, or subtracts, modulo 2 ^ 64.
pub add_imm_sum : (x y : ℕ) → add_imm x y false ≡ (x + y) % 2 ^ 64
unfolding add_imm
add_imm_sum x y = omega arith

-- The subtraction without flags, for a 64-bit second operand, is the difference modulo 2 ^ 64.
pub add_imm_difference : (x y : ℕ) → y < 2 ^ 64 → add_imm x y true ≡ (x + 2 ^ 64 - y) % 2 ^ 64
unfolding add_imm
add_imm_difference x y h = omega arith

-- The order of 32-bit patterns as signed numbers: with the sign bit turned over it is the order of
-- the patterns.
abbrev pub biased32 : ℕ → ℕ
biased32 x = (x + 2 ^ 31) % 2 ^ 32

abbrev pub biased64 : ℕ → ℕ
biased64 x = (x + 2 ^ 63) % 2 ^ 64

-- For 32-bit operands and a carry, the 32-bit adder gives the sum cut to 32 bits; N is the top bit of
-- the result, Z says that it is zero, C that the exact unsigned sum is 2 ^ 32 or more, and V that
-- the exact signed sum has no 32-bit pattern (read off the operands with their sign bits turned).
pub sum32_lem :
    (x y carry_in : ℕ)
    → x < 2 ^ 32
    → y < 2 ^ 32
    → carry_in ≤ 1
    → let (result, flags) = sum32 x y carry_in in
      (result ≡ (x + y + carry_in) % 2 ^ 32)
      × (flags.n ≡ leb (2 ^ 31) result)
      × (flags.z ≡ (result == 0))
      × (flags.c ≡ leb (2 ^ 32) (x + y + carry_in))
      × (flags.v ≡ (
          ltb (biased32 x + biased32 y + carry_in) (2 ^ 31)
          || leb (2 ^ 31 + 2 ^ 32) (biased32 x + biased32 y + carry_in)))
unfolding sum32
sum32_lem x y carry_in hx hy hc =
    let e = and-mask (u64 (x + y + carry_in)) 32 (omega arith) in
    (
      omega (arith, e),
      ground (arith, e, bit-eq (bit_and (u64 (x + y + carry_in)) (mask 32)) 31),
      refl,
      ground (arith, e),
      ground (arith, e),
    )

-- For 64-bit operands and a carry, the 64-bit adder sums right, and its zero and overflow flags are right. Its carry flag misses a
-- carry out of two operands with the top bit set and a result with it set, and its negative flag is
-- the top bit of the second operand.
pub sum64_lem :
    (x y carry_in : ℕ)
    → x < 2 ^ 64
    → y < 2 ^ 64
    → carry_in ≤ 1
    → let (result, flags) = sum64 x y carry_in in
      (result ≡ (x + y + carry_in) % 2 ^ 64)
      × (flags.n ≡ leb (2 ^ 63) y)
      × (flags.z ≡ (result == 0))
      × (flags.c ≡ (
          leb (2 ^ 64) (x + y + carry_in)
          && not (leb (2 ^ 63) x && leb (2 ^ 63) y && leb (2 ^ 63) result)))
      × (flags.v ≡ (
          ltb (biased64 x + biased64 y + carry_in) (2 ^ 63)
          || leb (2 ^ 63 + 2 ^ 64) (biased64 x + biased64 y + carry_in)))
unfolding sum64
sum64_lem x y carry_in hx hy hc =
    let bx = bit-eq x 63 in
    let by = bit-eq y 63 in
    let br = bit-eq (((x + y) % 2 ^ 64 + carry_in) % 2 ^ 64) 63 in
    (omega arith, ground (arith, by), refl, ground (arith, bx, by, br), ground (arith, bx, by, br))
