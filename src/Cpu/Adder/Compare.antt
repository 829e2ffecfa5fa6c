-- ===== src/Cpu/Adder/Compare.antt =====
-- Comparisons: the conditions of `check_b_flag` after a subtraction that sets the flags.
use aarch64_emu.Base.{ℕ, ◌+◌, ◌^◌, ◌%◌, ◌<◌, ◌≡◌, arith}
use aarch64_emu.Base.{Bool, true, false, not, ◌&&◌, ltb, leb, ◌==◌, ◌!=◌, not32, not64}
use aarch64_emu.Cpu.{check_b_flag}
use aarch64_emu.Cpu.Adder.{add_imm_s, add_imm_s32}
use aarch64_emu.Cpu.Adder.Flags.{biased32, sum32_lem, sum64_lem}

-- Ten conditions by their numbers, as tests on the operands: equality, unsigned and signed order.
pub record IsComparison (holds : ℕ → Bool) (x y sx sy : ℕ) : Type 0 where
  pub eq : holds 0 ≡ (x == y)
  pub ne : holds 1 ≡ (x != y)
  pub hs : holds 2 ≡ leb y x
  pub lo : holds 3 ≡ ltb x y
  pub hi : holds 8 ≡ ltb y x
  pub ls : holds 9 ≡ leb x y
  pub ge : holds 10 ≡ leb sy sx
  pub lt : holds 11 ≡ ltb sx sy
  pub gt : holds 12 ≡ ltb sy sx
  pub le : holds 13 ≡ leb sx sy

-- After a 32-bit subtraction that sets the flags, on any operands, the conditions EQ, NE, HS, LO,
-- HI and LS compare the low words of the operands as unsigned numbers, and GE, LT, GT and LE
-- compare them as signed numbers.
pub compare32 :
    (x y : ℕ)
    → IsComparison
        (λ cond. check_b_flag cond (add_imm_s x y true false).1)
        (x % 2 ^ 32)
        (y % 2 ^ 32)
        (biased32 (x % 2 ^ 32))
        (biased32 (y % 2 ^ 32))
unfolding add_imm_s add_imm_s32 check_b_flag
compare32 x y =
    let a : ℕ = x % 2 ^ 32 in
    let b : ℕ = y % 2 ^ 32 in
    let f = sum32_lem a (not32 b) 1 (omega arith) (omega arith) (omega arith) in
    record {
      eq = ground (arith, f);
      ne = ground (arith, f);
      hs = ground (arith, f);
      lo = ground (arith, f);
      hi = ground (arith, f);
      ls = ground (arith, f);
      ge = ground (arith, f);
      lt = ground (arith, f);
      gt = ground (arith, f);
      le = ground (arith, f);
    }

-- After a subtraction of 64-bit operands that sets the flags, EQ and NE compare the operands; HS says that the
-- first is not below the second as an unsigned number and less than 2 ^ 63 above it, and LO the
-- contrary.
pub compare64 :
    (x y : ℕ)
    → x < 2 ^ 64
    → y < 2 ^ 64
    → let flags = (add_imm_s x y true true).1 in
      (check_b_flag 0 flags ≡ (x == y))
      × (check_b_flag 1 flags ≡ (x != y))
      × (check_b_flag 2 flags ≡ (leb y x && ltb x (y + 2 ^ 63)))
      × (check_b_flag 3 flags ≡ not (leb y x && ltb x (y + 2 ^ 63)))
unfolding add_imm_s check_b_flag
compare64 x y hx hy =
    let f = sum64_lem x (not64 y) 1 hx (omega arith) (omega arith) in
    (ground (arith, f), ground (arith, f), ground (arith, f), ground (arith, f))

-- After a 64-bit subtraction of two numbers below 2 ^ 63, that is of non-negative ones, LT and LE
-- hold and GE and GT do not, whatever the numbers.
pub compare64_signed :
    (x y : ℕ)
    → x < 2 ^ 63
    → y < 2 ^ 63
    → let flags = (add_imm_s x y true true).1 in
      (check_b_flag 10 flags ≡ false)
      × (check_b_flag 11 flags ≡ true)
      × (check_b_flag 12 flags ≡ false)
      × (check_b_flag 13 flags ≡ true)
unfolding add_imm_s check_b_flag
compare64_signed x y hx hy =
    let f = sum64_lem x (not64 y) 1 (omega arith) (omega arith) (omega arith) in
    (ground (arith, f), ground (arith, f), ground (arith, f), ground (arith, f))
