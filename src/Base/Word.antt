-- ===== src/Base/Word.antt =====
-- Fixed-width words as native numbers: the casts of C, and the operators on `uint64_t`.
-- A value of type `uintN_t` is a number below 2 ^ N.
use Prim.Native.Nat.{ℕ, ◌+◌, ◌-◌, ◌*◌, ◌/◌, ◌%◌, ◌^◌}
use aarch64_emu.Base.Tests.{ltb, if◌then◌else◌}

abbrev pub u8 : ℕ → ℕ
u8 n = n % 2 ^ 8

abbrev pub u16 : ℕ → ℕ
u16 n = n % 2 ^ 16

abbrev pub u32 : ℕ → ℕ
u32 n = n % 2 ^ 32

abbrev pub u64 : ℕ → ℕ
u64 n = n % 2 ^ 64

-- `~x` on `uint64_t` and on `uint32_t`.
abbrev pub not64 : ℕ → ℕ
not64 x = 2 ^ 64 - 1 - x

abbrev pub not32 : ℕ → ℕ
not32 x = 2 ^ 32 - 1 - x

infixl 65 ◌+64◌ ◌-64◌
abbrev pub ◌+64◌ : ℕ → ℕ → ℕ
a +64 b = (a + b) % 2 ^ 64

abbrev pub ◌-64◌ : ℕ → ℕ → ℕ
a -64 b = (a + 2 ^ 64 - b) % 2 ^ 64

infixl 55 ◌<<<◌ ◌>>>◌
-- `x << k` on `uint64_t` and `x >> k` on any unsigned type, for a `k` below the width.
abbrev pub ◌<<<◌ : ℕ → ℕ → ℕ
x <<< k = x * 2 ^ k % 2 ^ 64

abbrev pub ◌>>>◌ : ℕ → ℕ → ℕ
x >>> k = x / 2 ^ k

-- `(int64_t)x >> k`: the sign bit is copied into the `k` top places.
abbrev pub sar64 : ℕ → ℕ → ℕ
sar64 x k = if ltb x (2 ^ 63) then x / 2 ^ k else x / 2 ^ k + (2 ^ 64 - 2 ^ 64 / 2 ^ k)
