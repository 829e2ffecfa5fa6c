-- ===== src/Util.antt =====
-- src/include/utils.h and src/utils.cc: shifts, masks and bit fields of 64-bit words.
use aarch64_emu.Base.{ℕ, ◌+◌, ◌-◌, ◌^◌, bit_and, bit_or, Bool}
use aarch64_emu.Base.{u8, not64, ◌<<<◌, ◌>>>◌, sar64, leb, ◌==◌, ◌!=◌, if◌then◌else◌}
pub mod Fields
pub mod Signs
use aarch64_emu.Access.{MemAccessSize, byte, hex, word, dword}

unfoldable pub lsl : ℕ → ℕ → ℕ
lsl val shift = if leb 64 shift then 0 else val <<< shift

unfoldable pub asr : ℕ → ℕ → ℕ
asr val shift = if leb 64 shift then 0 else sar64 val shift

-- `64 - topbit` is passed as a `uint8_t`.
unfoldable pub sign_extend : ℕ → ℕ → ℕ
unfolding lsl asr
sign_extend val topbit = asr (lsl val (u8 (64 + 256 - topbit))) (u8 (64 + 256 - topbit))

-- The lowest `n` places, for `n` up to 64.
unfoldable pub mask : ℕ → ℕ
mask n = if n == 64 then 2 ^ 64 - 1 else 2 ^ n - 1

-- The field of `inst` from place `bottom` up to place `top`.
unfoldable pub shift : ℕ → ℕ → ℕ → ℕ
unfolding mask
shift inst bottom top = bit_and inst (mask (top + 1)) >>> bottom

unfoldable pub bit : ℕ → ℕ → ℕ
bit inst n = bit_and (inst >>> n) 1

-- A bit that is converted to `bool`.
abbrev pub flag : ℕ → ℕ → Bool
flag inst n = bit inst n != 0

unfoldable pub clear_upper32 : ℕ → ℕ
clear_upper32 x = bit_and x 0xffff_ffff

unfoldable pub zero_extend : ℕ → ℕ → ℕ
zero_extend val n = if n == 64 then val else bit_or (bit_and val (2 ^ n - 1)) 0

unfoldable pub set_lower32 : ℕ → ℕ → ℕ
unfolding mask
set_lower32 dst src = bit_or (bit_and dst (not64 (mask 32))) (bit_and src (mask 32))

unfoldable pub set_lower : ℕ → ℕ → MemAccessSize → ℕ
unfolding mask
set_lower dst src byte = bit_or (bit_and dst (not64 (mask 8))) (bit_and src (mask 8))
set_lower dst src hex = bit_or (bit_and dst (not64 (mask 16))) (bit_and src (mask 16))
set_lower dst src word = bit_or (bit_and dst (not64 (mask 32))) (bit_and src (mask 32))
set_lower dst src dword = src

-- The case of a rotation, `type` 3.
rotate : ℕ → ℕ → ℕ
unfolding mask
rotate value amount =
    let x = u8 (64 + 256 - amount) in
    bit_or (bit_and (value >>> amount) (mask x)) ((value >>> x) <<< x)

-- For an amount below 64, as `imm6` is, and above 0 in a rotation (the shift by 64 in `rotate` is
-- undefined in C++; no caller gets there).
unfoldable pub shift_with_type : ℕ → ℕ → ℕ → ℕ
unfolding rotate
shift_with_type value type amount =
    if type == 0
    then value <<< amount
    else if type == 1
    then value >>> amount
    else if type == 2
    then sar64 value amount
    else if type == 3
    then rotate value amount
    else 0
