-- ===== src/Cpu/Extend.antt =====
-- The value extensions of src/cpu.cc: `signed_extend`, `ExtendValue` and `shift_and_extend`.
use aarch64_emu.Base.{ℕ, ◌+◌, ◌-◌, min, bit_and, bit_or}
use aarch64_emu.Base.{Bool, true, false}
use aarch64_emu.Base.{not64, ◌<<<◌}
use aarch64_emu.Base.{◌==◌, ◌!=◌, if◌then◌else◌}
use aarch64_emu.Util.{mask, bit, sign_extend}

pub data ExtendType : Type 0 where
  uxtb uxth uxtw uxtx sxtb sxth sxtw sxtx : ExtendType

abbrev pub extendtype_tbl : ℕ → ExtendType
extendtype_tbl type =
    if type == 0
    then uxtb
    else if type == 1
    then uxth
    else if type == 2
    then uxtw
    else if type == 3
    then uxtx
    else if type == 4
    then sxtb
    else if type == 5
    then sxth
    else if type == 6
    then sxtw
    else sxtx

unfoldable pub signed_extend : ℕ → ℕ → ℕ
signed_extend val topbit = if bit val topbit != 0 then bit_or val (not64 (mask topbit)) else val

-- The two results of the `switch` in `ExtendValue`.
abbrev pub extend_len : ExtendType → ℕ
extend_len uxtb = 8
extend_len uxth = 16
extend_len uxtw = 32
extend_len uxtx = 64
extend_len sxtb = 8
extend_len sxth = 8
extend_len sxtw = 32
extend_len sxtx = 64

abbrev pub is_unsigned : ExtendType → Bool
is_unsigned uxtb = true
is_unsigned uxth = true
is_unsigned uxtw = true
is_unsigned uxtx = true
is_unsigned _ = false

-- `ExtendValue`, for a shift of at most 4.
unfoldable pub extend_value : ℕ → ℕ → ℕ → ℕ
extend_value value type shift =
    let etype = extendtype_tbl type in
    let len = min (extend_len etype) (64 - shift) in
    let value' = bit_and value (mask len) <<< shift in
    if is_unsigned etype then value' else sign_extend value' (len + shift)

-- The place of the sign in `shift_and_extend`.
abbrev pub sign_place : ExtendType → ℕ
sign_place sxtb = 7
sign_place sxth = 15
sign_place sxtw = 31
sign_place sxtx = 63
sign_place _ = 0

unfoldable pub shift_and_extend : ℕ → Bool → ℕ → ExtendType → ℕ
shift_and_extend val shift scale exttype =
    let val' = if shift then val <<< scale else val in
    if is_unsigned exttype then val' else signed_extend val' (sign_place exttype)
