-- ===== src/Cpu/LoadStore/Pair.antt =====
-- `decode_ldst_register_pair` of src/cpu.cc. The addresses of a pair are signed.
use aarch64_emu.Base.{ℕ, ◌+◌, ◌^◌, ltb}
use aarch64_emu.Base.{Bool, true, false, ◌&&◌}
use aarch64_emu.Base.{◌<<<◌, ◌+64◌}
use aarch64_emu.Base.{leb, ◌==◌, if◌then◌else◌}
use aarch64_emu.Base.{Outcome, ok, undefined, ◌>>=◌}
use aarch64_emu.Access.{word, dword}
use aarch64_emu.Util.{shift, flag, sign_extend}
use aarch64_emu.Cpu.{Cpu, unallocated, unsupported, set_xreg, reg_or_sp, load, store}

-- The sum of two `int64_t`, undefined where it overflows.
unfoldable pub int64_add : ℕ → ℕ → Outcome ℕ
int64_add x y =
    if ltb x (2 ^ 63) && ltb y (2 ^ 63) && leb (2 ^ 63) (x + y)
    then undefined
    else if leb (2 ^ 63) x && leb (2 ^ 63) y && ltb (x + y) (2 ^ 63 + 2 ^ 64)
    then undefined
    else ok (x +64 y)

-- The transfers of `decode_ldst_register_pair`.
unfoldable pub load_pair : Cpu → ℕ → Bool → ℕ → ℕ → Outcome Cpu
unfolding int64_add
load_pair c address if_32bit rt rt2 = do
  first ← load c address (if if_32bit then word else dword)
  let c' = set_xreg first.1 rt first.0
  next ← int64_add address (if if_32bit then 4 else 8)
  second ← load c' next (if if_32bit then word else dword)
  ok (set_xreg second.1 rt2 second.0)

unfoldable pub store_pair : Cpu → ℕ → Bool → ℕ → ℕ → Outcome Cpu
unfolding int64_add
store_pair c address if_32bit rt rt2 = do
  c' ← store c address (c.xregs rt) (if if_32bit then word else dword)
  next ← int64_add address (if if_32bit then 4 else 8)
  store c' next (c.xregs rt2) (if if_32bit then word else dword)

-- The write back of the base register.
unfoldable pub write_base : Cpu → ℕ → ℕ → Cpu
write_base c rn address = if rn == 31 then record c { sp = address } else set_xreg c rn address

-- Both transfers of `decode_ldst_register_pair`, from the first address on.
unfoldable pub move_pair : ℕ → ℕ → Bool → Cpu → Outcome Cpu
unfolding load_pair store_pair
move_pair inst address if_32bit c =
    let rt = shift inst 0 4 in
    let rt2 = shift inst 10 14 in
    if flag inst 22
    then load_pair c address if_32bit rt rt2
    else store_pair c address if_32bit rt rt2

-- `decode_ldst_register_pair`, from the switch on `opt` on: 1 post-indexed, 2 offset, 3 pre-indexed.
-- The offset is added as a signed number in front of the transfers, and as an unsigned one behind.
unfoldable pub register_pair : ℕ → ℕ → Bool → Cpu → Outcome Cpu
unfolding move_pair write_base
register_pair inst offset if_32bit c =
    let opt = shift inst 23 25 in
    let rn = shift inst 5 9 in
    let base = reg_or_sp c rn in
    if opt == 0
    then unsupported
    else if leb 4 opt
    then unallocated
    else if opt == 1
    then (do c' ← move_pair inst base if_32bit c; ok (write_base c' rn (base +64 offset)))
    else (do
      address ← int64_add base offset
      if opt == 2
          then move_pair inst address if_32bit c
          else (do c' ← move_pair inst address if_32bit c; ok (write_base c' rn address)))

unfoldable pub decode_ldst_register_pair : ℕ → Cpu → Outcome Cpu
unfolding register_pair
decode_ldst_register_pair inst c =
    let opc = shift inst 30 31 in
    let offset = sign_extend (shift inst 15 21) 7 in
    if opc == 0
    then register_pair inst (offset <<< 2) true c
    else if opc == 1
    then unsupported
    else if opc == 2
    then register_pair inst (offset <<< 3) false c
    else unallocated
