-- ===== src/Access.antt =====
-- `MemAccessSize` of src/include/bus.h and the tables that index it by a two-bit field
-- (`memsz_tbl` there, `mem_access_size_tbl` in src/cpu.cc).
use aarch64_emu.Base.{ℕ, zero, suc}

pub data MemAccessSize : Type 0 where
  byte hex word dword : MemAccessSize

abbrev pub memsz_tbl : ℕ → MemAccessSize
memsz_tbl zero = byte
memsz_tbl (suc zero) = hex
memsz_tbl (suc (suc zero)) = word
memsz_tbl (suc (suc (suc _))) = dword

-- How many bytes an access moves.
abbrev pub width : MemAccessSize → ℕ
width byte = 1
width hex = 2
width word = 4
width dword = 8
