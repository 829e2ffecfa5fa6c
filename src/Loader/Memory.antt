-- ===== src/Loader/Memory.antt =====
-- The emulator's own address space, and the two library calls that src/loader.cc moves memory with.
-- A cell is an address of the process; one that is not mapped has no byte, and to touch it is
-- undefined.
use aarch64_emu.Base.{ℕ, zero, suc, ◌+◌, Bool, ◌&&◌, Option, none, some}
use aarch64_emu.Base.{ltb, if◌then◌else◌, update, Outcome, ok, undefined}

abbrev pub Host : Type 0
Host = ℕ → Option ℕ

-- `n` bytes, one after the other.
unfoldable pub copy : ℕ → ℕ → ℕ → Host → Outcome Host
copy zero dst src h = ok h
copy (suc n) dst src h = elim (h src) [
  | none ↦ undefined
  | some b ↦ elim (h dst) [
    | none ↦ undefined
    | some _ ↦ copy n (dst + 1) (src + 1) (update h dst (some b))
  ]
]

-- The areas of `n` bytes at two addresses have a byte in common.
abbrev pub overlaps : ℕ → ℕ → ℕ → Bool
overlaps n dst src = ltb dst (src + n) && ltb src (dst + n)

-- `memcpy(dst, src, n)`, which is undefined on areas that overlap.
unfoldable pub memcpy : ℕ → ℕ → ℕ → Host → Outcome Host
unfolding copy
memcpy n dst src h = if overlaps n dst src then undefined else copy n dst src h

-- `memset(dst, value, n)`.
unfoldable pub memset : ℕ → ℕ → ℕ → Host → Outcome Host
memset zero dst value h = ok h
memset (suc n) dst value h = elim (h dst) [
  | none ↦ undefined
  | some _ ↦ memset n (dst + 1) value (update h dst (some value))
]
