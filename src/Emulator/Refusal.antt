-- ===== src/Emulator/Refusal.antt =====
-- What `main` of src/emulator.cc does of a program that the loader refuses.
use aarch64_emu.Base.{ℕ, ◌*◌, ◌≤◌, ◌<◌, ◌≡◌, ◌≢◌, refl, arith}
use aarch64_emu.Base.{List, false, some, ok, undefined, ◌+64◌, ltb}
use aarch64_emu.Cpu.{Cpu}
use aarch64_emu.Loader.{System, Elf, Ehdr, Phdr, Loader}
use aarch64_emu.Loader.Memory.{Host}
use aarch64_emu.Loader.Load.{load-interp}
use aarch64_emu.Emulator.Start.{DiskFile, new_emulator, main}
use aarch64_emu.Emulator.Boot.{ready, ready_lem, map_length}

-- A program that names an interpreter is not run, and `main` goes on as if nothing had been decided.
-- For a program file that opens and is mapped, whose file header, section header for the names and
-- segment headers read, and whose `k`-th segment header is the first that names an interpreter, with
-- the name not at address 0, `main` on at least two arguments is undefined, since it tests
-- `init_done_`, which has no value then; whatever the segments are, the RAM's mapping, the disk and
-- what is typed.
pub main-interp :
    (elf : Elf) (os : System) (l : Loader) (eh : Ehdr) (phs : ℕ → Phdr) (file : Host) (base : ℕ)
    (disk : DiskFile) (sh_addr : ℕ) (c : Cpu) (turns typed : List ℕ) (argc k : ℕ)
    → 2 ≤ argc
    → os.fd ≢ 0
    → os.map_file (map_length os) ≡ some (base, file)
    → elf.ehdr file base ≡ ok eh
    → elf.sh_addr file (base +64 eh.e_shoff +64 eh.e_shstrndx * elf.shdr_size) ≡ ok sh_addr
    → ((i : ℕ)
        → i < eh.e_phnum
        → elf.phdr file (base +64 eh.e_phoff +64 i * elf.phdr_size) ≡ ok (phs i))
    → k < eh.e_phnum
    → ((j : ℕ) → j < k → (phs j).p_type ≢ elf.pt_interp)
    → (phs k).p_type ≡ elf.pt_interp
    → base +64 (phs k).p_offset ≢ 0
    → main turns typed argc os elf disk l c ≡ undefined
unfolding main new_emulator
main-interp elf os l eh phs file base disk sh_addr c turns typed argc k args opened mapped header
      names headers lt before found somewhere =
    let l1 = ready elf eh sh_addr base file l in
    let first = ready_lem elf os eh sh_addr base file l opened mapped header names in
    let refused = load-interp elf os l1 eh phs k header headers lt before found somewhere in
    let enough : ltb argc 2 ≡ false = ground arith in rw (enough, first, refused) refl
