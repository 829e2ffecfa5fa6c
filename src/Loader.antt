-- ===== src/Loader.antt =====
-- src/loader.cc and src/include/loader.h: the program's file, mapped into memory, and its segments,
-- copied into the guest's RAM. What the system calls answer, and how the structures of <elf.h> lie
-- in memory, are parameters.
pub mod Memory
pub mod Copies
pub mod Image
pub mod Steps
pub mod Segments
pub mod Load
use aarch64_emu.Base.{ℕ, zero, suc, ◌+◌, ◌-◌, ◌*◌, ◌^◌, ◌%◌, bit_and, Bool, true, false}
use aarch64_emu.Base.{Option, none, some, u64, not64, ◌+64◌, ◌-64◌, ltb, ◌==◌, ◌!=◌}
use aarch64_emu.Base.{if◌then◌else◌, Outcome, ok, undefined, ◌>>=◌}
use aarch64_emu.Loader.Memory.{Host, memcpy, memset}

-- The fields of `Elf64_Ehdr` and `Elf64_Phdr` that the loader reads.
pub record Ehdr : Type 0 where
  pub e_entry : ℕ
  pub e_phoff : ℕ
  pub e_shoff : ℕ
  pub e_phnum : ℕ
  pub e_shstrndx : ℕ

pub record Phdr : Type 0 where
  pub p_type : ℕ
  pub p_offset : ℕ
  pub p_vaddr : ℕ
  pub p_paddr : ℕ
  pub p_filesz : ℕ
  pub p_memsz : ℕ

-- What <elf.h> gives: the structures read at an address, their sizes, and two segment types.
pub record Elf : Type 0 where
  pub ehdr : Host → ℕ → Outcome Ehdr
  pub phdr : Host → ℕ → Outcome Phdr
  pub sh_addr : Host → ℕ → Outcome ℕ
  pub phdr_size : ℕ
  pub shdr_size : ℕ
  pub pt_load : ℕ
  pub pt_interp : ℕ

-- What the operating system answers: `open`, `fstat`, and `mmap` of the file, at a length, and of the
-- RAM, as the address and the memory after it, or none for MAP_FAILED.
pub record System : Type 0 where
  pub fd : ℕ
  pub st_size : ℕ
  pub map_file : ℕ → Option (ℕ × Host)
  pub map_ram : Host → Option (ℕ × Host)

-- `entry` has no value until a segment is loaded.
pub record Loader : Type 0 where
  pub entry : Option ℕ
  pub init_sp : ℕ
  pub map_base : ℕ
  pub text_size : ℕ
  pub file_map_start : ℕ
  pub ph_tbl : ℕ
  pub sh_tbl : ℕ
  pub sh_name : ℕ
  pub use_paddr : Bool
  pub host : Host

abbrev pub text_start_paddr : ℕ
text_start_paddr = 0x40000000

abbrev pub ram_size : ℕ
ram_size = 0x8000000

-- A result of -1 is none.
unfoldable pub init : System → Elf → Loader → Outcome (Option Loader)
init os elf l =
    if os.fd == 0
    then ok none
    else elim (os.map_file (bit_and (u64 (os.st_size + 4095)) (not64 4095))) [
      | none ↦ ok none
      | some (base, h) ↦ (do
        eh ← elf.ehdr h base
        let sh_tbl = base +64 eh.e_shoff
        sh_addr ← elf.sh_addr h (sh_tbl +64 eh.e_shstrndx * elf.shdr_size)
        ok (
            some (record l {
              file_map_start = base;
              ph_tbl = base +64 eh.e_phoff;
              sh_tbl = sh_tbl;
              sh_name = base +64 sh_addr;
              host = h;
            })))
    ]

-- `ph_tbl_[i]`.
abbrev pub segment_header : Elf → Loader → ℕ → Outcome Phdr
segment_header elf l i = elf.phdr l.host (l.ph_tbl +64 i * elf.phdr_size)

-- The loop of `get_interp`, with `n` headers left from the `i`-th on; the result is the pointer.
unfoldable pub find_interp : Elf → ℕ → ℕ → Loader → Outcome ℕ
find_interp elf zero i l = ok 0
find_interp elf (suc n) i l = do
  ph ← segment_header elf l i
  elim (ph.p_type == elf.pt_interp) [
    | true ↦ ok (l.file_map_start +64 ph.p_offset)
    | false ↦ find_interp elf n (i + 1) l
  ]

unfoldable pub get_interp : Elf → Loader → Outcome ℕ
unfolding find_interp
get_interp elf l = do eh ← elf.ehdr l.host l.file_map_start; find_interp elf eh.e_phnum 0 l

-- Where a guest address lies in the process.
abbrev pub host_address : Loader → ℕ → ℕ
host_address l paddr = l.map_base +64 paddr -64 text_start_paddr

-- The zero fill behind the bytes from the file.
unfoldable pub clear_bss : Loader → Phdr → Host → Outcome Host
clear_bss l ph h =
    if ltb ph.p_filesz ph.p_memsz
    then memset (ph.p_memsz - ph.p_filesz) (host_address l (ph.p_paddr +64 ph.p_filesz)) 0 h
    else ok h

-- The header `i` again, after memory has changed.
abbrev pub header_after : Elf → Loader → Host → ℕ → Outcome Phdr
header_after elf l h i = segment_header elf (record l { host = h }) i

-- One round of the loop of `load`, for the `i`-th header, which lies in the memory that changes.
unfoldable pub load_segment : Elf → ℕ → Loader → Outcome Loader
unfolding clear_bss
load_segment elf i l = do
  ph ← segment_header elf l i
  if ph.p_type != elf.pt_load then ok l else (do
    copied ←
        memcpy ph.p_filesz (host_address l ph.p_paddr) (l.file_map_start +64 ph.p_offset) l.host
    bss ← header_after elf l copied i
    cleared ← clear_bss l bss copied
    last ← header_after elf l cleared i
    eh ← elf.ehdr cleared l.file_map_start
    ok (record l {
      host = cleared;
      use_paddr = if ph.p_vaddr != ph.p_paddr then true else l.use_paddr;
      entry = some (eh.e_entry -64 last.p_vaddr +64 last.p_paddr);
    }))

-- The loop, whose condition reads the number of headers anew, with fuel.
unfoldable pub load_segments : Elf → ℕ → ℕ → Loader → Outcome Loader
unfolding load_segment
load_segments elf zero i l = ok l
load_segments elf (suc fuel) i l = do
  eh ← elf.ehdr l.host l.file_map_start
  elim (ltb i eh.e_phnum) [
    | true ↦ (do l' ← load_segment elf i l; load_segments elf fuel (i + 1) l')
    | false ↦ ok l
  ]

-- The stack pointer that the guest starts with.
abbrev pub stack_top : ℕ
stack_top = let top = text_start_paddr +64 ram_size in top -64 (top % 16) +64 16

-- The rest of `load`, with the RAM mapped at `base`. The number of headers has 16 bits, so `2 ^ 16`
-- rounds end the loop.
unfoldable pub load_ram : Elf → Loader → ℕ → Outcome Loader
unfolding load_segments
load_ram elf l base = do
  clean ← memset ram_size base 0 l.host
  l' ← load_segments elf (2 ^ 16) 0 (record l { host = clean; map_base = base })
  ok (record l' { init_sp = stack_top })

-- A result of -1 is none.
unfoldable pub load : System → Elf → Loader → Outcome (Option Loader)
unfolding get_interp load_ram
load os elf l = do
  interp_str ← get_interp elf l
  if interp_str != 0 then ok none else elim (os.map_ram l.host) [
    | none ↦ ok none
    | some (base, h) ↦ (do l' ← load_ram elf (record l { host = h }) base; ok (some l'))
  ]
