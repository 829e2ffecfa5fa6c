-- ===== src/Tests/Boot.antt =====
-- A small program file with the layout of <elf.h>, and the theorems on its start.
use aarch64_emu.Base.{ℕ, zero, suc, ◌+◌, ◌-◌, ◌*◌, ◌≤◌, ◌<◌, ◌≡◌, refl, ap, ◌∙◌, arith, inl}
use aarch64_emu.Base.{
  [], ◌∷◌, Option, none, some, ◌==◌, if◌then◌else◌, Outcome, ok, undefined, ◌>>=◌, false,
}
use aarch64_emu.Loader.Memory.{Host}
use aarch64_emu.Loader.Copies.{inside}
use aarch64_emu.Loader
use aarch64_emu.Loader.{Ehdr, Phdr, Elf, System, Loader, ram_size}
use aarch64_emu.Loader.Image.{HasFile, IsProgram, ram_image, IsRamMap}
use aarch64_emu.Loader.Load.{IsLoaded, load_lem}
use aarch64_emu.Cpu.{Cpu}
use aarch64_emu.Emulator.Start.{Emulator, new_emulator, main}
use aarch64_emu.Emulator.Boot.{IsBooted, new_emulator-IsBooted}
use aarch64_emu.Emulator.Refusal.{main-interp}
use aarch64_emu.Tests.Machine.{small_cpu}

-- A byte in front of a field.
abbrev next : Option ℕ → Outcome ℕ → Outcome ℕ
next none rest = undefined
next (some b) rest = rest >>= λ v. ok (b + v * 256)

-- A little-endian field of `n` bytes.
abbrev field : ℕ → ℕ → Host → Outcome ℕ
field zero p h = ok 0
field (suc n) p h = next (h p) (field n (p + 1) h)

field_step :
    (n p : ℕ) (h h0 : Host)
    → h p ≡ h0 p
    → field n (p + 1) h ≡ field n (p + 1) h0
    → field (suc n) p h ≡ field (suc n) p h0
field_step n p h h0 here rest =
    ap (λ (cell : Option ℕ). next cell (field n (p + 1) h)) here
    ∙ ap (λ (after : Outcome ℕ). next (h0 p) after) rest

field-same :
    (n p : ℕ) (h h0 : Host)
    → ((q : ℕ) → p ≤ q → q < p + n → h q ≡ h0 q)
    → field n p h ≡ field n p h0
field-same zero p h h0 same = refl
field-same (suc n) p h h0 same =
    let rest = field-same n (p + 1) h h0 (λ q le lt. same q (omega arith) (omega arith)) in
    let here : h p ≡ h0 p = same p (omega arith) (omega arith) in field_step n p h h0 here rest

abbrev ehdr64 : Host → ℕ → Outcome Ehdr
ehdr64 h p = do
  entry ← field 8 (p + 24) h
  phoff ← field 8 (p + 32) h
  shoff ← field 8 (p + 40) h
  phnum ← field 2 (p + 56) h
  shstrndx ← field 2 (p + 62) h
  ok (record {
    e_entry = entry;
    e_phoff = phoff;
    e_shoff = shoff;
    e_phnum = phnum;
    e_shstrndx = shstrndx;
  })

abbrev phdr64 : Host → ℕ → Outcome Phdr
phdr64 h p = do
  type ← field 4 p h
  offset ← field 8 (p + 8) h
  vaddr ← field 8 (p + 16) h
  paddr ← field 8 (p + 24) h
  filesz ← field 8 (p + 32) h
  memsz ← field 8 (p + 40) h
  ok (record {
    p_type = type;
    p_offset = offset;
    p_vaddr = vaddr;
    p_paddr = paddr;
    p_filesz = filesz;
    p_memsz = memsz;
  })

abbrev elf64 : Elf
elf64 = record {
  ehdr = ehdr64;
  phdr = phdr64;
  sh_addr = λ h p. field 8 (p + 16) h;
  phdr_size = 56;
  shdr_size = 64;
  pt_load = 1;
  pt_interp = 3;
}

-- One header, of the type `type`: eight bytes of code, NOP first, and eight zero bytes, for the
-- start of RAM.
abbrev file_byte : ℕ → ℕ → ℕ
file_byte type o =
    if o == 27
    then 0x40
    else if o == 32
    then 64
    else if o == 40
    then 128
    else if o == 56
    then 1
    else if o == 64
    then type
    else if o == 72
    then 192
    else if o == 83
    then 0x40
    else if o == 91
    then 0x40
    else if o == 96
    then 8
    else if o == 104
    then 16
    else if o == 192
    then 0x1f
    else if o == 193
    then 0x20
    else if o == 194
    then 0x03
    else if o == 195
    then 0xd5
    else 0

abbrev file_base : ℕ
file_base = 0x10000

abbrev file_size : ℕ
file_size = 200

abbrev small_file : ℕ → Host
small_file type q =
    if inside file_base file_size q then some (file_byte type (q - file_base)) else none

abbrev ram_base : ℕ
ram_base = 0x1000000

abbrev small_host : ℕ → Host
small_host type q = if inside ram_base ram_size q then some 0 else small_file type q

abbrev small_ehdr : Ehdr
small_ehdr = record {
  e_entry = 0x40000000;
  e_phoff = 64;
  e_shoff = 128;
  e_phnum = 1;
  e_shstrndx = 0;
}

abbrev small_phdr : ℕ → ℕ → Phdr
small_phdr type i = record {
  p_type = type;
  p_offset = 192;
  p_vaddr = 0x40000000;
  p_paddr = 0x40000000;
  p_filesz = 8;
  p_memsz = 16;
}

-- A field of the file, where a memory has the file.
field_at :
    (type : ℕ) (h : Host) (n o : ℕ)
    → HasFile (small_file type) file_base file_size h
    → o + n ≤ file_size
    → field n (file_base + o) h ≡ field n (file_base + o) (small_file type)
field_at type h n o same le =
    field-same n (file_base + o) h (small_file type)
      (λ q above below. same q (omega arith) (omega arith))

header_same :
    (type : ℕ) (h : Host)
    → HasFile (small_file type) file_base file_size h
    → ehdr64 h file_base ≡ ehdr64 (small_file type) file_base
header_same type h same =
    rw
      (
        field_at type h 8 24 same (omega arith),
        field_at type h 8 32 same (omega arith),
        field_at type h 8 40 same (omega arith),
        field_at type h 2 56 same (omega arith),
        field_at type h 2 62 same (omega arith),
      )
      refl

phdr_same :
    (type : ℕ) (h : Host)
    → HasFile (small_file type) file_base file_size h
    → phdr64 h (file_base + 64) ≡ phdr64 (small_file type) (file_base + 64)
phdr_same type h same =
    rw
      (
        field_at type h 4 64 same (omega arith),
        field_at type h 8 72 same (omega arith),
        field_at type h 8 80 same (omega arith),
        field_at type h 8 88 same (omega arith),
        field_at type h 8 96 same (omega arith),
        field_at type h 8 104 same (omega arith),
      )
      refl

small-IsProgram :
    (type : ℕ)
    → phdr64 (small_file type) (file_base + 64) ≡ ok (small_phdr type 0)
    → IsProgram elf64 (small_file type) file_base file_size small_ehdr (small_phdr type)
small-IsProgram type reads = record {
  header = λ h same. header_same type h same ∙ refl;
  headers = λ h i same lt. let e : i ≡ 0 = omega arith in rw e (phdr_same type h same ∙ reads);
  few = omega arith;
  bytes = λ q le lt. (file_byte type (q - file_base), ground arith);
  ends = omega arith;
  fits = λ i lt e. record {
    in_file = omega arith;
    above = omega arith;
    below = omega arith;
    sizes = omega arith;
  };
}

small-IsRamMap : (type : ℕ) → IsRamMap (small_host type) file_base file_size ram_base
small-IsRamMap type = record {
  bytes = λ q le lt. (0, ground arith);
  ends = omega arith;
  apart = inl (omega arith);
}

small-HasFile : (type : ℕ) → HasFile (small_file type) file_base file_size (small_host type)
small-HasFile type q le lt = ground arith

abbrev small_os : ℕ → System
small_os type = record {
  fd = 3;
  st_size = file_size;
  map_file = λ n. some (file_base, small_file type);
  map_ram = λ h. some (ram_base, small_host type);
}

abbrev small_loader : Loader
small_loader = record {
  entry = none;
  init_sp = 0;
  map_base = 0;
  text_size = 0;
  file_map_start = 0;
  ph_tbl = 0;
  sh_tbl = 0;
  sh_name = 0;
  use_paddr = false;
  host = λ _. none;
}

new_emulator-IsBooted_example :
    (emu : Emulator) × (c' : Cpu) × (new_emulator
        (small_os 1)
        elf64
        (some (λ _. none))
        small_loader
        small_cpu
      ≡ ok emu)
    × IsBooted (ram_image elf64 (small_file 1) file_base (small_phdr 1) 1) 0x40000000 emu c'
new_emulator-IsBooted_example =
    new_emulator-IsBooted elf64 (small_os 1) small_loader small_ehdr (small_phdr 1) (small_file 1)
      (small_host 1) file_base file_size ram_base (small-IsProgram 1 refl) (small-IsRamMap 1)
      (small-HasFile 1) (λ _. none) 0x40000000 0 small_cpu (omega arith) refl refl
      (λ k lt. omega arith) refl refl (omega arith) (omega arith) (omega arith)

-- The image starts with a NOP.
first_word :
    (o : ℕ)
    → o < 4
    → ram_image elf64 (small_file 1) file_base (small_phdr 1) 1 o
      ≡ some (if o == 0 then 0x1f else if o == 1 then 0x20 else if o == 2 then 0x03 else 0xd5)
first_word o lt = ground arith

main-interp_example :
    main (0 ∷ []) [] 2 (small_os 3) elf64 (some (λ _. none)) small_loader small_cpu ≡ undefined
main-interp_example =
    main-interp elf64 (small_os 3) small_loader small_ehdr (small_phdr 3) (small_file 3) file_base
      (some (λ _. none)) 0 small_cpu (0 ∷ []) [] 2 0 (omega arith) (omega arith) refl refl refl
      (λ i lt. let e : i ≡ 0 = omega arith in rw e refl) (omega arith)
      (λ j lt. absurd (omega arith)) refl (omega arith)

abbrev ready_loader : Loader
ready_loader = record small_loader {
  file_map_start = file_base;
  ph_tbl = file_base + 64;
  host = small_file 1;
}

load_lem_example :
    (l' : Loader) × (Loader.load (small_os 1) elf64 ready_loader ≡ ok (some l'))
    × IsLoaded elf64 ready_loader small_ehdr (small_phdr 1) (small_host 1) ram_base l'
load_lem_example =
    load_lem elf64 (small_os 1) ready_loader file_size small_ehdr (small_phdr 1)
      (small-IsProgram 1 refl) refl refl (small_host 1) ram_base (λ k lt. omega arith) refl
      (small-IsRamMap 1) (small-HasFile 1)
