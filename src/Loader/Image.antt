-- ===== src/Loader/Image.antt =====
-- The guest's RAM as the program's segments describe it, and what a file must be for that.
use aarch64_emu.Base.{ℕ, zero, suc, ◌+◌, ◌-◌, ◌*◌, ◌^◌, ◌≤◌, ◌<◌, ◌≡◌, ◌⊎◌, Option, none, some}
use aarch64_emu.Base.{◌!=◌, if◌then◌else◌, ok, ◌+64◌, ◌-64◌}
use aarch64_emu.Loader.Memory.{Host}
use aarch64_emu.Loader.Copies.{HasBytes, inside}
use aarch64_emu.Loader.{Elf, Ehdr, Phdr, text_start_paddr, ram_size}

-- A memory has the bytes of the file that `h0` has at `base`.
abbrev pub HasFile : Host → ℕ → ℕ → Host → Type 0
HasFile h0 base size h = (q : ℕ) → base ≤ q → q < base + size → h q ≡ h0 q

-- A segment that is loaded lies inside the file and inside RAM.
pub record Fits (size : ℕ) (ph : Phdr) : Type 0 where
  pub in_file : ph.p_offset + ph.p_filesz ≤ size
  pub above : text_start_paddr ≤ ph.p_paddr
  pub below : ph.p_paddr + ph.p_memsz ≤ text_start_paddr + ram_size
  pub sizes : ph.p_filesz ≤ ph.p_memsz

-- A file of `size` bytes at `base` whose headers read as `eh` and `phs`, wherever else the memory
-- changes, and whose segments fit.
pub record IsProgram (elf : Elf) (h0 : Host) (base size : ℕ) (eh : Ehdr) (phs : ℕ → Phdr)
    : Type 0 where
  pub header : (h : Host) → HasFile h0 base size h → elf.ehdr h base ≡ ok eh
  pub headers :
      (h : Host) (i : ℕ)
      → HasFile h0 base size h
      → i < eh.e_phnum
      → elf.phdr h (base +64 eh.e_phoff +64 i * elf.phdr_size) ≡ ok (phs i)
  pub few : eh.e_phnum < 2 ^ 16
  pub bytes : HasBytes h0 base size
  pub ends : base + size < 2 ^ 64
  pub fits : (i : ℕ) → i < eh.e_phnum → (phs i).p_type ≡ elf.pt_load → Fits size (phs i)

-- RAM, by offsets from its start, with one more segment: the bytes from the file, then zeros.
abbrev pub placed : Elf → Host → ℕ → Phdr → (ℕ → Option ℕ) → ℕ → Option ℕ
placed elf h0 base ph image o =
    let paddr = text_start_paddr + o in
    if ph.p_type != elf.pt_load
    then image o
    else if inside ph.p_paddr ph.p_filesz paddr
    then h0 (base + (ph.p_offset + (paddr - ph.p_paddr)))
    else if inside ph.p_paddr ph.p_memsz paddr
    then some 0
    else image o

-- RAM with the first `n` segments over zeros, each over those before it.
abbrev pub ram_image : Elf → Host → ℕ → (ℕ → Phdr) → ℕ → ℕ → Option ℕ
ram_image elf h0 base phs zero o = some 0
ram_image elf h0 base phs (suc n) o = placed elf h0 base (phs n) (ram_image elf h0 base phs n) o

-- The entry point with the first `n` segments: moved as the last of those that are loaded.
abbrev pub entry_point : Elf → Ehdr → (ℕ → Phdr) → ℕ → Option ℕ
entry_point elf eh phs zero = none
entry_point elf eh phs (suc n) =
    if (phs n).p_type != elf.pt_load
    then entry_point elf eh phs n
    else some (eh.e_entry -64 (phs n).p_vaddr +64 (phs n).p_paddr)

-- RAM in the process, at `ram`, apart from the file.
pub record IsRamMap (h : Host) (base size ram : ℕ) : Type 0 where
  pub bytes : HasBytes h ram ram_size
  pub ends : ram + ram_size < 2 ^ 64
  pub apart : (base + size ≤ ram) ⊎ (ram + ram_size ≤ base)
