-- ===== src/Emulator/Boot.antt =====
-- The start of the program, from its file over the loader and the constructors to the first
-- instruction (src/emulator.cc, src/loader.cc, src/cpu.cc).
use aarch64_emu.Base.{ℕ, ◌+◌, ◌-◌, ◌*◌, ◌^◌, ◌≤◌, ◌<◌, ◌≡◌, ◌≢◌, refl, ◌∙◌, ap, arith}
use aarch64_emu.Base.{true, Option, some, none, ok, ◌+64◌, bit_and, u64, not64, ne→==}
use aarch64_emu.Mem.{Mem, get_ptr}
use aarch64_emu.Cpu.{Cpu, fetch}
use aarch64_emu.Loader
use aarch64_emu.Loader.{System, Elf, Ehdr, Phdr, Loader, text_start_paddr, ram_size}
use aarch64_emu.Loader.Memory.{Host}
use aarch64_emu.Loader.Image.{HasFile, IsProgram, ram_image, entry_point, IsRamMap}
use aarch64_emu.Loader.Load.{IsLoaded, load_lem}
use aarch64_emu.Emulator.Start.{
  new_uart, new_gic, new_control_regs, new_virtio, new_bus, new_cpu, DiskFile, Emulator, new_loader,
  create_cpu, new_emulator,
}
use aarch64_emu.Emulator.Fetch.{le_word, fetch_lem}

-- The loader after `Loader::Init`, over a file at `base` with the header `eh`.
abbrev pub ready : Elf → Ehdr → ℕ → ℕ → Host → Loader → Loader
ready elf eh sh_addr base file l = record l {
  entry = none;
  file_map_start = base;
  ph_tbl = base +64 eh.e_phoff;
  sh_tbl = base +64 eh.e_shoff;
  sh_name = base +64 sh_addr;
  host = file;
}

-- The length at which the file is mapped: its size, up to the next page.
abbrev pub map_length : System → ℕ
map_length os = bit_and (u64 (os.st_size + 4095)) (not64 4095)

pub ready_lem :
    (elf : Elf) (os : System) (eh : Ehdr) (sh_addr base : ℕ) (file : Host) (l : Loader)
    → os.fd ≢ 0
    → os.map_file (map_length os) ≡ some (base, file)
    → elf.ehdr file base ≡ ok eh
    → elf.sh_addr file (base +64 eh.e_shoff +64 eh.e_shstrndx * elf.shdr_size) ≡ ok sh_addr
    → Loader.init os elf (new_loader l) ≡ ok (some (ready elf eh sh_addr base file l))
unfolding Loader.init
ready_lem elf os eh sh_addr base file l opened mapped header names =
    rw (ne→== _ _ opened, mapped, header, names) refl

-- The processor as the constructor leaves it, for a loader that has the entry point.
abbrev started : (ℕ → Option ℕ) → ℕ → Loader → Cpu → Cpu
started disk entry l c = record c {
  bus = record (c.bus) {
    mem = record (c.bus.mem) {
      text_start = text_start_paddr;
      text_size = l.text_size;
      map_base = l.map_base;
      cell = l.host;
    };
    uart = new_uart c.bus.uart;
    gic = new_gic c.bus.gic;
    virtio = record (c.bus.virtio) {
      control_regs = new_control_regs c.bus.virtio.control_regs;
      disk = disk;
      virtqueue = none;
      id = 0;
    };
  };
  mmu = record (c.mmu) { sctlr_el1 = 0xc50838 };
  pc = entry;
  xregs = λ _. 0;
  sp = l.init_sp;
  daif = 0x3c0;
  el = 1;
  icc_sre_el1 = 0x7;
  cntv_ctl_el0 = 0;
  cntfrq_el0 = 0x3b9aca0;
  cntv_tval_el0 = 0;
}

create_cpu_lem :
    (disk : ℕ → Option ℕ) (entry : ℕ) (l : Loader) (c : Cpu)
    → l.entry ≡ some entry
    → create_cpu (some disk) l c
      ≡ ok (record { cpu = some (started disk entry l c); loader = l; init_done = some true })
unfolding create_cpu new_cpu new_bus new_virtio
create_cpu_lem disk entry l c there = rw there refl

run_emulator :
    (os : System) (elf : Elf) (disk : DiskFile) (l l1 l2 : Loader) (c : Cpu)
    → Loader.init os elf (new_loader l) ≡ ok (some l1)
    → Loader.load os elf l1 ≡ ok (some l2)
    → new_emulator os elf disk l c ≡ create_cpu disk l2 c
unfolding new_emulator
run_emulator os elf disk l l1 l2 c first second = rw (first, second) refl

get_ptr_at :
    (m : Mem) (ram a : ℕ)
    → m.text_start ≡ 0x40000000
    → m.map_base ≡ ram
    → 0x40000000 ≤ a
    → a < 0x48000000
    → ram + ram_size < 2 ^ 64
    → get_ptr m a ≡ ram + (a - 0x40000000)
unfolding get_ptr
get_ptr_at m ram a start base above below ends = omega (arith, start, base)

-- What `Emulator::Emulator` leaves of a program whose image of RAM is `image` and whose entry point
-- is `entry`: a processor at the entry point, at EL1 and with translation off, whose next
-- instruction is the little-endian word that the image has there.
pub record IsBooted (image : ℕ → Option ℕ) (entry : ℕ) (emu : Emulator) (c : Cpu) : Type 0 where
  pub ready_to_run : emu.init_done ≡ some true
  pub processor : emu.cpu ≡ some c
  pub at_entry : c.pc ≡ entry
  pub at_el1 : c.el ≡ 1
  pub stack : c.sp ≡ 0x48000010
  pub registers : (r : ℕ) → c.xregs r ≡ 0
  pub memory :
      (o : ℕ) → o < ram_size → c.bus.mem.cell (get_ptr c.bus.mem (0x40000000 + o)) ≡ image o
  pub first :
      (b : ℕ → ℕ)
      → ((k : ℕ) → k < 5 → (image (entry - 0x40000000 + k) ≡ some (b k)) × (b k < 256))
      → fetch c ≡ ok (le_word b, c)

module _ (elf : Elf) (os : System) (l : Loader) (eh : Ehdr) (phs : ℕ → Phdr) (file h : Host)
    (base size ram : ℕ) (program : IsProgram elf file base size eh phs)
    (map : IsRamMap h base size ram) (same_file : HasFile file base size h) where
  abbrev booted_image : ℕ → Option ℕ
  booted_image = ram_image elf file base phs eh.e_phnum

  started-get_ptr :
      (disk : ℕ → Option ℕ) (entry sh_addr : ℕ) (l2 : Loader) (c : Cpu) (a : ℕ)
      → IsLoaded elf (ready elf eh sh_addr base file l) eh phs h ram l2
      → 0x40000000 ≤ a
      → a < 0x48000000
      → get_ptr (started disk entry l2 c).bus.mem a ≡ ram + (a - 0x40000000)
  started-get_ptr disk entry sh_addr l2 c a is le lt =
      get_ptr_at (started disk entry l2 c).bus.mem ram a refl is.at_ram le lt map.ends

  -- The memory of the processor at a guest address.
  started-image :
      (disk : ℕ → Option ℕ) (entry sh_addr : ℕ) (l2 : Loader) (c : Cpu) (o : ℕ)
      → IsLoaded elf (ready elf eh sh_addr base file l) eh phs h ram l2
      → o < ram_size
      → l2.host (get_ptr (started disk entry l2 c).bus.mem (0x40000000 + o)) ≡ booted_image o
  started-image disk entry sh_addr l2 c o is lt =
      let at_o : 0x40000000 + o - 0x40000000 ≡ o = omega arith in
      let e =
        started-get_ptr disk entry sh_addr l2 c (0x40000000 + o) is (omega arith) (omega arith) in
      ap l2.host (e ∙ ap (λ (t : ℕ). ram + t) at_o) ∙ is.image o lt

  started-fetch :
      (disk : ℕ → Option ℕ) (entry sh_addr : ℕ) (l2 : Loader) (c : Cpu) (b : ℕ → ℕ)
      → IsLoaded elf (ready elf eh sh_addr base file l) eh phs h ram l2
      → 0 < ram
      → 0x40000000 ≤ entry
      → entry + 5 ≤ 0x48000000
      → ((k : ℕ) → k < 5 → (booted_image (entry - 0x40000000 + k) ≡ some (b k)) × (b k < 256))
      → fetch (started disk entry l2 c) ≡ ok (le_word b, started disk entry l2 c)
  started-fetch disk entry sh_addr l2 c b is nonzero above below bytes =
      let at_entry = started-get_ptr disk entry sh_addr l2 c entry is above (omega arith) in
      fetch_lem (started disk entry l2 c) b refl above (omega arith) (omega (arith, at_entry))
        (λ k lt.
          let e : get_ptr (started disk entry l2 c).bus.mem entry + k
              ≡ ram + (entry - 0x40000000 + k) =
            omega (arith, at_entry) in
          (
            ap l2.host e ∙ is.image (entry - 0x40000000 + k) (omega arith) ∙ (bytes k lt).0,
            (bytes k lt).1,
          ))

  started-IsBooted :
      (disk : ℕ → Option ℕ) (entry sh_addr : ℕ) (l2 : Loader) (c : Cpu)
      → IsLoaded elf (ready elf eh sh_addr base file l) eh phs h ram l2
      → 0 < ram
      → 0x40000000 ≤ entry
      → entry + 5 ≤ 0x48000000
      → IsBooted booted_image entry
          (record { cpu = some (started disk entry l2 c); loader = l2; init_done = some true })
          (started disk entry l2 c)
  started-IsBooted disk entry sh_addr l2 c is nonzero above below = record {
    ready_to_run = refl;
    processor = refl;
    at_entry = refl;
    at_el1 = refl;
    stack = is.stack;
    registers = λ r. refl;
    memory = λ o lt. started-image disk entry sh_addr l2 c o is lt;
    first = λ b bytes. started-fetch disk entry sh_addr l2 c b is nonzero above below bytes;
  }

  -- The start as a whole. For a program file that opens, that is mapped and whose headers read, that
  -- names no interpreter, whose segments fit and whose entry point, moved with the last segment,
  -- lies in RAM, five bytes or more below its end, for RAM that is mapped apart from it at an
  -- address other than 0, and for a disk image that opens: `Emulator::Emulator` returns with a
  -- processor ready to run at the entry point, whose RAM is the segments' image and whose first
  -- instruction is the word that the image has there. The loader's `text_size`, which is set
  -- nowhere and is only copied, is any number.
  pub new_emulator-IsBooted :
      (disk : ℕ → Option ℕ) (entry sh_addr : ℕ) (c : Cpu)
      → os.fd ≢ 0
      → os.map_file (map_length os) ≡ some (base, file)
      → elf.sh_addr file (base +64 eh.e_shoff +64 eh.e_shstrndx * elf.shdr_size) ≡ ok sh_addr
      → ((k : ℕ) → k < eh.e_phnum → (phs k).p_type ≢ elf.pt_interp)
      → os.map_ram file ≡ some (ram, h)
      → entry_point elf eh phs eh.e_phnum ≡ some entry
      → 0 < ram
      → 0x40000000 ≤ entry
      → entry + 5 ≤ 0x48000000
      → (emu : Emulator) × (c' : Cpu) × (new_emulator os elf (some disk) l c ≡ ok emu)
        × IsBooted booted_image entry emu c'
  new_emulator-IsBooted disk entry sh_addr c opened mapped names static ram_mapped entries nonzero
        above below =
      let header = program.header file (λ q le lt. refl) in
      let l1 = ready elf eh sh_addr base file l in
      let first = ready_lem elf os eh sh_addr base file l opened mapped header names in
      let (l2, second, is) =
        load_lem elf os l1 size eh phs program refl refl h ram static ram_mapped map same_file in
      (
        record { cpu = some (started disk entry l2 c); loader = l2; init_done = some true },
        started disk entry l2 c,
        run_emulator os elf (some disk) l l1 l2 c first second
            ∙ create_cpu_lem disk entry l2 c (is.start ∙ entries),
        started-IsBooted disk entry sh_addr l2 c is nonzero above below,
      )
