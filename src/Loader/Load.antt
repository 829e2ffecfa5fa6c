-- ===== src/Loader/Load.antt =====
-- `Loader::load` of src/loader.cc as a whole: the RAM, the entry point and the stack pointer it leaves.
use aarch64_emu.Base.{ℕ, zero, suc, ◌+◌, ◌^◌, ◌≤◌, ◌<◌, ◌≡◌, ◌≢◌, refl, arith, ◌⊎◌, inl, inr}
use aarch64_emu.Base.{Bool-cases, none, some, ok, ◌+64◌, ◌==◌}
use aarch64_emu.Loader.Memory.{Host, memset}
use aarch64_emu.Loader.Copies.{memset_lem}
use aarch64_emu.Loader.{
  System, Elf, Ehdr, Phdr, Loader, ram_size, stack_top, segment_header, find_interp, get_interp,
  load_segments, load_ram, load,
}
use aarch64_emu.Loader.Image.{HasFile, IsProgram, ram_image, entry_point, IsRamMap}
use aarch64_emu.Loader.Segments.{Loaded, rounds}

-- `find_interp` goes by the types of the headers.
module _ (elf : Elf) (l : Loader) (phs : ℕ → Phdr) (count : ℕ)
    (headers : (i : ℕ) → i < count → segment_header elf l i ≡ ok (phs i)) where
  none_found :
      (n i : ℕ)
      → i + n ≡ count
      → ((k : ℕ) → k < count → (phs k).p_type ≢ elf.pt_interp)
      → find_interp elf n i l ≡ ok 0
  unfolding find_interp
  none_found zero i e static = refl
  none_found (suc n) i e static =
      let rest = none_found n (i + 1) (omega arith) static in
      ground (arith, headers i (omega arith), static i (omega arith), rest)

  first_found :
      (n i k : ℕ)
      → i + n ≡ count
      → i ≤ k
      → k < count
      → ((j : ℕ) → j < k → (phs j).p_type ≢ elf.pt_interp)
      → (phs k).p_type ≡ elf.pt_interp
      → find_interp elf n i l ≡ ok (l.file_map_start +64 (phs k).p_offset)
  unfolding find_interp
  first_found zero i k e le lt before found = absurd (omega arith)
  first_found (suc n) i k e le lt before found = elim (Bool-cases (i == k)) [
    | inl here ↦
        let same : i ≡ k = ground arith in
        let header : segment_header elf l k ≡ ok (phs k) = headers k lt in
        rw same (ground (arith, header, found))
    | inr later ↦
        let rest = first_found n (i + 1) k (omega arith) (ground arith) lt before found in
        ground (arith, headers i (omega arith), before i (ground arith), rest)
  ]

-- What a loader holds of a program after `load`: the RAM at `ram` is the segments' image, the guest
-- starts at the moved entry point with the stack pointer 16 above the end of RAM, and no other memory
-- has changed.
pub record IsLoaded (elf : Elf) (l : Loader) (eh : Ehdr) (phs : ℕ → Phdr) (h : Host) (ram : ℕ)
    (l' : Loader) : Type 0 where
  pub at_ram : l'.map_base ≡ ram
  pub start : l'.entry ≡ entry_point elf eh phs eh.e_phnum
  pub stack : l'.init_sp ≡ 0x48000010
  pub image :
      (o : ℕ)
      → o < ram_size
      → l'.host (ram + o) ≡ ram_image elf l.host l.file_map_start phs eh.e_phnum o
  pub elsewhere : (q : ℕ) → (q < ram) ⊎ (ram + ram_size ≤ q) → l'.host q ≡ h q

run_ram :
    (elf : Elf) (l : Loader) (ram : ℕ) (clean : Host) (l1 : Loader)
    → memset ram_size ram 0 l.host ≡ ok clean
    → load_segments elf (2 ^ 16) 0 (record l { host = clean; map_base = ram }) ≡ ok l1
    → load_ram elf l ram ≡ ok (record l1 { init_sp = stack_top })
unfolding load_ram
run_ram elf l ram clean l1 cleaned looped = rw (cleaned, looped) refl

module _ (elf : Elf) (os : System) (l : Loader) (size : ℕ) (eh : Ehdr) (phs : ℕ → Phdr)
    (program : IsProgram elf l.host l.file_map_start size eh phs)
    (table : l.ph_tbl ≡ l.file_map_start +64 eh.e_phoff) (fresh : l.entry ≡ none) where
  headers_at : (i : ℕ) → i < eh.e_phnum → segment_header elf l i ≡ ok (phs i)
  headers_at i lt = rw table (program.headers l.host i (λ q le lt'. refl) lt)

  load_ram_lem :
      (h : Host) (ram : ℕ)
      → IsRamMap h l.file_map_start size ram
      → HasFile l.host l.file_map_start size h
      → (l' : Loader) × (load_ram elf (record l { host = h }) ram ≡ ok l')
        × IsLoaded elf l eh phs h ram l'
  load_ram_lem h ram map file =
      let (clean, cleaned, cells) = memset_lem ram_size ram 0 h map.bytes in
      let l0 = record l { host = clean; map_base = ram } in
      let ld : Loaded elf l.host l.file_map_start size ram eh phs program h 0 l0 = record {
        same_base = refl;
        same_file = refl;
        same_table = table;
        entries = fresh;
        image = λ o lt. ground (arith, cells (ram + o));
        elsewhere = λ q out. ground (arith, cells q, out);
      } in
      let (l1, looped, done) =
        rounds elf l.host l.file_map_start size ram eh phs program h map file eh.e_phnum (2 ^ 16) 0
          l0 (omega arith) program.few ld in
      (
        record l1 { init_sp = stack_top },
        run_ram elf (record l { host = h }) ram clean l1 cleaned looped,
        record {
          at_ram = done.same_base;
          start = done.entries;
          stack = refl;
          image = done.image;
          elsewhere = done.elsewhere;
        },
      )

  -- A static program, whose headers name no interpreter, is loaded: for a file of segments that fit
  -- and RAM mapped apart from it, `load` succeeds, and the RAM, the entry point and the stack
  -- pointer are as `IsLoaded` says.
  pub load_lem :
      (h : Host) (ram : ℕ)
      → ((k : ℕ) → k < eh.e_phnum → (phs k).p_type ≢ elf.pt_interp)
      → os.map_ram l.host ≡ some (ram, h)
      → IsRamMap h l.file_map_start size ram
      → HasFile l.host l.file_map_start size h
      → (l' : Loader) × (load os elf l ≡ ok (some l')) × IsLoaded elf l eh phs h ram l'
  unfolding load get_interp
  load_lem h ram static mapped map file =
      let (l', done, is) = load_ram_lem h ram map file in
      let header = program.header l.host (λ q le lt. refl) in
      let none_there =
        none_found elf l phs eh.e_phnum headers_at eh.e_phnum 0 (omega arith) static in
      (l', ground (arith, header, none_there, mapped, done), is)

-- A program with an interpreter is refused, whatever the operating system answers: where the file's
-- headers read, the `k`-th is the first that names one, and the name does not lie at address 0,
-- `load` reports failure.
pub load-interp :
    (elf : Elf) (os : System) (l : Loader) (eh : Ehdr) (phs : ℕ → Phdr) (k : ℕ)
    → elf.ehdr l.host l.file_map_start ≡ ok eh
    → ((i : ℕ) → i < eh.e_phnum → segment_header elf l i ≡ ok (phs i))
    → k < eh.e_phnum
    → ((j : ℕ) → j < k → (phs j).p_type ≢ elf.pt_interp)
    → (phs k).p_type ≡ elf.pt_interp
    → l.file_map_start +64 (phs k).p_offset ≢ 0
    → load os elf l ≡ ok none
unfolding load get_interp
load-interp elf os l eh phs k header headers lt before found somewhere =
    let there =
      first_found elf l phs eh.e_phnum headers eh.e_phnum 0 k (omega arith) (omega arith) lt before
        found in
    ground (arith, header, there, somewhere)
