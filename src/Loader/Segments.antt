-- ===== src/Loader/Segments.antt =====
-- The loop of `Loader::load` of src/loader.cc against the image that the segments describe.
use aarch64_emu.Base.{ℕ, zero, suc, ◌+◌, ◌-◌, ◌≤◌, ◌<◌, ◌≡◌, refl, ap, ◌∙◌, arith, ◌⊎◌, inl, inr}
use aarch64_emu.Base.{true, false, Option, some, ltb, ◌!=◌, ok, Bool-cases, ◌+64◌}
use aarch64_emu.Loader.Memory.{Host, memcpy}
use aarch64_emu.Loader.Copies.{HasByte, inside, copied, filled, memcpy_lem, memset_lem}
use aarch64_emu.Loader.{
  Elf, Ehdr, Phdr, Loader, text_start_paddr, ram_size, host_address, segment_header, clear_bss,
  load_segment, load_segments, header_after,
}
use aarch64_emu.Loader.Image.{HasFile, Fits, IsProgram, placed, ram_image, entry_point, IsRamMap}
use aarch64_emu.Loader.Steps.{after_segment, run_segment, run_skipped, run_more, run_end}

module _ (elf : Elf) (h0 : Host) (base size ram : ℕ) (eh : Ehdr) (phs : ℕ → Phdr)
    (program : IsProgram elf h0 base size eh phs) where
  -- The loader before the `i`-th round, over the memory `h` after `mmap`.
  pub record Loaded (h : Host) (i : ℕ) (l : Loader) : Type 0 where
    pub same_base : l.map_base ≡ ram
    pub same_file : l.file_map_start ≡ base
    pub same_table : l.ph_tbl ≡ base +64 eh.e_phoff
    pub entries : l.entry ≡ entry_point elf eh phs i
    pub image : (o : ℕ) → o < ram_size → l.host (ram + o) ≡ ram_image elf h0 base phs i o
    pub elsewhere : (q : ℕ) → (q < ram) ⊎ (ram + ram_size ≤ q) → l.host q ≡ h q

  module _ (h : Host) (map : IsRamMap h base size ram) (file : HasFile h0 base size h) where
    Loaded-file : (i : ℕ) (l : Loader) → Loaded h i l → HasFile h0 base size l.host
    Loaded-file i l ld q le lt = ld.elsewhere q (ground (arith, map.apart)) ∙ file q le lt

    -- The file and RAM stay mapped.
    Loaded-HasByte_file :
        (i : ℕ) (l : Loader)
        → Loaded h i l
        → (q : ℕ) → base ≤ q
        → q < base + size
        → HasByte l.host q
    Loaded-HasByte_file i l ld q le lt =
        let (b, e) = program.bytes q le lt in (b, Loaded-file i l ld q le lt ∙ e)

    file-HasByte :
        (ph : Phdr)
        → Fits size ph
        → (k : ℕ) → k < ph.p_filesz
        → HasByte h0 (base + (ph.p_offset + k))
    file-HasByte ph f k lt =
        program.bytes (base + (ph.p_offset + k)) (omega arith) (omega (arith, f.in_file))

    placed-HasByte :
        (ph : Phdr) (image : ℕ → Option ℕ) (o : ℕ)
        → (ph.p_type ≡ elf.pt_load → Fits size ph)
        → ((b : ℕ) × (image o ≡ some b))
        → (b : ℕ) × (placed elf h0 base ph image o ≡ some b)
    placed-HasByte ph image o fits before = elim (Bool-cases (ph.p_type != elf.pt_load)) [
      | inl other ↦ (before.0, ground (arith, before.1))
      | inr loaded ↦
          let f = fits (ground arith) in
          let k = text_start_paddr + o - ph.p_paddr in
          elim (Bool-cases (inside ph.p_paddr ph.p_filesz (text_start_paddr + o))) [
            | inl in_file ↦
                let (b, e) = file-HasByte ph f k (ground arith) in (b, ground (arith, e))
            | inr out ↦ elim (Bool-cases (inside ph.p_paddr ph.p_memsz (text_start_paddr + o))) [
              | inl bss ↦ (0, ground arith)
              | inr beyond ↦ (before.0, ground (arith, before.1))
            ]
          ]
    ]

    image-HasByte : (i o : ℕ) → i ≤ eh.e_phnum → (b : ℕ) × (ram_image elf h0 base phs i o ≡ some b)
    image-HasByte zero o le = (0, refl)
    image-HasByte (suc i) o le =
        placed-HasByte (phs i) (ram_image elf h0 base phs i) o (program.fits i (omega arith))
          (image-HasByte i o (omega arith))

    Loaded-HasByte_ram :
        (i : ℕ) (l : Loader)
        → i ≤ eh.e_phnum
        → Loaded h i l
        → (q : ℕ) → ram ≤ q
        → q < ram + ram_size
        → HasByte l.host q
    Loaded-HasByte_ram i l few ld q le lt =
        let (b, e) = image-HasByte i (q - ram) few in
        let at_q : ram + (q - ram) ≡ q = omega arith in
        (b, rw at_q at (ld.image (q - ram) (omega arith)) ∙ e)

    -- The copy of a segment's bytes.
    copied_segment :
        (i : ℕ) (l : Loader)
        → i ≤ eh.e_phnum
        → Loaded h i l
        → (ph : Phdr) → Fits size ph
        → (h1 : Host) × (memcpy ph.p_filesz
              (host_address l ph.p_paddr)
              (l.file_map_start +64 ph.p_offset)
              l.host
            ≡ ok h1)
          × ((q : ℕ)
              → h1 q
                ≡ copied ph.p_filesz
                    (ram + (ph.p_paddr - text_start_paddr))
                    (base + ph.p_offset)
                    l.host
                    q)
    copied_segment i l few ld ph f =
        let dst = ram + (ph.p_paddr - text_start_paddr) in
        let to : host_address l ph.p_paddr ≡ dst =
          omega (arith, ld.same_base, map.ends, f.above, f.below, f.sizes) in
        let from : l.file_map_start +64 ph.p_offset ≡ base + ph.p_offset =
          omega (arith, ld.same_file, program.ends, f.in_file) in
        let (h1, done, cells) =
          memcpy_lem ph.p_filesz dst (base + ph.p_offset) l.host
            (λ q le lt. Loaded-HasByte_file i l ld q (omega arith) (omega (arith, f.in_file)))
            (λ q le lt.
              Loaded-HasByte_ram i l few ld q (omega arith)
                (omega (arith, f.above, f.below, f.sizes)))
            (ground (arith, map.apart, f.in_file, f.above, f.below, f.sizes)) in
        (
          h1,
          ap (λ (d : ℕ). memcpy ph.p_filesz d (l.file_map_start +64 ph.p_offset) l.host) to
              ∙ ap (λ (s : ℕ). memcpy ph.p_filesz dst s l.host) from
              ∙ done,
          cells,
        )

    -- The zeros behind them.
    cleared_segment :
        (i : ℕ) (l : Loader)
        → i ≤ eh.e_phnum
        → Loaded h i l
        → (ph : Phdr) → Fits size ph
        → (h1 : Host)
        → ((q : ℕ)
            → h1 q
              ≡ copied ph.p_filesz
                  (ram + (ph.p_paddr - text_start_paddr))
                  (base + ph.p_offset)
                  l.host
                  q)
        → (h2 : Host) × (clear_bss l ph h1 ≡ ok h2)
          × ((q : ℕ)
              → h2 q
                ≡ filled
                    (ph.p_memsz - ph.p_filesz)
                    (ram + (ph.p_paddr - text_start_paddr) + ph.p_filesz)
                    0
                    h1
                    q)
    unfolding clear_bss
    cleared_segment i l few ld ph f h1 cells1 =
        let dst = ram + (ph.p_paddr - text_start_paddr) + ph.p_filesz in
        let n = ph.p_memsz - ph.p_filesz in
        elim (Bool-cases (ltb ph.p_filesz ph.p_memsz)) [
          | inl more ↦
              let to : host_address l (ph.p_paddr +64 ph.p_filesz) ≡ dst =
                omega (arith, ld.same_base, map.ends, f.above, f.below, f.sizes) in
              let (h2, done, cells) = memset_lem n dst 0 h1 (λ q le lt.
                let (b, e) =
                  Loaded-HasByte_ram i l few ld q (omega arith)
                    (omega (arith, f.above, f.below, f.sizes)) in
                (b, ground (arith, cells1 q, e))) in
              (h2, rw (more, to) done, cells)
          | inr none_left ↦ (h1, rw none_left refl, (λ q. ground arith))
        ]

    ehdr_at :
        (h' : Host) {i : ℕ} (l : Loader)
        → Loaded h i l
        → HasFile h0 base size h'
        → elf.ehdr h' l.file_map_start ≡ ok eh
    ehdr_at h' l ld file' = rw ld.same_file (program.header h' file')

    header_at :
        (i : ℕ) (l : Loader) → i < eh.e_phnum → Loaded h i l → segment_header elf l i ≡ ok (phs i)
    header_at i l few ld = rw ld.same_table (program.headers l.host i (Loaded-file i l ld) few)

    header_again :
        (i : ℕ) (l : Loader) (h' : Host)
        → i < eh.e_phnum
        → Loaded h i l
        → HasFile h0 base size h'
        → header_after elf l h' i ≡ ok (phs i)
    header_again i l h' few ld file' = rw ld.same_table (program.headers h' i file' few)

    -- A round without an effect.
    skipped :
        (i : ℕ) (l : Loader)
        → Loaded h i l
        → ((phs i).p_type != elf.pt_load) ≡ true
        → Loaded h (suc i) l
    skipped i l ld other = record {
      same_base = ld.same_base;
      same_file = ld.same_file;
      same_table = ld.same_table;
      entries = rw other ld.entries;
      image = λ o lt. rw other (ld.image o lt);
      elsewhere = ld.elsewhere;
    }

    -- One byte of RAM after a segment's copy and zeros.
    segment-byte :
        (l : Loader) (i : ℕ)
        → Loaded h i l
        → (ph : Phdr) → Fits size ph
        → (ph.p_type != elf.pt_load) ≡ false
        → (h1 h2 : Host) (o : ℕ) → o < ram_size
        → h1 (ram + o)
          ≡ copied ph.p_filesz
              (ram + (ph.p_paddr - text_start_paddr))
              (base + ph.p_offset)
              l.host
              (ram + o)
        → h2 (ram + o)
          ≡ filled
              (ph.p_memsz - ph.p_filesz)
              (ram + (ph.p_paddr - text_start_paddr) + ph.p_filesz)
              0
              h1
              (ram + o)
        → h2 (ram + o) ≡ placed elf h0 base ph (ram_image elf h0 base phs i) o
    segment-byte l i ld ph f kind h1 h2 o lt cells1 cells2 =
        let k = text_start_paddr + o - ph.p_paddr in
        elim (Bool-cases (inside ph.p_paddr ph.p_filesz (text_start_paddr + o))) [
          | inl in_file ↦
              let at_byte : base + ph.p_offset + (ram + o - (ram + (ph.p_paddr - text_start_paddr)))
                  ≡ base + (ph.p_offset + k) =
                ground (arith, f.above) in
              let byte : l.host (base + (ph.p_offset + k)) ≡ h0 (base + (ph.p_offset + k)) =
                Loaded-file i l ld (base + (ph.p_offset + k)) (omega arith)
                  (ground (arith, f.in_file)) in
              ground (arith, kind, f.above, f.sizes, cells1, cells2, at_byte, byte)
          | inr out ↦ ground (arith, kind, f.above, f.sizes, cells1, cells2, ld.image o lt)
        ]

    -- A round that loads a segment.
    loaded :
        (i : ℕ) (l : Loader)
        → i < eh.e_phnum
        → Loaded h i l
        → ((phs i).p_type != elf.pt_load) ≡ false
        → (l' : Loader) × (load_segment elf i l ≡ ok l') × Loaded h (suc i) l'
    loaded i l few ld kind =
        let ph = phs i in
        let f = program.fits i few (ground arith) in
        let (h1, copy_done, cells1) = copied_segment i l (omega arith) ld ph f in
        let (h2, bss_done, cells2) = cleared_segment i l (omega arith) ld ph f h1 cells1 in
        let file1 : HasFile h0 base size h1 = λ q le lt.
          let out : (q < ram) ⊎ (ram + ram_size ≤ q) = ground (arith, map.apart) in
          ground
            (arith, cells1 q, out, f.above, f.below, f.sizes, ld.elsewhere q out, file q le lt) in
        let apart_q : (q : ℕ) → (q < ram) ⊎ (ram + ram_size ≤ q) → h2 q ≡ h q = λ q out.
          ground (arith, cells1 q, cells2 q, out, f.above, f.below, f.sizes, ld.elsewhere q out) in
        let file2 : HasFile h0 base size h2 =
          λ q le lt. apart_q q (ground (arith, map.apart)) ∙ file q le lt in
        (
          after_segment eh l ph h2,
          run_segment elf i l eh ph h1 h2 (header_at i l few ld) kind copy_done
              (header_again i l h1 few ld file1) bss_done (header_again i l h2 few ld file2)
              (ehdr_at h2 l ld file2),
          record {
            same_base = ld.same_base;
            same_file = ld.same_file;
            same_table = ld.same_table;
            entries = rw kind refl;
            image = λ o lt.
                segment-byte l i ld ph f kind h1 h2 o lt (cells1 (ram + o)) (cells2 (ram + o));
            elsewhere = apart_q;
          },
        )

    round :
        (i : ℕ) (l : Loader)
        → i < eh.e_phnum
        → Loaded h i l
        → (l' : Loader) × (load_segment elf i l ≡ ok l') × Loaded h (suc i) l'
    round i l few ld = elim (Bool-cases ((phs i).p_type != elf.pt_load)) [
      | inl other ↦
          (l, run_skipped elf i l (phs i) (header_at i l few ld) other, skipped i l ld other)
      | inr kind ↦ loaded i l few ld kind
    ]

    -- From the `i`-th round on, with `left` headers left and fuel for them.
    pub rounds :
        (left fuel i : ℕ) (l : Loader)
        → i + left ≡ eh.e_phnum
        → left < fuel
        → Loaded h i l
        → (l' : Loader) × (load_segments elf fuel i l ≡ ok l') × Loaded h eh.e_phnum l'
    rounds left zero i l count enough ld = absurd (omega arith)
    rounds zero (suc fuel) i l count enough ld =
        let e : i ≡ eh.e_phnum = omega arith in
        (
          l,
          run_end elf fuel i l eh (ehdr_at l.host l ld (Loaded-file i l ld)) (omega arith),
          rw e at ld,
        )
    rounds (suc left) (suc fuel) i l count enough ld =
        let (l1, first, ld1) = round i l (omega arith) ld in
        let e : suc i ≡ i + 1 = omega arith in
        let (l', rest, ld') =
          rounds left fuel (i + 1) l1 (omega arith) (omega arith) (rw e at ld1) in
        (
          l',
          run_more elf fuel i l l1 eh (ehdr_at l.host l ld (Loaded-file i l ld)) (omega arith) first
              ∙ rest,
          ld',
        )
