-- ===== src/Loader/Steps.antt =====
-- The branches of the loop of `Loader::load` of src/loader.cc, with their calls' results given.
use aarch64_emu.Base.{ℕ, suc, ◌+◌, ◌≤◌, ◌<◌, ◌≡◌, arith}
use aarch64_emu.Base.{true, false, some, ◌!=◌, if◌then◌else◌, ok, ◌+64◌, ◌-64◌}
use aarch64_emu.Loader.Memory.{Host, memcpy}
use aarch64_emu.Loader.{
  Elf, Ehdr, Phdr, Loader, host_address, segment_header, header_after, clear_bss, load_segment,
  load_segments,
}

-- The loader after a round that loads a segment.
abbrev pub after_segment : Ehdr → Loader → Phdr → Host → Loader
after_segment eh l ph h = record l {
  host = h;
  use_paddr = if ph.p_vaddr != ph.p_paddr then true else l.use_paddr;
  entry = some (eh.e_entry -64 ph.p_vaddr +64 ph.p_paddr);
}

pub run_segment :
    (elf : Elf) (i : ℕ) (l : Loader) (eh : Ehdr) (ph : Phdr) (h1 h2 : Host)
    → segment_header elf l i ≡ ok ph
    → (ph.p_type != elf.pt_load) ≡ false
    → memcpy ph.p_filesz (host_address l ph.p_paddr) (l.file_map_start +64 ph.p_offset) l.host
      ≡ ok h1
    → header_after elf l h1 i ≡ ok ph
    → clear_bss l ph h1 ≡ ok h2
    → header_after elf l h2 i ≡ ok ph
    → elf.ehdr h2 l.file_map_start ≡ ok eh
    → load_segment elf i l ≡ ok (after_segment eh l ph h2)
unfolding load_segment
run_segment elf i l eh ph h1 h2 header kind copy_done bss bss_done last again =
    ground (arith, header, kind, copy_done, bss, bss_done, last, again)

pub run_skipped :
    (elf : Elf) (i : ℕ) (l : Loader) (ph : Phdr)
    → segment_header elf l i ≡ ok ph
    → (ph.p_type != elf.pt_load) ≡ true
    → load_segment elf i l ≡ ok l
unfolding load_segment
run_skipped elf i l ph header kind = ground (arith, header, kind)

pub run_more :
    (elf : Elf) (fuel i : ℕ) (l l' : Loader) (eh : Ehdr)
    → elf.ehdr l.host l.file_map_start ≡ ok eh
    → i < eh.e_phnum
    → load_segment elf i l ≡ ok l'
    → load_segments elf (suc fuel) i l ≡ load_segments elf fuel (i + 1) l'
unfolding load_segments
run_more elf fuel i l l' eh header more round = ground (arith, header, round)

pub run_end :
    (elf : Elf) (fuel i : ℕ) (l : Loader) (eh : Ehdr)
    → elf.ehdr l.host l.file_map_start ≡ ok eh
    → eh.e_phnum ≤ i
    → load_segments elf (suc fuel) i l ≡ ok l
unfolding load_segments
run_end elf fuel i l eh header over = ground (arith, header)
