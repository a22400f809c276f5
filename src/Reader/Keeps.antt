-- ===== src/Reader/Keeps.antt =====
-- What every call of the kernel keeps is kept by ElfReader::Load and by the destructor.
use Prim.Native.Nat.{bit_or}
use and_emu.Base.{
  ℕ, zero, suc, ◌+◌, ◌*◌, ◌≡◌, sym, subst, inl, inr, Bool, true, false, arith, ◌!=◌, if◌then◌else◌,
  Bool-cases,
}
use and_emu.Base.Word.{add32, sub32, minus_one, page_start, page_end}
use and_emu.Elf.{pt_load, Phdr, sizeof_phdr, phdr_at, sizeof_ehdr}
use and_emu.Kernel.{Space, Kernel, prot_none, prot_read, map_private, map_fixed, map_anonymous}
use and_emu.Kernel.Lasts.{Lasts, KeepsSpace, and_then-KeepsSpace}
use and_emu.Phdr.{pflags_to_prot, get_load_size}
use and_emu.Reader.{
  ElfReader, headers, Outcome, pass, stop, Step, and_step, ◌&&&◌, outcome, header_ok,
  verify_elf_header, check_phdr, find_phdr, file_length, zero_page, read_elf_header,
  read_program_header, reserve_address_space, map_file, map_zero, load_segment, load_each,
  load_segments, load, destroy,
}

-- The process that a step leaves.
abbrev pub after : Outcome → Space
after (pass r s) = s
after (stop r s) = s

module _ (k : Kernel) (P : ℕ → Type 0) (lasts : Lasts k P) where
  abbrev Keeps : Step → Type 0
  Keeps step = (r : ElfReader) (s : Space) → P s.kernel → P (after (step r s)).kernel

  &&&-Keeps : (a b : Step) → Keeps a → Keeps b → Keeps (a &&& b)
  &&&-Keeps a b keeps_a keeps_b r s p = go (a r s) (keeps_a r s p)
    where
      go : (o : Outcome) → P (after o).kernel → P (after (and_step o b)).kernel
      go (pass r' s') p' = keeps_b r' s' p'
      go (stop r' s') p' = p'

  read_elf_header-Keeps : Keeps (read_elf_header k)
  unfolding read_elf_header
  read_elf_header-Keeps r s p =
      elim (Bool-cases ((k.read r.fd sizeof_ehdr s).count != sizeof_ehdr)) [
        | inl short ↦ rw short (lasts.read_lasts r.fd sizeof_ehdr s p)
        | inr full ↦ rw full (lasts.read_lasts r.fd sizeof_ehdr s p)
      ]

  verify_elf_header-Keeps : Keeps verify_elf_header
  unfolding verify_elf_header
  verify_elf_header-Keeps r s p = go (header_ok r.header)
    where
      go : (b : Bool) → P (after (outcome b r s)).kernel
      go true = p
      go false = p

  read_program_header-Keeps : Keeps (read_program_header k)
  unfolding read_program_header
  read_program_header-Keeps r s p = ground (
    arith,
    lasts.mmap_lasts
        (record {
          start = 0;
          size =
              sub32 (page_end (add32 r.header.e_phoff (r.header.e_phnum * sizeof_phdr)))
                (page_start r.header.e_phoff);
          prot = prot_read;
          flags = map_private;
          fd = r.fd;
          offset = page_start r.header.e_phoff;
        })
        s p,
  )

  reserve_address_space-Keeps : Keeps (reserve_address_space k)
  unfolding reserve_address_space
  reserve_address_space-Keeps r s p = ground (
    arith,
    lasts.mmap_lasts
        (record {
          start = (get_load_size (headers r s)).out_min_vaddr;
          size = (get_load_size (headers r s)).size;
          prot = prot_none;
          flags = bit_or map_private map_anonymous;
          fd = minus_one;
          offset = 0;
        })
        s p,
  )

  map_file-KeepsSpace : (fd bias : ℕ) (p : Phdr) → KeepsSpace P (map_file k fd bias p)
  unfolding map_file
  map_file-KeepsSpace fd bias p s held = ground (
    arith,
    lasts.mmap_lasts
        (record {
          start = page_start (add32 p.p_vaddr bias);
          size = file_length p;
          prot = pflags_to_prot p.p_flags;
          flags = bit_or map_fixed map_private;
          fd = fd;
          offset = page_start p.p_offset;
        })
        s held,
  )

  map_zero-KeepsSpace : (bias : ℕ) (p : Phdr) → KeepsSpace P (map_zero k bias p)
  unfolding map_zero
  map_zero-KeepsSpace bias p s held =
      let end = page_end (add32 (add32 p.p_vaddr bias) p.p_filesz) in
      let last_page = page_end (add32 (add32 p.p_vaddr bias) p.p_memsz) in
      ground (
        arith,
        lasts.mmap_lasts
            (record {
              start = end;
              size = sub32 last_page end;
              prot = pflags_to_prot p.p_flags;
              flags = bit_or map_fixed (bit_or map_anonymous map_private);
              fd = minus_one;
              offset = 0;
            })
            s held,
      )

  zero_page-kernel : (bias : ℕ) (p : Phdr) (s : Space) → (zero_page bias p s).kernel ≡ s.kernel
  unfolding zero_page
  zero_page-kernel bias p s = ground arith

  load_segment-KeepsSpace : (fd bias : ℕ) (p : Phdr) → KeepsSpace P (load_segment k fd bias p)
  unfolding load_segment
  load_segment-KeepsSpace fd bias p s held = elim (Bool-cases (p.p_type != pt_load)) [
    | inl other ↦ rw other held
    | inr loadable ↦ rw loadable (
        and_then-KeepsSpace P (map_file k fd bias p s)
          (λ _ s'. map_zero k bias p (zero_page bias p s')) (map_file-KeepsSpace fd bias p s held)
          (λ _ s' held'.
            map_zero-KeepsSpace bias p (zero_page bias p s')
              (subst P (sym (zero_page-kernel bias p s')) held')))
  ]

  load_each-KeepsSpace : (fd bias table count : ℕ) → KeepsSpace P (load_each k fd bias table count)
  unfolding load_each
  load_each-KeepsSpace fd bias table zero s held = held
  load_each-KeepsSpace fd bias table (suc count) s held =
      and_then-KeepsSpace P (load_segment k fd bias (phdr_at s.memory table) s)
        (λ _ s'. load_each k fd bias (table + sizeof_phdr) count s')
        (load_segment-KeepsSpace fd bias (phdr_at s.memory table) s held)
        (λ _. load_each-KeepsSpace fd bias (table + sizeof_phdr) count)

  load_segments-Keeps : Keeps (load_segments k)
  unfolding load_segments
  load_segments-Keeps r s held =
      ground (arith, load_each-KeepsSpace r.fd r.load_bias r.phdr_table_at r.phdr_num s held)

  find_phdr-Keeps : Keeps find_phdr
  unfolding find_phdr check_phdr
  find_phdr-Keeps r s held = ground arith

  pub load-Keeps : Keeps (load k)
  unfolding load
  load-Keeps = &&&-Keeps (read_elf_header k) _ read_elf_header-Keeps (
      &&&-Keeps verify_elf_header _ verify_elf_header-Keeps (
        &&&-Keeps (read_program_header k) _ read_program_header-Keeps (
          &&&-Keeps (reserve_address_space k) _ reserve_address_space-Keeps
            (&&&-Keeps (load_segments k) find_phdr load_segments-Keeps find_phdr-Keeps))))

  pub destroy-Keeps : (r : ElfReader) (s : Space) → P s.kernel → P (destroy k r s).kernel
  unfolding destroy
  destroy-Keeps r s held = elim (Bool-cases (r.phdr_mmap != 0)) [
    | inl mapped ↦ rw mapped (lasts.munmap_lasts r.phdr_mmap r.phdr_size closed closed_holds)
    | inr unmapped ↦ rw unmapped closed_holds
  ]
    where
      closed : Space
      closed = if r.fd != minus_one then k.close r.fd s else s

      closed_holds : P closed.kernel
      closed_holds = ground (arith, lasts.close_lasts r.fd s held)
