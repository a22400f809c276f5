-- ===== src/Windows/Segment.antt =====
-- LoadSegments over the Windows API: a fixed mapping reads the file into memory that is already
-- there, and a fixed anonymous mapping does nothing.
use Prim.Native.Nat.{bit_and, bit_or}
use and_emu.Base.{
  ℕ, ◌+◌, ◌-◌, ◌%◌, ◌^◌, ◌≤◌, ◌<◌, ◌≡◌, refl, ap, ◌≢◌, ◌⊎◌, inl, inr, true, false, ◌&&◌, arith, ltb,
  leb, ◌==◌, ◌!=◌, if◌then◌else◌, Bool-cases,
}
use and_emu.Base.Word.{
  add32, sub32, minus_one, page_size, page_start, page_offset, page_end, page_start_bounds,
  page_end_bounds,
}
use and_emu.Elf.{pt_load, pf_w, Phdr}
use and_emu.Kernel.{
  Space, done, Mapping, Reading, prot_none, prot_exec, map_private, map_fixed, map_anonymous,
}
use and_emu.Memory.{Memory, memset}
use and_emu.Phdr.{pflags_to_prot}
use and_emu.Reader.{file_length, zero_page, map_file, map_zero, load_segment}
use and_emu.Reader.Segment.{IsMappable, start_at}
use and_emu.Windows.{Api, read_into, windows_kernel}

-- The file is read from where `lseek` puts it, up to its end, and neither call changes memory.
pub record ReadsFile (w : Api) (fd : ℕ) (file : ℕ → ℕ) (length : ℕ) : Type 0 where
  pub seeks : (offset : ℕ) (s : Space) → (w.lseek fd offset s).memory ≡ s.memory
  pub keeps :
      (n offset : ℕ) (s : Space) → (w.read fd n (w.lseek fd offset s)).after.memory ≡ s.memory
  pub counts :
      (n offset : ℕ) (s : Space)
      → offset + n ≤ length
      → (w.read fd n (w.lseek fd offset s)).count ≡ n
  pub reads :
      (n offset i : ℕ) (s : Space)
      → offset + n ≤ length
      → i < n
      → (w.read fd n (w.lseek fd offset s)).bytes i ≡ file (offset + i)

module _ (w : Api) (fd : ℕ) (file : ℕ → ℕ) (length : ℕ) (reads_file : ReadsFile w fd file length)
    (live : fd ≢ minus_one) where
  -- A fixed mapping of the file at an address that is not null.
  pub mmap_fixed :
      (q : Mapping) (s : Space)
      → q.fd ≡ fd
      → q.flags ≡ bit_or map_fixed map_private
      → q.size ≢ 0
      → q.prot ≢ prot_exec
      → q.start ≢ 0
      → q.start ≢ minus_one
      → (windows_kernel w).mmap q s
        ≡ done q.start (read_into q.start (w.read fd q.size (w.lseek fd q.offset s)))
  unfolding windows_kernel
  mmap_fixed q s e f n x z m = ground (
    arith,
    e,
    live,
    n,
    x,
    z,
    m,
    (let t : bit_and (bit_or map_fixed map_private) map_fixed ≡ map_fixed = refl in t),
  )

  mmap_zeros :
      (q : Mapping) (s : Space)
      → q.fd ≡ minus_one
      → q.size ≢ 0
      → q.prot ≢ prot_exec
      → q.prot ≢ prot_none
      → q.start ≢ 0
      → q.start ≢ minus_one
      → (windows_kernel w).mmap q s ≡ done q.start s
  unfolding windows_kernel
  mmap_zeros q s e n x y z m = ground (arith, e, n, x, y, z, m)

  module _ (bias : ℕ) (p : Phdr) (ok_segment : IsMappable p bias)
      (in_file : p.p_offset + p.p_filesz ≤ length) (placed : page_start (start_at p bias) ≢ 0)
      (not_bare : pflags_to_prot p.p_flags ≢ prot_exec)
      (not_none : pflags_to_prot p.p_flags ≢ prot_none) where
    abbrev first_page : ℕ
    first_page = page_start (add32 p.p_vaddr bias)

    starts_at : add32 p.p_vaddr bias ≡ start_at p bias
    starts_at = omega (arith, ok_segment.room)

    file_ends : add32 (add32 p.p_vaddr bias) p.p_filesz ≡ start_at p bias + p.p_filesz
    file_ends = omega (arith, ok_segment.room, ok_segment.within)

    memory_ends : add32 (add32 p.p_vaddr bias) p.p_memsz ≡ start_at p bias + p.p_memsz
    memory_ends = omega (arith, ok_segment.room)

    length_is : file_length p ≡ p.p_filesz + start_at p bias % page_size
    unfolding page_start
    length_is = omega (arith, ok_segment.congruent, ok_segment.file_room)

    not_top : first_page ≢ minus_one
    unfolding page_start
    not_top e = omega arith

    -- What map_file leaves.
    abbrev after_file : Space → Space
    after_file s =
        if file_length p == 0
        then s
        else read_into first_page (w.read fd (file_length p) (w.lseek fd (page_start p.p_offset) s))

    map_file-after_file :
        (s : Space) → map_file (windows_kernel w) fd bias p s ≡ done tt (after_file s)
    unfolding map_file
    map_file-after_file s = elim (Bool-cases (file_length p == 0)) [
      | inl empty ↦ rw empty
      | inr some_bytes ↦ rw (
        some_bytes,
        mmap_fixed request s refl refl (ground arith) not_bare (rw starts_at placed) not_top,
      )
    ]
      where
        request : Mapping
        request = record {
          start = first_page;
          size = file_length p;
          prot = pflags_to_prot p.p_flags;
          flags = bit_or map_fixed map_private;
          fd = fd;
          offset = page_start p.p_offset;
        }

    after_file-memory :
        (s : Space) (a : ℕ)
        → a < 2 ^ 32
        → (after_file s).memory a ≡ (
            if leb (page_start (start_at p bias)) a && ltb a (start_at p bias + p.p_filesz)
            then file (page_start p.p_offset + (a - page_start (start_at p bias)))
            else s.memory a)
    unfolding read_into page_start
    after_file-memory s a small = elim (Bool-cases (file_length p == 0)) [
      | inl empty ↦ rw empty (ground (arith, length_is))
      | inr some_bytes ↦ rw (some_bytes, starts_at) (inside some_bytes)
    ]
      where
        first : ℕ
        first = page_start (start_at p bias)

        offset : ℕ
        offset = page_start p.p_offset

        got : Reading
        got = w.read fd (file_length p) (w.lseek fd offset s)

        room : offset + file_length p ≤ length
        room = omega (arith, length_is, ok_segment.congruent)

        same : got.after.memory a ≡ s.memory a
        same = ap (λ (m : Memory). m a) (reads_file.keeps (file_length p) offset s)

        inside :
            (file_length p == 0) ≡ false
            → (read_into first got).memory a ≡ (
                if leb first a && ltb a (start_at p bias + p.p_filesz)
                then file (offset + (a - first))
                else s.memory a)
        inside some_bytes = ground (
          arith,
          same,
          length_is,
          ok_segment.room,
          ok_segment.within,
          reads_file.counts (file_length p) offset s room,
          reads_file.reads (file_length p) offset (sub32 a first) s room,
        )

    end_live : page_end (add32 (add32 p.p_vaddr bias) p.p_filesz) ≢ 0
    unfolding page_end page_start
    end_live e = placed (omega (arith, e, file_ends, ok_segment.room, ok_segment.within))

    end_low : page_end (add32 (add32 p.p_vaddr bias) p.p_filesz) ≢ minus_one
    unfolding page_end page_start
    end_low e = omega (arith, e)

    not_empty :
        ltb
            (page_end (add32 (add32 p.p_vaddr bias) p.p_filesz))
            (page_end (add32 (add32 p.p_vaddr bias) p.p_memsz))
          ≡ true
        → sub32
            (page_end (add32 (add32 p.p_vaddr bias) p.p_memsz))
            (page_end (add32 (add32 p.p_vaddr bias) p.p_filesz))
          ≢ 0
    unfolding page_end page_start
    not_empty more e = ground arith

    map_zero-done : (s : Space) → map_zero (windows_kernel w) bias p s ≡ done tt s
    unfolding map_zero
    map_zero-done s =
        elim (Bool-cases (
          ltb (page_end (add32 (add32 p.p_vaddr bias) p.p_filesz))
            (page_end (add32 (add32 p.p_vaddr bias) p.p_memsz)))) [
              | inr no_more ↦ rw no_more
              | inl more ↦ rw (
                more,
                mmap_zeros request s refl (not_empty more) not_bare not_none end_live end_low,
              )
            ]
      where
        end : ℕ
        end = page_end (add32 (add32 p.p_vaddr bias) p.p_filesz)

        last_page : ℕ
        last_page = page_end (add32 (add32 p.p_vaddr bias) p.p_memsz)

        request : Mapping
        request = record {
          start = end;
          size = sub32 last_page end;
          prot = pflags_to_prot p.p_flags;
          flags = bit_or map_fixed (bit_or map_anonymous map_private);
          fd = minus_one;
          offset = 0;
        }

    -- The rest of the last page is zeroed or left alone.
    zero_page-cases :
        (s : Space) (a : ℕ)
        → a < 2 ^ 32
        → ((zero_page bias p s).memory a ≡ s.memory a)
          ⊎ (((zero_page bias p s).memory a ≡ 0)
              × (start_at p bias + p.p_filesz ≤ a)
              × (a < page_end (start_at p bias + p.p_filesz)))
    unfolding zero_page memset page_offset page_end page_start
    zero_page-cases s a small =
        elim (Bool-cases (
          bit_and p.p_flags pf_w != 0
          && ltb 0 (page_offset (add32 (add32 p.p_vaddr bias) p.p_filesz)))) [
            | inr kept ↦ inl (rw kept)
            | inl zeroed ↦
                elim (Bool-cases (
                  ltb (sub32 a (add32 (add32 p.p_vaddr bias) p.p_filesz))
                    (page_size - page_offset (add32 (add32 p.p_vaddr bias) p.p_filesz)))) [
                      | inl inside ↦ inr (
                        rw (zeroed, inside),
                        ground (arith, file_ends, ok_segment.room, ok_segment.within),
                        ground (arith, file_ends, ok_segment.room, ok_segment.within),
                      )
                      | inr outside ↦ inl (rw (zeroed, outside))
                    ]
          ]

    abbrev loaded : Space → Memory
    loaded s = (zero_page bias p (after_file s)).memory

    loaded-file :
        (s : Space) (i : ℕ)
        → i < p.p_filesz
        → loaded s (start_at p bias + i) ≡ file (p.p_offset + i)
    unfolding page_start page_end
    loaded-file s i lt =
        let a : ℕ = start_at p bias + i in
        let small : a < 2 ^ 32 = omega (arith, ok_segment.room, ok_segment.within) in
        let offset : page_start p.p_offset + (a - page_start (start_at p bias)) ≡ p.p_offset + i =
          omega (arith, ok_segment.congruent) in
        ground (
          arith,
          zero_page-cases (after_file s) a small,
          after_file-memory s a small,
          ap file offset,
        )

    loaded_after :
        (s : Space) (a : ℕ)
        → a < 2 ^ 32
        → start_at p bias + p.p_filesz ≤ a
        → s.memory a ≡ 0
        → loaded s a ≡ 0
    loaded_after s a small past before =
        ground (arith, zero_page-cases (after_file s) a small, after_file-memory s a small)

    loaded_outside :
        (s : Space) (a : ℕ)
        → a < 2 ^ 32
        → (a < page_start (start_at p bias)) ⊎ (page_end (start_at p bias + p.p_memsz) ≤ a)
        → loaded s a ≡ s.memory a
    unfolding page_end page_start
    loaded_outside s a small out = ground (
      arith,
      zero_page-cases (after_file s) a small,
      after_file-memory s a small,
      ok_segment.room,
      ok_segment.within,
    )

    -- Take the Windows API, a C runtime that reads the file, and a loadable segment of it whose
    -- address and offset agree within a page, that has no more bytes in the file than in memory, that
    -- ends, in memory and in the file, at least a page below 2 ^ 32, that does not start in the first
    -- page, and whose protection is neither none nor execution alone. If the
    -- pages of the segment are zero, load_segment succeeds; memory is then, from the segment's start
    -- address on, the file's bytes for the first p_filesz bytes, and zeros up to p_memsz; outside the
    -- segment's pages no byte changes.
    pub load_segment-Loaded :
        (s : Space)
        → ((a : ℕ)
            → page_start (p.p_vaddr + bias) ≤ a
            → a < page_end (p.p_vaddr + bias + p.p_memsz)
            → s.memory a ≡ 0)
        → (s' : Space) × (load_segment (windows_kernel w) fd bias p s ≡ done tt s')
          × ((i : ℕ) → i < p.p_filesz → s'.memory (p.p_vaddr + bias + i) ≡ file (p.p_offset + i))
          × ((i : ℕ) → p.p_filesz ≤ i → i < p.p_memsz → s'.memory (p.p_vaddr + bias + i) ≡ 0)
          × ((a : ℕ)
              → a < 2 ^ 32
              → (a < page_start (p.p_vaddr + bias)) ⊎ (page_end (p.p_vaddr + bias + p.p_memsz) ≤ a)
              → s'.memory a ≡ s.memory a)
    unfolding load_segment
    load_segment-Loaded s zeros = (
      zero_page bias p (after_file s),
      rw (kind, map_file-after_file s, map_zero-done (zero_page bias p (after_file s))),
      loaded-file s,
      (λ i past inside.
          loaded_after s (p.p_vaddr + bias + i) (omega (arith, ok_segment.room)) (omega arith) (
            zeros (p.p_vaddr + bias + i) (omega (arith, page_start_bounds (p.p_vaddr + bias))) (
              omega (
                arith,
                inside,
                ok_segment.room,
                page_end_bounds (p.p_vaddr + bias + p.p_memsz) ok_segment.room,
              )))),
      loaded_outside s,
    )
      where
        kind : (p.p_type != pt_load) ≡ false
        kind = ground (arith, ok_segment.loadable)
