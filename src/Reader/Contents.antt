-- ===== src/Reader/Contents.antt =====
-- LoadSegments, one segment: its file content, its zeros, and the pages around it.
use Prim.Native.Nat.{bit_and, bit_or}
use and_emu.Base.{
  ℕ, ◌+◌, ◌-◌, ◌^◌, ◌≤◌, ◌<◌, ◌≡◌, refl, sym, ap, ◌∙◌, ◌≢◌, ◌⊎◌, inl, inr, Bool, true, false, ◌&&◌,
  arith, ltb, leb, ◌!=◌, if◌then◌else◌, Bool-cases,
}
use and_emu.Base.Word.{add32, sub32, minus_one, page_size, page_start, page_offset, page_end}
use and_emu.Elf.{pt_load, pf_w, Phdr}
use and_emu.Kernel.{
  Space, Attempt, done, failed, Mapping, Kernel, map_private, map_fixed, map_anonymous,
}
use and_emu.Memory.{Memory, memset}
use and_emu.Phdr.{pflags_to_prot}
use and_emu.Reader.{zero_page, map_file, map_zero, load_segment}
use and_emu.Reader.Segment.{
  in_pages, MapsFixed, IsMappable, start_at, in_file_pages, map_file-memory,
}

module _ (k : Kernel) (fd : ℕ) (file : ℕ → ℕ) (maps : MapsFixed k fd file) (bias : ℕ) (p : Phdr)
    (ok_segment : IsMappable p bias) where
  file_ends : add32 (add32 p.p_vaddr bias) p.p_filesz ≡ start_at p bias + p.p_filesz
  file_ends = omega (arith, ok_segment.room, ok_segment.within)

  memory_ends : add32 (add32 p.p_vaddr bias) p.p_memsz ≡ start_at p bias + p.p_memsz
  memory_ends = omega (arith, ok_segment.room)

  -- The rest of the file's last page, which is cleared for a writable segment.
  abbrev in_tail : ℕ → Bool
  in_tail a =
      leb (start_at p bias + p.p_filesz) a
      && ltb a (page_end (start_at p bias + p.p_filesz))
      && bit_and p.p_flags pf_w != 0

  zero_page-memory :
      (s : Space) (a : ℕ)
      → a < 2 ^ 32
      → (zero_page bias p s).memory a ≡ (if in_tail a then 0 else s.memory a)
  unfolding zero_page memset page_offset page_end page_start
  zero_page-memory s a small = rw file_ends (ground (arith, ok_segment.room, ok_segment.within))

  abbrev in_zero_pages : ℕ → Bool
  in_zero_pages a =
      leb (page_end (start_at p bias + p.p_filesz)) a
      && ltb a (page_end (start_at p bias + p.p_memsz))

  -- The anonymous request covers those pages.
  zero_pages :
      (a : ℕ)
      → let end = page_end (add32 (add32 p.p_vaddr bias) p.p_filesz) in
        let page = page_end (add32 (add32 p.p_vaddr bias) p.p_memsz) in
        ltb end page ≡ true → (in_pages end (sub32 page end) a ≡ in_zero_pages a)
  unfolding page_end page_start
  zero_pages a some_pages =
      ground (arith, file_ends, memory_ends, ok_segment.room, ok_segment.within)

  zero_request :
      let end = page_end (add32 (add32 p.p_vaddr bias) p.p_filesz) in
      let page = page_end (add32 (add32 p.p_vaddr bias) p.p_memsz) in
      ltb end page ≡ true → (sub32 page end ≢ 0) × (end + sub32 page end + page_size ≤ 2 ^ 32)
  unfolding page_end page_start
  zero_request some_pages =
      ground (arith, file_ends, memory_ends, ok_segment.room, ok_segment.within)

  map_zero-memory :
      (s s' : Space) (u : Unit {0}) (a : ℕ)
      → map_zero k bias p s ≡ done u s'
      → s'.memory a ≡ (if in_zero_pages a then 0 else s.memory a)
  unfolding map_zero
  map_zero-memory s s' u a run = elim (Bool-cases (ltb end page)) [
    | inl some_pages ↦ go (k.mmap request s) refl some_pages
    | inr no_more ↦
        let run' : done tt s ≡ done u s' = rw no_more at run in
        let same : s ≡ s' = cc in
        let nothing_in : in_zero_pages a ≡ false = ground (arith, ends, pages_end) in
        rw nothing_in (ap (λ (t : Space). t.memory a) (sym same))
  ]
    where
      end : ℕ
      end = page_end (add32 (add32 p.p_vaddr bias) p.p_filesz)

      page : ℕ
      page = page_end (add32 (add32 p.p_vaddr bias) p.p_memsz)

      ends : end ≡ page_end (start_at p bias + p.p_filesz)
      ends = ap page_end file_ends

      pages_end : page ≡ page_end (start_at p bias + p.p_memsz)
      pages_end = ap page_end memory_ends

      request : Mapping
      request = record {
        start = end;
        size = sub32 page end;
        prot = pflags_to_prot p.p_flags;
        flags = bit_or map_fixed (bit_or map_anonymous map_private);
        fd = minus_one;
        offset = 0;
      }

      Goal : Type 0
      Goal = s'.memory a ≡ (if in_zero_pages a then 0 else s.memory a)

      go : (r : Attempt ℕ) → k.mmap request s ≡ r → ltb end page ≡ true → Goal
      go (failed s₁) e some_pages = let run' = rw (some_pages, e) at run in cc
      go (done b s₁) e some_pages =
          let run' : done tt s₁ ≡ done u s' = rw (some_pages, e) at run in
          let same : s₁ ≡ s' = cc in
          let content =
            maps.zero_map request s s₁ b a refl (zero_request some_pages).0
              (zero_request some_pages).1 e in
          ap (λ (t : Space). t.memory a) (sym same) ∙ (rw (zero_pages a some_pages) at content)

  -- The three writes, one over the other.
  abbrev layer : Memory → ℕ → ℕ
  layer m a =
      if in_zero_pages a
      then 0
      else if in_tail a
      then 0
      else if in_file_pages p bias a
      then file (page_start p.p_offset + (a - page_start (start_at p bias)))
      else m a

  layered :
      (s s₁ s' : Space) (v u : Unit {0}) (a : ℕ)
      → a < 2 ^ 32
      → map_file k fd bias p s ≡ done v s₁
      → map_zero k bias p (zero_page bias p s₁) ≡ done u s'
      → s'.memory a ≡ layer s.memory a
  layered s s₁ s' v u a small e run' = ground (
    arith,
    map_zero-memory (zero_page bias p s₁) s' u a run',
    zero_page-memory s₁ a small,
    map_file-memory k fd file maps bias p ok_segment s s₁ v a e,
  )

  layer-file :
      (m : Memory) (i : ℕ) → i < p.p_filesz → layer m (start_at p bias + i) ≡ file (p.p_offset + i)
  unfolding page_start page_end
  layer-file m i lt =
      let a : ℕ = start_at p bias + i in
      let offset : page_start p.p_offset + (a - page_start (start_at p bias)) ≡ p.p_offset + i =
        omega (arith, ok_segment.congruent) in
      let no_zero : in_zero_pages a ≡ false = ground (arith, ok_segment.room, ok_segment.within) in
      let no_tail : in_tail a ≡ false = ground (arith, ok_segment.room, ok_segment.within) in
      let in_file : in_file_pages p bias a ≡ true =
        ground (arith, ok_segment.room, ok_segment.within) in
      rw (no_zero, no_tail, in_file) (ap file offset)

  layer-zero :
      (m : Memory) (i : ℕ)
      → bit_and p.p_flags pf_w ≢ 0
      → p.p_filesz ≤ i
      → i < p.p_memsz
      → layer m (start_at p bias + i) ≡ 0
  unfolding page_start page_end
  layer-zero m i writable lo hi = ground (arith, ok_segment.room, ok_segment.within)

  layer-outside :
      (m : Memory) (a : ℕ)
      → (a < page_start (start_at p bias)) ⊎ (page_end (start_at p bias + p.p_memsz) ≤ a)
      → layer m a ≡ m a
  unfolding page_start page_end
  layer-outside m a out = ground (arith, ok_segment.room, ok_segment.within)

  -- Take a kernel whose fixed mappings put the pages of the file, or zeros, in place, and a
  -- loadable segment whose address and offset agree within a page, that has no more bytes in the
  -- file than in memory, and that ends, in memory and in the file, at least a page below 2 ^ 32. Where
  -- load_segment succeeds, memory is, from the segment's start address on, the file's bytes for the
  -- first p_filesz bytes and, if the segment is writable, zeros up to p_memsz; outside the
  -- segment's pages no byte changes.
  pub load_segment-contents :
      (s s' : Space) (u : Unit {0})
      → load_segment k fd bias p s ≡ done u s'
      → ((i : ℕ) → i < p.p_filesz → s'.memory (p.p_vaddr + bias + i) ≡ file (p.p_offset + i))
        × ((i : ℕ)
            → bit_and p.p_flags pf_w ≢ 0
            → p.p_filesz ≤ i
            → i < p.p_memsz
            → s'.memory (p.p_vaddr + bias + i) ≡ 0)
        × ((a : ℕ)
            → a < 2 ^ 32
            → (a < page_start (p.p_vaddr + bias)) ⊎ (page_end (p.p_vaddr + bias + p.p_memsz) ≤ a)
            → s'.memory a ≡ s.memory a)
  unfolding load_segment
  load_segment-contents s s' u run = go (map_file k fd bias p s) refl
    where
      kind : (p.p_type != pt_load) ≡ false
      kind = ground (arith, ok_segment.loadable)

      Goal : Type 0
      Goal =
          ((i : ℕ) → i < p.p_filesz → s'.memory (p.p_vaddr + bias + i) ≡ file (p.p_offset + i))
          × ((i : ℕ)
              → bit_and p.p_flags pf_w ≢ 0
              → p.p_filesz ≤ i
              → i < p.p_memsz
              → s'.memory (p.p_vaddr + bias + i) ≡ 0)
          × ((a : ℕ)
              → a < 2 ^ 32
              → (a < page_start (p.p_vaddr + bias)) ⊎ (page_end (p.p_vaddr + bias + p.p_memsz) ≤ a)
              → s'.memory a ≡ s.memory a)

      go : (r : Attempt (Unit {0})) → map_file k fd bias p s ≡ r → Goal
      go (failed s₁) e = let run' = rw (kind, e) at run in cc
      go (done v s₁) e =
          let run' : map_zero k bias p (zero_page bias p s₁) ≡ done u s' = rw (kind, e) at run in
          let layers : (a : ℕ) → a < 2 ^ 32 → s'.memory a ≡ layer s.memory a =
            λ a small. layered s s₁ s' v u a small e run' in
          (
            (λ i lt.
                layers (p.p_vaddr + bias + i) (omega (arith, ok_segment.room, ok_segment.within))
                ∙ layer-file s.memory i lt),
            (λ i w lo hi.
                layers (p.p_vaddr + bias + i) (omega (arith, ok_segment.room))
                ∙ layer-zero s.memory i w lo hi),
            (λ a small out. layers a small ∙ layer-outside s.memory a out),
          )
