-- ===== src/Reader/Segment.antt =====
-- LoadSegments, one segment: the bytes that it leaves in memory, from what mmap is documented to do.
use Prim.Native.Nat.{bit_or}
use and_emu.Base.{
  ℕ, ◌+◌, ◌-◌, ◌%◌, ◌^◌, ◌≤◌, ◌≡◌, refl, sym, ap, ◌∙◌, ◌≢◌, inl, inr, Bool, true, false, ◌&&◌,
  arith, ltb, leb, ◌==◌, if◌then◌else◌, Bool-cases,
}
use and_emu.Base.Word.{add32, page_size, page_start, page_end}
use and_emu.Elf.{pt_load, Phdr}
use and_emu.Kernel.{
  Space, Attempt, done, failed, Mapping, Kernel, map_private, map_fixed, map_anonymous,
}
use and_emu.Phdr.{pflags_to_prot}
use and_emu.Reader.{file_length, map_file}

-- Bytes in whole pages from `start` on.
abbrev pub in_pages : ℕ → ℕ → ℕ → Bool
in_pages start size p = leb start p && ltb p (start + page_end size)

-- A fixed mapping, where it succeeds, replaces the pages of its range: by the file's content from the
-- given offset, with zeros past the end of the file, or by zeros if it is anonymous.
pub record MapsFixed (k : Kernel) (fd : ℕ) (file : ℕ → ℕ) : Type 0 where
  pub file_map :
      (q : Mapping) (s s' : Space) (a p : ℕ)
      → q.fd ≡ fd
      → q.flags ≡ bit_or map_fixed map_private
      → q.size ≢ 0
      → q.start + q.size + page_size ≤ 2 ^ 32
      → k.mmap q s ≡ done a s'
      → s'.memory p
        ≡ (if in_pages q.start q.size p then file (q.offset + (p - q.start)) else s.memory p)
  pub zero_map :
      (q : Mapping) (s s' : Space) (a p : ℕ)
      → q.flags ≡ bit_or map_fixed (bit_or map_anonymous map_private)
      → q.size ≢ 0
      → q.start + q.size + page_size ≤ 2 ^ 32
      → k.mmap q s ≡ done a s'
      → s'.memory p ≡ (if in_pages q.start q.size p then 0 else s.memory p)

-- What the ELF rules ask of a loadable segment at a bias.
pub record IsMappable (p : Phdr) (bias : ℕ) : Type 0 where
  pub loadable : p.p_type ≡ pt_load
  pub congruent : (p.p_vaddr + bias) % page_size ≡ p.p_offset % page_size
  pub room : p.p_vaddr + bias + p.p_memsz + page_size ≤ 2 ^ 32
  pub file_room : p.p_offset + p.p_filesz + page_size ≤ 2 ^ 32
  pub within : p.p_filesz ≤ p.p_memsz

-- The address of the segment's first byte.
abbrev pub start_at : Phdr → ℕ → ℕ
start_at p bias = p.p_vaddr + bias

-- The bytes that the file's mapping covers, up to a page boundary.
abbrev pub in_file_pages : Phdr → ℕ → ℕ → Bool
in_file_pages p bias a =
    leb (page_start (start_at p bias)) a && ltb a (page_end (start_at p bias + p.p_filesz))

-- No page holds nothing.
nothing : (start a : ℕ) → in_pages start 0 a ≡ false
unfolding page_end page_start
nothing start a = ground arith

module _ (k : Kernel) (fd : ℕ) (file : ℕ → ℕ) (maps : MapsFixed k fd file) (bias : ℕ) (p : Phdr)
    (ok_segment : IsMappable p bias) where
  starts : add32 p.p_vaddr bias ≡ start_at p bias
  starts = omega (arith, ok_segment.room)

  file_pages :
      (a : ℕ)
      → in_pages (page_start (add32 p.p_vaddr bias)) (file_length p) a ≡ in_file_pages p bias a
  unfolding page_start page_end
  file_pages a = rw starts (ground (arith, length_, ends))
    where
      open ok_segment use {congruent, room, file_room, within}

      length_ : file_length p ≡ p.p_filesz + start_at p bias % page_size
      length_ = omega (arith, file_room, congruent)

      ends :
          page_start (start_at p bias) + page_end (file_length p)
          ≡ page_end (start_at p bias + p.p_filesz)
      ends = omega (arith, length_, room, within)

  file_room_lem : page_start (add32 p.p_vaddr bias) + file_length p + page_size ≤ 2 ^ 32
  unfolding page_start
  file_room_lem = omega (
    arith, starts, ok_segment.congruent, ok_segment.room, ok_segment.file_room, ok_segment.within,
  )

  pub map_file-memory :
      (s s' : Space) (u : Unit {0}) (a : ℕ)
      → map_file k fd bias p s ≡ done u s'
      → s'.memory a ≡ (
          if in_file_pages p bias a
          then file (page_start p.p_offset + (a - page_start (start_at p bias)))
          else s.memory a)
  unfolding map_file
  map_file-memory s s' u a run = elim (Bool-cases (file_length p == 0)) [
    | inl empty ↦ go_empty empty
    | inr some_bytes ↦ go (k.mmap request s) refl some_bytes
  ]
    where
      request : Mapping
      request = record {
        start = page_start (add32 p.p_vaddr bias);
        size = file_length p;
        prot = pflags_to_prot p.p_flags;
        flags = bit_or map_fixed map_private;
        fd = fd;
        offset = page_start p.p_offset;
      }

      Goal : Type 0
      Goal = s'.memory a ≡ (
          if in_file_pages p bias a
          then file (page_start p.p_offset + (a - page_start (start_at p bias)))
          else s.memory a)

      no_pages :
          (file_length p == 0) ≡ true
          → in_pages (page_start (add32 p.p_vaddr bias)) (file_length p) a ≡ false
      no_pages empty =
          let e : file_length p ≡ 0 = ground arith in
          rw e (nothing (page_start (add32 p.p_vaddr bias)) a)

      room : request.start + request.size + page_size ≤ 2 ^ 32
      room = file_room_lem

      go_empty : (file_length p == 0) ≡ true → Goal
      go_empty empty =
          let run' : done tt s ≡ done u s' = rw empty at run in
          let same : s ≡ s' = cc in
          let none_in : in_file_pages p bias a ≡ false = sym (file_pages a) ∙ no_pages empty in
          rw none_in (ap (λ (t : Space). t.memory a) (sym same))

      go : (r : Attempt ℕ) → k.mmap request s ≡ r → (file_length p == 0) ≡ false → Goal
      go (failed s₁) e some_bytes = let run' = rw (some_bytes, e) at run in cc
      go (done b s₁) e some_bytes =
          let run' : done tt s₁ ≡ done u s' = rw (some_bytes, e) at run in
          let same : s₁ ≡ s' = cc in
          let content = maps.file_map request s s₁ b a refl refl (ground arith) room e in
          ap (λ (t : Space). t.memory a) (sym same) ∙ (rw (file_pages a, starts) at content)
