-- ===== src/Reader/Accept.antt =====
-- What a file has passed when ElfReader::Load succeeds.
use Prim.Native.Nat.{bit_or}
use and_emu.Base.{
  ℕ, ◌*◌, ◌/◌, ◌≤◌, ◌<◌, ◌≡◌, refl, sym, ap, ◌∙◌, subst, inl, inr, Bool, true, false, ◌||◌, arith,
  ltb, ◌==◌, ◌!=◌, Bool-cases, Option-cases, All, Any,
}
use and_emu.Base.Word.{add32, sub32, minus_one, page_start, page_offset, page_end}
use and_emu.Elf.{sizeof_phdr, Ehdr, sizeof_ehdr, ehdr_at}
use and_emu.Kernel.{
  Space, Attempt, done, failed, Mapping, Reading, Kernel, prot_none, prot_read, map_private,
  map_anonymous,
}
use and_emu.Memory.{Memory, load8, load16, load32}
use and_emu.Phdr.{LoadExtent, get_load_size}
use and_emu.Reader.{
  ElfReader, headers, Outcome, pass, stop, Step, and_step, ◌&&&◌, outcome, header_ok,
  verify_elf_header, any_holds, check_phdr, phdr_address, find_phdr, read_elf_header,
  read_program_header, reserve_address_space, load_each, load_segments, load,
}
use and_emu.Reader.Check.{FileEnds, LetThrough, find_phdr_iff}
use and_emu.Reader.TableAddress.{TableAddress}

-- A chain of steps that passes had both its parts pass.
and_step-pass :
    (o : Outcome) (b : Step) (r' : ElfReader) (s' : Space)
    → and_step o b ≡ pass r' s'
    → (r : ElfReader) × (s : Space) × (o ≡ pass r s) × (b r s ≡ pass r' s')
and_step-pass (pass r s) b r' s' run = (r, s, refl, run)
and_step-pass (stop r s) b r' s' run = cc

verify-header_ok :
    (r r' : ElfReader) (s s' : Space)
    → verify_elf_header r s ≡ pass r' s'
    → (header_ok r.header ≡ true) × (r ≡ r') × (s ≡ s')
unfolding verify_elf_header
verify-header_ok r r' s s' run = at (header_ok r.header) run
  where
    at : (b : Bool) → outcome b r s ≡ pass r' s' → (b ≡ true) × (r ≡ r') × (s ≡ s')
    at true e = (refl, cc, cc)
    at false e = cc

module _ (k : Kernel) (r r' : ElfReader) (s s' : Space) where
  -- What ReadProgramHeader has checked.
  abbrev Counted : ElfReader → Type 0
  Counted t =
      (t.header ≡ r.header)
      × (t.phdr_num ≡ r.header.e_phnum)
      × (1 ≤ t.phdr_num)
      × (t.phdr_num ≤ 2048)

  read_program_header-Counted : read_program_header k r s ≡ pass r' s' → Counted r'
  unfolding read_program_header
  read_program_header-Counted run =
      elim (Bool-cases (ltb r.header.e_phnum 1 || ltb (65536 / sizeof_phdr) r.header.e_phnum)) [
        | inl refused_ ↦
            let stopped : read_program_header k r s
                ≡ stop (record r { phdr_num = r.header.e_phnum }) s =
              rw (refused_, read_program_header) in
            let both = sym stopped ∙ run in cc
        | inr fine ↦ mapped (k.mmap request s) refl fine
      ]
    where
      size : ℕ
      size =
          sub32 (page_end (add32 r.header.e_phoff (r.header.e_phnum * sizeof_phdr)))
            (page_start r.header.e_phoff)

      request : Mapping
      request = record {
        start = 0;
        size = size;
        prot = prot_read;
        flags = map_private;
        fd = r.fd;
        offset = page_start r.header.e_phoff;
      }

      read_at : ℕ → ElfReader
      read_at a = record r {
        phdr_num = r.header.e_phnum;
        phdr_size = size;
        phdr_mmap = a;
        phdr_table_at = add32 a (page_offset r.header.e_phoff);
      }

      mapped :
          (o : Attempt ℕ)
          → k.mmap request s ≡ o
          → (ltb r.header.e_phnum 1 || ltb (65536 / sizeof_phdr) r.header.e_phnum) ≡ false
          → Counted r'
      mapped (failed s₁) e fine =
          let stopped : read_program_header k r s
              ≡ stop (record r { phdr_num = r.header.e_phnum; phdr_size = size }) s₁ =
            rw (fine, e, read_program_header) in
          let both = sym stopped ∙ run in cc
      mapped (done a s₁) e fine =
          let passed : read_program_header k r s ≡ pass (read_at a) s₁ =
            rw (fine, e, read_program_header) in
          let both = sym passed ∙ run in
          let same : read_at a ≡ r' = cc in
          subst Counted same (refl, refl, ground arith, ground arith)

  -- What ReserveAddressSpace has checked, and what it keeps.
  abbrev Placed : ElfReader → Type 0
  Placed t = (t.header ≡ r.header) × (t.phdr_num ≡ r.phdr_num) × (0 < t.load_size)

  reserve-Placed : reserve_address_space k r s ≡ pass r' s' → Placed r'
  unfolding reserve_address_space
  reserve-Placed run = elim (Bool-cases (size.size == 0)) [
    | inl empty ↦
        let stopped : reserve_address_space k r s ≡ stop (record r { load_size = size.size }) s =
          rw (empty, reserve_address_space) in
        let both = sym stopped ∙ run in cc
    | inr full ↦ mapped (k.mmap request s) refl full
  ]
    where
      size : LoadExtent
      size = get_load_size (headers r s)

      request : Mapping
      request = record {
        start = size.out_min_vaddr;
        size = size.size;
        prot = prot_none;
        flags = bit_or map_private map_anonymous;
        fd = minus_one;
        offset = 0;
      }

      moved : ℕ → ElfReader
      moved a = record r {
        load_size = size.size;
        load_start = a;
        load_bias = sub32 a size.out_min_vaddr;
      }

      mapped : (o : Attempt ℕ) → k.mmap request s ≡ o → (size.size == 0) ≡ false → Placed r'
      mapped (failed s₁) e full =
          let stopped : reserve_address_space k r s ≡ stop (record r { load_size = size.size }) s₁ =
            rw (full, e, reserve_address_space) in
          let both = sym stopped ∙ run in cc
      mapped (done a s₁) e full =
          let passed : reserve_address_space k r s ≡ pass (moved a) s₁ =
            rw (full, e, reserve_address_space) in
          let both = sym passed ∙ run in
          let same : moved a ≡ r' = cc in subst Placed same (refl, refl, ground arith)

  load_segments-same : load_segments k r s ≡ pass r' s' → r ≡ r'
  unfolding load_segments
  load_segments-same run = at (load_each k r.fd r.load_bias r.phdr_table_at r.phdr_num s) run
    where
      at :
          (o : Attempt (Unit {0}))
          → elim o [ done _ t ↦ pass r t | failed t ↦ stop r t ] ≡ pass r' s'
          → r ≡ r'
      at (done u t) e = cc
      at (failed t) e = cc

-- ReadElfHeader has read a whole header.
read_elf_header-read :
    (k : Kernel) (r r' : ElfReader) (s s' : Space)
    → read_elf_header k r s ≡ pass r' s'
    → ((k.read r.fd sizeof_ehdr s).count ≡ sizeof_ehdr)
      × (r'.header ≡ ehdr_at (k.read r.fd sizeof_ehdr s).bytes 0)
unfolding read_elf_header
read_elf_header-read k r r' s s' run = elim (Bool-cases (got.count != sizeof_ehdr)) [
  | inl short ↦
      let stopped : read_elf_header k r s ≡ stop r got.after = rw (short, read_elf_header) in
      let both = sym stopped ∙ run in cc
  | inr whole ↦
      let passed : read_elf_header k r s
          ≡ pass (record r { header = ehdr_at got.bytes 0 }) got.after =
        rw (whole, read_elf_header) in
      let both = sym passed ∙ run in
      let same : record r { header = ehdr_at got.bytes 0 } ≡ r' = cc in
      (ground arith, ap (λ (t : ElfReader). t.header) (sym same))
]
  where
    got : Reading
    got = k.read r.fd sizeof_ehdr s

-- The bytes of an ELF header: the magic number, 32 bits, least byte first, version 1, for ARM.
pub record IsArmHeader (bytes : Memory) : Type 0 where
  pub magic0 : load8 bytes 0 ≡ 0x7f
  pub magic1 : load8 bytes 1 ≡ b'E'
  pub magic2 : load8 bytes 2 ≡ b'L'
  pub magic3 : load8 bytes 3 ≡ b'F'
  pub class : load8 bytes 4 ≡ 1
  pub byte_order : load8 bytes 5 ≡ 1
  pub machine : load16 bytes 18 ≡ 40
  pub version : load32 bytes 20 ≡ 1

header_ok-IsArmHeader : (bytes : Memory) → header_ok (ehdr_at bytes 0) ≡ true → IsArmHeader bytes
unfolding header_ok ehdr_at
header_ok-IsArmHeader bytes e = record {
  magic0 = ground arith;
  magic1 = ground arith;
  magic2 = ground arith;
  magic3 = ground arith;
  class = ground arith;
  byte_order = ground arith;
  machine = ground arith;
  version = ground arith;
}

-- FindPhdr changes only `loaded_phdr_`.
find_phdr-loaded :
    (r r' : ElfReader) (s s' : Space)
    → find_phdr r s ≡ pass r' s'
    → (a : ℕ) × (r' ≡ record r { loaded_phdr = a }) × (s' ≡ s)
unfolding find_phdr check_phdr
find_phdr-loaded r r' s s' run =
    elim (Option-cases (phdr_address (headers r s) r.load_bias s.memory)) [
      | inl none_ ↦
          let stopped : find_phdr r s ≡ stop r s = rw (none_, find_phdr) in
          let both = sym stopped ∙ run in cc
      | inr (a, at) ↦
          let go : find_phdr r s ≡ check_phdr a r s = rw (at, find_phdr) in
          let changed =
            checked a (any_holds r.load_bias a (add32 a (r.phdr_num * sizeof_phdr)) (headers r s))
              refl (sym go ∙ run) in
          (a, changed.0, changed.1)
    ]
  where
    checked :
        (a : ℕ) (b : Bool)
        → any_holds r.load_bias a (add32 a (r.phdr_num * sizeof_phdr)) (headers r s) ≡ b
        → check_phdr a r s ≡ pass r' s'
        → (r' ≡ record r { loaded_phdr = a }) × (s' ≡ s)
    checked a true e e' =
        let passed : check_phdr a r s ≡ pass (record r { loaded_phdr = a }) s =
          rw (e, check_phdr) in
        let both = sym passed ∙ e' in (cc, cc)
    checked a false e e' =
        let stopped : check_phdr a r s ≡ stop r s = rw (e, check_phdr) in
        let both = sym stopped ∙ e' in cc

phnum_at : (bytes : Memory) → (ehdr_at bytes 0).e_phnum ≡ load16 bytes 44
unfolding ehdr_at
phnum_at bytes = refl

-- What a reader has accepted, by the reading of the file's first bytes, with the process that it
-- leaves.
pub record Accepted (got : Reading) (r : ElfReader) (s : Space) : Type 0 where
  pub whole_header : got.count ≡ sizeof_ehdr
  pub header : IsArmHeader got.bytes
  pub counted : r.phdr_num ≡ load16 got.bytes 44
  pub some_headers : 1 ≤ r.phdr_num
  pub few_headers : r.phdr_num ≤ 2048
  pub some_pages : 0 < r.load_size
  pub table_at : TableAddress (headers r s) r.load_bias s.memory r.loaded_phdr
  pub table : Any (LetThrough r r.loaded_phdr) (headers r s)

-- If Load succeeds, and the file's part of every loadable segment ends below 2 ^ 32, the first read
-- from the file gave a whole ELF header, with the magic number, for 32 bits, least byte first,
-- version 1 and ARM; the number of program headers is the one in it, from 1 to 2048; the reserved
-- size is not 0; `loaded_phdr_` is the address that PT_PHDR or the loaded ELF header gives; and the
-- table there lies in the file's part of a loadable segment, or, what CheckPhdr lets through as well,
-- starts behind the start of one and reaches 2 ^ 32 or wraps round it.
pub load-Accepted :
    (k : Kernel) (r r' : ElfReader) (s s' : Space)
    → load k r s ≡ pass r' s'
    → All (FileEnds r'.load_bias) (headers r' s')
    → Accepted (k.read r.fd sizeof_ehdr s) r' s'
unfolding load
load-Accepted k r r' s s' run fits =
    let (r1, s1, e1, rest1) =
      and_step-pass (read_elf_header k r s)
        (verify_elf_header
          &&& read_program_header k
          &&& reserve_address_space k
          &&& load_segments k
          &&& find_phdr)
        r' s' run in
    let (r2, s2, e2, rest2) =
      and_step-pass (verify_elf_header r1 s1)
        (read_program_header k &&& reserve_address_space k &&& load_segments k &&& find_phdr) r' s'
        rest1 in
    let (r3, s3, e3, rest3) =
      and_step-pass (read_program_header k r2 s2)
        (reserve_address_space k &&& load_segments k &&& find_phdr) r' s' rest2 in
    let (r4, s4, e4, rest4) =
      and_step-pass (reserve_address_space k r3 s3) (load_segments k &&& find_phdr) r' s' rest3 in
    let (r5, s5, e5, rest5) = and_step-pass (load_segments k r4 s4) find_phdr r' s' rest4 in
    let verified = verify-header_ok r1 r2 s1 s2 e2 in
    let counted = read_program_header-Counted k r2 r3 s2 s3 e3 in
    let placed = reserve-Placed k r3 r4 s3 s4 e4 in
    let same = load_segments-same k r4 r5 s4 s5 e5 in
    let (a, final, kept) = find_phdr-loaded r5 r' s5 s' rest5 in
    let from_r2 : r5.header ≡ r2.header =
      ap (λ (t : ElfReader). t.header) (sym same) ∙ placed.0 ∙ counted.0 in
    let from_r1 : r5.header ≡ r1.header =
      from_r2 ∙ ap (λ (t : ElfReader). t.header) (sym verified.1) in
    let number : r5.phdr_num ≡ r3.phdr_num =
      ap (λ (t : ElfReader). t.phdr_num) (sym same) ∙ placed.1 in
    let size : 0 < r5.load_size = subst (λ (t : ElfReader). 0 < t.load_size) same placed.2 in
    let found : find_phdr r5 s5 ≡ pass (record r5 { loaded_phdr = a }) s5 =
      rest5
      ∙ ap (λ (t : ElfReader). pass t s') final
      ∙ ap (λ (t : Space). pass (record r5 { loaded_phdr = a }) t) kept in
    let read = read_elf_header-read k r r1 s s1 e1 in
    let bytes : Memory = (k.read r.fd sizeof_ehdr s).bytes in
    let from_file : r5.header ≡ ehdr_at bytes 0 = from_r1 ∙ read.1 in
    let few : r5.phdr_num ≤ 2048 = omega (arith, number, counted.3) in
    let fits_r5 : All (FileEnds r5.load_bias) (headers r5 s5) =
      subst (λ (t : Space). All (FileEnds r5.load_bias) (headers r5 t)) kept
        (subst (λ (t : ElfReader). All (FileEnds t.load_bias) (headers t s')) final fits) in
    let (address, holds) = (find_phdr_iff r5 s5 a few fits_r5).0 found in
    subst (λ (t : ElfReader). Accepted (k.read r.fd sizeof_ehdr s) t s') (sym final)
      (record {
        whole_header = read.0;
        header = header_ok-IsArmHeader bytes (ap header_ok (sym from_file ∙ from_r1) ∙ verified.0);
        counted =
            number
            ∙ counted.1
            ∙ ap (λ (h : Ehdr). h.e_phnum) (sym from_r2 ∙ from_file)
            ∙ phnum_at bytes;
        some_headers = omega (arith, number, counted.2);
        few_headers = few;
        some_pages = size;
        table_at =
            subst (λ (t : Space). TableAddress (headers r5 t) r5.load_bias t.memory a) (sym kept)
              address;
        table = subst (λ (t : Space). Any (LetThrough r5 a) (headers r5 t)) (sym kept) holds;
      })
