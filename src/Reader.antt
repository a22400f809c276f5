-- ===== src/Reader.antt =====
-- `class ElfReader` of emulator/linker_phdr.cpp: the steps that read an ELF file's headers, reserve
-- an address range, and map the segments into it.
pub mod TableAddress
pub mod Check
pub mod Accept
pub mod Segment
pub mod Contents
pub mod Keeps
pub mod Reserve
use Prim.Native.Nat.{bit_and, bit_or}
use and_emu.Base.{
  ℕ, zero, suc, ◌+◌, ◌-◌, ◌*◌, ◌/◌, Bool, true, false, ◌&&◌, ◌||◌, Option, none, some, List, [],
  ◌∷◌, ltb, leb, ◌==◌, ◌!=◌, if◌then◌else◌,
}
use and_emu.Base.Word.{add32, sub32, minus_one, page_size, page_start, page_offset, page_end}
use and_emu.Elf.{
  pt_load, pt_phdr, pf_w, Phdr, sizeof_phdr, phdr_at, phdr_table, Ehdr, sizeof_ehdr, ehdr_at,
}
use and_emu.Kernel.{
  Space, Attempt, done, failed, and_then, Mapping, Kernel, prot_none, prot_read, map_private,
  map_fixed, map_anonymous,
}
use and_emu.Memory.{Memory, memset}
use and_emu.Phdr.{pflags_to_prot, get_load_size}

pub record ElfReader : Type 0 where
  pub name : List ℕ
  pub fd : ℕ
  pub header : Ehdr
  pub phdr_num : ℕ
  pub phdr_mmap : ℕ
  pub phdr_table_at : ℕ
  pub phdr_size : ℕ
  pub load_start : ℕ
  pub load_size : ℕ
  pub load_bias : ℕ
  pub loaded_phdr : ℕ

-- The constructor; `header_`, which it leaves open, is read only after it has been filled.
unfoldable pub new_reader : List ℕ → ℕ → ElfReader
new_reader name fd = record {
  name = name;
  fd = fd;
  header = ehdr_at (λ _. 0) 0;
  phdr_num = 0;
  phdr_mmap = 0;
  phdr_table_at = 0;
  phdr_size = 0;
  load_start = 0;
  load_size = 0;
  load_bias = 0;
  loaded_phdr = 0;
}

-- The table of program headers, where `phdr_table_` points.
abbrev pub headers : ElfReader → Space → List Phdr
headers r s = phdr_table s.memory r.phdr_table_at r.phdr_num

-- What a method that returns a bool leaves.
pub data Outcome : Type 0 where
  pass : ElfReader → Space → Outcome
  stop : ElfReader → Space → Outcome

abbrev pub Step : Type 0
Step = ElfReader → Space → Outcome

-- Goes on after `true`: `a && b`.
abbrev pub and_step : Outcome → Step → Outcome
and_step (pass r s) b = b r s
and_step (stop r s) b = stop r s

infixr 35 ◌&&&◌
abbrev pub ◌&&&◌ : Step → Step → Step
◌&&&◌ a b r s = and_step (a r s) b

abbrev pub outcome : Bool → ElfReader → Space → Outcome
outcome true r s = pass r s
outcome false r s = stop r s

-- e_machine of the ARM build.
abbrev em_arm : ℕ
em_arm = 40

-- The identification, class, byte order, version and machine that VerifyElfHeader accepts.
unfoldable pub header_ok : Ehdr → Bool
header_ok h =
    (h.e_mag0 == 0x7f && h.e_mag1 == b'E' && h.e_mag2 == b'L' && h.e_mag3 == b'F')
    && h.e_class == 1
    && h.e_data == 1
    && h.e_version == 1
    && h.e_machine == em_arm

verify_elf_header : Step
verify_elf_header r s = outcome (header_ok r.header) r s

-- CheckPhdr's test of one header, with the table between `loaded` and `loaded_end`.
unfoldable pub segment_holds : ℕ → ℕ → ℕ → Phdr → Bool
segment_holds bias loaded loaded_end p =
    let seg_start = add32 p.p_vaddr bias in
    let seg_end = add32 p.p_filesz seg_start in
    (p.p_type == pt_load) && leb seg_start loaded && leb loaded_end seg_end

unfoldable pub any_holds : ℕ → ℕ → ℕ → List Phdr → Bool
any_holds bias loaded loaded_end [] = false
any_holds bias loaded loaded_end (p ∷ ps) =
    segment_holds bias loaded loaded_end p || any_holds bias loaded loaded_end ps

unfoldable pub check_phdr : ℕ → Step
unfolding any_holds segment_holds
check_phdr loaded r s =
    if any_holds r.load_bias loaded (add32 loaded (r.phdr_num * sizeof_phdr)) (headers r s)
    then pass (record r { loaded_phdr = loaded }) s
    else stop r s

-- The first header of a type.
unfoldable pub first_of_type : ℕ → List Phdr → Option Phdr
first_of_type type [] = none
first_of_type type (p ∷ ps) = if p.p_type == type then some p else first_of_type type ps

-- Where the loaded program headers are: at PT_PHDR, or behind the ELF header that the first loadable
-- segment starts with.
unfoldable pub phdr_address : List Phdr → ℕ → Memory → Option ℕ
unfolding first_of_type
phdr_address ps bias m = elim (first_of_type pt_phdr ps) [
  | some p ↦ some (add32 bias p.p_vaddr)
  | none ↦ elim (first_of_type pt_load ps) [
    | none ↦ none
    | some p ↦
        let elf_addr = add32 bias p.p_vaddr in
        if p.p_offset == 0 then some (add32 elf_addr (ehdr_at m elf_addr).e_phoff) else none
  ]
]

unfoldable pub find_phdr : Step
find_phdr r s = elim (phdr_address (headers r s) r.load_bias s.memory) [
  | none ↦ stop r s
  | some loaded ↦ check_phdr loaded r s
]

-- `file_length` of LoadSegments.
abbrev pub file_length : Phdr → ℕ
file_length p = sub32 (add32 p.p_offset p.p_filesz) (page_start p.p_offset)

-- The rest of the last page of the file's part, of a writable segment.
unfoldable pub zero_page : ℕ → Phdr → Space → Space
zero_page bias p s =
    let end = add32 (add32 p.p_vaddr bias) p.p_filesz in
    if bit_and p.p_flags pf_w != 0 && ltb 0 (page_offset end)
    then record s { memory = memset s.memory end 0 (page_size - page_offset end) }
    else s

module _ (k : Kernel) where
  unfoldable pub read_elf_header : Step
  read_elf_header r s =
      let got = k.read r.fd sizeof_ehdr s in
      if got.count != sizeof_ehdr
      then stop r got.after
      else pass (record r { header = ehdr_at got.bytes 0 }) got.after

  -- At most 64 KiB of program headers, mapped from the pages of the file that hold them.
  unfoldable pub read_program_header : Step
  read_program_header r s =
      let r₁ = record r { phdr_num = r.header.e_phnum } in
      if ltb r₁.phdr_num 1 || ltb (65536 / sizeof_phdr) r₁.phdr_num
      then stop r₁ s
      else (let phoff = r.header.e_phoff in
          let page_min = page_start phoff in
          let page_max = page_end (add32 phoff (r₁.phdr_num * sizeof_phdr)) in
          let r₂ = record r₁ { phdr_size = sub32 page_max page_min } in
          let request : Mapping = record {
            start = 0;
            size = r₂.phdr_size;
            prot = prot_read;
            flags = map_private;
            fd = r.fd;
            offset = page_min;
          } in
          elim (k.mmap request s) [
            | failed s' ↦ stop r₂ s'
            | done a s' ↦
                pass (record r₂ { phdr_mmap = a; phdr_table_at = add32 a (page_offset phoff) }) s'
          ])

  unfoldable pub reserve_address_space : Step
  reserve_address_space r s =
      let size = get_load_size (headers r s) in
      let r₁ = record r { load_size = size.size } in
      if size.size == 0
      then stop r₁ s
      else (let request : Mapping = record {
        start = size.out_min_vaddr;
        size = size.size;
        prot = prot_none;
        flags = bit_or map_private map_anonymous;
        fd = minus_one;
        offset = 0;
      } in
          elim (k.mmap request s) [
            | failed s' ↦ stop r₁ s'
            | done start s' ↦
                pass (record r₁ { load_start = start; load_bias = sub32 start size.out_min_vaddr })
                  s'
          ])

  -- The mapping of the file's part of a segment.
  unfoldable pub map_file : ℕ → ℕ → Phdr → Space → Attempt (Unit {0})
  map_file fd bias p s =
      if file_length p == 0
      then done tt s
      else (let request : Mapping = record {
        start = page_start (add32 p.p_vaddr bias);
        size = file_length p;
        prot = pflags_to_prot p.p_flags;
        flags = bit_or map_fixed map_private;
        fd = fd;
        offset = page_start p.p_offset;
      } in
          and_then (k.mmap request s) (λ _ s'. done tt s'))

  -- The pages past the file's part.
  unfoldable pub map_zero : ℕ → Phdr → Space → Attempt (Unit {0})
  map_zero bias p s =
      let end = page_end (add32 (add32 p.p_vaddr bias) p.p_filesz) in
      let page = page_end (add32 (add32 p.p_vaddr bias) p.p_memsz) in
      if ltb end page
      then (let request : Mapping = record {
        start = end;
        size = sub32 page end;
        prot = pflags_to_prot p.p_flags;
        flags = bit_or map_fixed (bit_or map_anonymous map_private);
        fd = minus_one;
        offset = 0;
      } in
          and_then (k.mmap request s) (λ _ s'. done tt s'))
      else done tt s

  -- One round of the loop of LoadSegments. The table of headers is a mapping of its own, so the flags
  -- are the same when they are read again behind the mapping of the file.
  unfoldable pub load_segment : ℕ → ℕ → Phdr → Space → Attempt (Unit {0})
  unfolding map_file zero_page map_zero
  load_segment fd bias p s =
      if p.p_type != pt_load
      then done tt s
      else and_then (map_file fd bias p s) (λ _ s'. map_zero bias p (zero_page bias p s'))

  unfoldable pub load_each : ℕ → ℕ → ℕ → ℕ → Space → Attempt (Unit {0})
  unfolding load_segment
  load_each fd bias table zero s = done tt s
  load_each fd bias table (suc count) s =
      and_then (load_segment fd bias (phdr_at s.memory table) s)
        (λ _ s'. load_each fd bias (table + sizeof_phdr) count s')

  unfoldable pub load_segments : Step
  unfolding load_each
  load_segments r s = elim (load_each r.fd r.load_bias r.phdr_table_at r.phdr_num s) [
    | done _ s' ↦ pass r s'
    | failed s' ↦ stop r s'
  ]

  -- `ElfReader::Load`.
  unfoldable pub load : Step
  unfolding read_elf_header verify_elf_header read_program_header reserve_address_space
      load_segments find_phdr
  load =
      read_elf_header &&& verify_elf_header &&& read_program_header &&& reserve_address_space
      &&& load_segments &&& find_phdr

  -- The destructor: the file is closed and the mapping of the headers undone.
  unfoldable pub destroy : ElfReader → Space → Space
  destroy r s =
      let s' = if r.fd != minus_one then k.close r.fd s else s in
      if r.phdr_mmap != 0 then k.munmap r.phdr_mmap r.phdr_size s' else s'
