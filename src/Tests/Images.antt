-- ===== src/Tests/Images.antt =====
-- Segments, program headers and relocations.
use Prim.Native.Nat.{bit_and}
use and_emu.Base.{
  ℕ, ◌+◌, ◌-◌, ◌%◌, ◌^◌, ◌≤◌, ◌<◌, ◌≡◌, refl, sym, ap, ◌≢◌, ◌⊎◌, inl, inr, [], ◌∷◌, arith, leb,
  ◌==◌, ◌!=◌, if◌then◌else◌, Bool-cases, All, Any,
}
use and_emu.Base.Text.{codes}
use and_emu.Base.Word.{page_size, page_start, page_end}
use and_emu.Elf.{pt_load, pf_w, Phdr, phdr_at, phdr_table}
use and_emu.Kernel.{Space, done, failed, space_of, Mapping, Kernel, map_fixed, map_anonymous}
use and_emu.Memory.{Memory, load32}
use and_emu.Phdr.{get_load_size, set_load_prot, protect_gnu_relro}
use and_emu.Phdr.LoadSize.{Fits, PagesWithin, get_load_size-PagesWithin}
use and_emu.Phdr.Protect.{
  issue, load_requests, relro_requests, set_load_prot-issue, StaysBelow, IsProtected,
  protect_gnu_relro-IsProtected,
}
use and_emu.Reader.{ElfReader, new_reader, headers, pass, reserve_address_space, load_segment}
use and_emu.Reader.Contents.{load_segment-contents}
use and_emu.Reader.Reserve.{PagesReserved, Reserves, reserve_address_space-PagesReserved}
use and_emu.Reader.Segment.{in_pages, MapsFixed, IsMappable}
use and_emu.Reader.TableAddress.{TableAddress}
use and_emu.Tests.Sample.{space, kernel}

-- A writable segment of 0x20 bytes of which the file has 0x10, at offset 0x1000.
abbrev pub data_segment : Phdr
data_segment = record {
  p_type = 1;
  p_offset = 0x1000;
  p_vaddr = 0x2000;
  p_paddr = 0;
  p_filesz = 0x10;
  p_memsz = 0x20;
  p_flags = 6;
  p_align = 0x1000;
}

abbrev pub file : ℕ → ℕ
file i = i % 251

abbrev pub with_pages : Mapping → Space → (ℕ → ℕ) → Space
with_pages q s content = record s {
  memory =
      λ p. if in_pages q.start q.size p then content (q.offset + (p - q.start)) else s.memory p;
}

abbrev with_zeros : Mapping → Space → Space
with_zeros q s = record s { memory = λ p. if in_pages q.start q.size p then 0 else s.memory p }

-- A kernel whose fixed mappings put the file's content, or zeros, in place, and whose others are at
-- 0x10000 if there is room.
abbrev mapping_kernel : Kernel
mapping_kernel = record kernel {
  mmap = λ q s.
      if bit_and q.flags map_fixed != 0
      then done q.start
          (if bit_and q.flags map_anonymous != 0 then with_zeros q s else with_pages q s file)
      else if leb (0x11000 + q.size) (2 ^ 32)
      then done 0x10000 s
      else failed s;
}

maps_fixed : MapsFixed mapping_kernel 3 file
maps_fixed = record {
  file_map = λ q s s' a p fd flags size room run.
      let run' : done q.start (with_pages q s file) ≡ done a s' = rw flags at run in
      let same : with_pages q s file ≡ s' = cc in ap (λ (t : Space). t.memory p) (sym same);
  zero_map = λ q s s' a p flags size room run.
      let run' : done q.start (with_zeros q s) ≡ done a s' = rw flags at run in
      let same : with_zeros q s ≡ s' = cc in ap (λ (t : Space). t.memory p) (sym same);
}

pub mappable : IsMappable data_segment 0x10000
mappable = record {
  loadable = refl;
  congruent = omega arith;
  room = omega arith;
  file_room = omega arith;
  within = omega arith;
}

segment_loads :
    load_segment mapping_kernel 3 0x10000 data_segment space
    ≡ done tt (space_of (load_segment mapping_kernel 3 0x10000 data_segment space))
unfolding load_segment page_start page_end
segment_loads = refl

load_segment-contents_example :
    let s' = space_of (load_segment mapping_kernel 3 0x10000 data_segment space) in
    ((i : ℕ) → i < 0x10 → s'.memory (0x12000 + i) ≡ file (0x1000 + i))
    × ((i : ℕ) → bit_and 6 pf_w ≢ 0 → 0x10 ≤ i → i < 0x20 → s'.memory (0x12000 + i) ≡ 0)
    × ((a : ℕ)
        → a < 2 ^ 32
        → (a < page_start 0x12000) ⊎ (page_end 0x12020 ≤ a)
        → s'.memory a ≡ space.memory a)
load_segment-contents_example =
    load_segment-contents mapping_kernel 3 file maps_fixed 0x10000 data_segment mappable space
      (space_of (load_segment mapping_kernel 3 0x10000 data_segment space)) tt segment_loads

reserves : Reserves mapping_kernel
reserves q s s' a flags run = elim (Bool-cases (leb (0x11000 + q.size) (2 ^ 32))) [
  | inl fits ↦
      let run' : done 0x10000 s ≡ done a s' = rw (flags, fits) at run in
      let at : 0x10000 ≡ a = cc in record { aligned = omega arith; room = ground arith }
  | inr large ↦ let run' = rw (flags, large) at run in cc
]

-- One header at 0x7000: a loadable, executable segment of 0x100 bytes at address 0. The ELF header at
-- 0x20000 says that the headers are 0x34 bytes behind it.
abbrev pub image : Memory
image a =
    if a == 0x7000
    then 1
    else if a == 0x7011
    then 1
    else if a == 0x7015
    then 1
    else if a == 0x7018
    then 5
    else if a == 0x2001c
    then 0x34
    else 0

abbrev pub image_space : Space
image_space = record { memory = image; kernel = 0 }

abbrev pub reader : ElfReader
reader = record (new_reader (codes "a.so") 3) {
  phdr_num = 1;
  phdr_table_at = 0x7000;
  load_bias = 0x20000;
}

abbrev code_segment : Phdr
code_segment = record {
  p_type = 1;
  p_offset = 0;
  p_vaddr = 0;
  p_paddr = 0;
  p_filesz = 0x100;
  p_memsz = 0x100;
  p_flags = 5;
  p_align = 0;
}

reserved :
    reserve_address_space mapping_kernel reader image_space
    ≡ pass
        (record reader { load_start = 0x10000; load_size = 0x1000; load_bias = 0x10000 })
        image_space
unfolding reserve_address_space get_load_size page_end phdr_table and_emu.Elf.phdr_at
    and_emu.Memory.load32
reserved = refl

headers_fit : All Fits (headers reader image_space)
unfolding phdr_table and_emu.Elf.phdr_at and_emu.Memory.load32
headers_fit = ((λ l. omega arith), tt)

reserve_address_space-PagesReserved_example :
    (0 < 0x1000) × All (PagesReserved 0x10000 0x1000 0x10000) (headers reader image_space)
reserve_address_space-PagesReserved_example =
    reserve_address_space-PagesReserved mapping_kernel reader
      (record reader { load_start = 0x10000; load_size = 0x1000; load_bias = 0x10000 }) image_space
      image_space reserves headers_fit reserved

get_load_size-PagesWithin_example :
    let r = get_load_size (code_segment ∷ []) in
    All (PagesWithin r.out_min_vaddr r.out_max_vaddr) (code_segment ∷ [])
    × (r.out_min_vaddr % page_size ≡ 0)
    × (r.out_max_vaddr % page_size ≡ 0)
    × (Any (λ p. p.p_type ≡ pt_load) (code_segment ∷ [])
        → r.out_min_vaddr + r.size ≡ r.out_max_vaddr)
get_load_size-PagesWithin_example =
    get_load_size-PagesWithin (code_segment ∷ []) ((λ l. omega arith), tt)

set_load_prot-issue_example :
    set_load_prot kernel 0x20000 2 0x7000 1 image_space
    ≡ issue kernel (load_requests 0x20000 2 (phdr_table image 0x7000 1)) image_space
set_load_prot-issue_example =
    set_load_prot-issue kernel (λ a n p s. refl) 0x20000 2 0x7000 1 image_space

-- A loadable segment, and a PT_GNU_RELRO of 0x1800 bytes at 0x2345.
abbrev relro_image : Memory
relro_image a =
    if a == 0x7000
    then 1
    else if a == 0x7020
    then 0x52
    else if a == 0x7021
    then 0xe5
    else if a == 0x7022
    then 0x74
    else if a == 0x7023
    then 0x64
    else if a == 0x7028
    then 0x45
    else if a == 0x7029
    then 0x23
    else if a == 0x7035
    then 0x18
    else 0

abbrev relro_space : Space
relro_space = record { memory = relro_image; kernel = 0 }

one_request :
    relro_requests 0x20000 1 (phdr_table relro_image 0x7000 2)
    ≡ record { first_page = 0x2_2000; size = 0x2000; prot = 1 } ∷ []
unfolding relro_requests phdr_table and_emu.Elf.phdr_at and_emu.Memory.load32 page_start page_end
one_request = refl

stay_below : All (StaysBelow 0x20000) (phdr_table relro_image 0x7000 2)
unfolding phdr_table and_emu.Elf.phdr_at and_emu.Memory.load32
stay_below = (omega arith, (omega arith, tt))

protect_gnu_relro-IsProtected_example :
    (protect_gnu_relro kernel 0x20000 0x7000 2 relro_space
      ≡ issue kernel (relro_requests 0x20000 1 (phdr_table relro_image 0x7000 2)) relro_space)
    × All
        (IsProtected 0x20000 1 (relro_requests 0x20000 1 (phdr_table relro_image 0x7000 2)))
        (phdr_table relro_image 0x7000 2)
protect_gnu_relro-IsProtected_example =
    protect_gnu_relro-IsProtected kernel (λ a n p s. refl) 0x20000 0x7000 2 relro_space stay_below
