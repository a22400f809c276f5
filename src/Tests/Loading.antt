-- ===== src/Tests/Loading.antt =====
-- A whole file, loaded: an ELF header and one program header, of a segment that holds both.
use Prim.Native.Nat.{bit_and}
use and_emu.Base.{ℕ, ◌≡◌, refl, arith, ◌==◌, ◌!=◌, if◌then◌else◌, All}
use and_emu.Base.Text.{codes}
use and_emu.Base.Word.{page_offset, page_end}
use and_emu.Elf.{Phdr, phdr_at, phdr_table, sizeof_ehdr, ehdr_at}
use and_emu.Kernel.{Space, done, Kernel, map_fixed, map_anonymous}
use and_emu.Memory.{Memory, load8, load16, load32}
use and_emu.Phdr.{get_load_size}
use and_emu.Reader.{
  ElfReader, new_reader, headers, Outcome, pass, stop, header_ok, check_phdr, phdr_address, load,
}
use and_emu.Reader.Accept.{Accepted, load-Accepted}
use and_emu.Reader.Check.{FileEnds}
use and_emu.Tests.Images.{with_pages}
use and_emu.Tests.Sample.{kernel}

abbrev pub elf_file : ℕ → ℕ
elf_file i =
    if i == 0
    then 0x7f
    else if i == 1
    then b'E'
    else if i == 2
    then b'L'
    else if i == 3
    then b'F'
    else if i == 4
    then 1
    else if i == 5
    then 1
    else if i == 18
    then 40
    else if i == 20
    then 1
    else if i == 28
    then 0x34
    else if i == 44
    then 1
    else 0

-- The program header, where the kernel maps it.
abbrev header_memory : Memory
header_memory a =
    if a == 0x7034
    then 1
    else if a == 0x7045
    then 1
    else if a == 0x7049
    then 1
    else if a == 0x704c
    then 5
    else 0

abbrev before : Space
before = record { memory = header_memory; kernel = 0 }

abbrev pub file_kernel : Kernel
file_kernel = record kernel {
  read = λ fd n s. record { count = n; bytes = elf_file; after = s };
  mmap = λ q s.
      if bit_and q.flags map_fixed != 0
      then done q.start (with_pages q s elf_file)
      else if bit_and q.flags map_anonymous != 0
      then done 0x20000 s
      else done 0x7000 s;
}

abbrev reader_of : Outcome → ElfReader
reader_of (pass r s) = r
reader_of (stop r s) = r

abbrev left_by : Outcome → Space
left_by (pass r s) = s
left_by (stop r s) = s

abbrev loading : Outcome
loading = load file_kernel (new_reader (codes "a.so") 3) before

loads : loading ≡ pass (reader_of loading) (left_by loading)
unfolding load and_emu.Reader.header_ok and_emu.Elf.ehdr_at and_emu.Memory.load8
    and_emu.Memory.load32 and_emu.Memory.load16 and_emu.Phdr.get_load_size
    and_emu.Base.Word.page_end and_emu.Elf.phdr_table and_emu.Elf.phdr_at
    and_emu.Base.Word.page_offset and_emu.Reader.phdr_address and_emu.Reader.check_phdr
loads = refl

ends : All (FileEnds (reader_of loading).load_bias) (headers (reader_of loading) (left_by loading))
unfolding load and_emu.Reader.header_ok and_emu.Elf.ehdr_at and_emu.Memory.load8
    and_emu.Memory.load32 and_emu.Memory.load16 and_emu.Phdr.get_load_size
    and_emu.Base.Word.page_end and_emu.Elf.phdr_table and_emu.Elf.phdr_at
    and_emu.Base.Word.page_offset and_emu.Reader.phdr_address and_emu.Reader.check_phdr
ends = ((λ l. omega arith), tt)

load-Accepted_example :
    Accepted (file_kernel.read 3 sizeof_ehdr before) (reader_of loading) (left_by loading)
load-Accepted_example =
    load-Accepted file_kernel (new_reader (codes "a.so") 3) (reader_of loading) before
      (left_by loading) loads ends
