-- ===== src/Elf.antt =====
-- The structures of emulator/elf.h and the numbers that the linker tests, with the layout in which
-- the 32-bit little-endian structures lie in memory.
use and_emu.Base.{ℕ, zero, suc, ◌+◌, ◌/◌, ◌%◌, List, [], ◌∷◌}
use and_emu.Memory.{Memory, load8, load16, load32}

-- p_type
abbrev pub pt_load : ℕ
pt_load = 1

abbrev pub pt_dynamic : ℕ
pt_dynamic = 2

abbrev pub pt_phdr : ℕ
pt_phdr = 6

abbrev pub pt_gnu_relro : ℕ
pt_gnu_relro = 0x6474_e552

abbrev pub pt_arm_exidx : ℕ
pt_arm_exidx = 0x7000_0001

-- p_flags
abbrev pub pf_x : ℕ
pf_x = 1

abbrev pub pf_w : ℕ
pf_w = 2

abbrev pub pf_r : ℕ
pf_r = 4

-- st_info and st_shndx
abbrev pub stb_global : ℕ
stb_global = 1

abbrev pub stb_weak : ℕ
stb_weak = 2

abbrev pub shn_undef : ℕ
shn_undef = 0

pub record Phdr : Type 0 where
  pub p_type : ℕ
  pub p_offset : ℕ
  pub p_vaddr : ℕ
  pub p_paddr : ℕ
  pub p_filesz : ℕ
  pub p_memsz : ℕ
  pub p_flags : ℕ
  pub p_align : ℕ

abbrev pub sizeof_phdr : ℕ
sizeof_phdr = 32

unfoldable pub phdr_at : Memory → ℕ → Phdr
phdr_at m a = record {
  p_type = load32 m a;
  p_offset = load32 m (a + 4);
  p_vaddr = load32 m (a + 8);
  p_paddr = load32 m (a + 12);
  p_filesz = load32 m (a + 16);
  p_memsz = load32 m (a + 20);
  p_flags = load32 m (a + 24);
  p_align = load32 m (a + 28);
}

-- The array of `count` program headers at an address.
unfoldable pub phdr_table : Memory → ℕ → ℕ → List Phdr
phdr_table m a zero = []
phdr_table m a (suc count) = phdr_at m a ∷ phdr_table m (a + sizeof_phdr) count

pub record Sym : Type 0 where
  pub st_name : ℕ
  pub st_value : ℕ
  pub st_size : ℕ
  pub st_info : ℕ
  pub st_other : ℕ
  pub st_shndx : ℕ

abbrev pub sizeof_sym : ℕ
sizeof_sym = 16

unfoldable pub sym_at : Memory → ℕ → Sym
sym_at m a = record {
  st_name = load32 m a;
  st_value = load32 m (a + 4);
  st_size = load32 m (a + 8);
  st_info = load8 m (a + 12);
  st_other = load8 m (a + 13);
  st_shndx = load16 m (a + 14);
}

-- `ELF32_ST_BIND`.
abbrev pub st_bind : Sym → ℕ
st_bind s = s.st_info / 16

pub record Rel : Type 0 where
  pub r_offset : ℕ
  pub r_info : ℕ

abbrev pub sizeof_rel : ℕ
sizeof_rel = 8

unfoldable pub rel_at : Memory → ℕ → Rel
rel_at m a = record { r_offset = load32 m a; r_info = load32 m (a + 4) }

-- `ELF32_R_SYM` and `ELF32_R_TYPE`.
abbrev pub r_sym : Rel → ℕ
r_sym r = r.r_info / 256

abbrev pub r_type : Rel → ℕ
r_type r = r.r_info % 256

-- `d_un` is a union of two words: `d_val` is read as the word that `d_ptr` is.
pub record Dyn : Type 0 where
  pub d_tag : ℕ
  pub d_val : ℕ

abbrev pub sizeof_dyn : ℕ
sizeof_dyn = 8

unfoldable pub dyn_at : Memory → ℕ → Dyn
dyn_at m a = record { d_tag = load32 m a; d_val = load32 m (a + 4) }

-- The file header: the identification bytes that are tested, and the fields that are read.
pub record Ehdr : Type 0 where
  pub e_mag0 : ℕ
  pub e_mag1 : ℕ
  pub e_mag2 : ℕ
  pub e_mag3 : ℕ
  pub e_class : ℕ
  pub e_data : ℕ
  pub e_type : ℕ
  pub e_machine : ℕ
  pub e_version : ℕ
  pub e_entry : ℕ
  pub e_phoff : ℕ
  pub e_phnum : ℕ

abbrev pub sizeof_ehdr : ℕ
sizeof_ehdr = 52

unfoldable pub ehdr_at : Memory → ℕ → Ehdr
ehdr_at m a = record {
  e_mag0 = load8 m a;
  e_mag1 = load8 m (a + 1);
  e_mag2 = load8 m (a + 2);
  e_mag3 = load8 m (a + 3);
  e_class = load8 m (a + 4);
  e_data = load8 m (a + 5);
  e_type = load16 m (a + 16);
  e_machine = load16 m (a + 18);
  e_version = load32 m (a + 20);
  e_entry = load32 m (a + 24);
  e_phoff = load32 m (a + 28);
  e_phnum = load16 m (a + 44);
}

-- The tags of the dynamic section.
abbrev pub dt_null : ℕ
dt_null = 0

abbrev pub dt_needed : ℕ
dt_needed = 1

abbrev pub dt_pltrelsz : ℕ
dt_pltrelsz = 2

abbrev pub dt_pltgot : ℕ
dt_pltgot = 3

abbrev pub dt_hash : ℕ
dt_hash = 4

abbrev pub dt_strtab : ℕ
dt_strtab = 5

abbrev pub dt_symtab : ℕ
dt_symtab = 6

abbrev pub dt_rela : ℕ
dt_rela = 7

abbrev pub dt_init : ℕ
dt_init = 12

abbrev pub dt_fini : ℕ
dt_fini = 13

abbrev pub dt_symbolic : ℕ
dt_symbolic = 16

abbrev pub dt_rel : ℕ
dt_rel = 17

abbrev pub dt_relsz : ℕ
dt_relsz = 18

abbrev pub dt_pltrel : ℕ
dt_pltrel = 20

abbrev pub dt_textrel : ℕ
dt_textrel = 22

abbrev pub dt_jmprel : ℕ
dt_jmprel = 23

abbrev pub dt_init_array : ℕ
dt_init_array = 25

abbrev pub dt_fini_array : ℕ
dt_fini_array = 26

abbrev pub dt_init_arraysz : ℕ
dt_init_arraysz = 27

abbrev pub dt_fini_arraysz : ℕ
dt_fini_arraysz = 28

abbrev pub dt_preinit_array : ℕ
dt_preinit_array = 32

abbrev pub dt_preinit_arraysz : ℕ
dt_preinit_arraysz = 33
