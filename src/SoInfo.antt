-- ===== src/SoInfo.antt =====
-- `struct soinfo` of emulator/linker.h, one for each loaded library, and the global variables of
-- emulator/linker.cpp. A pointer to a library is the address of its soinfo, and 0 is NULL.
use and_emu.Base.{ℕ, Bool, false, List, [], ◌==◌, if◌then◌else◌}
use and_emu.Kernel.{Space}

abbrev pub flag_linked : ℕ
flag_linked = 1

abbrev pub flag_exe : ℕ
flag_exe = 4

abbrev pub flag_linker : ℕ
flag_linker = 16

abbrev pub soinfo_name_len : ℕ
soinfo_name_len = 128

-- The three `unused` fields and `link_map`, which no code of the program reads, are left out.
pub record SoInfo : Type 0 where
  pub name : List ℕ
  pub phdr : ℕ
  pub phnum : ℕ
  pub entry : ℕ
  pub base : ℕ
  pub size : ℕ
  pub dynamic : ℕ
  pub next : ℕ
  pub flags : ℕ
  pub strtab : ℕ
  pub symtab : ℕ
  pub nbucket : ℕ
  pub nchain : ℕ
  pub bucket : ℕ
  pub chain : ℕ
  pub plt_got : ℕ
  pub plt_rel : ℕ
  pub plt_rel_count : ℕ
  pub rel : ℕ
  pub rel_count : ℕ
  pub preinit_array : ℕ
  pub preinit_array_count : ℕ
  pub init_array : ℕ
  pub init_array_count : ℕ
  pub fini_array : ℕ
  pub fini_array_count : ℕ
  pub init_func : ℕ
  pub fini_func : ℕ
  pub arm_exidx : ℕ
  pub arm_exidx_count : ℕ
  pub ref_count : ℕ
  pub constructors_called : Bool
  pub load_bias : ℕ
  pub has_text_relocations : Bool
  pub has_dt_symbolic : Bool

-- What `memset(si, 0, sizeof(soinfo))` leaves.
abbrev pub zero_soinfo : SoInfo
zero_soinfo = record {
  name = [];
  phdr = 0;
  phnum = 0;
  entry = 0;
  base = 0;
  size = 0;
  dynamic = 0;
  next = 0;
  flags = 0;
  strtab = 0;
  symtab = 0;
  nbucket = 0;
  nchain = 0;
  bucket = 0;
  chain = 0;
  plt_got = 0;
  plt_rel = 0;
  plt_rel_count = 0;
  rel = 0;
  rel_count = 0;
  preinit_array = 0;
  preinit_array_count = 0;
  init_array = 0;
  init_array_count = 0;
  fini_array = 0;
  fini_array_count = 0;
  init_func = 0;
  fini_func = 0;
  arm_exidx = 0;
  arm_exidx_count = 0;
  ref_count = 0;
  constructors_called = false;
  load_bias = 0;
  has_text_relocations = false;
  has_dt_symbolic = false;
}

-- The soinfo objects by their addresses. They lie in pages of their own, apart from `memory`.
abbrev pub Infos : Type 0
Infos = ℕ → SoInfo

unfoldable pub update : Infos → ℕ → SoInfo → Infos
update infos p si q = if q == p then si else infos q

pub record Linker : Type 0 where
  pub space : Space
  pub infos : Infos
  -- The head of the list of libraries, which is `&libdl_info` for good.
  pub solist : ℕ
  pub sonext : ℕ
  pub somain : ℕ
  pub free_list : ℕ
  -- `gSoInfoPools`, newest first.
  pub pools : List ℕ
  -- `gLdPreloads` up to its null entry.
  pub preloads : List ℕ
