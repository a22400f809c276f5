-- ===== src/Libdl.antt =====
-- The library libdl.so, which emulator/dlfcn.cpp fakes with static tables: the names and addresses
-- of the linker's own functions, and the soinfo that every process starts with.
pub mod Exports
use and_emu.Base.{ℕ, ◌-◌, ◌*◌, true, List, [], ◌∷◌, ◌++◌, ◌==◌, if◌then◌else◌, length}
use and_emu.Base.Text.{codes}
use and_emu.Elf.{stb_global, Sym}
use and_emu.Kernel.{Space}
use and_emu.SoInfo.{flag_linked, SoInfo, zero_soinfo, Linker}

-- Where the compiler and the system put the tables and the functions.
pub record Tables : Type 0 where
  pub strings : ℕ
  pub symbols : ℕ
  pub buckets : ℕ
  pub chains : ℕ
  pub dlopen : ℕ
  pub dlclose : ℕ
  pub dlsym : ℕ
  pub dlerror : ℕ
  pub dladdr : ℕ
  pub cxa_begin_cleanup : ℕ
  pub cxa_call_unexpected : ℕ
  pub dl_unwind_find_exidx : ℕ

-- `ANDROID_LIBDL_STRTAB`, with the NUL that ends a literal.
abbrev pub libdl_strtab : List ℕ
libdl_strtab =
    codes "dlopen"
    ++ (0
        ∷ (codes "dlclose"
            ++ (0
                ∷ (codes "dlsym"
                    ++ (0
                        ∷ (codes "dlerror"
                            ++ (0
                                ∷ (codes "dladdr"
                                    ++ (0
                                        ∷ (codes "__cxa_begin_cleanup"
                                            ++ (0
                                                ∷ (codes "__cxa_call_unexpected"
                                                    ++ (0
                                                        ∷ (codes "dl_unwind_find_exidx"
                                                            ++ 0 ∷ 0 ∷ []))))))))))))))

-- `ELF32_SYM_INITIALIZER`.
abbrev pub sym_initializer : ℕ → ℕ → ℕ → Sym
sym_initializer name_offset value shndx = record {
  st_name = name_offset;
  st_value = value;
  st_size = 0;
  st_info = if shndx == 0 then 0 else stb_global * 16;
  st_other = 0;
  st_shndx = shndx;
}

-- `gLibDlSymtab`.
abbrev pub libdl_symtab : Tables → List Sym
libdl_symtab t =
    sym_initializer (length libdl_strtab - 1) 0 0
    ∷ sym_initializer 0 t.dlopen 1
    ∷ sym_initializer 7 t.dlclose 1
    ∷ sym_initializer 15 t.dlsym 1
    ∷ sym_initializer 21 t.dlerror 1
    ∷ sym_initializer 29 t.dladdr 1
    ∷ sym_initializer 36 t.cxa_begin_cleanup 1
    ∷ sym_initializer 56 t.cxa_call_unexpected 1
    ∷ sym_initializer 78 t.dl_unwind_find_exidx 1
    ∷ []

-- `gLibDlBuckets` and `gLibDlChains`.
abbrev pub libdl_buckets : List ℕ
libdl_buckets = 1 ∷ []

abbrev pub libdl_chains : List ℕ
libdl_chains = 0 ∷ 2 ∷ 3 ∷ 4 ∷ 5 ∷ 6 ∷ 7 ∷ 8 ∷ 0 ∷ 0 ∷ 0 ∷ 0 ∷ []

-- `libdl_info`.
abbrev pub libdl_info : Tables → SoInfo
libdl_info t = record zero_soinfo {
  name = codes "libdl.so";
  flags = flag_linked;
  strtab = t.strings;
  symtab = t.symbols;
  nbucket = 1;
  nchain = 10;
  bucket = t.buckets;
  chain = t.chains;
  ref_count = 0xff_ffff;
  has_dt_symbolic = true;
}

-- The linker as the program starts: libdl alone, and no pool.
abbrev pub initial_linker : Tables → ℕ → Space → Linker
initial_linker t at s = record {
  space = s;
  infos = λ p. if p == at then libdl_info t else zero_soinfo;
  solist = at;
  sonext = at;
  somain = 0;
  free_list = 0;
  pools = [];
  preloads = [];
}
