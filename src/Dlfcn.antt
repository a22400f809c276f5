-- ===== src/Dlfcn.antt =====
-- The interface of emulator/dlfcn.cpp: s_dlopen, s_dlclose, s_dlsym and s_dladdr over the linker.
pub mod Names
pub mod Sessions
use and_emu.Base.{ℕ, sym, Bool, ◌&&◌, Option, none, some, List, ◌==◌, ◌!=◌, if◌then◌else◌}
use and_emu.Base.Exec.{Exec, ok, ◌>>=◌}
use and_emu.Base.Word.{add32}
use and_emu.Elf.{stb_global, sym_at, st_bind}
use and_emu.Kernel.{Kernel}
use and_emu.Lifetime.{do_dlclose, do_dlopen}
use and_emu.SoInfo.{Linker}
use and_emu.Symbol.{
  dlsym_handle_lookup, dlsym_linear_lookup, find_containing_library, dladdr_find_symbol,
}

abbrev pub rtld_default : ℕ
rtld_default = 0xffff_ffff

abbrev pub rtld_next : ℕ
rtld_next = 0xffff_fffe

-- The address of a symbol that was found, if it is global and defined.
unfoldable pub address_of : Linker → Option (ℕ × ℕ) → ℕ
address_of l none = 0
address_of l (some (found, s)) =
    let sym = sym_at l.space.memory s in
    if st_bind sym == stb_global && sym.st_shndx != 0
    then add32 sym.st_value (l.infos found).load_bias
    else 0

-- A symbol with the library that was asked for it.
abbrev pub found_in : ℕ → Option ℕ → Option (ℕ × ℕ)
found_in lib none = none
found_in lib (some s) = some (lib, s)

-- The lookup behind the library of the caller, if there is one.
unfoldable pub lookup_behind : ℕ → Linker → List ℕ → Option ℕ → Exec (Option (ℕ × ℕ))
unfolding dlsym_linear_lookup
lookup_behind fuel l name none = ok none
lookup_behind fuel l name (some si) =
    if (l.infos si).next != 0 then dlsym_linear_lookup fuel l name (l.infos si).next else ok none

-- The lookup by the handle; `ret_addr` is the return address of the caller.
unfoldable pub dlsym_lookup : ℕ → Linker → ℕ → ℕ → List ℕ → Exec (Option (ℕ × ℕ))
unfolding dlsym_linear_lookup find_containing_library lookup_behind dlsym_handle_lookup
dlsym_lookup fuel l ret_addr handle name =
    if handle == rtld_default
    then dlsym_linear_lookup fuel l name 0
    else if handle == rtld_next
    then (find_containing_library fuel l ret_addr >>= λ o. lookup_behind fuel l name o)
    else (dlsym_handle_lookup fuel l handle name >>= λ o. ok (found_in handle o))

unfoldable pub s_dlsym : ℕ → Linker → ℕ → ℕ → Option (List ℕ) → Exec ℕ
unfolding dlsym_lookup address_of
s_dlsym fuel l ret_addr handle none = ok 0
s_dlsym fuel l ret_addr handle (some name) =
    if handle == 0
    then ok 0
    else (dlsym_lookup fuel l ret_addr handle name >>= λ r. ok (address_of l r))

-- `Dl_info`; the two fields of the symbol are null where none is found.
pub record DlInfo : Type 0 where
  pub dli_fname : List ℕ
  pub dli_fbase : ℕ
  pub dli_sname : ℕ
  pub dli_saddr : ℕ

-- The symbol part of a Dl_info.
abbrev symbol_info : Linker → ℕ → Option ℕ → DlInfo
symbol_info l si none = record {
  dli_fname = (l.infos si).name;
  dli_fbase = (l.infos si).base;
  dli_sname = 0;
  dli_saddr = 0;
}
symbol_info l si (some s) = record {
  dli_fname = (l.infos si).name;
  dli_fbase = (l.infos si).base;
  dli_sname = add32 (l.infos si).strtab (sym_at l.space.memory s).st_name;
  dli_saddr = add32 (l.infos si).load_bias (sym_at l.space.memory s).st_value;
}

-- `none` is the result 0.
unfoldable pub s_dladdr : ℕ → Linker → ℕ → Exec (Option DlInfo)
unfolding find_containing_library dladdr_find_symbol
s_dladdr fuel l addr = find_containing_library fuel l addr >>= λ o. elim o [
  | none ↦ ok none
  | some si ↦ ok (some (symbol_info l si (dladdr_find_symbol l.space.memory (l.infos si) addr)))
]

module _ (k : Kernel) (native : Bool) (fuel : ℕ) where
  unfoldable pub s_dlopen :
      List (List ℕ) → List (List ℕ) → ℕ → List ℕ → ℕ → Linker → Exec (ℕ × Linker)
  unfolding do_dlopen
  s_dlopen paths preload_names depth filename flags l =
      do_dlopen k native fuel paths preload_names depth filename flags l >>= λ (result, l').
      if result == 0 then ok (0, l') else ok (result, l')

  abbrev pub s_dlclose : ℕ → ℕ → Linker → Exec Linker
  s_dlclose depth handle l = do_dlclose k native fuel depth handle l

-- `s_dlerror` knows of no error.
abbrev pub s_dlerror : ℕ
s_dlerror = 0
