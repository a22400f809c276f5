-- ===== src/Lifetime.antt =====
-- Opening and closing libraries: the constructors and destructors, soinfo_unload, do_dlopen and
-- do_dlclose of emulator/linker.cpp.
pub mod Order
pub mod Respects
pub mod Constructed
pub mod Reopen
pub mod Missing
pub mod Kept
pub mod Opened
pub mod Closed
pub mod Fresh
pub mod Calls
pub mod Alike
pub mod Returns
use Prim.Native.Nat.{bit_and, bit_or}
use and_emu.Base.{
  ℕ, zero, suc, ◌+◌, ◌-◌, ◌*◌, Bool, true, false, ◌||◌, none, some, List, [], ◌∷◌, ◌==◌, ◌!=◌,
  if◌then◌else◌,
}
use and_emu.Base.Exec.{Exec, ok, fault, spin, ◌>>=◌}
use and_emu.Base.Text.{codes}
use and_emu.Base.Word.{add32, sub32, minus_one}
use and_emu.Elf.{Dyn, sizeof_dyn, dyn_at, dt_null, dt_needed}
use and_emu.Kernel.{Kernel, prot_read, prot_write}
use and_emu.Library.{with_space, with_info, find_library}
use and_emu.Memory.{load32, c_string}
use and_emu.Register.{set_pool_protection, soinfo_free, same_name, find_loaded_library}
use and_emu.SoInfo.{update, Linker}

-- The libraries whose constructors do_dlopen leaves out, and whose destructors soinfo_unload leaves
-- out.
abbrev pub opened_quietly : List (List ℕ)
opened_quietly =
    codes "libc.so"
    ∷ codes "libstdc++.so"
    ∷ codes "libz.so"
    ∷ codes "libm.so"
    ∷ codes "liblog.so"
    ∷ []

abbrev pub closed_quietly : List (List ℕ)
closed_quietly =
    codes "libc.so"
    ∷ codes "libstdc++.so"
    ∷ codes "libm.so"
    ∷ codes "libz.so"
    ∷ codes "libdl.so"
    ∷ codes "liblog.so"
    ∷ []

unfoldable pub is_one_of : List (List ℕ) → List ℕ → Bool
unfolding same_name
is_one_of [] name = false
is_one_of (n ∷ ns) name = same_name name n || is_one_of ns name

-- `native` says whether the program is built for ARM, where alone it calls the functions of a library.
module _ (k : Kernel) (native : Bool) where
  abbrev pub writable : Linker → Exec Linker
  writable l = set_pool_protection k (bit_or prot_read prot_write) l.pools l.space >>= λ s.
      ok (with_space l s)

  abbrev pub read_only : Linker → Exec Linker
  read_only l = set_pool_protection k prot_read l.pools l.space >>= λ s. ok (with_space l s)

  unfoldable pub call_function : ℕ → Linker → Exec Linker
  unfolding set_pool_protection
  call_function f l =
      if f == 0 || f == minus_one
      then ok l
      else writable (with_space l (if native then k.call f l.space else l.space))

  -- `CallArray` forwards: `count` functions from entry `i`.
  unfoldable pub call_forward : ℕ → ℕ → ℕ → Linker → Exec Linker
  unfolding call_function
  call_forward functions i zero l = ok l
  call_forward functions i (suc count) l =
      call_function (load32 l.space.memory (functions + 4 * i)) l >>= λ l'.
      call_forward functions (suc i) count l'

  -- `CallArray` in reverse.
  unfoldable pub call_reverse : ℕ → ℕ → Linker → Exec Linker
  unfolding call_function
  call_reverse functions zero l = ok l
  call_reverse functions (suc count) l =
      call_function (load32 l.space.memory (functions + 4 * count)) l >>= λ l'.
      call_reverse functions count l'

  unfoldable pub call_array : ℕ → ℕ → Bool → Linker → Exec Linker
  unfolding call_forward call_reverse
  call_array functions count backwards l =
      if functions == 0
      then ok l
      else if backwards
      then call_reverse functions count l
      else call_forward functions 0 count l

  unfoldable pub call_destructors : ℕ → Linker → Exec Linker
  unfolding call_array
  call_destructors si l =
      let i = l.infos si in
      call_array i.fini_array i.fini_array_count true l >>= λ l'.
      call_function (l'.infos si).fini_func l'

  -- `CallPreInitConstructors`, which nothing calls.
  unfoldable pub call_preinit_constructors : ℕ → Linker → Exec Linker
  unfolding call_array
  call_preinit_constructors si l =
      call_array (l.infos si).preinit_array (l.infos si).preinit_array_count false l

  -- The end of CallConstructors: DT_INIT, then DT_INIT_ARRAY.
  unfoldable pub call_init : ℕ → Linker → Exec Linker
  unfolding call_array
  call_init si l = call_function (l.infos si).init_func l >>= λ l'.
      call_array (l'.infos si).init_array (l'.infos si).init_array_count false l'

module _ (k : Kernel) (native : Bool) (fuel : ℕ) where
  -- Does something with the library that a DT_NEEDED entry names; one that is not loaded is a null
  -- pointer, which crashes.
  unfoldable pub act_on_needed : (ℕ → Linker → Exec Linker) → ℕ → Dyn → Linker → Exec Linker
  unfolding find_loaded_library c_string
  act_on_needed act si d l =
      c_string fuel l.space.memory (add32 (l.infos si).strtab d.d_val) >>= λ name.
      find_loaded_library fuel l name >>= λ o. elim o [ none ↦ fault | some lib ↦ act lib l ]

  -- A loop over DT_NEEDED, from the entry at an address, that does something with each library.
  unfoldable pub each_needed : (ℕ → Linker → Exec Linker) → ℕ → ℕ → ℕ → Linker → Exec Linker
  unfolding act_on_needed
  each_needed act zero si at l = spin
  each_needed act (suc n) si at l =
      let rest = each_needed act n si (at + sizeof_dyn) in
      let d = dyn_at l.space.memory at in
      if d.d_tag == dt_null
      then ok l
      else if d.d_tag == dt_needed
      then (act_on_needed act si d l >>= λ l'. rest l')
      else rest l

  -- `CallConstructors`, with `depth` levels of dependencies.
  unfoldable pub call_constructors : ℕ → ℕ → Linker → Exec Linker
  unfolding each_needed call_init update
  call_constructors zero si l = spin
  call_constructors (suc depth) si l =
      let i = l.infos si in
      if i.constructors_called
      then ok l
      else let marked = with_info l si (record i { constructors_called = true }) in
        (if i.dynamic != 0
          then each_needed (call_constructors depth) fuel si i.dynamic marked
          else ok marked)
        >>= λ l'. call_init k native si l'

  -- The last reference is gone: destructors, dependencies, memory and entry.
  unfoldable pub unload_last : (ℕ → Linker → Exec Linker) → ℕ → Linker → Exec Linker
  unfolding is_one_of call_destructors each_needed soinfo_free update
  unload_last unload si l =
      (if is_one_of closed_quietly (l.infos si).name then ok l else call_destructors k native si l)
      >>= λ l'.
          (if (l'.infos si).dynamic == 0
            then fault
            else each_needed unload fuel si (l'.infos si).dynamic l')
          >>= λ l2.
              soinfo_free fuel si
                (with_space l2 (k.munmap (l2.infos si).base (l2.infos si).size l2.space))
              >>= λ l3. ok (with_info l3 si (record (l3.infos si) { ref_count = 0 }))

  -- `soinfo_unload`, with `depth` levels of dependencies.
  unfoldable pub soinfo_unload : ℕ → ℕ → Linker → Exec Linker
  unfolding unload_last
  soinfo_unload zero si l = spin
  soinfo_unload (suc depth) si l =
      let i = l.infos si in
      if i.ref_count == 1
      then unload_last (soinfo_unload depth) si l
      else ok (with_info l si (record i { ref_count = sub32 i.ref_count 1 }))

  -- `do_dlclose`, of a library.
  unfoldable pub do_dlclose : ℕ → ℕ → Linker → Exec Linker
  unfolding soinfo_unload
  do_dlclose depth si l =
      if si == 0
      then fault
      else (writable k native l >>= λ l'. soinfo_unload depth si l' >>= λ l2. read_only k native l2)

  -- The flags that do_dlopen accepts: RTLD_NOW, RTLD_LAZY, RTLD_LOCAL and RTLD_GLOBAL.
  abbrev pub rtld_known : ℕ
  rtld_known = 3

  -- `do_dlopen`, of a name: the library, or 0.
  unfoldable pub do_dlopen :
      List (List ℕ) → List (List ℕ) → ℕ → List ℕ → ℕ → Linker → Exec (ℕ × Linker)
  unfolding find_library call_constructors is_one_of
  do_dlopen paths preload_names depth name flags l =
      if bit_and flags (minus_one - rtld_known) != 0
      then ok (0, l)
      else (writable k native l >>= λ l'.
          find_library k fuel paths preload_names depth name l' >>= λ (si, l2).
          (if si == 0 || is_one_of opened_quietly (l2.infos si).name
            then ok l2
            else call_constructors depth si l2)
          >>= λ l3. read_only k native l3 >>= λ l4. ok (si, l4))
