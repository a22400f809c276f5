-- ===== src/Library.antt =====
-- Finding, loading and linking a library: open_library, load_library, soinfo_link_image and
-- find_library of emulator/linker.cpp.
pub mod Opening
pub mod Keeps
pub mod Loading
pub mod Linking
pub mod Needed
pub mod Image
pub mod Growth
use Prim.Native.Nat.{bit_and, bit_or}
use and_emu.Base.{
  ℕ, zero, suc, ◌+◌, Bool, true, false, ◌||◌, not, Option, none, some, List, [], ◌∷◌, ◌++◌, leb,
  ◌==◌, ◌!=◌, if◌then◌else◌, length,
}
use and_emu.Base.Exec.{Exec, ok, spin, ◌>>=◌}
use and_emu.Base.Word.{add32}
use and_emu.Dynamic.{parsed, refused, parse_dynamic, dynamic_ok}
use and_emu.Elf.{phdr_table, sizeof_dyn, dyn_at, dt_null, dt_needed}
use and_emu.Kernel.{Space, Attempt, done, failed, or_try, Kernel}
use and_emu.Memory.{c_string}
use and_emu.Phdr.{
  protect_segments, unprotect_segments, protect_gnu_relro, get_arm_exidx, get_dynamic_section,
}
use and_emu.Reader.{ElfReader, new_reader, pass, stop, load, destroy}
use and_emu.Register.{soinfo_alloc, soinfo_free, basename, find_loaded_library}
use and_emu.Reloc.{relocated, relocate}
use and_emu.SoInfo.{flag_linked, flag_exe, SoInfo, update, Linker}

unfoldable pub has_slash : List ℕ → Bool
has_slash [] = false
has_slash (c ∷ cs) = c == b'/' || has_slash cs

abbrev pub with_space : Linker → Space → Linker
with_space l s = record l { space = s }

-- `sizeof(buf)` of open_library_on_path.
abbrev pub path_size : ℕ
path_size = 512

module _ (k : Kernel) where
  -- `open_library_on_path`; a path is an empty string or the name of a directory.
  unfoldable pub open_library_on_path : List ℕ → List (List ℕ) → Space → Attempt ℕ
  open_library_on_path name [] s = failed s
  open_library_on_path name (p ∷ ps) s =
      or_try (if length p == 0 then k.open_file name s else failed s) (λ s'.
        if leb path_size (length p + 1 + length name)
        then open_library_on_path name ps s'
        else or_try (k.open_file name s') (λ s''. open_library_on_path name ps s''))

  unfoldable pub open_library : List (List ℕ) → List ℕ → Space → Attempt ℕ
  unfolding has_slash open_library_on_path
  open_library paths name s =
      or_try (if has_slash name then k.open_file name s else failed s)
        (λ s'. open_library_on_path name paths s')

  -- The fields that load_library takes from the reader.
  abbrev pub loaded_soinfo : ElfReader → SoInfo → SoInfo
  loaded_soinfo r si = record si {
    base = r.load_start;
    size = r.load_size;
    load_bias = r.load_bias;
    flags = 0;
    entry = 0;
    dynamic = 0;
    phnum = r.phdr_num;
    phdr = r.loaded_phdr;
  }

  -- The new library, or 0; the reader is destroyed on every way out.
  unfoldable pub load_library : List (List ℕ) → List ℕ → Linker → ℕ × Linker
  unfolding open_library new_reader load destroy basename soinfo_alloc update
  load_library paths name l = elim (open_library paths name l.space) [
    | failed s ↦ (0, with_space l s)
    | done fd s ↦ elim (load k (new_reader name fd) s) [
      | stop r s' ↦ (0, with_space l (destroy k r s'))
      | pass r s' ↦
          let (si, l') = soinfo_alloc k (basename name) (with_space l s') in
          let closed = with_space l' (destroy k r l'.space) in
          if si == 0
          then (0, closed)
          else (si, record closed { infos = update l'.infos si (loaded_soinfo r (l'.infos si)) })
    ]
  ]

abbrev pub with_info : Linker → ℕ → SoInfo → Linker
with_info l p si = record l { infos = update l.infos p si }

-- The search for a library that soinfo_link_image needs, by its name.
abbrev pub Finder : Type 0
Finder = List ℕ → Linker → Exec (ℕ × Linker)

abbrev pub prepend : ℕ → Option (List ℕ) → Option (List ℕ)
prepend x none = none
prepend x (some xs) = some (x ∷ xs)

-- The loop over DT_NEEDED, from the entry at an address: the libraries, or none if one is missing.
unfoldable pub load_needed : Finder → ℕ → ℕ → ℕ → Linker → Exec (Option (List ℕ) × Linker)
unfolding c_string
load_needed find zero si at l = spin
load_needed find (suc fuel) si at l =
    let rest = load_needed find fuel si (at + sizeof_dyn) in
    let d = dyn_at l.space.memory at in
    if d.d_tag == dt_null
    then ok (some [], l)
    else if d.d_tag == dt_needed
    then (c_string fuel l.space.memory (add32 (l.infos si).strtab d.d_val) >>= λ name.
        find name l >>= λ (lsi, l').
        if lsi == 0
        then ok (none, l')
        else (rest l' >>= λ (others, l''). ok (prepend lsi others, l'')))
    else rest l

-- The loop over gLdPreloadNames; a library that cannot be loaded is passed over.
unfoldable pub load_preloads : Finder → List (List ℕ) → Linker → Exec Linker
load_preloads find [] l = ok l
load_preloads find (name ∷ names) l = find name l >>= λ (lsi, l').
    load_preloads find names
      (if lsi != 0 then record l' { preloads = l'.preloads ++ lsi ∷ [] } else l')

-- One of the two tables of relocations, if the library has it: whether it returned 0.
unfoldable pub relocate_table : ℕ → ℕ → List ℕ → ℕ → ℕ → Linker → Exec (Linker × Bool)
unfolding relocate
relocate_table fuel si needed table count l =
    if table == 0 then ok (l, true) else relocate fuel si needed count table l

-- Changes protections, by a step that may fail.
abbrev pub protecting : (Space → Attempt (Unit {0})) → Linker → Linker × Bool
protecting step l = elim (step l.space) [
  | done u s ↦ (with_space l s, true)
  | failed s ↦ (with_space l s, false)
]

module _ (k : Kernel) (fuel : ℕ) (preload_names : List (List ℕ)) (find : Finder) where
  -- From the relocations on: whether all steps succeeded.
  unfoldable pub relocate_image : ℕ → List ℕ → Linker → Exec (Linker × Bool)
  unfolding relocate_table
  relocate_image si needed l =
      relocate_table fuel si needed (l.infos si).plt_rel (l.infos si).plt_rel_count l
      >>= λ (l', fine).
          if not fine
          then ok (l', false)
          else relocate_table fuel si needed (l'.infos si).rel (l'.infos si).rel_count l'

  -- The end of soinfo_link_image: the library is marked, and its segments are protected.
  unfoldable pub seal_image : ℕ → Linker → Linker × Bool
  unfolding protect_segments protect_gnu_relro
  seal_image si l =
      let i : SoInfo = l.infos si in
      let marked = with_info l si (record i { flags = bit_or i.flags flag_linked }) in
      let (l', fine) =
        if i.has_text_relocations
        then protecting (protect_segments k i.load_bias i.phdr i.phnum) marked
        else (marked, true) in
      if not fine
      then (l', false)
      else protecting (protect_gnu_relro k i.load_bias i.phdr i.phnum) l'

  -- From the dependencies on.
  unfoldable pub link_needed : ℕ → Linker → Exec (Linker × Bool)
  unfolding load_needed unprotect_segments relocate_image seal_image
  link_needed si l = load_needed find fuel si (l.infos si).dynamic l >>= λ (o, l'). elim o [
    | none ↦ ok (l', false)
    | some needed ↦
        let i : SoInfo = l'.infos si in
        let (l2, fine) =
          if i.has_text_relocations
          then protecting (unprotect_segments k i.load_bias i.phdr i.phnum) l'
          else (l', true) in
        if not fine
        then ok (l2, false)
        else (relocate_image si needed l2 >>= λ (l3, relocated).
            if not relocated then ok (l3, false) else ok (seal_image si l3))
  ]

  -- `soinfo_link_image` with relocation.
  unfoldable pub link_image : ℕ → Linker → Exec (Linker × Bool)
  unfolding get_dynamic_section get_arm_exidx parse_dynamic dynamic_ok load_preloads link_needed
      update
  link_image si l =
      let i = l.infos si in
      let ps = phdr_table l.space.memory i.phdr i.phnum in
      let section_ = get_dynamic_section ps i.load_bias in
      let (exidx, exidx_count) = get_arm_exidx ps i.load_bias in
      if section_.dynamic == 0
      then ok (with_info l si (record i { dynamic = 0 }), false)
      else (parse_dynamic fuel l.space.memory i.load_bias section_.dynamic
            (record i {
              dynamic = section_.dynamic;
              arm_exidx = exidx;
              arm_exidx_count = exidx_count;
            })
            0
          >>= λ p. elim p [
            | refused i' n ↦ ok (with_info l si i', false)
            | parsed i' n ↦
                let l' = with_info l si i' in
                if not (dynamic_ok i' n)
                then ok (l', false)
                else if bit_and i'.flags flag_exe != 0
                then (load_preloads find preload_names (record l' { preloads = [] }) >>= λ l''.
                    link_needed si l'')
                else link_needed si l'
          ])

module _ (k : Kernel) (fuel : ℕ) (paths preload_names : List (List ℕ)) where
  -- `find_library_internal` with a name.
  unfoldable pub find_library_internal : Finder → Finder
  unfolding find_loaded_library load_library link_image soinfo_free
  find_library_internal find name l = find_loaded_library fuel l name >>= λ o. elim o [
    | some si ↦ ok (if bit_and (l.infos si).flags flag_linked != 0 then si else 0, l)
    | none ↦
        let (si, l') = load_library k paths name l in
        if si == 0
        then ok (0, l')
        else (link_image k fuel preload_names find si l' >>= λ (l2, fine).
            if fine
            then ok (si, l2)
            else (soinfo_free fuel si
                  (with_space l2 (k.munmap (l2.infos si).base (l2.infos si).size l2.space))
                >>= λ l3. ok (0, l3)))
  ]

  abbrev pub count_reference : ℕ × Linker → ℕ × Linker
  count_reference (si, l) =
      if si == 0
      then (si, l)
      else let i : SoInfo = l.infos si in
        (si, with_info l si (record i { ref_count = add32 i.ref_count 1 }))

  -- `find_library`, with `depth` levels of dependencies.
  unfoldable pub find_library : ℕ → Finder
  unfolding find_library_internal
  find_library zero name l = spin
  find_library (suc depth) name l =
      find_library_internal (find_library depth) name l >>= λ r. ok (count_reference r)
