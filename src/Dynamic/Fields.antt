-- ===== src/Dynamic/Fields.antt =====
-- What the dynamic section leaves in the soinfo: the last entry of each tag.
use and_emu.Base.{
  ℕ, zero, suc, ◌+◌, ◌*◌, ◌/◌, ◌<◌, ◌≡◌, refl, ap, ◌∙◌, ◌≢◌, true, false, List, [], ◌∷◌, arith,
  ◌==◌, if◌then◌else◌, length, All,
}
use and_emu.Base.Exec.{ok}
use and_emu.Base.Word.{add32}
use and_emu.Dynamic.{parsed, parse_entry, parse_dynamic}
use and_emu.Dynamic.Entries.{
  soinfo_of, entry-strtab, entry-symtab, entry-nbucket, entry-nchain, entry-bucket, entry-chain,
  entry-plt_rel, entry-plt_rel_count, entry-rel, entry-rel_count, entry-init_func, entry-fini_func,
  entry-init_array, entry-init_array_count, entry-fini_array, entry-fini_array_count,
  entry-has_text_relocations, entry-has_dt_symbolic, entry-plt_got, entry-preinit_array,
  entry-preinit_array_count, entry_keeps-name, entry_keeps-next, entry_keeps-base, entry_keeps-size,
  entry_keeps-load_bias, entry_keeps-phdr, entry_keeps-phnum, entry_keeps-flags,
  entry_keeps-ref_count, entry_keeps-entry, entry_keeps-dynamic, entry_keeps-arm_exidx,
  entry_keeps-arm_exidx_count, entry_keeps-constructors_called,
}
use and_emu.Elf.{
  sizeof_rel, Dyn, sizeof_dyn, dyn_at, dt_null, dt_needed, dt_pltrelsz, dt_pltgot, dt_hash,
  dt_strtab, dt_symtab, dt_rela, dt_init, dt_fini, dt_symbolic, dt_rel, dt_relsz, dt_pltrel,
  dt_textrel, dt_jmprel, dt_init_array, dt_fini_array, dt_init_arraysz, dt_fini_arraysz,
  dt_preinit_array, dt_preinit_arraysz,
}
use and_emu.Memory.{Memory, load32}
use and_emu.SoInfo.{SoInfo}

-- The table at an address: `ds`, then an entry with DT_NULL.
abbrev pub IsTable : Memory → ℕ → List Dyn → Type 0
IsTable m at [] = (dyn_at m at).d_tag ≡ dt_null
IsTable m at (d ∷ ds) = (dyn_at m at ≡ d) × (d.d_tag ≢ dt_null) × IsTable m (at + sizeof_dyn) ds

-- No entry that the loader refuses.
abbrev pub Supported : Dyn → Type 0
Supported d = (d.d_tag ≢ dt_rela) × (d.d_tag ≡ dt_pltrel → d.d_val ≡ dt_rel)

-- The value of the last entry with the tag, or `old`.
abbrev pub last_value {ℓ} : {A : Type ℓ} → ℕ → (ℕ → A) → A → List Dyn → A
last_value tag f old [] = old
last_value tag f old (d ∷ ds) = last_value tag f (if d.d_tag == tag then f d.d_val else old) ds

abbrev pub count_tag : ℕ → ℕ → List Dyn → ℕ
count_tag tag n [] = n
count_tag tag n (d ∷ ds) = count_tag tag (if d.d_tag == tag then add32 n 1 else n) ds

entry-Supported :
    (m : Memory) (base : ℕ) (d : Dyn) (si : SoInfo) (n : ℕ)
    → Supported d
    → parse_entry m base d si n
      ≡ parsed
          (soinfo_of (parse_entry m base d si n))
          (if d.d_tag == dt_needed then add32 n 1 else n)
unfolding parse_entry
entry-Supported m base d si n fine = ground arith

-- The soinfo after a list of entries.
abbrev after_entries : Memory → ℕ → SoInfo → List Dyn → SoInfo
after_entries m base si [] = si
after_entries m base si (d ∷ ds) = after_entries m base (soinfo_of (parse_entry m base d si 0)) ds

entry_needed :
    (m : Memory) (base : ℕ) (d : Dyn) (si : SoInfo) (n : ℕ)
    → soinfo_of (parse_entry m base d si n) ≡ soinfo_of (parse_entry m base d si 0)
unfolding parse_entry
entry_needed m base d si n = ground arith

parse_dynamic-after_entries :
    (m : Memory) (base fuel at : ℕ) (si : SoInfo) (n : ℕ) (ds : List Dyn)
    → IsTable m at ds
    → All Supported ds
    → length ds < fuel
    → parse_dynamic fuel m base at si n
      ≡ ok (parsed (after_entries m base si ds) (count_tag dt_needed n ds))
unfolding parse_dynamic
parse_dynamic-after_entries m base zero at si n ds table fine few = absurd (omega arith)
parse_dynamic-after_entries m base (suc fuel) at si n [] table fine few = ground arith
parse_dynamic-after_entries m base (suc fuel) at si n (d ∷ ds) table fine few =
    let si' : SoInfo = soinfo_of (parse_entry m base d si 0) in
    let n' : ℕ = if d.d_tag == dt_needed then add32 n 1 else n in
    let ih =
      parse_dynamic-after_entries m base fuel (at + sizeof_dyn) si' n' ds table.2 fine.1
        (omega arith) in
    let live : (d.d_tag == dt_null) ≡ false = ground (arith, table.1) in
    let step : parse_entry m base d si n ≡ parsed si' n' =
      entry-Supported m base d si n fine.0
      ∙ ap (λ (t : SoInfo). parsed t n') (entry_needed m base d si n) in
    rw (table.0, live, step) ih

-- A field that one tag sets holds the value of the last entry with the tag.
after_entries-last_value :
    {A : Type 0} (m : Memory) (base tag : ℕ) (f : ℕ → A) (field : SoInfo → A)
    → ((d : Dyn) (si : SoInfo)
        → field (soinfo_of (parse_entry m base d si 0))
          ≡ (if d.d_tag == tag then f d.d_val else field si))
    → (si : SoInfo) (ds : List Dyn)
    → field (after_entries m base si ds) ≡ last_value tag f (field si) ds
after_entries-last_value m base tag f field step si [] = refl
after_entries-last_value m base tag f field step si (d ∷ ds) =
    after_entries-last_value m base tag f field step (soinfo_of (parse_entry m base d si 0)) ds
    ∙ ap (λ t. last_value tag f t ds) (step d si)

-- The same of a field that no tag sets.
after_entries-keeps :
    {A : Type 0} (m : Memory) (base : ℕ) (field : SoInfo → A)
    → ((d : Dyn) (si : SoInfo) → field (soinfo_of (parse_entry m base d si 0)) ≡ field si)
    → (si : SoInfo) (ds : List Dyn) → field (after_entries m base si ds) ≡ field si
after_entries-keeps m base field step si [] = refl
after_entries-keeps m base field step si (d ∷ ds) =
    after_entries-keeps m base field step (soinfo_of (parse_entry m base d si 0)) ds ∙ step d si

module _ (m : Memory) (base : ℕ) where
  -- The fields of `si'`, each of them, by the entries `ds`.
  pub record Reads (si si' : SoInfo) (ds : List Dyn) : Type 0 where
    pub reads_strtab : si'.strtab ≡ last_value dt_strtab (λ v. add32 base v) si.strtab ds
    pub reads_symtab : si'.symtab ≡ last_value dt_symtab (λ v. add32 base v) si.symtab ds
    pub reads_nbucket :
        si'.nbucket ≡ last_value dt_hash (λ v. load32 m (add32 base v)) si.nbucket ds
    pub reads_nchain :
        si'.nchain ≡ last_value dt_hash (λ v. load32 m (add32 base v + 4)) si.nchain ds
    pub reads_bucket : si'.bucket ≡ last_value dt_hash (λ v. add32 (add32 base v) 8) si.bucket ds
    pub reads_chain :
        si'.chain
        ≡ last_value dt_hash
            (λ v. add32 (add32 (add32 base v) 8) (load32 m (add32 base v) * 4))
            si.chain
            ds
    pub reads_plt_rel : si'.plt_rel ≡ last_value dt_jmprel (λ v. add32 base v) si.plt_rel ds
    pub reads_plt_rel_count :
        si'.plt_rel_count ≡ last_value dt_pltrelsz (λ v. v / sizeof_rel) si.plt_rel_count ds
    pub reads_rel : si'.rel ≡ last_value dt_rel (λ v. add32 base v) si.rel ds
    pub reads_rel_count : si'.rel_count ≡ last_value dt_relsz (λ v. v / sizeof_rel) si.rel_count ds
    pub reads_init_func : si'.init_func ≡ last_value dt_init (λ v. add32 base v) si.init_func ds
    pub reads_fini_func : si'.fini_func ≡ last_value dt_fini (λ v. add32 base v) si.fini_func ds
    pub reads_init_array :
        si'.init_array ≡ last_value dt_init_array (λ v. add32 base v) si.init_array ds
    pub reads_init_array_count :
        si'.init_array_count ≡ last_value dt_init_arraysz (λ v. v / 4) si.init_array_count ds
    pub reads_fini_array :
        si'.fini_array ≡ last_value dt_fini_array (λ v. add32 base v) si.fini_array ds
    pub reads_fini_array_count :
        si'.fini_array_count ≡ last_value dt_fini_arraysz (λ v. v / 4) si.fini_array_count ds
    pub reads_has_text_relocations :
        si'.has_text_relocations ≡ last_value dt_textrel (λ v. true) si.has_text_relocations ds
    pub reads_has_dt_symbolic :
        si'.has_dt_symbolic ≡ last_value dt_symbolic (λ v. true) si.has_dt_symbolic ds
    pub reads_plt_got : si'.plt_got ≡ last_value dt_pltgot (λ v. add32 base v) si.plt_got ds
    pub reads_preinit_array :
        si'.preinit_array ≡ last_value dt_preinit_array (λ v. add32 base v) si.preinit_array ds
    pub reads_preinit_array_count :
        si'.preinit_array_count
        ≡ last_value dt_preinit_arraysz (λ v. v / 4) si.preinit_array_count ds
    pub keeps_name : si'.name ≡ si.name
    pub keeps_next : si'.next ≡ si.next
    pub keeps_base : si'.base ≡ si.base
    pub keeps_size : si'.size ≡ si.size
    pub keeps_load_bias : si'.load_bias ≡ si.load_bias
    pub keeps_phdr : si'.phdr ≡ si.phdr
    pub keeps_phnum : si'.phnum ≡ si.phnum
    pub keeps_flags : si'.flags ≡ si.flags
    pub keeps_ref_count : si'.ref_count ≡ si.ref_count
    pub keeps_entry : si'.entry ≡ si.entry
    pub keeps_dynamic : si'.dynamic ≡ si.dynamic
    pub keeps_arm_exidx : si'.arm_exidx ≡ si.arm_exidx
    pub keeps_arm_exidx_count : si'.arm_exidx_count ≡ si.arm_exidx_count
    pub keeps_constructors_called : si'.constructors_called ≡ si.constructors_called

  -- Over a table that ends with DT_NULL, whose entries the loader supports, and with more fuel than
  -- it has entries, the loop goes through to DT_NULL. It counts the DT_NEEDED entries; each field
  -- of the soinfo that an entry sets has the value of the last entry with its tag, or the value it
  -- had where there is none; and all other fields of the soinfo are kept.
  pub parse_dynamic-Reads :
      (fuel at : ℕ) (si : SoInfo) (ds : List Dyn)
      → IsTable m at ds
      → All Supported ds
      → length ds < fuel
      → (si' : SoInfo) × (parse_dynamic fuel m base at si 0
          ≡ ok (parsed si' (count_tag dt_needed 0 ds)))
        × Reads si si' ds
  parse_dynamic-Reads fuel at si ds table fine few = (
    after_entries m base si ds,
    parse_dynamic-after_entries m base fuel at si 0 ds table fine few,
    record {
      reads_strtab =
          after_entries-last_value m base dt_strtab (λ v. add32 base v) (λ t. t.strtab)
            (entry-strtab m base) si ds;
      reads_symtab =
          after_entries-last_value m base dt_symtab (λ v. add32 base v) (λ t. t.symtab)
            (entry-symtab m base) si ds;
      reads_nbucket =
          after_entries-last_value m base dt_hash (λ v. load32 m (add32 base v)) (λ t. t.nbucket)
            (entry-nbucket m base) si ds;
      reads_nchain =
          after_entries-last_value m base dt_hash (λ v. load32 m (add32 base v + 4)) (λ t. t.nchain)
            (entry-nchain m base) si ds;
      reads_bucket =
          after_entries-last_value m base dt_hash (λ v. add32 (add32 base v) 8) (λ t. t.bucket)
            (entry-bucket m base) si ds;
      reads_chain =
          after_entries-last_value m base dt_hash
            (λ v. add32 (add32 (add32 base v) 8) (load32 m (add32 base v) * 4)) (λ t. t.chain)
            (entry-chain m base) si ds;
      reads_plt_rel =
          after_entries-last_value m base dt_jmprel (λ v. add32 base v) (λ t. t.plt_rel)
            (entry-plt_rel m base) si ds;
      reads_plt_rel_count =
          after_entries-last_value m base dt_pltrelsz (λ v. v / sizeof_rel) (λ t. t.plt_rel_count)
            (entry-plt_rel_count m base) si ds;
      reads_rel =
          after_entries-last_value m base dt_rel (λ v. add32 base v) (λ t. t.rel) (entry-rel m base)
            si ds;
      reads_rel_count =
          after_entries-last_value m base dt_relsz (λ v. v / sizeof_rel) (λ t. t.rel_count)
            (entry-rel_count m base) si ds;
      reads_init_func =
          after_entries-last_value m base dt_init (λ v. add32 base v) (λ t. t.init_func)
            (entry-init_func m base) si ds;
      reads_fini_func =
          after_entries-last_value m base dt_fini (λ v. add32 base v) (λ t. t.fini_func)
            (entry-fini_func m base) si ds;
      reads_init_array =
          after_entries-last_value m base dt_init_array (λ v. add32 base v) (λ t. t.init_array)
            (entry-init_array m base) si ds;
      reads_init_array_count =
          after_entries-last_value m base dt_init_arraysz (λ v. v / 4) (λ t. t.init_array_count)
            (entry-init_array_count m base) si ds;
      reads_fini_array =
          after_entries-last_value m base dt_fini_array (λ v. add32 base v) (λ t. t.fini_array)
            (entry-fini_array m base) si ds;
      reads_fini_array_count =
          after_entries-last_value m base dt_fini_arraysz (λ v. v / 4) (λ t. t.fini_array_count)
            (entry-fini_array_count m base) si ds;
      reads_has_text_relocations =
          after_entries-last_value m base dt_textrel (λ v. true) (λ t. t.has_text_relocations)
            (entry-has_text_relocations m base) si ds;
      reads_has_dt_symbolic =
          after_entries-last_value m base dt_symbolic (λ v. true) (λ t. t.has_dt_symbolic)
            (entry-has_dt_symbolic m base) si ds;
      reads_plt_got =
          after_entries-last_value m base dt_pltgot (λ v. add32 base v) (λ t. t.plt_got)
            (entry-plt_got m base) si ds;
      reads_preinit_array =
          after_entries-last_value m base dt_preinit_array (λ v. add32 base v)
            (λ t. t.preinit_array) (entry-preinit_array m base) si ds;
      reads_preinit_array_count =
          after_entries-last_value m base dt_preinit_arraysz (λ v. v / 4)
            (λ t. t.preinit_array_count) (entry-preinit_array_count m base) si ds;
      keeps_name = after_entries-keeps m base (λ t. t.name) (entry_keeps-name m base) si ds;
      keeps_next = after_entries-keeps m base (λ t. t.next) (entry_keeps-next m base) si ds;
      keeps_base = after_entries-keeps m base (λ t. t.base) (entry_keeps-base m base) si ds;
      keeps_size = after_entries-keeps m base (λ t. t.size) (entry_keeps-size m base) si ds;
      keeps_load_bias =
          after_entries-keeps m base (λ t. t.load_bias) (entry_keeps-load_bias m base) si ds;
      keeps_phdr = after_entries-keeps m base (λ t. t.phdr) (entry_keeps-phdr m base) si ds;
      keeps_phnum = after_entries-keeps m base (λ t. t.phnum) (entry_keeps-phnum m base) si ds;
      keeps_flags = after_entries-keeps m base (λ t. t.flags) (entry_keeps-flags m base) si ds;
      keeps_ref_count =
          after_entries-keeps m base (λ t. t.ref_count) (entry_keeps-ref_count m base) si ds;
      keeps_entry = after_entries-keeps m base (λ t. t.entry) (entry_keeps-entry m base) si ds;
      keeps_dynamic =
          after_entries-keeps m base (λ t. t.dynamic) (entry_keeps-dynamic m base) si ds;
      keeps_arm_exidx =
          after_entries-keeps m base (λ t. t.arm_exidx) (entry_keeps-arm_exidx m base) si ds;
      keeps_arm_exidx_count =
          after_entries-keeps m base (λ t. t.arm_exidx_count) (entry_keeps-arm_exidx_count m base)
            si ds;
      keeps_constructors_called =
          after_entries-keeps m base (λ t. t.constructors_called)
            (entry_keeps-constructors_called m base) si ds;
    },
  )
