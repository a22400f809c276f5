-- ===== src/Dynamic/Entries.antt =====
-- What one entry of the dynamic section does to each field of the soinfo.
use and_emu.Base.{ℕ, ◌+◌, ◌*◌, ◌/◌, ◌≡◌, true, arith, ◌==◌, if◌then◌else◌}
use and_emu.Base.Word.{add32}
use and_emu.Dynamic.{Parsed, parsed, refused, parse_entry}
use and_emu.Elf.{
  sizeof_rel, Dyn, dt_pltrelsz, dt_pltgot, dt_hash, dt_strtab, dt_symtab, dt_init, dt_fini,
  dt_symbolic, dt_rel, dt_relsz, dt_textrel, dt_jmprel, dt_init_array, dt_fini_array,
  dt_init_arraysz, dt_fini_arraysz, dt_preinit_array, dt_preinit_arraysz,
}
use and_emu.Memory.{Memory, load32}
use and_emu.SoInfo.{SoInfo}

abbrev pub soinfo_of : Parsed → SoInfo
soinfo_of (parsed si n) = si
soinfo_of (refused si n) = si

module _ (m : Memory) (base : ℕ) where
  pub entry-strtab :
      (d : Dyn) (si : SoInfo)
      → (soinfo_of (parse_entry m base d si 0)).strtab
        ≡ (if d.d_tag == dt_strtab then add32 base d.d_val else si.strtab)
  unfolding parse_entry
  entry-strtab d si = ground arith

  pub entry-symtab :
      (d : Dyn) (si : SoInfo)
      → (soinfo_of (parse_entry m base d si 0)).symtab
        ≡ (if d.d_tag == dt_symtab then add32 base d.d_val else si.symtab)
  unfolding parse_entry
  entry-symtab d si = ground arith

  pub entry-nbucket :
      (d : Dyn) (si : SoInfo)
      → (soinfo_of (parse_entry m base d si 0)).nbucket
        ≡ (if d.d_tag == dt_hash then load32 m (add32 base d.d_val) else si.nbucket)
  unfolding parse_entry
  entry-nbucket d si = ground arith

  pub entry-nchain :
      (d : Dyn) (si : SoInfo)
      → (soinfo_of (parse_entry m base d si 0)).nchain
        ≡ (if d.d_tag == dt_hash then load32 m (add32 base d.d_val + 4) else si.nchain)
  unfolding parse_entry
  entry-nchain d si = ground arith

  pub entry-bucket :
      (d : Dyn) (si : SoInfo)
      → (soinfo_of (parse_entry m base d si 0)).bucket
        ≡ (if d.d_tag == dt_hash then add32 (add32 base d.d_val) 8 else si.bucket)
  unfolding parse_entry
  entry-bucket d si = ground arith

  pub entry-chain :
      (d : Dyn) (si : SoInfo)
      → (soinfo_of (parse_entry m base d si 0)).chain ≡ (
          if d.d_tag == dt_hash
          then add32 (add32 (add32 base d.d_val) 8) (load32 m (add32 base d.d_val) * 4)
          else si.chain)
  unfolding parse_entry
  entry-chain d si = ground arith

  pub entry-plt_rel :
      (d : Dyn) (si : SoInfo)
      → (soinfo_of (parse_entry m base d si 0)).plt_rel
        ≡ (if d.d_tag == dt_jmprel then add32 base d.d_val else si.plt_rel)
  unfolding parse_entry
  entry-plt_rel d si = ground arith

  pub entry-plt_rel_count :
      (d : Dyn) (si : SoInfo)
      → (soinfo_of (parse_entry m base d si 0)).plt_rel_count
        ≡ (if d.d_tag == dt_pltrelsz then d.d_val / sizeof_rel else si.plt_rel_count)
  unfolding parse_entry
  entry-plt_rel_count d si = ground arith

  pub entry-rel :
      (d : Dyn) (si : SoInfo)
      → (soinfo_of (parse_entry m base d si 0)).rel
        ≡ (if d.d_tag == dt_rel then add32 base d.d_val else si.rel)
  unfolding parse_entry
  entry-rel d si = ground arith

  pub entry-rel_count :
      (d : Dyn) (si : SoInfo)
      → (soinfo_of (parse_entry m base d si 0)).rel_count
        ≡ (if d.d_tag == dt_relsz then d.d_val / sizeof_rel else si.rel_count)
  unfolding parse_entry
  entry-rel_count d si = ground arith

  pub entry-init_func :
      (d : Dyn) (si : SoInfo)
      → (soinfo_of (parse_entry m base d si 0)).init_func
        ≡ (if d.d_tag == dt_init then add32 base d.d_val else si.init_func)
  unfolding parse_entry
  entry-init_func d si = ground arith

  pub entry-fini_func :
      (d : Dyn) (si : SoInfo)
      → (soinfo_of (parse_entry m base d si 0)).fini_func
        ≡ (if d.d_tag == dt_fini then add32 base d.d_val else si.fini_func)
  unfolding parse_entry
  entry-fini_func d si = ground arith

  pub entry-init_array :
      (d : Dyn) (si : SoInfo)
      → (soinfo_of (parse_entry m base d si 0)).init_array
        ≡ (if d.d_tag == dt_init_array then add32 base d.d_val else si.init_array)
  unfolding parse_entry
  entry-init_array d si = ground arith

  pub entry-init_array_count :
      (d : Dyn) (si : SoInfo)
      → (soinfo_of (parse_entry m base d si 0)).init_array_count
        ≡ (if d.d_tag == dt_init_arraysz then d.d_val / 4 else si.init_array_count)
  unfolding parse_entry
  entry-init_array_count d si = ground arith

  pub entry-fini_array :
      (d : Dyn) (si : SoInfo)
      → (soinfo_of (parse_entry m base d si 0)).fini_array
        ≡ (if d.d_tag == dt_fini_array then add32 base d.d_val else si.fini_array)
  unfolding parse_entry
  entry-fini_array d si = ground arith

  pub entry-fini_array_count :
      (d : Dyn) (si : SoInfo)
      → (soinfo_of (parse_entry m base d si 0)).fini_array_count
        ≡ (if d.d_tag == dt_fini_arraysz then d.d_val / 4 else si.fini_array_count)
  unfolding parse_entry
  entry-fini_array_count d si = ground arith

  pub entry-has_text_relocations :
      (d : Dyn) (si : SoInfo)
      → (soinfo_of (parse_entry m base d si 0)).has_text_relocations
        ≡ (if d.d_tag == dt_textrel then true else si.has_text_relocations)
  unfolding parse_entry
  entry-has_text_relocations d si = ground arith

  pub entry-has_dt_symbolic :
      (d : Dyn) (si : SoInfo)
      → (soinfo_of (parse_entry m base d si 0)).has_dt_symbolic
        ≡ (if d.d_tag == dt_symbolic then true else si.has_dt_symbolic)
  unfolding parse_entry
  entry-has_dt_symbolic d si = ground arith

  pub entry-plt_got :
      (d : Dyn) (si : SoInfo)
      → (soinfo_of (parse_entry m base d si 0)).plt_got
        ≡ (if d.d_tag == dt_pltgot then add32 base d.d_val else si.plt_got)
  unfolding parse_entry
  entry-plt_got d si = ground arith

  pub entry-preinit_array :
      (d : Dyn) (si : SoInfo)
      → (soinfo_of (parse_entry m base d si 0)).preinit_array
        ≡ (if d.d_tag == dt_preinit_array then add32 base d.d_val else si.preinit_array)
  unfolding parse_entry
  entry-preinit_array d si = ground arith

  pub entry-preinit_array_count :
      (d : Dyn) (si : SoInfo)
      → (soinfo_of (parse_entry m base d si 0)).preinit_array_count
        ≡ (if d.d_tag == dt_preinit_arraysz then d.d_val / 4 else si.preinit_array_count)
  unfolding parse_entry
  entry-preinit_array_count d si = ground arith

  pub entry_keeps-name :
      (d : Dyn) (si : SoInfo) → (soinfo_of (parse_entry m base d si 0)).name ≡ si.name
  unfolding parse_entry
  entry_keeps-name d si = ground arith

  pub entry_keeps-next :
      (d : Dyn) (si : SoInfo) → (soinfo_of (parse_entry m base d si 0)).next ≡ si.next
  unfolding parse_entry
  entry_keeps-next d si = ground arith

  pub entry_keeps-base :
      (d : Dyn) (si : SoInfo) → (soinfo_of (parse_entry m base d si 0)).base ≡ si.base
  unfolding parse_entry
  entry_keeps-base d si = ground arith

  pub entry_keeps-size :
      (d : Dyn) (si : SoInfo) → (soinfo_of (parse_entry m base d si 0)).size ≡ si.size
  unfolding parse_entry
  entry_keeps-size d si = ground arith

  pub entry_keeps-load_bias :
      (d : Dyn) (si : SoInfo) → (soinfo_of (parse_entry m base d si 0)).load_bias ≡ si.load_bias
  unfolding parse_entry
  entry_keeps-load_bias d si = ground arith

  pub entry_keeps-phdr :
      (d : Dyn) (si : SoInfo) → (soinfo_of (parse_entry m base d si 0)).phdr ≡ si.phdr
  unfolding parse_entry
  entry_keeps-phdr d si = ground arith

  pub entry_keeps-phnum :
      (d : Dyn) (si : SoInfo) → (soinfo_of (parse_entry m base d si 0)).phnum ≡ si.phnum
  unfolding parse_entry
  entry_keeps-phnum d si = ground arith

  pub entry_keeps-flags :
      (d : Dyn) (si : SoInfo) → (soinfo_of (parse_entry m base d si 0)).flags ≡ si.flags
  unfolding parse_entry
  entry_keeps-flags d si = ground arith

  pub entry_keeps-ref_count :
      (d : Dyn) (si : SoInfo) → (soinfo_of (parse_entry m base d si 0)).ref_count ≡ si.ref_count
  unfolding parse_entry
  entry_keeps-ref_count d si = ground arith

  pub entry_keeps-entry :
      (d : Dyn) (si : SoInfo) → (soinfo_of (parse_entry m base d si 0)).entry ≡ si.entry
  unfolding parse_entry
  entry_keeps-entry d si = ground arith

  pub entry_keeps-dynamic :
      (d : Dyn) (si : SoInfo) → (soinfo_of (parse_entry m base d si 0)).dynamic ≡ si.dynamic
  unfolding parse_entry
  entry_keeps-dynamic d si = ground arith

  pub entry_keeps-arm_exidx :
      (d : Dyn) (si : SoInfo) → (soinfo_of (parse_entry m base d si 0)).arm_exidx ≡ si.arm_exidx
  unfolding parse_entry
  entry_keeps-arm_exidx d si = ground arith

  pub entry_keeps-arm_exidx_count :
      (d : Dyn) (si : SoInfo)
      → (soinfo_of (parse_entry m base d si 0)).arm_exidx_count ≡ si.arm_exidx_count
  unfolding parse_entry
  entry_keeps-arm_exidx_count d si = ground arith

  pub entry_keeps-constructors_called :
      (d : Dyn) (si : SoInfo)
      → (soinfo_of (parse_entry m base d si 0)).constructors_called ≡ si.constructors_called
  unfolding parse_entry
  entry_keeps-constructors_called d si = ground arith
