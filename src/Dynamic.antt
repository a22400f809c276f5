-- ===== src/Dynamic.antt =====
-- The loop of soinfo_link_image in emulator/linker.cpp that reads the dynamic section into the soinfo.
pub mod Entries
pub mod Fields
use Prim.Native.Nat.{bit_and}
use and_emu.Base.{ℕ, zero, suc, ◌+◌, ◌*◌, ◌/◌, Bool, true, ◌&&◌, not, ◌==◌, ◌!=◌, if◌then◌else◌}
use and_emu.Base.Exec.{Exec, ok, spin}
use and_emu.Base.Word.{add32}
use and_emu.Elf.{
  sizeof_rel, Dyn, sizeof_dyn, dyn_at, dt_null, dt_needed, dt_pltrelsz, dt_pltgot, dt_hash,
  dt_strtab, dt_symtab, dt_rela, dt_init, dt_fini, dt_symbolic, dt_rel, dt_relsz, dt_pltrel,
  dt_textrel, dt_jmprel, dt_init_array, dt_fini_array, dt_init_arraysz, dt_fini_arraysz,
  dt_preinit_array, dt_preinit_arraysz,
}
use and_emu.Memory.{Memory, load32}
use and_emu.SoInfo.{flag_linker, SoInfo}

-- What the loop has when it stops: whether it went through to DT_NULL, the soinfo and `needed_count`.
pub data Parsed : Type 0 where
  parsed : SoInfo → ℕ → Parsed
  refused : SoInfo → ℕ → Parsed

-- One turn of the switch; `refused` is its `return false`.
unfoldable pub parse_entry : Memory → ℕ → Dyn → SoInfo → ℕ → Parsed
parse_entry m base d si needed =
    let here = add32 base d.d_val in
    if d.d_tag == dt_hash
    then parsed
        (record si {
          nbucket = load32 m here;
          nchain = load32 m (here + 4);
          bucket = add32 here 8;
          chain = add32 (add32 here 8) (load32 m here * 4);
        })
        needed
    else if d.d_tag == dt_strtab
    then parsed (record si { strtab = here }) needed
    else if d.d_tag == dt_symtab
    then parsed (record si { symtab = here }) needed
    else if d.d_tag == dt_pltrel
    then (if d.d_val != dt_rel then refused si needed else parsed si needed)
    else if d.d_tag == dt_jmprel
    then parsed (record si { plt_rel = here }) needed
    else if d.d_tag == dt_pltrelsz
    then parsed (record si { plt_rel_count = d.d_val / sizeof_rel }) needed
    else if d.d_tag == dt_rel
    then parsed (record si { rel = here }) needed
    else if d.d_tag == dt_relsz
    then parsed (record si { rel_count = d.d_val / sizeof_rel }) needed
    else if d.d_tag == dt_pltgot
    then parsed (record si { plt_got = here }) needed
    else if d.d_tag == dt_rela
    then refused si needed
    else if d.d_tag == dt_init
    then parsed (record si { init_func = here }) needed
    else if d.d_tag == dt_fini
    then parsed (record si { fini_func = here }) needed
    else if d.d_tag == dt_init_array
    then parsed (record si { init_array = here }) needed
    else if d.d_tag == dt_init_arraysz
    then parsed (record si { init_array_count = d.d_val / 4 }) needed
    else if d.d_tag == dt_fini_array
    then parsed (record si { fini_array = here }) needed
    else if d.d_tag == dt_fini_arraysz
    then parsed (record si { fini_array_count = d.d_val / 4 }) needed
    else if d.d_tag == dt_preinit_array
    then parsed (record si { preinit_array = here }) needed
    else if d.d_tag == dt_preinit_arraysz
    then parsed (record si { preinit_array_count = d.d_val / 4 }) needed
    else if d.d_tag == dt_textrel
    then parsed (record si { has_text_relocations = true }) needed
    else if d.d_tag == dt_symbolic
    then parsed (record si { has_dt_symbolic = true }) needed
    else if d.d_tag == dt_needed
    then parsed si (add32 needed 1)
    else parsed si needed

-- The loop, from the entry at an address.
unfoldable pub parse_dynamic : ℕ → Memory → ℕ → ℕ → SoInfo → ℕ → Exec Parsed
unfolding parse_entry
parse_dynamic zero m base at si needed = spin
parse_dynamic (suc fuel) m base at si needed =
    if (dyn_at m at).d_tag == dt_null
    then ok (parsed si needed)
    else elim (parse_entry m base (dyn_at m at) si needed) [
      | refused si' needed' ↦ ok (refused si' needed')
      | parsed si' needed' ↦ parse_dynamic fuel m base (at + sizeof_dyn) si' needed'
    ]

-- The sanity checks behind the loop.
unfoldable pub dynamic_ok : SoInfo → ℕ → Bool
dynamic_ok si needed =
    not (bit_and si.flags flag_linker != 0 && needed != 0)
    && si.nbucket != 0
    && si.strtab != 0
    && si.symtab != 0
