-- ===== src/Phdr.antt =====
-- The phdr_table_* functions of emulator/linker_phdr.cpp: the extent of the loadable segments, their
-- protections, and the sections that the program headers point to.
pub mod LoadSize
pub mod Protect
use Prim.Native.Nat.{bit_and, bit_or}
use and_emu.Base.{
  ℕ, zero, suc, ◌+◌, ◌/◌, Bool, true, false, ◌||◌, Option, none, some, List, [], ◌∷◌, ltb, ◌!=◌,
  if◌then◌else◌,
}
use and_emu.Base.Word.{add32, sub32, page_start, page_end}
use and_emu.Elf.{
  pt_load, pt_dynamic, pt_gnu_relro, pt_arm_exidx, pf_x, pf_w, pf_r, Phdr, sizeof_phdr, phdr_at,
}
use and_emu.Kernel.{Space, Attempt, done, and_then, Kernel, prot_read, prot_write, prot_exec}

-- `MAYBE_MAP_FLAG`.
abbrev maybe_map_flag : ℕ → ℕ → ℕ → ℕ
maybe_map_flag x from to = if bit_and x from != 0 then to else 0

-- `PFLAGS_TO_PROT`.
unfoldable pub pflags_to_prot : ℕ → ℕ
pflags_to_prot x =
    bit_or (bit_or (maybe_map_flag x pf_x prot_exec) (maybe_map_flag x pf_r prot_read))
      (maybe_map_flag x pf_w prot_write)

-- The variables of the loop of phdr_table_get_load_size.
pub record Extent : Type 0 where
  pub min_vaddr : ℕ
  pub max_vaddr : ℕ
  pub found_pt_load : Bool

unfoldable pub extend : Extent → Phdr → Extent
extend e p = if p.p_type != pt_load then e else record {
  min_vaddr = if ltb p.p_vaddr e.min_vaddr then p.p_vaddr else e.min_vaddr;
  max_vaddr =
      if ltb e.max_vaddr (add32 p.p_vaddr p.p_memsz)
      then add32 p.p_vaddr p.p_memsz
      else e.max_vaddr;
  found_pt_load = true;
}

unfoldable pub extent : Extent → List Phdr → Extent
extent e [] = e
extent e (p ∷ ps) = extent (extend e p) ps

abbrev pub no_extent : Extent
no_extent = record { min_vaddr = 0xffff_ffff; max_vaddr = 0; found_pt_load = false }

-- The size, with the two output parameters.
pub record LoadExtent : Type 0 where
  pub size : ℕ
  pub out_min_vaddr : ℕ
  pub out_max_vaddr : ℕ

unfoldable pub get_load_size : List Phdr → LoadExtent
unfolding extent extend
get_load_size ps =
    let e = extent no_extent ps in
    let lo = page_start (if e.found_pt_load then e.min_vaddr else 0) in
    let hi = page_end e.max_vaddr in
    record { size = sub32 hi lo; out_min_vaddr = lo; out_max_vaddr = hi }

module _ (k : Kernel) (load_bias : ℕ) where
  -- The `s_mprotect` of the pages that a program header touches.
  abbrev pub protect_pages : Phdr → ℕ → Space → Attempt (Unit {0})
  protect_pages p prot s =
      let first_page = add32 (page_start p.p_vaddr) load_bias in
      let end_page = add32 (page_end (add32 p.p_vaddr p.p_memsz)) load_bias in
      k.mprotect first_page (sub32 end_page first_page) prot s

  -- `_phdr_table_set_load_prot` over `count` headers from an address: whether it returned 0.
  unfoldable pub set_load_prot : ℕ → ℕ → ℕ → Space → Attempt (Unit {0})
  set_load_prot extra table zero s = done tt s
  set_load_prot extra table (suc count) s =
      let p = phdr_at s.memory table in
      and_then
        (if p.p_type != pt_load || bit_and p.p_flags pf_w != 0
          then done tt s
          else protect_pages p (bit_or (pflags_to_prot p.p_flags) extra) s)
        (λ _ s'. set_load_prot extra (table + sizeof_phdr) count s')

  unfoldable pub protect_segments : ℕ → ℕ → Space → Attempt (Unit {0})
  unfolding set_load_prot
  protect_segments table count s = set_load_prot 0 table count s

  unfoldable pub unprotect_segments : ℕ → ℕ → Space → Attempt (Unit {0})
  unfolding set_load_prot
  unprotect_segments table count s = set_load_prot prot_write table count s

  -- `_phdr_table_set_gnu_relro_prot`.
  unfoldable pub set_gnu_relro_prot : ℕ → ℕ → ℕ → Space → Attempt (Unit {0})
  set_gnu_relro_prot prot table zero s = done tt s
  set_gnu_relro_prot prot table (suc count) s =
      let p = phdr_at s.memory table in
      and_then (if p.p_type != pt_gnu_relro then done tt s else protect_pages p prot s)
        (λ _ s'. set_gnu_relro_prot prot (table + sizeof_phdr) count s')

  unfoldable pub protect_gnu_relro : ℕ → ℕ → Space → Attempt (Unit {0})
  unfolding set_gnu_relro_prot
  protect_gnu_relro table count s = set_gnu_relro_prot prot_read table count s

-- The table and its number of 8-byte entries, or null and 0 with the result -1.
unfoldable pub get_arm_exidx : List Phdr → ℕ → ℕ × ℕ
get_arm_exidx [] bias = (0, 0)
get_arm_exidx (p ∷ ps) bias =
    if p.p_type != pt_arm_exidx
    then get_arm_exidx ps bias
    else (add32 bias p.p_vaddr, p.p_memsz / 8)

-- `*dynamic`, `*dynamic_count`, and `*dynamic_flags` where it is set.
pub record DynamicSection : Type 0 where
  pub dynamic : ℕ
  pub dynamic_count : ℕ
  pub dynamic_flags : Option ℕ

unfoldable pub get_dynamic_section : List Phdr → ℕ → DynamicSection
get_dynamic_section [] bias = record { dynamic = 0; dynamic_count = 0; dynamic_flags = none }
get_dynamic_section (p ∷ ps) bias =
    if p.p_type != pt_dynamic then get_dynamic_section ps bias else record {
      dynamic = add32 bias p.p_vaddr;
      dynamic_count = p.p_memsz / 8;
      dynamic_flags = some p.p_flags;
    }
