-- ===== src/Reloc.antt =====
-- soinfo_relocate of emulator/linker.cpp, as built for ARM: each entry of a table is resolved to a
-- symbol's address and written over the word that it names.
pub mod Entry
pub mod Frame
pub mod Relative
use Prim.Native.Nat.{bit_and}
use and_emu.Base.{
  ℕ, zero, suc, ◌+◌, sym, Bool, true, false, ◌||◌, Option, none, some, List, ltb, ◌==◌, ◌!=◌,
  if◌then◌else◌,
}
use and_emu.Base.Exec.{Exec, ok, fault, ◌>>=◌}
use and_emu.Base.Word.{add32, sub32}
use and_emu.Elf.{stb_weak, sym_at, st_bind, Rel, sizeof_rel, rel_at, r_sym, r_type}
use and_emu.Memory.{Memory, load32, store32, memcpy, c_string}
use and_emu.SoInfo.{flag_exe, SoInfo, Linker}
use and_emu.Symbol.{symbol, do_lookup}

-- Relocation types of emulator/elf.h.
abbrev pub r_arm_none : ℕ
r_arm_none = 0

abbrev pub r_arm_abs32 : ℕ
r_arm_abs32 = 2

abbrev pub r_arm_rel32 : ℕ
r_arm_rel32 = 3

abbrev pub r_arm_copy : ℕ
r_arm_copy = 20

abbrev pub r_arm_glob_dat : ℕ
r_arm_glob_dat = 21

abbrev pub r_arm_jump_slot : ℕ
r_arm_jump_slot = 22

abbrev pub r_arm_relative : ℕ
r_arm_relative = 23

-- The types at which a weak reference may stay undefined.
abbrev pub weak_allowed : ℕ → Bool
weak_allowed type =
    type == r_arm_jump_slot
    || type == r_arm_glob_dat
    || type == r_arm_abs32
    || type == r_arm_relative

-- What the first half of an entry's processing leaves: `sym_addr`, and `s` if there is a symbol.
pub record Resolved : Type 0 where
  pub sym_addr : ℕ
  pub s : Option ℕ

-- An undefined reference: its own symbol table entry decides.
unfoldable pub undefined_reference : Memory → ℕ → ℕ → Option Resolved
undefined_reference m type own =
    if st_bind (sym_at m own) != stb_weak
    then none
    else if weak_allowed type
    then some (record { sym_addr = 0; s = some own })
    else none

-- `none` is the `return -1`.
unfoldable pub resolve : ℕ → Linker → ℕ → List ℕ → ℕ → ℕ → Exec (Option Resolved)
unfolding undefined_reference
resolve fuel l si needed type sym =
    if sym == 0 then ok (some (record { sym_addr = 0; s = none })) else do
      let m = l.space.memory
      let own = symbol (l.infos si) sym
      name ← c_string fuel m ((l.infos si).strtab + (sym_at m own).st_name)
      found ← do_lookup fuel l si name needed
      elim found [
        | none ↦ ok (undefined_reference m type own)
        | some (lib, s) ↦ ok (
            some (record {
              sym_addr = add32 (sym_at m s).st_value (l.infos lib).load_bias;
              s = some s;
            }))
      ]

-- R_ARM_COPY. The trace reads `s->st_size`, and the lookup of a null name reads the name: both
-- crash without a symbol.
unfoldable pub copy_relocation : ℕ → Linker → ℕ → List ℕ → ℕ → ℕ → Resolved → Exec (Option Memory)
copy_relocation fuel l si needed sym reloc r =
    if bit_and (l.infos si).flags flag_exe == 0 then ok none else elim r.s [
      | none ↦ fault
      | some s ↦ if reloc != r.sym_addr then ok none else do
        let m = l.space.memory
        name ← c_string fuel m ((l.infos si).strtab + (sym_at m (symbol (l.infos si) sym)).st_name)
        found ← do_lookup fuel l 0 name needed
        elim found [
          | none ↦ ok none
          | some (lib, src) ↦ ok (
              if (l.infos lib).has_dt_symbolic
              then none
              else if ltb (sym_at m s).st_size (sym_at m src).st_size
              then none
              else some (
                  memcpy m reloc (add32 (sym_at m src).st_value (l.infos lib).load_bias)
                    (sym_at m src).st_size))
        ]
    ]

-- The word at `reloc` after an entry of one of the types that write a word, where it holds
-- `addend` before.
unfoldable pub relocated : ℕ → ℕ → ℕ → ℕ → ℕ → ℕ → Option ℕ
relocated type sym addend sym_addr r_offset base =
    if type == r_arm_jump_slot
    then some sym_addr
    else if type == r_arm_glob_dat
    then some sym_addr
    else if type == r_arm_abs32
    then some (add32 addend sym_addr)
    else if type == r_arm_rel32
    then some (add32 addend (sub32 sym_addr r_offset))
    else if type == r_arm_relative
    then (if sym != 0 then none else some (add32 addend base))
    else none

-- `*reinterpret_cast<Elf32_Addr*>(reloc) = v`, unless there is no value.
abbrev pub write_word : Memory → ℕ → Option ℕ → Option Memory
write_word m reloc none = none
write_word m reloc (some v) = some (store32 m reloc v)

-- The address that an entry patches.
abbrev pub place : SoInfo → Rel → ℕ
place si r = add32 r.r_offset si.load_bias

-- One entry; `none` is the `return -1`.
unfoldable pub relocate_one : ℕ → Linker → ℕ → List ℕ → Rel → Exec (Option Memory)
unfolding relocated
relocate_one fuel l si needed r =
    let m = l.space.memory in
    let reloc = place (l.infos si) r in
    if r_type r == r_arm_none
    then ok (some m)
    else (resolve fuel l si needed (r_type r) (r_sym r) >>= λ o. elim o [
      | none ↦ ok none
      | some v ↦
          if r_type r == r_arm_copy
          then copy_relocation fuel l si needed (r_sym r) reloc v
          else ok (
              write_word m reloc (
                relocated (r_type r) (r_sym r) (load32 m reloc) v.sym_addr r.r_offset
                  (l.infos si).base))
    ])

abbrev pub with_memory : Linker → Memory → Linker
with_memory l m = record l { space = record { memory = m; kernel = l.space.kernel } }

-- The loop over the `count` entries at `rel`, with the state it leaves and whether it returned 0.
unfoldable pub relocate : ℕ → ℕ → List ℕ → ℕ → ℕ → Linker → Exec (Linker × Bool)
relocate fuel si needed zero rel l = ok (l, true)
relocate fuel si needed (suc count) rel l =
    relocate_one fuel l si needed (rel_at l.space.memory rel) >>= λ o. elim o [
      | none ↦ ok (l, false)
      | some m ↦ relocate fuel si needed count (rel + sizeof_rel) (with_memory l m)
    ]
