-- ===== src/Reloc/Entry.antt =====
-- One entry of a relocation table, on every branch.
use Prim.Native.Nat.{bit_and}
use and_emu.Base.{
  ℕ, ◌^◌, ◌≤◌, ◌<◌, ◌≡◌, refl, sym, ap, subst, ◌≢◌, ◌⊎◌, inl, inr, true, false, ◌||◌, Option, none,
  some, List, arith, ◌==◌, if◌then◌else◌, Bool-cases,
}
use and_emu.Base.Exec.{Exec, ok, fault, spin}
use and_emu.Base.Word.{add32, sub32}
use and_emu.Elf.{Rel, r_sym, r_type}
use and_emu.Memory.{Memory, load32, store32}
use and_emu.Memory.Laws.{load32-lt, load32-store32, store32_other}
use and_emu.Reloc.{
  r_arm_none, r_arm_abs32, r_arm_rel32, r_arm_copy, r_arm_glob_dat, r_arm_jump_slot, r_arm_relative,
  Resolved, resolve, copy_relocation, relocated, write_word, place, relocate_one,
}
use and_emu.SoInfo.{flag_exe, Linker}

-- A word reference, in the terms of the ARM ELF specification: S is the symbol's address, A the
-- word that the place holds, P the place.
abbrev pub elf_value : ℕ → ℕ → ℕ → ℕ → Option ℕ
elf_value type s a p =
    if type == r_arm_jump_slot || type == r_arm_glob_dat
    then some s
    else if type == r_arm_abs32
    then some (add32 s a)
    else if type == r_arm_rel32
    then some (sub32 (add32 s a) p)
    else none

relocated-elf_value :
    (type sym a s off bias base w : ℕ)
    → a < 2 ^ 32
    → s < 2 ^ 32
    → off < 2 ^ 32
    → bias < 2 ^ 32
    → elf_value type s a (add32 off bias) ≡ some w
    → let u = if type == r_arm_rel32 then add32 w bias else w in
      (relocated type sym a s off base ≡ some u)
      × (u < 2 ^ 32)
      × (type ≢ r_arm_none)
      × (type ≢ r_arm_copy)
unfolding relocated
relocated-elf_value type sym a s off bias base w h₁ h₂ h₃ h₄ value = ground arith

module _ (fuel : ℕ) (l : Linker) (si : ℕ) (needed : List ℕ) (r : Rel) where
  abbrev target : ℕ
  target = place (l.infos si) r

  copy_relocation-library :
      (sym reloc : ℕ) (v : Resolved)
      → bit_and (l.infos si).flags flag_exe ≡ 0
      → copy_relocation fuel l si needed sym reloc v ≡ ok none
  unfolding copy_relocation
  copy_relocation-library sym reloc v library = rw library

  write_word-frame :
      (m m' : Memory) (a p : ℕ) (o : Option ℕ)
      → write_word m a o ≡ some m'
      → p < 2 ^ 32
      → 4 ≤ sub32 p a
      → m' p ≡ m p
  write_word-frame m m' a p none e small away = cc
  write_word-frame m m' a p (some v) e small away =
      let same : store32 m a v ≡ m' = cc in
      subst (λ (g : Memory). g p ≡ m p) same (store32_other m a v p small away)

  -- In a library, no entry changes memory beyond the word at its place.
  pub relocate_one-frame :
      (m : Memory) (p : ℕ)
      → relocate_one fuel l si needed r ≡ ok (some m)
      → bit_and (l.infos si).flags flag_exe ≡ 0
      → p < 2 ^ 32
      → 4 ≤ sub32 p target
      → m p ≡ l.space.memory p
  unfolding relocate_one
  relocate_one-frame m p run library small away =
      go (Bool-cases (r_type r == r_arm_none)) (Bool-cases (r_type r == r_arm_copy))
        (resolve fuel l si needed (r_type r) (r_sym r)) refl
    where
      open l.space use {memory}

      go :
          ((r_type r == r_arm_none) ≡ true) ⊎ ((r_type r == r_arm_none) ≡ false)
          → ((r_type r == r_arm_copy) ≡ true) ⊎ ((r_type r == r_arm_copy) ≡ false)
          → (o : Exec (Option Resolved)) → resolve fuel l si needed (r_type r) (r_sym r) ≡ o
          → m p ≡ memory p
      go (inl skip) d o e =
          let done : relocate_one fuel l si needed r ≡ ok (some memory) = rw skip in
          let same : m ≡ memory = cc in ap (λ (g : Memory). g p) same
      go (inr entry) d fault e =
          let done : relocate_one fuel l si needed r ≡ fault = rw (entry, e) in cc
      go (inr entry) d spin e =
          let done : relocate_one fuel l si needed r ≡ spin = rw (entry, e) in cc
      go (inr entry) d (ok none) e =
          let done : relocate_one fuel l si needed r ≡ ok none = rw (entry, e) in cc
      go (inr entry) (inl copy) (ok (some v)) e =
          let done : relocate_one fuel l si needed r ≡ ok none =
            rw (entry, e, copy) (copy_relocation-library (r_sym r) target v library) in
          cc
      go (inr entry) (inr word_type) (ok (some v)) e =
          let value =
            relocated (r_type r) (r_sym r) (load32 memory target) v.sym_addr r.r_offset
              (l.infos si).base in
          let done : relocate_one fuel l si needed r ≡ ok (write_word memory target value) =
            rw (entry, e, word_type) in
          let wrote : write_word memory target value ≡ some m = cc in
          write_word-frame memory m target p value wrote small away

  -- An entry of a word type whose symbol is resolved writes its value at its place.
  relocate_one-written :
      (v : Resolved) (w : ℕ)
      → resolve fuel l si needed (r_type r) (r_sym r) ≡ ok (some v)
      → r_type r ≢ r_arm_none
      → r_type r ≢ r_arm_copy
      → relocated
          (r_type r)
          (r_sym r)
          (load32 l.space.memory target)
          v.sym_addr
          r.r_offset
          (l.infos si).base
        ≡ some w
      → relocate_one fuel l si needed r ≡ ok (some (store32 l.space.memory target w))
  unfolding relocate_one
  relocate_one-written v w resolved real word_type value =
      let not_none : (r_type r == r_arm_none) ≡ false = ground arith in
      let not_copy : (r_type r == r_arm_copy) ≡ false = ground arith in
      rw (not_none, resolved, not_copy, value)

  -- With its symbol resolved to a word S, with A in the word at its place P, and with words for the
  -- offset and the load bias, an entry of one of the types JUMP_SLOT, GLOB_DAT, ABS32 and REL32
  -- succeeds, and leaves in that word S for the first two, S + A for ABS32, and for REL32 the load
  -- bias more than S + A - P.
  pub relocate_one-elf_value :
      (v : Resolved) (w : ℕ)
      → resolve fuel l si needed (r_type r) (r_sym r) ≡ ok (some v)
      → v.sym_addr < 2 ^ 32
      → (l.infos si).load_bias < 2 ^ 32
      → r.r_offset < 2 ^ 32
      → elf_value (r_type r) v.sym_addr (load32 l.space.memory target) target ≡ some w
      → (m : Memory) × (relocate_one fuel l si needed r ≡ ok (some m))
        × (load32 m target
            ≡ (if r_type r == r_arm_rel32 then add32 w (l.infos si).load_bias else w))
  relocate_one-elf_value v w resolved s_word bias_word offset_word value =
      let spec =
        relocated-elf_value (r_type r) (r_sym r) (load32 l.space.memory target) v.sym_addr
          r.r_offset (l.infos si).load_bias (l.infos si).base w (load32-lt l.space.memory target)
          s_word offset_word bias_word value in
      let u : ℕ = if r_type r == r_arm_rel32 then add32 w (l.infos si).load_bias else w in
      (
        store32 l.space.memory target u,
        relocate_one-written v u resolved spec.2 spec.3 spec.0,
        load32-store32 l.space.memory target u spec.1,
      )

  -- A RELATIVE entry without a symbol succeeds; it adds the library's base to the word at its place
  -- and changes no other byte.
  pub relocate_one-relative :
      r_type r ≡ r_arm_relative
      → r_sym r ≡ 0
      → (m : Memory) × (relocate_one fuel l si needed r ≡ ok (some m))
        × (load32 m target ≡ add32 (load32 l.space.memory target) (l.infos si).base)
        × ((p : ℕ) → p < 2 ^ 32 → 4 ≤ sub32 p target → m p ≡ l.space.memory p)
  unfolding resolve relocated
  relocate_one-relative kind no_sym =
      let u : ℕ = add32 (load32 l.space.memory target) (l.infos si).base in
      (
        store32 l.space.memory target u,
        relocate_one-written (record { sym_addr = 0; s = none }) u (ground arith) (omega arith)
            (omega arith) (ground arith),
        load32-store32 l.space.memory target u (omega arith),
        λ p small away. store32_other l.space.memory target u p small away,
      )
