-- ===== src/Reader/Check.antt =====
-- FindPhdr and CheckPhdr: what the loaded table of program headers has to lie in.
use and_emu.Base.{
  ℕ, ◌+◌, ◌*◌, ◌^◌, ◌≤◌, ◌<◌, ◌≡◌, sym, ap, ◌∙◌, subst, ◌↔◌, ◌⊎◌, inl, inr, Bool, true, false, some,
  List, [], ◌∷◌, arith, Bool-cases, Option-cases, All, Any,
}
use and_emu.Base.Word.{add32}
use and_emu.Elf.{pt_load, Phdr, sizeof_phdr}
use and_emu.Kernel.{Space}
use and_emu.Reader.{
  ElfReader, headers, Outcome, pass, stop, segment_holds, any_holds, check_phdr, phdr_address,
  find_phdr,
}
use and_emu.Reader.TableAddress.{TableAddress, phdr_address_iff, TableAddress-lt}

-- The segment's part of the file ends below 2 ^ 32.
abbrev pub FileEnds : ℕ → Phdr → Type 0
FileEnds bias p = p.p_type ≡ pt_load → add32 p.p_vaddr bias + p.p_filesz < 2 ^ 32

-- The table of program headers at `loaded` lies in the file's part of a loadable segment, on numbers
-- that do not wrap.
abbrev pub HoldsTable : ElfReader → ℕ → Phdr → Type 0
HoldsTable r loaded p =
    (p.p_type ≡ pt_load)
    × (add32 p.p_vaddr r.load_bias ≤ loaded)
    × (loaded + r.phdr_num * sizeof_phdr ≤ add32 p.p_vaddr r.load_bias + p.p_filesz)

-- The table starts behind the start of a loadable segment, reaches the end of the address space or goes on
-- past it, and ends from address 0 on before the file's part of the segment does.
abbrev pub WrapsRound : ElfReader → ℕ → Phdr → Type 0
WrapsRound r loaded p =
    (p.p_type ≡ pt_load)
    × (add32 p.p_vaddr r.load_bias ≤ loaded)
    × (2 ^ 32 ≤ loaded + r.phdr_num * sizeof_phdr)
    × (loaded + r.phdr_num * sizeof_phdr ≤ 2 ^ 32 + add32 p.p_vaddr r.load_bias + p.p_filesz)

abbrev pub LetThrough : ElfReader → ℕ → Phdr → Type 0
LetThrough r loaded p = HoldsTable r loaded p ⊎ WrapsRound r loaded p

module _ (r : ElfReader) (few : r.phdr_num ≤ 2048) (loaded : ℕ) (small : loaded < 2 ^ 32) where
  abbrev loaded_end : ℕ
  loaded_end = add32 loaded (r.phdr_num * sizeof_phdr)

  segment_holds_iff :
      (p : Phdr)
      → FileEnds r.load_bias p
      → (segment_holds r.load_bias loaded loaded_end p ≡ true) ↔ LetThrough r loaded p
  unfolding segment_holds
  segment_holds_iff p fits = ground (arith, fits)

  any_holds_iff :
      (ps : List Phdr)
      → All (FileEnds r.load_bias) ps
      → (any_holds r.load_bias loaded loaded_end ps ≡ true) ↔ Any (LetThrough r loaded) ps
  unfolding any_holds
  any_holds_iff [] fits = (λ e. cc, λ any. absurd any)
  any_holds_iff (p ∷ ps) fits =
      let here = segment_holds_iff p fits.0 in
      let (to, from) = any_holds_iff ps fits.1 in
      (
        (λ e. elim (Bool-cases (segment_holds r.load_bias loaded loaded_end p)) [
          | inl hit ↦ inl (here.0 hit)
          | inr miss ↦ inr (to (rw miss at e))
        ]),
        (λ any. elim any [
          | inl first ↦ let hit = here.1 first in rw hit
          | inr rest ↦ elim (Bool-cases (segment_holds r.load_bias loaded loaded_end p)) [
            | inl hit ↦ rw hit
            | inr miss ↦ rw miss (from rest)
          ]
        ]),
      )

any_holds_at : ElfReader → Space → ℕ → Bool
any_holds_at r s a = any_holds r.load_bias a (add32 a (r.phdr_num * sizeof_phdr)) (headers r s)

module _ (r : ElfReader) (s : Space) (loaded : ℕ) where
  passes :
      (a : ℕ) → any_holds_at r s a ≡ true → check_phdr a r s ≡ pass (record r { loaded_phdr = a }) s
  unfolding any_holds_at check_phdr
  passes a holds = rw (holds, check_phdr)

  stops : (a : ℕ) → any_holds_at r s a ≡ false → check_phdr a r s ≡ stop r s
  unfolding any_holds_at check_phdr
  stops a fails = rw (fails, check_phdr)

  pass_address :
      (a : ℕ)
      → ◌≡◌ {A = Outcome}
          (pass (record r { loaded_phdr = a }) s)
          (pass (record r { loaded_phdr = loaded }) s)
      → a ≡ loaded
  pass_address a both =
      let same : record r { loaded_phdr = a } ≡ record r { loaded_phdr = loaded } = cc in
      ap (λ (t : ElfReader). t.loaded_phdr) same

  not_stop : ◌≡◌ {A = Outcome} (stop r s) (pass (record r { loaded_phdr = loaded }) s) → ⊥
  not_stop both = cc

  checked :
      (a : ℕ)
      → check_phdr a r s ≡ pass (record r { loaded_phdr = loaded }) s
      → (a ≡ loaded) × (any_holds_at r s loaded ≡ true)
  checked a run = elim (Bool-cases (any_holds_at r s a)) [
    | inl holds ↦
        let same : a ≡ loaded = pass_address a (sym (passes a holds) ∙ run) in
        (same, subst (λ (t : ℕ). any_holds_at r s t ≡ true) same holds)
    | inr fails ↦ absurd (not_stop (sym (stops a fails) ∙ run))
  ]

  find_phdr-holds : (find_phdr r s ≡ pass (record r { loaded_phdr = loaded }) s) ↔ (
      (phdr_address (headers r s) r.load_bias s.memory ≡ some loaded)
      × (any_holds_at r s loaded ≡ true))
  unfolding find_phdr
  find_phdr-holds = (
    to,
    λ (at, holds).
        let go : find_phdr r s ≡ check_phdr loaded r s = rw (at, find_phdr) in
        go ∙ passes loaded holds,
  )
    where
      to :
          find_phdr r s ≡ pass (record r { loaded_phdr = loaded }) s
          → (phdr_address (headers r s) r.load_bias s.memory ≡ some loaded)
            × (any_holds_at r s loaded ≡ true)
      to run = elim (Option-cases (phdr_address (headers r s) r.load_bias s.memory)) [
        | inl none_ ↦
            let stopped : find_phdr r s ≡ stop r s = rw (none_, find_phdr) in
            absurd (not_stop (sym stopped ∙ run))
        | inr (a, at) ↦
            let go : find_phdr r s ≡ check_phdr a r s = rw (at, find_phdr) in
            let (same, holds) = checked a (sym go ∙ run) in (at ∙ ap some same, holds)
      ]

  pub find_phdr_iff :
      r.phdr_num ≤ 2048
      → All (FileEnds r.load_bias) (headers r s)
      → (find_phdr r s ≡ pass (record r { loaded_phdr = loaded }) s) ↔ (
          TableAddress (headers r s) r.load_bias s.memory loaded
          × Any (LetThrough r loaded) (headers r s))
  unfolding any_holds_at
  find_phdr_iff few fits = (
    (λ run.
        let (at, holds) = find_phdr-holds.0 run in
        let table = (phdr_address_iff (headers r s) r.load_bias s.memory loaded).0 at in
        (
          table,
          (any_holds_iff r few loaded
                (TableAddress-lt (headers r s) r.load_bias s.memory loaded table) (headers r s)
                fits).0
              holds,
        )),
    (λ (table, any). find_phdr-holds.1 (
      (phdr_address_iff (headers r s) r.load_bias s.memory loaded).1 table,
      (any_holds_iff r few loaded (TableAddress-lt (headers r s) r.load_bias s.memory loaded table)
            (headers r s) fits).1
          any,
    )),
  )
