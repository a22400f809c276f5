-- ===== src/Reader/TableAddress.antt =====
-- Where the loaded table of program headers is, as FindPhdr finds it.
use and_emu.Base.{
  ℕ, ◌^◌, ◌<◌, ◌≡◌, refl, sym, ap, ◌∙◌, subst, ◌≢◌, ◌↔◌, ◌⊎◌, inl, inr, true, false, Option, none,
  some, List, [], ◌∷◌, ◌++◌, arith, ◌==◌, if◌then◌else◌, Bool-cases, All,
}
use and_emu.Base.Word.{add32}
use and_emu.Elf.{pt_load, pt_phdr, Phdr, ehdr_at}
use and_emu.Memory.{Memory}
use and_emu.Reader.{first_of_type, phdr_address}

-- `p` is the first header of a type.
abbrev pub IsFirst : ℕ → List Phdr → Phdr → Type 0
IsFirst type ps p =
    (front back : List Phdr) × (ps ≡ front ++ p ∷ back)
    × All (λ q. q.p_type ≢ type) front
    × (p.p_type ≡ type)

-- The address of the table: the one that the first PT_PHDR gives, or, without a PT_PHDR, what the
-- ELF header says that the first loadable segment starts with, if that has offset 0 in the file.
abbrev pub TableAddress : List Phdr → ℕ → Memory → ℕ → Type 0
TableAddress ps bias m loaded =
    ((p : Phdr) × IsFirst pt_phdr ps p × (loaded ≡ add32 bias p.p_vaddr))
    ⊎ (All (λ q. q.p_type ≢ pt_phdr) ps
        × ((p : Phdr) × IsFirst pt_load ps p
            × (p.p_offset ≡ 0)
            × (loaded ≡ add32 (add32 bias p.p_vaddr) (ehdr_at m (add32 bias p.p_vaddr)).e_phoff)))

first_of_type-IsFirst :
    (type : ℕ) (ps : List Phdr) (p : Phdr) → first_of_type type ps ≡ some p → IsFirst type ps p
unfolding first_of_type
first_of_type-IsFirst type [] p e = cc
first_of_type-IsFirst type (q ∷ qs) p e = elim (Bool-cases (q.p_type == type)) [
  | inl hit ↦
      let here : some q ≡ some p = rw hit at e in
      let same : q ≡ p = ap (λ (o : Option Phdr). elim o [ none ↦ q | some x ↦ x ]) here in
      subst (IsFirst type (q ∷ qs)) same ([], qs, refl, tt, ground arith)
  | inr miss ↦
      let (front, back, split, none_before, typed) =
        first_of_type-IsFirst type qs p (rw miss at e) in
      (
        q ∷ front,
        back,
        ap (λ (xs : List Phdr). q ∷ xs) split,
        (λ here. ground arith, none_before),
        typed,
      )
]

IsFirst-first_of_type :
    (type : ℕ) (ps : List Phdr) (p : Phdr) → IsFirst type ps p → first_of_type type ps ≡ some p
unfolding first_of_type
IsFirst-first_of_type type ps p (front, back, split, none_before, typed) =
    ap (first_of_type type) split ∙ at front none_before
  where
    at :
        (front : List Phdr)
        → All (λ q. q.p_type ≢ type) front
        → first_of_type type (front ++ p ∷ back) ≡ some p
    at [] none_ = let hit : (p.p_type == type) ≡ true = ground arith in rw hit
    at (q ∷ qs) none_ =
        let miss : (q.p_type == type) ≡ false = ground (arith, none_.0) in rw miss (at qs none_.1)

first_of_type-none :
    (type : ℕ) (ps : List Phdr) → first_of_type type ps ≡ none → All (λ q. q.p_type ≢ type) ps
unfolding first_of_type
first_of_type-none type [] e = tt
first_of_type-none type (q ∷ qs) e = elim (Bool-cases (q.p_type == type)) [
  | inl hit ↦ let both : some q ≡ none = rw hit at e in cc
  | inr miss ↦ (λ here. ground arith, first_of_type-none type qs (rw miss at e))
]

none-first_of_type :
    (type : ℕ) (ps : List Phdr) → All (λ q. q.p_type ≢ type) ps → first_of_type type ps ≡ none
unfolding first_of_type
none-first_of_type type [] all = refl
none-first_of_type type (q ∷ qs) all =
    let miss : (q.p_type == type) ≡ false = ground (arith, all.0) in
    rw miss (none-first_of_type type qs all.1)

module _ (ps : List Phdr) (bias : ℕ) (m : Memory) (loaded : ℕ) where
  behind_header : Phdr → Option ℕ
  behind_header p =
      if p.p_offset == 0
      then some (add32 (add32 bias p.p_vaddr) (ehdr_at m (add32 bias p.p_vaddr)).e_phoff)
      else none

  by_load : Option Phdr → Option ℕ
  by_load o = elim o [ none ↦ none | some p ↦ behind_header p ]

  by_phdr : Option Phdr → Option ℕ
  by_phdr o = elim o [
    | some p ↦ some (add32 bias p.p_vaddr)
    | none ↦ by_load (first_of_type pt_load ps)
  ]

  phdr_address-by_phdr : phdr_address ps bias m ≡ by_phdr (first_of_type pt_phdr ps)
  unfolding phdr_address by_phdr by_load behind_header
  phdr_address-by_phdr = refl

  value_is : (a b : ℕ) → ◌≡◌ {A = Option ℕ} (some a) (some b) → b ≡ a
  value_is a b e = sym (ap (λ (o : Option ℕ). elim o [ none ↦ a | some x ↦ x ]) e)

  load-TableAddress :
      All (λ q. q.p_type ≢ pt_phdr) ps
      → (o : Option Phdr) → first_of_type pt_load ps ≡ o
      → by_load o ≡ some loaded
      → TableAddress ps bias m loaded
  unfolding by_load behind_header
  load-TableAddress without none first e = cc
  load-TableAddress without (some p) first e = elim (Bool-cases (p.p_offset == 0)) [
    | inl start ↦ inr (
      without,
      (
        p,
        first_of_type-IsFirst pt_load ps p first,
        ground arith,
        value_is _ loaded (rw start at e),
      ),
    )
    | inr other ↦ let both : ◌≡◌ {A = Option ℕ} none (some loaded) = rw other at e in cc
  ]

  to-TableAddress :
      (o : Option Phdr)
      → first_of_type pt_phdr ps ≡ o
      → by_phdr o ≡ some loaded
      → TableAddress ps bias m loaded
  unfolding by_phdr
  to-TableAddress (some p) first e =
      inl (p, first_of_type-IsFirst pt_phdr ps p first, value_is _ loaded e)
  to-TableAddress none first e =
      load-TableAddress (first_of_type-none pt_phdr ps first) (first_of_type pt_load ps) refl e

  -- phdr_address gives an address exactly if it is the table's.
  pub phdr_address_iff : (phdr_address ps bias m ≡ some loaded) ↔ TableAddress ps bias m loaded
  unfolding by_phdr by_load behind_header
  phdr_address_iff =
      ((λ e. to-TableAddress (first_of_type pt_phdr ps) refl (sym phdr_address-by_phdr ∙ e)), from)
    where
      from : TableAddress ps bias m loaded → phdr_address ps bias m ≡ some loaded
      from (inl (p, first, at)) =
          phdr_address-by_phdr
          ∙ ap by_phdr (IsFirst-first_of_type pt_phdr ps p first)
          ∙ ap some (sym at)
      from (inr (without, (p, first, start, at))) =
          let zero_ : (p.p_offset == 0) ≡ true = ground (arith, start) in
          let here : behind_header p ≡ some loaded = rw zero_ (ap some (sym at)) in
          phdr_address-by_phdr
          ∙ ap by_phdr (none-first_of_type pt_phdr ps without)
          ∙ ap by_load (IsFirst-first_of_type pt_load ps p first)
          ∙ here

pub TableAddress-lt :
    (ps : List Phdr) (bias : ℕ) (m : Memory) (loaded : ℕ)
    → TableAddress ps bias m loaded
    → loaded < 2 ^ 32
TableAddress-lt ps bias m loaded (inl (p, first, at)) = omega (arith, at)
TableAddress-lt ps bias m loaded (inr (without, (p, first, start, at))) = omega (arith, at)
