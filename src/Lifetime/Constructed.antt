-- ===== src/Lifetime/Constructed.antt =====
-- The mark that keeps CallConstructors from running twice on a library.
use Prim.Native.Nat.{bit_or}
use and_emu.Base.{
  ℕ, zero, suc, ◌≡◌, sym, ap, ◌∙◌, subst, inl, inr, Bool, true, ◌||◌, arith, ◌==◌, if◌then◌else◌,
  Bool-cases,
}
use and_emu.Base.Exec.{ok, >>=-eq-ok}
use and_emu.Base.Word.{minus_one}
use and_emu.Kernel.{Kernel, prot_read, prot_write}
use and_emu.Library.{with_space, with_info}
use and_emu.Lifetime.{writable, call_function, call_constructors}
use and_emu.Lifetime.Respects.{constructors-cases, go_on-Respects, call_constructors-Respects}
use and_emu.Register.{set_pool_protection}
use and_emu.SoInfo.{Infos, update, Linker}

abbrev pub IsConstructed : Linker → ℕ → Type 0
IsConstructed l q = (l.infos q).constructors_called ≡ true

-- Every library that was marked is marked.
abbrev KeepsMarks : Linker → Linker → Type 0
KeepsMarks l l' = (q : ℕ) → IsConstructed l q → IsConstructed l' q

module _ (k : Kernel) (native : Bool) where
  pub call_function-infos :
      (f : ℕ) (l l' : Linker) → call_function k native f l ≡ ok l' → l'.infos ≡ l.infos
  unfolding call_function
  call_function-infos f l l' e = elim (Bool-cases (f == 0 || f == minus_one)) [
    | inl null ↦
        let passed : call_function k native f l ≡ ok l = rw (null, call_function) in
        let both : ok l ≡ ok l' = sym passed ∙ e in
        let same : l ≡ l' = cc in ap (λ (t : Linker). t.infos) (sym same)
    | inr called ↦
        let run : call_function k native f l
            ≡ writable k native (with_space l (if native then k.call f l.space else l.space)) =
          rw (called, call_function) in
        let (s, at, e') =
          >>=-eq-ok
            (set_pool_protection k (bit_or prot_read prot_write) l.pools
              (if native then k.call f l.space else l.space))
            (λ t. ok (with_space l t)) (sym run ∙ e) in
        let same : with_space l s ≡ l' = cc in ap (λ (t : Linker). t.infos) (sym same)
  ]

  call_function-KeepsMarks :
      (f : ℕ) (l l' : Linker) → call_function k native f l ≡ ok l' → KeepsMarks l l'
  call_function-KeepsMarks f l l' e q mark =
      ap (λ (i : Infos). (i q).constructors_called) (call_function-infos f l l' e) ∙ mark

  -- Marking a library unmarks none.
  marked-KeepsMarks :
      (l : Linker) (si q : ℕ)
      → IsConstructed l q
      → IsConstructed (with_info l si (record (l.infos si) { constructors_called = true })) q
  unfolding update
  marked-KeepsMarks l si q mark = elim (Bool-cases (q == si)) [
    | inl same ↦ rw same
    | inr other ↦ rw other mark
  ]

  marks_itself :
      (l : Linker) (si : ℕ)
      → IsConstructed (with_info l si (record (l.infos si) { constructors_called = true })) si
  unfolding update
  marks_itself l si = ground arith

module _ (k : Kernel) (native : Bool) (fuel : ℕ) where
  -- Constructors unmark no library.
  call_constructors-KeepsMarks :
      (depth si : ℕ) (l l' : Linker)
      → call_constructors k native fuel depth si l ≡ ok l'
      → KeepsMarks l l'
  call_constructors-KeepsMarks =
      call_constructors-Respects k native KeepsMarks (λ l q mark. mark)
        (λ l l' l'' a b q mark. b q (a q mark)) (call_function-KeepsMarks k native) fuel
        (λ l si q. marked-KeepsMarks k native l si q)

  pub call_constructors-marks :
      (depth si : ℕ) (l l' : Linker)
      → call_constructors k native fuel depth si l ≡ ok l'
      → IsConstructed l' si
  unfolding call_constructors
  call_constructors-marks zero si l l' e = cc
  call_constructors-marks (suc depth) si l l' e =
      elim (constructors-cases k native fuel depth si l l' e) [
        | inl (called, same) ↦ subst (λ (t : Linker). IsConstructed t si) same called
        | inr run ↦
            go_on-Respects k native KeepsMarks (λ l q mark. mark)
              (λ l l' l'' a b q mark. b q (a q mark)) (call_function-KeepsMarks k native) fuel
              (λ l si q. marked-KeepsMarks k native l si q) depth si (l.infos si).dynamic
              (call_constructors-KeepsMarks depth)
              (with_info l si (record (l.infos si) { constructors_called = true })) l' run si
              (marks_itself k native l si)
      ]

  -- Once CallConstructors has returned for a library, a later run for any library leaves every
  -- library marked that was marked, and a later run for the same library does nothing.
  pub call_constructors-once :
      (depth si : ℕ) (l l' : Linker)
      → call_constructors k native fuel depth si l ≡ ok l'
      → ((depth' other : ℕ) (l2 : Linker)
          → call_constructors k native fuel depth' other l' ≡ ok l2
          → (q : ℕ) → IsConstructed l' q
          → IsConstructed l2 q)
        × ((depth' : ℕ) → call_constructors k native fuel (suc depth') si l' ≡ ok l')
  unfolding call_constructors
  call_constructors-once depth si l l' e = (
    (λ depth' other l2 run q mark. call_constructors-KeepsMarks depth' other l' l2 run q mark),
    (λ depth'. again depth' (call_constructors-marks depth si l l' e)),
  )
    where
      again :
          (depth' : ℕ)
          → IsConstructed l' si
          → call_constructors k native fuel (suc depth') si l' ≡ ok l'
      again depth' mark = rw (mark, call_constructors)
