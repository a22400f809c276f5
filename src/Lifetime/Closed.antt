-- ===== src/Lifetime/Closed.antt =====
-- soinfo_unload and do_dlclose keep the register, and take libraries out of it at most.
use mathlib.Core.List.Sublist
use Prim.Native.Nat.{bit_or}
use and_emu.Base.{
  ℕ, zero, suc, ◌≡◌, refl, sym, ap, ◌∙◌, subst, ◌⊎◌, inl, inr, Bool, true, false, List, [], ◌∷◌,
  ◌++◌, arith, ◌==◌, if◌then◌else◌, ==_iff, Bool-cases, ◌∈◌,
}
use and_emu.Base.Exec.{Exec, ok, fault, ◌>>=◌, >>=-eq-ok, ok-injective}
use and_emu.Base.Word.{sub32}
use and_emu.Kernel.{Kernel, prot_read, prot_write}
use and_emu.Library.{with_space, with_info}
use and_emu.Library.Linking.{SpaceOnly}
use and_emu.Lifetime.{
  closed_quietly, is_one_of, writable, read_only, call_function, call_destructors, each_needed,
  unload_last, soinfo_unload, do_dlclose,
}
use and_emu.Lifetime.Kept.{
  SameImage, SameImage-trans, SameImage-of_library, SameRegister, SameRegister-refl,
  SameRegister-space, SameRegister-info, protect_pools-SpaceOnly, call_function-SameRegister,
}
use and_emu.Lifetime.Respects.{call_destructors-Respects, each_needed-Respects}
use and_emu.Register.{set_pool_protection, soinfo_free}
use and_emu.Register.Free.{soinfo_free-head, soinfo_free-absent}
use and_emu.Register.Placed.{KeepsPools, IsPlaced, soinfo_free-IsPlaced}
use and_emu.SoInfo.{Linker}
use mathlib.Core.List.{Sublist}

-- A library of the list splits it.
split_at :
    (si : ℕ) (xs : List ℕ)
    → (((front : List ℕ) × (back : List ℕ) × (xs ≡ front ++ si ∷ back))) ⊎ (¬ (si ∈ xs))
split_at si [] = inr (λ m. absurd m)
split_at si (x ∷ xs) = elim (Bool-cases (si == x)) [
  | inl here ↦ inl ([], xs, ap (λ (q : ℕ). q ∷ xs) (sym ((==_iff si x).0 here)))
  | inr other ↦ elim (split_at si xs) [
    | inl (front, back, same) ↦ inl (x ∷ front, back, ap (λ (ys : List ℕ). x ∷ ys) same)
    | inr apart ↦ inr (λ m. elim m [ inl e ↦ ground arith | inr later ↦ apart later ])
  ]
]

Sublist-insert : (si : ℕ) (xs ys : List ℕ) → Sublist (xs ++ ys) (xs ++ si ∷ ys)
Sublist-insert si xs ys = Sublist.append (Sublist.refl xs) (Sublist.cons si (Sublist.refl ys))

module _ (Held : ℕ → ℕ → Type 0) where
  -- A register stays one, with the same head and in the same order, but some libraries may be gone.
  abbrev pub Shrunk : Linker → Linker → Type 0
  Shrunk l l' =
      (xs fs : List ℕ)
      → IsPlaced Held l xs fs
      → (ys : List ℕ) × (gs : List ℕ) × IsPlaced Held l' ys gs
        × Sublist ys xs
        × (l'.solist ≡ l.solist)
        × ((q : ℕ) → SameImage (l.infos q) (l'.infos q))

  Shrunk-same : (l l' : Linker) → SameRegister Held l l' → Shrunk l l'
  Shrunk-same l l' (keeps, head, same) xs fs placed =
      (xs, fs, keeps xs fs placed, Sublist.refl xs, head, same)

  Shrunk-trans : (l l' l'' : Linker) → Shrunk l l' → Shrunk l' l'' → Shrunk l l''
  Shrunk-trans l l' l'' first second xs fs placed =
      let (ys, gs, placed', within, head, same) = first xs fs placed in
      let (zs, hs, placed'', within', head', same') = second ys gs placed' in
      (
        zs,
        hs,
        placed'',
        Sublist.trans within' within,
        head' ∙ head,
        (λ q. SameImage-trans (l.infos q) (l'.infos q) (l''.infos q) (same q) (same' q)),
      )

  Shrunk-refl : (l : Linker) → Shrunk l l
  Shrunk-refl l = Shrunk-same l l (SameRegister-refl Held l)

  soinfo_free-Shrunk : (fuel si : ℕ) (l l' : Linker) → soinfo_free fuel si l ≡ ok l' → Shrunk l l'
  soinfo_free-Shrunk fuel si l l' e xs fs placed = elim (split_at si xs) [
    | inl (front, back, split) ↦
        let (placed', head, same) =
          soinfo_free-IsPlaced Held fuel si l l' front back fs
            (subst (λ (ys : List ℕ). IsPlaced Held l ys fs) split placed) e in
        (
          front ++ back,
          si ∷ fs,
          placed',
          subst (Sublist (front ++ back)) (sym split) (Sublist-insert si front back),
          head,
          (λ q. SameImage-of_library (l.infos q) (l'.infos q) (same q)),
        )
    | inr apart ↦ elim (Bool-cases (si == l.solist)) [
      | inl first ↦ absurd (
          soinfo_free-head l l' xs fs fuel placed.0
            (subst (λ (q : ℕ). soinfo_free fuel q l ≡ ok l') ((==_iff si l.solist).0 first) e))
      | inr other ↦
          let unlisted : ¬ (si ∈ (l.solist ∷ xs)) =
            λ m. elim m [ inl here ↦ ground arith | inr later ↦ apart later ] in
          subst (λ (t : Linker). Shrunk l t)
            (soinfo_free-absent l l' si xs fs fuel placed.0 unlisted e) (Shrunk-refl l) xs fs placed
    ]
  ]

module _ (k : Kernel) (Held : ℕ → ℕ → Type 0) (pools : KeepsPools k Held) (native : Bool)
    (fuel : ℕ) where
  calls-Shrunk : (f : ℕ) (l l' : Linker) → call_function k native f l ≡ ok l' → Shrunk Held l l'
  calls-Shrunk f l l' e =
      Shrunk-same Held l l' (call_function-SameRegister k Held pools native f l l' e)

  destructors-Shrunk :
      (si : ℕ) (quiet : Bool) (l l' : Linker)
      → (if quiet then ok l else call_destructors k native si l) ≡ ok l'
      → Shrunk Held l l'
  destructors-Shrunk si true l l' e = subst (Shrunk Held l) (ok-injective e) (Shrunk-refl Held l)
  destructors-Shrunk si false l l' e =
      call_destructors-Respects k native (Shrunk Held) (Shrunk-refl Held) (Shrunk-trans Held)
        calls-Shrunk si l l' e

  -- What unloads a library maybe takes libraries out.
  abbrev Unloads : (ℕ → Linker → Exec Linker) → Type 0
  Unloads unload = (si : ℕ) (l l' : Linker) → unload si l ≡ ok l' → Shrunk Held l l'

  needed-Shrunk :
      (unload : ℕ → Linker → Exec Linker)
      → Unloads unload
      → (si at : ℕ) (null : Bool) (l l' : Linker)
      → (if null then fault else each_needed k native fuel unload fuel si at l) ≡ ok l'
      → Shrunk Held l l'
  needed-Shrunk unload unloads si at true l l' e = cc
  needed-Shrunk unload unloads si at false l l' e =
      each_needed-Respects k native (Shrunk Held) (Shrunk-refl Held) (Shrunk-trans Held)
        calls-Shrunk fuel unload unloads fuel si at l l' e

  -- The memory is given back, the entry freed and its count set to 0.
  released-Shrunk :
      (si : ℕ) (l l' : Linker)
      → (soinfo_free fuel si (with_space l (k.munmap (l.infos si).base (l.infos si).size l.space))
          >>= λ l₃. ok (with_info l₃ si (record (l₃.infos si) { ref_count = 0 })))
        ≡ ok l'
      → Shrunk Held l l'
  released-Shrunk si l l' e =
      let unmapped = with_space l (k.munmap (l.infos si).base (l.infos si).size l.space) in
      let (l₃, run, end) =
        >>=-eq-ok (soinfo_free fuel si unmapped)
          (λ l₃. ok (with_info l₃ si (record (l₃.infos si) { ref_count = 0 }))) e in
      let lasts : SpaceOnly Held l unmapped = (
        unmapped.space,
        refl,
        (λ x. (pools.lasting x).munmap_lasts (l.infos si).base (l.infos si).size l.space),
      ) in
      let cleared = with_info l₃ si (record (l₃.infos si) { ref_count = 0 }) in
      subst (Shrunk Held l) (ok-injective end) (
        Shrunk-trans Held l unmapped cleared
          (Shrunk-same Held l unmapped (SameRegister-space Held l unmapped lasts))
          (Shrunk-trans Held unmapped l₃ cleared (soinfo_free-Shrunk Held fuel si unmapped l₃ run) (
            Shrunk-same Held l₃ cleared
              (SameRegister-info Held l₃ si (record (l₃.infos si) { ref_count = 0 }) refl refl))))

  unload_last-Shrunk :
      (unload : ℕ → Linker → Exec Linker)
      → Unloads unload
      → Unloads (unload_last k native fuel unload)
  unfolding unload_last
  unload_last-Shrunk unload unloads si l l' e =
      let (l₁, first, run) =
        >>=-eq-ok
          (if is_one_of closed_quietly (l.infos si).name
            then ok l
            else call_destructors k native si l)
          _ e in
      let (l₂, second, rest) =
        >>=-eq-ok
          (if (l₁.infos si).dynamic == 0
            then fault
            else each_needed k native fuel unload fuel si (l₁.infos si).dynamic l₁)
          _ run in
      Shrunk-trans Held l l₁ l'
        (destructors-Shrunk si (is_one_of closed_quietly (l.infos si).name) l l₁ first)
        (Shrunk-trans Held l₁ l₂ l'
          (needed-Shrunk unload unloads si (l₁.infos si).dynamic ((l₁.infos si).dynamic == 0) l₁ l₂
            second)
          (released-Shrunk si l₂ l' rest))

  soinfo_unload-Shrunk : (depth : ℕ) → Unloads (soinfo_unload k native fuel depth)
  unfolding soinfo_unload
  soinfo_unload-Shrunk zero si l l' e = cc
  soinfo_unload-Shrunk (suc depth) si l l' e =
      let ih = soinfo_unload-Shrunk depth in
      elim (Bool-cases ((l.infos si).ref_count == 1)) [
        | inl last ↦
            unload_last-Shrunk (soinfo_unload k native fuel depth) ih si l l'
              (rw (last, soinfo_unload) at e)
        | inr shared ↦
            let counted = record (l.infos si) { ref_count = sub32 (l.infos si).ref_count 1 } in
            subst (Shrunk Held l) (ok-injective (rw (shared, soinfo_unload) at e)) (
              Shrunk-same Held l (with_info l si counted)
                (SameRegister-info Held l si counted refl refl))
      ]

  -- do_dlclose on a register, where it returns, leaves a register, with the same head and of the
  -- same images; the libraries left are in the same order, and none is new.
  pub do_dlclose-Shrunk :
      (depth si : ℕ) (l l' : Linker)
      → do_dlclose k native fuel depth si l ≡ ok l'
      → Shrunk Held l l'
  unfolding do_dlclose
  do_dlclose-Shrunk depth si l l' e = elim (Bool-cases (si == 0)) [
    | inl null ↦ absurd (not_ok (rw null at e))
    | inr given ↦
        let (l₁, opened, run) = >>=-eq-ok (writable k native l) _ (rw given at e) in
        let (l₂, unloaded, last) =
          >>=-eq-ok (soinfo_unload k native fuel depth si l₁) (λ t. read_only k native t) run in
        Shrunk-trans Held l l₁ l' (around (bit_or prot_read prot_write) l l₁ opened) (
          Shrunk-trans Held l₁ l₂ l' (soinfo_unload-Shrunk depth si l₁ l₂ unloaded)
            (around prot_read l₂ l' last))
  ]
    where
      not_ok : ◌≡◌ {A = Exec Linker} fault (ok l') → ⊥
      not_ok run = cc

      around :
          (prot : ℕ) (t t' : Linker)
          → (set_pool_protection k prot t.pools t.space >>= λ s. ok (with_space t s)) ≡ ok t'
          → Shrunk Held t t'
      around prot t t' run =
          Shrunk-same Held t t'
            (SameRegister-space Held t t' (protect_pools-SpaceOnly k Held pools prot t t' run))
