-- ===== src/Lifetime/Opened.antt =====
-- do_dlopen keeps the register, whether or not it opens the library.
use Prim.Native.Nat.{bit_and, bit_or}
use and_emu.Base.{
  ℕ, ◌-◌, ◌≡◌, refl, sym, ◌∙◌, subst, ◌⊎◌, inl, inr, Bool, true, ◌||◌, List, [], ◌∷◌, ◌++◌, ◌==◌,
  ◌!=◌, if◌then◌else◌, Bool-cases, ◌∈◌,
}
use and_emu.Base.Exec.{Exec, ok, ◌>>=◌, >>=-eq-ok, ok-injective}
use and_emu.Base.Word.{minus_one}
use and_emu.Kernel.{Kernel, prot_read, prot_write}
use and_emu.Library.{find_library}
use and_emu.Library.Growth.{find_library-Searched}
use and_emu.Library.Linking.{Searched}
use and_emu.Lifetime.{
  opened_quietly, is_one_of, writable, read_only, call_constructors, rtld_known, do_dlopen,
}
use and_emu.Lifetime.Kept.{
  SameImage, SameImage-trans, SameImage-of_library, SameRegister, SameRegister-refl,
  SameRegister-trans, SameRegister-space, SameRegister-info, protect_pools-SpaceOnly,
  call_function-SameRegister,
}
use and_emu.Lifetime.Respects.{call_constructors-Respects}
use and_emu.Register.Placed.{KeepsPools, IsPlaced}
use and_emu.SoInfo.{Linker}
use mathlib.Core.List.{append-nil}

module _ (k : Kernel) (Held : ℕ → ℕ → Type 0) (pools : KeepsPools k Held) (native : Bool)
    (fuel : ℕ) where
  pub call_constructors-SameRegister :
      (depth si : ℕ) (l l' : Linker)
      → call_constructors k native fuel depth si l ≡ ok l'
      → SameRegister Held l l'
  call_constructors-SameRegister =
      call_constructors-Respects k native (SameRegister Held) (SameRegister-refl Held)
        (SameRegister-trans Held) (call_function-SameRegister k Held pools native) fuel
        (λ l si.
          SameRegister-info Held l si (record (l.infos si) { constructors_called = true }) refl
            refl)

  -- The register, maybe longer, and NULL or one of its libraries.
  abbrev pub Opened : Linker → List ℕ → ℕ × Linker → Type 0
  Opened l xs (r, l') =
      (new : List ℕ) × (fs : List ℕ) × IsPlaced Held l' (xs ++ new) fs
      × (l'.solist ≡ l.solist)
      × ((q : ℕ) → q ∈ (l.solist ∷ xs) → SameImage (l.infos q) (l'.infos q))
      × ((r ≡ 0) ⊎ (r ∈ (l'.solist ∷ (xs ++ new))))

  -- Before and after the search only what every library may change has changed.
  around :
      (l l₁ l₃ : Linker) (xs fs : List ℕ) (r : ℕ) (l₂ : Linker)
      → SameRegister Held l l₁
      → ((fs : List ℕ) → IsPlaced Held l₁ xs fs → Searched Held l₁ xs (r, l₂))
      → SameRegister Held l₂ l₃
      → IsPlaced Held l xs fs
      → Opened l xs (r, l₃)
  around l l₁ l₃ xs fs r l₂ (keeps, head, same) search_ (keeps', head', same') placed =
      let ((new, gs, placed₂, head₂, same₂), listed) = search_ fs (keeps xs fs placed) in
      (
        new,
        gs,
        keeps' (xs ++ new) gs placed₂,
        head' ∙ head₂ ∙ head,
        (λ q m. SameImage-trans (l.infos q) (l₁.infos q) (l₃.infos q) (same q) (
            SameImage-trans (l₁.infos q) (l₂.infos q) (l₃.infos q)
              (SameImage-of_library (l₁.infos q) (l₂.infos q)
                (same₂ q (subst (λ (h : ℕ). q ∈ (h ∷ xs)) (sym head) m)))
              (same' q))),
        subst (λ (h : ℕ). (r ≡ 0) ⊎ (r ∈ (h ∷ (xs ++ new)))) (sym head') listed,
      )

  module _ (paths preload_names : List (List ℕ)) where
    -- do_dlopen on a register, where it returns, leaves a register.
    pub do_dlopen-Opened :
        (depth flags : ℕ) (name : List ℕ) (l : Linker) (xs fs : List ℕ) (r : ℕ) (l' : Linker)
        → IsPlaced Held l xs fs
        → do_dlopen k native fuel paths preload_names depth name flags l ≡ ok (r, l')
        → Opened l xs (r, l')
    unfolding do_dlopen
    do_dlopen-Opened depth flags name l xs fs r l' placed e =
        elim (Bool-cases (bit_and flags (minus_one - rtld_known k native fuel) != 0)) [
          | inl bad ↦ subst (Opened l xs) (ok-injective (rw bad at e)) (
            [],
            fs,
            subst (λ (ys : List ℕ). IsPlaced Held l ys fs) (sym (append-nil xs)) placed,
            refl,
            (λ q m. refl),
            inl refl,
          )
          | inr good ↦
              let (l₁, opened, run₁) = >>=-eq-ok (writable k native l) _ (rw good at e) in
              let (p, found, run₂) =
                >>=-eq-ok (find_library k fuel paths preload_names depth name l₁) constructed
                  run₁ in
              let (l₃, built, run₃) =
                >>=-eq-ok (construct p) (λ l₃. read_only k native l₃ >>= λ l₄. ok (p.0, l₄)) run₂ in
              let (l₄, closed, end) = >>=-eq-ok (read_only k native l₃) (λ l₄. ok (p.0, l₄)) run₃ in
              subst (Opened l xs) (ok-injective end) (
                around l l₁ l₄ xs fs p.0 p.1
                  (SameRegister-space Held l l₁ (
                    protect_pools-SpaceOnly k Held pools (bit_or prot_read prot_write) l l₁ opened))
                  (λ gs placed₁.
                    find_library-Searched k Held pools fuel paths preload_names depth name l₁ xs gs
                      p placed₁ found)
                  (SameRegister-trans Held p.1 l₃ l₄ (construct-SameRegister p l₃ built) (
                    SameRegister-space Held l₃ l₄
                      (protect_pools-SpaceOnly k Held pools prot_read l₃ l₄ closed)))
                  placed)
        ]
      where
        construct : ℕ × Linker → Exec Linker
        construct (si, l₂) =
            if si == 0 || is_one_of opened_quietly (l₂.infos si).name
            then ok l₂
            else call_constructors k native fuel depth si l₂

        constructed : ℕ × Linker → Exec (ℕ × Linker)
        constructed p = construct p >>= λ l₃. read_only k native l₃ >>= λ l₄. ok (p.0, l₄)

        construct-SameRegister :
            (p : ℕ × Linker) (l₃ : Linker) → construct p ≡ ok l₃ → SameRegister Held p.1 l₃
        construct-SameRegister (si, l₂) l₃ run =
            elim (Bool-cases (si == 0 || is_one_of opened_quietly (l₂.infos si).name)) [
              | inl quiet ↦
                  subst (SameRegister Held l₂) (ok-injective (rw quiet at run))
                    (SameRegister-refl Held l₂)
              | inr loud ↦ call_constructors-SameRegister depth si l₂ l₃ (rw loud at run)
            ]
