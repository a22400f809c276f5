-- ===== src/Lifetime/Kept.antt =====
-- What constructors, destructors and changes of protection keep of the register.
use Prim.Native.Nat.{bit_or}
use and_emu.Base.{
  ℕ, ◌≡◌, refl, sym, ap, ◌∙◌, subst, inl, inr, Bool, true, false, ◌||◌, List, [], ◌∷◌, ◌==◌,
  if◌then◌else◌, Bool-cases,
}
use and_emu.Base.Exec.{Exec, ok, fault, ◌>>=◌, >>=-eq-ok}
use and_emu.Base.Word.{minus_one}
use and_emu.Kernel.{Space, Attempt, done, failed, space_of, Kernel, prot_read, prot_write}
use and_emu.Library.{with_space, with_info}
use and_emu.Library.Linking.{SpaceOnly}
use and_emu.Lifetime.{call_function}
use and_emu.Register.{sizeof_pool, set_pool_protection}
use and_emu.Register.Placed.{
  KeepsPools, SameLibrary, IsPlaced, IsPlaced-with_space, IsPlaced-with_info, update-related,
}
use and_emu.SoInfo.{SoInfo, Linker}

-- All but the next pointer, the count of references and the mark of the constructors is equal.
abbrev pub SameImage : SoInfo → SoInfo → Type 0
SameImage i j = j ≡ record i {
  next = j.next;
  ref_count = j.ref_count;
  constructors_called = j.constructors_called;
}

pub SameImage-trans : (i j h : SoInfo) → SameImage i j → SameImage j h → SameImage i h
SameImage-trans i j h a b =
    b
    ∙ ap
        (λ (e : SoInfo). record e {
          next = h.next;
          ref_count = h.ref_count;
          constructors_called = h.constructors_called;
        })
        a

pub SameImage-of_library : (i j : SoInfo) → SameLibrary i j → SameImage i j
SameImage-of_library i j same =
    same
    ∙ ap
        (λ (b : Bool). record i { next = j.next; ref_count = j.ref_count; constructors_called = b })
        (sym (ap (λ (t : SoInfo). t.constructors_called) same))

-- The same libraries and the same free entries, in the same order.
abbrev pub SameRegister : (ℕ → ℕ → Type 0) → Linker → Linker → Type 0
SameRegister Held l l' =
    ((xs fs : List ℕ) → IsPlaced Held l xs fs → IsPlaced Held l' xs fs)
    × (l'.solist ≡ l.solist)
    × ((q : ℕ) → SameImage (l.infos q) (l'.infos q))

module _ (Held : ℕ → ℕ → Type 0) where
  pub SameRegister-refl : (l : Linker) → SameRegister Held l l
  SameRegister-refl l = ((λ xs fs placed. placed), refl, (λ q. refl))

  pub SameRegister-trans :
      (l l' l'' : Linker)
      → SameRegister Held l l'
      → SameRegister Held l' l''
      → SameRegister Held l l''
  SameRegister-trans l l' l'' (keeps, head, same) (keeps', head', same') = (
    (λ xs fs placed. keeps' xs fs (keeps xs fs placed)),
    head' ∙ head,
    (λ q. SameImage-trans (l.infos q) (l'.infos q) (l''.infos q) (same q) (same' q)),
  )

  pub SameRegister-space : (l l' : Linker) → SpaceOnly Held l l' → SameRegister Held l l'
  SameRegister-space l l' (s, e, lasts) =
      subst (λ (t : Linker). SameRegister Held l t) (sym e)
        ((λ xs fs placed. IsPlaced-with_space Held l s xs fs lasts placed), refl, (λ q. refl))

  pub SameRegister-info :
      (l : Linker) (p : ℕ) (i : SoInfo)
      → i.next ≡ (l.infos p).next
      → SameImage (l.infos p) i
      → SameRegister Held l (with_info l p i)
  SameRegister-info l p i next same = (
    (λ xs fs placed. IsPlaced-with_info Held l p i xs fs next placed),
    refl,
    (λ q. update-related SameImage (λ j. refl) l.infos p i q same),
  )

module _ (k : Kernel) (Held : ℕ → ℕ → Type 0) (pools : KeepsPools k Held) where
  set_pool_protection-lasts :
      (prot : ℕ) (ps : List ℕ) (s s' : Space) (x : ℕ)
      → set_pool_protection k prot ps s ≡ ok s'
      → Held s.kernel x
      → Held s'.kernel x
  unfolding set_pool_protection
  set_pool_protection-lasts prot [] s s' x e held =
      let same : s ≡ s' = cc in subst (λ (t : Space). Held t.kernel x) same held
  set_pool_protection-lasts prot (p ∷ ps) s s' x e held =
      go (k.mprotect p sizeof_pool prot s)
        ((pools.lasting x).mprotect_lasts p sizeof_pool prot s held)
        (λ t. set_pool_protection-lasts prot ps t s' x) e
    where
      go :
          (r : Attempt (Unit {0}))
          → Held (space_of r).kernel x
          → ((t : Space)
              → set_pool_protection k prot ps t ≡ ok s'
              → Held t.kernel x
              → Held s'.kernel x)
          → ◌≡◌ {A = Exec Space}
              (elim r [ failed t ↦ fault | done u t ↦ set_pool_protection k prot ps t ])
              (ok s')
          → Held s'.kernel x
      go (failed t) h rest run = cc
      go (done u t) h rest run = rest t run h

  pub protect_pools-SpaceOnly :
      (prot : ℕ) (l l' : Linker)
      → (set_pool_protection k prot l.pools l.space >>= λ s. ok (with_space l s)) ≡ ok l'
      → SpaceOnly Held l l'
  protect_pools-SpaceOnly prot l l' e =
      let (s, run, end) =
        >>=-eq-ok (set_pool_protection k prot l.pools l.space) (λ s. ok (with_space l s)) e in
      let same : with_space l s ≡ l' = cc in
      (s, sym same, (λ x. set_pool_protection-lasts prot l.pools l.space s x run))

  pub call_function-SameRegister :
      (native : Bool) (f : ℕ) (l l' : Linker)
      → call_function k native f l ≡ ok l'
      → SameRegister Held l l'
  unfolding call_function
  call_function-SameRegister native f l l' e = elim (Bool-cases (f == 0 || f == minus_one)) [
    | inl null ↦
        let run : ok l ≡ ok l' = rw null at e in
        let same : l ≡ l' = cc in
        subst (λ (t : Linker). SameRegister Held l t) same (SameRegister-refl Held l)
    | inr real ↦
        SameRegister-trans Held l called l'
          (SameRegister-space Held l called (called.space, refl, lasts native))
          (SameRegister-space Held called l'
            (protect_pools-SpaceOnly (bit_or prot_read prot_write) called l' (rw real at e)))
  ]
    where
      called : Linker
      called = with_space l (if native then k.call f l.space else l.space)

      lasts :
          (b : Bool) (x : ℕ)
          → Held l.space.kernel x
          → Held (if b then k.call f l.space else l.space).kernel x
      lasts true x held = (pools.lasting x).call_lasts f l.space held
      lasts false x held = held
