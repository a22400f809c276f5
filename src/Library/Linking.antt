-- ===== src/Library/Linking.antt =====
-- soinfo_link_image, over a search for dependencies that keeps the register.
use and_emu.Base.{
  ℕ, zero, suc, ◌+◌, ◌≡◌, refl, sym, ap, ◌∙◌, subst, ◌≢◌, ◌⊎◌, inl, inr, List, [], ◌∷◌, ◌++◌, arith,
  ◌==◌, Bool-cases, ◌∈◌,
}
use and_emu.Base.Exec.{Exec, ok}
use and_emu.Dynamic.{Parsed, parsed, refused, parse_entry, parse_dynamic}
use and_emu.Dynamic.Entries.{soinfo_of}
use and_emu.Elf.{Dyn, sizeof_dyn, dyn_at, dt_null}
use and_emu.Kernel.{Space}
use and_emu.Library.{with_space, with_info, Finder}
use and_emu.Memory.{Memory}
use and_emu.Register.Libraries.{Distinct-left, Distinct-apart, update_other}
use and_emu.Register.Links.{∈-append_left}
use and_emu.Register.Placed.{
  SameLibrary, SameLibrary-trans, IsPlaced, Grown, IsPlaced-with_space, IsPlaced-with_info,
}
use and_emu.SoInfo.{SoInfo, Linker}
use mathlib.Core.List.{append_assoc, append-nil}

parse_entry-next :
    (m : Memory) (base : ℕ) (d : Dyn) (i : SoInfo) (n : ℕ)
    → (soinfo_of (parse_entry m base d i n)).next ≡ i.next
unfolding parse_entry
parse_entry-next m base d i n = ground arith

pub parse_dynamic-next :
    (fuel : ℕ) (m : Memory) (base at : ℕ) (i : SoInfo) (n : ℕ) (p : Parsed)
    → parse_dynamic fuel m base at i n ≡ ok p
    → (soinfo_of p).next ≡ i.next
unfolding parse_dynamic
parse_dynamic-next zero m base at i n p e = cc
parse_dynamic-next (suc fuel) m base at i n p e =
    elim (Bool-cases ((dyn_at m at).d_tag == dt_null)) [
      | inl end ↦
          let run : ok (parsed i n) ≡ ok p = rw end at e in
          let same : parsed i n ≡ p = cc in ap (λ (q : Parsed). (soinfo_of q).next) (sym same)
      | inr more ↦
          go (parse_entry m base (dyn_at m at) i n) (parse_entry-next m base (dyn_at m at) i n)
            (λ j m'. parse_dynamic-next fuel m base (at + sizeof_dyn) j m' p) (rw more at e)
    ]
  where
    go :
        (q : Parsed)
        → (soinfo_of q).next ≡ i.next
        → ((j : SoInfo) (n' : ℕ)
            → parse_dynamic fuel m base (at + sizeof_dyn) j n' ≡ ok p
            → (soinfo_of p).next ≡ j.next)
        → ◌≡◌ {A = Exec Parsed}
            (elim q [
              | refused j n' ↦ ok (refused j n')
              | parsed j n' ↦ parse_dynamic fuel m base (at + sizeof_dyn) j n'
            ])
            (ok p)
        → (soinfo_of p).next ≡ i.next
    go (refused j n') same rest run =
        let end : refused j n' ≡ p = cc in ap (λ (q : Parsed). (soinfo_of q).next) (sym end) ∙ same
    go (parsed j n') same rest run = rest j n' run ∙ same

module _ (Held : ℕ → ℕ → Type 0) where
  -- Only the process changed, and all that was held is held.
  abbrev pub SpaceOnly : Linker → Linker → Type 0
  SpaceOnly l l' =
      (s : Space) × (l' ≡ with_space l s) × ((x : ℕ) → Held l.space.kernel x → Held s.kernel x)

  pub SpaceOnly-trans : (l l' l'' : Linker) → SpaceOnly l l' → SpaceOnly l' l'' → SpaceOnly l l''
  SpaceOnly-trans l l' l'' (s, e, f) (s', e', f') = (
    s',
    e' ∙ ap (λ (t : Linker). with_space t s') e,
    (λ x h. f' x (subst (λ (t : Linker). Held t.space.kernel x) (sym e) (f x h))),
  )

  -- `si` was added behind the libraries `xs`, and maybe more behind it.
  abbrev pub Linking : Linker → List ℕ → ℕ → Linker → Type 0
  Linking l xs si l' =
      (new : List ℕ) × (fs : List ℕ) × IsPlaced Held l' (xs ++ si ∷ new) fs
      × (l'.solist ≡ l.solist)
      × ((q : ℕ) → q ∈ (l.solist ∷ xs) → SameLibrary (l.infos q) (l'.infos q))

  pub Linking-SpaceOnly :
      (l l' l'' : Linker) (xs : List ℕ) (si : ℕ)
      → Linking l xs si l'
      → SpaceOnly l' l''
      → Linking l xs si l''
  Linking-SpaceOnly l l' l'' xs si (new, fs, placed, head, same) (s, e, f) =
      subst (λ (t : Linker). Linking l xs si t) (sym e)
        (new, fs, IsPlaced-with_space Held l' s (xs ++ si ∷ new) fs f placed, head, same)

  pub Linking-with_info :
      (l l' : Linker) (xs : List ℕ) (si : ℕ) (i : SoInfo)
      → i.next ≡ (l'.infos si).next
      → Linking l xs si l'
      → Linking l xs si (with_info l' si i)
  Linking-with_info l l' xs si i next (new, fs, placed, head, same) = (
    new,
    fs,
    IsPlaced-with_info Held l' si i (xs ++ si ∷ new) fs next placed,
    head,
    (λ q m.
        subst (λ (j : SoInfo). SameLibrary (l.infos q) j)
          (sym (update_other l'.infos si i q (not_si q m))) (same q m)),
  )
    where
      not_si : (q : ℕ) → q ∈ (l.solist ∷ xs) → q ≢ si
      not_si q m e =
          Distinct-apart q (l'.solist ∷ xs) (si ∷ new)
            (Distinct-left (l'.solist ∷ (xs ++ si ∷ new)) fs placed.0.3)
            (subst (λ (h : ℕ). q ∈ (h ∷ xs)) (sym head) m) (inl e)

  pub Linking-Grown :
      (l l' l'' : Linker) (xs : List ℕ) (si : ℕ) (g : Linking l xs si l')
      → Grown Held l' (xs ++ si ∷ g.0) l''
      → Linking l xs si l''
  Linking-Grown l l' l'' xs si (new, fs, placed, head, same) (more, fs', placed', head', same') = (
    new ++ more,
    fs',
    subst (λ (ys : List ℕ). IsPlaced Held l'' ys fs') (append_assoc xs (si ∷ new) more) placed',
    head' ∙ head,
    (λ q m. SameLibrary-trans (l.infos q) (l'.infos q) (l''.infos q) (same q m) (
        same' q (
          subst (λ (h : ℕ). q ∈ (h ∷ (xs ++ si ∷ new))) (sym head)
            (∈-append_left q (l.solist ∷ xs) (si ∷ new) m)))),
  )

  pub Grown-refl : (l : Linker) (xs fs : List ℕ) → IsPlaced Held l xs fs → Grown Held l xs l
  Grown-refl l xs fs placed = (
    [],
    fs,
    subst (λ (ys : List ℕ). IsPlaced Held l ys fs) (sym (append-nil xs)) placed,
    refl,
    (λ q m. refl),
  )

  -- What a search leaves: the register, maybe longer, with NULL or one of its libraries.
  abbrev pub Searched : Linker → List ℕ → ℕ × Linker → Type 0
  Searched l xs (r, l') = (g : Grown Held l xs l') × ((r ≡ 0) ⊎ (r ∈ (l'.solist ∷ (xs ++ g.0))))

  -- A search that keeps the register and returns NULL or one of its libraries.
  abbrev pub KeepsRegister : Finder → Type 0
  KeepsRegister find =
      (name : List ℕ) (l : Linker) (xs fs : List ℕ) (r : ℕ) (l' : Linker)
      → IsPlaced Held l xs fs
      → find name l ≡ ok (r, l')
      → Searched l xs (r, l')
