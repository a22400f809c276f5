-- ===== src/Library/Needed.antt =====
-- The loops of soinfo_link_image that search for other libraries.
use and_emu.Base.{
  ℕ, zero, suc, ◌+◌, ◌≡◌, ap, ◌∙◌, subst, inl, inr, Option, none, some, List, [], ◌∷◌, ◌++◌, ◌==◌,
  ◌!=◌, if◌then◌else◌, Bool-cases,
}
use and_emu.Base.Exec.{Exec, ok, ◌>>=◌, >>=-eq-ok}
use and_emu.Base.Word.{add32}
use and_emu.Elf.{Dyn, sizeof_dyn, dyn_at, dt_null, dt_needed}
use and_emu.Library.{Finder, prepend, load_needed, load_preloads}
use and_emu.Library.Linking.{Grown-refl, KeepsRegister}
use and_emu.Memory.{c_string}
use and_emu.Register.Placed.{IsPlaced, Grown, Grown-trans}
use and_emu.SoInfo.{Linker}

module _ (Held : ℕ → ℕ → Type 0) (find : Finder) (keeps : KeepsRegister Held find) where
  abbrev same_linker :
      (l l' : Linker) (xs : List ℕ) → Grown Held l xs l → l ≡ l' → Grown Held l xs l'
  same_linker l l' xs g e = subst (λ (t : Linker). Grown Held l xs t) e g

  pub load_needed-Grown :
      (fuel si at : ℕ) (l : Linker) (xs fs : List ℕ) (r : Option (List ℕ)) (l' : Linker)
      → IsPlaced Held l xs fs
      → load_needed find fuel si at l ≡ ok (r, l')
      → Grown Held l xs l'
  unfolding load_needed
  load_needed-Grown zero si at l xs fs r l' placed e = cc
  load_needed-Grown (suc fuel) si at l xs fs r l' placed e =
      elim (Bool-cases (d.d_tag == dt_null)) [
        | inl end ↦
            let run : ok (some [], l) ≡ ok (r, l') = rw (end, load_needed) at e in
            let same : l ≡ l' = cc in same_linker l l' xs (Grown-refl Held l xs fs placed) same
        | inr more ↦ elim (Bool-cases (d.d_tag == dt_needed)) [
          | inr other ↦
              let run : load_needed find fuel si (at + sizeof_dyn) l ≡ ok (r, l') =
                rw (more, other, load_needed) at e in
              load_needed-Grown fuel si (at + sizeof_dyn) l xs fs r l' placed run
          | inl wanted ↦
              let run : (c_string fuel l.space.memory (add32 (l.infos si).strtab d.d_val)
                    >>= λ name. find name l >>= λ p. answer p)
                  ≡ ok (r, l') =
                rw (more, wanted, load_needed) at e in
              let (name, at_name, run₁) =
                >>=-eq-ok (c_string fuel l.space.memory (add32 (l.infos si).strtab d.d_val)) _
                  run in
              let (p, found, run₂) = >>=-eq-ok (find name l) answer run₁ in
              answered name p found
                (λ l₁ ys gs r₁. load_needed-Grown fuel si (at + sizeof_dyn) l₁ ys gs r₁ l') run₂
        ]
      ]
    where
      d : Dyn
      d = dyn_at l.space.memory at

      answer : ℕ × Linker → Exec (Option (List ℕ) × Linker)
      answer (lsi, l₁) =
          if lsi == 0
          then ok (none, l₁)
          else (load_needed find fuel si (at + sizeof_dyn) l₁ >>= λ (others, l₂).
              ok (prepend lsi others, l₂))

      answered :
          (name : List ℕ) (p : ℕ × Linker)
          → find name l ≡ ok p
          → ((l₁ : Linker) (ys gs : List ℕ) (r₁ : Option (List ℕ))
              → IsPlaced Held l₁ ys gs
              → load_needed find fuel si (at + sizeof_dyn) l₁ ≡ ok (r₁, l')
              → Grown Held l₁ ys l')
          → answer p ≡ ok (r, l')
          → Grown Held l xs l'
      answered name (lsi, l₁) found ih run =
          let (g, listed) = keeps name l xs fs lsi l₁ placed found in
          elim (Bool-cases (lsi == 0)) [
            | inl null ↦
                let end : ok (none, l₁) ≡ ok (r, l') = rw null at run in
                let same : l₁ ≡ l' = cc in subst (λ (t : Linker). Grown Held l xs t) same g
            | inr given ↦
                let on : (load_needed find fuel si (at + sizeof_dyn) l₁ >>= λ q.
                ok (prepend lsi q.0, q.1))
                    ≡ ok (r, l') =
                  rw given at run in
                let (q, loop, end) =
                  >>=-eq-ok (load_needed find fuel si (at + sizeof_dyn) l₁)
                    (λ q. ok (prepend lsi q.0, q.1)) on in
                let same : q.1 ≡ l' = cc in
                Grown-trans Held l l₁ l' xs g
                  (ih l₁ (xs ++ g.0) g.1 q.0 g.2 (loop ∙ ap (λ (t : Linker). ok (q.0, t)) same))
          ]

  pub load_preloads-Grown :
      (names : List (List ℕ)) (l : Linker) (xs fs : List ℕ) (l' : Linker)
      → IsPlaced Held l xs fs
      → load_preloads find names l ≡ ok l'
      → Grown Held l xs l'
  unfolding load_preloads
  load_preloads-Grown [] l xs fs l' placed e =
      same_linker l l' xs (Grown-refl Held l xs fs placed) (cc)
  load_preloads-Grown (name ∷ names) l xs fs l' placed e =
      let (p, found, run) = >>=-eq-ok (find name l) (λ p. load_preloads find names (kept p)) e in
      let (g, listed) = keeps name l xs fs p.0 p.1 placed found in
      Grown-trans Held l p.1 l' xs g (elim (Bool-cases (p.0 != 0)) [
        | inl given ↦
            load_preloads-Grown names (record p.1 { preloads = p.1.preloads ++ p.0 ∷ [] })
              (xs ++ g.0) g.1 l' g.2 (rw given at run)
        | inr null ↦ load_preloads-Grown names p.1 (xs ++ g.0) g.1 l' g.2 (rw null at run)
      ])
    where
      kept : ℕ × Linker → Linker
      kept (lsi, l₁) = if lsi != 0 then record l₁ { preloads = l₁.preloads ++ lsi ∷ [] } else l₁
