-- ===== src/Library/Image.antt =====
-- soinfo_link_image: the register is kept, whatever the outcome.
use Prim.Native.Nat.{bit_and, bit_or}
use and_emu.Base.{
  ℕ, ◌≡◌, refl, sym, subst, inl, inr, Bool, true, false, not, Option, none, some, List, [], ◌∷◌,
  ◌++◌, ◌==◌, ◌!=◌, if◌then◌else◌, Bool-cases,
}
use and_emu.Base.Exec.{Exec, ok, ◌>>=◌, >>=-eq-ok}
use and_emu.Dynamic.{Parsed, parsed, refused, parse_dynamic, dynamic_ok}
use and_emu.Dynamic.Entries.{soinfo_of}
use and_emu.Elf.{Phdr, phdr_table}
use and_emu.Emulator.Program.{main}
use and_emu.Kernel.{Space, Attempt, done, failed, space_of, Kernel}
use and_emu.Kernel.Lasts.{KeepsSpace}
use and_emu.Library.{
  with_info, Finder, load_needed, load_preloads, relocate_table, protecting, relocate_image,
  seal_image, link_needed, link_image,
}
use and_emu.Library.Keeps.{
  protect_segments-KeepsSpace, unprotect_segments-KeepsSpace, protect_gnu_relro-KeepsSpace,
  relocate-with_memory,
}
use and_emu.Library.Linking.{
  parse_dynamic-next, SpaceOnly, SpaceOnly-trans, Linking, Linking-SpaceOnly, Linking-with_info,
  Linking-Grown, KeepsRegister,
}
use and_emu.Library.Needed.{load_needed-Grown, load_preloads-Grown}
use and_emu.Phdr.{
  protect_segments, unprotect_segments, protect_gnu_relro, get_arm_exidx, DynamicSection,
  get_dynamic_section,
}
use and_emu.Register.Placed.{KeepsPools}
use and_emu.Reloc.{relocated, relocate}
use and_emu.SoInfo.{flag_linked, flag_exe, SoInfo, Linker}

module _ (k : Kernel) (Held : ℕ → ℕ → Type 0) (pools : KeepsPools k Held) where
  protecting-SpaceOnly :
      (step : Space → Attempt (Unit {0})) (l : Linker)
      → ((x : ℕ) → KeepsSpace (λ c. Held c x) step)
      → SpaceOnly Held l (protecting step l).0
  protecting-SpaceOnly step l lasts = go (step l.space) refl
    where
      held :
          (r : Attempt (Unit {0}))
          → step l.space ≡ r
          → (x : ℕ) → Held l.space.kernel x
          → Held (space_of r).kernel x
      held r e x h =
          subst (λ (r : Attempt (Unit {0})). Held (space_of r).kernel x) e (lasts x l.space h)

      go : (r : Attempt (Unit {0})) → step l.space ≡ r → SpaceOnly Held l (protecting step l).0
      go (done u s) e = (s, rw (e, protecting), held (done u s) e)
      go (failed s) e = (s, rw (e, protecting), held (failed s) e)

  relocate_table-SpaceOnly :
      (fuel si : ℕ) (needed : List ℕ) (table count : ℕ) (l l' : Linker) (b : Bool)
      → relocate_table fuel si needed table count l ≡ ok (l', b)
      → SpaceOnly Held l l'
  unfolding relocate_table
  relocate_table-SpaceOnly fuel si needed table count l l' b e = elim (Bool-cases (table == 0)) [
    | inl null ↦
        let run : ok (l, true) ≡ ok (l', b) = rw null at e in
        let same : l ≡ l' = cc in (l.space, sym same, (λ x h. h))
    | inr given ↦
        let run : relocate fuel si needed count table l ≡ ok (l', b) = rw given at e in
        let (m, at) = relocate-with_memory fuel si needed count table l l' b run in
        (record l.space { memory = m }, at, (λ x h. h))
  ]

  SpaceOnly-refl : (l : Linker) → SpaceOnly Held l l
  SpaceOnly-refl l = (l.space, refl, (λ x h. h))

  module _ (fuel : ℕ) (preload_names : List (List ℕ)) (find : Finder)
      (keeps : KeepsRegister Held find) where
    relocate_image-SpaceOnly :
        (si : ℕ) (needed : List ℕ) (l l' : Linker) (b : Bool)
        → relocate_image k fuel preload_names find si needed l ≡ ok (l', b)
        → SpaceOnly Held l l'
    unfolding relocate_image
    relocate_image-SpaceOnly si needed l l' b e =
        let (p, first, run) =
          >>=-eq-ok
            (relocate_table fuel si needed (l.infos si).plt_rel (l.infos si).plt_rel_count l) second
            e in
        SpaceOnly-trans Held l p.0 l'
          (relocate_table-SpaceOnly fuel si needed (l.infos si).plt_rel (l.infos si).plt_rel_count l
            p.0 p.1 first)
          (rest p run)
      where
        second : Linker × Bool → Exec (Linker × Bool)
        second (l₁, fine) =
            if not fine
            then ok (l₁, false)
            else relocate_table fuel si needed (l₁.infos si).rel (l₁.infos si).rel_count l₁

        rest : (p : Linker × Bool) → second p ≡ ok (l', b) → SpaceOnly Held p.0 l'
        rest (l₁, false) run =
            let same : l₁ ≡ l' = cc in
            subst (λ (t : Linker). SpaceOnly Held l₁ t) same (SpaceOnly-refl l₁)
        rest (l₁, true) run =
            relocate_table-SpaceOnly fuel si needed (l₁.infos si).rel (l₁.infos si).rel_count l₁ l'
              b run

    module _ (l₀ : Linker) (xs : List ℕ) (si : ℕ) where
      protecting-Linking :
          (step : Space → Attempt (Unit {0})) (t : Linker)
          → ((x : ℕ) → KeepsSpace (λ c. Held c x) step)
          → Linking Held l₀ xs si t
          → Linking Held l₀ xs si (protecting step t).0
      protecting-Linking step t lasts h =
          Linking-SpaceOnly Held l₀ t (protecting step t).0 xs si h
            (protecting-SpaceOnly step t lasts)

      seal_image-Linking :
          (l : Linker)
          → Linking Held l₀ xs si l
          → Linking Held l₀ xs si (seal_image k fuel preload_names find si l).0
      unfolding seal_image
      seal_image-Linking l g = ended _ (reprotected i.has_text_relocations)
        where
          i : SoInfo
          i = l.infos si

          marked : Linker
          marked = with_info l si (record i { flags = bit_or i.flags flag_linked })

          g' : Linking Held l₀ xs si marked
          g' =
              Linking-with_info Held l₀ l xs si (record i { flags = bit_or i.flags flag_linked })
                refl g

          end : Linker × Bool → Linker × Bool
          end (t, fine) =
              if not fine
              then (t, false)
              else protecting (protect_gnu_relro k i.load_bias i.phdr i.phnum) t

          ended : (p : Linker × Bool) → Linking Held l₀ xs si p.0 → Linking Held l₀ xs si (end p).0
          ended (t, false) h = h
          ended (t, true) h =
              protecting-Linking (protect_gnu_relro k i.load_bias i.phdr i.phnum) t
                (λ x.
                  protect_gnu_relro-KeepsSpace k (λ c. Held c x) (pools.lasting x) i.load_bias
                    i.phdr i.phnum)
                h

          reprotected :
              (b : Bool)
              → Linking Held l₀ xs si
                  (if b
                    then protecting (protect_segments k i.load_bias i.phdr i.phnum) marked
                    else (marked, true)).0
          reprotected false = g'
          reprotected true =
              protecting-Linking (protect_segments k i.load_bias i.phdr i.phnum) marked
                (λ x.
                  protect_segments-KeepsSpace k (λ c. Held c x) (pools.lasting x) i.load_bias i.phdr
                    i.phnum)
                g'

      -- From the relocations on.
      abbrev sealed : Linker × Bool → Exec (Linker × Bool)
      sealed (l, relocated) =
          if not relocated then ok (l, false) else ok (seal_image k fuel preload_names find si l)

      abbrev unprotected : List ℕ → Linker × Bool → Exec (Linker × Bool)
      unprotected needed (l, fine) =
          if not fine
          then ok (l, false)
          else (relocate_image k fuel preload_names find si needed l >>= sealed)

      sealed-Linking :
          (p : Linker × Bool) (l' : Linker) (b : Bool)
          → sealed p ≡ ok (l', b)
          → Linking Held l₀ xs si p.0
          → Linking Held l₀ xs si l'
      sealed-Linking (l, false) l' b e g =
          let same : l ≡ l' = cc in subst (λ (t : Linker). Linking Held l₀ xs si t) same g
      sealed-Linking (l, true) l' b e g =
          let same : (seal_image k fuel preload_names find si l).0 ≡ l' = cc in
          subst (λ (t : Linker). Linking Held l₀ xs si t) same (seal_image-Linking l g)

      unprotected-Linking :
          (needed : List ℕ) (p : Linker × Bool) (l' : Linker) (b : Bool)
          → unprotected needed p ≡ ok (l', b)
          → Linking Held l₀ xs si p.0
          → Linking Held l₀ xs si l'
      unprotected-Linking needed (l, false) l' b e g =
          let same : l ≡ l' = cc in subst (λ (t : Linker). Linking Held l₀ xs si t) same g
      unprotected-Linking needed (l, true) l' b e g =
          let (p, relocated, run) =
            >>=-eq-ok (relocate_image k fuel preload_names find si needed l) sealed e in
          sealed-Linking p l' b run (
            Linking-SpaceOnly Held l₀ l p.0 xs si g
              (relocate_image-SpaceOnly si needed l p.0 p.1 relocated))

      needed-Linking :
          (o : Option (List ℕ)) (l l' : Linker) (b : Bool)
          → ◌≡◌ {A = Exec (Linker × Bool)}
              (elim o [
                | none ↦ ok (l, false)
                | some needed ↦ unprotected needed (
                    if (l.infos si).has_text_relocations
                    then protecting
                        (unprotect_segments k
                          (l.infos si).load_bias
                          (l.infos si).phdr
                          (l.infos si).phnum)
                        l
                    else (l, true))
              ])
              (ok (l', b))
          → Linking Held l₀ xs si l
          → Linking Held l₀ xs si l'
      needed-Linking none l l' b e g =
          let same : l ≡ l' = cc in subst (λ (t : Linker). Linking Held l₀ xs si t) same g
      needed-Linking (some needed) l l' b e g =
          unprotected-Linking needed _ l' b e (writable (l.infos si).has_text_relocations)
        where
          writable :
              (t : Bool)
              → Linking Held l₀ xs si
                  (if t
                    then protecting
                        (unprotect_segments k
                          (l.infos si).load_bias
                          (l.infos si).phdr
                          (l.infos si).phnum)
                        l
                    else (l, true)).0
          writable false = g
          writable true =
              protecting-Linking
                (unprotect_segments k (l.infos si).load_bias (l.infos si).phdr (l.infos si).phnum) l
                (λ x.
                  unprotect_segments-KeepsSpace k (λ c. Held c x) (pools.lasting x)
                    (l.infos si).load_bias (l.infos si).phdr (l.infos si).phnum)
                g

      link_needed-Linking :
          (l l' : Linker) (b : Bool)
          → link_needed k fuel preload_names find si l ≡ ok (l', b)
          → Linking Held l₀ xs si l
          → Linking Held l₀ xs si l'
      unfolding link_needed
      link_needed-Linking l l' b e g =
          let (p, found, run) = >>=-eq-ok (load_needed find fuel si (l.infos si).dynamic l) _ e in
          needed-Linking p.0 p.1 l' b run (
            Linking-Grown Held l₀ l p.1 xs si g (
              load_needed-Grown Held find keeps fuel si (l.infos si).dynamic l (xs ++ si ∷ g.0) g.1
                p.0 p.1 g.2 found))

      -- After the loop over the dynamic section.
      abbrev after_parse : Linker → Parsed → Exec (Linker × Bool)
      after_parse l p = elim p [
        | refused i n ↦ ok (with_info l si i, false)
        | parsed i n ↦
            if not (dynamic_ok i n)
            then ok (with_info l si i, false)
            else if bit_and i.flags flag_exe != 0
            then (load_preloads find preload_names (record (with_info l si i) { preloads = [] })
                >>= λ l''. link_needed k fuel preload_names find si l'')
            else link_needed k fuel preload_names find si (with_info l si i)
      ]

      after_parse-Linking :
          (l : Linker) (p : Parsed) (l' : Linker) (b : Bool)
          → (soinfo_of p).next ≡ (l.infos si).next
          → after_parse l p ≡ ok (l', b)
          → Linking Held l₀ xs si l
          → Linking Held l₀ xs si l'
      after_parse-Linking l (refused i n) l' b next e g =
          let same : with_info l si i ≡ l' = cc in
          subst (λ (t : Linker). Linking Held l₀ xs si t) same
            (Linking-with_info Held l₀ l xs si i next g)
      after_parse-Linking l (parsed i n) l' b next e g = elim (Bool-cases (dynamic_ok i n)) [
        | inr bad ↦
            let run : ok (with_info l si i, false) ≡ ok (l', b) = rw bad at e in
            let same : with_info l si i ≡ l' = cc in
            subst (λ (t : Linker). Linking Held l₀ xs si t) same g'
        | inl good ↦ elim (Bool-cases (bit_and i.flags flag_exe != 0)) [
          | inr library ↦ link_needed-Linking (with_info l si i) l' b (rw (good, library) at e) g'
          | inl main ↦
              let run : (load_preloads find preload_names
                      (record (with_info l si i) { preloads = [] })
                    >>= λ l''. link_needed k fuel preload_names find si l'')
                  ≡ ok (l', b) =
                rw (good, main) at e in
              let (l₁, loaded, run₁) =
                >>=-eq-ok
                  (load_preloads find preload_names (record (with_info l si i) { preloads = [] }))
                  (λ l''. link_needed k fuel preload_names find si l'') run in
              link_needed-Linking l₁ l' b run₁ (
                Linking-Grown Held l₀ (record (with_info l si i) { preloads = [] }) l₁ xs si g'
                  (load_preloads-Grown Held find keeps preload_names
                    (record (with_info l si i) { preloads = [] }) (xs ++ si ∷ g'.0) g'.1 l₁ g'.2
                    loaded))
        ]
      ]
        where
          g' : Linking Held l₀ xs si (with_info l si i)
          g' = Linking-with_info Held l₀ l xs si i next g

      -- A library that was added behind `xs` stays there while it is linked.
      pub link_image-Linking :
          (l l' : Linker) (b : Bool)
          → link_image k fuel preload_names find si l ≡ ok (l', b)
          → Linking Held l₀ xs si l
          → Linking Held l₀ xs si l'
      unfolding link_image
      link_image-Linking l l' b e g = elim (Bool-cases (section_.dynamic == 0)) [
        | inl missing ↦
            let run : ok (with_info l si (record (l.infos si) { dynamic = 0 }), false)
                ≡ ok (l', b) =
              rw missing at e in
            let same : with_info l si (record (l.infos si) { dynamic = 0 }) ≡ l' = cc in
            subst (λ (t : Linker). Linking Held l₀ xs si t) same
              (Linking-with_info Held l₀ l xs si (record (l.infos si) { dynamic = 0 }) refl g)
        | inr present ↦
            let run : (parse_dynamic fuel l.space.memory (l.infos si).load_bias section_.dynamic
                    start 0
                  >>= after_parse l)
                ≡ ok (l', b) =
              rw present at e in
            let (p, parsed_, run₁) =
              >>=-eq-ok
                (parse_dynamic fuel l.space.memory (l.infos si).load_bias section_.dynamic start 0)
                (after_parse l) run in
            after_parse-Linking l p l' b
              (parse_dynamic-next fuel l.space.memory (l.infos si).load_bias section_.dynamic start
                0 p parsed_)
              run₁ g
      ]
        where
          headers_ : List Phdr
          headers_ = phdr_table l.space.memory (l.infos si).phdr (l.infos si).phnum

          section_ : DynamicSection
          section_ = get_dynamic_section headers_ (l.infos si).load_bias

          start : SoInfo
          start = record (l.infos si) {
            dynamic = section_.dynamic;
            arm_exidx = (get_arm_exidx headers_ (l.infos si).load_bias).0;
            arm_exidx_count = (get_arm_exidx headers_ (l.infos si).load_bias).1;
          }
