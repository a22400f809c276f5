-- ===== src/Library/Growth.antt =====
-- find_library: the register grows, whatever is found, loaded or given up.
use Prim.Native.Nat.{bit_and}
use and_emu.Base.{
  ℕ, zero, suc, ◌≡◌, refl, sym, ap, ◌∙◌, subst, ◌⊎◌, inl, inr, Bool, true, false, Option, none,
  some, List, [], ◌∷◌, ◌++◌, arith, ◌==◌, ◌!=◌, if◌then◌else◌, Bool-cases, ◌∈◌,
}
use and_emu.Base.Exec.{Exec, ok, ◌>>=◌, >>=-eq-ok}
use and_emu.Base.Scan.{scan, node_of, scan-∈}
use and_emu.Base.Word.{add32}
use and_emu.Kernel.{Kernel}
use and_emu.Library.{
  with_space, load_library, with_info, Finder, link_image, find_library_internal, count_reference,
  find_library,
}
use and_emu.Library.Image.{link_image-Linking}
use and_emu.Library.Linking.{Linking, Grown-refl, Searched, KeepsRegister}
use and_emu.Library.Loading.{load_library-Allocated}
use and_emu.Register.{soinfo_free, basename, named, find_loaded_library}
use and_emu.Register.Links.{∈-append_left, ∈-append_right}
use and_emu.Register.Placed.{
  KeepsPools, SameLibrary, SameLibrary-trans, IsPlaced, Allocated, IsPlaced-with_space,
  IsPlaced-with_info, update-SameLibrary, soinfo_free-IsPlaced,
}
use and_emu.SoInfo.{flag_linked, SoInfo, Infos, update, Linker}
use mathlib.Core.List.{append-nil}

module _ (k : Kernel) (Held : ℕ → ℕ → Type 0) (pools : KeepsPools k Held) (fuel : ℕ)
    (paths preload_names : List (List ℕ)) where
  found-listed :
      (l : Linker) (xs fs : List ℕ) (name : List ℕ) (si : ℕ)
      → IsPlaced Held l xs fs
      → find_loaded_library fuel l name ≡ ok (some si)
      → si ∈ (l.solist ∷ xs)
  unfolding find_loaded_library
  found-listed l xs fs name si placed e =
      let (r, hit, end) =
        >>=-eq-ok
          (scan fuel (λ q. (l.infos q).next) (λ q. ok (named l.infos (basename name) q)) l.solist)
          (λ r. ok (node_of r)) e in
      at r hit (cc)
    where
      at :
          (r : Option (ℕ × Unit {0}))
          → scan fuel (λ q. (l.infos q).next) (λ q. ok (named l.infos (basename name) q)) l.solist
            ≡ ok r
          → node_of r ≡ some si
          → si ∈ (l.solist ∷ xs)
      at none hit end = cc
      at (some (p, u)) hit end =
          let same : p ≡ si = cc in
          subst (λ (q : ℕ). q ∈ (l.solist ∷ xs)) same
            (scan-∈ (λ q. (l.infos q).next) (λ q. ok (named l.infos (basename name) q)) fuel
              l.solist (l.solist ∷ xs) p u placed.0.0 hit)

  unchanged :
      (l : Linker) (xs fs : List ℕ) (r : ℕ)
      → IsPlaced Held l xs fs
      → (r ≡ 0) ⊎ (r ∈ (l.solist ∷ xs))
      → Searched Held l xs (r, l)
  unchanged l xs fs r placed (inl null) = (Grown-refl Held l xs fs placed, inl null)
  unchanged l xs fs r placed (inr listed) = (
    Grown-refl Held l xs fs placed,
    inr (∈-append_left r (l.solist ∷ xs) (Grown-refl Held l xs fs placed).0 listed),
  )

  module _ (find : Finder) (keeps : KeepsRegister Held find) where
    -- After soinfo_link_image.
    abbrev linked : ℕ → Linker × Bool → Exec (ℕ × Linker)
    linked si (l, fine) =
        if fine
        then ok (si, l)
        else (soinfo_free fuel si
              (with_space l (k.munmap (l.infos si).base (l.infos si).size l.space))
            >>= λ l3. ok (0, l3))

    linked-Searched :
        (l : Linker) (xs : List ℕ) (si : ℕ) (p : Linker × Bool) (r : ℕ × Linker)
        → Linking Held l xs si p.0
        → linked si p ≡ ok r
        → Searched Held l xs r
    linked-Searched l xs si (l₂, true) r (new, fs, placed, head, same) e =
        let end : (si, l₂) ≡ r = cc in
        subst (Searched Held l xs) end (
          (si ∷ new, fs, placed, head, same),
          inr (∈-append_right si (l₂.solist ∷ xs) (si ∷ new) (inl refl)),
        )
    linked-Searched l xs si (l₂, false) r (new, fs, placed, head, same) e =
        let after = with_space l₂ (k.munmap (l₂.infos si).base (l₂.infos si).size l₂.space) in
        let (l₃, freed_, run) = >>=-eq-ok (soinfo_free fuel si after) (λ l3. ok (0, l3)) e in
        let end : (0, l₃) ≡ r = cc in
        let unmapped : IsPlaced Held after (xs ++ si ∷ new) fs =
          IsPlaced-with_space Held l₂ after.space (xs ++ si ∷ new) fs
            (λ x h. (pools.lasting x).munmap_lasts (l₂.infos si).base (l₂.infos si).size l₂.space h)
            placed in
        let (placed', head', same') =
          soinfo_free-IsPlaced Held fuel si after l₃ xs new fs unmapped freed_ in
        subst (Searched Held l xs) end (
          (
            new,
            si ∷ fs,
            placed',
            head' ∙ head,
            (λ q m. SameLibrary-trans (l.infos q) (l₂.infos q) (l₃.infos q) (same q m) (same' q)),
          ),
          inl refl,
        )

    loaded-Searched :
        (l : Linker) (xs : List ℕ) (p r : ℕ × Linker)
        → Allocated Held l xs p
        → ◌≡◌ {A = Exec (ℕ × Linker)}
            (if p.0 == 0
              then ok (0, p.1)
              else (link_image k fuel preload_names find p.0 p.1 >>= linked p.0))
            (ok r)
        → Searched Held l xs r
    loaded-Searched l xs (si, l₁) r (head, inl (null, (fs, placed), same)) e =
        let none_new : (si == 0) ≡ true = ground (arith, null) in
        let run : ok (0, l₁) ≡ ok r = rw none_new at e in
        let end : (0, l₁) ≡ r = cc in
        subst (Searched Held l xs) end (
          (
            [],
            fs,
            subst (λ (ys : List ℕ). IsPlaced Held l₁ ys fs) (sym (append-nil xs)) placed,
            head,
            (λ q m.
                subst (λ (i : SoInfo). SameLibrary (l.infos q) i)
                  (sym (ap (λ (i : Infos). i q) same)) refl),
          ),
          inl refl,
        )
    loaded-Searched l xs (si, l₁) r (head, inr (live, (fs, placed), same)) e =
        let one_new : (si == 0) ≡ false = ground (arith, live) in
        let run : (link_image k fuel preload_names find si l₁ >>= linked si) ≡ ok r =
          rw one_new at e in
        let (p, image, rest) =
          >>=-eq-ok (link_image k fuel preload_names find si l₁) (linked si) run in
        linked-Searched l xs si p r
          (link_image-Linking k Held pools fuel preload_names find keeps l xs si l₁ p.0 p.1 image
            ([], fs, placed, head, same))
          rest

    find_library_internal-Searched :
        (name : List ℕ) (l : Linker) (xs fs : List ℕ) (r : ℕ × Linker)
        → IsPlaced Held l xs fs
        → find_library_internal k fuel paths preload_names find name l ≡ ok r
        → Searched Held l xs r
    unfolding find_library_internal
    find_library_internal-Searched name l xs fs r placed e =
        let (o, search_, run) = >>=-eq-ok (find_loaded_library fuel l name) _ e in at o search_ run
      where
        at :
            (o : Option ℕ)
            → find_loaded_library fuel l name ≡ ok o
            → ◌≡◌ {A = Exec (ℕ × Linker)}
                (elim o [
                  | some si ↦ ok (if bit_and (l.infos si).flags flag_linked != 0 then si else 0, l)
                  | none ↦
                      if (load_library k paths name l).0 == 0
                      then ok (0, (load_library k paths name l).1)
                      else (link_image k fuel preload_names find
                            (load_library k paths name l).0
                            (load_library k paths name l).1
                          >>= linked (load_library k paths name l).0)
                ])
                (ok r)
            → Searched Held l xs r
        at (some si) search_ run = elim (Bool-cases (bit_and (l.infos si).flags flag_linked != 0)) [
          | inl ready ↦
              let end : ok (si, l) ≡ ok r = rw ready at run in
              let same : (si, l) ≡ r = cc in
              subst (Searched Held l xs) same
                (unchanged l xs fs si placed (inr (found-listed l xs fs name si placed search_)))
          | inr recursive ↦
              let end : ok (0, l) ≡ ok r = rw recursive at run in
              let same : (0, l) ≡ r = cc in
              subst (Searched Held l xs) same (unchanged l xs fs 0 placed (inl refl))
        ]
        at none search_ run =
            loaded-Searched l xs (load_library k paths name l) r
              (load_library-Allocated k Held pools paths name l xs fs placed) run

  count_reference-Searched :
      (l : Linker) (xs : List ℕ) (r : ℕ × Linker)
      → Searched Held l xs r
      → Searched Held l xs (count_reference k fuel paths preload_names r)
  count_reference-Searched l xs (si, l') ((new, fs, placed, head, same), listed) =
      elim (Bool-cases (si == 0)) [
        | inl null ↦
            let end : count_reference k fuel paths preload_names (si, l') ≡ (si, l') = rw null in
            subst (Searched Held l xs) (sym end) ((new, fs, placed, head, same), listed)
        | inr given ↦
            let end : count_reference k fuel paths preload_names (si, l')
                ≡ (si, with_info l' si counted) =
              rw given in
            subst (Searched Held l xs) (sym end) (
              (
                new,
                fs,
                IsPlaced-with_info Held l' si counted (xs ++ new) fs refl placed,
                head,
                (λ q m.
                    SameLibrary-trans (l.infos q) (l'.infos q) (update l'.infos si counted q)
                      (same q m) (update-SameLibrary l'.infos si counted q refl)),
              ),
              listed,
            )
      ]
    where
      counted : SoInfo
      counted = record (l'.infos si) { ref_count = add32 (l'.infos si).ref_count 1 }

  -- Take an account of where the kernel maps pools, a register whose entries it holds, and a search
  -- by find_library that ends. Whether a library was found, loaded with its dependencies, or given up
  -- half-way, the register is one again: all libraries from before are there, in their order and
  -- unchanged but for the next pointer and the count of references, any new ones stand behind them,
  -- and the result is NULL or one of the libraries of the list.
  pub find_library-Searched :
      (depth : ℕ) (name : List ℕ) (l : Linker) (xs fs : List ℕ) (r : ℕ × Linker)
      → IsPlaced Held l xs fs
      → find_library k fuel paths preload_names depth name l ≡ ok r
      → Searched Held l xs r
  unfolding find_library
  find_library-Searched zero name l xs fs r placed e = cc
  find_library-Searched (suc depth) name l xs fs r placed e =
      let (p, inner, end) =
        >>=-eq-ok
          (find_library_internal k fuel paths preload_names
            (find_library k fuel paths preload_names depth) name l)
          (λ p. ok (count_reference k fuel paths preload_names p)) e in
      let same : count_reference k fuel paths preload_names p ≡ r = cc in
      subst (Searched Held l xs) same (
        count_reference-Searched l xs p (
          find_library_internal-Searched (find_library k fuel paths preload_names depth)
            (λ name' l₁ ys gs q l₂ placed' run.
              find_library-Searched depth name' l₁ ys gs (q, l₂) placed' run)
            name l xs fs p placed inner))
