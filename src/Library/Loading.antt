-- ===== src/Library/Loading.antt =====
-- load_library: the register is kept, or has one library more.
use and_emu.Base.{
  ℕ, ◌≡◌, refl, sym, subst, ◌≢◌, inl, inr, true, false, List, [], ◌∷◌, ◌++◌, arith, ◌==◌,
  if◌then◌else◌, ◌∈◌,
}
use and_emu.Kernel.{Space, Attempt, done, failed, space_of, Kernel}
use and_emu.Library.{with_space, open_library, loaded_soinfo, load_library}
use and_emu.Library.Keeps.{open_library-KeepsSpace}
use and_emu.Reader.{ElfReader, new_reader, Outcome, pass, stop, load, destroy}
use and_emu.Reader.Keeps.{after, load-Keeps, destroy-Keeps}
use and_emu.Register.{soinfo_alloc, basename}
use and_emu.Register.Libraries.{Distinct-apart, append-assoc_one, update_other}
use and_emu.Register.Links.{Distinct}
use and_emu.Register.Placed.{
  KeepsPools, SameLibrary, IsPlaced, Allocated, IsPlaced-with_space, IsPlaced-with_info,
  soinfo_alloc-Allocated,
}
use and_emu.SoInfo.{SoInfo, update, Linker}

module _ (k : Kernel) (Held : ℕ → ℕ → Type 0) (keeps : KeepsPools k Held) where
  -- Putting the reader's results into a new library.
  abbrev finish : ElfReader → ℕ × Linker → ℕ × Linker
  finish r (si, l) =
      let closed = with_space l (destroy k r l.space) in
      if si == 0
      then (0, closed)
      else (si, record closed { infos = update l.infos si (loaded_soinfo k r (l.infos si)) })

  not_listed :
      (l : Linker) (xs fs : List ℕ) (si q : ℕ)
      → IsPlaced Held l (xs ++ si ∷ []) fs
      → q ∈ (l.solist ∷ xs)
      → q ≢ si
  not_listed l xs fs si q placed m same =
      Distinct-apart q (l.solist ∷ xs) (si ∷ fs)
        (subst (λ (ys : List ℕ). Distinct (l.solist ∷ ys)) (append-assoc_one xs si fs) placed.0.3) m
        (inl same)

  finish-Allocated :
      (r : ElfReader) (l : Linker) (xs : List ℕ) (si : ℕ) (l' : Linker)
      → Allocated Held l xs (si, l')
      → Allocated Held l xs (finish r (si, l'))
  finish-Allocated r l xs si l' (head, inl (null, (fs, placed), same)) =
      let none_new : (si == 0) ≡ true = ground (arith, null) in
      let at_end : finish r (si, l') ≡ (0, with_space l' (destroy k r l'.space)) = rw none_new in
      subst (Allocated Held l xs) (sym at_end) (
        head,
        inl (
          refl,
          (
            fs,
            IsPlaced-with_space Held l' (destroy k r l'.space) xs fs
                (λ x. destroy-Keeps k (λ c. Held c x) (keeps.lasting x) r l'.space) placed,
          ),
          same,
        ),
      )
  finish-Allocated r l xs si l' (head, inr (live, (fs, placed), same)) =
      let one_new : (si == 0) ≡ false = ground (arith, live) in
      let at_end : finish r (si, l')
          ≡ (si, record closed { infos = update l'.infos si (loaded_soinfo k r (l'.infos si)) }) =
        rw one_new in
      subst (Allocated Held l xs) (sym at_end) (
        head,
        inr (
          live,
          (
            fs,
            IsPlaced-with_info Held closed si (loaded_soinfo k r (l'.infos si)) (xs ++ si ∷ []) fs
                refl
                (IsPlaced-with_space Held l' (destroy k r l'.space) (xs ++ si ∷ []) fs
                  (λ x. destroy-Keeps k (λ c. Held c x) (keeps.lasting x) r l'.space) placed),
          ),
          (λ q m.
              subst (λ (i : SoInfo). SameLibrary (l.infos q) i)
                (sym (
                  update_other l'.infos si _ q (
                    not_listed l' xs fs si q placed
                      (subst (λ (h : ℕ). q ∈ (h ∷ xs)) (sym head) m))))
                (same q m)),
        ),
      )
    where
      closed : Linker
      closed = with_space l' (destroy k r l'.space)

  pub load_library-Allocated :
      (paths : List (List ℕ)) (name : List ℕ) (l : Linker) (xs fs : List ℕ)
      → IsPlaced Held l xs fs
      → Allocated Held l xs (load_library k paths name l)
  unfolding load_library
  load_library-Allocated paths name l xs fs placed = opened (open_library k paths name l.space) refl
    where
      unchanged :
          (s : Space)
          → ((x : ℕ) → Held l.space.kernel x → Held s.kernel x)
          → Allocated Held l xs (0, with_space l s)
      unchanged s lasts =
          (refl, inl (refl, (fs, IsPlaced-with_space Held l s xs fs lasts placed), refl))

      loaded :
          (fd : ℕ) (s : Space) (o : Outcome)
          → ((x : ℕ) → Held l.space.kernel x → Held s.kernel x)
          → open_library k paths name l.space ≡ done fd s
          → load k (new_reader name fd) s ≡ o
          → Allocated Held l xs (load_library k paths name l)
      loaded fd s (stop r s') lasts e f =
          let same : load_library k paths name l ≡ (0, with_space l (destroy k r s')) =
            rw (e, f, load_library) in
          subst (Allocated Held l xs) (sym same) (
            unchanged (destroy k r s')
              (λ x h. destroy-Keeps k (λ c. Held c x) (keeps.lasting x) r s' (after_load x h)))
        where
          after_load : (x : ℕ) → Held l.space.kernel x → Held s'.kernel x
          after_load x h =
              subst (λ (o : Outcome). Held (after o).kernel x) f
                (load-Keeps k (λ c. Held c x) (keeps.lasting x) (new_reader name fd) s (lasts x h))
      loaded fd s (pass r s') lasts e f =
          let same : load_library k paths name l
              ≡ finish r (soinfo_alloc k (basename name) (with_space l s')) =
            rw (e, f, load_library) in
          subst (Allocated Held l xs) (sym same) (
            finish-Allocated r l xs _ _ (
              soinfo_alloc-Allocated k Held keeps (with_space l s') (basename name) xs fs
                (IsPlaced-with_space Held l s' xs fs after_load placed)))
        where
          after_load : (x : ℕ) → Held l.space.kernel x → Held s'.kernel x
          after_load x h =
              subst (λ (o : Outcome). Held (after o).kernel x) f
                (load-Keeps k (λ c. Held c x) (keeps.lasting x) (new_reader name fd) s (lasts x h))

      after_open :
          (a : Attempt ℕ)
          → open_library k paths name l.space ≡ a
          → (x : ℕ) → Held l.space.kernel x
          → Held (space_of a).kernel x
      after_open a e x h =
          subst (λ (a : Attempt ℕ). Held (space_of a).kernel x) e
            (open_library-KeepsSpace k (λ c. Held c x) (keeps.lasting x) paths name l.space h)

      opened :
          (a : Attempt ℕ)
          → open_library k paths name l.space ≡ a
          → Allocated Held l xs (load_library k paths name l)
      opened (failed s) e =
          let same : load_library k paths name l ≡ (0, with_space l s) = rw (e, load_library) in
          subst (Allocated Held l xs) (sym same) (unchanged s (after_open (failed s) e))
      opened (done fd s) e =
          loaded fd s (load k (new_reader name fd) s) (after_open (done fd s) e) e refl
