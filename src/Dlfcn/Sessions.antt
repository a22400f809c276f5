-- ===== src/Dlfcn/Sessions.antt =====
-- The life of a process: it starts with libdl.so, and then opens and closes libraries and runs.
use and_emu.Base.{
  ℕ, suc, ◌+◌, ◌≡◌, refl, sym, ap, ◌∙◌, subst, ◌≢◌, inl, inr, Bool, true, Option, List, [], ◌∷◌,
  ◌++◌, arith, ◌==◌, ==_iff, Bool-cases, length,
}
use and_emu.Base.Exec.{ok, >>=-eq-ok}
use and_emu.Dlfcn.{s_dlopen, s_dlclose}
use and_emu.Kernel.{Space, Kernel}
use and_emu.Libdl.{Tables, libdl_info, initial_linker}
use and_emu.Library.{with_space}
use and_emu.Lifetime.{do_dlopen}
use and_emu.Lifetime.Closed.{do_dlclose-Shrunk}
use and_emu.Lifetime.Kept.{SameImage, SameImage-trans}
use and_emu.Lifetime.Opened.{do_dlopen-Opened}
use and_emu.Register.{basename, find_loaded_library}
use and_emu.Register.Find.{FirstNamed, find_loaded_library-FirstNamed}
use and_emu.Register.Libraries.{IsRegister}
use and_emu.Register.Placed.{KeepsPools, IsPlaced, IsPlaced-with_space}
use and_emu.SoInfo.{SoInfo, Linker}

-- s_dlopen answers what do_dlopen answers.
pub s_dlopen-do_dlopen :
    (k : Kernel) (native : Bool) (fuel : ℕ) (paths preload_names : List (List ℕ)) (depth flags : ℕ)
    (name : List ℕ) (r : ℕ) (l l' : Linker)
    → s_dlopen k native fuel paths preload_names depth name flags l ≡ ok (r, l')
    → do_dlopen k native fuel paths preload_names depth name flags l ≡ ok (r, l')
unfolding s_dlopen
s_dlopen-do_dlopen k native fuel paths preload_names depth flags name r l l' e =
    let ((q, l₁), run, rest) =
      >>=-eq-ok (do_dlopen k native fuel paths preload_names depth name flags l) _ e in
    run ∙ elim (Bool-cases (q == 0)) [
      | inl null ↦ ap (λ (n : ℕ). ok (n, l₁)) ((==_iff q 0).0 null) ∙ (rw null at rest)
      | inr given ↦ rw given at rest
    ]

module _ (k : Kernel) (Held : ℕ → ℕ → Type 0) (native : Bool)
    (paths preload_names : List (List ℕ)) where
  -- A call of s_dlopen or s_dlclose that returns, with whatever fuel and depth, or what the program
  -- itself does to the process between two calls, which keeps the pools.
  pub data Step : Linker → Linker → Type 0 where
    opens :
        {l l' : Linker} (fuel depth flags : ℕ) (name : List ℕ) (r : ℕ)
        → s_dlopen k native fuel paths preload_names depth name flags l ≡ ok (r, l')
        → Step l l'
    closes :
        {l l' : Linker} (fuel depth si : ℕ) → s_dlclose k native fuel depth si l ≡ ok l' → Step l l'
    runs :
        {l : Linker} (s : Space)
        → ((x : ℕ) → Held l.space.kernel x → Held s.kernel x)
        → Step l (with_space l s)

  pub data Reached (l : Linker) : Linker → Type 0 where
    start : Reached l l
    onward : {l' l'' : Linker} → Reached l l' → Step l' l'' → Reached l l''

  -- A register with a head, whose image has not changed.
  abbrev pub Headed : ℕ → SoInfo → Linker → Type 0
  Headed at image l =
      (xs : List ℕ) × (fs : List ℕ) × IsPlaced Held l xs fs
      × (l.solist ≡ at)
      × SameImage image (l.infos at)

  module _ (pools : KeepsPools k Held) where
    step-Headed :
        (at : ℕ) (image : SoInfo) {l l' : Linker}
        → Step l l'
        → Headed at image l
        → Headed at image l'
    step-Headed at image {l} {l'} (opens fuel depth flags name r e) (xs, fs, placed, head, same) =
        let (new, gs, placed', head', kept, found) =
          do_dlopen-Opened k Held pools native fuel paths preload_names depth flags name l xs fs r
            l' placed
            (s_dlopen-do_dlopen k native fuel paths preload_names depth flags name r l l' e) in
        (
          xs ++ new,
          gs,
          placed',
          head' ∙ head,
          SameImage-trans image (l.infos at) (l'.infos at) same (kept at (inl (sym head))),
        )
    step-Headed at image {l} {l'} (closes fuel depth si e) (xs, fs, placed, head, same) =
        let (ys, gs, placed', within, head', kept) =
          do_dlclose-Shrunk k Held pools native fuel depth si l l' e xs fs placed in
        (
          ys,
          gs,
          placed',
          head' ∙ head,
          SameImage-trans image (l.infos at) (l'.infos at) same (kept at),
        )
    step-Headed at image {l} (runs s lasts) (xs, fs, placed, head, same) =
        (xs, fs, IsPlaced-with_space Held l s xs fs lasts placed, head, same)

    reached-Headed :
        (at : ℕ) (image : SoInfo) {l l' : Linker}
        → Reached l l'
        → Headed at image l
        → Headed at image l'
    reached-Headed at image start headed = headed
    reached-Headed at image (onward before step) headed =
        step-Headed at image step (reached-Headed at image before headed)

    -- From the start of the process, where libdl.so at a held address that is not 0 is the only
    -- library, every sequence of calls of s_dlopen and s_dlclose that return, with whatever the
    -- program does in between, leads to a register: the libraries, headed by libdl.so, and the free
    -- entries are lists without a common or repeated entry, at held addresses, `sonext` is the last
    -- library, and of the libdl.so entry at most the next pointer, the count of references and the
    -- mark of the constructors have changed.
    pub session-Headed :
        (t : Tables) (at : ℕ) (s : Space) (l : Linker)
        → at ≢ 0
        → Held s.kernel at
        → Reached (initial_linker t at s) l
        → Headed at (libdl_info t) l
    session-Headed t at s l live held reached = reached-Headed at (libdl_info t) reached (
      [],
      [],
      (
        registered,
        (λ x m. elim m [
          | inl here ↦ subst (Held s.kernel) (sym here) held
          | inr later ↦ absurd later
        ]),
      ),
      refl,
      image,
    )
      where
        first : SoInfo
        first = (initial_linker t at s).infos at

        at_libdl : first ≡ libdl_info t
        at_libdl = let here : (at == at) ≡ true = ground arith in rw here

        image : SameImage (libdl_info t) first
        image = subst (SameImage (libdl_info t)) (sym at_libdl) refl

        registered : IsRegister (initial_linker t at s) [] []
        registered =
            ((refl, live, ap (λ (i : SoInfo). i.next) at_libdl), refl, refl, ((λ m. absurd m), tt))

    -- In every state that such a sequence leads to, the search for a loaded library returns, with
    -- whatever fuel beyond the number of libraries: with the first library whose name is what follows
    -- the last '/' of the path, or with NULL where none has it.
    pub session-find_loaded_library :
        (t : Tables) (at : ℕ) (s : Space) (l : Linker)
        → at ≢ 0
        → Held s.kernel at
        → Reached (initial_linker t at s) l
        → (xs : List ℕ) × ((name : List ℕ) (more : ℕ)
            → (r : Option ℕ) × (find_loaded_library (suc (suc (length xs)) + more) l name ≡ ok r)
              × FirstNamed l.infos (basename name) (at ∷ xs) r)
    session-find_loaded_library t at s l live held reached =
        let (xs, fs, placed, head, same) = session-Headed t at s l live held reached in
        (
          xs,
          (λ name more.
              subst
                (λ (h : ℕ).
                  (r : Option ℕ) × (find_loaded_library (suc (suc (length xs)) + more) l name
                    ≡ ok r)
                  × FirstNamed l.infos (basename name) (h ∷ xs) r)
                head
                (find_loaded_library-FirstNamed l (l.solist ∷ xs) name
                  (suc (suc (length xs)) + more) placed.0.0 (omega arith))),
        )
