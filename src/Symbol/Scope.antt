-- ===== src/Symbol/Scope.antt =====
-- The scopes of soinfo_do_lookup, in their order.
use and_emu.Base.{
  ℕ, zero, suc, ◌<◌, ◌≡◌, refl, sym, subst, ◌≢◌, false, Option, none, some, List, [], ◌∷◌, ◌++◌,
  arith, ◌==◌, if◌then◌else◌, length,
}
use and_emu.Base.Exec.{Exec, ok, fault, spin, ◌>>=◌}
use and_emu.Base.Scan.{scan, Links}
use and_emu.Memory.{Memory}
use and_emu.SoInfo.{Infos, Linker}
use and_emu.Symbol.{
  elfhash, elf_lookup, lookup_in, local_scope, or_else_do, do_lookup, dlsym_linear_lookup,
}

module _ (fuel : ℕ) (m : Memory) (infos : Infos) (hash : ℕ) (name : List ℕ) where
  lookup_in-append :
      (xs ys : List ℕ)
      → lookup_in fuel m infos (xs ++ ys) hash name ≡ (
          lookup_in fuel m infos xs hash name >>= λ r.
          or_else_do r (lookup_in fuel m infos ys hash name))
  unfolding lookup_in
  lookup_in-append [] ys = refl
  lookup_in-append (x ∷ xs) ys =
      first_of_two (lookup_in-append xs ys) (elf_lookup fuel m (infos x) hash name) refl
    where
      first_of_two :
          (lookup_in fuel m infos (xs ++ ys) hash name ≡ (
            lookup_in fuel m infos xs hash name >>= λ r.
            or_else_do r (lookup_in fuel m infos ys hash name)))
          → (r : Exec (Option ℕ)) → elf_lookup fuel m (infos x) hash name ≡ r
          → lookup_in fuel m infos (x ∷ (xs ++ ys)) hash name ≡ (
              lookup_in fuel m infos (x ∷ xs) hash name >>= λ r.
              or_else_do r (lookup_in fuel m infos ys hash name))
      first_of_two tail fault e = rw e
      first_of_two tail spin e = rw e
      first_of_two tail (ok none) e = rw e tail
      first_of_two tail (ok (some s)) e = rw e

-- The libraries that are searched for a reference of `si`, in order: the main program and `si`
-- itself, if there is a main program, then the preloads and the dependencies.
abbrev pub local_order : Linker → ℕ → List ℕ
local_order l si =
    if l.somain == 0
    then []
    else if si == l.somain
    then si ∷ []
    else if (l.infos si).has_dt_symbolic
    then si ∷ l.somain ∷ []
    else l.somain ∷ si ∷ []

abbrev pub search_order : Linker → ℕ → List ℕ → List ℕ
search_order l si needed = local_order l si ++ (l.preloads ++ needed)

module _ (fuel : ℕ) (l : Linker) (name : List ℕ) (needed : List ℕ) where
  abbrev pub look : List ℕ → Exec (Option (ℕ × ℕ))
  look xs = lookup_in fuel l.space.memory l.infos xs (elfhash name) name

  local_scope-look :
      (si : ℕ)
      → (si == 0) ≡ false
      → local_scope fuel l.space.memory l.infos l.somain si (elfhash name) name
        ≡ look (local_order l si)
  unfolding local_scope lookup_in
  local_scope-look si given = ground arith

  -- For a library `si` that is not null the lookup is one search through a list of libraries, of
  -- which the first that defines the name gives the symbol: the main program and `si`, if there is
  -- a main program, `si` first if it is symbolic, then the preloads, then the dependencies.
  pub do_lookup-search_order :
      (si : ℕ) → si ≢ 0 → do_lookup fuel l si name needed ≡ look (search_order l si needed)
  unfolding do_lookup
  do_lookup-search_order si given =
      let live : (si == 0) ≡ false = ground arith in
      rw (
        local_scope-look si live,
        live,
        lookup_in-append fuel l.space.memory l.infos (elfhash name) name (local_order l si)
            (l.preloads ++ needed),
        lookup_in-append fuel l.space.memory l.infos (elfhash name) name l.preloads needed,
      )

module _ (fuel : ℕ) (l : Linker) (name : List ℕ) where
  abbrev lookup_at : ℕ → Exec (Option ℕ)
  lookup_at p = elf_lookup fuel l.space.memory (l.infos p) (elfhash name) name

  scan-lookup_in :
      (k p : ℕ) (xs : List ℕ)
      → Links (λ q. (l.infos q).next) p xs
      → length xs < k
      → scan k (λ q. (l.infos q).next) lookup_at p
        ≡ lookup_in fuel l.space.memory l.infos xs (elfhash name) name
  unfolding scan lookup_in
  scan-lookup_in zero p xs list few = absurd (omega arith)
  scan-lookup_in (suc k) p [] list few = rw list
  scan-lookup_in (suc k) p (x ∷ xs) list few =
      subst
        (λ (q : ℕ).
          scan (suc k) (λ q. (l.infos q).next) lookup_at q
          ≡ lookup_in fuel l.space.memory l.infos (x ∷ xs) (elfhash name) name)
        (sym list.0)
        (go (scan-lookup_in k (l.infos x).next xs list.2 (omega arith)) (lookup_at x) refl)
    where
      live : (x == 0) ≡ false
      live = ground arith

      go :
          (scan k (λ q. (l.infos q).next) lookup_at (l.infos x).next
            ≡ lookup_in fuel l.space.memory l.infos xs (elfhash name) name)
          → (r : Exec (Option ℕ)) → lookup_at x ≡ r
          → scan (suc k) (λ q. (l.infos q).next) lookup_at x
            ≡ lookup_in fuel l.space.memory l.infos (x ∷ xs) (elfhash name) name
      go tail fault e = rw (live, e)
      go tail spin e = rw (live, e)
      go tail (ok none) e = rw (live, e) tail
      go tail (ok (some s)) e = rw (live, e)

  -- With more fuel than there are libraries, the global lookup of dlsym goes through the libraries
  -- of the list from the start given, or from its head for a null start, and takes the first that
  -- defines the name.
  pub dlsym_linear_lookup-lookup_in :
      (start : ℕ) (xs : List ℕ)
      → Links (λ q. (l.infos q).next) (if start == 0 then l.solist else start) xs
      → length xs < fuel
      → dlsym_linear_lookup fuel l name start
        ≡ lookup_in fuel l.space.memory l.infos xs (elfhash name) name
  unfolding dlsym_linear_lookup
  dlsym_linear_lookup-lookup_in start xs list few =
      scan-lookup_in fuel (if start == 0 then l.solist else start) xs list few
