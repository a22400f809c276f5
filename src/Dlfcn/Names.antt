-- ===== src/Dlfcn/Names.antt =====
-- What s_dlsym returns.
use and_emu.Base.{
  ℕ, zero, suc, ◌<◌, ◌≡◌, sym, ap, ◌∙◌, subst, ◌≢◌, ◌⊎◌, inl, inr, true, false, Option, none, some,
  List, [], ◌∷◌, arith, ◌==◌, ◌!=◌, if◌then◌else◌, Bool-cases, length,
}
use and_emu.Base.Exec.{Exec, ok, fault, ◌>>=◌, >>=-eq-ok}
use and_emu.Base.Scan.{scan, Links}
use and_emu.Base.Word.{add32}
use and_emu.Dlfcn.{
  rtld_default, rtld_next, address_of, found_in, lookup_behind, dlsym_lookup, s_dlsym,
}
use and_emu.Elf.{stb_global, sym_at, st_bind}
use and_emu.SoInfo.{Linker}
use and_emu.Symbol.{
  elfhash, elf_lookup, lookup_in, dlsym_handle_lookup, dlsym_linear_lookup, find_containing_library,
}
use and_emu.Symbol.Scope.{dlsym_linear_lookup-lookup_in}

module _ {A : Type 0} where
  -- The node that a loop returns was a hit.
  scan-hit :
      (next : ℕ → ℕ) (body : ℕ → Exec (Option A)) (fuel p x : ℕ) (a : A)
      → scan fuel next body p ≡ ok (some (x, a))
      → body x ≡ ok (some a)
  unfolding scan
  scan-hit next body zero p x a e = cc
  scan-hit next body (suc fuel) p x a e =
      let ih = scan-hit next body fuel (next p) x a in
      elim (Bool-cases (p == 0)) [
        | inl end ↦
            let none_ : Exec (Option (ℕ × A)) = ok none in
            let stopped : scan (suc fuel) next body p ≡ none_ = rw (end, scan) in
            let both = sym stopped ∙ e in cc
        | inr live ↦
            let go : scan (suc fuel) next body p ≡ (
                body p >>= λ r. elim r [
                  | none ↦ scan fuel next body (next p)
                  | some b ↦ ok (some (p, b))
                ]) =
              rw (live, scan) in
            let (r, at, run) =
              >>=-eq-ok (body p)
                (λ r. elim r [ none ↦ scan fuel next body (next p) | some b ↦ ok (some (p, b)) ])
                (sym go ∙ e) in
            split r at run ih
      ]
    where
      split :
          (r : Option A)
          → body p ≡ ok r
          → elim r [ none ↦ scan fuel next body (next p) | some b ↦ ok (some (p, b)) ]
            ≡ ok (some (x, a))
          → (scan fuel next body (next p) ≡ ok (some (x, a)) → body x ≡ ok (some a))
          → body x ≡ ok (some a)
      split none at run ih = ih run
      split (some b) at run ih =
          let here : p ≡ x = cc in
          let same : b ≡ a = cc in
          subst (λ (q : ℕ). body q ≡ ok (some a)) here (at ∙ ap (λ (t : A). ok (some t)) same)

-- A library that defines the name by a global, defined symbol, and the symbol.
abbrev pub Exports : ℕ → Linker → List ℕ → ℕ → ℕ → Type 0
Exports fuel l name lib s =
    (elf_lookup fuel l.space.memory (l.infos lib) (elfhash name) name ≡ ok (some s))
    × (st_bind (sym_at l.space.memory s) ≡ stb_global)
    × ((sym_at l.space.memory s).st_shndx ≢ 0)

module _ (fuel : ℕ) (l : Linker) (name : List ℕ) where
  linear-lib :
      (start lib s : ℕ)
      → dlsym_linear_lookup fuel l name start ≡ ok (some (lib, s))
      → elf_lookup fuel l.space.memory (l.infos lib) (elfhash name) name ≡ ok (some s)
  unfolding dlsym_linear_lookup
  linear-lib start lib s e =
      scan-hit (λ p. (l.infos p).next)
        (λ p. elf_lookup fuel l.space.memory (l.infos p) (elfhash name) name) fuel
        (if start == 0 then l.solist else start) lib s e

  behind-lib :
      (o : Option ℕ) (lib s : ℕ)
      → lookup_behind fuel l name o ≡ ok (some (lib, s))
      → elf_lookup fuel l.space.memory (l.infos lib) (elfhash name) name ≡ ok (some s)
  unfolding lookup_behind
  behind-lib none lib s e = cc
  behind-lib (some si) lib s e = elim (Bool-cases ((l.infos si).next != 0)) [
    | inl more ↦
        let go : lookup_behind fuel l name (some si)
            ≡ dlsym_linear_lookup fuel l name (l.infos si).next =
          rw (more, lookup_behind) in
        linear-lib (l.infos si).next lib s (sym go ∙ e)
    | inr last ↦
        let go : lookup_behind fuel l name (some si) ≡ ok none = rw (last, lookup_behind) in
        let both = sym go ∙ e in cc
  ]

  handle-lib :
      (handle lib s : ℕ) (o : Option ℕ)
      → dlsym_handle_lookup fuel l handle name ≡ ok o
      → ok (found_in handle o) ≡ ok (some (lib, s))
      → elf_lookup fuel l.space.memory (l.infos lib) (elfhash name) name ≡ ok (some s)
  unfolding dlsym_handle_lookup
  handle-lib handle lib s none at run = cc
  handle-lib handle lib s (some s') at run = elim (Bool-cases (handle == 0)) [
    | inl null ↦
        let go : dlsym_handle_lookup fuel l handle name ≡ fault = rw (null, dlsym_handle_lookup) in
        let both : fault ≡ ok (some s') = sym go ∙ at in cc
    | inr given ↦
        let go : dlsym_handle_lookup fuel l handle name
            ≡ elf_lookup fuel l.space.memory (l.infos handle) (elfhash name) name =
          rw (given, dlsym_handle_lookup) in
        let here : handle ≡ lib = cc in
        let same : s' ≡ s = cc in
        subst
          (λ (q : ℕ). elf_lookup fuel l.space.memory (l.infos q) (elfhash name) name ≡ ok (some s))
          here (sym go ∙ at ∙ ap (λ (t : ℕ). ok (some t)) same)
  ]

  lookup-lib :
      (ret_addr handle lib s : ℕ)
      → dlsym_lookup fuel l ret_addr handle name ≡ ok (some (lib, s))
      → elf_lookup fuel l.space.memory (l.infos lib) (elfhash name) name ≡ ok (some s)
  unfolding dlsym_lookup
  lookup-lib ret_addr handle lib s e = elim (Bool-cases (handle == rtld_default)) [
    | inl all ↦
        let go : dlsym_lookup fuel l ret_addr handle name ≡ dlsym_linear_lookup fuel l name 0 =
          rw (all, dlsym_lookup) in
        linear-lib 0 lib s (sym go ∙ e)
    | inr other ↦ elim (Bool-cases (handle == rtld_next)) [
      | inl next ↦
          let go : dlsym_lookup fuel l ret_addr handle name
              ≡ (find_containing_library fuel l ret_addr >>= λ o. lookup_behind fuel l name o) =
            rw (other, next, dlsym_lookup) in
          let (o, at, run) =
            >>=-eq-ok (find_containing_library fuel l ret_addr) (λ o. lookup_behind fuel l name o)
              (sym go ∙ e) in
          behind-lib o lib s run
      | inr given ↦
          let go : dlsym_lookup fuel l ret_addr handle name
              ≡ (dlsym_handle_lookup fuel l handle name >>= λ o. ok (found_in handle o)) =
            rw (other, given, dlsym_lookup) in
          let (o, at, run) =
            >>=-eq-ok (dlsym_handle_lookup fuel l handle name) (λ o. ok (found_in handle o))
              (sym go ∙ e) in
          handle-lib handle lib s o at run
    ]
  ]

  -- If the return address lies in a library of the list, and the fuel exceeds the number of
  -- libraries behind it, s_dlsym with RTLD_NEXT searches exactly the libraries behind that one, in
  -- their order.
  pub s_dlsym-rtld_next :
      (ret_addr si : ℕ) (after : List ℕ)
      → find_containing_library fuel l ret_addr ≡ ok (some si)
      → Links (λ q. (l.infos q).next) si (si ∷ after)
      → length after < fuel
      → s_dlsym fuel l ret_addr rtld_next (some name) ≡ (
          lookup_in fuel l.space.memory l.infos after (elfhash name) name >>= λ r.
          ok (address_of l r))
  unfolding s_dlsym dlsym_lookup lookup_behind lookup_in
  s_dlsym-rtld_next ret_addr si [] holder links few =
      let last : ((l.infos si).next != 0) ≡ false = ground (arith, links.2) in rw (holder, last)
  s_dlsym-rtld_next ret_addr si (x ∷ xs) holder links few =
      let more : ((l.infos si).next != 0) ≡ true = ground (arith, links.2.0, links.2.1) in
      let start : (if (l.infos si).next == 0 then l.solist else (l.infos si).next)
          ≡ (l.infos si).next =
        ground (arith, links.2.0, links.2.1) in
      let found =
        dlsym_linear_lookup-lookup_in fuel l name (l.infos si).next (x ∷ xs)
          (subst (λ (q : ℕ). Links (λ q. (l.infos q).next) q (x ∷ xs)) (sym start) links.2) few in
      let go : s_dlsym fuel l ret_addr rtld_next (some name)
          ≡ (dlsym_linear_lookup fuel l name (l.infos si).next >>= λ r. ok (address_of l r)) =
        rw (holder, more) in
      go ∙ ap (λ (e : Exec (Option (ℕ × ℕ))). e >>= λ r. ok (address_of l r)) found

  address_of-cases :
      (lib s : ℕ)
      → (address_of l (some (lib, s)) ≡ 0)
        ⊎ ((st_bind (sym_at l.space.memory s) ≡ stb_global)
            × ((sym_at l.space.memory s).st_shndx ≢ 0)
            × (address_of l (some (lib, s))
                ≡ add32 (sym_at l.space.memory s).st_value (l.infos lib).load_bias))
  unfolding address_of
  address_of-cases lib s = ground arith

  -- An address that s_dlsym returns, whatever the handle, is that of a global and defined symbol that
  -- a library's lookup of the name gives, at the library's load bias: never of a weak one.
  pub s_dlsym-Exports :
      (ret_addr handle a : ℕ)
      → s_dlsym fuel l ret_addr handle (some name) ≡ ok a
      → a ≢ 0
      → (lib s : ℕ) × Exports fuel l name lib s
        × (a ≡ add32 (sym_at l.space.memory s).st_value (l.infos lib).load_bias)
  unfolding s_dlsym
  s_dlsym-Exports ret_addr handle a e given = elim (Bool-cases (handle == 0)) [
    | inl null ↦
        let go : s_dlsym fuel l ret_addr handle (some name) ≡ ok 0 = rw (null, s_dlsym) in
        let both : ok 0 ≡ ok a = sym go ∙ e in let zero_ : 0 ≡ a = cc in absurd (given (sym zero_))
    | inr live ↦
        let go : s_dlsym fuel l ret_addr handle (some name)
            ≡ (dlsym_lookup fuel l ret_addr handle name >>= λ r. ok (address_of l r)) =
          rw (live, s_dlsym) in
        let (r, at, run) =
          >>=-eq-ok (dlsym_lookup fuel l ret_addr handle name) (λ r. ok (address_of l r))
            (sym go ∙ e) in
        exported r at run
  ]
    where
      exported :
          (r : Option (ℕ × ℕ))
          → dlsym_lookup fuel l ret_addr handle name ≡ ok r
          → ok (address_of l r) ≡ ok a
          → (lib s : ℕ) × Exports fuel l name lib s
            × (a ≡ add32 (sym_at l.space.memory s).st_value (l.infos lib).load_bias)
      exported none at run = let zero_ : 0 ≡ a = cc in absurd (given (sym zero_))
      exported (some (lib, s)) at run =
          let is : address_of l (some (lib, s)) ≡ a = cc in
          elim (address_of-cases lib s) [
            | inl zero_ ↦ absurd (given (sym is ∙ zero_))
            | inr (bind, defined, value) ↦
                (lib, s, (lookup-lib ret_addr handle lib s at, bind, defined), sym is ∙ value)
          ]
