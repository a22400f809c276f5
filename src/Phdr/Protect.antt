-- ===== src/Phdr/Protect.antt =====
-- The protection changes, as one list of requests.
use Prim.Native.Nat.{bit_and, bit_or}
use and_emu.Base.{
  ℕ, zero, suc, ◌+◌, ◌^◌, ◌≤◌, ◌≡◌, refl, sym, ap, ◌∙◌, subst, inl, inr, true, false, ◌&&◌, ◌||◌,
  List, [], ◌∷◌, arith, ◌==◌, ◌!=◌, if◌then◌else◌, Bool-cases, All, Any,
}
use and_emu.Base.Word.{add32, sub32, page_size, page_start, page_end}
use and_emu.Elf.{pt_load, pt_gnu_relro, pf_w, Phdr, sizeof_phdr, phdr_at, phdr_table}
use and_emu.Kernel.{Space, Attempt, done, failed, and_then, space_of, Kernel, prot_read}
use and_emu.Phdr.{
  pflags_to_prot, protect_pages, set_load_prot, set_gnu_relro_prot, protect_gnu_relro,
}

-- An `s_mprotect`: first address, size, protection.
pub record Request : Type 0 where
  pub first_page : ℕ
  pub size : ℕ
  pub prot : ℕ

-- The requests in order, up to the first that fails.
pub issue : Kernel → List Request → Space → Attempt (Unit {0})
issue k [] s = done tt s
issue k (q ∷ qs) s = and_then (k.mprotect q.first_page q.size q.prot s) (λ _ s'. issue k qs s')

-- The pages that a header touches, moved by the bias.
abbrev pub pages_of : ℕ → ℕ → Phdr → Request
pages_of bias prot p = record {
  first_page = add32 (page_start p.p_vaddr) bias;
  size =
      sub32 (add32 (page_end (add32 p.p_vaddr p.p_memsz)) bias) (add32 (page_start p.p_vaddr) bias);
  prot = prot;
}

-- One request for each loadable segment that is not writable, with its own protection and `extra`.
pub load_requests : ℕ → ℕ → List Phdr → List Request
load_requests bias extra [] = []
load_requests bias extra (p ∷ ps) =
    if p.p_type == pt_load && bit_and p.p_flags pf_w == 0
    then pages_of bias (bit_or (pflags_to_prot p.p_flags) extra) p ∷ load_requests bias extra ps
    else load_requests bias extra ps

unfoldable pub relro_requests : ℕ → ℕ → List Phdr → List Request
relro_requests bias prot [] = []
relro_requests bias prot (p ∷ ps) =
    if p.p_type == pt_gnu_relro
    then pages_of bias prot p ∷ relro_requests bias prot ps
    else relro_requests bias prot ps

-- Changing protections changes no byte.
abbrev pub KeepsBytes : Kernel → Type 0
KeepsBytes k = (a n p : ℕ) (s : Space) → (space_of (k.mprotect a n p s)).memory ≡ s.memory

module _ (k : Kernel) (keeps : KeepsBytes k) (bias : ℕ) where
  after_request :
      (prot : ℕ) (p : Phdr) (s : Space) (rest : Space → Attempt (Unit {0})) (qs : List Request)
      → ((s' : Space) → s'.memory ≡ s.memory → rest s' ≡ issue k qs s')
      → and_then (protect_pages k bias p prot s) (λ _ s'. rest s')
        ≡ issue k (pages_of bias prot p ∷ qs) s
  unfolding issue
  after_request prot p s rest qs go = split (k.mprotect q.first_page q.size q.prot s) refl
    where
      q : Request
      q = pages_of bias prot p

      split :
          (r : Attempt (Unit {0}))
          → k.mprotect q.first_page q.size q.prot s ≡ r
          → and_then (protect_pages k bias p prot s) (λ _ s'. rest s') ≡ issue k (q ∷ qs) s
      split (failed s') e = rw e
      split (done u s') e =
          let kept : s'.memory ≡ s.memory =
            ap (λ (t : Attempt (Unit {0})). (space_of t).memory) (sym e)
            ∙ keeps q.first_page q.size q.prot s in
          rw e (go s' kept)

  -- Over a kernel whose changes of protection change no byte, protecting the loadable segments
  -- issues, in the order of the headers, one request for each segment that is loadable and not
  -- writable, with its own protection and the extra flags, and stops at the first that fails.
  pub set_load_prot-issue :
      (extra table count : ℕ) (s : Space)
      → set_load_prot k bias extra table count s
        ≡ issue k (load_requests bias extra (phdr_table s.memory table count)) s
  unfolding set_load_prot issue load_requests phdr_table
  set_load_prot-issue extra table zero s = refl
  set_load_prot-issue extra table (suc count) s =
      elim (Bool-cases (p.p_type == pt_load && bit_and p.p_flags pf_w == 0)) [
        | inl taken ↦
            let test : (p.p_type != pt_load || bit_and p.p_flags pf_w != 0) ≡ false =
              ground arith in
            rw (taken, test)
              (after_request (bit_or (pflags_to_prot p.p_flags) extra) p s
                (λ s'. set_load_prot k bias extra (table + sizeof_phdr) count s')
                (load_requests bias extra (phdr_table s.memory (table + sizeof_phdr) count))
                (λ s' kept.
                  set_load_prot-issue extra (table + sizeof_phdr) count s'
                  ∙ ap
                      (λ (m : ℕ → ℕ).
                        issue k
                          (load_requests bias extra (phdr_table m (table + sizeof_phdr) count)) s')
                      kept))
        | inr passed ↦
            let test : (p.p_type != pt_load || bit_and p.p_flags pf_w != 0) ≡ true = ground arith in
            rw (passed, test) (set_load_prot-issue extra (table + sizeof_phdr) count s)
      ]
    where
      p : Phdr
      p = phdr_at s.memory table

  -- Over a kernel whose changes of protection change no byte, changing the protection of the RELRO
  -- segments issues one request for each of them, in the order of the headers, and stops at the
  -- first that fails.
  pub set_gnu_relro_prot-issue :
      (prot table count : ℕ) (s : Space)
      → set_gnu_relro_prot k bias prot table count s
        ≡ issue k (relro_requests bias prot (phdr_table s.memory table count)) s
  unfolding set_gnu_relro_prot issue relro_requests phdr_table
  set_gnu_relro_prot-issue prot table zero s = refl
  set_gnu_relro_prot-issue prot table (suc count) s = elim (Bool-cases (p.p_type == pt_gnu_relro)) [
    | inl taken ↦
        let test : (p.p_type != pt_gnu_relro) ≡ false = ground arith in
        rw (taken, test)
          (after_request prot p s
            (λ s'. set_gnu_relro_prot k bias prot (table + sizeof_phdr) count s')
            (relro_requests bias prot (phdr_table s.memory (table + sizeof_phdr) count))
            (λ s' kept.
              set_gnu_relro_prot-issue prot (table + sizeof_phdr) count s'
              ∙ ap
                  (λ (m : ℕ → ℕ).
                    issue k (relro_requests bias prot (phdr_table m (table + sizeof_phdr) count))
                      s')
                  kept))
    | inr passed ↦
        let test : (p.p_type != pt_gnu_relro) ≡ true = ground arith in
        rw (passed, test) (set_gnu_relro_prot-issue prot (table + sizeof_phdr) count s)
  ]
    where
      p : Phdr
      p = phdr_at s.memory table

-- The header's bytes, moved by the bias, end at least a page below the end of the address space.
abbrev pub StaysBelow : ℕ → Phdr → Type 0
StaysBelow bias p = p.p_vaddr + bias + p.p_memsz + page_size ≤ 2 ^ 32

-- The request is for the protection, and its pages hold all bytes of the header.
abbrev pub CoversAll : ℕ → ℕ → Phdr → Request → Type 0
CoversAll bias prot p q =
    (q.prot ≡ prot)
    × (q.first_page ≤ p.p_vaddr + bias)
    × (p.p_vaddr + bias + p.p_memsz ≤ q.first_page + q.size)

-- One of the requests covers the header, if it is a PT_GNU_RELRO.
abbrev pub IsProtected : ℕ → ℕ → List Request → Phdr → Type 0
IsProtected bias prot qs p = p.p_type ≡ pt_gnu_relro → Any (CoversAll bias prot p) qs

pages_of-CoversAll :
    (bias prot : ℕ) (p : Phdr) → StaysBelow bias p → CoversAll bias prot p (pages_of bias prot p)
unfolding page_start page_end
pages_of-CoversAll bias prot p below = (refl, omega (arith, below), omega (arith, below))

IsProtected-more :
    (bias prot : ℕ) (q : Request) (qs : List Request) (ps : List Phdr)
    → All (IsProtected bias prot qs) ps
    → All (IsProtected bias prot (q ∷ qs)) ps
IsProtected-more bias prot q qs [] all = tt
IsProtected-more bias prot q qs (p ∷ ps) all =
    (λ typed. inr (all.0 typed), IsProtected-more bias prot q qs ps all.1)

relro_requests-IsProtected :
    (bias prot : ℕ) (ps : List Phdr)
    → All (StaysBelow bias) ps
    → All (IsProtected bias prot (relro_requests bias prot ps)) ps
unfolding relro_requests
relro_requests-IsProtected bias prot [] below = tt
relro_requests-IsProtected bias prot (p ∷ ps) below =
    let ih = relro_requests-IsProtected bias prot ps below.1 in
    elim (Bool-cases (p.p_type == pt_gnu_relro)) [
      | inl taken ↦
          let same : relro_requests bias prot (p ∷ ps)
              ≡ pages_of bias prot p ∷ relro_requests bias prot ps =
            rw taken in
          subst (λ (qs : List Request). All (IsProtected bias prot qs) (p ∷ ps)) (sym same)
            (
              λ typed. inl (pages_of-CoversAll bias prot p below.0),
              IsProtected-more bias prot (pages_of bias prot p) (relro_requests bias prot ps) ps ih,
            )
      | inr passed ↦
          let same : relro_requests bias prot (p ∷ ps) ≡ relro_requests bias prot ps = rw passed in
          subst (λ (qs : List Request). All (IsProtected bias prot qs) (p ∷ ps)) (sym same)
            (λ typed. absurd (other passed typed), ih)
    ]
  where
    other : (p.p_type == pt_gnu_relro) ≡ false → p.p_type ≡ pt_gnu_relro → ⊥
    other passed typed = ground arith

-- Where changing protections changes no byte, and every header ends a page below the end of the
-- address space, protecting the RELRO segments issues one request for each of them, in the order of
-- the headers, up to the first that fails; and of these requests, one is for reading only, on pages
-- that hold all bytes of the segment, for each of the segments.
pub protect_gnu_relro-IsProtected :
    (k : Kernel)
    → KeepsBytes k
    → (bias table count : ℕ) (s : Space) → All (StaysBelow bias) (phdr_table s.memory table count)
    → (protect_gnu_relro k bias table count s
        ≡ issue k (relro_requests bias prot_read (phdr_table s.memory table count)) s)
      × All
          (IsProtected bias prot_read
            (relro_requests bias prot_read (phdr_table s.memory table count)))
          (phdr_table s.memory table count)
unfolding protect_gnu_relro
protect_gnu_relro-IsProtected k keeps bias table count s below = (
  set_gnu_relro_prot-issue k keeps bias prot_read table count s,
  relro_requests-IsProtected bias prot_read (phdr_table s.memory table count) below,
)
