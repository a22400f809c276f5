-- ===== src/Libdl/Exports.antt =====
-- Looking up a name in libdl: soinfo_elf_lookup and s_dlsym over the static tables.
use and_emu.Base.{
  ℕ, suc, ◌+◌, ◌*◌, ◌%◌, ◌^◌, ◌<◌, ◌≡◌, refl, sym, ap, ◌∙◌, subst, ◌≢◌, inl, inr, true, false, some,
  List, [], ◌∷◌, ◌++◌, arith, ◌==◌, if◌then◌else◌, Bool-cases, length, take, drop, All,
}
use and_emu.Base.Exec.{ok}
use and_emu.Base.Scan.{first_hit, value_of, Links}
use and_emu.Base.Text.{codes}
use and_emu.Base.Word.{word}
use and_emu.Dlfcn.{rtld_default, rtld_next, address_of, found_in, dlsym_lookup, s_dlsym}
use and_emu.Elf.{Sym, sizeof_sym, sym_at}
use and_emu.Libdl.{
  Tables, libdl_strtab, sym_initializer, libdl_symtab, libdl_buckets, libdl_chains, libdl_info,
}
use and_emu.Memory.{Memory, load8, load32, str_eq}
use and_emu.Memory.Laws.{load32-lt}
use and_emu.Register.{same_name}
use and_emu.SoInfo.{SoInfo, Linker}
use and_emu.Symbol.{elfhash, symbol, next_in_chain, is_match, elf_lookup, dlsym_handle_lookup}
use and_emu.Symbol.Table.{symbol_hit, elf_lookup-first_hit}

-- The bytes of a list, from index `i` of a table on.
abbrev pub BytesAt : Memory → ℕ → ℕ → List ℕ → Type 0
BytesAt m a i [] = Unit
BytesAt m a i (c ∷ cs) = (load8 m (a + i) ≡ c) × BytesAt m a (suc i) cs

abbrev pub WordsAt : Memory → ℕ → ℕ → List ℕ → Type 0
WordsAt m a i [] = Unit
WordsAt m a i (x ∷ xs) = (load32 m (a + 4 * i) ≡ x) × WordsAt m a (suc i) xs

abbrev pub SymsAt : Memory → ℕ → ℕ → List Sym → Type 0
SymsAt m a i [] = Unit
SymsAt m a i (s ∷ ss) = (sym_at m (word (a + sizeof_sym * i)) ≡ s) × SymsAt m a (suc i) ss

-- The static tables are in memory.
pub record HoldsTables (t : Tables) (m : Memory) : Type 0 where
  pub strings : BytesAt m t.strings 0 libdl_strtab
  pub symbols : SymsAt m t.symbols 0 (libdl_symtab t)
  pub buckets : WordsAt m t.buckets 0 libdl_buckets
  pub chains : WordsAt m t.chains 0 libdl_chains

-- What libdl.so offers.
abbrev pub libdl_exports : Tables → List (List ℕ × ℕ)
libdl_exports t =
    (codes "dlopen", t.dlopen)
    ∷ (codes "dlclose", t.dlclose)
    ∷ (codes "dlsym", t.dlsym)
    ∷ (codes "dlerror", t.dlerror)
    ∷ (codes "dladdr", t.dladdr)
    ∷ (codes "__cxa_begin_cleanup", t.cxa_begin_cleanup)
    ∷ (codes "__cxa_call_unexpected", t.cxa_call_unexpected)
    ∷ (codes "dl_unwind_find_exidx", t.dl_unwind_find_exidx)
    ∷ []

-- The address under a name, or 0.
abbrev pub exported : List (List ℕ × ℕ) → List ℕ → ℕ
exported [] name = 0
exported ((e, v) ∷ es) name = if same_name name e then v else exported es name

abbrev NoNul : List ℕ → Type 0
NoNul name = All (λ c. c ≢ 0) name

BytesAt-append :
    (m : Memory) (a i : ℕ) (xs ys : List ℕ)
    → BytesAt m a i (xs ++ ys)
    → BytesAt m a (i + length xs) ys
BytesAt-append m a i [] ys b = subst (λ (j : ℕ). BytesAt m a j ys) (omega arith) b
BytesAt-append m a i (x ∷ xs) ys b =
    subst (λ (j : ℕ). BytesAt m a j ys) (omega arith) (BytesAt-append m a (suc i) xs ys b.1)

-- A string in memory is compared like a list.
str_eq-same_name :
    (m : Memory) (a i : ℕ) (cs rest name : List ℕ)
    → BytesAt m a i (cs ++ 0 ∷ rest)
    → NoNul cs
    → NoNul name
    → str_eq m (a + i) name ≡ same_name name cs
unfolding str_eq same_name
str_eq-same_name m a i [] rest [] b live given = ground (arith, b.0)
str_eq-same_name m a i [] rest (d ∷ ds) b live given = ground (arith, b.0, given.0)
str_eq-same_name m a i (c ∷ cs) rest [] b live given = ground (arith, b.0, live.0)
str_eq-same_name m a i (c ∷ cs) rest (d ∷ ds) b live given =
    let ih : str_eq m (a + suc i) ds ≡ same_name ds cs =
      str_eq-same_name m a (suc i) cs rest ds b.1 live.1 given.1 in
    let next : a + i + 1 ≡ a + suc i = omega arith in
    let at : load8 m (a + i) ≡ c = b.0 in rw (next, at, ih) (ground arith)

-- The symbol of index `n` is defined, global and stands under a name.
abbrev Offers : Memory → SoInfo → ℕ → List ℕ × ℕ → Type 0
Offers m si n (e, v) =
    ((name : List ℕ) → NoNul name → is_match m si name n ≡ same_name name e)
    × ((off : ℕ) × (sym_at m (symbol si n) ≡ sym_initializer off v 1))

abbrev Rows : Memory → SoInfo → ℕ → List (List ℕ × ℕ) → Type 0
Rows m si n [] = Unit
Rows m si n (e ∷ es) = Offers m si n e × Rows m si (suc n) es

-- The indices from `n` on.
abbrev indices : ℕ → List (List ℕ × ℕ) → List ℕ
indices n [] = []
indices n (e ∷ es) = n ∷ indices (suc n) es

Offers-symbol :
    (m : Memory) (si : SoInfo) (n off v : ℕ) (before : List ℕ) (e rest : List ℕ)
    → BytesAt m si.strtab 0 (before ++ (e ++ 0 ∷ rest))
    → NoNul e
    → length before ≡ off
    → sym_at m (symbol si n) ≡ sym_initializer off v 1
    → Offers m si n (e, v)
unfolding is_match
Offers-symbol m si n off v before e rest b live at_off sym_ = (
  (λ name given.
      let compared =
        str_eq-same_name m si.strtab (0 + length before) e rest name
          (BytesAt-append m si.strtab 0 before (e ++ 0 ∷ rest) b) live given in
      let place : 0 + length before ≡ off = omega (arith, at_off) in
      let same : str_eq m (si.strtab + off) name ≡ same_name name e = rw place at compared in
      rw (sym_, same) (ground arith)),
  (off, sym_),
)

sym_at-value-lt : (m : Memory) (a : ℕ) → (sym_at m a).st_value < 2 ^ 32
unfolding sym_at
sym_at-value-lt m a = load32-lt m (a + 4)

module _ (l : Linker) (h : ℕ) (name : List ℕ) (given : NoNul name)
    (unbiased : (l.infos h).load_bias ≡ 0) where
  first_hit-exported :
      (n : ℕ) (es : List (List ℕ × ℕ))
      → Rows l.space.memory (l.infos h) n es
      → address_of l (
          found_in h
            (value_of (first_hit (symbol_hit l.space.memory (l.infos h) name) (indices n es))))
        ≡ exported es name
  unfolding address_of
  first_hit-exported n [] rows = refl
  first_hit-exported n ((e, v) ∷ es) rows = elim (Bool-cases (same_name name e)) [
    | inl same ↦
        let matches : is_match l.space.memory (l.infos h) name n ≡ true =
          rows.0.0 name given ∙ same in
        let (off, at) = rows.0.1 in
        let small : v < 2 ^ 32 = omega (
          arith,
          ap (λ (x : Sym). x.st_value) at,
          sym_at-value-lt l.space.memory (symbol (l.infos h) n),
        ) in
        rw (matches, same, address_of) (rw (at, unbiased) (omega arith))
    | inr other ↦
        let misses : is_match l.space.memory (l.infos h) name n ≡ false =
          rows.0.0 name given ∙ other in
        rw (misses, other, first_hit) (first_hit-exported (suc n) es rows.1)
  ]

-- libdl's soinfo in a running linker.
abbrev pub libdl : Tables → ℕ → ℕ → SoInfo
libdl t next references = record (libdl_info t) { next = next; ref_count = references }

module _ (t : Tables) (m : Memory) (held : HoldsTables t m) (next references : ℕ) where
  chain_links :
      (hash : ℕ)
      → Links
          (next_in_chain m (libdl t next references))
          (load32 m (t.buckets + 4 * (hash % 1)))
          (indices 1 (libdl_exports t))
  chain_links hash =
      let only : hash % 1 ≡ 0 = omega arith in
      (
        rw only held.buckets.0,
        live 0,
        (
          held.chains.1.0,
          live 1,
          (
            held.chains.1.1.0,
            live 2,
            (
              held.chains.1.1.1.0,
              live 3,
              (
                held.chains.1.1.1.1.0,
                live 4,
                (
                  held.chains.1.1.1.1.1.0,
                  live 5,
                  (
                    held.chains.1.1.1.1.1.1.0,
                    live 6,
                    (held.chains.1.1.1.1.1.1.1.0, live 7, held.chains.1.1.1.1.1.1.1.1.0),
                  ),
                ),
              ),
            ),
          ),
        ),
      )
    where
      live : (i : ℕ) → suc i ≢ 0
      live i e = omega arith

  offered :
      (n off v : ℕ) (e : List ℕ)
      → libdl_strtab ≡ take off libdl_strtab ++ (e ++ 0 ∷ drop (suc (off + length e)) libdl_strtab)
      → NoNul e
      → length (take off libdl_strtab) ≡ off
      → sym_at m (symbol (libdl t next references) n) ≡ sym_initializer off v 1
      → Offers m (libdl t next references) n (e, v)
  offered n off v e split live at_off sym_ =
      Offers-symbol m (libdl t next references) n off v (take off libdl_strtab) e
        (drop (suc (off + length e)) libdl_strtab)
        (subst (λ (cs : List ℕ). BytesAt m t.strings 0 cs) split held.strings) live at_off sym_

  rows : Rows m (libdl t next references) 1 (libdl_exports t)
  rows = (
    offered 1 0 t.dlopen (codes "dlopen") refl (omega arith) refl held.symbols.1.0,
    (
      offered 2 7 t.dlclose (codes "dlclose") refl (omega arith) refl held.symbols.1.1.0,
      (
        offered 3 15 t.dlsym (codes "dlsym") refl (omega arith) refl held.symbols.1.1.1.0,
        (
          offered 4 21 t.dlerror (codes "dlerror") refl (omega arith) refl held.symbols.1.1.1.1.0,
          (
            offered 5 29 t.dladdr (codes "dladdr") refl (omega arith) refl held.symbols.1.1.1.1.1.0,
            (
              offered 6 36 t.cxa_begin_cleanup (codes "__cxa_begin_cleanup") refl (omega arith) refl
                  held.symbols.1.1.1.1.1.1.0,
              (
                offered 7 56 t.cxa_call_unexpected (codes "__cxa_call_unexpected") refl
                    (omega arith) refl held.symbols.1.1.1.1.1.1.1.0,
                (
                  offered 8 78 t.dl_unwind_find_exidx (codes "dl_unwind_find_exidx") refl
                      (omega arith) refl held.symbols.1.1.1.1.1.1.1.1.0,
                  tt,
                ),
              ),
            ),
          ),
        ),
      ),
    ),
  )

module _ (t : Tables) (l : Linker) (h next references fuel ret_addr : ℕ) (name : List ℕ) where
  -- Where the static tables of libdl are in memory, and h is the handle of libdl, whose next pointer
  -- and count of references may have any value, s_dlsym returns, with more fuel than 8, for every name
  -- without NUL the address of the linker's function that libdl.so exports under that name, and 0
  -- where it exports none: the chain of its one bucket reaches every symbol.
  pub s_dlsym-libdl :
      HoldsTables t l.space.memory
      → l.infos h ≡ libdl t next references
      → h ≢ 0
      → h ≢ rtld_default
      → h ≢ rtld_next
      → 8 < fuel
      → NoNul name
      → s_dlsym fuel l ret_addr h (some name) ≡ ok (exported (libdl_exports t) name)
  unfolding s_dlsym dlsym_lookup dlsym_handle_lookup
  s_dlsym-libdl held is live no_default no_next few given =
      let a : (h == 0) ≡ false = ground (arith, live) in
      let b : (h == rtld_default) ≡ false = ground (arith, no_default) in
      let c : (h == rtld_next) ≡ false = ground (arith, no_next) in
      rw (a, b, c, found) (ap ok exports)
    where
      m : Memory
      m = l.space.memory

      found :
          elf_lookup fuel m (l.infos h) (elfhash name) name
          ≡ ok (value_of (first_hit (symbol_hit m (l.infos h) name) (indices 1 (libdl_exports t))))
      found =
          subst
            (λ (i : SoInfo).
              elf_lookup fuel m i (elfhash name) name
              ≡ ok (value_of (first_hit (symbol_hit m i name) (indices 1 (libdl_exports t)))))
            (sym is)
            (elf_lookup-first_hit fuel m (libdl t next references) name (elfhash name)
              (indices 1 (libdl_exports t)) (omega arith)
              (chain_links t m held next references (elfhash name)) few)

      exports :
          address_of l (
            found_in h
              (value_of (first_hit (symbol_hit m (l.infos h) name) (indices 1 (libdl_exports t)))))
          ≡ exported (libdl_exports t) name
      exports =
          first_hit-exported l h name given (ap (λ (i : SoInfo). i.load_bias) is) 1
            (libdl_exports t)
            (subst (λ (i : SoInfo). Rows m i 1 (libdl_exports t)) (sym is)
              (rows t m held next references))
