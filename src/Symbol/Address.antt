-- ===== src/Symbol/Address.antt =====
-- From addresses to libraries and symbols.
use and_emu.Base.{
  ℕ, zero, suc, ◌+◌, ◌^◌, ◌≤◌, ◌<◌, ◌≡◌, refl, sym, ◌∙◌, ◌≢◌, ◌↔◌, ◌⊎◌, inl, inr, true, false,
  Option, none, some, List, arith, ◌==◌, if◌then◌else◌, Bool-cases, Option-cases, length, ◌∈◌,
}
use and_emu.Base.Exec.{Exec, ok, ◌>>=◌}
use and_emu.Base.Scan.{scan, first_hit, Links, scan-first_hit, first_hit_sound, first_hit-none}
use and_emu.Base.Word.{sub32}
use and_emu.Elf.{shn_undef, sym_at}
use and_emu.Memory.{Memory}
use and_emu.SoInfo.{SoInfo, Linker}
use and_emu.Symbol.{
  symbol, contains, find_containing_library, contains_pc, exidx_of, find_exidx, covers, symbol_from,
  dladdr_find_symbol,
}

-- `base ≤ a < base + size`, on numbers that do not wrap.
abbrev pub InImage : SoInfo → ℕ → Type 0
InImage si a = (si.base ≤ a) × (a < si.base + si.size)

-- The list of libraries, as its pointers link it.
abbrev pub IsLibraryList : Linker → List ℕ → Type 0
IsLibraryList l xs = Links (λ p. (l.infos p).next) l.solist xs

contains_iff :
    (si : SoInfo) (a : ℕ) → a < 2 ^ 32 → si.base < 2 ^ 32 → (contains si a ≡ true) ↔ InImage si a
contains_iff si a h k = ground arith

contains_pc-contains :
    (si : SoInfo) (a : ℕ)
    → a < 2 ^ 32
    → si.base + si.size < 2 ^ 32
    → contains_pc si a ≡ contains si a
contains_pc-contains si a h k = ground arith

abbrev holds : Linker → ℕ → ℕ → Option (Unit {0})
holds l a p = if contains (l.infos p) a then some tt else none

-- A library of the list whose image holds the address, or NULL where none does.
abbrev pub Owner : Linker → List ℕ → ℕ → Exec (Option ℕ) → Type 0
Owner l xs a r =
    ((p : ℕ) × (p ∈ xs) × InImage (l.infos p) a × (r ≡ ok (some p)))
    ⊎ ((r ≡ ok none) × ((p : ℕ) → p ∈ xs → ¬ InImage (l.infos p) a))

module _ (fuel : ℕ) (l : Linker) (xs : List ℕ) (list : IsLibraryList l xs) (few : length xs < fuel)
    (words : (p : ℕ) → (l.infos p).base < 2 ^ 32) where
  -- Over a list of libraries, shorter than the fuel and with bases that are words,
  -- find_containing_library returns, with a library whose image holds the address, or with NULL where
  -- no image does.
  pub find_containing_library-Owner :
      (a : ℕ) → a < 2 ^ 32 → Owner l xs a (find_containing_library fuel l a)
  unfolding find_containing_library
  find_containing_library-Owner a small = elim (Option-cases (first_hit (holds l a) xs)) [
    | inl miss ↦ inr (rw (e, miss), λ p m inside. outside p m miss inside)
    | inr ((p, u), got) ↦
        let sound = first_hit_sound (holds l a) xs p u got in
        inl (
          p,
          sound.0,
          (contains_iff (l.infos p) a small (words p)).0 (ground (arith, sound.1)),
          rw (e, got),
        )
  ]
    where
      e :
          scan fuel
            (λ p. (l.infos p).next)
            (λ p. ok (if contains (l.infos p) a then some tt else none))
            l.solist
          ≡ ok (first_hit (holds l a) xs)
      e = scan-first_hit (λ p. (l.infos p).next) _ (holds l a) (λ x. refl) fuel _ xs list few

      outside : (p : ℕ) → p ∈ xs → first_hit (holds l a) xs ≡ none → ¬ InImage (l.infos p) a
      outside p m miss inside = ground (
        arith,
        first_hit-none (holds l a) xs p miss m,
        (contains_iff (l.infos p) a small (words p)).1 inside,
      )

  -- Over a list of libraries, shorter than the fuel, of which none reaches the end of the address
  -- space, the unwinder's search gives the exidx table of the library that find_containing_library
  -- finds, and null and 0 where that finds none.
  pub find_exidx-find_containing_library :
      (a : ℕ)
      → a < 2 ^ 32
      → ((p : ℕ) → (l.infos p).base + (l.infos p).size < 2 ^ 32)
      → find_exidx fuel l a ≡ (find_containing_library fuel l a >>= λ r. ok (exidx_of l r))
  unfolding find_exidx find_containing_library
  find_exidx-find_containing_library a small fits =
      simp (λ (p : ℕ). contains_pc-contains (l.infos p) a small (fits p), e)
    where
      e :
          scan fuel
            (λ p. (l.infos p).next)
            (λ p. ok (if contains (l.infos p) a then some tt else none))
            l.solist
          ≡ ok (first_hit (holds l a) xs)
      e = scan-first_hit (λ p. (l.infos p).next) _ (holds l a) (λ x. refl) fuel _ xs list few

-- For a library at a word, whose image ends with the address space, the test of the unwinder's
-- search fails at every address of the image, while the test of find_containing_library holds.
pub contains_pc_at_top :
    (si : SoInfo) (a : ℕ)
    → a < 2 ^ 32
    → si.base < 2 ^ 32
    → si.base + si.size ≡ 2 ^ 32
    → InImage si a
    → (contains_pc si a ≡ false) × (contains si a ≡ true)
contains_pc_at_top si a h k top inside = ground arith

-- The lowest index that passes the test, or NULL where none does.
abbrev LowestCover : Memory → SoInfo → ℕ → ℕ → ℕ → Option ℕ → Type 0
LowestCover m si soaddr i end r =
    ((k : ℕ) × (i ≤ k)
      × (k < end)
      × (covers m si soaddr k ≡ true)
      × ((j : ℕ) → i ≤ j → j < k → covers m si soaddr j ≡ false)
      × (r ≡ some (symbol si k)))
    ⊎ ((r ≡ none) × ((j : ℕ) → i ≤ j → j < end → covers m si soaddr j ≡ false))

symbol_from-LowestCover :
    (m : Memory) (si : SoInfo) (soaddr i count end : ℕ)
    → i + count ≡ end
    → LowestCover m si soaddr i end (symbol_from m si soaddr i count)
unfolding symbol_from
symbol_from-LowestCover m si soaddr i zero end e = inr (refl, λ j p q. absurd (omega arith))
symbol_from-LowestCover m si soaddr i (suc count) end e = elim (Bool-cases (covers m si soaddr i)) [
  | inl hit ↦ inl (i, omega arith, omega arith, hit, (λ j p q. absurd (omega arith)), rw hit)
  | inr miss ↦
      rw miss (later miss (symbol_from-LowestCover m si soaddr (i + 1) count end (omega arith)))
]
  where
    skip :
        covers m si soaddr i ≡ false
        → (k : ℕ) → ((j : ℕ) → i + 1 ≤ j → j < k → covers m si soaddr j ≡ false)
        → (j : ℕ) → i ≤ j
        → j < k
        → covers m si soaddr j ≡ false
    skip miss k rest j p q = elim (Bool-cases (i == j)) [
      | inl same ↦ let s : i ≡ j = ground arith in rw s at miss
      | inr other ↦ rest j (ground arith) q
    ]

    later :
        {r : Option ℕ}
        → covers m si soaddr i ≡ false
        → LowestCover m si soaddr (i + 1) end r
        → LowestCover m si soaddr i end r
    later miss (inl (k, p, q, c, below, e')) = inl (k, omega arith, q, c, skip miss k below, e')
    later miss (inr (e', none_)) = inr (e', skip miss end none_)

-- Symbol `i` is defined, and the address lies in its extent behind the base, on numbers that do not
-- wrap.
abbrev pub InSymbol : Memory → SoInfo → ℕ → ℕ → Type 0
InSymbol m si addr i =
    ((sym_at m (symbol si i)).st_shndx ≢ shn_undef)
    × (si.base + (sym_at m (symbol si i)).st_value ≤ addr)
    × (addr < si.base + (sym_at m (symbol si i)).st_value + (sym_at m (symbol si i)).st_size)

-- No symbol's extent wraps round the address space.
abbrev pub ExtentsFit : Memory → SoInfo → Type 0
ExtentsFit m si =
    (i : ℕ)
    → i < si.nchain
    → (sym_at m (symbol si i)).st_value + (sym_at m (symbol si i)).st_size < 2 ^ 32

-- The first symbol whose extent holds the address, or NULL where no extent does.
abbrev pub FirstHolding : Memory → SoInfo → ℕ → Option ℕ → Type 0
FirstHolding m si addr r =
    ((i : ℕ) × (i < si.nchain)
      × InSymbol m si addr i
      × ((j : ℕ) → j < i → ¬ InSymbol m si addr j)
      × (r ≡ some (symbol si i)))
    ⊎ ((r ≡ none) × ((j : ℕ) → j < si.nchain → ¬ InSymbol m si addr j))

module _ (m : Memory) (si : SoInfo) (addr : ℕ) (small : addr < 2 ^ 32) (behind : si.base ≤ addr)
    (fit : ExtentsFit m si) where
  covers_iff :
      (i : ℕ) → i < si.nchain → (covers m si (sub32 addr si.base) i ≡ true) ↔ InSymbol m si addr i
  unfolding covers
  covers_iff i within = ground (arith, fit i within)

  uncovered :
      (j : ℕ) → j < si.nchain → covers m si (sub32 addr si.base) j ≡ false → ¬ InSymbol m si addr j
  uncovered j within miss inside =
      let hit : covers m si (sub32 addr si.base) j ≡ true = (covers_iff j within).1 inside in
      let both : true ≡ false = sym hit ∙ miss in cc

  -- For an address behind the library's base, where no symbol's extent wraps round the address
  -- space, dladdr_find_symbol returns the first defined symbol in the table whose extent, moved by
  -- the base, holds the address, and NULL where there is none.
  pub dladdr_find_symbol-FirstHolding : FirstHolding m si addr (dladdr_find_symbol m si addr)
  unfolding dladdr_find_symbol
  dladdr_find_symbol-FirstHolding =
      elim (symbol_from-LowestCover m si (sub32 addr si.base) 0 si.nchain si.nchain (omega arith)) [
        | inl (k, low, within, hit, none_before, at) ↦ inl (
          k,
          within,
          (covers_iff k within).0 hit,
          (λ j before. uncovered j (omega arith) (none_before j (omega arith) before)),
          at,
        )
        | inr (nothing, none_) ↦
            inr (nothing, (λ j within. uncovered j within (none_ j (omega arith) within)))
      ]
