-- ===== src/Reloc/Relative.antt =====
-- A table of R_ARM_RELATIVE entries only, as most libraries' DT_REL begins.
use Prim.Native.Nat.{bit_and}
use and_emu.Base.{
  ℕ, zero, suc, ◌+◌, ◌*◌, ◌^◌, ◌≤◌, ◌<◌, ◌≡◌, refl, ◌∙◌, true, some, List, [], ◌∷◌, arith, All,
}
use and_emu.Base.Exec.{ok}
use and_emu.Base.Word.{word, add32, sub32}
use and_emu.Elf.{Rel, sizeof_rel, rel_at, r_sym, r_type}
use and_emu.Memory.{Memory, load32}
use and_emu.Memory.Laws.{Apart}
use and_emu.Reloc.{r_arm_relative, place, relocate_one, with_memory, relocate}
use and_emu.Reloc.Entry.{relocate_one-relative}
use and_emu.Reloc.Frame.{
  places, Outside, Unpatched, load32-congr, shift, rel_at-congr, Outside-next, places-congr,
  relocate-frame,
}
use and_emu.SoInfo.{flag_exe, SoInfo, Linker}

abbrev pub AllRelative : Memory → ℕ → ℕ → Type 0
AllRelative m rel zero = Unit {0}
AllRelative m rel (suc count) =
    (r_type (rel_at m rel) ≡ r_arm_relative)
    × (r_sym (rel_at m rel) ≡ 0)
    × AllRelative m (rel + sizeof_rel) count

-- No word of the second list overlaps the word at `p`.
abbrev pub ApartFrom : ℕ → List ℕ → Type 0
ApartFrom p [] = Unit {0}
ApartFrom p (q ∷ qs) = Apart p q × ApartFrom p qs

abbrev pub Separate : List ℕ → Type 0
Separate [] = Unit {0}
Separate (p ∷ ps) = ApartFrom p ps × Separate ps

-- Each word at `ps` has grown by `base`.
abbrev pub Rebased : ℕ → Memory → Memory → List ℕ → Type 0
Rebased base m g [] = Unit {0}
Rebased base m g (p ∷ ps) = (load32 g p ≡ add32 (load32 m p) base) × Rebased base m g ps

-- The places are addresses.
places_word : (si : SoInfo) (r : Rel) → place si r < 2 ^ 32
places_word si r = omega arith

ApartFrom-Outside :
    (p i : ℕ) (qs : List ℕ)
    → i < 4
    → p < 2 ^ 32
    → All (λ q. q < 2 ^ 32) qs
    → ApartFrom p qs
    → Outside qs (word (p + i))
ApartFrom-Outside p i [] lt small words apart = tt
ApartFrom-Outside p i (q ∷ qs) lt small words apart =
    (omega arith, ApartFrom-Outside p i qs lt small words.1 apart.1)

places-words :
    (si : SoInfo) (m : Memory) (rel count : ℕ) → All (λ q. q < 2 ^ 32) (places si m rel count)
unfolding places
places-words si m rel zero = tt
places-words si m rel (suc count) = (omega arith, places-words si m (rel + sizeof_rel) count)

-- A memory that differs only in the word at `p` has the other words of the list.
Rebased-other :
    (base p : ℕ) (m m₁ g : Memory) (qs : List ℕ)
    → p < 2 ^ 32
    → ((a : ℕ) → a < 2 ^ 32 → 4 ≤ sub32 a p → m₁ a ≡ m a)
    → All (λ q. q < 2 ^ 32) qs
    → ApartFrom p qs
    → Rebased base m₁ g qs
    → Rebased base m g qs
Rebased-other base p m m₁ g [] small same words apart done = tt
Rebased-other base p m m₁ g (q ∷ qs) small same words apart done =
    let kept = load32-congr m m₁ q (λ i lt. same (word (q + i)) (omega arith) (omega arith)) in
    (rw (← kept) done.0, Rebased-other base p m m₁ g qs small same words.1 apart.1 done.1)

AllRelative-congr :
    (m g : Memory) (rel count : ℕ)
    → ((i : ℕ) → i < 8 * count → g (word (rel + i)) ≡ m (word (rel + i)))
    → AllRelative m rel count
    → AllRelative g rel count
AllRelative-congr m g rel zero same all = tt
AllRelative-congr m g rel (suc count) same all =
    let entry = rel_at-congr m g rel (λ i lt. same i (omega arith)) in
    (
      rw entry all.0,
      rw entry all.1,
      AllRelative-congr m g (rel + 8) count (λ i lt. shift m g rel 8 i (same (8 + i) (omega arith)))
          all.2,
    )

module _ (fuel si : ℕ) (needed : List ℕ) where
  -- What the loop leaves, with its success.
  abbrev Done : ℕ → ℕ → Linker → Type 0
  Done count rel l =
      (l' : Linker) × (relocate fuel si needed count rel l ≡ ok (l', true))
      × Rebased (l.infos si).base l.space.memory l'.space.memory
          (places (l.infos si) l.space.memory rel count)

  relocate-Rebased_step :
      (count rel : ℕ) (l : Linker)
      → bit_and (l.infos si).flags flag_exe ≡ 0
      → AllRelative l.space.memory rel (suc count)
      → Separate (places (l.infos si) l.space.memory rel (suc count))
      → Unpatched rel (8 * suc count) (places (l.infos si) l.space.memory rel (suc count))
      → ((m : Memory)
          → AllRelative m (rel + 8) count
          → Separate (places (l.infos si) m (rel + 8) count)
          → Unpatched (rel + 8) (8 * count) (places (l.infos si) m (rel + 8) count)
          → Done count (rel + 8) (with_memory l m))
      → Done (suc count) rel l
  unfolding relocate places
  relocate-Rebased_step count rel l library all apart safe ih = (
    tail.0,
    rw one.1 tail.1,
    (
      load32-congr m tail.0.space.memory p₀ (λ i lt.
            kept.1 (word (p₀ + i)) (omega arith)
              (rw table (ApartFrom-Outside p₀ i _ lt (omega arith) words apart.0)))
          ∙ one.2,
      Rebased-other (l.infos si).base p₀ memory m tail.0.space.memory _ (omega arith) one.3 words
          apart.0 (rw table at tail.2),
    ),
  )
    where
      open l.space use {memory}

      p₀ : ℕ
      p₀ = place (l.infos si) (rel_at memory rel)

      one :
          (m : Memory) × (relocate_one fuel l si needed (rel_at memory rel) ≡ ok (some m))
          × (load32 m p₀ ≡ add32 (load32 memory p₀) (l.infos si).base)
          × ((p : ℕ) → p < 2 ^ 32 → 4 ≤ sub32 p p₀ → m p ≡ memory p)
      one = relocate_one-relative fuel l si needed (rel_at memory rel) all.0 all.1

      m : Memory
      m = one.0

      words : All (λ q. q < 2 ^ 32) (places (l.infos si) memory (rel + 8) count)
      words = places-words (l.infos si) memory (rel + 8) count

      same : (i : ℕ) → i < 8 * count → m (word (rel + 8 + i)) ≡ memory (word (rel + 8 + i))
      same i lt =
          shift memory m rel 8 i
            (one.3 (word (rel + (8 + i))) (omega arith) (safe (8 + i) (omega arith)).0)

      table : places (l.infos si) m (rel + 8) count ≡ places (l.infos si) memory (rel + 8) count
      table = places-congr (l.infos si) memory m (rel + 8) count same

      safe' : Unpatched (rel + 8) (8 * count) (places (l.infos si) m (rel + 8) count)
      safe' i lt = rw table (Outside-next _ rel i (safe (8 + i) (omega arith)).1)

      tail : Done count (rel + 8) (with_memory l m)
      tail = ih m (AllRelative-congr memory m (rel + 8) count same all.2) (rw table apart.1) safe'

      kept :
          (tail.0.infos ≡ l.infos)
          × ((p : ℕ)
              → p < 2 ^ 32
              → Outside (places (l.infos si) m (rel + 8) count) p
              → tail.0.space.memory p ≡ m p)
      kept =
          relocate-frame fuel si needed count (rel + 8) (with_memory l m) tail.0 true tail.1 library
            safe'

  -- For a library that is not the main executable, a table of RELATIVE entries without symbols,
  -- whose places overlap neither one another nor the table, is applied to the end with success, and
  -- the word at every place grows by the library's base.
  pub relocate-Rebased :
      (count rel : ℕ) (l : Linker)
      → bit_and (l.infos si).flags flag_exe ≡ 0
      → AllRelative l.space.memory rel count
      → Separate (places (l.infos si) l.space.memory rel count)
      → Unpatched rel (8 * count) (places (l.infos si) l.space.memory rel count)
      → (l' : Linker) × (relocate fuel si needed count rel l ≡ ok (l', true))
        × Rebased
            (l.infos si).base
            l.space.memory
            l'.space.memory
            (places (l.infos si) l.space.memory rel count)
  unfolding relocate places
  relocate-Rebased zero rel l library all apart safe = (l, refl, tt)
  relocate-Rebased (suc count) rel l library all apart safe =
      relocate-Rebased_step count rel l library all apart safe
        (λ m. relocate-Rebased count (rel + 8) (with_memory l m) library)
