-- ===== src/Reloc/Frame.antt =====
-- A whole relocation table: what it may touch, and what a table of RELATIVE entries does.
use Prim.Native.Nat.{bit_and}
use and_emu.Base.{
  ℕ, zero, suc, ◌+◌, ◌*◌, ◌^◌, ◌≤◌, ◌<◌, ◌≡◌, refl, ap, ◌∙◌, subst, Bool, Option, none, some, List,
  [], ◌∷◌, arith,
}
use and_emu.Base.Exec.{Exec, ok, fault, spin}
use and_emu.Base.Word.{word, sub32}
use and_emu.Elf.{sizeof_rel, rel_at}
use and_emu.Memory.{Memory, load32}
use and_emu.Reloc.{place, relocate_one, with_memory, relocate}
use and_emu.Reloc.Entry.{relocate_one-frame}
use and_emu.SoInfo.{flag_exe, SoInfo, Linker}

-- The places of the `count` entries at `rel`.
unfoldable pub places : SoInfo → Memory → ℕ → ℕ → List ℕ
places si m rel zero = []
places si m rel (suc count) = place si (rel_at m rel) ∷ places si m (rel + sizeof_rel) count

-- The byte at an address is in none of the words at `ps`.
abbrev pub Outside : List ℕ → ℕ → Type 0
Outside [] p = Unit {0}
Outside (q ∷ ps) p = (4 ≤ sub32 p q) × Outside ps p

-- The bytes of a table that no entry patches.
abbrev pub Unpatched : ℕ → ℕ → List ℕ → Type 0
Unpatched rel bytes ps = (i : ℕ) → i < bytes → Outside ps (word (rel + i))

pub load32-congr :
    (m g : Memory) (a : ℕ)
    → ((i : ℕ) → i < 4 → g (word (a + i)) ≡ m (word (a + i)))
    → load32 g a ≡ load32 m a
unfolding load32
load32-congr m g a same = ground (arith, same 0, same 1, same 2, same 3)

pub shift :
    (m g : Memory) (a k i : ℕ)
    → g (word (a + (k + i))) ≡ m (word (a + (k + i)))
    → g (word (a + k + i)) ≡ m (word (a + k + i))
shift m g a k i same =
    let e : a + (k + i) ≡ a + k + i = omega arith in
    subst (λ (t : ℕ). g (word t) ≡ m (word t)) e same

pub rel_at-congr :
    (m g : Memory) (a : ℕ)
    → ((i : ℕ) → i < 8 → g (word (a + i)) ≡ m (word (a + i)))
    → rel_at g a ≡ rel_at m a
unfolding rel_at
rel_at-congr m g a same = rw (
  load32-congr m g a (λ i lt. same i (omega arith)),
  load32-congr m g (a + 4) (λ i lt. shift m g a 4 i (same (4 + i) (omega arith))),
)

pub Outside-next :
    (ps : List ℕ) (rel i : ℕ) → Outside ps (word (rel + (8 + i))) → Outside ps (word (rel + 8 + i))
Outside-next ps rel i out =
    let e : rel + (8 + i) ≡ rel + 8 + i = omega arith in
    subst (λ (t : ℕ). Outside ps (word t)) e out

pub places-congr :
    (si : SoInfo) (m g : Memory) (rel count : ℕ)
    → ((i : ℕ) → i < 8 * count → g (word (rel + i)) ≡ m (word (rel + i)))
    → places si g rel count ≡ places si m rel count
unfolding places
places-congr si m g rel zero same = refl
places-congr si m g rel (suc count) same = rw (
  rel_at-congr m g rel (λ i lt. same i (omega arith)),
  places-congr si m g (rel + 8) count (λ i lt. shift m g rel 8 i (same (8 + i) (omega arith))),
)

module _ (fuel si : ℕ) (needed : List ℕ) where
  -- For a library that is not the main executable, applying a table whose own bytes it does not
  -- patch leaves every byte outside the patched words as it was, whether it succeeds or stops at an
  -- entry, and changes no soinfo.
  pub relocate-frame :
      (count rel : ℕ) (l l' : Linker) (b : Bool)
      → relocate fuel si needed count rel l ≡ ok (l', b)
      → bit_and (l.infos si).flags flag_exe ≡ 0
      → Unpatched rel (8 * count) (places (l.infos si) l.space.memory rel count)
      → (l'.infos ≡ l.infos)
        × ((p : ℕ)
            → p < 2 ^ 32
            → Outside (places (l.infos si) l.space.memory rel count) p
            → l'.space.memory p ≡ l.space.memory p)
  unfolding relocate places
  relocate-frame zero rel l l' b run library safe =
      let same : l' ≡ l = cc in
      (ap (λ (k : Linker). k.infos) same, λ p small out. ap (λ (k : Linker). k.space.memory p) same)
  relocate-frame (suc count) rel l l' b run library safe =
      go (relocate_one fuel l si needed (rel_at l.space.memory rel)) refl
        (λ m. relocate-frame count (rel + 8) (with_memory l m) l' b)
    where
      open l.space use {memory}

      goal : Type 0
      goal =
          (l'.infos ≡ l.infos)
          × ((p : ℕ)
              → p < 2 ^ 32
              → Outside (places (l.infos si) memory rel (suc count)) p
              → l'.space.memory p ≡ memory p)

      after :
          (m : Memory)
          → relocate_one fuel l si needed (rel_at memory rel) ≡ ok (some m)
          → (p : ℕ) → p < 2 ^ 32
          → 4 ≤ sub32 p (place (l.infos si) (rel_at memory rel))
          → m p ≡ memory p
      after m e p small away =
          relocate_one-frame fuel l si needed (rel_at memory rel) m p e library small away

      go :
          (r : Exec (Option Memory))
          → relocate_one fuel l si needed (rel_at memory rel) ≡ r
          → ((m : Memory)
              → relocate fuel si needed count (rel + 8) (with_memory l m) ≡ ok (l', b)
              → bit_and (l.infos si).flags flag_exe ≡ 0
              → Unpatched (rel + 8) (8 * count) (places (l.infos si) m (rel + 8) count)
              → (l'.infos ≡ l.infos)
                × ((p : ℕ)
                    → p < 2 ^ 32
                    → Outside (places (l.infos si) m (rel + 8) count) p
                    → l'.space.memory p ≡ m p))
          → goal
      go fault e ih = let run' = rw e at run in cc
      go spin e ih = let run' = rw e at run in cc
      go (ok none) e ih =
          let run' = rw e at run in
          let same : l' ≡ l = cc in
          (
            ap (λ (k : Linker). k.infos) same,
            λ p small out. ap (λ (k : Linker). k.space.memory p) same,
          )
      go (ok (some m)) e ih =
          let table : places (l.infos si) m (rel + 8) count
              ≡ places (l.infos si) memory (rel + 8) count =
            places-congr (l.infos si) memory m (rel + 8) count (λ i lt.
              shift memory m rel 8 i
                (after m e (word (rel + (8 + i))) (omega arith) (safe (8 + i) (omega arith)).0)) in
          let rest =
            ih m (rw e at run) library
              (λ i lt. rw table (Outside-next _ rel i (safe (8 + i) (omega arith)).1)) in
          (rest.0, λ p small out. rest.1 p small (rw table out.1) ∙ after m e p small out.0)
