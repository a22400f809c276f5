-- ===== src/Symbol/Table.antt =====
-- The hash table of a library: what soinfo_elf_lookup finds in it.
use and_emu.Base.{
  ℕ, ◌+◌, ◌*◌, ◌%◌, ◌<◌, ◌≡◌, refl, ap, ◌∙◌, ◌⊎◌, inl, inr, true, false, Option, none, some, List,
  arith, ◌==◌, if◌then◌else◌, Bool-cases, Option-cases, length, ◌∈◌,
}
use and_emu.Base.Exec.{Exec, ok}
use and_emu.Base.Scan.{first_hit, value_of, Links, scan-first_hit, first_hit_sound, first_hit-none}
use and_emu.Memory.{Memory, load32}
use and_emu.SoInfo.{SoInfo}
use and_emu.Symbol.{elfhash, symbol, next_in_chain, is_match, elf_lookup}

-- A SysV hash table: the chain of each bucket ends, and each symbol that a lookup could match is
-- on the chain of its name's bucket.
pub record IsHashTable (fuel : ℕ) (m : Memory) (si : SoInfo) : Type 0 where
  pub chains : ℕ → List ℕ
  pub buckets : 0 < si.nbucket
  pub linked :
      (b : ℕ)
      → b < si.nbucket
      → Links (next_in_chain m si) (load32 m (si.bucket + 4 * b)) (chains b)
  pub short : (b : ℕ) → length (chains b) < fuel
  pub filed :
      (name : List ℕ) (n : ℕ)
      → 0 < n
      → n < si.nchain
      → is_match m si name n ≡ true
      → n ∈ chains (elfhash name % si.nbucket)
  pub within : (b n : ℕ) → n ∈ chains b → n < si.nchain

abbrev pub symbol_hit : Memory → SoInfo → List ℕ → ℕ → Option ℕ
symbol_hit m si name n = if is_match m si name n then some (symbol si n) else none

module _ (fuel : ℕ) (m : Memory) (si : SoInfo) (name : List ℕ) where
  -- Where the chain of the hash's bucket ends, the lookup returns its first matching symbol.
  pub elf_lookup-first_hit :
      (hash : ℕ) (ns : List ℕ)
      → 0 < si.nbucket
      → Links (next_in_chain m si) (load32 m (si.bucket + 4 * (hash % si.nbucket))) ns
      → length ns < fuel
      → elf_lookup fuel m si hash name ≡ ok (value_of (first_hit (symbol_hit m si name) ns))
  unfolding elf_lookup
  elf_lookup-first_hit hash ns some_bucket chain few =
      let live : (si.nbucket == 0) ≡ false = ground arith in
      rw (
        live,
        scan-first_hit (next_in_chain m si) _ (symbol_hit m si name) (λ x. refl) fuel _ ns chain
            few,
      )

  -- A defined symbol that matches was found, or no index of the table matches.
  abbrev pub Found : Exec (Option ℕ) → Type 0
  Found r =
      ((n : ℕ) × (n < si.nchain) × (is_match m si name n ≡ true) × (r ≡ ok (some (symbol si n))))
      ⊎ ((r ≡ ok none) × ((n : ℕ) → 0 < n → n < si.nchain → is_match m si name n ≡ false))

  -- In a well-formed table the lookup by a name's hash is sound and complete: it returns, with the
  -- address of a matching symbol if there is one, and otherwise with NULL.
  pub elf_lookup-Found : IsHashTable fuel m si → Found (elf_lookup fuel m si (elfhash name) name)
  elf_lookup-Found t = elim (Option-cases (first_hit (symbol_hit m si name) ns)) [
    | inl miss ↦
        inr (e ∙ ap (λ r. ok (value_of r)) miss, λ n pos lt. absent n miss (t.filed name n pos lt))
    | inr ((n, s), got) ↦
        let sound = first_hit_sound (symbol_hit m si name) ns n s got in
        inl (n, t.within _ n sound.0, ground (arith, sound.1), ground (arith, e, sound.1))
  ]
    where
      ns : List ℕ
      ns = t.chains (elfhash name % si.nbucket)

      in_range : elfhash name % si.nbucket < si.nbucket
      in_range = grind (arith, t.buckets)

      e :
          elf_lookup fuel m si (elfhash name) name
          ≡ ok (value_of (first_hit (symbol_hit m si name) ns))
      e = elf_lookup-first_hit (elfhash name) ns t.buckets (t.linked _ in_range) (t.short _)

      absent :
          (n : ℕ)
          → first_hit (symbol_hit m si name) ns ≡ none
          → (is_match m si name n ≡ true → n ∈ ns)
          → is_match m si name n ≡ false
      absent n miss filed = elim (Bool-cases (is_match m si name n)) [
        | inl yes' ↦ ground (arith, first_hit-none (symbol_hit m si name) ns n miss (filed yes'))
        | inr no' ↦ no'
      ]
