-- ===== src/Register/Find.antt =====
-- The search for a loaded library by the part of a path behind the last '/'.
use and_emu.Base.{
  ℕ, ◌<◌, ◌≡◌, refl, sym, ap, ◌∙◌, subst, ◌≢◌, ◌⊎◌, inl, inr, true, Option, none, some, List, [],
  ◌∷◌, ◌++◌, arith, ◌==◌, if◌then◌else◌, Bool-cases, length, ◌∈◌,
}
use and_emu.Base.Exec.{ok}
use and_emu.Base.Scan.{first_hit, node_of, Links, scan-first_hit}
use and_emu.Register.{after_slash, basename, same_name, named, find_loaded_library}
use and_emu.SoInfo.{Infos, Linker}

same_name_refl : (xs : List ℕ) → same_name xs xs ≡ true
unfolding same_name
same_name_refl [] = refl
same_name_refl (x ∷ xs) = ground (arith, same_name_refl xs)

same_name-≡ : (xs ys : List ℕ) → same_name xs ys ≡ true → xs ≡ ys
unfolding same_name
same_name-≡ [] [] e = refl
same_name-≡ [] (y ∷ ys) e = cc
same_name-≡ (x ∷ xs) [] e = cc
same_name-≡ (x ∷ xs) (y ∷ ys) e =
    let rest : xs ≡ ys = same_name-≡ xs ys (ground arith) in let head : x ≡ y = ground arith in cc

-- The first library of a list with a name, or none.
abbrev pub FirstNamed : Infos → List ℕ → List ℕ → Option ℕ → Type 0
FirstNamed infos b libs none = (x : ℕ) → x ∈ libs → (infos x).name ≢ b
FirstNamed infos b libs (some p) =
    (before after : List ℕ) × (libs ≡ before ++ p ∷ after)
    × ((infos p).name ≡ b)
    × ((x : ℕ) → x ∈ before → (infos x).name ≢ b)

named-cases :
    (infos : Infos) (b : List ℕ) (p : ℕ)
    → ((named infos b p ≡ none) × ((infos p).name ≢ b))
      ⊎ ((named infos b p ≡ some tt) × ((infos p).name ≡ b))
named-cases infos b p = elim (Bool-cases (same_name b (infos p).name)) [
  | inl same ↦ inr (rw same, sym (same_name-≡ b (infos p).name same))
  | inr other ↦ inl (
    rw other,
    (λ e.
        let yes : same_name b (infos p).name ≡ true =
          subst (λ (n : List ℕ). same_name b n ≡ true) (sym e) (same_name_refl b) in
        cc),
  )
]

first_hit-FirstNamed :
    (infos : Infos) (b : List ℕ) (libs : List ℕ)
    → FirstNamed infos b libs (node_of (first_hit (named infos b) libs))
first_hit-FirstNamed infos b [] = λ x m. absurd m
first_hit-FirstNamed infos b (y ∷ ys) =
    let ih = first_hit-FirstNamed infos b ys in
    elim (named-cases infos b y) [
      | inr (hit, same) ↦
          let at : node_of (first_hit (named infos b) (y ∷ ys)) ≡ some y = rw (hit, first_hit) in
          subst (FirstNamed infos b (y ∷ ys)) (sym at) ([], ys, refl, same, (λ x m. absurd m))
      | inl (miss, other) ↦
          let on : node_of (first_hit (named infos b) (y ∷ ys))
              ≡ node_of (first_hit (named infos b) ys) =
            rw (miss, first_hit) in
          subst (FirstNamed infos b (y ∷ ys)) (sym on)
            (later (node_of (first_hit (named infos b) ys)) other ih)
    ]
  where
    not_here :
        (x : ℕ) (xs : List ℕ)
        → (infos y).name ≢ b
        → ((z : ℕ) → z ∈ xs → (infos z).name ≢ b)
        → x ∈ (y ∷ xs)
        → (infos x).name ≢ b
    not_here x xs other rest (inl here) = λ e. other (ap (λ (q : ℕ). (infos q).name) (sym here) ∙ e)
    not_here x xs other rest (inr m) = rest x m

    later :
        (r : Option ℕ)
        → (infos y).name ≢ b
        → FirstNamed infos b ys r
        → FirstNamed infos b (y ∷ ys) r
    later none other ih = λ x m. not_here x ys other ih m
    later (some p) other (before, after, split, same, none_before) = (
      y ∷ before,
      after,
      ap (λ (zs : List ℕ). y ∷ zs) split,
      same,
      (λ x m. not_here x before other none_before m),
    )

-- Over a list of libraries shorter than the fuel, the search returns, with the first library whose
-- name is the part of the path behind the last '/', or with NULL where no library has that name.
pub find_loaded_library-FirstNamed :
    (l : Linker) (libs : List ℕ) (name : List ℕ) (fuel : ℕ)
    → Links (λ q. (l.infos q).next) l.solist libs
    → length libs < fuel
    → (r : Option ℕ) × (find_loaded_library fuel l name ≡ ok r)
      × FirstNamed l.infos (basename name) libs r
unfolding find_loaded_library
find_loaded_library-FirstNamed l libs name fuel links few = (
  node_of (first_hit (named l.infos (basename name)) libs),
  rw (
      scan-first_hit (λ q. (l.infos q).next) (λ q. ok (named l.infos (basename name) q))
        (named l.infos (basename name)) (λ x. refl) fuel l.solist libs links few),
  first_hit-FirstNamed l.infos (basename name) libs,
)

-- What after_slash finds, and when it finds nothing.
abbrev AfterSlash : List ℕ → Option (List ℕ) → Type 0
AfterSlash name none = ¬ (b'/' ∈ name)
AfterSlash name (some rest) = (¬ (b'/' ∈ rest)) × ((dir : List ℕ) × (name ≡ dir ++ b'/' ∷ rest))

after_slash-AfterSlash : (name : List ℕ) → AfterSlash name (after_slash name)
unfolding after_slash
after_slash-AfterSlash [] = λ m. absurd m
after_slash-AfterSlash (c ∷ cs) = at (after_slash cs) (after_slash-AfterSlash cs)
  where
    at :
        (r : Option (List ℕ))
        → AfterSlash cs r
        → AfterSlash
            (c ∷ cs)
            (elim r [ some rest ↦ some rest | none ↦ if c == b'/' then some cs else none ])
    at (some rest) (clear, split) = (clear, (c ∷ split.0, ap (λ (zs : List ℕ). c ∷ zs) split.1))
    at none clear = elim (Bool-cases (c == b'/')) [
      | inl slash ↦ rw slash (clear, ([], ap (λ (q : ℕ). q ∷ cs) (ground arith)))
      | inr other ↦ rw other (λ m. elim m [ inl here ↦ ground arith | inr later ↦ clear later ])
    ]

-- The basename has no '/', and it is the whole name or what stands behind a '/' of it.
pub basename-split :
    (name : List ℕ)
    → (¬ (b'/' ∈ basename name))
      × ((basename name ≡ name) ⊎ ((dir : List ℕ) × (name ≡ dir ++ b'/' ∷ basename name)))
unfolding basename
basename-split name = at (after_slash name) (after_slash-AfterSlash name)
  where
    at :
        (r : Option (List ℕ))
        → AfterSlash name r
        → let b : List ℕ = elim r [ none ↦ name | some rest ↦ rest ] in
          (¬ (b'/' ∈ b)) × ((b ≡ name) ⊎ ((dir : List ℕ) × (name ≡ dir ++ b'/' ∷ b)))
    at none clear = (clear, inl refl)
    at (some rest) (clear, split) = (clear, inr split)
