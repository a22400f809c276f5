-- ===== src/Lifetime/Fresh.antt =====
-- How many libraries of a list have not had their constructors called.
use and_emu.Base.{
  ℕ, ◌+◌, ◌≤◌, ◌<◌, ◌≡◌, subst, inl, inr, true, false, List, [], ◌∷◌, arith, if◌then◌else◌,
  Bool-cases, length, ◌∈◌,
}
use and_emu.SoInfo.{Infos}

-- The libraries whose mark is not set.
unfoldable pub fresh_count : Infos → List ℕ → ℕ
fresh_count infos [] = 0
fresh_count infos (x ∷ xs) = (if (infos x).constructors_called then 0 else 1) + fresh_count infos xs

-- Every mark of the one is a mark of the other.
abbrev pub Marks : Infos → Infos → Type 0
Marks a b = (q : ℕ) → (a q).constructors_called ≡ true → (b q).constructors_called ≡ true

module _ (a b : Infos) (marks : Marks a b) where
  one-le :
      (x : ℕ)
      → (if (b x).constructors_called then 0 else 1) ≤ (if (a x).constructors_called then 0 else 1)
  one-le x = elim (Bool-cases (a x).constructors_called) [
    | inl called ↦ let also = marks x called in rw (called, also) (omega arith)
    | inr not_yet ↦ elim (Bool-cases (b x).constructors_called) [
      | inl now ↦ rw (not_yet, now) (omega arith)
      | inr still ↦ rw (not_yet, still) (omega arith)
    ]
  ]

  pub fresh_count-le : (xs : List ℕ) → fresh_count b xs ≤ fresh_count a xs
  unfolding fresh_count
  fresh_count-le [] = omega arith
  fresh_count-le (x ∷ xs) = let ih = fresh_count-le xs in let here = one-le x in omega arith

  -- A new mark in the list counts.
  pub fresh_count-lt :
      (si : ℕ) (xs : List ℕ)
      → si ∈ xs
      → (a si).constructors_called ≡ false
      → (b si).constructors_called ≡ true
      → fresh_count b xs < fresh_count a xs
  unfolding fresh_count
  fresh_count-lt si [] m old new = absurd m
  fresh_count-lt si (x ∷ xs) (inl here) old new =
      let rest = fresh_count-le xs in
      subst
        (λ (y : ℕ).
          (if (b y).constructors_called then 0 else 1) + fresh_count b xs
          < (if (a y).constructors_called then 0 else 1) + fresh_count a xs)
        here (rw (old, new) (omega arith))
  fresh_count-lt si (x ∷ xs) (inr m) old new =
      let ih = fresh_count-lt si xs m old new in let here = one-le x in omega arith

pub fresh_count-length : (infos : Infos) (xs : List ℕ) → fresh_count infos xs ≤ length xs
unfolding fresh_count
fresh_count-length infos [] = omega arith
fresh_count-length infos (x ∷ xs) =
    let ih = fresh_count-length infos xs in
    elim (Bool-cases (infos x).constructors_called) [
      | inl called ↦ rw called (omega arith)
      | inr not_yet ↦ rw not_yet (omega arith)
    ]
