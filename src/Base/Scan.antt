-- ===== src/Base/Scan.antt =====
-- The loop `for (p = start; p != 0; p = next(p))` that returns at the first hit, which the linker
-- runs over hash chains and over its list of libraries.
use and_emu.Base.{
  ℕ, zero, suc, ◌<◌, ◌≡◌, refl, sym, ◌∙◌, subst, ◌≢◌, inl, inr, true, false, Option, none, some,
  List, [], ◌∷◌, arith, ◌==◌, if◌then◌else◌, Option-cases, length, ◌∈◌,
}
use and_emu.Base.Exec.{Exec, ok, spin, ◌>>=◌, >>=-eq-ok}

module _ {A : Type 0} where
  -- The body says whether the node is a hit; it may itself crash or run on.
  unfoldable pub scan : ℕ → (ℕ → ℕ) → (ℕ → Exec (Option A)) → ℕ → Exec (Option (ℕ × A))
  scan zero next body p = spin
  scan (suc fuel) next body p =
      let rest = scan fuel next body (next p) in
      if p == 0
      then ok none
      else (body p >>= λ r. elim r [ none ↦ rest | some a ↦ ok (some (p, a)) ])

  -- The first node of a list that is a hit.
  abbrev pub first_hit : (ℕ → Option A) → List ℕ → Option (ℕ × A)
  first_hit hit [] = none
  first_hit hit (x ∷ xs) = elim (hit x) [ none ↦ first_hit hit xs | some a ↦ some (x, a) ]

-- The node of a hit, and what the hit gave.
abbrev pub node_of {ℓ} : {A : Type ℓ} → Option (ℕ × A) → Option ℕ
node_of none = none
node_of (some (p, a)) = some p

abbrev pub value_of {ℓ} : {A : Type ℓ} → Option (ℕ × A) → Option A
value_of none = none
value_of (some (p, a)) = some a

-- From `p` the `next` pointers lead through the nodes `xs` to the null pointer.
abbrev pub Links : (ℕ → ℕ) → ℕ → List ℕ → Type 0
Links next p [] = p ≡ 0
Links next p (x ∷ xs) = (p ≡ x) × (x ≢ 0) × Links next (next x) xs

module _ {A : Type 0} (next : ℕ → ℕ) (body : ℕ → Exec (Option A)) (hit : ℕ → Option A) where
  -- With more fuel than nodes the loop ends, at the first hit.
  pub scan-first_hit :
      ((x : ℕ) → body x ≡ ok (hit x))
      → (fuel p : ℕ) (xs : List ℕ) → Links next p xs
      → length xs < fuel
      → scan fuel next body p ≡ ok (first_hit hit xs)
  unfolding scan
  scan-first_hit total zero p xs l few = absurd (omega arith)
  scan-first_hit total (suc fuel) p [] l few = rw l refl
  scan-first_hit total (suc fuel) p (x ∷ xs) l few =
      let ih = scan-first_hit total fuel (next x) xs l.2 (omega arith) in
      let live : (x == 0) ≡ false = ground arith in
      rw (l.0, live, total x)
        (elim (Option-cases (hit x)) [
          | inl miss ↦ rw (miss, first_hit) (rw l.0 ih)
          | inr (a, found) ↦ rw (found, first_hit) (rw l.0)
        ])

module _ {A : Type 0} (hit : ℕ → Option A) where
  pub first_hit_sound :
      (xs : List ℕ) (x : ℕ) (a : A) → first_hit hit xs ≡ some (x, a) → (x ∈ xs) × (hit x ≡ some a)
  first_hit_sound [] x a e = cc
  first_hit_sound (y ∷ ys) x a e = ground (arith, first_hit_sound ys x a)

  pub first_hit-none : (xs : List ℕ) (x : ℕ) → first_hit hit xs ≡ none → x ∈ xs → hit x ≡ none
  first_hit-none [] x e m = absurd m
  first_hit-none (y ∷ ys) x e m = ground (arith, first_hit-none ys x)

-- A loop along a list that returns with a node has it from the list.
pub scan-∈ :
    {A : Type 0} (next : ℕ → ℕ) (body : ℕ → Exec (Option A)) (fuel p : ℕ) (xs : List ℕ) (x : ℕ)
    (a : A)
    → Links next p xs
    → scan fuel next body p ≡ ok (some (x, a))
    → x ∈ xs
unfolding scan
scan-∈ next body zero p xs x a l e = cc
scan-∈ next body (suc fuel) p [] x a l e =
    let end : (p == 0) ≡ true = ground arith in let run = rw end at e in cc
scan-∈ {A} next body (suc fuel) p (y ∷ ys) x a l e =
    let live : (p == 0) ≡ false = ground arith in
    let (r, at, run) = >>=-eq-ok (body p) _ (rw live at e) in
    go r
      (λ e.
        scan-∈ next body fuel (next p) ys x a
          (subst (λ (q : ℕ). Links next (next q) ys) (sym l.0) l.2) e)
      run
  where
    go :
        (r : Option A)
        → (scan fuel next body (next p) ≡ ok (some (x, a)) → x ∈ ys)
        → ◌≡◌ {A = Exec (Option (ℕ × A))}
            (elim r [ none ↦ scan fuel next body (next p) | some b ↦ ok (some (p, b)) ])
            (ok (some (x, a)))
        → x ∈ (y ∷ ys)
    go none rest run = inr (rest run)
    go (some b) rest run = let same : p ≡ x = cc in inl (sym same ∙ l.0)
