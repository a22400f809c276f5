-- ===== src/Register/Links.antt =====
-- Lists of soinfo objects under the changes that soinfo_alloc and soinfo_free make to `next`.
use and_emu.Base.{
  ℕ, zero, suc, ◌<◌, ◌≡◌, refl, sym, ap, ◌∙◌, subst, ◌≢◌, inl, inr, false, Option, none, some, List,
  [], ◌∷◌, ◌++◌, arith, ◌==◌, length, ◌∈◌,
}
use and_emu.Base.Exec.{ok}
use and_emu.Base.Scan.{Links}
use and_emu.Register.{find_prev}

abbrev pub last_or : ℕ → List ℕ → ℕ
last_or d [] = d
last_or d (x ∷ xs) = last_or x xs

-- No entry occurs twice.
abbrev pub Distinct : List ℕ → Type 0
Distinct [] = Unit
Distinct (x ∷ xs) = (¬ (x ∈ xs)) × Distinct xs

pub last_or-∈ : (d : ℕ) (xs : List ℕ) → last_or d xs ∈ (d ∷ xs)
last_or-∈ d [] = inl refl
last_or-∈ d (x ∷ xs) = inr (last_or-∈ x xs)

pub ∈-append_left : (a : ℕ) (xs ys : List ℕ) → a ∈ xs → a ∈ (xs ++ ys)
∈-append_left a [] ys m = absurd m
∈-append_left a (x ∷ xs) ys (inl here) = inl here
∈-append_left a (x ∷ xs) ys (inr m) = inr (∈-append_left a xs ys m)

pub ∈-append_right : (a : ℕ) (xs ys : List ℕ) → a ∈ ys → a ∈ (xs ++ ys)
∈-append_right a [] ys m = m
∈-append_right a (x ∷ xs) ys m = inr (∈-append_right a xs ys m)

-- Pointers that agree on the nodes lead through the same list.
pub Links-agree :
    (f g : ℕ → ℕ) (p : ℕ) (xs : List ℕ)
    → ((x : ℕ) → x ∈ xs → g x ≡ f x)
    → Links f p xs
    → Links g p xs
Links-agree f g p [] agree l = l
Links-agree f g p (x ∷ xs) agree l = (
  l.0,
  l.1,
  subst (λ (q : ℕ). Links g q xs) (sym (agree x (inl refl)))
      (Links-agree f g (f x) xs (λ y m. agree y (inr m)) l.2),
)

-- The last node made to point to a new one, which ends the list.
pub Links-snoc :
    (f g : ℕ → ℕ) (h si : ℕ) (xs : List ℕ)
    → ((x : ℕ) → x ∈ (h ∷ xs) → x ≢ last_or h xs → g x ≡ f x)
    → g (last_or h xs) ≡ si
    → g si ≡ 0
    → si ≢ 0
    → Distinct (h ∷ xs)
    → Links f h (h ∷ xs)
    → Links g h (h ∷ (xs ++ si ∷ []))
Links-snoc f g h si [] agree last end live apart l = (refl, l.1, (last, live, end))
Links-snoc f g h si (x ∷ xs) agree last end live apart l = (
  refl,
  l.1,
  subst (λ (q : ℕ). Links g q (x ∷ (xs ++ si ∷ []))) (sym to_x)
      (Links-snoc f g x si xs (λ y m. agree y (inr m)) last end live apart.1
        (subst (λ (q : ℕ). Links f q (x ∷ xs)) l.2.0 l.2)),
)
  where
    to_x : g h ≡ x
    to_x =
        agree h (inl refl)
          (λ same. apart.0 (subst (λ (q : ℕ). q ∈ (x ∷ xs)) (sym same) (last_or-∈ x xs)))
        ∙ l.2.0

-- The node before `si` made to point behind it.
pub Links-unlink :
    (f g : ℕ → ℕ) (h si : ℕ) (xs ys : List ℕ)
    → ((x : ℕ) → x ∈ (h ∷ (xs ++ ys)) → x ≢ last_or h xs → g x ≡ f x)
    → g (last_or h xs) ≡ f si
    → Distinct (h ∷ (xs ++ si ∷ ys))
    → Links f h (h ∷ (xs ++ si ∷ ys))
    → Links g h (h ∷ (xs ++ ys))
Links-unlink f g h si [] ys agree prev apart l = (
  refl,
  l.1,
  subst (λ (q : ℕ). Links g q ys) (sym prev)
      (Links-agree f g (f si) ys
        (λ y m. agree y (inr m) (λ same. apart.0 (inr (subst (λ (q : ℕ). q ∈ ys) same m)))) l.2.2),
)
Links-unlink f g h si (x ∷ xs) ys agree prev apart l = (
  refl,
  l.1,
  subst (λ (q : ℕ). Links g q (x ∷ (xs ++ ys))) (sym to_x)
      (Links-unlink f g x si xs ys (λ y m. agree y (inr m)) prev apart.1
        (subst (λ (q : ℕ). Links f q (x ∷ (xs ++ si ∷ ys))) l.2.0 l.2)),
)
  where
    to_x : g h ≡ x
    to_x =
        agree h (inl refl) (λ same. apart.0 (
          ∈-append_left h (x ∷ xs) (si ∷ ys)
            (subst (λ (q : ℕ). q ∈ (x ∷ xs)) (sym same) (last_or-∈ x xs))))
        ∙ l.2.0

-- The loop of soinfo_free ends at `si`, with the node before it.
pub find_prev-last_or :
    (f : ℕ → ℕ) (si : ℕ) (ys : List ℕ) (fuel p trav : ℕ) (xs : List ℕ)
    → ¬ (si ∈ xs)
    → length xs < fuel
    → Links f trav (xs ++ si ∷ ys)
    → find_prev fuel f si p trav ≡ ok (some (last_or p xs))
unfolding find_prev
find_prev-last_or f si ys zero p trav xs apart few l = absurd (omega arith)
find_prev-last_or f si ys (suc fuel) p trav [] apart few l = ground arith
find_prev-last_or f si ys (suc fuel) p trav (x ∷ xs) apart few l =
    let ih =
      find_prev-last_or f si ys fuel trav (f trav) xs (λ m. apart (inr m)) (omega arith)
        (subst (λ (q : ℕ). Links f (f q) (xs ++ si ∷ ys)) (sym l.0) l.2) in
    let live : (trav == 0) ≡ false = ground arith in
    let other : (trav == si) ≡ false = ground (arith, λ (e : si ≡ x). apart (inl e)) in
    rw (live, other) (ih ∙ ap (λ (q : ℕ). ok (some (last_or q xs))) l.0)

pub find_prev-none :
    (f : ℕ → ℕ) (si fuel p trav : ℕ) (xs : List ℕ)
    → ¬ (si ∈ xs)
    → length xs < fuel
    → Links f trav xs
    → find_prev fuel f si p trav ≡ ok none
unfolding find_prev
find_prev-none f si zero p trav xs apart few l = absurd (omega arith)
find_prev-none f si (suc fuel) p trav [] apart few l = ground arith
find_prev-none f si (suc fuel) p trav (x ∷ xs) apart few l =
    let ih =
      find_prev-none f si fuel trav (f trav) xs (λ m. apart (inr m)) (omega arith)
        (subst (λ (q : ℕ). Links f (f q) xs) (sym l.0) l.2) in
    let live : (trav == 0) ≡ false = ground arith in
    let other : (trav == si) ≡ false = ground (arith, λ (e : si ≡ x). apart (inl e)) in
    rw (live, other) ih

-- Where the loop returns, with whatever fuel, it has met `si`.
pub find_prev-met :
    (f : ℕ → ℕ) (si : ℕ) (ys : List ℕ) (fuel p trav : ℕ) (xs : List ℕ) (r : Option ℕ)
    → ¬ (si ∈ xs)
    → Links f trav (xs ++ si ∷ ys)
    → find_prev fuel f si p trav ≡ ok r
    → r ≡ some (last_or p xs)
unfolding find_prev
find_prev-met f si ys zero p trav xs r apart l e = cc
find_prev-met f si ys (suc fuel) p trav [] r apart l e = ground arith
find_prev-met f si ys (suc fuel) p trav (x ∷ xs) r apart l e =
    let live : (trav == 0) ≡ false = ground arith in
    let other : (trav == si) ≡ false = ground (arith, λ (e : si ≡ x). apart (inl e)) in
    let on : find_prev fuel f si trav (f trav) ≡ ok r = rw (live, other) at e in
    find_prev-met f si ys fuel trav (f trav) xs r (λ m. apart (inr m))
      (subst (λ (q : ℕ). Links f (f q) (xs ++ si ∷ ys)) (sym l.0) l.2) on
    ∙ ap (λ (q : ℕ). some (last_or q xs)) l.0

-- Where the loop returns and no node is `si`, it has met none.
pub find_prev-missed :
    (f : ℕ → ℕ) (si fuel p trav : ℕ) (xs : List ℕ) (r : Option ℕ)
    → ¬ (si ∈ xs)
    → Links f trav xs
    → find_prev fuel f si p trav ≡ ok r
    → r ≡ none
unfolding find_prev
find_prev-missed f si zero p trav xs r apart l e = cc
find_prev-missed f si (suc fuel) p trav [] r apart l e = ground arith
find_prev-missed f si (suc fuel) p trav (x ∷ xs) r apart l e =
    let live : (trav == 0) ≡ false = ground arith in
    let other : (trav == si) ≡ false = ground (arith, λ (e : si ≡ x). apart (inl e)) in
    find_prev-missed f si fuel trav (f trav) xs r (λ m. apart (inr m))
      (subst (λ (q : ℕ). Links f (f q) xs) (sym l.0) l.2) (rw (live, other) at e)
