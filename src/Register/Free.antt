-- ===== src/Register/Free.antt =====
-- soinfo_free: a library leaves the list and becomes the head of the free list.
use and_emu.Base.{
  ℕ, zero, suc, ◌<◌, ◌≡◌, refl, sym, ap, ◌∙◌, subst, ◌≢◌, inl, inr, false, Option, none, some, List,
  [], ◌∷◌, ◌++◌, arith, ◌==◌, if◌then◌else◌, Bool-cases, length, ◌∈◌,
}
use and_emu.Base.Exec.{Exec, ok, ◌>>=◌, >>=-eq-ok, ok-injective}
use and_emu.Base.Scan.{Links}
use and_emu.Register.{set_next, find_prev, unlink, soinfo_free}
use and_emu.Register.Libraries.{
  next_of, IsRegister, Distinct-left, Distinct-apart, Distinct-right, set_next_other, set_next-next,
  Links-live, ∈-append_split,
}
use and_emu.Register.Links.{
  last_or, Distinct, last_or-∈, ∈-append_left, ∈-append_right, Links-agree, Links-unlink,
  find_prev-last_or, find_prev-none, find_prev-met, find_prev-missed,
}
use and_emu.SoInfo.{SoInfo, Linker}

∈-move : (a si : ℕ) (ys zs : List ℕ) → a ∈ (ys ++ si ∷ zs) → a ∈ (si ∷ (ys ++ zs))
∈-move a si [] zs m = m
∈-move a si (y ∷ ys) zs (inl here) = inr (inl here)
∈-move a si (y ∷ ys) zs (inr m) = elim (∈-move a si ys zs m) [
  | inl here ↦ inl here
  | inr later ↦ inr (inr later)
]

Distinct-move : (si : ℕ) (ys zs : List ℕ) → Distinct (si ∷ (ys ++ zs)) → Distinct (ys ++ si ∷ zs)
Distinct-move si [] zs d = d
Distinct-move si (y ∷ ys) zs d = (
  (λ m. elim (∈-move y si ys zs m) [ inl here ↦ d.0 (inl (sym here)) | inr later ↦ d.1.0 later ]),
  Distinct-move si ys zs ((λ m. d.0 (inr m)), d.1.1),
)

pub ∈-freed :
    (a si : ℕ) (xs ys zs : List ℕ) → a ∈ ((xs ++ ys) ++ si ∷ zs) → a ∈ ((xs ++ si ∷ ys) ++ zs)
∈-freed a si [] ys zs m = ∈-move a si ys zs m
∈-freed a si (x ∷ xs) ys zs (inl here) = inl here
∈-freed a si (x ∷ xs) ys zs (inr m) = inr (∈-freed a si xs ys zs m)

Distinct-freed :
    (si : ℕ) (xs ys zs : List ℕ)
    → Distinct ((xs ++ si ∷ ys) ++ zs)
    → Distinct ((xs ++ ys) ++ si ∷ zs)
Distinct-freed si [] ys zs d = Distinct-move si ys zs d
Distinct-freed si (x ∷ xs) ys zs d =
    ((λ m. d.0 (∈-freed x si xs ys zs m)), Distinct-freed si xs ys zs d.1)

last_or-append :
    (d : ℕ) (xs : List ℕ) (y : ℕ) (ys : List ℕ) → last_or d (xs ++ y ∷ ys) ≡ last_or y ys
last_or-append d [] y ys = refl
last_or-append d (x ∷ xs) y ys = last_or-append x xs y ys

∈-before : (a si : ℕ) (xs ys : List ℕ) → a ∈ xs → a ∈ (xs ++ si ∷ ys)
∈-before a si xs ys m = ∈-append_left a xs (si ∷ ys) m

-- The last library once `si` is out.
last_or-unlink :
    (l : Linker) (si : ℕ) (xs ys : List ℕ)
    → l.sonext ≡ last_or l.solist (xs ++ si ∷ ys)
    → ¬ (si ∈ ys)
    → (if si == l.sonext then last_or l.solist xs else l.sonext) ≡ last_or l.solist (xs ++ ys)
last_or-unlink l si xs [] last apart =
    let same : si ≡ l.sonext = sym (last ∙ last_or-append l.solist xs si []) in
    let none_after : last_or l.solist xs ≡ last_or l.solist (xs ++ []) = append_nil xs l.solist in
    ground arith
  where
    append_nil : (zs : List ℕ) (d : ℕ) → last_or d zs ≡ last_or d (zs ++ [])
    append_nil [] d = refl
    append_nil (z ∷ zs) d = append_nil zs z
last_or-unlink l si xs (y ∷ ys) last apart =
    let at_end : l.sonext ≡ last_or y ys = last ∙ last_or-append l.solist xs si (y ∷ ys) in
    let away : si ≢ l.sonext =
      λ same. apart (subst (λ (q : ℕ). q ∈ (y ∷ ys)) (sym (same ∙ at_end)) (last_or-∈ y ys)) in
    let end' : last_or l.solist (xs ++ y ∷ ys) ≡ last_or y ys = last_or-append l.solist xs y ys in
    ground arith

module _ (l : Linker) (si : ℕ) (xs ys fs : List ℕ) (reg : IsRegister l (xs ++ si ∷ ys) fs) where
  abbrev pub before_si : ℕ
  before_si = last_or l.solist xs

  all_apart : Distinct ((l.solist ∷ xs) ++ si ∷ (ys ++ fs))
  all_apart = subst (λ (zs : List ℕ). Distinct (l.solist ∷ zs)) (assoc xs) reg.3
    where
      assoc : (zs : List ℕ) → (zs ++ si ∷ ys) ++ fs ≡ zs ++ si ∷ (ys ++ fs)
      assoc [] = refl
      assoc (z ∷ zs) = ap (λ (ws : List ℕ). z ∷ ws) (assoc zs)

  si-after : ¬ (si ∈ (l.solist ∷ xs))
  si-after m = Distinct-apart si (l.solist ∷ xs) (si ∷ (ys ++ fs)) all_apart m (inl refl)

  si_before : ¬ (si ∈ (ys ++ fs))
  si_before = (Distinct-right (l.solist ∷ xs) (si ∷ (ys ++ fs)) all_apart).0

  prev_live : before_si ≢ 0
  prev_live =
      Links-live (next_of l) l.solist before_si (l.solist ∷ (xs ++ si ∷ ys)) reg.0
        (∈-append_left before_si (l.solist ∷ xs) (si ∷ ys) (last_or-∈ l.solist xs))

  live_si : si ≢ 0
  live_si =
      Links-live (next_of l) l.solist si (l.solist ∷ (xs ++ si ∷ ys)) reg.0
        (∈-append_right si (l.solist ∷ xs) (si ∷ ys) (inl refl))

  -- The linker that `unlink` leaves.
  abbrev pub freed : Linker
  freed = record l {
    infos = set_next (set_next l.infos before_si (l.infos si).next) si l.free_list;
    sonext = if si == l.sonext then before_si else l.sonext;
    free_list = si;
  }

  free-unlink : (fuel : ℕ) → suc (length xs) < fuel → soinfo_free fuel si l ≡ ok freed
  unfolding soinfo_free unlink
  free-unlink fuel few =
      let found : find_prev fuel (next_of l) si 0 l.solist ≡ ok (some before_si) =
        find_prev-last_or (next_of l) si ys fuel 0 l.solist (l.solist ∷ xs) si-after few reg.0 in
      let live : (before_si == 0) ≡ false = ground (arith, prev_live) in
      let given : (si == 0) ≡ false = ground (arith, live_si) in rw (given, found, live)

  others : (q : ℕ) → q ≢ si → q ≢ before_si → freed.infos q ≡ l.infos q
  others q a b =
      set_next_other (set_next l.infos before_si (l.infos si).next) si l.free_list q a
      ∙ set_next_other l.infos before_si (l.infos si).next q b

  agree : (q : ℕ) → q ≢ si → q ≢ before_si → next_of freed q ≡ next_of l q
  agree q a b = ap (λ (i : SoInfo). i.next) (others q a b)

  at_si : next_of freed si ≡ l.free_list
  at_si = set_next-next (set_next l.infos before_si (l.infos si).next) si l.free_list

  prev_apart : before_si ≢ si
  prev_apart same = si-after (subst (λ (q : ℕ). q ∈ (l.solist ∷ xs)) same (last_or-∈ l.solist xs))

  at_prev : next_of freed before_si ≡ next_of l si
  at_prev =
      ap (λ (i : SoInfo). i.next)
        (set_next_other (set_next l.infos before_si (l.infos si).next) si l.free_list before_si
          prev_apart)
      ∙ set_next-next l.infos before_si (l.infos si).next

  not_si : (x : ℕ) → x ∈ (l.solist ∷ (xs ++ ys)) → x ≢ si
  not_si x m same = elim (∈-append_split x (l.solist ∷ xs) ys m) [
    | inl before ↦ si-after (subst (λ (q : ℕ). q ∈ (l.solist ∷ xs)) same before)
    | inr after ↦ si_before (∈-append_left si ys fs (subst (λ (q : ℕ). q ∈ ys) same after))
  ]

  rest_free : Links (next_of freed) (next_of freed si) fs
  rest_free =
      subst (λ (q : ℕ). Links (next_of freed) q fs) (sym at_si)
        (Links-agree (next_of l) (next_of freed) l.free_list fs
          (λ x m.
            agree x (λ same. si_before (∈-append_right si ys fs (subst (λ (q : ℕ). q ∈ fs) same m)))
              (λ same.
                Distinct-apart before_si (l.solist ∷ (xs ++ si ∷ ys)) fs reg.3
                  (∈-append_left before_si (l.solist ∷ xs) (si ∷ ys) (last_or-∈ l.solist xs))
                  (subst (λ (q : ℕ). q ∈ fs) same m)))
          reg.2)

  pub freed-IsRegister : IsRegister freed (xs ++ ys) (si ∷ fs)
  freed-IsRegister = (
    Links-unlink (next_of l) (next_of freed) l.solist si xs ys
        (λ x m away. agree x (not_si x m) away) at_prev
        (Distinct-left (l.solist ∷ (xs ++ si ∷ ys)) fs reg.3) reg.0,
    last_or-unlink l si xs ys reg.1 (λ m. si_before (∈-append_left si ys fs m)),
    (refl, live_si, rest_free),
    Distinct-freed si (l.solist ∷ xs) ys fs reg.3,
  )

  -- With more fuel than there are libraries up to it, freeing a library of a register, other than
  -- its head, ends without a crash in a register without it, whose free list it heads; of all other
  -- libraries, only the one before it changes.
  pub soinfo_free-IsRegister :
      (fuel : ℕ)
      → suc (length xs) < fuel
      → (l' : Linker) × (soinfo_free fuel si l ≡ ok l')
        × IsRegister l' (xs ++ ys) (si ∷ fs)
        × ((q : ℕ) → q ≢ si → q ≢ last_or l.solist xs → l'.infos q ≡ l.infos q)
  soinfo_free-IsRegister fuel few = (freed, free-unlink fuel few, freed-IsRegister, others)

  -- Where soinfo_free returns, it leaves just that linker.
  pub soinfo_free-freed : (fuel : ℕ) (l' : Linker) → soinfo_free fuel si l ≡ ok l' → l' ≡ freed
  unfolding soinfo_free unlink
  soinfo_free-freed fuel l' e =
      let given : (si == 0) ≡ false = ground (arith, live_si) in
      let live : (before_si == 0) ≡ false = ground (arith, prev_live) in
      let run : (find_prev fuel (next_of l) si 0 l.solist >>= λ r. after r) ≡ ok l' =
        rw given at e in
      let (r, met, rest) = >>=-eq-ok (find_prev fuel (next_of l) si 0 l.solist) after run in
      let at : r ≡ some before_si =
        find_prev-met (next_of l) si ys fuel 0 l.solist (l.solist ∷ xs) r si-after reg.0 met in
      let end : after (some before_si) ≡ ok l' = subst (λ o. after o ≡ ok l') at rest in
      let end' : ok freed ≡ ok l' = rw live at end in cc
    where
      after : Option ℕ → Exec Linker
      after none = ok l
      after (some p) = unlink si p l

-- On a register, and with more fuel than it has libraries, freeing what is not a library of the
-- list changes nothing.
pub soinfo_free-unknown :
    (l : Linker) (si : ℕ) (xs fs : List ℕ) (fuel : ℕ)
    → IsRegister l xs fs
    → ¬ (si ∈ (l.solist ∷ xs))
    → suc (length xs) < fuel
    → soinfo_free fuel si l ≡ ok l
unfolding soinfo_free
soinfo_free-unknown l si xs fs fuel reg unknown few =
    let missed : find_prev fuel (next_of l) si 0 l.solist ≡ ok none =
      find_prev-none (next_of l) si fuel 0 l.solist (l.solist ∷ xs) unknown few reg.0 in
    elim (Bool-cases (si == 0)) [ inl null ↦ rw null | inr given ↦ rw (given, missed) ]

-- Where soinfo_free returns, what it was given is not the head of the list, and if it is not in the
-- list either, nothing has changed.
pub soinfo_free-head :
    (l l' : Linker) (xs fs : List ℕ) (fuel : ℕ)
    → IsRegister l xs fs
    → ¬ (soinfo_free fuel l.solist l ≡ ok l')
unfolding soinfo_free find_prev unlink
soinfo_free-head l l' xs fs zero reg e = ground (arith, reg.0.1)
soinfo_free-head l l' xs fs (suc fuel) reg e = ground (arith, reg.0.1)

pub soinfo_free-absent :
    (l l' : Linker) (si : ℕ) (xs fs : List ℕ) (fuel : ℕ)
    → IsRegister l xs fs
    → ¬ (si ∈ (l.solist ∷ xs))
    → soinfo_free fuel si l ≡ ok l'
    → l ≡ l'
unfolding soinfo_free
soinfo_free-absent l l' si xs fs fuel reg apart e = elim (Bool-cases (si == 0)) [
  | inl null ↦ ok-injective (rw null at e)
  | inr given ↦
      let (r, met, rest) =
        >>=-eq-ok (find_prev fuel (next_of l) si 0 l.solist) after (rw given at e) in
      let at : r ≡ none =
        find_prev-missed (next_of l) si fuel 0 l.solist (l.solist ∷ xs) r apart reg.0 met in
      ok-injective (subst (λ o. after o ≡ ok l') at rest)
]
  where
    after : Option ℕ → Exec Linker
    after none = ok l
    after (some p) = unlink si p l
