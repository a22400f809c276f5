-- ===== src/Register/Libraries.antt =====
-- The list of libraries and the free list, through soinfo_alloc and soinfo_free.
use and_emu.Base.{
  ℕ, ◌≡◌, refl, sym, ap, ◌∙◌, subst, ◌≢◌, ◌⊎◌, inl, inr, List, [], ◌∷◌, ◌++◌, arith, ◌∈◌,
}
use and_emu.Base.Scan.{Links}
use and_emu.Register.{set_next, take_entry}
use and_emu.Register.Links.{
  last_or, Distinct, last_or-∈, ∈-append_left, ∈-append_right, Links-agree, Links-snoc,
}
use and_emu.SoInfo.{SoInfo, zero_soinfo, Infos, update, Linker}

abbrev pub next_of : Linker → ℕ → ℕ
next_of l q = (l.infos q).next

-- From `solist` the libraries are `solist` itself and `xs`, of which `sonext` is the last; the free
-- entries are `fs`; and no entry occurs twice.
abbrev pub IsRegister : Linker → List ℕ → List ℕ → Type 0
IsRegister l xs fs =
    Links (next_of l) l.solist (l.solist ∷ xs)
    × (l.sonext ≡ last_or l.solist xs)
    × Links (next_of l) l.free_list fs
    × Distinct (l.solist ∷ (xs ++ fs))

pub Distinct-left : (xs ys : List ℕ) → Distinct (xs ++ ys) → Distinct xs
Distinct-left [] ys d = tt
Distinct-left (x ∷ xs) ys d = ((λ m. d.0 (∈-append_left x xs ys m)), Distinct-left xs ys d.1)

pub Distinct-apart : (a : ℕ) (xs ys : List ℕ) → Distinct (xs ++ ys) → a ∈ xs → ¬ (a ∈ ys)
Distinct-apart a [] ys d m n = absurd m
Distinct-apart a (x ∷ xs) ys d (inl here) n =
    d.0 (∈-append_right x xs ys (subst (λ (q : ℕ). q ∈ ys) here n))
Distinct-apart a (x ∷ xs) ys d (inr m) n = Distinct-apart a xs ys d.1 m n

pub Distinct-right : (xs ys : List ℕ) → Distinct (xs ++ ys) → Distinct ys
Distinct-right [] ys d = d
Distinct-right (x ∷ xs) ys d = Distinct-right xs ys d.1

pub append-assoc_one : (xs : List ℕ) (y : ℕ) (ys : List ℕ) → (xs ++ (y ∷ [])) ++ ys ≡ xs ++ y ∷ ys
append-assoc_one [] y ys = refl
append-assoc_one (x ∷ xs) y ys = ap (λ (zs : List ℕ). x ∷ zs) (append-assoc_one xs y ys)

pub last_or-snoc : (d : ℕ) (xs : List ℕ) (y : ℕ) → last_or d (xs ++ y ∷ []) ≡ y
last_or-snoc d [] y = refl
last_or-snoc d (x ∷ xs) y = last_or-snoc x xs y

pub update_same : (infos : Infos) (p : ℕ) (si : SoInfo) → update infos p si p ≡ si
unfolding update
update_same infos p si = ground arith

pub update_other :
    (infos : Infos) (p : ℕ) (si : SoInfo) (q : ℕ) → q ≢ p → update infos p si q ≡ infos q
unfolding update
update_other infos p si q apart = ground arith

pub set_next_other : (infos : Infos) (p n q : ℕ) → q ≢ p → set_next infos p n q ≡ infos q
unfolding set_next
set_next_other infos p n q apart = update_other infos p (record (infos p) { next = n }) q apart

pub set_next-next : (infos : Infos) (p n : ℕ) → (set_next infos p n p).next ≡ n
unfolding set_next
set_next-next infos p n =
    ap (λ (i : SoInfo). i.next) (update_same infos p (record (infos p) { next = n }))

pub Links-live : (f : ℕ → ℕ) (p x : ℕ) (xs : List ℕ) → Links f p xs → x ∈ xs → x ≢ 0
Links-live f p x [] l m = absurd m
Links-live f p x (y ∷ ys) l (inl here) = λ z. l.1 (sym here ∙ z)
Links-live f p x (y ∷ ys) l (inr m) = Links-live f (f y) x ys l.2 m

pub ∈-append_split : (a : ℕ) (xs ys : List ℕ) → a ∈ (xs ++ ys) → (a ∈ xs) ⊎ (a ∈ ys)
∈-append_split a [] ys m = inr m
∈-append_split a (x ∷ xs) ys (inl here) = inl (inl here)
∈-append_split a (x ∷ xs) ys (inr m) = elim (∈-append_split a xs ys m) [
  | inl before ↦ inl (inr before)
  | inr after ↦ inr after
]

-- Taking the head of the free list leaves a register with that entry as its last library. The entry
-- has the name and is otherwise zero, and of all others only the last library's `next` changes.
pub take_entry-IsRegister :
    (l : Linker) (name : List ℕ) (xs fs : List ℕ)
    → IsRegister l xs (l.free_list ∷ fs)
    → IsRegister (take_entry name l).1 (xs ++ l.free_list ∷ []) fs
      × ((take_entry name l).1.infos l.free_list ≡ record zero_soinfo { name = name })
      × ((q : ℕ) → q ≢ l.free_list → q ≢ l.sonext → (take_entry name l).1.infos q ≡ l.infos q)
unfolding take_entry set_next
take_entry-IsRegister l name xs fs (libs, last, free, apart) =
    ((listed, last_is, rest, distinct), at_si, others)
  where
    si : ℕ
    si = l.free_list

    l' : Linker
    l' = (take_entry name l).1

    new_among : ¬ (si ∈ (l.solist ∷ xs))
    new_among m = Distinct-apart si (l.solist ∷ xs) (si ∷ fs) apart m (inl refl)

    last_among : l.sonext ∈ (l.solist ∷ xs)
    last_among = subst (λ (q : ℕ). q ∈ (l.solist ∷ xs)) (sym last) (last_or-∈ l.solist xs)

    not_last : si ≢ l.sonext
    not_last same = new_among (subst (λ (q : ℕ). q ∈ (l.solist ∷ xs)) (sym same) last_among)

    fresh : Infos
    fresh = update l.infos si (record zero_soinfo { name = name })

    others : (q : ℕ) → q ≢ si → q ≢ l.sonext → l'.infos q ≡ l.infos q
    others q a b = update_other fresh l.sonext _ q b ∙ update_other l.infos si _ q a

    at_si : l'.infos si ≡ record zero_soinfo { name = name }
    at_si = update_other fresh l.sonext _ si not_last ∙ update_same l.infos si _

    at_last : next_of l' l.sonext ≡ si
    at_last = ap (λ (i : SoInfo). i.next) (update_same fresh l.sonext _)

    agree : (q : ℕ) → q ≢ si → q ≢ l.sonext → next_of l' q ≡ next_of l q
    agree q a b = ap (λ (i : SoInfo). i.next) (others q a b)

    listed : Links (next_of l') l.solist (l.solist ∷ (xs ++ si ∷ []))
    listed =
        Links-snoc (next_of l) (next_of l') l.solist si xs
          (λ x m away.
            agree x (λ same. new_among (subst (λ (q : ℕ). q ∈ (l.solist ∷ xs)) same m))
              (λ same. away (same ∙ last)))
          (subst (λ (q : ℕ). next_of l' q ≡ si) last at_last) (ap (λ (i : SoInfo). i.next) at_si)
          free.1 (Distinct-left (l.solist ∷ xs) (si ∷ fs) apart) libs

    last_is : si ≡ last_or l.solist (xs ++ si ∷ [])
    last_is = sym (last_or-snoc l.solist xs si)

    rest : Links (next_of l') (next_of l si) fs
    rest =
        Links-agree (next_of l) (next_of l') (next_of l si) fs
          (λ x m.
            agree x
              (λ same.
                (Distinct-right (l.solist ∷ xs) (si ∷ fs) apart).0
                  (subst (λ (q : ℕ). q ∈ fs) same m))
              (λ same.
                Distinct-apart x (l.solist ∷ xs) (si ∷ fs) apart
                  (subst (λ (q : ℕ). q ∈ (l.solist ∷ xs)) (sym same) last_among) (inr m)))
          free.2

    distinct : Distinct (l.solist ∷ ((xs ++ si ∷ []) ++ fs))
    distinct =
        subst (λ (zs : List ℕ). Distinct (l.solist ∷ zs)) (sym (append-assoc_one xs si fs)) apart
