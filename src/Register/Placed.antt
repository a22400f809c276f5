-- ===== src/Register/Placed.antt =====
-- A register whose entries lie where the kernel maps no further pool, through soinfo_alloc and
-- soinfo_free.
use and_emu.Base.{
  ℕ, ◌+◌, ◌≤◌, ◌<◌, ◌≡◌, refl, sym, ap, ◌∙◌, subst, ◌≢◌, ◌⊎◌, inl, inr, true, false, List, [], ◌∷◌,
  ◌++◌, arith, leb, ◌==◌, ◌!=◌, ==_iff, Bool-cases, length, ◌∈◌,
}
use and_emu.Base.Exec.{ok}
use and_emu.Kernel.{Space, Attempt, done, failed, space_of, Kernel}
use and_emu.Kernel.Lasts.{Lasts}
use and_emu.Reader.Keeps.{after}
use and_emu.Register.{
  soinfo_per_pool, sizeof_pool, pool_mapping, info_at, set_next, take_entry,
  ensure_free_list_non_empty, soinfo_alloc, soinfo_free,
}
use and_emu.Register.Alloc.{
  chain_entries_other, entries-inside, pool_entries, with_pool, with_pool-IsRegister,
}
use and_emu.Register.Free.{∈-freed, freed-IsRegister, soinfo_free-freed}
use and_emu.Register.Libraries.{
  next_of, IsRegister, Distinct-apart, append-assoc_one, update_same, update_other, ∈-append_split,
  take_entry-IsRegister,
}
use and_emu.Register.Links.{last_or, ∈-append_left, Links-agree}
use and_emu.SoInfo.{soinfo_name_len, SoInfo, zero_soinfo, Infos, update, Linker}
use mathlib.Core.List.{append_assoc}

-- An account of the addresses that hold soinfo objects, by the kernel's state: a pool is mapped apart
-- from them and added to them, and no call takes an address out.
pub record KeepsPools (k : Kernel) (Held : ℕ → ℕ → Type 0) : Type 0 where
  pub lasting : (x : ℕ) → Lasts k (λ c. Held c x)
  pub apart :
      (s s' : Space) (pool x : ℕ)
      → k.mmap pool_mapping s ≡ done pool s'
      → Held s.kernel x
      → (x < pool) ⊎ (pool + sizeof_pool ≤ x)
  pub added :
      (s s' : Space) (pool x : ℕ)
      → k.mmap pool_mapping s ≡ done pool s'
      → pool ≤ x
      → x < pool + sizeof_pool
      → Held s'.kernel x

-- All but the next pointer and the count of references is equal.
abbrev pub SameLibrary : SoInfo → SoInfo → Type 0
SameLibrary i j = j ≡ record i { next = j.next; ref_count = j.ref_count }

pub SameLibrary-trans : (i j h : SoInfo) → SameLibrary i j → SameLibrary j h → SameLibrary i h
SameLibrary-trans i j h a b =
    b ∙ ap (λ (e : SoInfo). record e { next = h.next; ref_count = h.ref_count }) a

module _ (Held : ℕ → ℕ → Type 0) where
  -- A register of the libraries behind the head, and the free entries, all of them held.
  abbrev pub IsPlaced : Linker → List ℕ → List ℕ → Type 0
  IsPlaced l xs fs =
      IsRegister l xs fs × ((x : ℕ) → x ∈ (l.solist ∷ (xs ++ fs)) → Held l.space.kernel x)

  -- Libraries may have been added at the end; the ones from before are kept, in their order.
  abbrev pub Grown : Linker → List ℕ → Linker → Type 0
  Grown l xs l' =
      (new : List ℕ) × (fs : List ℕ) × IsPlaced l' (xs ++ new) fs
      × (l'.solist ≡ l.solist)
      × ((q : ℕ) → q ∈ (l.solist ∷ xs) → SameLibrary (l.infos q) (l'.infos q))

  -- No library was added and none changed, or one was added at the end and the others kept.
  abbrev pub Allocated : Linker → List ℕ → ℕ × Linker → Type 0
  Allocated l xs r =
      (r.1.solist ≡ l.solist)
      × (((r.0 ≡ 0) × ((fs : List ℕ) × IsPlaced r.1 xs fs) × (r.1.infos ≡ l.infos))
          ⊎ ((r.0 ≢ 0)
              × ((fs : List ℕ) × IsPlaced r.1 (xs ++ r.0 ∷ []) fs)
              × ((q : ℕ) → q ∈ (l.solist ∷ xs) → SameLibrary (l.infos q) (r.1.infos q))))

  pub IsPlaced-with_space :
      (l : Linker) (s : Space) (xs fs : List ℕ)
      → ((x : ℕ) → Held l.space.kernel x → Held s.kernel x)
      → IsPlaced l xs fs
      → IsPlaced (record l { space = s }) xs fs
  IsPlaced-with_space l s xs fs lasts placed = (placed.0, (λ x m. lasts x (placed.1 x m)))

  pub IsPlaced-with_info :
      (l : Linker) (p : ℕ) (i : SoInfo) (xs fs : List ℕ)
      → i.next ≡ (l.infos p).next
      → IsPlaced l xs fs
      → IsPlaced (record l { infos = update l.infos p i }) xs fs
  IsPlaced-with_info l p i xs fs same placed = (
    (
      Links-agree (next_of l) next' l.solist (l.solist ∷ xs) (λ x m. agree x) placed.0.0,
      placed.0.1,
      Links-agree (next_of l) next' l.free_list fs (λ x m. agree x) placed.0.2,
      placed.0.3,
    ),
    placed.1,
  )
    where
      next' : ℕ → ℕ
      next' q = (update l.infos p i q).next

      agree : (q : ℕ) → next' q ≡ next_of l q
      agree q = elim (Bool-cases (q == p)) [
        | inl here ↦
            let at : q ≡ p = (==_iff q p).0 here in
            subst (λ (x : ℕ). next' x ≡ next_of l x) (sym at)
              (ap (λ (j : SoInfo). j.next) (update_same l.infos p i) ∙ same)
        | inr other ↦ ap (λ (j : SoInfo). j.next) (update_other l.infos p i q (λ e. ground arith))
      ]

  pub Grown-trans :
      (l l' l'' : Linker) (xs : List ℕ) (g : Grown l xs l')
      → Grown l' (xs ++ g.0) l''
      → Grown l xs l''
  Grown-trans l l' l'' xs (new, fs, placed, head, same) (more, fs', placed', head', same') = (
    new ++ more,
    fs',
    subst (λ (ys : List ℕ). IsPlaced l'' ys fs') (append_assoc xs new more) placed',
    head' ∙ head,
    (λ q m. SameLibrary-trans (l.infos q) (l'.infos q) (l''.infos q) (same q m) (
        same' q (
          subst (λ (h : ℕ). q ∈ (h ∷ (xs ++ new))) (sym head)
            (∈-append_left q (l.solist ∷ xs) new m)))),
  )

-- A change of one library that a relation allows is a change that it allows of each.
pub update-related :
    (S : SoInfo → SoInfo → Type 0)
    → ((i : SoInfo) → S i i)
    → (infos : Infos) (p : ℕ) (i : SoInfo) (q : ℕ) → S (infos p) i
    → S (infos q) (update infos p i q)
update-related S same infos p i q related = elim (Bool-cases (q == p)) [
  | inl here ↦
      let at : q ≡ p = (==_iff q p).0 here in
      subst (λ (x : ℕ). S (infos x) (update infos p i x)) (sym at)
        (subst (λ (j : SoInfo). S (infos p) j) (sym (update_same infos p i)) related)
  | inr other ↦
      subst (λ (j : SoInfo). S (infos q) j) (sym (update_other infos p i q (λ e. ground arith)))
        (same (infos q))
]

pub update-SameLibrary :
    (infos : Infos) (p : ℕ) (i : SoInfo) (q : ℕ)
    → SameLibrary (infos p) i
    → SameLibrary (infos q) (update infos p i q)
update-SameLibrary = update-related SameLibrary (λ i. refl)

set_next-SameLibrary : (infos : Infos) (p n q : ℕ) → SameLibrary (infos q) (set_next infos p n q)
unfolding set_next
set_next-SameLibrary infos p n q = update-SameLibrary infos p (record (infos p) { next = n }) q refl

module _ (k : Kernel) (Held : ℕ → ℕ → Type 0) (keeps : KeepsPools k Held) where
  take_entry-IsPlaced :
      (l : Linker) (name : List ℕ) (xs fs : List ℕ)
      → IsPlaced Held l xs (l.free_list ∷ fs)
      → IsPlaced Held (take_entry name l).1 (xs ++ l.free_list ∷ []) fs
        × ((q : ℕ) → q ∈ (l.solist ∷ xs) → SameLibrary (l.infos q) ((take_entry name l).1.infos q))
  unfolding take_entry
  take_entry-IsPlaced l name xs fs placed = (
    (
      reg.0,
      (λ x m.
          placed.1 x
            (subst (λ (ys : List ℕ). x ∈ (l.solist ∷ ys)) (append-assoc_one xs l.free_list fs) m)),
    ),
    same,
  )
    where
      fresh : Infos
      fresh = update l.infos l.free_list (record zero_soinfo { name = name })

      reg :
          IsRegister (take_entry name l).1 (xs ++ l.free_list ∷ []) fs
          × ((take_entry name l).1.infos l.free_list ≡ record zero_soinfo { name = name })
          × ((q : ℕ) → q ≢ l.free_list → q ≢ l.sonext → (take_entry name l).1.infos q ≡ l.infos q)
      reg = take_entry-IsRegister l name xs fs placed.0

      same : (q : ℕ) → q ∈ (l.solist ∷ xs) → SameLibrary (l.infos q) ((take_entry name l).1.infos q)
      same q m =
          subst (λ (i : SoInfo). SameLibrary i (set_next fresh l.sonext l.free_list q))
            (update_other l.infos l.free_list _ q
              (λ e. Distinct-apart q (l.solist ∷ xs) (l.free_list ∷ fs) placed.0.3 m (inl e)))
            (set_next-SameLibrary fresh l.sonext l.free_list q)

  with_pool-IsPlaced :
      (l : Linker) (pool : ℕ) (s : Space) (xs : List ℕ)
      → k.mmap pool_mapping l.space ≡ done pool s
      → IsPlaced Held l xs []
      → IsPlaced Held (with_pool pool s l) xs (pool_entries pool)
        × ((q : ℕ) → q ∈ (l.solist ∷ xs) → (with_pool pool s l).infos q ≡ l.infos q)
  with_pool-IsPlaced l pool s xs e placed = (
    (with_pool-IsRegister pool s l xs placed.0 fresh, held),
    (λ q m. chain_entries_other pool soinfo_per_pool 0 l.infos q (omega arith) (fresh q m)),
  )
    where
      old : (x : ℕ) → x ∈ (l.solist ∷ xs) → Held l.space.kernel x
      old x m = placed.1 x (∈-append_left x (l.solist ∷ xs) [] m)

      fresh : (x : ℕ) → x ∈ (l.solist ∷ xs) → (x < pool) ⊎ (pool + sizeof_pool ≤ x)
      fresh x m = keeps.apart l.space s pool x e (old x m)

      held : (x : ℕ) → x ∈ (l.solist ∷ (xs ++ pool_entries pool)) → Held s.kernel x
      held x m = elim (∈-append_split x (l.solist ∷ xs) (pool_entries pool) m) [
        | inl before ↦
            subst (λ (t : Space). Held t.kernel x) (ap (λ (r : Attempt ℕ). space_of r) e)
              ((keeps.lasting x).mmap_lasts pool_mapping l.space (old x before))
        | inr entry ↦ elim (entries-inside pool soinfo_per_pool [] x (omega arith) entry) [
          | inl inside ↦ keeps.added l.space s pool x e inside.0 inside.1
          | inr nowhere ↦ absurd nowhere
        ]
      ]

  take_entry-Allocated :
      (l₀ l : Linker) (name : List ℕ) (xs : List ℕ) (f : ℕ) (fs : List ℕ)
      → IsPlaced Held l xs (f ∷ fs)
      → l.solist ≡ l₀.solist
      → ((q : ℕ) → q ∈ (l₀.solist ∷ xs) → l.infos q ≡ l₀.infos q)
      → Allocated Held l₀ xs (take_entry name l)
  unfolding take_entry
  take_entry-Allocated l₀ l name xs f fs placed head same =
      let first : l.free_list ≡ f = placed.0.2.0 in
      let placed' : IsPlaced Held l xs (l.free_list ∷ fs) =
        subst (λ (q : ℕ). IsPlaced Held l xs (q ∷ fs)) (sym first) placed in
      let (after, kept) = take_entry-IsPlaced l name xs fs placed' in
      (
        head,
        inr (
          placed'.0.2.1,
          (fs, after),
          (λ q m.
              subst (λ (i : SoInfo). SameLibrary i ((take_entry name l).1.infos q)) (same q m)
                (kept q (subst (λ (h : ℕ). q ∈ (h ∷ xs)) (sym head) m))),
        ),
      )

  mmap_answer :
      (l : Linker) (name : List ℕ) (xs : List ℕ) (r : Attempt ℕ)
      → k.mmap pool_mapping l.space ≡ r
      → IsPlaced Held l xs []
      → leb soinfo_name_len (length name) ≡ false
      → Allocated Held l xs (soinfo_alloc k name l)
  unfolding soinfo_alloc ensure_free_list_non_empty
  mmap_answer l name xs (failed s) e placed short =
      let empty : (l.free_list != 0) ≡ false = ground (arith, placed.0.2) in
      let same : soinfo_alloc k name l ≡ (0, record l { space = s }) = rw (short, empty, e) in
      subst (Allocated Held l xs) (sym same)
        (refl, inl (refl, ([], IsPlaced-with_space Held l s xs [] lasts placed), refl))
    where
      lasts : (x : ℕ) → Held l.space.kernel x → Held s.kernel x
      lasts x held =
          subst (λ (t : Space). Held t.kernel x) (ap (λ (r : Attempt ℕ). space_of r) e)
            ((keeps.lasting x).mmap_lasts pool_mapping l.space held)
  mmap_answer l name xs (done pool s) e placed short =
      let empty : (l.free_list != 0) ≡ false = ground (arith, placed.0.2) in
      let same : soinfo_alloc k name l ≡ take_entry name (with_pool pool s l) =
        rw (short, empty, e) in
      let (placed', kept) = with_pool-IsPlaced l pool s xs e placed in
      subst (Allocated Held l xs) (sym same)
        (take_entry-Allocated l (with_pool pool s l) name xs (info_at pool 0) _ placed' refl kept)

  short_alloc :
      (l : Linker) (name : List ℕ) (xs fs : List ℕ)
      → IsPlaced Held l xs fs
      → leb soinfo_name_len (length name) ≡ false
      → Allocated Held l xs (soinfo_alloc k name l)
  unfolding soinfo_alloc ensure_free_list_non_empty
  short_alloc l name xs [] placed short =
      mmap_answer l name xs (k.mmap pool_mapping l.space) refl placed short
  short_alloc l name xs (f ∷ fs) placed short =
      let filled : (l.free_list != 0) ≡ true = ground (arith, placed.0.2.0, placed.0.2.1) in
      let same : soinfo_alloc k name l ≡ take_entry name l = rw (short, filled) in
      subst (Allocated Held l xs) (sym same)
        (take_entry-Allocated l l name xs f fs placed refl (λ q m. refl))

  pub soinfo_alloc-Allocated :
      (l : Linker) (name : List ℕ) (xs fs : List ℕ)
      → IsPlaced Held l xs fs
      → Allocated Held l xs (soinfo_alloc k name l)
  unfolding soinfo_alloc
  soinfo_alloc-Allocated l name xs fs placed =
      elim (Bool-cases (leb soinfo_name_len (length name))) [
        | inl long ↦
            let same : soinfo_alloc k name l ≡ (0, l) = rw long in
            subst (Allocated Held l xs) (sym same) (refl, inl (refl, (fs, placed), refl))
        | inr short ↦ short_alloc l name xs fs placed short
      ]

module _ (Held : ℕ → ℕ → Type 0) where
  -- soinfo_free takes the library out and keeps the others.
  pub soinfo_free-IsPlaced :
      (fuel si : ℕ) (l l' : Linker) (xs ys fs : List ℕ)
      → IsPlaced Held l (xs ++ si ∷ ys) fs
      → soinfo_free fuel si l ≡ ok l'
      → IsPlaced Held l' (xs ++ ys) (si ∷ fs)
        × (l'.solist ≡ l.solist)
        × ((q : ℕ) → SameLibrary (l.infos q) (l'.infos q))
  soinfo_free-IsPlaced fuel si l l' xs ys fs placed e =
      subst
        (λ (t : Linker).
          IsPlaced Held t (xs ++ ys) (si ∷ fs)
          × (t.solist ≡ l.solist)
          × ((q : ℕ) → SameLibrary (l.infos q) (t.infos q)))
        (sym (soinfo_free-freed l si xs ys fs placed.0 fuel l' e))
        ((freed-IsRegister l si xs ys fs placed.0, held), refl, same)
    where
      held : (x : ℕ) → x ∈ (l.solist ∷ ((xs ++ ys) ++ si ∷ fs)) → Held l.space.kernel x
      held x m = placed.1 x (∈-freed x si (l.solist ∷ xs) ys fs m)

      same :
          (q : ℕ)
          → SameLibrary
              (l.infos q)
              (set_next (set_next l.infos (last_or l.solist xs) (l.infos si).next) si l.free_list q)
      same q =
          SameLibrary-trans (l.infos q) (set_next l.infos (last_or l.solist xs) (l.infos si).next q)
            _ (set_next-SameLibrary l.infos (last_or l.solist xs) (l.infos si).next q)
            (set_next-SameLibrary (set_next l.infos (last_or l.solist xs) (l.infos si).next) si
              l.free_list q)
