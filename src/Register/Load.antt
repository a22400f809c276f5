-- ===== src/Register/Load.antt =====
-- soinfo_alloc, whatever the kernel answers.
use and_emu.Base.{
  ℕ, ◌+◌, ◌≤◌, ◌<◌, ◌≡◌, refl, sym, ◌∙◌, subst, ◌≢◌, ◌⊎◌, inl, inr, true, false, List, [], ◌∷◌,
  ◌++◌, arith, leb, ◌!=◌, Bool-cases, length, ◌∈◌,
}
use and_emu.Kernel.{Space, Attempt, done, failed, Kernel}
use and_emu.Register.{
  soinfo_per_pool, sizeof_pool, pool_mapping, info_at, take_entry, ensure_free_list_non_empty,
  soinfo_alloc,
}
use and_emu.Register.Alloc.{chain_entries_other, with_pool, with_pool-IsRegister}
use and_emu.Register.Libraries.{IsRegister, Distinct-apart, take_entry-IsRegister}
use and_emu.SoInfo.{soinfo_name_len, zero_soinfo, Linker}

module _ (k : Kernel) (name : List ℕ) (l : Linker) (xs : List ℕ) where
  -- No library was added, and none changed.
  abbrev pub Refused : ℕ × Linker → Type 0
  Refused r = (r.0 ≡ 0) × ((fs : List ℕ) × IsRegister r.1 xs fs) × (r.1.infos ≡ l.infos)

  -- A library with the name, otherwise zero, was added at the end; none but the last changed.
  abbrev pub Added : ℕ × Linker → Type 0
  Added r =
      (r.0 ≢ 0)
      × (length name < soinfo_name_len)
      × ((fs : List ℕ) × IsRegister r.1 (xs ++ r.0 ∷ []) fs)
      × (r.1.infos r.0 ≡ record zero_soinfo { name = name })
      × ((q : ℕ) → q ∈ (l.solist ∷ xs) → q ≢ l.sonext → r.1.infos q ≡ l.infos q)

  -- The memory that the kernel maps for a pool holds no library.
  abbrev pub FreshPools : Type 0
  FreshPools =
      (pool : ℕ) (s : Space)
      → k.mmap pool_mapping l.space ≡ done pool s
      → (x : ℕ) → x ∈ (l.solist ∷ xs)
      → (x < pool) ⊎ (pool + sizeof_pool ≤ x)

  add_entry :
      (l' : Linker) (f : ℕ) (fs : List ℕ)
      → IsRegister l' xs (f ∷ fs)
      → l'.solist ≡ l.solist
      → l'.sonext ≡ l.sonext
      → ((q : ℕ) → q ∈ (l.solist ∷ xs) → l'.infos q ≡ l.infos q)
      → length name < soinfo_name_len
      → Added (take_entry name l')
  unfolding take_entry
  add_entry l' f fs reg head last same short =
      let reg' : IsRegister l' xs (l'.free_list ∷ fs) =
        subst (λ (q : ℕ). IsRegister l' xs (q ∷ fs)) (sym reg.2.0) reg in
      let (after, at_new, others) = take_entry-IsRegister l' name xs fs reg' in
      (
        reg'.2.1,
        short,
        (fs, after),
        at_new,
        (λ q m away.
            others q
              (λ e.
                Distinct-apart q (l'.solist ∷ xs) (l'.free_list ∷ fs) reg'.3
                  (subst (λ (h : ℕ). q ∈ (h ∷ xs)) (sym head) m) (inl e))
              (λ e. away (e ∙ last))
            ∙ same q m),
      )

  short_alloc :
      (fs : List ℕ)
      → IsRegister l xs fs
      → FreshPools
      → length name < soinfo_name_len
      → leb soinfo_name_len (length name) ≡ false
      → Refused (soinfo_alloc k name l) ⊎ Added (soinfo_alloc k name l)
  unfolding soinfo_alloc ensure_free_list_non_empty
  short_alloc (f ∷ fs) reg fresh short test =
      let filled : (l.free_list != 0) ≡ true = ground (arith, reg.2.0, reg.2.1) in
      let same : soinfo_alloc k name l ≡ take_entry name l = rw (test, filled) in
      subst (λ r. Refused r ⊎ Added r) (sym same)
        (inr (add_entry l f fs reg refl refl (λ q m. refl) short))
  short_alloc [] reg fresh short test = answer (k.mmap pool_mapping l.space) refl
    where
      empty : (l.free_list != 0) ≡ false
      empty = ground (arith, reg.2)

      answer :
          (r : Attempt ℕ)
          → k.mmap pool_mapping l.space ≡ r
          → Refused (soinfo_alloc k name l) ⊎ Added (soinfo_alloc k name l)
      answer (failed s) e =
          let same : soinfo_alloc k name l ≡ (0, record l { space = s }) = rw (test, empty, e) in
          subst (λ r. Refused r ⊎ Added r) (sym same) (inl (refl, ([], reg), refl))
      answer (done pool s) e =
          let same : soinfo_alloc k name l ≡ take_entry name (with_pool pool s l) =
            rw (test, empty, e) in
          subst (λ r. Refused r ⊎ Added r) (sym same)
            (inr (
              add_entry (with_pool pool s l) (info_at pool 0) _
                (with_pool-IsRegister pool s l xs reg (fresh pool s e)) refl refl
                (λ q m.
                  chain_entries_other pool soinfo_per_pool 0 l.infos q (omega arith)
                    (fresh pool s e q m))
                short))

  -- On a register, and where no library lies in the memory that the kernel maps for a pool,
  -- soinfo_alloc keeps the register: it returns a null pointer and changes no library, or it adds
  -- one at the end, whose name is shorter than SOINFO_NAME_LEN, and which is zero but for the name,
  -- and changes of the others only the last.
  pub soinfo_alloc-Added :
      (fs : List ℕ)
      → IsRegister l xs fs
      → FreshPools
      → Refused (soinfo_alloc k name l) ⊎ Added (soinfo_alloc k name l)
  unfolding soinfo_alloc
  soinfo_alloc-Added fs reg fresh = elim (Bool-cases (leb soinfo_name_len (length name))) [
    | inl long ↦
        let same : soinfo_alloc k name l ≡ (0, l) = rw long in
        subst (λ r. Refused r ⊎ Added r) (sym same) (inl (refl, (fs, reg), refl))
    | inr short ↦ short_alloc fs reg fresh (ground arith) short
  ]
