-- ===== src/Lifetime/Reopen.antt =====
-- A library that is open already, opened once more and closed again.
use Prim.Native.Nat.{bit_and, bit_or}
use and_emu.Base.{
  ℕ, suc, ◌-◌, ◌≤◌, ◌<◌, ◌≡◌, refl, sym, ap, ◌∙◌, subst, ◌≢◌, ◌⊎◌, inl, inr, Bool, true, false,
  ◌||◌, some, List, [], ◌∷◌, arith, ◌==◌, ◌!=◌, if◌then◌else◌, Bool-cases,
}
use and_emu.Base.Exec.{ok}
use and_emu.Base.Word.{add32, sub32, minus_one}
use and_emu.Kernel.{Space, done, Kernel, prot_read, prot_write}
use and_emu.Library.{with_space, with_info, find_library_internal, find_library}
use and_emu.Lifetime.{
  opened_quietly, is_one_of, call_constructors, soinfo_unload, do_dlclose, do_dlopen,
}
use and_emu.Register.{sizeof_pool, set_pool_protection, find_loaded_library}
use and_emu.Register.Libraries.{update_same, update_other}
use and_emu.SoInfo.{flag_linked, SoInfo, Linker}

-- The kernel refuses no change of protection.
abbrev pub NeverRefuses : Kernel → Type 0
NeverRefuses k = (a n p : ℕ) (s : Space) → (s' : Space) × (k.mprotect a n p s ≡ done tt s')

-- The library has one more reference.
abbrev opened : Linker → ℕ → Linker
opened l si = with_info l si (record (l.infos si) { ref_count = add32 (l.infos si).ref_count 1 })

abbrev released : Linker → ℕ → Linker
released l si = with_info l si (record (l.infos si) { ref_count = sub32 (l.infos si).ref_count 1 })

-- Linked, constructed, with a reference and room for one more.
abbrev pub IsOpen : Linker → ℕ → Type 0
IsOpen l si =
    (si ≢ 0)
    × (bit_and (l.infos si).flags flag_linked ≢ 0)
    × ((l.infos si).constructors_called ≡ true)
    × (1 ≤ (l.infos si).ref_count)
    × ((l.infos si).ref_count < minus_one)

module _ (k : Kernel) (willing : NeverRefuses k) where
  pub pools-ok :
      (prot : ℕ) (ps : List ℕ) (s : Space)
      → (s' : Space) × (set_pool_protection k prot ps s ≡ ok s')
  unfolding set_pool_protection
  pools-ok prot [] s = (s, refl)
  pools-ok prot (p ∷ ps) s =
      let (t, at) = willing p sizeof_pool prot s in
      let (s', run) = pools-ok prot ps t in (s', rw (at, set_pool_protection) run)

module _ (k : Kernel) (native : Bool) (fuel : ℕ) (willing : NeverRefuses k) where
  find_library-opened :
      (paths preload_names : List (List ℕ)) (depth : ℕ) (name : List ℕ) (l : Linker) (si : ℕ)
      → IsOpen l si
      → find_loaded_library fuel l name ≡ ok (some si)
      → find_library k fuel paths preload_names (suc depth) name l ≡ ok (si, opened l si)
  unfolding find_library find_library_internal
  find_library-opened paths preload_names depth name l si is loaded =
      let linked : (bit_and (l.infos si).flags flag_linked != 0) ≡ true = ground (arith, is.1) in
      let live : (si == 0) ≡ false = ground (arith, is.0) in rw (loaded, linked, live)

  unload-released :
      (depth si : ℕ) (l : Linker)
      → (l.infos si).ref_count ≢ 1
      → soinfo_unload k native fuel (suc depth) si l ≡ ok (released l si)
  unfolding soinfo_unload
  unload-released depth si l more =
      let test : ((l.infos si).ref_count == 1) ≡ false = ground (arith, more) in rw test

  construct-nothing :
      (depth si : ℕ) (l : Linker)
      → (l.infos si).constructors_called ≡ true
      → (si == 0 || is_one_of opened_quietly (l.infos si).name) ≡ false
        ⊎ (si == 0 || is_one_of opened_quietly (l.infos si).name) ≡ true
      → (if si == 0 || is_one_of opened_quietly (l.infos si).name
          then ok l
          else call_constructors k native fuel (suc depth) si l)
        ≡ ok l
  unfolding call_constructors
  construct-nothing depth si l called (inl loud) = rw (loud, called)
  construct-nothing depth si l called (inr quiet) = rw quiet

  same_search :
      (l : Linker) (s : Space) (name : List ℕ)
      → find_loaded_library fuel (with_space l s) name ≡ find_loaded_library fuel l name
  unfolding find_loaded_library
  same_search l s name = refl

  opened_at :
      (l : Linker) (si : ℕ)
      → (opened l si).infos si ≡ record (l.infos si) { ref_count = add32 (l.infos si).ref_count 1 }
  opened_at l si =
      update_same l.infos si (record (l.infos si) { ref_count = add32 (l.infos si).ref_count 1 })

  restored :
      (l : Linker) (si q : ℕ)
      → (l.infos si).ref_count < minus_one
      → (released (opened l si) si).infos q ≡ l.infos q
  restored l si q room = elim (Bool-cases (q == si)) [
    | inl same ↦
        let here : q ≡ si = ground arith in
        subst (λ (p : ℕ). (released (opened l si) si).infos p ≡ l.infos p) (sym here)
          (update_same (opened l si).infos si (record ((opened l si).infos si) {
            ref_count = sub32 ((opened l si).infos si).ref_count 1;
          })
            ∙ ap (λ (i : SoInfo). record i { ref_count = sub32 i.ref_count 1 }) (opened_at l si)
            ∙ ap (λ (n : ℕ). record (l.infos si) { ref_count = n }) back)
    | inr other ↦
        let away : q ≢ si = ground arith in
        update_other (opened l si).infos si _ q away ∙ update_other l.infos si _ q away
  ]
    where
      back : sub32 (add32 (l.infos si).ref_count 1) 1 ≡ (l.infos si).ref_count
      back = ground arith

  closing :
      (depth si : ℕ) (l after : Linker) (s s' : Space)
      → (si == 0) ≡ false
      → set_pool_protection k (bit_or prot_read prot_write) l.pools l.space ≡ ok s
      → soinfo_unload k native fuel depth si (with_space l s) ≡ ok after
      → set_pool_protection k prot_read after.pools after.space ≡ ok s'
      → do_dlclose k native fuel depth si l ≡ ok (with_space after s')
  unfolding do_dlclose
  closing depth si l after s s' live before unloaded last = rw (live, before, unloaded, last)

  -- If the kernel refuses no change of protection, and a library that the search by name finds is
  -- linked and constructed and has a reference and room for one more, then do_dlopen with accepted
  -- flags returns it, and closing it again leaves every soinfo as it was, its count of references
  -- included.
  pub do_dlopen-do_dlclose :
      (paths preload_names : List (List ℕ)) (depth flags : ℕ) (name : List ℕ) (l : Linker) (si : ℕ)
      → IsOpen l si
      → find_loaded_library fuel l name ≡ ok (some si)
      → bit_and flags (minus_one - 3) ≡ 0
      → (l1 l2 : Linker) × (do_dlopen k native fuel paths preload_names (suc depth) name flags l
          ≡ ok (si, l1))
        × (do_dlclose k native fuel (suc depth) si l1 ≡ ok l2)
        × ((q : ℕ) → l2.infos q ≡ l.infos q)
  unfolding do_dlopen
  do_dlopen-do_dlclose paths preload_names depth flags name l si is loaded known = (
    l1,
    with_space (released l1' si) s4.0,
    rw (accepted, s1.1, found, quiet, s2.1),
    closing (suc depth) si l1 (released l1' si) s3.0 s4.0 live s3.1 unloaded s4.1,
    (λ q. restored l si q is.4),
  )
    where
      accepted : (bit_and flags (minus_one - 3) != 0) ≡ false
      accepted = ground (arith, known)

      live : (si == 0) ≡ false
      live = ground (arith, is.0)

      s1 :
          (s' : Space) × (set_pool_protection k (bit_or prot_read prot_write) l.pools l.space
            ≡ ok s')
      s1 = pools-ok k willing (bit_or prot_read prot_write) l.pools l.space

      found :
          find_library k fuel paths preload_names (suc depth) name (with_space l s1.0)
          ≡ ok (si, opened (with_space l s1.0) si)
      found =
          find_library-opened paths preload_names depth name (with_space l s1.0) si is
            (same_search l s1.0 name ∙ loaded)

      l0 : Linker
      l0 = opened (with_space l s1.0) si

      quiet :
          (if si == 0 || is_one_of opened_quietly (l0.infos si).name
            then ok l0
            else call_constructors k native fuel (suc depth) si l0)
          ≡ ok l0
      quiet =
          construct-nothing depth si l0
            (ap (λ (i : SoInfo). i.constructors_called) (opened_at l si) ∙ is.2)
            (elim (Bool-cases (si == 0 || is_one_of opened_quietly (l0.infos si).name)) [
              | inl left_out ↦ inr left_out
              | inr loud ↦ inl loud
            ])

      s2 : (s' : Space) × (set_pool_protection k prot_read l.pools s1.0 ≡ ok s')
      s2 = pools-ok k willing prot_read l.pools s1.0

      l1 : Linker
      l1 = with_space l0 s2.0

      s3 : (s' : Space) × (set_pool_protection k (bit_or prot_read prot_write) l.pools s2.0 ≡ ok s')
      s3 = pools-ok k willing (bit_or prot_read prot_write) l.pools s2.0

      l1' : Linker
      l1' = with_space l1 s3.0

      count : (l1'.infos si).ref_count ≡ add32 (l.infos si).ref_count 1
      count = ap (λ (i : SoInfo). i.ref_count) (opened_at l si)

      more : (l1'.infos si).ref_count ≢ 1
      more e =
          let one : add32 (l.infos si).ref_count 1 ≡ 1 = sym count ∙ e in
          grind (arith, one, is.3, is.4)

      unloaded : soinfo_unload k native fuel (suc depth) si l1' ≡ ok (released l1' si)
      unloaded = unload-released depth si l1' more

      s4 : (s' : Space) × (set_pool_protection k prot_read l.pools s3.0 ≡ ok s')
      s4 = pools-ok k willing prot_read l.pools s3.0
