-- ===== src/Lifetime/Returns.antt =====
-- CallConstructors returns, whatever cycles the dependencies have.
use and_emu.Base.{
  ℕ, zero, suc, ◌+◌, ◌<◌, ◌≡◌, refl, sym, ap, ◌∙◌, ◌≢◌, ◌⊎◌, inl, inr, true, false, List, arith,
  ◌==◌, ◌!=◌, if◌then◌else◌, ==_iff, Bool-cases, length, ◌∈◌,
}
use and_emu.Base.Exec.{Exec, ok, ◌>>=◌}
use and_emu.Base.Scan.{Links}
use and_emu.Base.Word.{add32}
use and_emu.Elf.{sizeof_dyn, dyn_at, dt_null, dt_needed}
use and_emu.Kernel.{Kernel}
use and_emu.Library.{with_space, with_info}
use and_emu.Lifetime.{call_init, each_needed, call_constructors}
use and_emu.Lifetime.Alike.{
  SameButMark, NeedsLoaded, IsSatisfied, Alike, field, Advances, ReturnsBelow,
  act_on_needed-Advances,
}
use and_emu.Lifetime.Calls.{call_init-IsQuiet}
use and_emu.Lifetime.Constructed.{call_constructors-marks}
use and_emu.Lifetime.Fresh.{fresh_count, Marks, fresh_count-le, fresh_count-lt}
use and_emu.Lifetime.Reopen.{NeverRefuses}
use and_emu.Lifetime.Respects.{go_on}
use and_emu.Memory.{Memory, c_string}
use and_emu.Phdr.Protect.{KeepsBytes}
use and_emu.Register.{basename}
use and_emu.Register.Libraries.{update_same}
use and_emu.Register.Placed.{update-related}
use and_emu.SoInfo.{SoInfo, Linker}

module _ (k : Kernel) (willing : NeverRefuses k) (keeps : KeepsBytes k) (fuel : ℕ) (l₀ : Linker)
    (libs : List ℕ) (links : Links (λ q. (l₀.infos q).next) l₀.solist libs)
    (few : length libs < fuel) where
  each_needed-Advances :
      (d : ℕ) (act : ℕ → Linker → Exec Linker)
      → ReturnsBelow l₀ libs d act
      → (n si at : ℕ) (l : Linker) → Alike l₀ l
      → fresh_count l.infos libs < d
      → NeedsLoaded fuel l₀ libs (l₀.infos si).strtab n at
      → Advances l₀ (each_needed k false fuel act n si at) l
  unfolding each_needed
  each_needed-Advances d act returns zero si at l alike less needs = absurd needs
  each_needed-Advances d act returns (suc n) si at l alike less needs =
      elim (Bool-cases (tag == dt_null)) [
        | inl end ↦ (l, rw (end, each_needed), alike, (λ q m. m))
        | inr more ↦
            let (entry, tail) = on needs more in
            elim (Bool-cases (tag == dt_needed)) [
              | inr other ↦
                  let (l', run, alike', marks) =
                    each_needed-Advances d act returns n si (at + sizeof_dyn) l alike less tail in
                  (l', rw (more, other, each_needed) run, alike', marks)
              | inl needed ↦
                  let (name, read, (x, listed, same)) =
                    entry (sym same_tag ∙ (==_iff tag dt_needed).0 needed) in
                  let (l₁, first, alike₁, marks₁) =
                    act_on_needed-Advances k fuel l₀ libs links few d act returns si at l name x
                      alike less read listed same in
                  let fewer = fresh_count-le l.infos l₁.infos marks₁ libs in
                  let (l', run, alike', marks') =
                    each_needed-Advances d act returns n si (at + sizeof_dyn) l₁ alike₁
                      (omega arith) tail in
                  (
                    l',
                    rw (more, needed, each_needed)
                        (ap
                            (λ (r : Exec Linker).
                              r >>= λ t. each_needed k false fuel act n si (at + sizeof_dyn) t)
                            first
                          ∙ run),
                    alike',
                    (λ q m. marks' q (marks₁ q m)),
                  )
            ]
      ]
    where
      tag : ℕ
      tag = (dyn_at l.space.memory at).d_tag

      same_tag : tag ≡ (dyn_at l₀.space.memory at).d_tag
      same_tag = ap (λ (m : Memory). (dyn_at m at).d_tag) alike.0

      on :
          NeedsLoaded fuel l₀ libs (l₀.infos si).strtab (suc n) at
          → (tag == dt_null) ≡ false
          → ((dyn_at l₀.space.memory at).d_tag ≡ dt_needed
              → (name : List ℕ) × (c_string fuel l₀.space.memory
                    (add32 (l₀.infos si).strtab (dyn_at l₀.space.memory at).d_val)
                  ≡ ok name)
                × ((x : ℕ) × (x ∈ libs) × ((l₀.infos x).name ≡ basename name)))
            × NeedsLoaded fuel l₀ libs (l₀.infos si).strtab n (at + sizeof_dyn)
      on (inl end) more = let stop : tag ≡ dt_null = same_tag ∙ end in ground (arith, stop, more)
      on (inr (live, entry, tail)) more = (entry, tail)

  marked-Alike :
      (l : Linker) (si : ℕ)
      → Alike l₀ l
      → Alike l₀ (with_info l si (record (l.infos si) { constructors_called = true }))
  marked-Alike l si alike = (
    alike.0,
    alike.1,
    (λ q. SameButMark-trans (l₀.infos q) (l.infos q) _ (alike.2 q) (
        update-related SameButMark (λ i. refl) l.infos si
          (record (l.infos si) { constructors_called = true }) q refl)),
  )
    where
      SameButMark-trans : (i j h : SoInfo) → SameButMark i j → SameButMark j h → SameButMark i h
      SameButMark-trans i j h a b =
          b ∙ ap (λ (e : SoInfo). record e { constructors_called = h.constructors_called }) a

  go_on-Advances :
      (depth si : ℕ) (l : Linker)
      → ReturnsBelow l₀ libs depth (call_constructors k false fuel depth)
      → Alike l₀ l
      → fresh_count l.infos libs < depth
      → IsSatisfied fuel l₀ libs si
      → Advances l₀ (go_on k false fuel depth si (l₀.infos si).dynamic) l
  go_on-Advances depth si l returns alike less satisfied =
      let (l₁, run, alike₁, marks) = needed (Bool-cases ((l₀.infos si).dynamic != 0)) in
      let (s, last, same) = call_init-IsQuiet k willing keeps si l₁ in
      (
        with_space l₁ s,
        ap (λ (r : Exec Linker). r >>= λ t. call_init k false si t) run ∙ last,
        (same ∙ alike₁.0, alike₁.1, alike₁.2),
        marks,
      )
    where
      needed :
          (((l₀.infos si).dynamic != 0) ≡ true) ⊎ (((l₀.infos si).dynamic != 0) ≡ false)
          → Advances l₀
              (λ t.
                if (l₀.infos si).dynamic != 0
                then each_needed k false fuel
                    (call_constructors k false fuel depth)
                    fuel
                    si
                    (l₀.infos si).dynamic
                    t
                else ok t)
              l
      needed (inr none_) = (l, rw none_, alike, (λ q m. m))
      needed (inl some_) =
          let live : (l₀.infos si).dynamic ≢ 0 = λ e. ground (arith, some_, e) in
          let (l', run, alike', marks) =
            each_needed-Advances depth (call_constructors k false fuel depth) returns fuel si
              (l₀.infos si).dynamic l alike less (satisfied live) in
          (l', rw some_ run, alike', marks)

  marked-Marks :
      (l : Linker) (si : ℕ)
      → Marks l.infos (with_info l si (record (l.infos si) { constructors_called = true })).infos
  marked-Marks l si q =
      update-related (λ i j. i.constructors_called ≡ true → j.constructors_called ≡ true) (λ i m. m)
        l.infos si (record (l.infos si) { constructors_called = true }) q (λ m. refl)

  starts_on :
      (depth si : ℕ) (l : Linker)
      → (l.infos si).constructors_called ≡ false
      → call_constructors k false fuel (suc depth) si l
        ≡ go_on k false fuel depth si
            (l.infos si).dynamic
            (with_info l si (record (l.infos si) { constructors_called = true }))
  unfolding call_constructors
  starts_on depth si l not_yet = rw (not_yet, call_constructors)

  call_constructors-Advances :
      ((q : ℕ) → q ∈ libs → IsSatisfied fuel l₀ libs q)
      → (depth : ℕ) → ReturnsBelow l₀ libs depth (call_constructors k false fuel depth)
  unfolding call_constructors
  call_constructors-Advances satisfied zero si l listed alike less = absurd (omega arith)
  call_constructors-Advances satisfied (suc depth) si l listed alike less =
      let ih = call_constructors-Advances satisfied depth in
      elim (Bool-cases (l.infos si).constructors_called) [
        | inl called ↦ (l, rw (called, call_constructors), alike, (λ q m. m))
        | inr not_yet ↦
            let marked = with_info l si (record (l.infos si) { constructors_called = true }) in
            let itself : (marked.infos si).constructors_called ≡ true =
              ap (λ (i : SoInfo). i.constructors_called)
                (update_same l.infos si (record (l.infos si) { constructors_called = true })) in
            let fewer =
              fresh_count-lt l.infos marked.infos (marked-Marks l si) si libs listed not_yet
                itself in
            let dynamic = field l₀ (λ (i : SoInfo). i.dynamic) l si alike (λ b. refl) in
            let (l', run, alike', marks) =
              go_on-Advances depth si marked ih (marked-Alike l si alike) (omega arith)
                (satisfied si listed) in
            (
              l',
              starts_on depth si l not_yet
                  ∙ ap (λ (d : ℕ). go_on k false fuel depth si d marked) dynamic
                  ∙ run,
              alike',
              (λ q m. marks q (marked-Marks l si q m)),
            )
      ]

  -- In a program that is not built for ARM, where the kernel refuses no change of protection and
  -- keeps memory on it: if there is fuel for more than the list of libraries, and for the dynamic
  -- section of every library and the names in it, and all that these need is in the list, then
  -- CallConstructors of a library in the list returns, with more depth than there are libraries
  -- without constructors called, however the dependencies circle. The library is marked then; memory
  -- is as before, and of every library at most the mark has changed.
  pub call_constructors-returns :
      (depth si : ℕ)
      → ((q : ℕ) → q ∈ libs → IsSatisfied fuel l₀ libs q)
      → si ∈ libs
      → fresh_count l₀.infos libs < depth
      → (l' : Linker) × (call_constructors k false fuel depth si l₀ ≡ ok l')
        × ((l'.infos si).constructors_called ≡ true)
        × Alike l₀ l'
  call_constructors-returns depth si satisfied listed less =
      let (l', run, alike, marks) =
        call_constructors-Advances satisfied depth si l₀ listed (refl, refl, (λ q. refl)) less in
      (l', run, call_constructors-marks k false fuel depth si l₀ l' run, alike)
