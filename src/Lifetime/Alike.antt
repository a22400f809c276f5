-- ===== src/Lifetime/Alike.antt =====
-- Linkers that differ from one by marks of constructors only, and what a library needs of the list.
use and_emu.Base.{
  ℕ, zero, suc, ◌+◌, ◌<◌, ◌≡◌, refl, sym, ap, ◌∙◌, subst, ◌≢◌, ◌⊎◌, inl, Bool, false, Option, none,
  some, List, ◌∷◌, length, ◌∈◌,
}
use and_emu.Base.Exec.{Exec, ok, fault, ◌>>=◌}
use and_emu.Base.Scan.{Links}
use and_emu.Base.Word.{add32}
use and_emu.Elf.{sizeof_dyn, dyn_at, dt_null, dt_needed}
use and_emu.Kernel.{Kernel}
use and_emu.Lifetime.{act_on_needed}
use and_emu.Lifetime.Fresh.{fresh_count, Marks}
use and_emu.Memory.{c_string}
use and_emu.Register.{basename, find_loaded_library}
use and_emu.Register.Find.{FirstNamed, find_loaded_library-FirstNamed}
use and_emu.Register.Links.{∈-append_right, Links-agree}
use and_emu.SoInfo.{SoInfo, Infos, Linker}

-- All but the mark of the constructors is equal.
abbrev pub SameButMark : SoInfo → SoInfo → Type 0
SameButMark i j = j ≡ record i { constructors_called = j.constructors_called }

-- From the entry at an address on, the dynamic section of a library ends, and what it needs are
-- loaded libraries; the numbers bound the entries and the length of a name.
abbrev pub NeedsLoaded : ℕ → Linker → List ℕ → ℕ → ℕ → ℕ → Type 0
NeedsLoaded fuel l libs strtab zero at = ⊥
NeedsLoaded fuel l libs strtab (suc n) at =
    ((dyn_at l.space.memory at).d_tag ≡ dt_null)
    ⊎ (((dyn_at l.space.memory at).d_tag ≢ dt_null)
        × ((dyn_at l.space.memory at).d_tag ≡ dt_needed
            → (name : List ℕ) × (c_string fuel l.space.memory
                  (add32 strtab (dyn_at l.space.memory at).d_val)
                ≡ ok name)
              × ((x : ℕ) × (x ∈ libs) × ((l.infos x).name ≡ basename name)))
        × NeedsLoaded fuel l libs strtab n (at + sizeof_dyn))

-- A library without a dynamic section needs nothing.
abbrev pub IsSatisfied : ℕ → Linker → List ℕ → ℕ → Type 0
IsSatisfied fuel l libs si =
    (l.infos si).dynamic ≢ 0 → NeedsLoaded fuel l libs (l.infos si).strtab fuel (l.infos si).dynamic

FirstNamed-∈ :
    (infos : Infos) (b : List ℕ) (libs : List ℕ) (x : ℕ) (r : Option ℕ)
    → x ∈ libs
    → (infos x).name ≡ b
    → FirstNamed infos b libs r
    → (p : ℕ) × (r ≡ some p) × (p ∈ libs)
FirstNamed-∈ infos b libs x none m same first = absurd (first x m same)
FirstNamed-∈ infos b libs x (some p) m same (front, back, split, named_, none_before) = (
  p,
  refl,
  subst (λ (xs : List ℕ). p ∈ xs) (sym split) (∈-append_right p front (p ∷ back) (inl refl)),
)

module _ (l₀ : Linker) where
  -- The linker, with maybe more marks, and the process changed but for its memory.
  abbrev pub Alike : Linker → Type 0
  Alike l =
      (l.space.memory ≡ l₀.space.memory)
      × (l.solist ≡ l₀.solist)
      × ((q : ℕ) → SameButMark (l₀.infos q) (l.infos q))

  pub field :
      {A : Type 0} (f : SoInfo → A) (l : Linker) (q : ℕ)
      → Alike l
      → ((b : Bool) → f (record (l₀.infos q) { constructors_called = b }) ≡ f (l₀.infos q))
      → f (l.infos q) ≡ f (l₀.infos q)
  field f l q alike blind = ap f (alike.2 q) ∙ blind (l.infos q).constructors_called

  -- A step returns, with a linker alike that has all marks from before.
  abbrev pub Advances : (Linker → Exec Linker) → Linker → Type 0
  Advances step l = (l' : Linker) × (step l ≡ ok l') × Alike l' × Marks l.infos l'.infos

module _ (l₀ : Linker) (libs : List ℕ) where
  -- The constructors of every library return on linkers with fewer than so many libraries to go.
  abbrev pub ReturnsBelow : ℕ → (ℕ → Linker → Exec Linker) → Type 0
  ReturnsBelow d act =
      (lib : ℕ) (l : Linker)
      → lib ∈ libs
      → Alike l₀ l
      → fresh_count l.infos libs < d
      → Advances l₀ (act lib) l

module _ (k : Kernel) (fuel : ℕ) (l₀ : Linker) (libs : List ℕ)
    (links : Links (λ q. (l₀.infos q).next) l₀.solist libs) (few : length libs < fuel) where
  found :
      (l : Linker) (name : List ℕ) (x : ℕ)
      → Alike l₀ l
      → x ∈ libs
      → (l₀.infos x).name ≡ basename name
      → (p : ℕ) × (find_loaded_library fuel l name ≡ ok (some p)) × (p ∈ libs)
  found l name x alike m same =
      let links' : Links (λ q. (l.infos q).next) l₀.solist libs =
        Links-agree (λ q. (l₀.infos q).next) (λ q. (l.infos q).next) l₀.solist libs
          (λ q m. field l₀ (λ (i : SoInfo). i.next) l q alike (λ b. refl)) links in
      let (r, run, first) =
        find_loaded_library-FirstNamed l libs name fuel
          (subst (λ (h : ℕ). Links (λ q. (l.infos q).next) h libs) (sym alike.1) links') few in
      let (p, hit, listed) =
        FirstNamed-∈ l.infos (basename name) libs x r m
          (field l₀ (λ (i : SoInfo). i.name) l x alike (λ b. refl) ∙ same) first in
      (p, run ∙ ap (λ (o : Option ℕ). ok o) hit, listed)

  pub act_on_needed-Advances :
      (d : ℕ) (act : ℕ → Linker → Exec Linker)
      → ReturnsBelow l₀ libs d act
      → (si at : ℕ) (l : Linker) (name : List ℕ) (x : ℕ) → Alike l₀ l
      → fresh_count l.infos libs < d
      → c_string fuel l₀.space.memory (add32 (l₀.infos si).strtab (dyn_at l₀.space.memory at).d_val)
        ≡ ok name
      → x ∈ libs
      → (l₀.infos x).name ≡ basename name
      → Advances l₀ (act_on_needed k false fuel act si (dyn_at l.space.memory at)) l
  unfolding act_on_needed
  act_on_needed-Advances d act returns si at l name x alike less read m same =
      let (p, hit, listed) = found l name x alike m same in
      let strtab = field l₀ (λ (i : SoInfo). i.strtab) l si alike (λ b. refl) in
      let here : c_string fuel l.space.memory
            (add32 (l.infos si).strtab (dyn_at l.space.memory at).d_val)
          ≡ ok name =
        (λ i. c_string fuel (alike.0 i) (add32 (strtab i) (dyn_at (alike.0 i) at).d_val)) ∙ read in
      let (l', run, alike', marks) = returns p l listed alike less in
      (
        l',
        ap (λ (r : Exec (List ℕ)). r >>= λ n. find_loaded_library fuel l n >>= λ o. acted o) here
            ∙ ap (λ (r : Exec (Option ℕ)). r >>= λ o. acted o) hit
            ∙ run,
        alike',
        marks,
      )
    where
      acted : Option ℕ → Exec Linker
      acted o = elim o [ none ↦ fault | some lib ↦ act lib l ]
