-- ===== src/Phdr/LoadSize.antt =====
-- phdr_table_get_load_size: the pages from the lowest to the highest that a loadable segment needs.
use and_emu.Base.{
  ℕ, ◌+◌, ◌%◌, ◌^◌, ◌≤◌, ◌≡◌, refl, ◌≢◌, ◌⊎◌, inl, inr, true, false, List, [], ◌∷◌, arith, ◌==◌,
  if◌then◌else◌, Bool-cases, All, Any,
}
use and_emu.Base.Word.{add32, sub32, page_size, page_start, page_end}
use and_emu.Elf.{pt_load, Phdr}
use and_emu.Phdr.{Extent, extend, extent, no_extent, get_load_size}
use and_emu.Reader.{load}

-- The segment ends a page or more below the end of the address space.
abbrev pub Fits : Phdr → Type 0
Fits p = p.p_type ≡ pt_load → p.p_vaddr + p.p_memsz + page_size ≤ 2 ^ 32

abbrev WithinExtent : Extent → Phdr → Type 0
WithinExtent e p =
    p.p_type ≡ pt_load
    → (e.found_pt_load ≡ true) × (e.min_vaddr ≤ p.p_vaddr) × (p.p_vaddr + p.p_memsz ≤ e.max_vaddr)

abbrev Grows : Extent → Extent → Type 0
Grows e f =
    (f.min_vaddr ≤ e.min_vaddr)
    × (e.max_vaddr ≤ f.max_vaddr)
    × (e.found_pt_load ≡ true → f.found_pt_load ≡ true)

extend-Grows : (e : Extent) (p : Phdr) → Grows e (extend e p)
unfolding extend
extend-Grows e p = (ground arith, ground arith, λ h. ground arith)

extend-WithinExtent : (e : Extent) (p : Phdr) → Fits p → WithinExtent (extend e p) p
unfolding extend
extend-WithinExtent e p fits load =
    let fits' = fits load in (ground arith, ground arith, ground arith)

extent-Grows : (e : Extent) (ps : List Phdr) → Grows e (extent e ps)
unfolding extent
extent-Grows e [] = (omega arith, omega arith, λ h. h)
extent-Grows e (p ∷ ps) =
    let one = extend-Grows e p in
    let rest = extent-Grows (extend e p) ps in (omega arith, omega arith, λ h. rest.2 (one.2 h))

extent-WithinExtent :
    (e : Extent) (ps : List Phdr) → All Fits ps → All (WithinExtent (extent e ps)) ps
unfolding extent
extent-WithinExtent e [] fits = tt
extent-WithinExtent e (p ∷ ps) fits = (
  (λ load.
      let one = extend-WithinExtent e p fits.0 load in
      let rest = extent-Grows (extend e p) ps in (rest.2 one.0, omega arith, omega arith)),
  extent-WithinExtent (extend e p) ps fits.1,
)

-- The extent stays a page below the end of the address space.
extent-room :
    (e : Extent) (ps : List Phdr)
    → All Fits ps
    → e.max_vaddr + page_size ≤ 2 ^ 32
    → (extent e ps).max_vaddr + page_size ≤ 2 ^ 32
unfolding extent extend
extent-room e [] fits room = room
extent-room e (p ∷ ps) fits room =
    extent-room (extend e p) ps fits.1 (elim (Bool-cases (p.p_type == pt_load)) [
      | inl load ↦ let f = fits.0 (ground arith) in ground arith
      | inr other ↦ ground arith
    ])

-- The pages of the segment lie between the two addresses.
abbrev pub PagesWithin : ℕ → ℕ → Phdr → Type 0
PagesWithin lo hi p =
    p.p_type ≡ pt_load → (lo ≤ page_start p.p_vaddr) × (page_end (add32 p.p_vaddr p.p_memsz) ≤ hi)

PagesWithin-of_extent :
    (e : Extent) (p : Phdr)
    → e.max_vaddr + page_size ≤ 2 ^ 32
    → WithinExtent e p
    → PagesWithin (page_start (if e.found_pt_load then e.min_vaddr else 0)) (page_end e.max_vaddr) p
unfolding page_start page_end
PagesWithin-of_extent e p room within load =
    let w = within load in rw w.0 (omega arith, omega arith)

All-map {ℓ} :
    {A : Type ℓ} {P Q : A → Type 0} (xs : List A) → ((x : A) → P x → Q x) → All P xs → All Q xs
All-map [] f all = tt
All-map (x ∷ xs) f all = (f x all.0, All-map xs f all.1)

-- Some loadable segment, with what all segments satisfy.
loadable :
    {P : Phdr → Type 0} (ps : List Phdr)
    → All P ps
    → Any (λ p. p.p_type ≡ pt_load) ps
    → (p : Phdr) × P p × (p.p_type ≡ pt_load)
loadable [] all any = absurd any
loadable (p ∷ ps) all (inl load) = (p, all.0, load)
loadable (p ∷ ps) all (inr any) = loadable ps all.1 any

size-distance :
    (e : Extent) (p : Phdr)
    → e.max_vaddr + page_size ≤ 2 ^ 32
    → WithinExtent e p
    → p.p_type ≡ pt_load
    → let lo = page_start (if e.found_pt_load then e.min_vaddr else 0) in
      lo + sub32 (page_end e.max_vaddr) lo ≡ page_end e.max_vaddr
unfolding page_start page_end
size-distance e p room within load = let w = within load in rw w.0 (omega arith)

-- If every loadable segment ends a page or more below the end of the address space, the two
-- addresses returned are page boundaries, the pages of every loadable segment lie between them,
-- and, if there is a loadable segment, the size is their distance.
pub get_load_size-PagesWithin :
    (ps : List Phdr)
    → All Fits ps
    → let r = get_load_size ps in
      All (PagesWithin r.out_min_vaddr r.out_max_vaddr) ps
      × (r.out_min_vaddr % page_size ≡ 0)
      × (r.out_max_vaddr % page_size ≡ 0)
      × (Any (λ p. p.p_type ≡ pt_load) ps → r.out_min_vaddr + r.size ≡ r.out_max_vaddr)
unfolding get_load_size page_start page_end
get_load_size-PagesWithin ps fits = (
  All-map ps (λ p within. PagesWithin-of_extent e p room within) all,
  omega arith,
  omega arith,
  λ any. let p = loadable ps all any in size-distance e p.0 room p.1 p.2,
)
  where
    e : Extent
    e = extent no_extent ps

    all : All (WithinExtent e) ps
    all = extent-WithinExtent no_extent ps fits

    room : e.max_vaddr + page_size ≤ 2 ^ 32
    room = extent-room no_extent ps fits (omega arith)

-- Without a loadable segment the extent stays as it was.
extent-loadable :
    (e : Extent) (ps : List Phdr)
    → e.found_pt_load ≡ false
    → Any (λ p. p.p_type ≡ pt_load) ps ⊎ (extent e ps ≡ e)
unfolding extent extend
extent-loadable e [] new = inr refl
extent-loadable e (p ∷ ps) new = elim (Bool-cases (p.p_type == pt_load)) [
  | inl load ↦ inl (inl (ground arith))
  | inr other ↦
      let skip : extend e p ≡ e = ground arith in
      rw skip (elim (extent-loadable e ps new) [ inl any ↦ inl (inr any) | inr same ↦ inr same ])
]

-- A size that is not 0 comes from a loadable segment.
pub get_load_size-loadable :
    (ps : List Phdr) → (get_load_size ps).size ≢ 0 → Any (λ p. p.p_type ≡ pt_load) ps
unfolding get_load_size page_start page_end
get_load_size-loadable ps full = elim (extent-loadable no_extent ps refl) [
  | inl any ↦ any
  | inr e ↦ absurd (full (rw e))
]
