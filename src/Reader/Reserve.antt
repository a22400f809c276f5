-- ===== src/Reader/Reserve.antt =====
-- The range that ReserveAddressSpace asks for holds every segment that LoadSegments maps.
use Prim.Native.Nat.{bit_or}
use and_emu.Base.{
  ℕ, ◌+◌, ◌-◌, ◌%◌, ◌^◌, ◌≤◌, ◌<◌, ◌≡◌, refl, subst, inl, inr, false, List, [], ◌∷◌, arith, ◌==◌,
  Bool-cases, All,
}
use and_emu.Base.Word.{add32, sub32, minus_one, page_size, page_start, page_end}
use and_emu.Elf.{pt_load, Phdr}
use and_emu.Kernel.{
  Space, Attempt, done, failed, Mapping, Kernel, prot_none, map_private, map_anonymous,
}
use and_emu.Phdr.{LoadExtent, get_load_size}
use and_emu.Phdr.LoadSize.{Fits, PagesWithin, get_load_size-PagesWithin, get_load_size-loadable}
use and_emu.Reader.{ElfReader, headers, pass, reserve_address_space, load}

-- The reserved range is whole pages of the address space.
pub record IsReserved (start size : ℕ) : Type 0 where
  pub aligned : start % page_size ≡ 0
  pub room : start + size + page_size ≤ 2 ^ 32

-- The pages that load_segment touches lie in the range.
abbrev pub PagesReserved : ℕ → ℕ → ℕ → Phdr → Type 0
PagesReserved start size bias p =
    p.p_type ≡ pt_load
    → (start ≤ page_start (add32 p.p_vaddr bias))
      × (page_end (add32 (add32 p.p_vaddr bias) p.p_memsz) ≤ start + size)

PagesReserved-of_within :
    (start lo hi : ℕ) (p : Phdr)
    → Fits p
    → lo % page_size ≡ 0
    → lo ≤ hi
    → IsReserved start (hi - lo)
    → PagesWithin lo hi p
    → PagesReserved start (hi - lo) (sub32 start lo) p
unfolding page_start page_end
PagesReserved-of_within start lo hi p fits low order reserved within load =
    let f = fits load in
    let w = within load in
    (omega (arith, reserved.aligned, reserved.room), omega (arith, reserved.aligned, reserved.room))

All-zip {ℓ} :
    {A : Type ℓ} {P Q R : A → Type 0} (xs : List A)
    → ((x : A) → P x → Q x → R x)
    → All P xs
    → All Q xs
    → All R xs
All-zip [] f p q = tt
All-zip (x ∷ xs) f p q = (f x p.0 q.0, All-zip xs f p.1 q.1)

-- What mmap answers to a request for fresh pages: whole pages that the process may use.
abbrev pub Reserves : Kernel → Type 0
Reserves k =
    (q : Mapping) (s s' : Space) (a : ℕ)
    → q.flags ≡ bit_or map_private map_anonymous
    → k.mmap q s ≡ done a s'
    → IsReserved a q.size

-- If the kernel answers a request for fresh pages with whole pages that end below the end of the
-- address space, and no loadable segment reaches that end, then, where ReserveAddressSpace
-- succeeds, the size is not 0, and every loadable segment, moved by the load bias, has all its
-- pages in the reserved range.
pub reserve_address_space-PagesReserved :
    (k : Kernel) (r r' : ElfReader) (s s' : Space)
    → Reserves k
    → All Fits (headers r s)
    → reserve_address_space k r s ≡ pass r' s'
    → (0 < r'.load_size) × All (PagesReserved r'.load_start r'.load_size r'.load_bias) (headers r s)
unfolding reserve_address_space
reserve_address_space-PagesReserved k r r' s s' reserves fits run =
    elim (Bool-cases (size.size == 0)) [
      | inl empty ↦ let run' = rw empty at run in cc
      | inr full ↦ go (k.mmap request s) refl full
    ]
  where
    size : LoadExtent
    size = get_load_size (headers r s)

    request : Mapping
    request = record {
      start = size.out_min_vaddr;
      size = size.size;
      prot = prot_none;
      flags = bit_or map_private map_anonymous;
      fd = minus_one;
      offset = 0;
    }

    Goal : Type 0
    Goal =
        (0 < r'.load_size)
        × All (PagesReserved r'.load_start r'.load_size r'.load_bias) (headers r s)

    moved : ℕ → ElfReader
    moved a = record r {
      load_size = size.size;
      load_start = a;
      load_bias = sub32 a size.out_min_vaddr;
    }

    placed :
        (a : ℕ)
        → IsReserved a size.size
        → (size.size == 0) ≡ false
        → All (PagesReserved a size.size (sub32 a size.out_min_vaddr)) (headers r s)
    placed a reserved full =
        let facts = get_load_size-PagesWithin (headers r s) fits in
        let distance = facts.3 (get_load_size-loadable (headers r s) (ground arith)) in
        let e : size.size ≡ size.out_max_vaddr - size.out_min_vaddr = omega arith in
        rw e (
          All-zip (headers r s)
            (λ p fit within.
              PagesReserved-of_within a size.out_min_vaddr size.out_max_vaddr p fit facts.1
                (omega arith) (rw e at reserved) within)
            fits facts.0)

    go : (o : Attempt ℕ) → k.mmap request s ≡ o → (size.size == 0) ≡ false → Goal
    go (failed s₁) e full = let run' = rw (full, e) at run in cc
    go (done a s₁) e full =
        let run' : pass (moved a) s₁ ≡ pass r' s' = rw (full, e) at run in
        let same : moved a ≡ r' = cc in
        subst
          (λ (t : ElfReader).
            (0 < t.load_size)
            × All (PagesReserved t.load_start t.load_size t.load_bias) (headers r s))
          same (ground arith, placed a (reserves request s s₁ a refl e) full)
