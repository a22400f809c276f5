-- ===== src/Library/Keeps.antt =====
-- What the steps of soinfo_link_image and open_library leave alone: the kernel's lasting properties,
-- and, of the linker, all but memory.
use Prim.Native.Nat.{bit_and, bit_or}
use and_emu.Base.{
  ℕ, zero, suc, ◌+◌, ◌≡◌, inl, inr, Bool, true, false, ◌||◌, Option, none, some, List, [], ◌∷◌,
  arith, leb, ◌==◌, ◌!=◌, if◌then◌else◌, Bool-cases, length,
}
use and_emu.Base.Exec.{Exec, ok, >>=-eq-ok}
use and_emu.Elf.{pt_load, pt_gnu_relro, pf_w, sizeof_phdr, phdr_at, sizeof_rel, rel_at}
use and_emu.Kernel.{Attempt, done, failed, space_of, Kernel, prot_read, prot_write}
use and_emu.Kernel.Lasts.{Lasts, KeepsSpace, and_then-KeepsSpace, or_try-KeepsSpace}
use and_emu.Library.{has_slash, path_size, open_library_on_path, open_library}
use and_emu.Memory.{Memory}
use and_emu.Phdr.{
  pflags_to_prot, protect_pages, set_load_prot, protect_segments, unprotect_segments,
  set_gnu_relro_prot, protect_gnu_relro,
}
use and_emu.Reloc.{relocate_one, with_memory, relocate}
use and_emu.SoInfo.{Linker}

module _ (k : Kernel) (P : ℕ → Type 0) (lasts : Lasts k P) where
  either :
      {A : Type 0} (b : Bool) (x y : Attempt A)
      → P (space_of x).kernel
      → P (space_of y).kernel
      → P (space_of (if b then x else y)).kernel
  either true x y p q = p
  either false x y p q = q

  pub open_library-KeepsSpace :
      (paths : List (List ℕ)) (name : List ℕ) → KeepsSpace P (open_library k paths name)
  unfolding open_library
  open_library-KeepsSpace paths name s p =
      or_try-KeepsSpace P (if has_slash name then k.open_file name s else failed s)
        (λ s'. open_library_on_path k name paths s') (ground (arith, lasts.open_lasts name s p))
        (on_path paths)
    where
      on_path : (ps : List (List ℕ)) → KeepsSpace P (open_library_on_path k name ps)
      on_path [] s p = p
      on_path (d ∷ ds) s p =
          or_try-KeepsSpace P (if length d == 0 then k.open_file name s else failed s) _
            (ground (arith, lasts.open_lasts name s p))
            (λ s' p'. elim (Bool-cases (leb path_size (length d + 1 + length name))) [
              | inl long ↦ rw long (on_path ds s' p')
              | inr short ↦ rw short (
                  or_try-KeepsSpace P (k.open_file name s')
                    (λ s''. open_library_on_path k name ds s'') (lasts.open_lasts name s' p')
                    (on_path ds))
            ])

  set_load_prot-KeepsSpace :
      (bias extra table count : ℕ) → KeepsSpace P (set_load_prot k bias extra table count)
  unfolding set_load_prot
  set_load_prot-KeepsSpace bias extra table zero s p = p
  set_load_prot-KeepsSpace bias extra table (suc count) s p =
      let h = phdr_at s.memory table in
      and_then-KeepsSpace P
        (if h.p_type != pt_load || bit_and h.p_flags pf_w != 0
          then done tt s
          else protect_pages k bias h (bit_or (pflags_to_prot h.p_flags) extra) s)
        (λ _ s'. set_load_prot k bias extra (table + sizeof_phdr) count s')
        (either (h.p_type != pt_load || bit_and h.p_flags pf_w != 0) (done tt s)
          (protect_pages k bias h (bit_or (pflags_to_prot h.p_flags) extra) s) p
          (lasts.mprotect_lasts _ _ _ s p))
        (λ _. set_load_prot-KeepsSpace bias extra (table + sizeof_phdr) count)

  pub protect_segments-KeepsSpace :
      (bias table count : ℕ) → KeepsSpace P (protect_segments k bias table count)
  unfolding protect_segments
  protect_segments-KeepsSpace bias table count = set_load_prot-KeepsSpace bias 0 table count

  pub unprotect_segments-KeepsSpace :
      (bias table count : ℕ) → KeepsSpace P (unprotect_segments k bias table count)
  unfolding unprotect_segments
  unprotect_segments-KeepsSpace bias table count =
      set_load_prot-KeepsSpace bias prot_write table count

  pub protect_gnu_relro-KeepsSpace :
      (bias table count : ℕ) → KeepsSpace P (protect_gnu_relro k bias table count)
  unfolding protect_gnu_relro
  protect_gnu_relro-KeepsSpace bias table count = relro table count
    where
      relro : (at n : ℕ) → KeepsSpace P (set_gnu_relro_prot k bias prot_read at n)
      relro at zero s p = p
      relro at (suc n) s p =
          let h = phdr_at s.memory at in
          and_then-KeepsSpace P
            (if h.p_type != pt_gnu_relro then done tt s else protect_pages k bias h prot_read s)
            (λ _ s'. set_gnu_relro_prot k bias prot_read (at + sizeof_phdr) n s')
            (either (h.p_type != pt_gnu_relro) (done tt s) (protect_pages k bias h prot_read s) p
              (lasts.mprotect_lasts _ _ _ s p))
            (λ _. relro (at + sizeof_phdr) n)

-- Relocations write to memory and to nothing else.
pub relocate-with_memory :
    (fuel si : ℕ) (needed : List ℕ) (count rel : ℕ) (l l' : Linker) (b : Bool)
    → relocate fuel si needed count rel l ≡ ok (l', b)
    → (m : Memory) × (l' ≡ with_memory l m)
unfolding relocate
relocate-with_memory fuel si needed zero rel l l' b e = (l.space.memory, cc)
relocate-with_memory fuel si needed (suc count) rel l l' b e =
    let (o, at, run) = >>=-eq-ok (relocate_one fuel l si needed (rel_at l.space.memory rel)) _ e in
    go o (λ m. relocate-with_memory fuel si needed count (rel + sizeof_rel) (with_memory l m) l' b)
      run
  where
    go :
        (o : Option Memory)
        → ((m : Memory)
            → relocate fuel si needed count (rel + sizeof_rel) (with_memory l m) ≡ ok (l', b)
            → (m' : Memory) × (l' ≡ with_memory (with_memory l m) m'))
        → ◌≡◌ {A = Exec (Linker × Bool)}
            (elim o [
              | none ↦ ok (l, false)
              | some m ↦ relocate fuel si needed count (rel + sizeof_rel) (with_memory l m)
            ])
            (ok (l', b))
        → (m : Memory) × (l' ≡ with_memory l m)
    go none rest run = (l.space.memory, cc)
    go (some m) rest run = rest m run
