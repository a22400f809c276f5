-- ===== src/Lifetime/Calls.antt =====
-- The calls of a library's functions where the program is not built for ARM: they change protections
-- only, and return where the kernel refuses none.
use Prim.Native.Nat.{bit_or}
use and_emu.Base.{
  ℕ, zero, suc, ◌+◌, ◌*◌, ◌≡◌, refl, sym, ap, ◌∙◌, inl, inr, false, ◌||◌, List, [], ◌∷◌, ◌==◌,
  Bool-cases,
}
use and_emu.Base.Exec.{Exec, ok, ◌>>=◌}
use and_emu.Base.Word.{minus_one}
use and_emu.Kernel.{Space, Attempt, space_of, Kernel, prot_read, prot_write}
use and_emu.Library.{with_space}
use and_emu.Lifetime.{call_function, call_forward, call_array, call_init}
use and_emu.Lifetime.Reopen.{NeverRefuses}
use and_emu.Memory.{load32}
use and_emu.Phdr.Protect.{KeepsBytes}
use and_emu.Register.{sizeof_pool, set_pool_protection}
use and_emu.SoInfo.{Linker}

module _ (k : Kernel) (willing : NeverRefuses k) (keeps : KeepsBytes k) where
  -- A step returns, and only the process is another one, with the same memory.
  abbrev pub IsQuiet : (Linker → Exec Linker) → Linker → Type 0
  IsQuiet step l = (s : Space) × (step l ≡ ok (with_space l s)) × (s.memory ≡ l.space.memory)

  pools-kept :
      (prot : ℕ) (ps : List ℕ) (s : Space)
      → (s' : Space) × (set_pool_protection k prot ps s ≡ ok s') × (s'.memory ≡ s.memory)
  unfolding set_pool_protection
  pools-kept prot [] s = (s, refl, refl)
  pools-kept prot (p ∷ ps) s =
      let (t, at) = willing p sizeof_pool prot s in
      let same : t.memory ≡ s.memory =
        ap (λ (r : Attempt (Unit {0})). (space_of r).memory) (sym at)
        ∙ keeps p sizeof_pool prot s in
      let (s', run, same') = pools-kept prot ps t in
      (s', rw (at, set_pool_protection) run, same' ∙ same)

  pub call_function-IsQuiet : (f : ℕ) (l : Linker) → IsQuiet (call_function k false f) l
  unfolding call_function
  call_function-IsQuiet f l = elim (Bool-cases (f == 0 || f == minus_one)) [
    | inl null ↦ (l.space, rw null, refl)
    | inr real ↦
        let (s, run, same) = pools-kept (bit_or prot_read prot_write) l.pools l.space in
        (s, rw (real, run), same)
  ]

  call_forward-IsQuiet :
      (functions i count : ℕ) (l : Linker) → IsQuiet (call_forward k false functions i count) l
  unfolding call_forward
  call_forward-IsQuiet functions i zero l = (l.space, refl, refl)
  call_forward-IsQuiet functions i (suc count) l =
      let (s, run, same) = call_function-IsQuiet (load32 l.space.memory (functions + 4 * i)) l in
      let (s', rest, same') = call_forward-IsQuiet functions (suc i) count (with_space l s) in
      (
        s',
        ap (λ (r : Exec Linker). r >>= λ t. call_forward k false functions (suc i) count t) run
            ∙ rest,
        same' ∙ same,
      )

  init_array-IsQuiet :
      (functions count : ℕ) (l : Linker) → IsQuiet (call_array k false functions count false) l
  unfolding call_array
  init_array-IsQuiet functions count l = elim (Bool-cases (functions == 0)) [
    | inl null ↦ (l.space, rw null, refl)
    | inr given ↦
        let (s, run, same) = call_forward-IsQuiet functions 0 count l in (s, rw given run, same)
  ]

  pub call_init-IsQuiet : (si : ℕ) (l : Linker) → IsQuiet (call_init k false si) l
  unfolding call_init
  call_init-IsQuiet si l =
      let (s, run, same) = call_function-IsQuiet (l.infos si).init_func l in
      let (s', rest, same') =
        init_array-IsQuiet (l.infos si).init_array (l.infos si).init_array_count (with_space l s) in
      (
        s',
        ap
              (λ (r : Exec Linker). r >>= λ t.
                call_array k false (t.infos si).init_array (t.infos si).init_array_count false t)
              run
            ∙ rest,
        same' ∙ same,
      )
