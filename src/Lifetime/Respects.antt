-- ===== src/Lifetime/Respects.antt =====
-- What holds of every step of the constructors and destructors holds of their runs: a relation on
-- linkers that is reflexive and transitive, and that every call of a function of a library respects.
use and_emu.Base.{
  ℕ, zero, suc, ◌+◌, ◌*◌, ◌≡◌, sym, ◌∙◌, subst, ◌⊎◌, inl, inr, Bool, true, false, Option, none,
  some, ◌==◌, ◌!=◌, if◌then◌else◌, Bool-cases,
}
use and_emu.Base.Exec.{Exec, ok, fault, ◌>>=◌, >>=-eq-ok}
use and_emu.Base.Word.{add32}
use and_emu.Elf.{Dyn, sizeof_dyn, dyn_at, dt_null, dt_needed}
use and_emu.Kernel.{Kernel}
use and_emu.Library.{with_info}
use and_emu.Lifetime.{
  call_function, call_forward, call_reverse, call_array, call_destructors, call_init, act_on_needed,
  each_needed, call_constructors,
}
use and_emu.Memory.{load32, c_string}
use and_emu.Register.{find_loaded_library}
use and_emu.SoInfo.{Linker}

module _ (k : Kernel) (native : Bool) (fuel : ℕ) where
  -- What is after the mark is set.
  abbrev pub go_on : ℕ → ℕ → ℕ → Linker → Exec Linker
  go_on depth si dynamic l =
      (if dynamic != 0
        then each_needed k native fuel (call_constructors k native fuel depth) fuel si dynamic l
        else ok l)
      >>= λ l'. call_init k native si l'

  -- A run is over at once, or it marks the library and goes on.
  pub constructors-cases :
      (depth si : ℕ) (l l' : Linker)
      → call_constructors k native fuel (suc depth) si l ≡ ok l'
      → (((l.infos si).constructors_called ≡ true) × (l ≡ l'))
        ⊎ (go_on depth si
              (l.infos si).dynamic
              (with_info l si (record (l.infos si) { constructors_called = true }))
            ≡ ok l')
  unfolding call_constructors
  constructors-cases depth si l l' e = elim (Bool-cases (l.infos si).constructors_called) [
    | inl called ↦
        let passed : call_constructors k native fuel (suc depth) si l ≡ ok l =
          rw (called, call_constructors) in
        let both : ok l ≡ ok l' = sym passed ∙ e in let same : l ≡ l' = cc in inl (called, same)
    | inr fresh ↦
        let go : call_constructors k native fuel (suc depth) si l
            ≡ go_on depth si (l.infos si).dynamic
                (with_info l si (record (l.infos si) { constructors_called = true })) =
          rw (fresh, call_constructors) in
        inr (sym go ∙ e)
  ]

module _ (k : Kernel) (native : Bool) (R : Linker → Linker → Type 0) (still : (l : Linker) → R l l)
    (onward : (l l' l'' : Linker) → R l l' → R l' l'' → R l l'')
    (calls : (f : ℕ) (l l' : Linker) → call_function k native f l ≡ ok l' → R l l') where
  -- A step respects the relation where it returns.
  abbrev pub Respects : (Linker → Exec Linker) → Type 0
  Respects step = (l l' : Linker) → step l ≡ ok l' → R l l'

  stays : (l l' : Linker) → ◌≡◌ {A = Exec Linker} (ok l) (ok l') → R l l'
  stays l l' e = let same : l ≡ l' = cc in subst (λ (t : Linker). R l t) same (still l)

  call_forward-Respects : (a i count : ℕ) → Respects (call_forward k native a i count)
  unfolding call_forward
  call_forward-Respects a i zero l l' e = stays l l' e
  call_forward-Respects a i (suc count) l l' e =
      let f = load32 l.space.memory (a + 4 * i) in
      let (l2, first, rest) =
        >>=-eq-ok (call_function k native f l) (λ t. call_forward k native a (suc i) count t) e in
      onward l l2 l' (calls f l l2 first) (call_forward-Respects a (suc i) count l2 l' rest)

  call_reverse-Respects : (a count : ℕ) → Respects (call_reverse k native a count)
  unfolding call_reverse
  call_reverse-Respects a zero l l' e = stays l l' e
  call_reverse-Respects a (suc count) l l' e =
      let f = load32 l.space.memory (a + 4 * count) in
      let (l2, first, rest) =
        >>=-eq-ok (call_function k native f l) (λ t. call_reverse k native a count t) e in
      onward l l2 l' (calls f l l2 first) (call_reverse-Respects a count l2 l' rest)

  call_array-Respects : (a count : ℕ) (b : Bool) → Respects (call_array k native a count b)
  unfolding call_array
  call_array-Respects a count b l l' e = elim (Bool-cases (a == 0)) [
    | inl null ↦ stays l l' (rw null at e)
    | inr given ↦ either b (rw given at e)
  ]
    where
      either :
          (b : Bool)
          → (if b then call_reverse k native a count l else call_forward k native a 0 count l)
            ≡ ok l'
          → R l l'
      either true run = call_reverse-Respects a count l l' run
      either false run = call_forward-Respects a 0 count l l' run

  pub call_init-Respects : (si : ℕ) → Respects (call_init k native si)
  unfolding call_init
  call_init-Respects si l l' e =
      let (l2, first, rest) =
        >>=-eq-ok (call_function k native (l.infos si).init_func l)
          (λ t. call_array k native (t.infos si).init_array (t.infos si).init_array_count false t)
          e in
      onward l l2 l' (calls (l.infos si).init_func l l2 first) (
        call_array-Respects (l2.infos si).init_array (l2.infos si).init_array_count false l2 l'
          rest)

  pub call_destructors-Respects : (si : ℕ) → Respects (call_destructors k native si)
  unfolding call_destructors
  call_destructors-Respects si l l' e =
      let (l2, first, rest) =
        >>=-eq-ok (call_array k native (l.infos si).fini_array (l.infos si).fini_array_count true l)
          (λ t. call_function k native (t.infos si).fini_func t) e in
      onward l l2 l'
        (call_array-Respects (l.infos si).fini_array (l.infos si).fini_array_count true l l2 first)
        (calls (l2.infos si).fini_func l2 l' rest)

  module _ (fuel : ℕ) where
    act_on_needed-Respects :
        (act : ℕ → Linker → Exec Linker)
        → ((lib : ℕ) → Respects (act lib))
        → (si : ℕ) (d : Dyn) → Respects (act_on_needed k native fuel act si d)
    unfolding act_on_needed
    act_on_needed-Respects act respects si d l l' e =
        let (name, read, found) =
          >>=-eq-ok (c_string fuel l.space.memory (add32 (l.infos si).strtab d.d_val)) _ e in
        let (o, at, run) = >>=-eq-ok (find_loaded_library fuel l name) _ found in acted o run
      where
        acted : (o : Option ℕ) → elim o [ none ↦ fault | some lib ↦ act lib l ] ≡ ok l' → R l l'
        acted none run = cc
        acted (some lib) run = respects lib l l' run

    pub each_needed-Respects :
        (act : ℕ → Linker → Exec Linker)
        → ((lib : ℕ) → Respects (act lib))
        → (n si at : ℕ) → Respects (each_needed k native fuel act n si at)
    unfolding each_needed
    each_needed-Respects act respects zero si at l l' e = cc
    each_needed-Respects act respects (suc n) si at l l' e =
        elim (Bool-cases (d.d_tag == dt_null)) [
          | inl end ↦ stays l l' (rw (end, each_needed) at e)
          | inr more ↦ elim (Bool-cases (d.d_tag == dt_needed)) [
            | inr other ↦
                each_needed-Respects act respects n si (at + sizeof_dyn) l l'
                  (rw (more, other, each_needed) at e)
            | inl needed ↦
                let (l2, first, rest) =
                  >>=-eq-ok (act_on_needed k native fuel act si d l)
                    (λ t. each_needed k native fuel act n si (at + sizeof_dyn) t)
                    (rw (more, needed, each_needed) at e) in
                onward l l2 l' (act_on_needed-Respects act respects si d l l2 first)
                  (each_needed-Respects act respects n si (at + sizeof_dyn) l2 l' rest)
          ]
        ]
      where
        d : Dyn
        d = dyn_at l.space.memory at

    module _
        (marks : (l : Linker) (si : ℕ)
          → R l (with_info l si (record (l.infos si) { constructors_called = true }))) where
      pub go_on-Respects :
          (depth si dynamic : ℕ)
          → ((lib : ℕ) → Respects (call_constructors k native fuel depth lib))
          → Respects (go_on k native fuel depth si dynamic)
      go_on-Respects depth si dynamic respects l l' e =
          let (l2, first, last) =
            >>=-eq-ok
              (if dynamic != 0
                then each_needed k native fuel (call_constructors k native fuel depth) fuel si
                    dynamic l
                else ok l)
              (λ t. call_init k native si t) e in
          onward l l2 l' (needed (dynamic != 0) l2 first) (call_init-Respects si l2 l' last)
        where
          needed :
              (b : Bool) (l2 : Linker)
              → (if b
                  then each_needed k native fuel
                      (call_constructors k native fuel depth)
                      fuel
                      si
                      dynamic
                      l
                  else ok l)
                ≡ ok l2
              → R l l2
          needed true l2 run =
              each_needed-Respects (call_constructors k native fuel depth) respects fuel si dynamic
                l l2 run
          needed false l2 run = stays l l2 run

      pub call_constructors-Respects :
          (depth si : ℕ) → Respects (call_constructors k native fuel depth si)
      unfolding call_constructors
      call_constructors-Respects zero si l l' e = cc
      call_constructors-Respects (suc depth) si l l' e =
          let ih = λ (lib : ℕ). call_constructors-Respects depth lib in
          elim (constructors-cases k native fuel depth si l l' e) [
            | inl (called, same) ↦ subst (λ (t : Linker). R l t) same (still l)
            | inr run ↦
                onward l (with_info l si (record (l.infos si) { constructors_called = true })) l'
                  (marks l si)
                  (go_on-Respects depth si (l.infos si).dynamic ih
                    (with_info l si (record (l.infos si) { constructors_called = true })) l' run)
          ]
