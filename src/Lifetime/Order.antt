-- ===== src/Lifetime/Order.antt =====
-- The order in which the functions of a library are called.
use Prim.Native.Nat.{bit_or}
use and_emu.Base.{
  ℕ, zero, suc, ◌+◌, ◌*◌, ◌≡◌, refl, sym, ap, ◌∙◌, inl, inr, Bool, true, false, ◌||◌, List, [], ◌∷◌,
  ◌++◌, reverse, arith, ◌==◌, if◌then◌else◌, Bool-cases,
}
use and_emu.Base.Exec.{Exec, ok, fault, spin, ◌>>=◌, >>=-eq-ok}
use and_emu.Base.Word.{minus_one}
use and_emu.Kernel.{Space, Attempt, done, failed, space_of, Kernel, prot_read, prot_write}
use and_emu.Library.{with_space}
use and_emu.Lifetime.{
  writable, call_function, call_forward, call_reverse, call_array, call_destructors, call_init,
}
use and_emu.Memory.{Memory, load32}
use and_emu.Phdr.Protect.{KeepsBytes}
use and_emu.Register.{sizeof_pool, set_pool_protection}
use and_emu.SoInfo.{SoInfo, Infos, Linker}
use mathlib.Core.List.{reverse_aux}

-- `count` words of memory.
abbrev pub words : Memory → ℕ → ℕ → ℕ → List ℕ
words m a i zero = []
words m a i (suc count) = load32 m (a + 4 * i) ∷ words m a (suc i) count

-- The functions of a table, if there is one.
abbrev pub functions_at : Memory → ℕ → ℕ → List ℕ
functions_at m a count = if a == 0 then [] else words m a 0 count

-- The same words from the last to the first.
abbrev words_down : Memory → ℕ → ℕ → List ℕ
words_down m a zero = []
words_down m a (suc count) = load32 m (a + 4 * count) ∷ words_down m a count

words-snoc :
    (m : Memory) (a i count : ℕ)
    → words m a i (suc count) ≡ words m a i count ++ load32 m (a + 4 * (i + count)) ∷ []
words-snoc m a i zero = ap (λ (n : ℕ). load32 m (a + 4 * n) ∷ []) (plus_zero i)
  where
    plus_zero : (i : ℕ) → i ≡ i + 0
    plus_zero i = omega arith
words-snoc m a i (suc count) =
    ap (λ (ws : List ℕ). load32 m (a + 4 * i) ∷ ws)
      (words-snoc m a (suc i) count
        ∙ ap (λ (n : ℕ). words m a (suc i) count ++ load32 m (a + 4 * n) ∷ []) (shift i count))
  where
    shift : (i count : ℕ) → suc i + count ≡ i + suc count
    shift i count = omega arith

reverse_aux-snoc :
    (xs : List ℕ) (y : ℕ) (ys : List ℕ) → reverse_aux (xs ++ y ∷ []) ys ≡ y ∷ reverse_aux xs ys
reverse_aux-snoc [] y ys = refl
reverse_aux-snoc (x ∷ xs) y ys = reverse_aux-snoc xs y (x ∷ ys)

words_down-reverse : (m : Memory) (a count : ℕ) → words_down m a count ≡ reverse (words m a 0 count)
words_down-reverse m a zero = refl
words_down-reverse m a (suc count) =
    ap (λ (ws : List ℕ). load32 m (a + 4 * count) ∷ ws) (words_down-reverse m a count)
    ∙ sym (reverse_aux-snoc (words m a 0 count) (load32 m (a + 4 * count)) [])
    ∙ ap (λ (n : ℕ). reverse (words m a 0 count ++ load32 m (a + 4 * n) ∷ [])) (zero_plus count)
    ∙ ap (λ (ws : List ℕ). reverse ws) (sym (words-snoc m a 0 count))
  where
    zero_plus : (n : ℕ) → n ≡ 0 + n
    zero_plus n = omega arith

module _ (k : Kernel) (native : Bool) where
  -- Calls the functions in the order of the list.
  unfoldable pub call_list : List ℕ → Linker → Exec Linker
  unfolding call_function
  call_list [] l = ok l
  call_list (f ∷ fs) l = call_function k native f l >>= λ l'. call_list fs l'

  -- Neither a call nor a change of protection writes to memory.
  abbrev pub KeepsTables : Type 0
  KeepsTables = ((f : ℕ) (s : Space) → (k.call f s).memory ≡ s.memory) × KeepsBytes k

  call_list-append :
      (xs ys : List ℕ) (l : Linker)
      → call_list (xs ++ ys) l ≡ (call_list xs l >>= λ l'. call_list ys l')
  unfolding call_list
  call_list-append [] ys l = refl
  call_list-append (x ∷ xs) ys l =
      split (call_function k native x l) (λ l'. call_list-append xs ys l')
    where
      split :
          (r : Exec Linker)
          → ((l' : Linker) → call_list (xs ++ ys) l' ≡ (call_list xs l' >>= λ t. call_list ys t))
          → (r >>= λ l'. call_list (xs ++ ys) l')
            ≡ ((r >>= λ l'. call_list xs l') >>= λ l'. call_list ys l')
      split fault ih = refl
      split spin ih = refl
      split (ok l') ih = ih l'

  -- What a call keeps.
  abbrev Same : Linker → Linker → Type 0
  Same l l' = (l'.space.memory ≡ l.space.memory) × (l'.infos ≡ l.infos)

  module _ (quiet : KeepsTables) where
    set_pool_protection-memory :
        (prot : ℕ) (ps : List ℕ) (s s' : Space)
        → set_pool_protection k prot ps s ≡ ok s'
        → s'.memory ≡ s.memory
    unfolding set_pool_protection
    set_pool_protection-memory prot [] s s' e =
        let same : s ≡ s' = cc in ap (λ (t : Space). t.memory) (sym same)
    set_pool_protection-memory prot (p ∷ ps) s s' e =
        split (k.mprotect p sizeof_pool prot s) refl (λ t. set_pool_protection-memory prot ps t s')
      where
        split :
            (r : Attempt (Unit {0}))
            → k.mprotect p sizeof_pool prot s ≡ r
            → ((t : Space) → set_pool_protection k prot ps t ≡ ok s' → s'.memory ≡ t.memory)
            → s'.memory ≡ s.memory
        split (failed t) at ih =
            let stopped : set_pool_protection k prot (p ∷ ps) s ≡ fault =
              rw (at, set_pool_protection) in
            let both : fault ≡ ok s' = sym stopped ∙ e in cc
        split (done u t) at ih =
            let go : set_pool_protection k prot (p ∷ ps) s ≡ set_pool_protection k prot ps t =
              rw (at, set_pool_protection) in
            ih t (sym go ∙ e)
            ∙ ap (λ (r : Attempt (Unit {0})). (space_of r).memory) (sym at)
            ∙ quiet.1 p sizeof_pool prot s

    call_function-Same : (f : ℕ) (l l' : Linker) → call_function k native f l ≡ ok l' → Same l l'
    unfolding call_function
    call_function-Same f l l' e = elim (Bool-cases (f == 0 || f == minus_one)) [
      | inl null ↦
          let passed : call_function k native f l ≡ ok l = rw (null, call_function) in
          let both : ok l ≡ ok l' = sym passed ∙ e in
          let same : l ≡ l' = cc in
          (ap (λ (t : Linker). t.space.memory) (sym same), ap (λ (t : Linker). t.infos) (sym same))
      | inr called ↦
          let run : call_function k native f l
              ≡ writable k native (with_space l (if native then k.call f l.space else l.space)) =
            rw (called, call_function) in
          let (s, at, e') = >>=-eq-ok _ _ (sym run ∙ e) in
          let same : with_space l s ≡ l' = cc in
          (
            ap (λ (t : Linker). t.space.memory) (sym same)
                ∙ set_pool_protection-memory (bit_or prot_read prot_write) l.pools
                    (if native then k.call f l.space else l.space) s at
                ∙ in_call native,
            ap (λ (t : Linker). t.infos) (sym same),
          )
    ]
      where
        in_call : (b : Bool) → (if b then k.call f l.space else l.space).memory ≡ l.space.memory
        in_call true = quiet.0 f l.space
        in_call false = refl

    -- One call, then a loop that calls the functions `fs` whatever the state, in a memory that is kept.
    call_then :
        (f : ℕ) (fs : List ℕ) (rest : Linker → Exec Linker) (l : Linker)
        → ((l' : Linker) → Same l l' → rest l' ≡ call_list fs l')
        → (call_function k native f l >>= λ l'. rest l') ≡ call_list (f ∷ fs) l
    unfolding call_list
    call_then f fs rest l go = split (call_function k native f l) refl
      where
        split :
            (r : Exec Linker)
            → call_function k native f l ≡ r
            → (r >>= λ l'. rest l') ≡ (r >>= λ l'. call_list fs l')
        split fault e = refl
        split spin e = refl
        split (ok l') e = go l' (call_function-Same f l l' e)

    call_forward-call_list :
        (a i count : ℕ) (l : Linker)
        → call_forward k native a i count l ≡ call_list (words l.space.memory a i count) l
    unfolding call_forward call_list
    call_forward-call_list a i zero l = refl
    call_forward-call_list a i (suc count) l =
        call_then (load32 l.space.memory (a + 4 * i)) (words l.space.memory a (suc i) count)
          (λ l'. call_forward k native a (suc i) count l') l
          (λ l' same.
            call_forward-call_list a (suc i) count l'
            ∙ ap (λ m. call_list (words m a (suc i) count) l') same.0)

    call_reverse-call_list :
        (a count : ℕ) (l : Linker)
        → call_reverse k native a count l ≡ call_list (words_down l.space.memory a count) l
    unfolding call_reverse call_list
    call_reverse-call_list a zero l = refl
    call_reverse-call_list a (suc count) l =
        call_then (load32 l.space.memory (a + 4 * count)) (words_down l.space.memory a count)
          (λ l'. call_reverse k native a count l') l
          (λ l' same.
            call_reverse-call_list a count l'
            ∙ ap (λ m. call_list (words_down m a count) l') same.0)

    call_list-Same : (fs : List ℕ) (l l' : Linker) → call_list fs l ≡ ok l' → Same l l'
    unfolding call_list
    call_list-Same [] l l' e =
        let same : l ≡ l' = cc in
        (ap (λ (t : Linker). t.space.memory) (sym same), ap (λ (t : Linker). t.infos) (sym same))
    call_list-Same (f ∷ fs) l l' e =
        let (l2, first, rest) = >>=-eq-ok (call_function k native f l) (λ t. call_list fs t) e in
        let after = call_list-Same fs l2 l' rest in
        let before = call_function-Same f l l2 first in (after.0 ∙ before.0, after.1 ∙ before.1)

    call_list-one : (f : ℕ) (l : Linker) → call_list (f ∷ []) l ≡ call_function k native f l
    unfolding call_list
    call_list-one f l = split (call_function k native f l)
      where
        split : (r : Exec Linker) → (r >>= λ l'. ok l') ≡ r
        split fault = refl
        split spin = refl
        split (ok l') = refl

    call_array-reverse :
        (a count : ℕ) (l : Linker)
        → call_array k native a count true l
          ≡ call_list (reverse (functions_at l.space.memory a count)) l
    unfolding call_array call_list
    call_array-reverse a count l = elim (Bool-cases (a == 0)) [
      | inl null ↦ rw null
      | inr given ↦ rw given (
          call_reverse-call_list a count l
          ∙ ap (λ fs. call_list fs l) (words_down-reverse l.space.memory a count))
    ]

    call_array-forward :
        (a count : ℕ) (l : Linker)
        → call_array k native a count false l ≡ call_list (functions_at l.space.memory a count) l
    unfolding call_array call_list
    call_array-forward a count l = elim (Bool-cases (a == 0)) [
      | inl null ↦ rw null
      | inr given ↦ rw given (call_forward-call_list a 0 count l)
    ]

    -- If neither a call nor a change of protection writes to memory, CallDestructors calls the
    -- functions of DT_FINI_ARRAY in reverse order, and then DT_FINI.
    pub call_destructors-call_list :
        (si : ℕ) (l : Linker)
        → call_destructors k native si l
          ≡ call_list
              (reverse (
                  functions_at l.space.memory (l.infos si).fini_array (l.infos si).fini_array_count)
                ++ (l.infos si).fini_func ∷ [])
              l
    unfolding call_destructors call_array
    call_destructors-call_list si l =
        ap (λ (r : Exec Linker). r >>= λ l'. call_function k native (l'.infos si).fini_func l')
          (call_array-reverse i.fini_array i.fini_array_count l)
        ∙ split (call_list fs l) refl
        ∙ sym (call_list-append fs (i.fini_func ∷ []) l)
      where
        i : SoInfo
        i = l.infos si

        fs : List ℕ
        fs = reverse (functions_at l.space.memory i.fini_array i.fini_array_count)

        split :
            (r : Exec Linker)
            → call_list fs l ≡ r
            → (r >>= λ l'. call_function k native (l'.infos si).fini_func l')
              ≡ (r >>= λ l'. call_list (i.fini_func ∷ []) l')
        split fault e = refl
        split spin e = refl
        split (ok l') e =
            ap (λ (infos : Infos). call_function k native (infos si).fini_func l')
              (call_list-Same fs l l' e).1
            ∙ sym (call_list-one i.fini_func l')

    -- If neither a call nor a change of protection writes to memory, the end of CallConstructors
    -- calls DT_INIT, and then the functions of DT_INIT_ARRAY in order.
    pub call_init-call_list :
        (si : ℕ) (l : Linker)
        → call_init k native si l
          ≡ call_list
              ((l.infos si).init_func
                ∷ functions_at l.space.memory (l.infos si).init_array (l.infos si).init_array_count)
              l
    unfolding call_init
    call_init-call_list si l =
        call_then (l.infos si).init_func
          (functions_at l.space.memory (l.infos si).init_array (l.infos si).init_array_count)
          (λ l'.
            call_array k native (l'.infos si).init_array (l'.infos si).init_array_count false l')
          l
          (λ l' same.
            call_array-forward (l'.infos si).init_array (l'.infos si).init_array_count l'
            ∙ ap
                (λ m.
                  call_list (functions_at m (l'.infos si).init_array (l'.infos si).init_array_count)
                    l')
                same.0
            ∙ ap
                (λ (infos : Infos).
                  call_list
                    (functions_at l.space.memory (infos si).init_array (infos si).init_array_count)
                    l')
                same.1)
