-- ===== src/Emulator/Calls.antt =====
-- Which calls start_vm makes, with which result, and on which ways out the engine stays open.
use and_emu.Base.{
  ℕ, ◌+◌, ◌≡◌, refl, sym, ap, ◌∙◌, subst, ◌≢◌, ◌⊎◌, inl, inr, Bool, true, false, not, List, [], ◌∷◌,
  ◌++◌, arith, ◌==◌, ◌!=◌, if◌then◌else◌, ==_iff, Bool-cases,
}
use and_emu.Emulator.{
  Call, uc_emu_start, uc_close, Engine, Registers, Hooks, ask_all, setup_calls, emulate, start_vm,
}
use and_emu.SoInfo.{SoInfo}

ask_all-append :
    (e : Engine) (xs ys : List Call) (u : ℕ)
    → ask_all e ys (ask_all e xs u) ≡ ask_all e (xs ++ ys) u
unfolding ask_all
ask_all-append e [] ys u = refl
ask_all-append e (x ∷ xs) ys u = ask_all-append e xs ys (e.ask x u).1

append_nil : (xs : List Call) → xs ++ [] ≡ xs
append_nil [] = refl
append_nil (x ∷ xs) = ap (λ (ys : List Call). x ∷ ys) (append_nil xs)

-- The call that runs a function, if there is one.
abbrev pub starts : ℕ → ℕ → List Call
starts function length_ =
    if function == 0 then [] else uc_emu_start function (function + length_) ∷ []

module _ (e : Engine) (reg : Registers) (hook : Hooks) (g_sp : ℕ) where
  -- A function that is null, or that the engine runs without an error.
  abbrev pub RunsWell : ℕ → ℕ → ℕ → Type 0
  RunsWell function length_ u =
      (function ≡ 0) ⊎ ((e.ask (uc_emu_start function (function + length_)) u).0 ≡ 0)

  -- A function that the engine gives up with an error.
  abbrev pub Breaks : ℕ → ℕ → ℕ → Type 0
  Breaks function length_ u =
      (function ≢ 0) × ((e.ask (uc_emu_start function (function + length_)) u).0 ≢ 0)

  emulate-ask_all :
      (function length_ u : ℕ)
      → (emulate e reg hook g_sp function length_ u).1 ≡ ask_all e (starts function length_) u
  unfolding emulate ask_all
  emulate-ask_all function length_ u = elim (Bool-cases (function == 0)) [
    | inl none_ ↦ rw none_
    | inr some_ ↦ rw some_
  ]

  emulate-true :
      (function length_ u : ℕ)
      → (emulate e reg hook g_sp function length_ u).0 ≡ true
      → RunsWell function length_ u
  unfolding emulate
  emulate-true function length_ u went = elim (Bool-cases (function == 0)) [
    | inl none_ ↦ inl (ground arith)
    | inr some_ ↦ inr ((==_iff _ 0).0 (rw some_ at went))
  ]

  emulate-false :
      (function length_ u : ℕ)
      → (emulate e reg hook g_sp function length_ u).0 ≡ false
      → Breaks function length_ u
  unfolding emulate
  emulate-false function length_ u went = elim (Bool-cases (function == 0)) [
    | inl none_ ↦ absurd (not_false (rw none_ at went))
    | inr some_ ↦
        let err : ((e.ask (uc_emu_start function (function + length_)) u).0 == 0) ≡ false =
          rw some_ at went in
        (ground arith, λ zero_. ground arith)
  ]
    where
      not_false : true ≡ false → ⊥
      not_false same = cc

  -- The calls up to the init function, and up to the entry point.
  abbrev pub init_script : SoInfo → ℕ → List Call
  init_script si entry = setup_calls e reg hook g_sp si entry ++ starts si.init_func 10

  abbrev pub script : SoInfo → ℕ → List Call
  script si entry = init_script si entry ++ starts entry 20

  -- The engine cannot be opened; or it is, and the init function breaks, or the entry point breaks
  -- after it, or neither. The last state is the one after just the calls that come before that.
  abbrev pub Ran : SoInfo → ℕ → ℕ → ℕ × ℕ → Type 0
  Ran si entry u r =
      (((e.uc_open u).0 ≢ 0) × (r.0 ≡ 0) × (r.1 ≡ (e.uc_open u).1))
      ⊎ (((e.uc_open u).0 ≡ 0)
          × ((Breaks si.init_func 10
                  (ask_all e (setup_calls e reg hook g_sp si entry) (e.uc_open u).1)
                × (r.0 ≡ 0)
                × (r.1 ≡ ask_all e (init_script si entry) (e.uc_open u).1))
              ⊎ (RunsWell si.init_func 10
                    (ask_all e (setup_calls e reg hook g_sp si entry) (e.uc_open u).1)
                  × ((Breaks entry 20 (ask_all e (init_script si entry) (e.uc_open u).1)
                        × (r.0 ≡ 0)
                        × (r.1 ≡ ask_all e (script si entry) (e.uc_open u).1))
                      ⊎ (RunsWell entry 20 (ask_all e (init_script si entry) (e.uc_open u).1)
                          × (r.0 ≡ 1)
                          × (r.1
                              ≡ ask_all e (script si entry ++ uc_close ∷ []) (e.uc_open u).1))))))

  module _ (si : SoInfo) (entry u : ℕ) where
    abbrev opened : ℕ
    opened = (e.uc_open u).1

    abbrev set_up : ℕ
    set_up = ask_all e (setup_calls e reg hook g_sp si entry) opened

    abbrev first_run : Bool × ℕ
    first_run = emulate e reg hook g_sp si.init_func 10 set_up

    abbrev initialised : ℕ
    initialised = ask_all e (init_script si entry) opened

    first_state : first_run.1 ≡ initialised
    first_state =
        emulate-ask_all si.init_func 10 set_up
        ∙ ask_all-append e (setup_calls e reg hook g_sp si entry) (starts si.init_func 10) opened

    -- start_vm opens the engine, sets up memory, registers and hooks, and runs the library's init
    -- function and then the entry point, where they are not null. It returns 1 exactly if the engine
    -- opens and neither run has an error, and has closed the engine then. It returns 0 at once if the
    -- engine cannot be opened, and right after the first run that has an error, and has not closed
    -- the engine.
    pub start_vm-Ran : Ran si entry u (start_vm e reg hook g_sp si entry u)
    unfolding start_vm
    start_vm-Ran = elim (Bool-cases ((e.uc_open u).0 != 0)) [
      | inl broken ↦ rw broken (inl (ground arith, refl, refl))
      | inr open_ ↦
          rw open_ (inr (ground arith, after_init first_run.0 first_run.1 refl first_state))
    ]
      where
        close : Bool → ℕ → ℕ × ℕ
        close went' u₂ = if not went' then (0, u₂) else (1, (e.ask uc_close u₂).1)

        Rest : ℕ × ℕ → Type 0
        Rest r =
            (Breaks entry 20 initialised × (r.0 ≡ 0) × (r.1 ≡ ask_all e (script si entry) opened))
            ⊎ (RunsWell entry 20 initialised
                × (r.0 ≡ 1)
                × (r.1 ≡ ask_all e (script si entry ++ uc_close ∷ []) opened))

        closed :
            (went' : Bool) (u₂ : ℕ)
            → (emulate e reg hook g_sp entry 20 initialised).0 ≡ went'
            → u₂ ≡ ask_all e (script si entry) opened
            → Rest (close went' u₂)
        closed false u₂ went at = inl (emulate-false entry 20 initialised went, refl, at)
        closed true u₂ went at = inr (
          emulate-true entry 20 initialised went,
          refl,
          ap (λ (t : ℕ). (e.ask uc_close t).1) at
              ∙ ask_all-append e (script si entry) (uc_close ∷ []) opened,
        )

        second : ℕ → ℕ × ℕ
        second u₁ =
            close (emulate e reg hook g_sp entry 20 u₁).0 (emulate e reg hook g_sp entry 20 u₁).1

        after_init :
            (went : Bool) (u₁ : ℕ)
            → first_run.0 ≡ went
            → u₁ ≡ initialised
            → let r : ℕ × ℕ = if not went then (0, u₁) else second u₁ in
              (Breaks si.init_func 10 set_up × (r.0 ≡ 0) × (r.1 ≡ initialised))
              ⊎ (RunsWell si.init_func 10 set_up × Rest r)
        after_init false u₁ went at = inl (emulate-false si.init_func 10 set_up went, refl, at)
        after_init true u₁ went at = inr (
          emulate-true si.init_func 10 set_up went,
          subst (λ (t : ℕ). Rest (second t)) (sym at)
              (closed (emulate e reg hook g_sp entry 20 initialised).0
                (emulate e reg hook g_sp entry 20 initialised).1 refl
                (emulate-ask_all entry 20 initialised
                  ∙ ask_all-append e (init_script si entry) (starts entry 20) opened)),
        )
