-- ===== src/Emulator/Program/Outcome.antt =====
-- What a run of main comes to.
use and_emu.Base.{ℕ, ◌≡◌, ap, ◌∙◌, ◌≢◌, ◌⊎◌, Bool, some, List, ◌∷◌, ◌∈◌}
use and_emu.Base.Exec.{Exec, ok, fault, ◌>>=◌}
use and_emu.Base.Text.{codes}
use and_emu.Dlfcn.{s_dlsym}
use and_emu.Emulator.{Engine, Registers, Hooks}
use and_emu.Emulator.Calls.{Ran}
use and_emu.Emulator.Program.{system_names, load_android_so, open_each, start_handle, main}
use and_emu.Kernel.{Kernel}
use and_emu.Lifetime.Kept.{SameImage}
use and_emu.Register.Placed.{KeepsPools, IsPlaced}
use and_emu.SoInfo.{SoInfo, Linker}

module _ (k : Kernel) (Held : ℕ → ℕ → Type 0) (native : Bool) (fuel depth : ℕ)
    (paths preload_names : List (List ℕ)) where
  module _ (pools : KeepsPools k Held) (en : Engine) (reg : Registers) (hook : Hooks)
      (g_sp : ℕ) where
    -- The engine could not be opened and is as uc_open left it; or `si` is not null, s_dlsym returned
    -- for it, and start_vm ran for `si` and what s_dlsym returned.
    abbrev pub Started : ℕ → ℕ → Linker → ℕ → ℕ → Type 0
    Started ret_addr si l u u' =
        (((en.uc_open u).0 ≢ 0) × (u' ≡ (en.uc_open u).1))
        ⊎ ((entry : ℕ) × (si ≢ 0)
            × (s_dlsym fuel l ret_addr si (some (codes "JNI_OnLoad")) ≡ ok entry)
            × ((went : ℕ) × Ran en reg hook g_sp (l.infos si) entry u (went, u')))

    -- A register headed by the entry at `at`, whose image has not changed, and with `si`, if not null.
    abbrev pub Registered : ℕ → SoInfo → ℕ → Linker → Type 0
    Registered at image si l =
        (xs fs : List ℕ) × IsPlaced Held l xs fs
        × (l.solist ≡ at)
        × SameImage image (l.infos at)
        × ((si ≡ 0) ⊎ (si ∈ (l.solist ∷ xs)))

module _ (k : Kernel) (native : Bool) (fuel depth : ℕ) (paths preload_names : List (List ℕ))
    (en : Engine) (reg : Registers) (hook : Hooks) (g_sp : ℕ) where
  -- Where load_android_so gives a null pointer, main goes on with it: s_dlsym finds nothing, and once
  -- the engine is open start_vm crashes.
  pub main-unchecked :
      (ret_addr u : ℕ) (l l₁ l₂ : Linker)
      → open_each k native fuel depth paths preload_names system_names l ≡ ok l₁
      → load_android_so k native fuel depth paths preload_names (codes "libsgmainso-6.0.71.so") l₁
        ≡ ok (0, l₂)
      → (en.uc_open u).0 ≡ 0
      → main k native fuel depth paths preload_names en reg hook g_sp ret_addr l u ≡ fault
  unfolding main s_dlsym start_handle
  main-unchecked ret_addr u l l₁ l₂ first missing open_ =
      ap (λ (r : Exec Linker). r >>= λ l₁. after l₁) first
      ∙ ap (λ (r : Exec (ℕ × Linker)). r >>= λ p. started p) missing
      ∙ rw open_
    where
      started : ℕ × Linker → Exec (Linker × ℕ)
      started (si, l₂) = s_dlsym fuel l₂ ret_addr si (some (codes "JNI_OnLoad")) >>= λ entry.
          start_handle k native fuel depth paths preload_names en reg hook g_sp si entry l₂ u
          >>= λ (went, u'). ok (l₂, u')

      after : Linker → Exec (Linker × ℕ)
      after l₁ =
          load_android_so k native fuel depth paths preload_names (codes "libsgmainso-6.0.71.so") l₁
          >>= λ p. started p
