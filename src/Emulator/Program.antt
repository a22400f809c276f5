-- ===== src/Emulator/Program.antt =====
-- main of emulator/emulator.cpp: the system libraries and one library are opened, and its JNI_OnLoad
-- is looked up and started on the engine.
pub mod Outcome
use and_emu.Base.{ℕ, Bool, some, List, [], ◌∷◌, ◌==◌, ◌!=◌, if◌then◌else◌}
use and_emu.Base.Exec.{Exec, ok, fault, ◌>>=◌}
use and_emu.Base.Text.{codes}
use and_emu.Dlfcn.{s_dlsym, s_dlopen}
use and_emu.Emulator.{Engine, Registers, Hooks, start_vm}
use and_emu.Kernel.{Kernel}
use and_emu.SoInfo.{Linker}

-- The libraries that main opens first.
abbrev pub system_names : List (List ℕ)
system_names =
    codes "libc.so"
    ∷ codes "libm.so"
    ∷ codes "liblog.so"
    ∷ codes "libz.so"
    ∷ codes "libstdc++.so"
    ∷ []

module _ (k : Kernel) (native : Bool) (fuel depth : ℕ) (paths preload_names : List (List ℕ)) where
  unfoldable pub load_android_so : List ℕ → Linker → Exec (ℕ × Linker)
  unfolding s_dlopen
  load_android_so path l = s_dlopen k native fuel paths preload_names depth path 0 l

  -- Libraries opened one after the other, whose handles are not looked at.
  unfoldable pub open_each : List (List ℕ) → Linker → Exec Linker
  unfolding s_dlopen
  open_each [] l = ok l
  open_each (name ∷ names) l =
      s_dlopen k native fuel paths preload_names depth name 0 l >>= λ (h, l'). open_each names l'

  module _ (e : Engine) (reg : Registers) (hook : Hooks) (g_sp : ℕ) where
    -- start_vm of a pointer: it reads the library once the engine is open, and a null pointer crashes.
    unfoldable pub start_handle : ℕ → ℕ → Linker → ℕ → Exec (ℕ × ℕ)
    unfolding start_vm
    start_handle si entry l u =
        if (e.uc_open u).0 != 0
        then ok (start_vm e reg hook g_sp (l.infos si) entry u)
        else if si == 0
        then fault
        else ok (start_vm e reg hook g_sp (l.infos si) entry u)

    -- The linker and the engine at the end, from those at the start; `ret_addr` is the return address
    -- of the call of s_dlsym.
    unfoldable pub main : ℕ → Linker → ℕ → Exec (Linker × ℕ)
    unfolding load_android_so open_each start_handle s_dlsym
    main ret_addr l u = open_each system_names l >>= λ l₁.
        load_android_so (codes "libsgmainso-6.0.71.so") l₁ >>= λ (si, l₂).
        s_dlsym fuel l₂ ret_addr si (some (codes "JNI_OnLoad")) >>= λ entry.
        start_handle si entry l₂ u >>= λ (went, u'). ok (l₂, u')
