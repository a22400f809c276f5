-- ===== src/Emulator.antt =====
-- start_vm of emulator/emulator.cpp, over the unicorn engine as a parameter.
pub mod Calls
pub mod Program
use and_emu.Base.{ℕ, ◌+◌, ◌*◌, Bool, true, not, List, [], ◌∷◌, ◌==◌, ◌!=◌, if◌then◌else◌}
use and_emu.SoInfo.{SoInfo}

-- The calls of the engine, with their arguments; the engine itself is the one that uc_open made.
pub data Call : Type 0 where
  uc_mem_map : ℕ → ℕ → Call
  uc_mem_write : ℕ → ℕ → ℕ → Call
  uc_reg_write : ℕ → ℕ → Call
  uc_hook_add : ℕ → ℕ → ℕ → Call
  uc_emu_start : ℕ → ℕ → Call
  uc_close : Call

-- Each call gives its `uc_err`, where 0 is UC_ERR_OK, and the engine's next state.
pub record Engine : Type 0 where
  pub uc_open : ℕ → ℕ × ℕ
  pub ask : Call → ℕ → ℕ × ℕ

-- UC_ARM_REG_SP, UC_ARM_REG_PC, UC_ARM_REG_CPSR and UC_ARM_REG_LR of the engine.
pub record Registers : Type 0 where
  pub sp : ℕ
  pub pc : ℕ
  pub cpsr : ℕ
  pub lr : ℕ

-- UC_HOOK_BLOCK, UC_HOOK_CODE, UC_HOOK_INSN and UC_HOOK_INTR.
pub record Hooks : Type 0 where
  pub block : ℕ
  pub code : ℕ
  pub insn : ℕ
  pub intr : ℕ

-- `64 * 1024 * 1024`.
abbrev pub mapped_size : ℕ
mapped_size = 64 * 1024 * 1024

-- Calls whose error is not looked at.
unfoldable pub ask_all : Engine → List Call → ℕ → ℕ
ask_all e [] u = u
ask_all e (c ∷ cs) u = ask_all e cs (e.ask c u).1

module _ (e : Engine) (reg : Registers) (hook : Hooks) (g_sp : ℕ) where
  -- The calls from uc_mem_map to the last uc_hook_add.
  abbrev pub setup_calls : SoInfo → ℕ → List Call
  setup_calls si entry =
      uc_mem_map si.base mapped_size
      ∷ uc_mem_write si.base si.base si.size
      ∷ uc_reg_write reg.sp g_sp
      ∷ uc_reg_write reg.pc entry
      ∷ uc_reg_write reg.cpsr 0x600f_0010
      ∷ uc_reg_write reg.lr entry
      ∷ uc_hook_add hook.block 1 0
      ∷ uc_hook_add hook.code si.base si.base
      ∷ uc_hook_add hook.insn si.base si.base
      ∷ uc_hook_add hook.intr si.base si.base
      ∷ []

  -- `if (function) { uc_emu_start(…) }`: whether the function goes on.
  unfoldable pub emulate : ℕ → ℕ → ℕ → Bool × ℕ
  emulate function length_ u =
      if function == 0
      then (true, u)
      else let (err, u') = e.ask (uc_emu_start function (function + length_)) u in (err == 0, u')

  -- The result, and the state that the engine is left in.
  unfoldable pub start_vm : SoInfo → ℕ → ℕ → ℕ × ℕ
  unfolding ask_all emulate
  start_vm si entry u =
      let (err, opened) = e.uc_open u in
      if err != 0
      then (0, opened)
      else let (went, u₁) = emulate si.init_func 10 (ask_all e (setup_calls si entry) opened) in
        if not went
        then (0, u₁)
        else let (went', u₂) = emulate entry 20 u₁ in
          if not went' then (0, u₂) else (1, (e.ask uc_close u₂).1)
