-- ===== src/Tests/Machine.antt =====
-- A run of start_vm on an engine that counts its calls.
use and_emu.Base.{suc, ◌≡◌, refl}
use and_emu.Emulator.{Engine, Registers, Hooks, start_vm}
use and_emu.Emulator.Calls.{Ran, start_vm-Ran}
use and_emu.Tests.Sample.{with_symbol}

abbrev pub counting : Engine
counting = record { uc_open = λ u. (0, 0); ask = λ c u. (0, suc u) }

abbrev pub registers : Registers
registers = record { sp = 12; pc = 11; cpsr = 3; lr = 10 }

abbrev pub hooks : Hooks
hooks = record { block = 8; code = 4; insn = 2; intr = 1 }

runs : (start_vm counting registers hooks 0x9_0000 with_symbol 0xa040 7).1 ≡ 12
unfolding start_vm
runs = refl

start_vm-Ran_example :
    Ran counting registers hooks 0x9_0000 with_symbol 0xa040 7
      (start_vm counting registers hooks 0x9_0000 with_symbol 0xa040 7)
start_vm-Ran_example = start_vm-Ran counting registers hooks 0x9_0000 with_symbol 0xa040 7
