-- ===== src/Tests/Relocations.antt =====
-- Relocations: one entry that needs a symbol, and a table of one relative entry.
use and_emu.Base.{ℕ, ◌*◌, ◌^◌, ◌<◌, ◌≡◌, refl, true, some, [], ◌∷◌, arith, ◌==◌, if◌then◌else◌}
use and_emu.Base.Exec.{ok}
use and_emu.Base.Scan.{scan}
use and_emu.Elf.{sym_at, Rel, rel_at, r_sym, r_type}
use and_emu.Memory.{Memory, load16, load32, str_eq, c_string}
use and_emu.Reloc.{resolve, relocate_one, relocate}
use and_emu.Reloc.Entry.{relocate_one-elf_value}
use and_emu.Reloc.Frame.{places, Outside, Unpatched, relocate-frame}
use and_emu.Reloc.Relative.{AllRelative, Separate, Rebased, relocate-Rebased}
use and_emu.SoInfo.{Linker}
use and_emu.Symbol.{elfhash, is_match, elf_lookup, lookup_in, do_lookup}
use and_emu.Tests.Sample.{linker}

-- R_ARM_GLOB_DAT of symbol 1, "f".
abbrev entry : Rel
entry = record { r_offset = 0x100; r_info = 0x115 }

resolved :
    resolve 8 linker 0x3000 (0x2000 ∷ []) (r_type entry) (r_sym entry)
    ≡ ok (some (record { sym_addr = 0xa040; s = some 0x5110 }))
unfolding resolve and_emu.Memory.c_string and_emu.Elf.sym_at load32 and_emu.Symbol.do_lookup
    and_emu.Symbol.lookup_in and_emu.Symbol.elf_lookup and_emu.Base.Scan.scan and_emu.Symbol.elfhash
    and_emu.Symbol.is_match and_emu.Memory.str_eq and_emu.Memory.load16
resolved = refl

relocate_one-elf_value_example :
    (m : Memory) × (relocate_one 8 linker 0x3000 (0x2000 ∷ []) entry ≡ ok (some m))
    × (load32 m 0x9100 ≡ 0xa040)
relocate_one-elf_value_example =
    relocate_one-elf_value 8 linker 0x3000 (0x2000 ∷ []) entry
      (record { sym_addr = 0xa040; s = some 0x5110 }) 0xa040 resolved (omega arith) (omega arith)
      (omega arith) refl

abbrev relative : Rel
relative = record { r_offset = 0x100; r_info = 23 }

-- A table of one relative entry at 0x7000.
abbrev table_memory : Memory
table_memory a = if a == 0x7001 then 1 else if a == 0x7004 then 23 else 0

abbrev rebasing : Linker
rebasing = record linker { space = record { memory = table_memory; kernel = 0 } }

unpatched : Unpatched 0x7000 (8 * 1) (places (rebasing.infos 0x2000) table_memory 0x7000 1)
unfolding places rel_at load32
unpatched i lt = (omega arith, tt)

relatives : AllRelative table_memory 0x7000 1
unfolding rel_at load32
relatives = (refl, refl, tt)

apart : Separate (places (rebasing.infos 0x2000) table_memory 0x7000 1)
unfolding places
apart = (tt, tt)

-- The linker after the table.
rebased : (l' : Linker) × (relocate 8 0x2000 [] 1 0x7000 rebasing ≡ ok (l', true))
rebased =
    let run = relocate-Rebased 8 0x2000 [] 1 0x7000 rebasing refl relatives apart unpatched in
    (run.0, run.1)

relocate-Rebased_example :
    (l' : Linker) × (relocate 8 0x2000 [] 1 0x7000 rebasing ≡ ok (l', true))
    × Rebased 0xa000 table_memory l'.space.memory
        (places (rebasing.infos 0x2000) table_memory 0x7000 1)
relocate-Rebased_example =
    relocate-Rebased 8 0x2000 [] 1 0x7000 rebasing refl relatives apart unpatched

relocate-frame_example :
    let l' = rebased.0 in
    (l'.infos ≡ rebasing.infos)
    × ((p : ℕ)
        → p < 2 ^ 32
        → Outside (places (rebasing.infos 0x2000) table_memory 0x7000 1) p
        → l'.space.memory p ≡ table_memory p)
relocate-frame_example =
    relocate-frame 8 0x2000 [] 1 0x7000 rebasing rebased.0 true rebased.1 refl unpatched
