-- ===== src/Tests/Libraries.antt =====
-- The register, the dynamic section and the opening of files.
use and_emu.Base.{
  ℕ, ◌≡◌, refl, ◌≢◌, ◌⊎◌, Option, List, [], ◌∷◌, ◌++◌, arith, ◌==◌, if◌then◌else◌, take, All,
}
use and_emu.Base.Exec.{ok}
use and_emu.Base.Text.{codes}
use and_emu.Dynamic.{parsed, parse_dynamic}
use and_emu.Dynamic.Fields.{IsTable, Supported, count_tag, Reads, parse_dynamic-Reads}
use and_emu.Elf.{Dyn, dyn_at, dt_needed}
use and_emu.Engine.{s_strlcpy}
use and_emu.Engine.Truncation.{s_strlcpy-take}
use and_emu.Library.{has_slash, open_library}
use and_emu.Library.Opening.{attempts, open_library-attempts}
use and_emu.Memory.{Memory, load32}
use and_emu.Register.{soinfo_alloc, soinfo_free, basename, find_loaded_library}
use and_emu.Register.Find.{FirstNamed, find_loaded_library-FirstNamed}
use and_emu.Register.Free.{soinfo_free-IsRegister}
use and_emu.Register.Libraries.{IsRegister}
use and_emu.Register.Links.{Distinct}
use and_emu.Register.Load.{Refused, Added, FreshPools, soinfo_alloc-Added}
use and_emu.SoInfo.{SoInfo, Linker}
use and_emu.Tests.Lookups.{listed}
use and_emu.Tests.Sample.{space, bare, infos, linker, kernel}

pub register : IsRegister linker (0x2000 ∷ 0x3000 ∷ []) (0x4000 ∷ [])
register = (listed, refl, (refl, (λ (e : 0x4000 ≡ 0). omega arith), refl), distinct)
  where
    distinct : Distinct (0x1000 ∷ 0x2000 ∷ 0x3000 ∷ 0x4000 ∷ [])
    distinct = (
      (λ m. ground arith),
      ((λ m. ground arith), ((λ m. ground arith), ((λ m. ground arith), tt))),
    )

fresh : FreshPools kernel (codes "c.so") linker (0x2000 ∷ 0x3000 ∷ [])
fresh pool s e x m = let at : 0x10000 ≡ pool = cc in ground arith

soinfo_alloc-Added_example :
    Refused kernel
      (codes "c.so")
      linker
      (0x2000 ∷ 0x3000 ∷ [])
      (soinfo_alloc kernel (codes "c.so") linker)
    ⊎ Added kernel
        (codes "c.so")
        linker
        (0x2000 ∷ 0x3000 ∷ [])
        (soinfo_alloc kernel (codes "c.so") linker)
soinfo_alloc-Added_example =
    soinfo_alloc-Added kernel (codes "c.so") linker (0x2000 ∷ 0x3000 ∷ []) (0x4000 ∷ []) register
      fresh

soinfo_free-IsRegister_example :
    (l' : Linker) × (soinfo_free 8 0x2000 linker ≡ ok l')
    × IsRegister l' (0x3000 ∷ []) (0x2000 ∷ 0x4000 ∷ [])
    × ((q : ℕ) → q ≢ 0x2000 → q ≢ 0x1000 → l'.infos q ≡ infos q)
soinfo_free-IsRegister_example =
    soinfo_free-IsRegister linker 0x2000 [] (0x3000 ∷ []) (0x4000 ∷ []) register 8 (omega arith)

open_library-attempts_example :
    open_library kernel ([] ∷ codes "/system/lib" ∷ []) (codes "a.so") space
    ≡ attempts kernel (codes "a.so") 3 space
unfolding and_emu.Library.has_slash
open_library-attempts_example =
    open_library-attempts kernel (codes "a.so") ([] ∷ codes "/system/lib" ∷ []) space

s_strlcpy-take_example :
    ((s_strlcpy (codes "libdl.so") 4).0 ≡ take 3 (codes "libdl.so") ++ 0 ∷ [])
    × ((s_strlcpy (codes "libdl.so") 4).1 ≡ 8)
s_strlcpy-take_example = s_strlcpy-take (codes "libdl.so") 4 (λ (e : 4 ≡ 0). omega arith)

-- A dynamic section at 0x7000: DT_NEEDED, DT_STRTAB, DT_SYMBOLIC and DT_NULL.
abbrev dynamic_memory : Memory
dynamic_memory a =
    if a == 0x7000
    then 1
    else if a == 0x7004
    then 9
    else if a == 0x7008
    then 5
    else if a == 0x700c
    then 0x60
    else if a == 0x7010
    then 16
    else 0

abbrev entries_at : List Dyn
entries_at =
    record { d_tag = 1; d_val = 9 }
    ∷ record { d_tag = 5; d_val = 0x60 }
    ∷ record { d_tag = 16; d_val = 0 }
    ∷ []

entries_listed : IsTable dynamic_memory 0x7000 entries_at
unfolding dyn_at load32
entries_listed = (
  refl,
  (λ (e : 1 ≡ 0). omega arith),
  (refl, (λ (e : 5 ≡ 0). omega arith), (refl, (λ (e : 16 ≡ 0). omega arith), refl)),
)

entries-Supported : All Supported entries_at
entries-Supported = (
  ((λ (e : 1 ≡ 7). omega arith), (λ (e : 1 ≡ 20). absurd (omega arith))),
  (
    ((λ (e : 5 ≡ 7). omega arith), (λ (e : 5 ≡ 20). absurd (omega arith))),
    (((λ (e : 16 ≡ 7). omega arith), (λ (e : 16 ≡ 20). absurd (omega arith))), tt),
  ),
)

parse_dynamic-Reads_example :
    (si' : SoInfo) × (parse_dynamic 8 dynamic_memory 0xa000 0x7000 bare 0
      ≡ ok (parsed si' (count_tag dt_needed 0 entries_at)))
    × Reads dynamic_memory 0xa000 bare si' entries_at
parse_dynamic-Reads_example =
    parse_dynamic-Reads dynamic_memory 0xa000 8 0x7000 bare entries_at entries_listed
      entries-Supported (omega arith)

find_loaded_library-FirstNamed_example :
    (r : Option ℕ) × (find_loaded_library 8 linker (codes "lib/a.so") ≡ ok r)
    × FirstNamed infos (basename (codes "lib/a.so")) (0x1000 ∷ 0x2000 ∷ 0x3000 ∷ []) r
find_loaded_library-FirstNamed_example =
    find_loaded_library-FirstNamed linker (0x1000 ∷ 0x2000 ∷ 0x3000 ∷ []) (codes "lib/a.so") 8
      listed (omega arith)
