-- ===== src/Tests/Lookups.antt =====
-- Lookups of symbols and libraries.
use and_emu.Base.{
  ℕ, zero, suc, ◌+◌, ◌*◌, ◌<◌, ◌≡◌, refl, subst, inl, inr, true, false, some, [], ◌∷◌, arith,
}
use and_emu.Base.Exec.{ok, ◌>>=◌}
use and_emu.Base.Scan.{scan, Links}
use and_emu.Base.Text.{codes}
use and_emu.Base.Word.{add32}
use and_emu.Dlfcn.{rtld_default, rtld_next, address_of, s_dlsym}
use and_emu.Dlfcn.Names.{Exports, s_dlsym-rtld_next, s_dlsym-Exports}
use and_emu.Elf.{sym_at}
use and_emu.Memory.{Memory, load16, load32, str_eq}
use and_emu.SoInfo.{SoInfo}
use and_emu.Symbol.{
  elfhash, next_in_chain, is_match, elf_lookup, lookup_in, do_lookup, dlsym_linear_lookup, contains,
  find_containing_library, contains_pc, exidx_of, find_exidx, dladdr_find_symbol,
}
use and_emu.Symbol.Address.{
  Owner, find_containing_library-Owner, find_exidx-find_containing_library, contains_pc_at_top,
  ExtentsFit, FirstHolding, dladdr_find_symbol-FirstHolding,
}
use and_emu.Symbol.Scope.{search_order, look, do_lookup-search_order, dlsym_linear_lookup-lookup_in}
use and_emu.Symbol.Table.{IsHashTable, Found, elf_lookup-Found}
use and_emu.Tests.Sample.{memory, bare, with_symbol, infos, linker}

table : IsHashTable 8 memory with_symbol
unfolding load32
table = record {
  chains = λ b. 1 ∷ [];
  buckets = omega arith;
  linked = λ b lt.
      subst
        (λ (b : ℕ).
          Links (next_in_chain memory with_symbol) (load32 memory (0x5000 + 4 * b)) (1 ∷ []))
        (first_bucket b lt) (refl, (λ (e : 1 ≡ 0). omega arith), refl);
  short = λ b. omega arith;
  filed = λ name n pos lt match_. inl (omega arith);
  within = λ b n m. elim m [ inl here ↦ omega arith | inr later ↦ absurd later ];
}
  where
    first_bucket : (b : ℕ) → b < 1 → 0 ≡ b
    first_bucket b lt = omega arith

elf_lookup-Found_example :
    Found 8 memory with_symbol
      (codes "f")
      (elf_lookup 8 memory with_symbol (elfhash (codes "f")) (codes "f"))
elf_lookup-Found_example = elf_lookup-Found 8 memory with_symbol (codes "f") table

do_lookup-search_order_example :
    do_lookup 8 linker 0x3000 (codes "f") (0x2000 ∷ [])
    ≡ look 8 linker (codes "f") (0x2000 ∷ []) (search_order linker 0x3000 (0x2000 ∷ []))
do_lookup-search_order_example =
    do_lookup-search_order 8 linker (codes "f") (0x2000 ∷ []) 0x3000
      (λ (e : 0x3000 ≡ 0). omega arith)

pub listed : Links (λ q. (infos q).next) 0x1000 (0x1000 ∷ 0x2000 ∷ 0x3000 ∷ [])
listed = (
  refl,
  (λ (e : 0x1000 ≡ 0). omega arith),
  (refl, (λ (e : 0x2000 ≡ 0). omega arith), (refl, (λ (e : 0x3000 ≡ 0). omega arith), refl)),
)

dlsym_linear_lookup-lookup_in_example :
    dlsym_linear_lookup 8 linker (codes "f") 0
    ≡ lookup_in 8 memory infos (0x1000 ∷ 0x2000 ∷ 0x3000 ∷ []) (elfhash (codes "f")) (codes "f")
dlsym_linear_lookup-lookup_in_example =
    dlsym_linear_lookup-lookup_in 8 linker (codes "f") 0 (0x1000 ∷ 0x2000 ∷ 0x3000 ∷ []) listed
      (omega arith)

find_containing_library-Owner_example :
    Owner linker (0x1000 ∷ 0x2000 ∷ 0x3000 ∷ []) 0xa010 (find_containing_library 8 linker 0xa010)
find_containing_library-Owner_example =
    find_containing_library-Owner 8 linker (0x1000 ∷ 0x2000 ∷ 0x3000 ∷ []) listed (omega arith)
      (λ p. ground arith) 0xa010 (omega arith)

find_exidx-find_containing_library_example :
    find_exidx 8 linker 0xa010
    ≡ (find_containing_library 8 linker 0xa010 >>= λ r. ok (exidx_of linker r))
find_exidx-find_containing_library_example =
    find_exidx-find_containing_library 8 linker (0x1000 ∷ 0x2000 ∷ 0x3000 ∷ []) listed (omega arith)
      (λ p. ground arith) 0xa010 (omega arith) (λ p. ground arith)

abbrev topmost : SoInfo
topmost = record bare { base = 0xffff_f000 }

contains_pc_at_top_example :
    (contains_pc topmost 0xffff_f800 ≡ false) × (contains topmost 0xffff_f800 ≡ true)
contains_pc_at_top_example =
    contains_pc_at_top topmost 0xffff_f800 (omega arith) (omega arith) refl
      (omega arith, omega arith)

extents_fit : ExtentsFit memory with_symbol
unfolding sym_at load32
extents_fit zero lt = omega arith
extents_fit (suc zero) lt = omega arith
extents_fit (suc (suc i)) lt = absurd (omega arith)

dladdr_find_symbol-FirstHolding_example :
    FirstHolding memory with_symbol 0xa044 (dladdr_find_symbol memory with_symbol 0xa044)
dladdr_find_symbol-FirstHolding_example =
    dladdr_find_symbol-FirstHolding memory with_symbol 0xa044 (omega arith) (omega arith)
      extents_fit

caller_found : find_containing_library 8 linker 0x9010 ≡ ok (some 0x1000)
unfolding find_containing_library and_emu.Base.Scan.scan
caller_found = refl

s_dlsym-rtld_next_example : s_dlsym 8 linker 0x9010 rtld_next (some (codes "f")) ≡ (
    lookup_in 8 memory infos (0x2000 ∷ 0x3000 ∷ []) (elfhash (codes "f")) (codes "f") >>= λ r.
    ok (address_of linker r))
s_dlsym-rtld_next_example =
    s_dlsym-rtld_next 8 linker (codes "f") 0x9010 0x1000 (0x2000 ∷ 0x3000 ∷ []) caller_found listed
      (omega arith)

f_at : s_dlsym 8 linker 0 rtld_default (some (codes "f")) ≡ ok 0xa040
unfolding s_dlsym and_emu.Base.Scan.scan elf_lookup load32 elfhash and_emu.Symbol.is_match
    and_emu.Memory.str_eq sym_at and_emu.Memory.load16
f_at = refl

s_dlsym-Exports_example :
    (lib s : ℕ) × Exports 8 linker (codes "f") lib s
    × (0xa040 ≡ add32 (sym_at memory s).st_value (infos lib).load_bias)
s_dlsym-Exports_example =
    s_dlsym-Exports 8 linker (codes "f") 0 rtld_default 0xa040 f_at
      (λ (e : 0xa040 ≡ 0). omega arith)
