-- ===== src/Symbol.antt =====
-- Symbol lookup: elfhash, soinfo_elf_lookup, soinfo_do_lookup, dlsym_handle_lookup,
-- dlsym_linear_lookup, find_containing_library, dl_unwind_find_exidx and dladdr_find_symbol of
-- emulator/linker.cpp. A symbol is the address of its Elf32_Sym.
pub mod Hash
pub mod Table
pub mod Scope
pub mod Address
use Prim.Native.Nat.{bit_and, bit_xor}
use and_emu.Base.{
  ℕ, zero, suc, ◌+◌, ◌*◌, ◌/◌, ◌%◌, ◌^◌, Bool, ◌&&◌, ◌||◌, Option, none, some, List, [], ◌∷◌, ltb,
  leb, ◌==◌, ◌!=◌, if◌then◌else◌,
}
use and_emu.Base.Exec.{Exec, ok, fault, ◌>>=◌}
use and_emu.Base.Scan.{scan, node_of, value_of}
use and_emu.Base.Word.{word, add32, sub32}
use and_emu.Elf.{stb_global, stb_weak, shn_undef, sizeof_sym, sym_at, st_bind}
use and_emu.Memory.{Memory, load32, str_eq}
use and_emu.SoInfo.{SoInfo, Infos, Linker}

-- One round of the loop of elfhash, on a 32-bit `unsigned`.
unfoldable pub hash_step : ℕ → ℕ → ℕ
hash_step h c =
    let h₁ = add32 (word (h * 16)) c in
    let g = bit_and h₁ 0xf000_0000 in bit_xor (bit_xor h₁ g) (g / 2 ^ 24)

hash_from : ℕ → List ℕ → ℕ
hash_from h [] = h
hash_from h (c ∷ cs) = hash_from (hash_step h c) cs

unfoldable pub elfhash : List ℕ → ℕ
unfolding hash_from hash_step
elfhash name = hash_from 0 name

-- `symtab + n`.
abbrev pub symbol : SoInfo → ℕ → ℕ
symbol si n = word (si.symtab + sizeof_sym * n)

-- `chain[n]`.
abbrev pub next_in_chain : Memory → SoInfo → ℕ → ℕ
next_in_chain m si n = load32 m (si.chain + 4 * n)

-- The name is equal, the binding global or weak, and the symbol defined.
unfoldable pub is_match : Memory → SoInfo → List ℕ → ℕ → Bool
is_match m si name n =
    let s = sym_at m (symbol si n) in
    str_eq m (si.strtab + s.st_name) name
    && (st_bind s == stb_global || st_bind s == stb_weak)
    && s.st_shndx != shn_undef

-- `hash % 0` is a crash.
unfoldable pub elf_lookup : ℕ → Memory → SoInfo → ℕ → List ℕ → Exec (Option ℕ)
elf_lookup fuel m si hash name =
    if si.nbucket == 0
    then fault
    else (scan fuel (next_in_chain m si)
          (λ n. ok (if is_match m si name n then some (symbol si n) else none))
          (load32 m (si.bucket + 4 * (hash % si.nbucket)))
        >>= λ r. ok (value_of r))

-- The loops over `gLdPreloads` and over `needed`: the first library that has the symbol.
unfoldable pub lookup_in : ℕ → Memory → Infos → List ℕ → ℕ → List ℕ → Exec (Option (ℕ × ℕ))
lookup_in fuel m infos [] hash name = ok none
lookup_in fuel m infos (si ∷ rest) hash name =
    let later = lookup_in fuel m infos rest hash name in
    elf_lookup fuel m (infos si) hash name >>= λ r. elim r [
      | none ↦ later
      | some s ↦ ok (some (si, s))
    ]

-- The lookups in the scopes before the preloads, which want `si` and `somain` not to be null.
local_scope : ℕ → Memory → Infos → ℕ → ℕ → ℕ → List ℕ → Exec (Option (ℕ × ℕ))
local_scope fuel m infos somain si hash name =
    if si == 0 || somain == 0
    then ok none
    else if si == somain
    then lookup_in fuel m infos (si ∷ []) hash name
    else if (infos si).has_dt_symbolic
    then lookup_in fuel m infos (si ∷ somain ∷ []) hash name
    else lookup_in fuel m infos (somain ∷ si ∷ []) hash name

abbrev or_else_do {ℓ} : {A : Type ℓ} → Option A → Exec (Option A) → Exec (Option A)
or_else_do (some a) next = ok (some a)
or_else_do none next = next

-- The trace between the loops reads `si->base`, so a null `si` crashes where no preload defines the
-- name; the trace after a hit passes on only the address of `si->name`.
unfoldable pub do_lookup : ℕ → Linker → ℕ → List ℕ → List ℕ → Exec (Option (ℕ × ℕ))
unfolding local_scope
do_lookup fuel l si name needed = do
  let m = l.space.memory
  let hash = elfhash name
  found ← local_scope fuel m l.infos l.somain si hash name
  let in_needed = lookup_in fuel m l.infos needed hash name
  or_else_do found (do
    preloaded ← lookup_in fuel m l.infos l.preloads hash name
    or_else_do preloaded (if si == 0 then fault else in_needed))

unfoldable pub dlsym_handle_lookup : ℕ → Linker → ℕ → List ℕ → Exec (Option ℕ)
dlsym_handle_lookup fuel l si name =
    if si == 0 then fault else elf_lookup fuel l.space.memory (l.infos si) (elfhash name) name

-- The library found and the symbol; a null start means the whole list.
unfoldable pub dlsym_linear_lookup : ℕ → Linker → List ℕ → ℕ → Exec (Option (ℕ × ℕ))
dlsym_linear_lookup fuel l name start =
    scan fuel (λ p. (l.infos p).next)
      (λ p. elf_lookup fuel l.space.memory (l.infos p) (elfhash name) name)
      (if start == 0 then l.solist else start)

-- The test of find_containing_library, on words.
abbrev pub contains : SoInfo → ℕ → Bool
contains si address = leb si.base address && ltb (sub32 address si.base) si.size

unfoldable pub find_containing_library : ℕ → Linker → ℕ → Exec (Option ℕ)
find_containing_library fuel l address =
    scan fuel (λ p. (l.infos p).next)
      (λ p. ok (if contains (l.infos p) address then some tt else none)) l.solist
    >>= λ r. ok (node_of r)

-- The test of dl_unwind_find_exidx, whose end address wraps.
abbrev pub contains_pc : SoInfo → ℕ → Bool
contains_pc si address = leb si.base address && ltb address (add32 si.base si.size)

-- The table of a library and its count; null and 0 where there is no library.
abbrev pub exidx_of : Linker → Option ℕ → ℕ × ℕ
exidx_of l none = (0, 0)
exidx_of l (some p) = ((l.infos p).arm_exidx, (l.infos p).arm_exidx_count)

unfoldable pub find_exidx : ℕ → Linker → ℕ → Exec (ℕ × ℕ)
find_exidx fuel l pc =
    scan fuel (λ p. (l.infos p).next)
      (λ p. ok (if contains_pc (l.infos p) pc then some tt else none)) l.solist
    >>= λ r. ok (exidx_of l (node_of r))

-- A defined symbol whose extent holds the offset; the end of the extent wraps.
unfoldable pub covers : Memory → SoInfo → ℕ → ℕ → Bool
covers m si soaddr i =
    let s = sym_at m (symbol si i) in
    (s.st_shndx != shn_undef) && leb s.st_value soaddr && ltb soaddr (add32 s.st_value s.st_size)

-- The loop of dladdr_find_symbol with `count` symbols left from index `i`.
unfoldable pub symbol_from : Memory → SoInfo → ℕ → ℕ → ℕ → Option ℕ
symbol_from m si soaddr i zero = none
symbol_from m si soaddr i (suc count) =
    if covers m si soaddr i then some (symbol si i) else symbol_from m si soaddr (i + 1) count

unfoldable pub dladdr_find_symbol : Memory → SoInfo → ℕ → Option ℕ
unfolding symbol_from
dladdr_find_symbol m si addr = symbol_from m si (sub32 addr si.base) 0 si.nchain
