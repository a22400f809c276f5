-- ===== src/Register.antt =====
-- The register of loaded libraries of emulator/linker.cpp: the pools of soinfo objects with the free
-- list, soinfo_alloc and soinfo_free, and the search by name.
pub mod Links
pub mod Libraries
pub mod Free
pub mod Alloc
pub mod Load
pub mod Find
pub mod Placed
use Prim.Native.Nat.{bit_or}
use and_emu.Base.{
  ℕ, zero, suc, ◌+◌, ◌*◌, Bool, true, false, ◌&&◌, Option, none, some, List, [], ◌∷◌, leb, ◌==◌,
  ◌!=◌, if◌then◌else◌, length,
}
use and_emu.Base.Exec.{Exec, ok, fault, spin, ◌>>=◌}
use and_emu.Base.Scan.{scan, node_of}
use and_emu.Kernel.{
  Space, done, failed, Mapping, Kernel, prot_read, prot_write, map_private, map_anonymous,
}
use and_emu.SoInfo.{soinfo_name_len, zero_soinfo, Infos, update, Linker}

-- `sizeof(soinfo)`, and the number that fit behind a pool's `next` pointer.
abbrev pub sizeof_soinfo : ℕ
sizeof_soinfo = 292

abbrev pub soinfo_per_pool : ℕ
soinfo_per_pool = 14

abbrev pub sizeof_pool : ℕ
sizeof_pool = 4 + sizeof_soinfo * soinfo_per_pool

-- The request for a new pool.
abbrev pub pool_mapping : Mapping
pool_mapping = record {
  start = 0;
  size = sizeof_pool;
  prot = bit_or prot_read prot_write;
  flags = bit_or map_private map_anonymous;
  fd = 0;
  offset = 0;
}

-- `&pool->info[i]`.
abbrev pub info_at : ℕ → ℕ → ℕ
info_at pool i = pool + 4 + sizeof_soinfo * i

unfoldable pub set_next : Infos → ℕ → ℕ → Infos
unfolding update
set_next infos p next = update infos p (record (infos p) { next = next })

-- The loop that chains the entries of a new pool, from the last to the first: `count` are left.
unfoldable pub chain_entries : ℕ → ℕ → ℕ → Infos → Infos
unfolding set_next
chain_entries pool zero next infos = infos
chain_entries pool (suc i) next infos =
    chain_entries pool i (info_at pool i) (set_next infos (info_at pool i) next)

-- The head of the free list becomes the last library.
unfoldable pub take_entry : List ℕ → Linker → ℕ × Linker
unfolding update set_next
take_entry name l =
    let si = l.free_list in
    let fresh = update l.infos si (record zero_soinfo { name = name }) in
    (
      si,
      record l { free_list = (l.infos si).next; infos = set_next fresh l.sonext si; sonext = si },
    )

module _ (k : Kernel) where
  unfoldable pub ensure_free_list_non_empty : Linker → Bool × Linker
  unfolding chain_entries
  ensure_free_list_non_empty l =
      if l.free_list != 0 then (true, l) else elim (k.mmap pool_mapping l.space) [
        | failed s ↦ (false, record l { space = s })
        | done pool s ↦ (
          true,
          record l {
            space = s;
            pools = pool ∷ l.pools;
            free_list = info_at pool 0;
            infos = chain_entries pool soinfo_per_pool 0 l.infos;
          },
        )
      ]

  -- `set_soinfo_pool_protection` over a list of pools; a refusal aborts.
  unfoldable pub set_pool_protection : ℕ → List ℕ → Space → Exec Space
  set_pool_protection prot [] s = ok s
  set_pool_protection prot (p ∷ ps) s = elim (k.mprotect p sizeof_pool prot s) [
    | failed s' ↦ fault
    | done u s' ↦ set_pool_protection prot ps s'
  ]

  -- `soinfo_alloc`: the new library, or 0.
  unfoldable pub soinfo_alloc : List ℕ → Linker → ℕ × Linker
  unfolding ensure_free_list_non_empty take_entry
  soinfo_alloc name l =
      if leb soinfo_name_len (length name)
      then (0, l)
      else let (ready, l') = ensure_free_list_non_empty l in
        if ready then take_entry name l' else (0, l')

-- The loop of soinfo_free: `prev` when it has met `si`.
unfoldable pub find_prev : ℕ → (ℕ → ℕ) → ℕ → ℕ → ℕ → Exec (Option ℕ)
find_prev zero next si prev trav = spin
find_prev (suc fuel) next si prev trav =
    let rest = find_prev fuel next si trav (next trav) in
    if trav == 0 then ok none else if trav == si then ok (some prev) else rest

-- Takes `si` out from behind `prev`; a null `prev` crashes.
unfoldable pub unlink : ℕ → ℕ → Linker → Exec Linker
unfolding set_next
unlink si prev l =
    if prev == 0
    then fault
    else let without = set_next l.infos prev (l.infos si).next in
      ok (record l {
        infos = set_next without si l.free_list;
        sonext = if si == l.sonext then prev else l.sonext;
        free_list = si;
      })

unfoldable pub soinfo_free : ℕ → ℕ → Linker → Exec Linker
unfolding find_prev unlink
soinfo_free fuel si l =
    if si == 0
    then ok l
    else (find_prev fuel (λ q. (l.infos q).next) si 0 l.solist >>= λ r. elim r [
      | none ↦ ok l
      | some prev ↦ unlink si prev l
    ])

-- `strrchr(name, '/')` + 1.
unfoldable pub after_slash : List ℕ → Option (List ℕ)
after_slash [] = none
after_slash (c ∷ cs) = elim (after_slash cs) [
  | some rest ↦ some rest
  | none ↦ if c == b'/' then some cs else none
]

-- What follows the last '/', or the whole name.
unfoldable pub basename : List ℕ → List ℕ
unfolding after_slash
basename name = elim (after_slash name) [ none ↦ name | some rest ↦ rest ]

-- `strcmp` of two strings.
unfoldable pub same_name : List ℕ → List ℕ → Bool
same_name [] [] = true
same_name [] (d ∷ ds) = false
same_name (c ∷ cs) [] = false
same_name (c ∷ cs) (d ∷ ds) = c == d && same_name cs ds

-- Whether a library has the name.
abbrev pub named : Infos → List ℕ → ℕ → Option (Unit {0})
named infos bname p = if same_name bname (infos p).name then some tt else none

unfoldable pub find_loaded_library : ℕ → Linker → List ℕ → Exec (Option ℕ)
unfolding scan basename same_name
find_loaded_library fuel l name =
    scan fuel (λ q. (l.infos q).next) (λ q. ok (named l.infos (basename name) q)) l.solist >>= λ r.
    ok (node_of r)
