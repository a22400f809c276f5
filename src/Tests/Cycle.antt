-- ===== src/Tests/Cycle.antt =====
-- Two libraries that need each other.
use and_emu.Base.{
  ℕ, ◌<◌, ◌≡◌, refl, sym, subst, inl, inr, true, false, List, [], ◌∷◌, arith, ◌==◌, if◌then◌else◌,
  ◌∈◌,
}
use and_emu.Base.Exec.{ok}
use and_emu.Base.Scan.{Links}
use and_emu.Base.Text.{codes}
use and_emu.Elf.{dyn_at}
use and_emu.Lifetime.{call_constructors}
use and_emu.Lifetime.Alike.{NeedsLoaded, IsSatisfied, Alike}
use and_emu.Lifetime.Fresh.{fresh_count}
use and_emu.Lifetime.Returns.{call_constructors-returns}
use and_emu.Memory.{Memory, load32, c_string}
use and_emu.Register.{after_slash, basename}
use and_emu.SoInfo.{zero_soinfo, Infos, Linker}
use and_emu.Tests.Sample.{bare, linker, kernel}

-- Each dynamic section has one entry, DT_NEEDED, and its end; the names stand in the strings.
abbrev cycle_memory : Memory
cycle_memory a =
    if a == 0x6000
    then 1
    else if a == 0x6004
    then 0x10
    else if a == 0x6100
    then 1
    else if a == 0x6104
    then 0x20
    else if a == 0x5210
    then b'b'
    else if a == 0x5220
    then b'a'
    else 0

abbrev cycle_infos : Infos
cycle_infos p =
    if p == 0x1000
    then record bare { name = codes "libdl.so"; next = 0x2000 }
    else if p == 0x2000
    then record bare { name = b'a' ∷ []; next = 0x3000; dynamic = 0x6000 }
    else if p == 0x3000
    then record bare { name = b'b' ∷ []; dynamic = 0x6100 }
    else zero_soinfo

abbrev cycle : Linker
cycle = record linker { space = record { memory = cycle_memory; kernel = 0 }; infos = cycle_infos }

abbrev members : List ℕ
members = 0x1000 ∷ 0x2000 ∷ 0x3000 ∷ []

cycle_links : Links (λ q. (cycle.infos q).next) cycle.solist members
cycle_links = (
  refl,
  (λ (e : 0x1000 ≡ 0). omega arith),
  (refl, (λ (e : 0x2000 ≡ 0). omega arith), (refl, (λ (e : 0x3000 ≡ 0). omega arith), refl)),
)

a_needs_b : NeedsLoaded 8 cycle members 0x5200 8 0x6000
unfolding dyn_at load32 c_string basename after_slash
a_needs_b = inr (
  (λ (e : 1 ≡ 0). omega arith),
  (λ needed. (b'b' ∷ [], refl, (0x3000, inr (inr (inl refl)), refl))),
  inl refl,
)

b_needs_a : NeedsLoaded 8 cycle members 0x5200 8 0x6100
unfolding dyn_at load32 c_string basename after_slash
b_needs_a = inr (
  (λ (e : 1 ≡ 0). omega arith),
  (λ needed. (b'a' ∷ [], refl, (0x2000, inr (inl refl), refl))),
  inl refl,
)

satisfied : (q : ℕ) → q ∈ members → IsSatisfied 8 cycle members q
satisfied q (inl here) = subst (IsSatisfied 8 cycle members) (sym here) (λ live. absurd (live refl))
satisfied q (inr (inl here)) = subst (IsSatisfied 8 cycle members) (sym here) (λ live. a_needs_b)
satisfied q (inr (inr (inl here))) =
    subst (IsSatisfied 8 cycle members) (sym here) (λ live. b_needs_a)
satisfied q (inr (inr (inr nowhere))) = absurd nowhere

few_fresh : fresh_count cycle.infos members < 4
unfolding fresh_count
few_fresh = omega arith

call_constructors-returns_example :
    (l' : Linker) × (call_constructors kernel false 8 4 0x2000 cycle ≡ ok l')
    × ((l'.infos 0x2000).constructors_called ≡ true)
    × Alike cycle l'
call_constructors-returns_example =
    call_constructors-returns kernel (λ a n p s. (s, refl)) (λ a n p s. refl) 8 cycle members
      cycle_links (omega arith) 4 0x2000 satisfied (inr (inl refl)) few_fresh
