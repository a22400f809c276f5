-- ===== src/Register/Alloc.antt =====
-- soinfo_alloc and the pools that fill the free list.
use and_emu.Base.{
  ℕ, zero, suc, ◌+◌, ◌≤◌, ◌<◌, ◌≡◌, refl, sym, ap, ◌∙◌, subst, ◌⊎◌, inl, inr, List, [], ◌∷◌, ◌++◌,
  arith, ◌∈◌,
}
use and_emu.Base.Scan.{Links}
use and_emu.Kernel.{Space}
use and_emu.Register.{soinfo_per_pool, sizeof_pool, info_at, set_next, chain_entries}
use and_emu.Register.Libraries.{
  next_of, IsRegister, Distinct-left, set_next_other, set_next-next, ∈-append_split,
}
use and_emu.Register.Links.{Distinct, Links-agree}
use and_emu.SoInfo.{SoInfo, Infos, Linker}

-- The entries 0, …, count - 1 of a pool, before `ys`.
abbrev pub entries : ℕ → ℕ → List ℕ → List ℕ
entries pool zero ys = ys
entries pool (suc i) ys = entries pool i (info_at pool i ∷ ys)

abbrev start : ℕ → ℕ → ℕ → ℕ
start pool zero next = next
start pool (suc i) next = info_at pool 0

-- Every node is at or behind an address.
abbrev Behind : ℕ → List ℕ → Type 0
Behind a ys = (y : ℕ) → y ∈ ys → a ≤ y

Behind-next :
    (pool i : ℕ) (ys : List ℕ)
    → Behind (info_at pool (suc i)) ys
    → Behind (info_at pool i) (info_at pool i ∷ ys)
Behind-next pool i ys behind y (inl here) = omega arith
Behind-next pool i ys behind y (inr m) = let far = behind y m in omega arith

not_among : (pool i : ℕ) (ys : List ℕ) → Behind (info_at pool (suc i)) ys → ¬ (info_at pool i ∈ ys)
not_among pool i ys behind m = let far = behind (info_at pool i) m in omega arith

chain_entries-Links :
    (pool count next : ℕ) (infos : Infos) (ys : List ℕ)
    → Behind (info_at pool count) ys
    → Links (λ q. (infos q).next) next ys
    → Links
        (λ q. (chain_entries pool count next infos q).next)
        (start pool count next)
        (entries pool count ys)
unfolding chain_entries
chain_entries-Links pool zero next infos ys behind l = l
chain_entries-Links pool (suc i) next infos ys behind l =
    let ih =
      chain_entries-Links pool i e (set_next infos e next) (e ∷ ys) (Behind-next pool i ys behind)
        (refl, (λ (z : e ≡ 0). omega arith), after) in
    subst
      (λ (q : ℕ).
        Links (λ x. (chain_entries pool i e (set_next infos e next) x).next) q
          (entries pool i (e ∷ ys)))
      (begins i) ih
  where
    e : ℕ
    e = info_at pool i

    begins : (j : ℕ) → start pool j (info_at pool j) ≡ info_at pool 0
    begins zero = refl
    begins (suc j) = refl

    after : Links (λ q. (set_next infos e next q).next) (set_next infos e next e).next ys
    after =
        subst (λ (q : ℕ). Links (λ x. (set_next infos e next x).next) q ys)
          (sym (set_next-next infos e next))
          (Links-agree (λ q. (infos q).next) (λ q. (set_next infos e next q).next) next ys
            (λ x m.
              ap (λ (s : SoInfo). s.next)
                (set_next_other infos e next x
                  (λ same. not_among pool i ys behind (subst (λ (q : ℕ). q ∈ ys) same m))))
            l)

-- Outside the pool no entry changes.
pub chain_entries_other :
    (pool count next : ℕ) (infos : Infos) (q : ℕ)
    → count ≤ soinfo_per_pool
    → (q < pool) ⊎ (pool + sizeof_pool ≤ q)
    → chain_entries pool count next infos q ≡ infos q
unfolding chain_entries
chain_entries_other pool zero next infos q few out = refl
chain_entries_other pool (suc i) next infos q few out =
    chain_entries_other pool i (info_at pool i) (set_next infos (info_at pool i) next) q
      (omega arith) out
    ∙ set_next_other infos (info_at pool i) next q (λ same. away same out)
  where
    away : q ≡ info_at pool i → ¬ ((q < pool) ⊎ (pool + sizeof_pool ≤ q))
    away same (inl low) = omega arith
    away same (inr high) = omega arith

entries-Distinct :
    (pool count : ℕ) (ys : List ℕ)
    → Behind (info_at pool count) ys
    → Distinct ys
    → Distinct (entries pool count ys)
entries-Distinct pool zero ys behind d = d
entries-Distinct pool (suc i) ys behind d =
    entries-Distinct pool i (info_at pool i ∷ ys) (Behind-next pool i ys behind)
      (not_among pool i ys behind, d)

pub entries-inside :
    (pool count : ℕ) (ys : List ℕ) (x : ℕ)
    → count ≤ soinfo_per_pool
    → x ∈ entries pool count ys
    → ((pool ≤ x) × (x < pool + sizeof_pool)) ⊎ (x ∈ ys)
entries-inside pool zero ys x few m = inr m
entries-inside pool (suc i) ys x few m =
    elim (entries-inside pool i (info_at pool i ∷ ys) x (omega arith) m) [
      | inl inside ↦ inl inside
      | inr (inl here) ↦ inl (omega arith, omega arith)
      | inr (inr later) ↦ inr later
    ]

-- The list of the pool's entries.
abbrev pub pool_entries : ℕ → List ℕ
pool_entries pool = entries pool soinfo_per_pool []

Distinct-append :
    (xs ys : List ℕ)
    → Distinct xs
    → Distinct ys
    → ((x : ℕ) → x ∈ xs → ¬ (x ∈ ys))
    → Distinct (xs ++ ys)
Distinct-append [] ys d e apart = e
Distinct-append (x ∷ xs) ys d e apart = (
  (λ m. elim (∈-append_split x xs ys m) [
    | inl before ↦ d.0 before
    | inr after ↦ apart x (inl refl) after
  ]),
  Distinct-append xs ys d.1 e (λ y m. apart y (inr m)),
)

-- The linker with a new pool.
abbrev pub with_pool : ℕ → Space → Linker → Linker
with_pool pool s l = record l {
  space = s;
  pools = pool ∷ l.pools;
  free_list = info_at pool 0;
  infos = chain_entries pool soinfo_per_pool 0 l.infos;
}

pub with_pool-IsRegister :
    (pool : ℕ) (s : Space) (l : Linker) (xs : List ℕ)
    → IsRegister l xs []
    → ((x : ℕ) → x ∈ (l.solist ∷ xs) → (x < pool) ⊎ (pool + sizeof_pool ≤ x))
    → IsRegister (with_pool pool s l) xs (pool_entries pool)
with_pool-IsRegister pool s l xs reg apart = (
  Links-agree (next_of l) (next_of (with_pool pool s l)) l.solist (l.solist ∷ xs)
      (λ x m.
        ap (λ (i : SoInfo). i.next)
          (chain_entries_other pool soinfo_per_pool 0 l.infos x (omega arith) (apart x m)))
      reg.0,
  reg.1,
  chain_entries-Links pool soinfo_per_pool 0 l.infos [] (λ y m. absurd m) refl,
  Distinct-append (l.solist ∷ xs) (pool_entries pool) (Distinct-left (l.solist ∷ xs) [] reg.3)
      (entries-Distinct pool soinfo_per_pool [] (λ y m. absurd m) tt)
      (λ x m n. clash x (apart x m) (entries-inside pool soinfo_per_pool [] x (omega arith) n)),
)
  where
    clash :
        (x : ℕ)
        → (x < pool) ⊎ (pool + sizeof_pool ≤ x)
        → ¬ (((pool ≤ x) × (x < pool + sizeof_pool)) ⊎ (x ∈ []))
    clash x (inl low) (inl inside) = omega (arith, inside.0, inside.1)
    clash x (inr high) (inl inside) = omega (arith, inside.0, inside.1)
    clash x out (inr m) = absurd m
