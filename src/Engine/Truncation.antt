-- ===== src/Engine/Truncation.antt =====
-- What s_strlcpy writes and returns.
use and_emu.Base.{
  ℕ, zero, suc, ◌+◌, ◌-◌, ◌≡◌, refl, ap, ◌≢◌, ◌⊎◌, inl, inr, true, false, List, [], ◌∷◌, ◌++◌,
  arith, ◌==◌, if◌then◌else◌, length, take,
}
use and_emu.Engine.{copy_loop, s_strlcpy}

-- The loop stopped at the end of the buffer, or has copied the whole string with its NUL.
abbrev Stopped : ℕ → List ℕ → List ℕ × ℕ × List ℕ → Type 0
Stopped n src (written, left, rest) =
    ((left ≡ 0) × (written ≡ take n src) × (length written + length rest ≡ length src))
    ⊎ ((left ≢ 0) × (written ≡ take n src ++ 0 ∷ []) × (length written ≡ suc (length src)))

copy_loop-Stopped : (n : ℕ) (src : List ℕ) → Stopped n src (copy_loop n src)
unfolding copy_loop
copy_loop-Stopped zero src = inl (refl, refl, omega arith)
copy_loop-Stopped (suc n) [] = inr ((λ (z : suc n ≡ 0). omega arith), refl, refl)
copy_loop-Stopped (suc n) (c ∷ cs) = elim (copy_loop-Stopped n cs) [
  | inl (none_, same, size) ↦ inl (none_, ap (λ (ws : List ℕ). c ∷ ws) same, omega (arith, size))
  | inr (some_, same, size) ↦ inr (some_, ap (λ (ws : List ℕ). c ∷ ws) same, omega (arith, size))
]

-- Into a buffer of `siz` bytes, not 0, s_strlcpy writes the first `siz` - 1 bytes of the source, or all
-- of them if they are fewer, and a NUL, and it returns the length of the source.
pub s_strlcpy-take :
    (src : List ℕ) (siz : ℕ)
    → siz ≢ 0
    → ((s_strlcpy src siz).0 ≡ take (siz - 1) src ++ 0 ∷ []) × ((s_strlcpy src siz).1 ≡ length src)
unfolding s_strlcpy
s_strlcpy-take src siz room = finish (copy_loop (siz - 1) src) (copy_loop-Stopped (siz - 1) src)
  where
    some_room : (siz == 0) ≡ false
    some_room = ground arith

    -- The result, by what the loop leaves.
    out : List ℕ × ℕ × List ℕ → List ℕ × ℕ
    out r =
        if siz == 0
        then ([], length src)
        else if r.1 == 0
        then (r.0 ++ 0 ∷ [], length r.0 + length r.2)
        else (r.0, length r.0 - 1)

    finish :
        (r : List ℕ × ℕ × List ℕ)
        → Stopped (siz - 1) src r
        → ((out r).0 ≡ take (siz - 1) src ++ 0 ∷ []) × ((out r).1 ≡ length src)
    finish r (inl (none_, same, size)) =
        let test : (r.1 == 0) ≡ true = ground arith in
        rw (some_room, test) (ap (λ (ws : List ℕ). ws ++ 0 ∷ []) same, size)
    finish r (inr (some_, same, size)) =
        let test : (r.1 == 0) ≡ false = ground arith in
        let len : length r.0 - 1 ≡ length src = omega (arith, size) in
        rw (some_room, test) (same, len)
