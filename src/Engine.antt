-- ===== src/Engine.antt =====
-- s_strlcpy of emulator/engine.cpp, with a source string as its bytes before the NUL.
pub mod Truncation
use and_emu.Base.{ℕ, zero, suc, ◌+◌, ◌-◌, List, [], ◌∷◌, ◌++◌, ◌==◌, if◌then◌else◌, length}

-- The loop, with `n` as it is after the test's decrement: the bytes written, `n` at the end, and what
-- is left of the source.
unfoldable pub copy_loop : ℕ → List ℕ → List ℕ × ℕ × List ℕ
copy_loop zero src = ([], 0, src)
copy_loop (suc n) [] = (0 ∷ [], suc n, [])
copy_loop (suc n) (c ∷ cs) = let (written, left, rest) = copy_loop n cs in (c ∷ written, left, rest)

-- The bytes written to `dst`, and the result `s - src - 1`.
unfoldable pub s_strlcpy : List ℕ → ℕ → List ℕ × ℕ
unfolding copy_loop
s_strlcpy src siz =
    if siz == 0
    then ([], length src)
    else let (written, left, rest) = copy_loop (siz - 1) src in
      if left == 0
      then (written ++ 0 ∷ [], length written + length rest)
      else (written, length written - 1)
