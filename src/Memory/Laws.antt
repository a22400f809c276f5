-- ===== src/Memory/Laws.antt =====
-- Loads after stores, and what a store leaves alone.
use and_emu.Base.{ℕ, ◌^◌, ◌≤◌, ◌<◌, ◌≡◌, arith}
use and_emu.Base.Word.{word, sub32}
use and_emu.Memory.{Memory, load8, load32, store32}

pub load8-lt : (m : Memory) (a : ℕ) → load8 m a < 256
unfolding load8
load8-lt m a = omega arith

pub load32-lt : (m : Memory) (a : ℕ) → load32 m a < 2 ^ 32
unfolding load32
load32-lt m a = omega arith

pub load32-store32 : (m : Memory) (a v : ℕ) → v < 2 ^ 32 → load32 (store32 m a v) a ≡ v
unfolding load32 store32
load32-store32 m a v h = ground arith

-- A store touches four bytes.
pub store32_other : (m : Memory) (a v p : ℕ) → p < 2 ^ 32 → 4 ≤ sub32 p a → store32 m a v p ≡ m p
unfolding store32
store32_other m a v p small h = ground arith

-- Two words at addresses that lie four bytes apart or more, both ways round.
abbrev pub Apart : ℕ → ℕ → Type 0
Apart a b = (4 ≤ sub32 a (word b)) × (4 ≤ sub32 b (word a))

pub load32-store32-Apart :
    (m : Memory) (a v b : ℕ) → Apart a b → load32 (store32 m a v) b ≡ load32 m b
unfolding load32 store32
load32-store32-Apart m a v b h = ground arith
