-- ===== src/Memory.antt =====
-- The address space of the 32-bit process: bytes at 32-bit addresses, and the loads, stores and
-- libc calls (memset, memcpy, strcmp, strlen) through which the linker's code reads and writes it.
-- Reading an unmapped address is not told apart from reading a byte.
pub mod Laws
use and_emu.Base.{
  ℕ, zero, suc, ◌+◌, ◌*◌, ◌/◌, ◌%◌, Bool, ◌&&◌, List, [], ◌∷◌, ltb, ◌==◌, if◌then◌else◌,
}
use and_emu.Base.Exec.{Exec, ok, spin, ◌>>=◌}
use and_emu.Base.Word.{word, add32, sub32}

abbrev pub Memory : Type 0
Memory = ℕ → ℕ

unfoldable pub load8 : Memory → ℕ → ℕ
load8 m a = m (word a) % 256

unfoldable pub load16 : Memory → ℕ → ℕ
unfolding load8
load16 m a = load8 m a + 256 * load8 m (a + 1)

-- Little-endian, as `e_ident[EI_DATA]` demands.
unfoldable pub load32 : Memory → ℕ → ℕ
unfolding load8
load32 m a =
    load8 m a + 256 * load8 m (a + 1) + 65536 * load8 m (a + 2) + 16777216 * load8 m (a + 3)

unfoldable pub store32 : Memory → ℕ → ℕ → Memory
store32 m a v p =
    if p == word a
    then v % 256
    else if p == word (a + 1)
    then v / 256 % 256
    else if p == word (a + 2)
    then v / 65536 % 256
    else if p == word (a + 3)
    then v / 16777216 % 256
    else m p

-- `memset(a, v, n)`.
unfoldable pub memset : Memory → ℕ → ℕ → ℕ → Memory
memset m a v n p = if ltb (sub32 p a) n then v % 256 else m p

-- `memcpy(dst, src, n)`.
unfoldable pub memcpy : Memory → ℕ → ℕ → ℕ → Memory
memcpy m dst src n p = if ltb (sub32 p dst) n then m (add32 src (sub32 p dst)) else m p

-- `strcmp(a, name) == 0`, for a name that holds no NUL byte.
unfoldable pub str_eq : Memory → ℕ → List ℕ → Bool
unfolding load8
str_eq m a [] = load8 m a == 0
str_eq m a (c ∷ cs) = (load8 m a == c) && str_eq m (a + 1) cs

-- The C string at an address. A loop over it reads on until the NUL byte.
unfoldable pub c_string : ℕ → Memory → ℕ → Exec (List ℕ)
unfolding load8
c_string zero m a = spin
c_string (suc fuel) m a =
    let rest = c_string fuel m (a + 1) in
    if load8 m a == 0 then ok [] else (rest >>= λ cs. ok (load8 m a ∷ cs))
