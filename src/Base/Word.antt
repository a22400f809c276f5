-- ===== src/Base/Word.antt =====
-- 32-bit words: the wrapping arithmetic of `Elf32_Addr` and `size_t`, and the page macros of
-- emulator/linker.h.
use Prim.Native.Nat.{bit_and}
use and_emu.Base.{ℕ, ◌+◌, ◌-◌, ◌*◌, ◌/◌, ◌%◌, ◌^◌, ◌≤◌, ◌<◌, ◌≡◌, ap, arith}
use and_emu.Base.Bits.{bit_and_scale, bit_and_low}

abbrev pub word : ℕ → ℕ
word x = x % 2 ^ 32

abbrev pub add32 : ℕ → ℕ → ℕ
add32 a b = (a + b) % 2 ^ 32

-- `-` on ℕ stops at 0, so the modulus is added first.
abbrev pub sub32 : ℕ → ℕ → ℕ
sub32 a b = (a + 2 ^ 32 - b) % 2 ^ 32

-- The word that is -1, as a file descriptor, as `MAP_FAILED` and as a function pointer.
abbrev pub minus_one : ℕ
minus_one = 0xffff_ffff

abbrev pub page_size : ℕ
page_size = 4096

-- `x & ~(PAGE_SIZE - 1)` of a 32-bit x.
unfoldable pub page_start : ℕ → ℕ
page_start x = x / page_size * page_size

-- `x & (PAGE_SIZE - 1)`.
unfoldable pub page_offset : ℕ → ℕ
page_offset x = x % page_size

-- `PAGE_START(x + (PAGE_SIZE - 1))`, whose sum wraps.
unfoldable pub page_end : ℕ → ℕ
unfolding page_start
page_end x = page_start (add32 x (page_size - 1))

pub page_start_bounds : (x : ℕ) → (page_start x ≤ x) × (x < page_start x + page_size)
unfolding page_start
page_start_bounds x = omega arith

pub page_start_mono : (x y : ℕ) → x ≤ y → page_start x ≤ page_start y
unfolding page_start
page_start_mono x y h = omega arith

-- Up to the last page, `PAGE_END` rounds up.
pub page_end_bounds :
    (x : ℕ) → x + page_size ≤ 2 ^ 32 → (x ≤ page_end x) × (page_end x < x + page_size)
unfolding page_end
page_end_bounds x h = omega arith

pub page_end_mono : (x y : ℕ) → x ≤ y → y + page_size ≤ 2 ^ 32 → page_end x ≤ page_end y
unfolding page_end
page_end_mono x y h k = omega arith

-- `PAGE_MASK` is `~(PAGE_SIZE - 1)`: on words the arithmetic above is the mask of the macros.
pub bit_and-page_start :
    (x : ℕ)
    → x < 2 ^ 32
    → (bit_and x 0xffff_f000 ≡ page_start x) × (bit_and x 0xfff ≡ page_offset x)
unfolding page_start page_offset
bit_and-page_start x h = omega (
  arith,
  ap (λ (t : ℕ). bit_and t 0xffff_f000) split,
  ap (λ (t : ℕ). bit_and t 0xfff) split,
  ap (λ (t : ℕ). bit_and t 0xf_ffff) quotient,
  bit_and_scale 12 (x / 4096) (x % 4096) 0xf_ffff (omega arith),
  bit_and_low 20 0 (x / 4096) (omega arith),
  bit_and_low 12 (x / 4096) (x % 4096) (omega arith),
)
  where
    split : x / 4096 * 2 ^ 12 + x % 4096 ≡ x
    split = omega arith

    quotient : 0 * 2 ^ 20 + x / 4096 ≡ x / 4096
    quotient = omega arith
