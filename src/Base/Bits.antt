-- ===== src/Base/Bits.antt =====
-- Equations for the native bit operations at variables.
use Prim.Native.Nat.{
  bit_and, bit_xor, min, digits, bitwise, differ, bit_and-bitwise, bit_xor-bitwise,
}
use and_emu.Base.{ℕ, zero, suc, ◌+◌, ◌-◌, ◌*◌, ◌/◌, ◌%◌, ◌^◌, ◌≤◌, ◌<◌, ◌≡◌, refl, ap, arith}
use native.Mathlib.Nat.{pow-suc, one-le-pow}

module _ (left_over : ℕ → ℕ) (digit : ℕ → ℕ → ℕ) where
  -- Any fuel from the first number on gives the same digits.
  digits_enough :
      (x y fuel more : ℕ)
      → x ≤ fuel
      → x ≤ more
      → digits left_over digit fuel x y ≡ digits left_over digit more x y
  digits_enough zero y zero zero lo hi = refl
  digits_enough zero y zero (suc more) lo hi = refl
  digits_enough zero y (suc fuel) zero lo hi = refl
  digits_enough zero y (suc fuel) (suc more) lo hi = refl
  digits_enough (suc x) y zero more lo hi = absurd (omega arith)
  digits_enough (suc x) y (suc fuel) zero lo hi = absurd (omega arith)
  digits_enough (suc x) y (suc fuel) (suc more) lo hi =
      let halves = digits_enough (suc x / 2) (y / 2) fuel more (omega arith) (omega arith) in
      rw halves

  lowest_digit :
      (x y : ℕ)
      → bitwise left_over digit (suc x) y
        ≡ digit (suc x % 2) (y % 2) + 2 * bitwise left_over digit (suc x / 2) (y / 2)
  lowest_digit x y =
      let halves = digits_enough (suc x / 2) (y / 2) x (suc x / 2) (omega arith) (omega arith) in
      omega (arith, halves)

pub bit_and_step : (x y : ℕ) → bit_and x y ≡ min (x % 2) (y % 2) + 2 * bit_and (x / 2) (y / 2)
bit_and_step zero y = simp bit_and-bitwise (omega arith)
bit_and_step (suc x) y = simp bit_and-bitwise (lowest_digit (λ _. 0) min x y)

pub bit_xor_step : (x y : ℕ) → bit_xor x y ≡ differ (x % 2) (y % 2) + 2 * bit_xor (x / 2) (y / 2)
bit_xor_step zero y = simp bit_xor-bitwise (ground arith)
bit_xor_step (suc x) y = simp bit_xor-bitwise (lowest_digit (λ y. y) differ x y)

mul-two-pow : (q k : ℕ) → q * 2 ^ suc k ≡ 2 * (q * 2 ^ k)
mul-two-pow q k = omega (arith, ap (λ (t : ℕ). q * t) (pow-suc 2 k))

-- An empty mask leaves nothing.
nothing_masked : (fuel x : ℕ) → x ≤ fuel → 0 ≡ bit_and x 0
nothing_masked fuel zero few = refl
nothing_masked zero (suc x) few = absurd (omega arith)
nothing_masked (suc fuel) (suc x) few =
    let halves : 0 ≡ bit_and (suc x / 2) 0 = nothing_masked fuel (suc x / 2) (omega arith) in
    omega (arith, halves, bit_and_step (suc x) 0)

-- A mask whose low `k` bits are clear drops those bits and masks the others.
pub bit_and_scale :
    (k q r m : ℕ) → r < 2 ^ k → bit_and (q * 2 ^ k + r) (m * 2 ^ k) ≡ bit_and q m * 2 ^ k
bit_and_scale zero q r m fits =
    let e : q * 2 ^ 0 + r ≡ q = omega arith in
    let e' : m * 2 ^ 0 ≡ m = omega arith in rw (e, e') (omega arith)
bit_and_scale (suc k) q r m fits = ground (
  arith,
  bit_and_step (q * 2 ^ suc k + r) (m * 2 ^ suc k),
  mul-two-pow q k,
  mul-two-pow m k,
  mul-two-pow (bit_and q m) k,
  pow-suc 2 k,
  bit_and_scale k q (r / 2) m (omega (arith, pow-suc 2 k)),
)

differ-zero : (x : ℕ) → differ x 0 ≡ x
differ-zero zero = refl
differ-zero (suc x) = refl

differ_self : (x : ℕ) → differ x x ≡ 0
differ_self zero = refl
differ_self (suc x) = differ_self x

bit_xor-self_fuel : (n a : ℕ) → a ≤ n → bit_xor a a ≡ 0
bit_xor-self_fuel n zero h = refl
bit_xor-self_fuel zero (suc a) h = absurd (omega arith)
bit_xor-self_fuel (suc n) (suc a) h = omega (
  arith,
  bit_xor_step (suc a) (suc a),
  differ_self (suc a % 2),
  bit_xor-self_fuel n (suc a / 2) (omega arith),
)

pub bit_xor_self : (a : ℕ) → bit_xor a a ≡ 0
bit_xor_self a = bit_xor-self_fuel a a (omega arith)

differ-lt : (x y : ℕ) → x < 2 → y < 2 → differ x y < 2
differ-lt zero y p q = q
differ-lt (suc x) zero p q = p
differ-lt (suc zero) (suc zero) p q = omega arith
differ-lt (suc zero) (suc (suc y)) p q = absurd (omega arith)
differ-lt (suc (suc x)) (suc y) p q = absurd (omega arith)

-- A word with clear low `k` bits changes only the others.
pub bit_xor_scale :
    (k q r m : ℕ) → r < 2 ^ k → bit_xor (q * 2 ^ k + r) (m * 2 ^ k) ≡ bit_xor q m * 2 ^ k + r
bit_xor_scale zero q r m fits =
    let e : q * 2 ^ 0 + r ≡ q = omega arith in
    let e' : m * 2 ^ 0 ≡ m = omega arith in rw (e, e') (omega arith)
bit_xor_scale (suc k) q r m fits = ground (
  arith,
  bit_xor_step (q * 2 ^ suc k + r) (m * 2 ^ suc k),
  differ-zero ((q * 2 ^ suc k + r) % 2),
  mul-two-pow q k,
  mul-two-pow m k,
  mul-two-pow (bit_xor q m) k,
  pow-suc 2 k,
  bit_xor_scale k q (r / 2) m (omega (arith, pow-suc 2 k)),
)

pub bit_xor-lt : (k a b : ℕ) → a < 2 ^ k → b < 2 ^ k → bit_xor a b < 2 ^ k
bit_xor-lt zero a b p q =
    let e : a ≡ 0 = omega arith in let e' : b ≡ 0 = omega arith in rw (e, e') (omega arith)
bit_xor-lt (suc k) a b p q = ground (
  arith,
  bit_xor_step a b,
  differ-lt (a % 2) (b % 2),
  pow-suc 2 k,
  bit_xor-lt k (a / 2) (b / 2) (omega (arith, pow-suc 2 k)) (omega (arith, pow-suc 2 k)),
)

-- A mask of `k` ones keeps the low `k` bits.
pub bit_and_low : (k q r : ℕ) → r < 2 ^ k → bit_and (q * 2 ^ k + r) (2 ^ k - 1) ≡ r
bit_and_low zero q r fits =
    let e : r ≡ 0 = omega arith in
    rw e (omega (arith, nothing_masked (q * 2 ^ 0 + 0) (q * 2 ^ 0 + 0)))
bit_and_low (suc k) q r fits = ground (
  arith,
  bit_and_step (q * 2 ^ suc k + r) (2 ^ suc k - 1),
  mul-two-pow q k,
  pow-suc 2 k,
  one-le-pow k 2,
  bit_and_low k q (r / 2) (omega (arith, pow-suc 2 k)),
)
