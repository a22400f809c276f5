-- ===== src/Symbol/Hash.antt =====
-- elfhash keeps to 28 bits, and its masks are the arithmetic of one shift, one sum and one fold.
use Prim.Native.Nat.{bit_and, bit_xor}
use and_emu.Base.{ℕ, ◌+◌, ◌*◌, ◌/◌, ◌%◌, ◌^◌, ◌<◌, ◌≡◌, ap, List, [], ◌∷◌, arith}
use and_emu.Base.Bits.{bit_and_scale, bit_xor_self, bit_xor_scale, bit_xor-lt, bit_and_low}
use and_emu.Symbol.{hash_step, hash_from, elfhash}

-- What one round computes: the top four bits of the shifted sum are folded into bits 4 to 7.
abbrev pub fold_step : ℕ → ℕ → ℕ
fold_step h c = let s = (h * 16 + c) % 2 ^ 32 in bit_xor (s % 2 ^ 28) (s / 2 ^ 28 * 16)

module _ (q r : ℕ) (nibble : q < 16) (rest : r < 2 ^ 28) where
  -- The mask picks the top four bits.
  top_bits : bit_and (q * 2 ^ 28 + r) 0xf000_0000 ≡ q * 2 ^ 28
  top_bits = omega (
    arith,
    bit_and_scale 28 q r 15 rest,
    ap (λ (t : ℕ). bit_and t 15) quotient,
    bit_and_low 4 0 q (omega arith),
  )
    where
      quotient : 0 * 2 ^ 4 + q ≡ q
      quotient = omega arith

  -- The first exclusive or clears them.
  cleared : bit_xor (q * 2 ^ 28 + r) (q * 2 ^ 28) ≡ r
  cleared = omega (arith, bit_xor_scale 28 q r q rest, bit_xor_self q)

  fold_fields :
      let g = bit_and (q * 2 ^ 28 + r) 0xf000_0000 in
      bit_xor (bit_xor (q * 2 ^ 28 + r) g) (g / 2 ^ 24) ≡ bit_xor r (q * 16)
  fold_fields = let e : q * 2 ^ 28 / 2 ^ 24 ≡ q * 16 = omega arith in rw (top_bits, cleared, e)

pub hash_step-fold_step : (h c : ℕ) → hash_step h c ≡ fold_step h c
unfolding hash_step
hash_step-fold_step h c =
    let s : ℕ = (h * 16 + c) % 2 ^ 32 in
    let e : (h * 16 % 2 ^ 32 + c) % 2 ^ 32 ≡ s / 2 ^ 28 * 2 ^ 28 + s % 2 ^ 28 = omega arith in
    rw e (fold_fields (s / 2 ^ 28) (s % 2 ^ 28) (omega arith) (omega arith))

hash_from-lt : (h : ℕ) (name : List ℕ) → h < 2 ^ 28 → hash_from h name < 2 ^ 28
unfolding hash_from
hash_from-lt h [] small = small
hash_from-lt h (c ∷ cs) small =
    hash_from-lt (hash_step h c) cs
      (rw (hash_step-fold_step h c) (bit_xor-lt 28 _ _ (omega arith) (omega arith)))

-- Every hash has its top four bits clear.
pub elfhash-lt : (name : List ℕ) → elfhash name < 2 ^ 28
unfolding elfhash
elfhash-lt name = hash_from-lt 0 name (omega arith)
