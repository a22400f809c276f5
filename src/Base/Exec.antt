-- ===== src/Base/Exec.antt =====
-- The outcome of running a piece of the C code: a value, a crash, or a loop that used up its fuel.
use mathlib.Core.Path.{◌≡◌, refl, ap}

-- `fault` is a null dereference, a division by zero or a call of `abort`; `spin` a loop that is
-- still running when the fuel is gone.
pub data Exec {ℓ} (A : Type ℓ) : Type ℓ where
  ok : A → Exec A
  fault : Exec A
  spin : Exec A

module _ {ℓ κ} {A : Type ℓ} {B : Type κ} where
  infixl 5 ◌>>=◌
  abbrev pub ◌>>=◌ : Exec A → (A → Exec B) → Exec B
  fault >>= next = fault
  spin >>= next = spin
  ok mid >>= next = next mid

  -- A bind that returns had both its parts return.
  pub >>=-eq-ok :
      (first : Exec A) (next : A → Exec B) {end : B}
      → (first >>= next) ≡ ok end
      → (mid : A) × (first ≡ ok mid) × (next mid ≡ ok end)
  >>=-eq-ok fault next run = cc
  >>=-eq-ok spin next run = cc
  >>=-eq-ok (ok mid) next run = (mid, refl, run)

module _ {ℓ} {A : Type ℓ} where
  value_or : A → Exec A → A
  value_or other fault = other
  value_or other spin = other
  value_or other (ok value) = value

  pub ok-injective : {value value' : A} → ok value ≡ ok value' → value ≡ value'
  unfolding value_or
  ok-injective {value} same = ap (value_or value) same
