-- ===== src/Base/Results.antt =====
-- `Result<A, E>`, with `?` as the bind of `do` blocks.
use mathlib.Core.Path.{◌≡◌, refl}
use mathlib.Core.Bool.{Bool, true, false}

pub data Result {ℓ κ} (E : Type κ) (A : Type ℓ) : Type (ℓ ⊔ κ) where
  ok : A → Result E A
  err : E → Result E A

module _ {ℓ κ} {E : Type κ} {A : Type ℓ} where
  abbrev pub is_ok : Result E A → Bool
  is_ok (ok a) = true
  is_ok (err e) = false

module _ {ℓ} {E : Type ℓ} where
  -- `if !test { return Err(e) }`, and otherwise the next check.
  abbrev pub ensure : Bool → E → Result E (Unit {0})
  ensure true e = ok tt
  ensure false e = err e

  infixl 5 ◌>>◌
  abbrev pub ◌>>◌ : Result E (Unit {0}) → Result E (Unit {0}) → Result E (Unit {0})
  ok _ >> k = k
  err e >> k = err e

  pub >>-ok :
      (m k : Result E (Unit {0})) → is_ok (m >> k) ≡ true → (is_ok m ≡ true) × (is_ok k ≡ true)
  >>-ok (ok _) k h = (refl, h)
  >>-ok (err e) k h = cc
