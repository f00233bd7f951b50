-- ===== src/Golang/Results.antt =====
-- Functions that return a value and an error: the value, or the error alone.
use hypomux_arch.Prelude.{◌≡◌, refl, Bool, true, false}

pub data Result {ℓ κ} (E : Type ℓ) (A : Type κ) : Type (ℓ ⊔ κ) where
  err : E → Result E A
  ok : A → Result E A

module _ {ℓ κ μ} {E : Type ℓ} {A : Type κ} {B : Type μ} where
  -- The code behind `if err != nil { return err }`.
  abbrev pub and_then : Result E A → (A → Result E B) → Result E B
  and_then (err e) f = err e
  and_then (ok a) f = f a

  pub and_then-eq-ok :
      (r : Result E A) (f : A → Result E B) {b : B}
      → and_then r f ≡ ok b
      → (a : A) × (r ≡ ok a) × (f a ≡ ok b)
  and_then-eq-ok (err e) f h = absurd (err-ne-ok h)
    where
      err-ne-ok : {b : B} → err e ≡ ok b → ⊥
      err-ne-ok h = cc
  and_then-eq-ok (ok a) f h = (a, refl, h)

module _ {ℓ κ} {E : Type ℓ} {A : Type κ} where
  -- The code behind `if !b { return e }`.
  abbrev pub ensure : Bool → E → Result E A → Result E A
  ensure true e r = r
  ensure false e r = err e

  pub ensure-eq-ok :
      (b : Bool) (e : E) (r : Result E A) {a : A} → ensure b e r ≡ ok a → (b ≡ true) × (r ≡ ok a)
  ensure-eq-ok true e r h = (refl, h)
  ensure-eq-ok false e r h = absurd (err-ne-ok h)
    where
      err-ne-ok : {a : A} → ◌≡◌ {A = Result E A} (err e) (ok a) → ⊥
      err-ne-ok h = cc

  pub ok-injective : {a b : A} → ◌≡◌ {A = Result E A} (ok a) (ok b) → a ≡ b
  ok-injective h = cc
