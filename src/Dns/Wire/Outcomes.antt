-- ===== src/Dns/Wire/Outcomes.antt =====
-- Outcomes of the parser of engine/internal/dns/wire.go that are no panic, and how they compose.
use hypomux_arch.Prelude.{ℕ, ◌≤◌, ◌<◌, ◌≡◌, refl, Bool, true, false, arith, ltb, leb, if◌then◌else◌}
use hypomux_arch.Dns.Wire.{WireError, Outcome, ok, fail, panic, or_fail, ◌>>=◌}

-- The outcome is no panic, and a result has the property.
abbrev pub Safely {ℓ} : {A : Type ℓ} → (A → Type 0) → Outcome A → Type 0
Safely P (ok a) = P a
Safely P (fail e) = Unit
Safely P panic = ⊥

pub Safely-bind {ℓ κ} :
    {A : Type ℓ} {B : Type κ} (P : A → Type 0) (Q : B → Type 0) (m : Outcome A) (f : A → Outcome B)
    → Safely P m
    → ((a : A) → P a → Safely Q (f a))
    → Safely Q (m >>= f)
Safely-bind P Q (ok a) f h k = k a h
Safely-bind P Q (fail e) f h k = tt
Safely-bind P Q panic f h k = absurd h

pub Safely-if {ℓ} :
    {A : Type ℓ} (P : A → Type 0) (b : Bool) (x y : Outcome A)
    → (b ≡ true → Safely P x)
    → (b ≡ false → Safely P y)
    → Safely P (if b then x else y)
Safely-if P true x y h k = h refl
Safely-if P false x y h k = k refl

pub Safely-or_fail {ℓ} :
    {A : Type ℓ} (P : A → Type 0) (e : WireError) (m : Outcome A)
    → Safely P m
    → Safely P (or_fail e m)
Safely-or_fail P e (ok a) h = h
Safely-or_fail P e (fail _) h = tt
Safely-or_fail P e panic h = h

abbrev pub Any {ℓ} : {A : Type ℓ} → A → Type 0
Any a = Unit

pub ltb→ge : (a b : ℕ) → ltb a b ≡ false → b ≤ a
ltb→ge a b h = ground arith

pub leb→gt : (a b : ℕ) → leb a b ≡ false → b < a
leb→gt a b h = ground arith
