-- ===== src/Prelude/Assoc.antt =====
-- Equality as an interface, and Go's maps as association lists: a write replaces the entry with
-- the key, or appends one. The order of a map's entries stands for the order in which Go ranges
-- over it.
use Prim.Native.Nat.{ℕ}
use mathlib.Core.Path.{◌≡◌, refl}
use mathlib.Core.Logic.{◌↔◌, ◌≢◌, inl, inr}
use mathlib.Core.Bool.{Bool, true, false, ◌&&◌}
use mathlib.Core.Option.{Option, none, some}
use mathlib.Core.List.{List, [], ◌∷◌}
use native.Mathlib.Omega.{arith}
use hypomux_arch.Prelude.Lists.{keep}
use hypomux_arch.Prelude.Tests.{if◌then◌else◌, ◌==◌ as nat_eqb, ==_iff, Bool-cases}

pub record Eq {ℓ} (A : Type ℓ) : Type ℓ where
  pub beq : A → A → Bool
  pub beq_iff : (a b : A) → (beq a b ≡ true) ↔ (a ≡ b)

abbrev pub beq {ℓ} : {A : Type ℓ} ⦃e : Eq A⦄ → A → A → Bool
beq ⦃e⦄ = e.beq

instance abbrev pub nat_eq : Eq ℕ
nat_eq = record { beq = nat_eqb; beq_iff = ==_iff }

module _ {ℓ} {A : Type ℓ} ⦃e : Eq A⦄ where
  pub beq_refl : (a : A) → beq a a ≡ true
  beq_refl a = (e.beq_iff a a).1 refl

  pub beq_ne : (a b : A) → a ≢ b → beq a b ≡ false
  beq_ne a b h = elim (Bool-cases (beq a b)) [
    | inl same ↦ absurd (h ((e.beq_iff a b).0 same))
    | inr other ↦ other
  ]

  abbrev pub contains : List A → A → Bool
  contains [] a = false
  contains (x ∷ xs) a = if beq x a then true else contains xs a

  pub contains_split :
      (x a : A) (xs : List A)
      → contains (x ∷ xs) a ≡ false
      → (beq x a ≡ false) × (contains xs a ≡ false)
  contains_split x a xs h = ground arith

  pub beq_comm : (a b : A) → beq a b ≡ false → beq b a ≡ false
  beq_comm a b h = ground (arith, e.beq_iff a b, e.beq_iff b a)

  abbrev pub beq_list : List A → List A → Bool
  beq_list [] [] = true
  beq_list (x ∷ xs) (y ∷ ys) = beq x y && beq_list xs ys
  beq_list _ _ = false

  pub beq_list_iff : (xs ys : List A) → (beq_list xs ys ≡ true) ↔ (xs ≡ ys)
  beq_list_iff [] [] = (λ _. refl, λ _. refl)
  beq_list_iff [] (y ∷ ys) = (λ h. cc, λ h. cc)
  beq_list_iff (x ∷ xs) [] = (λ h. cc, λ h. cc)
  beq_list_iff (x ∷ xs) (y ∷ ys) = ground (arith, e.beq_iff x y, beq_list_iff xs ys)

  instance abbrev pub list_eq : Eq (List A)
  list_eq = record { beq = beq_list; beq_iff = beq_list_iff }

module _ {ℓ κ} {K : Type ℓ} ⦃e : Eq K⦄ {V : Type κ} where
  unfoldable pub lookup : K → List (K × V) → Option V
  lookup k [] = none
  lookup k ((j, v) ∷ m) = if beq j k then some v else lookup k m

  unfoldable pub insert : K → V → List (K × V) → List (K × V)
  insert k v [] = (k, v) ∷ []
  insert k v ((j, w) ∷ m) = if beq j k then (k, v) ∷ m else (j, w) ∷ insert k v m

  unfoldable pub delete : K → List (K × V) → List (K × V)
  delete k [] = []
  delete k ((j, w) ∷ m) = if beq j k then delete k m else (j, w) ∷ delete k m

  pub lookup-insert :
      (k j : K) (v : V) (m : List (K × V))
      → lookup j (insert k v m) ≡ (if beq k j then some v else lookup j m)
  unfolding lookup insert
  lookup-insert k j v [] = refl
  lookup-insert k j v ((i, w) ∷ m) =
      ground (arith, e.beq_iff k j, e.beq_iff i k, e.beq_iff i j, lookup-insert k j v m)

  pub lookup-delete :
      (k j : K) (m : List (K × V)) → lookup j (delete k m) ≡ (if beq k j then none else lookup j m)
  unfolding lookup delete
  lookup-delete k j [] = ground arith
  lookup-delete k j ((i, w) ∷ m) =
      ground (arith, e.beq_iff k j, e.beq_iff i k, e.beq_iff i j, lookup-delete k j m)

  -- No key stands twice, as in a Go map.
  abbrev pub Distinct : List (K × V) → Type (ℓ ⊔ κ)
  Distinct [] = Unit
  Distinct ((j, w) ∷ m) = (lookup j m ≡ none) × Distinct m

  pub Distinct-insert : (k : K) (v : V) (m : List (K × V)) → Distinct m → Distinct (insert k v m)
  unfolding insert lookup
  Distinct-insert k v [] d = (refl, tt)
  Distinct-insert k v ((j, w) ∷ m) d = elim (Bool-cases (beq j k)) [
    | inl same ↦ rw same (ground (arith, e.beq_iff j k), d.1)
    | inr other ↦ rw other (
      rw (lookup-insert k j v m) (ground (arith, e.beq_iff j k, e.beq_iff k j)),
      Distinct-insert k v m d.1,
    )
  ]

  abbrev pub keep_found : (K × V → Bool) → K → Option V → Option V
  keep_found p k none = none
  keep_found p k (some v) = if p (k, v) then some v else none

  pub lookup-keep :
      (p : K × V → Bool) (k : K) (m : List (K × V))
      → Distinct m
      → lookup k (keep p m) ≡ keep_found p k (lookup k m)
  unfolding lookup
  lookup-keep p k [] d = refl
  lookup-keep p k ((j, w) ∷ m) d = elim (Bool-cases (beq j k)) [
    | inl same ↦
        let j≡k = (e.beq_iff j k).0 same in
        let absent : lookup k m ≡ none = rw (← j≡k) d.0 in ground (arith, lookup-keep p k m d.1)
    | inr other ↦ ground (arith, lookup-keep p k m d.1)
  ]

  pub Distinct-keep : (p : K × V → Bool) (m : List (K × V)) → Distinct m → Distinct (keep p m)
  Distinct-keep p [] d = tt
  Distinct-keep p ((j, w) ∷ m) d = elim (Bool-cases (p (j, w))) [
    | inl kept ↦ rw kept (rw (lookup-keep p j m d.1, d.0) refl, Distinct-keep p m d.1)
    | inr dropped ↦ rw dropped (Distinct-keep p m d.1)
  ]

  pub Distinct-delete : (k : K) (m : List (K × V)) → Distinct m → Distinct (delete k m)
  unfolding delete
  Distinct-delete k [] d = tt
  Distinct-delete k ((j, w) ∷ m) d = elim (Bool-cases (beq j k)) [
    | inl same ↦ rw same (Distinct-delete k m d.1)
    | inr other ↦ rw other (rw (lookup-delete k j m) (ground arith), Distinct-delete k m d.1)
  ]
