-- ===== src/Prelude/Members.antt =====
-- Membership in lists, with the elements that a Boolean test keeps.
use Prim.Native.Nat.{ℕ, zero, suc, ◌<◌}
use mathlib.Core.Path.{◌≡◌, refl, sym, subst}
use mathlib.Core.Bool.{Bool, true, false}
use mathlib.Core.Logic.{inl, inr}
use mathlib.Core.List.{List, [], ◌∷◌, Memᴰ}
use mathlib.Core.Option.{some}
use native.Mathlib.Omega.{arith}
use hypomux_arch.Prelude.Lists.{All, keep, length, get_elem?}
use hypomux_arch.Prelude.Tests.{Bool-cases}

module _ {ℓ κ} {A : Type ℓ} (P : A → Type κ) where
  pub All_mem : (xs : List A) (x : A) → All P xs → Memᴰ x xs → P x
  All_mem [] x h m = elim m [ ]
  All_mem (y ∷ xs) x h (Memᴰ.head e) = subst P (sym e) h.0
  All_mem (y ∷ xs) x h (Memᴰ.tail m) = All_mem xs x h.1 m

module _ {ℓ} {A : Type ℓ} (p : A → Bool) where
  pub keep-true : (xs : List A) (x : A) → Memᴰ x (keep p xs) → p x ≡ true
  keep-true [] x m = elim m [ ]
  keep-true (y ∷ xs) x m = elim (Bool-cases (p y)) [
    | inl kept ↦ go kept (keep-true xs x) (rw kept at m)
    | inr dropped ↦ keep-true xs x (rw dropped at m)
  ]
    where
      go : p y ≡ true → (Memᴰ x (keep p xs) → p x ≡ true) → Memᴰ x (y ∷ keep p xs) → p x ≡ true
      go kept later (Memᴰ.head e) = subst (λ z. p z ≡ true) (sym e) kept
      go kept later (Memᴰ.tail t) = later t

  pub mem-keep : (xs : List A) (x : A) → Memᴰ x xs → p x ≡ true → Memᴰ x (keep p xs)
  mem-keep [] x m h = elim m [ ]
  mem-keep (y ∷ xs) x (Memᴰ.head e) h = rw (subst (λ z. p z ≡ true) e h) (Memᴰ.head e)
  mem-keep (y ∷ xs) x (Memᴰ.tail m) h = elim (Bool-cases (p y)) [
    | inl kept ↦ rw kept (Memᴰ.tail (mem-keep xs x m h))
    | inr dropped ↦ rw dropped (mem-keep xs x m h)
  ]

  -- What the test keeps was there before.
  pub mem_of_mem-keep : (xs : List A) (x : A) → Memᴰ x (keep p xs) → Memᴰ x xs
  mem_of_mem-keep [] x m = elim m [ ]
  mem_of_mem-keep (y ∷ xs) x m = elim (Bool-cases (p y)) [
    | inl kept ↦ go (mem_of_mem-keep xs x) (rw kept at m)
    | inr dropped ↦ Memᴰ.tail (mem_of_mem-keep xs x (rw dropped at m))
  ]
    where
      go : (Memᴰ x (keep p xs) → Memᴰ x xs) → Memᴰ x (y ∷ keep p xs) → Memᴰ x (y ∷ xs)
      go later (Memᴰ.head e) = Memᴰ.head e
      go later (Memᴰ.tail t) = Memᴰ.tail (later t)

  -- If nothing is kept, every element fails the test.
  pub keep_none : (xs : List A) (x : A) → keep p xs ≡ [] → Memᴰ x xs → p x ≡ false
  keep_none xs x none_kept m = elim (Bool-cases (p x)) [
    | inl passes ↦ absurd (elim (subst (Memᴰ x) none_kept (mem-keep xs x m passes)) [ ])
    | inr fails ↦ fails
  ]

module _ {ℓ} {A : Type ℓ} where
  pub mem_of_get_elem? : (xs : List A) (i : ℕ) {x : A} → get_elem? xs i ≡ some x → Memᴰ x xs
  mem_of_get_elem? [] i e = cc
  mem_of_get_elem? (y ∷ xs) zero {x} e = Memᴰ.head (cc)
  mem_of_get_elem? (y ∷ xs) (suc i) e = Memᴰ.tail (mem_of_get_elem? xs i e)

  pub get_elem?-eq-some :
      (xs : List A) (i : ℕ) → i < length xs → (x : A) × (get_elem? xs i ≡ some x)
  get_elem?-eq-some [] i h = elim h [ ]
  get_elem?-eq-some (y ∷ xs) zero h = (y, refl)
  get_elem?-eq-some (y ∷ xs) (suc i) h = get_elem?-eq-some xs i (omega arith)
