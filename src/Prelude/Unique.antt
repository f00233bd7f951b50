-- ===== src/Prelude/Unique.antt =====
-- Lists in which nothing stands twice.
use mathlib.Core.Path.{◌≡◌, refl}
use mathlib.Core.Bool.{true, false, ◌||◌}
use mathlib.Core.List.{List, map, [], ◌∷◌, ◌++◌, Memᴰ}
use native.Mathlib.Omega.{arith}
use hypomux_arch.Prelude.Lists.{All}
use hypomux_arch.Prelude.Assoc.{Eq, contains, contains_split, beq_comm}

module _ {ℓ} {A : Type ℓ} ⦃e : Eq A⦄ where
  abbrev pub NoRepeat : List A → Type 0
  NoRepeat [] = Unit
  NoRepeat (x ∷ xs) = (contains xs x ≡ false) × NoRepeat xs

  pub contains-append :
      (xs ys : List A) (a : A) → contains (xs ++ ys) a ≡ (contains xs a || contains ys a)
  contains-append [] ys a = refl
  contains-append (x ∷ xs) ys a = ground (arith, contains-append xs ys a)

  pub NoRepeat_snoc :
      (xs : List A) (a : A) → NoRepeat xs → contains xs a ≡ false → NoRepeat (xs ++ (a ∷ []))
  NoRepeat_snoc [] a d h = (refl, tt)
  NoRepeat_snoc (x ∷ xs) a d h =
      let (other, rest) = contains_split x a xs h in
      (
        ground (arith, contains-append xs (a ∷ []) x, e.beq_iff a x, e.beq_iff x a, d.0),
        NoRepeat_snoc xs a d.1 rest,
      )

  pub contains_of_mem : (xs : List A) (a : A) → Memᴰ a xs → contains xs a ≡ true
  contains_of_mem [] a n = elim n [ ]
  contains_of_mem (x ∷ xs) a (Memᴰ.head same) = ground (arith, e.beq_iff x a, same)
  contains_of_mem (x ∷ xs) a (Memᴰ.tail n) = ground (arith, contains_of_mem xs a n)

-- No element of a list has a value that was seen.
module _ {ℓ κ} {A : Type ℓ} {B : Type κ} ⦃e : Eq B⦄ (field : A → B) where
  abbrev pub Unseen : List B → List A → Type 0
  Unseen seen xs = All (λ a. contains seen (field a) ≡ false) xs

  pub Unseen-tail : (x : B) (seen : List B) (xs : List A) → Unseen (x ∷ seen) xs → Unseen seen xs
  Unseen-tail x seen [] u = tt
  Unseen-tail x seen (a ∷ rest) u =
      ((contains_split x (field a) seen u.0).1, Unseen-tail x seen rest u.1)

  pub Unseen-head :
      (x : B) (seen : List B) (xs : List A)
      → Unseen (x ∷ seen) xs
      → contains (map field xs) x ≡ false
  Unseen-head x seen [] u = refl
  Unseen-head x seen (a ∷ rest) u =
      let other = beq_comm x (field a) (contains_split x (field a) seen u.0).0 in
      rw other (Unseen-head x seen rest u.1)
