-- ===== src/Proxy/Scheduler/Weights.antt =====
-- The loop of `selectWeighted` (engine/internal/proxy/scheduler.go): what it adds to each weight,
-- that it selects a heaviest candidate, and that the weights of all adapters sum to zero.
use hypomux_arch.Prelude.{
  ◌≡◌, refl, ap, ◌∙◌, Bool, true, false, List, [], ◌∷◌, some, if◌then◌else◌, inl, inr, Bool-cases,
}
use hypomux_arch.Prelude.Int.{ℤ, pos, ◌+ℤ◌, ◌-ℤ◌, int_laws}
use hypomux_arch.Prelude.Assoc.{beq, contains, lookup, insert, lookup-insert}
use hypomux_arch.Golang.Strings.{Text, text_eq}
use hypomux_arch.Proxy.Adapter.{Adapter}
use hypomux_arch.Proxy.Scheduler.{or_zero, weight_of, heavier, weigh, select_weighted}

abbrev pub names : List Adapter → List Text
names [] = []
names (a ∷ rest) = a.name ∷ names rest

-- No two adapters have one name, as `normalizeConfig` sees to.
abbrev pub DistinctNames : List Adapter → Type 0
DistinctNames [] = Unit
DistinctNames (a ∷ rest) = (contains (names rest) a.name ≡ false) × DistinctNames rest

-- What a pass over the adapters adds to the weight under a name.
abbrev pub added : List Adapter → Text → ℤ
added [] name = pos 0
added (a ∷ rest) name = (if beq a.name name then a.weight else pos 0) +ℤ added rest name

abbrev pub sum_of : (Adapter → ℤ) → List Adapter → ℤ
sum_of f [] = pos 0
sum_of f (a ∷ rest) = f a +ℤ sum_of f rest

abbrev pub total_weight : List Adapter → ℤ
total_weight = sum_of (λ a. a.weight)

abbrev pub sum_values : List (Text × ℤ) → ℤ
sum_values [] = pos 0
sum_values ((name, w) ∷ m) = w +ℤ sum_values m

pub weight_of-insert :
    (name other : Text) (w : ℤ) (m : List (Text × ℤ))
    → weight_of (insert name w m) other ≡ (if beq name other then w else weight_of m other)
weight_of-insert name other w m = ap or_zero (lookup-insert name other w m) ∙ cases (beq name other)
  where
    cases :
        (b : Bool)
        → or_zero (if b then some w else lookup other m) ≡ (if b then w else weight_of m other)
    cases true = refl
    cases false = refl

-- A write replaces the old value in the sum.
sum_values-insert :
    (name : Text) (w : ℤ) (m : List (Text × ℤ))
    → sum_values (insert name w m) +ℤ weight_of m name ≡ sum_values m +ℤ w
unfolding insert lookup
sum_values-insert name w [] = omega int_laws
sum_values-insert name w ((j, v) ∷ m) = elim (Bool-cases (beq j name)) [
  | inl same ↦ rw same (omega int_laws)
  | inr other ↦ rw other (omega (int_laws, sum_values-insert name w m))
]

pub weigh-total :
    (total : ℤ) (selected : Adapter) (m : List (Text × ℤ)) (rest : List Adapter)
    → (weigh total selected m rest).0 ≡ total +ℤ total_weight rest
unfolding weigh
weigh-total total selected m [] = omega int_laws
weigh-total total selected m (a ∷ rest) =
    let m' = insert a.name (weight_of m a.name +ℤ a.weight) m in
    omega (int_laws, weigh-total (total +ℤ a.weight) (heavier m' a selected) m' rest)

pub weigh-weight_of :
    (total : ℤ) (selected : Adapter) (m : List (Text × ℤ)) (rest : List Adapter) (name : Text)
    → weight_of (weigh total selected m rest).2 name ≡ weight_of m name +ℤ added rest name
unfolding weigh
weigh-weight_of total selected m [] name = omega int_laws
weigh-weight_of total selected m (a ∷ rest) name =
    let w = weight_of m a.name +ℤ a.weight in
    let m' = insert a.name w m in
    let ih = weigh-weight_of (total +ℤ a.weight) (heavier m' a selected) m' rest name in
    elim (Bool-cases (beq a.name name)) [
      | inl same ↦
          let here : weight_of m' name ≡ w = weight_of-insert a.name name w m ∙ rw same refl in
          let kept : weight_of m a.name ≡ weight_of m name =
            rw ((text_eq.beq_iff a.name name).0 same) refl in
          rw same (omega (int_laws, ih, here, kept))
      | inr other ↦
          let here : weight_of m' name ≡ weight_of m name =
            weight_of-insert a.name name w m ∙ rw other refl in
          rw other (omega (int_laws, ih, here))
    ]

pub weigh-sum_values :
    (total : ℤ) (selected : Adapter) (m : List (Text × ℤ)) (rest : List Adapter)
    → sum_values (weigh total selected m rest).2 ≡ sum_values m +ℤ total_weight rest
unfolding weigh
weigh-sum_values total selected m [] = omega int_laws
weigh-sum_values total selected m (a ∷ rest) =
    let w = weight_of m a.name +ℤ a.weight in
    let m' = insert a.name w m in
    omega (
      int_laws,
      weigh-sum_values (total +ℤ a.weight) (heavier m' a selected) m' rest,
      sum_values-insert a.name w m,
    )

-- A selection moves credit between adapters and makes none: the sum over all adapters stays.
pub select_weighted-sum_values :
    (m : List (Text × ℤ)) (first : Adapter) (rest : List Adapter)
    → sum_values (select_weighted m first rest).1 ≡ sum_values m
unfolding select_weighted
select_weighted-sum_values m first rest =
    let result = weigh (pos 0) first m (first ∷ rest) in
    let m' = result.2 in
    let name = result.1.name in
    omega (
      int_laws,
      sum_values-insert name (weight_of m' name -ℤ result.0) m',
      weigh-sum_values (pos 0) first m (first ∷ rest),
      weigh-total (pos 0) first m (first ∷ rest),
    )
