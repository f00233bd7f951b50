-- ===== src/Proxy/Scheduler/Share.antt =====
-- The share of the rounds that the weighted choice of engine/internal/proxy/scheduler.go gives to
-- each candidate, counted from the scheduler's start.
use hypomux_arch.Prelude.{
  ℕ, zero, suc, ◌+◌, ◌*◌, ◌≤◌, ◌<◌, ◌≡◌, refl, ap, Bool, true, false, List, [], ◌∷◌, arith,
  if◌then◌else◌, Memᴰ, length,
}
use hypomux_arch.Prelude.Int.{ℤ, pos, ◌+ℤ◌, ◌≤ℤ◌, ◌<ℤ◌, pos_part, int_laws, neg_part_nonneg}
use Prim.Native.Nat.add
use native.Mathlib.Nat.{suc-add}
use hypomux_arch.Prelude.Assoc.{beq, lookup}
use hypomux_arch.Golang.Strings.{Text, text_eq}
use hypomux_arch.Proxy.Adapter.{Adapter}
use hypomux_arch.Proxy.Scheduler.{weight_of, select_weighted}
use hypomux_arch.Proxy.Scheduler.Weights.{DistinctNames, sum_of, total_weight}
use hypomux_arch.Proxy.Scheduler.Sums.{sum_of-add, sum_of-zero, le-sum_of}
use hypomux_arch.Proxy.Scheduler.Fairness.{IsPositive, Balanced, round, Balanced-select_weighted}

-- The weights after `k` rounds with the candidates `first ∷ rest`.
abbrev weights_after : ℕ → List (Text × ℤ) → Adapter → List Adapter → List (Text × ℤ)
weights_after zero m first rest = m
weights_after (suc k) m first rest = weights_after k (select_weighted m first rest).1 first rest

-- How many of `k` rounds select the name.
abbrev pub wins : ℕ → List (Text × ℤ) → Adapter → List Adapter → Text → ℕ
wins zero m first rest name = 0
wins (suc k) m first rest name =
    let (selected, m') = select_weighted m first rest in
    (if beq selected.name name then 1 else 0) + wins k m' first rest name

scale : ℕ → ℤ → ℤ
scale zero z = pos 0
scale (suc n) z = z +ℤ scale n z

scale_paid :
    (b : Bool) (n : ℕ) (total : ℤ)
    → scale ((if b then 1 else 0) + n) total ≡ (if b then total else pos 0) +ℤ scale n total
unfolding scale
scale_paid true n total = rw (suc-add, add.zero)
scale_paid false n total = rw add.zero (omega int_laws)

scale_nonnegative : (n : ℕ) (z : ℤ) → pos 0 ≤ℤ z → scale n z ≡ pos (n * pos_part z)
unfolding scale
scale_nonnegative zero z h = ap pos (omega arith)
scale_nonnegative (suc n) z h = omega (int_laws, scale_nonnegative n z h, neg_part_nonneg z h)

sum_of_constant : (cands : List Adapter) (w : ℤ) → sum_of (λ a. w) cands ≡ scale (length cands) w
unfolding scale
sum_of_constant [] w = refl
sum_of_constant (a ∷ rest) w = ap (λ x. w +ℤ x) (sum_of_constant rest w)

module _ (first : Adapter) (rest : List Adapter) (d : DistinctNames (first ∷ rest))
    (positive : (a : Adapter) → Memᴰ a (first ∷ rest) → IsPositive a) where
  -- Every round is accounted for: what a candidate won and has left is what it was given.
  account :
      (k : ℕ) (m : List (Text × ℤ)) (a : Adapter)
      → Memᴰ a (first ∷ rest)
      → weight_of (weights_after k m first rest) a.name
          +ℤ scale (wins k m first rest a.name) (total_weight (first ∷ rest))
        ≡ weight_of m a.name +ℤ scale k a.weight
  unfolding scale
  account zero m a n = refl
  account (suc k) m a n =
      let (selected, m') = select_weighted m first rest in
      let total = total_weight (first ∷ rest) in
      let later = account k m' a n in
      let now = round first rest d positive m a n in
      let split = scale_paid (beq selected.name a.name) (wins k m' first rest a.name) total in
      omega (int_laws, later, now, split)

  Balanced-weights_after :
      (k : ℕ) (m : List (Text × ℤ))
      → Balanced (first ∷ rest) m
      → Balanced (first ∷ rest) (weights_after k m first rest)
  Balanced-weights_after zero m balanced = balanced
  Balanced-weights_after (suc k) m balanced =
      Balanced-weights_after k (select_weighted m first rest).1
        (Balanced-select_weighted first rest d positive m balanced)

  total_positive : pos 0 <ℤ total_weight (first ∷ rest)
  total_positive =
      let lower =
        le-sum_of (λ a. a.weight) (first ∷ rest) first (λ a n. omega (arith, positive a n))
          (Memᴰ.head refl) in
      omega (arith, lower, positive first (Memᴰ.head refl))

  Balanced-start : Balanced (first ∷ rest) []
  unfolding lookup
  Balanced-start = record {
    zero_sum = sum_of-zero (first ∷ rest);
    above = λ a n. omega (int_laws, total_positive);
  }

  -- Of `k` rounds from the start, with the same candidates of positive weights and different names,
  -- a candidate of weight `w` in a total of `W` wins less than one round more than `k * w / W`, and
  -- at most n - 1 rounds fewer, n being the number of candidates. Both bounds are stated times `W`.
  pub wins_share :
      (k : ℕ) (a : Adapter)
      → Memᴰ a (first ∷ rest)
      → let W = pos_part (total_weight (first ∷ rest)) in
        let won = wins k [] first rest a.name in
        (won * W < k * pos_part a.weight + W)
        × (k * pos_part a.weight + W ≤ won * W + length (first ∷ rest) * W)
  unfolding lookup
  wins_share k a n =
      let cands = first ∷ rest in
      let total = total_weight cands in
      let m = weights_after k [] first rest in
      let balanced = Balanced-weights_after k [] Balanced-start in
      let zero_sum = balanced.zero_sum in
      let books = account k [] a n in
      let won_total =
        scale_nonnegative (wins k [] first rest a.name) total (omega (arith, total_positive)) in
      let given = scale_nonnegative k a.weight (omega (arith, positive a n)) in
      let above = balanced.above a n in
      let f = λ (b : Adapter). weight_of m b.name +ℤ total in
      let top = le-sum_of f cands a (λ b o. omega (arith, balanced.above b o)) n in
      let apart = sum_of-add (λ b. weight_of m b.name) (λ b. total) cands in
      let constant = sum_of_constant cands total in
      let many = scale_nonnegative (length cands) total (omega (arith, total_positive)) in
      let plain = neg_part_nonneg total (omega (arith, total_positive)) in
      let plain_weight = neg_part_nonneg a.weight (omega (arith, positive a n)) in
      (
        omega (int_laws, books, won_total, given, above, plain, plain_weight),
        omega (
          int_laws, books, won_total, given, top, apart, zero_sum, constant, many, plain,
          plain_weight,
        ),
      )
