-- ===== src/Proxy/Scheduler/Fairness.antt =====
-- The weighted choice of engine/internal/proxy/scheduler.go over many rounds with the same
-- candidates: each gets its share of the rounds, up to a bounded error.
use hypomux_arch.Prelude.{
  ◌≡◌, refl, ap, ◌∙◌, true, List, ◌∷◌, arith, if◌then◌else◌, Memᴰ, inl, inr, Bool-cases,
}
use hypomux_arch.Prelude.Int.{ℤ, pos, ◌+ℤ◌, ◌-ℤ◌, ◌<ℤ◌, ltb_ℤ, ltb_ℤ→lt, ltb_ℤ→ge, int_laws}
use hypomux_arch.Prelude.Assoc.{beq}
use hypomux_arch.Golang.Strings.{Text, text_eq}
use hypomux_arch.Proxy.Adapter.{Adapter}
use hypomux_arch.Proxy.Scheduler.{weight_of, weigh, select_weighted}
use hypomux_arch.Proxy.Scheduler.Weights.{DistinctNames, sum_of, total_weight, weigh-weight_of}
use hypomux_arch.Proxy.Scheduler.Heaviest.{added_mem, weigh-le, mem-select_weighted}
use hypomux_arch.Proxy.Scheduler.Sums.{
  paid, weight_of-select_weighted, sum_of_congr, sum_of-add, sum_of-sub, sum_of_nonpositive,
  le-sum_of, sum_of-paid,
}

abbrev pub IsPositive : Adapter → Type 0
IsPositive a = pos 0 <ℤ a.weight

-- Between rounds the candidates' weights sum to zero, and none is a whole total below it.
pub record Balanced (cands : List Adapter) (m : List (Text × ℤ)) : Type 0 where
  pub zero_sum : sum_of (λ a. weight_of m a.name) cands ≡ pos 0
  pub above : (a : Adapter) → Memᴰ a cands → pos 0 <ℤ weight_of m a.name +ℤ total_weight cands

module _ (first : Adapter) (rest : List Adapter) (d : DistinctNames (first ∷ rest))
    (positive : (a : Adapter) → Memᴰ a (first ∷ rest) → IsPositive a) where
  -- After the loop has added every weight, the one selected is positive.
  selected_positive :
      (m : List (Text × ℤ))
      → sum_of (λ a. weight_of m a.name) (first ∷ rest) ≡ pos 0
      → let (_, selected, m') = weigh (pos 0) first m (first ∷ rest) in
        pos 0 <ℤ weight_of m' selected.name
  selected_positive m zero_sum =
      let (_, selected, m') = weigh (pos 0) first m (first ∷ rest) in
      let cands = first ∷ rest in
      let grown : (a : Adapter)
          → Memᴰ a cands
          → weight_of m' a.name ≡ weight_of m a.name +ℤ a.weight =
        λ a n.
          weigh-weight_of (pos 0) first m cands a.name
          ∙ ap (λ w. weight_of m a.name +ℤ w) (added_mem cands a d n) in
      let sums =
        sum_of_congr (λ a. weight_of m' a.name) (λ a. weight_of m a.name +ℤ a.weight) cands grown in
      let total = sum_of-add (λ a. weight_of m a.name) (λ a. a.weight) cands in
      let total_positive =
        le-sum_of (λ a. a.weight) cands first (λ a n. omega (arith, positive a n))
          (Memᴰ.head refl) in
      let first_positive = positive first (Memᴰ.head refl) in
      elim (Bool-cases (ltb_ℤ (pos 0) (weight_of m' selected.name))) [
        | inl above ↦ ltb_ℤ→lt (pos 0) (weight_of m' selected.name) above
        | inr below ↦
            let top = ltb_ℤ→ge (pos 0) (weight_of m' selected.name) below in
            let low =
              sum_of_nonpositive (λ a. weight_of m' a.name) cands
                (λ a n. omega (arith, top, weigh-le m first rest a d n)) in
            absurd (omega (int_laws, low, sums, total, zero_sum, total_positive, first_positive))
      ]

  -- What a round does to a candidate's weight.
  pub round :
      (m : List (Text × ℤ)) (a : Adapter)
      → Memᴰ a (first ∷ rest)
      → let (selected, m') = select_weighted m first rest in
        weight_of m' a.name
        ≡ weight_of m a.name +ℤ a.weight -ℤ paid selected.name a.name (total_weight (first ∷ rest))
  round m a n =
      weight_of-select_weighted m first rest a.name
      ∙ ap
          (λ w.
            weight_of m a.name
            +ℤ w
            -ℤ paid (select_weighted m first rest).0.name a.name (total_weight (first ∷ rest)))
          (added_mem (first ∷ rest) a d n)

  -- The one selected stays less than a whole total below zero.
  winner_above :
      (m : List (Text × ℤ)) (a : Adapter)
      → sum_of (λ b. weight_of m b.name) (first ∷ rest) ≡ pos 0
      → Memᴰ a (first ∷ rest)
      → beq (select_weighted m first rest).0.name a.name ≡ true
      → pos 0 <ℤ weight_of m a.name +ℤ a.weight
  unfolding select_weighted
  winner_above m a zero_sum n same =
      let (_, selected, m') = weigh (pos 0) first m (first ∷ rest) in
      let name' : selected.name ≡ a.name = (text_eq.beq_iff selected.name a.name).0 same in
      let high = selected_positive m zero_sum in
      let same_weight : weight_of m' selected.name ≡ weight_of m' a.name =
        ap (weight_of m') name' in
      let grown = weigh-weight_of (pos 0) first m (first ∷ rest) a.name in
      let own = added_mem (first ∷ rest) a d n in omega (int_laws, high, same_weight, grown, own)

  pub Balanced-select_weighted :
      (m : List (Text × ℤ))
      → Balanced (first ∷ rest) m
      → Balanced (first ∷ rest) (select_weighted m first rest).1
  Balanced-select_weighted m balanced =
      let cands = first ∷ rest in
      let total = total_weight cands in
      let winner = (select_weighted m first rest).0 in
      let m' = (select_weighted m first rest).1 in
      let f = λ (a : Adapter). weight_of m a.name +ℤ a.weight in
      let share = λ (a : Adapter). paid winner.name a.name total in
      let sums = sum_of_congr (λ a. weight_of m' a.name) (λ a. f a -ℤ share a) cands (round m) in
      let apart = sum_of-sub f share cands in
      let grown = sum_of-add (λ a. weight_of m a.name) (λ a. a.weight) cands in
      let once = sum_of-paid cands winner total d (mem-select_weighted m first rest) in
      let zero_sum = balanced.zero_sum in
      record {
        zero_sum = omega (int_laws, sums, apart, grown, once, zero_sum);
        above = λ a n. elim (Bool-cases (beq winner.name a.name)) [
          | inl same ↦
              let paid_all : share a ≡ total = ap (λ b. if b then total else pos 0) same in
              omega (int_laws, round m a n, paid_all, winner_above m a zero_sum n same)
          | inr other ↦
              let paid_none : share a ≡ pos 0 = ap (λ b. if b then total else pos 0) other in
              omega (int_laws, round m a n, paid_none, balanced.above a n, positive a n)
        ];
      }
