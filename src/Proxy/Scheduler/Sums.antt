-- ===== src/Proxy/Scheduler/Sums.antt =====
-- Sums over the candidates of engine/internal/proxy/scheduler.go, and what a round adds to the weight
-- of each and takes from it.
use hypomux_arch.Prelude.{
  ◌≡◌, refl, sym, subst, ap, List, [], ◌∷◌, arith, if◌then◌else◌, Memᴰ, inl, inr, Bool-cases,
}
use hypomux_arch.Prelude.Int.{ℤ, pos, ◌+ℤ◌, ◌-ℤ◌, ◌≤ℤ◌, int_laws}
use hypomux_arch.Prelude.Assoc.{beq, beq_refl, beq_comm, insert}
use hypomux_arch.Golang.Strings.{Text, text_eq}
use hypomux_arch.Proxy.Adapter.{Adapter}
use hypomux_arch.Proxy.Scheduler.{weight_of, weigh, select_weighted}
use hypomux_arch.Proxy.Scheduler.Weights.{
  DistinctNames, added, sum_of, total_weight, weight_of-insert, weigh-total, weigh-weight_of,
}
use hypomux_arch.Proxy.Scheduler.Heaviest.{beq_of_absent}

abbrev pub paid : Text → Text → ℤ → ℤ
paid winner name total = if beq winner name then total else pos 0

-- A round adds its weight to each candidate, and takes the total from the one selected.
pub weight_of-select_weighted :
    (m : List (Text × ℤ)) (first : Adapter) (rest : List Adapter) (name : Text)
    → let (selected, m') = select_weighted m first rest in
      weight_of m' name
      ≡ weight_of m name
        +ℤ added (first ∷ rest) name
        -ℤ paid selected.name name (total_weight (first ∷ rest))
unfolding select_weighted
weight_of-select_weighted m first rest name =
    let (total, selected, m') = weigh (pos 0) first m (first ∷ rest) in
    let grown = weigh-weight_of (pos 0) first m (first ∷ rest) name in
    let all = weigh-total (pos 0) first m (first ∷ rest) in
    let written = weight_of-insert selected.name name (weight_of m' selected.name -ℤ total) m' in
    elim (Bool-cases (beq selected.name name)) [
      | inl same ↦
          let name' = (text_eq.beq_iff selected.name name).0 same in
          let kept : weight_of m' selected.name ≡ weight_of m' name = ap (weight_of m') name' in
          let here : weight_of (insert selected.name (weight_of m' selected.name -ℤ total) m') name
              ≡ weight_of m' selected.name -ℤ total =
            rw same at written in
          rw same (omega (int_laws, here, kept, grown, all))
      | inr other ↦
          let here : weight_of (insert selected.name (weight_of m' selected.name -ℤ total) m') name
              ≡ weight_of m' name =
            rw other at written in
          rw other (omega (int_laws, here, grown))
    ]

pub sum_of_congr :
    (f g : Adapter → ℤ) (cands : List Adapter)
    → ((a : Adapter) → Memᴰ a cands → f a ≡ g a)
    → sum_of f cands ≡ sum_of g cands
sum_of_congr f g [] h = refl
sum_of_congr f g (a ∷ rest) h =
    let here = h a (Memᴰ.head refl) in
    omega (int_laws, here, sum_of_congr f g rest (λ b m. h b (Memᴰ.tail m)))

pub sum_of-add :
    (f g : Adapter → ℤ) (cands : List Adapter)
    → sum_of (λ a. f a +ℤ g a) cands ≡ sum_of f cands +ℤ sum_of g cands
sum_of-add f g [] = omega int_laws
sum_of-add f g (a ∷ rest) = omega (int_laws, sum_of-add f g rest)

pub sum_of-sub :
    (f g : Adapter → ℤ) (cands : List Adapter)
    → sum_of (λ a. f a -ℤ g a) cands ≡ sum_of f cands -ℤ sum_of g cands
sum_of-sub f g [] = omega int_laws
sum_of-sub f g (a ∷ rest) = omega (int_laws, sum_of-sub f g rest)

pub sum_of_nonpositive :
    (f : Adapter → ℤ) (cands : List Adapter)
    → ((a : Adapter) → Memᴰ a cands → f a ≤ℤ pos 0)
    → sum_of f cands ≤ℤ pos 0
sum_of_nonpositive f [] h = omega arith
sum_of_nonpositive f (a ∷ rest) h =
    omega (int_laws, h a (Memᴰ.head refl), sum_of_nonpositive f rest (λ b m. h b (Memᴰ.tail m)))

pub sum_of_nonnegative :
    (f : Adapter → ℤ) (cands : List Adapter)
    → ((a : Adapter) → Memᴰ a cands → pos 0 ≤ℤ f a)
    → pos 0 ≤ℤ sum_of f cands
sum_of_nonnegative f [] h = omega arith
sum_of_nonnegative f (a ∷ rest) h =
    omega (int_laws, h a (Memᴰ.head refl), sum_of_nonnegative f rest (λ b m. h b (Memᴰ.tail m)))

pub le-sum_of :
    (f : Adapter → ℤ) (cands : List Adapter) (a : Adapter)
    → ((b : Adapter) → Memᴰ b cands → pos 0 ≤ℤ f b)
    → Memᴰ a cands
    → f a ≤ℤ sum_of f cands
le-sum_of f [] a h m = elim m [ ]
le-sum_of f (b ∷ rest) a h (Memᴰ.head e) =
    rw e (omega (int_laws, sum_of_nonnegative f rest (λ c m. h c (Memᴰ.tail m))))
le-sum_of f (b ∷ rest) a h (Memᴰ.tail m) =
    omega (int_laws, h b (Memᴰ.head refl), le-sum_of f rest a (λ c n. h c (Memᴰ.tail n)) m)

pub sum_of-zero : (cands : List Adapter) → sum_of (λ a. pos 0) cands ≡ pos 0
sum_of-zero [] = refl
sum_of-zero (a ∷ rest) = omega (int_laws, sum_of-zero rest)

sum_of-paid_head :
    (c : Adapter) (rest : List Adapter) (total : ℤ)
    → DistinctNames (c ∷ rest)
    → sum_of (λ a. paid c.name a.name total) (c ∷ rest) ≡ total
sum_of-paid_head c rest total d =
    let others =
      sum_of_congr (λ a. paid c.name a.name total) (λ a. pos 0) rest
        (λ b m. ap (λ x. if x then total else pos 0) (beq_of_absent c.name rest b d.0 m)) in
    rw (beq_refl c.name) (omega (int_laws, others, sum_of-zero rest))

-- The candidates together pay the total once.
pub sum_of-paid :
    (cands : List Adapter) (s : Adapter) (total : ℤ)
    → DistinctNames cands
    → Memᴰ s cands
    → sum_of (λ a. paid s.name a.name total) cands ≡ total
sum_of-paid [] s total d m = elim m [ ]
sum_of-paid (c ∷ rest) s total d (Memᴰ.head e) =
    subst (λ x. sum_of (λ a. paid x.name a.name total) (c ∷ rest) ≡ total) (sym e)
      (sum_of-paid_head c rest total d)
sum_of-paid (c ∷ rest) s total d (Memᴰ.tail m) =
    let ih = sum_of-paid rest s total d.1 m in
    rw (beq_comm c.name s.name (beq_of_absent c.name rest s d.0 m)) (omega (int_laws, ih))
