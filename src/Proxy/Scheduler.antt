-- ===== src/Proxy/Scheduler.antt =====
-- engine/internal/proxy/scheduler.go: the choice of an adapter for a connection, round robin or by
-- smooth weights, among the candidates that the health table offers. The table may be shared by
-- several schedulers, so it stands beside the scheduler's own state. A method holds the scheduler's
-- mutex for its whole body.
use hypomux_arch.Prelude.{
  ℕ, ◌+◌, ◌%◌, Bool, List, [], ◌∷◌, Option, none, some, length, get_elem?, if◌then◌else◌,
}
use hypomux_arch.Prelude.Int.{ℤ, pos, ◌+ℤ◌, ◌-ℤ◌, ltb_ℤ}
use hypomux_arch.Prelude.Assoc.{lookup, insert}
use hypomux_arch.Golang.Strings.{Text, text_eq}
use hypomux_arch.Golang.Time.{Time}
use hypomux_arch.Proxy.Adapter.{Adapter}
use hypomux_arch.Proxy.Health.{HealthTable, new_health_table, record_local_failure, record_success}
use hypomux_arch.Proxy.Candidates.{candidates}
pub mod Choice
pub mod RoundRobin
pub mod Weights
pub mod Heaviest
pub mod Sums
pub mod Fairness
pub mod Share

pub record Scheduler : Type 0 where
  pub adapters : List Adapter
  pub weighted : Bool
  pub next : ℕ
  pub current_weight : List (Text × ℤ)

-- The scheduler, with the table that it shares or one of its own.
unfoldable pub new_scheduler : List Adapter → Bool → Option HealthTable → Scheduler × HealthTable
new_scheduler adapters weighted shared = (
  record { adapters = adapters; weighted = weighted; next = 0; current_weight = [] },
  elim shared [ none ↦ new_health_table adapters | some health ↦ health ],
)

abbrev pub or_zero : Option ℤ → ℤ
or_zero none = pos 0
or_zero (some w) = w

-- `s.currentWeight[name]`: a missing key reads as 0.
abbrev pub weight_of : List (Text × ℤ) → Text → ℤ
weight_of m name = or_zero (lookup name m)

abbrev pub heavier : List (Text × ℤ) → Adapter → Adapter → Adapter
heavier m a selected =
    if ltb_ℤ (weight_of m selected.name) (weight_of m a.name) then a else selected

-- The loop of `selectWeighted`: the total, the adapter selected and the weights.
unfoldable pub weigh : ℤ → Adapter → List (Text × ℤ) → List Adapter → ℤ × Adapter × List (Text × ℤ)
weigh total selected m [] = (total, selected, m)
weigh total selected m (a ∷ rest) =
    let m' = insert a.name (weight_of m a.name +ℤ a.weight) m in
    weigh (total +ℤ a.weight) (heavier m' a selected) m' rest

-- `selectWeighted` on the candidates `first ∷ rest`; it is called with no empty list.
unfoldable pub select_weighted :
    List (Text × ℤ) → Adapter → List Adapter → Adapter × List (Text × ℤ)
select_weighted m first rest =
    let (total, selected, m') = weigh (pos 0) first m (first ∷ rest) in
    (selected, insert selected.name (weight_of m' selected.name -ℤ total) m')

-- The last three lines of `SelectForDomain`: the candidate whose turn it is, and the next turn.
unfoldable pub take_turn : ℕ → List Adapter → Option Adapter × ℕ
take_turn next candidates =
    (get_elem? candidates (next % length candidates), (next + 1) % length candidates)

unfoldable pub pick : Scheduler → List Adapter → Option Adapter × Scheduler
unfolding select_weighted take_turn
pick s [] = (none, s)
pick s (first ∷ rest) =
    let (selected, weights) = select_weighted s.current_weight first rest in
    let (turn, next) = take_turn s.next (first ∷ rest) in
    if s.weighted
    then (some selected, record s { current_weight = weights })
    else (turn, record s { next = next })

unfoldable pub select_for_domain :
    Scheduler → HealthTable → Time → List Text → Text → Option Adapter × Scheduler × HealthTable
unfolding pick
select_for_domain s h now excluded domain =
    let (offered, h') = candidates h now s.adapters excluded domain in
    let (selected, s') = pick s offered in (selected, s', h')

unfoldable pub select :
    Scheduler → HealthTable → Time → List Text → Option Adapter × Scheduler × HealthTable
unfolding select_for_domain
select s h now excluded = select_for_domain s h now excluded []

unfoldable pub mark_failure : HealthTable → Time → Text → HealthTable
unfolding record_local_failure
mark_failure h now name = record_local_failure h now name

-- `MarkSuccess(name)` gives no domain, and is `mark_success h now name []`.
unfoldable pub mark_success : HealthTable → Time → Text → Text → HealthTable
unfolding record_success
mark_success h now name domain = record_success h now name domain
