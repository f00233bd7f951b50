-- ===== src/Examples/Lifecycles.antt =====
-- Requests to the lifecycle of engine/internal/runtime/runtime.go.
use hypomux_arch.Prelude.{ℕ, ◌+◌, ◌%◌, ◌^◌, ◌≡◌, refl, List, [], ◌∷◌, arith}
use hypomux_arch.Runtime.{
  State, stopped, starting, running, Snapshot, invalid_transition, transition, Request, run,
}
use hypomux_arch.Runtime.Lifecycle.{
  ◌⟶◌, changes, transition_refused, run_sequence, stopped-reachable,
}

abbrev idle : Snapshot
idle = record { state = stopped; sequence = 7; state_changed_at = 1; reason = [] }

abbrev ask : State → ℕ → Request
ask s now = record { target = s; why = []; at = now }

abbrev requests : List Request
requests = ask starting 2 ∷ ask stopped 3 ∷ ask running 4 ∷ ask running 5 ∷ []

-- The request to stop while the engine starts, and the second one to run, change nothing.
two_changes : (run idle requests).sequence ≡ 9
unfolding run transition
two_changes = refl

transition_refused_example :
    transition idle running [] 2 ≡ (idle, invalid_transition stopped running)
transition_refused_example = transition_refused idle running [] 2 (λ e. cc) no_edge
  where
    no_edge : ¬ (stopped ⟶ running)
    no_edge e = elim e [ ]

run_sequence_example : (run idle requests).sequence ≡ (7 + changes idle requests) % 2 ^ 64
run_sequence_example = run_sequence idle requests (omega arith)

stopped-reachable_example : (rs : List Request) × ((run idle rs).state ≡ stopped)
stopped-reachable_example = stopped-reachable idle
