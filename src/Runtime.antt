-- ===== src/Runtime.antt =====
-- engine/internal/runtime/runtime.go: the canonical engine lifecycle. `Transition` holds the mutex
-- for its whole body, so a call is one step; the clock's reading is an argument.
use hypomux_arch.Prelude.{ℕ, ◌+◌, ◌%◌, ◌^◌, Bool, true, false, ◌||◌, List, [], ◌∷◌, if◌then◌else◌}
pub mod Lifecycle

pub data State : Type 0 where
  stopped starting running degraded stopping failed : State

-- `reason` is the text of the reason, as bytes.
pub record Snapshot : Type 0 where
  pub state : State
  pub sequence : ℕ
  pub state_changed_at : ℕ
  pub reason : List ℕ

pub record StateChange : Type 0 where
  pub previous : State
  pub current : Snapshot

-- The error carries the two states that its message names.
pub data TransitionResult : Type 0 where
  ok : StateChange → TransitionResult
  invalid_transition : State → State → TransitionResult

-- Go's `==` on the constants of `State`.
abbrev pub state_eq : State → State → Bool
state_eq stopped stopped = true
state_eq starting starting = true
state_eq running running = true
state_eq degraded degraded = true
state_eq stopping stopping = true
state_eq failed failed = true
state_eq _ _ = false

unfoldable pub new : ℕ → Snapshot
new now = record { state = stopped; sequence = 0; state_changed_at = now; reason = [] }

unfoldable pub can_transition : State → State → Bool
can_transition stopped next = state_eq next starting
can_transition starting next =
    state_eq next running || state_eq next stopping || state_eq next failed
can_transition running next =
    state_eq next degraded || state_eq next stopping || state_eq next failed
can_transition degraded next =
    state_eq next running || state_eq next stopping || state_eq next failed
can_transition stopping next = state_eq next stopped || state_eq next failed
can_transition failed next = state_eq next starting || state_eq next stopped

-- `Sequence` is a uint64.
unfoldable pub transition : Snapshot → State → List ℕ → ℕ → Snapshot × TransitionResult
unfolding can_transition
transition s next reason now =
    let changed : Snapshot = record {
      state = next;
      sequence = (s.sequence + 1) % 2 ^ 64;
      state_changed_at = now;
      reason = reason;
    } in
    if state_eq s.state next
    then (s, ok (record { previous = s.state; current = s }))
    else if can_transition s.state next
    then (changed, ok (record { previous = s.state; current = changed }))
    else (s, invalid_transition s.state next)

-- A caller's request, with the clock's reading when it is served.
pub record Request : Type 0 where
  pub target : State
  pub why : List ℕ
  pub at : ℕ

-- The snapshots that a sequence of requests leads through ends in this one.
unfoldable pub run : Snapshot → List Request → Snapshot
run s [] = s
run s (r ∷ rs) = run (transition s r.target r.why r.at).0 rs
