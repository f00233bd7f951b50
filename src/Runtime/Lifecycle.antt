-- ===== src/Runtime/Lifecycle.antt =====
-- What `Transition` of engine/internal/runtime/runtime.go does on each of its paths, and what any
-- sequence of requests can lead to.
use hypomux_arch.Prelude.{
  ℕ, ◌+◌, ◌%◌, ◌^◌, ◌≡◌, ◌≢◌, refl, List, [], ◌∷◌, arith, inl, inr, true, false, Bool-cases,
  if◌then◌else◌, ap, ◌<◌,
}
use hypomux_arch.Runtime.{
  State, stopped, starting, running, degraded, stopping, failed, Snapshot, ok, invalid_transition,
  state_eq, can_transition, transition, Request, run,
}

-- The diagram of the lifecycle, written out independently of the code's test.
infix 40 ◌⟶◌ ◌⟶*◌
pub data ◌⟶◌ : State → State → Type 0 where
  start : stopped ⟶ starting
  come_up : starting ⟶ running
  abandon : starting ⟶ stopping
  fail_start : starting ⟶ failed
  degrade : running ⟶ degraded
  stop : running ⟶ stopping
  crash : running ⟶ failed
  recover : degraded ⟶ running
  stop_degraded : degraded ⟶ stopping
  crash_degraded : degraded ⟶ failed
  halt : stopping ⟶ stopped
  fail_stop : stopping ⟶ failed
  restart : failed ⟶ starting
  reset : failed ⟶ stopped

pub data ◌⟶*◌ : State → State → Type 0 where
  here : {s : State} → s ⟶* s
  along : {s t u : State} → s ⟶ t → t ⟶* u → s ⟶* u

ruleset edges = (
  start, come_up, abandon, fail_start, degrade, stop, crash, recover, stop_degraded, crash_degraded,
  halt, fail_stop, restart, reset,
)

-- A test for every pair of states: the code's decision is the diagram, apart from the request for
-- the state that the engine is in.
edge-can_transition : {s t : State} → s ⟶ t → can_transition s t ≡ true
unfolding can_transition
edge-can_transition start = refl
edge-can_transition _ = refl

edge-ne : {s t : State} → s ⟶ t → state_eq s t ≡ false
edge-ne start = refl
edge-ne _ = refl

can_transition-edge : (s t : State) → can_transition s t ≡ true → s ⟶ t
unfolding can_transition
can_transition-edge s t h = grind (arith, edges)

state_eq-eq : (s t : State) → state_eq s t ≡ true → s ≡ t
state_eq-eq s t h = ground arith

state_eq_refl : (s : State) → state_eq s s ≡ true
state_eq_refl stopped = refl
state_eq_refl _ = refl

abbrev pub changed_to : Snapshot → State → List ℕ → ℕ → Snapshot
changed_to s next reason now = record {
  state = next;
  sequence = (s.sequence + 1) % 2 ^ 64;
  state_changed_at = now;
  reason = reason;
}

-- On an edge of the diagram the request is carried out: the new state, the next sequence number,
-- the clock's reading and the reason are stored and returned beside the previous state.
transition-edge :
    (s : Snapshot) (next : State) (reason : List ℕ) (now : ℕ)
    → s.state ⟶ next
    → transition s next reason now ≡ (
      changed_to s next reason now,
      ok (record { previous = s.state; current = changed_to s next reason now }),
    )
unfolding transition
transition-edge s next reason now e = rw (edge-ne e, edge-can_transition e)

-- A request for the state that the engine is in changes nothing, not even the reason.
pub transition_self :
    (s : Snapshot) (reason : List ℕ) (now : ℕ)
    → transition s s.state reason now ≡ (s, ok (record { previous = s.state; current = s }))
unfolding transition
transition_self s reason now = rw (state_eq_refl s.state)

-- A request for another state that no edge of the diagram leads to is refused, with an error that
-- names both states, and changes nothing.
pub transition_refused :
    (s : Snapshot) (next : State) (reason : List ℕ) (now : ℕ)
    → s.state ≢ next
    → ¬ (s.state ⟶ next)
    → transition s next reason now ≡ (s, invalid_transition s.state next)
unfolding transition
transition_refused s next reason now other no_edge = elim (Bool-cases (state_eq s.state next)) [
  | inl same ↦ absurd (other (state_eq-eq s.state next same))
  | inr differs ↦ elim (Bool-cases (can_transition s.state next)) [
    | inl allowed ↦ absurd (no_edge (can_transition-edge s.state next allowed))
    | inr refused ↦ rw (differs, refused)
  ]
]

-- How often the state that an observer sees changes during a run.
abbrev pub changes : Snapshot → List Request → ℕ
changes s [] = 0
changes s (r ∷ rs) =
    let s' = (transition s r.target r.why r.at).0 in
    (if state_eq s.state s'.state then 0 else 1) + changes s' rs

sequence-step :
    (s : Snapshot) (next : State) (reason : List ℕ) (now : ℕ)
    → s.sequence < 2 ^ 64
    → let s' = (transition s next reason now).0 in
      s'.sequence ≡ (s.sequence + (if state_eq s.state s'.state then 0 else 1)) % 2 ^ 64
unfolding transition
sequence-step s next reason now h = elim (Bool-cases (state_eq s.state next)) [
  | inl same ↦ rw (same, state_eq_refl s.state) (omega arith)
  | inr differs ↦ elim (Bool-cases (can_transition s.state next)) [
    | inl allowed ↦ rw (differs, allowed) (rw differs refl)
    | inr refused ↦ rw (differs, refused, state_eq_refl s.state) (omega arith)
  ]
]

-- The sequence number, below 2 ^ 64 at the start, grows by the number of state changes of a run,
-- modulo 2 ^ 64: refused requests and requests for the same state do not count.
pub run_sequence :
    (s : Snapshot) (rs : List Request)
    → s.sequence < 2 ^ 64
    → (run s rs).sequence ≡ (s.sequence + changes s rs) % 2 ^ 64
unfolding run
run_sequence s [] h = omega arith
run_sequence s (r ∷ rs) h =
    let s' = (transition s r.target r.why r.at).0 in
    let first = sequence-step s r.target r.why r.at h in
    omega (arith, first, run_sequence s' rs (omega (arith, first)))

request : State → Request
request t = record { target = t; why = []; at = 0 }

realise :
    (s : Snapshot) {a b : State}
    → a ⟶* b
    → s.state ≡ a
    → (rs : List Request) × ((run s rs).state ≡ b)
unfolding run request
realise s here at_start = ([], at_start)
realise s (along {t = t} e p) at_start =
    let e' : s.state ⟶ t = rw at_start e in
    let moved = transition-edge s t [] 0 e' in
    let (rs, ends) = realise (transition s t [] 0).0 p (ap (λ r. r.0.state) moved) in
    (request t ∷ rs, ends)

to_stopped : (s : State) → s ⟶* stopped
to_stopped stopped = here
to_stopped starting = along abandon (along halt here)
to_stopped running = along stop (along halt here)
to_stopped degraded = along stop_degraded (along halt here)
to_stopped stopping = along halt here
to_stopped failed = along reset here

-- No state is a dead end: from every snapshot some sequence of requests leads to `stopped`.
pub stopped-reachable : (s : Snapshot) → (rs : List Request) × ((run s rs).state ≡ stopped)
stopped-reachable s = realise s (to_stopped s.state) refl
