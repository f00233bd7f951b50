-- ===== src/Proxy/Health/Failures.antt =====
-- What failures and successes do to an adapter's state (engine/internal/proxy/health.go): the
-- backoff after failures in a row, the recovery, and the quarantine of a domain.
use hypomux_arch.Prelude.{
  ℕ, zero, suc, ◌+◌, ◌-◌, ◌*◌, ◌≡◌, refl, ap, ◌∙◌, ◌⊎◌, false, List, [], ◌∷◌, none, some, arith,
  if◌then◌else◌, leb, length, inl, inr, Bool-cases, Option-cases,
}
use mathlib.Core.Option
use hypomux_arch.Prelude.Assoc.{beq, beq_refl, lookup, lookup-insert}
use hypomux_arch.Golang.Strings.{Text, text_eq}
use hypomux_arch.Golang.Time.{Time, second}
use hypomux_arch.Proxy.Health.{
  AdapterHealth, HealthTable, failure_backoff, update_state, failed_at, record_local_failure,
}

-- Failures of one adapter in a row, at the given times.
abbrev pub fail_at : HealthTable → Text → List Time → HealthTable
fail_at h name [] = h
fail_at h name (t ∷ ts) = fail_at (record_local_failure h t name) name ts

-- The wait after the n-th failure in a row.
abbrev pub wait_after : ℕ → ℕ
wait_after n =
    if leb n 1
    then 2 * second
    else if leb n 2
    then 5 * second
    else if leb n 3
    then 15 * second
    else 30 * second

abbrev pub last_of : Time → List Time → Time
last_of t [] = t
last_of t (u ∷ ts) = last_of u ts

failure_backoff-wait_after : (k : ℕ) → failure_backoff k ≡ wait_after (k + 1)
unfolding failure_backoff
failure_backoff-wait_after zero = refl
failure_backoff-wait_after (suc zero) = refl
failure_backoff-wait_after (suc (suc zero)) = refl
failure_backoff-wait_after (suc (suc (suc k))) = ground arith

-- Only the named adapter changes, and only if the table knows it.
pub lookup-update_state :
    (h : HealthTable) (name other : Text) (change : AdapterHealth → AdapterHealth)
    → lookup other (update_state h name change).adapters ≡ (
        if beq name other
        then Option.map change (lookup other h.adapters)
        else lookup other h.adapters)
unfolding update_state
lookup-update_state h name other change = elim (Bool-cases (beq name other)) [
  | inl same ↦
      let name≡other = (text_eq.beq_iff name other).0 same in
      rw (← name≡other) (rw (beq_refl name) (here (Option-cases (lookup name h.adapters))))
  | inr differs ↦ rw differs (elsewhere differs (Option-cases (lookup name h.adapters)))
]
  where
    here :
        (lookup name h.adapters ≡ none)
          ⊎ ((state : AdapterHealth) × (lookup name h.adapters ≡ some state))
        → lookup name (update_state h name change).adapters
          ≡ Option.map change (lookup name h.adapters)
    here (inl missing) = rw (missing, update_state) missing
    here (inr (state, found)) =
        rw (found, update_state)
          (rw (lookup-insert name name (change state) h.adapters, beq_refl name) refl)

    elsewhere :
        beq name other ≡ false
        → (lookup name h.adapters ≡ none)
          ⊎ ((state : AdapterHealth) × (lookup name h.adapters ≡ some state))
        → lookup other (update_state h name change).adapters ≡ lookup other h.adapters
    elsewhere differs (inl missing) = rw (missing, update_state) refl
    elsewhere differs (inr (state, found)) =
        rw (found, update_state)
          (rw (lookup-insert name other (change state) h.adapters, differs) refl)

pub lookup-update_state_self :
    (h : HealthTable) (name : Text) (change : AdapterHealth → AdapterHealth) {state : AdapterHealth}
    → lookup name h.adapters ≡ some state
    → lookup name (update_state h name change).adapters ≡ some (change state)
lookup-update_state_self h name change found =
    rw (lookup-update_state h name name change, beq_refl name, found)

-- After failures in a row a known adapter's cooldown runs from the last of them, for 2, 5, 15 and
-- then always 30 seconds, by the count of failures, to which each of them has added one.
pub fail_at_cooldown :
    (h : HealthTable) (name : Text) (last : Time) (ts : List Time) {state : AdapterHealth}
    → lookup name h.adapters ≡ some state
    → (state' : AdapterHealth) × (lookup name
          (fail_at (record_local_failure h last name) name ts).adapters
        ≡ some state')
      × (state'.consecutive_failures ≡ state.consecutive_failures + length ts + 1)
      × (state'.cooldown_until
          ≡ last_of last ts + wait_after (state.consecutive_failures + length ts + 1))
unfolding record_local_failure failed_at
fail_at_cooldown h name last [] {state} found =
    let k = state.consecutive_failures in
    (
      failed_at last state,
      lookup-update_state_self h name (failed_at last) found,
      omega arith,
      ap (λ w. last + w)
          (ap failure_backoff (sub_one k)
            ∙ failure_backoff-wait_after k
            ∙ ap (λ n. wait_after (n + 1)) (plus_zero k)),
    )
  where
    sub_one : (k : ℕ) → k + 1 - 1 ≡ k
    sub_one k = omega arith

    plus_zero : (k : ℕ) → k ≡ k + 0
    plus_zero k = omega arith
fail_at_cooldown h name last (t ∷ ts) {state} found =
    let h' = record_local_failure h last name in
    let (state', found', count, until) =
      fail_at_cooldown h' name t ts (lookup-update_state_self h name (failed_at last) found) in
    (
      state',
      found',
      omega arith,
      until
          ∙ ap (λ n. last_of t ts + wait_after (n + 1))
              (shift state.consecutive_failures (length ts)),
    )
  where
    shift : (k n : ℕ) → k + 1 + n ≡ k + suc n
    shift k n = omega arith
