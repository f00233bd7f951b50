-- ===== src/Proxy/Health/Isolation.antt =====
-- The isolation of domains in engine/internal/proxy/health.go: when two comparative failures put a
-- domain in quarantine on an adapter, and what a success lifts.
use hypomux_arch.Prelude.{
  ℕ, zero, suc, ◌+◌, ◌≤◌, ◌<◌, ◌≡◌, refl, ap, ◌∙◌, Bool, true, false, not, ◌||◌, Option, none, some,
  arith, if◌then◌else◌, ◌==◌, inl, inr, Option-cases,
}
use hypomux_arch.Prelude.Assoc.{beq, beq_refl, lookup, lookup-insert, lookup-delete}
use hypomux_arch.Golang.Strings.{Text, text_eq, is_empty}
use hypomux_arch.Golang.Time.{Time, after, add_century, add_century-ge}
use hypomux_arch.Proxy.Adapter.{Adapter}
use hypomux_arch.Proxy.Health.{
  DomainHealth, AdapterHealth, HealthTable, domain_evidence_ttl, domain_quarantine_ttl,
  normalize_domain, holds_quarantine, domain_quarantined, update_state, succeeded_at,
  record_success, current_evidence, evidence_entry, blamed_at, record_comparative_domain_failure,
}
use hypomux_arch.Proxy.Health.Failures.{lookup-update_state_self}
use hypomux_arch.Proxy.Candidates.Tiering.{is_cooling, is_quarantined}

record_success-found :
    (h : HealthTable) (now : Time) (name domain : Text) {state : AdapterHealth}
    → lookup name h.adapters ≡ some state
    → lookup name (record_success h now name domain).adapters ≡ some (succeeded_at now domain state)
unfolding record_success
record_success-found h now name domain found =
    lookup-update_state_self h name (succeeded_at now domain) found

domain_quarantined-succeeded_at :
    (now : Time) (domain other : Text) (t : Time) (state : AdapterHealth)
    → domain_quarantined (succeeded_at now domain state) other t
      ≡ (if beq (normalize_domain domain) other then false else domain_quarantined state other t)
unfolding domain_quarantined succeeded_at
domain_quarantined-succeeded_at now domain other t state =
    rw (lookup-delete (normalize_domain domain) other state.domains)
      (cases (beq (normalize_domain domain) other) (is_empty other) (lookup other state.domains))
  where
    cases :
        (same empty : Bool) (entry : Option DomainHealth)
        → (if empty then false else holds_quarantine t (if same then none else entry))
          ≡ (if same then false else (if empty then false else holds_quarantine t entry))
    cases true true entry = refl
    cases true false entry = refl
    cases false empty entry = refl

-- A success of a known adapter ends its cooldown at once, and lifts there the quarantine of the
-- domain that it was for; the other domains' quarantines stay as they were.
pub record_success_heals :
    (h : HealthTable) (now : Time) (a : Adapter) (domain other : Text) (t : Time)
    {state : AdapterHealth}
    → lookup a.name h.adapters ≡ some state
    → (is_cooling (record_success h now a.name domain) t a ≡ false)
      × (is_quarantined (record_success h now a.name domain) other t a
          ≡ (if beq (normalize_domain domain) other then false else is_quarantined h other t a))
unfolding succeeded_at
record_success_heals h now a domain other t {state} found = (
  rw (record_success-found h now a.name domain found) (ground arith),
  rw (record_success-found h now a.name domain found, found)
      (domain_quarantined-succeeded_at now domain other t state),
)

update_state_flags :
    (h : HealthTable) (name : Text) (change : AdapterHealth → AdapterHealth)
    → ((update_state h name change).domain_isolation ≡ h.domain_isolation)
      × ((update_state h name change).domain_isolation_expiry ≡ h.domain_isolation_expiry)
unfolding update_state
update_state_flags h name change = elim (Option-cases (lookup name h.adapters)) [
  | inl missing ↦ rw (missing, update_state) (refl, refl)
  | inr (state, found) ↦ rw (found, update_state) (refl, refl)
]

record_comparative_domain_failure-on :
    (h : HealthTable) (now : Time) (name domain : Text) (expiry : Bool)
    → h.domain_isolation ≡ true
    → is_empty (normalize_domain domain) ≡ false
    → h.domain_isolation_expiry ≡ expiry
    → record_comparative_domain_failure h now name domain
      ≡ update_state h name (blamed_at expiry now (normalize_domain domain))
unfolding record_comparative_domain_failure
record_comparative_domain_failure-on h now name domain expiry on named e =
    let applies : (not h.domain_isolation || is_empty (normalize_domain domain)) ≡ false =
      rw named (ap (λ b. not b || false) on) in
    rw applies (ap (λ x. update_state h name (blamed_at x now (normalize_domain domain))) e)

-- The evidence against a domain, in an adapter's state.
abbrev pub evidence_at : AdapterHealth → Text → Time → ℕ
evidence_at state key now = current_evidence (lookup key state.domains) now

domain_quarantined-blamed_at :
    (expiry : Bool) (now : Time) (key : Text) (t : Time) (state : AdapterHealth)
    → is_empty key ≡ false
    → domain_quarantined (blamed_at expiry now key state) key t
      ≡ holds_quarantine t (some (evidence_entry expiry now (evidence_at state key now + 1)))
unfolding domain_quarantined blamed_at
domain_quarantined-blamed_at expiry now key t state named =
    rw (named, lookup-insert key key _ state.domains, beq_refl key) refl

current_evidence-evidence_entry :
    (expiry : Bool) (now later : Time) (n : ℕ)
    → later < now + domain_evidence_ttl
    → current_evidence (some (evidence_entry expiry now n)) later ≡ n
unfolding evidence_entry
current_evidence-evidence_entry true now later n soon = ground arith
current_evidence-evidence_entry false now later n soon = ground (arith, add_century-ge now)

-- Within the time that evidence is kept for, the next failure adds to it.
evidence_at-blamed_at :
    (expiry : Bool) (now later : Time) (key : Text) (state : AdapterHealth)
    → later < now + domain_evidence_ttl
    → evidence_at (blamed_at expiry now key state) key later ≡ evidence_at state key now + 1
unfolding blamed_at
evidence_at-blamed_at expiry now later key state soon =
    rw (lookup-insert key key _ state.domains, beq_refl key)
      (current_evidence-evidence_entry expiry now later (evidence_at state key now + 1) soon)

-- Later than that, a single failure is forgotten.
evidence_at-blamed_at_late :
    (expiry : Bool) (now later : Time) (key : Text) (state : AdapterHealth)
    → evidence_at state key now ≡ 0
    → now + domain_evidence_ttl ≤ later
    → evidence_at (blamed_at expiry now key state) key later ≡ 0
unfolding blamed_at evidence_entry
evidence_at-blamed_at_late expiry now later key state none_yet late =
    rw (lookup-insert key key _ state.domains, beq_refl key) (rw none_yet (ground arith))

holds_quarantine-evidence_entry :
    (expiry : Bool) (now t : Time) (n : ℕ)
    → holds_quarantine t (some (evidence_entry expiry now (n + 1))) ≡ (
        if n == 0
        then false
        else after (if expiry then now + domain_quarantine_ttl else add_century now) t)
unfolding evidence_entry
holds_quarantine-evidence_entry expiry now t zero = ground arith
holds_quarantine-evidence_entry expiry now t (suc n) = ground arith

-- Two comparative failures of a domain on an adapter, the second at `later`.
module _ (h : HealthTable) (a : Adapter) (domain : Text) (now later : Time) where
  abbrev pub failed_twice : HealthTable
  failed_twice =
      record_comparative_domain_failure (record_comparative_domain_failure h now a.name domain)
        later a.name domain

  lookup-failed_twice :
      {state : AdapterHealth}
      → h.domain_isolation ≡ true
      → is_empty (normalize_domain domain) ≡ false
      → lookup a.name h.adapters ≡ some state
      → lookup a.name failed_twice.adapters
        ≡ some (
            blamed_at h.domain_isolation_expiry later
              (normalize_domain domain)
              (blamed_at h.domain_isolation_expiry now (normalize_domain domain) state))
  lookup-failed_twice {state} on named found =
      let key = normalize_domain domain in
      let expiry = h.domain_isolation_expiry in
      let change = blamed_at expiry now key in
      let h₁ = update_state h a.name change in
      let flags = update_state_flags h a.name change in
      let found₁ : lookup a.name h₁.adapters ≡ some (change state) =
        lookup-update_state_self h a.name change found in
      rw (record_comparative_domain_failure-on h now a.name domain expiry on named refl) (
        rw
          (record_comparative_domain_failure-on h₁ later a.name domain expiry (flags.0 ∙ on) named
            flags.1)
          (lookup-update_state_self h₁ a.name (blamed_at expiry later key) found₁))

  -- Where isolation is on, two comparative failures of a domain on a known adapter, the second before
  -- ten minutes have passed, put the domain in quarantine there: at the times before thirty minutes
  -- from the second failure, or before a century from it where expiry is off, and at no others.
  pub failed_twice_quarantined :
      (t : Time) {state : AdapterHealth}
      → h.domain_isolation ≡ true
      → is_empty (normalize_domain domain) ≡ false
      → lookup a.name h.adapters ≡ some state
      → later < now + domain_evidence_ttl
      → is_quarantined failed_twice (normalize_domain domain) t a
        ≡ after
            (if h.domain_isolation_expiry then later + domain_quarantine_ttl else add_century later)
            t
  failed_twice_quarantined t {state} on named found soon =
      let key = normalize_domain domain in
      let expiry = h.domain_isolation_expiry in
      rw (lookup-failed_twice on named found) (
        domain_quarantined-blamed_at expiry later key t (blamed_at expiry now key state) named
        ∙ rw (evidence_at-blamed_at expiry now later key state soon) (
            holds_quarantine-evidence_entry expiry later t (evidence_at state key now + 1)
            ∙ ground arith))

  -- Where isolation is on and there was no evidence against the domain yet, two failures ten minutes
  -- apart or more on a known adapter leave the domain out of quarantine there, at any time.
  pub failed_twice_forgotten :
      (t : Time) {state : AdapterHealth}
      → h.domain_isolation ≡ true
      → is_empty (normalize_domain domain) ≡ false
      → lookup a.name h.adapters ≡ some state
      → evidence_at state (normalize_domain domain) now ≡ 0
      → now + domain_evidence_ttl ≤ later
      → is_quarantined failed_twice (normalize_domain domain) t a ≡ false
  failed_twice_forgotten t {state} on named found none_yet late =
      let key = normalize_domain domain in
      let expiry = h.domain_isolation_expiry in
      rw (lookup-failed_twice on named found) (
        domain_quarantined-blamed_at expiry later key t (blamed_at expiry now key state) named
        ∙ rw (evidence_at-blamed_at_late expiry now later key state none_yet late)
            (holds_quarantine-evidence_entry expiry later t 0))
