-- ===== src/Proxy/Health.antt =====
-- engine/internal/proxy/health.go: which adapters may carry the next connection. A method of
-- `*healthTable` takes the table and the clock's reading, and returns the table that it leaves;
-- each holds the mutex for its whole body.
use hypomux_arch.Prelude.{
  ℕ, zero, suc, ◌+◌, ◌-◌, ◌*◌, ◌%◌, ◌^◌, Bool, true, false, not, ◌&&◌, ◌||◌, List, [], ◌∷◌, Option,
  none, some, leb, ltb, length, keep, if◌then◌else◌,
}
use hypomux_arch.Prelude.Assoc.{contains, lookup, insert, delete}
use hypomux_arch.Golang.Strings.{Text, text_eq, is_empty, trim_space, to_lower, trim_dot}
use hypomux_arch.Golang.Time.{Time, second, minute, is_zero, after, before, add_century}
use hypomux_arch.Proxy.Adapter.{Adapter}
pub mod Failures
pub mod Isolation
pub mod Reachable
pub mod Validity

abbrev pub domain_failure_threshold : ℕ
domain_failure_threshold = 2

abbrev pub domain_evidence_ttl : ℕ
domain_evidence_ttl = 10 * minute

abbrev pub domain_quarantine_ttl : ℕ
domain_quarantine_ttl = 30 * minute

pub record DomainHealth : Type 0 where
  pub evidence : ℕ
  pub expires_at : Time

-- `successes` and `failures` are uint64; `consecutive_failures` is an int that a success resets.
pub record AdapterHealth : Type 0 where
  pub consecutive_failures : ℕ
  pub successes : ℕ
  pub failures : ℕ
  pub last_success_at : Time
  pub last_failure_at : Time
  pub cooldown_until : Time
  pub domains : List (Text × DomainHealth)

pub record HealthTable : Type 0 where
  pub adapters : List (Text × AdapterHealth)
  pub domain_isolation : Bool
  pub domain_isolation_expiry : Bool

pub record DomainQuarantineSeed : Type 0 where
  pub adapter : Text
  pub domain : Text
  pub expires_at : Time

unfoldable pub normalize_domain : Text → Text
normalize_domain domain = trim_dot (to_lower (trim_space domain))

abbrev pub fresh : AdapterHealth
fresh = record {
  consecutive_failures = 0;
  successes = 0;
  failures = 0;
  last_success_at = 0;
  last_failure_at = 0;
  cooldown_until = 0;
  domains = [];
}

-- The first loop of `newHealthTableConfigured`.
unfoldable pub register : List Adapter → List (Text × AdapterHealth) → List (Text × AdapterHealth)
register [] m = m
register (a ∷ rest) m = register rest (insert a.name fresh m)

-- One round of its second loop: a seed for an unknown adapter is skipped.
unfoldable pub sow_seed :
    DomainQuarantineSeed → List (Text × AdapterHealth) → List (Text × AdapterHealth)
sow_seed seed m = elim (lookup seed.adapter m) [
  | none ↦ m
  | some state ↦
      insert seed.adapter
        (record state {
          domains =
              insert (normalize_domain seed.domain)
                (record { evidence = domain_failure_threshold; expires_at = seed.expires_at })
                state.domains;
        })
        m
]

unfoldable pub sow :
    List DomainQuarantineSeed → List (Text × AdapterHealth) → List (Text × AdapterHealth)
unfolding sow_seed
sow [] m = m
sow (seed ∷ seeds) m = sow seeds (sow_seed seed m)

unfoldable pub new_health_table_configured :
    List Adapter → Bool → Bool → List DomainQuarantineSeed → HealthTable
unfolding register sow
new_health_table_configured adapters isolation expiry seeds = record {
  adapters = sow seeds (register adapters []);
  domain_isolation = isolation;
  domain_isolation_expiry = expiry;
}

unfoldable pub new_health_table : List Adapter → HealthTable
unfolding new_health_table_configured
new_health_table adapters = new_health_table_configured adapters true true []

-- An entry stays if it has no expiry or its expiry is still to come.
abbrev pub is_live_entry : Time → Text × DomainHealth → Bool
is_live_entry now e = is_zero (e.1).expires_at || after (e.1).expires_at now

unfoldable pub prune_expired_domains : AdapterHealth → Time → AdapterHealth
prune_expired_domains state now = record state { domains = keep (is_live_entry now) state.domains }

abbrev pub holds_quarantine : Time → Option DomainHealth → Bool
holds_quarantine now none = false
holds_quarantine now (some entry) =
    leb domain_failure_threshold entry.evidence && after entry.expires_at now

unfoldable pub domain_quarantined : AdapterHealth → Text → Time → Bool
domain_quarantined state domain now =
    if is_empty domain then false else holds_quarantine now (lookup domain state.domains)

-- `adapterFailureBackoff[index]`, with the index held to the end of the table.
unfoldable pub failure_backoff : ℕ → ℕ
failure_backoff zero = 2 * second
failure_backoff (suc zero) = 5 * second
failure_backoff (suc (suc zero)) = 15 * second
failure_backoff (suc (suc (suc _))) = 30 * second

-- `state := h.adapters[name]` with the return where it is nil: the method's change of the state.
unfoldable pub update_state : HealthTable → Text → (AdapterHealth → AdapterHealth) → HealthTable
update_state h name change = elim (lookup name h.adapters) [
  | none ↦ h
  | some state ↦ record h { adapters = insert name (change state) h.adapters }
]

unfoldable pub failed_at : Time → AdapterHealth → AdapterHealth
unfolding failure_backoff
failed_at now state = record state {
  failures = (state.failures + 1) % 2 ^ 64;
  consecutive_failures = state.consecutive_failures + 1;
  last_failure_at = now;
  cooldown_until = now + failure_backoff (state.consecutive_failures + 1 - 1);
}

unfoldable pub record_local_failure : HealthTable → Time → Text → HealthTable
unfolding update_state failed_at
record_local_failure h now name = update_state h name (failed_at now)

unfoldable pub succeeded_at : Time → Text → AdapterHealth → AdapterHealth
succeeded_at now domain state = record state {
  successes = (state.successes + 1) % 2 ^ 64;
  consecutive_failures = 0;
  cooldown_until = 0;
  last_success_at = now;
  domains = delete (normalize_domain domain) state.domains;
}

unfoldable pub record_success : HealthTable → Time → Text → Text → HealthTable
unfolding update_state succeeded_at
record_success h now name domain = update_state h name (succeeded_at now domain)

-- The entry that the evidence is added to: a new one, where there is none or it has expired.
abbrev pub current_evidence : Option DomainHealth → Time → ℕ
current_evidence none now = 0
current_evidence (some entry) now =
    if not (is_zero entry.expires_at) && not (after entry.expires_at now) then 0 else entry.evidence

unfoldable pub evidence_entry : Bool → Time → ℕ → DomainHealth
evidence_entry expiry now evidence = record {
  evidence = evidence;
  expires_at =
      if leb domain_failure_threshold evidence
      then if expiry then now + domain_quarantine_ttl else add_century now
      else now + domain_evidence_ttl;
}

unfoldable pub blamed_at : Bool → Time → Text → AdapterHealth → AdapterHealth
unfolding evidence_entry
blamed_at expiry now key state = record state {
  domains =
      insert key (evidence_entry expiry now (current_evidence (lookup key state.domains) now + 1))
        state.domains;
}

unfoldable pub record_comparative_domain_failure : HealthTable → Time → Text → Text → HealthTable
unfolding update_state blamed_at
record_comparative_domain_failure h now name domain =
    let key = normalize_domain domain in
    if not h.domain_isolation || is_empty key
    then h
    else update_state h name (blamed_at h.domain_isolation_expiry now key)
