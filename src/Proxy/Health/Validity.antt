-- ===== src/Proxy/Health/Validity.antt =====
-- The well-formedness of the health table of engine/internal/proxy/health.go: in every adapter's
-- state no domain has two entries, as in a Go map.
use hypomux_arch.Prelude.{
  ◌≡◌, Bool, List, [], ◌∷◌, Option, none, some, inl, inr, not, ◌||◌, Option-cases, Bool-cases,
}
use hypomux_arch.Prelude.Assoc.{
  beq, lookup, insert, lookup-insert, Distinct, Distinct-insert, Distinct-keep, Distinct-delete,
}
use hypomux_arch.Golang.Strings.{Text, text_eq, is_empty}
use hypomux_arch.Golang.Time.{Time}
use hypomux_arch.Proxy.Adapter.{Adapter}
use hypomux_arch.Proxy.Health.{
  AdapterHealth, HealthTable, DomainQuarantineSeed, fresh, normalize_domain, register, sow_seed,
  sow, new_health_table_configured, is_live_entry, prune_expired_domains, update_state, failed_at,
  record_local_failure, succeeded_at, blamed_at, record_success, record_comparative_domain_failure,
}

abbrev pub HasDistinctDomains : Option AdapterHealth → Type 0
HasDistinctDomains none = Unit
HasDistinctDomains (some state) = Distinct state.domains

abbrev pub IsValidMap : List (Text × AdapterHealth) → Type 0
IsValidMap m = (name : Text) → HasDistinctDomains (lookup name m)

abbrev pub IsValid : HealthTable → Type 0
IsValid h = IsValidMap h.adapters

pub insert-IsValid :
    (name : Text) (state : AdapterHealth) (m : List (Text × AdapterHealth))
    → IsValidMap m
    → Distinct state.domains
    → IsValidMap (insert name state m)
insert-IsValid name state m valid d other = elim (Bool-cases (beq name other)) [
  | inl same ↦ rw (lookup-insert name other state m, same) d
  | inr differs ↦ rw (lookup-insert name other state m, differs) (valid other)
]

-- The states that a lookup finds.
pub lookup-Distinct :
    (m : List (Text × AdapterHealth)) (name : Text) {state : AdapterHealth}
    → IsValidMap m
    → lookup name m ≡ some state
    → Distinct state.domains
lookup-Distinct m name valid found = rw found at (valid name)

pub prune-Distinct :
    (state : AdapterHealth) (now : Time)
    → Distinct state.domains
    → Distinct (prune_expired_domains state now).domains
unfolding prune_expired_domains
prune-Distinct state now d = Distinct-keep (is_live_entry now) state.domains d

register-IsValid :
    (adapters : List Adapter) (m : List (Text × AdapterHealth))
    → IsValidMap m
    → IsValidMap (register adapters m)
unfolding register
register-IsValid [] m valid = valid
register-IsValid (a ∷ rest) m valid =
    register-IsValid rest (insert a.name fresh m) (insert-IsValid a.name fresh m valid tt)

sow_seed-IsValid :
    (seed : DomainQuarantineSeed) (m : List (Text × AdapterHealth))
    → IsValidMap m
    → IsValidMap (sow_seed seed m)
unfolding sow_seed
sow_seed-IsValid seed m valid = elim (Option-cases (lookup seed.adapter m)) [
  | inl missing ↦ rw (missing, sow_seed) valid
  | inr (state, found) ↦
      rw (found, sow_seed)
        (insert-IsValid seed.adapter _ m valid
          (Distinct-insert _ _ state.domains (lookup-Distinct m seed.adapter valid found)))
]

sow-IsValid :
    (seeds : List DomainQuarantineSeed) (m : List (Text × AdapterHealth))
    → IsValidMap m
    → IsValidMap (sow seeds m)
unfolding sow
sow-IsValid [] m valid = valid
sow-IsValid (seed ∷ seeds) m valid =
    sow-IsValid seeds (sow_seed seed m) (sow_seed-IsValid seed m valid)

pub new_health_table_configured-IsValid :
    (adapters : List Adapter) (isolation expiry : Bool) (seeds : List DomainQuarantineSeed)
    → IsValid (new_health_table_configured adapters isolation expiry seeds)
unfolding new_health_table_configured lookup
new_health_table_configured-IsValid adapters isolation expiry seeds =
    sow-IsValid seeds (register adapters []) (register-IsValid adapters [] (λ name. tt))

update_state-IsValid :
    (h : HealthTable) (name : Text) (change : AdapterHealth → AdapterHealth)
    → ((state : AdapterHealth) → Distinct state.domains → Distinct (change state).domains)
    → IsValid h
    → IsValid (update_state h name change)
unfolding update_state
update_state-IsValid h name change kept valid = elim (Option-cases (lookup name h.adapters)) [
  | inl missing ↦ rw (missing, update_state) valid
  | inr (state, found) ↦
      rw (found, update_state)
        (insert-IsValid name (change state) h.adapters valid
          (kept state (lookup-Distinct h.adapters name valid found)))
]

pub record_local_failure-IsValid :
    (h : HealthTable) (now : Time) (name : Text)
    → IsValid h
    → IsValid (record_local_failure h now name)
unfolding record_local_failure
record_local_failure-IsValid h now name valid =
    update_state-IsValid h name (failed_at now) (λ state d. d) valid

pub record_success-IsValid :
    (h : HealthTable) (now : Time) (name domain : Text)
    → IsValid h
    → IsValid (record_success h now name domain)
unfolding record_success
record_success-IsValid h now name domain valid =
    update_state-IsValid h name (succeeded_at now domain) (λ state d. Distinct-delete _ _ d) valid

pub record_comparative_domain_failure-IsValid :
    (h : HealthTable) (now : Time) (name domain : Text)
    → IsValid h
    → IsValid (record_comparative_domain_failure h now name domain)
unfolding record_comparative_domain_failure
record_comparative_domain_failure-IsValid h now name domain valid =
    let key = normalize_domain domain in
    elim (Bool-cases (not h.domain_isolation || is_empty key)) [
      | inl off ↦ rw off valid
      | inr on ↦ rw on (
          update_state-IsValid h name (blamed_at h.domain_isolation_expiry now key)
            (λ state d. Distinct-insert _ _ _ d) valid)
    ]
