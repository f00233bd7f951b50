-- ===== src/Proxy/Health/Reachable.antt =====
-- The health tables that the proxy can come to hold: every one is made by
-- `newHealthTableConfigured` and changed by the table's methods alone.
use hypomux_arch.Prelude.{
  ◌≡◌, refl, ◌∙◌, Bool, true, false, not, ◌||◌, List, [], ◌∷◌, Option, none, some, if◌then◌else◌,
  map, ◌⊎◌, inl, inr, Option-cases, Bool-cases,
}
use mathlib.Core.Option
use hypomux_arch.Prelude.Assoc.{beq, contains, lookup, insert, lookup-insert}
use hypomux_arch.Golang.Strings.{Text, text_eq, is_empty}
use hypomux_arch.Golang.Time.{Time}
use hypomux_arch.Proxy.Adapter.{Adapter}
use hypomux_arch.Proxy.Health.{
  AdapterHealth, HealthTable, DomainQuarantineSeed, fresh, normalize_domain, register, sow_seed,
  sow, new_health_table_configured, update_state, failed_at, record_local_failure, succeeded_at,
  record_success, blamed_at, record_comparative_domain_failure,
}
use hypomux_arch.Proxy.Health.Failures.{lookup-update_state}
use hypomux_arch.Proxy.Candidates.{candidates, effective_domain}
use hypomux_arch.Proxy.Candidates.Tiering.{is_known, is_known-classify}

-- The tables that a proxy over the given adapters can hold.
pub data Reachable (adapters : List Adapter) : HealthTable → Type 0 where
  made :
      (isolation expiry : Bool) (seeds : List DomainQuarantineSeed)
      → Reachable adapters (new_health_table_configured adapters isolation expiry seeds)
  asked :
      {h : HealthTable} (now : Time) (offered : List Adapter) (excluded : List Text) (domain : Text)
      → Reachable adapters h
      → Reachable adapters (candidates h now offered excluded domain).1
  failed :
      {h : HealthTable} (now : Time) (name : Text)
      → Reachable adapters h
      → Reachable adapters (record_local_failure h now name)
  succeeded :
      {h : HealthTable} (now : Time) (name domain : Text)
      → Reachable adapters h
      → Reachable adapters (record_success h now name domain)
  blamed :
      {h : HealthTable} (now : Time) (name domain : Text)
      → Reachable adapters h
      → Reachable adapters (record_comparative_domain_failure h now name domain)

abbrev names : List Adapter → List Text
names = map (λ a. a.name)

is_known-register :
    (adapters : List Adapter) (m : List (Text × AdapterHealth)) (name : Text)
    → is_known (lookup name (register adapters m))
      ≡ (contains (names adapters) name || is_known (lookup name m))
unfolding register
is_known-register [] m name = refl
is_known-register (a ∷ rest) m name =
    rw (is_known-register rest (insert a.name fresh m) name, lookup-insert a.name name fresh m)
      (cases (beq a.name name) (contains (names rest) name) (lookup name m))
  where
    cases :
        (same later : Bool) (o : Option AdapterHealth)
        → (later || is_known (if same then some fresh else o))
          ≡ ((if same then true else later) || is_known o)
    cases true true o = refl
    cases true false o = refl
    cases false later o = refl

is_known-insert :
    (name other : Text) (state : AdapterHealth) (m : List (Text × AdapterHealth))
    → is_known (lookup name m) ≡ true
    → is_known (lookup other (insert name state m)) ≡ is_known (lookup other m)
is_known-insert name other state m known = elim (Bool-cases (beq name other)) [
  | inl same ↦
      rw (lookup-insert name other state m, same)
        (rw (← (text_eq.beq_iff name other).0 same) (rw known))
  | inr differs ↦ rw (lookup-insert name other state m, differs)
]

is_known-sow :
    (seeds : List DomainQuarantineSeed) (m : List (Text × AdapterHealth)) (name : Text)
    → is_known (lookup name (sow seeds m)) ≡ is_known (lookup name m)
unfolding sow sow_seed
is_known-sow [] m name = refl
is_known-sow (seed ∷ seeds) m name =
    is_known-sow seeds (sow_seed seed m) name ∙ step (Option-cases (lookup seed.adapter m))
  where
    step :
        (lookup seed.adapter m ≡ none)
          ⊎ ((state : AdapterHealth) × (lookup seed.adapter m ≡ some state))
        → is_known (lookup name (sow_seed seed m)) ≡ is_known (lookup name m)
    step (inl missing) = rw (missing, sow_seed) refl
    step (inr (state, found)) =
        rw (found, sow_seed) (is_known-insert seed.adapter name _ m (rw found))

is_known-update_state :
    (h : HealthTable) (name other : Text) (change : AdapterHealth → AdapterHealth)
    → is_known (lookup other (update_state h name change).adapters)
      ≡ is_known (lookup other h.adapters)
is_known-update_state h name other change =
    rw (lookup-update_state h name other change) (cases (beq name other) (lookup other h.adapters))
  where
    cases :
        (same : Bool) (o : Option AdapterHealth)
        → is_known (if same then Option.map change o else o) ≡ is_known o
    cases true none = refl
    cases true (some state) = refl
    cases false o = refl

is_known-blamed :
    (h : HealthTable) (now : Time) (name domain other : Text)
    → is_known (lookup other (record_comparative_domain_failure h now name domain).adapters)
      ≡ is_known (lookup other h.adapters)
unfolding record_comparative_domain_failure
is_known-blamed h now name domain other =
    elim (Bool-cases (not h.domain_isolation || is_empty (normalize_domain domain))) [
      | inl off ↦ rw off
      | inr on ↦ rw on (
          is_known-update_state h name other
            (blamed_at h.domain_isolation_expiry now (normalize_domain domain)))
    ]

-- In every table that the methods can lead to, the adapters known are by name exactly those that
-- the table was made for.
pub Reachable-known :
    (adapters : List Adapter) {h : HealthTable} (name : Text)
    → Reachable adapters h
    → is_known (lookup name h.adapters) ≡ contains (map (λ a. a.name) adapters) name
unfolding candidates new_health_table_configured lookup record_local_failure record_success
Reachable-known adapters name (made isolation expiry seeds) =
    is_known-sow seeds (register adapters []) name
    ∙ is_known-register adapters [] name
    ∙ or_false (contains (names adapters) name)
  where
    or_false : (b : Bool) → (b || false) ≡ b
    or_false true = refl
    or_false false = refl
Reachable-known adapters name (asked {h} now offered excluded domain r) =
    is_known-classify h excluded (effective_domain h domain) now offered name
    ∙ Reachable-known adapters name r
Reachable-known adapters name (failed {h} now other r) =
    is_known-update_state h other name (failed_at now) ∙ Reachable-known adapters name r
Reachable-known adapters name (succeeded {h} now other domain r) =
    is_known-update_state h other name (succeeded_at now domain) ∙ Reachable-known adapters name r
Reachable-known adapters name (blamed {h} now other domain r) =
    is_known-blamed h now other domain name ∙ Reachable-known adapters name r
