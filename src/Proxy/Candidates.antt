-- ===== src/Proxy/Candidates.antt =====
-- engine/internal/proxy/health.go, `candidates` and `earliestCooldown`: the adapters that may carry
-- the next connection to a domain. It holds the table's mutex for its whole body, and prunes the
-- state of each adapter that it looks at.
use hypomux_arch.Prelude.{
  ℕ, zero, suc, ◌+◌, Bool, true, false, not, ◌&&◌, ◌||◌, List, [], ◌∷◌, Option, none, some, leb,
  ltb, length, if◌then◌else◌,
}
use hypomux_arch.Prelude.Assoc.{contains, lookup, insert}
use hypomux_arch.Golang.Strings.{Text, text_eq, is_empty}
use hypomux_arch.Golang.Time.{Time, after, before}
use hypomux_arch.Proxy.Adapter.{Adapter}
use hypomux_arch.Proxy.Health.{
  AdapterHealth, HealthTable, normalize_domain, prune_expired_domains, domain_quarantined,
}
pub mod Earliest
pub mod Tiering
pub mod Selection

-- The four lists that `candidates` fills, each in the order of the adapters.
pub record Tiers : Type 0 where
  pub healthy : List Adapter
  pub domain_fallback : List Adapter
  pub recovery : List Adapter
  pub all : List Adapter

abbrev pub no_tiers : Tiers
no_tiers = record { healthy = []; domain_fallback = []; recovery = []; all = [] }

-- The start of the loop's body: the state that is looked at, pruned, or nothing for `continue`.
unfoldable pub visit : HealthTable → List Text → Time → Adapter → HealthTable × Option AdapterHealth
unfolding prune_expired_domains
visit h excluded now a =
    if contains excluded a.name then (h, none) else elim (lookup a.name h.adapters) [
      | none ↦ (h, none)
      | some state ↦
          let state' = prune_expired_domains state now in
          (record h { adapters = insert a.name state' h.adapters }, some state')
    ]

abbrev pub put_if : Bool → Adapter → List Adapter → List Adapter
put_if b a rest = if b then a ∷ rest else rest

-- The rest of the body: the lists that the adapter is put in. The rounds that follow come first
-- here, so each list is built from its end.
unfoldable pub file_adapter : Time → Text → Adapter → Option AdapterHealth → Tiers → Tiers
unfolding domain_quarantined
file_adapter now domain a none t = t
file_adapter now domain a (some state) t =
    let cooling = after state.cooldown_until now in
    let quarantined = domain_quarantined state domain now in
    record {
      healthy = put_if (not cooling && not quarantined) a t.healthy;
      domain_fallback = put_if (not cooling) a t.domain_fallback;
      recovery = put_if (not quarantined) a t.recovery;
      all = a ∷ t.all;
    }

unfoldable pub classify : HealthTable → List Text → Text → Time → List Adapter → Tiers × HealthTable
unfolding visit file_adapter
classify h excluded domain now [] = (no_tiers, h)
classify h excluded domain now (a ∷ rest) =
    let (h', seen) = visit h excluded now a in
    let (tiers, h'') = classify h' excluded domain now rest in
    (file_adapter now domain a seen tiers, h'')

-- `states[name].cooldownUntil`; the adapters looked up here are all in the table, so the zero time
-- of a missing one is never read.
abbrev pub cooldown_of : Option AdapterHealth → Time
cooldown_of none = 0
cooldown_of (some state) = state.cooldown_until

unfoldable pub earliest : List (Text × AdapterHealth) → Adapter → List Adapter → Adapter
earliest states selected [] = selected
earliest states selected (a ∷ rest) =
    earliest states
      (if before (cooldown_of (lookup a.name states)) (cooldown_of (lookup selected.name states))
        then a
        else selected)
      rest

unfoldable pub earliest_cooldown : List Adapter → List (Text × AdapterHealth) → List Adapter
unfolding earliest
earliest_cooldown [] states = []
earliest_cooldown (a ∷ []) states = a ∷ []
earliest_cooldown (a ∷ b ∷ rest) states = earliest states a (b ∷ rest) ∷ []

-- The returns at the end of `candidates`: the first list that is not empty.
unfoldable pub choose_tier : Tiers → List (Text × AdapterHealth) → List Adapter
unfolding earliest_cooldown
choose_tier t states =
    if ltb 0 (length t.healthy)
    then t.healthy
    else if ltb 0 (length t.domain_fallback)
    then t.domain_fallback
    else if ltb 0 (length t.recovery)
    then earliest_cooldown t.recovery states
    else earliest_cooldown t.all states

-- The domain that isolation is applied to: none where it is switched off.
unfoldable pub effective_domain : HealthTable → Text → Text
effective_domain h domain = if h.domain_isolation then normalize_domain domain else []

unfoldable pub candidates :
    HealthTable → Time → List Adapter → List Text → Text → List Adapter × HealthTable
unfolding effective_domain classify choose_tier
candidates h now adapters excluded domain =
    let (tiers, h') = classify h excluded (effective_domain h domain) now adapters in
    (choose_tier tiers h'.adapters, h')
