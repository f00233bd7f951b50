-- ===== src/Proxy/Candidates/Tiering.antt =====
-- The loop of `candidates` (engine/internal/proxy/health.go) against filters of the adapters: what
-- the loop reads of an adapter does not depend on the entries that earlier rounds pruned.
use hypomux_arch.Prelude.{
  ◌≡◌, refl, ◌∙◌, ap, Bool, true, false, not, ◌&&◌, List, [], ◌∷◌, Option, none, some, arith,
  if◌then◌else◌, keep, ◌⊎◌, inl, inr, Option-cases, Bool-cases,
}
use hypomux_arch.Prelude.Assoc.{
  beq, contains, lookup, lookup-insert, lookup-keep, keep_found, Distinct,
}
use hypomux_arch.Golang.Strings.{Text, text_eq, is_empty}
use hypomux_arch.Golang.Time.{Time, after}
use hypomux_arch.Proxy.Adapter.{Adapter}
use hypomux_arch.Proxy.Health.{
  DomainHealth, AdapterHealth, HealthTable, prune_expired_domains, domain_quarantined,
  holds_quarantine, is_live_entry,
}
use hypomux_arch.Proxy.Health.Validity.{IsValid, lookup-Distinct, prune-Distinct}
use hypomux_arch.Proxy.Candidates.{Tiers, visit, file_adapter, classify, cooldown_of}

abbrev pub is_known : Option AdapterHealth → Bool
is_known none = false
is_known (some state) = true

-- The adapter is not excluded and the table knows it.
abbrev pub is_usable : HealthTable → List Text → Adapter → Bool
is_usable h excluded a = not (contains excluded a.name) && is_known (lookup a.name h.adapters)

abbrev pub is_cooling : HealthTable → Time → Adapter → Bool
is_cooling h now a = after (cooldown_of (lookup a.name h.adapters)) now

abbrev quarantine_of : Text → Time → Option AdapterHealth → Bool
quarantine_of domain now none = false
quarantine_of domain now (some state) = domain_quarantined state domain now

abbrev pub is_quarantined : HealthTable → Text → Time → Adapter → Bool
is_quarantined h domain now a = quarantine_of domain now (lookup a.name h.adapters)

-- The four lists as filters of the adapters, by three tests.
abbrev pub tiers_by : (Adapter → Bool) → (Adapter → Bool) → (Adapter → Bool) → List Adapter → Tiers
tiers_by usable cooling quarantined adapters = record {
  healthy = keep (λ a. usable a && (not (cooling a) && not (quarantined a))) adapters;
  domain_fallback = keep (λ a. usable a && not (cooling a)) adapters;
  recovery = keep (λ a. usable a && not (quarantined a)) adapters;
  all = keep usable adapters;
}

abbrev pub tiers_of : HealthTable → List Text → Text → Time → List Adapter → Tiers
tiers_of h excluded domain now =
    tiers_by (is_usable h excluded) (is_cooling h now) (is_quarantined h domain now)

holds_quarantine-keep_found :
    (now : Time) (domain : Text) (entry : Option DomainHealth)
    → holds_quarantine now (keep_found (is_live_entry now) domain entry)
      ≡ holds_quarantine now entry
holds_quarantine-keep_found now domain none = refl
holds_quarantine-keep_found now domain (some entry) = ground arith

-- Pruning drops no quarantine that is in force.
domain_quarantined-prune :
    (state : AdapterHealth) (domain : Text) (now : Time)
    → Distinct state.domains
    → domain_quarantined (prune_expired_domains state now) domain now
      ≡ domain_quarantined state domain now
unfolding domain_quarantined prune_expired_domains
domain_quarantined-prune state domain now d =
    rw (lookup-keep (is_live_entry now) domain state.domains d) (
      ap (λ b. if is_empty domain then false else b)
        (holds_quarantine-keep_found now domain (lookup domain state.domains)))

-- What a round of the loop does to the state of any adapter: nothing, or it is pruned.
abbrev pub Visited : Time → Option AdapterHealth → Option AdapterHealth → Type 0
Visited now old new =
    (new ≡ old)
    ⊎ ((state : AdapterHealth) × (old ≡ some state)
        × (new ≡ some (prune_expired_domains state now)))

pub lookup-visit :
    (h : HealthTable) (excluded : List Text) (now : Time) (a : Adapter) (name : Text)
    → Visited now (lookup name h.adapters) (lookup name (visit h excluded now a).0.adapters)
unfolding visit
lookup-visit h excluded now a name = elim (Bool-cases (contains excluded a.name)) [
  | inl skipped ↦ rw skipped (inl refl)
  | inr wanted ↦ rw wanted (elim (Option-cases (lookup a.name h.adapters)) [
    | inl unknown ↦ rw (unknown, visit) (inl refl)
    | inr (state, found) ↦
        rw (found, visit)
          (elim (Bool-cases (beq a.name name)) [
            | inl same ↦
                let a≡name = (text_eq.beq_iff a.name name).0 same in
                inr (state, rw (← a≡name) found, rw (lookup-insert a.name name _ h.adapters, same))
            | inr other ↦ inl (rw (lookup-insert a.name name _ h.adapters, other))
          ])
  ])
]

pub visit-IsValid :
    (h : HealthTable) (excluded : List Text) (now : Time) (a : Adapter)
    → IsValid h
    → IsValid (visit h excluded now a).0
visit-IsValid h excluded now a valid name = elim (lookup-visit h excluded now a name) [
  | inl unchanged ↦ rw unchanged (valid name)
  | inr (state, found, pruned) ↦
      rw pruned (prune-Distinct state now (lookup-Distinct h.adapters name valid found))
]

-- So the loop's tests on any adapter come out as they would on the table before it.
module _ (h : HealthTable) (excluded : List Text) (now : Time) (a : Adapter)
    (valid : IsValid h) where
  is_usable-visit :
      (b : Adapter) → is_usable (visit h excluded now a).0 excluded b ≡ is_usable h excluded b
  is_usable-visit b = elim (lookup-visit h excluded now a b.name) [
    | inl unchanged ↦ rw unchanged
    | inr (state, found, pruned) ↦ rw (pruned, found)
  ]

  is_cooling-visit :
      (b : Adapter) → is_cooling (visit h excluded now a).0 now b ≡ is_cooling h now b
  unfolding prune_expired_domains
  is_cooling-visit b = elim (lookup-visit h excluded now a b.name) [
    | inl unchanged ↦ rw unchanged
    | inr (state, found, pruned) ↦ rw (pruned, found)
  ]

  is_quarantined-visit :
      (domain : Text) (b : Adapter)
      → is_quarantined (visit h excluded now a).0 domain now b ≡ is_quarantined h domain now b
  is_quarantined-visit domain b = elim (lookup-visit h excluded now a b.name) [
    | inl unchanged ↦ rw unchanged
    | inr (state, found, pruned) ↦
        rw (pruned, found)
          (domain_quarantined-prune state domain now
            (lookup-Distinct h.adapters b.name valid found))
  ]

  tiers_of-visit :
      (domain : Text) (rest : List Adapter)
      → tiers_of (visit h excluded now a).0 excluded domain now rest
        ≡ tiers_of h excluded domain now rest
  tiers_of-visit domain rest = λ i.
      tiers_by (λ b. is_usable-visit b i) (λ b. is_cooling-visit b i)
        (λ b. is_quarantined-visit domain b i) rest

-- What a round adds to the four lists is what the filters keep of its adapter.
file_adapter-tiers_by :
    (h : HealthTable) (excluded : List Text) (domain : Text) (now : Time) (a : Adapter)
    (rest : List Adapter)
    → IsValid h
    → file_adapter now domain a (visit h excluded now a).1 (tiers_of h excluded domain now rest)
      ≡ tiers_of h excluded domain now (a ∷ rest)
unfolding file_adapter visit
file_adapter-tiers_by h excluded domain now a rest valid =
    elim (Bool-cases (contains excluded a.name)) [
      | inl skipped ↦ rw skipped
      | inr wanted ↦ rw wanted (elim (Option-cases (lookup a.name h.adapters)) [
        | inl unknown ↦ rw (unknown, visit)
        | inr (state, found) ↦
            rw (found, visit)
              (rw
                (domain_quarantined-prune state domain now
                  (lookup-Distinct h.adapters a.name valid found))
                refl)
      ])
    ]

-- In a well-formed table the loop's four lists are filters of the adapters, in their order, by tests
-- on the table as it was before the loop: the pruning of one round changes no later test.
pub classify-tiers_of :
    (h : HealthTable) (excluded : List Text) (domain : Text) (now : Time) (adapters : List Adapter)
    → IsValid h
    → (classify h excluded domain now adapters).0 ≡ tiers_of h excluded domain now adapters
unfolding classify
classify-tiers_of h excluded domain now [] valid = refl
classify-tiers_of h excluded domain now (a ∷ rest) valid =
    let h' = (visit h excluded now a).0 in
    let ih = classify-tiers_of h' excluded domain now rest (visit-IsValid h excluded now a valid) in
    rw (ih, tiers_of-visit h excluded now a valid domain rest)
      (file_adapter-tiers_by h excluded domain now a rest valid)

-- The loop moves no cooldown.
pub cooldown-classify :
    (h : HealthTable) (excluded : List Text) (domain : Text) (now : Time) (adapters : List Adapter)
    (name : Text)
    → cooldown_of (lookup name (classify h excluded domain now adapters).1.adapters)
      ≡ cooldown_of (lookup name h.adapters)
unfolding classify
cooldown-classify h excluded domain now [] name = refl
cooldown-classify h excluded domain now (a ∷ rest) name =
    cooldown-classify (visit h excluded now a).0 excluded domain now rest name
    ∙ unmoved (lookup-visit h excluded now a name)
  where
    unmoved :
        {old new : Option AdapterHealth} → Visited now old new → cooldown_of new ≡ cooldown_of old
    unmoved (inl unchanged) = ap cooldown_of unchanged
    unmoved (inr (state, found, pruned)) = rw (found, pruned) refl

pub classify-IsValid :
    (h : HealthTable) (excluded : List Text) (domain : Text) (now : Time) (adapters : List Adapter)
    → IsValid h
    → IsValid (classify h excluded domain now adapters).1
unfolding classify
classify-IsValid h excluded domain now [] valid = valid
classify-IsValid h excluded domain now (a ∷ rest) valid =
    classify-IsValid (visit h excluded now a).0 excluded domain now rest
      (visit-IsValid h excluded now a valid)

-- Nor does it forget an adapter or invent one.
pub is_known-classify :
    (h : HealthTable) (excluded : List Text) (domain : Text) (now : Time) (adapters : List Adapter)
    (name : Text)
    → is_known (lookup name (classify h excluded domain now adapters).1.adapters)
      ≡ is_known (lookup name h.adapters)
unfolding classify
is_known-classify h excluded domain now [] name = refl
is_known-classify h excluded domain now (a ∷ rest) name =
    is_known-classify (visit h excluded now a).0 excluded domain now rest name
    ∙ unmoved (lookup-visit h excluded now a name)
  where
    unmoved : {old new : Option AdapterHealth} → Visited now old new → is_known new ≡ is_known old
    unmoved (inl unchanged) = ap is_known unchanged
    unmoved (inr (state, found, pruned)) = rw (found, pruned) refl
