-- ===== src/Proxy/Dial/Blame.antt =====
-- Whom the dialling of engine/internal/proxy/dial.go blames when no adapter reaches the target.
use hypomux_arch.Prelude.{
  ℕ, zero, suc, ◌≡◌, refl, sym, ap, ◌∙◌, Bool, true, false, List, [], ◌∷◌, Option, none, some,
  if◌then◌else◌, inl, inr, Bool-cases, Option-cases,
}
use mathlib.Core.Option
use hypomux_arch.Prelude.Assoc.{beq, lookup, lookup-keep, keep_found}
use hypomux_arch.Golang.Strings.{Text, text_eq}
use hypomux_arch.Golang.Time.{Time}
use hypomux_arch.Golang.Net.{Ip, parse_ip}
use hypomux_arch.Proxy.Adapter.{Adapter}
use hypomux_arch.Proxy.Health.{
  DomainHealth, AdapterHealth, HealthTable, is_live_entry, prune_expired_domains, failed_at,
  record_local_failure,
}
use hypomux_arch.Proxy.Health.Validity.{IsValid, lookup-Distinct, record_local_failure-IsValid}
use hypomux_arch.Proxy.Health.Failures.{lookup-update_state}
use hypomux_arch.Proxy.Candidates.{visit, classify, candidates, effective_domain}
use hypomux_arch.Proxy.Candidates.Tiering.{lookup-visit, visit-IsValid, classify-IsValid}
use hypomux_arch.Proxy.Scheduler.{Scheduler, select_for_domain, mark_failure}
use hypomux_arch.Proxy.Dial.{
  Environment, Outcome, connected, comparative, local, unrelated, attempt, DialResult, established,
  Progress, settle_attempt, is_connected, choose, Clock, dial_loop, begin, attempts, target_domain,
  dial_target, dial_upstream,
}

-- Every entry against a domain was there before.
abbrev pub Within : List (Text × DomainHealth) → List (Text × DomainHealth) → Type 0
Within new old = (key : Text) (e : DomainHealth) → lookup key new ≡ some e → lookup key old ≡ some e

-- No adapter has new evidence against a domain.
abbrev pub NoWorse : HealthTable → HealthTable → Type 0
NoWorse h h' =
    (name : Text) (state' : AdapterHealth)
    → lookup name h'.adapters ≡ some state'
    → (state : AdapterHealth) × (lookup name h.adapters ≡ some state)
      × Within state'.domains state.domains

NoWorse-refl : (h : HealthTable) → NoWorse h h
NoWorse-refl h name state found = (state, found, λ key e there. there)

NoWorse-trans : (h i j : HealthTable) → NoWorse h i → NoWorse i j → NoWorse h j
NoWorse-trans h i j p q name state found =
    let (s₁, found₁, within₁) = q name state found in
    let (s₂, found₂, within₂) = p name s₁ found₁ in
    (s₂, found₂, λ key e there. within₂ key e (within₁ key e there))

prune-Within :
    (h : HealthTable) (now : Time) (name : Text) (state : AdapterHealth)
    → IsValid h
    → lookup name h.adapters ≡ some state
    → Within (prune_expired_domains state now).domains state.domains
unfolding prune_expired_domains
prune-Within h now name state valid found key e there = kept (lookup key state.domains) (
    sym (
      lookup-keep (is_live_entry now) key state.domains
        (lookup-Distinct h.adapters name valid found))
    ∙ there)
  where
    kept : (o : Option DomainHealth) → keep_found (is_live_entry now) key o ≡ some e → o ≡ some e
    kept none h = h
    kept (some d) h = elim (Bool-cases (is_live_entry now (key, d))) [
      | inl live ↦ rw live at h
      | inr gone ↦ let nothing : none ≡ some e = rw gone at h in cc
    ]

visit-NoWorse :
    (h : HealthTable) (excluded : List Text) (now : Time) (a : Adapter)
    → IsValid h
    → NoWorse h (visit h excluded now a).0
visit-NoWorse h excluded now a valid name state' found = elim (lookup-visit h excluded now a name) [
  | inl unchanged ↦ (state', sym unchanged ∙ found, λ key e there. there)
  | inr (state, old, pruned) ↦
      let same : some (prune_expired_domains state now) ≡ some state' = sym pruned ∙ found in
      let equal : prune_expired_domains state now ≡ state' = cc in
      (
        state,
        old,
        λ key e there.
            prune-Within h now name state valid old key e
              (ap (λ s. lookup key s.domains) equal ∙ there),
      )
]

classify-NoWorse :
    (h : HealthTable) (excluded : List Text) (domain : Text) (now : Time) (adapters : List Adapter)
    → IsValid h
    → NoWorse h (classify h excluded domain now adapters).1
unfolding classify
classify-NoWorse h excluded domain now [] valid = NoWorse-refl h
classify-NoWorse h excluded domain now (a ∷ rest) valid =
    let h' = (visit h excluded now a).0 in
    NoWorse-trans h h' (classify h' excluded domain now rest).1
      (visit-NoWorse h excluded now a valid)
      (classify-NoWorse h' excluded domain now rest (visit-IsValid h excluded now a valid))

record_local_failure-NoWorse :
    (h : HealthTable) (now : Time) (name : Text) → NoWorse h (record_local_failure h now name)
unfolding record_local_failure failed_at
record_local_failure-NoWorse h now name other state' found =
    changed (beq name other) (lookup other h.adapters) refl
      (sym (lookup-update_state h name other (failed_at now)) ∙ found)
  where
    changed :
        (same : Bool) (o : Option AdapterHealth)
        → lookup other h.adapters ≡ o
        → (if same then Option.map (failed_at now) o else o) ≡ some state'
        → (state : AdapterHealth) × (lookup other h.adapters ≡ some state)
          × Within state'.domains state.domains
    changed false o e h = (state', e ∙ h, λ key d there. there)
    changed true none e h = absurd (none-ne-some h)
      where
        none-ne-some : none ≡ some state' → ⊥
        none-ne-some h = cc
    changed true (some state) e h =
        let equal : failed_at now state ≡ state' = cc in
        (state, e, λ key d there. ap (λ s. lookup key s.domains) equal ∙ there)

-- The selection of a round.
choose-NoWorse :
    (now : Time) (domain : Text) (p : Progress)
    → IsValid p.health
    → NoWorse p.health (choose now domain p).1.health × IsValid (choose now domain p).1.health
unfolding choose select_for_domain candidates
choose-NoWorse now domain p valid =
    let d = effective_domain p.health domain in
    (
      classify-NoWorse p.health p.excluded d now p.scheduler.adapters valid,
      classify-IsValid p.health p.excluded d now p.scheduler.adapters valid,
    )

abbrev pub is_established : DialResult → Bool
is_established (established a) = true
is_established _ = false

dial_loop-NoWorse :
    (rounds : ℕ) (env : Environment) (clock : Clock) (target : Option Ip) (domain : Text)
    (p : Progress)
    → IsValid p.health
    → let (p', result) = dial_loop rounds env clock target domain p in
      is_established result ≡ false → NoWorse p.health p'.health
unfolding dial_loop settle_attempt mark_failure
dial_loop-NoWorse zero env clock target domain p valid = λ h. NoWorse-refl p.health
dial_loop-NoWorse (suc rounds) env clock target domain p valid =
    let (selected, p') = choose (clock.begins rounds) domain p in
    let (better, valid') = choose-NoWorse (clock.begins rounds) domain p valid in
    elim (Option-cases selected) [
      | inl nobody ↦ rw (nobody, dial_loop) (λ h. better)
      | inr (a, someone) ↦
          rw (someone, dial_loop)
            (after (dial_loop-NoWorse rounds env clock target domain) a
              (attempt env target domain a) p' better valid')
    ]
  where
    after :
        ((q : Progress)
          → IsValid q.health
          → is_established (dial_loop rounds env clock target domain q).1 ≡ false
          → NoWorse q.health (dial_loop rounds env clock target domain q).0.health)
        → (a : Adapter) (o : Outcome) (p' : Progress) → NoWorse p.health p'.health
        → IsValid p'.health
        → let p'' = settle_attempt (clock.ends rounds) domain a o p' in
          let (q, result) =
            if is_connected o
            then (p'', established a)
            else dial_loop rounds env clock target domain p'' in
          is_established result ≡ false → NoWorse p.health q.health
    after again a connected p' better valid' h = cc
    after again a (comparative reason) p' better valid' h =
        let p'' = settle_attempt (clock.ends rounds) domain a (comparative reason) p' in
        NoWorse-trans p.health p'.health (dial_loop rounds env clock target domain p'').0.health
          better (again p'' valid' h)
    after again a (unrelated reason) p' better valid' h =
        let p'' = settle_attempt (clock.ends rounds) domain a (unrelated reason) p' in
        NoWorse-trans p.health p'.health (dial_loop rounds env clock target domain p'').0.health
          better (again p'' valid' h)
    after again a (local reason) p' better valid' h =
        let now = clock.ends rounds in
        let p'' = settle_attempt now domain a (local reason) p' in
        NoWorse-trans p.health p'.health (dial_loop rounds env clock target domain p'').0.health
          better
          (NoWorse-trans p'.health p''.health
            (dial_loop rounds env clock target domain p'').0.health
            (record_local_failure-NoWorse p'.health now a.name)
            (again p'' (record_local_failure-IsValid p'.health now a.name valid') h))

dial_target-NoWorse :
    (env : Environment) (clock : Clock) (host : Text) (literal_ip_only : Bool) (s : Scheduler)
    (h : HealthTable)
    → IsValid h
    → (target : Option Ip)
    → is_established (dial_target env clock host literal_ip_only s h target).1 ≡ false
    → NoWorse h (dial_target env clock host literal_ip_only s h target).0.health
unfolding dial_target
dial_target-NoWorse env clock host true s h valid none e = NoWorse-refl h
dial_target-NoWorse env clock host false s h valid none e =
    dial_loop-NoWorse (attempts none s) env clock none (target_domain host none) (begin none s h)
      valid e
dial_target-NoWorse env clock host literal_ip_only s h valid (some ip) e =
    dial_loop-NoWorse (attempts (some ip) s) env clock (some ip) (target_domain host (some ip))
      (begin (some ip) s h) valid e

dial_upstream-NoWorse :
    (env : Environment) (clock : Clock) (host : Text) (literal_ip_only : Bool) (s : Scheduler)
    (h : HealthTable)
    → IsValid h
    → is_established (dial_upstream env clock host literal_ip_only s h).1 ≡ false
    → NoWorse h (dial_upstream env clock host literal_ip_only s h).0.health
unfolding dial_upstream
dial_upstream-NoWorse env clock host literal_ip_only s h valid =
    dial_target-NoWorse env clock host literal_ip_only s h valid (parse_ip host)

-- A target that no adapter reaches is held against none: when a dialling on a well-formed table ends
-- without a connection, every entry that the table then has against a domain, for whatever adapter,
-- was there before.
pub dial_upstream_spares :
    (env : Environment) (clock : Clock) (host : Text) (literal_ip_only : Bool) (s : Scheduler)
    (h : HealthTable) (name : Text) (state' : AdapterHealth) (key : Text) (entry : DomainHealth)
    → IsValid h
    → is_established (dial_upstream env clock host literal_ip_only s h).1 ≡ false
    → lookup name (dial_upstream env clock host literal_ip_only s h).0.health.adapters ≡ some state'
    → lookup key state'.domains ≡ some entry
    → (state : AdapterHealth) × (lookup name h.adapters ≡ some state)
      × (lookup key state.domains ≡ some entry)
dial_upstream_spares env clock host literal_ip_only s h name state' key entry valid failed found
      there =
    let (state, old, within) =
      dial_upstream-NoWorse env clock host literal_ip_only s h valid failed name state' found in
    (state, old, within key entry there)
