-- ===== src/Proxy/Candidates/Selection.antt =====
-- What `candidates` of engine/internal/proxy/health.go promises of the adapters that it returns.
use hypomux_arch.Prelude.{
  ℕ, ◌≤◌, ◌<◌, ◌≡◌, ◌⊎◌, refl, subst, ap, true, List, [], ◌∷◌, arith, if◌then◌else◌, ltb, length,
  Memᴰ, inl, inr, ltb→lt, keep-true, mem-keep, mem_of_mem-keep, keep_none,
}
use hypomux_arch.Golang.Strings.{Text, text_eq}
use hypomux_arch.Golang.Time.{Time}
use hypomux_arch.Proxy.Adapter.{Adapter}
use hypomux_arch.Proxy.Health.{AdapterHealth, HealthTable}
use hypomux_arch.Proxy.Health.Validity.{IsValid}
use hypomux_arch.Proxy.Candidates.{
  Tiers, earliest_cooldown, choose_tier, classify, effective_domain, candidates,
}
use hypomux_arch.Proxy.Candidates.Earliest.{
  cooldown, mem-earliest_cooldown, earliest_cooldown-le, earliest_cooldown_nonempty,
}
use hypomux_arch.Proxy.Candidates.Tiering.{
  is_usable, is_cooling, is_quarantined, tiers_of, classify-tiers_of, cooldown-classify,
}

-- How unfit an adapter is: cooling down weighs more than a quarantine of the domain.
abbrev pub rank : HealthTable → Text → Time → Adapter → ℕ
rank h domain now a =
    if is_cooling h now a
    then if is_quarantined h domain now a then 3 else 2
    else if is_quarantined h domain now a
    then 1
    else 0

abbrev Chosen : Tiers → List (Text × AdapterHealth) → List Adapter → Type 0
Chosen t states result =
    (result ≡ t.healthy)
    ⊎ ((t.healthy ≡ []) × (result ≡ t.domain_fallback))
    ⊎ ((t.healthy ≡ []) × (t.domain_fallback ≡ []) × (result ≡ earliest_cooldown t.recovery states))
    ⊎ ((t.healthy ≡ [])
        × (t.domain_fallback ≡ [])
        × (t.recovery ≡ [])
        × (result ≡ earliest_cooldown t.all states))

List-cases {ℓ} : {A : Type ℓ} (xs : List A) → (xs ≡ []) ⊎ (ltb 0 (length xs) ≡ true)
List-cases [] = inl refl
List-cases (x ∷ xs) = inr (ground arith)

Chosen-choose_tier :
    (t : Tiers) (states : List (Text × AdapterHealth)) → Chosen t states (choose_tier t states)
unfolding choose_tier
Chosen-choose_tier t states = elim (List-cases t.healthy) [
  | inr healthy ↦ inl (rw healthy)
  | inl no_healthy ↦ elim (List-cases t.domain_fallback) [
    | inr fallback ↦ inr (inl (no_healthy, rw (no_healthy, fallback)))
    | inl no_fallback ↦ elim (List-cases t.recovery) [
      | inr recovery ↦
          inr (inr (inl (no_healthy, no_fallback, rw (no_healthy, no_fallback, recovery))))
      | inl no_recovery ↦ inr (
          inr
            (inr (no_healthy, no_fallback, no_recovery, rw (no_healthy, no_fallback, no_recovery))))
    ]
  ]
]

module _ (h : HealthTable) (excluded : List Text) (domain : Text) (now : Time)
    (adapters : List Adapter) where
  -- What the choice among the four lists promises, for the tests on the table `h` and the
  -- cooldowns in `states`.
  record IsBest (states : List (Text × AdapterHealth)) (c : Adapter) : Type 0 where
    listed : Memᴰ c adapters
    usable : is_usable h excluded c ≡ true
    fittest :
        (a : Adapter)
        → Memᴰ a adapters
        → is_usable h excluded a ≡ true
        → rank h domain now c ≤ rank h domain now a
    earliest :
        2 ≤ rank h domain now c
        → (a : Adapter) → Memᴰ a adapters
        → is_usable h excluded a ≡ true
        → rank h domain now a ≡ rank h domain now c
        → cooldown states c ≤ cooldown states a

  module _ (states : List (Text × AdapterHealth)) (c : Adapter) where
    IsBest-healthy : Memᴰ c (tiers_of h excluded domain now adapters).healthy → IsBest states c
    IsBest-healthy m =
        let passes = keep-true _ adapters c m in
        record {
          listed = mem_of_mem-keep _ adapters c m;
          usable = ground arith;
          fittest = λ a n u. ground arith;
          earliest = λ high a n u e. absurd (ground arith);
        }

    IsBest-fallback :
        (tiers_of h excluded domain now adapters).healthy ≡ []
        → Memᴰ c (tiers_of h excluded domain now adapters).domain_fallback
        → IsBest states c
    IsBest-fallback no_healthy m =
        let passes = keep-true _ adapters c m in
        record {
          listed = mem_of_mem-keep _ adapters c m;
          usable = ground arith;
          fittest = λ a n u. ground (arith, keep_none _ adapters a no_healthy n);
          earliest = λ high a n u e. absurd (ground arith);
        }

    IsBest-recovery :
        (tiers_of h excluded domain now adapters).domain_fallback ≡ []
        → Memᴰ c (earliest_cooldown (tiers_of h excluded domain now adapters).recovery states)
        → IsBest states c
    IsBest-recovery no_fallback chosen =
        let recovery = (tiers_of h excluded domain now adapters).recovery in
        let m = mem-earliest_cooldown states recovery c chosen in
        let passes = keep-true _ adapters c m in
        let cooling = keep_none _ adapters c no_fallback (mem_of_mem-keep _ adapters c m) in
        record {
          listed = mem_of_mem-keep _ adapters c m;
          usable = ground arith;
          fittest = λ a n u. ground (arith, keep_none _ adapters a no_fallback n);
          earliest = λ high a n u e.
              earliest_cooldown-le states recovery c a chosen
                (mem-keep _ adapters a n (ground (arith, keep_none _ adapters a no_fallback n)));
        }

    IsBest-all :
        (tiers_of h excluded domain now adapters).domain_fallback ≡ []
        → (tiers_of h excluded domain now adapters).recovery ≡ []
        → Memᴰ c (earliest_cooldown (tiers_of h excluded domain now adapters).all states)
        → IsBest states c
    IsBest-all no_fallback no_recovery chosen =
        let all = (tiers_of h excluded domain now adapters).all in
        let m = mem-earliest_cooldown states all c chosen in
        let passes = keep-true (is_usable h excluded) adapters c m in
        record {
          listed = mem_of_mem-keep _ adapters c m;
          usable = passes;
          fittest = λ a n u.
              ground
                (arith, keep_none _ adapters a no_fallback n, keep_none _ adapters a no_recovery n);
          earliest = λ high a n u e.
              earliest_cooldown-le states all c a chosen (mem-keep _ adapters a n u);
        }

mem_rw : {c : Adapter} {xs ys : List Adapter} → xs ≡ ys → Memᴰ c xs → Memᴰ c ys
mem_rw {c} e m = subst (Memᴰ c) e m

IsBest-candidates :
    (h : HealthTable) (now : Time) (adapters : List Adapter) (excluded : List Text) (domain : Text)
    (c : Adapter)
    → IsValid h
    → Memᴰ c (candidates h now adapters excluded domain).0
    → IsBest h excluded
        (effective_domain h domain)
        now
        adapters
        (classify h excluded (effective_domain h domain) now adapters).1.adapters
        c
unfolding candidates
IsBest-candidates h now adapters excluded domain c valid m =
    let d = effective_domain h domain in
    let states = (classify h excluded d now adapters).1.adapters in
    let tiers : (classify h excluded d now adapters).0 ≡ tiers_of h excluded d now adapters =
      classify-tiers_of h excluded d now adapters valid in
    let m' : Memᴰ c (choose_tier (tiers_of h excluded d now adapters) states) =
      mem_rw (ap (λ t. choose_tier t states) tiers) m in
    elim (Chosen-choose_tier (tiers_of h excluded d now adapters) states) [
      | inl e ↦ IsBest-healthy h excluded d now adapters states c (mem_rw e m')
      | inr (inl (none_healthy, e)) ↦
          IsBest-fallback h excluded d now adapters states c none_healthy (mem_rw e m')
      | inr (inr (inl (none_healthy, none_fallback, e))) ↦
          IsBest-recovery h excluded d now adapters states c none_fallback (mem_rw e m')
      | inr (inr (inr (none_healthy, none_fallback, none_recovery, e))) ↦
          IsBest-all h excluded d now adapters states c none_fallback none_recovery (mem_rw e m')
    ]

-- Every candidate is one of the adapters offered, is not excluded, and is known to the table.
pub mem-candidates :
    (h : HealthTable) (now : Time) (adapters : List Adapter) (excluded : List Text) (domain : Text)
    (c : Adapter)
    → IsValid h
    → Memᴰ c (candidates h now adapters excluded domain).0
    → Memᴰ c adapters × (is_usable h excluded c ≡ true)
mem-candidates h now adapters excluded domain c valid m =
    let best = IsBest-candidates h now adapters excluded domain c valid m in
    (best.listed, best.usable)

-- No candidate is less fit than any adapter that could be used: one that cools down is a candidate
-- only where all that could be used cool down, and among adapters alike in that, one whose domain
-- is quarantined only where the domain is quarantined on all of them.
pub rank-candidates-le :
    (h : HealthTable) (now : Time) (adapters : List Adapter) (excluded : List Text) (domain : Text)
    (c a : Adapter)
    → IsValid h
    → Memᴰ c (candidates h now adapters excluded domain).0
    → Memᴰ a adapters
    → is_usable h excluded a ≡ true
    → rank h (effective_domain h domain) now c ≤ rank h (effective_domain h domain) now a
rank-candidates-le h now adapters excluded domain c a valid m n usable =
    (IsBest-candidates h now adapters excluded domain c valid m).fittest a n usable

-- With a well-formed table, a candidate that cools down leaves its cooldown no later than any usable
-- adapter of its rank.
pub cooldown-candidates-le :
    (h : HealthTable) (now : Time) (adapters : List Adapter) (excluded : List Text) (domain : Text)
    (c a : Adapter)
    → IsValid h
    → Memᴰ c (candidates h now adapters excluded domain).0
    → is_cooling h now c ≡ true
    → Memᴰ a adapters
    → is_usable h excluded a ≡ true
    → rank h (effective_domain h domain) now a ≡ rank h (effective_domain h domain) now c
    → cooldown h.adapters c ≤ cooldown h.adapters a
cooldown-candidates-le h now adapters excluded domain c a valid m cooling n usable e =
    let d = effective_domain h domain in
    let best = IsBest-candidates h now adapters excluded domain c valid m in
    let low : 2 ≤ rank h d now c = ground arith in
    omega (
      arith,
      best.earliest low a n usable e,
      cooldown-classify h excluded d now adapters c.name,
      cooldown-classify h excluded d now adapters a.name,
    )

nonempty_of_mem : (a : Adapter) (xs : List Adapter) → Memᴰ a xs → 0 < length xs
nonempty_of_mem a [] m = elim m [ ]
nonempty_of_mem a (x ∷ xs) m = omega arith

choose_tier_nonempty :
    (t : Tiers) (states : List (Text × AdapterHealth))
    → 0 < length t.all
    → 0 < length (choose_tier t states)
unfolding choose_tier
choose_tier_nonempty t states h = elim (List-cases t.healthy) [
  | inr healthy ↦ rw healthy (ltb→lt _ _ healthy)
  | inl no_healthy ↦ elim (List-cases t.domain_fallback) [
    | inr fallback ↦ rw (ap length no_healthy, fallback) (ltb→lt _ _ fallback)
    | inl no_fallback ↦ elim (List-cases t.recovery) [
      | inr recovery ↦
          rw (ap length no_healthy, ap length no_fallback, recovery)
            (earliest_cooldown_nonempty states t.recovery (ltb→lt _ _ recovery))
      | inl no_recovery ↦
          rw (ap length no_healthy, ap length no_fallback, ap length no_recovery)
            (earliest_cooldown_nonempty states t.all h)
    ]
  ]
]

-- Neither cooldowns nor quarantines ever make the choice fail: while one adapter is known and not
-- excluded, there is a candidate.
pub candidates_nonempty :
    (h : HealthTable) (now : Time) (adapters : List Adapter) (excluded : List Text) (domain : Text)
    (a : Adapter)
    → IsValid h
    → Memᴰ a adapters
    → is_usable h excluded a ≡ true
    → 0 < length (candidates h now adapters excluded domain).0
unfolding candidates
candidates_nonempty h now adapters excluded domain a valid m usable =
    let d = effective_domain h domain in
    choose_tier_nonempty (classify h excluded d now adapters).0 _ (
      rw (classify-tiers_of h excluded d now adapters valid)
        (nonempty_of_mem a _ (mem-keep (is_usable h excluded) adapters a m usable)))
