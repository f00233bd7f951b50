-- ===== src/Proxy/Scheduler/Choice.antt =====
-- What `SelectForDomain` of engine/internal/proxy/scheduler.go promises of the adapter that it
-- returns, weighted or not, and when it returns one.
use hypomux_arch.Prelude.{
  ◌%◌, ◌≤◌, ◌<◌, ◌≡◌, ◌⊎◌, false, refl, subst, ◌∙◌, Bool, true, List, [], ◌∷◌, Option, some, arith,
  length, Memᴰ, inl, inr, Bool-cases, mem_of_get_elem?, get_elem?-eq-some,
}
use hypomux_arch.Prelude.Int.{pos}
use hypomux_arch.Golang.Strings.{Text}
use hypomux_arch.Golang.Time.{Time}
use hypomux_arch.Proxy.Adapter.{Adapter}
use hypomux_arch.Proxy.Health.{HealthTable}
use hypomux_arch.Proxy.Health.Validity.{IsValid}
use hypomux_arch.Proxy.Candidates.{candidates, effective_domain}
use hypomux_arch.Proxy.Candidates.Tiering.{is_usable}
use hypomux_arch.Proxy.Candidates.Selection.{
  rank, mem-candidates, rank-candidates-le, candidates_nonempty,
}
use hypomux_arch.Proxy.Scheduler.{
  Scheduler, new_scheduler, select_weighted, take_turn, pick, select_for_domain,
}
use hypomux_arch.Proxy.Scheduler.Weights.{sum_values, select_weighted-sum_values}
use hypomux_arch.Proxy.Scheduler.Heaviest.{mem-select_weighted}
use native.Mathlib.Nat.{mod-lt}

pub mem-pick :
    (s : Scheduler) (cands : List Adapter) {c : Adapter} → (pick s cands).0 ≡ some c → Memᴰ c cands
unfolding pick
mem-pick s [] e = cc
mem-pick s (first ∷ rest) {c} e = elim (Bool-cases s.weighted) [
  | inl by_weight ↦
      let won : some (select_weighted s.current_weight first rest).0 ≡ some c = rw by_weight at e in
      subst (λ x. Memᴰ x (first ∷ rest)) (cc) (mem-select_weighted s.current_weight first rest)
  | inr by_turn ↦
      let turn : (take_turn s.next (first ∷ rest)).0 ≡ some c = rw by_turn at e in
      mem_of_get_elem? (first ∷ rest) (s.next % length (first ∷ rest)) (unfold take_turn in turn)
]

pick_succeeds :
    (s : Scheduler) (cands : List Adapter)
    → 0 < length cands
    → (c : Adapter) × ((pick s cands).0 ≡ some c)
unfolding pick take_turn
pick_succeeds s [] h = elim h [ ]
pick_succeeds s (first ∷ rest) h = elim (Bool-cases s.weighted) [
  | inl by_weight ↦ ((select_weighted s.current_weight first rest).0, rw by_weight refl)
  | inr by_turn ↦
      let n = length (first ∷ rest) in
      let (c, found) =
        get_elem?-eq-some (first ∷ rest) (s.next % n) (mod-lt s.next (omega arith)) in
      (c, rw by_turn found)
]

-- With a well-formed table, the adapter returned is one of the scheduler's, is not excluded, and is
-- known to the table, whatever the others are; and none of the scheduler's adapters that is not
-- excluded and is known is fitter: not cooling down comes before cooling down, and among equals
-- there, the domain not in quarantine before in quarantine.
pub select_for_domain_fittest :
    (s : Scheduler) (h : HealthTable) (now : Time) (excluded : List Text) (domain : Text)
    (c a : Adapter)
    → IsValid h
    → (select_for_domain s h now excluded domain).0 ≡ some c
    → Memᴰ a s.adapters
    → Memᴰ c s.adapters
      × (is_usable h excluded c ≡ true)
      × ((is_usable h excluded a ≡ false)
          ⊎ (rank h (effective_domain h domain) now c ≤ rank h (effective_domain h domain) now a))
unfolding select_for_domain
select_for_domain_fittest s h now excluded domain c a valid selected listed =
    let m = mem-pick s (candidates h now s.adapters excluded domain).0 selected in
    let (own, fit) = mem-candidates h now s.adapters excluded domain c valid m in
    (
      own,
      fit,
      elim (Bool-cases (is_usable h excluded a)) [
        | inl usable ↦
            inr (rank-candidates-le h now s.adapters excluded domain c a valid m listed usable)
        | inr unusable ↦ inl unusable
      ],
    )

-- While the scheduler has an adapter that the table, well formed, knows and that is not excluded, a
-- selection returns an adapter, whatever cools down or is in quarantine.
pub select_for_domain_succeeds :
    (s : Scheduler) (h : HealthTable) (now : Time) (excluded : List Text) (domain : Text)
    (a : Adapter)
    → IsValid h
    → Memᴰ a s.adapters
    → is_usable h excluded a ≡ true
    → (c : Adapter) × ((select_for_domain s h now excluded domain).0 ≡ some c)
unfolding select_for_domain
select_for_domain_succeeds s h now excluded domain a valid listed usable =
    pick_succeeds s (candidates h now s.adapters excluded domain).0
      (candidates_nonempty h now s.adapters excluded domain a valid listed usable)

pick-sum_values :
    (s : Scheduler) (cands : List Adapter)
    → sum_values (pick s cands).1.current_weight ≡ sum_values s.current_weight
unfolding pick
pick-sum_values s [] = refl
pick-sum_values s (first ∷ rest) = elim (Bool-cases s.weighted) [
  | inl by_weight ↦ rw by_weight (select_weighted-sum_values s.current_weight first rest)
  | inr by_turn ↦ rw by_turn refl
]

select_for_domain-sum_values :
    (s : Scheduler) (h : HealthTable) (now : Time) (excluded : List Text) (domain : Text)
    → sum_values (select_for_domain s h now excluded domain).1.current_weight
      ≡ sum_values s.current_weight
unfolding select_for_domain
select_for_domain-sum_values s h now excluded domain =
    pick-sum_values s (candidates h now s.adapters excluded domain).0

-- The states of a scheduler: as it is made, and after any selections with any tables.
pub data Used (adapters : List Adapter) (weighted : Bool) : Scheduler → Type 0 where
  made :
      (shared : Option HealthTable)
      → Used adapters weighted (new_scheduler adapters weighted shared).0
  used :
      {s : Scheduler} (h : HealthTable) (now : Time) (excluded : List Text) (domain : Text)
      → Used adapters weighted s
      → Used adapters weighted (select_for_domain s h now excluded domain).1

-- Whatever tables, exclusions and domains its selections had, the weights that a scheduler carries
-- over sum to zero.
pub Used-sum_values :
    (adapters : List Adapter) (weighted : Bool) {s : Scheduler}
    → Used adapters weighted s
    → sum_values s.current_weight ≡ pos 0
unfolding new_scheduler
Used-sum_values adapters weighted (made shared) = refl
Used-sum_values adapters weighted (used {s} h now excluded domain u) =
    select_for_domain-sum_values s h now excluded domain ∙ Used-sum_values adapters weighted u
