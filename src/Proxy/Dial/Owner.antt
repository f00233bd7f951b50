-- ===== src/Proxy/Dial/Owner.antt =====
-- Whose connection the dialling of engine/internal/proxy/dial.go returns.
use hypomux_arch.Prelude.{
  ℕ, zero, suc, ◌≡◌, refl, ap, ◌∙◌, subst, Bool, true, false, List, [], ◌∷◌, Option, none, some,
  inl, inr, Bool-cases, if◌then◌else◌, Memᴰ,
}
use hypomux_arch.Golang.Strings.{Text, text_eq}
use hypomux_arch.Golang.Time.{Time}
use hypomux_arch.Golang.Net.{Ip, parse_ip}
use hypomux_arch.Proxy.Adapter.{Adapter}
use hypomux_arch.Proxy.Health.{HealthTable}
use hypomux_arch.Proxy.Health.Validity.{
  IsValid, record_local_failure-IsValid, record_success-IsValid,
  record_comparative_domain_failure-IsValid,
}
use hypomux_arch.Proxy.Candidates.{candidates, effective_domain}
use hypomux_arch.Proxy.Candidates.Tiering.{classify-IsValid}
use hypomux_arch.Proxy.Candidates.Selection.{mem-candidates}
use hypomux_arch.Proxy.Scheduler.{Scheduler, pick, select_for_domain, mark_failure, mark_success}
use hypomux_arch.Proxy.Scheduler.Choice.{mem-pick}
use hypomux_arch.Proxy.Dial.{
  Environment, Outcome, connected, comparative, local, unrelated, attempt, DialResult, established,
  not_literal, blame, give_up, Failure, Progress, settle_attempt, is_connected, choose, Clock,
  dial_loop, begin, attempts, target_domain, dial_target, dial_upstream,
}

-- The end of a dialling with a scheduler of `adapters`.
abbrev pub IsOwned : Environment → Option Ip → Text → List Adapter → Progress × DialResult → Type 0
IsOwned env target domain adapters (p, r) =
    (p.scheduler.adapters ≡ adapters)
    × IsValid p.health
    × ((a : Adapter)
        → r ≡ established a
        → Memᴰ a adapters × (is_connected (attempt env target domain a) ≡ true))

adapters-pick : (s : Scheduler) (offered : List Adapter) → (pick s offered).1.adapters ≡ s.adapters
unfolding pick
adapters-pick s [] = refl
adapters-pick s (a ∷ rest) = elim (Bool-cases s.weighted) [ inl w ↦ rw w refl | inr t ↦ rw t refl ]

blame-IsValid :
    (now : Time) (domain : Text) (names : List Text) (h : HealthTable)
    → IsValid h
    → IsValid (blame now domain names h)
blame-IsValid now domain [] h valid = valid
blame-IsValid now domain (n ∷ names) h valid =
    blame-IsValid now domain names _
      (record_comparative_domain_failure-IsValid h now n domain valid)

pub settle_attempt-IsValid :
    (now : Time) (domain : Text) (a : Adapter) (o : Outcome) (p : Progress)
    → IsValid p.health
    → IsValid (settle_attempt now domain a o p).health
unfolding settle_attempt mark_failure mark_success
settle_attempt-IsValid now domain a connected p valid =
    blame-IsValid now domain p.comparative_failures _
      (record_success-IsValid p.health now a.name domain valid)
settle_attempt-IsValid now domain a (comparative r) p valid = valid
settle_attempt-IsValid now domain a (local r) p valid =
    record_local_failure-IsValid p.health now a.name valid
settle_attempt-IsValid now domain a (unrelated r) p valid = valid

adapters-settle_attempt :
    (now : Time) (domain : Text) (a : Adapter) (o : Outcome) (p : Progress)
    → (settle_attempt now domain a o p).scheduler ≡ p.scheduler
unfolding settle_attempt
adapters-settle_attempt now domain a connected p = refl
adapters-settle_attempt now domain a (comparative r) p = refl
adapters-settle_attempt now domain a (local r) p = refl
adapters-settle_attempt now domain a (unrelated r) p = refl

pub choose_own :
    (now : Time) (domain : Text) (p : Progress)
    → IsValid p.health
    → ((choose now domain p).1.scheduler.adapters ≡ p.scheduler.adapters)
      × IsValid (choose now domain p).1.health
      × ((a : Adapter) → (choose now domain p).0 ≡ some a → Memᴰ a p.scheduler.adapters)
unfolding choose select_for_domain candidates
choose_own now domain p valid =
    let s = p.scheduler in
    let d = effective_domain p.health domain in
    (
      adapters-pick s (candidates p.health now s.adapters p.excluded domain).0,
      classify-IsValid p.health p.excluded d now s.adapters valid,
      λ a found.
          (mem-candidates p.health now s.adapters p.excluded domain a valid
            (mem-pick s (candidates p.health now s.adapters p.excluded domain).0 found)).0,
    )

give_up-not : (fs : List Failure) (a : Adapter) → give_up fs ≡ established a → ⊥
give_up-not [] a h = cc
give_up-not (f ∷ fs) a h = cc

dial_loop-IsOwned :
    (rounds : ℕ) (env : Environment) (clock : Clock) (target : Option Ip) (domain : Text)
    (p : Progress)
    → IsValid p.health
    → IsOwned env target domain p.scheduler.adapters (dial_loop rounds env clock target domain p)
unfolding dial_loop
dial_loop-IsOwned zero env clock target domain p valid =
    (refl, valid, λ a won. absurd (give_up-not p.failures a won))
dial_loop-IsOwned (suc rounds) env clock target domain p valid =
    let now = clock.begins rounds in
    let (own, valid', listed) = choose_own now domain p valid in
    round (dial_loop-IsOwned rounds env clock target domain) (choose now domain p).1
      (choose now domain p).0 own valid' listed
  where
    ended :
        (b : Bool) (a : Adapter) (p'' : Progress) (rest : Progress × DialResult)
        → is_connected (attempt env target domain a) ≡ b
        → Memᴰ a p.scheduler.adapters
        → p''.scheduler.adapters ≡ p.scheduler.adapters
        → IsValid p''.health
        → IsOwned env target domain p.scheduler.adapters rest
        → IsOwned env target domain p.scheduler.adapters (if b then (p'', established a) else rest)
    ended true a p'' rest e m own valid' owned = (
      own,
      valid',
      λ c won.
          let same : a ≡ c = established-injective won in
          subst
            (λ x. Memᴰ x p.scheduler.adapters × (is_connected (attempt env target domain x) ≡ true))
            same (m, e),
    )
      where
        established-injective : {c : Adapter} → established a ≡ established c → a ≡ c
        established-injective h = cc
    ended false a p'' rest e m own valid' owned = owned

    round :
        ((q : Progress)
          → IsValid q.health
          → IsOwned env target domain q.scheduler.adapters
              (dial_loop rounds env clock target domain q))
        → (p' : Progress) (selected : Option Adapter) → p'.scheduler.adapters ≡ p.scheduler.adapters
        → IsValid p'.health
        → ((a : Adapter) → selected ≡ some a → Memᴰ a p.scheduler.adapters)
        → IsOwned env target domain p.scheduler.adapters (elim selected [
          | none ↦ (p', give_up p'.failures)
          | some a ↦
              let o = attempt env target domain a in
              let p'' = settle_attempt (clock.ends rounds) domain a o p' in
              let rest = dial_loop rounds env clock target domain p'' in
              if is_connected o then (p'', established a) else rest
        ])
    round again p' none own valid' listed =
        (own, valid', λ a won. absurd (give_up-not p'.failures a won))
    round again p' (some a) own valid' listed =
        let now = clock.ends rounds in
        let o = attempt env target domain a in
        let p'' = settle_attempt now domain a o p' in
        let own' = ap (λ s. s.adapters) (adapters-settle_attempt now domain a o p') ∙ own in
        let valid'' = settle_attempt-IsValid now domain a o p' valid' in
        ended (is_connected o) a p'' (dial_loop rounds env clock target domain p'') refl
          (listed a refl) own' valid''
          (subst (λ xs. IsOwned env target domain xs (dial_loop rounds env clock target domain p''))
            own' (again p'' valid''))

dial_target-IsOwned :
    (env : Environment) (clock : Clock) (host : Text) (literal_ip_only : Bool) (s : Scheduler)
    (h : HealthTable) (target : Option Ip)
    → IsValid h
    → IsOwned env target
        (target_domain host target)
        s.adapters
        (dial_target env clock host literal_ip_only s h target)
unfolding dial_target
dial_target-IsOwned env clock host true s h none valid =
    (refl, valid, λ a won. absurd (not_literal-ne won))
  where
    not_literal-ne : {a : Adapter} → not_literal ≡ established a → ⊥
    not_literal-ne h = cc
dial_target-IsOwned env clock host false s h none valid =
    dial_loop-IsOwned (attempts none s) env clock none (target_domain host none) (begin none s h)
      valid
dial_target-IsOwned env clock host literal_ip_only s h (some ip) valid =
    dial_loop-IsOwned (attempts (some ip) s) env clock (some ip) (target_domain host (some ip))
      (begin (some ip) s h) valid

pub dial_upstream-IsOwned :
    (env : Environment) (clock : Clock) (host : Text) (literal_ip_only : Bool) (s : Scheduler)
    (h : HealthTable)
    → IsValid h
    → IsOwned env
        (parse_ip host)
        (target_domain host (parse_ip host))
        s.adapters
        (dial_upstream env clock host literal_ip_only s h)
unfolding dial_upstream
dial_upstream-IsOwned env clock host literal_ip_only s h valid =
    dial_target-IsOwned env clock host literal_ip_only s h (parse_ip host) valid

-- With a well-formed table, a connection that the dialling returns belongs to one of the scheduler's
-- adapters, and the attempt on that adapter did connect.
pub dial_upstream_connects :
    (env : Environment) (clock : Clock) (host : Text) (literal_ip_only : Bool) (s : Scheduler)
    (h : HealthTable) (a : Adapter)
    → IsValid h
    → (dial_upstream env clock host literal_ip_only s h).1 ≡ established a
    → Memᴰ a s.adapters
      × (is_connected (attempt env (parse_ip host) (target_domain host (parse_ip host)) a) ≡ true)
dial_upstream_connects env clock host literal_ip_only s h a valid won =
    (dial_upstream-IsOwned env clock host literal_ip_only s h valid).2 a won
