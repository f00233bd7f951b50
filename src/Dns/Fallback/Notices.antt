-- ===== src/Dns/Fallback/Notices.antt =====
-- How often the handler of engine/internal/dns/resolver.go is told that DNS over HTTPS fails.
use hypomux_arch.Prelude.{
  ℕ, ◌+◌, ◌≤◌, ◌++◌, ◌≡◌, refl, ap, ◌∙◌, Bool, true, false, not, ◌&&◌, ◌||◌, List, [], ◌∷◌, Option,
  none, arith, leb, if◌then◌else◌, All, inl, inr, Bool-cases,
}
use hypomux_arch.Prelude.Assoc.{beq}
use hypomux_arch.Golang.Strings.{Text, text_eq}
use hypomux_arch.Dns.Config.{Binding, policy_auto, policy_off}
use hypomux_arch.Dns.Fallback.{
  binding_key, Failures, FallbackEvent, record_doh_success, record_strict_failure, DohOutcome,
  doh_answer, doh_error, Query, Answer, after_doh, resolve_uncached,
}
use hypomux_arch.Dns.Fallback.Calls.{
  Attempt, succeeded, failed, told, notices, failures, IsNoSuccess, notices_of_calls,
}

-- The call that a query makes, if any, under a policy that asks by HTTPS only.
abbrev call_of : Query → DohOutcome → List Attempt
call_of q (doh_answer answer) = succeeded q.binding ∷ []
call_of q (doh_error text) = if q.cancelled then [] else failed q.binding text ∷ []

abbrev calls : List Query → List Attempt
calls [] = []
calls (q ∷ qs) = call_of q q.doh ++ calls qs

-- How many of the queries cause a notice for the binding.
abbrev pub query_notices : ℕ → Text → Failures → List Query → Binding → ℕ
query_notices threshold policy s [] b = 0
query_notices threshold policy s (q ∷ qs) b =
    let (s', event, answer) = resolve_uncached threshold policy q s in
    (if beq (binding_key q.binding) (binding_key b) then told event else 0)
    + query_notices threshold policy s' qs b

-- Whether HTTPS fails for the query on the binding, and not because the query is over.
abbrev pub fails_on : Binding → Query → DohOutcome → Bool
fails_on b q (doh_answer answer) = false
fails_on b q (doh_error text) = not q.cancelled && beq (binding_key q.binding) (binding_key b)

abbrev pub query_failures : List Query → Binding → ℕ
query_failures [] b = 0
query_failures (q ∷ qs) b = (if fails_on b q q.doh then 1 else 0) + query_failures qs b

-- The query is not answered by HTTPS on the binding.
abbrev pub IsUnanswered : Binding → Query → DohOutcome → Type 0
IsUnanswered b q (doh_answer answer) = beq (binding_key q.binding) (binding_key b) ≡ false
IsUnanswered b q (doh_error text) = Unit

calls-IsNoSuccess :
    (qs : List Query) (b : Binding)
    → All (λ q. IsUnanswered b q q.doh) qs
    → All (IsNoSuccess b) (calls qs)
calls-IsNoSuccess [] b h = tt
calls-IsNoSuccess (q ∷ qs) b h = head q.doh h.0 (calls-IsNoSuccess qs b h.1)
  where
    failing :
        (over : Bool) (text : Text)
        → All (IsNoSuccess b) (calls qs)
        → All (IsNoSuccess b) ((if over then [] else failed q.binding text ∷ []) ++ calls qs)
    failing true text later = later
    failing false text later = (tt, later)

    head :
        (o : DohOutcome)
        → IsUnanswered b q o
        → All (IsNoSuccess b) (calls qs)
        → All (IsNoSuccess b) (call_of q o ++ calls qs)
    head (doh_answer answer) k later = (k, later)
    head (doh_error text) k later = failing q.cancelled text later

failures-calls : (qs : List Query) (b : Binding) → failures (calls qs) b ≡ query_failures qs b
failures-calls [] b = refl
failures-calls (q ∷ qs) b = head q.doh (failures-calls qs b)
  where
    failing :
        (over : Bool) (text : Text)
        → failures (calls qs) b ≡ query_failures qs b
        → failures ((if over then [] else failed q.binding text ∷ []) ++ calls qs) b
          ≡ (if not over && beq (binding_key q.binding) (binding_key b) then 1 else 0)
            + query_failures qs b
    failing true text e = omega (arith, e)
    failing false text e =
        ap (λ n. (if beq (binding_key q.binding) (binding_key b) then 1 else 0) + n) e

    head :
        (o : DohOutcome)
        → failures (calls qs) b ≡ query_failures qs b
        → failures (call_of q o ++ calls qs) b
          ≡ (if fails_on b q o then 1 else 0) + query_failures qs b
    head (doh_answer answer) e = omega (arith, e)
    head (doh_error text) e = failing q.cancelled text e

nothing_told : (same : Bool) (n : ℕ) → (if same then 0 else 0) + n ≡ n
nothing_told same n = ground arith

module _ (threshold : ℕ) (policy : Text) (b : Binding) where
  -- What a query adds to the notices.
  abbrev after_query : List Query → Query → Failures × Option FallbackEvent × Option Answer → ℕ
  after_query qs q (s', event, answer) =
      (if beq (binding_key q.binding) (binding_key b) then told event else 0)
      + query_notices threshold policy s' qs b

  strict_query :
      (qs : List Query) (q : Query) (o : DohOutcome) (s : Failures)
      → beq policy policy_auto ≡ false
      → ((t : Failures)
          → query_notices threshold policy t qs b ≡ notices threshold policy t (calls qs) b)
      → after_query qs q (after_doh threshold policy q o s)
        ≡ notices threshold policy s (call_of q o ++ calls qs) b
  strict_query qs q (doh_answer answer) s strict later =
      nothing_told (beq (binding_key q.binding) (binding_key b)) _
      ∙ later (record_doh_success q.binding s)
  strict_query qs q (doh_error text) s strict later = by_context q.cancelled
    where
      by_context :
          (over : Bool)
          → after_query qs q (
              let (s', event) = record_strict_failure threshold policy q.binding text s in
              if over
              then (s, none, none)
              else if beq policy policy_auto
              then (s, none, q.legacy)
              else (s', event, none))
            ≡ notices threshold policy s
                ((if over then [] else failed q.binding text ∷ []) ++ calls qs)
                b
      by_context true = nothing_told (beq (binding_key q.binding) (binding_key b)) _ ∙ later s
      by_context false =
          let told_now =
            if beq (binding_key q.binding) (binding_key b)
            then told (record_strict_failure threshold policy q.binding text s).1
            else 0 in
          rw strict (
            ap (λ n. told_now + n)
              (later (record_strict_failure threshold policy q.binding text s).0))

  strict_notices :
      (qs : List Query) (s : Failures)
      → beq policy policy_off ≡ false
      → beq policy policy_auto ≡ false
      → query_notices threshold policy s qs b ≡ notices threshold policy s (calls qs) b
  unfolding resolve_uncached
  strict_notices [] s on strict = refl
  strict_notices (q ∷ qs) s on strict =
      ap
        (λ off.
          after_query qs q
            (if off then (s, none, q.legacy) else after_doh threshold policy q q.doh s))
        on
      ∙ strict_query qs q q.doh s strict (λ t. strict_notices qs t on strict)

  lax_query :
      (qs : List Query) (q : Query) (o : DohOutcome) (s : Failures)
      → beq policy policy_auto ≡ true
      → ((t : Failures) → query_notices threshold policy t qs b ≡ 0)
      → after_query qs q (after_doh threshold policy q o s) ≡ 0
  lax_query qs q (doh_answer answer) s lax later =
      nothing_told (beq (binding_key q.binding) (binding_key b)) _
      ∙ later (record_doh_success q.binding s)
  lax_query qs q (doh_error text) s lax later = by_context q.cancelled
    where
      by_context :
          (over : Bool)
          → after_query qs q (
              let (s', event) = record_strict_failure threshold policy q.binding text s in
              if over
              then (s, none, none)
              else if beq policy policy_auto
              then (s, none, q.legacy)
              else (s', event, none))
            ≡ 0
      by_context true = nothing_told (beq (binding_key q.binding) (binding_key b)) _ ∙ later s
      by_context false =
          rw lax (nothing_told (beq (binding_key q.binding) (binding_key b)) _ ∙ later s)

  lax_notices :
      (qs : List Query) (s : Failures)
      → (beq policy policy_off || beq policy policy_auto) ≡ true
      → query_notices threshold policy s qs b ≡ 0
  unfolding resolve_uncached
  lax_notices [] s lax = refl
  lax_notices (q ∷ qs) s lax = elim (Bool-cases (beq policy policy_off)) [
    | inl off ↦
        ap
          (λ x.
            after_query qs q
              (if x then (s, none, q.legacy) else after_doh threshold policy q q.doh s))
          off
        ∙ (nothing_told (beq (binding_key q.binding) (binding_key b)) _ ∙ lax_notices qs s lax)
    | inr on ↦
        ap
          (λ x.
            after_query qs q
              (if x then (s, none, q.legacy) else after_doh threshold policy q q.doh s))
          on
        ∙ lax_query qs q q.doh s (other (beq policy policy_off) on lax) (λ t. lax_notices qs t lax)
  ]
    where
      other : (x : Bool) {y : Bool} → x ≡ false → (x || y) ≡ true → y ≡ true
      other x e h = ground (arith, e, h)

-- Where a handler is set, and after an answer by HTTPS on a binding and until its next one, under a
-- policy other than `off` and `auto`, it is told once of the binding if HTTPS fails for it, in
-- queries that were not over by then, at least as often as the threshold, which is positive, and
-- never if it does not: whatever becomes of queries on other bindings in between. Under `off` and
-- `auto` it is never told.
pub notices_once :
    (threshold : ℕ) (policy : Text) (s : Failures) (qs : List Query) (b : Binding)
    → 1 ≤ threshold
    → s.listens ≡ true
    → All (λ q. IsUnanswered b q q.doh) qs
    → query_notices threshold policy (record_doh_success b s) qs b ≡ (
        if beq policy policy_off || beq policy policy_auto
        then 0
        else if leb threshold (query_failures qs b)
        then 1
        else 0)
notices_once threshold policy s qs b positive listens h =
    elim (Bool-cases (beq policy policy_off || beq policy policy_auto)) [
      | inl lax ↦ rw lax (lax_notices threshold policy b qs (record_doh_success b s) lax)
      | inr strict ↦
          let (on, other) = split (beq policy policy_off) (beq policy policy_auto) strict in
          rw strict (
            strict_notices threshold policy b qs (record_doh_success b s) on other
            ∙ notices_of_calls threshold policy s (calls qs) b positive listens
                (calls-IsNoSuccess qs b h)
            ∙ ap (λ n. if leb threshold n then 1 else 0) (failures-calls qs b))
    ]
  where
    split : (x y : Bool) → (x || y) ≡ false → (x ≡ false) × (y ≡ false)
    split x y h = ground arith
