-- ===== src/Dns/Fallback.antt =====
-- engine/internal/dns/resolver.go, `resolveUncached`, `recordDoHSuccess`, `recordStrictFailure`,
-- `bindingKey` and `limitText`: the choice between HTTPS and the legacy servers, and the notice that
-- DNS over HTTPS keeps failing on an adapter. The two maps change under the resolver's mutex; the
-- handler is called after it is released.
use hypomux_arch.Prelude.{
  ℕ, zero, suc, ◌+◌, ◌*◌, ◌/◌, ◌%◌, ◌≡◌, refl, Bool, true, false, not, ◌&&◌, List, [], ◌∷◌, ◌++◌,
  Option, none, some, leb, ltb, if◌then◌else◌, length, take,
}
use hypomux_arch.Prelude.Int.{pos}
use hypomux_arch.Prelude.Assoc.{beq, lookup, insert, delete}
use hypomux_arch.Golang.Strings.{Text, text_eq, bytes, trim_space, decimal, itoa}
use hypomux_arch.Dns.Config.{Binding, policy_auto, policy_off}
use hypomux_arch.Dns.Cache.{Result}
pub mod Calls
pub mod Notices

unfoldable pub binding_key : Binding → Text
binding_key binding = binding.name ++ (0 ∷ (binding.source_ip ++ (0 ∷ itoa binding.if_index)))

unfoldable pub limit_text : Text → ℕ → Text
unfolding trim_space
limit_text value maximum =
    let value = trim_space value in if leb (length value) maximum then value else take maximum value

-- The resolver's state that these methods use; `listens` is whether a handler is set.
pub record Failures : Type 0 where
  pub strict_failures : List (Text × ℕ)
  pub fallback_emitted : List (Text × Bool)
  pub listens : Bool

pub record FallbackEvent : Type 0 where
  pub adapter : Text
  pub policy : Text
  pub reason : Text

unfoldable pub record_doh_success : Binding → Failures → Failures
record_doh_success binding s = record s {
  strict_failures = delete (binding_key binding) s.strict_failures;
  fallback_emitted = delete (binding_key binding) s.fallback_emitted;
}

-- A missing key reads as 0, or as false.
abbrev pub count_of : Option ℕ → ℕ
count_of none = 0
count_of (some n) = n

abbrev pub flag_of : Option Bool → Bool
flag_of none = false
flag_of (some b) = b

-- The state left, and the event that the handler is called with, if it is.
unfoldable pub record_strict_failure :
    ℕ → Text → Binding → Text → Failures → Failures × Option FallbackEvent
unfolding limit_text
record_strict_failure threshold policy binding failure s =
    let key = binding_key binding in
    let count = count_of (lookup key s.strict_failures) + 1 in
    let counted = insert key count s.strict_failures in
    let event : FallbackEvent = record {
      adapter = binding.name;
      policy = policy;
      reason = limit_text failure 512;
    } in
    if leb threshold count && not (flag_of (lookup key s.fallback_emitted))
    then (
      record s { strict_failures = counted; fallback_emitted = insert key true s.fallback_emitted },
      if s.listens then some event else none,
    )
    else (record s { strict_failures = counted }, none)

-- What the resolver returns for an answer, with its time to live.
abbrev pub Answer : Type 0
Answer = Result × ℕ

-- What `resolveDoH` comes to: an answer, or an error with its text.
pub data DohOutcome : Type 0 where
  doh_answer : Answer → DohOutcome
  doh_error : Text → DohOutcome

-- A query on a binding: what HTTPS and the legacy servers come to, if they are asked, and whether the
-- query's context is over by then.
pub record Query : Type 0 where
  pub binding : Binding
  pub doh : DohOutcome
  pub cancelled : Bool
  pub legacy : Option Answer

-- `resolveUncached` behind `resolveDoH`; an error is `none`, and its counters are left out.
abbrev pub after_doh :
    ℕ → Text → Query → DohOutcome → Failures → Failures × Option FallbackEvent × Option Answer
after_doh threshold policy q (doh_answer answer) s =
    (record_doh_success q.binding s, none, some answer)
after_doh threshold policy q (doh_error text) s =
    let (s', event) = record_strict_failure threshold policy q.binding text s in
    if q.cancelled
    then (s, none, none)
    else if beq policy policy_auto
    then (s, none, q.legacy)
    else (s', event, none)

unfoldable pub resolve_uncached :
    ℕ → Text → Query → Failures → Failures × Option FallbackEvent × Option Answer
unfolding record_doh_success record_strict_failure
resolve_uncached threshold policy q s =
    if beq policy policy_off then (s, none, q.legacy) else after_doh threshold policy q q.doh s

keyed :
    binding_key (record {
      name = bytes "eth";
      source_ip = bytes "1.2.3.4";
      if_index = pos 120;
      dns_servers = [];
    })
    ≡ bytes "eth" ++ (0 ∷ (bytes "1.2.3.4" ++ (0 ∷ bytes "120")))
unfolding binding_key
keyed = refl
