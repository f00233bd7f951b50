-- ===== src/Proxy/Dial.antt =====
-- engine/internal/proxy/dial.go, `dialUpstream`: a connection to a target by one of the adapters,
-- with a second one if the first fails; and `isLocalConnectFailure` of health.go. The resolver, the
-- platform's `boundNetworkDialer` and the dialling itself are functions of the adapter: a call tries
-- each adapter once. The table's clock is read once when an attempt begins and once when it ends.
-- The code holds a mutex only inside each call of the scheduler and of the table; the model runs one
-- dialling from its start to its end, without those of other goroutines in between.
use hypomux_arch.Prelude.{
  ℕ, zero, suc, ◌+◌, ◌-◌, Bool, true, false, not, ◌&&◌, List, [], ◌∷◌, ◌++◌, Option, none, some,
  ltb, leb, if◌then◌else◌, length,
}
use hypomux_arch.Prelude.Assoc.{contains, nat_eq}
use hypomux_arch.Golang.Strings.{Text, text_eq, is_empty}
use hypomux_arch.Golang.Time.{Time}
use hypomux_arch.Golang.Net.{Ip, parse_ip, to4}
use hypomux_arch.Dns.Query.{RecordType, record_a, record_aaaa}
use hypomux_arch.Proxy.Adapter.{Adapter}
use hypomux_arch.Proxy.Health.{HealthTable, normalize_domain, record_comparative_domain_failure}
use hypomux_arch.Proxy.Scheduler.{Scheduler, select_for_domain, mark_failure, mark_success}
pub mod Attempts
pub mod Blame
pub mod Owner

-- The numbers of Windows and of Unix systems that mean a failure on this side.
abbrev pub local_errnos : List ℕ
local_errnos =
    10022 ∷ 10049 ∷ 10050 ∷ 10051 ∷ 10065 ∷ 1214 ∷ 1231 ∷ 1232 ∷ 49 ∷ 51 ∷ 64 ∷ 65 ∷ 99 ∷ 100 ∷ 101
    ∷ 113 ∷ []

-- An error holds a system's number, or none.
unfoldable pub is_local_connect_failure : Option ℕ → Bool
is_local_connect_failure none = false
is_local_connect_failure (some errno) = contains local_errnos errno

-- Whether the network for the address is the one of IPv6.
abbrev pub needs_ipv6 : Option Ip → Bool
needs_ipv6 none = true
needs_ipv6 (some v4) = false

unfoldable pub is_ipv6_network : Ip → Bool
is_ipv6_network ip = needs_ipv6 (to4 ip)

unfoldable pub adapter_supports_network : Adapter → Bool → Bool
adapter_supports_network a ipv6 =
    if ipv6 then not (is_empty a.source_ipv6) else not (is_empty a.source_ip)

pub data DialAttempt : Type 0 where
  dialed : DialAttempt
  dial_error : Option ℕ → DialAttempt

pub record Environment : Type 0 where
  pub resolve : Option (Adapter → RecordType → Option Text)
  pub binds : Adapter → Bool → Bool
  pub dial : Adapter → Ip → DialAttempt

pub data Reason : Type 0 where
  resolver_unavailable resolve_failed invalid_address no_source_address : Reason
  bind_failed connect_failed : Reason

-- What an attempt on an adapter comes to: a connection, or a failure that may be the domain's, that
-- is the adapter's, or that is held against neither.
pub data Outcome : Type 0 where
  connected : Outcome
  comparative local unrelated : Reason → Outcome

pub data Resolved : Type 0 where
  address : Ip → Resolved
  unresolved : Reason → Resolved

abbrev pub parsed : Option Ip → Resolved
parsed none = unresolved invalid_address
parsed (some ip) = address ip

abbrev pub answered : Option Text → Resolved
answered none = unresolved resolve_failed
answered (some text) = parsed (parse_ip text)

-- An AAAA query follows a failed A query, where the adapter has an IPv6 address.
abbrev pub second_query : (Adapter → RecordType → Option Text) → Adapter → Option Text → Option Text
second_query resolve a (some text) = some text
second_query resolve a none = if not (is_empty a.source_ipv6) then resolve a record_aaaa else none

unfoldable pub resolve_target : Environment → Option Ip → Adapter → Resolved
unfolding parse_ip
resolve_target env (some ip) a = address ip
resolve_target env none a = elim env.resolve [
  | none ↦ unresolved resolver_unavailable
  | some resolve ↦ answered (second_query resolve a (resolve a record_a))
]

-- `named` is whether the target is a domain.
abbrev pub dial_outcome : Bool → DialAttempt → Outcome
dial_outcome named dialed = connected
dial_outcome named (dial_error errno) =
    if is_local_connect_failure errno
    then local connect_failed
    else if named
    then comparative connect_failed
    else unrelated connect_failed

abbrev pub reach : Environment → Bool → Adapter → Resolved → Outcome
reach env named a (unresolved reason) = comparative reason
reach env named a (address ip) =
    let ipv6 = is_ipv6_network ip in
    if not (adapter_supports_network a ipv6)
    then unrelated no_source_address
    else if not (env.binds a ipv6)
    then local bind_failed
    else dial_outcome named (env.dial a ip)

-- The body of the loop behind the selection, apart from what it does to the table.
unfoldable pub attempt : Environment → Option Ip → Text → Adapter → Outcome
unfolding resolve_target is_local_connect_failure adapter_supports_network is_ipv6_network
attempt env target domain a = reach env (not (is_empty domain)) a (resolve_target env target a)

pub record Failure : Type 0 where
  pub adapter : Text
  pub reason : Reason

pub data DialResult : Type 0 where
  established : Adapter → DialResult
  all_failed : List Failure → DialResult
  no_adapter not_literal : DialResult

-- `excluded[name] = struct{}{}`.
abbrev pub exclude : Text → List Text → List Text
exclude name excluded = if contains excluded name then excluded else name ∷ excluded

abbrev pub blame : Time → Text → List Text → HealthTable → HealthTable
blame now domain [] h = h
blame now domain (name ∷ names) h =
    blame now domain names (record_comparative_domain_failure h now name domain)

abbrev pub give_up : List Failure → DialResult
give_up [] = no_adapter
give_up (f ∷ fs) = all_failed (f ∷ fs)

-- What the loop carries from round to round.
pub record Progress : Type 0 where
  pub scheduler : Scheduler
  pub health : HealthTable
  pub excluded : List Text
  pub failures : List Failure
  pub comparative_failures : List Text

abbrev pub fail_with : Progress → Text → Reason → Progress
fail_with p name reason = record p {
  failures = p.failures ++ (record { adapter = name; reason = reason } ∷ []);
}

-- The table and the lists after a round's outcome.
unfoldable pub settle_attempt : Time → Text → Adapter → Outcome → Progress → Progress
unfolding mark_failure mark_success
settle_attempt now domain a connected p = record p {
  health = blame now domain p.comparative_failures (mark_success p.health now a.name domain);
}
settle_attempt now domain a (comparative reason) p = record (fail_with p a.name reason) {
  comparative_failures = p.comparative_failures ++ (a.name ∷ []);
}
settle_attempt now domain a (local reason) p = record (fail_with p a.name reason) {
  health = mark_failure p.health now a.name;
}
settle_attempt now domain a (unrelated reason) p = fail_with p a.name reason

abbrev pub is_connected : Outcome → Bool
is_connected connected = true
is_connected _ = false

-- A round's selection, with the adapter excluded from then on.
unfoldable pub choose : Time → Text → Progress → Option Adapter × Progress
unfolding select_for_domain
choose now domain p =
    let (selected, s, h) = select_for_domain p.scheduler p.health now p.excluded domain in
    (
      selected,
      record p {
        scheduler = s;
        health = h;
        excluded = elim selected [ none ↦ p.excluded | some a ↦ exclude a.name p.excluded ];
      },
    )

-- The clock's readings when a round begins and when it ends, by the rounds left.
pub record Clock : Type 0 where
  pub begins : ℕ → Time
  pub ends : ℕ → Time

unfoldable pub dial_loop :
    ℕ → Environment → Clock → Option Ip → Text → Progress → Progress × DialResult
unfolding choose settle_attempt attempt
dial_loop zero env clock target domain p = (p, give_up p.failures)
dial_loop (suc rounds) env clock target domain p =
    let (selected, p') = choose (clock.begins rounds) domain p in
    elim selected [
      | none ↦ (p', give_up p'.failures)
      | some a ↦
          let o = attempt env target domain a in
          let p'' = settle_attempt (clock.ends rounds) domain a o p' in
          let rest = dial_loop rounds env clock target domain p'' in
          if is_connected o then (p'', established a) else rest
    ]

-- The adapters that have no source address for a literal target.
abbrev pub exclude_unsupported : Bool → List Adapter → List Text → List Text
exclude_unsupported ipv6 [] excluded = excluded
exclude_unsupported ipv6 (a ∷ rest) excluded =
    exclude_unsupported ipv6 rest
      (if adapter_supports_network a ipv6 then excluded else exclude a.name excluded)

abbrev pub initial_excluded : Option Ip → List Adapter → List Text
initial_excluded none adapters = []
initial_excluded (some ip) adapters = exclude_unsupported (is_ipv6_network ip) adapters []

abbrev pub target_domain : Text → Option Ip → Text
target_domain host none = normalize_domain host
target_domain host (some ip) = []

abbrev pub begin : Option Ip → Scheduler → HealthTable → Progress
begin target s h = record {
  scheduler = s;
  health = h;
  excluded = initial_excluded target s.adapters;
  failures = [];
  comparative_failures = [];
}

-- At most two attempts, and no more than there are adapters that are not excluded.
abbrev pub attempts : Option Ip → Scheduler → ℕ
attempts target s =
    let left = length s.adapters - length (initial_excluded target s.adapters) in
    if ltb 2 left then 2 else left

-- `dialUpstream` behind the parsing of the host.
unfoldable pub dial_target :
    Environment → Clock → Text → Bool → Scheduler → HealthTable → Option Ip → Progress × DialResult
unfolding dial_loop normalize_domain
dial_target env clock host literal_ip_only s h none =
    let result =
      dial_loop (attempts none s) env clock none (target_domain host none) (begin none s h) in
    if literal_ip_only then (begin none s h, not_literal) else result
dial_target env clock host literal_ip_only s h (some ip) =
    dial_loop (attempts (some ip) s) env clock (some ip) (target_domain host (some ip))
      (begin (some ip) s h)

-- `dialUpstream` on the host of a target that net.SplitHostPort could split; the port is passed on.
unfoldable pub dial_upstream :
    Environment → Clock → Text → Bool → Scheduler → HealthTable → Progress × DialResult
unfolding dial_target parse_ip
dial_upstream env clock host literal_ip_only s h =
    dial_target env clock host literal_ip_only s h (parse_ip host)
