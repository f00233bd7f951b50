-- ===== src/Proxy/Config/Normal.antt =====
-- What engine/internal/proxy/config.go promises of a configuration that it accepts.
use hypomux_arch.Prelude.{
  ℕ, ◌*◌, ◌≤◌, ◌≡◌, ap, subst, Bool, true, false, not, ◌||◌, ◌&&◌, List, [], ◌∷◌, ltb, ◌==◌, ◌⊎◌,
  inl, inr, arith, All, map, length, Bool-cases,
}
use hypomux_arch.Prelude.Int.{ℤ, pos, ◌≤ℤ◌, ◌<ℤ◌}
use hypomux_arch.Prelude.Assoc.{contains}
use hypomux_arch.Golang.Strings.{Text, text_eq, is_empty, trim_space}
use hypomux_arch.Golang.Time.{Time, second, after}
use hypomux_arch.Golang.Net.{parse_ip}
use hypomux_arch.Golang.Results.{Result, err, ok, and_then-eq-ok, ensure-eq-ok, ok-injective}
use hypomux_arch.Dns.Config as DnsConfig
use hypomux_arch.Dns.Config.{Fault}
use hypomux_arch.Dns.Config.Normal as DnsNormal
use hypomux_arch.Dns.Config.Normal.{clamp_bounds}
use hypomux_arch.Proxy.Health.{DomainQuarantineSeed}
use hypomux_arch.Proxy.Config.{Channel, Config, Refusal, wrap_fault}
use hypomux_arch.Proxy.Config.Adapters.{is_zero_int, nothing_seen, normalize_adapters}
use hypomux_arch.Proxy.Config.Channels.{is_port, has_required, normalize_channels}
use hypomux_arch.Proxy.Config.Normalize.{
  default_host, is_loopback_host, both_or_none, ports_differ, ensure_ports, normal_seed,
  normalize_seeds, normalize_listeners, normalize_config, or_true,
}
use hypomux_arch.Proxy.Config.Listing.{
  IsListed, normalize_adapters-IsListed, length-normalize_adapters,
}
use hypomux_arch.Proxy.Config.Pool.{IsPool, normalize_channels-IsPool}

abbrev pub IsLive : List Text → Time → DomainQuarantineSeed → Type 0
IsLive known now seed =
    (contains known seed.adapter ≡ true)
    × (is_empty seed.domain ≡ false)
    × (after seed.expires_at now ≡ true)

normalize_seeds-IsLive :
    (known : List Text) (expiry : Bool) (now : Time) (given : List DomainQuarantineSeed)
    → All (IsLive known now) (normalize_seeds known expiry now given)
unfolding normalize_seeds
normalize_seeds-IsLive known expiry now [] = tt
normalize_seeds-IsLive known expiry now (g ∷ given) =
    let seed = normal_seed expiry now g in
    let later = normalize_seeds-IsLive known expiry now given in
    elim (Bool-cases (
      not (contains known seed.adapter)
      || is_empty seed.domain
      || not (after seed.expires_at now))) [
        | inl skipped ↦ rw skipped later
        | inr taken ↦ rw taken (
          live (contains known seed.adapter) (is_empty seed.domain) (after seed.expires_at now)
              taken,
          later,
        )
      ]
  where
    live : (a b c : Bool) → (not a || b || not c) ≡ false → (a ≡ true) × (b ≡ false) × (c ≡ true)
    live a b c h = ground arith

ensure_ports-eq-ok :
    (cs : List Channel) (socks http : ℤ) (host : Text) {h : Text}
    → ensure_ports cs socks http (ok host) ≡ ok h
    → host ≡ h
ensure_ports-eq-ok [] socks http host h =
    let (agree, h₁) = ensure-eq-ok (both_or_none socks http) _ _ h in
    ok-injective (ensure-eq-ok (ports_differ socks http) _ _ h₁).1
ensure_ports-eq-ok (c ∷ cs) socks http host h =
    ok-injective (ensure-eq-ok (is_zero_int socks && is_zero_int http) _ _ h).1

normalize_listeners_loopback :
    (c : Config) {host : Text}
    → normalize_listeners c ≡ ok host
    → is_loopback_host (parse_ip host) ≡ true
unfolding normalize_listeners
normalize_listeners_loopback c h =
    let host = default_host (trim_space c.listen_host) in
    let (loopback, h₁) = ensure-eq-ok (is_loopback_host (parse_ip host)) _ _ h in
    let (socks, h₂) = ensure-eq-ok (is_port c.socks_port) _ _ h₁ in
    let (http, h₃) = ensure-eq-ok (is_port c.http_port) _ _ h₂ in
    subst (λ t. is_loopback_host (parse_ip t) ≡ true)
      (ensure_ports-eq-ok c.channels c.socks_port c.http_port host h₃) loopback

wrap_fault-eq-ok :
    (r : Result Fault DnsConfig.Config) {c : DnsConfig.Config} → wrap_fault r ≡ ok c → r ≡ ok c
wrap_fault-eq-ok (err e) h = absurd (err-ne-ok h)
  where
    err-ne-ok :
        {e : Refusal} {c : DnsConfig.Config}
        → ◌≡◌ {A = Result Refusal DnsConfig.Config} (err e) (ok c)
        → ⊥
    err-ne-ok h = cc
wrap_fault-eq-ok (ok c) h = ap ok (ok-injective h)

pub record IsNormal (now : Time) (c : Config) : Type 0 where
  pub loopback : is_loopback_host (parse_ip c.listen_host) ≡ true
  pub count : (1 ≤ length c.adapters) × (length c.adapters ≤ 64)
  pub adapters : IsListed nothing_seen c.adapters
  pub channels : IsPool (map (λ a. a.name) c.adapters) [] c.channels
  pub required : (c.channels ≡ []) ⊎ (has_required c.channels ≡ true)
  pub timeout : (pos 0 <ℤ c.connect_timeout) × (c.connect_timeout ≤ℤ pos (30 * second))
  pub dns : DnsNormal.IsAccepted c.dns
  pub seeds : All (IsLive (map (λ a. a.name) c.adapters) now) c.domain_quarantines

count_bounds : (n m : ℕ) → m ≡ n → not (n == 0) ≡ true → not (ltb 64 n) ≡ true → (1 ≤ m) × (m ≤ 64)
count_bounds n m e h j = ground arith

-- What the proxy is started with: when `normalizeConfig` returns no error, the listeners' address is
-- a loopback address; there are 1 to 64 adapters, with different names, different IPv4
-- addresses, different IPv6 addresses where they have one, weights
-- above 0 and interface indices that are not negative; the channels, if any, include the three
-- baseline ones, have different names, and name known adapters, none twice, and only the direct
-- channel names none; the time limit and the resolver's configuration are within their bounds; and
-- every quarantine is of a known adapter, for a domain, and ends after `now`.
pub normalize_config-IsNormal :
    (now : Time) (c : Config) {c' : Config} → normalize_config now c ≡ ok c' → IsNormal now c'
unfolding normalize_config
normalize_config-IsNormal now c h =
    let (host, listens, h₁) = and_then-eq-ok (normalize_listeners c) _ h in
    let (some_adapter, h₂) = ensure-eq-ok (not (length c.adapters == 0)) _ _ h₁ in
    let (few, h₃) = ensure-eq-ok (not (ltb 64 (length c.adapters))) _ _ h₂ in
    let (adapters, listed, h₄) = and_then-eq-ok (normalize_adapters nothing_seen c.adapters) _ h₃ in
    let (channels, pooled, h₅) = and_then-eq-ok (normalize_channels adapters c.channels) _ h₄ in
    let (dns, resolves, h₆) = and_then-eq-ok (wrap_fault (DnsConfig.normalize_config c.dns)) _ h₅ in
    let (pool, required) = normalize_channels-IsPool adapters c.channels pooled in
    let known = map (λ a. a.name) adapters in
    subst (IsNormal now) (ok-injective h₆) (record {
      loopback = normalize_listeners_loopback c listens;
      count =
          count_bounds (length c.adapters) (length adapters)
            (length-normalize_adapters c.adapters nothing_seen listed) some_adapter few;
      adapters = normalize_adapters-IsListed c.adapters nothing_seen listed;
      channels = pool;
      required = required;
      timeout =
          clamp_bounds (6 * second) (30 * second) c.connect_timeout (omega arith) (omega arith);
      dns = DnsNormal.normalize_config-IsAccepted c.dns (wrap_fault-eq-ok _ resolves);
      seeds =
          normalize_seeds-IsLive known (or_true c.domain_isolation_expiry) now c.domain_quarantines;
    })
