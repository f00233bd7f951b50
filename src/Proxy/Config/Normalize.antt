-- ===== src/Proxy/Config/Normalize.antt =====
-- `normalizeConfig` of engine/internal/proxy/config.go.
use hypomux_arch.Prelude.{
  ◌*◌, Bool, true, false, not, ◌&&◌, ◌||◌, List, [], ◌∷◌, Option, none, some, map, ltb, ◌==◌,
  length, if◌then◌else◌,
}
use hypomux_arch.Prelude.Int.{ℤ, pos, ltb_ℤ}
use hypomux_arch.Prelude.Assoc.{contains}
use hypomux_arch.Golang.Strings.{Text, text_eq, bytes, is_empty, trim_space}
use hypomux_arch.Golang.Time.{Time, second, after, add_century}
use hypomux_arch.Golang.Net.{Ip, parse_ip, is_loopback}
use hypomux_arch.Golang.Results.{Result, ok, and_then, ensure}
use hypomux_arch.Dns.Config as DnsConfig
use hypomux_arch.Dns.Config.{clamp}
use hypomux_arch.Proxy.Health.{DomainQuarantineSeed, normalize_domain}
use hypomux_arch.Proxy.Config.{
  Channel, Config, Refusal, not_loopback, ports_not_both_zero, ports_equal, pool_with_ports,
  invalid_socks_port, invalid_http_port, adapter_required, too_many_adapters, wrap_fault,
}
use hypomux_arch.Proxy.Config.Adapters.{is_zero_int, nothing_seen, normalize_adapters}
use hypomux_arch.Proxy.Config.Channels.{is_port, normalize_channels}

abbrev pub default_host : Text → Text
default_host host = if is_empty host then bytes "127.0.0.1" else host

abbrev pub is_loopback_host : Option Ip → Bool
is_loopback_host none = false
is_loopback_host (some ip) = is_loopback ip

abbrev pub same_port : ℤ → ℤ → Bool
same_port p q = not (ltb_ℤ p q) && not (ltb_ℤ q p)

-- Whether the system is to choose both ports or none of them.
abbrev pub both_or_none : ℤ → ℤ → Bool
both_or_none socks http =
    not (
      (is_zero_int socks && not (is_zero_int http))
      || (is_zero_int http && not (is_zero_int socks)))

abbrev pub ports_differ : ℤ → ℤ → Bool
ports_differ socks http = not (not (is_zero_int socks) && same_port socks http)

-- The ports of the ordinary listeners, that a pool of channels excludes.
abbrev pub ensure_ports : {A : Type 0} → List Channel → ℤ → ℤ → Result Refusal A → Result Refusal A
ensure_ports [] socks http r =
    ensure (both_or_none socks http) ports_not_both_zero
      (ensure (ports_differ socks http) ports_equal r)
ensure_ports (c ∷ cs) socks http r =
    ensure (is_zero_int socks && is_zero_int http) pool_with_ports r

abbrev pub or_true : Option Bool → Bool
or_true none = true
or_true (some b) = b

abbrev pub normal_seed : Bool → Time → DomainQuarantineSeed → DomainQuarantineSeed
normal_seed expiry now seed = record {
  adapter = trim_space seed.adapter;
  domain = normalize_domain seed.domain;
  expires_at = if expiry then seed.expires_at else add_century now;
}

-- The last loop: the quarantines of known adapters that have not expired.
unfoldable pub normalize_seeds :
    List Text → Bool → Time → List DomainQuarantineSeed → List DomainQuarantineSeed
unfolding normalize_domain trim_space add_century
normalize_seeds known expiry now [] = []
normalize_seeds known expiry now (given ∷ rest) =
    let seed = normal_seed expiry now given in
    let seeds = normalize_seeds known expiry now rest in
    if not (contains known seed.adapter) || is_empty seed.domain || not (after seed.expires_at now)
    then seeds
    else seed ∷ seeds

-- The part before the adapters: the host that the listeners use, or an error.
unfoldable pub normalize_listeners : Config → Result Refusal Text
unfolding parse_ip trim_space
normalize_listeners c =
    let host = default_host (trim_space c.listen_host) in
    ensure (is_loopback_host (parse_ip host)) not_loopback (
      ensure (is_port c.socks_port) (invalid_socks_port c.socks_port) (
        ensure (is_port c.http_port) (invalid_http_port c.http_port)
          (ensure_ports c.channels c.socks_port c.http_port (ok host))))

-- `now` is the time that is read for the quarantines.
unfoldable pub normalize_config : Time → Config → Result Refusal Config
unfolding normalize_listeners normalize_adapters normalize_channels normalize_seeds
    DnsConfig.normalize_config
normalize_config now c = and_then (normalize_listeners c) (λ host.
    ensure (not (length c.adapters == 0)) adapter_required (
      ensure (not (ltb 64 (length c.adapters))) too_many_adapters (
        and_then (normalize_adapters nothing_seen c.adapters) (λ adapters.
          and_then (normalize_channels adapters c.channels) (λ channels.
            and_then (wrap_fault (DnsConfig.normalize_config c.dns)) (λ dns.
              let expiry = or_true c.domain_isolation_expiry in
              ok (record c {
                listen_host = host;
                adapters = adapters;
                channels = channels;
                connect_timeout = clamp (pos (6 * second)) (pos (30 * second)) c.connect_timeout;
                dns = dns;
                domain_isolation = some (or_true c.domain_isolation);
                domain_isolation_expiry = some expiry;
                domain_quarantines =
                    normalize_seeds (map (λ a. a.name) adapters) expiry now c.domain_quarantines;
              })))))))
