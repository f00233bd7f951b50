-- ===== src/Proxy/Config/Adapters.antt =====
-- The loop of `normalizeConfig` of engine/internal/proxy/config.go over the adapters.
use hypomux_arch.Prelude.{Bool, not, ◌&&◌, ◌||◌, List, [], ◌∷◌, Option, none, some, if◌then◌else◌}
use hypomux_arch.Prelude.Int.{ℤ, pos, ltb_ℤ}
use hypomux_arch.Prelude.Assoc.{contains}
use hypomux_arch.Golang.Strings.{Text, text_eq, is_empty, trim_space}
use hypomux_arch.Golang.Net.{
  Ip, parse_ip, to4, ip_string, is_unspecified_v6, is_multicast_v6, is_link_local_v6,
}
use hypomux_arch.Golang.Results.{Result, err, ok, and_then, ensure}
use hypomux_arch.Dns.Config.{Binding, ipv4_of, normalize_binding}
use hypomux_arch.Proxy.Adapter.{Adapter}
use hypomux_arch.Proxy.Config.{
  Refusal, adapter_name_required, invalid_source, invalid_index, invalid_ipv6_index,
  invalid_source_ipv6, unusable_source_ipv6, duplicate_adapter, duplicate_source,
  duplicate_source_ipv6, wrap_fault,
}

abbrev pub trim_adapter : Adapter → Adapter
trim_adapter a = record a {
  name = trim_space a.name;
  source_ip = trim_space a.source_ip;
  source_ipv6 = trim_space a.source_ipv6;
}

abbrev pub with_source : Adapter → Option Ip → Result Refusal Adapter
with_source a none = err (invalid_source a.name)
with_source a (some ip) = ok (record a { source_ip = ip_string ip })

abbrev pub ipv6_of : Option Ip → Option Ip
ipv6_of none = none
ipv6_of (some ip) = elim (to4 ip) [ none ↦ some ip | some v4 ↦ none ]

abbrev pub is_zero_int : ℤ → Bool
is_zero_int i = not (ltb_ℤ i (pos 0)) && not (ltb_ℤ (pos 0) i)

abbrev pub with_ipv6 : Adapter → Option Ip → Result Refusal Adapter
with_ipv6 a none = err (invalid_source_ipv6 a.name)
with_ipv6 a (some ip) =
    ensure (not (is_unspecified_v6 ip || is_multicast_v6 ip || is_link_local_v6 ip))
      (unusable_source_ipv6 a.name)
      (ok (record a {
        source_ipv6 = ip_string ip;
        ipv6_if_index = if is_zero_int a.ipv6_if_index then a.if_index else a.ipv6_if_index;
      }))

abbrev pub normalize_ipv6 : Adapter → Result Refusal Adapter
normalize_ipv6 a =
    if is_empty a.source_ipv6 then ok a else with_ipv6 a (ipv6_of (parse_ip a.source_ipv6))

abbrev pub positive_weight : ℤ → ℤ
positive_weight w = if ltb_ℤ (pos 0) w then w else pos 1

-- `adapterDNSBinding` of dial.go; `normalizeConfig` writes the same out.
abbrev pub adapter_dns_binding : Adapter → Binding
adapter_dns_binding a = record {
  name = a.name;
  source_ip = a.source_ip;
  if_index = a.if_index;
  dns_servers = a.dns_servers;
}

-- The loop's body as far as it looks at one adapter.
unfoldable pub normalize_adapter : Adapter → Result Refusal Adapter
unfolding trim_space parse_ip to4 ip_string normalize_binding
normalize_adapter given =
    let trimmed = trim_adapter given in
    ensure (not (is_empty trimmed.name)) adapter_name_required (
      and_then (with_source trimmed (ipv4_of (parse_ip trimmed.source_ip))) (λ a.
        ensure (not (ltb_ℤ a.if_index (pos 0))) (invalid_index a.name) (
          ensure (not (ltb_ℤ a.ipv6_if_index (pos 0))) (invalid_ipv6_index a.name) (
            and_then (normalize_ipv6 a) (λ b.
              and_then (wrap_fault (normalize_binding (adapter_dns_binding b))) (λ binding.
                ok (record b {
                  weight = positive_weight b.weight;
                  dns_servers = binding.dns_servers;
                })))))))

pub record Seen : Type 0 where
  pub names : List Text
  pub ips : List Text
  pub ipv6s : List Text

abbrev pub nothing_seen : Seen
nothing_seen = record { names = []; ips = []; ipv6s = [] }

-- Its rest, that compares the adapter with those before it.
unfoldable pub enlist : Seen → Adapter → Result Refusal Seen
enlist seen a = ensure (not (contains seen.names a.name)) (duplicate_adapter a.name) (
    ensure (not (contains seen.ips a.source_ip)) (duplicate_source a.source_ip) (
      ensure (is_empty a.source_ipv6 || not (contains seen.ipv6s a.source_ipv6))
        (duplicate_source_ipv6 a.source_ipv6)
        (ok (record {
          names = a.name ∷ seen.names;
          ips = a.source_ip ∷ seen.ips;
          ipv6s = if is_empty a.source_ipv6 then seen.ipv6s else a.source_ipv6 ∷ seen.ipv6s;
        }))))

unfoldable pub normalize_adapters : Seen → List Adapter → Result Refusal (List Adapter)
unfolding normalize_adapter enlist
normalize_adapters seen [] = ok []
normalize_adapters seen (given ∷ rest) = and_then (normalize_adapter given) (λ a.
    and_then (enlist seen a)
      (λ seen'. and_then (normalize_adapters seen' rest) (λ adapters. ok (a ∷ adapters))))
