-- ===== src/Dns/Config.antt =====
-- engine/internal/dns/config.go: the configuration of the resolver, and what `NormalizeConfig` and
-- `NormalizeBinding` make of it.
use hypomux_arch.Prelude.{
  ℕ, ◌*◌, ◌≡◌, refl, Bool, true, false, not, List, [], ◌∷◌, ◌++◌, Option, none, some, if◌then◌else◌,
}
use hypomux_arch.Prelude.Int.{ℤ, pos, ltb_ℤ}
use hypomux_arch.Prelude.Assoc.{beq, contains, lookup}
use Prim.Native.String.{String}
use hypomux_arch.Golang.Strings.{Text, text_eq, bytes, is_empty, trim_space, to_lower}
use hypomux_arch.Golang.Time.{second, minute}
use hypomux_arch.Golang.Net.{Ip, parse_ip, to4, ip_string}
use hypomux_arch.Golang.Results.{Result, err, ok, and_then, ensure}
pub mod Normal

pub record Endpoint : Type 0 where
  pub ip : Text
  pub host : Text
  pub path : Text

-- Durations are nanoseconds.
pub record Config : Type 0 where
  pub policy : Text
  pub legacy_servers : List Text
  pub cache_ttl : ℤ
  pub query_timeout : ℤ
  pub max_cache_entries : ℤ
  pub failure_threshold : ℤ

pub record Binding : Type 0 where
  pub name : Text
  pub source_ip : Text
  pub if_index : ℤ
  pub dns_servers : List Text

pub data Fault : Type 0 where
  unsupported_policy : Text → Fault
  not_ipv4 : Text → Fault
  name_required : Fault
  invalid_source invalid_index : Text → Fault

abbrev pub policy_auto : Text
policy_auto = bytes "auto"

abbrev pub policy_off : Text
policy_off = bytes "off"

abbrev pub policies : List Text
policies = policy_auto ∷ policy_off ∷ bytes "alidns" ∷ bytes "dnspod" ∷ bytes "google" ∷ []

abbrev pub default_legacy_servers : List Text
default_legacy_servers = bytes "223.5.5.5" ∷ bytes "119.29.29.29" ∷ []

abbrev pub doh : String → String → Endpoint
doh ip host = record { ip = bytes ip; host = bytes host; path = bytes "/dns-query" }

abbrev pub provider_endpoints : List (Text × List Endpoint)
provider_endpoints =
    (bytes "alidns", doh "223.5.5.5" "dns.alidns.com" ∷ [])
    ∷ (bytes "dnspod", doh "1.12.12.12" "doh.pub" ∷ doh "120.53.53.53" "doh.pub" ∷ [])
    ∷ (bytes "google", doh "8.8.8.8" "dns.google" ∷ doh "8.8.4.4" "dns.google" ∷ [])
    ∷ []

abbrev pub default_config : Config
default_config = record {
  policy = policy_auto;
  legacy_servers = default_legacy_servers;
  cache_ttl = pos (180 * second);
  query_timeout = pos (4 * second);
  max_cache_entries = pos 1024;
  failure_threshold = pos 3;
}

-- The loops that append a server where it is not yet in the list.
unfoldable pub append_new : List Text → List Text → List Text
append_new result [] = result
append_new result (s ∷ servers) =
    append_new (if contains result s then result else result ++ (s ∷ [])) servers

-- `net.ParseIP` and `To4`, for texts that must be an IPv4 address.
abbrev pub ipv4_of : Option Ip → Option Ip
ipv4_of none = none
ipv4_of (some ip) = to4 ip

abbrev pub canonical : Text → Option Ip → Result Fault (List Text)
canonical text none = err (not_ipv4 text)
canonical text (some ip) = ok (ip_string ip ∷ [])

-- The loop's body in `normalizeIPv4List`: no text for a blank value, else the address as text.
unfoldable pub normalize_server : Text → Result Fault (List Text)
unfolding trim_space parse_ip to4 ip_string
normalize_server value =
    let text = trim_space value in
    if is_empty text then ok [] else canonical text (ipv4_of (parse_ip text))

unfoldable pub normalize_ipv4_list : List Text → List Text → Result Fault (List Text)
unfolding normalize_server append_new
normalize_ipv4_list result [] = ok result
normalize_ipv4_list result (v ∷ values) =
    and_then (normalize_server v) (λ text. normalize_ipv4_list (append_new result text) values)

-- The default for a value that is not positive, and a maximum.
abbrev pub clamp : ℤ → ℤ → ℤ → ℤ
clamp default maximum z =
    if not (ltb_ℤ (pos 0) z) then default else if ltb_ℤ maximum z then maximum else z

abbrev pub normalize_policy : Text → Text
normalize_policy policy =
    let policy = to_lower (trim_space policy) in if is_empty policy then policy_auto else policy

unfoldable pub normalize_config : Config → Result Fault Config
unfolding normalize_ipv4_list append_new to_lower trim_space
normalize_config c =
    let policy = normalize_policy c.policy in
    ensure (contains policies policy) (unsupported_policy policy) (
      and_then (normalize_ipv4_list [] c.legacy_servers) (λ servers. ok (record {
        policy = policy;
        legacy_servers = append_new servers default_legacy_servers;
        cache_ttl = clamp (pos (180 * second)) (pos (24 * (60 * minute))) c.cache_ttl;
        query_timeout = clamp (pos (4 * second)) (pos (30 * second)) c.query_timeout;
        max_cache_entries = clamp (pos 1024) (pos 65536) c.max_cache_entries;
        failure_threshold = clamp (pos 3) (pos 100) c.failure_threshold;
      })))

abbrev pub source_of : Text → Option Ip → Result Fault Text
source_of name none = err (invalid_source name)
source_of name (some ip) = ok (ip_string ip)

unfoldable pub normalize_binding : Binding → Result Fault Binding
unfolding normalize_ipv4_list trim_space parse_ip to4 ip_string
normalize_binding b =
    let name = trim_space b.name in
    ensure (not (is_empty name)) name_required (
      and_then (source_of name (ipv4_of (parse_ip (trim_space b.source_ip)))) (λ source.
        ensure (not (ltb_ℤ b.if_index (pos 0))) (invalid_index name) (
          and_then (normalize_ipv4_list [] b.dns_servers) (λ servers. ok (record {
            name = name;
            source_ip = source;
            if_index = b.if_index;
            dns_servers = servers;
          })))))

abbrev pub found_endpoints : Option (List Endpoint) → List Endpoint
found_endpoints none = []
found_endpoints (some endpoints) = endpoints

abbrev pub endpoints_of : Text → List Endpoint
unfolding lookup
endpoints_of provider = found_endpoints (lookup provider provider_endpoints)

unfoldable pub endpoints : Text → List Endpoint
unfolding lookup endpoints_of
endpoints policy =
    if beq policy policy_auto
    then endpoints_of (bytes "alidns")
      ++ (endpoints_of (bytes "dnspod") ++ endpoints_of (bytes "google"))
    else endpoints_of policy

unfoldable pub legacy_servers_for : Config → Binding → List Text
unfolding append_new
legacy_servers_for config binding = append_new binding.dns_servers config.legacy_servers

servers_found :
    normalize_ipv4_list [] (bytes " 8.8.8.8 " ∷ [] ∷ bytes "::ffff:8.8.8.8" ∷ bytes "1.1.1.1" ∷ [])
    ≡ ok (bytes "8.8.8.8" ∷ bytes "1.1.1.1" ∷ [])
unfolding normalize_ipv4_list
servers_found = refl
