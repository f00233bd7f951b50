-- ===== src/Proxy/Config.antt =====
-- engine/internal/proxy/config.go: the configuration of the proxy. The children follow
-- `normalizeConfig`: Adapters its loop over the adapters, Channels `normalizeChannels`, Normalize the
-- whole. Durations are nanoseconds; an optional Boolean is a pointer.
use hypomux_arch.Prelude.{ℕ, ◌≡◌, refl, Bool, true, false, List, [], ◌∷◌, Option, none, some, keep}
use hypomux_arch.Prelude.Int.{ℤ}
use hypomux_arch.Prelude.Assoc.{contains}
use hypomux_arch.Golang.Strings.{Text, text_eq, bytes}
use hypomux_arch.Golang.Results.{Result, err, ok}
use hypomux_arch.Dns.Config as DnsConfig
use hypomux_arch.Dns.Config.{Fault}
use hypomux_arch.Proxy.Adapter.{Adapter}
use hypomux_arch.Proxy.Health.{DomainQuarantineSeed}
pub mod Adapters
pub mod Listing
pub mod Channels
pub mod Pool
pub mod Normal
pub mod Normalize

abbrev pub channel_ethernet : Text
channel_ethernet = bytes "nic_ethernet"

abbrev pub channel_wifi : Text
channel_wifi = bytes "nic_wifi"

abbrev pub channel_aggregation : Text
channel_aggregation = bytes "aggregation"

abbrev pub channel_direct : Text
channel_direct = bytes "direct"

pub record Channel : Type 0 where
  pub name : Text
  pub port : ℤ
  pub adapter_names : List Text

pub record Config : Type 0 where
  pub listen_host : Text
  pub socks_port : ℤ
  pub http_port : ℤ
  pub weighted : Bool
  pub adapters : List Adapter
  pub channels : List Channel
  pub connect_timeout : ℤ
  pub dns : DnsConfig.Config
  pub domain_isolation : Option Bool
  pub domain_isolation_expiry : Option Bool
  pub domain_quarantines : List DomainQuarantineSeed

-- The errors, with what their messages quote.
pub data Refusal : Type 0 where
  not_loopback ports_not_both_zero ports_equal pool_with_ports : Refusal
  invalid_socks_port invalid_http_port : ℤ → Refusal
  adapter_required too_many_adapters adapter_name_required : Refusal
  invalid_source invalid_index invalid_ipv6_index : Text → Refusal
  invalid_source_ipv6 unusable_source_ipv6 : Text → Refusal
  dns_fault : Fault → Refusal
  duplicate_adapter duplicate_source duplicate_source_ipv6 : Text → Refusal
  baseline_channels_required channel_name_required missing_required_channel : Refusal
  unsupported_channel duplicate_channel channel_without_adapter : Text → Refusal
  invalid_channel_port : Text → ℤ → Refusal
  duplicate_channel_port : ℤ → Refusal
  direct_with_adapters : Refusal
  unknown_adapter repeated_adapter : Text → Text → Refusal

abbrev pub wrap_fault : {A : Type 0} → Result Fault A → Result Refusal A
wrap_fault (err fault) = err (dns_fault fault)
wrap_fault (ok a) = ok a

unfoldable pub adapters_for_channel : List Adapter → Channel → List Adapter
adapters_for_channel adapters channel = keep (λ a. contains channel.adapter_names a.name) adapters
