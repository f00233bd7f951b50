-- ===== src/Examples/Serving.antt =====
-- A server of engine/internal/proxy with three channels, from its configuration to a connection.
use hypomux_arch.Prelude.{
  ℕ, ◌*◌, ◌+◌, ◌-◌, ◌==◌, if◌then◌else◌, ◌≡◌, refl, true, false, List, [], ◌∷◌, Option, none, some,
  arith, Memᴰ,
}
use hypomux_arch.Prelude.Int.{ℤ, pos, ◌+ℤ◌}
use hypomux_arch.Prelude.Assoc.{contains}
use hypomux_arch.Golang.Strings.{Text, text_eq, bytes, trim_dot, to_lower, trim_space}
use hypomux_arch.Golang.Time.{second}
use hypomux_arch.Golang.Net.{to4}
use hypomux_arch.Golang.Results.{err, ok}
use hypomux_arch.Dns.Config as DnsConfig
use hypomux_arch.Dns.Config.{default_config}
use hypomux_arch.Dns.Config.Normal as DnsNormal
use hypomux_arch.Proxy.Adapter.{Adapter}
use hypomux_arch.Proxy.Registry.{Session}
use hypomux_arch.Proxy.Scheduler.{weigh}
use hypomux_arch.Proxy.Candidates.{candidates}
use hypomux_arch.Proxy.Dial.{Environment, Clock, dialed, dial_error}
use hypomux_arch.Proxy.Config.{Channel, Config}
use hypomux_arch.Proxy.Config.Normalize.{normalize_config}
use hypomux_arch.Proxy.Config.Normal.{IsNormal, normalize_config-IsNormal}
use hypomux_arch.Proxy.Server.{assemble, new_server, Sockets, listen_channel, start}
use hypomux_arch.Proxy.Server.Channels.{IsShared, channel_share}
use hypomux_arch.Proxy.Server.Connect.{Request, connect}
use hypomux_arch.Proxy.Server.Stopping.{stop-start}
use hypomux_arch.Proxy.Server.{Endpoints, stop}
use hypomux_arch.Golang.Strings.{decimal}
use hypomux_arch.Prelude.{false, ◌++◌, ◌+◌}
use hypomux_arch.Proxy.Server.Routing.{Served, channel_keeps}
use hypomux_arch.Proxy.Server.Listening.{start_fails}

abbrev pub ethernet : Adapter
ethernet = record {
  name = bytes "eth";
  source_ip = bytes "10.0.0.2";
  if_index = pos 3;
  source_ipv6 = [];
  ipv6_if_index = pos 0;
  weight = pos 2;
  dns_servers = [];
}

abbrev pub wifi : Adapter
wifi = record ethernet { name = bytes "wifi"; source_ip = bytes "10.0.1.2"; weight = pos 1 }

abbrev channel : Text → List Text → Channel
channel name names = record { name = name; port = pos 0; adapter_names = names }

abbrev wifi_channel : Channel
wifi_channel = channel (bytes "nic_wifi") (bytes "wifi" ∷ [])

abbrev pool : Config
pool = record {
  listen_host = bytes "127.0.0.1";
  socks_port = pos 0;
  http_port = pos 0;
  weighted = true;
  adapters = ethernet ∷ wifi ∷ [];
  channels =
      channel (bytes "nic_ethernet") (bytes "eth" ∷ [])
      ∷ wifi_channel
      ∷ channel (bytes "aggregation") (bytes "eth" ∷ bytes "wifi" ∷ [])
      ∷ [];
  connect_timeout = pos (6 * second);
  dns = default_config;
  domain_isolation = some true;
  domain_isolation_expiry = some true;
  domain_quarantines = [];
}

dns_normal : DnsConfig.normalize_config default_config ≡ ok default_config
unfolding DnsConfig.normalize_config
dns_normal = refl

normalize_dns_example : DnsNormal.IsAccepted default_config
normalize_dns_example = DnsNormal.normalize_config-IsAccepted default_config dns_normal

pool_normal : normalize_config 5 pool ≡ ok pool
unfolding normalize_config
pool_normal = refl

normalize_config-IsNormal_example : IsNormal 5 pool
normalize_config-IsNormal_example = normalize_config-IsNormal 5 pool pool_normal

made : new_server 5 pool ≡ ok (assemble pool)
unfolding new_server
made = refl

aggregation :
    Memᴰ
      (channel (bytes "aggregation") (bytes "eth" ∷ bytes "wifi" ∷ []))
      (assemble pool).config.channels
unfolding assemble
aggregation = Memᴰ.tail (Memᴰ.tail (Memᴰ.head refl))

has_wifi : Memᴰ wifi (assemble pool).config.adapters
unfolding assemble
has_wifi = Memᴰ.tail (Memᴰ.head refl)

has_wifi_channel : Memᴰ wifi_channel (assemble pool).config.channels
unfolding assemble
has_wifi_channel = Memᴰ.tail (Memᴰ.head refl)

channel_share_example :
    IsShared
      (assemble pool)
      (channel (bytes "aggregation") (bytes "eth" ∷ bytes "wifi" ∷ []))
      wifi
      ethernet
      7
channel_share_example =
    channel_share 5 pool (channel (bytes "aggregation") (bytes "eth" ∷ bytes "wifi" ∷ [])) wifi
      ethernet 7 made refl refl aggregation has_wifi

abbrev pub reachable : Environment
reachable = record { resolve = none; binds = λ a ipv6. true; dial = λ a ip. dialed }

-- Connection refused.
abbrev pub refusing : Environment
refusing = record {
  resolve = some (λ a t. some (bytes "1.2.3.4"));
  binds = λ a ipv6. true;
  dial = λ a ip. dial_error (some 111);
}

abbrev pub ticking : Clock
ticking = record { begins = λ left. 10 + (4 - 2 * left); ends = λ left. 11 + (4 - 2 * left) }

abbrev session : Session
session = record {
  id = 1;
  protocol = bytes "socks5";
  channel = bytes "nic_wifi";
  client = [];
  listener = [];
  started_at = 6;
  target = [];
  remote = [];
  adapter = [];
  direct = false;
  bytes_up = 0;
  bytes_down = 0;
}

abbrev request : Request
request = record {
  target = bytes "1.2.3.4:443";
  host = bytes "1.2.3.4";
  environment = reachable;
  clock = ticking;
  direct = false;
  remote = none;
}

carried : (connect (assemble pool) session request).2 ≡ ok (some wifi)
unfolding connect assemble to4 candidates trim_dot to_lower trim_space weigh ◌+ℤ◌
carried = refl

channel_keeps_example : contains (bytes "wifi" ∷ []) (bytes "wifi") ≡ true
channel_keeps_example =
    channel_keeps 5 pool wifi_channel session request wifi made has_wifi_channel refl
      Served.at_start refl carried

-- The ports of the second channel are all taken.
abbrev sockets : Sockets
sockets = record { calls = 1; opened = 0 ∷ [] }

abbrev crowded : ℕ → Text → ℤ → Option Text
crowded call host port = if call == 1 then some (bytes "127.0.0.1:4000") else none

stopped : (start crowded true (assemble pool) sockets).2 ≡ err (listen_channel (bytes "nic_wifi"))
unfolding start assemble
stopped = refl

start_fails_example :
    ((start crowded true (assemble pool) sockets).1.opened ≡ 0 ∷ [])
    × ((start crowded true (assemble pool) sockets).0.running ≡ (assemble pool).running)
    × ((start crowded true (assemble pool) sockets).0.listeners ≡ (assemble pool).listeners)
start_fails_example =
    start_fails crowded true (assemble pool) sockets (listen_channel (bytes "nic_wifi"))
      (omega arith, tt) stopped

abbrev quiet : ℕ → Text → ℤ → Option Text
quiet call host port = some (bytes "127.0.0.1:" ++ decimal (4000 + call))

abbrev opened_at : Endpoints
opened_at = record {
  socks = [];
  http = [];
  channels =
      (bytes "nic_ethernet", bytes "127.0.0.1:4001")
      ∷ (bytes "nic_wifi", bytes "127.0.0.1:4002")
      ∷ (bytes "aggregation", bytes "127.0.0.1:4003")
      ∷ [];
}

serving : (start quiet true (assemble pool) sockets).2 ≡ ok opened_at
unfolding start assemble
serving = refl

at_rest : (assemble pool).running ≡ false
unfolding assemble
at_rest = refl

stop-start_example :
    (stop
      (start quiet true (assemble pool) sockets).0
      (start quiet true (assemble pool) sockets).1).1.opened
    ≡ 0 ∷ []
stop-start_example =
    stop-start quiet true (assemble pool) sockets opened_at at_rest (omega arith, tt) serving
