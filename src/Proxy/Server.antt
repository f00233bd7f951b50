-- ===== src/Proxy/Server.antt =====
-- engine/internal/proxy/server.go: the server that puts the parts together. `New` makes a scheduler
-- for all adapters and one for every channel that has adapters, all on one health table; Start opens
-- the listeners, Stop closes them, and `connect` dials for a session. Sockets are a parameter: the
-- outcome of every call of net.Listen, by its number.
use hypomux_arch.Prelude.{
  ℕ, ◌+◌, ◌≡◌, refl, Bool, true, false, not, List, [], ◌∷◌, ◌++◌, Option, none, some, keep, map,
  ◌==◌, if◌then◌else◌,
}
use hypomux_arch.Prelude.Int.{ℤ, pos, ltb_ℤ}
use hypomux_arch.Prelude.Assoc.{beq, lookup, insert}
use hypomux_arch.Golang.Strings.{Text, text_eq, is_empty}
use hypomux_arch.Golang.Time.{Time}
use hypomux_arch.Golang.Results.{Result, err, ok, and_then}
use hypomux_arch.Proxy.Adapter.{Adapter}
use hypomux_arch.Proxy.Health.{HealthTable, new_health_table_configured}
use hypomux_arch.Proxy.Scheduler.{Scheduler, new_scheduler}
use hypomux_arch.Proxy.Registry.{Registry, Session, new_registry, attach, attach_direct}
use hypomux_arch.Proxy.Dial.{Environment, Clock, Progress, DialResult, established, dial_upstream}
use hypomux_arch.Proxy.Config.{Channel, Config, Refusal, channel_direct, adapters_for_channel}
use hypomux_arch.Proxy.Config.Adapters.{is_zero_int}
use hypomux_arch.Proxy.Config.Normalize.{normalize_config, or_true}
pub mod Listening
pub mod Channels
pub mod Connect
pub mod Routing
pub mod Stopping

pub record Endpoints : Type 0 where
  pub socks : Text
  pub http : Text
  pub channels : List (Text × Text)

abbrev pub no_endpoints : Endpoints
no_endpoints = record { socks = []; http = []; channels = [] }

pub record Server : Type 0 where
  pub config : Config
  pub scheduler : Scheduler
  pub schedulers : List (Text × Scheduler)
  pub health : HealthTable
  pub registry : Registry
  pub has_resolver : Bool
  pub running : Bool
  pub listeners : List ℕ
  pub endpoints : Endpoints

-- The loop of `New` over the channels.
unfoldable pub add_schedulers :
    Config → HealthTable → List Channel → List (Text × Scheduler) → List (Text × Scheduler)
unfolding new_scheduler adapters_for_channel insert
add_schedulers c health [] m = m
add_schedulers c health (channel ∷ rest) m =
    let added =
      insert channel.name
        (new_scheduler (adapters_for_channel c.adapters channel) c.weighted (some health)).0 m in
    add_schedulers c health rest (if beq channel.name channel_direct then m else added)

-- `New` on a configuration that `normalizeConfig` returned.
unfoldable pub assemble : Config → Server
unfolding add_schedulers new_scheduler new_registry new_health_table_configured
assemble c =
    let health =
      new_health_table_configured c.adapters (or_true c.domain_isolation)
        (or_true c.domain_isolation_expiry) c.domain_quarantines in
    record {
      config = c;
      scheduler = (new_scheduler c.adapters c.weighted (some health)).0;
      schedulers = add_schedulers c health c.channels [];
      health = health;
      registry = new_registry c.adapters;
      has_resolver = false;
      running = false;
      listeners = [];
      endpoints = no_endpoints;
    }

unfoldable pub new_server : Time → Config → Result Refusal Server
unfolding normalize_config assemble
new_server now config = and_then (normalize_config now config) (λ c. ok (assemble c))

-- The sockets of the process: how often net.Listen was called, and the listeners that are open.
pub record Sockets : Type 0 where
  pub calls : ℕ
  pub opened : List ℕ

-- What a call of net.Listen comes to, by its number, the host and the port: the address, or an error.
abbrev pub Network : Type 0
Network = ℕ → Text → ℤ → Option Text

abbrev pub listened : Sockets → Option Text → Sockets × Option (ℕ × Text)
listened w none = (record w { calls = w.calls + 1 }, none)
listened w (some address) =
    (record { calls = w.calls + 1; opened = w.calls ∷ w.opened }, some (w.calls, address))

abbrev pub listen : Network → Text → ℤ → Sockets → Sockets × Option (ℕ × Text)
listen network host port w = listened w (network w.calls host port)

abbrev pub close : ℕ → Sockets → Sockets
close id w = record w { opened = keep (λ j. not (j == id)) w.opened }

abbrev pub close_all : List ℕ → Sockets → Sockets
close_all [] w = w
close_all (id ∷ ids) w = close_all ids (close id w)

pub data StartError : Type 0 where
  create_resolver listen_socks listen_http : StartError
  listen_channel : Text → StartError

-- A second call, with port 0, where the port of a channel is taken.
abbrev pub listen_again :
    Network → Text → ℤ → Sockets × Option (ℕ × Text) → Sockets × Option (ℕ × Text)
listen_again network host port (w, some l) = (w, some l)
listen_again network host port (w, none) =
    let again = listen network host (pos 0) w in if is_zero_int port then (w, none) else again

-- The first loop of `startChannelListeners`, with the listeners and the endpoints so far.
unfoldable pub open_channels :
    Network
    → Text
    → List Channel
    → List ℕ
    → List (Text × Text)
    → Sockets
    → Sockets × Result StartError (List ℕ × List (Text × Text))
unfolding insert
open_channels network host [] ids endpoints w = (w, ok (ids, endpoints))
open_channels network host (channel ∷ rest) ids endpoints w =
    let (w', outcome) =
      listen_again network host channel.port (listen network host channel.port w) in
    elim outcome [
      | none ↦ (close_all ids w', err (listen_channel channel.name))
      | some (id, address) ↦
          open_channels network host rest (ids ++ (id ∷ [])) (insert channel.name address endpoints)
            w'
    ]

abbrev pub serve : Server → List ℕ → Endpoints → Server
serve s ids endpoints = record s { listeners = ids; endpoints = endpoints; running = true }

abbrev pub started :
    Server
    → Sockets × Result StartError (List ℕ × List (Text × Text))
    → Server × Sockets × Result StartError Endpoints
started s (w, err e) = (s, w, err e)
started s (w, ok (ids, channels)) =
    let endpoints : Endpoints = record { socks = []; http = []; channels = channels } in
    (serve s ids endpoints, w, ok endpoints)

abbrev pub start_channel_listeners :
    Network → Server → Sockets → Server × Sockets × Result StartError Endpoints
start_channel_listeners network s w =
    started s (open_channels network s.config.listen_host s.config.channels [] [] w)

-- The HTTP listener, once the SOCKS listener is open.
abbrev pub start_http :
    Network → Server → ℕ × Text → Sockets → Server × Sockets × Result StartError Endpoints
start_http network s (socks, address) w =
    let (w', outcome) = listen network s.config.listen_host s.config.http_port w in
    elim outcome [
      | none ↦ (record s { has_resolver = false }, close socks w', err listen_http)
      | some (http, http_address) ↦
          let endpoints : Endpoints = record {
            socks = address;
            http = http_address;
            channels = [];
          } in
          (serve s (socks ∷ http ∷ []) endpoints, w', ok endpoints)
    ]

abbrev pub start_ordinary :
    Network → Server → Sockets → Server × Sockets × Result StartError Endpoints
start_ordinary network s w =
    let (w', outcome) = listen network s.config.listen_host s.config.socks_port w in
    elim outcome [
      | none ↦ (record s { has_resolver = false }, w', err listen_socks)
      | some socks ↦ start_http network s socks w'
    ]

abbrev pub start_listeners :
    List Channel → Network → Server → Sockets → Server × Sockets × Result StartError Endpoints
start_listeners [] network s w = start_ordinary network s w
start_listeners (c ∷ cs) network s w = start_channel_listeners network s w

-- `resolver_made` is the outcome of dns.New.
unfoldable pub start :
    Network → Bool → Server → Sockets → Server × Sockets × Result StartError Endpoints
unfolding open_channels
start network resolver_made s w =
    if s.running
    then (s, w, ok s.endpoints)
    else if not resolver_made
    then (s, w, err create_resolver)
    else start_listeners s.config.channels network (record s { has_resolver = true }) w

-- The state and the sockets that Stop leaves; errors of closing are reported only.
unfoldable pub stop : Server → Sockets → Server × Sockets
stop s w =
    if s.running
    then (record s { running = false; listeners = [] }, close_all s.listeners w)
    else (s, w)
