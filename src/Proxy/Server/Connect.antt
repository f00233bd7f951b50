-- ===== src/Proxy/Server/Connect.antt =====
-- engine/internal/proxy/server.go, `connect`: the connection to a target for a session, by the
-- scheduler of its channel, and what it enters in the registry.
use hypomux_arch.Prelude.{Bool, true, false, Option, none, some, if◌then◌else◌}
use hypomux_arch.Prelude.Assoc.{beq, lookup, insert}
use hypomux_arch.Golang.Strings.{Text, text_eq, is_empty}
use hypomux_arch.Golang.Results.{Result, err, ok}
use hypomux_arch.Proxy.Adapter.{Adapter}
use hypomux_arch.Proxy.Scheduler.{Scheduler}
use hypomux_arch.Proxy.Registry.{Session, attach, attach_direct}
use hypomux_arch.Proxy.Dial.{
  Environment, Clock, DialResult, established, all_failed, no_adapter, not_literal, dial_upstream,
}
use hypomux_arch.Proxy.Config.{channel_direct}
use hypomux_arch.Proxy.Server.{Server}

-- `target` is the address and `host` its host; `direct` is the outcome of `dialDirectTCP`, and
-- `remote` the address of the far end, if the connection tells it.
pub record Request : Type 0 where
  pub target : Text
  pub host : Text
  pub environment : Environment
  pub clock : Clock
  pub direct : Bool
  pub remote : Option Text

pub data ConnectError : Type 0 where
  direct_failed : ConnectError
  unknown_channel : Text → ConnectError
  not_dialled : DialResult → ConnectError

abbrev pub Connected : Type 0
Connected = Server × Session × Result ConnectError (Option Adapter)

abbrev pub connect_direct : Server → Session → Request → Bool → Connected
connect_direct s session q false = (s, session, err direct_failed)
connect_direct s session q true =
    let (r, session') = attach_direct s.registry session q.remote q.target in
    (record s { registry = r }, session', ok none)

-- The scheduler is a pointer: what the dialling changes in it is written back to where it is from.
abbrev pub put_scheduler : Text → Scheduler → Server → Server
put_scheduler channel scheduler s =
    if is_empty channel
    then record s { scheduler = scheduler }
    else record s { schedulers = insert channel scheduler s.schedulers }

abbrev pub scheduler_of : Server → Text → Option Scheduler
scheduler_of s channel = if is_empty channel then some s.scheduler else lookup channel s.schedulers

abbrev pub register : Server → Session → Request → DialResult → Connected
register s session q (established a) =
    let (r, session') = attach s.registry session q.remote q.target a in
    (record s { registry = r }, session', ok (some a))
register s session q (all_failed fs) = (s, session, err (not_dialled (all_failed fs)))
register s session q no_adapter = (s, session, err (not_dialled no_adapter))
register s session q not_literal = (s, session, err (not_dialled not_literal))

-- A session with a channel takes literal addresses only.
unfoldable pub connect_by : Server → Session → Request → Option Scheduler → Connected
unfolding dial_upstream insert attach
connect_by s session q none = (s, session, err (unknown_channel session.channel))
connect_by s session q (some scheduler) =
    let literal_ip_only = if is_empty session.channel then false else true in
    let (p, result) =
      dial_upstream q.environment q.clock q.host literal_ip_only scheduler s.health in
    let s' : Server = record (put_scheduler session.channel p.scheduler s) { health = p.health } in
    register s' session q result

unfoldable pub connect : Server → Session → Request → Connected
unfolding connect_by attach_direct lookup
connect s session q =
    if beq session.channel channel_direct
    then connect_direct s session q q.direct
    else connect_by s session q (scheduler_of s session.channel)
