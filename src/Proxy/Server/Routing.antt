-- ===== src/Proxy/Server/Routing.antt =====
-- Which adapters carry the connections of a channel of engine/internal/proxy/server.go.
use hypomux_arch.Prelude.{
  ◌≡◌, refl, sym, ap, ◌∙◌, subst, Bool, true, false, List, [], ◌∷◌, Option, none, some,
  if◌then◌else◌, Memᴰ, keep, keep-true, map, All_mem,
}
use hypomux_arch.Prelude.Assoc.{beq, contains, lookup, insert, lookup-insert}
use hypomux_arch.Golang.Strings.{Text, text_eq, is_empty}
use hypomux_arch.Golang.Time.{Time}
use hypomux_arch.Golang.Results.{Result, err, ok, and_then-eq-ok, ok-injective}
use hypomux_arch.Proxy.Adapter.{Adapter}
use hypomux_arch.Proxy.Health.Validity.{IsValid, new_health_table_configured-IsValid}
use hypomux_arch.Proxy.Scheduler.{Scheduler, new_scheduler}
use hypomux_arch.Proxy.Registry.{Session}
use hypomux_arch.Proxy.Dial.{
  DialResult, established, all_failed, no_adapter, not_literal, dial_upstream,
}
use hypomux_arch.Proxy.Dial.Owner.{dial_upstream-IsOwned}
use hypomux_arch.Proxy.Config.{Channel, Config, channel_direct, adapters_for_channel}
use hypomux_arch.Proxy.Config.Normalize.{normalize_config, or_true}
use hypomux_arch.Proxy.Config.Normal.{IsNormal, normalize_config-IsNormal}
use hypomux_arch.Proxy.Config.Pool.{IsServed}
use hypomux_arch.Proxy.Config.Channels.{is_supported}
use hypomux_arch.Proxy.Server.{Server, assemble, new_server}
use hypomux_arch.Proxy.Server.Connect.{
  Request, ConnectError, connect_direct, put_scheduler, scheduler_of, register, connect_by, connect,
}
use hypomux_arch.Proxy.Server.Channels.{scheduler_for, lookup-add_schedulers}

-- A step of a server's life: a connection for some session.
pub data Served : Server → Server → Type 0 where
  at_start : {s : Server} → Served s s
  connection :
      {s t : Server}
      → Served s t
      → (session : Session) (q : Request) → Served s (connect t session q).0

-- The scheduler under a name has the adapters given, and the table is well formed.
pub record IsBound (name : Text) (adapters : List Adapter) (s : Server) : Type 0 where
  pub valid : IsValid s.health
  pub owned :
      (scheduler : Scheduler)
      → lookup name s.schedulers ≡ some scheduler
      → scheduler.adapters ≡ adapters

register-IsBound :
    (name : Text) (adapters : List Adapter) (s : Server) (session : Session) (q : Request)
    (r : DialResult)
    → IsBound name adapters s
    → IsBound name adapters (register s session q r).0
register-IsBound name adapters s session q (established a) b = record {
  valid = b.valid;
  owned = b.owned;
}
register-IsBound name adapters s session q (all_failed fs) b = b
register-IsBound name adapters s session q no_adapter b = b
register-IsBound name adapters s session q not_literal b = b

insert-owned :
    (name channel : Text) (adapters : List Adapter) (s : Server) (old new : Scheduler)
    → lookup channel s.schedulers ≡ some old
    → new.adapters ≡ old.adapters
    → IsBound name adapters s
    → (scheduler : Scheduler) → lookup name (insert channel new s.schedulers) ≡ some scheduler
    → scheduler.adapters ≡ adapters
insert-owned name channel adapters s old new there kept b scheduler found =
    split (beq channel name) refl (sym (lookup-insert channel name new s.schedulers) ∙ found)
  where
    split :
        (same : Bool)
        → beq channel name ≡ same
        → (if same then some new else lookup name s.schedulers) ≡ some scheduler
        → scheduler.adapters ≡ adapters
    split false e h = b.owned scheduler h
    split true e h =
        let equal : new ≡ scheduler = cc in
        let names : channel ≡ name = (text_eq.beq_iff channel name).0 e in
        ap (λ x. x.adapters) (sym equal)
        ∙ (kept ∙ b.owned old (subst (λ x. lookup x s.schedulers ≡ some old) names there))

connect_by-IsBound :
    (name : Text) (adapters : List Adapter) (s : Server) (session : Session) (q : Request)
    (o : Option Scheduler)
    → scheduler_of s session.channel ≡ o
    → IsBound name adapters s
    → IsBound name adapters (connect_by s session q o).0
unfolding connect_by
connect_by-IsBound name adapters s session q none e b = b
connect_by-IsBound name adapters s session q (some old) e b =
    let literal_ip_only = if is_empty session.channel then false else true in
    let (p, result) = dial_upstream q.environment q.clock q.host literal_ip_only old s.health in
    let (kept, valid, own) =
      dial_upstream-IsOwned q.environment q.clock q.host literal_ip_only old s.health b.valid in
    register-IsBound name adapters
      (record (put_scheduler session.channel p.scheduler s) { health = p.health }) session q result
      (record { valid = valid; owned = owned (is_empty session.channel) p.scheduler kept e })
  where
    owned :
        (plain : Bool) (new : Scheduler)
        → new.adapters ≡ old.adapters
        → (if plain then some s.scheduler else lookup session.channel s.schedulers) ≡ some old
        → (scheduler : Scheduler)
        → lookup name
            (if plain
              then record s { scheduler = new }
              else record s { schedulers = insert session.channel new s.schedulers }).schedulers
          ≡ some scheduler
        → scheduler.adapters ≡ adapters
    owned true new kept there = b.owned
    owned false new kept there = insert-owned name session.channel adapters s old new there kept b

connect-IsBound :
    (name : Text) (adapters : List Adapter) (s : Server) (session : Session) (q : Request)
    → IsBound name adapters s
    → IsBound name adapters (connect s session q).0
unfolding connect
connect-IsBound name adapters s session q b = split (beq session.channel channel_direct) q.direct
  where
    split :
        (direct reached : Bool)
        → IsBound name adapters
            (if direct
              then connect_direct s session q reached
              else connect_by s session q (scheduler_of s session.channel)).0
    split true true = record { valid = b.valid; owned = b.owned }
    split true false = b
    split false reached =
        connect_by-IsBound name adapters s session q (scheduler_of s session.channel) refl b

Served-IsBound :
    (name : Text) (adapters : List Adapter) {s t : Server}
    → Served s t
    → IsBound name adapters s
    → IsBound name adapters t
Served-IsBound name adapters Served.at_start b = b
Served-IsBound name adapters (Served.connection {t = t} before session q) b =
    connect-IsBound name adapters t session q (Served-IsBound name adapters before b)

none-ne :
    {e : ConnectError} {a : Adapter}
    → ◌≡◌ {A = Result ConnectError (Option Adapter)} (err e) (ok (some a))
    → ⊥
none-ne h = cc

register-eq-ok :
    (s : Server) (session : Session) (q : Request) (r : DialResult) (a : Adapter)
    → (register s session q r).2 ≡ ok (some a)
    → r ≡ established a
register-eq-ok s session q (established b) a h =
    let same : ◌≡◌ {A = Option Adapter} (some b) (some a) = ok-injective h in
    let equal : b ≡ a = cc in ap established equal
register-eq-ok s session q (all_failed fs) a h = absurd (none-ne h)
register-eq-ok s session q no_adapter a h = absurd (none-ne h)
register-eq-ok s session q not_literal a h = absurd (none-ne h)

connect_by-own :
    (s : Server) (session : Session) (q : Request) (o : Option Scheduler) (a : Adapter)
    → IsValid s.health
    → (connect_by s session q o).2 ≡ ok (some a)
    → (scheduler : Scheduler) × (o ≡ some scheduler) × Memᴰ a scheduler.adapters
unfolding connect_by
connect_by-own s session q none a valid h = absurd (none-ne h)
connect_by-own s session q (some scheduler) a valid h =
    let literal_ip_only = if is_empty session.channel then false else true in
    let (p, result) =
      dial_upstream q.environment q.clock q.host literal_ip_only scheduler s.health in
    let (kept, valid', own) =
      dial_upstream-IsOwned q.environment q.clock q.host literal_ip_only scheduler s.health valid in
    let won =
      register-eq-ok (record (put_scheduler session.channel p.scheduler s) { health = p.health })
        session q result a h in
    (scheduler, refl, (own a won).0)

connect-own :
    (s : Server) (session : Session) (q : Request) (a : Adapter) (adapters : List Adapter)
    → IsBound session.channel adapters s
    → beq session.channel channel_direct ≡ false
    → is_empty session.channel ≡ false
    → (connect s session q).2 ≡ ok (some a)
    → Memᴰ a adapters
unfolding connect
connect-own s session q a adapters b other named =
    rw (other, named)
      (λ h.
        let (scheduler, there, own) =
          connect_by-own s session q (lookup session.channel s.schedulers) a b.valid h in
        subst (λ xs. Memᴰ a xs) (b.owned scheduler there) own)

assemble-IsBound :
    (now : Time) (c : Config) (channel : Channel)
    → IsNormal now c
    → Memᴰ channel (assemble c).config.channels
    → beq channel.name channel_direct ≡ false
    → IsBound channel.name (adapters_for_channel (assemble c).config.adapters channel) (assemble c)
unfolding assemble new_scheduler
assemble-IsBound now c channel normal n other = record {
  valid =
      new_health_table_configured-IsValid c.adapters (or_true c.domain_isolation)
        (or_true c.domain_isolation_expiry) c.domain_quarantines;
  owned = λ scheduler found.
      let made =
        lookup-add_schedulers c (assemble c).health c.channels [] channel normal.channels.names n
          other in
      let same : ◌≡◌ {A = Option Scheduler} (some (scheduler_for c (assemble c).health channel))
          (some scheduler) =
        sym made ∙ found in
      let equal : scheduler_for c (assemble c).health channel ≡ scheduler = cc in
      sym (ap (λ s. s.adapters) equal);
}

supported_named : (name : Text) → is_supported name ≡ true → is_empty name ≡ false
supported_named [] h = cc
supported_named (b ∷ name) h = refl

allowed-keep :
    (names : List Text) (adapters : List Adapter) (a : Adapter)
    → Memᴰ a (keep (λ b. contains names b.name) adapters)
    → contains names a.name ≡ true
allowed-keep names adapters a m = keep-true (λ b. contains names b.name) adapters a m

-- A channel keeps to its adapters: in a server that `New` makes of a configuration that it accepts,
-- after any number of connections, of whatever channels and outcomes, a connection for a session of
-- a channel other than the direct one, if an adapter carries it, is carried by one that the channel
-- names.
pub channel_keeps :
    (now : Time) (config : Config) {s t : Server} (channel : Channel) (session : Session)
    (q : Request) (a : Adapter)
    → new_server now config ≡ ok s
    → Memᴰ channel s.config.channels
    → beq channel.name channel_direct ≡ false
    → Served s t
    → session.channel ≡ channel.name
    → (connect t session q).2 ≡ ok (some a)
    → contains channel.adapter_names a.name ≡ true
unfolding new_server adapters_for_channel assemble
channel_keeps now config {s} {t} channel session q a made n other served own won =
    let (c, normalized, assembled) =
      and_then-eq-ok (normalize_config now config) (λ c. ok (assemble c)) made in
    let normal = normalize_config-IsNormal now config normalized in
    let same = ok-injective assembled in
    let listed = subst (λ x. Memᴰ channel x.config.channels) (sym same) n in
    let start =
      subst (IsBound channel.name (adapters_for_channel (assemble c).config.adapters channel)) same
        (assemble-IsBound now c channel normal listed other) in
    let bound =
      Served-IsBound channel.name (adapters_for_channel (assemble c).config.adapters channel) served
        start in
    let supported = (IsServed_of c channel normal listed).supported in
    let m =
      connect-own t session q a (adapters_for_channel (assemble c).config.adapters channel)
        (subst (λ x. IsBound x (adapters_for_channel (assemble c).config.adapters channel) t)
          (sym own) bound)
        (subst (λ x. beq x channel_direct ≡ false) (sym own) other)
        (subst (λ x. is_empty x ≡ false) (sym own) (supported_named channel.name supported)) won in
    allowed-keep channel.adapter_names (assemble c).config.adapters a m
  where
    IsServed_of :
        (c : Config) (channel : Channel)
        → IsNormal now c
        → Memᴰ channel (assemble c).config.channels
        → IsServed (map (λ b. b.name) c.adapters) channel
    IsServed_of c channel normal n =
        All_mem (IsServed (map (λ b. b.name) c.adapters)) c.channels channel normal.channels.served
          n
