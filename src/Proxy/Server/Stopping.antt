-- ===== src/Proxy/Server/Stopping.antt =====
-- The listeners of engine/internal/proxy/server.go when it is started and then stopped.
use hypomux_arch.Prelude.{
  ℕ, ◌≡◌, refl, ◌∙◌, subst, Bool, true, false, not, List, [], ◌∷◌, ◌++◌, Option, none, some,
  if◌then◌else◌,
}
use hypomux_arch.Prelude.Assoc.{insert}
use hypomux_arch.Golang.Strings.{Text, text_eq}
use hypomux_arch.Golang.Results.{Result, err, ok, ok-injective}
use hypomux_arch.Proxy.Config.{Channel}
use hypomux_arch.Proxy.Server.{
  Server, Sockets, Network, listened, listen, close, close_all, StartError, create_resolver,
  listen_socks, listen_http, listen_channel, listen_again, open_channels, serve, started,
  start_http, start_ordinary, start_listeners, start, stop, Endpoints,
}
use hypomux_arch.Proxy.Server.Listening.{
  IsNumbered, Holds, Settled, others, others_none, close_all-others, listened-Settled,
  listen_again-Settled,
}

-- Without an error, the listeners are open besides the sockets `before`.
abbrev Opened : List ℕ → Sockets × Result StartError (List ℕ × List (Text × Text)) → Type 0
Opened before (w, r) = (x : List ℕ × List (Text × Text)) → r ≡ ok x → others x.0 w.opened ≡ before

open_channels-Opened :
    (network : Network) (host : Text) (channels : List Channel) (before ids : List ℕ)
    (endpoints : List (Text × Text)) (w : Sockets)
    → Holds before ids w
    → Opened before (open_channels network host channels ids endpoints w)
unfolding open_channels
open_channels-Opened network host [] before ids endpoints w h = λ x e.
    let same : ◌≡◌ {A = List ℕ × List (Text × Text)} (ids, endpoints) x = ok-injective e in
    subst (λ y. others y.0 w.opened ≡ before) same h.0
open_channels-Opened network host (c ∷ rest) before ids endpoints w h =
    let first = listen network host c.port w in
    let (w', outcome) = listen_again network host c.port first in
    let settled =
      listen_again-Settled network host c.port before ids first.0 first.1
        (listened-Settled before ids w (network w.calls host c.port) h) in
    finish (λ ids' endpoints' v. open_channels-Opened network host rest before ids' endpoints' v) w'
      outcome settled
  where
    err-ne-ok :
        {e : StartError} {x : List ℕ × List (Text × Text)}
        → ◌≡◌ {A = Result StartError (List ℕ × List (Text × Text))} (err e) (ok x)
        → ⊥
    err-ne-ok h = cc

    finish :
        ((ids' : List ℕ) (endpoints' : List (Text × Text)) (v : Sockets)
          → Holds before ids' v
          → Opened before (open_channels network host rest ids' endpoints' v))
        → (w' : Sockets) (o : Option (ℕ × Text)) → Settled before ids w' o
        → Opened before (elim o [
          | none ↦ (close_all ids w', err (listen_channel c.name))
          | some (id, address) ↦
              open_channels network host rest
                (ids ++ (id ∷ []))
                (insert c.name address endpoints)
                w'
        ])
    finish again w' none settled = λ x e. absurd (err-ne-ok e)
    finish again w' (some (id, address)) settled =
        again (ids ++ (id ∷ [])) (insert c.name address endpoints) w' settled

-- Once such a start has succeeded, a stop leaves the sockets `before`.
abbrev StopsAt : List ℕ → Server × Sockets × Result StartError Endpoints → Type 0
StopsAt before (s, w, r) = (x : Endpoints) → r ≡ ok x → (stop s w).1.opened ≡ before

err-ne-ok :
    {e : StartError} {x : Endpoints} → ◌≡◌ {A = Result StartError Endpoints} (err e) (ok x) → ⊥
err-ne-ok h = cc

serve-StopsAt :
    (before ids : List ℕ) (s : Server) (endpoints : Endpoints) (w : Sockets)
    → others ids w.opened ≡ before
    → StopsAt before (serve s ids endpoints, w, ok endpoints)
unfolding stop
serve-StopsAt before ids s endpoints w h = λ x e. close_all-others ids w ∙ h

start_http-StopsAt :
    (network : Network) (s : Server) (socks : ℕ × Text) (before : List ℕ) (w : Sockets)
    → Holds before (socks.0 ∷ []) w
    → StopsAt before (start_http network s socks w)
start_http-StopsAt network s (id, address) before w h =
    let o = network w.calls s.config.listen_host s.config.http_port in
    outcome o (listened-Settled before (id ∷ []) w o h)
  where
    outcome :
        (o : Option Text)
        → Settled before (id ∷ []) (listened w o).0 (listened w o).1
        → let (w', made) = listened w o in
          StopsAt before (elim made [
            | none ↦ (record s { has_resolver = false }, close id w', err listen_http)
            | some (http, http_address) ↦
                let endpoints : Endpoints = record {
                  socks = address;
                  http = http_address;
                  channels = [];
                } in
                (serve s (id ∷ http ∷ []) endpoints, w', ok endpoints)
          ])
    outcome none settled = λ x e. absurd (err-ne-ok e)
    outcome (some http_address) settled =
        serve-StopsAt before (id ∷ w.calls ∷ []) s
          (record { socks = address; http = http_address; channels = [] })
          (listened w (some http_address)).0 settled.0

start_ordinary-StopsAt :
    (network : Network) (s : Server) (before : List ℕ) (w : Sockets)
    → Holds before [] w
    → StopsAt before (start_ordinary network s w)
start_ordinary-StopsAt network s before w h =
    let o = network w.calls s.config.listen_host s.config.socks_port in
    outcome o (listened-Settled before [] w o h)
  where
    outcome :
        (o : Option Text)
        → Settled before [] (listened w o).0 (listened w o).1
        → StopsAt before (
            let (w', made) = listened w o in
            elim made [
              | none ↦ (record s { has_resolver = false }, w', err listen_socks)
              | some socks ↦ start_http network s socks w'
            ])
    outcome none settled = λ x e. absurd (err-ne-ok e)
    outcome (some address) settled =
        start_http-StopsAt network s (w.calls, address) before (listened w (some address)).0 settled

start_listeners-StopsAt :
    (channels : List Channel) (network : Network) (s : Server) (before : List ℕ) (w : Sockets)
    → Holds before [] w
    → StopsAt before (start_listeners channels network s w)
start_listeners-StopsAt [] network s before w h = start_ordinary-StopsAt network s before w h
start_listeners-StopsAt (c ∷ cs) network s before w h =
    outcome (open_channels network s.config.listen_host s.config.channels [] [] w)
      (open_channels-Opened network s.config.listen_host s.config.channels before [] [] w h)
  where
    outcome :
        (x : Sockets × Result StartError (List ℕ × List (Text × Text)))
        → Opened before x
        → StopsAt before (started s x)
    outcome (w', err e) opened = λ x e. absurd (err-ne-ok e)
    outcome (w', ok (ids, channels)) opened =
        serve-StopsAt before ids s (record { socks = []; http = []; channels = channels }) w'
          (opened (ids, channels) refl)

-- A start that succeeds is undone by a stop: for a server that does not run, the sockets that are
-- open after Start, without an error, and Stop are those that were open before. Those have numbers
-- of earlier calls.
pub stop-start :
    (network : Network) (resolver_made : Bool) (s : Server) (w : Sockets) (endpoints : Endpoints)
    → s.running ≡ false
    → IsNumbered w
    → (start network resolver_made s w).2 ≡ ok endpoints
    → (stop (start network resolver_made s w).0 (start network resolver_made s w).1).1.opened
      ≡ w.opened
unfolding start
stop-start network resolver_made s w endpoints rests numbered =
    cases s.running resolver_made rests endpoints
  where
    cases :
        (runs made : Bool)
        → runs ≡ false
        → StopsAt w.opened (
            if runs
            then (s, w, ok s.endpoints)
            else if not made
            then (s, w, err create_resolver)
            else start_listeners s.config.channels network (record s { has_resolver = true }) w)
    cases true made h = cc
    cases false false h = λ x e. absurd (err-ne-ok e)
    cases false true h =
        start_listeners-StopsAt s.config.channels network (record s { has_resolver = true })
          w.opened w (others_none w.opened, numbered)
