-- ===== src/Proxy/Server/Listening.antt =====
-- The listeners of engine/internal/proxy/server.go when its Start fails.
use hypomux_arch.Prelude.{
  ℕ, ◌+◌, ◌<◌, ◌≡◌, refl, sym, ap, ◌∙◌, Bool, true, false, not, List, [], ◌∷◌, ◌++◌, Option, none,
  some, inl, inr, Bool-cases, if◌then◌else◌, arith, All, keep, ◌==◌,
}
use hypomux_arch.Prelude.Int.{ℤ, pos}
use hypomux_arch.Prelude.Assoc.{contains, nat_eq, insert}
use hypomux_arch.Prelude.Unique.{contains-append}
use hypomux_arch.Golang.Strings.{Text, text_eq}
use hypomux_arch.Golang.Results.{Result, err, ok}
use hypomux_arch.Proxy.Config.{Channel}
use hypomux_arch.Proxy.Config.Adapters.{is_zero_int}
use hypomux_arch.Proxy.Server.{
  Server, Sockets, Network, listened, listen, close, close_all, StartError, create_resolver,
  listen_socks, listen_http, listen_channel, listen_again, open_channels, started, serve,
  start_http, start_ordinary, start_channel_listeners, start_listeners, start, Endpoints,
}

-- The open sockets other than the listeners `ids`.
abbrev pub others : List ℕ → List ℕ → List ℕ
others ids opened = keep (λ j. not (contains ids j)) opened

others_twice :
    (id : ℕ) (ids opened : List ℕ)
    → others ids (keep (λ j. not (j == id)) opened) ≡ others (id ∷ ids) opened
others_twice id ids [] = refl
others_twice id ids (j ∷ opened) = ground (arith, others_twice id ids opened)

pub others_none : (opened : List ℕ) → others [] opened ≡ opened
others_none [] = refl
others_none (j ∷ opened) = ap (λ xs. j ∷ xs) (others_none opened)

pub close_all-others : (ids : List ℕ) (w : Sockets) → (close_all ids w).opened ≡ others ids w.opened
close_all-others [] w = sym (others_none w.opened)
close_all-others (id ∷ ids) w = close_all-others ids (close id w) ∙ others_twice id ids w.opened

-- Every open socket has a number below the next call's.
abbrev pub IsNumbered : Sockets → Type 0
IsNumbered w = All (λ j. j < w.calls) w.opened

All_later : (n : ℕ) (xs : List ℕ) → All (λ j. j < n) xs → All (λ j. j < n + 1) xs
All_later n [] h = tt
All_later n (j ∷ xs) h = (omega (arith, h.0), All_later n xs h.1)

others_below :
    (n : ℕ) (ids opened : List ℕ)
    → All (λ j. j < n) opened
    → others (ids ++ (n ∷ [])) opened ≡ others ids opened
others_below n ids [] h = refl
others_below n ids (j ∷ opened) h =
    let apart : (n == j) ≡ false = ground (arith, h.0) in
    ground (arith, contains-append ids (n ∷ []) j, apart, others_below n ids opened h.1)

others_new :
    (n : ℕ) (ids opened : List ℕ)
    → others (ids ++ (n ∷ [])) (n ∷ opened) ≡ others (ids ++ (n ∷ [])) opened
others_new n ids opened = ground (arith, contains-append ids (n ∷ []) n)

-- The sockets `before` and the listeners `ids` are open.
abbrev pub Holds : List ℕ → List ℕ → Sockets → Type 0
Holds before ids w = (others ids w.opened ≡ before) × IsNumbered w

abbrev pub Settled : List ℕ → List ℕ → Sockets → Option (ℕ × Text) → Type 0
Settled before ids w none = Holds before ids w
Settled before ids w (some l) = Holds before (ids ++ (l.0 ∷ [])) w

pub listened-Settled :
    (before ids : List ℕ) (w : Sockets) (o : Option Text)
    → Holds before ids w
    → Settled before ids (listened w o).0 (listened w o).1
listened-Settled before ids w none h = (h.0, All_later w.calls w.opened h.1)
listened-Settled before ids w (some address) h = (
  others_new w.calls ids w.opened ∙ (others_below w.calls ids w.opened h.1 ∙ h.0),
  (omega arith, All_later w.calls w.opened h.1),
)

pub listen_again-Settled :
    (network : Network) (host : Text) (port : ℤ) (before ids : List ℕ) (w : Sockets)
    (o : Option (ℕ × Text))
    → Settled before ids w o
    → let (w', o') = listen_again network host port (w, o) in Settled before ids w' o'
listen_again-Settled network host port before ids w (some l) h = h
listen_again-Settled network host port before ids w none h = elim (Bool-cases (is_zero_int port)) [
  | inl zero ↦ rw zero h
  | inr taken ↦ rw taken (listened-Settled before ids w (network w.calls host (pos 0)) h)
]

-- With the error, only the sockets `before` are open.
abbrev Shut :
    List ℕ → StartError → Sockets × Result StartError (List ℕ × List (Text × Text)) → Type 0
Shut before e (w, r) = r ≡ err e → w.opened ≡ before

open_channels_fails :
    (network : Network) (host : Text) (channels : List Channel) (before ids : List ℕ)
    (endpoints : List (Text × Text)) (w : Sockets) (e : StartError)
    → Holds before ids w
    → Shut before e (open_channels network host channels ids endpoints w)
unfolding open_channels
open_channels_fails network host [] before ids endpoints w e h = λ failed. absurd (ok-ne-err failed)
  where
    ok-ne-err :
        {r : List ℕ × List (Text × Text)}
        → ◌≡◌ {A = Result StartError (List ℕ × List (Text × Text))} (ok r) (err e)
        → ⊥
    ok-ne-err h = cc
open_channels_fails network host (c ∷ rest) before ids endpoints w e h =
    let first = listen network host c.port w in
    let (w', outcome) = listen_again network host c.port first in
    let settled =
      listen_again-Settled network host c.port before ids first.0 first.1
        (listened-Settled before ids w (network w.calls host c.port) h) in
    finish (λ ids' endpoints' v. open_channels_fails network host rest before ids' endpoints' v e)
      w' outcome settled
  where
    finish :
        ((ids' : List ℕ) (endpoints' : List (Text × Text)) (v : Sockets)
          → Holds before ids' v
          → Shut before e (open_channels network host rest ids' endpoints' v))
        → (w' : Sockets) (o : Option (ℕ × Text)) → Settled before ids w' o
        → Shut before e (elim o [
          | none ↦ (close_all ids w', err (listen_channel c.name))
          | some (id, address) ↦
              open_channels network host rest
                (ids ++ (id ∷ []))
                (insert c.name address endpoints)
                w'
        ])
    finish again w' none settled = λ failed. close_all-others ids w' ∙ settled.0
    finish again w' (some (id, address)) settled =
        again (ids ++ (id ∷ [])) (insert c.name address endpoints) w' settled

-- With the error, the sockets are those before, and the server stands as before.
abbrev LeavesNothing :
    Server → List ℕ → StartError → Server × Sockets × Result StartError Endpoints → Type 0
LeavesNothing s before e (s', w', r) =
    r ≡ err e → (w'.opened ≡ before) × (s'.running ≡ s.running) × (s'.listeners ≡ s.listeners)

ok-ne-err :
    {x : Endpoints} {e : StartError} → ◌≡◌ {A = Result StartError Endpoints} (ok x) (err e) → ⊥
ok-ne-err h = cc

start_http-LeavesNothing :
    (network : Network) (s : Server) (socks : ℕ × Text) (before : List ℕ) (w : Sockets)
    (e : StartError)
    → Holds before (socks.0 ∷ []) w
    → LeavesNothing s before e (start_http network s socks w)
start_http-LeavesNothing network s (id, address) before w e h =
    outcome (network w.calls s.config.listen_host s.config.http_port)
  where
    outcome :
        (o : Option Text)
        → let (w', made) = listened w o in
          LeavesNothing s before e (elim made [
            | none ↦ (record s { has_resolver = false }, close id w', err listen_http)
            | some (http, http_address) ↦
                let endpoints : Endpoints = record {
                  socks = address;
                  http = http_address;
                  channels = [];
                } in
                (serve s (id ∷ http ∷ []) endpoints, w', ok endpoints)
          ])
    outcome none = λ failed. (close_all-others (id ∷ []) w ∙ h.0, refl, refl)
    outcome (some http_address) = λ failed. absurd (ok-ne-err failed)

start_ordinary-LeavesNothing :
    (network : Network) (s : Server) (before : List ℕ) (w : Sockets) (e : StartError)
    → Holds before [] w
    → LeavesNothing s before e (start_ordinary network s w)
start_ordinary-LeavesNothing network s before w e h =
    let o = network w.calls s.config.listen_host s.config.socks_port in
    outcome o (listened-Settled before [] w o h)
  where
    outcome :
        (o : Option Text)
        → Settled before [] (listened w o).0 (listened w o).1
        → LeavesNothing s before e (
            let (w', made) = listened w o in
            elim made [
              | none ↦ (record s { has_resolver = false }, w', err listen_socks)
              | some socks ↦ start_http network s socks w'
            ])
    outcome none settled = λ failed. (sym (others_none w.opened) ∙ settled.0, refl, refl)
    outcome (some address) settled =
        start_http-LeavesNothing network s (w.calls, address) before (listened w (some address)).0 e
          settled

start_channels-LeavesNothing :
    (network : Network) (s : Server) (before : List ℕ) (w : Sockets) (e : StartError)
    → Holds before [] w
    → LeavesNothing s before e (start_channel_listeners network s w)
start_channels-LeavesNothing network s before w e h =
    outcome (open_channels network s.config.listen_host s.config.channels [] [] w)
      (λ e. open_channels_fails network s.config.listen_host s.config.channels before [] [] w e h)
  where
    outcome :
        (x : Sockets × Result StartError (List ℕ × List (Text × Text)))
        → ((e : StartError) → x.1 ≡ err e → x.0.opened ≡ before)
        → LeavesNothing s before e (started s x)
    outcome (w', err e') left = λ failed. (left e' refl, refl, refl)
    outcome (w', ok (ids, channels)) left = λ failed. absurd (ok-ne-err failed)

start_listeners-LeavesNothing :
    (channels : List Channel) (network : Network) (s : Server) (before : List ℕ) (w : Sockets)
    (e : StartError)
    → Holds before [] w
    → LeavesNothing s before e (start_listeners channels network s w)
start_listeners-LeavesNothing [] network s before w e h =
    start_ordinary-LeavesNothing network s before w e h
start_listeners-LeavesNothing (c ∷ cs) network s before w e h =
    start_channels-LeavesNothing network s before w e h

-- A start that fails leaves nothing open: if Start returns an error, whatever call of net.Listen it
-- was that failed, then the open sockets are those of before, and the server is as little running and
-- has the same listeners as before. The open sockets are those with numbers of earlier calls.
pub start_fails :
    (network : Network) (resolver_made : Bool) (s : Server) (w : Sockets) (e : StartError)
    → IsNumbered w
    → (start network resolver_made s w).2 ≡ err e
    → ((start network resolver_made s w).1.opened ≡ w.opened)
      × ((start network resolver_made s w).0.running ≡ s.running)
      × ((start network resolver_made s w).0.listeners ≡ s.listeners)
unfolding start
start_fails network resolver_made s w e numbered = cases s.running resolver_made
  where
    cases :
        (runs made : Bool)
        → LeavesNothing s w.opened e (
            if runs
            then (s, w, ok s.endpoints)
            else if not made
            then (s, w, err create_resolver)
            else start_listeners s.config.channels network (record s { has_resolver = true }) w)
    cases true made = λ failed. absurd (ok-ne-err failed)
    cases false false = λ failed. (refl, refl, refl)
    cases false true =
        start_listeners-LeavesNothing s.config.channels network (record s { has_resolver = true })
          w.opened w e (others_none w.opened, numbered)
