-- ===== src/Examples/Caching.antt =====
-- The resolver of engine/internal/dns/resolver.go: its cache with room for one entry, and the notice
-- of failures.
use hypomux_arch.Prelude.{
  ◌+◌, ◌≤◌, ◌<◌, ◌≡◌, refl, true, false, List, [], Option, some, arith, ltb, leb, ◌∷◌,
  if◌then◌else◌, length,
}
use hypomux_arch.Prelude.Assoc.{lookup, insert, delete}
use hypomux_arch.Prelude.Int.{pos}
use hypomux_arch.Golang.Strings.{Text, bytes}
use hypomux_arch.Golang.Time.{Time}
use hypomux_arch.Dns.Query.{record_a}
use hypomux_arch.Dns.Cache.{CacheKey, Cache, Result, look_up, store}
use hypomux_arch.Dns.Config.{Binding}
use hypomux_arch.Dns.Fallback.{binding_key, Failures, record_doh_success}
use hypomux_arch.Dns.Fallback.Notices.{query_notices, query_failures, notices_once}
use hypomux_arch.Dns.Fallback.{Query, doh_error, doh_answer}
use hypomux_arch.Prelude.{Bool, true, false, none}
use hypomux_arch.Dns.Cache.Answers.{look_up_matches, look_up-store}
use hypomux_arch.Dns.Cache.Reach.{Reached, Reached-length}

abbrev key_for : Text → CacheKey
key_for domain = record {
  adapter = bytes "eth";
  source_ip = bytes "10.0.0.2";
  if_index = 3;
  domain = domain;
  record_type = record_a;
}

abbrev resolved : Text → Result
resolved address = record {
  domain = [];
  address = address;
  record_type = record_a;
  adapter = [];
  transport = bytes "doh";
  server = [];
  cached = false;
  expires_at = Option.none;
}

-- The second result takes the place of the first.
abbrev one_entry : Cache
one_entry =
    store 180 1 5 5 (key_for (bytes "b.com")) (resolved (bytes "5.6.7.8")) 60
      (store 180 1 0 0 (key_for (bytes "a.com")) (resolved (bytes "1.2.3.4")) 60 [])

abbrev history : Reached 180 1 one_entry
history =
    Reached.stored 5 5 (key_for (bytes "b.com")) (resolved (bytes "5.6.7.8")) 60
      (Reached.stored 0 0 (key_for (bytes "a.com")) (resolved (bytes "1.2.3.4")) 60 Reached.empty)

replaced : (look_up 6 (key_for (bytes "a.com")) one_entry).0 ≡ Option.none
unfolding look_up lookup store insert delete
replaced = refl

abbrev cached_result : Result
cached_result = record (resolved (bytes "5.6.7.8")) {
  domain = bytes "b.com";
  adapter = bytes "eth";
  cached = true;
  expires_at = some 65;
}

Reached-length_example : length one_entry ≤ 1
Reached-length_example = Reached-length 180 1 (omega arith) history

look_up_matches_example :
    (cached_result.domain ≡ bytes "b.com")
    × (cached_result.record_type ≡ record_a)
    × (cached_result.adapter ≡ bytes "eth")
    × (cached_result.cached ≡ true)
    × ((t : Time) × (cached_result.expires_at ≡ some t) × (6 < t))
unfolding look_up lookup store insert delete
look_up_matches_example =
    look_up_matches 180 1 6 (key_for (bytes "b.com")) cached_result history refl

look_up-store_example :
    (found : Result) × ((look_up 64
        (key_for (bytes "c.com"))
        (store 180 1 10 11 (key_for (bytes "c.com")) (resolved (bytes "9.9.9.9")) 60 one_entry)).0
      ≡ some found)
    × (found.address ≡ bytes "9.9.9.9")
    × (found.expires_at ≡ some (10 + (if ltb 180 60 then 180 else 60)))
look_up-store_example =
    look_up-store 180 1 10 11 64 (key_for (bytes "c.com")) (resolved (bytes "9.9.9.9")) 60 history
      (omega arith) (omega arith) (omega arith) (omega arith)

abbrev ethernet_binding : Binding
ethernet_binding = record {
  name = bytes "eth";
  source_ip = bytes "10.0.0.2";
  if_index = pos 3;
  dns_servers = [];
}

abbrev wifi_binding : Binding
wifi_binding = record {
  name = bytes "wifi";
  source_ip = bytes "10.0.1.2";
  if_index = pos 4;
  dns_servers = [];
}

abbrev listening : Failures
listening = record { strict_failures = []; fallback_emitted = []; listens = true }

-- A query that HTTPS does not answer, on a context that is over or not.
abbrev failing : Binding → Bool → Query
failing binding cancelled = record {
  binding = binding;
  doh = doh_error [];
  cancelled = cancelled;
  legacy = none;
}

abbrev answering : Binding → Query
answering binding = record {
  binding = binding;
  doh = doh_answer (resolved (bytes "9.9.9.9"), 60);
  cancelled = false;
  legacy = none;
}

abbrev queries : List Query
queries =
    failing ethernet_binding false
    ∷ failing ethernet_binding true
    ∷ answering wifi_binding
    ∷ failing ethernet_binding false
    ∷ []

two_failures : query_failures queries ethernet_binding ≡ 2
unfolding binding_key
two_failures = refl

notices_once_example :
    query_notices 2
      (bytes "google")
      (record_doh_success ethernet_binding listening)
      queries
      ethernet_binding
    ≡ (if leb 2 (query_failures queries ethernet_binding) then 1 else 0)
unfolding binding_key
notices_once_example =
    notices_once 2 (bytes "google") listening queries ethernet_binding (omega arith) refl
      (tt, (tt, (refl, (tt, tt))))
