-- ===== src/Dns/Cache/Reach.antt =====
-- The states that the cache of engine/internal/dns/resolver.go can come to, and their size.
use hypomux_arch.Prelude.{
  ℕ, ◌≤◌, [], arith, ltb, if◌then◌else◌, length, length-keep-le, inl, inr, Bool-cases,
}
use hypomux_arch.Prelude.Assoc.{Distinct, Distinct-insert, Distinct-keep}
use hypomux_arch.Golang.Time.{Time}
use hypomux_arch.Dns.Cache.{
  CacheKey, key_eq, Cache, Result, is_fresh, remove_expired, make_cache_room, look_up, store,
}
use hypomux_arch.Dns.Cache.Bound.{length-store-le, make_cache_room-Distinct}

-- The caches that a resolver with the configured time to live and size can hold.
pub data Reached (cache_ttl maximum : ℕ) : Cache → Type 0 where
  empty : Reached cache_ttl maximum []
  looked_up :
      {cache : Cache} (now : Time) (key : CacheKey)
      → Reached cache_ttl maximum cache
      → Reached cache_ttl maximum (look_up now key cache).1
  stored :
      {cache : Cache} (now later : Time) (key : CacheKey) (result : Result) (ttl : ℕ)
      → Reached cache_ttl maximum cache
      → Reached cache_ttl maximum (store cache_ttl maximum now later key result ttl cache)

-- The cache never holds more entries than the configured number, where that is at least one.
pub Reached-length :
    (cache_ttl maximum : ℕ) {cache : Cache}
    → 1 ≤ maximum
    → Reached cache_ttl maximum cache
    → length cache ≤ maximum
unfolding look_up remove_expired
Reached-length cache_ttl maximum positive empty = omega arith
Reached-length cache_ttl maximum positive (looked_up {cache} now key r) =
    omega (arith, length-keep-le (is_fresh now) cache, Reached-length cache_ttl maximum positive r)
Reached-length cache_ttl maximum positive (stored {cache} now later key result ttl r) =
    length-store-le cache_ttl maximum now later key result ttl cache positive
      (Reached-length cache_ttl maximum positive r)

store-Distinct :
    (cache_ttl maximum : ℕ) (now later : Time) (key : CacheKey) (result : Result) (ttl : ℕ)
    (cache : Cache)
    → Distinct cache
    → Distinct (store cache_ttl maximum now later key result ttl cache)
unfolding store
store-Distinct cache_ttl maximum now later key result ttl cache d =
    elim (Bool-cases (ltb 0 (if ltb cache_ttl ttl then cache_ttl else ttl))) [
      | inl kept ↦ rw kept (
          Distinct-insert key _ (make_cache_room maximum later cache)
            (make_cache_room-Distinct maximum later cache d))
      | inr unkept ↦ rw unkept d
    ]

pub Reached-Distinct :
    (cache_ttl maximum : ℕ) {cache : Cache} → Reached cache_ttl maximum cache → Distinct cache
unfolding look_up remove_expired
Reached-Distinct cache_ttl maximum empty = tt
Reached-Distinct cache_ttl maximum (looked_up {cache} now key r) =
    Distinct-keep (is_fresh now) cache (Reached-Distinct cache_ttl maximum r)
Reached-Distinct cache_ttl maximum (stored {cache} now later key result ttl r) =
    store-Distinct cache_ttl maximum now later key result ttl cache
      (Reached-Distinct cache_ttl maximum r)
