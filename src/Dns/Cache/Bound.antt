-- ===== src/Dns/Cache/Bound.antt =====
-- The size of the resolver's cache (engine/internal/dns/resolver.go), and what stays in it.
use hypomux_arch.Prelude.{
  ℕ, zero, suc, ◌+◌, ◌≤◌, ◌<◌, ◌≡◌, false, [], ◌∷◌, Option, none, some, arith, leb, ltb, leb→le,
  if◌then◌else◌, length, inl, inr, Bool-cases,
}
use hypomux_arch.Prelude.Assoc.{
  beq, beq_refl, insert, delete, Distinct, Distinct-delete, Distinct-keep,
}
use hypomux_arch.Golang.Time.{Time, before}
use hypomux_arch.Dns.Cache.{
  CacheKey, key_eq, CacheEntry, Cache, Result, is_fresh, remove_expired, find_oldest, delete_found,
  evict, make_cache_room, store,
}

-- The key is in the cache, if it is one.
abbrev Among : Cache → Option (CacheKey × Time) → Type 0
Among cache none = ⊥
Among cache (some (key, t)) = length (delete key cache) < length cache

length-delete-le : (key : CacheKey) (cache : Cache) → length (delete key cache) ≤ length cache
unfolding delete
length-delete-le key [] = omega arith
length-delete-le key ((j, e) ∷ rest) = elim (Bool-cases (beq j key)) [
  | inl same ↦ rw same (omega (arith, length-delete-le key rest))
  | inr other ↦ rw other (omega (arith, length-delete-le key rest))
]

Among-head :
    (key : CacheKey) (entry : CacheEntry) (rest : Cache)
    → length (delete key ((key, entry) ∷ rest)) < length ((key, entry) ∷ rest)
unfolding delete
Among-head key entry rest = rw (beq_refl key) (omega (arith, length-delete-le key rest))

Among-tail :
    (j : CacheKey) (entry : CacheEntry) (rest : Cache) (o : Option (CacheKey × Time))
    → Among rest o
    → Among ((j, entry) ∷ rest) o
unfolding delete
Among-tail j entry rest none h = h
Among-tail j entry rest (some (key, t)) h = elim (Bool-cases (beq j key)) [
  | inl same ↦ rw same (omega (arith, h))
  | inr other ↦ rw other (omega (arith, h))
]

-- The search ends with a key of the cache, or with the one it began with.
Among-find_oldest :
    (whole rest : Cache) (key : CacheKey) (t : Time)
    → Among whole (some (key, t))
    → ((o : Option (CacheKey × Time)) → Among rest o → Among whole o)
    → Among whole (find_oldest (some (key, t)) rest)
unfolding find_oldest
Among-find_oldest whole [] key t h inside = h
Among-find_oldest whole ((j, e) ∷ rest) key t h inside = elim (Bool-cases (before e.expires_at t)) [
  | inl sooner ↦ rw sooner (
      Among-find_oldest whole rest j e.expires_at
        (inside (some (j, e.expires_at)) (Among-head j e rest))
        (λ o m. inside o (Among-tail j e rest o m)))
  | inr later ↦
      rw later (Among-find_oldest whole rest key t h (λ o m. inside o (Among-tail j e rest o m)))
]

delete_found-lt :
    (o : Option (CacheKey × Time)) (cache : Cache)
    → Among cache o
    → length (delete_found o cache) < length cache
delete_found-lt none cache h = absurd h
delete_found-lt (some (key, t)) cache h = h

evict_round-lt :
    (cache : Cache)
    → 1 ≤ length cache
    → length (delete_found (find_oldest none cache) cache) < length cache
unfolding find_oldest
evict_round-lt [] h = elim h [ ]
evict_round-lt ((key, e) ∷ rest) h =
    let cache = (key, e) ∷ rest in
    delete_found-lt (find_oldest (some (key, e.expires_at)) rest) cache (
      Among-find_oldest cache rest key e.expires_at (Among-head key e rest) (Among-tail key e rest))

-- As many rounds as there are entries leave room for one more.
evict-lt :
    (rounds maximum : ℕ) (cache : Cache)
    → length cache ≤ rounds
    → 1 ≤ maximum
    → length (evict rounds maximum cache) < maximum
unfolding evict
evict-lt zero maximum cache h positive = omega (arith, h, positive)
evict-lt (suc rounds) maximum cache h positive = elim (Bool-cases (leb maximum (length cache))) [
  | inl full ↦
      let shorter = evict_round-lt cache (omega (arith, leb→le maximum (length cache) full)) in
      rw full (
        evict-lt rounds maximum (delete_found (find_oldest none cache) cache)
          (omega (arith, shorter)) positive)
  | inr room ↦ rw room (below (length cache) room)
]
  where
    below : (n : ℕ) → leb maximum n ≡ false → n < maximum
    below n h = ground arith

length-insert-le :
    (key : CacheKey) (entry : CacheEntry) (cache : Cache)
    → length (insert key entry cache) ≤ length cache + 1
unfolding insert
length-insert-le key entry [] = omega arith
length-insert-le key entry ((j, e) ∷ rest) = elim (Bool-cases (beq j key)) [
  | inl same ↦ rw same (omega arith)
  | inr other ↦ rw other (omega (arith, length-insert-le key entry rest))
]

pub length-store-le :
    (cache_ttl maximum : ℕ) (now later : Time) (key : CacheKey) (result : Result) (ttl : ℕ)
    (cache : Cache)
    → 1 ≤ maximum
    → length cache ≤ maximum
    → length (store cache_ttl maximum now later key result ttl cache) ≤ maximum
unfolding store make_cache_room
length-store-le cache_ttl maximum now later key result ttl cache positive h =
    elim (Bool-cases (ltb 0 (if ltb cache_ttl ttl then cache_ttl else ttl))) [
      | inl kept ↦
          let room = make_cache_room maximum later cache in
          let fits : length room < maximum =
            evict-lt (length (remove_expired later cache)) maximum (remove_expired later cache)
              (omega arith) positive in
          rw kept (omega (arith, fits, length-insert-le key _ room))
      | inr unkept ↦ rw unkept h
    ]

evict-Distinct :
    (rounds maximum : ℕ) (cache : Cache) → Distinct cache → Distinct (evict rounds maximum cache)
unfolding evict
evict-Distinct zero maximum cache d = d
evict-Distinct (suc rounds) maximum cache d = elim (Bool-cases (leb maximum (length cache))) [
  | inl full ↦ rw full (evict-Distinct rounds maximum _ (without (find_oldest none cache)))
  | inr room ↦ rw room d
]
  where
    without : (o : Option (CacheKey × Time)) → Distinct (delete_found o cache)
    without none = d
    without (some (key, t)) = Distinct-delete key cache d

pub make_cache_room-Distinct :
    (maximum : ℕ) (now : Time) (cache : Cache)
    → Distinct cache
    → Distinct (make_cache_room maximum now cache)
unfolding make_cache_room remove_expired
make_cache_room-Distinct maximum now cache d =
    evict-Distinct (length (remove_expired now cache)) maximum (remove_expired now cache)
      (Distinct-keep (is_fresh now) cache d)
