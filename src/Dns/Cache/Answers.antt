-- ===== src/Dns/Cache/Answers.antt =====
-- What the resolver's cache (engine/internal/dns/resolver.go) answers, in any state that look-ups
-- and finished queries can lead to.
use hypomux_arch.Prelude.{
  ℕ, zero, suc, ◌+◌, ◌≤◌, ◌<◌, ◌≡◌, refl, sym, subst, ap, ◌∙◌, true, Option, none, some, arith, leb,
  ltb, ltb→lt, if◌then◌else◌, length, keep, inl, inr, Bool-cases,
}
use hypomux_arch.Prelude.Assoc.{
  beq, beq_refl, lookup, insert, lookup-insert, lookup-delete, keep_found, lookup-keep, Distinct,
  Distinct-insert,
}
use hypomux_arch.Golang.Time.{Time, after}
use hypomux_arch.Dns.Cache.{
  CacheKey, key_eq, CacheEntry, Cache, Result, is_fresh, remove_expired, find_oldest, delete_found,
  evict, make_cache_room, hit, look_up, store,
}
use hypomux_arch.Dns.Cache.Bound.{make_cache_room-Distinct}
use hypomux_arch.Dns.Cache.Reach.{Reached, empty, looked_up, stored, Reached-Distinct}

-- What an entry under a key says of itself.
pub record Matches (key : CacheKey) (entry : CacheEntry) : Type 0 where
  pub domain : entry.result.domain ≡ key.domain
  pub record_type : entry.result.record_type ≡ key.record_type
  pub adapter : entry.result.adapter ≡ key.adapter
  pub expiry : entry.result.expires_at ≡ some entry.expires_at

abbrev MatchesAt : CacheKey → Option CacheEntry → Type 0
MatchesAt key none = Unit
MatchesAt key (some entry) = Matches key entry

abbrev AllMatch : Cache → Type 0
AllMatch cache = (key : CacheKey) → MatchesAt key (lookup key cache)

remove_expired-AllMatch :
    (now : Time) (cache : Cache)
    → Distinct cache
    → AllMatch cache
    → AllMatch (remove_expired now cache)
unfolding remove_expired
remove_expired-AllMatch now cache d all key =
    rw (lookup-keep (is_fresh now) key cache d) (kept (lookup key cache) (all key))
  where
    kept :
        (o : Option CacheEntry) → MatchesAt key o → MatchesAt key (keep_found (is_fresh now) key o)
    kept none h = tt
    kept (some entry) h = elim (Bool-cases (after entry.expires_at now)) [
      | inl fresh ↦ rw fresh h
      | inr stale ↦ rw stale tt
    ]

evict-AllMatch :
    (rounds maximum : ℕ) (cache : Cache) → AllMatch cache → AllMatch (evict rounds maximum cache)
unfolding evict
evict-AllMatch zero maximum cache all = all
evict-AllMatch (suc rounds) maximum cache all = elim (Bool-cases (leb maximum (length cache))) [
  | inl full ↦ rw full (evict-AllMatch rounds maximum _ (without (find_oldest none cache)))
  | inr room ↦ rw room all
]
  where
    without : (o : Option (CacheKey × Time)) → AllMatch (delete_found o cache)
    without none = all
    without (some (gone, t)) = λ key.
        rw (lookup-delete gone key cache) (elim (Bool-cases (beq gone key)) [
          | inl same ↦ rw same tt
          | inr other ↦ rw other (all key)
        ])

store-AllMatch :
    (cache_ttl maximum : ℕ) (now later : Time) (key : CacheKey) (result : Result) (ttl : ℕ)
    (cache : Cache)
    → Distinct cache
    → AllMatch cache
    → AllMatch (store cache_ttl maximum now later key result ttl cache)
unfolding store make_cache_room
store-AllMatch cache_ttl maximum now later key result ttl cache d all =
    elim (Bool-cases (ltb 0 (if ltb cache_ttl ttl then cache_ttl else ttl))) [
      | inl kept ↦ rw kept (
          put (make_cache_room maximum later cache) _ room
            (record { domain = refl; record_type = refl; adapter = refl; expiry = refl }))
      | inr unkept ↦ rw unkept all
    ]
  where
    room : AllMatch (make_cache_room maximum later cache)
    room =
        evict-AllMatch (length (remove_expired later cache)) maximum (remove_expired later cache)
          (remove_expired-AllMatch later cache d all)

    put :
        (m : Cache) (entry : CacheEntry)
        → AllMatch m
        → Matches key entry
        → AllMatch (insert key entry m)
    put m entry h matches other = elim (Bool-cases (beq key other)) [
      | inl same ↦
          rw (lookup-insert key other entry m, same)
            (subst (λ k. Matches k entry) ((key_eq.beq_iff key other).0 same) matches)
      | inr differs ↦ rw (lookup-insert key other entry m, differs) (h other)
    ]

Reached-AllMatch :
    (cache_ttl maximum : ℕ) {cache : Cache} → Reached cache_ttl maximum cache → AllMatch cache
unfolding look_up lookup
Reached-AllMatch cache_ttl maximum empty = λ key. tt
Reached-AllMatch cache_ttl maximum (looked_up {cache} now key r) =
    remove_expired-AllMatch now cache (Reached-Distinct cache_ttl maximum r)
      (Reached-AllMatch cache_ttl maximum r)
Reached-AllMatch cache_ttl maximum (stored {cache} now later key result ttl r) =
    store-AllMatch cache_ttl maximum now later key result ttl cache
      (Reached-Distinct cache_ttl maximum r) (Reached-AllMatch cache_ttl maximum r)

-- In any state that a resolver's cache can come to, an answer from it is for the domain, the record
-- type and the adapter asked for, is marked as cached, and expires later than the time of asking.
pub look_up_matches :
    (cache_ttl maximum : ℕ) {cache : Cache} (now : Time) (key : CacheKey) (found : Result)
    → Reached cache_ttl maximum cache
    → (look_up now key cache).0 ≡ some found
    → (found.domain ≡ key.domain)
      × (found.record_type ≡ key.record_type)
      × (found.adapter ≡ key.adapter)
      × (found.cached ≡ true)
      × ((t : Time) × (found.expires_at ≡ some t) × (now < t))
unfolding look_up remove_expired
look_up_matches cache_ttl maximum {cache} now key found r h =
    read (lookup key cache) (Reached-AllMatch cache_ttl maximum r key) (
      ap hit (sym (lookup-keep (is_fresh now) key cache (Reached-Distinct cache_ttl maximum r)))
      ∙ h)
  where
    read :
        (o : Option CacheEntry)
        → MatchesAt key o
        → hit (keep_found (is_fresh now) key o) ≡ some found
        → (found.domain ≡ key.domain)
          × (found.record_type ≡ key.record_type)
          × (found.adapter ≡ key.adapter)
          × (found.cached ≡ true)
          × ((t : Time) × (found.expires_at ≡ some t) × (now < t))
    read none m e = cc
    read (some entry) m e = elim (Bool-cases (after entry.expires_at now)) [
      | inr stale ↦ let gone : none ≡ some found = rw stale at e in cc
      | inl fresh ↦
          let same : some (record (entry.result) { cached = true }) ≡ some found = rw fresh at e in
          let result : record (entry.result) { cached = true } ≡ found = cc in
          (
            ap (λ x. x.domain) (sym result) ∙ m.domain,
            ap (λ x. x.record_type) (sym result) ∙ m.record_type,
            ap (λ x. x.adapter) (sym result) ∙ m.adapter,
            ap (λ x. x.cached) (sym result),
            (
              entry.expires_at,
              ap (λ x. x.expires_at) (sym result) ∙ m.expiry,
              ltb→lt now entry.expires_at fresh,
            ),
          )
    ]

-- A look-up that directly follows the store of a result with a positive time to live, with the same
-- key and before the result expires, which is when its time to live or the configured one is over,
-- finds the result, with its address and expiry. Nothing is stated of a look-up after further
-- stores, which may evict the result.
pub look_up-store :
    (cache_ttl maximum : ℕ) {cache : Cache} (now later asked : Time) (key : CacheKey)
    (result : Result) (ttl : ℕ)
    → Reached cache_ttl maximum cache
    → 1 ≤ ttl
    → asked < now + ttl
    → asked < now + cache_ttl
    → now ≤ asked
    → (found : Result) × ((look_up asked key
          (store cache_ttl maximum now later key result ttl cache)).0
        ≡ some found)
      × (found.address ≡ result.address)
      × (found.expires_at ≡ some (now + (if ltb cache_ttl ttl then cache_ttl else ttl)))
unfolding look_up store remove_expired
look_up-store cache_ttl maximum {cache} now later asked key result ttl r positive soon held
      forward =
    let room = make_cache_room maximum later cache in
    let span = if ltb cache_ttl ttl then cache_ttl else ttl in
    let kept : ltb 0 span ≡ true = ground arith in
    let fresh : ltb asked (now + span) ≡ true = ground arith in
    let entry : CacheEntry = record {
      result = record result {
        domain = key.domain;
        record_type = key.record_type;
        adapter = key.adapter;
        expires_at = some (now + span);
      };
      expires_at = now + span;
    } in
    let d =
      Distinct-insert key entry room
        (make_cache_room-Distinct maximum later cache (Reached-Distinct cache_ttl maximum r)) in
    let there : lookup key (keep (is_fresh asked) (insert key entry room)) ≡ some entry =
      lookup-keep (is_fresh asked) key (insert key entry room) d
      ∙ ap (keep_found (is_fresh asked) key) (
          lookup-insert key key entry room
          ∙ ap (λ b. if b then some entry else lookup key room) (beq_refl key))
      ∙ ap (λ b. if b then some entry else none) fresh in
    (record (entry.result) { cached = true }, rw kept (ap hit there), refl, refl)
