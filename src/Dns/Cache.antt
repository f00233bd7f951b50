-- ===== src/Dns/Cache.antt =====
-- The cache of engine/internal/dns/resolver.go: the look-up at the start of `Resolve`, the entry
-- that `runLookup` adds, `removeExpiredLocked` and `makeCacheRoomLocked`. Each runs under the
-- resolver's mutex. The order of the entries stands for the order in which Go ranges over the map.
use hypomux_arch.Prelude.{
  ℕ, zero, suc, ◌+◌, ◌≡◌, refl, Bool, true, false, ◌&&◌, List, [], ◌∷◌, Option, none, some, arith,
  leb, ltb, ◌==◌, if◌then◌else◌, length, keep,
}
use hypomux_arch.Prelude.Assoc.{Eq, nat_eq, beq, beq_refl, lookup, insert, delete}
use hypomux_arch.Golang.Strings.{Text, text_eq}
use hypomux_arch.Golang.Time.{Time, after, before}
use hypomux_arch.Dns.Query.{RecordType, record_a, record_aaaa}
pub mod Answers
pub mod Bound
pub mod Reach

-- The interface index is not negative, since `NormalizeBinding` refuses others.
pub record CacheKey : Type 0 where
  pub adapter : Text
  pub source_ip : Text
  pub if_index : ℕ
  pub domain : Text
  pub record_type : RecordType

abbrev pub same_type : RecordType → RecordType → Bool
same_type record_a record_a = true
same_type record_aaaa record_aaaa = true
same_type _ _ = false

same_type-eq : (a b : RecordType) → same_type a b ≡ true → a ≡ b
same_type-eq a b h = ground arith

same_type_refl : (a : RecordType) → same_type a a ≡ true
same_type_refl a = ground arith

abbrev pub same_key : CacheKey → CacheKey → Bool
same_key k j =
    beq k.adapter j.adapter
    && (beq k.source_ip j.source_ip
        && (beq k.if_index j.if_index
            && (beq k.domain j.domain && same_type k.record_type j.record_type)))

both_of : (a b : Bool) → (a && b) ≡ true → (a ≡ true) × (b ≡ true)
both_of a b h = ground arith

pub same_key-eq : (k j : CacheKey) → same_key k j ≡ true → k ≡ j
same_key-eq k j h =
    let (p, h₁) = both_of (beq k.adapter j.adapter) _ h in
    let (q, h₂) = both_of (beq k.source_ip j.source_ip) _ h₁ in
    let (r, h₃) = both_of (beq k.if_index j.if_index) _ h₂ in
    let (t, u) = both_of (beq k.domain j.domain) _ h₃ in
    equal ((text_eq.beq_iff k.adapter j.adapter).0 p)
      ((text_eq.beq_iff k.source_ip j.source_ip).0 q) ((nat_eq.beq_iff k.if_index j.if_index).0 r)
      ((text_eq.beq_iff k.domain j.domain).0 t) (same_type-eq k.record_type j.record_type u)
  where
    equal :
        k.adapter ≡ j.adapter
        → k.source_ip ≡ j.source_ip
        → k.if_index ≡ j.if_index
        → k.domain ≡ j.domain
        → k.record_type ≡ j.record_type
        → k ≡ j
    equal p q r t u = λ i. record {
      adapter = p i;
      source_ip = q i;
      if_index = r i;
      domain = t i;
      record_type = u i;
    }

pub same_key_refl : (k : CacheKey) → same_key k k ≡ true
same_key_refl k =
    rw (beq_refl k.adapter, beq_refl k.source_ip, beq_refl k.if_index, beq_refl k.domain)
      (same_type_refl k.record_type)

instance abbrev pub key_eq : Eq CacheKey
key_eq = record { beq = same_key; beq_iff = λ k j. (same_key-eq k j, λ e. rw e (same_key_refl j)) }

pub record Result : Type 0 where
  pub domain : Text
  pub address : Text
  pub record_type : RecordType
  pub adapter : Text
  pub transport : Text
  pub server : Text
  pub cached : Bool
  pub expires_at : Option Time

pub record CacheEntry : Type 0 where
  pub result : Result
  pub expires_at : Time

abbrev pub Cache : Type 0
Cache = List (CacheKey × CacheEntry)

abbrev pub is_fresh : Time → CacheKey × CacheEntry → Bool
is_fresh now e = after (e.1).expires_at now

unfoldable pub remove_expired : Time → Cache → Cache
remove_expired now cache = keep (is_fresh now) cache

-- The inner loop of `makeCacheRoomLocked`: the key and the expiry found so far, if any.
unfoldable pub find_oldest : Option (CacheKey × Time) → Cache → Option (CacheKey × Time)
find_oldest best [] = best
find_oldest none ((key, entry) ∷ rest) = find_oldest (some (key, entry.expires_at)) rest
find_oldest (some (oldest_key, oldest)) ((key, entry) ∷ rest) =
    find_oldest
      (if before entry.expires_at oldest
        then some (key, entry.expires_at)
        else some (oldest_key, oldest))
      rest

abbrev pub delete_found : Option (CacheKey × Time) → Cache → Cache
delete_found none cache = cache
delete_found (some (key, t)) cache = delete key cache

-- Its outer loop, with the rounds left. Where the cache is empty the code returns and a round here
-- leaves it empty.
unfoldable pub evict : ℕ → ℕ → Cache → Cache
unfolding find_oldest
evict zero maximum cache = cache
evict (suc rounds) maximum cache =
    let rest = evict rounds maximum (delete_found (find_oldest none cache) cache) in
    if leb maximum (length cache) then rest else cache

unfoldable pub make_cache_room : ℕ → Time → Cache → Cache
unfolding evict remove_expired
make_cache_room maximum now cache =
    let kept = remove_expired now cache in evict (length kept) maximum kept

-- The cache hit of `Resolve`, after the expired entries are removed.
abbrev pub hit : Option CacheEntry → Option Result
hit none = none
hit (some entry) = some (record (entry.result) { cached = true })

unfoldable pub look_up : Time → CacheKey → Cache → Option Result × Cache
unfolding remove_expired
look_up now key cache = let kept = remove_expired now cache in (hit (lookup key kept), kept)

-- What `runLookup` does with a result: the time to live is held to the configured one, and without
-- a time to live nothing is stored. The clock is read twice.
unfoldable pub store : ℕ → ℕ → Time → Time → CacheKey → Result → ℕ → Cache → Cache
unfolding make_cache_room
store cache_ttl maximum now later key result ttl cache =
    let held = if ltb cache_ttl ttl then cache_ttl else ttl in
    let expiry = now + held in
    let stored : Result = record result {
      domain = key.domain;
      record_type = key.record_type;
      adapter = key.adapter;
      expires_at = some expiry;
    } in
    if ltb 0 held
    then insert key (record { result = stored; expires_at = expiry })
        (make_cache_room maximum later cache)
    else cache
