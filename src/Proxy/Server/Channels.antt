-- ===== src/Proxy/Server/Channels.antt =====
-- The schedulers that `New` of engine/internal/proxy/server.go makes for the channels.
use hypomux_arch.Prelude.{
  ◌↔◌, mem_of_mem-keep, keep-true, ℕ, ◌+◌, ◌*◌, ◌≤◌, ◌<◌, ◌≡◌, refl, sym, ap, ◌∙◌, subst, Bool,
  true, false, List, [], ◌∷◌, some, inl, inr, Bool-cases, arith, All, map, length, keep, Memᴰ,
  All_mem, mem-keep,
}
use hypomux_arch.Prelude.Int.{pos_part}
use hypomux_arch.Prelude.Assoc.{beq, beq_refl, contains, lookup, insert, lookup-insert}
use hypomux_arch.Prelude.Unique.{NoRepeat}
use hypomux_arch.Golang.Strings.{Text, text_eq}
use hypomux_arch.Golang.Time.{Time}
use hypomux_arch.Golang.Results.{ok, and_then-eq-ok, ok-injective}
use hypomux_arch.Proxy.Adapter.{Adapter}
use hypomux_arch.Proxy.Health.{HealthTable}
use hypomux_arch.Proxy.Scheduler.{Scheduler, new_scheduler}
use hypomux_arch.Proxy.Scheduler.Weights.{names, DistinctNames, total_weight}
use hypomux_arch.Proxy.Scheduler.Share.{wins, wins_share}
use hypomux_arch.Proxy.Config.{Channel, Config, channel_direct, adapters_for_channel}
use hypomux_arch.Proxy.Config.Normalize.{normalize_config}
use hypomux_arch.Proxy.Config.Listing.{IsUsable}
use hypomux_arch.Proxy.Config.Normal.{IsNormal, normalize_config-IsNormal}
use hypomux_arch.Proxy.Server.{Server, add_schedulers, assemble, new_server}

module _ (p : Adapter → Bool) where
  contains-names-keep :
      (adapters : List Adapter) (name : Text)
      → contains (map (λ a. a.name) adapters) name ≡ false
      → contains (names (keep p adapters)) name ≡ false
  contains-names-keep [] name h = refl
  contains-names-keep (a ∷ rest) name h = ground (arith, contains-names-keep rest name)

  DistinctNames-keep :
      (adapters : List Adapter)
      → NoRepeat (map (λ a. a.name) adapters)
      → DistinctNames (keep p adapters)
  DistinctNames-keep [] d = tt
  DistinctNames-keep (a ∷ rest) d = elim (Bool-cases (p a)) [
    | inl kept ↦ rw kept (contains-names-keep rest a.name d.0, DistinctNames-keep rest d.1)
    | inr dropped ↦ rw dropped (DistinctNames-keep rest d.1)
  ]

-- The scheduler that the loop makes for a channel.
abbrev pub scheduler_for : Config → HealthTable → Channel → Scheduler
scheduler_for c health channel =
    (new_scheduler (adapters_for_channel c.adapters channel) c.weighted (some health)).0

-- A channel that is not among the others keeps its entry.
lookup-add_schedulers_other :
    (c : Config) (health : HealthTable) (channels : List Channel) (m : List (Text × Scheduler))
    (name : Text)
    → contains (map (λ d. d.name) channels) name ≡ false
    → lookup name (add_schedulers c health channels m) ≡ lookup name m
unfolding add_schedulers
lookup-add_schedulers_other c health [] m name h = refl
lookup-add_schedulers_other c health (d ∷ rest) m name h =
    elim (Bool-cases (beq d.name channel_direct)) [
      | inl direct ↦ rw direct (lookup-add_schedulers_other c health rest m name (apart.1))
      | inr other ↦ rw other (
          lookup-add_schedulers_other c health rest (insert d.name (scheduler_for c health d) m)
            name apart.1
          ∙ rw (lookup-insert d.name name (scheduler_for c health d) m, apart.0) refl)
    ]
  where
    apart : (beq d.name name ≡ false) × (contains (map (λ d. d.name) rest) name ≡ false)
    apart = ground arith

lookup-add_schedulers_first :
    (c : Config) (health : HealthTable) (e : Channel) (rest : List Channel)
    (m : List (Text × Scheduler))
    → contains (map (λ d. d.name) rest) e.name ≡ false
    → beq e.name channel_direct ≡ false
    → lookup e.name (add_schedulers c health (e ∷ rest) m) ≡ some (scheduler_for c health e)
unfolding add_schedulers
lookup-add_schedulers_first c health e rest m new other = rw other (
    lookup-add_schedulers_other c health rest (insert e.name (scheduler_for c health e) m) e.name
      new
    ∙ rw (lookup-insert e.name e.name (scheduler_for c health e) m, beq_refl e.name) refl)

pub lookup-add_schedulers :
    (c : Config) (health : HealthTable) (channels : List Channel) (m : List (Text × Scheduler))
    (channel : Channel)
    → NoRepeat (map (λ d. d.name) channels)
    → Memᴰ channel channels
    → beq channel.name channel_direct ≡ false
    → lookup channel.name (add_schedulers c health channels m)
      ≡ some (scheduler_for c health channel)
unfolding add_schedulers
lookup-add_schedulers c health [] m channel d n other = elim n [ ]
lookup-add_schedulers c health (e ∷ rest) m channel d (Memᴰ.head same) other =
    subst
      (λ x. lookup x.name (add_schedulers c health (e ∷ rest) m) ≡ some (scheduler_for c health x))
      (sym same)
      (lookup-add_schedulers_first c health e rest m d.0
        (subst (λ x. beq x.name channel_direct ≡ false) same other))
lookup-add_schedulers c health (e ∷ rest) m channel d (Memᴰ.tail n) other =
    lookup-add_schedulers c health rest _ channel d.1 n other

-- What `wins_share` states of candidates.
abbrev pub HasShare : Adapter → List Adapter → ℕ → Adapter → Type 0
HasShare first rest k a =
    let W = pos_part (total_weight (first ∷ rest)) in
    let won = wins k [] first rest a.name in
    (won * W < k * pos_part a.weight + W)
    × (k * pos_part a.weight + W ≤ won * W + length (first ∷ rest) * W)

share_of :
    (offered : List Adapter) (a : Adapter) (k : ℕ)
    → DistinctNames offered
    → All IsUsable offered
    → Memᴰ a offered
    → (first : Adapter) × (rest : List Adapter) × (offered ≡ first ∷ rest) × HasShare first rest k a
share_of [] a k d usable n = elim n [ ]
share_of (first ∷ rest) a k d usable n = (
  first,
  rest,
  refl,
  wins_share first rest d (λ b there. (All_mem IsUsable (first ∷ rest) b usable there).positive) k a
      n,
)

IsUsable-keep :
    (p : Adapter → Bool) (adapters : List Adapter)
    → All IsUsable adapters
    → All IsUsable (keep p adapters)
IsUsable-keep p [] usable = tt
IsUsable-keep p (a ∷ rest) usable = elim (Bool-cases (p a)) [
  | inl kept ↦ rw kept (usable.0, IsUsable-keep p rest usable.1)
  | inr dropped ↦ rw dropped (IsUsable-keep p rest usable.1)
]

-- The channel has a scheduler. Its adapters have different names; `b`, any adapter, is among them just
-- if it is one of the server's that the channel names; and `a` has its share of `k` rounds of them.
abbrev pub IsShared : Server → Channel → Adapter → Adapter → ℕ → Type 0
IsShared s channel a b k =
    (first : Adapter) × (rest : List Adapter) × (lookup channel.name s.schedulers
      ≡ some (record {
        adapters = first ∷ rest;
        weighted = s.config.weighted;
        next = 0;
        current_weight = [];
      }))
    × DistinctNames (first ∷ rest)
    × (Memᴰ b (first ∷ rest)
        ↔ (Memᴰ b s.config.adapters × (contains channel.adapter_names b.name ≡ true)))
    × HasShare first rest k a

keep_members :
    (p : Adapter → Bool) (adapters offered : List Adapter) (b : Adapter)
    → keep p adapters ≡ offered
    → Memᴰ b offered ↔ (Memᴰ b adapters × (p b ≡ true))
keep_members p adapters offered b e =
    subst (λ xs. Memᴰ b xs ↔ (Memᴰ b adapters × (p b ≡ true))) e
      (
        (λ m. (mem_of_mem-keep p adapters b m, keep-true p adapters b m)),
        (λ m. mem-keep p adapters b m.0 m.1),
      )

assemble-IsShared :
    (now : Time) (c : Config) (channel : Channel) (a b : Adapter) (k : ℕ)
    → IsNormal now c
    → beq channel.name channel_direct ≡ false
    → contains channel.adapter_names a.name ≡ true
    → Memᴰ channel (assemble c).config.channels
    → Memᴰ a (assemble c).config.adapters
    → IsShared (assemble c) channel a b k
unfolding assemble new_scheduler adapters_for_channel
assemble-IsShared now c channel a b k normal other named n member =
    let allowed : Adapter → Bool = λ x. contains channel.adapter_names x.name in
    let distinct = DistinctNames-keep allowed c.adapters normal.adapters.names in
    let (first, rest, offered, share) =
      share_of (keep allowed c.adapters) a k distinct
        (IsUsable-keep allowed c.adapters normal.adapters.usable)
        (mem-keep allowed c.adapters a member named) in
    let found =
      lookup-add_schedulers c (assemble c).health c.channels [] channel normal.channels.names n
        other in
    (
      first,
      rest,
      found
          ∙ ap
              (λ xs.
                some
                  (record { adapters = xs; weighted = c.weighted; next = 0; current_weight = [] }))
              offered,
      subst DistinctNames offered distinct,
      keep_members allowed c.adapters (first ∷ rest) b offered,
      share,
    )

-- In a server that `New` makes of a configuration that it accepts, every channel but the direct one
-- has a scheduler. Its adapters have different names and are just those adapters of the server that
-- the channel names. Of the first `k` weighted rounds, with all these `n` adapters as candidates in
-- each, such an adapter of weight `w` in a total of `W` wins less than one round more than
-- `k * w / W`, and at most n - 1 rounds fewer; weights are integers without bound.
pub channel_share :
    (now : Time) (config : Config) {s : Server} (channel : Channel) (a b : Adapter) (k : ℕ)
    → new_server now config ≡ ok s
    → beq channel.name channel_direct ≡ false
    → contains channel.adapter_names a.name ≡ true
    → Memᴰ channel s.config.channels
    → Memᴰ a s.config.adapters
    → IsShared s channel a b k
unfolding new_server
channel_share now config channel a b k made other named =
    let (c, normalized, assembled) =
      and_then-eq-ok (normalize_config now config) (λ c. ok (assemble c)) made in
    subst
      (λ t. Memᴰ channel t.config.channels → Memᴰ a t.config.adapters → IsShared t channel a b k)
      (ok-injective assembled)
      (assemble-IsShared now c channel a b k (normalize_config-IsNormal now config normalized) other
        named)
