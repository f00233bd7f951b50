-- ===== src/Proxy/Config/Pool.antt =====
-- The channels that `normalizeChannels` of engine/internal/proxy/config.go lets through.
use hypomux_arch.Prelude.{
  suc, ◌≡◌, refl, sym, ap, ◌∙◌, subst, Bool, true, false, not, ◌||◌, ◌&&◌, List, [], ◌∷◌, ◌==◌, ◌⊎◌,
  inl, inr, arith, All, map, length, false_of_not,
}
use hypomux_arch.Prelude.Int.{pos, ltb_ℤ, pos_part}
use hypomux_arch.Prelude.Assoc.{beq, contains, nat_eq}
use hypomux_arch.Prelude.Unique.{NoRepeat, Unseen-head, Unseen-tail}
use hypomux_arch.Golang.Strings.{Text, text_eq, is_empty, trim_space}
use hypomux_arch.Golang.Results.{ok, and_then-eq-ok, ensure-eq-ok, ok-injective}
use hypomux_arch.Proxy.Adapter.{Adapter}
use hypomux_arch.Proxy.Config.{Channel, channel_direct}
use hypomux_arch.Proxy.Config.Channels.{
  is_supported, is_port, normalize_names, SeenChannels, see, normalize_channel, channels_loop,
  has_required, normalize_channels,
}

record AreKnown (known seen names : List Text) (given : List Text) : Type 0 where
  pub all_known : All (λ n. contains known n ≡ true) names
  pub new : All (λ n. contains seen n ≡ false) names
  pub no_repeat : NoRepeat (map (λ n. n) names)
  pub count : length names ≡ length given

normalize_names-AreKnown :
    (channel : Text) (known seen given : List Text) {names : List Text}
    → normalize_names channel known seen given ≡ ok names
    → AreKnown known seen names given
unfolding normalize_names
normalize_names-AreKnown channel known seen [] h =
    subst (λ names. AreKnown known seen names []) (ok-injective h)
      (record { all_known = tt; new = tt; no_repeat = tt; count = refl })
normalize_names-AreKnown channel known seen (raw ∷ given) h =
    let name = trim_space raw in
    let (found, h₁) = ensure-eq-ok (contains known name) _ _ h in
    let (new, h₂) = ensure-eq-ok (not (contains seen name)) _ _ h₁ in
    let (names, listed, h₃) =
      and_then-eq-ok (normalize_names channel known (name ∷ seen) given) _ h₂ in
    let later = normalize_names-AreKnown channel known (name ∷ seen) given listed in
    subst (λ names. AreKnown known seen names (raw ∷ given)) (ok-injective h₃)
      (record {
        all_known = (found, later.all_known);
        new = (false_of_not _ new, Unseen-tail (λ n. n) name seen names later.new);
        no_repeat = (Unseen-head (λ n. n) name seen names later.new, later.no_repeat);
        count = ap suc later.count;
      })

-- A channel of a pool: it has a name of its own and a port or none, and every channel but the direct
-- one has adapters, all of them known and none of them twice.
pub record IsServed (known : List Text) (c : Channel) : Type 0 where
  pub supported : is_supported c.name ≡ true
  pub port : is_port c.port ≡ true
  pub bound : (length c.adapter_names == 0) ≡ beq c.name channel_direct
  pub all_known : All (λ n. contains known n ≡ true) c.adapter_names
  pub no_repeat : NoRepeat (map (λ n. n) c.adapter_names)

normalize_channel-IsServed :
    (known : List Text) (seen : SeenChannels) (given : Channel) {c : Channel}
    → normalize_channel known seen given ≡ ok c
    → IsServed known c × (contains seen.names c.name ≡ false)
unfolding normalize_channel
normalize_channel-IsServed known seen given {c} h =
    let name = trim_space given.name in
    let direct = beq name channel_direct in
    let unbound = length given.adapter_names == 0 in
    let (named, h₁) = ensure-eq-ok (not (is_empty name)) _ _ h in
    let (supported, h₂) = ensure-eq-ok (is_supported name) _ _ h₁ in
    let (new, h₃) = ensure-eq-ok (not (contains seen.names name)) _ _ h₂ in
    let (port, h₄) = ensure-eq-ok (is_port given.port) _ _ h₃ in
    let (fresh, h₅) =
      ensure-eq-ok (not (ltb_ℤ (pos 0) given.port && contains seen.ports (pos_part given.port))) _ _
        h₄ in
    let (some_adapter, h₆) = ensure-eq-ok (direct || not unbound) _ _ h₅ in
    let (no_adapter, h₇) = ensure-eq-ok (not direct || unbound) _ _ h₆ in
    let (names, listed, h₈) =
      and_then-eq-ok (normalize_names name known [] given.adapter_names) _ h₇ in
    let all = normalize_names-AreKnown name known [] given.adapter_names listed in
    subst (λ c. IsServed known c × (contains seen.names c.name ≡ false)) (ok-injective h₈)
      (
        record {
          supported = supported;
          port = port;
          bound = ap (λ n. n == 0) all.count ∙ sym (agree direct unbound some_adapter no_adapter);
          all_known = all.all_known;
          no_repeat = all.no_repeat;
        },
        false_of_not _ new,
      )
  where
    agree : (b c : Bool) → (b || not c) ≡ true → (not b || c) ≡ true → b ≡ c
    agree b c h j = ground arith

pub record IsPool (known : List Text) (seen : List Text) (channels : List Channel) : Type 0 where
  pub names : NoRepeat (map (λ c. c.name) channels)
  pub new : All (λ c. contains seen c.name ≡ false) channels
  pub served : All (IsServed known) channels

channels_loop-IsPool :
    (known : List Text) (seen : SeenChannels) (given : List Channel) {channels : List Channel}
    → channels_loop known seen given ≡ ok channels
    → IsPool known seen.names channels
unfolding channels_loop
channels_loop-IsPool known seen [] h =
    subst (IsPool known seen.names) (ok-injective h) (record { names = tt; new = tt; served = tt })
channels_loop-IsPool known seen (g ∷ given) h =
    let (c, normal, h₁) = and_then-eq-ok (normalize_channel known seen g) _ h in
    let (rest, listed, h₂) = and_then-eq-ok (channels_loop known (see c seen) given) _ h₁ in
    let later = channels_loop-IsPool known (see c seen) given listed in
    let (served, new) = normalize_channel-IsServed known seen g normal in
    subst (IsPool known seen.names) (ok-injective h₂) (record {
      names = (Unseen-head (λ c. c.name) c.name seen.names rest later.new, later.names);
      new = (new, Unseen-tail (λ c. c.name) c.name seen.names rest later.new);
      served = (served, later.served);
    })

pub normalize_channels-IsPool :
    (adapters : List Adapter) (given : List Channel) {channels : List Channel}
    → normalize_channels adapters given ≡ ok channels
    → IsPool (map (λ a. a.name) adapters) [] channels
      × ((channels ≡ []) ⊎ (has_required channels ≡ true))
unfolding normalize_channels
normalize_channels-IsPool adapters [] h =
    subst (λ cs. IsPool (map (λ a. a.name) adapters) [] cs × ((cs ≡ []) ⊎ (has_required cs ≡ true)))
      (ok-injective h) (record { names = tt; new = tt; served = tt }, inl refl)
normalize_channels-IsPool adapters (c ∷ cs) h =
    let known = map (λ a. a.name) adapters in
    let (enough, h₁) = ensure-eq-ok _ _ _ h in
    let (channels, listed, h₂) =
      and_then-eq-ok (channels_loop known (record { names = []; ports = [] }) (c ∷ cs)) _ h₁ in
    let (required, h₃) = ensure-eq-ok (has_required channels) _ _ h₂ in
    subst (λ cs. IsPool known [] cs × ((cs ≡ []) ⊎ (has_required cs ≡ true))) (ok-injective h₃)
      (channels_loop-IsPool known (record { names = []; ports = [] }) (c ∷ cs) listed, inr required)
