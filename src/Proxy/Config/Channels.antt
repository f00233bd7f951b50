-- ===== src/Proxy/Config/Channels.antt =====
-- `normalizeChannels` of engine/internal/proxy/config.go.
use hypomux_arch.Prelude.{
  ℕ, Bool, not, ◌&&◌, ◌||◌, List, [], ◌∷◌, map, leb, ltb, ◌==◌, length, take, if◌then◌else◌,
}
use hypomux_arch.Prelude.Int.{ℤ, pos, ltb_ℤ, pos_part}
use hypomux_arch.Prelude.Assoc.{beq, contains, nat_eq}
use hypomux_arch.Golang.Strings.{Text, text_eq, bytes, is_empty, trim_space}
use hypomux_arch.Golang.Results.{Result, ok, and_then, ensure}
use hypomux_arch.Proxy.Adapter.{Adapter}
use hypomux_arch.Proxy.Config.{
  Channel, channel_ethernet, channel_wifi, channel_aggregation, channel_direct, Refusal,
  baseline_channels_required, channel_name_required, missing_required_channel, unsupported_channel,
  duplicate_channel, channel_without_adapter, invalid_channel_port, duplicate_channel_port,
  direct_with_adapters, unknown_adapter, repeated_adapter,
}

abbrev pub required_channels : List Text
required_channels = channel_ethernet ∷ channel_wifi ∷ channel_aggregation ∷ []

abbrev pub is_supported : Text → Bool
is_supported name =
    contains required_channels name
    || beq name channel_direct
    || (beq (take 4 name) (bytes "nic_") && ltb 4 (length name))

-- The inner loop: the adapters that the channel names.
unfoldable pub normalize_names :
    Text → List Text → List Text → List Text → Result Refusal (List Text)
unfolding trim_space
normalize_names channel known seen [] = ok []
normalize_names channel known seen (raw ∷ rest) =
    let name = trim_space raw in
    ensure (contains known name) (unknown_adapter channel name) (
      ensure (not (contains seen name)) (repeated_adapter channel name)
        (and_then (normalize_names channel known (name ∷ seen) rest) (λ names. ok (name ∷ names))))

pub record SeenChannels : Type 0 where
  pub names : List Text
  pub ports : List ℕ

abbrev pub is_port : ℤ → Bool
is_port p = not (ltb_ℤ p (pos 0)) && not (ltb_ℤ (pos 65535) p)

-- The outer loop's body; port 0 lets the system choose.
unfoldable pub normalize_channel : List Text → SeenChannels → Channel → Result Refusal Channel
unfolding normalize_names trim_space
normalize_channel known seen given =
    let name = trim_space given.name in
    let direct = beq name channel_direct in
    let unbound = length given.adapter_names == 0 in
    ensure (not (is_empty name)) channel_name_required (
      ensure (is_supported name) (unsupported_channel name) (
        ensure (not (contains seen.names name)) (duplicate_channel name) (
          ensure (is_port given.port) (invalid_channel_port name given.port) (
            ensure (not (ltb_ℤ (pos 0) given.port && contains seen.ports (pos_part given.port)))
              (duplicate_channel_port given.port)
              (ensure (direct || not unbound) (channel_without_adapter name) (
                ensure (not direct || unbound) direct_with_adapters (
                  and_then (normalize_names name known [] given.adapter_names) (λ names.
                    ok (record { name = name; port = given.port; adapter_names = names })))))))))

abbrev pub see : Channel → SeenChannels → SeenChannels
see c seen = record {
  names = c.name ∷ seen.names;
  ports = if ltb_ℤ (pos 0) c.port then pos_part c.port ∷ seen.ports else seen.ports;
}

unfoldable pub channels_loop :
    List Text → SeenChannels → List Channel → Result Refusal (List Channel)
unfolding normalize_channel
channels_loop known seen [] = ok []
channels_loop known seen (given ∷ rest) =
    and_then (normalize_channel known seen given)
      (λ c. and_then (channels_loop known (see c seen) rest) (λ channels. ok (c ∷ channels)))

abbrev pub has_required : List Channel → Bool
has_required channels =
    let names = map (λ c. c.name) channels in
    contains names channel_ethernet
    && contains names channel_wifi
    && contains names channel_aggregation

unfoldable pub normalize_channels : List Adapter → List Channel → Result Refusal (List Channel)
unfolding channels_loop
normalize_channels adapters [] = ok []
normalize_channels adapters (c ∷ cs) = ensure (leb 3 (length (c ∷ cs))) baseline_channels_required (
    and_then
      (channels_loop (map (λ a. a.name) adapters) (record { names = []; ports = [] }) (c ∷ cs))
      (λ channels. ensure (has_required channels) missing_required_channel (ok channels)))
