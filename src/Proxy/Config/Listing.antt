-- ===== src/Proxy/Config/Listing.antt =====
-- The adapters that `normalizeConfig` of engine/internal/proxy/config.go lets through.
use hypomux_arch.Prelude.{
  suc, ◌≡◌, refl, sym, ap, ◌∙◌, subst, Bool, true, false, not, ◌||◌, List, [], ◌∷◌, Option, none,
  some, if◌then◌else◌, arith, All, false_of_not, map, length,
}
use hypomux_arch.Prelude.Int.{ℤ, pos, ltb_ℤ, ltb_ℤ→ge, ◌≤ℤ◌, ◌<ℤ◌}
use hypomux_arch.Prelude.Assoc.{contains}
use hypomux_arch.Prelude.Unique.{NoRepeat, Unseen, Unseen-head, Unseen-tail}
use hypomux_arch.Golang.Strings.{Text, text_eq, is_empty}
use hypomux_arch.Golang.Net.{Ip, parse_ip, is_unspecified_v6, is_multicast_v6, is_link_local_v6}
use hypomux_arch.Golang.Results.{Result, err, ok, and_then-eq-ok, ensure-eq-ok, ok-injective}
use hypomux_arch.Dns.Config.{ipv4_of, normalize_binding}
use hypomux_arch.Proxy.Adapter.{Adapter}
use hypomux_arch.Proxy.Config.{Refusal, wrap_fault}
use hypomux_arch.Proxy.Config.Adapters.{
  trim_adapter, with_source, ipv6_of, is_zero_int, with_ipv6, normalize_ipv6, positive_weight,
  normalize_adapter, Seen, enlist, adapter_dns_binding, normalize_adapters,
}

pub record IsUsable (a : Adapter) : Type 0 where
  pub named : is_empty a.name ≡ false
  pub positive : pos 0 <ℤ a.weight
  pub index : pos 0 ≤ℤ a.if_index
  pub ipv6_index : pos 0 ≤ℤ a.ipv6_if_index

err-ne-ok : {e : Refusal} {a : Adapter} → ◌≡◌ {A = Result Refusal Adapter} (err e) (ok a) → ⊥
err-ne-ok h = cc

with_source_keeps :
    (a : Adapter) (o : Option Ip) {b : Adapter} → with_source a o ≡ ok b → (b.name ≡ a.name)
with_source_keeps a none h = absurd (err-ne-ok h)
with_source_keeps a (some ip) h = sym (ap (λ b. b.name) (ok-injective h))

KeepsIndex : Adapter → Adapter → Type 0
KeepsIndex a b =
    (b.name ≡ a.name)
    × (b.if_index ≡ a.if_index)
    × (pos 0 ≤ℤ a.if_index → pos 0 ≤ℤ a.ipv6_if_index → pos 0 ≤ℤ b.ipv6_if_index)

with_ipv6-KeepsIndex :
    (a : Adapter) (o : Option Ip) {b : Adapter} → with_ipv6 a o ≡ ok b → KeepsIndex a b
unfolding KeepsIndex
with_ipv6-KeepsIndex a none h = absurd (err-ne-ok h)
with_ipv6-KeepsIndex a (some ip) h =
    let (usable, done) =
      ensure-eq-ok (not (is_unspecified_v6 ip || is_multicast_v6 ip || is_link_local_v6 ip)) _ _
        h in
    subst (KeepsIndex a) (ok-injective done)
      (refl, refl, λ i j. either (is_zero_int a.ipv6_if_index) i j)
  where
    either :
        (b : Bool)
        → pos 0 ≤ℤ a.if_index
        → pos 0 ≤ℤ a.ipv6_if_index
        → pos 0 ≤ℤ (if b then a.if_index else a.ipv6_if_index)
    either true i j = i
    either false i j = j

normalize_ipv6-KeepsIndex : (a : Adapter) {b : Adapter} → normalize_ipv6 a ≡ ok b → KeepsIndex a b
unfolding KeepsIndex
normalize_ipv6-KeepsIndex a {b} h = split (is_empty a.source_ipv6) h
  where
    split :
        (none_given : Bool)
        → (if none_given then ok a else with_ipv6 a (ipv6_of (parse_ip a.source_ipv6))) ≡ ok b
        → KeepsIndex a b
    split true h = subst (KeepsIndex a) (ok-injective h) (refl, refl, λ i j. j)
    split false h = with_ipv6-KeepsIndex a (ipv6_of (parse_ip a.source_ipv6)) h

positive_weight_lem : (w : ℤ) → pos 0 <ℤ positive_weight w
positive_weight_lem w = ground arith

normalize_adapter-IsUsable :
    (given : Adapter) {a : Adapter} → normalize_adapter given ≡ ok a → IsUsable a
unfolding normalize_adapter KeepsIndex
normalize_adapter-IsUsable given h =
    let trimmed = trim_adapter given in
    let (named, h₁) = ensure-eq-ok (not (is_empty trimmed.name)) _ _ h in
    let (a, sourced, h₂) =
      and_then-eq-ok (with_source trimmed (ipv4_of (parse_ip trimmed.source_ip))) _ h₁ in
    let (index, h₃) = ensure-eq-ok (not (ltb_ℤ a.if_index (pos 0))) _ _ h₂ in
    let (ipv6_index, h₄) = ensure-eq-ok (not (ltb_ℤ a.ipv6_if_index (pos 0))) _ _ h₃ in
    let (b, addressed, h₅) = and_then-eq-ok (normalize_ipv6 a) _ h₄ in
    let (binding, bound, h₆) =
      and_then-eq-ok (wrap_fault (normalize_binding (adapter_dns_binding b))) _ h₅ in
    let same = with_source_keeps trimmed _ sourced in
    let (name, if_index, ipv6_if_index) = normalize_ipv6-KeepsIndex a addressed in
    subst IsUsable (ok-injective h₆) (record {
      named = subst (λ n. is_empty n ≡ false) (sym (name ∙ same)) (false_of_not _ named);
      positive = positive_weight_lem b.weight;
      index =
          subst (λ i. pos 0 ≤ℤ i) (sym if_index)
            (ltb_ℤ→ge a.if_index (pos 0) (false_of_not _ index));
      ipv6_index =
          ipv6_if_index (ltb_ℤ→ge a.if_index (pos 0) (false_of_not _ index))
            (ltb_ℤ→ge a.ipv6_if_index (pos 0) (false_of_not _ ipv6_index));
    })

-- The IPv6 addresses that are set.
abbrev pub ipv6s_of : List Adapter → List Text
ipv6s_of [] = []
ipv6s_of (a ∷ rest) =
    let others = ipv6s_of rest in if is_empty a.source_ipv6 then others else a.source_ipv6 ∷ others

-- A list that the loop makes of adapters, after it has seen some.
pub record IsListed (seen : Seen) (adapters : List Adapter) : Type 0 where
  pub names : NoRepeat (map (λ a. a.name) adapters)
  pub ips : NoRepeat (map (λ a. a.source_ip) adapters)
  pub ipv6s : NoRepeat (map (λ t. t) (ipv6s_of adapters))
  pub new_ipv6s : Unseen (λ t. t) seen.ipv6s (ipv6s_of adapters)
  pub new_names : All (λ a. contains seen.names a.name ≡ false) adapters
  pub new_ips : All (λ a. contains seen.ips a.source_ip ≡ false) adapters
  pub usable : All IsUsable adapters

pub length-normalize_adapters :
    (given : List Adapter) (seen : Seen) {adapters : List Adapter}
    → normalize_adapters seen given ≡ ok adapters
    → length adapters ≡ length given
unfolding normalize_adapters
length-normalize_adapters [] seen h = sym (ap length (ok-injective h))
length-normalize_adapters (g ∷ given) seen h =
    let (a, normal, h₁) = and_then-eq-ok (normalize_adapter g) _ h in
    let (seen', enlisted, h₂) = and_then-eq-ok (enlist seen a) _ h₁ in
    let (rest, listed, h₃) = and_then-eq-ok (normalize_adapters seen' given) _ h₂ in
    let later = length-normalize_adapters given seen' listed in
    sym (ap length (ok-injective h₃)) ∙ ap suc later

-- An adapter more, whose IPv6 address is empty or was not seen.
ipv6s_step :
    (blank : Bool) (ip : Text) (seen later : List Text)
    → (blank || not (contains seen ip)) ≡ true
    → Unseen (λ t. t) (if blank then seen else ip ∷ seen) later
    → NoRepeat (map (λ t. t) later)
    → Unseen (λ t. t) seen (if blank then later else ip ∷ later)
      × NoRepeat (map (λ t. t) (if blank then later else ip ∷ later))
ipv6s_step true ip seen later h new d = (new, d)
ipv6s_step false ip seen later h new d = (
  (false_of_not _ h, Unseen-tail (λ t. t) ip seen later new),
  (Unseen-head (λ t. t) ip seen later new, d),
)

pub normalize_adapters-IsListed :
    (given : List Adapter) (seen : Seen) {adapters : List Adapter}
    → normalize_adapters seen given ≡ ok adapters
    → IsListed seen adapters
unfolding normalize_adapters enlist
normalize_adapters-IsListed [] seen h = subst (IsListed seen) (ok-injective h) (record {
  names = tt;
  ips = tt;
  ipv6s = tt;
  new_ipv6s = tt;
  new_names = tt;
  new_ips = tt;
  usable = tt;
})
normalize_adapters-IsListed (g ∷ given) seen h =
    let (a, normal, h₁) = and_then-eq-ok (normalize_adapter g) _ h in
    let (seen', enlisted, h₂) = and_then-eq-ok (enlist seen a) _ h₁ in
    let (rest, listed, h₃) = and_then-eq-ok (normalize_adapters seen' given) _ h₂ in
    let (name, e₁) = ensure-eq-ok (not (contains seen.names a.name)) _ _ enlisted in
    let (ip, e₂) = ensure-eq-ok (not (contains seen.ips a.source_ip)) _ _ e₁ in
    let (ipv6, e₃) =
      ensure-eq-ok (is_empty a.source_ipv6 || not (contains seen.ipv6s a.source_ipv6)) _ _ e₂ in
    let later = normalize_adapters-IsListed given seen' listed in
    let names =
      subst (λ s. All (λ b. contains s.names b.name ≡ false) rest) (sym (ok-injective e₃))
        later.new_names in
    let ips =
      subst (λ s. All (λ b. contains s.ips b.source_ip ≡ false) rest) (sym (ok-injective e₃))
        later.new_ips in
    let (new_ipv6, ipv6s) =
      ipv6s_step (is_empty a.source_ipv6) a.source_ipv6 seen.ipv6s (ipv6s_of rest) ipv6
        (subst (λ s. Unseen (λ t. t) s.ipv6s (ipv6s_of rest)) (sym (ok-injective e₃))
          later.new_ipv6s)
        later.ipv6s in
    subst (IsListed seen) (ok-injective h₃) (record {
      ipv6s = ipv6s;
      new_ipv6s = new_ipv6;
      names = (Unseen-head (λ b. b.name) a.name seen.names rest names, later.names);
      ips = (Unseen-head (λ b. b.source_ip) a.source_ip seen.ips rest ips, later.ips);
      new_names = (false_of_not _ name, Unseen-tail (λ b. b.name) a.name seen.names rest names);
      new_ips = (false_of_not _ ip, Unseen-tail (λ b. b.source_ip) a.source_ip seen.ips rest ips);
      usable = (normalize_adapter-IsUsable g normal, later.usable);
    })
