-- ===== src/Dns/Config/Normal.antt =====
-- What engine/internal/dns/config.go promises of a configuration that it accepts.
use hypomux_arch.Prelude.{
  ℕ, ◌*◌, ◌≡◌, subst, true, ◌||◌, List, [], ◌∷◌, ◌++◌, inl, inr, Bool-cases, arith, ◌≤◌,
}
use hypomux_arch.Prelude.Int.{ℤ, pos, ◌≤ℤ◌, ◌<ℤ◌}
use hypomux_arch.Prelude.Assoc.{contains}
use hypomux_arch.Prelude.Unique.{NoRepeat, NoRepeat_snoc, contains-append}
use hypomux_arch.Golang.Strings.{Text, text_eq}
use hypomux_arch.Golang.Time.{second, minute}
use hypomux_arch.Golang.Results.{ok, and_then-eq-ok, ensure-eq-ok, ok-injective}
use hypomux_arch.Dns.Config.{
  Config, policies, default_legacy_servers, append_new, normalize_server, normalize_ipv4_list,
  clamp, normalize_policy, normalize_config,
}

pub NoRepeat-append_new :
    (result servers : List Text) → NoRepeat result → NoRepeat (append_new result servers)
unfolding append_new
NoRepeat-append_new result [] d = d
NoRepeat-append_new result (s ∷ servers) d = elim (Bool-cases (contains result s)) [
  | inl there ↦ rw there (NoRepeat-append_new result servers d)
  | inr new ↦
      rw new (NoRepeat-append_new (result ++ (s ∷ [])) servers (NoRepeat_snoc result s d new))
]

-- The list holds what either list holds.
pub contains-append_new :
    (result servers : List Text) (t : Text)
    → contains (append_new result servers) t ≡ (contains result t || contains servers t)
unfolding append_new
contains-append_new result [] t = ground arith
contains-append_new result (s ∷ servers) t = elim (Bool-cases (contains result s)) [
  | inl there ↦ rw there (ground (arith, contains-append_new result servers t, text_eq.beq_iff s t))
  | inr new ↦ rw new (
      ground (
        arith,
        contains-append_new (result ++ (s ∷ [])) servers t,
        contains-append result (s ∷ []) t,
      ))
]

pub normalize_ipv4_list-NoRepeat :
    (values result : List Text) {servers : List Text}
    → NoRepeat result
    → normalize_ipv4_list result values ≡ ok servers
    → NoRepeat servers
unfolding normalize_ipv4_list
normalize_ipv4_list-NoRepeat [] result d h = subst NoRepeat (ok-injective h) d
normalize_ipv4_list-NoRepeat (v ∷ values) result d h =
    let (text, found, later) =
      and_then-eq-ok (normalize_server v)
        (λ text. normalize_ipv4_list (append_new result text) values) h in
    normalize_ipv4_list-NoRepeat values (append_new result text) (NoRepeat-append_new result text d)
      later

pub clamp_bounds :
    (default maximum : ℕ) (z : ℤ)
    → 1 ≤ default
    → default ≤ maximum
    → (pos 0 <ℤ clamp (pos default) (pos maximum) z)
      × (clamp (pos default) (pos maximum) z ≤ℤ pos maximum)
clamp_bounds default maximum z h j = ground (arith)

pub record IsAccepted (c : Config) : Type 0 where
  pub supported : contains policies c.policy ≡ true
  pub no_repeat : NoRepeat c.legacy_servers
  pub defaults :
      (s : Text) → contains default_legacy_servers s ≡ true → contains c.legacy_servers s ≡ true
  pub ttl : (pos 0 <ℤ c.cache_ttl) × (c.cache_ttl ≤ℤ pos (24 * (60 * minute)))
  pub timeout : (pos 0 <ℤ c.query_timeout) × (c.query_timeout ≤ℤ pos (30 * second))
  pub entries : (pos 0 <ℤ c.max_cache_entries) × (c.max_cache_entries ≤ℤ pos 65536)
  pub threshold : (pos 0 <ℤ c.failure_threshold) × (c.failure_threshold ≤ℤ pos 100)

-- What the resolver is given: when `NormalizeConfig` returns no error, the policy is one of the five,
-- no legacy server stands twice, the two default servers are among them, and the durations and the
-- counts are positive and within their maxima.
pub normalize_config-IsAccepted :
    (c : Config) {c' : Config} → normalize_config c ≡ ok c' → IsAccepted c'
unfolding normalize_config
normalize_config-IsAccepted c h =
    let (supported, h₁) = ensure-eq-ok (contains policies (normalize_policy c.policy)) _ _ h in
    let (servers, found, h₂) = and_then-eq-ok (normalize_ipv4_list [] c.legacy_servers) _ h₁ in
    subst IsAccepted (ok-injective h₂) (record {
      supported = supported;
      no_repeat =
          NoRepeat-append_new servers default_legacy_servers
            (normalize_ipv4_list-NoRepeat c.legacy_servers [] tt found);
      defaults =
          λ s there. ground (arith, contains-append_new servers default_legacy_servers s, there);
      ttl =
          clamp_bounds (180 * second) (24 * (60 * minute)) c.cache_ttl (omega arith) (omega arith);
      timeout = clamp_bounds (4 * second) (30 * second) c.query_timeout (omega arith) (omega arith);
      entries = clamp_bounds 1024 65536 c.max_cache_entries (omega arith) (omega arith);
      threshold = clamp_bounds 3 100 c.failure_threshold (omega arith) (omega arith);
    })
