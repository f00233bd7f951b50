-- ===== src/Dns/Fallback/Calls.antt =====
-- How often the calls of `recordStrictFailure` of engine/internal/dns/resolver.go tell the handler.
use hypomux_arch.Prelude.{
  ℕ, ◌+◌, ◌≤◌, ◌≡◌, refl, sym, ap, ◌∙◌, Bool, true, false, not, ◌&&◌, List, [], ◌∷◌, Option, none,
  some, arith, leb, if◌then◌else◌, All, inl, inr, Bool-cases,
}
use hypomux_arch.Prelude.Assoc.{beq, beq_refl, lookup, insert, delete, lookup-insert, lookup-delete}
use hypomux_arch.Golang.Strings.{Text, text_eq}
use hypomux_arch.Dns.Config.{Binding}
use hypomux_arch.Dns.Fallback.{
  binding_key, Failures, FallbackEvent, record_doh_success, count_of, flag_of,
  record_strict_failure,
}

-- A call of `recordDoHSuccess`, or of `recordStrictFailure` with the error's text.
pub data Attempt : Type 0 where
  succeeded : Binding → Attempt
  failed : Binding → Text → Attempt

abbrev pub told : Option FallbackEvent → ℕ
told none = 0
told (some e) = 1

-- How many of the calls cause a notice for the binding.
abbrev pub notices : ℕ → Text → Failures → List Attempt → Binding → ℕ
notices threshold policy s [] b = 0
notices threshold policy s (succeeded c ∷ rest) b =
    notices threshold policy (record_doh_success c s) rest b
notices threshold policy s (failed c text ∷ rest) b =
    let (s', event) = record_strict_failure threshold policy c text s in
    (if beq (binding_key c) (binding_key b) then told event else 0)
    + notices threshold policy s' rest b

-- How many of them are failures of the binding.
abbrev pub failures : List Attempt → Binding → ℕ
failures [] b = 0
failures (succeeded c ∷ rest) b = failures rest b
failures (failed c text ∷ rest) b =
    (if beq (binding_key c) (binding_key b) then 1 else 0) + failures rest b

-- The call is no success of the binding.
abbrev pub IsNoSuccess : Binding → Attempt → Type 0
IsNoSuccess b (succeeded c) = beq (binding_key c) (binding_key b) ≡ false
IsNoSuccess b (failed c text) = Unit

abbrev count : Failures → Binding → ℕ
count s b = count_of (lookup (binding_key b) s.strict_failures)

abbrev flag : Failures → Binding → Bool
flag s b = flag_of (lookup (binding_key b) s.fallback_emitted)

-- What a failure does to the count and the flag of its binding, and to the handler.
record_strict_failure_self :
    (threshold : ℕ) (policy : Text) (c : Binding) (text : Text) (s : Failures)
    → s.listens ≡ true
    → flag s c ≡ leb threshold (count s c)
    → let (s', event) = record_strict_failure threshold policy c text s in
      (count s' c ≡ count s c + 1)
      × (flag s' c ≡ leb threshold (count s c + 1))
      × (told event ≡ (
          if leb threshold (count s c) then 0 else if leb threshold (count s c + 1) then 1 else 0))
      × (s'.listens ≡ true)
unfolding record_strict_failure
record_strict_failure_self threshold policy c text s listens agree =
    elim (Bool-cases (leb threshold (count s c + 1) && not (flag s c))) [
      | inl tells ↦
          let below : leb threshold (count s c) ≡ false = ground arith in
          let reached : leb threshold (count s c + 1) ≡ true = ground arith in
          rw tells (
            ap count_of (lookup_self (count s c + 1) s.strict_failures),
            ap flag_of (lookup_self true s.fallback_emitted) ∙ sym reached,
            rw (below, reached, listens) refl,
            listens,
          )
      | inr silent ↦ rw silent (
        ap count_of (lookup_self (count s c + 1) s.strict_failures),
        ground arith,
        ground arith,
        listens,
      )
    ]
  where
    lookup_self :
        {V : Type 0} (v : V) (m : List (Text × V))
        → lookup (binding_key c) (insert (binding_key c) v m) ≡ some v
    lookup_self v m =
        lookup-insert (binding_key c) (binding_key c) v m
        ∙ ap (λ x. if x then some v else lookup (binding_key c) m) (beq_refl (binding_key c))

record_strict_failure_other :
    (threshold : ℕ) (policy : Text) (c b : Binding) (text : Text) (s : Failures)
    → beq (binding_key c) (binding_key b) ≡ false
    → let s' = (record_strict_failure threshold policy c text s).0 in
      (count s' b ≡ count s b) × (flag s' b ≡ flag s b) × (s'.listens ≡ s.listens)
unfolding record_strict_failure
record_strict_failure_other threshold policy c b text s differs =
    elim (Bool-cases (leb threshold (count s c + 1) && not (flag s c))) [
      | inl tells ↦ rw tells (
        ap count_of (lookup_other (count s c + 1) s.strict_failures),
        ap flag_of (lookup_other true s.fallback_emitted),
        refl,
      )
      | inr silent ↦
          rw silent (ap count_of (lookup_other (count s c + 1) s.strict_failures), refl, refl)
    ]
  where
    lookup_other :
        {V : Type 0} (v : V) (m : List (Text × V))
        → lookup (binding_key b) (insert (binding_key c) v m) ≡ lookup (binding_key b) m
    lookup_other v m =
        lookup-insert (binding_key c) (binding_key b) v m
        ∙ ap (λ x. if x then some v else lookup (binding_key b) m) differs

record_doh_success_other :
    (c b : Binding) (s : Failures)
    → beq (binding_key c) (binding_key b) ≡ false
    → let s' = record_doh_success c s in
      (count s' b ≡ count s b) × (flag s' b ≡ flag s b) × (s'.listens ≡ s.listens)
unfolding record_doh_success
record_doh_success_other c b s differs = (
  ap count_of (lookup_other s.strict_failures),
  ap flag_of (lookup_other s.fallback_emitted),
  refl,
)
  where
    lookup_other :
        {V : Type 0} (m : List (Text × V))
        → lookup (binding_key b) (delete (binding_key c) m) ≡ lookup (binding_key b) m
    lookup_other m =
        lookup-delete (binding_key c) (binding_key b) m
        ∙ ap (λ x. if x then none else lookup (binding_key b) m) differs

notices_from :
    (threshold : ℕ) (policy : Text) (s : Failures) (attempts : List Attempt) (b : Binding) (n : ℕ)
    → All (IsNoSuccess b) attempts
    → s.listens ≡ true
    → count s b ≡ n
    → flag s b ≡ leb threshold n
    → notices threshold policy s attempts b
      ≡ (if leb threshold n then 0 else if leb threshold (n + failures attempts b) then 1 else 0)
notices_from threshold policy s [] b n h listens counted agree = ground arith
notices_from threshold policy s (succeeded c ∷ rest) b n h listens counted agree =
    let (count', flag', listens') = record_doh_success_other c b s h.0 in
    notices_from threshold policy (record_doh_success c s) rest b n h.1 (listens' ∙ listens)
      (count' ∙ counted) (flag' ∙ agree)
notices_from threshold policy s (failed c text ∷ rest) b n h listens counted agree =
    elim (Bool-cases (beq (binding_key c) (binding_key b))) [
      | inl same ↦
          let keys = (text_eq.beq_iff (binding_key c) (binding_key b)).0 same in
          let s' = (record_strict_failure threshold policy c text s).0 in
          let counted_c : count s c ≡ n =
            ap (λ k. count_of (lookup k s.strict_failures)) keys ∙ counted in
          let agree_c : flag s c ≡ leb threshold (count s c) =
            ap (λ k. flag_of (lookup k s.fallback_emitted)) keys
            ∙ agree
            ∙ ap (leb threshold) (sym counted_c) in
          let (count', flag', told', listens') =
            record_strict_failure_self threshold policy c text s listens agree_c in
          let later =
            notices_from threshold policy s' rest b (n + 1) h.1 listens'
              (ap (λ k. count_of (lookup k s'.strict_failures)) (sym keys)
                ∙ count'
                ∙ ap (λ m. m + 1) counted_c)
              (ap (λ k. flag_of (lookup k s'.fallback_emitted)) (sym keys)
                ∙ flag'
                ∙ ap (λ m. leb threshold (m + 1)) counted_c) in
          rw same (
            add_up n (failures rest b) _ _
              (told'
                ∙ ap (λ m. if leb threshold m then 0 else if leb threshold (m + 1) then 1 else 0)
                    counted_c)
              later)
      | inr differs ↦
          let (count', flag', listens') =
            record_strict_failure_other threshold policy c b text s differs in
          rw differs (
            skip n (failures rest b) _ (
              notices_from threshold policy (record_strict_failure threshold policy c text s).0 rest
                b n h.1 (listens' ∙ listens) (count' ∙ counted) (flag' ∙ agree)))
    ]
  where
    skip :
        (n f m : ℕ)
        → m ≡ (if leb threshold n then 0 else if leb threshold (n + f) then 1 else 0)
        → 0 + m ≡ (if leb threshold n then 0 else if leb threshold (n + (0 + f)) then 1 else 0)
    skip n f m h = ground (arith, h)

    add_up :
        (n f t m : ℕ)
        → t ≡ (if leb threshold n then 0 else if leb threshold (n + 1) then 1 else 0)
        → m ≡ (if leb threshold (n + 1) then 0 else if leb threshold (n + 1 + f) then 1 else 0)
        → t + m ≡ (if leb threshold n then 0 else if leb threshold (n + (1 + f)) then 1 else 0)
    add_up n f t m h k = ground (arith, h, k)

pub notices_of_calls :
    (threshold : ℕ) (policy : Text) (s : Failures) (attempts : List Attempt) (b : Binding)
    → 1 ≤ threshold
    → s.listens ≡ true
    → All (IsNoSuccess b) attempts
    → notices threshold policy (record_doh_success b s) attempts b
      ≡ (if leb threshold (failures attempts b) then 1 else 0)
unfolding record_doh_success
notices_of_calls threshold policy s attempts b positive listens h =
    notices_from threshold policy (record_doh_success b s) attempts b 0 h listens
      (ap count_of (lookup_self s.strict_failures))
      (ap flag_of (lookup_self s.fallback_emitted) ∙ ground arith)
    ∙ from_zero (failures attempts b)
  where
    lookup_self :
        {V : Type 0} (m : List (Text × V))
        → lookup (binding_key b) (delete (binding_key b) m) ≡ none
    lookup_self m =
        lookup-delete (binding_key b) (binding_key b) m
        ∙ ap (λ x. if x then none else lookup (binding_key b) m) (beq_refl (binding_key b))

    from_zero :
        (f : ℕ)
        → ◌≡◌ {A = ℕ}
            (if leb threshold 0 then 0 else if leb threshold (0 + f) then 1 else 0)
            (if leb threshold f then 1 else 0)
    from_zero f = ground arith
