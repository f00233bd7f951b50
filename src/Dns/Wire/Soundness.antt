-- ===== src/Dns/Wire/Soundness.antt =====
-- Which address the parser of engine/internal/dns/wire.go returns.
use hypomux_arch.Prelude.{
  ℕ, zero, suc, ◌*◌, ◌/◌, ◌%◌, ◌≡◌, refl, sym, ap, ◌∙◌, Bool, true, false, not, ◌&&◌, ◌||◌, ◌⊎◌,
  inl, inr, arith, ◌==◌, ltb, if◌then◌else◌, length,
}
use hypomux_arch.Golang.Strings.{is_empty}
use hypomux_arch.Golang.Net.{ip_string}
use hypomux_arch.Golang.Time.{second}
use hypomux_arch.Dns.Wire.{
  Bytes, WireError, Outcome, ok, fail, panic, ◌>>=◌, ResourceRecord, WireAnswer, no_answer,
  is_fake_ipv4, improve, consider, dns_type_a, dns_type_aaaa, uint16_at, skip_questions,
  read_record, read_answers, parse_response,
}

-- Four bytes outside 198.18.0.0/15 for an A query, sixteen bytes for an AAAA query.
abbrev pub is_proper : ℕ → Bytes → Bool
is_proper record_type ip =
    if record_type == dns_type_a
    then length ip == 4 && not (is_fake_ipv4 ip)
    else record_type == dns_type_aaaa && length ip == 16

-- A record of class IN and of the type asked for, with such an address.
abbrev pub is_wanted : ℕ → ResourceRecord → Bool
is_wanted record_type r =
    r.class == 1 && r.answer_type == record_type && is_proper record_type r.payload

abbrev pub answer_of : ResourceRecord → WireAnswer
answer_of r = record { address = ip_string r.payload; ttl = r.ttl_seconds * second }

pub consider_eq :
    (record_type : ℕ) (r : ResourceRecord) (best : WireAnswer)
    → consider record_type r best
      ≡ (if is_wanted record_type r then improve r.payload (r.ttl_seconds * second) best else best)
unfolding consider
consider_eq record_type r best = ground arith

-- The record is one of `count` that follow each other from the offset on.
abbrev pub IsRecord : Bytes → ℕ → ℕ → ResourceRecord → Type 0
IsRecord packet zero offset r = ⊥
IsRecord packet (suc count) offset r =
    (found : ResourceRecord) × (after : ℕ) × (read_record packet offset ≡ ok (found, after))
    × ((found ≡ r) ⊎ IsRecord packet count after r)

module _ {ℓ κ} {A : Type ℓ} {B : Type κ} where
  bind-eq-ok :
      (m : Outcome A) (f : A → Outcome B) {b : B}
      → (m >>= f) ≡ ok b
      → (a : A) × (m ≡ ok a) × (f a ≡ ok b)
  bind-eq-ok (ok a) f h = (a, refl, h)
  bind-eq-ok (fail e) f h = absurd (fail-ne-ok h)
    where
      fail-ne-ok : {b : B} → ◌≡◌ {A = Outcome B} (fail e) (ok b) → ⊥
      fail-ne-ok h = cc
  bind-eq-ok panic f h = absurd (panic-ne-ok h)
    where
      panic-ne-ok : {b : B} → ◌≡◌ {A = Outcome B} panic (ok b) → ⊥
      panic-ne-ok h = cc

module _ {ℓ} {A : Type ℓ} where
  guard-eq-ok :
      (b : Bool) (e : WireError) (m : Outcome A) {a : A}
      → (if b then fail e else m) ≡ ok a
      → (b ≡ false) × (m ≡ ok a)
  guard-eq-ok true e m h = absurd (fail-ne-ok h)
    where
      fail-ne-ok : {a : A} → ◌≡◌ {A = Outcome A} (fail e) (ok a) → ⊥
      fail-ne-ok h = cc
  guard-eq-ok false e m h = (refl, h)

-- An answer that the loop gives for a record among those from the offset on.
IsFound : Bytes → ℕ → ℕ → ℕ → WireAnswer → Type 0
IsFound packet count record_type offset found =
    (r : ResourceRecord) × IsRecord packet count offset r
    × (is_wanted record_type r ≡ true)
    × (found ≡ answer_of r)

read_answers-IsFound :
    (packet : Bytes) (count record_type offset : ℕ) (best found : WireAnswer)
    → read_answers count packet record_type offset best ≡ ok found
    → (found ≡ best) ⊎ IsFound packet count record_type offset found
unfolding read_answers improve IsFound
read_answers-IsFound packet zero record_type offset best found h = inl (sym (ok_injective h))
  where
    ok_injective : {a b : WireAnswer} → ◌≡◌ {A = Outcome WireAnswer} (ok a) (ok b) → a ≡ b
    ok_injective h = cc
read_answers-IsFound packet (suc count) record_type offset best found h =
    let (p, read, rest) =
      bind-eq-ok (read_record packet offset)
        (λ p. read_answers count packet record_type p.1 (consider record_type p.0 best)) h in
    elim (read_answers-IsFound packet count record_type p.1 (consider record_type p.0 best) found
      rest) [
        | inl kept ↦
            used p.0 p.1 read (is_wanted record_type p.0) refl
              (is_empty best.address || ltb (p.0.ttl_seconds * second) best.ttl)
              (kept ∙ consider_eq record_type p.0 best)
        | inr (r, among, wanted, e) ↦ inr (r, (p.0, p.1, read, inr among), wanted, e)
      ]
  where
    used :
        (r : ResourceRecord) (after : ℕ)
        → read_record packet offset ≡ ok (r, after)
        → (wanted : Bool) → is_wanted record_type r ≡ wanted
        → (better : Bool)
        → found ≡ (if wanted then (if better then answer_of r else best) else best)
        → (found ≡ best) ⊎ IsFound packet (suc count) record_type offset found
    used r after read false w better e = inl e
    used r after read true w false e = inl e
    used r after read true w true e = inr (r, (r, after, read, inl refl), w, e)

-- When the parser returns an answer, then one of the packet's answer records, which follow the
-- questions, is of class IN and of the type asked for, and holds the address: four bytes outside
-- 198.18.0.0/15 for an A query, sixteen bytes for an AAAA query. The answer is the address's text and
-- the record's time to live. For a query of another type the parser returns no answer.
pub parse_response_proper :
    (packet : Bytes) (query_id record_type : ℕ) (found : WireAnswer)
    → parse_response packet query_id record_type ≡ ok found
    → (questions : ℕ) × (answers : ℕ) × (offset : ℕ) × (r : ResourceRecord) × (uint16_at packet 4
        ≡ ok questions)
      × (uint16_at packet 6 ≡ ok answers)
      × (skip_questions questions packet 12 ≡ ok offset)
      × IsRecord packet answers offset r
      × (is_wanted record_type r ≡ true)
      × (found ≡ answer_of r)
unfolding parse_response IsFound
parse_response_proper packet query_id record_type found h =
    let (long, h₁) = guard-eq-ok (ltb (length packet) 12) _ _ h in
    let (id, at_0, h₂) = bind-eq-ok (uint16_at packet 0) _ h₁ in
    let (flags, at_2, h₃) = bind-eq-ok (uint16_at packet 2) _ h₂ in
    let (questions, at_4, h₄) = bind-eq-ok (uint16_at packet 4) _ h₃ in
    let (answers, at_6, h₅) = bind-eq-ok (uint16_at packet 6) _ h₄ in
    let (same, h₆) = guard-eq-ok (not (id == query_id)) _ _ h₅ in
    let (response, h₇) = guard-eq-ok (flags / 32768 % 2 == 0) _ _ h₆ in
    let (whole, h₈) = guard-eq-ok (flags / 512 % 2 == 1) _ _ h₇ in
    let (good, h₉) = guard-eq-ok (not (flags % 16 == 0)) _ _ h₈ in
    let (offset, skipped, k) = bind-eq-ok (skip_questions questions packet 12) _ h₉ in
    let (best, read, k₁) =
      bind-eq-ok (read_answers answers packet record_type offset no_answer) _ k in
    let (some_address, k₂) = guard-eq-ok (is_empty best.address) _ _ k₁ in
    let (r, among, wanted, e) =
      some_answer answers offset best some_address
        (read_answers-IsFound packet answers record_type offset no_answer best read) in
    (questions, answers, offset, r, at_4, at_6, skipped, among, wanted, ok_injective k₂ ∙ e)
  where
    ok_injective : {a b : WireAnswer} → ◌≡◌ {A = Outcome WireAnswer} (ok a) (ok b) → b ≡ a
    ok_injective h = cc

    some_answer :
        (answers offset : ℕ) (best : WireAnswer)
        → is_empty best.address ≡ false
        → (best ≡ no_answer) ⊎ IsFound packet answers record_type offset best
        → IsFound packet answers record_type offset best
    some_answer answers offset best full (inl nothing) =
        absurd (true-ne-false (sym (ap (λ a. is_empty a.address) nothing) ∙ full))
      where
        true-ne-false : true ≡ false → ⊥
        true-ne-false h = cc
    some_answer answers offset best full (inr found) = found
