-- ===== src/Dns/Query/Exchange.antt =====
-- What `parseResponse` of engine/internal/dns/wire.go makes of a response with one question and
-- records of any types, classes and lengths, all of them for the name in the question.
use hypomux_arch.Prelude.{
  ℕ, ◌+◌, ◌*◌, ◌/◌, ◌%◌, ◌≤◌, ◌<◌, ◌≡◌, refl, sym, ap, ◌∙◌, Bool, true, false, not, ◌||◌, ◌⊎◌, List,
  [], ◌∷◌, ◌++◌, Option, none, some, arith, ltb, ◌==◌, if◌then◌else◌, length,
}
use hypomux_arch.Golang.Strings.{Text, is_empty}
use hypomux_arch.Golang.Net.Texts.{ip_string_nonempty}
use hypomux_arch.Golang.Time.{second}
use hypomux_arch.Dns.Wire.{
  Bytes, Outcome, ok, fail, no_address, WireAnswer, no_answer, improve, consider, parse_response,
  uint16_at, skip_questions, read_answers, ◌>>=◌,
}
use hypomux_arch.Dns.Wire.Soundness.{is_wanted, answer_of, consider_eq}
use hypomux_arch.Dns.Query.{valid, normalize_domain, split, encode}
use hypomux_arch.Dns.Query.Names.{normalize_domain-IsLabel}
use hypomux_arch.Dns.Query.Answers.{
  ServerRecord, lifetime, write_records, read_as, best_of, read_answers-write_records, append_assoc,
}
use hypomux_arch.Dns.Query.Question.{
  with_question, length-with_question, skip_questions-with_question,
}

-- A response without error to a query for a record type: the ID, the question again, and the
-- records.
abbrev pub respond : ℕ → ℕ → Text → ℕ → List ServerRecord → Bytes
respond high low name record_type rs =
    with_question
      (high ∷ low ∷ 129 ∷ 128 ∷ 0 ∷ 1 ∷ (length rs / 256) ∷ (length rs % 256) ∷ 0 ∷ 0 ∷ 0 ∷ 0 ∷ [])
      name record_type (write_records rs)

-- The first of the records with the shortest time to live, among those wanted.
abbrev pub sooner : ServerRecord → Option ServerRecord → ServerRecord
sooner r none = r
sooner r (some s) = if ltb (lifetime s) (lifetime r) then s else r

abbrev pub shortest : ℕ → List ServerRecord → Option ServerRecord
shortest record_type [] = none
shortest record_type (r ∷ rs) =
    let later = shortest record_type rs in
    if is_wanted record_type (read_as r) then some (sooner r later) else later

abbrev pub answer : ServerRecord → WireAnswer
answer r = answer_of (read_as r)

abbrev pub outcome : Option ServerRecord → Outcome WireAnswer
outcome none = fail no_address
outcome (some r) = ok (answer r)

abbrev or_answer : WireAnswer → Option ServerRecord → WireAnswer
or_answer best none = best
or_answer best (some r) = answer r

is_wanted-size :
    (record_type : ℕ) (r : ServerRecord)
    → is_wanted record_type (read_as r) ≡ true
    → (length r.payload ≡ 4) ⊎ (length r.payload ≡ 16)
is_wanted-size record_type r h = ground arith

is_wanted-address :
    (record_type : ℕ) (r : ServerRecord)
    → is_wanted record_type (read_as r) ≡ true
    → is_empty (answer r).address ≡ false
is_wanted-address record_type r h = ip_string_nonempty r.payload (is_wanted-size record_type r h)

module _ (record_type : ℕ) where
  -- What a record makes of an answer.
  improved :
      (r : ServerRecord) (best : WireAnswer)
      → consider record_type (read_as r) best ≡ (
          if is_wanted record_type (read_as r)
          then (if is_empty best.address || ltb (lifetime r * second) best.ttl
              then answer r
              else best)
          else best)
  unfolding improve
  improved r best = consider_eq record_type (read_as r) best

  -- From a record on, the loop keeps it or a later one with a shorter time to live.
  best_of-answer :
      (r : ServerRecord) (rs : List ServerRecord)
      → is_wanted record_type (read_as r) ≡ true
      → best_of record_type rs (answer r) ≡ answer (sooner r (shortest record_type rs))
  best_of-answer r [] w = refl
  best_of-answer r (s ∷ rs) w =
      ap (best_of record_type rs) (
        improved s (answer r)
        ∙ ap
            (λ none_yet.
              if is_wanted record_type (read_as s)
              then (if none_yet || ltb (lifetime s * second) (lifetime r * second)
                  then answer s
                  else answer r)
              else answer r)
            (is_wanted-address record_type r w))
      ∙ by_test (λ t v. best_of-answer t rs v) (is_wanted record_type (read_as s))
          (ltb (lifetime s * second) (lifetime r * second)) refl refl
    where
      closer :
          (o : Option ServerRecord)
          → ltb (lifetime s * second) (lifetime r * second) ≡ true
          → sooner s o ≡ sooner r (some (sooner s o))
      closer none h = ground arith
      closer (some t) h = ground arith

      further :
          (o : Option ServerRecord)
          → ltb (lifetime s * second) (lifetime r * second) ≡ false
          → sooner r o ≡ sooner r (some (sooner s o))
      further none h = ground arith
      further (some t) h = ground arith

      by_test :
          ((t : ServerRecord)
            → is_wanted record_type (read_as t) ≡ true
            → best_of record_type rs (answer t) ≡ answer (sooner t (shortest record_type rs)))
          → (wanted less : Bool) → is_wanted record_type (read_as s) ≡ wanted
          → ltb (lifetime s * second) (lifetime r * second) ≡ less
          → best_of record_type rs
              (if wanted then (if less then answer s else answer r) else answer r)
            ≡ answer (
                sooner r (
                  if wanted
                  then some (sooner s (shortest record_type rs))
                  else shortest record_type rs))
      by_test again false less e h = again r w
      by_test again true true e h = again s e ∙ ap answer (closer (shortest record_type rs) h)
      by_test again true false e h = again r w ∙ ap answer (further (shortest record_type rs) h)

  best_of-no_answer :
      (rs : List ServerRecord)
      → best_of record_type rs no_answer ≡ or_answer no_answer (shortest record_type rs)
  best_of-no_answer [] = refl
  best_of-no_answer (r ∷ rs) =
      ap (best_of record_type rs) (improved r no_answer)
      ∙ by_test (best_of-no_answer rs) (is_wanted record_type (read_as r)) refl
    where
      by_test :
          best_of record_type rs no_answer ≡ or_answer no_answer (shortest record_type rs)
          → (wanted : Bool) → is_wanted record_type (read_as r) ≡ wanted
          → best_of record_type rs (if wanted then answer r else no_answer)
            ≡ or_answer no_answer (
                if wanted
                then some (sooner r (shortest record_type rs))
                else shortest record_type rs)
      by_test later false e = later
      by_test later true e = best_of-answer r rs e

bind_ok {ℓ κ} :
    {A : Type ℓ} {B : Type κ} (m : Outcome A) (a : A) (f : A → Outcome B) (r : Outcome B)
    → m ≡ ok a
    → f a ≡ r
    → (m >>= f) ≡ r
bind_ok m a f r e h = ap (λ m. m >>= f) e ∙ h

if_false {ℓ} : {A : Type ℓ} (b : Bool) (x y r : A) → b ≡ false → y ≡ r → (if b then x else y) ≡ r
if_false b x y r e h = ap (λ b. if b then x else y) e ∙ h

-- The parser behind a header that it accepts.
parse_response-header :
    (packet : Bytes) (id count record_type : ℕ)
    → 12 ≤ length packet
    → uint16_at packet 0 ≡ ok id
    → uint16_at packet 2 ≡ ok 33152
    → uint16_at packet 4 ≡ ok 1
    → uint16_at packet 6 ≡ ok count
    → parse_response packet id record_type ≡ do
      offset ← skip_questions 1 packet 12
      best ← read_answers count packet record_type offset no_answer
      if is_empty best.address then fail no_address else ok best
unfolding parse_response
parse_response-header packet id count record_type long at_0 at_2 at_4 at_6 =
    if_false (ltb (length packet) 12) _ _ _ (ground arith) (
      bind_ok (uint16_at packet 0) id _ _ at_0 (
        bind_ok (uint16_at packet 2) 33152 _ _ at_2 (
          bind_ok (uint16_at packet 4) 1 _ _ at_4 (
            bind_ok (uint16_at packet 6) count _ _ at_6
              (if_false (not (id == id)) _ _ _ (ground arith) refl)))))

with_question-append :
    (front : Bytes) (name : Text) (record_type : ℕ) (back : Bytes)
    → with_question front name record_type [] ++ back ≡ with_question front name record_type back
with_question-append front name record_type back =
    let trailer = 0 ∷ (record_type / 256 % 256) ∷ (record_type % 256) ∷ 0 ∷ 1 ∷ [] in
    append_assoc front (encode (split name) ++ trailer) back
    ∙ ap (λ l. front ++ l) (append_assoc (encode (split name)) trailer back)

-- A record, if there is one, is wanted.
abbrev IsWanted : ℕ → Option ServerRecord → Type 0
IsWanted record_type none = Unit
IsWanted record_type (some r) = is_wanted record_type (read_as r) ≡ true

sooner-IsWanted :
    (record_type : ℕ) (s : ServerRecord) (o : Option ServerRecord)
    → is_wanted record_type (read_as s) ≡ true
    → IsWanted record_type o
    → IsWanted record_type (some (sooner s o))
sooner-IsWanted record_type s none w h = w
sooner-IsWanted record_type s (some t) w h = by_time (ltb (lifetime t) (lifetime s))
  where
    by_time : (less : Bool) → is_wanted record_type (read_as (if less then t else s)) ≡ true
    by_time true = h
    by_time false = w

shortest-IsWanted :
    (record_type : ℕ) (rs : List ServerRecord) → IsWanted record_type (shortest record_type rs)
shortest-IsWanted record_type [] = tt
shortest-IsWanted record_type (s ∷ rs) =
    by_test (is_wanted record_type (read_as s)) refl (shortest record_type rs)
      (shortest-IsWanted record_type rs)
  where
    by_test :
        (wanted : Bool)
        → is_wanted record_type (read_as s) ≡ wanted
        → (later : Option ServerRecord) → IsWanted record_type later
        → IsWanted record_type (if wanted then some (sooner s later) else later)
    by_test false e later h = h
    by_test true e later h = sooner-IsWanted record_type s later e h

conclude :
    (record_type : ℕ) (o : Option ServerRecord)
    → IsWanted record_type o
    → (if is_empty (or_answer no_answer o).address
        then fail no_address
        else ok (or_answer no_answer o))
      ≡ outcome o
conclude record_type none h = refl
conclude record_type (some r) h =
    ap (λ b. if b then fail no_address else ok (answer r)) (is_wanted-address record_type r h)

-- For a name that `normalizeDomain` lets pass, take a response with the ID asked for, without error,
-- with the question and fewer than 65536 records, of any types, classes and lengths, each named by a
-- pointer to the question's name. The parser returns the first record with the shortest time to live
-- among those wanted: of class IN and of the type asked for, with four bytes outside 198.18.0.0/15
-- for A, or sixteen bytes for AAAA. Where there is none, it reports that.
pub parse_response-respond :
    (to_ascii : Text → Option Text) (domain name : Text) (high low record_type : ℕ)
    (rs : List ServerRecord)
    → normalize_domain to_ascii domain ≡ valid name
    → length rs < 65536
    → parse_response (respond high low name record_type rs) (high * 256 + low) record_type
      ≡ outcome (shortest record_type rs)
unfolding uint16_at
parse_response-respond to_ascii domain name high low record_type rs named few =
    let (good, count) = normalize_domain-IsLabel to_ascii domain named in
    let front =
      high ∷ low ∷ 129 ∷ 128 ∷ 0 ∷ 1 ∷ (length rs / 256) ∷ (length rs % 256) ∷ 0 ∷ 0 ∷ 0 ∷ 0 ∷ [] in
    let back = write_records rs in
    let packet = respond high low name record_type rs in
    let start = with_question front name record_type [] in
    let starts : length start ≡ 12 + length name + 6 =
      omega (arith, length-with_question front name record_type []) in
    let questions : skip_questions 1 packet 12 ≡ ok (12 + length name + 6) =
      skip_questions-with_question front name record_type back refl good count in
    let answers : read_answers (length rs) packet record_type (12 + length name + 6) no_answer
        ≡ ok (best_of record_type rs no_answer) =
      ap (λ p. read_answers (length rs) p record_type (12 + length name + 6) no_answer)
        (sym (with_question-append front name record_type back))
      ∙ ap (λ n. read_answers (length rs) (start ++ back) record_type n no_answer) (sym starts)
      ∙ read_answers-write_records record_type start rs no_answer (omega (arith, starts)) in
    parse_response-header packet (high * 256 + low) (length rs) record_type
      (omega (arith, length-with_question front name record_type back)) refl refl refl
      (ap ok (omega arith))
    ∙ rw questions (
        rw answers (
          rw (best_of-no_answer record_type rs)
            (conclude record_type (shortest record_type rs) (shortest-IsWanted record_type rs))))
