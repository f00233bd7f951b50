-- ===== src/Examples/Packets.antt =====
-- DNS messages for engine/internal/dns/wire.go: queries, and responses with one question and some
-- records.
use hypomux_arch.Prelude.{
  ℕ, ◌*◌, ◌≡◌, ◌≢◌, refl, true, [], ◌∷◌, ◌++◌, Option, some, length, arith, List,
}
use hypomux_arch.Golang.Time.{second}
use hypomux_arch.Golang.Strings.{Text, bytes}
use hypomux_arch.Golang.Net.{mapped, ip_string}
use hypomux_arch.Dns.Query.{
  NameError, invalid, valid, built, build_query, normalize_domain, normalize_record_type,
  record_aaaa, encode, split,
}
use hypomux_arch.Dns.Query.Answers.{ServerRecord}
use hypomux_arch.Dns.Query.Exchange.{respond, parse_response-respond}
use hypomux_arch.Dns.Query.Reader.{read_query, question_of, read_query-build_query}
use hypomux_arch.Dns.Wire.{
  Bytes, ok, panic, uint16_at, is_fake_ipv4, skip_questions, parse_response,
}
use hypomux_arch.Dns.Wire.Safety.{parse_response-ne-panic}
use hypomux_arch.Dns.Wire.Soundness.{IsRecord, is_wanted, answer_of, parse_response_proper}

-- The ID 0x1234, a response without error, one question and one answer.
abbrev response_header : Bytes
response_header = 18 ∷ 52 ∷ 129 ∷ 128 ∷ 0 ∷ 1 ∷ 0 ∷ 1 ∷ 0 ∷ 0 ∷ 0 ∷ 0 ∷ []

-- The name `a`, type A, class IN.
abbrev question : Bytes
question = 1 ∷ 97 ∷ 0 ∷ 0 ∷ 1 ∷ 0 ∷ 1 ∷ []

-- A pointer to the name, type A, class IN, sixty seconds, 1.2.3.4.
abbrev answer : Bytes
answer = 192 ∷ 12 ∷ 0 ∷ 1 ∷ 0 ∷ 1 ∷ 0 ∷ 0 ∷ 0 ∷ 60 ∷ 0 ∷ 4 ∷ 1 ∷ 2 ∷ 3 ∷ 4 ∷ []

abbrev response : Bytes
response = response_header ++ question ++ answer

parsed :
    parse_response response 4660 1 ≡ ok (record { address = bytes "1.2.3.4"; ttl = 60 * second })
unfolding parse_response
parsed = refl

parse_response-ne-panic_example : parse_response response 4660 1 ≢ panic
parse_response-ne-panic_example = parse_response-ne-panic response 4660 1

parse_response_proper_example :
    (questions : ℕ) × (answers : ℕ) × (offset : ℕ) × (r : _) × (uint16_at response 4 ≡ ok questions)
    × (uint16_at response 6 ≡ ok answers)
    × (skip_questions questions response 12 ≡ ok offset)
    × IsRecord response answers offset r
    × (is_wanted 1 r ≡ true)
    × (record { address = bytes "1.2.3.4"; ttl = 60 * second } ≡ answer_of r)
parse_response_proper_example =
    parse_response_proper response 4660 1 (record { address = bytes "1.2.3.4"; ttl = 60 * second })
      parsed

-- An IDNA function that leaves names as they are, as the package does with lower-case ASCII.
abbrev unchanged : Text → Option Text
unchanged s = some s

abbrev query : Bytes
query = 18 ∷ 52 ∷ 1 ∷ 0 ∷ 0 ∷ 1 ∷ 0 ∷ 0 ∷ 0 ∷ 0 ∷ 0 ∷ 0 ∷ question

queried : build_query unchanged (some (18, 52)) (bytes " A. ") 1 ≡ built query 4660
unfolding build_query
queried = refl

hyphenated : normalize_domain unchanged (bytes "-a.com") ≡ invalid NameError.hyphen_at_end
unfolding normalize_domain
hyphenated = refl

lower : normalize_record_type (bytes " aaaa") ≡ some (record_aaaa, 28)
unfolding normalize_record_type
lower = refl

read_query-build_query_example :
    (name : Text) × (normalize_domain unchanged (bytes " A. ") ≡ valid name)
    × (read_query query ≡ some (question_of 4660 name 1))
    × (skip_questions 1 query 12 ≡ ok (length query))
read_query-build_query_example =
    read_query-build_query unchanged (some (18, 52)) (bytes " A. ") 1 query 4660 (omega arith)
      queried

abbrev from_server : ℕ → ℕ → Bytes → ServerRecord
from_server record_type ttl payload = record {
  type₁ = 0;
  type₀ = record_type;
  class₁ = 0;
  class₀ = 1;
  t₃ = 0;
  t₂ = 0;
  t₁ = 0;
  t₀ = ttl;
  payload = payload;
}

-- An alias, and four bytes of class CH, with shorter times to live than the two addresses.
abbrev alias : ServerRecord
alias = from_server 5 10 (1 ∷ 98 ∷ 192 ∷ 14 ∷ [])

abbrev chaos : ServerRecord
chaos = record (from_server 1 20 (1 ∷ 2 ∷ 3 ∷ 9 ∷ [])) { class₀ = 3 }

abbrev addresses : List ServerRecord
addresses = from_server 1 60 (1 ∷ 2 ∷ 3 ∷ 4 ∷ []) ∷ from_server 1 30 (1 ∷ 2 ∷ 3 ∷ 5 ∷ []) ∷ []

parse_response-respond_example :
    parse_response (respond 18 52 (bytes "a.com") 1 (alias ∷ chaos ∷ addresses)) 4660 1
    ≡ ok (record { address = bytes "1.2.3.5"; ttl = 30 * second })
unfolding normalize_domain is_fake_ipv4 ip_string
parse_response-respond_example =
    parse_response-respond unchanged (bytes "A.com.") (bytes "a.com") 18 52 1
      (alias ∷ chaos ∷ addresses) refl (omega arith)

-- The filter of fake addresses is for A records: an IPv4-mapped address of an AAAA record passes it.
fake_mapped :
    parse_response
      (respond 18 52 (bytes "a.com") 28 (from_server 28 30 (mapped (198 ∷ 18 ∷ 0 ∷ 1 ∷ [])) ∷ []))
      4660
      28
    ≡ ok (record { address = bytes "198.18.0.1"; ttl = 30 * second })
unfolding parse_response encode split
fake_mapped = refl
