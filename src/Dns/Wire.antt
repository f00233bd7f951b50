-- ===== src/Dns/Wire.antt =====
-- engine/internal/dns/wire.go, `parseResponse` and `skipName`: a DNS response as bytes. An index or
-- a slice past the end of the packet is the outcome `panic`. (Go lets a slice reach up to the
-- capacity, so the model panics at least where the code does.) A mask is written as `/` and `%`.
use hypomux_arch.Prelude.{
  ℕ, zero, suc, ◌+◌, ◌*◌, ◌/◌, ◌%◌, Bool, true, false, not, ◌&&◌, ◌||◌, List, [], ◌∷◌, Option, none,
  some, ltb, leb, ◌==◌, if◌then◌else◌, length, get_elem?, take, drop,
}
use hypomux_arch.Golang.Strings.{Text, is_empty}
use hypomux_arch.Golang.Net.{ip_string}
use hypomux_arch.Golang.Time.{second}
pub mod Outcomes
pub mod Safety
pub mod Soundness

abbrev pub Bytes : Type 0
Bytes = List ℕ

pub data WireError : Type 0 where
  short_response mismatched_id not_a_response truncated_response malformed_question : WireError
  malformed_answer truncated_answer_data no_address : WireError
  response_code : ℕ → WireError
  truncated_name truncated_pointer invalid_pointer invalid_label truncated_label too_many_labels :
      WireError

pub data Outcome {ℓ} (A : Type ℓ) : Type ℓ where
  ok : A → Outcome A
  fail : WireError → Outcome A
  panic : Outcome A

infixl 5 ◌>>=◌
abbrev pub ◌>>=◌ {ℓ κ} : {A : Type ℓ} {B : Type κ} → Outcome A → (A → Outcome B) → Outcome B
ok a >>= f = f a
fail e >>= f = fail e
panic >>= f = panic

-- `if err != nil` with an error of the caller's own.
abbrev pub or_fail {ℓ} : {A : Type ℓ} → WireError → Outcome A → Outcome A
or_fail e (ok a) = ok a
or_fail e (fail _) = fail e
or_fail e panic = panic

abbrev pub dns_type_a : ℕ
dns_type_a = 1

abbrev pub dns_type_aaaa : ℕ
dns_type_aaaa = 28

abbrev pub or_panic : Option ℕ → Outcome ℕ
or_panic none = panic
or_panic (some b) = ok b

-- `packet[i]`.
unfoldable pub byte_at : Bytes → ℕ → Outcome ℕ
byte_at packet i = or_panic (get_elem? packet i)

-- `packet[from : from+count]`.
unfoldable pub slice : Bytes → ℕ → ℕ → Outcome Bytes
slice packet from count =
    if ltb (length packet) (from + count) then panic else ok (take count (drop from packet))

-- binary.BigEndian.Uint16(packet[i : i+2]).
unfoldable pub uint16_at : Bytes → ℕ → Outcome ℕ
unfolding byte_at
uint16_at packet i = do high ← byte_at packet i; low ← byte_at packet (i + 1); ok (high * 256 + low)

-- binary.BigEndian.Uint32(packet[i : i+4]).
unfoldable pub uint32_at : Bytes → ℕ → Outcome ℕ
unfolding uint16_at
uint32_at packet i = do
  high ← uint16_at packet i
  low ← uint16_at packet (i + 2)
  ok (high * 65536 + low)

-- The case of a compression pointer, whose first byte is at `offset`.
unfoldable pub skip_pointer : Bytes → ℕ → ℕ → Outcome ℕ
unfolding byte_at
skip_pointer packet offset size =
    if leb (length packet) (offset + 1) then fail truncated_pointer else do
      low ← byte_at packet (offset + 1)
      if leb (length packet) (size % 64 * 256 + low) then fail invalid_pointer else ok (offset + 2)

-- The rounds left of the loop of `skipName`.
unfoldable pub skip_labels : ℕ → Bytes → ℕ → Outcome ℕ
unfolding byte_at skip_pointer
skip_labels zero packet offset = fail too_many_labels
skip_labels (suc rounds) packet offset =
    if leb (length packet) offset then fail truncated_name else do
      size ← byte_at packet offset
      let rest = skip_labels rounds packet (offset + 1 + size)
      if size == 0
          then ok (offset + 1)
          else if size / 64 % 4 == 3
          then skip_pointer packet offset size
          else if not (size / 64 % 4 == 0) || ltb 63 size
          then fail invalid_label
          else if ltb (length packet) (offset + 1 + size)
          then fail truncated_label
          else rest

-- `labels` runs from 0 to 128.
unfoldable pub skip_name : Bytes → ℕ → Outcome ℕ
unfolding skip_labels
skip_name packet offset = skip_labels 129 packet offset

-- The first loop of `parseResponse`, with the questions left.
unfoldable pub skip_questions : ℕ → Bytes → ℕ → Outcome ℕ
unfolding skip_name
skip_questions zero packet offset = ok offset
skip_questions (suc count) packet offset = do
  after ← or_fail malformed_question (skip_name packet offset)
  let rest = skip_questions count packet (after + 4)
  if ltb (length packet) (after + 4) then fail malformed_question else rest

pub record ResourceRecord : Type 0 where
  pub answer_type : ℕ
  pub class : ℕ
  pub ttl_seconds : ℕ
  pub payload : Bytes

-- The address is a text, and `[]` is no address.
pub record WireAnswer : Type 0 where
  pub address : Text
  pub ttl : ℕ

abbrev pub no_answer : WireAnswer
no_answer = record { address = []; ttl = 0 }

-- The start of a round of the second loop: the record at an offset, and the offset behind it.
unfoldable pub read_record : Bytes → ℕ → Outcome (ResourceRecord × ℕ)
unfolding skip_name uint16_at uint32_at slice
read_record packet offset = do
  start ← or_fail malformed_answer (skip_name packet offset)
  if ltb (length packet) (start + 10) then fail malformed_answer else do
    answer_type ← uint16_at packet start
    class ← uint16_at packet (start + 2)
    ttl_seconds ← uint32_at packet (start + 4)
    size ← uint16_at packet (start + 8)
    if ltb (length packet) (start + 10 + size) then fail truncated_answer_data else do
      payload ← slice packet (start + 10) size
      ok (
        record {
          answer_type = answer_type;
          class = class;
          ttl_seconds = ttl_seconds;
          payload = payload;
        },
        start + 10 + size,
      )

unfoldable pub is_fake_ipv4 : Bytes → Bool
is_fake_ipv4 (a ∷ b ∷ c ∷ d ∷ []) = a == 198 && (b == 18 || b == 19)
is_fake_ipv4 _ = false

-- The end of a round: the new best answer, if the record is used and its time to live is shorter.
unfoldable pub improve : Bytes → ℕ → WireAnswer → WireAnswer
unfolding ip_string
improve ip ttl best =
    if is_empty best.address || ltb ttl best.ttl
    then record { address = ip_string ip; ttl = ttl }
    else best

-- The rest of a round, with the `switch` on the record type and the length.
unfoldable pub consider : ℕ → ResourceRecord → WireAnswer → WireAnswer
unfolding is_fake_ipv4 improve
consider record_type r best =
    if not (r.class == 1) || not (r.answer_type == record_type)
    then best
    else if record_type == dns_type_a && length r.payload == 4
    then if is_fake_ipv4 r.payload then best else improve r.payload (r.ttl_seconds * second) best
    else if record_type == dns_type_aaaa && length r.payload == 16
    then improve r.payload (r.ttl_seconds * second) best
    else best

-- The second loop of `parseResponse`, with the answers left.
unfoldable pub read_answers : ℕ → Bytes → ℕ → ℕ → WireAnswer → Outcome WireAnswer
unfolding read_record consider
read_answers zero packet record_type offset best = ok best
read_answers (suc count) packet record_type offset best = do
  (r, after) ← read_record packet offset
  read_answers count packet record_type after (consider record_type r best)

unfoldable pub parse_response : Bytes → ℕ → ℕ → Outcome WireAnswer
unfolding uint16_at skip_questions read_answers
parse_response packet query_id record_type =
    if ltb (length packet) 12 then fail short_response else do
      id ← uint16_at packet 0
      flags ← uint16_at packet 2
      questions ← uint16_at packet 4
      answers ← uint16_at packet 6
      if not (id == query_id)
          then fail mismatched_id
          else if flags / 32768 % 2 == 0
          then fail not_a_response
          else if flags / 512 % 2 == 1
          then fail truncated_response
          else if not (flags % 16 == 0)
          then fail (response_code (flags % 16))
          else do
            offset ← skip_questions questions packet 12
            best ← read_answers answers packet record_type offset no_answer
            if is_empty best.address then fail no_address else ok best
