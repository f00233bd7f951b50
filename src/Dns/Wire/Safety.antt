-- ===== src/Dns/Wire/Safety.antt =====
-- `parseResponse` of engine/internal/dns/wire.go reads no byte outside the packet, whatever the
-- packet holds.
use hypomux_arch.Prelude.{
  ℕ, zero, suc, ◌+◌, ◌*◌, ◌/◌, ◌%◌, ◌≤◌, ◌<◌, ◌≢◌, not, ◌||◌, arith, ltb, leb, ◌==◌, length, ltb→lt,
  get_elem?-eq-some,
}
use hypomux_arch.Golang.Strings.{is_empty}
use hypomux_arch.Dns.Wire.{
  Bytes, Outcome, ok, fail, panic, malformed_answer, byte_at, slice, uint16_at, uint32_at,
  skip_pointer, skip_labels, skip_name, skip_questions, WireAnswer, no_answer, read_record,
  consider, read_answers, parse_response, malformed_question,
}
use hypomux_arch.Dns.Wire.Outcomes.{
  Safely, Safely-bind, Safely-if, Safely-or_fail, Any, ltb→ge, leb→gt,
}

module _ (packet : Bytes) where
  byte_at-Safely : (i : ℕ) → i < length packet → Safely Any (byte_at packet i)
  unfolding byte_at
  byte_at-Safely i h = let (b, found) = get_elem?-eq-some packet i h in rw found tt

  uint16_at-Safely : (i : ℕ) → i + 1 < length packet → Safely Any (uint16_at packet i)
  unfolding uint16_at
  uint16_at-Safely i h =
      Safely-bind Any Any (byte_at packet i) _ (byte_at-Safely i (omega arith)) λ high _.
        Safely-bind Any Any (byte_at packet (i + 1)) _ (byte_at-Safely (i + 1) (omega arith))
          λ low _. tt

  uint32_at-Safely : (i : ℕ) → i + 3 < length packet → Safely Any (uint32_at packet i)
  unfolding uint32_at
  uint32_at-Safely i h =
      Safely-bind Any Any (uint16_at packet i) _ (uint16_at-Safely i (omega arith)) λ high _.
        Safely-bind Any Any (uint16_at packet (i + 2)) _ (uint16_at-Safely (i + 2) (omega arith))
          λ low _. tt

  -- An offset behind another, and within the packet.
  abbrev pub Ahead : ℕ → ℕ → Type 0
  Ahead offset after = (offset < after) × (after ≤ length packet)

  skip_pointer-Safely :
      (offset size : ℕ)
      → offset < length packet
      → Safely (Ahead offset) (skip_pointer packet offset size)
  unfolding skip_pointer
  skip_pointer-Safely offset size h =
      Safely-if (Ahead offset) (leb (length packet) (offset + 1)) _ _ (λ short. tt)
        λ long.
          Safely-bind Any (Ahead offset) (byte_at packet (offset + 1)) _
            (byte_at-Safely (offset + 1) (leb→gt _ _ long))
            λ low _.
              Safely-if (Ahead offset) (leb (length packet) (size % 64 * 256 + low)) _ _ (λ bad. tt)
                λ good. (omega arith, omega (arith, leb→gt _ _ long))

  skip_labels-Safely :
      (rounds offset : ℕ) → Safely (Ahead offset) (skip_labels rounds packet offset)
  unfolding skip_labels
  skip_labels-Safely zero offset = tt
  skip_labels-Safely (suc rounds) offset =
      Safely-if (Ahead offset) (leb (length packet) offset) _ _ (λ short. tt)
        λ long.
          Safely-bind Any (Ahead offset) (byte_at packet offset) _
            (byte_at-Safely offset (leb→gt _ _ long))
            λ size _.
              Safely-if (Ahead offset) (size == 0) _ _
                (λ end. (omega arith, omega (arith, leb→gt _ _ long)))
                λ more.
                  Safely-if (Ahead offset) (size / 64 % 4 == 3) _ _
                    (λ pointer. skip_pointer-Safely offset size (leb→gt _ _ long))
                    λ label.
                      Safely-if (Ahead offset) (not (size / 64 % 4 == 0) || ltb 63 size) _ _
                        (λ bad. tt)
                        λ good.
                          Safely-if (Ahead offset) (ltb (length packet) (offset + 1 + size)) _ _
                            (λ cut. tt)
                            λ whole.
                              further offset size (skip_labels rounds packet (offset + 1 + size))
                                (skip_labels-Safely rounds (offset + 1 + size))
    where
      further :
          (offset size : ℕ) (o : Outcome ℕ)
          → Safely (Ahead (offset + 1 + size)) o
          → Safely (Ahead offset) o
      further offset size (ok after) h = (omega arith, h.1)
      further offset size (fail e) h = tt
      further offset size panic h = h

  -- The name that is skipped ends behind its start and within the packet.
  pub skip_name-Safely : (offset : ℕ) → Safely (Ahead offset) (skip_name packet offset)
  unfolding skip_name
  skip_name-Safely offset = skip_labels-Safely 129 offset

  skip_questions-Safely : (count offset : ℕ) → Safely Any (skip_questions count packet offset)
  unfolding skip_questions
  skip_questions-Safely zero offset = tt
  skip_questions-Safely (suc count) offset =
      Safely-bind (Ahead offset) Any _ _
        (Safely-or_fail (Ahead offset) malformed_question (skip_name packet offset)
          (skip_name-Safely offset))
        λ after _.
          Safely-if Any (ltb (length packet) (after + 4)) _ _ (λ cut. tt)
            λ whole. skip_questions-Safely count (after + 4)

  slice-Safely :
      (from count : ℕ) → from + count ≤ length packet → Safely Any (slice packet from count)
  unfolding slice
  slice-Safely from count h =
      Safely-if Any (ltb (length packet) (from + count)) _ _
        (λ cut. absurd (omega (arith, ltb→lt _ _ cut))) (λ whole. tt)

  read_record-Safely : (offset : ℕ) → Safely Any (read_record packet offset)
  unfolding read_record
  read_record-Safely offset =
      Safely-bind (Ahead offset) Any _ _
        (Safely-or_fail (Ahead offset) malformed_answer (skip_name packet offset)
          (skip_name-Safely offset))
        λ start _.
          Safely-if Any (ltb (length packet) (start + 10)) _ _ (λ cut. tt)
            λ whole.
              let room = ltb→ge _ _ whole in
              Safely-bind Any Any (uint16_at packet start) _ (uint16_at-Safely start (omega arith))
                λ answer_type _.
                  Safely-bind Any Any (uint16_at packet (start + 2)) _
                    (uint16_at-Safely (start + 2) (omega arith))
                    λ class _.
                      Safely-bind Any Any (uint32_at packet (start + 4)) _
                        (uint32_at-Safely (start + 4) (omega arith))
                        λ ttl _.
                          Safely-bind Any Any (uint16_at packet (start + 8)) _
                            (uint16_at-Safely (start + 8) (omega arith))
                            λ size _.
                              Safely-if Any (ltb (length packet) (start + 10 + size)) _ _
                                (λ cut. tt)
                                λ full.
                                  Safely-bind Any Any (slice packet (start + 10) size) _
                                    (slice-Safely (start + 10) size (ltb→ge _ _ full))
                                    λ payload _. tt

  read_answers-Safely :
      (count record_type offset : ℕ) (best : WireAnswer)
      → Safely Any (read_answers count packet record_type offset best)
  unfolding read_answers
  read_answers-Safely zero record_type offset best = tt
  read_answers-Safely (suc count) record_type offset best =
      Safely-bind Any Any (read_record packet offset) _ (read_record-Safely offset)
        λ found _. read_answers-Safely count record_type found.1 (consider record_type found.0 best)

  parse_response-Safely :
      (query_id record_type : ℕ) → Safely Any (parse_response packet query_id record_type)
  unfolding parse_response
  parse_response-Safely query_id record_type =
      Safely-if Any (ltb (length packet) 12) _ _ (λ short. tt)
        λ long.
          let room = ltb→ge _ _ long in
          Safely-bind Any Any (uint16_at packet 0) _ (uint16_at-Safely 0 (omega arith)) λ id _.
            Safely-bind Any Any (uint16_at packet 2) _ (uint16_at-Safely 2 (omega arith)) λ flags _.
              Safely-bind Any Any (uint16_at packet 4) _ (uint16_at-Safely 4 (omega arith))
                λ questions _.
                  Safely-bind Any Any (uint16_at packet 6) _ (uint16_at-Safely 6 (omega arith))
                    λ answers _.
                      Safely-if Any (not (id == query_id)) _ _ (λ other. tt)
                        λ same.
                          Safely-if Any (flags / 32768 % 2 == 0) _ _ (λ query. tt)
                            λ response.
                              Safely-if Any (flags / 512 % 2 == 1) _ _ (λ cut. tt)
                                λ whole.
                                  Safely-if Any (not (flags % 16 == 0)) _ _ (λ bad. tt)
                                    λ good.
                                      Safely-bind Any Any (skip_questions questions packet 12) _
                                        (skip_questions-Safely questions 12)
                                        λ offset _.
                                          Safely-bind Any Any
                                            (read_answers answers packet record_type offset
                                              no_answer)
                                            _
                                            (read_answers-Safely answers record_type offset
                                              no_answer)
                                            λ best kept.
                                              Safely-if Any (is_empty best.address) _ _
                                                (λ nothing. tt) λ some_address. tt

-- Whatever the packet holds, the parser does not panic: it returns an answer or an error.
pub parse_response-ne-panic :
    (packet : Bytes) (query_id record_type : ℕ) → parse_response packet query_id record_type ≢ panic
parse_response-ne-panic packet query_id record_type e =
    rw e at (parse_response-Safely packet query_id record_type)
