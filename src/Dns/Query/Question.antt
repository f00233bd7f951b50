-- ===== src/Dns/Query/Question.antt =====
-- The query that `buildQuery` of engine/internal/dns/wire.go makes, as `skipName` reads it.
use hypomux_arch.Prelude.{
  ℕ, zero, suc, ◌+◌, ◌/◌, ◌%◌, ◌≤◌, ◌<◌, ◌≡◌, refl, sym, ap, ◌∙◌, false, not, ◌||◌, List, [], ◌∷◌,
  ◌++◌, Option, none, some, arith, leb, ltb, ◌==◌, if◌then◌else◌, length, length-append, get_elem?,
  All,
}
use hypomux_arch.Golang.Strings.{Text}
use hypomux_arch.Dns.Wire.{
  Bytes, ok, skip_pointer, skip_labels, skip_name, skip_questions, fail, invalid_label,
  truncated_label,
}
use hypomux_arch.Dns.Query.{
  NameResult, valid, invalid, split, encode, header, trailer, built, query_for, build_query,
  normalize_domain,
}
use hypomux_arch.Dns.Query.Answers.{append_assoc}
use hypomux_arch.Dns.Query.Names.{IsLabel, normalize_domain-IsLabel, length-encode-split}

get_elem?-append :
    (front : Bytes) (x : ℕ) (back : Bytes) → get_elem? (front ++ (x ∷ back)) (length front) ≡ some x
get_elem?-append [] x back = refl
get_elem?-append (y ∷ front) x back = get_elem?-append front x back

-- One round of the loop, at a byte that is there.
skip_labels-at :
    (rounds : ℕ) (packet : Bytes) (offset size : ℕ)
    → offset < length packet
    → get_elem? packet offset ≡ some size
    → skip_labels (suc rounds) packet offset ≡ (
        if size == 0
        then ok (offset + 1)
        else if size / 64 % 4 == 3
        then skip_pointer packet offset size
        else if not (size / 64 % 4 == 0) || ltb 63 size
        then fail invalid_label
        else if ltb (length packet) (offset + 1 + size)
        then fail truncated_label
        else skip_labels rounds packet (offset + 1 + size))
unfolding skip_labels
skip_labels-at rounds packet offset size inside found =
    let long : leb (length packet) offset ≡ false = ground arith in rw (long, found) refl

-- A label of 1 to 63 bytes is skipped with its length.
skip_labels-label :
    (rounds : ℕ) (packet : Bytes) (offset size : ℕ)
    → offset + 1 + size ≤ length packet
    → get_elem? packet offset ≡ some size
    → 1 ≤ size
    → size ≤ 63
    → skip_labels (suc rounds) packet offset ≡ skip_labels rounds packet (offset + 1 + size)
skip_labels-label rounds packet offset size inside found low high =
    let positive : (size == 0) ≡ false = ground arith in
    let no_pointer : (size / 64 % 4 == 3) ≡ false = ground arith in
    let good : (not (size / 64 % 4 == 0) || ltb 63 size) ≡ false = ground arith in
    let whole : ltb (length packet) (offset + 1 + size) ≡ false = ground arith in
    skip_labels-at rounds packet offset size (omega arith) found
    ∙ rw (positive, no_pointer, good, whole) refl

skip_labels-encode :
    (rounds : ℕ) (labels : List Text) (front back : Bytes)
    → length labels < rounds
    → All IsLabel labels
    → skip_labels rounds (front ++ (encode labels ++ (0 ∷ back))) (length front)
      ≡ ok (length front + length (encode labels) + 1)
unfolding encode
skip_labels-encode zero labels front back h good = elim h [ ]
skip_labels-encode (suc rounds) [] front back h good =
    skip_labels-at rounds (front ++ (0 ∷ back)) (length front) 0
      (omega (arith, length-append front (0 ∷ back))) (get_elem?-append front 0 back)
    ∙ ap ok (omega arith)
skip_labels-encode (suc rounds) (label ∷ labels) front back h good =
    let size = length label in
    let rest = encode labels ++ (0 ∷ back) in
    let packet = front ++ ((size % 256) ∷ ((label ++ encode labels) ++ (0 ∷ back))) in
    let front' = front ++ ((size % 256) ∷ label) in
    let fits : size % 256 ≡ size = ground (arith, good.0) in
    let moved : length front' ≡ length front + 1 + size =
      omega (arith, length-append front ((size % 256) ∷ label)) in
    let same : front' ++ rest ≡ packet =
      append_assoc front ((size % 256) ∷ label) rest
      ∙ ap (λ l. front ++ ((size % 256) ∷ l))
          (sym (append_assoc label (encode labels) (0 ∷ back))) in
    let long : length front + 1 + size ≤ length packet =
      omega (arith, moved, ap length same, length-append front' rest) in
    let later : skip_labels rounds (front' ++ rest) (length front')
        ≡ ok (length front' + length (encode labels) + 1) =
      skip_labels-encode rounds labels front' back (omega arith) good.1 in
    skip_labels-label rounds packet (length front) size long
      (get_elem?-append front (size % 256) ((label ++ encode labels) ++ (0 ∷ back)) ∙ ap some fits)
      good.0.0 good.0.1
    ∙ ap (λ n. skip_labels rounds packet n) (sym moved)
    ∙ ap (λ p. skip_labels rounds p (length front')) (sym same)
    ∙ later
    ∙ ap ok (omega (arith, moved, length-append label (encode labels)))

-- A question behind a header of twelve bytes, and whatever follows it.
abbrev pub with_question : Bytes → Text → ℕ → Bytes → Bytes
with_question front name record_type back =
    front
    ++ (encode (split name) ++ (0 ∷ (record_type / 256 % 256) ∷ (record_type % 256) ∷ 0 ∷ 1 ∷ back))

pub length-with_question :
    (front : Bytes) (name : Text) (record_type : ℕ) (back : Bytes)
    → length (with_question front name record_type back)
      ≡ length front + length name + 6 + length back
length-with_question front name record_type back =
    let tail = 0 ∷ (record_type / 256 % 256) ∷ (record_type % 256) ∷ 0 ∷ 1 ∷ back in
    omega (
      arith,
      length-append front (encode (split name) ++ tail),
      length-append (encode (split name)) tail,
      length-encode-split name,
    )

not_over : (a b : ℕ) → b ≤ a → ltb a b ≡ false
not_over a b h = ground arith

pub skip_questions-with_question :
    (front : Bytes) (name : Text) (record_type : ℕ) (back : Bytes)
    → length front ≡ 12
    → All IsLabel (split name)
    → length (split name) ≤ 127
    → skip_questions 1 (with_question front name record_type back) 12 ≡ ok (12 + length name + 6)
unfolding skip_questions skip_name
skip_questions-with_question front name record_type back twelve good few =
    let packet = with_question front name record_type back in
    let skipped : skip_labels 129 packet 12 ≡ ok (12 + length (encode (split name)) + 1) =
      ap (λ n. skip_labels 129 packet n) (sym twelve)
      ∙ skip_labels-encode 129 (split name) front
          ((record_type / 256 % 256) ∷ (record_type % 256) ∷ 0 ∷ 1 ∷ back) (omega arith) good
      ∙ ap (λ n. ok (n + length (encode (split name)) + 1)) twelve in
    let size = length-with_question front name record_type back in
    let named = length-encode-split name in
    let whole : ltb (length packet) (12 + length (encode (split name)) + 1 + 4) ≡ false =
      not_over (length packet) (12 + length (encode (split name)) + 1 + 4)
        (omega (arith, size, twelve, named)) in
    rw skipped (rw whole (ap ok (omega (arith, named))))

-- The question of a query that is built ends where the packet ends.
pub skip_questions-build_query :
    (to_ascii : Text → Option Text) (id : Option (ℕ × ℕ)) (domain : Text) (record_type : ℕ)
    (packet : Bytes) (query_id : ℕ)
    → build_query to_ascii id domain record_type ≡ built packet query_id
    → skip_questions 1 packet 12 ≡ ok (length packet)
unfolding build_query
skip_questions-build_query to_ascii id domain record_type packet query_id h =
    go (normalize_domain to_ascii domain) id refl h
  where
    go :
        (r : NameResult) (id : Option (ℕ × ℕ))
        → normalize_domain to_ascii domain ≡ r
        → query_for r id record_type ≡ built packet query_id
        → skip_questions 1 packet 12 ≡ ok (length packet)
    go (invalid e) id named h = cc
    go (valid name) none named h = cc
    go (valid name) (some (high, low)) named h =
        let (good, few) = normalize_domain-IsLabel to_ascii domain named in
        let same : header high low ++ (encode (split name) ++ trailer record_type) ≡ packet = cc in
        rw (← same) (
          skip_questions-with_question (header high low) name record_type [] refl good few
          ∙ ap ok (omega (arith, length-with_question (header high low) name record_type [])))
