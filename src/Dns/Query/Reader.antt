-- ===== src/Dns/Query/Reader.antt =====
-- A reader of DNS queries after RFC 1035, and what it reads in the queries that `buildQuery` of
-- engine/internal/dns/wire.go makes.
use hypomux_arch.Prelude.{
  ℕ, zero, suc, ◌+◌, ◌*◌, ◌/◌, ◌%◌, ◌≤◌, ◌<◌, ◌≡◌, refl, sym, ap, ◌∙◌, Bool, true, false, List, [],
  ◌∷◌, ◌++◌, Option, none, some, arith, ◌==◌, if◌then◌else◌, length, take, drop, All,
}
use hypomux_arch.Golang.Strings.{Text}
use hypomux_arch.Golang.Net.{join}
use hypomux_arch.Dns.Wire.{Bytes, ok, skip_questions}
use hypomux_arch.Dns.Query.{
  NameResult, valid, invalid, split, onto_first, encode, header, trailer, built, query_for,
  build_query, normalize_domain,
}
use hypomux_arch.Dns.Query.Answers.{append_assoc, take-append}
use hypomux_arch.Dns.Query.Names.{IsLabel, normalize_domain-IsLabel, split_nonempty}
use hypomux_arch.Dns.Query.Question.{skip_questions-build_query}

-- A message with one question.
pub record Question : Type 0 where
  pub id : ℕ
  pub flags : ℕ
  pub questions : ℕ
  pub answers : ℕ
  pub authorities : ℕ
  pub additional : ℕ
  pub name : Text
  pub record_type : ℕ
  pub class : ℕ

abbrev onto : Text → Option (List Text × Bytes) → Option (List Text × Bytes)
onto label none = none
onto label (some (labels, back)) = some (label ∷ labels, back)

-- The labels up to the empty one, each behind its length, and what follows; with the rounds left.
abbrev read_labels : ℕ → Bytes → Option (List Text × Bytes)
read_labels zero xs = none
read_labels (suc rounds) [] = none
read_labels (suc rounds) (n ∷ xs) =
    let rest = read_labels rounds (drop n xs) in
    if n == 0 then some ([], xs) else onto (take n xs) rest

abbrev word : ℕ → ℕ → ℕ
word high low = high * 256 + low

-- The end of the message, behind the labels.
abbrev read_end : Question → Option (List Text × Bytes) → Option Question
read_end head (some (labels, t₁ ∷ t₀ ∷ c₁ ∷ c₀ ∷ [])) =
    some (record head { name = join b'.' labels; record_type = word t₁ t₀; class = word c₁ c₀ })
read_end head _ = none

abbrev pub read_query : Bytes → Option Question
read_query (i₁ ∷ i₀ ∷ f₁ ∷ f₀ ∷ q₁ ∷ q₀ ∷ a₁ ∷ a₀ ∷ n₁ ∷ n₀ ∷ d₁ ∷ d₀ ∷ rest) =
    read_end
      (record {
        id = word i₁ i₀;
        flags = word f₁ f₀;
        questions = word q₁ q₀;
        answers = word a₁ a₀;
        authorities = word n₁ n₀;
        additional = word d₁ d₀;
        name = [];
        record_type = 0;
        class = 0;
      })
      (read_labels 128 rest)
read_query _ = none

drop-append : (xs ys : Bytes) → drop (length xs) (xs ++ ys) ≡ ys
drop-append [] ys = refl
drop-append (x ∷ xs) ys = drop-append xs ys

read_labels-encode :
    (rounds : ℕ) (labels : List Text) (back : Bytes)
    → length labels < rounds
    → All IsLabel labels
    → read_labels rounds (encode labels ++ (0 ∷ back)) ≡ some (labels, back)
unfolding encode
read_labels-encode zero labels back few good = absurd (omega (arith, few))
read_labels-encode (suc rounds) [] back few good = refl
read_labels-encode (suc rounds) (label ∷ labels) back few good =
    let rest = encode labels ++ (0 ∷ back) in
    let fits : length label % 256 ≡ length label = ground (arith, good.0) in
    let positive : (length label == 0) ≡ false = ground (arith, good.0) in
    let later = read_labels-encode rounds labels back (omega (arith, few)) good.1 in
    ap
      (λ n.
        if n == 0
        then some ([], (label ++ encode labels) ++ (0 ∷ back))
        else onto (take n ((label ++ encode labels) ++ (0 ∷ back)))
            (read_labels rounds (drop n ((label ++ encode labels) ++ (0 ∷ back)))))
      fits
    ∙ ap
        (λ xs.
          if length label == 0
          then some ([], xs)
          else onto (take (length label) xs) (read_labels rounds (drop (length label) xs)))
        (append_assoc label (encode labels) (0 ∷ back))
    ∙ ap
        (λ b.
          if b
          then some ([], label ++ rest)
          else onto (take (length label) (label ++ rest))
              (read_labels rounds (drop (length label) (label ++ rest))))
        positive
    ∙ ap (λ l. onto l (read_labels rounds (drop (length label) (label ++ rest))))
        (take-append label rest)
    ∙ ap (λ xs. onto label (read_labels rounds xs)) (drop-append label rest)
    ∙ ap (onto label) later

join-onto_first :
    (c : ℕ) (labels : List Text)
    → 1 ≤ length labels
    → join b'.' (onto_first c labels) ≡ c ∷ join b'.' labels
join-onto_first c [] h = absurd (omega (arith, h))
join-onto_first c (label ∷ []) h = refl
join-onto_first c (label ∷ label' ∷ labels) h = refl

join-empty :
    (labels : List Text) → 1 ≤ length labels → join b'.' ([] ∷ labels) ≡ b'.' ∷ join b'.' labels
join-empty [] h = absurd (omega (arith, h))
join-empty (label ∷ labels) h = refl

-- A name's labels, joined by dots, are the name.
join-split : (s : Text) → join b'.' (split s) ≡ s
unfolding split
join-split [] = refl
join-split (c ∷ s) = by_dot (join-split s) (c == b'.') refl
  where
    by_dot :
        join b'.' (split s) ≡ s
        → (dot : Bool) → (c == b'.') ≡ dot
        → join b'.' (if dot then [] ∷ split s else onto_first c (split s)) ≡ c ∷ s
    by_dot later true e =
        let same : b'.' ≡ c = ground (arith, e) in
        join-empty (split s) (split_nonempty s) ∙ ap (λ xs. b'.' ∷ xs) later ∙ ap (λ d. d ∷ s) same
    by_dot later false e = join-onto_first c (split s) (split_nonempty s) ∙ ap (λ xs. c ∷ xs) later

type_word : (n : ℕ) → n < 65536 → word (n / 256 % 256) (n % 256) ≡ n
type_word n h = omega (arith, h)

abbrev pub question_of : ℕ → Text → ℕ → Question
question_of query_id name record_type = record {
  id = query_id;
  flags = 256;
  questions = 1;
  answers = 0;
  authorities = 0;
  additional = 0;
  name = name;
  record_type = record_type;
  class = 1;
}

read_query-encode :
    (high low : ℕ) (name : Text) (record_type : ℕ)
    → record_type < 65536
    → All IsLabel (split name)
    → length (split name) ≤ 127
    → read_query (header high low ++ (encode (split name) ++ trailer record_type))
      ≡ some (question_of (high * 256 + low) name record_type)
read_query-encode high low name record_type small good few =
    let head = question_of (high * 256 + low) name record_type in
    let back = (record_type / 256 % 256) ∷ (record_type % 256) ∷ 0 ∷ 1 ∷ [] in
    ap (read_end (question_of (high * 256 + low) [] 0))
      (read_labels-encode 128 (split name) back (omega (arith, few)) good)
    ∙ ap
        (λ n. some (record head {
          name = n;
          record_type = word (record_type / 256 % 256) (record_type % 256);
        }))
        (join-split name)
    ∙ ap (λ n. some (record head { record_type = n })) (type_word record_type small)

-- A query that `buildQuery` makes for a record type of 16 bits, read after RFC 1035, holds the ID that
-- is returned with it, the flag for recursion and no other, one question and no record; the question
-- is for the name that `normalizeDomain` makes of the domain, for the record type and class IN, and
-- nothing follows it. The parser's loop over the question ends where the packet ends.
pub read_query-build_query :
    (to_ascii : Text → Option Text) (id : Option (ℕ × ℕ)) (domain : Text) (record_type : ℕ)
    (packet : Bytes) (query_id : ℕ)
    → record_type < 65536
    → build_query to_ascii id domain record_type ≡ built packet query_id
    → (name : Text) × (normalize_domain to_ascii domain ≡ valid name)
      × (read_query packet ≡ some (question_of query_id name record_type))
      × (skip_questions 1 packet 12 ≡ ok (length packet))
unfolding build_query
read_query-build_query to_ascii id domain record_type packet query_id small h =
    go (normalize_domain to_ascii domain) id refl h
      (skip_questions-build_query to_ascii id domain record_type packet query_id h)
  where
    go :
        (r : NameResult) (id : Option (ℕ × ℕ))
        → normalize_domain to_ascii domain ≡ r
        → query_for r id record_type ≡ built packet query_id
        → skip_questions 1 packet 12 ≡ ok (length packet)
        → (name : Text) × (normalize_domain to_ascii domain ≡ valid name)
          × (read_query packet ≡ some (question_of query_id name record_type))
          × (skip_questions 1 packet 12 ≡ ok (length packet))
    go (invalid e) id named h skipped = cc
    go (valid name) none named h skipped = cc
    go (valid name) (some (high, low)) named h skipped =
        let (good, few) = normalize_domain-IsLabel to_ascii domain named in
        let same : header high low ++ (encode (split name) ++ trailer record_type) ≡ packet = cc in
        let same_id : high * 256 + low ≡ query_id = cc in
        (
          name,
          named,
          ap read_query (sym same)
              ∙ read_query-encode high low name record_type small good few
              ∙ ap (λ i. some (question_of i name record_type)) same_id,
          skipped,
        )
