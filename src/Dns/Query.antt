-- ===== src/Dns/Query.antt =====
-- engine/internal/dns/wire.go, `normalizeRecordType`, `normalizeDomain` and `buildQuery`. The
-- function `ToASCII` of the IDNA package and the two random bytes of the query's ID are arguments.
use hypomux_arch.Prelude.{
  ℕ, ◌+◌, ◌-◌, ◌*◌, ◌/◌, ◌%◌, Bool, true, false, not, ◌&&◌, ◌||◌, List, [], ◌∷◌, ◌++◌, map, Option,
  none, some, ltb, leb, ◌==◌, if◌then◌else◌, length,
}
use hypomux_arch.Prelude.Assoc.{beq}
use hypomux_arch.Golang.Strings.{Text, text_eq, bytes, is_empty, to_lower, trim_space, trim_dot}
use hypomux_arch.Dns.Wire.{Bytes, dns_type_a, dns_type_aaaa}
pub mod Answers
pub mod Exchange
pub mod Names
pub mod Question
pub mod Reader

pub data RecordType : Type 0 where
  record_a record_aaaa : RecordType

abbrev pub upper_byte : ℕ → ℕ
upper_byte c = if leb b'a' c && leb c b'z' then c - 32 else c

-- The record type with its number on the wire, or nothing for an unsupported one.
unfoldable pub normalize_record_type : Text → Option (RecordType × ℕ)
unfolding trim_space
normalize_record_type value =
    let name = map upper_byte (trim_space value) in
    if is_empty name || beq name (bytes "A")
    then some (record_a, dns_type_a)
    else if beq name (bytes "AAAA")
    then some (record_aaaa, dns_type_aaaa)
    else none

pub data NameError : Type 0 where
  not_idna invalid_length invalid_label_length hyphen_at_end not_ascii : NameError

pub data NameResult : Type 0 where
  valid : Text → NameResult
  invalid : NameError → NameResult

-- strings.Split(name, "."), which is never empty.
abbrev pub onto_first : ℕ → List Text → List Text
onto_first c [] = (c ∷ []) ∷ []
onto_first c (label ∷ labels) = (c ∷ label) ∷ labels

unfoldable pub split : Text → List Text
split [] = [] ∷ []
split (c ∷ s) = let rest = split s in if c == b'.' then [] ∷ rest else onto_first c rest

abbrev pub is_label_byte : ℕ → Bool
is_label_byte c = (leb b'a' c && leb c b'z') || (leb b'0' c && leb c b'9') || c == b'-'

abbrev pub all_label_bytes : Text → Bool
all_label_bytes [] = true
all_label_bytes (c ∷ s) = is_label_byte c && all_label_bytes s

-- `label[0] == '-'`, and `label[len(label)-1] == '-'`.
abbrev pub starts_with_hyphen : Text → Bool
starts_with_hyphen [] = false
starts_with_hyphen (c ∷ s) = c == b'-'

abbrev pub ends_with_hyphen : Text → Bool
ends_with_hyphen [] = false
ends_with_hyphen (c ∷ []) = c == b'-'
ends_with_hyphen (c ∷ d ∷ s) = ends_with_hyphen (d ∷ s)

-- The loop over the labels: the first error.
unfoldable pub check_labels : List Text → Option NameError
check_labels [] = none
check_labels (label ∷ labels) =
    let rest = check_labels labels in
    if length label == 0 || ltb 63 (length label)
    then some invalid_label_length
    else if starts_with_hyphen label || ends_with_hyphen label
    then some hyphen_at_end
    else if not (all_label_bytes label)
    then some not_ascii
    else rest

abbrev pub checked : Text → Option NameError → NameResult
checked name none = valid name
checked name (some e) = invalid e

unfoldable pub normalize_domain : (Text → Option Text) → Text → NameResult
unfolding split check_labels to_lower trim_space trim_dot
normalize_domain to_ascii value = elim (to_ascii (trim_dot (trim_space value))) [
  | none ↦ invalid not_idna
  | some ascii ↦
      let name = to_lower ascii in
      if is_empty name || ltb 253 (length name)
      then invalid invalid_length
      else checked name (check_labels (split name))
]

-- The labels of a name, each behind its length as a byte.
unfoldable pub encode : List Text → Bytes
encode [] = []
encode (label ∷ labels) = (length label % 256) ∷ (label ++ encode labels)

-- The header with the two bytes of the ID, the flag for recursion and one question.
abbrev pub header : ℕ → ℕ → Bytes
header high low = high ∷ low ∷ 1 ∷ 0 ∷ 0 ∷ 1 ∷ 0 ∷ 0 ∷ 0 ∷ 0 ∷ 0 ∷ 0 ∷ []

-- What follows the labels: the end of the name, the record type and the class IN.
abbrev pub trailer : ℕ → Bytes
trailer record_type = 0 ∷ (record_type / 256 % 256) ∷ (record_type % 256) ∷ 0 ∷ 1 ∷ []

pub data QueryResult : Type 0 where
  built : Bytes → ℕ → QueryResult
  invalid_name : NameError → QueryResult
  no_randomness : QueryResult

abbrev pub query_for : NameResult → Option (ℕ × ℕ) → ℕ → QueryResult
query_for (invalid e) id record_type = invalid_name e
query_for (valid name) none record_type = no_randomness
query_for (valid name) (some (high, low)) record_type =
    built (header high low ++ (encode (split name) ++ trailer record_type)) (high * 256 + low)

unfoldable pub build_query : (Text → Option Text) → Option (ℕ × ℕ) → Text → ℕ → QueryResult
unfolding normalize_domain split encode
build_query to_ascii id domain record_type =
    query_for (normalize_domain to_ascii domain) id record_type
