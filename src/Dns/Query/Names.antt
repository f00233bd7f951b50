-- ===== src/Dns/Query/Names.antt =====
-- The names that `normalizeDomain` of engine/internal/dns/wire.go lets pass: how long their labels
-- are, and how many.
use hypomux_arch.Prelude.{
  ℕ, ◌+◌, ◌≤◌, ◌≡◌, refl, not, ◌||◌, List, [], ◌∷◌, Option, none, some, arith, ltb, ◌==◌,
  if◌then◌else◌, length, length-append, All, inl, inr, Bool-cases, Option-cases,
}
use hypomux_arch.Golang.Strings.{Text, is_empty, to_lower, trim_space, trim_dot}
use hypomux_arch.Dns.Query.{
  NameError, valid, invalid, onto_first, split, starts_with_hyphen, ends_with_hyphen,
  all_label_bytes, check_labels, checked, normalize_domain, encode,
}

-- A label's length fits the six bits that the wire format has for it, and is not 0.
abbrev pub IsLabel : Text → Type 0
IsLabel label = (1 ≤ length label) × (length label ≤ 63)

some-ne-none : {e : NameError} → some e ≡ none → ⊥
some-ne-none h = cc

invalid-ne-valid : {e : NameError} {name : Text} → invalid e ≡ valid name → ⊥
invalid-ne-valid h = cc

check_labels-IsLabel : (labels : List Text) → check_labels labels ≡ none → All IsLabel labels
unfolding check_labels
check_labels-IsLabel [] h = tt
check_labels-IsLabel (label ∷ labels) h =
    elim (Bool-cases (length label == 0 || ltb 63 (length label))) [
      | inl bad ↦ absurd (some-ne-none (rw bad at h))
      | inr sized ↦ elim (Bool-cases (starts_with_hyphen label || ends_with_hyphen label)) [
        | inl bad ↦ absurd (some-ne-none (rw (sized, bad) at h))
        | inr no_hyphen ↦ elim (Bool-cases (not (all_label_bytes label))) [
          | inl bad ↦ absurd (some-ne-none (rw (sized, no_hyphen, bad) at h))
          | inr plain ↦ (
            (ground arith, ground arith),
            check_labels-IsLabel labels (rw (sized, no_hyphen, plain) at h),
          )
        ]
      ]
    ]

-- The name and its dots, and one more.
length-encode-onto_first :
    (c : ℕ) (labels : List Text)
    → 1 ≤ length labels
    → length (encode (onto_first c labels)) ≡ length (encode labels) + 1
unfolding encode
length-encode-onto_first c [] h = elim h [ ]
length-encode-onto_first c (label ∷ labels) h = omega arith

pub split_nonempty : (s : Text) → 1 ≤ length (split s)
unfolding split
split_nonempty [] = omega arith
split_nonempty (c ∷ s) = elim (Bool-cases (c == b'.')) [
  | inl dot ↦ rw dot (omega arith)
  | inr other ↦ rw other (onto (split s) (split_nonempty s))
]
  where
    onto : (labels : List Text) → 1 ≤ length labels → 1 ≤ length (onto_first c labels)
    onto [] h = elim h [ ]
    onto (label ∷ labels) h = omega arith

pub length-encode-split : (s : Text) → length (encode (split s)) ≡ length s + 1
unfolding split encode
length-encode-split [] = refl
length-encode-split (c ∷ s) = elim (Bool-cases (c == b'.')) [
  | inl dot ↦ rw dot (omega (arith, length-encode-split s))
  | inr other ↦ rw other (
      omega (arith, length-encode-onto_first c (split s) (split_nonempty s), length-encode-split s))
]

length-le-encode :
    (labels : List Text)
    → All IsLabel labels
    → length labels + length labels ≤ length (encode labels)
unfolding encode
length-le-encode [] h = omega arith
length-le-encode (label ∷ labels) h =
    omega (arith, length-append label (encode labels), length-le-encode labels h.1, h.0.0)

-- A name that passes has labels of 1 to 63 bytes, at most 127 of them.
pub normalize_domain-IsLabel :
    (to_ascii : Text → Option Text) (value : Text) {name : Text}
    → normalize_domain to_ascii value ≡ valid name
    → All IsLabel (split name) × (length (split name) ≤ 127)
unfolding normalize_domain
normalize_domain-IsLabel to_ascii value {name} h =
    elim (Option-cases (to_ascii (trim_dot (trim_space value)))) [
      | inl failed ↦ absurd (invalid-ne-valid (rw (failed, normalize_domain) at h))
      | inr (ascii, found) ↦
          let normal : (if is_empty (to_lower ascii) || ltb 253 (length (to_lower ascii))
                then invalid NameError.invalid_length
                else checked (to_lower ascii) (check_labels (split (to_lower ascii))))
              ≡ valid name =
            rw (found, normalize_domain) at h in
          elim (Bool-cases (is_empty (to_lower ascii) || ltb 253 (length (to_lower ascii)))) [
            | inl bad ↦ absurd (invalid-ne-valid (rw bad at normal))
            | inr sized ↦ elim (Option-cases (check_labels (split (to_lower ascii)))) [
              | inr (e, bad) ↦ absurd (invalid-ne-valid (rw (sized, bad) at normal))
              | inl good ↦
                  let ends : valid (to_lower ascii) ≡ valid name = rw (sized, good) at normal in
                  let same : to_lower ascii ≡ name = cc in
                  let labels : All IsLabel (split (to_lower ascii)) =
                    check_labels-IsLabel (split (to_lower ascii)) good in
                  let short : length (to_lower ascii) ≤ 253 = ground arith in
                  rw (← same) (
                    labels,
                    omega (
                      arith,
                      length-le-encode (split (to_lower ascii)) labels,
                      length-encode-split (to_lower ascii),
                      short,
                    ),
                  )
            ]
          ]
    ]
