-- ===== src/Golang/Net.antt =====
-- The addresses of package net: net.ParseIP (by netip.ParseAddr, without zones), IP.To4 and
-- IP.String. An address is 4 or 16 bytes; ParseIP returns 16.
use hypomux_arch.Prelude.{
  ℕ, zero, suc, ◌+◌, ◌-◌, ◌*◌, ◌/◌, ◌%◌, ◌≡◌, refl, Bool, true, false, not, ◌&&◌, ◌||◌, List, [],
  ◌∷◌, ◌++◌, Option, none, some, ltb, leb, ◌==◌, if◌then◌else◌, length, take, drop, map,
}
use hypomux_arch.Prelude.Assoc.{beq, contains, nat_eq}
use hypomux_arch.Golang.Strings.{Text, text_eq, bytes, is_empty, decimal}
pub mod Texts

abbrev pub Ip : Type 0
Ip = List ℕ

abbrev pub is_digit : ℕ → Bool
is_digit c = leb b'0' c && leb c b'9'

-- The loop of parseIPv4Fields: the fields found, the digits of the current one and its value.
unfoldable pub ipv4_fields : Text → List ℕ → ℕ → ℕ → Option (List ℕ)
ipv4_fields [] fields digits value =
    if length fields == 3 && ltb 0 digits then some (fields ++ (value ∷ [])) else none
ipv4_fields (c ∷ s) fields digits value =
    let grown = value * 10 + (c - b'0') in
    let next_digit = ipv4_fields s fields (digits + 1) grown in
    let next_field = ipv4_fields s (fields ++ (value ∷ [])) 0 0 in
    if is_digit c
    then (if (digits == 1 && value == 0) || ltb 255 grown then none else next_digit)
    else if c == b'.'
    then (if digits == 0 || length fields == 3 then none else next_field)
    else none

unfoldable pub parse_ipv4 : Text → Option Ip
unfolding ipv4_fields
parse_ipv4 s = ipv4_fields s [] 0 0

-- The value of a hexadecimal digit.
abbrev pub hex_value : ℕ → Option ℕ
hex_value c =
    if is_digit c
    then some (c - b'0')
    else if leb b'a' c && leb c b'f'
    then some (c - b'a' + 10)
    else if leb b'A' c && leb c b'F'
    then some (c - b'A' + 10)
    else none

-- The inner loop of parseIPv6: the digits read, the value and what follows; nothing for a fifth
-- digit.
unfoldable pub hex_group : Text → ℕ → ℕ → Option (ℕ × ℕ × Text)
hex_group [] digits value = some (digits, value, [])
hex_group (c ∷ s) digits value = elim (hex_value c) [
  | none ↦ some (digits, value, c ∷ s)
  | some v ↦ if ltb 3 digits then none else hex_group s (digits + 1) (value * 16 + v)
]

-- The groups read, the place of `::` and the text left.
abbrev pub Groups : Type 0
Groups = List ℕ × Option ℕ × Text

abbrev pub starts_with : ℕ → Text → Bool
starts_with c [] = false
starts_with c (d ∷ s) = c == d

-- Behind a group: the end, or a colon and more.
unfoldable pub after_group : List ℕ → Option ℕ → Text → Option (Bool × Groups)
after_group ip ellipsis [] = some (true, (ip, ellipsis, []))
after_group ip ellipsis (c ∷ []) = none
after_group ip ellipsis (c ∷ d ∷ s) =
    if not (c == b':')
    then none
    else if not (d == b':')
    then some (false, (ip, ellipsis, d ∷ s))
    else elim ellipsis [ some e ↦ none | none ↦ some (is_empty s, (ip, some (length ip), s)) ]

-- The outer loop, with the rounds left: eight groups at most.
unfoldable pub ipv6_groups : ℕ → List ℕ → Option ℕ → Text → Option Groups
unfolding hex_group after_group parse_ipv4
ipv6_groups zero ip ellipsis s = some (ip, ellipsis, s)
ipv6_groups (suc rounds) ip ellipsis s = elim (hex_group s 0 0) [
  | none ↦ none
  | some (digits, value, rest) ↦
      if digits == 0
      then none
      else if starts_with b'.' rest
      then (if ltb 12 (length ip)
            || (not (length ip == 12) && (elim ellipsis [ none ↦ true | some e ↦ false ]))
          then none
          else elim (parse_ipv4 s) [ none ↦ none | some v4 ↦ some (ip ++ v4, ellipsis, []) ])
      else elim (after_group (ip ++ ((value / 256) ∷ (value % 256) ∷ [])) ellipsis rest) [
        | none ↦ none
        | some (ends, (ip', ellipsis', s')) ↦
            if ends then some (ip', ellipsis', s') else ipv6_groups rounds ip' ellipsis' s'
      ]
]

abbrev pub zeros : ℕ → Ip
zeros zero = []
zeros (suc n) = 0 ∷ zeros n

-- The end of parseIPv6: the text is used up, and `::` stands for one group at least.
unfoldable pub expand : Groups → Option Ip
expand (ip, ellipsis, s) = if not (is_empty s) then none else elim ellipsis [
  | none ↦ if length ip == 16 then some ip else none
  | some e ↦
      if length ip == 16 then none else some (take e ip ++ (zeros (16 - length ip) ++ drop e ip))
]

unfoldable pub parse_ipv6 : Text → Option Ip
unfolding ipv6_groups expand
parse_ipv6 (c ∷ d ∷ s) =
    let leading = c == b':' && d == b':' in
    if leading && is_empty s
    then some (zeros 16)
    else elim (if leading then ipv6_groups 8 [] (some 0) s else ipv6_groups 8 [] none (c ∷ d ∷ s)) [
      | none ↦ none
      | some groups ↦ expand groups
    ]
parse_ipv6 s = none

-- The first of `.`, `:` and `%` decides.
abbrev pub first_mark : Text → ℕ
first_mark [] = 0
first_mark (c ∷ s) = if c == b'.' || c == b':' || c == b'%' then c else first_mark s

abbrev pub mapped : Ip → Ip
mapped v4 = 0 ∷ 0 ∷ 0 ∷ 0 ∷ 0 ∷ 0 ∷ 0 ∷ 0 ∷ 0 ∷ 0 ∷ 255 ∷ 255 ∷ v4

-- A zone makes ParseIP fail.
unfoldable pub parse_ip : Text → Option Ip
unfolding parse_ipv4 parse_ipv6
parse_ip s =
    if first_mark s == b'.'
    then elim (parse_ipv4 s) [ none ↦ none | some v4 ↦ some (mapped v4) ]
    else if first_mark s == b':' && not (contains s b'%')
    then parse_ipv6 s
    else none

unfoldable pub to4 : Ip → Option Ip
to4 ip =
    if length ip == 4
    then some ip
    else if length ip == 16 && beq (take 12 ip) (mapped [])
    then some (drop 12 ip)
    else none

abbrev pub join : ℕ → List Text → Text
join c [] = []
join c (s ∷ []) = s
join c (s ∷ t ∷ ss) = s ++ (c ∷ join c (t ∷ ss))

abbrev pub hex_digit : ℕ → ℕ
hex_digit n = if ltb n 10 then b'0' + n else b'a' + (n - 10)

-- The hexadecimal digits of a group.
abbrev pub hexadecimal : ℕ → Text
hexadecimal n =
    (if ltb 4095 n then hex_digit (n / 4096) ∷ [] else [])
    ++ ((if ltb 255 n then hex_digit (n / 256 % 16) ∷ [] else [])
        ++ ((if ltb 15 n then hex_digit (n / 16 % 16) ∷ [] else []) ++ (hex_digit (n % 16) ∷ [])))

abbrev pub groups_of : Ip → List ℕ
groups_of (a ∷ b ∷ ip) = (a * 256 + b) ∷ groups_of ip
groups_of _ = []

abbrev pub leading_zeros : List ℕ → ℕ
leading_zeros [] = 0
leading_zeros (g ∷ gs) = let rest = leading_zeros gs in if g == 0 then rest + 1 else 0

-- The first of the longest runs of two zero groups or more: where it starts, and its length.
abbrev pub longest_run : ℕ → ℕ × ℕ → List ℕ → ℕ × ℕ
longest_run i best [] = best
longest_run i best (g ∷ gs) =
    let run = leading_zeros (g ∷ gs) in
    longest_run (i + 1) (if leb 2 run && ltb best.1 run then (i, run) else best) gs

unfoldable pub ipv6_string : Ip → Text
ipv6_string ip =
    let groups = groups_of ip in
    let (start, run) = longest_run 0 (0, 0) groups in
    if run == 0
    then join b':' (map hexadecimal groups)
    else join b':' (map hexadecimal (take start groups))
      ++ (bytes "::" ++ join b':' (map hexadecimal (drop (start + run) groups)))

unfoldable pub ip_string : Ip → Text
unfolding to4 ipv6_string
ip_string ip = elim (to4 ip) [ some v4 ↦ join b'.' (map decimal v4) | none ↦ ipv6_string ip ]

printed : ip_string (254 ∷ 128 ∷ zeros 11 ++ (1 ∷ 0 ∷ 2 ∷ [])) ≡ bytes "fe80::1:2"
unfolding ip_string
printed = refl

printed_mapped : ip_string (mapped (10 ∷ 0 ∷ 0 ∷ 1 ∷ [])) ≡ bytes "10.0.0.1"
unfolding ip_string
printed_mapped = refl

parsed_ipv6 : parse_ip (bytes "fe80::1:2") ≡ some (254 ∷ 128 ∷ zeros 11 ++ (1 ∷ 0 ∷ 2 ∷ []))
unfolding parse_ip
parsed_ipv6 = refl

parsed_mixed : parse_ip (bytes "::ffff:10.0.0.1") ≡ some (mapped (10 ∷ 0 ∷ 0 ∷ 1 ∷ []))
unfolding parse_ip
parsed_mixed = refl

unparsed : parse_ip (bytes "10.0.0.01") ≡ none
unfolding parse_ip
unparsed = refl

-- IP.IsLoopback: 127.0.0.0/8 or ::1.
abbrev pub is_loopback : Ip → Bool
unfolding to4
is_loopback ip = elim (to4 ip) [
  | some v4 ↦ beq (take 1 v4) (127 ∷ [])
  | none ↦ beq ip (zeros 15 ++ (1 ∷ []))
]

-- IP.IsUnspecified, IP.IsMulticast and IP.IsLinkLocalUnicast on an address that is not an IPv4 one:
-- ::, ff00::/8 and fe80::/10.
abbrev pub is_unspecified_v6 : Ip → Bool
is_unspecified_v6 ip = beq ip (zeros 16)

abbrev pub is_multicast_v6 : Ip → Bool
is_multicast_v6 ip = beq (take 1 ip) (255 ∷ [])

abbrev pub is_link_local_v6 : Ip → Bool
is_link_local_v6 (a ∷ b ∷ ip) = a == 254 && leb 128 b && ltb b 192
is_link_local_v6 _ = false
