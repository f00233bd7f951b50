-- ===== src/Golang/Net/Texts.antt =====
-- The text of an address of package net is not empty.
use hypomux_arch.Prelude.{
  ℕ, zero, suc, ◌+◌, ◌/◌, ◌%◌, ◌<◌, ◌≡◌, refl, Bool, true, false, ◌&&◌, List, [], ◌∷◌, ◌++◌, none,
  some, ◌⊎◌, ltb, ◌==◌, if◌then◌else◌, length, take, drop, map, arith,
}
use hypomux_arch.Prelude.Assoc.{beq, nat_eq, list_eq}
use hypomux_arch.Golang.Strings.{Text, is_empty, digits, decimal, bytes}
use hypomux_arch.Golang.Net.{
  Ip, to4, mapped, join, hexadecimal, hex_digit, groups_of, longest_run, ipv6_string, ip_string,
}

append_nonempty : (xs ys : Text) → is_empty ys ≡ false → is_empty (xs ++ ys) ≡ false
append_nonempty [] ys h = h
append_nonempty (x ∷ xs) ys h = refl

append_nonempty_left : (xs ys : Text) → is_empty xs ≡ false → is_empty (xs ++ ys) ≡ false
append_nonempty_left [] ys h = cc
append_nonempty_left (x ∷ xs) ys h = refl

choice_nonempty :
    (b : Bool) (x y : Text)
    → is_empty x ≡ false
    → is_empty y ≡ false
    → is_empty (if b then x else y) ≡ false
choice_nonempty true x y h k = h
choice_nonempty false x y h k = k

decimal_nonempty : (n : ℕ) → is_empty (decimal n) ≡ false
decimal_nonempty n =
    choice_nonempty (ltb n 10) ((b'0' + n) ∷ []) (digits n (n / 10) ++ ((b'0' + n % 10) ∷ [])) refl
      (append_nonempty (digits n (n / 10)) ((b'0' + n % 10) ∷ []) refl)

hexadecimal_nonempty : (n : ℕ) → is_empty (hexadecimal n) ≡ false
hexadecimal_nonempty n = append_nonempty (if ltb 4095 n then hex_digit (n / 4096) ∷ [] else []) _ (
    append_nonempty (if ltb 255 n then hex_digit (n / 256 % 16) ∷ [] else []) _ (
      append_nonempty (if ltb 15 n then hex_digit (n / 16 % 16) ∷ [] else [])
        (hex_digit (n % 16) ∷ []) refl))

-- Texts that are not empty, joined.
join_nonempty :
    (c : ℕ) (text : ℕ → Text) (ns : List ℕ)
    → ((n : ℕ) → is_empty (text n) ≡ false)
    → is_empty ns ≡ false
    → is_empty (join c (map text ns)) ≡ false
join_nonempty c text [] h k = cc
join_nonempty c text (n ∷ []) h k = h n
join_nonempty c text (n ∷ m ∷ ns) h k =
    append_nonempty (text n) (c ∷ join c (map text (m ∷ ns))) refl

drop_nonempty : (n : ℕ) (xs : List ℕ) → n < length xs → is_empty (drop n xs) ≡ false
drop_nonempty zero [] h = absurd (omega (arith, h))
drop_nonempty zero (x ∷ xs) h = refl
drop_nonempty (suc n) [] h = absurd (omega (arith, h))
drop_nonempty (suc n) (x ∷ xs) h = drop_nonempty n xs (omega (arith, h))

groups_nonempty : (ip : Ip) → 1 < length ip → is_empty (groups_of ip) ≡ false
groups_nonempty [] h = absurd (omega (arith, h))
groups_nonempty (a ∷ []) h = absurd (omega (arith, h))
groups_nonempty (a ∷ b ∷ ip) h = refl

ipv6_string_nonempty : (ip : Ip) → 1 < length ip → is_empty (ipv6_string ip) ≡ false
unfolding ipv6_string
ipv6_string_nonempty ip h =
    let groups = groups_of ip in
    let (start, run) = longest_run 0 (0, 0) groups in
    choice_nonempty (run == 0) (join b':' (map hexadecimal groups))
      (join b':' (map hexadecimal (take start groups))
        ++ (bytes "::" ++ join b':' (map hexadecimal (drop (start + run) groups))))
      (join_nonempty b':' hexadecimal groups hexadecimal_nonempty (groups_nonempty ip h))
      (append_nonempty (join b':' (map hexadecimal (take start groups))) _ (
        append_nonempty_left (bytes "::") (join b':' (map hexadecimal (drop (start + run) groups)))
          refl))

pub ip_string_nonempty :
    (ip : Ip) → (length ip ≡ 4) ⊎ (length ip ≡ 16) → is_empty (ip_string ip) ≡ false
unfolding ip_string to4
ip_string_nonempty ip size =
    by_form (length ip == 4) (length ip == 16 && beq (take 12 ip) (mapped [])) refl refl
  where
    dotted : (ns : List ℕ) → is_empty ns ≡ false → is_empty (join b'.' (map decimal ns)) ≡ false
    dotted ns h = join_nonempty b'.' decimal ns decimal_nonempty h

    by_form :
        (four long : Bool)
        → (length ip == 4) ≡ four
        → (length ip == 16 && beq (take 12 ip) (mapped [])) ≡ long
        → is_empty (elim (if four then some ip else if long then some (drop 12 ip) else none) [
          | some v4 ↦ join b'.' (map decimal v4)
          | none ↦ ipv6_string ip
        ])
          ≡ false
    by_form true long e h = dotted ip (drop_nonempty 0 ip (ground (arith, e)))
    by_form false true e h = dotted (drop 12 ip) (drop_nonempty 12 ip (ground (arith, e, size)))
    by_form false false e h = ipv6_string_nonempty ip (ground (arith, e, size))
