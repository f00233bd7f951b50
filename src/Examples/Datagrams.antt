-- ===== src/Examples/Datagrams.antt =====
-- A datagram through the relay of engine/internal/proxy/udp.go, with simple texts for addresses.
use hypomux_arch.Prelude.{
  ℕ, ◌≡◌, refl, ap, List, [], ◌∷◌, ◌++◌, Option, none, some, ◌==◌, if◌then◌else◌, length, take,
  drop, arith,
}
use hypomux_arch.Prelude.Int.{ℤ, pos, negsuc}
use hypomux_arch.Golang.Strings.{Text}
use hypomux_arch.Proxy.Udp.{
  AddressText, to16, SocksUdpPacket, parse_socks_udp_packet, pack_socks_udp_reply,
}
use hypomux_arch.Proxy.Udp.Packets.{pack-parse}

abbrev plain_itoa : ℤ → Text
plain_itoa (pos n) = 0 ∷ n ∷ []
plain_itoa (negsuc n) = 1 ∷ n ∷ []

abbrev plain_atoi : Text → Option ℤ
plain_atoi (sign ∷ n ∷ []) = some (if sign == 0 then pos n else negsuc n)
plain_atoi _ = none

abbrev plain_split : Text → Option (Text × Text)
plain_split [] = none
plain_split (n ∷ s) = some (take n s, drop n s)

take-length : (xs ys : Text) → take (length xs) (xs ++ ys) ≡ xs
take-length [] ys = refl
take-length (x ∷ xs) ys = ap (λ zs. x ∷ zs) (take-length xs ys)

drop-length : (xs ys : Text) → drop (length xs) (xs ++ ys) ≡ ys
drop-length [] ys = refl
drop-length (x ∷ xs) ys = drop-length xs ys

-- Addresses as their bytes, a number with its sign before it, and a host with its length.
abbrev plain : AddressText
plain = record {
  string = λ ip. ip;
  parse_ip = λ s. some (to16 s);
  itoa = plain_itoa;
  atoi = plain_atoi;
  join_host_port = λ host port. length host ∷ (host ++ port);
  split_host_port = plain_split;
  parse_string = λ ip known. refl;
  atoi_itoa = λ port small. refl;
  split_join = λ ip port known small.
      rw (take-length ip (plain_itoa (pos port)), drop-length ip (plain_itoa (pos port))) refl;
}

abbrev datagram : List ℕ
datagram = 0 ∷ 0 ∷ 0 ∷ 1 ∷ 1 ∷ 2 ∷ 3 ∷ 4 ∷ 0 ∷ 53 ∷ 7 ∷ 8 ∷ []

abbrev packet : SocksUdpPacket
packet = record { target = 4 ∷ 1 ∷ 2 ∷ 3 ∷ 4 ∷ 0 ∷ 53 ∷ []; payload = 7 ∷ 8 ∷ [] }

read : parse_socks_udp_packet plain datagram ≡ some packet
unfolding parse_socks_udp_packet
read = refl

pack-parse_example : pack_socks_udp_reply plain packet.target packet.payload ≡ some datagram
pack-parse_example =
    pack-parse plain datagram packet
      (
        omega arith,
        (
          omega arith,
          (
            omega arith,
            (
              omega arith,
              (
                omega arith,
                (
                  omega arith,
                  (
                    omega arith,
                    (omega arith, (omega arith, (omega arith, (omega arith, (omega arith, tt))))),
                  ),
                ),
              ),
            ),
          ),
        ),
      )
      read
