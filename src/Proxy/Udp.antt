-- ===== src/Proxy/Udp.antt =====
-- The datagrams of SOCKS5 in engine/internal/proxy/udp.go: `parseSOCKSUDPPacket` and
-- `packSOCKSUDPReply`. The functions of net and strconv that turn an address into the text of a
-- target and back are an argument, with what they do on addresses and ports.
use hypomux_arch.Prelude.{
  ℕ, ◌+◌, ◌*◌, ◌/◌, ◌%◌, ◌^◌, ◌<◌, ◌≡◌, refl, Bool, true, false, not, ◌&&◌, ◌||◌, ◌⊎◌, List, [],
  ◌∷◌, ◌++◌, Option, none, some, ◌==◌, if◌then◌else◌, length, take, drop, All,
}
use hypomux_arch.Prelude.Int.{ℤ, pos, ltb_ℤ, pos_part}
use hypomux_arch.Golang.Strings.{Text, is_empty}
use hypomux_arch.Golang.Net.{Ip, mapped, to4}
pub mod Packets

-- IP.To16 on an address of 4 or 16 bytes.
abbrev pub to16 : Ip → Ip
to16 ip = if length ip == 4 then mapped ip else ip

abbrev pub IsBytes : List ℕ → Type 0
IsBytes xs = All (λ b. b < 256) xs

-- An address of 4 or 16 bytes.
abbrev pub IsAddress : Ip → Type 0
IsAddress ip = ((length ip ≡ 4) ⊎ (length ip ≡ 16)) × IsBytes ip

-- IP.String and net.ParseIP, strconv.Itoa and strconv.Atoi, net.JoinHostPort and net.SplitHostPort.
-- Of texts that the first of each pair writes of an address or of a port, the second reads what was
-- written; ParseIP returns 16 bytes. Nothing is assumed of other texts.
pub record AddressText : Type 0 where
  pub string : Ip → Text
  pub parse_ip : Text → Option Ip
  pub itoa : ℤ → Text
  pub atoi : Text → Option ℤ
  pub join_host_port : Text → Text → Text
  pub split_host_port : Text → Option (Text × Text)
  pub parse_string : (ip : Ip) → IsAddress ip → parse_ip (string ip) ≡ some (to16 ip)
  pub atoi_itoa : (port : ℕ) → port < 65536 → atoi (itoa (pos port)) ≡ some (pos port)
  pub split_join :
      (ip : Ip) (port : ℕ)
      → IsAddress ip
      → port < 65536
      → split_host_port (join_host_port (string ip) (itoa (pos port)))
        ≡ some (string ip, itoa (pos port))

pub record SocksUdpPacket : Type 0 where
  pub target : Text
  pub payload : List ℕ

-- Behind the address: the port and the data.
abbrev pub parse_rest : AddressText → Ip → List ℕ → Option SocksUdpPacket
parse_rest t ip (high ∷ low ∷ payload) =
    let port = high * 256 + low in
    if port == 0 || is_empty payload
    then none
    else some
        (record { target = t.join_host_port (t.string ip) (t.itoa (pos port)); payload = payload })
parse_rest t ip _ = none

abbrev pub parse_ipv6_rest : AddressText → Option Ip → List ℕ → Option SocksUdpPacket
parse_ipv6_rest t none rest = parse_rest t (take 16 rest) (drop 16 rest)
parse_ipv6_rest t (some v4) rest = none

unfoldable pub parse_socks_udp_packet : AddressText → List ℕ → Option SocksUdpPacket
unfolding to4
parse_socks_udp_packet t (reserved ∷ reserved' ∷ fragment ∷ kind ∷ rest) =
    if not (reserved == 0 && reserved' == 0 && fragment == 0)
    then none
    else if kind == 1
    then parse_rest t (take 4 rest) (drop 4 rest)
    else if kind == 4
    then parse_ipv6_rest t (to4 (take 16 rest)) rest
    else none
parse_socks_udp_packet t _ = none

-- binary.BigEndian.PutUint16 of uint16(port).
abbrev pub big_endian : ℕ → List ℕ
big_endian port = (port % 2 ^ 16 / 256) ∷ (port % 2 ^ 16 % 256) ∷ []

abbrev pub header : Option Ip → Ip → ℕ → List ℕ
header (some v4) ip port = 0 ∷ 0 ∷ 0 ∷ 1 ∷ (v4 ++ big_endian port)
header none ip port = 0 ∷ 0 ∷ 0 ∷ 4 ∷ (ip ++ big_endian port)

abbrev pub pack_to : Option Ip → Option ℤ → List ℕ → Option (List ℕ)
pack_to none port payload = none
pack_to (some ip) none payload = none
pack_to (some ip) (some port) payload =
    if not (ltb_ℤ (pos 0) port) || ltb_ℤ (pos 65535) port
    then none
    else some (header (to4 ip) ip (pos_part port) ++ payload)

abbrev pub pack_split : AddressText → Option (Text × Text) → List ℕ → Option (List ℕ)
pack_split t none payload = none
pack_split t (some (host, port)) payload = pack_to (t.parse_ip host) (t.atoi port) payload

unfoldable pub pack_socks_udp_reply : AddressText → Text → List ℕ → Option (List ℕ)
unfolding to4
pack_socks_udp_reply t target payload = pack_split t (t.split_host_port target) payload
