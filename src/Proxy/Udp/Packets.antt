-- ===== src/Proxy/Udp/Packets.antt =====
-- A datagram that engine/internal/proxy/udp.go reads is the one that it writes.
use hypomux_arch.Prelude.{
  ℕ, zero, suc, ◌+◌, ◌*◌, ◌/◌, ◌%◌, ◌^◌, ◌<◌, ◌≡◌, refl, sym, ap, ◌∙◌, subst, Bool, true, false,
  not, ◌&&◌, ◌||◌, ◌⊎◌, inl, inr, List, [], ◌∷◌, ◌++◌, Option, none, some, ◌==◌, if◌then◌else◌,
  length, take, drop, arith,
}
use hypomux_arch.Prelude.Int.{pos, ltb_ℤ}
use hypomux_arch.Golang.Strings.{is_empty}
use hypomux_arch.Golang.Net.{Ip, to4}
use hypomux_arch.Proxy.Udp.{
  AddressText, to16, IsBytes, SocksUdpPacket, parse_rest, parse_ipv6_rest, parse_socks_udp_packet,
  big_endian, header, pack_socks_udp_reply,
}

append-take-drop : (n : ℕ) (xs : List ℕ) → take n xs ++ drop n xs ≡ xs
append-take-drop zero xs = refl
append-take-drop (suc n) [] = refl
append-take-drop (suc n) (x ∷ xs) = ap (λ ys. x ∷ ys) (append-take-drop n xs)

-- What stands behind the first `n` elements says that there are `n`.
length-take :
    (n : ℕ) (xs : List ℕ) {y : ℕ} {ys : List ℕ} → drop n xs ≡ y ∷ ys → length (take n xs) ≡ n
length-take zero xs e = refl
length-take (suc n) [] e = cc
length-take (suc n) (x ∷ xs) e = ap suc (length-take n xs e)

IsBytes-take : (n : ℕ) (xs : List ℕ) → IsBytes xs → IsBytes (take n xs)
IsBytes-take zero xs b = tt
IsBytes-take (suc n) [] b = tt
IsBytes-take (suc n) (x ∷ xs) b = (b.0, IsBytes-take n xs b.1)

IsBytes-drop : (n : ℕ) (xs : List ℕ) → IsBytes xs → IsBytes (drop n xs)
IsBytes-drop zero xs b = b
IsBytes-drop (suc n) [] b = b
IsBytes-drop (suc n) (x ∷ xs) b = IsBytes-drop n xs b.1

big_endian_port :
    (high low : ℕ) → high < 256 → low < 256 → big_endian (high * 256 + low) ≡ high ∷ low ∷ []
big_endian_port high low h l =
    let e₀ : (high * 256 + low) % 2 ^ 16 / 256 ≡ high = omega arith in
    let e₁ : (high * 256 + low) % 2 ^ 16 % 256 ≡ low = omega arith in rw (e₀, e₁) refl

four_bytes : (xs : List ℕ) → length xs ≡ 4 → (a b c d : ℕ) × (xs ≡ a ∷ b ∷ c ∷ d ∷ [])
four_bytes [] h = absurd (omega (arith, h))
four_bytes (a ∷ []) h = absurd (omega (arith, h))
four_bytes (a ∷ b ∷ []) h = absurd (omega (arith, h))
four_bytes (a ∷ b ∷ c ∷ []) h = absurd (omega (arith, h))
four_bytes (a ∷ b ∷ c ∷ d ∷ []) h = (a, b, c, d, refl)
four_bytes (a ∷ b ∷ c ∷ d ∷ e ∷ xs) h = absurd (omega (arith, h))

none-ne-some : {A : Type 0} {a : A} → ◌≡◌ {A = Option A} none (some a) → ⊥
none-ne-some h = cc

some-injective : {A : Type 0} {a b : A} → ◌≡◌ {A = Option A} (some a) (some b) → a ≡ b
some-injective h = cc

module _ (t : AddressText) where
  -- The reply to the target that an address and a port give.
  pack_address :
      (ip : Ip) (port : ℕ) (payload : List ℕ)
      → (length ip ≡ 4) ⊎ (length ip ≡ 16)
      → IsBytes ip
      → (port == 0) ≡ false
      → port < 65536
      → pack_socks_udp_reply t (t.join_host_port (t.string ip) (t.itoa (pos port))) payload
        ≡ some (header (to4 (to16 ip)) (to16 ip) port ++ payload)
  unfolding pack_socks_udp_reply
  pack_address ip port payload size bytes nonzero small =
      rw
        (
          t.split_join ip port (size, bytes) small,
          t.parse_string ip (size, bytes),
          t.atoi_itoa port small,
        )
        (in_range (not (ltb_ℤ (pos 0) (pos port)) || ltb_ℤ (pos 65535) (pos port))
          (ground (arith, nonzero, small)))
    where
      in_range :
          (b : Bool)
          → b ≡ false
          → (if b then none else some (header (to4 (to16 ip)) (to16 ip) port ++ payload))
            ≡ some (header (to4 (to16 ip)) (to16 ip) port ++ payload)
      in_range true h = cc
      in_range false h = refl

  -- What the part behind the address is when it is read, and the reply then.
  parse_rest_packs :
      (ip : Ip) (after : List ℕ) {p : SocksUdpPacket}
      → ((y : ℕ) (ys : List ℕ) → after ≡ y ∷ ys → (length ip ≡ 4) ⊎ (length ip ≡ 16))
      → IsBytes ip
      → IsBytes after
      → parse_rest t ip after ≡ some p
      → (high low : ℕ) × (payload : List ℕ) × (after ≡ high ∷ low ∷ payload)
        × (pack_socks_udp_reply t p.target p.payload
            ≡ some (header (to4 (to16 ip)) (to16 ip) (high * 256 + low) ++ payload))
  parse_rest_packs ip [] size bytes rest e = absurd (none-ne-some e)
  parse_rest_packs ip (high ∷ []) size bytes rest e = absurd (none-ne-some e)
  parse_rest_packs ip (high ∷ low ∷ payload) {p} size bytes rest e =
      (high, low, payload, refl, split (high * 256 + low == 0 || is_empty payload) refl e)
    where
      port_found :
          (b : Bool) → (high * 256 + low == 0 || b) ≡ false → (high * 256 + low == 0) ≡ false
      port_found b h = ground arith

      split :
          (b : Bool)
          → (high * 256 + low == 0 || is_empty payload) ≡ b
          → (if b
              then none
              else some (record {
                target = t.join_host_port (t.string ip) (t.itoa (pos (high * 256 + low)));
                payload = payload;
              }))
            ≡ some p
          → pack_socks_udp_reply t p.target p.payload
            ≡ some (header (to4 (to16 ip)) (to16 ip) (high * 256 + low) ++ payload)
      split true h e = absurd (none-ne-some e)
      split false h e =
          subst
            (λ q.
              pack_socks_udp_reply t q.target q.payload
              ≡ some (header (to4 (to16 ip)) (to16 ip) (high * 256 + low) ++ payload))
            (some-injective e)
            (pack_address ip (high * 256 + low) payload (size high (low ∷ payload) refl) bytes
              (port_found (is_empty payload) h) (omega (arith, rest.0, rest.1.0)))

  packs_ipv4 :
      (rest : List ℕ) {p : SocksUdpPacket}
      → IsBytes rest
      → parse_rest t (take 4 rest) (drop 4 rest) ≡ some p
      → pack_socks_udp_reply t p.target p.payload ≡ some (0 ∷ 0 ∷ 0 ∷ 1 ∷ rest)
  unfolding to4
  packs_ipv4 rest bytes e =
      let (high, low, payload, after, packed) =
        parse_rest_packs (take 4 rest) (drop 4 rest) (λ y ys f. inl (length-take 4 rest f))
          (IsBytes-take 4 rest bytes) (IsBytes-drop 4 rest bytes) e in
      let (a, b, c, d, four) = four_bytes (take 4 rest) (length-take 4 rest after) in
      let small = subst IsBytes after (IsBytes-drop 4 rest bytes) in
      let whole : rest ≡ a ∷ b ∷ c ∷ d ∷ high ∷ low ∷ payload =
        sym (append-take-drop 4 rest)
        ∙ (ap (λ xs. xs ++ drop 4 rest) four ∙ ap (λ xs. a ∷ b ∷ c ∷ d ∷ xs) after) in
      packed
      ∙ (ap (λ ip. some (header (to4 (to16 ip)) (to16 ip) (high * 256 + low) ++ payload)) four
          ∙ (ap (λ port. some (0 ∷ 0 ∷ 0 ∷ 1 ∷ a ∷ b ∷ c ∷ d ∷ (port ++ payload)))
                (big_endian_port high low small.0 small.1.0)
              ∙ ap (λ xs. some (0 ∷ 0 ∷ 0 ∷ 1 ∷ xs)) (sym whole)))

  to16_long : (ip : Ip) → length ip ≡ 16 → to16 ip ≡ ip
  to16_long ip h = ground (arith, h)

  append_assoc : (xs ys zs : List ℕ) → (xs ++ ys) ++ zs ≡ xs ++ (ys ++ zs)
  append_assoc [] ys zs = refl
  append_assoc (x ∷ xs) ys zs = ap (λ ws. x ∷ ws) (append_assoc xs ys zs)

  packs_ipv6 :
      (rest : List ℕ) {p : SocksUdpPacket}
      → IsBytes rest
      → to4 (take 16 rest) ≡ none
      → parse_rest t (take 16 rest) (drop 16 rest) ≡ some p
      → pack_socks_udp_reply t p.target p.payload ≡ some (0 ∷ 0 ∷ 0 ∷ 4 ∷ rest)
  packs_ipv6 rest bytes six e =
      let ip = take 16 rest in
      let (high, low, payload, after, packed) =
        parse_rest_packs ip (drop 16 rest) (λ y ys f. inr (length-take 16 rest f))
          (IsBytes-take 16 rest bytes) (IsBytes-drop 16 rest bytes) e in
      let small = subst IsBytes after (IsBytes-drop 16 rest bytes) in
      packed
      ∙ (ap (λ x. some (header (to4 x) x (high * 256 + low) ++ payload))
            (to16_long ip (length-take 16 rest after))
          ∙ (ap (λ o. some (header o ip (high * 256 + low) ++ payload)) six
              ∙ (ap (λ port. some (0 ∷ 0 ∷ 0 ∷ 4 ∷ ((ip ++ port) ++ payload)))
                    (big_endian_port high low small.0 small.1.0)
                  ∙ (ap (λ xs. some (0 ∷ 0 ∷ 0 ∷ 4 ∷ xs))
                        (append_assoc ip (high ∷ low ∷ []) payload)
                      ∙ ap (λ xs. some (0 ∷ 0 ∷ 0 ∷ 4 ∷ xs))
                          (ap (λ xs. ip ++ xs) (sym after) ∙ append-take-drop 16 rest)))))

  parse_ipv6_packs :
      (o : Option Ip) (rest : List ℕ) {p : SocksUdpPacket}
      → to4 (take 16 rest) ≡ o
      → IsBytes rest
      → parse_ipv6_rest t o rest ≡ some p
      → pack_socks_udp_reply t p.target p.payload ≡ some (0 ∷ 0 ∷ 0 ∷ 4 ∷ rest)
  parse_ipv6_packs none rest six bytes e = packs_ipv6 rest bytes six e
  parse_ipv6_packs (some v4) rest six bytes e = absurd (none-ne-some e)

  -- The branches of the parser, by the tests of the first four bytes.
  parse_kind_packs :
      (plain ipv4 ipv6 : Bool) (rest : List ℕ) {p : SocksUdpPacket}
      → IsBytes rest
      → (if not plain
          then none
          else if ipv4
          then parse_rest t (take 4 rest) (drop 4 rest)
          else if ipv6
          then parse_ipv6_rest t (to4 (take 16 rest)) rest
          else none)
        ≡ some p
      → (plain ≡ true)
        × (((ipv4 ≡ true)
              × (pack_socks_udp_reply t p.target p.payload ≡ some (0 ∷ 0 ∷ 0 ∷ 1 ∷ rest)))
            ⊎ ((ipv6 ≡ true)
                × (pack_socks_udp_reply t p.target p.payload ≡ some (0 ∷ 0 ∷ 0 ∷ 4 ∷ rest))))
  parse_kind_packs false ipv4 ipv6 rest bytes e = absurd (none-ne-some e)
  parse_kind_packs true true ipv6 rest bytes e = (refl, inl (refl, packs_ipv4 rest bytes e))
  parse_kind_packs true false true rest bytes e =
      (refl, inr (refl, parse_ipv6_packs (to4 (take 16 rest)) rest refl bytes e))
  parse_kind_packs true false false rest bytes e = absurd (none-ne-some e)

  first_four :
      (a b c k n : ℕ) (rest : List ℕ)
      → (a == 0 && b == 0 && c == 0) ≡ true
      → (k == n) ≡ true
      → ◌≡◌ {A = Option (List ℕ)} (some (0 ∷ 0 ∷ 0 ∷ n ∷ rest)) (some (a ∷ b ∷ c ∷ k ∷ rest))
  first_four a b c k n rest h j =
      let e₀ : a ≡ 0 = ground (arith, h) in
      let e₁ : b ≡ 0 = ground (arith, h) in
      let e₂ : c ≡ 0 = ground (arith, h) in
      let e₃ : k ≡ n = ground (arith, j) in rw (e₀, e₁, e₂, e₃) refl

  -- A datagram that the relay reads, be its target an IPv4 or an IPv6 address, is byte for byte the
  -- one that it writes for the same target and the same data.
  pub pack-parse :
      (datagram : List ℕ) (p : SocksUdpPacket)
      → IsBytes datagram
      → parse_socks_udp_packet t datagram ≡ some p
      → pack_socks_udp_reply t p.target p.payload ≡ some datagram
  unfolding parse_socks_udp_packet
  pack-parse [] p bytes e = absurd (none-ne-some e)
  pack-parse (a ∷ []) p bytes e = absurd (none-ne-some e)
  pack-parse (a ∷ b ∷ []) p bytes e = absurd (none-ne-some e)
  pack-parse (a ∷ b ∷ c ∷ []) p bytes e = absurd (none-ne-some e)
  pack-parse (a ∷ b ∷ c ∷ k ∷ rest) p bytes e =
      let (plain, kind) =
        parse_kind_packs (a == 0 && b == 0 && c == 0) (k == 1) (k == 4) rest bytes.1.1.1.1 e in
      elim kind [
        | inl (ipv4, packed) ↦ packed ∙ first_four a b c k 1 rest plain ipv4
        | inr (ipv6, packed) ↦ packed ∙ first_four a b c k 4 rest plain ipv6
      ]
