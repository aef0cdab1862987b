-- ===== src/Transport/Posix/Addresses.antt =====
-- About the endpoints that `send` and `receive` translate (src/PulseCoAPTransportPosix.h).
use pulse_co_ap.Common.{
  ℕ, ◌+◌, ◌*◌, ◌/◌, ◌^◌, ◌≡◌, refl, ap, ◌∙◌, Bool, true, false, List, [], ◌∷◌, arith, inl, inr,
  same, same_refl, ==_refl, ◌⊎◌,
}
use pulse_co_ap.Common.Bits.{IsByte, IsU16, IsU32, u8}
use pulse_co_ap.Types.Address.{Endpoint, unspecified, endpoint_eq, beq_bool}
use pulse_co_ap.Transport.Posix.{ByteOrder, is_mapped, target, fill_endpoint}

-- An IPv4 endpoint with these bytes.
abbrev of_ip : List ℕ → ℕ → Endpoint
of_ip ip port = record unspecified { ip = ip; port = port }

of_ip_eq :
    (to : Endpoint) (ip : List ℕ)
    → to.ip ≡ ip
    → to.is_v6 ≡ false
    → endpoint_eq (of_ip ip to.port) to ≡ true
unfolding endpoint_eq beq_bool
of_ip_eq to ip e v = rw (v, e, ==_refl to.port, same_refl ip) refl

octets :
    (a b c d : ℕ)
    → IsByte a
    → IsByte b
    → IsByte c
    → IsByte d
    → let raw = a * 2 ^ 24 + b * 2 ^ 16 + c * 2 ^ 8 + d in
      (u8 (raw / 2 ^ 24) ≡ a) × (u8 (raw / 2 ^ 16) ≡ b) × (u8 (raw / 2 ^ 8) ≡ c) × (u8 raw ≡ d)
octets a b c d ha hb hc hd = (omega arith, omega arith, omega arith, omega arith)

-- What POSIX says of the conversions: those back undo those to the network, on 16 and 32 bits.
pub record Inverts (net : ByteOrder) : Type 0 where
  pub ntohs-htons : (port : ℕ) → IsU16 port → net.ntohs (net.htons port) ≡ port
  pub ntohl-htonl : (raw : ℕ) → IsU32 raw → net.ntohl (net.htonl raw) ≡ raw

-- What a socket can address: IPv4, and if it is dual-stack also IPv6 addresses that are not
-- IPv4-mapped.
abbrev pub IsAddressed : Bool → Endpoint → Type 0
IsAddressed dual to =
    (to.is_v6 ≡ false) ⊎ ((dual ≡ true) × (to.is_v6 ≡ true) × (is_mapped to.v6 ≡ false))

module _ (net : ByteOrder) (inverts : Inverts net) (to : Endpoint) (a b c d : ℕ)
    (e : to.ip ≡ a ∷ b ∷ c ∷ d ∷ []) (ha : IsByte a) (hb : IsByte b) (hc : IsByte c) (hd : IsByte d)
    (port : IsU16 to.port) where
  -- What a sent datagram names as its destination.
  fill_endpoint-inet :
      (dual : Bool)
      → to.is_v6 ≡ false
      → fill_endpoint net (target net dual to) ≡ of_ip (a ∷ b ∷ c ∷ d ∷ []) to.port
  unfolding target fill_endpoint same
  fill_endpoint-inet true v = rw (v, e, inverts.ntohs-htons to.port port) refl
  fill_endpoint-inet false v =
      let (first, second, third, fourth) = octets a b c d ha hb hc hd in
      rw
        (
          e,
          inverts.ntohs-htons to.port port,
          inverts.ntohl-htonl (a * 2 ^ 24 + b * 2 ^ 16 + c * 2 ^ 8 + d) (omega arith),
          first,
          second,
          third,
          fourth,
        )
        refl

  -- A datagram that is sent to an endpoint goes to the socket address that `receive` reads as that
  -- endpoint, so that a reply from there is taken for one from it: for an IPv4 endpoint on either
  -- kind of socket, and for an IPv6 endpoint whose address is not IPv4-mapped on a dual-stack one;
  -- whatever the byte order of the host, if its conversions undo one another. The port has 16 bits
  -- and the IPv4 address of the endpoint four bytes.
  pub fill_endpoint-target :
      (dual : Bool)
      → IsAddressed dual to
      → endpoint_eq (fill_endpoint net (target net dual to)) to ≡ true
  unfolding target fill_endpoint endpoint_eq beq_bool
  fill_endpoint-target dual (inl v) =
      ap (λ (x : Endpoint). endpoint_eq x to) (fill_endpoint-inet dual v)
      ∙ of_ip_eq to (a ∷ b ∷ c ∷ d ∷ []) e v
  fill_endpoint-target true (inr (dual, v, plain)) =
      rw (v, plain, inverts.ntohs-htons to.port port, ==_refl to.port, same_refl to.v6) refl
  fill_endpoint-target false (inr (dual, v, plain)) = absurd cc
