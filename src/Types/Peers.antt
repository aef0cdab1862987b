-- ===== src/Types/Peers.antt =====
-- About endpoints up to `operator==` (src/PulseCoAPTransport.h): a peer, whose address of the other
-- family is not looked at.
use pulse_co_ap.Common.{
  ◌≡◌, ◌↔◌, sym, ap, ◌∙◌, Bool, true, Bool-cases, inl, inr, ℕ, List, if◌then◌else◌, arith, same_iff,
}
use pulse_co_ap.Types.Address.{
  Endpoint, beq_bool, endpoint_eq, endpoint_eq_refl, endpoint_eq_sym, endpoint_eq_trans,
}
use mathlib.Core.Quot
use mathlib.Core.Quot.{Quot}
use mathlib.Core.Bool.{Bool-set}

abbrev pub SameEndpoint : Endpoint → Endpoint → Type 0
SameEndpoint a b = endpoint_eq a b ≡ true

abbrev pub Peer : Type 0
Peer = Quot SameEndpoint

abbrev pub peer : Endpoint → Peer
peer a = Quot.mk a

-- Equal endpoints compare alike with any other.
endpoint_eq_cong : (a x y : Endpoint) → SameEndpoint x y → endpoint_eq a x ≡ endpoint_eq a y
endpoint_eq_cong a x y h = elim (Bool-cases (endpoint_eq a x)) [
  | inl alike ↦ alike ∙ sym (endpoint_eq_trans a x y alike h)
  | inr other ↦ elim (Bool-cases (endpoint_eq a y)) [
    | inl alike ↦ endpoint_eq_trans a y x alike (endpoint_eq_sym y x ∙ h) ∙ sym alike
    | inr also ↦ other ∙ sym also
  ]
]

-- The address that counts.
abbrev pub address : Endpoint → List ℕ
address a = if a.is_v6 then a.v6 else a.ip

same_parts :
    (a b : Endpoint)
    → endpoint_eq a b ≡ true
    → (a.port ≡ b.port) × (a.is_v6 ≡ b.is_v6) × (address a ≡ address b)
unfolding endpoint_eq beq_bool
same_parts a b h = ground (arith, same_iff a.v6 b.v6, same_iff a.ip b.ip)

parts_same :
    (a b : Endpoint)
    → a.port ≡ b.port
    → a.is_v6 ≡ b.is_v6
    → address a ≡ address b
    → endpoint_eq a b ≡ true
unfolding endpoint_eq beq_bool
parts_same a b p f e = ground (arith, same_iff a.v6 b.v6, same_iff a.ip b.ip)

-- `operator==` with an endpoint, as a function of the peer.
is_peer : Endpoint → Peer → Bool
is_peer a = Quot.lift Bool-set (endpoint_eq a) (endpoint_eq_cong a)

-- Two endpoints are the same peer exactly when they have the same port, the same family, and the
-- same address of that family; the bytes of the other family do not count.
pub peer_iff :
    (a b : Endpoint)
    → (peer a ≡ peer b) ↔ ((a.port ≡ b.port) × (a.is_v6 ≡ b.is_v6) × (address a ≡ address b))
unfolding is_peer
peer_iff a b = (
  λ e. same_parts a b (sym (ap (is_peer a) e) ∙ endpoint_eq_refl a),
  λ (port, family, bytes). Quot.sound (parts_same a b port family bytes),
)
