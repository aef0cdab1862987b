-- ===== src/Types/Checks.antt =====
-- The theorem on peers at two endpoints.
use pulse_co_ap.Common.{◌≡◌, ◌↔◌, [], ◌∷◌}
use pulse_co_ap.Types.Address.{Endpoint, unspecified}
use pulse_co_ap.Types.Peers.{peer, address, peer_iff}

abbrev here : Endpoint
here = record unspecified { ip = 192 ∷ 168 ∷ 0 ∷ 2 ∷ []; port = 5683 }

-- The same, with something left in the bytes of an IPv6 address.
abbrev here_too : Endpoint
here_too = record here { v6 = 1 ∷ [] }

peer_iff_example : (peer here ≡ peer here_too) ↔ (
    (here.port ≡ here_too.port) × (here.is_v6 ≡ here_too.is_v6) × (address here ≡ address here_too))
peer_iff_example = peer_iff here here_too
