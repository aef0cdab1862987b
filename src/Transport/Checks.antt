-- ===== src/Transport/Checks.antt =====
-- The theorems on the transports at concrete inputs.
use pulse_co_ap.Common.{ℕ, ◌+◌, ◌*◌, ◌/◌, ◌%◌, ◌^◌, ◌≡◌, refl, true, List, [], ◌∷◌, inl, arith}
use pulse_co_ap.Types.Address.{Endpoint, unspecified, endpoint_eq}
use pulse_co_ap.Transport.LwIp.{IpAddress}
use pulse_co_ap.Transport.LwIp
use pulse_co_ap.Transport.LwIp.Ring.{Event, ring_run, queue_run, ring_run_lem}
use pulse_co_ap.Transport.Posix.{ByteOrder, target, fill_endpoint}
use pulse_co_ap.Transport.Posix.Addresses.{Inverts, fill_endpoint-target}

abbrev arrived : ℕ → Event
arrived b = Event.arrival (b ∷ []) (IpAddress.ip4 0x0200A8C0) 5683

-- Five datagrams before the first is read, and one behind it.
abbrev burst : List Event
burst =
    arrived 1
    ∷ arrived 2
    ∷ arrived 3
    ∷ arrived 4
    ∷ arrived 5
    ∷ Event.fetch 256
    ∷ arrived 6
    ∷ Event.fetch 256
    ∷ []

ring_run_lem_example : ring_run burst LwIp.closed ≡ queue_run burst []
ring_run_lem_example = ring_run_lem burst

abbrev host : Endpoint
host = record unspecified { ip = 192 ∷ 168 ∷ 0 ∷ 2 ∷ []; port = 5683 }

-- A host that keeps the lowest byte first.
abbrev swap16 : ℕ → ℕ
swap16 x = x % 256 * 256 + x / 256 % 256

abbrev swap32 : ℕ → ℕ
swap32 x = swap16 (x % 2 ^ 16) * 2 ^ 16 + swap16 (x / 2 ^ 16)

abbrev little : ByteOrder
little = record { htons = swap16; htonl = swap32; ntohs = swap16; ntohl = swap32 }

little-Inverts : Inverts little
little-Inverts = record { ntohs-htons = λ port h. omega arith; ntohl-htonl = λ raw h. omega arith }

fill_endpoint-target_example :
    endpoint_eq (fill_endpoint little (target little true host)) host ≡ true
fill_endpoint-target_example =
    fill_endpoint-target little little-Inverts host 192 168 0 2 refl (omega arith) (omega arith)
      (omega arith) (omega arith) (omega arith) true (inl refl)
