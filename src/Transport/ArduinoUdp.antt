-- ===== src/Transport/ArduinoUdp.antt =====
-- src/PulseCoAPTransportArduinoUDP.h: `ArduinoUdpTransport`. The `UDP` object of the caller is a
-- `Udp`.
use pulse_co_ap.Common.{
  ℕ, Bool, false, not, Option, none, some, List, [], ltb, ◌==◌, if◌then◌else◌, length, take,
}
use pulse_co_ap.Types.Address.{Endpoint}

-- What the object answers: whether it begins on a port, begins a packet to an address and port and
-- ends it, and how many bytes it writes.
pub record Udp : Type 0 where
  pub begins : ℕ → Bool
  pub begins_packet : List ℕ → ℕ → Bool
  pub writes : List ℕ → ℕ
  pub ends_packet : Bool

-- A packet that `parsePacket` has found: its size, its address and port, and what `read` gives when
-- it is asked for that many bytes, `none` for an error.
pub record Packet : Type 0 where
  pub size : ℕ
  pub remote_ip : List ℕ
  pub remote_port : ℕ
  pub read : ℕ → Option (List ℕ)

unfoldable pub begin : Udp → ℕ → Bool
begin udp port = udp.begins port

unfoldable pub send : Udp → Endpoint → List ℕ → Bool
send udp to bytes =
    if not (udp.begins_packet to.ip to.port)
    then false
    else if not udp.ends_packet
    then false
    else udp.writes bytes == length bytes

-- The endpoint of the caller with the address and port of the packet; its family is left.
unfoldable pub named : Packet → Endpoint → Endpoint
named packet from = record from { ip = take 4 packet.remote_ip; port = packet.remote_port }

-- `none` where there is no packet; no bytes where its size is 0 or `read` fails.
unfoldable pub receive : Option Packet → ℕ → Endpoint → Endpoint × List ℕ
receive none capacity from = (from, [])
receive (some packet) capacity from = if packet.size == 0 then (from, []) else (
  named packet from,
  elim (packet.read (if ltb packet.size capacity then packet.size else capacity)) [
    | none ↦ []
    | some bytes ↦ bytes
  ],
)
