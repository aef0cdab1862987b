-- ===== src/Transport/LwIp.antt =====
-- src/PulseCoAPTransportLwIP.h: `LwIpUdpTransport`. The functions of lwIP that it calls are a
-- `Stack`; `ipv6` says whether it was built with LWIP_IPV6.
pub mod Ring
use pulse_co_ap.Common.{
  ℕ, ◌+◌, ◌-◌, ◌/◌, ◌%◌, ◌^◌, Bool, true, false, not, ◌&&◌, ◌||◌, Option, none, some, List, [], ◌∷◌,
  ltb, ◌==◌, if◌then◌else◌, length, get_elem?, set, take, replicate,
}
use pulse_co_ap.Common.Bits.{u8, u16, u32}
use pulse_co_ap.Types.Config.{max_msg_size}
use pulse_co_ap.Types.Address.{Endpoint, unspecified}

abbrev pub rx_slots : ℕ
rx_slots = 4

-- `ip_addr_t`: the number that `ip4_addr_get_u32` gives, or the sixteen bytes of an IPv6 address.
pub data IpAddress : Type 0 where
  ip4 : ℕ → IpAddress
  ip6 : List ℕ → IpAddress

-- What lwIP answers: whether a PCB is created, bound to a port, a buffer of that size allocated, a
-- datagram taken; and the address that `IP4_ADDR` makes.
pub record Stack : Type 0 where
  pub creates : Bool
  pub binds : ℕ → Bool
  pub allocates : ℕ → Bool
  pub takes : IpAddress → ℕ → List ℕ → Bool
  pub ip4_addr : ℕ → ℕ → ℕ → ℕ → IpAddress

-- `data` is its first `length` bytes.
pub record Slot : Type 0 where
  pub bytes : List ℕ
  pub from : Endpoint

abbrev pub empty_slot : Slot
empty_slot = record { bytes = []; from = unspecified }

-- `opened` says whether `pcb_` is not null.
pub record LwIp : Type 0 where
  pub opened : Bool
  pub slots : List Slot
  pub head : ℕ
  pub tail : ℕ

abbrev pub closed : LwIp
closed = record { opened = false; slots = replicate rx_slots empty_slot; head = 0; tail = 0 }

unfoldable pub begin : Stack → ℕ → LwIp → LwIp × Bool
begin stack port t =
    if t.opened
    then (t, false)
    else if not stack.creates
    then (t, false)
    else if not (stack.binds port)
    then (t, false)
    else (record t { opened = true }, true)

-- Entry `i` of an address of four bytes.
abbrev pub octet : List ℕ → ℕ → ℕ
octet ip i = elim (get_elem? ip i) [ none ↦ 0 | some b ↦ b ]

unfoldable pub destination : Stack → Bool → Endpoint → IpAddress
destination stack ipv6 to =
    if ipv6 && to.is_v6
    then IpAddress.ip6 to.v6
    else stack.ip4_addr (octet to.ip 0) (octet to.ip 1) (octet to.ip 2) (octet to.ip 3)

unfoldable pub send : Stack → Bool → Endpoint → List ℕ → LwIp → Bool
send stack ipv6 to bytes t =
    if not t.opened || (length bytes == 0)
    then false
    else if not (stack.allocates (u16 (length bytes)))
    then false
    else stack.takes (destination stack ipv6 to) to.port bytes

-- The remote address of a datagram that has arrived.
unfoldable pub remote_of : IpAddress → ℕ → Endpoint
remote_of (IpAddress.ip4 raw) port = record unspecified {
  ip = u8 raw ∷ u8 (raw / 2 ^ 8) ∷ u8 (raw / 2 ^ 16) ∷ u8 (raw / 2 ^ 24) ∷ [];
  port = port;
}
remote_of (IpAddress.ip6 bytes) port = record unspecified { v6 = bytes; is_v6 = true; port = port }

-- `tail_ - head_`.
abbrev pub used : LwIp → ℕ
used t = u32 (t.tail + 2 ^ 32 - t.head)

abbrev pub stored : List ℕ → IpAddress → ℕ → Slot
stored bytes address port = record {
  bytes = take (if ltb (length bytes) max_msg_size then length bytes else max_msg_size) bytes;
  from = remote_of address port;
}

-- `recvCallback`, for a buffer that is not null.
unfoldable pub recv_callback : List ℕ → IpAddress → ℕ → LwIp → LwIp
recv_callback bytes address port t =
    if ltb (used t) rx_slots
    then record t {
      slots = set t.slots (t.tail % rx_slots) (stored bytes address port);
      tail = u32 (t.tail + 1);
    }
    else t

abbrev pub slot_or : Option Slot → Slot
slot_or none = empty_slot
slot_or (some s) = s

-- `slots_[i % PULSECOAP_LWIP_RX_SLOTS]`, which is in range.
abbrev pub slot_at : List Slot → ℕ → Slot
slot_at slots i = slot_or (get_elem? slots (i % rx_slots))

-- The number of bytes is the length of those copied; `none` where nothing is waiting.
unfoldable pub receive : ℕ → LwIp → LwIp × Option (Endpoint × List ℕ)
receive capacity t =
    if t.head == t.tail
    then (t, none)
    else let s = slot_at t.slots t.head in
      let to_copy = if ltb (length s.bytes) capacity then length s.bytes else capacity in
      (record t { head = u32 (t.head + 1) }, some (s.from, take to_copy s.bytes))
