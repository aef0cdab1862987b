-- ===== src/Transport/Posix.antt =====
-- src/PulseCoAPTransportPosix.h: `PosixUdpTransport`. The system calls are a `Kernel`; `ipv6` says
-- whether it was built without NO_IPV6. A port and an IPv4 address of a socket address are the
-- numbers that its fields hold, in network order; `htons` and its like are the `ByteOrder`.
pub mod Addresses
use pulse_co_ap.Common.{
  ℕ, ◌+◌, ◌*◌, ◌/◌, ◌^◌, Bool, true, false, not, ◌&&◌, ◌||◌, Option, none, some, List, [], ◌∷◌,
  ◌++◌, ◌==◌, if◌then◌else◌, length, get_elem?, drop, take, replicate, same,
}
use pulse_co_ap.Common.Bits.{u8}
use pulse_co_ap.Types.Address.{Endpoint, unspecified}

-- `sockaddr_in` with its address as a number, or `sockaddr_in6` with its sixteen bytes.
pub data SocketAddress : Type 0 where
  inet : ℕ → ℕ → SocketAddress
  inet6 : List ℕ → ℕ → SocketAddress

-- The conversions between the byte order of the host and that of the network.
pub record ByteOrder : Type 0 where
  pub htons : ℕ → ℕ
  pub htonl : ℕ → ℕ
  pub ntohs : ℕ → ℕ
  pub ntohl : ℕ → ℕ

-- What the system calls answer: whether a socket of either family is made, is made non-blocking and
-- bound; how many bytes of a datagram are sent, `none` for an error; whether an option for
-- multicast is set, of a group and an interface; the number of a dotted address, `none` for
-- INADDR_NONE; and the name of the socket.
pub record Kernel : Type 0 where
  pub makes_inet6 : Bool
  pub makes_inet : Bool
  pub unblocks : Bool
  pub binds : SocketAddress → Bool
  pub sends : SocketAddress → List ℕ → Option ℕ
  pub adds_membership : ℕ → ℕ → Bool
  pub sets_interface : ℕ → Bool
  pub inet_addr : List ℕ → Option ℕ
  pub name : Option SocketAddress
  pub byte_order : ByteOrder

-- `opened` says whether `fd_` is not negative.
pub record Posix : Type 0 where
  pub opened : Bool
  pub dual_stack : Bool

abbrev pub closed : Posix
closed = record { opened = false; dual_stack = false }

abbrev pub any_inet6 : List ℕ
any_inet6 = replicate 16 0

-- From `fcntl` on, with a socket.
unfoldable pub bind_to : Kernel → ℕ → Bool → Posix × Bool
bind_to kernel port dual =
    if not kernel.unblocks
    then (record { opened = false; dual_stack = dual }, false)
    else if kernel.binds (
        if dual
        then SocketAddress.inet6 any_inet6 (kernel.byte_order.htons port)
        else SocketAddress.inet (kernel.byte_order.htonl 0) (kernel.byte_order.htons port))
    then (record { opened = true; dual_stack = dual }, true)
    else (record { opened = false; dual_stack = dual }, false)

unfoldable pub begin : Kernel → Bool → ℕ → Posix → Posix × Bool
begin kernel ipv6 port t =
    if t.opened
    then (t, false)
    else if ipv6 && kernel.makes_inet6
    then bind_to kernel port true
    else if kernel.makes_inet
    then bind_to kernel port false
    else (t, false)

-- Entry `i` of an address.
abbrev pub octet : List ℕ → ℕ → ℕ
octet bytes i = elim (get_elem? bytes i) [ none ↦ 0 | some b ↦ b ]

-- ::ffff:0:0/96
abbrev pub mapped_prefix : List ℕ
mapped_prefix = replicate 10 0 ++ (255 ∷ 255 ∷ [])

-- The address that `send` gives to `sendto`.
unfoldable pub target : ByteOrder → Bool → Endpoint → SocketAddress
target net true to =
    SocketAddress.inet6
      (if to.is_v6
        then to.v6
        else mapped_prefix ++ (octet to.ip 0 ∷ octet to.ip 1 ∷ octet to.ip 2 ∷ octet to.ip 3 ∷ []))
      (net.htons to.port)
target net false to =
    SocketAddress.inet
      (net.htonl
        (octet to.ip 0 * 2 ^ 24 + octet to.ip 1 * 2 ^ 16 + octet to.ip 2 * 2 ^ 8 + octet to.ip 3))
      (net.htons to.port)

-- `sent == length`
abbrev pub sent_all : ℕ → Option ℕ → Bool
sent_all len none = false
sent_all len (some n) = n == len

unfoldable pub send : Kernel → Endpoint → List ℕ → Posix → Bool
send kernel to bytes t =
    if not t.opened
    then false
    else sent_all (length bytes) (kernel.sends (target kernel.byte_order t.dual_stack to) bytes)

-- The test for an IPv4-mapped address.
abbrev pub is_mapped : List ℕ → Bool
is_mapped bytes = same (take 12 bytes) mapped_prefix

unfoldable pub fill_endpoint : ByteOrder → SocketAddress → Endpoint
fill_endpoint net (SocketAddress.inet address port) =
    let raw = net.ntohl address in
    record unspecified {
      ip = u8 (raw / 2 ^ 24) ∷ u8 (raw / 2 ^ 16) ∷ u8 (raw / 2 ^ 8) ∷ u8 raw ∷ [];
      port = net.ntohs port;
    }
fill_endpoint net (SocketAddress.inet6 bytes port) =
    if is_mapped bytes
    then record unspecified { ip = take 4 (drop 12 bytes); port = net.ntohs port }
    else record unspecified { v6 = bytes; is_v6 = true; port = net.ntohs port }

-- The last argument is what `recvfrom` gives, cut to the capacity; `none` for an error.
unfoldable pub receive :
    Kernel → Posix → ℕ → Option (SocketAddress × List ℕ) → Option (Endpoint × List ℕ)
receive kernel t capacity none = none
receive kernel t capacity (some (from, bytes)) =
    if not t.opened || (length (take capacity bytes) == 0)
    then none
    else some (fill_endpoint kernel.byte_order from, take capacity bytes)

-- The interface that is joined on: any for a null pointer, and INADDR_NONE where it is not an
-- address, which is not tested for.
unfoldable pub interface_of : Kernel → Option (List ℕ) → ℕ
interface_of kernel none = kernel.byte_order.htonl 0
interface_of kernel (some text) = elim (kernel.inet_addr text) [ none ↦ 4294967295 | some a ↦ a ]

unfoldable pub join_multicast_group : Kernel → List ℕ → Option (List ℕ) → Posix → Bool
join_multicast_group kernel group interface t =
    if not t.opened then false else elim (kernel.inet_addr group) [
      | none ↦ false
      | some g ↦ kernel.adds_membership g (interface_of kernel interface)
    ]

unfoldable pub set_multicast_outbound_interface : Kernel → List ℕ → Posix → Bool
set_multicast_outbound_interface kernel interface t =
    if not t.opened
    then false
    else elim (kernel.inet_addr interface) [ none ↦ false | some a ↦ kernel.sets_interface a ]

unfoldable pub local_port : Kernel → Posix → ℕ
local_port kernel t = if not t.opened then 0 else elim kernel.name [
  | none ↦ 0
  | some (SocketAddress.inet address port) ↦ kernel.byte_order.ntohs port
  | some (SocketAddress.inet6 bytes port) ↦ kernel.byte_order.ntohs port
]
