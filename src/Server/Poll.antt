-- ===== src/Server/Poll.antt =====
-- `Server::handleRequest` from its start, and `Server::poll` (src/PulseCoAPServer.cpp).
pub mod Timeouts
use pulse_co_ap.Common.{
  ℕ, Bool, true, false, ◌&&◌, ◌||◌, Option, none, some, List, [], ◌∷◌, ◌==◌, if◌then◌else◌,
  get_elem?, bit_and,
}
use pulse_co_ap.Types.Config.{max_uri_path_len}
use pulse_co_ap.Types.Codes.{is_reset, is_acknowledgement, is_method_code}
use pulse_co_ap.Types.Code
use pulse_co_ap.Types.OptionNumber
use pulse_co_ap.Types.Address.{Endpoint}
use pulse_co_ap.Message.{CoapOption, Message, find_option}
use pulse_co_ap.Message.Decode.{DecodeError, decode}
use pulse_co_ap.Uri.{join_uri_path}
use pulse_co_ap.Transaction.{Host}
use pulse_co_ap.Transaction
use pulse_co_ap.Server.{Resource, Server, send}
use pulse_co_ap.Server.Resources.{Captures, find_resource}
use pulse_co_ap.Server.Observers.{remove_observer, drop_rejected}
use pulse_co_ap.Server.Replies.{send_code}
use pulse_co_ap.Server.Handle.{App, c_str, method_mask, observe_request, handle_plain}
use pulse_co_ap.Server.Upload.{handle_block1}

-- The Block1 option of a request that can be an upload, where block-wise transfer is built in.
unfoldable pub upload_option : Bool → Message → Option CoapOption
upload_option false msg = none
upload_option true msg =
    if msg.code == Code.put || msg.code == Code.post
    then find_option OptionNumber.block1 msg
    else none

-- A request that its resource allows.
unfoldable pub handle_allowed :
    App → Bool → ℕ → Resource → Message → Endpoint → Captures → Server → Server
handle_allowed app blockwise idx r msg from c s =
    let (s', observe) = observe_request idx r msg from s in
    elim (upload_option blockwise msg) [
      | some o ↦ handle_block1 app r msg from c observe o s'
      | none ↦ handle_plain app blockwise r msg from c observe s'
    ]

-- A request for the resource at `idx`.
unfoldable pub handle_method :
    App → Bool → ℕ → Resource → Message → Endpoint → Captures → Server → Server
handle_method app blockwise idx r msg from c s = elim (method_mask msg.code) [
  | none ↦ send_code msg from Code.not_implemented s
  | some mask ↦
      if bit_and r.methods mask == 0
      then send_code msg from Code.method_not_allowed s
      else handle_allowed app blockwise idx r msg from c s
]

unfoldable pub handle_request : App → Bool → Message → Endpoint → Server → Server
handle_request app blockwise msg from s = elim (join_uri_path max_uri_path_len msg) [
  | none ↦ send_code msg from Code.bad_option s
  | some path ↦ elim (find_resource (c_str path) s) [
    | none ↦ send_code msg from Code.not_found s
    | some (idx, c) ↦ elim (get_elem? s.resources idx) [
      | none ↦ s
      | some r ↦ handle_method app blockwise idx r msg from c s
    ]
  ]
]

-- The server as the owner of its pool, with its two trampolines.
abbrev pub server_host : Host Server
server_host = record {
  pool = λ s. s.tx_pool;
  with_pool = λ s slots. record s { tx_pool = slots };
  resend = λ s to message. send to message s;
  on_timeout = λ s to token. record s { observers = remove_observer to token s.observers };
}

-- A message that has been decoded.
unfoldable pub receive_message : App → Bool → Message → Endpoint → Server → Server
receive_message app blockwise msg from s =
    if is_reset msg.type
    then record s { observers = drop_rejected from msg.message_id s.observers }
    else if is_acknowledgement msg.type
    then record s { tx_pool = (Transaction.complete from msg.message_id s.tx_pool).0 }
    else if is_method_code msg.code
    then handle_request app blockwise msg from s
    else s

-- A datagram that has been received.
unfoldable pub receive_datagram : App → Bool → Endpoint → List ℕ → Server → Server
receive_datagram app blockwise from bytes s = elim (decode bytes).1 [
  | DecodeError.no_error ↦ receive_message app blockwise (decode bytes).0 from s
  | _ ↦ s
]

-- The last argument is what `receive` gives: `none` where nothing is waiting.
unfoldable pub poll : App → Bool → ℕ → Option (Endpoint × List ℕ) → Server → Server
poll app blockwise now none s = Transaction.tick server_host now (record s { last_now_ms = now })
poll app blockwise now (some (from, bytes)) s =
    receive_datagram app blockwise from bytes
      (Transaction.tick server_host now (record s { last_now_ms = now }))
