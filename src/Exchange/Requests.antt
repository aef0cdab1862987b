-- ===== src/Exchange/Requests.antt =====
-- About a request on its way from `sendRequest` to `handleRequest`.
use pulse_co_ap.Common.{
  ℕ, ◌<◌, ◌≡◌, refl, ap, ◌∙◌, subst, Bool, true, false, Option, none, some, List, [], ◌∷◌, ◌==◌,
  if◌then◌else◌, length, get_elem?, All, ◌>>=◌,
}
use pulse_co_ap.Common.Bits.{IsByte, IsU16}
use pulse_co_ap.Types.Config.{max_options, max_uri_path_len, max_msg_size}
use pulse_co_ap.Types.Codes.{MessageType, is_reset, is_acknowledgement, is_method_code}
use pulse_co_ap.Types.Code
use pulse_co_ap.Types.Address.{Endpoint}
use pulse_co_ap.Message.{Message}
use pulse_co_ap.Message.Encode.{encode}
use pulse_co_ap.Message.Decode.{DecodeError, decode}
use pulse_co_ap.Message.RoundTrip.{decode-encode}
use pulse_co_ap.Uri.{slash, join_uri_path}
use pulse_co_ap.Uri.RoundTrip.{IsSegment, render}
use pulse_co_ap.Client.Requests.{Order, request_type, request_message}
use pulse_co_ap.Client.Requests.Meaning.{request_message_lem}
use pulse_co_ap.Client.Requests.Observing.{observe_of_read}
use pulse_co_ap.Client.Requests.Sending.{Reads}
use pulse_co_ap.Client.Requests.Paths.{join_uri_path-request_message}
use pulse_co_ap.Server.{Server}
use pulse_co_ap.Server.Resources.{find_resource}
use pulse_co_ap.Server.Replies.{send_code}
use pulse_co_ap.Server.Handle.{App, c_str}
use pulse_co_ap.Server.Poll.{handle_method, handle_request, receive_message, receive_datagram}

-- The server once it knows the path that a request is for.
pub served : App → Bool → Message → Endpoint → List ℕ → Server → Server
served app blockwise msg from path s = elim (find_resource (c_str path) s) [
  | none ↦ send_code msg from Code.not_found s
  | some (idx, c) ↦ elim (get_elem? s.resources idx) [
    | none ↦ s
    | some r ↦ handle_method app blockwise idx r msg from c s
  ]
]

-- The path of some segments, "/" for none.
abbrev pub path_of : List (List ℕ) → List ℕ
path_of segs = if length segs == 0 then slash ∷ [] else render segs

request_handled :
    (app : App) (blockwise : Bool) (msg : Message) (from : Endpoint) (path : List ℕ) (s : Server)
    → join_uri_path max_uri_path_len msg ≡ some path
    → handle_request app blockwise msg from s ≡ served app blockwise msg from path s
unfolding handle_request served
request_handled app blockwise msg from path s e = rw (handle_request, e) refl

type_of_request :
    (confirmable : Bool) (t : MessageType)
    → t ≡ request_type confirmable
    → (is_reset t ≡ false) × (is_acknowledgement t ≡ false)
type_of_request true t e = rw e (refl, refl)
type_of_request false t e = rw e (refl, refl)

request_received :
    (app : App) (blockwise confirmable : Bool) (msg : Message) (from : Endpoint) (path : List ℕ)
    (s : Server)
    → msg.type ≡ request_type confirmable
    → is_method_code msg.code ≡ true
    → join_uri_path max_uri_path_len msg ≡ some path
    → receive_message app blockwise msg from s ≡ served app blockwise msg from path s
unfolding receive_message
request_received app blockwise confirmable msg from path s t m e =
    let (request, not_ack) = type_of_request confirmable msg.type t in
    rw (receive_message, request, not_ack, m) (request_handled app blockwise msg from path s e)

decoded_path :
    (m : Message)
    → join_uri_path max_uri_path_len (record m { last_option_number = 0 })
      ≡ join_uri_path max_uri_path_len m
unfolding join_uri_path
decoded_path m = refl

datagram_received :
    (app : App) (blockwise : Bool) (from : Endpoint) (bytes : List ℕ) (m : Message) (s : Server)
    → decode bytes ≡ (m, DecodeError.no_error)
    → receive_datagram app blockwise from bytes s ≡ receive_message app blockwise m from s
unfolding receive_datagram
datagram_received app blockwise from bytes m s e =
    rw (receive_datagram, e) (ap (λ d. receive_message app blockwise d from s) (ap (λ r. r.0) e))

-- The datagram of a request, whose path has at most 15 segments and fits the client's buffer, is
-- read by a server as a message of the same type, code, message ID, token, payload and Observe option, and is
-- served for the very path that the application of the client gave ("/" for one with no segment);
-- its code is that of a method and its message ID has 16 bits.
pub receive_datagram-encode :
    (app : App) (blockwise : Bool) (from : Endpoint) (s : Server) (o : Order) (id token : ℕ)
    (segs : List (List ℕ)) (bytes : List ℕ)
    → o.path ≡ render segs
    → All IsSegment segs
    → length segs < max_options
    → length (render segs) < max_uri_path_len
    → IsByte o.method
    → is_method_code o.method ≡ true
    → IsU16 id
    → (request_message o id token >>= encode max_msg_size) ≡ some bytes
    → (m : Message) × Reads o id token m
      × (receive_datagram app blockwise from bytes s ≡ served app blockwise m from (path_of segs) s)
receive_datagram-encode app blockwise from s o id token segs bytes e w room short hm method hid
      enc =
    let (m, built, joined) = join_uri_path-request_message o id token segs e w room short in
    let (h, p) = request_message_lem o id token m hm hid built in
    let fits : encode max_msg_size m ≡ some bytes =
      subst (λ (r : Option Message). (r >>= encode max_msg_size) ≡ some bytes) built enc in
    let read = decode-encode max_msg_size m bytes h.built.well_formed fits in
    let m' : Message = record m { last_option_number = 0 } in
    (
      m',
      (h.type_is, h.code_is, h.id_is, h.token_is, p, observe_of_read o id token m built),
      datagram_received app blockwise from bytes m' s read
          ∙ request_received app blockwise o.confirmable m' from (path_of segs) s h.type_is
              (ap is_method_code h.code_is ∙ method) (decoded_path m ∙ joined),
    )
