-- ===== src/Client/Requests.antt =====
-- `Client::sendRequest` (src/PulseCoAPClient.cpp).
pub mod Meaning
pub mod Observing
pub mod Sending
pub mod Paths
use pulse_co_ap.Common.{
  ℕ, ◌+◌, Bool, true, false, Option, none, some, List, [], ◌∷◌, ltb, if◌then◌else◌, length, modify,
}
use pulse_co_ap.Types.Config.{max_msg_size, max_uri_path_len}
use pulse_co_ap.Types.Codes.{MessageType}
use pulse_co_ap.Types.OptionNumber
use pulse_co_ap.Types.Address.{Endpoint}
use pulse_co_ap.Message.{Message, addressed, add_option_uint}
use pulse_co_ap.Message.Content.{add_content}
use pulse_co_ap.Message.Encode.{encode}
use pulse_co_ap.Uri.{add_uri_path_options}
use pulse_co_ap.Transaction
use pulse_co_ap.Block.{Block1UploadState, Block2RecvState}
use pulse_co_ap.Client.{PendingRequest, Client, Environment, send}
use pulse_co_ap.Client.Slots.{allocate_pending, next_token, bump_id, close}

-- What a request asks the server about observation.
pub data ObserveOption : Type 0 where
  absent register deregister : ObserveOption

-- The arguments of `sendRequest` from `server` on.
pub record Order : Type 0 where
  pub server : Endpoint
  pub path : List ℕ
  pub method : ℕ
  pub payload : Option (List ℕ)
  pub content_format : ℕ
  pub confirmable : Bool
  pub observe : ObserveOption
  pub on_response : ℕ
  pub user_context : ℕ
  pub mark_observing : Bool

unfoldable pub add_observe_option : ObserveOption → Message → Message
add_observe_option ObserveOption.absent m = m
add_observe_option ObserveOption.register m =
    (add_option_uint OptionNumber.observe OptionNumber.observe_register m).0
add_observe_option ObserveOption.deregister m =
    (add_option_uint OptionNumber.observe OptionNumber.observe_deregister m).0

-- The type of a request.
abbrev pub request_type : Bool → MessageType
request_type confirmable =
    if confirmable then MessageType.confirmable else MessageType.non_confirmable

-- The message up to the path, and whether the path was added whole.
unfoldable pub request_head : Order → ℕ → ℕ → Message × Bool
request_head o id token =
    add_uri_path_options (some o.path) (
      add_observe_option o.observe
        (addressed (request_type o.confirmable) id (token ∷ []) o.method))

-- The message, unless an option of the path is refused.
unfoldable pub request_message : Order → ℕ → ℕ → Option Message
request_message o id token =
    if (request_head o id token).1
    then some (add_content o.payload o.content_format (request_head o id token).0)
    else none

-- A path is kept if it fits with its NUL.
abbrev pub kept_path : List ℕ → List ℕ
kept_path path = if ltb (length path) max_uri_path_len then path else []

-- The slot of a request that was sent.
abbrev pub filled : Order → ℕ → PendingRequest → PendingRequest
filled o token p = record p {
  server = o.server;
  token = token ∷ [];
  on_response = o.on_response;
  user_context = o.user_context;
  observing = o.mark_observing;
  path = kept_path o.path;
}

abbrev pub stopped_upload : Block1UploadState → Block1UploadState
stopped_upload up = record up { active = false }

abbrev pub prepared_download : List ℕ → Block2RecvState → Block2RecvState
prepared_download path recv = record recv { active = false; path = kept_path path }

-- What follows a successful `send`; without block-wise transfer the last two lists do not exist.
unfoldable pub track_request : Bool → Order → ℕ → ℕ → ℕ → List ℕ → Client → Client
track_request blockwise o slot id token bytes c = record c {
  transactions =
      if o.confirmable
      then (Transaction.start o.server id (token ∷ []) bytes c.last_now_ms c.transactions).0
      else c.transactions;
  pending = modify slot (filled o token) c.pending;
  uploads = if blockwise then modify slot stopped_upload c.uploads else c.uploads;
  downloads = if blockwise then modify slot (prepared_download o.path) c.downloads else c.downloads;
}

-- From `encode` on.
unfoldable pub submit_request :
    Environment → Bool → Order → ℕ → ℕ → ℕ → Option Message → Client → Client × Bool
submit_request env blockwise o slot id token none c = (close slot c, false)
submit_request env blockwise o slot id token (some m) c = elim (encode max_msg_size m) [
  | none ↦ (close slot c, false)
  | some bytes ↦
      let tried = send env o.server bytes c in
      if tried.1
      then (track_request blockwise o slot id token bytes tried.0, true)
      else (close slot tried.0, false)
]

-- The client once a slot, a token and a message ID are taken.
abbrev pub reserved : Client → Client
reserved c = bump_id (next_token (record c { pending = (allocate_pending 0 c.pending).0 })).1

unfoldable pub send_request : Environment → Bool → Order → Client → Client × Bool
send_request env blockwise o c = elim (allocate_pending 0 c.pending).1 [
  | none ↦ (c, false)
  | some slot ↦
      submit_request env blockwise o slot c.next_message_id c.next_token_byte
        (request_message o c.next_message_id c.next_token_byte) (reserved c)
]
