-- ===== src/Server.antt =====
-- The state of src/PulseCoAPServer.h. A C string is the list of its characters. The handlers of the
-- application are known by a number, 0 for a null pointer; what they do is a parameter of the
-- operations that call them (`Server.Handle`). The datagrams handed to the transport are kept in
-- `sent`, the newest first; the server does not read what `send` returns.
pub mod Resources
pub mod Discovery
pub mod Observers
pub mod Replies
pub mod Notify
pub mod Handle
pub mod Upload
pub mod Poll
pub mod Startup
pub mod Invariant
pub mod Steps
mod Checks
use pulse_co_ap.Common.{
  ℕ, ◌+◌, Bool, true, false, Option, none, some, List, [], ◌∷◌, replicate, same, if◌then◌else◌,
}
use pulse_co_ap.Types.Config.{max_observers, max_deferred, max_block1_sessions}
use pulse_co_ap.Types.Address.{Endpoint, unspecified}
use pulse_co_ap.Types.Code
use pulse_co_ap.Types.ContentFormat
use pulse_co_ap.Message.{Message}
use pulse_co_ap.Transaction.{Transaction}
use pulse_co_ap.Transaction
use pulse_co_ap.Block.{Block1Session, idle_session}

pub record PathParamEntry : Type 0 where
  pub name : List ℕ
  pub value : List ℕ

-- `Server::Resource`.
pub record Resource : Type 0 where
  pub path : List ℕ
  pub methods : ℕ
  pub handler : ℕ
  pub user_context : ℕ
  pub observable : Bool
  pub is_template : Bool
  pub observe_sequence : ℕ
  pub resource_type : Option (List ℕ)

-- `Server::Observer`.
pub record Observer : Type 0 where
  pub active : Bool
  pub resource_index : ℕ
  pub remote : Endpoint
  pub token : List ℕ
  pub last_sent_message_id : ℕ

abbrev pub idle_observer : Observer
idle_observer = record {
  active = false;
  resource_index = 0;
  remote = unspecified;
  token = [];
  last_sent_message_id = 0;
}

-- `Server::DeferredRequest`.
pub record DeferredRequest : Type 0 where
  pub active : Bool
  pub remote : Endpoint
  pub token : List ℕ
  pub was_confirmable : Bool

abbrev pub idle_deferred : DeferredRequest
idle_deferred = record { active = false; remote = unspecified; token = []; was_confirmable = false }

-- What a handler is given. `defer_handle` is `none` for `kInvalidDeferHandle`.
pub record Request : Type 0 where
  pub method : ℕ
  pub message : Message
  pub remote : Endpoint
  pub defer_handle : Option ℕ
  pub block1_body : Option (List ℕ)
  pub params : List PathParamEntry
  pub param_count : ℕ

-- `Request::payload` with its length.
unfoldable pub request_payload : Request → Option (List ℕ)
request_payload r = elim r.block1_body [ some body ↦ some body | none ↦ r.message.payload ]

-- `Request::pathParam`, over the entries that were copied.
unfoldable pub path_param : List ℕ → List PathParamEntry → Option (List ℕ)
path_param name [] = none
path_param name (e ∷ es) = if same e.name name then some e.value else path_param name es

-- What a handler fills in; the length goes with the payload.
pub record Response : Type 0 where
  pub code : ℕ
  pub content_format : ℕ
  pub payload : Option (List ℕ)
  pub deferred : Bool

abbrev pub default_response : Response
default_response = record {
  code = Code.content;
  content_format = ContentFormat.text_plain;
  payload = none;
  deferred = false;
}

-- `class Server`. `link_format` is the text in `linkFormatBuffer_`.
pub record Server : Type 0 where
  pub sent : List (Endpoint × List ℕ)
  pub resources : List Resource
  pub observers : List Observer
  pub deferred : List DeferredRequest
  pub tx_pool : List Transaction
  pub last_now_ms : ℕ
  pub next_message_id : ℕ
  pub link_format : List ℕ
  pub block1_sessions : List Block1Session

abbrev pub new_server : Server
new_server = record {
  sent = [];
  resources = [];
  observers = replicate max_observers idle_observer;
  deferred = replicate max_deferred idle_deferred;
  tx_pool = Transaction.reset;
  last_now_ms = 0;
  next_message_id = 1;
  link_format = [];
  block1_sessions = replicate max_block1_sessions idle_session;
}

-- `transport_.send(to, bytes, len)`.
abbrev pub send : Endpoint → List ℕ → Server → Server
send to bytes s = record s { sent = (to, bytes) ∷ s.sent }
