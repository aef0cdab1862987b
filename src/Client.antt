-- ===== src/Client.antt =====
-- src/PulseCoAPClient.h: the state of the client. A C string is the list of its characters, without
-- the final NUL, and a token the list of its bytes. The callbacks of the application are known by a
-- number, 0 for a null pointer; what they do to the client is in the `Environment`, and each call
-- of one is noted in `calls`, the newest first. The transport is known by what `send` returns, call
-- by call; `sent` holds the datagrams that it took, the newest first.
pub mod Slots
pub mod Requests
pub mod Blocks
pub mod Methods
pub mod Discovering
pub mod Answers
pub mod Poll
pub mod Safety
pub mod Steps
mod Checks
use pulse_co_ap.Common.{
  ℕ, ◌+◌, Bool, true, false, Option, none, some, List, [], ◌∷◌, ◌==◌, if◌then◌else◌, replicate,
}
use pulse_co_ap.Types.Config.{max_transactions, max_discovers}
use pulse_co_ap.Types.Address.{Endpoint, unspecified}
use pulse_co_ap.Transaction.{Transaction}
use pulse_co_ap.Transaction
use pulse_co_ap.Block.{Block1UploadState, idle_upload, Block2RecvState, idle_download}

-- `struct ClientResponse`; the length goes with the payload.
pub record ClientResponse : Type 0 where
  pub code : ℕ
  pub payload : Option (List ℕ)
  pub content_format : ℕ

-- `Client::PendingRequest`.
pub record PendingRequest : Type 0 where
  pub active : Bool
  pub server : Endpoint
  pub token : List ℕ
  pub on_response : ℕ
  pub user_context : ℕ
  pub observing : Bool
  pub path : List ℕ

abbrev pub idle_request : PendingRequest
idle_request = record {
  active = false;
  server = unspecified;
  token = [];
  on_response = 0;
  user_context = 0;
  observing = false;
  path = [];
}

-- `Client::DiscoverSlot`.
pub record DiscoverSlot : Type 0 where
  pub active : Bool
  pub token : List ℕ
  pub on_discover : ℕ
  pub user_context : ℕ
  pub issued_at : ℕ

abbrev pub idle_discover : DiscoverSlot
idle_discover = record {
  active = false;
  token = [];
  on_discover = 0;
  user_context = 0;
  issued_at = 0;
}

-- A call of the application: the callback, what it is given, and its context.
pub data Call : Type 0 where
  response : ℕ → ClientResponse → ℕ → Call
  timeout : ℕ → ℕ → Call
  discovered : ℕ → Endpoint → Option (List ℕ) → ℕ → Call

-- `class Client`. `attempts` counts the calls of `transport_.send`.
pub record Client : Type 0 where
  pub sent : List (Endpoint × List ℕ)
  pub attempts : ℕ
  pub calls : List Call
  pub transactions : List Transaction
  pub pending : List PendingRequest
  pub discovers : List DiscoverSlot
  pub next_message_id : ℕ
  pub next_token_byte : ℕ
  pub last_now_ms : ℕ
  pub on_timeout : ℕ
  pub uploads : List Block1UploadState
  pub downloads : List Block2RecvState

abbrev pub new_client : Client
new_client = record {
  sent = [];
  attempts = 0;
  calls = [];
  transactions = Transaction.reset;
  pending = replicate max_transactions idle_request;
  discovers = replicate max_discovers idle_discover;
  next_message_id = 1;
  next_token_byte = 1;
  last_now_ms = 0;
  on_timeout = 0;
  uploads = replicate max_transactions idle_upload;
  downloads = replicate max_transactions idle_download;
}

-- What stands around the client: whether the transport takes the n-th datagram, and what the
-- application does in a call, calls of the client included.
pub record Environment : Type 0 where
  pub accepts : ℕ → Bool
  pub react : Call → Client → Client

-- `transport_.send(to, bytes, len)`.
unfoldable pub send : Environment → Endpoint → List ℕ → Client → Client × Bool
send env to bytes c =
    if env.accepts c.attempts
    then (record c { attempts = c.attempts + 1; sent = (to, bytes) ∷ c.sent }, true)
    else (record c { attempts = c.attempts + 1 }, false)

-- To call the callback of that number, which is not null.
unfoldable pub call : Environment → Call → Client → Client
call env what c = env.react what (record c { calls = what ∷ c.calls })

-- `if (onResponse) onResponse(res, userContext)`, and so for the other two.
unfoldable pub call_response : Environment → ℕ → ClientResponse → ℕ → Client → Client
call_response env handler res context c =
    if handler == 0 then c else call env (Call.response handler res context) c

unfoldable pub call_timeout : Environment → ℕ → Client → Client
call_timeout env context c =
    if c.on_timeout == 0 then c else call env (Call.timeout c.on_timeout context) c

unfoldable pub call_discover : Environment → ℕ → Endpoint → Option (List ℕ) → ℕ → Client → Client
call_discover env handler from body context c =
    if handler == 0 then c else call env (Call.discovered handler from body context) c

unfoldable pub set_timeout_handler : ℕ → Client → Client
set_timeout_handler handler c = record c { on_timeout = handler }
