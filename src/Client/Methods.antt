-- ===== src/Client/Methods.antt =====
-- The requests of the application: `get`, `put`, `post`, `del`, `observe` and `cancelObserve` of
-- src/PulseCoAPClient.cpp. The default values of arguments are written out by the callers.
pub mod Subscriptions
use pulse_co_ap.Common.{
  ℕ, ◌+◌, Bool, true, false, ◌&&◌, Option, none, some, List, [], ◌∷◌, ltb, leb, if◌then◌else◌,
  length, get_elem?, modify, same,
}
use pulse_co_ap.Types.Config.{block_szx, max_uri_path_len}
use pulse_co_ap.Types.Code
use pulse_co_ap.Types.ContentFormat
use pulse_co_ap.Types.Address.{Endpoint, endpoint_eq}
use pulse_co_ap.Message.{bytes_of}
use pulse_co_ap.Block.{size_of_szx, Block1UploadState, Block2RecvState}
use pulse_co_ap.Client.{PendingRequest, Client, Environment}
use pulse_co_ap.Client.Slots.{allocate_pending, next_token, close}
use pulse_co_ap.Client.Requests.{ObserveOption, Order, stopped_upload, send_request}
use pulse_co_ap.Client.Blocks.{send_block1}

-- The argument of `sendRequest` in `get`, `del`, `observe` and `cancelObserve`.
abbrev pub bare_order : Endpoint → List ℕ → ℕ → Bool → ObserveOption → ℕ → ℕ → Bool → Order
bare_order server path method confirmable observe handler context mark = record {
  server = server;
  path = path;
  method = method;
  payload = none;
  content_format = ContentFormat.text_plain;
  confirmable = confirmable;
  observe = observe;
  on_response = handler;
  user_context = context;
  mark_observing = mark;
}

-- The argument of `sendRequest` in `put` and `post`.
abbrev pub content_order : Endpoint → List ℕ → ℕ → Option (List ℕ) → ℕ → Bool → ℕ → ℕ → Order
content_order server path method payload format confirmable handler context = record {
  server = server;
  path = path;
  method = method;
  payload = payload;
  content_format = format;
  confirmable = confirmable;
  observe = ObserveOption.absent;
  on_response = handler;
  user_context = context;
  mark_observing = false;
}

unfoldable pub get : Environment → Bool → Endpoint → List ℕ → ℕ → ℕ → Bool → Client → Client × Bool
get env blockwise server path handler context confirmable =
    send_request env blockwise
      (bare_order server path Code.get confirmable ObserveOption.absent handler context false)

unfoldable pub del : Environment → Bool → Endpoint → List ℕ → ℕ → ℕ → Bool → Client → Client × Bool
del env blockwise server path handler context confirmable =
    send_request env blockwise
      (bare_order server path Code.delete confirmable ObserveOption.absent handler context false)

unfoldable pub observe : Environment → Bool → Endpoint → List ℕ → ℕ → ℕ → Client → Client × Bool
observe env blockwise server path handler context =
    send_request env blockwise
      (bare_order server path Code.get true ObserveOption.register handler context true)

-- The slot of an upload, but for its path.
abbrev pub opened_pending : Order → ℕ → PendingRequest → PendingRequest
opened_pending o token p = record p {
  server = o.server;
  token = token ∷ [];
  on_response = o.on_response;
  user_context = o.user_context;
  observing = false;
}

-- The upload, but for its path.
abbrev pub opened_upload : Order → ℕ → Block1UploadState → Block1UploadState
opened_upload o token up = record up {
  active = true;
  payload = bytes_of o.payload;
  next_num = 0;
  szx = block_szx;
  content_format = o.content_format;
  method = o.method;
  server = o.server;
  token = token;
}

unfoldable pub open_upload : Order → ℕ → ℕ → Client → Client
open_upload o slot token c = record c {
  pending = modify slot (opened_pending o token) c.pending;
  uploads = modify slot (opened_upload o token) c.uploads;
}

-- `pending_[slot].active = false; up.active = false;`
unfoldable pub abandon : ℕ → Client → Client
abandon slot c = close slot (record c { uploads = modify slot stopped_upload c.uploads })

abbrev pub upload_path : List ℕ → Block1UploadState → Block1UploadState
upload_path path up = record up { path = path }

abbrev pub pending_path : List ℕ → PendingRequest → PendingRequest
pending_path path p = record p { path = path }

abbrev pub stopped_download : Block2RecvState → Block2RecvState
stopped_download recv = record recv { active = false }

-- From the test of `pathLen` to the call of `sendBlock1`.
unfoldable pub keep_path : List ℕ → ℕ → Client → Client
keep_path path slot c = record c {
  uploads = modify slot (upload_path path) c.uploads;
  pending = modify slot (pending_path path) c.pending;
  downloads = modify slot stopped_download c.downloads;
}

-- `if (!sendBlock1(slot))`, with what follows.
unfoldable pub or_abandon : ℕ → Client × Bool → Client × Bool
or_abandon slot (c, true) = (c, true)
or_abandon slot (c, false) = (abandon slot c, false)

unfoldable pub launch_upload : Environment → Order → ℕ → Client → Client × Bool
launch_upload env o slot c =
    if leb max_uri_path_len (length o.path)
    then (abandon slot c, false)
    else or_abandon slot (send_block1 env slot (keep_path o.path slot c))

-- The block-wise branch of `put` and `post`.
unfoldable pub start_upload : Environment → Order → Client → Client × Bool
start_upload env o c = elim (allocate_pending 0 c.pending).1 [
  | none ↦ (c, false)
  | some slot ↦ launch_upload env o slot (
      open_upload o slot c.next_token_byte
        (next_token (record c { pending = (allocate_pending 0 c.pending).0 })).1)
]

-- `put` and `post` differ in the method. Without block-wise transfer only the last branch exists.
unfoldable pub send_content : Environment → Bool → Order → Client → Client × Bool
send_content env blockwise o c =
    if blockwise && ltb (size_of_szx block_szx) (length (bytes_of o.payload))
    then start_upload env o c
    else send_request env blockwise o c

unfoldable pub put :
    Environment
    → Bool
    → Endpoint
    → List ℕ
    → Option (List ℕ)
    → ℕ
    → ℕ
    → ℕ
    → Bool
    → Client
    → Client × Bool
put env blockwise server path payload format handler context confirmable =
    send_content env blockwise
      (content_order server path Code.put payload format confirmable handler context)

unfoldable pub post :
    Environment
    → Bool
    → Endpoint
    → List ℕ
    → Option (List ℕ)
    → ℕ
    → ℕ
    → ℕ
    → Bool
    → Client
    → Client × Bool
post env blockwise server path payload format handler context confirmable =
    send_content env blockwise
      (content_order server path Code.post payload format confirmable handler context)

-- The test of `cancelObserve`.
unfoldable pub observes : Endpoint → List ℕ → PendingRequest → Bool
observes server path p =
    p.active && (p.observing && (endpoint_eq p.server server && same p.path path))

unfoldable pub find_observe :
    Endpoint → List ℕ → ℕ → List PendingRequest → Option (ℕ × PendingRequest)
find_observe server path i [] = none
find_observe server path i (p ∷ ps) =
    if observes server path p then some (i, p) else find_observe server path (i + 1) ps

unfoldable pub cancel_observe : Environment → Bool → Endpoint → List ℕ → Client → Client × Bool
cancel_observe env blockwise server path c = elim (find_observe server path 0 c.pending) [
  | none ↦ (c, false)
  | some (i, p) ↦
      send_request env blockwise
        (bare_order server path Code.get true ObserveOption.deregister p.on_response p.user_context
          false)
        (close i c)
]
