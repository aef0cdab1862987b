-- ===== src/Server/Handle.antt =====
-- `Server::handleRequest`. `blockwise` is PULSECOAP_ENABLE_BLOCKWISE. `app` stands for the handlers
-- of the application: what the handler of a number does with its context and a request, the calls
-- of the server that it makes included. Of these only the handler of /.well-known/core is the
-- server's own; it has the number `well_known_handler`.
use pulse_co_ap.Common.{
  ℕ, ◌-◌, ◌*◌, ◌^◌, Bool, true, false, ◌&&◌, Option, none, some, List, [], ◌∷◌, ltb, leb, ◌==◌,
  if◌then◌else◌, length, set,
}
use pulse_co_ap.Common.Bits.{u8}
use pulse_co_ap.Types.Config.{block_szx}
use pulse_co_ap.Types.Codes.{is_confirmable}
use pulse_co_ap.Types.Code
use pulse_co_ap.Types.OptionNumber
use pulse_co_ap.Types.Address.{Endpoint}
use pulse_co_ap.Message.{CoapOption, Message, find_option, option_as_uint}
use pulse_co_ap.Block.{BlockOption, from_option, size_of_szx}
use pulse_co_ap.Server.{Resource, Request, Response, default_response, Server}
use pulse_co_ap.Server.Resources.{Captures}
use pulse_co_ap.Server.Discovery.{well_known_core_handler}
use pulse_co_ap.Server.Observers.{register_observer, remove_observer, note_message_id}
use pulse_co_ap.Server.Replies.{
  send_code, send_piggybacked_response, send_block2_response, send_empty_ack, allocate_deferred,
  release_deferred,
}

abbrev pub App : Type 0
App = ℕ → ℕ → Request → Server → Server × Response

-- The number of `wellKnownCoreHandler`.
abbrev pub well_known_handler : ℕ
well_known_handler = 1

unfoldable pub call_handler : App → ℕ → ℕ → Request → Server → Server × Response
call_handler app h context request s =
    if h == well_known_handler
    then well_known_core_handler s default_response
    else app h context request s

-- The characters of a C string in a buffer: those before the first NUL.
unfoldable pub c_str : List ℕ → List ℕ
c_str [] = []
c_str (c ∷ cs) = if c == 0 then [] else c ∷ c_str cs

-- The bit of MethodMask for a code; `none` is the `default` of the `switch`.
unfoldable pub method_mask : ℕ → Option ℕ
method_mask code =
    if code == Code.get
    then some 1
    else if code == Code.post
    then some 2
    else if code == Code.put
    then some 4
    else if code == Code.delete
    then some 8
    else none

-- The observe value to send: `static_cast<int32_t>`, with a negative one as `none`.
abbrev pub observe_value : ℕ → Option ℕ
observe_value seq = if ltb seq (2 ^ 31) then some seq else none

unfoldable pub observe_option :
    ℕ → Resource → Message → Endpoint → CoapOption → Server → Server × Option ℕ
observe_option idx r msg from o s =
    if option_as_uint o == OptionNumber.observe_register
    then (
      record s {
        observers =
            note_message_id from msg.token msg.message_id
              (register_observer (u8 idx) from msg.token s.observers);
      },
      observe_value r.observe_sequence,
    )
    else (record s { observers = remove_observer from msg.token s.observers }, none)

-- Registration and deregistration; the second value is `observeValueToSend`.
unfoldable pub observe_request : ℕ → Resource → Message → Endpoint → Server → Server × Option ℕ
observe_request idx r msg from s = elim (find_option OptionNumber.observe msg) [
  | none ↦ (s, none)
  | some o ↦
      if r.observable && (msg.code == Code.get)
      then observe_option idx r msg from o s
      else (s, none)
]

-- The entry in `deferred_` for a request, if a slot is free.
unfoldable pub claim_deferred : Message → Endpoint → Option ℕ → Server → Server
claim_deferred msg from none s = s
claim_deferred msg from (some i) s = record s {
  deferred = set s.deferred i (record {
    active = true;
    remote = from;
    token = msg.token;
    was_confirmable = is_confirmable msg.type;
  });
}

abbrev pub release_claim : Option ℕ → Server → Server
release_claim none s = s
release_claim (some i) s = release_deferred i s

unfoldable pub request_of : Message → Endpoint → Option ℕ → Option (List ℕ) → Captures → Request
request_of msg from handle body c = record {
  method = msg.code;
  message = msg;
  remote = from;
  defer_handle = handle;
  block1_body = body;
  params = c.params;
  param_count = c.count;
}

-- The handler asked for a separate response, and has a slot for it.
abbrev pub is_deferred : Response → Option ℕ → Bool
is_deferred res none = false
is_deferred res (some i) = res.deferred

-- The empty ACK of a deferred response.
unfoldable pub acknowledge : Message → Endpoint → Server → Server
acknowledge msg from s = if is_confirmable msg.type then send_empty_ack msg.message_id from s else s

-- The reply to a request whose handler has run, with Block2 where the payload is larger than a
-- block or the client asked for a block.
unfoldable pub reply_block2 :
    Message → Endpoint → Response → Option ℕ → List ℕ → Option BlockOption → Server → Server
reply_block2 msg from res observe payload none s =
    if ltb (size_of_szx block_szx) (length payload)
    then send_block2_response msg from res.code payload res.content_format observe 0
        (ltb (size_of_szx block_szx) (length payload)) block_szx s
    else send_piggybacked_response msg from res.code (some payload) res.content_format observe s
reply_block2 msg from res observe payload (some b2) s =
    let offset = b2.num * size_of_szx b2.szx in
    if leb (length payload) offset
    then send_code msg from Code.bad_request s
    else send_block2_response msg from res.code payload res.content_format observe b2.num
        (ltb (size_of_szx b2.szx) (length payload - offset)) b2.szx s

abbrev pub block_request : Option CoapOption → Option BlockOption
block_request none = none
block_request (some o) = from_option o

unfoldable pub reply_with :
    Bool → Message → Endpoint → Response → Option ℕ → Option (List ℕ) → Server → Server
reply_with true msg from res observe (some (b ∷ bs)) s =
    reply_block2 msg from res observe (b ∷ bs) (block_request (find_option OptionNumber.block2 msg))
      s
reply_with _ msg from res observe payload s =
    send_piggybacked_response msg from res.code payload res.content_format observe s

-- From the allocation of the deferred slot to the reply, for a request without Block1.
unfoldable pub handle_plain :
    App → Bool → Resource → Message → Endpoint → Captures → Option ℕ → Server → Server
handle_plain app blockwise r msg from c observe s =
    let handle = allocate_deferred s in
    let claimed = claim_deferred msg from handle s in
    let (ran, res) =
      call_handler app r.handler r.user_context (request_of msg from handle none c) claimed in
    if is_deferred res handle
    then acknowledge msg from ran
    else reply_with blockwise msg from res observe res.payload (release_claim handle ran)
