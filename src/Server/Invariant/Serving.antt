-- ===== src/Server/Invariant/Serving.antt =====
-- About the sizes of the arrays under the replies and `handleRequest` (src/PulseCoAPServer.cpp).
use pulse_co_ap.Common.{
  ℕ, ◌∙◌, Bool, true, false, ◌&&◌, Option, none, some, List, [], ◌∷◌, ◌==◌, if◌then◌else◌,
  get_elem?, set, arith, Bool-cases, Option-cases, inl, inr, length-set,
}
use pulse_co_ap.Common.Bits.{u8}
use pulse_co_ap.Types.Config.{max_msg_size}
use pulse_co_ap.Types.Codes.{is_confirmable}
use pulse_co_ap.Types.Code
use pulse_co_ap.Types.OptionNumber
use pulse_co_ap.Types.Address.{Endpoint}
use pulse_co_ap.Message.{CoapOption, Message, find_option, option_as_uint}
use pulse_co_ap.Message.Encode.{encode}
use pulse_co_ap.Block.{BlockOption}
use pulse_co_ap.Server.{Resource, DeferredRequest, Request, Response, Server, send}
use pulse_co_ap.Server.Resources.{Captures}
use pulse_co_ap.Server.Replies.{
  reply_header, transmit, send_piggybacked_response, send_empty_ack, send_block2_response,
  send_continue, release_deferred,
}
use pulse_co_ap.Server.Discovery.{build_link_format, well_known_core_handler}
use pulse_co_ap.Server.Handle.{
  App, call_handler, well_known_handler, observe_option, observe_request, claim_deferred,
  release_claim, acknowledge, reply_block2, reply_with, handle_plain,
}
use pulse_co_ap.Server.Invariant.{IsSized, KeepsSized}
use pulse_co_ap.Server.Invariant.Tables.{
  register_observer-IsTable, remove_observer-IsTable, note_message_id-IsTable,
}

pub IsSized-if : (b : Bool) (s t : Server) → IsSized s → IsSized t → IsSized (if b then s else t)
IsSized-if true s t w v = w
IsSized-if false s t w v = v

sent_if :
    (to : Endpoint) (out : Option (List ℕ)) (s : Server)
    → IsSized s
    → IsSized (elim out [ none ↦ s | some bytes ↦ send to bytes s ])
sent_if to none s w = w
sent_if to (some bytes) s w = w

pub transmit-IsSized :
    (to : Endpoint) (m : Message) (s : Server) → IsSized s → IsSized (transmit to m s)
unfolding transmit
transmit-IsSized to m s w = sent_if to (encode max_msg_size m) s w

pub reply_header-IsSized :
    (request : Message) (code : ℕ) (s : Server)
    → IsSized s
    → IsSized (reply_header request code s).1
unfolding reply_header
reply_header-IsSized request code s w = elim (Bool-cases (is_confirmable request.type)) [
  | inl con ↦ rw (reply_header, con) w
  | inr other ↦ rw (reply_header, other) (w.0, w.1, w.2, w.3, w.4, omega arith)
]

pub send_piggybacked_response-IsSized :
    (request : Message) (to : Endpoint) (code : ℕ) (payload : Option (List ℕ)) (format : ℕ)
    (observe : Option ℕ) (s : Server)
    → IsSized s
    → IsSized (send_piggybacked_response request to code payload format observe s)
unfolding send_piggybacked_response
send_piggybacked_response-IsSized request to code payload format observe s w =
    transmit-IsSized to _ (reply_header request code s).1 (reply_header-IsSized request code s w)

pub send_block2_response-IsSized :
    (request : Message) (to : Endpoint) (code : ℕ) (payload : List ℕ) (format : ℕ)
    (observe : Option ℕ) (num : ℕ) (more : Bool) (szx : ℕ) (s : Server)
    → IsSized s
    → IsSized (send_block2_response request to code payload format observe num more szx s)
unfolding send_block2_response
send_block2_response-IsSized request to code payload format observe num more szx s w =
    IsSized-if _ s _ w (
      transmit-IsSized to _ (reply_header request code s).1 (reply_header-IsSized request code s w))

pub send_continue-IsSized :
    (request : Message) (to : Endpoint) (num : ℕ) (more : Bool) (szx : ℕ) (s : Server)
    → IsSized s
    → IsSized (send_continue request to num more szx s)
unfolding send_continue
send_continue-IsSized request to num more szx s w =
    transmit-IsSized to _ (reply_header request Code.continue s).1
      (reply_header-IsSized request Code.continue s w)

pub send_empty_ack-IsSized :
    (id : ℕ) (to : Endpoint) (s : Server) → IsSized s → IsSized (send_empty_ack id to s)
unfolding send_empty_ack
send_empty_ack-IsSized id to s w = transmit-IsSized to _ s w

pub acknowledge-IsSized :
    (msg : Message) (from : Endpoint) (s : Server) → IsSized s → IsSized (acknowledge msg from s)
unfolding acknowledge
acknowledge-IsSized msg from s w =
    IsSized-if _ _ s (send_empty_ack-IsSized msg.message_id from s w) w

pub reply_block2-IsSized :
    (msg : Message) (from : Endpoint) (res : Response) (observe : Option ℕ) (payload : List ℕ)
    (b2 : Option BlockOption) (s : Server)
    → IsSized s
    → IsSized (reply_block2 msg from res observe payload b2 s)
unfolding reply_block2
reply_block2-IsSized msg from res observe payload none s w =
    IsSized-if _ _ _ (send_block2_response-IsSized msg from _ _ _ _ _ _ _ s w)
      (send_piggybacked_response-IsSized msg from _ _ _ _ s w)
reply_block2-IsSized msg from res observe payload (some b2) s w =
    IsSized-if _ _ _ (send_piggybacked_response-IsSized msg from _ _ _ _ s w)
      (send_block2_response-IsSized msg from _ _ _ _ _ _ _ s w)

pub reply_with-IsSized :
    (blockwise : Bool) (msg : Message) (from : Endpoint) (res : Response) (observe : Option ℕ)
    (payload : Option (List ℕ)) (s : Server)
    → IsSized s
    → IsSized (reply_with blockwise msg from res observe payload s)
unfolding reply_with
reply_with-IsSized true msg from res observe (some (b ∷ bs)) s w =
    reply_block2-IsSized msg from res observe (b ∷ bs) _ s w
reply_with-IsSized true msg from res observe (some []) s w =
    send_piggybacked_response-IsSized msg from _ _ _ _ s w
reply_with-IsSized true msg from res observe none s w =
    send_piggybacked_response-IsSized msg from _ _ _ _ s w
reply_with-IsSized false msg from res observe payload s w =
    send_piggybacked_response-IsSized msg from _ _ _ _ s w

release_found :
    (i : ℕ) (out : Option DeferredRequest) (s : Server)
    → IsSized s
    → IsSized (elim out [
      | none ↦ s
      | some dr ↦ record s { deferred = set s.deferred i (record dr { active = false }) }
    ])
release_found i none s w = w
release_found i (some dr) s w = (w.0, w.1, length-set s.deferred i _ ∙ w.2, w.3, w.4, w.5)

pub release_claim-IsSized :
    (handle : Option ℕ) (s : Server) → IsSized s → IsSized (release_claim handle s)
unfolding release_deferred
release_claim-IsSized none s w = w
release_claim-IsSized (some i) s w = release_found i (get_elem? s.deferred i) s w

pub claim_deferred-IsSized :
    (msg : Message) (from : Endpoint) (handle : Option ℕ) (s : Server)
    → IsSized s
    → IsSized (claim_deferred msg from handle s)
unfolding claim_deferred
claim_deferred-IsSized msg from none s w = w
claim_deferred-IsSized msg from (some i) s w =
    (w.0, w.1, length-set s.deferred i _ ∙ w.2, w.3, w.4, w.5)

pub observe_option-IsSized :
    (idx : ℕ) (r : Resource) (msg : Message) (from : Endpoint) (o : CoapOption) (s : Server)
    → IsSized s
    → IsSized (observe_option idx r msg from o s).0
unfolding observe_option
observe_option-IsSized idx r msg from o s w =
    elim (Bool-cases (option_as_uint o == OptionNumber.observe_register)) [
      | inl register ↦
          rw (observe_option, register)
            (
              w.0,
              note_message_id-IsTable from msg.token msg.message_id _
                  (register_observer-IsTable (u8 idx) from msg.token s.observers w.1),
              w.2,
              w.3,
              w.4,
              w.5,
            )
      | inr other ↦
          rw (observe_option, other)
            (w.0, remove_observer-IsTable from msg.token s.observers w.1, w.2, w.3, w.4, w.5)
    ]

pub observe_request-IsSized :
    (idx : ℕ) (r : Resource) (msg : Message) (from : Endpoint) (s : Server)
    → IsSized s
    → IsSized (observe_request idx r msg from s).0
unfolding observe_request
observe_request-IsSized idx r msg from s w =
    elim (Option-cases (find_option OptionNumber.observe msg)) [
      | inl e ↦ rw (observe_request, e) w
      | inr (o, e) ↦ elim (Bool-cases (r.observable && (msg.code == Code.get))) [
        | inl wanted ↦ rw (observe_request, e, wanted) (observe_option-IsSized idx r msg from o s w)
        | inr unwanted ↦ rw (observe_request, e, unwanted) w
      ]
    ]

pub call_handler-IsSized :
    (app : App) (h context : ℕ) (request : Request) (s : Server)
    → KeepsSized app
    → IsSized s
    → IsSized (call_handler app h context request s).0
unfolding call_handler
call_handler-IsSized app h context request s k w = elim (Bool-cases (h == well_known_handler)) [
  | inl core ↦ rw (call_handler, core) (unfold well_known_core_handler build_link_format in w)
  | inr other ↦ rw (call_handler, other) (k h context request s w)
]

pub handle_plain-IsSized :
    (app : App) (blockwise : Bool) (r : Resource) (msg : Message) (from : Endpoint) (c : Captures)
    (observe : Option ℕ) (s : Server)
    → KeepsSized app
    → IsSized s
    → IsSized (handle_plain app blockwise r msg from c observe s)
unfolding handle_plain
handle_plain-IsSized app blockwise r msg from c observe s k w =
    let ran =
      call_handler-IsSized app r.handler r.user_context _ _ k
        (claim_deferred-IsSized msg from _ s w) in
    IsSized-if _ _ _ (acknowledge-IsSized msg from _ ran)
      (reply_with-IsSized blockwise msg from _ observe _ _ (release_claim-IsSized _ _ ran))
