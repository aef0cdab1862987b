-- ===== src/Server/Replies.antt =====
-- The messages that the server sends in answer to a request (src/PulseCoAPServer.cpp).
pub mod Answers
pub mod Errors
pub mod Deferrals
use pulse_co_ap.Common.{
  ℕ, zero, suc, ◌+◌, ◌-◌, ◌*◌, ◌<◌, Bool, true, false, not, Option, none, some, List, [], ◌∷◌, ltb,
  leb, ◌==◌, if◌then◌else◌, length, take, drop, get_elem?, set,
}
use pulse_co_ap.Common.Bits.{u16}
use pulse_co_ap.Types.Config.{max_msg_size, max_deferred}
use pulse_co_ap.Types.Codes.{MessageType, is_confirmable}
use pulse_co_ap.Types.Code
use pulse_co_ap.Types.OptionNumber
use pulse_co_ap.Types.ContentFormat
use pulse_co_ap.Types.Address.{Endpoint}
use pulse_co_ap.Message.{Message, addressed, blank, add_option_uint, set_payload}
use pulse_co_ap.Message.Content.{add_content, empty_ack}
use pulse_co_ap.Message.Encode.{encode}
use pulse_co_ap.Transaction
use pulse_co_ap.Block.{size_of_szx, to_option_value}
use pulse_co_ap.Server.{DeferredRequest, Server, send}

-- `nextMessageId_++`.
abbrev pub bump_id : Server → Server
bump_id s = record s { next_message_id = u16 (s.next_message_id + 1) }

-- Type and message ID of a reply: that of the request in an ACK, a new one in a NON.
unfoldable pub reply_header : Message → ℕ → Server → Message × Server
reply_header request code s =
    if is_confirmable request.type
    then (addressed MessageType.acknowledgement request.message_id request.token code, s)
    else (addressed MessageType.non_confirmable s.next_message_id request.token code, bump_id s)

-- To add the option unless the observe value is negative, which is `none`.
unfoldable pub add_observe : Option ℕ → Message → Message
add_observe none m = m
add_observe (some v) m = (add_option_uint OptionNumber.observe v m).0

-- `encode` into a buffer, and `send` if it fits.
unfoldable pub transmit : Endpoint → Message → Server → Server
transmit to m s = elim (encode max_msg_size m) [ none ↦ s | some bytes ↦ send to bytes s ]

unfoldable pub piggybacked : Message → Option (List ℕ) → ℕ → Option ℕ → Message
piggybacked header payload format observe = add_content payload format (add_observe observe header)

unfoldable pub send_piggybacked_response :
    Message → Endpoint → ℕ → Option (List ℕ) → ℕ → Option ℕ → Server → Server
send_piggybacked_response request to code payload format observe s =
    let start = reply_header request code s in
    transmit to (piggybacked start.0 payload format observe) start.1

-- A reply with nothing but a code, as all error replies are.
abbrev pub send_code : Message → Endpoint → ℕ → Server → Server
send_code request to code s =
    send_piggybacked_response request to code none ContentFormat.text_plain none s

unfoldable pub send_empty_ack : ℕ → Endpoint → Server → Server
send_empty_ack id to s = transmit to (empty_ack id) s

-- The bytes of block `num`.
abbrev pub block_of : ℕ → ℕ → List ℕ → List ℕ
block_of size num payload = take size (drop (num * size) payload)

unfoldable pub block2_message : Message → List ℕ → ℕ → Option ℕ → ℕ → Bool → ℕ → Message
block2_message header payload format observe num more szx =
    let block = block_of (size_of_szx szx) num payload in
    let typed =
      (add_option_uint OptionNumber.content_format format (add_observe observe header)).0 in
    set_payload (some block) (length block)
      (add_option_uint OptionNumber.block2 (to_option_value num more szx) typed).0

unfoldable pub send_block2_response :
    Message → Endpoint → ℕ → List ℕ → ℕ → Option ℕ → ℕ → Bool → ℕ → Server → Server
send_block2_response request to code payload format observe num more szx s =
    if leb (length payload) (num * size_of_szx szx)
    then s
    else let start = reply_header request code s in
      transmit to (block2_message start.0 payload format observe num more szx) start.1

-- `2.31 Continue` with a Block1 option, in `handleRequest`.
unfoldable pub send_continue : Message → Endpoint → ℕ → Bool → ℕ → Server → Server
send_continue request to num more szx s =
    let start = reply_header request Code.continue s in
    transmit to (add_option_uint OptionNumber.block1 (to_option_value num more szx) start.0).0
      start.1

-- The index of the first free slot.
unfoldable pub first_inactive : ℕ → List DeferredRequest → Option ℕ
first_inactive i [] = none
first_inactive i (d ∷ ds) = if not d.active then some i else first_inactive (i + 1) ds

unfoldable pub allocate_deferred : Server → Option ℕ
allocate_deferred s = first_inactive 0 s.deferred

-- The separate response of `respond`.
unfoldable pub separate : DeferredRequest → ℕ → Option (List ℕ) → ℕ → Server → Message
separate dr code payload format s = add_content payload format (
    addressed (if dr.was_confirmable then MessageType.confirmable else MessageType.non_confirmable)
      s.next_message_id dr.token code)

-- To send `bytes`, and to keep them for retransmission if they are Confirmable.
unfoldable pub send_tracked : Bool → Endpoint → ℕ → List ℕ → List ℕ → Server → Server
send_tracked track to id token bytes s =
    let gone = send to bytes s in
    if track
    then record gone {
      tx_pool = (Transaction.start to id token bytes s.last_now_ms gone.tx_pool).0;
    }
    else gone

unfoldable pub release_deferred : ℕ → Server → Server
release_deferred i s = elim (get_elem? s.deferred i) [
  | none ↦ s
  | some dr ↦ record s { deferred = set s.deferred i (record dr { active = false }) }
]

-- `respond` on an active slot.
unfoldable pub respond_to : ℕ → DeferredRequest → ℕ → Option (List ℕ) → ℕ → Server → Server × Bool
respond_to handle dr code payload format s =
    elim (encode max_msg_size (separate dr code payload format s)) [
      | none ↦ (release_deferred handle (bump_id s), false)
      | some bytes ↦ (
        release_deferred handle (
            send_tracked dr.was_confirmable dr.remote s.next_message_id dr.token bytes (bump_id s)),
        true,
      )
    ]

unfoldable pub respond : ℕ → ℕ → Option (List ℕ) → ℕ → Server → Server × Bool
respond handle code payload format s = elim (get_elem? s.deferred handle) [
  | none ↦ (s, false)
  | some dr ↦ if not dr.active then (s, false) else respond_to handle dr code payload format s
]
