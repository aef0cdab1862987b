-- ===== src/Server/Replies/Answers.antt =====
-- About what the client reads from the replies of the server (src/PulseCoAPServer.cpp).
use pulse_co_ap.Common.{
  ℕ, ◌≤◌, ◌<◌, ◌≡◌, refl, ap, ◌∙◌, Option, none, some, List, ◌∷◌, leb, if◌then◌else◌, length, arith,
  leb→le, Bool-cases, inl, inr, ◌⊎◌, leb_false→lt,
}
use pulse_co_ap.Common.Bits.{IsByte, IsU16}
use pulse_co_ap.Types.Config.{max_msg_size}
use pulse_co_ap.Types.Codes.{MessageType, is_confirmable}
use pulse_co_ap.Types.OptionNumber
use pulse_co_ap.Types.Address.{Endpoint}
use pulse_co_ap.Message.{Message}
use pulse_co_ap.Message.Content.{add_content}
use pulse_co_ap.Message.Content.Kept.{
  SameHeader, SameHeader-trans, add_option_uint_keeps, carried, add_content_keeps,
}
use pulse_co_ap.Message.Decode.{DecodeError, decode}
use pulse_co_ap.Message.Wire.{wire, IsWellFormed}
use pulse_co_ap.Message.Emit.{encode-wire}
use pulse_co_ap.Message.RoundTrip.{decode-wire}
use pulse_co_ap.Message.Reads.{IsDecoded}
use pulse_co_ap.Message.Build.{IsBuilt, addressed-IsBuilt, addressed_lem, add_option_uint-IsBuilt}
use pulse_co_ap.Server.{Server, send}
use pulse_co_ap.Server.Replies.{
  reply_header, add_observe, transmit, piggybacked, send_piggybacked_response,
}

-- A well-formed message is sent if it fits a datagram, and is then read as it was built; one that
-- does not fit is not sent.
pub transmit_lem :
    (to : Endpoint) (m : Message) (s : Server)
    → IsWellFormed m
    → ((max_msg_size < length (wire m)) × (transmit to m s ≡ s))
      ⊎ ((bytes : List ℕ) × (length bytes ≤ max_msg_size)
          × (transmit to m s ≡ send to bytes s)
          × (decode bytes ≡ (record m { last_option_number = 0 }, DecodeError.no_error)))
unfolding transmit
transmit_lem to m s w = elim (Bool-cases (leb (length (wire m)) max_msg_size)) [
  | inl room ↦
      inr (
        wire m,
        leb→le _ _ room,
        rw (encode-wire max_msg_size m w, room, transmit),
        decode-wire m w,
      )
  | inr full ↦ inl (leb_false→lt _ _ full, rw (encode-wire max_msg_size m w, full, transmit))
]

add_observe_keeps :
    (observe : Option ℕ) (m : Message)
    → IsBuilt m
    → m.payload ≡ none
    → IsBuilt (add_observe observe m)
      × SameHeader (add_observe observe m) m
      × ((add_observe observe m).payload ≡ none)
unfolding add_observe
add_observe_keeps none m b e =
    (b, record { type = refl; code = refl; message_id = refl; token = refl }, e)
add_observe_keeps (some v) m b e =
    let kept = add_option_uint_keeps OptionNumber.observe v m in
    (add_option_uint-IsBuilt OptionNumber.observe v m (omega arith) b, kept.0, kept.1 ∙ e)

-- The header of a reply, as RFC 7252 wants it: the ACK of a Confirmable request has the message ID of
-- the request, the answer to any other is a NON with a new one, and both have the token.
pub record AnswersTo (request : Message) (code fresh : ℕ) (m : Message) : Type 0 where
  pub type : m.type ≡ (
      if is_confirmable request.type
      then MessageType.acknowledgement
      else MessageType.non_confirmable)
  pub code_is : m.code ≡ code
  pub message_id :
      m.message_id ≡ (if is_confirmable request.type then request.message_id else fresh)
  pub token : m.token ≡ request.token

reply_header_lem :
    (request : Message) (code : ℕ) (s : Server)
    → IsDecoded request
    → IsByte code
    → IsU16 s.next_message_id
    → IsBuilt (reply_header request code s).0
      × AnswersTo request code s.next_message_id (reply_header request code s).0
      × ((reply_header request code s).0.payload ≡ none)
unfolding reply_header
reply_header_lem request code s d h n = elim (Bool-cases (is_confirmable request.type)) [
  | inl con ↦
      rw
        (
          con,
          addressed_lem MessageType.acknowledgement request.message_id request.token code
              d.token_fits,
        )
        (
          rw
              (addressed_lem MessageType.acknowledgement request.message_id request.token code
                d.token_fits)
              at
              (addressed-IsBuilt MessageType.acknowledgement request.message_id request.token code
                d.id_fits h),
          record { type = rw con; code_is = refl; message_id = rw con; token = refl },
          refl,
        )
  | inr other ↦
      rw
        (
          other,
          addressed_lem MessageType.non_confirmable s.next_message_id request.token code
              d.token_fits,
        )
        (
          rw
              (addressed_lem MessageType.non_confirmable s.next_message_id request.token code
                d.token_fits)
              at
              (addressed-IsBuilt MessageType.non_confirmable s.next_message_id request.token code n
                h),
          record { type = rw other; code_is = refl; message_id = rw other; token = refl },
          refl,
        )
]

sent-reply_header :
    (request : Message) (code : ℕ) (s : Server) → (reply_header request code s).1.sent ≡ s.sent
unfolding reply_header
sent-reply_header request code s = ground arith

-- For a request that was decoded, a code of one byte and a next message ID of 16 bits: a reply
-- that fits a datagram goes to the client that asked, and only this one datagram is sent. The
-- client reads from it the code and the payload given, the token of the request, and the type
-- and message ID that answer it. A reply that does not fit is not sent.
pub send_piggybacked_response_lem :
    (request : Message) (to : Endpoint) (code : ℕ) (payload : Option (List ℕ)) (format : ℕ)
    (observe : Option ℕ) (s : Server)
    → IsDecoded request
    → IsByte code
    → IsU16 s.next_message_id
    → let after = send_piggybacked_response request to code payload format observe s in
      ((max_msg_size
          < length (wire (piggybacked (reply_header request code s).0 payload format observe)))
        × (after.sent ≡ s.sent))
      ⊎ ((bytes : List ℕ) × (m : Message) × (after.sent ≡ (to, bytes) ∷ s.sent)
          × (decode bytes ≡ (m, DecodeError.no_error))
          × AnswersTo request code s.next_message_id m
          × (m.payload ≡ carried payload))
unfolding send_piggybacked_response piggybacked
send_piggybacked_response_lem request to code payload format observe s d h n =
    let head = reply_header_lem request code s d h n in
    let obs = add_observe_keeps observe (reply_header request code s).0 head.0 head.2 in
    let full =
      add_content_keeps payload format (add_observe observe (reply_header request code s).0) obs.0
        obs.2 in
    let reply = add_content payload format (add_observe observe (reply_header request code s).0) in
    let same = SameHeader-trans reply _ _ full.1 obs.1 in
    elim (transmit_lem to reply (reply_header request code s).1 full.0.well_formed) [
      | inl (big, e) ↦ inl (big, ap (λ (t : Server). t.sent) e ∙ sent-reply_header request code s)
      | inr (bytes, room, e, read) ↦ inr (
        bytes,
        record reply { last_option_number = 0 },
        ap (λ (t : Server). t.sent) e ∙ ap (◌∷◌ (to, bytes)) (sent-reply_header request code s),
        read,
        record {
          type = same.type ∙ head.1.type;
          code_is = same.code ∙ head.1.code_is;
          message_id = same.message_id ∙ head.1.message_id;
          token = same.token ∙ head.1.token;
        },
        full.2,
      )
    ]
