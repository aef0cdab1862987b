-- ===== src/Server/Replies/Errors.antt =====
-- About error replies, which carry nothing but a code (src/PulseCoAPServer.cpp).
use pulse_co_ap.Common.{
  append-nil, ℕ, ◌≤◌, ◌≡◌, none, List, ◌∷◌, length, arith, Bool-cases, inl, inr,
}
use pulse_co_ap.Common.Bits.{IsByte, IsU16}
use pulse_co_ap.Types.Codes.{MessageType, is_confirmable}
use pulse_co_ap.Types.ContentFormat
use pulse_co_ap.Types.Address.{Endpoint}
use pulse_co_ap.Message.{Message}
use pulse_co_ap.Message.Decode.{DecodeError, decode}
use pulse_co_ap.Message.Wire.{wire, header_bytes, options_bytes, payload_bytes}
use pulse_co_ap.Message.Reads.{IsDecoded}
use pulse_co_ap.Message.Build.{addressed_lem}
use pulse_co_ap.Server.{Server}
use pulse_co_ap.Server.Replies.{reply_header, add_observe, piggybacked, send_code}
use pulse_co_ap.Message.Content.{add_content}
use pulse_co_ap.Server.Replies.Answers.{AnswersTo, send_piggybacked_response_lem}

length-reply :
    (request : Message) (code : ℕ) (s : Server)
    → IsDecoded request
    → length (wire (piggybacked (reply_header request code s).0 none ContentFormat.text_plain none))
      ≤ 12
unfolding piggybacked add_content add_observe reply_header wire header_bytes options_bytes
    payload_bytes
length-reply request code s d = elim (Bool-cases (is_confirmable request.type)) [
  | inl con ↦
      rw
        (
          con,
          addressed_lem MessageType.acknowledgement request.message_id request.token code
              d.token_fits,
          append-nil request.token,
        )
        (omega (arith, d.token_fits))
  | inr other ↦
      rw
        (
          other,
          addressed_lem MessageType.non_confirmable s.next_message_id request.token code
              d.token_fits,
          append-nil request.token,
        )
        (omega (arith, d.token_fits))
]

-- For a request that was decoded, a code of one byte and a next message ID of 16 bits, an error
-- reply always fits: one datagram is sent to the client that asked, which reads from it the
-- code, the token of its request, the type and message ID that answer it, and no payload.
pub send_code_lem :
    (request : Message) (to : Endpoint) (code : ℕ) (s : Server)
    → IsDecoded request
    → IsByte code
    → IsU16 s.next_message_id
    → (bytes : List ℕ) × (m : Message) × ((send_code request to code s).sent ≡ (to, bytes) ∷ s.sent)
      × (decode bytes ≡ (m, DecodeError.no_error))
      × AnswersTo request code s.next_message_id m
      × (m.payload ≡ none)
send_code_lem request to code s d h n =
    elim (send_piggybacked_response_lem request to code none ContentFormat.text_plain none s d h
      n) [
        | inl (big, e) ↦ absurd (omega (arith, big, length-reply request code s d))
        | inr sent ↦ sent
      ]
