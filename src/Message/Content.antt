-- ===== src/Message/Content.antt =====
-- Parts of messages that the server and the client build in the same way.
pub mod Kept
use pulse_co_ap.Common.{ℕ, Option, none, some, List, [], ◌∷◌, length}
use pulse_co_ap.Types.Codes.{MessageType}
use pulse_co_ap.Types.Code
use pulse_co_ap.Types.OptionNumber
use pulse_co_ap.Message.{Message, blank, add_option_uint, set_payload}

-- A payload with its Content-Format; a null or empty payload adds neither.
unfoldable pub add_content : Option (List ℕ) → ℕ → Message → Message
add_content none format m = m
add_content (some []) format m = m
add_content (some (b ∷ bs)) format m =
    set_payload (some (b ∷ bs)) (length (b ∷ bs))
      (add_option_uint OptionNumber.content_format format m).0

unfoldable pub empty_ack : ℕ → Message
empty_ack id = record blank {
  type = MessageType.acknowledgement;
  code = Code.empty;
  message_id = id;
}
