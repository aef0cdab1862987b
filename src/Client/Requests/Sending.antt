-- ===== src/Client/Requests/Sending.antt =====
-- About `sendRequest` on every branch (src/PulseCoAPClient.cpp).
use pulse_co_ap.Common.{
  ℕ, ◌+◌, ◌≡◌, refl, Bool, true, false, none, some, List, [], ◌∷◌, if◌then◌else◌, Bool-cases,
  length, inl, inr, ◌⊎◌,
}
use pulse_co_ap.Types.Config.{max_msg_size}
use pulse_co_ap.Types.Address.{Endpoint}
use pulse_co_ap.Message.{Message}
use pulse_co_ap.Message.Encode.{encode}
use pulse_co_ap.Message.Decode.{DecodeError, decode}
use pulse_co_ap.Message.Content.Kept.{carried}
use pulse_co_ap.Transaction
use pulse_co_ap.Client.{Client, Environment, send}
use pulse_co_ap.Client.Slots.Outstanding.{outstanding, fresh}
use pulse_co_ap.Client.Requests.{Order, request_type, request_message, filled}
use pulse_co_ap.Client.Requests.Observing.{observe_of, observe_value}
use mathlib.Core.List.{Perm}

pub send_cases :
    (env : Environment) (to : Endpoint) (bytes : List ℕ) (c : Client)
    → (send env to bytes c
        ≡ (record c { attempts = c.attempts + 1; sent = (to, bytes) ∷ c.sent }, true))
      ⊎ ((env.accepts c.attempts ≡ false)
          × (send env to bytes c ≡ (record c { attempts = c.attempts + 1 }, false)))
unfolding send
send_cases env to bytes c = elim (Bool-cases (env.accepts c.attempts)) [
  | inl ok ↦ inl (rw ok refl)
  | inr refused ↦ inr (refused, rw refused refl)
]

-- Nothing is sent, no callback is called, and the same requests are outstanding.
abbrev pub Refused : Client → Client → Type 0
Refused c c' =
    (outstanding c'.pending ≡ outstanding c.pending)
    × (c'.transactions ≡ c.transactions)
    × (c'.sent ≡ c.sent)
    × (c'.calls ≡ c.calls)
    × (c'.uploads ≡ c.uploads)
    × (c'.downloads ≡ c.downloads)

-- Why a request is refused: no slot is free, an option of the path is refused, the message does not
-- fit its buffer, or the transport does not take the datagram.
abbrev pub Refusal : Environment → Order → Client → Type 0
Refusal env o c =
    (length (outstanding c.pending) ≡ length c.pending)
    ⊎ (request_message o c.next_message_id c.next_token_byte ≡ none)
    ⊎ ((m : Message) × (request_message o c.next_message_id c.next_token_byte ≡ some m)
        × (encode max_msg_size m ≡ none))
    ⊎ (env.accepts c.attempts ≡ false)

-- What a server reads of a request: its type, code, message ID, token, payload and Observe option.
abbrev pub Reads : Order → ℕ → ℕ → Message → Type 0
Reads o id token m =
    (m.type ≡ request_type o.confirmable)
    × (m.code ≡ o.method)
    × (m.message_id ≡ id)
    × (m.token ≡ token ∷ [])
    × (m.payload ≡ carried o.payload)
    × (observe_of m ≡ observe_value o.observe)

-- One datagram has been sent, which decodes to the request; a Confirmable one has its transaction;
-- and beside the requests outstanding before, this one is.
abbrev pub Accepted : Order → Client → Client → Type 0
Accepted o c c' =
    (bytes : List ℕ) × (m : Message) × (c'.sent ≡ (o.server, bytes) ∷ c.sent)
    × (decode bytes ≡ (m, DecodeError.no_error))
    × Reads o c.next_message_id c.next_token_byte m
    × Perm (outstanding c'.pending) (filled o c.next_token_byte fresh ∷ outstanding c.pending)
    × (c'.transactions ≡ (
        if o.confirmable
        then (Transaction.start o.server c.next_message_id (c.next_token_byte ∷ []) bytes
            c.last_now_ms c.transactions).0
        else c.transactions))

abbrev pub Outcome : Environment → Order → Client → Client × Bool → Type 0
Outcome env o c r =
    ((r.1 ≡ false) × Refusal env o c × Refused c r.0) ⊎ ((r.1 ≡ true) × Accepted o c r.0)
