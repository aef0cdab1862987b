-- ===== src/Client/Poll.antt =====
-- `Client::poll` and the two trampolines of the transaction pool (src/PulseCoAPClient.cpp).
pub mod Endings
use pulse_co_ap.Common.{
  ℕ, Bool, true, false, not, ◌&&◌, Option, none, some, List, [], ◌∷◌, ◌==◌, if◌then◌else◌,
  get_elem?,
}
use pulse_co_ap.Types.Codes.{is_reset, is_acknowledgement, is_confirmable, is_method_code}
use pulse_co_ap.Types.Code
use pulse_co_ap.Types.Address.{Endpoint}
use pulse_co_ap.Message.{Message}
use pulse_co_ap.Message.Decode.{DecodeError, decode}
use pulse_co_ap.Transaction.{Host}
use pulse_co_ap.Transaction
use pulse_co_ap.Client.{PendingRequest, Client, Environment, send, call_timeout}
use pulse_co_ap.Client.Slots.{find_pending, close}
use pulse_co_ap.Client.Discovering.{expire_discovers}
use pulse_co_ap.Client.Answers.{acknowledge, deliver}

-- `pending_[slot].userContext`.
unfoldable pub context_at : ℕ → Client → ℕ
context_at slot c = elim (get_elem? c.pending slot) [ none ↦ 0 | some p ↦ p.user_context ]

-- `timeoutTrampoline`; the handler is called for a token of no request too.
unfoldable pub time_out : Environment → List ℕ → Client → Client
time_out env token c = elim (find_pending token 0 c.pending) [
  | none ↦ call_timeout env 0 c
  | some slot ↦ call_timeout env (context_at slot c) (close slot c)
]

-- The client as the owner of its pool, with its two trampolines.
abbrev pub client_host : Environment → Host Client
client_host env = record {
  pool = λ c. c.transactions;
  with_pool = λ c slots. record c { transactions = slots };
  resend = λ c to message. (send env to message c).0;
  on_timeout = λ c to token. time_out env token c;
}

unfoldable pub drop_request : Environment → Option (List ℕ) → Client → Client
drop_request env none c = c
drop_request env (some []) c = c
drop_request env (some (b ∷ bs)) c = elim (find_pending (b ∷ bs) 0 c.pending) [
  | none ↦ c
  | some slot ↦ call_timeout env (context_at slot c) (close slot c)
]

abbrev pub completed : Endpoint → ℕ → Client → Client
completed from id c = record c { transactions = (Transaction.complete from id c.transactions).0 }

-- A Reset: the token is read before the transaction is freed.
unfoldable pub reject : Environment → Endpoint → ℕ → Client → Client
reject env from id c =
    drop_request env (Transaction.get_token from id c.transactions) (completed from id c)

-- `msg.code() != Code::Empty && !isMethodCode(msg.code())`.
abbrev pub is_response : Message → Bool
is_response msg = not (msg.code == Code.empty) && not (is_method_code msg.code)

-- The message, unless it is a Reset.
unfoldable pub receive_response : Environment → Bool → Message → Endpoint → Client → Client
receive_response env blockwise msg from c =
    let c1 = if is_acknowledgement msg.type then completed from msg.message_id c else c in
    if is_response msg
    then deliver env blockwise msg from
        (if is_confirmable msg.type then acknowledge env from msg.message_id c1 else c1)
    else c1

-- The end of `poll`.
unfoldable pub finish_poll : Environment → ℕ → Client → Client
finish_poll env now c =
    Transaction.tick (client_host env) now
      (record c { discovers = expire_discovers now c.discovers })

-- A message that has been decoded; a Reset ends `poll`.
unfoldable pub receive_message : Environment → Bool → ℕ → Message → Endpoint → Client → Client
receive_message env blockwise now msg from c =
    if is_reset msg.type
    then reject env from msg.message_id c
    else finish_poll env now (receive_response env blockwise msg from c)

-- The last argument but one is what `receive` gives: `none` where nothing is waiting.
unfoldable pub poll : Environment → Bool → ℕ → Option (Endpoint × List ℕ) → Client → Client
poll env blockwise now none c = finish_poll env now (record c { last_now_ms = now })
poll env blockwise now (some (from, bytes)) c = elim (decode bytes).1 [
  | DecodeError.no_error ↦
      receive_message env blockwise now (decode bytes).0 from (record c { last_now_ms = now })
  | _ ↦ finish_poll env now (record c { last_now_ms = now })
]
