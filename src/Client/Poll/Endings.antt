-- ===== src/Client/Poll/Endings.antt =====
-- About the requests that end without a response: by a Reset, or by the last timeout of their
-- transaction (src/PulseCoAPClient.cpp).
use pulse_co_ap.Common.{
  ℕ, ◌≡◌, refl, sym, ◌∙◌, subst, Bool, true, false, some, List, ◌∷◌, ◌==◌, modify, get_elem?,
}
use pulse_co_ap.Types.Codes.{is_reset}
use pulse_co_ap.Types.Address.{Endpoint}
use pulse_co_ap.Message.{Message}
use pulse_co_ap.Transaction.{answers, get_token}
use pulse_co_ap.Transaction.Slots.{in_flight, erase_first, complete-in_flight}
use pulse_co_ap.Client.{PendingRequest, Call, Client, Environment, call, call_timeout}
use pulse_co_ap.Client.Slots.{closed, close}
use pulse_co_ap.Client.Slots.Carriers.{carriers, find_pending_first}
use pulse_co_ap.Client.Answers.Once.{IsQuiet}
use pulse_co_ap.Client.Poll.{context_at, time_out, drop_request, completed, reject, receive_message}

-- The handler for timeouts is called once, and the slot is free.
abbrev Ended : ℕ → PendingRequest → Client → Client → Type 0
Ended slot p c c' = c' ≡ record c {
  calls = Call.timeout c.on_timeout p.user_context ∷ c.calls;
  pending = modify slot closed c.pending;
}

ended :
    (env : Environment) (slot : ℕ) (p : PendingRequest) (c : Client)
    → IsQuiet env
    → (c.on_timeout == 0) ≡ false
    → get_elem? c.pending slot ≡ some p
    → Ended slot p c (call_timeout env (context_at slot c) (close slot c))
unfolding call_timeout call context_at close
ended env slot p c quiet given there =
    rw (given, context_at, there)
      (quiet (Call.timeout c.on_timeout p.user_context) (record c {
        calls = Call.timeout c.on_timeout p.user_context ∷ c.calls;
        pending = modify slot closed c.pending;
      }))

-- The last timeout of the transaction of a request: the handler for timeouts is called once, with
-- the context of the first request that carries the token, and of the requests of that token just
-- this one is no longer outstanding; the callbacks call no operation of the client.
pub time_out_lem :
    (env : Environment) (token : List ℕ) (p : PendingRequest) (rest : List PendingRequest)
    (c : Client)
    → IsQuiet env
    → (c.on_timeout == 0) ≡ false
    → carriers token c.pending ≡ p ∷ rest
    → let c' = time_out env token c in
      (c'.calls ≡ Call.timeout c.on_timeout p.user_context ∷ c.calls)
      × (carriers token c'.pending ≡ rest)
      × (c'.sent ≡ c.sent)
unfolding time_out
time_out_lem env token p rest c quiet given first =
    let (slot, found, there, left) = find_pending_first token c.pending rest p first in
    let e : time_out env token c ≡ call_timeout env (context_at slot c) (close slot c) =
      rw (time_out, found) refl in
    let whole = e ∙ ended env slot p c quiet given there in
    subst
      (λ (d : Client).
        (d.calls ≡ Call.timeout c.on_timeout p.user_context ∷ c.calls)
        × (carriers token d.pending ≡ rest)
        × (d.sent ≡ c.sent))
      (sym whole) (refl, left, refl)

-- A Reset for a transaction in flight ends its request: the transaction is given up, so it is never
-- resent, the handler for timeouts is called once with the context of the first request that
-- carries the token, and of the requests of that token just this one is no longer outstanding;
-- nothing is sent and no other timer is looked at. The callbacks call no operation of the client.
pub receive_message_reset :
    (env : Environment) (blockwise : Bool) (now : ℕ) (msg : Message) (from : Endpoint) (b : ℕ)
    (bs : List ℕ) (p : PendingRequest) (rest : List PendingRequest) (c : Client)
    → IsQuiet env
    → is_reset msg.type ≡ true
    → get_token from msg.message_id c.transactions ≡ some (b ∷ bs)
    → (c.on_timeout == 0) ≡ false
    → carriers (b ∷ bs) c.pending ≡ p ∷ rest
    → let c' = receive_message env blockwise now msg from c in
      (c'.calls ≡ Call.timeout c.on_timeout p.user_context ∷ c.calls)
      × (carriers (b ∷ bs) c'.pending ≡ rest)
      × (in_flight c'.transactions
          ≡ erase_first (answers from msg.message_id) (in_flight c.transactions))
      × (c'.sent ≡ c.sent)
unfolding receive_message reject drop_request
receive_message_reset env blockwise now msg from b bs p rest c quiet reset token given first =
    let (slot, found, there, left) = find_pending_first (b ∷ bs) c.pending rest p first in
    let c1 = completed from msg.message_id c in
    let e : receive_message env blockwise now msg from c
        ≡ call_timeout env (context_at slot c1) (close slot c1) =
      rw (receive_message, reset, reject, token, drop_request, found) refl in
    let whole = e ∙ ended env slot p c1 quiet given there in
    subst
      (λ (d : Client).
        (d.calls ≡ Call.timeout c.on_timeout p.user_context ∷ c.calls)
        × (carriers (b ∷ bs) d.pending ≡ rest)
        × (in_flight d.transactions
            ≡ erase_first (answers from msg.message_id) (in_flight c.transactions))
        × (d.sent ≡ c.sent))
      (sym whole) (refl, left, (complete-in_flight from msg.message_id c.transactions).0, refl)
