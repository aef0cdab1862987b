-- ===== src/Client/Answers/Once.antt =====
-- About the delivery of a response that comes in one datagram (src/PulseCoAPClient.cpp).
use pulse_co_ap.Common.{
  ℕ, zero, suc, ◌≡◌, refl, sym, ap, ◌∙◌, subst, Bool, true, false, none, some, List, [], ◌∷◌, ◌==◌,
  modify, get_elem?,
}
use pulse_co_ap.Types.Code
use pulse_co_ap.Types.Address.{Endpoint}
use pulse_co_ap.Message.{Message}
use pulse_co_ap.Client.{PendingRequest, Call, Client, Environment, call, call_response}
use pulse_co_ap.Client.Slots.{closed, settled, settle}
use pulse_co_ap.Client.Slots.Carriers.{carriers, find_pending_first, find_pending_nobody}
use pulse_co_ap.Client.Answers.{
  find_discover, plain_response, deliver_plain, block2_of, deliver_final, deliver_pending,
  deliver_unicast, deliver,
}

-- The callbacks of the application call no operation of the client.
abbrev pub IsQuiet : Environment → Type 0
IsQuiet env = (what : Call) (c : Client) → env.react what c ≡ c

modify-settled :
    (k : ℕ) (ps : List PendingRequest) (p : PendingRequest)
    → get_elem? ps k ≡ some p
    → p.observing ≡ false
    → modify k settled ps ≡ modify k closed ps
modify-settled k [] p e h = refl
modify-settled zero (x ∷ xs) p e h =
    let found : x ≡ p = cc in
    let once : x.observing ≡ false = ap (λ (q : PendingRequest). q.observing) found ∙ h in
    rw once refl
modify-settled (suc k) (x ∷ xs) p e h = ap (◌∷◌ x) (modify-settled k xs p e h)

plain_lem :
    (env : Environment) (msg : Message) (slot : ℕ) (p : PendingRequest) (c : Client)
    → IsQuiet env
    → (p.on_response == 0) ≡ false
    → deliver_plain env msg slot p c ≡ record c {
      calls = Call.response p.on_response (plain_response msg) p.user_context ∷ c.calls;
      pending = modify slot settled c.pending;
    }
unfolding deliver_plain call_response call settle
plain_lem env msg slot p c quiet given = rw given (
    ap (settle slot) (
      quiet (Call.response p.on_response (plain_response msg) p.user_context) (record c {
        calls = Call.response p.on_response (plain_response msg) p.user_context ∷ c.calls;
      })))

-- The callback once, and the slot settled.
abbrev Answered : Message → ℕ → PendingRequest → Client → Client → Type 0
Answered msg slot p c c' =
    (c'.calls ≡ Call.response p.on_response (plain_response msg) p.user_context ∷ c.calls)
    × (c'.pending ≡ modify slot settled c.pending)
    × (c'.discovers ≡ c.discovers)

module _ (env : Environment) (quiet : IsQuiet env) (msg : Message) (from : Endpoint)
    (final : (msg.code == Code.continue) ≡ false) (whole : block2_of msg ≡ none)
    (p : PendingRequest) (given : (p.on_response == 0) ≡ false) where
  plain-Answered : (slot : ℕ) (c : Client) → Answered msg slot p c (deliver_plain env msg slot p c)
  plain-Answered slot c =
      let e = plain_lem env msg slot p c quiet given in
      (
        ap (λ (d : Client). d.calls) e,
        ap (λ (d : Client). d.pending) e,
        ap (λ (d : Client). d.discovers) e,
      )

  pending-Answered :
      (blockwise : Bool) (slot : ℕ) (c : Client)
      → Answered msg slot p c (deliver_pending env blockwise msg from slot p c)
  unfolding deliver_pending deliver_final
  pending-Answered false slot c = plain-Answered slot c
  pending-Answered true slot c = rw (final, deliver_final, whole) (plain-Answered slot _)

-- A response in one datagram to the only request of its token, which does not observe: the callback
-- of the request is called once, with what the response says, and no request of the token is left,
-- so that a duplicate of the response has no effect. It is not for a discovery, not 2.31 Continue
-- and has no Block2 option, and the callbacks call no operation of the client.
pub response_once :
    (env : Environment) (blockwise : Bool) (msg : Message) (from : Endpoint) (p : PendingRequest)
    (c : Client)
    → IsQuiet env
    → (msg.code == Code.continue) ≡ false
    → block2_of msg ≡ none
    → find_discover msg.token c.discovers ≡ none
    → carriers msg.token c.pending ≡ p ∷ []
    → p.observing ≡ false
    → (p.on_response == 0) ≡ false
    → let c' = deliver env blockwise msg from c in
      (c'.calls ≡ Call.response p.on_response (plain_response msg) p.user_context ∷ c.calls)
      × (carriers msg.token c'.pending ≡ [])
      × (deliver env blockwise msg from c' ≡ c')
unfolding deliver deliver_unicast
response_once env blockwise msg from p c quiet final whole nobody only once given =
    let (slot, found, there, left) = find_pending_first msg.token c.pending [] p only in
    let c' = deliver_pending env blockwise msg from slot p c in
    let (calls, pending, discovers) =
      pending-Answered env quiet msg from final whole p given blockwise slot c in
    let first : deliver env blockwise msg from c ≡ c' =
      rw (deliver, nobody, deliver_unicast, found, there) refl in
    let none_left : carriers msg.token c'.pending ≡ [] =
      ap (carriers msg.token) (pending ∙ modify-settled slot c.pending p there once) ∙ left in
    let second : deliver env blockwise msg from c' ≡ c' =
      rw
        (
          deliver,
          ap (find_discover msg.token) discovers ∙ nobody,
          deliver_unicast,
          find_pending_nobody msg.token c'.pending none_left,
        )
        refl in
    subst
      (λ (d : Client).
        (d.calls ≡ Call.response p.on_response (plain_response msg) p.user_context ∷ c.calls)
        × (carriers msg.token d.pending ≡ [])
        × (deliver env blockwise msg from d ≡ d))
      (sym first) (calls, none_left, second)
