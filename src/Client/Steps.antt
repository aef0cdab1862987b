-- ===== src/Client/Steps.antt =====
-- The runs of a client: any sequence of calls of its operations (src/PulseCoAPClient.h) from its
-- construction on, with any datagrams in any order.
use pulse_co_ap.Common.{ℕ, Bool, Option, List, arith}
use pulse_co_ap.Types.Config.{max_transactions, max_discovers}
use pulse_co_ap.Types.Address.{Endpoint}
use pulse_co_ap.Transaction
use pulse_co_ap.Transaction.Bounds.{FitsTransaction}
use pulse_co_ap.Block.{idle_upload, idle_download}
use pulse_co_ap.Client.{
  Client, idle_request, idle_discover, new_client, Environment, set_timeout_handler,
}
use pulse_co_ap.Client.Requests.{Order, send_request}
use pulse_co_ap.Client.Methods.{send_content, cancel_observe}
use pulse_co_ap.Client.Discovering.{discover}
use pulse_co_ap.Client.Poll.{poll}
use pulse_co_ap.Client.Safety.Arrays.{IsArray-replicate}
use pulse_co_ap.Client.Safety.{
  FitsPending, FitsUpload, FitsDownload, FitsDiscover, IsSound, KeepsSound,
}
use pulse_co_ap.Client.Safety.Indices.{FindsInside, IsSound-FindsInside}
use pulse_co_ap.Client.Safety.Sending.{
  send_request-IsSound, send_content-IsSound, cancel_observe-IsSound, discover-IsSound,
}
use pulse_co_ap.Client.Safety.Polling.{poll-IsSound}

-- One call of the application. `get`, `del` and `observe` are requests, `put` and `post` contents.
pub data Step (env : Environment) (blockwise : Bool) : Client → Client → Type 0 where
  request : (o : Order) (c : Client) → Step env blockwise c (send_request env blockwise o c).0
  content : (o : Order) (c : Client) → Step env blockwise c (send_content env blockwise o c).0
  cancellation :
      (server : Endpoint) (path : List ℕ) (c : Client)
      → Step env blockwise c (cancel_observe env blockwise server path c).0
  discovery :
      (to : Endpoint) (handler context : ℕ) (c : Client)
      → Step env blockwise c (discover env to handler context c).0
  handler_change : (handler : ℕ) (c : Client) → Step env blockwise c (set_timeout_handler handler c)
  polling :
      (now : ℕ) (input : Option (Endpoint × List ℕ)) (c : Client)
      → Step env blockwise c (poll env blockwise now input c)

pub data Reach (env : Environment) (blockwise : Bool) (c : Client) : Client → Type 0 where
  here : Reach env blockwise c c
  next : {d e : Client} → Reach env blockwise c d → Step env blockwise d e → Reach env blockwise c e

module _ (env : Environment) (k : KeepsSound env) (blockwise : Bool) where
  Step-IsSound : {c d : Client} → Step env blockwise c d → IsSound c → IsSound d
  unfolding set_timeout_handler
  Step-IsSound (Step.request o c) w = send_request-IsSound env blockwise o c w
  Step-IsSound (Step.content o c) w = send_content-IsSound env blockwise o c w
  Step-IsSound (Step.cancellation server path c) w =
      cancel_observe-IsSound env blockwise server path c w
  Step-IsSound (Step.discovery to handler context c) w = discover-IsSound env to handler context c w
  Step-IsSound (Step.handler_change handler c) w = w
  Step-IsSound (Step.polling now input c) w = poll-IsSound env k blockwise now input c w

  kept : {c d : Client} → Reach env blockwise c d → IsSound c → IsSound d
  kept Reach.here w = w
  kept (Reach.next run step) w = Step-IsSound step (kept run w)

new_client-IsSound : IsSound new_client
unfolding Transaction.reset
new_client-IsSound = (
  IsArray-replicate FitsPending max_transactions idle_request (omega arith, omega arith),
  IsArray-replicate FitsUpload max_transactions idle_upload (omega arith),
  IsArray-replicate FitsDownload max_transactions idle_download (omega arith, omega arith),
  IsArray-replicate FitsTransaction max_transactions Transaction.unused (omega arith, omega arith),
  IsArray-replicate FitsDiscover max_discovers idle_discover (omega arith),
  omega arith,
  omega arith,
)

-- Whatever operations a new client is called with, in whatever order, and whatever it receives,
-- each array keeps its size, each path, token, message and assembled body fits the buffer it is
-- copied to, and the counters keep within 16 and 8 bits; and each slot that the searches for a free
-- request, a token, a subscription or a free discovery find is one of the array; if the callbacks
-- of the application keep the bounds too.
pub reach-IsSound :
    (env : Environment) (blockwise : Bool) {c : Client} (token : List ℕ) (server : Endpoint)
    (path : List ℕ)
    → KeepsSound env
    → Reach env blockwise new_client c
    → IsSound c × FindsInside token server path c
reach-IsSound env blockwise {c} token server path k run =
    let sound = kept env k blockwise run new_client-IsSound in
    (sound, IsSound-FindsInside token server path c sound)
