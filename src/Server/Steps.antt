-- ===== src/Server/Steps.antt =====
-- The runs of a server: any sequence of calls of its operations (src/PulseCoAPServer.h) from its
-- construction on, with any datagrams in any order.
use pulse_co_ap.Common.{ℕ, refl, Bool, true, false, Option, some, [], List, arith}
use pulse_co_ap.Types.Address.{Endpoint}
use pulse_co_ap.Uri.{well_known_core}
use pulse_co_ap.Transaction
use pulse_co_ap.Server.{Server, new_server}
use pulse_co_ap.Server.Resources.{add_resource, set_resource_type}
use pulse_co_ap.Server.Startup.{begin}
use pulse_co_ap.Server.Handle.{App, well_known_handler}
use pulse_co_ap.Server.Replies.{respond}
use pulse_co_ap.Server.Notify.{notify}
use pulse_co_ap.Server.Poll.{poll}
use pulse_co_ap.Server.Observers.{is_registered}
use pulse_co_ap.Server.Observers.Registry.{registrations}
use pulse_co_ap.Server.Invariant.{IsSized, KeepsSized}
use pulse_co_ap.Server.Invariant.Polling.{poll-IsSized}
use pulse_co_ap.Server.Invariant.Calling.{
  notify-IsSized, add_resource-IsSized, respond-IsSized, set_resource_type-IsSized,
}

-- One call of the application, or one poll.
pub data Step (app : App) (blockwise : Bool) : Server → Server → Type 0 where
  startup : (opened : Bool) (s : Server) → Step app blockwise s (begin opened s).0
  registration :
      (path : Option (List ℕ)) (methods handler context : ℕ) (observable : Bool) (s : Server)
      → Step app blockwise s (add_resource path methods handler context observable s).0
  typing :
      (path : List ℕ) (rt : Option (List ℕ)) (s : Server)
      → Step app blockwise s (set_resource_type path rt s).0
  response :
      (handle code : ℕ) (payload : Option (List ℕ)) (format : ℕ) (s : Server)
      → Step app blockwise s (respond handle code payload format s).0
  notification :
      (path : List ℕ) (payload : Option (List ℕ)) (format : ℕ) (confirmable : Bool) (s : Server)
      → Step app blockwise s (notify path payload format confirmable s).0
  polling :
      (now : ℕ) (input : Option (Endpoint × List ℕ)) (s : Server)
      → Step app blockwise s (poll app blockwise now input s)

pub data Reach (app : App) (blockwise : Bool) (s : Server) : Server → Type 0 where
  here : Reach app blockwise s s
  next : {t u : Server} → Reach app blockwise s t → Step app blockwise t u → Reach app blockwise s u

begin-IsSized : (opened : Bool) (s : Server) → IsSized s → IsSized (begin opened s).0
unfolding begin
begin-IsSized false s w = w
begin-IsSized true s w =
    add_resource-IsSized (some well_known_core) 1 well_known_handler 0 false
      (record s { link_format = [] }) w

module _ (app : App) (k : KeepsSized app) (blockwise : Bool) where
  Step-IsSized : {s t : Server} → Step app blockwise s t → IsSized s → IsSized t
  Step-IsSized (Step.startup opened s) w = begin-IsSized opened s w
  Step-IsSized (Step.registration path methods handler context observable s) w =
      add_resource-IsSized path methods handler context observable s w
  Step-IsSized (Step.typing path rt s) w = set_resource_type-IsSized path rt s w
  Step-IsSized (Step.response handle code payload format s) w =
      respond-IsSized handle code payload format s w
  Step-IsSized (Step.notification path payload format confirmable s) w =
      notify-IsSized path payload format confirmable s w
  Step-IsSized (Step.polling now input s) w = poll-IsSized app k blockwise now input s w

  kept : {s t : Server} → Reach app blockwise s t → IsSized s → IsSized t
  kept Reach.here w = w
  kept (Reach.next run step) w = Step-IsSized step (kept run w)

new_server-IsSized : IsSized new_server
unfolding Transaction.reset registrations is_registered
new_server-IsSized = (omega arith, (refl, λ r t. omega arith), refl, refl, refl, omega arith)

-- Whatever operations a new server is called with, in whatever order, and whatever it receives,
-- no peer and token is registered twice as an observer, the tables of observers, deferred requests,
-- transactions and Block1 sessions keep their sizes, the resources stay within their table and the
-- next message ID within 16 bits, if the handlers of the application keep this too.
pub reach-IsSized :
    (app : App) (blockwise : Bool) {s : Server}
    → KeepsSized app
    → Reach app blockwise new_server s
    → IsSized s
reach-IsSized app blockwise k run = kept app k blockwise run new_server-IsSized
