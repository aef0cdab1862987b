-- ===== src/Client/Methods/Subscriptions.antt =====
-- About `cancelObserve` (src/PulseCoAPClient.cpp).
use pulse_co_ap.Common.{
  ℕ, ◌+◌, ◌≡◌, true, false, Option, none, some, List, [], ◌∷◌, if◌then◌else◌, modify, ◌⊎◌,
}
use pulse_co_ap.Types.Code
use pulse_co_ap.Types.Address.{Endpoint}
use pulse_co_ap.Client.{PendingRequest, Client}
use pulse_co_ap.Client.Slots.{closed}
use pulse_co_ap.Client.Requests.{ObserveOption, Order}
use pulse_co_ap.Client.Methods.{bare_order, observes}

-- The subscriptions of a path of a server.
unfoldable pub subscriptions : Endpoint → List ℕ → List PendingRequest → List PendingRequest
subscriptions server path [] = []
subscriptions server path (p ∷ ps) =
    if observes server path p
    then p ∷ subscriptions server path ps
    else subscriptions server path ps

abbrev pub FoundObserve :
    Endpoint → List ℕ → ℕ → List PendingRequest → Option (ℕ × PendingRequest) → Type 0
FoundObserve server path i ps r =
    ((subscriptions server path ps ≡ []) × (r ≡ none))
    ⊎ ((k : ℕ) × (p : PendingRequest) × (r ≡ some (i + k, p))
        × (subscriptions server path ps ≡ p ∷ subscriptions server path (modify k closed ps)))

-- The deregistration of a subscription: a Confirmable GET with Observe 1, whose answer goes to the
-- callback of the subscription.
abbrev pub deregistration : PendingRequest → Endpoint → List ℕ → Order
deregistration p server path =
    bare_order server path Code.get true ObserveOption.deregister p.on_response p.user_context false
