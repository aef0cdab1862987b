-- ===== src/Server/Poll/Timeouts.antt =====
-- About the pool of the server in `poll` (src/PulseCoAPServer.cpp).
use pulse_co_ap.Common.{
  ℕ, ◌≡◌, refl, Bool, none, length, List, [], ◌∷◌, arith, ◌&&◌, ◌==◌, if◌then◌else◌,
}
use pulse_co_ap.Types.Config.{max_transactions}
use pulse_co_ap.Types.Codes.{MessageType}
use pulse_co_ap.Types.Address.{Endpoint, endpoint_eq}
use pulse_co_ap.Message.{Message}
use pulse_co_ap.Transaction.{answers}
use pulse_co_ap.Transaction.Slots.{in_flight, erase_first, complete-in_flight}
use pulse_co_ap.Transaction.Ticks.{HostLaws, ticked, pool-tick}
use pulse_co_ap.Server.{Observer, Server}
use pulse_co_ap.Server.Observers.{drop_rejected}
use pulse_co_ap.Server.Handle.{App}
use pulse_co_ap.Server.Poll.{server_host, receive_message, poll}
use mathlib.Core.List.{map}

-- The callbacks of the server leave its pool alone.
server_host-HostLaws : HostLaws server_host
server_host-HostLaws = record {
  pool-with_pool = λ s slots. refl;
  pool-resend = λ s to message. refl;
  pool-on_timeout = λ s to token. refl;
}

-- A poll with no datagram waiting advances every slot of a pool of MAX_TRANSACTIONS slots once,
-- although the callbacks run in the middle of the loop.
poll_idle :
    (app : App) (blockwise : Bool) (now : ℕ) (s : Server)
    → length s.tx_pool ≡ max_transactions
    → (poll app blockwise now none s).tx_pool ≡ map (ticked now) s.tx_pool
unfolding poll
poll_idle app blockwise now s h =
    pool-tick server_host server_host-HostLaws now (record s { last_now_ms = now }) h

-- The observers that are registered.
unfoldable pub live : List Observer → List Observer
live [] = []
live (o ∷ os) = if o.active then o ∷ live os else live os

-- What a Reset rejects: the notification that this peer was sent last, by its message ID.
unfoldable pub rejects : Endpoint → ℕ → Observer → Bool
rejects from id o = endpoint_eq o.remote from && (o.last_sent_message_id == id)

-- A list without its first entry that passes the test.
unfoldable pub erase_observer : (Observer → Bool) → List Observer → List Observer
erase_observer test [] = []
erase_observer test (o ∷ os) = if test o then os else o ∷ erase_observer test os

live-drop_rejected :
    (from : Endpoint) (id : ℕ) (os : List Observer)
    → live (drop_rejected from id os) ≡ erase_observer (rejects from id) (live os)
unfolding drop_rejected live erase_observer rejects
live-drop_rejected from id [] = refl
live-drop_rejected from id (o ∷ os) = ground (arith, live-drop_rejected from id os)

module _ (app : App) (blockwise : Bool) (msg : Message) (from : Endpoint) (s : Server) where
  -- An ACK takes the first transaction in flight with its sender and message ID away, changes no
  -- other, and leaves the observers.
  receive_message_acknowledged :
      msg.type ≡ MessageType.acknowledgement
      → (in_flight (receive_message app blockwise msg from s).tx_pool
          ≡ erase_first (answers from msg.message_id) (in_flight s.tx_pool))
        × ((receive_message app blockwise msg from s).observers ≡ s.observers)
  unfolding receive_message
  receive_message_acknowledged a = rw a ((complete-in_flight from msg.message_id s.tx_pool).0, refl)

  -- A Reset takes the first observer away whose peer is its sender and whose last notification
  -- has its message ID, and keeps every other; the whole pool stays as it was, a transaction that
  -- is rejected included, and nothing is sent.
  pub receive_message_rejected :
      msg.type ≡ MessageType.reset
      → (live (receive_message app blockwise msg from s).observers
          ≡ erase_observer (rejects from msg.message_id) (live s.observers))
        × ((receive_message app blockwise msg from s).tx_pool ≡ s.tx_pool)
        × ((receive_message app blockwise msg from s).sent ≡ s.sent)
  unfolding receive_message
  receive_message_rejected r = rw r (live-drop_rejected from msg.message_id s.observers, refl, refl)
