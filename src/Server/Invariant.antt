-- ===== src/Server/Invariant.antt =====
-- The sizes of the arrays of a server, and its table of observers (src/PulseCoAPServer.h).
pub mod Lengths
pub mod Tables
pub mod Serving
pub mod Polling
pub mod Calling
use pulse_co_ap.Common.{ℕ, ◌≡◌, ◌≤◌, List, length}
use pulse_co_ap.Common.Bits.{IsU16}
use pulse_co_ap.Types.Config.{
  max_resources, max_transactions, max_observers, max_deferred, max_block1_sessions,
}
use pulse_co_ap.Server.{Observer, Server, Response, Request}
use pulse_co_ap.Server.Observers.Registry.{IsUnique}
use pulse_co_ap.Server.Handle.{App}

-- The table of observers has its size, and holds no peer and token twice.
abbrev pub IsTable : List Observer → Type 0
IsTable os = (length os ≡ max_observers) × IsUnique os

-- Every array has the size it was declared with, no registration is held twice, and the next
-- message ID has 16 bits.
abbrev pub IsSized : Server → Type 0
IsSized s =
    (length s.resources ≤ max_resources)
    × IsTable s.observers
    × (length s.deferred ≡ max_deferred)
    × (length s.tx_pool ≡ max_transactions)
    × (length s.block1_sessions ≡ max_block1_sessions)
    × IsU16 s.next_message_id

-- The handlers of the application call nothing but operations of the server.
abbrev pub KeepsSized : App → Type 0
KeepsSized app =
    (h context : ℕ) (request : Request) (s : Server)
    → IsSized s
    → IsSized (app h context request s).0
