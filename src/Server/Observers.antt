-- ===== src/Server/Observers.antt =====
-- The registration of observers (RFC 7641) in src/PulseCoAPServer.cpp.
pub mod Registry
use pulse_co_ap.Common.{
  ℕ, ◌+◌, Bool, true, false, not, ◌&&◌, Option, none, some, List, [], ◌∷◌, ◌==◌, if◌then◌else◌,
  same,
}
use pulse_co_ap.Types.Address.{Endpoint, endpoint_eq}
use pulse_co_ap.Message.{Message}
use pulse_co_ap.Server.{Observer, Server}

-- The test on an observer for its peer and its token.
unfoldable pub is_registered : Endpoint → List ℕ → Observer → Bool
is_registered remote token o = o.active && (endpoint_eq o.remote remote && same o.token token)

-- The first loop of `registerObserver`: `none` where no registration is found.
unfoldable pub refresh : ℕ → Endpoint → List ℕ → List Observer → Option (List Observer)
refresh idx remote token [] = none
refresh idx remote token (o ∷ os) =
    let later = refresh idx remote token os in
    if is_registered remote token o
    then some (record o { resource_index = idx } ∷ os)
    else elim later [ none ↦ none | some os' ↦ some (o ∷ os') ]

-- The second loop: a full table stays as it is.
unfoldable pub enrol : ℕ → Endpoint → List ℕ → List Observer → List Observer
enrol idx remote token [] = []
enrol idx remote token (o ∷ os) =
    if not o.active
    then record o { active = true; resource_index = idx; remote = remote; token = token } ∷ os
    else o ∷ enrol idx remote token os

unfoldable pub register_observer : ℕ → Endpoint → List ℕ → List Observer → List Observer
register_observer idx remote token os = elim (refresh idx remote token os) [
  | some os' ↦ os'
  | none ↦ enrol idx remote token os
]

unfoldable pub remove_observer : Endpoint → List ℕ → List Observer → List Observer
remove_observer remote token [] = []
remove_observer remote token (o ∷ os) =
    (if is_registered remote token o then record o { active = false } else o)
    ∷ remove_observer remote token os

unfoldable pub observer_count : List Observer → ℕ
observer_count [] = 0
observer_count (o ∷ os) = if o.active then observer_count os + 1 else observer_count os

-- The loop of `handleRequest` that notes the message ID with the new registration.
unfoldable pub note_message_id : Endpoint → List ℕ → ℕ → List Observer → List Observer
note_message_id remote token id [] = []
note_message_id remote token id (o ∷ os) =
    if is_registered remote token o
    then record o { last_sent_message_id = id } ∷ os
    else o ∷ note_message_id remote token id os

-- The loop of `poll` on a Reset: the first observer that was last sent this message ID is dropped.
unfoldable pub drop_rejected : Endpoint → ℕ → List Observer → List Observer
drop_rejected remote id [] = []
drop_rejected remote id (o ∷ os) =
    if o.active && (endpoint_eq o.remote remote && (o.last_sent_message_id == id))
    then record o { active = false } ∷ os
    else o ∷ drop_rejected remote id os
