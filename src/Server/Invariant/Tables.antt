-- ===== src/Server/Invariant/Tables.antt =====
-- About the table of observers under the operations on it (src/PulseCoAPServer.cpp).
use pulse_co_ap.Common.{
  ℕ, zero, suc, ◌≤◌, ◌≡◌, refl, ◌∙◌, some, false, List, [], ◌∷◌, get_elem?, set, arith, length-set,
  subst,
}
use mathlib.Core.Option.{some-injective}
use pulse_co_ap.Types.Address.{Endpoint}
use pulse_co_ap.Server.{Observer}
use pulse_co_ap.Server.Observers.{
  is_registered, register_observer, remove_observer, note_message_id, drop_rejected,
}
use pulse_co_ap.Server.Observers.Registry.{
  registrations, register_observer-IsUnique, remove_observer_lem,
}
use pulse_co_ap.Server.Invariant.{IsTable}
use pulse_co_ap.Server.Invariant.Lengths.{
  length-register_observer, length-remove_observer, length-note_message_id, length-drop_rejected,
}

-- A note of a message ID is no matter of registration.
registrations-noted :
    (r : Endpoint) (t : List ℕ) (id : ℕ) (o : Observer)
    → is_registered r t (record o { last_sent_message_id = id }) ≡ is_registered r t o
unfolding is_registered
registrations-noted r t id o = refl

registrations-set :
    (r : Endpoint) (t : List ℕ) (id i : ℕ) (o : Observer) (os : List Observer)
    → get_elem? os i ≡ some o
    → registrations r t (set os i (record o { last_sent_message_id = id })) ≡ registrations r t os
unfolding registrations is_registered
registrations-set r t id i o [] e = refl
registrations-set r t id zero o (x ∷ os) e =
    subst
      (λ (y : Observer).
        registrations r t (record y { last_sent_message_id = id } ∷ os)
        ≡ registrations r t (x ∷ os))
      (some-injective x o e) refl
registrations-set r t id (suc i) o (x ∷ os) e = rw (registrations-set r t id i o os e) refl

registrations-note_message_id :
    (r : Endpoint) (t : List ℕ) (r' : Endpoint) (t' : List ℕ) (id : ℕ) (os : List Observer)
    → registrations r t (note_message_id r' t' id os) ≡ registrations r t os
unfolding registrations note_message_id
registrations-note_message_id r t r' t' id [] = refl
registrations-note_message_id r t r' t' id (o ∷ os) =
    ground (arith, registrations-note_message_id r t r' t' id os, registrations-noted r t id o)

unregistered :
    (r : Endpoint) (t : List ℕ) (o : Observer)
    → is_registered r t (record o { active = false }) ≡ false
unfolding is_registered
unregistered r t o = refl

registrations-drop_rejected :
    (r : Endpoint) (t : List ℕ) (from : Endpoint) (id : ℕ) (os : List Observer)
    → registrations r t (drop_rejected from id os) ≤ registrations r t os
unfolding registrations drop_rejected
registrations-drop_rejected r t from id [] = omega arith
registrations-drop_rejected r t from id (o ∷ os) =
    ground (arith, registrations-drop_rejected r t from id os, unregistered r t o)

pub set-IsTable :
    (id i : ℕ) (o : Observer) (os : List Observer)
    → get_elem? os i ≡ some o
    → IsTable os
    → IsTable (set os i (record o { last_sent_message_id = id }))
set-IsTable id i o os e w =
    (length-set os i _ ∙ w.0, λ r t. omega (arith, registrations-set r t id i o os e, w.1 r t))

pub register_observer-IsTable :
    (idx : ℕ) (r : Endpoint) (t : List ℕ) (os : List Observer)
    → IsTable os
    → IsTable (register_observer idx r t os)
register_observer-IsTable idx r t os w =
    (length-register_observer idx r t os ∙ w.0, register_observer-IsUnique idx r t os w.1)

pub remove_observer-IsTable :
    (r : Endpoint) (t : List ℕ) (os : List Observer) → IsTable os → IsTable (remove_observer r t os)
remove_observer-IsTable r t os w = (
  length-remove_observer r t os ∙ w.0,
  λ r' t'. ground (arith, remove_observer_lem r t os r' t', w.1 r' t'),
)

pub note_message_id-IsTable :
    (r : Endpoint) (t : List ℕ) (id : ℕ) (os : List Observer)
    → IsTable os
    → IsTable (note_message_id r t id os)
note_message_id-IsTable r t id os w = (
  length-note_message_id r t id os ∙ w.0,
  λ r' t'. omega (arith, registrations-note_message_id r' t' r t id os, w.1 r' t'),
)

pub drop_rejected-IsTable :
    (from : Endpoint) (id : ℕ) (os : List Observer)
    → IsTable os
    → IsTable (drop_rejected from id os)
drop_rejected-IsTable from id os w = (
  length-drop_rejected from id os ∙ w.0,
  λ r t. omega (arith, registrations-drop_rejected r t from id os, w.1 r t),
)
