-- ===== src/Server/Invariant/Calling.antt =====
-- About the sizes of the arrays under the calls of the application: `respond`, `notify` and
-- `addResource` (src/PulseCoAPServer.cpp).
use pulse_co_ap.Common.{
  ℕ, zero, suc, ◌+◌, ◌≡◌, refl, ap, ◌∙◌, Bool, true, false, not, ◌||◌, Option, none, some, List, [],
  ◌∷◌, leb, ◌==◌, length, get_elem?, set, arith, Bool-cases, Option-cases, inl, inr, length-append,
  leb_false→lt,
}
use pulse_co_ap.Common.Bits.{u8}
use pulse_co_ap.Types.Config.{max_msg_size, max_observers, max_resources}
use pulse_co_ap.Types.Address.{Endpoint}
use pulse_co_ap.Message.Encode.{encode}
use pulse_co_ap.Server.{Resource, Observer, DeferredRequest, Server}
use pulse_co_ap.Server.Resources.{
  find_resource, update_resource, add_resource, new_resource, set_resource_type,
}
use pulse_co_ap.Server.Replies.{bump_id, separate, send_tracked, respond_to, respond}
use pulse_co_ap.Server.Notify.{
  Update, notification, notify_observer, notify_slot, notify_from, notify,
}
use pulse_co_ap.Server.Invariant.Tables.{set-IsTable}
use pulse_co_ap.Server.Invariant.{IsSized}
use pulse_co_ap.Transaction.Bounds.{length-start}
use pulse_co_ap.Server.Invariant.Serving.{release_claim-IsSized, IsSized-if}

bump_id-IsSized : (s : Server) → IsSized s → IsSized (bump_id s)
bump_id-IsSized s w = (w.0, w.1, w.2, w.3, w.4, omega arith)

send_tracked-IsSized :
    (track : Bool) (to : Endpoint) (id : ℕ) (token bytes : List ℕ) (s : Server)
    → IsSized s
    → IsSized (send_tracked track to id token bytes s)
unfolding send_tracked
send_tracked-IsSized true to id token bytes s w =
    (w.0, w.1, w.2, length-start to id token bytes s.last_now_ms s.tx_pool ∙ w.3, w.4, w.5)
send_tracked-IsSized false to id token bytes s w = w

respond_to-IsSized :
    (handle : ℕ) (dr : DeferredRequest) (code : ℕ) (payload : Option (List ℕ)) (format : ℕ)
    (s : Server)
    → IsSized s
    → IsSized (respond_to handle dr code payload format s).0
unfolding respond_to
respond_to-IsSized handle dr code payload format s w =
    let bumped = bump_id-IsSized s w in
    elim (Option-cases (encode max_msg_size (separate dr code payload format s))) [
      | inl e ↦ rw (respond_to, e) (release_claim-IsSized (some handle) (bump_id s) bumped)
      | inr (bytes, e) ↦
          rw (respond_to, e)
            (release_claim-IsSized (some handle) _ (
              send_tracked-IsSized dr.was_confirmable dr.remote s.next_message_id dr.token bytes
                (bump_id s) bumped))
    ]

-- `respond` keeps the size of every array, on every branch.
pub respond-IsSized :
    (handle code : ℕ) (payload : Option (List ℕ)) (format : ℕ) (s : Server)
    → IsSized s
    → IsSized (respond handle code payload format s).0
unfolding respond
respond-IsSized handle code payload format s w = elim (Option-cases (get_elem? s.deferred handle)) [
  | inl e ↦ rw (respond, e) w
  | inr (dr, e) ↦ elim (Bool-cases (not dr.active)) [
    | inl idle ↦ rw (respond, e, idle) w
    | inr busy ↦ rw (respond, e, busy) (respond_to-IsSized handle dr code payload format s w)
  ]
]

notify_observer-IsSized :
    (u : Update) (i : ℕ) (o : Observer) (s : Server)
    → get_elem? s.observers i ≡ some o
    → IsSized s
    → IsSized (notify_observer u i o s)
unfolding notify_observer
notify_observer-IsSized u i o s e w =
    let noted =
      bump_id-IsSized
        (record s {
          observers = set s.observers i (record o { last_sent_message_id = s.next_message_id });
        })
        (w.0, set-IsTable s.next_message_id i o s.observers e w.1, w.2, w.3, w.4, w.5) in
    elim (Option-cases (encode max_msg_size (notification u o s.next_message_id))) [
      | inl long ↦ rw (notify_observer, long) noted
      | inr (bytes, fits) ↦
          rw (notify_observer, fits)
            (send_tracked-IsSized u.confirmable o.remote s.next_message_id o.token bytes _ noted)
    ]

notify_slot-IsSized :
    (u : Update) (idx i : ℕ) (s : Server) → IsSized s → IsSized (notify_slot u idx i s)
unfolding notify_slot
notify_slot-IsSized u idx i s w = elim (Option-cases (get_elem? s.observers i)) [
  | inl e ↦ rw (notify_slot, e) w
  | inr (o, e) ↦
      rw (notify_slot, e)
        (IsSized-if (not o.active || not (o.resource_index == u8 idx)) s _ w
          (notify_observer-IsSized u i o s e w))
]

notify_from-IsSized :
    (u : Update) (idx left i : ℕ) (s : Server) → IsSized s → IsSized (notify_from u idx left i s)
unfolding notify_from
notify_from-IsSized u idx zero i s w = w
notify_from-IsSized u idx (suc left) i s w =
    notify_from-IsSized u idx left (i + 1) (notify_slot u idx i s) (notify_slot-IsSized u idx i s w)

length-update_resource :
    (i : ℕ) (f : Resource → Resource) (rs : List Resource)
    → length (update_resource i f rs) ≡ length rs
unfolding update_resource
length-update_resource i f [] = refl
length-update_resource zero f (r ∷ rs) = refl
length-update_resource (suc i) f (r ∷ rs) = ap suc (length-update_resource i f rs)

-- `notify` keeps the size of every array, however many observers it serves.
pub notify-IsSized :
    (path : List ℕ) (payload : Option (List ℕ)) (format : ℕ) (confirmable : Bool) (s : Server)
    → IsSized s
    → IsSized (notify path payload format confirmable s).0
unfolding notify
notify-IsSized path payload format confirmable s w = elim (Option-cases (find_resource path s)) [
  | inl e ↦ rw (notify, e) w
  | inr ((idx, c), e) ↦ elim (Option-cases (get_elem? s.resources idx)) [
    | inl f ↦ rw (notify, e, f) w
    | inr (r, f) ↦ elim (Bool-cases (not r.observable)) [
      | inl mute ↦ rw (notify, e, f, mute) w
      | inr observed ↦
          rw (notify, e, f, observed)
            (notify_from-IsSized _ idx max_observers 0 _ (
              omega (arith, w.0, length-update_resource idx _ s.resources),
              w.1,
              w.2,
              w.3,
              w.4,
              w.5,
            ))
    ]
  ]
]

-- `addResource` keeps within the table of resources, and leaves the sizes of the other arrays.
pub add_resource-IsSized :
    (path : Option (List ℕ)) (methods handler context : ℕ) (observable : Bool) (s : Server)
    → IsSized s
    → IsSized (add_resource path methods handler context observable s).0
unfolding add_resource
add_resource-IsSized none methods handler context observable s w = w
add_resource-IsSized (some path) methods handler context observable s w =
    elim (Bool-cases (handler == 0)) [
      | inl null ↦ rw (add_resource, null) w
      | inr given ↦ elim (Bool-cases (leb max_resources (length s.resources))) [
        | inl full ↦ rw (add_resource, given, full) w
        | inr room ↦
            rw (add_resource, given, room)
              (
                omega (
                  arith,
                  leb_false→lt _ _ room,
                  length-append s.resources
                      (new_resource path methods handler context observable ∷ []),
                ),
                w.1,
                w.2,
                w.3,
                w.4,
                w.5,
              )
      ]
    ]

pub set_resource_type-IsSized :
    (path : List ℕ) (rt : Option (List ℕ)) (s : Server)
    → IsSized s
    → IsSized (set_resource_type path rt s).0
unfolding set_resource_type
set_resource_type-IsSized path rt s w = elim (Option-cases (find_resource path s)) [
  | inl e ↦ rw (set_resource_type, e) w
  | inr ((i, c), e) ↦
      rw (set_resource_type, e)
        (
          omega (
            arith,
            w.0,
            length-update_resource i (λ r. record r { resource_type = rt }) s.resources,
          ),
          w.1,
          w.2,
          w.3,
          w.4,
          w.5,
        )
]
