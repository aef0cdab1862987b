-- ===== src/Server/Notify.antt =====
-- `Server::notify` of src/PulseCoAPServer.cpp, with the loop over the observers.
use pulse_co_ap.Common.{
  ℕ, zero, suc, ◌+◌, Bool, true, false, not, ◌||◌, Option, none, some, List, ◌==◌, if◌then◌else◌,
  length, get_elem?, set,
}
use pulse_co_ap.Common.Bits.{u8, u32}
use pulse_co_ap.Types.Config.{max_msg_size, max_observers}
use pulse_co_ap.Types.Codes.{MessageType}
use pulse_co_ap.Types.Code
use pulse_co_ap.Types.OptionNumber
use pulse_co_ap.Message.{Message, addressed, add_option_uint, set_payload}
use pulse_co_ap.Message.Encode.{encode}
use pulse_co_ap.Server.{Observer, Server}
use pulse_co_ap.Server.Resources.{find_resource, update_resource}
use pulse_co_ap.Server.Replies.{bump_id, send_tracked}

-- What `notify` was called with: the sequence number, the payload, its format and reliability.
pub record Update : Type 0 where
  pub sequence : ℕ
  pub payload : Option (List ℕ)
  pub format : ℕ
  pub confirmable : Bool

abbrev pub payload_length : Option (List ℕ) → ℕ
payload_length none = 0
payload_length (some bytes) = length bytes

unfoldable pub notification : Update → Observer → ℕ → Message
notification u o id =
    let header =
      addressed (if u.confirmable then MessageType.confirmable else MessageType.non_confirmable) id
        o.token Code.content in
    set_payload u.payload (payload_length u.payload)
      (add_option_uint OptionNumber.content_format u.format
        (add_option_uint OptionNumber.observe u.sequence header).0).0

-- The body of the loop for an observer of the resource, in slot `i`.
unfoldable pub notify_observer : Update → ℕ → Observer → Server → Server
notify_observer u i o s =
    let id = s.next_message_id in
    let noted =
      bump_id
        (record s { observers = set s.observers i (record o { last_sent_message_id = id }) }) in
    elim (encode max_msg_size (notification u o id)) [
      | none ↦ noted
      | some bytes ↦ send_tracked u.confirmable o.remote id o.token bytes noted
    ]

unfoldable pub notify_slot : Update → ℕ → ℕ → Server → Server
notify_slot u idx i s = elim (get_elem? s.observers i) [
  | none ↦ s
  | some o ↦ if not o.active || not (o.resource_index == u8 idx) then s else notify_observer u i o s
]

unfoldable pub notify_from : Update → ℕ → ℕ → ℕ → Server → Server
notify_from u idx zero i s = s
notify_from u idx (suc left) i s = notify_from u idx left (i + 1) (notify_slot u idx i s)

unfoldable pub notify : List ℕ → Option (List ℕ) → ℕ → Bool → Server → Server × Bool
notify path payload format confirmable s = elim (find_resource path s) [
  | none ↦ (s, false)
  | some (idx, c) ↦ elim (get_elem? s.resources idx) [
    | none ↦ (s, false)
    | some r ↦
        if not r.observable
        then (s, false)
        else let sequence = u32 (r.observe_sequence + 1) in
          let counted = record s {
            resources =
                update_resource idx (λ r. record r { observe_sequence = sequence }) s.resources;
          } in
          let u : Update = record {
            sequence = sequence;
            payload = payload;
            format = format;
            confirmable = confirmable;
          } in
          (notify_from u idx max_observers 0 counted, true)
  ]
]
