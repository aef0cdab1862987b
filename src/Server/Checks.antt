-- ===== src/Server/Checks.antt =====
-- Concrete runs of the server, and the theorems at concrete inputs.
use pulse_co_ap.Common.{
  ℕ, ◌+◌, ◌<◌, ◌≡◌, refl, true, false, ◌&&◌, ◌||◌, Option, none, some, List, [], ◌∷◌, ltb, ◌==◌,
  if◌then◌else◌, length, arith, ◌⊎◌, same,
}
use pulse_co_ap.Types.Config.{max_msg_size, max_link_format_len}
use pulse_co_ap.Types.Codes.{MessageType}
use pulse_co_ap.Common.Texts.{chars}
use pulse_co_ap.Message.Content.Kept.{carried}
use pulse_co_ap.Types.Code
use pulse_co_ap.Types.Address.{Endpoint}
use pulse_co_ap.Message.{Message, blank}
use pulse_co_ap.Message.Decode.{DecodeError, decode}
use pulse_co_ap.Message.Wire.{wire}
use pulse_co_ap.Message.Reads.{IsDecoded}
use pulse_co_ap.Uri.{segment, after_segment}
use pulse_co_ap.Server.{Resource, Observer, DeferredRequest, Server, new_server, default_response}
use pulse_co_ap.Server.Resources.{
  add_resource, Captures, no_captures, match_loop, match_template, capture, put_param,
  find_resource,
}
use pulse_co_ap.Server.Resources.Templates.{pieces, all_match, capture_all, match_template_lem}
use pulse_co_ap.Server.Resources.Templates.Bounds.{FitCaptures, match_template-FitCaptures}
use pulse_co_ap.Server.Resources.Search.{find_resource_exact, none_passes}
use pulse_co_ap.Server.Discovery.{
  build_link_format, link_loop, append_link, append_type, append_obs,
}
use pulse_co_ap.Server.Discovery.Bounds.{build_link_format_bound}
use pulse_co_ap.Server.Observers.{
  is_registered, register_observer, remove_observer, observer_count, note_message_id,
}
use pulse_co_ap.Server.Observers.Registry.{
  same_key, registrations, resource_of, register_observer_lem, IsUnique, remove_observer_lem,
}
use pulse_co_ap.Server.Replies.{
  reply_header, piggybacked, send_piggybacked_response, send_code, respond,
}
use pulse_co_ap.Server.Replies.Answers.{AnswersTo, send_piggybacked_response_lem}
use pulse_co_ap.Server.Replies.Errors.{send_code_lem}
use pulse_co_ap.Server.Replies.Deferrals.{respond_once}
use pulse_co_ap.Server.Handle.{App}
use pulse_co_ap.Server.Poll.{poll, receive_message}
use pulse_co_ap.Server.Poll.Timeouts.{live, rejects, erase_observer, receive_message_rejected}
use pulse_co_ap.Server.Notify.{notify}
use pulse_co_ap.Server.Invariant.{IsSized, KeepsSized}
use pulse_co_ap.Server.Steps.{Step, Reach, reach-IsSized}
use pulse_co_ap.Server.Invariant.Calling.{notify-IsSized}

abbrev client : Endpoint
client = record { v6 = []; is_v6 = false; ip = 192 ∷ 168 ∷ 0 ∷ 2 ∷ []; port = 5683 }

-- A Confirmable GET with message ID 7 and a token of one byte.
abbrev get_7 : Message
get_7 = record blank { code = 1; message_id = 7; token = 9 ∷ [] }

get_7-IsDecoded : IsDecoded get_7
get_7-IsDecoded = record {
  id_fits = omega arith;
  token_fits = omega arith;
  options_fit = omega arith;
  options_ok = tt;
  payload_ok = refl;
}

-- An application whose handlers answer nothing but the default.
abbrev silent : App
silent h context request s = (s, default_response)

abbrev fixed : Resource
fixed = record {
  path = chars "/a/b";
  methods = 1;
  handler = 2;
  user_context = 0;
  observable = true;
  is_template = false;
  observe_sequence = 0;
  resource_type = none;
}

abbrev with_parameter : Resource
with_parameter = record fixed { path = chars "/a/:x"; is_template = true }

abbrev two_resources : Server
two_resources = record new_server { resources = with_parameter ∷ fixed ∷ [] }

abbrev deferred_get : DeferredRequest
deferred_get = record { active = true; remote = client; token = 9 ∷ []; was_confirmable = true }

abbrev waiting : Server
waiting = record new_server { deferred = deferred_get ∷ [] }

abbrev counts : Option Captures → Option (ℕ × ℕ)
counts none = none
counts (some c) = some (c.count, length c.params)

-- Five parameters match, and are counted, where there is room for four.
five_parameters :
    counts (match_template (chars "/:a/:b/:c/:d/:e") (chars "/1/2/3/4/5")) ≡ some (5, 4)
unfolding match_template match_loop segment after_segment capture put_param
five_parameters = refl

match_template_lem_example : match_template (chars "/a/:x") (chars "/a/b") ≡ (
    if all_match (pieces (chars "/a/:x")) (pieces (chars "/a/b"))
    then some (capture_all (pieces (chars "/a/:x")) (pieces (chars "/a/b")) no_captures)
    else none)
match_template_lem_example = match_template_lem (chars "/a/:x") (chars "/a/b")

captured_b :
    match_template (chars "/a/:x") (chars "/a/b")
    ≡ some (record { params = record { name = chars "x"; value = chars "b" } ∷ []; count = 1 })
unfolding match_template match_loop segment after_segment capture put_param same
captured_b = refl

match_template-FitCaptures_example :
    FitCaptures (record { params = record { name = chars "x"; value = chars "b" } ∷ []; count = 1 })
match_template-FitCaptures_example =
    match_template-FitCaptures (chars "/a/:x") (chars "/a/b") _ captured_b

find_resource_exact_example : find_resource (chars "/a/b") two_resources ≡ some (1, no_captures)
find_resource_exact_example =
    find_resource_exact (chars "/a/b") two_resources (with_parameter ∷ []) fixed [] refl
      (unfold none_passes same match_template match_loop segment after_segment in refl)
      (unfold same in refl)

build_link_format_bound_example :
    length (build_link_format two_resources).link_format < max_link_format_len
build_link_format_bound_example = build_link_format_bound two_resources

link_format_text : (build_link_format two_resources).link_format ≡ chars "</a/:x>;obs,</a/b>;obs"
unfolding build_link_format link_loop append_link append_type append_obs same
link_format_text = refl

abbrev registered : List Observer
registered = register_observer 1 client (9 ∷ []) new_server.observers

register_observer_lem_example :
    (registrations client (9 ∷ []) (register_observer 2 client (9 ∷ []) registered) ≡ (
      if registrations client (9 ∷ []) registered == 0
        && (ltb (observer_count registered) (length registered)
            && same_key client (9 ∷ []) client (9 ∷ []))
      then registrations client (9 ∷ []) registered + 1
      else registrations client (9 ∷ []) registered))
    × (resource_of client (9 ∷ []) (register_observer 2 client (9 ∷ []) registered) ≡ (
        if (ltb 0 (registrations client (9 ∷ []) registered)
            || ltb (observer_count registered) (length registered))
          && same_key client (9 ∷ []) client (9 ∷ [])
        then some 2
        else resource_of client (9 ∷ []) registered))
register_observer_lem_example = register_observer_lem 2 client (9 ∷ []) registered client (9 ∷ [])

none_registered : IsUnique new_server.observers
none_registered r t = unfold registrations is_registered in omega arith

remove_observer_lem_example :
    registrations client (9 ∷ []) (remove_observer client (9 ∷ []) registered) ≡ (
      if same_key client (9 ∷ []) client (9 ∷ [])
      then 0
      else registrations client (9 ∷ []) registered)
remove_observer_lem_example = remove_observer_lem client (9 ∷ []) registered client (9 ∷ [])

send_piggybacked_response_lem_example :
    let after =
      send_piggybacked_response get_7 client Code.content (some (1 ∷ [])) 0 none new_server in
    ((max_msg_size
        < length (
            wire
              (piggybacked (reply_header get_7 Code.content new_server).0 (some (1 ∷ [])) 0 none)))
      × (after.sent ≡ []))
    ⊎ ((bytes : List ℕ) × (m : Message) × (after.sent ≡ (client, bytes) ∷ [])
        × (decode bytes ≡ (m, DecodeError.no_error))
        × AnswersTo get_7 Code.content 1 m
        × (m.payload ≡ carried (some (1 ∷ []))))
send_piggybacked_response_lem_example =
    send_piggybacked_response_lem get_7 client Code.content (some (1 ∷ [])) 0 none new_server
      get_7-IsDecoded (omega arith) (omega arith)

send_code_lem_example :
    (bytes : List ℕ) × (m : Message) × ((send_code get_7 client Code.not_found new_server).sent
      ≡ (client, bytes) ∷ [])
    × (decode bytes ≡ (m, DecodeError.no_error))
    × AnswersTo get_7 Code.not_found 1 m
    × (m.payload ≡ none)
send_code_lem_example =
    send_code_lem get_7 client Code.not_found new_server get_7-IsDecoded (omega arith) (omega arith)

respond_once_example :
    respond 0 Code.changed none 0 (respond 0 Code.content (some (1 ∷ [])) 0 waiting).0
    ≡ ((respond 0 Code.content (some (1 ∷ [])) 0 waiting).0, false)
respond_once_example =
    respond_once 0 Code.content Code.changed (some (1 ∷ [])) none 0 0 waiting deferred_get refl refl

abbrev ack_7 : Message
ack_7 = record blank { type = MessageType.acknowledgement; message_id = 7 }

abbrev reset_7 : Message
reset_7 = record blank { type = MessageType.reset; message_id = 7 }

-- A server whose one observer was last notified under message ID 7.
abbrev observed : Server
observed = record new_server { observers = note_message_id client (9 ∷ []) 7 registered }

receive_message_rejected_example :
    let s' = receive_message silent true reset_7 client observed in
    (live s'.observers ≡ erase_observer (rejects client 7) (live observed.observers))
    × (s'.tx_pool ≡ observed.tx_pool)
    × (s'.sent ≡ observed.sent)
receive_message_rejected_example = receive_message_rejected silent true reset_7 client observed refl

-- An application whose handlers notify the observers of /a/b and defer their own response.
abbrev notifying : App
notifying h context request s = (
  (notify (chars "/a/b") (some (1 ∷ [])) 0 true s).0,
  record default_response { deferred = true },
)

notifying-KeepsSized : KeepsSized notifying
notifying-KeepsSized h context request s w =
    notify-IsSized (chars "/a/b") (some (1 ∷ [])) 0 true s w

-- The resource /a/b is added, and a Confirmable GET of it with Observe 0 arrives.
reach-IsSized_example : IsSized (
    poll notifying true 5000
      (some (client, 0x41 ∷ 1 ∷ 0 ∷ 7 ∷ 9 ∷ 0x60 ∷ 0x51 ∷ 97 ∷ 1 ∷ 98 ∷ []))
      (add_resource (some (chars "/a/b")) 1 2 0 true new_server).0)
reach-IsSized_example = reach-IsSized notifying true notifying-KeepsSized (
    Reach.next
      (Reach.next Reach.here (Step.registration (some (chars "/a/b")) 1 2 0 true new_server))
      (Step.polling 5000 (some (client, 0x41 ∷ 1 ∷ 0 ∷ 7 ∷ 9 ∷ 0x60 ∷ 0x51 ∷ 97 ∷ 1 ∷ 98 ∷ []))
        (add_resource (some (chars "/a/b")) 1 2 0 true new_server).0))
