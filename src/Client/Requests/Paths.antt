-- ===== src/Client/Requests/Paths.antt =====
-- About the path of a request, from the order of the application to what a server reads
-- (src/PulseCoAPClient.cpp and src/PulseCoAPUri.h).
use pulse_co_ap.Common.{
  ℕ, ◌≤◌, ◌<◌, ◌≡◌, refl, sym, ap, ◌∙◌, Bool, true, false, Option, none, some, List, [], ◌∷◌, ◌++◌,
  ◌==◌, if◌then◌else◌, length, All, arith, if_both, ltb, ◌&&◌, append-nil, append_assoc, leb,
}
use pulse_co_ap.Types.Config.{max_options, max_uri_path_len}
use pulse_co_ap.Types.OptionNumber
use pulse_co_ap.Message.{
  CoapOption, Message, addressed, set_token, add_option, add_option_uint, new_option, set_payload,
}
use pulse_co_ap.Message.Content.{add_content}
use pulse_co_ap.Uri.{slash, add_uri_path_options, join_uri_path}
use pulse_co_ap.Uri.RoundTrip.{
  IsSegment, render, uri_option, with_path, with_path-options, HasNoPath,
  add_uri_path_options-render, join_uri_path_around,
}
use pulse_co_ap.Client.Requests.{
  ObserveOption, Order, add_observe_option, request_type, request_head, request_message,
}
use mathlib.Core.List.{map}

-- A message with some more options, none of them of a path and not more than `n`.
abbrev Extends : ℕ → Message → Message → Type 0
Extends n m m' =
    (post : List CoapOption) × HasNoPath post × (length post ≤ n) × (m'.options ≡ m.options ++ post)

add_option-Extends :
    (number len : ℕ) (v : Option (List ℕ)) (m : Message)
    → (number == OptionNumber.uri_path) ≡ false
    → Extends 1 m (add_option number v len m).0
unfolding add_option
add_option-Extends number len v m h =
    let refused : Extends 1 m m = ([], tt, omega arith, sym (append-nil m.options)) in
    if_both (λ (r : Message × Bool). Extends 1 m r.0) (leb max_options (length m.options)) refused
      (if_both (λ (r : Message × Bool). Extends 1 m r.0)
        (ltb 0 (length m.options) && ltb number m.last_option_number) refused
        (new_option number v len ∷ [], (h, tt), omega arith, refl))

add_option_uint-Extends :
    (number v : ℕ) (m : Message)
    → (number == OptionNumber.uri_path) ≡ false
    → Extends 1 m (add_option_uint number v m).0
unfolding add_option_uint
add_option_uint-Extends number v m h =
    if_both (λ (r : Message × Bool). Extends 1 m r.0) (leb max_options (length m.options))
      ([], tt, omega arith, sym (append-nil m.options)) (add_option-Extends number _ _ m h)

add_content-Extends :
    (payload : Option (List ℕ)) (format : ℕ) (m : Message)
    → Extends 1 m (add_content payload format m)
unfolding add_content set_payload
add_content-Extends none format m = ([], tt, omega arith, sym (append-nil m.options))
add_content-Extends (some []) format m = ([], tt, omega arith, sym (append-nil m.options))
add_content-Extends (some (b ∷ bs)) format m =
    add_option_uint-Extends OptionNumber.content_format format m refl

add_observe_option-Extends :
    (observe : ObserveOption) (m : Message) → Extends 1 m (add_observe_option observe m)
unfolding add_observe_option
add_observe_option-Extends ObserveOption.absent m =
    ([], tt, omega arith, sym (append-nil m.options))
add_observe_option-Extends ObserveOption.register m =
    add_option_uint-Extends OptionNumber.observe OptionNumber.observe_register m refl
add_observe_option-Extends ObserveOption.deregister m =
    add_option_uint-Extends OptionNumber.observe OptionNumber.observe_deregister m refl

add_option_uint_order :
    (number v : ℕ) (m : Message)
    → number ≤ OptionNumber.uri_path
    → m.last_option_number ≤ OptionNumber.uri_path
    → (add_option_uint number v m).0.last_option_number ≤ OptionNumber.uri_path
unfolding add_option_uint add_option
add_option_uint_order number v m h k =
    let Low : Message × Bool → Type 0 = λ r. r.0.last_option_number ≤ OptionNumber.uri_path in
    if_both Low (leb max_options (length m.options)) k (
      if_both Low (leb max_options (length m.options)) k
        (if_both Low (ltb 0 (length m.options) && ltb number m.last_option_number) k h))

observed_order :
    (observe : ObserveOption) (m : Message)
    → m.last_option_number ≤ OptionNumber.uri_path
    → (add_observe_option observe m).last_option_number ≤ OptionNumber.uri_path
unfolding add_observe_option
observed_order ObserveOption.absent m h = h
observed_order ObserveOption.register m h =
    add_option_uint_order OptionNumber.observe _ m (omega arith) h
observed_order ObserveOption.deregister m h =
    add_option_uint_order OptionNumber.observe _ m (omega arith) h

-- A request for a path of at most 15 segments that fits the client's buffer has a message, and
-- from it a server joins the very path that the application gave; a path with no segment comes back
-- as "/".
pub join_uri_path-request_message :
    (o : Order) (id token : ℕ) (segs : List (List ℕ))
    → o.path ≡ render segs
    → All IsSegment segs
    → length segs < max_options
    → length (render segs) < max_uri_path_len
    → (m : Message) × (request_message o id token ≡ some m)
      × (join_uri_path max_uri_path_len m
          ≡ some (if length segs == 0 then slash ∷ [] else render segs))
unfolding request_message request_head addressed set_token
join_uri_path-request_message o id token segs e w room short =
    let start = addressed (request_type o.confirmable) id (token ∷ []) o.method in
    let observed = add_observe_option o.observe start in
    let (pre, before, few, pres) = add_observe_option-Extends o.observe start in
    let count : length observed.options ≡ length pre = ap (length {A = CoapOption}) pres in
    let whole : add_uri_path_options (some o.path) observed ≡ (with_path segs observed, true) =
      rw e (
        add_uri_path_options-render segs observed w (omega arith) (omega (arith, count))
          (observed_order o.observe start (omega arith))) in
    let (post, behind, less, posts) =
      add_content-Extends o.payload o.content_format (with_path segs observed) in
    (
      add_content o.payload o.content_format (with_path segs observed),
      rw whole refl,
      join_uri_path_around max_uri_path_len segs pre post _
          (posts
            ∙ ap (λ os. os ++ post)
                (with_path-options segs observed ∙ ap (λ os. os ++ map uri_option segs) pres)
            ∙ append_assoc pre (map uri_option segs) post)
          before behind short (omega arith),
    )
