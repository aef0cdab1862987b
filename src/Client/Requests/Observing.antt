-- ===== src/Client/Requests/Observing.antt =====
-- About the Observe option of a request (src/PulseCoAPClient.cpp).
use pulse_co_ap.Common.{
  ℕ, ◌≡◌, refl, ap, ◌∙◌, Bool, false, Option, none, some, List, [], ◌∷◌, ◌++◌, ltb, leb, ◌==◌, ◌&&◌,
  length, arith, if_both, subst,
}
use mathlib.Core.Option
use pulse_co_ap.Types.Config.{max_options}
use pulse_co_ap.Types.OptionNumber
use pulse_co_ap.Message.{
  CoapOption, Message, addressed, set_token, new_option, add_option, add_option_uint, uint_bytes,
  find_in, find_option, option_as_uint, set_payload,
}
use pulse_co_ap.Message.Content.{add_content}
use pulse_co_ap.Uri.{add_segment}
use pulse_co_ap.Uri.Segments.{add_all, segments, add_uri_path_options-segments}
use pulse_co_ap.Client.Requests.{
  ObserveOption, Order, add_observe_option, request_type, request_head, request_message,
}

-- What a server reads of the Observe option of a message; `none` where there is none.
abbrev pub observe_of : Message → Option ℕ
observe_of m = Option.map option_as_uint (find_option OptionNumber.observe m)

-- The value of RFC 7641 that an order stands for.
abbrev pub observe_value : ObserveOption → Option ℕ
observe_value ObserveOption.absent = none
observe_value ObserveOption.register = some 0
observe_value ObserveOption.deregister = some 1

-- The first Observe option is the same.
abbrev AsObserving : Message → Message → Type 0
AsObserving m m' = find_option OptionNumber.observe m' ≡ find_option OptionNumber.observe m

find_in-append :
    (number : ℕ) (o : CoapOption) (os : List CoapOption)
    → (o.number == number) ≡ false
    → find_in number (os ++ (o ∷ [])) ≡ find_in number os
unfolding find_in
find_in-append number o [] h = rw h refl
find_in-append number o (x ∷ os) h = rw (find_in-append number o os h) refl

add_option-AsObserving :
    (number len : ℕ) (v : Option (List ℕ)) (m : Message)
    → (number == OptionNumber.observe) ≡ false
    → AsObserving m (add_option number v len m).0
unfolding add_option find_option
add_option-AsObserving number len v m h =
    if_both (λ (r : Message × Bool). AsObserving m r.0) (leb max_options (length m.options)) refl
      (if_both (λ (r : Message × Bool). AsObserving m r.0)
        (ltb 0 (length m.options) && ltb number m.last_option_number) refl
        (find_in-append OptionNumber.observe (new_option number v len) m.options h))

add_content-AsObserving :
    (payload : Option (List ℕ)) (format : ℕ) (m : Message)
    → AsObserving m (add_content payload format m)
unfolding add_content set_payload add_option_uint find_option
add_content-AsObserving none format m = refl
add_content-AsObserving (some []) format m = refl
add_content-AsObserving (some (b ∷ bs)) format m =
    if_both (λ (r : Message × Bool). AsObserving m r.0) (leb max_options (length m.options)) refl
      (add_option-AsObserving OptionNumber.content_format (length (uint_bytes format)) _ m refl)

add_all-AsObserving : (segs : List (List ℕ)) (m : Message) → AsObserving m (add_all segs m).0
unfolding add_all add_segment
add_all-AsObserving [] m = refl
add_all-AsObserving (seg ∷ segs) m =
    let first : AsObserving m (add_segment seg seg m).0 =
      add_option-AsObserving OptionNumber.uri_path _ (some seg) m refl in
    if_both (λ (r : Message × Bool). AsObserving m r.0) (add_segment seg seg m).1
      (add_all-AsObserving segs (add_segment seg seg m).0 ∙ first) first

observe_of-add_observe_option :
    (o : ObserveOption) (o' : Order) (id token : ℕ)
    → observe_of
        (add_observe_option o (addressed (request_type o'.confirmable) id (token ∷ []) o'.method))
      ≡ observe_value o
unfolding find_option find_in add_observe_option addressed set_token add_option_uint add_option
    uint_bytes option_as_uint
observe_of-add_observe_option ObserveOption.absent o' id token = refl
observe_of-add_observe_option ObserveOption.register o' id token = refl
observe_of-add_observe_option ObserveOption.deregister o' id token = refl

observe_of-AsObserving : (m m' : Message) → AsObserving m m' → observe_of m' ≡ observe_of m
observe_of-AsObserving m m' h = ap (Option.map option_as_uint) h

-- The message of a request has the Observe option of its order.
observe_of-request_message :
    (o : Order) (id token : ℕ) (m : Message)
    → request_message o id token ≡ some m
    → observe_of m ≡ observe_value o.observe
unfolding request_message request_head
observe_of-request_message o id token m e =
    let start =
      add_observe_option o.observe
        (addressed (request_type o.confirmable) id (token ∷ []) o.method) in
    let head = (request_head o id token).0 in
    let path : AsObserving start head =
      rw (add_uri_path_options-segments o.path start)
        (add_all-AsObserving (segments o.path) start) in
    let done : add_content o.payload o.content_format head ≡ m = ground arith in
    subst (λ m'. observe_of m' ≡ observe_value o.observe) done
      (observe_of-AsObserving head _ (add_content-AsObserving o.payload o.content_format head)
        ∙ observe_of-AsObserving start head path
        ∙ observe_of-add_observe_option o.observe o id token)

-- So has what is decoded, which starts without a last option number.
pub observe_of_read :
    (o : Order) (id token : ℕ) (m : Message)
    → request_message o id token ≡ some m
    → observe_of (record m { last_option_number = 0 }) ≡ observe_value o.observe
unfolding find_option
observe_of_read = observe_of-request_message
