-- ===== src/Exchange/Checks.antt =====
-- The theorem on requests at one request and an empty server.
use pulse_co_ap.Common.{ℕ, ◌≡◌, refl, true, false, List, [], ◌∷◌, arith}
use pulse_co_ap.Types.Code
use pulse_co_ap.Types.Address.{Endpoint, unspecified}
use pulse_co_ap.Types.Codes.{is_method_code}
use pulse_co_ap.Message.{Message, addressed, set_token, add_option}
use pulse_co_ap.Message.Content.{add_content}
use pulse_co_ap.Message.Encode.{
  encode, put_options, put_option, put_value, put_bytes, put, put_payload, encode_option_field,
}
use pulse_co_ap.Uri.{
  add_uri_path_options, add_segments, add_segment, skip_slashes, segment, after_segment,
}
use pulse_co_ap.Uri.RoundTrip.{render}
use pulse_co_ap.Client.Requests.{
  ObserveOption, Order, add_observe_option, request_head, request_message,
}
use pulse_co_ap.Client.Requests.Sending.{Reads}
use pulse_co_ap.Client.Methods.{bare_order}
use pulse_co_ap.Server.{new_server, default_response}
use pulse_co_ap.Server.Handle.{App}
use pulse_co_ap.Server.Poll.{receive_datagram}
use pulse_co_ap.Exchange.Requests.{served, path_of, receive_datagram-encode}

abbrev peer : Endpoint
peer = record unspecified { ip = 192 ∷ 168 ∷ 0 ∷ 2 ∷ []; port = 5683 }

abbrev silent : App
silent h context request s = (s, default_response)

abbrev a_b : List (List ℕ)
a_b = (97 ∷ []) ∷ (98 ∷ []) ∷ []

abbrev get_a_b : Order
get_a_b = bare_order peer (render a_b) Code.get true ObserveOption.absent 3 7 false

-- A Confirmable GET of /a/b with message ID 7 and token 9.
abbrev get_bytes : List ℕ
get_bytes = 0x41 ∷ 1 ∷ 0 ∷ 7 ∷ 9 ∷ 0xb1 ∷ 97 ∷ 1 ∷ 98 ∷ []

receive_datagram-encode_example :
    (m : Message) × Reads get_a_b 7 9 m
    × (receive_datagram silent true peer get_bytes new_server
        ≡ served silent true m peer (path_of a_b) new_server)
unfolding is_method_code request_message request_head add_observe_option addressed set_token
    add_uri_path_options add_segments add_segment skip_slashes segment after_segment add_option
    add_content encode put_options put_option put_value put_bytes put put_payload
    encode_option_field
receive_datagram-encode_example =
    receive_datagram-encode silent true peer new_server get_a_b 7 9 a_b get_bytes refl
      ((omega arith, (refl, tt)), ((omega arith, (refl, tt)), tt)) (omega arith) (omega arith)
      (omega arith) refl (omega arith) refl
