-- ===== src/Message/Checks.antt =====
-- Concrete runs of the codec and of the setters, and the theorems at concrete inputs.
use pulse_co_ap.Common.{
  ℕ, ◌+◌, ◌-◌, ◌*◌, ◌<◌, ◌≡◌, ◌≢◌, refl, none, some, List, [], ◌∷◌, leb, if◌then◌else◌, length,
  arith,
}
use pulse_co_ap.Types.Codes.{MessageType}
use pulse_co_ap.Message.{Message, blank}
use pulse_co_ap.Message.Encode.{
  encode, encode_option_field, put, put_bytes, put_value, put_option, put_options, put_payload,
}
use pulse_co_ap.Message.Decode.{
  stuck, DecodeError, decode, decode_body, decode_options, decode_option, decode_payload,
}
use pulse_co_ap.Message.Wire.{IsWellFormed, wire}
use pulse_co_ap.Message.Emit.{encode-wire}
use pulse_co_ap.Message.RoundTrip.{decode-encode}
use pulse_co_ap.Message.Reads.{Outcome, decode-Outcome}
use pulse_co_ap.Message.Wraps.{decode_wraps}

-- A GET of /ab with Observe, two bytes of token and one of payload.
abbrev get_ab : Message
get_ab = record {
  type = MessageType.confirmable;
  code = 1;
  message_id = 263;
  token = 8 ∷ 9 ∷ [];
  options =
      record { number = 6; length = 0; value = none }
      ∷ record { number = 11; length = 2; value = some (97 ∷ 98 ∷ []) }
      ∷ [];
  last_option_number = 11;
  payload = some (5 ∷ []);
  payload_len = 1;
}

abbrev get_ab_bytes : List ℕ
get_ab_bytes = 66 ∷ 1 ∷ 1 ∷ 7 ∷ 8 ∷ 9 ∷ 96 ∷ 82 ∷ 97 ∷ 98 ∷ 255 ∷ 5 ∷ []

get_ab-IsWellFormed : IsWellFormed get_ab
get_ab-IsWellFormed = record {
  code_fits = omega arith;
  id_fits = omega arith;
  token_fits = omega arith;
  options_fit = omega arith;
  options_ok = (
    record {
      ordered = omega arith;
      number_fits = omega arith;
      length_fits = omega arith;
      sliced = refl;
    },
    (
      record {
        ordered = omega arith;
        number_fits = omega arith;
        length_fits = omega arith;
        sliced = (refl, omega arith);
      },
      tt,
    ),
  );
  payload_ok = (refl, omega arith);
}

encode-get_ab : encode 256 get_ab ≡ some get_ab_bytes
unfolding encode encode_option_field put put_bytes put_value put_option put_options put_payload
encode-get_ab = refl

encode_no_room : encode 11 get_ab ≡ none
unfolding encode encode_option_field put put_bytes put_value put_option put_options put_payload
encode_no_room = refl

-- A token length of 9 is refused, but the type is kept.
decode_long_token :
    decode (0x79 ∷ 1 ∷ 0 ∷ 1 ∷ [])
    ≡ (record blank { type = MessageType.reset }, DecodeError.bad_token_length)
unfolding decode
decode_long_token = refl

decode_no_payload : (decode (0x40 ∷ 1 ∷ 0 ∷ 1 ∷ 255 ∷ [])).1 ≡ DecodeError.empty_payload_marker
unfolding decode decode_body decode_options decode_payload
decode_no_payload = refl

decode_reserved : (decode (0x40 ∷ 1 ∷ 0 ∷ 1 ∷ 0xf0 ∷ 0 ∷ [])).1 ≡ DecodeError.bad_option
unfolding decode decode_body decode_options decode_option
decode_reserved = refl

decode-encode_example :
    decode get_ab_bytes ≡ (record get_ab { last_option_number = 0 }, DecodeError.no_error)
decode-encode_example = decode-encode 256 get_ab get_ab_bytes get_ab-IsWellFormed encode-get_ab

encode-wire_example :
    encode 11 get_ab ≡ (if leb (length (wire get_ab)) 11 then some (wire get_ab) else none)
encode-wire_example = encode-wire 11 get_ab get_ab-IsWellFormed

decode-Outcome_example :
    let bytes : List ℕ = 0x79 ∷ 1 ∷ 0 ∷ 1 ∷ [] in
    (decode_options 4 0 blank bytes ≢ stuck) × Outcome (decode bytes)
decode-Outcome_example = decode-Outcome (0x79 ∷ 1 ∷ 0 ∷ 1 ∷ []) 0 blank (record {
  id_fits = omega arith;
  token_fits = omega arith;
  options_fit = omega arith;
  options_ok = tt;
  payload_ok = refl;
})

decode_wraps_example :
    (decode (64 ∷ 1 ∷ 0 ∷ 5 ∷ 224 ∷ 254 ∷ 242 ∷ 224 ∷ 0 ∷ 7 ∷ []) ≡ (
      record blank {
        code = 1;
        message_id = 0 * 256 + 5;
        options =
            record { number = 269 + (254 * 256 + 242); length = 0; value = none }
            ∷ record {
              number = 269 + (254 * 256 + 242) + (269 + (0 * 256 + 7)) - 65536;
              length = 0;
              value = none;
            }
            ∷ [];
      },
      DecodeError.no_error,
    ))
    × (269 + (254 * 256 + 242) + (269 + (0 * 256 + 7)) - 65536 < 269 + (254 * 256 + 242))
decode_wraps_example =
    decode_wraps 1 0 5 254 242 0 7 (omega arith) (omega arith) (omega arith) (omega arith)
      (omega arith)
