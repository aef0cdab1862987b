-- ===== src/Message/Wraps.antt =====
-- About option numbers in `decode` that wrap around (src/PulseCoAPMessage.cpp).
use pulse_co_ap.Common.{ℕ, ◌+◌, ◌-◌, ◌*◌, ◌≤◌, ◌<◌, ◌≡◌, refl, none, [], ◌∷◌, arith}
use pulse_co_ap.Common.Bits.{u16}
use pulse_co_ap.Message.{CoapOption, blank}
use pulse_co_ap.Message.Decode.{
  DecodeError, decode_option_field, two_extended, store_option, decode_option, decode_options,
  decode_body, decode,
}

abbrev empty_option : ℕ → CoapOption
empty_option n = record { number = n; length = 0; value = none }

-- Option numbers are summed modulo 2^16: in a message with no token and two empty options, whose
-- two-byte deltas `x` and `y` sum to 65536 or more, the second is not refused. It gets the
-- number `x + y - 65536`, below that of the first.
pub decode_wraps :
    (code i j a b c d : ℕ)
    → i < 256
    → j < 256
    → let x = 269 + (a * 256 + b) in
      let y = 269 + (c * 256 + d) in
      x < 65536
      → y < 65536
      → 65536 ≤ x + y
      → (decode (64 ∷ code ∷ i ∷ j ∷ 224 ∷ a ∷ b ∷ 224 ∷ c ∷ d ∷ []) ≡ (
        record blank {
          code = code;
          message_id = i * 256 + j;
          options = empty_option x ∷ empty_option (x + y - 65536) ∷ [];
        },
        DecodeError.no_error,
      ))
        × (x + y - 65536 < x)
unfolding decode decode_body decode_options decode_option decode_option_field two_extended
    store_option
decode_wraps code i j a b c d hi hj p q r = (rw (e0, e1, e2) refl, omega arith)
  where
    e0 : u16 (i * 256 + j) ≡ i * 256 + j
    e0 = omega arith

    e1 : u16 (0 + u16 (269 + (a * 256 + b))) ≡ 269 + (a * 256 + b)
    e1 = omega arith

    e2 :
        u16 (269 + (a * 256 + b) + u16 (269 + (c * 256 + d)))
        ≡ 269 + (a * 256 + b) + (269 + (c * 256 + d)) - 65536
    e2 = omega arith
