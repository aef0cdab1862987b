-- ===== src/Message/Wire.antt =====
-- The wire format of a message as one list (RFC 7252, section 3), which `encode` is to write and
-- `decode` to read, and the messages that it can hold.
use pulse_co_ap.Common.{
  ℕ, ◌+◌, ◌-◌, ◌*◌, ◌/◌, ◌%◌, ◌≤◌, ◌<◌, ◌≡◌, Option, none, some, List, [], ◌∷◌, ◌++◌, ltb,
  if◌then◌else◌, length,
}
use pulse_co_ap.Common.Bits.{IsByte, IsU16}
use pulse_co_ap.Types.Config.{max_token_len, max_options}
use pulse_co_ap.Types.Codes.{type_bits}
use pulse_co_ap.Message.{CoapOption, Message, bytes_of}

-- The length that is kept with a pointer is that of its bytes, and it is null if that is 0.
abbrev pub IsSlice : ℕ → Option (List ℕ) → Type 0
IsSlice len none = len ≡ 0
IsSlice len (some bytes) = (len ≡ length bytes) × (0 < len)

abbrev pub field_bytes : ℕ → List ℕ
field_bytes v =
    if ltb v 13
    then []
    else if ltb v 269
    then (v - 13) ∷ []
    else ((v - 269) / 256) ∷ ((v - 269) % 256) ∷ []

abbrev pub field_nibble : ℕ → ℕ
field_nibble v = if ltb v 13 then v else if ltb v 269 then 13 else 14

unfoldable pub option_bytes : ℕ → CoapOption → List ℕ
option_bytes last o =
    (field_nibble (o.number - last) * 16 + field_nibble o.length)
    ∷ (field_bytes (o.number - last) ++ (field_bytes o.length ++ bytes_of o.value))

unfoldable pub options_bytes : ℕ → List CoapOption → List ℕ
unfolding option_bytes
options_bytes last [] = []
options_bytes last (o ∷ os) = option_bytes last o ++ options_bytes o.number os

unfoldable pub payload_bytes : Option (List ℕ) → List ℕ
payload_bytes none = []
payload_bytes (some bytes) = 255 ∷ bytes

unfoldable pub header_bytes : Message → List ℕ
header_bytes m =
    (64 + type_bits m.type * 16 + length m.token)
    ∷ m.code
    ∷ (m.message_id / 256)
    ∷ (m.message_id % 256)
    ∷ []

unfoldable pub wire : Message → List ℕ
unfolding header_bytes options_bytes payload_bytes
wire m = header_bytes m ++ (m.token ++ (options_bytes 0 m.options ++ payload_bytes m.payload))

-- What the options must be for the format to hold them: 16-bit numbers that do not descend.
pub record IsOption (last : ℕ) (o : CoapOption) : Type 0 where
  pub ordered : last ≤ o.number
  pub number_fits : IsU16 o.number
  pub length_fits : IsU16 o.length
  pub sliced : IsSlice o.length o.value

abbrev pub AreOptions : ℕ → List CoapOption → Type 0
AreOptions last [] = Unit {0}
AreOptions last (o ∷ os) = IsOption last o × AreOptions o.number os

pub record IsWellFormed (m : Message) : Type 0 where
  pub code_fits : IsByte m.code
  pub id_fits : IsU16 m.message_id
  pub token_fits : length m.token ≤ max_token_len
  pub options_fit : length m.options ≤ max_options
  pub options_ok : AreOptions 0 m.options
  pub payload_ok : IsSlice m.payload_len m.payload
