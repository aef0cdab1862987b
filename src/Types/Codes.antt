-- ===== src/Types/Codes.antt =====
-- The wire constants of src/PulseCoAPTypes.h. A code, an option number and a content format are
-- cast from any byte or word, so they are numbers; a message type has exactly the four values of
-- its two bits.
use pulse_co_ap.Common.{ℕ, ◌+◌, ◌*◌, ◌/◌, ◌%◌, Bool, ◌&&◌, not, ◌==◌, if◌then◌else◌}

abbrev pub version : ℕ
version = 1

pub data MessageType : Type 0 where
  confirmable non_confirmable acknowledgement reset : MessageType

-- `static_cast<uint8_t>(type)`.
abbrev pub type_bits : MessageType → ℕ
type_bits MessageType.confirmable = 0
type_bits MessageType.non_confirmable = 1
type_bits MessageType.acknowledgement = 2
type_bits MessageType.reset = 3

-- `static_cast<MessageType>(bits)` of a value below 4.
abbrev pub type_of_bits : ℕ → MessageType
type_of_bits n =
    if n == 0
    then MessageType.confirmable
    else if n == 1
    then MessageType.non_confirmable
    else if n == 2
    then MessageType.acknowledgement
    else MessageType.reset

-- `type == MessageType::Confirmable`, and so for the other two that the program tests for.
abbrev pub is_confirmable : MessageType → Bool
is_confirmable t = type_bits t == 0

abbrev pub is_acknowledgement : MessageType → Bool
is_acknowledgement t = type_bits t == 2

abbrev pub is_reset : MessageType → Bool
is_reset t = type_bits t == 3

-- `((cls & 0x07) << 5) | (detail & 0x1F)`.
abbrev pub make_code : ℕ → ℕ → ℕ
make_code cls detail = cls % 8 * 32 + detail % 32

abbrev pub code_class : ℕ → ℕ
code_class code = code / 32

abbrev pub code_detail : ℕ → ℕ
code_detail code = code % 32

unfoldable pub is_method_code : ℕ → Bool
is_method_code code = code_class code == 0 && not (code == 0)
