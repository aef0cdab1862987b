-- ===== src/Message.antt =====
-- The message of src/PulseCoAPMessage.h and the operations of src/PulseCoAPMessage.cpp that fill
-- it in; the wire format is in the children. A pointer is `none` where it is null, and `some` of
-- the bytes from where it points on, up to the length that is kept with it. The arrays `token_`
-- and `options_` are the lists of the entries in use, so `tokenLen_` and `optionCount_` are
-- their lengths; no code reads the others. `uintScratch_` holds the bytes of one option in a row
-- of its own, and is that option's value.
pub mod Encode
pub mod Decode
pub mod Wire
pub mod Emit
pub mod RoundTrip
pub mod Reads
pub mod Wraps
pub mod Build
pub mod Numbers
pub mod Content
mod Checks
use pulse_co_ap.Common.{
  ℕ, zero, suc, ◌+◌, ◌*◌, ◌/◌, ◌%◌, Bool, true, false, ◌&&◌, Option, none, some, List, [], ◌∷◌,
  ◌++◌, ltb, leb, ◌==◌, if◌then◌else◌, length, take, get_elem?,
}
use pulse_co_ap.Common.Bits.{u8, u16, u32}
use pulse_co_ap.Types.Config.{max_token_len, max_options}
use pulse_co_ap.Types.Codes.{MessageType}
use pulse_co_ap.Types.Code

-- `struct Option`.
pub record CoapOption : Type 0 where
  pub number : ℕ
  pub length : ℕ
  pub value : Option (List ℕ)

-- `class Message`.
pub record Message : Type 0 where
  pub type : MessageType
  pub code : ℕ
  pub message_id : ℕ
  pub token : List ℕ
  pub options : List CoapOption
  pub last_option_number : ℕ
  pub payload : Option (List ℕ)
  pub payload_len : ℕ

-- A message just after `Message()` or `reset()`.
abbrev pub blank : Message
blank = record {
  type = MessageType.confirmable;
  code = Code.empty;
  message_id = 0;
  token = [];
  options = [];
  last_option_number = 0;
  payload = none;
  payload_len = 0;
}

unfoldable pub set_token : List ℕ → ℕ → Message → Message × Bool
set_token token len m =
    if ltb max_token_len len then (m, false) else (record m { token = take len token }, true)

-- A message whose header is set: `setType`, `setMessageId`, `setToken` and `setCode`.
unfoldable pub addressed : MessageType → ℕ → List ℕ → ℕ → Message
addressed type id token code =
    (set_token token (length token) (record blank { type = type; message_id = id; code = code })).0

-- The bytes at a pointer that a length goes with.
abbrev pub slice : ℕ → Option (List ℕ) → Option (List ℕ)
slice len none = none
slice len (some bytes) = some (take len bytes)

-- The entry written at `options_[optionCount_]`.
abbrev pub new_option : ℕ → Option (List ℕ) → ℕ → CoapOption
new_option number value len = record {
  number = number;
  length = len;
  value = if ltb 0 len then slice len value else none;
}

unfoldable pub add_option : ℕ → Option (List ℕ) → ℕ → Message → Message × Bool
add_option number value len m =
    if leb max_options (length m.options)
    then (m, false)
    else if ltb 0 (length m.options) && ltb number m.last_option_number
    then (m, false)
    else (
      record m {
        options = m.options ++ (new_option number value len ∷ []);
        last_option_number = number;
      },
      true,
    )

-- A C string is the list of its characters, without the final NUL; `strlen` is cast to 16 bits.
unfoldable pub add_option_string : ℕ → Option (List ℕ) → Message → Message × Bool
add_option_string number none m = add_option number none (u16 0) m
add_option_string number (some text) m = add_option number (some text) (u16 (length text)) m

unfoldable pub add_option_empty : ℕ → Message → Message × Bool
add_option_empty number m = add_option number none 0 m

-- The loop `while (v > 0 && n < 4)`: at most `left` more bytes of `v`, the lowest first.
pub little_endian : ℕ → ℕ → List ℕ
little_endian zero v = []
little_endian (suc left) v =
    let rest = little_endian left (v / 256) in if ltb 0 v then u8 v ∷ rest else []

-- The reversed copy into `uintScratch_`.
pub big_endian : List ℕ → List ℕ
big_endian [] = []
big_endian (b ∷ bs) = big_endian bs ++ (b ∷ [])

unfoldable pub uint_bytes : ℕ → List ℕ
unfolding little_endian big_endian
uint_bytes v = big_endian (little_endian 4 v)

unfoldable pub add_option_uint : ℕ → ℕ → Message → Message × Bool
add_option_uint number value m =
    if leb max_options (length m.options)
    then (m, false)
    else let bytes = uint_bytes value in
      add_option number (if ltb 0 (length bytes) then some bytes else none) (length bytes) m

-- `none` for an index out of range.
unfoldable pub option_at : ℕ → Message → Option CoapOption
option_at i m = get_elem? m.options i

unfoldable pub find_in : ℕ → List CoapOption → Option CoapOption
find_in number [] = none
find_in number (o ∷ os) = if o.number == number then some o else find_in number os

-- The first option of that number.
unfoldable pub find_option : ℕ → Message → Option CoapOption
unfolding find_in
find_option number m = find_in number m.options

-- `v = (v << 8) | byte` on 32 bits, for each byte.
pub accumulate : ℕ → List ℕ → ℕ
accumulate v [] = v
accumulate v (b ∷ bs) = accumulate (u32 (v * 256) + b) bs

abbrev pub bytes_of : Option (List ℕ) → List ℕ
bytes_of none = []
bytes_of (some bs) = bs

unfoldable pub option_as_uint : CoapOption → ℕ
unfolding accumulate
option_as_uint o = accumulate 0 (take (if ltb 4 o.length then 4 else o.length) (bytes_of o.value))

unfoldable pub set_payload : Option (List ℕ) → ℕ → Message → Message
set_payload bytes len m = record m { payload = slice len bytes; payload_len = len }
