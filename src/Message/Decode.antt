-- ===== src/Message/Decode.antt =====
-- `Message::decode`. The list is `in[pos .. inLength)`, what the code has not reached.
use pulse_co_ap.Common.{
  ℕ, zero, suc, ◌+◌, ◌*◌, ◌/◌, ◌%◌, Bool, true, false, ◌||◌, not, some, List, [], ◌∷◌, ◌++◌, ltb,
  leb, ◌==◌, if◌then◌else◌, length, take, drop,
}
use pulse_co_ap.Common.Bits.{u8, u16}
use pulse_co_ap.Types.Config.{max_token_len, max_options}
use pulse_co_ap.Types.Codes.{version, type_of_bits}
use pulse_co_ap.Message.{new_option, Message, blank}

-- `DecodeError`; `no_error` is its `None`.
pub data DecodeError : Type 0 where
  no_error too_short bad_version bad_token_length bad_option too_many_options empty_payload_marker :
      DecodeError

-- What a step of the loop comes to. `stuck` is no outcome of the code: the loop ran out of fuel.
pub data Result {ℓ} (A : Type ℓ) : Type ℓ where
  ok : A → Result A
  err : DecodeError → Result A
  stuck : Result A

infixl 5 ◌>>=◌ ◌>>◌
abbrev pub ◌>>=◌ {ℓ κ} : {A : Type ℓ} {B : Type κ} → Result A → (A → Result B) → Result B
ok a >>= f = f a
err e >>= f = err e
stuck >>= f = stuck

abbrev pub ◌>>◌ {ℓ} : {B : Type ℓ} → Result (Unit {0}) → Result B → Result B
m >> k = m >>= λ _. k

abbrev pub reject_if : Bool → DecodeError → Result (Unit {0})
reject_if true e = err e
reject_if false e = ok tt

unfoldable pub one_extended : List ℕ → Result (ℕ × List ℕ)
one_extended [] = err DecodeError.too_short
one_extended (b ∷ rest) = ok (u16 (13 + b), rest)

unfoldable pub two_extended : List ℕ → Result (ℕ × List ℕ)
two_extended [] = err DecodeError.too_short
two_extended (a ∷ []) = err DecodeError.too_short
two_extended (a ∷ b ∷ rest) = ok (u16 (269 + (a * 256 + b)), rest)

-- The delta or the length that a nibble below 15 announces, and what follows it.
unfoldable pub decode_option_field : ℕ → List ℕ → Result (ℕ × List ℕ)
unfolding one_extended two_extended
decode_option_field nibble rest =
    if ltb nibble 13
    then ok (nibble, rest)
    else if nibble == 13
    then one_extended rest
    else two_extended rest

-- The checks behind the two fields, and the new entry of `options_`; the second value is the new
-- `lastNumber`.
unfoldable pub store_option : ℕ → ℕ → Message → List ℕ → Result (Message × ℕ × List ℕ)
store_option number len m rest = do
  reject_if (ltb (length rest) len) DecodeError.too_short
  reject_if (leb max_options (length m.options)) DecodeError.too_many_options
  ok (
    record m { options = m.options ++ (new_option number (some rest) len ∷ []) },
    number,
    drop len rest,
  )

-- One round of the loop, on a byte that is not the payload marker.
unfoldable pub decode_option : ℕ → Message → ℕ → List ℕ → Result (Message × ℕ × List ℕ)
decode_option last m byte rest = do
  reject_if (byte / 16 == 15 || byte % 16 == 15) DecodeError.bad_option
  (delta, after_delta) ← decode_option_field (byte / 16) rest
  (len, after_len) ← decode_option_field (byte % 16) after_delta
  store_option (u16 (last + delta)) len m after_len

unfoldable pub decode_payload : Message → List ℕ → Result Message
decode_payload m [] = err DecodeError.empty_payload_marker
decode_payload m (b ∷ rest) =
    ok (record m { payload = some (b ∷ rest); payload_len = length (b ∷ rest) })

-- The loop `while (pos < inLength)`; `last` is `lastNumber`.
unfoldable pub decode_options : ℕ → ℕ → Message → List ℕ → Result Message
decode_options fuel last m [] = ok m
decode_options zero last m (byte ∷ rest) = stuck
decode_options (suc fuel) last m (byte ∷ rest) =
    let more =
      decode_option last m byte rest >>= λ (m', last', rest'). decode_options fuel last' m' rest' in
    if byte == 255 then decode_payload m rest else more

-- A failure inside the body resets the message.
abbrev pub settle : Result Message → Message × DecodeError
settle (ok m) = (m, DecodeError.no_error)
settle (err e) = (blank, e)
settle stuck = (blank, DecodeError.too_short)

-- The token, the options and the payload, behind the four bytes of the header.
unfoldable pub decode_body : Message → ℕ → List ℕ → Message × DecodeError
decode_body m tkl rest =
    if ltb (length rest) tkl
    then (blank, DecodeError.too_short)
    else settle
        (decode_options (length rest) 0 (record m { token = take tkl rest }) (drop tkl rest))

unfoldable pub decode : List ℕ → Message × DecodeError
decode (b0 ∷ b1 ∷ b2 ∷ b3 ∷ rest) =
    let typed = record blank { type = type_of_bits (b0 / 16 % 4) } in
    if not (u8 (b0 / 64) == version)
    then (blank, DecodeError.bad_version)
    else if ltb max_token_len (b0 % 16)
    then (typed, DecodeError.bad_token_length)
    else decode_body (record typed { code = b1; message_id = u16 (b2 * 256 + b3) }) (b0 % 16) rest
decode _ = (blank, DecodeError.too_short)
