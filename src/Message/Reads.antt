-- ===== src/Message/Reads.antt =====
-- About `decode` on any input, well formed or not (src/PulseCoAPMessage.cpp).
use pulse_co_ap.Common.{
  ℕ, zero, suc, ◌+◌, ◌/◌, ◌%◌, ◌≤◌, ◌≡◌, ◌≢◌, inl, inr, refl, none, some, List, [], ◌∷◌, ltb, leb,
  ◌==◌, if◌then◌else◌, length, take, drop, length-append, length-take, length-drop, arith, ◌||◌,
  Bool-cases, All, All-append, leb_false→lt, ltb_false→le, subst,
}
use pulse_co_ap.Common.Bits.{u8, u16, IsU16}
use pulse_co_ap.Types.Config.{max_token_len, max_options}
use pulse_co_ap.Types.Codes.{version}
use pulse_co_ap.Message.{CoapOption, new_option, slice, Message, blank}
use pulse_co_ap.Message.Decode.{
  DecodeError, Result, ok, err, stuck, settle, decode_option_field, store_option, decode_option,
  decode_options, decode_payload, decode_body, decode, ◌>>=◌,
}
use pulse_co_ap.Message.Wire.{IsSlice}

-- What holds of every message that the decoder builds.
abbrev pub IsRead : CoapOption → Type 0
IsRead o = IsU16 o.number × IsSlice o.length o.value

pub record IsDecoded (m : Message) : Type 0 where
  pub id_fits : IsU16 m.message_id
  pub token_fits : length m.token ≤ max_token_len
  pub options_fit : length m.options ≤ max_options
  pub options_ok : All IsRead m.options
  pub payload_ok : IsSlice m.payload_len m.payload

-- The failures that the body of the code, behind the header, reports.
abbrev IsFailure : DecodeError → Type 0
IsFailure e = (e ≢ DecodeError.no_error) × (e ≢ DecodeError.bad_token_length)

-- How a run of the loop from `m` may end.
abbrev Ends : Result Message → Type 0
Ends (ok m) = IsDecoded m
Ends (err e) = IsFailure e
Ends stuck = ⊥

abbrev RoundEnds : ℕ → Result (Message × ℕ × List ℕ) → Type 0
RoundEnds room (ok (m, last, rest)) = IsDecoded m × (length rest ≤ room)
RoundEnds room (err e) = IsFailure e
RoundEnds room stuck = ⊥

abbrev FieldEnds : ℕ → Result (ℕ × List ℕ) → Type 0
FieldEnds room (ok (n, rest)) = length rest ≤ room
FieldEnds room (err e) = e ≡ DecodeError.too_short
FieldEnds room stuck = ⊥

decode_option_field-Ends :
    (nibble : ℕ) (rest : List ℕ) → FieldEnds (length rest) (decode_option_field nibble rest)
unfolding decode_option_field
decode_option_field-Ends nibble [] = ground arith
decode_option_field-Ends nibble (a ∷ []) = ground arith
decode_option_field-Ends nibble (a ∷ b ∷ rest) = ground arith

RoundEnds-mono :
    (a b : ℕ) (r : Result (Message × ℕ × List ℕ)) → a ≤ b → RoundEnds a r → RoundEnds b r
RoundEnds-mono a b (ok (m, last, rest)) h (w, k) = (w, omega arith)
RoundEnds-mono a b (err e) h k = k
RoundEnds-mono a b stuck h k = k

slice_ok :
    (len : ℕ) (bytes : List ℕ)
    → len ≤ length bytes
    → IsSlice len (if ltb 0 len then slice len (some bytes) else none)
slice_ok len bytes h = ground (arith, length-take len bytes)

field_Ends :
    (room left : ℕ) (r : Result (ℕ × List ℕ)) (f : ℕ × List ℕ → Result (Message × ℕ × List ℕ))
    → FieldEnds left r
    → ((d : ℕ) (rest : List ℕ) → length rest ≤ left → RoundEnds room (f (d, rest)))
    → RoundEnds room (r >>= f)
field_Ends room left (ok (d, rest)) f h k = k d rest h
field_Ends room left (err e) f h k = (λ p. cc, λ p. cc)
field_Ends room left stuck f h k = h

store_option-Ends :
    (number len : ℕ) (m : Message) (rest : List ℕ)
    → IsU16 number
    → IsDecoded m
    → RoundEnds (length rest) (store_option number len m rest)
unfolding store_option
store_option-Ends number len m rest n w = elim (Bool-cases (ltb (length rest) len)) [
  | inl short ↦ rw short (λ e. cc, λ e. cc)
  | inr fits ↦ elim (Bool-cases (leb max_options (length m.options))) [
    | inl full ↦ rw (fits, full) (λ e. cc, λ e. cc)
    | inr free ↦
        rw (fits, free)
          (
            record {
              id_fits = w.id_fits;
              token_fits = w.token_fits;
              options_fit = omega (
                arith,
                length-append m.options (new_option number (some rest) len ∷ []),
                leb_false→lt _ _ free,
              );
              options_ok =
                  All-append IsRead m.options _ w.options_ok
                    ((n, slice_ok len rest (ltb_false→le _ _ fits)), tt);
              payload_ok = w.payload_ok;
            },
            omega (arith, length-drop len rest),
          )
  ]
]

decode_option-Ends :
    (last : ℕ) (m : Message) (byte : ℕ) (rest : List ℕ)
    → IsDecoded m
    → RoundEnds (length rest) (decode_option last m byte rest)
unfolding decode_option
decode_option-Ends last m byte rest w = elim (Bool-cases (byte / 16 == 15 || byte % 16 == 15)) [
  | inl reserved ↦ rw reserved (λ e. cc, λ e. cc)
  | inr regular ↦ rw regular (
      field_Ends (length rest) (length rest) (decode_option_field (byte / 16) rest)
        (λ (delta, after). decode_option_field (byte % 16) after >>= λ (len, tail).
          store_option (u16 (last + delta)) len m tail)
        (decode_option_field-Ends (byte / 16) rest)
        λ delta after h.
          field_Ends (length rest) (length after) (decode_option_field (byte % 16) after)
            (λ (len, tail). store_option (u16 (last + delta)) len m tail)
            (decode_option_field-Ends (byte % 16) after)
            λ len tail h'.
              RoundEnds-mono (length tail) (length rest)
                (store_option (u16 (last + delta)) len m tail) (omega arith)
                (store_option-Ends (u16 (last + delta)) len m tail (omega arith) w))
]

decode_payload-Ends : (m : Message) (rest : List ℕ) → IsDecoded m → Ends (decode_payload m rest)
unfolding decode_payload
decode_payload-Ends m [] w = (λ e. cc, λ e. cc)
decode_payload-Ends m (b ∷ rest) w = record {
  id_fits = w.id_fits;
  token_fits = w.token_fits;
  options_fit = w.options_fit;
  options_ok = w.options_ok;
  payload_ok = (refl, omega arith);
}

round_Ends :
    (room fuel : ℕ) (r : Result (Message × ℕ × List ℕ))
    → RoundEnds room r
    → ((last : ℕ) (m : Message) (rest : List ℕ)
        → IsDecoded m
        → length rest ≤ room
        → Ends (decode_options fuel last m rest))
    → Ends (r >>= λ (m', last', rest'). decode_options fuel last' m' rest')
round_Ends room fuel (ok (m, last, rest)) (w, h) k = k last m rest w h
round_Ends room fuel (err e) h k = h
round_Ends room fuel stuck h k = h

-- With as much fuel as there are bytes, the loop never runs out of it.
decode_options-Ends :
    (fuel last : ℕ) (m : Message) (rest : List ℕ)
    → IsDecoded m
    → length rest ≤ fuel
    → Ends (decode_options fuel last m rest)
unfolding decode_options
decode_options-Ends zero last m [] w h = w
decode_options-Ends (suc fuel) last m [] w h = w
decode_options-Ends zero last m (byte ∷ rest) w h = absurd (omega arith)
decode_options-Ends (suc fuel) last m (byte ∷ rest) w h = elim (Bool-cases (byte == 255)) [
  | inl marker ↦ rw marker (decode_payload-Ends m rest w)
  | inr option ↦ rw option (
      round_Ends (length rest) fuel _ (decode_option-Ends last m byte rest w)
        (λ last' m' rest' w' h'. decode_options-Ends fuel last' m' rest' w' (omega arith)))
]

-- What the caller of `decode` finds: a message within the limits of the arrays, or none but for the
-- type that a bad token length leaves behind.
abbrev pub Outcome : Message × DecodeError → Type 0
Outcome (m, DecodeError.no_error) = IsDecoded m
Outcome (m, DecodeError.bad_token_length) = m ≡ record blank { type = m.type }
Outcome (m, _) = m ≡ blank

settle-Outcome : (r : Result Message) → Ends r → Outcome (settle r)
settle-Outcome (ok m) w = w
settle-Outcome (err DecodeError.no_error) w = absurd (w.0 refl)
settle-Outcome (err DecodeError.bad_token_length) w = absurd (w.1 refl)
settle-Outcome (err _) w = refl
settle-Outcome stuck w = absurd w

decode_body-Outcome :
    (start : Message) (tkl : ℕ) (rest : List ℕ)
    → start.options ≡ []
    → start.payload ≡ none
    → start.payload_len ≡ 0
    → IsU16 start.message_id
    → tkl ≤ max_token_len
    → Outcome (decode_body start tkl rest)
unfolding decode_body
decode_body-Outcome start tkl rest o p l i h = elim (Bool-cases (ltb (length rest) tkl)) [
  | inl short ↦ rw short refl
  | inr fits ↦ rw fits (
      settle-Outcome _ (
        decode_options-Ends (length rest) 0 (record start { token = take tkl rest }) (drop tkl rest)
          (record {
            id_fits = i;
            token_fits = omega (arith, length-take tkl rest);
            options_fit = rw o (omega arith);
            options_ok = rw o tt;
            payload_ok = rw (p, l) refl;
          })
          (omega (arith, length-drop tkl rest))))
]

-- Fuel for one round for each byte is enough for the loop, from any message within the limits.
decode_options_ends :
    (last : ℕ) (m : Message) (rest : List ℕ)
    → IsDecoded m
    → decode_options (length rest) last m rest ≢ stuck
decode_options_ends last m rest w e =
    subst Ends e (decode_options-Ends (length rest) last m rest w (omega arith))

decode_ends : (bytes : List ℕ) → Outcome (decode bytes)
unfolding decode
decode_ends (b0 ∷ b1 ∷ b2 ∷ b3 ∷ rest) = elim (Bool-cases (u8 (b0 / 64) == version)) [
  | inr other ↦ rw other refl
  | inl one ↦ elim (Bool-cases (ltb max_token_len (b0 % 16))) [
    | inl long ↦ rw (one, long) refl
    | inr short ↦
        rw (one, short)
          (decode_body-Outcome _ (b0 % 16) rest refl refl refl (omega arith)
            (ltb_false→le _ _ short))
  ]
]
decode_ends [] = refl
decode_ends _ = refl

-- `decode` ends within the limits of its arrays on any bytes: its loop over options, from any option
-- number and any message within the limits, is through after one round for each byte that is left,
-- or sooner; and `decode` gives a message that keeps to the limits, or an error with a message that
-- is reset, but for the type where the token length was bad.
pub decode-Outcome :
    (bytes : List ℕ) (last : ℕ) (m : Message)
    → IsDecoded m
    → (decode_options (length bytes) last m bytes ≢ stuck) × Outcome (decode bytes)
decode-Outcome bytes last m w = (decode_options_ends last m bytes w, decode_ends bytes)
