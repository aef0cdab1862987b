-- ===== src/Message/RoundTrip.antt =====
-- About `decode` on what `encode` wrote (src/PulseCoAPMessage.cpp).
use pulse_co_ap.Common.{
  ℕ, zero, suc, ◌+◌, ◌-◌, ◌*◌, ◌/◌, ◌%◌, ◌≤◌, ◌<◌, ◌≡◌, refl, ap, ◌∙◌, Option, none, some, List, [],
  ◌∷◌, ◌++◌, append-nil, append_assoc, ◌==◌, length, drop, length-append, take-append, drop-append,
  arith, false, gt→leb, le→ltb_false, ◌||◌, ◌||◌,
}
use pulse_co_ap.Common.Bits.{u8, u16, IsU16}
use pulse_co_ap.Types.Config.{max_options}
use pulse_co_ap.Types.Codes.{version, MessageType, type_bits, type_of_bits}
use pulse_co_ap.Message.{CoapOption, new_option, Message, bytes_of}
use pulse_co_ap.Message.Encode.{encode}
use pulse_co_ap.Message.Decode.{
  DecodeError, ok, decode_option_field, store_option, decode_option, decode_options, decode_payload,
  decode_body, decode,
}
use pulse_co_ap.Message.Wire.{
  IsSlice, field_bytes, field_nibble, option_bytes, options_bytes, payload_bytes, header_bytes,
  wire, IsOption, AreOptions, IsWellFormed,
}
use pulse_co_ap.Message.Emit.{field_nibble-le, encode-wire}

field_read :
    (v : ℕ) (rest : List ℕ)
    → IsU16 v
    → decode_option_field (field_nibble v) (field_bytes v ++ rest) ≡ ok (v, rest)
unfolding decode_option_field
field_read v rest h = ground arith

-- The decoder's entry for an option whose value stands before `rest` is the option.
new_option-value :
    (number len : ℕ) (v : Option (List ℕ)) (rest : List ℕ)
    → IsSlice len v
    → new_option number (some (bytes_of v ++ rest)) len
      ≡ record { number = number; length = len; value = v }
new_option-value number len none rest h = ground arith
new_option-value number len (some bs) rest h = ground (arith, take-append len bs rest h.0)

value_read :
    (len : ℕ) (v : Option (List ℕ)) (rest : List ℕ)
    → IsSlice len v
    → (drop len (bytes_of v ++ rest) ≡ rest) × (len ≤ length (bytes_of v ++ rest))
value_read len none rest h = ground arith
value_read len (some bs) rest h =
    (drop-append len bs rest h.0, omega (arith, length-append bs rest))

-- One round of the loop reads one option.
option_read :
    (last : ℕ) (m : Message) (o : CoapOption) (rest : List ℕ)
    → IsOption last o
    → length m.options < max_options
    → decode_option last m
        (field_nibble (o.number - last) * 16 + field_nibble o.length)
        (field_bytes (o.number - last) ++ (field_bytes o.length ++ (bytes_of o.value ++ rest)))
      ≡ ok (record m { options = m.options ++ (o ∷ []) }, o.number, rest)
unfolding decode_option store_option
option_read last m o rest w h =
    let hi = field_nibble-le (o.number - last) in
    let lo = field_nibble-le o.length in
    let v = value_read o.length o.value rest w.sliced in
    let e1 : (field_nibble (o.number - last) * 16 + field_nibble o.length) / 16
        ≡ field_nibble (o.number - last) =
      omega arith in
    let e2 : (field_nibble (o.number - last) * 16 + field_nibble o.length) % 16
        ≡ field_nibble o.length =
      omega arith in
    let e3 : (field_nibble (o.number - last) == 15 || field_nibble o.length == 15) ≡ false =
      ground arith in
    let e4 : u16 (last + (o.number - last)) ≡ o.number = omega (arith, w.number_fits, w.ordered) in
    rw (
      e1,
      e2,
      e3,
      field_read (o.number - last) _ (omega (arith, w.number_fits)),
      field_read o.length _ w.length_fits,
      le→ltb_false _ _ v.1,
      gt→leb _ _ h,
      e4,
      v.0,
      new_option-value o.number o.length o.value rest w.sliced,
    )

abbrev first_byte : ℕ → CoapOption → ℕ
first_byte last o = field_nibble (o.number - last) * 16 + field_nibble o.length

options_bytes_split :
    (last : ℕ) (o : CoapOption) (os : List CoapOption) (t : List ℕ)
    → options_bytes last (o ∷ os) ++ t
      ≡ first_byte last o
        ∷ (field_bytes (o.number - last)
            ++ (field_bytes o.length ++ (bytes_of o.value ++ (options_bytes o.number os ++ t))))
unfolding options_bytes option_bytes
options_bytes_split last o os t = simp append_assoc

round_lem :
    (fuel last : ℕ) (m : Message) (byte : ℕ) (rest : List ℕ) {m' : Message} {last' : ℕ}
    {rest' : List ℕ}
    → byte < 255
    → decode_option last m byte rest ≡ ok (m', last', rest')
    → decode_options (suc fuel) last m (byte ∷ rest) ≡ decode_options fuel last' m' rest'
unfolding decode_options
round_lem fuel last m byte rest h e = rw (e, ne)
  where
    ne : (byte == 255) ≡ false
    ne = ground arith

options_read :
    (fuel last : ℕ) (m : Message) (os : List CoapOption) (len : ℕ) (p : Option (List ℕ))
    → AreOptions last os
    → length m.options + length os ≤ max_options
    → IsSlice len p
    → m.payload ≡ none
    → m.payload_len ≡ 0
    → length os + length (payload_bytes p) ≤ fuel
    → decode_options fuel last m (options_bytes last os ++ payload_bytes p)
      ≡ ok (record m { options = m.options ++ os; payload = p; payload_len = len })
options_read fuel last m [] len none w room s e0 e1 f =
    unfold decode_options options_bytes payload_bytes in ground (arith, append-nil m.options)
options_read fuel last m [] len (some []) w room s e0 e1 f = absurd (omega arith)
options_read zero last m [] len (some (b ∷ bs)) w room s e0 e1 f =
    unfold payload_bytes in absurd (omega (arith, f))
options_read (suc fuel) last m [] len (some (b ∷ bs)) w room s e0 e1 f =
    unfold decode_options options_bytes payload_bytes decode_payload in
    ground (arith, append-nil m.options)
options_read zero last m (o ∷ os) len p w room s e0 e1 f = absurd (omega arith)
options_read (suc fuel) last m (o ∷ os) len p w room s e0 e1 f =
    rw (options_bytes_split last o os (payload_bytes p)) (
      round_lem fuel last m (first_byte last o) _
        (omega (arith, field_nibble-le (o.number - last), field_nibble-le o.length))
        (option_read last m o _ w.0 (omega arith))
      ∙ options_read fuel o.number (record m { options = m.options ++ (o ∷ []) }) os len p w.1
          (omega (arith, length-append m.options (o ∷ []))) s e0 e1 (omega arith)
      ∙ ap (λ l. ok (record m { options = l; payload = p; payload_len = len }))
          (append_assoc m.options (o ∷ []) os))

options_bytes_room : (last : ℕ) (os : List CoapOption) → length os ≤ length (options_bytes last os)
unfolding options_bytes option_bytes
options_bytes_room last [] = omega arith
options_bytes_room last (o ∷ os) = omega (
  arith,
  length-append (option_bytes last o) (options_bytes o.number os),
  options_bytes_room o.number os,
)

body_read :
    (start m : Message)
    → IsWellFormed m
    → start.options ≡ []
    → start.payload ≡ none
    → start.payload_len ≡ 0
    → decode_body start
        (length m.token)
        (m.token ++ (options_bytes 0 m.options ++ payload_bytes m.payload))
      ≡ (
        record start {
          token = m.token;
          options = m.options;
          payload = m.payload;
          payload_len = m.payload_len;
        },
        DecodeError.no_error,
      )
unfolding decode_body
body_read start m w o p l =
    let rest = options_bytes 0 m.options ++ payload_bytes m.payload in
    let room = length-append (options_bytes 0 m.options) (payload_bytes m.payload) in
    let all = length-append m.token rest in
    rw (
      le→ltb_false (length (m.token ++ rest)) (length m.token) (omega (arith, all)),
      take-append (length m.token) m.token rest refl,
      drop-append (length m.token) m.token rest refl,
      options_read (length (m.token ++ rest)) 0 (record start { token = m.token }) m.options
          m.payload_len m.payload w.options_ok (omega (arith, ap length o, w.options_fit))
          w.payload_ok p l (omega (arith, room, all, options_bytes_room 0 m.options)),
      o,
    )

type_read :
    (t : MessageType) (n : ℕ) → n < 16 → type_of_bits ((64 + type_bits t * 16 + n) / 16 % 4) ≡ t
type_read MessageType.confirmable n h = ground arith
type_read _ n h = ground arith

header_read :
    (t : MessageType) (n : ℕ)
    → n < 16
    → (u8 ((64 + type_bits t * 16 + n) / 64) ≡ version) × ((64 + type_bits t * 16 + n) % 16 ≡ n)
header_read MessageType.confirmable n h = omega arith
header_read _ n h = omega arith

-- `decode` returns the message that a wire format stands for. It does not set the number against
-- which `addOption` checks the order.
pub decode-wire :
    (m : Message)
    → IsWellFormed m
    → decode (wire m) ≡ (record m { last_option_number = 0 }, DecodeError.no_error)
unfolding decode wire header_bytes
decode-wire m w =
    let (ver, tkl) = header_read m.type (length m.token) (omega (arith, w.token_fits)) in
    let id : u16 (m.message_id / 256 * 256 + m.message_id % 256) ≡ m.message_id =
      omega (arith, w.id_fits) in
    rw
      (
        ver,
        type_read m.type (length m.token) (omega (arith, w.token_fits)),
        tkl,
        le→ltb_false _ _ w.token_fits,
        id,
      )
      (body_read _ m w refl refl refl)

-- `decode` reads back, with no error, every well-formed message that `encode` wrote; only the
-- number against which `addOption` checks the order is not set.
pub decode-encode :
    (cap : ℕ) (m : Message) (bytes : List ℕ)
    → IsWellFormed m
    → encode cap m ≡ some bytes
    → decode bytes ≡ (record m { last_option_number = 0 }, DecodeError.no_error)
decode-encode cap m bytes w e = ground (arith, encode-wire cap m w, decode-wire m w)
