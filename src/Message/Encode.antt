-- ===== src/Message/Encode.antt =====
-- `Message::encode`. The cursor `pos` and `out[0 .. pos)` are the list of the bytes written so
-- far, and `none` stands for the result 0, which is returned for nothing else, since a message has
-- four bytes at least. Bits that do not overlap are joined by `+`, which is then `|`.
use pulse_co_ap.Common.{
  ℕ, ◌+◌, ◌-◌, ◌*◌, ◌/◌, ◌%◌, Option, none, some, List, [], ◌∷◌, ◌++◌, ltb, leb, ◌==◌,
  if◌then◌else◌, length, take, ◌>>=◌,
}
use pulse_co_ap.Common.Bits.{u8, u16}
use pulse_co_ap.Types.Codes.{version, type_bits}
use pulse_co_ap.Message.{CoapOption, Message}

-- The nibble and the extended bytes of an option's delta or length.
unfoldable pub encode_option_field : ℕ → ℕ × List ℕ
encode_option_field v =
    if ltb v 13
    then (u8 v, [])
    else if ltb v 269
    then (13, u8 (v - 13) ∷ [])
    else (14, u8 (u16 (v - 269) / 256) ∷ u8 (u16 (v - 269)) ∷ [])

unfoldable pub put : ℕ → ℕ → List ℕ → Option (List ℕ)
put cap b out = if leb cap (length out) then none else some (out ++ (b ∷ []))

unfoldable pub put_bytes : ℕ → List ℕ → ℕ → List ℕ → Option (List ℕ)
put_bytes cap bytes len out =
    if len == 0
    then some out
    else if ltb cap (length out + len)
    then none
    else some (out ++ take len bytes)

unfoldable pub put_value : ℕ → Option (List ℕ) → ℕ → List ℕ → Option (List ℕ)
unfolding put_bytes
put_value cap none len out = if ltb 0 len then none else some out
put_value cap (some bytes) len out = if ltb 0 len then put_bytes cap bytes len out else some out

unfoldable pub put_option : ℕ → ℕ → CoapOption → List ℕ → Option (List ℕ)
unfolding encode_option_field put put_bytes put_value
put_option cap last o out = do
  let delta = encode_option_field (u16 (o.number + 65536 - last))
  let len = encode_option_field o.length
  a ← put cap (u8 (delta.0 * 16 + len.0)) out
  b ← put_bytes cap delta.1 (length delta.1) a
  c ← put_bytes cap len.1 (length len.1) b
  put_value cap o.value o.length c

-- The loop over the options; `last` is `lastNumber`.
unfoldable pub put_options : ℕ → ℕ → List CoapOption → List ℕ → Option (List ℕ)
unfolding put_option
put_options cap last [] out = some out
put_options cap last (o ∷ os) out = put_option cap last o out >>= put_options cap o.number os

unfoldable pub put_payload : ℕ → Option (List ℕ) → ℕ → List ℕ → Option (List ℕ)
unfolding put put_bytes
put_payload cap none len out = some out
put_payload cap (some bytes) len out =
    if ltb 0 len then put cap 255 out >>= put_bytes cap bytes len else some out

unfoldable pub encode : ℕ → Message → Option (List ℕ)
unfolding put put_bytes put_options put_payload
encode cap m = if ltb cap 4 then none else do
  a ← put cap (u8 (version * 64 + type_bits m.type % 4 * 16 + length m.token % 16)) []
  b ← put cap (u8 m.code) a
  c ← put cap (u8 (m.message_id / 256)) b
  d ← put cap (u8 m.message_id) c
  e ← put_bytes cap m.token (length m.token) d
  f ← put_options cap 0 m.options e
  put_payload cap m.payload m.payload_len f
