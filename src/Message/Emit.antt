-- ===== src/Message/Emit.antt =====
-- About `encode` and the wire format of a well-formed message (src/PulseCoAPMessage.cpp).
use pulse_co_ap.Common.{
  ℕ, ◌+◌, ◌-◌, ◌≤◌, ◌<◌, ◌≡◌, refl, Option, none, some, List, [], ◌∷◌, ◌++◌, append-nil,
  append_assoc, ltb, leb, if◌then◌else◌, length, length-append, take-length, ◌>>=◌, arith,
  le→ltb_false, Bool-cases, inl, inr, true,
}
use pulse_co_ap.Common.Bits.{u16, IsU16}
use pulse_co_ap.Types.Codes.{MessageType, type_bits}
use pulse_co_ap.Message.{CoapOption, Message, bytes_of}
use pulse_co_ap.Message.Encode.{
  encode_option_field, put, put_bytes, put_value, put_option, put_options, put_payload, encode,
}
use pulse_co_ap.Message.Wire.{
  IsSlice, field_bytes, field_nibble, option_bytes, options_bytes, payload_bytes, header_bytes,
  wire, IsOption, AreOptions, IsWellFormed,
}

-- To write `xs` at the cursor if they fit: what each step of `encode` does.
emit : ℕ → List ℕ → List ℕ → Option (List ℕ)
emit cap xs out = if leb (length out + length xs) cap then some (out ++ xs) else none

-- `f` writes `xs`, at every cursor within the capacity.
abbrev Emits : ℕ → (List ℕ → Option (List ℕ)) → List ℕ → Type 0
Emits cap f xs = (out : List ℕ) → length out ≤ cap → f out ≡ emit cap xs out

module _ (cap : ℕ) where
  Emits-put : (b c : ℕ) → b ≡ c → Emits cap (put cap b) (c ∷ [])
  unfolding put emit
  Emits-put b c e out h = ground arith

  Emits-put_bytes : (bs : List ℕ) (n : ℕ) → n ≡ length bs → Emits cap (put_bytes cap bs n) bs
  unfolding put_bytes emit
  Emits-put_bytes [] n e out h = ground (arith, append-nil out)
  Emits-put_bytes (b ∷ bs) n e out h = ground (arith, take-length n (b ∷ bs))

  Emits-done : Emits cap some []
  unfolding emit
  Emits-done out h = ground (arith, append-nil out)

  Emits-then :
      (f g : List ℕ → Option (List ℕ)) (xs ys : List ℕ)
      → Emits cap f xs
      → Emits cap g ys
      → Emits cap (λ out. f out >>= g) (xs ++ ys)
  unfolding emit
  Emits-then f g xs ys p q out h = ground (
    arith,
    p out h,
    q (out ++ xs),
    length-append xs ys,
    length-append out xs,
    append_assoc out xs ys,
  )

  Emits-put_value :
      (n : ℕ) (v : Option (List ℕ)) → IsSlice n v → Emits cap (put_value cap v n) (bytes_of v)
  unfolding put_value
  Emits-put_value n none s out h = ground (arith, Emits-done out h)
  Emits-put_value n (some bs) s out h = ground (arith, Emits-put_bytes bs n s.0 out h)

  Emits-put_payload :
      (n : ℕ) (v : Option (List ℕ))
      → IsSlice n v
      → Emits cap (put_payload cap v n) (payload_bytes v)
  unfolding put_payload payload_bytes
  Emits-put_payload n none s out h = Emits-done out h
  Emits-put_payload n (some bs) s out h = ground (
    arith,
    Emits-then (put cap 255) (put_bytes cap bs n) (255 ∷ []) bs (Emits-put 255 255 refl)
        (Emits-put_bytes bs n s.0) out h,
  )

encode_option_field-bytes :
    (v : ℕ) → IsU16 v → encode_option_field v ≡ (field_nibble v, field_bytes v)
unfolding encode_option_field
encode_option_field-bytes v h = ground arith

pub field_nibble-le : (v : ℕ) → field_nibble v ≤ 14
field_nibble-le v = ground arith

type_bits-lt : (t : MessageType) → type_bits t < 4
type_bits-lt MessageType.confirmable = omega arith
type_bits-lt _ = omega arith

module _ (cap : ℕ) where
  Emits-put_option :
      (last : ℕ) (o : CoapOption)
      → IsOption last o
      → Emits cap (put_option cap last o) (option_bytes last o)
  unfolding put_option option_bytes
  Emits-put_option last o w =
      let d : u16 (o.number + 65536 - last) ≡ o.number - last = ground arith in
      rw
        (
          d,
          encode_option_field-bytes (o.number - last) (ground arith),
          encode_option_field-bytes o.length w.length_fits,
        )
        (Emits-then cap _ _ (_ ∷ []) _
          (Emits-put cap _ _
            (omega (arith, field_nibble-le (o.number - last), field_nibble-le o.length)))
          (Emits-then cap _ _ _ _ (Emits-put_bytes cap _ _ refl) (
            Emits-then cap _ _ _ _ (Emits-put_bytes cap _ _ refl)
              (Emits-put_value cap o.length o.value w.sliced))))

  Emits-put_options :
      (last : ℕ) (os : List CoapOption)
      → AreOptions last os
      → Emits cap (put_options cap last os) (options_bytes last os)
  unfolding put_options options_bytes
  Emits-put_options last [] w = Emits-done cap
  Emits-put_options last (o ∷ os) w =
      Emits-then cap _ _ _ _ (Emits-put_option last o w.0) (Emits-put_options o.number os w.1)

  Emits-encode : (m : Message) → IsWellFormed m → 4 ≤ cap → encode cap m ≡ emit cap (wire m) []
  unfolding encode wire header_bytes
  Emits-encode m w h = rw (le→ltb_false cap 4 h) (
      Emits-then cap _ _ (_ ∷ []) _ (Emits-put cap _ _ (omega (arith, type_bits-lt m.type)))
        (Emits-then cap _ _ (_ ∷ []) _ (Emits-put cap _ _ (omega arith)) (
          Emits-then cap _ _ (_ ∷ []) _ (Emits-put cap _ _ (omega arith)) (
            Emits-then cap _ _ (_ ∷ []) _ (Emits-put cap _ _ refl) (
              Emits-then cap _ _ _ _ (Emits-put_bytes cap _ _ refl) (
                Emits-then cap _ _ _ _ (Emits-put_options 0 m.options w.options_ok)
                  (Emits-put_payload cap m.payload_len m.payload w.payload_ok))))))
        [] (omega arith))

pub length-wire : (m : Message) → 4 ≤ length (wire m)
unfolding wire header_bytes
length-wire m = omega arith

encode_small : (cap : ℕ) (m : Message) → ltb cap 4 ≡ true → encode cap m ≡ none
unfolding encode
encode_small cap m h = rw h

-- On a well-formed message `encode` returns its wire format if the buffer holds it, and 0 if not.
pub encode-wire :
    (cap : ℕ) (m : Message)
    → IsWellFormed m
    → encode cap m ≡ (if leb (length (wire m)) cap then some (wire m) else none)
unfolding emit
encode-wire cap m w = elim (Bool-cases (ltb cap 4)) [
  | inl small ↦ ground (arith, encode_small cap m small, length-wire m)
  | inr large ↦ ground (arith, Emits-encode cap m w)
]
