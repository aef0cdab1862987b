-- ===== src/Message/Build.antt =====
-- About the setters of `Message` (src/PulseCoAPMessage.cpp).
use pulse_co_ap.Common.{
  ℕ, ◌≤◌, ◌<◌, ◌≡◌, inl, inr, refl, Option, none, some, List, [], ◌∷◌, ◌++◌, ltb, leb,
  if◌then◌else◌, length, length-append, length-take, take-length, arith, true, false, Bool, ◌&&◌,
  Bool-cases, ltb_false→le,
}
use pulse_co_ap.Common.Bits.{IsByte, IsU16}
use pulse_co_ap.Types.Config.{max_token_len, max_options}
use pulse_co_ap.Types.Codes.{MessageType}
use pulse_co_ap.Message.{
  CoapOption, new_option, Message, bytes_of, addressed, blank, set_token, add_option,
  add_option_uint, set_payload, uint_bytes,
}
use pulse_co_ap.Message.Numbers.{uint_option, length-uint_bytes}
use pulse_co_ap.Message.Wire.{IsSlice, IsOption, AreOptions, IsWellFormed}

abbrev pub last_number : ℕ → List CoapOption → ℕ
last_number last [] = last
last_number last (o ∷ os) = last_number o.number os

-- A well-formed message whose ordering check is up to date: one that only setters have touched.
pub record IsBuilt (m : Message) : Type 0 where
  pub well_formed : IsWellFormed m
  pub tracked : last_number 0 m.options ≡ m.last_option_number

AreOptions-append :
    (last : ℕ) (os : List CoapOption) (o : CoapOption)
    → AreOptions last os
    → IsOption (last_number last os) o
    → AreOptions last (os ++ (o ∷ []))
AreOptions-append last [] o w h = (h, tt)
AreOptions-append last (x ∷ os) o w h = (w.0, AreOptions-append x.number os o w.1 h)

last_number-append :
    (last : ℕ) (os : List CoapOption) (o : CoapOption)
    → last_number last (os ++ (o ∷ [])) ≡ o.number
last_number-append last [] o = refl
last_number-append last (x ∷ os) o = last_number-append x.number os o

-- The value that an option keeps is as long as its length says.
new_option-IsSlice :
    (number len : ℕ) (v : Option (List ℕ))
    → len ≤ length (bytes_of v)
    → IsSlice len (new_option number v len).value
new_option-IsSlice number len none h = ground arith
new_option-IsSlice number len (some bytes) h = ground (arith, length-take len bytes)

last_number_empty : (os : List CoapOption) → length os ≡ 0 → last_number 0 os ≡ 0
last_number_empty [] h = refl
last_number_empty (o ∷ os) h = absurd (omega arith)

abbrev pub appended : ℕ → Option (List ℕ) → ℕ → Message → Message
appended number v len m = record m {
  options = m.options ++ (new_option number v len ∷ []);
  last_option_number = number;
}

abbrev pub fits : ℕ → Message → Bool
fits number m = ltb (length m.options) max_options && leb m.last_option_number number

-- `add_option` accepts an option exactly when there is room and the number does not descend. Then
-- it appends the option; otherwise the message stays as it was.
pub add_option_lem :
    (number len : ℕ) (v : Option (List ℕ)) (m : Message)
    → IsBuilt m
    → add_option number v len m
      ≡ (if fits number m then (appended number v len m, true) else (m, false))
unfolding add_option
add_option_lem number len v m b = ground (arith, last_number_empty m.options)

appended-IsBuilt :
    (number len : ℕ) (v : Option (List ℕ)) (m : Message)
    → IsU16 number
    → IsU16 len
    → len ≤ length (bytes_of v)
    → IsBuilt m
    → length m.options < max_options
    → m.last_option_number ≤ number
    → IsBuilt (appended number v len m)
appended-IsBuilt number len v m hn hl hv b room ord = record {
  well_formed = record {
    code_fits = b.well_formed.code_fits;
    id_fits = b.well_formed.id_fits;
    token_fits = b.well_formed.token_fits;
    options_fit = omega (arith, length-append m.options (new_option number v len ∷ []));
    options_ok = AreOptions-append 0 m.options _ b.well_formed.options_ok (record {
      ordered = rw b.tracked ord;
      number_fits = hn;
      length_fits = hl;
      sliced = new_option-IsSlice number len v hv;
    });
    payload_ok = b.well_formed.payload_ok;
  };
  tracked = last_number-append 0 m.options (new_option number v len);
}

-- Adding an option with a number and a length of 16 bits, as many bytes as it has or more being
-- given, accepted or not, keeps a message well formed.
pub add_option-IsBuilt :
    (number len : ℕ) (v : Option (List ℕ)) (m : Message)
    → IsU16 number
    → IsU16 len
    → len ≤ length (bytes_of v)
    → IsBuilt m
    → IsBuilt (add_option number v len m).0
add_option-IsBuilt number len v m hn hl hv b = elim (Bool-cases (fits number m)) [
  | inl ok ↦
      rw (add_option_lem number len v m b, ok)
        (appended-IsBuilt number len v m hn hl hv b (ground arith) (ground arith))
  | inr refused ↦ rw (add_option_lem number len v m b, refused) b
]

-- An empty message with its header set.
abbrev pub headed : MessageType → ℕ → ℕ → Message
headed t code id = record blank { type = t; code = code; message_id = id }

pub headed-IsBuilt :
    (t : MessageType) (code id : ℕ) → IsByte code → IsU16 id → IsBuilt (headed t code id)
headed-IsBuilt t code id hc hi = record {
  well_formed = record {
    code_fits = hc;
    id_fits = hi;
    token_fits = omega arith;
    options_fit = omega arith;
    options_ok = tt;
    payload_ok = refl;
  };
  tracked = refl;
}

-- A token of at most eight bytes is taken, a longer one is refused and changes nothing.
pub set_token-IsBuilt :
    (token : List ℕ) (len : ℕ) (m : Message) → IsBuilt m → IsBuilt (set_token token len m).0
unfolding set_token
set_token-IsBuilt token len m b = elim (Bool-cases (ltb max_token_len len)) [
  | inl long ↦ rw long b
  | inr short ↦ rw short (record {
    well_formed = record {
      code_fits = b.well_formed.code_fits;
      id_fits = b.well_formed.id_fits;
      token_fits = omega (arith, length-take len token, ltb_false→le _ _ short);
      options_fit = b.well_formed.options_fit;
      options_ok = b.well_formed.options_ok;
      payload_ok = b.well_formed.payload_ok;
    };
    tracked = b.tracked;
  })
]

pub add_option_uint_lem :
    (number v : ℕ) (m : Message)
    → IsBuilt m
    → add_option_uint number v m ≡ (
        if fits number m
        then (
          record m {
            options = m.options ++ (uint_option number v ∷ []);
            last_option_number = number;
          },
          true,
        )
        else (m, false))
unfolding add_option_uint
add_option_uint_lem number v m b = ground (
  arith,
  add_option_lem number (length (uint_bytes v))
      (if ltb 0 (length (uint_bytes v)) then some (uint_bytes v) else none) m b,
)

pub add_option_uint-IsBuilt :
    (number v : ℕ) (m : Message) → IsU16 number → IsBuilt m → IsBuilt (add_option_uint number v m).0
unfolding add_option_uint
add_option_uint-IsBuilt number v m hn b = elim (Bool-cases (leb max_options (length m.options))) [
  | inl full ↦ rw full b
  | inr free ↦ rw free (
      add_option-IsBuilt number (length (uint_bytes v)) _ m hn (omega (arith, length-uint_bytes v))
        (ground arith) b)
]

pub set_payload_part-IsBuilt :
    (bytes : List ℕ) (len : ℕ) (m : Message)
    → 0 < len
    → len ≤ length bytes
    → IsBuilt m
    → IsBuilt (set_payload (some bytes) len m)
unfolding set_payload
set_payload_part-IsBuilt bytes len m h k b = record {
  well_formed = record {
    code_fits = b.well_formed.code_fits;
    id_fits = b.well_formed.id_fits;
    token_fits = b.well_formed.token_fits;
    options_fit = b.well_formed.options_fit;
    options_ok = b.well_formed.options_ok;
    payload_ok = (omega (arith, length-take len bytes), h);
  };
  tracked = b.tracked;
}

pub set_payload-IsBuilt :
    (bytes : List ℕ) (m : Message)
    → 0 < length bytes
    → IsBuilt m
    → IsBuilt (set_payload (some bytes) (length bytes) m)
set_payload-IsBuilt bytes m h b = set_payload_part-IsBuilt bytes (length bytes) m h (omega arith) b

pub addressed-IsBuilt :
    (t : MessageType) (id : ℕ) (token : List ℕ) (code : ℕ)
    → IsU16 id
    → IsByte code
    → IsBuilt (addressed t id token code)
unfolding addressed
addressed-IsBuilt t id token code hi hc =
    set_token-IsBuilt token (length token) (headed t code id) (headed-IsBuilt t code id hc hi)

pub addressed_lem :
    (t : MessageType) (id : ℕ) (token : List ℕ) (code : ℕ)
    → length token ≤ max_token_len
    → addressed t id token code
      ≡ record blank { type = t; message_id = id; token = token; code = code }
unfolding addressed set_token
addressed_lem t id token code h = ground (arith, take-length (length token) token refl)
