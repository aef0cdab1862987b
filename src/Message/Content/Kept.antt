-- ===== src/Message/Content/Kept.antt =====
-- About what a message keeps when options and a payload are added to it.
use pulse_co_ap.Common.{
  ℕ, ◌≡◌, refl, ap, ◌∙◌, Option, none, some, List, [], ◌∷◌, length, take-length, arith,
}
use pulse_co_ap.Types.OptionNumber
use pulse_co_ap.Message.{Message, add_option, add_option_uint, set_payload}
use pulse_co_ap.Message.Build.{IsBuilt, add_option_uint-IsBuilt, set_payload-IsBuilt}
use pulse_co_ap.Message.Content.{add_content}

-- The parts of a message that its options and its payload do not touch.
pub record SameHeader (a b : Message) : Type 0 where
  pub type : a.type ≡ b.type
  pub code : a.code ≡ b.code
  pub message_id : a.message_id ≡ b.message_id
  pub token : a.token ≡ b.token

pub SameHeader-trans : (a b c : Message) → SameHeader a b → SameHeader b c → SameHeader a c
SameHeader-trans a b c p q = record {
  type = p.type ∙ q.type;
  code = p.code ∙ q.code;
  message_id = p.message_id ∙ q.message_id;
  token = p.token ∙ q.token;
}

pub add_option_uint_keeps :
    (number v : ℕ) (m : Message)
    → SameHeader (add_option_uint number v m).0 m
      × ((add_option_uint number v m).0.payload ≡ m.payload)
unfolding add_option_uint add_option
add_option_uint_keeps number v m = ground arith

-- The payload that a reply carries: an empty one is none.
abbrev pub carried : Option (List ℕ) → Option (List ℕ)
carried none = none
carried (some []) = none
carried (some (b ∷ bs)) = some (b ∷ bs)

pub add_content_keeps :
    (payload : Option (List ℕ)) (format : ℕ) (m : Message)
    → IsBuilt m
    → m.payload ≡ none
    → IsBuilt (add_content payload format m)
      × SameHeader (add_content payload format m) m
      × ((add_content payload format m).payload ≡ carried payload)
unfolding add_content
add_content_keeps none format m b e =
    (b, record { type = refl; code = refl; message_id = refl; token = refl }, e)
add_content_keeps (some []) format m b e =
    (b, record { type = refl; code = refl; message_id = refl; token = refl }, e)
add_content_keeps (some (x ∷ xs)) format m b e =
    let typed = (add_option_uint OptionNumber.content_format format m).0 in
    let kept = add_option_uint_keeps OptionNumber.content_format format m in
    (
      set_payload-IsBuilt (x ∷ xs) typed (omega arith)
          (add_option_uint-IsBuilt OptionNumber.content_format format m (omega arith) b),
      unfold set_payload in
          record {
            type = kept.0.type;
            code = kept.0.code;
            message_id = kept.0.message_id;
            token = kept.0.token;
          },
      unfold set_payload in ap some (take-length (length (x ∷ xs)) (x ∷ xs) refl),
    )
