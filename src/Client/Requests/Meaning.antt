-- ===== src/Client/Requests/Meaning.antt =====
-- About the message of a request (src/PulseCoAPClient.cpp).
use pulse_co_ap.Common.{ℕ, ◌≡◌, refl, ◌∙◌, subst, none, some, List, [], ◌∷◌, arith}
use pulse_co_ap.Common.Bits.{IsByte, IsU16}
use pulse_co_ap.Types.Codes.{MessageType}
use pulse_co_ap.Types.OptionNumber
use pulse_co_ap.Message.{Message, addressed, set_token}
use pulse_co_ap.Message.Build.{
  IsBuilt, headed, headed-IsBuilt, set_token-IsBuilt, add_option_uint-IsBuilt,
}
use pulse_co_ap.Message.Content.{add_content}
use pulse_co_ap.Message.Content.Kept.{
  SameHeader, SameHeader-trans, add_option_uint_keeps, carried, add_content_keeps,
}
use pulse_co_ap.Uri.Kept.{Keeps, add_uri_path_options-Keeps}
use pulse_co_ap.Client.Requests.{
  ObserveOption, Order, add_observe_option, request_type, request_head, request_message,
}

-- The fields of the header of a message.
pub record IsHeaded (type : MessageType) (id : ℕ) (token : List ℕ) (code : ℕ) (m : Message)
    : Type 0 where
  pub built : IsBuilt m
  pub type_is : m.type ≡ type
  pub id_is : m.message_id ≡ id
  pub token_is : m.token ≡ token
  pub code_is : m.code ≡ code

pub addressed-IsHeaded :
    (type : MessageType) (id token code : ℕ)
    → IsByte code
    → IsU16 id
    → IsHeaded type id (token ∷ []) code (addressed type id (token ∷ []) code)
      × ((addressed type id (token ∷ []) code).payload ≡ none)
unfolding addressed set_token
addressed-IsHeaded type id token code hc hi = (
  record {
    built =
        set_token-IsBuilt (token ∷ []) 1 (headed type code id) (headed-IsBuilt type code id hc hi);
    type_is = refl;
    id_is = refl;
    token_is = refl;
    code_is = refl;
  },
  refl,
)

-- A message that keeps the header of another keeps these fields.
pub IsHeaded-SameHeader :
    {type : MessageType} {id : ℕ} {token : List ℕ} {code : ℕ} (m m' : Message)
    → IsHeaded type id token code m
    → IsBuilt m'
    → SameHeader m' m
    → IsHeaded type id token code m'
IsHeaded-SameHeader m m' h b same = record {
  built = b;
  type_is = same.type ∙ h.type_is;
  id_is = same.message_id ∙ h.id_is;
  token_is = same.token ∙ h.token_is;
  code_is = same.code ∙ h.code_is;
}

add_observe_option-Keeps :
    (observe : ObserveOption) (m : Message) → IsBuilt m → Keeps m (add_observe_option observe m)
unfolding add_observe_option
add_observe_option-Keeps ObserveOption.absent m b =
    (b, record { type = refl; code = refl; message_id = refl; token = refl }, refl)
add_observe_option-Keeps ObserveOption.register m b =
    let kept = add_option_uint_keeps OptionNumber.observe OptionNumber.observe_register m in
    (add_option_uint-IsBuilt OptionNumber.observe _ m (omega arith) b, kept.0, kept.1)
add_observe_option-Keeps ObserveOption.deregister m b =
    let kept = add_option_uint_keeps OptionNumber.observe OptionNumber.observe_deregister m in
    (add_option_uint-IsBuilt OptionNumber.observe _ m (omega arith) b, kept.0, kept.1)

head_of :
    (o : Order) (id token : ℕ)
    → IsByte o.method
    → IsU16 id
    → IsHeaded (request_type o.confirmable) id (token ∷ []) o.method (request_head o id token).0
      × ((request_head o id token).0.payload ≡ none)
unfolding request_head
head_of o id token hm hi =
    let type = request_type o.confirmable in
    let start = addressed type id (token ∷ []) o.method in
    let (h, p) = addressed-IsHeaded type id token o.method hm hi in
    let observed = add_observe_option-Keeps o.observe start h.built in
    let whole = add_uri_path_options-Keeps o.path (add_observe_option o.observe start) observed.0 in
    (
      IsHeaded-SameHeader start _ h whole.0 (SameHeader-trans _ _ _ whole.1 observed.1),
      whole.2 ∙ observed.2 ∙ p,
    )

-- The message of a request is well formed and has the type, code, message ID, token and payload of
-- the order.
pub request_message_lem :
    (o : Order) (id token : ℕ) (m : Message)
    → IsByte o.method
    → IsU16 id
    → request_message o id token ≡ some m
    → IsHeaded (request_type o.confirmable) id (token ∷ []) o.method m
      × (m.payload ≡ carried o.payload)
unfolding request_message
request_message_lem o id token m hm hi e =
    let (h, p) = head_of o id token hm hi in
    let head = (request_head o id token).0 in
    let filled = add_content_keeps o.payload o.content_format head h.built p in
    let done : add_content o.payload o.content_format head ≡ m = ground arith in
    subst
      (λ m'.
        IsHeaded (request_type o.confirmable) id (token ∷ []) o.method m'
        × (m'.payload ≡ carried o.payload))
      done (IsHeaded-SameHeader head _ h filled.0 filled.1, filled.2)
