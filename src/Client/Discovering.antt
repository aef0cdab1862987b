-- ===== src/Client/Discovering.antt =====
-- `Client::discover`, `Client::allNodesEndpoint` and the expiry of the discover slots
-- (src/PulseCoAPClient.cpp).
pub mod Expiry
use pulse_co_ap.Common.{
  ℕ, ◌+◌, ◌-◌, ◌^◌, Bool, true, false, ◌&&◌, Option, none, some, List, [], ◌∷◌, leb, if◌then◌else◌,
  modify,
}
use pulse_co_ap.Common.Bits.{u32}
use pulse_co_ap.Types.Config.{max_msg_size, discover_timeout_ms}
use pulse_co_ap.Types.Codes.{MessageType}
use pulse_co_ap.Types.Code
use pulse_co_ap.Types.Address.{Endpoint, unspecified}
use pulse_co_ap.Message.{Message, addressed}
use pulse_co_ap.Message.Encode.{encode}
use pulse_co_ap.Uri.{well_known_core, add_uri_path_options}
use pulse_co_ap.Client.{DiscoverSlot, Client, Environment, send}
use pulse_co_ap.Client.Slots.{next_token, bump_id}

abbrev pub all_nodes_endpoint : ℕ → Endpoint
all_nodes_endpoint port = record unspecified {
  ip = 224 ∷ 0 ∷ 1 ∷ 187 ∷ [];
  port = port;
  is_v6 = false;
}

-- The first idle slot, from index `i` on.
unfoldable pub free_discover : ℕ → List DiscoverSlot → Option ℕ
free_discover i [] = none
free_discover i (d ∷ ds) = if d.active then free_discover (i + 1) ds else some i

unfoldable pub discover_head : ℕ → ℕ → Message × Bool
discover_head id token =
    add_uri_path_options (some well_known_core)
      (addressed MessageType.non_confirmable id (token ∷ []) Code.get)

abbrev pub discover_message : ℕ → ℕ → Option Message
discover_message id token =
    if (discover_head id token).1 then some (discover_head id token).0 else none

abbrev pub issued : ℕ → ℕ → ℕ → ℕ → DiscoverSlot → DiscoverSlot
issued token handler context now d = record d {
  active = true;
  token = token ∷ [];
  on_discover = handler;
  user_context = context;
  issued_at = now;
}

-- From `encode` on.
unfoldable pub submit_discover :
    Environment → Endpoint → ℕ → ℕ → ℕ → ℕ → Option Message → Client → Client × Bool
submit_discover env to handler context slot token none c = (c, false)
submit_discover env to handler context slot token (some m) c = elim (encode max_msg_size m) [
  | none ↦ (c, false)
  | some bytes ↦
      let tried = send env to bytes c in
      if tried.1
      then (
        record tried.0 {
          discovers =
              modify slot (issued token handler context tried.0.last_now_ms) tried.0.discovers;
        },
        true,
      )
      else (tried.0, false)
]

unfoldable pub discover : Environment → Endpoint → ℕ → ℕ → Client → Client × Bool
discover env to handler context c = elim (free_discover 0 c.discovers) [
  | none ↦ (c, false)
  | some slot ↦
      submit_discover env to handler context slot c.next_token_byte
        (discover_message c.next_message_id c.next_token_byte) (bump_id (next_token c).1)
]

-- The overload without an endpoint.
unfoldable pub discover_all : Environment → ℕ → ℕ → ℕ → Client → Client × Bool
discover_all env handler context port = discover env (all_nodes_endpoint port) handler context

-- `nowMs - issuedAt`, on 32 bits.
abbrev pub age : ℕ → ℕ → ℕ
age now issued_at = u32 (now + 2 ^ 32 - issued_at)

abbrev pub expired : ℕ → DiscoverSlot → DiscoverSlot
expired now d =
    if d.active && leb discover_timeout_ms (age now d.issued_at)
    then record d { active = false }
    else d

unfoldable pub expire_discovers : ℕ → List DiscoverSlot → List DiscoverSlot
expire_discovers now [] = []
expire_discovers now (d ∷ ds) = expired now d ∷ expire_discovers now ds
