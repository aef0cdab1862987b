-- ===== src/Client/Blocks.antt =====
-- `Client::sendBlock1` and `Client::sendBlock2Request` (src/PulseCoAPClient.cpp).
pub mod Uploads
pub mod Meaning
pub mod Limits
use pulse_co_ap.Common.{
  ℕ, ◌-◌, ◌*◌, Bool, true, false, Option, none, some, List, [], ◌∷◌, ltb, leb, if◌then◌else◌,
  length, take, drop, get_elem?, modify,
}
use pulse_co_ap.Types.Config.{max_msg_size}
use pulse_co_ap.Types.Codes.{MessageType}
use pulse_co_ap.Types.Code
use pulse_co_ap.Types.OptionNumber
use pulse_co_ap.Types.Address.{Endpoint}
use pulse_co_ap.Message.{Message, addressed, add_option_uint, set_payload}
use pulse_co_ap.Message.Encode.{encode}
use pulse_co_ap.Uri.{add_uri_path_options}
use pulse_co_ap.Transaction
use pulse_co_ap.Block.{size_of_szx, to_option_value, Block1UploadState, Block2RecvState}
use pulse_co_ap.Client.{PendingRequest, Client, Environment, send}
use pulse_co_ap.Client.Slots.{bump_id}

-- `offset` and `remaining`.
abbrev pub upload_offset : Block1UploadState → ℕ
upload_offset up = up.next_num * size_of_szx up.szx

abbrev pub remaining : Block1UploadState → ℕ
remaining up = length up.payload - upload_offset up

abbrev pub has_more : Block1UploadState → Bool
has_more up = ltb (size_of_szx up.szx) (remaining up)

-- `blockLen`, and the bytes that it counts.
abbrev pub block_len : Block1UploadState → ℕ
block_len up = if has_more up then size_of_szx up.szx else remaining up

abbrev pub upload_block : Block1UploadState → List ℕ
upload_block up = take (block_len up) (drop (upload_offset up) up.payload)

-- The message of a block up to its path, and whether the path was added whole.
unfoldable pub block1_head : Block1UploadState → ℕ → Message × Bool
block1_head up id =
    add_uri_path_options (some up.path)
      (addressed MessageType.confirmable id (up.token ∷ []) up.method)

unfoldable pub block1_body : Block1UploadState → Message → Message
block1_body up m =
    let m1 = (add_option_uint OptionNumber.content_format up.content_format m).0 in
    let m2 =
      (add_option_uint OptionNumber.block1 (to_option_value up.next_num (has_more up) up.szx)
        m1).0 in
    set_payload (some (drop (upload_offset up) up.payload)) (block_len up) m2

unfoldable pub block1_message : Block1UploadState → ℕ → Option Message
block1_message up id =
    if (block1_head up id).1 then some (block1_body up (block1_head up id).0) else none

-- From `encode` on: a Confirmable message is sent and its transaction started.
unfoldable pub submit_block :
    Environment → Endpoint → ℕ → List ℕ → Option Message → Client → Client × Bool
submit_block env to id token none c = (c, false)
submit_block env to id token (some m) c = elim (encode max_msg_size m) [
  | none ↦ (c, false)
  | some bytes ↦
      let tried = send env to bytes c in
      if tried.1
      then (
        record tried.0 {
          transactions =
              (Transaction.start to id token bytes tried.0.last_now_ms tried.0.transactions).0;
        },
        true,
      )
      else (tried.0, false)
]

abbrev pub waiting_upload : Block1UploadState → Block1UploadState
waiting_upload up = record up { waiting_for_continue = true }

-- `up.waitingForContinue = true`, on success.
abbrev pub mark_waiting : ℕ → Client × Bool → Client × Bool
mark_waiting slot (c, true) = (record c { uploads = modify slot waiting_upload c.uploads }, true)
mark_waiting slot (c, false) = (c, false)

-- `sendBlock1` on the upload of that slot.
unfoldable pub send_upload : Environment → ℕ → Block1UploadState → Client → Client × Bool
send_upload env slot up c =
    if leb (length up.payload) (upload_offset up)
    then (c, false)
    else mark_waiting slot (
        submit_block env up.server c.next_message_id (up.token ∷ [])
          (block1_message up c.next_message_id) (bump_id c))

unfoldable pub send_block1 : Environment → ℕ → Client → Client × Bool
send_block1 env slot c = elim (get_elem? c.uploads slot) [
  | none ↦ (c, false)
  | some up ↦ send_upload env slot up c
]

unfoldable pub block2_head : PendingRequest → Block2RecvState → ℕ → Message × Bool
block2_head p recv id =
    add_uri_path_options (some recv.path) (addressed MessageType.confirmable id p.token Code.get)

unfoldable pub block2_request : PendingRequest → Block2RecvState → ℕ → Option Message
block2_request p recv id =
    if (block2_head p recv id).1
    then some
        (add_option_uint OptionNumber.block2 (to_option_value recv.next_num false recv.szx)
          (block2_head p recv id).0).0
    else none

unfoldable pub send_block2_request : Environment → ℕ → Client → Client × Bool
send_block2_request env slot c = elim (get_elem? c.downloads slot) [
  | none ↦ (c, false)
  | some recv ↦ elim (get_elem? c.pending slot) [
    | none ↦ (c, false)
    | some p ↦
        submit_block env recv.server c.next_message_id p.token
          (block2_request p recv c.next_message_id) (bump_id c)
  ]
]
