-- ===== src/Client/Blocks/Limits.antt =====
-- About uploads under the default limits of src/PulseCoAPConfig.h (src/PulseCoAPClient.cpp).
use pulse_co_ap.Common.{
  ℕ, zero, suc, ◌*◌, ◌≤◌, ◌<◌, ◌≡◌, refl, ap, ◌∙◌, Bool, true, false, none, some, List, [], ◌∷◌,
  ◌++◌, ltb, leb, length, take, drop, get_elem?, modify, arith, if_both, Bool-cases, Option-cases,
  inl, inr, ◌⊎◌, length-take, length-drop, length-append, lt→ltb, gt→leb,
}
use pulse_co_ap.Common.Bits.{IsByte, IsU16}
use pulse_co_ap.Types.Config.{max_msg_size, block_szx, max_uri_path_len}
use pulse_co_ap.Types.Codes.{MessageType}
use pulse_co_ap.Types.OptionNumber
use pulse_co_ap.Message.{Message, addressed, set_payload, bytes_of}
use pulse_co_ap.Message.Encode.{encode}
use pulse_co_ap.Message.Wire.{wire, header_bytes, options_bytes, payload_bytes, IsWellFormed}
use pulse_co_ap.Message.Emit.{encode-wire}
use pulse_co_ap.Message.Build.{add_option_uint-IsBuilt, set_payload_part-IsBuilt}
use pulse_co_ap.Block.{size_of_szx, Block1UploadState}
use pulse_co_ap.Uri.Kept.{add_uri_path_options-Keeps}
use pulse_co_ap.Client.{Client, Environment}
use pulse_co_ap.Client.Slots.{allocate_pending, next_token, close}
use pulse_co_ap.Client.Requests.{Order}
use pulse_co_ap.Client.Requests.Meaning.{addressed-IsHeaded}
use pulse_co_ap.Client.Blocks.{
  upload_offset, block_len, block1_head, block1_body, block1_message, submit_block, send_upload,
  send_block1,
}
use pulse_co_ap.Client.Methods.{
  opened_upload, upload_path, open_upload, keep_path, abandon, or_abandon, launch_upload,
  start_upload, send_content,
}

wire_room : (m : Message) → length (payload_bytes m.payload) ≤ length (wire m)
unfolding wire
wire_room m = omega (
  arith,
  length-append (header_bytes m)
      (m.token ++ (options_bytes 0 m.options ++ payload_bytes m.payload)),
  length-append m.token (options_bytes 0 m.options ++ payload_bytes m.payload),
  length-append (options_bytes 0 m.options) (payload_bytes m.payload),
)

-- A message is longer than its payload.
encode_long :
    (cap : ℕ) (m : Message) (bytes : List ℕ)
    → IsWellFormed m
    → m.payload ≡ some bytes
    → cap ≤ length bytes
    → encode cap m ≡ none
unfolding payload_bytes
encode_long cap m bytes w e h =
    let marked : length (payload_bytes m.payload) ≡ suc (length bytes) =
      ap (λ p. length (payload_bytes p)) e in
    encode-wire cap m w
    ∙ rw (gt→leb (length (wire m)) cap (omega (arith, marked, wire_room m))) refl

-- A block of the default size, on a well-formed message.
full_block :
    (up : Block1UploadState) (id : ℕ)
    → up.szx ≡ block_szx
    → up.next_num ≡ 0
    → max_msg_size < length up.payload
    → IsByte up.method
    → IsU16 id
    → encode max_msg_size (block1_body up (block1_head up id).0) ≡ none
unfolding block1_body block1_head set_payload
full_block up id szx num long method hid =
    let (h, p) = addressed-IsHeaded MessageType.confirmable id up.token up.method method hid in
    let head = (block1_head up id).0 in
    let (b, same, q) =
      add_uri_path_options-Keeps up.path
        (addressed MessageType.confirmable id (up.token ∷ []) up.method) h.built in
    let size : size_of_szx up.szx ≡ 256 = ap size_of_szx szx in
    let offset : upload_offset up ≡ 0 = ap (λ k. k * size_of_szx up.szx) num ∙ omega arith in
    let len : block_len up ≡ 256 = ground arith in
    let rest = length-drop (upload_offset up) up.payload in
    encode_long max_msg_size (block1_body up head)
      (take (block_len up) (drop (upload_offset up) up.payload))
      (set_payload_part-IsBuilt (drop (upload_offset up) up.payload) (block_len up) _ (omega arith)
        (omega arith)
        (add_option_uint-IsBuilt OptionNumber.block1 _ _ (omega arith) (
          add_option_uint-IsBuilt OptionNumber.content_format up.content_format head (omega arith)
            b))).well_formed
      refl (omega (arith, length-take (block_len up) (drop (upload_offset up) up.payload)))

block_refused :
    (env : Environment) (slot : ℕ) (up : Block1UploadState) (c : Client)
    → up.szx ≡ block_szx
    → up.next_num ≡ 0
    → max_msg_size < length up.payload
    → IsByte up.method
    → IsU16 c.next_message_id
    → ((send_upload env slot up c).1 ≡ false) × ((send_upload env slot up c).0.sent ≡ c.sent)
unfolding send_upload submit_block block1_message
block_refused env slot up c szx num long method hid =
    elim (Bool-cases (leb (length up.payload) (upload_offset up))) [
      | inl done ↦ rw (send_upload, done) (refl, refl)
      | inr left ↦ elim (Bool-cases (block1_head up c.next_message_id).1) [
        | inl whole ↦
            rw
              (
                send_upload,
                left,
                whole,
                submit_block,
                full_block up c.next_message_id szx num long method hid,
              )
              (refl, refl)
        | inr partial_path ↦ rw (send_upload, left, partial_path) (refl, refl)
      ]
    ]

-- What an upload of the default size comes to.
abbrev Fails : Client → Client × Bool → Type 0
Fails c r = (r.1 ≡ false) × (r.0.sent ≡ c.sent)

abandoned : (slot : ℕ) (c : Client) (r : Client × Bool) → Fails c r → Fails c (or_abandon slot r)
unfolding or_abandon abandon close
abandoned slot c (d, true) h = absurd cc
abandoned slot c (d, false) h = h

-- The upload that `put` and `post` open is of the default size, from block 0 on.
abbrev IsOpened : Order → Block1UploadState → Type 0
IsOpened o up =
    (up.szx ≡ block_szx)
    × (up.next_num ≡ 0)
    × (up.payload ≡ bytes_of o.payload)
    × (up.method ≡ o.method)

found-IsOpened :
    (o : Order) (slot token : ℕ) (ups : List Block1UploadState)
    → let ups' = modify slot (upload_path o.path) (modify slot (opened_upload o token) ups) in
      (get_elem? ups' slot ≡ none)
      ⊎ ((up : Block1UploadState) × (get_elem? ups' slot ≡ some up) × IsOpened o up)
found-IsOpened o slot token [] = inl refl
found-IsOpened o zero token (up ∷ ups) =
    inr (upload_path o.path (opened_upload o token up), refl, (refl, refl, refl, refl))
found-IsOpened o (suc slot) token (up ∷ ups) = found-IsOpened o slot token ups

send_block1-Fails :
    (env : Environment) (o : Order) (slot token : ℕ) (c : Client)
    → max_msg_size < length (bytes_of o.payload)
    → IsByte o.method
    → IsU16 c.next_message_id
    → Fails c (send_block1 env slot (keep_path o.path slot (open_upload o slot token c)))
unfolding send_block1 keep_path open_upload
send_block1-Fails env o slot token c long method hid =
    elim (found-IsOpened o slot token c.uploads) [
      | inl out ↦ rw (send_block1, out) (refl, refl)
      | inr (up, found, (szx, num, payload, code)) ↦
          rw (send_block1, found)
            (block_refused env slot up _ szx num (rw payload long) (rw code method) hid)
    ]

launch_upload-Fails :
    (env : Environment) (o : Order) (slot token : ℕ) (c : Client)
    → max_msg_size < length (bytes_of o.payload)
    → IsByte o.method
    → IsU16 c.next_message_id
    → Fails c (launch_upload env o slot (open_upload o slot token c))
unfolding launch_upload
launch_upload-Fails env o slot token c long method hid =
    if_both (Fails c) (leb max_uri_path_len (length o.path))
      (unfold abandon close open_upload in (refl, refl))
      (abandoned slot c _ (send_block1-Fails env o slot token c long method hid))

-- Under the default limits `put` and `post` of a payload longer than a block are refused, with
-- block-wise transfer built in: a block alone fills the buffer of a message, so the first cannot be
-- encoded. False is returned and nothing is sent, for a method of 8 bits and a message ID of 16.
pub send_content_refused :
    (env : Environment) (o : Order) (c : Client)
    → size_of_szx block_szx < length (bytes_of o.payload)
    → IsByte o.method
    → IsU16 c.next_message_id
    → ((send_content env true o c).1 ≡ false) × ((send_content env true o c).0.sent ≡ c.sent)
unfolding send_content start_upload next_token
send_content_refused env o c long method hid =
    let large : ltb (size_of_szx block_szx) (length (bytes_of o.payload)) ≡ true =
      lt→ltb _ _ long in
    elim (Option-cases (allocate_pending 0 c.pending).1) [
      | inl full ↦ rw (send_content, large, start_upload, full) (refl, refl)
      | inr (slot, found) ↦
          rw (send_content, large, start_upload, found)
            (launch_upload-Fails env o slot c.next_token_byte _ long method hid)
    ]
