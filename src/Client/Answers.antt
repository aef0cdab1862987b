-- ===== src/Client/Answers.antt =====
-- What `Client::poll` does with a response (src/PulseCoAPClient.cpp). An argument `slot` is the
-- index of the pending request that the response is for.
pub mod Downloads
pub mod Once
use pulse_co_ap.Common.{
  ℕ, ◌+◌, ◌-◌, Bool, true, false, ◌&&◌, Option, none, some, List, [], ◌∷◌, ◌++◌, ltb, ◌==◌,
  if◌then◌else◌, length, take, get_elem?, modify, same, ◌>>=◌,
}
use pulse_co_ap.Common.Bits.{u16, u32}
use pulse_co_ap.Types.Config.{max_msg_size, block2_max_body}
use pulse_co_ap.Types.Code
use pulse_co_ap.Types.ContentFormat
use pulse_co_ap.Types.OptionNumber
use pulse_co_ap.Types.Address.{Endpoint}
use pulse_co_ap.Message.{Message, find_option, option_as_uint, bytes_of}
use pulse_co_ap.Message.Content.{empty_ack}
use pulse_co_ap.Message.Encode.{encode}
use pulse_co_ap.Block.{BlockOption, from_option, Block1UploadState, Block2RecvState}
use pulse_co_ap.Client.{
  ClientResponse, PendingRequest, DiscoverSlot, Client, Environment, send, call_response,
  call_timeout, call_discover,
}
use pulse_co_ap.Client.Slots.{find_pending, close, settle}
use pulse_co_ap.Client.Requests.{stopped_upload}
use pulse_co_ap.Client.Blocks.{send_block1, send_block2_request}
use pulse_co_ap.Client.Methods.{stopped_download, abandon}

-- The ACK of a separate response; whether it is taken is not asked.
unfoldable pub acknowledge : Environment → Endpoint → ℕ → Client → Client
acknowledge env from id c = elim (encode max_msg_size (empty_ack id)) [
  | none ↦ c
  | some bytes ↦ (send env from bytes c).0
]

-- The Content-Format of a response, a 16-bit enumeration.
unfoldable pub format_of : Message → ℕ
format_of msg = elim (find_option OptionNumber.content_format msg) [
  | none ↦ ContentFormat.text_plain
  | some o ↦ u16 (option_as_uint o)
]

-- The test of a discover slot, and the first that passes it.
unfoldable pub carries_discover : List ℕ → DiscoverSlot → Bool
carries_discover token d = d.active && same d.token token

unfoldable pub find_discover : List ℕ → List DiscoverSlot → Option DiscoverSlot
find_discover token [] = none
find_discover token (d ∷ ds) = if carries_discover token d then some d else find_discover token ds

-- The ordinary end: the callback, and the slot is freed unless it observes.
abbrev pub plain_response : Message → ClientResponse
plain_response msg = record {
  code = msg.code;
  payload = msg.payload;
  content_format = format_of msg;
}

unfoldable pub deliver_plain : Environment → Message → ℕ → PendingRequest → Client → Client
deliver_plain env msg slot p c =
    settle slot (call_response env p.on_response (plain_response msg) p.user_context c)

-- 2.31 Continue: the block after the one acknowledged.
abbrev pub advanced : Block1UploadState → Block1UploadState
advanced up = record up { next_num = u32 (up.next_num + 1); waiting_for_continue = false }

unfoldable pub or_time_out : Environment → ℕ → PendingRequest → Client × Bool → Client
or_time_out env slot p (c, true) = c
or_time_out env slot p (c, false) = call_timeout env p.user_context (abandon slot c)

unfoldable pub deliver_continue : Environment → ℕ → PendingRequest → Client → Client
deliver_continue env slot p c =
    or_time_out env slot p
      (send_block1 env slot (record c { uploads = modify slot advanced c.uploads }))

-- The receive state, opened by the first block.
unfoldable pub open_download : Message → Endpoint → BlockOption → Block2RecvState → Block2RecvState
open_download msg from b recv = if recv.active then recv else record recv {
  active = true;
  next_num = 0;
  szx = b.szx;
  buffer = [];
  server = from;
  content_format = format_of msg;
}

-- A block of the expected number goes behind those before it, as far as there is room.
unfoldable pub take_download : Message → BlockOption → Block2RecvState → Block2RecvState
take_download msg b recv =
    let avail = block2_max_body - length recv.buffer in
    let copy_len = if ltb msg.payload_len avail then msg.payload_len else avail in
    if b.num == recv.next_num
    then record recv {
      buffer = recv.buffer ++ take copy_len (bytes_of msg.payload);
      next_num = u32 (recv.next_num + 1);
    }
    else recv

abbrev pub downloaded : Message → Endpoint → BlockOption → Block2RecvState → Block2RecvState
downloaded msg from b recv = take_download msg b (open_download msg from b recv)

abbrev pub assembled_response : Message → Block2RecvState → ClientResponse
assembled_response msg recv = record {
  code = msg.code;
  payload = some recv.buffer;
  content_format = recv.content_format;
}

unfoldable pub finish_download :
    Environment → Message → ℕ → PendingRequest → Option Block2RecvState → Client → Client
finish_download env msg slot p none c = c
finish_download env msg slot p (some recv) c =
    let called = call_response env p.on_response (assembled_response msg recv) p.user_context c in
    settle slot (record called { downloads = modify slot stopped_download called.downloads })

unfoldable pub deliver_block2 :
    Environment → Message → Endpoint → ℕ → PendingRequest → BlockOption → Client → Client
deliver_block2 env msg from slot p b c =
    let c' = record c { downloads = modify slot (downloaded msg from b) c.downloads } in
    if b.m
    then (send_block2_request env slot c').0
    else finish_download env msg slot p (get_elem? c'.downloads slot) c'

-- The Block2 option, where it is there and well formed.
unfoldable pub block2_of : Message → Option BlockOption
block2_of msg = find_option OptionNumber.block2 msg >>= from_option

-- From the end of an upload on.
unfoldable pub deliver_final :
    Environment → Message → Endpoint → ℕ → PendingRequest → Client → Client
deliver_final env msg from slot p c =
    let c' = record c { uploads = modify slot stopped_upload c.uploads } in
    elim (block2_of msg) [
      | none ↦ deliver_plain env msg slot p c'
      | some b ↦ deliver_block2 env msg from slot p b c'
    ]

unfoldable pub uploading : ℕ → Client → Bool
uploading slot c = elim (get_elem? c.uploads slot) [ none ↦ false | some up ↦ up.active ]

unfoldable pub deliver_pending :
    Environment → Bool → Message → Endpoint → ℕ → PendingRequest → Client → Client
deliver_pending env false msg from slot p c = deliver_plain env msg slot p c
deliver_pending env true msg from slot p c =
    if msg.code == Code.continue && uploading slot c
    then deliver_continue env slot p c
    else deliver_final env msg from slot p c

unfoldable pub deliver_unicast : Environment → Bool → Message → Endpoint → Client → Client
deliver_unicast env blockwise msg from c = elim (find_pending msg.token 0 c.pending) [
  | none ↦ c
  | some slot ↦ elim (get_elem? c.pending slot) [
    | none ↦ c
    | some p ↦ deliver_pending env blockwise msg from slot p c
  ]
]

-- The discover slots are asked before the pending requests.
unfoldable pub deliver : Environment → Bool → Message → Endpoint → Client → Client
deliver env blockwise msg from c = elim (find_discover msg.token c.discovers) [
  | none ↦ deliver_unicast env blockwise msg from c
  | some d ↦ call_discover env d.on_discover from msg.payload d.user_context c
]
