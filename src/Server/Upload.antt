-- ===== src/Server/Upload.antt =====
-- Block1 uploads on the server (RFC 7959): the sessions, and the branch of `handleRequest`.
pub mod Assembly
use pulse_co_ap.Common.{
  ℕ, ◌+◌, ◌-◌, ◌^◌, Bool, true, false, not, ◌&&◌, Option, none, some, List, [], ◌∷◌, ◌++◌, ltb,
  ◌==◌, if◌then◌else◌, length, get_elem?, set, same,
}
use pulse_co_ap.Common.Bits.{u32}
use pulse_co_ap.Types.Config.{block1_max_body}
use pulse_co_ap.Types.Code
use pulse_co_ap.Types.Address.{Endpoint, endpoint_eq}
use pulse_co_ap.Message.{CoapOption, Message, bytes_of}
use pulse_co_ap.Block.{BlockOption, from_option, Block1Session}
use pulse_co_ap.Server.{Resource, Server}
use pulse_co_ap.Server.Resources.{Captures}
use pulse_co_ap.Server.Replies.{
  send_code, send_piggybacked_response, send_continue, allocate_deferred,
}
use pulse_co_ap.Server.Handle.{
  App, call_handler, claim_deferred, release_claim, request_of, is_deferred, acknowledge,
}

unfoldable pub is_session : Endpoint → List ℕ → Block1Session → Bool
is_session remote token b = b.active && (endpoint_eq b.remote remote && same b.token token)

-- The index of the session of that peer and token.
unfoldable pub find_block1_session : Endpoint → List ℕ → ℕ → List Block1Session → Option ℕ
find_block1_session remote token i [] = none
find_block1_session remote token i (b ∷ bs) =
    if is_session remote token b then some i else find_block1_session remote token (i + 1) bs

unfoldable pub opened_session : Endpoint → List ℕ → Block1Session
opened_session remote token = record {
  active = true;
  remote = remote;
  token = token;
  next_expected_num = 0;
  buffer = [];
}

-- The first idle session is opened; its index is the second value.
unfoldable pub allocate_block1_session :
    Endpoint → List ℕ → ℕ → List Block1Session → List Block1Session × Option ℕ
allocate_block1_session remote token i [] = ([], none)
allocate_block1_session remote token i (b ∷ bs) =
    let later = allocate_block1_session remote token (i + 1) bs in
    if b.active then (b ∷ later.0, later.1) else (opened_session remote token ∷ bs, some i)

unfoldable pub put_session : ℕ → Block1Session → Server → Server
put_session i b s = record s { block1_sessions = set s.block1_sessions i b }

unfoldable pub free_block1_session : ℕ → Server → Server
free_block1_session i s = elim (get_elem? s.block1_sessions i) [
  | none ↦ s
  | some b ↦ put_session i (record b { active = false }) s
]

-- What a session makes of one block.
pub data Progress : Type 0 where
  unexpected too_large : Progress
  assembled : Block1Session → Progress

unfoldable pub take_block : ℕ → List ℕ → Block1Session → Progress
take_block num payload b =
    if not (num == b.next_expected_num)
    then Progress.unexpected
    else if ltb block1_max_body (length b.buffer + length payload)
    then Progress.too_large
    else Progress.assembled (record b {
      next_expected_num = u32 (b.next_expected_num + 1);
      buffer = b.buffer ++ payload;
    })

-- The last block has come: the handler runs on the whole body.
unfoldable pub finish_upload :
    App → Resource → Message → Endpoint → Captures → Option ℕ → ℕ → List ℕ → Server → Server
finish_upload app r msg from c observe i body s =
    let handle = allocate_deferred s in
    let claimed = claim_deferred msg from handle s in
    let (ran, res) =
      call_handler app r.handler r.user_context (request_of msg from handle (some body) c)
        claimed in
    let freed = free_block1_session i ran in
    if is_deferred res handle
    then acknowledge msg from freed
    else send_piggybacked_response msg from res.code res.payload res.content_format observe
        (release_claim handle freed)

-- A block for the session in slot `i`.
unfoldable pub continue_upload :
    App → Resource → Message → Endpoint → Captures → Option ℕ → BlockOption → ℕ → Server → Server
continue_upload app r msg from c observe b1 i s = elim (get_elem? s.block1_sessions i) [
  | none ↦ s
  | some b ↦ elim (take_block b1.num (bytes_of msg.payload) b) [
    | unexpected ↦ send_continue msg from (u32 (b.next_expected_num + 2 ^ 32 - 1)) true b1.szx s
    | too_large ↦ send_code msg from Code.request_entity_too_large (free_block1_session i s)
    | assembled b' ↦
        let kept = put_session i b' s in
        if b1.m
        then send_continue msg from b1.num false b1.szx kept
        else finish_upload app r msg from c observe i b'.buffer kept
  ]
]

-- A block of a peer and token that have no session yet.
unfoldable pub begin_upload :
    App → Resource → Message → Endpoint → Captures → Option ℕ → BlockOption → Server → Server
begin_upload app r msg from c observe b1 s =
    if not (b1.num == 0)
    then send_code msg from Code.request_entity_incomplete s
    else let (sessions, found) = allocate_block1_session from msg.token 0 s.block1_sessions in
      elim found [
        | none ↦ send_code msg from Code.service_unavailable s
        | some i ↦
            continue_upload app r msg from c observe b1 i (record s { block1_sessions = sessions })
      ]

unfoldable pub handle_block1 :
    App → Resource → Message → Endpoint → Captures → Option ℕ → CoapOption → Server → Server
handle_block1 app r msg from c observe o s = elim (from_option o) [
  | none ↦ send_code msg from Code.bad_option s
  | some b1 ↦ elim (find_block1_session from msg.token 0 s.block1_sessions) [
    | none ↦ begin_upload app r msg from c observe b1 s
    | some i ↦ continue_upload app r msg from c observe b1 i s
  ]
]
