-- ===== src/Server/Invariant/Polling.antt =====
-- About the sizes of the arrays under `poll` (src/PulseCoAPServer.cpp).
use pulse_co_ap.Common.{
  ℕ, ◌+◌, ◌-◌, ◌^◌, ◌∙◌, Bool, true, false, not, Option, none, some, List, ◌==◌, if◌then◌else◌,
  get_elem?, Bool-cases, Option-cases, inl, inr, bit_and, length-set,
}
use pulse_co_ap.Common.Bits.{u32}
use pulse_co_ap.Types.Config.{max_uri_path_len}
use pulse_co_ap.Types.Codes.{is_reset, is_acknowledgement, is_method_code}
use pulse_co_ap.Types.Code
use pulse_co_ap.Types.Address.{Endpoint}
use pulse_co_ap.Message.{CoapOption, Message, bytes_of}
use pulse_co_ap.Message.Decode.{DecodeError, decode}
use pulse_co_ap.Uri.{join_uri_path}
use pulse_co_ap.Transaction.{Transaction, Fired, call_back, tick_at, tick_slot}
use pulse_co_ap.Transaction.Ticks.{tick_inv}
use pulse_co_ap.Block.{BlockOption, from_option, Block1Session}
use pulse_co_ap.Server.{Resource, Server}
use pulse_co_ap.Server.Resources.{Captures, find_resource}
use pulse_co_ap.Server.Replies.{send_code, send_continue}
use pulse_co_ap.Server.Handle.{App, c_str, method_mask}
use pulse_co_ap.Server.Upload.{
  find_block1_session, allocate_block1_session, put_session, free_block1_session, Progress,
  unexpected, too_large, assembled, take_block, finish_upload, continue_upload, begin_upload,
  handle_block1,
}
use pulse_co_ap.Server.Poll.{
  upload_option, handle_allowed, handle_method, handle_request, server_host, receive_message,
  receive_datagram, poll,
}
use pulse_co_ap.Server.Invariant.{IsSized, KeepsSized}
use pulse_co_ap.Transaction.Bounds.{length-complete}
use pulse_co_ap.Server.Invariant.Lengths.{length-allocate_block1_session}
use pulse_co_ap.Server.Invariant.Tables.{remove_observer-IsTable, drop_rejected-IsTable}
use pulse_co_ap.Server.Invariant.Serving.{
  send_piggybacked_response-IsSized, send_continue-IsSized, acknowledge-IsSized,
  release_claim-IsSized, claim_deferred-IsSized, observe_request-IsSized, call_handler-IsSized,
  handle_plain-IsSized, IsSized-if,
}

put_session-IsSized :
    (i : ℕ) (b : Block1Session) (s : Server) → IsSized s → IsSized (put_session i b s)
unfolding put_session
put_session-IsSized i b s w = (w.0, w.1, w.2, w.3, length-set s.block1_sessions i b ∙ w.4, w.5)

free_block1_session-IsSized : (i : ℕ) (s : Server) → IsSized s → IsSized (free_block1_session i s)
unfolding free_block1_session
free_block1_session-IsSized i s w = elim (Option-cases (get_elem? s.block1_sessions i)) [
  | inl e ↦ rw (free_block1_session, e) w
  | inr (b, e) ↦ rw (free_block1_session, e) (put_session-IsSized i _ s w)
]

module _ (app : App) (k : KeepsSized app) (r : Resource) (msg : Message) (from : Endpoint)
    (c : Captures) (observe : Option ℕ) where
  finish_upload-IsSized :
      (i : ℕ) (body : List ℕ) (s : Server)
      → IsSized s
      → IsSized (finish_upload app r msg from c observe i body s)
  unfolding finish_upload
  finish_upload-IsSized i body s w =
      let ran =
        call_handler-IsSized app r.handler r.user_context _ _ k
          (claim_deferred-IsSized msg from _ s w) in
      let freed = free_block1_session-IsSized i _ ran in
      IsSized-if _ _ _ (acknowledge-IsSized msg from _ freed)
        (send_piggybacked_response-IsSized msg from _ _ _ _ _ (release_claim-IsSized _ _ freed))

  progress-IsSized :
      (b1 : BlockOption) (i : ℕ) (b : Block1Session) (p : Progress) (s : Server)
      → IsSized s
      → IsSized (elim p [
        | unexpected ↦ send_continue msg from (u32 (b.next_expected_num + 2 ^ 32 - 1)) true b1.szx s
        | too_large ↦ send_code msg from Code.request_entity_too_large (free_block1_session i s)
        | assembled b' ↦
            if b1.m
            then send_continue msg from b1.num false b1.szx (put_session i b' s)
            else finish_upload app r msg from c observe i b'.buffer (put_session i b' s)
      ])
  progress-IsSized b1 i b Progress.unexpected s w = send_continue-IsSized msg from _ _ _ s w
  progress-IsSized b1 i b Progress.too_large s w =
      send_piggybacked_response-IsSized msg from _ _ _ _ _ (free_block1_session-IsSized i s w)
  progress-IsSized b1 i b (Progress.assembled b') s w =
      let kept = put_session-IsSized i b' s w in
      IsSized-if b1.m _ _ (send_continue-IsSized msg from _ _ _ _ kept)
        (finish_upload-IsSized i b'.buffer _ kept)

  continue_upload-IsSized :
      (b1 : BlockOption) (i : ℕ) (s : Server)
      → IsSized s
      → IsSized (continue_upload app r msg from c observe b1 i s)
  unfolding continue_upload
  continue_upload-IsSized b1 i s w = elim (Option-cases (get_elem? s.block1_sessions i)) [
    | inl e ↦ rw (continue_upload, e) w
    | inr (b, e) ↦
        rw (continue_upload, e)
          (progress-IsSized b1 i b (take_block b1.num (bytes_of msg.payload) b) s w)
  ]

  begin_upload-IsSized :
      (b1 : BlockOption) (s : Server)
      → IsSized s
      → IsSized (begin_upload app r msg from c observe b1 s)
  unfolding begin_upload
  begin_upload-IsSized b1 s w = elim (Bool-cases (not (b1.num == 0))) [
    | inl late ↦ rw (begin_upload, late) (send_piggybacked_response-IsSized msg from _ _ _ _ s w)
    | inr first ↦
        elim (Option-cases (allocate_block1_session from msg.token 0 s.block1_sessions).1) [
          | inl e ↦
              rw (begin_upload, first, e) (send_piggybacked_response-IsSized msg from _ _ _ _ s w)
          | inr (i, e) ↦
              rw (begin_upload, first, e)
                (continue_upload-IsSized b1 i _ (
                  w.0,
                  w.1,
                  w.2,
                  w.3,
                  length-allocate_block1_session from msg.token 0 s.block1_sessions ∙ w.4,
                  w.5,
                ))
        ]
  ]

  handle_block1-IsSized :
      (o : CoapOption) (s : Server)
      → IsSized s
      → IsSized (handle_block1 app r msg from c observe o s)
  unfolding handle_block1
  handle_block1-IsSized o s w = elim (Option-cases (from_option o)) [
    | inl e ↦ rw (handle_block1, e) (send_piggybacked_response-IsSized msg from _ _ _ _ s w)
    | inr (b1, e) ↦ elim (Option-cases (find_block1_session from msg.token 0 s.block1_sessions)) [
      | inl f ↦ rw (handle_block1, e, f) (begin_upload-IsSized b1 s w)
      | inr (i, f) ↦ rw (handle_block1, e, f) (continue_upload-IsSized b1 i s w)
    ]
  ]

module _ (app : App) (k : KeepsSized app) (blockwise : Bool) where
  handle_allowed-IsSized :
      (idx : ℕ) (r : Resource) (msg : Message) (from : Endpoint) (c : Captures) (s : Server)
      → IsSized s
      → IsSized (handle_allowed app blockwise idx r msg from c s)
  unfolding handle_allowed
  handle_allowed-IsSized idx r msg from c s w =
      let seen = observe_request-IsSized idx r msg from s w in
      elim (Option-cases (upload_option blockwise msg)) [
        | inl e ↦
            rw (handle_allowed, e) (handle_plain-IsSized app blockwise r msg from c _ _ k seen)
        | inr (o, e) ↦ rw (handle_allowed, e) (handle_block1-IsSized app k r msg from c _ o _ seen)
      ]

  handle_method-IsSized :
      (idx : ℕ) (r : Resource) (msg : Message) (from : Endpoint) (c : Captures) (s : Server)
      → IsSized s
      → IsSized (handle_method app blockwise idx r msg from c s)
  unfolding handle_method
  handle_method-IsSized idx r msg from c s w = elim (Option-cases (method_mask msg.code)) [
    | inl e ↦ rw (handle_method, e) (send_piggybacked_response-IsSized msg from _ _ _ _ s w)
    | inr (mask, e) ↦
        rw (handle_method, e)
          (IsSized-if (bit_and r.methods mask == 0) _ _
            (send_piggybacked_response-IsSized msg from _ _ _ _ s w)
            (handle_allowed-IsSized idx r msg from c s w))
  ]

  handle_request-IsSized :
      (msg : Message) (from : Endpoint) (s : Server)
      → IsSized s
      → IsSized (handle_request app blockwise msg from s)
  unfolding handle_request
  handle_request-IsSized msg from s w = elim (Option-cases (join_uri_path max_uri_path_len msg)) [
    | inl e ↦ rw (handle_request, e) (send_piggybacked_response-IsSized msg from _ _ _ _ s w)
    | inr (path, e) ↦ elim (Option-cases (find_resource (c_str path) s)) [
      | inl f ↦ rw (handle_request, e, f) (send_piggybacked_response-IsSized msg from _ _ _ _ s w)
      | inr ((idx, c), f) ↦ elim (Option-cases (get_elem? s.resources idx)) [
        | inl g ↦ rw (handle_request, e, f, g) w
        | inr (r, g) ↦ rw (handle_request, e, f, g) (handle_method-IsSized idx r msg from c s w)
      ]
    ]
  ]

  receive_message-IsSized :
      (msg : Message) (from : Endpoint) (s : Server)
      → IsSized s
      → IsSized (receive_message app blockwise msg from s)
  unfolding receive_message
  receive_message-IsSized msg from s w =
      IsSized-if (is_reset msg.type) _ _
        (w.0, drop_rejected-IsTable from msg.message_id s.observers w.1, w.2, w.3, w.4, w.5)
        (IsSized-if (is_acknowledgement msg.type) _ _
          (w.0, w.1, w.2, length-complete from msg.message_id s.tx_pool ∙ w.3, w.4, w.5)
          (IsSized-if (is_method_code msg.code) _ s (handle_request-IsSized msg from s w) w))

  decoded-IsSized :
      (e : DecodeError) (msg : Message) (from : Endpoint) (s : Server)
      → IsSized s
      → IsSized (elim e [ DecodeError.no_error ↦ receive_message app blockwise msg from s | _ ↦ s ])
  decoded-IsSized DecodeError.no_error msg from s w = receive_message-IsSized msg from s w
  decoded-IsSized _ msg from s w = w

  call_back-IsSized :
      (s : Server) (t : Transaction) (f : Fired) → IsSized s → IsSized (call_back server_host s t f)
  unfolding call_back
  call_back-IsSized s t Fired.nothing w = w
  call_back-IsSized s t Fired.resent w = w
  call_back-IsSized s t Fired.timed_out w =
      (w.0, remove_observer-IsTable t.remote t.token s.observers w.1, w.2, w.3, w.4, w.5)

  tick_at-IsSized : (now i : ℕ) (s : Server) → IsSized s → IsSized (tick_at server_host now i s)
  unfolding tick_at
  tick_at-IsSized now i s w = elim (Option-cases (get_elem? s.tx_pool i)) [
    | inl e ↦ rw (tick_at, e) w
    | inr (t, e) ↦
        rw (tick_at, e)
          (call_back-IsSized _ t (tick_slot now t).1
            (w.0, w.1, w.2, length-set s.tx_pool i (tick_slot now t).0 ∙ w.3, w.4, w.5))
  ]

  -- A poll, whether a datagram has come or not and whatever is in it, keeps the size of every array
  -- of the server, and its next message ID within 16 bits, if the handlers of the application do.
  pub poll-IsSized :
      (now : ℕ) (datagram : Option (Endpoint × List ℕ)) (s : Server)
      → IsSized s
      → IsSized (poll app blockwise now datagram s)
  unfolding poll receive_datagram
  poll-IsSized now none s w =
      tick_inv server_host IsSized now (record s { last_now_ms = now }) (tick_at-IsSized now) w
  poll-IsSized now (some (from, bytes)) s w =
      decoded-IsSized (decode bytes).1 (decode bytes).0 from _
        (tick_inv server_host IsSized now (record s { last_now_ms = now }) (tick_at-IsSized now) w)
