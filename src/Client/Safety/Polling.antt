-- ===== src/Client/Safety/Polling.antt =====
-- About the bounds of a client under `poll`.
use pulse_co_ap.Common.{
  ℕ, ◌-◌, Bool, true, false, Option, none, some, List, [], ◌∷◌, ltb, if◌then◌else◌, length, take,
  get_elem?, modify, arith, if_both, Bool-cases, Option-cases, inl, inr, length-append, length-take,
}
use pulse_co_ap.Types.Config.{max_msg_size, block2_max_body}
use pulse_co_ap.Types.Codes.{is_reset, is_acknowledgement, is_confirmable}
use pulse_co_ap.Types.Address.{Endpoint}
use pulse_co_ap.Message.{Message, bytes_of}
use pulse_co_ap.Message.Content.{empty_ack}
use pulse_co_ap.Message.Encode.{encode}
use pulse_co_ap.Message.Decode.{DecodeError, decode}
use pulse_co_ap.Transaction.{Transaction, Fired, call_back, tick_at}
use pulse_co_ap.Transaction.Ticks.{tick_inv}
use pulse_co_ap.Transaction.Bounds.{
  complete-IsPool, tick_slot-FitsTransaction, set-IsPool, get_elem?-FitsTransaction,
}
use pulse_co_ap.Block.{BlockOption, Block2RecvState}
use pulse_co_ap.Client.{
  ClientResponse, PendingRequest, Call, Client, Environment, call, call_response, call_timeout,
  call_discover,
}
use pulse_co_ap.Client.Slots.{find_pending, settled, settle}
use pulse_co_ap.Client.Requests.{stopped_upload}
use pulse_co_ap.Client.Methods.{stopped_download}
use pulse_co_ap.Client.Answers.{
  acknowledge, find_discover, deliver_plain, advanced, or_time_out, deliver_continue, open_download,
  take_download, downloaded, assembled_response, finish_download, deliver_block2, block2_of,
  deliver_final, deliver_pending, deliver_unicast, deliver,
}
use pulse_co_ap.Client.Poll.{
  time_out, client_host, drop_request, completed, reject, is_response, receive_response,
  finish_poll, receive_message, poll,
}
use pulse_co_ap.Client.Safety.{FitsPending, FitsUpload, FitsDownload, IsSound, KeepsSound}
use pulse_co_ap.Client.Safety.Arrays.{IsArray-modify, expire_discovers-IsArray}
use pulse_co_ap.Client.Safety.Sending.{
  send-IsSound, close-IsSound, abandon-IsSound, send_block1-IsSound, send_block2_request-IsSound,
}

-- A block is copied only as far as the buffer has room.
take_download-FitsDownload :
    (msg : Message) (b : BlockOption) (recv : Block2RecvState)
    → FitsDownload recv
    → FitsDownload (take_download msg b recv)
unfolding take_download
take_download-FitsDownload msg b recv h =
    let avail = block2_max_body - length recv.buffer in
    let copied = if ltb msg.payload_len avail then msg.payload_len else avail in
    ground (
      arith,
      length-append recv.buffer (take copied (bytes_of msg.payload)),
      length-take copied (bytes_of msg.payload),
    )

open_download-FitsDownload :
    (msg : Message) (from : Endpoint) (b : BlockOption) (recv : Block2RecvState)
    → FitsDownload recv
    → FitsDownload (open_download msg from b recv)
unfolding open_download
open_download-FitsDownload msg from b recv h = elim (Bool-cases recv.active) [
  | inl open_already ↦ rw (open_download, open_already) h
  | inr fresh ↦ rw (open_download, fresh) (h.0, omega arith)
]

settled-FitsPending : (p : PendingRequest) → FitsPending p → FitsPending (settled p)
settled-FitsPending p h = if_both FitsPending p.observing h h

module _ (env : Environment) (k : KeepsSound env) where
  call-IsSound : (what : Call) (c : Client) → IsSound c → IsSound (call env what c)
  unfolding call
  call-IsSound what c w = k what _ w

  call_response-IsSound :
      (handler : ℕ) (res : ClientResponse) (context : ℕ) (c : Client)
      → IsSound c
      → IsSound (call_response env handler res context c)
  unfolding call_response
  call_response-IsSound handler res context c w = if_both IsSound _ w (call-IsSound _ c w)

  call_timeout-IsSound :
      (context : ℕ) (c : Client) → IsSound c → IsSound (call_timeout env context c)
  unfolding call_timeout
  call_timeout-IsSound context c w = if_both IsSound _ w (call-IsSound _ c w)

  call_discover-IsSound :
      (handler : ℕ) (from : Endpoint) (body : Option (List ℕ)) (context : ℕ) (c : Client)
      → IsSound c
      → IsSound (call_discover env handler from body context c)
  unfolding call_discover
  call_discover-IsSound handler from body context c w = if_both IsSound _ w (call-IsSound _ c w)

  settle-IsSound : (i : ℕ) (c : Client) → IsSound c → IsSound (settle i c)
  unfolding settle
  settle-IsSound i c w = (
    IsArray-modify FitsPending i settled c.pending settled-FitsPending w.0,
    w.1,
    w.2,
    w.3,
    w.4,
    w.5,
    w.6,
  )

  acknowledge-IsSound :
      (from : Endpoint) (id : ℕ) (c : Client) → IsSound c → IsSound (acknowledge env from id c)
  unfolding acknowledge
  acknowledge-IsSound from id c w = elim (Option-cases (encode max_msg_size (empty_ack id))) [
    | inl long ↦ rw (acknowledge, long) w
    | inr (bytes, fits) ↦ rw (acknowledge, fits) (send-IsSound env from bytes c w)
  ]

  deliver_plain-IsSound :
      (msg : Message) (slot : ℕ) (p : PendingRequest) (c : Client)
      → IsSound c
      → IsSound (deliver_plain env msg slot p c)
  unfolding deliver_plain
  deliver_plain-IsSound msg slot p c w = settle-IsSound slot _ (call_response-IsSound _ _ _ c w)

  or_time_out-IsSound :
      (slot : ℕ) (p : PendingRequest) (result : Client × Bool)
      → IsSound result.0
      → IsSound (or_time_out env slot p result)
  unfolding or_time_out
  or_time_out-IsSound slot p (c, true) w = w
  or_time_out-IsSound slot p (c, false) w =
      call_timeout-IsSound p.user_context _ (abandon-IsSound env slot c w)

  deliver_continue-IsSound :
      (slot : ℕ) (p : PendingRequest) (c : Client)
      → IsSound c
      → IsSound (deliver_continue env slot p c)
  unfolding deliver_continue
  deliver_continue-IsSound slot p c w = or_time_out-IsSound slot p _ (
      send_block1-IsSound env slot _ (
        w.0,
        IsArray-modify FitsUpload slot advanced c.uploads (λ up h. h) w.1,
        w.2,
        w.3,
        w.4,
        w.5,
        w.6,
      ))

  finish_download-IsSound :
      (msg : Message) (slot : ℕ) (p : PendingRequest) (recv : Option Block2RecvState) (c : Client)
      → IsSound c
      → IsSound (finish_download env msg slot p recv c)
  unfolding finish_download
  finish_download-IsSound msg slot p none c w = w
  finish_download-IsSound msg slot p (some recv) c w =
      let called =
        call_response-IsSound p.on_response (assembled_response msg recv) p.user_context c w in
      settle-IsSound slot _ (
        called.0,
        called.1,
        IsArray-modify FitsDownload slot stopped_download _ (λ recv h. h) called.2,
        called.3,
        called.4,
        called.5,
        called.6,
      )

  deliver_block2-IsSound :
      (msg : Message) (from : Endpoint) (slot : ℕ) (p : PendingRequest) (b : BlockOption)
      (c : Client)
      → IsSound c
      → IsSound (deliver_block2 env msg from slot p b c)
  unfolding deliver_block2
  deliver_block2-IsSound msg from slot p b c w =
      let taken : IsSound
          (record c { downloads = modify slot (downloaded msg from b) c.downloads }) =
        (
          w.0,
          w.1,
          IsArray-modify FitsDownload slot (downloaded msg from b) c.downloads
              (λ recv h.
                take_download-FitsDownload msg b _ (open_download-FitsDownload msg from b recv h))
              w.2,
          w.3,
          w.4,
          w.5,
          w.6,
        ) in
      if_both IsSound b.m (send_block2_request-IsSound env slot _ taken)
        (finish_download-IsSound msg slot p _ _ taken)

  deliver_final-IsSound :
      (msg : Message) (from : Endpoint) (slot : ℕ) (p : PendingRequest) (c : Client)
      → IsSound c
      → IsSound (deliver_final env msg from slot p c)
  unfolding deliver_final
  deliver_final-IsSound msg from slot p c w =
      let stopped : IsSound (record c { uploads = modify slot stopped_upload c.uploads }) = (
        w.0,
        IsArray-modify FitsUpload slot stopped_upload c.uploads (λ up h. h) w.1,
        w.2,
        w.3,
        w.4,
        w.5,
        w.6,
      ) in
      elim (Option-cases (block2_of msg)) [
        | inl whole ↦ rw (deliver_final, whole) (deliver_plain-IsSound msg slot p _ stopped)
        | inr (b, found) ↦
            rw (deliver_final, found) (deliver_block2-IsSound msg from slot p b _ stopped)
      ]

  deliver_pending-IsSound :
      (blockwise : Bool) (msg : Message) (from : Endpoint) (slot : ℕ) (p : PendingRequest)
      (c : Client)
      → IsSound c
      → IsSound (deliver_pending env blockwise msg from slot p c)
  unfolding deliver_pending
  deliver_pending-IsSound false msg from slot p c w = deliver_plain-IsSound msg slot p c w
  deliver_pending-IsSound true msg from slot p c w =
      if_both IsSound _ (deliver_continue-IsSound slot p c w)
        (deliver_final-IsSound msg from slot p c w)

  deliver_unicast-IsSound :
      (blockwise : Bool) (msg : Message) (from : Endpoint) (c : Client)
      → IsSound c
      → IsSound (deliver_unicast env blockwise msg from c)
  unfolding deliver_unicast
  deliver_unicast-IsSound blockwise msg from c w =
      elim (Option-cases (find_pending msg.token 0 c.pending)) [
        | inl nobody ↦ rw (deliver_unicast, nobody) w
        | inr (slot, found) ↦ elim (Option-cases (get_elem? c.pending slot)) [
          | inl out ↦ rw (deliver_unicast, found, out) w
          | inr (p, there) ↦
              rw (deliver_unicast, found, there)
                (deliver_pending-IsSound blockwise msg from slot p c w)
        ]
      ]

  deliver-IsSound :
      (blockwise : Bool) (msg : Message) (from : Endpoint) (c : Client)
      → IsSound c
      → IsSound (deliver env blockwise msg from c)
  unfolding deliver
  deliver-IsSound blockwise msg from c w =
      elim (Option-cases (find_discover msg.token c.discovers)) [
        | inl nobody ↦ rw (deliver, nobody) (deliver_unicast-IsSound blockwise msg from c w)
        | inr (d, found) ↦ rw (deliver, found) (call_discover-IsSound _ _ _ _ c w)
      ]

  completed-IsSound :
      (from : Endpoint) (id : ℕ) (c : Client) → IsSound c → IsSound (completed from id c)
  completed-IsSound from id c w =
      (w.0, w.1, w.2, complete-IsPool from id c.transactions w.3, w.4, w.5, w.6)

  time_out-IsSound : (token : List ℕ) (c : Client) → IsSound c → IsSound (time_out env token c)
  unfolding time_out
  time_out-IsSound token c w = elim (Option-cases (find_pending token 0 c.pending)) [
    | inl nobody ↦ rw (time_out, nobody) (call_timeout-IsSound 0 c w)
    | inr (slot, found) ↦
        rw (time_out, found) (call_timeout-IsSound _ _ (close-IsSound env slot c w))
  ]

  drop_request-IsSound :
      (token : Option (List ℕ)) (c : Client) → IsSound c → IsSound (drop_request env token c)
  unfolding drop_request
  drop_request-IsSound none c w = w
  drop_request-IsSound (some []) c w = w
  drop_request-IsSound (some (b ∷ bs)) c w =
      elim (Option-cases (find_pending (b ∷ bs) 0 c.pending)) [
        | inl nobody ↦ rw (drop_request, nobody) w
        | inr (slot, found) ↦
            rw (drop_request, found) (call_timeout-IsSound _ _ (close-IsSound env slot c w))
      ]

  receive_response-IsSound :
      (blockwise : Bool) (msg : Message) (from : Endpoint) (c : Client)
      → IsSound c
      → IsSound (receive_response env blockwise msg from c)
  unfolding receive_response
  receive_response-IsSound blockwise msg from c w =
      let ended =
        if_both IsSound (is_acknowledgement msg.type) (completed-IsSound from msg.message_id c w)
          w in
      if_both IsSound (is_response msg)
        (deliver-IsSound blockwise msg from _ (
          if_both IsSound (is_confirmable msg.type)
            (acknowledge-IsSound from msg.message_id _ ended) ended))
        ended

  call_back-IsSound :
      (t : Transaction) (fired : Fired) (c : Client)
      → IsSound c
      → IsSound (call_back (client_host env) c t fired)
  unfolding call_back
  call_back-IsSound t Fired.nothing c w = w
  call_back-IsSound t Fired.resent c w = send-IsSound env t.remote t.message c w
  call_back-IsSound t Fired.timed_out c w = time_out-IsSound t.token c w

  tick_at-IsSound :
      (now i : ℕ) (c : Client) → IsSound c → IsSound (tick_at (client_host env) now i c)
  unfolding tick_at
  tick_at-IsSound now i c w = elim (Option-cases (get_elem? c.transactions i)) [
    | inl out ↦ rw (tick_at, out) w
    | inr (t, found) ↦
        rw (tick_at, found)
          (call_back-IsSound t _ _ (
            w.0,
            w.1,
            w.2,
            set-IsPool c.transactions i _
                (tick_slot-FitsTransaction now t
                  (get_elem?-FitsTransaction c.transactions i t found w.3.1))
                w.3,
            w.4,
            w.5,
            w.6,
          ))
  ]

  finish_poll-IsSound : (now : ℕ) (c : Client) → IsSound c → IsSound (finish_poll env now c)
  unfolding finish_poll
  finish_poll-IsSound now c w =
      tick_inv (client_host env) IsSound now _ (λ i. tick_at-IsSound now i)
        (w.0, w.1, w.2, w.3, expire_discovers-IsArray now c.discovers w.4, w.5, w.6)

  receive_message-IsSound :
      (blockwise : Bool) (now : ℕ) (msg : Message) (from : Endpoint) (c : Client)
      → IsSound c
      → IsSound (receive_message env blockwise now msg from c)
  unfolding receive_message reject
  receive_message-IsSound blockwise now msg from c w =
      if_both IsSound (is_reset msg.type)
        (drop_request-IsSound _ _ (completed-IsSound from msg.message_id c w))
        (finish_poll-IsSound now _ (receive_response-IsSound blockwise msg from c w))

  decoded-IsSound :
      (blockwise : Bool) (now : ℕ) (e : DecodeError) (msg : Message) (from : Endpoint) (c : Client)
      → IsSound c
      → IsSound (elim e [
        | DecodeError.no_error ↦ receive_message env blockwise now msg from c
        | _ ↦ finish_poll env now c
      ])
  decoded-IsSound blockwise now DecodeError.no_error msg from c w =
      receive_message-IsSound blockwise now msg from c w
  decoded-IsSound blockwise now _ msg from c w = finish_poll-IsSound now c w

  pub poll-IsSound :
      (blockwise : Bool) (now : ℕ) (input : Option (Endpoint × List ℕ)) (c : Client)
      → IsSound c
      → IsSound (poll env blockwise now input c)
  unfolding poll
  poll-IsSound blockwise now none c w = finish_poll-IsSound now (record c { last_now_ms = now }) w
  poll-IsSound blockwise now (some (from, bytes)) c w =
      decoded-IsSound blockwise now (decode bytes).1 (decode bytes).0 from
        (record c { last_now_ms = now }) w
