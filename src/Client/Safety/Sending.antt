-- ===== src/Client/Safety/Sending.antt =====
-- About the bounds of a client under the requests of the application.
use pulse_co_ap.Common.{
  ℕ, ◌<◌, Bool, true, false, Option, none, some, List, [], ◌∷◌, leb, length, get_elem?, arith,
  if_both, Bool-cases, Option-cases, inl, inr, leb_false→lt,
}
use pulse_co_ap.Types.Config.{max_msg_size, max_transactions, max_uri_path_len}
use pulse_co_ap.Types.Address.{Endpoint}
use pulse_co_ap.Message.{Message}
use pulse_co_ap.Message.Encode.{encode}
use pulse_co_ap.Transaction.Bounds.{IsPool, start-IsPool}
use pulse_co_ap.Block.{Block1UploadState}
use pulse_co_ap.Client.{Client, Environment, send}
use pulse_co_ap.Client.Slots.{allocate_pending, next_token, bump_id, closed, close}
use pulse_co_ap.Client.Requests.{
  Order, filled, stopped_upload, prepared_download, track_request, submit_request, reserved,
  send_request,
}
use pulse_co_ap.Client.Blocks.{
  upload_offset, submit_block, waiting_upload, mark_waiting, send_upload, send_block1,
  send_block2_request,
}
use pulse_co_ap.Client.Methods.{
  opened_pending, opened_upload, open_upload, upload_path, pending_path, stopped_download, abandon,
  keep_path, or_abandon, launch_upload, start_upload, send_content, find_observe, cancel_observe,
}
use pulse_co_ap.Client.Discovering.{submit_discover, discover, free_discover, issued}
use pulse_co_ap.Client.Safety.{
  IsArray, FitsPending, FitsDiscover, FitsUpload, FitsDownload, IsSound,
}
use pulse_co_ap.Client.Safety.Arrays.{IsArray-modify, allocate_pending-IsArray, kept_path_bound}

module _ (env : Environment) where
  pub send-IsSound :
      (to : Endpoint) (bytes : List ℕ) (c : Client) → IsSound c → IsSound (send env to bytes c).0
  unfolding send
  send-IsSound to bytes c w = elim (Bool-cases (env.accepts c.attempts)) [
    | inl taken ↦ rw (send, taken) w
    | inr refused ↦ rw (send, refused) w
  ]

  pub bump_id-IsSound : (c : Client) → IsSound c → IsSound (bump_id c)
  bump_id-IsSound c w = (w.0, w.1, w.2, w.3, w.4, omega arith, w.6)

  pub close-IsSound : (i : ℕ) (c : Client) → IsSound c → IsSound (close i c)
  unfolding close
  close-IsSound i c w =
      (IsArray-modify FitsPending i closed c.pending (λ p h. h) w.0, w.1, w.2, w.3, w.4, w.5, w.6)

  reserved-IsSound : (c : Client) → IsSound c → IsSound (reserved c)
  unfolding next_token
  reserved-IsSound c w =
      (allocate_pending-IsArray c.pending w.0, w.1, w.2, w.3, w.4, omega arith, omega arith)

  track_request-IsSound :
      (blockwise : Bool) (o : Order) (slot id token : ℕ) (bytes : List ℕ) (c : Client)
      → IsSound c
      → IsSound (track_request blockwise o slot id token bytes c)
  unfolding track_request
  track_request-IsSound blockwise o slot id token bytes c w = (
    IsArray-modify FitsPending slot (filled o token) c.pending
        (λ p h. (kept_path_bound o.path, omega arith)) w.0,
    if_both (IsArray max_transactions FitsUpload) blockwise
        (IsArray-modify FitsUpload slot stopped_upload c.uploads (λ up h. h) w.1) w.1,
    if_both (IsArray max_transactions FitsDownload) blockwise
        (IsArray-modify FitsDownload slot (prepared_download o.path) c.downloads
          (λ recv h. (kept_path_bound o.path, h.1)) w.2)
        w.2,
    if_both IsPool o.confirmable
        (start-IsPool o.server id (token ∷ []) bytes c.last_now_ms c.transactions w.3) w.3,
    w.4,
    w.5,
    w.6,
  )

  submit_request-IsSound :
      (blockwise : Bool) (o : Order) (slot id token : ℕ) (m : Option Message) (c : Client)
      → IsSound c
      → IsSound (submit_request env blockwise o slot id token m c).0
  unfolding submit_request
  submit_request-IsSound blockwise o slot id token none c w = close-IsSound slot c w
  submit_request-IsSound blockwise o slot id token (some m) c w =
      elim (Option-cases (encode max_msg_size m)) [
        | inl long ↦ rw (submit_request, long) (close-IsSound slot c w)
        | inr (bytes, fits) ↦
            let sound = send-IsSound o.server bytes c w in
            elim (Bool-cases (send env o.server bytes c).1) [
              | inl sent ↦
                  rw (submit_request, fits, sent)
                    (track_request-IsSound blockwise o slot id token bytes _ sound)
              | inr refused ↦ rw (submit_request, fits, refused) (close-IsSound slot _ sound)
            ]
      ]

  pub send_request-IsSound :
      (blockwise : Bool) (o : Order) (c : Client)
      → IsSound c
      → IsSound (send_request env blockwise o c).0
  unfolding send_request
  send_request-IsSound blockwise o c w = elim (Option-cases (allocate_pending 0 c.pending).1) [
    | inl full ↦ rw (send_request, full) w
    | inr (slot, found) ↦
        rw (send_request, found)
          (submit_request-IsSound blockwise o slot c.next_message_id c.next_token_byte _
            (reserved c) (reserved-IsSound c w))
  ]

  submit_block-IsSound :
      (to : Endpoint) (id : ℕ) (token : List ℕ) (m : Option Message) (c : Client)
      → IsSound c
      → IsSound (submit_block env to id token m c).0
  unfolding submit_block
  submit_block-IsSound to id token none c w = w
  submit_block-IsSound to id token (some m) c w = elim (Option-cases (encode max_msg_size m)) [
    | inl long ↦ rw (submit_block, long) w
    | inr (bytes, fits) ↦
        let sound = send-IsSound to bytes c w in
        elim (Bool-cases (send env to bytes c).1) [
          | inl sent ↦
              rw (submit_block, fits, sent)
                (
                  sound.0,
                  sound.1,
                  sound.2,
                  start-IsPool to id token bytes _ _ sound.3,
                  sound.4,
                  sound.5,
                  sound.6,
                )
          | inr refused ↦ rw (submit_block, fits, refused) sound
        ]
  ]

  mark_waiting-IsSound :
      (slot : ℕ) (result : Client × Bool) → IsSound result.0 → IsSound (mark_waiting slot result).0
  mark_waiting-IsSound slot (c, true) w = (
    w.0,
    IsArray-modify FitsUpload slot waiting_upload c.uploads (λ up h. h) w.1,
    w.2,
    w.3,
    w.4,
    w.5,
    w.6,
  )
  mark_waiting-IsSound slot (c, false) w = w

  send_upload-IsSound :
      (slot : ℕ) (up : Block1UploadState) (c : Client)
      → IsSound c
      → IsSound (send_upload env slot up c).0
  unfolding send_upload
  send_upload-IsSound slot up c w = elim (Bool-cases (leb (length up.payload) (upload_offset up))) [
    | inl done ↦ rw (send_upload, done) w
    | inr left ↦
        rw (send_upload, left)
          (mark_waiting-IsSound slot _
            (submit_block-IsSound up.server _ _ _ (bump_id c) (bump_id-IsSound c w)))
  ]

  pub send_block1-IsSound : (slot : ℕ) (c : Client) → IsSound c → IsSound (send_block1 env slot c).0
  unfolding send_block1
  send_block1-IsSound slot c w = elim (Option-cases (get_elem? c.uploads slot)) [
    | inl out ↦ rw (send_block1, out) w
    | inr (up, found) ↦ rw (send_block1, found) (send_upload-IsSound slot up c w)
  ]

  pub send_block2_request-IsSound :
      (slot : ℕ) (c : Client) → IsSound c → IsSound (send_block2_request env slot c).0
  unfolding send_block2_request
  send_block2_request-IsSound slot c w = elim (Option-cases (get_elem? c.downloads slot)) [
    | inl out ↦ rw (send_block2_request, out) w
    | inr (recv, found) ↦ elim (Option-cases (get_elem? c.pending slot)) [
      | inl out ↦ rw (send_block2_request, found, out) w
      | inr (p, there) ↦
          rw (send_block2_request, found, there)
            (submit_block-IsSound recv.server _ _ _ (bump_id c) (bump_id-IsSound c w))
    ]
  ]

  pub abandon-IsSound : (slot : ℕ) (c : Client) → IsSound c → IsSound (abandon slot c)
  unfolding abandon
  abandon-IsSound slot c w = close-IsSound slot _ (
    w.0,
    IsArray-modify FitsUpload slot stopped_upload c.uploads (λ up h. h) w.1,
    w.2,
    w.3,
    w.4,
    w.5,
    w.6,
  )

  keep_path-IsSound :
      (path : List ℕ) (slot : ℕ) (c : Client)
      → length path < max_uri_path_len
      → IsSound c
      → IsSound (keep_path path slot c)
  unfolding keep_path
  keep_path-IsSound path slot c short w = (
    IsArray-modify FitsPending slot (pending_path path) c.pending (λ p h. (short, h.1)) w.0,
    IsArray-modify FitsUpload slot (upload_path path) c.uploads (λ up h. short) w.1,
    IsArray-modify FitsDownload slot stopped_download c.downloads (λ recv h. h) w.2,
    w.3,
    w.4,
    w.5,
    w.6,
  )

  or_abandon-IsSound :
      (slot : ℕ) (result : Client × Bool) → IsSound result.0 → IsSound (or_abandon slot result).0
  unfolding or_abandon
  or_abandon-IsSound slot (c, true) w = w
  or_abandon-IsSound slot (c, false) w = abandon-IsSound slot c w

  launch_upload-IsSound :
      (o : Order) (slot : ℕ) (c : Client) → IsSound c → IsSound (launch_upload env o slot c).0
  unfolding launch_upload
  launch_upload-IsSound o slot c w = elim (Bool-cases (leb max_uri_path_len (length o.path))) [
    | inl long ↦ rw (launch_upload, long) (abandon-IsSound slot c w)
    | inr short ↦
        rw (launch_upload, short)
          (or_abandon-IsSound slot _ (
            send_block1-IsSound slot _
              (keep_path-IsSound o.path slot c (leb_false→lt _ _ short) w)))
  ]

  open_upload-IsSound :
      (o : Order) (slot token : ℕ) (c : Client) → IsSound c → IsSound (open_upload o slot token c)
  unfolding open_upload
  open_upload-IsSound o slot token c w = (
    IsArray-modify FitsPending slot (opened_pending o token) c.pending (λ p h. (h.0, omega arith))
        w.0,
    IsArray-modify FitsUpload slot (opened_upload o token) c.uploads (λ up h. h) w.1,
    w.2,
    w.3,
    w.4,
    w.5,
    w.6,
  )

  start_upload-IsSound : (o : Order) (c : Client) → IsSound c → IsSound (start_upload env o c).0
  unfolding start_upload next_token
  start_upload-IsSound o c w = elim (Option-cases (allocate_pending 0 c.pending).1) [
    | inl full ↦ rw (start_upload, full) w
    | inr (slot, found) ↦
        rw (start_upload, found)
          (launch_upload-IsSound o slot _ (
            open_upload-IsSound o slot c.next_token_byte _
              (allocate_pending-IsArray c.pending w.0, w.1, w.2, w.3, w.4, w.5, omega arith)))
  ]

  pub send_content-IsSound :
      (blockwise : Bool) (o : Order) (c : Client)
      → IsSound c
      → IsSound (send_content env blockwise o c).0
  unfolding send_content
  send_content-IsSound blockwise o c w =
      if_both (λ (r : Client × Bool). IsSound r.0) _ (start_upload-IsSound o c w)
        (send_request-IsSound blockwise o c w)

  pub cancel_observe-IsSound :
      (blockwise : Bool) (server : Endpoint) (path : List ℕ) (c : Client)
      → IsSound c
      → IsSound (cancel_observe env blockwise server path c).0
  unfolding cancel_observe
  cancel_observe-IsSound blockwise server path c w =
      elim (Option-cases (find_observe server path 0 c.pending)) [
        | inl nobody ↦ rw (cancel_observe, nobody) w
        | inr ((i, p), found) ↦
            rw (cancel_observe, found)
              (send_request-IsSound blockwise _ (close i c) (close-IsSound i c w))
      ]

  submit_discover-IsSound :
      (to : Endpoint) (handler context slot token : ℕ) (m : Option Message) (c : Client)
      → IsSound c
      → IsSound (submit_discover env to handler context slot token m c).0
  unfolding submit_discover
  submit_discover-IsSound to handler context slot token none c w = w
  submit_discover-IsSound to handler context slot token (some m) c w =
      elim (Option-cases (encode max_msg_size m)) [
        | inl long ↦ rw (submit_discover, long) w
        | inr (bytes, fits) ↦
            let sound = send-IsSound to bytes c w in
            elim (Bool-cases (send env to bytes c).1) [
              | inl sent ↦
                  rw (submit_discover, fits, sent)
                    (
                      sound.0,
                      sound.1,
                      sound.2,
                      sound.3,
                      IsArray-modify FitsDiscover slot (issued token handler context _) _
                          (λ d h. omega arith) sound.4,
                      sound.5,
                      sound.6,
                    )
              | inr refused ↦ rw (submit_discover, fits, refused) sound
            ]
      ]

  pub discover-IsSound :
      (to : Endpoint) (handler context : ℕ) (c : Client)
      → IsSound c
      → IsSound (discover env to handler context c).0
  unfolding discover next_token
  discover-IsSound to handler context c w = elim (Option-cases (free_discover 0 c.discovers)) [
    | inl full ↦ rw (discover, full) w
    | inr (slot, found) ↦
        rw (discover, found)
          (submit_discover-IsSound to handler context slot c.next_token_byte _ _
            (w.0, w.1, w.2, w.3, w.4, omega arith, omega arith))
  ]
