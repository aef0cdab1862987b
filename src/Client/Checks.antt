-- ===== src/Client/Checks.antt =====
-- Concrete runs of the client, and the theorems at concrete inputs.
use pulse_co_ap.Common.{
  ℕ, ◌≤◌, ◌≡◌, refl, true, false, none, some, List, [], ◌∷◌, leb, if◌then◌else◌, length, take,
  replicate, arith, same,
}
use pulse_co_ap.Types.Config.{block1_max_body, block2_max_body}
use pulse_co_ap.Types.Codes.{MessageType}
use pulse_co_ap.Types.Code
use pulse_co_ap.Types.ContentFormat
use pulse_co_ap.Types.Address.{Endpoint, unspecified, endpoint_eq}
use pulse_co_ap.Message.{Message, blank, find_option}
use pulse_co_ap.Uri.RoundTrip.{render}
use pulse_co_ap.Transaction.{answers}
use pulse_co_ap.Transaction
use pulse_co_ap.Transaction.Slots.{in_flight, erase_first}
use pulse_co_ap.Block.{BlockOption, Block1UploadState, idle_upload, idle_download}
use pulse_co_ap.Client.{PendingRequest, idle_request, Call, Client, new_client, Environment}
use pulse_co_ap.Client.Slots.{carries_token}
use pulse_co_ap.Client.Slots.Carriers.{carriers}
use pulse_co_ap.Client.Requests.{ObserveOption, Order, send_request}
use pulse_co_ap.Client.Blocks.{block1_message}
use pulse_co_ap.Client.Blocks.Uploads.{
  answered, sent_blocks, is_sent, upload_ends, take_all-sent_blocks,
}
use pulse_co_ap.Client.Blocks.Meaning.{IsBlock, block1_message_lem}
use pulse_co_ap.Client.Blocks.Limits.{send_content_refused}
use pulse_co_ap.Client.Methods.{bare_order, content_order, send_content}
use pulse_co_ap.Client.Answers.{plain_response, carries_discover, find_discover, block2_of, deliver}
use pulse_co_ap.Client.Answers.Downloads.{take_blocks, bodies, buffer-take_blocks}
use pulse_co_ap.Client.Answers.Once.{IsQuiet, response_once}
use pulse_co_ap.Client.Poll.{time_out, receive_message, poll}
use pulse_co_ap.Client.Poll.Endings.{time_out_lem, receive_message_reset}
use pulse_co_ap.Client.Safety.{IsSound, KeepsSound}
use pulse_co_ap.Client.Safety.Indices.{FindsInside}
use pulse_co_ap.Client.Steps.{Step, Reach, reach-IsSound}
use pulse_co_ap.Server.Upload.{Progress, opened_session}
use pulse_co_ap.Server.Upload.Assembly.{joined, take_all}

abbrev server : Endpoint
server = record unspecified { ip = 192 ∷ 168 ∷ 0 ∷ 2 ∷ []; port = 5683 }

-- A transport that takes every datagram, and an application that only listens.
abbrev quiet : Environment
quiet = record { accepts = λ n. true; react = λ what c. c }

quiet-IsQuiet : IsQuiet quiet
quiet-IsQuiet what c = refl

quiet-KeepsSound : KeepsSound quiet
quiet-KeepsSound what c w = w

abbrev a_b : List (List ℕ)
a_b = (97 ∷ []) ∷ (98 ∷ []) ∷ []

abbrev get_a_b : Order
get_a_b = bare_order server (render a_b) Code.get true ObserveOption.absent 3 7 false

-- A GET is sent and, an hour later, nothing has come.
reach-IsSound_example :
    let c = poll quiet true 3600000 none (send_request quiet true get_a_b new_client).0 in
    IsSound c × FindsInside (1 ∷ []) server (render a_b) c
reach-IsSound_example = reach-IsSound quiet true (1 ∷ []) server (render a_b) quiet-KeepsSound (
    Reach.next (Reach.next Reach.here (Step.request get_a_b new_client))
      (Step.polling 3600000 none (send_request quiet true get_a_b new_client).0))

-- Forty bytes in blocks of sixteen.
abbrev forty : Block1UploadState
forty = record idle_upload {
  active = true;
  payload = replicate 40 5;
  szx = 0;
  method = Code.put;
  server = server;
  path = render a_b;
  token = 9;
}

upload_ends_example :
    let bs = sent_blocks 40 forty in
    (length bs ≤ 40) × (is_sent (answered (length bs) forty) ≡ true) × (joined bs ≡ replicate 40 5)
upload_ends_example = upload_ends forty refl (omega arith) (omega arith)

take_all-sent_blocks_example :
    let bs = sent_blocks 40 forty in
    take_all 0 bs (opened_session server (9 ∷ [])) ≡ (
      if leb 40 block1_max_body
      then Progress.assembled (record {
        active = true;
        remote = server;
        token = 9 ∷ [];
        next_expected_num = length bs;
        buffer = replicate 40 5;
      })
      else Progress.too_large)
take_all-sent_blocks_example =
    take_all-sent_blocks server (9 ∷ []) forty refl (omega arith) (omega arith)

block1_message_lem_example :
    (m : Message) × (block1_message forty 1 ≡ some m) × IsBlock forty 1 a_b m
block1_message_lem_example =
    block1_message_lem forty 1 a_b refl ((omega arith, (refl, tt)), ((omega arith, (refl, tt)), tt))
      (omega arith) (omega arith) (omega arith) (omega arith) (omega arith) (omega arith)
      (omega arith) (omega arith)

abbrev put_300 : Order
put_300 =
    content_order server (render a_b) Code.put (some (replicate 300 1)) ContentFormat.text_plain
      true 3 7

send_content_refused_example :
    ((send_content quiet true put_300 new_client).1 ≡ false)
    × ((send_content quiet true put_300 new_client).0.sent ≡ [])
send_content_refused_example =
    send_content_refused quiet put_300 new_client (omega arith) (omega arith) (omega arith)

-- Two blocks of three bytes and one of two.
abbrev block_of : List ℕ → Message
block_of p = record blank { payload = some p; payload_len = length p }

abbrev numbered : ℕ → BlockOption
numbered n = record { num = n; m = true; szx = 0 }

abbrev two_blocks : List Message
two_blocks = block_of (1 ∷ 2 ∷ 3 ∷ []) ∷ block_of (4 ∷ 5 ∷ []) ∷ []

buffer-take_blocks_example :
    (take_blocks server numbered 0 two_blocks idle_download).buffer
    ≡ take block2_max_body (bodies two_blocks)
buffer-take_blocks_example =
    buffer-take_blocks server numbered (block_of (1 ∷ 2 ∷ 3 ∷ [])) (block_of (4 ∷ 5 ∷ []) ∷ [])
      idle_download (λ n. refl) (refl, (refl, tt)) refl (omega arith)

-- A request in slot 1, under token 9.
abbrev asked : PendingRequest
asked = record idle_request {
  active = true;
  server = server;
  token = 9 ∷ [];
  on_response = 3;
  user_context = 7;
}

abbrev waiting : Client
waiting = record new_client {
  pending = idle_request ∷ asked ∷ [];
  on_timeout = 4;
  transactions = Transaction.begun server 1 (9 ∷ []) [] 0 ∷ [];
}

abbrev answer : Message
answer = record blank {
  type = MessageType.acknowledgement;
  code = Code.content;
  message_id = 1;
  token = 9 ∷ [];
  payload = some (1 ∷ []);
  payload_len = 1;
}

response_once_example :
    let c' = deliver quiet true answer server waiting in
    (c'.calls ≡ Call.response 3 (plain_response answer) 7 ∷ [])
    × (carriers (9 ∷ []) c'.pending ≡ [])
    × (deliver quiet true answer server c' ≡ c')
unfolding block2_of find_discover carriers carries_token find_option carries_discover same
response_once_example =
    response_once quiet true answer server asked waiting quiet-IsQuiet refl refl refl refl refl refl

time_out_lem_example :
    let c' = time_out quiet (9 ∷ []) waiting in
    (c'.calls ≡ Call.timeout 4 7 ∷ []) × (carriers (9 ∷ []) c'.pending ≡ []) × (c'.sent ≡ [])
unfolding carriers carries_token same
time_out_lem_example = time_out_lem quiet (9 ∷ []) asked [] waiting quiet-IsQuiet refl refl

abbrev reset_1 : Message
reset_1 = record blank { type = MessageType.reset; message_id = 1 }

receive_message_reset_example :
    let c' = receive_message quiet true 100 reset_1 server waiting in
    (c'.calls ≡ Call.timeout 4 7 ∷ [])
    × (carriers (9 ∷ []) c'.pending ≡ [])
    × (in_flight c'.transactions ≡ erase_first (answers server 1) (in_flight waiting.transactions))
    × (c'.sent ≡ [])
unfolding carriers carries_token Transaction.get_token Transaction.begun answers endpoint_eq same
receive_message_reset_example =
    receive_message_reset quiet true 100 reset_1 server 9 [] asked [] waiting quiet-IsQuiet refl
      refl refl refl

-- A client whose last poll was just before the wrap of the clock.
abbrev late_client : Client
late_client = record new_client { last_now_ms = 4294967290 }

-- A subscription to /a/b in slot 0.
abbrev subscribed : Client
subscribed = record new_client {
  pending =
      record idle_request {
        active = true;
        server = server;
        token = 1 ∷ [];
        on_response = 3;
        user_context = 7;
        observing = true;
        path = render a_b;
      }
      ∷ idle_request
      ∷ [];
}
