-- ===== src/Transaction.antt =====
-- src/PulseCoAPTransaction.h and .cpp: the pool of Confirmable messages that await their ACK. Time
-- is an argument, a 32-bit counter of milliseconds. A token and a message are lists of bytes,
-- whose lengths are `tokenLen` and `messageLen`; an index of -1 is `none`.
pub mod Backoff
pub mod Schedule
pub mod Slots
pub mod Ticks
pub mod Bounds
mod Checks
use pulse_co_ap.Common.{
  ℕ, zero, suc, ◌+◌, ◌-◌, ◌*◌, ◌/◌, ◌%◌, ◌^◌, ◌≤◌, ◌<◌, Bool, true, false, not, ◌&&◌, ◌||◌, Option,
  none, some, List, [], ◌∷◌, ltb, leb, ◌==◌, if◌then◌else◌, length, get_elem?, set, replicate, same,
  bit_xor,
}
use pulse_co_ap.Common.Bits.{u8, u32}
use pulse_co_ap.Types.Config.{
  max_token_len, max_msg_size, max_transactions, max_retransmit, ack_timeout_ms,
  ack_random_factor_num, ack_random_factor_den,
}
use pulse_co_ap.Types.Address.{Endpoint, unspecified, endpoint_eq}

pub data TransactionState : Type 0 where
  free awaiting_ack : TransactionState

-- `state == TransactionState::AwaitingAck`.
abbrev pub is_awaiting : TransactionState → Bool
is_awaiting TransactionState.free = false
is_awaiting TransactionState.awaiting_ack = true

pub record Transaction : Type 0 where
  pub state : TransactionState
  pub remote : Endpoint
  pub message_id : ℕ
  pub token : List ℕ
  pub retries_sent : ℕ
  pub current_timeout_ms : ℕ
  pub next_retry_at_ms : ℕ
  pub message : List ℕ

abbrev pub unused : Transaction
unused = record {
  state = TransactionState.free;
  remote = unspecified;
  message_id = 0;
  token = [];
  retries_sent = 0;
  current_timeout_ms = 0;
  next_retry_at_ms = 0;
  message = [];
}

-- `slots_` after `reset()`.
unfoldable pub reset : List Transaction
reset = replicate max_transactions unused

-- xorshift32 of the seed, which is replaced where it is 0.
unfoldable pub jitter : ℕ → ℕ
jitter seed =
    let x0 : ℕ = if seed == 0 then 0x2545F491 else seed in
    let x1 = bit_xor x0 (u32 (x0 * 2 ^ 13)) in
    let x2 = bit_xor x1 (x1 / 2 ^ 17) in bit_xor x2 (u32 (x2 * 2 ^ 5))

unfoldable pub compute_initial_timeout_ms : ℕ → ℕ
compute_initial_timeout_ms seed =
    let base = ack_timeout_ms in
    let upper = ack_timeout_ms * ack_random_factor_num / ack_random_factor_den in
    let span = if ltb base upper then upper - base else 0 in
    if ltb 0 span then base + jitter seed % span else base

-- What `start` writes into a free slot.
unfoldable pub begun : Endpoint → ℕ → List ℕ → List ℕ → ℕ → Transaction
begun remote id token message now = record {
  state = TransactionState.awaiting_ack;
  remote = remote;
  message_id = id;
  token = token;
  retries_sent = 0;
  current_timeout_ms = compute_initial_timeout_ms id;
  next_retry_at_ms = u32 (now + compute_initial_timeout_ms id);
  message = message;
}

-- The loop of `start`: `t` goes into the first free slot from index `i` on.
unfoldable pub place : ℕ → Transaction → List Transaction → List Transaction × Option ℕ
place i t [] = ([], none)
place i t (x ∷ xs) =
    let rest = place (i + 1) t xs in
    if is_awaiting x.state then (x ∷ rest.0, rest.1) else (t ∷ xs, some i)

unfoldable pub start :
    Endpoint → ℕ → List ℕ → List ℕ → ℕ → List Transaction → List Transaction × Option ℕ
start remote id token message now slots =
    if ltb max_token_len (length token)
    then (slots, none)
    else if ltb max_msg_size (length message)
    then (slots, none)
    else place 0 (begun remote id token message now) slots

-- The test of `complete` and `getToken`.
unfoldable pub answers : Endpoint → ℕ → Transaction → Bool
answers remote id t = is_awaiting t.state && (endpoint_eq t.remote remote && (t.message_id == id))

-- The test of `completeByToken`.
unfoldable pub carries : Endpoint → List ℕ → Transaction → Bool
carries remote token t = is_awaiting t.state && (endpoint_eq t.remote remote && same t.token token)

-- The loop of both: the first slot that passes the test is freed.
unfoldable pub free_first : (Transaction → Bool) → List Transaction → List Transaction × Bool
free_first test [] = ([], false)
free_first test (x ∷ xs) =
    let rest = free_first test xs in
    if test x then (record x { state = TransactionState.free } ∷ xs, true) else (x ∷ rest.0, rest.1)

unfoldable pub complete : Endpoint → ℕ → List Transaction → List Transaction × Bool
complete remote id = free_first (answers remote id)

unfoldable pub complete_by_token : Endpoint → List ℕ → List Transaction → List Transaction × Bool
complete_by_token remote token = free_first (carries remote token)

unfoldable pub get_token : Endpoint → ℕ → List Transaction → Option (List ℕ)
get_token remote id [] = none
get_token remote id (x ∷ xs) = if answers remote id x then some x.token else get_token remote id xs

unfoldable pub active_count : List Transaction → ℕ
active_count [] = 0
active_count (x ∷ xs) = if is_awaiting x.state then active_count xs + 1 else active_count xs

-- `static_cast<int32_t>(deadline - now) <= 0`.
unfoldable pub is_due : ℕ → ℕ → Bool
is_due now deadline =
    let remaining = (deadline + 2 ^ 32 - now) % 2 ^ 32 in
    not (ltb 0 remaining && ltb remaining (2 ^ 31))

-- What a slot asks for when it is ticked.
pub data Fired : Type 0 where
  nothing resent timed_out : Fired

unfoldable pub retried : ℕ → Transaction → Transaction
retried now t = record t {
  retries_sent = u8 (t.retries_sent + 1);
  current_timeout_ms = u32 (t.current_timeout_ms * 2);
  next_retry_at_ms = u32 (now + u32 (t.current_timeout_ms * 2));
}

-- One round of the loop of `tick`, without the callback.
unfoldable pub tick_slot : ℕ → Transaction → Transaction × Fired
tick_slot now t =
    if not (is_awaiting t.state)
    then (t, Fired.nothing)
    else if not (is_due now t.next_retry_at_ms)
    then (t, Fired.nothing)
    else if ltb t.retries_sent max_retransmit
    then (retried now t, Fired.resent)
    else (record t { state = TransactionState.free }, Fired.timed_out)

-- The owner of a pool: its state, where the pool is in it, and its two callbacks. A callback may
-- change the pool.
pub record Host (S : Type 0) : Type 0 where
  pub pool : S → List Transaction
  pub with_pool : S → List Transaction → S
  pub resend : S → Endpoint → List ℕ → S
  pub on_timeout : S → Endpoint → List ℕ → S

unfoldable pub call_back : {S : Type 0} → Host S → S → Transaction → Fired → S
call_back h s t Fired.nothing = s
call_back h s t Fired.resent = h.resend s t.remote t.message
call_back h s t Fired.timed_out = h.on_timeout s t.remote t.token

-- One round on slot `i`, with the callback.
unfoldable pub tick_at : {S : Type 0} → Host S → ℕ → ℕ → S → S
tick_at h now i s = elim (get_elem? (h.pool s) i) [
  | none ↦ s
  | some t ↦
      call_back h (h.with_pool s (set (h.pool s) i (tick_slot now t).0)) t (tick_slot now t).1
]

unfoldable pub tick_from : {S : Type 0} → Host S → ℕ → ℕ → ℕ → S → S
tick_from h now zero i s = s
tick_from h now (suc left) i s = tick_from h now left (i + 1) (tick_at h now i s)

unfoldable pub tick : {S : Type 0} → Host S → ℕ → S → S
tick h now s = tick_from h now max_transactions 0 s
