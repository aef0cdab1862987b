-- ===== src/Transaction/Backoff.antt =====
-- About the retransmission schedule of one transaction (RFC 7252, section 4.8;
-- src/PulseCoAPTransaction.cpp).
use pulse_co_ap.Common.{
  ℕ, zero, suc, ◌+◌, ◌*◌, ◌^◌, ◌≤◌, ◌<◌, ◌≡◌, Bool, true, false, List, [], ◌∷◌, leb, if◌then◌else◌,
  arith, ◌⊎◌,
}
use pulse_co_ap.Common.Bits.{u8, u32}
use pulse_co_ap.Types.Config.{max_retransmit, ack_timeout_ms}
use pulse_co_ap.Types.Address.{Endpoint}
use pulse_co_ap.Transaction.{
  TransactionState, is_awaiting, Transaction, compute_initial_timeout_ms, begun, is_due, Fired,
  retried, tick_slot,
}

-- The first timeout lies in the interval of RFC 7252, from ACK_TIMEOUT up to, and not including,
-- ACK_TIMEOUT * ACK_RANDOM_FACTOR, which is 3000 milliseconds, for every seed.
pub compute_initial_timeout_ms_bounds :
    (seed : ℕ)
    → (ack_timeout_ms ≤ compute_initial_timeout_ms seed) × (compute_initial_timeout_ms seed < 3000)
unfolding compute_initial_timeout_ms
compute_initial_timeout_ms_bounds seed = ground arith

-- The deadline test is right across a wrap of the clock: a timeout set at time `t` is due `d`
-- milliseconds later exactly when it has passed, for all timeouts and delays below 2^31.
is_due_lem :
    (t d timeout : ℕ)
    → timeout < 2 ^ 31
    → d < 2 ^ 31
    → is_due (u32 (t + d)) (u32 (u32 t + timeout)) ≡ leb timeout d
unfolding is_due
is_due_lem t d timeout ht hd = ground arith

-- The deadline doubles from the first timeout on, and no count overflows.
pub record IsBackedOff (t : Transaction) : Type 0 where
  pub within : t.retries_sent ≤ max_retransmit
  pub doubled : t.current_timeout_ms ≡ compute_initial_timeout_ms t.message_id * 2 ^ t.retries_sent

pub begun-IsBackedOff :
    (remote : Endpoint) (id : ℕ) (token message : List ℕ) (now : ℕ)
    → IsBackedOff (begun remote id token message now)
unfolding begun
begun-IsBackedOff remote id token message now = record {
  within = omega arith;
  doubled = omega arith;
}

-- Four doublings of a first timeout stay far below 2^32.
doubling : (x r : ℕ) → x < 3000 → r < max_retransmit → u32 (x * 2 ^ r * 2) ≡ x * 2 ^ u8 (r + 1)
doubling x zero h k = omega arith
doubling x (suc zero) h k = omega arith
doubling x (suc (suc zero)) h k = omega arith
doubling x (suc (suc (suc zero))) h k = omega arith
doubling x (suc (suc (suc (suc r)))) h k = absurd (omega arith)

-- A tick keeps the schedule: the timeout is the first one, doubled for each retransmission, and
-- there are at most MAX_RETRANSMIT of these.
pub tick_slot-IsBackedOff :
    (now : ℕ) (t : Transaction) → IsBackedOff t → IsBackedOff (tick_slot now t).0
unfolding tick_slot retried
tick_slot-IsBackedOff now t b = ground (
  arith,
  doubling (compute_initial_timeout_ms t.message_id) t.retries_sent,
  compute_initial_timeout_ms_bounds t.message_id,
)

-- The four things that a tick can do to a slot.
pub tick_slot_cases :
    (now : ℕ) (t : Transaction)
    → (t.state ≡ TransactionState.free) × (tick_slot now t ≡ (t, Fired.nothing))
      ⊎ (t.state ≡ TransactionState.awaiting_ack)
        × (is_due now t.next_retry_at_ms ≡ false)
        × (tick_slot now t ≡ (t, Fired.nothing))
      ⊎ (t.state ≡ TransactionState.awaiting_ack)
        × (t.retries_sent < max_retransmit)
        × (tick_slot now t ≡ (retried now t, Fired.resent))
      ⊎ (t.state ≡ TransactionState.awaiting_ack)
        × (max_retransmit ≤ t.retries_sent)
        × (tick_slot now t ≡ (record t { state = TransactionState.free }, Fired.timed_out))
unfolding tick_slot
tick_slot_cases now t = ground arith

-- A slot ticked at some times, one after the other: what it becomes, and what it fires.
pub run_ticks : List ℕ → Transaction → Transaction × List Fired
run_ticks [] t = (t, [])
run_ticks (now ∷ nows) t =
    let step = tick_slot now t in let rest = run_ticks nows step.0 in (rest.0, step.1 ∷ rest.1)

abbrev pub is_resent : Fired → Bool
is_resent Fired.resent = true
is_resent _ = false

abbrev pub is_timed_out : Fired → Bool
is_timed_out Fired.timed_out = true
is_timed_out _ = false

pub count_if : (Fired → Bool) → List Fired → ℕ
count_if test [] = 0
count_if test (f ∷ fs) = if test f then count_if test fs + 1 else count_if test fs

-- Whatever the times of the ticks, a slot within MAX_RETRANSMIT resends its message at most as
-- often as it has retries left, and reports a timeout at most once, and never if it is free.
pub run_ticks_bounded :
    (nows : List ℕ) (t : Transaction)
    → t.retries_sent ≤ max_retransmit
    → (t.retries_sent + count_if is_resent (run_ticks nows t).1 ≤ max_retransmit)
      × (count_if is_timed_out (run_ticks nows t).1 ≤ (if is_awaiting t.state then 1 else 0))
unfolding run_ticks count_if retried
run_ticks_bounded [] t h = ground arith
run_ticks_bounded (now ∷ nows) t h =
    ground (arith, run_ticks_bounded nows (tick_slot now t).0, tick_slot_cases now t)
