-- ===== src/Transaction/Schedule.antt =====
-- About the times at which a message is resent (RFC 7252, section 4.8;
-- src/PulseCoAPTransaction.cpp), for ticks that come before a deadline or after it.
use pulse_co_ap.Common.{
  ℕ, zero, suc, ◌+◌, ◌-◌, ◌*◌, ◌^◌, ◌≤◌, ◌<◌, ◌≡◌, refl, ap, ◌∙◌, true, false, List, [], ◌∷◌,
  if◌then◌else◌, length, replicate, All, arith, lt→ltb, ltb,
}
use pulse_co_ap.Common.Bits.{u32, IsU32}
use pulse_co_ap.Types.Config.{max_retransmit}
use pulse_co_ap.Types.Address.{Endpoint}
use pulse_co_ap.Transaction.{
  TransactionState, is_awaiting, Transaction, compute_initial_timeout_ms, begun, is_due, Fired,
  retried, tick_slot,
}
use pulse_co_ap.Transaction.Backoff.{compute_initial_timeout_ms_bounds}

-- When a tick comes: so many milliseconds before the deadline of the slot, or after it.
pub data Arrival : Type 0 where
  early late : ℕ → Arrival

-- The time of the clock then.
abbrev pub clock : ℕ → Arrival → ℕ
clock deadline (Arrival.early e) = u32 (deadline + 2 ^ 32 - e)
clock deadline (Arrival.late d) = u32 (deadline + d)

-- Less than half a turn of the clock away.
abbrev pub IsNear : Arrival → Type 0
IsNear (Arrival.early e) = (0 < e) × (e < 2 ^ 31)
IsNear (Arrival.late d) = d < 2 ^ 31

-- The slot ticked at these times, each counted from the deadline that it has then.
unfoldable pub run_arrivals : List Arrival → Transaction → Transaction × List Fired
run_arrivals [] t = (t, [])
run_arrivals (a ∷ ticks) t =
    let step = tick_slot (clock t.next_retry_at_ms a) t in
    let rest = run_arrivals ticks step.0 in (rest.0, step.1 ∷ rest.1)

-- What is to happen with `left` retries left: nothing before a deadline; after it a
-- retransmission, or the timeout if no retry is left; and nothing behind the timeout.
unfoldable pub expected : ℕ → List Arrival → List Fired
expected left [] = []
expected left (Arrival.early e ∷ ticks) = Fired.nothing ∷ expected left ticks
expected zero (Arrival.late d ∷ ticks) = Fired.timed_out ∷ replicate (length ticks) Fired.nothing
expected (suc left) (Arrival.late d ∷ ticks) = Fired.resent ∷ expected left ticks

unfoldable pub late_count : List Arrival → ℕ
late_count [] = 0
late_count (Arrival.early e ∷ ticks) = late_count ticks
late_count (Arrival.late d ∷ ticks) = suc (late_count ticks)

-- By how much the late ticks are late, together.
unfoldable pub delays : List Arrival → ℕ
delays [] = 0
delays (Arrival.early e ∷ ticks) = delays ticks
delays (Arrival.late d ∷ ticks) = d + delays ticks

not_due :
    (deadline e : ℕ)
    → IsU32 deadline
    → IsNear (Arrival.early e)
    → is_due (clock deadline (Arrival.early e)) deadline ≡ false
unfolding is_due
not_due deadline e h (positive, near) = ground arith

due :
    (deadline d : ℕ)
    → IsU32 deadline
    → IsNear (Arrival.late d)
    → is_due (clock deadline (Arrival.late d)) deadline ≡ true
unfolding is_due
due deadline d h near = ground arith

waits_on :
    (t : Transaction) (e : ℕ)
    → t.state ≡ TransactionState.awaiting_ack
    → IsU32 t.next_retry_at_ms
    → IsNear (Arrival.early e)
    → tick_slot (clock t.next_retry_at_ms (Arrival.early e)) t ≡ (t, Fired.nothing)
unfolding tick_slot
waits_on t e a u near = rw (a, not_due t.next_retry_at_ms e u near) refl

resends :
    (t : Transaction) (d : ℕ)
    → t.state ≡ TransactionState.awaiting_ack
    → IsU32 t.next_retry_at_ms
    → IsNear (Arrival.late d)
    → t.retries_sent < max_retransmit
    → tick_slot (clock t.next_retry_at_ms (Arrival.late d)) t
      ≡ (retried (clock t.next_retry_at_ms (Arrival.late d)) t, Fired.resent)
unfolding tick_slot
resends t d a u near h = rw (a, due t.next_retry_at_ms d u near, lt→ltb _ _ h) refl

gives_up :
    (t : Transaction) (d : ℕ)
    → t.state ≡ TransactionState.awaiting_ack
    → IsU32 t.next_retry_at_ms
    → IsNear (Arrival.late d)
    → t.retries_sent ≡ max_retransmit
    → tick_slot (clock t.next_retry_at_ms (Arrival.late d)) t
      ≡ (record t { state = TransactionState.free }, Fired.timed_out)
unfolding tick_slot
gives_up t d a u near h = rw (a, due t.next_retry_at_ms d u near, h) refl

retried_lem :
    (now : ℕ) (t : Transaction)
    → t.retries_sent < max_retransmit
    → ((retried now t).state ≡ t.state)
      × IsU32 (retried now t).next_retry_at_ms
      × ((retried now t).retries_sent ≡ t.retries_sent + 1)
unfolding retried
retried_lem now t h = (refl, omega arith, omega arith)

rests :
    (now : ℕ) (t : Transaction)
    → t.state ≡ TransactionState.free
    → tick_slot now t ≡ (t, Fired.nothing)
unfolding tick_slot
rests now t h = rw (ap is_awaiting h) refl

run_arrivals-free :
    (ticks : List Arrival) (t : Transaction)
    → t.state ≡ TransactionState.free
    → run_arrivals ticks t ≡ (t, replicate (length ticks) Fired.nothing)
unfolding run_arrivals
run_arrivals-free [] t h = refl
run_arrivals-free (a ∷ ticks) t h =
    rw (rests (clock t.next_retry_at_ms a) t h, run_arrivals-free ticks t h) refl

-- A message that awaits its ACK and is never answered is not resent before a deadline; at the
-- first tick at a deadline or after it, however late, it is resent, once for each retry that its
-- slot has left; at the first tick at or after the deadline behind the last of them the timeout is
-- reported, once, and the slot is free. The deadline has 32 bits, and each tick comes less than half
-- a turn of the 32-bit clock before or after it.
pub run_arrivals_lem :
    (left : ℕ) (t : Transaction) (ticks : List Arrival)
    → t.state ≡ TransactionState.awaiting_ack
    → IsU32 t.next_retry_at_ms
    → t.retries_sent + left ≡ max_retransmit
    → All IsNear ticks
    → ((run_arrivals ticks t).1 ≡ expected left ticks)
      × ((run_arrivals ticks t).0.state ≡ (
          if ltb left (late_count ticks)
          then TransactionState.free
          else TransactionState.awaiting_ack))
unfolding run_arrivals expected late_count
run_arrivals_lem left t [] a u h near = (refl, ground arith)
run_arrivals_lem left t (Arrival.early e ∷ ticks) a u h near =
    let rest = run_arrivals_lem left t ticks a u h near.1 in
    rw (waits_on t e a u near.0) (ap (◌∷◌ Fired.nothing) rest.0, rest.1)
run_arrivals_lem zero t (Arrival.late d ∷ ticks) a u h near =
    rw
      (
        gives_up t d a u near.0 (omega arith),
        run_arrivals-free ticks (record t { state = TransactionState.free }) refl,
      )
      (refl, ground arith)
run_arrivals_lem (suc left) t (Arrival.late d ∷ ticks) a u h near =
    let now = clock t.next_retry_at_ms (Arrival.late d) in
    let r = retried_lem now t (omega arith) in
    let rest = run_arrivals_lem left (retried now t) ticks (r.0 ∙ a) r.1 (omega arith) near.1 in
    rw (resends t d a u near.0 (omega arith)) (ap (◌∷◌ Fired.resent) rest.0, rest.1 ∙ ground arith)

-- The timeouts that pass while a slot with timeout `t` is resent `k` times.
waits : ℕ → ℕ → ℕ
waits t zero = 0
waits t (suc k) = t * 2 + waits (t * 2) k

abbrev Doubles : ℕ → ℕ → Type 0
Doubles t zero = Unit {0}
Doubles t (suc k) = IsU32 (t * 2) × Doubles (t * 2) k

deadline_after :
    (ticks : List Arrival) (t : Transaction)
    → t.state ≡ TransactionState.awaiting_ack
    → IsU32 t.next_retry_at_ms
    → t.retries_sent + late_count ticks ≤ max_retransmit
    → All IsNear ticks
    → Doubles t.current_timeout_ms (late_count ticks)
    → (run_arrivals ticks t).0.next_retry_at_ms
      ≡ u32 (t.next_retry_at_ms + (waits t.current_timeout_ms (late_count ticks) + delays ticks))
unfolding run_arrivals waits late_count delays
deadline_after [] t a u h near d = omega arith
deadline_after (Arrival.early e ∷ ticks) t a u h near d =
    rw (waits_on t e a u near.0) (deadline_after ticks t a u h near.1 d)
deadline_after (Arrival.late l ∷ ticks) t a u h near d =
    let now = clock t.next_retry_at_ms (Arrival.late l) in
    let r = retried_lem now t (omega arith) in
    let exact : (retried now t).current_timeout_ms ≡ t.current_timeout_ms * 2 =
      unfold retried in omega (arith, d.0) in
    let rest =
      deadline_after ticks (retried now t) (r.0 ∙ a) r.1 (omega arith) near.1 (rw exact d.1) in
    rw (resends t l a u near.0 (omega arith))
      (rest ∙ rw exact (unfold retried in omega (arith, d.0)))

waits_closed :
    (x k : ℕ)
    → x < 3000
    → k ≤ max_retransmit
    → Doubles x k × (x + waits x k ≡ x * (2 ^ (k + 1) - 1))
unfolding waits
waits_closed x zero h k = ((tt), omega arith)
waits_closed x (suc zero) h k = ((omega arith), omega arith)
waits_closed x (suc (suc zero)) h k = ((omega arith), omega arith)
waits_closed x (suc (suc (suc zero))) h k = ((omega arith), omega arith)
waits_closed x (suc (suc (suc (suc zero)))) h k = ((omega arith), omega arith)
waits_closed x (suc (suc (suc (suc (suc n))))) h k = absurd (omega arith)

-- The deadline of a message sent at `now`, after any ticks of which `k`, MAX_RETRANSMIT at most,
-- came at a deadline or after it, lies (2 ^ (k + 1) - 1) first timeouts after `now`, and later by as much
-- as those ticks were late together. Each tick comes less than half a turn of the 32-bit clock
-- before or after its deadline.
pub run_arrivals_deadline :
    (ticks : List Arrival) (remote : Endpoint) (id : ℕ) (token message : List ℕ) (now : ℕ)
    → late_count ticks ≤ max_retransmit
    → All IsNear ticks
    → (run_arrivals ticks (begun remote id token message now)).0.next_retry_at_ms
      ≡ u32 (now + compute_initial_timeout_ms id * (2 ^ (late_count ticks + 1) - 1) + delays ticks)
run_arrivals_deadline ticks remote id token message now h near =
    let closed =
      waits_closed (compute_initial_timeout_ms id) (late_count ticks)
        (compute_initial_timeout_ms_bounds id).1 h in
    deadline_after ticks (begun remote id token message now) (unfold begun in refl)
      (unfold begun in omega arith) (unfold begun in omega arith) near (unfold begun in closed.0)
    ∙ unfold begun in omega (arith, closed.1)
