-- ===== src/Transaction/Checks.antt =====
-- Concrete runs of the pool, and the theorems at concrete inputs.
use pulse_co_ap.Common.{
  ℕ, ◌+◌, ◌-◌, ◌*◌, ◌^◌, ◌≤◌, ◌≡◌, refl, true, false, some, List, [], ◌∷◌, arith, same,
}
use pulse_co_ap.Common.Bits.{u32}
use pulse_co_ap.Types.Config.{max_retransmit}
use pulse_co_ap.Types.Address.{Endpoint, endpoint_eq}
use pulse_co_ap.Transaction.{
  TransactionState, Transaction, compute_initial_timeout_ms, begun, place, start, answers, complete,
  get_token, tick_slot, Host, tick, reset,
}
use pulse_co_ap.Transaction.Slots.{in_flight, holds, complete-start}
use pulse_co_ap.Transaction.Backoff.{
  IsBackedOff, begun-IsBackedOff, tick_slot-IsBackedOff, run_ticks, count_if, is_resent,
  is_timed_out, run_ticks_bounded,
}
use pulse_co_ap.Transaction.Schedule.{
  Arrival, run_arrivals, expected, late_count, delays, run_arrivals_lem, run_arrivals_deadline,
}
use pulse_co_ap.Transaction.Ticks.{HostLaws, ticked, pool-tick}
use mathlib.Core.List.{map}

abbrev peer : Endpoint
peer = record { v6 = []; is_v6 = false; ip = 192 ∷ 168 ∷ 0 ∷ 2 ∷ []; port = 5683 }

abbrev ping : Transaction
ping = begun peer 7 (1 ∷ []) (66 ∷ []) 100

abbrev busy : List Transaction
busy = (start peer 7 (1 ∷ []) (66 ∷ []) 100 reset).0

start_twice : (start peer 8 (2 ∷ []) (66 ∷ []) 100 busy).1 ≡ some 1
unfolding start place begun reset
start_twice = refl

complete-start_example :
    let started = (start peer 8 (2 ∷ []) (66 ∷ []) 100 busy).0 in
    (get_token peer 8 started ≡ some (2 ∷ []))
    × ((complete peer 8 started).1 ≡ true)
    × (in_flight (complete peer 8 started).0 ≡ in_flight busy)
complete-start_example =
    complete-start peer 8 (2 ∷ []) (66 ∷ []) 100 busy 1
      (unfold start place begun reset holds in_flight answers endpoint_eq same in refl) start_twice

tick_slot-IsBackedOff_example : IsBackedOff (tick_slot 5000 ping).0
tick_slot-IsBackedOff_example =
    tick_slot-IsBackedOff 5000 ping (begun-IsBackedOff peer 7 (1 ∷ []) (66 ∷ []) 100)

run_ticks_bounded_example :
    (0 + count_if is_resent (run_ticks (200 ∷ 5000 ∷ []) ping).1 ≤ max_retransmit)
    × (count_if is_timed_out (run_ticks (200 ∷ 5000 ∷ []) ping).1 ≤ 1)
unfolding begun
run_ticks_bounded_example = run_ticks_bounded (200 ∷ 5000 ∷ []) ping (omega arith)

-- A tick too early, five late ones, and one behind the timeout.
abbrev visits : List Arrival
visits =
    Arrival.early 40
    ∷ Arrival.late 0
    ∷ Arrival.late 30
    ∷ Arrival.late 7
    ∷ Arrival.late 100
    ∷ Arrival.late 5
    ∷ Arrival.late 1
    ∷ []

run_arrivals_lem_example :
    ((run_arrivals visits ping).1 ≡ expected 4 visits)
    × ((run_arrivals visits ping).0.state ≡ TransactionState.free)
unfolding begun late_count
run_arrivals_lem_example = run_arrivals_lem 4 ping visits refl (omega arith) refl (
  (omega arith, omega arith),
  (omega arith, (omega arith, (omega arith, (omega arith, (omega arith, (omega arith, tt)))))),
)

run_arrivals_deadline_example :
    (run_arrivals (Arrival.early 9 ∷ Arrival.late 30 ∷ []) ping).0.next_retry_at_ms
    ≡ u32 (100 + compute_initial_timeout_ms 7 * (2 ^ (1 + 1) - 1) + 30)
unfolding late_count delays
run_arrivals_deadline_example =
    run_arrivals_deadline (Arrival.early 9 ∷ Arrival.late 30 ∷ []) peer 7 (1 ∷ []) (66 ∷ []) 100
      (omega arith) ((omega arith, omega arith), (omega arith, tt))

-- An owner that keeps the pool and counts its callbacks.
abbrev counting : Host (List Transaction × ℕ)
counting = record {
  pool = λ s. s.0;
  with_pool = λ s slots. (slots, s.1);
  resend = λ s to message. (s.0, s.1 + 1);
  on_timeout = λ s to token. (s.0, s.1 + 1);
}

counting-HostLaws : HostLaws counting
counting-HostLaws = record {
  pool-with_pool = λ s slots. refl;
  pool-resend = λ s to message. refl;
  pool-on_timeout = λ s to token. refl;
}

pool-tick_example : (tick counting 5000 (busy, 0)).0 ≡ map (ticked 5000) busy
pool-tick_example =
    pool-tick counting counting-HostLaws 5000 (busy, 0) (unfold start place begun reset in refl)
