-- ===== src/Transaction/Slots.antt =====
-- About the pool as a bag of transactions in flight (src/PulseCoAPTransaction.cpp).
use pulse_co_ap.Common.{
  ℕ, suc, ◌+◌, ◌≤◌, ◌<◌, ◌≡◌, refl, ap, ◌∙◌, Bool, true, false, ◌||◌, Option, none, some, List, [],
  ◌∷◌, ltb, if◌then◌else◌, length, set, arith, Bool-cases, ltb→lt, ltb_false→le, inl, inr, ◌⊎◌,
  ==_refl,
}
use pulse_co_ap.Types.Config.{max_token_len, max_msg_size}
use pulse_co_ap.Types.Address.{Endpoint, endpoint_eq_refl}
use pulse_co_ap.Transaction.{
  is_awaiting, Transaction, begun, place, start, answers, carries, free_first, complete,
  complete_by_token, get_token, active_count,
}
use mathlib.Core.List.{Perm}
use mathlib.Core.List.Perm

-- The transactions that await an answer.
unfoldable pub in_flight : List Transaction → List Transaction
in_flight [] = []
in_flight (x ∷ xs) = if is_awaiting x.state then x ∷ in_flight xs else in_flight xs

-- The list without the first entry that passes the test.
pub erase_first : (Transaction → Bool) → List Transaction → List Transaction
erase_first test [] = []
erase_first test (x ∷ xs) = if test x then xs else x ∷ erase_first test xs

unfoldable pub holds : (Transaction → Bool) → List Transaction → Bool
holds test [] = false
holds test (x ∷ xs) = test x || holds test xs

pub active_count-in_flight :
    (slots : List Transaction) → active_count slots ≡ length (in_flight slots)
unfolding active_count in_flight
active_count-in_flight [] = refl
active_count-in_flight (x ∷ xs) = ground (arith, active_count-in_flight xs)

-- How a search for a free slot ends: none is left, or one is overwritten.
abbrev pub Placed : ℕ → Transaction → List Transaction → List Transaction × Option ℕ → Type 0
Placed i t slots r =
    ((length (in_flight slots) ≡ length slots) × (r ≡ (slots, none)))
    ⊎ ((k : ℕ) × (k < length slots)
        × Perm (in_flight (set slots k t)) (t ∷ in_flight slots)
        × (r ≡ (set slots k t, some (i + k))))

place-Placed :
    (i : ℕ) (t : Transaction) (slots : List Transaction)
    → is_awaiting t.state ≡ true
    → Placed i t slots (place i t slots)
unfolding place in_flight
place-Placed i t [] a = inl (refl, refl)
place-Placed i t (x ∷ xs) a = elim (Bool-cases (is_awaiting x.state)) [
  | inr free ↦ inr (
    0,
    omega arith,
    rw (a, free) Perm.rfl,
    rw free (ap (λ (n : ℕ). (t ∷ xs, some n)) (omega arith)),
  )
  | inl busy ↦ elim (place-Placed (i + 1) t xs a) [
    | inl (all, e) ↦ inl (rw busy (ap suc all), rw (busy, e))
    | inr (k, room, p, e) ↦ inr (
      suc k,
      omega arith,
      rw busy (Perm.trans (Perm.cons x p) (Perm.swap t x (in_flight xs))),
      rw (busy, e) (ap (λ (n : ℕ). (x ∷ set xs k t, some n)) (omega arith)),
    )
  ]
]

-- `start` refuses a token or a message that is too long, and a pool with no free slot; otherwise it
-- puts a fresh transaction into one slot, and the transactions in flight are those from before
-- and that one.
start-Placed :
    (remote : Endpoint) (id : ℕ) (token message : List ℕ) (now : ℕ) (slots : List Transaction)
    → (((max_token_len < length token) ⊎ (max_msg_size < length message))
        × (start remote id token message now slots ≡ (slots, none)))
      ⊎ ((length token ≤ max_token_len)
          × (length message ≤ max_msg_size)
          × Placed 0
              (begun remote id token message now)
              slots
              (start remote id token message now slots))
unfolding start
start-Placed remote id token message now slots =
    elim (Bool-cases (ltb max_token_len (length token))) [
      | inl long ↦ inl (inl (ltb→lt _ _ long), rw long)
      | inr short ↦ elim (Bool-cases (ltb max_msg_size (length message))) [
        | inl big ↦ inl (inr (ltb→lt _ _ big), rw (short, big))
        | inr small ↦ inr (
          ltb_false→le _ _ short,
          ltb_false→le _ _ small,
          rw (short, small) (place-Placed 0 _ slots (unfold begun in refl)),
        )
      ]
    ]

-- A test that only transactions in flight pass.
abbrev pub NeedsAwaiting : (Transaction → Bool) → Type 0
NeedsAwaiting test = (t : Transaction) → is_awaiting t.state ≡ false → test t ≡ false

free_first-in_flight :
    (test : Transaction → Bool) (slots : List Transaction)
    → NeedsAwaiting test
    → (in_flight (free_first test slots).0 ≡ erase_first test (in_flight slots))
      × ((free_first test slots).1 ≡ holds test (in_flight slots))
unfolding free_first in_flight erase_first holds
free_first-in_flight test [] n = (refl, refl)
free_first-in_flight test (x ∷ xs) n = ground (arith, n x, free_first-in_flight test xs n)

answers-NeedsAwaiting : (remote : Endpoint) (id : ℕ) → NeedsAwaiting (answers remote id)
unfolding answers
answers-NeedsAwaiting remote id t h = rw h

carries-NeedsAwaiting : (remote : Endpoint) (token : List ℕ) → NeedsAwaiting (carries remote token)
unfolding carries
carries-NeedsAwaiting remote token t h = rw h

-- `complete` takes the first transaction in flight with that peer and message ID away, leaves the
-- others, and reports whether there was one.
pub complete-in_flight :
    (remote : Endpoint) (id : ℕ) (slots : List Transaction)
    → (in_flight (complete remote id slots).0 ≡ erase_first (answers remote id) (in_flight slots))
      × ((complete remote id slots).1 ≡ holds (answers remote id) (in_flight slots))
unfolding complete
complete-in_flight remote id slots =
    free_first-in_flight (answers remote id) slots (answers-NeedsAwaiting remote id)

-- `completeByToken` takes the first transaction in flight with that peer and token away, leaves the
-- others, and reports whether there was one.
complete_by_token-in_flight :
    (remote : Endpoint) (token : List ℕ) (slots : List Transaction)
    → (in_flight (complete_by_token remote token slots).0
        ≡ erase_first (carries remote token) (in_flight slots))
      × ((complete_by_token remote token slots).1 ≡ holds (carries remote token) (in_flight slots))
unfolding complete_by_token
complete_by_token-in_flight remote token slots =
    free_first-in_flight (carries remote token) slots (carries-NeedsAwaiting remote token)

-- The pool as it was, once what was placed in it is taken away again.
complete-place :
    (remote : Endpoint) (id i : ℕ) (t : Transaction) (slots : List Transaction) (k : ℕ)
    → answers remote id t ≡ true
    → is_awaiting t.state ≡ true
    → holds (answers remote id) (in_flight slots) ≡ false
    → (place i t slots).1 ≡ some k
    → (in_flight (free_first (answers remote id) (place i t slots).0).0 ≡ in_flight slots)
      × ((free_first (answers remote id) (place i t slots).0).1 ≡ true)
unfolding place free_first in_flight holds
complete-place remote id i t [] k a w h e = cc
complete-place remote id i t (x ∷ xs) k a w h e =
    ground (arith, complete-place remote id (i + 1) t xs k a w, answers-NeedsAwaiting remote id x)

get_token-place :
    (remote : Endpoint) (id i : ℕ) (t : Transaction) (slots : List Transaction) (k : ℕ)
    → answers remote id t ≡ true
    → holds (answers remote id) (in_flight slots) ≡ false
    → (place i t slots).1 ≡ some k
    → get_token remote id (place i t slots).0 ≡ some t.token
unfolding place get_token in_flight holds
get_token-place remote id i t [] k a h e = cc
get_token-place remote id i t (x ∷ xs) k a h e =
    ground (arith, get_token-place remote id (i + 1) t xs k a, answers-NeedsAwaiting remote id x)

start_accepted :
    (remote : Endpoint) (id : ℕ) (token message : List ℕ) (now : ℕ) (slots : List Transaction)
    (k : ℕ)
    → (start remote id token message now slots).1 ≡ some k
    → start remote id token message now slots ≡ place 0 (begun remote id token message now) slots
unfolding start
start_accepted remote id token message now slots k e = ground arith

begun-answers :
    (remote : Endpoint) (id : ℕ) (token message : List ℕ) (now : ℕ)
    → answers remote id (begun remote id token message now) ≡ true
unfolding answers begun
begun-answers remote id token message now = rw (endpoint_eq_refl remote, ==_refl id)

-- A message that is sent and answered leaves the pool as it was: if no other transaction of that
-- peer and message ID is in flight, then once `start` has found a slot, `getToken` gives the
-- token, `complete` finds the transaction, and the same transactions are in flight as before, in
-- the same order.
pub complete-start :
    (remote : Endpoint) (id : ℕ) (token message : List ℕ) (now : ℕ) (slots : List Transaction)
    (k : ℕ)
    → holds (answers remote id) (in_flight slots) ≡ false
    → (start remote id token message now slots).1 ≡ some k
    → let started = (start remote id token message now slots).0 in
      (get_token remote id started ≡ some token)
      × ((complete remote id started).1 ≡ true)
      × (in_flight (complete remote id started).0 ≡ in_flight slots)
unfolding complete
complete-start remote id token message now slots k h e =
    let placed = start_accepted remote id token message now slots k e in
    let found = rw placed at e in
    let t = begun remote id token message now in
    let a = begun-answers remote id token message now in
    let done = complete-place remote id 0 t slots k a (unfold begun in refl) h found in
    rw placed
      (get_token-place remote id 0 t slots k a h found ∙ unfold begun in refl, done.1, done.0)
