-- ===== src/Transaction/Bounds.antt =====
-- About the sizes of a pool of transactions and of what its slots hold.
use pulse_co_ap.Common.{
  ℕ, zero, suc, ◌+◌, ◌≤◌, ◌≡◌, refl, ◌∙◌, subst, Bool, some, List, [], ◌∷◌, length, All, set,
  get_elem?, arith, Bool-cases, inl, inr, ltb, ltb_false→le, length-set,
}
use pulse_co_ap.Types.Config.{max_token_len, max_msg_size, max_transactions}
use pulse_co_ap.Types.Address.{Endpoint}
use pulse_co_ap.Transaction.{
  Transaction, is_awaiting, begun, place, start, free_first, complete, tick_slot, retried,
}

-- What is copied into a slot fits its arrays.
abbrev pub FitsTransaction : Transaction → Type 0
FitsTransaction t = (length t.token ≤ max_token_len) × (length t.message ≤ max_msg_size)

abbrev pub IsPool : List Transaction → Type 0
IsPool ts = (length ts ≡ max_transactions) × All FitsTransaction ts

length-place :
    (i : ℕ) (t : Transaction) (slots : List Transaction) → length (place i t slots).0 ≡ length slots
unfolding place
length-place i t [] = refl
length-place i t (x ∷ xs) = ground (arith, length-place (i + 1) t xs)

pub length-start :
    (remote : Endpoint) (id : ℕ) (token message : List ℕ) (now : ℕ) (slots : List Transaction)
    → length (start remote id token message now slots).0 ≡ length slots
unfolding start
length-start remote id token message now slots =
    ground (arith, length-place 0 (begun remote id token message now) slots)

length-free_first :
    (test : Transaction → Bool) (slots : List Transaction)
    → length (free_first test slots).0 ≡ length slots
unfolding free_first
length-free_first test [] = refl
length-free_first test (x ∷ xs) = ground (arith, length-free_first test xs)

pub length-complete :
    (remote : Endpoint) (id : ℕ) (slots : List Transaction)
    → length (complete remote id slots).0 ≡ length slots
unfolding complete
length-complete remote id slots = length-free_first _ slots

place-All :
    (i : ℕ) (t : Transaction) (ts : List Transaction)
    → FitsTransaction t
    → All FitsTransaction ts
    → All FitsTransaction (place i t ts).0
unfolding place
place-All i t [] f h = h
place-All i t (x ∷ xs) f h = elim (Bool-cases (is_awaiting x.state)) [
  | inl busy ↦ rw (place, busy) (h.0, place-All (i + 1) t xs f h.1)
  | inr idle ↦ rw (place, idle) (f, h.1)
]

start-All :
    (remote : Endpoint) (id : ℕ) (token message : List ℕ) (now : ℕ) (ts : List Transaction)
    → All FitsTransaction ts
    → All FitsTransaction (start remote id token message now ts).0
unfolding start begun
start-All remote id token message now ts h = elim (Bool-cases (ltb max_token_len (length token))) [
  | inl long ↦ rw (start, long) h
  | inr small ↦ elim (Bool-cases (ltb max_msg_size (length message))) [
    | inl big ↦ rw (start, small, big) h
    | inr fits ↦
        rw (start, small, fits)
          (place-All 0 (begun remote id token message now) ts
            (ltb_false→le _ _ small, ltb_false→le _ _ fits) h)
  ]
]

pub start-IsPool :
    (remote : Endpoint) (id : ℕ) (token message : List ℕ) (now : ℕ) (ts : List Transaction)
    → IsPool ts
    → IsPool (start remote id token message now ts).0
start-IsPool remote id token message now ts h = (
  length-start remote id token message now ts ∙ h.0,
  start-All remote id token message now ts h.1,
)

free_first-All :
    (test : Transaction → Bool) (ts : List Transaction)
    → All FitsTransaction ts
    → All FitsTransaction (free_first test ts).0
unfolding free_first
free_first-All test [] h = h
free_first-All test (x ∷ xs) h = elim (Bool-cases (test x)) [
  | inl found ↦ rw (free_first, found) (h.0, h.1)
  | inr other ↦ rw (free_first, other) (h.0, free_first-All test xs h.1)
]

pub complete-IsPool :
    (remote : Endpoint) (id : ℕ) (ts : List Transaction)
    → IsPool ts
    → IsPool (complete remote id ts).0
unfolding complete
complete-IsPool remote id ts h = (length-complete remote id ts ∙ h.0, free_first-All _ ts h.1)

-- A round of the loop of `tick` changes no token and no message.
pub tick_slot-FitsTransaction :
    (now : ℕ) (t : Transaction) → FitsTransaction t → FitsTransaction (tick_slot now t).0
unfolding tick_slot retried
tick_slot-FitsTransaction now t h = ground arith

All-set :
    (ts : List Transaction) (i : ℕ) (v : Transaction)
    → FitsTransaction v
    → All FitsTransaction ts
    → All FitsTransaction (set ts i v)
All-set [] i v f h = h
All-set (x ∷ xs) zero v f h = (f, h.1)
All-set (x ∷ xs) (suc i) v f h = (h.0, All-set xs i v f h.1)

pub set-IsPool :
    (ts : List Transaction) (i : ℕ) (v : Transaction)
    → FitsTransaction v
    → IsPool ts
    → IsPool (set ts i v)
set-IsPool ts i v f h = (length-set ts i v ∙ h.0, All-set ts i v f h.1)

pub get_elem?-FitsTransaction :
    (ts : List Transaction) (i : ℕ) (t : Transaction)
    → get_elem? ts i ≡ some t
    → All FitsTransaction ts
    → FitsTransaction t
get_elem?-FitsTransaction [] i t e h = cc
get_elem?-FitsTransaction (x ∷ xs) zero t e h =
    let found : x ≡ t = cc in subst FitsTransaction found h.0
get_elem?-FitsTransaction (x ∷ xs) (suc i) t e h = get_elem?-FitsTransaction xs i t e h.1
