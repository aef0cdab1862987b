-- ===== src/Client/Safety/Indices.antt =====
-- About the slots that the searches of the client find (src/PulseCoAPClient.cpp).
use pulse_co_ap.Common.{
  ℕ, suc, ◌+◌, ◌<◌, ◌≡◌, Option, none, some, List, [], ◌∷◌, length, arith, Bool-cases, inl, inr,
  subst,
}
use pulse_co_ap.Types.Config.{max_transactions, max_discovers}
use pulse_co_ap.Types.Address.{Endpoint}
use pulse_co_ap.Client.{PendingRequest, DiscoverSlot, Client}
use pulse_co_ap.Client.Slots.{allocate_pending, carries_token, find_pending}
use pulse_co_ap.Client.Methods.{observes, find_observe}
use pulse_co_ap.Client.Discovering.{free_discover}
use pulse_co_ap.Client.Safety.{IsSound}
use mathlib.Core.Option

-- An index of an array of `n` entries, or none.
abbrev pub IsIndex : ℕ → Option ℕ → Type 0
IsIndex n none = Unit {0}
IsIndex n (some k) = k < n

later : (i n : ℕ) (r : Option ℕ) → IsIndex (i + 1 + n) r → IsIndex (i + suc n) r
later i n none h = h
later i n (some k) h = omega arith

allocate_pending-IsIndex :
    (i : ℕ) (ps : List PendingRequest) → IsIndex (i + length ps) (allocate_pending i ps).1
unfolding allocate_pending
allocate_pending-IsIndex i [] = tt
allocate_pending-IsIndex i (p ∷ ps) = elim (Bool-cases p.active) [
  | inl busy ↦
      rw (allocate_pending, busy) (later i (length ps) _ (allocate_pending-IsIndex (i + 1) ps))
  | inr idle ↦ rw (allocate_pending, idle) (omega arith)
]

find_pending-IsIndex :
    (token : List ℕ) (i : ℕ) (ps : List PendingRequest)
    → IsIndex (i + length ps) (find_pending token i ps)
unfolding find_pending
find_pending-IsIndex token i [] = tt
find_pending-IsIndex token i (p ∷ ps) = elim (Bool-cases (carries_token token p)) [
  | inl here ↦ rw (find_pending, here) (omega arith)
  | inr other ↦
      rw (find_pending, other) (later i (length ps) _ (find_pending-IsIndex token (i + 1) ps))
]

find_observe-IsIndex :
    (server : Endpoint) (path : List ℕ) (i : ℕ) (ps : List PendingRequest)
    → IsIndex (i + length ps) (Option.map (λ r. r.0) (find_observe server path i ps))
unfolding find_observe
find_observe-IsIndex server path i [] = tt
find_observe-IsIndex server path i (p ∷ ps) = elim (Bool-cases (observes server path p)) [
  | inl here ↦ rw (find_observe, here) (omega arith)
  | inr other ↦
      rw (find_observe, other) (later i (length ps) _ (find_observe-IsIndex server path (i + 1) ps))
]

free_discover-IsIndex :
    (i : ℕ) (ds : List DiscoverSlot) → IsIndex (i + length ds) (free_discover i ds)
unfolding free_discover
free_discover-IsIndex i [] = tt
free_discover-IsIndex i (d ∷ ds) = elim (Bool-cases d.active) [
  | inl busy ↦ rw (free_discover, busy) (later i (length ds) _ (free_discover-IsIndex (i + 1) ds))
  | inr idle ↦ rw (free_discover, idle) (omega arith)
]

-- What `allocatePending`, `findPendingByToken`, the search of `cancelObserve` and that of
-- `discover` find are indices of the arrays that are written there.
abbrev pub FindsInside : List ℕ → Endpoint → List ℕ → Client → Type 0
FindsInside token server path c =
    IsIndex max_transactions (allocate_pending 0 c.pending).1
    × IsIndex max_transactions (find_pending token 0 c.pending)
    × IsIndex max_transactions (Option.map (λ r. r.0) (find_observe server path 0 c.pending))
    × IsIndex max_discovers (free_discover 0 c.discovers)

pub IsSound-FindsInside :
    (token : List ℕ) (server : Endpoint) (path : List ℕ) (c : Client)
    → IsSound c
    → FindsInside token server path c
IsSound-FindsInside token server path c w =
    let slots : (0 + length c.pending) ≡ max_transactions = omega (arith, w.0.0) in
    (
      subst (λ n. IsIndex n (allocate_pending 0 c.pending).1) slots
          (allocate_pending-IsIndex 0 c.pending),
      subst (λ n. IsIndex n (find_pending token 0 c.pending)) slots
          (find_pending-IsIndex token 0 c.pending),
      subst (λ n. IsIndex n (Option.map (λ r. r.0) (find_observe server path 0 c.pending))) slots
          (find_observe-IsIndex server path 0 c.pending),
      subst (λ n. IsIndex n (free_discover 0 c.discovers)) (omega (arith, w.4.0))
          (free_discover-IsIndex 0 c.discovers),
    )
