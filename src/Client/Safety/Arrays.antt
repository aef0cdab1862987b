-- ===== src/Client/Safety/Arrays.antt =====
-- About the arrays of a client under the operations on one of them.
use pulse_co_ap.Common.{
  ℕ, suc, ◌+◌, ◌<◌, ◌≡◌, refl, ap, ◌∙◌, List, [], ◌∷◌, length, replicate, All, modify,
  length-replicate, All-replicate, arith, Bool-cases, inl, inr, length-modify, All-modify, if_both,
}
use pulse_co_ap.Types.Config.{max_uri_path_len}
use pulse_co_ap.Client.{PendingRequest, DiscoverSlot}
use pulse_co_ap.Client.Slots.{allocate_pending}
use pulse_co_ap.Client.Requests.{kept_path}
use pulse_co_ap.Client.Discovering.{expire_discovers}
use pulse_co_ap.Client.Safety.{IsArray, FitsPending, FitsDiscover}

pub IsArray-modify {ℓ κ} :
    {A : Type ℓ} {n : ℕ} (P : A → Type κ) (i : ℕ) (f : A → A) (xs : List A)
    → ((x : A) → P x → P (f x))
    → IsArray n P xs
    → IsArray n P (modify i f xs)
IsArray-modify P i f xs keeps h = (length-modify i f xs ∙ h.0, All-modify P i f xs keeps h.1)

length-allocate_pending :
    (i : ℕ) (ps : List PendingRequest) → length (allocate_pending i ps).0 ≡ length ps
unfolding allocate_pending
length-allocate_pending i [] = refl
length-allocate_pending i (p ∷ ps) = ground (arith, length-allocate_pending (i + 1) ps)

allocate_pending-All :
    (i : ℕ) (ps : List PendingRequest)
    → All FitsPending ps
    → All FitsPending (allocate_pending i ps).0
unfolding allocate_pending
allocate_pending-All i [] h = h
allocate_pending-All i (p ∷ ps) h = elim (Bool-cases p.active) [
  | inl busy ↦ rw (allocate_pending, busy) (h.0, allocate_pending-All (i + 1) ps h.1)
  | inr idle ↦ rw (allocate_pending, idle) ((omega arith, omega arith), h.1)
]

pub allocate_pending-IsArray :
    {n : ℕ} (ps : List PendingRequest)
    → IsArray n FitsPending ps
    → IsArray n FitsPending (allocate_pending 0 ps).0
allocate_pending-IsArray ps h = (length-allocate_pending 0 ps ∙ h.0, allocate_pending-All 0 ps h.1)

pub kept_path_bound : (path : List ℕ) → length (kept_path path) < max_uri_path_len
kept_path_bound path = ground arith

expire_discovers-All :
    (now : ℕ) (ds : List DiscoverSlot)
    → All FitsDiscover ds
    → All FitsDiscover (expire_discovers now ds)
unfolding expire_discovers
expire_discovers-All now [] h = h
expire_discovers-All now (d ∷ ds) h =
    (if_both FitsDiscover _ h.0 h.0, expire_discovers-All now ds h.1)

length-expire_discovers :
    (now : ℕ) (ds : List DiscoverSlot) → length (expire_discovers now ds) ≡ length ds
unfolding expire_discovers
length-expire_discovers now [] = refl
length-expire_discovers now (d ∷ ds) = ap suc (length-expire_discovers now ds)

pub expire_discovers-IsArray :
    {n : ℕ} (now : ℕ) (ds : List DiscoverSlot)
    → IsArray n FitsDiscover ds
    → IsArray n FitsDiscover (expire_discovers now ds)
expire_discovers-IsArray now ds h =
    (length-expire_discovers now ds ∙ h.0, expire_discovers-All now ds h.1)

pub IsArray-replicate {ℓ κ} :
    {A : Type ℓ} (P : A → Type κ) (n : ℕ) (a : A) → P a → IsArray n P (replicate n a)
IsArray-replicate P n a h = (length-replicate n a, All-replicate P n a h)
