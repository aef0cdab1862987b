-- ===== src/Client/Slots/Outstanding.antt =====
-- About the pending slots as a bag of outstanding requests.
use pulse_co_ap.Common.{
  ℕ, suc, ◌+◌, ◌≡◌, refl, ap, true, Option, none, some, List, [], ◌∷◌, if◌then◌else◌, length,
  modify, arith, Bool-cases, inl, inr, ◌⊎◌,
}
use pulse_co_ap.Client.{PendingRequest, idle_request}
use pulse_co_ap.Client.Slots.{allocate_pending, closed}
use mathlib.Core.List.{Perm}
use mathlib.Core.List.Perm

-- The requests that wait for an answer.
unfoldable pub outstanding : List PendingRequest → List PendingRequest
outstanding [] = []
outstanding (p ∷ ps) = if p.active then p ∷ outstanding ps else outstanding ps

-- A slot just taken.
abbrev pub fresh : PendingRequest
fresh = record idle_request { active = true }

-- How `allocatePending` ends: all slots are busy, or an idle one is taken.
abbrev pub Allocated : ℕ → List PendingRequest → List PendingRequest × Option ℕ → Type 0
Allocated i ps r =
    ((length (outstanding ps) ≡ length ps) × (r.1 ≡ none))
    ⊎ ((k : ℕ) × (r.1 ≡ some (i + k))
        × (outstanding (modify k closed r.0) ≡ outstanding ps)
        × ((f : PendingRequest → PendingRequest)
            → (f fresh).active ≡ true
            → Perm (outstanding (modify k f r.0)) (f fresh ∷ outstanding ps)))

pub allocate_pending-Allocated :
    (i : ℕ) (ps : List PendingRequest) → Allocated i ps (allocate_pending i ps)
unfolding allocate_pending outstanding
allocate_pending-Allocated i [] = inl (refl, refl)
allocate_pending-Allocated i (p ∷ ps) = elim (Bool-cases p.active) [
  | inr idle ↦ rw idle (inr (0, ap some (omega arith), refl, λ f a. rw a Perm.rfl))
  | inl busy ↦ elim (allocate_pending-Allocated (i + 1) ps) [
    | inl (all, e) ↦ rw busy (inl (ap suc all, e))
    | inr (k, e, freed, taken) ↦ rw busy (
        inr (
          suc k,
          rw e (ap some (omega arith)),
          ap (◌∷◌ (record p { active = true })) freed,
          λ f a. Perm.trans (Perm.cons _ (taken f a)) (Perm.swap (f fresh) _ (outstanding ps)),
        ))
  ]
]
