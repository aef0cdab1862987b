-- ===== src/Client/Slots/Carriers.antt =====
-- About the pending requests that carry a token.
use pulse_co_ap.Common.{
  ℕ, zero, suc, ◌+◌, ◌≡◌, refl, ap, ◌∙◌, false, Option, none, some, List, [], ◌∷◌, if◌then◌else◌,
  modify, get_elem?, arith, Bool-cases, inl, inr, ◌⊎◌,
}
use pulse_co_ap.Client.{PendingRequest}
use pulse_co_ap.Client.Slots.{carries_token, find_pending, closed}

-- The outstanding requests of a token, in the order of their slots.
unfoldable pub carriers : List ℕ → List PendingRequest → List PendingRequest
carriers token [] = []
carriers token (p ∷ ps) = if carries_token token p then p ∷ carriers token ps else carriers token ps

carries_token-closed :
    (token : List ℕ) (p : PendingRequest) → carries_token token (closed p) ≡ false
unfolding carries_token
carries_token-closed token p = refl

-- `findPendingByToken` finds the first of them, and closing its slot leaves the others.
abbrev pub Found : List ℕ → ℕ → List PendingRequest → Option ℕ → Type 0
Found token i ps r =
    ((carriers token ps ≡ []) × (r ≡ none))
    ⊎ ((k : ℕ) × (p : PendingRequest) × (r ≡ some (i + k))
        × (get_elem? ps k ≡ some p)
        × (carriers token ps ≡ p ∷ carriers token (modify k closed ps)))

pub find_pending-Found :
    (token : List ℕ) (i : ℕ) (ps : List PendingRequest) → Found token i ps (find_pending token i ps)
unfolding find_pending carriers
find_pending-Found token i [] = inl (refl, refl)
find_pending-Found token i (p ∷ ps) = elim (Bool-cases (carries_token token p)) [
  | inl here ↦
      inr (
        zero,
        p,
        rw here (ap some (omega arith)),
        refl,
        rw (here, carries_token-closed token p) refl,
      )
  | inr other ↦ elim (find_pending-Found token (i + 1) ps) [
    | inl (nobody, e) ↦ inl (rw other nobody, rw other e)
    | inr (k, q, e, there, rest) ↦
        inr (suc k, q, rw other (e ∙ ap some (omega arith)), there, rw other rest)
  ]
]

-- From slot 0 on, where some request carries the token.
pub find_pending_first :
    (token : List ℕ) (ps rest : List PendingRequest) (p : PendingRequest)
    → carriers token ps ≡ p ∷ rest
    → (k : ℕ) × (find_pending token 0 ps ≡ some k)
      × (get_elem? ps k ≡ some p)
      × (carriers token (modify k closed ps) ≡ rest)
find_pending_first token ps rest p h = elim (find_pending-Found token 0 ps) [
  | inl (nobody, e) ↦ absurd cc
  | inr (k, q, e, there, split) ↦
      let first : q ≡ p = cc in
      let left : carriers token (modify k closed ps) ≡ rest = cc in
      (k, e ∙ ap some (omega arith), there ∙ ap some first, left)
]

pub find_pending_nobody :
    (token : List ℕ) (ps : List PendingRequest)
    → carriers token ps ≡ []
    → find_pending token 0 ps ≡ none
find_pending_nobody token ps h = elim (find_pending-Found token 0 ps) [
  | inl (nobody, e) ↦ e
  | inr (k, q, e, there, split) ↦ absurd cc
]
