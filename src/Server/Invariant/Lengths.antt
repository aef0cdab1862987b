-- ===== src/Server/Invariant/Lengths.antt =====
-- About the lengths of the arrays under the operations on them.
use pulse_co_ap.Common.{ℕ, suc, ◌+◌, ◌≡◌, refl, ap, List, [], ◌∷◌, length, arith}
use pulse_co_ap.Types.Address.{Endpoint}
use pulse_co_ap.Block.{Block1Session}
use pulse_co_ap.Server.{Observer}
use pulse_co_ap.Server.Observers.{
  enrol, register_observer, remove_observer, note_message_id, drop_rejected,
}
use pulse_co_ap.Server.Observers.Registry.{mark, register_observer_cases}
use pulse_co_ap.Server.Upload.{allocate_block1_session}
use mathlib.Core.List.{map}

pub length-map {ℓ κ} :
    {A : Type ℓ} {B : Type κ} (f : A → B) (xs : List A) → length (map f xs) ≡ length xs
length-map f [] = refl
length-map f (x ∷ xs) = ap suc (length-map f xs)

length-enrol :
    (idx : ℕ) (r : Endpoint) (t : List ℕ) (os : List Observer)
    → length (enrol idx r t os) ≡ length os
unfolding enrol
length-enrol idx r t [] = refl
length-enrol idx r t (o ∷ os) = ground (arith, length-enrol idx r t os)

length-mark :
    (idx : ℕ) (r : Endpoint) (t : List ℕ) (os : List Observer)
    → length (mark idx r t os) ≡ length os
unfolding mark
length-mark idx r t [] = refl
length-mark idx r t (o ∷ os) = ground (arith, length-mark idx r t os)

pub length-register_observer :
    (idx : ℕ) (r : Endpoint) (t : List ℕ) (os : List Observer)
    → length (register_observer idx r t os) ≡ length os
length-register_observer idx r t os =
    rw (register_observer_cases idx r t os)
      (ground (arith, length-mark idx r t os, length-enrol idx r t os))

pub length-remove_observer :
    (r : Endpoint) (t : List ℕ) (os : List Observer) → length (remove_observer r t os) ≡ length os
unfolding remove_observer
length-remove_observer r t [] = refl
length-remove_observer r t (o ∷ os) = ap suc (length-remove_observer r t os)

pub length-note_message_id :
    (r : Endpoint) (t : List ℕ) (id : ℕ) (os : List Observer)
    → length (note_message_id r t id os) ≡ length os
unfolding note_message_id
length-note_message_id r t id [] = refl
length-note_message_id r t id (o ∷ os) = ground (arith, length-note_message_id r t id os)

pub length-drop_rejected :
    (from : Endpoint) (id : ℕ) (os : List Observer) → length (drop_rejected from id os) ≡ length os
unfolding drop_rejected
length-drop_rejected from id [] = refl
length-drop_rejected from id (o ∷ os) = ground (arith, length-drop_rejected from id os)

pub length-allocate_block1_session :
    (r : Endpoint) (t : List ℕ) (i : ℕ) (bs : List Block1Session)
    → length (allocate_block1_session r t i bs).0 ≡ length bs
unfolding allocate_block1_session
length-allocate_block1_session r t i [] = refl
length-allocate_block1_session r t i (b ∷ bs) =
    ground (arith, length-allocate_block1_session r t (i + 1) bs)
