-- ===== src/Server/Observers/Registry.antt =====
-- About the table of observers as a set of registrations, each a peer and a token
-- (src/PulseCoAPServer.cpp).
use pulse_co_ap.Common.{
  ℕ, ◌+◌, ◌≤◌, ◌<◌, ◌≡◌, refl, Bool, true, false, ◌&&◌, ◌||◌, Option, none, some, List, [], ◌∷◌,
  ltb, ◌==◌, if◌then◌else◌, length, arith, Bool-cases, inl, inr, same, same_iff, same_sym, ltb→lt,
  ltb_false→le,
}
use pulse_co_ap.Types.Address.{Endpoint, endpoint_eq, endpoint_eq_sym, endpoint_eq_trans}
use pulse_co_ap.Server.{Observer}
use pulse_co_ap.Server.Observers.{
  is_registered, refresh, enrol, register_observer, remove_observer, observer_count,
}

-- Two keys are one registration.
unfoldable pub same_key : Endpoint → List ℕ → Endpoint → List ℕ → Bool
same_key r t r' t' = endpoint_eq r r' && same t t'

-- How many slots hold the registration.
unfoldable pub registrations : Endpoint → List ℕ → List Observer → ℕ
registrations r t [] = 0
registrations r t (o ∷ os) =
    if is_registered r t o then registrations r t os + 1 else registrations r t os

same_trans : (a b c : List ℕ) → same a b ≡ true → same b c ≡ true → same a c ≡ true
same_trans a b c h k = ground (arith, same_iff a b, same_iff b c, same_iff a c)

-- A slot holds one registration only.
one_key :
    (r r' : Endpoint) (t t' : List ℕ) (o : Observer)
    → is_registered r t o ≡ true
    → is_registered r' t' o ≡ true
    → same_key r t r' t' ≡ true
unfolding is_registered same_key
one_key r r' t t' o h k = ground (
  arith,
  endpoint_eq_sym o.remote r,
  endpoint_eq_trans r o.remote r',
  same_sym o.token t,
  same_trans t o.token t',
)

-- The first slot with the registration, pointed at another resource.
unfoldable pub mark : ℕ → Endpoint → List ℕ → List Observer → List Observer
mark idx r t [] = []
mark idx r t (o ∷ os) =
    if is_registered r t o then record o { resource_index = idx } ∷ os else o ∷ mark idx r t os

refresh_lem :
    (idx : ℕ) (r : Endpoint) (t : List ℕ) (os : List Observer)
    → refresh idx r t os ≡ (if ltb 0 (registrations r t os) then some (mark idx r t os) else none)
unfolding refresh registrations mark
refresh_lem idx r t [] = refl
refresh_lem idx r t (o ∷ os) = ground (arith, refresh_lem idx r t os)

registrations-mark :
    (idx : ℕ) (r : Endpoint) (t : List ℕ) (os : List Observer) (r' : Endpoint) (t' : List ℕ)
    → registrations r' t' (mark idx r t os) ≡ registrations r' t' os
unfolding mark registrations is_registered
registrations-mark idx r t [] r' t' = refl
registrations-mark idx r t (o ∷ os) r' t' = ground (arith, registrations-mark idx r t os r' t')

observer_count-le : (os : List Observer) → observer_count os ≤ length os
unfolding observer_count
observer_count-le [] = omega arith
observer_count-le (o ∷ os) = ground (arith, observer_count-le os)

-- The registration takes the first free slot, if there is one; the others are as before.
registrations-enrol :
    (idx : ℕ) (r : Endpoint) (t : List ℕ) (os : List Observer) (r' : Endpoint) (t' : List ℕ)
    → registrations r' t' (enrol idx r t os) ≡ (
        if ltb (observer_count os) (length os) && same_key r t r' t'
        then registrations r' t' os + 1
        else registrations r' t' os)
unfolding enrol registrations observer_count is_registered same_key
registrations-enrol idx r t [] r' t' = refl
registrations-enrol idx r t (o ∷ os) r' t' =
    ground (arith, registrations-enrol idx r t os r' t', observer_count-le os)

pub register_observer_cases :
    (idx : ℕ) (r : Endpoint) (t : List ℕ) (os : List Observer)
    → register_observer idx r t os
      ≡ (if ltb 0 (registrations r t os) then mark idx r t os else enrol idx r t os)
unfolding register_observer
register_observer_cases idx r t os = elim (Bool-cases (ltb 0 (registrations r t os))) [
  | inl old ↦ rw (refresh_lem idx r t os, old, register_observer)
  | inr new ↦ rw (refresh_lem idx r t os, new, register_observer)
]

same_key_registered :
    (r r' : Endpoint) (t t' : List ℕ) (o : Observer)
    → same_key r t r' t' ≡ true
    → is_registered r' t' o ≡ true
    → is_registered r t o ≡ true
unfolding is_registered same_key
same_key_registered r r' t t' o h k = ground (
  arith,
  endpoint_eq_sym r r',
  endpoint_eq_trans o.remote r' r,
  same_sym t t',
  same_trans o.token t' t,
)

same_key_sym :
    (r : Endpoint) (t : List ℕ) (r' : Endpoint) (t' : List ℕ)
    → same_key r t r' t' ≡ same_key r' t' r t
unfolding same_key
same_key_sym r t r' t' = rw (endpoint_eq_sym r r', same_sym t t') refl

idle_registered :
    (r : Endpoint) (t : List ℕ) (o : Observer) → o.active ≡ false → is_registered r t o ≡ false
unfolding is_registered
idle_registered r t o h = rw h refl

new_registered :
    (idx : ℕ) (r : Endpoint) (t : List ℕ) (o : Observer) (r' : Endpoint) (t' : List ℕ)
    → is_registered r' t' (record o { active = true; resource_index = idx; remote = r; token = t })
      ≡ same_key r t r' t'
unfolding is_registered same_key
new_registered idx r t o r' t' = refl

-- The resource that a registration observes: that of its first slot.
unfoldable pub resource_of : Endpoint → List ℕ → List Observer → Option ℕ
resource_of r t [] = none
resource_of r t (o ∷ os) = if is_registered r t o then some o.resource_index else resource_of r t os

-- The keys that a slot with the registration has.
registered_key :
    (r r' : Endpoint) (t t' : List ℕ) (o : Observer)
    → is_registered r t o ≡ true
    → is_registered r' t' o ≡ same_key r t r' t'
registered_key r r' t t' o h =
    ground (arith, one_key r r' t t' o, same_key_registered r' r t' t o, same_key_sym r t r' t')

resource_of-mark :
    (idx : ℕ) (r : Endpoint) (t : List ℕ) (os : List Observer) (r' : Endpoint) (t' : List ℕ)
    → 0 < registrations r t os
    → resource_of r' t' (mark idx r t os)
      ≡ (if same_key r t r' t' then some idx else resource_of r' t' os)
unfolding mark registrations resource_of
resource_of-mark idx r t [] r' t' h = absurd (omega arith)
resource_of-mark idx r t (o ∷ os) r' t' h = elim (Bool-cases (is_registered r t o)) [
  | inl here ↦
      let key = registered_key r r' t t' o here in
      let moved =
        registered_key r r' t t' (record o { resource_index = idx })
          (unfold is_registered in here) in
      ground arith
  | inr other ↦ ground (arith, resource_of-mark idx r t os r' t', same_key_registered r r' t t' o)
]

resource_of-enrol :
    (idx : ℕ) (r : Endpoint) (t : List ℕ) (os : List Observer) (r' : Endpoint) (t' : List ℕ)
    → registrations r t os ≡ 0
    → resource_of r' t' (enrol idx r t os) ≡ (
        if ltb (observer_count os) (length os) && same_key r t r' t'
        then some idx
        else resource_of r' t' os)
unfolding enrol registrations observer_count resource_of
resource_of-enrol idx r t [] r' t' h = refl
resource_of-enrol idx r t (o ∷ os) r' t' h = ground (
  arith,
  resource_of-enrol idx r t os r' t',
  observer_count-le os,
  same_key_registered r r' t t' o,
  idle_registered r t o,
  idle_registered r' t' o,
  new_registered idx r t o r' t',
)

-- `registerObserver` of a peer and a token at a resource. If they are registered, or a slot is
-- free, they observe that resource afterwards, and what every other peer and token observes is as
-- before; they are registered once more only if they were not, and found a slot; with no
-- registration and no free slot no registration and no resource of one changes.
pub register_observer_lem :
    (idx : ℕ) (r : Endpoint) (t : List ℕ) (os : List Observer) (r' : Endpoint) (t' : List ℕ)
    → (registrations r' t' (register_observer idx r t os) ≡ (
        if registrations r t os == 0 && (ltb (observer_count os) (length os) && same_key r t r' t')
        then registrations r' t' os + 1
        else registrations r' t' os))
      × (resource_of r' t' (register_observer idx r t os) ≡ (
          if (ltb 0 (registrations r t os) || ltb (observer_count os) (length os))
            && same_key r t r' t'
          then some idx
          else resource_of r' t' os))
register_observer_lem idx r t os r' t' = elim (Bool-cases (ltb 0 (registrations r t os))) [
  | inl old ↦
      rw
        (
          register_observer_cases idx r t os,
          old,
          registrations-mark idx r t os r' t',
          resource_of-mark idx r t os r' t' (ltb→lt _ _ old),
        )
        (ground arith)
  | inr new ↦
      rw
        (
          register_observer_cases idx r t os,
          new,
          registrations-enrol idx r t os r' t',
          resource_of-enrol idx r t os r' t' (omega (arith, ltb_false→le _ _ new)),
        )
        (ground arith)
]

-- No registration is held twice.
abbrev pub IsUnique : List Observer → Type 0
IsUnique os = (r : Endpoint) (t : List ℕ) → registrations r t os ≤ 1

same_key-registrations :
    (r r' : Endpoint) (t t' : List ℕ) (os : List Observer)
    → same_key r t r' t' ≡ true
    → registrations r' t' os ≤ registrations r t os
unfolding registrations
same_key-registrations r r' t t' [] h = omega arith
same_key-registrations r r' t t' (o ∷ os) h =
    ground (arith, same_key-registrations r r' t t' os, same_key_registered r r' t t' o)

-- A table in which no peer and token is registered twice stays one.
pub register_observer-IsUnique :
    (idx : ℕ) (r : Endpoint) (t : List ℕ) (os : List Observer)
    → IsUnique os
    → IsUnique (register_observer idx r t os)
register_observer-IsUnique idx r t os u r' t' = ground (
  arith,
  (register_observer_lem idx r t os r' t').0,
  u r' t',
  same_key-registrations r r' t t' os,
)

unregistered :
    (r : Endpoint) (t : List ℕ) (o : Observer)
    → is_registered r t (record o { active = false }) ≡ false
unfolding is_registered
unregistered r t o = refl

-- A deregistration takes every slot of that peer and token away, and no other.
pub remove_observer_lem :
    (r : Endpoint) (t : List ℕ) (os : List Observer) (r' : Endpoint) (t' : List ℕ)
    → registrations r' t' (remove_observer r t os)
      ≡ (if same_key r t r' t' then 0 else registrations r' t' os)
unfolding registrations remove_observer
remove_observer_lem r t [] r' t' = ground arith
remove_observer_lem r t (o ∷ os) r' t' = ground (
  arith,
  remove_observer_lem r t os r' t',
  one_key r r' t t' o,
  same_key_registered r r' t t' o,
  unregistered r' t' o,
)
