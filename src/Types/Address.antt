-- ===== src/Types/Address.antt =====
-- The endpoint of src/PulseCoAPTransport.h.
use pulse_co_ap.Common.{
  ℕ, ◌≡◌, Bool, true, false, ◌||◌, not, ◌==◌, if◌then◌else◌, arith, same, same_iff, same_refl,
  same_sym, List, [], ◌∷◌,
}

-- `ip` holds four bytes and `v6` sixteen.
pub record Endpoint : Type 0 where
  pub ip : List ℕ
  pub v6 : List ℕ
  pub is_v6 : Bool
  pub port : ℕ

unfoldable pub beq_bool : Bool → Bool → Bool
beq_bool true b = b
beq_bool false b = not b

-- `operator==`: the port, the family and the address of that family.
unfoldable pub endpoint_eq : Endpoint → Endpoint → Bool
unfolding beq_bool
endpoint_eq a b =
    if not (a.port == b.port) || not (beq_bool a.is_v6 b.is_v6)
    then false
    else if a.is_v6
    then same a.v6 b.v6
    else same a.ip b.ip

-- `Endpoint()`.
abbrev pub unspecified : Endpoint
unspecified = record {
  ip = 0 ∷ 0 ∷ 0 ∷ 0 ∷ [];
  v6 = 0 ∷ 0 ∷ 0 ∷ 0 ∷ 0 ∷ 0 ∷ 0 ∷ 0 ∷ 0 ∷ 0 ∷ 0 ∷ 0 ∷ 0 ∷ 0 ∷ 0 ∷ 0 ∷ [];
  is_v6 = false;
  port = 0;
}

pub endpoint_eq_refl : (a : Endpoint) → endpoint_eq a a ≡ true
unfolding endpoint_eq
endpoint_eq_refl a = ground (arith, same_refl a.v6, same_refl a.ip)

-- `operator==` is an equivalence.
pub endpoint_eq_sym : (a b : Endpoint) → endpoint_eq a b ≡ endpoint_eq b a
unfolding endpoint_eq beq_bool
endpoint_eq_sym a b = ground (arith, same_sym a.v6 b.v6, same_sym a.ip b.ip)

pub endpoint_eq_trans :
    (a b c : Endpoint) → endpoint_eq a b ≡ true → endpoint_eq b c ≡ true → endpoint_eq a c ≡ true
unfolding endpoint_eq beq_bool
endpoint_eq_trans a b c h k = ground (
  arith,
  same_iff a.v6 b.v6,
  same_iff b.v6 c.v6,
  same_iff a.v6 c.v6,
  same_iff a.ip b.ip,
  same_iff b.ip c.ip,
  same_iff a.ip c.ip,
)
