-- ===== src/Transaction/Ticks.antt =====
-- `tick` over the whole pool, for an owner whose callbacks leave the pool alone, and the rule for
-- invariants of any owner.
use pulse_co_ap.Common.{
  ℕ, zero, suc, ◌+◌, ◌≡◌, refl, sym, ap, ◌∙◌, some, List, [], ◌∷◌, ◌++◌, length, get_elem?, set,
  arith, length-append, append_assoc,
}
use pulse_co_ap.Types.Config.{max_transactions}
use pulse_co_ap.Types.Address.{Endpoint}
use pulse_co_ap.Transaction.{
  Transaction, Fired, tick_slot, Host, call_back, tick_at, tick_from, tick,
}
use mathlib.Core.List.{map}

-- What the pool needs of its owner.
pub record HostLaws {S : Type 0} (h : Host S) : Type 0 where
  pub pool-with_pool : (s : S) (slots : List Transaction) → h.pool (h.with_pool s slots) ≡ slots
  pub pool-resend :
      (s : S) (to : Endpoint) (message : List ℕ) → h.pool (h.resend s to message) ≡ h.pool s
  pub pool-on_timeout :
      (s : S) (to : Endpoint) (token : List ℕ) → h.pool (h.on_timeout s to token) ≡ h.pool s

get_elem?-middle {ℓ} :
    {A : Type ℓ} (xs : List A) (x : A) (ys : List A)
    → get_elem? (xs ++ (x ∷ ys)) (length xs) ≡ some x
get_elem?-middle [] x ys = refl
get_elem?-middle (y ∷ xs) x ys = get_elem?-middle xs x ys

set-middle {ℓ} :
    {A : Type ℓ} (xs : List A) (x y : A) (ys : List A)
    → set (xs ++ (x ∷ ys)) (length xs) y ≡ xs ++ (y ∷ ys)
set-middle [] x y ys = refl
set-middle (z ∷ xs) x y ys = ap (◌∷◌ z) (set-middle xs x y ys)

-- A slot after one tick.
abbrev pub ticked : ℕ → Transaction → Transaction
ticked now t = (tick_slot now t).0

module _ {S : Type 0} (h : Host S) (laws : HostLaws h) where
  pool-call_back : (s : S) (t : Transaction) (f : Fired) → h.pool (call_back h s t f) ≡ h.pool s
  unfolding call_back
  pool-call_back s t Fired.nothing = refl
  pool-call_back s t Fired.resent = laws.pool-resend s t.remote t.message
  pool-call_back s t Fired.timed_out = laws.pool-on_timeout s t.remote t.token

  tick_at_found :
      (now i : ℕ) (s : S) (t : Transaction)
      → get_elem? (h.pool s) i ≡ some t
      → tick_at h now i s
        ≡ call_back h (h.with_pool s (set (h.pool s) i (ticked now t))) t (tick_slot now t).1
  unfolding tick_at
  tick_at_found now i s t e = rw (e, tick_at)

  pool-tick_at :
      (now : ℕ) (s : S) (xs : List Transaction) (t : Transaction) (ys : List Transaction)
      → h.pool s ≡ xs ++ (t ∷ ys)
      → h.pool (tick_at h now (length xs) s) ≡ xs ++ (ticked now t ∷ ys)
  pool-tick_at now s xs t ys e =
      let found = rw (← e) at (get_elem?-middle xs t ys) in
      rw (tick_at_found now (length xs) s t found)
        (pool-call_back _ t _ ∙ laws.pool-with_pool s _ ∙ rw e (set-middle xs t (ticked now t) ys))

  pool-tick_from :
      (now i : ℕ) (s : S) (xs ys : List Transaction)
      → i ≡ length xs
      → h.pool s ≡ xs ++ ys
      → h.pool (tick_from h now (length ys) i s) ≡ xs ++ map (ticked now) ys
  unfolding tick_from
  pool-tick_from now i s xs [] n e = e
  pool-tick_from now i s xs (t ∷ ys) n e = rw n (
      pool-tick_from now (length xs + 1) (tick_at h now (length xs) s) (xs ++ (ticked now t ∷ []))
        ys (omega (arith, length-append xs (ticked now t ∷ [])))
        (pool-tick_at now s xs t ys e ∙ sym (append_assoc xs (ticked now t ∷ []) ys))
      ∙ append_assoc xs (ticked now t ∷ []) (map (ticked now) ys))

  -- A tick advances every slot of a pool of MAX_TRANSACTIONS slots once, if the callbacks of its
  -- owner leave the pool alone, whatever else they do.
  pub pool-tick :
      (now : ℕ) (s : S)
      → length (h.pool s) ≡ max_transactions
      → h.pool (tick h now s) ≡ map (ticked now) (h.pool s)
  unfolding tick
  pool-tick now s n = rw (← n) (pool-tick_from now 0 s [] (h.pool s) refl refl)

-- What one round keeps, callback included, a tick keeps.
module _ {S : Type 0} (h : Host S) (P : S → Type 0) (now : ℕ) where
  tick_from_inv :
      (left i : ℕ) (s : S)
      → ((i : ℕ) (s : S) → P s → P (tick_at h now i s))
      → P s
      → P (tick_from h now left i s)
  unfolding tick_from
  tick_from_inv zero i s keep p = p
  tick_from_inv (suc left) i s keep p =
      tick_from_inv left (i + 1) (tick_at h now i s) keep (keep i s p)

  pub tick_inv : (s : S) → ((i : ℕ) (s : S) → P s → P (tick_at h now i s)) → P s → P (tick h now s)
  unfolding tick
  tick_inv s keep p = tick_from_inv max_transactions 0 s keep p
