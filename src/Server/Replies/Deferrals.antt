-- ===== src/Server/Replies/Deferrals.antt =====
-- About `respond` and the slots of deferred requests (src/PulseCoAPServer.cpp).
use pulse_co_ap.Common.{
  ℕ, zero, suc, ◌≡◌, refl, ap, ◌∙◌, Bool, true, false, Option, none, some, List, [], ◌∷◌, get_elem?,
  set,
}
use pulse_co_ap.Types.Config.{max_msg_size}
use pulse_co_ap.Message.Encode.{encode}
use pulse_co_ap.Server.{DeferredRequest, Server}
use pulse_co_ap.Server.Replies.{
  bump_id, separate, send_tracked, release_deferred, respond_to, respond,
}

get_elem?-set {ℓ} :
    {A : Type ℓ} (xs : List A) (i : ℕ) (x y : A)
    → get_elem? xs i ≡ some x
    → get_elem? (set xs i y) i ≡ some y
get_elem?-set [] i x y h = cc
get_elem?-set (z ∷ zs) zero x y h = refl
get_elem?-set (z ∷ zs) (suc i) x y h = get_elem?-set zs i x y h

abbrev pub spent : DeferredRequest → DeferredRequest
spent dr = record dr { active = false }

release_deferred_lem :
    (i : ℕ) (s : Server) (dr : DeferredRequest)
    → get_elem? s.deferred i ≡ some dr
    → release_deferred i s ≡ record s { deferred = set s.deferred i (spent dr) }
unfolding release_deferred
release_deferred_lem i s dr h = rw (release_deferred, h)

deferred-send_tracked :
    (track : Bool) (s : Server) (dr : DeferredRequest) (bytes : List ℕ)
    → (send_tracked track dr.remote s.next_message_id dr.token bytes (bump_id s)).deferred
      ≡ s.deferred
unfolding send_tracked
deferred-send_tracked true s dr bytes = refl
deferred-send_tracked false s dr bytes = refl

sent-send_tracked :
    (track : Bool) (s : Server) (dr : DeferredRequest) (bytes : List ℕ)
    → (send_tracked track dr.remote s.next_message_id dr.token bytes (bump_id s)).sent
      ≡ (dr.remote, bytes) ∷ s.sent
unfolding send_tracked
sent-send_tracked true s dr bytes = refl
sent-send_tracked false s dr bytes = refl

-- What `respond` on a slot leaves: the datagrams sent, the slots, and the answer.
abbrev pub Responded : ℕ → DeferredRequest → Option (List ℕ) → Server → Server × Bool → Type 0
Responded handle dr none s r =
    (r.1 ≡ false)
    × (r.0.sent ≡ s.sent)
    × (r.0.deferred ≡ set s.deferred handle (spent dr))
    × (r.0.tx_pool ≡ s.tx_pool)
Responded handle dr (some bytes) s r =
    (r.1 ≡ true)
    × (r.0.sent ≡ (dr.remote, bytes) ∷ s.sent)
    × (r.0.deferred ≡ set s.deferred handle (spent dr))

module _ (handle code : ℕ) (payload : Option (List ℕ)) (format : ℕ) (s : Server)
    (dr : DeferredRequest) where
  respond_sends :
      (out : Option (List ℕ))
      → get_elem? s.deferred handle ≡ some dr
      → encode max_msg_size (separate dr code payload format s) ≡ out
      → Responded handle dr out s (respond_to handle dr code payload format s)
  unfolding respond_to
  respond_sends none h e =
      rw (respond_to, e, release_deferred_lem handle (bump_id s) dr h) (refl, refl, refl, refl)
  respond_sends (some bytes) h e =
      let tracked =
        send_tracked dr.was_confirmable dr.remote s.next_message_id dr.token bytes (bump_id s) in
      let kept = deferred-send_tracked dr.was_confirmable s dr bytes in
      rw
        (
          respond_to,
          e,
          release_deferred_lem handle tracked dr (ap (λ ds. get_elem? ds handle) kept ∙ h),
        )
        (
          refl,
          sent-send_tracked dr.was_confirmable s dr bytes,
          ap (λ ds. set ds handle (spent dr)) kept,
        )

  pub respond_lem :
      get_elem? s.deferred handle ≡ some dr
      → dr.active ≡ true
      → Responded handle dr
          (encode max_msg_size (separate dr code payload format s))
          s
          (respond handle code payload format s)
  unfolding respond separate respond_to
  respond_lem h a = rw (respond, h, a) (respond_sends _ h refl)

respond_freed :
    (out : Option (List ℕ)) (handle : ℕ) (dr : DeferredRequest) (s : Server) (r : Server × Bool)
    → Responded handle dr out s r
    → r.0.deferred ≡ set s.deferred handle (spent dr)
respond_freed none handle dr s r (a, b, c, d) = c
respond_freed (some bytes) handle dr s r (a, b, c) = c

respond_inactive :
    (handle code : ℕ) (payload : Option (List ℕ)) (format : ℕ) (s : Server) (dr : DeferredRequest)
    → get_elem? s.deferred handle ≡ some dr
    → dr.active ≡ false
    → respond handle code payload format s ≡ (s, false)
unfolding respond
respond_inactive handle code payload format s dr h a = rw (respond, h, a)

-- A handle answers once: after `respond` on an active slot, whatever it returned, a second `respond`
-- with that handle changes nothing and returns false.
pub respond_once :
    (handle code code' : ℕ) (payload payload' : Option (List ℕ)) (format format' : ℕ) (s : Server)
    (dr : DeferredRequest)
    → get_elem? s.deferred handle ≡ some dr
    → dr.active ≡ true
    → respond handle code' payload' format' (respond handle code payload format s).0
      ≡ ((respond handle code payload format s).0, false)
respond_once handle code code' payload payload' format format' s dr h a =
    respond_inactive handle code' payload' format' _ (spent dr)
      (rw
        (respond_freed (encode max_msg_size (separate dr code payload format s)) handle dr s _
          (respond_lem handle code payload format s dr h a))
        (get_elem?-set s.deferred handle dr (spent dr) h))
      refl
