-- ===== src/Transport/LwIp/Ring.antt =====
-- About the ring of received datagrams as a bounded queue (src/PulseCoAPTransportLwIP.h).
use pulse_co_ap.Common.{
  ℕ, zero, suc, ◌+◌, ◌-◌, ◌%◌, ◌^◌, ◌≤◌, ◌<◌, ◌≡◌, ◌≢◌, refl, sym, ap, ◌∙◌, false, Option, none,
  some, List, [], ◌∷◌, ◌++◌, ltb, ◌==◌, if◌then◌else◌, length, set, take, arith, Bool-cases, inl,
  inr, length-set, get_elem?-set, get_elem?-set_other, ltb→lt, ==_iff,
}
use pulse_co_ap.Common.Bits.{u32, IsU32}
use pulse_co_ap.Types.Address.{Endpoint}
use pulse_co_ap.Transport.LwIp.{
  rx_slots, IpAddress, Slot, LwIp, closed, stored, used, recv_callback, slot_or, slot_at, receive,
}

-- `n` entries from index `i` on.
unfoldable pub entries : ℕ → ℕ → List Slot → List Slot
entries zero i slots = []
entries (suc n) i slots = slot_at slots i ∷ entries n (u32 (i + 1)) slots

-- What waits, the oldest first.
abbrev pub queue : LwIp → List Slot
queue t = entries (used t) t.head t.slots

abbrev pub IsRing : LwIp → Type 0
IsRing t = (length t.slots ≡ rx_slots) × IsU32 t.head × IsU32 t.tail × (used t ≤ rx_slots)

slot_at-set_other :
    (slots : List Slot) (i j : ℕ) (s : Slot)
    → length slots ≡ rx_slots
    → i % rx_slots ≢ j % rx_slots
    → slot_at (set slots (j % rx_slots) s) i ≡ slot_at slots i
slot_at-set_other slots i j s h k =
    ap slot_or (get_elem?-set_other slots (i % rx_slots) (j % rx_slots) s k)

slot_at-set_same :
    (slots : List Slot) (j : ℕ) (s : Slot)
    → length slots ≡ rx_slots
    → slot_at (set slots (j % rx_slots) s) j ≡ s
slot_at-set_same slots j s h = ap slot_or (get_elem?-set slots (j % rx_slots) s (omega (arith, h)))

length-entries : (n i : ℕ) (slots : List Slot) → length (entries n i slots) ≡ n
unfolding entries
length-entries zero i slots = refl
length-entries (suc n) i slots = ap suc (length-entries n (u32 (i + 1)) slots)

-- A datagram stored behind `n` others.
entries-set :
    (n i : ℕ) (slots : List Slot) (s : Slot)
    → length slots ≡ rx_slots
    → n < rx_slots
    → IsU32 i
    → entries (suc n) i (set slots (u32 (i + n) % rx_slots) s) ≡ entries n i slots ++ (s ∷ [])
unfolding entries
entries-set zero i slots s h k w =
    let here : u32 (i + 0) ≡ i = omega arith in
    rw here (ap (λ (x : Slot). x ∷ []) (slot_at-set_same slots i s h))
entries-set (suc n) i slots s h k w =
    let later : u32 (i + suc n) ≡ u32 (u32 (i + 1) + n) = omega arith in
    let apart : i % rx_slots ≢ u32 (i + suc n) % rx_slots = λ e. omega arith in
    rw
      (
        slot_at-set_other slots i (u32 (i + suc n)) s h apart,
        later,
        entries-set n (u32 (i + 1)) slots s h (omega arith) (omega arith),
      )
      refl

recv_callback-IsRing :
    (bytes : List ℕ) (address : IpAddress) (port : ℕ) (t : LwIp)
    → IsRing t
    → IsRing (recv_callback bytes address port t)
unfolding recv_callback
recv_callback-IsRing bytes address port t w = elim (Bool-cases (ltb (used t) rx_slots)) [
  | inl room ↦
      rw (recv_callback, room)
        (
          length-set t.slots (t.tail % rx_slots) (stored bytes address port) ∙ w.0,
          w.1,
          omega arith,
          omega (arith, ltb→lt _ _ room, w.1, w.2, w.3),
        )
  | inr full ↦ rw (recv_callback, full) w
]

-- A datagram that arrives goes behind those that wait, unless the ring is full.
queue-recv_callback :
    (bytes : List ℕ) (address : IpAddress) (port : ℕ) (t : LwIp)
    → IsRing t
    → queue (recv_callback bytes address port t) ≡ (
        if ltb (length (queue t)) rx_slots
        then queue t ++ (stored bytes address port ∷ [])
        else queue t)
unfolding recv_callback
queue-recv_callback bytes address port t w =
    let count = length-entries (used t) t.head t.slots in
    elim (Bool-cases (ltb (used t) rx_slots)) [
      | inl room ↦
          let last : t.tail ≡ u32 (t.head + used t) = omega (arith, w.1, w.2) in
          let more : u32 (u32 (t.tail + 1) + 2 ^ 32 - t.head) ≡ suc (used t) =
            omega (arith, w.1, w.2, w.3, ltb→lt _ _ room) in
          let stored_at : List Slot → ℕ → List Slot =
            λ slots j. set slots (j % rx_slots) (stored bytes address port) in
          rw (recv_callback, room, count, room)
            (ap (λ (n : ℕ). entries n t.head (stored_at t.slots t.tail)) more
              ∙ ap (λ (j : ℕ). entries (suc (used t)) t.head (stored_at t.slots j)) last
              ∙ entries-set (used t) t.head t.slots (stored bytes address port) w.0
                  (ltb→lt _ _ room) w.1)
      | inr full ↦ rw (recv_callback, full, count, full) refl
    ]

distinct : (a b : ℕ) → (a == b) ≡ false → a ≢ b
distinct a b h = ground arith

receive-IsRing : (capacity : ℕ) (t : LwIp) → IsRing t → IsRing (receive capacity t).0
unfolding receive
receive-IsRing capacity t w = elim (Bool-cases (t.head == t.tail)) [
  | inl empty ↦ rw (receive, empty) w
  | inr waiting ↦
      rw (receive, waiting)
        (w.0, omega arith, w.2, omega (arith, distinct _ _ waiting, w.1, w.2, w.3))
]

-- The queue without its oldest slot, and what is read of that.
unfoldable pub popped : ℕ → List Slot → List Slot × Option (Endpoint × List ℕ)
popped capacity [] = ([], none)
popped capacity (s ∷ q) = (
  q,
  some (s.from, take (if ltb (length s.bytes) capacity then length s.bytes else capacity) s.bytes),
)

queue-receive :
    (capacity : ℕ) (t : LwIp)
    → IsRing t
    → (queue (receive capacity t).0, (receive capacity t).1) ≡ popped capacity (queue t)
unfolding receive popped entries
queue-receive capacity t w = elim (Bool-cases (t.head == t.tail)) [
  | inl empty ↦
      let nothing : used t ≡ 0 = omega (arith, (==_iff t.head t.tail).0 empty, w.1) in
      rw (receive, empty, nothing) refl
  | inr waiting ↦
      let fewer : used t ≡ suc (u32 (t.tail + 2 ^ 32 - u32 (t.head + 1))) =
        omega (arith, distinct _ _ waiting, w.1, w.2, w.3) in
      rw (receive, waiting) (sym (ap (λ (n : ℕ). popped capacity (entries n t.head t.slots)) fewer))
]

-- What happens to a transport.
pub data Event : Type 0 where
  arrival : List ℕ → IpAddress → ℕ → Event
  fetch : ℕ → Event

-- What the calls of `receive` give, in turn.
pub ring_run : List Event → LwIp → List (Option (Endpoint × List ℕ))
ring_run [] t = []
ring_run (Event.arrival bytes address port ∷ es) t =
    ring_run es (recv_callback bytes address port t)
ring_run (Event.fetch capacity ∷ es) t = (receive capacity t).1 ∷ ring_run es (receive capacity t).0

-- The same of a queue that refuses what arrives while it holds `rx_slots` datagrams.
pub queue_run : List Event → List Slot → List (Option (Endpoint × List ℕ))
queue_run [] q = []
queue_run (Event.arrival bytes address port ∷ es) q =
    queue_run es (if ltb (length q) rx_slots then q ++ (stored bytes address port ∷ []) else q)
queue_run (Event.fetch capacity ∷ es) q = (popped capacity q).1 ∷ queue_run es (popped capacity q).0

ring_run-queue : (es : List Event) (t : LwIp) → IsRing t → ring_run es t ≡ queue_run es (queue t)
unfolding ring_run queue_run
ring_run-queue [] t w = refl
ring_run-queue (Event.arrival bytes address port ∷ es) t w =
    ring_run-queue es (recv_callback bytes address port t)
      (recv_callback-IsRing bytes address port t w)
    ∙ ap (queue_run es) (queue-recv_callback bytes address port t w)
ring_run-queue (Event.fetch capacity ∷ es) t w =
    let popped_now = queue-receive capacity t w in
    ap (λ (rest : List (Option (Endpoint × List ℕ))). (receive capacity t).1 ∷ rest)
      (ring_run-queue es (receive capacity t).0 (receive-IsRing capacity t w))
    ∙ ap (λ (r : List Slot × Option (Endpoint × List ℕ)). r.1 ∷ queue_run es r.0) popped_now

-- Over any sequence of arriving datagrams and calls of `receive`, the ring of a new transport gives
-- the same as a first-in first-out queue that refuses a datagram that arrives while it holds
-- PULSECOAP_LWIP_RX_SLOTS of them, also where the 32-bit indices wrap around.
pub ring_run_lem : (es : List Event) → ring_run es closed ≡ queue_run es []
unfolding entries
ring_run_lem es = ring_run-queue es closed (refl, omega arith, omega arith, omega arith)
