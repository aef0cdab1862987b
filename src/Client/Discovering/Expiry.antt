-- ===== src/Client/Discovering/Expiry.antt =====
-- About the life of a discover slot (src/PulseCoAPClient.cpp).
use pulse_co_ap.Common.{
  ℕ, ◌+◌, ◌≡◌, true, Option, none, some, List, [], ◌∷◌, ltb, get_elem?, modify, ◌⊎◌,
}
use pulse_co_ap.Common.Bits.{u32}
use pulse_co_ap.Types.Config.{discover_timeout_ms}
use pulse_co_ap.Message.{Message}
use pulse_co_ap.Client.{DiscoverSlot, Client}
use pulse_co_ap.Client.Discovering.{issued, expire_discovers}
use mathlib.Core.Option

-- What `free_discover` finds is a slot, which can be written.
FreeDiscover : ℕ → List DiscoverSlot → Option ℕ → Type 0
FreeDiscover i ds r =
    (r ≡ none)
    ⊎ ((k : ℕ) × (d : DiscoverSlot) × (r ≡ some (i + k))
        × ((f : DiscoverSlot → DiscoverSlot) → get_elem? (modify k f ds) k ≡ some (f d)))

-- What a successful `discover` leaves in its slot.
abbrev Issued : ℕ → ℕ → ℕ → Client → List DiscoverSlot → Type 0
Issued token handler context c ds =
    (k : ℕ) × (d : DiscoverSlot) × (get_elem? ds k
      ≡ some (issued token handler context c.last_now_ms d))

-- A slot of this token and callback, which the expiry `passed` milliseconds after `start` leaves
-- active if fewer than DISCOVER_TIMEOUT_MS have passed, and frees otherwise.
abbrev pub LivesFrom : ℕ → ℕ → ℕ → ℕ → ℕ → List DiscoverSlot → Type 0
LivesFrom start passed token handler context ds =
    (k : ℕ) × (d : DiscoverSlot) × (get_elem? ds k ≡ some d)
    × (d.active ≡ true)
    × (d.token ≡ token ∷ [])
    × (d.on_discover ≡ handler)
    × (d.user_context ≡ context)
    × (get_elem? (expire_discovers (u32 (start + passed)) ds) k
        ≡ some (record d { active = ltb passed discover_timeout_ms }))
