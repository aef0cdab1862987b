-- ===== src/Client/Slots.antt =====
-- The slots of pending requests: `allocatePending`, `findPendingByToken` and `nextToken` of
-- src/PulseCoAPClient.cpp.
pub mod Outstanding
pub mod Carriers
use pulse_co_ap.Common.{
  ℕ, ◌+◌, Bool, true, false, ◌&&◌, Option, none, some, List, [], ◌∷◌, if◌then◌else◌, modify, same,
}
use pulse_co_ap.Common.Bits.{u8, u16}
use pulse_co_ap.Client.{PendingRequest, idle_request, Client}

-- The first idle slot, from index `i` on, is reset and taken.
unfoldable pub allocate_pending : ℕ → List PendingRequest → List PendingRequest × Option ℕ
allocate_pending i [] = ([], none)
allocate_pending i (p ∷ ps) =
    let later = allocate_pending (i + 1) ps in
    if p.active
    then (p ∷ later.0, later.1)
    else (record idle_request { active = true } ∷ ps, some i)

-- The test of `findPendingByToken`.
unfoldable pub carries_token : List ℕ → PendingRequest → Bool
carries_token token p = p.active && same p.token token

unfoldable pub find_pending : List ℕ → ℕ → List PendingRequest → Option ℕ
find_pending token i [] = none
find_pending token i (p ∷ ps) =
    if carries_token token p then some i else find_pending token (i + 1) ps

unfoldable pub next_token : Client → ℕ × Client
next_token c = (c.next_token_byte, record c { next_token_byte = u8 (c.next_token_byte + 1) })

-- `nextMessageId_++`.
abbrev pub bump_id : Client → Client
bump_id c = record c { next_message_id = u16 (c.next_message_id + 1) }

-- `pending_[slot].active = false`.
abbrev pub closed : PendingRequest → PendingRequest
closed p = record p { active = false }

unfoldable pub close : ℕ → Client → Client
close slot c = record c { pending = modify slot closed c.pending }

-- `if (!p.observing) p.active = false`.
abbrev pub settled : PendingRequest → PendingRequest
settled p = if p.observing then p else closed p

unfoldable pub settle : ℕ → Client → Client
settle slot c = record c { pending = modify slot settled c.pending }
