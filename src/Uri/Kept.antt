-- ===== src/Uri/Kept.antt =====
-- About what `addUriPathOptions` leaves of a message (src/PulseCoAPUri.h).
use pulse_co_ap.Common.{ℕ, ◌≡◌, refl, ◌∙◌, Bool, some, List, [], ◌∷◌, arith, if_both}
use pulse_co_ap.Types.OptionNumber
use pulse_co_ap.Message.{Message, add_option}
use pulse_co_ap.Message.Build.{IsBuilt, add_option-IsBuilt}
use pulse_co_ap.Message.Content.Kept.{SameHeader, SameHeader-trans}
use pulse_co_ap.Uri.{add_segment, add_uri_path_options}
use pulse_co_ap.Uri.Segments.{add_all, segments, add_uri_path_options-segments}

-- The message stays well formed, with its header and its payload.
abbrev pub Keeps : Message → Message → Type 0
Keeps m m' = IsBuilt m' × SameHeader m' m × (m'.payload ≡ m.payload)

add_segment-Keeps : (seg : List ℕ) (m : Message) → IsBuilt m → Keeps m (add_segment seg seg m).0
unfolding add_segment add_option
add_segment-Keeps seg m b = (
  add_option-IsBuilt OptionNumber.uri_path _ (some seg) m (omega arith) (omega arith) (omega arith)
      b,
  ground arith,
  ground arith,
)

add_all-Keeps : (segs : List (List ℕ)) (m : Message) → IsBuilt m → Keeps m (add_all segs m).0
unfolding add_all
add_all-Keeps [] m b =
    (b, record { type = refl; code = refl; message_id = refl; token = refl }, refl)
add_all-Keeps (seg ∷ segs) m b =
    let first = add_segment-Keeps seg m b in
    let later = add_all-Keeps segs (add_segment seg seg m).0 first.0 in
    if_both (λ (r : Message × Bool). Keeps m r.0) (add_segment seg seg m).1
      (later.0, SameHeader-trans _ _ _ later.1 first.1, later.2 ∙ first.2) first

pub add_uri_path_options-Keeps :
    (path : List ℕ) (m : Message) → IsBuilt m → Keeps m (add_uri_path_options (some path) m).0
add_uri_path_options-Keeps path m b =
    rw (add_uri_path_options-segments path m) (add_all-Keeps (segments path) m b)
