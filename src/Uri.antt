-- ===== src/Uri.antt =====
-- src/PulseCoAPUri.h: a path to Uri-Path options and back. A C string is the list of its
-- characters, without the final NUL.
pub mod Segments
pub mod RoundTrip
pub mod Kept
mod Checks
use pulse_co_ap.Common.{
  ℕ, zero, suc, ◌+◌, Bool, true, false, not, Option, none, some, List, [], ◌∷◌, ◌++◌, ltb, leb,
  ◌==◌, if◌then◌else◌, length, take, ◌>>=◌,
}
use pulse_co_ap.Common.Bits.{u16}
use pulse_co_ap.Common.Texts.{chars}
use pulse_co_ap.Types.OptionNumber
use pulse_co_ap.Message.{CoapOption, Message, add_option, bytes_of}

-- The path that RFC 6690 sets for the list of resources.
abbrev pub well_known_core : List ℕ
well_known_core = chars "/.well-known/core"

abbrev pub slash : ℕ
slash = b'/'

-- `while (*start == '/') start++;`
unfoldable pub skip_slashes : List ℕ → List ℕ
skip_slashes [] = []
skip_slashes (c ∷ cs) = if c == slash then skip_slashes cs else c ∷ cs

-- `while (*end && *end != '/') end++;` as the characters passed and those left.
unfoldable pub segment : List ℕ → List ℕ
segment [] = []
segment (c ∷ cs) = if c == slash then [] else c ∷ segment cs

unfoldable pub after_segment : List ℕ → List ℕ
after_segment [] = []
after_segment (c ∷ cs) = if c == slash then c ∷ cs else after_segment cs

-- The call of `addOption` on the characters from `start` on, and the segment that they begin with.
unfoldable pub add_segment : List ℕ → List ℕ → Message → Message × Bool
add_segment from seg m = add_option OptionNumber.uri_path (some from) (u16 (length seg)) m

-- The outer loop; each round passes a character at least.
unfoldable pub add_segments : ℕ → List ℕ → Message → Message × Bool
add_segments fuel [] m = (m, true)
add_segments zero (c ∷ cs) m = (m, false)
add_segments (suc fuel) (c ∷ cs) m = elim (skip_slashes (c ∷ cs)) [
  | [] ↦ (m, true)
  | d ∷ ds ↦
      let start : List ℕ = d ∷ ds in
      let added = add_segment start (segment start) m in
      let rest = add_segments fuel (after_segment start) added.0 in
      if added.1 then rest else (added.0, false)
]

-- `none` is the null path.
unfoldable pub add_uri_path_options : Option (List ℕ) → Message → Message × Bool
add_uri_path_options none m = (m, true)
add_uri_path_options (some path) m = add_segments (length path) path m

-- One round of the loop of `joinUriPath`. The list is `out[0 .. pos)`.
unfoldable pub join_option : ℕ → List ℕ → CoapOption → Option (List ℕ)
join_option size out o =
    if not (o.number == OptionNumber.uri_path)
    then some out
    else if leb size (length out + 1)
    then none
    else if leb size (length out + 1 + o.length)
    then none
    else some (out ++ (slash ∷ take o.length (bytes_of o.value)))

unfoldable pub join_options : ℕ → List ℕ → List CoapOption → Option (List ℕ)
join_options size out [] = some out
join_options size out (o ∷ os) = join_option size out o >>= λ out'. join_options size out' os

unfoldable pub join_uri_path : ℕ → Message → Option (List ℕ)
join_uri_path size m =
    if ltb size 2
    then none
    else join_options size [] m.options >>= λ out.
        some (if length out == 0 then slash ∷ [] else out)
