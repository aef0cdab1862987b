-- ===== src/Uri/Checks.antt =====
-- Concrete runs on paths, and the theorems at concrete inputs.
use pulse_co_ap.Common.{ℕ, ◌≡◌, refl, true, some, List, [], ◌∷◌, ◌==◌, if◌then◌else◌, length, arith}
use pulse_co_ap.Message.{blank}
use pulse_co_ap.Uri.{slash, add_uri_path_options, join_uri_path, join_options}
use pulse_co_ap.Uri.Segments.{segments, split}
use pulse_co_ap.Uri.RoundTrip.{render, join_uri_path-add_uri_path_options}

-- "//a/bc/"
abbrev untidy : List ℕ
untidy = slash ∷ slash ∷ 97 ∷ slash ∷ 98 ∷ 99 ∷ slash ∷ []

abbrev a_bc : List (List ℕ)
a_bc = (97 ∷ []) ∷ (98 ∷ 99 ∷ []) ∷ []

segments-untidy : segments untidy ≡ a_bc
unfolding segments split
segments-untidy = refl

join_uri_path_root : join_uri_path 64 blank ≡ some (slash ∷ [])
unfolding join_uri_path join_options
join_uri_path_root = refl

join_uri_path-add_uri_path_options_example :
    let added = add_uri_path_options (some (render a_bc)) blank in
    (added.1 ≡ true)
    × (join_uri_path 64 added.0 ≡ some (if length a_bc == 0 then slash ∷ [] else render a_bc))
join_uri_path-add_uri_path_options_example =
    join_uri_path-add_uri_path_options 64 a_bc blank
      ((omega arith, (refl, tt)), ((omega arith, (refl, (refl, tt))), tt)) tt (omega arith)
      (omega arith) (omega arith) (omega arith) (omega arith)
