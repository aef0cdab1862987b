-- ===== src/Server/Resources/Search.antt =====
-- About `findResource` and its two phases (src/PulseCoAPServer.cpp).
use pulse_co_ap.Common.{
  ℕ, ◌+◌, ◌≡◌, refl, ap, ◌∙◌, Bool, true, false, not, ◌&&◌, Option, none, some, List, [], ◌∷◌, ◌++◌,
  length, arith, same,
}
use pulse_co_ap.Server.{Resource, Server}
use pulse_co_ap.Server.Resources.{
  Captures, no_captures, match_template, find_exact, find_template, find_resource,
}

-- The test of the first phase.
abbrev pub is_exact : List ℕ → Resource → Bool
is_exact path r = not r.is_template && same r.path path

-- The test of the second phase.
abbrev pub is_match : List ℕ → Resource → Bool
is_match path r =
    r.is_template && (elim (match_template r.path path) [ some c ↦ true | none ↦ false ])

-- No resource of the list passes the test.
unfoldable pub none_passes : (Resource → Bool) → List Resource → Bool
none_passes test [] = true
none_passes test (r ∷ rs) = not (test r) && none_passes test rs

find_exact-none :
    (path : List ℕ) (i : ℕ) (rs : List Resource)
    → none_passes (is_exact path) rs ≡ true
    → find_exact path i rs ≡ none
unfolding find_exact none_passes
find_exact-none path i [] h = refl
find_exact-none path i (r ∷ rs) h = ground (arith, find_exact-none path (i + 1) rs)

find_exact_first :
    (path : List ℕ) (i : ℕ) (xs : List Resource) (r : Resource) (ys : List Resource)
    → none_passes (is_exact path) xs ≡ true
    → is_exact path r ≡ true
    → find_exact path i (xs ++ (r ∷ ys)) ≡ some (i + length xs, no_captures)
unfolding find_exact none_passes
find_exact_first path i [] r ys h e = rw e (ap (λ (n : ℕ). some (n, no_captures)) (omega arith))
find_exact_first path i (x ∷ xs) r ys h e = ground (arith, find_exact_first path (i + 1) xs r ys)

find_template_first :
    (path : List ℕ) (i : ℕ) (xs : List Resource) (r : Resource) (ys : List Resource) (c : Captures)
    → none_passes (is_match path) xs ≡ true
    → r.is_template ≡ true
    → match_template r.path path ≡ some c
    → find_template path i (xs ++ (r ∷ ys)) ≡ some (i + length xs, c)
unfolding find_template none_passes
find_template_first path i [] r ys c h a e = rw (a, e) (ap (λ (n : ℕ). some (n, c)) (omega arith))
find_template_first path i (x ∷ xs) r ys c h a e =
    ground (arith, find_template_first path (i + 1) xs r ys c)

abbrev found_at : ℕ → Captures → Option (ℕ × Captures)
found_at i c = some (i, c)

from_zero : (n : ℕ) (c : Captures) → found_at (0 + n) c ≡ found_at n c
from_zero n c = ap (λ k. found_at k c) (omega arith)

module _ (path : List ℕ) (s : Server) (xs : List Resource) (r : Resource) (ys : List Resource) where
  -- `findResource` finds the first resource that is no template and has the path, whatever
  -- templates stand before it, and captures nothing.
  pub find_resource_exact :
      s.resources ≡ xs ++ (r ∷ ys)
      → none_passes (is_exact path) xs ≡ true
      → is_exact path r ≡ true
      → find_resource path s ≡ some (length xs, no_captures)
  unfolding find_resource
  find_resource_exact e h a = rw (
    find_resource,
    ap (find_exact path 0) e
        ∙ find_exact_first path 0 xs r ys h a
        ∙ from_zero (length xs) no_captures,
  )

  -- Where no resource has the very path, `findResource` finds the first template that matches it,
  -- with what the template captures.
  find_resource_template :
      (c : Captures)
      → s.resources ≡ xs ++ (r ∷ ys)
      → none_passes (is_exact path) s.resources ≡ true
      → none_passes (is_match path) xs ≡ true
      → r.is_template ≡ true
      → match_template r.path path ≡ some c
      → find_resource path s ≡ some (length xs, c)
  unfolding find_resource
  find_resource_template c e h n a m =
      rw (find_resource, find_exact-none path 0 s.resources h)
        (ap (find_template path 0) e
          ∙ find_template_first path 0 xs r ys c n a m
          ∙ from_zero (length xs) c)
