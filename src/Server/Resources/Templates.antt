-- ===== src/Server/Resources/Templates.antt =====
-- About `matchTemplate` and the pieces of a template and a path (src/PulseCoAPServer.cpp).
pub mod Bounds
use pulse_co_ap.Common.{
  ℕ, zero, suc, ◌+◌, ◌-◌, ◌%◌, ◌≤◌, ◌<◌, ◌≡◌, refl, sym, ap, ◌∙◌, Bool, true, false, not, ◌&&◌,
  ◌||◌, Option, none, some, List, [], ◌∷◌, ◌++◌, ltb, leb, ◌==◌, if◌then◌else◌, length, drop, arith,
  Bool-cases, inl, inr, same, subst, length-append, All, ltb→lt, length-take,
}
use pulse_co_ap.Common.Bits.{u8}
use mathlib.Core.Option.{some-injective}
use pulse_co_ap.Types.Config.{max_path_params, max_path_param_len}
use pulse_co_ap.Uri.{slash, segment, after_segment}
use pulse_co_ap.Uri.Segments.{after_segment_char}
use pulse_co_ap.Server.{PathParamEntry}
use pulse_co_ap.Server.Resources.{
  Captures, no_captures, clip, put_param, capture, match_loop, match_template,
}

abbrev cons_head : ℕ → List (List ℕ) → List (List ℕ)
cons_head c [] = (c ∷ []) ∷ []
cons_head c (p ∷ ps) = (c ∷ p) ∷ ps

-- A text cut at every slash; there is one piece more than there are slashes.
unfoldable pub pieces : List ℕ → List (List ℕ)
pieces [] = [] ∷ []
pieces (c ∷ cs) = if c == slash then [] ∷ pieces cs else cons_head c (pieces cs)

-- A piece that begins with a colon is a parameter.
abbrev pub is_parameter : List ℕ → Bool
is_parameter [] = false
is_parameter (c ∷ cs) = c == b':'

abbrev pub is_empty : List ℕ → Bool
is_empty [] = true
is_empty (c ∷ cs) = false

-- A parameter takes any piece but the empty one; every other piece takes itself.
abbrev pub piece_matches : List ℕ → List ℕ → Bool
piece_matches t p = if is_parameter t then not (is_empty p) else same t p

pub all_match : List (List ℕ) → List (List ℕ) → Bool
all_match [] [] = true
all_match [] (p ∷ ps) = false
all_match (t ∷ ts) [] = false
all_match (t ∷ ts) (p ∷ ps) = piece_matches t p && all_match ts ps

-- The captures of the parameters, from left to right.
pub capture_all : List (List ℕ) → List (List ℕ) → Captures → Captures
capture_all [] ps c = c
capture_all (t ∷ ts) [] c = c
capture_all (t ∷ ts) (p ∷ ps) c =
    capture_all ts ps (if is_parameter t then capture (drop 1 t) p c else c)

abbrev tail_pieces : List ℕ → List (List ℕ)
tail_pieces [] = []
tail_pieces (c ∷ cs) = pieces cs

pieces_split : (t : List ℕ) → pieces t ≡ segment t ∷ tail_pieces (after_segment t)
unfolding pieces segment after_segment
pieces_split [] = refl
pieces_split (c ∷ cs) = elim (Bool-cases (c == slash)) [
  | inl here ↦ rw here
  | inr other ↦ rw (other, pieces_split cs)
]

pieces_after : (t : List ℕ) → pieces (after_segment t) ≡ [] ∷ tail_pieces (after_segment t)
unfolding pieces after_segment
pieces_after [] = refl
pieces_after (c ∷ cs) = elim (Bool-cases (c == slash)) [
  | inl here ↦ rw (here, here)
  | inr other ↦ rw (other, pieces_after cs)
]

-- What the loop is to find.
abbrev found : List ℕ → List ℕ → Captures → Option Captures
found t p c =
    if all_match (pieces t) (pieces p) then some (capture_all (pieces t) (pieces p) c) else none

-- No list of pieces is empty, so lists of which one has run out do not match.
end_of_template : (p : List ℕ) → all_match [] (pieces p) ≡ false
end_of_template p = rw (pieces_split p) (unfold all_match in refl)

end_of_path : (t : List ℕ) → all_match (pieces t) [] ≡ false
end_of_path t = rw (pieces_split t) (unfold all_match in refl)

segment_char : (c : ℕ) (cs : List ℕ) → (c == slash) ≡ false → segment (c ∷ cs) ≡ c ∷ segment cs
unfolding segment
segment_char c cs h = rw h

found_nil_cons : (p : ℕ) (ps : List ℕ) → all_match (pieces []) (pieces (p ∷ ps)) ≡ false
found_nil_cons p ps = elim (Bool-cases (p == slash)) [
  | inl here ↦ unfold pieces all_match same in rw (here, end_of_template ps)
  | inr other ↦
      rw (pieces_split (p ∷ ps), segment_char p ps other) (unfold pieces all_match same in refl)
]

found_cons_nil : (t : ℕ) (ts : List ℕ) → all_match (pieces (t ∷ ts)) (pieces []) ≡ false
found_cons_nil t ts = elim (Bool-cases (t == slash)) [
  | inl here ↦ unfold pieces all_match same in rw (here, end_of_path ts)
  | inr other ↦
      rw (pieces_split (t ∷ ts), segment_char t ts other)
        (unfold pieces all_match same in ground arith)
]

module _ (fuel t : ℕ) (ts : List ℕ) (p : ℕ) (ps : List ℕ) (c : Captures) where
  past_slash :
      (t == slash) ≡ true
      → (p == slash) ≡ true
      → match_loop fuel ts ps c ≡ found ts ps c
      → match_loop (suc fuel) (t ∷ ts) (p ∷ ps) c ≡ found (t ∷ ts) (p ∷ ps) c
  unfolding match_loop pieces all_match capture_all same
  past_slash h k e = rw (h, k) e

  slash_only :
      (t == slash) ≡ true
      → (p == slash) ≡ false
      → match_loop (suc fuel) (t ∷ ts) (p ∷ ps) c ≡ found (t ∷ ts) (p ∷ ps) c
  slash_only h k =
      rw (pieces_split (p ∷ ps), segment_char p ps k)
        (unfold match_loop pieces all_match same in rw (h, k))

abbrev found_pieces : List (List ℕ) → List (List ℕ) → Captures → Option Captures
found_pieces ts ps c = if all_match ts ps then some (capture_all ts ps c) else none

found-after :
    (t p : List ℕ) (c : Captures)
    → found (after_segment t) (after_segment p) c
      ≡ found_pieces (tail_pieces (after_segment t)) (tail_pieces (after_segment p)) c
unfolding all_match capture_all same
found-after t p c = rw (pieces_after t, pieces_after p)

is_empty-length : (s : List ℕ) → (length s == 0) ≡ is_empty s
is_empty-length [] = refl
is_empty-length (c ∷ cs) = ground arith

module _ (fuel t : ℕ) (ts : List ℕ) (p : ℕ) (ps : List ℕ) (c : Captures) where
  past_piece :
      (t == slash) ≡ false
      → ((c' : Captures)
          → match_loop fuel (after_segment (t ∷ ts)) (after_segment (p ∷ ps)) c'
            ≡ found_pieces
                (tail_pieces (after_segment (t ∷ ts)))
                (tail_pieces (after_segment (p ∷ ps)))
                c')
      → match_loop (suc fuel) (t ∷ ts) (p ∷ ps) c ≡ found (t ∷ ts) (p ∷ ps) c
  unfolding match_loop all_match capture_all
  past_piece h ih = elim (Bool-cases (t == b':')) [
    | inl colon ↦
        rw
          (
            pieces_split (t ∷ ts),
            pieces_split (p ∷ ps),
            h,
            colon,
            ih (capture (drop 1 (segment (t ∷ ts))) (segment (p ∷ ps)) c),
            segment_char t ts h,
            all_match,
            capture_all,
            colon,
            is_empty-length (segment (p ∷ ps)),
          )
          (elim (Bool-cases (is_empty (segment (p ∷ ps)))) [
            | inl empty ↦ rw empty
            | inr not_empty ↦ rw not_empty
          ])
    | inr literal ↦
        rw
          (
            pieces_split (t ∷ ts),
            pieces_split (p ∷ ps),
            h,
            literal,
            ih c,
            segment_char t ts h,
            all_match,
            capture_all,
            literal,
          )
          (elim (Bool-cases (same (t ∷ segment ts) (segment (p ∷ ps)))) [
            | inl here ↦ rw here
            | inr other ↦ rw other
          ])
  ]

match_loop-found :
    (fuel : ℕ) (t p : List ℕ) (c : Captures) → length t ≤ fuel → match_loop fuel t p c ≡ found t p c
match_loop-found fuel [] [] c h = unfold match_loop pieces all_match capture_all same in refl
match_loop-found fuel [] (p ∷ ps) c h = rw (found_nil_cons p ps) (unfold match_loop in refl)
match_loop-found zero (t ∷ ts) p c h = absurd (omega arith)
match_loop-found (suc fuel) (t ∷ ts) [] c h = rw (found_cons_nil t ts) (unfold match_loop in refl)
match_loop-found (suc fuel) (t ∷ ts) (p ∷ ps) c h = elim (Bool-cases (t == slash)) [
  | inl here ↦ elim (Bool-cases (p == slash)) [
    | inl also ↦ past_slash fuel t ts p ps c here also (match_loop-found fuel ts ps c (omega arith))
    | inr not_here ↦ slash_only fuel t ts p ps c here not_here
  ]
  | inr other ↦ past_piece fuel t ts p ps c other (λ c'.
      match_loop-found fuel (after_segment (t ∷ ts)) (after_segment (p ∷ ps)) c'
        (omega (arith, after_segment_char t ts other))
      ∙ found-after (t ∷ ts) (p ∷ ps) c')
]

-- `matchTemplate` cuts the template and the path at each slash and compares them piece by piece: it
-- matches just when there are as many pieces in both and each piece of the template matches the one
-- of the path, and it captures what the parameters take, from left to right.
pub match_template_lem :
    (tmpl path : List ℕ)
    → match_template tmpl path ≡ (
        if all_match (pieces tmpl) (pieces path)
        then some (capture_all (pieces tmpl) (pieces path) no_captures)
        else none)
unfolding match_template
match_template_lem tmpl path = match_loop-found (length tmpl) tmpl path no_captures (omega arith)
