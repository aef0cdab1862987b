-- ===== src/Uri/Segments.antt =====
-- About `addUriPathOptions` and the segments of a path (src/PulseCoAPUri.h).
use pulse_co_ap.Common.{
  append-nil, ◌⊎◌, ℕ, zero, suc, ◌≤◌, ◌≡◌, refl, ap, ◌∙◌, Bool, true, false, some, List, [], ◌∷◌,
  ◌++◌, ◌==◌, if◌then◌else◌, length, take, arith, Bool-cases, inl, inr, append_assoc,
}
use pulse_co_ap.Common.Bits.{u16}
use pulse_co_ap.Message.{Message, add_option}
use pulse_co_ap.Uri.{
  slash, skip_slashes, segment, after_segment, add_segment, add_segments, add_uri_path_options,
}

-- `flush` drops an empty segment.
abbrev pub flush : List ℕ → List (List ℕ) → List (List ℕ)
flush [] segs = segs
flush (c ∷ cs) segs = (c ∷ cs) ∷ segs

unfoldable pub split : List ℕ → List ℕ → List (List ℕ)
split seen [] = flush seen []
split seen (c ∷ cs) = if c == slash then flush seen (split [] cs) else split (seen ++ (c ∷ [])) cs

-- The non-empty segments between the slashes of a path, in one pass.
unfoldable pub segments : List ℕ → List (List ℕ)
unfolding split
segments path = split [] path

-- To add one option for each segment until one is refused.
unfoldable pub add_all : List (List ℕ) → Message → Message × Bool
add_all [] m = (m, true)
add_all (seg ∷ segs) m =
    let rest = add_all segs (add_segment seg seg m).0 in
    if (add_segment seg seg m).1 then rest else ((add_segment seg seg m).0, false)

split-segment :
    (seen path : List ℕ)
    → split seen path ≡ flush (seen ++ segment path) (split [] (after_segment path))
unfolding split segment after_segment
split-segment seen [] = rw (append-nil seen)
split-segment seen (c ∷ cs) = elim (Bool-cases (c == slash)) [
  | inl here ↦ rw (here, append-nil seen, split, here)
  | inr other ↦
      rw (other, split-segment (seen ++ (c ∷ [])) cs, append_assoc seen (c ∷ []) (segment cs))
]

split_skip : (path : List ℕ) → split [] (skip_slashes path) ≡ split [] path
unfolding split skip_slashes
split_skip [] = refl
split_skip (c ∷ cs) = ground (arith, split_skip cs)

take-segment :
    (n : ℕ) (path : List ℕ) → n ≤ length (segment path) → take n path ≡ take n (segment path)
unfolding segment
take-segment zero path h = refl
take-segment (suc n) [] h = refl
take-segment (suc n) (c ∷ cs) h = ground (arith, take-segment n cs)

-- The pointer into the path and the segment itself make the same option.
add_segment_lem :
    (path : List ℕ) (m : Message)
    → add_segment path (segment path) m ≡ add_segment (segment path) (segment path) m
unfolding add_segment add_option
add_segment_lem path m = rw (take-segment (u16 (length (segment path))) path (omega arith))

after_segment-le : (path : List ℕ) → length (after_segment path) ≤ length path
unfolding after_segment
after_segment-le [] = omega arith
after_segment-le (c ∷ cs) = ground (arith, after_segment-le cs)

skip_slashes-le : (path : List ℕ) → length (skip_slashes path) ≤ length path
unfolding skip_slashes
skip_slashes-le [] = omega arith
skip_slashes-le (c ∷ cs) = ground (arith, skip_slashes-le cs)

-- Behind the slashes stands a character of a segment, or nothing.
skip_slashes_head :
    (path : List ℕ)
    → (skip_slashes path ≡ [])
      ⊎ ((d : ℕ) × (ds : List ℕ) × (skip_slashes path ≡ d ∷ ds) × ((d == slash) ≡ false))
unfolding skip_slashes
skip_slashes_head [] = inl refl
skip_slashes_head (c ∷ cs) = elim (Bool-cases (c == slash)) [
  | inl here ↦ rw here (skip_slashes_head cs)
  | inr other ↦ rw other (inr (c, cs, refl, other))
]

split_char :
    (d : ℕ) (ds : List ℕ)
    → (d == slash) ≡ false
    → split [] (d ∷ ds) ≡ segment (d ∷ ds) ∷ split [] (after_segment (d ∷ ds))
split_char d ds h = split-segment [] (d ∷ ds) ∙ unfold segment in rw h

pub after_segment_char :
    (d : ℕ) (ds : List ℕ) → (d == slash) ≡ false → length (after_segment (d ∷ ds)) ≤ length ds
unfolding after_segment
after_segment_char d ds h = rw h (after_segment-le ds)

add_segments_lem :
    (fuel : ℕ) (path : List ℕ) (m : Message)
    → length path ≤ fuel
    → add_segments fuel path m ≡ add_all (split [] path) m
unfolding add_segments
add_segments_lem zero [] m h = unfold split add_all in refl
add_segments_lem (suc fuel) [] m h = unfold split add_all in refl
add_segments_lem zero (c ∷ cs) m h = absurd (omega arith)
add_segments_lem (suc fuel) (c ∷ cs) m h = elim (skip_slashes_head (c ∷ cs)) [
  | inl none_left ↦
      rw (← split_skip (c ∷ cs), none_left, add_segments) (unfold split add_all in refl)
  | inr (d, ds, e, other) ↦
      let shorter = skip_slashes-le (c ∷ cs) in
      rw
        (
          ← split_skip (c ∷ cs),
          e,
          add_segments,
          split_char d ds other,
          add_segment_lem (d ∷ ds) m,
          add_segments_lem fuel (after_segment (d ∷ ds))
              (add_segment (segment (d ∷ ds)) (segment (d ∷ ds)) m).0
              (omega (arith, after_segment_char d ds other, ap length e)),
        )
        (unfold add_all in refl)
]

-- `addUriPathOptions` adds the non-empty segments of the path, in their order, until one is
-- refused; it reports whether all were added.
pub add_uri_path_options-segments :
    (path : List ℕ) (m : Message) → add_uri_path_options (some path) m ≡ add_all (segments path) m
unfolding add_uri_path_options segments
add_uri_path_options-segments path m = add_segments_lem (length path) path m (omega arith)
