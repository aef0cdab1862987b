-- ===== src/Uri/RoundTrip.antt =====
-- About the way of a path through the Uri-Path options of a message (src/PulseCoAPUri.h).
use pulse_co_ap.Common.{
  ℕ, ◌+◌, ◌≤◌, ◌<◌, ◌≡◌, refl, sym, ap, ◌∙◌, true, false, some, List, [], ◌∷◌, ◌++◌, ◌==◌,
  if◌then◌else◌, length, take-length, arith, append_assoc, append-nil, length-append, All,
  le→ltb_false, ◌>>=◌, Option-cases, inl, inr,
}
use pulse_co_ap.Types.Config.{max_options}
use pulse_co_ap.Types.OptionNumber
use pulse_co_ap.Message.{CoapOption, Message, add_option, new_option}
use pulse_co_ap.Uri.{
  slash, add_segment, add_uri_path_options, join_option, join_options, join_uri_path,
}
use pulse_co_ap.Uri.Segments.{split, segments, add_all, add_uri_path_options-segments}
use mathlib.Core.List.{map}

-- A segment is not empty and has no slash.
abbrev pub IsSegment : List ℕ → Type 0
IsSegment seg = (0 < length seg) × All (λ c. (c == slash) ≡ false) seg

-- The path of these segments: a slash before each.
abbrev pub render : List (List ℕ) → List ℕ
render [] = []
render (seg ∷ segs) = slash ∷ (seg ++ render segs)

abbrev pub uri_option : List ℕ → CoapOption
uri_option seg = new_option OptionNumber.uri_path (some seg) (length seg)

split-render_loop :
    (seen seg : List ℕ) (rest : List (List ℕ))
    → All (λ c. (c == slash) ≡ false) seg
    → split seen (seg ++ render rest) ≡ split (seen ++ seg) (render rest)
unfolding split
split-render_loop seen [] rest h = rw (append-nil seen)
split-render_loop seen (c ∷ cs) rest h =
    rw (h.0, split-render_loop (seen ++ (c ∷ [])) cs rest h.1, append_assoc seen (c ∷ []) cs)

split-render_flush :
    (c : ℕ) (cs : List ℕ) (segs : List (List ℕ))
    → split (c ∷ cs) (render segs) ≡ (c ∷ cs) ∷ split [] (render segs)
unfolding split
split-render_flush c cs [] = refl
split-render_flush c cs (seg ∷ segs) = refl

split-render_cons :
    (c : ℕ) (cs : List ℕ) (segs : List (List ℕ))
    → All (λ c. (c == slash) ≡ false) (c ∷ cs)
    → split [] (render ((c ∷ cs) ∷ segs)) ≡ (c ∷ cs) ∷ split [] (render segs)
unfolding split
split-render_cons c cs segs h = split-render_loop [] (c ∷ cs) segs h ∙ split-render_flush c cs segs

split-render : (segs : List (List ℕ)) → All IsSegment segs → split [] (render segs) ≡ segs
split-render [] h = unfold split in refl
split-render ([] ∷ segs) h = absurd (omega arith)
split-render ((c ∷ cs) ∷ segs) h =
    split-render_cons c cs segs h.0.1 ∙ ap (◌∷◌ (c ∷ cs)) (split-render segs h.1)

-- The path of some segments has just those segments.
pub segments-render : (segs : List (List ℕ)) → All IsSegment segs → segments (render segs) ≡ segs
unfolding segments
segments-render segs h = split-render segs h

add_segment_accepts :
    (seg : List ℕ) (m : Message)
    → length seg < 65536
    → length m.options < max_options
    → m.last_option_number ≤ OptionNumber.uri_path
    → add_segment seg seg m ≡ (
      record m {
        options = m.options ++ (uri_option seg ∷ []);
        last_option_number = OptionNumber.uri_path;
      },
      true,
    )
unfolding add_segment add_option
add_segment_accepts seg m h room ord = ground arith

abbrev pub with_path : List (List ℕ) → Message → Message
with_path [] m = m
with_path (seg ∷ segs) m = record m {
  options = m.options ++ map uri_option (seg ∷ segs);
  last_option_number = OptionNumber.uri_path;
}

add_all_accepts :
    (segs : List (List ℕ)) (m : Message)
    → length (render segs) < 65536
    → length m.options + length segs ≤ max_options
    → m.last_option_number ≤ OptionNumber.uri_path
    → ((add_all segs m).1 ≡ true) × ((add_all segs m).0.options ≡ m.options ++ map uri_option segs)
unfolding add_all
add_all_accepts [] m h room ord = (refl, sym (append-nil m.options))
add_all_accepts (seg ∷ segs) m h room ord =
    let lens = length-append seg (render segs) in
    let (done, opts) =
      add_all_accepts segs
        (record m {
          options = m.options ++ (uri_option seg ∷ []);
          last_option_number = OptionNumber.uri_path;
        })
        (omega (arith, lens)) (omega (arith, length-append m.options (uri_option seg ∷ [])))
        (omega arith) in
    rw (add_segment_accepts seg m (omega (arith, lens)) (omega arith) ord)
      (done, opts ∙ append_assoc m.options (uri_option seg ∷ []) (map uri_option segs))

pub with_path-options :
    (segs : List (List ℕ)) (m : Message)
    → (with_path segs m).options ≡ m.options ++ map uri_option segs
with_path-options [] m = sym (append-nil m.options)
with_path-options (seg ∷ segs) m = refl

with_path_next :
    (seg : List ℕ) (segs : List (List ℕ)) (m : Message)
    → with_path segs (with_path (seg ∷ []) m) ≡ with_path (seg ∷ segs) m
with_path_next seg [] m = refl
with_path_next seg (s ∷ segs) m = rw (append_assoc m.options (uri_option seg ∷ []) _)

add_all_path :
    (segs : List (List ℕ)) (m : Message)
    → length (render segs) < 65536
    → length m.options + length segs ≤ max_options
    → m.last_option_number ≤ OptionNumber.uri_path
    → add_all segs m ≡ (with_path segs m, true)
unfolding add_all
add_all_path [] m h room ord = refl
add_all_path (seg ∷ segs) m h room ord =
    let lens = length-append seg (render segs) in
    let later =
      add_all_path segs (with_path (seg ∷ []) m) (omega (arith, lens))
        (omega (arith, length-append m.options (uri_option seg ∷ []))) (omega arith) in
    rw (add_segment_accepts seg m (omega (arith, lens)) (omega arith) ord)
      (later ∙ ap (λ m'. (m', true)) (with_path_next seg segs m))

-- The path of some segments that fit the option table is added whole, an option for each.
pub add_uri_path_options-render :
    (segs : List (List ℕ)) (m : Message)
    → All IsSegment segs
    → length (render segs) < 65536
    → length m.options + length segs ≤ max_options
    → m.last_option_number ≤ OptionNumber.uri_path
    → add_uri_path_options (some (render segs)) m ≡ (with_path segs m, true)
add_uri_path_options-render segs m w h room ord =
    add_uri_path_options-segments (render segs) m
    ∙ rw (segments-render segs w) (add_all_path segs m h room ord)

-- No option of the list belongs to a path.
abbrev pub HasNoPath : List CoapOption → Type 0
HasNoPath os = All (λ o. (o.number == OptionNumber.uri_path) ≡ false) os

join_options_skip :
    (size : ℕ) (out : List ℕ) (os xs : List CoapOption)
    → HasNoPath os
    → join_options size out (os ++ xs) ≡ join_options size out xs
unfolding join_options join_option
join_options_skip size out [] xs h = refl
join_options_skip size out (o ∷ os) xs h = rw (h.0, join_options_skip size out os xs h.1)

join_option-uri_option :
    (size : ℕ) (out seg : List ℕ)
    → length out + 1 + length seg < size
    → join_option size out (uri_option seg) ≡ some (out ++ (slash ∷ seg))
unfolding join_option
join_option-uri_option size out [] h = ground arith
join_option-uri_option size out (c ∷ cs) h = ground (arith, take-length (length cs) cs refl)

join_options-path :
    (size : ℕ) (out : List ℕ) (segs : List (List ℕ))
    → length out + length (render segs) < size
    → join_options size out (map uri_option segs) ≡ some (out ++ render segs)
unfolding join_options
join_options-path size out [] h = rw (append-nil out)
join_options-path size out (seg ∷ segs) h =
    let lens = length-append seg (render segs) in
    rw (
      join_option-uri_option size out seg (omega (arith, lens)),
      join_options-path size (out ++ (slash ∷ seg)) segs
          (omega (arith, lens, length-append out (slash ∷ seg))),
      append_assoc out (slash ∷ seg) (render segs),
    )

root :
    (segs : List (List ℕ))
    → some (if length (render segs) == 0 then slash ∷ [] else render segs)
      ≡ some (if length segs == 0 then slash ∷ [] else render segs)
root [] = refl
root (seg ∷ segs) = ground arith

-- A path of segments that fits the buffer, the option table and 16-bit lengths is added whole to a
-- message with no option above Uri-Path and no path yet, and `joinUriPath` gives it back; the path
-- with no segment comes back as "/".
pub join_uri_path-add_uri_path_options :
    (size : ℕ) (segs : List (List ℕ)) (m : Message)
    → All IsSegment segs
    → HasNoPath m.options
    → length m.options + length segs ≤ max_options
    → m.last_option_number ≤ OptionNumber.uri_path
    → length (render segs) < size
    → 2 ≤ size
    → size ≤ 65536
    → let added = add_uri_path_options (some (render segs)) m in
      (added.1 ≡ true)
      × (join_uri_path size added.0 ≡ some (if length segs == 0 then slash ∷ [] else render segs))
unfolding join_uri_path
join_uri_path-add_uri_path_options size segs m w np room ord short two wide =
    let (done, opts) = add_all_accepts segs m (omega arith) room ord in
    rw
      (
        add_uri_path_options-segments (render segs) m,
        segments-render segs w,
        opts,
        le→ltb_false size 2 two,
        join_options_skip size [] m.options (map uri_option segs) np,
        join_options-path size [] segs (omega arith),
      )
      (done, root segs)

join_options-append :
    (size : ℕ) (out : List ℕ) (xs ys : List CoapOption)
    → join_options size out (xs ++ ys)
      ≡ (join_options size out xs >>= λ out'. join_options size out' ys)
unfolding join_options
join_options-append size out [] ys = refl
join_options-append size out (x ∷ xs) ys = elim (Option-cases (join_option size out x)) [
  | inl bad ↦ rw bad refl
  | inr (out', good) ↦ rw good (join_options-append size out' xs ys)
]

join_options_end :
    (size : ℕ) (out : List ℕ) (os : List CoapOption)
    → HasNoPath os
    → join_options size out os ≡ some out
unfolding join_options join_option
join_options_end size out [] h = refl
join_options_end size out (o ∷ os) h = rw h.0 (join_options_end size out os h.1)

-- The path of some segments, with options of no path before and behind them.
pub join_uri_path_around :
    (size : ℕ) (segs : List (List ℕ)) (pre post : List CoapOption) (m : Message)
    → m.options ≡ pre ++ (map uri_option segs ++ post)
    → HasNoPath pre
    → HasNoPath post
    → length (render segs) < size
    → 2 ≤ size
    → join_uri_path size m ≡ some (if length segs == 0 then slash ∷ [] else render segs)
unfolding join_uri_path
join_uri_path_around size segs pre post m e before behind short two =
    let behind_all : join_options size (render segs) post ≡ some (render segs) =
      join_options_end size (render segs) post behind in
    rw
      (
        le→ltb_false size 2 two,
        e,
        join_options_skip size [] pre (map uri_option segs ++ post) before,
        join_options-append size [] (map uri_option segs) post,
        join_options-path size [] segs (omega arith),
        behind_all,
      )
      (root segs)
