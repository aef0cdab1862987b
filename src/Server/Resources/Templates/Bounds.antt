-- ===== src/Server/Resources/Templates/Bounds.antt =====
-- About the array and the fields that `matchTemplate` writes to (src/PulseCoAPServer.cpp).
use pulse_co_ap.Common.{
  ℕ, zero, suc, ◌-◌, ◌≤◌, ◌<◌, ◌≡◌, sym, ◌∙◌, Bool, true, false, none, some, List, [], ◌∷◌, ltb,
  if◌then◌else◌, length, drop, arith, Bool-cases, inl, inr, subst, All, ltb→lt, length-take,
}
use mathlib.Core.Option.{some-injective}
use pulse_co_ap.Types.Config.{max_path_params, max_path_param_len}
use pulse_co_ap.Server.{PathParamEntry}
use pulse_co_ap.Server.Resources.{Captures, no_captures, clip, put_param, capture, match_template}
use pulse_co_ap.Server.Resources.Templates.{
  pieces, is_parameter, all_match, capture_all, match_template_lem,
}

-- A copied parameter fits into its two fields, each with its NUL.
abbrev pub FitsEntry : PathParamEntry → Type 0
FitsEntry e = (length e.name < max_path_param_len) × (length e.value < max_path_param_len)

-- All copied parameters fit, and there is room for them.
abbrev pub FitCaptures : Captures → Type 0
FitCaptures c = (length c.params ≤ max_path_params) × All FitsEntry c.params

clip-length : (text : List ℕ) → length (clip text) < max_path_param_len
clip-length text =
    ground (arith, length-take (max_path_param_len - 1) text, length-take (length text) text)

put_param-All :
    (i : ℕ) (e : PathParamEntry) (xs : List PathParamEntry)
    → FitsEntry e
    → All FitsEntry xs
    → All FitsEntry (put_param i e xs)
unfolding put_param
put_param-All i e [] f a = (f, tt)
put_param-All zero e (x ∷ xs) f a = (f, a.1)
put_param-All (suc i) e (x ∷ xs) f a = (a.0, put_param-All i e xs f a.1)

length-put_param :
    (i : ℕ) (e : PathParamEntry) (xs : List PathParamEntry) (room : ℕ)
    → i < room
    → length xs ≤ room
    → length (put_param i e xs) ≤ room
unfolding put_param
length-put_param i e [] room h k = omega arith
length-put_param zero e (x ∷ xs) room h k = k
length-put_param (suc i) e (x ∷ xs) zero h k = absurd (omega arith)
length-put_param (suc i) e (x ∷ xs) (suc room) h k =
    omega (arith, length-put_param i e xs room (omega arith) (omega arith))

capture-FitCaptures :
    (name value : List ℕ) (c : Captures) → FitCaptures c → FitCaptures (capture name value c)
unfolding capture
capture-FitCaptures name value c (room, fits) = elim (Bool-cases (ltb c.count max_path_params)) [
  | inl small ↦ rw small (
    length-put_param c.count _ c.params max_path_params (ltb→lt _ _ small) room,
    put_param-All c.count _ c.params (clip-length name, clip-length value) fits,
  )
  | inr full ↦ rw full (room, fits)
]

capture_if-FitCaptures :
    (b : Bool) (t p : List ℕ) (c : Captures)
    → FitCaptures c
    → FitCaptures (if b then capture (drop 1 t) p c else c)
capture_if-FitCaptures true t p c f = capture-FitCaptures (drop 1 t) p c f
capture_if-FitCaptures false t p c f = f

capture_all-FitCaptures :
    (ts ps : List (List ℕ)) (c : Captures) → FitCaptures c → FitCaptures (capture_all ts ps c)
unfolding capture_all
capture_all-FitCaptures [] ps c f = f
capture_all-FitCaptures (t ∷ ts) [] c f = f
capture_all-FitCaptures (t ∷ ts) (p ∷ ps) c f =
    capture_all-FitCaptures ts ps _ (capture_if-FitCaptures (is_parameter t) t p c f)

capture_all-some :
    (b : Bool) (ts ps : List (List ℕ)) (c : Captures)
    → (if b then some (capture_all ts ps no_captures) else none) ≡ some c
    → FitCaptures c
capture_all-some true ts ps c e =
    subst FitCaptures (some-injective _ c e)
      (capture_all-FitCaptures ts ps no_captures (omega arith, tt))
capture_all-some false ts ps c e = cc

-- What `matchTemplate` has copied when it matches stays within the array, and each name and
-- value, with its NUL, within its field.
pub match_template-FitCaptures :
    (tmpl path : List ℕ) (c : Captures) → match_template tmpl path ≡ some c → FitCaptures c
match_template-FitCaptures tmpl path c e =
    capture_all-some (all_match (pieces tmpl) (pieces path)) (pieces tmpl) (pieces path) c
      (sym (match_template_lem tmpl path) ∙ e)
