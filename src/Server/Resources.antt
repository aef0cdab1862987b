-- ===== src/Server/Resources.antt =====
-- Resources, URI templates and the search for a resource (src/PulseCoAPServer.cpp).
pub mod Search
pub mod Templates
use pulse_co_ap.Common.{
  ℕ, zero, suc, ◌+◌, ◌-◌, Bool, true, false, not, ◌&&◌, ◌||◌, Option, none, some, List, [], ◌∷◌,
  ◌++◌, ltb, leb, ◌==◌, if◌then◌else◌, length, take, drop, get_elem?, set, same, ◌>>=◌,
}
use pulse_co_ap.Common.Bits.{u8}
use pulse_co_ap.Types.Config.{max_resources, max_path_params, max_path_param_len}
use pulse_co_ap.Uri.{slash, segment, after_segment}
use pulse_co_ap.Server.{PathParamEntry, Resource, Server}

-- `strstr(path, "/:") != nullptr`.
unfoldable pub has_parameter : List ℕ → Bool
has_parameter [] = false
has_parameter (a ∷ []) = false
has_parameter (a ∷ b ∷ cs) = (a == slash && (b == b':')) || has_parameter (b ∷ cs)

unfoldable pub new_resource : List ℕ → ℕ → ℕ → ℕ → Bool → Resource
new_resource path methods handler context observable = record {
  path = path;
  methods = methods;
  handler = handler;
  user_context = context;
  observable = observable;
  is_template = has_parameter path;
  observe_sequence = 0;
  resource_type = none;
}

unfoldable pub add_resource : Option (List ℕ) → ℕ → ℕ → ℕ → Bool → Server → Server × Bool
add_resource none methods handler context observable s = (s, false)
add_resource (some path) methods handler context observable s =
    if handler == 0
    then (s, false)
    else if leb max_resources (length s.resources)
    then (s, false)
    else (
      record s {
        resources = s.resources ++ (new_resource path methods handler context observable ∷ []);
      },
      true,
    )

-- What a template captures: `params[0 .. min(count, maxParams))`, and `count`.
pub record Captures : Type 0 where
  pub params : List PathParamEntry
  pub count : ℕ

abbrev pub no_captures : Captures
no_captures = record { params = []; count = 0 }

-- A copy into a field of PULSECOAP_MAX_PATH_PARAM_LEN bytes with its NUL.
abbrev pub clip : List ℕ → List ℕ
clip text =
    take
      (if ltb (length text) (max_path_param_len - 1) then length text else max_path_param_len - 1)
      text

-- `outParams[count] = e`, where `params` holds what the array was given so far.
unfoldable pub put_param : ℕ → PathParamEntry → List PathParamEntry → List PathParamEntry
put_param i e [] = e ∷ []
put_param zero e (x ∷ xs) = e ∷ xs
put_param (suc i) e (x ∷ xs) = x ∷ put_param i e xs

unfoldable pub capture : List ℕ → List ℕ → Captures → Captures
capture name value c = record {
  params =
      if ltb c.count max_path_params
      then put_param c.count (record { name = clip name; value = clip value }) c.params
      else c.params;
  count = u8 (c.count + 1);
}

-- The loop of `matchTemplate`, on what is left of the template and of the path. Each round passes a
-- character of the template at least.
unfoldable pub match_loop : ℕ → List ℕ → List ℕ → Captures → Option Captures
match_loop fuel [] [] c = some c
match_loop fuel [] (p ∷ ps) c = none
match_loop zero (t ∷ ts) path c = none
match_loop (suc fuel) (t ∷ ts) [] c = none
match_loop (suc fuel) (t ∷ ts) (p ∷ ps) c =
    let tmpl : List ℕ = t ∷ ts in
    let path : List ℕ = p ∷ ps in
    let past_slash = match_loop fuel ts ps c in
    let past_param =
      match_loop fuel (after_segment tmpl) (after_segment path)
        (capture (drop 1 (segment tmpl)) (segment path) c) in
    let past_literal = match_loop fuel (after_segment tmpl) (after_segment path) c in
    if t == slash
    then (if p == slash then past_slash else none)
    else if t == b':'
    then (if length (segment path) == 0 then none else past_param)
    else (if same (segment tmpl) (segment path) then past_literal else none)

unfoldable pub match_template : List ℕ → List ℕ → Option Captures
match_template tmpl path = match_loop (length tmpl) tmpl path no_captures

-- Phase 1 of `findResource`, from index `i` on.
unfoldable pub find_exact : List ℕ → ℕ → List Resource → Option (ℕ × Captures)
find_exact path i [] = none
find_exact path i (r ∷ rs) =
    if not r.is_template && same r.path path
    then some (i, no_captures)
    else find_exact path (i + 1) rs

-- Phase 2.
unfoldable pub find_template : List ℕ → ℕ → List Resource → Option (ℕ × Captures)
find_template path i [] = none
find_template path i (r ∷ rs) =
    let later = find_template path (i + 1) rs in
    if not r.is_template
    then later
    else elim (match_template r.path path) [ some c ↦ some (i, c) | none ↦ later ]

unfoldable pub find_resource : List ℕ → Server → Option (ℕ × Captures)
find_resource path s = elim (find_exact path 0 s.resources) [
  | some found ↦ some found
  | none ↦ find_template path 0 s.resources
]

-- To change the resource at an index.
unfoldable pub update_resource : ℕ → (Resource → Resource) → List Resource → List Resource
update_resource i f [] = []
update_resource zero f (r ∷ rs) = f r ∷ rs
update_resource (suc i) f (r ∷ rs) = r ∷ update_resource i f rs

unfoldable pub set_resource_type : List ℕ → Option (List ℕ) → Server → Server × Bool
set_resource_type path rt s = elim (find_resource path s) [
  | none ↦ (s, false)
  | some (i, c) ↦ (
    record s { resources = update_resource i (λ r. record r { resource_type = rt }) s.resources },
    true,
  )
]
