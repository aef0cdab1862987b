-- ===== src/Server/Discovery/Bounds.antt =====
-- About the room in the buffer that `buildLinkFormat` fills (src/PulseCoAPServer.cpp).
use pulse_co_ap.Common.{
  ℕ, ◌+◌, ◌<◌, Bool, true, false, not, ◌&&◌, Option, none, some, List, [], ◌∷◌, ◌++◌, leb,
  if◌then◌else◌, length, arith, same, Bool-cases, inl, inr, length-append, ◌≡◌,
}
use pulse_co_ap.Types.Config.{max_link_format_len}
use pulse_co_ap.Server.{Resource, Server}
use pulse_co_ap.Server.Discovery.{
  chars, well_known_core, append_type, append_obs, append_link, link_loop, build_link_format,
}

append_type_bound :
    (rt : Option (List ℕ)) (out : List ℕ)
    → length out < max_link_format_len
    → length (append_type rt out) < max_link_format_len
unfolding append_type
append_type_bound none out h = h
append_type_bound (some rt) out h =
    ground (
      arith,
      length-append out (chars ";rt=\"" ++ (rt ++ chars "\"")),
      length-append rt (chars "\""),
    )

append_obs_bound :
    (obs : Bool) (out : List ℕ)
    → length out < max_link_format_len
    → length (append_obs obs out) < max_link_format_len
unfolding append_obs
append_obs_bound false out h = h
append_obs_bound true out h = ground (arith, length-append out (chars ";obs"))

-- A text that was made is shorter than the buffer.
abbrev FitsText : Option (List ℕ) → Type 0
FitsText none = Unit
FitsText (some text) = length text < max_link_format_len

append_link_bound : (r : Resource) (out : List ℕ) → FitsText (append_link r out)
unfolding append_link
append_link_bound r out =
    elim (Bool-cases (leb max_link_format_len (length out + length r.path + 2))) [
      | inl long ↦ rw long tt
      | inr short ↦ rw short (
          append_obs_bound r.observable _ (
            append_type_bound r.resource_type _ (
              ground (
                arith,
                short,
                length-append out (b'<' ∷ (r.path ++ (b'>' ∷ []))),
                length-append r.path (b'>' ∷ []),
              ))))
    ]

after_comma_bound :
    (first : Bool) (out : List ℕ)
    → length out < max_link_format_len
    → (not first && leb max_link_format_len (length out + 1)) ≡ false
    → length (if first then out else out ++ (b',' ∷ [])) < max_link_format_len
after_comma_bound true out h room = h
after_comma_bound false out h room = ground (arith, length-append out (b',' ∷ []))

link_end :
    (out : List ℕ) (text : Option (List ℕ)) (more : List ℕ → List ℕ)
    → length out < max_link_format_len
    → FitsText text
    → ((out' : List ℕ)
        → length out' < max_link_format_len
        → length (more out') < max_link_format_len)
    → length (elim text [ none ↦ out | some out' ↦ more out' ]) < max_link_format_len
link_end out none more h f ih = h
link_end out (some text) more h f ih = ih text f

link_loop_bound :
    (first : Bool) (out : List ℕ) (rs : List Resource)
    → length out < max_link_format_len
    → length (link_loop first out rs) < max_link_format_len
unfolding link_loop
link_loop_bound first out [] h = h
link_loop_bound first out (r ∷ rs) h = elim (Bool-cases (same r.path well_known_core)) [
  | inl itself ↦ rw itself (link_loop_bound first out rs h)
  | inr other ↦ elim (Bool-cases (not first && leb max_link_format_len (length out + 1))) [
    | inl full ↦ rw (other, full) h
    | inr room ↦
        rw (other, room)
          (link_end _ (append_link r _) (λ out'. link_loop false out' rs)
            (after_comma_bound first out h room) (append_link_bound r _)
            (λ out' k. link_loop_bound false out' rs k))
  ]
]

-- `buildLinkFormat` never writes beyond its buffer, NUL included.
pub build_link_format_bound :
    (s : Server) → length (build_link_format s).link_format < max_link_format_len
unfolding build_link_format
build_link_format_bound s = link_loop_bound true [] s.resources (omega arith)
