-- ===== src/Server/Discovery.antt =====
-- The list of resources at /.well-known/core (RFC 6690), in src/PulseCoAPServer.cpp. The text in
-- the buffer is `linkFormatBuffer_[0 .. pos)`.
pub mod Bounds
use pulse_co_ap.Common.{
  ℕ, zero, suc, ◌+◌, Bool, true, false, not, ◌&&◌, Option, none, some, List, [], ◌∷◌, ◌++◌, ltb,
  leb, if◌then◌else◌, length, same,
}
use pulse_co_ap.Types.Config.{max_link_format_len}
use pulse_co_ap.Types.Code
use pulse_co_ap.Types.ContentFormat
use pulse_co_ap.Server.{Resource, Response, Server}
use pulse_co_ap.Common.Texts.{chars}
use pulse_co_ap.Uri.{well_known_core}

unfoldable pub append_type : Option (List ℕ) → List ℕ → List ℕ
append_type none out = out
append_type (some rt) out =
    if ltb (length out + 6 + length rt) max_link_format_len
    then out ++ (chars ";rt=\"" ++ (rt ++ chars "\""))
    else out

unfoldable pub append_obs : Bool → List ℕ → List ℕ
append_obs false out = out
append_obs true out = if ltb (length out + 4) max_link_format_len then out ++ chars ";obs" else out

-- The text of one resource behind `out`; `none` where the path does not fit.
unfoldable pub append_link : Resource → List ℕ → Option (List ℕ)
append_link r out =
    if leb max_link_format_len (length out + length r.path + 2)
    then none
    else some (
        append_obs r.observable
          (append_type r.resource_type (out ++ (b'<' ∷ (r.path ++ (b'>' ∷ []))))))

-- The loop; `first` is true until a resource has been listed. `break` leaves the text as it is.
unfoldable pub link_loop : Bool → List ℕ → List Resource → List ℕ
link_loop first out [] = out
link_loop first out (r ∷ rs) =
    let skip = link_loop first out rs in
    let after_comma : List ℕ = if first then out else out ++ (b',' ∷ []) in
    let listed : List ℕ = elim (append_link r after_comma) [
      | none ↦ after_comma
      | some out' ↦ link_loop false out' rs
    ] in
    if same r.path well_known_core
    then skip
    else if not first && leb max_link_format_len (length out + 1)
    then out
    else listed

unfoldable pub build_link_format : Server → Server
build_link_format s = record s { link_format = link_loop true [] s.resources }

-- The handler of /.well-known/core; its context is the server itself.
unfoldable pub well_known_core_handler : Server → Response → Server × Response
well_known_core_handler s res =
    let built = build_link_format s in
    (
      built,
      record res {
        code = Code.content;
        content_format = ContentFormat.link_format;
        payload = some built.link_format;
      },
    )
