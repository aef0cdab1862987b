-- ===== src/Client/Blocks/Meaning.antt =====
-- About the message of an upload's block (src/PulseCoAPClient.cpp).
use pulse_co_ap.Common.{
  ℕ, suc, ◌+◌, ◌^◌, ◌≤◌, ◌<◌, ◌≡◌, refl, ap, ◌∙◌, subst, Bool, true, false, some, List, [], ◌∷◌,
  ◌++◌, ◌==◌, if◌then◌else◌, length, drop, All, arith, append_assoc, length-append, ◌>>=◌,
  length-drop,
}
use pulse_co_ap.Common.Bits.{IsByte, IsU16}
use pulse_co_ap.Types.Config.{max_options, max_uri_path_len}
use pulse_co_ap.Types.Codes.{MessageType}
use pulse_co_ap.Types.OptionNumber
use pulse_co_ap.Message.{
  CoapOption, Message, addressed, set_token, add_option_uint, set_payload, find_in, find_option,
}
use pulse_co_ap.Message.Numbers.{uint_option}
use pulse_co_ap.Message.Build.{
  IsBuilt, add_option_uint_lem, add_option_uint-IsBuilt, set_payload_part-IsBuilt,
}
use pulse_co_ap.Message.Content.Kept.{SameHeader}
use pulse_co_ap.Uri.{slash, add_uri_path_options, join_uri_path}
use pulse_co_ap.Uri.RoundTrip.{
  IsSegment, render, uri_option, with_path, with_path-options, add_uri_path_options-render,
  join_uri_path_around,
}
use pulse_co_ap.Uri.Kept.{Keeps, add_uri_path_options-Keeps}
use pulse_co_ap.Block.{size_of_szx, from_option, to_option_value, Block1UploadState}
use pulse_co_ap.Block.Options.{from_option-to_option_value}
use pulse_co_ap.Client.Blocks.{
  upload_offset, has_more, block_len, upload_block, block1_head, block1_body, block1_message,
}
use pulse_co_ap.Client.Requests.Meaning.{IsHeaded, addressed-IsHeaded, IsHeaded-SameHeader}
use mathlib.Core.List.{map}

abbrev with_option : ℕ → ℕ → Message → Message
with_option number v m = record m {
  options = m.options ++ (uint_option number v ∷ []);
  last_option_number = number;
}

-- With room and in order an option is added behind the others.
add_option_uint_accepts :
    (number v : ℕ) (m : Message)
    → IsU16 number
    → IsBuilt m
    → length m.options < max_options
    → m.last_option_number ≤ number
    → IsBuilt (with_option number v m)
      × (add_option_uint number v m ≡ (with_option number v m, true))
add_option_uint_accepts number v m h b room ord =
    let e : add_option_uint number v m ≡ (with_option number v m, true) =
      ground (arith, add_option_uint_lem number v m b) in
    (subst (λ (r : Message × Bool). IsBuilt r.0) e (add_option_uint-IsBuilt number v m h b), e)

find_in-map :
    (number : ℕ) (segs : List (List ℕ)) (os : List CoapOption)
    → (OptionNumber.uri_path == number) ≡ false
    → find_in number (map uri_option segs ++ os) ≡ find_in number os
unfolding find_in
find_in-map number [] os h = refl
find_in-map number (seg ∷ segs) os h = rw h (find_in-map number segs os h)

length-map_uri : (segs : List (List ℕ)) → length (map uri_option segs) ≡ length segs
length-map_uri [] = refl
length-map_uri (seg ∷ segs) = ap suc (length-map_uri segs)

-- The options behind the path.
abbrev block1_options : Block1UploadState → List CoapOption
block1_options up =
    uint_option OptionNumber.content_format up.content_format
    ∷ uint_option OptionNumber.block1 (to_option_value up.next_num (has_more up) up.szx)
    ∷ []

with_path_last :
    (segs : List (List ℕ)) (m : Message)
    → m.last_option_number ≤ OptionNumber.uri_path
    → (with_path segs m).last_option_number ≤ OptionNumber.uri_path
with_path_last [] m h = h
with_path_last (seg ∷ segs) m h = omega arith

block_len_bounds :
    (up : Block1UploadState)
    → upload_offset up < length up.payload
    → 1 ≤ size_of_szx up.szx
    → (0 < block_len up) × (block_len up ≤ length (drop (upload_offset up) up.payload))
block_len_bounds up h k = ground (arith, length-drop (upload_offset up) up.payload)

-- The message of a block: its options behind the path, and its payload.
abbrev block1_result : Block1UploadState → Message → Message
block1_result up m = set_payload (some (drop (upload_offset up) up.payload)) (block_len up) (
    with_option OptionNumber.block1 (to_option_value up.next_num (has_more up) up.szx)
      (with_option OptionNumber.content_format up.content_format m))

block1_body_lem :
    (up : Block1UploadState) (m : Message)
    → IsBuilt m
    → length m.options + 2 ≤ max_options
    → m.last_option_number ≤ OptionNumber.uri_path
    → upload_offset up < length up.payload
    → 1 ≤ size_of_szx up.szx
    → IsBuilt (block1_result up m) × (block1_body up m ≡ block1_result up m)
unfolding block1_body
block1_body_lem up m b room ord left size =
    let format = uint_option OptionNumber.content_format up.content_format in
    let (b1, e1) =
      add_option_uint_accepts OptionNumber.content_format up.content_format m (omega arith) b
        (omega arith) (omega arith) in
    let (b2, e2) =
      add_option_uint_accepts OptionNumber.block1 (to_option_value up.next_num (has_more up) up.szx)
        (with_option OptionNumber.content_format up.content_format m) (omega arith) b1
        (omega (arith, length-append m.options (format ∷ []))) (omega arith) in
    let (some_len, within) = block_len_bounds up left size in
    (
      set_payload_part-IsBuilt (drop (upload_offset up) up.payload) (block_len up) _ some_len within
          b2,
      rw (e1, e2) refl,
    )

-- What a server reads of the message of a block.
abbrev pub IsBlock : Block1UploadState → ℕ → List (List ℕ) → Message → Type 0
IsBlock up id segs m =
    IsHeaded MessageType.confirmable id (up.token ∷ []) up.method m
    × (m.payload ≡ some (upload_block up))
    × ((find_option OptionNumber.block1 m >>= from_option)
        ≡ some (record { num = up.next_num; m = has_more up; szx = up.szx }))
    × (join_uri_path max_uri_path_len m
        ≡ some (if length segs == 0 then slash ∷ [] else render segs))

result-IsBlock :
    (up : Block1UploadState) (id : ℕ) (segs : List (List ℕ)) (start m : Message)
    → IsHeaded MessageType.confirmable id (up.token ∷ []) up.method start
    → SameHeader m start
    → m.options ≡ map uri_option segs
    → IsBuilt (block1_result up m)
    → length (render segs) < max_uri_path_len
    → up.next_num < 2 ^ 20
    → up.szx < 8
    → IsBlock up id segs (block1_result up m)
unfolding set_payload find_option
result-IsBlock up id segs start m h same e b short num szx =
    let opts : (block1_result up m).options ≡ map uri_option segs ++ block1_options up =
      append_assoc m.options _ _ ∙ ap (λ os. os ++ block1_options up) e in
    (
      IsHeaded-SameHeader start (block1_result up m) h b record {
        type = same.type;
        code = same.code;
        message_id = same.message_id;
        token = same.token;
      },
      refl,
      rw (opts, find_in-map OptionNumber.block1 segs (block1_options up) refl)
          (unfold find_in in
            from_option-to_option_value OptionNumber.block1 up.next_num (has_more up) up.szx num
              szx),
      join_uri_path_around max_uri_path_len segs [] (block1_options up) _ opts tt (refl, (refl, tt))
          short (omega arith),
    )

-- The message of a block that is not past the end, for a path of at most 14 segments that fits the
-- client's buffer, is Confirmable and has the upload's method and token; its payload is the block,
-- its Block1 option reads back as the number, the flag for more and the size of the block, and a
-- server joins the path of the upload; the number is below 2^20 and the size exponent below 8.
pub block1_message_lem :
    (up : Block1UploadState) (id : ℕ) (segs : List (List ℕ))
    → up.path ≡ render segs
    → All IsSegment segs
    → length segs + 2 ≤ max_options
    → length (render segs) < max_uri_path_len
    → IsByte up.method
    → IsU16 id
    → upload_offset up < length up.payload
    → up.next_num < 2 ^ 20
    → up.szx < 8
    → 1 ≤ size_of_szx up.szx
    → (m : Message) × (block1_message up id ≡ some m) × IsBlock up id segs m
unfolding block1_message block1_head addressed set_token
block1_message_lem up id segs e w room short method hid left num szx size =
    let start = addressed MessageType.confirmable id (up.token ∷ []) up.method in
    let (h, p) = addressed-IsHeaded MessageType.confirmable id up.token up.method method hid in
    let whole : add_uri_path_options (some up.path) start ≡ (with_path segs start, true) =
      rw e (add_uri_path_options-render segs start w (omega arith) (omega arith) (omega arith)) in
    let kept =
      subst (λ (r : Message × Bool). Keeps start r.0) whole
        (add_uri_path_options-Keeps up.path start h.built) in
    let opts = with_path-options segs start in
    let count : length (with_path segs start).options ≡ length segs =
      ap (length {A = CoapOption}) opts ∙ length-map_uri segs in
    let (b, body) =
      block1_body_lem up (with_path segs start) kept.0 (omega (arith, count))
        (with_path_last segs start (omega arith)) left size in
    (
      block1_result up (with_path segs start),
      rw (whole, body) refl,
      result-IsBlock up id segs start (with_path segs start) h kept.1 opts b short num szx,
    )
