-- ===== src/Block.antt =====
-- src/PulseCoAPBlockwise.h: block options, and the state of block-wise transfers (RFC 7959).
pub mod Options
mod Checks
use pulse_co_ap.Common.{
  ℕ, ◌+◌, ◌*◌, ◌/◌, ◌%◌, ◌^◌, Bool, true, false, Option, none, some, List, [], ◌∷◌, ltb, ◌==◌,
  if◌then◌else◌, replicate,
}
use pulse_co_ap.Common.Bits.{u8, u16, u32}
use pulse_co_ap.Types.Config.{block_szx}
use pulse_co_ap.Types.Address.{Endpoint, unspecified}
use pulse_co_ap.Types.Code
use pulse_co_ap.Types.ContentFormat
use pulse_co_ap.Message.{CoapOption, option_as_uint}

pub record BlockOption : Type 0 where
  pub num : ℕ
  pub m : Bool
  pub szx : ℕ

-- `static_cast<uint16_t>(1u << (szx + 4))`.
abbrev pub size_of_szx : ℕ → ℕ
size_of_szx szx = u16 (2 ^ (szx + 4))

abbrev pub block_size : BlockOption → ℕ
block_size b = size_of_szx b.szx

abbrev pub byte_offset : BlockOption → ℕ
byte_offset b = u32 (b.num * block_size b)

unfoldable pub from_option : CoapOption → Option BlockOption
from_option o =
    if ltb 3 o.length
    then none
    else let v = option_as_uint o in some (record { num = v / 16; m = v / 8 % 2 == 1; szx = v % 8 })

-- The three fields do not overlap, so `|` is `+`.
unfoldable pub to_option_value : ℕ → Bool → ℕ → ℕ
to_option_value num m szx = u32 (num * 16) + (if m then 8 else 0) + szx % 8

-- A reassembly on the server. `buffer` is its first `assembledLen` bytes.
pub record Block1Session : Type 0 where
  pub active : Bool
  pub remote : Endpoint
  pub token : List ℕ
  pub next_expected_num : ℕ
  pub buffer : List ℕ

abbrev pub idle_session : Block1Session
idle_session = record {
  active = false;
  remote = unspecified;
  token = [];
  next_expected_num = 0;
  buffer = [];
}

-- An upload by the client; `payload` is `fullPayload` with `fullLen`.
pub record Block1UploadState : Type 0 where
  pub active : Bool
  pub payload : List ℕ
  pub next_num : ℕ
  pub szx : ℕ
  pub content_format : ℕ
  pub method : ℕ
  pub server : Endpoint
  pub path : List ℕ
  pub token : ℕ
  pub waiting_for_continue : Bool

abbrev pub idle_upload : Block1UploadState
idle_upload = record {
  active = false;
  payload = [];
  next_num = 0;
  szx = block_szx;
  content_format = ContentFormat.text_plain;
  method = Code.put;
  server = unspecified;
  path = [];
  token = 0;
  waiting_for_continue = false;
}

-- A download by the client. `buffer` is its first `assembledLen` bytes.
pub record Block2RecvState : Type 0 where
  pub active : Bool
  pub next_num : ℕ
  pub szx : ℕ
  pub content_format : ℕ
  pub server : Endpoint
  pub path : List ℕ
  pub buffer : List ℕ

abbrev pub idle_download : Block2RecvState
idle_download = record {
  active = false;
  next_num = 0;
  szx = block_szx;
  content_format = ContentFormat.text_plain;
  server = unspecified;
  path = [];
  buffer = [];
}
