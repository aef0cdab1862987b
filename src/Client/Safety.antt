-- ===== src/Client/Safety.antt =====
-- The bounds of the arrays of a client (src/PulseCoAPClient.h).
pub mod Arrays
pub mod Indices
pub mod Sending
pub mod Polling
use pulse_co_ap.Common.{ℕ, ◌≤◌, ◌<◌, ◌≡◌, List, length, All}
use pulse_co_ap.Common.Bits.{IsByte, IsU16}
use pulse_co_ap.Types.Config.{
  max_token_len, max_msg_size, max_transactions, max_uri_path_len, block2_max_body, max_discovers,
}
use pulse_co_ap.Transaction.Bounds.{IsPool}
use pulse_co_ap.Block.{Block1UploadState, Block2RecvState}
use pulse_co_ap.Client.{PendingRequest, DiscoverSlot, Call, Client, Environment}

-- An array of `n` entries that all satisfy `P`.
abbrev pub IsArray {ℓ κ} : {A : Type ℓ} → ℕ → (A → Type κ) → List A → Type κ
IsArray n P xs = (length xs ≡ n) × All P xs

-- A path fits its array with the NUL, and a token its own.
abbrev pub FitsPending : PendingRequest → Type 0
FitsPending p = (length p.path < max_uri_path_len) × (length p.token ≤ max_token_len)

abbrev pub FitsDiscover : DiscoverSlot → Type 0
FitsDiscover d = length d.token ≤ max_token_len

abbrev pub FitsUpload : Block1UploadState → Type 0
FitsUpload up = length up.path < max_uri_path_len

abbrev pub FitsDownload : Block2RecvState → Type 0
FitsDownload recv = (length recv.path < max_uri_path_len) × (length recv.buffer ≤ block2_max_body)

-- Every array has its size, what is copied into a buffer fits it, and the two counters have the
-- widths of their types.
abbrev pub IsSound : Client → Type 0
IsSound c =
    IsArray max_transactions FitsPending c.pending
    × IsArray max_transactions FitsUpload c.uploads
    × IsArray max_transactions FitsDownload c.downloads
    × IsPool c.transactions
    × IsArray max_discovers FitsDiscover c.discovers
    × IsU16 c.next_message_id
    × IsByte c.next_token_byte

-- The callbacks of the application call nothing but operations of the client.
abbrev pub KeepsSound : Environment → Type 0
KeepsSound env = (what : Call) (c : Client) → IsSound c → IsSound (env.react what c)
