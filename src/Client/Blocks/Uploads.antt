-- ===== src/Client/Blocks/Uploads.antt =====
-- About the blocks that an upload sends, one for each 2.31 Continue (src/PulseCoAPClient.cpp).
use pulse_co_ap.Common.{
  ℕ, zero, suc, ◌+◌, ◌*◌, ◌^◌, ◌≤◌, ◌<◌, ◌≡◌, refl, ap, ◌∙◌, subst, Bool, true, false, not, List,
  [], ◌∷◌, ltb, leb, if◌then◌else◌, length, take, drop, arith, length-drop, take-length, take_over,
  Bool-cases, inl, inr, ltb_false→le, leb→le, leb_false→lt,
}
use pulse_co_ap.Common.Bits.{u32}
use pulse_co_ap.Types.Address.{Endpoint}
use pulse_co_ap.Types.Config.{block1_max_body}
use pulse_co_ap.Block.{size_of_szx, Block1UploadState}
use pulse_co_ap.Block.Options.{blocks_all}
use pulse_co_ap.Client.Blocks.{upload_offset, has_more, upload_block}
use pulse_co_ap.Client.Answers.{advanced}
use pulse_co_ap.Server.Upload.{Progress, opened_session}
use pulse_co_ap.Server.Upload.Assembly.{
  joined, joined-block_list, block_list, take_all, upload-payload,
}

-- The upload after `n` answers of 2.31 Continue.
pub answered : ℕ → Block1UploadState → Block1UploadState
answered zero up = up
answered (suc n) up = answered n (advanced up)

-- The blocks that it sends from then on, up to the first that `sendBlock1` refuses, `fuel` at most.
pub sent_blocks : ℕ → Block1UploadState → List (List ℕ)
sent_blocks zero up = []
sent_blocks (suc fuel) up =
    let rest = sent_blocks fuel (advanced up) in
    if leb (length up.payload) (upload_offset up) then [] else upload_block up ∷ rest

take_clipped {ℓ} :
    {A : Type ℓ} (n : ℕ) (xs : List A)
    → take (if ltb n (length xs) then n else length xs) xs ≡ take n xs
take_clipped n xs = elim (Bool-cases (ltb n (length xs))) [
  | inl short ↦ rw short refl
  | inr over ↦
      rw (over, take-length (length xs) xs refl, take_over n xs (ltb_false→le _ _ over)) refl
]

upload_block_lem :
    (up : Block1UploadState)
    → upload_block up ≡ take (size_of_szx up.szx) (drop (upload_offset up) up.payload)
upload_block_lem up =
    rw (← length-drop (upload_offset up) up.payload)
      (take_clipped (size_of_szx up.szx) (drop (upload_offset up) up.payload))

-- The test with which `sendBlock1` ends an upload.
abbrev pub is_sent : Block1UploadState → Bool
is_sent up = leb (length up.payload) (upload_offset up)

-- A block that is not past the end carries the flag for more exactly when another will follow it.
has_more_lem :
    (up : Block1UploadState)
    → up.next_num + 1 < 2 ^ 32
    → is_sent up ≡ false
    → is_sent (advanced up) ≡ not (has_more up)
has_more_lem up h k =
    let size = size_of_szx up.szx in
    let next : (up.next_num + 1) * size ≡ up.next_num * size + size = omega arith in
    let num : u32 (up.next_num + 1) ≡ up.next_num + 1 = omega arith in
    rw (num, next) (ground (arith, leb_false→lt _ _ k))

-- What an upload has sent when it ends: `blocks` are its blocks, and they reach the end.
abbrev Ends : ℕ → Block1UploadState → List (List ℕ) → Type 0
Ends fuel up blocks =
    (length blocks ≤ fuel)
    × (blocks ≡ block_list (size_of_szx up.szx) up.next_num (length blocks) up.payload)
    × (length up.payload ≤ (up.next_num + length blocks) * size_of_szx up.szx)
    × (is_sent (answered (length blocks) up) ≡ true)

shift : (num n : ℕ) → num + 1 < 2 ^ 32 → u32 (num + 1) + n ≡ num + suc n
shift num n h = omega arith

Ends-next :
    (fuel : ℕ) (up : Block1UploadState) (bs : List (List ℕ))
    → up.next_num + 1 < 2 ^ 32
    → Ends fuel (advanced up) bs
    → Ends (suc fuel) up (upload_block up ∷ bs)
unfolding answered block_list
Ends-next fuel up bs h later =
    let num : u32 (up.next_num + 1) ≡ up.next_num + 1 = omega arith in
    let size = size_of_szx up.szx in
    let rest : bs ≡ block_list size (up.next_num + 1) (length bs) up.payload =
      subst (λ n. bs ≡ block_list size n (length bs) up.payload) num later.1 in
    (
      omega (arith, later.0),
      rw (upload_block_lem up) (ap (◌∷◌ (take size (drop (upload_offset up) up.payload))) rest),
      subst (λ n. length up.payload ≤ n * size) (shift up.next_num (length bs) h) later.2,
      later.3,
    )

ends :
    (fuel : ℕ) (up : Block1UploadState)
    → length up.payload ≤ (up.next_num + fuel) * size_of_szx up.szx
    → up.next_num + fuel < 2 ^ 32
    → Ends fuel up (sent_blocks fuel up)
unfolding sent_blocks answered block_list
ends zero up h k = (omega arith, refl, omega arith, ground arith)
ends (suc fuel) up h k = elim (Bool-cases (is_sent up)) [
  | inl done ↦ rw done (omega arith, refl, omega (arith, leb→le _ _ done), done)
  | inr left ↦
      let later =
        ends fuel (advanced up) (rw (shift up.next_num fuel (omega arith)) h)
          (omega (arith, shift up.next_num fuel (omega arith))) in
      rw left (Ends-next fuel up (sent_blocks fuel (advanced up)) (omega arith) later)
]

block_size_positive : (szx : ℕ) → szx ≤ 6 → 1 ≤ size_of_szx szx
block_size_positive zero h = omega arith
block_size_positive (suc zero) h = omega arith
block_size_positive (suc (suc zero)) h = omega arith
block_size_positive (suc (suc (suc zero))) h = omega arith
block_size_positive (suc (suc (suc (suc zero)))) h = omega arith
block_size_positive (suc (suc (suc (suc (suc zero))))) h = omega arith
block_size_positive (suc (suc (suc (suc (suc (suc zero)))))) h = omega arith
block_size_positive (suc (suc (suc (suc (suc (suc (suc szx))))))) h = absurd (omega arith)

reaches : (size n : ℕ) → 1 ≤ size → n ≤ n * size
reaches size n h = grind arith

ends_whole :
    (up : Block1UploadState)
    → up.next_num ≡ 0
    → up.szx ≤ 6
    → length up.payload < 2 ^ 32
    → let bs = sent_blocks (length up.payload) up in
      (length bs ≤ length up.payload)
      × (bs ≡ block_list (size_of_szx up.szx) 0 (length bs) up.payload)
      × (length up.payload ≤ length bs * size_of_szx up.szx)
      × (is_sent (answered (length bs) up) ≡ true)
ends_whole up start szx short =
    let len = length up.payload in
    let size = size_of_szx up.szx in
    let plus : len ≡ up.next_num + len = omega arith in
    let fuel : len ≤ (up.next_num + len) * size =
      subst (λ k. len ≤ k * size) plus (reaches size len (block_size_positive up.szx szx)) in
    let w = ends len up fuel (omega arith) in
    let bs = sent_blocks len up in
    let from_zero : up.next_num + length bs ≡ length bs = omega arith in
    (
      w.0,
      subst (λ k. bs ≡ block_list size k (length bs) up.payload) start w.1,
      subst (λ k. len ≤ k * size) from_zero w.2,
      w.3,
    )

-- An upload of fewer than 2^32 bytes ends: answered by 2.31 Continue each time, from block 0 on, it
-- sends at most as many blocks as the payload has bytes and is then refused by the test at the
-- start of `sendBlock1`; the blocks in turn make up the payload.
pub upload_ends :
    (up : Block1UploadState)
    → up.next_num ≡ 0
    → up.szx ≤ 6
    → length up.payload < 2 ^ 32
    → let bs = sent_blocks (length up.payload) up in
      (length bs ≤ length up.payload)
      × (is_sent (answered (length bs) up) ≡ true)
      × (joined bs ≡ up.payload)
upload_ends up start szx short =
    let w = ends_whole up start szx short in
    let n = length (sent_blocks (length up.payload) up) in
    (
      w.0,
      w.3,
      ap joined w.1
          ∙ joined-block_list (size_of_szx up.szx) 0 n up.payload
          ∙ blocks_all (size_of_szx up.szx) n up.payload w.2,
    )

-- The blocks of an upload of fewer than 2^32 bytes, from block 0 on, taken by a fresh Block1
-- session of a server, are assembled to exactly the payload if it fits the buffer of the session;
-- if not, the server ends in "too large".
pub take_all-sent_blocks :
    (remote : Endpoint) (token : List ℕ) (up : Block1UploadState)
    → up.next_num ≡ 0
    → up.szx ≤ 6
    → length up.payload < 2 ^ 32
    → let bs = sent_blocks (length up.payload) up in
      take_all 0 bs (opened_session remote token) ≡ (
        if leb (length up.payload) block1_max_body
        then Progress.assembled (record {
          active = true;
          remote = remote;
          token = token;
          next_expected_num = length bs;
          buffer = up.payload;
        })
        else Progress.too_large)
take_all-sent_blocks remote token up start szx short =
    let w = ends_whole up start szx short in
    let n = length (sent_blocks (length up.payload) up) in
    let size = size_of_szx up.szx in
    ap (λ bs. take_all 0 bs (opened_session remote token)) w.1
    ∙ upload-payload remote token up.payload size n w.2 (omega (arith, w.0))
