-- ===== src/Server/Upload/Assembly.antt =====
-- About the reassembly of an upload by a Block1 session (src/PulseCoAPServer.cpp).
use pulse_co_ap.Common.{
  ℕ, zero, suc, ◌+◌, ◌*◌, ◌^◌, ◌≤◌, ◌<◌, ◌≡◌, refl, ap, ◌∙◌, true, List, [], ◌∷◌, ◌++◌, ltb, leb,
  if◌then◌else◌, length, take, drop, arith, gt→leb, Bool-cases, inl, inr, append_assoc, append-nil,
  length-append, ltb→lt, ltb_false→le,
}
use pulse_co_ap.Types.Config.{block1_max_body}
use pulse_co_ap.Types.Address.{Endpoint}
use pulse_co_ap.Block.{Block1Session}
use pulse_co_ap.Block.Options.{blocks, blocks_all}
use pulse_co_ap.Server.Upload.{
  Progress, unexpected, too_large, assembled, take_block, opened_session,
}

-- A session given some payloads in turn, as the blocks from number `num` on.
pub take_all : ℕ → List (List ℕ) → Block1Session → Progress
take_all num [] b = Progress.assembled b
take_all num (p ∷ ps) b = elim (take_block num p b) [
  | unexpected ↦ Progress.unexpected
  | too_large ↦ Progress.too_large
  | assembled b' ↦ take_all (num + 1) ps b'
]

pub joined : List (List ℕ) → List ℕ
joined [] = []
joined (p ∷ ps) = p ++ joined ps

taken :
    (num : ℕ) (p : List ℕ) (b : Block1Session)
    → b.next_expected_num ≡ num
    → num + 1 < 2 ^ 32
    → take_block num p b ≡ (
        if ltb block1_max_body (length b.buffer + length p)
        then Progress.too_large
        else Progress.assembled (record b { next_expected_num = num + 1; buffer = b.buffer ++ p }))
unfolding take_block
taken num p b e h = ground arith

-- A session that is given consecutive blocks, the expected one first, has them all behind what it
-- had, as far as the buffer holds them; else it ends in "too large". No other outcome is possible.
pub take_all_lem :
    (num : ℕ) (ps : List (List ℕ)) (b : Block1Session)
    → b.next_expected_num ≡ num
    → num + length ps < 2 ^ 32
    → length b.buffer ≤ block1_max_body
    → take_all num ps b ≡ (
        if leb (length b.buffer + length (joined ps)) block1_max_body
        then Progress.assembled
            (record b { next_expected_num = num + length ps; buffer = b.buffer ++ joined ps })
        else Progress.too_large)
unfolding take_all joined
take_all_lem num [] b e h k = ground (arith, append-nil b.buffer)
take_all_lem num (p ∷ ps) b e h k =
    elim (Bool-cases (ltb block1_max_body (length b.buffer + length p))) [
      | inl big ↦ rw (
        taken num p b e (omega arith),
        take_all,
        big,
        gt→leb (length b.buffer + length (p ++ joined ps)) block1_max_body
            (omega (arith, ltb→lt _ _ big, length-append p (joined ps))),
      )
      | inr small ↦
          rw (taken num p b e (omega arith), take_all, small)
            (take_all_lem (num + 1) ps
                (record b { next_expected_num = num + 1; buffer = b.buffer ++ p }) refl
                (omega arith) (omega (arith, length-append b.buffer p, ltb_false→le _ _ small))
              ∙ ground (
                arith,
                length-append b.buffer p,
                length-append p (joined ps),
                append_assoc b.buffer p (joined ps),
              ))
    ]

-- The blocks of a payload, as an upload sends them.
unfoldable pub block_list : ℕ → ℕ → ℕ → List ℕ → List (List ℕ)
block_list size num zero payload = []
block_list size num (suc count) payload =
    take size (drop (num * size) payload) ∷ block_list size (num + 1) count payload

pub joined-block_list :
    (size num count : ℕ) (payload : List ℕ)
    → joined (block_list size num count payload) ≡ blocks size num count payload
unfolding joined block_list blocks
joined-block_list size num zero payload = refl
joined-block_list size num (suc count) payload =
    ap (◌++◌ (take size (drop (num * size) payload)))
      (joined-block_list size (num + 1) count payload)

length-block_list :
    (size num count : ℕ) (payload : List ℕ) → length (block_list size num count payload) ≡ count
unfolding block_list
length-block_list size num zero payload = refl
length-block_list size num (suc count) payload =
    ap suc (length-block_list size (num + 1) count payload)

-- An upload of a payload in blocks of `size` bytes, enough of them to reach its end and fewer
-- than 2^32, into a fresh session: if the payload fits the buffer the session ends with exactly
-- that payload, and if not the upload ends in "too large".
pub upload-payload :
    (remote : Endpoint) (token payload : List ℕ) (size count : ℕ)
    → length payload ≤ count * size
    → count < 2 ^ 32
    → take_all 0 (block_list size 0 count payload) (opened_session remote token) ≡ (
        if leb (length payload) block1_max_body
        then Progress.assembled (record {
          active = true;
          remote = remote;
          token = token;
          next_expected_num = count;
          buffer = payload;
        })
        else Progress.too_large)
unfolding opened_session
upload-payload remote token payload size count h k =
    let whole : joined (block_list size 0 count payload) ≡ payload =
      joined-block_list size 0 count payload ∙ blocks_all size count payload h in
    let len = length-block_list size 0 count payload in
    take_all_lem 0 (block_list size 0 count payload) (opened_session remote token) refl
      (omega arith) (omega arith)
    ∙ rw (whole, len) (ground arith)
