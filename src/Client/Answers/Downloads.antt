-- ===== src/Client/Answers/Downloads.antt =====
-- About the assembly of a body from Block2 blocks (src/PulseCoAPClient.cpp).
use pulse_co_ap.Common.{
  ℕ, zero, suc, ◌+◌, ◌-◌, ◌^◌, ◌<◌, ◌≡◌, refl, sym, ap, ◌∙◌, true, false, List, [], ◌∷◌, ◌++◌, ltb,
  ◌==◌, if◌then◌else◌, length, take, All, arith, Bool-cases, inl, inr, append_assoc, append-nil,
  take_over, take-length, ltb→lt, ==_iff,
}
use pulse_co_ap.Types.Config.{block2_max_body}
use pulse_co_ap.Types.Address.{Endpoint}
use pulse_co_ap.Message.{Message, bytes_of}
use pulse_co_ap.Block.{BlockOption, Block2RecvState}
use pulse_co_ap.Client.Answers.{open_download, take_download, downloaded}

-- Some messages taken in turn as the blocks from number `num` on.
pub take_blocks :
    Endpoint → (ℕ → BlockOption) → ℕ → List Message → Block2RecvState → Block2RecvState
take_blocks from option num [] recv = recv
take_blocks from option num (m ∷ ms) recv =
    take_blocks from option (num + 1) ms (downloaded m from (option num) recv)

-- Their payloads one behind the other.
pub bodies : List Message → List ℕ
bodies [] = []
bodies (m ∷ ms) = bytes_of m.payload ++ bodies ms

-- The length that goes with a payload.
abbrev pub IsMeasured : Message → Type 0
IsMeasured m = m.payload_len ≡ length (bytes_of m.payload)

take_within {ℓ} :
    {A : Type ℓ} (n : ℕ) (xs : List A)
    → take (if ltb (length xs) n then length xs else n) xs ≡ take n xs
take_within n xs = elim (Bool-cases (ltb (length xs) n)) [
  | inl short ↦
      rw (short, take-length (length xs) xs refl, take_over n xs (omega (arith, ltb→lt _ _ short)))
        refl
  | inr over ↦ rw over refl
]

take_behind {ℓ} :
    {A : Type ℓ} (n avail : ℕ) (xs ys : List A)
    → avail ≡ n - length (take n xs)
    → take n xs ++ take avail ys ≡ take n (xs ++ ys)
take_behind zero avail xs ys h =
    let none_left : avail ≡ 0 = omega arith in ap (λ k. take k ys) none_left
take_behind (suc n) avail [] ys h = let all : avail ≡ suc n = omega arith in ap (λ k. take k ys) all
take_behind (suc n) avail (x ∷ xs) ys h = ap (◌∷◌ x) (take_behind n avail xs ys (omega arith))

-- The expected block goes behind what has been assembled, as far as there is room.
next_block :
    (m : Message) (b : BlockOption) (recv : Block2RecvState) (body : List ℕ)
    → IsMeasured m
    → b.num ≡ recv.next_num
    → recv.next_num + 1 < 2 ^ 32
    → recv.buffer ≡ take block2_max_body body
    → ((take_download m b recv).buffer ≡ take block2_max_body (body ++ bytes_of m.payload))
      × ((take_download m b recv).next_num ≡ recv.next_num + 1)
      × ((take_download m b recv).active ≡ recv.active)
unfolding take_download
next_block m b recv body measured num room e =
    let bytes = bytes_of m.payload in
    let avail = block2_max_body - length recv.buffer in
    let expected : (b.num == recv.next_num) ≡ true = (==_iff b.num recv.next_num).1 num in
    let copied : take (if ltb m.payload_len avail then m.payload_len else avail) bytes
        ≡ take avail bytes =
      rw measured (take_within avail bytes) in
    let buffer : recv.buffer ++ take avail bytes ≡ take block2_max_body (body ++ bytes) =
      ap (λ (buf : List ℕ). buf ++ take (block2_max_body - length buf) bytes) e
      ∙ take_behind block2_max_body (block2_max_body - length (take block2_max_body body)) body
          bytes refl in
    rw (take_download, expected)
      (ap (λ (more : List ℕ). recv.buffer ++ more) copied ∙ buffer, omega arith, refl)

-- Further blocks of a download that is under way.
take_blocks_lem :
    (from : Endpoint) (option : ℕ → BlockOption) (num : ℕ) (ms : List Message)
    (recv : Block2RecvState) (body : List ℕ)
    → ((n : ℕ) → (option n).num ≡ n)
    → All IsMeasured ms
    → recv.active ≡ true
    → recv.next_num ≡ num
    → num + length ms < 2 ^ 32
    → recv.buffer ≡ take block2_max_body body
    → (take_blocks from option num ms recv).buffer ≡ take block2_max_body (body ++ bodies ms)
unfolding take_blocks bodies open_download
take_blocks_lem from option num [] recv body numbered w a n room e = rw (append-nil body) e
take_blocks_lem from option num (m ∷ ms) recv body numbered w a n room e =
    let opened : open_download m from (option num) recv ≡ recv = rw (open_download, a) refl in
    let (buffer, next, active) =
      next_block m (option num) recv body w.0 (numbered num ∙ sym n) (omega arith) e in
    ap
      (λ (r : Block2RecvState).
        (take_blocks from option (num + 1) ms (take_download m (option num) r)).buffer)
      opened
    ∙ take_blocks_lem from option (num + 1) ms (take_download m (option num) recv)
        (body ++ bytes_of m.payload) numbered w.1 (active ∙ a) (omega arith) (omega arith) buffer
    ∙ ap (take block2_max_body) (append_assoc body (bytes_of m.payload) (bodies ms))

-- Blocks taken in order, the first with number 0 while no download is under way, are assembled to
-- the first BLOCK2_MAX_BODY bytes of their payloads one behind the other, so to all of them where
-- these fit; each payload goes with its length, and there are fewer than 2^32 blocks.
pub buffer-take_blocks :
    (from : Endpoint) (option : ℕ → BlockOption) (m : Message) (ms : List Message)
    (recv : Block2RecvState)
    → ((n : ℕ) → (option n).num ≡ n)
    → All IsMeasured (m ∷ ms)
    → recv.active ≡ false
    → length (m ∷ ms) < 2 ^ 32
    → (take_blocks from option 0 (m ∷ ms) recv).buffer ≡ take block2_max_body (bodies (m ∷ ms))
unfolding take_blocks bodies open_download
buffer-take_blocks from option m ms recv numbered w a room =
    let fresh = open_download m from (option 0) recv in
    let (on, first, empty) : (fresh.active ≡ true) × (fresh.next_num ≡ 0) × (fresh.buffer ≡ []) =
      rw (open_download, a) (refl, refl, refl) in
    let (buffer, next, active) =
      next_block m (option 0) fresh [] w.0 (numbered 0 ∙ sym first) (omega arith) empty in
    take_blocks_lem from option 1 ms (take_download m (option 0) fresh) (bytes_of m.payload)
      numbered w.1 (active ∙ on) (omega arith) (omega arith) buffer
