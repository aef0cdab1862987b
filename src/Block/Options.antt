-- ===== src/Block/Options.antt =====
-- About block options and the blocks of a payload (src/PulseCoAPBlockwise.h).
use pulse_co_ap.Common.{
  ℕ, zero, suc, ◌+◌, ◌*◌, ◌/◌, ◌%◌, ◌^◌, ◌≤◌, ◌<◌, ◌≡◌, refl, sym, ap, ◌∙◌, Bool, some, List, [],
  ◌∷◌, ◌++◌, ◌==◌, length, arith, le→ltb_false, take, drop, take-append-drop,
}
use pulse_co_ap.Message.{CoapOption, option_as_uint}
use pulse_co_ap.Message.Numbers.{uint_option, option_as_uint-uint_option, length-uint_bytes_le}
use pulse_co_ap.Block.{from_option, to_option_value}

from_option_short :
    (o : CoapOption) (v : ℕ)
    → o.length ≤ 3
    → option_as_uint o ≡ v
    → from_option o ≡ some (record { num = v / 16; m = v / 8 % 2 == 1; szx = v % 8 })
unfolding from_option
from_option_short o v h e = rw (le→ltb_false 3 o.length h, e)

to_option_value_fields :
    (num : ℕ) (m : Bool) (szx : ℕ)
    → num < 2 ^ 20
    → szx < 8
    → let v = to_option_value num m szx in
      (v < 2 ^ 24) × (v / 16 ≡ num) × ((v / 8 % 2 == 1) ≡ m) × (v % 8 ≡ szx)
unfolding to_option_value
to_option_value_fields num m szx h k = ground arith

-- A block option with a number below 2^20 and a size exponent below 8 is read back as it was
-- written.
pub from_option-to_option_value :
    (number num : ℕ) (m : Bool) (szx : ℕ)
    → num < 2 ^ 20
    → szx < 8
    → from_option (uint_option number (to_option_value num m szx))
      ≡ some (record { num = num; m = m; szx = szx })
from_option-to_option_value number num m szx h k =
    let v = to_option_value num m szx in
    let f = to_option_value_fields num m szx h k in
    let small : v < 2 ^ 24 = f.0 in
    from_option_short (uint_option number v) v (length-uint_bytes_le v small)
      (option_as_uint-uint_option number v (omega arith))
    ∙ rw (f.1, f.2, f.3)

-- The blocks of `size` bytes, from block `num` on, as many as `count`: those that a transfer sends.
unfoldable pub blocks : ℕ → ℕ → ℕ → List ℕ → List ℕ
blocks size num zero payload = []
blocks size num (suc count) payload =
    take size (drop (num * size) payload) ++ blocks size (num + 1) count payload

drop_nil {ℓ} : {A : Type ℓ} (n : ℕ) → ◌≡◌ {A = List A} (drop n []) []
drop_nil zero = refl
drop_nil (suc n) = refl

drop-drop {ℓ} : {A : Type ℓ} (m n : ℕ) (xs : List A) → drop m (drop n xs) ≡ drop (n + m) xs
drop-drop m zero xs = let e : m ≡ 0 + m = omega arith in ap (λ (k : ℕ). drop k xs) e
drop-drop m (suc n) [] = drop_nil m ∙ sym (drop_nil (suc n + m))
drop-drop m (suc n) (x ∷ xs) =
    let e : suc (n + m) ≡ suc n + m = omega arith in
    drop-drop m n xs ∙ ap (λ (k : ℕ). drop k (x ∷ xs)) e

drop_all {ℓ} : {A : Type ℓ} (n : ℕ) (xs : List A) → length xs ≤ n → drop n xs ≡ []
drop_all n [] h = drop_nil n
drop_all zero (x ∷ xs) h = absurd (omega arith)
drop_all (suc n) (x ∷ xs) h = drop_all n xs (omega arith)

-- Block by block the whole payload is sent: any number of blocks that reaches its end makes up the
-- payload from block `num` on.
pub blocks-payload :
    (size num count : ℕ) (payload : List ℕ)
    → length payload ≤ (num + count) * size
    → blocks size num count payload ≡ drop (num * size) payload
unfolding blocks
blocks-payload size num zero payload h = sym (drop_all (num * size) payload (omega arith))
blocks-payload size num (suc count) payload h =
    let next : (num + 1) * size ≡ num * size + size = omega arith in
    rw
      (
        blocks-payload size (num + 1) count payload (omega arith),
        next,
        ← drop-drop size (num * size) payload,
      )
      (take-append-drop size (drop (num * size) payload))

-- All blocks from the first on make up the payload.
pub blocks_all :
    (size count : ℕ) (payload : List ℕ)
    → length payload ≤ count * size
    → blocks size 0 count payload ≡ payload
blocks_all size count payload h =
    let start : 0 * size ≡ 0 = omega arith in
    blocks-payload size 0 count payload (omega arith) ∙ ap (λ (n : ℕ). drop n payload) start
