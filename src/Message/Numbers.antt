-- ===== src/Message/Numbers.antt =====
-- About integer options: `addOptionUint` and `optionAsUint` (src/PulseCoAPMessage.cpp).
use pulse_co_ap.Common.{
  ℕ, zero, suc, ◌+◌, ◌*◌, ◌/◌, ◌^◌, ◌≤◌, ◌<◌, ◌≡◌, inl, inr, refl, none, some, List, [], ◌∷◌, ◌++◌,
  ltb, if◌then◌else◌, length, length-append, take-length, arith, Bool-cases, lt→ltb, le→ltb_false,
}
use native.Mathlib.Nat.{pow-suc}
use pulse_co_ap.Common.Bits.{u8, u32, IsU32}
use pulse_co_ap.Message.{
  CoapOption, new_option, little_endian, big_endian, uint_bytes, accumulate, option_as_uint,
}

length-big_endian : (bs : List ℕ) → length (big_endian bs) ≡ length bs
unfolding big_endian
length-big_endian [] = refl
length-big_endian (b ∷ bs) =
    omega (arith, length-append (big_endian bs) (b ∷ []), length-big_endian bs)

length-little_endian : (n v : ℕ) → length (little_endian n v) ≤ n
unfolding little_endian
length-little_endian zero v = omega arith
length-little_endian (suc n) v = ground (arith, length-little_endian n (v / 256))

pub length-uint_bytes : (v : ℕ) → length (uint_bytes v) ≤ 4
unfolding uint_bytes
length-uint_bytes v = omega (arith, length-big_endian (little_endian 4 v), length-little_endian 4 v)

length-little_endian_le : (n k v : ℕ) → v < 256 ^ k → length (little_endian n v) ≤ k
unfolding little_endian
length-little_endian_le zero k v h = omega arith
length-little_endian_le (suc n) zero v h = rw (le→ltb_false 0 v (omega arith)) (omega arith)
length-little_endian_le (suc n) (suc k) v h =
    ground (arith, length-little_endian_le n k (v / 256) (omega (arith, pow-suc 256 k)))

-- A value below 2^24 takes three bytes at most.
pub length-uint_bytes_le : (v : ℕ) → v < 2 ^ 24 → length (uint_bytes v) ≤ 3
unfolding uint_bytes
length-uint_bytes_le v h =
    omega
      (arith, length-big_endian (little_endian 4 v), length-little_endian_le 4 3 v (omega arith))

-- `accumulate` over the bytes of `v`, the highest first.
accumulate-append :
    (acc : ℕ) (xs : List ℕ) (b : ℕ)
    → accumulate acc (xs ++ (b ∷ [])) ≡ u32 (accumulate acc xs * 256) + b
unfolding accumulate
accumulate-append acc [] b = refl
accumulate-append acc (x ∷ xs) b = accumulate-append (u32 (acc * 256) + x) xs b

accumulate-little_endian :
    (n v : ℕ) → v < 256 ^ n → v < 2 ^ 32 → accumulate 0 (big_endian (little_endian n v)) ≡ v
unfolding little_endian big_endian accumulate
accumulate-little_endian zero v h k = omega arith
accumulate-little_endian (suc n) v h k = elim (Bool-cases (ltb 0 v)) [
  | inr nil ↦ rw nil (ground arith)
  | inl more ↦
      rw
        (
          more,
          accumulate-append 0 (big_endian (little_endian n (v / 256))) (u8 v),
          accumulate-little_endian n (v / 256) (omega (arith, pow-suc 256 n)) (omega arith),
        )
        (omega arith)
]

abbrev pub uint_option : ℕ → ℕ → CoapOption
uint_option number v =
    new_option number (if ltb 0 (length (uint_bytes v)) then some (uint_bytes v) else none)
      (length (uint_bytes v))

uint_option_value :
    (number : ℕ) (bs : List ℕ) (w : ℕ)
    → length bs ≤ 4
    → accumulate 0 bs ≡ w
    → option_as_uint (new_option number (if ltb 0 (length bs) then some bs else none) (length bs))
      ≡ w
unfolding option_as_uint accumulate
uint_option_value number [] w h e = e
uint_option_value number (b ∷ bs) w h e =
    rw
      (
        lt→ltb 0 (suc (length bs)) (omega arith),
        le→ltb_false 4 (suc (length bs)) h,
        take-length (length bs) bs refl,
        take-length (length bs) bs refl,
      )
      e

-- `optionAsUint` reads back every 32-bit value from the bytes that `addOptionUint` writes.
pub option_as_uint-uint_option :
    (number v : ℕ) → IsU32 v → option_as_uint (uint_option number v) ≡ v
option_as_uint-uint_option number v h =
    uint_option_value number (uint_bytes v) v (length-uint_bytes v)
      (unfold uint_bytes in accumulate-little_endian 4 v (omega arith) h)
