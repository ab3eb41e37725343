-- ===== src/Job/Difficulty.antt =====
-- What the difficulty test decides about the number that the hash spells.
use native.Mathlib.Nat.{pow-suc, pow-le-pow_right, mul-le-mul_left}
use native.Mathlib.Numerals.{towards_suc}
use hermit_miner.Base.{
  ℕ, ◌+◌, ◌-◌, ◌*◌, ◌^◌, ◌≤◌, ◌<◌, bit_and, ◌≡◌, refl, ap, ◌↔◌, Bool, true, false, [], ◌∷◌, arith,
  Bytes, IsBytes, length, ◌==◌, leb, all_below, all_below_sound, scale, scale_lt, scale_lt_iff,
  two-pow-add, two-pow_pos,
}
use hermit_miner.Job.{meets_difficulty, mask}

-- The number that the bytes spell, the first one highest.
abbrev pub big_endian : Bytes → ℕ
big_endian [] = 0
big_endian (b ∷ bs) = b * 256 ^ length bs + big_endian bs

pub big_endian-lt : (bs : Bytes) → IsBytes bs → big_endian bs < 256 ^ length bs
big_endian-lt [] h = omega arith
big_endian-lt (b ∷ bs) (hb, h) =
    let p : ℕ = 256 ^ length bs in
    let lt : big_endian bs < p = big_endian-lt bs h in
    let split : (b + 1) * p ≤ 256 * p = grind arith in omega (arith, pow-suc 256 (length bs))

-- The masked test of one byte against its order, at every byte and every number of bits.
abbrev agree : ℕ → ℕ → Bool
agree k b = elim (bit_and b (mask k) == 0) [
  | true ↦ leb ((b + 1) * 2 ^ k) 256
  | false ↦ leb 256 (b * 2 ^ k)
]

mask_table : all_below 9 (λ k. all_below 256 (agree k)) ≡ true
unfolding all_below
mask_table = refl

agree_at : (k b : ℕ) → k ≤ 8 → b < 256 → agree k b ≡ true
agree_at k b hk hb =
    all_below_sound 256 (agree k) b
      (all_below_sound 9 (λ k. all_below 256 (agree k)) k mask_table (omega arith)) hb

-- The three ways in which a byte settles the order or leaves it to the rest. `p` is the weight of
-- the byte, `v` the number behind it.
module _ (b p v : ℕ) (below : v < p) where
  masked_small : (k : ℕ) → (b + 1) * 2 ^ k ≤ 256 → (b * p + v) * 2 ^ k < 256 * p
  masked_small k h =
      omega (arith, scale ((b + 1) * 2 ^ k) 256 p h, scale_lt v p (2 ^ k) below (two-pow_pos k))

  masked_large : (k : ℕ) → 256 ≤ b * 2 ^ k → 256 * p ≤ (b * p + v) * 2 ^ k
  masked_large k h = omega (arith, scale 256 (b * 2 ^ k) p h)

pow_byte : (m : ℕ) → 2 ^ (m + 8) ≡ 256 * 2 ^ m
pow_byte m = simp towards_suc (omega (arith, pow-suc 2 m))

-- The number times `2 ^ bits` stays under the weight of the whole hash.
abbrev pub Meets : Bytes → ℕ → Type 0
Meets hash bits = big_endian hash * 2 ^ bits < 256 ^ length hash

module _ (b : ℕ) (hash : Bytes) (hb : b < 256) (h : IsBytes hash) where
  Meets-zero_bits : Meets (b ∷ hash) 0
  Meets-zero_bits = omega (arith, big_endian-lt (b ∷ hash) (hb, h))

  Meets-zero_byte : (m : ℕ) → b ≡ 0 → Meets (b ∷ hash) (m + 8) ↔ Meets hash m
  Meets-zero_byte m e = (
    λ l. omega (
      arith,
      pow_byte m,
      pow-suc 256 (length hash),
      ap (λ (t : ℕ). big_endian hash * t) (pow_byte m),
    ),
    λ l. rw e (
        omega (
          arith,
          pow_byte m,
          pow-suc 256 (length hash),
          ap (λ (t : ℕ). big_endian hash * t) (pow_byte m),
        )),
  )

  not_Meets_byte : (m : ℕ) → 0 < b → ¬ Meets (b ∷ hash) (m + 8)
  not_Meets_byte m pos l =
      let p = 256 ^ length hash in
      let big : 256 ≤ b * 2 ^ (m + 8) =
        omega (arith, pow_byte m, two-pow_pos m, scale 1 b (2 ^ (m + 8)) pos) in
      omega (
        arith,
        masked_large b p (big_endian hash) (big_endian-lt hash h) (m + 8) big,
        pow-suc 256 (length hash),
      )

  Meets-masked : (k : ℕ) → k ≤ 8 → (bit_and b (mask k) ≡ 0) ↔ Meets (b ∷ hash) k
  Meets-masked k small = ground (
    arith,
    agree_at k b small hb,
    pow-suc 256 (length hash),
    masked_small b (256 ^ length hash) (big_endian hash) (big_endian-lt hash h) k,
    masked_large b (256 ^ length hash) (big_endian hash) (big_endian-lt hash h) k,
  )

-- A hash of any length passes the test for `bits` zero bits, at any `bits`, exactly when the number
-- that its bytes spell, the first byte highest, times 2 ^ bits is below 256 ^ length.
pub meets_difficulty_iff :
    (hash : Bytes) (bits : ℕ) → IsBytes hash → (meets_difficulty hash bits ≡ true) ↔ Meets hash bits
unfolding meets_difficulty
meets_difficulty_iff [] bits h = (λ _. omega arith, λ _. refl)
meets_difficulty_iff (b ∷ hash) bits (hb, h) = ground (
  arith,
  meets_difficulty_iff hash (bits - 8) h,
  Meets-zero_bits b hash hb h,
  Meets-zero_byte b hash hb h (bits - 8),
  not_Meets_byte b hash hb h (bits - 8),
  Meets-masked b hash hb h bits,
)

-- A hash of 32 bytes passes the test for at most 256 bits exactly when its number is below
-- 2 ^ (256 - bits).
pub meets_difficulty-target :
    (hash : Bytes) (bits room : ℕ)
    → IsBytes hash
    → length hash ≡ 32
    → bits + room ≡ 256
    → (meets_difficulty hash bits ≡ true) ↔ (big_endian hash < 2 ^ room)
meets_difficulty-target hash bits room h len sum =
    let whole : 256 ^ length hash ≡ 2 ^ room * 2 ^ bits =
      rw (len, ← two-pow-add bits room, sum) refl in
    let order = scale_lt_iff (big_endian hash) (2 ^ room) (2 ^ bits) (two-pow_pos bits) in
    let test : (meets_difficulty hash bits ≡ true)
        ↔ (big_endian hash * 2 ^ bits < 2 ^ room * 2 ^ bits) =
      rw whole at (meets_difficulty_iff hash bits h) in
    (λ m. order.0 (test.0 m), λ l. test.1 (order.1 l))

-- A hash that passes the test for some number of bits passes it for every smaller number.
pub meets_difficulty_mono :
    (hash : Bytes) (fewer bits : ℕ)
    → IsBytes hash
    → fewer ≤ bits
    → meets_difficulty hash bits ≡ true
    → meets_difficulty hash fewer ≡ true
meets_difficulty_mono hash fewer bits h le passes = (meets_difficulty_iff hash fewer h).1 (
    omega (
      arith,
      (meets_difficulty_iff hash bits h).0 passes,
      mul-le-mul_left (big_endian hash) (pow-le-pow_right {n = 2} (omega arith) le),
    ))
