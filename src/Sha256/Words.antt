-- ===== src/Sha256/Words.antt =====
-- The functions on words of src/sha256.cpp, bit for bit: what FIPS 180-4 says that they are.
use native.Mathlib.Decide.{dec_lt}
use hermit_miner.Base.Bits.{
  bit, bit-lt, bit-bit_and, bit-bit_or, bit-bit_xor, bit-complement, bit-mod, bit-shift_right,
  bit-shift_left_low, bit-shift_left_high, bit_above,
}
use hermit_miner.Base.{
  ℕ, zero, suc, ◌+◌, ◌-◌, ◌*◌, ◌/◌, ◌%◌, ◌^◌, ◌<◌, min, ◌≡◌, arith, bit_and, bit_xor, ◌<<<◌, ◌>>>◌,
  u32,
}
use hermit_miner.Sha256.{rotr, ch, maj, big_sigma0, big_sigma1, small_sigma0, small_sigma1}

-- Bit `i` of the word turned to the right by `n`.
pub bit-rotr :
    (x n i : ℕ) → x < 2 ^ 32 → 0 < n → n < 32 → i < 32 → bit i (rotr x n) ≡ bit ((i + n) % 32) x
unfolding rotr
bit-rotr x n i small pos lt fits = elim (dec_lt (i + n) 32) [
  | yes below ↦
      let at : (i + n) % 32 ≡ i + n = omega arith in
      rw
        (
          bit-bit_or i (x >>> n) (u32 (x <<< (32 - n))),
          bit-shift_right n i (i + n) x (omega arith),
          bit-mod 32 i (x <<< (32 - n)) fits,
          bit-shift_left_low (32 - n) i x (omega arith),
          at,
        )
        (omega arith)
  | no above ↦
      let at : (i + n) % 32 ≡ i + n - 32 = omega arith in
      rw
        (
          bit-bit_or i (x >>> n) (u32 (x <<< (32 - n))),
          bit-shift_right n i (i + n) x (omega arith),
          bit_above 32 (i + n) x small (omega arith),
          bit-mod 32 i (x <<< (32 - n)) fits,
          bit-shift_left_high (32 - n) (i + n - 32) i x (omega arith),
          at,
        )
        (omega arith)
]

select : (a b c : ℕ) → a < 2 → b < 2 → c < 2 → (min a b + min (1 - a) c) % 2 ≡ a * b + (1 - a) * c
select zero b c p q r = omega arith
select (suc zero) b c p q r = omega arith
select (suc (suc a)) b c p q r = absurd (omega arith)

majority :
    (a b c : ℕ) → a < 2 → b < 2 → c < 2 → ((min a b + min a c) % 2 + min b c) % 2 ≡ (a + b + c) / 2
majority a b c p q r = omega arith

-- The parity of three words.
xor_three :
    (i p q r a b c : ℕ)
    → bit i p ≡ a
    → bit i q ≡ b
    → bit i r ≡ c
    → bit i (bit_xor (bit_xor p q) r) ≡ (a + b + c) % 2
xor_three i p q r a b c ha hb hc = omega (arith, bit-bit_xor i (bit_xor p q) r, bit-bit_xor i p q)

-- In every bit of the results for a first word of 32 bits, ch takes the second word where the first
-- one has a 1 and the third word where it has a 0, and maj has the digit that at least two of the
-- three words have.
pub ch-maj :
    (x y z i : ℕ)
    → x < 2 ^ 32
    → i < 32
    → (bit i (ch x y z) ≡ bit i x * bit i y + (1 - bit i x) * bit i z)
      × (bit i (maj x y z) ≡ (bit i x + bit i y + bit i z) / 2)
unfolding ch maj
ch-maj x y z i small fits =
    let bx = bit-lt i x in
    let by = bit-lt i y in
    let bz = bit-lt i z in
    (
      rw
          (
            bit-bit_xor i (bit_and x y) (bit_and (2 ^ 32 - 1 - x) z),
            bit-bit_and i x y,
            bit-bit_and i (2 ^ 32 - 1 - x) z,
            bit-complement 32 i x fits small,
          )
          (select (bit i x) (bit i y) (bit i z) bx by bz),
      rw
          (
            bit-bit_xor i (bit_xor (bit_and x y) (bit_and x z)) (bit_and y z),
            bit-bit_xor i (bit_and x y) (bit_and x z),
            bit-bit_and i x y,
            bit-bit_and i x z,
            bit-bit_and i y z,
          )
          (majority (bit i x) (bit i y) (bit i z) bx by bz),
    )

-- In every bit of the results for a 32-bit word, the four sigma functions have the parity of three
-- bits of the word: those that its rotations and its shift move there.
pub sigma_bits :
    (x i : ℕ)
    → x < 2 ^ 32
    → i < 32
    → (bit i (big_sigma0 x)
        ≡ (bit ((i + 2) % 32) x + bit ((i + 13) % 32) x + bit ((i + 22) % 32) x) % 2)
      × (bit i (big_sigma1 x)
          ≡ (bit ((i + 6) % 32) x + bit ((i + 11) % 32) x + bit ((i + 25) % 32) x) % 2)
      × (bit i (small_sigma0 x)
          ≡ (bit ((i + 7) % 32) x + bit ((i + 18) % 32) x + bit (i + 3) x) % 2)
      × (bit i (small_sigma1 x)
          ≡ (bit ((i + 17) % 32) x + bit ((i + 19) % 32) x + bit (i + 10) x) % 2)
unfolding rotr big_sigma0 big_sigma1 small_sigma0 small_sigma1
sigma_bits x i small fits =
    let turned : (n : ℕ) → 0 < n → n < 32 → bit i (rotr x n) ≡ bit ((i + n) % 32) x =
      λ n pos lt. bit-rotr x n i small pos lt fits in
    let moved : (n : ℕ) → bit i (x >>> n) ≡ bit (i + n) x =
      λ n. bit-shift_right n i (i + n) x (omega arith) in
    (
      xor_three i _ _ _ _ _ _ (turned 2 (omega arith) (omega arith))
          (turned 13 (omega arith) (omega arith)) (turned 22 (omega arith) (omega arith)),
      xor_three i _ _ _ _ _ _ (turned 6 (omega arith) (omega arith))
          (turned 11 (omega arith) (omega arith)) (turned 25 (omega arith) (omega arith)),
      xor_three i _ _ _ _ _ _ (turned 7 (omega arith) (omega arith))
          (turned 18 (omega arith) (omega arith)) (moved 3),
      xor_three i _ _ _ _ _ _ (turned 17 (omega arith) (omega arith))
          (turned 19 (omega arith) (omega arith)) (moved 10),
    )
