-- ===== src/Base/Fields.antt =====
-- Numbers with the same digits, and fields of digits as arithmetic.
use Prim.Native.Nat.{ℕ, zero, suc, ◌+◌, ◌-◌, ◌*◌, ◌/◌, ◌%◌, ◌^◌, ◌≤◌, ◌<◌, bit_and, bit_or}
use mathlib.Core.Path.{◌≡◌, ap, sym, ◌∙◌}
use native.Mathlib.Decide.{dec_lt}
use native.Mathlib.Nat.{one-le-pow}
use native.Mathlib.Omega.{arith}
use hermit_miner.Base.Bits.{
  bit, bit_zero, bit-lt, bit-bit_and, bit-bit_or, bit-complement, bit-mod, bit_low, bit_high,
  bit-shift_left_low, bit-shift_left_high, bit_above,
}

same_below : (n x y : ℕ) → x ≤ n → y ≤ n → ((i : ℕ) → bit i x ≡ bit i y) → x ≡ y
same_below zero x y p q same = omega arith
same_below (suc n) x y p q same =
    let last : x % 2 ≡ y % 2 = same 0 in
    let front : x / 2 ≡ y / 2 =
      same_below n (x / 2) (y / 2) (omega arith) (omega arith) (λ i. same (suc i)) in
    omega arith

-- A number is determined by its digits.
pub bit_ext : (x y : ℕ) → ((i : ℕ) → bit i x ≡ bit i y) → x ≡ y
bit_ext x y same = same_below (x + y) x y (omega arith) (omega arith) same

mod_below : (n x : ℕ) → x % 2 ^ n < 2 ^ n
mod_below n x = ground (arith, one-le-pow n 2)

-- A mask of `n` ones is the remainder by 2 ^ n.
pub bit_and_ones : (n x : ℕ) → bit_and x (2 ^ n - 1) ≡ x % 2 ^ n
bit_and_ones n x = bit_ext _ _ each
  where
    each : (i : ℕ) → bit i (bit_and x (2 ^ n - 1)) ≡ bit i (x % 2 ^ n)
    each i = elim (dec_lt i n) [
      | yes lt ↦
          let ones : bit i (2 ^ n - 1 - 0) ≡ 1 - bit i 0 =
            bit-complement n i 0 lt (omega (arith, one-le-pow n 2)) in
          let none : 2 ^ n - 1 - 0 ≡ 2 ^ n - 1 = omega arith in
          let full : bit i (2 ^ n - 1) ≡ 1 - bit i 0 = ap (bit i) (sym none) ∙ ones in
          omega (arith, full, bit-bit_and i x (2 ^ n - 1), bit_zero i, bit-lt i x, bit-mod n i x lt)
      | no ge ↦ omega (
        arith,
        bit-bit_and i x (2 ^ n - 1),
        bit_above n i (2 ^ n - 1) (omega (arith, one-le-pow n 2)) (omega arith),
        bit_above n i (x % 2 ^ n) (mod_below n x) (omega arith),
      )
    ]

-- Or of a number that is moved up and one that fits below it is their sum.
pub bit_or_sum : (n q r : ℕ) → r < 2 ^ n → bit_or (q * 2 ^ n) r ≡ q * 2 ^ n + r
bit_or_sum n q r small = bit_ext _ _ each
  where
    each : (i : ℕ) → bit i (bit_or (q * 2 ^ n) r) ≡ bit i (q * 2 ^ n + r)
    each i = elim (dec_lt i n) [
      | yes lt ↦
          omega (arith, bit-bit_or i (q * 2 ^ n) r, bit-shift_left_low n i q lt, bit_low n i q r lt)
      | no ge ↦ omega (
        arith,
        bit-bit_or i (q * 2 ^ n) r,
        bit-shift_left_high n (i - n) i q (omega arith),
        bit_above n i r small (omega arith),
        bit_high n (i - n) i q r small (omega arith),
      )
    ]
