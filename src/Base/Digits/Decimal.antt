-- ===== src/Base/Digits/Decimal.antt =====
-- Decimal texts: the run of digits that is found in them, and std::stoull on that run.
use Prim.Native.Nat.{ℕ, zero, suc, ◌-◌, ◌/◌, ◌%◌, ◌^◌, ◌<◌}
use mathlib.Core.Bool.{Bool, true, false}
use mathlib.Core.List.{[], ◌∷◌, ◌++◌, append-nil}
use mathlib.Core.Logic.{inl, inr}
use mathlib.Core.Option.{some}
use mathlib.Core.Path.{◌≡◌, refl, ap, ◌∙◌}
use native.Mathlib.Nat.{zero-add}
use native.Mathlib.Omega.{arith}
use hermit_miner.Base.Digits.{
  digit_char, digit_value, digits, to_radix, scan, is_digit, span_digits, stoull, value, to_decimal,
  after_sign, skip_space, magnitude, range_checked, without_prefix,
}
use hermit_miner.Base.Digits.Print.{scan-to_radix}
use hermit_miner.Base.Lists.{All}
use hermit_miner.Base.Tests.{◌==◌, Bool-cases}
use hermit_miner.Base.Text.{Bytes}

abbrev pub AllDigits : Bytes → Type 0
AllDigits = All (λ c. is_digit c ≡ true)

is_digit-digit_char : (n : ℕ) → is_digit (digit_char (n % 10)) ≡ true
unfolding digit_char
is_digit-digit_char n = ground arith

digits-AllDigits : (f n : ℕ) (out : Bytes) → AllDigits out → AllDigits (digits 10 f n out)
unfolding digits
digits-AllDigits zero n out h = h
digits-AllDigits (suc f) n out h = elim (Bool-cases (n == 0)) [
  | inl done ↦ rw (done, digits) h
  | inr more ↦
      rw (more, digits)
        (digits-AllDigits f (n / 10) (digit_char (n % 10) ∷ out) (is_digit-digit_char n, h))
]

pub to_decimal-AllDigits : (n : ℕ) → AllDigits (to_decimal n)
unfolding to_radix
to_decimal-AllDigits n = elim (Bool-cases (n == 0)) [
  | inl done ↦ rw done (refl, tt)
  | inr more ↦ rw more (digits-AllDigits n n [] tt)
]

-- The text goes on with something that is no digit, or ends.
abbrev pub NoDigit : Bytes → Type 0
NoDigit [] = Unit
NoDigit (c ∷ s) = is_digit c ≡ false

pub span_digits-append :
    (run rest : Bytes) → AllDigits run → NoDigit rest → span_digits (run ++ rest) ≡ (run, rest)
unfolding span_digits
span_digits-append [] [] h e = refl
span_digits-append [] (c ∷ s) h e = rw e
span_digits-append (c ∷ run) rest (d, h) e = rw (d, span_digits-append run rest h e)

digit_value-is_digit : (c : ℕ) → is_digit c ≡ true → digit_value 10 c ≡ some (c - b'0')
unfolding digit_value
digit_value-is_digit c d = ground arith

without_prefix-ten : (s : Bytes) → without_prefix 10 s ≡ s
unfolding without_prefix
without_prefix-ten (a ∷ b ∷ c ∷ s) = refl
without_prefix-ten (a ∷ b ∷ []) = refl
without_prefix-ten (a ∷ []) = refl
without_prefix-ten [] = refl

-- A text that begins with a digit has no space, sign or prefix to skip.
stoull_unsigned :
    (c : ℕ) (s : Bytes) → is_digit c ≡ true → stoull 10 (c ∷ s) ≡ magnitude 10 false (c ∷ s)
unfolding stoull after_sign skip_space
stoull_unsigned c s d = ground (arith, without_prefix-ten (c ∷ s))

magnitude_at_digit :
    (minus : Bool) (c : ℕ) (s : Bytes)
    → is_digit c ≡ true
    → magnitude 10 minus (c ∷ s) ≡ range_checked minus (scan 10 0 (c ∷ s))
unfolding magnitude scan
magnitude_at_digit minus c s d = rw (magnitude, scan, digit_value-is_digit c d, zero-add) refl

stoull_at_digit :
    (c : ℕ) (s : Bytes)
    → is_digit c ≡ true
    → stoull 10 (c ∷ s) ≡ range_checked false (scan 10 0 (c ∷ s))
stoull_at_digit c s d = stoull_unsigned c s d ∙ magnitude_at_digit false c s d

read_back : (n : ℕ) → scan 10 0 (to_decimal n) ≡ (n, [])
read_back n = rw append-nil at (scan-to_radix 10 n [] (omega arith) (omega arith) tt)

to_decimal-zero : (n : ℕ) → n ≡ 0 → to_decimal n ≡ b'0' ∷ []
unfolding to_radix
to_decimal-zero n e = rw e

-- A printed number begins with a digit.
pub to_decimal_head : (n : ℕ) → (c : ℕ) × (s : Bytes) × (to_decimal n ≡ c ∷ s) × (is_digit c ≡ true)
to_decimal_head n = go (to_decimal n) refl
  where
    go :
        (t : Bytes)
        → to_decimal n ≡ t
        → (c : ℕ) × (s : Bytes) × (to_decimal n ≡ c ∷ s) × (is_digit c ≡ true)
    go [] e =
        let zero_case : n ≡ 0 = (unfold scan in cc (read_back n, ap (scan 10 0) e)) in
        absurd (cc (to_decimal-zero n zero_case, e))
    go (c ∷ s) e =
        let all_digits : AllDigits (c ∷ s) = rw e at (to_decimal-AllDigits n) in
        (c, s, e, all_digits.0)

-- A printed number below 2 ^ 64 is converted back.
pub stoull-to_decimal : (n : ℕ) → n < 2 ^ 64 → stoull 10 (to_decimal n) ≡ value n []
unfolding range_checked
stoull-to_decimal n small =
    let (c, s, e, d) = to_decimal_head n in
    rw (e, stoull_at_digit c s d, ← e, read_back n) (ground arith)

-- Behind a minus sign it is negated modulo 2 ^ 64.
pub stoull-minus :
    (n : ℕ) → 0 < n → n < 2 ^ 64 → stoull 10 (b'-' ∷ to_decimal n) ≡ value (2 ^ 64 - n) []
unfolding stoull after_sign skip_space
stoull-minus n pos small =
    let (c, s, e, d) = to_decimal_head n in
    rw (without_prefix-ten (to_decimal n), e, magnitude_at_digit true c s d, ← e, read_back n)
      (unfold range_checked in ground arith)
