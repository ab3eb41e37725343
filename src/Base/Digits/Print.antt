-- ===== src/Base/Digits/Print.antt =====
-- Printing a number and reading it back, in any base up to 16.
use Prim.Native.Nat.{zero, suc, ◌+◌, ◌*◌, ◌/◌, ◌%◌, ◌^◌, ◌≤◌, ◌<◌}
use mathlib.Core.List.{[], ◌∷◌, ◌++◌}
use mathlib.Core.Logic.{inl, inr, ◌≢◌}
use mathlib.Core.Option.{none, some}
use mathlib.Core.Path.{◌≡◌, refl, ◌∙◌, subst}
use native.Mathlib.Omega.{arith}
use hermit_miner.Base.Digits.{digit_char, digit_value, digits, to_radix, scan}
use native.Mathlib.Nat.{mod-lt, pow-suc}
use hermit_miner.Base.Lists.{All, length}
use hermit_miner.Base.Tests.{◌==◌, Bool-cases}
use hermit_miner.Base.Text.{Bytes}
use Prim.Native.Nat.{ℕ}

digit_value-digit_char :
    (base d : ℕ) → base ≤ 16 → d < base → digit_value base (digit_char d) ≡ some d
unfolding digit_value digit_char
digit_value-digit_char base d small h = ground arith

-- Reading the last digit of `n` after those before it gives `n`.
scan_last :
    (base n : ℕ) (out : Bytes)
    → 0 < base
    → base ≤ 16
    → scan base (n / base) (digit_char (n % base) ∷ out) ≡ scan base n out
unfolding scan
scan_last base n out pos small =
    let lt : n % base < base = omega arith in
    let whole : n / base * base + n % base ≡ n = omega arith in
    rw (scan, digit_value-digit_char base (n % base) small lt, whole) refl

div_lt : (n base : ℕ) → 1 < base → 0 < n → n / base < n
div_lt n base b h = grind arith

scan-digits :
    (base f n : ℕ) (out : Bytes)
    → 1 < base
    → base ≤ 16
    → n ≤ f
    → scan base 0 (digits base f n out) ≡ scan base n out
unfolding digits
scan-digits base zero n out big small le = let e : n ≡ 0 = omega arith in rw e
scan-digits base (suc f) n out big small le = ground (
  arith,
  div_lt n base big,
  scan-digits base f (n / base) (digit_char (n % base) ∷ out) big small,
  scan_last base n out,
)

scan_zero : (base : ℕ) (rest : Bytes) → 0 < base → scan base 0 (b'0' ∷ rest) ≡ scan base 0 rest
unfolding scan digit_value
scan_zero base rest pos = ground arith

digits-append :
    (base f n : ℕ) (out rest : Bytes) → digits base f n (out ++ rest) ≡ digits base f n out ++ rest
unfolding digits
digits-append base zero n out rest = refl
digits-append base (suc f) n out rest =
    ground (arith, digits-append base f (n / base) (digit_char (n % base) ∷ out) rest)

-- The text does not begin with a digit.
abbrev pub Stops : ℕ → Bytes → Type 0
Stops base [] = Unit
Stops base (c ∷ s) = digit_value base c ≡ none

scan-Stops : (base acc : ℕ) (rest : Bytes) → Stops base rest → scan base acc rest ≡ (acc, rest)
unfolding scan
scan-Stops base acc [] h = refl
scan-Stops base acc (c ∷ s) h = rw (scan, h) refl

-- A printed number with a rest behind it is read back, up to the rest.
pub scan-to_radix :
    (base n : ℕ) (rest : Bytes)
    → 1 < base
    → base ≤ 16
    → Stops base rest
    → scan base 0 (to_radix base n ++ rest) ≡ (n, rest)
unfolding to_radix
scan-to_radix base n rest big small stops = elim (Bool-cases (n == 0)) [
  | inl done ↦
      let e : n ≡ 0 = ground arith in
      rw (e, scan_zero base rest (omega arith)) (scan-Stops base 0 rest stops)
  | inr more ↦
      rw (more, ← digits-append base n n [] rest)
        (scan-digits base n n rest big small (omega arith) ∙ scan-Stops base n rest stops)
]

module _ {κ} (P : ℕ → Type κ) (base : ℕ) (pos : 0 < base)
    (each : (d : ℕ) → d < base → P (digit_char d)) where
  digits-All : (f n : ℕ) (out : Bytes) → All P out → All P (digits base f n out)
  unfolding digits
  digits-All zero n out h = h
  digits-All (suc f) n out h = elim (Bool-cases (n == 0)) [
    | inl done ↦ rw (done, digits) h
    | inr more ↦
        rw (more, digits)
          (digits-All f (n / base) (digit_char (n % base) ∷ out)
            (each (n % base) (mod-lt n pos), h))
  ]

  -- What holds of every digit holds of the characters of a number.
  pub to_radix-All : (n : ℕ) → P b'0' → All P (to_radix base n)
  unfolding to_radix
  to_radix-All n zero_digit = elim (Bool-cases (n == 0)) [
    | inl done ↦ rw done (zero_digit, tt)
    | inr more ↦ rw more (digits-All n n [] tt)
  ]

positive_power : (n k : ℕ) → n < 10 ^ k → n ≢ 0 → (k' : ℕ) × (k ≡ suc k')
positive_power n zero lt ne = absurd (ne (omega arith))
positive_power n (suc k) lt ne = (k, refl)

tenth : (n k : ℕ) → n < 10 ^ suc k → n / 10 < 10 ^ k
tenth n k lt = let split = pow-suc 10 k in omega arith

digits_ten_length :
    (f n k : ℕ) (out : Bytes) → n < 10 ^ k → length (digits 10 f n out) ≤ k + length out
unfolding digits
digits_ten_length zero n k out lt = omega arith
digits_ten_length (suc f) n k out lt = elim (Bool-cases (n == 0)) [
  | inl done ↦ rw (done, digits) (omega arith)
  | inr more ↦
      let (k', e) = positive_power n k lt (ground arith) in
      let small : n / 10 < 10 ^ k' = tenth n k' (subst (λ j. n < 10 ^ j) e lt) in
      rw (more, digits)
        (let short = digits_ten_length f (n / 10) k' (digit_char (n % 10) ∷ out) small in
          omega arith)
]

-- A number below 10^k has at most k digits.
pub to_decimal_length : (n k : ℕ) → 0 < k → n < 10 ^ k → length (to_radix 10 n) ≤ k
unfolding to_radix
to_decimal_length n k pos lt = elim (Bool-cases (n == 0)) [
  | inl done ↦ rw done (omega arith)
  | inr more ↦ rw more (let short = digits_ten_length n n k [] lt in omega arith)
]
