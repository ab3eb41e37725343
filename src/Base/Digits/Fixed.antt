-- ===== src/Base/Digits/Fixed.antt =====
-- Decimal texts of a fixed width.
use Prim.Native.Nat.{ℕ, zero, suc, ◌+◌, ◌-◌, ◌*◌, ◌/◌, ◌%◌, ◌^◌, ◌≤◌, ◌<◌}
use mathlib.Core.Bool.{false}
use mathlib.Core.List.{[], ◌∷◌, ◌++◌, append_assoc}
use mathlib.Core.Logic.{inl, inr}
use mathlib.Core.Path.{◌≡◌, refl, ap, sym, ◌∙◌}
use native.Mathlib.Nat.{pow-suc}
use native.Mathlib.Omega.{arith}
use hermit_miner.Base.Digits.{digit_char, digits, to_radix, to_decimal, pad_left}
use hermit_miner.Base.Lists.{length, replicate}
use hermit_miner.Base.Tests.{◌==◌, Bool-cases}
use hermit_miner.Base.Text.{Bytes}

-- The last `w` decimal digits of `n`, in front of a text.
abbrev pub fixed : ℕ → ℕ → Bytes → Bytes
fixed zero n out = out
fixed (suc w) n out = fixed w (n / 10) ((b'0' + n % 10) ∷ out)

digit_char_lem : (n : ℕ) → digit_char (n % 10) ≡ b'0' + n % 10
unfolding digit_char
digit_char_lem n = ground arith

replicate_shift :
    (w : ℕ) (out : Bytes) → replicate w b'0' ++ b'0' ∷ out ≡ b'0' ∷ (replicate w b'0' ++ out)
replicate_shift zero out = refl
replicate_shift (suc w) out = ap (λ s. b'0' ∷ s) (replicate_shift w out)

fixed_zero : (w : ℕ) (out : Bytes) → fixed w 0 out ≡ replicate w b'0' ++ out
fixed_zero zero out = refl
fixed_zero (suc w) out = fixed_zero w (b'0' ∷ out) ∙ replicate_shift w out

fixed-append : (w n : ℕ) (out rest : Bytes) → fixed w n out ++ rest ≡ fixed w n (out ++ rest)
fixed-append zero n out rest = refl
fixed-append (suc w) n out rest = fixed-append w (n / 10) ((b'0' + n % 10) ∷ out) rest

-- What `digits` writes fills the width, when the number has no fewer digits.
digits_full :
    (f w n : ℕ) (out : Bytes)
    → n ≤ f
    → n < 10 ^ w
    → 10 ^ w ≤ n * 10 + 9
    → digits 10 f n out ≡ fixed w n out
unfolding digits
digits_full zero zero n out le lt ge = refl
digits_full zero (suc w) n out le lt ge = absurd (omega (arith, pow-suc 10 w))
digits_full (suc f) zero n out le lt ge = let e : n ≡ 0 = omega arith in rw (e, digits) refl
digits_full (suc f) (suc w) n out le lt ge = elim (Bool-cases (n == 0)) [
  | inl done ↦ absurd (ground (arith, pow-suc 10 w))
  | inr more ↦
      let pos : 0 < n = ground arith in
      rw (more, digits, digit_char_lem n)
        (digits_full f w (n / 10) ((b'0' + n % 10) ∷ out) (omega arith)
          (omega (arith, pow-suc 10 w)) (omega (arith, pow-suc 10 w)))
]

digits_padded :
    (f w n : ℕ) (out : Bytes)
    → n ≤ f
    → n < 10 ^ w
    → replicate (w + length out - length (digits 10 f n out)) b'0' ++ digits 10 f n out
      ≡ fixed w n out
unfolding digits
digits_padded f zero n out le lt =
    let e : n ≡ 0 = omega arith in
    let none : zero + length out - length out ≡ 0 = omega arith in
    rw e (stays f ∙ ap (λ k. replicate k b'0' ++ out) none)
  where
    stays :
        (f : ℕ)
        → replicate (zero + length out - length (digits 10 f 0 out)) b'0' ++ digits 10 f 0 out
          ≡ replicate (zero + length out - length out) b'0' ++ out
    stays zero = refl
    stays (suc f) = refl
digits_padded zero (suc w) n out le lt =
    let e : n ≡ 0 = omega arith in
    let all : suc w + length out - length out ≡ suc w = omega arith in
    rw (e, all) (sym (fixed_zero (suc w) out))
digits_padded (suc f) (suc w) n out le lt = elim (Bool-cases (n == 0)) [
  | inl done ↦
      let e : n ≡ 0 = ground arith in
      let all : suc w + length out - length out ≡ suc w = omega arith in
      rw (e, digits, all) (sym (fixed_zero (suc w) out))
  | inr more ↦
      let pos : 0 < n = ground arith in
      let c = b'0' + n % 10 in
      let same : suc w + length out ≡ w + length (c ∷ out) = omega arith in
      rw (more, digits, digit_char_lem n, same)
        (digits_padded f w (n / 10) (c ∷ out) (omega arith) (omega (arith, pow-suc 10 w)))
]

-- A number of exactly so many digits.
pub to_decimal-fixed :
    (w n : ℕ) (out : Bytes)
    → 0 < n
    → n < 10 ^ w
    → 10 ^ w ≤ n * 10 + 9
    → to_decimal n ++ out ≡ fixed w n out
unfolding to_radix
to_decimal-fixed w n out pos lt ge =
    let more : (n == 0) ≡ false = ground arith in
    rw (to_radix, more)
      (ap (λ s. s ++ out) (digits_full n w n [] (omega arith) lt ge) ∙ fixed-append w n [] out)

-- A number of at most so many digits, with zeros in front of it.
pub pad_left-fixed :
    (w n : ℕ) (out : Bytes)
    → n < 10 ^ suc w
    → pad_left (suc w) (to_decimal n) ++ out ≡ fixed (suc w) n out
unfolding to_radix
pad_left-fixed w n out lt = elim (Bool-cases (n == 0)) [
  | inl done ↦
      let e : n ≡ 0 = ground arith in
      let less : suc w - 1 ≡ w = omega arith in
      rw (e, to_radix, less)
        (append_assoc (replicate w b'0') (b'0' ∷ []) out
          ∙ replicate_shift w out
          ∙ sym (fixed_zero (suc w) out))
  | inr more ↦
      let whole : suc w + length {A = ℕ} [] ≡ suc w = omega arith in
      let filled = digits_padded n (suc w) n [] (omega arith) lt in
      rw (more, to_radix) (ap (λ s. s ++ out) (rw whole at filled) ∙ fixed-append (suc w) n [] out)
]
