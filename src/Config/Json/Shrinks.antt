-- ===== src/Config/Json/Shrinks.antt =====
-- Reads that leave less than they are given: texts, numbers and words.
use hermit_miner.Base.{
  ℕ, suc, ◌+◌, ◌≤◌, ◌<◌, ◌≡◌, [], ◌∷◌, ◌++◌, some, arith, Bytes, length, ◌==◌, Bool-cases,
  Option-cases, inl, inr, strip,
}
use hermit_miner.Base.Digits.{is_digit, span_digits, stoull, value, invalid_argument, out_of_range}
use hermit_miner.Config.Json.{
  Parse, parsed, failed, out_of_fuel, ◌>>=◌, skip_ws, unescape, string_body, parse_string,
  parse_number, number_of, keyword,
}

-- A read that does not run out of fuel, and leaves fewer than `n` characters.
abbrev pub Shrinks {ℓ} : {A : Type ℓ} → ℕ → Parse A → Type 0
Shrinks n (parsed _ r) = length r < n
Shrinks n failed = Unit
Shrinks n out_of_fuel = ⊥

module _ {ℓ} {A : Type ℓ} where
  pub Shrinks-mono : (n m : ℕ) (p : Parse A) → n ≤ m → Shrinks n p → Shrinks m p
  Shrinks-mono n m (parsed a r) le h = omega arith
  Shrinks-mono n m failed le h = tt
  Shrinks-mono n m out_of_fuel le h = h

  pub Shrinks-bind {κ} :
      {B : Type κ} (n : ℕ) (p : Parse A) (f : A → Bytes → Parse B)
      → Shrinks n p
      → ((a : A) (r : Bytes) → length r < n → Shrinks n (f a r))
      → Shrinks n (p >>= f)
  Shrinks-bind n (parsed a r) f h k = k a r h
  Shrinks-bind n failed f h k = tt
  Shrinks-bind n out_of_fuel f h k = h

pub length-skip_ws : (s : Bytes) → length (skip_ws s) ≤ length s
unfolding skip_ws
length-skip_ws [] = omega arith
length-skip_ws (ch ∷ s) = ground (arith, length-skip_ws s)

string_body-Shrinks : (out s : Bytes) → Shrinks (length s) (string_body out s)
unfolding string_body
string_body-Shrinks out [] = tt
string_body-Shrinks out (ch ∷ []) = ground arith
string_body-Shrinks out (ch ∷ esc ∷ s) = elim (Bool-cases (ch == b'"')) [
  | inl q ↦ rw (q, Shrinks, string_body) (omega arith)
  | inr nq ↦ elim (Bool-cases (ch == b'\\')) [
    | inl b ↦ elim (Option-cases (unescape esc)) [
      | inl bad ↦ rw (nq, b, bad, Shrinks, string_body) tt
      | inr (c, good) ↦
          rw (nq, b, good, Shrinks, string_body)
            (Shrinks-mono _ _ (string_body (out ++ (c ∷ [])) s) (omega arith)
              (string_body-Shrinks (out ++ (c ∷ [])) s))
    ]
    | inr nb ↦
        rw (nq, nb, Shrinks, string_body)
          (Shrinks-mono _ _ (string_body (out ++ (ch ∷ [])) (esc ∷ s)) (omega arith)
            (string_body-Shrinks (out ++ (ch ∷ [])) (esc ∷ s)))
  ]
]

pub parse_string-Shrinks : (s : Bytes) → Shrinks (length s) (parse_string s)
unfolding parse_string
parse_string-Shrinks [] = tt
parse_string-Shrinks (ch ∷ s) = ground (
  arith,
  Shrinks-mono (length s) (suc (length s)) (string_body [] s) (omega arith)
      (string_body-Shrinks [] s),
)

length-span_digits : (s : Bytes) → length (span_digits s).1 ≤ length s
unfolding span_digits
length-span_digits [] = omega arith
length-span_digits (c ∷ s) = elim (Bool-cases (is_digit c)) [
  | inl d ↦ rw d (omega (arith, length-span_digits s))
  | inr nd ↦ rw nd (omega arith)
]

number_of-Shrinks : (text rest : Bytes) (n : ℕ) → length rest < n → Shrinks n (number_of text rest)
number_of-Shrinks text rest n h =
    elim (stoull 10 text)
      as (λ c. Shrinks n (elim c [
        | value v _ ↦ parsed v rest
        | invalid_argument ↦ failed
        | out_of_range ↦ failed
      ])) [ value v _ ↦ h | invalid_argument ↦ tt | out_of_range ↦ tt ]

pub parse_number-Shrinks : (s : Bytes) → Shrinks (length s) (parse_number s)
unfolding parse_number span_digits
parse_number-Shrinks [] = tt
parse_number-Shrinks (ch ∷ s) = elim (Bool-cases (is_digit ch)) [
  | inl d ↦ rw (d) (
      number_of-Shrinks (ch ∷ (span_digits s).0) (span_digits s).1 (suc (length s))
        (omega (arith, length-span_digits s)))
  | inr nd ↦ rw nd tt
]

length-strip : (w s r : Bytes) → strip w s ≡ some r → length r + length w ≡ length s
length-strip [] s r e = ground arith
length-strip (p ∷ w) [] r e = cc
length-strip (p ∷ w) (c ∷ s) r e = ground (arith, length-strip w s r)

pub keyword-Shrinks {ℓ} :
    {A : Type ℓ} (w : Bytes) (v : A) (s : Bytes) (p : Parse A)
    → 0 < length w
    → Shrinks (length s) p
    → Shrinks (length s) (keyword w v s p)
keyword-Shrinks w v s p pos h = elim (Option-cases (strip w s)) [
  | inl e ↦ rw (e, Shrinks, keyword) h
  | inr (r, e) ↦ rw (e, Shrinks, keyword) (omega (arith, length-strip w s r e))
]
