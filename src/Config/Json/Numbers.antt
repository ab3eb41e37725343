-- ===== src/Config/Json/Numbers.antt =====
-- The text of a number, read back.
use hermit_miner.Base.{
  ℕ, suc, ◌^◌, ◌≤◌, ◌<◌, ◌≡◌, refl, ap, true, [], ◌∷◌, ◌++◌, Bytes, arith, length,
}
use hermit_miner.Base.Digits.Decimal.{
  NoDigit, to_decimal-AllDigits, span_digits-append, to_decimal_head, stoull-to_decimal,
}
use hermit_miner.Base.Digits.{
  to_decimal, is_digit, span_digits, stoull, Conversion, value, invalid_argument, out_of_range,
}
use hermit_miner.Config.Json.{
  JsonValue, number, end, Parse, parsed, failed, parse_value, parse_members, parse_number, dispatch,
  skip_ws, ◌>>=◌,
}

abbrev outcome : Bytes → Conversion → Parse ℕ
outcome rest c = elim c [
  | value v _ ↦ parsed v rest
  | invalid_argument ↦ failed
  | out_of_range ↦ failed
]

number_of_read :
    (n : ℕ) (t rest s : Bytes) (c : ℕ)
    → t ≡ c ∷ s
    → is_digit c ≡ true
    → span_digits (t ++ rest) ≡ (t, rest)
    → stoull 10 t ≡ value n []
    → parse_number (t ++ rest) ≡ parsed n rest
unfolding parse_number
number_of_read n t rest s c e d span whole =
    let span' = rw e at span in
    let whole' = rw e at whole in rw (e, parse_number, span', d) (ap (outcome rest) whole')

number_read :
    (n : ℕ) (rest : Bytes)
    → n < 2 ^ 64
    → NoDigit rest
    → parse_number (to_decimal n ++ rest) ≡ parsed n rest
number_read n rest small stops =
    let (c, s, e, d) = to_decimal_head n in
    number_of_read n (to_decimal n) rest s c e d
      (span_digits-append (to_decimal n) rest (to_decimal-AllDigits n) stops)
      (stoull-to_decimal n small)

dispatch_digit :
    (members : Bytes → Parse JsonValue) (c : ℕ) (s : Bytes)
    → is_digit c ≡ true
    → dispatch members (skip_ws (c ∷ s))
      ≡ (parse_number (c ∷ s) >>= (λ v rest. parsed (number v) rest))
unfolding dispatch skip_ws
dispatch_digit members c s d = ground arith

pub number_value_read :
    (fuel n : ℕ) (rest : Bytes)
    → n < 2 ^ 64
    → NoDigit rest
    → parse_value (suc fuel) (to_decimal n ++ rest) ≡ parsed (number n) rest
unfolding parse_value
number_value_read fuel n rest small stops =
    let (c, s, e, d) = to_decimal_head n in
    let read = rw e at (number_read n rest small stops) in
    rw (e, dispatch_digit (parse_members fuel end) c (s ++ rest) d, read) refl

pub decimal_nonempty : (n : ℕ) → 1 ≤ length (to_decimal n)
decimal_nonempty n = let (c, s, e, d) = to_decimal_head n in rw (e) (omega arith)

pub skip_ws_digit : (c : ℕ) (s : Bytes) → is_digit c ≡ true → skip_ws (c ∷ s) ≡ c ∷ s
unfolding skip_ws
skip_ws_digit c s d = ground arith
