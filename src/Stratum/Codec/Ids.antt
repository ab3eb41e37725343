-- ===== src/Stratum/Codec/Ids.antt =====
-- The id of a message: what is read from a request is what was written into it.
use hermit_miner.Base.{ℕ, ◌<◌, ◌^◌, ◌≡◌, refl, true, ◌∷◌, ◌++◌, some, arith, Bytes, codes}
use hermit_miner.Base.Digits.Decimal.{
  NoDigit, to_decimal_head, to_decimal-AllDigits, span_digits-append, stoull-to_decimal,
}
use hermit_miner.Base.Digits.{to_decimal, is_digit, skip_space, span_digits}
use hermit_miner.Stratum.Codec.{
  parse_message_id, subscribe_request, authorize_request, submit_request,
}
use hermit_miner.Stratum.Patterns.{search_for, id_at, digits_at}

skip_space_digit : (c : ℕ) (s : Bytes) → is_digit c ≡ true → skip_space (c ∷ s) ≡ c ∷ s
unfolding skip_space
skip_space_digit c s d = ground arith

-- The digits of a number are found with a text behind them that begins with none.
pub digits_at-to_decimal :
    (n : ℕ) (rest : Bytes)
    → NoDigit rest
    → digits_at (skip_space (to_decimal n ++ rest)) ≡ some (to_decimal n, rest)
unfolding digits_at
digits_at-to_decimal n rest stops =
    let (c, s, e, d) = to_decimal_head n in
    let spanned : span_digits (c ∷ (s ++ rest)) ≡ (c ∷ s, rest) =
      rw e at (span_digits-append (to_decimal n) rest (to_decimal-AllDigits n) stops) in
    rw (e, skip_space_digit c (s ++ rest) d, spanned) refl

-- The pattern matches at the quote of the member, behind the opening brace.
id_at-head :
    (n : ℕ) (rest : Bytes)
    → NoDigit rest
    → id_at (codes "\"id\":" ++ (to_decimal n ++ rest)) ≡ some (to_decimal n)
unfolding id_at skip_space
id_at-head n rest stops = rw (id_at, digits_at-to_decimal n rest stops) refl

search_for-head :
    (n : ℕ) (rest : Bytes)
    → NoDigit rest
    → search_for id_at (codes "{\"id\":" ++ (to_decimal n ++ rest)) ≡ some (to_decimal n)
unfolding search_for
search_for-head n rest stops = (unfold id_at in rw (search_for, id_at-head n rest stops) refl)

-- A text that begins with the member "id" has that number for its id.
pub parse_message_id-head :
    (n : ℕ) (rest : Bytes)
    → n < 2 ^ 64
    → NoDigit rest
    → parse_message_id (codes "{\"id\":" ++ (to_decimal n ++ rest)) ≡ some n
unfolding parse_message_id
parse_message_id-head n rest small stops =
    rw (parse_message_id, search_for-head n rest stops, stoull-to_decimal n small) refl

-- `request_response` reads back the id that each request was built with.
pub parse_message_id-request :
    (id : ℕ) (user_agent username password job_id : Bytes) (nonce : ℕ)
    → id < 2 ^ 64
    → (parse_message_id (subscribe_request id user_agent) ≡ some id)
      × (parse_message_id (authorize_request id username password) ≡ some id)
      × (parse_message_id (submit_request id username job_id nonce) ≡ some id)
unfolding subscribe_request authorize_request submit_request
parse_message_id-request id user_agent username password job_id nonce small = (
  parse_message_id-head id _ small refl,
  parse_message_id-head id _ small refl,
  parse_message_id-head id _ small refl,
)
