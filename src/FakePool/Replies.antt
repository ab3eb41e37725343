-- ===== src/FakePool/Replies.antt =====
-- What the pool answers to the requests of the client, and what the client reads from its answers.
use hermit_miner.Base.{
  ℕ, ◌<◌, ◌-◌, ◌^◌, ◌≡◌, ◌≢◌, refl, ◌∙◌, inl, inr, Option-cases, true, false, [], ◌∷◌, ◌++◌, some,
  Bytes, codes, arith, All-append, contains, length, replicate, zero, suc,
}
use hermit_miner.Base.Digits.Print.{to_radix-All}
use hermit_miner.Base.Digits.{
  to_decimal, to_radix, digit_char, stoull, Conversion, value, invalid_argument, out_of_range,
}
use hermit_miner.FakePool.Quotes.{contains-NoQuote, contains-quoted}
use hermit_miner.Stratum.Patterns.Quotes.{NoQuote}
use hermit_miner.Stratum.Codec.Escape.{IsPlain, json_escape_plain}
use hermit_miner.FakePool.{
  PoolState, value_or_zero, handle, parse_id, json_resp, subscribe_method, authorize_method,
  submit_method, subscribe_result, authorize_reply, submit_reply,
}
use hermit_miner.Stratum.Codec.{
  json_escape, nonce_to_hex, subscribe_request, authorize_request, submit_request, parse_message_id,
  converted,
}
use hermit_miner.Stratum.Patterns.{search_for, id_at}
use hermit_miner.Stratum.Codec.Ids.{parse_message_id-request}

abbrev word : Bytes
word = codes "ethod"

word-IsPlain : IsPlain (b'm' ∷ word)
word-IsPlain = grind arith

digit_NoQuote : (d : ℕ) → d < 16 → digit_char d ≢ b'"'
unfolding digit_char
digit_NoQuote d h = ground arith

pub to_decimal-NoQuote : (n : ℕ) → NoQuote (to_decimal n)
to_decimal-NoQuote n =
    to_radix-All _ 10 (omega arith) (λ d h. digit_NoQuote d (omega arith)) n (λ e. omega arith)

plain_digit :
    (d : ℕ)
    → d < 16
    → (digit_char d ≢ b'"')
      × (digit_char d ≢ b'\\')
      × (digit_char d ≢ b'\n')
      × (digit_char d ≢ b'\r')
      × (digit_char d ≢ b'\t')
unfolding digit_char
plain_digit d h = ground arith

replicate-IsPlain : (n : ℕ) → IsPlain (replicate n b'0')
replicate-IsPlain zero = tt
replicate-IsPlain (suc n) = (grind arith, replicate-IsPlain n)

-- The nonce is escaped to itself.
json_escape-nonce_to_hex : (nonce : ℕ) → json_escape (nonce_to_hex nonce) ≡ nonce_to_hex nonce
unfolding nonce_to_hex
json_escape-nonce_to_hex nonce = json_escape_plain (nonce_to_hex nonce) (
    All-append _ (replicate (8 - length (to_radix 16 nonce)) b'0') (to_radix 16 nonce)
      (replicate-IsPlain (8 - length (to_radix 16 nonce)))
      (to_radix-All _ 16 (omega arith) plain_digit nonce (grind arith)))

-- A method is looked for in the pieces of a request.
module _ (more : Bytes) where
  abbrev Name : Bytes
  Name = b'"' ∷ (codes "method\":" ++ more)

  past_id :
      (id : ℕ) (rest : Bytes)
      → contains Name (codes "{\"id\":" ++ (to_decimal id ++ rest)) ≡ contains Name rest
  past_id id rest =
      contains-NoQuote (codes "method\":" ++ more) (to_decimal id) rest (to_decimal-NoQuote id)

  next_text :
      (text next : Bytes)
      → contains Name (b'"' ∷ (json_escape text ++ (codes "\",\"" ++ next)))
        ≡ contains Name (b'"' ∷ next)
  next_text text next =
      contains-quoted b'm' word more word-IsPlain text b',' (b'"' ∷ next) (λ e. omega arith)
        (λ e. omega arith)

  last_text : (text : Bytes) → contains Name (b'"' ∷ (json_escape text ++ codes "\"]}")) ≡ false
  last_text text =
      contains-quoted b'm' word more word-IsPlain text b']' (b'}' ∷ []) (λ e. omega arith)
        (λ e. omega arith)

  two_texts :
      (a b : Bytes)
      → contains Name (b'"' ∷ (json_escape a ++ (codes "\",\"" ++ (json_escape b ++ codes "\"]}"))))
        ≡ false
  two_texts a b = next_text a (json_escape b ++ codes "\"]}") ∙ last_text b

abbrev subscribe_name : Bytes
subscribe_name = codes "\"mining.subscribe\""

abbrev authorize_name : Bytes
authorize_name = codes "\"mining.authorize\""

abbrev submit_name : Bytes
submit_name = codes "\"mining.submit\""

-- Which names of methods stand in the requests.
contains-subscribe :
    (id : ℕ) (user_agent : Bytes)
    → contains subscribe_method (subscribe_request id user_agent) ≡ true
unfolding subscribe_request
contains-subscribe id user_agent = past_id subscribe_name id (
    codes ",\"method\":\"mining.subscribe\",\"params\":[\""
    ++ (json_escape user_agent ++ codes "\"]}"))

abbrev authorize_rest : Bytes → Bytes → Bytes
authorize_rest username password =
    codes ",\"method\":\"mining.authorize\",\"params\":[\""
    ++ (json_escape username ++ (codes "\",\"" ++ (json_escape password ++ codes "\"]}")))

contains-authorize :
    (id : ℕ) (username password : Bytes)
    → (contains subscribe_method (authorize_request id username password) ≡ false)
      × (contains authorize_method (authorize_request id username password) ≡ true)
unfolding authorize_request
contains-authorize id username password = (
  past_id subscribe_name id (authorize_rest username password)
      ∙ two_texts subscribe_name username password,
  past_id authorize_name id (authorize_rest username password),
)

abbrev submit_rest : Bytes → Bytes → ℕ → Bytes
submit_rest username job_id nonce =
    codes ",\"method\":\"mining.submit\",\"params\":[\""
    ++ (json_escape username
        ++ (codes "\",\""
            ++ (json_escape job_id
                ++ (codes "\",\"" ++ (json_escape (nonce_to_hex nonce) ++ codes "\"]}")))))

contains-submit :
    (id : ℕ) (username job_id : Bytes) (nonce : ℕ)
    → (contains subscribe_method (submit_request id username job_id nonce) ≡ false)
      × (contains authorize_method (submit_request id username job_id nonce) ≡ false)
      × (contains submit_method (submit_request id username job_id nonce) ≡ true)
unfolding submit_request
contains-submit id username job_id nonce = rw (← json_escape-nonce_to_hex nonce) (
  past_id subscribe_name id (submit_rest username job_id nonce)
      ∙ next_text subscribe_name username _
      ∙ two_texts subscribe_name job_id (nonce_to_hex nonce),
  past_id authorize_name id (submit_rest username job_id nonce)
      ∙ next_text authorize_name username _
      ∙ two_texts authorize_name job_id (nonce_to_hex nonce),
  past_id submit_name id (submit_rest username job_id nonce),
)

converted-value_or_zero : (c : Conversion) (id : ℕ) → converted c ≡ some id → value_or_zero c ≡ id
converted-value_or_zero (value v rest) id h = cc
converted-value_or_zero invalid_argument id h = cc
converted-value_or_zero out_of_range id h = cc

parse_id-some : (json : Bytes) (id : ℕ) → parse_message_id json ≡ some id → parse_id json ≡ id
unfolding parse_id parse_message_id
parse_id-some json id h = elim (Option-cases (search_for id_at json)) [
  | inl missing ↦ let wrong = rw (missing, parse_message_id) at h in cc
  | inr (digits, found) ↦
      rw (found, parse_id)
        (converted-value_or_zero (stoull 10 digits) id (rw (found, parse_message_id) at h))
]

-- The pool answers each request of the client with an id below 2^64, whatever texts the client puts
-- into it, for its method: a subscription, an authorization, or a share, whose answer the next job
-- follows.
pub handle-request :
    (s : PoolState) (id : ℕ) (user_agent username password job_id : Bytes) (nonce : ℕ)
    → id < 2 ^ 64
    → (handle s (subscribe_request id user_agent)
        ≡ (s, json_resp id subscribe_result (codes "null") ∷ []))
      × (handle s (authorize_request id username password) ≡ authorize_reply s id)
      × (handle s (submit_request id username job_id nonce) ≡ submit_reply s id)
unfolding handle
handle-request s id user_agent username password job_id nonce small =
    let ids = parse_message_id-request id user_agent username password job_id nonce small in
    let (a0, a1) = contains-authorize id username password in
    let (b0, b1, b2) = contains-submit id username job_id nonce in
    (
      rw
          (
            contains-subscribe id user_agent,
            parse_id-some (subscribe_request id user_agent) id ids.0,
          )
          refl,
      rw (a0, a1, parse_id-some (authorize_request id username password) id ids.1) refl,
      rw (b0, b1, b2, parse_id-some (submit_request id username job_id nonce) id ids.2) refl,
    )
