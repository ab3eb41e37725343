-- ===== src/Stratum/Codec.antt =====
-- The texts of the messages: escaping, the requests, and what is read from a line of the pool.
pub mod Escape
pub mod Ids
use hermit_miner.Base.{
  ℕ, ◌+◌, Bool, true, false, ◌||◌, List, [], ◌∷◌, ◌++◌, Option, none, some, Bytes, codes, ◌==◌, leb,
  if◌then◌else◌, equal, u32_max,
}
use hermit_miner.Base.Digits.{
  to_radix, to_decimal, pad_left, stoull, Conversion, value, invalid_argument, out_of_range,
}
use hermit_miner.Stratum.Patterns.{
  search_for, id_at, result_at, null_error_at, notify_method_at, job_at, JobMatch,
}

pub record StratumJob : Type 0 where
  pub job_id : Bytes
  pub prefix : Bytes
  pub difficulty_bits : ℕ
  pub clean_job : Bool

-- What the loop of `json_escape` appends for one character.
unfoldable pub escape_char : ℕ → Bytes
escape_char ch =
    if ch == b'\\'
    then b'\\' ∷ b'\\' ∷ []
    else if ch == b'"'
    then b'\\' ∷ b'"' ∷ []
    else if ch == b'\n'
    then b'\\' ∷ b'n' ∷ []
    else if ch == b'\r'
    then b'\\' ∷ b'r' ∷ []
    else if ch == b'\t'
    then b'\\' ∷ b't' ∷ []
    else ch ∷ []

unfoldable pub json_escape : Bytes → Bytes
json_escape [] = []
json_escape (ch ∷ input) = escape_char ch ++ json_escape input

-- The value of a conversion, or the fallback if it threw or does not fit 32 bits.
abbrev u32_or : ℕ → Conversion → ℕ
u32_or fallback (value v _) = if leb v u32_max then v else fallback
u32_or fallback invalid_argument = fallback
u32_or fallback out_of_range = fallback

unfoldable pub parse_u32 : Bytes → ℕ → ℕ
parse_u32 text fallback = u32_or fallback (stoull 10 text)

abbrev pub converted : Conversion → Option ℕ
converted (value v _) = some v
converted invalid_argument = none
converted out_of_range = none

-- `none` is the result false.
unfoldable pub parse_message_id : Bytes → Option ℕ
parse_message_id json = elim (search_for id_at json) [
  | none ↦ none
  | some digits ↦ converted (stoull 10 digits)
]

abbrev is_true_token : Bytes → Bool
is_true_token token = equal token (codes "true") || equal token (codes "TRUE")

unfoldable pub parse_bool_result : Bytes → Option Bool
parse_bool_result json = elim (search_for result_at json) [
  | none ↦ none
  | some token ↦ some (is_true_token token)
]

unfoldable pub parse_error_is_null : Bytes → Bool
parse_error_is_null json = elim (search_for null_error_at json) [ none ↦ false | some _ ↦ true ]

abbrev job_of : JobMatch → StratumJob
job_of m = record {
  job_id = m.job_id;
  prefix = m.prefix;
  difficulty_bits = parse_u32 m.bits 20;
  clean_job = is_true_token m.clean;
}

unfoldable pub parse_notify : Bytes → Option StratumJob
parse_notify json = elim (search_for notify_method_at json) [
  | none ↦ none
  | some _ ↦ elim (search_for job_at json) [ none ↦ none | some m ↦ some (job_of m) ]
]

-- std::hex with std::setw(8)
unfoldable pub nonce_to_hex : ℕ → Bytes
nonce_to_hex nonce = pad_left 8 (to_radix 16 nonce)

-- The requests of `subscribe`, `authorize` and `submit_share`.
unfoldable pub subscribe_request : ℕ → Bytes → Bytes
subscribe_request id user_agent =
    codes "{\"id\":"
    ++ (to_decimal id
        ++ (codes ",\"method\":\"mining.subscribe\",\"params\":[\""
            ++ (json_escape user_agent ++ codes "\"]}")))

unfoldable pub authorize_request : ℕ → Bytes → Bytes → Bytes
authorize_request id username password =
    codes "{\"id\":"
    ++ (to_decimal id
        ++ (codes ",\"method\":\"mining.authorize\",\"params\":[\""
            ++ (json_escape username ++ (codes "\",\"" ++ (json_escape password ++ codes "\"]}")))))

unfoldable pub submit_request : ℕ → Bytes → Bytes → ℕ → Bytes
submit_request id username job_id nonce =
    codes "{\"id\":"
    ++ (to_decimal id
        ++ (codes ",\"method\":\"mining.submit\",\"params\":[\""
            ++ (json_escape username
                ++ (codes "\",\""
                    ++ (json_escape job_id
                        ++ (codes "\",\"" ++ (nonce_to_hex nonce ++ codes "\"]}")))))))
