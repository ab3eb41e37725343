-- ===== src/FakePool/Reads.antt =====
-- What the client reads from the lines of the pool.
use hermit_miner.Base.{
  ℕ, ◌<◌, ◌^◌, ◌≡◌, ◌≢◌, refl, true, ◌∷◌, ◌++◌, none, some, Bytes, codes, arith, All-append,
}
use hermit_miner.Base.Digits.{to_decimal, skip_space, span_digits, stoull, scan, digit_value}
use hermit_miner.Stratum.Patterns.Quotes.{NoQuote, search_for-NoQuote, until_quote-NoQuote}
use hermit_miner.FakePool.Replies.{to_decimal-NoQuote}
use hermit_miner.FakePool.{json_resp, notify_line, subscribe_result}
use hermit_miner.Stratum.Codec.Ids.{parse_message_id-head}
use hermit_miner.Stratum.Codec.{
  parse_message_id, parse_bool_result, parse_error_is_null, parse_notify, parse_u32,
}
use hermit_miner.Stratum.Patterns.{
  search_for, strip_icase, result_at, null_error_at, notify_method_at, job_at, truth_at, digits_at,
}

result_at-skips : (c : ℕ) (s : Bytes) → c ≢ b'"' → result_at (c ∷ s) ≡ none
unfolding result_at strip_icase
result_at-skips c s ne = ground arith

null_error_at-skips : (c : ℕ) (s : Bytes) → c ≢ b'"' → null_error_at (c ∷ s) ≡ none
unfolding null_error_at strip_icase
null_error_at-skips c s ne = ground arith

-- Behind the number of the id nothing is left to compute but the texts of the answer.
found_result :
    (id : ℕ) (rest : Bytes)
    → search_for result_at (codes "{\"id\":" ++ (to_decimal id ++ rest)) ≡ search_for result_at rest
found_result id rest =
    (unfold search_for result_at strip_icase in
      search_for-NoQuote result_at result_at-skips (to_decimal id) rest (to_decimal-NoQuote id))

found_null :
    (id : ℕ) (rest : Bytes)
    → search_for null_error_at (codes "{\"id\":" ++ (to_decimal id ++ rest))
      ≡ search_for null_error_at rest
found_null id rest =
    (unfold search_for null_error_at strip_icase in
      search_for-NoQuote null_error_at null_error_at-skips (to_decimal id) rest
        (to_decimal-NoQuote id))

true_found : search_for result_at (codes ",\"result\":true,\"error\":null}") ≡ some (codes "true")
unfolding search_for result_at strip_icase truth_at skip_space
true_found = refl

null_found :
    search_for null_error_at
      (codes ",\"result\":[[\"mining.notify\",\"deadbeef\"],\"abcdef01\",4],\"error\":null}")
    ≡ some tt
unfolding search_for null_error_at strip_icase skip_space
null_found = refl

-- The answer to an authorization or a share carries the id of the request and the result true, and
-- the answer to a subscription carries the id and no error.
pub json_resp-reads :
    (id : ℕ)
    → id < 2 ^ 64
    → (parse_message_id (json_resp id (codes "true") (codes "null")) ≡ some id)
      × (parse_bool_result (json_resp id (codes "true") (codes "null")) ≡ some true)
      × (parse_message_id (json_resp id subscribe_result (codes "null")) ≡ some id)
      × (parse_error_is_null (json_resp id subscribe_result (codes "null")) ≡ true)
unfolding json_resp
json_resp-reads id small = (
  parse_message_id-head id _ small refl,
  (unfold parse_bool_result in
      rw (parse_bool_result, found_result id (codes ",\"result\":true,\"error\":null}"), true_found)
        refl),
  parse_message_id-head id _ small refl,
  (unfold parse_error_is_null in
      rw
        (
          parse_error_is_null,
          found_null id (
              codes
                ",\"result\":[[\"mining.notify\",\"deadbeef\"],\"abcdef01\",4],\"error\":null}"),
          null_found,
        )
        refl),
)

-- What stands behind "params" in a notification.
abbrev params : ℕ → Bytes
params job_seq =
    codes "\"params\":[\"job-"
    ++ (to_decimal job_seq
        ++ (codes "\",\"offline-job-" ++ (to_decimal job_seq ++ codes "\",20,true]}")))

number_name : (name : Bytes) → NoQuote name → (n : ℕ) → NoQuote (name ++ to_decimal n)
number_name name h n = All-append _ name (to_decimal n) h (to_decimal-NoQuote n)

job_found :
    (job_seq : ℕ)
    → job_at (params job_seq)
      ≡ some (record {
        job_id = codes "job-" ++ to_decimal job_seq;
        prefix = codes "offline-job-" ++ to_decimal job_seq;
        bits = codes "20";
        clean = codes "true";
      })
unfolding job_at strip_icase skip_space digits_at span_digits truth_at
job_found job_seq =
    rw
      (
        job_at,
        until_quote-NoQuote (codes "job-" ++ to_decimal job_seq)
            (codes ",\"offline-job-" ++ (to_decimal job_seq ++ codes "\",20,true]}"))
            (number_name (codes "job-") (grind arith) job_seq),
        until_quote-NoQuote (codes "offline-job-" ++ to_decimal job_seq) (codes ",20,true]}")
            (number_name (codes "offline-job-") (grind arith) job_seq),
      )
      refl

at_params :
    (job_seq : ℕ)
    → search_for job_at (notify_line job_seq)
      ≡ some (record {
        job_id = codes "job-" ++ to_decimal job_seq;
        prefix = codes "offline-job-" ++ to_decimal job_seq;
        bits = codes "20";
        clean = codes "true";
      })
unfolding notify_line search_for
at_params job_seq = (unfold job_at strip_icase in rw (search_for, job_found job_seq) refl)

-- The client reads the job of a notification back, with 20 bits and the mark of a clean job.
pub parse_notify-notify_line :
    (job_seq : ℕ)
    → parse_notify (notify_line job_seq)
      ≡ some (record {
        job_id = codes "job-" ++ to_decimal job_seq;
        prefix = codes "offline-job-" ++ to_decimal job_seq;
        difficulty_bits = 20;
        clean_job = true;
      })
unfolding parse_notify notify_line search_for notify_method_at skip_space parse_u32 stoull scan
    digit_value
parse_notify-notify_line job_seq = rw (parse_notify, at_params job_seq) refl
