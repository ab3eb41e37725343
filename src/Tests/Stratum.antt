-- ===== src/Tests/Stratum.antt =====
-- The client, on small scripts of a socket.
use hermit_miner.Stratum.Patterns.{notify_method_at, job_at}
use hermit_miner.Base.Digits.{skip_space}
use hermit_miner.Stratum.Codec.{parse_u32}
use hermit_miner.Logger.Event
use hermit_miner.Base.{false, ◌≢◌}
use hermit_miner.Stratum.Client.Waiting.{first, more, Waits, wait_for_job-first}
use hermit_miner.Stratum.Client.{Wait, say, wait_for_job}
use hermit_miner.Stratum.Codec.{StratumJob, parse_notify}
use hermit_miner.Stratum.Transport.Waiting.{
  Before, Hears, whole, silence, notified, notes, request_response-late,
}
use hermit_miner.Base.{ℕ, ◌≡◌, refl, true, none, some, List, [], ◌∷◌, ◌++◌, Bytes, codes, arith}
use hermit_miner.Base.Digits.{stoull, scan, span_digits, digit_value, digits, digit_char, to_radix}
use hermit_miner.Stratum.Client.Ids.{submit_share-true}
use hermit_miner.Stratum.Client.{Exchange, bump, submit_share}
use hermit_miner.Stratum.Codec.{
  json_escape, escape_char, nonce_to_hex, parse_message_id, parse_bool_result, subscribe_request,
  submit_request,
}
use hermit_miner.Stratum.Patterns.{
  search_for, strip_icase, digits_at, until_quote, id_at, truth_at, result_at,
}
use hermit_miner.Stratum.Transport.Carried.{FirstWith}
use hermit_miner.Stratum.Transport.Lines.{Delivers, Arrived, receive_line_split}
use hermit_miner.Stratum.Transport.Responses.{request_response-id}
use hermit_miner.Stratum.Transport.{
  Client, Poll, received, send_line, receive_line, request_response, send_loop, receive_loop,
  await_response,
}

abbrev pub client : Client
client = record { node_id = codes "CP-1"; next_id = 3; connected = true; wire = []; log = [] }

-- Each character arrives in a round of its own.
abbrev pub polls_of : Bytes → List Poll
polls_of [] = []
polls_of (c ∷ s) = received c ∷ polls_of s

pub delivers : (s : Bytes) → Delivers (polls_of s) s
delivers [] = Delivers.done
delivers (c ∷ s) = Delivers.byte c (delivers s)

arrives : (s : Bytes) → Arrived (polls_of s) s
arrives [] = Arrived.nothing
arrives (c ∷ s) = Arrived.byte c (arrives s)

-- Two bytes, and the last one in a second call.
sent : (send_line (2 ∷ 1 ∷ []) (codes "ab") client).1 ≡ true
unfolding send_line send_loop
sent = refl

receive_line_split_example :
    (receive_line (polls_of (codes "a")) client ≡ (client, none))
    × (receive_line (polls_of (98 ∷ 10 ∷ [])) client ≡ (client, some (codes "b")))
receive_line_split_example =
    receive_line_split (codes "a") (codes "b") client refl (grind arith) (grind arith) (omega arith)
      (omega arith) (arrives (codes "a")) (delivers (98 ∷ 10 ∷ []))

got_ab : (receive_line (polls_of (codes "ab" ++ 10 ∷ [])) client).1 ≡ some (codes "ab")
unfolding receive_line receive_loop
got_ab = refl

-- The socket is closed at once.
abbrev quiet : Exchange
quiet = record { sends = []; calls = [] }

-- The request is sent in one call, and the pool answers it.
abbrev answer : Bytes
answer = codes "{\"id\":3,\"result\":true}"

abbrev answered : Exchange
answered = record { sends = 1000 ∷ []; calls = polls_of (answer ++ 10 ∷ []) ∷ [] }

accepted : (submit_share answered (codes "user") (codes "job") 255 client).1 ≡ true
unfolding submit_share request_response await_response send_line send_loop receive_line receive_loop
    parse_message_id parse_bool_result submit_request json_escape escape_char nonce_to_hex
    search_for strip_icase digits_at until_quote id_at truth_at result_at stoull scan span_digits
    digit_value digits digit_char to_radix
accepted = refl

submit_share-true_example :
    (resp : Bytes) × FirstWith 3 (polls_of (answer ++ 10 ∷ []) ∷ []) resp
    × (parse_bool_result resp ≡ some true)
    × ((send_line (1000 ∷ []) (submit_request 3 (codes "user") (codes "job") 255) (bump client)).1
        ≡ true)
submit_share-true_example =
    submit_share-true answered (codes "user") (codes "job") 255 client (omega arith) accepted

responded :
    (request_response
      (1000 ∷ [])
      (polls_of (answer ++ 10 ∷ []) ∷ [])
      (subscribe_request 3 (codes "a"))
      client).1
    ≡ some answer
unfolding request_response await_response send_line send_loop receive_line receive_loop
    parse_message_id subscribe_request json_escape escape_char search_for strip_icase digits_at
    until_quote id_at stoull scan span_digits digit_value digits digit_char to_radix
responded = refl

request_response-id_example :
    (id : ℕ) × (parse_message_id (subscribe_request 3 (codes "a")) ≡ some id)
    × (parse_message_id answer ≡ some id)
    × ((send_line (1000 ∷ []) (subscribe_request 3 (codes "a")) client).1 ≡ true)
request_response-id_example =
    request_response-id (1000 ∷ []) (polls_of (answer ++ 10 ∷ []) ∷ [])
      (subscribe_request 3 (codes "a")) client answer responded

-- The line of a notification, and its job.
abbrev offered : Bytes
offered = codes "{\"method\":\"mining.notify\",\"params\":[\"j\",\"p\",20,true]}"

abbrev offered_job : StratumJob
offered_job = record {
  job_id = codes "j";
  prefix = codes "p";
  difficulty_bits = 20;
  clean_job = true;
}

offered_reads : (parse_message_id offered ≢ some 3) × (parse_notify offered ≡ some offered_job)
unfolding parse_message_id parse_notify search_for strip_icase digits_at until_quote id_at
    notify_method_at job_at stoull scan span_digits digit_value truth_at skip_space parse_u32
offered_reads = (λ e. cc, refl)

hears_offered : Hears (polls_of (offered ++ 10 ∷ [])) (some offered)
hears_offered = whole offered (grind arith) (omega arith) (delivers (offered ++ 10 ∷ []))

hears_nothing : Hears [] none
hears_nothing = silence Arrived.nothing tt (omega arith)

sent_agent : (send_line (1000 ∷ []) (subscribe_request 3 (codes "a")) client).1 ≡ true
unfolding send_line send_loop subscribe_request json_escape escape_char to_radix digits digit_char
sent_agent = refl

answer_reads :
    (parse_message_id (subscribe_request 3 (codes "a")) ≡ some 3)
    × (parse_message_id answer ≡ some 3)
unfolding parse_message_id subscribe_request json_escape escape_char search_for strip_icase
    digits_at until_quote id_at stoull scan span_digits digit_value digits digit_char to_radix
answer_reads = (refl, refl)

-- A notification and a call without a byte come before the answer.
request_response-late_example :
    request_response
      (1000 ∷ [])
      (polls_of (offered ++ 10 ∷ []) ∷ [] ∷ polls_of (answer ++ 10 ∷ []) ∷ [])
      (subscribe_request 3 (codes "a"))
      client
    ≡ (
      record client {
        wire = [] ++ (subscribe_request 3 (codes "a") ++ 10 ∷ []);
        log = [] ++ notes (codes "CP-1") (offered_job ∷ []);
      },
      some answer,
    )
request_response-late_example =
    request_response-late (1000 ∷ []) (polls_of (offered ++ 10 ∷ []) ∷ [] ∷ []) []
      (subscribe_request 3 (codes "a")) answer 3 client (offered_job ∷ [])
      (polls_of (answer ++ 10 ∷ [])) answer_reads.0 sent_agent
      (notified offered offered_job hears_offered offered_reads.0 offered_reads.1
        (Before.quiet hears_nothing Before.nothing))
      (whole answer (grind arith) (omega arith) (delivers (answer ++ 10 ∷ []))) answer_reads.1

abbrev idle_round : Wait
idle_round = record { stop_requested = false; polls = [] }

abbrev job_round : Wait
job_round = record { stop_requested = false; polls = polls_of (offered ++ 10 ∷ []) }

wait_for_job-first_example :
    wait_for_job (idle_round ∷ job_round ∷ idle_round ∷ []) client
    ≡ (say Event.info (codes "Received mining.notify") (codes "j") client, some offered_job)
wait_for_job-first_example =
    wait_for_job-first (more (Waits.silence refl hears_nothing) first) job_round (idle_round ∷ [])
      client offered offered_job refl refl hears_offered offered_reads.1
