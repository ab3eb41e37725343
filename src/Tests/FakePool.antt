-- ===== src/Tests/FakePool.antt =====
-- The pool and the client, on small conversations.
use hermit_miner.Base.{◌≤◌, ◌⊎◌, false}
use hermit_miner.Logger.Event
use hermit_miner.FakePool.Jobs.{pool_job, wait_for_job-pool}
use hermit_miner.FakePool.Port.{ℤ, pos, negsuc, chosen_port, chosen_port-range}
use hermit_miner.Stratum.Client.Waiting.{first, more, Waits}
use hermit_miner.Stratum.Client.{Wait, say, wait_for_job}
use hermit_miner.FakePool.Start.{authorize-pool}
use hermit_miner.Stratum.Client.{authorize}
use hermit_miner.Base.{◌≡◌, ap, refl, true, some, [], ◌∷◌, ◌++◌, Bytes, codes, arith, ◌==◌}
use hermit_miner.FakePool.Conversation.{submit_share-pool, serve-conversation}
use hermit_miner.FakePool.Replies.{handle-request}
use hermit_miner.FakePool.Serve.{pool_main_ends}
use hermit_miner.FakePool.{
  pool_start, handle, serve, json_resp, notify_line, subscribe_result, authorize_reply,
  submit_reply, send_line_loop, pool_send_line, pool_receive_line, parse_id, Setup, Shutdown,
  pool_main, server_fd, client_fd,
}
use hermit_miner.Stratum.Client.{bump, submit_share}
use hermit_miner.Stratum.Codec.{
  subscribe_request, authorize_request, submit_request, json_escape, escape_char, nonce_to_hex,
}
use hermit_miner.Stratum.Patterns.{search_for, id_at}
use hermit_miner.Base.Digits.{to_radix, digits, digit_char}
use hermit_miner.Stratum.Transport.Lines.{Arrived}
use hermit_miner.Stratum.Transport.Waiting.{Before, quiet, silence}
use hermit_miner.Stratum.Transport.{send_line, send_loop}
use hermit_miner.Tests.Stratum.{client, polls_of, delivers}

-- A send in two calls, and one that fails.
sends : pool_send_line (2 ∷ 1 ∷ []) (codes "ab") ≡ (codes "ab\n", true)
unfolding pool_send_line send_line_loop
sends = refl

-- A carriage return is passed over.
reads : pool_receive_line [] (codes "a\r\nb") ≡ some (codes "a", codes "b")
unfolding pool_receive_line
reads = refl

-- A method that the pool does not know.
unknown :
    handle pool_start (codes "{}")
    ≡ (pool_start, json_resp 0 (codes "false") (codes "[20,\"unknown method\",null]") ∷ [])
unfolding handle parse_id search_for id_at
unknown = refl

abbrev ready : Setup
ready = record { created = true; bound = true; listening = true; accepted = true }

pool_main_ends_example :
    (end : Shutdown) × (pool_main ready 4 (codes "a\nb") ≡ some end)
    × ((end.code == 0) ≡ true)
    × (end.closed ≡ client_fd ∷ server_fd ∷ [])
pool_main_ends_example = pool_main_ends ready 4 (codes "a\nb") (omega arith)

serve-conversation_example :
    serve 4 pool_start (
      subscribe_request 1 (codes "agent")
      ++ b'\n'
        ∷ (authorize_request 2 (codes "u") (codes "x")
            ++ b'\n' ∷ (submit_request 3 (codes "u") (codes "job-1") 255 ++ b'\n' ∷ [])))
    ≡ (
      true,
      record { notified = true; job_seq = 2 },
      json_resp 1 subscribe_result (codes "null")
          ∷ json_resp 2 (codes "true") (codes "null")
          ∷ notify_line 1
          ∷ json_resp 3 (codes "true") (codes "null")
          ∷ notify_line 2
          ∷ [],
    )
serve-conversation_example =
    serve-conversation 1 2 3 (codes "agent") (codes "u") (codes "x") (codes "job-1") 255
      (omega arith) (omega arith) (omega arith)

-- The request is sent in one call.
sent :
    (send_line (68 ∷ []) (submit_request 3 (codes "u") (codes "job-1") 255) (bump client)).1 ≡ true
unfolding send_line send_loop submit_request json_escape escape_char nonce_to_hex to_radix digits
    digit_char
sent = refl

answer :
    (handle pool_start (submit_request 3 (codes "u") (codes "job-1") 255)).1
    ≡ json_resp 3 (codes "true") (codes "null") ∷ notify_line 2 ∷ []
answer =
    ap (λ r. r.1)
      (handle-request pool_start 3 (codes "agent") (codes "u") (codes "x") (codes "job-1") 255
        (omega arith)).2

abbrev reply : Bytes
reply = json_resp 3 (codes "true") (codes "null") ++ b'\n' ∷ []

submit_share-pool_example :
    (submit_share
      (record { sends = 68 ∷ []; calls = [] ∷ polls_of reply ∷ [] })
      (codes "u")
      (codes "job-1")
      255
      client).1
    ≡ true
submit_share-pool_example =
    submit_share-pool pool_start client (codes "u") (codes "job-1") 255 (68 ∷ []) (polls_of reply)
      [] (json_resp 3 (codes "true") (codes "null")) (notify_line 2 ∷ []) (omega arith) sent answer
      (quiet (silence Arrived.nothing tt (omega arith)) Before.nothing) (delivers reply)

subscribe_sent : (send_line (56 ∷ []) (subscribe_request 3 (codes "agent")) (bump client)).1 ≡ true
unfolding send_line send_loop subscribe_request json_escape escape_char to_radix digits digit_char
subscribe_sent = refl

authorize_sent :
    (send_line (56 ∷ []) (authorize_request 3 (codes "u") (codes "x")) (bump client)).1 ≡ true
unfolding send_line send_loop authorize_request json_escape escape_char to_radix digits digit_char
authorize_sent = refl

answers :
    (handle pool_start (subscribe_request 3 (codes "agent"))
      ≡ (pool_start, json_resp 3 subscribe_result (codes "null") ∷ []))
    × (handle pool_start (authorize_request 3 (codes "u") (codes "x"))
        ≡ authorize_reply pool_start 3)
    × (handle pool_start (submit_request 3 (codes "u") (codes "job-1") 255)
        ≡ submit_reply pool_start 3)
answers =
    handle-request pool_start 3 (codes "agent") (codes "u") (codes "x") (codes "job-1") 255
      (omega arith)

abbrev subscribed_reply : Bytes
subscribed_reply = json_resp 3 subscribe_result (codes "null") ++ b'\n' ∷ []

authorize-pool_example :
    (authorize
      (record { sends = 56 ∷ []; calls = polls_of reply ∷ [] })
      (codes "u")
      (codes "x")
      client).1
    ≡ true
authorize-pool_example =
    authorize-pool pool_start client (codes "u") (codes "x") (56 ∷ []) (polls_of reply) []
      (json_resp 3 (codes "true") (codes "null")) (notify_line 1 ∷ []) (omega arith) authorize_sent
      (ap (λ r. r.1) answers.1) Before.nothing (delivers reply)

abbrev idle_round : Wait
idle_round = record { stop_requested = false; polls = [] }

abbrev job_round : Wait
job_round = record { stop_requested = false; polls = polls_of (notify_line 7 ++ 10 ∷ []) }

wait_for_job-pool_example :
    wait_for_job (idle_round ∷ job_round ∷ []) client
    ≡ (say Event.info (codes "Received mining.notify") (codes "job-7") client, some (pool_job 7))
unfolding to_radix digits digit_char
wait_for_job-pool_example =
    wait_for_job-pool 7 client {before = idle_round ∷ []} job_round [] (omega arith) refl
      (more (Waits.silence refl (silence Arrived.nothing tt (omega arith))) first) refl
      (delivers (notify_line 7 ++ 10 ∷ []))

-- An argument that is read as -1.
abbrev minus_one : Bytes → ℤ
minus_one = λ _. negsuc 0

chosen_port-range_example :
    (1 ≤ chosen_port minus_one (some (codes "-1")))
    × (chosen_port minus_one (some (codes "-1")) ≤ 65535)
    × ((chosen_port minus_one (some (codes "-1")) ≡ 3333)
        ⊎ ((arg : Bytes) × (some (codes "-1") ≡ some arg)
            × (minus_one arg ≡ pos (chosen_port minus_one (some (codes "-1"))))))
chosen_port-range_example = chosen_port-range minus_one (some (codes "-1"))
