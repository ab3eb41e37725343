-- ===== src/Tests/Pool.antt =====
-- The loop over the client of Stratum, with a search of one thread that tries one nonce.
use hermit_miner.Base.{
  ℕ, zero, suc, ◌<◌, ◌≡◌, refl, true, false, List, [], ◌∷◌, ◌++◌, none, Bytes, codes, arith,
  replicate,
}
use hermit_miner.Config.{MinerConfig, default_config, pool_username}
use hermit_miner.FakePool.{json_resp, subscribe_result}
use hermit_miner.Mine.Reach.{Reachable, start, after}
use hermit_miner.Mine.Result.{Outcome}
use hermit_miner.Mine.{
  State, Shared, Pc, passes, payload, initial, update, worker, waiter, unrequested, unstopped, hit,
  won, stored, left, sees_stop, joins, loading, hashing, exchanging, storing, leaving, finished,
  returned,
}
use hermit_miner.Runtime.Pool.Traffic.{Traffic}
use hermit_miner.Runtime.Pool.{World, client_ops}
use hermit_miner.Runtime.{MiningResult, SessionStats, compute_readiness_status}
use hermit_miner.Stratum.Connect.{reached, new_client}
use hermit_miner.Stratum.Transport.{Poll}
use hermit_miner.Tests.Stratum.{polls_of}
use hermit_miner.Stratum.Codec.{
  authorize_request, escape_char, json_escape, nonce_to_hex, parse_bool_result, parse_error_is_null,
  parse_message_id, parse_notify, parse_u32, submit_request, subscribe_request,
}
use hermit_miner.Stratum.Patterns.{
  digits_at, id_at, job_at, notify_method_at, null_error_at, result_at, search_for, strip_icase,
  truth_at, until_quote,
}
use hermit_miner.Base.Digits.{
  digit_char, digit_value, digits, scan, skip_space, span_digits, stoull, to_radix,
}
use hermit_miner.Runtime.Loop.{run_stratum_loop, failed, loop_round, next_backoff}
use hermit_miner.Runtime.Session.{
  mined, run_stratum_session, session_round, start_stratum_session, submitted, waited,
}
use hermit_miner.Stratum.Transport.{
  await_response, receive_line, receive_loop, request_response, send_line, send_loop,
}
use hermit_miner.Runtime.Repeat.{repeat}
use hermit_miner.Stratum.Connect.{connect_to_pool, try_addresses}
use hermit_miner.Stratum.Client.{authorize, submit_share, subscribe, wait_for_job}
use hermit_miner.Job.{meets_difficulty}
use hermit_miner.Sha256.{
  double_sha256, sha256, big_sigma0, big_sigma1, blocks, ch, copy_into, digest_bytes, extend_words,
  load_word, load_words, maj, next_word, pad, put_length, rotr, round, rounds, schedule,
  small_sigma0, small_sigma1, total_len,
}
use native.Mathlib.Decide.{ℕ_discrete}

abbrev at_pc : State → Shared → Pc → State
at_pc x s p = record x { shared = s; pc = update x.pc 0 p }

abbrev hit_shared : Bytes → Shared
hit_shared prefix = record initial.shared {
  stop = true;
  found = true;
  hash = double_sha256 (payload prefix 0);
  total_hashes = 1;
}

abbrev pub found_result : Bytes → MiningResult
found_result prefix = record {
  found = true;
  aborted = false;
  nonce = 0;
  hash = double_sha256 (payload prefix 0);
  hashes_tried = 1;
}

abbrev aborted_result : MiningResult
aborted_result = record { found = false; aborted = true; nonce = 0; hash = []; hashes_tried = 0 }

pub alone : (pc : ℕ → Pc) → pc 0 ≡ finished → (i : ℕ) → i < 1 → pc i ≡ finished
alone pc e zero lt = e
alone pc e (suc i) lt = absurd (omega arith)

abbrev stopping : Shared
stopping = record initial.shared { stop = true }

abbrev hit_state : Bytes → State
hit_state prefix =
    at_pc
      (at_pc
        (at_pc
          (at_pc (at_pc (at_pc initial initial.shared (loading 0 0)) initial.shared (hashing 0 0))
            initial.shared (exchanging 0 1))
          stopping (storing 0 1))
        (record stopping { found = true; hash = double_sha256 (payload prefix 0) }) (leaving 1))
      (hit_shared prefix) finished

pub hit_run :
    (prefix : Bytes) (bits : ℕ)
    → passes 1 prefix bits 0 ≡ true
    → Reachable 1 prefix bits (hit_state prefix)
unfolding ℕ_discrete
hit_run prefix bits ok =
    after
      (after
        (after
          (after
            (after (after start (worker 0 (omega arith) (unrequested (omega arith) refl)))
              (worker 0 (omega arith) (unstopped refl)))
            (worker 0 (omega arith) (hit ok)))
          (worker 0 (omega arith) (won refl)))
        (worker 0 (omega arith) stored))
      (worker 0 (omega arith) left)

unfoldable pub found-Outcome :
    (prefix : Bytes) (bits : ℕ)
    → passes 1 prefix bits 0 ≡ true
    → Outcome 1 prefix bits (found_result prefix)
unfolding ℕ_discrete
found-Outcome prefix bits ok = record {
  state = record (hit_state prefix) { main = returned };
  reaches =
      after (after (hit_run prefix bits ok) (waiter (sees_stop refl)))
        (waiter (joins (alone (hit_state prefix).pc refl)));
  ended = refl;
  gives = refl;
}

abbrev quit_shared : Shared
quit_shared = record initial.shared { stop_requested = true }

abbrev quit_state : State
quit_state =
    at_pc (at_pc (record initial { shared = quit_shared }) quit_shared (leaving 0)) quit_shared
      finished

-- Nonce 0 is found, if it passes; else the search is aborted.
abbrev one_try : MinerConfig → World → MiningResult
one_try cfg w = elim (passes 1 cfg.prefix cfg.difficulty_bits 0) [
  | true ↦ found_result cfg.prefix
  | false ↦ aborted_result
]

abbrev lone : MinerConfig
lone = record (default_config 1) { pool_max_reconnect_attempts = 1; thread_count = 1 }

abbrev blank_rate : SessionStats → ℕ → Bytes
blank_rate stats duration_sec = []

-- The pool accepts the client, sends a job of difficulty 0 and accepts the share.
abbrev answered : Bytes → List Poll
answered line = polls_of (line ++ b'\n' ∷ [])

abbrev byte_by_byte : List ℕ
byte_by_byte = replicate 200 1

abbrev one_job : World
one_job = record {
  client = new_client (codes "CP-1");
  outputs = record { health = none; events = [] };
  connects = (reached ∷ []) ∷ [];
  exchanges =
      record {
        sends = byte_by_byte;
        calls = answered (json_resp 1 subscribe_result (codes "null")) ∷ [];
      }
      ∷ record {
        sends = byte_by_byte;
        calls = answered (json_resp 2 (codes "true") (codes "null")) ∷ [];
      }
      ∷ record {
        sends = byte_by_byte;
        calls = answered (json_resp 3 (codes "true") (codes "null")) ∷ [];
      }
      ∷ [];
  waits =
      (record {
        stop_requested = false;
        polls = answered (codes "{\"method\":\"mining.notify\",\"params\":[\"j\",\"p\",0,true]}");
      }
        ∷ [])
      ∷ [];
  loads_left = 9;
}

-- The loop submits the share, and the pool accepts it.
one_share :
    (run_stratum_loop
      (client_ops lone one_try (λ w. 0) blank_rate (λ w. true))
      lone
      3
      5
      one_job).1.progress.stats.accepted_count
    ≡ 1
unfolding run_stratum_loop parse_message_id search_for subscribe_request id_at skip_space digits_at
    span_digits to_radix digits digit_char digit_value scan stoull pool_username failed next_backoff
    mined session_round submitted waited compute_readiness_status escape_char json_escape
    parse_error_is_null parse_notify parse_u32 job_at notify_method_at null_error_at strip_icase
    truth_at until_quote await_response receive_line receive_loop send_line send_loop repeat
    loop_round run_stratum_session start_stratum_session connect_to_pool try_addresses subscribe
    request_response authorize authorize_request parse_bool_result result_at wait_for_job
    meets_difficulty big_sigma0 big_sigma1 blocks ch copy_into digest_bytes extend_words load_word
    load_words maj next_word pad put_length rotr round rounds schedule small_sigma0 small_sigma1
    total_len submit_share submit_request nonce_to_hex json_resp passes double_sha256 sha256
one_share = refl
