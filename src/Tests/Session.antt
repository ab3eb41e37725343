-- ===== src/Tests/Session.antt =====
-- A loop of one cycle against the pool.
use hermit_miner.Base.Digits.{to_radix, digits, digit_char}
use hermit_miner.Base.{ℕ, ◌≡◌, refl, true, false, [], ◌∷◌, ◌++◌, none, Bytes, codes}
use hermit_miner.Config.{MinerConfig, default_config, pool_username}
use hermit_miner.FakePool.Cycle.{conversation}
use hermit_miner.FakePool.Loop.{progress_of, run_stratum_loop-pool}
use hermit_miner.Runtime.Pool.Rounds.{EndsAt}
use hermit_miner.FakePool.Jobs.{pool_job}
use hermit_miner.FakePool.Session.{Served}
use hermit_miner.FakePool.{pool_start, serve, json_resp, notify_line, subscribe_result}
use hermit_miner.Runtime.Pool.{World, client_ops}
use hermit_miner.Runtime.Session.Cycle.{credited}
use hermit_miner.Runtime.Loop.{run_stratum_loop}
use hermit_miner.Runtime.{MiningResult, SessionStats, no_stats}
use hermit_miner.Stratum.Client.Waiting.{first}
use hermit_miner.Stratum.Client.{Exchange, Wait}
use hermit_miner.Stratum.Codec.{
  subscribe_request, authorize_request, submit_request, json_escape, escape_char, nonce_to_hex,
}
use hermit_miner.Stratum.Connect.{no_socket, refused, reached, new_client, try_addresses}
use hermit_miner.Stratum.Transport.Waiting.{Before}
use hermit_miner.Stratum.Transport.{Client, send_line, send_loop}
use hermit_miner.Tests.Stratum.{polls_of, delivers}

abbrev one_cycle : MinerConfig
one_cycle = record (default_config 1) { pool_max_cycles = 1; pool_password = codes "x" }

-- The nonce 7 at the first try.
abbrev finds_seven : MinerConfig → World → MiningResult
finds_seven cfg w = record { found = true; aborted = false; nonce = 7; hash = []; hashes_tried = 8 }

abbrev blank_rate : SessionStats → ℕ → Bytes
blank_rate stats duration_sec = []

-- A request sent in one call, and its reply.
abbrev answered : Bytes → Exchange
answered reply = record { sends = 1000 ∷ []; calls = polls_of (reply ++ 10 ∷ []) ∷ [] }

abbrev job_round : Wait
job_round = record { stop_requested = false; polls = polls_of (notify_line 1 ++ 10 ∷ []) }

abbrev meeting : World
meeting = record {
  client = new_client (codes "CP-1");
  outputs = record { health = none; events = [] };
  connects = (no_socket ∷ refused ∷ reached ∷ []) ∷ [];
  exchanges =
      answered (json_resp 1 subscribe_result (codes "null"))
      ∷ answered (json_resp 2 (codes "true") (codes "null"))
      ∷ answered (json_resp 3 (codes "true") (codes "null"))
      ∷ [];
  waits = (job_round ∷ []) ∷ [];
  loads_left = 2;
}

served :
    (request reply : Bytes) (id : ℕ)
    → ((c : Client) → c.connected ≡ true → (send_line (1000 ∷ []) request c).1 ≡ true)
    → Served request reply id (answered reply)
served request reply id sends = record {
  sent = sends;
  before = [];
  jobs = [];
  last = _;
  after = [];
  script = refl;
  early = Before.nothing;
  late = delivers (reply ++ 10 ∷ []);
}

sends_subscription :
    (c : Client)
    → c.connected ≡ true
    → (send_line (1000 ∷ []) (subscribe_request 1 (codes "hermit_miner/stratum-offline-ready")) c).1
      ≡ true
unfolding send_line send_loop subscribe_request json_escape escape_char to_radix digits digit_char
sends_subscription c on = simp on refl

sends_authorization :
    (c : Client)
    → c.connected ≡ true
    → (send_line (1000 ∷ []) (authorize_request 2 (pool_username one_cycle) (codes "x")) c).1 ≡ true
unfolding send_line send_loop pool_username authorize_request json_escape escape_char to_radix
    digits digit_char
sends_authorization c on = simp on refl

sends_share :
    (c : Client)
    → c.connected ≡ true
    → (send_line (1000 ∷ []) (submit_request 3 (pool_username one_cycle) (pool_job 1).job_id 7) c).1
      ≡ true
unfolding send_line send_loop pool_username submit_request nonce_to_hex json_escape escape_char
    to_radix digits digit_char
sends_share c on = simp on refl

reaches_one : (try_addresses (no_socket ∷ refused ∷ reached ∷ [])).reached_one ≡ true
unfolding try_addresses
reaches_one = refl

run_stratum_loop-pool_example :
    EndsAt (credited (pool_job 1) no_stats) 1 (conversation one_cycle 7) (
      progress_of (
        run_stratum_loop
          (client_ops one_cycle finds_seven (λ w. 0) blank_rate (λ w. true))
          one_cycle
          2
          2
          meeting))
    × (serve 4 pool_start (conversation one_cycle 7) ≡ (
      true,
      record { notified = true; job_seq = 2 },
      json_resp 1 subscribe_result (codes "null")
          ∷ json_resp 2 (codes "true") (codes "null")
          ∷ notify_line 1
          ∷ json_resp 3 (codes "true") (codes "null")
          ∷ notify_line 2
          ∷ [],
    ))
run_stratum_loop-pool_example =
    run_stratum_loop-pool one_cycle finds_seven (λ w. 0) blank_rate (λ w. true) 0 0 0 7
      (new_client (codes "CP-1")) (record { health = none; events = [] })
      (no_socket ∷ refused ∷ reached ∷ []) [] _ _ _ [] job_round [] [] refl reaches_one
      (served _ (json_resp 1 subscribe_result (codes "null")) 1 sends_subscription)
      (served _ (json_resp 2 (codes "true") (codes "null")) 2 sends_authorization) first refl
      (delivers (notify_line 1 ++ 10 ∷ [])) (λ w. (refl, refl, refl))
      (served _ (json_resp 3 (codes "true") (codes "null")) 3 sends_share)
