-- ===== src/Tests/Runtime.antt =====
-- The loops over a pool that has a number of jobs left, accepts each share, and then is lost.
use hermit_miner.Base.{◌∷◌, Bytes}
use hermit_miner.Runtime.{MiningResult, SessionStats}
use hermit_miner.Runtime.Pool.{World, client_ops, client_ops_ends}
use hermit_miner.Stratum.Connect.{refused, new_client, connect_to_pool, try_addresses}
use hermit_miner.Base.{◌==◌, ◌≤◌}
use hermit_miner.Runtime.Loop.Ends.{Bounded, run_stratum_loop_ends}
use hermit_miner.Runtime.Health.{Doubles, compute_accepted_per_min}
use hermit_miner.Runtime.Health.Snapshot.{SameCounts, snapshot-cancel}
use hermit_miner.Base.{Bytes, ◌/◌, ltb}
use hermit_miner.Base.Digits.{to_decimal}
use hermit_miner.Base.{
  ℕ, zero, suc, ◌<◌, ◌≡◌, ◌≢◌, ◌^◌, inr, refl, true, false, Option, none, some, [], codes, arith,
}
use hermit_miner.Config.{MinerConfig, default_config}
use hermit_miner.Runtime.Loop.Backoff.{next_backoff-wraps}
use hermit_miner.Runtime.Loop.Limits.{Ended, run_stratum_loop-Good, run_stratum_loop-Ended}
use hermit_miner.Runtime.Loop.{run_stratum_loop, next_backoff, loop_round, failed}
use hermit_miner.Runtime.Repeat.{repeat}
use hermit_miner.Runtime.Session.Counts.{Good}
use hermit_miner.Runtime.Session.Ends.{Supply}
use hermit_miner.Runtime.Session.{
  run_stratum_session, start_stratum_session, session_round, waited, mined, submitted,
}
use hermit_miner.Runtime.{Ops, Progress, no_stats}
use hermit_miner.Stratum.Codec.{StratumJob}

abbrev job : StratumJob
job = record { job_id = codes "j"; prefix = []; difficulty_bits = 0; clean_job = true }

-- The world is the number of jobs that are left.
abbrev take_job : ℕ → Option StratumJob × ℕ
take_job zero = (none, zero)
take_job (suc n) = (some job, n)

abbrev pool : Ops ℕ
pool = record {
  new_client = λ w. w;
  connect_to_pool = λ w. (true, w);
  subscribe = λ _ w. (true, w);
  authorize = λ _ _ w. (true, w);
  wait_for_job = λ _ w. take_job w;
  submit_share = λ _ _ _ w. (true, w);
  mine =
      λ _ w. (record { found = true; aborted = false; nonce = 0; hash = []; hashes_tried = 1 }, w);
  stop_requested = λ w. (false, w);
  sleep_for = λ _ w. w;
  log = λ _ w. w;
  write_health_snapshot = λ _ _ w. w;
}

taken : (w : ℕ) → (take_job w).0 ≢ none → (take_job w).1 < w
taken zero h = absurd (h refl)
taken (suc n) h = omega arith

taken_keeps : (w : ℕ) → (take_job w).1 ≤ w
taken_keeps zero = omega arith
taken_keeps (suc n) = omega arith

pool-Supply : Supply pool (λ w. w)
pool-Supply = record {
  new_client_keeps = λ w. omega arith;
  connect_keeps = λ w. omega arith;
  subscribe_keeps = λ _ w. omega arith;
  authorize_keeps = λ _ _ w. omega arith;
  job_taken = λ _ w. taken w;
  submit_keeps = λ _ _ _ w. omega arith;
  mine_keeps = λ _ w. omega arith;
  stop_keeps = λ w. omega arith;
  log_keeps = λ _ w. omega arith;
  health_keeps = λ _ _ w. omega arith;
}

-- Two sessions may fail.
abbrev two_attempts : MinerConfig
two_attempts = record (default_config 4) { pool_max_reconnect_attempts = 2; pool_max_cycles = 9 }

abbrev begin : Progress ℕ
begin = record { world = 3; cycles_done = 0; stats = no_stats }

begin-Good : Good pool two_attempts begin
begin-Good = (
  record { attempted = refl; outcomes = refl; cycles = refl; failures = refl },
  inr (omega arith),
)

session_lost : (run_stratum_session pool two_attempts 4 begin).0 ≡ some 6
unfolding run_stratum_session start_stratum_session session_round waited mined submitted repeat
session_lost = refl

-- The same pool, with a stop request when no job is left.
abbrev quitting : Ops ℕ
quitting = record pool { stop_requested = λ w. (w == 0, w) }

quitting-Bounded : Bounded quitting (λ w. w) (λ w. w ≡ 0)
quitting-Bounded = record {
  supply = record {
    new_client_keeps = λ w. omega arith;
    connect_keeps = λ w. omega arith;
    subscribe_keeps = λ _ w. omega arith;
    authorize_keeps = λ _ _ w. omega arith;
    job_taken = λ _ w. taken w;
    submit_keeps = λ _ _ _ w. omega arith;
    mine_keeps = λ _ w. omega arith;
    stop_keeps = λ w. omega arith;
    log_keeps = λ _ w. omega arith;
    health_keeps = λ _ _ w. omega arith;
  };
  wait_keeps = λ _ w. taken_keeps w;
  sleep_keeps = λ _ w. omega arith;
  latch = record {
    seen = λ w e. ground arith;
    shown = λ w e. ground arith;
    logged = λ _ w e. e;
    aborted = λ _ w e. absurd (cc);
  };
}

run_stratum_loop_ends_example : (run_stratum_loop quitting two_attempts 3 5 3).0 ≢ none
run_stratum_loop_ends_example =
    run_stratum_loop_ends quitting two_attempts (λ w. w) (λ w. w ≡ 0) quitting-Bounded 3 5 3
      (omega arith) (omega arith) (omega arith) (omega arith)

run_stratum_loop-Good_example :
    Good pool two_attempts (run_stratum_loop pool two_attempts 3 5 3).1.progress
run_stratum_loop-Good_example = run_stratum_loop-Good pool two_attempts (omega arith) 3 5 3

loop_lost : (run_stratum_loop pool two_attempts 3 5 3).0 ≡ some 6
unfolding run_stratum_loop loop_round failed run_stratum_session start_stratum_session session_round
    waited mined submitted repeat
loop_lost = refl

run_stratum_loop-Ended_example :
    Ended pool two_attempts 6 (run_stratum_loop pool two_attempts 3 5 3).1
run_stratum_loop-Ended_example = run_stratum_loop-Ended pool two_attempts 3 5 3 6 loop_lost

next_backoff-wraps_example : next_backoff two_attempts (2 ^ 31) < 2 ^ 31
next_backoff-wraps_example = next_backoff-wraps two_attempts (2 ^ 31) (omega arith) (omega arith)

-- A rate that is printed as a whole number.
-- Whole numbers for doubles.
abbrev whole : Doubles
whole = record {
  Double = ℕ;
  of_uint = λ n. n;
  divide = λ a b. a / b;
  is_positive = λ a. ltb 0 a;
  fixed_two = to_decimal;
}

-- Four accepted shares in two minutes, and in no time.
rates :
    (compute_accepted_per_min whole (record no_stats { accepted_count = 4 }) 120 ≡ 2)
    × (compute_accepted_per_min whole (record no_stats { accepted_count = 4 }) 0 ≡ 4)
unfolding compute_accepted_per_min
rates = (refl, refl)

snapshot-cancel_example :
    (codes "CP-1" ≡ codes "CP-1")
    × ((codes "ready" ≡ codes "ready")
        × (SameCounts no_stats no_stats × ((◌≡◌ {A = ℕ} 5 5) × (codes "none" ≡ codes "none"))))
snapshot-cancel_example =
    snapshot-cancel whole (codes "CP-1") (codes "CP-1") (codes "ready") (codes "ready") no_stats
      no_stats 5 5 refl

-- A pool that is never reached.
abbrev unreachable : World
unreachable = record {
  client = new_client (codes "CP-1");
  outputs = record { health = none; events = [] };
  connects = (refused ∷ []) ∷ [] ∷ [];
  exchanges = [];
  waits = [];
  loads_left = 9;
}

abbrev finds_none : MinerConfig → World → MiningResult
finds_none cfg w = record { found = false; aborted = false; nonce = 0; hash = []; hashes_tried = 0 }

abbrev blank_rate : SessionStats → ℕ → Bytes
blank_rate stats duration_sec = []

abbrev unreached : Ops World
unreached = client_ops two_attempts finds_none (λ w. 0) blank_rate (λ w. true)

unreached_ends : (run_stratum_loop unreached two_attempts 3 1 unreachable).0 ≡ some 4
unfolding run_stratum_loop loop_round failed run_stratum_session start_stratum_session repeat
    connect_to_pool try_addresses
unreached_ends = refl

client_ops_ends_example : (run_stratum_loop unreached two_attempts 3 1 unreachable).0 ≢ none
client_ops_ends_example =
    client_ops_ends two_attempts finds_none (λ w. 0) blank_rate (λ w. true) 3 1 unreachable
      (omega arith) (omega arith) (omega arith) (omega arith)
