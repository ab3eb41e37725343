-- ===== src/Runtime/Pool.antt =====
-- The loops of src/lib/miner_runtime.cpp over the client of src/lib/stratum.cpp. The world holds the
-- client and the scripts of what is still to come: of each call of `connect_to_pool`, of each request,
-- of each wait for a job, and the number of loads of `stop_requested` before the signal. What the
-- search finds, the clock, the printed rate and whether the health file opens are functions.
pub mod Rounds
pub mod Traffic
use hermit_miner.Base.{
  ℕ, zero, suc, ◌^◌, ◌≤◌, ◌<◌, ◌≡◌, ◌≢◌, refl, Bool, Bool-cases, inl, inr, true, false, List, [],
  ◌∷◌, none, Bytes, arith, length, u16,
}
use hermit_miner.Config.{MinerConfig}
use hermit_miner.Runtime.Health.{Outputs, write_health_snapshot}
use hermit_miner.Runtime.Loop.Ends.{Bounded, run_stratum_loop_ends}
use hermit_miner.Runtime.Loop.{run_stratum_loop}
use hermit_miner.Runtime.{Ops, MiningResult, SessionStats}
use hermit_miner.Stratum.Client as Client
use hermit_miner.Stratum.Client.{Exchange, Wait}
use hermit_miner.Stratum.Connect.{Address, connect_to_pool, new_client}
use hermit_miner.Stratum.Transport.{with_log}
use hermit_miner.Stratum.Transport as Transport

pub record World : Type 0 where
  pub client : Transport.Client
  pub outputs : Outputs
  pub connects : List (List Address)
  pub exchanges : List Exchange
  pub waits : List (List Wait)
  pub loads_left : ℕ

-- The scripts of the next calls; behind their end nothing answers.
abbrev next_connect : List (List Address) → List Address × List (List Address)
next_connect [] = ([], [])
next_connect (x ∷ xs) = (x, xs)

abbrev next_exchange : List Exchange → Exchange × List Exchange
next_exchange [] = (record { sends = []; calls = [] }, [])
next_exchange (x ∷ xs) = (x, xs)

abbrev next_waits : List (List Wait) → List Wait × List (List Wait)
next_waits [] = ([], [])
next_waits (x ∷ xs) = (x, xs)

-- A request of the client over the next script.
abbrev requested : (Exchange → Transport.Client → Transport.Client × Bool) → World → Bool × World
requested operation w =
    let (x, later) = next_exchange w.exchanges in
    let (client, result) = operation x w.client in
    (result, record w { client = client; exchanges = later })

abbrev load_stop : World → ℕ → Bool × World
load_stop w zero = (true, w)
load_stop w (suc n) = (false, record w { loads_left = n })

-- An aborted search has seen the signal.
abbrev run_search : World → MiningResult → MiningResult × World
run_search w result =
    (result, elim (result.aborted) [ true ↦ record w { loads_left = 0 } | false ↦ w ])

module _ (cfg : MinerConfig) (search : MinerConfig → World → MiningResult) (clock : World → ℕ)
    (rate : SessionStats → ℕ → Bytes) (opens : World → Bool) where
  abbrev pub client_ops : Ops World
  client_ops = record {
    new_client = λ w. record w { client = record (new_client cfg.node_id) { log = w.client.log } };
    connect_to_pool = λ w.
        let (addrs, later) = next_connect w.connects in
        let (client, result) = connect_to_pool cfg.pool_host (u16 cfg.pool_port) addrs w.client in
        (result, record w { client = client; connects = later });
    subscribe = λ agent. requested (λ x. Client.subscribe x agent);
    authorize = λ user password. requested (λ x. Client.authorize x user password);
    wait_for_job = λ _ w.
        let (script, later) = next_waits w.waits in
        let (client, job) = Client.wait_for_job script w.client in
        (job, record w { client = client; waits = later });
    submit_share = λ user job nonce. requested (λ x. Client.submit_share x user job nonce);
    mine = λ mining_cfg w. run_search w (search mining_cfg w);
    stop_requested = λ w. load_stop w w.loads_left;
    sleep_for = λ _ w. w;
    log = λ event w. record w { client = with_log w.client event };
    write_health_snapshot = λ stats status w. record w {
      outputs =
          write_health_snapshot cfg stats status (clock w) (rate stats (clock w)) (opens w)
            w.outputs;
    };
  }

  abbrev jobs_left : World → ℕ
  jobs_left w = length w.waits

  stop_keeps : (w : World) (n : ℕ) → jobs_left (load_stop w n).1 ≤ jobs_left w
  stop_keeps w zero = omega arith
  stop_keeps w (suc n) = omega arith

  search_keeps :
      (w : World) (result : MiningResult) → jobs_left (run_search w result).1 ≤ jobs_left w
  search_keeps w result = elim (Bool-cases (result.aborted)) [
    | inl a ↦ rw (a, run_search) (omega arith)
    | inr a ↦ rw (a, run_search) (omega arith)
  ]

  job_taken :
      (waits : List (List Wait)) (client : Transport.Client)
      → (Client.wait_for_job (next_waits waits).0 client).1 ≢ none
      → length (next_waits waits).1 < length waits
  unfolding Client.wait_for_job
  job_taken [] client got = absurd (got refl)
  job_taken (x ∷ xs) client got = omega arith

  waits_kept : (waits : List (List Wait)) → length (next_waits waits).1 ≤ length waits
  waits_kept [] = omega arith
  waits_kept (x ∷ xs) = omega arith

  load_stopped :
      (w : World) (n : ℕ)
      → w.loads_left ≡ n
      → (load_stop w n).0 ≡ true
      → (load_stop w n).1.loads_left ≡ 0
  load_stopped w zero same e = same
  load_stopped w (suc n) same e = absurd (cc)

  search_stopped :
      (w : World) (result : MiningResult)
      → (run_search w result).0.aborted ≡ true
      → (run_search w result).1.loads_left ≡ 0
  search_stopped w result a = rw (a, run_search) refl

  client_ops-Bounded : Bounded client_ops jobs_left (λ w. w.loads_left ≡ 0)
  client_ops-Bounded = record {
    supply = record {
      new_client_keeps = λ w. omega arith;
      connect_keeps = λ w. omega arith;
      subscribe_keeps = λ agent w. omega arith;
      authorize_keeps = λ user password w. omega arith;
      job_taken = λ _ w got. job_taken w.waits w.client got;
      submit_keeps = λ user job nonce w. omega arith;
      mine_keeps = λ mining_cfg w. search_keeps w (search mining_cfg w);
      stop_keeps = λ w. stop_keeps w w.loads_left;
      log_keeps = λ _ w. omega arith;
      health_keeps = λ _ _ w. omega arith;
    };
    wait_keeps = λ _ w. waits_kept w.waits;
    sleep_keeps = λ _ w. omega arith;
    latch = record {
      seen = λ w e. load_stopped w w.loads_left refl e;
      shown = λ w e. rw e refl;
      logged = λ _ w e. e;
      aborted = λ mining_cfg w a. search_stopped w (search mining_cfg w) a;
    };
  }

  -- Over the client, whatever its sockets do and whatever the search finds, the loop returns if there is
  -- a limit of attempts below 2^64, given more sessions than the limit and more rounds than waits are to come.
  pub client_ops_ends :
      (sessions rounds : ℕ) (w : World)
      → 0 < cfg.pool_max_reconnect_attempts
      → cfg.pool_max_reconnect_attempts < 2 ^ 64
      → length w.waits < rounds
      → cfg.pool_max_reconnect_attempts < sessions
      → (run_stratum_loop client_ops cfg sessions rounds w).0 ≢ none
  client_ops_ends =
      run_stratum_loop_ends client_ops cfg jobs_left (λ w. w.loads_left ≡ 0) client_ops-Bounded
