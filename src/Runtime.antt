-- ===== src/Runtime.antt =====
-- The session loop and the reconnect loop of src/lib/miner_runtime.cpp, with their statistics. The
-- client, the threads of `mine`, the clock and the outputs are the operations of a record, over a
-- world of any type, so what is proved of the loops holds of every pool and every signal.
-- `Health` has the reports behind the loop, and `Pool` the client as such a record.
pub mod Repeat
pub mod Session
pub mod Loop
pub mod Guarded
pub mod Health
pub mod Pool
use hermit_miner.Base.{
  ℕ, ◌+◌, Bool, true, false, not, ◌&&◌, ◌||◌, [], ◌∷◌, ◌++◌, Option, none, some, Bytes, codes,
  if◌then◌else◌, ◌==◌, ltb, leb, u32, u64,
}
use hermit_miner.Config.{MinerConfig, pool_username}
use hermit_miner.Logger.Event
use hermit_miner.Stratum.Codec.{StratumJob}

-- The result of `mine`, less its duration.
pub record MiningResult : Type 0 where
  pub found : Bool
  pub aborted : Bool
  pub nonce : ℕ
  pub hash : Bytes
  pub hashes_tried : ℕ

pub record SessionStats : Type 0 where
  pub jobs_received : ℕ
  pub shares_found : ℕ
  pub submits_attempted : ℕ
  pub submit_failures : ℕ
  pub accepted_count : ℕ
  pub reconnect_events : ℕ
  pub session_failures : ℕ
  pub last_failure_rc : ℕ
  pub last_job_id : Bytes

abbrev pub no_stats : SessionStats
no_stats = record {
  jobs_received = 0;
  shares_found = 0;
  submits_attempted = 0;
  submit_failures = 0;
  accepted_count = 0;
  reconnect_events = 0;
  session_failures = 0;
  last_failure_rc = 0;
  last_job_id = codes "none";
}

-- What the loops call: the constructor and the operations of the client, `mine`, the load of
-- `stop_requested`, the sleep, the logger and the health file.
pub record Ops (W : Type 0) : Type 0 where
  pub new_client : W → W
  pub connect_to_pool : W → Bool × W
  pub subscribe : Bytes → W → Bool × W
  pub authorize : Bytes → Bytes → W → Bool × W
  pub wait_for_job : ℕ → W → Option StratumJob × W
  pub submit_share : Bytes → Bytes → ℕ → W → Bool × W
  pub mine : MinerConfig → W → MiningResult × W
  pub stop_requested : W → Bool × W
  pub sleep_for : ℕ → W → W
  pub log : Event.Event → W → W
  pub write_health_snapshot : SessionStats → Bytes → W → W

-- What the loops share by reference, and the world.
pub record Progress (W : Type 0) : Type 0 where
  pub world : W
  pub cycles_done : ℕ
  pub stats : SessionStats

-- `++` on a 64-bit counter
abbrev pub increment : ℕ → ℕ
increment n = u64 (n + 1)

unfoldable pub compute_readiness_status : SessionStats → Bytes
compute_readiness_status stats =
    if leb 3 stats.accepted_count && (stats.submit_failures == 0) && (stats.session_failures == 0)
    then codes "ready"
    else if ltb 0 stats.accepted_count
    then codes "degraded"
    else codes "not_ready"

module _ {W : Type 0} (ops : Ops W) (cfg : MinerConfig) where
  abbrev pub info : Bytes → Bytes → W → W
  info message context w = ops.log (Event.info (codes "stratum") cfg.node_id message context) w

  abbrev pub warn : Bytes → Bytes → W → W
  warn message context w = ops.log (Event.warn (codes "stratum") cfg.node_id message context) w

  -- `pool_max_cycles == 0U || cycles_done < pool_max_cycles`
  abbrev pub has_cycles : ℕ → Bool
  has_cycles cycles_done = (cfg.pool_max_cycles == 0) || ltb cycles_done cfg.pool_max_cycles

  abbrev pub maybe_write_health : SessionStats → W → W
  maybe_write_health stats w =
      if cfg.health_emit_each_cycle
      then ops.write_health_snapshot stats (compute_readiness_status stats) w
      else w
