-- ===== src/Runtime/Session.antt =====
-- `start_stratum_session` and `run_stratum_session` of src/lib/miner_runtime.cpp.
pub mod Cycle
pub mod Codes
pub mod Counts
pub mod Ends
pub mod Over
pub mod Keeps
use hermit_miner.Base.{
  ℕ, ◌+◌, Bool, true, false, not, ◌&&◌, [], ◌∷◌, ◌++◌, Option, none, some, Bytes, codes,
  if◌then◌else◌, u32,
}
use hermit_miner.Base.Digits.{to_decimal}
use hermit_miner.Config.{MinerConfig, pool_username}
use hermit_miner.Runtime.{
  Ops, Progress, MiningResult, increment, info, warn, has_cycles, maybe_write_health,
}
use hermit_miner.Runtime.Repeat.{Control, next, give, repeat}
use hermit_miner.Stratum.Codec.{StratumJob}

module _ {W : Type 0} (ops : Ops W) (cfg : MinerConfig) where
  abbrev pub started : Bool × W → Bool × W
  started (false, w) = (false, w)
  started (true, w) =
      (true, info ops cfg (codes "Stratum session started") (codes "user=" ++ pool_username cfg) w)

  abbrev pub authorized : Bool × W → Bool × W
  authorized (false, w) = (false, w)
  authorized (true, w) = started (ops.authorize (pool_username cfg) cfg.pool_password w)

  abbrev pub subscribed : Bool × W → Bool × W
  subscribed (false, w) = (false, w)
  subscribed (true, w) = authorized (ops.subscribe (codes "hermit_miner/stratum-offline-ready") w)

  unfoldable pub start_stratum_session : W → Bool × W
  start_stratum_session w = subscribed (ops.connect_to_pool w)

  -- The configuration of one job.
  abbrev pub mining_cfg : StratumJob → MinerConfig
  mining_cfg job = record cfg {
    prefix = elim (job.prefix) [ [] ↦ cfg.prefix | c ∷ cs ↦ c ∷ cs ];
    difficulty_bits = job.difficulty_bits;
  }

  abbrev job_context : StratumJob → Bytes
  job_context job =
      codes "job_id="
      ++ job.job_id
      ++ codes " prefix="
      ++ (mining_cfg job).prefix
      ++ codes " bits="
      ++ to_decimal job.difficulty_bits
      ++ codes " clean_job="
      ++ (if job.clean_job then codes "true" else codes "false")

  -- Behind `submit_share`.
  unfoldable pub submitted : StratumJob → Progress W → Bool × W → Control × Progress W
  submitted job x (false, w) = (
    give 8,
    record x {
      world = warn ops cfg (codes "Submit failed; reconnect required") job.job_id w;
      stats = record x.stats { submit_failures = increment x.stats.submit_failures };
    },
  )
  submitted job x (true, w) =
      let stats = record x.stats {
        accepted_count = increment x.stats.accepted_count;
        last_job_id = job.job_id;
      } in
      (
        next,
        record x {
          world =
              info ops cfg (codes "Stratum cycle completed") job.job_id
                (maybe_write_health ops cfg stats w);
          cycles_done = u32 (x.cycles_done + 1);
          stats = stats;
        },
      )

  -- The share that is about to be submitted is counted.
  abbrev pub count_share : Progress W → Progress W
  count_share x = record x {
    stats = record x.stats {
      shares_found = increment x.stats.shares_found;
      submits_attempted = increment x.stats.submits_attempted;
    };
  }

  -- Behind `mine`.
  unfoldable pub mined : StratumJob → Progress W → MiningResult × W → Control × Progress W
  mined job x (result, w) = elim (result.aborted) [
    | true ↦ (give 0, record x { world = w })
    | false ↦ elim (result.found) [
      | true ↦
          submitted job (count_share x)
            (ops.submit_share (pool_username cfg) job.job_id result.nonce w)
      | false ↦ (
        next,
        record x { world = warn ops cfg (codes "No valid nonce found for job") job.job_id w },
      )
    ]
  ]

  abbrev pub lost : Progress W → Bool × W → Control × Progress W
  lost x (true, w) = (give 0, record x { world = w })
  lost x (false, w) = (
    give 6,
    record x {
      world = warn ops cfg (codes "Session lost while waiting for job; reconnect required") [] w;
    },
  )

  -- Behind `wait_for_job`.
  unfoldable pub waited : Progress W → Option StratumJob × W → Control × Progress W
  waited x (none, w) = lost x (ops.stop_requested w)
  waited x (some job, w) =
      mined job
        (record x { stats = record x.stats { jobs_received = increment x.stats.jobs_received } })
        (ops.mine (mining_cfg job)
          (info ops cfg (codes "Mining on Stratum job") (job_context job) w))

  -- One round of the loop, its test included.
  abbrev pub tested : Progress W → Bool × W → Control × Progress W
  tested x (stopping, w) = elim (not stopping && has_cycles ops cfg x.cycles_done) [
    | true ↦ waited x (ops.wait_for_job cfg.pool_notify_timeout_sec w)
    | false ↦ (
      give 0,
      record x {
        world =
            info ops cfg (codes "Stratum session reached cycle limit")
              (codes "cycles=" ++ to_decimal x.cycles_done) w;
      },
    )
  ]

  unfoldable pub session_round : Progress W → Control × Progress W
  session_round x = tested x (ops.stop_requested x.world)

  abbrev pub session_started : ℕ → Progress W → Bool × W → Option ℕ × Progress W
  session_started rounds x (false, w) = (some 4, record x { world = w })
  session_started rounds x (true, w) = repeat session_round rounds (record x { world = w })

  -- A session of at most so many rounds.
  unfoldable pub run_stratum_session : ℕ → Progress W → Option ℕ × Progress W
  run_stratum_session rounds x =
      session_started rounds x (start_stratum_session (ops.new_client x.world))
