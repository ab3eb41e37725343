-- ===== src/Runtime/Session/Cycle.antt =====
-- A session that gets a job, finds a share and has it accepted, operation by operation.
use hermit_miner.Base.{ℕ, suc, ◌+◌, ◌≡◌, refl, ◌∙◌, ap, true, false, ◌++◌, some, codes, u32}
use hermit_miner.Config.{MinerConfig, pool_username}
use hermit_miner.Runtime.Repeat.{after, next, repeat}
use hermit_miner.Runtime.Session.{
  mining_cfg, job_context, started, authorized, subscribed, start_stratum_session, submitted,
  count_share, mined, waited, tested, session_round, session_started, run_stratum_session,
}
use hermit_miner.Runtime.{
  Ops, Progress, MiningResult, SessionStats, increment, info, has_cycles, maybe_write_health,
}
use hermit_miner.Stratum.Codec.{StratumJob}

-- The statistics after a cycle whose share is accepted.
abbrev pub credited : StratumJob → SessionStats → SessionStats
credited job stats = record stats {
  jobs_received = increment stats.jobs_received;
  shares_found = increment stats.shares_found;
  submits_attempted = increment stats.submits_attempted;
  accepted_count = increment stats.accepted_count;
  last_job_id = job.job_id;
}

module _ {W : Type 0} (ops : Ops W) (cfg : MinerConfig) where
  -- The progress behind the cycle.
  abbrev pub cycled : StratumJob → Progress W → W → Progress W
  cycled job x w = record {
    world =
        info ops cfg (codes "Stratum cycle completed") job.job_id
          (maybe_write_health ops cfg (credited job x.stats) w);
    cycles_done = u32 (x.cycles_done + 1);
    stats = credited job x.stats;
  }

  abbrev pub welcomed : W → W
  welcomed w = info ops cfg (codes "Stratum session started") (codes "user=" ++ pool_username cfg) w

  session_open :
      (w w₁ w₂ w₃ : W)
      → ops.connect_to_pool w ≡ (true, w₁)
      → ops.subscribe (codes "hermit_miner/stratum-offline-ready") w₁ ≡ (true, w₂)
      → ops.authorize (pool_username cfg) cfg.pool_password w₂ ≡ (true, w₃)
      → start_stratum_session ops cfg w ≡ (true, welcomed w₃)
  unfolding start_stratum_session
  session_open w w₁ w₂ w₃ c s a =
      ap (subscribed ops cfg) c ∙ ap (authorized ops cfg) s ∙ ap (started ops cfg) a

  abbrev pub mining_on : StratumJob → W → W
  mining_on job w = info ops cfg (codes "Mining on Stratum job") (job_context ops cfg job) w

  abbrev offered : Progress W → Progress W
  offered x = record x {
    stats = record x.stats { jobs_received = increment x.stats.jobs_received };
  }

  mined_found :
      (job : StratumJob) (result : MiningResult) (x : Progress W) (w : W)
      → result.aborted ≡ false
      → result.found ≡ true
      → mined ops cfg job x (result, w)
        ≡ submitted ops cfg job
            (count_share ops cfg x)
            (ops.submit_share (pool_username cfg) job.job_id result.nonce w)
  unfolding mined
  mined_found job result x w on found = simp (on, found) refl

  share_accepted :
      (job : StratumJob) (result : MiningResult) (x : Progress W) (w₅ w₆ w₇ : W)
      → ops.mine (mining_cfg ops cfg job) (mining_on job w₅) ≡ (result, w₆)
      → result.aborted ≡ false
      → result.found ≡ true
      → ops.submit_share (pool_username cfg) job.job_id result.nonce w₆ ≡ (true, w₇)
      → waited ops cfg x (some job, w₅) ≡ (next, cycled job x w₇)
  unfolding waited mined submitted
  share_accepted job result x w₅ w₆ w₇ m on found s =
      ap (mined ops cfg job (offered x)) m
      ∙ mined_found job result (offered x) w₆ on found
      ∙ ap (submitted ops cfg job (count_share ops cfg (offered x))) s

  tested_on :
      (x : Progress W) (w : W)
      → has_cycles ops cfg x.cycles_done ≡ true
      → tested ops cfg x (false, w)
        ≡ waited ops cfg x (ops.wait_for_job cfg.pool_notify_timeout_sec w)
  tested_on x w cycles = rw (cycles, tested) refl

  round_accepted :
      (job : StratumJob) (result : MiningResult) (x : Progress W) (w₄ w₅ w₆ w₇ : W)
      → ops.stop_requested x.world ≡ (false, w₄)
      → has_cycles ops cfg x.cycles_done ≡ true
      → ops.wait_for_job cfg.pool_notify_timeout_sec w₄ ≡ (some job, w₅)
      → ops.mine (mining_cfg ops cfg job) (mining_on job w₅) ≡ (result, w₆)
      → result.aborted ≡ false
      → result.found ≡ true
      → ops.submit_share (pool_username cfg) job.job_id result.nonce w₆ ≡ (true, w₇)
      → session_round ops cfg x ≡ (next, cycled job x w₇)
  unfolding session_round
  round_accepted job result x w₄ w₅ w₆ w₇ go cycles j m on found s =
      ap (tested ops cfg x) go
      ∙ tested_on x w₄ cycles
      ∙ ap (waited ops cfg x) j
      ∙ share_accepted job result x w₅ w₆ w₇ m on found s

  -- A session from its first operation to the share that is accepted in its first round.
  pub session_accepted :
      (rounds : ℕ) (job : StratumJob) (result : MiningResult) (x : Progress W)
      (w₁ w₂ w₃ w₄ w₅ w₆ w₇ : W)
      → ops.connect_to_pool (ops.new_client x.world) ≡ (true, w₁)
      → ops.subscribe (codes "hermit_miner/stratum-offline-ready") w₁ ≡ (true, w₂)
      → ops.authorize (pool_username cfg) cfg.pool_password w₂ ≡ (true, w₃)
      → ops.stop_requested (welcomed w₃) ≡ (false, w₄)
      → has_cycles ops cfg x.cycles_done ≡ true
      → ops.wait_for_job cfg.pool_notify_timeout_sec w₄ ≡ (some job, w₅)
      → ops.mine (mining_cfg ops cfg job) (mining_on job w₅) ≡ (result, w₆)
      → result.aborted ≡ false
      → result.found ≡ true
      → ops.submit_share (pool_username cfg) job.job_id result.nonce w₆ ≡ (true, w₇)
      → run_stratum_session ops cfg (suc rounds) x
        ≡ repeat (session_round ops cfg) rounds (cycled job x w₇)
  unfolding run_stratum_session repeat
  session_accepted rounds job result x w₁ w₂ w₃ w₄ w₅ w₆ w₇ c s a go cycles j m on found share =
      let opening = session_open (ops.new_client x.world) w₁ w₂ w₃ c s a in
      let first =
        round_accepted job result (record x { world = welcomed w₃ }) w₄ w₅ w₆ w₇ go cycles j m on
          found share in
      ap (session_started ops cfg (suc rounds) x) opening
      ∙ ap (after (session_round ops cfg) (repeat (session_round ops cfg) rounds)) first
