-- ===== src/Runtime/Guarded.antt =====
-- What every run of the loops keeps, when each operation that they call keeps it. A submission needs
-- to keep it only for a share that is valid.
use hermit_miner.Base.{
  ℕ, ◌≡◌, refl, Bool, Bool-cases, inl, inr, true, false, not, ◌&&◌, Option, none, some, zero, suc,
  Bytes,
}
use hermit_miner.Config.{MinerConfig}
use hermit_miner.Logger.Event
use hermit_miner.Runtime.Loop.{
  LoopState, spent, slept, limited, failed, settled, entered, loop_round, run_stratum_loop,
}
use hermit_miner.Runtime.Repeat.{repeat_keeps}
use hermit_miner.Runtime.Session.{
  mining_cfg, submitted, mined, lost, waited, tested, session_round, session_started,
  run_stratum_session, started, authorized, subscribed, start_stratum_session,
}
use hermit_miner.Runtime.{Ops, Progress, SessionStats, MiningResult, has_cycles, maybe_write_health}
use hermit_miner.Stratum.Codec.{StratumJob}

pub record Guarded {W : Type 0} (ops : Ops W) (cfg : MinerConfig) (P : W → Type 0)
    (Got : StratumJob → Type 0) (Valid : Bytes → ℕ → Type 0) : Type 0 where
  pub made : (w : W) → P w → P (ops.new_client w)
  pub connected : (w : W) → P w → P (ops.connect_to_pool w).1
  pub subscribed : (agent : Bytes) (w : W) → P w → P (ops.subscribe agent w).1
  pub authorized : (user password : Bytes) (w : W) → P w → P (ops.authorize user password w).1
  pub waited : (timeout : ℕ) (w : W) → P w → P (ops.wait_for_job timeout w).1
  pub received :
      (timeout : ℕ) (w : W) (job : StratumJob)
      → P w
      → (ops.wait_for_job timeout w).0 ≡ some job
      → Got job
  pub searched : (job_cfg : MinerConfig) (w : W) → P w → P (ops.mine job_cfg w).1
  pub loaded : (w : W) → P w → P (ops.stop_requested w).1
  pub slept : (seconds : ℕ) (w : W) → P w → P (ops.sleep_for seconds w)
  pub logged : (event : Event.Event) (w : W) → P w → P (ops.log event w)
  pub reported :
      (stats : SessionStats) (status : Bytes) (w : W)
      → P w
      → P (ops.write_health_snapshot stats status w)
  pub submitted :
      (user job_id : Bytes) (nonce : ℕ) (w : W)
      → Valid job_id nonce
      → P w
      → P (ops.submit_share user job_id nonce w).1
  -- What the search finds for a job that is received is valid.
  pub valid :
      (job : StratumJob) (w : W)
      → Got job
      → (ops.mine (mining_cfg ops cfg job) w).0.found ≡ true
      → Valid job.job_id (ops.mine (mining_cfg ops cfg job) w).0.nonce

module _ {W : Type 0} (ops : Ops W) (cfg : MinerConfig) (P : W → Type 0) (Got : StratumJob → Type 0)
    (Valid : Bytes → ℕ → Type 0) (guarded : Guarded ops cfg P Got Valid) where
  health_kept : (stats : SessionStats) (w : W) → P w → P (maybe_write_health ops cfg stats w)
  health_kept stats w p = elim (Bool-cases cfg.health_emit_each_cycle) [
    | inl e ↦ rw (e, maybe_write_health) (guarded.reported stats _ w p)
    | inr n ↦ rw (n, maybe_write_health) p
  ]

  submitted_kept :
      (job : StratumJob) (x : Progress W) (r : Bool × W)
      → P r.1
      → P (submitted ops cfg job x r).1.world
  unfolding submitted
  submitted_kept job x (false, w) p = guarded.logged _ w p
  submitted_kept job x (true, w) p = guarded.logged _ _ (health_kept _ w p)

  mined_kept :
      (job : StratumJob) (x : Progress W) (r : MiningResult × W)
      → P r.1
      → (r.0.found ≡ true → Valid job.job_id r.0.nonce)
      → P (mined ops cfg job x r).1.world
  unfolding mined
  mined_kept job x (result, w) p valid = elim (Bool-cases (result.aborted)) [
    | inl a ↦ rw a p
    | inr a ↦ elim (Bool-cases (result.found)) [
      | inl f ↦ rw (a, f) (submitted_kept job _ _ (guarded.submitted _ _ _ w (valid f) p))
      | inr f ↦ rw (a, f) (guarded.logged _ w p)
    ]
  ]

  lost_kept : (x : Progress W) (r : Bool × W) → P r.1 → P (lost ops cfg x r).1.world
  lost_kept x (true, w) p = p
  lost_kept x (false, w) p = guarded.logged _ w p

  waited_kept :
      (x : Progress W) (r : Option StratumJob × W)
      → P r.1
      → ((job : StratumJob) → r.0 ≡ some job → Got job)
      → P (waited ops cfg x r).1.world
  unfolding waited
  waited_kept x (none, w) p got = lost_kept x _ (guarded.loaded w p)
  waited_kept x (some job, w) p got =
      mined_kept job _ _ (guarded.searched _ _ (guarded.logged _ w p))
        (guarded.valid job _ (got job refl))

  session_round_kept : (x : Progress W) → P x.world → P (session_round ops cfg x).1.world
  unfolding session_round
  session_round_kept x p =
      let loaded = guarded.loaded x.world p in
      elim (Bool-cases (not (ops.stop_requested x.world).0 && has_cycles ops cfg x.cycles_done)) [
        | inl t ↦
            rw (t, tested)
              (waited_kept x _ (guarded.waited _ _ loaded)
                (λ job e. guarded.received _ _ job loaded e))
        | inr n ↦ rw (n, tested) (guarded.logged _ _ loaded)
      ]

  started_kept : (r : Bool × W) → P r.1 → P (started ops cfg r).1
  started_kept (false, w) p = p
  started_kept (true, w) p = guarded.logged _ w p

  authorized_kept : (r : Bool × W) → P r.1 → P (authorized ops cfg r).1
  authorized_kept (false, w) p = p
  authorized_kept (true, w) p = started_kept _ (guarded.authorized _ _ w p)

  subscribed_kept : (r : Bool × W) → P r.1 → P (subscribed ops cfg r).1
  subscribed_kept (false, w) p = p
  subscribed_kept (true, w) p = authorized_kept _ (guarded.subscribed _ w p)

  session_started_kept :
      (rounds : ℕ) (x : Progress W) (r : Bool × W)
      → P r.1
      → P (session_started ops cfg rounds x r).1.world
  session_started_kept rounds x (false, w) p = p
  session_started_kept rounds x (true, w) p =
      repeat_keeps (session_round ops cfg) (λ y. P y.world) session_round_kept rounds
        (record x { world = w }) p

  session_kept :
      (rounds : ℕ) (x : Progress W) → P x.world → P (run_stratum_session ops cfg rounds x).1.world
  unfolding run_stratum_session start_stratum_session
  session_kept rounds x p =
      session_started_kept rounds x _
        (subscribed_kept _ (guarded.connected _ (guarded.made x.world p)))

  slept_kept : (s : LoopState W) (r : Bool × W) → P r.1 → P (slept ops cfg s r).1.progress.world
  slept_kept s (true, w) p = p
  slept_kept s (false, w) p = guarded.slept _ w p

  limited_kept :
      (rc : ℕ) (s : LoopState W) → P s.progress.world → P (limited ops cfg rc s).1.progress.world
  limited_kept rc s p = elim (Bool-cases (spent ops cfg s.progress.stats)) [
    | inl t ↦ rw (t, limited) (guarded.logged _ _ p)
    | inr n ↦ rw (n, limited) (slept_kept s _ (guarded.loaded _ (guarded.logged _ _ p)))
  ]

  settled_kept :
      (s : LoopState W) (r : Option ℕ × Progress W)
      → P r.1.world
      → P (settled ops cfg s r).1.progress.world
  unfolding failed
  settled_kept s (none, x) p = p
  settled_kept s (some zero, x) p = p
  settled_kept s (some (suc rc), x) p = limited_kept (suc rc) _ (health_kept _ _ p)

  loop_round_kept :
      (rounds : ℕ) (s : LoopState W)
      → P s.progress.world
      → P (loop_round ops cfg rounds s).1.progress.world
  unfolding loop_round
  loop_round_kept rounds s p =
      let loaded = guarded.loaded s.progress.world p in
      elim (Bool-cases (
        not (ops.stop_requested s.progress.world).0 && has_cycles ops cfg s.progress.cycles_done)) [
          | inl t ↦ rw (t, entered) (settled_kept s _ (session_kept rounds _ loaded))
          | inr n ↦ rw (n, entered) loaded
        ]

  -- What each operation keeps, the loop keeps over any number of sessions and rounds.
  pub run_stratum_loop-Guarded :
      (sessions rounds : ℕ) (w : W)
      → P w
      → P (run_stratum_loop ops cfg sessions rounds w).1.progress.world
  unfolding run_stratum_loop
  run_stratum_loop-Guarded sessions rounds w p =
      repeat_keeps (loop_round ops cfg rounds) (λ s. P s.progress.world) (loop_round_kept rounds)
        sessions _ p
