-- ===== src/Runtime/Session/Ends.antt =====
-- The end of a session, by the jobs that are still to come.
use mathlib.Core.Path.{ap}
use hermit_miner.Base.{
  ℕ, ◌≤◌, ◌<◌, ◌≡◌, ◌≢◌, inl, inr, Bool, Bool-cases, true, false, Bytes, not, ◌&&◌, Option, none,
  some, arith, refl, sym, ◌∙◌,
}
use hermit_miner.Config.{MinerConfig}
use hermit_miner.Logger.Event
use hermit_miner.Runtime.{
  Ops, Progress, SessionStats, MiningResult, has_cycles, maybe_write_health,
  compute_readiness_status,
}
use hermit_miner.Runtime.Repeat.{Control, next, give, unfinished, repeat_ends}
use hermit_miner.Runtime.Session.{
  submitted, mined, lost, waited, tested, session_round, session_started, run_stratum_session,
  started, authorized, subscribed, start_stratum_session,
}
use hermit_miner.Stratum.Codec.{StratumJob}
use hermit_miner.Runtime.Session.Codes.{CodeOf, session_round-Code}

-- What bounds a session: a count of the jobs that the pool is still to send, which falls with each
-- job received and which nothing else raises.
pub record Supply {W : Type 0} (ops : Ops W) (jobs_left : W → ℕ) : Type 0 where
  pub new_client_keeps : (w : W) → jobs_left (ops.new_client w) ≤ jobs_left w
  pub connect_keeps : (w : W) → jobs_left (ops.connect_to_pool w).1 ≤ jobs_left w
  pub subscribe_keeps : (agent : Bytes) (w : W) → jobs_left (ops.subscribe agent w).1 ≤ jobs_left w
  pub authorize_keeps :
      (user password : Bytes) (w : W) → jobs_left (ops.authorize user password w).1 ≤ jobs_left w
  pub job_taken :
      (timeout : ℕ) (w : W)
      → (ops.wait_for_job timeout w).0 ≢ none
      → jobs_left (ops.wait_for_job timeout w).1 < jobs_left w
  pub submit_keeps :
      (user job : Bytes) (nonce : ℕ) (w : W)
      → jobs_left (ops.submit_share user job nonce w).1 ≤ jobs_left w
  pub mine_keeps : (cfg : MinerConfig) (w : W) → jobs_left (ops.mine cfg w).1 ≤ jobs_left w
  pub stop_keeps : (w : W) → jobs_left (ops.stop_requested w).1 ≤ jobs_left w
  pub log_keeps : (event : Event.Event) (w : W) → jobs_left (ops.log event w) ≤ jobs_left w
  pub health_keeps :
      (stats : SessionStats) (status : Bytes) (w : W)
      → jobs_left (ops.write_health_snapshot stats status w) ≤ jobs_left w

pub chain : {a b c : ℕ} → a ≤ b → b ≤ c → a ≤ c
chain h k = omega arith

module _ {W : Type 0} (ops : Ops W) (cfg : MinerConfig) (jobs_left : W → ℕ)
    (supply : Supply ops jobs_left) where
  pub health_keeps-maybe :
      (stats : SessionStats) (w : W) → jobs_left (maybe_write_health ops cfg stats w) ≤ jobs_left w
  health_keeps-maybe stats w = elim (Bool-cases cfg.health_emit_each_cycle) [
    | inl e ↦
        rw (e, maybe_write_health) (supply.health_keeps stats (compute_readiness_status stats) w)
    | inr n ↦ rw (n, maybe_write_health) (omega arith)
  ]

  submitted_left :
      (job : StratumJob) (x : Progress W) (r : Bool × W)
      → jobs_left (submitted ops cfg job x r).1.world ≤ jobs_left r.1
  unfolding submitted
  submitted_left job x (false, w) = supply.log_keeps _ w
  submitted_left job x (true, w) = chain (supply.log_keeps _ _) (health_keeps-maybe _ w)

  pub mined_left :
      (job : StratumJob) (x : Progress W) (r : MiningResult × W)
      → jobs_left (mined ops cfg job x r).1.world ≤ jobs_left r.1
  unfolding mined
  mined_left job x (result, w) = elim (Bool-cases (result.aborted)) [
    | inl a ↦ rw a (omega arith)
    | inr a ↦ elim (Bool-cases (result.found)) [
      | inl f ↦ rw (a, f) (chain (submitted_left job _ _) (supply.submit_keeps _ _ _ w))
      | inr f ↦ rw (a, f) (supply.log_keeps _ w)
    ]
  ]

  not_lost : (x : Progress W) (r : Bool × W) → (lost ops cfg x r).0 ≡ next → ⊥
  not_lost x (true, w) e = cc
  not_lost x (false, w) e = cc

  -- A round that goes on took a job.
  waited_left :
      (x : Progress W) (r : Option StratumJob × W)
      → (waited ops cfg x r).0 ≡ next
      → (r.0 ≢ none) × (jobs_left (waited ops cfg x r).1.world ≤ jobs_left r.1)
  unfolding waited
  waited_left x (none, w) e = absurd (not_lost x (ops.stop_requested w) e)
  waited_left x (some job, w) e =
      ((λ h. cc), chain (mined_left job _ _) (chain (supply.mine_keeps _ _) (supply.log_keeps _ w)))

  waited_falls :
      (x : Progress W) (w : W)
      → (waited ops cfg x (ops.wait_for_job cfg.pool_notify_timeout_sec w)).0 ≡ next
      → jobs_left w ≤ jobs_left x.world
      → jobs_left (waited ops cfg x (ops.wait_for_job cfg.pool_notify_timeout_sec w)).1.world
        < jobs_left x.world
  waited_falls x w e le =
      let left = waited_left x (ops.wait_for_job cfg.pool_notify_timeout_sec w) e in
      let taken = supply.job_taken cfg.pool_notify_timeout_sec w left.0 in
      let rest = left.1 in omega arith

  tested-true :
      (x : Progress W) (stopping : Bool) (w : W)
      → (not stopping && has_cycles ops cfg x.cycles_done) ≡ true
      → tested ops cfg x (stopping, w)
        ≡ waited ops cfg x (ops.wait_for_job cfg.pool_notify_timeout_sec w)
  tested-true x stopping w t = rw (t, tested) refl

  tested_stops :
      (x : Progress W) (stopping : Bool) (w : W)
      → (not stopping && has_cycles ops cfg x.cycles_done) ≡ false
      → (tested ops cfg x (stopping, w)).0 ≡ give 0
  tested_stops x stopping w n = rw (n, tested) refl

  tested_falls :
      (x : Progress W) (r : Bool × W)
      → (tested ops cfg x r).0 ≡ next
      → jobs_left r.1 ≤ jobs_left x.world
      → jobs_left (tested ops cfg x r).1.world < jobs_left x.world
  tested_falls x (stopping, w) e le =
      elim (Bool-cases (not stopping && has_cycles ops cfg x.cycles_done)) [
        | inl t ↦
            rw (t, tested)
              (waited_falls x w (sym (ap (λ c. c.0) (tested-true x stopping w t)) ∙ e) le)
        | inr n ↦ absurd (let stops = tested_stops x stopping w n in cc)
      ]

  falls :
      (x : Progress W)
      → (session_round ops cfg x).0 ≡ next
      → jobs_left (session_round ops cfg x).1.world < jobs_left x.world
  unfolding session_round
  falls x e = tested_falls x (ops.stop_requested x.world) e (supply.stop_keeps x.world)

  started_keeps :
      (v : W) (r : Bool × W)
      → jobs_left r.1 ≤ jobs_left v
      → jobs_left (started ops cfg r).1 ≤ jobs_left v
  started_keeps v (false, w) le = le
  started_keeps v (true, w) le = chain (supply.log_keeps _ w) le

  authorized_keeps :
      (v : W) (r : Bool × W)
      → jobs_left r.1 ≤ jobs_left v
      → jobs_left (authorized ops cfg r).1 ≤ jobs_left v
  authorized_keeps v (false, w) le = le
  authorized_keeps v (true, w) le = started_keeps v _ (chain (supply.authorize_keeps _ _ w) le)

  subscribed_keeps :
      (v : W) (r : Bool × W)
      → jobs_left r.1 ≤ jobs_left v
      → jobs_left (subscribed ops cfg r).1 ≤ jobs_left v
  subscribed_keeps v (false, w) le = le
  subscribed_keeps v (true, w) le = authorized_keeps v _ (chain (supply.subscribe_keeps _ w) le)

  pub start_keeps : (w : W) → jobs_left (start_stratum_session ops cfg w).1 ≤ jobs_left w
  unfolding start_stratum_session
  start_keeps w = subscribed_keeps w (ops.connect_to_pool w) (supply.connect_keeps w)

  never_unfinished : (c : Control) → CodeOf ops cfg c → c ≢ unfinished
  never_unfinished next k = λ e. cc
  never_unfinished (give rc) k = λ e. cc
  never_unfinished unfinished k = absurd k

  session_ends :
      (rounds : ℕ) (x : Progress W) (r : Bool × W)
      → jobs_left r.1 ≤ jobs_left x.world
      → jobs_left x.world < rounds
      → (session_started ops cfg rounds x r).0 ≢ none
  session_ends rounds x (false, w) le lt = λ e. cc
  session_ends rounds x (true, w) le lt =
      repeat_ends (session_round ops cfg) (λ y. jobs_left y.world)
        (λ y. never_unfinished (session_round ops cfg y).0 (session_round-Code ops cfg y)) falls
        rounds (record x { world = w }) (omega arith)

  -- With a count of the jobs to come that falls with each job received and that no operation raises,
  -- a session of more rounds than that count returns.
  pub run_stratum_session_ends :
      (rounds : ℕ) (x : Progress W)
      → jobs_left x.world < rounds
      → (run_stratum_session ops cfg rounds x).0 ≢ none
  unfolding run_stratum_session
  run_stratum_session_ends rounds x lt =
      session_ends rounds x (start_stratum_session ops cfg (ops.new_client x.world))
        (chain (start_keeps (ops.new_client x.world)) (supply.new_client_keeps x.world)) lt
