-- ===== src/Runtime/Session/Keeps.antt =====
-- What a session does not raise: the jobs to come, and the count of failed sessions.
use hermit_miner.Base.{
  ℕ, ◌≤◌, ◌≡◌, inl, inr, Bool, Bool-cases, true, false, not, ◌&&◌, Option, none, some, refl, ◌∙◌,
}
use hermit_miner.Config.{MinerConfig}
use hermit_miner.Runtime.Repeat.{repeat_keeps}
use hermit_miner.Runtime.Session.Ends.{Supply, chain, mined_left, start_keeps}
use hermit_miner.Runtime.Session.{
  submitted, mined, lost, waited, tested, session_round, session_started, run_stratum_session,
}
use hermit_miner.Runtime.{Ops, Progress, MiningResult, has_cycles}
use hermit_miner.Stratum.Codec.{StratumJob}

module _ {W : Type 0} (ops : Ops W) (cfg : MinerConfig) (jobs_left : W → ℕ)
    (supply : Supply ops jobs_left)
    (wait_keeps : (timeout : ℕ) (w : W)
      → jobs_left (ops.wait_for_job timeout w).1 ≤ jobs_left w) where
  -- No more jobs to come than before, and as many failed sessions.
  abbrev pub Kept : Progress W → Progress W → Type 0
  Kept x y =
      (jobs_left y.world ≤ jobs_left x.world)
      × (y.stats.session_failures ≡ x.stats.session_failures)

  submitted_failures :
      (job : StratumJob) (x : Progress W) (r : Bool × W)
      → (submitted ops cfg job x r).1.stats.session_failures ≡ x.stats.session_failures
  unfolding submitted
  submitted_failures job x (false, w) = refl
  submitted_failures job x (true, w) = refl

  mined_failures :
      (job : StratumJob) (x : Progress W) (r : MiningResult × W)
      → (mined ops cfg job x r).1.stats.session_failures ≡ x.stats.session_failures
  unfolding mined
  mined_failures job x (result, w) = elim (Bool-cases (result.aborted)) [
    | inl a ↦ rw a refl
    | inr a ↦ elim (Bool-cases (result.found)) [
      | inl f ↦ rw (a, f) (submitted_failures job _ _)
      | inr f ↦ rw (a, f) refl
    ]
  ]

  lost-Kept :
      (x : Progress W) (r : Bool × W)
      → jobs_left r.1 ≤ jobs_left x.world
      → Kept x (lost ops cfg x r).1
  lost-Kept x (true, w) le = (le, refl)
  lost-Kept x (false, w) le = (chain (supply.log_keeps _ w) le, refl)

  waited-Kept :
      (x : Progress W) (r : Option StratumJob × W)
      → jobs_left r.1 ≤ jobs_left x.world
      → Kept x (waited ops cfg x r).1
  unfolding waited
  waited-Kept x (none, w) le = lost-Kept x _ (chain (supply.stop_keeps w) le)
  waited-Kept x (some job, w) le = (
    chain (mined_left ops cfg jobs_left supply job _ _)
        (chain (supply.mine_keeps _ _) (chain (supply.log_keeps _ w) le)),
    mined_failures job _ _,
  )

  tested-Kept :
      (x : Progress W) (r : Bool × W)
      → jobs_left r.1 ≤ jobs_left x.world
      → Kept x (tested ops cfg x r).1
  tested-Kept x (stopping, w) le =
      elim (Bool-cases (not stopping && has_cycles ops cfg x.cycles_done)) [
        | inl t ↦ rw (t, tested) (waited-Kept x _ (chain (wait_keeps _ w) le))
        | inr n ↦ rw (n, tested) (chain (supply.log_keeps _ w) le, refl)
      ]

  session_round-Kept : (x : Progress W) → Kept x (session_round ops cfg x).1
  unfolding session_round
  session_round-Kept x = tested-Kept x (ops.stop_requested x.world) (supply.stop_keeps x.world)

  chain-Kept : (x y z : Progress W) → Kept x y → Kept y z → Kept x z
  chain-Kept x y z (le, e) (le', e') = (chain le' le, e' ∙ e)

  session_started-Kept :
      (rounds : ℕ) (x : Progress W) (r : Bool × W)
      → jobs_left r.1 ≤ jobs_left x.world
      → Kept x (session_started ops cfg rounds x r).1
  session_started-Kept rounds x (false, w) le = (le, refl)
  session_started-Kept rounds x (true, w) le =
      repeat_keeps (session_round ops cfg) (Kept x)
        (λ y k. chain-Kept x y (session_round ops cfg y).1 k (session_round-Kept y)) rounds
        (record x { world = w }) (le, refl)

  -- A session raises neither, however it ends.
  pub run_stratum_session-Kept :
      (rounds : ℕ) (x : Progress W) → Kept x (run_stratum_session ops cfg rounds x).1
  unfolding run_stratum_session
  run_stratum_session-Kept rounds x = session_started-Kept rounds x _ (
      chain (start_keeps ops cfg jobs_left supply (ops.new_client x.world))
        (supply.new_client_keeps x.world))
