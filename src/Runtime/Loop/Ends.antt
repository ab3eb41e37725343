-- ===== src/Runtime/Loop/Ends.antt =====
-- The end of the loop over the sessions, when the attempts are limited.
use hermit_miner.Base.{
  ℕ, zero, suc, ◌+◌, ◌^◌, ◌≤◌, ◌<◌, ◌≡◌, ◌≢◌, ◌⊎◌, inl, inr, Bool, Bool-cases, true, false, not,
  ◌&&◌, Option, none, some, arith, refl, ◌∙◌,
}
use hermit_miner.Config.{MinerConfig}
use hermit_miner.Runtime.Loop.{
  LoopState, spent, slept, limited, failed, settled, entered, loop_round, run_stratum_loop,
}
use hermit_miner.Runtime.Repeat.{Control, next, give, unfinished, repeat, after_ends}
use hermit_miner.Runtime.Session.Ends.{Supply, chain, health_keeps-maybe, run_stratum_session_ends}
use hermit_miner.Runtime.Session.Keeps.{run_stratum_session-Kept}
use hermit_miner.Runtime.Session.Over.{Latch, Over, run_stratum_session-Over}
use hermit_miner.Runtime.Session.{run_stratum_session}
use hermit_miner.Runtime.{Ops, Progress, SessionStats, has_cycles}

-- What bounds the whole run: the supply of jobs, which no operation raises, and a stop request that
-- is not taken back.
pub record Bounded {W : Type 0} (ops : Ops W) (jobs_left : W → ℕ) (Stopping : W → Type 0)
    : Type 0 where
  pub supply : Supply ops jobs_left
  pub wait_keeps : (timeout : ℕ) (w : W) → jobs_left (ops.wait_for_job timeout w).1 ≤ jobs_left w
  pub sleep_keeps : (seconds : ℕ) (w : W) → jobs_left (ops.sleep_for seconds w) ≤ jobs_left w
  pub latch : Latch ops Stopping

module _ {W : Type 0} (ops : Ops W) (cfg : MinerConfig) (jobs_left : W → ℕ) (Stopping : W → Type 0)
    (bounded : Bounded ops jobs_left Stopping) where
  abbrev Done : LoopState W → Type 0
  Done s = Over ops cfg Stopping bounded.latch s.progress

  -- What a round does that goes on: it leaves no more jobs, and either no further session, or one
  -- failed session more, below the limit.
  abbrev Advances : ℕ → ℕ → LoopState W → Type 0
  Advances left failures s =
      (jobs_left s.progress.world ≤ left)
      × (Done s
          ⊎ ((s.progress.stats.session_failures ≡ failures + 1)
              × (failures + 1 < cfg.pool_max_reconnect_attempts)))

  abbrev Turn : ℕ → ℕ → Control × LoopState W → Type 0
  Turn left failures (next, s) = Advances left failures s
  Turn left failures (give rc, s) = Unit
  Turn left failures (unfinished, s) = ⊥

  slept-Turn :
      (left failures : ℕ) (s : LoopState W) (r : Bool × W)
      → jobs_left r.1 ≤ left
      → s.progress.stats.session_failures ≡ failures + 1
      → failures + 1 < cfg.pool_max_reconnect_attempts
      → Turn left failures (slept ops cfg s r)
  slept-Turn left failures s (true, w) le e lt = tt
  slept-Turn left failures s (false, w) le e lt = (chain (bounded.sleep_keeps _ w) le, inr (e, lt))

  below_limit :
      (stats : SessionStats)
      → 0 < cfg.pool_max_reconnect_attempts
      → spent ops cfg stats ≡ false
      → stats.session_failures < cfg.pool_max_reconnect_attempts
  below_limit stats pos n = ground arith

  limited-Turn :
      (left failures rc : ℕ) (s : LoopState W)
      → 0 < cfg.pool_max_reconnect_attempts
      → jobs_left s.progress.world ≤ left
      → s.progress.stats.session_failures ≡ failures + 1
      → Turn left failures (limited ops cfg rc s)
  limited-Turn left failures rc s pos le e = elim (Bool-cases (spent ops cfg s.progress.stats)) [
    | inl t ↦ rw (t, limited) tt
    | inr n ↦
        let below = below_limit s.progress.stats pos n in
        rw (n, limited)
          (slept-Turn left failures s _
            (chain (bounded.supply.stop_keeps _) (chain (bounded.supply.log_keeps _ _) le)) e
            (omega arith))
  ]

  failed-Turn :
      (left failures rc : ℕ) (s : LoopState W)
      → 0 < cfg.pool_max_reconnect_attempts
      → failures + 1 < 2 ^ 64
      → jobs_left s.progress.world ≤ left
      → s.progress.stats.session_failures ≡ failures
      → Turn left failures (failed ops cfg rc s)
  unfolding failed
  failed-Turn left failures rc s pos small le e =
      limited-Turn left failures rc _ pos
        (chain (health_keeps-maybe ops cfg jobs_left bounded.supply _ _) le) (omega arith)

  settled-Turn :
      (left failures : ℕ) (s : LoopState W) (r : Option ℕ × Progress W)
      → 0 < cfg.pool_max_reconnect_attempts
      → failures + 1 < 2 ^ 64
      → r.0 ≢ none
      → (r.0 ≡ some 0 → Over ops cfg Stopping bounded.latch r.1)
      → jobs_left r.1.world ≤ left
      → r.1.stats.session_failures ≡ failures
      → Turn left failures (settled ops cfg s r)
  settled-Turn left failures s (none, x) pos small ends over le e = absurd (ends refl)
  settled-Turn left failures s (some zero, x) pos small ends over le e = (le, inl (over refl))
  settled-Turn left failures s (some (suc rc), x) pos small ends over le e =
      failed-Turn left failures (suc rc) _ pos small le e

  entered-true :
      (rounds : ℕ) (s : LoopState W) (stopping : Bool) (w : W)
      → (not stopping && has_cycles ops cfg s.progress.cycles_done) ≡ true
      → entered ops cfg rounds s (stopping, w)
        ≡ settled ops cfg s (run_stratum_session ops cfg rounds (record s.progress { world = w }))
  entered-true rounds s stopping w t = rw (t, entered) refl

  entered-Turn :
      (rounds failures : ℕ) (s : LoopState W) (r : Bool × W)
      → 0 < cfg.pool_max_reconnect_attempts
      → failures + 1 < 2 ^ 64
      → jobs_left r.1 ≤ jobs_left s.progress.world
      → jobs_left s.progress.world < rounds
      → s.progress.stats.session_failures ≡ failures
      → Turn (jobs_left s.progress.world) failures (entered ops cfg rounds s r)
  entered-Turn rounds failures s (stopping, w) pos small le lt e =
      elim (Bool-cases (not stopping && has_cycles ops cfg s.progress.cycles_done)) [
        | inl t ↦
            let x : Progress W = record s.progress { world = w } in
            let kept =
              run_stratum_session-Kept ops cfg jobs_left bounded.supply bounded.wait_keeps rounds
                x in
            rw (t, entered)
              (settled-Turn (jobs_left s.progress.world) failures s _ pos small
                (run_stratum_session_ends ops cfg jobs_left bounded.supply rounds x (omega arith))
                (run_stratum_session-Over ops cfg Stopping bounded.latch rounds x) (chain kept.0 le)
                (kept.1 ∙ e))
        | inr n ↦ rw (n, entered) tt
      ]

  entered_over :
      (rounds : ℕ) (s : LoopState W) (r : Bool × W)
      → (not r.0 && has_cycles ops cfg s.progress.cycles_done) ≡ false
      → (entered ops cfg rounds s r).0 ≡ give 0
  entered_over rounds s (stopping, w) n = rw (n, entered) refl

  -- Behind a session that leaves nothing to do, the next test ends the loop.
  Done-gives : (rounds : ℕ) (s : LoopState W) → Done s → (loop_round ops cfg rounds s).0 ≡ give 0
  unfolding loop_round
  Done-gives rounds s (inl stopping) =
      let shown = bounded.latch.shown s.progress.world stopping in
      entered_over rounds s (ops.stop_requested s.progress.world) (ground arith)
  Done-gives rounds s (inr no_cycle) =
      entered_over rounds s (ops.stop_requested s.progress.world) (ground arith)

  Done-ends :
      (rounds sessions : ℕ) (s : LoopState W)
      → 0 < sessions
      → Done s
      → (repeat (loop_round ops cfg rounds) sessions s).0 ≢ none
  unfolding repeat
  Done-ends rounds zero s pos done = absurd (omega arith)
  Done-ends rounds (suc sessions) s pos done =
      let over = Done-gives rounds s done in
      after_ends (loop_round ops cfg rounds) (repeat (loop_round ops cfg rounds) sessions)
        (loop_round ops cfg rounds s) (λ e. cc) (λ e. absurd (cc))

  Turn-next :
      (left failures : ℕ) (c : Control × LoopState W)
      → Turn left failures c
      → (c.0 ≢ unfinished) × (c.0 ≡ next → Advances left failures c.1)
  Turn-next left failures (next, s) turn = ((λ e. cc), λ e. turn)
  Turn-next left failures (give rc, s) turn = ((λ e. cc), λ e. absurd (cc))
  Turn-next left failures (unfinished, s) turn = absurd turn

  sessions_end :
      (rounds sessions failures : ℕ) (s : LoopState W)
      → failures < cfg.pool_max_reconnect_attempts
      → cfg.pool_max_reconnect_attempts < 2 ^ 64
      → jobs_left s.progress.world < rounds
      → s.progress.stats.session_failures ≡ failures
      → cfg.pool_max_reconnect_attempts < sessions + failures
      → (repeat (loop_round ops cfg rounds) sessions s).0 ≢ none
  unfolding repeat loop_round
  sessions_end rounds zero failures s few fits lt e enough = absurd (omega arith)
  sessions_end rounds (suc sessions) failures s few fits lt e enough =
      let turn =
        entered-Turn rounds failures s (ops.stop_requested s.progress.world) (omega arith)
          (omega arith) (bounded.supply.stop_keeps s.progress.world) lt e in
      let (goes, advances) = Turn-next (jobs_left s.progress.world) failures _ turn in
      after_ends (loop_round ops cfg rounds) (repeat (loop_round ops cfg rounds) sessions)
        (loop_round ops cfg rounds s) goes
        (λ n. elim ((advances n).1) [
          | inl done ↦ Done-ends rounds sessions _ (omega arith) done
          | inr (counted, below) ↦
              sessions_end rounds sessions (failures + 1) _ below fits
                (let less = (advances n).0 in omega arith) counted (omega arith)
        ])

  -- With a limit of attempts below 2^64, with a count of the jobs to come that falls with each job
  -- received and that no operation raises, and with stop requests that are not taken back, the loop
  -- returns, given more sessions than the limit and more rounds than that count.
  pub run_stratum_loop_ends :
      (sessions rounds : ℕ) (w : W)
      → 0 < cfg.pool_max_reconnect_attempts
      → cfg.pool_max_reconnect_attempts < 2 ^ 64
      → jobs_left w < rounds
      → cfg.pool_max_reconnect_attempts < sessions
      → (run_stratum_loop ops cfg sessions rounds w).0 ≢ none
  unfolding run_stratum_loop
  run_stratum_loop_ends sessions rounds w pos fits lt enough =
      sessions_end rounds sessions 0 _ pos fits lt refl (omega arith)
