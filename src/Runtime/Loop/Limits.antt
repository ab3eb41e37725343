-- ===== src/Runtime/Loop/Limits.antt =====
-- The statistics of the whole run, and the code that it returns.
use hermit_miner.Base.{
  ℕ, zero, suc, ◌^◌, ◌<◌, ◌≤◌, ◌≡◌, ◌⊎◌, inl, inr, Bool, Bool-cases, true, false, not, ◌&&◌, Option,
  none, some, arith, refl,
}
use hermit_miner.Config.{MinerConfig}
use hermit_miner.Runtime.{Ops, Progress, SessionStats, has_cycles}
use hermit_miner.Runtime.Repeat.{Control, next, give, unfinished, repeat_keeps, repeat_gives}
use hermit_miner.Runtime.Loop.{
  LoopState, spent, slept, limited, failed, settled, entered, loop_round, run_stratum_loop,
}
use hermit_miner.Runtime.Session.Counts.{Good, run_stratum_session-Good}

module _ {W : Type 0} (ops : Ops W) (cfg : MinerConfig) where
  slept-Good :
      (s : LoopState W) (r : Bool × W)
      → Good ops cfg s.progress
      → Good ops cfg (slept ops cfg s r).1.progress
  slept-Good s (true, w) g = g
  slept-Good s (false, w) g = g

  limited-Good :
      (rc : ℕ) (s : LoopState W)
      → Good ops cfg s.progress
      → Good ops cfg (limited ops cfg rc s).1.progress
  limited-Good rc s g = elim (Bool-cases (spent ops cfg s.progress.stats)) [
    | inl t ↦ rw (t, limited) g
    | inr n ↦ rw (n, limited) (slept-Good s _ g)
  ]

  failed-Good :
      (rc : ℕ) (s : LoopState W)
      → Good ops cfg s.progress
      → Good ops cfg (failed ops cfg rc s).1.progress
  unfolding failed
  failed-Good rc s g = limited-Good rc _ (
    record {
      attempted = g.0.attempted;
      outcomes = g.0.outcomes;
      cycles = g.0.cycles;
      failures = rw (g.0.failures) refl;
    },
    g.1,
  )

  settled-Good :
      (s : LoopState W) (r : Option ℕ × Progress W)
      → Good ops cfg r.1
      → Good ops cfg (settled ops cfg s r).1.progress
  settled-Good s (none, x) g = g
  settled-Good s (some zero, x) g = g
  settled-Good s (some (suc rc), x) g = failed-Good (suc rc) _ g

  module _ (fits : cfg.pool_max_cycles < 2 ^ 32) where
    entered-Good :
        (rounds : ℕ) (s : LoopState W) (r : Bool × W)
        → Good ops cfg s.progress
        → Good ops cfg (entered ops cfg rounds s r).1.progress
    entered-Good rounds s (stopping, w) g =
        elim (Bool-cases (not stopping && has_cycles ops cfg s.progress.cycles_done)) [
          | inl t ↦
              rw (t, entered)
                (settled-Good s _ (
                  run_stratum_session-Good ops cfg fits rounds (record s.progress { world = w }) g))
          | inr n ↦ rw (n, entered) g
        ]

    -- Whatever the client, the search, the clock and the signals do, with a limit of cycles below
    -- 2^32 the loop keeps the counts of its statistics consistent from the start and the cycles
    -- within the limit, over any number of sessions of any number of rounds.
    pub run_stratum_loop-Good :
        (sessions rounds : ℕ) (w : W)
        → Good ops cfg (run_stratum_loop ops cfg sessions rounds w).1.progress
    unfolding run_stratum_loop loop_round
    run_stratum_loop-Good sessions rounds w =
        repeat_keeps (loop_round ops cfg rounds) (λ s. Good ops cfg s.progress)
          (λ s g. entered-Good rounds s (ops.stop_requested s.progress.world) g) sessions _
          (
            record { attempted = refl; outcomes = refl; cycles = refl; failures = refl },
            inr (omega arith),
          )

  -- What a code says of the state that the loop returns in.
  abbrev pub Ended : ℕ → LoopState W → Type 0
  Ended rc s =
      (rc ≡ 0)
      ⊎ ((0 < cfg.pool_max_reconnect_attempts)
          × (cfg.pool_max_reconnect_attempts ≤ s.progress.stats.session_failures)
          × (s.progress.stats.last_failure_rc ≡ rc))

  abbrev Returns : Control × LoopState W → Type 0
  Returns (next, s) = Unit
  Returns (give rc, s) = Ended rc s
  Returns (unfinished, s) = Unit

  slept-Returns : (s : LoopState W) (r : Bool × W) → Returns (slept ops cfg s r)
  slept-Returns s (true, w) = inl refl
  slept-Returns s (false, w) = tt

  spent-reached :
      (stats : SessionStats)
      → spent ops cfg stats ≡ true
      → (0 < cfg.pool_max_reconnect_attempts)
        × (cfg.pool_max_reconnect_attempts ≤ stats.session_failures)
  spent-reached stats t = ground arith

  limited-Returns :
      (rc : ℕ) (s : LoopState W)
      → s.progress.stats.last_failure_rc ≡ rc
      → Returns (limited ops cfg rc s)
  limited-Returns rc s e = elim (Bool-cases (spent ops cfg s.progress.stats)) [
    | inl t ↦
        let (set, reached) = spent-reached s.progress.stats t in
        rw (t, limited) (inr (set, reached, e))
    | inr n ↦ rw (n, limited) (slept-Returns s _)
  ]

  failed-Returns : (rc : ℕ) (s : LoopState W) → Returns (failed ops cfg rc s)
  unfolding failed
  failed-Returns rc s = limited-Returns rc _ refl

  settled-Returns : (s : LoopState W) (r : Option ℕ × Progress W) → Returns (settled ops cfg s r)
  settled-Returns s (none, x) = tt
  settled-Returns s (some zero, x) = tt
  settled-Returns s (some (suc rc), x) = failed-Returns (suc rc) _

  loop_round-Returns : (rounds : ℕ) (s : LoopState W) → Returns (loop_round ops cfg rounds s)
  unfolding loop_round
  loop_round-Returns rounds s =
      elim (Bool-cases (
        not (ops.stop_requested s.progress.world).0 && has_cycles ops cfg s.progress.cycles_done)) [
          | inl t ↦ rw (t, entered) (settled-Returns s _)
          | inr n ↦ rw (n, entered) (inl refl)
        ]

  Returns-give : (c : Control × LoopState W) (rc : ℕ) → Returns c → c.0 ≡ give rc → Ended rc c.1
  Returns-give (next, s) rc k e = absurd (cc)
  Returns-give (give v, s) rc k e = let same : v ≡ rc = cc in rw (← same) k
  Returns-give (unfinished, s) rc k e = absurd (cc)

  -- When the loop returns a code other than 0, the configuration sets a limit of attempts, the failed
  -- sessions have reached it, and the code is that of the last failed session.
  pub run_stratum_loop-Ended :
      (sessions rounds : ℕ) (w : W) (rc : ℕ)
      → (run_stratum_loop ops cfg sessions rounds w).0 ≡ some rc
      → Ended rc (run_stratum_loop ops cfg sessions rounds w).1
  unfolding run_stratum_loop
  run_stratum_loop-Ended sessions rounds w rc e =
      repeat_gives (loop_round ops cfg rounds) (λ _. Unit) (λ _ _. tt) Ended
        (λ s v _ h. Returns-give (loop_round ops cfg rounds s) v (loop_round-Returns rounds s) h)
        sessions _ rc tt e
