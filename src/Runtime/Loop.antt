-- ===== src/Runtime/Loop.antt =====
-- `run_stratum_loop` of src/lib/miner_runtime.cpp up to its last round: sessions, the limit of
-- attempts, and the delay between them.
pub mod Backoff
pub mod Limits
pub mod Ends
use hermit_miner.Base.{
  ℕ, zero, suc, ◌+◌, ◌*◌, Bool, true, false, not, ◌&&◌, [], ◌∷◌, ◌++◌, Option, none, some, Bytes,
  codes, if◌then◌else◌, u32, min, max, leb, ltb,
}
use hermit_miner.Base.Digits.{to_decimal}
use hermit_miner.Config.{MinerConfig}
use hermit_miner.Logger.Event
use hermit_miner.Runtime.{
  Ops, Progress, SessionStats, no_stats, increment, warn, has_cycles, maybe_write_health,
}
use hermit_miner.Runtime.Repeat.{Control, next, give, unfinished, repeat}
use hermit_miner.Runtime.Session.{run_stratum_session}

-- The progress, and the delay before the next session in seconds.
pub record LoopState (W : Type 0) : Type 0 where
  pub progress : Progress W
  pub backoff_sec : ℕ

abbrev pub backoff_initial : MinerConfig → ℕ
backoff_initial cfg = max 1 cfg.pool_reconnect_initial_sec

abbrev pub backoff_max : MinerConfig → ℕ
backoff_max cfg = max (backoff_initial cfg) cfg.pool_reconnect_max_sec

-- `std::min(backoff_max, backoff_sec * 2U)` on 32 bits
unfoldable pub next_backoff : MinerConfig → ℕ → ℕ
next_backoff cfg backoff_sec = min (backoff_max cfg) (u32 (backoff_sec * 2))

module _ {W : Type 0} (ops : Ops W) (cfg : MinerConfig) where
  -- Behind the last load of `stop_requested` in a round.
  abbrev pub slept : LoopState W → Bool × W → Control × LoopState W
  slept s (true, w) = (give 0, record s { progress = record s.progress { world = w } })
  slept s (false, w) = (
    next,
    record {
      progress = record s.progress { world = ops.sleep_for s.backoff_sec w };
      backoff_sec = next_backoff cfg s.backoff_sec;
    },
  )

  abbrev failure_context : ℕ → LoopState W → Bytes
  failure_context rc s =
      codes "rc="
      ++ to_decimal rc
      ++ codes " sleep_sec="
      ++ to_decimal s.backoff_sec
      ++ codes " cycles_done="
      ++ to_decimal s.progress.cycles_done

  abbrev exhausted_context : ℕ → LoopState W → Bytes
  exhausted_context rc s =
      codes "rc="
      ++ to_decimal rc
      ++ codes " max_reconnect_attempts="
      ++ to_decimal cfg.pool_max_reconnect_attempts
      ++ codes " cycles_done="
      ++ to_decimal s.progress.cycles_done

  -- The statistics of a failed session.
  abbrev pub count_failure : ℕ → SessionStats → SessionStats
  count_failure rc stats = record stats {
    reconnect_events = increment stats.reconnect_events;
    session_failures = increment stats.session_failures;
    last_failure_rc = rc;
  }

  -- Whether the limit of attempts is reached.
  abbrev pub spent : SessionStats → Bool
  spent stats =
      ltb 0 cfg.pool_max_reconnect_attempts
      && leb cfg.pool_max_reconnect_attempts stats.session_failures

  abbrev pub with_world : W → LoopState W → LoopState W
  with_world w s = record s { progress = record s.progress { world = w } }

  abbrev pub limited : ℕ → LoopState W → Control × LoopState W
  limited rc s = elim (spent s.progress.stats) [
    | true ↦ (
      give rc,
      with_world
          (ops.log
            (Event.error (codes "stratum") cfg.node_id (codes "Reconnect attempt limit reached")
              (exhausted_context rc s))
            s.progress.world)
          s,
    )
    | false ↦ slept s (
        ops.stop_requested (
          warn ops cfg (codes "Stratum cycle failed; reconnecting") (failure_context rc s)
            s.progress.world))
  ]

  -- Behind a session that returned a code other than 0.
  unfoldable pub failed : ℕ → LoopState W → Control × LoopState W
  failed rc s =
      let stats = count_failure rc s.progress.stats in
      limited rc (record s {
        progress = record s.progress {
          world = maybe_write_health ops cfg stats s.progress.world;
          stats = stats;
        };
      })

  -- Behind a session.
  abbrev pub settled : LoopState W → Option ℕ × Progress W → Control × LoopState W
  settled s (none, x) = (unfinished, record s { progress = x })
  settled s (some zero, x) = (next, record { progress = x; backoff_sec = backoff_initial cfg })
  settled s (some (suc rc), x) = failed (suc rc) (record s { progress = x })

  abbrev pub entered : ℕ → LoopState W → Bool × W → Control × LoopState W
  entered rounds s (stopping, w) =
      elim (not stopping && has_cycles ops cfg s.progress.cycles_done) [
        | true ↦ settled s (run_stratum_session ops cfg rounds (record s.progress { world = w }))
        | false ↦ (give 0, with_world w s)
      ]

  -- One round, its test included.
  unfoldable pub loop_round : ℕ → LoopState W → Control × LoopState W
  loop_round rounds s = entered rounds s (ops.stop_requested s.progress.world)

  -- At most so many sessions, each of at most so many rounds.
  unfoldable pub run_stratum_loop : ℕ → ℕ → W → Option ℕ × LoopState W
  run_stratum_loop sessions rounds w = repeat (loop_round rounds) sessions (record {
    progress = record { world = w; cycles_done = 0; stats = no_stats };
    backoff_sec = backoff_initial cfg;
  })
