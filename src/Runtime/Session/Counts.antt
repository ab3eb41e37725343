-- ===== src/Runtime/Session/Counts.antt =====
-- The statistics and the codes of a session.
use hermit_miner.Base.{
  ℕ, ◌+◌, ◌^◌, ◌≤◌, ◌<◌, ◌≡◌, ◌⊎◌, inl, inr, Bool, Bool-cases, true, false, not, ◌&&◌, Option, none,
  some, u32, u64, arith, refl,
}
use hermit_miner.Config.{MinerConfig}
use hermit_miner.Runtime.{Ops, Progress, SessionStats, MiningResult, has_cycles}
use hermit_miner.Runtime.Repeat.{repeat_keeps}
use hermit_miner.Runtime.Session.{
  submitted, mined, lost, waited, tested, session_round, session_started, run_stratum_session,
  count_share, start_stratum_session,
}
use hermit_miner.Stratum.Codec.{StratumJob}

-- Each share is submitted once, each submission is accepted or fails, and the cycles are the
-- accepted shares; the counters are machine words.
pub record Counts (cycles_done : ℕ) (s : SessionStats) : Type 0 where
  pub attempted : s.submits_attempted ≡ s.shares_found
  pub outcomes : u64 (s.accepted_count + s.submit_failures) ≡ s.submits_attempted
  pub cycles : u32 s.accepted_count ≡ cycles_done
  pub failures : s.reconnect_events ≡ s.session_failures

module _ {W : Type 0} (ops : Ops W) (cfg : MinerConfig) where
  -- No more cycles than the configuration allows, when it sets a limit.
  abbrev pub Within : ℕ → Type 0
  Within cycles_done = (cfg.pool_max_cycles ≡ 0) ⊎ (cycles_done ≤ cfg.pool_max_cycles)

  abbrev pub Good : Progress W → Type 0
  Good x = Counts x.cycles_done x.stats × Within x.cycles_done

  module _ (fits : cfg.pool_max_cycles < 2 ^ 32) where
    Within-next : (c : ℕ) → has_cycles ops cfg c ≡ true → Within (u32 (c + 1))
    Within-next c h = ground arith

    submitted-Good :
        (job : StratumJob) (x : Progress W) (r : Bool × W)
        → Good x
        → has_cycles ops cfg x.cycles_done ≡ true
        → Good (submitted ops cfg job (count_share ops cfg x) r).1
    unfolding submitted
    submitted-Good job x (false, w) g h = (
      record {
        attempted = rw (g.0.attempted) refl;
        outcomes = let e = g.0.outcomes in omega arith;
        cycles = g.0.cycles;
        failures = g.0.failures;
      },
      g.1,
    )
    submitted-Good job x (true, w) g h = (
      record {
        attempted = rw (g.0.attempted) refl;
        outcomes = let e = g.0.outcomes in omega arith;
        cycles = let e = g.0.cycles in omega arith;
        failures = g.0.failures;
      },
      Within-next x.cycles_done h,
    )

    mined-Good :
        (job : StratumJob) (x : Progress W) (r : MiningResult × W)
        → Good x
        → has_cycles ops cfg x.cycles_done ≡ true
        → Good (mined ops cfg job x r).1
    unfolding mined
    mined-Good job x (result, w) g h = elim (Bool-cases (result.aborted)) [
      | inl a ↦ rw a g
      | inr a ↦ elim (Bool-cases (result.found)) [
        | inl f ↦ rw (a, f) (submitted-Good job x _ g h)
        | inr f ↦ rw (a, f) g
      ]
    ]

    lost-Good : (x : Progress W) (r : Bool × W) → Good x → Good (lost ops cfg x r).1
    lost-Good x (true, w) g = g
    lost-Good x (false, w) g = g

    waited-Good :
        (x : Progress W) (r : Option StratumJob × W)
        → Good x
        → has_cycles ops cfg x.cycles_done ≡ true
        → Good (waited ops cfg x r).1
    unfolding waited
    waited-Good x (none, w) g h = lost-Good x _ g
    waited-Good x (some job, w) g h =
        mined-Good job _ _
          (
            record {
              attempted = g.0.attempted;
              outcomes = g.0.outcomes;
              cycles = g.0.cycles;
              failures = g.0.failures;
            },
            g.1,
          )
          h

    tested-Good : (x : Progress W) (r : Bool × W) → Good x → Good (tested ops cfg x r).1
    tested-Good x (stopping, w) g =
        elim (Bool-cases (not stopping && has_cycles ops cfg x.cycles_done)) [
          | inl t ↦ rw (t, tested) (waited-Good x _ g (ground arith))
          | inr n ↦ rw (n, tested) g
        ]

    session_round-Good : (x : Progress W) → Good x → Good (session_round ops cfg x).1
    unfolding session_round
    session_round-Good x g = tested-Good x (ops.stop_requested x.world) g

    -- Whatever the client, the search, the clock and the signals do, with a limit of cycles below
    -- 2^32 a session of any number of rounds keeps the counts of the statistics consistent and the
    -- cycles within the limit.
    pub run_stratum_session-Good :
        (rounds : ℕ) (x : Progress W) → Good x → Good (run_stratum_session ops cfg rounds x).1
    unfolding run_stratum_session
    run_stratum_session-Good rounds x g =
        elim (Bool-cases ((start_stratum_session ops cfg (ops.new_client x.world)).0)) [
          | inl t ↦
              rw (t, session_started)
                (repeat_keeps (session_round ops cfg) Good session_round-Good rounds _ g)
          | inr n ↦ rw (n, session_started) g
        ]
