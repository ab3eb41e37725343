-- ===== src/FakePool/Loop.antt =====
-- The loop of the runtime against the pool, with a limit of one cycle.
use hermit_miner.Base.{
  ℕ, suc, ◌≡◌, refl, ap, ◌∙◌, Bool, true, false, List, [], ◌∷◌, ◌++◌, Bytes, codes,
}
use hermit_miner.Config.{MinerConfig, pool_username}
use hermit_miner.FakePool.Jobs.{pool_job}
use hermit_miner.FakePool.Session.{Served}
use hermit_miner.FakePool.{pool_start, serve, json_resp, notify_line, subscribe_result}
use hermit_miner.Runtime.Pool.Rounds.{EndsAt, ends_with, has_cycles_at}
use hermit_miner.Runtime.Health.{Outputs}
use hermit_miner.Runtime.Pool.{World, client_ops}
use hermit_miner.Runtime.Session.Cycle.{credited}
use hermit_miner.Runtime.Session.{run_stratum_session}
use hermit_miner.Runtime.{Ops, MiningResult, SessionStats}
use hermit_miner.Stratum.Client.Waiting.{AllWaits}
use hermit_miner.Stratum.Client.{Exchange, Wait}
use hermit_miner.Stratum.Codec.{subscribe_request, authorize_request, submit_request}
use hermit_miner.Stratum.Connect.{Address, try_addresses}
use hermit_miner.Stratum.Transport.Lines.{Delivers}
use hermit_miner.Stratum.Transport.{Client}
use hermit_miner.FakePool.Cycle.{agent, conversation, Finds, run_stratum_session-pool}
use hermit_miner.Runtime.Loop.{
  LoopState, backoff_initial, with_world, settled, entered, loop_round, run_stratum_loop,
}
use hermit_miner.Runtime.Repeat.{next, give, after, repeat}
use hermit_miner.Runtime.Pool.Rounds.{stop_wire}
use hermit_miner.Runtime.{Progress, no_stats, has_cycles}
use hermit_miner.Base.{zero, Option, some, none}
use hermit_miner.Runtime.Session.{run_stratum_session}

abbrev pub progress_of : Option ℕ × LoopState World → Option ℕ × Progress World
progress_of (rc, s) = (rc, s.progress)

module _ (cfg : MinerConfig) (search : MinerConfig → World → MiningResult) (clock : World → ℕ)
    (rate : SessionStats → ℕ → Bytes) (opens : World → Bool) where
  abbrev ops : Ops World
  ops = client_ops cfg search clock rate opens

  settled_zero :
      (s : LoopState World) (r : Option ℕ × Progress World)
      → r.0 ≡ some 0
      → settled ops cfg s r ≡ (next, record { progress = r.1; backoff_sec = backoff_initial cfg })
  settled_zero s (none, x) e = absurd (cc)
  settled_zero s (some zero, x) e = refl
  settled_zero s (some (suc rc), x) e = absurd (cc)

  entered_over :
      (rounds : ℕ) (s : LoopState World) (r : Bool × World)
      → has_cycles ops cfg s.progress.cycles_done ≡ false
      → entered ops cfg rounds s r ≡ (give 0, with_world ops cfg r.1 s)
  entered_over rounds s (true, w) over = refl
  entered_over rounds s (false, w) over = rw (over, entered) refl

  entered_on :
      (rounds : ℕ) (s : LoopState World) (w : World)
      → has_cycles ops cfg s.progress.cycles_done ≡ true
      → entered ops cfg rounds s (false, w)
        ≡ settled ops cfg s (run_stratum_session ops cfg rounds (record s.progress { world = w }))
  entered_on rounds s w on = rw (on, entered) refl

  -- Behind a session that ends with the cycles used up, the loop ends.
  loop_over :
      (sessions rounds : ℕ) (s : LoopState World) {stats : SessionStats} {cycles : ℕ} {wire : Bytes}
      → has_cycles ops cfg cycles ≡ false
      → EndsAt stats cycles wire (some 0, s.progress)
      → EndsAt stats cycles wire (progress_of (repeat (loop_round ops cfg rounds) (suc sessions) s))
  unfolding repeat loop_round
  loop_over sessions rounds s over at =
      let body = loop_round ops cfg rounds in
      let here : has_cycles ops cfg s.progress.cycles_done ≡ false =
        ap (has_cycles ops cfg) at.cycles_at ∙ over in
      let last =
        ap (after body (repeat body sessions))
          (entered_over rounds s (ops.stop_requested s.progress.world) here) in
      ends_with (ap progress_of last)
        (record { code = refl; stats_at = at.stats_at; cycles_at = at.cycles_at; wire_at = refl })
        (stop_wire cfg search clock rate opens s.progress.world s.progress.world.loads_left
          ∙ at.wire_at)

  -- With a limit of one cycle, when there is no stop request at the first two loads, the pool is
  -- reached, the requests are sent in full, the answers of the pool are delivered behind any number of
  -- calls without them, and the search finds a nonce for the first job, the loop returns 0 with one
  -- job, one share and one acceptance counted and no failure. What its client has put on the socket is
  -- the subscription, the authorization and the share of that nonce, and the pool, given these bytes,
  -- sends exactly these answers and jobs.
  pub run_stratum_loop-pool :
      (sessions rounds m nonce : ℕ) (c : Client) (o : Outputs) (addrs : List Address)
      (cs : List (List Address)) (x₁ x₂ x₃ : Exchange) (es : List Exchange) {before : List Wait}
      (last : Wait) (later : List Wait) (ws : List (List Wait))
      → cfg.pool_max_cycles ≡ 1
      → (try_addresses addrs).reached_one ≡ true
      → Served (subscribe_request 1 agent) (json_resp 1 subscribe_result (codes "null")) 1 x₁
      → Served
          (authorize_request 2 (pool_username cfg) cfg.pool_password)
          (json_resp 2 (codes "true") (codes "null"))
          2
          x₂
      → AllWaits before
      → last.stop_requested ≡ false
      → Delivers last.polls (notify_line 1 ++ b'\n' ∷ [])
      → Finds cfg search clock rate opens nonce
      → Served
          (submit_request 3 (pool_username cfg) (pool_job 1).job_id nonce)
          (json_resp 3 (codes "true") (codes "null"))
          3
          x₃
      → EndsAt (credited (pool_job 1) no_stats) 1 (conversation cfg nonce) (
          progress_of (
            run_stratum_loop ops cfg (suc (suc sessions)) (suc (suc rounds)) (record {
              client = c;
              outputs = o;
              connects = addrs ∷ cs;
              exchanges = x₁ ∷ x₂ ∷ x₃ ∷ es;
              waits = (before ++ last ∷ later) ∷ ws;
              loads_left = suc (suc m);
            })))
        × (serve 4 pool_start (conversation cfg nonce) ≡ (
          true,
          record { notified = true; job_seq = 2 },
          json_resp 1 subscribe_result (codes "null")
              ∷ json_resp 2 (codes "true") (codes "null")
              ∷ notify_line 1
              ∷ json_resp 3 (codes "true") (codes "null")
              ∷ notify_line 2
              ∷ [],
        ))
  unfolding run_stratum_loop loop_round repeat
  run_stratum_loop-pool sessions rounds m nonce c o addrs cs x₁ x₂ x₃ es {before} last later ws one
        reach v₁ v₂ b go d finds v₃ =
      let w : World = record {
        client = c;
        outputs = o;
        connects = addrs ∷ cs;
        exchanges = x₁ ∷ x₂ ∷ x₃ ∷ es;
        waits = (before ++ last ∷ later) ∷ ws;
        loads_left = suc (suc m);
      } in
      let start : Progress World = record { world = w; cycles_done = 0; stats = no_stats } in
      let s : LoopState World = record { progress = start; backoff_sec = backoff_initial cfg } in
      let w' : World = record w { loads_left = suc m } in
      let session = run_stratum_session ops cfg (suc (suc rounds)) (record start { world = w' }) in
      let (at, served) =
        run_stratum_session-pool cfg search clock rate opens rounds m nonce no_stats c o addrs cs x₁
          x₂ x₃ es last later ws one reach v₁ v₂ b go d finds v₃ in
      let s' : LoopState World = record {
        progress = session.1;
        backoff_sec = backoff_initial cfg;
      } in
      let body = loop_round ops cfg (suc (suc rounds)) in
      let first : body s ≡ (next, s') =
        entered_on (suc (suc rounds)) s w' (has_cycles_at cfg search clock rate opens 0 one)
        ∙ settled_zero s session at.code in
      let ended : EndsAt (credited (pool_job 1) no_stats) 1 (conversation cfg nonce)
          (some 0, session.1) =
        record {
          code = refl;
          stats_at = at.stats_at;
          cycles_at = at.cycles_at;
          wire_at = at.wire_at;
        } in
      (
        ends_with (ap progress_of (ap (after body (repeat body (suc sessions))) first))
            (loop_over sessions (suc (suc rounds)) s'
              (has_cycles_at cfg search clock rate opens 1 one) ended)
            refl,
        served,
      )
