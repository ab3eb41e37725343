-- ===== src/Runtime/Health.antt =====
-- The health file and the reports behind the loop, of src/lib/miner_runtime.cpp. How the accepted
-- shares per minute print, a computation on doubles, and the duration of the clock are arguments.
pub mod Snapshot
use hermit_miner.Base.{
  ℕ, Bool, true, false, List, [], ◌∷◌, ◌++◌, Option, none, some, Bytes, codes, if◌then◌else◌, ◌==◌,
  ltb, is_empty,
}
use hermit_miner.Base.Digits.{to_decimal}
use hermit_miner.Config.{MinerConfig}
use hermit_miner.Logger.Event
use hermit_miner.Runtime.Loop.{LoopState, run_stratum_loop}
use hermit_miner.Runtime.{Ops, Progress, SessionStats, compute_readiness_status}

-- The runtime's own copy of the escaping.
unfoldable pub json_escape : Bytes → Bytes
json_escape [] = []
json_escape (ch ∷ input) =
    let out = json_escape input in
    if ch == b'\\'
    then codes "\\\\" ++ out
    else if ch == b'"'
    then codes "\\\"" ++ out
    else if ch == b'\n'
    then codes "\\n" ++ out
    else if ch == b'\r'
    then codes "\\r" ++ out
    else if ch == b'\t'
    then codes "\\t" ++ out
    else ch ∷ out

-- The operations on doubles that the rate needs, and how std::fixed with two digits prints one.
pub record Doubles : Type 1 where
  pub Double : Type 0
  pub of_uint : ℕ → Double
  pub divide : Double → Double → Double
  pub is_positive : Double → Bool
  pub fixed_two : Double → Bytes

unfoldable pub compute_accepted_per_min : (doubles : Doubles) → SessionStats → ℕ → doubles.Double
compute_accepted_per_min doubles stats duration_sec =
    let accepted = doubles.of_uint stats.accepted_count in
    let minutes =
      if ltb 0 duration_sec
      then doubles.divide (doubles.of_uint duration_sec) (doubles.of_uint 60)
      else doubles.of_uint 0 in
    if doubles.is_positive minutes then doubles.divide accepted minutes else accepted

-- The text of the file.
unfoldable pub snapshot : Bytes → SessionStats → Bytes → ℕ → Bytes → Bytes
snapshot node_id stats readiness_status duration_sec accepted_per_min =
    codes "{\"node_id\":\""
    ++ (json_escape node_id
        ++ (codes "\",\"status\":\""
            ++ (json_escape readiness_status
                ++ (codes "\",\"accepted_count\":"
                    ++ (to_decimal stats.accepted_count
                        ++ (codes ",\"jobs_received\":"
                            ++ (to_decimal stats.jobs_received
                                ++ (codes ",\"shares_found\":"
                                    ++ (to_decimal stats.shares_found
                                        ++ (codes ",\"submits_attempted\":"
                                            ++ (to_decimal stats.submits_attempted
                                                ++ (codes ",\"submit_failures\":"
                                                    ++ (to_decimal stats.submit_failures
                                                        ++ (codes ",\"reconnect_events\":"
                                                            ++ (to_decimal stats.reconnect_events
                                                            ++ (codes ",\"session_failures\":"
                                                            ++ (to_decimal stats.session_failures
                                                            ++ (codes ",\"session_duration_sec\":"
                                                            ++ (to_decimal duration_sec
                                                            ++ (codes ",\"accepted_per_min\":"
                                                            ++ (accepted_per_min
                                                            ++ (codes ",\"last_job_id\":\""
                                                            ++ (json_escape stats.last_job_id
                                                            ++ codes "\"}")))))))))))))))))))))))

-- What the health file holds, if there is one, and the calls of the logger.
pub record Outputs : Type 0 where
  pub health : Option Bytes
  pub events : List Event.Event

unfoldable pub write_health_snapshot :
    MinerConfig → SessionStats → Bytes → ℕ → Bytes → Bool → Outputs → Outputs
write_health_snapshot cfg stats readiness_status duration_sec accepted_per_min is_open o =
    if is_empty cfg.health_output
    then o
    else if is_open
    then record o {
      health = some (snapshot cfg.node_id stats readiness_status duration_sec accepted_per_min);
    }
    else record o {
      events =
          o.events
          ++ Event.warn (codes "health") cfg.node_id (codes "Failed to write health snapshot")
              cfg.health_output
            ∷ [];
    }

-- The text of the summary.
abbrev pub summary : SessionStats → ℕ → Bytes → Bytes
summary stats duration_sec accepted_per_min =
    codes "accepted_count="
    ++ (to_decimal stats.accepted_count
        ++ (codes " jobs_received="
            ++ (to_decimal stats.jobs_received
                ++ (codes " shares_found="
                    ++ (to_decimal stats.shares_found
                        ++ (codes " submits_attempted="
                            ++ (to_decimal stats.submits_attempted
                                ++ (codes " submit_failures="
                                    ++ (to_decimal stats.submit_failures
                                        ++ (codes " reconnect_events="
                                            ++ (to_decimal stats.reconnect_events
                                                ++ (codes " session_failures="
                                                    ++ (to_decimal stats.session_failures
                                                        ++ (codes " last_failure_rc="
                                                            ++ (to_decimal stats.last_failure_rc
                                                            ++ (codes " session_duration_sec="
                                                            ++ (to_decimal duration_sec
                                                            ++ (codes " accepted_per_min="
                                                            ++ (accepted_per_min
                                                            ++ (codes " last_job_id="
                                                            ++ stats.last_job_id))))))))))))))))))))

-- The text of the report.
abbrev pub readiness : SessionStats → Bytes
readiness stats =
    codes "status="
    ++ (compute_readiness_status stats
        ++ (codes " accepted_count="
            ++ (to_decimal stats.accepted_count
                ++ (codes " submit_failures="
                    ++ (to_decimal stats.submit_failures
                        ++ (codes " session_failures="
                            ++ (to_decimal stats.session_failures
                                ++ (codes " reconnect_events="
                                    ++ to_decimal stats.reconnect_events))))))))

-- What the loop does behind its last round.
module _ {W : Type 0} (ops : Ops W) (cfg : MinerConfig) where
  abbrev note : Bytes → Bytes → W → W
  note message context w = ops.log (Event.info (codes "stratum") cfg.node_id message context) w

  unfoldable pub shut_down : ℕ → Bytes → Progress W → W
  shut_down duration_sec accepted_per_min p =
      let w₁ =
        note (codes "Shutdown summary") (summary p.stats duration_sec accepted_per_min) p.world in
      let w₂ = note (codes "Readiness report") (readiness p.stats) w₁ in
      let w₃ = ops.write_health_snapshot p.stats (compute_readiness_status p.stats) w₂ in
      note (codes "Stratum loop finished") (codes "cycles=" ++ to_decimal p.cycles_done) w₃

  -- The reports, when the loop has returned; `clock` gives the seconds since its start.
  abbrev reported : (W → ℕ) → (SessionStats → ℕ → Bytes) → Option ℕ × LoopState W → Option ℕ × W
  reported clock rate (none, s) = (none, s.progress.world)
  reported clock rate (some rc, s) =
      let duration_sec = clock s.progress.world in
      (some rc, shut_down duration_sec (rate s.progress.stats duration_sec) s.progress)

  -- The whole of `run_stratum_loop`.
  unfoldable pub loop_and_report : (W → ℕ) → (SessionStats → ℕ → Bytes) → ℕ → ℕ → W → Option ℕ × W
  loop_and_report clock rate sessions rounds w =
      reported clock rate (run_stratum_loop ops cfg sessions rounds w)
