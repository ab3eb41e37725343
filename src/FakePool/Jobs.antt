-- ===== src/FakePool/Jobs.antt =====
-- The client waits for a job of the pool.
use hermit_miner.Base.Digits.Print.{to_decimal_length}
use hermit_miner.Base.Digits.{to_decimal}
use hermit_miner.Base.{
  ℕ, ◌<◌, ◌≤◌, ◌^◌, ◌≡◌, ◌≢◌, true, false, List, [], ◌∷◌, ◌++◌, some, codes, arith, All-append,
  length, length-append,
}
use hermit_miner.FakePool.Conversation.{decimal-NoBreak}
use hermit_miner.FakePool.Reads.{parse_notify-notify_line}
use hermit_miner.FakePool.{notify_line}
use hermit_miner.Stratum.Client.Waiting.{AllWaits, wait_for_job-first}
use hermit_miner.Stratum.Client.{Wait, say, wait_for_job}
use hermit_miner.Logger.Event
use hermit_miner.Stratum.Codec.{StratumJob}
use hermit_miner.Stratum.Codec.Escape.{NoBreak}
use hermit_miner.Stratum.Transport.Lines.{Delivers}
use hermit_miner.Stratum.Transport.Waiting.{whole}
use hermit_miner.Stratum.Transport.{Client, max_json_line_bytes}

notify_line-NoBreak : (job_seq : ℕ) → NoBreak (notify_line job_seq)
unfolding notify_line
notify_line-NoBreak job_seq =
    let join = All-append (λ c. (c ≢ b'\n') × (c ≢ b'\r')) in
    join (codes "{\"id\":null,\"method\":\"mining.notify\",\"params\":[\"job-") _ (grind arith) (
      join _ _ (decimal-NoBreak job_seq) (
        join (codes "\",\"offline-job-") _ (grind arith)
          (join _ _ (decimal-NoBreak job_seq) (grind arith))))

notify_line-length :
    (job_seq : ℕ) → job_seq < 2 ^ 32 → length (notify_line job_seq) ≤ max_json_line_bytes
unfolding notify_line
notify_line-length job_seq small =
    let short = to_decimal_length job_seq 10 (omega arith) (omega arith) in
    omega (
      arith,
      length-append (to_decimal job_seq)
          (codes "\",\"offline-job-" ++ (to_decimal job_seq ++ codes "\",20,true]}")),
      length-append (to_decimal job_seq) (codes "\",20,true]}"),
    )

-- The job of a notification of the pool.
abbrev pub pool_job : ℕ → StratumJob
pool_job job_seq = record {
  job_id = codes "job-" ++ to_decimal job_seq;
  prefix = codes "offline-job-" ++ to_decimal job_seq;
  difficulty_bits = 20;
  clean_job = true;
}

-- On an intact connection, the client that waits for a job gets the first one that the pool notifies,
-- with a number below 2^32, with its names, 20 bits and the mark of a clean job, and only its log
-- changes, when its line is delivered before a deadline and the rounds before, without a stop request,
-- hear nothing, a part of a line, or a line that is no notification.
pub wait_for_job-pool :
    (job_seq : ℕ) (c : Client) {before : List Wait} (last : Wait) (after : List Wait)
    → job_seq < 2 ^ 32
    → c.connected ≡ true
    → AllWaits before
    → last.stop_requested ≡ false
    → Delivers last.polls (notify_line job_seq ++ b'\n' ∷ [])
    → wait_for_job (before ++ last ∷ after) c ≡ (
      say Event.info (codes "Received mining.notify") (pool_job job_seq).job_id c,
      some (pool_job job_seq),
    )
wait_for_job-pool job_seq c last after small on b go d =
    wait_for_job-first b last after c (notify_line job_seq) (pool_job job_seq) on go
      (whole (notify_line job_seq) (notify_line-NoBreak job_seq) (notify_line-length job_seq small)
        d)
      (parse_notify-notify_line job_seq)
