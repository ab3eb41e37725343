-- ===== src/Stratum/Client/Offered.antt =====
-- The jobs that the scripts of the waits carry.
use hermit_miner.Base.{◌≡◌, Bool-cases, Option-cases, inl, inr, List, [], ◌∷◌, none, some, Bytes}
use hermit_miner.Stratum.Client.{Wait, wait_for_job}
use hermit_miner.Stratum.Codec.{StratumJob, parse_notify}
use hermit_miner.Stratum.Transport.Carried.{Carries, receive_line-Carries}
use hermit_miner.Stratum.Transport.{Client, receive_line}

-- A round of the script carries a notification of the job.
pub data Notifies : List Wait → StratumJob → Type 0 where
  here :
      {w : Wait} {waits : List Wait} {job : StratumJob} (line : Bytes)
      → Carries w.polls line
      → parse_notify line ≡ some job
      → Notifies (w ∷ waits) job
  behind :
      {w : Wait} {waits : List Wait} {job : StratumJob}
      → Notifies waits job
      → Notifies (w ∷ waits) job

-- One of the scripts does.
pub data Offered : List (List Wait) → StratumJob → Type 0 where
  now :
      {script : List Wait} {waits : List (List Wait)} {job : StratumJob}
      → Notifies script job
      → Offered (script ∷ waits) job
  later :
      {script : List Wait} {waits : List (List Wait)} {job : StratumJob}
      → Offered waits job
      → Offered (script ∷ waits) job

-- A job that the client gets is one that its script notifies.
pub wait_for_job-Notifies :
    (waits : List Wait) (c : Client) (job : StratumJob)
    → (wait_for_job waits c).1 ≡ some job
    → Notifies waits job
unfolding wait_for_job
wait_for_job-Notifies [] c job h = cc
wait_for_job-Notifies (w ∷ waits) c job h =
    let again = wait_for_job-Notifies waits (receive_line w.polls c).0 job in
    elim (Bool-cases (w.stop_requested)) [
      | inl stop ↦ let two : none ≡ some job = rw (stop, wait_for_job) at h in cc
      | inr going ↦ elim (Option-cases (receive_line w.polls c).1) [
        | inl e ↦ elim (Bool-cases (receive_line w.polls c).0.connected) [
          | inl on ↦ behind (again (rw (going, e, on, wait_for_job) at h))
          | inr off ↦ let two : none ≡ some job = rw (going, e, off, wait_for_job) at h in cc
        ]
        | inr (line, e) ↦ elim (Option-cases (parse_notify line)) [
          | inl unread ↦ behind (again (rw (going, e, unread, wait_for_job) at h))
          | inr (j, is) ↦
              let two : some j ≡ some job = rw (going, e, is, wait_for_job) at h in
              let same : j ≡ job = cc in
              rw (← same) (here line (receive_line-Carries w.polls c line e) is)
        ]
      ]
    ]
