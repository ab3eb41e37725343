-- ===== src/Stratum/Client/Waiting.antt =====
-- Which job `wait_for_job` gives, whatever is heard before it.
use hermit_miner.Base.{◌≡◌, ◌∙◌, ap, true, false, List, [], ◌∷◌, ◌++◌, none, some, codes, Bytes}
use hermit_miner.Logger.Event
use hermit_miner.Stratum.Client.{Wait, say, wait_for_job}
use hermit_miner.Stratum.Codec.{StratumJob, parse_notify}
use hermit_miner.Stratum.Transport.Waiting.{Hears, receive_line-Hears}
use hermit_miner.Stratum.Transport.{Client, receive_line}

-- A round without a stop request in which no notification is heard.
pub data Waits (w : Wait) : Type 0 where
  silence : w.stop_requested ≡ false → Hears w.polls none → Waits w
  other :
      (line : Bytes)
      → w.stop_requested ≡ false
      → Hears w.polls (some line)
      → parse_notify line ≡ none
      → Waits w

pub data AllWaits : List Wait → Type 0 where
  first : AllWaits []
  more : {w : Wait} {waits : List Wait} → Waits w → AllWaits waits → AllWaits (w ∷ waits)

wait_quiet :
    (w : Wait) (waits : List Wait) (c : Client)
    → w.stop_requested ≡ false
    → c.connected ≡ true
    → receive_line w.polls c ≡ (c, none)
    → wait_for_job (w ∷ waits) c ≡ wait_for_job waits c
unfolding wait_for_job
wait_quiet w waits c go on got =
    let same = ap (λ r. r.0) got in
    let nothing_got = ap (λ r. r.1) got in
    let still : (receive_line w.polls c).0.connected ≡ true = ap (λ r. r.connected) same ∙ on in
    rw (go, nothing_got, still, wait_for_job) (ap (wait_for_job waits) same)

wait_other :
    (w : Wait) (waits : List Wait) (c : Client) (line : Bytes)
    → w.stop_requested ≡ false
    → receive_line w.polls c ≡ (c, some line)
    → parse_notify line ≡ none
    → wait_for_job (w ∷ waits) c ≡ wait_for_job waits c
unfolding wait_for_job
wait_other w waits c line go got unread =
    let same = ap (λ r. r.0) got in
    let line_got = ap (λ r. r.1) got in
    rw (go, line_got, unread, wait_for_job) (ap (wait_for_job waits) same)

wait_job :
    (w : Wait) (waits : List Wait) (c : Client) (line : Bytes) (job : StratumJob)
    → w.stop_requested ≡ false
    → receive_line w.polls c ≡ (c, some line)
    → parse_notify line ≡ some job
    → wait_for_job (w ∷ waits) c
      ≡ (say Event.info (codes "Received mining.notify") job.job_id c, some job)
unfolding wait_for_job
wait_job w waits c line job go got is =
    let same = ap (λ r. r.0) got in
    let line_got = ap (λ r. r.1) got in
    rw (go, line_got, is, wait_for_job)
      (ap (λ d. (say Event.info (codes "Received mining.notify") job.job_id d, some job)) same)

-- On an intact connection, the first notification that is heard in whole is the job: the rounds
-- before it, without a stop request, hear nothing, a part of a line, or a line that is no
-- notification, and what would come after it is not read.
pub wait_for_job-first :
    {before : List Wait}
    → AllWaits before
    → (last : Wait) (after : List Wait) (c : Client) (line : Bytes) (job : StratumJob)
    → c.connected ≡ true
    → last.stop_requested ≡ false
    → Hears last.polls (some line)
    → parse_notify line ≡ some job
    → wait_for_job (before ++ last ∷ after) c
      ≡ (say Event.info (codes "Received mining.notify") job.job_id c, some job)
wait_for_job-first first last after c line job on go h is =
    wait_job last after c line job go (receive_line-Hears c on h) is
wait_for_job-first (more {w} {waits} (silence go' q) b) last after c line job on go h is =
    wait_quiet w (waits ++ last ∷ after) c go' on (receive_line-Hears c on q)
    ∙ wait_for_job-first b last after c line job on go h is
wait_for_job-first (more {w} {waits} (other l go' q unread) b) last after c line job on go h is =
    wait_other w (waits ++ last ∷ after) c l go' (receive_line-Hears c on q) unread
    ∙ wait_for_job-first b last after c line job on go h is
