-- ===== src/Runtime/Pool/Traffic.antt =====
-- What the loops put on the sockets over the client of Stratum, when the search is `mine`.
use hermit_miner.Base.{ℕ, ◌≡◌, Bool, List, [], ◌∷◌, ◌++◌, Bytes}
use hermit_miner.Config.{MinerConfig}
use hermit_miner.Mine.Result.{Outcome, IsShare}
use hermit_miner.Runtime.Guarded.{Guarded}
use hermit_miner.Runtime.Pool.{World, client_ops}
use hermit_miner.Runtime.Session.{mining_cfg}
use hermit_miner.Runtime.{MiningResult, SessionStats}
use hermit_miner.Stratum.Client.Offered.{Offered, later}
use hermit_miner.Stratum.Client.{Wait}
use hermit_miner.Stratum.Codec.{StratumJob, subscribe_request, authorize_request, submit_request}
use hermit_miner.Stratum.Transport as Transport

module _ (cfg : MinerConfig) (search : MinerConfig → World → MiningResult) (clock : World → ℕ)
    (rate : SessionStats → ℕ → Bytes) (opens : World → Bool) where
  -- The configuration with which a job is searched.
  abbrev pub job_cfg : StratumJob → MinerConfig
  job_cfg = mining_cfg (client_ops cfg search clock rate opens) cfg

  -- A share of a job with an id that is offered: its nonce passes for the prefix and the bits of the
  -- job.
  abbrev pub Valid : List (List Wait) → Bytes → ℕ → Type 0
  Valid offers job_id nonce =
      (job : StratumJob) × Offered offers job
      × (job.job_id ≡ job_id)
      × IsShare (job_cfg job).prefix job.difficulty_bits nonce

  pub data Request (offers : List (List Wait)) : Bytes → Type 0 where
    subscription :
        {line : Bytes} (id : ℕ) (agent : Bytes)
        → line ≡ subscribe_request id agent
        → Request offers line
    authorization :
        {line : Bytes} (id : ℕ) (username password : Bytes)
        → line ≡ authorize_request id username password
        → Request offers line
    share :
        {line : Bytes} (id : ℕ) (username job_id : Bytes) (nonce : ℕ)
        → Valid offers job_id nonce
        → line ≡ submit_request id username job_id nonce
        → Request offers line

  -- The bytes of a connection: requests, each a whole line or a beginning of one.
  pub data Traffic (offers : List (List Wait)) : Bytes → Type 0 where
    quiet : Traffic offers []
    sent :
        {wire later : Bytes} (line part rest : Bytes)
        → Traffic offers wire
        → Request offers line
        → part ++ rest ≡ line ++ b'\n' ∷ []
        → later ≡ wire ++ part
        → Traffic offers later

  -- What the search returns for a job is what some interleaving of the threads of `mine` returns.
  abbrev pub Searches : Type 0
  Searches =
      (job : StratumJob) (w : World)
      → Outcome cfg.thread_count (job_cfg job).prefix job.difficulty_bits (search (job_cfg job) w)

  module _ (offers : List (List Wait)) where
    -- The traffic so far, and every job that is still to come is one of the offers.
    abbrev Carried : World → Type 0
    Carried w =
        Traffic offers w.client.wire
        × ((job : StratumJob) → Offered w.waits job → Offered offers job)
