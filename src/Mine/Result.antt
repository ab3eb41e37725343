-- ===== src/Mine/Result.antt =====
-- What `mine` returns: the result of a state in which the waiting thread has returned.
use hermit_miner.Base.{ℕ, ◌<◌, ◌≤◌, ◌≡◌, true, Bytes, u32_max}
use hermit_miner.Job.{meets_difficulty}
use hermit_miner.Mine.Reach.{Reachable, found-IsResult}
use hermit_miner.Mine.{State, returned, passes, payload}
use hermit_miner.Runtime.{MiningResult}
use hermit_miner.Sha256.{double_sha256}
use mathlib.Core.Path.{subst}

abbrev pub result_of : State → MiningResult
result_of x = record {
  found = x.shared.found;
  aborted = x.shared.aborted;
  nonce = x.shared.nonce;
  hash = x.shared.hash;
  hashes_tried = x.shared.total_hashes;
}

-- What some interleaving of the threads returns.
pub record Outcome (thread_count : ℕ) (prefix : Bytes) (bits : ℕ) (result : MiningResult)
    : Type 0 where
  pub state : State
  pub reaches : Reachable thread_count prefix bits state
  pub ended : state.main ≡ returned
  pub gives : result_of state ≡ result

-- A 32-bit nonce whose double hash meets the difficulty.
abbrev pub IsShare : Bytes → ℕ → ℕ → Type 0
IsShare prefix bits nonce =
    (nonce ≤ u32_max) × (meets_difficulty (double_sha256 (payload prefix nonce)) bits ≡ true)

pub Outcome-IsShare :
    (thread_count : ℕ) (prefix : Bytes) (bits : ℕ) (result : MiningResult)
    → 0 < thread_count
    → thread_count ≤ u32_max
    → Outcome thread_count prefix bits result
    → result.found ≡ true
    → IsShare prefix bits result.nonce
unfolding passes
Outcome-IsShare thread_count prefix bits result pos few o =
    subst (λ r. r.found ≡ true → IsShare prefix bits r.nonce) o.gives
      (λ f.
        let is = found-IsResult thread_count prefix bits pos few o.state o.reaches f in
        (is.in_space, is.passing))
