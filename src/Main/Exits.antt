-- ===== src/Main/Exits.antt =====
-- The exit code of a run without a pool.
use hermit_miner.Base.{
  ℕ, ◌≡◌, ◌≤◌, ◌<◌, ◌^◌, ◌⊎◌, ◌∙◌, sym, ap, inl, inr, refl, Bool-cases, true, false, some, u32_max,
  arith,
}
use hermit_miner.Config.{MinerConfig}
use hermit_miner.Job.{meets_difficulty}
use hermit_miner.Main.{searched, run}
use hermit_miner.Mine.Complete.{returned-found}
use hermit_miner.Mine.Result.{Outcome, IsShare, Outcome-IsShare}
use hermit_miner.Mine.{passes, payload}
use hermit_miner.Runtime.{Ops, MiningResult}
use hermit_miner.Sha256.{double_sha256}

module _ {W : Type 0} (ops : Ops W) (cfg : MinerConfig) where
  searched_aborted :
      (result : MiningResult) (w : W)
      → result.aborted ≡ true
      → (searched ops cfg (result, w)).0 ≡ some 0
  searched_aborted result w a = rw (a, searched) refl

  searched_found :
      (result : MiningResult) (w : W)
      → result.aborted ≡ false
      → result.found ≡ true
      → (searched ops cfg (result, w)).0 ≡ some 0
  searched_found result w a f = rw (a, f, searched) refl

  searched_two :
      (result : MiningResult) (w : W)
      → result.aborted ≡ false
      → result.found ≡ false
      → (searched ops cfg (result, w)).0 ≡ some 2
  searched_two result w a f = rw (a, f, searched) refl

  run_alone :
      (sessions rounds : ℕ) (w : W)
      → cfg.pool_enabled ≡ false
      → run ops sessions rounds cfg w ≡ searched ops cfg (ops.mine cfg w)
  unfolding run
  run_alone sessions rounds w p = rw p refl

  -- With the pool disabled, one to 2^31 threads, and a search that gives the result of some
  -- interleaving of its threads in which no signal came and nothing was aborted: either the run
  -- returns 0 and the nonce that the search stored is a 32-bit nonce whose double hash, for the
  -- prefix of the configuration, meets its difficulty; or the run returns 2 and no 32-bit nonce
  -- passes.
  pub run_code :
      (sessions rounds : ℕ) (w : W)
      → cfg.pool_enabled ≡ false
      → 0 < cfg.thread_count
      → cfg.thread_count ≤ 2 ^ 31
      → (o : Outcome cfg.thread_count cfg.prefix cfg.difficulty_bits (ops.mine cfg w).0)
      → o.state.shared.aborted ≡ false
      → o.state.shared.stop_requested ≡ false
      → (((run ops sessions rounds cfg w).0 ≡ some 0)
          × IsShare cfg.prefix cfg.difficulty_bits (ops.mine cfg w).0.nonce)
        ⊎ (((run ops sessions rounds cfg w).0 ≡ some 2)
            × ((n : ℕ)
                → n ≤ u32_max
                → meets_difficulty (double_sha256 (payload cfg.prefix n)) cfg.difficulty_bits
                  ≡ false))
  unfolding passes
  run_code sessions rounds w alone pos half o quiet unasked =
      let r = (ops.mine cfg w).0 in
      let few : cfg.thread_count ≤ u32_max = omega arith in
      let not_aborted : r.aborted ≡ false = ap (λ r. r.aborted) (sym o.gives) ∙ quiet in
      let code = ap (λ r. r.0) (run_alone sessions rounds w alone) in
      elim (Bool-cases (r.found)) [
        | inl f ↦ inl (
          code ∙ searched_found r (ops.mine cfg w).1 not_aborted f,
          Outcome-IsShare cfg.thread_count cfg.prefix cfg.difficulty_bits r pos few o f,
        )
        | inr f ↦ inr (
          code ∙ searched_two r (ops.mine cfg w).1 not_aborted f,
          λ n le.
              elim (Bool-cases
                (meets_difficulty (double_sha256 (payload cfg.prefix n)) cfg.difficulty_bits)) [
                  | inl ok ↦
                      let hit =
                        returned-found cfg.thread_count cfg.prefix cfg.difficulty_bits pos few
                          o.state half o.reaches o.ended quiet unasked n le ok in
                      let same = ap (λ r. r.found) o.gives in absurd (cc)
                  | inr miss ↦ miss
                ],
        )
      ]
