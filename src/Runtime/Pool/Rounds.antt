-- ===== src/Runtime/Pool/Rounds.antt =====
-- Steps of the session over the client of Stratum, and how a session ends whose cycles are used up.
use hermit_miner.Base.Digits.{to_decimal}
use hermit_miner.Base.{
  ℕ, zero, suc, ◌≡◌, refl, ap, ◌∙◌, Bool, Bool-cases, inl, inr, true, false, ◌++◌, Option, some,
  Bytes, codes, ltb, ◌==◌, ◌||◌,
}
use hermit_miner.Config.{MinerConfig}
use hermit_miner.Runtime.Repeat
use hermit_miner.Runtime.Pool.{World, client_ops}
use hermit_miner.Runtime.Repeat.{give, repeat}
use hermit_miner.Runtime.Session.{tested, session_round}
use hermit_miner.Runtime.{
  Ops, MiningResult, Progress, SessionStats, has_cycles, info, maybe_write_health,
}

-- How a session ends whose cycles are used up.
pub record EndsAt (stats : SessionStats) (cycles : ℕ) (wire : Bytes) (r : Option ℕ × Progress World)
    : Type 0 where
  pub code : r.0 ≡ some 0
  pub stats_at : r.1.stats ≡ stats
  pub cycles_at : r.1.cycles_done ≡ cycles
  pub wire_at : r.1.world.client.wire ≡ wire

pub ends_with :
    {stats : SessionStats} {cycles : ℕ} {wire wire' : Bytes} {r r' : Option ℕ × Progress World}
    → r ≡ r'
    → EndsAt stats cycles wire r'
    → wire ≡ wire'
    → EndsAt stats cycles wire' r
ends_with e h same = record {
  code = ap (λ r. r.0) e ∙ h.code;
  stats_at = ap (λ r. r.1.stats) e ∙ h.stats_at;
  cycles_at = ap (λ r. r.1.cycles_done) e ∙ h.cycles_at;
  wire_at = ap (λ r. r.1.world.client.wire) e ∙ h.wire_at ∙ same;
}

module _ (cfg : MinerConfig) (search : MinerConfig → World → MiningResult) (clock : World → ℕ)
    (rate : SessionStats → ℕ → Bytes) (opens : World → Bool) where
  abbrev ops : Ops World
  ops = client_ops cfg search clock rate opens

  -- The health file does not touch the client.
  pub health_client :
      (stats : SessionStats) (w : World) → (maybe_write_health ops cfg stats w).client ≡ w.client
  health_client stats w = elim (Bool-cases cfg.health_emit_each_cycle) [
    | inl t ↦ rw t refl
    | inr n ↦ rw n refl
  ]

  pub stop_wire :
      (w : World) (n : ℕ)
      → (ops.stop_requested (record w { loads_left = n })).1.client.wire ≡ w.client.wire
  stop_wire w zero = refl
  stop_wire w (suc n) = refl

  tested_over :
      (x : Progress World) (r : Bool × World)
      → has_cycles ops cfg x.cycles_done ≡ false
      → tested ops cfg x r ≡ (
        give 0,
        record x {
          world =
              info ops cfg
                (codes "Stratum session reached cycle limit")
                (codes "cycles=" ++ to_decimal x.cycles_done)
                r.1;
        },
      )
  tested_over x (true, w) over = refl
  tested_over x (false, w) over = rw (over, tested) refl

  pub round_over :
      (rounds : ℕ) (x : Progress World)
      → has_cycles ops cfg x.cycles_done ≡ false
      → EndsAt x.stats x.cycles_done x.world.client.wire
          (repeat (session_round ops cfg) (suc rounds) x)
  unfolding repeat session_round
  round_over rounds x over =
      let last = tested_over x (ops.stop_requested x.world) over in
      let whole =
        ap (Repeat.after (session_round ops cfg) (repeat (session_round ops cfg) rounds)) last in
      record {
        code = ap (λ r. r.0) whole;
        stats_at = ap (λ r. r.1.stats) whole;
        cycles_at = ap (λ r. r.1.cycles_done) whole;
        wire_at = ap (λ r. r.1.world.client.wire) whole ∙ stop_wire x.world x.world.loads_left;
      }

  pub mine_done :
      (job_cfg : MinerConfig) (w : World)
      → (search job_cfg w).aborted ≡ false
      → ops.mine job_cfg w ≡ (search job_cfg w, w)
  mine_done job_cfg w on = simp on refl

  pub has_cycles_at : (k : ℕ) → cfg.pool_max_cycles ≡ 1 → has_cycles ops cfg k ≡ (1 == 0) || ltb k 1
  has_cycles_at k one = ap (λ m. (m == 0) || ltb k m) one
