-- ===== src/Runtime/Session/Over.antt =====
-- Why a session that returns 0 is not followed by another one.
use hermit_miner.Base.{
  ℕ, ◌≡◌, ◌⊎◌, inl, inr, Bool, Bool-cases, true, false, Option, none, some, refl,
}
use hermit_miner.Config.{MinerConfig}
use hermit_miner.Logger.Event
use hermit_miner.Runtime.Repeat.{Control, give, repeat_gives}
use hermit_miner.Runtime.Session.{
  submitted, mined, lost, waited, tested, session_round, session_started, run_stratum_session,
}
use hermit_miner.Runtime.{Ops, Progress, MiningResult, has_cycles}
use hermit_miner.Stratum.Codec.{StratumJob}

-- A stop request is not taken back: once it is seen, or a search is aborted, each later load sees it,
-- and the logger does not change that.
pub record Latch {W : Type 0} (ops : Ops W) (Stopping : W → Type 0) : Type 0 where
  pub seen : (w : W) → (ops.stop_requested w).0 ≡ true → Stopping (ops.stop_requested w).1
  pub shown : (w : W) → Stopping w → (ops.stop_requested w).0 ≡ true
  pub logged : (event : Event.Event) (w : W) → Stopping w → Stopping (ops.log event w)
  pub aborted :
      (cfg : MinerConfig) (w : W) → (ops.mine cfg w).0.aborted ≡ true → Stopping (ops.mine cfg w).1

module _ {W : Type 0} (ops : Ops W) (cfg : MinerConfig) (Stopping : W → Type 0)
    (latch : Latch ops Stopping) where
  -- A stop is requested, or the cycles are used up.
  abbrev pub Over : Progress W → Type 0
  Over x = Stopping x.world ⊎ (has_cycles ops cfg x.cycles_done ≡ false)

  abbrev OverAt : Control × Progress W → Type 0
  OverAt c = c.0 ≡ give 0 → Over c.1

  submitted-OverAt :
      (job : StratumJob) (x : Progress W) (r : Bool × W) → OverAt (submitted ops cfg job x r)
  unfolding submitted
  submitted-OverAt job x (false, w) e = absurd (cc)
  submitted-OverAt job x (true, w) e = absurd (cc)

  mined-OverAt :
      (job : StratumJob) (x : Progress W) (r : MiningResult × W)
      → (r.0.aborted ≡ true → Stopping r.1)
      → OverAt (mined ops cfg job x r)
  unfolding mined
  mined-OverAt job x (result, w) stops = elim (Bool-cases (result.aborted)) [
    | inl a ↦ rw a (λ e. inl (stops a))
    | inr a ↦ elim (Bool-cases (result.found)) [
      | inl f ↦ rw (a, f) (submitted-OverAt job _ _)
      | inr f ↦ rw (a, f) (λ e. absurd (cc))
    ]
  ]

  lost-OverAt :
      (x : Progress W) (r : Bool × W) → (r.0 ≡ true → Stopping r.1) → OverAt (lost ops cfg x r)
  lost-OverAt x (true, w) stops e = inl (stops refl)
  lost-OverAt x (false, w) stops e = absurd (cc)

  waited-OverAt : (x : Progress W) (r : Option StratumJob × W) → OverAt (waited ops cfg x r)
  unfolding waited
  waited-OverAt x (none, w) = lost-OverAt x _ (latch.seen w)
  waited-OverAt x (some job, w) = mined-OverAt job _ _ (latch.aborted _ _)

  tested-OverAt :
      (x : Progress W) (r : Bool × W) → (r.0 ≡ true → Stopping r.1) → OverAt (tested ops cfg x r)
  tested-OverAt x (true, w) stops = λ e. inl (latch.logged _ w (stops refl))
  tested-OverAt x (false, w) stops = elim (Bool-cases (has_cycles ops cfg x.cycles_done)) [
    | inl t ↦ rw (t, tested) (waited-OverAt x _)
    | inr n ↦ rw (n, tested) (λ e. inr n)
  ]

  session_round-OverAt : (x : Progress W) → OverAt (session_round ops cfg x)
  unfolding session_round
  session_round-OverAt x = tested-OverAt x (ops.stop_requested x.world) (latch.seen x.world)

  session_started-Over :
      (rounds : ℕ) (x : Progress W) (r : Bool × W)
      → (session_started ops cfg rounds x r).0 ≡ some 0
      → Over (session_started ops cfg rounds x r).1
  session_started-Over rounds x (false, w) e = absurd (cc)
  session_started-Over rounds x (true, w) e =
      repeat_gives (session_round ops cfg) (λ _. Unit) (λ _ _. tt) (λ v y. v ≡ 0 → Over y)
        (λ y v _ h z. session_round-OverAt y (cc)) rounds (record x { world = w }) 0 tt e refl

  -- A session that returns 0 leaves a stop request, or no cycle to do.
  pub run_stratum_session-Over :
      (rounds : ℕ) (x : Progress W)
      → (run_stratum_session ops cfg rounds x).0 ≡ some 0
      → Over (run_stratum_session ops cfg rounds x).1
  unfolding run_stratum_session
  run_stratum_session-Over rounds x = session_started-Over rounds x _
