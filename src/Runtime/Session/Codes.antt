-- ===== src/Runtime/Session/Codes.antt =====
-- The codes that a session returns.
use hermit_miner.Base.{
  ℕ, ◌≡◌, ◌⊎◌, inl, inr, Bool, Bool-cases, true, false, not, ◌&&◌, Option, none, some, refl,
}
use hermit_miner.Config.{MinerConfig}
use hermit_miner.Runtime.{Ops, Progress, MiningResult, has_cycles}
use hermit_miner.Runtime.Repeat.{Control, next, give, unfinished, repeat_gives}
use hermit_miner.Runtime.Session.{
  submitted, mined, lost, waited, tested, session_round, session_started, run_stratum_session,
  start_stratum_session,
}
use hermit_miner.Stratum.Codec.{StratumJob}

-- The codes with which a round of a session returns.
pub data Code : ℕ → Type 0 where
  over : Code 0
  lost_job : Code 6
  submit_failed : Code 8

module _ {W : Type 0} (ops : Ops W) (cfg : MinerConfig) where
  abbrev pub CodeOf : Control → Type 0
  CodeOf next = Unit
  CodeOf (give rc) = Code rc
  CodeOf unfinished = ⊥

  submitted-Code :
      (job : StratumJob) (x : Progress W) (r : Bool × W) → CodeOf (submitted ops cfg job x r).0
  unfolding submitted
  submitted-Code job x (false, w) = submit_failed
  submitted-Code job x (true, w) = tt

  mined-Code :
      (job : StratumJob) (x : Progress W) (r : MiningResult × W) → CodeOf (mined ops cfg job x r).0
  unfolding mined
  mined-Code job x (result, w) = elim (Bool-cases (result.aborted)) [
    | inl a ↦ rw a over
    | inr a ↦ elim (Bool-cases (result.found)) [
      | inl f ↦ rw (a, f) (submitted-Code job _ _)
      | inr f ↦ rw (a, f) tt
    ]
  ]

  lost-Code : (x : Progress W) (r : Bool × W) → CodeOf (lost ops cfg x r).0
  lost-Code x (true, w) = over
  lost-Code x (false, w) = lost_job

  waited-Code : (x : Progress W) (r : Option StratumJob × W) → CodeOf (waited ops cfg x r).0
  unfolding waited
  waited-Code x (none, w) = lost-Code x _
  waited-Code x (some job, w) = mined-Code job _ _

  pub session_round-Code : (x : Progress W) → CodeOf (session_round ops cfg x).0
  unfolding session_round
  session_round-Code x =
      elim (Bool-cases (not (ops.stop_requested x.world).0 && has_cycles ops cfg x.cycles_done)) [
        | inl t ↦ rw (t, tested) (waited-Code x _)
        | inr n ↦ rw (n, tested) over
      ]

  Code-give : (c : Control) (rc : ℕ) → CodeOf c → c ≡ give rc → Code rc
  Code-give next rc k e = absurd (cc)
  Code-give (give v) rc k e = let same : v ≡ rc = cc in rw (← same) k
  Code-give unfinished rc k e = absurd k

  session_started-Code :
      (rounds : ℕ) (x : Progress W) (r : Bool × W) (rc : ℕ)
      → (session_started ops cfg rounds x r).0 ≡ some rc
      → (r.0 ≡ false × rc ≡ 4) ⊎ (r.0 ≡ true × Code rc)
  session_started-Code rounds x (false, w) rc e = inl (refl, (cc))
  session_started-Code rounds x (true, w) rc e = inr (
    refl,
    repeat_gives (session_round ops cfg) (λ _. Unit) (λ _ _. tt) (λ v _. Code v)
        (λ y v _ h. Code-give (session_round ops cfg y).0 v (session_round-Code y) h) rounds
        (record x { world = w }) rc tt e,
  )

  -- A session that returns gives 4 exactly when it could not be started, and else 0, 6 or 8.
  pub run_stratum_session-Code :
      (rounds : ℕ) (x : Progress W) (rc : ℕ)
      → (run_stratum_session ops cfg rounds x).0 ≡ some rc
      → ((start_stratum_session ops cfg (ops.new_client x.world)).0 ≡ false × rc ≡ 4)
        ⊎ ((start_stratum_session ops cfg (ops.new_client x.world)).0 ≡ true × Code rc)
  unfolding run_stratum_session
  run_stratum_session-Code rounds x rc e = session_started-Code rounds x _ rc e
