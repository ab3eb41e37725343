-- ===== src/Mine/Causes.antt =====
-- Why the search stops: a result, an abort, or a count that covers every nonce.
use native.Mathlib.Decide.{ℕ_discrete}
use mathlib.Core.Bool.{true≢false}
use mathlib.Core.Path.{subst}
use mathlib.Core.Logic.{if_pos, if_neg}
use hermit_miner.Base.{
  ℕ, ◌∙◌, ap, Bool-cases, inl, inr, ◌⊎◌, ◌≤◌, ◌<◌, ◌≡◌, ◌≢◌, refl, sym, Bool, true, false, Bytes,
  u32_max,
}
use hermit_miner.Mine.{
  Shared, Pc, finished, MainPc, watching, checking, counting, joining, returned, Move, exhausted,
  requested, unrequested, stopped, unstopped, missed, hit, won, beaten, stored, left, passes, State,
  update,
}
use hermit_miner.Mine.Workers.{Later, Move-Later, is_storing}

abbrev pub is_finished : Pc → Bool
is_finished finished = true
is_finished _ = false

pub update_at : (f : ℕ → Pc) (i : ℕ) (p : Pc) → update f i p i ≡ p
update_at f i p = if_pos (ℕ_discrete i i) refl p (f i)

pub update_off : (f : ℕ → Pc) (i j : ℕ) (p : Pc) → i ≢ j → update f i p j ≡ f j
update_off f i j p ne = if_neg (ℕ_discrete i j) ne p (f j)

module _ (thread_count : ℕ) (prefix : Bytes) (bits : ℕ) where
  -- Unless a signal came, no 32-bit nonce passes.
  abbrev pub Searched : Shared → Type 0
  Searched s =
      s.stop_requested ≡ false → (n : ℕ) → n ≤ u32_max → passes thread_count prefix bits n ≡ false

  -- Why `stop` is set.
  pub data Cause (x : State) : Type 0 where
    by_result : x.shared.found ≡ true → Cause x
    by_storing : (i : ℕ) → i < thread_count → is_storing (x.pc i) ≡ true → Cause x
    by_abort : x.shared.aborted ≡ true → Cause x
    by_count : Searched x.shared → Cause x

  abbrev pub AllFinished : (ℕ → Pc) → Type 0
  AllFinished pc = (i : ℕ) → i < thread_count → pc i ≡ finished

  -- What the waiting thread knows where it stands.
  abbrev pub WaiterInv : State → MainPc → Type 0
  WaiterInv x joining = x.shared.stop ≡ true
  WaiterInv x returned = (x.shared.stop ≡ true) × AllFinished x.pc
  WaiterInv x _ = Unit

  -- What a step of a worker does to `stop`, the result and the count.
  pub Move-stop :
      {s s' : Shared} {p p' : Pc}
      → Move thread_count prefix bits s p s' p'
      → s'.stop ≡ true
      → (s.stop ≡ true) ⊎ (is_storing p' ≡ true)
  Move-stop (won q) h = inr refl
  Move-stop _ h = inl h

  -- A worker leaves the assignment of the result with a result.
  pub Move-stored :
      {s s' : Shared} {p p' : Pc}
      → Move thread_count prefix bits s p s' p'
      → is_storing p ≡ true
      → s'.found ≡ true
  Move-stored stored h = refl
  Move-stored _ h = cc

  pub record Keeps (s s' : Shared) : Type 0 where
    pub found_kept : s.found ≡ true → s'.found ≡ true
    pub aborted_kept : s.aborted ≡ true → s'.aborted ≡ true

  pub Move-Keeps :
      {s s' : Shared} {p p' : Pc} → Move thread_count prefix bits s p s' p' → Keeps s s'
  Move-Keeps stored = record { found_kept = λ h. refl; aborted_kept = λ h. h }
  Move-Keeps _ = record { found_kept = λ h. h; aborted_kept = λ h. h }

  pub Move-unfinished :
      {s s' : Shared} {p p' : Pc} → Move thread_count prefix bits s p s' p' → is_finished p ≡ false
  Move-unfinished (exhausted big) = refl
  Move-unfinished (requested le q) = refl
  Move-unfinished (unrequested le q) = refl
  Move-unfinished (stopped q) = refl
  Move-unfinished (unstopped q) = refl
  Move-unfinished (missed miss) = refl
  Move-unfinished (hit ok) = refl
  Move-unfinished (won q) = refl
  Move-unfinished (beaten q) = refl
  Move-unfinished stored = refl
  Move-unfinished left = refl

  pub Searched-Later :
      (s s' : Shared) → Later thread_count prefix bits s s' → Searched s → Searched s'
  Searched-Later s s' l h q = h (elim (Bool-cases s.stop_requested) [
    | inl t ↦
        let t' : s'.stop_requested ≡ true = l.request_kept t in absurd (true≢false (sym t' ∙ q))
    | inr n ↦ n
  ])

  -- The cause goes on holding when a worker moves.
  pub Cause-worker :
      {x : State} {s : Shared} {p : Pc} (i : ℕ)
      → i < thread_count
      → Move thread_count prefix bits x.shared (x.pc i) s p
      → Cause x
      → Cause (record x { shared = s; pc = update x.pc i p })
  Cause-worker i lt move (by_result f) = by_result ((Move-Keeps move).found_kept f)
  Cause-worker i lt move (by_abort a) = by_abort ((Move-Keeps move).aborted_kept a)
  Cause-worker {x} {s} i lt move (by_count c) =
      by_count (Searched-Later x.shared s (Move-Later thread_count prefix bits move) c)
  Cause-worker {x} {s} {p} i lt move (by_storing j small h) = elim (ℕ_discrete i j) [
    | yes e ↦ by_result (Move-stored move (subst (λ k. is_storing (x.pc k) ≡ true) (sym e) h))
    | no ne ↦ by_storing j small (rw (update_off x.pc i j p ne) h)
  ]

  pub waits-worker :
      (x : State) {s : Shared} {p : Pc} (i : ℕ) (m : MainPc)
      → i < thread_count
      → Move thread_count prefix bits x.shared (x.pc i) s p
      → WaiterInv x m
      → WaiterInv (record x { shared = s; pc = update x.pc i p }) m
  waits-worker x i joining lt move w = (Move-Later thread_count prefix bits move).stop_kept w
  waits-worker x i returned lt move w =
      absurd (
        let u = Move-unfinished move in let f = ap is_finished (w.1 i lt) in true≢false (sym f ∙ u))
  waits-worker x i watching lt move w = tt
  waits-worker x i checking lt move w = tt
  waits-worker x i counting lt move w = tt

  pub Cause-flags :
      {x : State} (s : Shared) (m : MainPc)
      → Later thread_count prefix bits x.shared s
      → Keeps x.shared s
      → Cause x
      → Cause (record x { shared = s; main = m })
  Cause-flags s m l k (by_result f) = by_result (k.found_kept f)
  Cause-flags s m l k (by_abort a) = by_abort (k.aborted_kept a)
  Cause-flags s m l k (by_storing i lt h) = by_storing i lt h
  Cause-flags {x} s m l k (by_count c) = by_count (Searched-Later x.shared s l c)

  pub Cause-same : (x : State) (m : MainPc) → Cause x → Cause (record x { main = m })
  Cause-same x m c =
      Cause-flags {x = x} x.shared m (record { stop_kept = λ h. h; request_kept = λ h. h })
        (record { found_kept = λ h. h; aborted_kept = λ h. h }) c

  pub waits-signal :
      (x : State) (m : MainPc)
      → WaiterInv x m
      → WaiterInv (record x { shared = record x.shared { stop_requested = true } }) m
  waits-signal x joining w = w
  waits-signal x returned w = w
  waits-signal x watching w = tt
  waits-signal x checking w = tt
  waits-signal x counting w = tt

  -- What a cause says when all workers have finished.
  pub found_by :
      (x : State)
      → Cause x
      → AllFinished x.pc
      → x.shared.aborted ≡ false
      → x.shared.stop_requested ≡ false
      → (n : ℕ) → n ≤ u32_max
      → passes thread_count prefix bits n ≡ true
      → x.shared.found ≡ true
  found_by x (by_result f) all a q n le ok = f
  found_by x (by_abort b) all a q n le ok = absurd (true≢false (sym b ∙ a))
  found_by x (by_storing i lt h) all a q n le ok =
      absurd (true≢false (sym h ∙ ap is_storing (all i lt)))
  found_by x (by_count c) all a q n le ok = absurd (true≢false (sym ok ∙ c q n le))
