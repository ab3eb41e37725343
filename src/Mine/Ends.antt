-- ===== src/Mine/Ends.antt =====
-- The end of the search: once `stop` is set, the workers finish within a few steps each, and none of
-- them waits for another.
use native.Mathlib.Decide.{dec_lt, ℕ_discrete}
use hermit_miner.Base.{
  ℕ, zero, suc, ◌∙◌, ap, Bool-cases, inl, inr, ◌⊎◌, ◌+◌, ◌*◌, ◌≤◌, ◌<◌, ◌≡◌, refl, sym, true, arith,
  Bytes, u32_max, sum, sum-change,
}
use hermit_miner.Mine.{
  Shared, Pc, testing, loading, hashing, exchanging, storing, leaving, finished, Move, exhausted,
  requested, unrequested, stopped, unstopped, missed, hit, won, beaten, stored, left, passes, State,
  update,
}
use hermit_miner.Mine.Causes.{update_at, update_off}
use hermit_miner.Mine.Workers.{Move-Later}

-- The number of steps that a worker has left at most when `stop` is set.
abbrev rank : Pc → ℕ
rank (hashing n h) = 4
rank (testing n h) = 3
rank (loading n h) = 2
rank (exchanging n h) = 2
rank (storing n h) = 2
rank (leaving h) = 1
rank finished = 0

rank-le : (p : Pc) → rank p ≤ 4
rank-le (hashing n h) = omega arith
rank-le (testing n h) = omega arith
rank-le (loading n h) = omega arith
rank-le (exchanging n h) = omega arith
rank-le (storing n h) = omega arith
rank-le (leaving h) = omega arith
rank-le finished = omega arith

below :
    (old : ℕ) {before after at new : ℕ}
    → at ≡ new
    → after + old ≡ before + at
    → new < old
    → after < before
below old e c l = omega arith

step_rank : (k : ℕ) {now before start : ℕ} → k + before ≤ start → now < before → suc k + now ≤ start
step_rank k a b = omega arith

bounded : (rest : ℕ) {k start most : ℕ} → k + rest ≤ start → start ≤ most → k ≤ most
bounded rest a b = omega arith

sum-four : (n : ℕ) (f : ℕ → Pc) → sum n (λ i. rank (f i)) ≤ 4 * n
sum-four zero f = omega arith
sum-four (suc n) f = omega (arith, rank-le (f n), sum-four n f)

module _ (thread_count : ℕ) (prefix : Bytes) (bits : ℕ) where
  -- So many steps of the workers, in any order.
  pub data WorkerRun : ℕ → State → State → Type 0 where
    none : {x : State} → WorkerRun 0 x x
    more :
        {k : ℕ} {x y : State} {s : Shared} {p : Pc} (i : ℕ)
        → WorkerRun k x y
        → i < thread_count
        → Move thread_count prefix bits y.shared (y.pc i) s p
        → WorkerRun (suc k) x (record y { shared = s; pc = update y.pc i p })

  Move-rank :
      {s s' : Shared} {p p' : Pc}
      → Move thread_count prefix bits s p s' p'
      → s.stop ≡ true
      → rank p' < rank p
  Move-rank (unstopped q) h = cc
  Move-rank (won q) h = cc
  Move-rank _ h = omega arith

  -- A worker that has not finished can always take its next step.
  Can : Shared → Pc → Type 0
  Can s p = (s' : Shared) × (p' : Pc) × Move thread_count prefix bits s p s' p'

  Can-move : (s : Shared) (p : Pc) → (p ≡ finished) ⊎ Can s p
  unfolding Can
  Can-move s (testing n h) = elim (dec_lt u32_max n) [
    | yes big ↦ inr (_, _, exhausted big)
    | no small ↦ elim (Bool-cases s.stop_requested) [
      | inl q ↦ inr (_, _, requested (omega arith) q)
      | inr q ↦ inr (_, _, unrequested (omega arith) q)
    ]
  ]
  Can-move s (loading n h) = elim (Bool-cases s.stop) [
    | inl q ↦ inr (_, _, stopped q)
    | inr q ↦ inr (_, _, unstopped q)
  ]
  Can-move s (hashing n h) = elim (Bool-cases (passes thread_count prefix bits n)) [
    | inl q ↦ inr (_, _, hit q)
    | inr q ↦ inr (_, _, missed q)
  ]
  Can-move s (exchanging n h) = elim (Bool-cases s.stop) [
    | inl q ↦ inr (_, _, beaten q)
    | inr q ↦ inr (_, _, won q)
  ]
  Can-move s (storing n h) = inr (_, _, stored)
  Can-move s (leaving h) = inr (_, _, left)
  Can-move s finished = inl refl

  abbrev ranks : State → ℕ
  ranks x = sum thread_count (λ i. rank (x.pc i))

  ranks-Move :
      (x : State) {s : Shared} {p : Pc} (i : ℕ)
      → i < thread_count
      → Move thread_count prefix bits x.shared (x.pc i) s p
      → x.shared.stop ≡ true
      → ranks (record x { shared = s; pc = update x.pc i p }) < ranks x
  ranks-Move x {s} {p} i lt move h =
      let changed =
        sum-change thread_count (λ j. rank (x.pc j)) (λ j. rank (update x.pc i p j)) i lt
          (λ j ne. ap rank (update_off x.pc i j p (λ e. ne (sym e)))) in
      below (rank (x.pc i)) (ap rank (update_at x.pc i p)) changed (Move-rank move h)

  WorkerRun-stop :
      {k : ℕ} {x y : State} → WorkerRun k x y → x.shared.stop ≡ true → y.shared.stop ≡ true
  WorkerRun-stop none h = h
  WorkerRun-stop (more i r lt move) h =
      (Move-Later thread_count prefix bits move).stop_kept (WorkerRun-stop r h)

  WorkerRun-ranks :
      {k : ℕ} {x y : State} → WorkerRun k x y → x.shared.stop ≡ true → k + ranks y ≤ ranks x
  WorkerRun-ranks none h = omega arith
  WorkerRun-ranks (more {k} {y = y} i r lt move) h =
      let less = ranks-Move y i lt move (WorkerRun-stop r h) in
      step_rank k (WorkerRun-ranks r h) less

  any_moves :
      (n : ℕ) (x : State)
      → n ≤ thread_count
      → ((i : ℕ) → i < n → x.pc i ≡ finished)
        ⊎ ((i : ℕ) × (i < thread_count) × Can x.shared (x.pc i))
  any_moves zero x le = inl (λ i lt. absurd (omega arith))
  any_moves (suc n) x le = elim (any_moves n x (omega arith)) [
    | inr moves ↦ inr moves
    | inl done ↦ elim (Can-move x.shared (x.pc n)) [
      | inr can ↦ inr (n, omega arith, can)
      | inl last ↦ inl (λ i lt. elim (ℕ_discrete i n) [
        | yes e ↦ ap x.pc e ∙ last
        | no ne ↦ done i (omega arith)
      ])
    ]
  ]

  go_on :
      {k : ℕ} {x y : State} (i : ℕ)
      → WorkerRun k x y
      → i < thread_count
      → Can y.shared (y.pc i)
      → (z : State) × WorkerRun (suc k) x z
  unfolding Can
  go_on {y = y} i r lt (s, p, move) =
      (record y { shared = s; pc = update y.pc i p }, more i r lt move)

  -- When `stop` is set, the workers together take at most four steps for each thread, in any order;
  -- and after any number of their steps either all have finished or one of them can go on.
  pub stop-WorkerRun :
      (k : ℕ) (x y : State)
      → x.shared.stop ≡ true
      → WorkerRun k x y
      → (k ≤ 4 * thread_count)
        × (((i : ℕ) → i < thread_count → y.pc i ≡ finished) ⊎ ((z : State) × WorkerRun (suc k) x z))
  stop-WorkerRun k x y h r = (
    bounded (ranks y) (WorkerRun-ranks r h) (sum-four thread_count x.pc),
    elim (any_moves thread_count y (omega arith)) [
      | inl done ↦ inl done
      | inr (i, lt, can) ↦ inr (go_on i r lt can)
    ],
  )
