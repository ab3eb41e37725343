-- ===== src/Mine/Reach.antt =====
-- The states that `mine` reaches: a stored result is a nonce that passes, no two workers store one,
-- and a search that no flag ended has tried every nonce.
use native.Mathlib.Decide.{ℕ_discrete}
use hermit_miner.Base.{
  ℕ, ◌∙◌, Bool-cases, inl, inr, ◌%◌, ◌≤◌, ◌<◌, ◌≡◌, ◌≢◌, refl, sym, true, false, arith, Bytes,
  u32_max,
}
use mathlib.Core.Path.{subst}
use mathlib.Core.Logic.{if_pos, if_neg}
use hermit_miner.Mine.{
  Shared, Pc, finished, MainMove, sees_stop, sees_none, aborts, sleeps, counts_all, counts_some,
  joins, MainPc, Move, passes, State, Step, worker, waiter, signal, initial, update,
}
use hermit_miner.Mine.Workers.{
  ResultInv, IsResult, WorkerInv, Move-WorkerInv, Move-ResultInv, Move-Later, Move-found,
  Move-storing, Later, WorkerInv-Later, is_storing,
}

-- What holds of the new place of worker `i` and of the places of the others holds of all.
pub update_ind :
    (f : ℕ → Pc) {i : ℕ} {p : Pc} (P : Pc → Type 0) (j : ℕ)
    → (i ≡ j → P p)
    → (i ≢ j → P (f j))
    → P (update f i p j)
update_ind f {i} {p} P j new old = elim (ℕ_discrete i j) [
  | yes e ↦ rw (if_pos (ℕ_discrete i j) e p (f j)) (new e)
  | no ne ↦ rw (if_neg (ℕ_discrete i j) ne p (f j)) (old ne)
]

module _ (thread_count : ℕ) (prefix : Bytes) (bits : ℕ) where
  -- The states that some interleaving of the threads and of a signal reaches.
  pub data Reachable : State → Type 0 where
    start : Reachable initial
    after : {x y : State} → Reachable x → Step thread_count prefix bits x y → Reachable y

  pub record StateInv (x : State) : Type 0 where
    pub result : ResultInv thread_count prefix bits x.shared
    pub each : (i : ℕ) → i < thread_count → WorkerInv thread_count prefix bits x.shared i (x.pc i)
    pub unique :
        (i j : ℕ)
        → i < thread_count
        → j < thread_count
        → is_storing (x.pc i) ≡ true
        → is_storing (x.pc j) ≡ true
        → i ≡ j

  -- A worker that stores has set `stop`.
  storing_stop :
      (s : Shared) (i : ℕ) (p : Pc)
      → WorkerInv thread_count prefix bits s i p
      → is_storing p ≡ true
      → s.stop ≡ true
  storing_stop s i (Pc.storing n h) w e = w.2
  storing_stop s i (Pc.testing n h) w e = cc
  storing_stop s i (Pc.loading n h) w e = cc
  storing_stop s i (Pc.hashing n h) w e = cc
  storing_stop s i (Pc.exchanging n h) w e = cc
  storing_stop s i (Pc.leaving h) w e = cc
  storing_stop s i Pc.finished w e = cc

  -- The waiting thread leaves the result as it is.
  record Kept (s s' : Shared) : Type 0 where
    later : Later thread_count prefix bits s s'
    found_kept : s'.found ≡ s.found
    nonce_kept : s'.nonce ≡ s.nonce
    hash_kept : s'.hash ≡ s.hash

  Kept-refl : (s : Shared) → Kept s s
  Kept-refl s = record {
    later = record { stop_kept = λ h. h; request_kept = λ h. h };
    found_kept = refl;
    nonce_kept = refl;
    hash_kept = refl;
  }

  MainMove-Kept :
      {pc : ℕ → Pc} {s s' : Shared} {m m' : MainPc}
      → MainMove thread_count prefix bits pc s m s' m'
      → Kept s s'
  MainMove-Kept (aborts h) = record {
    later = record { stop_kept = λ _. refl; request_kept = λ q. q };
    found_kept = refl;
    nonce_kept = refl;
    hash_kept = refl;
  }
  MainMove-Kept (counts_all h) = record {
    later = record { stop_kept = λ _. refl; request_kept = λ q. q };
    found_kept = refl;
    nonce_kept = refl;
    hash_kept = refl;
  }
  MainMove-Kept {s} (sees_stop h) = Kept-refl s
  MainMove-Kept {s} (sees_none h) = Kept-refl s
  MainMove-Kept {s} (sleeps h) = Kept-refl s
  MainMove-Kept {s} (counts_some h) = Kept-refl s
  MainMove-Kept {s} (joins h) = Kept-refl s

  module _ (pos : 0 < thread_count) (few : thread_count ≤ u32_max) where
    WorkerInv-initial :
        (i : ℕ)
        → i < thread_count
        → WorkerInv thread_count prefix bits initial.shared i (initial.pc i)
    WorkerInv-initial i lt =
        let own : i % thread_count ≡ i = grind arith in
        (
          omega arith,
          (
            own,
            λ m before _ e. let small : m % thread_count ≡ m = grind arith in absurd (omega arith),
          ),
        )

    StateInv-initial : StateInv initial
    StateInv-initial = record {
      result = λ h. cc;
      each = WorkerInv-initial;
      unique = λ i j _ _ h _. cc;
    }

    -- Only a worker that stands before its assignment sets `found`, and it is the only one there.
    others_found :
        {x : State} {s : Shared} {p : Pc} (i j : ℕ)
        → i < thread_count
        → j < thread_count
        → i ≢ j
        → Move thread_count prefix bits x.shared (x.pc i) s p
        → StateInv x
        → is_storing (x.pc j) ≡ true
        → s.found ≡ x.shared.found
    others_found {x} i j li lj ne move inv h = elim (Bool-cases (is_storing (x.pc i))) [
      | inl b ↦ absurd (ne (inv.unique i j li lj b h))
      | inr n ↦ Move-found thread_count prefix bits move n
    ]

    -- A worker comes before its assignment only when no other stands there.
    none_stores :
        {x : State} {s : Shared} {p : Pc} (i j : ℕ)
        → j < thread_count
        → Move thread_count prefix bits x.shared (x.pc i) s p
        → StateInv x
        → is_storing p ≡ true
        → is_storing (x.pc j) ≡ true
        → ⊥
    none_stores {x} i j lj move inv hp hj =
        let clear : x.shared.stop ≡ false = Move-storing thread_count prefix bits move hp in
        let set : x.shared.stop ≡ true = storing_stop x.shared j (x.pc j) (inv.each j lj) hj in cc

    unique-worker :
        {x : State} {s : Shared} {p : Pc} (i a b : ℕ)
        → Move thread_count prefix bits x.shared (x.pc i) s p
        → StateInv x
        → a < thread_count
        → b < thread_count
        → is_storing (update x.pc i p a) ≡ true
        → is_storing (update x.pc i p b) ≡ true
        → a ≡ b
    unique-worker {x} {s} {p} i a b move inv la lb =
        update_ind x.pc (λ q. is_storing q ≡ true → is_storing (update x.pc i p b) ≡ true → a ≡ b) a
          (λ ia ha.
            update_ind x.pc (λ q. is_storing q ≡ true → a ≡ b) b (λ ib _. sym ia ∙ ib)
              (λ _ hb. absurd (none_stores i b lb move inv ha hb)))
          (λ _ ha.
            update_ind x.pc (λ q. is_storing q ≡ true → a ≡ b) b
              (λ _ hb. absurd (none_stores i a la move inv hb ha))
              (λ _ hb. inv.unique a b la lb ha hb))

    StateInv-worker :
        {x : State} {s : Shared} {p : Pc} (i : ℕ)
        → i < thread_count
        → Move thread_count prefix bits x.shared (x.pc i) s p
        → StateInv x
        → StateInv (record x { shared = s; pc = update x.pc i p })
    StateInv-worker {x} {s} {p} i lt move inv = record {
      result = Move-ResultInv thread_count prefix bits i move (inv.each i lt) inv.result;
      each = λ j small.
          update_ind x.pc (WorkerInv thread_count prefix bits s j) j
            (λ e.
              rw (← e)
                (Move-WorkerInv thread_count prefix bits pos few i move inv.result (inv.each i lt)))
            (λ ne.
              WorkerInv-Later thread_count prefix bits x.shared s j (x.pc j)
                (Move-Later thread_count prefix bits move) (others_found i j lt small ne move inv)
                (inv.each j small));
      unique = λ a b la lb. unique-worker i a b move inv la lb;
    }

    -- The waiting thread and a signal only set flags.
    StateInv-flags :
        {x : State} (s : Shared) (m : MainPc)
        → Later thread_count prefix bits x.shared s
        → s.found ≡ x.shared.found
        → s.nonce ≡ x.shared.nonce
        → s.hash ≡ x.shared.hash
        → StateInv x
        → StateInv (record x { shared = s; main = m })
    StateInv-flags {x = x} s m later f n h inv = record {
      result = λ e.
          let r : IsResult thread_count prefix bits x.shared = inv.result (sym f ∙ e) in
          record {
            stops = later.stop_kept r.stops;
            in_space = rw n r.in_space;
            passing = rw n r.passing;
            hashed = rw (h, n) r.hashed;
          };
      each = λ i lt.
          WorkerInv-Later thread_count prefix bits x.shared s i (x.pc i) later (λ _. f)
            (inv.each i lt);
      unique = inv.unique;
    }

    StateInv-main :
        {x : State} {s : Shared} {m m' : MainPc}
        → MainMove thread_count prefix bits x.pc x.shared m s m'
        → StateInv x
        → StateInv (record x { shared = s; main = m' })
    StateInv-main {x} {s} {m} {m'} move inv =
        let kept = MainMove-Kept move in
        StateInv-flags {x = x} s m' kept.later kept.found_kept kept.nonce_kept kept.hash_kept inv

    pub StateInv-Reachable : {x : State} → Reachable x → StateInv x
    StateInv-Reachable start = StateInv-initial
    StateInv-Reachable (after r (worker i lt move)) =
        StateInv-worker i lt move (StateInv-Reachable r)
    StateInv-Reachable (after r (waiter move)) = StateInv-main move (StateInv-Reachable r)
    StateInv-Reachable (after {x = x} r signal) =
        StateInv-flags {x = x} (record x.shared { stop_requested = true }) x.main
          (record { stop_kept = λ h. h; request_kept = λ _. refl }) refl refl refl
          (StateInv-Reachable r)

    -- In every state that the threads reach with at least one and at most 2^32 - 1 threads, a stored
    -- result is one of the 32-bit nonces whose double hash meets the difficulty, the stored hash is
    -- that double hash, and `stop` is set.
    pub found-IsResult :
        (x : State)
        → Reachable x
        → x.shared.found ≡ true
        → IsResult thread_count prefix bits x.shared
    found-IsResult x r = (StateInv-Reachable r).result

    -- In every state that the threads reach with at least one and at most 2^32 - 1 threads, at most
    -- one worker stands before its assignment of the result.
    pub storing_unique :
        (x : State)
        → Reachable x
        → (i j : ℕ) → i < thread_count
        → j < thread_count
        → is_storing (x.pc i) ≡ true
        → is_storing (x.pc j) ≡ true
        → i ≡ j
    storing_unique x r = (StateInv-Reachable r).unique

    -- In every state that the threads reach with at least one and at most 2^32 - 1 threads, when a
    -- worker has finished and both flags are clear, no 32-bit nonce of that worker passes.
    pub finished_exhausted :
        (x : State)
        → Reachable x
        → (i : ℕ) → i < thread_count
        → x.pc i ≡ finished
        → x.shared.stop ≡ false
        → x.shared.stop_requested ≡ false
        → (n : ℕ) → n ≤ u32_max
        → n % thread_count ≡ i
        → passes thread_count prefix bits n ≡ false
    finished_exhausted x r i lt e clear none n le own =
        let w : WorkerInv thread_count prefix bits x.shared i finished =
          subst (WorkerInv thread_count prefix bits x.shared i) e
            ((StateInv-Reachable r).each i lt) in
        w clear none n (omega arith) le own
