-- ===== src/Mine/Complete.antt =====
-- A search that returns without an abort or a signal misses no nonce that passes.
use mathlib.Core.Path.{subst}
use native.Mathlib.Nat.{mod-lt}
use hermit_miner.Base.{
  ℕ, ap, Bool-cases, inl, inr, ◌+◌, ◌%◌, ◌^◌, ◌≤◌, ◌<◌, ◌≡◌, refl, sym, true, false, arith, Bytes,
  u32_max, sum, sum-le_room, sum-change,
}
use hermit_miner.Mine.{
  Shared, Pc, finished, MainPc, MainMove, sees_stop, sees_none, aborts, sleeps, counts_all,
  counts_some, joins, watching, checking, counting, joining, returned, Move, left, passes, State,
  worker, waiter, signal, initial, update,
}
use hermit_miner.Mine.Hashes.{
  HashInv, Move-HashInv, added, nonces, hashes-le, sum-nonces, nonces-ge,
}
use hermit_miner.Mine.Reach.{Reachable, start, after, StateInv, StateInv-Reachable, update_ind}
use hermit_miner.Mine.Workers.{WorkerInv}
use hermit_miner.Mine.Causes.{
  Searched, Cause, AllFinished, WaiterInv, Move-stop, is_finished, update_at, update_off,
  Cause-worker, waits-worker, Cause-flags, Cause-same, waits-signal, found_by, by_storing, by_abort,
  by_count,
}

too_few :
    {count before all : ℕ} → count ≤ before → before + 2 ≤ all → all ≡ 2 ^ 32 → u32_max ≤ count → ⊥
too_few o r w c = omega arith

chain_total :
    (old : ℕ) {before after new at count count' : ℕ}
    → at ≡ new
    → after + old ≡ before + at
    → count' + old ≤ count + new
    → count ≤ before
    → count' ≤ after
chain_total old e c g o = omega arith

module _ (thread_count : ℕ) (prefix : Bytes) (bits : ℕ) where
  record Counted (x : State) : Type 0 where
    place : (i : ℕ) → i < thread_count → HashInv thread_count i (x.pc i)
    total : x.shared.total_hashes ≤ sum thread_count (λ i. added thread_count i (x.pc i))
    cause : x.shared.stop ≡ true → Cause thread_count prefix bits x
    waits : WaiterInv thread_count prefix bits x x.main

  Counted-initial : 0 < thread_count → thread_count ≤ u32_max → Counted initial
  Counted-initial pos few = record {
    place = λ i lt. (omega arith, omega arith);
    total = omega arith;
    cause = λ h. cc;
    waits = tt;
  }

  -- The count grows by no more than the worker has nonces.
  Move-total :
      {s s' : Shared} {p p' : Pc} (tid : ℕ)
      → 0 < thread_count
      → thread_count ≤ u32_max
      → Move thread_count prefix bits s p s' p'
      → HashInv thread_count tid p
      → s'.total_hashes + added thread_count tid p ≤ s.total_hashes + added thread_count tid p'
  Move-total tid pos few (left {h = h}) w =
      let most = hashes-le thread_count pos few tid h w in omega arith
  Move-total tid pos few _ w = omega arith

  finished_iff : (p : Pc) → is_finished p ≡ true → p ≡ finished
  finished_iff finished h = refl
  finished_iff _ h = cc

  added-le : (tid : ℕ) (p : Pc) → added thread_count tid p ≤ nonces thread_count tid
  added-le tid finished = omega arith
  added-le tid _ = omega arith

  module _ (pos : 0 < thread_count) (few : thread_count ≤ u32_max) where
    unfinished_room :
        (tid : ℕ) (p : Pc)
        → thread_count ≤ 2 ^ 31
        → is_finished p ≡ false
        → added thread_count tid p + 2 ≤ nonces thread_count tid
    unfinished_room tid finished half u = cc
    unfinished_room tid _ half u = let two = nonces-ge thread_count pos few tid half in omega arith

    total-worker :
        {x : State} {s : Shared} {p : Pc} (i : ℕ)
        → i < thread_count
        → Move thread_count prefix bits x.shared (x.pc i) s p
        → Counted x
        → s.total_hashes ≤ sum thread_count (λ j. added thread_count j (update x.pc i p j))
    total-worker {x} {s} {p} i lt move inv =
        let changed =
          sum-change thread_count (λ j. added thread_count j (x.pc j))
            (λ j. added thread_count j (update x.pc i p j)) i lt
            (λ j ne. ap (added thread_count j) (update_off x.pc i j p (λ e. ne (sym e)))) in
        let here : added thread_count i (update x.pc i p i) ≡ added thread_count i p =
          ap (added thread_count i) (update_at x.pc i p) in
        let grown = Move-total i pos few move (inv.place i lt) in
        let old = inv.total in chain_total (added thread_count i (x.pc i)) here changed grown old

    Cause-Move :
        {x : State} {s : Shared} {p : Pc} (i : ℕ)
        → i < thread_count
        → Move thread_count prefix bits x.shared (x.pc i) s p
        → Counted x
        → s.stop ≡ true
        → Cause thread_count prefix bits (record x { shared = s; pc = update x.pc i p })
    Cause-Move {x} {s} {p} i lt move inv h = elim (Move-stop thread_count prefix bits move h) [
      | inl old ↦ Cause-worker thread_count prefix bits i lt move (inv.cause old)
      | inr new ↦ by_storing i lt (rw (update_at x.pc i p) new)
    ]

    Counted-worker :
        {x : State} {s : Shared} {p : Pc} (i : ℕ)
        → i < thread_count
        → Move thread_count prefix bits x.shared (x.pc i) s p
        → Counted x
        → Counted (record x { shared = s; pc = update x.pc i p })
    Counted-worker {x} {s} {p} i lt move inv = record {
      place = λ j small.
          update_ind x.pc (HashInv thread_count j) j
            (λ e.
              subst (λ k. HashInv thread_count k p) e
                (Move-HashInv thread_count pos few i move (inv.place i lt)))
            (λ ne. inv.place j small);
      total = total-worker i lt move inv;
      cause = Cause-Move i lt move inv;
      waits = waits-worker thread_count prefix bits x i x.main lt move inv.waits;
    }

    -- When the count ends the search, every worker has finished, since an unfinished one would leave
    -- at least two nonces uncounted.
    counts-AllFinished :
        (x : State)
        → thread_count ≤ 2 ^ 31
        → Counted x
        → u32_max ≤ x.shared.total_hashes
        → AllFinished thread_count prefix bits x.pc
    counts-AllFinished x half inv all i lt = elim (Bool-cases (is_finished (x.pc i))) [
      | inl f ↦ finished_iff (x.pc i) f
      | inr u ↦
          let room =
            sum-le_room thread_count (λ j. added thread_count j (x.pc j)) (nonces thread_count) 2 i
              lt (λ j _. added-le j (x.pc j)) (unfinished_room i (x.pc i) half u) in
          let whole = sum-nonces thread_count pos few in
          let old = inv.total in absurd (too_few old room whole all)
    ]

    -- Every worker that left with both flags clear has tried its nonces; together they tried all.
    counts-Searched :
        (x : State)
        → thread_count ≤ 2 ^ 31
        → Counted x
        → StateInv thread_count prefix bits x
        → x.shared.stop ≡ false
        → u32_max ≤ x.shared.total_hashes
        → Searched thread_count prefix bits x.shared
    counts-Searched x half inv st clear all none n le =
        let own = mod-lt n pos in
        let w =
          subst (WorkerInv thread_count prefix bits x.shared (n % thread_count))
            (counts-AllFinished x half inv all (n % thread_count) own)
            (st.each (n % thread_count) own) in
        w clear none n (omega arith) le refl

    Counted-same :
        {x : State} (s : Shared) (m : MainPc)
        → s.total_hashes ≡ x.shared.total_hashes
        → (s.stop ≡ true → Cause thread_count prefix bits (record x { shared = s; main = m }))
        → WaiterInv thread_count prefix bits (record x { shared = s; main = m }) m
        → Counted x
        → Counted (record x { shared = s; main = m })
    Counted-same {x} s m e c w inv = record {
      place = inv.place;
      total = rw e inv.total;
      cause = c;
      waits = w;
    }

    -- The waiting thread sets `stop` for an abort, or for a count that covers all nonces.
    Counted-main :
        {x : State} {s : Shared} {m m' : MainPc}
        → thread_count ≤ 2 ^ 31
        → StateInv thread_count prefix bits x
        → MainMove thread_count prefix bits x.pc x.shared m s m'
        → WaiterInv thread_count prefix bits x m
        → Counted x
        → Counted (record x { shared = s; main = m' })
    Counted-main {x} half st (sees_stop h) w inv =
        Counted-same {x = x} x.shared joining refl
          (λ h. Cause-same thread_count prefix bits x joining (inv.cause h)) h inv
    Counted-main {x} half st (sees_none h) w inv =
        Counted-same {x = x} x.shared checking refl
          (λ h. Cause-same thread_count prefix bits x checking (inv.cause h)) tt inv
    Counted-main {x} half st (aborts h) w inv =
        Counted-same {x = x} (record x.shared { stop = true; aborted = true }) joining refl
          (λ _. by_abort refl) refl inv
    Counted-main {x} half st (sleeps h) w inv =
        Counted-same {x = x} x.shared counting refl
          (λ h. Cause-same thread_count prefix bits x counting (inv.cause h)) tt inv
    Counted-main {x} half st (counts_all all) w inv =
        Counted-same {x = x} (record x.shared { stop = true }) joining refl
          (λ _. elim (Bool-cases x.shared.stop) [
            | inl old ↦
                Cause-flags thread_count prefix bits {x = x} (record x.shared { stop = true })
                  joining (record { stop_kept = λ _. refl; request_kept = λ h. h })
                  (record { found_kept = λ h. h; aborted_kept = λ h. h }) (inv.cause old)
            | inr clear ↦ by_count (counts-Searched x half inv st clear all)
          ])
          refl inv
    Counted-main {x} half st (counts_some h) w inv =
        Counted-same {x = x} x.shared watching refl
          (λ h. Cause-same thread_count prefix bits x watching (inv.cause h)) tt inv
    Counted-main {x} half st (joins all) w inv =
        Counted-same {x = x} x.shared returned refl
          (λ h. Cause-same thread_count prefix bits x returned (inv.cause h)) (w, all) inv

    Counted-signal :
        (x : State)
        → Counted x
        → Counted (record x { shared = record x.shared { stop_requested = true } })
    Counted-signal x inv = record {
      place = inv.place;
      total = inv.total;
      cause = λ h.
          Cause-flags thread_count prefix bits {x = x} (record x.shared { stop_requested = true })
            x.main (record { stop_kept = λ h. h; request_kept = λ _. refl })
            (record { found_kept = λ h. h; aborted_kept = λ h. h }) (inv.cause h);
      waits = waits-signal thread_count prefix bits x x.main inv.waits;
    }

    Counted-Reachable :
        {x : State} → thread_count ≤ 2 ^ 31 → Reachable thread_count prefix bits x → Counted x
    Counted-Reachable half start = Counted-initial pos few
    Counted-Reachable half (after r (worker i lt move)) =
        Counted-worker i lt move (Counted-Reachable half r)
    Counted-Reachable half (after {x = x} r (waiter move)) =
        let inv = Counted-Reachable half r in
        Counted-main {x = x} half (StateInv-Reachable thread_count prefix bits pos few r) move
          inv.waits inv
    Counted-Reachable half (after {x = x} r signal) =
        let inv = Counted-Reachable half r in Counted-signal x inv

    -- In every state that one to 2^31 threads reach in which `mine` has returned without an abort
    -- and no signal came, if any 32-bit nonce passes, then a result is found.
    pub returned-found :
        (x : State)
        → thread_count ≤ 2 ^ 31
        → Reachable thread_count prefix bits x
        → x.main ≡ returned
        → x.shared.aborted ≡ false
        → x.shared.stop_requested ≡ false
        → (n : ℕ) → n ≤ u32_max
        → passes thread_count prefix bits n ≡ true
        → x.shared.found ≡ true
    returned-found x half r m a q n le ok =
        let inv = Counted-Reachable half r in
        let w = subst (WaiterInv thread_count prefix bits x) m inv.waits in
        found_by thread_count prefix bits x (inv.cause w.0) w.1 a q n le ok
