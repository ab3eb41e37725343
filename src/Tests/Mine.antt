-- ===== src/Tests/Mine.antt =====
-- Short runs of the search: four workers at difficulty 0, where worker 2 stores its first nonce.
use native.Mathlib.Decide.{ℕ_discrete}
use hermit_miner.Base.{
  ℕ, zero, suc, ◌*◌, ◌≤◌, ◌<◌, ◌⊎◌, ◌≡◌, ◌+◌, true, false, [], ◌∷◌, arith, refl, u32_max, Bytes,
}
use hermit_miner.Job.{meets_difficulty}
use hermit_miner.Sha256.{
  double_sha256, sha256, pad, total_len, copy_into, put_length, blocks, digest_bytes, schedule,
  load_words, extend_words, rounds, round, load_word, next_word, ch, maj, big_sigma0, big_sigma1,
  small_sigma0, small_sigma1,
}
use hermit_miner.Mine.{
  returned, stopped, waiter, sees_stop, joins, State, Shared, Pc, testing, loading, hashing,
  finished, missed, exhausted, exchanging, storing, leaving, initial, update, worker, unrequested,
  unstopped, hit, won, stored, left, passes, payload,
}
use hermit_miner.Mine.Workers.{IsResult}
use hermit_miner.Mine.Complete.{returned-found}
use hermit_miner.Mine.Ends.{WorkerRun, none, more, stop-WorkerRun}
use hermit_miner.Mine.Reach.{Reachable, start, after, found-IsResult, finished_exhausted}

pub meets_zero : (hash : Bytes) → meets_difficulty hash 0 ≡ true
unfolding meets_difficulty
meets_zero [] = refl
meets_zero (b ∷ hash) = refl

passes_zero : passes 4 [] 0 2 ≡ true
unfolding passes
passes_zero = meets_zero (double_sha256 (payload [] 2))

passes_first : passes 2 [] 0 0 ≡ true
unfolding passes
passes_first = meets_zero (double_sha256 (payload [] 0))

abbrev moved : ℕ → State → Shared → Pc → State
moved i x s p = record x { shared = s; pc = update x.pc i p }

abbrev stopping : Shared
stopping = record initial.shared { stop = true }

abbrev storing_state : State
storing_state =
    moved 2
      (moved 2 (moved 2 (moved 2 initial initial.shared (loading 2 0)) initial.shared (hashing 2 0))
        initial.shared (exchanging 2 1))
      stopping (storing 2 1)

abbrev stored_state : State
stored_state =
    moved 2 storing_state
      (record stopping { found = true; nonce = 2; hash = double_sha256 (payload [] 2) }) (leaving 1)

storing_run : Reachable 4 [] 0 storing_state
unfolding ℕ_discrete
storing_run =
    after
      (after
        (after (after start (worker 2 (omega arith) (unrequested (omega arith) refl)))
          (worker 2 (omega arith) (unstopped refl)))
        (worker 2 (omega arith) (hit passes_zero)))
      (worker 2 (omega arith) (won refl))

stored_run : Reachable 4 [] 0 stored_state
unfolding ℕ_discrete
stored_run = after storing_run (worker 2 (omega arith) stored)

found-IsResult_example : IsResult 4 [] 0 stored_state.shared
found-IsResult_example =
    found-IsResult 4 [] 0 (omega arith) (omega arith) stored_state stored_run refl

-- Nonce 5 misses at difficulty 8; it is the only nonce of worker 5 of 2^32 - 1.
missing : passes u32_max [] 8 5 ≡ false
unfolding passes meets_difficulty payload double_sha256 sha256 pad total_len copy_into put_length
    blocks digest_bytes schedule load_words extend_words rounds round load_word next_word ch maj
    big_sigma0 big_sigma1 small_sigma0 small_sigma1
missing = refl

abbrev finished_state : State
finished_state =
    let s = initial.shared in
    moved 5
      (moved 5
        (moved 5 (moved 5 (moved 5 initial s (loading 5 0)) s (hashing 5 0)) s
          (testing (5 + u32_max) 1))
        s (leaving 1))
      (record s { total_hashes = 1 }) finished

finished_run : Reachable u32_max [] 8 finished_state
unfolding ℕ_discrete
finished_run =
    after
      (after
        (after
          (after (after start (worker 5 (omega arith) (unrequested (omega arith) refl)))
            (worker 5 (omega arith) (unstopped refl)))
          (worker 5 (omega arith) (missed missing)))
        (worker 5 (omega arith) (exhausted (omega arith))))
      (worker 5 (omega arith) left)

finished_exhausted_example : passes u32_max [] 8 5 ≡ false
unfolding ℕ_discrete
finished_exhausted_example =
    finished_exhausted u32_max [] 8 (omega arith) (omega arith) finished_state finished_run 5
      (omega arith) refl refl refl 5 (omega arith) refl

stop-WorkerRun_example :
    (1 ≤ 4 * 4)
    × (((i : ℕ) → i < 4 → stored_state.pc i ≡ finished)
        ⊎ ((z : State) × WorkerRun 4 [] 0 2 storing_state z))
unfolding ℕ_discrete
stop-WorkerRun_example =
    stop-WorkerRun 4 [] 0 1 storing_state stored_state refl
      (more {y = storing_state} 2 none (omega arith) stored)

-- Two workers: the first stores nonce 0, the second leaves for `stop`, and `mine` returns.
abbrev found_shared : Shared
found_shared = record stopping { found = true; nonce = 0; hash = double_sha256 (payload [] 0) }

abbrev counted : Shared → ℕ → Shared
counted s h = record s { total_hashes = h }

abbrev first_done : State
first_done =
    moved 0
      (moved 0
        (moved 0
          (moved 0
            (moved 0 (moved 0 initial initial.shared (loading 0 0)) initial.shared (hashing 0 0))
            initial.shared (exchanging 0 1))
          stopping (storing 0 1))
        found_shared (leaving 1))
      (counted found_shared 1) finished

abbrev both_done : State
both_done =
    moved 1
      (moved 1 (moved 1 first_done first_done.shared (loading 1 0)) first_done.shared (leaving 0))
      (counted found_shared 1) finished

abbrev returned_state : State
returned_state = record both_done { main = returned }

first_run : Reachable 2 [] 0 first_done
unfolding ℕ_discrete
first_run =
    after
      (after
        (after
          (after
            (after (after start (worker 0 (omega arith) (unrequested (omega arith) refl)))
              (worker 0 (omega arith) (unstopped refl)))
            (worker 0 (omega arith) (hit (passes_first))))
          (worker 0 (omega arith) (won refl)))
        (worker 0 (omega arith) stored))
      (worker 0 (omega arith) left)

both_run : Reachable 2 [] 0 both_done
unfolding ℕ_discrete
both_run =
    after
      (after (after first_run (worker 1 (omega arith) (unrequested (omega arith) refl)))
        (worker 1 (omega arith) (stopped refl)))
      (worker 1 (omega arith) left)

both_finished : (i : ℕ) → i < 2 → both_done.pc i ≡ finished
unfolding ℕ_discrete
both_finished zero lt = refl
both_finished (suc zero) lt = refl
both_finished (suc (suc i)) lt = absurd (omega arith)

returned_run : Reachable 2 [] 0 returned_state
returned_run = after (after both_run (waiter (sees_stop refl))) (waiter (joins both_finished))

returned-found_example : found_shared.found ≡ true
returned-found_example =
    returned-found 2 [] 0 (omega arith) (omega arith) returned_state (omega arith) returned_run refl
      refl refl 0 (omega arith) passes_first
