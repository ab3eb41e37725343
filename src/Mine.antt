-- ===== src/Mine.antt =====
-- `mine` of src/lib/miner_runtime.cpp: worker threads over the 32-bit nonces and the thread that
-- waits for them, as interleaved steps over the atomics that they share. A step holds one access to
-- an atomic, or the hash of one nonce. A sleep takes any time, so it is no step.
pub mod Workers
pub mod Reach
pub mod Hashes
pub mod Causes
pub mod Complete
pub mod Ends
pub mod Result
use hermit_miner.Base.{
  ℕ, ◌+◌, ◌*◌, ◌/◌, ◌%◌, ◌≤◌, ◌<◌, bit_and, ◌≡◌, Bool, true, false, List, [], ◌∷◌, ◌++◌, Bytes, u8,
  u64, u32_max, ◌>>>◌,
}
use hermit_miner.Job.{meets_difficulty}
use hermit_miner.Sha256.{double_sha256}
use mathlib.Core.Logic.{ite}
use native.Mathlib.Decide.{ℕ_discrete}

-- The payload of a nonce: the prefix, and the nonce with its lowest byte first.
unfoldable pub payload : Bytes → ℕ → Bytes
payload prefix nonce =
    prefix
    ++ (u8 (bit_and nonce 0xff)
        ∷ u8 (bit_and (nonce >>> 8) 0xff)
        ∷ u8 (bit_and (nonce >>> 16) 0xff)
        ∷ u8 (bit_and (nonce >>> 24) 0xff)
        ∷ [])

-- The atomics and the result.
pub record Shared : Type 0 where
  pub stop : Bool
  pub stop_requested : Bool
  pub total_hashes : ℕ
  pub found : Bool
  pub aborted : Bool
  pub nonce : ℕ
  pub hash : Bytes

-- Where a worker stands, with its nonce and its count of hashes: at the test of its loop; behind the
-- load of `stop_requested`; before the hash; before the exchange of `stop`; before the assignment of
-- the result; before the addition to `total_hashes`.
pub data Pc : Type 0 where
  testing loading hashing exchanging storing : ℕ → ℕ → Pc
  leaving : ℕ → Pc
  finished : Pc

-- Where the waiting thread stands: at the test of its loop; behind that test; behind the sleep, at
-- the load of `total_hashes`; at the joins; behind them.
pub data MainPc : Type 0 where
  watching checking counting joining returned : MainPc

pub record State : Type 0 where
  pub shared : Shared
  pub main : MainPc
  pub pc : ℕ → Pc

abbrev pub update : (ℕ → Pc) → ℕ → Pc → ℕ → Pc
update f i p j = ite (ℕ_discrete i j) p (f j)

module _ (thread_count : ℕ) (prefix : Bytes) (bits : ℕ) where
  -- Whether the double hash of a nonce meets the difficulty.
  unfoldable pub passes : ℕ → Bool
  passes nonce = meets_difficulty (double_sha256 (payload prefix nonce)) bits

  -- One step of a worker.
  pub data Move : Shared → Pc → Shared → Pc → Type 0 where
    exhausted : {s : Shared} {n h : ℕ} → u32_max < n → Move s (testing n h) s (leaving h)
    requested :
        {s : Shared} {n h : ℕ}
        → n ≤ u32_max
        → s.stop_requested ≡ true
        → Move s (testing n h) s (leaving h)
    unrequested :
        {s : Shared} {n h : ℕ}
        → n ≤ u32_max
        → s.stop_requested ≡ false
        → Move s (testing n h) s (loading n h)
    stopped : {s : Shared} {n h : ℕ} → s.stop ≡ true → Move s (loading n h) s (leaving h)
    unstopped : {s : Shared} {n h : ℕ} → s.stop ≡ false → Move s (loading n h) s (hashing n h)
    missed :
        {s : Shared} {n h : ℕ}
        → passes n ≡ false
        → Move s (hashing n h) s (testing (u64 (n + thread_count)) (u64 (h + 1)))
    hit :
        {s : Shared} {n h : ℕ}
        → passes n ≡ true
        → Move s (hashing n h) s (exchanging n (u64 (h + 1)))
    won :
        {s : Shared} {n h : ℕ}
        → s.stop ≡ false
        → Move s (exchanging n h) (record s { stop = true }) (storing n h)
    beaten : {s : Shared} {n h : ℕ} → s.stop ≡ true → Move s (exchanging n h) s (leaving h)
    stored :
        {s : Shared} {n h : ℕ}
        → Move s
            (storing n h)
            (record s { found = true; nonce = n; hash = double_sha256 (payload prefix n) })
            (leaving h)
    left :
        {s : Shared} {h : ℕ}
        → Move s (leaving h) (record s { total_hashes = u64 (s.total_hashes + h) }) finished

  -- One step of the waiting thread; it joins the workers when all of them have finished.
  pub data MainMove (pc : ℕ → Pc) : Shared → MainPc → Shared → MainPc → Type 0 where
    sees_stop : {s : Shared} → s.stop ≡ true → MainMove pc s watching s joining
    sees_none : {s : Shared} → s.stop ≡ false → MainMove pc s watching s checking
    aborts :
        {s : Shared}
        → s.stop_requested ≡ true
        → MainMove pc s checking (record s { stop = true; aborted = true }) joining
    sleeps : {s : Shared} → s.stop_requested ≡ false → MainMove pc s checking s counting
    counts_all :
        {s : Shared}
        → u32_max ≤ s.total_hashes
        → MainMove pc s counting (record s { stop = true }) joining
    counts_some : {s : Shared} → s.total_hashes < u32_max → MainMove pc s counting s watching
    joins :
        {s : Shared}
        → ((i : ℕ) → i < thread_count → pc i ≡ finished)
        → MainMove pc s joining s returned

  -- A worker, the waiting thread, or a signal.
  pub data Step : State → State → Type 0 where
    worker :
        {x : State} {s : Shared} {p : Pc} (i : ℕ)
        → i < thread_count
        → Move x.shared (x.pc i) s p
        → Step x (record x { shared = s; pc = update x.pc i p })
    waiter :
        {x : State} {s : Shared} {m : MainPc}
        → MainMove x.pc x.shared x.main s m
        → Step x (record x { shared = s; main = m })
    signal : {x : State} → Step x (record x { shared = record x.shared { stop_requested = true } })

-- All atomics are clear, and worker `i` stands before nonce `i`.
abbrev pub initial : State
initial = record {
  shared = record {
    stop = false;
    stop_requested = false;
    total_hashes = 0;
    found = false;
    aborted = false;
    nonce = 0;
    hash = [];
  };
  main = watching;
  pc = λ i. testing i 0;
}
