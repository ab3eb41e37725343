-- ===== src/Mine/Workers.antt =====
-- What a worker knows where it stands, and that every step of any thread keeps it.
use native.Mathlib.Decide.{dec_lt}
use hermit_miner.Base.{
  ℕ, ◌∙◌, Bool-cases, inl, inr, suc, ◌+◌, ◌%◌, ◌≤◌, ◌<◌, ◌≡◌, refl, sym, Bool, true, false, arith,
  Bytes, u32_max, u64,
}
use hermit_miner.Mine.{
  Shared, Pc, testing, loading, hashing, exchanging, storing, leaving, finished, Move, exhausted,
  requested, unrequested, stopped, unstopped, missed, hit, won, beaten, stored, left, passes,
  payload,
}
use hermit_miner.Sha256.{double_sha256}

-- Two nonces of one worker are at least the number of threads apart.
same_worker : (t n m : ℕ) → 0 < t → n % t ≡ m % t → n ≤ m → m < n + t → n ≡ m
same_worker t n m pos e le lt = grind arith

next_mod : (t n : ℕ) → 0 < t → (n + t) % t ≡ n % t
next_mod t n pos = grind arith

-- Whether a worker stands before the assignment of the result.
abbrev pub is_storing : Pc → Bool
is_storing (storing n h) = true
is_storing _ = false

module _ (thread_count : ℕ) (prefix : Bytes) (bits : ℕ) where
  -- None of the worker's nonces below `n` passes.
  abbrev pub Covered : ℕ → ℕ → Type 0
  Covered tid n =
      (m : ℕ)
      → m < n
      → m ≤ u32_max
      → m % thread_count ≡ tid
      → passes thread_count prefix bits m ≡ false

  -- A worker that has left did so for a flag, or has tried all its nonces.
  abbrev pub LeftFor : Shared → ℕ → Type 0
  LeftFor s tid = s.stop ≡ false → s.stop_requested ≡ false → Covered tid (suc u32_max)

  abbrev pub AtNonce : ℕ → ℕ → Type 0
  AtNonce tid n = (n % thread_count ≡ tid) × Covered tid n

  abbrev pub WorkerInv : Shared → ℕ → Pc → Type 0
  WorkerInv s tid (testing n h) = (n ≤ u32_max + thread_count) × AtNonce tid n
  WorkerInv s tid (loading n h) = (n ≤ u32_max) × AtNonce tid n
  WorkerInv s tid (hashing n h) = (n ≤ u32_max) × AtNonce tid n
  WorkerInv s tid (exchanging n h) = (n ≤ u32_max) × (passes thread_count prefix bits n ≡ true)
  WorkerInv s tid (storing n h) =
      (n ≤ u32_max)
      × (passes thread_count prefix bits n ≡ true)
      × (s.stop ≡ true)
      × (s.found ≡ false)
  WorkerInv s tid (leaving h) = LeftFor s tid
  WorkerInv s tid finished = LeftFor s tid

  -- A result is stored behind `stop`, and is a nonce that passes, with its hash.
  pub record IsResult (s : Shared) : Type 0 where
    pub stops : s.stop ≡ true
    pub in_space : s.nonce ≤ u32_max
    pub passing : passes thread_count prefix bits s.nonce ≡ true
    pub hashed : s.hash ≡ double_sha256 (payload prefix s.nonce)

  abbrev pub ResultInv : Shared → Type 0
  ResultInv s = s.found ≡ true → IsResult s

  -- While `stop` is clear there is no result.
  pub not_found : (s : Shared) → ResultInv s → s.stop ≡ false → s.found ≡ false
  not_found s r q = elim (Bool-cases s.found) [
    | inl f ↦ let set : s.stop ≡ true = (r f).stops in cc
    | inr n ↦ n
  ]

  module _ (pos : 0 < thread_count) (few : thread_count ≤ u32_max) where
    Covered-next :
        (tid n : ℕ)
        → n % thread_count ≡ tid
        → Covered tid n
        → passes thread_count prefix bits n ≡ false
        → Covered tid (n + thread_count)
    Covered-next tid n e c miss m lt small em = elim (dec_lt m n) [
      | yes before ↦ c m before small em
      | no after ↦
          let same : n ≡ m = same_worker thread_count n m pos (e ∙ sym em) (omega arith) lt in
          rw (← same) miss
    ]

    -- What the moving worker knows after its step.
    pub Move-WorkerInv :
        {s s' : Shared} {p p' : Pc} (tid : ℕ)
        → Move thread_count prefix bits s p s' p'
        → ResultInv s
        → WorkerInv s tid p
        → WorkerInv s' tid p'
    Move-WorkerInv tid (exhausted big) r w = λ _ _ m lt small em. w.1.1 m (omega arith) small em
    Move-WorkerInv tid (requested le q) r w = λ _ nq. cc
    Move-WorkerInv tid (unrequested le q) r w = (le, w.1)
    Move-WorkerInv tid (stopped q) r w = λ nq _. cc
    Move-WorkerInv tid (unstopped q) r w = w
    Move-WorkerInv tid (missed {n} miss) r w =
        let fits : u64 (n + thread_count) ≡ n + thread_count = omega arith in
        rw fits
          (omega arith, (next_mod thread_count n pos ∙ w.1.0, Covered-next tid n w.1.0 w.1.1 miss))
    Move-WorkerInv tid (hit ok) r w = (w.0, ok)
    Move-WorkerInv {s} tid (won q) r w = (w.0, w.1, refl, not_found s r q)
    Move-WorkerInv tid (beaten q) r w = λ nq _. cc
    Move-WorkerInv {s} tid stored r w = λ nq _. let set : s.stop ≡ true = w.2 in cc
    Move-WorkerInv tid left r w = w

  pub Move-ResultInv :
      {s s' : Shared} {p p' : Pc} (tid : ℕ)
      → Move thread_count prefix bits s p s' p'
      → WorkerInv s tid p
      → ResultInv s
      → ResultInv s'
  Move-ResultInv {s} tid (won q) w r = λ f. let n : s.found ≡ false = not_found s r q in cc
  Move-ResultInv {s} tid (stored {n}) w r =
      λ _. record { stops = w.2; in_space = w.0; passing = w.1; hashed = refl }
  Move-ResultInv tid left w r = λ f. record {
    stops = (r f).stops;
    in_space = (r f).in_space;
    passing = (r f).passing;
    hashed = (r f).hashed;
  }
  Move-ResultInv tid (exhausted big) w r = r
  Move-ResultInv tid (requested le q) w r = r
  Move-ResultInv tid (unrequested le q) w r = r
  Move-ResultInv tid (stopped q) w r = r
  Move-ResultInv tid (unstopped q) w r = r
  Move-ResultInv tid (missed miss) w r = r
  Move-ResultInv tid (hit ok) w r = r
  Move-ResultInv tid (beaten q) w r = r

  -- The flags are never cleared.
  pub record Later (s s' : Shared) : Type 0 where
    pub stop_kept : s.stop ≡ true → s'.stop ≡ true
    pub request_kept : s.stop_requested ≡ true → s'.stop_requested ≡ true

  LeftFor-Later : (s s' : Shared) (tid : ℕ) → Later s s' → LeftFor s tid → LeftFor s' tid
  LeftFor-Later s s' tid l h = λ ns nr.
      h (back s.stop s'.stop l.stop_kept ns)
        (back s.stop_requested s'.stop_requested l.request_kept nr)
    where
      back : (b b' : Bool) → (b ≡ true → b' ≡ true) → b' ≡ false → b ≡ false
      back true b' k e = cc (k refl)
      back false b' k e = refl

  -- What a thread that does not move goes on knowing.
  pub WorkerInv-Later :
      (s s' : Shared) (tid : ℕ) (p : Pc)
      → Later s s'
      → (is_storing p ≡ true → s'.found ≡ s.found)
      → WorkerInv s tid p
      → WorkerInv s' tid p
  WorkerInv-Later s s' tid (storing n h) l f w = (w.0, w.1, l.stop_kept w.2, f refl ∙ w.3)
  WorkerInv-Later s s' tid (leaving h) l f w = LeftFor-Later s s' tid l w
  WorkerInv-Later s s' tid finished l f w = LeftFor-Later s s' tid l w
  WorkerInv-Later s s' tid (testing n h) l f w = w
  WorkerInv-Later s s' tid (loading n h) l f w = w
  WorkerInv-Later s s' tid (hashing n h) l f w = w
  WorkerInv-Later s s' tid (exchanging n h) l f w = w

  pub Move-Later :
      {s s' : Shared} {p p' : Pc} → Move thread_count prefix bits s p s' p' → Later s s'
  Move-Later (won q) = record { stop_kept = λ _. refl; request_kept = λ h. h }
  Move-Later _ = record { stop_kept = λ h. h; request_kept = λ h. h }

  -- The result is stored only by a worker that stands before its assignment.
  pub Move-found :
      {s s' : Shared} {p p' : Pc}
      → Move thread_count prefix bits s p s' p'
      → is_storing p ≡ false
      → s'.found ≡ s.found
  Move-found stored n = cc
  Move-found (won q) n = refl
  Move-found _ n = refl

  -- A worker comes before the assignment only when `stop` was clear.
  pub Move-storing :
      {s s' : Shared} {p p' : Pc}
      → Move thread_count prefix bits s p s' p'
      → is_storing p' ≡ true
      → s.stop ≡ false
  Move-storing (won q) h = q
  Move-storing stored h = cc
  Move-storing _ h = cc
