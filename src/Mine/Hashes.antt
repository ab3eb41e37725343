-- ===== src/Mine/Hashes.antt =====
-- How many hashes a worker has counted where it stands, and at most how many it counts.
use native.Mathlib.Decide.{dec_lt}
use native.Mathlib.Nat.{div-add-mod', mod-lt, le-div_iff_mul-le}
use hermit_miner.Base.{
  ℕ, ◌+◌, ◌*◌, ◌/◌, ◌%◌, ◌^◌, ◌≤◌, ◌<◌, ◌≡◌, ◌∙◌, arith, Bytes, u32_max, u64, scale, sum,
  sum-shares, ltb, if◌then◌else◌, min,
}
use hermit_miner.Mine.{
  Shared, Pc, testing, loading, hashing, exchanging, storing, leaving, finished, Move, exhausted,
  requested, unrequested, stopped, unstopped, missed, hit, won, beaten, stored, left,
}

over :
    (q r t tid h whole : ℕ)
    → r < t
    → q * t + r ≡ whole
    → tid + h * t < whole + t
    → q + 1 ≤ h
    → (tid < r) × (h ≡ q + 1)
over q r t tid h whole small e lt le = elim (dec_lt (q + 1) h) [
  | yes far ↦ let two = scale (q + 2) h t (omega arith) in absurd (grind arith)
  | no near ↦ let one = scale (q + 1) h t le in (grind arith, omega arith)
]

next_count : (tid h t n : ℕ) → n ≡ tid + h * t → n + t ≡ tid + (h + 1) * t
next_count tid h t n e = grind arith

whole : (q r t all : ℕ) → r < t → q * t + r ≡ all → t * q + min t r ≡ all
whole q r t all small e = let swap : t * q ≡ q * t = grind arith in omega arith

share-le :
    (q r t tid h whole : ℕ)
    → r < t
    → q * t + r ≡ whole
    → tid + h * t < whole + t
    → h ≤ q + (if ltb tid r then 1 else 0)
share-le q r t tid h whole small e lt = elim (dec_lt q h) [
  | yes above ↦ let (below, same) = over q r t tid h whole small e lt (omega arith) in ground arith
  | no below ↦ omega arith
]

-- The number of 32-bit nonces that are `tid` modulo the number of threads.
abbrev pub nonces : ℕ → ℕ → ℕ
nonces thread_count tid = 2 ^ 32 / thread_count + (if ltb tid (2 ^ 32 % thread_count) then 1 else 0)

module _ (thread_count : ℕ) where
  -- The count of hashes of worker `tid` gives the nonce that it stands before.
  abbrev pub HashInv : ℕ → Pc → Type 0
  HashInv tid (testing n h) = (n ≡ tid + h * thread_count) × (n ≤ u32_max + thread_count)
  HashInv tid (loading n h) = (n ≡ tid + h * thread_count) × (n ≤ u32_max)
  HashInv tid (hashing n h) = (n ≡ tid + h * thread_count) × (n ≤ u32_max)
  HashInv tid (exchanging n h) = tid + h * thread_count ≤ u32_max + thread_count
  HashInv tid (storing n h) = tid + h * thread_count ≤ u32_max + thread_count
  HashInv tid (leaving h) = tid + h * thread_count ≤ u32_max + thread_count
  HashInv tid finished = Unit

  -- What a worker has added to `total_hashes`, at most.
  abbrev pub added : ℕ → Pc → ℕ
  added tid finished = nonces thread_count tid
  added tid _ = 0

  module _ (pos : 0 < thread_count) (few : thread_count ≤ u32_max) where
    count_fits : (tid h : ℕ) → tid + h * thread_count ≤ u32_max → u64 (h + 1) ≡ h + 1
    count_fits tid h le = let one = scale 1 thread_count h (omega arith) in grind arith

    pub Move-HashInv :
        {prefix : Bytes} {bits : ℕ} {s s' : Shared} {p p' : Pc} (tid : ℕ)
        → Move thread_count prefix bits s p s' p'
        → HashInv tid p
        → HashInv tid p'
    Move-HashInv tid (exhausted big) w = omega (arith, w.0, w.1)
    Move-HashInv tid (requested le q) w = omega (arith, w.0, w.1)
    Move-HashInv tid (unrequested le q) w = (w.0, le)
    Move-HashInv tid (stopped q) w = omega (arith, w.0, w.1)
    Move-HashInv tid (unstopped q) w = w
    Move-HashInv tid (missed {n} {h} miss) w =
        let fits : u64 (n + thread_count) ≡ n + thread_count = omega arith in
        rw (fits, count_fits tid h (omega arith)) (next_count tid h thread_count n w.0, omega arith)
    Move-HashInv tid (hit {n} {h} ok) w =
        rw (count_fits tid h (omega arith))
          (let same = next_count tid h thread_count n w.0 in omega arith)
    Move-HashInv tid (won q) w = w
    Move-HashInv tid (beaten q) w = w
    Move-HashInv tid stored w = w
    Move-HashInv tid left w = tt

    -- No worker counts more hashes than it has nonces.
    pub hashes-le :
        (tid h : ℕ) → tid + h * thread_count ≤ u32_max + thread_count → h ≤ nonces thread_count tid
    hashes-le tid h le =
        share-le (2 ^ 32 / thread_count) (2 ^ 32 % thread_count) thread_count tid h (2 ^ 32)
          (mod-lt (2 ^ 32) pos) (div-add-mod' (2 ^ 32) thread_count) (omega arith)

    pub sum-nonces : sum thread_count (nonces thread_count) ≡ 2 ^ 32
    sum-nonces =
        sum-shares (2 ^ 32 / thread_count) (2 ^ 32 % thread_count) thread_count
          (nonces thread_count) (λ i lt. ground arith) (λ i le. ground arith)
        ∙ whole (2 ^ 32 / thread_count) (2 ^ 32 % thread_count) thread_count (2 ^ 32)
            (mod-lt (2 ^ 32) pos) (div-add-mod' (2 ^ 32) thread_count)

    -- At most 2^31 threads leave at least two nonces to each.
    pub nonces-ge : (tid : ℕ) → thread_count ≤ 2 ^ 31 → 2 ≤ nonces thread_count tid
    nonces-ge tid half =
        let two = (le-div_iff_mul-le {k = thread_count} {x = 2} {y = 2 ^ 32} pos).1 (omega arith) in
        omega arith
