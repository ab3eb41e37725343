-- ===== src/Tests/Job.antt =====
-- The difficulty test and the hex texts.
use hermit_miner.Base.{◌≡◌, ◌↔◌, true, ◌∷◌, replicate, arith, Bytes, IsBytes, refl}
use hermit_miner.Job.Difficulty.{Meets, meets_difficulty_iff}
use hermit_miner.Job.{meets_difficulty}

-- Two zero bytes and a byte 0x0f: 20 zero bits.
abbrev low_hash : Bytes
low_hash = 0 ∷ 0 ∷ 0x0f ∷ replicate 29 0xff

low_hash-IsBytes : IsBytes low_hash
low_hash-IsBytes = omega arith

low_hash_passes : meets_difficulty low_hash 20 ≡ true
unfolding meets_difficulty
low_hash_passes = refl

meets_difficulty_iff_example : (meets_difficulty low_hash 20 ≡ true) ↔ Meets low_hash 20
meets_difficulty_iff_example = meets_difficulty_iff low_hash 20 low_hash-IsBytes
