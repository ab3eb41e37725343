-- ===== src/Sha256/Digest.antt =====
-- The digest: its size and its bytes.
use hermit_miner.Base.{
  ℕ, zero, suc, ◌+◌, ◌*◌, ◌≡◌, refl, List, arith, Bytes, IsBytes, All-append, length, length-append,
  get_or,
}
use hermit_miner.Sha256.{sha256, double_sha256, digest_bytes, word_bytes}

digest_bytes-IsBytes : (n i : ℕ) (h : List ℕ) → IsBytes (digest_bytes n i h)
unfolding digest_bytes
digest_bytes-IsBytes zero i h = tt
digest_bytes-IsBytes (suc n) i h =
    All-append _ (word_bytes (get_or h i 0)) (digest_bytes n (i + 1) h) (omega arith)
      (digest_bytes-IsBytes n (i + 1) h)

length-digest_bytes : (n i : ℕ) (h : List ℕ) → length (digest_bytes n i h) ≡ 4 * n
unfolding digest_bytes
length-digest_bytes zero i h = refl
length-digest_bytes (suc n) i h = omega (
  arith,
  length-append (word_bytes (get_or h i 0)) (digest_bytes n (i + 1) h),
  length-digest_bytes n (i + 1) h,
)

-- A digest is 32 bytes.
pub sha256-length : (message : Bytes) → (length (sha256 message) ≡ 32) × IsBytes (sha256 message)
unfolding sha256
sha256-length message = (length-digest_bytes 8 0 _, digest_bytes-IsBytes 8 0 _)

-- A double digest is 32 bytes.
pub double_sha256-length :
    (message : Bytes) → (length (double_sha256 message) ≡ 32) × IsBytes (double_sha256 message)
unfolding double_sha256
double_sha256-length message = sha256-length (sha256 message)
