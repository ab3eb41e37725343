-- ===== src/Sha256/Standard.antt =====
-- The whole digest, against a description of FIPS 180-4.
use hermit_miner.Base.Fields.{bit_and_ones}
use hermit_miner.Base.{
  ℕ, zero, suc, ◌+◌, ◌*◌, ◌/◌, ◌%◌, ◌^◌, ◌<◌, ◌≡◌, refl, ◌∙◌, ap, List, [], ◌∷◌, ◌++◌, arith,
  bit_and, Bytes, IsBytes, All-append, length, replicate, ◌>>>◌, u8,
}
use hermit_miner.Sha256.Compression.{IsCompression, rounds-IsCompression}
use hermit_miner.Sha256.Padding.{pad_lem, zeros, length_bytes, length-pad}
use hermit_miner.Sha256.Schedule.{IsSchedule, schedule-IsSchedule}
use hermit_miner.Sha256.{
  sha256, digest_bytes, word_bytes, blocks, schedule, rounds, start_registers, add_registers, pad,
  total_len, initial_hash,
}

-- Words as bytes, four for each, the highest first.
abbrev pub bytes_of : List ℕ → Bytes
bytes_of [] = []
bytes_of (x ∷ xs) = x / 2 ^ 24 % 256 ∷ x / 2 ^ 16 % 256 ∷ x / 2 ^ 8 % 256 ∷ x % 256 ∷ bytes_of xs

-- The hash words from block to block, each with a schedule of that block, over so many blocks of
-- the message from an offset on.
pub data Chain (msg : Bytes) : ℕ → ℕ → List ℕ → List ℕ → Type 0 where
  done : {offset : ℕ} {h : List ℕ} → Chain msg zero offset h h
  block :
      {left offset : ℕ} {h h' last : List ℕ} (w : List ℕ)
      → IsSchedule msg offset w
      → IsCompression w h h'
      → length h' ≡ 8
      → Chain msg left (offset + 64) h' last
      → Chain msg (suc left) offset h last

-- A digest of a message.
pub record IsDigest (message digest : Bytes) : Type 0 where
  pub padded : Bytes
  pub padding :
      padded
      ≡ message
        ++ 0x80 ∷ (replicate (zeros (length message)) 0 ++ length_bytes (8 * length message))
  pub last : List ℕ
  pub chain : Chain padded (length padded / 64) 0 initial_hash last
  pub digested : digest ≡ bytes_of last

blocks-Chain :
    (msg : Bytes) (left offset : ℕ) (h w : List ℕ)
    → IsBytes msg
    → length w ≡ 64
    → Chain msg left offset h (blocks left offset msg h w)
unfolding blocks
blocks-Chain msg zero offset h w bytes size = done
blocks-Chain msg (suc left) offset h w bytes size =
    let is = schedule-IsSchedule msg offset w bytes size in
    let w' = schedule msg offset w in
    block w' is (rounds-IsCompression w' h) refl (
      blocks-Chain msg left (offset + 64) (add_registers h (rounds 64 0 w' (start_registers h))) w'
        bytes (is.size))

length-blocks :
    (msg : Bytes) (left offset : ℕ) (h w : List ℕ)
    → length h ≡ 8
    → length (blocks left offset msg h w) ≡ 8
unfolding blocks
length-blocks msg zero offset h w size = size
length-blocks msg (suc left) offset h w size =
    length-blocks msg left (offset + 64)
      (add_registers h (rounds 64 0 (schedule msg offset w) (start_registers h)))
      (schedule msg offset w) refl

word_bytes_lem :
    (x : ℕ) → word_bytes x ≡ x / 2 ^ 24 % 256 ∷ x / 2 ^ 16 % 256 ∷ x / 2 ^ 8 % 256 ∷ x % 256 ∷ []
word_bytes_lem x =
    let low : (n : ℕ) → u8 (bit_and n 0xff) ≡ n % 256 = λ n. omega (arith, bit_and_ones 8 n) in
    rw (low (x >>> 24), low (x >>> 16), low (x >>> 8), low x) refl

word_front :
    (x : ℕ) {s t : Bytes}
    → s ≡ t
    → word_bytes x ++ s ≡ x / 2 ^ 24 % 256 ∷ x / 2 ^ 16 % 256 ∷ x / 2 ^ 8 % 256 ∷ x % 256 ∷ t
word_front x {s} {t} e =
    ap (λ b. b ++ s) (word_bytes_lem x)
    ∙ ap (λ r. x / 2 ^ 24 % 256 ∷ x / 2 ^ 16 % 256 ∷ x / 2 ^ 8 % 256 ∷ x % 256 ∷ r) e

digest_bytes_lem : (h : List ℕ) → length h ≡ 8 → digest_bytes 8 0 h ≡ bytes_of h
unfolding digest_bytes
digest_bytes_lem [] e = absurd (omega arith)
digest_bytes_lem (a ∷ b ∷ c ∷ d ∷ e ∷ f ∷ g ∷ h ∷ []) n = word_front a (
    word_front b (
      word_front c (word_front d (word_front e (word_front f (word_front g (word_front h refl)))))))
digest_bytes_lem _ n = absurd (omega arith)

zeros-IsBytes : (n : ℕ) → IsBytes (replicate n 0)
zeros-IsBytes zero = tt
zeros-IsBytes (suc n) = (omega arith, zeros-IsBytes n)

pad-IsBytes : (message : Bytes) → length message < 2 ^ 61 → IsBytes message → IsBytes (pad message)
pad-IsBytes message small bytes = rw (pad_lem message small) (
    All-append _ message _ bytes (
      omega arith,
      All-append _ (replicate (zeros (length message)) 0) (length_bytes (8 * length message))
          (zeros-IsBytes (zeros (length message))) (omega arith),
    ))

-- For a message of fewer than 2 ^ 61 bytes, what the function gives is its digest: the message is
-- padded with 0x80, the fewest zeros and its length in bits; the hash words go from their initial
-- values through one compression for each block of 64 bytes, with the schedule of the block and the
-- two recurrences of the rounds; and the last hash words are written with their highest bytes first.
pub sha256-IsDigest :
    (message : Bytes)
    → length message < 2 ^ 61
    → IsBytes message
    → IsDigest message (sha256 message)
unfolding sha256
sha256-IsDigest message small bytes =
    let n = total_len (length message) / 64 in
    let h = blocks n 0 (pad message) initial_hash (replicate 64 0) in
    let (size, _, _) = length-pad message small in
    record {
      padded = pad message;
      padding = pad_lem message small;
      last = h;
      chain = rw size (
          blocks-Chain (pad message) n 0 initial_hash (replicate 64 0)
            (pad-IsBytes message small bytes) refl);
      digested =
          digest_bytes_lem h (length-blocks (pad message) n 0 initial_hash (replicate 64 0) refl);
    }
