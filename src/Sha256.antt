-- ===== src/Sha256.antt =====
-- src/sha256.cpp: SHA-256 over machine words. A 32-bit word is a number below 2 ^ 32, an array is a
-- list, and each `for` loop is a function of the rounds left and of its variables.
pub mod Words
pub mod Padding
pub mod Schedule
pub mod Compression
pub mod Digest
pub mod Standard
use hermit_miner.Base.{
  ℕ, zero, suc, ◌+◌, ◌-◌, ◌*◌, ◌/◌, bit_and, bit_or, bit_xor, List, [], ◌∷◌, ◌++◌, Bytes, length,
  get_or, set, replicate, u8, u32, u64, u32_max, ◌<<<◌, ◌>>>◌,
}

-- The array K of the round constants.
abbrev pub k_table : List ℕ
k_table =
    0x428a2f98 ∷ 0x71374491 ∷ 0xb5c0fbcf ∷ 0xe9b5dba5 ∷ 0x3956c25b ∷ 0x59f111f1 ∷ 0x923f82a4
    ∷ 0xab1c5ed5 ∷ 0xd807aa98 ∷ 0x12835b01 ∷ 0x243185be ∷ 0x550c7dc3 ∷ 0x72be5d74 ∷ 0x80deb1fe
    ∷ 0x9bdc06a7 ∷ 0xc19bf174 ∷ 0xe49b69c1 ∷ 0xefbe4786 ∷ 0x0fc19dc6 ∷ 0x240ca1cc ∷ 0x2de92c6f
    ∷ 0x4a7484aa ∷ 0x5cb0a9dc ∷ 0x76f988da ∷ 0x983e5152 ∷ 0xa831c66d ∷ 0xb00327c8 ∷ 0xbf597fc7
    ∷ 0xc6e00bf3 ∷ 0xd5a79147 ∷ 0x06ca6351 ∷ 0x14292967 ∷ 0x27b70a85 ∷ 0x2e1b2138 ∷ 0x4d2c6dfc
    ∷ 0x53380d13 ∷ 0x650a7354 ∷ 0x766a0abb ∷ 0x81c2c92e ∷ 0x92722c85 ∷ 0xa2bfe8a1 ∷ 0xa81a664b
    ∷ 0xc24b8b70 ∷ 0xc76c51a3 ∷ 0xd192e819 ∷ 0xd6990624 ∷ 0xf40e3585 ∷ 0x106aa070 ∷ 0x19a4c116
    ∷ 0x1e376c08 ∷ 0x2748774c ∷ 0x34b0bcb5 ∷ 0x391c0cb3 ∷ 0x4ed8aa4a ∷ 0x5b9cca4f ∷ 0x682e6ff3
    ∷ 0x748f82ee ∷ 0x78a5636f ∷ 0x84c87814 ∷ 0x8cc70208 ∷ 0x90befffa ∷ 0xa4506ceb ∷ 0xbef9a3f7
    ∷ 0xc67178f2 ∷ []

unfoldable pub rotr : ℕ → ℕ → ℕ
rotr x n = bit_or (x >>> n) (u32 (x <<< (32 - n)))

-- `~x` of a word
abbrev complement : ℕ → ℕ
complement x = u32_max - x

unfoldable pub ch : ℕ → ℕ → ℕ → ℕ
ch x y z = bit_xor (bit_and x y) (bit_and (complement x) z)

unfoldable pub maj : ℕ → ℕ → ℕ → ℕ
maj x y z = bit_xor (bit_xor (bit_and x y) (bit_and x z)) (bit_and y z)

unfoldable pub big_sigma0 : ℕ → ℕ
unfolding rotr
big_sigma0 x = bit_xor (bit_xor (rotr x 2) (rotr x 13)) (rotr x 22)

unfoldable pub big_sigma1 : ℕ → ℕ
unfolding rotr
big_sigma1 x = bit_xor (bit_xor (rotr x 6) (rotr x 11)) (rotr x 25)

unfoldable pub small_sigma0 : ℕ → ℕ
unfolding rotr
small_sigma0 x = bit_xor (bit_xor (rotr x 7) (rotr x 18)) (x >>> 3)

unfoldable pub small_sigma1 : ℕ → ℕ
unfolding rotr
small_sigma1 x = bit_xor (bit_xor (rotr x 17) (rotr x 19)) (x >>> 10)

-- The eight initial hash words.
abbrev pub initial_hash : List ℕ
initial_hash =
    0x6a09e667 ∷ 0xbb67ae85 ∷ 0x3c6ef372 ∷ 0xa54ff53a ∷ 0x510e527f ∷ 0x9b05688c ∷ 0x1f83d9ab
    ∷ 0x5be0cd19 ∷ []

-- The size of the padded message, computed in std::size_t.
unfoldable pub total_len : ℕ → ℕ
total_len len = u64 (u64 (len + 9 + 63) / 64 * 64)

-- `std::memcpy(msg.data(), data, len)`
unfoldable pub copy_into : Bytes → Bytes → Bytes
copy_into msg [] = msg
copy_into [] (d ∷ data') = []
copy_into (m ∷ msg) (d ∷ data') = d ∷ copy_into msg data'

-- Byte `i` of the length in bits, lowest first.
abbrev length_byte : ℕ → ℕ → ℕ
length_byte bit_len i = u8 (bit_and (bit_len >>> (i * 8)) 0xff)

unfoldable pub put_length : ℕ → ℕ → ℕ → ℕ → Bytes → Bytes
put_length zero i total bit_len msg = msg
put_length (suc left) i total bit_len msg =
    put_length left (i + 1) total bit_len (set msg (total - 1 - i) (length_byte bit_len i))

-- The padded message.
unfoldable pub pad : Bytes → Bytes
pad message =
    let len = length message in
    let total = total_len len in
    let msg = copy_into (replicate total 0) message in
    put_length 8 0 total (u64 (len * 8)) (set msg len 0x80)

-- Four bytes from `j` on, the first one highest.
unfoldable pub load_word : Bytes → ℕ → ℕ
load_word msg j =
    bit_or
      (bit_or (bit_or (u32 (get_or msg j 0 <<< 24)) (u32 (get_or msg (j + 1) 0 <<< 16)))
        (u32 (get_or msg (j + 2) 0 <<< 8)))
      (get_or msg (j + 3) 0)

unfoldable pub load_words : ℕ → ℕ → Bytes → ℕ → List ℕ → List ℕ
load_words zero i msg offset w = w
load_words (suc left) i msg offset w =
    load_words left (i + 1) msg offset (set w i (load_word msg (offset + i * 4)))

-- What is stored into `w[i]` from 16 on.
unfoldable pub next_word : List ℕ → ℕ → ℕ
next_word w i = u32 (
    small_sigma1 (get_or w (i - 2) 0)
    + get_or w (i - 7) 0
    + small_sigma0 (get_or w (i - 15) 0)
    + get_or w (i - 16) 0)

unfoldable pub extend_words : ℕ → ℕ → List ℕ → List ℕ
extend_words zero i w = w
extend_words (suc left) i w = extend_words left (i + 1) (set w i (next_word w i))

-- Both loops over `w`, which keeps the words of the block before.
unfoldable pub schedule : Bytes → ℕ → List ℕ → List ℕ
schedule msg offset w = extend_words 48 16 (load_words 16 0 msg offset w)

-- The working variables.
pub record Registers : Type 0 where
  pub a : ℕ
  pub b : ℕ
  pub c : ℕ
  pub d : ℕ
  pub e : ℕ
  pub f : ℕ
  pub g : ℕ
  pub hh : ℕ

unfoldable pub round : List ℕ → ℕ → Registers → Registers
round w i r =
    let t1 = u32 (r.hh + big_sigma1 r.e + ch r.e r.f r.g + get_or k_table i 0 + get_or w i 0) in
    let t2 = u32 (big_sigma0 r.a + maj r.a r.b r.c) in
    record {
      a = u32 (t1 + t2);
      b = r.a;
      c = r.b;
      d = r.c;
      e = u32 (r.d + t1);
      f = r.e;
      g = r.f;
      hh = r.g;
    }

unfoldable pub rounds : ℕ → ℕ → List ℕ → Registers → Registers
rounds zero i w r = r
rounds (suc left) i w r = rounds left (i + 1) w (round w i r)

abbrev start_registers : List ℕ → Registers
start_registers h = record {
  a = get_or h 0 0;
  b = get_or h 1 0;
  c = get_or h 2 0;
  d = get_or h 3 0;
  e = get_or h 4 0;
  f = get_or h 5 0;
  g = get_or h 6 0;
  hh = get_or h 7 0;
}

-- `h[0] += a` and so on
abbrev add_registers : List ℕ → Registers → List ℕ
add_registers h r =
    u32 (get_or h 0 0 + r.a)
    ∷ u32 (get_or h 1 0 + r.b)
    ∷ u32 (get_or h 2 0 + r.c)
    ∷ u32 (get_or h 3 0 + r.d)
    ∷ u32 (get_or h 4 0 + r.e)
    ∷ u32 (get_or h 5 0 + r.f)
    ∷ u32 (get_or h 6 0 + r.g)
    ∷ u32 (get_or h 7 0 + r.hh)
    ∷ []

-- The loop over the blocks, from `offset` on, with the hash words and `w`.
unfoldable pub blocks : ℕ → ℕ → Bytes → List ℕ → List ℕ → List ℕ
blocks zero offset msg h w = h
blocks (suc left) offset msg h w =
    let w' = schedule msg offset w in
    blocks left (offset + 64) msg (add_registers h (rounds 64 0 w' (start_registers h))) w'

abbrev word_bytes : ℕ → Bytes
word_bytes x =
    u8 (bit_and (x >>> 24) 0xff)
    ∷ u8 (bit_and (x >>> 16) 0xff)
    ∷ u8 (bit_and (x >>> 8) 0xff)
    ∷ u8 (bit_and x 0xff)
    ∷ []

-- The loop that fills `out`.
unfoldable pub digest_bytes : ℕ → ℕ → List ℕ → Bytes
digest_bytes zero i h = []
digest_bytes (suc left) i h = word_bytes (get_or h i 0) ++ digest_bytes left (i + 1) h

unfoldable pub sha256 : Bytes → Bytes
sha256 message =
    let msg = pad message in
    let total = total_len (length message) in
    digest_bytes 8 0 (blocks (total / 64) 0 msg initial_hash (replicate 64 0))

unfoldable pub double_sha256 : Bytes → Bytes
double_sha256 message = sha256 (sha256 message)
