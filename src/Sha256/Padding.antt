-- ===== src/Sha256/Padding.antt =====
-- The padded message.
use native.Mathlib.Nat.{zero-add, suc-add}
use hermit_miner.Base.Fields.{bit_and_ones}
use hermit_miner.Base.{
  ℕ, zero, suc, ◌+◌, ◌-◌, ◌*◌, ◌/◌, ◌%◌, ◌^◌, ◌≤◌, ◌<◌, ◌≡◌, refl, sym, ◌∙◌, [], ◌∷◌, ◌++◌,
  append_assoc, arith, Bytes, length, replicate, set, length-append, length-replicate, u64, ◌>>>◌,
}
use hermit_miner.Sha256.{pad, total_len, copy_into, put_length, length_byte}

set-append : (p q : Bytes) (j i v : ℕ) → i ≡ length p + j → set (p ++ q) i v ≡ p ++ set q j v
set-append [] q j i v e = let e' : i ≡ j = omega arith in rw e'
set-append (x ∷ p) q j zero v e = absurd (omega arith)
set-append (x ∷ p) q j (suc i) v e = rw (set-append p q j i v (omega arith))

copy_into-replicate :
    (message : Bytes) (n : ℕ)
    → copy_into (replicate (length message + n) 0) message ≡ message ++ replicate n 0
unfolding copy_into
copy_into-replicate [] n = rw zero-add
copy_into-replicate (d ∷ message) n = rw (suc-add, copy_into-replicate message n) refl

replicate-add : (m n : ℕ) → replicate {A = ℕ} (m + n) 0 ≡ replicate m 0 ++ replicate n 0
replicate-add zero n = rw zero-add
replicate-add (suc m) n = rw (suc-add, replicate-add m n) refl

-- A number below 2^64 as eight bytes, the highest first.
abbrev pub length_bytes : ℕ → Bytes
length_bytes n =
    n / 256 ^ 7 % 256
    ∷ n / 256 ^ 6 % 256
    ∷ n / 256 ^ 5 % 256
    ∷ n / 256 ^ 4 % 256
    ∷ n / 256 ^ 3 % 256
    ∷ n / 256 ^ 2 % 256
    ∷ n / 256 % 256
    ∷ n % 256
    ∷ []

length_byte_lem : (bit_len i : ℕ) → length_byte bit_len i ≡ bit_len / 2 ^ (i * 8) % 256
length_byte_lem bit_len i = omega (arith, bit_and_ones 8 (bit_len >>> (i * 8)))

low_byte : (bit_len : ℕ) → length_byte bit_len 0 ≡ bit_len % 256
low_byte bit_len = omega (arith, length_byte_lem bit_len 0)

-- The zeros between the mark and the length.
abbrev pub zeros : ℕ → ℕ
zeros len = (119 - len % 64) % 64

total_len-zeros : (len : ℕ) → len < 2 ^ 61 → total_len len ≡ len + (1 + (zeros len + 8))
unfolding total_len
total_len-zeros len small = omega arith

put_length-append :
    (p : Bytes) (total bit_len : ℕ)
    → total ≡ length p + 8
    → put_length 8 0 total bit_len (p ++ replicate 8 0) ≡ p ++ length_bytes bit_len
unfolding put_length
put_length-append p total bit_len e =
    rw
      (
        set-append p _ 7 (total - 1 - 0) (length_byte bit_len 0) (omega arith),
        set-append p _ 6 (total - 1 - 1) (length_byte bit_len 1) (omega arith),
        set-append p _ 5 (total - 1 - 2) (length_byte bit_len 2) (omega arith),
        set-append p _ 4 (total - 1 - 3) (length_byte bit_len 3) (omega arith),
        set-append p _ 3 (total - 1 - 4) (length_byte bit_len 4) (omega arith),
        set-append p _ 2 (total - 1 - 5) (length_byte bit_len 5) (omega arith),
        set-append p _ 1 (total - 1 - 6) (length_byte bit_len 6) (omega arith),
        set-append p _ 0 (total - 1 - 7) (length_byte bit_len 7) (omega arith),
        low_byte bit_len,
        length_byte_lem bit_len 1,
        length_byte_lem bit_len 2,
        length_byte_lem bit_len 3,
        length_byte_lem bit_len 4,
        length_byte_lem bit_len 5,
        length_byte_lem bit_len 6,
        length_byte_lem bit_len 7,
      )
      refl

mark-append :
    (message : Bytes) (z : ℕ)
    → set (message ++ replicate (1 + (z + 8)) 0) (length message) 0x80
      ≡ (message ++ 0x80 ∷ replicate z 0) ++ replicate 8 0
mark-append message z =
    let e : 1 + (z + 8) ≡ suc (z + 8) = omega arith in
    rw
      (
        e,
        set-append message (replicate (suc (z + 8)) 0) 0 (length message) 0x80 (omega arith),
        replicate-add z 8,
        append_assoc,
      )
      refl

-- For a message of fewer than 2 ^ 61 bytes, whose length in bits fits 64 bits, the padded message is
-- the message, the byte 0x80, the smallest number of zero bytes that makes the size a multiple of
-- 64, and the length in bits as eight bytes, the highest first.
pub pad_lem :
    (message : Bytes)
    → length message < 2 ^ 61
    → pad message
      ≡ message
        ++ 0x80 ∷ (replicate (zeros (length message)) 0 ++ length_bytes (8 * length message))
unfolding pad
pad_lem message small =
    let len = length message in
    let front = message ++ 0x80 ∷ replicate (zeros len) 0 in
    let bits : u64 (len * 8) ≡ 8 * len = omega arith in
    let size : len + (1 + (zeros len + 8)) ≡ length front + 8 = omega (
      arith,
      length-append message (0x80 ∷ replicate (zeros len) 0),
      length-replicate {A = ℕ} (zeros len) 0,
    ) in
    rw
      (
        total_len-zeros len small,
        copy_into-replicate message (1 + (zeros len + 8)),
        mark-append message (zeros len),
        bits,
        put_length-append front (len + (1 + (zeros len + 8))) (8 * len) size,
        append_assoc,
      )
      refl

-- The padded message fills whole blocks of 64 bytes, and the loop over the blocks reads all of it.
pub length-pad :
    (message : Bytes)
    → length message < 2 ^ 61
    → (length (pad message) ≡ total_len (length message))
      × (length (pad message) % 64 ≡ 0)
      × (length message + 9 ≤ length (pad message))
length-pad message small =
    let len = length message in
    let tail = replicate {A = ℕ} (zeros len) 0 ++ length_bytes (8 * len) in
    let size : length (pad message) ≡ len + (1 + (zeros len + 8)) = rw (pad_lem message small) (
      omega (
        arith,
        length-append message (0x80 ∷ tail),
        length-append (replicate {A = ℕ} (zeros len) 0) (length_bytes (8 * len)),
        length-replicate {A = ℕ} (zeros len) 0,
      )) in
    (size ∙ sym (total_len-zeros len small), omega arith, omega arith)
