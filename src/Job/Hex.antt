-- ===== src/Job/Hex.antt =====
-- Hex texts of a hash: their length, and reading them back.
use hermit_miner.Base.{
  ℕ, ◌*◌, ◌<◌, ◌≡◌, refl, Bool, true, false, [], ◌∷◌, Option, none, some, arith, Bytes, IsBytes,
  length, ◌==◌, all_below, all_below_sound,
}
use hermit_miner.Base.Digits.{to_radix, pad_left, digits, digit_char, digit_value, scan, stoull}
use hermit_miner.Job.{hash_to_hex, hex_byte, hex_to_bytes}

-- Two characters for a byte, which are read back as the byte: checked at every byte.
abbrev is_some_of : ℕ → Option ℕ → Bool
is_some_of b none = false
is_some_of b (some a) = a == b

abbrev two_digits : ℕ → Bytes → Bool
two_digits b (x ∷ y ∷ []) = is_some_of b (hex_byte (x ∷ y ∷ []))
two_digits b _ = false

byte_table : all_below 256 (λ b. two_digits b (pad_left 2 (to_radix 16 b))) ≡ true
unfolding all_below hex_byte stoull to_radix digits digit_char digit_value scan
byte_table = refl

-- The text of a byte is two characters, and is read back.
record IsByteText (b : ℕ) (t : Bytes) : Type 0 where
  high : ℕ
  low : ℕ
  is_pair : t ≡ high ∷ low ∷ []
  reads : hex_byte (high ∷ low ∷ []) ≡ some b

two_digits-IsByteText : (b : ℕ) (t : Bytes) → two_digits b t ≡ true → IsByteText b t
two_digits-IsByteText b (x ∷ y ∷ []) h = record {
  high = x;
  low = y;
  is_pair = refl;
  reads = ground arith;
}
two_digits-IsByteText b [] h = cc
two_digits-IsByteText b (x ∷ []) h = cc
two_digits-IsByteText b (x ∷ y ∷ z ∷ t) h = cc

byte_text : (b : ℕ) → b < 256 → IsByteText b (pad_left 2 (to_radix 16 b))
byte_text b h =
    two_digits-IsByteText b _
      (all_below_sound 256 (λ c. two_digits c (pad_left 2 (to_radix 16 c))) b byte_table h)

-- The bytes of a hash are read back from its hex text.
pub hex_to_bytes-hash_to_hex :
    (hash : Bytes) → IsBytes hash → hex_to_bytes (hash_to_hex hash) ≡ some hash
unfolding hex_to_bytes hash_to_hex
hex_to_bytes-hash_to_hex [] h = refl
hex_to_bytes-hash_to_hex (b ∷ hash) (hb, h) =
    let t = byte_text b hb in rw (t.is_pair, t.reads, hex_to_bytes-hash_to_hex hash h) refl

-- The hex text of a hash has two characters for each byte.
pub length-hash_to_hex : (hash : Bytes) → IsBytes hash → length (hash_to_hex hash) ≡ 2 * length hash
unfolding hash_to_hex
length-hash_to_hex [] h = refl
length-hash_to_hex (b ∷ hash) (hb, h) =
    let t = byte_text b hb in rw t.is_pair (omega (arith, length-hash_to_hex hash h))
