-- ===== src/Job.antt =====
-- src/lib/job.cpp and job.h: the share difficulty test and the hex texts of a hash. A `Hash256` is
-- the list of its 32 bytes.
pub mod Difficulty
pub mod Hex
use hermit_miner.Base.{
  ℕ, zero, suc, ◌+◌, ◌-◌, bit_and, Bool, true, false, List, [], ◌∷◌, ◌++◌, Option, none, some,
  Bytes, ◌==◌, leb, if◌then◌else◌, ◌>>=◌, u8, ◌<<<◌,
}
use hermit_miner.Base.Digits.{to_radix, pad_left, Conversion, value, invalid_argument, out_of_range}
use hermit_miner.Base.Digits.{stoull}

-- The mask that keeps the `bits_left` high bits of a byte.
abbrev mask : ℕ → ℕ
mask bits_left = u8 (0xff <<< (8 - bits_left))

-- The loop over the bytes of the hash, with the bits that are still to be zero.
unfoldable pub meets_difficulty : Bytes → ℕ → Bool
meets_difficulty [] bits_left = true
meets_difficulty (byte ∷ hash) bits_left =
    let rest = meets_difficulty hash (bits_left - 8) in
    if bits_left == 0
    then true
    else if leb 8 bits_left
    then if byte == 0 then rest else false
    else bit_and byte (mask bits_left) == 0

-- std::setw(2) and std::hex, for each byte in turn
unfoldable pub hash_to_hex : Bytes → Bytes
hash_to_hex [] = []
hash_to_hex (b ∷ hash) = pad_left 2 (to_radix 16 b) ++ hash_to_hex hash

-- One round of `hex_to_bytes`: `none` where std::stoul throws.
unfoldable pub hex_byte : Bytes → Option ℕ
hex_byte byte_str = elim (stoull 16 byte_str) [
  | value v _ ↦ some (u8 v)
  | invalid_argument ↦ none
  | out_of_range ↦ none
]

-- Two characters at a time; a last single one is a round of its own.
unfoldable pub hex_to_bytes : Bytes → Option Bytes
hex_to_bytes [] = some []
hex_to_bytes (a ∷ []) = do byte ← hex_byte (a ∷ []); some (byte ∷ [])
hex_to_bytes (a ∷ b ∷ hex) = do
  byte ← hex_byte (a ∷ b ∷ [])
  bytes ← hex_to_bytes hex
  some (byte ∷ bytes)
