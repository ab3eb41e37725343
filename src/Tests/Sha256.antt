-- ===== src/Tests/Sha256.antt =====
-- The digest.
use hermit_miner.Base.Bits.{bit}
use hermit_miner.Base.{◌+◌, ◌*◌, ◌-◌, ◌%◌}
use hermit_miner.Sha256.Words.{ch-maj, sigma_bits}
use hermit_miner.Base.{◌≡◌, refl, codes, ◌++◌, ◌∷◌, replicate, ◌/◌, arith, Bytes}
use hermit_miner.Sha256.Padding.{pad_lem, zeros, length_bytes}
use hermit_miner.Sha256.Schedule.{IsSchedule, schedule-IsSchedule}
use hermit_miner.Sha256.Standard.{IsDigest, sha256-IsDigest}
use hermit_miner.Base.Digits.{digits, digit_char, to_radix}
use hermit_miner.Job.{hash_to_hex}
use hermit_miner.Sha256.{
  sha256, pad, total_len, copy_into, put_length, blocks, digest_bytes, schedule, load_words,
  extend_words, rounds, round, load_word, next_word, ch, maj, big_sigma0, big_sigma1, small_sigma0,
  small_sigma1,
}

abc :
    hash_to_hex (sha256 (codes "abc"))
    ≡ codes "ba7816bf8f01cfea414140de5dae2223b00361a396177a9cb410ff61f20015ad"
unfolding sha256 pad total_len copy_into put_length blocks digest_bytes schedule load_words
    extend_words rounds round load_word next_word ch maj big_sigma0 big_sigma1 small_sigma0
    small_sigma1 hash_to_hex to_radix digits digit_char
abc = refl

pad_lem_example :
    pad (codes "abc") ≡ codes "abc" ++ 0x80 ∷ (replicate (zeros 3) 0 ++ length_bytes 24)
pad_lem_example = pad_lem (codes "abc") (omega arith)

abbrev two_blocks : Bytes
two_blocks = replicate 128 0xa5

schedule-IsSchedule_example : IsSchedule (codes "abc") 0 (schedule (codes "abc") 0 (replicate 64 7))
schedule-IsSchedule_example =
    schedule-IsSchedule (codes "abc") 0 (replicate 64 7) (omega arith) refl

sha256-IsDigest_example : IsDigest (codes "abc") (sha256 (codes "abc"))
sha256-IsDigest_example = sha256-IsDigest (codes "abc") (omega arith) (omega arith)

ch-maj_example :
    (bit 2 (ch 12 10 6) ≡ bit 2 12 * bit 2 10 + (1 - bit 2 12) * bit 2 6)
    × (bit 2 (maj 12 10 6) ≡ (bit 2 12 + bit 2 10 + bit 2 6) / 2)
ch-maj_example = ch-maj 12 10 6 2 (omega arith) (omega arith)

sigma_bits_example :
    (bit 30 (big_sigma0 5) ≡ (bit 0 5 + bit 11 5 + bit 20 5) % 2)
    × (bit 30 (big_sigma1 5) ≡ (bit 4 5 + bit 9 5 + bit 23 5) % 2)
    × (bit 30 (small_sigma0 5) ≡ (bit 5 5 + bit 16 5 + bit 33 5) % 2)
    × (bit 30 (small_sigma1 5) ≡ (bit 15 5 + bit 17 5 + bit 40 5) % 2)
sigma_bits_example = sigma_bits 5 30 (omega arith) (omega arith)
