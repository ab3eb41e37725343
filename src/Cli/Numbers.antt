-- ===== src/Cli/Numbers.antt =====
-- The number texts that an option takes.
use hermit_miner.Base.{ℕ, ◌-◌, ◌^◌, ◌≤◌, ◌≡◌, [], ◌∷◌, some, arith, u32_max, ◌∙◌, ap}
use hermit_miner.Base.Digits.Decimal.{stoull-to_decimal, stoull-minus}
use hermit_miner.Base.Digits.{to_decimal, value}
use hermit_miner.Cli.{parse_uint32, whole_u32}

whole_u32-value : (n : ℕ) → n ≤ u32_max → whole_u32 (value n []) ≡ some n
whole_u32-value n h = ground arith

-- The decimal text of every 32-bit number is read back.
pub parse_uint32-to_decimal : (n : ℕ) → n ≤ u32_max → parse_uint32 (to_decimal n) ≡ some n
unfolding parse_uint32
parse_uint32-to_decimal n h = ap whole_u32 (stoull-to_decimal n (omega arith)) ∙ whole_u32-value n h

-- A minus sign is no error: in front of 2 ^ 64 - n it gives n, for every positive 32-bit number n.
pub parse_uint32_minus :
    (n : ℕ) → 1 ≤ n → n ≤ u32_max → parse_uint32 (b'-' ∷ to_decimal (2 ^ 64 - n)) ≡ some n
unfolding parse_uint32
parse_uint32_minus n pos h =
    ap whole_u32 (stoull-minus (2 ^ 64 - n) (omega arith) (omega arith))
    ∙ let e : 2 ^ 64 - (2 ^ 64 - n) ≡ n = omega arith in rw e (whole_u32-value n h)
