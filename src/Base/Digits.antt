-- ===== src/Base/Digits.antt =====
-- Number texts of the C++ library: `operator<<` of an unsigned number in a radix, with std::setw
-- and std::setfill('0'), and std::stoul and std::stoull with 64-bit results.
pub mod Print
pub mod Decimal
pub mod Fixed
use Prim.Native.Nat.{ℕ, zero, suc, ◌+◌, ◌-◌, ◌*◌, ◌/◌, ◌%◌, ◌^◌}
use mathlib.Core.Bool.{Bool, true, false, ◌&&◌, ◌||◌}
use mathlib.Core.List.{List, [], ◌∷◌, ◌++◌}
use mathlib.Core.Option.{Option, none, some}
use hermit_miner.Base.Lists.{length, replicate}
use hermit_miner.Base.Tests.{ltb, leb, ◌==◌, if◌then◌else◌}
use hermit_miner.Base.Text.{Bytes}

abbrev between : ℕ → ℕ → ℕ → Bool
between lo hi c = leb lo c && leb c hi

abbrev pub is_digit : ℕ → Bool
is_digit c = between b'0' b'9' c

-- Lower-case digits, as std::nouppercase prints them.
unfoldable pub digit_char : ℕ → ℕ
digit_char d = if ltb d 10 then b'0' + d else b'a' + (d - 10)

abbrev below : ℕ → ℕ → Option ℕ
below base d = if ltb d base then some d else none

unfoldable pub digit_value : ℕ → ℕ → Option ℕ
digit_value base c =
    if is_digit c
    then below base (c - b'0')
    else if between b'a' b'z' c
    then below base (c - b'a' + 10)
    else if between b'A' b'Z' c
    then below base (c - b'A' + 10)
    else none

-- The digits of `n` in front of `out`; a round of fuel for each digit.
unfoldable pub digits : ℕ → ℕ → ℕ → Bytes → Bytes
digits base zero n out = out
digits base (suc f) n out = elim (n == 0) [
  | true ↦ out
  | false ↦ digits base f (n / base) (digit_char (n % base) ∷ out)
]

unfoldable pub to_radix : ℕ → ℕ → Bytes
to_radix base n = if n == 0 then b'0' ∷ [] else digits base n n []

abbrev pub to_decimal : ℕ → Bytes
to_decimal = to_radix 10

-- std::setw(width) with std::setfill('0'): never shortens.
abbrev pub pad_left : ℕ → Bytes → Bytes
pad_left width s = replicate (width - length s) b'0' ++ s

-- The longest run of digits: its value behind `acc`, and what follows it.
unfoldable pub scan : ℕ → ℕ → Bytes → ℕ × Bytes
scan base acc [] = (acc, [])
scan base acc (c ∷ s) = elim (digit_value base c) [
  | none ↦ (acc, c ∷ s)
  | some d ↦ scan base (acc * base + d) s
]

-- The longest run of decimal digits, and what follows it: what the pattern [0-9]+ matches.
unfoldable pub span_digits : Bytes → Bytes × Bytes
span_digits [] = ([], [])
span_digits (c ∷ s) =
    let (run, rest) = span_digits s in if is_digit c then (c ∷ run, rest) else ([], c ∷ s)

-- What std::stoul and std::stoull do: a value with the text that was not read, or a throw.
pub data Conversion : Type 0 where
  value : ℕ → Bytes → Conversion
  invalid_argument out_of_range : Conversion

abbrev u64_max : ℕ
u64_max = 2 ^ 64 - 1

-- A value that does not fit is out of range; a minus sign negates modulo 2 ^ 64.
range_checked : Bool → ℕ × Bytes → Conversion
range_checked minus (n, rest) =
    if ltb u64_max n
    then out_of_range
    else if minus
    then value ((2 ^ 64 - n) % 2 ^ 64) rest
    else value n rest

magnitude : ℕ → Bool → Bytes → Conversion
magnitude base minus [] = invalid_argument
magnitude base minus (c ∷ s) = elim (digit_value base c) [
  | none ↦ invalid_argument
  | some d ↦ range_checked minus (scan base d s)
]

-- In base 16 a leading "0x" is skipped if a digit follows it.
without_prefix : ℕ → Bytes → Bytes
without_prefix base (z ∷ x ∷ c ∷ s) =
    if base == 16 && z == b'0' && (x == b'x' || x == b'X')
    then elim (digit_value base c) [ none ↦ z ∷ x ∷ c ∷ s | some _ ↦ c ∷ s ]
    else z ∷ x ∷ c ∷ s
without_prefix base s = s

after_sign : ℕ → Bytes → Conversion
after_sign base [] = invalid_argument
after_sign base (c ∷ s) =
    if c == b'-'
    then magnitude base true (without_prefix base s)
    else if c == b'+'
    then magnitude base false (without_prefix base s)
    else magnitude base false (without_prefix base (c ∷ s))

-- `isspace` of the C locale
abbrev pub is_space : ℕ → Bool
is_space c = c == 32 || between 9 13 c

unfoldable pub skip_space : Bytes → Bytes
skip_space [] = []
skip_space (c ∷ s) = if is_space c then skip_space s else c ∷ s

unfoldable pub stoull : ℕ → Bytes → Conversion
unfolding skip_space after_sign magnitude without_prefix range_checked
stoull base s = after_sign base (skip_space s)
