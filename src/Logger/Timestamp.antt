-- ===== src/Logger/Timestamp.antt =====
-- `Logger::get_timestamp` of src/lib/logger.cpp. The clock's milliseconds since the epoch, and
-- gmtime_r, which breaks seconds down into a date, are arguments.
use hermit_miner.Base.{
  ℕ, zero, suc, ◌+◌, ◌-◌, ◌*◌, ◌/◌, ◌%◌, ◌<◌, ◌≢◌, ◌∷◌, ◌++◌, Bytes, All-append, codes, length,
  replicate, arith,
}
use hermit_miner.Base.Digits.Print.{to_radix-All}
use hermit_miner.Base.Digits.{digit_char, to_decimal, pad_left}
use hermit_miner.Stratum.Codec.Escape.{IsPlain}

-- The fields of std::tm that are printed.
pub record Tm : Type 0 where
  pub tm_sec : ℕ
  pub tm_min : ℕ
  pub tm_hour : ℕ
  pub tm_mday : ℕ
  pub tm_mon : ℕ
  pub tm_year : ℕ

-- std::put_time with %Y-%m-%dT%H:%M:%S: months count from 0 and years from 1900.
unfoldable pub put_time : Tm → Bytes
put_time t =
    to_decimal (t.tm_year + 1900)
    ++ (b'-'
        ∷ (pad_left 2 (to_decimal (t.tm_mon + 1))
            ++ (b'-'
                ∷ (pad_left 2 (to_decimal t.tm_mday)
                    ++ (b'T'
                        ∷ (pad_left 2 (to_decimal t.tm_hour)
                            ++ (b':'
                                ∷ (pad_left 2 (to_decimal t.tm_min)
                                    ++ (b':' ∷ pad_left 2 (to_decimal t.tm_sec))))))))))

unfoldable pub get_timestamp : (ℕ → Tm) → ℕ → Bytes
get_timestamp gmtime now =
    let time = now / 1000 in
    let ms = now % 1000 in
    put_time (gmtime time) ++ (b'.' ∷ (pad_left 6 (to_decimal (ms * 1000)) ++ codes "Z"))

abbrev IsPlainChar : ℕ → Type 0
IsPlainChar c = (c ≢ b'"') × (c ≢ b'\\') × (c ≢ b'\n') × (c ≢ b'\r') × (c ≢ b'\t')

digit_char-IsPlainChar : (d : ℕ) → d < 10 → IsPlainChar (digit_char d)
unfolding digit_char
digit_char-IsPlainChar d h = ground arith

decimal-IsPlain : (n : ℕ) → IsPlain (to_decimal n)
decimal-IsPlain n = to_radix-All IsPlainChar 10 (omega arith) digit_char-IsPlainChar n (grind arith)

zeros-IsPlain : (n : ℕ) → IsPlain (replicate n b'0')
zeros-IsPlain zero = tt
zeros-IsPlain (suc n) = (grind arith, zeros-IsPlain n)

padded-IsPlain : (width n : ℕ) → IsPlain (pad_left width (to_decimal n))
padded-IsPlain width n =
    All-append _ (replicate (width - length (to_decimal n)) b'0') (to_decimal n)
      (zeros-IsPlain (width - length (to_decimal n))) (decimal-IsPlain n)

-- A number, a sign, and a text behind it.
field-IsPlain :
    (width n c : ℕ) (rest : Bytes)
    → IsPlainChar c
    → IsPlain rest
    → IsPlain (pad_left width (to_decimal n) ++ c ∷ rest)
field-IsPlain width n c rest sign h =
    All-append _ (pad_left width (to_decimal n)) (c ∷ rest) (padded-IsPlain width n) (sign, h)

put_time-IsPlain : (t : Tm) → IsPlain (put_time t)
unfolding put_time
put_time-IsPlain t =
    All-append _ (to_decimal (t.tm_year + 1900)) _ (decimal-IsPlain (t.tm_year + 1900)) (
      grind arith,
      field-IsPlain 2 (t.tm_mon + 1) _ _ (grind arith) (
          field-IsPlain 2 t.tm_mday _ _ (grind arith) (
            field-IsPlain 2 t.tm_hour _ _ (grind arith)
              (field-IsPlain 2 t.tm_min _ _ (grind arith) (padded-IsPlain 2 t.tm_sec)))),
    )

-- A time stamp needs no escaping.
pub get_timestamp-IsPlain : (gmtime : ℕ → Tm) (now : ℕ) → IsPlain (get_timestamp gmtime now)
unfolding get_timestamp
get_timestamp-IsPlain gmtime now =
    All-append _ (put_time (gmtime (now / 1000))) _ (put_time-IsPlain (gmtime (now / 1000))) (
      grind arith,
      All-append _ (pad_left 6 (to_decimal (now % 1000 * 1000))) (codes "Z")
          (padded-IsPlain 6 (now % 1000 * 1000)) (grind arith, tt),
    )
