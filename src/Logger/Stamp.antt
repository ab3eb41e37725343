-- ===== src/Logger/Stamp.antt =====
-- The text of a time stamp, digit by digit.
use hermit_miner.Base.Digits.Fixed.{fixed, to_decimal-fixed, pad_left-fixed}
use hermit_miner.Base.Digits.{to_decimal, pad_left}
use hermit_miner.Base.{
  ℕ, ◌+◌, ◌*◌, ◌/◌, ◌%◌, ◌^◌, ◌≤◌, ◌<◌, ◌≡◌, ◌∙◌, ap, ◌∷◌, suc, ◌++◌, append_assoc, Bytes, codes,
  arith,
}
use hermit_miner.Logger.Timestamp.{Tm, put_time, get_timestamp}

-- The fields of a date of the years 1900 to 9999, as gmtime_r gives them.
pub record IsDate (t : Tm) : Type 0 where
  pub second : t.tm_sec ≤ 60
  pub minute : t.tm_min < 60
  pub hour : t.tm_hour < 24
  pub day : t.tm_mday ≤ 31
  pub month : t.tm_mon < 12
  pub year : t.tm_year < 8100

-- YYYY-MM-DDThh:mm:ss and six digits of a fraction, in front of a text.
abbrev pub date : Tm → Bytes → Bytes
date t rest = fixed 4 (t.tm_year + 1900) (
    b'-'
    ∷ fixed 2 (t.tm_mon + 1) (
        b'-'
        ∷ fixed 2 t.tm_mday
            (b'T' ∷ fixed 2 t.tm_hour (b':' ∷ fixed 2 t.tm_min (b':' ∷ fixed 2 t.tm_sec rest)))))

abbrev pub stamp : Tm → ℕ → Bytes
stamp t milliseconds = date t (b'.' ∷ fixed 6 (milliseconds * 1000) (codes "Z"))

-- A field, a sign and what comes behind them.
field :
    (w n c : ℕ) (s rest : Bytes) {s' : Bytes}
    → n < 10 ^ suc w
    → s ++ rest ≡ s'
    → (pad_left (suc w) (to_decimal n) ++ c ∷ s) ++ rest ≡ fixed (suc w) n (c ∷ s')
field w n c s rest {s'} lt e =
    append_assoc (pad_left (suc w) (to_decimal n)) (c ∷ s) rest
    ∙ ap (λ r. pad_left (suc w) (to_decimal n) ++ c ∷ r) e
    ∙ pad_left-fixed w n (c ∷ s') lt

put_time-date : (t : Tm) (rest : Bytes) → IsDate t → put_time t ++ rest ≡ date t rest
unfolding put_time
put_time-date t rest d =
    let last = pad_left-fixed 1 t.tm_sec rest (omega (arith, d.second)) in
    let behind = field 1 (t.tm_mon + 1) b'-' _ rest (omega (arith, d.month)) (
      field 1 t.tm_mday b'T' _ rest (omega (arith, d.day)) (
        field 1 t.tm_hour b':' _ rest (omega (arith, d.hour))
          (field 1 t.tm_min b':' _ rest (omega (arith, d.minute)) last))) in
    append_assoc (to_decimal (t.tm_year + 1900)) _ rest
    ∙ ap (λ r. to_decimal (t.tm_year + 1900) ++ b'-' ∷ r) behind
    ∙ to_decimal-fixed 4 (t.tm_year + 1900) _ (omega arith) (omega (arith, d.year)) (omega arith)

pub get_timestamp-stamp :
    (gmtime : ℕ → Tm) (now : ℕ)
    → IsDate (gmtime (now / 1000))
    → get_timestamp gmtime now ≡ stamp (gmtime (now / 1000)) (now % 1000)
unfolding get_timestamp
get_timestamp-stamp gmtime now d =
    put_time-date (gmtime (now / 1000)) _ d
    ∙ ap (λ s. date (gmtime (now / 1000)) (b'.' ∷ s))
        (pad_left-fixed 5 (now % 1000 * 1000) (codes "Z") (omega arith))
