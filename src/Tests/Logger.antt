-- ===== src/Tests/Logger.antt =====
-- The log and the health file, on small texts.
use hermit_miner.Base.{List, false, true, ◌∷◌, ℕ}
use hermit_miner.Logger.Event.{Event, info_level, warn_level, err_level}
use hermit_miner.Logger.File.{Call, nothing, lines, parse_each, log_each, opened}
use hermit_miner.Logger.Reader.{entries, Dated, log-logged}
use hermit_miner.Logger.Stamp.{IsDate}
use hermit_miner.Logger.Timestamp.{Tm, put_time, get_timestamp}
use hermit_miner.Base.Digits.{to_radix, digits, digit_char}
use hermit_miner.Base.{◌≡◌, refl, [], codes, arith}
use hermit_miner.Base.Digits.{skip_space}
use hermit_miner.Logger.Event.{Event, info_level}
use hermit_miner.Logger.Redact.{
  strip_name, quoted_kv, plain_kv, skip_value, replace_all, redact_sensitive_fields,
}
use hermit_miner.Stratum.Patterns.{strip_icase, until_quote}

abbrev line_event : Event
line_event = record {
  level = info_level;
  component = codes "stratum";
  node_id = codes "a\"b";
  message = codes "token=abc";
  context = [];
}

-- The case of a name does not matter, and a text without values is left.
redacted :
    redact_sensitive_fields (codes "Username : bob, \"Secret\" : \"x y\" token")
    ≡ codes "Username : ***, \"Secret\" : \"***\" token"
unfolding redact_sensitive_fields replace_all quoted_kv plain_kv strip_name strip_icase skip_space
    skip_value until_quote
redacted = refl

-- 2024-02-29 23:05:09, at any second.
abbrev leap_day : ℕ → Tm
leap_day seconds = record {
  tm_sec = 9;
  tm_min = 5;
  tm_hour = 23;
  tm_mday = 29;
  tm_mon = 1;
  tm_year = 124;
}

stamped : get_timestamp leap_day 1709247909042 ≡ codes "2024-02-29T23:05:09.042000Z"
unfolding get_timestamp put_time to_radix digits digit_char
stamped = refl

abbrev two_calls : List Call
two_calls =
    record { now = 1709247909042; is_open = true; event = record line_event { level = err_level } }
    ∷ record {
      now = 1709247909043;
      is_open = false;
      event = record line_event { level = warn_level };
    }
    ∷ record { now = 1709247909044; is_open = true; event = line_event }
    ∷ []

leap_day-IsDate : (seconds : ℕ) → IsDate (leap_day seconds)
leap_day-IsDate seconds = record {
  second = omega arith;
  minute = omega arith;
  hour = omega arith;
  day = omega arith;
  month = omega arith;
  year = omega arith;
}

calls-Dated : Dated warn_level leap_day two_calls
calls-Dated =
    (leap_day-IsDate 1709247909, (leap_day-IsDate 1709247909, (leap_day-IsDate 1709247909, tt)))

log-logged_example :
    (parse_each (lines (log_each warn_level leap_day two_calls nothing).console)
      ≡ entries warn_level leap_day two_calls)
    × (parse_each (lines (log_each warn_level leap_day two_calls nothing).file)
        ≡ entries warn_level leap_day (opened warn_level leap_day two_calls))
log-logged_example = log-logged warn_level leap_day two_calls calls-Dated
