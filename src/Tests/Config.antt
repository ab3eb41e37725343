-- ===== src/Tests/Config.antt =====
-- The configuration: validation, the reader of values, and a file that cannot be read.
use hermit_miner.Base.{[], true}
use hermit_miner.Config.Load.Saved.{saved, load_config-saved}
use hermit_miner.Config.Json.Print.{print, IsPrintable, parse-print}
use hermit_miner.Config.Json.{
  JsonValue, object, member, end, number, string, bool, null, parse, find,
}
use hermit_miner.Base.{
  ◌⊎◌, false, ◌≡◌, ◌<◌, ◌≤◌, ◌↔◌, refl, none, some, Bytes, codes, length, arith,
}
use hermit_miner.Config.Json.Total.{parse_value_total}
use hermit_miner.Config.Json.{JsonValue, parse_value, parsed, failed}
use hermit_miner.Config.Load.Ranges.{IsInRange}
use hermit_miner.Config.Load.{Files, load_config}
use hermit_miner.Config.Validate.{IsPoolReady, validate_config_iff}
use hermit_miner.Config.{MinerConfig, default_config, validate_config, threads_zero}

abbrev threadless : MinerConfig
threadless = record (default_config 4) { thread_count = 0 }

threadless_rejected : validate_config threadless ≡ some threads_zero
unfolding validate_config
threadless_rejected = refl

validate_config_iff_example : (validate_config (default_config 4) ≡ none) ↔ (
    (1 ≤ (default_config 4).thread_count)
    × (1 ≤ (default_config 4).report_interval_ms)
    × ((false ≡ false) ⊎ IsPoolReady (default_config 4)))
validate_config_iff_example = validate_config_iff (default_config 4)

parse_value_total_example :
    (parse_value 9 (codes "[1,true]") ≡ failed)
    ⊎ ((v : JsonValue) × (r : Bytes) × (parse_value 9 (codes "[1,true]") ≡ parsed v r)
        × (length r < 8))
parse_value_total_example = parse_value_total 9 (codes "[1,true]") (omega arith)

abbrev no_files : Files
no_files = λ _. none

-- A text with a quote, a nested object and the largest number.
abbrev nested : JsonValue
nested = object (
    member (codes "a") (string (codes "x\"y")) (
      member (codes "b") (object (member (codes "c") (bool true) (member (codes "d") null end)))
        (member (codes "e") (number 18446744073709551615) end)))

nested-IsPrintable : IsPrintable nested
unfolding IsPrintable find
nested-IsPrintable = ground arith

parse-print_example : parse (print nested []) ≡ some nested
parse-print_example = parse-print nested nested-IsPrintable

abbrev own : MinerConfig
own = record (default_config 4) { node_id = codes "a\"b"; pool_port = 65535; thread_count = 3 }

own-IsInRange : IsInRange own
own-IsInRange = omega arith

load_config-saved_example : load_config (λ _. some (saved own)) 8 (codes "miner.json") ≡ (own, true)
load_config-saved_example =
    load_config-saved (λ _. some (saved own)) 8 (codes "miner.json") own own-IsInRange refl
