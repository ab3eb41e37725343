-- ===== src/Tests/Cli.antt =====
-- The command line.
use hermit_miner.Base.{◌≡◌, ◌-◌, ◌^◌, refl, none, some, List, Bytes, codes, arith, ◌∷◌, [], ◌++◌}
use hermit_miner.Base.Digits.{to_decimal, stoull, scan, digit_value}
use hermit_miner.Cli.Numbers.{parse_uint32_minus}
use hermit_miner.Cli.Override.{parse_args-config}
use hermit_miner.Cli.{parse_uint32, parse_args, apply_option, ok, option_requires_value}
use hermit_miner.Config.Load.Ranges.{IsInRange}
use hermit_miner.Config.{MinerConfig, default_config}
use hermit_miner.Config.Load.{Files}

abbrev no_file : Files
no_file = λ _. none

abbrev bits_args : List Bytes
bits_args = codes "--bits" ∷ codes "12" ∷ []

abbrev defaults : MinerConfig
defaults = default_config 4

bits_parse : (parse_args no_file 4 bits_args [] defaults).result ≡ ok
unfolding parse_args apply_option option_requires_value parse_uint32 stoull scan digit_value
bits_parse = refl

defaults-IsInRange : IsInRange defaults
defaults-IsInRange = omega arith

parse_uint32_minus_example : parse_uint32 (45 ∷ to_decimal (2 ^ 64 - 3)) ≡ some 3
parse_uint32_minus_example = parse_uint32_minus 3 (omega arith) (omega arith)

parse_args-config_example :
    parse_args no_file 4 (bits_args ++ codes "--config" ∷ codes "a.json" ∷ []) [] defaults
    ≡ parse_args no_file 4 (codes "--config" ∷ codes "a.json" ∷ []) [] defaults
parse_args-config_example =
    parse_args-config no_file 4 bits_args (codes "a.json") [] [] defaults bits_parse
