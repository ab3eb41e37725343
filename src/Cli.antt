-- ===== src/Cli.antt =====
-- src/lib/miner_cli.h and miner_cli.cpp: the command line. The arguments are those behind the
-- program's name. The usage and error texts that are printed are left out.
pub mod Ranges
pub mod Numbers
pub mod Override
use hermit_miner.Base.{
  ℕ, Bool, true, false, ◌||◌, List, [], ◌∷◌, Option, none, some, Bytes, codes, ◌==◌, ltb, leb,
  if◌then◌else◌, equal, is_empty, u32_max, ◌&&◌,
}
use hermit_miner.Base.Digits.{stoull, Conversion, value, invalid_argument, out_of_range}
use hermit_miner.Config.Load.{Files, load_config}
use hermit_miner.Config.{MinerConfig}

pub data CliParseResult : Type 0 where
  ok help_shown error : CliParseResult

-- The result with the two variables that `parse_args` writes to.
pub record Parsed : Type 0 where
  pub result : CliParseResult
  pub config_path : Bytes
  pub cfg : MinerConfig

-- A conversion that read the whole text, to a number of 32 bits.
abbrev whole_u32 : Conversion → Option ℕ
whole_u32 (value v rest) = if is_empty rest && leb v u32_max then some v else none
whole_u32 invalid_argument = none
whole_u32 out_of_range = none

unfoldable pub parse_uint32 : Bytes → Option ℕ
parse_uint32 text = whole_u32 (stoull 10 text)

unfoldable pub option_requires_value : Bytes → Bool
option_requires_value arg =
    equal arg (codes "--config")
    || equal arg (codes "--prefix")
    || equal arg (codes "--bits")
    || equal arg (codes "--threads")
    || equal arg (codes "--report-ms")

abbrev is_help : Bytes → Bool
is_help arg = equal arg (codes "--help") || equal arg (codes "-h")

-- `--config`: both variables are written also when the file cannot be loaded.
abbrev take_config : Files → ℕ → Bytes → Parsed
take_config files hc path =
    let (cfg, loaded) = load_config files hc path in
    record { result = if loaded then ok else error; config_path = path; cfg = cfg }

-- A number is stored before it is tested against its range, and left alone if it is no number.
abbrev take_bits : Option ℕ → Bytes → MinerConfig → Parsed
take_bits none path cfg = record { result = error; config_path = path; cfg = cfg }
take_bits (some n) path cfg = record {
  result = if ltb 255 n then error else ok;
  config_path = path;
  cfg = record cfg { difficulty_bits = n };
}

abbrev take_threads : Option ℕ → Bytes → MinerConfig → Parsed
take_threads none path cfg = record { result = error; config_path = path; cfg = cfg }
take_threads (some n) path cfg = record {
  result = if n == 0 then error else ok;
  config_path = path;
  cfg = record cfg { thread_count = n };
}

abbrev take_interval : Option ℕ → Bytes → MinerConfig → Parsed
take_interval none path cfg = record { result = error; config_path = path; cfg = cfg }
take_interval (some n) path cfg = record {
  result = if n == 0 then error else ok;
  config_path = path;
  cfg = record cfg { report_interval_ms = n };
}

-- The chain of tests on an option that takes a value.
unfoldable pub apply_option : Files → ℕ → Bytes → Bytes → Bytes → MinerConfig → Parsed
apply_option files hc arg val path cfg =
    if equal arg (codes "--config")
    then take_config files hc val
    else if equal arg (codes "--prefix")
    then record { result = ok; config_path = path; cfg = record cfg { prefix = val } }
    else if equal arg (codes "--bits")
    then take_bits (parse_uint32 val) path cfg
    else if equal arg (codes "--threads")
    then take_threads (parse_uint32 val) path cfg
    else if equal arg (codes "--report-ms")
    then take_interval (parse_uint32 val) path cfg
    else record { result = ok; config_path = path; cfg = cfg }

abbrev stop : CliParseResult → Bytes → MinerConfig → Parsed
stop r path cfg = record { result = r; config_path = path; cfg = cfg }

-- An error ends the loop; otherwise it goes on with what the option left.
abbrev continue : Parsed → (Bytes → MinerConfig → Parsed) → Parsed
continue p rest = elim (p.result) [ ok ↦ rest p.config_path p.cfg | help_shown ↦ p | error ↦ p ]

module _ (files : Files) (hc : ℕ) where
  unfoldable pub parse_args : List Bytes → Bytes → MinerConfig → Parsed
  parse_args [] path cfg = stop ok path cfg
  parse_args (arg ∷ []) path cfg =
      if is_help arg then stop help_shown path cfg else stop error path cfg
  parse_args (arg ∷ val ∷ args) path cfg =
      if is_help arg
      then stop help_shown path cfg
      else if option_requires_value arg
      then continue (apply_option files hc arg val path cfg) (parse_args args)
      else stop error path cfg
