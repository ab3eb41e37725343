-- ===== src/Main/Startup.antt =====
-- What holds of a configuration that the program runs, and what its exit codes say.
use mathlib.Core.Path.{subst}
use hermit_miner.Base.{
  ℕ, ◌≤◌, ◌≡◌, ◌⊎◌, inl, inr, refl, Bool, Bool-cases, not, ◌&&◌, List, Option, none, some, Bytes,
  equal, u32_max, arith,
}
use hermit_miner.Cli.Ranges.{parse_args-IsInRange}
use hermit_miner.Cli.{CliParseResult, ok, help_shown, error, Parsed, parse_args}
use hermit_miner.Config.Load.Ranges.{IsInRange, load_config-IsInRange}
use hermit_miner.Config.Load.{Files, load_config}
use hermit_miner.Config.{
  MinerConfig, Environment, ConfigError, apply_secret_overrides_from_env, validate_config,
}
use hermit_miner.Logger.Event.{Event}
use hermit_miner.Main.{Launch, exit, ready, checked, secured, parsed, launch, default_config_path}

-- Within its bounds and accepted by the validation.
pub record IsRunnable (cfg : MinerConfig) : Type 0 where
  pub in_range : IsInRange cfg
  pub valid : validate_config cfg ≡ none

abbrev LaunchOf : Launch → Type 0
LaunchOf (exit rc log) = (rc ≡ 0) ⊎ (rc ≡ 1)
LaunchOf (ready cfg log) = IsRunnable cfg

checked-Launch :
    (cfg : MinerConfig) (log : List Event) (o : Option ConfigError)
    → IsInRange cfg
    → validate_config cfg ≡ o
    → LaunchOf (checked cfg log o)
checked-Launch cfg log (some e) r v = inr refl
checked-Launch cfg log none r v = record { in_range = r; valid = v }

secret-IsInRange :
    (getenv : Environment) (cfg : MinerConfig)
    → IsInRange cfg
    → IsInRange (apply_secret_overrides_from_env getenv cfg).0
unfolding apply_secret_overrides_from_env
secret-IsInRange getenv cfg r = ground arith

secured-Launch : (c : MinerConfig × List Event) → IsInRange c.0 → LaunchOf (secured c)
secured-Launch (cfg, log) r = checked-Launch cfg log (validate_config cfg) r refl

result-cases : (r : CliParseResult) → (r ≡ ok) ⊎ ((r ≡ help_shown) ⊎ (r ≡ error))
result-cases ok = inl refl
result-cases help_shown = inr (inl refl)
result-cases error = inr (inr refl)

parsed-Launch :
    (getenv : Environment) (loaded : Bool) (p : Parsed)
    → (p.result ≡ ok → IsInRange p.cfg)
    → LaunchOf (parsed getenv loaded p)
parsed-Launch getenv loaded p r = elim (result-cases p.result) [
  | inl e ↦ elim (Bool-cases (equal p.config_path default_config_path && not loaded)) [
    | inl missing ↦ rw (e, missing, parsed) (inr refl)
    | inr fine ↦ rw (e, fine, parsed) (secured-Launch _ (secret-IsInRange getenv p.cfg (r e)))
  ]
  | inr (inl e) ↦ rw (e, parsed) (inl refl)
  | inr (inr e) ↦ rw (e, parsed) (inr refl)
]

launch-Launch :
    (files : Files) (getenv : Environment) (hc : ℕ) (args : List Bytes)
    → hc ≤ u32_max
    → LaunchOf (launch files getenv hc args)
unfolding launch
launch-Launch files getenv hc args fits =
    let start = load_config files hc default_config_path in
    parsed-Launch getenv start.1 (parse_args files hc args default_config_path start.0) (
      parse_args-IsInRange files hc fits args default_config_path start.0
        (load_config-IsInRange files hc default_config_path fits))

-- Whatever the arguments, the files and the environment are, if the count of hardware threads fits
-- 32 bits, a configuration that the program runs has its numbers within their bounds and passes the
-- validation.
pub launch-IsRunnable :
    (files : Files) (getenv : Environment) (hc : ℕ) (args : List Bytes) (cfg : MinerConfig)
    (log : List Event)
    → hc ≤ u32_max
    → launch files getenv hc args ≡ ready cfg log
    → IsRunnable cfg
launch-IsRunnable files getenv hc args cfg log fits e =
    subst LaunchOf e (launch-Launch files getenv hc args fits)
