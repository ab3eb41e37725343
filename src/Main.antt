-- ===== src/Main.antt =====
-- `main` of src/miner.cpp, in two parts: up to the validation of the configuration, and behind it.
-- What is printed on the standard streams is left out, and so are the rate of hashes and its line of
-- the log; a signal is a load of `stop_requested` that gives true.
pub mod Startup
pub mod Exits
use hermit_miner.Base.{
  ℕ, zero, suc, Bool, true, false, not, ◌&&◌, ◌||◌, List, [], ◌∷◌, ◌++◌, Option, none, some, Bytes,
  codes, if◌then◌else◌, equal,
}
use hermit_miner.Base.Digits.{to_decimal}
use hermit_miner.Cli.{ok, help_shown, error, Parsed, parse_args}
use hermit_miner.Config.Load.{Files, load_config}
use hermit_miner.Config.{
  MinerConfig, Environment, ConfigError, pool_username, apply_secret_overrides_from_env,
  validate_config, error_message,
}
use hermit_miner.Logger.Event
use hermit_miner.Logger.Event.{Event}
use hermit_miner.Runtime.Loop.{LoopState, run_stratum_loop}
use hermit_miner.Runtime.{Ops, MiningResult, info, warn}

unfoldable pub is_local_pool_host : Bytes → Bool
is_local_pool_host host =
    equal host (codes "127.0.0.1") || equal host (codes "localhost") || equal host (codes "::1")

abbrev pub default_config_path : Bytes
default_config_path = codes "config/miner-local-stratum.json"

-- An exit with its code, or a configuration to run with the calls of the logger so far.
pub data Launch : Type 0 where
  exit : ℕ → List Event → Launch
  ready : MinerConfig → List Event → Launch

abbrev startup_context : MinerConfig → Bytes
startup_context cfg =
    codes "worker_id="
    ++ cfg.worker_id
    ++ codes " threads="
    ++ to_decimal cfg.thread_count
    ++ codes " bits="
    ++ to_decimal cfg.difficulty_bits
    ++ codes " pool_enabled="
    ++ (if cfg.pool_enabled then codes "true" else codes "false")
    ++ codes " pool_user="
    ++ pool_username cfg
    ++ codes " pool_host="
    ++ cfg.pool_host
    ++ codes ":"
    ++ to_decimal cfg.pool_port

-- The warning for a pool that is not local.
abbrev plaintext : MinerConfig → List Event
plaintext cfg =
    if cfg.pool_enabled && (not cfg.pool_require_tls && not (is_local_pool_host cfg.pool_host))
    then Event.warn (codes "security") cfg.node_id (codes "Pool transport is plaintext TCP")
        (codes "consider secure tunnel/proxy for non-local pool host")
      ∷ []
    else []

abbrev pub checked : MinerConfig → List Event → Option ConfigError → Launch
checked cfg log (some config_error) = exit 1 (
    log
    ++ Event.error (codes "config") cfg.node_id (codes "Invalid configuration")
        (error_message config_error)
      ∷ [])
checked cfg log none = ready cfg (
    log
    ++ (Event.info (codes "miner") cfg.node_id (codes "Independent miner starting")
          (startup_context cfg)
        ∷ plaintext cfg))

abbrev pub secured : MinerConfig × List Event → Launch
secured (cfg, log) = checked cfg log (validate_config cfg)

abbrev pub parsed : Environment → Bool → Parsed → Launch
parsed getenv default_config_loaded p = elim (p.result) [
  | help_shown ↦ exit 0 []
  | error ↦ exit 1 []
  | ok ↦ elim (equal p.config_path default_config_path && not default_config_loaded) [
    | true ↦ exit 1 []
    | false ↦ secured (apply_secret_overrides_from_env getenv p.cfg)
  ]
]

-- From the arguments, less the name of the program, to a configuration that is ready to run.
unfoldable pub launch : Files → Environment → ℕ → List Bytes → Launch
launch files getenv hardware_concurrency args =
    let (cfg, loaded) = load_config files hardware_concurrency default_config_path in
    parsed getenv loaded (parse_args files hardware_concurrency args default_config_path cfg)

module _ {W : Type 0} (ops : Ops W) where
  abbrev graceful : MinerConfig → W → W
  graceful cfg w =
      ops.log
        (Event.info (codes "miner") cfg.node_id (codes "Graceful shutdown complete")
          (codes "reason=signal"))
        w

  abbrev pub stop_noted : MinerConfig → Bool × W → W
  stop_noted cfg (true, w) = graceful cfg w
  stop_noted cfg (false, w) = w

  -- Behind the reconnect loop.
  abbrev pub looped : MinerConfig → Option ℕ × LoopState W → Option ℕ × W
  looped cfg (none, s) = (none, s.progress.world)
  looped cfg (some zero, s) = (some 0, stop_noted cfg (ops.stop_requested s.progress.world))
  looped cfg (some (suc rc), s) = (some (suc rc), s.progress.world)

  -- Behind a search without a pool.
  abbrev pub searched : MinerConfig → MiningResult × W → Option ℕ × W
  searched cfg (result, w) = elim (result.aborted) [
    | true ↦ (some 0, graceful cfg w)
    | false ↦ elim (result.found) [
      | true ↦ (some 0, w)
      | false ↦ (
        some 2,
        ops.log
            (Event.warn (codes "miner") cfg.node_id
              (codes "No valid nonce found in 32-bit nonce space") [])
            w,
      )
    ]
  ]

  -- The run of a configuration, with at most so many sessions of so many rounds.
  unfoldable pub run : ℕ → ℕ → MinerConfig → W → Option ℕ × W
  run sessions rounds cfg w = elim (cfg.pool_enabled) [
    | true ↦ looped cfg (run_stratum_loop ops cfg sessions rounds w)
    | false ↦ searched cfg (ops.mine cfg w)
  ]
