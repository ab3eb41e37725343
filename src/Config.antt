-- ===== src/Config.antt =====
-- src/lib/miner_config.h and miner_config.cpp: the configuration record, its defaults, the user name
-- for the pool, the password from the environment and the validation.
pub mod Json
pub mod Load
pub mod Validate
use hermit_miner.Base.{
  ℕ, Bool, true, false, not, ◌||◌, List, [], ◌∷◌, ◌++◌, Option, none, some, Bytes, codes, ◌==◌, ltb,
  if◌then◌else◌, is_empty, contains, max,
}
use hermit_miner.Logger.Event
use hermit_miner.Logger.Event.{Event}

pub record MinerConfig : Type 0 where
  pub node_id : Bytes
  pub worker_id : Bytes
  pub payout_address : Bytes
  pub pool_username : Bytes
  pub pool_host : Bytes
  pub pool_port : ℕ
  pub pool_password : Bytes
  pub pool_password_env : Bytes
  pub pool_require_tls : Bool
  pub pool_enabled : Bool
  pub pool_notify_timeout_sec : ℕ
  pub pool_max_cycles : ℕ
  pub pool_max_reconnect_attempts : ℕ
  pub pool_reconnect_initial_sec : ℕ
  pub pool_reconnect_max_sec : ℕ
  pub prefix : Bytes
  pub difficulty_bits : ℕ
  pub thread_count : ℕ
  pub report_interval_ms : ℕ
  pub log_output : Bytes
  pub health_output : Bytes
  pub health_emit_each_cycle : Bool

-- `MinerConfig{}`; the argument is std::thread::hardware_concurrency(), which may be 0.
abbrev pub default_config : ℕ → MinerConfig
default_config hardware_concurrency = record {
  node_id = codes "CP-1";
  worker_id = codes "cp1";
  payout_address = [];
  pool_username = [];
  pool_host = codes "pool.example.com";
  pool_port = 3333;
  pool_password = codes "x";
  pool_password_env = [];
  pool_require_tls = false;
  pool_enabled = false;
  pool_notify_timeout_sec = 30;
  pool_max_cycles = 0;
  pool_max_reconnect_attempts = 0;
  pool_reconnect_initial_sec = 1;
  pool_reconnect_max_sec = 30;
  prefix = codes "hello-bitcoin";
  difficulty_bits = 24;
  thread_count = max 1 hardware_concurrency;
  report_interval_ms = 1000;
  log_output = codes "logs/miner.log";
  health_output = [];
  health_emit_each_cycle = false;
}

-- The user name that the pool is given.
unfoldable pub pool_username : MinerConfig → Bytes
pool_username cfg =
    if not (is_empty cfg.pool_username)
    then cfg.pool_username
    else if is_empty cfg.payout_address
    then cfg.worker_id
    else cfg.payout_address ++ (b'.' ∷ cfg.worker_id)

-- The environment is a function from names to values; a value may be empty.
abbrev pub Environment : Type 0
Environment = Bytes → Option Bytes

-- What `getenv` gives, with an empty value taken for none.
abbrev present : Option Bytes → Option Bytes
present none = none
present (some v) = if is_empty v then none else some v

-- The configuration and the lines that are logged.
unfoldable pub apply_secret_overrides_from_env :
    Environment → MinerConfig → MinerConfig × List Event
apply_secret_overrides_from_env getenv cfg =
    if is_empty cfg.pool_password_env
    then (cfg, [])
    else elim (present (getenv cfg.pool_password_env)) [
      | none ↦ (
        cfg,
        Event.warn (codes "config") cfg.node_id
              (codes "pool.password_env is set but environment variable is missing")
              cfg.pool_password_env
            ∷ [],
      )
      | some env_val ↦ (
        record cfg { pool_password = env_val },
        Event.info (codes "config") cfg.node_id
              (codes "Loaded pool password from environment variable") cfg.pool_password_env
            ∷ [],
      )
    ]

-- The error messages of the validation.
pub data ConfigError : Type 0 where
  threads_zero report_interval_zero host_unset port_range username_unset : ConfigError
  username_placeholder password_empty password_placeholder notify_timeout_zero : ConfigError
  backoff_zero backoff_order tls_unsupported : ConfigError

abbrev pub placeholder : Bytes
placeholder = codes "REPLACE_WITH"

-- The checks that are made only with the pool enabled.
unfoldable pub validate_pool : MinerConfig → Option ConfigError
validate_pool cfg =
    if is_empty cfg.pool_host
    then some host_unset
    else if cfg.pool_port == 0 || ltb 65535 cfg.pool_port
    then some port_range
    else if is_empty (pool_username cfg)
    then some username_unset
    else if contains placeholder (pool_username cfg)
    then some username_placeholder
    else if is_empty cfg.pool_password
    then some password_empty
    else if contains placeholder cfg.pool_password
    then some password_placeholder
    else if cfg.pool_notify_timeout_sec == 0
    then some notify_timeout_zero
    else if cfg.pool_reconnect_initial_sec == 0 || cfg.pool_reconnect_max_sec == 0
    then some backoff_zero
    else if ltb cfg.pool_reconnect_max_sec cfg.pool_reconnect_initial_sec
    then some backoff_order
    else if cfg.pool_require_tls
    then some tls_unsupported
    else none

-- `none` is the result true, `some` the result false with its message.
unfoldable pub validate_config : MinerConfig → Option ConfigError
validate_config cfg =
    if cfg.thread_count == 0
    then some threads_zero
    else if cfg.report_interval_ms == 0
    then some report_interval_zero
    else if not cfg.pool_enabled
    then none
    else validate_pool cfg

-- The texts of `error_message`.
unfoldable pub error_message : ConfigError → Bytes
error_message threads_zero = codes "hashing.threads must be greater than 0"
error_message report_interval_zero = codes "hashing.report_interval_ms must be greater than 0"
error_message host_unset = codes "pool.host must be set when pool.enabled=true"
error_message port_range = codes "pool.port must be in range 1..65535 when pool.enabled=true"
error_message username_unset =
    codes "pool.username (or payout_address+worker_id) must be set when pool.enabled=true"
error_message username_placeholder =
    codes "pool.username contains placeholder value; replace before running with pool.enabled=true"
error_message password_empty =
    codes "pool.password is empty; set pool.password or pool.password_env"
error_message password_placeholder =
    codes "pool.password contains placeholder value; replace before running with pool.enabled=true"
error_message notify_timeout_zero = codes "pool.notify_timeout_sec must be greater than 0"
error_message backoff_zero = codes "pool reconnect backoff values must be greater than 0"
error_message backoff_order =
    codes "pool.reconnect_max_sec must be greater than or equal to pool.reconnect_initial_sec"
error_message tls_unsupported =
    codes
      "pool.require_tls=true is not supported yet; use a secure tunnel/proxy and set pool.require_tls=false"
