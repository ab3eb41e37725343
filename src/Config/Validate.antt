-- ===== src/Config/Validate.antt =====
-- What the validation accepts, and what it says of the rest.
use hermit_miner.Base.{
  ◌≤◌, ◌<◌, ◌≡◌, ◌≢◌, ◌↔◌, ◌⊎◌, true, false, [], none, some, arith, contains, Bool-cases, inl, inr,
}
use hermit_miner.Config.{
  MinerConfig, pool_username, validate_config, validate_pool, placeholder, ConfigError,
  threads_zero, report_interval_zero, host_unset, port_range, username_unset, username_placeholder,
  password_empty, password_placeholder, notify_timeout_zero, backoff_zero, backoff_order,
  tls_unsupported,
}

-- A configuration with which the pool can be used.
pub record IsPoolReady (cfg : MinerConfig) : Type 0 where
  pub host_set : cfg.pool_host ≢ []
  pub port_low : 1 ≤ cfg.pool_port
  pub port_high : cfg.pool_port ≤ 65535
  pub username_set : pool_username cfg ≢ []
  pub username_real : contains placeholder (pool_username cfg) ≡ false
  pub password_set : cfg.pool_password ≢ []
  pub password_real : contains placeholder cfg.pool_password ≡ false
  pub notify_timeout : 1 ≤ cfg.pool_notify_timeout_sec
  pub backoff_initial : 1 ≤ cfg.pool_reconnect_initial_sec
  pub backoff_max : cfg.pool_reconnect_initial_sec ≤ cfg.pool_reconnect_max_sec
  pub no_tls : cfg.pool_require_tls ≡ false

validate_pool_sound : (cfg : MinerConfig) → validate_pool cfg ≡ none → IsPoolReady cfg
unfolding validate_pool
validate_pool_sound cfg h = ground arith

validate_pool_complete : (cfg : MinerConfig) → IsPoolReady cfg → validate_pool cfg ≡ none
unfolding validate_pool
validate_pool_complete cfg r = ground arith

-- The validation accepts a configuration exactly when it has a thread and a report interval and, if
-- the pool is enabled, a host, a port in 1..65535, a user name and a password that are set and hold
-- no placeholder, a positive notify timeout, reconnect delays with 1 <= initial <= max, and no TLS.
pub validate_config_iff :
    (cfg : MinerConfig)
    → (validate_config cfg ≡ none) ↔ (
        (1 ≤ cfg.thread_count)
        × (1 ≤ cfg.report_interval_ms)
        × ((cfg.pool_enabled ≡ false) ⊎ IsPoolReady cfg))
unfolding validate_config
validate_config_iff cfg = (
  λ h. (
    ground arith,
    ground arith,
    elim (Bool-cases cfg.pool_enabled) [
      | inl on ↦ inr (validate_pool_sound cfg (ground arith))
      | inr off ↦ inl off
    ],
  ),
  λ (threads, interval, ready). elim ready [
    | inl off ↦ ground arith
    | inr good ↦ ground (arith, validate_pool_complete cfg good)
  ],
)

-- What is wrong with a configuration when a message is given.
abbrev pub Violates : ConfigError → MinerConfig → Type 0
Violates threads_zero cfg = cfg.thread_count ≡ 0
Violates report_interval_zero cfg = cfg.report_interval_ms ≡ 0
Violates host_unset cfg = cfg.pool_host ≡ []
Violates port_range cfg = (cfg.pool_port ≡ 0) ⊎ (65535 < cfg.pool_port)
Violates username_unset cfg = pool_username cfg ≡ []
Violates username_placeholder cfg = contains placeholder (pool_username cfg) ≡ true
Violates password_empty cfg = cfg.pool_password ≡ []
Violates password_placeholder cfg = contains placeholder cfg.pool_password ≡ true
Violates notify_timeout_zero cfg = cfg.pool_notify_timeout_sec ≡ 0
Violates backoff_zero cfg = (cfg.pool_reconnect_initial_sec ≡ 0) ⊎ (cfg.pool_reconnect_max_sec ≡ 0)
Violates backoff_order cfg = cfg.pool_reconnect_max_sec < cfg.pool_reconnect_initial_sec
Violates tls_unsupported cfg = cfg.pool_require_tls ≡ true

-- The message that is given names a check that the configuration fails.
pub validate_config-Violates :
    (cfg : MinerConfig) (e : ConfigError) → validate_config cfg ≡ some e → Violates e cfg
unfolding validate_config validate_pool
validate_config-Violates cfg threads_zero h = ground arith
validate_config-Violates cfg _ h = ground arith
