-- ===== src/Config/Load/Ranges.antt =====
-- The bounds of the numbers in a configuration, whatever a file holds.
use hermit_miner.Base.{
  ℕ, ◌≤◌, Option, none, some, arith, Bytes, u32_max, is_empty, Option-cases, Bool-cases, inl, inr,
}
use hermit_miner.Config.Json
use hermit_miner.Config.Json.{JsonValue}
use hermit_miner.Config.Load.{Files, assign_within, fill, load_config, read_text_file, root_object}
use hermit_miner.Config.{MinerConfig, default_config}

-- The numbers fit their 32-bit fields and the bounds that the program relies on.
pub record IsInRange (cfg : MinerConfig) : Type 0 where
  pub port_low : 1 ≤ cfg.pool_port
  pub port_high : cfg.pool_port ≤ 65535
  pub notify_low : 1 ≤ cfg.pool_notify_timeout_sec
  pub notify_high : cfg.pool_notify_timeout_sec ≤ u32_max
  pub cycles_high : cfg.pool_max_cycles ≤ u32_max
  pub attempts_high : cfg.pool_max_reconnect_attempts ≤ u32_max
  pub initial_low : 1 ≤ cfg.pool_reconnect_initial_sec
  pub initial_high : cfg.pool_reconnect_initial_sec ≤ u32_max
  pub max_low : 1 ≤ cfg.pool_reconnect_max_sec
  pub max_high : cfg.pool_reconnect_max_sec ≤ u32_max
  pub bits_high : cfg.difficulty_bits ≤ 255
  pub threads_low : 1 ≤ cfg.thread_count
  pub threads_high : cfg.thread_count ≤ u32_max
  pub interval_low : 1 ≤ cfg.report_interval_ms
  pub interval_high : cfg.report_interval_ms ≤ u32_max

assign_within_bounds :
    (lo hi : ℕ) (o : Option ℕ) (old : ℕ)
    → lo ≤ old
    → old ≤ hi
    → (lo ≤ assign_within lo hi o old) × (assign_within lo hi o old ≤ hi)
unfolding assign_within
assign_within_bounds lo hi none old p q = (p, q)
assign_within_bounds lo hi (some v) old p q = ground arith

default_config-IsInRange : (hc : ℕ) → hc ≤ u32_max → IsInRange (default_config hc)
default_config-IsInRange hc h = omega arith

fill-IsInRange : (root : JsonValue) (cfg : MinerConfig) → IsInRange cfg → IsInRange (fill root cfg)
unfolding fill
fill-IsInRange root cfg r = record {
  port_low = (assign_within_bounds _ _ _ _ r.port_low r.port_high).0;
  port_high = (assign_within_bounds _ _ _ _ r.port_low r.port_high).1;
  notify_low = (assign_within_bounds _ _ _ _ r.notify_low r.notify_high).0;
  notify_high = (assign_within_bounds _ _ _ _ r.notify_low r.notify_high).1;
  cycles_high = (assign_within_bounds 0 _ _ _ (omega arith) r.cycles_high).1;
  attempts_high = (assign_within_bounds 0 _ _ _ (omega arith) r.attempts_high).1;
  initial_low = (assign_within_bounds _ _ _ _ r.initial_low r.initial_high).0;
  initial_high = (assign_within_bounds _ _ _ _ r.initial_low r.initial_high).1;
  max_low = (assign_within_bounds _ _ _ _ r.max_low r.max_high).0;
  max_high = (assign_within_bounds _ _ _ _ r.max_low r.max_high).1;
  bits_high = (assign_within_bounds 0 _ _ _ (omega arith) r.bits_high).1;
  threads_low = (assign_within_bounds _ _ _ _ r.threads_low r.threads_high).0;
  threads_high = (assign_within_bounds _ _ _ _ r.threads_low r.threads_high).1;
  interval_low = (assign_within_bounds _ _ _ _ r.interval_low r.interval_high).0;
  interval_high = (assign_within_bounds _ _ _ _ r.interval_low r.interval_high).1;
}

-- Whatever a file holds, and also when it cannot be loaded, the numbers of the configuration are
-- within their bounds, if the count of hardware threads fits 32 bits.
pub load_config-IsInRange :
    (files : Files) (hc : ℕ) (path : Bytes) → hc ≤ u32_max → IsInRange (load_config files hc path).0
unfolding load_config
load_config-IsInRange files hc path h = elim (Bool-cases (is_empty (read_text_file files path))) [
  | inl e ↦ rw (e, load_config) (default_config-IsInRange hc h)
  | inr text ↦ elim (Option-cases (root_object (Json.parse (read_text_file files path)))) [
    | inl bad ↦ rw (text, bad, load_config) (default_config-IsInRange hc h)
    | inr (root, good) ↦
        rw (text, good, load_config)
          (fill-IsInRange root (default_config hc) (default_config-IsInRange hc h))
  ]
]
