-- ===== src/Config/Load/Saved.antt =====
-- A configuration as a file that `load_config` reads, and the file read back.
use hermit_miner.Base.{
  ℕ, true, false, ◌≡◌, ◌≤◌, refl, ◌∙◌, [], Option, none, some, Bytes, codes, arith, ap, u32_max,
  is_empty,
}
use hermit_miner.Config.Json
use hermit_miner.Config.Json.Print.{print, IsPrintable, parse-print}
use hermit_miner.Config.Json.{JsonValue, Members, end, member, bool, number, string, object}
use hermit_miner.Config.Load.Ranges.{IsInRange}
use hermit_miner.Config.Load.{
  Files, assign_within, fill, load_config, read_text_file, root_object, object_field,
  read_string_field, read_uint_field, read_bool_field,
}
use hermit_miner.Config.{MinerConfig, default_config}

-- The sections of the configuration file, with the keys that `load_config` asks for.
abbrev pool_section : MinerConfig → Members
pool_section cfg = member (codes "username") (string cfg.pool_username) (
    member (codes "host") (string cfg.pool_host) (
      member (codes "port") (number cfg.pool_port) (
        member (codes "password") (string cfg.pool_password) (
          member (codes "password_env") (string cfg.pool_password_env) (
            member (codes "require_tls") (bool cfg.pool_require_tls) (
              member (codes "enabled") (bool cfg.pool_enabled) (
                member (codes "notify_timeout_sec") (number cfg.pool_notify_timeout_sec) (
                  member (codes "max_cycles") (number cfg.pool_max_cycles) (
                    member (codes "max_reconnect_attempts") (number cfg.pool_max_reconnect_attempts)
                      (member (codes "reconnect_initial_sec")
                        (number cfg.pool_reconnect_initial_sec)
                        (member (codes "reconnect_max_sec") (number cfg.pool_reconnect_max_sec)
                          end)))))))))))

abbrev hashing_section : MinerConfig → Members
hashing_section cfg = member (codes "prefix") (string cfg.prefix) (
    member (codes "difficulty_bits") (number cfg.difficulty_bits) (
      member (codes "threads") (number cfg.thread_count)
        (member (codes "report_interval_ms") (number cfg.report_interval_ms) end)))

abbrev logging_section : MinerConfig → Members
logging_section cfg = member (codes "output") (string cfg.log_output) (
    member (codes "health_output") (string cfg.health_output)
      (member (codes "health_emit_each_cycle") (bool cfg.health_emit_each_cycle) end))

abbrev pub entries : MinerConfig → Members
entries cfg = member (codes "node_id") (string cfg.node_id) (
    member (codes "worker_id") (string cfg.worker_id) (
      member (codes "payout_address") (string cfg.payout_address) (
        member (codes "pool") (object (pool_section cfg)) (
          member (codes "hashing") (object (hashing_section cfg))
            (member (codes "logging") (object (logging_section cfg)) end)))))

abbrev pub saved : MinerConfig → Bytes
saved cfg = print (object (entries cfg)) []

assign_within_inside : (lo hi v old : ℕ) → lo ≤ v → v ≤ hi → assign_within lo hi (some v) old ≡ v
unfolding assign_within
assign_within_inside lo hi v old p q = ground arith

-- Reading the sections gives the fields back.
fill-entries : (cfg old : MinerConfig) → IsInRange cfg → fill (object (entries cfg)) old ≡ cfg
unfolding fill object_field read_string_field read_uint_field read_bool_field Json.find
fill-entries cfg old r =
    rw
      (
        assign_within_inside 1 65535 cfg.pool_port old.pool_port r.port_low r.port_high,
        assign_within_inside 1 u32_max cfg.pool_notify_timeout_sec old.pool_notify_timeout_sec
            r.notify_low r.notify_high,
        assign_within_inside 0 u32_max cfg.pool_max_cycles old.pool_max_cycles (omega arith)
            r.cycles_high,
        assign_within_inside 0 u32_max cfg.pool_max_reconnect_attempts
            old.pool_max_reconnect_attempts (omega arith) r.attempts_high,
        assign_within_inside 1 u32_max cfg.pool_reconnect_initial_sec old.pool_reconnect_initial_sec
            r.initial_low r.initial_high,
        assign_within_inside 1 u32_max cfg.pool_reconnect_max_sec old.pool_reconnect_max_sec
            r.max_low r.max_high,
        assign_within_inside 0 255 cfg.difficulty_bits old.difficulty_bits (omega arith)
            r.bits_high,
        assign_within_inside 1 u32_max cfg.thread_count old.thread_count r.threads_low
            r.threads_high,
        assign_within_inside 1 u32_max cfg.report_interval_ms old.report_interval_ms r.interval_low
            r.interval_high,
      )
      refl

entries-IsPrintable : (cfg : MinerConfig) → IsInRange cfg → IsPrintable (object (entries cfg))
unfolding IsPrintable Json.find
entries-IsPrintable cfg r = ground arith

abbrev contents : Option Bytes → Bytes
contents o = elim o [ none ↦ [] | some text ↦ text ]

loads :
    (files : Files) (hc : ℕ) (path text : Bytes) (ms : Members)
    → read_text_file files path ≡ text
    → is_empty text ≡ false
    → Json.parse text ≡ some (object ms)
    → load_config files hc path ≡ (fill (object ms) (default_config hc), true)
unfolding load_config root_object
loads files hc path text ms h e p = rw (h, e, p, load_config) refl

-- A configuration whose numbers are within their bounds, printed into a file, is loaded from there
-- unchanged, every field of it, on any machine.
pub load_config-saved :
    (files : Files) (hc : ℕ) (path : Bytes) (cfg : MinerConfig)
    → IsInRange cfg
    → files path ≡ some (saved cfg)
    → load_config files hc path ≡ (cfg, true)
load_config-saved files hc path cfg r h =
    loads files hc path (saved cfg) (entries cfg) (unfold read_text_file in ap contents h)
      (unfold print in refl) (parse-print (object (entries cfg)) (entries-IsPrintable cfg r))
    ∙ ap (λ c. (c, true)) (fill-entries cfg (default_config hc) r)
