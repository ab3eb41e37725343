-- ===== src/Config/Load.antt =====
-- `load_config` and the readers of JSON fields. The files are a parameter: what a path gives when it
-- can be opened.
pub mod Ranges
pub mod Saved
use Prim.Native.String.{String}
use hermit_miner.Base.{
  ℕ, Bool, true, false, not, ◌&&◌, ◌||◌, [], ◌∷◌, Option, none, some, Bytes, codes, ◌==◌, ltb, leb,
  if◌then◌else◌, ◌>>=◌, is_empty, u32_max,
}
use hermit_miner.Config.Json
use hermit_miner.Config.Json.{JsonValue, null, bool, number, string, object}
use hermit_miner.Config.{MinerConfig, default_config}

abbrev pub Files : Type 0
Files = Bytes → Option Bytes

-- A file that cannot be opened reads as the empty text.
unfoldable pub read_text_file : Files → Bytes → Bytes
read_text_file files path = elim (files path) [ none ↦ [] | some text ↦ text ]

-- `none` is the null pointer.
unfoldable pub object_field : Option JsonValue → Bytes → Option JsonValue
object_field none key = none
object_field (some (object ms)) key = Json.find key ms
object_field (some _) key = none

-- The value of a field, if its type tag is the one asked for.
abbrev as_string : JsonValue → Option Bytes
as_string (string s) = some s
as_string _ = none

abbrev as_uint : JsonValue → Option ℕ
as_uint (number n) = some n
as_uint _ = none

abbrev as_bool : JsonValue → Option Bool
as_bool (bool b) = some b
as_bool _ = none

unfoldable pub read_string_field : Option JsonValue → Bytes → Option Bytes
read_string_field obj key = object_field obj key >>= as_string

unfoldable pub read_uint_field : Option JsonValue → Bytes → Option ℕ
read_uint_field obj key = object_field obj key >>= as_uint

unfoldable pub read_bool_field : Option JsonValue → Bytes → Option Bool
read_bool_field obj key = object_field obj key >>= as_bool

-- `a || b` of two reads into one variable.
abbrev pub either {ℓ} : {A : Type ℓ} → Option A → Option A → Option A
either none b = b
either (some a) b = some a

-- The variable is assigned only if a read succeeded.
abbrev pub assign {ℓ} : {A : Type ℓ} → Option A → A → A
assign none old = old
assign (some v) old = v

-- A number is assigned only within its bounds.
unfoldable pub assign_within : ℕ → ℕ → Option ℕ → ℕ → ℕ
assign_within lo hi none old = old
assign_within lo hi (some v) old = if leb lo v && leb v hi then v else old

-- A field of a section, or else of the root.
abbrev string_of : JsonValue → String → String → Option Bytes
string_of root section key =
    either (read_string_field (object_field (some root) (codes section)) (codes key))
      (read_string_field (some root) (codes key))

abbrev uint_of : JsonValue → String → String → Option ℕ
uint_of root section key =
    either (read_uint_field (object_field (some root) (codes section)) (codes key))
      (read_uint_field (some root) (codes key))

abbrev bool_of : JsonValue → String → String → Option Bool
bool_of root section key =
    either (read_bool_field (object_field (some root) (codes section)) (codes key))
      (read_bool_field (some root) (codes key))

-- The assignments of `load_config`: each is to a field of its own, so they stand side by side.
unfoldable pub fill : JsonValue → MinerConfig → MinerConfig
fill root cfg = record {
  node_id = assign (read_string_field (some root) (codes "node_id")) cfg.node_id;
  worker_id = assign (read_string_field (some root) (codes "worker_id")) cfg.worker_id;
  payout_address =
      assign (read_string_field (some root) (codes "payout_address")) cfg.payout_address;
  pool_username = assign (string_of root "pool" "username") cfg.pool_username;
  pool_host = assign (string_of root "pool" "host") cfg.pool_host;
  pool_port = assign_within 1 65535 (uint_of root "pool" "port") cfg.pool_port;
  pool_password = assign (string_of root "pool" "password") cfg.pool_password;
  pool_password_env = assign (string_of root "pool" "password_env") cfg.pool_password_env;
  pool_require_tls = assign (bool_of root "pool" "require_tls") cfg.pool_require_tls;
  pool_enabled = assign (bool_of root "pool" "enabled") cfg.pool_enabled;
  pool_notify_timeout_sec =
      assign_within 1 u32_max (uint_of root "pool" "notify_timeout_sec")
        cfg.pool_notify_timeout_sec;
  pool_max_cycles = assign_within 0 u32_max (uint_of root "pool" "max_cycles") cfg.pool_max_cycles;
  pool_max_reconnect_attempts =
      assign_within 0 u32_max (uint_of root "pool" "max_reconnect_attempts")
        cfg.pool_max_reconnect_attempts;
  pool_reconnect_initial_sec =
      assign_within 1 u32_max (uint_of root "pool" "reconnect_initial_sec")
        cfg.pool_reconnect_initial_sec;
  pool_reconnect_max_sec =
      assign_within 1 u32_max (uint_of root "pool" "reconnect_max_sec") cfg.pool_reconnect_max_sec;
  prefix = assign (string_of root "hashing" "prefix") cfg.prefix;
  difficulty_bits =
      assign_within 0 255 (uint_of root "hashing" "difficulty_bits") cfg.difficulty_bits;
  thread_count = assign_within 1 u32_max (uint_of root "hashing" "threads") cfg.thread_count;
  report_interval_ms =
      assign_within 1 u32_max (uint_of root "hashing" "report_interval_ms") cfg.report_interval_ms;
  log_output = assign (string_of root "logging" "output") cfg.log_output;
  health_output = assign (string_of root "logging" "health_output") cfg.health_output;
  health_emit_each_cycle =
      assign (bool_of root "logging" "health_emit_each_cycle") cfg.health_emit_each_cycle;
}

-- The root object of a text, if the text is one.
unfoldable pub root_object : Option JsonValue → Option JsonValue
root_object (some (object ms)) = some (object ms)
root_object _ = none

-- The configuration and the returned truth value. On failure the configuration is the default one.
unfoldable pub load_config : Files → ℕ → Bytes → MinerConfig × Bool
load_config files hardware_concurrency path =
    let cfg = default_config hardware_concurrency in
    let json = read_text_file files path in
    if is_empty json then (cfg, false) else elim (root_object (Json.parse json)) [
      | none ↦ (cfg, false)
      | some root ↦ (fill root cfg, true)
    ]
