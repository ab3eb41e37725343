-- ===== src/Logger/Line.antt =====
-- `escape_json_string` and `Logger::log` of src/lib/logger.cpp. The time stamp, which the clock
-- gives, and whether the file can be opened are arguments.
use hermit_miner.Base.{ℕ, Bool, [], ◌∷◌, ◌++◌, Bytes, codes, ◌==◌, ltb, if◌then◌else◌, is_empty}
use hermit_miner.Logger.Event.{Event, LogLevel, debug_level, info_level, warn_level, err_level}
use hermit_miner.Logger.Redact.{redact_sensitive_fields}

unfoldable pub escape_json_string : Bytes → Bytes
escape_json_string [] = []
escape_json_string (ch ∷ input) =
    let rest = escape_json_string input in
    if ch == b'\\'
    then b'\\' ∷ b'\\' ∷ rest
    else if ch == b'"'
    then b'\\' ∷ b'"' ∷ rest
    else if ch == b'\n'
    then b'\\' ∷ b'n' ∷ rest
    else if ch == b'\r'
    then b'\\' ∷ b'r' ∷ rest
    else if ch == b'\t'
    then b'\\' ∷ b't' ∷ rest
    else ch ∷ rest

-- The numbers of the enumerators.
abbrev pub severity : LogLevel → ℕ
severity debug_level = 0
severity info_level = 1
severity warn_level = 2
severity err_level = 3

abbrev pub level_str : LogLevel → Bytes
level_str debug_level = codes "DEBUG"
level_str info_level = codes "INFO"
level_str warn_level = codes "WARN"
level_str err_level = codes "ERROR"

-- The member "context", which an empty context leaves out.
abbrev pub context_member : Bytes → Bytes
context_member esc_context =
    if is_empty esc_context
    then codes "}"
    else codes ",\"context\":\"" ++ (esc_context ++ codes "\"}")

unfoldable pub json_line : Bytes → Event → Bytes
json_line timestamp e =
    codes "{\"timestamp\":\""
    ++ (timestamp
        ++ (codes "\",\"level\":\""
            ++ (level_str e.level
                ++ (codes "\",\"component\":\""
                    ++ (escape_json_string e.component
                        ++ (codes "\",\"node_id\":\""
                            ++ (escape_json_string e.node_id
                                ++ (codes "\",\"message\":\""
                                    ++ (escape_json_string (redact_sensitive_fields e.message)
                                        ++ (codes "\""
                                            ++ context_member (
                                                escape_json_string
                                                  (redact_sensitive_fields e.context))))))))))))

-- What the file and the standard output hold.
pub record Output : Type 0 where
  pub file : Bytes
  pub console : Bytes

unfoldable pub log : LogLevel → Bytes → Bool → Event → Output → Output
log level timestamp is_open e o = if ltb (severity e.level) (severity level) then o else record {
  file = if is_open then o.file ++ (json_line timestamp e ++ b'\n' ∷ []) else o.file;
  console = o.console ++ (json_line timestamp e ++ b'\n' ∷ []);
}
