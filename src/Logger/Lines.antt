-- ===== src/Logger/Lines.antt =====
-- A line of the log: one line of text, which the JSON reader of the configuration reads back as an
-- object with the members of the event.
use hermit_miner.Base.{
  ℕ, zero, suc, ◌<◌, List, length, ◌≡◌, refl, ◌∙◌, ap, sym, [], ◌∷◌, ◌++◌, some, Bytes, codes,
  arith, All, is_empty, if◌then◌else◌,
}
use hermit_miner.Config.Json.{
  object, string, Members, end, member, put, parsed, parse, parse_value, parse_members, dispatch,
  parse_object, member_round, after_value, skip_ws, at_end,
}
use hermit_miner.Logger.Event.{Event, LogLevel, debug_level, info_level, warn_level, err_level}
use hermit_miner.Logger.Line.{escape_json_string, json_line, level_str, context_member}
use hermit_miner.Logger.Redact.{redact_sensitive_fields}
use hermit_miner.Stratum.Codec.Escape.{IsPlain, json_escape_plain, parse_string-json_escape}
use hermit_miner.Stratum.Codec.{json_escape, escape_char}

-- The logger and the client of the pool escape alike.
pub escape_json_string-json_escape : (s : Bytes) → escape_json_string s ≡ json_escape s
unfolding escape_json_string json_escape escape_char
escape_json_string-json_escape [] = refl
escape_json_string-json_escape (c ∷ s) = ground (arith, escape_json_string-json_escape s)

parse_value-string :
    (fuel : ℕ) (v rest : Bytes)
    → parse_value (suc fuel) (b'"' ∷ (json_escape v ++ b'"' ∷ rest)) ≡ parsed (string v) rest
unfolding parse_value dispatch skip_ws
parse_value-string fuel v rest = rw (parse_string-json_escape v rest) refl

-- One member of an object whose value is an escaped text.
parse_members-string :
    (fuel : ℕ) (ms : Members) (key v rest : Bytes)
    → IsPlain key
    → parse_members
        (suc (suc fuel))
        ms
        (b'"' ∷ (key ++ b'"' ∷ b':' ∷ b'"' ∷ (json_escape v ++ b'"' ∷ rest)))
      ≡ after_value
          (parse_members (suc fuel) (put key (string v) ms))
          (put key (string v) ms)
          (skip_ws rest)
unfolding parse_members member_round skip_ws
parse_members-string fuel ms key v rest plain =
    let behind = b':' ∷ b'"' ∷ (json_escape v ++ b'"' ∷ rest) in
    let key_read = rw (json_escape_plain key plain) at (parse_string-json_escape key behind) in
    rw (key_read, parse_value-string fuel v rest) refl

-- The text of some members behind the opening brace, and the closing one.
abbrev render : Bytes → Bytes → List (Bytes × Bytes) → Bytes
render key v [] = b'"' ∷ (key ++ b'"' ∷ b':' ∷ b'"' ∷ (json_escape v ++ b'"' ∷ b'}' ∷ []))
render key v ((key', v') ∷ more) =
    b'"' ∷ (key ++ b'"' ∷ b':' ∷ b'"' ∷ (json_escape v ++ b'"' ∷ b',' ∷ render key' v' more))

abbrev put_all : Bytes → Bytes → List (Bytes × Bytes) → Members → Members
put_all key v [] ms = put key (string v) ms
put_all key v ((key', v') ∷ more) ms = put_all key' v' more (put key (string v) ms)

parse_members-render :
    (fuel : ℕ) (key v : Bytes) (more : List (Bytes × Bytes)) (ms : Members)
    → IsPlain key
    → All (λ m. IsPlain m.0) more
    → length more < fuel
    → parse_members (suc fuel) ms (render key v more) ≡ parsed (object (put_all key v more ms)) []
unfolding skip_ws after_value
parse_members-render zero key v more ms p ps lt = absurd (omega arith)
parse_members-render (suc fuel) key v [] ms p ps lt =
    parse_members-string fuel ms key v (b'}' ∷ []) p
parse_members-render (suc fuel) key v ((key', v') ∷ more) ms p ps lt =
    parse_members-string fuel ms key v (b',' ∷ render key' v' more) p
    ∙ parse_members-render fuel key' v' more (put key (string v) ms) ps.0 ps.1 (omega arith)

parse-render :
    (key v : Bytes) (more : List (Bytes × Bytes))
    → IsPlain key
    → All (λ m. IsPlain m.0) more
    → suc (length more) < length (render key v more)
    → parse (b'{' ∷ render key v more) ≡ some (object (put_all key v more end))
unfolding parse at_end parse_value dispatch parse_object skip_ws
parse-render key v [] p ps lt = ap at_end (
    parse_members-render
      (suc (length (key ++ b'"' ∷ b':' ∷ b'"' ∷ (json_escape v ++ b'"' ∷ b'}' ∷ [])))) key v [] end
      p ps (omega arith))
parse-render key v ((key', v') ∷ more) p ps lt = ap at_end (
    parse_members-render
      (suc
        (length (key ++ b'"' ∷ b':' ∷ b'"' ∷ (json_escape v ++ b'"' ∷ b',' ∷ render key' v' more))))
      key v ((key', v') ∷ more) end p ps (omega arith))

level_str-IsPlain : (level : LogLevel) → IsPlain (level_str level)
level_str-IsPlain debug_level = grind arith
level_str-IsPlain info_level = grind arith
level_str-IsPlain warn_level = grind arith
level_str-IsPlain err_level = grind arith

-- The members of the line of an event: an empty context is left out.
abbrev text_members : Bytes → Event → Bytes → Members
text_members timestamp e context = member (codes "timestamp") (string timestamp) (
    member (codes "level") (string (level_str e.level)) (
      member (codes "component") (string e.component) (
        member (codes "node_id") (string e.node_id) (
          member (codes "message") (string (redact_sensitive_fields e.message))
            (if is_empty context then end else member (codes "context") (string context) end)))))

abbrev pub event_members : Bytes → Event → Members
event_members timestamp e = text_members timestamp e (redact_sensitive_fields e.context)

abbrev leading : Event → List (Bytes × Bytes) → List (Bytes × Bytes)
leading e more =
    (codes "level", level_str e.level)
    ∷ (codes "component", e.component)
    ∷ (codes "node_id", e.node_id)
    ∷ (codes "message", redact_sensitive_fields e.message)
    ∷ more

-- The member of the context, if there is one.
abbrev last_member : Bytes → List (Bytes × Bytes)
last_member [] = []
last_member (c ∷ context) = (codes "context", c ∷ context) ∷ []

-- What follows the closing quote of the message.
abbrev ending : Bytes → Bytes
ending [] = codes "}"
ending (c ∷ context) = codes ",\"context\":\"" ++ (json_escape (c ∷ context) ++ codes "\"}")

escaped_context : (context : Bytes) → context_member (escape_json_string context) ≡ ending context
unfolding escape_json_string
escaped_context [] = refl
escaped_context (c ∷ context) =
    rw (sym (escape_json_string-json_escape (c ∷ context))) (ground arith)

render_last :
    (key v context : Bytes)
    → render key v (last_member context)
      ≡ b'"' ∷ (key ++ b'"' ∷ b':' ∷ b'"' ∷ (json_escape v ++ b'"' ∷ ending context))
render_last key v [] = refl
render_last key v (c ∷ context) = refl

json_line-render :
    (timestamp : Bytes) (e : Event)
    → IsPlain timestamp
    → json_line timestamp e
      ≡ b'{'
        ∷ render
            (codes "timestamp")
            timestamp
            (leading e (last_member (redact_sensitive_fields e.context)))
unfolding json_line
json_line-render timestamp e plain =
    rw
      (
        escape_json_string-json_escape e.component,
        escape_json_string-json_escape e.node_id,
        escape_json_string-json_escape (redact_sensitive_fields e.message),
        escaped_context (redact_sensitive_fields e.context),
        json_escape_plain timestamp plain,
        json_escape_plain (level_str e.level) (level_str-IsPlain e.level),
        render_last (codes "message") (redact_sensitive_fields e.message)
            (redact_sensitive_fields e.context),
      )
      refl

read :
    (timestamp : Bytes) (e : Event) (context : Bytes)
    → IsPlain timestamp
    → parse (b'{' ∷ render (codes "timestamp") timestamp (leading e (last_member context)))
      ≡ some (object (text_members timestamp e context))
unfolding put
read timestamp e [] plain =
    parse-render (codes "timestamp") timestamp (leading e []) (grind arith) (grind arith)
      (omega arith)
read timestamp e (c ∷ context) plain =
    parse-render (codes "timestamp") timestamp (leading e (last_member (c ∷ context))) (grind arith)
      (grind arith) (omega arith)

-- With a time stamp that needs no escaping, the JSON reader reads the line of an event, whatever its
-- texts hold, as the object of these texts, the message and the context redacted.
pub parse-json_line :
    (timestamp : Bytes) (e : Event)
    → IsPlain timestamp
    → parse (json_line timestamp e) ≡ some (object (event_members timestamp e))
parse-json_line timestamp e plain =
    rw (json_line-render timestamp e plain)
      (read timestamp e (redact_sensitive_fields e.context) plain)
