-- ===== src/Logger/Reader.antt =====
-- What a reader finds in the log, said without the tables of the logger.
use hermit_miner.Base.{
  ℕ, ◌/◌, ◌%◌, All, Bool-cases, inl, inr, ◌≡◌, refl, ◌∙◌, Bool, true, false, not, List, [], ◌∷◌,
  Option, some, Bytes, codes, ltb, if◌then◌else◌,
}
use hermit_miner.Config.Json.{JsonValue, Members, object, string, member, end}
use hermit_miner.Logger.Event.{Event, LogLevel, debug_level, info_level, warn_level, err_level}
use hermit_miner.Logger.File.{
  Call, nothing, lines, parse_each, log_each, logged, opened, log_each-logged,
}
use hermit_miner.Logger.Line.{level_str, severity}
use hermit_miner.Logger.Lines.{event_members}
use hermit_miner.Logger.Redact.{redact_sensitive_fields}
use hermit_miner.Logger.Stamp.{IsDate, stamp, get_timestamp-stamp}
use hermit_miner.Logger.Timestamp.{Tm, get_timestamp}

abbrev pub level_name : LogLevel → Bytes
level_name debug_level = codes "DEBUG"
level_name info_level = codes "INFO"
level_name warn_level = codes "WARN"
level_name err_level = codes "ERROR"

-- Whether an event of the second level passes a logger of the first one.
abbrev pub is_heard : LogLevel → LogLevel → Bool
is_heard debug_level _ = true
is_heard info_level debug_level = false
is_heard info_level _ = true
is_heard warn_level warn_level = true
is_heard warn_level err_level = true
is_heard warn_level _ = false
is_heard err_level err_level = true
is_heard err_level _ = false

-- An empty context is left out.
abbrev pub with_context : Bytes → Members
with_context [] = end
with_context (c ∷ context) = member (codes "context") (string (c ∷ context)) end

-- The object of an event, with its message and its context redacted.
abbrev pub entry : Bytes → Event → JsonValue
entry timestamp e = object (
    member (codes "timestamp") (string timestamp) (
      member (codes "level") (string (level_name e.level)) (
        member (codes "component") (string e.component) (
          member (codes "node_id") (string e.node_id) (
            member (codes "message") (string (redact_sensitive_fields e.message))
              (with_context (redact_sensitive_fields e.context)))))))

module _ (level : LogLevel) (gmtime : ℕ → Tm) where
  abbrev pub entries : List Call → List (Option JsonValue)
  entries [] = []
  entries (c ∷ calls) =
      let more = entries calls in
      if is_heard level c.event.level
      then some (entry (stamp (gmtime (c.now / 1000)) (c.now % 1000)) c.event) ∷ more
      else more

  abbrev pub Dated : List Call → Type 0
  Dated = All (λ c. IsDate (gmtime (c.now / 1000)))

level_str-level_name : (level : LogLevel) → level_str level ≡ level_name level
level_str-level_name debug_level = refl
level_str-level_name info_level = refl
level_str-level_name warn_level = refl
level_str-level_name err_level = refl

heard_lem : (l m : LogLevel) → not (ltb (severity m) (severity l)) ≡ is_heard l m
heard_lem debug_level debug_level = refl
heard_lem debug_level info_level = refl
heard_lem debug_level warn_level = refl
heard_lem debug_level err_level = refl
heard_lem info_level debug_level = refl
heard_lem info_level info_level = refl
heard_lem info_level warn_level = refl
heard_lem info_level err_level = refl
heard_lem warn_level debug_level = refl
heard_lem warn_level info_level = refl
heard_lem warn_level warn_level = refl
heard_lem warn_level err_level = refl
heard_lem err_level debug_level = refl
heard_lem err_level info_level = refl
heard_lem err_level warn_level = refl
heard_lem err_level err_level = refl

context_lem :
    (timestamp context : Bytes) (e : Event)
    → redact_sensitive_fields e.context ≡ context
    → object (event_members timestamp e) ≡ entry timestamp e
context_lem timestamp [] e same = rw (same, level_str-level_name e.level) refl
context_lem timestamp (c ∷ context) e same = rw (same, level_str-level_name e.level) refl

logged-entries :
    (level : LogLevel) (gmtime : ℕ → Tm) (calls : List Call)
    → Dated level gmtime calls
    → logged level gmtime calls ≡ entries level gmtime calls
logged-entries level gmtime [] dated = refl
logged-entries level gmtime (c ∷ calls) (d, dated) =
    let text = redact_sensitive_fields c.event.context in
    rw
      (
        heard_lem level c.event.level,
        logged-entries level gmtime calls dated,
        context_lem (get_timestamp gmtime c.now) text c.event refl,
        get_timestamp-stamp gmtime c.now d,
      )
      refl

opened-Dated :
    (level : LogLevel) (gmtime : ℕ → Tm) (calls : List Call)
    → Dated level gmtime calls
    → Dated level gmtime (opened level gmtime calls)
opened-Dated level gmtime [] dated = tt
opened-Dated level gmtime (c ∷ calls) (d, dated) = elim (Bool-cases c.is_open) [
  | inl is ↦ rw is (d, opened-Dated level gmtime calls dated)
  | inr not_open ↦ rw not_open (opened-Dated level gmtime calls dated)
]

-- With both empty before, when the clock gives every call a date of the years 1900 to 9999: a reader
-- of the lines of the console finds exactly the events that reach the level of the logger, in the
-- order of debug, info, warn and error, one after the other; and in the file those among them that
-- were logged while it could be opened. Of each event it finds the date, with the milliseconds as a
-- fraction of six digits, the name of the level, the component and the node as they are, and the
-- message and the context as the redaction leaves them, without an empty context, whatever
-- characters these texts hold.
pub log-logged :
    (level : LogLevel) (gmtime : ℕ → Tm) (calls : List Call)
    → Dated level gmtime calls
    → (parse_each (lines (log_each level gmtime calls nothing).console)
        ≡ entries level gmtime calls)
      × (parse_each (lines (log_each level gmtime calls nothing).file)
          ≡ entries level gmtime (opened level gmtime calls))
log-logged level gmtime calls dated =
    let (console, file) = log_each-logged level gmtime calls in
    (
      console ∙ logged-entries level gmtime calls dated,
      file
          ∙ logged-entries level gmtime (opened level gmtime calls)
              (opened-Dated level gmtime calls dated),
    )
