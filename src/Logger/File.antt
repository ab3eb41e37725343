-- ===== src/Logger/File.antt =====
-- The log file and the standard output of a program that has logged several events, and what a
-- reader of lines makes of them.
use hermit_miner.Base.{
  ℕ, ◌≡◌, refl, ◌∙◌, ap, sym, Bool, not, List, [], ◌∷◌, ◌++◌, append_assoc, append-nil, Option,
  some, Bytes, codes, All-append, arith, ◌==◌, ltb, if◌then◌else◌, Bool-cases, inl, inr,
}
use hermit_miner.Config.Json.{JsonValue, object, parse}
use hermit_miner.Logger.Event.{Event, LogLevel, debug_level, info_level, warn_level, err_level}
use hermit_miner.Logger.Line.{
  Output, escape_json_string, json_line, level_str, context_member, log, severity,
}
use hermit_miner.Logger.Lines.{event_members, parse-json_line, escape_json_string-json_escape}
use hermit_miner.Logger.Redact.{redact_sensitive_fields}
use hermit_miner.Logger.Timestamp.{Tm, get_timestamp, get_timestamp-IsPlain}
use hermit_miner.Stratum.Codec.Escape.{IsPlain, NoBreak, json_escape-NoBreak}

-- A call of the logger: the time, whether the file can be opened, and the event.
pub record Call : Type 0 where
  pub now : ℕ
  pub is_open : Bool
  pub event : Event

abbrev pub nothing : Output
nothing = record { file = []; console = [] }

-- The texts of a file up to each of its line breaks.
abbrev grow : ℕ → List Bytes → List Bytes
grow c [] = (c ∷ []) ∷ []
grow c (line ∷ lines) = (c ∷ line) ∷ lines

abbrev pub lines : Bytes → List Bytes
lines [] = []
lines (c ∷ s) = if c == b'\n' then [] ∷ lines s else grow c (lines s)

abbrev pub parse_each : List Bytes → List (Option JsonValue)
parse_each [] = []
parse_each (line ∷ more) = parse line ∷ parse_each more

lines-cons : (line rest : Bytes) → NoBreak line → lines (line ++ b'\n' ∷ rest) ≡ line ∷ lines rest
lines-cons [] rest h = refl
lines-cons (c ∷ line) rest ((n, r), h) = elim (Bool-cases (c == b'\n')) [
  | inl e ↦ absurd (n (ground arith))
  | inr e ↦ rw (e, lines-cons line rest h) refl
]

escaped-NoBreak : (s : Bytes) → NoBreak (escape_json_string s)
escaped-NoBreak s = rw (escape_json_string-json_escape s) (json_escape-NoBreak s)

level_str-NoBreak : (level : LogLevel) → NoBreak (level_str level)
level_str-NoBreak debug_level = grind arith
level_str-NoBreak info_level = grind arith
level_str-NoBreak warn_level = grind arith
level_str-NoBreak err_level = grind arith

plain-NoBreak : (s : Bytes) → IsPlain s → NoBreak s
plain-NoBreak [] h = tt
plain-NoBreak (c ∷ s) ((a, b, n, r, t), h) = ((n, r), plain-NoBreak s h)

-- A piece of constant text, a text, and what follows.
piece :
    (label text rest : Bytes)
    → NoBreak label
    → NoBreak text
    → NoBreak rest
    → NoBreak (label ++ (text ++ rest))
piece label text rest l t r = All-append _ label _ l (All-append _ text _ t r)

context_member-NoBreak : (s : Bytes) → NoBreak s → NoBreak (context_member s)
context_member-NoBreak [] h = grind arith
context_member-NoBreak (c ∷ s) h =
    piece (codes ",\"context\":\"") (c ∷ s) (codes "\"}") (grind arith) h (grind arith)

json_line-NoBreak :
    (timestamp : Bytes) (e : Event) → NoBreak timestamp → NoBreak (json_line timestamp e)
unfolding json_line
json_line-NoBreak timestamp e h = piece (codes "{\"timestamp\":\"") timestamp _ (grind arith) h (
    piece (codes "\",\"level\":\"") (level_str e.level) _ (grind arith) (level_str-NoBreak e.level)
      (piece (codes "\",\"component\":\"") (escape_json_string e.component) _ (grind arith)
        (escaped-NoBreak e.component)
        (piece (codes "\",\"node_id\":\"") (escape_json_string e.node_id) _ (grind arith)
          (escaped-NoBreak e.node_id)
          (piece (codes "\",\"message\":\"")
            (escape_json_string (redact_sensitive_fields e.message)) _ (grind arith)
            (escaped-NoBreak (redact_sensitive_fields e.message))
            (All-append _ (codes "\"") _ (grind arith) (
              context_member-NoBreak (escape_json_string (redact_sensitive_fields e.context))
                (escaped-NoBreak (redact_sensitive_fields e.context))))))))

module _ (level : LogLevel) (gmtime : ℕ → Tm) where
  -- The calls of the program one after the other.
  abbrev pub log_each : List Call → Output → Output
  log_each [] o = o
  log_each (c ∷ calls) o =
      log_each calls (log level (get_timestamp gmtime c.now) c.is_open c.event o)

  abbrev is_loud : Call → Bool
  is_loud c = not (ltb (severity c.event.level) (severity level))

  -- The objects of the events that reach the console.
  abbrev pub logged : List Call → List (Option JsonValue)
  logged [] = []
  logged (c ∷ calls) =
      let more = logged calls in
      if is_loud c
      then some (object (event_members (get_timestamp gmtime c.now) c.event)) ∷ more
      else more

  -- The calls while the file can be opened.
  abbrev pub opened : List Call → List Call
  opened [] = []
  opened (c ∷ calls) = let more = opened calls in if c.is_open then c ∷ more else more

  text : List Call → Bytes
  text [] = []
  text (c ∷ calls) =
      let more = text calls in
      if is_loud c then json_line (get_timestamp gmtime c.now) c.event ++ b'\n' ∷ more else more

  head_read :
      (now : ℕ) (e : Event) (rest : Bytes)
      → parse_each (lines (json_line (get_timestamp gmtime now) e ++ b'\n' ∷ rest))
        ≡ some (object (event_members (get_timestamp gmtime now) e)) ∷ parse_each (lines rest)
  head_read now e rest =
      let plain = get_timestamp-IsPlain gmtime now in
      let stamp = get_timestamp gmtime now in
      ap parse_each (
        lines-cons (json_line stamp e) rest (json_line-NoBreak stamp e (plain-NoBreak stamp plain)))
      ∙ ap (λ v. v ∷ parse_each (lines rest)) (parse-json_line stamp e plain)

  text-logged : (calls : List Call) → parse_each (lines (text calls)) ≡ logged calls
  unfolding text
  text-logged [] = refl
  text-logged (c ∷ calls) = elim (Bool-cases (is_loud c)) [
    | inl loud ↦ rw loud (
        head_read c.now c.event (text calls)
        ∙ ap (λ more. some (object (event_members (get_timestamp gmtime c.now) c.event)) ∷ more)
            (text-logged calls))
    | inr quiet ↦ rw quiet (text-logged calls)
  ]

  -- What one call adds to the console, and to a file that can be opened.
  line_of : Call → Bytes
  line_of c = if is_loud c then json_line (get_timestamp gmtime c.now) c.event ++ b'\n' ∷ [] else []

  text-line_of : (c : Call) (calls : List Call) → text (c ∷ calls) ≡ line_of c ++ text calls
  unfolding text line_of
  text-line_of c calls = elim (Bool-cases (is_loud c)) [
    | inl loud ↦ rw loud (
        sym
          (append_assoc (json_line (get_timestamp gmtime c.now) c.event) (b'\n' ∷ []) (text calls)))
    | inr quiet ↦ rw quiet refl
  ]

  log-line_of :
      (c : Call) (o : Output)
      → log level (get_timestamp gmtime c.now) c.is_open c.event o ≡ record {
        file = o.file ++ (if c.is_open then line_of c else []);
        console = o.console ++ line_of c;
      }
  unfolding log line_of
  log-line_of c o = ground (arith, append-nil o.file, append-nil o.console)

  console_text :
      (calls : List Call) (o : Output) → (log_each calls o).console ≡ o.console ++ text calls
  unfolding text
  console_text [] o = sym (append-nil o.console)
  console_text (c ∷ calls) o =
      console_text calls _ ∙ rw (log-line_of c o, text-line_of c calls, append_assoc) refl

  file_text :
      (calls : List Call) (o : Output) → (log_each calls o).file ≡ o.file ++ text (opened calls)
  unfolding text line_of
  file_text [] o = sym (append-nil o.file)
  file_text (c ∷ calls) o = file_text calls _ ∙ elim (Bool-cases c.is_open) [
    | inl is ↦ rw (log-line_of c o, is, text-line_of c (opened calls), append_assoc) refl
    | inr not_open ↦ rw (log-line_of c o, not_open, append-nil) refl
  ]

  pub log_each-logged :
      (calls : List Call)
      → (parse_each (lines (log_each calls nothing).console) ≡ logged calls)
        × (parse_each (lines (log_each calls nothing).file) ≡ logged (opened calls))
  log_each-logged calls = (
    ap (λ s. parse_each (lines s)) (console_text calls nothing) ∙ text-logged calls,
    ap (λ s. parse_each (lines s)) (file_text calls nothing) ∙ text-logged (opened calls),
  )
