-- ===== src/Stratum/Transport/Waiting.antt =====
-- A request whose response comes late: what the client hears before it.
use hermit_miner.Base.{
  ℕ, ◌≡◌, ◌≢◌, refl, ◌∙◌, ap, Bool, true, false, List, [], ◌∷◌, ◌++◌, Option, none, some, arith,
  Bytes, length, ◌≤◌, codes, sym, append-nil, append_assoc, ◌==◌, Bool-cases, inl, inr,
}
use hermit_miner.Logger.Event
use hermit_miner.Stratum.Codec.Escape.{NoBreak}
use hermit_miner.Stratum.Codec.{StratumJob, parse_message_id, parse_notify}
use hermit_miner.Stratum.Transport.Sent.{send_line-true}
use hermit_miner.Stratum.Transport.Lines.{
  Arrived, Delivers, receive_line-Delivers, receive_line_partial,
}
use hermit_miner.Stratum.Transport.{
  Client, Poll, answers, note_other, send_line, receive_line, max_json_line_bytes, await_response,
  after_send, request_response,
}

-- What one call of `receive_line` gives on an intact connection: a line that arrives in whole before
-- the deadline, or nothing when the deadline comes first.
pub data Hears : List Poll → Option Bytes → Type 0 where
  silence :
      {polls : List Poll} {s : Bytes}
      → Arrived polls s
      → NoBreak s
      → length s ≤ max_json_line_bytes
      → Hears polls none
  whole :
      {polls : List Poll} (line : Bytes)
      → NoBreak line
      → length line ≤ max_json_line_bytes
      → Delivers polls (line ++ b'\n' ∷ [])
      → Hears polls (some line)

pub receive_line-Hears :
    {polls : List Poll} {o : Option Bytes} (c : Client)
    → c.connected ≡ true
    → Hears polls o
    → receive_line polls c ≡ (c, o)
receive_line-Hears c on (silence {polls} {s} a n le) = receive_line_partial s c on n le a
receive_line-Hears c on (whole line n le d) = receive_line-Delivers line c on n le d

-- Calls before the response to the request `id`, and the jobs of the notifications among them.
pub data Before (id : ℕ) : List (List Poll) → List StratumJob → Type 0 where
  nothing : Before id [] []
  quiet :
      {polls : List Poll} {calls : List (List Poll)} {jobs : List StratumJob}
      → Hears polls none
      → Before id calls jobs
      → Before id (polls ∷ calls) jobs
  other :
      {polls : List Poll} {calls : List (List Poll)} {jobs : List StratumJob} (line : Bytes)
      → Hears polls (some line)
      → parse_message_id line ≢ some id
      → parse_notify line ≡ none
      → Before id calls jobs
      → Before id (polls ∷ calls) jobs
  notified :
      {polls : List Poll} {calls : List (List Poll)} {jobs : List StratumJob} (line : Bytes)
      (job : StratumJob)
      → Hears polls (some line)
      → parse_message_id line ≢ some id
      → parse_notify line ≡ some job
      → Before id calls jobs
      → Before id (polls ∷ calls) (job ∷ jobs)

-- The client with a line of the log for each job.
abbrev pub noted : List StratumJob → Client → Client
noted [] c = c
noted (job ∷ jobs) c = noted jobs (note_other c (some job))

answers_other : (id : ℕ) (o : Option ℕ) → o ≢ some id → answers id o ≡ false
answers_other id none h = refl
answers_other id (some n) h = elim (Bool-cases (n == id)) [
  | inl e ↦ absurd (h (ap some (ground arith)))
  | inr e ↦ e
]

answers_own : (id : ℕ) (o : Option ℕ) → o ≡ some id → answers id o ≡ true
answers_own id o h = rw h (ground arith)

module _ (id : ℕ) where
  await_quiet :
      (polls : List Poll) (calls : List (List Poll)) (c : Client)
      → c.connected ≡ true
      → receive_line polls c ≡ (c, none)
      → await_response id (polls ∷ calls) c ≡ await_response id calls c
  unfolding await_response
  await_quiet polls calls c on got =
      let same = ap (λ r. r.0) got in
      let nothing_got = ap (λ r. r.1) got in
      let still : (receive_line polls c).0.connected ≡ true = ap (λ r. r.connected) same ∙ on in
      rw (await_response, nothing_got, still) (ap (await_response id calls) same)

  await_other :
      (polls : List Poll) (calls : List (List Poll)) (c : Client) (line : Bytes)
      → receive_line polls c ≡ (c, some line)
      → parse_message_id line ≢ some id
      → await_response id (polls ∷ calls) c
        ≡ await_response id calls (note_other c (parse_notify line))
  unfolding await_response
  await_other polls calls c line got ne =
      let same = ap (λ r. r.0) got in
      let line_got = ap (λ r. r.1) got in
      rw (await_response, line_got, answers_other id (parse_message_id line) ne)
        (ap (λ d. await_response id calls (note_other d (parse_notify line))) same)

  await_own :
      (polls : List Poll) (calls : List (List Poll)) (c : Client) (line : Bytes)
      → receive_line polls c ≡ (c, some line)
      → parse_message_id line ≡ some id
      → await_response id (polls ∷ calls) c ≡ (c, some line)
  unfolding await_response
  await_own polls calls c line got e =
      let same = ap (λ r. r.0) got in
      let line_got = ap (λ r. r.1) got in
      rw (await_response, line_got, answers_own id (parse_message_id line) e)
        (ap (λ d. (d, some line)) same)

  await_response-Before :
      {before : List (List Poll)} {jobs : List StratumJob}
      → Before id before jobs
      → (last : List Poll) (after : List (List Poll)) (line : Bytes) (c : Client)
      → c.connected ≡ true
      → Hears last (some line)
      → parse_message_id line ≡ some id
      → await_response id (before ++ last ∷ after) c ≡ (noted jobs c, some line)
  await_response-Before nothing last after line c on h e =
      await_own last after c line (receive_line-Hears c on h) e
  await_response-Before (quiet {polls} {calls} {jobs} q b) last after line c on h e =
      await_quiet polls (calls ++ last ∷ after) c on (receive_line-Hears c on q)
      ∙ await_response-Before b last after line c on h e
  await_response-Before (other {polls} {calls} {jobs} l q ne unread b) last after line c on h e =
      await_other polls (calls ++ last ∷ after) c l (receive_line-Hears c on q) ne
      ∙ ap (λ n. await_response id (calls ++ last ∷ after) (note_other c n)) unread
      ∙ await_response-Before b last after line c on h e
  await_response-Before (notified {polls} {calls} {jobs} l job q ne is b) last after line c on h e =
      await_other polls (calls ++ last ∷ after) c l (receive_line-Hears c on q) ne
      ∙ ap (λ n. await_response id (calls ++ last ∷ after) (note_other c n)) is
      ∙ await_response-Before b last after line (note_other c (some job)) on h e

after_send-true :
    (id : ℕ) (calls : List (List Poll)) (r : Client × Bool) (c : Client)
    → r.0 ≡ c
    → r.1 ≡ true
    → after_send id calls r ≡ await_response id calls c
after_send-true id calls (c', true) c e t = ap (await_response id calls) e
after_send-true id calls (c', false) c e t = cc

pub request_response-noted :
    (sends : List ℕ) (before after : List (List Poll)) (request line : Bytes) (id : ℕ) (c : Client)
    (jobs : List StratumJob) (last : List Poll)
    → parse_message_id request ≡ some id
    → (send_line sends request c).1 ≡ true
    → Before id before jobs
    → Hears last (some line)
    → parse_message_id line ≡ some id
    → request_response sends (before ++ last ∷ after) request c
      ≡ (noted jobs (record c { wire = c.wire ++ (request ++ b'\n' ∷ []) }), some line)
unfolding request_response
request_response-noted sends before after request line id c jobs last asks sent b h e =
    let (left, on, _) = send_line-true sends request c sent in
    let c' = record c { wire = c.wire ++ (request ++ b'\n' ∷ []) } in
    rw (asks, request_response)
      (after_send-true id (before ++ last ∷ after) (send_line sends request c) c' left sent
        ∙ await_response-Before id b last after line c' on h e)

-- What the log gets of the notifications: an entry for each, with the name of its job.
abbrev pub notes : Bytes → List StratumJob → List Event.Event
notes node_id [] = []
notes node_id (job ∷ jobs) =
    record {
      level = Event.debug_level;
      component = codes "stratum";
      node_id = node_id;
      message = codes "Buffered notify while awaiting response";
      context = job.job_id;
    }
    ∷ notes node_id jobs

noted_lem :
    (jobs : List StratumJob) (c : Client)
    → noted jobs c ≡ record c { log = c.log ++ notes c.node_id jobs }
noted_lem [] c = ap (λ l. record c { log = l }) (sym (append-nil c.log))
noted_lem (job ∷ jobs) c =
    let c' = note_other c (some job) in
    noted_lem jobs c' ∙ ap (λ l. record c { log = l }) (append_assoc c.log _ (notes c.node_id jobs))

-- When a request with an id is sent in full, and a line with that id comes at last, behind any number
-- of calls that hear nothing, only a part of a line, or a line without that id, it is the response.
-- Nothing of the client changes but its wire, which gets the request and a line break, and its log,
-- which gets one entry with the name of the job for each notification that comes before the response.
pub request_response-late :
    (sends : List ℕ) (before after : List (List Poll)) (request line : Bytes) (id : ℕ) (c : Client)
    (jobs : List StratumJob) (last : List Poll)
    → parse_message_id request ≡ some id
    → (send_line sends request c).1 ≡ true
    → Before id before jobs
    → Hears last (some line)
    → parse_message_id line ≡ some id
    → request_response sends (before ++ last ∷ after) request c ≡ (
      record c { wire = c.wire ++ (request ++ b'\n' ∷ []); log = c.log ++ notes c.node_id jobs },
      some line,
    )
request_response-late sends before after request line id c jobs last asks sent b h e =
    request_response-noted sends before after request line id c jobs last asks sent b h e
    ∙ ap (λ d. (d, some line)) (noted_lem jobs _)
