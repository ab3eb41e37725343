-- ===== src/Stratum/Transport.antt =====
-- `send_line`, `receive_line` and `request_response`. What the socket and the clock do is a script:
-- one entry for each round of a loop, and the script ends where the deadline has passed.
pub mod Sent
pub mod Lines
pub mod Responses
pub mod Carried
pub mod Waiting
pub mod Wire
use hermit_miner.Base.{
  ℕ, zero, suc, ◌+◌, Bool, true, false, List, [], ◌∷◌, ◌++◌, Option, none, some, Bytes, codes, ◌==◌,
  ltb, leb, if◌then◌else◌, length, take, drop, not, ◌*◌,
}
use hermit_miner.Logger.Event
use hermit_miner.Logger.Event.{Event}
use hermit_miner.Stratum.Codec.{StratumJob, parse_message_id, parse_notify}

-- The fields that change, with the bytes put on the socket and the calls of the logger.
pub record Client : Type 0 where
  pub node_id : Bytes
  pub next_id : ℕ
  pub connected : Bool
  pub wire : Bytes
  pub log : List Event

abbrev pub max_json_line_bytes : ℕ
max_json_line_bytes = 64 * 1024

abbrev pub with_log : Client → Event → Client
with_log c e = record c { log = c.log ++ (e ∷ []) }

abbrev pub disconnect : Client → Client
disconnect c = record c { connected = false }

-- The loop over `send`: each entry is what one call returns, 0 for an error or a closed socket.
unfoldable pub send_loop : List ℕ → Bytes → Client → Client × Bool
send_loop sends [] c = (c, true)
send_loop [] (b ∷ out) c = (disconnect c, false)
send_loop (sent ∷ sends) (b ∷ out) c = elim (sent == 0) [
  | true ↦ (disconnect c, false)
  | false ↦
      send_loop sends (drop sent (b ∷ out)) (record c { wire = c.wire ++ take sent (b ∷ out) })
]

unfoldable pub send_line : List ℕ → Bytes → Client → Client × Bool
send_line sends line c =
    if not c.connected
    then (c, false)
    else if ltb max_json_line_bytes (length line)
    then (
      disconnect (
          with_log c (
            Event.error (codes "stratum") c.node_id (codes "Outgoing JSON line exceeds size limit")
              [])),
      false,
    )
    else send_loop sends (line ++ b'\n' ∷ []) c

-- One round of the loop of `receive_line`: `select` fails, or nothing is ready within its second, or
-- `recv` fails or finds the socket closed, or one byte is received.
pub data Poll : Type 0 where
  select_failed idle closed : Poll
  received : ℕ → Poll

-- How a call of `receive_line` ends.
pub data Reading : Type 0 where
  full : Bytes → Reading
  timed_out : Bytes → Reading
  lost oversized : Reading

unfoldable pub receive_loop : Bytes → List Poll → Reading
receive_loop out [] = timed_out out
receive_loop out (select_failed ∷ polls) = lost
receive_loop out (idle ∷ polls) = receive_loop out polls
receive_loop out (closed ∷ polls) = lost
receive_loop out (received ch ∷ polls) = elim (ch == b'\n') [
  | true ↦ full out
  | false ↦ elim (ch == b'\r') [
    | true ↦ receive_loop out polls
    | false ↦ elim (leb max_json_line_bytes (length out)) [
      | true ↦ oversized
      | false ↦ receive_loop (out ++ ch ∷ []) polls
    ]
  ]
]

-- `none` is the result false; what `out_line` holds then is read by no caller.
abbrev finish_receive : Client → Reading → Client × Option Bytes
finish_receive c (full line) = (c, some line)
finish_receive c (timed_out out) = (c, none)
finish_receive c lost = (disconnect c, none)
finish_receive c oversized = (
  disconnect (
      with_log c (
        Event.error (codes "stratum") c.node_id (codes "Incoming JSON line exceeded size limit")
          [])),
  none,
)

unfoldable pub receive_line : List Poll → Client → Client × Option Bytes
receive_line polls c = if c.connected then finish_receive c (receive_loop [] polls) else (c, none)

-- Whether a line is the response with the given id.
abbrev pub answers : ℕ → Option ℕ → Bool
answers request_id none = false
answers request_id (some id) = id == request_id

-- A line that is no response: a notification is logged, and nothing is kept of it.
abbrev pub note_other : Client → Option StratumJob → Client
note_other c none = c
note_other c (some job) = with_log c (
    Event.debug (codes "stratum") c.node_id (codes "Buffered notify while awaiting response")
      job.job_id)

-- The loop of `request_response`: one entry for each call of `receive_line`.
unfoldable pub await_response : ℕ → List (List Poll) → Client → Client × Option Bytes
await_response request_id [] c = (c, none)
await_response request_id (polls ∷ calls) c = elim ((receive_line polls c).1) [
  | none ↦ elim ((receive_line polls c).0.connected) [
    | false ↦ ((receive_line polls c).0, none)
    | true ↦ await_response request_id calls (receive_line polls c).0
  ]
  | some line ↦ elim (answers request_id (parse_message_id line)) [
    | true ↦ ((receive_line polls c).0, some line)
    | false ↦
        await_response request_id calls (note_other (receive_line polls c).0 (parse_notify line))
  ]
]

abbrev after_send : ℕ → List (List Poll) → Client × Bool → Client × Option Bytes
after_send request_id calls (c, true) = await_response request_id calls c
after_send request_id calls (c, false) = (c, none)

unfoldable pub request_response : List ℕ → List (List Poll) → Bytes → Client → Client × Option Bytes
request_response sends calls request c = elim (parse_message_id request) [
  | none ↦ (c, none)
  | some request_id ↦ after_send request_id calls (send_line sends request c)
]
