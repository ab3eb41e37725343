-- ===== src/Stratum/Client.antt =====
-- The operations of the client that the miner calls, each on a connected socket. Every one of them
-- gives the client that it leaves and its result.
pub mod Ids
pub mod Offered
pub mod Waiting
pub mod Wire
use hermit_miner.Base.{
  ℕ, ◌+◌, Bool, true, false, not, ◌&&◌, ◌||◌, List, [], ◌∷◌, ◌++◌, Option, none, some, Bytes, codes,
  if◌then◌else◌, u64,
}
use hermit_miner.Logger.Event
use hermit_miner.Stratum.Codec.{
  StratumJob, parse_bool_result, parse_error_is_null, parse_notify, nonce_to_hex, subscribe_request,
  authorize_request, submit_request,
}
use hermit_miner.Stratum.Transport.{Client, Poll, with_log, receive_line, request_response}

-- What the socket does during one operation that sends a request.
pub record Exchange : Type 0 where
  pub sends : List ℕ
  pub calls : List (List Poll)

-- `next_id_++`
abbrev pub bump : Client → Client
bump c = record c { next_id = u64 (c.next_id + 1) }

abbrev exchange : Exchange → Bytes → Client → Client × Option Bytes
exchange x request c = request_response x.sends x.calls request (bump c)

abbrev pub say : (Bytes → Bytes → Bytes → Bytes → Event.Event) → Bytes → Bytes → Client → Client
say level message context c = with_log c (level (codes "stratum") c.node_id message context)

abbrev pub subscribed : Client × Option Bytes → Client × Bool
subscribed (c, none) = (say Event.error (codes "Subscribe request timed out") [] c, false)
subscribed (c, some resp) =
    if parse_error_is_null resp
    then (say Event.info (codes "Subscribe OK") [] c, true)
    else (say Event.error (codes "Subscribe returned error") resp c, false)

unfoldable pub subscribe : Exchange → Bytes → Client → Client × Bool
subscribe x user_agent c = subscribed (exchange x (subscribe_request c.next_id user_agent) c)

-- `parse_bool_result(resp, accepted) && accepted`
abbrev pub is_accepted : Option Bool → Bool
is_accepted none = false
is_accepted (some b) = b

abbrev pub authorized : Bytes → Client × Option Bytes → Client × Bool
authorized username (c, none) = (say Event.error (codes "Authorize request timed out") [] c, false)
authorized username (c, some resp) =
    if is_accepted (parse_bool_result resp)
    then (say Event.info (codes "Authorize OK") username c, true)
    else (say Event.error (codes "Authorize rejected") resp c, false)

unfoldable pub authorize : Exchange → Bytes → Bytes → Client → Client × Bool
authorize x username password c =
    authorized username (exchange x (authorize_request c.next_id username password) c)

abbrev pub judged : Bytes → Bytes → Bytes → Client → Option Bool → Client × Bool
judged job_id nonce_hex resp c none =
    (say Event.error (codes "Submit response parse failed") resp c, false)
judged job_id nonce_hex resp c (some true) =
    (say Event.info (codes "Share accepted") (job_id ++ (b':' ∷ nonce_hex)) c, true)
judged job_id nonce_hex resp c (some false) =
    (say Event.warn (codes "Share rejected") resp c, false)

abbrev pub submitted : Bytes → Bytes → Client × Option Bytes → Client × Bool
submitted job_id nonce_hex (c, none) =
    (say Event.error (codes "Submit request timed out") nonce_hex c, false)
submitted job_id nonce_hex (c, some resp) = judged job_id nonce_hex resp c (parse_bool_result resp)

unfoldable pub submit_share : Exchange → Bytes → Bytes → ℕ → Client → Client × Bool
submit_share x username job_id nonce c =
    submitted job_id (nonce_to_hex nonce)
      (exchange x (submit_request c.next_id username job_id nonce) c)

-- One round of `wait_for_job`: whether a stop is requested, and the call of `receive_line`.
pub record Wait : Type 0 where
  pub stop_requested : Bool
  pub polls : List Poll

-- The loop of `wait_for_job`; `none` is the result false.
unfoldable pub wait_for_job : List Wait → Client → Client × Option StratumJob
wait_for_job [] c = (say Event.warn (codes "Timeout waiting for mining.notify") [] c, none)
wait_for_job (w ∷ waits) c = elim (w.stop_requested) [
  | true ↦ (say Event.info (codes "Stop requested while waiting for job") [] c, none)
  | false ↦ elim ((receive_line w.polls c).1) [
    | none ↦ elim ((receive_line w.polls c).0.connected) [
      | false ↦ (
        say Event.warn (codes "Connection lost while waiting for mining.notify") []
            (receive_line w.polls c).0,
        none,
      )
      | true ↦ wait_for_job waits (receive_line w.polls c).0
    ]
    | some line ↦ elim (parse_notify line) [
      | some job ↦ (
        say Event.info (codes "Received mining.notify") job.job_id (receive_line w.polls c).0,
        some job,
      )
      | none ↦ wait_for_job waits (receive_line w.polls c).0
    ]
  ]
]
