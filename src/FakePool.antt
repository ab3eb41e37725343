-- ===== src/FakePool.antt =====
-- src/fake_pool.cpp: the pool that the program is tried against. The socket gives the bytes that the
-- client sends until it is closed; what the pool sends is the list of its lines, since `main` reads
-- no result of `send_line`.
pub mod Port
pub mod Cycle
pub mod Loop
pub mod Session
pub mod Jobs
pub mod Quotes
pub mod Replies
pub mod Reads
pub mod Serve
pub mod Conversation
pub mod Start
use hermit_miner.Base.{
  ℕ, zero, suc, ◌+◌, Bool, true, false, not, List, [], ◌∷◌, ◌++◌, Option, none, some, Bytes, codes,
  ◌==◌, if◌then◌else◌, contains, u32, take, drop,
}
use hermit_miner.Base.Digits.{Conversion, value, invalid_argument, out_of_range, stoull, to_decimal}
use hermit_miner.Stratum.Patterns.{search_for, id_at}

-- The loop of `send_line` over what the calls of `send` return: the bytes that are put on the
-- socket, and the result.
unfoldable pub send_line_loop : List ℕ → Bytes → Bytes × Bool
send_line_loop sends [] = ([], true)
send_line_loop [] (b ∷ out) = ([], false)
send_line_loop (sent ∷ sends) (b ∷ out) = elim (sent == 0) [
  | true ↦ ([], false)
  | false ↦
      let (wire, done) = send_line_loop sends (drop sent (b ∷ out)) in
      (take sent (b ∷ out) ++ wire, done)
]

unfoldable pub pool_send_line : List ℕ → Bytes → Bytes × Bool
pool_send_line sends line = send_line_loop sends (line ++ b'\n' ∷ [])

-- A line and the bytes behind it, or `none` when the socket is closed before its end.
unfoldable pub pool_receive_line : Bytes → Bytes → Option (Bytes × Bytes)
pool_receive_line out [] = none
pool_receive_line out (ch ∷ stream) = elim (ch == b'\n') [
  | true ↦ some (out, stream)
  | false ↦ elim (ch == b'\r') [
    | true ↦ pool_receive_line out stream
    | false ↦ pool_receive_line (out ++ ch ∷ []) stream
  ]
]

abbrev pub value_or_zero : Conversion → ℕ
value_or_zero (value v _) = v
value_or_zero invalid_argument = 0
value_or_zero out_of_range = 0

unfoldable pub parse_id : Bytes → ℕ
parse_id json = elim (search_for id_at json) [
  | none ↦ 0
  | some digits ↦ value_or_zero (stoull 10 digits)
]

unfoldable pub json_resp : ℕ → Bytes → Bytes → Bytes
json_resp id result error =
    codes "{\"id\":"
    ++ (to_decimal id
        ++ (codes ",\"result\":" ++ (result ++ (codes ",\"error\":" ++ (error ++ codes "}")))))

-- The notification of a job.
unfoldable pub notify_line : ℕ → Bytes
notify_line job_seq =
    codes "{\"id\":null,\"method\":\"mining.notify\",\"params\":[\"job-"
    ++ (to_decimal job_seq
        ++ (codes "\",\"offline-job-" ++ (to_decimal job_seq ++ codes "\",20,true]}")))

-- The two variables of the loop of `main`.
pub record PoolState : Type 0 where
  pub notified : Bool
  pub job_seq : ℕ

abbrev pub pool_start : PoolState
pool_start = record { notified = false; job_seq = 1 }

abbrev pub subscribe_method : Bytes
subscribe_method = codes "\"method\":\"mining.subscribe\""

abbrev pub authorize_method : Bytes
authorize_method = codes "\"method\":\"mining.authorize\""

abbrev pub submit_method : Bytes
submit_method = codes "\"method\":\"mining.submit\""

-- The result of a subscription.
abbrev pub subscribe_result : Bytes
subscribe_result = codes "[[\"mining.notify\",\"deadbeef\"],\"abcdef01\",4]"

abbrev pub authorize_reply : PoolState → ℕ → PoolState × List Bytes
authorize_reply s id =
    if s.notified then (s, json_resp id (codes "true") (codes "null") ∷ []) else (
      record s { notified = true },
      json_resp id (codes "true") (codes "null") ∷ notify_line s.job_seq ∷ [],
    )

abbrev pub submit_reply : PoolState → ℕ → PoolState × List Bytes
submit_reply s id =
    let job_seq = u32 (s.job_seq + 1) in
    (
      record s { job_seq = job_seq },
      json_resp id (codes "true") (codes "null") ∷ notify_line job_seq ∷ [],
    )

-- One round of the loop behind `receive_line`.
unfoldable pub handle : PoolState → Bytes → PoolState × List Bytes
handle s line =
    let id = parse_id line in
    if contains subscribe_method line
    then (s, json_resp id subscribe_result (codes "null") ∷ [])
    else if contains authorize_method line
    then authorize_reply s id
    else if contains submit_method line
    then submit_reply s id
    else (s, json_resp id (codes "false") (codes "[20,\"unknown method\",null]") ∷ [])

-- The loop over what the client sends, for at most so many lines; the truth value says that the
-- socket was closed.
unfoldable pub serve : ℕ → PoolState → Bytes → Bool × PoolState × List Bytes
serve zero s stream = (false, s, [])
serve (suc rounds) s stream = elim (pool_receive_line [] stream) [
  | none ↦ (true, s, [])
  | some (line, rest) ↦
      let (s', replies) = handle s line in
      let (closed, end, more) = serve rounds s' rest in (closed, end, replies ++ more)
]

-- What `socket`, `bind`, `listen` and `accept` return: whether they succeed.
pub record Setup : Type 0 where
  pub created : Bool
  pub bound : Bool
  pub listening : Bool
  pub accepted : Bool

pub data Socket : Type 0 where
  server_fd client_fd : Socket

-- The end of `main`: its code, the sockets that it has closed, in this order, and the lines it sent.
pub record Shutdown : Type 0 where
  pub code : ℕ
  pub closed : List Socket
  pub sent : List Bytes

-- Behind the loop, which has ended if the socket of the client was closed.
abbrev pub shut : Bool × PoolState × List Bytes → Option Shutdown
shut (true, s, sent) = some (record { code = 0; closed = client_fd ∷ server_fd ∷ []; sent = sent })
shut (false, s, sent) = none

unfoldable pub pool_main : Setup → ℕ → Bytes → Option Shutdown
pool_main setup rounds stream =
    if not setup.created
    then some (record { code = 2; closed = []; sent = [] })
    else if not setup.bound
    then some (record { code = 3; closed = server_fd ∷ []; sent = [] })
    else if not setup.listening
    then some (record { code = 4; closed = server_fd ∷ []; sent = [] })
    else if not setup.accepted
    then some (record { code = 5; closed = server_fd ∷ []; sent = [] })
    else shut (serve rounds pool_start stream)
