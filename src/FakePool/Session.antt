-- ===== src/FakePool/Session.antt =====
-- A whole session of the runtime against the pool: what the client sends is what the pool answers,
-- and the share of the job that the pool notifies is accepted.
use hermit_miner.Base.{
  ℕ, ◌+◌, ◌<◌, ◌≤◌, ◌^◌, ◌≡◌, refl, ap, ◌∙◌, Bool, true, List, [], ◌∷◌, ◌++◌, some, Bytes, codes,
  length, u64,
}
use hermit_miner.FakePool.Conversation.{answer-NoBreak, answer-length}
use hermit_miner.FakePool.Reads.{json_resp-reads}
use hermit_miner.FakePool.{json_resp, subscribe_result}
use hermit_miner.Logger.Event
use hermit_miner.Stratum.Connect.{Address, pool_address, connect_to_pool, try_addresses}
use hermit_miner.Stratum.Client.{
  Exchange, say, bump, subscribe, authorize, submit_share, subscribed, authorized, submitted,
}
use hermit_miner.Stratum.Codec.Escape.{NoBreak}
use hermit_miner.Stratum.Codec.Ids.{parse_message_id-request}
use hermit_miner.Stratum.Codec.{
  StratumJob, parse_message_id, nonce_to_hex, subscribe_request, authorize_request, submit_request,
}
use hermit_miner.Stratum.Transport.Lines.{Delivers}
use hermit_miner.Stratum.Transport.Waiting.{Before, whole, noted, request_response-noted}
use hermit_miner.Stratum.Transport.{
  Client, Poll, with_log, send_line, request_response, max_json_line_bytes,
}

-- An exchange in which the request is sent in full, whatever the client is, and the reply is
-- delivered behind what comes before it.
pub record Served (request reply : Bytes) (id : ℕ) (x : Exchange) : Type 0 where
  pub sent : (c : Client) → c.connected ≡ true → (send_line x.sends request c).1 ≡ true
  pub before : List (List Poll)
  pub jobs : List StratumJob
  pub last : List Poll
  pub after : List (List Poll)
  pub script : x.calls ≡ before ++ last ∷ after
  pub early : Before id before jobs
  pub late : Delivers last (reply ++ b'\n' ∷ [])

-- A connected client with its next id and what it has put on the socket.
pub record Stands (id : ℕ) (wire : Bytes) (c : Client) : Type 0 where
  pub on : c.connected ≡ true
  pub counted : c.next_id ≡ id
  pub wired : c.wire ≡ wire

noted-Stands :
    (jobs : List StratumJob) (id : ℕ) (wire : Bytes) (c : Client)
    → Stands id wire c
    → Stands id wire (noted jobs c)
noted-Stands [] id wire c s = s
noted-Stands (job ∷ jobs) id wire c s =
    noted-Stands jobs id wire _ (record { on = s.on; counted = s.counted; wired = s.wired })

-- The client behind a request with the reply to it.
abbrev behind : List StratumJob → Bytes → Client → Client
behind jobs request c = noted jobs (record (bump c) { wire = c.wire ++ (request ++ b'\n' ∷ []) })

behind-Stands :
    (jobs : List StratumJob) (request : Bytes) (id : ℕ) (wire : Bytes) (c : Client)
    → Stands id wire c
    → Stands (u64 (id + 1)) (wire ++ (request ++ b'\n' ∷ [])) (behind jobs request c)
behind-Stands jobs request id wire c s =
    noted-Stands jobs (u64 (id + 1)) (wire ++ (request ++ b'\n' ∷ [])) _ (record {
      on = s.on;
      counted = ap (λ n. u64 (n + 1)) s.counted;
      wired = ap (λ t. t ++ (request ++ b'\n' ∷ [])) s.wired;
    })

replied :
    (request reply : Bytes) (id : ℕ) (x : Exchange) (c : Client) (v : Served request reply id x)
    → c.connected ≡ true
    → parse_message_id request ≡ some id
    → parse_message_id reply ≡ some id
    → NoBreak reply
    → length reply ≤ max_json_line_bytes
    → request_response x.sends x.calls request (bump c) ≡ (behind v.jobs request c, some reply)
replied request reply id x c v on asks answers n le =
    ap (λ calls. request_response x.sends calls request (bump c)) v.script
    ∙ request_response-noted x.sends v.before v.after request reply id (bump c) v.jobs v.last asks
        (v.sent (bump c) on) v.early (whole reply n le v.late) answers

-- The log does not count.
pub said :
    {id : ℕ} {wire : Bytes} {c : Client} (event : Event.Event)
    → Stands id wire c
    → Stands id wire (with_log c event)
said event s = record { on = s.on; counted = s.counted; wired = s.wired }

-- What an operation gives that succeeds: the client behind it.
pub record Succeeds (id : ℕ) (wire : Bytes) (r : Client × Bool) : Type 0 where
  pub client : Client
  pub result : r ≡ (client, true)
  pub stands : Stands id wire client

pub subscribe-Succeeds :
    (agent : Bytes) (x : Exchange) (c : Client) (wire : Bytes) (id : ℕ)
    → id < 2 ^ 64
    → Stands id wire c
    → Served (subscribe_request id agent) (json_resp id subscribe_result (codes "null")) id x
    → Succeeds
        (u64 (id + 1))
        (wire ++ (subscribe_request id agent ++ b'\n' ∷ []))
        (subscribe x agent c)
unfolding subscribe
subscribe-Succeeds agent x c wire id small s v =
    let asks = (parse_message_id-request id agent [] [] [] 0 small).0 in
    let reads = json_resp-reads id small in
    let got =
      replied (subscribe_request id agent) _ id x c v s.on asks reads.2 (answer-NoBreak id).1
        (answer-length id small).1 in
    let request = subscribe_request id agent in
    record {
      client = say Event.info (codes "Subscribe OK") [] (behind v.jobs request c);
      result =
          ap
            (λ n.
              subscribed (request_response x.sends x.calls (subscribe_request n agent) (bump c)))
            s.counted
          ∙ ap subscribed got
          ∙ rw (reads.3, subscribed) refl;
      stands = said _ (behind-Stands v.jobs request id wire c s);
    }

pub authorize-Succeeds :
    (username password : Bytes) (x : Exchange) (c : Client) (wire : Bytes) (id : ℕ)
    → id < 2 ^ 64
    → Stands id wire c
    → Served
        (authorize_request id username password)
        (json_resp id (codes "true") (codes "null"))
        id
        x
    → Succeeds
        (u64 (id + 1))
        (wire ++ (authorize_request id username password ++ b'\n' ∷ []))
        (authorize x username password c)
unfolding authorize
authorize-Succeeds username password x c wire id small s v =
    let request = authorize_request id username password in
    let asks = (parse_message_id-request id [] username password [] 0 small).1 in
    let reads = json_resp-reads id small in
    let got =
      replied request _ id x c v s.on asks reads.0 (answer-NoBreak id).0
        (answer-length id small).0 in
    record {
      client = say Event.info (codes "Authorize OK") username (behind v.jobs request c);
      result =
          ap
            (λ n.
              authorized username
                (request_response x.sends x.calls (authorize_request n username password) (bump c)))
            s.counted
          ∙ ap (authorized username) got
          ∙ rw (reads.1, authorized) refl;
      stands = said _ (behind-Stands v.jobs request id wire c s);
    }

pub submit_share-Succeeds :
    (username job_id : Bytes) (nonce : ℕ) (x : Exchange) (c : Client) (wire : Bytes) (id : ℕ)
    → id < 2 ^ 64
    → Stands id wire c
    → Served
        (submit_request id username job_id nonce)
        (json_resp id (codes "true") (codes "null"))
        id
        x
    → Succeeds
        (u64 (id + 1))
        (wire ++ (submit_request id username job_id nonce ++ b'\n' ∷ []))
        (submit_share x username job_id nonce c)
unfolding submit_share
submit_share-Succeeds username job_id nonce x c wire id small s v =
    let request = submit_request id username job_id nonce in
    let asks = (parse_message_id-request id [] username [] job_id nonce small).2 in
    let reads = json_resp-reads id small in
    let got =
      replied request _ id x c v s.on asks reads.0 (answer-NoBreak id).0
        (answer-length id small).0 in
    record {
      client =
          say Event.info (codes "Share accepted") (job_id ++ (b':' ∷ nonce_to_hex nonce))
            (behind v.jobs request c);
      result =
          ap
            (λ n.
              submitted job_id (nonce_to_hex nonce) (
                request_response x.sends x.calls (submit_request n username job_id nonce) (bump c)))
            s.counted
          ∙ ap (submitted job_id (nonce_to_hex nonce)) got
          ∙ rw (reads.1, submitted) refl;
      stands = said _ (behind-Stands v.jobs request id wire c s);
    }

pub connect-Succeeds :
    (host : Bytes) (port : ℕ) (addrs : List Address) (c : Client)
    → c.next_id ≡ 1
    → c.wire ≡ []
    → (try_addresses addrs).reached_one ≡ true
    → Succeeds 1 [] (connect_to_pool host port addrs c)
unfolding connect_to_pool try_addresses
connect-Succeeds host port [] c n e r = absurd (cc)
connect-Succeeds host port (a ∷ addrs) c n e r = record {
  client =
      with_log (record c { connected = true })
        (Event.info (codes "stratum") c.node_id (codes "Connected to pool")
          (pool_address host port));
  result = rw (r, connect_to_pool) refl;
  stands = said _ (record { on = refl; counted = n; wired = e });
}
