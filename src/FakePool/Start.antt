-- ===== src/FakePool/Start.antt =====
-- The first two requests of a session, which the pool answers so that the client goes on.
use hermit_miner.Base.{
  ℕ, ◌<◌, ◌^◌, ◌≡◌, refl, sym, ap, ◌∙◌, Bool-cases, inl, inr, true, List, [], ◌∷◌, ◌++◌, Bytes,
  codes,
}
use hermit_miner.FakePool.Conversation.{answer-NoBreak, answer-length, cons_head}
use hermit_miner.FakePool.Reads.{json_resp-reads}
use hermit_miner.FakePool.Replies.{handle-request}
use hermit_miner.FakePool.{PoolState, handle, json_resp, authorize_reply}
use hermit_miner.Stratum.Client.{bump, subscribe, authorize}
use hermit_miner.Stratum.Codec.Ids.{parse_message_id-request}
use hermit_miner.Stratum.Codec.{StratumJob, subscribe_request, authorize_request}
use hermit_miner.Stratum.Transport.Waiting.{Before, whole, request_response-late}
use hermit_miner.Stratum.Transport.Lines.{Delivers}
use hermit_miner.Stratum.Transport.{Client, Poll, send_line}

-- When a client with an id below 2^64 has sent a subscription in full to the pool, and the pool's
-- answer is delivered, behind any number of calls that hear nothing, a part of a line, or a line
-- without that id, the client is subscribed.
pub subscribe-pool :
    (s : PoolState) (c : Client) (user_agent : Bytes) (sends : List ℕ) {before : List (List Poll)}
    {jobs : List StratumJob} (last : List Poll) (after : List (List Poll)) (reply : Bytes)
    (more : List Bytes)
    → c.next_id < 2 ^ 64
    → (send_line sends (subscribe_request c.next_id user_agent) (bump c)).1 ≡ true
    → (handle s (subscribe_request c.next_id user_agent)).1 ≡ reply ∷ more
    → Before c.next_id before jobs
    → Delivers last (reply ++ b'\n' ∷ [])
    → (subscribe (record { sends = sends; calls = before ++ last ∷ after }) user_agent c).1 ≡ true
unfolding subscribe
subscribe-pool s c user_agent sends {before} {jobs} last after reply more small sent answer b d =
    let id = c.next_id in
    let asks = (parse_message_id-request id user_agent [] [] [] 0 small).0 in
    let handled = (handle-request s id user_agent [] [] [] 0 small).0 in
    let same = sym (cons_head (sym (ap (λ r. r.1) handled) ∙ answer)) in
    let reads = json_resp-reads id small in
    let got =
      request_response-late sends before after (subscribe_request id user_agent) reply id (bump c)
        jobs last asks sent b
        (whole reply (rw same (answer-NoBreak id).1) (rw same (answer-length id small).1) d)
        (rw same reads.2) in
    rw (got, same, reads.3) refl

-- The first line of the answer to an authorization.
authorized_first :
    (s : PoolState) (id : ℕ) (reply : Bytes) (more : List Bytes)
    → (authorize_reply s id).1 ≡ reply ∷ more
    → json_resp id (codes "true") (codes "null") ≡ reply
authorized_first s id reply more e = elim (Bool-cases s.notified) [
  | inl t ↦ cons_head (rw (t, authorize_reply) at e)
  | inr n ↦ cons_head (rw (n, authorize_reply) at e)
]

-- When a client with an id below 2^64 has sent an authorization in full to the pool, and the first
-- line of the pool's answer is delivered, behind any number of calls that hear nothing, a part of a
-- line, or a line without that id, the client is authorized.
pub authorize-pool :
    (s : PoolState) (c : Client) (username password : Bytes) (sends : List ℕ)
    {before : List (List Poll)} {jobs : List StratumJob} (last : List Poll)
    (after : List (List Poll)) (reply : Bytes) (more : List Bytes)
    → c.next_id < 2 ^ 64
    → (send_line sends (authorize_request c.next_id username password) (bump c)).1 ≡ true
    → (handle s (authorize_request c.next_id username password)).1 ≡ reply ∷ more
    → Before c.next_id before jobs
    → Delivers last (reply ++ b'\n' ∷ [])
    → (authorize (record { sends = sends; calls = before ++ last ∷ after }) username password c).1
      ≡ true
unfolding authorize
authorize-pool s c username password sends {before} {jobs} last after reply more small sent answer b
      d =
    let id = c.next_id in
    let asks = (parse_message_id-request id [] username password [] 0 small).1 in
    let handled = (handle-request s id [] username password [] 0 small).1 in
    let same = sym (authorized_first s id reply more (sym (ap (λ r. r.1) handled) ∙ answer)) in
    let reads = json_resp-reads id small in
    let got =
      request_response-late sends before after (authorize_request id username password) reply id
        (bump c) jobs last asks sent b
        (whole reply (rw same (answer-NoBreak id).0) (rw same (answer-length id small).0) d)
        (rw same reads.0) in
    rw (got, same, reads.1) refl
