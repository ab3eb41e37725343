-- ===== src/FakePool/Conversation.antt =====
-- The client and the pool together: what the client sends, what comes back, and what it makes of it.
use hermit_miner.Base.{
  ℕ, zero, suc, ◌-◌, ◌<◌, ◌≤◌, ◌^◌, ◌≡◌, ◌≢◌, refl, ◌∙◌, sym, ap, Bool, true, List, [], ◌∷◌, ◌++◌,
  Bytes, codes, arith, All-append, length, length-append, replicate,
}
use hermit_miner.Base.Digits.Print.{to_radix-All}
use hermit_miner.Base.Digits.{to_decimal, to_radix, digit_char}
use hermit_miner.FakePool.Replies.{handle-request}
use hermit_miner.FakePool.Serve.{receive_line_whole}
use hermit_miner.FakePool.{
  PoolState, pool_start, pool_receive_line, handle, serve, json_resp, notify_line, subscribe_result,
}
use hermit_miner.Stratum.Codec.Escape.{NoBreak, json_escape-NoBreak}
use hermit_miner.FakePool.Reads.{json_resp-reads}
use hermit_miner.Base.Digits.Print.{to_decimal_length}
use hermit_miner.Stratum.Client.{bump, submit_share}
use hermit_miner.Stratum.Codec.Ids.{parse_message_id-request}
use hermit_miner.Stratum.Transport.Waiting.{Before, whole, request_response-late}
use hermit_miner.Stratum.Transport.Lines.{Delivers}
use hermit_miner.Stratum.Transport.{Client, Poll, send_line, max_json_line_bytes}
use hermit_miner.Stratum.Codec.{
  StratumJob, nonce_to_hex, subscribe_request, authorize_request, submit_request,
}

digit-NoBreak : (d : ℕ) → d < 16 → (digit_char d ≢ b'\n') × (digit_char d ≢ b'\r')
unfolding digit_char
digit-NoBreak d h = ground arith

pub decimal-NoBreak : (n : ℕ) → NoBreak (to_decimal n)
decimal-NoBreak n =
    to_radix-All _ 10 (omega arith) (λ d h. digit-NoBreak d (omega arith)) n (grind arith)

zeros-NoBreak : (n : ℕ) → NoBreak (replicate n b'0')
zeros-NoBreak zero = tt
zeros-NoBreak (suc n) = (grind arith, zeros-NoBreak n)

nonce-NoBreak : (nonce : ℕ) → NoBreak (nonce_to_hex nonce)
unfolding nonce_to_hex
nonce-NoBreak nonce =
    All-append _ (replicate (8 - length (to_radix 16 nonce)) b'0') (to_radix 16 nonce)
      (zeros-NoBreak (8 - length (to_radix 16 nonce)))
      (to_radix-All _ 16 (omega arith) digit-NoBreak nonce (grind arith))

-- Whatever texts the client puts into a request, the request is one line.
pub request-NoBreak :
    (id : ℕ) (user_agent username password job_id : Bytes) (nonce : ℕ)
    → NoBreak (subscribe_request id user_agent)
      × NoBreak (authorize_request id username password)
      × NoBreak (submit_request id username job_id nonce)
unfolding subscribe_request authorize_request submit_request
request-NoBreak id user_agent username password job_id nonce =
    let join = All-append (λ c. (c ≢ b'\n') × (c ≢ b'\r')) in
    let number = decimal-NoBreak id in
    (
      (join (codes "{\"id\":") _ (grind arith) (
          join _ _ number (
            join (codes ",\"method\":\"mining.subscribe\",\"params\":[\"") _ (grind arith)
              (join _ _ (json_escape-NoBreak user_agent) (grind arith))))),
      (join (codes "{\"id\":") _ (grind arith) (
          join _ _ number (
            join (codes ",\"method\":\"mining.authorize\",\"params\":[\"") _ (grind arith) (
              join _ _ (json_escape-NoBreak username) (
                join (codes "\",\"") _ (grind arith)
                  (join _ _ (json_escape-NoBreak password) (grind arith))))))),
      (join (codes "{\"id\":") _ (grind arith) (
          join _ _ number (
            join (codes ",\"method\":\"mining.submit\",\"params\":[\"") _ (grind arith) (
              join _ _ (json_escape-NoBreak username) (
                join (codes "\",\"") _ (grind arith) (
                  join _ _ (json_escape-NoBreak job_id) (
                    join (codes "\",\"") _ (grind arith)
                      (join _ _ (nonce-NoBreak nonce) (grind arith))))))))),
    )

-- The answer to an authorization or a share, and the one to a subscription, are lines that the
-- client accepts.
pub answer-NoBreak :
    (id : ℕ)
    → NoBreak (json_resp id (codes "true") (codes "null"))
      × NoBreak (json_resp id subscribe_result (codes "null"))
unfolding json_resp
answer-NoBreak id =
    let join = All-append (λ c. (c ≢ b'\n') × (c ≢ b'\r')) in
    (
      join (codes "{\"id\":") _ (grind arith) (join _ _ (decimal-NoBreak id) (grind arith)),
      join (codes "{\"id\":") _ (grind arith) (join _ _ (decimal-NoBreak id) (grind arith)),
    )

pub answer-length :
    (id : ℕ)
    → id < 2 ^ 64
    → (length (json_resp id (codes "true") (codes "null")) ≤ max_json_line_bytes)
      × (length (json_resp id subscribe_result (codes "null")) ≤ max_json_line_bytes)
unfolding json_resp
answer-length id small =
    let short = to_decimal_length id 20 (omega arith) (omega arith) in
    (
      omega (arith, length-append (to_decimal id) (codes ",\"result\":true,\"error\":null}")),
      omega (
        arith,
        length-append (to_decimal id)
            (codes ",\"result\":[[\"mining.notify\",\"deadbeef\"],\"abcdef01\",4],\"error\":null}"),
      ),
    )

pub cons_head : {x y : Bytes} {xs ys : List Bytes} → x ∷ xs ≡ y ∷ ys → x ≡ y
cons_head e = cc

-- When a client with an id below 2^64 has sent a share in full to the pool, and the first line of the
-- pool's answer is delivered, behind any number of calls that hear nothing, a part of a line, or a
-- line without that id, the share counts as accepted.
pub submit_share-pool :
    (s : PoolState) (c : Client) (username job_id : Bytes) (nonce : ℕ) (sends : List ℕ)
    {before : List (List Poll)} {jobs : List StratumJob} (last : List Poll)
    (after : List (List Poll)) (reply : Bytes) (more : List Bytes)
    → c.next_id < 2 ^ 64
    → (send_line sends (submit_request c.next_id username job_id nonce) (bump c)).1 ≡ true
    → (handle s (submit_request c.next_id username job_id nonce)).1 ≡ reply ∷ more
    → Before c.next_id before jobs
    → Delivers last (reply ++ b'\n' ∷ [])
    → (submit_share
        (record { sends = sends; calls = before ++ last ∷ after })
        username
        job_id
        nonce
        c).1
      ≡ true
unfolding submit_share
submit_share-pool s c username job_id nonce sends {before} {jobs} last after reply more small sent
      answer b d =
    let id = c.next_id in
    let request = submit_request id username job_id nonce in
    let asks = (parse_message_id-request id [] username [] job_id nonce small).2 in
    let handled = (handle-request s id [] username [] job_id nonce small).2 in
    let same = sym (cons_head (sym (ap (λ r. r.1) handled) ∙ answer)) in
    let reads = json_resp-reads id small in
    let got =
      request_response-late sends before after request reply id (bump c) jobs last asks sent b
        (whole reply (rw same (answer-NoBreak id).0) (rw same (answer-length id small).0) d)
        (rw same reads.0) in
    rw (got, same, reads.1) refl

-- What the loop gives behind a round.
abbrev answered : List Bytes → Bool × PoolState × List Bytes → Bool × PoolState × List Bytes
answered replies (closed, end, more) = (closed, end, replies ++ more)

serve-line :
    (rounds : ℕ) (s s' : PoolState) (line rest : Bytes) (replies : List Bytes)
    → NoBreak line
    → handle s line ≡ (s', replies)
    → serve (suc rounds) s (line ++ b'\n' ∷ rest) ≡ answered replies (serve rounds s' rest)
unfolding serve
serve-line rounds s s' line rest replies n e = rw (serve, receive_line_whole line rest n, e) refl

serve_closed : (rounds : ℕ) (s : PoolState) → serve (suc rounds) s [] ≡ (true, s, [])
unfolding serve pool_receive_line
serve_closed rounds s = refl

-- The conversation of a session with ids below 2^64, as the pool takes it off the socket: a
-- subscription, an authorization and a share are answered in this order, and a job follows each of
-- the last two.
pub serve-conversation :
    (i j k : ℕ) (user_agent username password job_id : Bytes) (nonce : ℕ)
    → i < 2 ^ 64
    → j < 2 ^ 64
    → k < 2 ^ 64
    → serve 4 pool_start (
        subscribe_request i user_agent
        ++ b'\n'
          ∷ (authorize_request j username password
              ++ b'\n' ∷ (submit_request k username job_id nonce ++ b'\n' ∷ [])))
      ≡ (
        true,
        record { notified = true; job_seq = 2 },
        json_resp i subscribe_result (codes "null")
            ∷ json_resp j (codes "true") (codes "null")
            ∷ notify_line 1
            ∷ json_resp k (codes "true") (codes "null")
            ∷ notify_line 2
            ∷ [],
      )
serve-conversation i j k user_agent username password job_id nonce li lj lk =
    let r = authorize_request j username password in
    let t = submit_request k username job_id nonce in
    let lines_i = request-NoBreak i user_agent username password job_id nonce in
    let lines_j = request-NoBreak j user_agent username password job_id nonce in
    let lines_k = request-NoBreak k user_agent username password job_id nonce in
    let known : PoolState = record { notified = true; job_seq = 1 } in
    serve-line 3 pool_start pool_start (subscribe_request i user_agent)
      (r ++ b'\n' ∷ (t ++ b'\n' ∷ [])) _ lines_i.0
      (handle-request pool_start i user_agent username password job_id nonce li).0
    ∙ ap (answered (json_resp i subscribe_result (codes "null") ∷ [])) (
        serve-line 2 pool_start known r (t ++ b'\n' ∷ []) _ lines_j.1
          (handle-request pool_start j user_agent username password job_id nonce lj).1
        ∙ ap (answered (json_resp j (codes "true") (codes "null") ∷ notify_line 1 ∷ [])) (
            serve-line 1 known (record { notified = true; job_seq = 2 }) t [] _ lines_k.2
              (handle-request known k user_agent username password job_id nonce lk).2
            ∙ ap (answered (json_resp k (codes "true") (codes "null") ∷ notify_line 2 ∷ []))
                (serve_closed 0 (record { notified = true; job_seq = 2 }))))
