-- ===== src/Stratum/Client/Wire.antt =====
-- What the operations of the client put on the socket: each its own request, and `wait_for_job`
-- nothing.
use hermit_miner.Base.{
  ℕ, ◌≡◌, refl, ◌∙◌, Bool, Bool-cases, true, false, inl, inr, List, [], ◌∷◌, ◌++◌, Option,
  Option-cases, none, some, Bytes,
}
use hermit_miner.Stratum.Client.{
  Exchange, Wait, bump, exchange, subscribed, authorized, judged, submitted, is_accepted, subscribe,
  authorize, submit_share, wait_for_job,
}
use hermit_miner.Stratum.Codec.{
  parse_error_is_null, parse_bool_result, parse_notify, subscribe_request, authorize_request,
  submit_request, nonce_to_hex,
}
use hermit_miner.Stratum.Transport.Wire.{Sends, request_response-Sends, receive_line_wire}
use hermit_miner.Stratum.Transport.{Client, receive_line}

-- Counting the id and logging send nothing.
logged-Sends :
    (text : Bytes) (c later after : Client)
    → Sends text (bump c) later
    → after.wire ≡ later.wire
    → Sends text c after
logged-Sends text c later after s e = record {
  part = s.part;
  rest = s.rest;
  whole = s.whole;
  wire = e ∙ s.wire;
}

subscribed_wire : (r : Client × Option Bytes) → (subscribed r).0.wire ≡ r.0.wire
subscribed_wire (c, none) = refl
subscribed_wire (c, some resp) = elim (Bool-cases (parse_error_is_null resp)) [
  | inl t ↦ rw (t, subscribed) refl
  | inr n ↦ rw (n, subscribed) refl
]

authorized_wire :
    (username : Bytes) (r : Client × Option Bytes) → (authorized username r).0.wire ≡ r.0.wire
authorized_wire username (c, none) = refl
authorized_wire username (c, some resp) = elim (Bool-cases (is_accepted (parse_bool_result resp))) [
  | inl t ↦ rw (t, authorized) refl
  | inr n ↦ rw (n, authorized) refl
]

judged_wire :
    (job_id nonce_hex resp : Bytes) (c : Client) (b : Option Bool)
    → (judged job_id nonce_hex resp c b).0.wire ≡ c.wire
judged_wire job_id nonce_hex resp c none = refl
judged_wire job_id nonce_hex resp c (some true) = refl
judged_wire job_id nonce_hex resp c (some false) = refl

submitted_wire :
    (job_id nonce_hex : Bytes) (r : Client × Option Bytes)
    → (submitted job_id nonce_hex r).0.wire ≡ r.0.wire
submitted_wire job_id nonce_hex (c, none) = refl
submitted_wire job_id nonce_hex (c, some resp) =
    judged_wire job_id nonce_hex resp c (parse_bool_result resp)

pub subscribe-Sends :
    (x : Exchange) (user_agent : Bytes) (c : Client)
    → Sends (subscribe_request c.next_id user_agent ++ b'\n' ∷ []) c (subscribe x user_agent c).0
unfolding subscribe
subscribe-Sends x user_agent c =
    logged-Sends _ c (exchange x (subscribe_request c.next_id user_agent) c).0 _
      (request_response-Sends x.sends x.calls (subscribe_request c.next_id user_agent) (bump c))
      (subscribed_wire _)

pub authorize-Sends :
    (x : Exchange) (username password : Bytes) (c : Client)
    → Sends
        (authorize_request c.next_id username password ++ b'\n' ∷ [])
        c
        (authorize x username password c).0
unfolding authorize
authorize-Sends x username password c =
    logged-Sends _ c (exchange x (authorize_request c.next_id username password) c).0 _
      (request_response-Sends x.sends x.calls (authorize_request c.next_id username password)
        (bump c))
      (authorized_wire username _)

pub submit_share-Sends :
    (x : Exchange) (username job_id : Bytes) (nonce : ℕ) (c : Client)
    → Sends
        (submit_request c.next_id username job_id nonce ++ b'\n' ∷ [])
        c
        (submit_share x username job_id nonce c).0
unfolding submit_share
submit_share-Sends x username job_id nonce c =
    logged-Sends _ c (exchange x (submit_request c.next_id username job_id nonce) c).0 _
      (request_response-Sends x.sends x.calls (submit_request c.next_id username job_id nonce)
        (bump c))
      (submitted_wire job_id (nonce_to_hex nonce) _)

pub wait_for_job_wire : (waits : List Wait) (c : Client) → (wait_for_job waits c).0.wire ≡ c.wire
unfolding wait_for_job
wait_for_job_wire [] c = refl
wait_for_job_wire (w ∷ waits) c =
    let got = receive_line_wire w.polls c in
    let c' = (receive_line w.polls c).0 in
    let later = wait_for_job_wire waits c' ∙ got in
    elim (Bool-cases w.stop_requested) [
      | inl stop ↦ rw (stop, wait_for_job) refl
      | inr go ↦ elim (Option-cases ((receive_line w.polls c).1)) [
        | inl silent ↦ elim (Bool-cases (c'.connected)) [
          | inl on ↦ rw (go, silent, on, wait_for_job) later
          | inr off ↦ rw (go, silent, off, wait_for_job) got
        ]
        | inr (line, arrived) ↦ elim (Option-cases (parse_notify line)) [
          | inl other ↦ rw (go, arrived, other, wait_for_job) later
          | inr (job, notified) ↦ rw (go, arrived, notified, wait_for_job) got
        ]
      ]
    ]
