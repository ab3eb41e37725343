-- ===== src/Stratum/Client/Ids.antt =====
-- The ids of the requests, and what an accepted share rests on.
use hermit_miner.Base.{
  ℕ, ◌+◌, ◌<◌, ◌^◌, ◌≡◌, refl, Bool, true, false, Option, none, some, arith, Bytes, u64, ◌∙◌,
}
use hermit_miner.Stratum.Client.{
  Exchange, bump, exchange, subscribe, subscribed, authorize, authorized, submit_share, submitted,
  judged,
}
use hermit_miner.Stratum.Codec.Ids.{parse_message_id-request}
use hermit_miner.Stratum.Codec.{
  parse_bool_result, subscribe_request, authorize_request, submit_request, nonce_to_hex,
}
use hermit_miner.Stratum.Transport.Carried.{FirstWith, request_response-FirstWith}
use hermit_miner.Stratum.Transport.Responses.{request_response-next_id, request_response-id}
use hermit_miner.Stratum.Transport.{Client, send_line}

exchange-next_id :
    (x : Exchange) (request : Bytes) (c : Client)
    → (exchange x request c).0.next_id ≡ u64 (c.next_id + 1)
exchange-next_id x request c = request_response-next_id x.sends x.calls request (bump c)

judged-next_id :
    (job_id hex resp : Bytes) (c : Client) (o : Option Bool)
    → (judged job_id hex resp c o).0.next_id ≡ c.next_id
judged-next_id job_id hex resp c none = refl
judged-next_id job_id hex resp c (some true) = refl
judged-next_id job_id hex resp c (some false) = refl

submitted-next_id :
    (job_id hex : Bytes) (r : Client × Option Bytes)
    → (submitted job_id hex r).0.next_id ≡ r.0.next_id
submitted-next_id job_id hex (c, none) = refl
submitted-next_id job_id hex (c, some resp) =
    judged-next_id job_id hex resp c (parse_bool_result resp)

subscribed-next_id : (r : Client × Option Bytes) → (subscribed r).0.next_id ≡ r.0.next_id
subscribed-next_id (c, none) = refl
subscribed-next_id (c, some resp) = ground arith

authorized-next_id :
    (username : Bytes) (r : Client × Option Bytes) → (authorized username r).0.next_id ≡ r.0.next_id
authorized-next_id username (c, none) = refl
authorized-next_id username (c, some resp) = ground arith

-- Each request takes the next id, whether it succeeds or fails, so that the requests of a client
-- carry different ids until the 64-bit counter wraps.
pub next_id-request :
    (x : Exchange) (user_agent username password job_id : Bytes) (nonce : ℕ) (c : Client)
    → ((subscribe x user_agent c).0.next_id ≡ u64 (c.next_id + 1))
      × ((authorize x username password c).0.next_id ≡ u64 (c.next_id + 1))
      × ((submit_share x username job_id nonce c).0.next_id ≡ u64 (c.next_id + 1))
unfolding subscribe authorize submit_share
next_id-request x user_agent username password job_id nonce c = (
  subscribed-next_id (exchange x (subscribe_request c.next_id user_agent) c)
      ∙ exchange-next_id x (subscribe_request c.next_id user_agent) c,
  authorized-next_id username (exchange x (authorize_request c.next_id username password) c)
      ∙ exchange-next_id x (authorize_request c.next_id username password) c,
  submitted-next_id job_id (nonce_to_hex nonce)
        (exchange x (submit_request c.next_id username job_id nonce) c)
      ∙ exchange-next_id x (submit_request c.next_id username job_id nonce) c,
)

judged-true :
    (job_id hex resp : Bytes) (c : Client) (o : Option Bool)
    → (judged job_id hex resp c o).1 ≡ true
    → o ≡ some true
judged-true job_id hex resp c none h = cc
judged-true job_id hex resp c (some true) h = refl
judged-true job_id hex resp c (some false) h = cc

submitted-true :
    (job_id hex : Bytes) (r : Client × Option Bytes)
    → (submitted job_id hex r).1 ≡ true
    → (resp : Bytes) × (r.1 ≡ some resp) × (parse_bool_result resp ≡ some true)
submitted-true job_id hex (c, none) h = cc
submitted-true job_id hex (c, some resp) h =
    (resp, refl, judged-true job_id hex resp c (parse_bool_result resp) h)

-- A share counts as accepted only if the request was sent in full, and the first of the lines that
-- the calls carry behind it that has the id of this request has the result true.
pub submit_share-true :
    (x : Exchange) (username job_id : Bytes) (nonce : ℕ) (c : Client)
    → c.next_id < 2 ^ 64
    → (submit_share x username job_id nonce c).1 ≡ true
    → (resp : Bytes) × FirstWith c.next_id x.calls resp
      × (parse_bool_result resp ≡ some true)
      × ((send_line x.sends (submit_request c.next_id username job_id nonce) (bump c)).1 ≡ true)
unfolding submit_share
submit_share-true x username job_id nonce c small h =
    let request = submit_request c.next_id username job_id nonce in
    let (resp, given, positive) =
      submitted-true job_id (nonce_to_hex nonce) (exchange x request c) h in
    let (id, asked, answered, sent) =
      request_response-id x.sends x.calls request (bump c) resp given in
    let own =
      (parse_message_id-request c.next_id username username username job_id nonce small).2 in
    (
      resp,
      request_response-FirstWith x.sends x.calls request (bump c) resp c.next_id own given,
      positive,
      sent,
    )
