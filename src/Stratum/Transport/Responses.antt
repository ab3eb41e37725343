-- ===== src/Stratum/Transport/Responses.antt =====
-- Requests and their responses: a response carries the id of its request, and no call changes the
-- counter of the ids.
use hermit_miner.Base.{
  ℕ, ◌≡◌, refl, Bool, true, false, List, [], ◌∷◌, ◌++◌, Option, none, some, arith, Bytes,
  Bool-cases, Option-cases, inl, inr, ◌∙◌, take, drop,
}
use hermit_miner.Stratum.Codec.{StratumJob, parse_message_id, parse_notify}
use hermit_miner.Stratum.Transport.{
  Client, Poll, send_loop, send_line, receive_line, finish_receive, Reading, full, timed_out, lost,
  oversized, receive_loop, answers, note_other, await_response, after_send, request_response,
}

finish_receive-next_id : (c : Client) (r : Reading) → (finish_receive c r).0.next_id ≡ c.next_id
finish_receive-next_id c (full line) = refl
finish_receive-next_id c (timed_out out) = refl
finish_receive-next_id c lost = refl
finish_receive-next_id c oversized = refl

receive_line-next_id :
    (polls : List Poll) (c : Client) → (receive_line polls c).0.next_id ≡ c.next_id
unfolding receive_line
receive_line-next_id polls c = ground (arith, finish_receive-next_id c (receive_loop [] polls))

note_other-next_id : (c : Client) (o : Option StratumJob) → (note_other c o).next_id ≡ c.next_id
note_other-next_id c none = refl
note_other-next_id c (some job) = refl

-- One round of the loop, by what the call of `receive_line` gave.
data Round (id : ℕ) (polls : List Poll) (calls : List (List Poll)) (c : Client) : Type 0 where
  gone :
      await_response id (polls ∷ calls) c ≡ ((receive_line polls c).0, none)
      → Round id polls calls c
  retry :
      await_response id (polls ∷ calls) c ≡ await_response id calls (receive_line polls c).0
      → Round id polls calls c
  answer :
      (line : Bytes)
      → answers id (parse_message_id line) ≡ true
      → await_response id (polls ∷ calls) c ≡ ((receive_line polls c).0, some line)
      → Round id polls calls c
  other :
      (line : Bytes)
      → await_response id (polls ∷ calls) c
        ≡ await_response id calls (note_other (receive_line polls c).0 (parse_notify line))
      → Round id polls calls c

round :
    (id : ℕ) (polls : List Poll) (calls : List (List Poll)) (c : Client) → Round id polls calls c
unfolding await_response
round id polls calls c = elim (Option-cases (receive_line polls c).1) [
  | inl e ↦ elim (Bool-cases (receive_line polls c).0.connected) [
    | inl on ↦ retry (rw (e, on, await_response) refl)
    | inr off ↦ gone (rw (e, off, await_response) refl)
  ]
  | inr (line, e) ↦ elim (Bool-cases (answers id (parse_message_id line))) [
    | inl yes_it ↦ answer line yes_it (rw (e, yes_it, await_response) refl)
    | inr no_it ↦ other line (rw (e, no_it, await_response) refl)
  ]
]

await_response-next_id :
    (id : ℕ) (calls : List (List Poll)) (c : Client)
    → (await_response id calls c).0.next_id ≡ c.next_id
await_response-next_id id [] c = (unfold await_response in refl)
await_response-next_id id (polls ∷ calls) c =
    go (round id polls calls c) (receive_line-next_id polls c)
      (await_response-next_id id calls (receive_line polls c).0)
      (λ line.
        await_response-next_id id calls (note_other (receive_line polls c).0 (parse_notify line)))
  where
    go :
        Round id polls calls c
        → (receive_line polls c).0.next_id ≡ c.next_id
        → (await_response id calls (receive_line polls c).0).0.next_id
          ≡ (receive_line polls c).0.next_id
        → ((line : Bytes)
            → (await_response id calls
                (note_other (receive_line polls c).0 (parse_notify line))).0.next_id
              ≡ (note_other (receive_line polls c).0 (parse_notify line)).next_id)
        → (await_response id (polls ∷ calls) c).0.next_id ≡ c.next_id
    go (gone e) kept again others = rw e kept
    go (retry e) kept again others = rw e (again ∙ kept)
    go (answer line a e) kept again others = rw e kept
    go (other line e) kept again others =
        rw e (others line ∙ note_other-next_id _ (parse_notify line) ∙ kept)

pub answers-true : (id : ℕ) (o : Option ℕ) → answers id o ≡ true → o ≡ some id
answers-true id none h = cc
answers-true id (some n) h = ground arith

await_response-id :
    (id : ℕ) (calls : List (List Poll)) (c : Client) (line : Bytes)
    → (await_response id calls c).1 ≡ some line
    → parse_message_id line ≡ some id
await_response-id id [] c line h = (unfold await_response in cc)
await_response-id id (polls ∷ calls) c line h =
    go (round id polls calls c) (await_response-id id calls (receive_line polls c).0 line)
      (λ l. await_response-id id calls (note_other (receive_line polls c).0 (parse_notify l)) line)
  where
    go :
        Round id polls calls c
        → ((await_response id calls (receive_line polls c).0).1 ≡ some line
            → parse_message_id line ≡ some id)
        → ((l : Bytes)
            → (await_response id calls (note_other (receive_line polls c).0 (parse_notify l))).1
              ≡ some line
            → parse_message_id line ≡ some id)
        → parse_message_id line ≡ some id
    go (gone e) again others = let none_eq : none ≡ some line = rw e at h in cc
    go (retry e) again others = again (rw e at h)
    go (answer l a e) again others =
        let same : some l ≡ some line = rw e at h in
        let l_eq : l ≡ line = cc in rw (← l_eq) (answers-true id (parse_message_id l) a)
    go (other l e) again others = others l (rw e at h)

send_loop-next_id :
    (sends : List ℕ) (out : Bytes) (c : Client) → (send_loop sends out c).0.next_id ≡ c.next_id
unfolding send_loop
send_loop-next_id sends [] c = refl
send_loop-next_id [] (b ∷ out) c = refl
send_loop-next_id (sent ∷ sends) (b ∷ out) c = ground (
  arith,
  send_loop-next_id sends (drop sent (b ∷ out)) (record c { wire = c.wire ++ take sent (b ∷ out) }),
)

send_line-next_id :
    (sends : List ℕ) (line : Bytes) (c : Client) → (send_line sends line c).0.next_id ≡ c.next_id
unfolding send_line
send_line-next_id sends line c = ground (arith, send_loop-next_id sends (line ++ b'\n' ∷ []) c)

after_send-next_id :
    (id : ℕ) (calls : List (List Poll)) (r : Client × Bool)
    → (after_send id calls r).0.next_id ≡ r.0.next_id
after_send-next_id id calls (c, true) = await_response-next_id id calls c
after_send-next_id id calls (c, false) = refl

-- No request changes the counter of the ids.
pub request_response-next_id :
    (sends : List ℕ) (calls : List (List Poll)) (request : Bytes) (c : Client)
    → (request_response sends calls request c).0.next_id ≡ c.next_id
unfolding request_response
request_response-next_id sends calls request c = elim (Option-cases (parse_message_id request)) [
  | inl e ↦ rw (e, request_response) refl
  | inr (id, e) ↦
      rw (e, request_response)
        (after_send-next_id id calls (send_line sends request c)
          ∙ send_line-next_id sends request c)
]

after_send-id :
    (id : ℕ) (calls : List (List Poll)) (r : Client × Bool) (line : Bytes)
    → (after_send id calls r).1 ≡ some line
    → (parse_message_id line ≡ some id) × (r.1 ≡ true)
after_send-id id calls (c, true) line h = (await_response-id id calls c line h, refl)
after_send-id id calls (c, false) line h = cc

-- A response is given only for a request that has an id and was sent in full, and it carries that id.
pub request_response-id :
    (sends : List ℕ) (calls : List (List Poll)) (request : Bytes) (c : Client) (response : Bytes)
    → (request_response sends calls request c).1 ≡ some response
    → (id : ℕ) × (parse_message_id request ≡ some id)
      × (parse_message_id response ≡ some id)
      × ((send_line sends request c).1 ≡ true)
unfolding request_response
request_response-id sends calls request c response h =
    elim (Option-cases (parse_message_id request)) [
      | inl e ↦ let none_eq : none ≡ some response = rw (e, request_response) at h in cc
      | inr (id, e) ↦
          let r =
            after_send-id id calls (send_line sends request c) response
              (rw (e, request_response) at h) in
          (id, e, r.0, r.1)
    ]
