-- ===== src/Stratum/Transport/Wire.antt =====
-- What a request puts on the socket.
use hermit_miner.Base.{
  ℕ, zero, suc, ◌≡◌, refl, ◌∙◌, ap, sym, Bool, Bool-cases, true, false, inl, inr, not, List, [],
  ◌∷◌, ◌++◌, append_assoc, append-nil, Option, Option-cases, none, some, Bytes, take, drop, ◌==◌,
  if◌then◌else◌, ltb, length,
}
use hermit_miner.Stratum.Codec.{StratumJob, parse_message_id, parse_notify}
use hermit_miner.Stratum.Transport.{
  Client, Poll, Reading, full, timed_out, lost, oversized, send_loop, send_line, receive_loop,
  receive_line, finish_receive, answers, note_other, await_response, after_send, request_response,
  max_json_line_bytes,
}

-- A client has sent a beginning of a text, or all of it, and nothing else.
pub record Sends (text : Bytes) (before later : Client) : Type 0 where
  pub part : Bytes
  pub rest : Bytes
  pub whole : part ++ rest ≡ text
  pub wire : later.wire ≡ before.wire ++ part

take-drop {ℓ} : {A : Type ℓ} (n : ℕ) (xs : List A) → take n xs ++ drop n xs ≡ xs
take-drop zero xs = refl
take-drop (suc n) [] = refl
take-drop (suc n) (x ∷ xs) = ap (λ r. x ∷ r) (take-drop n xs)

pub nothing_sent : (text : Bytes) (c c' : Client) → c'.wire ≡ c.wire → Sends text c c'
nothing_sent text c c' e = record {
  part = [];
  rest = text;
  whole = refl;
  wire = e ∙ sym (append-nil c.wire);
}

-- A first call of `send`, and what the later ones send.
sent_more :
    (n : ℕ) (out : Bytes) (c c' : Client)
    → Sends (drop n out) (record c { wire = c.wire ++ take n out }) c'
    → Sends out c c'
sent_more n out c c' later = record {
  part = take n out ++ later.part;
  rest = later.rest;
  whole =
      append_assoc (take n out) later.part later.rest
      ∙ ap (λ r. take n out ++ r) later.whole
      ∙ take-drop n out;
  wire = later.wire ∙ append_assoc c.wire (take n out) later.part;
}

send_loop-Sends :
    (sends : List ℕ) (out : Bytes) (c : Client) → Sends out c (send_loop sends out c).0
unfolding send_loop
send_loop-Sends sends [] c = nothing_sent [] c c refl
send_loop-Sends [] (b ∷ out) c = nothing_sent (b ∷ out) c _ refl
send_loop-Sends (n ∷ sends) (b ∷ out) c =
    let later =
      send_loop-Sends sends (drop n (b ∷ out)) (record c { wire = c.wire ++ take n (b ∷ out) }) in
    elim (Bool-cases (n == 0)) [
      | inl stop ↦ rw (stop, send_loop) (nothing_sent (b ∷ out) c _ refl)
      | inr go ↦ rw (go, send_loop) (sent_more n (b ∷ out) c _ later)
    ]

both_branches {ℓ κ} :
    {A : Type ℓ} (P : A → Type κ) (b : Bool) {x y : A} → P x → P y → P (if b then x else y)
both_branches P true p q = p
both_branches P false p q = q

send_line-Sends :
    (sends : List ℕ) (line : Bytes) (c : Client)
    → Sends (line ++ b'\n' ∷ []) c (send_line sends line c).0
unfolding send_line
send_line-Sends sends line c =
    both_branches (λ (r : Client × Bool). Sends (line ++ b'\n' ∷ []) c r.0) (not c.connected)
      (nothing_sent _ c c refl)
      (both_branches (λ (r : Client × Bool). Sends (line ++ b'\n' ∷ []) c r.0)
        (ltb max_json_line_bytes (length line)) (nothing_sent _ c _ refl)
        (send_loop-Sends sends (line ++ b'\n' ∷ []) c))

finish_receive_wire : (c : Client) (r : Reading) → (finish_receive c r).0.wire ≡ c.wire
finish_receive_wire c (full line) = refl
finish_receive_wire c (timed_out out) = refl
finish_receive_wire c lost = refl
finish_receive_wire c oversized = refl

-- Receiving sends nothing.
pub receive_line_wire : (polls : List Poll) (c : Client) → (receive_line polls c).0.wire ≡ c.wire
unfolding receive_line
receive_line_wire polls c =
    both_branches (λ (r : Client × Option Bytes). r.0.wire ≡ c.wire) c.connected
      (finish_receive_wire c (receive_loop [] polls)) refl

note_other_wire : (c : Client) (job : Option StratumJob) → (note_other c job).wire ≡ c.wire
note_other_wire c none = refl
note_other_wire c (some job) = refl

await_response_wire :
    (id : ℕ) (calls : List (List Poll)) (c : Client) → (await_response id calls c).0.wire ≡ c.wire
unfolding await_response
await_response_wire id [] c = refl
await_response_wire id (polls ∷ calls) c =
    let got = receive_line_wire polls c in
    let c' = (receive_line polls c).0 in
    elim (Option-cases ((receive_line polls c).1)) [
      | inl silent ↦ elim (Bool-cases (c'.connected)) [
        | inl on ↦ rw (silent, on, await_response) (await_response_wire id calls c' ∙ got)
        | inr off ↦ rw (silent, off, await_response) got
      ]
      | inr (line, arrived) ↦ elim (Bool-cases (answers id (parse_message_id line))) [
        | inl yes_it ↦ rw (arrived, yes_it, await_response) got
        | inr other ↦
            rw (arrived, other, await_response)
              (await_response_wire id calls _ ∙ note_other_wire c' (parse_notify line) ∙ got)
      ]
    ]

after_send-Sends :
    (text : Bytes) (id : ℕ) (calls : List (List Poll)) (c : Client) (r : Client × Bool)
    → Sends text c r.0
    → Sends text c (after_send id calls r).0
after_send-Sends text id calls c (c', true) s = record {
  part = s.part;
  rest = s.rest;
  whole = s.whole;
  wire = await_response_wire id calls c' ∙ s.wire;
}
after_send-Sends text id calls c (c', false) s = s

-- A request puts its line on the socket, or a beginning of it, and nothing else.
pub request_response-Sends :
    (sends : List ℕ) (calls : List (List Poll)) (request : Bytes) (c : Client)
    → Sends (request ++ b'\n' ∷ []) c (request_response sends calls request c).0
unfolding request_response
request_response-Sends sends calls request c = elim (Option-cases (parse_message_id request)) [
  | inl none_read ↦ rw (none_read, request_response) (nothing_sent _ c c refl)
  | inr (id, found) ↦
      rw (found, request_response)
        (after_send-Sends _ id calls c (send_line sends request c)
          (send_line-Sends sends request c))
]
