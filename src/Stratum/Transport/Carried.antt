-- ===== src/Stratum/Transport/Carried.antt =====
-- What a script of the socket carries, said without the loop that reads it, and the response that
-- the client takes out of its calls.
use hermit_miner.Base.{
  ℕ, ◌≡◌, ◌≢◌, refl, Bool, Bool-cases, Option-cases, inl, inr, true, false, List, [], ◌∷◌, ◌++◌,
  append_assoc, append-nil, Option, none, some, arith, Bytes, length, ◌==◌, leb, ap, ◌∙◌, sym, ◌⊎◌,
}
use hermit_miner.Stratum.Codec.{parse_message_id}
use hermit_miner.Stratum.Transport.Responses.{answers-true}
use hermit_miner.Stratum.Transport.{
  Client, max_json_line_bytes, Poll, select_failed, idle, closed, received, Reading, full,
  timed_out, lost, oversized, receive_loop, finish_receive, receive_line, answers, await_response,
  after_send, send_line, request_response,
}

-- The first line of a script, up to its line break, without the carriage returns.
pub data Carries : List Poll → Bytes → Type 0 where
  ended : {polls : List Poll} → Carries (received b'\n' ∷ polls) []
  waits : {polls : List Poll} {s : Bytes} → Carries polls s → Carries (idle ∷ polls) s
  returns : {polls : List Poll} {s : Bytes} → Carries polls s → Carries (received b'\r' ∷ polls) s
  byte :
      {polls : List Poll} {s : Bytes} (ch : ℕ)
      → ch ≢ b'\n'
      → ch ≢ b'\r'
      → Carries polls s
      → Carries (received ch ∷ polls) (ch ∷ s)

-- A line that is read is carried.
receive_loop-Carries :
    (polls : List Poll) (out line : Bytes)
    → receive_loop out polls ≡ full line
    → (rest : Bytes) × (line ≡ out ++ rest) × Carries polls rest
unfolding receive_loop
receive_loop-Carries [] out line h = cc
receive_loop-Carries (select_failed ∷ polls) out line h = cc
receive_loop-Carries (idle ∷ polls) out line h =
    let (rest, e, k) = receive_loop-Carries polls out line h in (rest, e, waits k)
receive_loop-Carries (closed ∷ polls) out line h = cc
receive_loop-Carries (received ch ∷ polls) out line h = elim (Bool-cases (ch == b'\n')) [
  | inl nl ↦
      let e : full out ≡ full line = rw (nl, receive_loop) at h in
      let same : line ≡ out = cc in
      let here : b'\n' ≡ ch = ground arith in ([], same ∙ sym (append-nil out), rw (← here) ended)
  | inr nn ↦ elim (Bool-cases (ch == b'\r')) [
    | inl r ↦
        let (rest, e, k) = receive_loop-Carries polls out line (rw (nn, r, receive_loop) at h) in
        let here : b'\r' ≡ ch = ground arith in (rest, e, rw (← here) (returns k))
    | inr nr ↦ elim (Bool-cases (leb max_json_line_bytes (length out))) [
      | inl big ↦ let e : oversized ≡ full line = rw (nn, nr, big, receive_loop) at h in cc
      | inr fits ↦
          let (rest, e, k) =
            receive_loop-Carries polls (out ++ ch ∷ []) line
              (rw (nn, nr, fits, receive_loop) at h) in
          (ch ∷ rest, e ∙ append_assoc out (ch ∷ []) rest, byte ch (ground arith) (ground arith) k)
    ]
  ]
]

-- A line that is carried is read, unless it is too long.
Carries-receive_loop :
    {polls : List Poll} {s : Bytes} (out : Bytes)
    → Carries polls s
    → (receive_loop out polls ≡ full (out ++ s)) ⊎ (receive_loop out polls ≡ oversized)
unfolding receive_loop
Carries-receive_loop out ended = inl (ap full (sym (append-nil out)))
Carries-receive_loop out (waits k) = Carries-receive_loop out k
Carries-receive_loop out (returns k) = Carries-receive_loop out k
Carries-receive_loop out (byte {polls} {s} ch nn nr k) =
    let nl : (ch == b'\n') ≡ false = ground arith in
    let r : (ch == b'\r') ≡ false = ground arith in
    elim (Bool-cases (leb max_json_line_bytes (length out))) [
      | inl big ↦ inr (rw (nl, r, big, receive_loop) refl)
      | inr fits ↦
          rw (nl, r, fits, receive_loop, ← append_assoc out (ch ∷ []) s)
            (Carries-receive_loop (out ++ ch ∷ []) k)
    ]

pub receive_line-Carries :
    (polls : List Poll) (c : Client) (line : Bytes)
    → (receive_line polls c).1 ≡ some line
    → Carries polls line
unfolding receive_line
receive_line-Carries polls c line h = elim (Bool-cases c.connected) [
  | inl on ↦ read _ (receive_loop [] polls) refl (rw (on, receive_line) at h)
  | inr off ↦ let nothing_read : none ≡ some line = rw (off, receive_line) at h in cc
]
  where
    read :
        (d : Client) (r : Reading)
        → receive_loop [] polls ≡ r
        → (finish_receive d r).1 ≡ some line
        → Carries polls line
    read d (full l) e g =
        let (rest, same, k) = receive_loop-Carries polls [] l e in
        let it : rest ≡ line = cc in rw (← it) k
    read d (timed_out out) e g = cc
    read d lost e g = cc
    read d oversized e g = cc

-- Where a line is carried, the call gives it or leaves the client disconnected.
Carries-receive_line :
    {polls : List Poll} {line : Bytes} (c : Client)
    → Carries polls line
    → ((receive_line polls c).1 ≡ some line)
      ⊎ (((receive_line polls c).1 ≡ none) × ((receive_line polls c).0.connected ≡ false))
unfolding receive_line
Carries-receive_line {polls} {line} c k = elim (Bool-cases c.connected) [
  | inl on ↦ elim (Carries-receive_loop [] k) [
    | inl e ↦ inl (rw (on, e, receive_line) refl)
    | inr e ↦ inr (rw (on, e, receive_line) (refl, refl))
  ]
  | inr off ↦ inr (rw (off, receive_line) (refl, refl))
]

-- The first line with an id among those that the calls carry.
pub data FirstWith (id : ℕ) : List (List Poll) → Bytes → Type 0 where
  here :
      {polls : List Poll} {calls : List (List Poll)} {line : Bytes}
      → Carries polls line
      → parse_message_id line ≡ some id
      → FirstWith id (polls ∷ calls) line
  behind :
      {polls : List Poll} {calls : List (List Poll)} {line : Bytes}
      → ((l : Bytes) → Carries polls l → parse_message_id l ≢ some id)
      → FirstWith id calls line
      → FirstWith id (polls ∷ calls) line

answers-false : (id : ℕ) (o : Option ℕ) → answers id o ≡ false → o ≢ some id
answers-false id none h = λ e. cc
answers-false id (some n) h = λ e. let same : n ≡ id = cc in ground arith

await_response-FirstWith :
    (id : ℕ) (calls : List (List Poll)) (c : Client) (line : Bytes)
    → (await_response id calls c).1 ≡ some line
    → FirstWith id calls line
unfolding await_response
await_response-FirstWith id [] c line h = cc
await_response-FirstWith id (polls ∷ calls) c line h =
    let again = await_response-FirstWith id calls in
    elim (Option-cases (receive_line polls c).1) [
      | inl e ↦ elim (Bool-cases (receive_line polls c).0.connected) [
        | inl on ↦
            behind
              (λ l k. elim (Carries-receive_line c k) [
                | inl got ↦ let two : none ≡ some l = sym e ∙ got in absurd (cc)
                | inr (_, off) ↦ let two : true ≡ false = sym on ∙ off in absurd (cc)
              ])
              (again _ line (rw (e, on, await_response) at h))
        | inr off ↦ let nothing_read : none ≡ some line = rw (e, off, await_response) at h in cc
      ]
      | inr (got, e) ↦ elim (Bool-cases (answers id (parse_message_id got))) [
        | inl yes_it ↦
            let all : some got ≡ some line = rw (e, yes_it, await_response) at h in
            let same : got ≡ line = cc in
            rw (← same) (
              here (receive_line-Carries polls c got e)
                (answers-true id (parse_message_id got) yes_it))
        | inr no_it ↦
            behind
              (λ l k is. elim (Carries-receive_line c k) [
                | inl read ↦
                    let two : some l ≡ some got = sym read ∙ e in
                    let same : l ≡ got = cc in
                    answers-false id (parse_message_id got) no_it (rw (← same) is)
                | inr (unread, _) ↦ let two : none ≡ some got = sym unread ∙ e in absurd (cc)
              ])
              (again _ line (rw (e, no_it, await_response) at h))
      ]
    ]

after_send-FirstWith :
    (id : ℕ) (calls : List (List Poll)) (r : Client × Bool) (line : Bytes)
    → (after_send id calls r).1 ≡ some line
    → FirstWith id calls line
after_send-FirstWith id calls (c, true) line h = await_response-FirstWith id calls c line h
after_send-FirstWith id calls (c, false) line h = cc

-- The response to a request with an id is the first line with that id.
pub request_response-FirstWith :
    (sends : List ℕ) (calls : List (List Poll)) (request : Bytes) (c : Client) (response : Bytes)
    (id : ℕ)
    → parse_message_id request ≡ some id
    → (request_response sends calls request c).1 ≡ some response
    → FirstWith id calls response
unfolding request_response
request_response-FirstWith sends calls request c response id asked h =
    after_send-FirstWith id calls (send_line sends request c) response
      (rw (asked, request_response) at h)
