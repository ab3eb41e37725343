-- ===== src/Stratum/Transport/Lines.antt =====
-- Lines that are received, and their bound.
use hermit_miner.Base.{
  ℕ, ◌+◌, ◌≤◌, ◌<◌, ◌≡◌, ◌≢◌, refl, true, false, List, [], ◌∷◌, ◌++◌, append_assoc, append-nil,
  none, some, arith, Bytes, length, length-append, All-append, ◌==◌, leb, Bool-cases, inl, inr, ap,
  ◌∙◌, sym,
}
use hermit_miner.Stratum.Codec.Escape.{NoBreak}
use hermit_miner.Stratum.Transport.{
  Client, max_json_line_bytes, Poll, select_failed, idle, closed, received, Reading, full,
  timed_out, lost, oversized, receive_loop, receive_line, finish_receive,
}

-- A line that is received holds no line break and at most 64 KiB.
receive_loop-full :
    (polls : List Poll) (out line : Bytes)
    → NoBreak out
    → length out ≤ max_json_line_bytes
    → receive_loop out polls ≡ full line
    → NoBreak line × (length line ≤ max_json_line_bytes)
unfolding receive_loop
receive_loop-full [] out line n le h = cc
receive_loop-full (select_failed ∷ polls) out line n le h = cc
receive_loop-full (idle ∷ polls) out line n le h = receive_loop-full polls out line n le h
receive_loop-full (closed ∷ polls) out line n le h = cc
receive_loop-full (received ch ∷ polls) out line n le h = elim (Bool-cases (ch == b'\n')) [
  | inl nl ↦
      let e : full out ≡ full line = rw (nl, receive_loop) at h in
      let same : out ≡ line = cc in rw (← same) (n, le)
  | inr nn ↦ elim (Bool-cases (ch == b'\r')) [
    | inl r ↦ receive_loop-full polls out line n le (rw (nn, r, receive_loop) at h)
    | inr nr ↦ elim (Bool-cases (leb max_json_line_bytes (length out))) [
      | inl big ↦ let e : oversized ≡ full line = rw (nn, nr, big, receive_loop) at h in cc
      | inr fits ↦
          receive_loop-full polls (out ++ ch ∷ []) line
            (All-append _ out (ch ∷ []) n ((ground arith, ground arith), tt))
            (ground (arith, length-append out (ch ∷ []))) (rw (nn, nr, fits, receive_loop) at h)
    ]
  ]
]

-- The bytes come in order, with idle seconds between them.
pub data Delivers : List Poll → Bytes → Type 0 where
  done : {polls : List Poll} → Delivers polls []
  wait : {polls : List Poll} {s : Bytes} → Delivers polls s → Delivers (idle ∷ polls) s
  byte :
      {polls : List Poll} {s : Bytes} (ch : ℕ)
      → Delivers polls s
      → Delivers (received ch ∷ polls) (ch ∷ s)

-- The same, and then nothing more until the deadline.
pub data Arrived : List Poll → Bytes → Type 0 where
  nothing : Arrived [] []
  wait : {polls : List Poll} {s : Bytes} → Arrived polls s → Arrived (idle ∷ polls) s
  byte :
      {polls : List Poll} {s : Bytes} (ch : ℕ)
      → Arrived polls s
      → Arrived (received ch ∷ polls) (ch ∷ s)

-- The behaviour of the loop on the bytes of a line, and on its end.
module _ (ch : ℕ) (polls : List Poll) (out : Bytes) where
  receive_plain :
      ch ≢ b'\n'
      → ch ≢ b'\r'
      → length out < max_json_line_bytes
      → receive_loop out (received ch ∷ polls) ≡ receive_loop (out ++ ch ∷ []) polls
  unfolding receive_loop
  receive_plain nn nr lt = ground arith

receive_loop_break :
    (polls : List Poll) (out : Bytes) → receive_loop out (received b'\n' ∷ polls) ≡ full out
unfolding receive_loop
receive_loop_break polls out = refl

receive_loop_idle :
    (polls : List Poll) (out : Bytes) → receive_loop out (idle ∷ polls) ≡ receive_loop out polls
unfolding receive_loop
receive_loop_idle polls out = refl

cons_eq : {x y : ℕ} {s t : Bytes} → x ∷ s ≡ y ∷ t → (x ≡ y) × (s ≡ t)
cons_eq e = (cc, cc)

receive_loop-Delivers :
    {polls : List Poll} {s : Bytes}
    → Delivers polls s
    → (line out : Bytes) → s ≡ line ++ b'\n' ∷ []
    → NoBreak line
    → length out + length line ≤ max_json_line_bytes
    → receive_loop out polls ≡ full (out ++ line)
receive_loop-Delivers done [] out e n le = cc
receive_loop-Delivers done (c ∷ line) out e n le = cc
receive_loop-Delivers (wait d) line out e n le =
    receive_loop_idle _ out ∙ receive_loop-Delivers d line out e n le
receive_loop-Delivers (byte {polls} ch d) [] out e n le =
    rw ((cons_eq e).0, receive_loop_break polls out, append-nil) refl
receive_loop-Delivers (byte {polls} ch d) (c ∷ line) out e n le =
    let (same, rest) = cons_eq e in
    rw (same, receive_plain c polls out n.0.0 n.0.1 (omega arith))
      (receive_loop-Delivers d line (out ++ c ∷ []) rest n.1
          (omega (arith, length-append out (c ∷ [])))
        ∙ ap full (append_assoc out (c ∷ []) line))

-- A line with no line break inside it, of at most 64 KiB, is received when its bytes and a line
-- break arrive before the deadline, whatever idle seconds lie between them; the client is unchanged.
pub receive_line-Delivers :
    (line : Bytes) (c : Client) {polls : List Poll}
    → c.connected ≡ true
    → NoBreak line
    → length line ≤ max_json_line_bytes
    → Delivers polls (line ++ b'\n' ∷ [])
    → receive_line polls c ≡ (c, some line)
unfolding receive_line
receive_line-Delivers line c on n le d =
    simp (on, receive_loop-Delivers d line [] refl n (omega arith))

-- What arrives of a line before a deadline is lost with the deadline.
receive_loop_partial :
    {polls : List Poll} {s : Bytes}
    → (out : Bytes) → Arrived polls s
    → NoBreak s
    → length out + length s ≤ max_json_line_bytes
    → receive_loop out polls ≡ timed_out (out ++ s)
receive_loop_partial out nothing n le = (unfold receive_loop in rw append-nil refl)
receive_loop_partial out (Arrived.wait a) n le =
    receive_loop_idle _ out ∙ receive_loop_partial out a n le
receive_loop_partial out (Arrived.byte {polls} {s} ch a) n le =
    rw (receive_plain ch polls out n.0.0 n.0.1 (omega arith)) (
      receive_loop_partial (out ++ ch ∷ []) a n.1 (omega (arith, length-append out (ch ∷ [])))
      ∙ ap timed_out (append_assoc out (ch ∷ []) s))

-- A deadline that passes inside a line.
pub receive_line_partial :
    (front : Bytes) (c : Client) {polls : List Poll}
    → c.connected ≡ true
    → NoBreak front
    → length front ≤ max_json_line_bytes
    → Arrived polls front
    → receive_line polls c ≡ (c, none)
unfolding receive_line
receive_line_partial front c on n le a = simp (on, receive_loop_partial [] a n (omega arith))

-- If a deadline passes inside a line, the bytes before it are gone: the next call gives the part of
-- the line behind them as if it were a whole line, and the client notices nothing.
pub receive_line_split :
    (front back : Bytes) (c : Client) {polls polls' : List Poll}
    → c.connected ≡ true
    → NoBreak front
    → NoBreak back
    → length front ≤ max_json_line_bytes
    → length back ≤ max_json_line_bytes
    → Arrived polls front
    → Delivers polls' (back ++ b'\n' ∷ [])
    → (receive_line polls c ≡ (c, none)) × (receive_line polls' c ≡ (c, some back))
receive_line_split front back c on nf nb lf lb a d =
    (receive_line_partial front c on nf lf a, receive_line-Delivers back c on nb lb d)

finish_receive-some :
    (c : Client) (r : Reading) (line : Bytes)
    → (finish_receive c r).1 ≡ some line
    → (r ≡ full line) × ((finish_receive c r).0 ≡ c)
finish_receive-some c (full l) line h = (ap full (cc), refl)
finish_receive-some c (timed_out out) line h = absurd (cc)
finish_receive-some c lost line h = absurd (cc)
finish_receive-some c oversized line h = absurd (cc)

receive_line_on :
    (polls : List Poll) (c : Client)
    → c.connected ≡ true
    → receive_line polls c ≡ finish_receive c (receive_loop [] polls)
unfolding receive_line
receive_line_on polls c on = rw on refl

receive_line_off :
    (polls : List Poll) (c : Client) → c.connected ≡ false → receive_line polls c ≡ (c, none)
unfolding receive_line
receive_line_off polls c off = rw off refl

-- A line that the client receives holds no line break and at most 64 KiB, and the client stays
-- connected and as it was.
pub receive_line-some :
    (polls : List Poll) (c : Client) (line : Bytes)
    → (receive_line polls c).1 ≡ some line
    → NoBreak line × (length line ≤ max_json_line_bytes) × ((receive_line polls c).0 ≡ c)
receive_line-some polls c line h = elim (Bool-cases c.connected) [
  | inl on ↦
      let same = receive_line_on polls c on in
      let ends =
        finish_receive-some c (receive_loop [] polls) line (sym (ap (λ r. r.1) same) ∙ h) in
      let bounds = receive_loop-full polls [] line tt (omega arith) ends.0 in
      (bounds.0, bounds.1, ap (λ r. r.0) same ∙ ends.1)
  | inr off ↦ absurd (let same = ap (λ r. r.1) (receive_line_off polls c off) in cc)
]
