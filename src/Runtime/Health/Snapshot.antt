-- ===== src/Runtime/Health/Snapshot.antt =====
-- What a health file tells of the statistics.
use hermit_miner.Base.{ℕ, ◌≡◌, refl, ◌∙◌, ap, sym, [], ◌∷◌, ◌++◌, Bytes, codes, arith}
use hermit_miner.Base.Digits.Print.{scan-to_radix}
use hermit_miner.Base.Digits.{to_decimal, scan, digit_value}
use hermit_miner.Config.Json.{Parse, parsed, failed, out_of_fuel, parse_string}
use hermit_miner.Runtime.Health.{Doubles, compute_accepted_per_min, json_escape, snapshot}
use hermit_miner.Runtime.{SessionStats}
use hermit_miner.Stratum.Codec.Escape.{parse_string-json_escape}
use hermit_miner.Stratum.Codec as Codec

json_escape-same : (s : Bytes) → json_escape s ≡ Codec.json_escape s
unfolding json_escape Codec.json_escape Codec.escape_char
json_escape-same [] = refl
json_escape-same (c ∷ s) = ground (arith, json_escape-same s)

abbrev behind : Bytes → Bytes
behind [] = []
behind (c ∷ s) = s

cancel : (p : Bytes) {x y : Bytes} → p ++ x ≡ p ++ y → x ≡ y
cancel [] e = e
cancel (c ∷ p) e = cancel p (ap behind e)

abbrev read_of : Parse Bytes → Bytes × Bytes
read_of (parsed v rest) = (v, rest)
read_of failed = ([], [])
read_of out_of_fuel = ([], [])

text_read : (v r : Bytes) → read_of (parse_string (b'"' ∷ (json_escape v ++ b'"' ∷ r))) ≡ (v, r)
text_read v r = rw (json_escape-same v, parse_string-json_escape v r) refl

cancel_text :
    {v v' r r' : Bytes}
    → json_escape v ++ b'"' ∷ r ≡ json_escape v' ++ b'"' ∷ r'
    → (v ≡ v') × (r ≡ r')
cancel_text {v} {v'} {r} {r'} e =
    let same =
      sym (text_read v r) ∙ ap (λ s. read_of (parse_string (b'"' ∷ s))) e ∙ text_read v' r' in
    (ap (λ p. p.0) same, ap (λ p. p.1) same)

cancel_number :
    {n n' : ℕ} {r r' : Bytes}
    → to_decimal n ++ b',' ∷ r ≡ to_decimal n' ++ b',' ∷ r'
    → (n ≡ n') × (r ≡ r')
unfolding digit_value
cancel_number {n} {n'} {r} {r'} e =
    let got = scan-to_radix 10 n (b',' ∷ r) (omega arith) (omega arith) refl in
    let got' = scan-to_radix 10 n' (b',' ∷ r') (omega arith) (omega arith) refl in
    let same = sym got ∙ ap (scan 10 0) e ∙ got' in (ap (λ p. p.0) same, ap (λ p. behind p.1) same)

abbrev pub SameCounts : SessionStats → SessionStats → Type 0
SameCounts a b =
    (a.accepted_count ≡ b.accepted_count)
    × ((a.jobs_received ≡ b.jobs_received)
        × ((a.shares_found ≡ b.shares_found)
            × ((a.submits_attempted ≡ b.submits_attempted)
                × ((a.submit_failures ≡ b.submit_failures)
                    × ((a.reconnect_events ≡ b.reconnect_events)
                        × (a.session_failures ≡ b.session_failures))))))

-- For any rate that is printed from the accepted shares and the duration alone.
snapshot_parts :
    (rate : ℕ → ℕ → Bytes) (node node' status status' : Bytes) (a b : SessionStats) (d d' : ℕ)
    → snapshot node a status d (rate a.accepted_count d)
      ≡ snapshot node' b status' d' (rate b.accepted_count d')
    → (node ≡ node')
      × ((status ≡ status') × (SameCounts a b × ((d ≡ d') × (a.last_job_id ≡ b.last_job_id))))
unfolding snapshot
snapshot_parts rate node node' status status' a b d d' e =
    let (n, e₁) = cancel_text (cancel (codes "{\"node_id\":\"") e) in
    let (s, e₂) = cancel_text (cancel (codes ",\"status\":\"") e₁) in
    let (c₁, e₃) = cancel_number (cancel (codes ",\"accepted_count\":") e₂) in
    let (c₂, e₄) = cancel_number (cancel (codes "\"jobs_received\":") e₃) in
    let (c₃, e₅) = cancel_number (cancel (codes "\"shares_found\":") e₄) in
    let (c₄, e₆) = cancel_number (cancel (codes "\"submits_attempted\":") e₅) in
    let (c₅, e₇) = cancel_number (cancel (codes "\"submit_failures\":") e₆) in
    let (c₆, e₈) = cancel_number (cancel (codes "\"reconnect_events\":") e₇) in
    let (c₇, e₉) = cancel_number (cancel (codes "\"session_failures\":") e₈) in
    let (t, e₁₀) = cancel_number (cancel (codes "\"session_duration_sec\":") e₉) in
    let e₁₁ = cancel (codes "\"accepted_per_min\":") e₁₀ in
    let same_rate = rw (← c₁, ← t) at e₁₁ in
    let (j, _) =
      cancel_text
        (cancel (codes ",\"last_job_id\":\"") (cancel (rate a.accepted_count d) same_rate)) in
    (n, (s, ((c₁, (c₂, (c₃, (c₄, (c₅, (c₆, c₇)))))), (t, j))))

-- The rate as the runtime prints it.
abbrev pub printed_rate : Doubles → SessionStats → ℕ → Bytes
printed_rate doubles stats d = doubles.fixed_two (compute_accepted_per_min doubles stats d)

-- The text of the health file tells everything that was written into it apart: where two texts, each
-- with the rate of its statistics, are equal, so are the node, the status, the seven counts, the
-- duration and the last job, whatever the texts hold and however doubles are computed and printed.
pub snapshot-cancel :
    (doubles : Doubles) (node node' status status' : Bytes) (a b : SessionStats) (d d' : ℕ)
    → snapshot node a status d (printed_rate doubles a d)
      ≡ snapshot node' b status' d' (printed_rate doubles b d')
    → (node ≡ node')
      × ((status ≡ status') × (SameCounts a b × ((d ≡ d') × (a.last_job_id ≡ b.last_job_id))))
unfolding compute_accepted_per_min
snapshot-cancel doubles node node' status status' a b d d' e =
    snapshot_parts (λ count d. printed_rate doubles (record a { accepted_count = count }) d) node
      node' status status' a b d d' e
