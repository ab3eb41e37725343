-- ===== src/Stratum/Transport/Sent.antt =====
-- What `send_line` puts on the socket.
use hermit_miner.Base.{
  ℕ, zero, suc, ◌≤◌, ◌≡◌, refl, true, false, List, [], ◌∷◌, ◌++◌, append_assoc, append-nil, arith,
  Bytes, length, take, drop, ◌==◌, ltb, Bool-cases, inl, inr, ap, ◌∙◌, sym,
}
use hermit_miner.Stratum.Transport.{Client, max_json_line_bytes, send_loop, send_line}

take-append-drop : (n : ℕ) (s : Bytes) → take n s ++ drop n s ≡ s
take-append-drop zero s = refl
take-append-drop (suc n) [] = refl
take-append-drop (suc n) (x ∷ s) = rw (take-append-drop n s) refl

send_loop_step :
    (sent : ℕ) (sends : List ℕ) (b : ℕ) (out : Bytes) (c : Client)
    → (sent == 0) ≡ false
    → send_loop (sent ∷ sends) (b ∷ out) c
      ≡ send_loop sends (drop sent (b ∷ out)) (record c { wire = c.wire ++ take sent (b ∷ out) })
unfolding send_loop
send_loop_step sent sends b out c nz = rw (nz, send_loop) refl

-- What a loop of sends has put on the socket when it succeeds, and what else it changed.
send_loop-true :
    (sends : List ℕ) (out : Bytes) (c : Client)
    → (send_loop sends out c).1 ≡ true
    → (send_loop sends out c).0 ≡ record c { wire = c.wire ++ out }
unfolding send_loop
send_loop-true sends [] c h = rw append-nil refl
send_loop-true [] (b ∷ out) c h = cc
send_loop-true (sent ∷ sends) (b ∷ out) c h = elim (Bool-cases (sent == 0)) [
  | inl z ↦ absurd (ground arith)
  | inr nz ↦
      let step = send_loop_step sent sends b out c nz in
      let wired = c.wire ++ take sent (b ∷ out) in
      ap (λ r. r.0) step
      ∙ send_loop-true sends (drop sent (b ∷ out)) (record c { wire = wired })
          (sym (ap (λ r. r.1) step) ∙ h)
      ∙ ap (λ w. record c { wire = w })
          (append_assoc c.wire (take sent (b ∷ out)) (drop sent (b ∷ out))
            ∙ ap (λ t. c.wire ++ t) (take-append-drop sent (b ∷ out)))
]

-- If a send succeeds, the socket was connected, the line has at most 64 KiB, the line and a line
-- break were put on the socket in full, and nothing else of the client changed.
pub send_line-true :
    (sends : List ℕ) (line : Bytes) (c : Client)
    → (send_line sends line c).1 ≡ true
    → ((send_line sends line c).0 ≡ record c { wire = c.wire ++ (line ++ b'\n' ∷ []) })
      × (c.connected ≡ true)
      × (length line ≤ max_json_line_bytes)
unfolding send_line
send_line-true sends line c h = elim (Bool-cases c.connected) [
  | inr off ↦ absurd (ground arith)
  | inl on ↦ elim (Bool-cases (ltb max_json_line_bytes (length line))) [
    | inl long ↦ absurd (ground arith)
    | inr fits ↦
        let step : send_line sends line c ≡ send_loop sends (line ++ b'\n' ∷ []) c =
          (unfold send_line in simp (on, fits)) in
        (
          ap (λ r. r.0) step
              ∙ send_loop-true sends (line ++ b'\n' ∷ []) c (sym (ap (λ r. r.1) step) ∙ h),
          on,
          ground arith,
        )
  ]
]
