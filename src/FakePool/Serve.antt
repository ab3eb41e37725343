-- ===== src/FakePool/Serve.antt =====
-- What the client puts on the socket, as the pool takes it off: one line for each request.
use hermit_miner.Base.{
  ℕ, zero, suc, ◌<◌, ◌≡◌, refl, sym, Bool, ◌&&◌, if◌then◌else◌, inl, inr, true, false, List, [],
  ◌∷◌, ◌++◌, append_assoc, append-nil, Option, Option-cases, some, Bytes, arith, length, ◌==◌,
}
use hermit_miner.FakePool.{
  PoolState, pool_start, pool_receive_line, handle, serve, Setup, Shutdown, shut, pool_main,
  server_fd, client_fd,
}
use hermit_miner.Stratum.Codec.Escape.{NoBreak}

receive_line_from :
    (out line rest : Bytes)
    → NoBreak line
    → pool_receive_line out (line ++ b'\n' ∷ rest) ≡ some (out ++ line, rest)
unfolding pool_receive_line
receive_line_from out [] rest h = rw append-nil refl
receive_line_from out (c ∷ line) rest ((n, r), h) =
    let later = receive_line_from (out ++ c ∷ []) line rest h in
    let whole = append_assoc out (c ∷ []) line in ground arith

-- The pool takes off the socket the line that the client puts on it.
pub receive_line_whole :
    (line rest : Bytes)
    → NoBreak line
    → pool_receive_line [] (line ++ b'\n' ∷ rest) ≡ some (line, rest)
receive_line_whole line rest h = receive_line_from [] line rest h

shorter :
    (out stream line rest : Bytes)
    → pool_receive_line out stream ≡ some (line, rest)
    → length rest < length stream
unfolding pool_receive_line
shorter out [] line rest h = cc
shorter out (c ∷ stream) line rest h =
    ground (arith, shorter (out ++ c ∷ []) stream line rest, shorter out stream line rest)

-- With more rounds than bytes that the client sends, the loop of the pool ends when the socket is
-- closed.
pub serve_ends :
    (rounds : ℕ) (s : PoolState) (stream : Bytes)
    → length stream < rounds
    → (serve rounds s stream).0 ≡ true
unfolding serve
serve_ends zero s stream lt = absurd (omega arith)
serve_ends (suc rounds) s stream lt = elim (Option-cases (pool_receive_line [] stream)) [
  | inl closed ↦ rw (closed, serve) refl
  | inr ((line, rest), got) ↦
      rw (got, serve)
        (serve_ends rounds (handle s line).0 rest
          (let less = shorter [] stream line rest got in omega arith))
]

-- Whether the four calls of `main` succeed.
abbrev pub serving : Setup → Bool
serving setup = setup.created && setup.bound && setup.listening && setup.accepted

-- How `main` ends, by what its calls return and what the loop gives.
abbrev EndsWell : Setup → Option Shutdown → Type 0
EndsWell setup found =
    (end : Shutdown) × (found ≡ some end)
    × ((end.code == 0) ≡ serving setup)
    × (end.closed
        ≡ (if serving setup then client_fd ∷ [] else [])
          ++ (if setup.created then server_fd ∷ [] else []))

shut-EndsWell :
    (setup : Setup) (served : Bool × PoolState × List Bytes)
    → served.0 ≡ true
    → serving setup ≡ true
    → setup.created ≡ true
    → EndsWell setup (shut served)
shut-EndsWell setup (true, s, sent) closed all made = (
  record { code = 0; closed = client_fd ∷ server_fd ∷ []; sent = sent },
  refl,
  sym all,
  rw (all, made) refl,
)
shut-EndsWell setup (false, s, sent) closed all made = absurd (ground arith)

main-EndsWell :
    (created bound listening accepted : Bool) (rounds : ℕ) (stream : Bytes)
    → length stream < rounds
    → let setup : Setup = record {
      created = created;
      bound = bound;
      listening = listening;
      accepted = accepted;
    } in
      EndsWell setup (pool_main setup rounds stream)
unfolding pool_main
main-EndsWell false bound listening accepted rounds stream lt =
    (record { code = 2; closed = []; sent = [] }, refl, refl, refl)
main-EndsWell true false listening accepted rounds stream lt =
    (record { code = 3; closed = server_fd ∷ []; sent = [] }, refl, refl, refl)
main-EndsWell true true false accepted rounds stream lt =
    (record { code = 4; closed = server_fd ∷ []; sent = [] }, refl, refl, refl)
main-EndsWell true true true false rounds stream lt =
    (record { code = 5; closed = server_fd ∷ []; sent = [] }, refl, refl, refl)
main-EndsWell true true true true rounds stream lt =
    shut-EndsWell (record { created = true; bound = true; listening = true; accepted = true })
      (serve rounds pool_start stream) (serve_ends rounds pool_start stream lt) refl refl

-- With more rounds than bytes that the client sends, `main` ends: with the code 0 exactly if its four
-- calls succeed, it has closed its own socket exactly if that was made, and the socket of the client
-- exactly if it was accepted.
pub pool_main_ends :
    (setup : Setup) (rounds : ℕ) (stream : Bytes)
    → length stream < rounds
    → (end : Shutdown) × (pool_main setup rounds stream ≡ some end)
      × ((end.code == 0) ≡ serving setup)
      × (end.closed
          ≡ (if serving setup then client_fd ∷ [] else [])
            ++ (if setup.created then server_fd ∷ [] else []))
pool_main_ends setup rounds stream lt =
    main-EndsWell setup.created setup.bound setup.listening setup.accepted rounds stream lt
