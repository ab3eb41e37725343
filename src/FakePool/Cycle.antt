-- ===== src/FakePool/Cycle.antt =====
-- A cycle of the runtime against the pool.
use hermit_miner.Base.{
  ℕ, suc, ◌≡◌, refl, ap, ◌∙◌, Bool, true, false, List, [], ◌∷◌, ◌++◌, append_assoc, Bytes, codes,
  arith, u16,
}
use hermit_miner.Config.{MinerConfig, pool_username}
use hermit_miner.FakePool.Conversation.{serve-conversation}
use hermit_miner.FakePool.Jobs.{pool_job, wait_for_job-pool}
use hermit_miner.FakePool.Session.{
  connect-Succeeds, Served, Stands, said, subscribe-Succeeds, authorize-Succeeds,
  submit_share-Succeeds,
}
use hermit_miner.FakePool.{pool_start, serve, json_resp, notify_line, subscribe_result}
use hermit_miner.Logger.Event
use hermit_miner.Runtime.Pool.Rounds.{
  EndsAt, ends_with, health_client, round_over, mine_done, has_cycles_at,
}
use hermit_miner.Runtime.Health.{Outputs}
use hermit_miner.Runtime.Pool.{World, client_ops}
use hermit_miner.Runtime.Session.Cycle.{mining_on, credited, cycled, welcomed, session_accepted}
use hermit_miner.Runtime.Session.{mining_cfg, run_stratum_session}
use hermit_miner.Runtime.{Ops, MiningResult, SessionStats}
use hermit_miner.Stratum.Client.Waiting.{AllWaits}
use hermit_miner.Stratum.Client.{Exchange, Wait, say}
use hermit_miner.Stratum.Codec.{subscribe_request, authorize_request, submit_request}
use hermit_miner.Stratum.Connect.{Address, new_client, try_addresses}
use hermit_miner.Stratum.Transport.Lines.{Delivers}
use hermit_miner.Stratum.Transport.{Client}

abbrev pub agent : Bytes
agent = codes "hermit_miner/stratum-offline-ready"

-- What the client of a session puts on the socket.
abbrev pub conversation : MinerConfig → ℕ → Bytes
conversation cfg nonce =
    subscribe_request 1 agent
    ++ b'\n'
      ∷ (authorize_request 2 (pool_username cfg) cfg.pool_password
          ++ b'\n' ∷ (submit_request 3 (pool_username cfg) (pool_job 1).job_id nonce ++ b'\n' ∷ []))

three_lines :
    (a b c : Bytes)
    → ((a ++ b'\n' ∷ []) ++ (b ++ b'\n' ∷ [])) ++ (c ++ b'\n' ∷ [])
      ≡ a ++ b'\n' ∷ (b ++ b'\n' ∷ (c ++ b'\n' ∷ []))
three_lines a b c =
    append_assoc (a ++ b'\n' ∷ []) (b ++ b'\n' ∷ []) (c ++ b'\n' ∷ [])
    ∙ append_assoc a (b'\n' ∷ []) ((b ++ b'\n' ∷ []) ++ (c ++ b'\n' ∷ []))
    ∙ ap (λ t. a ++ b'\n' ∷ t) (append_assoc b (b'\n' ∷ []) (c ++ b'\n' ∷ []))

module _ (cfg : MinerConfig) (search : MinerConfig → World → MiningResult) (clock : World → ℕ)
    (rate : SessionStats → ℕ → Bytes) (opens : World → Bool) where
  abbrev ops : Ops World
  ops = client_ops cfg search clock rate opens

  abbrev first_requests : Bytes
  first_requests =
      (subscribe_request 1 agent ++ b'\n' ∷ [])
      ++ (authorize_request 2 (pool_username cfg) cfg.pool_password ++ b'\n' ∷ [])

  -- The start of a session, up to the client that waits for a job.
  record Opens (w w₃ : World) : Type 0 where
    w₁ : World
    w₂ : World
    connects_to : ops.connect_to_pool (ops.new_client w) ≡ (true, w₁)
    subscribes : ops.subscribe agent w₁ ≡ (true, w₂)
    authorizes : ops.authorize (pool_username cfg) cfg.pool_password w₂ ≡ (true, w₃)

  session-Opens :
      (w : World) (addrs : List Address) (cs : List (List Address)) (x₁ x₂ : Exchange)
      (es : List Exchange)
      → (try_addresses addrs).reached_one ≡ true
      → Served (subscribe_request 1 agent) (json_resp 1 subscribe_result (codes "null")) 1 x₁
      → Served
          (authorize_request 2 (pool_username cfg) cfg.pool_password)
          (json_resp 2 (codes "true") (codes "null"))
          2
          x₂
      → (c : Client) × Stands 3 first_requests c
        × Opens
            (record w { connects = addrs ∷ cs; exchanges = x₁ ∷ x₂ ∷ es })
            (record w { client = c; connects = cs; exchanges = es })
  session-Opens w addrs cs x₁ x₂ es reach v₁ v₂ =
      let c₀ : Client = record (new_client cfg.node_id) { log = w.client.log } in
      let s₁ = connect-Succeeds cfg.pool_host (u16 cfg.pool_port) addrs c₀ refl refl reach in
      let s₂ = subscribe-Succeeds agent x₁ s₁.client [] 1 (omega arith) s₁.stands v₁ in
      let s₃ =
        authorize-Succeeds (pool_username cfg) cfg.pool_password x₂ s₂.client _ 2 (omega arith)
          s₂.stands v₂ in
      let here : World = record w { connects = addrs ∷ cs; exchanges = x₁ ∷ x₂ ∷ es } in
      let w₁ : World = record here { client = s₁.client; connects = cs } in
      let w₂ : World = record w₁ { client = s₂.client; exchanges = x₂ ∷ es } in
      (
        s₃.client,
        s₃.stands,
        record {
          w₁ = w₁;
          w₂ = w₂;
          connects_to = ap (λ r. (r.1, record here { client = r.0; connects = cs })) s₁.result;
          subscribes = ap (λ r. (r.1, record w₁ { client = r.0; exchanges = x₂ ∷ es })) s₂.result;
          authorizes = ap (λ r. (r.1, record w₂ { client = r.0; exchanges = es })) s₃.result;
        },
      )

  -- What the search gives for the first job of the pool, in every world.
  abbrev pub Finds : ℕ → Type 0
  Finds nonce =
      (w : World)
      → ((search (mining_cfg ops cfg (pool_job 1)) w).aborted ≡ false)
        × ((search (mining_cfg ops cfg (pool_job 1)) w).found ≡ true)
        × ((search (mining_cfg ops cfg (pool_job 1)) w).nonce ≡ nonce)

  -- Against the pool: a session with a limit of one cycle, no stop request at its first load, a pool
  -- that is reached, requests that are sent in full, and answers of the pool that are delivered behind
  -- any number of calls without them, and that finds a nonce for the first job, returns 0; the job, the
  -- share and its acceptance are each counted once more. What it has put on the socket is the
  -- subscription, the authorization and the share of that nonce, and the pool, given these bytes,
  -- sends exactly these answers and jobs.
  pub run_stratum_session-pool :
      (rounds m nonce : ℕ) (stats : SessionStats) (c : Client) (o : Outputs) (addrs : List Address)
      (cs : List (List Address)) (x₁ x₂ x₃ : Exchange) (es : List Exchange) {before : List Wait}
      (last : Wait) (later : List Wait) (ws : List (List Wait))
      → cfg.pool_max_cycles ≡ 1
      → (try_addresses addrs).reached_one ≡ true
      → Served (subscribe_request 1 agent) (json_resp 1 subscribe_result (codes "null")) 1 x₁
      → Served
          (authorize_request 2 (pool_username cfg) cfg.pool_password)
          (json_resp 2 (codes "true") (codes "null"))
          2
          x₂
      → AllWaits before
      → last.stop_requested ≡ false
      → Delivers last.polls (notify_line 1 ++ b'\n' ∷ [])
      → Finds nonce
      → Served
          (submit_request 3 (pool_username cfg) (pool_job 1).job_id nonce)
          (json_resp 3 (codes "true") (codes "null"))
          3
          x₃
      → EndsAt (credited (pool_job 1) stats) 1 (conversation cfg nonce) (
          run_stratum_session ops cfg (suc (suc rounds)) (record {
            world = record {
              client = c;
              outputs = o;
              connects = addrs ∷ cs;
              exchanges = x₁ ∷ x₂ ∷ x₃ ∷ es;
              waits = (before ++ last ∷ later) ∷ ws;
              loads_left = suc m;
            };
            cycles_done = 0;
            stats = stats;
          }))
        × (serve 4 pool_start (conversation cfg nonce) ≡ (
          true,
          record { notified = true; job_seq = 2 },
          json_resp 1 subscribe_result (codes "null")
              ∷ json_resp 2 (codes "true") (codes "null")
              ∷ notify_line 1
              ∷ json_resp 3 (codes "true") (codes "null")
              ∷ notify_line 2
              ∷ [],
        ))
  run_stratum_session-pool rounds m nonce stats c o addrs cs x₁ x₂ x₃ es {before} last later ws one
        reach v₁ v₂ b go d finds v₃ =
      let job = pool_job 1 in
      let user = pool_username cfg in
      let script = (before ++ last ∷ later) ∷ ws in
      let w : World = record {
        client = c;
        outputs = o;
        connects = addrs ∷ cs;
        exchanges = x₁ ∷ x₂ ∷ x₃ ∷ es;
        waits = script;
        loads_left = suc m;
      } in
      let (c₃, stands, opening) = session-Opens w addrs cs x₁ x₂ (x₃ ∷ es) reach v₁ v₂ in
      let w₃ : World = record w { client = c₃; connects = cs; exchanges = x₃ ∷ es } in
      let w₄ : World = record (welcomed ops cfg w₃) { loads_left = m } in
      let heard = say Event.info (codes "Received mining.notify") job.job_id w₄.client in
      let w₆ : World = mining_on ops cfg job (record w₄ { client = heard; waits = ws }) in
      let (on, found, is) = finds w₆ in
      let s₇ =
        submit_share-Succeeds user job.job_id nonce x₃ w₆.client _ 3 (omega arith)
          (said _ (said _ (said _ stands))) v₃ in
      let w₇ : World = record w₆ { client = s₇.client; exchanges = es } in
      let whole =
        session_accepted ops cfg (suc rounds) job (search (mining_cfg ops cfg job) w₆)
          (record { world = w; cycles_done = 0; stats = stats }) opening.w₁ opening.w₂ w₃ w₄
          (record w₄ { client = heard; waits = ws }) w₆ w₇ opening.connects_to opening.subscribes
          opening.authorizes refl (has_cycles_at cfg search clock rate opens 0 one)
          (ap (λ r. (r.1, record w₄ { client = r.0; waits = ws }))
            (wait_for_job-pool 1 w₄.client last later (omega arith) stands.on b go d))
          (mine_done cfg search clock rate opens (mining_cfg ops cfg job) w₆ on) on found
          (ap (λ n. ops.submit_share user job.job_id n w₆) is
            ∙ ap (λ r. (r.1, record w₆ { client = r.0; exchanges = es })) s₇.result) in
      let y = cycled ops cfg job (record { world = w; cycles_done = 0; stats = stats }) w₇ in
      (
        ends_with whole
            (round_over cfg search clock rate opens rounds y
              (has_cycles_at cfg search clock rate opens 1 one))
            (ap (λ d. d.wire) (health_client cfg search clock rate opens (credited job stats) w₇)
              ∙ s₇.stands.wired
              ∙ three_lines _ _ _),
        serve-conversation 1 2 3 agent user cfg.pool_password job.job_id nonce (omega arith)
            (omega arith) (omega arith),
      )
