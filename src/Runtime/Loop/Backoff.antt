-- ===== src/Runtime/Loop/Backoff.antt =====
-- The delay between sessions.
use native.Mathlib.Nat.{pow-suc, one-mul}
use hermit_miner.Base.{
  ℕ, suc, zero, ◌*◌, ◌^◌, ◌≤◌, ◌<◌, ◌≡◌, arith, u32, u32_max, min, max, ap, ◌∙◌,
}
use hermit_miner.Config.{MinerConfig}
use hermit_miner.Runtime.Loop.{next_backoff, backoff_initial, backoff_max}

-- The delay after so many failed sessions in a row.
abbrev pub delay : MinerConfig → ℕ → ℕ
delay cfg zero = backoff_initial cfg
delay cfg (suc n) = next_backoff cfg (delay cfg n)

-- Doubling with a cap, without machine words.
abbrev pub capped : MinerConfig → ℕ → ℕ
capped cfg n = min (backoff_max cfg) (2 ^ n * backoff_initial cfg)

doubled : (c q : ℕ) → c < 2 ^ 31 → min c (u32 (min c q * 2)) ≡ min c (2 * q)
doubled c q small = omega arith

reorder : (p b : ℕ) → 2 * (p * b) ≡ p * 2 * b
reorder p b = grind arith

twice : (n b : ℕ) → 2 * (2 ^ n * b) ≡ 2 ^ suc n * b
twice n b = rw (pow-suc 2 n) (reorder (2 ^ n) b)

uncapped : (b m : ℕ) → b ≡ min (max b m) b
uncapped b m = omega arith

-- With a cap below 2^31, the delay after n failed sessions in a row is the initial delay doubled n
-- times, or the cap where that is less.
pub delay-capped :
    (cfg : MinerConfig) (n : ℕ) → backoff_max cfg < 2 ^ 31 → delay cfg n ≡ capped cfg n
unfolding next_backoff
delay-capped cfg zero small =
    rw (one-mul) (uncapped (backoff_initial cfg) cfg.pool_reconnect_max_sec)
delay-capped cfg (suc n) small = rw (delay-capped cfg n small) (
    doubled (backoff_max cfg) (2 ^ n * backoff_initial cfg) small
    ∙ ap (min (backoff_max cfg)) (twice n (backoff_initial cfg)))

-- A delay of at least 2^31 seconds is followed by a shorter one, whatever the cap: twice a 32-bit
-- delay, less 2^32, is less than the delay.
pub next_backoff-wraps :
    (cfg : MinerConfig) (backoff_sec : ℕ)
    → 2 ^ 31 ≤ backoff_sec
    → backoff_sec ≤ u32_max
    → next_backoff cfg backoff_sec < backoff_sec
unfolding next_backoff
next_backoff-wraps cfg backoff_sec large fits = omega arith
