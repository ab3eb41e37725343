-- ===== src/Base/Order.antt =====
-- `<` on the native numbers is well founded; products and powers of two.
use Prim.Native.Nat.{ℕ, zero, suc, ◌+◌, ◌*◌, ◌^◌, ◌≤◌, ◌<◌}
use mathlib.Core.Path.{◌≡◌}
use mathlib.Core.Logic.{◌↔◌}
use native.Mathlib.Nat.{pow-suc, one-le-pow, add-suc}
use mathlib.Core.WellFounded.{Acc, WellFounded}
use native.Mathlib.Omega.{arith}

Acc-below : (k n : ℕ) → n < k → Acc ◌<◌ n
Acc-below zero n h = absurd (omega arith)
Acc-below (suc k) n h = Acc.intro n (λ m hm. Acc-below k m (omega arith))

unfoldable pub lt_wf : WellFounded ◌<◌
unfolding Acc-below
lt_wf = record { apply = λ n. Acc-below (suc n) n (omega arith) }

pub scale : (a b c : ℕ) → a ≤ b → a * c ≤ b * c
scale a b c h = grind arith

pub scale_lt : (a b c : ℕ) → a < b → 0 < c → a * c < b * c
scale_lt a b c h p = grind arith

-- A common positive factor does not matter to an order.
pub scale_lt_iff : (a b c : ℕ) → 0 < c → (a * c < b * c) ↔ (a < b)
scale_lt_iff a b c pos = ground (arith, scale b a c, scale_lt a b c)

pub two-pow-add : (m n : ℕ) → 2 ^ (m + n) ≡ 2 ^ n * 2 ^ m
two-pow-add m zero = rw native.Mathlib.Nat.add-zero (omega arith)
two-pow-add m (suc n) = rw (add-suc, pow-suc 2 (m + n), pow-suc 2 n, two-pow-add m n) (omega arith)

pub two-pow_pos : (n : ℕ) → 0 < 2 ^ n
two-pow_pos n = one-le-pow n 2 (omega arith)
