-- ===== src/Base/Sums.antt =====
-- Sums over the indices below a bound.
use Prim.Native.Nat.{ℕ, zero, suc, ◌+◌, ◌*◌, ◌≤◌, ◌<◌, min}
use mathlib.Core.Path.{◌≡◌, refl, sym, subst}
use mathlib.Core.Logic.{◌≢◌}
use native.Mathlib.Decide.{dec_lt, ℕ_discrete}
use native.Mathlib.Omega.{arith}

abbrev pub sum : ℕ → (ℕ → ℕ) → ℕ
sum zero f = 0
sum (suc n) f = sum n f + f n

pub sum-le : (n : ℕ) (f g : ℕ → ℕ) → ((i : ℕ) → i < n → f i ≤ g i) → sum n f ≤ sum n g
sum-le zero f g h = omega arith
sum-le (suc n) f g h = omega (arith, h n (omega arith), sum-le n f g (λ i lt. h i (omega arith)))

-- A term that leaves room leaves the same room in the sum.
pub sum-le_room :
    (n : ℕ) (f g : ℕ → ℕ) (room j : ℕ)
    → j < n
    → ((i : ℕ) → i < n → f i ≤ g i)
    → f j + room ≤ g j
    → sum n f + room ≤ sum n g
sum-le_room zero f g room j lt h gap = absurd (omega arith)
sum-le_room (suc n) f g room j lt h gap = elim (ℕ_discrete j n) [
  | yes e ↦
      let last : f n + room ≤ g n = subst (λ k. f k + room ≤ g k) e gap in
      omega (arith, sum-le n f g (λ i l. h i (omega arith)), last)
  | no ne ↦ omega (
    arith,
    h n (omega arith),
    sum-le_room n f g room j (omega arith) (λ i l. h i (omega arith)) gap,
  )
]

sum-same : (n : ℕ) (f g : ℕ → ℕ) → ((i : ℕ) → i < n → g i ≡ f i) → sum n g ≡ sum n f
sum-same zero f g same = refl
sum-same (suc n) f g same =
    omega (arith, same n (omega arith), sum-same n f g (λ i lt. same i (omega arith)))

-- A change of one term changes the sum by as much.
pub sum-change :
    (n : ℕ) (f g : ℕ → ℕ) (j : ℕ)
    → j < n
    → ((i : ℕ) → i ≢ j → g i ≡ f i)
    → sum n g + f j ≡ sum n f + g j
sum-change zero f g j lt same = absurd (omega arith)
sum-change (suc n) f g j lt same = elim (ℕ_discrete j n) [
  | yes e ↦
      let rest = sum-same n f g (λ i l. same i (λ e'. omega arith)) in
      subst (λ k. sum n g + g n + f k ≡ sum n f + f n + g k) (sym e) (omega arith)
  | no ne ↦ omega (arith, same n (λ e. ne (sym e)), sum-change n f g j (omega arith) same)
]

-- A quotient for each index, and one more for the first `r` of them.
pub sum-shares :
    (q r n : ℕ) (f : ℕ → ℕ)
    → ((i : ℕ) → i < r → f i ≡ q + 1)
    → ((i : ℕ) → r ≤ i → f i ≡ q)
    → sum n f ≡ n * q + min n r
sum-shares q r zero f big small = omega arith
sum-shares q r (suc n) f big small = elim (dec_lt n r) [
  | yes lt ↦ omega (arith, big n lt, sum-shares q r n f big small)
  | no ge ↦ omega (arith, small n (omega arith), sum-shares q r n f big small)
]
