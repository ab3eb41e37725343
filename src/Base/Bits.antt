-- ===== src/Base/Bits.antt =====
-- The binary digits of a number, and of what the operators on bits make.
use Prim.Native.Nat.{
  ℕ, zero, suc, ◌+◌, ◌-◌, ◌*◌, ◌/◌, ◌%◌, ◌^◌, ◌≤◌, ◌<◌, min, max, differ, digits, bit_and, bit_or,
  bit_xor, bit_and-bitwise, bit_or-bitwise, bit_xor-bitwise,
}
use mathlib.Core.Path.{◌≡◌, refl, ap, sym, ◌∙◌}
use native.Mathlib.Nat.{pow-suc, one-le-pow}
use native.Mathlib.Omega.{arith}

-- Digit `i` from the lowest one.
abbrev pub bit : ℕ → ℕ → ℕ
bit zero x = x % 2
bit (suc i) x = bit i (x / 2)

pub bit_zero : (i : ℕ) → bit i 0 ≡ 0
bit_zero zero = refl
bit_zero (suc i) = bit_zero i

pub bit-lt : (i x : ℕ) → bit i x < 2
bit-lt zero x = omega arith
bit-lt (suc i) x = bit-lt i (x / 2)

-- An operator goes digit by digit, when it makes digits of digits and what it leaves of the second
-- number, once the first one has run out, agrees with it there.
module _ (rest : ℕ → ℕ) (op : ℕ → ℕ → ℕ) (makes_digits : (x y : ℕ) → x < 2 → y < 2 → op x y < 2)
    (agrees : (i y : ℕ) → bit i (rest y) ≡ op 0 (bit i y)) where
  run_out : (i y : ℕ) → bit i (rest y) ≡ op (bit i 0) (bit i y)
  run_out i y = agrees i y ∙ ap (λ d. op d (bit i y)) (sym (bit_zero i))

  bit-digits :
      (left x y i : ℕ) → x ≤ left → bit i (digits rest op left x y) ≡ op (bit i x) (bit i y)
  bit-digits zero zero y i le = run_out i y
  bit-digits zero (suc x) y i le = absurd (omega arith)
  bit-digits (suc left) zero y i le = run_out i y
  bit-digits (suc left) (suc x) y zero le =
      omega (arith, makes_digits (suc x % 2) (y % 2) (omega arith) (omega arith))
  bit-digits (suc left) (suc x) y (suc i) le =
      let more = digits rest op left (suc x / 2) (y / 2) in
      let last = op (suc x % 2) (y % 2) in
      let half : (more * 2 + last) / 2 ≡ more =
        omega (arith, makes_digits (suc x % 2) (y % 2) (omega arith) (omega arith)) in
      rw half (bit-digits left (suc x / 2) (y / 2) i (omega arith))

-- Two digits differ when their sum is odd.
differ-digits : (a b : ℕ) → a < 2 → b < 2 → differ a b ≡ (a + b) % 2
differ-digits zero zero p q = refl
differ-digits zero (suc zero) p q = refl
differ-digits (suc zero) zero p q = refl
differ-digits (suc zero) (suc zero) p q = refl
differ-digits (suc (suc a)) b p q = absurd (omega arith)
differ-digits a (suc (suc b)) p q = absurd (omega arith)

pub bit-bit_and : (i x y : ℕ) → bit i (bit_and x y) ≡ min (bit i x) (bit i y)
bit-bit_and i x y =
    ap (bit i) (bit_and-bitwise x y)
    ∙ bit-digits (λ b. 0) min (λ c d p q. omega arith) (λ j b. omega (arith, bit_zero j)) x x y i
        (omega arith)

pub bit-bit_or : (i x y : ℕ) → bit i (bit_or x y) ≡ max (bit i x) (bit i y)
bit-bit_or i x y =
    ap (bit i) (bit_or-bitwise x y)
    ∙ bit-digits (λ b. b) max (λ c d p q. omega arith) (λ j b. omega arith) x x y i (omega arith)

pub bit-bit_xor : (i x y : ℕ) → bit i (bit_xor x y) ≡ (bit i x + bit i y) % 2
bit-bit_xor i x y =
    ap (bit i) (bit_xor-bitwise x y)
    ∙ bit-digits (λ b. b) differ (λ c d p q. omega (arith, differ-digits c d p q)) (λ j b. refl) x x
        y i (omega arith)
    ∙ differ-digits (bit i x) (bit i y) (bit-lt i x) (bit-lt i y)

-- A number less the one below a power of two.
pub bit-complement : (n i x : ℕ) → i < n → x < 2 ^ n → bit i (2 ^ n - 1 - x) ≡ 1 - bit i x
bit-complement zero i x lt small = absurd (omega arith)
bit-complement (suc n) zero x lt small = omega (arith, pow-suc 2 n)
bit-complement (suc n) (suc i) x lt small =
    let half : (2 ^ suc n - 1 - x) / 2 ≡ 2 ^ n - 1 - x / 2 = omega (arith, pow-suc 2 n) in
    rw half (bit-complement n i (x / 2) (omega arith) (omega (arith, pow-suc 2 n)))

doubled : (n q : ℕ) → q * 2 ^ suc n ≡ q * 2 ^ n + q * 2 ^ n
doubled n q = omega (arith, ap (◌*◌ q) (pow-suc 2 n))

-- The digits below `n`, and those from `n` on.
pub bit_low : (n i q r : ℕ) → i < n → bit i (q * 2 ^ n + r) ≡ bit i r
bit_low zero i q r lt = absurd (omega arith)
bit_low (suc n) zero q r lt = omega (arith, doubled n q)
bit_low (suc n) (suc i) q r lt =
    let half : (q * 2 ^ suc n + r) / 2 ≡ q * 2 ^ n + r / 2 = omega (arith, doubled n q) in
    rw half (bit_low n i q (r / 2) (omega arith))

pub bit_high : (n i j q r : ℕ) → r < 2 ^ n → j ≡ n + i → bit j (q * 2 ^ n + r) ≡ bit i q
bit_high zero i j q r small e =
    let same : j ≡ i = omega arith in
    let value : q * 2 ^ 0 + r ≡ q = omega arith in rw (same, value) refl
bit_high (suc n) i zero q r small e = absurd (omega arith)
bit_high (suc n) i (suc j) q r small e =
    let half : (q * 2 ^ suc n + r) / 2 ≡ q * 2 ^ n + r / 2 = omega (arith, doubled n q) in
    rw half (bit_high n i j q (r / 2) (omega (arith, pow-suc 2 n)) (omega arith))

split : (n x : ℕ) → (x ≡ x / 2 ^ n * 2 ^ n + x % 2 ^ n) × (x % 2 ^ n < 2 ^ n)
split n x = ground (arith, one-le-pow n 2)

pub bit-mod : (n i x : ℕ) → i < n → bit i (x % 2 ^ n) ≡ bit i x
bit-mod n i x lt = sym (ap (bit i) (split n x).0 ∙ bit_low n i (x / 2 ^ n) (x % 2 ^ n) lt)

pub bit-shift_right : (n i j x : ℕ) → j ≡ n + i → bit i (x / 2 ^ n) ≡ bit j x
bit-shift_right n i j x e =
    let (whole, small) = split n x in
    sym (ap (bit j) whole ∙ bit_high n i j (x / 2 ^ n) (x % 2 ^ n) small e)

-- Digits moved up: zeros below, and the digits of the number above.
pub bit-shift_left_low : (n i x : ℕ) → i < n → bit i (x * 2 ^ n) ≡ 0
bit-shift_left_low n i x lt =
    let e : x * 2 ^ n ≡ x * 2 ^ n + 0 = omega arith in
    ap (bit i) e ∙ bit_low n i x 0 lt ∙ bit_zero i

pub bit-shift_left_high : (n i j x : ℕ) → j ≡ n + i → bit j (x * 2 ^ n) ≡ bit i x
bit-shift_left_high n i j x same =
    let e : x * 2 ^ n ≡ x * 2 ^ n + 0 = omega arith in
    ap (bit j) e ∙ bit_high n i j x 0 (omega (arith, one-le-pow n 2)) same

-- There are no digits from `n` on in a number below 2 ^ n.
pub bit_above : (n i x : ℕ) → x < 2 ^ n → n ≤ i → bit i x ≡ 0
bit_above n i x small le =
    let e : x ≡ 0 * 2 ^ n + x = omega arith in
    ap (bit i) e ∙ bit_high n (i - n) i 0 x small (omega arith) ∙ bit_zero (i - n)
