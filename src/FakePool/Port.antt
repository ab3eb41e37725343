-- ===== src/FakePool/Port.antt =====
-- The port that src/fake_pool.cpp listens on: its argument, or 3333. `atoi` is a parameter, and its
-- int is a number or a negative one.
use hermit_miner.Base.{
  ℕ, ◌≤◌, ◌≡◌, refl, ◌⊎◌, inl, inr, Bool-cases, ◌&&◌, Option, none, some, Bytes, arith, ltb, leb,
  if◌then◌else◌, u16,
}

-- `negsuc n` is the number -(n + 1).
pub data ℤ : Type 0 where
  pos : ℕ → ℤ
  negsuc : ℕ → ℤ

abbrev of_value : ℤ → ℕ
of_value (pos v) = if ltb 0 v && leb v 65535 then u16 v else 3333
of_value (negsuc n) = 3333

unfoldable pub chosen_port : (Bytes → ℤ) → Option Bytes → ℕ
chosen_port atoi none = 3333
chosen_port atoi (some arg) = of_value (atoi arg)

of_value_lem :
    (v : ℤ)
    → (1 ≤ of_value v) × (of_value v ≤ 65535) × ((of_value v ≡ 3333) ⊎ (v ≡ pos (of_value v)))
of_value_lem (negsuc n) = (omega arith, omega arith, inl refl)
of_value_lem (pos v) = elim (Bool-cases (ltb 0 v && leb v 65535)) [
  | inl inside ↦ let same : u16 v ≡ v = ground arith in rw (inside, same) (ground arith)
  | inr outside ↦ rw outside (omega arith, omega arith, inl refl)
]

-- The port is in 1..65535, whatever the argument is, and it is 3333 or the number that atoi gives of
-- the argument: the cast to 16 bits loses nothing.
pub chosen_port-range :
    (atoi : Bytes → ℤ) (argument : Option Bytes)
    → (1 ≤ chosen_port atoi argument)
      × (chosen_port atoi argument ≤ 65535)
      × ((chosen_port atoi argument ≡ 3333)
          ⊎ ((arg : Bytes) × (argument ≡ some arg) × (atoi arg ≡ pos (chosen_port atoi argument))))
unfolding chosen_port
chosen_port-range atoi none = (omega arith, omega arith, inl refl)
chosen_port-range atoi (some arg) =
    let (low, high, which) = of_value_lem (atoi arg) in
    (low, high, elim which [ inl e ↦ inl e | inr e ↦ inr (arg, refl, e) ])
