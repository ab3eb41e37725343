-- ===== src/Runtime/Repeat.antt =====
-- A `while` loop whose body may return: what holds of all its rounds, and when it ends.
use hermit_miner.Base.{ℕ, zero, suc, ◌<◌, ◌≡◌, ◌≢◌, refl, Option, none, some, arith}

-- Go on with the next round; return a value; or an inner loop has used up its fuel.
pub data Control : Type 0 where
  next : Control
  give : ℕ → Control
  unfinished : Control

module _ {A : Type 0} (body : A → Control × A) where
  -- At most `fuel` rounds; `none` when the loop has not ended by then, with the state it is in.
  abbrev pub after : (A → Option ℕ × A) → Control × A → Option ℕ × A
  after rest (next, x) = rest x
  after rest (give rc, x) = (some rc, x)
  after rest (unfinished, x) = (none, x)

  unfoldable pub repeat : ℕ → A → Option ℕ × A
  repeat zero x = (none, x)
  repeat (suc fuel) x = after (repeat fuel) (body x)

  after_keeps :
      (P : A → Type 0) (rest : A → Option ℕ × A) (c : Control × A)
      → P c.1
      → ((y : A) → P y → P (rest y).1)
      → P (after rest c).1
  after_keeps P rest (next, y) p k = k y p
  after_keeps P rest (give rc, y) p k = p
  after_keeps P rest (unfinished, y) p k = p

  after_gives :
      (P : A → Type 0) (Q : ℕ → A → Type 0) (rest : A → Option ℕ × A) (c : Control × A) (rc : ℕ)
      → P c.1
      → (c.0 ≡ give rc → Q rc c.1)
      → ((y : A) → P y → (rest y).0 ≡ some rc → Q rc (rest y).1)
      → (after rest c).0 ≡ some rc
      → Q rc (after rest c).1
  after_gives P Q rest (next, y) rc p q k e = k y p e
  after_gives P Q rest (give v, y) rc p q k e = q (cc)
  after_gives P Q rest (unfinished, y) rc p q k e = absurd (cc)

  pub after_ends :
      (rest : A → Option ℕ × A) (c : Control × A)
      → c.0 ≢ unfinished
      → (c.0 ≡ next → (rest c.1).0 ≢ none)
      → (after rest c).0 ≢ none
  after_ends rest (next, y) u k = k refl
  after_ends rest (give v, y) u k = λ e. cc
  after_ends rest (unfinished, y) u k = absurd (u refl)

  module _ (P : A → Type 0) (keeps : (x : A) → P x → P (body x).1) where
    -- A property that the body keeps holds of the state that the loop ends or stands in.
    pub repeat_keeps : (fuel : ℕ) (x : A) → P x → P (repeat fuel x).1
    unfolding repeat
    repeat_keeps zero x p = p
    repeat_keeps (suc fuel) x p =
        after_keeps P (repeat fuel) (body x) (keeps x p) (λ y q. repeat_keeps fuel y q)

    -- A returned value was returned by a round.
    pub repeat_gives :
        (Q : ℕ → A → Type 0)
        → ((x : A) (rc : ℕ) → P x → (body x).0 ≡ give rc → Q rc (body x).1)
        → (fuel : ℕ) (x : A) (rc : ℕ) → P x
        → (repeat fuel x).0 ≡ some rc
        → Q rc (repeat fuel x).1
    unfolding repeat
    repeat_gives Q q zero x rc p e = absurd (cc)
    repeat_gives Q q (suc fuel) x rc p e =
        after_gives P Q (repeat fuel) (body x) rc (keeps x p) (q x rc p)
          (λ y r h. repeat_gives Q q fuel y rc r h) e

  -- A loop whose measure falls in each round that goes on ends, when the body itself does.
  pub repeat_ends :
      (measure : A → ℕ)
      → ((x : A) → (body x).0 ≢ unfinished)
      → ((x : A) → (body x).0 ≡ next → measure (body x).1 < measure x)
      → (fuel : ℕ) (x : A) → measure x < fuel
      → (repeat fuel x).0 ≢ none
  unfolding repeat
  repeat_ends measure ends falls zero x lt = absurd (omega arith)
  repeat_ends measure ends falls (suc fuel) x lt = after_ends (repeat fuel) (body x) (ends x) (λ e.
      let less : measure (body x).1 < measure x = falls x e in
      repeat_ends measure ends falls fuel (body x).1 (omega arith))
