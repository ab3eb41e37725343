-- ===== src/Sha256/Compression.antt =====
-- The 64 rounds on one block, against the two recurrences of FIPS 180-4: of the eight working
-- variables only `a` and `e` are computed, the other six are older values of these two.
use hermit_miner.Base.{
  ℕ, zero, suc, ◌+◌, ◌%◌, ◌^◌, ◌<◌, ◌≡◌, refl, ◌∙◌, ap, List, arith, get_or, u32,
}
use hermit_miner.Sha256.{
  Registers, round, rounds, start_registers, add_registers, k_table, ch, maj, big_sigma0,
  big_sigma1,
}

-- The hash words `h'` come from `h` by the compression with the schedule `w`.
pub record IsCompression (w h h' : List ℕ) : Type 0 where
  pub a : ℕ → ℕ
  pub e : ℕ → ℕ
  pub start_a :
      (a 0 ≡ get_or h 3 0) × (a 1 ≡ get_or h 2 0) × (a 2 ≡ get_or h 1 0) × (a 3 ≡ get_or h 0 0)
  pub start_e :
      (e 0 ≡ get_or h 7 0) × (e 1 ≡ get_or h 6 0) × (e 2 ≡ get_or h 5 0) × (e 3 ≡ get_or h 4 0)
  pub next_a :
      (t : ℕ)
      → t < 64
      → a (t + 4)
        ≡ (e t
            + big_sigma1 (e (t + 3))
            + ch (e (t + 3)) (e (t + 2)) (e (t + 1))
            + get_or k_table t 0
            + get_or w t 0
            + big_sigma0 (a (t + 3))
            + maj (a (t + 3)) (a (t + 2)) (a (t + 1)))
          % 2 ^ 32
  pub next_e :
      (t : ℕ)
      → t < 64
      → e (t + 4)
        ≡ (a t
            + e t
            + big_sigma1 (e (t + 3))
            + ch (e (t + 3)) (e (t + 2)) (e (t + 1))
            + get_or k_table t 0
            + get_or w t 0)
          % 2 ^ 32
  pub result_a :
      (get_or h' 0 0 ≡ (get_or h 0 0 + a 67) % 2 ^ 32)
      × (get_or h' 1 0 ≡ (get_or h 1 0 + a 66) % 2 ^ 32)
      × (get_or h' 2 0 ≡ (get_or h 2 0 + a 65) % 2 ^ 32)
      × (get_or h' 3 0 ≡ (get_or h 3 0 + a 64) % 2 ^ 32)
  pub result_e :
      (get_or h' 4 0 ≡ (get_or h 4 0 + e 67) % 2 ^ 32)
      × (get_or h' 5 0 ≡ (get_or h 5 0 + e 66) % 2 ^ 32)
      × (get_or h' 6 0 ≡ (get_or h 6 0 + e 65) % 2 ^ 32)
      × (get_or h' 7 0 ≡ (get_or h 7 0 + e 64) % 2 ^ 32)

module _ (w : List ℕ) (r : Registers) where
  -- The working variables behind some rounds.
  abbrev behind : ℕ → Registers
  behind zero = r
  behind (suc t) = round w t (behind t)

  rounds-behind : (left t : ℕ) → rounds left t w (behind t) ≡ behind (t + left)
  unfolding rounds
  rounds-behind zero t = ap behind (let same : t ≡ t + zero = omega arith in same)
  rounds-behind (suc left) t =
      let next : t + 1 ≡ suc t = omega arith in
      let all : suc t + left ≡ t + suc left = omega arith in
      rw next (rounds-behind left (suc t) ∙ ap behind all)

  -- The values of `a`, and of `e`, from the oldest one of the start on.
  abbrev values_a : ℕ → ℕ
  values_a zero = r.d
  values_a (suc zero) = r.c
  values_a (suc (suc zero)) = r.b
  values_a (suc (suc (suc t))) = (behind t).a

  abbrev values_e : ℕ → ℕ
  values_e zero = r.hh
  values_e (suc zero) = r.g
  values_e (suc (suc zero)) = r.f
  values_e (suc (suc (suc t))) = (behind t).e

  older_b : (t : ℕ) → (behind t).b ≡ values_a (suc (suc t))
  unfolding round
  older_b zero = refl
  older_b (suc t) = refl

  older_c : (t : ℕ) → (behind t).c ≡ values_a (suc t)
  unfolding round
  older_c zero = refl
  older_c (suc t) = older_b t

  older_d : (t : ℕ) → (behind t).d ≡ values_a t
  unfolding round
  older_d zero = refl
  older_d (suc t) = older_c t

  older_f : (t : ℕ) → (behind t).f ≡ values_e (suc (suc t))
  unfolding round
  older_f zero = refl
  older_f (suc t) = refl

  older_g : (t : ℕ) → (behind t).g ≡ values_e (suc t)
  unfolding round
  older_g zero = refl
  older_g (suc t) = older_f t

  older_hh : (t : ℕ) → (behind t).hh ≡ values_e t
  unfolding round
  older_hh zero = refl
  older_hh (suc t) = older_g t

  round_a :
      (t : ℕ)
      → values_a (t + 4)
        ≡ (values_e t
            + big_sigma1 (values_e (t + 3))
            + ch (values_e (t + 3)) (values_e (t + 2)) (values_e (t + 1))
            + get_or k_table t 0
            + get_or w t 0
            + big_sigma0 (values_a (t + 3))
            + maj (values_a (t + 3)) (values_a (t + 2)) (values_a (t + 1)))
          % 2 ^ 32
  unfolding round
  round_a t =
      let one : t + 1 ≡ suc t = omega arith in
      let two : t + 2 ≡ suc (suc t) = omega arith in
      let three : t + 3 ≡ suc (suc (suc t)) = omega arith in
      let four : t + 4 ≡ suc (suc (suc (suc t))) = omega arith in
      rw (one, two, three, four, ← older_b t, ← older_c t, ← older_f t, ← older_g t, ← older_hh t)
        (omega arith)

  round_e :
      (t : ℕ)
      → values_e (t + 4)
        ≡ (values_a t
            + values_e t
            + big_sigma1 (values_e (t + 3))
            + ch (values_e (t + 3)) (values_e (t + 2)) (values_e (t + 1))
            + get_or k_table t 0
            + get_or w t 0)
          % 2 ^ 32
  unfolding round
  round_e t =
      let one : t + 1 ≡ suc t = omega arith in
      let two : t + 2 ≡ suc (suc t) = omega arith in
      let three : t + 3 ≡ suc (suc (suc t)) = omega arith in
      let four : t + 4 ≡ suc (suc (suc (suc t))) = omega arith in
      rw (one, two, three, four, ← older_d t, ← older_f t, ← older_g t, ← older_hh t) (omega arith)

pub rounds-IsCompression :
    (w h : List ℕ) → IsCompression w h (add_registers h (rounds 64 0 w (start_registers h)))
rounds-IsCompression w h =
    let r = start_registers h in
    let last = rounds-behind w r 64 0 in
    record {
      a = values_a w r;
      e = values_e w r;
      start_a = (refl, refl, refl, refl);
      start_e = (refl, refl, refl, refl);
      next_a = λ t lt. round_a w r t;
      next_e = λ t lt. round_e w r t;
      result_a = (
        ap (λ x. u32 (get_or h 0 0 + x.a)) last,
        ap (λ x. u32 (get_or h 1 0 + x.b)) last ∙ ap (λ x. u32 (get_or h 1 0 + x)) (older_b w r 64),
        ap (λ x. u32 (get_or h 2 0 + x.c)) last ∙ ap (λ x. u32 (get_or h 2 0 + x)) (older_c w r 64),
        ap (λ x. u32 (get_or h 3 0 + x.d)) last ∙ ap (λ x. u32 (get_or h 3 0 + x)) (older_d w r 64),
      );
      result_e = (
        ap (λ x. u32 (get_or h 4 0 + x.e)) last,
        ap (λ x. u32 (get_or h 5 0 + x.f)) last ∙ ap (λ x. u32 (get_or h 5 0 + x)) (older_f w r 64),
        ap (λ x. u32 (get_or h 6 0 + x.g)) last ∙ ap (λ x. u32 (get_or h 6 0 + x)) (older_g w r 64),
        ap (λ x. u32 (get_or h 7 0 + x.hh)) last
            ∙ ap (λ x. u32 (get_or h 7 0 + x)) (older_hh w r 64),
      );
    }
