-- ===== src/Sha256/Schedule.antt =====
-- The message schedule: what the two loops over `w` leave in it.
use native.Mathlib.Decide.{ℕ_discrete}
use hermit_miner.Base.Fields.{bit_or_sum}
use hermit_miner.Base.{
  ℕ, zero, suc, ◌+◌, ◌-◌, ◌*◌, ◌%◌, ◌^◌, bit_or, ◌≤◌, ◌<◌, ◌≡◌, refl, sym, ◌∙◌, List, [], ◌∷◌,
  arith, IsBytes, u32, ◌<<<◌, Bytes, length, get_or, set, length-set, get_or-set_self,
  get_or-set_ne,
}
use hermit_miner.Sha256.{
  schedule, load_words, extend_words, load_word, next_word, small_sigma0, small_sigma1,
}

-- What the loops store: sixteen loaded words, and each later one from those before it.
pub record Filled (msg : Bytes) (offset : ℕ) (w : List ℕ) : Type 0 where
  pub size : length w ≡ 64
  pub loaded : (t : ℕ) → t < 16 → get_or w t 0 ≡ load_word msg (offset + t * 4)
  pub extended : (t : ℕ) → 16 ≤ t → t < 64 → get_or w t 0 ≡ next_word w t

-- The first loop writes the words from `i` on and leaves those before.
load_words_lem :
    (left i : ℕ) (msg : Bytes) (offset : ℕ) (w : List ℕ)
    → i + left ≤ length w
    → (length (load_words left i msg offset w) ≡ length w)
      × ((t : ℕ) → t < i → get_or (load_words left i msg offset w) t 0 ≡ get_or w t 0)
      × ((t : ℕ)
          → i ≤ t
          → t < i + left
          → get_or (load_words left i msg offset w) t 0 ≡ load_word msg (offset + t * 4))
unfolding load_words
load_words_lem zero i msg offset w fits = (refl, λ t lt. refl, λ t le lt. absurd (omega arith))
load_words_lem (suc left) i msg offset w fits =
    let v = load_word msg (offset + i * 4) in
    let w' = set w i v in
    let size = length-set w i v in
    let ih = load_words_lem left (i + 1) msg offset w' (omega arith) in
    (
      ih.0 ∙ size,
      λ t lt. ih.1 t (omega arith) ∙ get_or-set_ne w i t v 0 (omega arith),
      λ t le lt. elim (ℕ_discrete i t) [
        | yes e ↦ rw (← e) (ih.1 i (omega arith) ∙ get_or-set_self w i v 0 (omega arith))
        | no ne ↦ ih.2 t (omega arith) (omega arith)
      ],
    )

-- Only words before `i` are read.
next_word_ext :
    (w w' : List ℕ) (i : ℕ)
    → 16 ≤ i
    → ((t : ℕ) → t < i → get_or w t 0 ≡ get_or w' t 0)
    → next_word w i ≡ next_word w' i
unfolding next_word
next_word_ext w w' i le same =
    rw
      (
        same (i - 2) (omega arith),
        same (i - 7) (omega arith),
        same (i - 15) (omega arith),
        same (i - 16) (omega arith),
      )
      refl

extend_words_lem :
    (left i : ℕ) (w : List ℕ)
    → 16 ≤ i
    → i + left ≤ length w
    → (length (extend_words left i w) ≡ length w)
      × ((t : ℕ) → t < i → get_or (extend_words left i w) t 0 ≡ get_or w t 0)
      × ((t : ℕ)
          → i ≤ t
          → t < i + left
          → get_or (extend_words left i w) t 0 ≡ next_word (extend_words left i w) t)
unfolding extend_words
extend_words_lem zero i w le16 fits = (refl, λ t lt. refl, λ t le lt. absurd (omega arith))
extend_words_lem (suc left) i w le16 fits =
    let v = next_word w i in
    let w' = set w i v in
    let size = length-set w i v in
    let ih = extend_words_lem left (i + 1) w' (omega arith) (omega arith) in
    let kept : (t : ℕ) → t < i → get_or (extend_words left (i + 1) w') t 0 ≡ get_or w t 0 =
      λ t lt. ih.1 t (omega arith) ∙ get_or-set_ne w i t v 0 (omega arith) in
    (
      ih.0 ∙ size,
      kept,
      λ t le lt. elim (ℕ_discrete i t) [
        | yes e ↦ rw (← e) (
            ih.1 i (omega arith)
            ∙ get_or-set_self w i v 0 (omega arith)
            ∙ next_word_ext w (extend_words left (i + 1) w') i le16 (λ t lt. sym (kept t lt)))
        | no ne ↦ ih.2 t (omega arith) (omega arith)
      ],
    )

pub schedule-Filled :
    (msg : Bytes) (offset : ℕ) (w : List ℕ)
    → length w ≡ 64
    → Filled msg offset (schedule msg offset w)
unfolding schedule
schedule-Filled msg offset w size =
    let first = load_words_lem 16 0 msg offset w (omega arith) in
    let w' = load_words 16 0 msg offset w in
    let second = extend_words_lem 48 16 w' (omega arith) (omega (arith, first.0)) in
    record {
      size = second.0 ∙ first.0 ∙ size;
      loaded = λ t lt. second.1 t lt ∙ first.2 t (omega arith) (omega arith);
      extended = λ t le lt. second.2 t le (omega arith);
    }

-- The words of FIPS 180-4: sixteen from the block, each the number that its four bytes write with the
-- highest one first, and each later word a sum modulo 2^32 of four words before it.
pub record IsSchedule (msg : Bytes) (offset : ℕ) (w : List ℕ) : Type 0 where
  pub size : length w ≡ 64
  pub loaded :
      (t : ℕ)
      → t < 16
      → get_or w t 0
        ≡ get_or msg (offset + t * 4) 0 * 2 ^ 24
          + get_or msg (offset + t * 4 + 1) 0 * 2 ^ 16
          + get_or msg (offset + t * 4 + 2) 0 * 2 ^ 8
          + get_or msg (offset + t * 4 + 3) 0
  pub extended :
      (t : ℕ)
      → t < 48
      → get_or w (t + 16) 0
        ≡ (small_sigma1 (get_or w (t + 14) 0)
            + get_or w (t + 9) 0
            + small_sigma0 (get_or w (t + 1) 0)
            + get_or w t 0)
          % 2 ^ 32

-- Four bytes, one behind the other, are the digits of a number to the base 256.
joined_bytes :
    (a b c d : ℕ)
    → a < 256
    → b < 256
    → c < 256
    → d < 256
    → bit_or (bit_or (bit_or (u32 (a <<< 24)) (u32 (b <<< 16))) (u32 (c <<< 8))) d
      ≡ a * 2 ^ 24 + b * 2 ^ 16 + c * 2 ^ 8 + d
joined_bytes a b c d ha hb hc hd =
    let wa : u32 (a <<< 24) ≡ a * 2 ^ 24 = omega arith in
    let wb : u32 (b <<< 16) ≡ b * 2 ^ 16 = omega arith in
    let wc : u32 (c <<< 8) ≡ c * 2 ^ 8 = omega arith in
    let two : a * 2 ^ 24 + b * 2 ^ 16 ≡ (a * 256 + b) * 2 ^ 16 = omega arith in
    let three : (a * 256 + b) * 2 ^ 16 + c * 2 ^ 8 ≡ ((a * 256 + b) * 256 + c) * 2 ^ 8 =
      omega arith in
    let first = bit_or_sum 24 a (b * 2 ^ 16) (omega arith) ∙ two in
    let second = bit_or_sum 16 (a * 256 + b) (c * 2 ^ 8) (omega arith) ∙ three in
    let third = bit_or_sum 8 ((a * 256 + b) * 256 + c) d (omega arith) in
    rw (wa, wb, wc, first, second, third) (omega arith)

get_or-IsBytes : (s : Bytes) (i : ℕ) → IsBytes s → get_or s i 0 < 256
get_or-IsBytes [] i h = omega arith
get_or-IsBytes (c ∷ s) zero h = h.0
get_or-IsBytes (c ∷ s) (suc i) h = get_or-IsBytes s i h.1

load_word_lem :
    (msg : Bytes) (j : ℕ)
    → IsBytes msg
    → load_word msg j
      ≡ get_or msg j 0 * 2 ^ 24
        + get_or msg (j + 1) 0 * 2 ^ 16
        + get_or msg (j + 2) 0 * 2 ^ 8
        + get_or msg (j + 3) 0
unfolding load_word
load_word_lem msg j h =
    joined_bytes (get_or msg j 0) (get_or msg (j + 1) 0) (get_or msg (j + 2) 0)
      (get_or msg (j + 3) 0) (get_or-IsBytes msg j h) (get_or-IsBytes msg (j + 1) h)
      (get_or-IsBytes msg (j + 2) h) (get_or-IsBytes msg (j + 3) h)

next_word_lem :
    (w : List ℕ) (t : ℕ)
    → next_word w (t + 16)
      ≡ (small_sigma1 (get_or w (t + 14) 0)
          + get_or w (t + 9) 0
          + small_sigma0 (get_or w (t + 1) 0)
          + get_or w t 0)
        % 2 ^ 32
unfolding next_word
next_word_lem w t =
    let two : t + 16 - 2 ≡ t + 14 = omega arith in
    let seven : t + 16 - 7 ≡ t + 9 = omega arith in
    let fifteen : t + 16 - 15 ≡ t + 1 = omega arith in
    let sixteen : t + 16 - 16 ≡ t = omega arith in rw (two, seven, fifteen, sixteen) refl

-- Whatever `w` held of earlier blocks, for a message of bytes, after both loops it holds the schedule
-- of this block.
pub schedule-IsSchedule :
    (msg : Bytes) (offset : ℕ) (w : List ℕ)
    → IsBytes msg
    → length w ≡ 64
    → IsSchedule msg offset (schedule msg offset w)
schedule-IsSchedule msg offset w bytes size =
    let filled = schedule-Filled msg offset w size in
    record {
      size = filled.size;
      loaded = λ t lt. filled.loaded t lt ∙ load_word_lem msg (offset + t * 4) bytes;
      extended = λ t lt.
          filled.extended (t + 16) (omega arith) (omega arith)
          ∙ next_word_lem (schedule msg offset w) t;
    }
