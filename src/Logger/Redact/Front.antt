-- ===== src/Logger/Redact/Front.antt =====
-- Texts in which neither pattern begins, whatever comes behind them.
use hermit_miner.Base.{
  ℕ, zero, ◌≡◌, ◌≢◌, refl, ap, false, [], ◌∷◌, ◌++◌, none, Bytes, codes, arith, ◌==◌, Bool-cases,
  inl, inr,
}
use hermit_miner.Logger.Redact.Passes.{quoted_kv-skips}
use hermit_miner.Logger.Redact.{sensitive, strip_name, quoted_kv, plain_kv, replace_all}
use hermit_miner.Stratum.Patterns.{to_lower, strip_icase}

-- No sensitive name begins with the character, in either case.
abbrev pub NoInitial : ℕ → Type 0
NoInitial c =
    (c ≢ b'p')
    × (c ≢ b's')
    × (c ≢ b't')
    × (c ≢ b'a')
    × (c ≢ b'u')
    × (c ≢ b'P')
    × (c ≢ b'S')
    × (c ≢ b'T')
    × (c ≢ b'A')
    × (c ≢ b'U')

-- A text of such characters that does not end with a quote.
abbrev pub IsFront : Bytes → Type 0
IsFront [] = Unit
IsFront (c ∷ []) = NoInitial c × (c ≢ b'"')
IsFront (c ∷ d ∷ front) = NoInitial c × IsFront (d ∷ front)

lower_other :
    (c : ℕ)
    → NoInitial c
    → ((to_lower c == b'p') ≡ false)
      × ((to_lower c == b's') ≡ false)
      × ((to_lower c == b't') ≡ false)
      × ((to_lower c == b'a') ≡ false)
      × ((to_lower c == b'u') ≡ false)
lower_other c h = (ground arith, ground arith, ground arith, ground arith, ground arith)

no_icase :
    (c p : ℕ) (s ps : Bytes) → (to_lower c == p) ≡ false → strip_icase (p ∷ ps) (c ∷ s) ≡ none
unfolding strip_icase
no_icase c p s ps e = rw (e, strip_icase) refl

no_name : (c : ℕ) (s : Bytes) → NoInitial c → strip_name sensitive (c ∷ s) ≡ none
unfolding strip_name
no_name c s h =
    let (p, q, t, a, u) = lower_other c h in
    rw
      (
        strip_name,
        no_icase c b'p' s (codes "assword") p,
        no_icase c b'p' s (codes "asswd") p,
        no_icase c b's' s (codes "ecret") q,
        no_icase c b't' s (codes "oken") t,
        no_icase c b'a' s (codes "uth_token") a,
        no_icase c b'u' s (codes "sername") u,
        no_icase c b'p' s (codes "ayout_address") p,
      )
      refl

plain_kv-skips : (c : ℕ) (s : Bytes) → NoInitial c → plain_kv (c ∷ s) ≡ none
unfolding plain_kv
plain_kv-skips c s h = rw (plain_kv, no_name c s h) refl

quoted_kv-no_name : (c d : ℕ) (s : Bytes) → NoInitial d → quoted_kv (c ∷ d ∷ s) ≡ none
unfolding quoted_kv
quoted_kv-no_name c d s h = elim (Bool-cases (c == b'"')) [
  | inl e ↦ let same : b'"' ≡ c = ground arith in rw (← same, quoted_kv, no_name d s h) refl
  | inr e ↦ quoted_kv-skips c (d ∷ s) (ground arith)
]

front_head : (c : ℕ) (front : Bytes) → IsFront (c ∷ front) → NoInitial c
front_head c [] h = h.0
front_head c (d ∷ front) h = h.0

IsFront-rest : (c : ℕ) (front : Bytes) → IsFront (c ∷ front) → IsFront front
IsFront-rest c [] h = tt
IsFront-rest c (d ∷ front) h = h.1

quoted_kv-front :
    (c : ℕ) (front s : Bytes) → IsFront (c ∷ front) → quoted_kv (c ∷ (front ++ s)) ≡ none
quoted_kv-front c [] s h = quoted_kv-skips c s h.1
quoted_kv-front c (d ∷ front) s h = quoted_kv-no_name c d (front ++ s) (front_head d front h.1)

-- Both passes leave such a text in front.
pub plain_pass-front :
    (front s : Bytes)
    → IsFront front
    → replace_all plain_kv zero (front ++ s) ≡ front ++ replace_all plain_kv zero s
unfolding replace_all
plain_pass-front [] s h = refl
plain_pass-front (c ∷ front) s h =
    rw (replace_all, plain_kv-skips c (front ++ s) (front_head c front h))
      (ap (λ r. c ∷ r) (plain_pass-front front s (IsFront-rest c front h)))

pub quoted_pass-front :
    (front s : Bytes)
    → IsFront front
    → replace_all quoted_kv zero (front ++ s) ≡ front ++ replace_all quoted_kv zero s
unfolding replace_all
quoted_pass-front [] s h = refl
quoted_pass-front (c ∷ front) s h =
    rw (replace_all, quoted_kv-front c front s h)
      (ap (λ r. c ∷ r) (quoted_pass-front front s (IsFront-rest c front h)))
