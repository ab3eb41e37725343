-- ===== src/Stratum/Patterns.antt =====
-- The regular expressions of stratum.cpp. In each of them what a repetition may match and what
-- must follow it have no character in common, so that a greedy match needs no backtracking.
pub mod Quotes
use hermit_miner.Base.{
  ℕ, ◌+◌, true, false, ◌&&◌, [], ◌∷◌, Option, none, some, Bytes, codes, ◌==◌, leb, if◌then◌else◌,
  ◌>>=◌, strip, take,
}
use hermit_miner.Base.Digits.{span_digits, skip_space}

-- std::regex_search: the first position at which the pattern matches.
unfoldable pub search_for {ℓ} : {A : Type ℓ} → (Bytes → Option A) → Bytes → Option A
search_for at [] = at []
search_for at (c ∷ s) = elim (at (c ∷ s)) [ none ↦ search_for at s | some a ↦ some a ]

-- `std::regex_constants::icase`: letters are compared in lower case.
abbrev pub to_lower : ℕ → ℕ
to_lower c = if leb b'A' c && leb c b'Z' then c + 32 else c

-- A literal piece of a pattern that is matched without regard to case; the piece is in lower case.
unfoldable pub strip_icase : Bytes → Bytes → Option Bytes
strip_icase [] s = some s
strip_icase (p ∷ ps) [] = none
strip_icase (p ∷ ps) (c ∷ s) = elim (to_lower c == p) [ true ↦ strip_icase ps s | false ↦ none ]

-- `[0-9]+`, with what was matched and what follows.
abbrev pub nonempty : Bytes × Bytes → Option (Bytes × Bytes)
nonempty ([], rest) = none
nonempty (c ∷ run, rest) = some (c ∷ run, rest)

unfoldable pub digits_at : Bytes → Option (Bytes × Bytes)
digits_at s = nonempty (span_digits s)

-- What stands in front of the first quote, and what follows the quote.
unfoldable pub until_quote : Bytes → Option (Bytes × Bytes)
until_quote [] = none
until_quote (c ∷ s) = elim (c == b'"') [
  | true ↦ some ([], s)
  | false ↦ elim (until_quote s) [ none ↦ none | some (run, rest) ↦ some (c ∷ run, rest) ]
]

-- `"id"\s*:\s*([0-9]+)`
unfoldable pub id_at : Bytes → Option Bytes
id_at s = do
  s₁ ← strip (codes "\"id\"") s
  s₂ ← strip (codes ":") (skip_space s₁)
  (digits, _) ← digits_at (skip_space s₂)
  some digits

-- `(true|false)` without regard to case: the text that was matched.
unfoldable pub truth_at : Bytes → Option (Bytes × Bytes)
truth_at s = elim (strip_icase (codes "true") s) [
  | some rest ↦ some (take 4 s, rest)
  | none ↦ elim (strip_icase (codes "false") s) [ some rest ↦ some (take 5 s, rest) | none ↦ none ]
]

-- `"result"\s*:\s*(true|false)` without regard to case
unfoldable pub result_at : Bytes → Option Bytes
result_at s = do
  s₁ ← strip_icase (codes "\"result\"") s
  s₂ ← strip (codes ":") (skip_space s₁)
  (token, _) ← truth_at (skip_space s₂)
  some token

-- `"error"\s*:\s*null` without regard to case
unfoldable pub null_error_at : Bytes → Option (Unit {0})
null_error_at s = do
  s₁ ← strip_icase (codes "\"error\"") s
  s₂ ← strip (codes ":") (skip_space s₁)
  _ ← strip_icase (codes "null") (skip_space s₂)
  some tt

-- `"method"\s*:\s*"mining\.notify"`
unfoldable pub notify_method_at : Bytes → Option (Unit {0})
notify_method_at s = do
  s₁ ← strip (codes "\"method\"") s
  s₂ ← strip (codes ":") (skip_space s₁)
  _ ← strip (codes "\"mining.notify\"") (skip_space s₂)
  some tt

-- The four groups of the pattern of a job.
pub record JobMatch : Type 0 where
  pub job_id : Bytes
  pub prefix : Bytes
  pub bits : Bytes
  pub clean : Bytes

-- A comma between white space.
abbrev comma : Bytes → Option Bytes
comma s = do s₁ ← strip (codes ",") (skip_space s); some (skip_space s₁)

-- `[^"]+`, with a quote behind it
abbrev some_until_quote : Bytes → Option (Bytes × Bytes)
some_until_quote s = do (run, rest) ← until_quote s; nonempty (run, rest)

-- `"params"\s*:\s*\[\s*"([^"]+)"\s*,\s*"([^"]*)"\s*,\s*([0-9]+)\s*,\s*(true|false)`
unfoldable pub job_at : Bytes → Option JobMatch
job_at s = do
  s₁ ← strip_icase (codes "\"params\"") s
  s₂ ← strip (codes ":") (skip_space s₁)
  s₃ ← strip (codes "[") (skip_space s₂)
  s₄ ← strip (codes "\"") (skip_space s₃)
  (job_id, s₅) ← some_until_quote s₄
  s₆ ← comma s₅
  s₇ ← strip (codes "\"") s₆
  (prefix, s₈) ← until_quote s₇
  s₉ ← comma s₈
  (bits, s₁₀) ← digits_at s₉
  s₁₁ ← comma s₁₀
  (clean, _) ← truth_at s₁₁
  some (record { job_id = job_id; prefix = prefix; bits = bits; clean = clean })
