-- ===== src/Logger/Redact.antt =====
-- `redact_sensitive_fields` of src/lib/logger.cpp. In both patterns what a repetition may match and
-- what must follow it have no character in common, and no name begins another one, so that a greedy
-- match needs no backtracking.
pub mod Passes
pub mod Front
use hermit_miner.Base.{
  ℕ, zero, suc, ◌-◌, Bool, not, ◌||◌, List, [], ◌∷◌, ◌++◌, Option, none, some, Bytes, codes, ◌==◌,
  if◌then◌else◌, ◌>>=◌, is_empty, length, strip, take,
}
use hermit_miner.Base.Digits.{skip_space, is_space}
use hermit_miner.Stratum.Patterns.{strip_icase, until_quote}

-- The alternatives of both patterns, in their order.
abbrev pub sensitive : List Bytes
sensitive =
    codes "password"
    ∷ codes "passwd"
    ∷ codes "secret"
    ∷ codes "token"
    ∷ codes "auth_token"
    ∷ codes "username"
    ∷ codes "payout_address"
    ∷ []

-- `(?:password|passwd|...)`: what follows the first alternative that matches.
unfoldable pub strip_name : List Bytes → Bytes → Option Bytes
strip_name [] s = none
strip_name (name ∷ names) s = elim (strip_icase name s) [
  | some rest ↦ some rest
  | none ↦ strip_name names s
]

-- The text in front of `rest`, which is an end of `s`.
abbrev pub before : Bytes → Bytes → Bytes
before s rest = take (length s - length rest) s

-- `("(?:...)"\s*:\s*")([^"]*)(")` with what replaces it, `$1***$3`, and what follows it.
unfoldable pub quoted_kv : Bytes → Option (Bytes × Bytes)
quoted_kv s = do
  s₁ ← strip (codes "\"") s
  s₂ ← strip_name sensitive s₁
  s₃ ← strip (codes "\"") s₂
  s₄ ← strip (codes ":") (skip_space s₃)
  s₅ ← strip (codes "\"") (skip_space s₄)
  (_, rest) ← until_quote s₅
  some (before s s₅ ++ codes "***\"", rest)

-- `[^,;\s]`
abbrev pub is_value : ℕ → Bool
is_value c = not (c == b',' || c == b';' || is_space c)

-- `[^,;\s]+`: what follows the longest run, if it is not empty.
unfoldable pub skip_value : Bytes → Bytes
skip_value [] = []
skip_value (c ∷ s) = if is_value c then skip_value s else c ∷ s

abbrev pub some_value : Bytes → Option Bytes
some_value [] = none
some_value (c ∷ s) = if is_value c then some (skip_value s) else none

-- `[=:]`
abbrev pub strip_sign : Bytes → Option Bytes
strip_sign [] = none
strip_sign (c ∷ s) = if c == b'=' || c == b':' then some s else none

-- `((?:...)\s*[=:]\s*)([^,;\s]+)` with what replaces it, `$1***`, and what follows it.
unfoldable pub plain_kv : Bytes → Option (Bytes × Bytes)
plain_kv s = do
  s₁ ← strip_name sensitive s
  s₂ ← strip_sign (skip_space s₁)
  rest ← some_value (skip_space s₂)
  some (before s (skip_space s₂) ++ codes "***", rest)

-- std::regex_replace: every match from the left, where none overlaps the one before; the number
-- counts the characters of a match that are still to be passed.
unfoldable pub replace_all : (Bytes → Option (Bytes × Bytes)) → ℕ → Bytes → Bytes
replace_all at skip [] = []
replace_all at (suc skip) (c ∷ s) = replace_all at skip s
replace_all at zero (c ∷ s) = elim (at (c ∷ s)) [
  | none ↦ c ∷ replace_all at zero s
  | some (out, rest) ↦ out ++ replace_all at (length s - length rest) s
]

unfoldable pub redact_sensitive_fields : Bytes → Bytes
redact_sensitive_fields input =
    if is_empty input then input else replace_all plain_kv zero (replace_all quoted_kv zero input)
