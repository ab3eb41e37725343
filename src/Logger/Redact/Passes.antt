-- ===== src/Logger/Redact/Passes.antt =====
-- The passes of std::regex_replace over a text: a match at the front, and a text that holds none.
use mathlib.Core.List.{Memᴰ}
use mathlib.Core.List.Memᴰ.{head, tail}
use mathlib.Core.Path.{subst}
use hermit_miner.Base.{
  ℕ, zero, ◌-◌, List, length, length-append, ◌≡◌, ◌≢◌, refl, ap, sym, true, false, [], ◌∷◌, ◌++◌,
  some, none, Option, Bytes, arith, All, take,
}
use hermit_miner.Logger.Redact.{before, quoted_kv, is_value, skip_value, replace_all}
use hermit_miner.Stratum.Patterns.Quotes.{NoQuote}

pub All-Mem {ℓ κ} : {A : Type ℓ} (P : A → Type κ) {a : A} (xs : List A) → All P xs → Memᴰ a xs → P a
All-Mem P [] ps m = elim m [ ]
All-Mem P (x ∷ xs) (p, ps) (head e) = subst P (sym e) p
All-Mem P (x ∷ xs) (p, ps) (tail m) = All-Mem P xs ps m

take_whole : (p x : Bytes) → take (length p) (p ++ x) ≡ p
take_whole [] x = refl
take_whole (c ∷ p) x = ap (λ r. c ∷ r) (take_whole p x)

rest_length : (p x : Bytes) → length (p ++ x) - length x ≡ length p
rest_length p x = omega (arith, length-append p x)

pub before-append : (p x : Bytes) → before (p ++ x) x ≡ p
before-append p x = rw (rest_length p x) (take_whole p x)

-- The pass over the rest of a match.
passes :
    (at : Bytes → Option (Bytes × Bytes)) (p rest : Bytes)
    → replace_all at (length p) (p ++ rest) ≡ replace_all at zero rest
unfolding replace_all
passes at [] rest = refl
passes at (c ∷ p) rest = passes at p rest

-- A match at the front, of a character, `p` and nothing more.
pub replaced :
    (at : Bytes → Option (Bytes × Bytes)) (c : ℕ) (p rest out : Bytes)
    → at (c ∷ (p ++ rest)) ≡ some (out, rest)
    → replace_all at zero (c ∷ (p ++ rest)) ≡ out ++ replace_all at zero rest
unfolding replace_all
replaced at c p rest out found = rw (replace_all, found, rest_length p rest, passes at p rest) refl

-- Texts without quotes are left by the first pattern.
pub quoted_kv-skips : (c : ℕ) (s : Bytes) → c ≢ b'"' → quoted_kv (c ∷ s) ≡ none
unfolding quoted_kv
quoted_kv-skips c s ne = ground arith

pub replace_all-NoQuote :
    (plain rest : Bytes)
    → NoQuote plain
    → replace_all quoted_kv zero (plain ++ rest) ≡ plain ++ replace_all quoted_kv zero rest
unfolding replace_all
replace_all-NoQuote [] rest h = refl
replace_all-NoQuote (c ∷ plain) rest (ne, h) =
    rw (replace_all, quoted_kv-skips c (plain ++ rest) ne)
      (ap (λ r. c ∷ r) (replace_all-NoQuote plain rest h))

-- What ends a value: a separator, or the end of the text.
abbrev pub EndsValue : Bytes → Type 0
EndsValue [] = Unit
EndsValue (c ∷ s) = (is_value c ≡ false) × (c ≢ b'"')

abbrev pub IsValue : Bytes → Type 0
IsValue = All (λ c. (is_value c ≡ true) × (c ≢ b'"'))

pub skip_value-IsValue :
    (v rest : Bytes) → IsValue v → EndsValue rest → skip_value (v ++ rest) ≡ rest
unfolding skip_value
skip_value-IsValue [] [] h e = refl
skip_value-IsValue [] (c ∷ rest) h e = rw e.0 refl
skip_value-IsValue (c ∷ v) rest ((is, ne), h) e = rw is (skip_value-IsValue v rest h e)
