-- ===== src/Stratum/Patterns/Quotes.antt =====
-- Texts without quotes, and what the patterns find in them.
use hermit_miner.Base.{ℕ, ◌≡◌, ◌≢◌, refl, [], ◌∷◌, ◌++◌, Option, none, some, Bytes, arith, All}
use hermit_miner.Stratum.Patterns.{search_for, until_quote}

abbrev pub NoQuote : Bytes → Type 0
NoQuote = All (λ c. c ≢ b'"')

-- A pattern that begins with a quote is not found in a text without quotes.
pub search_for-NoQuote {ℓ} :
    {A : Type ℓ} (at : Bytes → Option A)
    → ((c : ℕ) (s : Bytes) → c ≢ b'"' → at (c ∷ s) ≡ none)
    → (plain rest : Bytes) → NoQuote plain
    → search_for at (plain ++ rest) ≡ search_for at rest
unfolding search_for
search_for-NoQuote at skips [] rest h = refl
search_for-NoQuote at skips (c ∷ plain) rest (ne, h) =
    rw (search_for, skips c (plain ++ rest) ne) (search_for-NoQuote at skips plain rest h)

-- What stands in front of the next quote.
pub until_quote-NoQuote :
    (run rest : Bytes) → NoQuote run → until_quote (run ++ b'"' ∷ rest) ≡ some (run, rest)
unfolding until_quote
until_quote-NoQuote [] rest h = refl
until_quote-NoQuote (c ∷ run) rest (ne, h) =
    let later = until_quote-NoQuote run rest h in ground (arith, later)
