-- ===== src/FakePool/Quotes.antt =====
-- Where the name of a method stands in a request: behind the member "method", and nowhere in the
-- texts of the user, whatever these hold.
use hermit_miner.Base.{
  ℕ, ◌≡◌, ◌≢◌, refl, ◌∙◌, [], ◌∷◌, ◌++◌, append_assoc, none, Bytes, arith, strip, contains,
}
use hermit_miner.Stratum.Codec.Escape.{IsPlain}
use hermit_miner.Stratum.Patterns.Quotes.{NoQuote}
use hermit_miner.Stratum.Codec.{escape_char, json_escape}

-- A text that begins with a quote does not begin in a piece without quotes.
pub contains-NoQuote :
    (needle plain rest : Bytes)
    → NoQuote plain
    → contains (b'"' ∷ needle) (plain ++ rest) ≡ contains (b'"' ∷ needle) rest
contains-NoQuote needle [] rest h = refl
contains-NoQuote needle (c ∷ plain) rest (ne, h) =
    ground (arith, contains-NoQuote needle plain rest h)

-- A word, a quote and a colon do not begin an escaped text that a quote ends, unless a colon follows.
strip-json_escape :
    (word more text : Bytes) (sep : ℕ) (rest : Bytes)
    → IsPlain word
    → sep ≢ b':'
    → strip (word ++ b'"' ∷ b':' ∷ more) (json_escape text ++ b'"' ∷ sep ∷ rest) ≡ none
unfolding json_escape escape_char
strip-json_escape [] more [] sep rest p ne = ground arith
strip-json_escape [] more (ch ∷ text) sep rest p ne = ground arith
strip-json_escape (w ∷ word) more [] sep rest p ne = ground arith
strip-json_escape (w ∷ word) more (ch ∷ text) sep rest p ne =
    ground (arith, strip-json_escape word more text sep rest p.1 ne)

module _ (w : ℕ) (word more : Bytes) (plain : IsPlain (w ∷ word)) where
  abbrev pub member : Bytes
  member = b'"' ∷ (w ∷ word) ++ b'"' ∷ b':' ∷ more

  contains-escape_char :
      (ch : ℕ) (text : Bytes)
      → strip ((w ∷ word) ++ b'"' ∷ b':' ∷ more) text ≡ none
      → contains member (escape_char ch ++ text) ≡ contains member text
  unfolding escape_char
  contains-escape_char ch text none_after = ground arith

  -- An escaped text that a quote ends holds no such member: its own quotes stand behind backslashes.
  pub contains-json_escape :
      (text : Bytes) (sep : ℕ) (rest : Bytes)
      → sep ≢ b':'
      → sep ≢ w
      → contains member (json_escape text ++ b'"' ∷ sep ∷ rest) ≡ contains member (sep ∷ rest)
  unfolding json_escape
  contains-json_escape [] sep rest colon ne = ground arith
  contains-json_escape (ch ∷ text) sep rest colon ne = rw append_assoc (
      contains-escape_char ch (json_escape text ++ b'"' ∷ sep ∷ rest)
        (strip-json_escape (w ∷ word) more text sep rest plain colon)
      ∙ contains-json_escape text sep rest colon ne)

  contains_skip :
      (text : Bytes)
      → strip ((w ∷ word) ++ b'"' ∷ b':' ∷ more) text ≡ none
      → contains member (b'"' ∷ text) ≡ contains member text
  contains_skip text h = ground arith

  -- The same behind the quote that opens the text.
  pub contains-quoted :
      (text : Bytes) (sep : ℕ) (rest : Bytes)
      → sep ≢ b':'
      → sep ≢ w
      → contains member (b'"' ∷ (json_escape text ++ b'"' ∷ sep ∷ rest))
        ≡ contains member (sep ∷ rest)
  contains-quoted text sep rest colon ne =
      let opens = strip-json_escape (w ∷ word) more text sep rest plain colon in
      contains_skip (json_escape text ++ b'"' ∷ sep ∷ rest) opens
      ∙ contains-json_escape text sep rest colon ne
