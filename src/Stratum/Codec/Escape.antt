-- ===== src/Stratum/Codec/Escape.antt =====
-- Escaped texts: no line break is left in them, and the JSON reader of the configuration gives the
-- text back.
use hermit_miner.Base.{
  ℕ, ◌≡◌, ◌≢◌, refl, false, [], ◌∷◌, ◌++◌, append_assoc, append-nil, arith, Bytes, All, All-append,
  ◌==◌,
}
use hermit_miner.Config.Json.{parsed, string_body, parse_string, unescape}
use hermit_miner.Stratum.Codec.{escape_char, json_escape}

-- The characters that would end a line of the protocol, or a JSON string, are gone.
abbrev pub NoBreak : Bytes → Type 0
NoBreak = All (λ c. (c ≢ b'\n') × (c ≢ b'\r'))

escape_char-NoBreak : (ch : ℕ) → NoBreak (escape_char ch)
unfolding escape_char
escape_char-NoBreak ch = ground arith

-- An escaped text holds no line break and no carriage return, whatever the text holds.
pub json_escape-NoBreak : (s : Bytes) → NoBreak (json_escape s)
unfolding json_escape
json_escape-NoBreak [] = tt
json_escape-NoBreak (ch ∷ s) =
    All-append _ (escape_char ch) (json_escape s) (escape_char-NoBreak ch) (json_escape-NoBreak s)

-- A character that is neither a quote nor a backslash stands for itself.
string_body_plain :
    (out : Bytes) (ch x : ℕ) (s : Bytes)
    → (ch == b'"') ≡ false
    → (ch == b'\\') ≡ false
    → string_body out (ch ∷ x ∷ s) ≡ string_body (out ++ ch ∷ []) (x ∷ s)
unfolding string_body
string_body_plain out ch x s q b = ground arith

string_body-escape_char :
    (out : Bytes) (ch x : ℕ) (s : Bytes)
    → string_body out (escape_char ch ++ x ∷ s) ≡ string_body (out ++ ch ∷ []) (x ∷ s)
unfolding string_body escape_char unescape
string_body-escape_char out ch x s = ground arith

-- Behind an escaped text there is at least the closing quote.
tail_cons : (s rest : Bytes) → (x : ℕ) × (t : Bytes) × (json_escape s ++ b'"' ∷ rest ≡ x ∷ t)
unfolding json_escape escape_char
tail_cons [] rest = (b'"', rest, refl)
tail_cons (ch ∷ s) rest = go (escape_char ch) refl
  where
    go :
        (e : Bytes)
        → escape_char ch ≡ e
        → (x : ℕ) × (t : Bytes) × (json_escape (ch ∷ s) ++ b'"' ∷ rest ≡ x ∷ t)
    go [] e = absurd (ground arith)
    go (y ∷ ys) e = (y, (ys ++ json_escape s) ++ b'"' ∷ rest, rw (json_escape, e) refl)

string_body-json_escape :
    (out s rest : Bytes) → string_body out (json_escape s ++ b'"' ∷ rest) ≡ parsed (out ++ s) rest
string_body-json_escape out [] [] = unfold string_body json_escape in rw append-nil
string_body-json_escape out [] (r ∷ rest) = unfold string_body json_escape in rw append-nil
string_body-json_escape out (ch ∷ s) rest =
    let (x, t, e) = tail_cons s rest in
    let split : json_escape (ch ∷ s) ++ b'"' ∷ rest ≡ escape_char ch ++ x ∷ t =
      (unfold json_escape in rw (append_assoc, e) refl) in
    rw
      (
        split,
        string_body-escape_char out ch x t,
        ← e,
        string_body-json_escape (out ++ ch ∷ []) s rest,
        append_assoc,
      )
      refl

-- The JSON reader gives every escaped text back, with what follows the closing quote.
pub parse_string-json_escape :
    (s rest : Bytes) → parse_string (b'"' ∷ (json_escape s ++ b'"' ∷ rest)) ≡ parsed s rest
unfolding parse_string
parse_string-json_escape s rest = string_body-json_escape [] s rest

-- Characters that an escaped text holds as they are.
abbrev pub IsPlain : Bytes → Type 0
IsPlain = All (λ c. (c ≢ b'"') × (c ≢ b'\\') × (c ≢ b'\n') × (c ≢ b'\r') × (c ≢ b'\t'))

pub json_escape_plain : (text : Bytes) → IsPlain text → json_escape text ≡ text
unfolding json_escape escape_char
json_escape_plain [] p = refl
json_escape_plain (c ∷ text) p = ground (arith, json_escape_plain text p.1)
