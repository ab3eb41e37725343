-- ===== src/Config/Json.antt =====
-- The JSON reader of miner_config.cpp. The position in the input is the rest of the input. A
-- failure ends the whole read, so that nothing is kept of the values read before it.
pub mod Shrinks
pub mod Total
pub mod Numbers
pub mod Print
use hermit_miner.Base.{
  ℕ, zero, suc, Bool, true, false, ◌&&◌, ◌||◌, List, [], ◌∷◌, ◌++◌, Option, none, some, Bytes,
  codes, ◌==◌, if◌then◌else◌, equal, strip, length,
}
use hermit_miner.Base.Digits.{is_digit, span_digits, stoull, value, invalid_argument, out_of_range}

-- `JsonValue`, with the field that its type tag selects; the map is a list of its entries.
mutual
  pub data JsonValue : Type 0 where
    null : JsonValue
    bool : Bool → JsonValue
    number : ℕ → JsonValue
    string : Bytes → JsonValue
    object : Members → JsonValue

  pub data Members : Type 0 where
    end : Members
    member : Bytes → JsonValue → Members → Members

-- `object_value[key] = value`
unfoldable pub put : Bytes → JsonValue → Members → Members
put key v end = member key v end
put key v (member k w ms) = if equal k key then member k v ms else member k w (put key v ms)

-- `object_value.find(key)`
unfoldable pub find : Bytes → Members → Option JsonValue
find key end = none
find key (member k w ms) = if equal k key then some w else find key ms

-- A value with the rest of the input, or the result false. `out_of_fuel` is of the model alone.
pub data Parse {ℓ} (A : Type ℓ) : Type ℓ where
  parsed : A → Bytes → Parse A
  failed out_of_fuel : Parse A

infixl 5 ◌>>=◌
abbrev pub ◌>>=◌ {ℓ κ} : {A : Type ℓ} {B : Type κ} → Parse A → (A → Bytes → Parse B) → Parse B
parsed a s >>= f = f a s
failed >>= f = failed
out_of_fuel >>= f = out_of_fuel

abbrev is_ws : ℕ → Bool
is_ws ch = ch == b' ' || ch == b'\n' || ch == b'\r' || ch == b'\t'

unfoldable pub skip_ws : Bytes → Bytes
skip_ws [] = []
skip_ws (ch ∷ s) = if is_ws ch then skip_ws s else ch ∷ s

-- What a backslash and `esc` stand for.
unfoldable pub unescape : ℕ → Option ℕ
unescape esc =
    if esc == b'"'
    then some b'"'
    else if esc == b'\\'
    then some b'\\'
    else if esc == b'/'
    then some b'/'
    else if esc == b'b'
    then some 8
    else if esc == b'f'
    then some 12
    else if esc == b'n'
    then some b'\n'
    else if esc == b'r'
    then some b'\r'
    else if esc == b't'
    then some b'\t'
    else none

-- The loop of `parse_string` behind the opening quote, with what `oss` holds.
unfoldable pub string_body : Bytes → Bytes → Parse Bytes
string_body out [] = failed
string_body out (ch ∷ []) = if ch == b'"' then parsed out [] else failed
string_body out (ch ∷ esc ∷ s) = elim (ch == b'"') [
  | true ↦ parsed out (esc ∷ s)
  | false ↦ elim (ch == b'\\') [
    | true ↦ elim (unescape esc) [ none ↦ failed | some c ↦ string_body (out ++ (c ∷ [])) s ]
    | false ↦ string_body (out ++ (ch ∷ [])) (esc ∷ s)
  ]
]

unfoldable pub parse_string : Bytes → Parse Bytes
parse_string [] = failed
parse_string (ch ∷ s) = if ch == b'"' then string_body [] s else failed

abbrev number_of : Bytes → Bytes → Parse ℕ
number_of text rest = elim (stoull 10 text) [
  | value v _ ↦ parsed v rest
  | invalid_argument ↦ failed
  | out_of_range ↦ failed
]

unfoldable pub parse_number : Bytes → Parse ℕ
parse_number [] = failed
parse_number (ch ∷ s) =
    let (text, rest) = span_digits (ch ∷ s) in if is_digit ch then number_of text rest else failed

-- `input_.compare(pos_, n, word) == 0`
abbrev keyword {ℓ} : {A : Type ℓ} → Bytes → A → Bytes → Parse A → Parse A
keyword word v s otherwise = elim (strip word s) [ none ↦ otherwise | some rest ↦ parsed v rest ]

unfoldable pub parse_bool : Bytes → Parse Bool
parse_bool s = keyword (codes "true") true s (keyword (codes "false") false s failed)

unfoldable pub parse_null : Bytes → Parse JsonValue
parse_null s = keyword (codes "null") null s failed

-- `parse_object` behind the opening brace; `members` is its loop, from no entries on.
unfoldable pub parse_object : (Bytes → Parse JsonValue) → Bytes → Parse JsonValue
parse_object members s = elim (skip_ws s) [
  | [] ↦ members []
  | ch ∷ rest ↦ elim (ch == b'}') [ true ↦ parsed (object end) rest | false ↦ members (ch ∷ rest) ]
]

-- `parse_value` behind the white space: the kind of the value by its first character.
unfoldable pub dispatch : (Bytes → Parse JsonValue) → Bytes → Parse JsonValue
dispatch members [] = failed
dispatch members (ch ∷ s) =
    if ch == b'{'
    then parse_object members s
    else if ch == b'"'
    then parse_string (ch ∷ s) >>= (λ v rest. parsed (string v) rest)
    else if ch == b't' || ch == b'f'
    then parse_bool (ch ∷ s) >>= (λ v rest. parsed (bool v) rest)
    else if ch == b'n'
    then parse_null (ch ∷ s)
    else if is_digit ch
    then parse_number (ch ∷ s) >>= (λ v rest. parsed (number v) rest)
    else failed

-- The given character, which must come next.
abbrev expect : ℕ → Bytes → Parse (Unit {0})
expect c [] = failed
expect c (ch ∷ s) = if ch == c then parsed tt s else failed

-- Behind a value: the object ends, or another entry follows.
unfoldable pub after_value : (Bytes → Parse JsonValue) → Members → Bytes → Parse JsonValue
after_value again ms [] = failed
after_value again ms (ch ∷ s) =
    if ch == b'}' then parsed (object ms) s else if ch == b',' then again s else failed

-- One round of the loop of `parse_object`, from the entries read so far.
unfoldable pub member_round :
    (Bytes → Parse JsonValue)
    → (Members → Bytes → Parse JsonValue)
    → Members
    → Bytes
    → Parse JsonValue
member_round val loop ms [] = failed
member_round val loop ms (ch ∷ s) = parse_string (skip_ws (ch ∷ s)) >>= λ key s₁.
    expect b':' (skip_ws s₁) >>= λ _ s₂.
    val s₂ >>= λ v s₃. after_value (loop (put key v ms)) (put key v ms) (skip_ws s₃)

unfoldable mutual
  pub parse_value : ℕ → Bytes → Parse JsonValue
  parse_value zero s = out_of_fuel
  parse_value (suc fuel) s = dispatch (parse_members fuel end) (skip_ws s)

  pub parse_members : ℕ → Members → Bytes → Parse JsonValue
  parse_members zero ms s = out_of_fuel
  parse_members (suc fuel) ms s = member_round (parse_value fuel) (parse_members fuel) ms s

-- White space may follow the value, and nothing else.
unfoldable pub at_end : Parse JsonValue → Option JsonValue
at_end (parsed v s) = elim (skip_ws s) [ [] ↦ some v | _ ∷ _ ↦ none ]
at_end failed = none
at_end out_of_fuel = none

-- Each call but the first stands behind a character of the input that its caller has read.
unfoldable pub parse : Bytes → Option JsonValue
parse input = at_end (parse_value (suc (length input)) (skip_ws input))
