-- ===== src/Config/Json/Print.antt =====
-- A printer of values, and what the reader makes of its texts.
use hermit_miner.Base.{
  ℕ, zero, suc, ◌+◌, ◌^◌, ◌≤◌, ◌<◌, ◌≡◌, refl, ◌∙◌, ap, true, false, [], ◌∷◌, ◌++◌, none, some,
  Bytes, codes, arith, length, length-append,
}
use hermit_miner.Base.Digits.Decimal.{NoDigit, to_decimal_head}
use hermit_miner.Base.Digits.{to_decimal}
use hermit_miner.Config.Json.Numbers.{number_value_read, decimal_nonempty, skip_ws_digit}
use hermit_miner.Config.Json.{
  JsonValue, null, bool, number, string, object, Members, end, member, put, find, parsed, parse,
  parse_value, parse_members, parse_bool, parse_null, dispatch, parse_object, member_round,
  after_value, skip_ws, at_end,
}
use hermit_miner.Stratum.Codec.Escape.{parse_string-json_escape}
use hermit_miner.Stratum.Codec.{json_escape}

abbrev quoted : Bytes → Bytes → Bytes
quoted s rest = b'"' ∷ (json_escape s ++ b'"' ∷ rest)

-- The text of a value with a text behind it; the entries of an object behind its first one.
unfoldable mutual
  pub print : JsonValue → Bytes → Bytes
  print null rest = codes "null" ++ rest
  print (bool true) rest = codes "true" ++ rest
  print (bool false) rest = codes "false" ++ rest
  print (number n) rest = to_decimal n ++ rest
  print (string s) rest = quoted s rest
  print (object end) rest = b'{' ∷ b'}' ∷ rest
  print (object (member k v ms)) rest = b'{' ∷ quoted k (b':' ∷ print v (print_more ms rest))

  pub print_more : Members → Bytes → Bytes
  print_more end rest = b'}' ∷ rest
  print_more (member k v ms) rest = b',' ∷ quoted k (b':' ∷ print v (print_more ms rest))

abbrev pub snoc : Members → Bytes → JsonValue → Members
snoc end k v = member k v end
snoc (member j w ms) k v = member j w (snoc ms k v)

abbrev pub join : Members → Members → Members
join end ms = ms
join (member j w acc) ms = member j w (join acc ms)

join-snoc :
    (acc : Members) (k : Bytes) (v : JsonValue) (ms : Members)
    → join (snoc acc k v) ms ≡ join acc (member k v ms)
join-snoc end k v ms = refl
join-snoc (member j w acc) k v ms = ap (member j w) (join-snoc acc k v ms)

snoc-join : (acc : Members) (k : Bytes) (v : JsonValue) → snoc acc k v ≡ join acc (member k v end)
snoc-join end k v = refl
snoc-join (member j w acc) k v = ap (member j w) (snoc-join acc k v)

-- No key stands twice, and the numbers fit 64 bits.
unfoldable mutual
  pub IsPrintable : JsonValue → Type 0
  IsPrintable null = Unit
  IsPrintable (bool b) = Unit
  IsPrintable (number n) = n < 2 ^ 64
  IsPrintable (string s) = Unit
  IsPrintable (object ms) = Follows end ms

  -- Entries behind others.
  pub Follows : Members → Members → Type 0
  Follows acc end = Unit
  Follows acc (member k v ms) = (find k acc ≡ none) × IsPrintable v × Follows (snoc acc k v) ms

put-snoc :
    (k : Bytes) (v : JsonValue) (acc : Members) → find k acc ≡ none → put k v acc ≡ snoc acc k v
unfolding put find
put-snoc k v end h = refl
put-snoc k v (member j w ms) h = ground (arith, put-snoc k v ms)

-- How many nested calls a value takes.
mutual
  cost : JsonValue → ℕ
  cost null = 1
  cost (bool b) = 1
  cost (number n) = 1
  cost (string s) = 1
  cost (object ms) = suc (cost_members ms)

  cost_members : Members → ℕ
  cost_members end = 0
  cost_members (member k v ms) = suc (cost v + cost_members ms)

-- One entry of an object.
entry_read :
    (fuel : ℕ) (acc : Members) (k text rest : Bytes) (v : JsonValue)
    → parse_value fuel text ≡ parsed v rest
    → parse_members (suc fuel) acc (quoted k (b':' ∷ text))
      ≡ after_value (parse_members fuel (put k v acc)) (put k v acc) (skip_ws rest)
unfolding parse_members member_round skip_ws
entry_read fuel acc k text rest v h = rw (parse_string-json_escape k (b':' ∷ text), h) refl

print_more-NoDigit : (ms : Members) (rest : Bytes) → NoDigit (print_more ms rest)
unfolding print
print_more-NoDigit end rest = refl
print_more-NoDigit (member k v ms) rest = refl

mutual
  unfolding print IsPrintable cost parse_value dispatch parse_object skip_ws after_value parse_bool
      parse_null

  value_read :
      (v : JsonValue) (fuel : ℕ) (rest : Bytes)
      → IsPrintable v
      → cost v ≤ fuel
      → NoDigit rest
      → parse_value fuel (print v rest) ≡ parsed v rest
  value_read null zero rest h le stops = absurd (omega arith)
  value_read null (suc fuel) rest h le stops = refl
  value_read (bool b) zero rest h le stops = absurd (omega arith)
  value_read (bool true) (suc fuel) rest h le stops = refl
  value_read (bool false) (suc fuel) rest h le stops = refl
  value_read (number n) zero rest h le stops = absurd (omega arith)
  value_read (number n) (suc fuel) rest h le stops = number_value_read fuel n rest h stops
  value_read (string s) zero rest h le stops = absurd (omega arith)
  value_read (string s) (suc fuel) rest h le stops = rw (parse_string-json_escape s rest) refl
  value_read (object ms) zero rest h le stops = absurd (omega arith)
  value_read (object end) (suc fuel) rest h le stops = refl
  value_read (object (member k v ms)) (suc zero) rest h le stops = absurd (omega arith)
  value_read (object (member k v ms)) (suc (suc fuel)) rest h le stops =
      let (fresh, is, more) = h in
      let one =
        value_read v fuel (print_more ms rest) is (omega arith) (print_more-NoDigit ms rest) in
      entry_read fuel end k (print v (print_more ms rest)) (print_more ms rest) v one
      ∙ more_read k v ms fuel end rest fresh more (omega arith)

  more_read :
      (k : Bytes) (v : JsonValue) (ms : Members) (fuel : ℕ) (acc : Members) (rest : Bytes)
      → find k acc ≡ none
      → Follows (snoc acc k v) ms
      → cost_members ms ≤ fuel
      → after_value (parse_members fuel (put k v acc)) (put k v acc) (skip_ws (print_more ms rest))
        ≡ parsed (object (join acc (member k v ms))) rest
  more_read k v end fuel acc rest fresh h le =
      ap (λ ms. parsed (object ms) rest) (put-snoc k v acc fresh ∙ snoc-join acc k v)
  more_read k v (member j w ms) zero acc rest fresh h le = absurd (omega arith)
  more_read k v (member j w ms) (suc fuel) acc rest fresh h le =
      let (fresh', is, more) = h in
      let one =
        value_read w fuel (print_more ms rest) is (omega arith) (print_more-NoDigit ms rest) in
      rw (put-snoc k v acc fresh, ← join-snoc acc k v (member j w ms))
        (entry_read fuel (snoc acc k v) j (print w (print_more ms rest)) (print_more ms rest) w one
          ∙ more_read j w ms fuel (snoc acc k v) rest fresh' more (omega arith))

mutual
  unfolding print cost

  cost_bound : (v : JsonValue) (rest : Bytes) → cost v + length rest ≤ length (print v rest)
  cost_bound null rest = omega arith
  cost_bound (bool true) rest = omega arith
  cost_bound (bool false) rest = omega arith
  cost_bound (number n) rest = omega (arith, length-append (to_decimal n) rest, decimal_nonempty n)
  cost_bound (string s) rest = omega (arith, length-append (json_escape s) (b'"' ∷ rest))
  cost_bound (object end) rest = omega arith
  cost_bound (object (member k v ms)) rest = omega (
    arith,
    length-append (json_escape k) (b'"' ∷ b':' ∷ print v (print_more ms rest)),
    cost_bound v (print_more ms rest),
    cost_members_bound ms rest,
  )

  cost_members_bound :
      (ms : Members) (rest : Bytes) → cost_members ms + length rest < length (print_more ms rest)
  cost_members_bound end rest = omega arith
  cost_members_bound (member k v ms) rest = omega (
    arith,
    length-append (json_escape k) (b'"' ∷ b':' ∷ print v (print_more ms rest)),
    cost_bound v (print_more ms rest),
    cost_members_bound ms rest,
  )

skip_ws-print : (v : JsonValue) (rest : Bytes) → skip_ws (print v rest) ≡ print v rest
unfolding skip_ws print
skip_ws-print null rest = refl
skip_ws-print (bool true) rest = refl
skip_ws-print (bool false) rest = refl
skip_ws-print (number n) rest =
    let (c, s, e, d) = to_decimal_head n in rw (e) (skip_ws_digit c (s ++ rest) d)
skip_ws-print (string s) rest = refl
skip_ws-print (object end) rest = refl
skip_ws-print (object (member k v ms)) rest = refl

-- What the printer writes of a value is read back as that value, when its numbers fit 64 bits and
-- no key stands twice in one of its objects.
pub parse-print : (v : JsonValue) → IsPrintable v → parse (print v []) ≡ some v
unfolding parse at_end skip_ws
parse-print v is =
    rw
      (
        skip_ws-print v [],
        value_read v (suc (length (print v []))) [] is (omega (arith, cost_bound v [])) tt,
      )
      refl
