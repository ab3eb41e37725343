-- ===== src/Config/Json/Total.antt =====
-- The fuel of the reader is enough: no call runs out of it.
use hermit_miner.Base.{
  ◌⊎◌, refl, ℕ, zero, suc, ◌≤◌, ◌<◌, ◌≡◌, ◌≢◌, true, false, [], ◌∷◌, arith, Bytes, length, ◌==◌,
  ◌||◌, Bool-cases, inl, inr, codes,
}
use hermit_miner.Base.Digits.{is_digit}
use hermit_miner.Config.Json.{
  JsonValue, Members, end, null, string, bool, number, object, put, Parse, parsed, failed,
  out_of_fuel, ◌>>=◌, skip_ws, parse_string, parse_number, parse_bool, parse_null, parse_object,
  dispatch, expect, after_value, member_round, parse_value, parse_members,
}
use hermit_miner.Config.Json.Shrinks.{
  Shrinks-mono, Shrinks-bind, length-skip_ws, parse_string-Shrinks, parse_number-Shrinks,
  keyword-Shrinks, Shrinks,
}

parse_bool-Shrinks : (s : Bytes) → Shrinks (length s) (parse_bool s)
unfolding parse_bool
parse_bool-Shrinks s =
    keyword-Shrinks (codes "true") true s _ (omega arith)
      (keyword-Shrinks (codes "false") false s failed (omega arith) tt)

parse_null-Shrinks : (s : Bytes) → Shrinks (length s) (parse_null s)
unfolding parse_null
parse_null-Shrinks s = keyword-Shrinks (codes "null") null s failed (omega arith) tt

-- A reader of the entries that consumes something of every text up to a size.
abbrev Reads : ℕ → (Bytes → Parse JsonValue) → Type 0
Reads n f = (s : Bytes) → length s ≤ n → Shrinks (suc n) (f s)

parse_object-Shrinks :
    (members : Bytes → Parse JsonValue) (s : Bytes)
    → Reads (length s) members
    → Shrinks (suc (length s)) (parse_object members s)
unfolding parse_object
parse_object-Shrinks members s h = go (skip_ws s) (length-skip_ws s)
  where
    go :
        (t : Bytes)
        → length t ≤ length s
        → Shrinks (suc (length s)) (elim t [
          | [] ↦ members []
          | ch ∷ rest ↦ elim (ch == b'}') [
            | true ↦ parsed (object end) rest
            | false ↦ members (ch ∷ rest)
          ]
        ])
    go [] le = h [] le
    go (ch ∷ rest) le = elim (Bool-cases (ch == b'}')) [
      | inl q ↦ rw (q, Shrinks) (omega arith)
      | inr nq ↦ rw (nq, Shrinks) (h (ch ∷ rest) le)
    ]

module _ (members : Bytes → Parse JsonValue) where
  wrap-Shrinks {ℓ} :
      {A : Type ℓ} (n : ℕ) (p : Parse A) (f : A → JsonValue)
      → Shrinks n p
      → Shrinks n (p >>= (λ v rest. parsed (f v) rest))
  wrap-Shrinks n p f h = Shrinks-bind n p _ h (λ a r lt. lt)

dispatch-Shrinks :
    (members : Bytes → Parse JsonValue) (s : Bytes)
    → ((t : Bytes) → length t < length s → Shrinks (length s) (members t))
    → Shrinks (length s) (dispatch members s)
unfolding dispatch
dispatch-Shrinks members [] h = tt
dispatch-Shrinks members (ch ∷ s) h = elim (Bool-cases (ch == b'{')) [
  | inl q ↦ rw (q, Shrinks) (parse_object-Shrinks members s (λ t le. h t (omega arith)))
  | inr n1 ↦ elim (Bool-cases (ch == b'"')) [
    | inl q ↦
        rw (n1, q, Shrinks)
          (wrap-Shrinks members _ (parse_string (ch ∷ s)) string (parse_string-Shrinks (ch ∷ s)))
    | inr n2 ↦ elim (Bool-cases (ch == b't' || ch == b'f')) [
      | inl q ↦
          rw (n1, n2, q, Shrinks)
            (wrap-Shrinks members _ (parse_bool (ch ∷ s)) bool (parse_bool-Shrinks (ch ∷ s)))
      | inr n3 ↦ elim (Bool-cases (ch == b'n')) [
        | inl q ↦ rw (n1, n2, n3, q, Shrinks) (parse_null-Shrinks (ch ∷ s))
        | inr n4 ↦ elim (Bool-cases (is_digit ch)) [
          | inl q ↦
              rw (n1, n2, n3, n4, q, Shrinks)
                (wrap-Shrinks members _ (parse_number (ch ∷ s)) number
                  (parse_number-Shrinks (ch ∷ s)))
          | inr n5 ↦ rw (n1, n2, n3, n4, n5, Shrinks) tt
        ]
      ]
    ]
  ]
]

expect-Shrinks : (c : ℕ) (s : Bytes) (n : ℕ) → length s ≤ n → Shrinks n (expect c s)
expect-Shrinks c [] n le = tt
expect-Shrinks c (ch ∷ s) n le = elim (Bool-cases (ch == c)) [
  | inl q ↦ rw (q, Shrinks) (omega arith)
  | inr nq ↦ rw (nq, Shrinks) tt
]

after_value-Shrinks :
    (again : Bytes → Parse JsonValue) (ms : Members) (s : Bytes) (n : ℕ)
    → length s ≤ n
    → ((t : Bytes) → length t < n → Shrinks n (again t))
    → Shrinks n (after_value again ms s)
unfolding after_value
after_value-Shrinks again ms [] n le h = tt
after_value-Shrinks again ms (ch ∷ s) n le h = elim (Bool-cases (ch == b'}')) [
  | inl q ↦ rw (q, Shrinks) (omega arith)
  | inr nq ↦ elim (Bool-cases (ch == b',')) [
    | inl c ↦ rw (nq, c, Shrinks) (h s (omega arith))
    | inr nc ↦ rw (nq, nc, Shrinks) tt
  ]
]

member_round-Shrinks :
    (val : Bytes → Parse JsonValue) (loop : Members → Bytes → Parse JsonValue) (ms : Members)
    (s : Bytes)
    → ((t : Bytes) → length t < length s → Shrinks (length s) (val t))
    → ((ms' : Members) (t : Bytes) → length t < length s → Shrinks (length s) (loop ms' t))
    → Shrinks (length s) (member_round val loop ms s)
unfolding member_round
member_round-Shrinks val loop ms [] v l = tt
member_round-Shrinks val loop ms (ch ∷ s) v l =
    let n : ℕ = suc (length s) in
    Shrinks-bind n (parse_string (skip_ws (ch ∷ s))) _
      (Shrinks-mono _ n (parse_string (skip_ws (ch ∷ s))) (length-skip_ws (ch ∷ s))
        (parse_string-Shrinks (skip_ws (ch ∷ s))))
      λ key s₁ h₁.
        Shrinks-bind n (expect b':' (skip_ws s₁)) _
          (expect-Shrinks b':' (skip_ws s₁) n (omega (arith, length-skip_ws s₁)))
          λ u s₂ h₂. Shrinks-bind n (val s₂) _ (v s₂ h₂) λ w s₃ h₃.
            after_value-Shrinks (loop (put key w ms)) (put key w ms) (skip_ws s₃) n
              (omega (arith, length-skip_ws s₃)) (λ t lt. l (put key w ms) t lt)

mutual
  unfolding parse_value

  parse_value-Shrinks :
      (fuel : ℕ) (s : Bytes) → length s < fuel → Shrinks (length s) (parse_value fuel s)
  parse_value-Shrinks zero s h = absurd (omega arith)
  parse_value-Shrinks (suc fuel) s h =
      Shrinks-mono (length (skip_ws s)) (length s) (dispatch (parse_members fuel end) (skip_ws s))
        (length-skip_ws s)
        (dispatch-Shrinks (parse_members fuel end) (skip_ws s) (λ t lt.
          Shrinks-mono _ _ (parse_members fuel end t) (omega arith)
            (parse_members-Shrinks fuel end t (omega (arith, length-skip_ws s)))))

  parse_members-Shrinks :
      (fuel : ℕ) (ms : Members) (s : Bytes)
      → length s < fuel
      → Shrinks (length s) (parse_members fuel ms s)
  parse_members-Shrinks zero ms s h = absurd (omega arith)
  parse_members-Shrinks (suc fuel) ms s h =
      member_round-Shrinks (parse_value fuel) (parse_members fuel) ms s
        (λ t lt.
          Shrinks-mono _ _ (parse_value fuel t) (omega arith)
            (parse_value-Shrinks fuel t (omega arith)))
        (λ ms' t lt.
          Shrinks-mono _ _ (parse_members fuel ms' t) (omega arith)
            (parse_members-Shrinks fuel ms' t (omega arith)))

Shrinks-ne-out_of_fuel {ℓ} : {A : Type ℓ} (n : ℕ) (p : Parse A) → Shrinks n p → p ≢ out_of_fuel
Shrinks-ne-out_of_fuel n (parsed a r) h = cc
Shrinks-ne-out_of_fuel n failed h = cc
Shrinks-ne-out_of_fuel n out_of_fuel h = absurd h

ends :
    (n : ℕ) (p : Parse JsonValue)
    → Shrinks n p
    → (p ≡ failed) ⊎ ((v : JsonValue) × (r : Bytes) × (p ≡ parsed v r) × (length r < n))
ends n (parsed v r) h = inr (v, r, refl, h)
ends n failed h = inl refl
ends n out_of_fuel h = absurd h

-- With more fuel than characters, reading a value ends with a failure, or with a value that is read
-- from at least one character.
pub parse_value_total :
    (fuel : ℕ) (s : Bytes)
    → length s < fuel
    → (parse_value fuel s ≡ failed)
      ⊎ ((v : JsonValue) × (r : Bytes) × (parse_value fuel s ≡ parsed v r) × (length r < length s))
parse_value_total fuel s h = ends (length s) (parse_value fuel s) (parse_value-Shrinks fuel s h)
