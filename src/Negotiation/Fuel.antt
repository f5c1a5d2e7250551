-- ===== src/Negotiation/Fuel.antt =====
-- The length of what is read is fuel enough for `forEachMediaRange` and `forEachParameter`: every round
-- takes a byte.
use wx.Common.{
  ℕ, zero, suc, ◌+◌, ◌≤◌, ◌≡◌, Bool, false, not, ◌&&◌, Option, none, some, [], ◌∷◌, Bytes, ◌==◌,
  if◌then◌else◌, length, drop, Bool-cases, inl, inr, refl, arith, length-drop,
}
use wx.Negotiation.Header.{
  trim_left, range_end, ranges_from, span_valid, valid_header_field_byte, unquote, parse_value,
  parse_pair, parse_parameter, each_from,
}

trim_left-le : (s : Bytes) → length (trim_left s) ≤ length s
unfolding trim_left
trim_left-le [] = omega arith
trim_left-le (c ∷ s) = elim (Bool-cases (c == b' ')) [
  | inl e ↦ rw e (omega (arith, trim_left-le s))
  | inr e ↦ rw e (omega arith)
]

pub ranges_from-enough :
    (f g : ℕ) (q : Bool) (s : Bytes)
    → length s ≤ f
    → length s ≤ g
    → ranges_from f q s ≡ ranges_from g q s
unfolding ranges_from
ranges_from-enough f g q [] h k = refl
ranges_from-enough zero g q (c ∷ s) h k = absurd (omega (arith, h))
ranges_from-enough (suc f) zero q (c ∷ s) h k = absurd (omega (arith, k))
ranges_from-enough (suc f) (suc g) q (c ∷ s) h k =
    let t = trim_left (c ∷ s) in
    let n = range_end q t in
    let less : length (drop (n + 1) t) ≤ length s =
      omega (arith, length-drop (n + 1) t, trim_left-le (c ∷ s)) in
    rw (ranges_from-enough f g q (drop (n + 1) t) (omega (arith, less, h)) (omega (arith, less, k)))
      refl

-- What is left is at most `n` bytes long.
abbrev Left : ℕ → Option (Bytes × Bytes) → Type 0
Left n none = Unit
Left n (some r) = length r.1 ≤ n

abbrev Leaves : ℕ → Option (Bytes × Bytes × Bytes) → Type 0
Leaves n none = Unit
Leaves n (some r) = length r.2 ≤ n

span_valid-le : (s : Bytes) → length (span_valid s).1 ≤ length s
unfolding span_valid
span_valid-le [] = omega arith
span_valid-le (c ∷ s) = elim (Bool-cases (valid_header_field_byte c)) [
  | inl e ↦ rw e (omega (arith, span_valid-le s))
  | inr e ↦ rw e (omega arith)
]

unquote-Left : (escaping : Bool) (s : Bytes) → Left (length s) (unquote escaping s)
unfolding unquote
unquote-Left escaping [] = tt
unquote-Left escaping (c ∷ s) = elim (Bool-cases (c == b'"' && not escaping)) [
  | inl e ↦ rw e (omega arith)
  | inr e ↦ rw e (
      longer (unquote (c == b'\\' && not escaping) s) (unquote-Left (c == b'\\' && not escaping) s))
]
  where
    longer :
        (o : Option (Bytes × Bytes))
        → Left (length s) o
        → Left (suc (length s)) (elim o [ none ↦ none | some (v, rest) ↦ some (c ∷ v, rest) ])
    longer none h = tt
    longer (some r) h = omega (arith, h)

parse_value-Left : (s : Bytes) → Left (length s) (parse_value s)
unfolding parse_value
parse_value-Left [] = tt
parse_value-Left (c ∷ s) = elim (Bool-cases (c == b'"')) [
  | inl e ↦ rw e (longer (unquote false s) (unquote-Left false s))
  | inr e ↦ elim (Bool-cases (valid_header_field_byte c)) [
    | inl f ↦ rw (e, f) (omega (arith, span_valid-le s))
    | inr f ↦ rw (e, f) tt
  ]
]
  where
    longer : (o : Option (Bytes × Bytes)) → Left (length s) o → Left (suc (length s)) o
    longer none h = tt
    longer (some r) h = omega (arith, h)

parse_pair-Left : (n : ℕ) (r : Bytes × Bytes) → length r.1 ≤ n → Leaves n (parse_pair r)
unfolding parse_pair
parse_pair-Left n ([], s) h = tt
parse_pair-Left n (c ∷ name, []) h = tt
parse_pair-Left n (c ∷ name, d ∷ s) h = elim (Bool-cases (d == b'=')) [
  | inl e ↦ rw e (named (parse_value s) (parse_value-Left s))
  | inr e ↦ rw e tt
]
  where
    named :
        (o : Option (Bytes × Bytes))
        → Left (length s) o
        → Leaves n (elim o [ none ↦ none | some (v, rest) ↦ some (c ∷ name, v, rest) ])
    named none k = tt
    named (some r) k = omega (arith, h, k)

parse_parameter-Left : (c : ℕ) (s : Bytes) → Leaves (length s) (parse_parameter (c ∷ s))
unfolding parse_parameter
parse_parameter-Left c s = semicolon (trim_left (c ∷ s)) (trim_left-le (c ∷ s))
  where
    semicolon :
        (t : Bytes)
        → length t ≤ suc (length s)
        → Leaves (length s) (elim t [
          | [] ↦ none
          | d ∷ u ↦ if d == b';' then parse_pair (span_valid (trim_left u)) else none
        ])
    semicolon [] h = tt
    semicolon (d ∷ u) h = elim (Bool-cases (d == b';')) [
      | inl e ↦ rw e (
          parse_pair-Left (length s) (span_valid (trim_left u))
            (omega (arith, h, span_valid-le (trim_left u), trim_left-le u)))
      | inr e ↦ rw e tt
    ]

pub each_from-enough :
    {S : Type 0} (f g : ℕ) (k : S → Bytes → Bytes → S × Bool) (s : S) (params : Bytes)
    → length params ≤ f
    → length params ≤ g
    → each_from f k s params ≡ each_from g k s params
unfolding each_from
each_from-enough zero zero k s params h i = refl
each_from-enough zero (suc g) k s [] h i = refl
each_from-enough zero (suc g) k s (c ∷ p) h i = absurd (omega (arith, h))
each_from-enough (suc f) zero k s [] h i = refl
each_from-enough (suc f) zero k s (c ∷ p) h i = absurd (omega (arith, i))
each_from-enough (suc f) (suc g) k s [] h i = refl
each_from-enough {S} (suc f) (suc g) k s (c ∷ p) h i =
    round (parse_parameter (c ∷ p)) (parse_parameter-Left c p)
      (λ t rest le. each_from-enough f g k t rest (omega (arith, le, h)) (omega (arith, le, i)))
  where
    round :
        (o : Option (Bytes × Bytes × Bytes))
        → Leaves (length p) o
        → ((t : S) (rest : Bytes)
            → length rest ≤ length p
            → each_from f k t rest ≡ each_from g k t rest)
        → (elim o [
          | none ↦ s
          | some (name, value, rest) ↦
              let later = each_from f k (k s name value).0 rest in
              if (k s name value).1 then later else (k s name value).0
        ])
          ≡ (elim o [
            | none ↦ s
            | some (name, value, rest) ↦
                let later = each_from g k (k s name value).0 rest in
                if (k s name value).1 then later else (k s name value).0
          ])
    round none le ih = refl
    round (some (name, value, rest)) le ih = rw (ih (k s name value).0 rest le) refl
