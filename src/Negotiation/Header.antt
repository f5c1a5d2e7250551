-- ===== src/Negotiation/Header.antt =====
-- The parsing of an `Accept` header in fasthttp-routing/helpers.go: `forEachMediaRange`,
-- `forEachParameter`, `validHeaderFieldByte`, and the function that `getOffer` gives to the first of
-- them. A byte counter that only moves forward is the rest that it leaves.
use wx.Common.{
  ℕ, zero, suc, ◌+◌, Bool, true, false, not, ◌&&◌, ◌||◌, Option, none, some, List, [], ◌∷◌, Bytes,
  codes, ltb, leb, ◌==◌, if◌then◌else◌, length, take, drop,
}

-- `strings.TrimLeft(s, " ")` and `strings.TrimRight(s, " ")`
unfoldable pub trim_left : Bytes → Bytes
trim_left [] = []
trim_left (c ∷ s) = let rest = trim_left s in if c == b' ' then rest else c ∷ s

unfoldable pub trim_right : Bytes → Bytes
trim_right [] = []
trim_right (c ∷ s) = elim (trim_right s) [
  | [] ↦ if c == b' ' then [] else c ∷ []
  | d ∷ t ↦ c ∷ d ∷ t
]

-- `strings.IndexByte(s, c)`, with the length for -1.
unfoldable pub index_byte : ℕ → Bytes → ℕ
index_byte c [] = 0
index_byte c (d ∷ s) = let later = index_byte c s in if d == c then 0 else suc later

abbrev pub has_byte : ℕ → Bytes → Bool
has_byte c s = ltb (index_byte c s) (length s)

-- The loop over a header with quotes: whether their number is odd, and `escaping`.
unfoldable pub quoted_end : Bool → Bool → Bytes → ℕ
quoted_end odd escaping [] = 0
quoted_end odd escaping (c ∷ s) =
    let odd' = if c == b'"' && not escaping then not odd else odd in
    let escaping' = if c == b'\\' && odd then not escaping else escaping in
    let later = quoted_end odd' escaping' s in if c == b',' && not odd then 0 else suc later

-- Where the first media range of the header ends.
unfoldable pub range_end : Bool → Bytes → ℕ
unfolding quoted_end index_byte
range_end true s = quoted_end false false s
range_end false s = index_byte b',' s

-- `forEachMediaRange`: the ranges that it calls its function with. Each round takes a byte at least.
unfoldable pub ranges_from : ℕ → Bool → Bytes → List Bytes
unfolding range_end trim_left
ranges_from fuel has_quotes [] = []
ranges_from zero has_quotes (c ∷ s) = []
ranges_from (suc fuel) has_quotes (c ∷ s) =
    let header = trim_left (c ∷ s) in
    let n = range_end has_quotes header in
    let later = ranges_from fuel has_quotes (drop (n + 1) header) in
    if leb (length header) n then take n header ∷ [] else take n header ∷ later

unfoldable pub media_ranges : Bytes → List Bytes
unfolding ranges_from
media_ranges header = ranges_from (length header) (has_byte b'"' header) header

-- `validHeaderFieldByte`: the bytes of its mask.
abbrev pub between : ℕ → ℕ → ℕ → Bool
between a b c = leb a c && leb c b

unfoldable pub is_one_of : Bytes → ℕ → Bool
is_one_of [] c = false
is_one_of (d ∷ s) c = c == d || is_one_of s c

unfoldable pub valid_header_field_byte : ℕ → Bool
unfolding is_one_of
valid_header_field_byte c =
    between b'0' b'9' c
    || between b'a' b'z' c
    || between b'A' b'Z' c
    || is_one_of (codes "!#$%&'*+-.^_`|~") c

-- The valid bytes in front, and the rest.
unfoldable pub span_valid : Bytes → Bytes × Bytes
unfolding valid_header_field_byte
span_valid [] = ([], [])
span_valid (c ∷ s) =
    let rest = span_valid s in
    if valid_header_field_byte c then (c ∷ rest.0, rest.1) else ([], c ∷ s)

-- A quoted string up to its closing quote, and the rest behind that.
unfoldable pub unquote : Bool → Bytes → Option (Bytes × Bytes)
unquote escaping [] = none
unquote escaping (c ∷ s) =
    let later : Option (Bytes × Bytes) = elim (unquote (c == b'\\' && not escaping) s) [
      | none ↦ none
      | some (v, rest) ↦ some (c ∷ v, rest)
    ] in
    if c == b'"' && not escaping then some ([], s) else later

-- The value of a parameter: a quoted string or a token.
unfoldable pub parse_value : Bytes → Option (Bytes × Bytes)
unfolding unquote span_valid
parse_value [] = none
parse_value (c ∷ s) =
    if c == b'"'
    then unquote false s
    else if valid_header_field_byte c
    then some (span_valid (c ∷ s))
    else none

-- `name=value`, where the value has a byte at least.
unfoldable pub parse_pair : Bytes × Bytes → Option (Bytes × Bytes × Bytes)
unfolding parse_value
parse_pair ([], s) = none
parse_pair (c ∷ name, []) = none
parse_pair (c ∷ name, d ∷ s) =
    if d == b'='
    then elim (parse_value s) [ none ↦ none | some (v, rest) ↦ some (c ∷ name, v, rest) ]
    else none

-- One round of `forEachParameter`: the name, the value and the rest.
unfoldable pub parse_parameter : Bytes → Option (Bytes × Bytes × Bytes)
unfolding trim_left parse_pair
parse_parameter params = elim (trim_left params) [
  | [] ↦ none
  | c ∷ s ↦ if c == b';' then parse_pair (span_valid (trim_left s)) else none
]

-- `forEachParameter`, whose function works on a state and says whether to go on. Each round takes a
-- byte at least.
unfoldable pub each_from : {S : Type 0} → ℕ → (S → Bytes → Bytes → S × Bool) → S → Bytes → S
unfolding parse_parameter
each_from zero f state params = state
each_from (suc fuel) f state params = elim (parse_parameter params) [
  | none ↦ state
  | some (name, value, rest) ↦
      let later = each_from fuel f (f state name value).0 rest in
      if (f state name value).1 then later else (f state name value).0
]

unfoldable pub for_each_parameter : {S : Type 0} → (S → Bytes → Bytes → S × Bool) → S → Bytes → S
unfolding each_from
for_each_parameter f state params = each_from (length params) f state params
