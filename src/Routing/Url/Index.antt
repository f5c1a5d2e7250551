-- ===== src/Routing/Url/Index.antt =====
-- What `URLByIndex` returns for a route made from a path.
use wx.Common.{
  ℕ, suc, ◌+◌, ◌<◌, ◌≡◌, ◌≢◌, true, false, Option, none, some, List, [], ◌∷◌, ◌++◌, Bytes, panic,
  done, ◌==◌, if◌then◌else◌, length, get_elem?, get_elem?-append, get_elem?-lt, index_range, All,
  All-append, arith, refl, ap, sym, ◌∙◌, append_assoc, append-nil, Bool-cases, Option-cases, inl,
  inr, ==_iff, length-append,
}
use wx.Routing.Store.Node.{Regexp}
use wx.Routing.Template.{
  Token, Pieces, scan, pieces, name_token, token_segments, last_segment, token_names,
  token_patterns, Segments, build_url_segments,
}
use wx.Routing.Url.{
  UrlError, bad_count, Url, url, failed, check_value, check_index, fill_index, url_by_index,
}

-- The first error among the values, each against the pattern of its place.
unfoldable pub first_error : Regexp → List (Option Bytes) → List Bytes → Option UrlError
first_error rx [] vs = none
first_error rx (p ∷ ps) [] = none
first_error rx (p ∷ ps) (v ∷ vs) = elim (check_value rx p v) [
  | some e ↦ some e
  | none ↦ first_error rx ps vs
]

-- The values put between the texts of a path.
pub weave : List Token → List Bytes → Bytes → Bytes
weave [] vs rest = rest
weave (t ∷ ts) [] rest = rest
weave (t ∷ ts) (v ∷ vs) rest = t.before ++ (v ++ weave ts vs rest)

-- What `URLByIndex` is to return: the error of a wrong count, the first error of a value, or the URL.
pub outcome : Regexp → Pieces → List Bytes → Url
unfolding first_error weave
outcome rx p values =
    if length values == length (token_names p.tokens)
    then elim (first_error rx (token_patterns p.tokens) values) [
      | some e ↦ failed e
      | none ↦ url (weave p.tokens values p.rest)
    ]
    else failed (bad_count (length (token_names p.tokens)) (length values))

-- A path whose parameters are apart: there is text before each token and, if there is any text
-- behind the last, it does not begin with '<'. A path with no parameter is not empty.
abbrev pub EndsWell : List Token → Bytes → Type 0
EndsWell [] [] = ⊥
EndsWell (t ∷ ts) [] = Unit
EndsWell ts (c ∷ s) = c ≢ b'<'

abbrev pub IsApart : Pieces → Type 0
IsApart p = All (λ t. t.before ≢ []) p.tokens × EndsWell p.tokens p.rest

module _ (rx : Regexp) (r : Segments) where
  check_index_lem :
      (vs : List Bytes) (ps before : List (Option Bytes)) (i : ℕ)
      → r.patterns ≡ before ++ ps
      → i ≡ length before
      → length vs ≡ length ps
      → check_index rx r i vs ≡ done (first_error rx ps vs)
  unfolding check_index first_error
  check_index_lem [] [] before i e f g = refl
  check_index_lem [] (p ∷ ps) before i e f g = absurd (omega arith)
  check_index_lem (v ∷ vs) [] before i e f g = absurd (omega arith)
  check_index_lem (v ∷ vs) (p ∷ ps) before i e f g =
      let here : get_elem? r.patterns i ≡ some p = rw (e, f) (get_elem?-append before ps p) in
      let later =
        check_index_lem vs ps (before ++ p ∷ []) (i + 1) (e ∙ sym (append_assoc before (p ∷ []) ps))
          (omega (arith, length-append before (p ∷ []))) (omega arith) in
      rw here (elim (Option-cases (check_value rx p v)) [
        | inl h ↦ rw (h, first_error) later
        | inr (x, h) ↦ rw (h, first_error)
      ])

-- No text in front of a token holds a '<'.
scan-Lacks :
    (s before : Bytes)
    → All (λ c. c ≢ b'<') before
    → All (λ (t : Token). All (λ c. c ≢ b'<') t.before) (scan before none s).tokens
      × ((inside : Bytes)
          → All (λ (t : Token). All (λ c. c ≢ b'<') t.before) (scan before (some inside) s).tokens)
unfolding scan
scan-Lacks [] before h = (tt, λ inside. tt)
scan-Lacks (c ∷ s) before h = (
  elim (Bool-cases (c == b'<')) [
    | inl e ↦ rw e ((scan-Lacks s before h).1 [])
    | inr e ↦
        rw e ((scan-Lacks s (before ++ c ∷ []) (All-append _ before (c ∷ []) h ((λ q. cc), tt))).0)
  ],
  λ inside. elim (Bool-cases (c == b'>')) [
    | inl e ↦ rw e (h, (scan-Lacks s [] tt).0)
    | inr e ↦ rw e ((scan-Lacks s before h).1 (inside ++ c ∷ []))
  ],
)

abbrev NoToken : Bytes → Type 0
NoToken = All (λ c. c ≢ b'<')

-- A segment that is text is taken over.
fill_text :
    (params : List Bytes) (c : ℕ) (s : Bytes) (ss : List Bytes) (j : ℕ) (out : Bytes)
    → c ≢ b'<'
    → fill_index params ((c ∷ s) ∷ ss) j out ≡ fill_index params ss j (out ++ c ∷ s)
unfolding fill_index
fill_text params c s ss j out h = let e : (c == b'<') ≡ false = ground arith in rw e

fill_before :
    (params : List Bytes) (b : Bytes) (ss : List Bytes) (j : ℕ) (out : Bytes)
    → b ≢ []
    → NoToken b
    → fill_index params (b ∷ ss) j out ≡ fill_index params ss j (out ++ b)
fill_before params [] ss j out h k = absurd (h refl)
fill_before params (c ∷ s) ss j out h (k, ks) = fill_text params c s ss j out k

fill_last :
    (params : List Bytes) (ts : List Token) (rest : Bytes) (j : ℕ) (out : Bytes)
    → EndsWell ts rest
    → fill_index params (last_segment ts rest) j out ≡ done (out ++ rest)
unfolding last_segment fill_index
fill_last params [] [] j out h = absurd h
fill_last params [] (c ∷ s) j out h = fill_text params c s [] j out h
fill_last params (t ∷ ts) [] j out h = ap done (sym (append-nil out))
fill_last params (t ∷ ts) (c ∷ s) j out h = fill_text params c s [] j out h

fill_param :
    (params : List Bytes) (t : Token) (ss : List Bytes) (j : ℕ) (v out : Bytes)
    → get_elem? params j ≡ some v
    → fill_index params (name_token t ∷ ss) j out ≡ fill_index params ss (j + 1) (out ++ v)
unfolding fill_index name_token
fill_param params t ss j v out h = rw h

fill_tokens :
    (ts all : List Token) (rest : Bytes) (params vs before : List Bytes) (j : ℕ) (out : Bytes)
    → params ≡ before ++ vs
    → j ≡ length before
    → length vs ≡ length ts
    → All (λ t. t.before ≢ []) ts
    → All (λ t. NoToken t.before) ts
    → EndsWell all rest
    → fill_index params (token_segments ts ++ last_segment all rest) j out
      ≡ done (out ++ weave ts vs rest)
unfolding token_segments weave
fill_tokens [] all rest params vs before j out e f g h k w = fill_last params all rest j out w
fill_tokens (t ∷ ts) all rest params [] before j out e f g h k w = absurd (omega arith)
fill_tokens (t ∷ ts) all rest params (v ∷ vs) before j out e f g (h, hs) (k, ks) w =
    let here : get_elem? params j ≡ some v = rw (e, f) (get_elem?-append before vs v) in
    fill_before params t.before (name_token t ∷ tail) j out h k
    ∙ fill_param params t tail j v (out ++ t.before) here
    ∙ fill_tokens ts all rest params vs (before ++ v ∷ []) (j + 1) (out ++ t.before ++ v)
        (e ∙ sym (append_assoc before (v ∷ []) vs)) (omega (arith, length-append before (v ∷ [])))
        (omega arith) hs ks w
    ∙ ap done (simp append_assoc)
  where
    tail : List Bytes
    tail = token_segments ts ++ last_segment all rest

length-token_names : (ts : List Token) → length (token_names ts) ≡ length ts
unfolding token_names
length-token_names [] = refl
length-token_names (t ∷ ts) = ap suc (length-token_names ts)

length-token_patterns : (ts : List Token) → length (token_patterns ts) ≡ length ts
unfolding token_patterns
length-token_patterns [] = refl
length-token_patterns (t ∷ ts) = ap suc (length-token_patterns ts)

abbrev segments_of : Pieces → Segments
segments_of p = record {
  segments = token_segments p.tokens ++ last_segment p.tokens p.rest;
  names = token_names p.tokens;
  patterns = token_patterns p.tokens;
}

pieces_lem :
    (rx : Regexp) (p : Pieces) (values : List Bytes)
    → IsApart p
    → All (λ t. NoToken t.before) p.tokens
    → url_by_index rx (segments_of p) values ≡ done (outcome rx p values)
unfolding url_by_index outcome
pieces_lem rx p values (h, w) k =
    elim (Bool-cases (length values == length (token_names p.tokens))) [
      | inl e ↦
          let n : length values ≡ length p.tokens =
            (==_iff _ _).0 e ∙ length-token_names p.tokens in
          let checks =
            check_index_lem rx (segments_of p) values (token_patterns p.tokens) [] 0 refl refl
              (n ∙ sym (length-token_patterns p.tokens)) in
          let fills =
            fill_tokens p.tokens p.tokens p.rest values values [] 0 [] refl refl n h k w in
          elim (Option-cases (first_error rx (token_patterns p.tokens) values)) [
            | inl f ↦ rw (e, checks, f, fills)
            | inr (x, f) ↦ rw (e, checks, f)
          ]
      | inr e ↦ rw e
    ]

fill_adjacent :
    (values : List Bytes) (t u : Token) (ts : List Token) (lasts : List Bytes)
    → t.before ≢ []
    → NoToken t.before
    → u.before ≡ []
    → 0 < length values
    → fill_index values (token_segments (t ∷ u ∷ ts) ++ lasts) 0 [] ≡ panic index_range
unfolding token_segments
fill_adjacent values t u ts lasts h l k n =
    let (v, here) = get_elem?-lt values 0 n in
    fill_before values t.before _ 0 [] h l
    ∙ fill_param values t _ 0 v t.before here
    ∙ (unfold fill_index in rw k)

adjacent_lem :
    (rx : Regexp) (p : Pieces) (values : List Bytes) (t u : Token) (ts : List Token)
    → p.tokens ≡ t ∷ u ∷ ts
    → t.before ≢ []
    → u.before ≡ []
    → length values ≡ suc (suc (length ts))
    → first_error rx (token_patterns (t ∷ u ∷ ts)) values ≡ none
    → All (λ t. NoToken t.before) p.tokens
    → url_by_index rx (segments_of p) values ≡ panic index_range
adjacent_lem rx p values t u ts e h k n f l =
    ap (λ z. url_by_index rx (segments_of (record { tokens = z; rest = p.rest })) values) e
    ∙ open_lem (rw e at l)
  where
    all : List Token
    all = t ∷ u ∷ ts

    whole : Pieces
    whole = record { tokens = all; rest = p.rest }

    open_lem :
        All (λ t. NoToken t.before) all
        → url_by_index rx (segments_of whole) values ≡ panic index_range
    open_lem l' =
        unfold url_by_index in
        let names : (length values == length (token_names all)) ≡ true =
          (==_iff _ _).1 (n ∙ sym (length-token_names all)) in
        let checks =
          check_index_lem rx (segments_of whole) values (token_patterns all) [] 0 refl refl
            (n ∙ sym (length-token_patterns all)) in
        rw (
          names,
          checks,
          f,
          fill_adjacent values t u ts (last_segment all p.rest) h l'.0 k (omega arith),
        )

-- For a path whose parameters are apart, `URLByIndex` returns for every list of values: the error of
-- a wrong count, the error of the first value that its parameter does not take, or the path with the
-- values in the place of the tokens.
pub url_by_index_lem :
    (rx : Regexp) (path : Bytes) (values : List Bytes)
    → IsApart (pieces path)
    → url_by_index rx (build_url_segments path) values ≡ done (outcome rx (pieces path) values)
unfolding build_url_segments
url_by_index_lem rx path values h =
    pieces_lem rx (pieces path) values h (unfold pieces in (scan-Lacks path [] tt).0)

-- Two parameters with no text between them: the empty segment has no first byte, and `URLByIndex`
-- panics for every list of values that passes its checks.
pub url_by_index-adjacent :
    (rx : Regexp) (path : Bytes) (values : List Bytes) (t u : Token) (ts : List Token)
    → (pieces path).tokens ≡ t ∷ u ∷ ts
    → t.before ≢ []
    → u.before ≡ []
    → length values ≡ suc (suc (length ts))
    → first_error rx (token_patterns (t ∷ u ∷ ts)) values ≡ none
    → url_by_index rx (build_url_segments path) values ≡ panic index_range
unfolding build_url_segments
url_by_index-adjacent rx path values t u ts e h k n f =
    adjacent_lem rx (pieces path) values t u ts e h k n f
      (unfold pieces in (scan-Lacks path [] tt).0)
