-- ===== src/Routing/Template/Laws.antt =====
-- What the two template functions of fasthttp-routing/route.go keep of a path.
use wx.Common.{
  none, some, List, [], ◌∷◌, ◌++◌, Bytes, ◌==◌, ◌≡◌, refl, append_assoc, append-nil, ap, sym, ◌∙◌,
  Bool-cases, inl, inr, ==_iff,
}
use wx.Routing.Template.{
  Token, Pieces, scan, pieces, template_of, build_url_template, last_segment, token_segments,
  build_url_segments,
}

-- All segments in one text.
unfoldable pub joined : List Bytes → Bytes
joined [] = []
joined (s ∷ ss) = s ++ joined ss

joined-append : (a b : List Bytes) → joined (a ++ b) ≡ joined a ++ joined b
unfolding joined
joined-append [] b = refl
joined-append (s ∷ a) b = simp (joined-append a b, append_assoc)

joined_last : (ts : List Token) (rest : Bytes) → joined (last_segment ts rest) ≡ rest
unfolding joined last_segment
joined_last [] rest = append-nil rest
joined_last (t ∷ ts) [] = refl
joined_last (t ∷ ts) (b ∷ s) = append-nil (b ∷ s)

joined_tokens :
    (ts : List Token) (rest : Bytes) → joined (token_segments ts) ++ rest ≡ template_of ts rest
unfolding joined token_segments template_of
joined_tokens [] rest = refl
joined_tokens (t ∷ ts) rest = simp (← joined_tokens ts rest, append_assoc)

-- The segments of a path, put together, are the template of the path.
pub joined-segments-template :
    (path : Bytes) → joined (build_url_segments path).segments ≡ build_url_template path
unfolding build_url_segments build_url_template
joined-segments-template path =
    let p = pieces path in
    joined-append (token_segments p.tokens) (last_segment p.tokens p.rest)
    ∙ ap (λ z. joined (token_segments p.tokens) ++ z) (joined_last p.tokens p.rest)
    ∙ joined_tokens p.tokens p.rest

-- The path that pieces spell.
unfoldable pub spelled : List Token → Bytes → Bytes
spelled [] rest = rest
spelled (t ∷ ts) rest = t.before ++ b'<' ∷ (t.inside ++ b'>' ∷ spelled ts rest)

abbrev pub spell : Pieces → Bytes
spell p = spelled p.tokens p.rest

scan-spell :
    (s before : Bytes)
    → (spell (scan before none s) ≡ before ++ s)
      × ((inside : Bytes) → spell (scan before (some inside) s) ≡ before ++ b'<' ∷ (inside ++ s))
unfolding scan spelled
scan-spell [] before = (sym (append-nil before), λ inside. rw append-nil)
scan-spell (c ∷ s) before = (
  elim (Bool-cases (c == b'<')) [
    | inl e ↦
        rw e ((scan-spell s before).1 [] ∙ ap (λ k. before ++ k ∷ s) (sym ((==_iff c b'<').0 e)))
    | inr e ↦ rw e ((scan-spell s (before ++ c ∷ [])).0 ∙ append_assoc before (c ∷ []) s)
  ],
  λ inside. elim (Bool-cases (c == b'>')) [
    | inl e ↦ rw e (
        ap (λ z. before ++ b'<' ∷ (inside ++ b'>' ∷ z)) (scan-spell s []).0
        ∙ ap (λ k. before ++ b'<' ∷ (inside ++ k ∷ s)) (sym ((==_iff c b'>').0 e)))
    | inr e ↦ rw e (
        (scan-spell s before).1 (inside ++ c ∷ [])
        ∙ ap (λ z. before ++ b'<' ∷ z) (append_assoc inside (c ∷ []) s))
  ],
)

-- Cutting a path into its tokens and the text between them loses nothing.
pub spell-pieces : (path : Bytes) → spell (pieces path) ≡ path
unfolding pieces
spell-pieces path = (scan-spell path []).0
