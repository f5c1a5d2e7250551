-- ===== src/Routing/Template.antt =====
-- `buildURLTemplate` and `buildURLTemplate2` of fasthttp-routing/route.go. The loop keeps the bytes
-- since the last token (`path[end+1:start]`) and, behind an open '<', the bytes of the token.
pub mod Laws
use wx.Common.{
  ℕ, suc, Bool, Option, none, some, List, [], ◌∷◌, ◌++◌, Bytes, codes, ◌==◌, if◌then◌else◌, ◌≡◌,
  refl,
}
use wx.Routing.Store.Node.{name_pattern}

-- The text before a token, and the inside of the token.
pub record Token : Type 0 where
  pub before : Bytes
  pub inside : Bytes

-- The tokens of a path, and the text behind the last one.
pub record Pieces : Type 0 where
  pub tokens : List Token
  pub rest : Bytes

abbrev cons_token : Token → Pieces → Pieces
cons_token t p = record { tokens = t ∷ p.tokens; rest = p.rest }

-- The loop over the path; the second argument is the open token, if there is one.
unfoldable pub scan : Bytes → Option Bytes → Bytes → Pieces
scan before none [] = record { tokens = []; rest = before }
scan before (some inside) [] = record { tokens = []; rest = before ++ b'<' ∷ inside }
scan before none (c ∷ s) =
    let open_token = scan before (some []) s in
    let text = scan (before ++ c ∷ []) none s in if c == b'<' then open_token else text
scan before (some inside) (c ∷ s) =
    let close = cons_token (record { before = before; inside = inside }) (scan [] none s) in
    let longer = scan before (some (inside ++ c ∷ [])) s in if c == b'>' then close else longer

unfoldable pub pieces : Bytes → Pieces
unfolding scan
pieces path = scan [] none path

-- `"<" + name + ">"`
unfoldable pub name_token : Token → Bytes
unfolding name_pattern
name_token t = b'<' ∷ ((name_pattern t.inside).0 ++ b'>' ∷ [])

unfoldable pub template_of : List Token → Bytes → Bytes
unfolding name_token
template_of [] rest = rest
template_of (t ∷ ts) rest = t.before ++ name_token t ++ template_of ts rest

-- `buildURLTemplate`
unfoldable pub build_url_template : Bytes → Bytes
unfolding pieces template_of
build_url_template path = template_of (pieces path).tokens (pieces path).rest

-- The segments behind the loop: the whole path if there was no token, else the rest unless empty.
unfoldable pub last_segment : List Token → Bytes → List Bytes
last_segment [] rest = rest ∷ []
last_segment (t ∷ ts) [] = []
last_segment (t ∷ ts) (b ∷ s) = (b ∷ s) ∷ []

unfoldable pub token_segments : List Token → List Bytes
unfolding name_token
token_segments [] = []
token_segments (t ∷ ts) = t.before ∷ name_token t ∷ token_segments ts

-- The three results of `buildURLTemplate2`; a pattern is `none` where it is empty. That
-- `regexp.MustCompile` accepts the patterns is checked where the route is made.
pub record Segments : Type 0 where
  pub segments : List Bytes
  pub names : List Bytes
  pub patterns : List (Option Bytes)

abbrev pub pattern_of : Token → Option Bytes
pattern_of t = elim (name_pattern t.inside).1 [ [] ↦ none | c ∷ p ↦ some (c ∷ p) ]

unfoldable pub token_names : List Token → List Bytes
unfolding name_pattern
token_names [] = []
token_names (t ∷ ts) = (name_pattern t.inside).0 ∷ token_names ts

unfoldable pub token_patterns : List Token → List (Option Bytes)
unfolding name_pattern
token_patterns [] = []
token_patterns (t ∷ ts) = pattern_of t ∷ token_patterns ts

-- `buildURLTemplate2`
unfoldable pub build_url_segments : Bytes → Segments
unfolding pieces token_segments last_segment token_names token_patterns
build_url_segments path =
    let p = pieces path in
    record {
      segments = token_segments p.tokens ++ last_segment p.tokens p.rest;
      names = token_names p.tokens;
      patterns = token_patterns p.tokens;
    }
