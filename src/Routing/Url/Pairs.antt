-- ===== src/Routing/Url/Pairs.antt =====
-- `Route.URL` and `Ctx.URL`. A pair's text is what fmt makes of it; `escape` is url.QueryEscape.
mod Tests
use wx.Common.{
  ℕ, zero, suc, Bool, Option, none, some, List, [], ◌∷◌, ◌++◌, Bytes, length, drop, lookup,
  get_elem?, if◌then◌else◌,
}
use wx.Negotiation.Offer.{has_prefix}
use wx.Routing.Router.{Router, Route}

-- `strings.Replace(s, old, new, -1)` for an `old` that is not empty; the fuel is the length of `s`.
unfoldable pub replace_all : ℕ → Bytes → Bytes → Bytes → Bytes
replace_all zero old new s = s
replace_all (suc fuel) old new [] = []
replace_all (suc fuel) old new (c ∷ s) =
    let found = has_prefix old (c ∷ s) in
    let rest = replace_all fuel old new (if found then drop (length old) (c ∷ s) else s) in
    if found then new ++ rest else c ∷ rest

module _ (escape : Bytes → Bytes) where
  -- The loop of `Route.URL`, which goes on by one.
  unfoldable pub url_from : Bytes → List Bytes → Bytes
  unfolding replace_all
  url_from s [] = s
  url_from s (p ∷ ps) =
      let value : Bytes = elim ps [ [] ↦ [] | q ∷ qs ↦ escape q ] in
      url_from (replace_all (length s) (b'<' ∷ (p ++ b'>' ∷ [])) value s) ps

  module _ {H : Type 0} where
    -- `Route.URL`
    unfoldable pub url_by_pairs : Route H → List Bytes → Bytes
    unfolding url_from
    url_by_pairs r pairs = url_from r.template pairs

    -- `Ctx.URL`
    unfoldable pub url_of : Router H → Bytes → List Bytes → Bytes
    unfolding lookup url_by_pairs
    url_of r name pairs = elim (lookup name r.routes) [
      | none ↦ []
      | some i ↦ elim (get_elem? r.table i) [ none ↦ [] | some route ↦ url_by_pairs route pairs ]
    ]
