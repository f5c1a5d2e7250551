-- ===== src/Routing/Url/Pairs/Tests.antt =====
-- Two parameters.
use wx.Common.{codes, [], ◌∷◌, ◌≡◌, refl, same}
use wx.Routing.Url.Pairs.{url_from, replace_all}

-- Each parameter gets its value.
pairs_filled :
    url_from (λ s. s) (codes "/u/<id>/<p>") (codes "id" ∷ codes "7" ∷ codes "p" ∷ codes "a" ∷ [])
    ≡ codes "/u/7/a"
unfolding url_from replace_all same
pairs_filled = refl

-- A value that is the name of a later parameter takes its place too.
value_as_name :
    url_from (λ s. s) (codes "/u/<id>/<p>") (codes "id" ∷ codes "p" ∷ codes "p" ∷ codes "a" ∷ [])
    ≡ codes "/u/p/p"
unfolding url_from replace_all same
value_as_name = refl
