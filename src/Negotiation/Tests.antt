-- ===== src/Negotiation/Tests.antt =====
-- Headers of requests, and the theorems on them.
use mathlib.Core.List.{Permᴰ}
use wx.Common.{
  ℕ, ◌≡◌, ◌≢◌, Option, none, some, List, [], ◌∷◌, ◌++◌, Bytes, codes, Panics, done, map, same,
  if◌then◌else◌, replicate, length, Returns, refl, arith,
}
use wx.Routing.Router.Register.{split_comma}
use wx.Negotiation.Sort.{AcceptedType, sort_accepted_types}
use wx.Negotiation.Sort.Ordered.{IsRanked}
use wx.Negotiation.Sort.Ranks.{Precedes, sort_accepted_types-Precedes, sort_swaps}
use wx.Negotiation.Header.{trim_left, media_ranges}
use wx.Negotiation.Offer.{get_offer, accepts_offer, accepted_types}
use wx.Negotiation.Offer.Best.{IsBest, get_offer-IsBest}
use wx.Negotiation.Splice.{get_spliced_str_list, get_spliced_str_list_lem}

-- The bit patterns of 0.5 and 0.
abbrev parse_ufloat : Bytes → Option ℕ
parse_ufloat s =
    if same s (codes "0.5")
    then some 0x3FE0000000000000
    else if same s (codes "0")
    then some 0
    else none

abbrev accept : Bytes
accept = codes "text/html;q=0.5, text/*;q=0, text/plain;a=\"x,y\", text/css"

ranges_of :
    media_ranges accept
    ≡ codes "text/html;q=0.5"
      ∷ codes "text/*;q=0"
      ∷ codes "text/plain;a=\"x,y\""
      ∷ codes "text/css"
      ∷ []
unfolding media_ranges
ranges_of = refl

-- The two ranges without a quality are in another order than in the header.
abbrev offered : Bytes → Panics Bytes
offered header =
    get_offer parse_ufloat (λ s p q. done (accepts_offer s p q)) header
      (codes "text/html" ∷ codes "text/plain" ∷ codes "text/css" ∷ [])

offered_css : offered accept ≡ done (codes "text/css")
unfolding get_offer accepts_offer
offered_css = refl

-- A quoted pair is never left, so that the range goes on to the end of the header.
escaped_range : media_ranges (codes "a;b=\"\\\"\", c") ≡ codes "a;b=\"\\\"\", c" ∷ []
unfolding media_ranges
escaped_range = refl

get_offer-IsBest_example :
    Returns
      (IsBest accepts_offer (accepted_types parse_ufloat accept) (codes "text/css" ∷ []))
      (get_offer parse_ufloat (λ s p q. done (accepts_offer s p q)) accept (codes "text/css" ∷ []))
get_offer-IsBest_example =
    get_offer-IsBest accepts_offer parse_ufloat b't'
      (codes "ext/html;q=0.5, text/*;q=0, text/plain;a=\"x,y\", text/css") (codes "text/css") []

abbrev type_of : Bytes → ℕ → ℕ → Bytes → AcceptedType
type_of spec quality order params = record {
  spec = spec;
  quality = quality;
  specificity = 3;
  order = order;
  params = params;
}

abbrev three : List AcceptedType
three =
    type_of (codes "a/b") 1 1 [] ∷ type_of (codes "c/d") 2 2 [] ∷ type_of (codes "e/f") 1 3 [] ∷ []

sort_accepted_types-Precedes_example :
    Returns (λ s. IsRanked Precedes s × Permᴰ s three) (sort_accepted_types three)
sort_accepted_types-Precedes_example =
    sort_accepted_types-Precedes 0 three (refl, (refl, (refl, tt)))

abbrev with_params : AcceptedType
with_params = type_of (codes "text/html") 1 1 (codes ";a=1")

abbrev without_params : AcceptedType
without_params = type_of (codes "text/html") 1 2 []

differ : length (codes ";a=1") ≢ 0
differ = λ e. omega (arith, e)

sort_swaps_example :
    sort_accepted_types (with_params ∷ without_params ∷ [])
    ≡ done (without_params ∷ with_params ∷ [])
sort_swaps_example = sort_swaps with_params without_params refl refl differ

get_spliced_str_list_example :
    get_spliced_str_list (codes "gzip, br")
    ≡ done (map trim_left (split_comma [] (codes "gzip, br")))
get_spliced_str_list_example = get_spliced_str_list_lem b'g' (codes "zip, br") (omega arith)

-- Behind 255 bytes the second element begins at the start of the header.
abbrev long_name : Bytes
long_name = replicate 255 b'a'

spliced_long :
    get_spliced_str_list (long_name ++ codes ",b")
    ≡ done (long_name ∷ (long_name ++ codes ",b") ∷ [])
unfolding get_spliced_str_list
spliced_long = refl
