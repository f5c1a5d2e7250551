-- ===== src/Negotiation/Offer.antt =====
-- `getOffer`, `acceptsOffer`, `acceptsOfferType` of fasthttp-routing/helpers.go. `parse_ufloat` stands
-- for fasthttp.ParseUfloat, and gives the bit pattern of the number.
pub mod Best
use wx.Common.{
  ◌-◌, ℕ, zero, suc, ◌+◌, Bool, true, false, not, ◌&&◌, ◌||◌, Option, none, some, List, [], ◌∷◌,
  ◌++◌, Bytes, codes, Panics, done, ◌>>=◌, ltb, leb, ◌==◌, same, if◌then◌else◌, length, take, drop,
}
use wx.Negotiation.Sort.{AcceptedType, sort_accepted_types}
use wx.Negotiation.Header.{trim_right, index_byte, has_byte, media_ranges, for_each_parameter}

-- The bit pattern of 1.0.
abbrev pub one : ℕ
one = 0x3FF0000000000000

abbrev pub or_else : {A : Type 0} → Option A → A → A
or_else none a = a
or_else (some b) a = b

-- `strings.HasPrefix(s, prefix)`
abbrev pub has_prefix : Bytes → Bytes → Bool
has_prefix prefix s = same (take (length prefix) s) prefix

-- `strings.HasSuffix(s, suffix)`
abbrev pub has_suffix : Bytes → Bytes → Bool
has_suffix suffix s =
    leb (length suffix) (length s) && same (drop (length s - length suffix) s) suffix

abbrev pub specificity_of : Bytes → ℕ
specificity_of spec =
    if same spec (codes "*/*") || same spec (codes "*")
    then 1
    else if has_suffix (codes "/*") spec
    then 2
    else if has_byte b'/' spec
    then 3
    else 4

module _ (parse_ufloat : Bytes → Option ℕ) where
  -- The function that reads the parameters of a range: the quality, and whether there are others.
  abbrev pub quality_or_param : ℕ × Bool → Bytes → Bytes → (ℕ × Bool) × Bool
  quality_or_param (quality, has_params) param val =
      if same param (codes "q") || same param (codes "Q")
      then ((or_else (parse_ufloat val) quality, has_params), false)
      else ((quality, true), true)

  -- The quality of a range and its parameters, given what follows its type.
  unfoldable pub read_params : Bytes → ℕ × Bytes
  unfolding same trim_right index_byte for_each_parameter
  read_params tail =
      let read = for_each_parameter quality_or_param (one, false) tail in
      if has_prefix (codes ";q=") tail && not (has_byte b';' (drop 3 tail))
      then (or_else (parse_ufloat (trim_right (drop 3 tail))) one, [])
      else (read.0, if read.1 then tail else [])

  abbrev pub accepted_type : Bytes → ℕ → ℕ → Bytes → AcceptedType
  accepted_type spec quality order params = record {
    spec = trim_right spec;
    quality = quality;
    specificity = specificity_of (trim_right spec);
    order = order;
    params = params;
  }

  -- The type that a range of the header accepts, unless its quality is 0.
  unfoldable pub read_range : ℕ → Bytes → List AcceptedType
  unfolding read_params
  read_range order accept =
      let i = index_byte b';' accept in
      let read = read_params (drop i accept) in
      if has_byte b';' accept
      then if read.0 == 0 then [] else accepted_type (take i accept) read.0 order read.1 ∷ []
      else accepted_type accept one order [] ∷ []

  unfoldable pub read_ranges : ℕ → List Bytes → List AcceptedType
  unfolding read_range
  read_ranges order [] = []
  read_ranges order (accept ∷ ranges) =
      read_range (order + 1) accept ++ read_ranges (order + 1) ranges

  abbrev pub accepted_types : Bytes → List AcceptedType
  accepted_types header = read_ranges 0 (media_ranges header)

module _ (is_accepted : Bytes → Bytes → Bytes → Panics Bool) where
  -- The loops over the types and the offers, at the end of `getOffer`.
  unfoldable pub offer_for : AcceptedType → List Bytes → Panics (Option Bytes)
  offer_for t [] = done none
  offer_for t ([] ∷ offers) = offer_for t offers
  offer_for t ((c ∷ s) ∷ offers) =
      let later = offer_for t offers in
      is_accepted t.spec (c ∷ s) t.params >>= (λ b. if b then done (some (c ∷ s)) else later)

  unfoldable pub first_offer : List AcceptedType → List Bytes → Panics Bytes
  unfolding offer_for
  first_offer [] offers = done []
  first_offer (t ∷ types) offers =
      let later = first_offer types offers in
      offer_for t offers >>= (λ r. elim r [ some o ↦ done o | none ↦ later ])

module _ (parse_ufloat : Bytes → Option ℕ) (is_accepted : Bytes → Bytes → Bytes → Panics Bool) where
  -- `getOffer`
  unfoldable pub get_offer : Bytes → List Bytes → Panics Bytes
  unfolding media_ranges read_ranges sort_accepted_types first_offer
  get_offer header [] = done []
  get_offer [] (o ∷ offers) = done o
  get_offer (c ∷ header) (o ∷ offers) =
      let types = accepted_types parse_ufloat (c ∷ header) in
      (if ltb 1 (length types) then sort_accepted_types types else done types)
      >>= (λ sorted. first_offer is_accepted sorted (o ∷ offers))

-- `acceptsOffer`
unfoldable pub accepts_offer : Bytes → Bytes → Bytes → Bool
unfolding same
accepts_offer spec offer params = has_suffix (codes "*") spec || has_prefix offer spec
