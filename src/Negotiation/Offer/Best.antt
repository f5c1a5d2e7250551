-- ===== src/Negotiation/Offer/Best.antt =====
-- `getOffer` returns an offer that the best of all accepted ranges takes.
use mathlib.Core.List.{Permᴰ}
use mathlib.Core.List.Permᴰ
use wx.Common.{
  ℕ, zero, suc, ◌≡◌, ◌⊎◌, Bool, true, false, Option, none, some, List, [], ◌∷◌, Bytes, Panics, done,
  All, Bool-cases, inl, inr, length, get_elem?, Returns, Returns-bind, Returns-mono, ltb,
  if◌then◌else◌, refl, ap, sym, arith, ◌∙◌,
}
use wx.Negotiation.Sort.{AcceptedType, sort_accepted_types}
use wx.Negotiation.Sort.Laws.{All-Perm}
use wx.Negotiation.Sort.Ordered.{IsRanked}
use wx.Negotiation.Sort.Ranks.{Outranks, sort_accepted_types-Outranks}
use wx.Negotiation.Offer.{accepted_types, offer_for, first_offer, get_offer}

-- Where an element of a list stands in a rearrangement of it.
Perm-index :
    {xs ys : List AcceptedType} (t : AcceptedType)
    → Permᴰ xs ys
    → (i : ℕ) × (get_elem? xs i ≡ some t)
    → (j : ℕ) × (get_elem? ys j ≡ some t)
Perm-index t Permᴰ.nil k = k
Perm-index t (Permᴰ.cons e p) (zero, k) = (0, ap some (sym e) ∙ k)
Perm-index t (Permᴰ.cons e p) (suc i, k) = let (j, q) = Perm-index t p (i, k) in (suc j, q)
Perm-index t (Permᴰ.swap e f) (zero, k) = (1, ap some (sym e) ∙ k)
Perm-index t (Permᴰ.swap e f) (suc zero, k) = (0, ap some (sym f) ∙ k)
Perm-index t (Permᴰ.swap e f) (suc (suc i), k) = (suc (suc i), k)
Perm-index t (Permᴰ.trans p q) k = Perm-index t q (Perm-index t p k)

module _ (decide : Bytes → Bytes → Bytes → Bool) where
  -- The range does not take the offer, or the offer is empty.
  abbrev pub Refuses : AcceptedType → Bytes → Type 0
  Refuses t o = (o ≡ []) ⊎ (decide t.spec o t.params ≡ false)

  -- No range takes any offer, and the result is empty; or it is an offer that one of the ranges takes,
  -- and every range takes none or has no higher quality, and no higher specificity at the same quality.
  abbrev pub IsBest : List AcceptedType → List Bytes → Bytes → Type 0
  IsBest types offers r =
      ((r ≡ []) × All (λ t. All (Refuses t) offers) types)
      ⊎ ((t : AcceptedType) × ((i : ℕ) × (get_elem? types i ≡ some t))
          × ((j : ℕ) × (get_elem? offers j ≡ some r))
          × (decide t.spec r t.params ≡ true)
          × All (λ u. Outranks t u ⊎ All (Refuses u) offers) types)

  abbrev decided : Bytes → Bytes → Bytes → Panics Bool
  decided s o p = done (decide s o p)

  abbrev IsTaken : AcceptedType → List Bytes → Option Bytes → Type 0
  IsTaken t offers none = All (Refuses t) offers
  IsTaken t offers (some o) =
      ((j : ℕ) × (get_elem? offers j ≡ some o)) × (decide t.spec o t.params ≡ true)

  IsTaken-cons :
      (t : AcceptedType) (o : Bytes) (offers : List Bytes) (r : Option Bytes)
      → Refuses t o
      → IsTaken t offers r
      → IsTaken t (o ∷ offers) r
  IsTaken-cons t o offers none h k = (h, k)
  IsTaken-cons t o offers (some p) h ((j, e), d) = ((suc j, e), d)

  offer_for-IsTaken :
      (t : AcceptedType) (offers : List Bytes)
      → Returns (IsTaken t offers) (offer_for decided t offers)
  unfolding offer_for
  offer_for-IsTaken t [] = tt
  offer_for-IsTaken t ([] ∷ offers) =
      Returns-mono _ _ (offer_for decided t offers) (offer_for-IsTaken t offers)
        (λ r k. IsTaken-cons t [] offers r (inl refl) k)
  offer_for-IsTaken t ((c ∷ s) ∷ offers) = elim (Bool-cases (decide t.spec (c ∷ s) t.params)) [
    | inl e ↦ rw e ((0, refl), e)
    | inr e ↦ rw e (
        Returns-mono _ _ (offer_for decided t offers) (offer_for-IsTaken t offers)
          (λ r k. IsTaken-cons t (c ∷ s) offers r (inr e) k))
  ]

  IsBest-cons :
      (t : AcceptedType) (types : List AcceptedType) (offers : List Bytes) (r : Bytes)
      → All (Refuses t) offers
      → IsBest types offers r
      → IsBest (t ∷ types) offers r
  IsBest-cons t types offers r h (inl (e, k)) = inl (e, (h, k))
  IsBest-cons t types offers r h (inr (u, (i, e), j, d, k)) = inr (u, (suc i, e), j, d, (inr h, k))

  All-below :
      (t : AcceptedType) (offers : List Bytes) (l : List AcceptedType)
      → All (Outranks t) l
      → All (λ u. Outranks t u ⊎ All (Refuses u) offers) l
  All-below t offers [] h = tt
  All-below t offers (u ∷ l) (h, hs) = (inl h, All-below t offers l hs)

  first_offer-IsBest :
      (types : List AcceptedType) (offers : List Bytes)
      → IsRanked Outranks types
      → Returns (IsBest types offers) (first_offer decided types offers)
  unfolding first_offer
  first_offer-IsBest [] offers s = inl (refl, tt)
  first_offer-IsBest (t ∷ types) offers (h, hs) =
      Returns-bind (IsTaken t offers) (IsBest (t ∷ types) offers) (offer_for decided t offers) _
        (offer_for-IsTaken t offers)
        (λ r k.
          elim r
              as (λ z.
                IsTaken t offers z
                → Returns (IsBest (t ∷ types) offers)
                    (elim z [ some o ↦ done o | none ↦ first_offer decided types offers ])) [
                      | none ↦ λ k.
                          Returns-mono _ _ (first_offer decided types offers)
                            (first_offer-IsBest types offers hs)
                            (λ a b. IsBest-cons t types offers a k b)
                      | some o ↦ λ k. inr (
                        t,
                        (0, refl),
                        k.0,
                        k.1,
                        (inl (inr (refl, omega arith)), All-below t offers types h),
                      )
                    ]
            k)

  IsBest-Perm :
      {xs ys : List AcceptedType} (offers : List Bytes) (r : Bytes)
      → Permᴰ xs ys
      → IsBest xs offers r
      → IsBest ys offers r
  IsBest-Perm offers r p (inl (e, k)) = inl (e, All-Perm (λ t. All (Refuses t) offers) p k)
  IsBest-Perm offers r p (inr (t, i, j, d, k)) =
      inr (t, Perm-index t p i, j, d, All-Perm (λ u. Outranks t u ⊎ All (Refuses u) offers) p k)

  -- The sort, or nothing where there is at most one range.
  sorted-Outranks :
      (types : List AcceptedType)
      → Returns
          (λ s. IsRanked Outranks s × Permᴰ s types)
          (if ltb 1 (length types) then sort_accepted_types types else done types)
  sorted-Outranks [] = (tt, Permᴰ.refl [])
  sorted-Outranks (t ∷ []) = ((tt, tt), Permᴰ.refl (t ∷ []))
  sorted-Outranks (t ∷ u ∷ types) =
      let long : ltb 1 (suc (suc (length types))) ≡ true = ground arith in
      rw long (sort_accepted_types-Outranks (t ∷ u ∷ types))

  -- For a header and offers that are not empty, and a test that always answers, getOffer returns: the
  -- empty string if no range of the header with a quality takes any offer, and else an offer that one
  -- of the ranges takes, where every other range takes none or has no higher quality, and no higher
  -- specificity at the same quality.
  pub get_offer-IsBest :
      (parse_ufloat : Bytes → Option ℕ) (c : ℕ) (header o : Bytes) (offers : List Bytes)
      → Returns
          (IsBest (accepted_types parse_ufloat (c ∷ header)) (o ∷ offers))
          (get_offer parse_ufloat (λ s p q. done (decide s p q)) (c ∷ header) (o ∷ offers))
  unfolding get_offer
  get_offer-IsBest parse_ufloat c header o offers =
      let types = accepted_types parse_ufloat (c ∷ header) in
      Returns-bind (λ s. IsRanked Outranks s × Permᴰ s types) (IsBest types (o ∷ offers))
        (if ltb 1 (length types) then sort_accepted_types types else done types) _
        (sorted-Outranks types)
        (λ s (ranked, p).
          Returns-mono _ _ (first_offer decided s (o ∷ offers))
            (first_offer-IsBest s (o ∷ offers) ranked) (λ r k. IsBest-Perm (o ∷ offers) r p k))
