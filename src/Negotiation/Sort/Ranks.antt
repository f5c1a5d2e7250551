-- ===== src/Negotiation/Sort/Ranks.antt =====
-- What `sortAcceptedTypes` does with quality, specificity, parameters and the order in the header.
use mathlib.Core.List.{Permᴰ}
use wx.Common.{
  ℕ, ◌≤◌, ◌<◌, ◌≡◌, ◌≢◌, ◌⊎◌, true, false, List, [], ◌∷◌, done, All, length, Returns, refl, arith,
}
use wx.Negotiation.Sort.{AcceptedType, goes_behind, sort_accepted_types}
use wx.Negotiation.Sort.Ordered.{IsRanked, sort_accepted_types-IsRanked}

-- By quality, and then by specificity.
abbrev pub Outranks : AcceptedType → AcceptedType → Type 0
Outranks y x = (x.quality < y.quality) ⊎ ((x.quality ≡ y.quality) × (x.specificity ≤ y.specificity))

-- By quality, then by specificity, and then in the order of the header.
abbrev pub Precedes : AcceptedType → AcceptedType → Type 0
Precedes y x =
    (x.quality < y.quality)
    ⊎ ((x.quality ≡ y.quality)
        × ((x.specificity < y.specificity)
            ⊎ ((x.specificity ≡ y.specificity) × (y.order ≤ x.order))))

Outranks_trans : (a b c : AcceptedType) → Outranks a b → Outranks b c → Outranks a c
Outranks_trans a b c p q = ground arith

Precedes_trans : (a b c : AcceptedType) → Precedes a b → Precedes b c → Precedes a c
Precedes_trans a b c p q = ground arith

goes_behind-Outranks : (x y : AcceptedType) → goes_behind x y ≡ true → Outranks y x
goes_behind-Outranks x y h = ground arith

stays-Outranks : (x y : AcceptedType) → goes_behind x y ≡ false → Outranks x y
stays-Outranks x y h = ground arith

goes_behind-Precedes :
    (n : ℕ) (x y : AcceptedType)
    → length x.params ≡ n
    → length y.params ≡ n
    → goes_behind x y ≡ true
    → Precedes y x
goes_behind-Precedes n x y p q h = ground arith

stays-Precedes :
    (n : ℕ) (x y : AcceptedType)
    → length x.params ≡ n
    → length y.params ≡ n
    → goes_behind x y ≡ false
    → Precedes x y
stays-Precedes n x y p q h = ground arith

abbrev Whatever : AcceptedType → Type 0
Whatever x = Unit

All-Whatever : (l : List AcceptedType) → All Whatever l
All-Whatever [] = tt
All-Whatever (x ∷ l) = (tt, All-Whatever l)

-- For every list the sort returns a rearrangement of it by quality, and then by specificity.
pub sort_accepted_types-Outranks :
    (at : List AcceptedType)
    → Returns (λ s. IsRanked Outranks s × Permᴰ s at) (sort_accepted_types at)
sort_accepted_types-Outranks at =
    sort_accepted_types-IsRanked Whatever Outranks Outranks_trans
      (λ x y p q. goes_behind-Outranks x y) (λ x y p q. stays-Outranks x y) at (All-Whatever at)

-- If the parameters of all types have the same length, the sort returns a rearrangement of the list by
-- quality, then by specificity, and then by the order in the header.
pub sort_accepted_types-Precedes :
    (n : ℕ) (at : List AcceptedType)
    → All (λ x. length x.params ≡ n) at
    → Returns (λ s. IsRanked Precedes s × Permᴰ s at) (sort_accepted_types at)
sort_accepted_types-Precedes n at h =
    sort_accepted_types-IsRanked (λ x. length x.params ≡ n) Precedes Precedes_trans
      (goes_behind-Precedes n) (stays-Precedes n) at h

-- Two types of the same quality and specificity, with parameters of different lengths: the sort puts
-- the second in front of the first, whichever has more parameters.
pub sort_swaps :
    (x y : AcceptedType)
    → x.quality ≡ y.quality
    → x.specificity ≡ y.specificity
    → length x.params ≢ length y.params
    → sort_accepted_types (x ∷ y ∷ []) ≡ done (y ∷ x ∷ [])
unfolding sort_accepted_types
sort_swaps x y q s p = let stays : goes_behind y x ≡ false = ground arith in rw stays refl
