-- ===== src/Negotiation/Sort/Laws.antt =====
-- The binary search and the insertion of `sortAcceptedTypes`, for any order that its condition follows.
use mathlib.Core.List.{Permᴰ}
use mathlib.Core.List.Permᴰ
use wx.Common.{
  ℕ, zero, suc, ◌+◌, ◌≡◌, some, List, [], ◌∷◌, ◌++◌, Panics, panic, done, ◌>>=◌, Option-cases, inl,
  inr, All, get_elem?, length, take, drop, refl, subst, arith, ◌∙◌, take-append-drop,
}
use wx.Negotiation.Sort.{AcceptedType, swap, sift}

pub get_elem?-append_left :
    (xs ys : List AcceptedType) (i : ℕ) (x : AcceptedType)
    → get_elem? xs i ≡ some x
    → get_elem? (xs ++ ys) i ≡ some x
get_elem?-append_left [] ys i x e = cc
get_elem?-append_left (z ∷ xs) ys zero x e = e
get_elem?-append_left (z ∷ xs) ys (suc i) x e = get_elem?-append_left xs ys i x e

-- The elements in front of the part that is sorted stay where they are.
abbrev prepend : List AcceptedType → Panics (List AcceptedType) → Panics (List AcceptedType)
prepend a m = m >>= (λ s. done (a ++ s))

swap-cons :
    (j : ℕ) (z : AcceptedType) (at : List AcceptedType)
    → swap (suc j) (z ∷ at) ≡ prepend (z ∷ []) (swap j at)
unfolding swap
swap-cons j z at = elim (Option-cases (get_elem? at j)) [
  | inl e ↦ rw e
  | inr (a, e) ↦ elim (Option-cases (get_elem? at (suc j))) [
    | inl f ↦ rw (e, f)
    | inr (b, f) ↦ rw (e, f)
  ]
]

sift-cons :
    (n lo : ℕ) (z : AcceptedType) (at : List AcceptedType)
    → sift n (suc lo) (z ∷ at) ≡ prepend (z ∷ []) (sift n lo at)
unfolding sift
sift-cons zero lo z at = refl
sift-cons (suc n) lo z at =
    let same_index : suc lo + n ≡ suc (lo + n) = omega arith in
    rw (same_index, swap-cons (lo + n) z at) (go (swap (lo + n) at) (λ s. sift-cons n lo z s))
  where
    go :
        (m : Panics (List AcceptedType))
        → ((s : List AcceptedType) → sift n (suc lo) (z ∷ s) ≡ prepend (z ∷ []) (sift n lo s))
        → (prepend (z ∷ []) m >>= (λ s. sift n (suc lo) s))
          ≡ prepend (z ∷ []) (m >>= (λ s. sift n lo s))
    go (panic e) ih = refl
    go (done s) ih = ih s

-- The last swap of a sift.
sift-last :
    (n lo : ℕ) (at : List AcceptedType)
    → sift (suc n) lo at ≡ (sift n (suc lo) at >>= (λ s. swap lo s))
unfolding sift
sift-last zero lo at = let same_index : lo + 0 ≡ lo = omega arith in rw same_index (go (swap lo at))
  where
    go : (m : Panics (List AcceptedType)) → (m >>= (λ s. done s)) ≡ m
    go (panic e) = refl
    go (done s) = refl
sift-last (suc n) lo at =
    let same_index : lo + suc n ≡ suc lo + n = omega arith in
    rw same_index (go (swap (suc lo + n) at) (λ s. sift-last n lo s))
  where
    go :
        (m : Panics (List AcceptedType))
        → ((s : List AcceptedType) → sift (suc n) lo s ≡ (sift n (suc lo) s >>= (λ t. swap lo t)))
        → (m >>= (λ s. sift (suc n) lo s)) ≡ (m >>= (λ s. sift n (suc lo) s) >>= (λ s. swap lo s))
    go (panic e) ih = refl
    go (done s) ih = ih s

-- The element behind `b` moves to its front.
sift-front :
    (b rest : List AcceptedType) (x : AcceptedType)
    → sift (length b) 0 (b ++ x ∷ rest) ≡ done (x ∷ b ++ rest)
unfolding sift swap
sift-front [] rest x = refl
sift-front (z ∷ b) rest x =
    rw
      (
        sift-last (length b) 0 (z ∷ b ++ x ∷ rest),
        sift-cons (length b) 0 z (b ++ x ∷ rest),
        sift-front b rest x,
      )
      refl

pub sift_lem :
    (a b rest : List AcceptedType) (x : AcceptedType)
    → sift (length b) (length a) (a ++ b ++ x ∷ rest) ≡ done (a ++ x ∷ b ++ rest)
sift_lem [] b rest x = sift-front b rest x
sift_lem (z ∷ a) b rest x =
    sift-cons (length b) (length a) z (a ++ b ++ x ∷ rest) ∙ rw (sift_lem a b rest x)

-- An element between the two parts is one of the whole.
pub insert-Perm :
    (n : ℕ) (pre rest : List AcceptedType) (x : AcceptedType)
    → Permᴰ ((take n pre ++ x ∷ drop n pre) ++ rest) (pre ++ x ∷ rest)
insert-Perm n pre rest x =
    Permᴰ.trans
      (subst (λ l. Permᴰ ((take n pre ++ x ∷ drop n pre) ++ rest) ((x ∷ l) ++ rest))
        (take-append-drop n pre)
        (Permᴰ.append_right rest (Permᴰ.middle x (take n pre) (drop n pre))))
      (Permᴰ.symm (Permᴰ.middle x pre rest))

pub All-Perm :
    (P : AcceptedType → Type 0) {xs ys : List AcceptedType} → Permᴰ xs ys → All P xs → All P ys
All-Perm P Permᴰ.nil h = tt
All-Perm P (Permᴰ.cons e p) (h, hs) = (subst P e h, All-Perm P p hs)
All-Perm P (Permᴰ.swap e f) (h, (k, hs)) = (subst P f k, (subst P e h, hs))
All-Perm P (Permᴰ.trans p q) h = All-Perm P q (All-Perm P p h)
