-- ===== src/Negotiation/Sort.antt =====
-- `sortAcceptedTypes` of fasthttp-routing/helpers.go: insertion by binary search.
pub mod Laws
pub mod Ordered
pub mod Ranks
use wx.Common.{
  ℕ, zero, suc, ◌+◌, ◌-◌, ◌/◌, Bool, ◌&&◌, ◌||◌, List, Bytes, Panics, panic, out_of_fuel, done,
  ◌>>=◌, checked, ltb, ◌==◌, if◌then◌else◌, get_elem?, set, length,
}

-- `acceptedType`. A quality is a float64 that is not negative, and stands as its bit pattern, which has
-- the same order.
pub record AcceptedType : Type 0 where
  pub spec : Bytes
  pub quality : ℕ
  pub specificity : ℕ
  pub order : ℕ
  pub params : Bytes

-- The condition on `at[i]` and `at[mid]` under which the search goes on behind `mid`.
abbrev pub goes_behind : AcceptedType → AcceptedType → Bool
goes_behind x y =
    ltb x.quality y.quality
    || (x.quality == y.quality && ltb x.specificity y.specificity)
    || (x.quality == y.quality
        && ltb x.specificity y.specificity
        && ltb (length x.params) (length y.params))
    || (x.quality == y.quality
        && x.specificity == y.specificity
        && length x.params == length y.params
        && ltb y.order x.order)

-- The binary search: `hi` is the source's plus 1, and so never below 0.
unfoldable pub search : ℕ → AcceptedType → List AcceptedType → ℕ → ℕ → Panics ℕ
search zero x at lo hi = panic out_of_fuel
search (suc fuel) x at lo hi =
    let mid = (lo + hi - 1) / 2 in
    let go = checked (get_elem? at mid) >>= (λ y.
      let lo' = if goes_behind x y then mid + 1 else lo in
      let hi' = if goes_behind x y then hi else mid in search fuel x at lo' hi') in
    if ltb lo hi then go else done lo

-- `at[j-1], at[j] = at[j], at[j-1]` for `j` from `lo + n` down to `lo + 1`.
unfoldable pub swap : ℕ → List AcceptedType → Panics (List AcceptedType)
swap j at = do
  a ← checked (get_elem? at j)
  b ← checked (get_elem? at (suc j))
  done (set (set at j b) (suc j) a)

unfoldable pub sift : ℕ → ℕ → List AcceptedType → Panics (List AcceptedType)
unfolding swap
sift zero lo at = done at
sift (suc n) lo at = swap (lo + n) at >>= (λ s. sift n lo s)

-- The loop over `i`, with the number of rounds that are left.
unfoldable pub sort_from : ℕ → ℕ → List AcceptedType → Panics (List AcceptedType)
unfolding search sift
sort_from zero i at = done at
sort_from (suc n) i at = do
  x ← checked (get_elem? at i)
  lo ← search (suc i) x at 0 i
  s ← sift (i - lo) lo at
  sort_from n (i + 1) s

unfoldable pub sort_accepted_types : List AcceptedType → Panics (List AcceptedType)
unfolding sort_from
sort_accepted_types at = if ltb (length at) 2 then done at else sort_from (length at - 1) 1 at
