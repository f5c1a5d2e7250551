-- ===== src/Cors/Subdomain.antt =====
-- fasthttp-routing/middleware/cors/utils.go: `matchScheme` and `matchSubdomain`, which nothing calls.
-- Indices are checked, as Go does.
pub mod Turned
pub mod Labels
pub mod Schemes
pub mod Wildcard
mod Tests
use wx.Common.{
  ℕ, zero, suc, ◌+◌, ◌-◌, ◌/◌, Panics, done, checked, ◌>>=◌, get_elem?, set, Bool, true, false, not,
  ◌||◌, ◌&&◌, Option, none, some, List, [], ◌∷◌, ◌++◌, Bytes, codes, length, take, drop, same, ltb,
  ◌==◌, if◌then◌else◌,
}
use wx.Negotiation.Offer.{has_prefix}

-- `strings.Index(s, sub)`, for a `sub` that is not empty
unfoldable pub index : Bytes → Bytes → Option ℕ
unfolding same
index sub [] = none
index sub (c ∷ s) =
    let later : Option ℕ = elim (index sub s) [ none ↦ none | some i ↦ some (suc i) ] in
    if has_prefix sub (c ∷ s) then some 0 else later

-- `strings.Split(s, ".")`
unfoldable pub labels : Bytes → Bytes → List Bytes
labels part [] = part ∷ []
labels part (c ∷ s) =
    let here = labels (part ++ c ∷ []) s in
    let next = part ∷ labels [] s in if c == b'.' then next else here

-- `comp[i], comp[opp] = comp[opp], comp[i]`
unfoldable pub swapped : ℕ → ℕ → List Bytes → Panics (List Bytes)
swapped i opp comp = do
  a ← checked (get_elem? comp i)
  b ← checked (get_elem? comp opp)
  done (set (set comp i b) opp a)

-- The loop from the index `i` down to 0, given `i + 1`.
unfoldable pub turned_from : ℕ → List Bytes → Panics (List Bytes)
unfolding swapped
turned_from zero comp = done comp
turned_from (suc i) comp = do comp' ← swapped i (length comp - 1 - i) comp; turned_from i comp'

-- The loop over one half, with `divHalf`.
unfoldable pub turned : List Bytes → Panics (List Bytes)
unfolding turned_from
turned comp = turned_from (length comp / 2) comp

-- The comparison of the labels from the end.
unfoldable pub match_labels : List Bytes → List Bytes → Bool
unfolding same
match_labels [] ps = false
match_labels (v ∷ vs) [] = false
match_labels (v ∷ vs) (p ∷ ps) =
    let rest = match_labels vs ps in
    if same p (codes "*") then true else if not (same p v) then false else rest

-- `matchScheme`
unfoldable pub match_scheme : Bytes → Bytes → Bool
unfolding index same
match_scheme domain pattern = elim (index (codes ":") domain) [
  | none ↦ false
  | some d ↦ elim (index (codes ":") pattern) [
    | none ↦ false
    | some p ↦ same (take d domain) (take p pattern)
  ]
]

-- `matchSubdomain`
unfoldable pub match_subdomain : Bytes → Bytes → Panics Bool
unfolding match_scheme index labels turned match_labels
match_subdomain domain pattern =
    let compared : Panics Bool = elim (index (codes "://") domain) [
      | none ↦ done false
      | some d ↦ elim (index (codes "://") pattern) [
        | none ↦ done false
        | some p ↦
            let dom_auth = drop (d + 3) domain in
            let by_labels : Panics Bool = do
              dom_comp ← turned (labels [] dom_auth)
              pat_comp ← turned (labels [] (drop (p + 3) pattern))
              done (match_labels dom_comp pat_comp)
            in if ltb 253 (length dom_auth) then done false else by_labels
      ]
    ] in
    if match_scheme domain pattern then compared else done false
