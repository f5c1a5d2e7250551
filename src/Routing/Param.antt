-- ===== src/Routing/Param.antt =====
-- fasthttp-routing/context.go: `Ctx.Param` on what `find` has left in the context.
use wx.Common.{
  ℕ, zero, suc, ◌≤◌, ◌≡◌, ◌⊎◌, inl, inr, Bool-cases, some, List, [], ◌∷◌, Bytes, Panics, panic,
  done, index_range, same, same→eq, if◌then◌else◌, Returns, Returns-mono, length, get_elem?, refl,
  ap, arith,
}
use wx.Routing.Store.Node.{Regexp}
use wx.Routing.Router.{Router, new_router}
use wx.Routing.Router.Register.{find}
use wx.Routing.Router.Registered.{Call, calls, calls-find, Fits}

-- `Ctx.Param`: the value at the index of the first name that is `name`.
unfoldable pub param : List Bytes → List Bytes → Bytes → Panics Bytes
unfolding same
param [] values name = done []
param (n ∷ ns) [] name =
    let later = param ns [] name in if same n name then panic index_range else later
param (n ∷ ns) (v ∷ vs) name = let later = param ns vs name in if same n name then done v else later

-- The value of one of the names that are `name`, or no bytes.
abbrev pub IsParam : List Bytes → List Bytes → Bytes → Bytes → Type 0
IsParam names values name v =
    ((i : ℕ) × (get_elem? names i ≡ some name) × (get_elem? values i ≡ some v)) ⊎ (v ≡ [])

later-IsParam :
    (n w : Bytes) (ns vs : List Bytes) (name v : Bytes)
    → IsParam ns vs name v
    → IsParam (n ∷ ns) (w ∷ vs) name v
later-IsParam n w ns vs name v (inl (i, e, k)) = inl (suc i, e, k)
later-IsParam n w ns vs name v (inr e) = inr e

param-Returns :
    (names values : List Bytes) (name : Bytes)
    → length names ≤ length values
    → Returns (IsParam names values name) (param names values name)
unfolding param
param-Returns [] values name h = inr refl
param-Returns (n ∷ ns) [] name h = absurd (omega (arith, h))
param-Returns (n ∷ ns) (v ∷ vs) name h = elim (Bool-cases (same n name)) [
  | inl e ↦ rw (e, param) (inl (zero, ap some (same→eq n name e), refl))
  | inr e ↦
      rw (e, param)
        (Returns-mono (IsParam ns vs name) (IsParam (n ∷ ns) (v ∷ vs) name) (param ns vs name)
          (param-Returns ns vs name (omega (arith, h))) (λ w k. later-IsParam n v ns vs name w k))
]

-- After the look-up of a request, in a router that has been built by calls that all returned and with a
-- value for every parameter, Param never panics for any name: it returns the value at an index of the
-- name, or nothing.
pub calls-param :
    {H : Type 0} (rx : Regexp) (cs : List (Call H)) (defaults : List H) (r : Router H)
    (method path : Bytes) (pvalues : List Bytes) (name : Bytes)
    → calls rx cs (new_router defaults) ≡ done r
    → r.max_params ≤ length pvalues
    → Returns
        (λ a. Returns (IsParam a.pnames a.pvalues name) (param a.pnames a.pvalues name))
        (find rx r method path pvalues)
calls-param rx cs defaults r method path pvalues name e le =
    Returns-mono (Fits rx r (length pvalues))
      (λ a. Returns (IsParam a.pnames a.pvalues name) (param a.pnames a.pvalues name))
      (find rx r method path pvalues) (calls-find rx cs defaults r method path pvalues e le)
      (λ a h. param-Returns a.pnames a.pvalues name (omega (arith, h.0, h.1)))
