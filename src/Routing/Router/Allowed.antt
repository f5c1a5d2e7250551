-- ===== src/Routing/Router/Allowed.antt =====
-- `findAllowedMethods` against its meaning: the methods with a route that matches the path.
use wx.Common.{
  ℕ, ◌≤◌, ◌<◌, ◌≡◌, ◌⊎◌, true, List, [], ◌∷◌, ◌++◌, Bytes, done, All, All-get_elem?, Ensures-done,
  Returns, Returns-both, Returns-bind, Option-cases, inl, inr, length, refl, ap, sym, append-nil,
  append_assoc, arith, Returns-mono, ◌∙◌,
}
use wx.Routing.Store.Node.{Regexp}
use wx.Routing.Store.Get.{Found, max_int32, nothing, is_some}
use wx.Routing.Store.Table.{Store, store_get}
use wx.Routing.Store.Capacity.{store_get-Returns}
use wx.Routing.Store.Least.{matches, IsLeast, Late, Late-mono, matches-Late}
use wx.Routing.Store.First.{store_get_first}
use wx.Routing.Router.{RouteData, Router, new_router}
use wx.Routing.Router.Register.{listed, allowed_from}
use wx.Routing.Router.Laws.{IsReady, Roomy}
use wx.Routing.Router.Ready.{new_router-IsReady}
use wx.Routing.Router.Registered.{Call, calls, calls-IsReady}

-- The method and a comma, if anything matches.
abbrev pub named : {D : Type 0} → Bytes → List (Found D) → Bytes
named m [] = []
named m (g ∷ gs) = m ++ b',' ∷ []

module _ {H : Type 0} where
  -- The methods whose stores have a match for the path.
  abbrev pub allowed_of : Regexp → List (Bytes × Store (RouteData H)) → Bytes → Bytes
  allowed_of rx [] path = []
  allowed_of rx ((m, s) ∷ rest) path = named m (matches rx s.root path) ++ allowed_of rx rest path

  -- Every store has less than 2 ^ 31 - 1 routes.
  abbrev pub Small : List (Bytes × Store (RouteData H)) → Type 0
  Small = All (λ m. m.1.count < max_int32)

  listed-some :
      (m : Bytes) (f : Found (RouteData H)) (bytes : Bytes)
      → is_some f.value ≡ true
      → listed m f bytes ≡ bytes ++ (m ++ b',' ∷ [])
  listed-some m f bytes h = elim (Option-cases f.value) [
    | inl e ↦ absurd (ground arith)
    | inr (d, e) ↦ rw (e, listed)
  ]

  listed-named :
      (m : Bytes) (f : Found (RouteData H)) (bytes : Bytes) (gs : List (Found (RouteData H)))
      → All (Late 0) gs
      → ((gs ≡ []) × (f ≡ nothing)) ⊎ IsLeast f gs
      → listed m f bytes ≡ bytes ++ named m gs
  listed-named m f bytes gs k (inl (e, n)) = rw (e, n) (sym (append-nil bytes))
  listed-named m f bytes [] k (inr ((i, e), al)) = cc
  listed-named m f bytes (g ∷ gs) k (inr ((i, e), al)) =
      listed-some m f bytes (All-get_elem? (Late 0) (g ∷ gs) i f k e).2

module _ {H : Type 0} (rx : Regexp) where
  allowed_from_lem :
      (top : ℕ) (stores : List (Bytes × Store (RouteData H))) (path : Bytes) (pvalues : List Bytes)
      (bytes : Bytes)
      → Roomy top stores
      → Small stores
      → top ≤ length pvalues
      → Returns
          (λ a. (length a.1 ≡ length pvalues) × (a.0 ≡ bytes ++ allowed_of rx stores path))
          (allowed_from rx stores path pvalues bytes)
  unfolding allowed_from
  allowed_from_lem top [] path pvalues bytes h sm le = (refl, sym (append-nil bytes))
  allowed_from_lem top ((m, s) ∷ rest) path pvalues bytes ((room, ord), hs) (small, sm) le =
      let told = matches-Late rx s.count small s.root path ord in
      Returns-bind
        (λ (f : Found (RouteData H) × List Bytes).
          (length f.1 ≡ length pvalues)
          × (listed m f.0 bytes ≡ bytes ++ named m (matches rx s.root path)))
        (λ a. (length a.1 ≡ length pvalues) × (a.0 ≡ bytes ++ allowed_of rx ((m, s) ∷ rest) path))
        (store_get rx s path pvalues) (λ f. allowed_from rx rest path f.1 (listed m f.0 bytes))
        (Returns-mono _ _ (store_get rx s path pvalues)
          (Returns-both _ _ (store_get rx s path pvalues)
            (store_get-Returns rx top s path pvalues room le)
            (store_get_first rx top s.count s path pvalues room le small ord))
          (λ f k. (
            k.0.1,
            listed-named m f.0 bytes (matches rx s.root path) (Late-mono 0 _ _ (omega arith) told)
                k.1,
          )))
        (λ f k.
          Returns-mono _ _ (allowed_from rx rest path f.1 (listed m f.0 bytes))
            (allowed_from_lem top rest path f.1 (listed m f.0 bytes) hs sm (omega (arith, k.0, le)))
            (λ a q. (
              omega (arith, q.0, k.0),
              q.1
                  ∙ ap (λ z. z ++ allowed_of rx rest path) k.1
                  ∙ append_assoc bytes (named m (matches rx s.root path)) (allowed_of rx rest path),
            )))

  -- However a router has been built by calls that all returned, with less than 2 ^ 31 - 1 routes in
  -- every store, and with a value for every parameter: findAllowedMethods returns, and appends the
  -- methods with a route that matches the path, each with a comma, and no others.
  pub calls-allowed_of :
      (cs : List (Call H)) (defaults : List H) (r : Router H) (path : Bytes) (pvalues : List Bytes)
      (bytes : Bytes)
      → calls rx cs (new_router defaults) ≡ done r
      → Small r.stores
      → r.max_params ≤ length pvalues
      → Returns
          (λ a. (length a.1 ≡ length pvalues) × (a.0 ≡ bytes ++ allowed_of rx r.stores path))
          (allowed_from rx r.stores path pvalues bytes)
  calls-allowed_of cs defaults r path pvalues bytes e sm le =
      allowed_from_lem r.max_params r.stores path pvalues bytes
        (Ensures-done IsReady _ r
          (calls-IsReady rx cs (new_router defaults) (new_router-IsReady defaults)) e).roomy
        sm le
