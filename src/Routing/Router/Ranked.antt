-- ===== src/Routing/Router/Ranked.antt =====
-- `Router.find` among several routes that match: the reference is the list of all matches of the
-- store of the method, which has no order to skip by and no slice to share.
use wx.Common.{
  ℕ, Bool, true, false, none, lookup, ◌≤◌, ◌<◌, ◌==◌, ◌≡◌, ◌⊎◌, some, List, Bytes, done, Option,
  ◌++◌, Ensures-done, Returns, Returns-bind, Option-cases, inl, inr, [], ◌∷◌, length, refl, All,
  All-append, All-get_elem?, All-lookup, subst, sym, drop, if◌then◌else◌,
}
use wx.Routing.Store.Node.{Regexp, Info, Node, node, Kids, no_kids, kid, Nodes, no_nodes, more}
use wx.Routing.Store.Get.{Found, max_int32, nothing, is_some, takes}
use wx.Routing.Store.Table.{Store, store_get}
use wx.Routing.Store.Least.{matches, matches_kid, matches_params, matches_at, own, IsLeast}
use wx.Routing.Store.First.{store_get_first}
use wx.Routing.Router.{RouteData, Router, new_router}
use wx.Routing.Router.Register.{Match, matched, find}
use wx.Routing.Router.Laws.{IsReady, Sound}
use wx.Routing.Router.Ready.{new_router-IsReady}
use wx.Routing.Router.Registered.{Call, calls, calls-IsReady}

-- A match has data.
abbrev HasData : {D : Type 0} → Found D → Type 0
HasData f = is_some f.value ≡ true

module _ {D : Type 0} where
  own-HasData : (i : Info D) → All HasData (own i)
  own-HasData i = elim (Option-cases i.value) [
    | inl e ↦ rw (e, own) tt
    | inr (d, e) ↦ rw (e, own) (refl, tt)
  ]

  at-HasData :
      (kids : ℕ → Bytes → List (Found D)) (i : Info D) (key : Bytes)
      → ((b : ℕ) (s : Bytes) → All HasData (kids b s))
      → All HasData (matches_at kids i key)
  at-HasData kids i [] h = own-HasData i
  at-HasData kids i (b ∷ s) h = h b (b ∷ s)

  All-if :
      (b : Bool) (xs ys : List (Found D))
      → All HasData xs
      → All HasData ys
      → All HasData (if b then xs else ys)
  All-if true xs ys h k = h
  All-if false xs ys h k = k

  taken-HasData :
      (o : Option ℕ) (f g : ℕ → List (Found D))
      → ((n : ℕ) → All HasData (f n))
      → ((n : ℕ) → All HasData (g n))
      → All HasData (elim o [ none ↦ [] | some n ↦ f n ++ g n ])
  taken-HasData none f g h k = tt
  taken-HasData (some n) f g h k = All-append HasData (f n) (g n) (h n) (k n)

module _ {D : Type 0} (rx : Regexp) where
  mutual
    unfolding matches matches_kid matches_params

    matches-HasData_at : (n : Node D) (key : Bytes) → All HasData (matches rx n key)
    matches-HasData_at (node i ks ps) key =
        taken-HasData (takes rx i key) (λ n. matches_at (matches_kid rx ks) i (drop n key))
          (λ n. matches_params rx ps (drop n key))
          (λ n. at-HasData (matches_kid rx ks) i (drop n key) (λ b s. kid-HasData ks b s))
          (λ n. params-HasData ps (drop n key))

    kid-HasData : (ks : Kids D) (b : ℕ) (key : Bytes) → All HasData (matches_kid rx ks b key)
    kid-HasData no_kids b key = tt
    kid-HasData (kid a c ks) b key =
        All-if (a == b) _ _ (matches-HasData_at c key) (kid-HasData ks b key)

    params-HasData : (ps : Nodes D) (key : Bytes) → All HasData (matches_params rx ps key)
    params-HasData no_nodes key = tt
    params-HasData (more c ps) key =
        All-append HasData _ _ (matches-HasData_at c key) (params-HasData ps key)

  matches-HasData : (n : Node D) (key : Bytes) → All HasData (matches rx n key)
  matches-HasData n key = matches-HasData_at n key

module _ {H : Type 0} where
  -- The handlers for what is not found, no route and no names.
  abbrev pub IsNotFound : Router H → Match H → Type 0
  IsNotFound r a = (a.handlers ≡ r.not_found_handlers) × (a.route ≡ none) × (a.pnames ≡ [])

  -- The handlers and the number of the route that were registered with the match, and its names.
  abbrev pub IsHit : Match H → Found (RouteData H) → Type 0
  IsHit a f =
      (d : RouteData H) × (f.value ≡ some d)
      × (a.handlers ≡ d.handlers)
      × (a.route ≡ some d.route)
      × (a.pnames ≡ f.pnames)

  -- There is no match, and nothing is found; or the result is that of a match, and no match has been
  -- registered earlier.
  abbrev pub IsFirst : Router H → List (Found (RouteData H)) → Match H → Type 0
  IsFirst r gs a =
      ((gs ≡ []) × IsNotFound r a) ⊎ ((f : Found (RouteData H)) × IsLeast f gs × IsHit a f)

  matched-IsHit :
      (r : Router H) (f : Found (RouteData H)) (v : List Bytes)
      → is_some f.value ≡ true
      → IsHit (matched r (f, v)) f
  matched-IsHit r f v h = elim (Option-cases f.value) [
    | inl e ↦ let no : false ≡ true = rw e at h in cc
    | inr (d, e) ↦ rw (e, matched) (d, refl, refl, refl, refl)
  ]

  matched-IsFirst :
      (r : Router H) (gs : List (Found (RouteData H))) (f : Found (RouteData H)) (v : List Bytes)
      → All HasData gs
      → ((gs ≡ []) × (f ≡ nothing)) ⊎ IsLeast f gs
      → IsFirst r gs (matched r (f, v))
  matched-IsFirst r gs f v h (inl (e, n)) =
      inl (e, subst (λ z. IsNotFound r (matched r (z, v))) (sym n) (refl, refl, refl))
  matched-IsFirst r gs f v h (inr ((i, e), l)) =
      inr (f, ((i, e), l), matched-IsHit r f v (All-get_elem? HasData gs i f h e))

module _ {H : Type 0} (rx : Regexp) where
  find-IsFirst :
      (r : Router H) (s : Store (RouteData H)) (method path : Bytes) (pvalues : List Bytes)
      → IsReady r
      → lookup method r.stores ≡ some s
      → s.count < max_int32
      → r.max_params ≤ length pvalues
      → Returns (IsFirst r (matches rx s.root path)) (find rx r method path pvalues)
  unfolding find
  find-IsFirst r s method path pvalues v e small le =
      let sound = All-lookup (Sound r.max_params) method r.stores s v.roomy e in
      rw (e, find)
        (Returns-bind
          (λ (f : Found (RouteData H) × List Bytes).
            ((matches rx s.root path ≡ []) × (f.0 ≡ nothing))
            ⊎ IsLeast f.0 (matches rx s.root path))
          (IsFirst r (matches rx s.root path)) (store_get rx s path pvalues)
          (λ f. done (matched r f))
          (store_get_first rx r.max_params s.count s path pvalues sound.0 le small sound.1)
          (λ f h.
            matched-IsFirst r (matches rx s.root path) f.0 f.1 (matches-HasData rx s.root path) h))

  -- However a router has been built by calls that all returned, with less than 2 ^ 31 - 1 routes in the
  -- store of the method, and with a value for every parameter, looking a request up returns: if no
  -- route of the method matches the path, the handlers for what is not found, no route and no names,
  -- and else the handlers, the route and the names that were registered with the match that was
  -- registered first.
  pub calls-find-IsFirst :
      (cs : List (Call H)) (defaults : List H) (r : Router H) (s : Store (RouteData H))
      (method path : Bytes) (pvalues : List Bytes)
      → calls rx cs (new_router defaults) ≡ done r
      → lookup method r.stores ≡ some s
      → s.count < max_int32
      → r.max_params ≤ length pvalues
      → Returns (IsFirst r (matches rx s.root path)) (find rx r method path pvalues)
  calls-find-IsFirst cs defaults r s method path pvalues e l small le =
      find-IsFirst r s method path pvalues
        (Ensures-done IsReady _ r
          (calls-IsReady rx cs (new_router defaults) (new_router-IsReady defaults)) e)
        l small le
