-- ===== src/Routing/Router/Registered.antt =====
-- A router as it is built: any sequence of calls that register, and then the look-up.
use wx.Common.{
  lookup, ℕ, suc, ◌≤◌, ◌≡◌, ◌⊎◌, none, some, List, [], ◌∷◌, ◌++◌, Bytes, Panics, panic, done, ◌>>=◌,
  Ensures, Ensures-bind, Ensures-done, Returns, Returns-bind, Option-cases, inl, inr, length, refl,
  arith, subst, sym, All-lookup,
}
use wx.Routing.Store.Node.{Regexp}
use wx.Routing.Store.Get.{Found}
use wx.Routing.Store.Table.{Store, store_get}
use wx.Routing.Store.Capacity.{store_get-Returns}
use wx.Routing.Router.{
  RouteData, Router, own_handlers, not_found_with, new_router, group_use, router_use, make_group,
}
use wx.Routing.Router.Register.{
  route_to, group_any, group_to, group_method, route_name, group_name, Match, matched, find,
  allowed_from, listed,
}
use wx.Routing.Router.Laws.{IsReady, Roomy, Sound}
use wx.Routing.Router.Ready.{
  not_found_with-IsReady, new_router-IsReady, group_use-IsReady, router_use-IsReady,
  make_group-IsReady, route_name-IsReady, group_name-IsReady, route_to-IsReady, group_any-IsReady,
  group_to-IsReady, group_method-IsReady, HasReady,
}

-- The calls that build a router. A group or a route is named by its index; `use_group` is for the
-- groups that `Group` made, `use_all` is `Router.Use`.
pub data Call (H : Type 0) : Type 0 where
  use_all not_found : List H → Call H
  use_group : ℕ → List H → Call H
  group : ℕ → Bytes → List H → Call H
  any : ℕ → Bytes → List H → Call H
  to : ℕ → Bytes → Bytes → List H → Call H
  by_method : Bytes → ℕ → Bytes → List H → Call H
  more_to : ℕ → Bytes → List H → Call H
  name_route name_group : ℕ → Bytes → Call H

module _ {H : Type 0} where
  abbrev first : Panics (Router H × ℕ) → Panics (Router H)
  first m = m >>= (λ p. done p.0)

  first-Ensures : (m : Panics (Router H × ℕ)) → Ensures HasReady m → Ensures IsReady (first m)
  first-Ensures (panic e) h = tt
  first-Ensures (done p) h = h

module _ {H : Type 0} (rx : Regexp) where
  unfoldable pub call : Call H → Router H → Panics (Router H)
  call (use_all hs) r = router_use r hs
  call (not_found hs) r = done (not_found_with r hs)
  call (use_group g hs) r = group_use r (suc g) hs
  call (group g prefix hs) r = first (make_group r g prefix hs)
  call (any g path hs) r = first (group_any rx r g path hs)
  call (to g methods path hs) r = first (group_to rx r g methods path hs)
  call (by_method m g path hs) r = first (group_method rx m r g path hs)
  call (more_to id methods hs) r = route_to rx r id methods hs
  call (name_route id name) r = route_name r id name
  call (name_group g name) r = group_name r g name

  unfoldable pub calls : List (Call H) → Router H → Panics (Router H)
  unfolding call
  calls [] r = done r
  calls (c ∷ cs) r = call c r >>= calls cs

  call-IsReady : (c : Call H) (r : Router H) → IsReady r → Ensures IsReady (call c r)
  unfolding call
  call-IsReady (use_all hs) r v = router_use-IsReady r hs v
  call-IsReady (not_found hs) r v = not_found_with-IsReady r hs v
  call-IsReady (use_group g hs) r v = group_use-IsReady r g hs v
  call-IsReady (group g prefix hs) r v = first-Ensures _ (make_group-IsReady r g prefix hs v)
  call-IsReady (any g path hs) r v = first-Ensures _ (group_any-IsReady rx r g path hs v)
  call-IsReady (to g ms path hs) r v = first-Ensures _ (group_to-IsReady rx r g ms path hs v)
  call-IsReady (by_method m g path hs) r v =
      first-Ensures _ (group_method-IsReady rx m r g path hs v)
  call-IsReady (more_to id ms hs) r v = route_to-IsReady rx r id ms hs v
  call-IsReady (name_route id name) r v = route_name-IsReady r id name v
  call-IsReady (name_group g name) r v = group_name-IsReady r g name v

  pub calls-IsReady : (cs : List (Call H)) (r : Router H) → IsReady r → Ensures IsReady (calls cs r)
  unfolding calls
  calls-IsReady [] r v = v
  calls-IsReady (c ∷ cs) r v =
      Ensures-bind IsReady IsReady (call c r) (calls cs) (call-IsReady c r v)
        (λ s w. calls-IsReady cs s w)

  -- The values keep their number, there are names for at most so many, and there is a route, or the
  -- handlers are those of the router's own group and then those for what is not found.
  abbrev pub Fits : Router H → ℕ → Match H → Type 0
  Fits r n a =
      (length a.pvalues ≡ n)
      × (length a.pnames ≤ n)
      × (((a.route ≡ none) × (a.handlers ≡ own_handlers r.groups ++ r.not_found))
          ⊎ ((id : ℕ) × (a.route ≡ some id)))

  matched-Fits :
      (r : Router H) (n : ℕ) (f : Found (RouteData H)) (v : List Bytes)
      → IsReady r
      → length f.pnames ≤ n
      → length v ≡ n
      → Fits r n (matched r (f, v))
  matched-Fits r n f v w le e = elim (Option-cases f.value) [
    | inl q ↦ rw (q, matched) (e, le, inl (refl, w.refreshed))
    | inr (d, q) ↦ rw (q, matched) (e, le, inr (d.route, refl))
  ]

  find-Returns :
      (r : Router H) (method path : Bytes) (pvalues : List Bytes)
      → IsReady r
      → r.max_params ≤ length pvalues
      → Returns (Fits r (length pvalues)) (find rx r method path pvalues)
  unfolding find
  find-Returns r method path pvalues v le = elim (Option-cases (lookup method r.stores)) [
    | inl e ↦ rw (e, find) (refl, omega arith, inl (refl, v.refreshed))
    | inr (s, e) ↦
        rw (e, find)
          (Returns-bind
            (λ (f : Found (RouteData H) × List Bytes).
              (length f.0.pnames ≤ r.max_params) × (length f.1 ≡ length pvalues))
            (Fits r (length pvalues)) (store_get rx s path pvalues) (λ f. done (matched r f))
            (store_get-Returns rx r.max_params s path pvalues
              (All-lookup (Sound r.max_params) method r.stores s v.roomy e).0 le)
            (λ f h. matched-Fits r (length pvalues) f.0 f.1 v (omega (arith, le, h.0)) h.1))
  ]

  allowed_from-Returns :
      (top : ℕ) (stores : List (Bytes × Store (RouteData H))) (path : Bytes) (pvalues : List Bytes)
      (bytes : Bytes)
      → Roomy top stores
      → top ≤ length pvalues
      → Returns (λ a. length a.1 ≡ length pvalues) (allowed_from rx stores path pvalues bytes)
  unfolding allowed_from
  allowed_from-Returns top [] path pvalues bytes h le = refl
  allowed_from-Returns top ((m, s) ∷ rest) path pvalues bytes (h, hs) le =
      Returns-bind
        (λ (f : Found (RouteData H) × List Bytes).
          (length f.0.pnames ≤ top) × (length f.1 ≡ length pvalues))
        (λ a. length a.1 ≡ length pvalues) (store_get rx s path pvalues)
        (λ f. allowed_from rx rest path f.1 (listed m f.0 bytes))
        (store_get-Returns rx top s path pvalues h.0 le)
        (λ f k.
          subst
            (λ n.
              Returns (λ a. length a.1 ≡ n) (allowed_from rx rest path f.1 (listed m f.0 bytes)))
            k.1
            (allowed_from-Returns top rest path f.1 (listed m f.0 bytes) hs
              (subst (λ n. top ≤ n) (sym k.1) le)))

  -- However a router has been built by calls that all returned, looking a request up never panics if
  -- there is a value for every parameter: it returns, the values keep their number, there are names
  -- for at most so many, and there is a route, or the handlers are those of the router's own group and
  -- then those for what is not found.
  pub calls-find :
      (cs : List (Call H)) (defaults : List H) (r : Router H) (method path : Bytes)
      (pvalues : List Bytes)
      → calls cs (new_router defaults) ≡ done r
      → r.max_params ≤ length pvalues
      → Returns (Fits r (length pvalues)) (find rx r method path pvalues)
  calls-find cs defaults r method path pvalues e le =
      find-Returns r method path pvalues
        (Ensures-done IsReady _ r
          (calls-IsReady cs (new_router defaults) (new_router-IsReady defaults)) e)
        le

  -- However a router has been built by calls that all returned, collecting the methods that a path
  -- allows never panics if there is a value for every parameter, and the values keep their number.
  pub calls-allowed :
      (cs : List (Call H)) (defaults : List H) (r : Router H) (path : Bytes) (pvalues : List Bytes)
      (bytes : Bytes)
      → calls cs (new_router defaults) ≡ done r
      → r.max_params ≤ length pvalues
      → Returns (λ a. length a.1 ≡ length pvalues) (allowed_from rx r.stores path pvalues bytes)
  calls-allowed cs defaults r path pvalues bytes e le =
      allowed_from-Returns r.max_params r.stores path pvalues bytes
        (Ensures-done IsReady _ r
          (calls-IsReady cs (new_router defaults) (new_router-IsReady defaults)) e).roomy
        le
