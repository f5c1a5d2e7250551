-- ===== src/Routing/Router/Laws.antt =====
-- What every sequence of registrations keeps of the router.
use wx.Common.{
  lookup, All-lookup, All-assign, Ensures-both, ℕ, ◌≤◌, ◌≡◌, Option, none, some, List, [], ◌∷◌,
  ◌++◌, Bytes, done, Ensures, Ensures-bind, Safe-Ensures, Option-cases, All, arith, refl, inl, inr,
}
use wx.Routing.Store.Node.{Regexp}
use wx.Routing.Store.Grow.{Bounded-mono}
use wx.Routing.Store.Below.{after, after-le}
use wx.Routing.Store.Table.{Store, new_store, store_add}
use wx.Routing.Store.Capacity.{HasCapacity, new_store-HasCapacity, store_add-HasCapacity}
use wx.Routing.Store.Added.{IsOrdered, new_store-IsOrdered, store_add-IsOrdered}
use wx.Routing.Router.{RouteData, Router, own_handlers}
use wx.Routing.Router.Register.{raise, added, store_for, router_add}

raise-after : (top : ℕ) (r : Option ℕ) → raise top r ≡ after top r
raise-after top none = refl
raise-after top (some n) = ground arith

module _ {H : Type 0} where
  -- A store with room for `top` parameters, in the order of registration.
  abbrev pub Sound : ℕ → Store (RouteData H) → Type 0
  Sound top s = HasCapacity top s × IsOrdered s

  abbrev pub Roomy : ℕ → List (Bytes × Store (RouteData H)) → Type 0
  Roomy top = All (λ m. Sound top m.1)

  -- Every store has room for its parameters in `max_params` values and is ordered, and the handlers for what is not
  -- found are those of the router's own group and then those for what is not found.
  pub record IsReady (r : Router H) : Type 0 where
    pub roomy : Roomy r.max_params r.stores
    pub refreshed : r.not_found_handlers ≡ own_handlers r.groups ++ r.not_found

  Roomy-mono : (a b : ℕ) (m : List (Bytes × Store (RouteData H))) → a ≤ b → Roomy a m → Roomy b m
  Roomy-mono a b [] le h = tt
  Roomy-mono a b (s ∷ m) le (h, hs) = ((Bounded-mono s.1.root le h.0, h.1), Roomy-mono a b m le hs)

  store_for-Sound :
      (r : Router H) (method : Bytes)
      → Roomy r.max_params r.stores
      → Sound r.max_params (store_for r method)
  store_for-Sound r method h = elim (Option-cases (lookup method r.stores)) [
    | inl e ↦
        rw (e, store_for)
          (
            Bounded-mono (new_store {D = RouteData H}).root (omega arith) new_store-HasCapacity,
            new_store-IsOrdered,
          )
    | inr (s, e) ↦ rw (e, store_for) (All-lookup (Sound r.max_params) method r.stores s h e)
  ]

  added-IsReady :
      (r : Router H) (method : Bytes) (a : Store (RouteData H) × Option ℕ)
      → Sound (after r.max_params a.1) a.0
      → IsReady r
      → IsReady (added r method a)
  unfolding added
  added-IsReady r method a h v =
      let top = raise-after r.max_params a.1 in
      record {
        roomy = rw top (
            All-assign (Sound (after r.max_params a.1)) method a.0 r.stores h
              (Roomy-mono r.max_params _ r.stores (after-le r.max_params a.1) v.roomy));
        refreshed = v.refreshed;
      }

module _ {H : Type 0} (rx : Regexp) where
  -- `Add` keeps a store sound.
  store_add-Sound :
      (top : ℕ) (s : Store (RouteData H)) (path : Bytes) (d : RouteData H)
      → Sound top s
      → Ensures (λ a. Sound (after top a.1) a.0) (store_add rx s path d)
  store_add-Sound top s path d h =
      Ensures-both (λ (a : Store (RouteData H) × Option ℕ). HasCapacity (after top a.1) a.0)
        (λ (a : Store (RouteData H) × Option ℕ). IsOrdered a.0) (store_add rx s path d)
        (Safe-Ensures (λ (a : Store (RouteData H) × Option ℕ). HasCapacity (after top a.1) a.0)
          (store_add rx s path d) (store_add-HasCapacity rx top s path d h.0))
        (store_add-IsOrdered rx s path d h.1)

  pub router_add-IsReady :
      (r : Router H) (method path : Bytes) (hs : List H) (id : ℕ)
      → IsReady r
      → Ensures IsReady (router_add rx r method path hs id)
  unfolding router_add
  router_add-IsReady r method path hs id v =
      Ensures-bind (λ (a : Store (RouteData H) × Option ℕ). Sound (after r.max_params a.1) a.0)
        IsReady _ (λ a. done (added r method a))
        (store_add-Sound r.max_params (store_for r method) path
          (record { handlers = hs; route = id }) (store_for-Sound r method v.roomy))
        (λ a h. added-IsReady r method a h v)
