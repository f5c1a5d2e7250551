-- ===== src/Routing/Router/Ready.antt =====
-- What every sequence of registrations keeps of the router: the registrations one by one.
use wx.Common.{
  ℕ, zero, suc, ◌≡◌, none, some, List, [], ◌∷◌, ◌++◌, Bytes, Panics, panic, done, ◌>>=◌, Ensures,
  Ensures-bind, Ensures-if, bad_pattern, get_elem?, set, refl, ap, sym, Option-cases, inl, inr, ◌≡◌,
  ◌∙◌,
}
use wx.Routing.Store.Node.{Regexp}
use wx.Routing.Template.{build_url_segments}
use wx.Routing.Router.{
  Group, Router, own_handlers, not_found_with, new_router, group_use, router_use, make_group,
  new_route, all_compile, route_path,
}
use wx.Routing.Router.Register.{
  route_add, add_all, route_to, group_any, group_to, group_method, route_name, group_name,
  split_comma, all_methods,
}
use wx.Routing.Router.Laws.{IsReady, Roomy, router_add-IsReady}

module _ {H : Type 0} where
  abbrev pub HasReady : Router H × ℕ → Type 0
  HasReady p = IsReady p.0

  abbrev IsRoomy : Router H → Type 0
  IsRoomy r = Roomy r.max_params r.stores

  own_handlers-append :
      (gs : List (Group H)) (i : ℕ) (x y : Group H)
      → get_elem? gs i ≡ some x
      → own_handlers (gs ++ y ∷ []) ≡ own_handlers gs
  own_handlers-append [] i x y e = cc
  own_handlers-append (g ∷ gs) i x y e = refl

  own_handlers-set :
      (gs : List (Group H)) (i : ℕ) (x y : Group H)
      → get_elem? gs i ≡ some x
      → y.handlers ≡ x.handlers
      → own_handlers (set gs i y) ≡ own_handlers gs
  own_handlers-set [] i x y e h = cc
  own_handlers-set (g ∷ gs) zero x y e h =
      h ∙ ap (λ o. own_handlers (elim o [ none ↦ [] | some z ↦ z ∷ [] ])) (sym e)
  own_handlers-set (g ∷ gs) (suc i) x y e h = refl

  own_handlers-set-suc :
      (gs : List (Group H)) (i : ℕ) (y : Group H)
      → own_handlers (set gs (suc i) y) ≡ own_handlers gs
  own_handlers-set-suc [] i y = refl
  own_handlers-set-suc (g ∷ gs) i y = refl

  pub not_found_with-IsReady :
      (r : Router H) (hs : List H) → IsReady r → IsReady (not_found_with r hs)
  unfolding not_found_with
  not_found_with-IsReady r hs v = record { roomy = v.roomy; refreshed = refl }

  pub new_router-IsReady : (hs : List H) → IsReady (new_router hs)
  unfolding new_router
  new_router-IsReady hs = record { roomy = tt; refreshed = refl }

  pub group_use-IsReady :
      (r : Router H) (g : ℕ) (hs : List H) → IsReady r → Ensures IsReady (group_use r (suc g) hs)
  unfolding group_use
  group_use-IsReady r g hs v = elim (Option-cases (get_elem? r.groups (suc g))) [
    | inl e ↦ rw (e, group_use) tt
    | inr (x, e) ↦
        rw (e, group_use)
          (record {
            roomy = v.roomy;
            refreshed =
                v.refreshed ∙ ap (λ l. l ++ r.not_found) (sym (own_handlers-set-suc r.groups g _));
          })
  ]

  pub router_use-IsReady :
      (r : Router H) (hs : List H) → IsReady r → Ensures IsReady (router_use r hs)
  unfolding router_use group_use
  router_use-IsReady r hs v = elim (Option-cases (get_elem? r.groups 0)) [
    | inl e ↦ rw (e, router_use, group_use) tt
    | inr (x, e) ↦ rw (e, router_use, group_use) (record { roomy = v.roomy; refreshed = refl })
  ]

  pub make_group-IsReady :
      (r : Router H) (g : ℕ) (prefix : Bytes) (hs : List H)
      → IsReady r
      → Ensures HasReady (make_group r g prefix hs)
  unfolding make_group
  make_group-IsReady r g prefix hs v = elim (Option-cases (get_elem? r.groups g)) [
    | inl e ↦ rw (e, make_group) tt
    | inr (x, e) ↦
        rw (e, make_group)
          (record {
            roomy = v.roomy;
            refreshed =
                v.refreshed
                ∙ ap (λ l. l ++ r.not_found) (sym (own_handlers-append r.groups g x _ e));
          })
  ]

  pub route_name-IsReady :
      (r : Router H) (id : ℕ) (name : Bytes) → IsReady r → Ensures IsReady (route_name r id name)
  unfolding route_name
  route_name-IsReady r id name v = elim (Option-cases (get_elem? r.table id)) [
    | inl e ↦ rw (e, route_name) tt
    | inr (x, e) ↦
        rw (e, route_name)
          (elim (Option-cases (get_elem? r.groups x.group)) [
            | inl k ↦ rw (k, route_name) tt
            | inr (y, k) ↦ rw (k, route_name) (record { roomy = v.roomy; refreshed = v.refreshed })
          ])
  ]

  pub group_name-IsReady :
      (r : Router H) (g : ℕ) (name : Bytes) → IsReady r → Ensures IsReady (group_name r g name)
  unfolding group_name
  group_name-IsReady r g name v = elim (Option-cases (get_elem? r.groups g)) [
    | inl e ↦ rw (e, group_name) tt
    | inr (x, e) ↦
        rw (e, group_name)
          (record {
            roomy = v.roomy;
            refreshed =
                v.refreshed
                ∙ ap (λ l. l ++ r.not_found) (sym (own_handlers-set r.groups g x _ e refl));
          })
  ]

module _ {H : Type 0} (rx : Regexp) where
  new_route-IsReady :
      (r : Router H) (g : ℕ) (path : Bytes) → IsReady r → Ensures HasReady (new_route rx r g path)
  unfolding new_route
  new_route-IsReady r g path v = elim (Option-cases (get_elem? r.groups g)) [
    | inl e ↦ rw (e, new_route) tt
    | inr (x, e) ↦
        rw (e, new_route)
          (Ensures-if HasReady
            (all_compile rx (build_url_segments (route_path (x.prefix ++ path))).patterns) _
            (panic bad_pattern) (record { roomy = v.roomy; refreshed = v.refreshed }) tt)
  ]

  route_add-IsReady :
      (r : Router H) (id : ℕ) (method : Bytes) (hs : List H)
      → IsReady r
      → Ensures IsReady (route_add rx r id method hs)
  unfolding route_add
  route_add-IsReady r id method hs v = elim (Option-cases (get_elem? r.table id)) [
    | inl e ↦ rw (e, route_add) tt
    | inr (x, e) ↦
        rw (e, route_add)
          (elim (Option-cases (get_elem? r.groups x.group)) [
            | inl k ↦ rw (k, route_add) tt
            | inr (y, k) ↦
                rw (k, route_add)
                  (router_add-IsReady rx _ method x.path _ id
                    (record { roomy = v.roomy; refreshed = v.refreshed }))
          ])
  ]

  add_all-IsReady :
      (r : Router H) (id : ℕ) (ms : List Bytes) (hs : List H)
      → IsReady r
      → Ensures IsReady (add_all rx r id ms hs)
  unfolding add_all
  add_all-IsReady r id [] hs v = v
  add_all-IsReady r id (m ∷ ms) hs v =
      Ensures-bind IsReady IsReady _ _ (route_add-IsReady r id m hs v)
        (λ s w. add_all-IsReady s id ms hs w)

  pub route_to-IsReady :
      (r : Router H) (id : ℕ) (methods : Bytes) (hs : List H)
      → IsReady r
      → Ensures IsReady (route_to rx r id methods hs)
  unfolding route_to
  route_to-IsReady r id methods hs v = add_all-IsReady r id (split_comma [] methods) hs v

  -- A new route, and then what is registered for it.
  with_route-IsReady :
      (r : Router H) (g : ℕ) (path : Bytes) (f : Router H → ℕ → Panics (Router H))
      → IsReady r
      → ((s : Router H) (id : ℕ) → IsReady s → Ensures IsReady (f s id))
      → Ensures HasReady (new_route rx r g path >>= (λ n. f n.0 n.1 >>= (λ s. done (s, n.1))))
  with_route-IsReady r g path f v k =
      Ensures-bind HasReady HasReady _ _ (new_route-IsReady r g path v)
        (λ n h. Ensures-bind IsReady HasReady _ _ (k n.0 n.1 h) (λ s w. w))

  pub group_any-IsReady :
      (r : Router H) (g : ℕ) (path : Bytes) (hs : List H)
      → IsReady r
      → Ensures HasReady (group_any rx r g path hs)
  unfolding group_any
  group_any-IsReady r g path hs v =
      with_route-IsReady r g path (λ s id. add_all rx s id all_methods hs) v
        (λ s id w. add_all-IsReady s id all_methods hs w)

  pub group_to-IsReady :
      (r : Router H) (g : ℕ) (methods path : Bytes) (hs : List H)
      → IsReady r
      → Ensures HasReady (group_to rx r g methods path hs)
  unfolding group_to
  group_to-IsReady r g methods path hs v =
      with_route-IsReady r g path (λ s id. route_to rx s id methods hs) v
        (λ s id w. route_to-IsReady s id methods hs w)

  pub group_method-IsReady :
      (method : Bytes) (r : Router H) (g : ℕ) (path : Bytes) (hs : List H)
      → IsReady r
      → Ensures HasReady (group_method rx method r g path hs)
  unfolding group_method
  group_method-IsReady method r g path hs v =
      with_route-IsReady r g path (λ s id. route_add rx s id method hs) v
        (λ s id w. route_add-IsReady s id method hs w)
