-- ===== src/Routing/Router/Register.antt =====
-- `Route.add`, `Route.To`, `RouteGroup.Any`, `RouteGroup.To` and the other registrations, and
-- `Router.find`: a route is looked up among those of the method.
use wx.Common.{
  lookup, assign, ℕ, ◌+◌, Option, none, some, List, [], ◌∷◌, ◌++◌, Bytes, codes, Panics, done,
  ◌>>=◌, checked, ltb, ◌==◌, if◌then◌else◌, get_elem?, set,
}
use wx.Routing.Store.Node.{Regexp}
use wx.Routing.Store.Get.{Found}
use wx.Routing.Store.Table.{Store, new_store, store_add, store_get}
use wx.Routing.Router.{RouteData, Router, combine_names, new_route}

-- `Methods`
abbrev pub all_methods : List Bytes
all_methods =
    codes "CONNECT"
    ∷ codes "DELETE"
    ∷ codes "GET"
    ∷ codes "HEAD"
    ∷ codes "OPTIONS"
    ∷ codes "PATCH"
    ∷ codes "POST"
    ∷ codes "PUT"
    ∷ codes "TRACE"
    ∷ []

-- `strings.Split(s, ",")`, with the bytes of the current part.
unfoldable pub split_comma : Bytes → Bytes → List Bytes
split_comma part [] = part ∷ []
split_comma part (c ∷ s) =
    let cut = part ∷ split_comma [] s in
    let longer = split_comma (part ++ c ∷ []) s in if c == b',' then cut else longer

-- `if n := store.Add(…); n > r.maxParams { r.maxParams = n }`; -1 is `none`.
abbrev pub raise : ℕ → Option ℕ → ℕ
raise top none = top
raise top (some n) = if ltb top n then n else top

-- The results of `find`, and the slice of values as it is left.
pub record Match (H : Type 0) : Type 0 where
  pub handlers : List H
  pub pnames : List Bytes
  pub route : Option ℕ
  pub pvalues : List Bytes

module _ {H : Type 0} where
  -- The store of a method, or a new one.
  abbrev pub store_for : Router H → Bytes → Store (RouteData H)
  store_for r method = elim (lookup method r.stores) [ none ↦ new_store | some s ↦ s ]

  -- The router with the store that `Add` has changed.
  unfoldable pub added : Router H → Bytes → Store (RouteData H) × Option ℕ → Router H
  unfolding assign
  added r method a = record r {
    stores = assign method a.0 r.stores;
    max_params = raise r.max_params a.1;
  }

  -- What `find` makes of the result of the store.
  abbrev pub matched : Router H → Found (RouteData H) × List Bytes → Match H
  matched r (f, v) = elim f.value [
    | none ↦ record {
      handlers = r.not_found_handlers;
      pnames = f.pnames;
      route = none;
      pvalues = v;
    }
    | some d ↦ record {
      handlers = d.handlers;
      pnames = f.pnames;
      route = some d.route;
      pvalues = v;
    }
  ]

  -- `Route.Name`
  unfoldable pub route_name : Router H → ℕ → Bytes → Panics (Router H)
  unfolding combine_names assign
  route_name r id name = do
    x ← checked (get_elem? r.table id)
    g ← checked (get_elem? r.groups x.group)
    let name' = combine_names (g.name ∷ name ∷ [])
    done (record r {
      table = set r.table id (record x { name = name' });
      routes = assign name' id r.routes;
    })

  -- `RouteGroup.Name`
  unfoldable pub group_name : Router H → ℕ → Bytes → Panics (Router H)
  unfolding combine_names
  group_name r g name = do
    x ← checked (get_elem? r.groups g)
    done (record r {
      groups = set r.groups g (record x { name = combine_names (x.name ∷ name ∷ []) });
    })

module _ {H : Type 0} where
  -- A method whose store has data for the path is appended to the bytes of the context.
  abbrev pub listed : Bytes → Found (RouteData H) → Bytes → Bytes
  listed m f bytes = elim f.value [ none ↦ bytes | some d ↦ bytes ++ (m ++ b',' ∷ []) ]

module _ {H : Type 0} (rx : Regexp) where
  -- `Router.add`
  unfoldable pub router_add : Router H → Bytes → Bytes → List H → ℕ → Panics (Router H)
  unfolding lookup added
  router_add r method path hs id = do
    a ← store_add rx (store_for r method) path (record { handlers = hs; route = id })
    done (added r method a)

  -- `Route.add`
  unfoldable pub route_add : Router H → ℕ → Bytes → List H → Panics (Router H)
  unfolding router_add
  route_add r id method hs = do
    x ← checked (get_elem? r.table id)
    g ← checked (get_elem? r.groups x.group)
    let hh = g.handlers ++ hs
    let y = record x { methods = x.methods ++ method ∷ []; handlers = x.handlers ++ hh ∷ [] }
    router_add (record r { route_count = r.route_count + 1; table = set r.table id y }) method
        x.path hh id

  -- The loop of `Any` and `To` over the methods.
  unfoldable pub add_all : Router H → ℕ → List Bytes → List H → Panics (Router H)
  unfolding route_add
  add_all r id [] hs = done r
  add_all r id (m ∷ ms) hs = do s ← route_add r id m hs; add_all s id ms hs

  -- `Route.To`
  unfoldable pub route_to : Router H → ℕ → Bytes → List H → Panics (Router H)
  unfolding split_comma add_all
  route_to r id methods hs = add_all r id (split_comma [] methods) hs

  -- `RouteGroup.Any`
  unfoldable pub group_any : Router H → ℕ → Bytes → List H → Panics (Router H × ℕ)
  unfolding new_route add_all
  group_any r g path hs = do
    n ← new_route rx r g path
    s ← add_all n.0 n.1 all_methods hs
    done (s, n.1)

  -- `RouteGroup.To`
  unfoldable pub group_to : Router H → ℕ → Bytes → Bytes → List H → Panics (Router H × ℕ)
  unfolding new_route route_to
  group_to r g methods path hs = do
    n ← new_route rx r g path
    s ← route_to n.0 n.1 methods hs
    done (s, n.1)

  -- `RouteGroup.Get`, `Post` and the others, for their method.
  unfoldable pub group_method : Bytes → Router H → ℕ → Bytes → List H → Panics (Router H × ℕ)
  unfolding new_route route_add
  group_method method r g path hs = do
    n ← new_route rx r g path
    s ← route_add n.0 n.1 method hs
    done (s, n.1)

  -- `Router.find`
  unfoldable pub find : Router H → Bytes → Bytes → List Bytes → Panics (Match H)
  unfolding lookup
  find r method path pvalues = elim (lookup method r.stores) [
    | none ↦
        done
          (record { handlers = r.not_found_handlers; pnames = []; route = none; pvalues = pvalues })
    | some s ↦ store_get rx s path pvalues >>= (λ f. done (matched r f))
  ]

  -- The loop of `findAllowedMethods`, which appends to the bytes of the context.
  unfoldable pub allowed_from :
      List (Bytes × Store (RouteData H)) → Bytes → List Bytes → Bytes → Panics (Bytes × List Bytes)
  allowed_from [] path pvalues bytes = done (bytes, pvalues)
  allowed_from ((m, s) ∷ rest) path pvalues bytes = do
    f ← store_get rx s path pvalues
    allowed_from rest path f.1 (listed m f.0 bytes)
