-- ===== src/Routing/Router.antt =====
-- fasthttp-routing/router.go, group.go and the registration in route.go. Groups and routes are
-- objects that the router, its groups and its routes share: they stand in two lists of the state, and
-- a pointer is an index. Group 0 is the router's own. Maps are association lists, the stores in the
-- order in which their methods were first registered. `H` is the type of the handlers.
pub mod Register
pub mod Laws
pub mod Ready
pub mod Registered
pub mod Ranked
pub mod Allowed
mod Tests
use wx.Common.{
  ℕ, zero, suc, ◌+◌, ◌-◌, Bool, true, false, not, ◌||◌, ◌&&◌, Option, none, some, List, [], ◌∷◌,
  ◌++◌, map, Bytes, codes, Panics, panic, bad_pattern, done, ◌>>=◌, checked, lookup, assign, ltb,
  ◌==◌, same, if◌then◌else◌, length, get_elem?, set, take, drop,
}
use wx.Routing.Store.Node.{Regexp}
use wx.Routing.Store.Add.{compiled}
use wx.Routing.Store.Get.{Found}
use wx.Routing.Store.Table.{Store, new_store, store_add, store_get}
use wx.Routing.Template.{Segments, build_url_template, build_url_segments}

-- `combineNames`, whose loop keeps the merged name.
unfoldable pub merge_name : Bytes → Bytes → Bytes
merge_name merged [] = merged
merge_name [] (b ∷ name) = b ∷ name
merge_name (a ∷ merged) (b ∷ name) = (a ∷ merged) ++ b'.' ∷ b ∷ name

unfoldable pub combine_names_from : Bytes → List Bytes → Bytes
unfolding merge_name
combine_names_from merged [] = merged
combine_names_from merged (name ∷ names) = combine_names_from (merge_name merged name) names

unfoldable pub combine_names : List Bytes → Bytes
unfolding combine_names_from
combine_names names = combine_names_from [] names

-- The path of a route: an asterisk at the end matches any number of characters.
unfoldable pub route_path : Bytes → Bytes
route_path [] = []
route_path (c ∷ []) = if c == b'*' then codes "<*:.*>" else c ∷ []
route_path (c ∷ d ∷ s) = c ∷ route_path (d ∷ s)

-- `regexp.MustCompile` for each pattern of a path.
unfoldable pub all_compile : Regexp → List (Option Bytes) → Bool
all_compile rx [] = true
all_compile rx (p ∷ ps) = compiled rx p && all_compile rx ps

module _ (H : Type 0) where
  pub record Group : Type 0 where
    pub prefix : Bytes
    pub handlers : List H
    pub name : Bytes

  pub record Route : Type 0 where
    pub group : ℕ
    pub name : Bytes
    pub path : Bytes
    pub template : Bytes
    pub methods : List Bytes
    pub handlers : List (List H)
    pub segments : Segments

  pub record RouteData : Type 0 where
    pub handlers : List H
    pub route : ℕ

module _ (H : Type 0) where
  pub record Router : Type 0 where
    pub groups : List (Group H)
    pub table : List (Route H)
    pub routes : List (Bytes × ℕ)
    pub stores : List (Bytes × Store (RouteData H))
    pub max_params : ℕ
    pub route_count : ℕ
    pub not_found : List H
    pub not_found_handlers : List H

module _ {H : Type 0} where
  -- The handlers of the router's own group.
  abbrev pub own_handlers : List (Group H) → List H
  own_handlers [] = []
  own_handlers (g ∷ gs) = g.handlers

  -- `Router.NotFound`
  unfoldable pub not_found_with : Router H → List H → Router H
  not_found_with r hs = record r {
    not_found = hs;
    not_found_handlers = own_handlers r.groups ++ hs;
  }

  -- `New`, given the two default handlers.
  unfoldable pub new_router : List H → Router H
  unfolding not_found_with
  new_router defaults =
      not_found_with
        (record {
          groups = record { prefix = []; handlers = []; name = [] } ∷ [];
          table = [];
          routes = [];
          stores = [];
          max_params = 0;
          route_count = 0;
          not_found = [];
          not_found_handlers = [];
        })
        defaults

  -- `RouteGroup.Use`
  unfoldable pub group_use : Router H → ℕ → List H → Panics (Router H)
  group_use r g hs = do
    x ← checked (get_elem? r.groups g)
    done (record r { groups = set r.groups g (record x { handlers = x.handlers ++ hs }) })

  -- `Router.Use`
  unfoldable pub router_use : Router H → List H → Panics (Router H)
  unfolding group_use
  router_use r hs = do
    s ← group_use r 0 hs
    done (record s { not_found_handlers = own_handlers s.groups ++ s.not_found })

  -- `RouteGroup.Group`: a new group, which takes the handlers of the old one if none are given. The
  -- result holds its index.
  unfoldable pub make_group : Router H → ℕ → Bytes → List H → Panics (Router H × ℕ)
  unfolding combine_names
  make_group r g prefix hs = do
    x ← checked (get_elem? r.groups g)
    let taken : List H = elim hs [ [] ↦ x.handlers | h ∷ rest ↦ h ∷ rest ]
    let name = combine_names ([] ∷ combine_names (x.name ∷ [] ∷ []) ∷ [])
    let y : Group H = record { prefix = x.prefix ++ prefix; handlers = taken; name = name }
    done (record r { groups = r.groups ++ y ∷ [] }, length r.groups)

  -- `newRoute`
  unfoldable pub new_route : Regexp → Router H → ℕ → Bytes → Panics (Router H × ℕ)
  unfolding assign route_path all_compile
  new_route rx r g path = do
    x ← checked (get_elem? r.groups g)
    let name = x.prefix ++ path
    let path' = route_path name
    let segments = build_url_segments path'
    let route : Route H = record {
      group = g;
      name = name;
      path = path';
      template = build_url_template path';
      methods = [];
      handlers = [];
      segments = segments;
    }
    let id = length r.table
    let made =
        done (record r { table = r.table ++ route ∷ []; routes = assign name id r.routes }, id)
    if all_compile rx segments.patterns then made else panic bad_pattern
