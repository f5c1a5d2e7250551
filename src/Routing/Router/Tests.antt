-- ===== src/Routing/Router/Tests.antt =====
-- The router of a small program: one group, three routes, and the theorems on it.
use wx.Common.{
  lookup, ◌<◌, ℕ, ◌≤◌, ◌≡◌, true, false, Option, List, [], ◌∷◌, Bytes, codes, Panics, panic, done,
  Returns, none, some, length, refl, arith,
}
use wx.Routing.Store.Node.{Regexp}
use wx.Routing.Template.{build_url_segments}
use wx.Routing.Store.Table.{Store, new_store, store_add, store_get}
use wx.Routing.Router.{RouteData, Router, new_router, router_use, make_group}
use wx.Routing.Router.Register.{find, group_method}
use wx.Routing.Store.Get.{max_int32}
use wx.Routing.Store.Least.{matches}
use wx.Routing.Router.Ranked.{IsFirst, calls-find-IsFirst}
use wx.Routing.Router.Registered.{Call, use_all, group, by_method, calls}

nothing-le : (s : Bytes) (n : ℕ) → ◌≡◌ {A = Option ℕ} none (some n) → n ≤ length s
nothing-le s n h = cc

-- An engine that finds nothing and accepts all patterns.
abbrev any_engine : Regexp
any_engine = record {
  compiles = λ p. true;
  find_end = λ p s. none;
  matches = λ p s. false;
  find_end-le = λ p. nothing-le;
}

-- Handlers are numbers.
abbrev program : List (Call ℕ)
program =
    use_all (7 ∷ [])
    ∷ group 0 (codes "/a") []
    ∷ by_method (codes "GET") 1 (codes "/<id>") (1 ∷ [])
    ∷ by_method (codes "POST") 0 (codes "/b/<name>") (2 ∷ [])
    ∷ []

abbrev built : Panics (Router ℕ)
built = calls any_engine program (new_router (9 ∷ []))

abbrev router_of : Panics (Router ℕ) → Router ℕ
router_of (panic e) = new_router []
router_of (done r) = r

abbrev router : Router ℕ
router = router_of built

built-router : built ≡ done router
unfolding calls new_router find router_use make_group group_method build_url_segments store_add
    store_get
built-router = refl

-- A path of the group: its handlers come first.
find_item :
    find any_engine router (codes "GET") (codes "/a/5") ([] ∷ [])
    ≡ done (record {
      handlers = 7 ∷ 1 ∷ [];
      pnames = codes "id" ∷ [];
      route = some 0;
      pvalues = codes "5" ∷ [];
    })
unfolding calls new_router find router_use make_group group_method build_url_segments store_add
    store_get
find_item = refl

-- No route of the method: the handlers for what is not found.
find_nothing :
    find any_engine router (codes "PUT") (codes "/a/5") ([] ∷ [])
    ≡ done (record { handlers = 7 ∷ 9 ∷ []; pnames = []; route = none; pvalues = [] ∷ [] })
unfolding calls new_router find router_use make_group group_method build_url_segments store_add
    store_get
find_nothing = refl

router_max : router.max_params ≤ 1
unfolding calls new_router router_use make_group group_method build_url_segments store_add
router_max = omega arith

-- Two routes that both match `/new`, in another order than that of the look-up.
abbrev rivals : List (Call ℕ)
rivals =
    by_method (codes "GET") 0 (codes "/<id>") (1 ∷ [])
    ∷ by_method (codes "GET") 0 (codes "/new") (2 ∷ [])
    ∷ []

abbrev rivals_router : Router ℕ
rivals_router = router_of (calls any_engine rivals (new_router (9 ∷ [])))

built-rivals : calls any_engine rivals (new_router (9 ∷ [])) ≡ done rivals_router
unfolding calls new_router group_method build_url_segments store_add
built-rivals = refl

rivals_max : rivals_router.max_params ≤ 1
unfolding calls new_router group_method build_url_segments store_add
rivals_max = omega arith

abbrev or_new : Option (Store (RouteData ℕ)) → Store (RouteData ℕ)
or_new none = new_store
or_new (some s) = s

abbrev get_store : Store (RouteData ℕ)
get_store = or_new (lookup (codes "GET") rivals_router.stores)

lookup-rivals : lookup (codes "GET") rivals_router.stores ≡ some get_store
unfolding calls new_router group_method build_url_segments store_add lookup
lookup-rivals = refl

rivals_small : get_store.count < max_int32
unfolding calls new_router group_method build_url_segments store_add lookup
rivals_small = omega arith

calls-find-IsFirst_example :
    Returns
      (IsFirst rivals_router (matches any_engine get_store.root (codes "/new")))
      (find any_engine rivals_router (codes "GET") (codes "/new") ([] ∷ []))
calls-find-IsFirst_example =
    calls-find-IsFirst any_engine rivals (9 ∷ []) rivals_router get_store (codes "GET")
      (codes "/new") ([] ∷ []) built-rivals lookup-rivals rivals_small rivals_max
