-- ===== src/Routing/Request/Tests.antt =====
-- Requests to a small program, and the theorems on it.
use wx.Common.{
  lookup, ℕ, zero, suc, ◌≤◌, ◌≡◌, true, false, Option, none, some, List, [], ◌∷◌, ◌++◌, Bytes,
  codes, Panics, panic, done, Returns, length, get_elem?, All, refl, arith, same,
}
use wx.Routing.Store.Node.{Regexp}
use wx.Routing.Store.Get.{takes}
use wx.Routing.Store.Table.{store_add, store_get}
use wx.Routing.Store.Least.{matches}
use wx.Routing.Template.{build_url_segments}
use wx.Routing.Chain.{Handler, return, update}
use wx.Routing.Chain.Kept.{Respects}
use wx.Routing.Router.{Router, new_router}
use wx.Routing.Router.Register.{group_method, allowed_from}
use wx.Routing.Router.Registered.{Call, by_method, calls}
use wx.Routing.Router.Allowed.{allowed_of, Small, calls-allowed_of}
use wx.Routing.Request.{
  RequestCtx, HandlerError, Ctx, new_ctx, init, unknown, set_item, not_found_handler,
  method_not_allowed_handler, handle_request, handle_all,
}
use wx.Routing.Request.Answers.{
  HasRoom, IsClean, handle_all-IsClean, method_not_allowed_handler-Respects,
}
use wx.Routing.Request.Unmatched.{matches_of, IsExpected, remains, handle_unmatched}
use wx.Routing.Request.Client.{XffInfo, ip}
use wx.Routing.Request.Stale.{stale_allow, stale_ip}

no_match-le : (s : Bytes) (n : ℕ) → ◌≡◌ {A = Option ℕ} none (some n) → n ≤ length s
no_match-le s n h = cc

abbrev plain_engine : Regexp
plain_engine = record {
  compiles = λ p. true;
  find_end = λ p s. none;
  matches = λ p s. false;
  find_end-le = λ p. no_match-le;
}

abbrev texts : ℕ → Bytes
texts n = codes "Not Found"

-- Handlers 0 and 1 are the default ones; the others set a data item.
abbrev code : ℕ → Handler (Ctx ℕ ℕ) HandlerError
code zero = method_not_allowed_handler plain_engine
code (suc zero) = not_found_handler texts
code (suc (suc n)) = update (set_item (codes "user") n) (return none)

abbrev program : List (Call ℕ)
program = by_method (codes "GET") 0 (codes "/a") (5 ∷ []) ∷ []

abbrev router_of : Panics (Router ℕ) → Router ℕ
router_of (panic e) = new_router []
router_of (done r) = r

abbrev router : Router ℕ
router = router_of (calls plain_engine program (new_router (0 ∷ 1 ∷ [])))

built : calls plain_engine program (new_router (0 ∷ 1 ∷ [])) ≡ done router
unfolding calls new_router group_method build_url_segments store_add
built = refl

small : Small router.stores
unfolding calls new_router group_method build_url_segments store_add
small = (omega arith, tt)

defaulted : router.not_found_handlers ≡ 0 ∷ 1 ∷ []
unfolding calls new_router group_method build_url_segments store_add
defaulted = refl

abbrev incoming : Bytes → Bytes → RequestCtx
incoming method path = record {
  method = method;
  path = path;
  headers = [];
  remote = [];
  is_tls = false;
  status = 200;
  content_type = [];
  allow = none;
  body = [];
}

abbrev post_a : RequestCtx
post_a = incoming (codes "POST") (codes "/a")

abbrev get_b : RequestCtx
get_b = incoming (codes "GET") (codes "/b")

abbrev fresh : Ctx ℕ ℕ
fresh = new_ctx router post_a

-- `POST /a` is left_by by 405, and then `GET /b` on the same context too.
two_requests :
    handle_all plain_engine code router ((0, post_a) ∷ (0, get_b) ∷ []) (fresh ∷ [])
    ≡ done (
      record post_a { status = 405; allow = some (codes "GET,OPTIONS") }
          ∷ record get_b { status = 405; allow = some (codes "GET,OPTIONSOPTIONS") }
          ∷ [],
      record fresh {
        request = record get_b { status = 405; allow = some (codes "GET,OPTIONSOPTIONS") };
        bytes = codes "GET,OPTIONSOPTIONS";
      }
          ∷ [],
    )
unfolding handle_all method_not_allowed_handler not_found_handler calls new_router group_method
    build_url_segments store_add store_get
two_requests = refl

-- On a new context `GET /b` is left_by by 404.
fresh_request :
    handle_all plain_engine code router ((0, get_b) ∷ []) []
    ≡ done (
      record get_b {
        status = 404;
        content_type = codes "text/plain; charset=utf-8";
        body = codes "Not Found";
      }
          ∷ [],
      record fresh {
        request = record get_b {
          status = 404;
          content_type = codes "text/plain; charset=utf-8";
          body = codes "Not Found";
        };
      }
          ∷ [],
    )
unfolding handle_all method_not_allowed_handler not_found_handler calls new_router group_method
    build_url_segments store_add store_get
fresh_request = refl

code-Respects : (h : ℕ) → Respects (HasRoom router) (code h)
unfolding not_found_handler set_item
code-Respects zero =
    method_not_allowed_handler-Respects plain_engine code program (0 ∷ 1 ∷ []) router built
code-Respects (suc zero) = tt
code-Respects (suc (suc n)) = ((λ s h. h), tt)

handle_all-IsClean_example :
    Returns
      (λ a. (length a.0 ≡ 2) × All (IsClean router) a.1)
      (handle_all plain_engine code router ((0, post_a) ∷ (0, get_b) ∷ []) [])
handle_all-IsClean_example =
    handle_all-IsClean plain_engine code program (0 ∷ 1 ∷ []) router ((0, post_a) ∷ (0, get_b) ∷ [])
      [] built code-Respects tt

no_values : router.max_params ≤ 0
unfolding calls new_router group_method build_url_segments store_add
no_values = omega arith

calls-allowed_of_example :
    Returns
      (λ a. (length a.1 ≡ 0) × (a.0 ≡ [] ++ allowed_of plain_engine router.stores (codes "/a")))
      (allowed_from plain_engine router.stores (codes "/a") [] [])
calls-allowed_of_example =
    calls-allowed_of plain_engine program (0 ∷ 1 ∷ []) router (codes "/a") [] [] built small
      no_values

fresh-HasRoom : HasRoom router fresh
unfolding calls new_router group_method build_url_segments store_add
fresh-HasRoom = (refl, omega arith)

unmatched_post : matches_of plain_engine router (codes "POST") (codes "/a") ≡ []
unfolding calls new_router group_method build_url_segments store_add lookup
unmatched_post = refl

unmatched_get : matches_of plain_engine router (codes "GET") (codes "/b") ≡ []
unfolding calls new_router group_method build_url_segments store_add lookup matches takes
unmatched_get = refl

allowed_a : allowed_of plain_engine router.stores (codes "/a") ≡ codes "GET,"
unfolding calls new_router group_method build_url_segments store_add matches takes
allowed_a = refl

allowed_b : allowed_of plain_engine router.stores (codes "/b") ≡ []
unfolding calls new_router group_method build_url_segments store_add matches takes
allowed_b = refl

get-same : same (codes "GET") (codes "OPTIONS") ≡ false
unfolding same
get-same = refl

handle_unmatched_example :
    Returns
      (IsExpected plain_engine texts router post_a
        ([] ++ allowed_of plain_engine router.stores (codes "/a")))
      (handle_request plain_engine code router post_a fresh)
handle_unmatched_example =
    handle_unmatched plain_engine texts code program (0 ∷ 1 ∷ []) router 0 1 built small refl refl
      defaulted post_a fresh unmatched_post fresh-HasRoom

stale_allow_example :
    Returns
      (λ a.
        get_elem? a.0 1
        ≡ some (record get_b { allow = some (remains (remains (codes "GET,"))); status = 405 }))
      (handle_all plain_engine code router ((0, post_a) ∷ (0, get_b) ∷ []) (fresh ∷ []))
stale_allow_example =
    stale_allow plain_engine texts code program (0 ∷ 1 ∷ []) router 0 1 built small refl refl
      defaulted post_a get_b fresh b'G' (codes "ET,") fresh-HasRoom refl unmatched_post allowed_a
      unmatched_get allowed_b get-same

-- A context that an earlier request has left with an address.
abbrev used : Ctx ℕ ℕ
used = record fresh { rip = codes "10.0.0.1" }

abbrev quiet : ℕ → Handler (Ctx ℕ ℕ) HandlerError
quiet zero = not_found_handler texts
quiet (suc n) = update (set_item (codes "user") n) (return none)

quiet-Respects : (h : ℕ) → Respects (λ d. HasRoom router d × (d.rip ≡ codes "10.0.0.1")) (quiet h)
unfolding not_found_handler set_item
quiet-Respects zero = tt
quiet-Respects (suc n) = ((λ s h. h), tt)

-- An `XFFInfo` that finds another address.
abbrev other_info : XffInfo ℕ ℕ
other_info = record {
  host = λ c. done c;
  port = λ c. done c;
  ip = λ c. done (record c { rip = codes "10.0.0.2" });
  secure = λ c. done c;
}

stale_ip_example :
    Returns
      (λ d.
        ip other_info (codes "::1") (record (init get_b d) { xff_info = some unknown })
        ≡ done (record (init get_b d) { xff_info = some unknown }, codes "10.0.0.1"))
      (handle_request plain_engine quiet router post_a used)
stale_ip_example =
    stale_ip plain_engine quiet program (0 ∷ 1 ∷ []) router post_a get_b used b'1' (codes "0.0.0.1")
      (codes "::1") other_info unknown built quiet-Respects fresh-HasRoom refl
