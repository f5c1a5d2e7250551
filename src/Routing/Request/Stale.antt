-- ===== src/Routing/Request/Stale.antt =====
-- What the context of an earlier request, which the pool gives again, does to a later one: `bytes`, `RIP`
-- and `RHost` are not reset.
use wx.Common.{
  ℕ, ◌≡◌, false, none, some, List, [], ◌∷◌, ◌++◌, Bytes, codes, done, same, get_elem?, Returns,
  Returns-bind, Returns-mono, refl, ap, arith, ◌∙◌, append-nil,
}
use wx.Routing.Store.Node.{Regexp}
use wx.Routing.Chain.{Handler, Outcome}
use wx.Routing.Router.{Router, new_router}
use wx.Routing.Router.Registered.{Call, calls}
use wx.Routing.Router.Allowed.{allowed_of, Small}
use wx.Routing.Request.{
  RequestCtx, HandlerError, http_error, Ctx, init, put_back, not_found_handler,
  method_not_allowed_handler, handle_request, handle_all,
}
use wx.Routing.Request.Answers.{HasRoom, handle_request-Returns}
use wx.Routing.Request.Unmatched.{matches_of, expected, remains, IsExpected, handle_unmatched}
use wx.Routing.Chain.Kept.{Respects, Holds}
use wx.Routing.Request.{Trust, other_error}
use wx.Routing.Request.Client.{XffInfo, ip, ip-known}
use wx.Routing.Chain.{stuck, crashed, ended}

module _ {H V : Type 0} (rx : Regexp) (status_text : ℕ → Bytes)
    (code : H → Handler (Ctx H V) HandlerError) (cs : List (Call H)) (defaults : List H)
    (r : Router H) (i j : H) (built : calls rx cs (new_router defaults) ≡ done r)
    (small : Small r.stores) (first : code i ≡ method_not_allowed_handler rx)
    (last : code j ≡ not_found_handler status_text)
    (defaulted : r.not_found_handlers ≡ i ∷ j ∷ []) where
  stale_expected :
      (q : RequestCtx) (bs : Bytes) (x : ℕ) (b : Bytes)
      → bs ≡ remains (x ∷ b)
      → same q.method (codes "OPTIONS") ≡ false
      → expected status_text (bs ++ []) q
        ≡ record q { allow = some (remains (remains (x ∷ b))); status = 405 }
  stale_expected q bs x b e f = rw (append-nil, e, f, expected)

  -- Two requests on the same context, under the same conditions, which begins with no bytes. No route
  -- of its method matches the first, but one of another method does; no route of any method matches the
  -- second, whose method is not OPTIONS. The second is answered with 405 and the methods of the first,
  -- instead of 404.
  pub stale_allow :
      (q p : RequestCtx) (c : Ctx H V) (x : ℕ) (b : Bytes)
      → HasRoom r c
      → c.bytes ≡ []
      → matches_of rx r q.method q.path ≡ []
      → allowed_of rx r.stores q.path ≡ x ∷ b
      → matches_of rx r p.method p.path ≡ []
      → allowed_of rx r.stores p.path ≡ []
      → same p.method (codes "OPTIONS") ≡ false
      → Returns
          (λ a.
            get_elem? a.0 1
            ≡ some (record p { allow = some (remains (remains (x ∷ b))); status = 405 }))
          (handle_all rx code r ((0, q) ∷ (0, p) ∷ []) (c ∷ []))
  unfolding handle_all
  stale_allow q p c x b room empty nq some_first np none_second o =
      let answer : RequestCtx = record p {
        allow = some (remains (remains (x ∷ b)));
        status = 405;
      } in
      let first_bytes : c.bytes ++ allowed_of rx r.stores q.path ≡ x ∷ b = rw (empty, some_first) in
      Returns-bind (IsExpected rx status_text r q (c.bytes ++ allowed_of rx r.stores q.path))
        (λ (a : List RequestCtx × List (Ctx H V)). get_elem? a.0 1 ≡ some answer)
        (handle_request rx code r q c) _
        (handle_unmatched rx status_text code cs defaults r i j built small first last defaulted q c
          nq room)
        (λ (d : Ctx H V) (kr, kb, kh).
          Returns-bind (λ (a : List RequestCtx × List (Ctx H V)). get_elem? a.0 0 ≡ some answer)
            (λ (a : List RequestCtx × List (Ctx H V)). get_elem? a.0 1 ≡ some answer)
            (handle_all rx code r ((0, p) ∷ []) (d ∷ [])) (λ a. done (d.request ∷ a.0, a.1))
            (Returns-bind (IsExpected rx status_text r p (d.bytes ++ allowed_of rx r.stores p.path))
              (λ (a : List RequestCtx × List (Ctx H V)). get_elem? a.0 0 ≡ some answer)
              (handle_request rx code r p d) _
              (handle_unmatched rx status_text code cs defaults r i j built small first last
                defaulted p d np kh)
              (λ (d2 : Ctx H V) (lr, lb, lh). ap some (
                lr
                ∙ ap (λ z. expected status_text (d.bytes ++ z) p) none_second
                ∙ stale_expected p d.bytes x b (kb ∙ ap remains first_bytes) o)))
            (λ a h. h))

module _ {H V : Type 0} where
  put_back_rip :
      (a : Bytes) (r : Router H) (o : Outcome (Ctx H V) HandlerError)
      → Holds (λ c. HasRoom r c × (c.rip ≡ a)) o
      → Returns (λ d. d.rip ≡ a) (put_back o)
  put_back_rip a r stuck h = h
  put_back_rip a r (crashed f) h = h
  put_back_rip a r (ended none d) (k, e) = e
  put_back_rip a r (ended (some (http_error n m)) d) (k, e) = e
  put_back_rip a r (ended (some (other_error m)) d) (k, e) = e

  -- The address of the client that an earlier request has left in a context, not empty, and kept by
  -- handlers that do not panic and keep the room of the context: after a request in a router that has
  -- been built by calls that all returned, IP still answers that address for the next request on the
  -- context, whatever its remote address and its headers are, though the middleware has set XFFInfo anew.
  pub stale_ip :
      (rx : Regexp) (code : H → Handler (Ctx H V) HandlerError) (cs : List (Call H))
      (defaults : List H) (r : Router H) (q p : RequestCtx) (c : Ctx H V) (x : ℕ) (a remote : Bytes)
      (info : XffInfo H V) (t : Trust)
      → calls rx cs (new_router defaults) ≡ done r
      → ((h : H) → Respects (λ d. HasRoom r d × (d.rip ≡ x ∷ a)) (code h))
      → HasRoom r c
      → c.rip ≡ x ∷ a
      → Returns
          (λ d.
            ip info remote (record (init p d) { xff_info = some t })
            ≡ done (record (init p d) { xff_info = some t }, x ∷ a))
          (handle_request rx code r q c)
  stale_ip rx code cs defaults r q p c x a remote info t e k h f =
      Returns-mono (λ (d : Ctx H V). d.rip ≡ x ∷ a) _ (handle_request rx code r q c)
        (handle_request-Returns rx code cs defaults r (λ d. HasRoom r d × (d.rip ≡ x ∷ a))
          (λ d. d.rip ≡ x ∷ a) q c e k (put_back_rip (x ∷ a) r)
          (λ m g. ((h.0, omega (arith, h.1, g)), f)) h.1)
        (λ d g. ip-known info remote t (record (init p d) { xff_info = some t }) x a refl g)
