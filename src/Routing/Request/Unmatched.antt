-- ===== src/Routing/Request/Unmatched.antt =====
-- Requests that no route answers, by the two default handlers, and what the context keeps of them.
use wx.Common.{
  ℕ, ◌≤◌, ◌<◌, ◌≡◌, none, some, List, [], ◌∷◌, ◌++◌, Bytes, codes, done, map, same, if◌then◌else◌,
  length, lookup, All-lookup, Returns, Returns-bind, Returns-both, Returns-elim, Returns-mono,
  Option-cases, inl, inr, refl, sym, subst, arith, ◌∙◌,
}
use wx.Routing.Store.Node.{Regexp}
use wx.Routing.Store.Get.{Found, max_int32}
use wx.Routing.Store.Least.{matches}
use wx.Routing.Store.Table.{Store}
use wx.Routing.Chain.{Handler, serve}
use wx.Routing.Router.{RouteData, Router, new_router}
use wx.Routing.Router.Register.{Match, find, allowed_from}
use wx.Routing.Router.Registered.{Call, calls, calls-find, Fits}
use wx.Routing.Router.Ranked.{calls-find-IsFirst, IsFirst}
use wx.Routing.Router.Allowed.{allowed_of, Small, calls-allowed_of}
use wx.Routing.Request.{
  RequestCtx, HandlerError, http_error, Ctx, clear, handle_error, put_back, answer_allow,
  not_found_handler, method_not_allowed_handler, handle_request,
}
use wx.Routing.Request.Answers.{HasRoom}

module _ {H V : Type 0} (rx : Regexp) (status_text : ℕ → Bytes) where
  -- What the default handlers leave, given the bytes of the context behind findAllowedMethods.
  left_by : Bytes → List Bytes → Ctx H V → Ctx H V
  left_by [] v s =
      clear (handle_error (http_error 404 (status_text 404)) (record s { bytes = []; pvalues = v }))
  left_by (x ∷ b) v s = clear (answer_allow (record s { bytes = x ∷ b; pvalues = v }))

  serve_defaults :
      (s : Ctx H V) (b : Bytes) (v : List Bytes)
      → allowed_from rx s.router.stores s.request.path s.pvalues s.bytes ≡ done (b, v)
      → put_back (serve (method_not_allowed_handler rx ∷ not_found_handler status_text ∷ []) s)
        ≡ done (left_by b v s)
  unfolding serve method_not_allowed_handler not_found_handler left_by
  serve_defaults s [] v e = rw (e, put_back)
  serve_defaults s (x ∷ b) v e = rw (e, put_back)

module _ {H : Type 0} where
  -- All matches of a method for a path.
  abbrev pub matches_of : Regexp → Router H → Bytes → Bytes → List (Found (RouteData H))
  matches_of rx r method path = elim (lookup method r.stores) [
    | none ↦ []
    | some s ↦ matches rx s.root path
  ]

  IsFirst-none :
      (r : Router H) (gs : List (Found (RouteData H))) (a : Match H)
      → gs ≡ []
      → IsFirst r gs a
      → a.handlers ≡ r.not_found_handlers
  IsFirst-none r gs a n (inl (e, o)) = o.0
  IsFirst-none r [] a n (inr (f, ((i, e), al), o)) = cc
  IsFirst-none r (g ∷ gs) a n (inr x) = cc

module _ {H : Type 0} (rx : Regexp) (cs : List (Call H)) (defaults : List H) (r : Router H)
    (built : calls rx cs (new_router defaults) ≡ done r) (small : Small r.stores) where
  find_unmatched :
      (method path : Bytes) (pvalues : List Bytes)
      → matches_of rx r method path ≡ []
      → r.max_params ≤ length pvalues
      → Returns (λ m. m.handlers ≡ r.not_found_handlers) (find rx r method path pvalues)
  unfolding find
  find_unmatched method path pvalues n le = elim (Option-cases (lookup method r.stores)) [
    | inl e ↦ rw (e, find) refl
    | inr (s, e) ↦
        Returns-mono (IsFirst r (matches rx s.root path)) (λ m. m.handlers ≡ r.not_found_handlers)
          (find rx r method path pvalues)
          (calls-find-IsFirst rx cs defaults r s method path pvalues built e
            (All-lookup (λ (t : Store (RouteData H)). t.count < max_int32) method r.stores s small
              e)
            le)
          (λ a h. IsFirst-none r (matches rx s.root path) a (rw (e, matches_of) at n) h)
  ]

-- The request as it is answered where no route is found, given the bytes behind findAllowedMethods.
abbrev pub expected : (ℕ → Bytes) → Bytes → RequestCtx → RequestCtx
expected status_text [] q = record q {
  status = 404;
  content_type = elim q.content_type [ [] ↦ codes "text/plain; charset=utf-8" | c ∷ t ↦ c ∷ t ];
  body = status_text 404;
}
expected status_text (x ∷ b) q = record q {
  allow = some ((x ∷ b) ++ codes "OPTIONS");
  status = if same q.method (codes "OPTIONS") then q.status else 405;
}

-- The bytes that stay in the context.
abbrev pub remains : Bytes → Bytes
remains [] = []
remains (x ∷ b) = (x ∷ b) ++ codes "OPTIONS"

module _ {H V : Type 0} (rx : Regexp) (status_text : ℕ → Bytes) (r : Router H) where
  abbrev pub IsExpected : RequestCtx → Bytes → Ctx H V → Type 0
  IsExpected q b d = (d.request ≡ expected status_text b q) × (d.bytes ≡ remains b) × HasRoom r d

  left_by-IsExpected :
      (s : Ctx H V) (b : Bytes) (v : List Bytes)
      → HasRoom r (record s { pvalues = v })
      → IsExpected s.request b (left_by rx status_text b v s)
  unfolding left_by
  left_by-IsExpected s [] v h = (refl, refl, h)
  left_by-IsExpected s (x ∷ b) v h = (refl, refl, h)

module _ {H V : Type 0} (rx : Regexp) (status_text : ℕ → Bytes)
    (code : H → Handler (Ctx H V) HandlerError) (cs : List (Call H)) (defaults : List H)
    (r : Router H) (i j : H) (built : calls rx cs (new_router defaults) ≡ done r)
    (small : Small r.stores) (first : code i ≡ method_not_allowed_handler rx)
    (last : code j ≡ not_found_handler status_text)
    (defaulted : r.not_found_handlers ≡ i ∷ j ∷ []) where
  defaults-IsExpected :
      (hs : List H) (s : Ctx H V)
      → hs ≡ i ∷ j ∷ []
      → HasRoom r s
      → Returns
          (IsExpected rx status_text r s.request (s.bytes ++ allowed_of rx r.stores s.request.path))
          (put_back (serve (map code hs) s))
  defaults-IsExpected hs s eh (er, le) =
      let (a, e, h) =
        Returns-elim
          (λ (a : Bytes × List Bytes).
            (length a.1 ≡ length s.pvalues)
            × (a.0 ≡ s.bytes ++ allowed_of rx r.stores s.request.path))
          (allowed_from rx r.stores s.request.path s.pvalues s.bytes)
          (calls-allowed_of rx cs defaults r s.request.path s.pvalues s.bytes built small le) in
      let run : put_back (serve (map code hs) s) ≡ done (left_by rx status_text a.0 a.1 s) =
        rw (eh, first, last)
          (serve_defaults rx status_text s a.0 a.1 (
            subst
              (λ (t : Router H). allowed_from rx t.stores s.request.path s.pvalues s.bytes ≡ done a)
              (sym er) e)) in
      rw run (
        subst (λ b. IsExpected rx status_text r s.request b (left_by rx status_text a.0 a.1 s)) h.1
          (left_by-IsExpected rx status_text r s a.0 a.1 (er, omega (arith, h.0, le))))

  -- A router that has been built by calls that all returned, with less than 2 ^ 31 - 1 routes in every
  -- store, and with the two default handlers alone for what is not found. A request that no route of
  -- its method matches: HandleRequest returns; with the bytes that the context had and then the methods
  -- with a route that matches the path, it answers 404 if there are none of both, and else by an Allow
  -- header of them and OPTIONS, with 405 if the method is not OPTIONS; the bytes of that header stay in
  -- the context.
  pub handle_unmatched :
      (q : RequestCtx) (c : Ctx H V)
      → matches_of rx r q.method q.path ≡ []
      → HasRoom r c
      → Returns
          (IsExpected rx status_text r q (c.bytes ++ allowed_of rx r.stores q.path))
          (handle_request rx code r q c)
  unfolding handle_request
  handle_unmatched q c n (eq, le) =
      Returns-bind
        (λ (m : Match H). Fits rx r (length c.pvalues) m × (m.handlers ≡ r.not_found_handlers))
        (IsExpected rx status_text r q (c.bytes ++ allowed_of rx r.stores q.path))
        (find rx r q.method q.path c.pvalues) _
        (Returns-both _ _ (find rx r q.method q.path c.pvalues)
          (calls-find rx cs defaults r q.method q.path c.pvalues built le)
          (find_unmatched rx cs defaults r built small q.method q.path c.pvalues n le))
        (λ (m : Match H) k.
          defaults-IsExpected m.handlers _ (k.1 ∙ defaulted) (eq, omega (arith, k.0.0, le)))
