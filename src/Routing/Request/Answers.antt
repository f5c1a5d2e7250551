-- ===== src/Routing/Request/Answers.antt =====
-- `HandleRequest` answers every request, whatever context the pool gives.
use wx.Common.{
  ℕ, suc, ◌≤◌, ◌≡◌, none, some, List, [], ◌∷◌, done, map, take, drop, get_elem?, length, All,
  All-append, All-take, All-drop, Bytes, All-get_elem?, Returns, Returns-bind, Returns-elim,
  Option-cases, inl, inr, refl, arith, length-replicate,
}
use wx.Routing.Store.Node.{Regexp}
use wx.Routing.Chain.{Handler, stuck, ended, crashed, Outcome}
use wx.Routing.Chain.Kept.{Respects, Holds, serve-Holds}
use wx.Routing.Router.{Router, new_router}
use wx.Routing.Router.Register.{Match, find, allowed_from}
use wx.Routing.Router.Registered.{Call, calls, calls-find, calls-allowed, Fits}
use wx.Routing.Request.{
  RequestCtx, HandlerError, http_error, other_error, Ctx, put_back, from_pool, allow_or_pass,
  method_not_allowed_handler, handle_request, handle_all,
}

module _ {H V : Type 0} where
  -- The context is one of the router, and has a value for every parameter.
  abbrev pub HasRoom : Router H → Ctx H V → Type 0
  HasRoom r c = (c.router ≡ r) × (r.max_params ≤ length c.pvalues)

  -- What goes back into the pool: the same, with no data items and no route.
  abbrev pub IsClean : Router H → Ctx H V → Type 0
  IsClean r c = HasRoom r c × (c.data_items ≡ []) × (c.route ≡ none)

  put_back-IsClean :
      (r : Router H) (o : Outcome (Ctx H V) HandlerError)
      → Holds (HasRoom r) o
      → Returns (IsClean r) (put_back o)
  put_back-IsClean r stuck h = h
  put_back-IsClean r (crashed f) h = h
  put_back-IsClean r (ended none d) h = (h, refl, refl)
  put_back-IsClean r (ended (some (http_error n m)) d) h = (h, refl, refl)
  put_back-IsClean r (ended (some (other_error m)) d) h = (h, refl, refl)

  All-code :
      (P : Ctx H V → Type 0) (code : H → Handler (Ctx H V) HandlerError) (hs : List H)
      → ((h : H) → Respects P (code h))
      → All (Respects P) (map code hs)
  All-code P code [] k = tt
  All-code P code (h ∷ hs) k = (k h, All-code P code hs k)

  from_pool-IsClean :
      (r : Router H) (request : RequestCtx) (i : ℕ) (pool : List (Ctx H V))
      → All (IsClean r) pool
      → HasRoom r (from_pool r request i pool).0 × All (IsClean r) (from_pool r request i pool).1
  from_pool-IsClean r request i pool h = elim (Option-cases (get_elem? pool i)) [
    | inl e ↦
        rw (e, from_pool) ((refl, omega (arith, length-replicate {A = Bytes} r.max_params [])), h)
    | inr (c, e) ↦
        rw (e, from_pool)
          (
            (All-get_elem? (IsClean r) pool i c h e).0,
            All-append (IsClean r) (take i pool) (drop (suc i) pool) (All-take (IsClean r) i pool h)
                (All-drop (IsClean r) (suc i) pool h),
          )
  ]

module _ {H V : Type 0} (rx : Regexp) (code : H → Handler (Ctx H V) HandlerError)
    (cs : List (Call H)) (defaults : List H) (r : Router H) where
  -- The two default handlers do not panic, and keep the room.
  allow_or_pass-Respects : (b : Bytes) → Respects (HasRoom {H = H} {V = V} r) (allow_or_pass b)
  allow_or_pass-Respects [] = tt
  allow_or_pass-Respects (x ∷ b) = ((λ d h. h), tt)

  pub method_not_allowed_handler-Respects :
      calls rx cs (new_router defaults) ≡ done r
      → Respects (HasRoom {H = H} {V = V} r) (method_not_allowed_handler rx)
  unfolding method_not_allowed_handler
  method_not_allowed_handler-Respects e s (f, le) =
      let (a, found, h) =
        Returns-elim (λ (a : Bytes × List Bytes). length a.1 ≡ length s.pvalues)
          (allowed_from rx r.stores s.request.path s.pvalues s.bytes)
          (calls-allowed rx cs defaults r s.request.path s.pvalues s.bytes e le) in
      rw (f, found, Respects) ((λ d k. (k.0, omega (arith, h, le))), allow_or_pass-Respects a.0)

  -- What the handlers keep of the context, and what comes of it at the end.
  pub handle_request-Returns :
      (P R : Ctx H V → Type 0) (request : RequestCtx) (c : Ctx H V)
      → calls rx cs (new_router defaults) ≡ done r
      → ((h : H) → Respects P (code h))
      → ((o : Outcome (Ctx H V) HandlerError) → Holds P o → Returns R (put_back o))
      → ((m : Match H)
          → length m.pvalues ≡ length c.pvalues
          → P (record c {
            request = request;
            pnames = m.pnames;
            route = m.route;
            pvalues = m.pvalues;
          }))
      → r.max_params ≤ length c.pvalues
      → Returns R (handle_request rx code r request c)
  unfolding handle_request
  handle_request-Returns P R request c e k finish start le =
      Returns-bind (Fits rx r (length c.pvalues)) R
        (find rx r request.method request.path c.pvalues) _
        (calls-find rx cs defaults r request.method request.path c.pvalues e le)
        (λ (m : Match H) f.
          finish _
            (serve-Holds P (map code m.handlers) _ (All-code P code m.handlers k) (start m f.0)))

  handle_request-IsClean :
      (request : RequestCtx) (c : Ctx H V)
      → calls rx cs (new_router defaults) ≡ done r
      → ((h : H) → Respects (HasRoom r) (code h))
      → HasRoom r c
      → Returns (IsClean r) (handle_request rx code r request c)
  handle_request-IsClean request c e k h =
      handle_request-Returns (HasRoom r) (IsClean r) request c e k (put_back-IsClean r)
        (λ m f. (h.0, omega (arith, h.1, f))) h.1

  -- A router that has been built by calls that all returned, handlers that do not panic and keep the
  -- room of the contexts, and a pool of clean contexts: one request after the other is answered,
  -- whatever contexts the pool gives, and the contexts that go back have room, no data items and no
  -- route.
  pub handle_all-IsClean :
      (requests : List (ℕ × RequestCtx)) (pool : List (Ctx H V))
      → calls rx cs (new_router defaults) ≡ done r
      → ((h : H) → Respects (HasRoom r) (code h))
      → All (IsClean r) pool
      → Returns
          (λ a. (length a.0 ≡ length requests) × All (IsClean r) a.1)
          (handle_all rx code r requests pool)
  unfolding handle_all
  handle_all-IsClean [] pool e k h = (refl, h)
  handle_all-IsClean ((i, q) ∷ requests) pool e k h =
      let taken = from_pool-IsClean r q i pool h in
      Returns-bind (IsClean r)
        (λ (a : List RequestCtx × List (Ctx H V)).
          (length a.0 ≡ suc (length requests)) × All (IsClean r) a.1)
        (handle_request rx code r q (from_pool r q i pool).0) _
        (handle_request-IsClean q (from_pool r q i pool).0 e k taken.0)
        (λ c p.
          Returns-bind
            (λ (a : List RequestCtx × List (Ctx H V)).
              (length a.0 ≡ length requests) × All (IsClean r) a.1)
            (λ (a : List RequestCtx × List (Ctx H V)).
              (length a.0 ≡ suc (length requests)) × All (IsClean r) a.1)
            (handle_all rx code r requests (c ∷ (from_pool r q i pool).1))
            (λ a. done (c.request ∷ a.0, a.1))
            (handle_all-IsClean requests (c ∷ (from_pool r q i pool).1) e k (p, taken.1))
            (λ a f. (omega (arith, f.0), f.1)))
