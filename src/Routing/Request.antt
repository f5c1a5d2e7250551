-- ===== src/Routing/Request.antt =====
-- A request from its start to its end: `HandleRequest`, `handleError`, the pool of contexts and the two
-- default handlers of fasthttp-routing/router.go, the context of context.go, and error.go. `H` is the
-- type of the handlers, and `code` says what each of them does; `V` is the type of the data items.
pub mod Client
pub mod Answers
pub mod Unmatched
pub mod Stale
mod Tests
use wx.Common.{
  Bool, ℤ, pos, ℕ, ◌∷◌, Option, none, some, List, [], ◌++◌, Bytes, codes, Panics, panic,
  out_of_fuel, done, ◌>>=◌, map, replicate, same, if◌then◌else◌, lookup, assign, get_elem?, drop,
  take, suc,
}
use wx.Routing.Store.Node.{Regexp}
use wx.Routing.Chain.{
  Handler, Outcome, serve, return, look, update, abort, stuck, ended, crash, crashed,
}
use wx.Routing.Router.{Router}
use wx.Routing.Router.Register.{find, allowed_from}

-- What the code uses of fasthttp.RequestCtx. `headers` are the request's, and `remote` the net.IP of its
-- remote address, empty if that is of neither of the two kinds; `content_type` is the response's, as its
-- getter says, and `allow` the header of that name.
pub record RequestCtx : Type 0 where
  pub method : Bytes
  pub path : Bytes
  pub headers : List (Bytes × Bytes)
  pub remote : Bytes
  pub is_tls : Bool
  pub status : ℕ
  pub content_type : Bytes
  pub allow : Option Bytes
  pub body : Bytes

-- An error that a handler returns: an `HTTPError`, or another error with its text.
pub data HandlerError : Type 0 where
  http_error : ℕ → Bytes → HandlerError
  other_error : Bytes → HandlerError

-- What an `xffInfo` of middleware/xff/xff.go knows of the sender: FROMUNKNOWN, FROMUNTRUSTED, FROMTRUST.
-- It is the only kind of `XFFInfo`.
pub data Trust : Type 0 where
  unknown untrusted trusted : Trust

module _ (H V : Type 0) where
  pub record Ctx : Type 0 where
    pub request : RequestCtx
    pub router : Router H
    pub pnames : List Bytes
    pub pvalues : List Bytes
    pub data_items : List (Bytes × V)
    pub route : Option ℕ
    pub bytes : Bytes
    pub xff_info : Option Trust
    pub rip : Bytes
    pub rhost : Bytes
    pub rport : ℤ
    pub rsecure : ℕ

module _ {H V : Type 0} where
  -- `pool.New`
  abbrev pub new_ctx : Router H → RequestCtx → Ctx H V
  new_ctx r request = record {
    request = request;
    router = r;
    pnames = [];
    pvalues = replicate r.max_params [];
    data_items = [];
    route = none;
    bytes = [];
    xff_info = none;
    rip = [];
    rhost = [];
    rport = pos 0;
    rsecure = 0;
  }

  -- `Ctx.init` and `Ctx.clear`
  abbrev pub init : RequestCtx → Ctx H V → Ctx H V
  init request c = record c { request = request }

  abbrev pub clear : Ctx H V → Ctx H V
  clear c = record c { data_items = []; route = none }

  -- `Ctx.Get` and `Ctx.Set`
  unfoldable pub get_item : Ctx H V → Bytes → Option V
  unfolding lookup
  get_item c name = lookup name c.data_items

  unfoldable pub set_item : Bytes → V → Ctx H V → Ctx H V
  unfolding assign
  set_item name value c = record c { data_items = assign name value c.data_items }

  -- `Ctx.Error`
  abbrev pub error : Bytes → ℕ → Ctx H V → Ctx H V
  error msg status c = record c {
    request = record c.request {
      status = status;
      content_type = elim c.request.content_type [
        | [] ↦ codes "text/plain; charset=utf-8"
        | b ∷ t ↦ b ∷ t
      ];
      body = msg;
    };
  }

  -- `Router.handleError`
  abbrev pub handle_error : HandlerError → Ctx H V → Ctx H V
  handle_error (http_error status msg) c = error msg status c
  handle_error (other_error msg) c = error msg 500 c

  -- The end of `HandleRequest`, with what is put back into the pool.
  abbrev pub put_back : Outcome (Ctx H V) HandlerError → Panics (Ctx H V)
  put_back stuck = panic out_of_fuel
  put_back (crashed f) = panic f
  put_back (ended none d) = done (clear d.state)
  put_back (ended (some e) d) = done (clear (handle_error e d.state))

  -- `pool.Get`: the context at the index, or a new one, and what stays in the pool.
  abbrev pub from_pool : Router H → RequestCtx → ℕ → List (Ctx H V) → Ctx H V × List (Ctx H V)
  from_pool r request i pool = elim (get_elem? pool i) [
    | none ↦ (new_ctx r request, pool)
    | some c ↦ (c, take i pool ++ drop (suc i) pool)
  ]

  -- `NotFoundHandler`, given `http.StatusText`.
  unfoldable pub not_found_handler : (ℕ → Bytes) → Handler (Ctx H V) HandlerError
  not_found_handler status_text = return (some (http_error 404 (status_text 404)))

  -- The answer of `MethodNotAllowedHandler`, when the bytes of the context are not empty.
  abbrev pub answer_allow : Ctx H V → Ctx H V
  answer_allow c =
      let allow = c.bytes ++ codes "OPTIONS" in
      record c {
        bytes = allow;
        request = record c.request {
          allow = some allow;
          status = if same c.request.method (codes "OPTIONS") then c.request.status else 405;
        };
      }

  -- `MethodNotAllowedHandler` behind `findAllowedMethods`.
  abbrev pub allow_or_pass : Bytes → Handler (Ctx H V) HandlerError
  allow_or_pass [] = return none
  allow_or_pass (b ∷ s) = update answer_allow (abort (return none))

module _ {H V : Type 0} (rx : Regexp) where
  -- `MethodNotAllowedHandler`
  unfoldable pub method_not_allowed_handler : Handler (Ctx H V) HandlerError
  unfolding allowed_from same
  method_not_allowed_handler = look (λ c.
      elim (allowed_from rx c.router.stores c.request.path c.pvalues c.bytes) [
        | panic e ↦ crash e
        | done a ↦ update (λ d. record d { bytes = a.0; pvalues = a.1 }) (allow_or_pass a.0)
      ])

module _ {H V : Type 0} (rx : Regexp) (code : H → Handler (Ctx H V) HandlerError) where
  -- `HandleRequest`, with the context that the pool gives.
  unfoldable pub handle_request : Router H → RequestCtx → Ctx H V → Panics (Ctx H V)
  unfolding find serve
  handle_request r request held = do
    let c = init request held
    m ← find rx r request.method request.path c.pvalues
    put_back (
        serve (map code m.handlers)
          (record c { pnames = m.pnames; route = m.route; pvalues = m.pvalues }))

  -- One request after the other: the pool gives any of the contexts that have been put back, or a
  -- new one. The result holds the requests as they are answered.
  unfoldable pub handle_all :
      Router H → List (ℕ × RequestCtx) → List (Ctx H V) → Panics (List RequestCtx × List (Ctx H V))
  unfolding handle_request
  handle_all r [] pool = done ([], pool)
  handle_all r ((i, request) ∷ requests) pool = do
    let taken = from_pool r request i pool
    c ← handle_request r request taken.0
    a ← handle_all r requests (c ∷ taken.1)
    done (c.request ∷ a.0, a.1)
