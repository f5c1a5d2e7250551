-- ===== src/Session/Manager/Handle.antt =====
-- fasthttp-routing/middleware/session/scs.go: the middleware around the handlers of a request. What
-- the next handlers do with the session and the store is a parameter, and so is `Skip`.
use wx.Common.{
  ℕ, Bool, true, false, not, ◌||◌, ◌⊎◌, inl, inr, Option, none, some, List, [], ◌∷◌, ◌++◌, Bytes,
  codes, Panics, done, ◌>>=◌, if◌then◌else◌, length, ◌==◌,
}
use wx.Session.Data.{Status, destroyed, unmodified, modified, Data, get_as, as_bool, reset}
use wx.Session.Renew.{set_token}
use wx.Session.Manager.{Manager, Failure, start, commit}

-- The fields of `Config` that the cookie is made of; the lifetime is in whole seconds.
pub record Config : Type 0 where
  pub cok_name : Bytes
  pub cok_path : Bytes
  pub cok_domain : Bytes
  pub cok_secure : Bool
  pub disable_cok_http_only : Bool
  pub cok_same_site : ℕ
  pub disable_cok_persist : Bool
  pub lifetime : ℕ

-- The calls that set up a cookie, in their order.
pub data Setting : Type 0 where
  key value path domain : Bytes → Setting
  secure http_only : Bool → Setting
  same_site max_age : ℕ → Setting

-- What is done to the cookies of the response.
pub data Sent : Type 0 where
  nothing : Sent
  set_cookie : List Setting → Sent
  del_client_cookie : Bytes → Sent

abbrev pub unless_empty : Bytes → Setting → List Setting
unless_empty s x = if length s == 0 then [] else (x ∷ [])

abbrev pub when : Bool → Setting → List Setting
when b x = if b then x ∷ [] else []

-- `addCookieToResponse`
unfoldable pub cookie_settings : Config → Bytes → Bool → List Setting
cookie_settings cfg token remember =
    key cfg.cok_name
    ∷ value token
    ∷ (unless_empty cfg.cok_path (path cfg.cok_path)
        ++ (unless_empty cfg.cok_domain (domain cfg.cok_domain)
            ++ (when cfg.cok_secure (secure true)
                ++ (when cfg.disable_cok_http_only (http_only false)
                    ++ (same_site cfg.cok_same_site
                        ∷ when (not cfg.disable_cok_persist || remember) (max_age cfg.lifetime))))))

-- The response for a session that has been stored.
unfoldable pub answered : Config → Status → Bytes → Bool → Sent
unfolding cookie_settings
answered cfg destroyed token remember = del_client_cookie cfg.cok_name
answered cfg unmodified token remember = set_cookie (cookie_settings cfg token remember)
answered cfg modified token remember = set_cookie (cookie_settings cfg token remember)

module _ {T E : Type 0} where
  -- The error and the response after the handlers, whose error comes before that of the commit.
  unfoldable pub finished :
      Config → Option E → Option Failure → Data T → Option (E ⊎ Failure) × Sent
  unfolding answered get_as
  finished cfg none none d =
      (none, answered cfg d.status d.token.text (get_as as_bool (codes "__rememberMe") d))
  finished cfg (some e) none d =
      (some (inl e), answered cfg d.status d.token.text (get_as as_bool (codes "__rememberMe") d))
  finished cfg none (some f) d = (some (inr f), nothing)
  finished cfg (some e) (some f) d = (some (inl e), nothing)

module _ {S T E : Type 0} where
  -- `handleStatefulRequest`, with no context.
  unfoldable pub handle_stateful_request :
      Config
      → Manager S T
      → Option Bytes
      → Bool
      → Data T
      → S
      → (Data T → S → Panics (Option E × Data T × S))
      → Panics ((Option (E ⊎ Failure) × Sent) × Data T × S)
  unfolding start commit finished
  handle_stateful_request cfg s random new d st next = start s random new false d st >>= (λ r.
      elim r.0 [
        | some f ↦ done ((some (inr f), nothing), r.1, r.2)
        | none ↦
            next r.1 r.2
            >>= (λ n. commit s false n.1 n.2 >>= (λ c. done (finished cfg n.0 c.0 n.1, n.1, c.1)))
      ])

  -- `Config.Handle` for a request that is not skipped, with `getSession`: the data come from the pool
  -- and go back to it.
  unfoldable pub handle :
      Config
      → Manager S T
      → Option Bytes
      → Option Bytes
      → Bytes
      → Data T
      → S
      → (Data T → S → Panics (Option E × Data T × S))
      → Panics ((Option (E ⊎ Failure) × Sent) × Data T × S)
  unfolding set_token handle_stateful_request reset
  handle cfg s random csrf_random cookie d st next = set_token random cookie d >>= (λ t.
      handle_stateful_request cfg s csrf_random t.1 t.0 st next
      >>= (λ r. done (r.0, reset r.1, r.2)))
