-- ===== src/Csrf.antt =====
-- fasthttp-routing/middleware/csrf/verifyCsrfToken.go: which requests are let through to the next
-- handlers, and which get the csrf token of the session as a cookie. A request is what the middleware
-- reads of it; a missing header or form value has no bytes.
pub mod Contained
pub mod Sums
pub mod Laws
pub mod Resent
mod Tests
use wx.Common.{
  ℕ, Bool, true, false, not, ◌&&◌, ◌||◌, Option, none, some, List, [], ◌∷◌, Bytes, codes, same,
  if◌then◌else◌, length, ◌==◌,
}
use wx.Session.Hash.{validate_hash}
use wx.Cors.{has_prefix, any_prefix}

pub record Config : Type 0 where
  pub except : List Bytes
  pub no_cookie : Bool
  pub cok_lifetime : ℕ
  pub cok_path : Bytes
  pub cok_domain : Bytes
  pub cok_secure : Bool
  pub cok_same_site : ℕ

pub record Request : Type 0 where
  pub method : Bytes
  pub path : Bytes
  pub form_token : Bytes
  pub meta_token : Bytes
  pub cookie_token : Bytes

-- `ReadingMethod`
abbrev pub reading_method : Bytes
reading_method = codes "HEADGETOPTIONS"

-- `strings.Contains(s, p)`
unfoldable pub has_substring : Bytes → Bytes → Bool
unfolding has_prefix
has_substring [] p = has_prefix [] p
has_substring (b ∷ s) p = has_prefix (b ∷ s) p || has_substring s p

unfoldable pub is_reading : Request → Bool
unfolding has_substring
is_reading q = has_substring reading_method q.method

unfoldable pub in_except_array : Config → Request → Bool
unfolding any_prefix
in_except_array cfg q = any_prefix q.path cfg.except

abbrev pub first_filled : Bytes → Bytes → Bytes
first_filled [] t = t
first_filled (b ∷ s) t = b ∷ s

unfoldable pub get_token_from_request : Request → Bytes
get_token_from_request q = first_filled q.form_token (first_filled q.meta_token q.cookie_token)

unfoldable pub tokens_match : Request → Bytes → Bool
unfolding get_token_from_request same
tokens_match q token2 =
    let token = get_token_from_request q in
    (not (length token == 0) && not (length token2 == 0)) && same token token2

-- The calls of `newCookie`, in their order.
pub data Setting : Type 0 where
  domain path key value : Bytes → Setting
  max_age same_site : ℕ → Setting
  secure : Bool → Setting

abbrev pub when_filled : Bytes → Setting → List Setting → List Setting
when_filled [] x rest = rest
when_filled (b ∷ s) x rest = x ∷ rest

unfoldable pub new_cookie : Config → Bytes → List Setting
new_cookie cfg token = when_filled cfg.cok_domain (domain cfg.cok_domain) (
    when_filled cfg.cok_path (path cfg.cok_path) (
      key (codes "XSRF-TOKEN")
      ∷ value token
      ∷ max_age cfg.cok_lifetime
      ∷ secure cfg.cok_secure
      ∷ same_site cfg.cok_same_site
      ∷ []))

-- The cookie after the next handlers: none if it is switched off or there is no token.
unfoldable pub cookie_for : Config → Bytes → Option (List Setting)
unfolding new_cookie
cookie_for cfg token =
    if cfg.no_cookie || length token == 0 then none else some (new_cookie cfg token)

-- How a request ends: the mismatch, or the error of the next handlers, the state they leave, and a
-- cookie if one is sent.
pub data Outcome (R E : Type 0) : Type 0 where
  mismatch : Outcome R E
  passed : Option E → R → Option (List Setting) → Outcome R E

module _ {R E : Type 0} where
  -- `Config.handle`, given the csrf token of the session and what the next handlers do.
  unfoldable pub handle : Config → Request → Bytes → (R → Option E × R) → R → Outcome R E
  unfolding is_reading in_except_array tokens_match validate_hash cookie_for
  handle cfg q token2 next r =
      let s = next r in
      if is_reading q || (in_except_array cfg q || (tokens_match q token2 || validate_hash token2))
      then passed s.0 s.1 (cookie_for cfg token2)
      else mismatch
