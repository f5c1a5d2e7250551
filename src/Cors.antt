-- ===== src/Cors.antt =====
-- fasthttp-routing/middleware/cors/cors.go: the headers of cross-origin requests. The headers of a
-- response are code of others: their type `R` and its operations are an interface. A request is what
-- the middleware reads of it; a slice that may be nil is an option. A pattern is its match function.
pub mod Laws
pub mod Subdomain
mod Tests
use wx.Common.{
  ℕ, Bool, true, false, not, ◌&&◌, ◌||◌, Option, none, some, List, [], ◌∷◌, Bytes, codes, ◌≡◌, ◌≢◌,
  lookup, same, if◌then◌else◌, length, ◌==◌,
}

-- `SetCanonicalNoS` and `SetVCanonicalNoS`, `AddCanonicalNoS`, and `Peek`: what is set is found, and
-- other names are left as they are.
pub record Headers (R : Type 0) : Type 0 where
  pub set : Bytes → Bytes → R → R
  pub add : Bytes → Bytes → R → R
  pub peek : Bytes → R → Bytes
  pub peek-set : (n v : Bytes) (r : R) → peek n (set n v r) ≡ v
  pub peek-set_other : (n m v : Bytes) (r : R) → n ≢ m → peek n (set m v r) ≡ peek n r
  pub peek-add_other : (n m v : Bytes) (r : R) → n ≢ m → peek n (add m v r) ≡ peek n r

pub record Request : Type 0 where
  pub method : Bytes
  pub path : Bytes
  pub headers : List (Bytes × Bytes)

pub record Config : Type 0 where
  pub path : List Bytes
  pub allowed_methods : Option Bytes
  pub allowed_origins : Option (List Bytes)
  pub allowed_headers : Option Bytes
  pub exposed_headers : Bytes
  pub max_age : Bytes
  pub supports_credentials : Bool
  pub allowed_origins_patterns : List (Bytes → Bool)

abbrev pub allow_origin : Bytes
allow_origin = codes "Access-Control-Allow-Origin"

abbrev pub allow_credentials : Bytes
allow_credentials = codes "Access-Control-Allow-Credentials"

abbrev pub expose_headers : Bytes
expose_headers = codes "Access-Control-Expose-Headers"

abbrev pub allow_methods : Bytes
allow_methods = codes "Access-Control-Allow-Methods"

abbrev pub allow_headers : Bytes
allow_headers = codes "Access-Control-Allow-Headers"

abbrev pub max_age_name : Bytes
max_age_name = codes "Access-Control-Max-Age"

abbrev pub request_method : Bytes
request_method = codes "Access-Control-Request-Method"

abbrev pub request_headers : Bytes
request_headers = codes "Access-Control-Request-Headers"

abbrev pub vary : Bytes
vary = codes "Vary"

abbrev pub origin_name : Bytes
origin_name = codes "Origin"

-- A nil slice has no bytes.
abbrev pub bytes_of : Option Bytes → Bytes
bytes_of none = []
bytes_of (some s) = s

-- `Peek` of the request, nil for a missing header.
abbrev pub header : Request → Bytes → Option Bytes
header q n = lookup n q.headers

abbrev pub filled : Bytes → Bool
filled [] = false
filled (b ∷ s) = true

-- A slice that is empty but not nil.
abbrev pub is_true {ℓ} : {A : Type ℓ} → Option (List A) → Bool
is_true none = false
is_true (some []) = true
is_true (some (x ∷ s)) = false

-- `strings.HasPrefix(s, p)`
unfoldable pub has_prefix : Bytes → Bytes → Bool
has_prefix s [] = true
has_prefix [] (c ∷ p) = false
has_prefix (b ∷ s) (c ∷ p) = (b == c) && has_prefix s p

unfoldable pub any_prefix : Bytes → List Bytes → Bool
unfolding has_prefix
any_prefix s [] = false
any_prefix s (p ∷ ps) = has_prefix s p || any_prefix s ps

unfoldable pub has_matching_path : Config → Request → Bool
unfolding any_prefix same
has_matching_path cfg q = elim cfg.path [
  | [] ↦ false
  | p ∷ ps ↦ if same p (codes "*") then true else any_prefix q.path (p ∷ ps)
]

unfoldable pub is_preflight_request : Request → Bool
unfolding same lookup
is_preflight_request q =
    same q.method (codes "OPTIONS") && filled (bytes_of (header q request_method))

-- `slices.Contains`
unfoldable pub contains : List Bytes → Bytes → Bool
unfolding same
contains [] s = false
contains (x ∷ xs) s = same x s || contains xs s

unfoldable pub any_match : List (Bytes → Bool) → Bytes → Bool
any_match [] s = false
any_match (p ∷ ps) s = p s || any_match ps s

abbrev pub elements : Option (List Bytes) → List Bytes
elements none = []
elements (some l) = l

unfoldable pub is_origin_allowed : Config → Request → Bool
unfolding contains any_match lookup
is_origin_allowed cfg q =
    let origin = bytes_of (header q origin_name) in
    is_true cfg.allowed_origins
    || (contains (elements cfg.allowed_origins) origin
        || any_match cfg.allowed_origins_patterns origin)

-- `len(o) == 1 && o[0] == "*" && len(patterns) == 0`
abbrev pub is_any : List Bytes → List (Bytes → Bool) → Bool
is_any [] ps = false
is_any (s ∷ []) [] = same s (codes "*")
is_any (s ∷ []) (p ∷ ps) = false
is_any (s ∷ t ∷ ss) ps = false

module _ {R : Type 0} (h : Headers R) where
  -- The header is set to the origin of the request, if there is one.
  abbrev pub set_origin : Option Bytes → R → R
  set_origin none r = r
  set_origin (some o) r = h.set allow_origin o r

  unfoldable pub configure_allowed_origin : Config → Request → R → R
  unfolding is_origin_allowed same lookup
  configure_allowed_origin cfg q r =
      let origin = header q origin_name in
      if is_true cfg.allowed_origins && not cfg.supports_credentials
      then h.set allow_origin (codes "*") r
      else (if is_any (elements cfg.allowed_origins) cfg.allowed_origins_patterns
          then set_origin origin r
          else h.add vary origin_name (
              if filled (bytes_of origin) && is_origin_allowed cfg q
              then set_origin origin r
              else r))

  abbrev pub set_filled : Bytes → Bytes → R → R
  set_filled name v r = if filled v then h.set name v r else r

  unfoldable pub configure_allowed_methods : Config → Request → R → R
  unfolding lookup
  configure_allowed_methods cfg q r =
      if is_true cfg.allowed_methods
      then set_filled allow_methods (bytes_of (header q request_method))
          (h.add vary request_method r)
      else set_filled allow_methods (bytes_of cfg.allowed_methods) r

  unfoldable pub configure_allowed_headers : Config → Request → R → R
  unfolding lookup
  configure_allowed_headers cfg q r =
      if is_true cfg.allowed_headers
      then set_filled allow_headers (bytes_of (header q request_headers))
          (h.add vary request_headers r)
      else set_filled allow_headers (bytes_of cfg.allowed_headers) r

  abbrev pub set_credentials : Config → R → R
  set_credentials cfg r =
      if cfg.supports_credentials then h.set allow_credentials (codes "true") r else r

  unfoldable pub add_actual_request_headers : Config → Request → R → R
  unfolding configure_allowed_origin
  add_actual_request_headers cfg q r =
      let s = configure_allowed_origin cfg q r in
      if filled (h.peek allow_origin s)
      then set_filled expose_headers cfg.exposed_headers (set_credentials cfg s)
      else s

  unfoldable pub add_preflight_request_headers : Config → Request → R → R
  unfolding configure_allowed_origin configure_allowed_methods configure_allowed_headers
  add_preflight_request_headers cfg q r =
      let s = configure_allowed_origin cfg q r in
      if filled (h.peek allow_origin s)
      then set_filled max_age_name cfg.max_age (
          configure_allowed_headers cfg q (configure_allowed_methods cfg q (set_credentials cfg s)))
      else s

module _ {R E : Type 0} (h : Headers R) where
  -- The middleware, given whether it is skipped, how the status 204 is set, and what the next handlers
  -- do.
  unfoldable pub cors : Config → Bool → (R → R) → Request → (R → Option E × R) → R → Option E × R
  unfolding has_matching_path is_preflight_request add_preflight_request_headers
      add_actual_request_headers same
  cors cfg skip no_content q next r =
      let s = next r in
      let optioned =
        if same q.method (codes "OPTIONS") then h.add vary request_method s.1 else s.1 in
      if skip || not (has_matching_path cfg q)
      then next r
      else (if is_preflight_request q
          then (
            none,
            h.add vary request_method (add_preflight_request_headers h cfg q (no_content r)),
          )
          else (s.0, add_actual_request_headers h cfg q optioned))
