-- ===== src/Cors/Tests.antt =====
-- Requests of one origin, and the theorems on them. The headers of a response are a function here.
use wx.Common.{
  ℕ, true, false, Option, none, some, List, [], ◌∷◌, Bytes, codes, ◌≡◌, ◌≢◌, ◌⊎◌, inl, inr, same,
  same_iff, same_refl, Bool-cases, if◌then◌else◌, lookup, refl, sym,
}
use wx.Cors.{
  Headers, Request, Config, contains, bytes_of, any_match, allow_origin, origin_name, header,
  configure_allowed_origin, has_matching_path, is_preflight_request,
}
use wx.Cors.Laws.{credentials_origin}

abbrev written : Bytes → Bytes → (Bytes → Bytes) → Bytes → Bytes
written n v r m = if same n m then v else r m

written_same : (n v : Bytes) (r : Bytes → Bytes) → written n v r n ≡ v
written_same n v r = rw (same_refl n) refl

written_other : (n m v : Bytes) (r : Bytes → Bytes) → n ≢ m → written m v r n ≡ r n
written_other n m v r ne = elim (Bool-cases (same m n)) [
  | inl e ↦ absurd (ne (sym ((same_iff m n).0 e)))
  | inr e ↦ rw e refl
]

abbrev functions : Headers (Bytes → Bytes)
functions = record {
  set = written;
  add = written;
  peek = λ n r. r n;
  peek-set = written_same;
  peek-set_other = written_other;
  peek-add_other = written_other;
}

abbrev request : Request
request = record {
  method = codes "OPTIONS";
  path = codes "/api/x";
  headers =
      (codes "Origin", codes "http://a")
      ∷ (codes "Access-Control-Request-Method", codes "PUT")
      ∷ [];
}

abbrev config : List Bytes → Config
config origins = record {
  path = codes "/api" ∷ [];
  allowed_methods = some [];
  allowed_origins = some origins;
  allowed_headers = some [];
  exposed_headers = [];
  max_age = [];
  supports_credentials = true;
  allowed_origins_patterns = [];
}

abbrev empty : Bytes → Bytes
empty n = []

credentials_origin_example :
    (configure_allowed_origin functions (config (codes "*" ∷ [])) request empty allow_origin ≡ [])
    ⊎ (header request origin_name
        ≡ some (
            configure_allowed_origin functions
              (config (codes "*" ∷ []))
              request
              empty
              allow_origin))
credentials_origin_example =
    credentials_origin functions (config (codes "*" ∷ [])) request empty refl

not_listed :
    contains (codes "http://b" ∷ codes "http://c" ∷ []) (bytes_of (header request origin_name))
    ≡ false
unfolding contains lookup
not_listed = refl

no_match : any_match [] (bytes_of (header request origin_name)) ≡ false
unfolding any_match
no_match = refl

on_path : has_matching_path (config []) request ≡ true
unfolding has_matching_path
on_path = refl

is_preflight : is_preflight_request request ≡ true
unfolding is_preflight_request
is_preflight = refl

abbrev failing : (Bytes → Bytes) → Option ℕ × (Bytes → Bytes)
failing r = (some 1, r)

abbrev stopping : (Bytes → Bytes) → Option ℕ × (Bytes → Bytes)
stopping r = (none, r)
